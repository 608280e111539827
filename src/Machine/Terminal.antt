-- ===== src/Machine/Terminal.antt =====
-- The terminal statuses of server/core/state/machine.py.
use uumi.Prelude.{List, String, absurd, arith, inl, inr, none, refl, ℕ, ◌≡◌, ◌≢◌, ◌⊎◌}
use uumi.Contracts.{RecoveryMode, RotationRun, RunStatus, Stage, status_eq}
use uumi.Machine.Effects.{
  Effect, apply-Effect, cancelled_by, cleaned, completed_stage, failed_run, paused, recovered,
  recovery_completed, renewed, resumed, started,
}
use uumi.Machine.Completion.{Advanced, finished, moved}
use uumi.Machine.Settlement.{Settled, retried, settled}
use uumi.Machine.{Machine, Op, Reach, apply, bind_fields, here, next, stamp}
use uumi.Errors.{ok}

abbrev pub IsTerminal : RotationRun → Type 0
IsTerminal r =
    (r.status ≡ RunStatus.completed)
    ⊎ (r.status ≡ RunStatus.cancelled)
    ⊎ (r.status ≡ RunStatus.compensated)

terminal_no_Effect :
    {m : Machine} {op : Op} (r : RotationRun) {s : RotationRun}
    → IsTerminal r
    → r.lease ≡ none
    → Effect m r s op
    → ⊥
terminal_no_Effect r t l (completed_stage c) = ground (arith, c.was_running)
terminal_no_Effect r t l (recovery_completed c) = ground (arith, c.was_recovering)
terminal_no_Effect r t l (started a b c e) = ground arith
terminal_no_Effect r t l (renewed a b c d e) = ground arith
terminal_no_Effect r t l (paused a b c e) = ground arith
terminal_no_Effect r t l (resumed a b c d e) = ground arith
terminal_no_Effect r t l (cleaned a b c e) = ground arith
terminal_no_Effect r t l (failed_run a b c e) = ground arith
terminal_no_Effect r t l (cancelled_by a b e) = ground arith
terminal_no_Effect r t l (recovered a b c d e) = ground arith

completion_lease :
    {r : RotationRun} {now : ℕ} {from : Stage} {s : RotationRun}
    → Advanced r now from s
    → IsTerminal s
    → s.lease ≡ none
unfolding stamp
completion_lease (finished e) t = ground arith
completion_lease (moved to i e) t = ground arith

settlement_lease :
    {r : RotationRun} {id : String} {ev : List String} {now : ℕ} {mode : RecoveryMode}
    {s : RotationRun}
    → Settled r id ev now mode s
    → IsTerminal s
    → s.lease ≡ none
unfolding stamp
settlement_lease (retried t e) d = ground arith
settlement_lease (settled n e) d = ground arith

-- A call that ends a run takes its lease.
Effect-lease_of_terminal :
    {m : Machine} {op : Op} (r : RotationRun) {s : RotationRun}
    → ¬ IsTerminal r
    → Effect m r s op
    → IsTerminal s
    → s.lease ≡ none
unfolding stamp bind_fields
Effect-lease_of_terminal r n (completed_stage c) t = completion_lease c.advanced t
Effect-lease_of_terminal r n (recovery_completed c) t = settlement_lease c.ended t
Effect-lease_of_terminal r n (started a b c e) t = ground arith
Effect-lease_of_terminal r n (renewed a b c d e) t = absurd (n (ground arith))
Effect-lease_of_terminal r n (paused a b c e) t = ground arith
Effect-lease_of_terminal r n (resumed a b c d e) t = ground arith
Effect-lease_of_terminal r n (cleaned a b c e) t = ground arith
Effect-lease_of_terminal r n (failed_run a b c e) t = ground arith
Effect-lease_of_terminal r n (cancelled_by a b e) t = ground arith
Effect-lease_of_terminal r n (recovered a b c d e) t = ground arith

IsTerminal-dec : (r : RotationRun) → IsTerminal r ⊎ (¬ IsTerminal r)
IsTerminal-dec r = go r.status refl
  where
    go : (x : RunStatus) → r.status ≡ x → IsTerminal r ⊎ (¬ IsTerminal r)
    go RunStatus.completed e = inl (inl e)
    go RunStatus.cancelled e = inl (inr (inl e))
    go RunStatus.compensated e = inl (inr (inr e))
    go _ e = inr (λ t. ground arith)

Reach-lease_of_terminal :
    {m : Machine} {r s : RotationRun} → ¬ IsTerminal r → Reach m r s → IsTerminal s → s.lease ≡ none
Reach-lease_of_terminal n here t = absurd (n t)
Reach-lease_of_terminal n (next {s = s} w op e) t = elim (IsTerminal-dec s) [
  | inl d ↦ absurd (terminal_no_Effect s d (Reach-lease_of_terminal n w d) (apply-Effect _ op s e))
  | inr nt ↦ Effect-lease_of_terminal s nt (apply-Effect _ op s e) t
]

-- Once a history that began before has completed, cancelled or compensated a run, no call succeeds
-- on it any more.
pub terminal_is_final :
    (m : Machine) (r s t : RotationRun) (op : Op)
    → ¬ IsTerminal r
    → Reach m r s
    → IsTerminal s
    → apply m op s ≢ ok t
terminal_is_final m r s t op n w done h =
    terminal_no_Effect s done (Reach-lease_of_terminal n w done) (apply-Effect m op s h)
