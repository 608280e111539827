-- ===== src/Machine/Fencing.antt =====
-- Fencing tokens and leases of server/core/state/machine.py: who may still act on a run.
use uumi.Prelude.{
  Bool, List, Option, String, arith, false, if◌then◌else◌, ltb, none, refl, some, true, ℕ, ◌+◌, ◌≡◌,
  ◌≢◌, ◌≤◌,
}
use uumi.Contracts.{IsValid, Lease, RecoveryMode, RotationRun, Stage, StageBindings, status_eq}
use uumi.Machine.Effects.{
  Effect, apply-Effect, cancelled_by, cleaned, completed_stage, failed_run, paused, recovered,
  recovery_completed, renewed, resumed, started,
}
use uumi.Machine.Completion.{Advanced, finished, moved}
use uumi.Machine.Settlement.{Settled, retried, settled}
use uumi.Machine.Validity.{Reach-IsValid, apply-IsValid}
use uumi.Errors.{ok}
use uumi.Machine.{
  Machine, Op, Reach, apply, bind_fields, here, holds_lease, may_interrupt, next, op_cancel,
  op_cleanup, op_complete, op_complete_recovery, op_fail, op_pause, op_recover, op_renew, op_resume,
  op_start, stamp, without_recovery,
}

-- The calls that give out a new fencing token.
abbrev pub is_grant : Op → Bool
is_grant (op_start _ _ _ _) = true
is_grant (op_resume _ _ _ _) = true
is_grant (op_cancel _ _) = true
is_grant (op_recover _ _ _ _) = true
is_grant _ = false

abbrev pub granted : Op → ℕ
granted op = if is_grant op then 1 else 0

Advanced-fencing_token :
    (r : RotationRun) (b : StageBindings) (now : ℕ) (from : Stage) {s : RotationRun}
    → Advanced (bind_fields b r) now from s
    → s.fencing_token ≡ r.fencing_token + 0
unfolding stamp bind_fields
Advanced-fencing_token r b now from (finished e) = ground arith
Advanced-fencing_token r b now from (moved to i e) = ground arith

Settled-fencing_token :
    (r : RotationRun) (id : String) (ev : List String) (now : ℕ) {mode : RecoveryMode}
    {s : RotationRun}
    → Settled r id ev now mode s
    → s.fencing_token ≡ r.fencing_token + 0
unfolding stamp
Settled-fencing_token r id ev now (retried t e) = ground arith
Settled-fencing_token r id ev now (settled n e) = ground arith

Effect-fencing_token :
    {m : Machine} {op : Op} (r : RotationRun) {s : RotationRun}
    → Effect m r s op
    → s.fencing_token ≡ r.fencing_token + granted op
unfolding stamp without_recovery
Effect-fencing_token r (completed_stage {now = now} {b = b} c) =
    Advanced-fencing_token r b now r.stage c.advanced
Effect-fencing_token r (recovery_completed {id = id} {ev = ev} {now = now} c) =
    Settled-fencing_token r id ev now c.ended
Effect-fencing_token r (started a b c e) = ground arith
Effect-fencing_token r (renewed a b c d e) = ground arith
Effect-fencing_token r (paused a b c e) = ground arith
Effect-fencing_token r (resumed a b c d e) = ground arith
Effect-fencing_token r (cleaned a b c e) = ground arith
Effect-fencing_token r (failed_run a b c e) = ground arith
Effect-fencing_token r (cancelled_by a b e) = ground arith
Effect-fencing_token r (recovered a b c d e) = ground arith

-- Start, resume, recover and cancel raise the fencing token by one; no other call changes it.
pub apply-fencing_token :
    (m : Machine) (op : Op) (r : RotationRun) {s : RotationRun}
    → apply m op r ≡ ok s
    → s.fencing_token ≡ r.fencing_token + granted op
apply-fencing_token m op r h = Effect-fencing_token r (apply-Effect m op r h)

Reach-fencing_token :
    {m : Machine} {r s : RotationRun} → Reach m r s → r.fencing_token ≤ s.fencing_token
Reach-fencing_token here = omega arith
Reach-fencing_token (next {s = s} w op e) =
    omega (arith, Reach-fencing_token w, apply-fencing_token _ op s e)

-- The token that a worker shows.
abbrev pub shown_token : Op → Option ℕ
shown_token (op_renew _ tok _ _ _) = some tok
shown_token (op_complete _ tok _ _ _) = some tok
shown_token (op_pause tok _ _) = some tok
shown_token (op_complete_recovery _ _ _ tok _ _) = some tok
shown_token (op_cleanup _ tok _ _) = some tok
shown_token (op_fail _ tok _ _) = some tok
shown_token _ = none

-- The calls that take any token once the lease has expired.
abbrev pub interrupts : Op → Bool
interrupts (op_cleanup _ _ _ _) = true
interrupts (op_fail _ _ _ _) = true
interrupts _ = false

-- The run has a lease that has not expired.
abbrev pub is_leased : Option Lease → ℕ → Bool
is_leased none now = false
is_leased (some l) now = ltb now l.expires_at

-- The time of a call.
abbrev pub call_time : Op → ℕ
call_time (op_start _ _ _ now) = now
call_time (op_renew _ _ _ _ now) = now
call_time (op_complete _ _ _ now _) = now
call_time (op_pause _ _ now) = now
call_time (op_resume _ _ _ now) = now
call_time (op_cleanup _ _ _ now) = now
call_time (op_fail _ _ _ now) = now
call_time (op_cancel _ now) = now
call_time (op_recover _ _ _ now) = now
call_time (op_complete_recovery _ _ _ _ _ now) = now

holds_lease-token :
    (r : RotationRun) (tok now : ℕ)
    → IsValid r
    → holds_lease r.lease tok now ≡ true
    → tok ≡ r.fencing_token
holds_lease-token r tok now v h = ground arith

interrupt-token :
    (r : RotationRun) (tok now : ℕ)
    → IsValid r
    → may_interrupt r.lease tok now ≡ true
    → is_leased r.lease now ≡ true
    → tok ≡ r.fencing_token
interrupt-token r tok now v may live = ground arith

-- What makes the token of a call matter: the call does not interrupt, or the lease has not expired.
abbrev TokenCounts : Op → RotationRun → Type 0
TokenCounts op r = interrupts op ≡ true → is_leased r.lease (call_time op) ≡ true

Effect-shown_token :
    {m : Machine} {op : Op} (r : RotationRun) (tok : ℕ) {s : RotationRun}
    → IsValid r
    → Effect m r s op
    → shown_token op ≡ some tok
    → TokenCounts op r
    → tok ≡ r.fencing_token
Effect-shown_token r tok v (completed_stage {now = now} c) shown counts =
    holds_lease-token r tok now v (ground (arith, c.leased))
Effect-shown_token r tok v (recovery_completed {now = now} c) shown counts =
    holds_lease-token r tok now v (ground (arith, c.leased))
Effect-shown_token r tok v (renewed {now = now} a b c d e) shown counts =
    holds_lease-token r tok now v (ground arith)
Effect-shown_token r tok v (paused {now = now} a b c e) shown counts =
    holds_lease-token r tok now v (ground arith)
Effect-shown_token r tok v (cleaned {now = now} a b c e) shown counts =
    let live = counts refl in interrupt-token r tok now v (ground arith) live
Effect-shown_token r tok v (failed_run {now = now} a b c e) shown counts =
    let live = counts refl in interrupt-token r tok now v (ground arith) live
Effect-shown_token r tok v (started a b c e) shown counts = cc
Effect-shown_token r tok v (resumed a b c d e) shown counts = cc
Effect-shown_token r tok v (cancelled_by a b e) shown counts = cc
Effect-shown_token r tok v (recovered a b c d e) shown counts = cc

-- A worker succeeds only with the current token, or interrupts a run whose lease has expired.
pub shown_token-current :
    (m : Machine) (op : Op) (r : RotationRun) (tok : ℕ) {s : RotationRun}
    → IsValid r
    → shown_token op ≡ some tok
    → TokenCounts op r
    → apply m op r ≡ ok s
    → tok ≡ r.fencing_token
shown_token-current m op r tok v shown counts h =
    Effect-shown_token r tok v (apply-Effect m op r h) shown counts

-- Once a start, resume, recovery or cancellation succeeds on a run, no later call by a worker that
-- shows a token from before it succeeds, whatever calls come between: it cannot renew, complete a
-- stage, pause or complete a recovery at all, and it cannot fail the run or clean it up while the
-- run's lease has not expired.
pub stale_worker_fenced :
    (m : Machine) (r s t u : RotationRun) (grant_op op : Op) (tok : ℕ)
    → apply m grant_op r ≡ ok s
    → is_grant grant_op ≡ true
    → Reach m s t
    → shown_token op ≡ some tok
    → (interrupts op ≡ true → is_leased t.lease (call_time op) ≡ true)
    → tok ≤ r.fencing_token
    → apply m op t ≢ ok u
stale_worker_fenced m r s t u grant_op op tok granted_it is later shown counts old h =
    let v = apply-IsValid m grant_op r granted_it in
    let current = shown_token-current m op t tok (Reach-IsValid later v) shown counts h in
    let raised = apply-fencing_token m grant_op r granted_it in
    ground (arith, current, raised, Reach-fencing_token later)
