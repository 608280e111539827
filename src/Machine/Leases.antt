-- ===== src/Machine/Leases.antt =====
-- Who owns the lease of a run, in server/core/state/machine.py.
use uumi.Prelude.{
  List, String, absurd, arith, eq_iff, false, inl, inr, none, some, string_eq, ℕ, ◌<◌, ◌≡◌, ◌≢◌,
  ◌⊎◌,
}
use uumi.Contracts.{Lease, RecoveryMode, RotationRun, RunStatus, Stage}
use uumi.Errors.{ok}
use uumi.Machine.Completion.{Advanced, finished, moved}
use uumi.Machine.Settlement.{Settled, retried, settled}
use uumi.Machine.Effects.{
  Effect, apply-Effect, cancelled_by, cleaned, completed_stage, failed_run, paused, recovered,
  recovery_completed, renewed, resumed, started,
}
use uumi.Machine.Fencing.{call_time}
use uumi.Machine.{Machine, Op, apply, bind_fields, held_by_other, stamp}

lease_after :
    {r : RotationRun} {now : ℕ} {from : Stage} {s : RotationRun}
    → Advanced r now from s
    → (s.lease ≡ none) ⊎ (s.lease ≡ r.lease)
unfolding stamp
lease_after (finished e) = inl (ground arith)
lease_after (moved to i e) = inr (ground arith)

lease_settled :
    {r : RotationRun} {id : String} {ev : List String} {now : ℕ} {mode : RecoveryMode}
    {s : RotationRun}
    → Settled r id ev now mode s
    → (s.lease ≡ none) ⊎ (s.lease ≡ r.lease)
unfolding stamp
lease_settled (retried t e) = inr (ground arith)
lease_settled (settled n e) = inl (ground arith)

held_by_same :
    (l : Lease) (owner : String) (now : ℕ)
    → now < l.expires_at
    → held_by_other (some l) owner now ≡ false
    → owner ≡ l.owner_id
held_by_same l owner now live h = ground (arith, eq_iff l.owner_id owner)

Effect-owner :
    {m : Machine} {op : Op} (r s : RotationRun) (l k : Lease)
    → r.status ≢ RunStatus.pending
    → r.lease ≡ some l
    → call_time op < l.expires_at
    → Effect m r s op
    → s.lease ≡ some k
    → k.owner_id ≡ l.owner_id
unfolding stamp bind_fields
Effect-owner r s l k n held live (completed_stage {b = b} c) got =
    ground (arith, lease_after c.advanced)
Effect-owner r s l k n held live (recovery_completed c) got = ground (arith, lease_settled c.ended)
Effect-owner r s l k n held live (started a b c e) got = absurd (n b)
Effect-owner r s l k n held live (renewed a b c d e) got = ground arith
Effect-owner r s l k n held live (paused a b c e) got = ground arith
Effect-owner r s l k n held live (resumed {owner = o} {now = now} a b c d e) got =
    ground (arith, held_by_same l o now)
Effect-owner r s l k n held live (cleaned a b c e) got = ground arith
Effect-owner r s l k n held live (failed_run a b c e) got = ground arith
Effect-owner r s l k n held live (cancelled_by a b e) got = ground arith
Effect-owner r s l k n held live (recovered {owner = o} {now = now} a b c d e) got =
    ground (arith, held_by_same l o now)

-- While a lease has not expired, no call on a started run gives the run to another owner: after a
-- call the run has no lease, or one of the same owner.
pub lease_exclusive :
    (m : Machine) (op : Op) (r s : RotationRun) (l k : Lease)
    → r.status ≢ RunStatus.pending
    → r.lease ≡ some l
    → call_time op < l.expires_at
    → apply m op r ≡ ok s
    → s.lease ≡ some k
    → k.owner_id ≡ l.owner_id
lease_exclusive m op r s l k n held live h got =
    Effect-owner r s l k n held live (apply-Effect m op r h) got
