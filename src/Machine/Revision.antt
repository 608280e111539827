-- ===== src/Machine/Revision.antt =====
-- What every method of server/core/state/machine.py does to the revision and to the identity.
use uumi.Machine.Settlement.{Settled, retried, settled}
use uumi.Machine.Effects.{
  Effect, apply-Effect, cancelled_by, cleaned, completed_stage, failed_run, paused, recovered,
  recovery_completed, renewed, resumed, started,
}
use uumi.Machine.Completion.{Advanced, finished, moved}
use uumi.Machine.{Machine, Op, apply, bind_fields, stamp, without_recovery}
use uumi.Prelude.{List, String, arith, ℕ, ◌+◌, ◌≡◌}
use uumi.Contracts.{RecoveryMode, RotationRun, Stage, StageBindings}
use uumi.Errors.{ok}

-- What no method changes.
pub record SameIdentity (r s : RotationRun) : Type 0 where
  pub same_id : s.id ≡ r.id
  pub same_organisation : s.organisation_id ≡ r.organisation_id
  pub same_credential : s.credential_id ≡ r.credential_id
  pub same_trigger : s.trigger ≡ r.trigger
  pub same_controls : s.control_version ≡ r.control_version
  pub same_creation : s.created_at ≡ r.created_at

-- The result of an update keeps the identity and takes the next revision.
abbrev pub Advances : RotationRun → RotationRun → Type 0
Advances r s = SameIdentity r s × (s.revision ≡ r.revision + 1)

Advanced-Advances :
    (r : RotationRun) (b : StageBindings) (now : ℕ) (from : Stage) {s : RotationRun}
    → Advanced (bind_fields b r) now from s
    → Advances r s
unfolding stamp bind_fields
Advanced-Advances r b now from (finished e) = ground arith
Advanced-Advances r b now from (moved to i e) = ground arith

Settled-Advances :
    (r : RotationRun) (id : String) (ev : List String) (now : ℕ) {mode : RecoveryMode}
    {s : RotationRun}
    → Settled r id ev now mode s
    → Advances r s
unfolding stamp
Settled-Advances r id ev now (retried t e) = ground arith
Settled-Advances r id ev now (settled n e) = ground arith

Effect-Advances :
    {m : Machine} {op : Op} (r : RotationRun) {s : RotationRun} → Effect m r s op → Advances r s
unfolding stamp without_recovery
Effect-Advances r (completed_stage {now = now} {b = b} c) =
    Advanced-Advances r b now r.stage c.advanced
Effect-Advances r (recovery_completed {id = id} {ev = ev} {now = now} c) =
    Settled-Advances r id ev now c.ended
Effect-Advances r (started a b c e) = ground arith
Effect-Advances r (renewed a b c d e) = ground arith
Effect-Advances r (paused a b c e) = ground arith
Effect-Advances r (resumed a b c d e) = ground arith
Effect-Advances r (cleaned a b c e) = ground arith
Effect-Advances r (failed_run a b c e) = ground arith
Effect-Advances r (cancelled_by a b e) = ground arith
Effect-Advances r (recovered a b c d e) = ground arith

-- Every call that succeeds keeps the identity of the run and raises its revision by exactly one.
pub apply-Advances :
    (m : Machine) (op : Op) (r : RotationRun) {s : RotationRun} → apply m op r ≡ ok s → Advances r s
apply-Advances m op r h = Effect-Advances r (apply-Effect m op r h)
