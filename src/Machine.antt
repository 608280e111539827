-- ===== src/Machine.antt =====
-- server/core/state/machine.py: the state machine of a rotation run. Each method is a function of
-- the run, of its arguments and of the time. Time, tokens and revisions are natural numbers.
mod Bindings
mod Control
pub mod Completion
pub mod Settlement
pub mod Effects
pub mod Revision
pub mod Validity
pub mod Fencing
pub mod Progress
pub mod Terminal
pub mod Exact
pub mod Bound
pub mod Leases
pub use Bindings.*
unfoldable pub use Bindings.{
  check_bindings, bind_fields, binds_unexpected, binds_required, changes_bound,
}
pub use Control.*
unfoldable pub use Control.{stamp, update}
use uumi.Prelude.{
  Bool, List, Option, String, [], false, get_elem?, if◌then◌else◌, is_empty, nat_eq, none, some,
  string_eq, ℕ, ◌&&◌, ◌+◌, ◌==◌, ◌∷◌, ◌≡◌,
}
use uumi.Contracts.{
  Failure, Lease, RecoveryMode, RotationRun, RunStatus, Stage, StageBindings, StageProof, stage_eq,
  stage_index, stages, status_eq, status_in,
}
use uumi.Errors.{
  Result, err, index_error, lease_conflict, ok, reject_if, require, transition_rejected, ◌>>=◌,
  ◌>>◌,
}
use uumi.Policy.{GatePolicy, validate}

pub record Machine : Type 0 where
  pub policy : GatePolicy
  pub validate_policy : Bool

-- The fields that name a recovery, without it.
abbrev pub clear_recovery : RotationRun → RotationRun
clear_recovery run = record run {
  recovery_id = none;
  recovery_stage = none;
  recovery_mode = none;
  recovery_failure = none;
  recovery_evidence_ids = [];
}

unfoldable pub start : RotationRun → String → ℕ → ℕ → ℕ → Result RotationRun
start run owner expected expires_at now = do
  check_revision run expected
  require (run.status == RunStatus.pending) transition_rejected
  future expires_at now
  let token = run.fencing_token + 1
  update
      (record run {
        status = RunStatus.running;
        lease = grant owner token expires_at;
        fencing_token = token;
      })
      now

-- `run.lease.model_copy(update={"expires_at": ...})`
abbrev pub extend_lease : Option Lease → ℕ → Option Lease
extend_lease none expires_at = none
extend_lease (some l) expires_at = some (record l { expires_at = expires_at })

unfoldable pub renew : RotationRun → String → ℕ → ℕ → ℕ → ℕ → Result RotationRun
renew run owner token expected expires_at now = do
  control run token expected now
  require (owned_by run.lease owner) lease_conflict
  future expires_at now
  update (record run { lease = extend_lease run.lease expires_at }) now

-- The end of `complete`: the last stage completes the run, another one is followed by the next.
abbrev pub next_stage : Stage → Option Stage
next_stage s = get_elem? stages (stage_index s + 1)

abbrev pub advance_to : Option Stage → RotationRun → ℕ → Result RotationRun
advance_to none run now = err index_error
advance_to (some s) run now = update (record run { stage = s; status = RunStatus.running }) now

unfoldable pub advance : Stage → RotationRun → ℕ → Result RotationRun
advance Stage.complete run now =
    update (record run { status = RunStatus.completed; lease = none }) now
advance s run now = advance_to (next_stage s) run now

abbrev pub gate : Machine → StageProof → Result (Unit {0})
gate m proof = if m.validate_policy then validate m.policy proof else ok tt

unfoldable pub complete :
    Machine → RotationRun → StageProof → ℕ → ℕ → ℕ → StageBindings → Result RotationRun
complete m run proof token expected now bindings = do
  control run token expected now
  require (run.status == RunStatus.running) transition_rejected
  require (proof.run_id == run.id && proof.organisation_id == run.organisation_id)
      transition_rejected
  require (proof.stage == run.stage) transition_rejected
  gate m proof
  changes ← check_bindings run bindings
  advance run.stage (bind_fields changes run) now

unfoldable pub pause : RotationRun → ℕ → ℕ → ℕ → Result RotationRun
pause run token expected now = do
  control run token expected now
  require (status_in run.status (RunStatus.running ∷ RunStatus.recovering ∷ [])) transition_rejected
  update (record run { status = RunStatus.paused }) now

unfoldable pub resume : RotationRun → String → ℕ → ℕ → ℕ → Result RotationRun
resume run owner expected expires_at now = do
  check_revision run expected
  require (run.status == RunStatus.paused) transition_rejected
  reject_if (held_by_other run.lease owner now) lease_conflict
  future expires_at now
  let token = run.fencing_token + 1
  update
      (record run {
        status = RunStatus.running;
        lease = grant owner token expires_at;
        fencing_token = token;
      })
      now

unfoldable pub cleanup : RotationRun → Failure → ℕ → ℕ → ℕ → Result RotationRun
cleanup run failure token expected now = do
  interrupt_control run token expected now
  require (status_in run.status (RunStatus.running ∷ RunStatus.recovering ∷ RunStatus.paused ∷ []))
      transition_rejected
  update (record run { status = RunStatus.cleanup; failure = some failure }) now

-- A failed recovery forgets what it was bound to.
unfoldable pub without_recovery : RotationRun → RotationRun
without_recovery run = if run.status == RunStatus.recovering then clear_recovery run else run

unfoldable pub fail : RotationRun → Failure → ℕ → ℕ → ℕ → Result RotationRun
fail run failure token expected now = do
  reject_if
      (status_in run.status (RunStatus.completed ∷ RunStatus.failed ∷ RunStatus.compensated ∷ []))
      transition_rejected
  interrupt_control run token expected now
  update
      (record (without_recovery run) {
        status = RunStatus.failed;
        failure = some failure;
        lease = none;
      })
      now

unfoldable pub cancel : RotationRun → ℕ → ℕ → Result RotationRun
cancel run expected now = do
  check_revision run expected
  reject_if
      (status_in run.status
        (RunStatus.cancelled ∷ RunStatus.completed ∷ RunStatus.compensated ∷ []))
      transition_rejected
  update
      (record (clear_recovery run) {
        status = RunStatus.cancelled;
        lease = none;
        fencing_token = run.fencing_token + 1;
        failure = none;
      })
      now

unfoldable pub recover : RotationRun → String → ℕ → ℕ → ℕ → Result RotationRun
recover run owner expected expires_at now = do
  check_revision run expected
  require (status_in run.status (RunStatus.failed ∷ RunStatus.cleanup ∷ [])) transition_rejected
  reject_if (held_by_other run.lease owner now) lease_conflict
  future expires_at now
  let token = run.fencing_token + 1
  update
      (record run {
        status = RunStatus.recovering;
        failure = none;
        recovery_stage = some run.stage;
        recovery_failure = run.failure;
        lease = grant owner token expires_at;
        fencing_token = token;
      })
      now

-- `run.recovery_stage is run.stage`
abbrev pub bound_to : Option Stage → Stage → Bool
bound_to none s = false
bound_to (some t) s = t == s

abbrev pub is_retryable : Option Failure → Bool
is_retryable none = false
is_retryable (some f) = f.retryable

-- The two ways in which a recovery ends.
unfoldable pub settle : RecoveryMode → RotationRun → String → List String → ℕ → Result RotationRun
settle RecoveryMode.retry run recovery_id evidence_ids now = do
  require (is_retryable run.recovery_failure) transition_rejected
  update (record (clear_recovery run) { status = RunStatus.running }) now
settle mode run recovery_id evidence_ids now =
    update
      (record run {
        status = RunStatus.compensated;
        lease = none;
        recovery_id = some recovery_id;
        recovery_mode = some mode;
        recovery_evidence_ids = evidence_ids;
      })
      now

unfoldable pub complete_recovery :
    RotationRun → String → RecoveryMode → List String → ℕ → ℕ → ℕ → Result RotationRun
complete_recovery run recovery_id mode evidence_ids token expected now = do
  control run token expected now
  require (run.status == RunStatus.recovering && bound_to run.recovery_stage run.stage)
      transition_rejected
  reject_if (is_empty evidence_ids) transition_rejected
  settle mode run recovery_id evidence_ids now

-- A call of a method, with its arguments.
pub data Op : Type 0 where
  op_start : String → ℕ → ℕ → ℕ → Op
  op_renew : String → ℕ → ℕ → ℕ → ℕ → Op
  op_complete : StageProof → ℕ → ℕ → ℕ → StageBindings → Op
  op_pause : ℕ → ℕ → ℕ → Op
  op_resume : String → ℕ → ℕ → ℕ → Op
  op_cleanup : Failure → ℕ → ℕ → ℕ → Op
  op_fail : Failure → ℕ → ℕ → ℕ → Op
  op_cancel : ℕ → ℕ → Op
  op_recover : String → ℕ → ℕ → ℕ → Op
  op_complete_recovery : String → RecoveryMode → List String → ℕ → ℕ → ℕ → Op

unfoldable pub apply : Machine → Op → RotationRun → Result RotationRun
unfolding start renew complete pause resume cleanup fail cancel recover complete_recovery
apply m (op_start owner rev exp now) run = start run owner rev exp now
apply m (op_renew owner tok rev exp now) run = renew run owner tok rev exp now
apply m (op_complete proof tok rev now b) run = complete m run proof tok rev now b
apply m (op_pause tok rev now) run = pause run tok rev now
apply m (op_resume owner rev exp now) run = resume run owner rev exp now
apply m (op_cleanup f tok rev now) run = cleanup run f tok rev now
apply m (op_fail f tok rev now) run = fail run f tok rev now
apply m (op_cancel rev now) run = cancel run rev now
apply m (op_recover owner rev exp now) run = recover run owner rev exp now
apply m (op_complete_recovery id mode ev tok rev now) run =
    complete_recovery run id mode ev tok rev now

-- The runs that calls which succeed lead to; a call that raises leaves the run as it was.
pub data Reach (m : Machine) (r : RotationRun) : RotationRun → Type 0 where
  here : Reach m r r
  next : {s t : RotationRun} → Reach m r s → (op : Op) → apply m op s ≡ ok t → Reach m r t
