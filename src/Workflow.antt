-- ===== src/Workflow.antt =====
-- server/core/workflow/{steps,trigger}.py: the commands on a run, as transactions of the repository
-- with a transition of the state machine. The clock's answer is an argument.
pub mod Locks
pub mod LockHistory
pub mod Replay
pub mod Gate
pub mod Failed
pub mod Log
pub mod LogHistory
pub mod Reaper
use uumi.Prelude.{Option, String, [], none, some, ℕ}
use uumi.Runs
use uumi.Runs.{Db, Digests, MutationResult, mutate}
use uumi.Contracts.{
  CommandBody, CreateRunCommand, EventKind, RotationRun, RunCommand, RunStatus, Stage, StageProof,
}
use uumi.Errors.{Result}
use uumi.Machine.{
  Machine, Op, apply, op_cancel, op_cleanup, op_complete, op_complete_recovery, op_fail, op_pause,
  op_recover, op_renew, op_resume, op_start,
}

-- `build_run`
unfoldable pub build_run : CreateRunCommand → String → ℕ → RotationRun
build_run command run_id now = record {
  id = run_id;
  organisation_id = command.organisation_id;
  credential_id = command.credential_id;
  trigger = command.trigger;
  control_version = command.control_version;
  stage = Stage.trigger;
  status = RunStatus.pending;
  lease = none;
  fencing_token = 0;
  browser_playbook_version = none;
  plan_id = none;
  plan_hash = none;
  current_generation_id = none;
  target_generation_id = none;
  deployments = [];
  failure = none;
  recovery_id = none;
  recovery_stage = none;
  recovery_mode = none;
  recovery_failure = none;
  recovery_evidence_ids = [];
  created_at = now;
  updated_at = now;
  revision = 0;
}

abbrev pub or_new : Option String → String → String
or_new none new_id = new_id
or_new (some id) new_id = id

-- `RunWorkflow.create`; `new_id` is what the id factory answers.
unfoldable pub create_run :
    Digests → ℕ → String → Db → CreateRunCommand → Result (MutationResult × Db)
create_run d now new_id db command =
    Runs.create d db (build_run command (or_new command.run_id new_id) now) command

-- The event kind, the transition and the proof that each method of `RunWorkflow` passes on.
unfoldable pub event_kind : CommandBody → EventKind
event_kind (CommandBody.start _ _) = EventKind.run_started
event_kind (CommandBody.renew _ _ _) = EventKind.lease_renewed
event_kind (CommandBody.complete_stage _ _ _) = EventKind.stage_completed
event_kind (CommandBody.pause _) = EventKind.run_paused
event_kind (CommandBody.resume _ _) = EventKind.run_resumed
event_kind (CommandBody.fail _ _) = EventKind.run_failed
event_kind CommandBody.cancel = EventKind.run_cancelled
event_kind (CommandBody.cleanup _ _) = EventKind.cleanup_required
event_kind (CommandBody.recover _ _) = EventKind.recovery_started
event_kind (CommandBody.complete_recovery _ _ _ _) = EventKind.recovery_completed

unfoldable pub machine_op : CommandBody → ℕ → ℕ → Op
machine_op (CommandBody.start owner exp) rev now = op_start owner rev exp now
machine_op (CommandBody.renew owner exp tok) rev now = op_renew owner tok rev exp now
machine_op (CommandBody.complete_stage tok proof b) rev now = op_complete proof tok rev now b
machine_op (CommandBody.pause tok) rev now = op_pause tok rev now
machine_op (CommandBody.resume owner exp) rev now = op_resume owner rev exp now
machine_op (CommandBody.fail tok f) rev now = op_fail f tok rev now
machine_op CommandBody.cancel rev now = op_cancel rev now
machine_op (CommandBody.cleanup tok f) rev now = op_cleanup f tok rev now
machine_op (CommandBody.recover owner exp) rev now = op_recover owner rev exp now
machine_op (CommandBody.complete_recovery tok id mode ev) rev now =
    op_complete_recovery id mode ev tok rev now

abbrev pub command_proof : CommandBody → Option StageProof
command_proof (CommandBody.complete_stage tok proof b) = some proof
command_proof _ = none

abbrev pub command_op : RunCommand → ℕ → Op
command_op command now = machine_op command.body command.expected_revision now

-- `RunWorkflow.start`, `renew`, `complete`, `pause`, `resume`, `cleanup`, `fail`, `cancel`,
-- `recover` and `complete_recovery`.
unfoldable pub run_command : Digests → Machine → ℕ → Db → RunCommand → Result (MutationResult × Db)
run_command d m now db command =
    mutate d db command (event_kind command.body) (apply m (command_op command now))
      (command_proof command.body)
