-- ===== src/Examples/WorkflowTests.antt =====
-- The theorems on server/core/workflow/steps.py and server/core/storage/firestore.py at a store with
-- one credential, on which a run is created, started, moved on and failed.
use uumi.Workflow.Reaper.{
  Pass, ReapResult, clean_and_restart, count_reaped, fail_run, interrupt_command, is_candidate,
  reap_all, reap_expired, reap_run, recover_command, restart_recovery,
}
use uumi.Policy.Gate.{Covers}
use uumi.Workflow.Failed.{failed_run_only_cancelled}
use uumi.Workflow.Replay.{command_replay}
use uumi.Workflow.Gate.{HasValidControls, completion_gated}
use uumi.Workflow.LogHistory.{History-one_event_each}
use uumi.Workflow.Log.{Logged}
use uumi.Workflow.LockHistory.{
  History, History-Consistent, History-one_live_run, begin, creation, mutation,
}
use uumi.Workflow.Locks.{Consistent, IsLive}
use uumi.Prelude.{
  String, [], arith, false, nat_eq, none, refl, some, string_eq, subst, true, ℕ, ◌∷◌, ◌≡◌, ◌≤◌,
}
use uumi.Contracts.{
  CommandBody, ControlVersion, CreateRunCommand, OutboxEvent, RotationRun, RunCommand, RunStatus,
  Stage, is_valid_run, operation, stage_eq,
}
use uumi.Examples.Data.{default_machine, new_run, no_bindings, proof_of, timeout, webhook}
use uumi.Errors.{Result, err, ok}
use uumi.Store.{found, put, put_deep, remove}
use uumi.Policy.{covers_all, gate_policy, is_valid_definition, mandatory, required_checks, validate}
use uumi.Machine.{
  advance, apply, bind_fields, binds_required, binds_unexpected, changes_bound, check_bindings,
  stamp, update, without_recovery,
}
use uumi.Runs.{
  Db, Digests, MutationResult, build_outbox, check_gate, commit_create, commit_mutation, create,
  create_or_replay, creation_step, existing_create, fresh_create, fresh_mutation,
  immutable_controls, mutate, mutate_or_replay, mutation_step, pinned_controls, replay_mutation,
  validate_create, validate_transition,
}
use uumi.Workflow.{build_run, create_run, event_kind, machine_op, run_command}

abbrev pub digests : Digests
digests = record {
  mutation_hash = λ c. c.id;
  creation_hash = λ c. c.id;
  definition_digest = λ d. "digest";
}

abbrev pub controls : ControlVersion
controls = record {
  id = "control_1";
  organisation_id = "org_1";
  credential_id = "cred_1";
  number = 1;
  definition = record {
    required_checks = required_checks;
    allowed_tools = "verification.run" ∷ [];
    protected_tools = [];
    require_revoke_approval = true;
    require_generation_telemetry = true;
    automatic_triggers = [];
    emergency_triggers = [];
  };
  digest = "digest";
  created_by = "actor_1";
  created_at = 0;
}

abbrev pub empty_db : Db
empty_db = record {
  runs = λ o i. none;
  steps = λ o i j. none;
  outbox = λ o i. none;
  locks = λ o i. none;
  dedupe = λ o i j. none;
  controls = λ o c v. some controls;
}

abbrev creation_command : CreateRunCommand
creation_command = record {
  id = "command_1";
  organisation_id = "org_1";
  credential_id = "cred_1";
  control_version = "control_1";
  trigger = webhook;
  run_id = none;
}

abbrev command_at : String → ℕ → CommandBody → RunCommand
command_at id revision body = record {
  id = id;
  organisation_id = "org_1";
  run_id = "run_1";
  actor_id = "worker_1";
  expected_revision = revision;
  body = body;
}

abbrev outcome : Result (MutationResult × Db) → MutationResult × Db → MutationResult × Db
outcome (ok r) s = r
outcome (err e) s = s

abbrev nothing : MutationResult × Db
nothing = (
  record {
    run = new_run;
    step = record {
      id = "";
      organisation_id = "";
      run_id = "";
      operation = "";
      command_hash = "";
      actor_id = "";
      before_stage = none;
      after_stage = Stage.trigger;
      before_status = none;
      after_status = RunStatus.pending;
      revision = 0;
      proof = none;
      recorded_at = 0;
    };
    applied = false;
  },
  empty_db,
)

abbrev at_creation : MutationResult × Db
at_creation = outcome (create_run digests 1 "run_1" empty_db creation_command) nothing

created_ok : create_run digests 1 "run_1" empty_db creation_command ≡ ok at_creation
unfolding create_run build_run create validate_create create_or_replay fresh_create pinned_controls
    immutable_controls put put_deep found commit_create creation_step
created_ok = refl

abbrev start_command : RunCommand
start_command = command_at "command_2" 0 (CommandBody.start "worker_1" 100)

abbrev at_start : MutationResult × Db
at_start = outcome (run_command digests default_machine 2 at_creation.1 start_command) nothing

started_ok : run_command digests default_machine 2 at_creation.1 start_command ≡ ok at_start
unfolding create_run build_run create validate_create create_or_replay fresh_create pinned_controls
    immutable_controls put put_deep found commit_create creation_step run_command mutate
    mutate_or_replay fresh_mutation replay_mutation operation check_gate validate_transition
    commit_mutation machine_op apply update stamp is_valid_run event_kind
started_ok = refl

abbrev complete_command : RunCommand
complete_command =
    command_at "command_3" 1 (CommandBody.complete_stage 1 (proof_of Stage.trigger) no_bindings)

abbrev at_completion : MutationResult × Db
at_completion = outcome (run_command digests default_machine 3 at_start.1 complete_command) nothing

completed_ok : run_command digests default_machine 3 at_start.1 complete_command ≡ ok at_completion
unfolding create_run build_run create validate_create create_or_replay fresh_create pinned_controls
    immutable_controls put put_deep found commit_create creation_step run_command mutate
    mutate_or_replay fresh_mutation replay_mutation operation check_gate validate_transition
    commit_mutation machine_op apply update stamp is_valid_run event_kind validate check_bindings
    binds_unexpected binds_required changes_bound bind_fields advance without_recovery gate_policy
    mutation_step remove existing_create build_outbox
completed_ok = refl

abbrev fail_command : RunCommand
fail_command = command_at "command_4" 2 (CommandBody.fail 1 timeout)

abbrev at_failure : MutationResult × Db
at_failure = outcome (run_command digests default_machine 4 at_completion.1 fail_command) nothing

failed_ok : run_command digests default_machine 4 at_completion.1 fail_command ≡ ok at_failure
unfolding create_run build_run create validate_create create_or_replay fresh_create pinned_controls
    immutable_controls put put_deep found commit_create creation_step run_command mutate
    mutate_or_replay fresh_mutation replay_mutation operation check_gate validate_transition
    commit_mutation machine_op apply update stamp is_valid_run event_kind validate check_bindings
    binds_unexpected binds_required changes_bound bind_fields advance without_recovery gate_policy
    mutation_step remove existing_create build_outbox
failed_ok = refl

abbrev cancel_command : RunCommand
cancel_command = command_at "command_5" 3 CommandBody.cancel

abbrev at_cancellation : MutationResult × Db
at_cancellation =
    outcome (run_command digests default_machine 5 at_failure.1 cancel_command) nothing

cancelled_ok :
    run_command digests default_machine 5 at_failure.1 cancel_command ≡ ok at_cancellation
unfolding create_run build_run create validate_create create_or_replay fresh_create pinned_controls
    immutable_controls put put_deep found commit_create creation_step run_command mutate
    mutate_or_replay fresh_mutation replay_mutation operation check_gate validate_transition
    commit_mutation machine_op apply update stamp is_valid_run event_kind validate check_bindings
    binds_unexpected binds_required changes_bound bind_fields advance without_recovery gate_policy
    mutation_step remove existing_create build_outbox
cancelled_ok = refl

empty_db-Consistent : Consistent empty_db
empty_db-Consistent = record {
  own_path = λ o i r h. cc;
  live_locked = λ o i r h l. cc;
  lock_live = λ o c k h. cc;
}

empty_db-Logged : Logged empty_db
empty_db-Logged = record {
  no_gap = λ o i r n h l. cc;
  no_future = λ o i e h. cc;
  one_event = λ o i j e e' h k r v. cc;
}

until_start : History digests default_machine empty_db at_start.1
until_start =
    mutation (creation begin 1 "run_1" creation_command at_creation created_ok) 2 start_command
      at_start started_ok

until_completion : History digests default_machine empty_db at_completion.1
until_completion = mutation until_start 3 complete_command at_completion completed_ok

until_failure : History digests default_machine empty_db at_failure.1
until_failure = mutation until_completion 4 fail_command at_failure failed_ok

stored_run : at_completion.1.runs "org_1" "run_1" ≡ some at_completion.0.run
unfolding create_run build_run create validate_create create_or_replay fresh_create pinned_controls
    immutable_controls put put_deep found commit_create creation_step run_command mutate
    mutate_or_replay fresh_mutation replay_mutation operation check_gate validate_transition
    commit_mutation machine_op apply update stamp is_valid_run event_kind validate check_bindings
    binds_unexpected binds_required changes_bound bind_fields advance without_recovery gate_policy
    mutation_step remove existing_create build_outbox
stored_run = refl

ongoing_run : IsLive at_completion.0.run
unfolding create_run build_run create validate_create create_or_replay fresh_create pinned_controls
    immutable_controls put put_deep found commit_create creation_step run_command mutate
    mutate_or_replay fresh_mutation replay_mutation operation check_gate validate_transition
    commit_mutation machine_op apply update stamp is_valid_run event_kind validate check_bindings
    binds_unexpected binds_required changes_bound bind_fields advance without_recovery gate_policy
    mutation_step remove existing_create build_outbox
ongoing_run = refl

History-one_live_run_example : ◌≡◌ {A = String} "run_1" "run_1"
History-one_live_run_example =
    History-one_live_run digests default_machine empty_db at_completion.1 "org_1" "run_1" "run_1"
      at_completion.0.run at_completion.0.run empty_db-Consistent until_completion stored_run
      stored_run ongoing_run ongoing_run refl

revision_now : 1 ≤ at_completion.0.run.revision
unfolding create_run build_run create validate_create create_or_replay fresh_create pinned_controls
    immutable_controls put put_deep found commit_create creation_step run_command mutate
    mutate_or_replay fresh_mutation replay_mutation operation check_gate validate_transition
    commit_mutation machine_op apply update stamp is_valid_run event_kind validate check_bindings
    binds_unexpected binds_required changes_bound bind_fields advance without_recovery gate_policy
    mutation_step remove existing_create build_outbox
revision_now = ground arith

History-one_event_each_example :
    (id : String) × (e : OutboxEvent) × (at_completion.1.outbox "org_1" id ≡ some e)
    × (e.event.run_id ≡ "run_1")
    × (e.event.revision ≡ 1)
    × ((id' : String) (e' : OutboxEvent)
        → at_completion.1.outbox "org_1" id' ≡ some e'
        → e'.event.run_id ≡ "run_1"
        → e'.event.revision ≡ 1
        → id ≡ id')
History-one_event_each_example =
    History-one_event_each digests default_machine empty_db at_completion.1 "org_1" "run_1"
      at_completion.0.run 1 empty_db-Consistent empty_db-Logged until_completion stored_run
      revision_now

started_run_stored : at_start.1.runs "org_1" "run_1" ≡ some at_start.0.run
unfolding create_run build_run create validate_create create_or_replay fresh_create pinned_controls
    immutable_controls put put_deep found commit_create creation_step run_command mutate
    mutate_or_replay fresh_mutation replay_mutation operation check_gate validate_transition
    commit_mutation machine_op apply update stamp is_valid_run event_kind validate check_bindings
    binds_unexpected binds_required changes_bound bind_fields advance without_recovery gate_policy
    mutation_step remove existing_create build_outbox
started_run_stored = refl

valid_controls : HasValidControls at_start.1 at_start.0.run
unfolding create_run build_run create validate_create create_or_replay fresh_create pinned_controls
    immutable_controls put put_deep found commit_create creation_step run_command mutate
    mutate_or_replay fresh_mutation replay_mutation operation check_gate validate_transition
    commit_mutation machine_op apply update stamp is_valid_run event_kind validate check_bindings
    binds_unexpected binds_required changes_bound bind_fields advance without_recovery gate_policy
    mutation_step remove existing_create build_outbox is_valid_definition covers_all mandatory
valid_controls c h =
    let e : controls ≡ c = ground arith in
    subst (λ (x : ControlVersion). is_valid_definition x.definition ≡ true) e refl

completion_applied : at_completion.0.applied ≡ true
unfolding create_run build_run create validate_create create_or_replay fresh_create pinned_controls
    immutable_controls put put_deep found commit_create creation_step run_command mutate
    mutate_or_replay fresh_mutation replay_mutation operation check_gate validate_transition
    commit_mutation machine_op apply update stamp is_valid_run event_kind validate check_bindings
    binds_unexpected binds_required changes_bound bind_fields advance without_recovery gate_policy
    mutation_step remove existing_create build_outbox
completion_applied = refl

completion_gated_example :
    (c : ControlVersion) × (at_start.1.controls at_start.0.run.organisation_id
        at_start.0.run.credential_id at_start.0.run.control_version
      ≡ some c)
    × (immutable_controls digests c at_start.0.run ≡ true)
    × (Stage.trigger ≡ at_start.0.run.stage)
    × Covers (mandatory c.definition at_start.0.run.stage) (proof_of Stage.trigger).checks
completion_gated_example =
    completion_gated digests default_machine 3 at_start.1 complete_command 1
      (proof_of Stage.trigger) no_bindings at_start.0.run at_completion refl started_run_stored
      valid_controls completed_ok completion_applied

start_applied : at_start.0.applied ≡ true
unfolding create_run build_run create validate_create create_or_replay fresh_create pinned_controls
    immutable_controls put put_deep found commit_create creation_step run_command mutate
    mutate_or_replay fresh_mutation replay_mutation operation check_gate validate_transition
    commit_mutation machine_op apply update stamp is_valid_run event_kind validate check_bindings
    binds_unexpected binds_required changes_bound bind_fields advance without_recovery gate_policy
    mutation_step remove existing_create build_outbox
start_applied = refl

creation_Consistent : Consistent at_creation.1
creation_Consistent =
    History-Consistent {m = default_machine} empty_db-Consistent
      (creation begin 1 "run_1" creation_command at_creation created_ok)

after_start : History digests default_machine at_start.1 at_failure.1
after_start =
    mutation (mutation begin 3 complete_command at_completion completed_ok) 4 fail_command
      at_failure failed_ok

command_replay_example :
    (r : RotationRun) × (at_failure.1.runs "org_1" "run_1" ≡ some r)
    × (run_command digests default_machine 9 at_failure.1 start_command
        ≡ ok (record { run = r; step = at_start.0.step; applied = false }, at_failure.1))
command_replay_example =
    command_replay digests default_machine 2 9 at_creation.1 at_failure.1 start_command at_start
      creation_Consistent started_ok start_applied after_start

failure_Consistent : Consistent at_failure.1
failure_Consistent = History-Consistent empty_db-Consistent until_failure

failed_run_stored : at_failure.1.runs "org_1" "run_1" ≡ some at_failure.0.run
unfolding create_run build_run create validate_create create_or_replay fresh_create pinned_controls
    immutable_controls put put_deep found commit_create creation_step run_command mutate
    mutate_or_replay fresh_mutation replay_mutation operation check_gate validate_transition
    commit_mutation machine_op apply update stamp is_valid_run event_kind validate check_bindings
    binds_unexpected binds_required changes_bound bind_fields advance without_recovery gate_policy
    mutation_step remove existing_create build_outbox
failed_run_stored = refl

failed_status : at_failure.0.run.status ≡ RunStatus.failed
unfolding create_run build_run create validate_create create_or_replay fresh_create pinned_controls
    immutable_controls put put_deep found commit_create creation_step run_command mutate
    mutate_or_replay fresh_mutation replay_mutation operation check_gate validate_transition
    commit_mutation machine_op apply update stamp is_valid_run event_kind validate check_bindings
    binds_unexpected binds_required changes_bound bind_fields advance without_recovery gate_policy
    mutation_step remove existing_create build_outbox
failed_status = refl

cancellation_applied : at_cancellation.0.applied ≡ true
unfolding create_run build_run create validate_create create_or_replay fresh_create pinned_controls
    immutable_controls put put_deep found commit_create creation_step run_command mutate
    mutate_or_replay fresh_mutation replay_mutation operation check_gate validate_transition
    commit_mutation machine_op apply update stamp is_valid_run event_kind validate check_bindings
    binds_unexpected binds_required changes_bound bind_fields advance without_recovery gate_policy
    mutation_step remove existing_create build_outbox
cancellation_applied = refl

failed_run_only_cancelled_example : operation cancel_command.body ≡ "cancel"
failed_run_only_cancelled_example =
    failed_run_only_cancelled digests default_machine 5 at_failure.1 cancel_command at_failure.0.run
      at_cancellation failure_Consistent failed_run_stored failed_status cancelled_ok
      cancellation_applied

abbrev late_pass : Pass
late_pass = record {
  organisation_id = "org_1";
  actor_id = "reaper";
  now = 200;
  clock = λ k. 200;
  reap_id = λ run name. name;
}

abbrev passed_or : Result (ReapResult × Db) → ReapResult × Db → ReapResult × Db
passed_or (ok r) s = r
passed_or (err e) s = s

abbrev after_pass : ReapResult × Db
after_pass =
    passed_or (reap_expired digests default_machine late_pass (at_start.0.run ∷ []) at_start.1)
      (record { scanned = 0; restarted = 0; failed = 0; runs = [] }, empty_db)

pass_ok :
    reap_expired digests default_machine late_pass (at_start.0.run ∷ []) at_start.1 ≡ ok after_pass
unfolding create_run build_run create validate_create create_or_replay fresh_create pinned_controls
    immutable_controls put put_deep found commit_create creation_step run_command mutate
    mutate_or_replay fresh_mutation replay_mutation operation check_gate validate_transition
    commit_mutation machine_op apply update stamp is_valid_run event_kind validate check_bindings
    binds_unexpected binds_required changes_bound bind_fields advance without_recovery gate_policy
    mutation_step remove existing_create build_outbox reap_expired reap_all reap_run is_candidate
    fail_run clean_and_restart restart_recovery interrupt_command recover_command count_reaped
pass_ok = refl
