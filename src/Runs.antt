-- ===== src/Runs.antt =====
-- server/core/storage/{firestore,repository}.py: the runs of the organisations with their steps,
-- events, locks and deduplication records, and the two transactions that change them. The digests
-- of commands and of control definitions are those of `Digests`, since SHA-256 and the JSON encoder
-- are libraries. Documents are read back as they were written.
pub mod Outcome
pub mod Gate
use uumi.Prelude.{
  Bool, Option, String, [], false, if◌then◌else◌, is_some, nat_eq, none, option_eq, some, string_eq,
  true, ℕ, ◌&&◌, ◌+◌, ◌==◌, ◌||◌, ◌∷◌,
}
use uumi.Contracts.{
  ControlDefinition, ControlVersion, CreateRunCommand, EventKind, EventPayload, OutboxEvent,
  RotationRun, RunCommand, RunStatus, RunStep, StageProof, Trigger, created, mutated, operation,
  stage_eq, status_eq, status_in,
}
use uumi.Errors.{
  Result, active_run_conflict, idempotency_conflict, ok, reject_if, require, revision_conflict,
  run_not_found, storage_integrity, ◌>>=◌, ◌>>◌,
}
use uumi.Store.{DeepTable, Table, found, put, put_deep, remove}
use uumi.Policy.{gate_policy, validate}

-- `mutation_hash`, `creation_hash` and `digest` of a control definition.
pub record Digests : Type 0 where
  pub mutation_hash : RunCommand → String
  pub creation_hash : CreateRunCommand → String
  pub definition_digest : ControlDefinition → String

pub record LockDoc : Type 0 where
  pub organisation_id : String
  pub credential_id : String
  pub run_id : String
  pub created_at : ℕ

pub record DedupeDoc : Type 0 where
  pub organisation_id : String
  pub run_id : String
  pub step_id : String
  pub request_hash : String
  pub created_at : ℕ

pub record Db : Type 0 where
  pub runs : Table RotationRun  -- organisation, run
  pub steps : DeepTable RunStep  -- organisation, run, command
  pub outbox : Table OutboxEvent  -- organisation, command
  pub locks : Table LockDoc  -- organisation, credential
  pub dedupe : DeepTable DedupeDoc  -- organisation, source, event
  pub controls : DeepTable ControlVersion  -- organisation, credential, version

pub record MutationResult : Type 0 where
  pub run : RotationRun
  pub step : RunStep
  pub applied : Bool

-- `validate_create`
abbrev pub trigger_beq : Trigger → Trigger → Bool
trigger_beq a b =
    a.source == b.source
    && a.kind == b.kind
    && a.event_id == b.event_id
    && a.actor_id == b.actor_id
    && a.reason == b.reason
    && a.urgency == b.urgency
    && a.received_at == b.received_at

abbrev pub id_matches : Option String → String → Bool
id_matches none id = true
id_matches (some i) id = id == i

unfoldable pub validate_create : RotationRun → CreateRunCommand → Result (Unit {0})
validate_create run command =
    require
      (run.organisation_id == command.organisation_id
        && run.credential_id == command.credential_id
        && run.control_version == command.control_version
        && trigger_beq run.trigger command.trigger
        && id_matches command.run_id run.id)
      storage_integrity

-- `validate_transition`
unfoldable pub validate_transition : RotationRun → RotationRun → String → Result (Unit {0})
validate_transition previous updated organisation_id = do
  require (updated.organisation_id == organisation_id && updated.id == previous.id)
      storage_integrity
  require (updated.revision == previous.revision + 1) storage_integrity

-- `build_outbox`
unfoldable pub build_outbox :
    String → RotationRun → EventKind → String → ℕ → EventPayload → OutboxEvent
build_outbox event_id run kind actor_id occurred_at payload = record {
  event = record {
    id = event_id;
    organisation_id = run.organisation_id;
    run_id = run.id;
    credential_id = run.credential_id;
    kind = kind;
    revision = run.revision;
    stage = run.stage;
    status = run.status;
    actor_id = actor_id;
    occurred_at = occurred_at;
    payload = payload;
  };
  available_at = occurred_at;
  attempts = 0;
  lease_owner = none;
  lease_expires_at = none;
  published_at = none;
  publisher_message_id = none;
  dead_lettered_at = none;
  dead_letter_reason = none;
  last_error = none;
}

-- `resolved_event`
abbrev pub resolved_event : EventKind → RotationRun → EventKind
resolved_event kind run =
    if run.status == RunStatus.completed then EventKind.run_completed else kind

-- `_tenant`
abbrev pub tenant : RotationRun → String → Result (Unit {0})
tenant run organisation_id = require (run.organisation_id == organisation_id) storage_integrity

-- The control version of a run is the one that the run names, unchanged since it was digested.
unfoldable pub immutable_controls : Digests → ControlVersion → RotationRun → Bool
immutable_controls d controls run =
    controls.organisation_id == run.organisation_id
    && controls.credential_id == run.credential_id
    && controls.id == run.control_version
    && controls.digest == d.definition_digest controls.definition

unfoldable pub pinned_controls : Digests → Db → RotationRun → Result ControlVersion
pinned_controls d db run = do
  controls ←
      found (db.controls run.organisation_id run.credential_id run.control_version)
        storage_integrity
  require (immutable_controls d controls run) storage_integrity
  ok controls

-- `_existing_create`
unfoldable pub existing_create : Db → DedupeDoc → String → String → Result (MutationResult × Db)
existing_create db doc organisation_id request_hash = do
  require (doc.request_hash == request_hash) idempotency_conflict
  run ← found (db.runs organisation_id doc.run_id) storage_integrity
  step ← found (db.steps organisation_id doc.run_id doc.step_id) storage_integrity
  tenant run organisation_id
  ok (record { run = run; step = step; applied = false }, db)

unfoldable pub creation_step : RotationRun → CreateRunCommand → String → RunStep
creation_step run command request_hash = record {
  id = command.id;
  organisation_id = run.organisation_id;
  run_id = run.id;
  operation = "create";
  command_hash = request_hash;
  actor_id = command.trigger.actor_id;
  before_stage = none;
  after_stage = run.stage;
  before_status = none;
  after_status = run.status;
  revision = run.revision;
  proof = none;
  recorded_at = run.created_at;
}

-- The writes of `create`.
unfoldable pub commit_create : Db → RotationRun → CreateRunCommand → String → Db
commit_create db run command request_hash =
    let org = run.organisation_id in
    record db {
      runs = put db.runs org run.id run;
      steps = put_deep db.steps org run.id command.id (creation_step run command request_hash);
      outbox = put db.outbox org command.id (
          build_outbox command.id run EventKind.run_created command.trigger.actor_id run.created_at
            (created run.trigger.source run.trigger.urgency));
      locks = put db.locks org run.credential_id (record {
        organisation_id = org;
        credential_id = run.credential_id;
        run_id = run.id;
        created_at = run.created_at;
      });
      dedupe = put_deep db.dedupe org run.trigger.source run.trigger.event_id (record {
        organisation_id = org;
        run_id = run.id;
        step_id = command.id;
        request_hash = request_hash;
        created_at = run.created_at;
      });
    }

unfoldable pub fresh_create :
    Digests → Db → RotationRun → CreateRunCommand → Result (MutationResult × Db)
fresh_create d db run command = do
  let org = run.organisation_id
  reject_if (is_some (db.locks org run.credential_id)) active_run_conflict
  reject_if (is_some (db.runs org run.id)) idempotency_conflict
  reject_if (is_some (db.outbox org command.id)) idempotency_conflict
  controls ← pinned_controls d db run
  ok (
    record {
      run = run;
      step = creation_step run command (d.creation_hash command);
      applied = true;
    },
    commit_create db run command (d.creation_hash command),
  )

unfoldable pub create_or_replay :
    Digests → Db → RotationRun → CreateRunCommand → Option DedupeDoc → Result (MutationResult × Db)
create_or_replay d db run command none = fresh_create d db run command
create_or_replay d db run command (some doc) =
    existing_create db doc run.organisation_id (d.creation_hash command)

-- `FirestoreRunRepository.create`
unfoldable pub create : Digests → Db → RotationRun → CreateRunCommand → Result (MutationResult × Db)
create d db run command = do
  validate_create run command
  create_or_replay d db run command
      (db.dedupe run.organisation_id run.trigger.source run.trigger.event_id)

-- The gate of `mutate`: the proof passes the checks of the pinned control version.
unfoldable pub check_gate : Digests → Db → RotationRun → Option StageProof → Result (Unit {0})
check_gate d db run none = ok tt
check_gate d db run (some proof) = do
  controls ← pinned_controls d db run
  policy ← gate_policy (some controls.definition.required_checks)
  validate policy proof

abbrev pub lock_held_by : Option LockDoc → String → Bool
lock_held_by none run_id = false
lock_held_by (some doc) run_id = doc.run_id == run_id

-- The statuses at which a run gives up its lock.
abbrev pub releases_lock : RunStatus → Bool
releases_lock s =
    status_in s
      (RunStatus.cancelled ∷ RunStatus.completed ∷ RunStatus.compensated ∷ RunStatus.failed ∷ [])

unfoldable pub mutation_step :
    RunCommand → String → RotationRun → RotationRun → Option StageProof → RunStep
mutation_step command request_hash run updated proof = record {
  id = command.id;
  organisation_id = command.organisation_id;
  run_id = run.id;
  operation = operation command.body;
  command_hash = request_hash;
  actor_id = command.actor_id;
  before_stage = some run.stage;
  after_stage = updated.stage;
  before_status = some run.status;
  after_status = updated.status;
  revision = updated.revision;
  proof = proof;
  recorded_at = updated.updated_at;
}

-- The writes of `mutate`.
unfoldable pub commit_mutation :
    Db → RunCommand → EventKind → RotationRun → RotationRun → RunStep → Bool → Db
commit_mutation db command kind run updated step holds =
    let org = command.organisation_id in
    record db {
      runs = put db.runs org command.run_id updated;
      steps = put_deep db.steps org command.run_id command.id step;
      outbox = put db.outbox org command.id (
          build_outbox command.id updated (resolved_event kind updated) command.actor_id
            updated.updated_at (mutated (operation command.body) run.revision));
      locks =
          if holds && releases_lock updated.status
          then remove db.locks org run.credential_id
          else db.locks;
    }

-- The run may be changed: it holds its lock, or it has failed and is cancelled.
abbrev pub may_mutate : Bool → RunCommand → RotationRun → Bool
may_mutate holds command run =
    holds || operation command.body == "cancel" && run.status == RunStatus.failed

module _ (d : Digests) (db : Db) (command : RunCommand) where
  unfoldable pub replay_mutation : RunStep → Result (MutationResult × Db)
  replay_mutation step = do
    require (step.command_hash == d.mutation_hash command) idempotency_conflict
    run ← found (db.runs command.organisation_id command.run_id) storage_integrity
    tenant run command.organisation_id
    ok (record { run = run; step = step; applied = false }, db)

  unfoldable pub fresh_mutation :
      EventKind
      → (RotationRun → Result RotationRun)
      → Option StageProof
      → Result (MutationResult × Db)
  fresh_mutation kind transition proof = do
    reject_if (is_some (db.outbox command.organisation_id command.id)) idempotency_conflict
    run ← found (db.runs command.organisation_id command.run_id) run_not_found
    tenant run command.organisation_id
    require (run.revision == command.expected_revision) revision_conflict
    let holds = lock_held_by (db.locks command.organisation_id run.credential_id) run.id
    require (may_mutate holds command run) storage_integrity
    check_gate d db run proof
    updated ← transition run
    validate_transition run updated command.organisation_id
    let step = mutation_step command (d.mutation_hash command) run updated proof
    ok (
      record { run = updated; step = step; applied = true },
      commit_mutation db command kind run updated step holds,
    )

  unfoldable pub mutate_or_replay :
      EventKind
      → (RotationRun → Result RotationRun)
      → Option StageProof
      → Option RunStep
      → Result (MutationResult × Db)
  mutate_or_replay kind transition proof none = fresh_mutation kind transition proof
  mutate_or_replay kind transition proof (some step) = replay_mutation step

  -- `FirestoreRunRepository.mutate`
  unfoldable pub mutate :
      EventKind
      → (RotationRun → Result RotationRun)
      → Option StageProof
      → Result (MutationResult × Db)
  mutate kind transition proof =
      mutate_or_replay kind transition proof
        (db.steps command.organisation_id command.run_id command.id)
