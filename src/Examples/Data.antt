-- ===== src/Examples/Data.antt =====
-- A run of packages/contracts/src/contracts/run.py and what it takes to walk it to completion.
use uumi.Prelude.{List, String, [], nat_eq, none, some, string_eq, true, ℕ, ◌∷◌}
use uumi.Contracts.{
  EventKind, Failure, OutboxEvent, RotationRun, RunStatus, Stage, StageBindings, StageProof,
  Trigger, created, stage_eq,
}
use uumi.Policy.{default_checks, required_checks}
use uumi.Machine.{Machine, Op, op_complete, op_start}

abbrev pub webhook : Trigger
webhook = record {
  source = "github";
  kind = "secret-alert";
  event_id = "event_1";
  actor_id = "actor_1";
  reason = "leaked";
  urgency = "high";
  received_at = 1;
}

abbrev pub new_run : RotationRun
new_run = record {
  id = "run_1";
  organisation_id = "org_1";
  credential_id = "cred_1";
  trigger = webhook;
  control_version = "control_1";
  stage = Stage.trigger;
  status = RunStatus.pending;
  lease = none;
  fencing_token = 0;
  browser_playbook_version = none;
  plan_id = none;
  plan_hash = none;
  current_generation_id = none;
  target_generation_id = none;
  deployments = [];
  failure = none;
  recovery_id = none;
  recovery_stage = none;
  recovery_mode = none;
  recovery_failure = none;
  recovery_evidence_ids = [];
  created_at = 1;
  updated_at = 1;
  revision = 0;
}

abbrev pub default_machine : Machine
default_machine = record { policy = record { required = required_checks }; validate_policy = true }

abbrev pub proof_of : Stage → StageProof
proof_of st = record {
  run_id = "run_1";
  organisation_id = "org_1";
  stage = st;
  checks = default_checks st;
  evidence_ids = "evidence_1" ∷ [];
  actor_id = "worker_1";
  recorded_at = 2;
}

abbrev pub no_bindings : StageBindings
no_bindings = record {
  browser_playbook_version = none;
  plan_id = none;
  plan_hash = none;
  current_generation_id = none;
  target_generation_id = none;
  deployments = [];
}

abbrev pub bindings_at : Stage → StageBindings
bindings_at Stage.preflight = record no_bindings { current_generation_id = some "generation_1" }
bindings_at Stage.plan = record no_bindings { plan_id = some "plan_1"; plan_hash = some "hash_1" }
bindings_at Stage.create = record no_bindings { target_generation_id = some "generation_2" }
bindings_at Stage.deploy = record no_bindings {
  deployments =
      record {
        binding_id = "binding_1";
        connection_id = "connection_1";
        service = "api";
        candidate_revision = "api-2";
        rollback_revision = "api-1";
      }
      ∷ [];
}
bindings_at _ = no_bindings

abbrev pub timeout : Failure
timeout = record { code = "timeout"; message = "late"; retryable = true; evidence_ids = [] }

abbrev pub event_at : String → ℕ → OutboxEvent
event_at id revision = record {
  event = record {
    id = id;
    organisation_id = "org_1";
    run_id = "run_1";
    credential_id = "cred_1";
    kind = EventKind.run_created;
    revision = revision;
    stage = Stage.trigger;
    status = RunStatus.pending;
    actor_id = "actor_1";
    occurred_at = 1;
    payload = created "github" "high";
  };
  available_at = 1;
  attempts = 0;
  lease_owner = none;
  lease_expires_at = none;
  published_at = none;
  publisher_message_id = none;
  dead_lettered_at = none;
  dead_letter_reason = none;
  last_error = none;
}

-- The calls of a worker that carries a run through all stages, the last call first.
abbrev pub completing : ℕ → Stage → Op
completing revision st = op_complete (proof_of st) 1 revision 3 (bindings_at st)

abbrev pub started : Op
started = op_start "worker_1" 0 100 2

abbrev pub whole_run : List Op
whole_run =
    completing 12 Stage.complete
    ∷ completing 11 Stage.revoke
    ∷ completing 10 Stage.approval
    ∷ completing 9 Stage.observe
    ∷ completing 8 Stage.rollout
    ∷ completing 7 Stage.verify
    ∷ completing 6 Stage.deploy
    ∷ completing 5 Stage.store
    ∷ completing 4 Stage.create
    ∷ completing 3 Stage.plan
    ∷ completing 2 Stage.preflight
    ∷ completing 1 Stage.trigger
    ∷ started
    ∷ []
