-- ===== src/Contracts/Event.antt =====
-- packages/contracts/src/contracts/{event,run}.py: the recorded steps and the outbox events of a
-- run, with the model validator of `OutboxEvent`.
use uumi.Prelude.{Bool, Option, String, is_none, is_some, not, xnor, ℕ, ◌&&◌}
use uumi.Contracts.State.{RunStatus, Stage}
use uumi.Contracts.Run.{StageProof}

pub data EventKind : Type 0 where
  run_created run_started lease_renewed stage_completed run_paused run_resumed : EventKind
  cleanup_required run_failed run_cancelled recovery_started recovery_completed : EventKind
  run_completed : EventKind

-- The two mappings that are sent as a payload: of a creation and of a mutation.
pub data EventPayload : Type 0 where
  created : String → String → EventPayload  -- source, urgency
  mutated : String → ℕ → EventPayload  -- operation, previous_revision

pub record RunEvent : Type 0 where
  pub id : String
  pub organisation_id : String
  pub run_id : String
  pub credential_id : String
  pub kind : EventKind
  pub revision : ℕ
  pub stage : Stage
  pub status : RunStatus
  pub actor_id : String
  pub occurred_at : ℕ
  pub payload : EventPayload

pub record OutboxEvent : Type 0 where
  pub event : RunEvent
  pub available_at : ℕ
  pub attempts : ℕ
  pub lease_owner : Option String
  pub lease_expires_at : Option ℕ
  pub published_at : Option ℕ
  pub publisher_message_id : Option String
  pub dead_lettered_at : Option ℕ
  pub dead_letter_reason : Option String
  pub last_error : Option String

-- `validate_delivery` of `OutboxEvent`.
unfoldable pub is_valid_outbox : OutboxEvent → Bool
is_valid_outbox e =
    xnor (is_none e.lease_owner) (is_none e.lease_expires_at)
    && not (is_some e.published_at && is_some e.lease_owner)
    && xnor (is_none e.published_at) (is_none e.publisher_message_id)
    && xnor (is_none e.dead_lettered_at) (is_none e.dead_letter_reason)
    && not (is_some e.published_at && is_some e.dead_lettered_at)
    && not (is_some e.dead_lettered_at && is_some e.lease_owner)

pub record RunStep : Type 0 where
  pub id : String
  pub organisation_id : String
  pub run_id : String
  pub operation : String
  pub command_hash : String
  pub actor_id : String
  pub before_stage : Option Stage
  pub after_stage : Stage
  pub before_status : Option RunStatus
  pub after_status : RunStatus
  pub revision : ℕ
  pub proof : Option StageProof
  pub recorded_at : ℕ
