-- ===== src/Contracts/Command.antt =====
-- packages/contracts/src/contracts/{command,control}.py: the commands on a run, and the version of
-- the controls that a run is pinned to.
use uumi.Prelude.{Bool, List, Option, String, ℕ}
use uumi.Contracts.State.{Stage}
use uumi.Contracts.Run.{Failure, RecoveryMode, StageBindings, StageProof, Trigger}

pub record CreateRunCommand : Type 0 where
  pub id : String
  pub organisation_id : String
  pub credential_id : String
  pub control_version : String
  pub trigger : Trigger
  pub run_id : Option String

-- What the subclasses of `RunCommand` add to it.
pub data CommandBody : Type 0 where
  start : String → ℕ → CommandBody  -- owner_id, expires_at
  renew : String → ℕ → ℕ → CommandBody  -- owner_id, expires_at, fencing_token
  complete_stage : ℕ → StageProof → StageBindings → CommandBody  -- fencing_token, proof, bindings
  pause : ℕ → CommandBody  -- fencing_token
  resume : String → ℕ → CommandBody  -- owner_id, expires_at
  fail : ℕ → Failure → CommandBody  -- fencing_token, failure
  cancel : CommandBody
  cleanup : ℕ → Failure → CommandBody  -- fencing_token, failure
  recover : String → ℕ → CommandBody  -- owner_id, expires_at
  -- fencing_token, recovery_id, mode, evidence_ids
  complete_recovery : ℕ → String → RecoveryMode → List String → CommandBody

pub record RunCommand : Type 0 where
  pub id : String
  pub organisation_id : String
  pub run_id : String
  pub actor_id : String
  pub expected_revision : ℕ
  pub body : CommandBody

-- The literal `operation` of each subclass.
unfoldable pub operation : CommandBody → String
operation (CommandBody.start _ _) = "start"
operation (CommandBody.renew _ _ _) = "renew"
operation (CommandBody.complete_stage _ _ _) = "complete-stage"
operation (CommandBody.pause _) = "pause"
operation (CommandBody.resume _ _) = "resume"
operation (CommandBody.fail _ _) = "fail"
operation CommandBody.cancel = "cancel"
operation (CommandBody.cleanup _ _) = "cleanup"
operation (CommandBody.recover _ _) = "recover"
operation (CommandBody.complete_recovery _ _ _ _) = "complete-recovery"

-- The fields of `ControlDefinition` that its validator and the gates read.
pub record ControlDefinition : Type 0 where
  pub required_checks : List (Stage × List String)
  pub allowed_tools : List String
  pub protected_tools : List String
  pub require_revoke_approval : Bool
  pub require_generation_telemetry : Bool
  pub automatic_triggers : List String
  pub emergency_triggers : List String

pub record ControlVersion : Type 0 where
  pub id : String
  pub organisation_id : String
  pub credential_id : String
  pub number : ℕ
  pub definition : ControlDefinition
  pub digest : String
  pub created_by : String
  pub created_at : ℕ
