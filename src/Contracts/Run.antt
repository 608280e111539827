-- ===== src/Contracts/Run.antt =====
-- packages/contracts/src/contracts/{run,evidence,recovery,plan,command}.py: a rotation run, its
-- parts, and the model validator of `RotationRun`. The patterns and lengths of single text fields
-- are pydantic's to check and are left out; instants are numbers.
use uumi.Prelude.{
  Bool, List, Option, String, [], contains, is_empty, is_none, is_some, nat_eq, none, not, some,
  true, xnor, ℕ, ◌&&◌, ◌==◌, ◌||◌, ◌∷◌, ◌≡◌, ◌≢◌, ◌⊎◌,
}
use uumi.Contracts.State.{RunStatus, Stage, stage_eq, status_eq}

pub record Trigger : Type 0 where
  pub source : String
  pub kind : String
  pub event_id : String
  pub actor_id : String
  pub reason : String
  pub urgency : String
  pub received_at : ℕ

pub record Lease : Type 0 where
  pub owner_id : String
  pub fencing_token : ℕ
  pub expires_at : ℕ

pub record Failure : Type 0 where
  pub code : String
  pub message : String
  pub retryable : Bool
  pub evidence_ids : List String

pub data RecoveryMode : Type 0 where
  retry rollback rollforward cleanup escalate : RecoveryMode

pub record RuntimeDeployment : Type 0 where
  pub binding_id : String
  pub connection_id : String
  pub service : String
  pub candidate_revision : String
  pub rollback_revision : String

pub record StageProof : Type 0 where
  pub run_id : String
  pub organisation_id : String
  pub stage : Stage
  pub checks : List String  -- a frozenset
  pub evidence_ids : List String
  pub actor_id : String
  pub recorded_at : ℕ

pub record StageBindings : Type 0 where
  pub browser_playbook_version : Option String
  pub plan_id : Option String
  pub plan_hash : Option String
  pub current_generation_id : Option String
  pub target_generation_id : Option String
  pub deployments : List RuntimeDeployment

pub record RotationRun : Type 0 where
  pub id : String
  pub organisation_id : String
  pub credential_id : String
  pub trigger : Trigger
  pub control_version : String
  pub stage : Stage
  pub status : RunStatus
  pub lease : Option Lease
  pub fencing_token : ℕ
  pub browser_playbook_version : Option String
  pub plan_id : Option String
  pub plan_hash : Option String
  pub current_generation_id : Option String
  pub target_generation_id : Option String
  pub deployments : List RuntimeDeployment
  pub failure : Option Failure
  pub recovery_id : Option String
  pub recovery_stage : Option Stage
  pub recovery_mode : Option RecoveryMode
  pub recovery_failure : Option Failure
  pub recovery_evidence_ids : List String
  pub created_at : ℕ
  pub updated_at : ℕ
  pub revision : ℕ

-- `self.status in {...}`
abbrev pub status_in : RunStatus → List RunStatus → Bool
status_in s l = contains l s

-- The lease, if there is one, carries the run's fencing token.
abbrev pub lease_token_ok : Option Lease → ℕ → Bool
lease_token_ok none token = true
lease_token_ok (some l) token = l.fencing_token == token

abbrev pub problem_states : List RunStatus
problem_states = RunStatus.failed ∷ RunStatus.cleanup ∷ []

-- `validate_terminal_state` of `RotationRun`, as the conjunction of its checks.
unfoldable pub is_valid_run : RotationRun → Bool
is_valid_run self =
    not (self.status == RunStatus.completed && not (self.stage == Stage.complete))
    && lease_token_ok self.lease self.fencing_token
    && not (status_in self.status problem_states && is_none self.failure)
    && not (not (status_in self.status problem_states) && is_some self.failure)
    && xnor (status_in self.status (RunStatus.recovering ∷ RunStatus.compensated ∷ []))
        (is_some self.recovery_stage)
    && not (
        self.status == RunStatus.compensated
        && (is_none self.recovery_stage
            || is_none self.recovery_mode
            || is_empty self.recovery_evidence_ids))

-- What a valid run means, as facts.
pub record IsValid (r : RotationRun) : Type 0 where
  pub completed_at_end : r.status ≡ RunStatus.completed → r.stage ≡ Stage.complete
  pub lease_fenced : lease_token_ok r.lease r.fencing_token ≡ true
  pub problem_explained :
      (r.status ≡ RunStatus.failed) ⊎ (r.status ≡ RunStatus.cleanup) → is_some r.failure ≡ true
  pub failure_only_in_problem :
      is_some r.failure ≡ true → (r.status ≡ RunStatus.failed) ⊎ (r.status ≡ RunStatus.cleanup)
  pub recovery_bound :
      (r.status ≡ RunStatus.recovering) ⊎ (r.status ≡ RunStatus.compensated)
      → is_some r.recovery_stage ≡ true
  pub bound_only_in_recovery :
      is_some r.recovery_stage ≡ true
      → (r.status ≡ RunStatus.recovering) ⊎ (r.status ≡ RunStatus.compensated)
  pub compensated_complete :
      r.status ≡ RunStatus.compensated
      → (is_some r.recovery_mode ≡ true) × (r.recovery_evidence_ids ≢ [])
