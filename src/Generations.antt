-- ===== src/Generations.antt =====
-- packages/contracts/src/contracts/{generation,binding,credential}.py, server/core/storage/generation.py
-- and server/core/generation/service.py: the generations of a credential, from creation through
-- promotion to revocation, each operation one transaction. Documents are read back as they were
-- written; the collections that these operations leave alone are left out.
pub mod Steps
pub mod Active
pub mod Switch
pub mod Single
pub mod Consumers
pub mod Promoted
pub mod Expiry
use uumi.Prelude.{
  Bool, List, Option, String, [], all, contains, false, if◌then◌else◌, is_empty, is_none, is_some,
  leb, list_eq, map, nat_eq, none, option_eq, some, string_eq, true, ℕ, ◌&&◌, ◌+◌, ◌==◌, ◌||◌, ◌∷◌,
}
use uumi.Errors.{Result, ok, reject_if, require, resource_conflict, resource_not_found, ◌>>=◌, ◌>>◌}
use uumi.Store.{Table, found, put}
use uumi.Contracts.{GenerationState}

abbrev state_code : GenerationState → ℕ
state_code GenerationState.creating = 0
state_code GenerationState.active = 1
state_code GenerationState.superseded = 2
state_code GenerationState.revoked = 3
state_code GenerationState.orphaned = 4
state_code GenerationState.unknown = 5

abbrev pub same_state : GenerationState → GenerationState → Bool
same_state a b = state_code a == state_code b

pub record CredentialGeneration : Type 0 where
  pub id : String
  pub organisation_id : String
  pub credential_id : String
  pub provider_id : Option String
  pub provider_display_name : Option String
  pub fingerprint : Option String
  pub scopes : List String
  pub state : GenerationState
  pub attempt_id : String
  pub secret_reference : Option String
  pub predecessor_id : Option String
  pub successor_id : Option String
  pub expires_at : Option ℕ
  pub last_observed_at : Option ℕ
  pub metadata_digest : Option String
  pub created_at : ℕ
  pub revoked_at : Option ℕ

-- The fields of `ManagedCredential` that a promotion reads or writes, and the rotation due time.
pub record ManagedCredential : Type 0 where
  pub id : String
  pub organisation_id : String
  pub provider_id : Option String
  pub provider_display_name : Option String
  pub secret_reference : Option String
  pub scopes : List String
  pub consumer_ids : List String
  pub active_generation_id : Option String
  pub expires_at : Option ℕ
  pub rotation_due_at : Option ℕ
  pub last_observed_at : Option ℕ
  pub metadata_digest : Option String
  pub updated_at : ℕ
  pub revision : ℕ

pub record ConsumerBinding : Type 0 where
  pub id : String
  pub organisation_id : String
  pub credential_id : String
  pub service_id : String
  pub secret_reference : String
  pub current_generation_id : String
  pub target_generation_id : Option String
  pub verification_report_id : Option String
  pub revision : ℕ

-- The fields of `VerificationReport` that are read; `passed` is `status is PASSED`.
pub record Report : Type 0 where
  pub id : String
  pub organisation_id : String
  pub generation_id : String
  pub passed : Bool
  pub completed_at : ℕ

pub record GenerationDb : Type 0 where
  pub credentials : Table ManagedCredential  -- organisation, credential
  pub generations : Table CredentialGeneration  -- organisation, generation
  pub bindings : Table ConsumerBinding  -- organisation, binding
  pub reports : Table Report  -- organisation, report

abbrev due_in_time : Option ℕ → Option ℕ → Bool
due_in_time none expiry = true
due_in_time (some due) none = false
due_in_time (some due) (some expiry) = leb due expiry

-- The two checks of the rotation due time in `ManagedCredential.validate_rotation_due`.
abbrev pub is_due_in_time : ManagedCredential → Bool
is_due_in_time c = due_in_time c.rotation_due_at c.expires_at

abbrev pub generation_beq : CredentialGeneration → CredentialGeneration → Bool
generation_beq a b =
    a.id == b.id
    && a.organisation_id == b.organisation_id
    && a.credential_id == b.credential_id
    && a.provider_id == b.provider_id
    && a.provider_display_name == b.provider_display_name
    && a.fingerprint == b.fingerprint
    && a.scopes == b.scopes
    && same_state a.state b.state
    && a.attempt_id == b.attempt_id
    && a.secret_reference == b.secret_reference
    && a.predecessor_id == b.predecessor_id
    && a.successor_id == b.successor_id
    && a.expires_at == b.expires_at
    && a.last_observed_at == b.last_observed_at
    && a.metadata_digest == b.metadata_digest
    && a.created_at == b.created_at
    && a.revoked_at == b.revoked_at

-- `GenerationService.create`, and the repository's.
unfoldable pub create_at :
    GenerationDb
    → CredentialGeneration
    → Option CredentialGeneration
    → Result (CredentialGeneration × GenerationDb)
create_at db g none =
    ok (g, record db { generations = put db.generations g.organisation_id g.id g })
create_at db g (some current) =
    require (generation_beq current g) resource_conflict >> ok (current, db)

unfoldable pub create_generation :
    GenerationDb → CredentialGeneration → Result (CredentialGeneration × GenerationDb)
create_generation db g = do
  require (same_state g.state GenerationState.creating) resource_conflict
  require (is_some g.provider_id && is_some g.secret_reference) resource_conflict
  create_at db g (db.generations g.organisation_id g.id)

-- The documents of a list of identifiers, where all exist.
unfoldable pub load_bindings :
    Table ConsumerBinding → String → List String → Result (List ConsumerBinding)
load_bindings t org [] = ok []
load_bindings t org (id ∷ ids) = do
  b ← found (t org id) resource_not_found
  bs ← load_bindings t org ids
  ok (b ∷ bs)

-- `for reference, binding in zip(...): transaction.set(reference, change(binding))`
unfoldable pub write_bindings :
    Table ConsumerBinding
    → String
    → List String
    → List ConsumerBinding
    → (ConsumerBinding → ConsumerBinding)
    → Table ConsumerBinding
write_bindings t org (id ∷ ids) (b ∷ bs) change =
    write_bindings (put t org id (change b)) org ids bs change
write_bindings t org _ _ change = t

abbrev pub subset : List String → List String → Bool
subset xs ys = all (contains ys) xs

-- A consumer's binding has verified the target.
abbrev pub verified_for :
    ManagedCredential
    → CredentialGeneration
    → CredentialGeneration
    → Report
    → ConsumerBinding
    → Bool
verified_for credential target predecessor report b =
    b.credential_id == credential.id
    && b.current_generation_id == predecessor.id
    && b.target_generation_id == some target.id
    && b.verification_report_id == some report.id

-- The conditions of `promote` that follow the replay test.
unfoldable pub check_promotion :
    ManagedCredential
    → CredentialGeneration
    → CredentialGeneration
    → Report
    → List ConsumerBinding
    → String
    → Result (Unit {0})
check_promotion credential target predecessor report bindings predecessor_id = do
  require (credential.active_generation_id == some predecessor_id) resource_conflict
  require (same_state target.state GenerationState.creating) resource_conflict
  require (same_state predecessor.state GenerationState.active) resource_conflict
  require
      (target.credential_id == credential.id
        && predecessor.credential_id == credential.id
        && report.generation_id == target.id
        && report.passed)
      resource_conflict
  let services = map (λ (b : ConsumerBinding). b.service_id) bindings
  require (subset services credential.consumer_ids && subset credential.consumer_ids services)
      resource_conflict
  require (all (verified_for credential target predecessor report) bindings) resource_conflict

unfoldable pub promoted : CredentialGeneration → CredentialGeneration → CredentialGeneration
promoted target predecessor = record target {
  state = GenerationState.active;
  predecessor_id = some predecessor.id;
}

unfoldable pub superseded_by : CredentialGeneration → CredentialGeneration → CredentialGeneration
superseded_by predecessor target = record predecessor {
  state = GenerationState.superseded;
  successor_id = some target.id;
}

unfoldable pub activated : ManagedCredential → CredentialGeneration → Report → ManagedCredential
activated credential target report = record credential {
  active_generation_id = some target.id;
  provider_id = target.provider_id;
  provider_display_name = target.provider_display_name;
  secret_reference = target.secret_reference;
  scopes = target.scopes;
  expires_at = target.expires_at;
  last_observed_at = target.last_observed_at;
  metadata_digest = target.metadata_digest;
  updated_at = report.completed_at;
  revision = credential.revision + 1;
}

abbrev pub rebound : CredentialGeneration → ConsumerBinding → ConsumerBinding
rebound target b = record b {
  current_generation_id = target.id;
  target_generation_id = none;
  revision = b.revision + 1;
}

-- Everything a promotion writes.
unfoldable pub write_promotion :
    GenerationDb
    → String
    → String
    → String
    → String
    → List String
    → ManagedCredential
    → CredentialGeneration
    → CredentialGeneration
    → Report
    → List ConsumerBinding
    → GenerationDb
write_promotion db org credential_id target_id predecessor_id ids credential target predecessor
      report bindings =
    record db {
      generations =
          put (put db.generations org target_id (promoted target predecessor)) org predecessor_id
            (superseded_by predecessor target);
      credentials = put db.credentials org credential_id (activated credential target report);
      bindings = write_bindings db.bindings org ids bindings (rebound target);
    }

-- `FirestoreGenerationRepository.promote`, once its documents are read.
unfoldable pub promote_loaded :
    GenerationDb
    → String
    → String
    → String
    → String
    → List String
    → ManagedCredential
    → CredentialGeneration
    → CredentialGeneration
    → Report
    → List ConsumerBinding
    → Result (CredentialGeneration × GenerationDb)
promote_loaded db org credential_id target_id predecessor_id ids credential target predecessor
      report bindings =
    if credential.active_generation_id == some target_id
      && same_state target.state GenerationState.active
    then ok (target, db)
    else (check_promotion credential target predecessor report bindings predecessor_id
        >> ok (
          promoted target predecessor,
          write_promotion db org credential_id target_id predecessor_id ids credential target
              predecessor report bindings,
        ))

-- `GenerationService.promote`, and the repository's.
unfoldable pub promote :
    GenerationDb
    → String
    → String
    → String
    → String
    → String
    → List String
    → Result (CredentialGeneration × GenerationDb)
promote db org credential_id target_id predecessor_id report_id ids = do
  reject_if (is_empty ids) resource_conflict
  credential ← found (db.credentials org credential_id) resource_not_found
  target ← found (db.generations org target_id) resource_not_found
  predecessor ← found (db.generations org predecessor_id) resource_not_found
  report ← found (db.reports org report_id) resource_not_found
  bindings ← load_bindings db.bindings org ids
  promote_loaded db org credential_id target_id predecessor_id ids credential target predecessor
      report bindings

unfoldable pub revoked_generation : CredentialGeneration → ℕ → CredentialGeneration
revoked_generation g revoked_at = record g {
  state = GenerationState.revoked;
  revoked_at = some revoked_at;
}

unfoldable pub revoke_loaded :
    GenerationDb
    → String
    → String
    → CredentialGeneration
    → Report
    → ℕ
    → Result (CredentialGeneration × GenerationDb)
revoke_loaded db org generation_id g report revoked_at =
    if same_state g.state GenerationState.revoked
    then ok (g, db)
    else (require (same_state g.state GenerationState.superseded) resource_conflict
        >> (require (report.passed && report.organisation_id == org && report.generation_id == g.id)
              resource_conflict
            >> ok (
              revoked_generation g revoked_at,
              record db {
                generations =
                    put db.generations org generation_id (revoked_generation g revoked_at);
              },
            )))

-- `FirestoreGenerationRepository.revoke`
unfoldable pub revoke :
    GenerationDb → String → String → String → ℕ → Result (CredentialGeneration × GenerationDb)
revoke db org generation_id report_id revoked_at = do
  g ← found (db.generations org generation_id) resource_not_found
  report ← found (db.reports org report_id) resource_not_found
  revoke_loaded db org generation_id g report revoked_at

-- `FirestoreGenerationRepository.orphan`
unfoldable pub orphan :
    GenerationDb → String → String → Result (CredentialGeneration × GenerationDb)
orphan db org generation_id = do
  g ← found (db.generations org generation_id) resource_not_found
  require
      (same_state g.state GenerationState.creating || same_state g.state GenerationState.unknown)
      resource_conflict
  let changed = record g { state = GenerationState.orphaned }
  ok (changed, record db { generations = put db.generations org generation_id changed })

abbrev targets_or_free : String → ConsumerBinding → Bool
targets_or_free target_id b =
    is_none b.target_generation_id || b.target_generation_id == some target_id

abbrev staged : String → String → ConsumerBinding → ConsumerBinding
staged target_id secret_reference b = record b {
  target_generation_id = some target_id;
  secret_reference = secret_reference;
  revision = b.revision + 1;
}

-- `GenerationService.stage_bindings`, and the repository's.
unfoldable pub stage_bindings :
    GenerationDb → String → String → String → String → List String → Result GenerationDb
stage_bindings db org credential_id target_id secret_reference ids = do
  reject_if (is_empty ids) resource_conflict
  bindings ← load_bindings db.bindings org ids
  require (all (λ (b : ConsumerBinding). b.credential_id == credential_id) bindings)
      resource_conflict
  require (all (targets_or_free target_id) bindings) resource_conflict
  ok (record db {
    bindings = write_bindings db.bindings org ids bindings (staged target_id secret_reference);
  })

abbrev reported : String → ConsumerBinding → ConsumerBinding
reported report_id b = record b {
  verification_report_id = some report_id;
  revision = b.revision + 1;
}

-- `GenerationService.verify_bindings`, and the repository's.
unfoldable pub verify_bindings :
    GenerationDb → String → String → String → List String → Result GenerationDb
verify_bindings db org target_id report_id ids = do
  reject_if (is_empty ids) resource_conflict
  report ← found (db.reports org report_id) resource_not_found
  bindings ← load_bindings db.bindings org ids
  require (report.passed && report.generation_id == target_id) resource_conflict
  require (all (λ (b : ConsumerBinding). b.target_generation_id == some target_id) bindings)
      resource_conflict
  ok (record db { bindings = write_bindings db.bindings org ids bindings (reported report_id) })
