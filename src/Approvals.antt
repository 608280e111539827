-- ===== src/Approvals.antt =====
-- packages/contracts/src/contracts/{approval,action}.py and server/core/storage/approval.py: an
-- approval of a protected action is created, decided and consumed, each in one transaction. A
-- document is validated when it is read. The mappings of an action are their canonical JSON texts,
-- and hmac.compare_digest is an equality of texts.
pub mod Lifecycle
pub mod Grant
use uumi.Prelude.{
  Bool, Option, String, false, if◌then◌else◌, is_none, is_some, leb, nat_eq, none, not, option_eq,
  some, string_eq, true, xnor, ℕ, ◌&&◌, ◌+◌, ◌==◌, ◌||◌,
}
use uumi.Errors.{
  Result, approval_rejected, err, ok, reject_if, require, resource_conflict, resource_not_found,
  validation, ◌>>=◌, ◌>>◌,
}
use uumi.Store.{Table, put}

pub data ApprovalDecision : Type 0 where
  pending approved rejected cancelled more_evidence extend : ApprovalDecision

abbrev decision_code : ApprovalDecision → ℕ
decision_code ApprovalDecision.pending = 0
decision_code ApprovalDecision.approved = 1
decision_code ApprovalDecision.rejected = 2
decision_code ApprovalDecision.cancelled = 3
decision_code ApprovalDecision.more_evidence = 4
decision_code ApprovalDecision.extend = 5

-- `a is b`
abbrev pub same_decision : ApprovalDecision → ApprovalDecision → Bool
same_decision a b = decision_code a == decision_code b

pub record Approval : Type 0 where
  pub id : String
  pub organisation_id : String
  pub run_id : String
  pub action_id : String
  pub action_digest : String
  pub plan_hash : String
  pub evidence_hash : String
  pub generation_id : String
  pub requested_by : String
  pub capability_hash : String
  pub decision : ApprovalDecision
  pub approver_id : Option String
  pub expires_at : ℕ
  pub created_at : ℕ
  pub decided_at : Option ℕ
  pub consumed_at : Option ℕ
  pub revision : ℕ

abbrev no_later : Option ℕ → ℕ → Bool
no_later none t = true
no_later (some d) t = leb d t

-- `validate_decision`
unfoldable pub is_valid_approval : Approval → Bool
is_valid_approval a =
    xnor (not (same_decision a.decision ApprovalDecision.pending))
      (is_some a.decided_at && is_some a.approver_id)
    && (is_none a.consumed_at || same_decision a.decision ApprovalDecision.approved)
    && (same_decision a.decision ApprovalDecision.cancelled || no_later a.decided_at a.expires_at)

pub record ProtectedAction : Type 0 where
  pub id : String
  pub organisation_id : String
  pub run_id : String
  pub kind : String
  pub resource : String
  pub credential_id : String
  pub generation_id : String
  pub provider_id : String
  pub control_version : String
  pub playbook_version : Option String
  pub plan_hash : String
  pub evidence_hash : String
  pub preconditions : String
  pub parameters : String

-- `==` on the two contracts.
abbrev action_beq : ProtectedAction → ProtectedAction → Bool
action_beq a b =
    a.id == b.id
    && a.organisation_id == b.organisation_id
    && a.run_id == b.run_id
    && a.kind == b.kind
    && a.resource == b.resource
    && a.credential_id == b.credential_id
    && a.generation_id == b.generation_id
    && a.provider_id == b.provider_id
    && a.control_version == b.control_version
    && a.playbook_version == b.playbook_version
    && a.plan_hash == b.plan_hash
    && a.evidence_hash == b.evidence_hash
    && a.preconditions == b.preconditions
    && a.parameters == b.parameters

abbrev approval_beq : Approval → Approval → Bool
approval_beq a b =
    a.id == b.id
    && a.organisation_id == b.organisation_id
    && a.run_id == b.run_id
    && a.action_id == b.action_id
    && a.action_digest == b.action_digest
    && a.plan_hash == b.plan_hash
    && a.evidence_hash == b.evidence_hash
    && a.generation_id == b.generation_id
    && a.requested_by == b.requested_by
    && a.capability_hash == b.capability_hash
    && same_decision a.decision b.decision
    && a.approver_id == b.approver_id
    && a.expires_at == b.expires_at
    && a.created_at == b.created_at
    && a.decided_at == b.decided_at
    && a.consumed_at == b.consumed_at
    && a.revision == b.revision

pub record ApprovalDb : Type 0 where
  pub approvals : Table Approval  -- organisation, approval
  pub actions : Table ProtectedAction  -- organisation, action

-- `Approval.model_validate(_data(snapshot))` of a document that has to be there.
unfoldable pub load : Option Approval → Result Approval
load none = err resource_not_found
load (some a) = require (is_valid_approval a) validation >> ok a

abbrev stored_action_is : Option ProtectedAction → ProtectedAction → Bool
stored_action_is none action = false
stored_action_is (some a) action = action_beq a action

unfoldable pub create_new : ApprovalDb → Approval → ProtectedAction → Result (Approval × ApprovalDb)
create_new db approval action = do
  reject_if (is_some (db.actions approval.organisation_id action.id)) resource_conflict
  ok (
    approval,
    record {
      approvals = put db.approvals approval.organisation_id approval.id approval;
      actions = put db.actions approval.organisation_id action.id action;
    },
  )

unfoldable pub create_again :
    ApprovalDb → Approval → ProtectedAction → Approval → Result (Approval × ApprovalDb)
create_again db approval action current =
    let replay = record approval { created_at = current.created_at; revision = current.revision } in
    require
      (approval_beq current replay
        && stored_action_is (db.actions approval.organisation_id action.id) action)
      resource_conflict
    >> ok (current, db)

abbrev pub create_on :
    ApprovalDb → Approval → ProtectedAction → Option Approval → Result (Approval × ApprovalDb)
create_on db approval action none = create_new db approval action
create_on db approval action (some a) = load (some a) >>= create_again db approval action

-- `FirestoreApprovalRepository.create`
unfoldable pub create_approval :
    ApprovalDb → Approval → ProtectedAction → Result (Approval × ApprovalDb)
create_approval db approval action =
    create_on db approval action (db.approvals approval.organisation_id approval.id)

unfoldable pub decided : Approval → ApprovalDecision → String → ℕ → Approval
decided a decision actor_id decided_at = record a {
  decision = decision;
  approver_id = some actor_id;
  decided_at = some decided_at;
  revision = a.revision + 1;
}

decide_pending :
    ApprovalDb
    → String
    → String
    → Approval
    → ApprovalDecision
    → String
    → ℕ
    → Result (Approval × ApprovalDb)
decide_pending db org id current decision actor_id decided_at = do
  reject_if
      (not (same_decision decision ApprovalDecision.cancelled) && leb current.expires_at decided_at)
      approval_rejected
  let changed = decided current decision actor_id decided_at
  ok (changed, record db { approvals = put db.approvals org id changed })

unfoldable pub decide_loaded :
    ApprovalDb
    → String
    → String
    → Approval
    → ApprovalDecision
    → String
    → ℕ
    → Result (Approval × ApprovalDb)
unfolding decide_pending
decide_loaded db org id current decision actor_id decided_at =
    if same_decision current.decision ApprovalDecision.pending
    then decide_pending db org id current decision actor_id decided_at
    else (require (same_decision current.decision decision && current.approver_id == some actor_id)
          approval_rejected
        >> ok (current, db))

-- `FirestoreApprovalRepository.decide`
unfoldable pub decide :
    ApprovalDb
    → String
    → String
    → ℕ
    → ApprovalDecision
    → String
    → ℕ
    → Result (Approval × ApprovalDb)
decide db org id expected_revision decision actor_id decided_at = do
  current ← load (db.approvals org id)
  require (current.revision == expected_revision) resource_conflict
  decide_loaded db org id current decision actor_id decided_at

-- The digests that a consumer presents.
pub record Bindings : Type 0 where
  pub capability_hash : String
  pub action_digest : String
  pub plan_hash : String
  pub evidence_hash : String

abbrev pub bindings_of : Approval → Bindings
bindings_of a = record {
  capability_hash = a.capability_hash;
  action_digest = a.action_digest;
  plan_hash = a.plan_hash;
  evidence_hash = a.evidence_hash;
}

abbrev pub bindings_beq : Bindings → Bindings → Bool
bindings_beq b c =
    b.capability_hash == c.capability_hash
    && b.action_digest == c.action_digest
    && b.plan_hash == c.plan_hash
    && b.evidence_hash == c.evidence_hash

consume_first :
    ApprovalDb → String → String → Approval → Bindings → ℕ → Result (Approval × ApprovalDb)
consume_first db org id current presented consumed_at = do
  require (same_decision current.decision ApprovalDecision.approved) approval_rejected
  reject_if (leb current.expires_at consumed_at) approval_rejected
  require (bindings_beq presented (bindings_of current)) approval_rejected
  let changed = record current { consumed_at = some consumed_at; revision = current.revision + 1 }
  ok (changed, record db { approvals = put db.approvals org id changed })

unfoldable pub consume_loaded :
    ApprovalDb → String → String → Approval → Bindings → ℕ → Result (Approval × ApprovalDb)
unfolding consume_first
consume_loaded db org id current presented consumed_at =
    if is_some current.consumed_at
    then (require (bindings_beq presented (bindings_of current)) approval_rejected
        >> ok (current, db))
    else consume_first db org id current presented consumed_at

-- `FirestoreApprovalRepository.consume`
unfoldable pub consume :
    ApprovalDb → String → String → Bindings → ℕ → Result (Approval × ApprovalDb)
consume db org id presented consumed_at = do
  current ← load (db.approvals org id)
  consume_loaded db org id current presented consumed_at

-- `ApprovalService.decide` of server/core/approval/service.py, before its audit event.
unfoldable pub submit_decision :
    ApprovalDb
    → String
    → String
    → ℕ
    → ApprovalDecision
    → String
    → ℕ
    → Result (Approval × ApprovalDb)
submit_decision db org id expected_revision decision actor_id now = do
  reject_if (same_decision decision ApprovalDecision.pending) approval_rejected
  decide db org id expected_revision decision actor_id now
