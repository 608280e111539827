-- ===== src/Broker/Request/Authorized.antt =====
-- What has to be there for the broker to run a tool that changes something: server/broker/validate.py,
-- server/broker/capability.py and `_authorize_mutation` of server/broker/service.py together.
use uumi.Approvals.Lifecycle.{load-ok}
use uumi.Broker.Capability.Verified.{KeepsTokens, Unforged, verified-Minted}
use uumi.Prelude.{
  Bool, List, Option, String, arith, contains, eq_iff, false, is_some, list_eq, nat_eq, none,
  option_eq, refl, some, string_eq, true, ℕ, ◌&&◌, ◌<◌, ◌==◌, ◌≡◌,
}
use uumi.Contracts.{
  ControlVersion, RotationRun, RunStatus, stage_eq, stage_eq_iff, status_eq, status_eq_iff,
}
use uumi.Errors.{
  >>-eq-ok, >>=-eq-ok, Error, approval_rejected, capability_rejected, ok, require, require-eq-ok,
  resource_not_found,
}
use uumi.Machine.{holds_lease}
use uumi.Approvals.{Approval, ApprovalDb, ApprovalDecision, ProtectedAction, load, same_decision}
use uumi.Broker.Capability.{CapabilityClaims, Codec, verify}
use uumi.Broker.Attempts.{ToolRequest}
use uumi.Broker.Request.{
  BrokerCalls, BrokerCredential, Connection, ConsumerBinding, admit, authorize_action,
  authorize_mutation, binds_request, holds_fence, read_tools, serves_role, stage_tools, tool_role,
  validate_approval, validate_request,
}
use uumi.Store.{found, found-ok}

-- The request is for this run, which is running, at a stage at which the tool is eligible, and the
-- request and the run's live lease carry the run's token.
pub record InFence (request : ToolRequest) (run : RotationRun) (now : ℕ) : Type 0 where
  pub own_run : request.run_id ≡ run.id
  pub own_organisation : request.organisation_id ≡ run.organisation_id
  pub runs : run.status ≡ RunStatus.running
  pub same_token : request.fencing_token ≡ run.fencing_token
  pub leased : holds_lease run.lease run.fencing_token now ≡ true
  pub eligible : contains (stage_tools run.stage) request.tool ≡ true

-- The claims are for exactly this request.
pub record Binds (calls : BrokerCalls) (request : ToolRequest) (run : RotationRun)
    (c : CapabilityClaims) : Type 0 where
  pub for_run : c.run_id ≡ request.run_id
  pub for_agent : c.agent_id ≡ request.agent_id
  pub for_tool : c.tool ≡ request.tool
  pub for_connection : c.connection_id ≡ request.connection_id
  pub at_stage : c.stage ≡ run.stage
  pub with_token : c.fencing_token ≡ request.fencing_token
  pub with_payload : c.request_digest ≡ calls.request_digest request.tool request.payload

-- The action of the claims is the request itself, or one that an approver has approved.
pub data Consent (calls : BrokerCalls) (db : ApprovalDb) (request : ToolRequest)
    (c : CapabilityClaims) : Type 0 where
  automatic :
      c.approval_id ≡ none
      → c.action_digest ≡ calls.request_digest request.tool request.payload
      → Consent calls db request c
  approved_by :
      (id : String) (approval : Approval) (action : ProtectedAction)
      → c.approval_id ≡ some id
      → db.approvals request.organisation_id id ≡ some approval
      → db.actions request.organisation_id approval.action_id ≡ some action
      → approval.decision ≡ ApprovalDecision.approved
      → is_some approval.consumed_at ≡ true
      → (approval.run_id ≡ request.run_id) × (action.run_id ≡ request.run_id)
      → action.kind ≡ request.tool
      → (c.action_digest ≡ calls.action_digest action)
        × (approval.action_digest ≡ calls.action_digest action)
      → Consent calls db request c

-- What stands behind a tool call that changes something.
pub record MutationGranted (calls : BrokerCalls) (IsMinted : CapabilityClaims → Type 0)
    (db : ApprovalDb) (request : ToolRequest) (run : RotationRun) (now then_now : ℕ) : Type 0 where
  pub in_fence : InFence request run now
  pub claims : CapabilityClaims
  pub minted : IsMinted claims
  pub unexpired : then_now < claims.expires_at
  pub binds : Binds calls request run claims
  pub consent : Consent calls db request claims

is_approved :
    (x : ApprovalDecision)
    → same_decision x ApprovalDecision.approved ≡ true
    → x ≡ ApprovalDecision.approved
is_approved ApprovalDecision.approved h = refl
is_approved _ h = cc

module _ (calls : BrokerCalls) where
  require_last : (b : Bool) (e : Error) → require b e ≡ ok tt → b ≡ true
  require_last true e h = refl
  require_last false e h = cc

  validate_request-InFence :
      (request : ToolRequest) (run : RotationRun) (connection : Connection)
      (credential : BrokerCredential) (bindings : List ConsumerBinding) (controls : ControlVersion)
      (now : ℕ)
      → validate_request calls request run connection credential bindings controls now ≡ ok tt
      → InFence request run now
  unfolding validate_request
  validate_request-InFence request run connection credential bindings controls now h =
      let (own, h1) =
        require-eq-ok (request.organisation_id == run.organisation_id && request.run_id == run.id)
          capability_rejected _ h in
      let (_, h2) =
        require-eq-ok
          (controls.organisation_id == run.organisation_id
            && controls.credential_id == run.credential_id
            && controls.id == run.control_version)
          capability_rejected _ h1 in
      let (fenced, h3) = require-eq-ok (holds_fence request run now) capability_rejected _ h2 in
      let (_, h4) =
        require-eq-ok
          (request.connection_id == connection.id
            && connection.organisation_id == run.organisation_id)
          capability_rejected _ h3 in
      let (role, _, h5) = >>=-eq-ok (tool_role request.tool) _ h4 in
      let (_, h6) =
        require-eq-ok (serves_role role connection credential bindings) capability_rejected _ h5 in
      let (_, h7) =
        require-eq-ok (contains controls.definition.allowed_tools request.tool) capability_rejected
          _ h6 in
      let (_, h8) =
        require-eq-ok (contains connection.capabilities request.tool) capability_rejected _ h7 in
      let (eligible, _) =
        require-eq-ok (contains (stage_tools run.stage) request.tool) capability_rejected _ h8 in
      record {
        own_run = ground (arith, own, eq_iff request.run_id run.id);
        own_organisation = ground (arith, own, eq_iff request.organisation_id run.organisation_id);
        runs = (status_eq_iff run.status RunStatus.running).0 (ground (arith, fenced));
        same_token =
            (nat_eq.equals_iff request.fencing_token run.fencing_token).0 (ground (arith, fenced));
        leased = ground (arith, fenced);
        eligible = eligible;
      }

  binds_request-Binds :
      (request : ToolRequest) (run : RotationRun) (c : CapabilityClaims)
      → binds_request calls request run c ≡ true
      → Binds calls request run c
  unfolding binds_request
  binds_request-Binds request run c h = record {
    for_run = ground (arith, h, eq_iff c.run_id request.run_id);
    for_agent = ground (arith, h, eq_iff c.agent_id request.agent_id);
    for_tool = ground (arith, h, eq_iff c.tool request.tool);
    for_connection = ground (arith, h, eq_iff c.connection_id request.connection_id);
    at_stage = (stage_eq_iff c.stage run.stage).0 (ground (arith, h));
    with_token = (nat_eq.equals_iff c.fencing_token request.fencing_token).0 (ground (arith, h));
    with_payload =
        ground
          (arith, h, eq_iff c.request_digest (calls.request_digest request.tool request.payload));
  }

  validate_approval-Consent :
      (db : ApprovalDb) (request : ToolRequest) (c : CapabilityClaims) (id : String)
      → c.approval_id ≡ some id
      → validate_approval calls db request c id ≡ ok tt
      → Consent calls db request c
  unfolding validate_approval
  validate_approval-Consent db request c id names h =
      let (a, loaded, h1) = >>=-eq-ok (load (db.approvals request.organisation_id id)) _ h in
      let (action, got, h2) =
        >>=-eq-ok (found (db.actions request.organisation_id a.action_id) resource_not_found) _
          h1 in
      let (approved, h3) =
        require-eq-ok (same_decision a.decision ApprovalDecision.approved && is_some a.consumed_at)
          approval_rejected _ h2 in
      let (runs, h4) =
        require-eq-ok (a.run_id == request.run_id && action.run_id == request.run_id)
          approval_rejected _ h3 in
      let (kind, h5) = require-eq-ok (action.kind == request.tool) approval_rejected _ h4 in
      let digests =
        require_last
          (c.action_digest == calls.action_digest action
            && a.action_digest == calls.action_digest action)
          approval_rejected h5 in
      approved_by id a action names (load-ok (db.approvals request.organisation_id id) loaded).0
        (found-ok _ resource_not_found got) (is_approved a.decision (ground (arith, approved)))
        (ground (arith, approved))
        (
          ground (arith, runs, eq_iff a.run_id request.run_id),
          ground (arith, runs, eq_iff action.run_id request.run_id),
        )
        ((eq_iff action.kind request.tool).0 kind)
        (
          ground (arith, digests, eq_iff c.action_digest (calls.action_digest action)),
          ground (arith, digests, eq_iff a.action_digest (calls.action_digest action)),
        )

  authorize_action-Consent :
      (db : ApprovalDb) (request : ToolRequest) (c : CapabilityClaims) (approval : Option String)
      → c.approval_id ≡ approval
      → authorize_action calls db request
          (calls.request_digest request.tool request.payload)
          c
          approval
        ≡ ok tt
      → Consent calls db request c
  unfolding authorize_action
  authorize_action-Consent db request c none names h =
      let same =
        require_last (c.action_digest == calls.request_digest request.tool request.payload)
          capability_rejected h in
      automatic names ((eq_iff c.action_digest _).0 same)
  authorize_action-Consent db request c (some id) names h =
      validate_approval-Consent db request c id names h

  module _ (codec : Codec) (IsMinted : CapabilityClaims → Type 0) (law : KeepsTokens codec IsMinted)
      (unforged : Unforged codec IsMinted) where
    authorize_mutation-Granted :
        (db : ApprovalDb) (request : ToolRequest) (run : RotationRun) (token : Option String)
        (now then_now : ℕ)
        → InFence request run now
        → authorize_mutation calls codec db request run
            (calls.request_digest request.tool request.payload)
            token
            then_now
          ≡ ok tt
        → MutationGranted calls IsMinted db request run now then_now
    unfolding authorize_mutation
    authorize_mutation-Granted db request run none now then_now fence h = cc
    authorize_mutation-Granted db request run (some token) now then_now fence h =
        let (c, verified, h1) = >>=-eq-ok (verify codec token then_now) _ h in
        let (bound, h2) =
          require-eq-ok (binds_request calls request run c) capability_rejected _ h1 in
        let (minted, alive) =
          verified-Minted codec IsMinted law unforged token then_now c verified in
        record {
          in_fence = fence;
          claims = c;
          minted = minted;
          unexpired = alive;
          binds = binds_request-Binds request run c bound;
          consent = authorize_action-Consent db request c c.approval_id refl h2;
        }

    -- When the broker admits a call of a tool that is not one of the reading tools, the run is
    -- running and its live lease and the request carry one token, the tool is eligible at the run's
    -- stage, the holder of the key minted a capability, not expired, for exactly this run, agent,
    -- tool, connection, stage, token and payload, and the action is the request itself or one that
    -- was approved, and consumed, for this run and tool with the same digest.
    pub admitted-MutationGranted :
        (db : ApprovalDb) (request : ToolRequest) (run : RotationRun) (connection : Connection)
        (credential : BrokerCredential) (bindings : List ConsumerBinding)
        (controls : ControlVersion) (token : Option String) (now then_now : ℕ)
        → contains read_tools request.tool ≡ false
        → admit calls codec db request run connection credential bindings controls token now
            then_now
          ≡ ok tt
        → MutationGranted calls IsMinted db request run now then_now
    unfolding admit
    admitted-MutationGranted db request run connection credential bindings controls token now
          then_now mutates h =
        let (valid, h1) =
          >>-eq-ok (validate_request calls request run connection credential bindings controls now)
            _ h in
        authorize_mutation-Granted db request run token now then_now
          (validate_request-InFence request run connection credential bindings controls now valid)
          (rw mutates at h1)
