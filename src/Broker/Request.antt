-- ===== src/Broker/Request.antt =====
-- server/broker/validate.py and `_authorize_mutation` of server/broker/service.py: the conditions on
-- which the broker lets a tool call through. The host name in a URL, the digest of a request and that
-- of an action are library calls.
pub mod Authorized
use uumi.Machine.{holds_lease}
use uumi.Prelude.{
  Bool, List, Option, String, [], all, any, concat, contains, ends_with, if◌then◌else◌, is_some,
  list_eq, nat_eq, none, not, option_eq, rstrip, some, split, starts_with, string_eq, tail_of, true,
  without_last, ℕ, ◌&&◌, ◌++◌, ◌==◌, ◌||◌, ◌∷◌,
}
use uumi.Contracts.{ControlVersion, RotationRun, RunStatus, Stage, stage_eq, status_eq}
use uumi.Errors.{
  Result, approval_rejected, capability_rejected, err, ok, require, resource_not_found, ◌>>=◌, ◌>>◌,
}
use uumi.Approvals.{ApprovalDb, ApprovalDecision, ProtectedAction, load, same_decision}
use uumi.Broker.Capability.{
  CapabilityClaims, Codec, JsonObject, JsonValue, dot, get, payload, verify,
}
use uumi.Broker.Attempts.{ToolRequest}
use uumi.Store.{found}

pub data ConnectionRole : Type 0 where
  provider runtime secret_store telemetry incident : ConnectionRole

pub data ConnectionInterface : Type 0 where
  api browser : ConnectionInterface

-- The fields of the contracts that the checks read; those of `ManagedCredential` are
-- `BrokerCredential`.
pub record Connection : Type 0 where
  pub id : String
  pub organisation_id : String
  pub platform : String
  pub roles : List ConnectionRole  -- a frozenset
  pub interface : ConnectionInterface
  pub capabilities : List String  -- a frozenset
  pub allowed_resources : List String

pub record BrokerCredential : Type 0 where
  pub connection_id : String
  pub secret_store_connection_id : String

pub record ConsumerBinding : Type 0 where
  pub runtime_connection_id : String

-- The calls of the libraries: the host name of a URL, the digest of a tool and its payload, and the
-- digest of an action.
pub record BrokerCalls : Type 0 where
  pub hostname : String → Option String
  pub request_digest : String → JsonObject → String
  pub action_digest : ProtectedAction → String

-- `STAGE_TOOLS`
abbrev pub stage_tools : Stage → List String
stage_tools Stage.trigger = []
stage_tools Stage.preflight =
    "provider.listCredentialMetadata" ∷ "provider.getCredentialStatus"
    ∷ "runtime.inspectSecretBindings" ∷ []
stage_tools Stage.plan = "provider.listCredentialMetadata" ∷ "runtime.inspectSecretBindings" ∷ []
stage_tools Stage.create = "provider.createCredential" ∷ "provider.getCredentialStatus" ∷ []
stage_tools Stage.store =
    "secretStore.getVersion" ∷ "secretStore.testConsumerAccess" ∷ "runtime.inspectSecretBindings"
    ∷ []
stage_tools Stage.deploy = "runtime.deployCandidate" ∷ "runtime.rollback" ∷ []
stage_tools Stage.verify =
    "provider.getCredentialStatus" ∷ "secretStore.getVersion" ∷ "runtime.inspectSecretBindings"
    ∷ "verification.run" ∷ []
stage_tools Stage.rollout = "runtime.shiftTraffic" ∷ "runtime.rollback" ∷ []
stage_tools Stage.observe =
    "telemetry.queryHealth" ∷ "telemetry.queryCredentialUsage" ∷ "runtime.rollback" ∷ []
stage_tools Stage.approval = []
stage_tools Stage.revoke =
    "provider.revokeCredential" ∷ "provider.getCredentialStatus" ∷ "secretStore.disableVersion"
    ∷ "secretStore.destroyVersion" ∷ "verification.run" ∷ []
stage_tools Stage.complete = []

-- `READ_TOOLS`
abbrev pub read_tools : List String
read_tools =
    "provider.listCredentialMetadata" ∷ "provider.getCredentialStatus" ∷ "secretStore.getVersion"
    ∷ "secretStore.testConsumerAccess" ∷ "runtime.inspectSecretBindings" ∷ "telemetry.queryHealth"
    ∷ "telemetry.queryCredentialUsage" ∷ []

-- `roles.get(...)` of `_tool_role`
abbrev pub role_named : String → Option ConnectionRole
role_named namespace =
    if namespace == "provider"
    then some ConnectionRole.provider
    else (if namespace == "runtime"
        then some ConnectionRole.runtime
        else (if namespace == "secretStore"
            then some ConnectionRole.secret_store
            else (if namespace == "telemetry"
                then some ConnectionRole.telemetry
                else (if namespace == "incident" then some ConnectionRole.incident else none))))

-- `tool.partition(".")[0]`
abbrev pub first_part : List String → String
first_part [] = ""
first_part (part ∷ parts) = part

-- `_tool_role`
unfoldable pub tool_role : String → Result ConnectionRole
tool_role tool = found_role (role_named (first_part (split dot tool)))
  where
    found_role : Option ConnectionRole → Result ConnectionRole
    found_role none = err capability_rejected
    found_role (some role) = ok role

-- The connection is the one that the role asks for.
abbrev pub serves_role :
    ConnectionRole → Connection → BrokerCredential → List ConsumerBinding → Bool
serves_role ConnectionRole.provider connection credential bindings =
    connection.id == credential.connection_id
serves_role ConnectionRole.secret_store connection credential bindings =
    connection.id == credential.secret_store_connection_id
serves_role ConnectionRole.runtime connection credential bindings =
    any (λ b. connection.id == b.runtime_connection_id) bindings
serves_role _ connection credential bindings = true

-- A string value of the payload, as a resource.
abbrev pub text_resource : Option JsonValue → (String → String) → List String
text_resource (some (JsonValue.text t)) resource = resource t ∷ []
text_resource _ resource = []

-- `_resources` of a tool that is not the provider's: the string values under the keys that name one.
abbrev pub named_resources : List String → JsonObject → List String
named_resources keys [] = []
named_resources keys ((key, value) ∷ members) =
    let rest = named_resources keys members in
    if contains keys key then text_resource (some value) (λ t. t) ++ rest else rest

abbrev pub resource_keys : String → List String
resource_keys tool =
    let keys = "provider_id" ∷ "service" ∷ "version" ∷ "target" ∷ "resource" ∷ [] in
    if starts_with tool "secretStore." then "secret_resource" ∷ keys else keys

-- `_resources`
unfoldable pub resources : String → JsonObject → Connection → List String
resources tool payload connection =
    if starts_with tool "provider."
    then text_resource (get payload "provider_id")
        (λ id. concat connection.platform (concat ":credentials:" id))
    else named_resources (resource_keys tool) payload

-- The code of a slash.
abbrev pub slash : ℕ
slash = 47

abbrev pub matches : String → String → Bool
matches comparable pattern_text =
    comparable == pattern_text
    || starts_with comparable (concat (rstrip slash pattern_text) "/")
    || not (tail_of pattern_text == "")
      && ends_with pattern_text "*"
      && starts_with comparable (without_last pattern_text)
    || starts_with pattern_text "*." && ends_with comparable (tail_of pattern_text)

-- `parsed.hostname or resource`
abbrev pub comparable_of : Option String → String → String
comparable_of none resource = resource
comparable_of (some host) resource = if host == "" then resource else host

-- `_allowed`
unfoldable pub is_allowed : BrokerCalls → List String → String → Bool
is_allowed calls patterns resource =
    any (matches (comparable_of (calls.hostname resource) resource)) patterns

-- The run is running and the request and the lease carry its token.
abbrev pub holds_fence : ToolRequest → RotationRun → ℕ → Bool
holds_fence request run now =
    run.status == RunStatus.running
    && request.fencing_token == run.fencing_token
    && holds_lease run.lease run.fencing_token now

module _ (calls : BrokerCalls) where
  -- `validate_request`
  unfoldable pub validate_request :
      ToolRequest
      → RotationRun
      → Connection
      → BrokerCredential
      → List ConsumerBinding
      → ControlVersion
      → ℕ
      → Result (Unit {0})
  validate_request request run connection credential bindings controls now = do
    require (request.organisation_id == run.organisation_id && request.run_id == run.id)
        capability_rejected
    require
        (controls.organisation_id == run.organisation_id
          && controls.credential_id == run.credential_id
          && controls.id == run.control_version)
        capability_rejected
    require (holds_fence request run now) capability_rejected
    require
        (request.connection_id == connection.id
          && connection.organisation_id == run.organisation_id)
        capability_rejected
    role ← tool_role request.tool
    require (serves_role role connection credential bindings) capability_rejected
    require (contains controls.definition.allowed_tools request.tool) capability_rejected
    require (contains connection.capabilities request.tool) capability_rejected
    require (contains (stage_tools run.stage) request.tool) capability_rejected
    require
        (all (is_allowed calls connection.allowed_resources)
          (resources request.tool request.payload connection))
        capability_rejected

  -- `validate_capability`
  unfoldable pub binds_request : ToolRequest → RotationRun → CapabilityClaims → Bool
  binds_request request run claims =
      claims.organisation_id == request.organisation_id
      && claims.run_id == request.run_id
      && claims.agent_id == request.agent_id
      && claims.tool == request.tool
      && claims.connection_id == request.connection_id
      && claims.stage == run.stage
      && claims.fencing_token == request.fencing_token
      && claims.request_digest == calls.request_digest request.tool request.payload

  -- `_validate_approval`
  unfoldable pub validate_approval :
      ApprovalDb → ToolRequest → CapabilityClaims → String → Result (Unit {0})
  validate_approval db request claims approval_id = do
    approval ← load (db.approvals request.organisation_id approval_id)
    action ← found (db.actions request.organisation_id approval.action_id) resource_not_found
    require
        (same_decision approval.decision ApprovalDecision.approved && is_some approval.consumed_at)
        approval_rejected
    require (approval.run_id == request.run_id && action.run_id == request.run_id) approval_rejected
    require (action.kind == request.tool) approval_rejected
    require
        (claims.action_digest == calls.action_digest action
          && approval.action_digest == calls.action_digest action)
        approval_rejected

  -- The part of `_authorize_mutation` after the claims are bound to the request.
  unfoldable pub authorize_action :
      ApprovalDb → ToolRequest → String → CapabilityClaims → Option String → Result (Unit {0})
  authorize_action db request request_hash claims none =
      require (claims.action_digest == request_hash) capability_rejected
  authorize_action db request request_hash claims (some approval_id) =
      validate_approval db request claims approval_id

  -- `_authorize_mutation`
  unfoldable pub authorize_mutation :
      Codec
      → ApprovalDb
      → ToolRequest
      → RotationRun
      → String
      → Option String
      → ℕ
      → Result (Unit {0})
  authorize_mutation codec db request run request_hash none now = err capability_rejected
  authorize_mutation codec db request run request_hash (some token) now = do
    claims ← verify codec token now
    require (binds_request request run claims) capability_rejected
    authorize_action db request request_hash claims claims.approval_id

  -- The checks of `BrokerService.execute` before it runs a tool: those of the request, and the
  -- authorisation of a tool that is not in `READ_TOOLS`; the two read the clock apart.
  unfoldable pub admit :
      Codec
      → ApprovalDb
      → ToolRequest
      → RotationRun
      → Connection
      → BrokerCredential
      → List ConsumerBinding
      → ControlVersion
      → Option String
      → ℕ
      → ℕ
      → Result (Unit {0})
  admit codec db request run connection credential bindings controls token now then_now = do
    validate_request request run connection credential bindings controls now
    if contains read_tools request.tool
        then ok tt
        else authorize_mutation codec db request run
            (calls.request_digest request.tool request.payload) token then_now
