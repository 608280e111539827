-- ===== src/Examples/BrokerTests.antt =====
-- The theorems on server/broker at a run in its deploy stage and one request to deploy a candidate.
use uumi.Prelude.{
  [], ap, arith, eq_iff, false, if◌then◌else◌, leb, length, list_eq, nat_eq, none, option_eq, refl,
  some, string_eq, sym, true, ◌<◌, ◌==◌, ◌∷◌, ◌≡◌,
}
use uumi.Contracts.{ControlVersion, RotationRun, RunStatus, Stage, stage_eq, status_eq}
use uumi.Errors.{Result, capability_rejected, err, ok, resource_conflict}
use uumi.Store.{put}
use uumi.Approvals.{ApprovalDb}
use uumi.Broker.Capability.{
  CapabilityClaims, Codec, JsonValue, header, mint, payload, read_claims, verify, verify_parts,
}
use uumi.Broker.Capability.Verified.{KeepsTokens, Unforged, verified-Minted, verify-mint}
use uumi.Broker.Attempts.{
  AttemptOp, Attempts, ToolAttempt, ToolRequest, ToolResult, attempt, begin, finish,
  finished_attempt, finishes, is_running, is_valid_attempt, load_attempt, new_attempt, read_attempt,
  reclaim, run_attempt, same_result,
}
use uumi.Broker.Attempts.Final.{finished_for_good, no_attempt, reclaim_once, then_refused}
use uumi.Broker.Request.{
  BrokerCalls, BrokerCredential, Connection, ConnectionInterface, ConnectionRole, admit,
  authorize_action, authorize_mutation, binds_request, is_allowed, resources, tool_role,
  validate_request,
}
use uumi.Broker.Request.Authorized.{MutationGranted, admitted-MutationGranted}
use uumi.Examples.Data.{new_run}
use uumi.Examples.WorkflowTests.{controls}

abbrev pub deploying : RotationRun
deploying = record new_run {
  stage = Stage.deploy;
  status = RunStatus.running;
  lease = some (record { owner_id = "worker_1"; fencing_token = 1; expires_at = 100 });
  fencing_token = 1;
}

abbrev pub request : ToolRequest
request = record {
  id = "request_1";
  organisation_id = "org_1";
  run_id = "run_1";
  agent_id = "agent_1";
  tool = "runtime.deployCandidate";
  connection_id = "connection_1";
  payload = ("service", JsonValue.text "projects/api/service") ∷ [];
  fencing_token = 1;
}

abbrev pub calls : BrokerCalls
calls = record {
  hostname = λ t. none;
  request_digest = λ tool payload. "digest";
  action_digest = λ action. "action";
}

abbrev deploy_claims : CapabilityClaims
deploy_claims = record {
  organisation_id = "org_1";
  run_id = "run_1";
  agent_id = "agent_1";
  tool = "runtime.deployCandidate";
  connection_id = "connection_1";
  stage = Stage.deploy;
  fencing_token = 1;
  request_digest = "digest";
  action_digest = "digest";
  expires_at = 50;
  nonce = "nonce";
  approval_id = none;
}

-- A codec for one token.
abbrev pub codec : Codec
codec = record {
  encode = λ value. if length value == 3 then "header" else "payload";
  decode = λ t. if t == "header" then some header else some (payload deploy_claims);
  sign = λ t. "signature";
  check = λ signature t. t == "header.payload";
}

abbrev OnlyDeploy : CapabilityClaims → Type 0
OnlyDeploy c = c ≡ deploy_claims

codec-KeepsTokens : KeepsTokens codec OnlyDeploy
unfolding payload
codec-KeepsTokens = record {
  reads_header = refl;
  header_without_dot = refl;
  reads_payload = λ c same. ap (λ x. some (payload x)) (sym same);
  payload_without_dot = λ c same. refl;
  signature_without_dot = λ c same. refl;
  verifies = λ c same. refl;
}

codec-Unforged : Unforged codec OnlyDeploy
unfolding payload
codec-Unforged signature signed checked =
    (deploy_claims, refl, (eq_iff signed "header.payload").0 checked)

verify-mint_example :
    verify codec (mint codec deploy_claims) 20
    ≡ (if leb 50 20 then err capability_rejected else ok deploy_claims)
verify-mint_example = verify-mint codec OnlyDeploy codec-KeepsTokens deploy_claims 20 refl

verified-Minted_example : OnlyDeploy deploy_claims × (20 < 50)
unfolding verify verify_parts payload read_claims
verified-Minted_example =
    verified-Minted codec OnlyDeploy codec-KeepsTokens codec-Unforged "header.payload.signature" 20
      deploy_claims refl

abbrev pub connection : Connection
connection = record {
  id = "connection_1";
  organisation_id = "org_1";
  platform = "cloud-run";
  roles = ConnectionRole.runtime ∷ [];
  interface = ConnectionInterface.api;
  capabilities = "runtime.deployCandidate" ∷ [];
  allowed_resources = "projects/api" ∷ [];
}

abbrev pub credential : BrokerCredential
credential = record { connection_id = "connection_2"; secret_store_connection_id = "connection_3" }

abbrev pub deploy_controls : ControlVersion
deploy_controls = record controls {
  definition = record controls.definition { allowed_tools = "runtime.deployCandidate" ∷ [] };
}

abbrev pub no_approvals : ApprovalDb
no_approvals = record { approvals = λ o i. none; actions = λ o i. none }

admitted-MutationGranted_example :
    MutationGranted calls OnlyDeploy no_approvals request deploying 20 21
unfolding admit validate_request tool_role resources is_allowed authorize_mutation binds_request
    authorize_action verify verify_parts payload read_claims
admitted-MutationGranted_example =
    admitted-MutationGranted calls codec OnlyDeploy codec-KeepsTokens codec-Unforged no_approvals
      request deploying connection credential
      (record { runtime_connection_id = "connection_1" } ∷ []) deploy_controls
      (some "header.payload.signature") 20 21 refl refl

abbrev result_of : Result Attempts → Attempts
result_of (ok t) = t
result_of (err e) = λ o i. none

abbrev begun_attempt : Attempts
begun_attempt = result_of (begin (λ o i. none) request "digest" "{}" 1 61)

abbrev deployed : ToolResult
deployed = record {
  request_id = "request_1";
  succeeded = true;
  result = "{}";
  error_code = none;
  evidence_ids = "evidence_1" ∷ [];
}

abbrev finished_attempts : Attempts
finished_attempts = result_of (finish begun_attempt request "digest" deployed 5)

finished_ok : finish begun_attempt request "digest" deployed 5 ≡ ok finished_attempts
unfolding finish begin load_attempt read_attempt is_valid_attempt new_attempt put
finished_ok = refl

-- A worker that comes late and reports a failure is refused.
abbrev late_failure : AttemptOp
late_failure = finishes (record deployed { succeeded = false }) 70

late_refused : run_attempt finished_attempts request "digest" late_failure ≡ err resource_conflict
unfolding run_attempt finish begin load_attempt read_attempt is_valid_attempt new_attempt put
    finished_attempt
late_refused = refl

finished_for_good_example :
    (a : ToolAttempt) × (attempt finished_attempts request "digest" ≡ ok (some a))
    × (is_running a.status ≡ false)
    × (same_result a.result deployed ≡ true)
finished_for_good_example =
    finished_for_good begun_attempt finished_attempts finished_attempts request "digest" deployed 5
      finished_ok
      (then_refused no_attempt request "digest" late_failure resource_conflict late_refused)

abbrev taken_over_attempts : Attempts
taken_over_attempts = result_of (reclaim begun_attempt request "digest" 61 70 130)

taken_ok : reclaim begun_attempt request "digest" 61 70 130 ≡ ok taken_over_attempts
unfolding reclaim begin load_attempt read_attempt is_valid_attempt new_attempt put
taken_ok = refl

reclaim_once_example :
    reclaim taken_over_attempts request "digest" 61 71 131 ≡ err resource_conflict
reclaim_once_example =
    reclaim_once begun_attempt taken_over_attempts request "digest" 61 70 130 71 131 taken_ok
      (omega arith)
