-- ===== src/Examples/ExecuteTests.antt =====
-- The theorems on `BrokerService.execute` at one request to deploy a candidate.
use uumi.Broker.Connectors.{Connector, ConnectorRegistry, register, resolve}
use uumi.Broker.Request.{
  ConnectionInterface, ConnectionRole, admit, authorize_action, authorize_mutation, binds_request,
  is_allowed, resources, tool_role, validate_request,
}
use uumi.Broker.Capability.{payload, read_claims, verify, verify_parts}
use uumi.Errors.{Result, err, ok}
use uumi.Broker.Attempts.{ToolResult, same_result}
use uumi.Broker.Attempts.Final.{no_attempt}
use uumi.Broker.Execute.{Call, ToolResponse, World, admission, execute, responded, succeeded_with}
use uumi.Broker.Execute.Once.{execute_once}
use uumi.Broker.Execute.Fresh.{Concludes, alone, fresh-Concludes}
use uumi.Examples.BrokerTests.{
  calls, codec, connection, credential, deploy_controls, deploying, no_approvals, request,
}
use uumi.Prelude.{[], none, refl, some, true, ◌+◌, ◌∷◌, ◌≡◌}

abbrev response : ToolResponse
response = record { result = "{}"; evidence_ids = "evidence_1" ∷ [] }

abbrev call : Call
call = record {
  request = request;
  capability = some "header.payload.signature";
  run = deploying;
  connection = connection;
  credential = credential;
  bindings = record { runtime_connection_id = "connection_1" } ∷ [];
  controls = deploy_controls;
  approvals = no_approvals;
  now = 20;
  verified_at = 21;
  clock = λ k. 30 + k;
  prepared = ok "{}";
  reconciled = ok none;
  executed = responded response;
  audited = λ result. ok tt;
  retryable = λ flag. "{}";
}

abbrev later_call : Call
later_call = record call { now = 40; verified_at = 41 }

abbrev deployer : Connector
deployer = record { tools = "runtime.deployCandidate" ∷ []; reconciles = true }

abbrev registry_of : Result ConnectorRegistry → ConnectorRegistry
registry_of (ok registry) = registry
registry_of (err e) = λ role interface platform. none

abbrev registry : ConnectorRegistry
registry = registry_of (
    register (λ role interface platform. none) ConnectionRole.runtime ConnectionInterface.api
      "cloud-run" deployer)

found_deployer : resolve registry connection "runtime.deployCandidate" ≡ ok deployer
unfolding resolve register tool_role
found_deployer = refl

abbrev start : World
start = record { attempts = λ o i. none; ticks = 0; executions = 0 }

call_admitted : admission calls codec registry alone 120 call ≡ ok tt
unfolding admit validate_request tool_role resources is_allowed authorize_mutation binds_request
    authorize_action verify verify_parts payload read_claims
call_admitted = refl

later_admitted : admission calls codec registry alone 120 later_call ≡ ok tt
unfolding admit validate_request tool_role resources is_allowed authorize_mutation binds_request
    authorize_action verify verify_parts payload read_claims
later_admitted = refl

fresh-Concludes_example :
    Concludes calls codec registry 120 call
      (responded response)
      (execute calls codec registry alone 120 call start)
    × ((execute calls codec registry alone 120 call start).1.executions ≡ 1)
fresh-Concludes_example =
    fresh-Concludes calls codec registry 120 call start deployer "{}" refl call_admitted
      found_deployer refl (λ result. refl)

abbrev answered_world : World
answered_world = (execute calls codec registry alone 120 call start).1

call_answered :
    (execute calls codec registry alone 120 call start).0 ≡ ok (succeeded_with request response)
unfolding Concludes
call_answered =
    (fresh-Concludes calls codec registry 120 call start deployer "{}" refl call_admitted
      found_deployer refl (λ result. refl)).0

execute_once_example :
    (r : ToolResult) × ((execute calls codec registry alone 120 later_call answered_world).0 ≡ ok r)
    × (same_result (some r) (succeeded_with request response) ≡ true)
    × ((execute calls codec registry alone 120 later_call answered_world).1.executions
        ≡ answered_world.executions)
execute_once_example =
    execute_once calls codec registry alone 120 (λ k t. no_attempt) call later_call start
      answered_world call_answered no_attempt refl later_admitted
