-- ===== src/Broker/Connectors.antt =====
-- `ConnectorRegistry` of server/broker/service.py: which connector provides a tool of a connection. Of
-- a connector it looks at the tools, and the broker at whether it reconciles mutations.
use uumi.Errors.{Result, capability_rejected, err, ok, require, value_error, ◌>>=◌, ◌>>◌}
use uumi.Broker.Request.{Connection, ConnectionInterface, ConnectionRole, tool_role}
use uumi.Prelude.{
  Bool, List, Option, String, any, contains, false, if◌then◌else◌, is_some, nat_eq, none, not, some,
  string_eq, true, ℕ, ◌&&◌, ◌==◌,
}

pub record Connector : Type 0 where
  pub tools : List String  -- a frozenset
  pub reconciles : Bool

-- `_connectors`: a dictionary under the role, the interface and the platform.
abbrev pub ConnectorRegistry : Type 0
ConnectorRegistry = ConnectionRole → ConnectionInterface → String → Option Connector

abbrev role_code : ConnectionRole → ℕ
role_code ConnectionRole.provider = 0
role_code ConnectionRole.secret_store = 1
role_code ConnectionRole.runtime = 2
role_code ConnectionRole.telemetry = 3
role_code ConnectionRole.incident = 4

abbrev same_role : ConnectionRole → ConnectionRole → Bool
same_role a b = role_code a == role_code b

abbrev is_provider : ConnectionRole → Bool
is_provider role = same_role role ConnectionRole.provider

abbrev same_interface : ConnectionInterface → ConnectionInterface → Bool
same_interface ConnectionInterface.api ConnectionInterface.api = true
same_interface ConnectionInterface.browser ConnectionInterface.browser = true
same_interface _ _ = false

-- `register`
unfoldable pub register :
    ConnectorRegistry
    → ConnectionRole
    → ConnectionInterface
    → String
    → Connector
    → Result ConnectorRegistry
register registry role interface platform connector =
    if is_some (registry role interface platform)
    then err value_error
    else ok (λ r i p.
      if same_role role r && same_interface interface i && platform == p
      then some connector
      else registry r i p)

-- The connector under the platform, or that of any provider.
abbrev connector_for : ConnectorRegistry → ConnectionRole → Connection → Option Connector
connector_for registry role connection =
    let under = registry role connection.interface connection.platform in
    if not (is_some under) && is_provider role
    then registry role connection.interface "*"
    else under

abbrev offer : String → Option Connector → Result Connector
offer tool none = err capability_rejected
offer tool (some connector) =
    if contains connector.tools tool then ok connector else err capability_rejected

-- `resolve`
unfoldable pub resolve : ConnectorRegistry → Connection → String → Result Connector
resolve registry connection tool = do
  role ← tool_role tool
  require (any (same_role role) connection.roles) capability_rejected
  offer tool (connector_for registry role connection)
