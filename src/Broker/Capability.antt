-- ===== src/Broker/Capability.antt =====
-- server/broker/capability.py: the signed tokens by which an agent is allowed one tool call. The JSON
-- and base64 encoders and the Ed25519 keys are libraries, and their calls are those of `Codec`. A
-- numeric claim is a natural number; instants count seconds.
pub mod Verified
use uumi.Prelude.{
  Bool, List, Option, String, [], concat, false, if◌then◌else◌, leb, length, nat_eq, none, some,
  split, string_eq, ℕ, ◌&&◌, ◌==◌, ◌∷◌,
}
use uumi.Contracts.{Stage, stage_eq, stage_value, stages}
use uumi.Errors.{Result, capability_rejected, err, ok, reject_if, require, ◌>>=◌, ◌>>◌}

pub record CapabilityClaims : Type 0 where
  pub organisation_id : String
  pub run_id : String
  pub agent_id : String
  pub tool : String
  pub connection_id : String
  pub stage : Stage
  pub fencing_token : ℕ
  pub request_digest : String
  pub action_digest : String
  pub expires_at : ℕ
  pub nonce : String
  pub approval_id : Option String

-- What a JSON text holds, as far as the claims look: a value of an object is a string, a natural
-- number, a truth value, null or something else, which is its JSON text.
pub data JsonValue : Type 0 where
  text : String → JsonValue
  number : ℕ → JsonValue
  truth : Bool → JsonValue
  null : JsonValue
  other : String → JsonValue

abbrev pub JsonObject : Type 0
JsonObject = List (String × JsonValue)

-- `value.get(key)`
abbrev pub get : JsonObject → String → Option JsonValue
get [] key = none
get ((k, v) ∷ members) key = let rest = get members key in if k == key then some v else rest

-- The calls of the libraries: `_encode`, `_decode` where it gives an object, the signature of a text
-- in base64, and the verification of one.
pub record Codec : Type 0 where
  pub encode : JsonObject → String
  pub decode : String → Option JsonObject
  pub sign : String → String
  pub check : String → String → Bool

-- The code of the character that separates the parts of a token.
abbrev pub dot : ℕ
dot = 46

abbrev pub header : JsonObject
header =
    ("alg", JsonValue.text "EdDSA") ∷ ("typ", JsonValue.text "FKC") ∷ ("v", JsonValue.number 2) ∷ []

abbrev pub is_text : Option JsonValue → String → Bool
is_text (some (JsonValue.text t)) expected = t == expected
is_text _ expected = false

abbrev pub is_number : Option JsonValue → ℕ → Bool
is_number (some (JsonValue.number n)) expected = n == expected
is_number _ expected = false

-- `header_value == {...}`; an object has no key twice.
abbrev pub is_header : JsonObject → Bool
is_header value =
    length value == 3
    && is_text (get value "alg") "EdDSA"
    && is_text (get value "typ") "FKC"
    && is_number (get value "v") 2

abbrev pub optional_text : Option String → JsonValue
optional_text none = JsonValue.null
optional_text (some t) = JsonValue.text t

-- `{**asdict(claims), "stage": claims.stage.value}`
unfoldable pub payload : CapabilityClaims → JsonObject
payload c =
    ("organisation_id", JsonValue.text c.organisation_id)
    ∷ ("run_id", JsonValue.text c.run_id)
    ∷ ("agent_id", JsonValue.text c.agent_id)
    ∷ ("tool", JsonValue.text c.tool)
    ∷ ("connection_id", JsonValue.text c.connection_id)
    ∷ ("stage", JsonValue.text (stage_value c.stage))
    ∷ ("fencing_token", JsonValue.number c.fencing_token)
    ∷ ("request_digest", JsonValue.text c.request_digest)
    ∷ ("action_digest", JsonValue.text c.action_digest)
    ∷ ("expires_at", JsonValue.number c.expires_at)
    ∷ ("nonce", JsonValue.text c.nonce)
    ∷ ("approval_id", optional_text c.approval_id)
    ∷ []

-- `f"{header}.{payload}"` and the token
abbrev pub dotted : String → String → String
dotted a b = concat a (concat "." b)

unfoldable pub mint : Codec → CapabilityClaims → String
mint codec claims =
    let signed = dotted (codec.encode header) (codec.encode (payload claims)) in
    dotted (codec.encode header) (dotted (codec.encode (payload claims)) (codec.sign signed))

-- `_claim(value, key, str)` and `_claim(value, key, int)`, for which a truth value is no number.
abbrev pub text_value : Option JsonValue → Result String
text_value (some (JsonValue.text t)) = ok t
text_value _ = err capability_rejected

abbrev pub number_value : Option JsonValue → Result ℕ
number_value (some (JsonValue.number n)) = ok n
number_value _ = err capability_rejected

-- `_optional_claim(value, key, str)`
abbrev pub optional_value : Option JsonValue → Result (Option String)
optional_value none = ok none
optional_value (some JsonValue.null) = ok none
optional_value (some (JsonValue.text t)) = ok (some t)
optional_value (some _) = err capability_rejected

-- The stage that has a value.
abbrev pub stage_among : List Stage → String → Result Stage
stage_among [] value = err capability_rejected
stage_among (s ∷ rest) value =
    let later = stage_among rest value in if stage_value s == value then ok s else later

-- `Stage(value)`, with the old name of a stage that `_missing_` gives a new one.
abbrev pub stage_of : String → Result Stage
stage_of value = if value == "playbook" then ok Stage.plan else stage_among stages value

unfoldable pub read_claims : JsonObject → Result CapabilityClaims
read_claims value = do
  organisation_id ← text_value (get value "organisation_id")
  run_id ← text_value (get value "run_id")
  agent_id ← text_value (get value "agent_id")
  tool ← text_value (get value "tool")
  connection_id ← text_value (get value "connection_id")
  named ← text_value (get value "stage")
  stage ← stage_of named
  fencing_token ← number_value (get value "fencing_token")
  request_digest ← text_value (get value "request_digest")
  action_digest ← text_value (get value "action_digest")
  expires_at ← number_value (get value "expires_at")
  nonce ← text_value (get value "nonce")
  approval_id ← optional_value (get value "approval_id")
  ok (record {
    organisation_id = organisation_id;
    run_id = run_id;
    agent_id = agent_id;
    tool = tool;
    connection_id = connection_id;
    stage = stage;
    fencing_token = fencing_token;
    request_digest = request_digest;
    action_digest = action_digest;
    expires_at = expires_at;
    nonce = nonce;
    approval_id = approval_id;
  })

-- `_decode`
abbrev pub decoded : Option JsonObject → Result JsonObject
decoded none = err capability_rejected
decoded (some value) = ok value

-- `CapabilityVerifier.verify`, of the parts of a token.
unfoldable pub verify_parts : Codec → List String → ℕ → Result CapabilityClaims
verify_parts codec (head ∷ body ∷ signature ∷ []) now = do
  require (codec.check signature (dotted head body)) capability_rejected
  header_value ← decoded (codec.decode head)
  require (is_header header_value) capability_rejected
  value ← decoded (codec.decode body)
  claims ← read_claims value
  reject_if (leb claims.expires_at now) capability_rejected
  ok claims
verify_parts codec _ now = err capability_rejected

unfoldable pub verify : Codec → String → ℕ → Result CapabilityClaims
verify codec token now = verify_parts codec (split dot token) now
