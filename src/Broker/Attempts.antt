-- ===== src/Broker/Attempts.antt =====
-- server/broker/storage.py and packages/contracts/src/contracts/tool.py: the attempts at tool calls.
-- An attempt is begun, taken over when its lease has expired, given a checkpoint and finished, each
-- in one transaction. A document is validated when it is read; mappings are their JSON texts.
pub mod Steps
pub mod Final
pub mod Leases
use uumi.Prelude.{
  Bool, List, Option, String, false, if◌then◌else◌, is_some, list_eq, ltb, nat_eq, none, not,
  option_eq, some, string_eq, true, xnor, ℕ, ◌&&◌, ◌==◌, ◌||◌,
}
use uumi.Errors.{
  Result, err, ok, reject_if, require, resource_conflict, storage_integrity, validation, ◌>>=◌,
  ◌>>◌,
}
use uumi.Broker.Capability.{JsonObject}
use uumi.Store.{Table, put}

pub record ToolRequest : Type 0 where
  pub id : String
  pub organisation_id : String
  pub run_id : String
  pub agent_id : String
  pub tool : String
  pub connection_id : String
  pub payload : JsonObject
  pub fencing_token : ℕ

pub record ToolResult : Type 0 where
  pub request_id : String
  pub succeeded : Bool
  pub result : String
  pub error_code : Option String
  pub evidence_ids : List String

pub data AttemptStatus : Type 0 where
  running succeeded failed : AttemptStatus

pub record ToolAttempt : Type 0 where
  pub id : String
  pub organisation_id : String
  pub run_id : String
  pub request_digest : String
  pub tool : String
  pub status : AttemptStatus
  pub result : Option ToolResult
  pub checkpoint : Option ToolResult
  pub reconciliation : String
  pub started_at : ℕ
  pub lease_expires_at : ℕ
  pub completed_at : Option ℕ

-- `status is ToolAttemptStatus.RUNNING`
abbrev pub is_running : AttemptStatus → Bool
is_running AttemptStatus.running = true
is_running _ = false

-- `validate_terminal_result`
unfoldable pub is_valid_attempt : ToolAttempt → Bool
is_valid_attempt a =
    xnor (not (is_running a.status)) (is_some a.result && is_some a.completed_at)
    && not (not (is_running a.status) && is_some a.checkpoint)

-- `value == result`
abbrev pub same_result : Option ToolResult → ToolResult → Bool
same_result none r = false
same_result (some a) r =
    a.request_id == r.request_id
    && xnor a.succeeded r.succeeded
    && a.result == r.result
    && a.error_code == r.error_code
    && a.evidence_ids == r.evidence_ids

-- The document of the request, as `model_validate` reads it.
unfoldable pub read_attempt : Option ToolAttempt → Result ToolAttempt
read_attempt none = err storage_integrity
read_attempt (some a) = if is_valid_attempt a then ok a else err validation

-- `_same_attempt`
abbrev pub belongs_to : ToolAttempt → ToolRequest → String → Bool
belongs_to a request request_hash =
    a.organisation_id == request.organisation_id
    && a.run_id == request.run_id
    && a.tool == request.tool
    && a.request_digest == request_hash

unfoldable pub new_attempt : ToolRequest → String → String → ℕ → ℕ → ToolAttempt
new_attempt request request_hash reconciliation now lease_expires_at = record {
  id = request.id;
  organisation_id = request.organisation_id;
  run_id = request.run_id;
  request_digest = request_hash;
  tool = request.tool;
  status = AttemptStatus.running;
  result = none;
  checkpoint = none;
  reconciliation = reconciliation;
  started_at = now;
  lease_expires_at = lease_expires_at;
  completed_at = none;
}

abbrev pub Attempts : Type 0
Attempts = Table ToolAttempt

-- The write of a request's document.
abbrev pub store : Attempts → ToolRequest → ToolAttempt → Attempts
store t request a = put t request.organisation_id request.id a

abbrev pub stored : Attempts → ToolRequest → Option ToolAttempt
stored t request = t request.organisation_id request.id

-- The read that begins `reclaim`, `checkpoint` and `finish`.
unfoldable pub load_attempt : Attempts → ToolRequest → String → Result ToolAttempt
load_attempt t request request_hash = do
  current ← read_attempt (stored t request)
  require (belongs_to current request request_hash) resource_conflict
  ok current

pub attempt_on : Attempts → ToolRequest → String → Option ToolAttempt → Result (Option ToolAttempt)
attempt_on t request request_hash none = ok none
attempt_on t request request_hash (some a) = do
  current ← load_attempt t request request_hash
  ok (some current)

-- `attempt`
unfoldable pub attempt : Attempts → ToolRequest → String → Result (Option ToolAttempt)
unfolding attempt_on
attempt t request request_hash = attempt_on t request request_hash (stored t request)

-- `begin`, after it has read the document: one that is there is refused, either way.
pub begin_on : Attempts → ToolRequest → String → ToolAttempt → Option ToolAttempt → Result Attempts
begin_on t request request_hash new none = ok (store t request new)
begin_on t request request_hash new (some a) = do
  current ← load_attempt t request request_hash
  err resource_conflict

-- `begin`
unfoldable pub begin : Attempts → ToolRequest → String → String → ℕ → ℕ → Result Attempts
unfolding begin_on
begin t request request_hash reconciliation now lease_expires_at =
    begin_on t request request_hash
      (new_attempt request request_hash reconciliation now lease_expires_at) (stored t request)

-- The condition on which `reclaim` raises.
abbrev pub cannot_reclaim : ToolAttempt → ℕ → ℕ → Bool
cannot_reclaim current expected_expiry now =
    not (is_running current.status)
    || not (current.lease_expires_at == expected_expiry)
    || ltb now current.lease_expires_at
    || is_some current.checkpoint

-- `reclaim`
unfoldable pub reclaim : Attempts → ToolRequest → String → ℕ → ℕ → ℕ → Result Attempts
reclaim t request request_hash expected_expiry now lease_expires_at = do
  current ← load_attempt t request request_hash
  reject_if (cannot_reclaim current expected_expiry now) resource_conflict
  ok (store t request (record current { lease_expires_at = lease_expires_at }))

-- A second result of a terminal attempt has to be the first one.
abbrev pub settled_already : Attempts → ToolAttempt → ToolResult → Result Attempts
settled_already t current result =
    if same_result current.result result then ok t else err resource_conflict

-- `current.checkpoint is not None and current.checkpoint != result`
abbrev pub changes_checkpoint : Option ToolResult → ToolResult → Bool
changes_checkpoint none result = false
changes_checkpoint (some c) result = not (same_result (some c) result)

-- `checkpoint`
unfoldable pub store_checkpoint : Attempts → ToolRequest → String → ToolResult → Result Attempts
store_checkpoint t request request_hash result = do
  current ← load_attempt t request request_hash
  if not (is_running current.status) then settled_already t current result else (do
    reject_if (changes_checkpoint current.checkpoint result) resource_conflict
    ok (store t request (record current { checkpoint = some result })))

unfoldable pub finished_attempt : ToolAttempt → ToolResult → ℕ → ToolAttempt
finished_attempt current result now = record current {
  status = if result.succeeded then AttemptStatus.succeeded else AttemptStatus.failed;
  result = some result;
  checkpoint = none;
  completed_at = some now;
}

-- `finish`
unfoldable pub finish : Attempts → ToolRequest → String → ToolResult → ℕ → Result Attempts
finish t request request_hash result now = do
  current ← load_attempt t request request_hash
  if not (is_running current.status)
      then settled_already t current result
      else ok (store t request (finished_attempt current result now))

-- A call of one of the four transactions, by a worker with a request and its digest.
pub data AttemptOp : Type 0 where
  begins : String → ℕ → ℕ → AttemptOp
  reclaims : ℕ → ℕ → ℕ → AttemptOp
  checkpoints : ToolResult → AttemptOp
  finishes : ToolResult → ℕ → AttemptOp

unfoldable pub run_attempt : Attempts → ToolRequest → String → AttemptOp → Result Attempts
run_attempt t request hash (begins reconciliation now expiry) =
    begin t request hash reconciliation now expiry
run_attempt t request hash (reclaims expected now expiry) =
    reclaim t request hash expected now expiry
run_attempt t request hash (checkpoints result) = store_checkpoint t request hash result
run_attempt t request hash (finishes result now) = finish t request hash result now
