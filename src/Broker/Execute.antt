-- ===== src/Broker/Execute.antt =====
-- `BrokerService.execute` of server/broker/service.py: one call of a tool by an agent. A call is a
-- sequence of transactions of the attempts, between which other workers write; what it wrote stays
-- written when it raises later. What lies behind the connector (`_prepare`, `_reconcile` and
-- `Connector.execute`, each with the transfer of a secret and the writing of evidence that follows
-- it) and the audit are answers that the call is given.
pub mod Answers
pub mod Once
pub mod Leased
pub mod Fresh
use uumi.Prelude.{
  Bool, List, Option, String, [], false, if◌then◌else◌, ltb, none, not, some, true, ℕ, ◌+◌,
}
use uumi.Contracts.{ControlVersion, RotationRun}
use uumi.Errors.{
  Error, Result, ambiguous_mutation, connector_error, err, ok, resource_conflict, runtime_error,
}
use uumi.Approvals.{ApprovalDb}
use uumi.Broker.Capability.{Codec}
use uumi.Broker.Attempts.{
  Attempts, ToolAttempt, ToolRequest, ToolResult, attempt, begin, finish, is_running, reclaim,
  store_checkpoint,
}
use uumi.Broker.Connectors.{Connector, ConnectorRegistry, resolve}
use uumi.Broker.Request.{BrokerCalls, BrokerCredential, Connection, ConsumerBinding, admit}

-- The attempts, the number of transactions so far, and how often a connector executed a tool.
pub record World : Type 0 where
  pub attempts : Attempts
  pub ticks : ℕ
  pub executions : ℕ

-- The answer of a connector, once its secret is stored and its evidence is written.
pub record ToolResponse : Type 0 where
  pub result : String
  pub evidence_ids : List String

-- What the body of the `try` comes to, before the checkpoint: a response, an
-- `AmbiguousMutationError`, another `ConnectorError` with its code, or another exception.
pub data Execution : Type 0 where
  responded : ToolResponse → Execution
  ambiguous : Execution
  connector_failed : String → Bool → Execution
  broke : Error → Execution

-- The arguments of a call, the documents that it reads before it is admitted, its readings of the
-- clock, and the answers that it is given. `retryable` is the JSON text of a flag.
pub record Call : Type 0 where
  pub request : ToolRequest
  pub capability : Option String
  pub run : RotationRun
  pub connection : Connection
  pub credential : BrokerCredential
  pub bindings : List ConsumerBinding
  pub controls : ControlVersion
  pub approvals : ApprovalDb
  pub now : ℕ
  pub verified_at : ℕ
  pub clock : ℕ → ℕ
  pub prepared : Result String
  pub reconciled : Result (Option ToolResponse)
  pub executed : Execution
  pub audited : ToolResult → Result (Unit {0})
  pub retryable : Bool → String

-- What comes after a step runs where the step returned, in the world that it left.
unfoldable pub and_then :
    {A B : Type 0} → Result A → World → (A → World → Result B × World) → Result B × World
and_then (err e) w next = (err e, w)
and_then (ok a) w next = next a w

pub commit : World → Attempts → Result Attempts → Result (Unit {0}) × World
commit w t (err e) = (err e, record w { attempts = t; ticks = w.ticks + 1 })
commit w t (ok t') = (ok tt, record w { attempts = t'; ticks = w.ticks + 1 })

unfoldable pub succeeded_with : ToolRequest → ToolResponse → ToolResult
succeeded_with request response = record {
  request_id = request.id;
  succeeded = true;
  result = response.result;
  error_code = none;
  evidence_ids = response.evidence_ids;
}

unfoldable pub failed_with : ToolRequest → String → String → ToolResult
failed_with request code result = record {
  request_id = request.id;
  succeeded = false;
  result = result;
  error_code = some code;
  evidence_ids = [];
}

-- `_prepare`, which asks a connector that reconciles mutations.
abbrev pub prepare : Call → Connector → Result String
prepare c connector = if connector.reconciles then c.prepared else ok "{}"

-- `_reconcile`, which refuses another connector.
abbrev pub reconcile : Call → Connector → Result (Option ToolResponse)
reconcile c connector = if connector.reconciles then c.reconciled else err connector_error

-- The result of a terminal attempt.
abbrev pub terminal_result : Option ToolResult → Result ToolResult
terminal_result none = err runtime_error
terminal_result (some result) = ok result

-- `others` is what the other workers have done to the attempts before a transaction, and `lease` is
-- the duration of a lease.
module _ (calls : BrokerCalls) (codec : Codec) (registry : ConnectorRegistry)
    (others : ℕ → Attempts → Attempts) (lease : ℕ) where
  abbrev pub request_hash : Call → String
  request_hash c = calls.request_digest c.request.tool c.request.payload

  -- The attempts that the next transaction finds.
  abbrev pub found_attempts : World → Attempts
  found_attempts w = others w.ticks w.attempts

  -- One transaction.
  unfoldable pub transact : (Attempts → Result Attempts) → World → Result (Unit {0}) × World
  unfolding commit
  transact body w = commit w (found_attempts w) (body (found_attempts w))

  -- `finish`, and what the call answers then.
  unfoldable pub finish_with :
      Call → ToolResult → Result ToolResult → World → Result ToolResult × World
  finish_with c result answer w =
      let done = transact (λ t. finish t c.request (request_hash c) result (c.clock w.ticks)) w in
      and_then done.0 done.1 (λ _ v. (answer, v))

  -- The end of `execute`: `finish`, and the audit event.
  unfoldable pub settle : Call → ToolResult → World → Result ToolResult × World
  settle c result w =
      let done = finish_with c result (ok result) w in
      and_then done.0 done.1 (λ r v. and_then (c.audited result) v (λ _ u. (ok r, u)))

  -- The last handler of the `try`: a failure is recorded, and the exception goes on.
  unfoldable pub break_off : Call → Error → World → Result ToolResult × World
  break_off c e w =
      finish_with c (failed_with c.request "broker-internal-error" (c.retryable false)) (err e) w

  -- The end of the body of the `try`: the checkpoint may raise there, too.
  pub after_checkpoint : Call → ToolResult → Result (Unit {0}) → World → Result ToolResult × World
  after_checkpoint c result (err e) w = break_off c e w
  after_checkpoint c result (ok done) w = settle c result w

  pub conclude : Call → Execution → World → Result ToolResult × World
  unfolding after_checkpoint
  conclude c (responded response) w =
      let result = succeeded_with c.request response in
      let done = transact (λ t. store_checkpoint t c.request (request_hash c) result) w in
      after_checkpoint c result done.0 done.1
  conclude c ambiguous w = (err ambiguous_mutation, w)
  conclude c (connector_failed code retryable) w =
      settle c (failed_with c.request code (c.retryable retryable)) w
  conclude c (broke e) w = break_off c e w

  -- `execute` from its `try` on.
  unfoldable pub run_tool : Call → World → Result ToolResult × World
  unfolding conclude
  run_tool c w = conclude c c.executed (record w { executions = w.executions + 1 })

  -- After `_reconcile` of an attempt that has been taken over.
  pub after_reconcile : Call → Option ToolResponse → World → Result ToolResult × World
  after_reconcile c none w = run_tool c w
  after_reconcile c (some response) w =
      let result = succeeded_with c.request response in
      let done = transact (λ t. store_checkpoint t c.request (request_hash c) result) w in
      and_then done.0 done.1 (λ _ v. finish_with c result (ok result) v)

  -- A request that has no attempt: `_prepare` and `begin`.
  unfoldable pub start_attempt : Call → Connector → World → Result ToolResult × World
  start_attempt c connector w = and_then (prepare c connector) w (λ reconciliation v.
      let begun =
        transact (λ t. begin t c.request (request_hash c) reconciliation c.now (c.now + lease)) v in
      and_then begun.0 begun.1 (λ _ u. run_tool c u))

  -- A running attempt, with its checkpoint.
  pub resume_attempt :
      Call → Connector → ToolAttempt → Option ToolResult → World → Result ToolResult × World
  unfolding after_reconcile
  resume_attempt c connector previous (some checkpoint) w =
      finish_with c checkpoint (ok checkpoint) w
  resume_attempt c connector previous none w =
      if ltb c.now previous.lease_expires_at
      then (err resource_conflict, w)
      else (let taken =
            transact
              (λ t.
                reclaim t c.request (request_hash c) previous.lease_expires_at c.now
                  (c.now + lease))
              w in
          and_then taken.0 taken.1 (λ _ v. and_then (reconcile c connector) v (after_reconcile c)))

  -- An admitted call, with the attempt that it read first.
  pub proceed : Call → Option ToolAttempt → World → Result ToolResult × World
  unfolding resume_attempt
  proceed c none w =
      and_then (resolve registry c.connection c.request.tool) w
        (λ connector v. start_attempt c connector v)
  proceed c (some previous) w =
      if not (is_running previous.status)
      then (terminal_result previous.result, w)
      else and_then (resolve registry c.connection c.request.tool) w
          (λ connector v. resume_attempt c connector previous previous.checkpoint v)

  abbrev pub admission : Call → Result (Unit {0})
  admission c =
      admit calls codec c.approvals c.request c.run c.connection c.credential c.bindings c.controls
        c.capability c.now c.verified_at

  -- `execute`
  unfoldable pub execute : Call → World → Result ToolResult × World
  unfolding proceed
  execute c w =
      let t = found_attempts w in
      let start = record w { attempts = t; ticks = w.ticks + 1 } in
      and_then (attempt t c.request (request_hash c)) start
        (λ previous v. and_then (admission c) v (λ _ u. proceed c previous u))
