-- ===== src/Broker/Execute/Fresh.antt =====
-- What becomes of a request that has no attempt, when no other worker writes: `execute` on every
-- outcome of the tool.
use uumi.Errors.{Result, ambiguous_mutation, err, ok}
use uumi.Broker.Attempts.{
  Attempts, ToolAttempt, ToolResult, begin, belongs_to, finish, is_running, is_valid_attempt,
  new_attempt, store, store_checkpoint, stored,
}
use uumi.Broker.Attempts.Leases.{
  LeasedUntil, Open, attempt-absent, begin-Open, finish-running, store_checkpoint-returns,
}
use uumi.Broker.Connectors.{Connector, ConnectorRegistry, resolve}
use uumi.Broker.Request.{BrokerCalls}
use uumi.Broker.Capability.{Codec}
use uumi.Broker.Execute.{
  Call, Execution, World, admission, after_checkpoint, ambiguous, and_then, break_off, broke,
  commit, conclude, connector_failed, execute, failed_with, finish_with, prepare, proceed,
  request_hash, responded, run_tool, settle, start_attempt, succeeded_with, transact,
}
use uumi.Broker.Attempts.Final.{finished_for_good, no_attempt}
use uumi.Broker.Execute.Leased.{run_tool-Executions}
use uumi.Broker.Execute.Answers.{HasResult}
use uumi.Prelude.{String, ap, arith, false, none, refl, some, subst, sym, true, ℕ, ◌+◌, ◌∙◌, ◌≡◌}
use uumi.Store.{get-put_self}

-- No worker but this one.
abbrev pub alone : ℕ → Attempts → Attempts
alone k t = t

module _ (calls : BrokerCalls) (codec : Codec) (registry : ConnectorRegistry) (lease : ℕ) where
  transact-returns :
      (body : Attempts → Result Attempts) (w : World) {t : Attempts}
      → body w.attempts ≡ ok t
      → transact calls codec registry alone lease body w
        ≡ (ok tt, record w { attempts = t; ticks = w.ticks + 1 })
  unfolding transact commit
  transact-returns body w h = rw h refl

  -- A running attempt is finished with a result, which stays.
  finish_with-returns :
      (c : Call) (result : ToolResult) (answer : Result ToolResult) (w : World) (a : ToolAttempt)
      → stored w.attempts c.request ≡ some a
      → is_valid_attempt a ≡ true
      → belongs_to a c.request (request_hash calls codec registry alone lease c) ≡ true
      → is_running a.status ≡ true
      → let x = finish_with calls codec registry alone lease c result answer w in
        (x.0 ≡ answer)
        × HasResult x.1.attempts c.request (request_hash calls codec registry alone lease c) result
  unfolding finish_with and_then
  finish_with-returns c result answer w a there valid own runs =
      let hash = request_hash calls codec registry alone lease c in
      let now = c.clock w.ticks in
      let finished = finish-running w.attempts c.request hash a result now there valid own runs in
      let done = transact-returns (λ t. finish t c.request hash result now) w finished in
      (
        rw done refl,
        rw done (finished_for_good w.attempts _ _ c.request hash result now finished no_attempt),
      )

  -- `settle` of a running attempt answers with the result, if the audit takes the event.
  settle-returns :
      (c : Call) (result : ToolResult) (w : World) (a : ToolAttempt)
      → stored w.attempts c.request ≡ some a
      → is_valid_attempt a ≡ true
      → belongs_to a c.request (request_hash calls codec registry alone lease c) ≡ true
      → is_running a.status ≡ true
      → c.audited result ≡ ok tt
      → (settle calls codec registry alone lease c result w).0 ≡ ok result
  unfolding settle and_then
  settle-returns c result w a there valid own runs audited =
      let (answered, _) = finish_with-returns c result (ok result) w a there valid own runs in
      rw (answered, audited) refl

  -- What a call comes to, for each outcome of the execution: the response or the failure of the
  -- connector is its answer; a mutation whose outcome is not known stays leased; any other exception
  -- is recorded as a failure and goes on.
  unfoldable pub Concludes : Call → Execution → Result ToolResult × World → Type 0
  Concludes c (responded response) x = x.0 ≡ ok (succeeded_with c.request response)
  Concludes c (connector_failed code retryable) x =
      x.0 ≡ ok (failed_with c.request code (c.retryable retryable))
  Concludes c ambiguous x =
      (x.0 ≡ err ambiguous_mutation) × LeasedUntil x.1.attempts c.request (c.now + lease)
  Concludes c (broke e) x =
      (x.0 ≡ err e)
      × HasResult x.1.attempts c.request (request_hash calls codec registry alone lease c)
          (failed_with c.request "broker-internal-error" (c.retryable false))

  conclude-Concludes :
      (c : Call) (x : Execution) (w : World) (a : ToolAttempt)
      → Open w.attempts c.request
          (request_hash calls codec registry alone lease c)
          (c.now + lease)
          a
      → ((result : ToolResult) → c.audited result ≡ ok tt)
      → Concludes c x (conclude calls codec registry alone lease c x w)
  unfolding Concludes conclude after_checkpoint break_off
  conclude-Concludes c (responded response) w a o audited =
      let hash = request_hash calls codec registry alone lease c in
      let result = succeeded_with c.request response in
      let b = record a { checkpoint = some result } in
      let done =
        transact-returns (λ t. store_checkpoint t c.request hash result) w
          (store_checkpoint-returns w.attempts c.request hash (c.now + lease) a result o) in
      rw done (
        settle-returns c result _ b
          (get-put_self w.attempts c.request.organisation_id c.request.id b)
          (unfold is_valid_attempt in ground (arith, o.valid, o.runs)) o.own o.runs
          (audited result))
  conclude-Concludes c ambiguous w a o audited = (refl, (a, o.is_there, o.runs, o.lasts))
  conclude-Concludes c (connector_failed code retryable) w a o audited =
      let result = failed_with c.request code (c.retryable retryable) in
      settle-returns c result w a o.is_there o.valid o.own o.runs (audited result)
  conclude-Concludes c (broke e) w a o audited =
      finish_with-returns c (failed_with c.request "broker-internal-error" (c.retryable false))
        (err e) w a o.is_there o.valid o.own o.runs

  -- The world in which the tool is executed.
  begun_world : Call → String → World → World
  begun_world c reconciliation w =
      let hash = request_hash calls codec registry alone lease c in
      let new = new_attempt c.request hash reconciliation c.now (c.now + lease) in
      record w { attempts = store w.attempts c.request new; ticks = w.ticks + 1 + 1 }

  execute-runs :
      (c : Call) (w : World) (connector : Connector) (reconciliation : String)
      → stored w.attempts c.request ≡ none
      → admission calls codec registry alone lease c ≡ ok tt
      → resolve registry c.connection c.request.tool ≡ ok connector
      → prepare c connector ≡ ok reconciliation
      → execute calls codec registry alone lease c w
        ≡ run_tool calls codec registry alone lease c (begun_world c reconciliation w)
  unfolding execute proceed start_attempt and_then begun_world
  execute-runs c w connector reconciliation absent admitted resolved prepared =
      let hash = request_hash calls codec registry alone lease c in
      let (opened, _) =
        begin-Open w.attempts c.request hash reconciliation c.now (c.now + lease) absent in
      let start = record w { ticks = w.ticks + 1 } in
      let done =
        transact-returns (λ t. begin t c.request hash reconciliation c.now (c.now + lease)) start
          opened in
      let read = attempt-absent w.attempts c.request hash absent in
      rw (read, admitted, resolved, prepared, done) refl

  -- An admitted call of a request that has no attempt, when no other worker writes, the connector is
  -- found and prepared, and the audit takes its event, lets the connector execute the tool once. It
  -- answers with the response or with the failure of the connector; if the outcome is not known, it
  -- raises, and the attempt stays leased; any other exception is recorded as the attempt's failure
  -- and goes on.
  pub fresh-Concludes :
      (c : Call) (w : World) (connector : Connector) (reconciliation : String)
      → stored w.attempts c.request ≡ none
      → admission calls codec registry alone lease c ≡ ok tt
      → resolve registry c.connection c.request.tool ≡ ok connector
      → prepare c connector ≡ ok reconciliation
      → ((result : ToolResult) → c.audited result ≡ ok tt)
      → Concludes c c.executed (execute calls codec registry alone lease c w)
        × ((execute calls codec registry alone lease c w).1.executions ≡ w.executions + 1)
  unfolding begun_world
  fresh-Concludes c w connector reconciliation absent admitted resolved prepared audited =
      let hash = request_hash calls codec registry alone lease c in
      let runs = execute-runs c w connector reconciliation absent admitted resolved prepared in
      let (_, opened) =
        begin-Open w.attempts c.request hash reconciliation c.now (c.now + lease) absent in
      let concluded =
        conclude-Concludes c c.executed
          (record (begun_world c reconciliation w) { executions = w.executions + 1 }) _ opened
          audited in
      (
        subst (Concludes c c.executed) (sym runs) (unfold run_tool in concluded),
        ap (λ (x : Result ToolResult × World). x.1.executions) runs
            ∙ run_tool-Executions calls codec registry alone lease c
                (begun_world c reconciliation w),
      )
