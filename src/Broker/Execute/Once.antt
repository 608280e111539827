-- ===== src/Broker/Execute/Once.antt =====
-- What a call of `execute` of server/broker/service.py finds once a call of its request has answered.
use uumi.Errors.{ok}
use uumi.Broker.Attempts.{Attempts, ToolRequest, ToolResult, same_result}
use uumi.Broker.Attempts.Final.{AttemptHistory, attempt-ok, attempt_stored, history_terminal}
use uumi.Broker.Connectors.{ConnectorRegistry}
use uumi.Broker.Request.{BrokerCalls}
use uumi.Broker.Capability.{Codec}
use uumi.Broker.Execute.{Call, World, admission, and_then, execute, proceed, request_hash}
use uumi.Prelude.{Option, String, none, refl, some, subst, sym, true, ℕ, ◌≡◌}
use uumi.Broker.Execute.Answers.{HasResult, execute-Leaves}

result_there :
    (x : Option ToolResult) (result : ToolResult)
    → same_result x result ≡ true
    → (r : ToolResult) × (x ≡ some r)
result_there none result same = cc
result_there (some r) result same = (r, refl)

-- A result stays, whatever transactions of whatever workers come in between.
history-HasResult :
    {t t' : Attempts} (request : ToolRequest) (hash : String) (result : ToolResult)
    → AttemptHistory t t'
    → HasResult t request hash result
    → HasResult t' request hash result
history-HasResult {t} {t'} request hash result w (a, read, ended, same) =
    let (at, valid, belongs) = attempt-ok t request hash read in
    (a, attempt_stored t' request hash a (history_terminal a w at ended) valid belongs, ended, same)

module _ (calls : BrokerCalls) (codec : Codec) (registry : ConnectorRegistry)
    (others : ℕ → Attempts → Attempts) (lease : ℕ) where
  -- An admitted call of a request that has a result answers with it.
  execute-answers :
      (c : Call) (w : World) (result : ToolResult)
      → admission calls codec registry others lease c ≡ ok tt
      → HasResult
          (others w.ticks w.attempts)
          c.request
          (request_hash calls codec registry others lease c)
          result
      → (r : ToolResult) × ((execute calls codec registry others lease c w).0 ≡ ok r)
        × (same_result (some r) result ≡ true)
        × ((execute calls codec registry others lease c w).1.executions ≡ w.executions)
  unfolding execute proceed and_then
  execute-answers c w result admitted (a, read, ended, same) =
      let (r, there) = result_there a.result result same in
      (r, rw (read, admitted, ended, there) refl, rw there at same, rw (read, admitted, ended) refl)

  -- Once a call has answered, every later call of the request, by whatever worker, that is admitted
  -- answers with the same result, and no connector executes the tool for it, whatever transactions
  -- of other workers come in between and meanwhile.
  pub execute_once :
      ((k : ℕ) (t : Attempts) → AttemptHistory t (others k t))
      → (c d : Call) (w v : World) {result : ToolResult}
      → (execute calls codec registry others lease c w).0 ≡ ok result
      → AttemptHistory (execute calls codec registry others lease c w).1.attempts v.attempts
      → d.request ≡ c.request
      → admission calls codec registry others lease d ≡ ok tt
      → (r : ToolResult) × ((execute calls codec registry others lease d v).0 ≡ ok r)
        × (same_result (some r) result ≡ true)
        × ((execute calls codec registry others lease d v).1.executions ≡ v.executions)
  execute_once meanwhile c d w v {result} answered between same admitted =
      let hash = request_hash calls codec registry others lease c in
      let later =
        history-HasResult c.request hash result between
          (execute-Leaves calls codec registry others lease c w result answered) in
      let at_last = history-HasResult c.request hash result (meanwhile v.ticks v.attempts) later in
      execute-answers d v result admitted (
        subst
          (λ request.
            HasResult (others v.ticks v.attempts) request
              (calls.request_digest request.tool request.payload) result)
          (sym same) at_last)
