-- ===== src/Broker/Execute/Answers.antt =====
-- What `execute` of server/broker/service.py leaves behind when it answers.
use uumi.Errors.{Error, Result, err, ok, ok-injective}
use uumi.Broker.Attempts.{
  Attempts, ToolAttempt, ToolRequest, ToolResult, attempt, is_running, same_result,
}
use uumi.Broker.Attempts.Final.{finished_for_good, no_attempt, same_result_self}
use uumi.Broker.Connectors.{Connector, ConnectorRegistry, resolve}
use uumi.Broker.Request.{BrokerCalls}
use uumi.Broker.Capability.{Codec}
use uumi.Broker.Execute.{
  Call, Execution, ToolResponse, World, admission, after_checkpoint, after_reconcile, ambiguous,
  and_then, break_off, broke, commit, conclude, connector_failed, execute, failed_with, finish_with,
  prepare, proceed, reconcile, request_hash, responded, resume_attempt, run_tool, settle,
  start_attempt, succeeded_with, terminal_result, transact,
}
use uumi.Prelude.{
  Bool-cases, Option, String, false, inl, inr, ltb, none, refl, some, subst, sym, true, ℕ, ◌∙◌, ◌≡◌,
}

-- A read of the request's attempt finds it terminal with the result.
abbrev pub HasResult : Attempts → ToolRequest → String → ToolResult → Type 0
HasResult t request hash result =
    (a : ToolAttempt) × (attempt t request hash ≡ ok (some a))
    × (is_running a.status ≡ false)
    × (same_result a.result result ≡ true)

-- Inversion of a step that returned.
and_then-ok :
    {A B : Type 0} (x : Result A) (w : World) (next : A → World → Result B × World) {b : B}
    → (and_then x w next).0 ≡ ok b
    → (a : A) × (x ≡ ok a) × ((next a w).0 ≡ ok b) × (and_then x w next ≡ next a w)
unfolding and_then
and_then-ok (err e) w next h = cc
and_then-ok (ok a) w next h = (a, refl, h, refl)

commit-ok :
    (w : World) (t : Attempts) (x : Result Attempts) {u : Unit {0}}
    → (commit w t x).0 ≡ ok u
    → x ≡ ok (commit w t x).1.attempts
unfolding commit
commit-ok w t (err e) h = cc
commit-ok w t (ok t') h = refl

module _ (calls : BrokerCalls) (codec : Codec) (registry : ConnectorRegistry)
    (others : ℕ → Attempts → Attempts) (lease : ℕ) where
  -- What a transaction that returned has written.
  pub transact-ok :
      (body : Attempts → Result Attempts) (w : World) {u : Unit {0}}
      → (transact calls codec registry others lease body w).0 ≡ ok u
      → body (others w.ticks w.attempts)
        ≡ ok (transact calls codec registry others lease body w).1.attempts
  unfolding transact
  transact-ok body w h = commit-ok w (others w.ticks w.attempts) (body _) h

  finish_with-HasResult :
      (c : Call) (result : ToolResult) (answer : Result ToolResult) (w : World) {r : ToolResult}
      → (finish_with calls codec registry others lease c result answer w).0 ≡ ok r
      → (answer ≡ ok r)
        × HasResult
            (finish_with calls codec registry others lease c result answer w).1.attempts
            c.request
            (request_hash calls codec registry others lease c)
            result
  unfolding finish_with
  finish_with-HasResult c result answer w h =
      let (_, done, answered, same) = and_then-ok _ _ _ h in
      let finished = transact-ok _ w done in
      (
        answered,
        subst
            (λ (x : Result ToolResult × World).
              HasResult x.1.attempts c.request (request_hash calls codec registry others lease c)
                result)
            (sym same)
            (finished_for_good _ _ _ c.request (request_hash calls codec registry others lease c)
              result (c.clock w.ticks) finished no_attempt),
      )

  -- The outcome of a call leaves the result that it answers with.
  abbrev Leaves : Call → Result ToolResult × World → Type 0
  Leaves c x =
      (r : ToolResult)
      → x.0 ≡ ok r
      → HasResult x.1.attempts c.request (request_hash calls codec registry others lease c) r

  and_then-Leaves :
      {A : Type 0} (c : Call) (x : Result A) (w : World)
      (next : A → World → Result ToolResult × World)
      → ((a : A) → x ≡ ok a → Leaves c (next a w))
      → Leaves c (and_then x w next)
  unfolding and_then
  and_then-Leaves c (err e) w next each r h = cc
  and_then-Leaves c (ok a) w next each r h = each a refl r h

  settle-Leaves :
      (c : Call) (result : ToolResult) (w : World)
      → Leaves c (settle calls codec registry others lease c result w)
  unfolding settle
  settle-Leaves c result w =
      let finished = finish_with calls codec registry others lease c result (ok result) w in
      and_then-Leaves c finished.0 finished.1 _ (λ r done.
        and_then-Leaves c (c.audited result) finished.1 _ (λ _ _ answer h.
          let (_, left) = finish_with-HasResult c result (ok result) w done in
          let same = ok-injective (finish_with-HasResult c result (ok result) w done).0 in
          let also = ok-injective h in
          subst
            (λ x.
              HasResult finished.1.attempts c.request
                (request_hash calls codec registry others lease c) x)
            (same ∙ also) left))

  break_off-Leaves :
      (c : Call) (e : Error) (w : World)
      → Leaves c (break_off calls codec registry others lease c e w)
  unfolding break_off
  break_off-Leaves c e w r h =
      let (bad, _) =
        finish_with-HasResult c (failed_with c.request "broker-internal-error" (c.retryable false))
          (err e) w h in
      cc

  after_checkpoint-Leaves :
      (c : Call) (result : ToolResult) (x : Result (Unit {0})) (w : World)
      → Leaves c (after_checkpoint calls codec registry others lease c result x w)
  unfolding after_checkpoint
  after_checkpoint-Leaves c result (err e) w = break_off-Leaves c e w
  after_checkpoint-Leaves c result (ok done) w = settle-Leaves c result w

  conclude-Leaves :
      (c : Call) (x : Execution) (w : World)
      → Leaves c (conclude calls codec registry others lease c x w)
  unfolding conclude
  conclude-Leaves c (responded response) w =
      after_checkpoint-Leaves c (succeeded_with c.request response) _ _
  conclude-Leaves c ambiguous w = λ r h. cc
  conclude-Leaves c (connector_failed code retryable) w =
      settle-Leaves c (failed_with c.request code (c.retryable retryable)) w
  conclude-Leaves c (broke e) w = break_off-Leaves c e w

  run_tool-Leaves :
      (c : Call) (w : World) → Leaves c (run_tool calls codec registry others lease c w)
  unfolding run_tool
  run_tool-Leaves c w = conclude-Leaves c c.executed _

  finish_with-Leaves :
      (c : Call) (result : ToolResult) (w : World)
      → Leaves c (finish_with calls codec registry others lease c result (ok result) w)
  finish_with-Leaves c result w r h =
      let (answered, left) = finish_with-HasResult c result (ok result) w h in
      subst
        (λ x.
          HasResult
            (finish_with calls codec registry others lease c result (ok result) w).1.attempts
            c.request (request_hash calls codec registry others lease c) x)
        (ok-injective answered) left

  after_reconcile-Leaves :
      (c : Call) (x : Option ToolResponse) (w : World)
      → Leaves c (after_reconcile calls codec registry others lease c x w)
  unfolding after_reconcile
  after_reconcile-Leaves c none w = run_tool-Leaves c w
  after_reconcile-Leaves c (some response) w =
      and_then-Leaves c _ _ _ (λ _ done. finish_with-Leaves c (succeeded_with c.request response) _)

  start_attempt-Leaves :
      (c : Call) (connector : Connector) (w : World)
      → Leaves c (start_attempt calls codec registry others lease c connector w)
  unfolding start_attempt
  start_attempt-Leaves c connector w =
      and_then-Leaves c (prepare c connector) w _
        (λ _ prepared. and_then-Leaves c _ _ _ (λ _ begun. run_tool-Leaves c _))

  resume_attempt-Leaves :
      (c : Call) (connector : Connector) (previous : ToolAttempt) (x : Option ToolResult)
      (w : World)
      → Leaves c (resume_attempt calls codec registry others lease c connector previous x w)
  unfolding resume_attempt
  resume_attempt-Leaves c connector previous (some checkpoint) w = finish_with-Leaves c checkpoint w
  resume_attempt-Leaves c connector previous none w =
      elim (Bool-cases (ltb c.now previous.lease_expires_at)) [
        | inl busy ↦ λ r h. let bad = rw busy at h in cc
        | inr free ↦ rw free (
            and_then-Leaves c _ _ _ (λ _ taken.
              and_then-Leaves c (reconcile c connector) _ _ (λ x _. after_reconcile-Leaves c x _)))
      ]

  terminal-Leaves :
      (c : Call) (previous : ToolAttempt) (x : Option ToolResult) (w : World)
      → previous.result ≡ x
      → attempt w.attempts c.request (request_hash calls codec registry others lease c)
        ≡ ok (some previous)
      → is_running previous.status ≡ false
      → Leaves c (terminal_result x, w)
  terminal-Leaves c previous none w same read ended r h = cc
  terminal-Leaves c previous (some result) w same read ended r h =
      let answer = ok-injective h in (previous, read, ended, rw (same, answer) (same_result_self r))

  proceed-Leaves :
      (c : Call) (previous : Option ToolAttempt) (w : World)
      → attempt w.attempts c.request (request_hash calls codec registry others lease c)
        ≡ ok previous
      → Leaves c (proceed calls codec registry others lease c previous w)
  unfolding proceed
  proceed-Leaves c none w read =
      and_then-Leaves c (resolve registry c.connection c.request.tool) w _
        (λ connector _. start_attempt-Leaves c connector w)
  proceed-Leaves c (some previous) w read = elim (Bool-cases (is_running previous.status)) [
    | inl runs ↦ rw runs (
        and_then-Leaves c (resolve registry c.connection c.request.tool) w _
          (λ connector _. resume_attempt-Leaves c connector previous previous.checkpoint w))
    | inr ended ↦ rw ended (terminal-Leaves c previous previous.result w refl read ended)
  ]

  -- A call that answers leaves its result.
  pub execute-Leaves :
      (c : Call) (w : World) → Leaves c (execute calls codec registry others lease c w)
  unfolding execute
  execute-Leaves c w = and_then-Leaves c _ _ _ (λ previous read.
      and_then-Leaves c (admission calls codec registry others lease c) _ _
        (λ _ _. proceed-Leaves c previous _ read))
