-- ===== src/Broker/Execute/Leased.antt =====
-- When `execute` lets a connector execute a tool: once in a call, and under the lease that the call
-- has taken.
use uumi.Errors.{Error, Result, err, ok}
use uumi.Broker.Attempts.{Attempts, ToolResult}
use uumi.Broker.Connectors.{ConnectorRegistry}
use uumi.Broker.Request.{BrokerCalls}
use uumi.Broker.Capability.{Codec}
use uumi.Broker.Attempts.Leases.{LeasedUntil}
use uumi.Broker.Execute.{
  Call, Execution, World, after_checkpoint, ambiguous, and_then, break_off, broke, commit, conclude,
  connector_failed, finish_with, responded, run_tool, settle, succeeded_with, transact,
}
use uumi.Prelude.{refl, ℕ, ◌+◌, ◌∙◌, ◌≡◌, ◌⊎◌}

commit-executions :
    (w : World) (t : Attempts) (x : Result Attempts) → (commit w t x).1.executions ≡ w.executions
unfolding commit
commit-executions w t (err e) = refl
commit-executions w t (ok t') = refl

-- The executions up to an outcome.
abbrev pub Executions : {A : Type 0} → ℕ → A × World → Type 0
Executions n x = x.1.executions ≡ n

and_then-Executions :
    {A B : Type 0} (n : ℕ) (x : Result A) (w : World) (next : A → World → Result B × World)
    → w.executions ≡ n
    → ((a : A) (v : World) → v.executions ≡ n → Executions n (next a v))
    → Executions n (and_then x w next)
unfolding and_then
and_then-Executions n (err e) w next start each = start
and_then-Executions n (ok a) w next start each = each a w start

module _ (calls : BrokerCalls) (codec : Codec) (registry : ConnectorRegistry)
    (others : ℕ → Attempts → Attempts) (lease : ℕ) where
  transact-Executions :
      (n : ℕ) (body : Attempts → Result Attempts) (w : World)
      → w.executions ≡ n
      → Executions n (transact calls codec registry others lease body w)
  unfolding transact
  transact-Executions n body w start = commit-executions w _ (body _) ∙ start

  finish_with-Executions :
      (n : ℕ) (c : Call) (result : ToolResult) (answer : Result ToolResult) (w : World)
      → w.executions ≡ n
      → Executions n (finish_with calls codec registry others lease c result answer w)
  unfolding finish_with
  finish_with-Executions n c result answer w start =
      and_then-Executions n _ _ _ (transact-Executions n _ w start) (λ _ v same. same)

  settle-Executions :
      (n : ℕ) (c : Call) (result : ToolResult) (w : World)
      → w.executions ≡ n
      → Executions n (settle calls codec registry others lease c result w)
  unfolding settle
  settle-Executions n c result w start =
      and_then-Executions n _ _ _ (finish_with-Executions n c result (ok result) w start)
        (λ r v same. and_then-Executions n (c.audited result) v _ same (λ _ u also. also))

  break_off-Executions :
      (n : ℕ) (c : Call) (e : Error) (w : World)
      → w.executions ≡ n
      → Executions n (break_off calls codec registry others lease c e w)
  unfolding break_off
  break_off-Executions n c e w start = finish_with-Executions n c _ (err e) w start

  after_checkpoint-Executions :
      (n : ℕ) (c : Call) (result : ToolResult) (x : Result (Unit {0})) (w : World)
      → w.executions ≡ n
      → Executions n (after_checkpoint calls codec registry others lease c result x w)
  unfolding after_checkpoint
  after_checkpoint-Executions n c result (err e) w start = break_off-Executions n c e w start
  after_checkpoint-Executions n c result (ok done) w start = settle-Executions n c result w start

  conclude-Executions :
      (n : ℕ) (c : Call) (x : Execution) (w : World)
      → w.executions ≡ n
      → Executions n (conclude calls codec registry others lease c x w)
  unfolding conclude
  conclude-Executions n c (responded response) w start =
      after_checkpoint-Executions n c (succeeded_with c.request response) _ _
        (transact-Executions n _ w start)
  conclude-Executions n c ambiguous w start = start
  conclude-Executions n c (connector_failed code retryable) w start =
      settle-Executions n c _ w start
  conclude-Executions n c (broke e) w start = break_off-Executions n c e w start

  pub run_tool-Executions :
      (c : Call) (w : World)
      → Executions (w.executions + 1) (run_tool calls codec registry others lease c w)
  unfolding run_tool
  run_tool-Executions c w = conclude-Executions (w.executions + 1) c c.executed _ refl

  -- The connector executes the tool, once, from a world in which the attempt runs under a lease
  -- that lasts `lease` from the call's reading of the clock.
  abbrev pub RunsUnder : Call → ℕ → Result ToolResult × World → Type 0
  RunsUnder c n x =
      (v : World) × LeasedUntil v.attempts c.request (c.now + lease)
      × (v.executions ≡ n)
      × (x ≡ run_tool calls codec registry others lease c v)
      × (x.1.executions ≡ n + 1)

  abbrev RunsLeased : Call → ℕ → Result ToolResult × World → Type 0
  RunsLeased c n x = (x.1.executions ≡ n) ⊎ RunsUnder c n x
