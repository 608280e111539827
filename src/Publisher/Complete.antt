-- ===== src/Publisher/Complete.antt =====
-- A drain of server/core/events/publish.py that no other publisher disturbs.
use uumi.Prelude.{
  All, Bool-cases, List, Option, String, [], arith, false, if◌then◌else◌, inl, inr, is_empty, ltb,
  min, nat_eq, none, option_eq, refl, some, string_eq, suc, zero, ℕ, ◌+◌, ◌-◌, ◌∷◌, ◌≡◌, ◌≢◌, ◌≤◌,
}
use uumi.Errors.{Result, ok, ◌>>=◌}
use uumi.Outbox.{Delivery, OutboxClaim}
use uumi.Outbox.Order.{Deliveries, start_delivery}
use uumi.Outbox.Queue.{Documents}
use uumi.Outbox.Queue.Claimed.{Held, OneOfEachRun, run_of}
use uumi.Outbox.Queue.Batch.{Deliveries-trans, claim-Batch}
use uumi.Publisher.{
  EventPublisher, Outcome, PublishSummary, add_batch, check_publisher, deliver_batch, drain,
  drain_loop, empty_summary,
}
use uumi.Publisher.Drain.{Balanced, Ends, drain-Ends, stops_empty, stops_full}
use uumi.Publisher.Firestore.{
  ShowsDocuments, deliver_claim-Delivered, firestore_outbox, firestore_outbox-KeepsLimit,
}

-- A call that does not raise, and whose store has been led to by transactions of the outbox.
pub data Calm (s : Delivery) : Result (Option (PublishSummary × Delivery)) → Type 0 where
  no_fuel : Calm s (ok none)
  comes_to : (t : PublishSummary) (s' : Delivery) → Deliveries s s' → Calm s (ok (some (t, s')))

Calm-after :
    (s s' : Delivery) (call : Result (Option (PublishSummary × Delivery)))
    → Deliveries s s'
    → Calm s' call
    → Calm s call
Calm-after s s' _ w no_fuel = no_fuel
Calm-after s s' _ w (comes_to t s'' v) = comes_to t s'' (Deliveries-trans w v)

All-kept :
    (s s' : Delivery) (owner : String) (c : OutboxClaim) (claims : List OutboxClaim)
    → ((d : OutboxClaim) → run_of d ≢ run_of c → Held s owner d → Held s' owner d)
    → All (λ d. run_of d ≢ run_of c) claims
    → All (Held s owner) claims
    → All (Held s' owner) claims
All-kept s s' owner c [] keeps other h = tt
All-kept s s' owner c (d ∷ ds) keeps (other, others) (h, hs) =
    (keeps d other h, All-kept s s' owner c ds keeps others hs)

module _ (p : EventPublisher) (documents : Documents) where
  -- A batch that is held is delivered.
  deliver_batch-Held :
      (n : ℕ) (claims : List OutboxClaim) (s : Delivery)
      → All (Held s p.owner_id) claims
      → OneOfEachRun claims
      → (done : List Outcome × Delivery) × (deliver_batch p (firestore_outbox documents) n claims s
          ≡ ok done)
        × Deliveries s done.1
  unfolding deliver_batch
  deliver_batch-Held n [] s h apart = (([], s), refl, start_delivery)
  deliver_batch-Held n (c ∷ cs) s (h, hs) (other, apart) =
      let d = deliver_claim-Delivered p documents n c s h in
      let (done, returned, moves) =
        deliver_batch-Held (n + 1) cs d.after
          (All-kept s d.after p.owner_id c cs d.keeps_others other hs) apart in
      ((d.outcome ∷ done.0, done.1), rw (d.returns, returned) refl, Deliveries-trans d.moves moves)

  module _ (shows : ShowsDocuments documents) (polls : ℕ → ℕ) (max_events : ℕ) where
    -- A round that has claimed a batch.
    round-Calm :
        (rest : PublishSummary → Delivery → Result (Option (PublishSummary × Delivery)))
        (t : PublishSummary) (s : Delivery) (batch : List OutboxClaim)
        → ((t' : PublishSummary) (s' : Delivery) → Calm s' (rest t' s'))
        → All (Held s p.owner_id) batch
        → OneOfEachRun batch
        → Calm s (
            if is_empty batch
            then ok (some (t, s))
            else (deliver_batch p (firestore_outbox documents) t.claimed batch s
                >>= (λ done. rest (add_batch batch done.0 t) done.1)))
    round-Calm rest t s [] calm h apart = comes_to t s start_delivery
    round-Calm rest t s (c ∷ cs) calm h apart =
        let (done, returned, moves) = deliver_batch-Held t.claimed (c ∷ cs) s h apart in
        rw returned (Calm-after s done.1 _ moves (calm (add_batch (c ∷ cs) done.0 t) done.1))

    drain_loop-Calm :
        (fuel : ℕ) (t : PublishSummary) (s : Delivery)
        → Calm s (drain_loop p (firestore_outbox documents) fuel polls max_events t s)
    unfolding drain_loop firestore_outbox
    drain_loop-Calm zero t s = no_fuel
    drain_loop-Calm (suc fuel) t s = elim (Bool-cases (ltb t.claimed max_events)) [
      | inr full ↦ rw full (comes_to t s start_delivery)
      | inl more ↦
          let limit = min p.batch_size (max_events - t.claimed) in
          let b =
            claim-Batch documents s p.owner_id (polls t.claimed) p.lease_duration limit (shows s) in
          rw (more, b.returns)
            (Calm-after s b.after _ b.moves (
              round-Calm (drain_loop p (firestore_outbox documents) fuel polls max_events) t b.after
                b.claims (drain_loop-Calm fuel) b.held b.apart))
    ]

-- How a drain that is not disturbed comes out.
pub record Drained (p : EventPublisher) (documents : Documents) (polls : ℕ → ℕ) (max_events : ℕ)
    (s : Delivery) : Type 0 where
  pub summary : PublishSummary
  pub after : Delivery
  pub returns : drain p (firestore_outbox documents) polls max_events s ≡ ok (some (summary, after))
  pub balanced : Balanced summary
  pub within : summary.claimed ≤ max_events
  pub moves : Deliveries s after

Calm-end :
    (p : EventPublisher) (documents : Documents) (polls : ℕ → ℕ) (max_events : ℕ) (s : Delivery)
    {call : Result (Option (PublishSummary × Delivery))}
    → drain p (firestore_outbox documents) polls max_events s ≡ call
    → Calm s call
    → Ends p (firestore_outbox documents) polls max_events call
    → Drained p documents polls max_events s
Calm-end p documents polls max_events s e no_fuel x = elim x [ ]
Calm-end p documents polls max_events s e (comes_to t s' w) (stops_full _ _ balanced full) =
    record {
      summary = t;
      after = s';
      returns = e;
      balanced = balanced;
      within = omega arith;
      moves = w;
    }
Calm-end p documents polls max_events s e (comes_to t s' w) (stops_empty _ _ _ balanced below _) =
    record {
      summary = t;
      after = s';
      returns = e;
      balanced = balanced;
      within = omega arith;
      moves = w;
    }

-- A drain of a publisher whose settings pass its checks, on the stored outbox, whose collection
-- group shows the stored documents, with no other publisher at work, does not raise, whatever the
-- transport answers: it returns a summary of at most `max_events` claims, each of which is counted
-- once, and the store has been led there by the transactions of the outbox.
pub drain-Drained :
    (p : EventPublisher) (documents : Documents) (polls : ℕ → ℕ) (max_events : ℕ) (s : Delivery)
    → check_publisher p ≡ ok tt
    → 1 ≤ max_events
    → ShowsDocuments documents
    → Drained p documents polls max_events s
drain-Drained p documents polls max_events s checked some_allowed shows =
    Calm-end p documents polls max_events s refl
      (unfold drain in
        let allowed : ltb max_events 1 ≡ false = ground (arith, some_allowed) in
        rw allowed
          (drain_loop-Calm p documents shows polls max_events (max_events + 1) empty_summary s))
      (drain-Ends p (firestore_outbox documents) polls max_events s checked
        (firestore_outbox-KeepsLimit documents))
