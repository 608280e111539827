-- ===== src/Publisher/Drain.antt =====
-- The loop of `EventPublisher.drain`, server/core/events/publish.py: that it ends, and what it counts.
use uumi.Prelude.{
  Bool-cases, List, Option, String, [], absurd, arith, if◌then◌else◌, inl, inr, is_empty, length,
  ltb, min, nat_eq, refl, some, string_eq, subst, suc, zero, ℕ, ◌+◌, ◌-◌, ◌<◌, ◌∷◌, ◌≡◌, ◌≤◌,
}
use uumi.Errors.{
  >>=-eq-ok, Error, Result, err, ok, ok-injective, reject_if-eq-ok, result_cases, value_error,
  ◌>>=◌,
}
use uumi.Outbox.{OutboxClaim}
use uumi.Publisher.{
  EventPublisher, OutboxRepository, Outcome, PublishSummary, add_batch, check_publisher, count,
  deliver_batch, deliver_claim, drain, drain_loop, empty_summary, is_dead_lettered, is_failed,
  is_published,
}

-- The claims are the published, the failed and the dead-lettered events.
abbrev pub Balanced : PublishSummary → Type 0
Balanced t = t.published + t.failed + t.dead_lettered ≡ t.claimed

-- A claim of at least one event gives no more events than it is asked for.
abbrev pub KeepsLimit : {S : Type 0} → OutboxRepository S → Type 0
KeepsLimit {S} r =
    (s : S) (owner : String) (now lease_duration limit : ℕ) (batch : List OutboxClaim) (s' : S)
    → 1 ≤ limit
    → r.claim s owner now lease_duration limit ≡ ok (batch, s')
    → length batch ≤ limit

count_all :
    (results : List Outcome)
    → count is_published results + count is_failed results + count is_dead_lettered results
      ≡ length results
unfolding count
count_all [] = refl
count_all (Outcome.was_published ∷ results) = let rest = count_all results in ground (arith, rest)
count_all (Outcome.was_failed ∷ results) = let rest = count_all results in ground (arith, rest)
count_all (Outcome.was_dead_lettered ∷ results) =
    let rest = count_all results in ground (arith, rest)

-- How a drain ends: a call raises, or the summary is balanced and within the bound, and either it is
-- full or the repository had nothing more to claim.
pub data Ends {S : Type 0} (p : EventPublisher) (r : OutboxRepository S) (polls : ℕ → ℕ)
    (max_events : ℕ) : Result (Option (PublishSummary × S)) → Type 0 where
  raises : (e : Error) → Ends p r polls max_events (err e)
  stops_full :
      (t : PublishSummary) (s : S)
      → Balanced t
      → t.claimed ≡ max_events
      → Ends p r polls max_events (ok (some (t, s)))
  stops_empty :
      (t : PublishSummary) (before s : S)
      → Balanced t
      → t.claimed < max_events
      → r.claim before p.owner_id
          (polls t.claimed)
          p.lease_duration
          (min p.batch_size (max_events - t.claimed))
        ≡ ok ([], s)
      → Ends p r polls max_events (ok (some (t, s)))

module _ {S : Type 0} (p : EventPublisher) (r : OutboxRepository S) where
  -- A batch that is delivered has a result for each claim.
  deliver_batch-length :
      (n : ℕ) (claims : List OutboxClaim) (s : S) {done : List Outcome × S}
      → deliver_batch p r n claims s ≡ ok done
      → length done.0 ≡ length claims
  unfolding deliver_batch
  deliver_batch-length n [] s h =
      subst (λ (d : List Outcome × S). length d.0 ≡ 0) (ok-injective h) refl
  deliver_batch-length n (claim ∷ claims) s h =
      let (done, _, h1) = >>=-eq-ok (deliver_claim p r n claim s) _ h in
      let (rest, returned, h2) = >>=-eq-ok (deliver_batch p r (n + 1) claims done.1) _ h1 in
      let one = deliver_batch-length (n + 1) claims done.1 returned in
      subst (λ (d : List Outcome × S). length d.0 ≡ length (claim ∷ claims)) (ok-injective h2)
        (omega (arith, one))

-- A batch with a result for each claim keeps the balance.
add_batch-Balanced :
    (batch : List OutboxClaim) (results : List Outcome) (t : PublishSummary)
    → length results ≡ length batch
    → Balanced t
    → Balanced (add_batch batch results t)
unfolding add_batch
add_batch-Balanced batch results t same balanced =
    let sums = count_all results in omega (arith, same, balanced, sums)

add_batch-claimed :
    (batch : List OutboxClaim) (results : List Outcome) (t : PublishSummary)
    → (add_batch batch results t).claimed ≡ t.claimed + length batch
unfolding add_batch
add_batch-claimed batch results t = refl

module _ {S : Type 0} (p : EventPublisher) (r : OutboxRepository S) (polls : ℕ → ℕ) (max_events : ℕ)
    (law : KeepsLimit r) (batches : 1 ≤ p.batch_size) where
  -- A round that has claimed a batch.
  batch-Ends :
      (rest : PublishSummary → S → Result (Option (PublishSummary × S))) (fuel : ℕ)
      (t : PublishSummary) (before s : S) (batch : List OutboxClaim)
      → ((t' : PublishSummary) (s' : S)
          → 1 ≤ fuel
          → max_events + 1 ≤ t'.claimed + fuel
          → t'.claimed ≤ max_events
          → Balanced t'
          → Ends p r polls max_events (rest t' s'))
      → max_events + 1 ≤ t.claimed + suc fuel
      → t.claimed < max_events
      → Balanced t
      → r.claim before p.owner_id
          (polls t.claimed)
          p.lease_duration
          (min p.batch_size (max_events - t.claimed))
        ≡ ok (batch, s)
      → Ends p r polls max_events (
          if is_empty batch
          then ok (some (t, s))
          else (deliver_batch p r t.claimed batch s
              >>= (λ done. rest (add_batch batch done.0 t) done.1)))
  batch-Ends rest fuel t before s [] ends enough below balanced claimed =
      stops_empty t before s balanced below claimed
  batch-Ends rest fuel t before s (c ∷ cs) ends enough below balanced claimed =
      let few =
        law before p.owner_id (polls t.claimed) p.lease_duration
          (min p.batch_size (max_events - t.claimed)) (c ∷ cs) s (ground arith) claimed in
      let within : t.claimed + length (c ∷ cs) ≤ max_events = ground (arith, few, below) in
      elim (result_cases (deliver_batch p r t.claimed (c ∷ cs) s)) [
        | inl (e, failed) ↦ rw failed (raises e)
        | inr (done, returned) ↦
            let same = deliver_batch-length p r t.claimed (c ∷ cs) s returned in
            let after = add_batch (c ∷ cs) done.0 t in
            let counted = add_batch-claimed (c ∷ cs) done.0 t in
            rw returned (
              ends after done.1 (omega arith) (omega arith) (omega arith)
                (add_batch-Balanced (c ∷ cs) done.0 t same balanced))
      ]

  drain_loop-Ends :
      (fuel : ℕ) (t : PublishSummary) (s : S)
      → 1 ≤ fuel
      → max_events + 1 ≤ t.claimed + fuel
      → t.claimed ≤ max_events
      → Balanced t
      → Ends p r polls max_events (drain_loop p r fuel polls max_events t s)
  unfolding drain_loop
  drain_loop-Ends zero t s positive enough within balanced = absurd (omega arith)
  drain_loop-Ends (suc fuel) t s positive enough within balanced =
      elim (Bool-cases (ltb t.claimed max_events)) [
        | inr full ↦ rw full (stops_full t s balanced (ground (arith, full)))
        | inl more ↦
            let below : t.claimed < max_events = ground (arith, more) in
            let limit = min p.batch_size (max_events - t.claimed) in
            rw more
              (elim (result_cases (r.claim s p.owner_id (polls t.claimed) p.lease_duration limit)) [
                | inl (e, failed) ↦ rw failed (raises e)
                | inr ((batch, s'), claimed) ↦ rw claimed (
                    batch-Ends (drain_loop p r fuel polls max_events) fuel t s s' batch
                      (drain_loop-Ends fuel) enough below balanced claimed)
              ])
      ]

-- A drain of a publisher whose settings pass its checks, on a repository that gives no more events
-- than it is asked for, ends: a call raises, or it returns a summary in which every claim is counted
-- once and which is full, with exactly the events that it was allowed, or whose last claim found
-- nothing.
pub drain-Ends :
    {S : Type 0} (p : EventPublisher) (r : OutboxRepository S) (polls : ℕ → ℕ) (max_events : ℕ)
    (s : S)
    → check_publisher p ≡ ok tt
    → KeepsLimit r
    → Ends p r polls max_events (drain p r polls max_events s)
unfolding drain check_publisher
drain-Ends p r polls max_events s checked law =
    let (batches, _) = reject_if-eq-ok (ltb p.batch_size 1) value_error _ checked in
    let positive : 1 ≤ p.batch_size = ground (arith, batches) in
    elim (Bool-cases (ltb max_events 1)) [
      | inl none_allowed ↦ rw none_allowed (raises value_error)
      | inr some_allowed ↦ rw some_allowed (
          drain_loop-Ends p r polls max_events law positive (max_events + 1) empty_summary s
            (omega arith) (omega arith) (omega arith) refl)
    ]
