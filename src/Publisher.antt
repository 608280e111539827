-- ===== src/Publisher.antt =====
-- server/core/events/publish.py: the publisher that drains the outbox. The repository and the
-- transport are its protocols: the repository is a record of operations on a store, and what the
-- transport and the clock answer to the publisher's calls is a function of the delivery's number.
-- The deliveries of one batch, which run concurrently, are taken in the order of the batch; each of
-- them writes in one transaction. Where one raises, what the others of its batch still write is not
-- followed.
pub mod Drain
pub mod Firestore
pub mod Complete
use uumi.Prelude.{
  Bool, List, Option, String, [], false, if◌then◌else◌, is_empty, leb, length, ltb, min, nat_eq,
  none, some, string_eq, suc, true, zero, ℕ, ◌+◌, ◌-◌, ◌||◌, ◌∷◌,
}
use uumi.Contracts.{RunEvent}
use uumi.Errors.{Result, ok, reject_if, value_error, ◌>>=◌, ◌>>◌}
use uumi.Outbox.{OutboxClaim, backoff}

pub record PublishSummary : Type 0 where
  pub claimed : ℕ
  pub published : ℕ
  pub failed : ℕ
  pub dead_lettered : ℕ

-- `OutboxRepository`, on a store.
pub record OutboxRepository (S : Type 0) : Type 0 where
  pub claim : S → String → ℕ → ℕ → ℕ → Result (List OutboxClaim × S)
  pub mark_published : S → OutboxClaim → String → String → ℕ → Result S
  pub mark_failed : S → OutboxClaim → String → String → ℕ → Result S
  pub mark_dead_letter : S → OutboxClaim → String → String → ℕ → Result S

-- What `EventTransport.publish` does: it returns the identifier of the message, or raises an
-- exception, of which `_safe_error` makes a text.
pub data Answer : Type 0 where
  delivered : String → Answer
  raised : String → Answer

pub record EventPublisher : Type 0 where
  pub transport : ℕ → RunEvent → Answer
  pub clock : ℕ → ℕ
  pub owner_id : String
  pub lease_duration : ℕ
  pub batch_size : ℕ
  pub retry_base : ℕ
  pub retry_max : ℕ
  pub maximum_attempts : ℕ

-- The checks of `EventPublisher.__init__`.
unfoldable pub check_publisher : EventPublisher → Result (Unit {0})
check_publisher p = do
  reject_if (ltb p.batch_size 1) value_error
  reject_if (leb p.lease_duration 0) value_error
  reject_if (leb p.retry_base 0 || ltb p.retry_max p.retry_base) value_error
  reject_if (ltb p.maximum_attempts 1) value_error
  ok tt

-- The three results of `_deliver`.
pub data Outcome : Type 0 where
  was_published was_failed was_dead_lettered : Outcome

abbrev pub is_published : Outcome → Bool
is_published Outcome.was_published = true
is_published _ = false

abbrev pub is_failed : Outcome → Bool
is_failed Outcome.was_failed = true
is_failed _ = false

abbrev pub is_dead_lettered : Outcome → Bool
is_dead_lettered Outcome.was_dead_lettered = true
is_dead_lettered _ = false

-- `sum(result == ... for result in results)`
unfoldable pub count : (Outcome → Bool) → List Outcome → ℕ
count test [] = 0
count test (result ∷ results) = (if test result then 1 else 0) + count test results

-- The results of a batch in the summary.
unfoldable pub add_batch : List OutboxClaim → List Outcome → PublishSummary → PublishSummary
add_batch batch results t = record {
  claimed = t.claimed + length batch;
  published = t.published + count is_published results;
  failed = t.failed + count is_failed results;
  dead_lettered = t.dead_lettered + count is_dead_lettered results;
}

abbrev pub empty_summary : PublishSummary
empty_summary = record { claimed = 0; published = 0; failed = 0; dead_lettered = 0 }

module _ {S : Type 0} (p : EventPublisher) (r : OutboxRepository S) where
  -- `_deliver`, after what the transport answered at an instant.
  unfoldable pub settle_answer : ℕ → OutboxClaim → S → Answer → Result (Outcome × S)
  settle_answer now claim s (Answer.delivered message_id) = do
    after ← r.mark_published s claim p.owner_id message_id now
    ok (Outcome.was_published, after)
  settle_answer now claim s (Answer.raised error) =
      if leb p.maximum_attempts claim.outbox.attempts
      then (do
        after ← r.mark_dead_letter s claim p.owner_id error now
        ok (Outcome.was_dead_lettered, after))
      else (do
        after ←
            r.mark_failed s claim p.owner_id error
              (now + backoff p.retry_base p.retry_max claim.outbox.attempts)
        ok (Outcome.was_failed, after))

  -- `_deliver`, as the delivery with number `n`.
  unfoldable pub deliver_claim : ℕ → OutboxClaim → S → Result (Outcome × S)
  deliver_claim n claim s = settle_answer (p.clock n) claim s (p.transport n claim.outbox.event)

  -- The deliveries of a batch, from the one with number `n` on.
  unfoldable pub deliver_batch : ℕ → List OutboxClaim → S → Result (List Outcome × S)
  deliver_batch n [] s = ok ([], s)
  deliver_batch n (claim ∷ claims) s = do
    done ← deliver_claim n claim s
    rest ← deliver_batch (n + 1) claims done.1
    ok (done.0 ∷ rest.0, rest.1)

  -- The `while` loop of `drain`, with fuel: `none` is where it runs out. `polls` are the instants at
  -- which it claims.
  unfoldable pub drain_loop :
      ℕ → (ℕ → ℕ) → ℕ → PublishSummary → S → Result (Option (PublishSummary × S))
  drain_loop zero polls max_events t s = ok none
  drain_loop (suc fuel) polls max_events t s =
      let rest = drain_loop fuel polls max_events in
      if ltb t.claimed max_events
      then (do
        batch ←
            r.claim s p.owner_id (polls t.claimed) p.lease_duration
              (min p.batch_size (max_events - t.claimed))
        if is_empty batch.0 then ok (some (t, batch.1)) else (do
          done ← deliver_batch t.claimed batch.0 batch.1
          rest (add_batch batch.0 done.0 t) done.1))
      else ok (some (t, s))

  -- `drain`; each round of the loop but the last claims an event, so that the fuel is enough.
  unfoldable pub drain : (ℕ → ℕ) → ℕ → S → Result (Option (PublishSummary × S))
  drain polls max_events s = do
    reject_if (ltb max_events 1) value_error
    drain_loop (max_events + 1) polls max_events empty_summary s
