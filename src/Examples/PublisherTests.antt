-- ===== src/Examples/PublisherTests.antt =====
-- The theorems on server/core/events/publish.py and on `claim` of server/core/storage/outbox.py at an
-- outbox of two events.
use uumi.Prelude.{
  All, List, Option, String, [], absurd, arith, concat, if◌then◌else◌, is_none, nat_eq, none,
  option_eq, refl, some, string_eq, suc, true, zero, ℕ, ◌++◌, ◌+◌, ◌<◌, ◌==◌, ◌∷◌, ◌≡◌,
}
use uumi.Contracts.{OutboxEvent, stage_eq, status_eq}
use uumi.Errors.{Result, ok}
use uumi.Store.{found, put}
use uumi.Outbox.{
  Delivery, OutboxClaim, backoff, claim_one, claimable, claimed_event, failed_event, mark_failed,
  mark_published, published_event, settle_event,
}
use uumi.Outbox.Queue.{
  Documents, add_claim, claim, claim_each, claim_next, insert_available, order_by_available,
  queried, query_limit, window,
}
use uumi.Outbox.Queue.Claimed.{ShowsStored}
use uumi.Outbox.Queue.Window.{available}
use uumi.Outbox.Queue.Stalled.{IsGivenUp, given_up_stall}
use uumi.Publisher.{
  Answer, EventPublisher, PublishSummary, add_batch, check_publisher, count, deliver_batch,
  deliver_claim, drain, drain_loop, settle_answer,
}
use uumi.Publisher.Drain.{Ends, drain-Ends}
use uumi.Publisher.Firestore.{ShowsDocuments, firestore_outbox, firestore_outbox-KeepsLimit}
use uumi.Publisher.Complete.{Drained, drain-Drained}
use uumi.Examples.Data.{event_at}

abbrev publisher : EventPublisher
publisher = record {
  transport = λ n e. if n == 0 then Answer.delivered "message_1" else Answer.raised "timeout";
  clock = λ n. 10 + n;
  owner_id = "publisher_1";
  lease_duration = 60;
  batch_size = 20;
  retry_base = 5;
  retry_max = 900;
  maximum_attempts = 10;
}

abbrev event_path : String → OutboxEvent → OutboxClaim
event_path id e = record { organisation_id = "org_1"; event_id = id; outbox = e }

-- The snapshot of a document, where it is there.
abbrev snapshot : String → Option OutboxEvent → List OutboxClaim
snapshot id none = []
snapshot id (some e) = event_path id e ∷ []

-- The two documents.
abbrev both_events : Documents
both_events s =
    snapshot "event_0" (s.outbox "org_1" "event_0")
    ++ (snapshot "event_1" (s.outbox "org_1" "event_1") ++ [])

snapshot_shown :
    (s : Delivery) (id : String) (d : Option OutboxEvent) (rest : List OutboxClaim)
    → s.outbox "org_1" id ≡ d
    → All (ShowsStored s) rest
    → All (ShowsStored s) (snapshot id d ++ rest)
snapshot_shown s id none rest at h = h
snapshot_shown s id (some e) rest at h = ((e, at, refl), h)

both_events-ShowsDocuments : ShowsDocuments both_events
both_events-ShowsDocuments s =
    snapshot_shown s "event_0" (s.outbox "org_1" "event_0") _ refl
      (snapshot_shown s "event_1" (s.outbox "org_1" "event_1") [] refl tt)

abbrev outbox_of : OutboxEvent → OutboxEvent → Delivery
outbox_of e d = record {
  outbox = put (put (λ o i. none) "org_1" "event_0" e) "org_1" "event_1" d;
  cursors = λ o r. none;
}

abbrev waiting : Delivery
waiting = outbox_of (event_at "event_0" 0) (event_at "event_1" 1)

publisher_checked : check_publisher publisher ≡ ok tt
unfolding check_publisher
publisher_checked = refl

drain-Ends_example :
    Ends publisher
      (firestore_outbox both_events)
      (λ n. 5)
      3
      (drain publisher (firestore_outbox both_events) (λ n. 5) 3 waiting)
drain-Ends_example =
    drain-Ends publisher (firestore_outbox both_events) (λ n. 5) 3 waiting publisher_checked
      (firestore_outbox-KeepsLimit both_events)

drain-Drained_example : Drained publisher both_events (λ n. 5) 3 waiting
drain-Drained_example =
    drain-Drained publisher both_events (λ n. 5) 3 waiting publisher_checked (omega arith)
      both_events-ShowsDocuments

abbrev summary_of : Result (Option (PublishSummary × Delivery)) → Option PublishSummary
summary_of (ok (some done)) = some done.0
summary_of _ = none

-- What that drain counts: the first event is published; the second follows it and is put off.
drained_summary :
    summary_of (drain publisher (firestore_outbox both_events) (λ n. 5) 3 waiting)
    ≡ some (record { claimed = 2; published = 1; failed = 1; dead_lettered = 0 })
unfolding drain drain_loop firestore_outbox claim window query_limit order_by_available
    insert_available queried claim_each claim_next add_claim claim_one found put claimable
    claimed_event deliver_batch deliver_claim settle_answer count add_batch mark_published
    mark_failed settle_event published_event failed_event backoff
drained_summary = refl

abbrev given_up : OutboxEvent
given_up = record (event_at "event_0" 0) {
  dead_lettered_at = some 3;
  dead_letter_reason = some "timeout";
  last_error = some "timeout";
}

abbrev unary : ℕ → String
unary zero = "event_"
unary (suc n) = concat (unary n) "1"

-- An outbox whose organisation `org_1` has only events that were given up.
abbrev stalled : Delivery
stalled = record {
  outbox = λ o i.
      some (if o == "org_1" then given_up else record (event_at "event_1" 1) { available_at = 4 });
  cursors = λ o r. none;
}

abbrev backlog : ℕ → List OutboxClaim
backlog zero =
    record {
      organisation_id = "org_2";
      event_id = "event_1";
      outbox = record (event_at "event_1" 1) { available_at = 4 };
    }
    ∷ []
backlog (suc n) = event_path (unary n) given_up ∷ backlog n

backlog_first :
    (n : ℕ)
    → All
        (λ (c : OutboxClaim).
          is_none c.outbox.published_at ≡ true → available c < 3 → IsGivenUp stalled c)
        (backlog n)
backlog_first zero = (λ open_event early. absurd (omega (arith, early)), tt)
backlog_first (suc n) = (λ open_event early. (refl, refl), backlog_first n)

given_up_stall_example : claim (λ s. backlog 64) stalled "publisher_1" 5 60 1 ≡ ok ([], stalled)
unfolding query_limit
given_up_stall_example =
    given_up_stall (λ s. backlog 64) stalled "publisher_1" 5 60 1 3 (ground arith)
      (backlog_first 64)
