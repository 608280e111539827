-- ===== src/Examples/OutboxTests.antt =====
-- The theorems on server/core/storage/outbox.py and server/core/events/publish.py at two events of
-- one run.
use uumi.Outbox.Exclusive.{Meanwhile, claim_exclusive, nothing_yet, then_raised}
use uumi.Outbox.Valid.{AllDeliverable, Deliveries-AllDeliverable}
use uumi.Outbox.Claims.{backoff-grows}
use uumi.Outbox.Steps.{is_settled}
use uumi.Examples.Data.{event_at}
use uumi.Prelude.{
  String, ap, arith, false, inl, inr, ltb, nat_eq, none, option_eq, refl, some, string_eq, sym,
  true, ℕ, ◌<◌, ◌∙◌, ◌≡◌, ◌≤◌, ◌⊎◌,
}
use uumi.Outbox.Order.{Deliveries, Distinct, Marked, settled_in_order, start_delivery, then_deliver}
use uumi.Contracts.{OutboxEvent, is_valid_outbox}
use uumi.Errors.{Result, err, ok, outbox_lease}
use uumi.Store.{Table, found, get-put, put}
use uumi.Outbox.{
  Delivery, DeliveryOp, OutboxClaim, backoff, claim_event, claim_one, claimable, claimed_event,
  deliver, mark_published, publish_event, published_event, settle_event,
}

abbrev first_table : Table OutboxEvent
first_table = put (λ o i. none) "org_1" "event_0" (event_at "event_0" 0)

abbrev two_events : Delivery
two_events = record {
  outbox = put first_table "org_1" "event_1" (event_at "event_1" 1);
  cursors = λ o r. none;
}

abbrev delivered : Result Delivery → Delivery → Delivery
delivered (ok s) t = s
delivered (err e) t = t

abbrev claim_of : String → ℕ → OutboxClaim
claim_of id revision = record {
  organisation_id = "org_1";
  event_id = id;
  outbox = event_at id revision;
}

abbrev claimed_state : Delivery
claimed_state =
    delivered (deliver two_events (claim_event "org_1" "event_0" "publisher_1" 5 60)) two_events

claims : deliver two_events (claim_event "org_1" "event_0" "publisher_1" 5 60) ≡ ok claimed_state
unfolding deliver claim_one found claimable claimed_event put
claims = refl

abbrev published_state : Delivery
published_state =
    delivered
      (deliver claimed_state (publish_event (claim_of "event_0" 0) "publisher_1" "message_1" 6))
      two_events

publishes :
    deliver claimed_state (publish_event (claim_of "event_0" 0) "publisher_1" "message_1" 6)
    ≡ ok published_state
unfolding deliver claim_one found claimable claimed_event put mark_published settle_event
    published_event
publishes = refl

both_delivered : Deliveries two_events published_state
both_delivered =
    then_deliver (publish_event (claim_of "event_0" 0) "publisher_1" "message_1" 6)
      (then_deliver (claim_event "org_1" "event_0" "publisher_1" 5 60) start_delivery claims)
      publishes

-- The revision, the place and the delivery of each of the two events.
record Known (o i : String) (e : OutboxEvent) (id : String) (revision : ℕ) : Type 0 where
  place : "org_1" ≡ o
  name : id ≡ i
  number : e.event.revision ≡ revision
  unsettled : is_settled e ≡ false
  deliverable : is_valid_outbox e ≡ true

fresh_valid : (id : String) (revision : ℕ) → is_valid_outbox (event_at id revision) ≡ true
unfolding is_valid_outbox
fresh_valid id revision = refl

known :
    (o i id : String) (e : OutboxEvent) (revision : ℕ)
    → "org_1" ≡ o
    → id ≡ i
    → some (event_at id revision) ≡ some e
    → Known o i e id revision
known o i id e revision eo ei h =
    let same : e ≡ event_at id revision = ground arith in
    record {
      place = eo;
      name = ei;
      number = ap (λ (x : OutboxEvent). x.event.revision) same;
      unsettled = ap is_settled same;
      deliverable = ap is_valid_outbox same ∙ fresh_valid id revision;
    }

two_events-cases :
    (o i : String) (e : OutboxEvent)
    → two_events.outbox o i ≡ some e
    → Known o i e "event_0" 0 ⊎ Known o i e "event_1" 1
two_events-cases o i e h = elim (get-put first_table "org_1" "event_1" (event_at "event_1" 1) o i) [
  | inl (eo, ei, now) ↦ inr (known o i "event_1" e 1 eo ei (sym now ∙ h))
  | inr (other, same) ↦ elim (get-put (λ o i. none) "org_1" "event_0" (event_at "event_0" 0) o i) [
    | inl (eo, ei, now) ↦ inl (known o i "event_0" e 0 eo ei (sym now ∙ sym same ∙ h))
    | inr (other', nowhere) ↦ let bad = sym nowhere ∙ sym same ∙ h in cc
  ]
]

two_events-Distinct : Distinct two_events
two_events-Distinct o i o' i' e d he hd ho hr hv = elim (two_events-cases o i e he) [
  | inl k ↦ elim (two_events-cases o' i' d hd) [
    | inl l ↦ (sym k.place ∙ l.place, sym k.name ∙ l.name)
    | inr l ↦ let bad = sym k.number ∙ hv ∙ l.number in ground arith
  ]
  | inr k ↦ elim (two_events-cases o' i' d hd) [
    | inl l ↦ let bad = sym k.number ∙ hv ∙ l.number in ground arith
    | inr l ↦ (sym k.place ∙ l.place, sym k.name ∙ l.name)
  ]
]

nothing_below : (n : ℕ) → ltb n 0 ≡ false
nothing_below n = ground arith

two_events-Marked : Marked two_events
two_events-Marked o i e he = elim (two_events-cases o i e he) [
  | inl k ↦ k.unsettled ∙ sym (nothing_below e.event.revision)
  | inr k ↦ k.unsettled ∙ sym (nothing_below e.event.revision)
]

abbrev second_claimed : Delivery
second_claimed =
    delivered (deliver published_state (claim_event "org_1" "event_1" "publisher_1" 7 60))
      two_events

claims_second :
    deliver published_state (claim_event "org_1" "event_1" "publisher_1" 7 60) ≡ ok second_claimed
unfolding deliver claim_one found claimable claimed_event put mark_published settle_event
    published_event
claims_second = refl

abbrev all_published : Delivery
all_published =
    delivered
      (deliver second_claimed (publish_event (claim_of "event_1" 1) "publisher_1" "message_2" 8))
      two_events

publishes_second :
    deliver second_claimed (publish_event (claim_of "event_1" 1) "publisher_1" "message_2" 8)
    ≡ ok all_published
unfolding deliver claim_one found claimable claimed_event put mark_published settle_event
    published_event
publishes_second = refl

whole_delivery : Deliveries two_events all_published
whole_delivery =
    then_deliver (publish_event (claim_of "event_1" 1) "publisher_1" "message_2" 8)
      (then_deliver (claim_event "org_1" "event_1" "publisher_1" 7 60) both_delivered claims_second)
      publishes_second

abbrev first_event : OutboxEvent
first_event =
    published_event (claimed_event (event_at "event_0" 0) "publisher_1" 5 60) "message_1" 6

abbrev second_event : OutboxEvent
second_event =
    published_event (claimed_event (event_at "event_1" 1) "publisher_1" 7 60) "message_2" 8

first_stored : all_published.outbox "org_1" "event_0" ≡ some first_event
unfolding deliver claim_one found claimable claimed_event put mark_published settle_event
    published_event
first_stored = refl

second_stored : all_published.outbox "org_1" "event_1" ≡ some second_event
unfolding deliver claim_one found claimable claimed_event put mark_published settle_event
    published_event
second_stored = refl

same_organisation : second_event.event.organisation_id ≡ first_event.event.organisation_id
unfolding deliver claim_one found claimable claimed_event put mark_published settle_event
    published_event
same_organisation = refl

same_run : second_event.event.run_id ≡ first_event.event.run_id
unfolding deliver claim_one found claimable claimed_event put mark_published settle_event
    published_event
same_run = refl

earlier : first_event.event.revision < second_event.event.revision
unfolding deliver claim_one found claimable claimed_event put mark_published settle_event
    published_event
earlier = ground arith

second_settled : is_settled second_event ≡ true
unfolding deliver claim_one found claimable claimed_event put mark_published settle_event
    published_event
second_settled = refl

settled_in_order_example : is_settled first_event ≡ true
settled_in_order_example =
    settled_in_order whole_delivery two_events-Distinct two_events-Marked "org_1" "event_1" "org_1"
      "event_0" second_event first_event second_stored first_stored same_organisation same_run
      earlier second_settled

first_published : published_state.outbox "org_1" "event_0" ≡ some first_event
unfolding deliver claim_one found claimable claimed_event put mark_published settle_event
    published_event
first_published = refl

first_settled : is_settled first_event ≡ true
unfolding deliver claim_one found claimable claimed_event put mark_published settle_event
    published_event
first_settled = refl

abbrev claimed_now : OutboxClaim
claimed_now = record {
  organisation_id = "org_1";
  event_id = "event_0";
  outbox = claimed_event (event_at "event_0" 0) "publisher_1" 5 60;
}

claim_given :
    claim_one two_events "org_1" "event_0" "publisher_1" 5 60 ≡ ok (some claimed_now, claimed_state)
unfolding deliver claim_one found claimable claimed_event put mark_published settle_event
    published_event
claim_given = refl

-- Another publisher, which tries to settle the event, is refused.
abbrev stolen : DeliveryOp
stolen = publish_event claimed_now "publisher_2" "message_9" 20

stolen_raises : deliver claimed_state stolen ≡ err outbox_lease
unfolding deliver mark_published found claimed_event put claim_one claimable
stolen_raises = refl

between : Meanwhile "org_1" "event_0" "publisher_1" 65 claimed_state claimed_state
between = then_raised nothing_yet stolen outbox_lease stolen_raises

claim_exclusive_example :
    claim_one claimed_state "org_1" "event_0" "publisher_2" 30 60 ≡ ok (none, claimed_state)
claim_exclusive_example =
    claim_exclusive two_events claimed_state claimed_state "org_1" "event_0" "publisher_1"
      "publisher_2" 5 60 30 60 claimed_now claim_given between (ground arith)

backoff-grows_example : backoff 5 900 4 ≤ backoff 5 900 20
backoff-grows_example = backoff-grows 5 900 4 20 (ground arith)

two_events-AllDeliverable : AllDeliverable two_events
two_events-AllDeliverable o i e he = elim (two_events-cases o i e he) [
  | inl k ↦ k.deliverable
  | inr k ↦ k.deliverable
]

Deliveries-AllDeliverable_example : AllDeliverable all_published
Deliveries-AllDeliverable_example =
    Deliveries-AllDeliverable whole_delivery two_events-AllDeliverable
