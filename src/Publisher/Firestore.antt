-- ===== src/Publisher/Firestore.antt =====
-- The repository of server/core/storage/outbox.py as the publisher's, and the delivery of one claim by
-- server/core/events/publish.py.
use uumi.Outbox.Queue.Settle.{mark_dead_letter-Held, mark_failed-Held, mark_published-Held}
use uumi.Prelude.{
  All, Bool-cases, String, absurd, ap, arith, inl, inr, leb, nat_eq, option_eq, refl, some,
  string_eq, subst, subst₂, sym, ℕ, ◌+◌, ◌∙◌, ◌≡◌, ◌≢◌,
}
use uumi.Contracts.{OutboxEvent, RunEvent}
use uumi.Errors.{Result, ok}
use uumi.Store.{get-put, put, put_other}
use uumi.Outbox.{
  Delivery, DeliveryOp, OutboxClaim, backoff, bury_event, dead_event, deliver, fail_event,
  failed_event, mark_dead_letter, mark_failed, mark_published, next_revision, publish_event,
  published_event, settle_event,
}
use uumi.Outbox.Order.{Deliveries, start_delivery, then_deliver}
use uumi.Outbox.Queue.{Documents, claim}
use uumi.Outbox.Queue.Claimed.{Held, ShowsStored, claim-length, run_of}
use uumi.Publisher.{Answer, EventPublisher, OutboxRepository, Outcome, deliver_claim, settle_answer}
use uumi.Publisher.Drain.{KeepsLimit}

-- `FirestoreOutboxRepository`, as the publisher's repository.
unfoldable pub firestore_outbox : Documents → OutboxRepository Delivery
firestore_outbox documents = record {
  claim = λ s owner now duration limit. claim documents s owner now duration limit;
  mark_published = mark_published;
  mark_failed = mark_failed;
  mark_dead_letter = mark_dead_letter;
}

pub firestore_outbox-KeepsLimit : (documents : Documents) → KeepsLimit (firestore_outbox documents)
unfolding firestore_outbox
firestore_outbox-KeepsLimit documents s owner now duration limit batch s' positive h =
    claim-length documents s owner now duration limit batch s' positive h

-- The collection group shows stored documents.
abbrev pub ShowsDocuments : Documents → Type 0
ShowsDocuments documents = (s : Delivery) → All (ShowsStored s) (documents s)

-- What the delivery of a claim gives.
pub record DeliveredClaim (p : EventPublisher) (s : Delivery) (c : OutboxClaim)
    (call : Result (Outcome × Delivery)) : Type 0 where
  pub outcome : Outcome
  pub after : Delivery
  pub returns : call ≡ ok (outcome, after)
  pub keeps_others :
      (d : OutboxClaim) → run_of d ≢ run_of c → Held s p.owner_id d → Held after p.owner_id d
  pub moves : Deliveries s after

-- A write to the document of a claim, or to the cursor of its run, leaves the claims of other runs.
module _ (s : Delivery) (owner : String) (c d : OutboxClaim) (e' : OutboxEvent)
    (other : run_of d ≢ run_of c) (hc : Held s owner c) (hd : Held s owner d) where
  other_place : ¬ ((c.organisation_id ≡ d.organisation_id) × (c.event_id ≡ d.event_id))
  other_place (eo, ei) =
      let mine = subst₂ (λ a b. s.outbox a b ≡ some c.outbox) eo ei hc.at_path in
      let there = hd.at_path in
      let same : c.outbox ≡ d.outbox = ground arith in
      other (sym (ap (λ (v : OutboxEvent). v.event.run_id) same))

  other_document :
      put s.outbox c.organisation_id c.event_id e' d.organisation_id d.event_id ≡ some d.outbox
  other_document =
      elim (get-put s.outbox c.organisation_id c.event_id e' d.organisation_id d.event_id) [
        | inl (eo, ei, now) ↦ absurd (other_place (eo, ei))
        | inr (_, kept) ↦ kept ∙ hd.at_path
      ]

  pub released-Held :
      Held (record s { outbox = put s.outbox c.organisation_id c.event_id e' }) owner d
  released-Held = record {
    at_path = other_document;
    leased = hd.leased;
    unsettled = hd.unsettled;
    due = hd.due;
  }

  pub settled-Held :
      e'.event ≡ c.outbox.event → Held (settle_event s c.organisation_id c.event_id e') owner d
  unfolding settle_event
  settled-Held same = record {
    at_path = other_document;
    leased = hd.leased;
    unsettled = hd.unsettled;
    due =
        let run = ap (λ (v : RunEvent). v.run_id) same in
        subst (λ x. next_revision x ≡ d.outbox.event.revision)
          (sym (
            put_other s.cursors e'.event.organisation_id e'.event.run_id _
              d.outbox.event.organisation_id d.outbox.event.run_id (λ e. other (e ∙ run))))
          hd.due;
  }

module _ (p : EventPublisher) (documents : Documents) where
  -- The claims of other runs stay held when the claim is settled.
  settled_claim :
      (s : Delivery) (c : OutboxClaim) (outcome : Outcome) (op : DeliveryOp) (e' : OutboxEvent)
      (call : Result (Outcome × Delivery))
      → Held s p.owner_id c
      → e'.event ≡ c.outbox.event
      → deliver s op ≡ ok (settle_event s c.organisation_id c.event_id e')
      → call ≡ ok (outcome, settle_event s c.organisation_id c.event_id e')
      → DeliveredClaim p s c call
  settled_claim s c outcome op e' call h same moved returned = record {
    outcome = outcome;
    after = settle_event s c.organisation_id c.event_id e';
    returns = returned;
    keeps_others = λ d other hd. settled-Held s p.owner_id c d e' other h hd same;
    moves = then_deliver op start_delivery moved;
  }

  answer-Delivered :
      (n : ℕ) (c : OutboxClaim) (s : Delivery) (a : Answer)
      → Held s p.owner_id c
      → DeliveredClaim p s c (settle_answer p (firestore_outbox documents) (p.clock n) c s a)
  unfolding settle_answer firestore_outbox
  answer-Delivered n c s (Answer.delivered message_id) h =
      let marked = mark_published-Held s p.owner_id c h message_id (p.clock n) in
      settled_claim s c Outcome.was_published (publish_event c p.owner_id message_id (p.clock n))
        (published_event c.outbox message_id (p.clock n)) _ h (unfold published_event in refl)
        (unfold deliver in marked) (rw marked refl)
  answer-Delivered n c s (Answer.raised error) h =
      elim (Bool-cases (leb p.maximum_attempts c.outbox.attempts)) [
        | inl last ↦
            let marked = mark_dead_letter-Held s p.owner_id c h error (p.clock n) in
            settled_claim s c Outcome.was_dead_lettered (bury_event c p.owner_id error (p.clock n))
              (dead_event c.outbox error (p.clock n)) _ h (unfold dead_event in refl)
              (unfold deliver in marked) (rw (last, marked) refl)
        | inr again ↦
            let retry = p.clock n + backoff p.retry_base p.retry_max c.outbox.attempts in
            let released : Delivery = record s {
              outbox =
                  put s.outbox c.organisation_id c.event_id (failed_event c.outbox error retry);
            } in
            let marked = mark_failed-Held s p.owner_id c h error retry in
            record {
              outcome = Outcome.was_failed;
              after = released;
              returns = rw (again, marked) refl;
              keeps_others = λ d other hd. released-Held s p.owner_id c d _ other h hd;
              moves =
                  then_deliver {s'' = released} (fail_event c p.owner_id error retry) start_delivery
                    (unfold deliver in marked);
            }
      ]

  -- The holder of a claim settles it, or gives it back, whatever the transport answers.
  pub deliver_claim-Delivered :
      (n : ℕ) (c : OutboxClaim) (s : Delivery)
      → Held s p.owner_id c
      → DeliveredClaim p s c (deliver_claim p (firestore_outbox documents) n c s)
  unfolding deliver_claim
  deliver_claim-Delivered n c s h = answer-Delivered n c s (p.transport n c.outbox.event) h
