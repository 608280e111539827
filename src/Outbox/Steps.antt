-- ===== src/Outbox/Steps.antt =====
-- What a transaction of server/core/storage/outbox.py does, as one of three steps.
use uumi.Prelude.{
  Bool, Bool-cases, Option, String, arith, false, inl, inr, is_some, nat_eq, option_eq, refl, some,
  string_eq, subst, true, ℕ, ◌||◌, ◌≡◌,
}
use uumi.Contracts.{OutboxEvent, is_valid_outbox}
use uumi.Errors.{
  >>=-eq-ok, Result, err, map_ok, ok, outbox_lease, reject_if-eq-ok, storage_integrity,
}
use uumi.Store.{found, found-ok, put}
use uumi.Outbox.{
  Delivery, DeliveryOp, OutboxClaim, bury_event, claim_event, claim_one, claimable, claimed_event,
  cursor_of, dead_event, deliver, fail_event, failed_event, mark_dead_letter, mark_failed,
  mark_published, next_revision, publish_event, published_event, settle_event,
}

-- The event is published or dead-lettered.
abbrev pub is_settled : OutboxEvent → Bool
is_settled e = is_some e.published_at || is_some e.dead_lettered_at

pub data DeliveryStep (s s' : Delivery) : Type 0 where
  unchanged : s' ≡ s → DeliveryStep s s'
  -- The lease, the attempts or the delay of an event that is not settled change.
  touched :
      (o i : String) (e e' : OutboxEvent)
      → s.outbox o i ≡ some e
      → e'.event ≡ e.event
      → is_settled e ≡ false
      → is_settled e' ≡ false
      → (is_valid_outbox e ≡ true → is_valid_outbox e' ≡ true)
      → s' ≡ record s { outbox = put s.outbox o i e' }
      → DeliveryStep s s'
  -- The next event of a run is settled, and the cursor of the run moves to it.
  settled_next :
      (o i : String) (e e' : OutboxEvent)
      → s.outbox o i ≡ some e
      → e'.event ≡ e.event
      → is_settled e ≡ false
      → is_settled e' ≡ true
      → next_revision (cursor_of s e) ≡ e.event.revision
      → (is_valid_outbox e ≡ true → is_valid_outbox e' ≡ true)
      → s' ≡ settle_event s o i e'
      → DeliveryStep s s'

claimed_event-valid :
    (e : OutboxEvent) (owner : String) (now duration : ℕ)
    → is_settled e ≡ false
    → is_valid_outbox e ≡ true
    → is_valid_outbox (claimed_event e owner now duration) ≡ true
unfolding claimed_event is_valid_outbox
claimed_event-valid e owner now duration free valid = ground arith

published_event-valid :
    (e : OutboxEvent) (message : String) (at_time : ℕ)
    → is_settled e ≡ false
    → is_valid_outbox e ≡ true
    → is_valid_outbox (published_event e message at_time) ≡ true
unfolding published_event is_valid_outbox
published_event-valid e message at_time free valid = ground arith

dead_event-valid :
    (e : OutboxEvent) (error : String) (at_time : ℕ)
    → is_settled e ≡ false
    → is_valid_outbox e ≡ true
    → is_valid_outbox (dead_event e error at_time) ≡ true
unfolding dead_event is_valid_outbox
dead_event-valid e error at_time free valid = ground arith

failed_event-valid :
    (e : OutboxEvent) (error : String) (at_time : ℕ)
    → is_settled e ≡ false
    → is_valid_outbox e ≡ true
    → is_valid_outbox (failed_event e error at_time) ≡ true
unfolding failed_event is_valid_outbox
failed_event-valid e error at_time free valid = ground arith

claimable_unsettled :
    (s : Delivery) (e : OutboxEvent) (now : ℕ) → claimable s e now ≡ true → is_settled e ≡ false
unfolding claimable
claimable_unsettled s e now h = ground arith

pair_of_ok :
    {a b : Option OutboxClaim} {x y : Delivery}
    → ◌≡◌ {A = Result (Option OutboxClaim × Delivery)} (ok (a, x)) (ok (b, y))
    → y ≡ x
pair_of_ok h = ground arith

pub map_ok-eq-ok :
    (r : Result (Option OutboxClaim × Delivery)) {s : Delivery}
    → map_ok (λ p. p.1) r ≡ ok s
    → (p : Option OutboxClaim × Delivery) × ((r ≡ ok p) × (p.1 ≡ s))
map_ok-eq-ok (ok p) h = (p, (refl, ground arith))
map_ok-eq-ok (err e) h = cc

claim-step :
    (s s' : Delivery) (o i owner : String) (now duration : ℕ) {c : Option OutboxClaim}
    → claim_one s o i owner now duration ≡ ok (c, s')
    → DeliveryStep s s'
unfolding claim_one claimed_event
claim-step s s' o i owner now duration {c} h =
    let (e, g, h') = >>=-eq-ok (found (s.outbox o i) storage_integrity) _ h in
    let at = found-ok (s.outbox o i) storage_integrity g in
    elim (Bool-cases (claimable s e now)) [
      | inl can ↦
          let free = claimable_unsettled s e now can in
          touched o i e (claimed_event e owner now duration) at refl free free
            (claimed_event-valid e owner now duration free) (pair_of_ok (rw can at h'))
      | inr cannot ↦ unchanged (pair_of_ok (rw cannot at h'))
    ]

publish-step :
    (s s' : Delivery) (claim : OutboxClaim) (owner message_id : String) (at_time : ℕ)
    → mark_published s claim owner message_id at_time ≡ ok s'
    → DeliveryStep s s'
unfolding mark_published published_event
publish-step s s' claim owner message_id at_time h =
    let (e, g, h0) =
      >>=-eq-ok (found (s.outbox claim.organisation_id claim.event_id) storage_integrity) _ h in
    let at = found-ok (s.outbox claim.organisation_id claim.event_id) storage_integrity g in
    let (alive, h1) = reject_if-eq-ok (is_some e.dead_lettered_at) outbox_lease _ h0 in
    elim (Bool-cases (is_some e.published_at)) [
      | inl done ↦ unchanged (ground arith)
      | inr open_event ↦
          let free : is_settled e ≡ false = ground arith in
          let due : next_revision (cursor_of s e) ≡ e.event.revision = ground arith in
          settled_next claim.organisation_id claim.event_id e (published_event e message_id at_time)
            at refl free refl due (published_event-valid e message_id at_time free) (ground arith)
    ]

bury-step :
    (s s' : Delivery) (claim : OutboxClaim) (owner error : String) (at_time : ℕ)
    → mark_dead_letter s claim owner error at_time ≡ ok s'
    → DeliveryStep s s'
unfolding mark_dead_letter dead_event
bury-step s s' claim owner error at_time h =
    let (e, g, h0) =
      >>=-eq-ok (found (s.outbox claim.organisation_id claim.event_id) storage_integrity) _ h in
    let at = found-ok (s.outbox claim.organisation_id claim.event_id) storage_integrity g in
    elim (Bool-cases (is_some e.dead_lettered_at)) [
      | inl done ↦ unchanged (ground arith)
      | inr open_event ↦
          let free : is_settled e ≡ false = ground arith in
          let due : next_revision (cursor_of s e) ≡ e.event.revision = ground arith in
          settled_next claim.organisation_id claim.event_id e (dead_event e error at_time) at refl
            free (ground arith) due (dead_event-valid e error at_time free) (ground arith)
    ]

fail-step :
    (s s' : Delivery) (claim : OutboxClaim) (owner error : String) (at_time : ℕ)
    → mark_failed s claim owner error at_time ≡ ok s'
    → DeliveryStep s s'
unfolding mark_failed failed_event
fail-step s s' claim owner error at_time h =
    let (e, g, h0) =
      >>=-eq-ok (found (s.outbox claim.organisation_id claim.event_id) storage_integrity) _ h in
    let at = found-ok (s.outbox claim.organisation_id claim.event_id) storage_integrity g in
    elim (Bool-cases (is_settled e)) [
      | inl done ↦ unchanged (ground arith)
      | inr free ↦
          touched claim.organisation_id claim.event_id e (failed_event e error at_time) at refl free
            free (failed_event-valid e error at_time free) (ground arith)
    ]

-- Every transaction that succeeds is one of the three steps.
pub deliver-step : (s s' : Delivery) (op : DeliveryOp) → deliver s op ≡ ok s' → DeliveryStep s s'
unfolding deliver
deliver-step s s' (claim_event o i owner now duration) h =
    let (p, e) = map_ok-eq-ok (claim_one s o i owner now duration) h in
    claim-step s s' o i owner now duration {c = p.0}
      (subst (λ x. claim_one s o i owner now duration ≡ ok (p.0, x)) e.1 e.0)
deliver-step s s' (publish_event claim owner message at) h =
    publish-step s s' claim owner message at h
deliver-step s s' (bury_event claim owner error at) h = bury-step s s' claim owner error at h
deliver-step s s' (fail_event claim owner error at) h = fail-step s s' claim owner error at h
