-- ===== src/Outbox/Exclusive.antt =====
-- The lease of an outbox event (server/core/storage/outbox.py) through the transactions of other
-- publishers.
use uumi.Outbox.Steps.{map_ok-eq-ok}
use uumi.Prelude.{
  Bool, Bool-cases, Option, String, absurd, ap, arith, false, inl, inr, is_some, nat_eq, none,
  option_beq_iff, option_eq, refl, some, string_eq, subst, subst₂, sym, true, ℕ, ◌+◌, ◌<◌, ◌||◌,
  ◌∙◌, ◌≡◌, ◌⊎◌,
}
use uumi.Contracts.{OutboxEvent}
use uumi.Errors.{
  >>=-eq-ok, Error, err, ok, ok-injective, outbox_lease, reject_if-eq-ok, require-eq-ok,
  storage_integrity,
}
use uumi.Store.{Table, found, found-ok, get-put, get-put_self, put}
use uumi.Outbox.{
  Delivery, DeliveryOp, OutboxClaim, bury_event, bury_next, claim_event, claim_one, claimable,
  claimed_event, dead_event, deliver, fail_event, failed_event, mark_dead_letter, mark_failed,
  mark_published, owned, publish_event, publish_next, published_event, release, settle_event,
}

-- The document of the event, leased to the owner.
abbrev LeasedTo : String → String → String → ℕ → Delivery → Type 0
LeasedTo o i owner expiry s =
    (e : OutboxEvent) × (s.outbox o i ≡ some e)
    × (e.lease_owner ≡ some owner)
    × (e.lease_expires_at ≡ some expiry)

-- The call is none by which the owner settles the event or gives it back, and a claim comes before
-- the lease expires.
abbrev pub Spares : String → String → String → ℕ → DeliveryOp → Type 0
Spares o i owner expiry (claim_event o' i' other now duration) = now < expiry
Spares o i owner expiry (publish_event c other message at_time) =
    ¬ ((other ≡ owner) × (c.organisation_id ≡ o) × (c.event_id ≡ i))
Spares o i owner expiry (bury_event c other error at_time) =
    ¬ ((other ≡ owner) × (c.organisation_id ≡ o) × (c.event_id ≡ i))
Spares o i owner expiry (fail_event c other error at_time) =
    ¬ ((other ≡ owner) × (c.organisation_id ≡ o) × (c.event_id ≡ i))

-- Such calls in any order, those that fail included.
pub data Meanwhile (o i owner : String) (expiry : ℕ) (s : Delivery) : Delivery → Type 0 where
  nothing_yet : Meanwhile o i owner expiry s s
  then_spared :
      {s' s'' : Delivery}
      → Meanwhile o i owner expiry s s'
      → (op : DeliveryOp) → Spares o i owner expiry op
      → deliver s' op ≡ ok s''
      → Meanwhile o i owner expiry s s''
  then_raised :
      {s' : Delivery}
      → Meanwhile o i owner expiry s s'
      → (op : DeliveryOp) (e : Error) → deliver s' op ≡ err e
      → Meanwhile o i owner expiry s s'

-- What a transaction writes to a document: nothing, or a document that it may write.
abbrev Writes : Delivery → Delivery → String → String → (OutboxEvent → Bool) → Type 0
Writes s s' o i may =
    (s' ≡ s)
    ⊎ (e : OutboxEvent) × (e' : OutboxEvent) × (s.outbox o i ≡ some e)
      × (may e ≡ true)
      × (s'.outbox ≡ put s.outbox o i e')

publish-Writes :
    (s s' : Delivery) (c : OutboxClaim) (owner message : String) (at_time : ℕ)
    → mark_published s c owner message at_time ≡ ok s'
    → Writes s s' c.organisation_id c.event_id (λ e. owned e owner)
unfolding mark_published publish_next settle_event
publish-Writes s s' c owner message at_time h =
    let (e, g, h0) =
      >>=-eq-ok (found (s.outbox c.organisation_id c.event_id) storage_integrity) _ h in
    let stored_it = found-ok (s.outbox c.organisation_id c.event_id) storage_integrity g in
    let (_, h1) = reject_if-eq-ok (is_some e.dead_lettered_at) outbox_lease _ h0 in
    elim (Bool-cases (is_some e.published_at)) [
      | inl done ↦ inl (ground arith)
      | inr open_event ↦
          let (own, h2) = require-eq-ok (owned e owner) outbox_lease _ (rw open_event at h1) in
          let (_, h3) = require-eq-ok _ outbox_lease _ h2 in
          let same = ok-injective h3 in
          inr (
            e,
            published_event e message at_time,
            stored_it,
            own,
            ap (λ (v : Delivery). v.outbox) (sym same),
          )
    ]

bury-Writes :
    (s s' : Delivery) (c : OutboxClaim) (owner error : String) (at_time : ℕ)
    → mark_dead_letter s c owner error at_time ≡ ok s'
    → Writes s s' c.organisation_id c.event_id (λ e. owned e owner)
unfolding mark_dead_letter bury_next settle_event
bury-Writes s s' c owner error at_time h =
    let (e, g, h0) =
      >>=-eq-ok (found (s.outbox c.organisation_id c.event_id) storage_integrity) _ h in
    let stored_it = found-ok (s.outbox c.organisation_id c.event_id) storage_integrity g in
    elim (Bool-cases (is_some e.dead_lettered_at)) [
      | inl done ↦ inl (ground arith)
      | inr open_event ↦
          let (_, h1) =
            reject_if-eq-ok (is_some e.published_at) outbox_lease _ (rw open_event at h0) in
          let (own, h2) = require-eq-ok (owned e owner) outbox_lease _ h1 in
          let (_, h3) = require-eq-ok _ outbox_lease _ h2 in
          let same = ok-injective h3 in
          inr (
            e,
            dead_event e error at_time,
            stored_it,
            own,
            ap (λ (v : Delivery). v.outbox) (sym same),
          )
    ]

fail-Writes :
    (s s' : Delivery) (c : OutboxClaim) (owner error : String) (at_time : ℕ)
    → mark_failed s c owner error at_time ≡ ok s'
    → Writes s s' c.organisation_id c.event_id (λ e. owned e owner)
unfolding mark_failed release
fail-Writes s s' c owner error at_time h =
    let (e, g, h0) =
      >>=-eq-ok (found (s.outbox c.organisation_id c.event_id) storage_integrity) _ h in
    let stored_it = found-ok (s.outbox c.organisation_id c.event_id) storage_integrity g in
    elim (Bool-cases (is_some e.published_at || is_some e.dead_lettered_at)) [
      | inl done ↦ inl (ok-injective (sym (rw done at h0)))
      | inr open_event ↦
          let (own, h1) = require-eq-ok (owned e owner) outbox_lease _ (rw open_event at h0) in
          let same = ok-injective h1 in
          inr (
            e,
            failed_event e error at_time,
            stored_it,
            own,
            ap (λ (v : Delivery). v.outbox) (sym same),
          )
    ]

claim-Writes :
    (s s' : Delivery) (o i owner : String) (now duration : ℕ) {c : Option OutboxClaim}
    → claim_one s o i owner now duration ≡ ok (c, s')
    → Writes s s' o i (λ e. claimable s e now)
unfolding claim_one
claim-Writes s s' o i owner now duration {c} h =
    let (e, g, h0) = >>=-eq-ok (found (s.outbox o i) storage_integrity) _ h in
    let stored_it = found-ok (s.outbox o i) storage_integrity g in
    elim (Bool-cases (claimable s e now)) [
      | inr cannot ↦
          inl
            (ap (λ (v : Option OutboxClaim × Delivery). v.1) (sym (ok-injective (rw cannot at h0))))
      | inl can ↦
          let same = ok-injective (rw can at h0) in
          inr (
            e,
            claimed_event e owner now duration,
            stored_it,
            can,
            ap (λ (v : Option OutboxClaim × Delivery). v.1.outbox) (sym same),
          )
    ]

-- A write that may not touch the leased document leaves it.
Writes-LeasedTo :
    (s s' : Delivery) (o i owner : String) (expiry : ℕ) (o' i' : String) (may : OutboxEvent → Bool)
    → ((e : OutboxEvent)
        → (o' ≡ o) × (i' ≡ i)
        → e.lease_owner ≡ some owner
        → e.lease_expires_at ≡ some expiry
        → may e ≡ false)
    → Writes s s' o' i' may
    → LeasedTo o i owner expiry s
    → LeasedTo o i owner expiry s'
Writes-LeasedTo s s' o i owner expiry o' i' may spared (inl same) leased =
    subst (LeasedTo o i owner expiry) (sym same) leased
Writes-LeasedTo s s' o i owner expiry o' i' may spared (inr (d, d', at, allowed, after))
      (e, there, own, lasts) =
    elim (get-put s.outbox o' i' d' o i) [
      | inl (eo, ei, now) ↦
          let here_it_is = subst₂ (λ a b. s.outbox a b ≡ some d) eo ei at in
          let same : d ≡ e = ground arith in
          let spared_it = spared e (eo, ei) own lasts in
          let yes_it_may = subst (λ v. may v ≡ true) same allowed in
          let bad = sym yes_it_may ∙ spared_it in cc
      | inr (_, kept) ↦ (e, ap (λ (t : Table OutboxEvent). t o i) after ∙ kept ∙ there, own, lasts)
    ]

leased-not_claimable :
    (s : Delivery) (e : OutboxEvent) (expiry now : ℕ)
    → e.lease_expires_at ≡ some expiry
    → now < expiry
    → claimable s e now ≡ false
unfolding claimable
leased-not_claimable s e expiry now lasts early = ground arith

leased-not_owned :
    (e : OutboxEvent) (owner other : String)
    → e.lease_owner ≡ some owner
    → ¬ (other ≡ owner)
    → owned e other ≡ false
leased-not_owned e owner other own apart = elim (Bool-cases (owned e other)) [
  | inr disowned ↦ disowned
  | inl owns ↦
      let both = (option_beq_iff e.lease_owner (some other)).0 owns in
      absurd (apart (ground (arith, both, own)))
]

spared-LeasedTo :
    (s s' : Delivery) (o i owner : String) (expiry : ℕ) (op : DeliveryOp)
    → Spares o i owner expiry op
    → deliver s op ≡ ok s'
    → LeasedTo o i owner expiry s
    → LeasedTo o i owner expiry s'
unfolding deliver
spared-LeasedTo s s' o i owner expiry (claim_event o' i' other now duration) early h leased =
    let (done, (returned, same)) = map_ok-eq-ok (claim_one s o' i' other now duration) h in
    let writes =
      claim-Writes s s' o' i' other now duration {c = done.0}
        (subst (λ x. claim_one s o' i' other now duration ≡ ok (done.0, x)) same returned) in
    Writes-LeasedTo s s' o i owner expiry o' i' (λ e. claimable s e now)
      (λ e at own lasts. leased-not_claimable s e expiry now lasts early) writes leased
spared-LeasedTo s s' o i owner expiry (publish_event c other message at_time) apart h leased =
    Writes-LeasedTo s s' o i owner expiry c.organisation_id c.event_id (λ e. owned e other)
      (λ e at own lasts. leased-not_owned e owner other own (λ same. apart (same, at.0, at.1)))
      (publish-Writes s s' c other message at_time h) leased
spared-LeasedTo s s' o i owner expiry (bury_event c other error at_time) apart h leased =
    Writes-LeasedTo s s' o i owner expiry c.organisation_id c.event_id (λ e. owned e other)
      (λ e at own lasts. leased-not_owned e owner other own (λ same. apart (same, at.0, at.1)))
      (bury-Writes s s' c other error at_time h) leased
spared-LeasedTo s s' o i owner expiry (fail_event c other error at_time) apart h leased =
    Writes-LeasedTo s s' o i owner expiry c.organisation_id c.event_id (λ e. owned e other)
      (λ e at own lasts. leased-not_owned e owner other own (λ same. apart (same, at.0, at.1)))
      (fail-Writes s s' c other error at_time h) leased

Meanwhile-LeasedTo :
    (o i owner : String) (expiry : ℕ) {s s' : Delivery}
    → Meanwhile o i owner expiry s s'
    → LeasedTo o i owner expiry s
    → LeasedTo o i owner expiry s'
Meanwhile-LeasedTo o i owner expiry nothing_yet leased = leased
Meanwhile-LeasedTo o i owner expiry (then_spared {s'} {s''} w op spares h) leased =
    spared-LeasedTo s' s'' o i owner expiry op spares h
      (Meanwhile-LeasedTo o i owner expiry w leased)
Meanwhile-LeasedTo o i owner expiry (then_raised w op e h) leased =
    Meanwhile-LeasedTo o i owner expiry w leased

claim_given :
    (s s' : Delivery) (o i owner : String) (now duration : ℕ) (c : OutboxClaim)
    → claim_one s o i owner now duration ≡ ok (some c, s')
    → LeasedTo o i owner (now + duration) s'
unfolding claim_one
claim_given s s' o i owner now duration c h =
    let (e, g, h0) = >>=-eq-ok (found (s.outbox o i) storage_integrity) _ h in
    elim (Bool-cases (claimable s e now)) [
      | inr cannot ↦
          let same =
            ap (λ (v : Option OutboxClaim × Delivery). v.0) (ok-injective (rw cannot at h0)) in
          cc
      | inl can ↦
          let same =
            ap (λ (v : Option OutboxClaim × Delivery). v.1.outbox) (ok-injective (rw can at h0)) in
          let d = claimed_event e owner now duration in
          let there =
            subst (λ (t : Table OutboxEvent). t o i ≡ some d) same (get-put_self s.outbox o i d) in
          (d, there, unfold claimed_event in refl, unfold claimed_event in refl)
    ]

-- Once a publisher has claimed an event, and whatever transactions of any publishers come in
-- between, as long as the publisher neither settles the event nor gives it back: until its lease
-- expires, every claim of the event finds nothing and writes nothing.
pub claim_exclusive :
    (s s' t : Delivery) (o i owner other : String) (now duration later duration' : ℕ)
    (c : OutboxClaim)
    → claim_one s o i owner now duration ≡ ok (some c, s')
    → Meanwhile o i owner (now + duration) s' t
    → later < now + duration
    → claim_one t o i other later duration' ≡ ok (none, t)
unfolding claim_one found
claim_exclusive s s' t o i owner other now duration later duration' c h between early =
    let given = claim_given s s' o i owner now duration c h in
    let (e, there, own, lasts) = Meanwhile-LeasedTo o i owner (now + duration) between given in
    let cannot = leased-not_claimable t e (now + duration) later lasts early in
    rw (there, cannot) refl
