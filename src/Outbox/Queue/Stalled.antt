-- ===== src/Outbox/Queue/Stalled.antt =====
-- The events that were given up, in the query of server/core/storage/outbox.py.
use uumi.Prelude.{
  All, Bool, Bool-cases, List, String, [], arith, false, inl, inr, is_none, is_some, leb, length,
  ltb, nat_eq, option_eq, refl, select, some, string_eq, true, ℕ, ◌&&◌, ◌<◌, ◌==◌, ◌∷◌, ◌≡◌, ◌≤◌,
}
use uumi.Contracts.{OutboxEvent}
use uumi.Errors.{ok}
use uumi.Outbox.{Delivery, OutboxClaim, claimable}
use uumi.Outbox.Queue.{Documents, claim, claim_each, claim_next, queried, query_limit, window}
use uumi.Outbox.Queue.Window.{available, earlier, map-All, window-earlier, window-filtered}
use uumi.Outbox.Queue.Batch.{claim_one_cannot}

-- The document is stored as it is shown, and it is dead-lettered.
abbrev pub IsGivenUp : Delivery → OutboxClaim → Type 0
IsGivenUp s c =
    (s.outbox c.organisation_id c.event_id ≡ some c.outbox)
    × (is_some c.outbox.dead_lettered_at ≡ true)

-- An event that was given up, and that came before an instant.
abbrev pub is_backlog : ℕ → ℕ → OutboxClaim → Bool
is_backlog now t c =
    is_some c.outbox.dead_lettered_at
    && is_none c.outbox.published_at
    && leb (available c) now
    && ltb (available c) t

given_up-not_claimable :
    (s : Delivery) (e : OutboxEvent) (now : ℕ)
    → is_some e.dead_lettered_at ≡ true
    → claimable s e now ≡ false
unfolding claimable
given_up-not_claimable s e now dead = ground (arith, dead)

module _ (owner : String) (now duration limit : ℕ) (s : Delivery) where
  claim_each_given_up :
      (candidates : List OutboxClaim)
      → All (IsGivenUp s) candidates
      → claim_each owner now duration limit candidates [] 0 s ≡ ok ([], s)
  unfolding claim_each claim_next
  claim_each_given_up [] h = refl
  claim_each_given_up (c ∷ cs) ((at, dead), h) =
      let skipped =
        claim_one_cannot owner now duration s c.organisation_id c.event_id c.outbox at
          (given_up-not_claimable s c.outbox now dead) in
      rw skipped (elim (Bool-cases (0 == limit)) [
        | inl full ↦ rw full refl
        | inr more ↦ rw more (claim_each_given_up cs h)
      ])

-- The filter of the query lets the events through that were given up.
backlog_passes :
    (now t : ℕ) (documents : List OutboxClaim)
    → length (select (is_backlog now t) documents)
      ≤ earlier t (select (λ (c : OutboxClaim). queried c.outbox now) documents)
backlog_passes now t [] = ground arith
backlog_passes now t (c ∷ cs) =
    let rest = backlog_passes now t cs in
    elim (Bool-cases (is_backlog now t c)) [
      | inl given ↦
          let passes : queried c.outbox now ≡ true = unfold queried in ground (arith, given) in
          let early : ltb (available c) t ≡ true = ground (arith, given) in
          rw (given, passes, early) (omega (arith, rest))
      | inr other ↦ elim (Bool-cases (queried c.outbox now)) [
        | inl passes ↦ rw (other, passes) (omega (arith, rest))
        | inr fails ↦ rw (other, fails) rest
      ]
    ]

queried_unpublished :
    (e : OutboxEvent) (now : ℕ) → queried e now ≡ true → is_none e.published_at ≡ true
unfolding queried
queried_unpublished e now passes = ground arith

zip-All :
    {P Q R : OutboxClaim → Type 0} (xs : List OutboxClaim)
    → ((c : OutboxClaim) → P c → Q c → R c)
    → All P xs
    → All Q xs
    → All R xs
zip-All [] each h k = tt
zip-All (x ∷ xs) each (px, h) (qx, k) = (each x px qx, zip-All xs each h k)

-- Once as many events were given up as the query may read, and these came before every other event
-- that waits, no claim finds anything, at whatever instant after that and whatever other events are
-- due: the filter does not leave out what was given up, and the order puts it first.
pub given_up_stall :
    (documents : Documents) (s : Delivery) (owner : String) (now duration limit t : ℕ)
    → query_limit limit ≤ length (select (is_backlog now t) (documents s))
    → All
        (λ (c : OutboxClaim).
          is_none c.outbox.published_at ≡ true → available c < t → IsGivenUp s c)
        (documents s)
    → claim documents s owner now duration limit ≡ ok ([], s)
unfolding claim
given_up_stall documents s owner now duration limit t many first =
    let passing = backlog_passes now t (documents s) in
    let early = window-earlier (documents s) now limit t (omega (arith, many, passing)) in
    let given =
      window-filtered (λ c. available c < t → IsGivenUp s c) (documents s) now limit
        (map-All _ _ (documents s)
          (λ c h passes soon. h (queried_unpublished c.outbox now passes) soon) first) in
    claim_each_given_up owner now duration limit s (window (documents s) now limit)
      (zip-All (window (documents s) now limit) (λ c soon up. up soon) early given)
