-- ===== src/Outbox/Queue/Claimed.antt =====
-- What `claim` of server/core/storage/outbox.py hands out: not too much, and only what its owner then
-- holds.
use uumi.Prelude.{
  All, Bool-cases, List, Option, String, [], arith, contains, false, inl, inr, length, nat_eq, none,
  option_eq, some, string_eq, subst, ℕ, ◌+◌, ◌<◌, ◌==◌, ◌∷◌, ◌≡◌, ◌≢◌, ◌≤◌,
}
use uumi.Contracts.{OutboxEvent}
use uumi.Errors.{>>=-eq-ok, Result, ok, ok-injective}
use uumi.Outbox.{Delivery, OutboxClaim, claim_one, cursor_of, next_revision}
use uumi.Outbox.Steps.{is_settled}
use uumi.Outbox.Queue.{Claims, Documents, add_claim, claim, claim_each, claim_next, window}

-- The claim of an event that the owner holds and that is the next one of its run.
pub record Held (s : Delivery) (owner : String) (c : OutboxClaim) : Type 0 where
  pub at_path : s.outbox c.organisation_id c.event_id ≡ some c.outbox
  pub leased : c.outbox.lease_owner ≡ some owner
  pub unsettled : is_settled c.outbox ≡ false
  pub due : next_revision (cursor_of s c.outbox) ≡ c.outbox.event.revision

-- The document of a snapshot is there, with the event that the snapshot shows.
abbrev pub ShowsStored : Delivery → OutboxClaim → Type 0
ShowsStored s c =
    (e : OutboxEvent) × (s.outbox c.organisation_id c.event_id ≡ some e)
    × (e.event ≡ c.outbox.event)

abbrev pub run_of : OutboxClaim → String
run_of c = c.outbox.event.run_id

-- The claims are of different runs.
abbrev pub OneOfEachRun : List OutboxClaim → Type 0
OneOfEachRun [] = Unit
OneOfEachRun (c ∷ cs) = All (λ d. run_of d ≢ run_of c) cs × OneOfEachRun cs

-- The loop stops at the limit.
claim_next-length :
    (limit : ℕ) (rest : List String → ℕ → Delivery → Result Claims) (seen : List String) (n : ℕ)
    (x : Option OutboxClaim × Delivery) {claims : Claims}
    → n < limit
    → ((seen' : List String) (m : ℕ) (s : Delivery) (found_claims : Claims)
        → m < limit
        → rest seen' m s ≡ ok found_claims
        → m + length found_claims.0 ≤ limit)
    → claim_next limit rest seen n x ≡ ok claims
    → n + length claims.0 ≤ limit
unfolding claim_next add_claim
claim_next-length limit rest seen n (none, s) below ih h = elim (Bool-cases (n == limit)) [
  | inl full ↦ subst (λ c. n + length c.0 ≤ limit) (ok-injective (rw full at h)) (omega arith)
  | inr more ↦ ih seen n s _ below (rw more at h)
]
claim_next-length limit rest seen n (some claim, s) below ih h =
    elim (Bool-cases (n + 1 == limit)) [
      | inl full ↦ subst (λ c. n + length c.0 ≤ limit) (ok-injective (rw full at h)) (omega arith)
      | inr more ↦
          let differs : ¬ (n + 1 ≡ limit) = λ e. cc ((nat_eq.equals_iff (n + 1) limit).1 e, more) in
          let (claims, found_rest, returned) =
            >>=-eq-ok (rest (run_of claim ∷ seen) (n + 1) s) _ (rw more at h) in
          let within =
            ih (run_of claim ∷ seen) (n + 1) s claims (ground (arith, differs)) found_rest in
          subst (λ c. n + length c.0 ≤ limit) (ok-injective returned) (omega arith)
    ]

claim_each-length :
    (owner : String) (now duration limit : ℕ) (candidates : List OutboxClaim) (seen : List String)
    (n : ℕ) (s : Delivery) (claims : Claims)
    → n < limit
    → claim_each owner now duration limit candidates seen n s ≡ ok claims
    → n + length claims.0 ≤ limit
unfolding claim_each
claim_each-length owner now duration limit [] seen n s claims below h =
    subst (λ c. n + length c.0 ≤ limit) (ok-injective h) (omega arith)
claim_each-length owner now duration limit (c ∷ cs) seen n s claims below h =
    elim (Bool-cases (contains seen c.outbox.event.run_id)) [
      | inl old ↦ claim_each-length owner now duration limit cs seen n s claims below (rw old at h)
      | inr new ↦
          let (claimed, _, h1) =
            >>=-eq-ok (claim_one s c.organisation_id c.event_id owner now duration) _
              (rw new at h) in
          claim_next-length limit (claim_each owner now duration limit cs) seen n claimed below
            (claim_each-length owner now duration limit cs) h1
    ]

pub claim-length :
    (documents : Documents) (s : Delivery) (owner : String) (now duration limit : ℕ)
    (batch : List OutboxClaim) (s' : Delivery)
    → 1 ≤ limit
    → claim documents s owner now duration limit ≡ ok (batch, s')
    → length batch ≤ limit
unfolding claim
claim-length documents s owner now duration limit batch s' positive h =
    let within =
      claim_each-length owner now duration limit (window (documents s) now limit) [] 0 s (batch, s')
        positive h in
    omega arith
