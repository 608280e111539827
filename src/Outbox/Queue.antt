-- ===== src/Outbox/Queue.antt =====
-- `FirestoreOutboxRepository.claim` of server/core/storage/outbox.py: the events that a publisher
-- takes from the outbox, at most one of each run. The documents of the collection group are an
-- argument; the query filters, orders and limits them.
pub mod Claimed
pub mod Batch
pub mod Settle
pub mod Window
pub mod Stalled
use uumi.Prelude.{
  Bool, List, Option, String, [], contains, if◌then◌else◌, is_none, leb, max, min, nat_eq, none,
  select, some, string_eq, take, ℕ, ◌&&◌, ◌*◌, ◌+◌, ◌==◌, ◌∷◌,
}
use uumi.Errors.{Result, ok, ◌>>=◌}
use uumi.Outbox.{Delivery, OutboxClaim, claim_one}
use uumi.Contracts.{OutboxEvent}

-- The filter of the query.
unfoldable pub queried : OutboxEvent → ℕ → Bool
queried e now = is_none e.published_at && leb e.available_at now

-- The number of documents that the query reads.
unfoldable pub query_limit : ℕ → ℕ
query_limit limit = min (max (limit * 8) 64) 500

abbrev pub Claims : Type 0
Claims = List OutboxClaim × Delivery

-- One more claim.
unfoldable pub add_claim : OutboxClaim → Result Claims → Result Claims
add_claim claim claims = do rest ← claims; ok (claim ∷ rest.0, rest.1)

-- What comes after `_claim_one`: the claim, if there is one, joins the others and its run is seen; a
-- full batch ends the loop.
unfoldable pub claim_next :
    ℕ
    → (List String → ℕ → Delivery → Result Claims)
    → List String
    → ℕ
    → Option OutboxClaim × Delivery
    → Result Claims
claim_next limit rest seen n (none, s) = if n == limit then ok ([], s) else rest seen n s
claim_next limit rest seen n (some claim, s) =
    add_claim claim
      (if n + 1 == limit then ok ([], s) else rest (claim.outbox.event.run_id ∷ seen) (n + 1) s)

module _ (owner : String) (now lease_duration limit : ℕ) where
  -- The loop over the snapshots, with the runs that have a claim and the number of claims.
  unfoldable pub claim_each : List OutboxClaim → List String → ℕ → Delivery → Result Claims
  claim_each [] seen n s = ok ([], s)
  claim_each (candidate ∷ candidates) seen n s =
      let rest = claim_each candidates in
      if contains seen candidate.outbox.event.run_id
      then rest seen n s
      else (claim_one s candidate.organisation_id candidate.event_id owner now lease_duration
          >>= claim_next limit rest seen n)

-- The documents of the collection group `outbox`, with their paths, in the order of the paths.
abbrev pub Documents : Type 0
Documents = Delivery → List OutboxClaim

-- `order_by("available_at")`: of the documents that are available at one instant, the order stays.
unfoldable pub insert_available : OutboxClaim → List OutboxClaim → List OutboxClaim
insert_available c [] = c ∷ []
insert_available c (d ∷ ds) =
    let rest = insert_available c ds in
    if leb c.outbox.available_at d.outbox.available_at then c ∷ d ∷ ds else d ∷ rest

unfoldable pub order_by_available : List OutboxClaim → List OutboxClaim
order_by_available [] = []
order_by_available (c ∷ cs) = insert_available c (order_by_available cs)

-- What the query streams.
unfoldable pub window : List OutboxClaim → ℕ → ℕ → List OutboxClaim
window documents now limit =
    take (query_limit limit)
      (order_by_available (select (λ (c : OutboxClaim). queried c.outbox now) documents))

-- `claim`
unfoldable pub claim : Documents → Delivery → String → ℕ → ℕ → ℕ → Result Claims
claim documents s owner now lease_duration limit =
    claim_each owner now lease_duration limit (window (documents s) now limit) [] 0 s
