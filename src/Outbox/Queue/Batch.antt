-- ===== src/Outbox/Queue/Batch.antt =====
-- `claim` of server/core/storage/outbox.py succeeds on what the query streams, and the owner holds
-- every event that it returns.
use uumi.Prelude.{
  All, Bool, Bool-cases, List, String, [], ap, arith, contains, eq_iff, false, if◌then◌else◌, inl,
  inr, nat_eq, none, option_eq, refl, some, string_eq, subst, subst₂, sym, true, ℕ, ◌+◌, ◌==◌, ◌∙◌,
  ◌∷◌, ◌≡◌, ◌≢◌,
}
use uumi.Contracts.{OutboxEvent}
use uumi.Errors.{Result, ok}
use uumi.Store.{Table, found, get-put, get-put_self, put}
use uumi.Outbox.{
  Cursor, Delivery, OutboxClaim, claim_event, claim_one, claimable, claimed_event, deliver,
  next_revision,
}
use uumi.Outbox.Order.{Deliveries, start_delivery, then_deliver, then_fail}
use uumi.Outbox.Queue.{Claims, Documents, add_claim, claim, claim_each, claim_next, window}
use uumi.Outbox.Queue.Window.{window-All}
use uumi.Outbox.Queue.Claimed.{Held, OneOfEachRun, ShowsStored, run_of}

-- What a call of the loop gives.
pub record Batch (owner : String) (seen : List String) (s : Delivery) (call : Result Claims)
    : Type 0 where
  pub claims : List OutboxClaim
  pub after : Delivery
  pub returns : call ≡ ok (claims, after)
  pub held : All (Held after owner) claims
  pub apart : OneOfEachRun claims
  pub fresh : All (λ c. contains seen (run_of c) ≡ false) claims
  pub keeps_seen :
      (o i : String) (e : OutboxEvent)
      → s.outbox o i ≡ some e
      → contains seen e.event.run_id ≡ true
      → after.outbox o i ≡ some e
  pub keeps_events : (c : OutboxClaim) → ShowsStored s c → ShowsStored after c
  pub same_cursors : after.cursors ≡ s.cursors
  pub moves : Deliveries s after

empty-Batch : (owner : String) (seen : List String) (s : Delivery) → Batch owner seen s (ok ([], s))
empty-Batch owner seen s = record {
  claims = [];
  after = s;
  returns = refl;
  held = tt;
  apart = tt;
  fresh = tt;
  keeps_seen = λ o i e at old. at;
  keeps_events = λ c shown. shown;
  same_cursors = refl;
  moves = start_delivery;
}

pub Deliveries-trans : {a b c : Delivery} → Deliveries a b → Deliveries b c → Deliveries a c
Deliveries-trans w start_delivery = w
Deliveries-trans w (then_deliver op v h) = then_deliver op (Deliveries-trans w v) h
Deliveries-trans w (then_fail op e v h) = then_fail op e (Deliveries-trans w v) h

-- A write that claims an event keeps the events of the documents.
claimed-ShowsStored :
    (s : Delivery) (o i : String) (e e' : OutboxEvent) (c : OutboxClaim)
    → s.outbox o i ≡ some e
    → e'.event ≡ e.event
    → ShowsStored s c
    → ShowsStored (record s { outbox = put s.outbox o i e' }) c
claimed-ShowsStored s o i e e' c at same (d, there, shows) =
    elim (get-put s.outbox o i e' c.organisation_id c.event_id) [
      | inl (eo, ei, now) ↦
          let old = subst₂ (λ a b. s.outbox a b ≡ some e) eo ei at in
          let is : e ≡ d = ground arith in
          (e', now, same ∙ ap (λ (v : OutboxEvent). v.event) is ∙ shows)
      | inr (other, kept) ↦ (d, kept ∙ there, shows)
    ]

-- It leaves the documents of the runs that it is not about.
claimed_elsewhere :
    (s : Delivery) (o i : String) (e e' : OutboxEvent) (seen : List String)
    → s.outbox o i ≡ some e
    → contains seen e.event.run_id ≡ false
    → (o' i' : String) (d : OutboxEvent) → s.outbox o' i' ≡ some d
    → contains seen d.event.run_id ≡ true
    → put s.outbox o i e' o' i' ≡ some d
claimed_elsewhere s o i e e' seen at new o' i' d there old = elim (get-put s.outbox o i e' o' i') [
  | inl (eo, ei, now) ↦
      let same_place = subst₂ (λ a b. s.outbox a b ≡ some e) eo ei at in
      let is : e ≡ d = ground arith in
      let both = ap (λ (v : OutboxEvent). contains seen v.event.run_id) is in cc
  | inr (other, kept) ↦ kept ∙ there
]

Held-kept :
    (s s' : Delivery) (owner : String) (c : OutboxClaim)
    → s'.outbox c.organisation_id c.event_id ≡ some c.outbox
    → s'.cursors ≡ s.cursors
    → Held s owner c
    → Held s' owner c
Held-kept s s' owner c at same h = record {
  at_path = at;
  leased = h.leased;
  unsettled = h.unsettled;
  due =
      subst
        (λ (t : Table Cursor).
          next_revision (t c.outbox.event.organisation_id c.outbox.event.run_id)
          ≡ c.outbox.event.revision)
        (sym same) h.due;
}

contains_head : (run : String) (seen : List String) → contains (run ∷ seen) run ≡ true
contains_head run seen = ground (arith, eq_iff run run)

not_head :
    (run : String) (seen : List String) (other : String)
    → contains (run ∷ seen) other ≡ false
    → (other ≢ run) × (contains seen other ≡ false)
not_head run seen other h =
    (λ e. ground (arith, e, eq_iff other run), ground (arith, eq_iff other run))

All-Held :
    (s s' : Delivery) (owner : String) (claims : List OutboxClaim)
    → All (λ c. s'.outbox c.organisation_id c.event_id ≡ some c.outbox) claims
    → s'.cursors ≡ s.cursors
    → All (Held s owner) claims
    → All (Held s' owner) claims
All-Held s s' owner [] at same h = tt
All-Held s s' owner (c ∷ cs) (at, ats) same (h, hs) =
    (Held-kept s s' owner c at same h, All-Held s s' owner cs ats same hs)

All-fresh :
    (run : String) (seen : List String) (claims : List OutboxClaim)
    → All (λ c. contains (run ∷ seen) (run_of c) ≡ false) claims
    → All (λ c. run_of c ≢ run) claims × All (λ c. contains seen (run_of c) ≡ false) claims
All-fresh run seen [] h = (tt, tt)
All-fresh run seen (c ∷ cs) (h, hs) =
    let (differs, new) = not_head run seen (run_of c) h in
    let (rest_differ, rest_new) = All-fresh run seen cs hs in
    ((differs, rest_differ), (new, rest_new))

All-shown :
    (s s' : Delivery) (candidates : List OutboxClaim)
    → ((c : OutboxClaim) → ShowsStored s c → ShowsStored s' c)
    → All (ShowsStored s) candidates
    → All (ShowsStored s') candidates
All-shown s s' [] keeps h = tt
All-shown s s' (c ∷ cs) keeps (h, hs) = (keeps c h, All-shown s s' cs keeps hs)

module _ (owner : String) (now duration : ℕ) where
  abbrev claim_of : String → String → OutboxEvent → OutboxClaim
  claim_of o i e = record {
    organisation_id = o;
    event_id = i;
    outbox = claimed_event e owner now duration;
  }

  abbrev claimed_at : Delivery → String → String → OutboxEvent → Delivery
  claimed_at s o i e = record s { outbox = put s.outbox o i (claimed_event e owner now duration) }

  claim_one_can :
      (s : Delivery) (o i : String) (e : OutboxEvent)
      → s.outbox o i ≡ some e
      → claimable s e now ≡ true
      → claim_one s o i owner now duration ≡ ok (some (claim_of o i e), claimed_at s o i e)
  unfolding claim_one found
  claim_one_can s o i e at can = rw (at, can) refl

  pub claim_one_cannot :
      (s : Delivery) (o i : String) (e : OutboxEvent)
      → s.outbox o i ≡ some e
      → claimable s e now ≡ false
      → claim_one s o i owner now duration ≡ ok (none, s)
  unfolding claim_one found
  claim_one_cannot s o i e at cannot = rw (at, cannot) refl

  claim-moves :
      (s : Delivery) (o i : String) (e : OutboxEvent)
      → s.outbox o i ≡ some e
      → claimable s e now ≡ true
      → Deliveries s (claimed_at s o i e)
  unfolding deliver
  claim-moves s o i e at can =
      then_deliver (claim_event o i owner now duration) start_delivery
        (rw (claim_one_can s o i e at can) refl)

  -- The owner holds the event once it is claimed.
  claimed-Held :
      (s : Delivery) (o i : String) (e : OutboxEvent)
      → claimable s e now ≡ true
      → Held (claimed_at s o i e) owner (claim_of o i e)
  unfolding claimed_event claimable
  claimed-Held s o i e can = record {
    at_path = get-put_self s.outbox o i (claimed_event e owner now duration);
    leased = refl;
    unsettled = ground (arith, can);
    due = ground (arith, can);
  }

  -- A claim that is given, and the claims after it.
  add-Batch :
      (seen : List String) (s : Delivery) (o i : String) (e : OutboxEvent) (rest : Result Claims)
      → s.outbox o i ≡ some e
      → claimable s e now ≡ true
      → contains seen e.event.run_id ≡ false
      → Batch owner (e.event.run_id ∷ seen) (claimed_at s o i e) rest
      → Batch owner seen s (add_claim (claim_of o i e) rest)
  unfolding add_claim claimed_event
  add-Batch seen s o i e rest at can new b =
      let (differ, fresh) = All-fresh e.event.run_id seen b.claims b.fresh in
      let h = claimed-Held s o i e can in
      record {
        claims = claim_of o i e ∷ b.claims;
        after = b.after;
        returns = rw b.returns refl;
        held = (
          Held-kept (claimed_at s o i e) b.after owner (claim_of o i e)
              (b.keeps_seen o i _ h.at_path (contains_head e.event.run_id seen)) b.same_cursors h,
          b.held,
        );
        apart = (differ, b.apart);
        fresh = (new, fresh);
        keeps_seen = λ o' i' d at' old.
            b.keeps_seen o' i' d (claimed_elsewhere s o i e _ seen at new o' i' d at' old)
              (ground (arith, old));
        keeps_events = λ k shown. b.keeps_events k (claimed-ShowsStored s o i e _ k at refl shown);
        same_cursors = b.same_cursors;
        moves = Deliveries-trans (claim-moves s o i e at can) b.moves;
      }

  -- A batch that is full, or one to which the rest of the candidates add.
  or_full-Batch :
      (full : Bool) (seen : List String) (s : Delivery) (rest : Result Claims)
      → Batch owner seen s rest
      → Batch owner seen s (if full then ok ([], s) else rest)
  or_full-Batch true seen s rest b = empty-Batch owner seen s
  or_full-Batch false seen s rest b = b

  claim_each-Batch :
      (limit : ℕ) (candidates : List OutboxClaim) (seen : List String) (n : ℕ) (s : Delivery)
      → All (ShowsStored s) candidates
      → Batch owner seen s (claim_each owner now duration limit candidates seen n s)
  unfolding claim_each claim_next claimed_event
  claim_each-Batch limit [] seen n s shown = empty-Batch owner seen s
  claim_each-Batch limit (c ∷ cs) seen n s ((e, at, shows), shown) =
      let o = c.organisation_id in
      let i = c.event_id in
      elim (Bool-cases (contains seen c.outbox.event.run_id)) [
        | inl old ↦ rw old (claim_each-Batch limit cs seen n s shown)
        | inr unseen ↦ elim (Bool-cases (claimable s e now)) [
          | inr cannot ↦
              rw (unseen, claim_one_cannot s o i e at cannot)
                (or_full-Batch (n == limit) seen s _ (claim_each-Batch limit cs seen n s shown))
          | inl can ↦
              let new : contains seen e.event.run_id ≡ false = rw shows unseen in
              rw (unseen, claim_one_can s o i e at can)
                (add-Batch seen s o i e _ at can new (
                  or_full-Batch (n + 1 == limit) (e.event.run_id ∷ seen) (claimed_at s o i e) _ (
                    claim_each-Batch limit cs (e.event.run_id ∷ seen) (n + 1) (claimed_at s o i e) (
                      All-shown s (claimed_at s o i e) cs
                        (λ k. claimed-ShowsStored s o i e _ k at refl) shown))))
        ]
      ]

-- When every document of the collection group is shown as it is stored, a claim succeeds: the owner
-- holds each event that it returns, each is the next one of its run, no two are of one run, and the
-- store has been led there by claims.
pub claim-Batch :
    (documents : Documents) (s : Delivery) (owner : String) (now duration limit : ℕ)
    → All (ShowsStored s) (documents s)
    → Batch owner [] s (claim documents s owner now duration limit)
unfolding claim
claim-Batch documents s owner now duration limit shown =
    claim_each-Batch owner now duration limit (window (documents s) now limit) [] 0 s
      (window-All (ShowsStored s) (documents s) now limit shown)
