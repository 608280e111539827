-- ===== src/Outbox/Queue/Window.antt =====
-- What the query of `claim` in server/core/storage/outbox.py streams of the documents.
use uumi.Outbox.{OutboxClaim}
use uumi.Outbox.Queue.{insert_available, order_by_available, queried, query_limit, window}
use uumi.Prelude.{
  All, Bool, Bool-cases, List, [], absurd, arith, false, if◌then◌else◌, inl, inr, leb, ltb, refl,
  select, suc, take, true, zero, ℕ, ◌+◌, ◌<◌, ◌∷◌, ◌≡◌, ◌≤◌,
}

take-All : {A : Type 0} (P : A → Type 0) (n : ℕ) (xs : List A) → All P xs → All P (take n xs)
take-All P zero xs h = tt
take-All P (suc n) [] h = tt
take-All P (suc n) (x ∷ xs) (px, h) = (px, take-All P n xs h)

-- What is selected has what passing the test gives.
select-All :
    {A : Type 0} (P : A → Type 0) (test : A → Bool) (xs : List A)
    → All (λ x. test x ≡ true → P x) xs
    → All P (select test xs)
select-All P test [] h = tt
select-All P test (x ∷ xs) (px, h) = elim (Bool-cases (test x)) [
  | inl passes ↦ rw passes (px passes, select-All P test xs h)
  | inr fails ↦ rw fails (select-All P test xs h)
]

pub map-All :
    {A : Type 0} (P Q : A → Type 0) (xs : List A) → ((x : A) → P x → Q x) → All P xs → All Q xs
map-All P Q [] each h = tt
map-All P Q (x ∷ xs) each (px, h) = (each x px, map-All P Q xs each h)

insert_available-All :
    (P : OutboxClaim → Type 0) (c : OutboxClaim) (ds : List OutboxClaim)
    → P c
    → All P ds
    → All P (insert_available c ds)
unfolding insert_available
insert_available-All P c [] pc h = (pc, tt)
insert_available-All P c (d ∷ ds) pc (pd, h) =
    elim (Bool-cases (leb c.outbox.available_at d.outbox.available_at)) [
      | inl first ↦ rw first (pc, (pd, h))
      | inr later ↦ rw later (pd, insert_available-All P c ds pc h)
    ]

order_by_available-All :
    (P : OutboxClaim → Type 0) (ds : List OutboxClaim) → All P ds → All P (order_by_available ds)
unfolding order_by_available
order_by_available-All P [] h = tt
order_by_available-All P (d ∷ ds) (pd, h) =
    insert_available-All P d (order_by_available ds) pd (order_by_available-All P ds h)

-- The window shows documents of the collection group that pass the filter.
pub window-filtered :
    (P : OutboxClaim → Type 0) (documents : List OutboxClaim) (now limit : ℕ)
    → All (λ (c : OutboxClaim). queried c.outbox now ≡ true → P c) documents
    → All P (window documents now limit)
unfolding window
window-filtered P documents now limit h = take-All P (query_limit limit) _ (
    order_by_available-All P _
      (select-All P (λ (c : OutboxClaim). queried c.outbox now) documents h))

pub window-All :
    (P : OutboxClaim → Type 0) (documents : List OutboxClaim) (now limit : ℕ)
    → All P documents
    → All P (window documents now limit)
window-All P documents now limit h =
    window-filtered P documents now limit (map-All P _ documents (λ c shown passes. shown) h)

abbrev pub available : OutboxClaim → ℕ
available c = c.outbox.available_at

-- Available in this order.
abbrev IsOrdered : List OutboxClaim → Type 0
IsOrdered [] = Unit {0}
IsOrdered (c ∷ cs) = All (λ d. available c ≤ available d) cs × IsOrdered cs

insert_available-IsOrdered :
    (c : OutboxClaim) (ds : List OutboxClaim) → IsOrdered ds → IsOrdered (insert_available c ds)
unfolding insert_available
insert_available-IsOrdered c [] h = (tt, tt)
insert_available-IsOrdered c (d ∷ ds) (below, h) =
    elim (Bool-cases (leb (available c) (available d))) [
      | inl first ↦
          let before : available c ≤ available d = ground (arith, first) in
          rw first
            ((before, map-All _ _ ds (λ e after. omega (arith, before, after)) below), (below, h))
      | inr later ↦
          let before : available d ≤ available c = ground (arith, later) in
          rw later (
            insert_available-All (λ e. available d ≤ available e) c ds before below,
            insert_available-IsOrdered c ds h,
          )
    ]

order_by_available-IsOrdered : (ds : List OutboxClaim) → IsOrdered (order_by_available ds)
unfolding order_by_available
order_by_available-IsOrdered [] = tt
order_by_available-IsOrdered (d ∷ ds) =
    insert_available-IsOrdered d (order_by_available ds) (order_by_available-IsOrdered ds)

-- How many of them are available before an instant.
abbrev pub earlier : ℕ → List OutboxClaim → ℕ
earlier t [] = 0
earlier t (c ∷ cs) = (if ltb (available c) t then 1 else 0) + earlier t cs

earlier-insert_available :
    (t : ℕ) (c : OutboxClaim) (ds : List OutboxClaim)
    → earlier t (insert_available c ds) ≡ earlier t (c ∷ ds)
unfolding insert_available
earlier-insert_available t c [] = refl
earlier-insert_available t c (d ∷ ds) = elim (Bool-cases (leb (available c) (available d))) [
  | inl first ↦ rw first refl
  | inr later ↦ let same = earlier-insert_available t c ds in rw later (omega (arith, same))
]

earlier-order_by_available :
    (t : ℕ) (ds : List OutboxClaim) → earlier t (order_by_available ds) ≡ earlier t ds
unfolding order_by_available
earlier-order_by_available t [] = refl
earlier-order_by_available t (d ∷ ds) =
    let first = earlier-insert_available t d (order_by_available ds) in
    let rest = earlier-order_by_available t ds in omega (arith, first, rest)

none_earlier :
    (t : ℕ) (c : OutboxClaim) (ds : List OutboxClaim)
    → t ≤ available c
    → All (λ d. available c ≤ available d) ds
    → earlier t ds ≡ 0
none_earlier t c [] late h = refl
none_earlier t c (d ∷ ds) late (pd, h) =
    let rest = none_earlier t c ds late h in
    let no : ltb (available d) t ≡ false = ground (arith, late, pd) in rw no (omega (arith, rest))

-- The first documents are available before an instant, when there are as many of those.
take-earlier :
    (t n : ℕ) (ds : List OutboxClaim)
    → IsOrdered ds
    → n ≤ earlier t ds
    → All (λ d. available d < t) (take n ds)
take-earlier t zero ds h enough = tt
take-earlier t (suc n) [] h enough = tt
take-earlier t (suc n) (d ∷ ds) (below, h) enough = elim (Bool-cases (ltb (available d) t)) [
  | inl early ↦
      let soon : available d < t = ground (arith, early) in
      (soon, take-earlier t n ds h (let e = rw early at enough in omega (arith, e)))
  | inr late ↦
      let not_soon : t ≤ available d = ground (arith, late) in
      let zero_left = none_earlier t d ds not_soon below in
      let e = rw late at enough in absurd (omega (arith, e, zero_left))
]

-- The documents of a window are available before an instant, when as many of those pass the filter.
pub window-earlier :
    (documents : List OutboxClaim) (now limit t : ℕ)
    → query_limit limit ≤ earlier t (select (λ (c : OutboxClaim). queried c.outbox now) documents)
    → All (λ d. available d < t) (window documents now limit)
unfolding window
window-earlier documents now limit t enough =
    let passing = select (λ (c : OutboxClaim). queried c.outbox now) documents in
    let same = earlier-order_by_available t passing in
    take-earlier t (query_limit limit) (order_by_available passing)
      (order_by_available-IsOrdered passing) (omega (arith, same, enough))
