-- ===== src/Generations/Consumers.antt =====
-- The bindings that an operation of server/core/storage/generation.py reads and writes by their
-- identifiers.
use uumi.Errors.{>>=-eq-ok, ok, ok-injective, resource_not_found}
use uumi.Store.{Table, found, found-ok, get-put, get-put_self, put}
use uumi.Generations.Switch.{some_same}
use uumi.Prelude.{
  Bool, Bool-cases, List, String, [], absurd, all, ap, arith, contains, eq_iff, inl, inr, map, refl,
  some, string_eq, subst, sym, true, ◌==◌, ◌∙◌, ◌∷◌, ◌≡◌,
}
use uumi.Generations.{ConsumerBinding, load_bindings, write_bindings}

-- Each identifier has a document, and what holds of all bindings that were read holds of it.
pub loaded-each :
    (t : Table ConsumerBinding) (o : String) (ids : List String) (bs : List ConsumerBinding)
    → load_bindings t o ids ≡ ok bs
    → (id : String) → contains ids id ≡ true
    → (b : ConsumerBinding) × (t o id ≡ some b)
      × ((test : ConsumerBinding → Bool) → all test bs ≡ true → test b ≡ true)
unfolding load_bindings
loaded-each t o [] bs h id m = cc
loaded-each t o (x ∷ xs) bs h id m =
    let (b, fb, h1) = >>=-eq-ok (found (t o x) resource_not_found) _ h in
    let (rest, loaded, h2) = >>=-eq-ok (load_bindings t o xs) _ h1 in
    let same : b ∷ rest ≡ bs = ok-injective h2 in
    elim (Bool-cases (id == x)) [
      | inl here_it_is ↦
          let e : x ≡ id = sym ((eq_iff id x).0 here_it_is) in
          (
            b,
            subst (λ v. t o v ≡ some b) e (found-ok (t o x) resource_not_found fb),
            λ test h3.
                let h4 : all test (b ∷ rest) ≡ true =
                  subst (λ v. all test v ≡ true) (sym same) h3 in
                ground (arith, h4),
          )
      | inr further ↦
          let (c, at, each) = loaded-each t o xs rest loaded id (rw further at m) in
          (
            c,
            at,
            λ test h3.
                let h4 : all test (b ∷ rest) ≡ true =
                  subst (λ v. all test v ≡ true) (sym same) h3 in
                each test (ground (arith, h4)),
          )
    ]

-- A service among those of the bindings that were read is that of a document.
pub loaded-service :
    (t : Table ConsumerBinding) (o : String) (ids : List String) (bs : List ConsumerBinding)
    → load_bindings t o ids ≡ ok bs
    → (c : String) → contains (map (λ (b : ConsumerBinding). b.service_id) bs) c ≡ true
    → (id : String) × (b : ConsumerBinding) × (contains ids id ≡ true)
      × (t o id ≡ some b)
      × (b.service_id ≡ c)
unfolding load_bindings
loaded-service t o [] bs h c m =
    let same : [] ≡ bs = ok-injective h in
    let bad =
      subst (λ v. contains (map (λ (b : ConsumerBinding). b.service_id) v) c ≡ true) (sym same) m in
    cc
loaded-service t o (x ∷ xs) bs h c m =
    let (b, fb, h1) = >>=-eq-ok (found (t o x) resource_not_found) _ h in
    let (rest, loaded, h2) = >>=-eq-ok (load_bindings t o xs) _ h1 in
    let same : b ∷ rest ≡ bs = ok-injective h2 in
    let m' =
      subst (λ v. contains (map (λ (b : ConsumerBinding). b.service_id) v) c ≡ true) (sym same) m in
    elim (Bool-cases (c == b.service_id)) [
      | inl this_one ↦
          let first : contains (x ∷ xs) x ≡ true = rw ((eq_iff x x).1 refl) refl in
          (
            x,
            b,
            first,
            found-ok (t o x) resource_not_found fb,
            sym ((eq_iff c b.service_id).0 this_one),
          )
      | inr further ↦
          let (id, d, listed, at, its) = loaded-service t o xs rest loaded c (rw further at m') in
          (id, d, ground (arith, listed), at, its)
    ]

-- The write leaves the documents that are not listed.
pub write_bindings-unlisted :
    (t : Table ConsumerBinding) (o : String) (ids : List String) (bs : List ConsumerBinding)
    (change : ConsumerBinding → ConsumerBinding) (o' id : String)
    → ¬ ((o ≡ o') × (contains ids id ≡ true))
    → write_bindings t o ids bs change o' id ≡ t o' id
unfolding write_bindings
write_bindings-unlisted t o [] bs change o' id other = refl
write_bindings-unlisted t o (x ∷ xs) [] change o' id other = refl
write_bindings-unlisted t o (x ∷ xs) (b ∷ bs) change o' id other =
    let rest =
      write_bindings-unlisted (put t o x (change b)) o xs bs change o' id
        (λ e. other (e.0, ground (arith, e.1))) in
    elim (get-put t o x (change b) o' id) [
      | inl (eo, ex, now) ↦ absurd (other (eo, rw ((eq_iff id x).1 (sym ex)) refl))
      | inr (_, kept) ↦ rest ∙ kept
    ]

-- Each listed document is written as its change.
pub write_bindings-listed :
    (t0 t : Table ConsumerBinding) (o : String) (ids : List String) (bs : List ConsumerBinding)
    (change : ConsumerBinding → ConsumerBinding)
    → load_bindings t0 o ids ≡ ok bs
    → (id : String) (b : ConsumerBinding) → contains ids id ≡ true
    → t0 o id ≡ some b
    → write_bindings t o ids bs change o id ≡ some (change b)
unfolding load_bindings write_bindings
write_bindings-listed t0 t o [] bs change h id b m at = cc
write_bindings-listed t0 t o (x ∷ xs) bs change h id b m at =
    let (d, fd, h1) = >>=-eq-ok (found (t0 o x) resource_not_found) _ h in
    let (rest, loaded, h2) = >>=-eq-ok (load_bindings t0 o xs) _ h1 in
    let same : d ∷ rest ≡ bs = ok-injective h2 in
    let there = found-ok (t0 o x) resource_not_found fd in
    subst (λ v. write_bindings t o (x ∷ xs) v change o id ≡ some (change b)) same
      (elim (Bool-cases (contains xs id)) [
        | inl further ↦
            write_bindings-listed t0 (put t o x (change d)) o xs rest change loaded id b further at
        | inr last ↦
            let is_x : id == x ≡ true = ground (arith, m, last) in
            let e : x ≡ id = sym ((eq_iff id x).0 is_x) in
            let d_b : d ≡ b = some_same (subst (λ v. t0 o v ≡ some d) e there) at in
            write_bindings-unlisted (put t o x (change d)) o xs rest change o id
              (λ both. let bad = both.1 in cc)
            ∙ subst (λ v. put t o x (change d) o v ≡ some (change d)) e
                (get-put_self t o x (change d))
            ∙ ap (λ v. some (change v)) d_b
      ])
