-- ===== src/Store.antt =====
-- A collection of Firestore documents, by the identifiers that server/core/storage/paths.py puts
-- into a document's path. A collection that stands under an organisation has two identifiers, and a
-- collection under one of its documents has three. What a transaction writes is seen by the next
-- one, and a transaction that raises writes nothing.
use uumi.Prelude.{
  Bool-cases, Option, String, absurd, arith, eq_iff, if◌then◌else◌, inl, inr, none, some, string_eq,
  sym, ◌&&◌, ◌==◌, ◌≡◌, ◌≢◌, ◌⊎◌,
}
use uumi.Errors.{Error, Result, err, ok}

abbrev pub Table {ℓ} : Type ℓ → Type ℓ
Table V = String → String → Option V

abbrev pub DeepTable {ℓ} : Type ℓ → Type ℓ
DeepTable V = String → String → String → Option V

module _ {ℓ} {V : Type ℓ} where
  -- `transaction.set(reference, value)`
  unfoldable pub put : Table V → String → String → V → Table V
  put t o i v o' i' = if o == o' && i == i' then some v else t o' i'

  -- `transaction.delete(reference)`
  unfoldable pub remove : Table V → String → String → Table V
  remove t o i o' i' = if o == o' && i == i' then none else t o' i'

  unfoldable pub put_deep : DeepTable V → String → String → String → V → DeepTable V
  put_deep t o i j v o' i' j' = if o == o' && i == i' && j == j' then some v else t o' i' j'

  -- A document that has to be there.
  unfoldable pub found : Option V → Error → Result V
  found none e = err e
  found (some v) e = ok v

  pub found-ok : (d : Option V) (e : Error) {v : V} → found d e ≡ ok v → d ≡ some v
  unfolding found
  found-ok none e h = cc
  found-ok (some v) e h = ground arith

  pub get-put_self : (t : Table V) (o i : String) (v : V) → put t o i v o i ≡ some v
  unfolding put
  get-put_self t o i v = ground (arith, eq_iff o o, eq_iff i i)

  pub get-put_deep_self :
      (t : DeepTable V) (o i j : String) (v : V) → put_deep t o i j v o i j ≡ some v
  unfolding put_deep
  get-put_deep_self t o i j v = ground (arith, eq_iff o o, eq_iff i i, eq_iff j j)

  -- A read after a write, at the same document or at another.
  pub get-put :
      (t : Table V) (o i : String) (v : V) (o' i' : String)
      → (o ≡ o') × (i ≡ i') × (put t o i v o' i' ≡ some v)
        ⊎ (¬ ((o ≡ o') × (i ≡ i'))) × (put t o i v o' i' ≡ t o' i')
  unfolding put
  get-put t o i v o' i' = elim (Bool-cases (o == o' && i == i')) [
    | inl e ↦ inl (ground (arith, eq_iff o o'), ground (arith, eq_iff i i'), rw e)
    | inr e ↦ inr (λ p. ground (arith, eq_iff o o', eq_iff i i', p.0, p.1), rw e)
  ]

  pub get-remove :
      (t : Table V) (o i : String) (o' i' : String)
      → (o ≡ o') × (i ≡ i') × (remove t o i o' i' ≡ none)
        ⊎ (¬ ((o ≡ o') × (i ≡ i'))) × (remove t o i o' i' ≡ t o' i')
  unfolding remove
  get-remove t o i o' i' = elim (Bool-cases (o == o' && i == i')) [
    | inl e ↦ inl (ground (arith, eq_iff o o'), ground (arith, eq_iff i i'), rw e)
    | inr e ↦ inr (λ p. ground (arith, eq_iff o o', eq_iff i i', p.0, p.1), rw e)
  ]

  pub get-put_deep :
      (t : DeepTable V) (o i j : String) (v : V) (o' i' j' : String)
      → (o ≡ o') × (i ≡ i') × (j ≡ j') × (put_deep t o i j v o' i' j' ≡ some v)
        ⊎ (¬ ((o ≡ o') × (i ≡ i') × (j ≡ j'))) × (put_deep t o i j v o' i' j' ≡ t o' i' j')
  unfolding put_deep
  get-put_deep t o i j v o' i' j' = elim (Bool-cases (o == o' && i == i' && j == j')) [
    | inl e ↦ inl (
      ground (arith, eq_iff o o'),
      ground (arith, eq_iff i i'),
      ground (arith, eq_iff j j'),
      rw e,
    )
    | inr e ↦ inr (λ p. ground (arith, eq_iff o o', eq_iff i i', eq_iff j j', p.0, p.1, p.2), rw e)
  ]

  -- A read at another identifier than the one that was written.
  pub put_other :
      (t : Table V) (o i : String) (v : V) (o' i' : String) → i' ≢ i → put t o i v o' i' ≡ t o' i'
  put_other t o i v o' i' n = elim (get-put t o i v o' i') [
    | inl (eo, ei, now) ↦ absurd (n (sym ei))
    | inr (other, same) ↦ same
  ]

  pub put_deep_elsewhere :
      (t : DeepTable V) (o i j : String) (v : V) (o' i' j' : String)
      → i' ≢ i
      → put_deep t o i j v o' i' j' ≡ t o' i' j'
  put_deep_elsewhere t o i j v o' i' j' n = elim (get-put_deep t o i j v o' i' j') [
    | inl (eo, ei, ej, now) ↦ absurd (n (sym ei))
    | inr (other, same) ↦ same
  ]

  pub put_deep_other :
      (t : DeepTable V) (o i j : String) (v : V) (o' i' j' : String)
      → j' ≢ j
      → put_deep t o i j v o' i' j' ≡ t o' i' j'
  put_deep_other t o i j v o' i' j' n = elim (get-put_deep t o i j v o' i' j') [
    | inl (eo, ei, ej, now) ↦ absurd (n (sym ej))
    | inr (other, same) ↦ same
  ]
