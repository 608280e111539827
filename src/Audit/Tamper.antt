-- ===== src/Audit/Tamper.antt =====
-- What the head of an audit chain (server/core/audit/chain.py) says about the events behind it.
use uumi.Audit.Chain.{AuditHistory, Chained, History-Chained, Linked, last_hash, last_head}
use uumi.Prelude.{
  List, String, [], ap, arith, get_elem?, length, refl, some, suc, sym, ℕ, ◌∙◌, ◌∷◌, ◌≡◌,
}
use uumi.Audit.{AuditDb, AuditEvent, AuditHead, HashedFields, head_of}

-- No two recorded events at one place of two chains have one digest and different fields.
abbrev pub NoCollision : (HashedFields → String) → List AuditEvent → List AuditEvent → Type 0
NoCollision event_hash xs ys =
    (i : ℕ) (x y : AuditEvent)
    → get_elem? xs i ≡ some x
    → get_elem? ys i ≡ some y
    → event_hash x.fields ≡ event_hash y.fields
    → x.fields ≡ y.fields

abbrev pub fields_of : List AuditEvent → List HashedFields
fields_of [] = []
fields_of (e ∷ es) = e.fields ∷ fields_of es

module _ (event_hash : HashedFields → String) where
  same_length :
      (xs ys : List AuditEvent)
      → Linked event_hash xs
      → Linked event_hash ys
      → NoCollision event_hash xs ys
      → length xs ≡ length ys
      → last_hash xs ≡ last_hash ys
      → fields_of xs ≡ fields_of ys
  same_length [] [] lx ly apart n h = refl
  same_length [] (y ∷ ys) lx ly apart n h = ground arith
  same_length (x ∷ xs) [] lx ly apart n h = ground arith
  same_length (x ∷ xs) (y ∷ ys) lx ly apart n h =
      let (hx, nx, px, rx) = lx in
      let (hy, ny, py, ry) = ly in
      let one = apart 0 x y refl refl (sym hx ∙ h ∙ hy) in
      let before = sym px ∙ ap (λ (f : HashedFields). f.previous_hash) one ∙ py in
      let rest =
        same_length xs ys rx ry (λ i a b ha hb. apart (suc i) a b ha hb) (ground arith) before in
      cc

  newest_hash_determines :
      (x y : AuditEvent) (xs ys : List AuditEvent)
      → Linked event_hash (x ∷ xs)
      → Linked event_hash (y ∷ ys)
      → NoCollision event_hash (x ∷ xs) (y ∷ ys)
      → x.event_hash ≡ y.event_hash
      → fields_of (x ∷ xs) ≡ fields_of (y ∷ ys)
  newest_hash_determines x y xs ys lx ly apart h =
      let (hx, nx, px, rx) = lx in
      let (hy, ny, py, ry) = ly in
      let one = apart 0 x y refl refl (sym hx ∙ h ∙ hy) in
      let n = sym nx ∙ ap (λ (f : HashedFields). f.sequence) one ∙ ny in
      same_length (x ∷ xs) (y ∷ ys) lx ly apart (ap suc n) h

  heads_determine :
      (xs ys : List AuditEvent) (h k : AuditHead)
      → Linked event_hash xs
      → Linked event_hash ys
      → NoCollision event_hash xs ys
      → last_head xs ≡ some h
      → last_head ys ≡ some k
      → h.event_hash ≡ k.event_hash
      → fields_of xs ≡ fields_of ys
  heads_determine [] ys h k lx ly apart hx hy same = cc
  heads_determine (x ∷ xs) [] h k lx ly apart hx hy same = cc
  heads_determine (x ∷ xs) (y ∷ ys) h k lx ly apart hx hy same =
      let ex : head_of x ≡ h = ground (arith, hx) in
      let ey : head_of y ≡ k = ground (arith, hy) in
      let hashes : x.event_hash ≡ y.event_hash =
        ap (λ (v : AuditHead). v.event_hash) ex
        ∙ same
        ∙ sym (ap (λ (v : AuditHead). v.event_hash) ey) in
      newest_hash_determines x y xs ys lx ly apart hashes

  -- Two stores that any appends have led to, from stores whose chains are linked: if the heads of an
  -- organisation carry one hash, then its events in both record the same hashed fields, in the same
  -- order, as long as no two of them at one place have one digest and different fields.
  pub same_head_same_fields :
      (a a' b b' : AuditDb) (o : String) (h k : AuditHead)
      → ((x : String) → Chained event_hash a x)
      → ((x : String) → Chained event_hash b x)
      → AuditHistory event_hash a a'
      → AuditHistory event_hash b b'
      → NoCollision event_hash (a'.events o) (b'.events o)
      → a'.heads o ≡ some h
      → b'.heads o ≡ some k
      → h.event_hash ≡ k.event_hash
      → fields_of (a'.events o) ≡ fields_of (b'.events o)
  same_head_same_fields a a' b b' o h k before_a before_b wa wb apart ha hb same =
      let ca = History-Chained event_hash wa before_a o in
      let cb = History-Chained event_hash wb before_b o in
      heads_determine (a'.events o) (b'.events o) h k ca.linked cb.linked apart (sym ca.newest ∙ ha)
        (sym cb.newest ∙ hb) same
