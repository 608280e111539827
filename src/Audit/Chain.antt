-- ===== src/Audit/Chain.antt =====
-- The chain that server/core/storage/audit.py append builds.
use uumi.Prelude.{
  Bool-cases, List, Option, String, [], absurd, arith, eq_iff, inl, inr, length, list_eq, nat_eq,
  none, option_eq, refl, some, string_eq, subst, sym, ℕ, ◌==◌, ◌∙◌, ◌∷◌, ◌≡◌, ◌⊎◌,
}
use uumi.Audit.{
  AuditDb, AuditEvent, AuditHead, AuditOutbox, Entry, HashedFields, append, append_again,
  append_new, append_on, audit_event, event_of, genesis, head_of, next_link, same_entry, set_at,
  write_event,
}
use uumi.Errors.{
  >>=-eq-ok, Error, Result, already_exists, err, ok, reject_if-eq-ok, require-eq-ok,
  resource_conflict, storage_integrity,
}

-- The hash of the newest event.
abbrev pub last_hash : List AuditEvent → String
last_hash [] = genesis
last_hash (e ∷ es) = e.event_hash

abbrev pub last_head : List AuditEvent → Option AuditHead
last_head [] = none
last_head (e ∷ es) = some (head_of e)

set_at-cases {ℓ} :
    {V : Type ℓ} (t : String → V) (o : String) (v : V) (o' : String)
    → (o ≡ o') × (set_at t o v o' ≡ v) ⊎ (¬ (o ≡ o')) × (set_at t o v o' ≡ t o')
unfolding set_at
set_at-cases t o v o' = elim (Bool-cases (o == o')) [
  | inl e ↦ inl (ground (arith, eq_iff o o'), rw e)
  | inr e ↦ inr (λ h. ground (arith, eq_iff o o', h), rw e)
]

pub set_at_same {ℓ} :
    {V : Type ℓ} (t : String → V) {o o' : String} (v : V) → o ≡ o' → set_at t o v o' ≡ v
set_at_same t {o} {o'} v same = elim (set_at-cases t o v o') [
  | inl p ↦ p.1
  | inr p ↦ absurd (p.0 same)
]

set_at_other {ℓ} :
    {V : Type ℓ} (t : String → V) {o o' : String} (v : V) → ¬ (o ≡ o') → set_at t o v o' ≡ t o'
set_at_other t {o} {o'} v other = elim (set_at-cases t o v o') [
  | inl p ↦ absurd (other p.0)
  | inr p ↦ p.1
]

pub pair_audit :
    {a b : AuditEvent} {x y : AuditDb}
    → ◌≡◌ {A = Result (AuditEvent × AuditDb)} (ok (a, x)) (ok (b, y))
    → y ≡ x
pair_audit h = ground arith

module _ (event_hash : HashedFields → String) where
  -- The events from the newest to the oldest: the hash of each is that of its fields, its sequence is
  -- the number of the events before it, and it names the hash of the event before it.
  abbrev pub Linked : List AuditEvent → Type 0
  Linked [] = Unit
  Linked (e ∷ es) =
      (e.event_hash ≡ event_hash e.fields)
      × (e.fields.sequence ≡ length es)
      × (e.fields.previous_hash ≡ last_hash es)
      × Linked es

  -- The events of an organisation are linked, and its head is the newest of them.
  pub record Chained (db : AuditDb) (o : String) : Type 0 where
    pub linked : Linked (db.events o)
    pub newest : db.heads o ≡ last_head (db.events o)

  next_link-Linked :
      (h : Option AuditHead) (es : List AuditEvent) {n : ℕ} {p : String}
      → h ≡ last_head es
      → Linked es
      → next_link h es ≡ ok (n, p)
      → (n ≡ length es) × (p ≡ last_hash es)
  unfolding next_link
  next_link-Linked none [] same links h = (ground arith, ground arith)
  next_link-Linked none (e ∷ es) same links h = cc
  next_link-Linked (some x) [] same links h = cc
  next_link-Linked (some x) (e ∷ es) same links h =
      let sequence = links.1 in (ground arith, ground arith)

  -- An organisation's events and head after a write, in that organisation and in another.
  write-Chained :
      (db : AuditDb) (org : String) (e : AuditEvent) (o : String)
      → Chained db o
      → (e.event_hash ≡ event_hash e.fields)
      → (e.fields.sequence ≡ length (db.events org))
      → (e.fields.previous_hash ≡ last_hash (db.events org))
      → Chained (write_event db org e) o
  unfolding write_event
  write-Chained db org e o before hashed seq prev =
      elim (set_at-cases db.events org (e ∷ db.events org) o) [
        | inl (eo, now) ↦ record {
          linked =
              subst Linked (sym now)
                (hashed, seq, prev, subst (λ x. Linked (db.events x)) (sym eo) before.linked);
          newest =
              subst (λ x. set_at db.heads org (some (head_of e)) o ≡ last_head x) (sym now)
                (set_at_same db.heads (some (head_of e)) eo);
        }
        | inr (other, now) ↦ record {
          linked = subst Linked (sym now) before.linked;
          newest =
              subst (λ x. set_at db.heads org (some (head_of e)) o ≡ last_head x) (sym now)
                (set_at_other db.heads (some (head_of e)) other ∙ before.newest);
        }
      ]

  append_new-Chained :
      (db : AuditDb) (entry : Entry) (o : String) {e : AuditEvent} {db' : AuditDb}
      → ((x : String) → Chained db x)
      → append_new event_hash db entry ≡ ok (e, db')
      → Chained db' o
  unfolding append_new
  append_new-Chained db entry o before h =
      let org = entry.organisation_id in
      let (link, g, h1) = >>=-eq-ok (next_link (db.heads org) (db.events org)) _ h in
      let (_, h2) = reject_if-eq-ok _ already_exists _ h1 in
      let (en, ep) =
        next_link-Linked (db.heads org) (db.events org) {n = link.0} {p = link.1}
          (before org).newest (before org).linked g in
      let after = pair_audit h2 in
      subst (λ x. Chained x o) (sym after)
        (write-Chained db org (audit_event event_hash entry link.0 link.1) o (before o) refl en ep)

  append_again-Chained :
      (db : AuditDb) (entry : Entry) (x : AuditEvent) (d : Option AuditOutbox) (o : String)
      {e : AuditEvent} {db' : AuditDb}
      → Chained db o
      → append_again db entry x d ≡ ok (e, db')
      → Chained db' o
  unfolding append_again
  append_again-Chained db entry x none o before h =
      let (_, h1) = require-eq-ok (same_entry x entry) resource_conflict _ h in
      subst (λ y. Chained y o) (sym (pair_audit h1))
        (record { linked = before.linked; newest = before.newest })
  append_again-Chained db entry x (some d) o before h =
      let (_, h1) = require-eq-ok (same_entry x entry) resource_conflict _ h in
      let (_, h2) = require-eq-ok _ storage_integrity _ h1 in
      subst (λ y. Chained y o) (sym (pair_audit h2)) before

  append_on-Chained :
      (db : AuditDb) (entry : Entry) (d : Option AuditEvent) (o : String) {e : AuditEvent}
      {db' : AuditDb}
      → ((x : String) → Chained db x)
      → append_on event_hash db entry d ≡ ok (e, db')
      → Chained db' o
  unfolding append_on
  append_on-Chained db entry none o before h = append_new-Chained db entry o before h
  append_on-Chained db entry (some x) o before h =
      append_again-Chained db entry x (db.outbox entry.organisation_id entry.event_id) o (before o)
        h

  -- A sequence of calls of `append`, those that fail included.
  pub data AuditHistory (db : AuditDb) : AuditDb → Type 0 where
    nothing_appended : AuditHistory db db
    then_append :
        {db' db'' : AuditDb} {e : AuditEvent} (entry : Entry)
        → AuditHistory db db'
        → append event_hash db' entry ≡ ok (e, db'')
        → AuditHistory db db''
    then_no_append :
        {db' : AuditDb} (entry : Entry) (e : Error)
        → AuditHistory db db'
        → append event_hash db' entry ≡ err e
        → AuditHistory db db'

  -- If in each organisation the events are linked by their hashes, are numbered without a gap from 0,
  -- and the head is the newest of them, then the same holds after any sequence of appends, those that
  -- fail included.
  pub History-Chained :
      {db db' : AuditDb}
      → AuditHistory db db'
      → ((o : String) → Chained db o)
      → (o : String) → Chained db' o
  unfolding append
  History-Chained nothing_appended before o = before o
  History-Chained (then_append {db'} entry rest h) before o =
      append_on-Chained db' entry (event_of (db'.events entry.organisation_id) entry.event_id) o
        (History-Chained rest before) h
  History-Chained (then_no_append entry e rest h) before o = History-Chained rest before o
