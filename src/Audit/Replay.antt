-- ===== src/Audit/Replay.antt =====
-- A repeated append: server/core/storage/audit.py returns the event that is there.
use uumi.Prelude.{
  Bool, String, ap, arith, eq_iff, false, list_beq_iff, list_eq, nat_eq, none, option_beq_iff,
  option_eq, refl, some, string_eq, subst, subst₂, sym, true, ℕ, ◌∙◌, ◌∷◌, ◌≡◌,
}
use uumi.Errors.{>>=-eq-ok, Error, Result, already_exists, ok, reject_if-eq-ok, require, ◌>>◌}
use uumi.Audit.Chain.{pair_audit, set_at_same}
use uumi.Audit.{
  AuditDb, AuditEvent, Entry, HashedFields, append, append_again, append_new, append_on,
  audit_event, event_beq, event_of, fields_beq, new_outbox, next_link, same_entry, write_event,
}
use uumi.Store.{get-put_self}

same_entry_self :
    (event_hash : HashedFields → String) (entry : Entry) (n : ℕ) (p : String)
    → same_entry (audit_event event_hash entry n p) entry ≡ true
unfolding same_entry
same_entry_self event_hash entry n p = ground (
  arith,
  eq_iff entry.kind entry.kind,
  eq_iff entry.actor_id entry.actor_id,
  eq_iff entry.resource entry.resource,
  option_beq_iff entry.run_id entry.run_id,
  list_beq_iff entry.evidence_ids entry.evidence_ids,
  eq_iff entry.region entry.region,
  eq_iff entry.payload entry.payload,
)

fields_beq_self : (f : HashedFields) → fields_beq f f ≡ true
fields_beq_self f = ground (
  arith,
  eq_iff f.organisation_id f.organisation_id,
  eq_iff f.kind f.kind,
  eq_iff f.actor_id f.actor_id,
  eq_iff f.resource f.resource,
  option_beq_iff f.run_id f.run_id,
  list_beq_iff f.evidence_ids f.evidence_ids,
  eq_iff f.region f.region,
  eq_iff f.payload f.payload,
  eq_iff f.previous_hash f.previous_hash,
)

event_beq_self : (e : AuditEvent) → event_beq e e ≡ true
event_beq_self e =
    ground (arith, eq_iff e.id e.id, fields_beq_self e.fields, eq_iff e.event_hash e.event_hash)

ok_pair : {a b : AuditEvent × AuditDb} → ok a ≡ ok b → b ≡ a
ok_pair h = ground arith

both_checks {ℓ} :
    {A : Type ℓ} (b c : Bool) (e f : Error) (m : Result A)
    → b ≡ true
    → c ≡ true
    → (require b e >> (require c f >> m)) ≡ m
both_checks true true e f m hb hc = refl
both_checks false c e f m hb hc = cc
both_checks true false e f m hb hc = cc

module _ (event_hash : HashedFields → String) where
  stored_new :
      (db : AuditDb) (entry : Entry) {e : AuditEvent} {db' : AuditDb}
      → append_new event_hash db entry ≡ ok (e, db')
      → (n : ℕ) × ((p : String) × ((e ≡ audit_event event_hash entry n p)
            × (db' ≡ write_event db entry.organisation_id (audit_event event_hash entry n p))))
  unfolding append_new
  stored_new db entry h =
      let (link, g, h1) =
        >>=-eq-ok (next_link (db.heads entry.organisation_id) (db.events entry.organisation_id)) _
          h in
      let (_, h2) = reject_if-eq-ok _ already_exists _ h1 in
      let after = pair_audit h2 in
      (link.0, (link.1, (ap (λ (x : AuditEvent × AuditDb). x.0) (ok_pair h2), after)))

  found_event :
      (db : AuditDb) (entry : Entry) (n : ℕ) (p : String)
      → event_of
          ((write_event db entry.organisation_id (audit_event event_hash entry n p)).events
            entry.organisation_id)
          entry.event_id
        ≡ some (audit_event event_hash entry n p)
  unfolding write_event
  found_event db entry n p =
      let e = audit_event event_hash entry n p in
      let same : entry.organisation_id ≡ entry.organisation_id = refl in
      let now = set_at_same db.events (e ∷ db.events entry.organisation_id) same in
      ap (λ es. event_of es entry.event_id) now
      ∙ ground (arith, eq_iff entry.event_id entry.event_id)

  found_outbox :
      (db : AuditDb) (entry : Entry) (n : ℕ) (p : String)
      → (write_event db entry.organisation_id (audit_event event_hash entry n p)).outbox
          entry.organisation_id entry.event_id
        ≡ some (new_outbox (audit_event event_hash entry n p) entry.occurred_at)
  unfolding write_event
  found_outbox db entry n p =
      get-put_self db.outbox entry.organisation_id entry.event_id
        (new_outbox (audit_event event_hash entry n p) entry.occurred_at)

  append_again_stored :
      (db : AuditDb) (entry : Entry) (n : ℕ) (p : String)
      → append_again db entry
          (audit_event event_hash entry n p)
          (some (new_outbox (audit_event event_hash entry n p) entry.occurred_at))
        ≡ ok (audit_event event_hash entry n p, db)
  unfolding append_again
  append_again_stored db entry n p =
      both_checks _ _ _ _ _ (same_entry_self event_hash entry n p)
        (event_beq_self (audit_event event_hash entry n p))

  -- An append of an event whose identifier is not there, done again with the same arguments, returns the event that
  -- was stored and writes nothing.
  pub append_replay :
      (db db' : AuditDb) (entry : Entry) (e : AuditEvent)
      → event_of (db.events entry.organisation_id) entry.event_id ≡ none
      → append event_hash db entry ≡ ok (e, db')
      → append event_hash db' entry ≡ ok (e, db')
  unfolding append append_on
  append_replay db db' entry e fresh h =
      let h' = subst (λ d. append_on event_hash db entry d ≡ ok (e, db')) fresh h in
      let (n, (p, (is, after))) = stored_new db entry h' in
      let x = audit_event event_hash entry n p in
      let w = write_event db entry.organisation_id x in
      let again : append event_hash w entry ≡ ok (x, w) =
        ap (append_on event_hash w entry) (found_event db entry n p)
        ∙ ap (append_again w entry x) (found_outbox db entry n p)
        ∙ append_again_stored w entry n p in
      subst₂ (λ a b. append event_hash b entry ≡ ok (a, b)) (sym is) (sym after) again
