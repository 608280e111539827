-- ===== src/Audit.antt =====
-- server/core/audit/chain.py, server/core/storage/audit.py and the audit contracts of
-- packages/contracts/src/contracts/audit.py: the hash chain of an organisation's audit events. The
-- digest of an event's fields is a parameter, since SHA-256 and the JSON encoder are libraries. A
-- collection is the list of its documents, the newest first, and a payload is its canonical JSON
-- text. Instants are numbers.
pub mod Chain
pub mod Tamper
pub mod Replay
use uumi.Prelude.{
  Bool, List, Option, String, [], if◌then◌else◌, is_some, list_eq, nat_eq, none, option_eq, some,
  string_eq, ℕ, ◌&&◌, ◌+◌, ◌==◌, ◌∷◌,
}
use uumi.Errors.{
  Result, already_exists, err, ok, reject_if, require, resource_conflict, storage_integrity, ◌>>=◌,
  ◌>>◌,
}
use uumi.Store.{Table, put}

-- The arguments of `event_hash`.
pub record HashedFields : Type 0 where
  pub organisation_id : String
  pub sequence : ℕ
  pub kind : String
  pub actor_id : String
  pub resource : String
  pub run_id : Option String
  pub payload : String
  pub evidence_ids : List String
  pub previous_hash : String
  pub occurred_at : ℕ
  pub region : String

pub record AuditEvent : Type 0 where
  pub id : String
  pub fields : HashedFields
  pub event_hash : String

pub record AuditOutbox : Type 0 where
  pub event : AuditEvent
  pub available_at : ℕ

pub record AuditHead : Type 0 where
  pub sequence : ℕ
  pub event_id : String
  pub event_hash : String
  pub occurred_at : ℕ

pub record AuditDb : Type 0 where
  pub events : String → List AuditEvent
  pub outbox : Table AuditOutbox  -- organisation, event
  pub heads : String → Option AuditHead

-- The arguments of `append`.
pub record Entry : Type 0 where
  pub event_id : String
  pub organisation_id : String
  pub kind : String
  pub actor_id : String
  pub resource : String
  pub run_id : Option String
  pub payload : String
  pub evidence_ids : List String
  pub occurred_at : ℕ
  pub region : String

-- `GENESIS`
abbrev pub genesis : String
genesis = "0000000000000000000000000000000000000000000000000000000000000000"

-- The document of an identifier.
abbrev pub event_of : List AuditEvent → String → Option AuditEvent
event_of [] id = none
event_of (e ∷ es) id = let rest = event_of es id in if e.id == id then some e else rest

-- `fields == (...) and current.payload == payload`
unfoldable pub same_entry : AuditEvent → Entry → Bool
same_entry e entry =
    e.fields.kind == entry.kind
    && e.fields.actor_id == entry.actor_id
    && e.fields.resource == entry.resource
    && e.fields.run_id == entry.run_id
    && e.fields.evidence_ids == entry.evidence_ids
    && e.fields.region == entry.region
    && e.fields.payload == entry.payload

abbrev pub fields_beq : HashedFields → HashedFields → Bool
fields_beq a b =
    a.organisation_id == b.organisation_id
    && a.sequence == b.sequence
    && a.kind == b.kind
    && a.actor_id == b.actor_id
    && a.resource == b.resource
    && a.run_id == b.run_id
    && a.payload == b.payload
    && a.evidence_ids == b.evidence_ids
    && a.previous_hash == b.previous_hash
    && a.occurred_at == b.occurred_at
    && a.region == b.region

abbrev pub event_beq : AuditEvent → AuditEvent → Bool
event_beq a b = a.id == b.id && fields_beq a.fields b.fields && a.event_hash == b.event_hash

abbrev pub new_outbox : AuditEvent → ℕ → AuditOutbox
new_outbox e available_at = record { event = e; available_at = available_at }

-- The event is there already.
unfoldable pub append_again :
    AuditDb → Entry → AuditEvent → Option AuditOutbox → Result (AuditEvent × AuditDb)
append_again db entry current (some outbox) = do
  require (same_entry current entry) resource_conflict
  require (event_beq outbox.event current) storage_integrity
  ok (current, db)
append_again db entry current none = do
  require (same_entry current entry) resource_conflict
  ok (
    current,
    record db {
      outbox =
          put db.outbox entry.organisation_id entry.event_id
            (new_outbox current current.fields.occurred_at);
    },
  )

-- The sequence and the previous hash of the next event.
unfoldable pub next_link : Option AuditHead → List AuditEvent → Result (ℕ × String)
next_link (some head) events = ok (head.sequence + 1, head.event_hash)
next_link none [] = ok (0, genesis)
next_link none (e ∷ es) = err storage_integrity

unfoldable pub set_at {ℓ} : {V : Type ℓ} → (String → V) → String → V → String → V
set_at t o v o' = if o == o' then v else t o'

abbrev pub hashed_fields : Entry → ℕ → String → HashedFields
hashed_fields entry sequence previous = record {
  organisation_id = entry.organisation_id;
  sequence = sequence;
  kind = entry.kind;
  actor_id = entry.actor_id;
  resource = entry.resource;
  run_id = entry.run_id;
  payload = entry.payload;
  evidence_ids = entry.evidence_ids;
  previous_hash = previous;
  occurred_at = entry.occurred_at;
  region = entry.region;
}

abbrev pub head_of : AuditEvent → AuditHead
head_of e = record {
  sequence = e.fields.sequence;
  event_id = e.id;
  event_hash = e.event_hash;
  occurred_at = e.fields.occurred_at;
}

-- The event, its outbox document and the head are written together.
unfoldable pub write_event : AuditDb → String → AuditEvent → AuditDb
write_event db org e = record {
  events = set_at db.events org (e ∷ db.events org);
  outbox = put db.outbox org e.id (new_outbox e e.fields.occurred_at);
  heads = set_at db.heads org (some (head_of e));
}

module _ (event_hash : HashedFields → String) where
  abbrev pub audit_event : Entry → ℕ → String → AuditEvent
  audit_event entry sequence previous = record {
    id = entry.event_id;
    fields = hashed_fields entry sequence previous;
    event_hash = event_hash (hashed_fields entry sequence previous);
  }

  -- `transaction.create` refuses an outbox document that is there.
  unfoldable pub append_new : AuditDb → Entry → Result (AuditEvent × AuditDb)
  append_new db entry = do
    link ← next_link (db.heads entry.organisation_id) (db.events entry.organisation_id)
    let e = audit_event entry link.0 link.1
    reject_if (is_some (db.outbox entry.organisation_id entry.event_id)) already_exists
    ok (e, write_event db entry.organisation_id e)

  unfoldable pub append_on : AuditDb → Entry → Option AuditEvent → Result (AuditEvent × AuditDb)
  append_on db entry none = append_new db entry
  append_on db entry (some e) =
      append_again db entry e (db.outbox entry.organisation_id entry.event_id)

  -- `FirestoreAuditRepository.append`
  unfoldable pub append : AuditDb → Entry → Result (AuditEvent × AuditDb)
  append db entry = append_on db entry (event_of (db.events entry.organisation_id) entry.event_id)
