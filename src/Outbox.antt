-- ===== src/Outbox.antt =====
-- server/core/storage/outbox.py and the retry delay of server/core/events/publish.py: the delivery
-- of the outbox events, in the order of a run's revisions. Instants and durations are numbers, and
-- documents are read back as they were written.
pub mod Steps
pub mod Order
pub mod Claims
pub mod Exclusive
pub mod Valid
pub mod Queue
use uumi.Prelude.{
  Bool, Option, String, false, if◌then◌else◌, is_some, ltb, min, nat_eq, none, not, option_eq, some,
  string_eq, ℕ, ◌&&◌, ◌*◌, ◌+◌, ◌-◌, ◌==◌, ◌^◌, ◌||◌,
}
use uumi.Contracts.{OutboxEvent}
use uumi.Errors.{
  Result, map_ok, ok, outbox_lease, reject_if, require, storage_integrity, ◌>>=◌, ◌>>◌,
}
use uumi.Store.{Table, found, put}

-- The delivery cursor of a run; the fields that a write leaves out are `none`.
pub record Cursor : Type 0 where
  pub organisation_id : String
  pub run_id : String
  pub published_revision : ℕ
  pub event_id : String
  pub message_id : Option String
  pub published_at : Option ℕ
  pub dead_lettered_at : Option ℕ
  pub last_error : Option String

pub record Delivery : Type 0 where
  pub outbox : Table OutboxEvent  -- organisation, event
  pub cursors : Table Cursor  -- organisation, run

-- A document's path, with the event as it was claimed.
pub record OutboxClaim : Type 0 where
  pub organisation_id : String
  pub event_id : String
  pub outbox : OutboxEvent

-- One more than `_published_revision`, which is -1 where there is no cursor.
abbrev pub next_revision : Option Cursor → ℕ
next_revision none = 0
next_revision (some c) = c.published_revision + 1

-- The cursor of the event's run.
abbrev pub cursor_of : Delivery → OutboxEvent → Option Cursor
cursor_of s e = s.cursors e.event.organisation_id e.event.run_id

-- `_owned`
abbrev pub owned : OutboxEvent → String → Bool
owned e owner = e.lease_owner == some owner

abbrev pub unexpired : Option ℕ → ℕ → Bool
unexpired none now = false
unexpired (some t) now = ltb now t

-- The conditions of `_claim_one`.
unfoldable pub claimable : Delivery → OutboxEvent → ℕ → Bool
claimable s e now =
    not (is_some e.published_at || is_some e.dead_lettered_at || ltb now e.available_at)
    && not (unexpired e.lease_expires_at now)
    && next_revision (cursor_of s e) == e.event.revision

unfoldable pub claimed_event : OutboxEvent → String → ℕ → ℕ → OutboxEvent
claimed_event e owner now lease_duration = record e {
  attempts = e.attempts + 1;
  lease_owner = some owner;
  lease_expires_at = some (now + lease_duration);
}

-- `_claim_one`
unfoldable pub claim_one :
    Delivery → String → String → String → ℕ → ℕ → Result (Option OutboxClaim × Delivery)
claim_one s org id owner now lease_duration = do
  e ← found (s.outbox org id) storage_integrity
  let claimed = claimed_event e owner now lease_duration
  ok (
      if claimable s e now
      then (
        some (record { organisation_id = org; event_id = id; outbox = claimed }),
        record s { outbox = put s.outbox org id claimed },
      )
      else (none, s))

-- The event and the cursor of its run are written together.
unfoldable pub settle_event : Delivery → String → String → OutboxEvent → Delivery
settle_event s org id e = record s {
  outbox = put s.outbox org id e;
  cursors = put s.cursors e.event.organisation_id e.event.run_id (record {
    organisation_id = e.event.organisation_id;
    run_id = e.event.run_id;
    published_revision = e.event.revision;
    event_id = e.event.id;
    message_id = e.publisher_message_id;
    published_at = e.published_at;
    dead_lettered_at = e.dead_lettered_at;
    last_error = e.last_error;
  });
}

unfoldable pub published_event : OutboxEvent → String → ℕ → OutboxEvent
published_event e message_id published_at = record e {
  lease_owner = none;
  lease_expires_at = none;
  published_at = some published_at;
  publisher_message_id = some message_id;
  last_error = none;
}

-- `mark_published`, past the dead-letter test.
pub publish_next : Delivery → OutboxClaim → OutboxEvent → String → String → ℕ → Result Delivery
publish_next s claim e owner message_id published_at = do
  require (owned e owner) outbox_lease
  require (next_revision (cursor_of s e) == e.event.revision) outbox_lease
  ok (
      settle_event s claim.organisation_id claim.event_id
        (published_event e message_id published_at))

unfoldable pub mark_published : Delivery → OutboxClaim → String → String → ℕ → Result Delivery
unfolding publish_next
mark_published s claim owner message_id published_at = do
  e ← found (s.outbox claim.organisation_id claim.event_id) storage_integrity
  reject_if (is_some e.dead_lettered_at) outbox_lease
  if is_some e.published_at
      then (require (e.publisher_message_id == some message_id) outbox_lease >> ok s)
      else publish_next s claim e owner message_id published_at

unfoldable pub dead_event : OutboxEvent → String → ℕ → OutboxEvent
dead_event e error dead_lettered_at = record e {
  lease_owner = none;
  lease_expires_at = none;
  dead_lettered_at = some dead_lettered_at;
  dead_letter_reason = some error;
  last_error = some error;
}

pub bury_next : Delivery → OutboxClaim → OutboxEvent → String → String → ℕ → Result Delivery
bury_next s claim e owner error dead_lettered_at = do
  reject_if (is_some e.published_at) outbox_lease
  require (owned e owner) outbox_lease
  require (next_revision (cursor_of s e) == e.event.revision) outbox_lease
  ok (settle_event s claim.organisation_id claim.event_id (dead_event e error dead_lettered_at))

unfoldable pub mark_dead_letter : Delivery → OutboxClaim → String → String → ℕ → Result Delivery
unfolding bury_next
mark_dead_letter s claim owner error dead_lettered_at = do
  e ← found (s.outbox claim.organisation_id claim.event_id) storage_integrity
  if is_some e.dead_lettered_at then ok s else bury_next s claim e owner error dead_lettered_at

unfoldable pub failed_event : OutboxEvent → String → ℕ → OutboxEvent
failed_event e error available_at = record e {
  available_at = available_at;
  lease_owner = none;
  lease_expires_at = none;
  last_error = some error;
}

pub release : Delivery → OutboxClaim → OutboxEvent → String → String → ℕ → Result Delivery
release s claim e owner error available_at = do
  require (owned e owner) outbox_lease
  ok (record s {
    outbox = put s.outbox claim.organisation_id claim.event_id (failed_event e error available_at);
  })

unfoldable pub mark_failed : Delivery → OutboxClaim → String → String → ℕ → Result Delivery
unfolding release
mark_failed s claim owner error available_at = do
  e ← found (s.outbox claim.organisation_id claim.event_id) storage_integrity
  if is_some e.published_at || is_some e.dead_lettered_at
      then ok s
      else release s claim e owner error available_at

-- `EventPublisher._backoff`, in seconds.
unfoldable pub backoff : ℕ → ℕ → ℕ → ℕ
backoff retry_base retry_max attempts = min (retry_base * 2 ^ min (attempts - 1) 16) retry_max

-- A call of one of the four transactions.
pub data DeliveryOp : Type 0 where
  claim_event : String → String → String → ℕ → ℕ → DeliveryOp
  publish_event : OutboxClaim → String → String → ℕ → DeliveryOp
  bury_event : OutboxClaim → String → String → ℕ → DeliveryOp
  fail_event : OutboxClaim → String → String → ℕ → DeliveryOp

unfoldable pub deliver : Delivery → DeliveryOp → Result Delivery
deliver s (claim_event org id owner now duration) =
    map_ok (λ p. p.1) (claim_one s org id owner now duration)
deliver s (publish_event claim owner message at) = mark_published s claim owner message at
deliver s (bury_event claim owner error at) = mark_dead_letter s claim owner error at
deliver s (fail_event claim owner error at) = mark_failed s claim owner error at
