-- ===== src/Outbox/Queue/Settle.antt =====
-- The three answers of server/core/storage/outbox.py to the holder of a claim: all are accepted.
use uumi.Prelude.{
  String, arith, eq_iff, false, is_some, nat_eq, option_eq, refl, string_eq, true, ℕ, ◌==◌, ◌≡◌,
}
use uumi.Errors.{ok}
use uumi.Store.{found, put}
use uumi.Outbox.{
  Delivery, OutboxClaim, bury_next, cursor_of, dead_event, failed_event, mark_dead_letter,
  mark_failed, mark_published, next_revision, owned, publish_next, published_event, release,
  settle_event,
}
use uumi.Outbox.Queue.Claimed.{Held}

module _ (s : Delivery) (owner : String) (c : OutboxClaim) (h : Held s owner c) where
  is_owned : owned c.outbox owner ≡ true
  is_owned = rw h.leased (ground (arith, eq_iff owner owner))

  is_due : (next_revision (cursor_of s c.outbox) == c.outbox.event.revision) ≡ true
  is_due = (nat_eq.equals_iff _ _).1 h.due

  not_published : is_some c.outbox.published_at ≡ false
  not_published = let free = h.unsettled in ground (arith, free)

  not_dead : is_some c.outbox.dead_lettered_at ≡ false
  not_dead = let free = h.unsettled in ground (arith, free)

  pub mark_published-Held :
      (message_id : String) (at : ℕ)
      → mark_published s c owner message_id at
        ≡ ok (settle_event s c.organisation_id c.event_id (published_event c.outbox message_id at))
  unfolding mark_published publish_next found
  mark_published-Held message_id at = rw (h.at_path, not_dead, not_published, is_owned, is_due) refl

  pub mark_dead_letter-Held :
      (error : String) (at : ℕ)
      → mark_dead_letter s c owner error at
        ≡ ok (settle_event s c.organisation_id c.event_id (dead_event c.outbox error at))
  unfolding mark_dead_letter bury_next found
  mark_dead_letter-Held error at = rw (h.at_path, not_dead, not_published, is_owned, is_due) refl

  pub mark_failed-Held :
      (error : String) (available_at : ℕ)
      → mark_failed s c owner error available_at
        ≡ ok (record s {
          outbox =
              put s.outbox c.organisation_id c.event_id (failed_event c.outbox error available_at);
        })
  unfolding mark_failed release found
  mark_failed-Held error available_at = rw (h.at_path, not_dead, not_published, is_owned) refl
