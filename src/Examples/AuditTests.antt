-- ===== src/Examples/AuditTests.antt =====
-- The theorems on server/core/storage/audit.py at an organisation with two audit events.
use uumi.Audit.Tamper.{NoCollision, fields_of, same_head_same_fields}
use uumi.Audit.{
  AuditDb, AuditEvent, Entry, HashedFields, append, append_again, append_new, append_on,
  audit_event, genesis, head_of, next_link, same_entry, set_at, write_event,
}
use uumi.Audit.Replay.{append_replay}
use uumi.Audit.Chain.{Chained, History-Chained, nothing_appended, then_append}
use uumi.Prelude.{
  String, [], ap, arith, list_eq, nat_eq, none, option_eq, refl, some, string_eq, subst₂, suc, sym,
  zero, ◌∙◌, ◌∷◌, ◌≡◌,
}
use uumi.Errors.{Result, err, ok}
use uumi.Store.{put}

abbrev digest_of : HashedFields → String
digest_of f = f.kind

abbrev entry_of : String → String → Entry
entry_of id kind = record {
  event_id = id;
  organisation_id = "org_1";
  kind = kind;
  actor_id = "actor_1";
  resource = "approvals/1";
  run_id = none;
  payload = "{}";
  evidence_ids = [];
  occurred_at = 1;
  region = "europe";
}

abbrev empty_audit : AuditDb
empty_audit = record { events = λ o. []; outbox = λ o i. none; heads = λ o. none }

abbrev placeholder : AuditEvent
placeholder = audit_event digest_of (entry_of "audit_1" "approval.requested") 0 genesis

abbrev appended : Result (AuditEvent × AuditDb) → AuditEvent × AuditDb
appended (ok r) = r
appended (err e) = (placeholder, empty_audit)

abbrev after_first : AuditEvent × AuditDb
after_first = appended (append digest_of empty_audit (entry_of "audit_1" "approval.requested"))

first_appended :
    append digest_of empty_audit (entry_of "audit_1" "approval.requested") ≡ ok after_first
unfolding append append_on append_new append_again next_link set_at write_event put same_entry
first_appended = refl

abbrev after_second : AuditEvent × AuditDb
after_second = appended (append digest_of after_first.1 (entry_of "audit_2" "approval.consumed"))

second_appended :
    append digest_of after_first.1 (entry_of "audit_2" "approval.consumed") ≡ ok after_second
unfolding append append_on append_new append_again next_link set_at write_event put same_entry
second_appended = refl

empty-Chained : (o : String) → Chained digest_of empty_audit o
empty-Chained o = record { linked = tt; newest = refl }

History-Chained_example : Chained digest_of after_second.1 "org_1"
History-Chained_example =
    History-Chained digest_of
      (then_append (entry_of "audit_2" "approval.consumed")
        (then_append (entry_of "audit_1" "approval.requested") nothing_appended first_appended)
        second_appended)
      empty-Chained "org_1"

append_replay_example :
    append digest_of after_first.1 (entry_of "audit_1" "approval.requested") ≡ ok after_first
append_replay_example =
    append_replay digest_of empty_audit after_first.1 (entry_of "audit_1" "approval.requested")
      after_first.0 refl first_appended

-- The same event under another identifier, which the digest does not cover.
abbrev renamed_first : AuditEvent × AuditDb
renamed_first = appended (append digest_of empty_audit (entry_of "audit_9" "approval.requested"))

renamed_appended :
    append digest_of empty_audit (entry_of "audit_9" "approval.requested") ≡ ok renamed_first
unfolding append append_on append_new append_again next_link set_at write_event put same_entry
renamed_appended = refl

abbrev renamed : AuditEvent
renamed = record placeholder { id = "audit_9" }

first_events : after_first.1.events "org_1" ≡ placeholder ∷ []
unfolding append append_on append_new append_again next_link set_at write_event put same_entry
first_events = refl

renamed_events : renamed_first.1.events "org_1" ≡ renamed ∷ []
unfolding append append_on append_new append_again next_link set_at write_event put same_entry
renamed_events = refl

first_head : after_first.1.heads "org_1" ≡ some (head_of placeholder)
unfolding append append_on append_new append_again next_link set_at write_event put same_entry
first_head = refl

renamed_head : renamed_first.1.heads "org_1" ≡ some (head_of renamed)
unfolding append append_on append_new append_again next_link set_at write_event put same_entry
renamed_head = refl

one_each : NoCollision digest_of (placeholder ∷ []) (renamed ∷ [])
one_each zero x y hx hy h =
    let ex : x ≡ placeholder = ground arith in
    let ey : y ≡ renamed = ground arith in
    ap (λ (e : AuditEvent). e.fields) ex ∙ sym (ap (λ (e : AuditEvent). e.fields) ey)
one_each (suc i) x y hx hy h = cc

same_head_same_fields_example :
    fields_of (after_first.1.events "org_1") ≡ fields_of (renamed_first.1.events "org_1")
same_head_same_fields_example =
    same_head_same_fields digest_of empty_audit after_first.1 empty_audit renamed_first.1 "org_1"
      (head_of placeholder) (head_of renamed) empty-Chained empty-Chained
      (then_append (entry_of "audit_1" "approval.requested") nothing_appended first_appended)
      (then_append (entry_of "audit_9" "approval.requested") nothing_appended renamed_appended)
      (subst₂ (NoCollision digest_of) (sym first_events) (sym renamed_events) one_each) first_head
      renamed_head refl
