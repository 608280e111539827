-- ===== src/Examples/ApprovalTests.antt =====
-- The theorems on server/core/storage/approval.py at one approval that is decided and consumed.
use uumi.Approvals.Grant.{AllValid, Granted, consume-Granted}
use uumi.Approvals.Lifecycle.{
  ApprovalHistory, ApprovalHistory-Evolves, Evolves, consume_op, decide_op, no_calls,
  run_approval_op, then_call,
}
use uumi.Approvals.{
  Approval, ApprovalDb, ApprovalDecision, Bindings, ProtectedAction, bindings_of, consume,
  consume_loaded, create_again, create_approval, create_new, decide, decide_loaded, decided,
  is_valid_approval, load, submit_decision,
}
use uumi.Prelude.{
  arith, inl, inr, nat_eq, none, option_eq, refl, some, string_eq, subst, sym, true, ◌∙◌, ◌≡◌,
}
use uumi.Errors.{Result, err, ok}
use uumi.Store.{get-put, put}

abbrev request : Approval
request = record {
  id = "approval_1";
  organisation_id = "org_1";
  run_id = "run_1";
  action_id = "action_1";
  action_digest = "digest_1";
  plan_hash = "plan_1";
  evidence_hash = "evidence_1";
  generation_id = "generation_2";
  requested_by = "worker_1";
  capability_hash = "capability_1";
  decision = ApprovalDecision.pending;
  approver_id = none;
  expires_at = 100;
  created_at = 1;
  decided_at = none;
  consumed_at = none;
  revision = 0;
}

abbrev revocation : ProtectedAction
revocation = record {
  id = "action_1";
  organisation_id = "org_1";
  run_id = "run_1";
  kind = "revoke";
  resource = "keys/1";
  credential_id = "cred_1";
  generation_id = "generation_2";
  provider_id = "provider_1";
  control_version = "control_1";
  playbook_version = none;
  plan_hash = "plan_1";
  evidence_hash = "evidence_1";
  preconditions = "{}";
  parameters = "{}";
}

abbrev no_approvals : ApprovalDb
no_approvals = record { approvals = λ o i. none; actions = λ o i. none }

abbrev ended : Result (Approval × ApprovalDb) → Approval × ApprovalDb
ended (ok r) = r
ended (err e) = (request, no_approvals)

abbrev requested : Approval × ApprovalDb
requested = ended (create_approval no_approvals request revocation)

requests : create_approval no_approvals request revocation ≡ ok requested
unfolding run_approval_op create_approval create_new create_again load is_valid_approval decided
    decide decide_loaded consume consume_loaded submit_decision put
requests = refl

abbrev approval_granted : Approval × ApprovalDb
approval_granted =
    ended
      (submit_decision requested.1 "org_1" "approval_1" 0 ApprovalDecision.approved "owner_1" 10)

grants :
    submit_decision requested.1 "org_1" "approval_1" 0 ApprovalDecision.approved "owner_1" 10
    ≡ ok approval_granted
unfolding run_approval_op create_approval create_new create_again load is_valid_approval decided
    decide decide_loaded consume consume_loaded submit_decision put
grants = refl

decides :
    run_approval_op requested.1
      (decide_op "org_1" "approval_1" 0 ApprovalDecision.approved "owner_1" 10)
    ≡ ok approval_granted
unfolding run_approval_op create_approval create_new create_again load is_valid_approval decided
    decide decide_loaded consume consume_loaded submit_decision put
decides = refl

abbrev shown : Bindings
shown = bindings_of request

abbrev spent : Approval × ApprovalDb
spent = ended (consume approval_granted.1 "org_1" "approval_1" shown 20)

consumes : consume approval_granted.1 "org_1" "approval_1" shown 20 ≡ ok spent
unfolding run_approval_op create_approval create_new create_again load is_valid_approval decided
    decide decide_loaded consume consume_loaded submit_decision put
consumes = refl

consumes_op :
    run_approval_op approval_granted.1 (consume_op "org_1" "approval_1" shown 20) ≡ ok spent
unfolding run_approval_op create_approval create_new create_again load is_valid_approval decided
    decide decide_loaded consume consume_loaded submit_decision put
consumes_op = refl

to_the_end : ApprovalHistory requested.1 spent.1
to_the_end =
    then_call (consume_op "org_1" "approval_1" shown 20)
      (then_call (decide_op "org_1" "approval_1" 0 ApprovalDecision.approved "owner_1" 10) no_calls
        decides)
      consumes_op

request_stored : requested.1.approvals "org_1" "approval_1" ≡ some request
unfolding run_approval_op create_approval create_new create_again load is_valid_approval decided
    decide decide_loaded consume consume_loaded submit_decision put
request_stored = refl

ApprovalHistory-Evolves_example :
    (a : Approval) × ((spent.1.approvals "org_1" "approval_1" ≡ some a) × Evolves request a)
ApprovalHistory-Evolves_example =
    ApprovalHistory-Evolves to_the_end "org_1" "approval_1" request request_stored

consume-Granted_example : Granted approval_granted.1 "org_1" "approval_1" shown
consume-Granted_example =
    consume-Granted approval_granted.1 "org_1" "approval_1" shown 20 spent.0 spent.1 consumes

granted_stored : approval_granted.1.approvals "org_1" "approval_1" ≡ some approval_granted.0
unfolding run_approval_op create_approval create_new create_again load is_valid_approval decided
    decide decide_loaded consume consume_loaded submit_decision put
granted_stored = refl

granted_unused : approval_granted.0.consumed_at ≡ none
unfolding run_approval_op create_approval create_new create_again load is_valid_approval decided
    decide decide_loaded consume consume_loaded submit_decision put
granted_unused = refl

requested-AllValid : AllValid requested.1
unfolding run_approval_op create_approval create_new create_again load is_valid_approval decided
    decide decide_loaded consume consume_loaded submit_decision put
requested-AllValid o i a h = elim (get-put (λ o i. none) "org_1" "approval_1" request o i) [
  | inl (eo, ei, now) ↦
      let same : a ≡ request = ground arith in
      subst (λ v. is_valid_approval v ≡ true) (sym same) refl
  | inr (other, nowhere) ↦ let bad = sym nowhere ∙ h in cc
]
