-- ===== src/Approvals/Lifecycle.antt =====
-- What becomes of one approval under the transactions of server/core/storage/approval.py.
use uumi.Prelude.{
  Bool-cases, Option, String, ap, arith, false, inl, inr, is_some, nat_eq, none, option_eq, refl,
  some, string_eq, subst, subst₂, sym, true, ℕ, ◌+◌, ◌==◌, ◌∙◌, ◌≡◌, ◌≤◌,
}
use uumi.Errors.{
  >>=-eq-ok, Error, Result, err, ok, reject_if-eq-ok, require-eq-ok, resource_conflict, validation,
}
use uumi.Approvals.{
  Approval, ApprovalDb, ApprovalDecision, Bindings, ProtectedAction, bindings_of, consume,
  consume_loaded, create_again, create_approval, create_new, create_on, decide, decide_loaded,
  decided, is_valid_approval, load, same_decision,
}
use uumi.Store.{get-put, put}

-- A call of one of the three transactions.
pub data ApprovalOp : Type 0 where
  create_op : Approval → ProtectedAction → ApprovalOp
  decide_op : String → String → ℕ → ApprovalDecision → String → ℕ → ApprovalOp
  consume_op : String → String → Bindings → ℕ → ApprovalOp

unfoldable pub run_approval_op : ApprovalDb → ApprovalOp → Result (Approval × ApprovalDb)
run_approval_op db (create_op approval action) = create_approval db approval action
run_approval_op db (decide_op org id rev decision actor now) =
    decide db org id rev decision actor now
run_approval_op db (consume_op org id presented now) = consume db org id presented now

-- What an approval may become: what it binds stays, a decision is taken once and stays, and the
-- consumption happens once and ends the changes.
pub record Evolves (a a' : Approval) : Type 0 where
  pub bound : bindings_of a' ≡ bindings_of a
  pub expiry : a'.expires_at ≡ a.expires_at
  pub grows : a.revision ≤ a'.revision
  pub decided_once :
      same_decision a.decision ApprovalDecision.pending ≡ false
      → (a'.decision ≡ a.decision)
        × (a'.approver_id ≡ a.approver_id)
        × (a'.decided_at ≡ a.decided_at)
  pub consumed_once : is_some a.consumed_at ≡ true → a' ≡ a

stays : (a : Approval) → Evolves a a
stays a = record {
  bound = refl;
  expiry = refl;
  grows = ground arith;
  decided_once = λ h. (refl, refl, refl);
  consumed_once = λ h. refl;
}

Evolves-trans : {a b c : Approval} → Evolves a b → Evolves b c → Evolves a c
Evolves-trans {a} {b} {c} p q = record {
  bound = q.bound ∙ p.bound;
  expiry = q.expiry ∙ p.expiry;
  grows = let l = p.grows in let m = q.grows in ground arith;
  decided_once = λ h.
      let (d, x, t) = p.decided_once h in
      let (d', x', t') =
        q.decided_once (subst (λ v. same_decision v ApprovalDecision.pending ≡ false) (sym d) h) in
      (d' ∙ d, x' ∙ x, t' ∙ t);
  consumed_once = λ h.
      let e = p.consumed_once h in
      q.consumed_once (subst (λ (v : Approval). is_some v.consumed_at ≡ true) (sym e) h) ∙ e;
}

pub data ApprovalStep (db db' : ApprovalDb) : Type 0 where
  left_alone : db' ≡ db → ApprovalStep db db'
  written :
      (o i : String) (a : Approval)
      → db.approvals o i ≡ none
      → db'.approvals ≡ put db.approvals o i a
      → ApprovalStep db db'
  rewritten :
      (o i : String) (a a' : Approval)
      → db.approvals o i ≡ some a
      → Evolves a a'
      → db'.approvals ≡ put db.approvals o i a'
      → ApprovalStep db db'

pub load-ok :
    (d : Option Approval) {a : Approval}
    → load d ≡ ok a
    → (d ≡ some a) × (is_valid_approval a ≡ true)
unfolding load
load-ok none h = cc
load-ok (some a) {a = b} h =
    let (valid, e) = require-eq-ok (is_valid_approval a) validation (ok a) h in
    let same : a ≡ b = ground arith in
    (ap (λ x. some x) same, subst (λ x. is_valid_approval x ≡ true) same valid)

pair_db :
    {a b : Approval} {x y : ApprovalDb}
    → ◌≡◌ {A = Result (Approval × ApprovalDb)} (ok (a, x)) (ok (b, y))
    → y ≡ x
pair_db h = ground arith

create-step :
    (db : ApprovalDb) (approval : Approval) (action : ProtectedAction) (d : Option Approval)
    {a : Approval} {db' : ApprovalDb}
    → db.approvals approval.organisation_id approval.id ≡ d
    → create_on db approval action d ≡ ok (a, db')
    → ApprovalStep db db'
unfolding create_new create_again
create-step db approval action none at h =
    let (_, h') =
      reject_if-eq-ok (is_some (db.actions approval.organisation_id action.id)) resource_conflict _
        h in
    written approval.organisation_id approval.id approval at
      (ap (λ (x : ApprovalDb). x.approvals) (pair_db h'))
create-step db approval action (some x) at h =
    let (c, l, h') = >>=-eq-ok (load (some x)) _ h in
    let (_, h'') = require-eq-ok _ resource_conflict _ h' in left_alone (pair_db h'')

decided-Evolves :
    (a : Approval) (decision : ApprovalDecision) (actor : String) (now : ℕ)
    → is_valid_approval a ≡ true
    → same_decision a.decision ApprovalDecision.pending ≡ true
    → Evolves a (decided a decision actor now)
unfolding decided is_valid_approval
decided-Evolves a decision actor now valid open_one = record {
  bound = refl;
  expiry = refl;
  grows = ground arith;
  decided_once = λ h. ground arith;
  consumed_once = λ h. ground arith;
}

abbrev consumed_approval : Approval → ℕ → Approval
consumed_approval a now = record a { consumed_at = some now; revision = a.revision + 1 }

consumed-Evolves :
    (a : Approval) (now : ℕ) → is_some a.consumed_at ≡ false → Evolves a (consumed_approval a now)
consumed-Evolves a now fresh = record {
  bound = refl;
  expiry = refl;
  grows = ground arith;
  decided_once = λ h. (refl, refl, refl);
  consumed_once = λ h. cc;
}

decide-step :
    (db : ApprovalDb) (o i : String) (rev : ℕ) (decision : ApprovalDecision) (actor : String)
    (now : ℕ) {a : Approval} {db' : ApprovalDb}
    → decide db o i rev decision actor now ≡ ok (a, db')
    → ApprovalStep db db'
unfolding decide decide_loaded decided
decide-step db o i rev decision actor now {db' = db'} h =
    let (c, l, h1) = >>=-eq-ok (load (db.approvals o i)) _ h in
    let (at, valid) = load-ok (db.approvals o i) l in
    let (_, h2) = require-eq-ok (c.revision == rev) resource_conflict _ h1 in
    elim (Bool-cases (same_decision c.decision ApprovalDecision.pending)) [
      | inl open_one ↦
          rewritten o i c (decided c decision actor now) at
            (decided-Evolves c decision actor now valid open_one) (ground arith)
      | inr closed ↦ left_alone (ground arith)
    ]

consume-step :
    (db : ApprovalDb) (o i : String) (presented : Bindings) (now : ℕ) {a : Approval}
    {db' : ApprovalDb}
    → consume db o i presented now ≡ ok (a, db')
    → ApprovalStep db db'
unfolding consume consume_loaded
consume-step db o i presented now {db' = db'} h =
    let (c, l, h1) = >>=-eq-ok (load (db.approvals o i)) _ h in
    let (at, valid) = load-ok (db.approvals o i) l in
    elim (Bool-cases (is_some c.consumed_at)) [
      | inl used ↦ left_alone (ground arith)
      | inr fresh ↦
          rewritten o i c (consumed_approval c now) at (consumed-Evolves c now fresh) (ground arith)
    ]

approval-step :
    (db : ApprovalDb) (op : ApprovalOp) {a : Approval} {db' : ApprovalDb}
    → run_approval_op db op ≡ ok (a, db')
    → ApprovalStep db db'
unfolding run_approval_op create_approval
approval-step db (create_op approval action) h =
    create-step db approval action (db.approvals approval.organisation_id approval.id) refl h
approval-step db (decide_op o i rev decision actor now) h =
    decide-step db o i rev decision actor now h
approval-step db (consume_op o i presented now) h = consume-step db o i presented now h

step-Evolves :
    {db db' : ApprovalDb}
    → ApprovalStep db db'
    → (o i : String) (a : Approval) → db.approvals o i ≡ some a
    → (a' : Approval) × ((db'.approvals o i ≡ some a') × Evolves a a')
step-Evolves (left_alone e) o i a at =
    (a, (subst (λ (x : ApprovalDb). x.approvals o i ≡ some a) (sym e) at, stays a))
step-Evolves {db} (written o' i' b none_there now) o i a at =
    elim (get-put db.approvals o' i' b o i) [
      | inl (eo, ei, here_now) ↦
          let gone = subst₂ (λ x y. db.approvals x y ≡ none) eo ei none_there in cc
      | inr (other, same) ↦ (a, (subst (λ t. t o i ≡ some a) (sym now) (same ∙ at), stays a))
    ]
step-Evolves {db} (rewritten o' i' b b' there e now) o i a at =
    elim (get-put db.approvals o' i' b' o i) [
      | inl (eo, ei, after) ↦
          let found_b = subst₂ (λ x y. db.approvals x y ≡ some b) eo ei there in
          let same : b ≡ a = ground arith in
          (b', (subst (λ t. t o i ≡ some b') (sym now) after, subst (λ x. Evolves x b') same e))
      | inr (other, same) ↦ (a, (subst (λ t. t o i ≡ some a) (sym now) (same ∙ at), stays a))
    ]

-- A sequence of transactions, those that fail included.
pub data ApprovalHistory (db : ApprovalDb) : ApprovalDb → Type 0 where
  no_calls : ApprovalHistory db db
  then_call :
      {db' db'' : ApprovalDb} {a : Approval} (op : ApprovalOp)
      → ApprovalHistory db db'
      → run_approval_op db' op ≡ ok (a, db'')
      → ApprovalHistory db db''
  then_refusal :
      {db' : ApprovalDb} (op : ApprovalOp) (e : Error)
      → ApprovalHistory db db'
      → run_approval_op db' op ≡ err e
      → ApprovalHistory db db'

-- After any sequence of creations, decisions and consumptions, those that are refused included, an
-- approval that was stored is still stored: its bindings and its expiry are those it had, its
-- revision has not gone down, a decision it had (with the approver and the time) is unchanged, and
-- if it had been consumed it has not changed at all.
pub ApprovalHistory-Evolves :
    {db db' : ApprovalDb}
    → ApprovalHistory db db'
    → (o i : String) (a : Approval) → db.approvals o i ≡ some a
    → (a' : Approval) × ((db'.approvals o i ≡ some a') × Evolves a a')
ApprovalHistory-Evolves no_calls o i a at = (a, (at, stays a))
ApprovalHistory-Evolves (then_call {db'} op before h) o i a at =
    let (b, (atb, e)) = ApprovalHistory-Evolves before o i a at in
    let (c, (atc, e')) = step-Evolves (approval-step db' op h) o i b atb in
    (c, (atc, Evolves-trans e e'))
ApprovalHistory-Evolves (then_refusal op e before h) o i a at =
    ApprovalHistory-Evolves before o i a at
