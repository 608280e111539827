-- ===== src/Approvals/Grant.antt =====
-- What the consumption of an approval relies on: server/core/storage/approval.py consume, and the
-- decision of server/core/approval/service.py.
use uumi.Prelude.{
  Bool-cases, String, ap, arith, eq_iff, false, inl, inr, is_some, leb, nat_eq, none, not,
  option_eq, some, string_eq, subst, sym, true, ℕ, ◌&&◌, ◌+◌, ◌<◌, ◌==◌, ◌∙◌, ◌≡◌, ◌≤◌,
}
use uumi.Approvals.Lifecycle.{load-ok}
use uumi.Errors.{
  >>=-eq-ok, approval_rejected, ok, reject_if-eq-ok, require-eq-ok, resource_conflict,
}
use uumi.Approvals.{
  Approval, ApprovalDb, ApprovalDecision, Bindings, ProtectedAction, bindings_beq, bindings_of,
  consume, consume_loaded, decide, decide_loaded, decided, is_valid_approval, load, same_decision,
  submit_decision,
}
use uumi.Store.{Table, get-put, get-put_self, put}

-- An approval that is stored, granted, and bound to what is presented.
pub record Granted (db : ApprovalDb) (o i : String) (presented : Bindings) : Type 0 where
  pub approval : Approval
  pub stored : db.approvals o i ≡ some approval
  pub was_approved : approval.decision ≡ ApprovalDecision.approved
  pub in_time : (t : ℕ) → approval.decided_at ≡ some t → t ≤ approval.expires_at
  pub same_bindings : presented ≡ bindings_of approval

bindings_beq_iff : (b c : Bindings) → bindings_beq b c ≡ true → b ≡ c
bindings_beq_iff b c h = ground (
  arith,
  eq_iff b.capability_hash c.capability_hash,
  eq_iff b.action_digest c.action_digest,
  eq_iff b.plan_hash c.plan_hash,
  eq_iff b.evidence_hash c.evidence_hash,
)

approved_code :
    (d : ApprovalDecision)
    → same_decision d ApprovalDecision.approved ≡ true
    → d ≡ ApprovalDecision.approved
approved_code d h = ground arith

valid_in_time :
    (a : Approval)
    → is_valid_approval a ≡ true
    → a.decision ≡ ApprovalDecision.approved
    → (t : ℕ) → a.decided_at ≡ some t
    → t ≤ a.expires_at
unfolding is_valid_approval
valid_in_time a valid granted t at = ground arith

-- Both branches of a consumption compare the digests, and a consumed approval was granted.
consume_checks :
    (db : ApprovalDb) (o i : String) (c : Approval) (presented : Bindings) (now : ℕ) {a : Approval}
    {db' : ApprovalDb}
    → is_valid_approval c ≡ true
    → consume_loaded db o i c presented now ≡ ok (a, db')
    → (bindings_beq presented (bindings_of c) ≡ true)
      × (same_decision c.decision ApprovalDecision.approved ≡ true)
unfolding consume_loaded is_valid_approval
consume_checks db o i c presented now valid h = elim (Bool-cases (is_some c.consumed_at)) [
  | inl used ↦ (ground arith, ground arith)
  | inr fresh ↦ (ground arith, ground arith)
]

-- A consumption that succeeds, the first one or a repeated one, finds an approval that is stored,
-- approved, decided no later than it expires, and whose capability, action, plan and evidence digests
-- are those presented.
pub consume-Granted :
    (db : ApprovalDb) (o i : String) (presented : Bindings) (now : ℕ) (a : Approval)
    (db' : ApprovalDb)
    → consume db o i presented now ≡ ok (a, db')
    → Granted db o i presented
unfolding consume
consume-Granted db o i presented now a db' h =
    let (c, l, h1) = >>=-eq-ok (load (db.approvals o i)) _ h in
    let (at, valid) = load-ok (db.approvals o i) l in
    let (same, granted) = consume_checks db o i c presented now valid h1 in
    let approved_one = approved_code c.decision granted in
    record {
      approval = c;
      stored = at;
      was_approved = approved_one;
      in_time = valid_in_time c valid approved_one;
      same_bindings = bindings_beq_iff presented (bindings_of c) same;
    }

consume_fresh :
    (db : ApprovalDb) (o i : String) (c : Approval) (presented : Bindings) (now : ℕ) {a : Approval}
    {db' : ApprovalDb}
    → is_some c.consumed_at ≡ false
    → consume_loaded db o i c presented now ≡ ok (a, db')
    → (now < c.expires_at)
      × (a.consumed_at ≡ some now)
      × (db' ≡ record db { approvals = put db.approvals o i a })
unfolding consume_loaded
consume_fresh db o i c presented now fresh h = (ground arith, ground arith, ground arith)

-- A consumption that succeeds on a stored approval that has not been consumed happens before the
-- approval expires; the approval that it returns carries the time of consumption and is stored.
consume_in_time :
    (db : ApprovalDb) (o i : String) (presented : Bindings) (now : ℕ) (c a : Approval)
    (db' : ApprovalDb)
    → db.approvals o i ≡ some c
    → c.consumed_at ≡ none
    → consume db o i presented now ≡ ok (a, db')
    → (now < c.expires_at) × (a.consumed_at ≡ some now) × (db'.approvals o i ≡ some a)
unfolding consume
consume_in_time db o i presented now c a db' at fresh h =
    let (d, l, h1) = >>=-eq-ok (load (db.approvals o i)) _ h in
    let (there, valid) = load-ok (db.approvals o i) l in
    let found_one = sym there ∙ at in
    let same : d ≡ c = ground arith in
    let unused = ap (λ (x : Approval). is_some x.consumed_at) same ∙ ap is_some fresh in
    let (early, marked, after) = consume_fresh db o i d presented now unused h1 in
    (
      subst (λ (x : Approval). now < x.expires_at) same early,
      marked,
      subst (λ (x : ApprovalDb). x.approvals o i ≡ some a) (sym after)
          (get-put_self db.approvals o i a),
    )

-- Every stored approval passes its validator.
abbrev pub AllValid : ApprovalDb → Type 0
AllValid db = (o i : String) (a : Approval) → db.approvals o i ≡ some a → is_valid_approval a ≡ true

put-AllValid :
    (db : ApprovalDb) (o i : String) (a : Approval) (t : Table ProtectedAction)
    → is_valid_approval a ≡ true
    → AllValid db
    → AllValid (record { approvals = put db.approvals o i a; actions = t })
put-AllValid db o i a t valid before o' i' x hx = elim (get-put db.approvals o i a o' i') [
  | inl (eo, ei, now) ↦
      let same : x ≡ a = ground arith in subst (λ v. is_valid_approval v ≡ true) (sym same) valid
  | inr (other, kept) ↦ before o' i' x (sym kept ∙ hx)
]

decided-valid :
    (a : Approval) (decision : ApprovalDecision) (actor : String) (now : ℕ)
    → is_valid_approval a ≡ true
    → same_decision a.decision ApprovalDecision.pending ≡ true
    → same_decision decision ApprovalDecision.pending ≡ false
    → (not (same_decision decision ApprovalDecision.cancelled) && leb a.expires_at now) ≡ false
    → is_valid_approval (decided a decision actor now) ≡ true
unfolding is_valid_approval decided
decided-valid a decision actor now valid open_one final in_time = ground arith

decide_loaded-AllValid :
    (db : ApprovalDb) (o i : String) (c : Approval) (decision : ApprovalDecision) (actor : String)
    (now : ℕ) {a : Approval} {db' : ApprovalDb}
    → is_valid_approval c ≡ true
    → same_decision decision ApprovalDecision.pending ≡ false
    → AllValid db
    → decide_loaded db o i c decision actor now ≡ ok (a, db')
    → AllValid db'
unfolding decide_loaded
decide_loaded-AllValid db o i c decision actor now {db' = db'} valid final before h =
    elim (Bool-cases (same_decision c.decision ApprovalDecision.pending)) [
      | inl open_one ↦
          let in_time : (not (same_decision decision ApprovalDecision.cancelled)
                && leb c.expires_at now)
              ≡ false =
            ground arith in
          let after : db'
              ≡ record db { approvals = put db.approvals o i (decided c decision actor now) } =
            ground arith in
          subst AllValid (sym after) (
            put-AllValid db o i (decided c decision actor now) db.actions
              (decided-valid c decision actor now valid open_one final in_time) before)
      | inr closed ↦ let after : db' ≡ db = ground arith in subst AllValid (sym after) before
    ]

consumed-valid :
    (c : Approval) (now : ℕ)
    → is_valid_approval c ≡ true
    → same_decision c.decision ApprovalDecision.approved ≡ true
    → is_valid_approval (record c { consumed_at = some now; revision = c.revision + 1 }) ≡ true
unfolding is_valid_approval
consumed-valid c now valid granted = ground arith

consume_loaded-AllValid :
    (db : ApprovalDb) (o i : String) (c : Approval) (presented : Bindings) (now : ℕ) {a : Approval}
    {db' : ApprovalDb}
    → is_valid_approval c ≡ true
    → AllValid db
    → consume_loaded db o i c presented now ≡ ok (a, db')
    → AllValid db'
unfolding consume_loaded
consume_loaded-AllValid db o i c presented now {db' = db'} valid before h =
    let (_, granted) = consume_checks db o i c presented now valid h in
    elim (Bool-cases (is_some c.consumed_at)) [
      | inl used ↦ let after : db' ≡ db = ground arith in subst AllValid (sym after) before
      | inr fresh ↦
          let c' : Approval = record c { consumed_at = some now; revision = c.revision + 1 } in
          let after : db' ≡ record db { approvals = put db.approvals o i c' } = ground arith in
          subst AllValid (sym after)
            (put-AllValid db o i c' db.actions (consumed-valid c now valid granted) before)
    ]

-- A decision that the service submits leaves every stored approval valid, although the changed
-- document is written without its validator.
submit_decision-AllValid :
    (db : ApprovalDb) (o i : String) (rev : ℕ) (decision : ApprovalDecision) (actor : String)
    (now : ℕ) (a : Approval) (db' : ApprovalDb)
    → AllValid db
    → submit_decision db o i rev decision actor now ≡ ok (a, db')
    → AllValid db'
unfolding submit_decision decide
submit_decision-AllValid db o i rev decision actor now a db' before h =
    let (final, h0) =
      reject_if-eq-ok (same_decision decision ApprovalDecision.pending) approval_rejected _ h in
    let (c, l, h1) = >>=-eq-ok (load (db.approvals o i)) _ h0 in
    let (at, valid) = load-ok (db.approvals o i) l in
    let (_, h2) = require-eq-ok (c.revision == rev) resource_conflict _ h1 in
    decide_loaded-AllValid db o i c decision actor now valid final before h2

-- A consumption leaves every stored approval valid.
pub consume-AllValid :
    (db : ApprovalDb) (o i : String) (presented : Bindings) (now : ℕ) (a : Approval)
    (db' : ApprovalDb)
    → AllValid db
    → consume db o i presented now ≡ ok (a, db')
    → AllValid db'
unfolding consume
consume-AllValid db o i presented now a db' before h =
    let (c, l, h1) = >>=-eq-ok (load (db.approvals o i)) _ h in
    let (at, valid) = load-ok (db.approvals o i) l in
    consume_loaded-AllValid db o i c presented now valid before h1
