-- ===== src/Broker/Attempts/Steps.antt =====
-- What a transaction of server/broker/storage.py does to an attempt.
use uumi.Prelude.{
  Bool-cases, Option, String, ap, arith, false, inl, inr, list_eq, nat_eq, none, option_eq, refl,
  some, string_eq, subst, sym, true, ℕ, ◌≡◌, ◌⊎◌,
}
use uumi.Errors.{>>=-eq-ok, ok, ok-injective, reject_if-eq-ok, require-eq-ok, resource_conflict}
use uumi.Store.{put}
use uumi.Broker.Attempts.{
  AttemptOp, AttemptStatus, Attempts, ToolAttempt, ToolRequest, ToolResult, begin, begin_on, begins,
  belongs_to, cannot_reclaim, changes_checkpoint, checkpoints, finish, finished_attempt, finishes,
  is_running, is_valid_attempt, load_attempt, new_attempt, read_attempt, reclaim, reclaims,
  run_attempt, same_result, settled_already, store, store_checkpoint, stored,
}

-- What no transaction changes in an attempt.
pub record SameAttempt (a b : ToolAttempt) : Type 0 where
  pub same_id : b.id ≡ a.id
  pub same_organisation : b.organisation_id ≡ a.organisation_id
  pub same_run : b.run_id ≡ a.run_id
  pub same_tool : b.tool ≡ a.tool
  pub same_digest : b.request_digest ≡ a.request_digest
  pub same_reconciliation : b.reconciliation ≡ a.reconciliation
  pub same_start : b.started_at ≡ a.started_at

-- What has a new lease, a checkpoint or a result is the same attempt.
leased-SameAttempt : (a : ToolAttempt) (n : ℕ) → SameAttempt a (record a { lease_expires_at = n })
leased-SameAttempt a n = record {
  same_id = refl;
  same_organisation = refl;
  same_run = refl;
  same_tool = refl;
  same_digest = refl;
  same_reconciliation = refl;
  same_start = refl;
}

ended-SameAttempt :
    (a : ToolAttempt) (s : AttemptStatus) (r c : Option ToolResult) (at : Option ℕ)
    → SameAttempt a (record a { status = s; result = r; checkpoint = c; completed_at = at })
ended-SameAttempt a s r c at = record {
  same_id = refl;
  same_organisation = refl;
  same_run = refl;
  same_tool = refl;
  same_digest = refl;
  same_reconciliation = refl;
  same_start = refl;
}

pub data AttemptStep (t t' : Attempts) : Type 0 where
  left_alone : t' ≡ t → AttemptStep t t'
  begun :
      (o i : String) (a : ToolAttempt)
      → t o i ≡ none
      → is_valid_attempt a ≡ true
      → t' ≡ put t o i a
      → AttemptStep t t'
  -- A running attempt gets another lease, a checkpoint or its result.
  moved_on :
      (o i : String) (a b : ToolAttempt)
      → t o i ≡ some a
      → is_running a.status ≡ true
      → is_valid_attempt b ≡ true
      → SameAttempt a b
      → t' ≡ put t o i b
      → AttemptStep t t'

read_attempt-ok :
    (d : Option ToolAttempt) {a : ToolAttempt}
    → read_attempt d ≡ ok a
    → (d ≡ some a) × (is_valid_attempt a ≡ true)
unfolding read_attempt
read_attempt-ok none h = cc
read_attempt-ok (some a) h = elim (Bool-cases (is_valid_attempt a)) [
  | inl valid ↦
      let same = ok-injective (rw valid at h) in
      (ap some same, subst (λ x. is_valid_attempt x ≡ true) same valid)
  | inr broken ↦ let bad = rw broken at h in cc
]

-- What has been read when a call goes on.
pub load_attempt-ok :
    (t : Attempts) (request : ToolRequest) (hash : String) {a : ToolAttempt}
    → load_attempt t request hash ≡ ok a
    → (stored t request ≡ some a) × (is_valid_attempt a ≡ true) × (belongs_to a request hash ≡ true)
unfolding load_attempt
load_attempt-ok t request hash {a} h =
    let (current, read, h1) = >>=-eq-ok (read_attempt (stored t request)) _ h in
    let (belongs, h2) = require-eq-ok (belongs_to current request hash) resource_conflict _ h1 in
    let same = ok-injective h2 in
    let (at, valid) = read_attempt-ok (stored t request) read in
    subst
      (λ x.
        (stored t request ≡ some x)
        × (is_valid_attempt x ≡ true)
        × (belongs_to x request hash ≡ true))
      same (at, valid, belongs)

begin_on-step :
    (t t' : Attempts) (request : ToolRequest) (hash : String) (new : ToolAttempt)
    (d : Option ToolAttempt)
    → stored t request ≡ d
    → is_valid_attempt new ≡ true
    → begin_on t request hash new d ≡ ok t'
    → AttemptStep t t'
unfolding begin_on
begin_on-step t t' request hash new none at valid h =
    begun request.organisation_id request.id new at valid (sym (ok-injective h))
begin_on-step t t' request hash new (some a) at valid h =
    let (current, _, bad) = >>=-eq-ok (load_attempt t request hash) _ h in cc

begin-step :
    (t t' : Attempts) (request : ToolRequest) (hash reconciliation : String) (now expiry : ℕ)
    → begin t request hash reconciliation now expiry ≡ ok t'
    → AttemptStep t t'
unfolding begin
begin-step t t' request hash reconciliation now expiry h =
    begin_on-step t t' request hash (new_attempt request hash reconciliation now expiry)
      (stored t request) refl (unfold is_valid_attempt new_attempt in refl) h

reclaim-step :
    (t t' : Attempts) (request : ToolRequest) (hash : String) (expected now expiry : ℕ)
    → reclaim t request hash expected now expiry ≡ ok t'
    → AttemptStep t t'
unfolding reclaim is_valid_attempt
reclaim-step t t' request hash expected now expiry h =
    let (a, loaded, h1) = >>=-eq-ok (load_attempt t request hash) _ h in
    let (at, valid, _) = load_attempt-ok t request hash loaded in
    let (free, h2) = reject_if-eq-ok (cannot_reclaim a expected now) resource_conflict _ h1 in
    moved_on request.organisation_id request.id a (record a { lease_expires_at = expiry }) at
      (ground (arith, free)) valid (leased-SameAttempt a expiry) (sym (ok-injective h2))

-- A terminal attempt is left as it is.
settled-left_alone :
    (t : Attempts) (a : ToolAttempt) (result : ToolResult) {t' : Attempts}
    → settled_already t a result ≡ ok t'
    → (t' ≡ t) × (same_result a.result result ≡ true)
settled-left_alone t a result h = elim (Bool-cases (same_result a.result result)) [
  | inl same ↦ (sym (ok-injective (rw same at h)), same)
  | inr other ↦ let bad = rw other at h in cc
]

checkpoint-step :
    (t t' : Attempts) (request : ToolRequest) (hash : String) (result : ToolResult)
    → store_checkpoint t request hash result ≡ ok t'
    → AttemptStep t t'
unfolding store_checkpoint is_valid_attempt
checkpoint-step t t' request hash result h =
    let (a, loaded, h1) = >>=-eq-ok (load_attempt t request hash) _ h in
    let (at, valid, _) = load_attempt-ok t request hash loaded in
    elim (Bool-cases (is_running a.status)) [
      | inr ended ↦ left_alone (settled-left_alone t a result (rw ended at h1)).0
      | inl runs ↦
          let (_, h2) =
            reject_if-eq-ok (changes_checkpoint a.checkpoint result) resource_conflict _
              (rw runs at h1) in
          moved_on request.organisation_id request.id a (record a { checkpoint = some result }) at
            runs (ground (arith, valid, runs))
            (ended-SameAttempt a a.status a.result (some result) a.completed_at)
            (sym (ok-injective h2))
    ]

pub finished-valid :
    (a : ToolAttempt) (result : ToolResult) (now : ℕ)
    → (is_valid_attempt (finished_attempt a result now) ≡ true)
      × (is_running (finished_attempt a result now).status ≡ false)
unfolding is_valid_attempt finished_attempt
finished-valid a result now = elim (Bool-cases result.succeeded) [
  | inl good ↦ (rw good refl, rw good refl)
  | inr bad ↦ (rw bad refl, rw bad refl)
]

-- A call of `finish` that succeeds finds the attempt terminal with this result, or makes it so.
pub finish-outcome :
    (t t' : Attempts) (request : ToolRequest) (hash : String) (result : ToolResult) (now : ℕ)
    → finish t request hash result now ≡ ok t'
    → (a : ToolAttempt) × (stored t request ≡ some a)
      × (is_valid_attempt a ≡ true)
      × (belongs_to a request hash ≡ true)
      × ((is_running a.status ≡ false) × (t' ≡ t) × (same_result a.result result ≡ true)
          ⊎ (is_running a.status ≡ true) × (t' ≡ store t request (finished_attempt a result now)))
unfolding finish
finish-outcome t t' request hash result now h =
    let (a, loaded, h1) = >>=-eq-ok (load_attempt t request hash) _ h in
    let (at, valid, belongs) = load_attempt-ok t request hash loaded in
    (
      a,
      at,
      valid,
      belongs,
      elim (Bool-cases (is_running a.status)) [
        | inr ended ↦
            let (same, answers) = settled-left_alone t a result (rw ended at h1) in
            inl (ended, same, answers)
        | inl runs ↦ inr (runs, sym (ok-injective (rw runs at h1)))
      ],
    )

finish-step :
    (t t' : Attempts) (request : ToolRequest) (hash : String) (result : ToolResult) (now : ℕ)
    → finish t request hash result now ≡ ok t'
    → AttemptStep t t'
unfolding finished_attempt
finish-step t t' request hash result now h =
    let (a, at, valid, _, outcome) = finish-outcome t t' request hash result now h in
    elim outcome [
      | inl (ended, same, _) ↦ left_alone same
      | inr (runs, changed) ↦
          moved_on request.organisation_id request.id a (finished_attempt a result now) at runs
            (finished-valid a result now).0 (ended-SameAttempt a _ (some result) none (some now))
            changed
    ]

-- Every transaction that succeeds is one of the three steps.
pub run_attempt-step :
    (t t' : Attempts) (request : ToolRequest) (hash : String) (op : AttemptOp)
    → run_attempt t request hash op ≡ ok t'
    → AttemptStep t t'
unfolding run_attempt
run_attempt-step t t' request hash (begins reconciliation now expiry) h =
    begin-step t t' request hash reconciliation now expiry h
run_attempt-step t t' request hash (reclaims expected now expiry) h =
    reclaim-step t t' request hash expected now expiry h
run_attempt-step t t' request hash (checkpoints result) h =
    checkpoint-step t t' request hash result h
run_attempt-step t t' request hash (finishes result now) h =
    finish-step t t' request hash result now h
