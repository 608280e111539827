-- ===== src/Broker/Attempts/Final.antt =====
-- What the transactions of server/broker/storage.py promise the workers: a finished attempt answers
-- with its result for good, and an expired lease is taken over once.
use uumi.Prelude.{
  Bool, Option, String, ap, arith, eq_iff, false, inl, inr, list_eq, nat_eq, none, option_eq, refl,
  some, string_eq, subst, subst₂, sym, true, xnor, ℕ, ◌<◌, ◌∙◌, ◌≡◌,
}
use uumi.Errors.{>>=-eq-ok, Error, err, ok, ok-injective, reject_if-eq-ok, resource_conflict}
use uumi.Store.{get-put, get-put_self}
use uumi.Broker.Attempts.{
  AttemptOp, Attempts, ToolAttempt, ToolRequest, ToolResult, attempt, attempt_on, belongs_to,
  cannot_reclaim, finish, finished_attempt, is_running, is_valid_attempt, load_attempt,
  read_attempt, reclaim, run_attempt, same_result, stored,
}
use uumi.Broker.Attempts.Steps.{
  AttemptStep, begun, finish-outcome, finished-valid, left_alone, load_attempt-ok, moved_on,
  run_attempt-step,
}

-- The transactions of any workers, in any order, those that fail included.
pub data AttemptHistory (t : Attempts) : Attempts → Type 0 where
  no_attempt : AttemptHistory t t
  then_run :
      {t' : Attempts}
      → AttemptHistory t t'
      → (request : ToolRequest) (hash : String) (op : AttemptOp) (t'' : Attempts)
      → run_attempt t' request hash op ≡ ok t''
      → AttemptHistory t t''
  then_refused :
      {t' : Attempts}
      → AttemptHistory t t'
      → (request : ToolRequest) (hash : String) (op : AttemptOp) (e : Error)
      → run_attempt t' request hash op ≡ err e
      → AttemptHistory t t'

step-terminal :
    {t t' : Attempts} {o i : String} (a : ToolAttempt)
    → AttemptStep t t'
    → t o i ≡ some a
    → is_running a.status ≡ false
    → t' o i ≡ some a
step-terminal {o = o} {i = i} a (left_alone e) at ended = subst (λ x. x o i ≡ some a) (sym e) at
step-terminal {t} {t'} {o} {i} a (begun p q b new valid e) at ended = elim (get-put t p q b o i) [
  | inl (eo, ei, now) ↦ let none_there = subst₂ (λ x y. t x y ≡ none) eo ei new in cc
  | inr (other, same) ↦ subst (λ x. x o i ≡ some a) (sym e) (same ∙ at)
]
step-terminal {t} {t'} {o} {i} a (moved_on p q b c was runs valid kept e) at ended =
    elim (get-put t p q c o i) [
      | inl (eo, ei, now) ↦
          let there = subst₂ (λ x y. t x y ≡ some b) eo ei was in
          let same : a ≡ b = ground arith in
          let runs_too = ap (λ (x : ToolAttempt). is_running x.status) same in cc
      | inr (other, same) ↦ subst (λ x. x o i ≡ some a) (sym e) (same ∙ at)
    ]

-- A terminal attempt stays as it is, whatever transactions follow.
pub history_terminal :
    {t t' : Attempts} {o i : String} (a : ToolAttempt)
    → AttemptHistory t t'
    → t o i ≡ some a
    → is_running a.status ≡ false
    → t' o i ≡ some a
history_terminal a no_attempt at ended = at
history_terminal a (then_run {t'} w request hash op t'' h) at ended =
    step-terminal a (run_attempt-step t' t'' request hash op h) (history_terminal a w at ended)
      ended
history_terminal a (then_refused w request hash op e h) at ended = history_terminal a w at ended

xnor_self : (b : Bool) → xnor b b ≡ true
xnor_self true = refl
xnor_self false = refl

pub same_result_self : (r : ToolResult) → same_result (some r) r ≡ true
same_result_self r =
    let errors = (option_eq.equals_iff r.error_code r.error_code).1 refl in
    let evidence = (list_eq.equals_iff r.evidence_ids r.evidence_ids).1 refl in
    let id = (eq_iff r.request_id r.request_id).1 refl in
    let value = (eq_iff r.result r.result).1 refl in
    rw (id, xnor_self r.succeeded, value, errors, evidence) refl

pub load_attempt-stored :
    (t : Attempts) (request : ToolRequest) (hash : String) (a : ToolAttempt)
    → stored t request ≡ some a
    → is_valid_attempt a ≡ true
    → belongs_to a request hash ≡ true
    → load_attempt t request hash ≡ ok a
unfolding load_attempt read_attempt
load_attempt-stored t request hash a at valid belongs = rw (at, valid, belongs) refl

-- What a worker reads of an attempt that is there.
pub attempt_stored :
    (t : Attempts) (request : ToolRequest) (hash : String) (a : ToolAttempt)
    → stored t request ≡ some a
    → is_valid_attempt a ≡ true
    → belongs_to a request hash ≡ true
    → attempt t request hash ≡ ok (some a)
unfolding attempt attempt_on
attempt_stored t request hash a at valid belongs =
    let loaded = load_attempt-stored t request hash a at valid belongs in rw (at, loaded) refl

attempt_on-ok :
    (t : Attempts) (request : ToolRequest) (hash : String) (d : Option ToolAttempt)
    {a : ToolAttempt}
    → attempt_on t request hash d ≡ ok (some a)
    → load_attempt t request hash ≡ ok a
unfolding attempt_on
attempt_on-ok t request hash none h = let bad = ok-injective h in cc
attempt_on-ok t request hash (some d) h =
    let (current, loaded, h1) = >>=-eq-ok (load_attempt t request hash) _ h in
    let same = ok-injective h1 in ground (arith, loaded, same)

-- What is stored when a worker reads an attempt.
pub attempt-ok :
    (t : Attempts) (request : ToolRequest) (hash : String) {a : ToolAttempt}
    → attempt t request hash ≡ ok (some a)
    → (stored t request ≡ some a) × (is_valid_attempt a ≡ true) × (belongs_to a request hash ≡ true)
unfolding attempt
attempt-ok t request hash h =
    load_attempt-ok t request hash (attempt_on-ok t request hash (stored t request) h)

-- Once a worker has finished a request with a result, every later read of the request, whatever
-- transactions of whatever workers come in between, finds the attempt terminal with this result.
pub finished_for_good :
    (t t' t'' : Attempts) (request : ToolRequest) (hash : String) (result : ToolResult) (now : ℕ)
    → finish t request hash result now ≡ ok t'
    → AttemptHistory t' t''
    → (a : ToolAttempt) × (attempt t'' request hash ≡ ok (some a))
      × (is_running a.status ≡ false)
      × (same_result a.result result ≡ true)
finished_for_good t t' t'' request hash result now h w =
    let (a, at, valid, belongs, outcome) = finish-outcome t t' request hash result now h in
    elim outcome [
      | inl (ended, same, answers) ↦
          let there = subst (λ x. stored x request ≡ some a) (sym same) at in
          (
            a,
            attempt_stored t'' request hash a (history_terminal a w there ended) valid belongs,
            ended,
            answers,
          )
      | inr (runs, changed) ↦
          let b = finished_attempt a result now in
          let (b_valid, ended) = finished-valid a result now in
          let there =
            subst (λ x. stored x request ≡ some b) (sym changed)
              (get-put_self t request.organisation_id request.id b) in
          (
            b,
            attempt_stored t'' request hash b (history_terminal b w there ended) b_valid
                (unfold finished_attempt in belongs),
            ended,
            unfold finished_attempt in same_result_self result,
          )
    ]

-- An attempt whose lease was just renewed is not at the old expiry any more.
taken_over :
    (t' : Attempts) (request : ToolRequest) (hash : String) (a : ToolAttempt)
    (expected now expiry later later_expiry : ℕ)
    → is_valid_attempt a ≡ true
    → belongs_to a request hash ≡ true
    → cannot_reclaim a expected now ≡ false
    → stored t' request ≡ some (record a { lease_expires_at = expiry })
    → now < expiry
    → reclaim t' request hash expected later later_expiry ≡ err resource_conflict
unfolding reclaim is_valid_attempt
taken_over t' request hash a expected now expiry later later_expiry valid belongs free at ahead =
    let b = record a { lease_expires_at = expiry } in
    let loaded = load_attempt-stored t' request hash b at valid belongs in
    let moved : cannot_reclaim b expected later ≡ true = ground (arith, free, ahead) in
    rw (loaded, moved) refl

-- Of the workers that have seen one expiry of a lease, one takes the attempt over: a takeover that
-- comes next and expects the same expiry is refused, at whatever instant.
pub reclaim_once :
    (t t' : Attempts) (request : ToolRequest) (hash : String)
    (expected now expiry later later_expiry : ℕ)
    → reclaim t request hash expected now expiry ≡ ok t'
    → now < expiry
    → reclaim t' request hash expected later later_expiry ≡ err resource_conflict
unfolding reclaim
reclaim_once t t' request hash expected now expiry later later_expiry h ahead =
    let (a, loaded, h1) = >>=-eq-ok (load_attempt t request hash) _ h in
    let (at, valid, belongs) = load_attempt-ok t request hash loaded in
    let (free, h2) = reject_if-eq-ok (cannot_reclaim a expected now) resource_conflict _ h1 in
    let b = record a { lease_expires_at = expiry } in
    let there =
      subst (λ x. stored x request ≡ some b) (ok-injective h2)
        (get-put_self t request.organisation_id request.id b) in
    taken_over t' request hash a expected now expiry later later_expiry valid belongs free there
      ahead
