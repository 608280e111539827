-- ===== src/Broker/Attempts/Leases.antt =====
-- What a call of `begin` or `reclaim` that succeeds leaves: an attempt of the request that runs under
-- the new lease.
use uumi.Errors.{>>=-eq-ok, ok, ok-injective, reject_if-eq-ok, resource_conflict}
use uumi.Store.{get-put_self}
use uumi.Broker.Attempts.{
  Attempts, ToolAttempt, ToolRequest, ToolResult, attempt, attempt_on, begin, begin_on, belongs_to,
  cannot_reclaim, finish, finished_attempt, is_running, is_valid_attempt, load_attempt, new_attempt,
  reclaim, store, store_checkpoint, stored,
}
use uumi.Broker.Attempts.Final.{load_attempt-stored}
use uumi.Prelude.{
  Option, String, arith, eq_iff, none, refl, some, string_eq, subst, true, ℕ, ◌==◌, ◌≡◌,
}

abbrev pub LeasedUntil : Attempts → ToolRequest → ℕ → Type 0
LeasedUntil t request expiry =
    (a : ToolAttempt) × (stored t request ≡ some a)
    × (is_running a.status ≡ true)
    × (a.lease_expires_at ≡ expiry)

begin_on-LeasedUntil :
    (t t' : Attempts) (request : ToolRequest) (hash : String) (new : ToolAttempt)
    (d : Option ToolAttempt)
    → is_running new.status ≡ true
    → begin_on t request hash new d ≡ ok t'
    → LeasedUntil t' request new.lease_expires_at
unfolding begin_on
begin_on-LeasedUntil t t' request hash new none runs h =
    let there =
      subst (λ x. stored x request ≡ some new) (ok-injective h)
        (get-put_self t request.organisation_id request.id new) in
    (new, there, runs, refl)
begin_on-LeasedUntil t t' request hash new (some a) runs h =
    let (current, _, bad) = >>=-eq-ok (load_attempt t request hash) _ h in cc

pub begin-LeasedUntil :
    (t t' : Attempts) (request : ToolRequest) (hash reconciliation : String) (now expiry : ℕ)
    → begin t request hash reconciliation now expiry ≡ ok t'
    → LeasedUntil t' request expiry
unfolding begin new_attempt
begin-LeasedUntil t t' request hash reconciliation now expiry h =
    begin_on-LeasedUntil t t' request hash (new_attempt request hash reconciliation now expiry)
      (stored t request) refl h

pub reclaim-LeasedUntil :
    (t t' : Attempts) (request : ToolRequest) (hash : String) (expected now expiry : ℕ)
    → reclaim t request hash expected now expiry ≡ ok t'
    → LeasedUntil t' request expiry
unfolding reclaim
reclaim-LeasedUntil t t' request hash expected now expiry h =
    let (a, loaded, h1) = >>=-eq-ok (load_attempt t request hash) _ h in
    let (free, h2) = reject_if-eq-ok (cannot_reclaim a expected now) resource_conflict _ h1 in
    let b = record a { lease_expires_at = expiry } in
    let there =
      subst (λ x. stored x request ≡ some b) (ok-injective h2)
        (get-put_self t request.organisation_id request.id b) in
    (b, there, ground (arith, free), refl)

eq_self : (s : String) → (s == s) ≡ true
eq_self s = (eq_iff s s).1 refl

-- An attempt that is running, without a checkpoint, and of the request.
pub record Open (t : Attempts) (request : ToolRequest) (hash : String) (expiry : ℕ)
    (a : ToolAttempt) : Type 0 where
  pub is_there : stored t request ≡ some a
  pub valid : is_valid_attempt a ≡ true
  pub own : belongs_to a request hash ≡ true
  pub runs : is_running a.status ≡ true
  pub unmarked : a.checkpoint ≡ none
  pub lasts : a.lease_expires_at ≡ expiry

pub attempt-absent :
    (t : Attempts) (request : ToolRequest) (hash : String)
    → stored t request ≡ none
    → attempt t request hash ≡ ok none
unfolding attempt attempt_on
attempt-absent t request hash absent = rw absent refl

-- A request that has no attempt is begun.
pub begin-Open :
    (t : Attempts) (request : ToolRequest) (hash reconciliation : String) (now expiry : ℕ)
    → stored t request ≡ none
    → let new = new_attempt request hash reconciliation now expiry in
      (begin t request hash reconciliation now expiry ≡ ok (store t request new))
      × Open (store t request new) request hash expiry new
unfolding begin begin_on new_attempt is_valid_attempt
begin-Open t request hash reconciliation now expiry absent = (
  rw absent refl,
  record {
    is_there = get-put_self t request.organisation_id request.id _;
    valid = refl;
    own =
        rw
          (
            eq_self request.organisation_id,
            eq_self request.run_id,
            eq_self request.tool,
            eq_self hash,
          )
          refl;
    runs = refl;
    unmarked = refl;
    lasts = refl;
  },
)

-- An open attempt takes a checkpoint, which leaves it running.
pub store_checkpoint-returns :
    (t : Attempts) (request : ToolRequest) (hash : String) (expiry : ℕ) (a : ToolAttempt)
    (result : ToolResult)
    → Open t request hash expiry a
    → store_checkpoint t request hash result
      ≡ ok (store t request (record a { checkpoint = some result }))
unfolding store_checkpoint
store_checkpoint-returns t request hash expiry a result o =
    let loaded = load_attempt-stored t request hash a o.is_there o.valid o.own in
    rw (loaded, o.runs, o.unmarked) refl

-- An attempt of the request that is running, with a checkpoint or without, is finished.
pub finish-running :
    (t : Attempts) (request : ToolRequest) (hash : String) (a : ToolAttempt) (result : ToolResult)
    (now : ℕ)
    → stored t request ≡ some a
    → is_valid_attempt a ≡ true
    → belongs_to a request hash ≡ true
    → is_running a.status ≡ true
    → finish t request hash result now ≡ ok (store t request (finished_attempt a result now))
unfolding finish
finish-running t request hash a result now there valid own runs =
    let loaded = load_attempt-stored t request hash a there valid own in rw (loaded, runs) refl
