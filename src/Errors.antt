-- ===== src/Errors.antt =====
-- server/core/errors.py: the exceptions, as the error values of a fallible operation. The texts of
-- the messages are left out. `policy_violation` is `PolicyViolationError` of
-- packages/policy/src/policy/engine.py, and `validation` is pydantic's `ValidationError`, which
-- the model validators of packages/contracts raise; `already_exists` is Firestore's;
-- `value_error` and `runtime_error` are Python's, `capability_rejected` is `CapabilityError`, and
-- `ambiguous_mutation` and `connector_error` are `AmbiguousMutationError` and `ConnectorError` of
-- server/connectors/base/errors.py.
use uumi.Prelude.{Bool, List, String, arith, false, inl, inr, refl, true, ◌≡◌, ◌⊎◌}
use uumi.Contracts.{Stage}

pub data Error : Type 0 where
  revision_conflict lease_conflict transition_rejected run_not_found active_run_conflict : Error
  idempotency_conflict storage_integrity outbox_lease resource_not_found resource_conflict : Error
  approval_rejected validation index_error already_exists value_error capability_rejected : Error
  ambiguous_mutation connector_error runtime_error : Error
  policy_violation : Stage → List String → Error

pub data Result {ℓ} (A : Type ℓ) : Type ℓ where
  err : Error → Result A
  ok : A → Result A

-- What comes after a call runs where the call returned.
abbrev pub ◌>>=◌ {ℓ κ} : {A : Type ℓ} {B : Type κ} → Result A → (A → Result B) → Result B
err e >>= after = err e
ok value >>= after = after value

infixl 5 ◌>>=◌
abbrev pub ◌>>◌ {κ} : {B : Type κ} → Result (Unit {0}) → Result B → Result B
check >> after = check >>= (λ done. after)

infixl 5 ◌>>◌
-- `if not test: raise error`
abbrev pub require : Bool → Error → Result (Unit {0})
require false raised = err raised
require true raised = ok tt

-- `if test: raise error`
abbrev pub reject_if : Bool → Error → Result (Unit {0})
reject_if true e = err e
reject_if false e = ok tt

abbrev pub is_ok {ℓ} : {A : Type ℓ} → Result A → Bool
is_ok (ok a) = true
is_ok (err e) = false

abbrev pub map_ok {ℓ κ} : {A : Type ℓ} {B : Type κ} → (A → B) → Result A → Result B
map_ok f (ok a) = ok (f a)
map_ok f (err e) = err e

-- Inversion of a chain that succeeds: the first call returned, and so did what comes after it.
pub >>=-eq-ok {ℓ κ} :
    {A : Type ℓ} {B : Type κ} (call : Result A) (after : A → Result B) {b : B}
    → (call >>= after) ≡ ok b
    → (value : A) × (call ≡ ok value) × (after value ≡ ok b)
>>=-eq-ok (err raised) after returned = cc
>>=-eq-ok (ok value) after returned = (value, refl, returned)

pub ok-injective {ℓ} : {A : Type ℓ} {a b : A} → ok a ≡ ok b → a ≡ b
ok-injective h = ground arith

-- A call raises or returns.
pub result_cases :
    {A : Type 0} (x : Result A) → ((e : Error) × (x ≡ err e)) ⊎ ((a : A) × (x ≡ ok a))
result_cases (err e) = inl (e, refl)
result_cases (ok a) = inr (a, refl)

-- A guard that is passed, and what comes after it.
module _ {ℓ} {A : Type ℓ} where
  pub require-eq-ok :
      (b : Bool) (e : Error) (m : Result A) {a : A}
      → (require b e >> m) ≡ ok a
      → (b ≡ true) × (m ≡ ok a)
  require-eq-ok true e m h = (refl, h)
  require-eq-ok false e m h = cc

  pub reject_if-eq-ok :
      (b : Bool) (e : Error) (m : Result A) {a : A}
      → (reject_if b e >> m) ≡ ok a
      → (b ≡ false) × (m ≡ ok a)
  reject_if-eq-ok false e m h = (refl, h)
  reject_if-eq-ok true e m h = cc

  pub >>-eq-ok :
      (m : Result (Unit {0})) (k : Result A) {a : A} → (m >> k) ≡ ok a → (m ≡ ok tt) × (k ≡ ok a)
  >>-eq-ok (ok tt) k h = (refl, h)
  >>-eq-ok (err e) k h = cc
