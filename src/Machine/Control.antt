-- ===== src/Machine/Control.antt =====
-- The guards and `_update` of `RotationMachine`, server/core/state/machine.py.
use uumi.Prelude.{
  Bool, Option, String, arith, false, if◌then◌else◌, leb, ltb, nat_eq, none, not, some, string_eq,
  true, ℕ, ◌&&◌, ◌+◌, ◌==◌, ◌||◌, ◌≡◌,
}
use uumi.Contracts.{Lease, RotationRun, is_valid_run}
use uumi.Errors.{Result, err, lease_conflict, ok, require, revision_conflict, validation, ◌>>◌}

-- `_revision`
abbrev pub check_revision : RotationRun → ℕ → Result (Unit {0})
check_revision run expected = require (run.revision == expected) revision_conflict

-- `_control`, past the revision: the lease must be there, carry the token and be unexpired.
abbrev pub holds_lease : Option Lease → ℕ → ℕ → Bool
holds_lease none token now = false
holds_lease (some l) token now = l.fencing_token == token && ltb now l.expires_at

abbrev pub control : RotationRun → ℕ → ℕ → ℕ → Result (Unit {0})
control run token expected now = do
  check_revision run expected
  require (holds_lease run.lease token now) lease_conflict

-- `_interrupt_control`: an expired lease may be interrupted with any token.
abbrev pub may_interrupt : Option Lease → ℕ → ℕ → Bool
may_interrupt none token now = false
may_interrupt (some l) token now = leb l.expires_at now || l.fencing_token == token

abbrev pub interrupt_control : RotationRun → ℕ → ℕ → ℕ → Result (Unit {0})
interrupt_control run token expected now = do
  check_revision run expected
  require (may_interrupt run.lease token now) lease_conflict

-- `_future`
abbrev pub future : ℕ → ℕ → Result (Unit {0})
future expires_at now = require (ltb now expires_at) lease_conflict

-- The lease of another owner that has not expired.
abbrev pub held_by_other : Option Lease → String → ℕ → Bool
held_by_other none owner now = false
held_by_other (some l) owner now = ltb now l.expires_at && not (l.owner_id == owner)

abbrev pub owned_by : Option Lease → String → Bool
owned_by none owner = false
owned_by (some l) owner = l.owner_id == owner

abbrev pub grant : String → ℕ → ℕ → Option Lease
grant owner token expires_at =
    some (record { owner_id = owner; fencing_token = token; expires_at = expires_at })

-- `_update`: the changed run with its new revision, validated.
unfoldable pub stamp : RotationRun → ℕ → RotationRun
stamp run now = record run { updated_at = now; revision = run.revision + 1 }

unfoldable pub update : RotationRun → ℕ → Result RotationRun
update run now =
    let changed = stamp run now in if is_valid_run changed then ok changed else err validation

-- An update that succeeds gives the stamped run, which is valid.
pub update-ok :
    (run : RotationRun) (now : ℕ) {r : RotationRun}
    → update run now ≡ ok r
    → (r ≡ stamp run now) × (is_valid_run r ≡ true)
unfolding update
update-ok run now h = ground arith
