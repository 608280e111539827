-- ===== src/Machine/Validity.antt =====
-- The model validator that every method of server/core/state/machine.py ends with.
use uumi.Prelude.{arith, true, ◌≡◌}
use uumi.Contracts.{IsValid, RotationRun, facts_of_run, is_valid_run, status_eq}
use uumi.Machine.Completion.{complete-Completed}
use uumi.Machine.Settlement.{complete_recovery-Recovered}
use uumi.Errors.{ok}
use uumi.Machine.{
  Machine, Op, Reach, apply, here, next, op_cancel, op_cleanup, op_complete, op_complete_recovery,
  op_fail, op_pause, op_recover, op_renew, op_resume, op_start, update,
}

-- What a call that succeeds returns is valid.
pub apply-is_valid_run :
    (m : Machine) (op : Op) (r : RotationRun) {s : RotationRun}
    → apply m op r ≡ ok s
    → is_valid_run s ≡ true
unfolding apply update
apply-is_valid_run m (op_complete proof tok rev now b) r h =
    (complete-Completed m r proof tok rev now b h).valid
apply-is_valid_run m (op_complete_recovery id mode ev tok rev now) r h =
    (complete_recovery-Recovered r id mode ev tok rev now h).valid
apply-is_valid_run m (op_start owner rev exp now) r h = ground arith
apply-is_valid_run m (op_renew owner tok rev exp now) r h = ground arith
apply-is_valid_run m (op_pause tok rev now) r h = ground arith
apply-is_valid_run m (op_resume owner rev exp now) r h = ground arith
apply-is_valid_run m (op_cleanup f tok rev now) r h = ground arith
apply-is_valid_run m (op_fail f tok rev now) r h = ground arith
apply-is_valid_run m (op_cancel rev now) r h = ground arith
apply-is_valid_run m (op_recover owner rev exp now) r h = ground arith

pub apply-IsValid :
    (m : Machine) (op : Op) (r : RotationRun) {s : RotationRun} → apply m op r ≡ ok s → IsValid s
apply-IsValid m op r h = facts_of_run _ (apply-is_valid_run m op r h)

-- A run stays valid along calls that succeed.
pub Reach-IsValid : {m : Machine} {r s : RotationRun} → Reach m r s → IsValid r → IsValid s
Reach-IsValid here v = v
Reach-IsValid (next w op e) v = apply-IsValid _ op _ e
