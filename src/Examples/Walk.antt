-- ===== src/Examples/Walk.antt =====
-- Sequences of calls of server/core/state/machine.py, run from a state.
use uumi.Prelude.{List, [], arith, subst, ◌∷◌, ◌≡◌}
use uumi.Contracts.{RotationRun}
use uumi.Errors.{>>=-eq-ok, Result, err, ok, ◌>>=◌}
use uumi.Machine.{Machine, Op, Reach, apply, here, next}

-- The calls, the last one first.
unfoldable pub run_all : Machine → List Op → RotationRun → Result RotationRun
run_all m [] r = ok r
run_all m (op ∷ ops) r = run_all m ops r >>= apply m op

abbrev pub run_or : Result RotationRun → RotationRun → RotationRun
run_or (ok s) r = s
run_or (err e) r = r

pub run_all-Reach :
    (m : Machine) (ops : List Op) (r s : RotationRun) → run_all m ops r ≡ ok s → Reach m r s
unfolding run_all
run_all-Reach m [] r s h = let e : r ≡ s = ground arith in subst (Reach m r) e here
run_all-Reach m (op ∷ ops) r s h =
    let (t, before, h') = >>=-eq-ok (run_all m ops r) _ h in
    next (run_all-Reach m ops r t before) op h'
