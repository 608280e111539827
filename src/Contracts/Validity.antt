-- ===== src/Contracts/Validity.antt =====
-- The model validator of `RotationRun` (packages/contracts/src/contracts/run.py) decides `IsValid`.
use uumi.Prelude.{arith, true, ◌≡◌}
use uumi.Contracts.State.{Stage, stage_eq_iff}
use uumi.Contracts.Run.{IsValid, RotationRun, is_valid_run}

pub facts_of_run : (r : RotationRun) → is_valid_run r ≡ true → IsValid r
unfolding is_valid_run
facts_of_run r h = record {
  completed_at_end = λ e. ground (arith, stage_eq_iff r.stage Stage.complete);
  lease_fenced = ground arith;
  problem_explained = ground arith;
  failure_only_in_problem = ground arith;
  recovery_bound = ground arith;
  bound_only_in_recovery = ground arith;
  compensated_complete = λ e. (ground arith, ground arith);
}

pub IsValid→is_valid_run : (r : RotationRun) → IsValid r → is_valid_run r ≡ true
unfolding is_valid_run
IsValid→is_valid_run r v = ground (arith, stage_eq_iff r.stage Stage.complete)
