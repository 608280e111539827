-- ===== src/Contracts/State.antt =====
-- packages/contracts/src/contracts/state.py: the stages of a rotation, in order, and the statuses.
use uumi.Prelude.{
  List, PyEq, String, [], ap, arith, eqb, eqb_iff, get_elem?, refl, some, true, ℕ, ◌↔◌, ◌∷◌, ◌≡◌,
  ◌≤◌,
}

pub data Stage : Type 0 where
  trigger preflight plan create store deploy verify rollout observe approval revoke complete : Stage

-- `STAGES = tuple(Stage)`: the members in the order of their definition.
abbrev pub stages : List Stage
stages =
    Stage.trigger ∷ Stage.preflight ∷ Stage.plan ∷ Stage.create ∷ Stage.store ∷ Stage.deploy
    ∷ Stage.verify ∷ Stage.rollout ∷ Stage.observe ∷ Stage.approval ∷ Stage.revoke ∷ Stage.complete
    ∷ []

-- `STAGES.index(stage)`
abbrev pub stage_index : Stage → ℕ
stage_index Stage.trigger = 0
stage_index Stage.preflight = 1
stage_index Stage.plan = 2
stage_index Stage.create = 3
stage_index Stage.store = 4
stage_index Stage.deploy = 5
stage_index Stage.verify = 6
stage_index Stage.rollout = 7
stage_index Stage.observe = 8
stage_index Stage.approval = 9
stage_index Stage.revoke = 10
stage_index Stage.complete = 11

-- `stage.value`
abbrev pub stage_value : Stage → String
stage_value Stage.trigger = "trigger"
stage_value Stage.preflight = "preflight"
stage_value Stage.plan = "plan"
stage_value Stage.create = "create"
stage_value Stage.store = "store"
stage_value Stage.deploy = "deploy"
stage_value Stage.verify = "verify"
stage_value Stage.rollout = "rollout"
stage_value Stage.observe = "observe"
stage_value Stage.approval = "approval"
stage_value Stage.revoke = "revoke"
stage_value Stage.complete = "complete"

pub get_elem?-stages : (s : Stage) → get_elem? stages (stage_index s) ≡ some s
get_elem?-stages Stage.trigger = refl
get_elem?-stages _ = refl

pub stage_index_bound : (s : Stage) → stage_index s ≤ 11
stage_index_bound Stage.trigger = omega arith
stage_index_bound _ = omega arith

-- The index tells the stages apart.
pub stage_index-injective : (s t : Stage) → stage_index s ≡ stage_index t → s ≡ t
stage_index-injective s t h = cc (get_elem?-stages s, get_elem?-stages t, ap (get_elem? stages) h)

pub stage_eq_iff : (s t : Stage) → (eqb (stage_index s) (stage_index t) ≡ true) ↔ (s ≡ t)
stage_eq_iff s t =
    (λ h. stage_index-injective s t ((eqb_iff _ _).0 h), λ h. (eqb_iff _ _).1 (ap stage_index h))

instance abbrev pub stage_eq : PyEq Stage
stage_eq = record { equals = λ s t. eqb (stage_index s) (stage_index t); equals_iff = stage_eq_iff }

pub data RunStatus : Type 0 where
  pending running paused recovering cleanup failed cancelled compensated completed : RunStatus

abbrev pub run_statuses : List RunStatus
run_statuses =
    RunStatus.pending ∷ RunStatus.running ∷ RunStatus.paused ∷ RunStatus.recovering
    ∷ RunStatus.cleanup ∷ RunStatus.failed ∷ RunStatus.cancelled ∷ RunStatus.compensated
    ∷ RunStatus.completed ∷ []

abbrev pub status_index : RunStatus → ℕ
status_index RunStatus.pending = 0
status_index RunStatus.running = 1
status_index RunStatus.paused = 2
status_index RunStatus.recovering = 3
status_index RunStatus.cleanup = 4
status_index RunStatus.failed = 5
status_index RunStatus.cancelled = 6
status_index RunStatus.compensated = 7
status_index RunStatus.completed = 8

get_elem?-run_statuses : (s : RunStatus) → get_elem? run_statuses (status_index s) ≡ some s
get_elem?-run_statuses RunStatus.pending = refl
get_elem?-run_statuses _ = refl

pub status_eq_iff : (s t : RunStatus) → (eqb (status_index s) (status_index t) ≡ true) ↔ (s ≡ t)
status_eq_iff s t = (
  λ h.
      let e : status_index s ≡ status_index t = (eqb_iff _ _).0 h in
      cc (get_elem?-run_statuses s, get_elem?-run_statuses t, ap (get_elem? run_statuses) e),
  λ h. (eqb_iff _ _).1 (ap status_index h),
)

instance abbrev pub status_eq : PyEq RunStatus
status_eq = record {
  equals = λ s t. eqb (status_index s) (status_index t);
  equals_iff = status_eq_iff;
}

pub data GenerationState : Type 0 where
  creating active superseded revoked orphaned unknown : GenerationState
