-- ===== src/Machine/Bindings.antt =====
-- `RotationMachine._bindings` of server/core/state/machine.py: which run fields a stage may bind.
use uumi.Prelude.{
  Bool, List, Option, String, [], all, any, false, is_empty, is_some, none, not, some, string_eq,
  true, xnor, ◌&&◌, ◌==◌, ◌||◌, ◌∷◌,
}
use uumi.Contracts.{RotationRun, RuntimeDeployment, Stage, StageBindings, stage_eq}
use uumi.Errors.{Result, ok, reject_if, require, transition_rejected, ◌>>◌}

-- The keys of `StageBindings.model_dump()`.
pub data BindingField : Type 0 where
  browser_playbook_version plan_id plan_hash current_generation_id : BindingField
  target_generation_id deployments : BindingField

abbrev pub binding_fields : List BindingField
binding_fields =
    BindingField.browser_playbook_version ∷ BindingField.plan_id ∷ BindingField.plan_hash
    ∷ BindingField.current_generation_id ∷ BindingField.target_generation_id
    ∷ BindingField.deployments ∷ []

-- Whether the dump without `None` and defaults has the key.
abbrev pub is_bound : StageBindings → BindingField → Bool
is_bound b BindingField.browser_playbook_version = is_some b.browser_playbook_version
is_bound b BindingField.plan_id = is_some b.plan_id
is_bound b BindingField.plan_hash = is_some b.plan_hash
is_bound b BindingField.current_generation_id = is_some b.current_generation_id
is_bound b BindingField.target_generation_id = is_some b.target_generation_id
is_bound b BindingField.deployments = not (is_empty b.deployments)

-- Membership in `allowed.get(stage, frozenset())`.
abbrev pub may_bind : Stage → BindingField → Bool
may_bind Stage.preflight BindingField.browser_playbook_version = true
may_bind Stage.preflight BindingField.current_generation_id = true
may_bind Stage.plan BindingField.plan_id = true
may_bind Stage.plan BindingField.plan_hash = true
may_bind Stage.create BindingField.target_generation_id = true
may_bind Stage.deploy BindingField.deployments = true
may_bind _ _ = false

-- `set(values).difference(allowed.get(stage, frozenset()))` is not empty.
unfoldable pub binds_unexpected : Stage → StageBindings → Bool
binds_unexpected s b = any (λ f. is_bound b f && not (may_bind s f)) binding_fields

-- `set(values) == allowed[stage]`
abbrev pub binds_exactly : Stage → StageBindings → Bool
binds_exactly s b = all (λ f. xnor (is_bound b f) (may_bind s f)) binding_fields

-- What PREFLIGHT, PLAN, CREATE and DEPLOY have to bind.
unfoldable pub binds_required : Stage → StageBindings → Bool
binds_required Stage.preflight b = is_some b.current_generation_id
binds_required Stage.plan b = binds_exactly Stage.plan b
binds_required Stage.create b = binds_exactly Stage.create b
binds_required Stage.deploy b = binds_exactly Stage.deploy b
binds_required _ b = true

-- A bound value that differs from the one that the run has.
abbrev pub rebinds : Option String → Option String → Bool
rebinds (some old) (some new) = not (old == new)
rebinds _ _ = false

-- The dump holds the deployments as mappings, which are unequal to any deployment of the run, so
-- every second binding of deployments is a change.
abbrev pub rebinds_deployments : List RuntimeDeployment → List RuntimeDeployment → Bool
rebinds_deployments old new = not (is_empty old) && not (is_empty new)

unfoldable pub changes_bound : RotationRun → StageBindings → Bool
changes_bound run b =
    rebinds run.browser_playbook_version b.browser_playbook_version
    || rebinds run.plan_id b.plan_id
    || rebinds run.plan_hash b.plan_hash
    || rebinds run.current_generation_id b.current_generation_id
    || rebinds run.target_generation_id b.target_generation_id
    || rebinds_deployments run.deployments b.deployments

-- `_bindings`
unfoldable pub check_bindings : RotationRun → StageBindings → Result StageBindings
check_bindings run b = do
  reject_if (binds_unexpected run.stage b) transition_rejected
  require (binds_required run.stage b) transition_rejected
  reject_if (changes_bound run b) transition_rejected
  ok b

abbrev pub or_keep {ℓ} : {A : Type ℓ} → Option A → Option A → Option A
or_keep none old = old
or_keep (some new) old = some new

abbrev pub or_keep_all {ℓ} : {A : Type ℓ} → List A → List A → List A
or_keep_all [] old = old
or_keep_all (x ∷ xs) old = x ∷ xs

-- `payload.update(changes)` at the bound fields.
unfoldable pub bind_fields : StageBindings → RotationRun → RotationRun
bind_fields b run = record run {
  browser_playbook_version = or_keep b.browser_playbook_version run.browser_playbook_version;
  plan_id = or_keep b.plan_id run.plan_id;
  plan_hash = or_keep b.plan_hash run.plan_hash;
  current_generation_id = or_keep b.current_generation_id run.current_generation_id;
  target_generation_id = or_keep b.target_generation_id run.target_generation_id;
  deployments = or_keep_all b.deployments run.deployments;
}
