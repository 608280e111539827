-- ===== src/Examples/PolicyTests.antt =====
-- The theorems on packages/policy and packages/contracts at concrete controls, proofs and runs.
use uumi.Prelude.{[], false, nat_eq, none, refl, some, string_eq, true, ◌∷◌, ◌≡◌}
use uumi.Contracts.{ControlDefinition, Stage, stage_eq}
use uumi.Errors.{ok}
use uumi.Policy.{
  covers_all, gate_policy, is_valid_definition, mandatory, or_default, required_checks, validate,
}
use uumi.Policy.Coverage.{controls_only_strengthen}
use uumi.Policy.Gate.{IsTotal, gate_policy-IsTotal}
use uumi.Examples.Data.{default_machine, proof_of}

abbrev lenient : ControlDefinition
lenient = record {
  required_checks = required_checks;
  allowed_tools = "verification.run" ∷ "secrets.write" ∷ [];
  protected_tools = "secrets.write" ∷ [];
  require_revoke_approval = true;
  require_generation_telemetry = false;
  automatic_triggers = "expiry" ∷ [];
  emergency_triggers = [];
}

lenient_valid : is_valid_definition lenient ≡ true
unfolding is_valid_definition covers_all mandatory
lenient_valid = refl

default_built : gate_policy none ≡ ok default_machine.policy
unfolding gate_policy
default_built = refl

gate_policy-IsTotal_example :
    IsTotal default_machine.policy × (default_machine.policy.required ≡ or_default none)
gate_policy-IsTotal_example = gate_policy-IsTotal none default_machine.policy default_built

abbrev strict : ControlDefinition
strict = record lenient { require_generation_telemetry = true }

strict_valid : is_valid_definition strict ≡ true
unfolding is_valid_definition covers_all mandatory
strict_valid = refl

strict_built : gate_policy (some strict.required_checks) ≡ ok default_machine.policy
unfolding gate_policy
strict_built = refl

observed : validate default_machine.policy (proof_of Stage.observe) ≡ ok tt
unfolding validate
observed = refl

controls_only_strengthen_example : validate default_machine.policy (proof_of Stage.observe) ≡ ok tt
controls_only_strengthen_example =
    controls_only_strengthen strict default_machine.policy default_machine.policy
      (proof_of Stage.observe) strict_valid refl refl strict_built default_built observed
