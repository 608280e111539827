-- ===== src/Policy.antt =====
-- packages/policy: the checks that each stage requires, and the gate that a proof passes.
pub mod Gate
pub mod Coverage
use uumi.Prelude.{
  Bool, List, Option, String, [], all, any, contains, difference, false, if◌then◌else◌, is_empty,
  is_none, none, not, some, string_eq, ◌&&◌, ◌==◌, ◌∷◌,
}
use uumi.Contracts.{ControlDefinition, Stage, StageProof, stage_eq, stages}
use uumi.Errors.{Result, err, index_error, ok, policy_violation, reject_if, validation, ◌>>◌}

-- `dict[Stage, frozenset[str]]`
abbrev pub Controls : Type 0
Controls = List (Stage × List String)

-- packages/policy/src/policy/rules.py
abbrev pub required_checks : Controls
required_checks =
    (Stage.trigger, "request-authenticated" ∷ "source-deduplicated" ∷ "lease-held" ∷ [])
    ∷ (
      Stage.preflight,
      "provider-ready" ∷ "credential-known" ∷ "scopes-known" ∷ "playbook-eligible"
          ∷ "management-authenticated" ∷ "store-ready" ∷ "consumers-known" ∷ "runtime-ready"
          ∷ "verifier-ready" ∷ "approvers-known" ∷ "overlap-supported" ∷ "mutation-declared"
          ∷ "no-conflict" ∷ [],
    )
    ∷ (Stage.plan, "plan-bound" ∷ "controls-pinned" ∷ "plan-hashed" ∷ "recovery-ready" ∷ [])
    ∷ (Stage.create, "replacement-created" ∷ "mutation-resolved" ∷ "generation-recorded" ∷ [])
    ∷ (Stage.store, "secret-stored" ∷ "consumer-accessible" ∷ "plaintext-isolated" ∷ [])
    ∷ (
      Stage.deploy,
      "candidate-deployed" ∷ "version-bound" ∷ "generation-tagged" ∷ "rollback-ready" ∷ [],
    )
    ∷ (
      Stage.verify,
      "provider-valid" ∷ "store-valid" ∷ "deployment-valid" ∷ "telemetry-healthy"
          ∷ "coverage-complete" ∷ "rollback-ready" ∷ [],
    )
    ∷ (Stage.rollout, "production-promoted" ∷ "rollout-healthy" ∷ [])
    ∷ (Stage.observe, "telemetry-healthy" ∷ "old-use-clear" ∷ "consumers-current" ∷ [])
    ∷ (Stage.approval, "approval-valid" ∷ "action-digest-valid" ∷ "evidence-current" ∷ [])
    ∷ (
      Stage.revoke,
      "old-revoked" ∷ "replacement-valid" ∷ "old-rejected" ∷ "old-secret-disabled" ∷ [],
    )
    ∷ (
      Stage.complete,
      "consumers-current" ∷ "replacement-valid" ∷ "old-rejected" ∷ "audit-complete" ∷ [],
    )
    ∷ []

-- `required[stage]`; `none` is the `KeyError`.
abbrev pub checks_of : Controls → Stage → Option (List String)
checks_of [] s = none
checks_of ((t, checks) ∷ rest) s = if t == s then some checks else checks_of rest s

pub record GatePolicy : Type 0 where
  pub required : Controls

-- `required or REQUIRED_CHECKS`: an absent or empty mapping gives the default one.
abbrev pub or_default : Option Controls → Controls
or_default none = required_checks
or_default (some []) = required_checks
or_default (some (c ∷ cs)) = c ∷ cs

-- `GatePolicy.__init__`: every stage must have its entry.
unfoldable pub gate_policy : Option Controls → Result GatePolicy
gate_policy required =
    let r = or_default required in
    do
      reject_if (any (λ s. is_none (checks_of r s)) stages) validation
      ok (record { required = r })

-- `GatePolicy.validate`, at the checks that are required and those that are proved.
abbrev pub check_missing : Stage → Option (List String) → List String → Result (Unit {0})
check_missing s none checks = err index_error
check_missing s (some required) checks =
    let missing = difference required checks in
    if is_empty missing then ok tt else err (policy_violation s missing)

unfoldable pub validate : GatePolicy → StageProof → Result (Unit {0})
validate policy proof =
    check_missing proof.stage (checks_of policy.required proof.stage) proof.checks

-- The mandatory checks of `ControlDefinition.validate_coverage`,
-- packages/contracts/src/contracts/control.py: the default ones, less what the two switches waive.
abbrev pub default_checks : Stage → List String
default_checks s = elim (checks_of required_checks s) [ none ↦ [] | some checks ↦ checks ]

abbrev pub waive : Bool → List String → List String → List String
waive required waived checks = if required then checks else difference checks waived

unfoldable pub mandatory : ControlDefinition → Stage → List String
mandatory def Stage.preflight =
    waive def.require_revoke_approval ("approvers-known" ∷ []) (default_checks Stage.preflight)
mandatory def Stage.approval =
    if def.require_revoke_approval
    then default_checks Stage.approval
    else "approval-not-required" ∷ "evidence-current" ∷ []
mandatory def Stage.verify =
    waive def.require_generation_telemetry ("telemetry-healthy" ∷ []) (default_checks Stage.verify)
mandatory def Stage.observe =
    waive def.require_generation_telemetry ("telemetry-healthy" ∷ "old-use-clear" ∷ [])
      (default_checks Stage.observe)
mandatory def s = default_checks s

abbrev pub is_subset : List String → List String → Bool
is_subset xs ys = is_empty (difference xs ys)

abbrev pub covers_mandatory : ControlDefinition → Stage → Bool
covers_mandatory def s = elim (checks_of def.required_checks s) [
  | none ↦ false
  | some checks ↦ is_subset (mandatory def s) checks
]

-- The loop over the mandatory checks.
unfoldable pub covers_all : ControlDefinition → Bool
covers_all def = all (covers_mandatory def) stages

-- `validate_coverage`
unfoldable pub is_valid_definition : ControlDefinition → Bool
is_valid_definition def =
    covers_all def
    && is_subset def.protected_tools def.allowed_tools
    && not (def.require_generation_telemetry && not (contains def.allowed_tools "verification.run"))
    && is_subset def.emergency_triggers def.automatic_triggers
