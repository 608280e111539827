-- ===== src/Policy/Coverage.antt =====
-- The controls of an organisation can only add to the mandatory checks of a stage:
-- packages/contracts/src/contracts/control.py over packages/policy/src/policy.
use uumi.Errors.{ok}
use uumi.Prelude.{
  Bool, Bool-cases, List, Option, String, [], all, ap, arith, contains, eq_iff, false, inl, inr,
  is_none, none, refl, some, string_eq, subst, true, ◌==◌, ◌∙◌, ◌∷◌, ◌≡◌,
}
use uumi.Contracts.{ControlDefinition, Stage, StageProof, stage_eq, stages}
use uumi.Policy.Gate.{Covers, gate_policy-IsTotal, is_empty-difference, validate-ok_iff}
use uumi.Policy.{
  Controls, GatePolicy, checks_of, covers_all, covers_mandatory, default_checks, gate_policy,
  is_subset, is_valid_definition, mandatory, or_default, required_checks, validate,
}

Covers-contains :
    (required checks : List String) (c : String)
    → Covers required checks
    → contains required c ≡ true
    → contains checks c ≡ true
Covers-contains [] checks c h m = cc
Covers-contains (x ∷ xs) checks c h m = elim (Bool-cases (c == x)) [
  | inl e ↦ rw ((eq_iff c x).0 e) h.0
  | inr n ↦ Covers-contains xs checks c h.1 (rw n at m)
]

Covers-trans : (xs ys zs : List String) → Covers xs ys → Covers ys zs → Covers xs zs
Covers-trans [] ys zs h k = tt
Covers-trans (x ∷ xs) ys zs h k = (Covers-contains ys zs x k h.0, Covers-trans xs ys zs h.1 k)

all-stages : (f : Stage → Bool) → all f stages ≡ true → (s : Stage) → f s ≡ true
all-stages f h Stage.trigger = ground arith
all-stages f h _ = ground arith

covers_all-stages :
    (def : ControlDefinition) → covers_all def ≡ true → (s : Stage) → covers_mandatory def s ≡ true
unfolding covers_all
covers_all-stages def h s = all-stages (covers_mandatory def) h s

-- Under controls that are valid, a proof with the checks that the controls require has the
-- mandatory ones.
pub controls-mandatory :
    (def : ControlDefinition) (s : Stage) (required checks : List String)
    → is_valid_definition def ≡ true
    → checks_of def.required_checks s ≡ some required
    → Covers required checks
    → Covers (mandatory def s) checks
unfolding is_valid_definition
controls-mandatory def s required checks valid at h =
    let covered : covers_all def ≡ true = ground arith in
    let each = covers_all-stages def covered s in
    let enough : is_subset (mandatory def s) required ≡ true = ground arith in
    Covers-trans (mandatory def s) required checks
      (is_empty-difference (mandatory def s) required enough) h

-- Valid controls have an entry for every stage, so the policy of a run's controls can be built.
pub controls-total :
    (def : ControlDefinition) (s : Stage)
    → is_valid_definition def ≡ true
    → is_none (checks_of def.required_checks s) ≡ false
unfolding is_valid_definition
controls-total def s valid =
    let covered : covers_all def ≡ true = ground arith in
    let each = covers_all-stages def covered s in ground arith

or_default_self :
    (c : Controls) (s : Stage) → is_none (checks_of c s) ≡ false → or_default (some c) ≡ c
or_default_self [] s h = cc
or_default_self (x ∷ xs) s h = refl

-- Valid controls are not empty, so they are not replaced by the default ones.
pub controls-or_default :
    (def : ControlDefinition)
    → is_valid_definition def ≡ true
    → or_default (some def.required_checks) ≡ def.required_checks
controls-or_default def valid =
    or_default_self def.required_checks Stage.trigger (controls-total def Stage.trigger valid)

default-checks_of : (s : Stage) → checks_of required_checks s ≡ some (default_checks s)
default-checks_of Stage.trigger = refl
default-checks_of _ = refl

mandatory-strict :
    (def : ControlDefinition) (s : Stage)
    → def.require_revoke_approval ≡ true
    → def.require_generation_telemetry ≡ true
    → mandatory def s ≡ default_checks s
unfolding mandatory
mandatory-strict def Stage.preflight approval telemetry = rw approval refl
mandatory-strict def Stage.approval approval telemetry = rw approval refl
mandatory-strict def Stage.verify approval telemetry = rw telemetry refl
mandatory-strict def Stage.observe approval telemetry = rw telemetry refl
mandatory-strict def _ approval telemetry = refl

entry_there :
    (d : Option (List String)) → is_none d ≡ false → (checks : List String) × (d ≡ some checks)
entry_there none h = cc
entry_there (some checks) h = (checks, refl)

-- Controls that waive nothing and that their validator accepts can only add to the gate: a proof
-- that the policy of such controls accepts, at any stage, is accepted by the default policy.
pub controls_only_strengthen :
    (def : ControlDefinition) (own base : GatePolicy) (proof : StageProof)
    → is_valid_definition def ≡ true
    → def.require_revoke_approval ≡ true
    → def.require_generation_telemetry ≡ true
    → gate_policy (some def.required_checks) ≡ ok own
    → gate_policy none ≡ ok base
    → validate own proof ≡ ok tt
    → validate base proof ≡ ok tt
controls_only_strengthen def own base proof valid approval telemetry built default_built accepted =
    let s = proof.stage in
    let (required, at) =
      entry_there (checks_of def.required_checks s) (controls-total def s valid) in
    let own_is =
      (gate_policy-IsTotal (some def.required_checks) own built).1
      ∙ controls-or_default def valid in
    let own_at = ap (λ r. checks_of r s) own_is ∙ at in
    let base_at =
      ap (λ r. checks_of r s) (gate_policy-IsTotal none base default_built).1
      ∙ default-checks_of s in
    let covered = (validate-ok_iff own proof required own_at).0 accepted in
    let enough = controls-mandatory def s required proof.checks valid at covered in
    (validate-ok_iff base proof (default_checks s) base_at).1
      (subst (λ c. Covers c proof.checks) (mandatory-strict def s approval telemetry) enough)
