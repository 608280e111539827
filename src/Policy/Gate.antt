-- ===== src/Policy/Gate.antt =====
-- What the gate of packages/policy/src/policy/engine.py guarantees.
use uumi.Prelude.{
  All, Bool, Bool-cases, List, Option, String, [], any, arith, contains, difference, eq_iff, false,
  inl, inr, is_empty, is_none, not, refl, some, string_eq, true, ◌&&◌, ◌↔◌, ◌∷◌, ◌≡◌, ◌≢◌,
}
use uumi.Contracts.{Stage, StageProof, stages}
use uumi.Policy.{Controls, GatePolicy, checks_of, gate_policy, or_default, validate}
use uumi.Errors.{Error, err, ok, policy_violation}

-- Every text of the first list stands in the second.
abbrev pub Covers : List String → List String → Type 0
Covers required checks = All (λ c. contains checks c ≡ true) required

pub is_empty-difference :
    (required checks : List String)
    → is_empty (difference required checks) ≡ true
    → Covers required checks
is_empty-difference [] checks h = tt
is_empty-difference (c ∷ cs) checks h = elim (Bool-cases (contains checks c)) [
  | inl e ↦ (e, is_empty-difference cs checks (rw e at h))
  | inr e ↦ cc (rw e at h)
]

pub difference-nil :
    (required checks : List String) → Covers required checks → difference required checks ≡ []
difference-nil [] checks h = refl
difference-nil (c ∷ cs) checks h = rw (h.0, difference-nil cs checks h.1)

-- The difference of two sets of checks holds what is required and was not proved.
pub contains-difference :
    (required checks : List String) (c : String)
    → contains (difference required checks) c ≡ (contains required c && not (contains checks c))
contains-difference [] checks c = refl
contains-difference (x ∷ xs) checks c = elim (Bool-cases (contains checks x)) [
  | inl e ↦ rw (e, contains-difference xs checks c) (ground (arith, eq_iff c x, same x e))
  | inr e ↦ rw (e, contains-difference xs checks c) (ground (arith, eq_iff c x, same x e))
]
  where
    same : (y : String) {b : Bool} → contains checks y ≡ b → c ≡ y → contains checks c ≡ b
    same y e p = rw p e

-- Every stage has an entry.
abbrev pub IsTotal : GatePolicy → Type 0
IsTotal policy = (s : Stage) → is_none (checks_of policy.required s) ≡ false

any-stages : (f : Stage → Bool) → any f stages ≡ false → (s : Stage) → f s ≡ false
any-stages f h Stage.trigger = ground arith
any-stages f h _ = ground arith

-- A policy that is built has an entry for every stage, and is the default one for no mapping and
-- for an empty mapping; a mapping that lacks a stage is refused.
pub gate_policy-IsTotal :
    (controls : Option Controls) (policy : GatePolicy)
    → gate_policy controls ≡ ok policy
    → IsTotal policy × (policy.required ≡ or_default controls)
unfolding gate_policy
gate_policy-IsTotal controls policy h =
    (λ s. any-stages (λ t. is_none (checks_of policy.required t)) (ground arith) s, ground arith)

-- A policy that has an entry for the stage of a proof accepts the proof exactly when the proof has
-- every check of that entry.
pub validate-ok_iff :
    (policy : GatePolicy) (proof : StageProof) (required : List String)
    → checks_of policy.required proof.stage ≡ some required
    → (validate policy proof ≡ ok tt) ↔ Covers required proof.checks
unfolding validate
validate-ok_iff policy proof required e = rw e (
  λ h. is_empty-difference required proof.checks (ground arith),
  λ c. rw (difference-nil required proof.checks c),
)

-- A refusal names the stage and exactly the required checks that the proof lacks, and at least one.
pub validate_refusal :
    (policy : GatePolicy) (proof : StageProof) (required : List String) {e : Error}
    → checks_of policy.required proof.stage ≡ some required
    → validate policy proof ≡ err e
    → (missing : List String) × (e ≡ policy_violation proof.stage missing)
      × (missing ≢ [])
      × ((c : String) → contains missing c ≡ (contains required c && not (contains proof.checks c)))
unfolding validate
validate_refusal policy proof required p h =
    let h' = rw p at h in
    (
      difference required proof.checks,
      ground arith,
      λ n. cc (rw n at h'),
      contains-difference required proof.checks,
    )
