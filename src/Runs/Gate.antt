-- ===== src/Runs/Gate.antt =====
-- The stage gate of `mutate` in server/core/storage/firestore.py: the proof of a completion is
-- validated against the pinned control version of the run.
use uumi.Prelude.{List, String, arith, some, some_of_is_none, string_eq, subst, true, ◌≡◌}
use uumi.Policy.Gate.{Covers, gate_policy-IsTotal, validate-ok_iff}
use uumi.Contracts.{ControlVersion, RotationRun, StageProof}
use uumi.Errors.{>>=-eq-ok, ok, require-eq-ok, storage_integrity}
use uumi.Store.{found, found-ok}
use uumi.Policy.{checks_of, gate_policy, or_default}
use uumi.Runs.{Db, Digests, check_gate, immutable_controls, pinned_controls}

pinned_controls-ok :
    (d : Digests) (db : Db) (run : RotationRun) {c : ControlVersion}
    → pinned_controls d db run ≡ ok c
    → (db.controls run.organisation_id run.credential_id run.control_version ≡ some c)
      × (immutable_controls d c run ≡ true)
unfolding pinned_controls
pinned_controls-ok d db run {c} h =
    let (c', g0, h0) =
      >>=-eq-ok
        (found (db.controls run.organisation_id run.credential_id run.control_version)
          storage_integrity)
        _ h in
    let (g1, h1) = require-eq-ok (immutable_controls d c' run) storage_integrity _ h0 in
    let e : c' ≡ c = ground arith in
    subst
      (λ x.
        (db.controls run.organisation_id run.credential_id run.control_version ≡ some x)
        × (immutable_controls d x run ≡ true))
      e (found-ok _ storage_integrity g0, g1)

-- A gate that passes has read the pinned controls, and the proof has every check that they require.
pub check_gate-Covers :
    (d : Digests) (db : Db) (run : RotationRun) (proof : StageProof)
    → check_gate d db run (some proof) ≡ ok tt
    → (c : ControlVersion) × (required : List String) × (db.controls run.organisation_id
          run.credential_id run.control_version
        ≡ some c)
      × (immutable_controls d c run ≡ true)
      × (checks_of (or_default (some c.definition.required_checks)) proof.stage ≡ some required)
      × Covers required proof.checks
unfolding check_gate
check_gate-Covers d db run proof h =
    let (c, g0, h0) = >>=-eq-ok (pinned_controls d db run) _ h in
    let (policy, g1, h1) = >>=-eq-ok (gate_policy (some c.definition.required_checks)) _ h0 in
    let (at, immutable) = pinned_controls-ok d db run g0 in
    let (total, same) = gate_policy-IsTotal (some c.definition.required_checks) policy g1 in
    let (required, found_checks) = some_of_is_none _ (total proof.stage) in
    (
      c,
      required,
      at,
      immutable,
      subst (λ x. checks_of x proof.stage ≡ some required) same found_checks,
      (validate-ok_iff policy proof required found_checks).0 h1,
    )
