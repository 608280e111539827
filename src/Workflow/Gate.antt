-- ===== src/Workflow/Gate.antt =====
-- No stage is completed without the mandatory checks: server/core/workflow/steps.py over the gate of
-- server/core/storage/firestore.py and the controls of packages/contracts.
use uumi.Prelude.{ap, arith, inl, inr, some, string_eq, subst, subst₂, true, ℕ, ◌≡◌}
use uumi.Policy.Gate.{Covers}
use uumi.Contracts.{CommandBody, ControlVersion, RotationRun, RunCommand, StageBindings, StageProof}
use uumi.Errors.{ok}
use uumi.Policy.{checks_of, is_valid_definition, mandatory}
use uumi.Machine.{Machine, apply, op_complete}
use uumi.Runs.{Db, Digests, MutationResult, check_gate, immutable_controls}
use uumi.Runs.Outcome.{Applied, mutate-outcome}
use uumi.Workflow.{command_op, command_proof, event_kind, machine_op, run_command}
use uumi.Machine.Effects.{Effect, apply-Effect, completed_stage}
use uumi.Runs.Gate.{check_gate-Covers}
use uumi.Policy.Coverage.{controls-mandatory, controls-or_default}

-- The control version that is stored for a run is valid.
abbrev pub HasValidControls : Db → RotationRun → Type 0
HasValidControls db run =
    (c : ControlVersion)
    → db.controls run.organisation_id run.credential_id run.control_version ≡ some c
    → is_valid_definition c.definition ≡ true

completion_stage :
    {m : Machine} (r s : RotationRun) {proof : StageProof} {tok rev now : ℕ} {b : StageBindings}
    → Effect m r s (op_complete proof tok rev now b)
    → proof.stage ≡ r.stage
completion_stage r s (completed_stage c) = c.stage_matches

moved_stage :
    (m : Machine) (r : RotationRun) {s : RotationRun} (body : CommandBody) (tok rev now : ℕ)
    (proof : StageProof) (b : StageBindings)
    → body ≡ CommandBody.complete_stage tok proof b
    → apply m (machine_op body rev now) r ≡ ok s
    → proof.stage ≡ r.stage
unfolding machine_op
moved_stage m r {s} body tok rev now proof b e h = completion_stage r s (
    apply-Effect m (op_complete proof tok rev now b) r
      (subst (λ x. apply m (machine_op x rev now) r ≡ ok s) e h))

Applied-gated :
    (d : Digests) (m : Machine) (now : ℕ) (db : Db) (command : RunCommand) (tok : ℕ)
    (proof : StageProof) (b : StageBindings) (run : RotationRun) (result : MutationResult × Db)
    → command.body ≡ CommandBody.complete_stage tok proof b
    → db.runs command.organisation_id command.run_id ≡ some run
    → HasValidControls db run
    → Applied d db command
        (event_kind command.body)
        (apply m (command_op command now))
        (command_proof command.body)
        result
    → (c : ControlVersion) × (db.controls run.organisation_id run.credential_id run.control_version
        ≡ some c)
      × (immutable_controls d c run ≡ true)
      × (proof.stage ≡ run.stage)
      × Covers (mandatory c.definition run.stage) proof.checks
Applied-gated d m now db command tok proof b run result body stored valid a =
    let e : a.run ≡ run = ground arith in
    let gated = subst₂ (λ x r. check_gate d db r (command_proof x) ≡ ok tt) body e a.gated in
    let (c, required, at, immutable, checks, covered) = check_gate-Covers d db run proof gated in
    let st = moved_stage m run command.body tok command.expected_revision now proof b body (
      subst (λ r. apply m (machine_op command.body command.expected_revision now) r ≡ ok a.updated)
        e a.moved) in
    let own = controls-or_default c.definition (valid c at) in
    (
      c,
      at,
      immutable,
      st,
      subst (λ x. Covers (mandatory c.definition x) proof.checks) st
          (controls-mandatory c.definition proof.stage required proof.checks (valid c at)
            (subst (λ x. checks_of x proof.stage ≡ some required) own checks) covered),
    )

-- A completion that is applied was for the stage that the stored run was in, and its proof has all
-- the mandatory checks of that stage, as the pinned controls of the run, unchanged since they were
-- digested, decide them.
pub completion_gated :
    (d : Digests) (m : Machine) (now : ℕ) (db : Db) (command : RunCommand) (tok : ℕ)
    (proof : StageProof) (b : StageBindings) (run : RotationRun) (result : MutationResult × Db)
    → command.body ≡ CommandBody.complete_stage tok proof b
    → db.runs command.organisation_id command.run_id ≡ some run
    → HasValidControls db run
    → run_command d m now db command ≡ ok result
    → result.0.applied ≡ true
    → (c : ControlVersion) × (db.controls run.organisation_id run.credential_id run.control_version
        ≡ some c)
      × (immutable_controls d c run ≡ true)
      × (proof.stage ≡ run.stage)
      × Covers (mandatory c.definition run.stage) proof.checks
unfolding run_command
completion_gated d m now db command tok proof b run result body stored valid h applied =
    elim (mutate-outcome d db command (event_kind command.body) (apply m (command_op command now))
      (command_proof command.body) h) [
        | inl a ↦ Applied-gated d m now db command tok proof b run result body stored valid a
        | inr p ↦ let old = ap (λ (x : MutationResult × Db). x.0.applied) p.returns in cc
      ]
