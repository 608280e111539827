-- ===== src/Workflow/Replay.antt =====
-- Idempotent commands: server/core/storage/firestore.py answers a repeated command from the step
-- that the first one recorded.
use uumi.Prelude.{
  Option, String, ap, false, inl, inr, none, refl, some, string_eq, subst, subst₂, sym, true, ℕ,
  ◌∙◌, ◌≡◌,
}
use uumi.Runs.{
  Db, Digests, MutationResult, commit_create, commit_mutation, creation_step, mutation_step,
}
use uumi.Runs.Outcome.{Applied, Created, create-outcome, mutate-outcome, replayed_answer}
use uumi.Workflow.{
  build_run, command_op, command_proof, create_run, event_kind, or_new, run_command,
}
use uumi.Workflow.LockHistory.{
  History, History-Consistent, begin, creation, mutation, run_command-Consistent,
}
use uumi.Contracts.{CreateRunCommand, EventKind, RotationRun, RunCommand, RunStep, StageProof}
use uumi.Errors.{Result, ok}
use uumi.Store.{Table, get-put, get-put_deep, get-put_deep_self, get-put_self, put}
use uumi.Machine.{Machine, apply}
use uumi.Workflow.Locks.{Consistent}

-- The run is stored, with a step of its own.
abbrev pub Recorded : Db → String → String → String → RunStep → Type 0
Recorded db o i j step = ((r : RotationRun) × (db.runs o i ≡ some r)) × (db.steps o i j ≡ some step)

run_stays_put :
    (runs : Table RotationRun) (o i o' i' : String) (v : RotationRun)
    → ((r : RotationRun) × (runs o' i' ≡ some r))
    → (r : RotationRun) × (put runs o i v o' i' ≡ some r)
run_stays_put runs o i o' i' v (r, at) = elim (get-put runs o i v o' i') [
  | inl (eo, ei, now) ↦ (v, now)
  | inr (other, same) ↦ (r, same ∙ at)
]

Applied-still_Recorded :
    (d : Digests) (db : Db) (command : RunCommand) (kind : EventKind)
    (transition : RotationRun → Result RotationRun) (proof : Option StageProof)
    {result : MutationResult × Db} (o i j : String) (step : RunStep)
    → Applied d db command kind transition proof result
    → Recorded db o i j step
    → Recorded result.1 o i j step
unfolding commit_mutation
Applied-still_Recorded d db command kind transition proof {result} o i j step a (run, at) =
    subst (λ x. Recorded x o i j step) (sym (ap (λ x. x.1) a.returns))
      (
        run_stays_put db.runs command.organisation_id command.run_id o i a.updated run,
        elim (get-put_deep db.steps command.organisation_id command.run_id command.id
            (mutation_step command (d.mutation_hash command) a.run a.updated proof) o i j) [
              | inl (eo, ei, ej, now) ↦
                  let gone =
                    subst (λ x. db.steps x i j ≡ none) eo
                      (subst₂ (λ x y. db.steps command.organisation_id x y ≡ none) ei ej
                        a.no_step) in
                  cc
              | inr (other, same) ↦ same ∙ at
            ],
      )

Created-Recorded :
    (d : Digests) (db : Db) (run : RotationRun) (command : CreateRunCommand)
    {result : MutationResult × Db} (o i j : String) (step : RunStep)
    → Created d db run command result
    → Recorded db o i j step
    → Recorded result.1 o i j step
unfolding commit_create
Created-Recorded d db run command {result} o i j step c ((r, stored), at) =
    subst (λ x. Recorded x o i j step) (sym (ap (λ x. x.1) c.returns))
      (
        run_stays_put db.runs run.organisation_id run.id o i run (r, stored),
        elim (get-put_deep db.steps run.organisation_id run.id command.id
            (creation_step run command (d.creation_hash command)) o i j) [
              | inl (eo, ei, ej, now) ↦
                  let gone = subst₂ (λ x y. db.runs x y ≡ none) eo ei c.unused_id in cc
              | inr (other, same) ↦ same ∙ at
            ],
      )

-- A recorded step stays as it is.
pub History-Recorded :
    {d : Digests} {m : Machine} {db db' : Db} (o i j : String) (step : RunStep)
    → Recorded db o i j step
    → History d m db db'
    → Recorded db' o i j step
unfolding create_run run_command
History-Recorded o i j step r begin = r
History-Recorded {d} o i j step r (creation {db' = q} w now new_id command result e) =
    let run = build_run command (or_new command.run_id new_id) now in
    let before = History-Recorded o i j step r w in
    elim (create-outcome d q run command e) [
      | inl c ↦ Created-Recorded d q run command o i j step c before
      | inr (same, replayed) ↦ subst (λ x. Recorded x o i j step) (sym same) before
    ]
History-Recorded {d} {m} o i j step r (mutation {db' = q} w now command result e) =
    let before = History-Recorded o i j step r w in
    elim (mutate-outcome d q command (event_kind command.body) (apply m (command_op command now))
      (command_proof command.body) e) [
        | inl a ↦ Applied-still_Recorded d q command _ _ _ o i j step a before
        | inr p ↦ subst (λ x. Recorded x o i j step) (sym (ap (λ x. x.1) p.returns)) before
      ]

Applied-Recorded :
    (d : Digests) (db : Db) (command : RunCommand) (kind : EventKind)
    (transition : RotationRun → Result RotationRun) (proof : Option StageProof)
    {result : MutationResult × Db}
    → Applied d db command kind transition proof result
    → Recorded result.1 command.organisation_id command.run_id command.id result.0.step
      × (result.0.step.command_hash ≡ d.mutation_hash command)
unfolding commit_mutation mutation_step
Applied-Recorded d db command kind transition proof {result} a =
    let step = mutation_step command (d.mutation_hash command) a.run a.updated proof in
    let there = get-put_deep_self db.steps command.organisation_id command.run_id command.id step in
    let stored = get-put_self db.runs command.organisation_id command.run_id a.updated in
    subst
      (λ (x : MutationResult × Db).
        Recorded x.1 command.organisation_id command.run_id command.id x.0.step
        × (x.0.step.command_hash ≡ d.mutation_hash command))
      (sym a.returns) (((a.updated, stored), there), refl)

-- Once a command is applied, the same command changes nothing at any later time, whatever creations
-- and commands succeed in between: it answers with the step that it recorded, and with the run as
-- it is then.
pub command_replay :
    (d : Digests) (m : Machine) (now later : ℕ) (db db' : Db) (command : RunCommand)
    (result : MutationResult × Db)
    → Consistent db
    → run_command d m now db command ≡ ok result
    → result.0.applied ≡ true
    → History d m result.1 db'
    → (r : RotationRun) × (db'.runs command.organisation_id command.run_id ≡ some r)
      × (run_command d m later db' command
          ≡ ok (record { run = r; step = result.0.step; applied = false }, db'))
unfolding run_command
command_replay d m now later db db' command result c h applied w =
    elim (mutate-outcome d db command (event_kind command.body) (apply m (command_op command now))
      (command_proof command.body) h) [
        | inl a ↦
            let (recorded, hash) = Applied-Recorded d db command _ _ _ a in
            let ((r, stored), at) =
              History-Recorded command.organisation_id command.run_id command.id result.0.step
                recorded w in
            let after = History-Consistent (run_command-Consistent d m now db command c h) w in
            let own = (after.own_path command.organisation_id command.run_id r stored).0 in
            (r, stored, replayed_answer d db' command _ _ _ result.0.step r at hash stored own)
        | inr p ↦ let old = ap (λ (x : MutationResult × Db). x.0.applied) p.returns in cc
      ]
