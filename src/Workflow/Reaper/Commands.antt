-- ===== src/Workflow/Reaper/Commands.antt =====
-- The commands of a pass of server/core/workflow/steps.py: when they are applied, and what they
-- leave as it was.
use uumi.Prelude.{arith, eq_iff, nat_eq, none, refl, some, string_eq, true, ℕ, ◌≡◌}
use uumi.Contracts.{RotationRun, RunCommand}
use uumi.Errors.{ok}
use uumi.Store.{found}
use uumi.Machine.{Machine, apply}
use uumi.Machine.Revision.{apply-Advances}
use uumi.Runs.{
  Db, Digests, MutationResult, check_gate, commit_mutation, fresh_mutation, lock_held_by, mutate,
  mutate_or_replay, mutation_step, validate_transition,
}
use uumi.Workflow.{command_op, command_proof, event_kind, run_command}

-- A command of the holder of the lock whose transition succeeds, and that is not recorded yet.
pub record Appliable (m : Machine) (at : ℕ) (db : Db) (command : RunCommand)
    (run updated : RotationRun) : Type 0 where
  pub stored : db.runs command.organisation_id command.run_id ≡ some run
  pub own : run.organisation_id ≡ command.organisation_id
  pub expected : run.revision ≡ command.expected_revision
  pub locked : lock_held_by (db.locks command.organisation_id run.credential_id) run.id ≡ true
  pub no_step : db.steps command.organisation_id command.run_id command.id ≡ none
  pub no_event : db.outbox command.organisation_id command.id ≡ none
  pub no_proof : command_proof command.body ≡ none
  pub moves : apply m (command_op command at) run ≡ ok updated

abbrev pub answer : Digests → Db → RunCommand → RotationRun → RotationRun → MutationResult × Db
answer d db command run updated =
    let step =
      mutation_step command (d.mutation_hash command) run updated (command_proof command.body) in
    (
      record { run = updated; step = step; applied = true },
      commit_mutation db command (event_kind command.body) run updated step
          (lock_held_by (db.locks command.organisation_id run.credential_id) run.id),
    )

module _ (d : Digests) (m : Machine) (at : ℕ) (db : Db) (command : RunCommand)
    (run updated : RotationRun) (a : Appliable m at db command run updated) where
  checked_transition : validate_transition run updated command.organisation_id ≡ ok tt
  unfolding validate_transition
  checked_transition =
      let (same, raised) = apply-Advances m (command_op command at) run a.moves in
      let same_id = same.same_id in
      let same_organisation = same.same_organisation in
      let own = a.own in
      ground
        (arith, eq_iff updated.organisation_id command.organisation_id, eq_iff updated.id run.id)

  -- A command of the holder of the lock whose transition succeeds is applied.
  pub run_command-Appliable : run_command d m at db command ≡ ok (answer d db command run updated)
  unfolding run_command mutate mutate_or_replay fresh_mutation found check_gate
  run_command-Appliable =
      let checks = checked_transition in
      let own = (eq_iff run.organisation_id command.organisation_id).1 a.own in
      let expected = (nat_eq.equals_iff run.revision command.expected_revision).1 a.expected in
      rw (a.no_step, a.no_event, a.stored, own, expected, a.locked, a.no_proof, a.moves, checks)
        refl
