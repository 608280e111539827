-- ===== src/Runs/Outcome.antt =====
-- What `create` and `mutate` of server/core/storage/firestore.py have read when they succeed, and
-- what they return and write.
use uumi.Prelude.{
  Option, Option-cases, String, arith, eq_iff, false, inl, inr, is_some, nat_eq, none, refl, some,
  string_eq, true, ◌+◌, ◌==◌, ◌≡◌, ◌⊎◌,
}
use uumi.Contracts.{
  ControlVersion, CreateRunCommand, EventKind, RotationRun, RunCommand, RunStep, StageProof,
}
use uumi.Errors.{
  >>-eq-ok, >>=-eq-ok, Result, active_run_conflict, idempotency_conflict, ok, reject_if-eq-ok,
  require-eq-ok, revision_conflict, run_not_found, storage_integrity,
}
use uumi.Store.{found, found-ok}
use uumi.Runs.{
  Db, DedupeDoc, Digests, MutationResult, check_gate, commit_create, commit_mutation, create,
  create_or_replay, creation_step, existing_create, fresh_create, fresh_mutation, lock_held_by,
  may_mutate, mutate, mutate_or_replay, mutation_step, pinned_controls, replay_mutation, tenant,
  validate_create, validate_transition,
}

-- A mutation that is applied.
pub record Applied (d : Digests) (db : Db) (command : RunCommand) (kind : EventKind)
    (transition : RotationRun → Result RotationRun) (proof : Option StageProof)
    (result : MutationResult × Db) : Type 0 where
  pub run : RotationRun
  pub updated : RotationRun
  pub no_step : db.steps command.organisation_id command.run_id command.id ≡ none
  pub no_event : is_some (db.outbox command.organisation_id command.id) ≡ false
  pub stored : db.runs command.organisation_id command.run_id ≡ some run
  pub own : run.organisation_id ≡ command.organisation_id
  pub expected : run.revision ≡ command.expected_revision
  pub admitted :
      may_mutate
        (lock_held_by (db.locks command.organisation_id run.credential_id) run.id)
        command
        run
      ≡ true
  pub gated : check_gate d db run proof ≡ ok tt
  pub moved : transition run ≡ ok updated
  pub checked : validate_transition run updated command.organisation_id ≡ ok tt
  pub returns : result ≡ (
    record {
      run = updated;
      step = mutation_step command (d.mutation_hash command) run updated proof;
      applied = true;
    },
    commit_mutation db command kind run updated
        (mutation_step command (d.mutation_hash command) run updated proof)
        (lock_held_by (db.locks command.organisation_id run.credential_id) run.id),
  )

-- A mutation that had been applied before.
pub record Replayed (d : Digests) (db : Db) (command : RunCommand) (result : MutationResult × Db)
    : Type 0 where
  pub run : RotationRun
  pub step : RunStep
  pub old_step : db.steps command.organisation_id command.run_id command.id ≡ some step
  pub same_hash : step.command_hash ≡ d.mutation_hash command
  pub stored : db.runs command.organisation_id command.run_id ≡ some run
  pub returns : result ≡ (record { run = run; step = step; applied = false }, db)

module _ (d : Digests) (db : Db) (command : RunCommand) (kind : EventKind)
    (transition : RotationRun → Result RotationRun) (proof : Option StageProof) where
  fresh-Applied :
      {result : MutationResult × Db}
      → db.steps command.organisation_id command.run_id command.id ≡ none
      → fresh_mutation d db command kind transition proof ≡ ok result
      → Applied d db command kind transition proof result
  unfolding fresh_mutation
  fresh-Applied new h =
      let (g0, h0) =
        reject_if-eq-ok (is_some (db.outbox command.organisation_id command.id))
          idempotency_conflict _ h in
      let (run, g1, h1) =
        >>=-eq-ok (found (db.runs command.organisation_id command.run_id) run_not_found) _ h0 in
      let (g2, h2) = >>-eq-ok (tenant run command.organisation_id) _ h1 in
      let (g3, h3) =
        require-eq-ok (run.revision == command.expected_revision) revision_conflict _ h2 in
      let (g4, h4) =
        require-eq-ok
          (may_mutate (lock_held_by (db.locks command.organisation_id run.credential_id) run.id)
            command run)
          storage_integrity _ h3 in
      let (g5, h5) = >>-eq-ok (check_gate d db run proof) _ h4 in
      let (updated, g6, h6) = >>=-eq-ok (transition run) _ h5 in
      let (g7, h7) = >>-eq-ok (validate_transition run updated command.organisation_id) _ h6 in
      record {
        run = run;
        updated = updated;
        no_step = new;
        no_event = g0;
        stored = found-ok _ run_not_found g1;
        own = ground (arith, eq_iff run.organisation_id command.organisation_id);
        expected = (nat_eq.equals_iff run.revision command.expected_revision).0 g3;
        admitted = g4;
        gated = g5;
        moved = g6;
        checked = g7;
        returns = ground arith;
      }

  replay-Replayed :
      {result : MutationResult × Db} (step : RunStep)
      → db.steps command.organisation_id command.run_id command.id ≡ some step
      → replay_mutation d db command step ≡ ok result
      → Replayed d db command result
  unfolding replay_mutation
  replay-Replayed step old h =
      let (g0, h0) =
        require-eq-ok (step.command_hash == d.mutation_hash command) idempotency_conflict _ h in
      let (run, g1, h1) =
        >>=-eq-ok (found (db.runs command.organisation_id command.run_id) storage_integrity) _ h0 in
      let (g2, h2) = >>-eq-ok (tenant run command.organisation_id) _ h1 in
      record {
        run = run;
        step = step;
        old_step = old;
        same_hash = (eq_iff step.command_hash (d.mutation_hash command)).0 g0;
        stored = found-ok _ storage_integrity g1;
        returns = ground arith;
      }

  -- A mutation that succeeds is applied now, or was applied before.
  pub mutate-outcome :
      {result : MutationResult × Db}
      → mutate d db command kind transition proof ≡ ok result
      → Applied d db command kind transition proof result ⊎ Replayed d db command result
  unfolding mutate mutate_or_replay
  mutate-outcome h =
      elim (Option-cases (db.steps command.organisation_id command.run_id command.id)) [
        | inl new ↦ inl (fresh-Applied new (rw new at h))
        | inr (step, old) ↦ inr (replay-Replayed step old (rw old at h))
      ]

pub validate_transition-ok :
    (previous updated : RotationRun) (organisation_id : String)
    → validate_transition previous updated organisation_id ≡ ok tt
    → (updated.organisation_id ≡ organisation_id)
      × (updated.id ≡ previous.id)
      × (updated.revision ≡ previous.revision + 1)
unfolding validate_transition
validate_transition-ok p u o h =
    (ground (arith, eq_iff u.organisation_id o), ground (arith, eq_iff u.id p.id), ground arith)

-- A creation that is applied.
pub record Created (d : Digests) (db : Db) (run : RotationRun) (command : CreateRunCommand)
    (result : MutationResult × Db) : Type 0 where
  pub unlocked : db.locks run.organisation_id run.credential_id ≡ none
  pub unused_id : db.runs run.organisation_id run.id ≡ none
  pub no_event : db.outbox run.organisation_id command.id ≡ none
  pub controls : ControlVersion
  pub pinned : pinned_controls d db run ≡ ok controls
  pub returns : result ≡ (
    record {
      run = run;
      step = creation_step run command (d.creation_hash command);
      applied = true;
    },
    commit_create db run command (d.creation_hash command),
  )

pub none_of_is_some {ℓ} : {A : Type ℓ} (o : Option A) → is_some o ≡ false → o ≡ none
none_of_is_some none h = refl
none_of_is_some (some a) h = cc

fresh-Created :
    (d : Digests) (db : Db) (run : RotationRun) (command : CreateRunCommand)
    {result : MutationResult × Db}
    → fresh_create d db run command ≡ ok result
    → Created d db run command result
unfolding fresh_create
fresh-Created d db run command h =
    let (g0, h0) =
      reject_if-eq-ok (is_some (db.locks run.organisation_id run.credential_id)) active_run_conflict
        _ h in
    let (g1, h1) =
      reject_if-eq-ok (is_some (db.runs run.organisation_id run.id)) idempotency_conflict _ h0 in
    let (g2, h2) =
      reject_if-eq-ok (is_some (db.outbox run.organisation_id command.id)) idempotency_conflict _
        h1 in
    let (c, g3, h3) = >>=-eq-ok (pinned_controls d db run) _ h2 in
    record {
      unlocked = none_of_is_some _ g0;
      unused_id = none_of_is_some _ g1;
      no_event = none_of_is_some _ g2;
      controls = c;
      pinned = g3;
      returns = ground arith;
    }

existing_unchanged :
    (db : Db) (doc : DedupeDoc) (organisation_id request_hash : String)
    {result : MutationResult × Db}
    → existing_create db doc organisation_id request_hash ≡ ok result
    → (result.1 ≡ db) × (result.0.applied ≡ false)
unfolding existing_create
existing_unchanged db doc o hash h =
    let (g0, h0) = require-eq-ok (doc.request_hash == hash) idempotency_conflict _ h in
    let (run, g1, h1) = >>=-eq-ok (found (db.runs o doc.run_id) storage_integrity) _ h0 in
    let (step, g2, h2) =
      >>=-eq-ok (found (db.steps o doc.run_id doc.step_id) storage_integrity) _ h1 in
    let (g3, h3) = >>-eq-ok (tenant run o) _ h2 in (ground arith, ground arith)

-- A creation that succeeds is applied now, or changes nothing.
pub create-outcome :
    (d : Digests) (db : Db) (run : RotationRun) (command : CreateRunCommand)
    {result : MutationResult × Db}
    → create d db run command ≡ ok result
    → Created d db run command result ⊎ (result.1 ≡ db) × (result.0.applied ≡ false)
unfolding create create_or_replay
create-outcome d db run command h =
    let (g0, h0) = >>-eq-ok (validate_create run command) _ h in
    elim (Option-cases (db.dedupe run.organisation_id run.trigger.source run.trigger.event_id)) [
      | inl new ↦ inl (fresh-Created d db run command (rw new at h0))
      | inr (doc, old) ↦ inr (existing_unchanged db doc _ _ (rw old at h0))
    ]

-- The answer to a command whose step is recorded.
pub replayed_answer :
    (d : Digests) (db : Db) (command : RunCommand) (kind : EventKind)
    (transition : RotationRun → Result RotationRun) (proof : Option StageProof) (step : RunStep)
    (r : RotationRun)
    → db.steps command.organisation_id command.run_id command.id ≡ some step
    → step.command_hash ≡ d.mutation_hash command
    → db.runs command.organisation_id command.run_id ≡ some r
    → r.organisation_id ≡ command.organisation_id
    → mutate d db command kind transition proof
      ≡ ok (record { run = r; step = step; applied = false }, db)
unfolding mutate mutate_or_replay replay_mutation found
replayed_answer d db command kind transition proof step r at hash stored own =
    rw (at, stored)
      (ground (
        arith,
        eq_iff step.command_hash (d.mutation_hash command),
        eq_iff r.organisation_id command.organisation_id,
      ))
