-- ===== src/Workflow/LogHistory.antt =====
-- The transactions of server/core/workflow/steps.py write a log without gaps.
use uumi.Prelude.{
  Option, String, ap, arith, inl, inr, refl, some, string_eq, subst, sym, ℕ, ◌+◌, ◌∙◌, ◌≡◌, ◌≤◌,
}
use uumi.Contracts.{CreateRunCommand, OutboxEvent, RotationRun, RunCommand}
use uumi.Machine.{Machine, apply}
use uumi.Runs.{Db, Digests, MutationResult, build_outbox, commit_create, commit_mutation}
use uumi.Runs.Outcome.{
  Applied, Created, create-outcome, mutate-outcome, none_of_is_some, validate_transition-ok,
}
use uumi.Workflow.Locks.{Consistent}
use uumi.Workflow.LockHistory.{History, History-Consistent, begin, creation, mutation}
use uumi.Workflow.Log.{Logged, added-Logged}
use uumi.Workflow.{
  build_run, command_op, command_proof, create_run, event_kind, or_new, run_command,
}

one_value {ℓ} : {A : Type ℓ} {o : Option A} {a b : A} → o ≡ some a → o ≡ some b → a ≡ b
one_value h k = ground arith

Applied-Logged :
    (d : Digests) (m : Machine) (now : ℕ) (db : Db) (command : RunCommand)
    {result : MutationResult × Db}
    → Consistent db
    → Logged db
    → Applied d db command
        (event_kind command.body)
        (apply m (command_op command now))
        (command_proof command.body)
        result
    → Logged result.1
unfolding commit_mutation build_outbox
Applied-Logged d m now db command {result} c l a =
    let (org, id, rev) = validate_transition-ok a.run a.updated command.organisation_id a.checked in
    let own = c.own_path command.organisation_id command.run_id a.run a.stored in
    subst Logged (sym (ap (λ x. x.1) a.returns)) (
      added-Logged db _ command.organisation_id command.run_id command.id a.updated _ l
        (none_of_is_some _ a.no_event) refl refl (id ∙ own.1) refl
        (λ r there.
          let e : a.run ≡ r = one_value a.stored there in rev ∙ ap (λ x. x.revision + 1) e)
        (λ gone. let stored = a.stored in cc))

Created-Logged :
    (d : Digests) (db : Db) (run : RotationRun) (command : CreateRunCommand)
    {result : MutationResult × Db}
    → run.revision ≡ 0
    → Logged db
    → Created d db run command result
    → Logged result.1
unfolding commit_create build_outbox
Created-Logged d db run command {result} first l c = subst Logged (sym (ap (λ x. x.1) c.returns)) (
    added-Logged db _ run.organisation_id run.id command.id run _ l c.no_event refl refl refl refl
      (λ r there. let gone = c.unused_id in cc) (λ gone. first))

pub History-Logged :
    {d : Digests} {m : Machine} {db db' : Db}
    → Consistent db
    → Logged db
    → History d m db db'
    → Logged db'
unfolding create_run run_command build_run
History-Logged c l begin = l
History-Logged {d} c l (creation {db' = q} w now new_id command result e) =
    let before = History-Logged c l w in
    elim (create-outcome d q (build_run command (or_new command.run_id new_id) now) command e) [
      | inl made ↦ Created-Logged d q _ command refl before made
      | inr (same, replayed) ↦ subst Logged (sym same) before
    ]
History-Logged {d} {m} c l (mutation {db' = q} w now command result e) =
    let before = History-Logged c l w in
    elim (mutate-outcome d q command (event_kind command.body) (apply m (command_op command now))
      (command_proof command.body) e) [
        | inl a ↦ Applied-Logged d m now q command (History-Consistent c w) before a
        | inr p ↦ subst Logged (sym (ap (λ x. x.1) p.returns)) before
      ]

-- Whatever creations and commands succeed from a consistent and logged store, every revision of a
-- stored run up to its current one has exactly one outbox event: there is one, and two events of
-- the run with one revision are the same.
pub History-one_event_each :
    (d : Digests) (m : Machine) (db db' : Db) (o i : String) (r : RotationRun) (n : ℕ)
    → Consistent db
    → Logged db
    → History d m db db'
    → db'.runs o i ≡ some r
    → n ≤ r.revision
    → (id : String) × (e : OutboxEvent) × (db'.outbox o id ≡ some e)
      × (e.event.run_id ≡ i)
      × (e.event.revision ≡ n)
      × ((id' : String) (e' : OutboxEvent)
          → db'.outbox o id' ≡ some e'
          → e'.event.run_id ≡ i
          → e'.event.revision ≡ n
          → id ≡ id')
History-one_event_each d m db db' o i r n c l w stored le =
    let after = History-Logged c l w in
    let (id, e, at, er, en) = after.no_gap o i r n stored le in
    (
      id,
      e,
      at,
      er,
      en,
      λ id' e' at' er' en'. after.one_event o id id' e e' at at' (er ∙ sym er') (en ∙ sym en'),
    )
