-- ===== src/Workflow/Failed.antt =====
-- A failed run, between server/core/state/machine.py and server/core/storage/firestore.py.
use uumi.Prelude.{
  Bool-cases, String, and_left, ap, arith, eq_iff, false, inl, inr, refl, some, string_eq, subst,
  true, ℕ, ◌==◌, ◌∙◌, ◌≡◌,
}
use uumi.Contracts.{RotationRun, RunCommand, RunStatus, operation, status_eq}
use uumi.Errors.{ok}
use uumi.Machine.{Machine, apply}
use uumi.Runs.{Db, Digests, MutationResult, lock_held_by, may_mutate, releases_lock}
use uumi.Runs.Outcome.{mutate-outcome}
use uumi.Workflow.Locks.{Consistent, IsLive, lock_held_by-some}
use uumi.Workflow.{command_op, command_proof, event_kind, run_command}

failed_lock :
    (db : Db) (o i : String) (run : RotationRun)
    → Consistent db
    → db.runs o i ≡ some run
    → run.status ≡ RunStatus.failed
    → lock_held_by (db.locks o run.credential_id) run.id ≡ false
failed_lock db o i run c stored failed =
    elim (Bool-cases (lock_held_by (db.locks o run.credential_id) run.id)) [
      | inr free ↦ free
      | inl held ↦
          let (k, at, ki) = lock_held_by-some (db.locks o run.credential_id) run.id held in
          let (r, there, rc, live) = c.lock_live o run.credential_id k at in
          let named = ki ∙ (c.own_path o i run stored).1 in
          let there' = subst (λ x. db.runs o x ≡ some r) named there in
          let e : r ≡ run = ground arith in
          let dead : releases_lock run.status ≡ true = rw failed refl in
          let alive = subst IsLive e live in cc
    ]

-- A failed run can only be cancelled: it has given up its lock, so every other new command on it is
-- refused, `recover` too, which the state machine would accept.
pub failed_run_only_cancelled :
    (d : Digests) (m : Machine) (now : ℕ) (db : Db) (command : RunCommand) (run : RotationRun)
    (result : MutationResult × Db)
    → Consistent db
    → db.runs command.organisation_id command.run_id ≡ some run
    → run.status ≡ RunStatus.failed
    → run_command d m now db command ≡ ok result
    → result.0.applied ≡ true
    → operation command.body ≡ "cancel"
unfolding run_command
failed_run_only_cancelled d m now db command run result c stored failed h applied =
    elim (mutate-outcome d db command (event_kind command.body) (apply m (command_op command now))
      (command_proof command.body) h) [
        | inl a ↦
            let e : a.run ≡ run = ground arith in
            let free = failed_lock db command.organisation_id command.run_id run c stored failed in
            let admitted =
              subst
                (λ r.
                  may_mutate (lock_held_by (db.locks command.organisation_id r.credential_id) r.id)
                    command r
                  ≡ true)
                e a.admitted in
            let named = and_left (operation command.body == "cancel") _ (rw free at admitted) in
            (eq_iff (operation command.body) "cancel").0 named
        | inr p ↦ let old = ap (λ (x : MutationResult × Db). x.0.applied) p.returns in cc
      ]
