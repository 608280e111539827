-- ===== src/Workflow/LockHistory.antt =====
-- The transactions of server/core/workflow/steps.py keep one live run for each credential.
use uumi.Prelude.{
  Bool, String, and_left, ap, arith, false, inl, inr, none, refl, some, string_eq, subst, subst₂,
  sym, true, ℕ, ◌==◌, ◌∙◌, ◌≡◌,
}
use uumi.Contracts.{
  CommandBody, CreateRunCommand, RotationRun, RunCommand, RunStatus, operation, status_eq,
}
use uumi.Machine.{Machine, apply, op_cancel, stamp}
use uumi.Machine.Revision.{apply-Advances}
use uumi.Machine.Effects.{Effect, apply-Effect, cancelled_by}
use uumi.Runs.{
  Db, Digests, LockDoc, MutationResult, commit_create, commit_mutation, lock_held_by, may_mutate,
  releases_lock,
}
use uumi.Runs.Outcome.{Applied, create-outcome, mutate-outcome, validate_transition-ok}
use uumi.Workflow.{
  build_run, command_op, command_proof, create_run, event_kind, machine_op, or_new, run_command,
}
use uumi.Workflow.Locks.{Consistent, IsLive, one_live_run, replaced-Consistent}
use uumi.Errors.{ok}
use uumi.Store.{get-put, get-put_self, put}

cancel_status :
    (m : Machine) (r : RotationRun) (rev now : ℕ) {s : RotationRun}
    → Effect m r s (op_cancel rev now)
    → s.status ≡ RunStatus.cancelled
unfolding stamp
cancel_status m r rev now (cancelled_by a b e) = ground arith

-- The only command that is named "cancel" cancels.
cancel_releases :
    (m : Machine) (body : CommandBody) (r : RotationRun) (rev now : ℕ) {s : RotationRun}
    → (operation body == "cancel") ≡ true
    → apply m (machine_op body rev now) r ≡ ok s
    → releases_lock s.status ≡ true
unfolding operation machine_op
cancel_releases m CommandBody.cancel r rev now c h =
    rw (cancel_status m r rev now (apply-Effect m (op_cancel rev now) r h)) refl
cancel_releases m _ r rev now c h = cc

-- A run that is live after a command held its lock before.
live_held :
    (m : Machine) (now : ℕ) (command : RunCommand) (run : RotationRun) (holds : Bool)
    {updated : RotationRun}
    → may_mutate holds command run ≡ true
    → apply m (command_op command now) run ≡ ok updated
    → IsLive updated
    → holds ≡ true
live_held m now command run true a h live = refl
live_held m now command run false a h live =
    let named = and_left (operation command.body == "cancel") _ a in
    cc (cancel_releases m command.body run command.expected_revision now named h)

Applied-Consistent :
    (d : Digests) (m : Machine) (now : ℕ) (db : Db) (command : RunCommand)
    {result : MutationResult × Db}
    → Consistent db
    → Applied d db command
        (event_kind command.body)
        (apply m (command_op command now))
        (command_proof command.body)
        result
    → Consistent result.1
unfolding commit_mutation
Applied-Consistent d m now db command {result} ok_db a =
    let (org, id, rev) = validate_transition-ok a.run a.updated command.organisation_id a.checked in
    let (same, next_revision) = apply-Advances m (command_op command now) a.run a.moved in
    subst Consistent (sym (ap (λ x. x.1) a.returns)) (
      replaced-Consistent db _ command.organisation_id command.run_id a.run a.updated
        (lock_held_by (db.locks command.organisation_id a.run.credential_id) a.run.id) ok_db
        a.stored org id same.same_credential refl
        (live_held m now command a.run _ a.admitted a.moved) refl refl)

-- A command that succeeds keeps the runs and the locks consistent.
pub run_command-Consistent :
    (d : Digests) (m : Machine) (now : ℕ) (db : Db) (command : RunCommand)
    {result : MutationResult × Db}
    → Consistent db
    → run_command d m now db command ≡ ok result
    → Consistent result.1
unfolding run_command
run_command-Consistent d m now db command ok_db h =
    elim (mutate-outcome d db command (event_kind command.body) (apply m (command_op command now))
      (command_proof command.body) h) [
        | inl a ↦ Applied-Consistent d m now db command ok_db a
        | inr r ↦ subst Consistent (sym (ap (λ x. x.1) r.returns)) ok_db
      ]

-- A new run with its new lock.
module _ (db db' : Db) (run : RotationRun) (lock : LockDoc) (before : Consistent db)
    (unlocked : db.locks run.organisation_id run.credential_id ≡ none)
    (unused : db.runs run.organisation_id run.id ≡ none) (is_live : IsLive run)
    (lock_named : lock.run_id ≡ run.id)
    (runs_after : db'.runs ≡ put db.runs run.organisation_id run.id run)
    (locks_after : db'.locks ≡ put db.locks run.organisation_id run.credential_id lock) where
  added-own_path :
      (o i : String) (r : RotationRun)
      → db'.runs o i ≡ some r
      → (r.organisation_id ≡ o) × (r.id ≡ i)
  added-own_path o i r h =
      let h' = subst (λ t. t o i ≡ some r) runs_after h in
      elim (get-put db.runs run.organisation_id run.id run o i) [
        | inl (eo, ei, now) ↦ let e : run ≡ r = ground arith in (cc, cc)
        | inr (other, same) ↦ before.own_path o i r (sym same ∙ h')
      ]

  -- The lock of another credential stays, and so does another run.
  lock_stays :
      {o c : String} (k : LockDoc)
      → db.locks o c ≡ some k
      → put db.locks run.organisation_id run.credential_id lock o c ≡ some k
  lock_stays {o} {c} k at = elim (get-put db.locks run.organisation_id run.credential_id lock o c) [
    | inl (eo, ec, now) ↦ let none_there = subst₂ (λ x y. db.locks x y ≡ none) eo ec unlocked in cc
    | inr (other, same) ↦ same ∙ at
  ]

  run_stays :
      {o i : String} (r : RotationRun)
      → db.runs o i ≡ some r
      → put db.runs run.organisation_id run.id run o i ≡ some r
  run_stays {o} {i} r at = elim (get-put db.runs run.organisation_id run.id run o i) [
    | inl (eo, ei, now) ↦ let none_there = subst₂ (λ x y. db.runs x y ≡ none) eo ei unused in cc
    | inr (other, same) ↦ same ∙ at
  ]

  added-live_locked :
      (o i : String) (r : RotationRun)
      → db'.runs o i ≡ some r
      → IsLive r
      → (k : LockDoc) × (db'.locks o r.credential_id ≡ some k) × (k.run_id ≡ i)
  added-live_locked o i r h live =
      let h' = subst (λ t. t o i ≡ some r) runs_after h in
      elim (get-put db.runs run.organisation_id run.id run o i) [
        | inl (eo, ei, now) ↦
            let e : run ≡ r = ground arith in
            let at = get-put_self db.locks run.organisation_id run.credential_id lock in
            (
              lock,
              subst (λ t. t o r.credential_id ≡ some lock) (sym locks_after)
                  (subst₂
                    (λ x y. put db.locks run.organisation_id run.credential_id lock x y ≡ some lock)
                    eo (ap (λ x. x.credential_id) e) at),
              lock_named ∙ ei,
            )
        | inr (other, same) ↦
            let (k, at, ki) = before.live_locked o i r (sym same ∙ h') live in
            (k, subst (λ t. t o r.credential_id ≡ some k) (sym locks_after) (lock_stays k at), ki)
      ]

  added-lock_holder :
      (o c : String) (k : LockDoc)
      → db'.locks o c ≡ some k
      → (r : RotationRun) × (db'.runs o k.run_id ≡ some r) × (r.credential_id ≡ c) × IsLive r
  added-lock_holder o c k h =
      let h' = subst (λ t. t o c ≡ some k) locks_after h in
      elim (get-put db.locks run.organisation_id run.credential_id lock o c) [
        | inl (eo, ec, now) ↦
            let e : lock ≡ k = ground arith in
            let at = get-put_self db.runs run.organisation_id run.id run in
            (
              run,
              subst (λ t. t o k.run_id ≡ some run) (sym runs_after)
                  (subst₂ (λ x y. put db.runs run.organisation_id run.id run x y ≡ some run) eo
                    (sym lock_named ∙ ap (λ x. x.run_id) e) at),
              ec,
              is_live,
            )
        | inr (other, same) ↦
            let (r, at, rc, live) = before.lock_live o c k (sym same ∙ h') in
            (r, subst (λ t. t o k.run_id ≡ some r) (sym runs_after) (run_stays r at), rc, live)
      ]

  added-Consistent : Consistent db'
  added-Consistent = record {
    own_path = added-own_path;
    live_locked = added-live_locked;
    lock_live = added-lock_holder;
  }

-- A creation that succeeds keeps the runs and the locks consistent.
pub create_run-Consistent :
    (d : Digests) (now : ℕ) (new_id : String) (db : Db) (command : CreateRunCommand)
    {result : MutationResult × Db}
    → Consistent db
    → create_run d now new_id db command ≡ ok result
    → Consistent result.1
unfolding create_run
create_run-Consistent d now new_id db command ok_db h =
    let run = build_run command (or_new command.run_id new_id) now in
    elim (create-outcome d db run command h) [
      | inl c ↦ subst Consistent (sym (ap (λ x. x.1) c.returns)) (
          unfold commit_create build_run in
          added-Consistent db _ run _ ok_db c.unlocked c.unused_id refl refl refl refl)
      | inr (same, replayed) ↦ subst Consistent (sym same) ok_db
    ]

-- The states that creations and commands lead to, at any times, in any order.
pub data History (d : Digests) (m : Machine) (db : Db) : Db → Type 0 where
  begin : History d m db db
  creation :
      {db' : Db}
      → History d m db db'
      → (now : ℕ) (new_id : String) (command : CreateRunCommand) (result : MutationResult × Db)
      → create_run d now new_id db' command ≡ ok result
      → History d m db result.1
  mutation :
      {db' : Db}
      → History d m db db'
      → (now : ℕ) (command : RunCommand) (result : MutationResult × Db)
      → run_command d m now db' command ≡ ok result
      → History d m db result.1

pub History-Consistent :
    {d : Digests} {m : Machine} {db db' : Db} → Consistent db → History d m db db' → Consistent db'
History-Consistent c begin = c
History-Consistent c (creation {db' = q} w now new_id command result e) =
    create_run-Consistent _ now new_id q command (History-Consistent c w) e
History-Consistent c (mutation {db' = q} w now command result e) =
    run_command-Consistent _ _ now q command (History-Consistent c w) e

-- Whatever creations and commands succeed, in any order, from a consistent store, two live runs of
-- one credential are the same run.
pub History-one_live_run :
    (d : Digests) (m : Machine) (db db' : Db) (o i j : String) (r s : RotationRun)
    → Consistent db
    → History d m db db'
    → db'.runs o i ≡ some r
    → db'.runs o j ≡ some s
    → IsLive r
    → IsLive s
    → r.credential_id ≡ s.credential_id
    → i ≡ j
History-one_live_run d m db db' o i j r s c w = one_live_run db' o i j r s (History-Consistent c w)
