-- ===== src/Workflow/Reaper/Frame.antt =====
-- What the commands of a pass of server/core/workflow/steps.py on one run leave as it was for the
-- other runs of the organisation.
use uumi.Prelude.{
  Bool, Option, String, absurd, arith, eq_iff, false, if◌then◌else◌, inl, inr, nat_eq, none, some,
  string_eq, sym, true, ◌∙◌, ◌≡◌, ◌≢◌,
}
use uumi.Contracts.{RotationRun, RunCommand}
use uumi.Store.{get-remove, put_deep_elsewhere, put_other, remove}
use uumi.Runs.{Db, Digests, LockDoc, commit_mutation, lock_held_by, releases_lock}
use uumi.Workflow.Reaper.{Pass}
use uumi.Workflow.Reaper.Commands.{answer}

-- The digests of two commands differ when the runs, or their revisions, do.
abbrev pub Separates : Pass → Type 0
Separates p =
    (r s : RotationRun) (a b : String)
    → p.reap_id r a ≡ p.reap_id s b
    → (r.id ≡ s.id) × (r.revision ≡ s.revision)

-- The commands of the pass on a run leave the other runs, with their locks and records.
pub record Frame (p : Pass) (id : String) (db db' : Db) : Type 0 where
  pub other_runs :
      (i : String) → i ≢ id → db'.runs p.organisation_id i ≡ db.runs p.organisation_id i
  pub other_steps :
      (i c : String) → i ≢ id → db'.steps p.organisation_id i c ≡ db.steps p.organisation_id i c
  pub other_events :
      (c : String)
      → ((r : RotationRun) (a : String) → r.id ≡ id → c ≢ p.reap_id r a)
      → db'.outbox p.organisation_id c ≡ db.outbox p.organisation_id c
  pub other_locks :
      (c i : String)
      → i ≢ id
      → lock_held_by (db.locks p.organisation_id c) i ≡ true
      → lock_held_by (db'.locks p.organisation_id c) i ≡ true

pub Frame-trans :
    (p : Pass) (id : String) {a b c : Db} → Frame p id a b → Frame p id b c → Frame p id a c
Frame-trans p id f g = record {
  other_runs = λ i n. g.other_runs i n ∙ f.other_runs i n;
  other_steps = λ i c n. g.other_steps i c n ∙ f.other_steps i c n;
  other_events = λ c n. g.other_events c n ∙ f.other_events c n;
  other_locks = λ c i n h. g.other_locks c i n (f.other_locks c i n h);
}

held_once :
    (lock : Option LockDoc) (i j : String)
    → lock_held_by lock i ≡ true
    → lock_held_by lock j ≡ true
    → i ≡ j
held_once none i j h k = cc
held_once (some doc) i j h k = ground (arith, eq_iff doc.run_id i, eq_iff doc.run_id j)

-- The lock that a run gives up is its own.
lock_kept :
    (db : Db) (o c id i : String) (released : Bool) (credential : String)
    → lock_held_by (db.locks o credential) id ≡ true
    → i ≢ id
    → lock_held_by (db.locks o c) i ≡ true
    → lock_held_by ((if released then remove db.locks o credential else db.locks) o c) i ≡ true
lock_kept db o c id i false credential own n h = h
lock_kept db o c id i true credential own n h = elim (get-remove db.locks o credential o c) [
  | inl (eo, ec, gone) ↦ absurd (n (sym (held_once (db.locks o credential) id i own (rw ec h))))
  | inr (other, same) ↦ rw same h
]

-- The store after a command of the pass.
module _ (d : Digests) (p : Pass) (db : Db) (command : RunCommand) (run updated : RotationRun)
    (name : String) (named : RotationRun) (in_pass : command.organisation_id ≡ p.organisation_id)
    (on_run : command.run_id ≡ run.id) (by_pass : command.id ≡ p.reap_id named name)
    (of_run : named.id ≡ run.id)
    (locked : lock_held_by (db.locks p.organisation_id run.credential_id) run.id ≡ true) where
  after_locks :
      (c i : String)
      → i ≢ run.id
      → lock_held_by (db.locks p.organisation_id c) i ≡ true
      → lock_held_by ((answer d db command run updated).1.locks p.organisation_id c) i ≡ true
  unfolding commit_mutation
  after_locks c i n h =
      rw (in_pass, locked)
        (lock_kept db p.organisation_id c run.id i (releases_lock updated.status) run.credential_id
          locked n h)

  pub answer-Frame : Frame p run.id db (answer d db command run updated).1
  unfolding commit_mutation
  answer-Frame = record {
    other_runs = λ i n. put_other db.runs _ command.run_id _ _ i (λ e. n (e ∙ on_run));
    other_steps =
        λ i c n. put_deep_elsewhere db.steps _ command.run_id _ _ _ i c (λ e. n (e ∙ on_run));
    other_events =
        λ c n. put_other db.outbox _ command.id _ _ c (λ e. n named name of_run (e ∙ by_pass));
    other_locks = after_locks;
  }
