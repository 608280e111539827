-- ===== src/Workflow/Reaper/Single.antt =====
-- One candidate of a pass of server/core/workflow/steps.py: the loop's body ends with the run failed
-- or under recovery.
use uumi.Prelude.{
  Bool, Option, String, [], arith, false, if◌then◌else◌, nat_eq, none, refl, some, string_eq, subst,
  subst₂, sym, true, ℕ, ◌&&◌, ◌*◌, ◌+◌, ◌<◌, ◌∙◌, ◌∷◌, ◌≡◌, ◌≢◌, ◌≤◌,
}
use uumi.Contracts.{
  CommandBody, Failure, IsValid, Lease, RotationRun, RunCommand, RunStatus, stage_eq, status_eq,
  status_in,
}
use uumi.Errors.{Result, ok}
use uumi.Machine.{Machine, apply, grant, held_by_other, may_interrupt, stamp, without_recovery}
use uumi.Machine.Effects.{failed_run, failed_with, recovered, recovering_run}
use uumi.Machine.Revision.{SameIdentity, apply-Advances}
use uumi.Machine.Exact.{apply-ok_iff}
use uumi.Runs.{Db, Digests, LockDoc, commit_mutation, lock_held_by, releases_lock}
use uumi.Workflow.{command_op, command_proof, machine_op, run_command}
use uumi.Workflow.Reaper.{
  Pass, Reaped, fail_run, interrupt_command, lease_expired, recover_command, restart_recovery,
}
use uumi.Workflow.Reaper.Commands.{answer, run_command-Appliable}
use uumi.Workflow.Reaper.Frame.{Frame, Separates, answer-Frame}
use uumi.Store.{Table, get-put_self, put_deep_other, put_other, remove}

-- The run is stored, valid, holds its lock, and the commands that the pass may give it from this
-- revision on are not recorded yet.
pub record Stored (p : Pass) (db : Db) (run : RotationRun) : Type 0 where
  pub at_path : db.runs p.organisation_id run.id ≡ some run
  pub own : run.organisation_id ≡ p.organisation_id
  pub valid : IsValid run
  pub locked : lock_held_by (db.locks p.organisation_id run.credential_id) run.id ≡ true
  pub no_step :
      (named : RotationRun) (name : String)
      → named.id ≡ run.id
      → run.revision ≤ named.revision
      → db.steps p.organisation_id run.id (p.reap_id named name) ≡ none
  pub no_event :
      (named : RotationRun) (name : String)
      → named.id ≡ run.id
      → run.revision ≤ named.revision
      → db.outbox p.organisation_id (p.reap_id named name) ≡ none

-- The run is stored under recovery by the pass's actor, for half an hour, or as failed.
pub data Handled (p : Pass) (db : Db) (id : String) : Type 0 where
  recovers :
      (s : RotationRun)
      → db.runs p.organisation_id id ≡ some s
      → s.status ≡ RunStatus.recovering
      → s.lease ≡ grant p.actor_id s.fencing_token (p.now + 30 * 60)
      → Handled p db id
  fails :
      (s : RotationRun)
      → db.runs p.organisation_id id ≡ some s
      → s.status ≡ RunStatus.failed
      → s.lease ≡ none
      → Handled p db id

-- What the body of the loop gives for a run.
abbrev pub Done : Pass → Db → RotationRun → Result Reaped → Type 0
Done p db run call =
    (r : Reaped) × (call ≡ ok r)
    × (r.run.id ≡ run.id)
    × Frame p run.id db r.db
    × Handled p r.db run.id

-- A command that the pass gives to the run.
pub record OfPass (p : Pass) (run : RotationRun) (command : RunCommand) (name : String)
    : Type 0 where
  pub in_pass : command.organisation_id ≡ p.organisation_id
  pub on_run : command.run_id ≡ run.id
  pub by_pass : command.id ≡ p.reap_id run name
  pub revised : command.expected_revision ≡ run.revision
  pub no_proof : command_proof command.body ≡ none

live-not_ended :
    (run : RotationRun)
    → status_in run.status (RunStatus.running ∷ RunStatus.recovering ∷ []) ≡ true
    → status_in run.status (RunStatus.completed ∷ RunStatus.failed ∷ RunStatus.compensated ∷ [])
      ≡ false
live-not_ended run h = ground arith

pub may_interrupt_expired :
    (lease : Option Lease) (token now at : ℕ)
    → lease_expired lease now ≡ true
    → now ≤ at
    → may_interrupt lease token at ≡ true
may_interrupt_expired none token now at h later = cc
may_interrupt_expired (some l) token now at h later = ground arith

-- An expired lease holds nobody back.
pub free_when_expired :
    (lease : Option Lease) (owner : String) (now at : ℕ)
    → lease_expired lease now ≡ true
    → now ≤ at
    → held_by_other lease owner at ≡ false
free_when_expired none owner now at h later = cc
free_when_expired (some l) owner now at h later = ground arith

module _ (d : Digests) (m : Machine) (p : Pass) (db : Db) (run : RotationRun)
    (s : Stored p db run) where
  -- A command of the pass whose transition succeeds is applied.
  pub given :
      (at : ℕ) (command : RunCommand) (name : String) (updated : RotationRun)
      → OfPass p run command name
      → apply m (command_op command at) run ≡ ok updated
      → run_command d m at db command ≡ ok (answer d db command run updated)
  given at command name updated c moves =
      run_command-Appliable d m at db command run updated (record {
        stored = rw (c.in_pass, c.on_run) s.at_path;
        own = s.own ∙ sym c.in_pass;
        expected = sym c.revised;
        locked = rw c.in_pass s.locked;
        no_step = rw (c.in_pass, c.on_run, c.by_pass) (s.no_step run name refl (omega arith));
        no_event = rw (c.in_pass, c.by_pass) (s.no_event run name refl (omega arith));
        no_proof = c.no_proof;
        moves = moves;
      })

  pub given-Frame :
      (command : RunCommand) (name : String) (updated : RotationRun)
      → OfPass p run command name
      → Frame p run.id db (answer d db command run updated).1
  given-Frame command name updated c =
      answer-Frame d p db command run updated name run c.in_pass c.on_run c.by_pass refl s.locked

  given_stored :
      (command : RunCommand) (name : String) (updated : RotationRun)
      → OfPass p run command name
      → (answer d db command run updated).1.runs p.organisation_id run.id ≡ some updated
  unfolding commit_mutation
  given_stored command name updated c =
      rw (c.in_pass, c.on_run) (get-put_self db.runs p.organisation_id run.id updated)

  -- `recover` of a run that is cleaned up.
  pub restart_recovery-Done :
      (at : ℕ)
      → run.status ≡ RunStatus.cleanup
      → held_by_other run.lease p.actor_id at ≡ false
      → at < p.now + 30 * 60
      → Done p db run (restart_recovery d m p at run db)
  unfolding restart_recovery
  restart_recovery-Done at c free late =
      let updated = stamp (recovering_run run p.actor_id (p.now + 30 * 60)) at in
      let command = recover_command p run in
      let own : OfPass p run command "recover" =
        unfold recover_command in
        record {
          in_pass = s.own;
          on_run = refl;
          by_pass = refl;
          revised = refl;
          no_proof = refl;
        } in
      let moves : apply m (command_op command at) run ≡ ok updated =
        unfold recover_command machine_op in
        (apply-ok_iff m _ run updated s.valid).1
          (recovered refl (rw c refl) free late refl, λ i. i) in
      (
        record { run = updated; restarts = true; db = (answer d db command run updated).1 },
        rw (given at command "recover" updated own moves) refl,
        unfold stamp in refl,
        given-Frame command "recover" updated own,
        recovers updated (given_stored command "recover" updated own) (unfold stamp in refl)
            (unfold stamp in refl),
      )

  -- `fail` of a run whose lease has expired.
  pub fail_run-Done :
      (at : ℕ) (name : String) (failure : Failure)
      → status_in run.status (RunStatus.running ∷ RunStatus.recovering ∷ []) ≡ true
      → lease_expired run.lease p.now ≡ true
      → p.now ≤ at
      → Done p db run (fail_run d m p at run name failure db)
  unfolding fail_run
  fail_run-Done at name failure live expired later =
      let updated = stamp (failed_with run failure) at in
      let command = interrupt_command p run name (CommandBody.fail run.fencing_token failure) in
      let own : OfPass p run command name =
        unfold interrupt_command in
        record { in_pass = refl; on_run = refl; by_pass = refl; revised = refl; no_proof = refl } in
      let moves : apply m (command_op command at) run ≡ ok updated =
        unfold interrupt_command machine_op in
        (apply-ok_iff m _ run updated s.valid).1 (
          failed_run (live-not_ended run live) refl
              (may_interrupt_expired run.lease run.fencing_token p.now at expired later) refl,
          λ i. i,
        ) in
      (
        record { run = updated; restarts = false; db = (answer d db command run updated).1 },
        rw (given at command name updated own moves) refl,
        (apply-Advances m (command_op command at) run moves).0.same_id,
        given-Frame command name updated own,
        fails updated (given_stored command name updated own)
            (unfold stamp without_recovery in refl) (unfold stamp without_recovery in refl),
      )

lock_kept_by :
    (t : Table LockDoc) (o c id : String) (holds released : Bool)
    → released ≡ false
    → lock_held_by (t o c) id ≡ true
    → lock_held_by ((if holds && released then remove t o c else t) o c) id ≡ true
lock_kept_by t o c id holds true e h = cc
lock_kept_by t o c id true false e h = h
lock_kept_by t o c id false false e h = h

-- A run that the pass has cleaned up is ready for its recovery.
module _ (d : Digests) (m : Machine) (p : Pass) (separate : Separates p) (db : Db)
    (run : RotationRun) (s : Stored p db run) (command : RunCommand)
    (c : OfPass p run command "cleanup") (updated : RotationRun) (same : SameIdentity run updated)
    (raised : updated.revision ≡ run.revision + 1) (valid : IsValid updated)
    (keeps_lock : releases_lock updated.status ≡ false) where
  -- The digest of a later revision is another one.
  later_command :
      (named : RotationRun) (name : String)
      → updated.revision ≤ named.revision
      → p.reap_id named name ≢ command.id
  later_command named name later e =
      let same_revision = (separate named run name "cleanup" (e ∙ c.by_pass)).1 in omega arith

  abbrev after : Db
  after = (answer d db command run updated).1

  pub cleaned_up-Stored : Stored p after updated
  unfolding commit_mutation
  cleaned_up-Stored = record {
    at_path =
        subst (λ i. after.runs p.organisation_id i ≡ some updated) (sym same.same_id)
          (given_stored d m p db run s command "cleanup" updated c);
    own = same.same_organisation ∙ s.own;
    valid = valid;
    locked =
        subst₂ (λ k i. lock_held_by (after.locks p.organisation_id k) i ≡ true)
          (sym same.same_credential) (sym same.same_id)
          (rw c.in_pass (
            lock_kept_by db.locks p.organisation_id run.credential_id run.id _ _ keeps_lock
              s.locked));
    no_step = λ named name e later.
        subst (λ i. after.steps p.organisation_id i (p.reap_id named name) ≡ none)
          (sym same.same_id)
          (put_deep_other db.steps _ _ command.id _ _ run.id _ (later_command named name later)
            ∙ s.no_step named name (e ∙ same.same_id) (omega arith));
    no_event = λ named name e later.
        put_other db.outbox _ command.id _ _ _ (later_command named name later)
        ∙ s.no_event named name (e ∙ same.same_id) (omega arith);
  }
