-- ===== src/Examples/ReaperTests.antt =====
-- The theorems on the pass of server/core/workflow/steps.py at two runs: one whose worker is gone, and
-- one that has been cleaned up.
use Prim.Native.Char.{char}
use uumi.Workflow.Reaper.Held.{held_run_stops_pass}
use uumi.Workflow.Reaper.Live.{OnTime, Passed, reap_expired-Passed}
use uumi.Workflow.Reaper.Single.{Stored}
use uumi.Workflow.Reaper.Frame.{Separates}
use uumi.Prelude.{
  List, Option, String, [], ap, arith, eq_iff, nat_eq, refl, some, string_eq, suc, tail_of, zero, ℕ,
  ◌∷◌, ◌≡◌,
}
use uumi.Contracts.{
  Lease, RotationRun, RunStatus, Stage, facts_of_run, is_valid_run, stage_eq, status_eq,
}
use uumi.Store.{put}
use uumi.Runs.{Db, LockDoc}
use uumi.Workflow.Reaper.{Pass, is_candidate, reap_expired}
use uumi.Examples.Data.{default_machine, new_run, timeout}
use uumi.Examples.WorkflowTests.{digests, empty_db}
use uumi.Errors.{err, lease_conflict}

abbrev lease_to : ℕ → Option Lease
lease_to n = some (record { owner_id = "worker_1"; fencing_token = 1; expires_at = n })

abbrev stale : RotationRun
stale = record new_run {
  stage = Stage.deploy;
  status = RunStatus.running;
  lease = lease_to 10;
  fencing_token = 1;
  plan_id = some "plan_1";
  plan_hash = some "hash_1";
  revision = 6;
}

abbrev parked : ℕ → RotationRun
parked n = record new_run {
  id = "run_2";
  credential_id = "cred_2";
  stage = Stage.verify;
  status = RunStatus.cleanup;
  lease = lease_to n;
  fencing_token = 1;
  failure = some timeout;
  revision = 7;
}

abbrev lock_of : RotationRun → LockDoc
lock_of run = record {
  organisation_id = "org_1";
  credential_id = run.credential_id;
  run_id = run.id;
  created_at = 1;
}

abbrev two_runs : ℕ → Db
two_runs n = record empty_db {
  runs = put (put empty_db.runs "org_1" "run_1" stale) "org_1" "run_2" (parked n);
  locks =
      put (put empty_db.locks "org_1" "cred_1" (lock_of stale)) "org_1" "cred_2"
        (lock_of (parked n));
}

-- Identifiers that tell the run and its revision.
abbrev counted : String → ℕ → String
counted id zero = String.◌∷◌ (char 0 tt) id
counted id (suc n) = String.◌∷◌ (char 1 tt) (counted id n)

abbrev pass : Pass
pass = record {
  organisation_id = "org_1";
  actor_id = "reaper";
  now = 20;
  clock = λ k. 20;
  reap_id = λ run name. counted run.id run.revision;
}

counted-injective : (i j : String) (m n : ℕ) → counted i m ≡ counted j n → (i ≡ j) × (m ≡ n)
counted-injective i j zero zero e = (ap tail_of e, refl)
counted-injective i j zero (suc n) e = cc
counted-injective i j (suc m) zero e = cc
counted-injective i j (suc m) (suc n) e =
    let (same_id, same_number) = counted-injective i j m n (ap tail_of e) in
    (same_id, ap suc same_number)

pass-Separates : Separates pass
pass-Separates r s a b e = counted-injective r.id s.id r.revision s.revision e

pass-OnTime : OnTime pass
pass-OnTime k = (omega arith, omega arith)

stale-Stored : Stored pass (two_runs 10) stale
unfolding put is_valid_run
stale-Stored = record {
  at_path = refl;
  own = refl;
  valid = facts_of_run stale refl;
  locked = refl;
  no_step = λ named name e later. refl;
  no_event = λ named name e later. refl;
}

parked-Stored : (n : ℕ) → Stored pass (two_runs n) (parked n)
unfolding put is_valid_run
parked-Stored n = record {
  at_path = refl;
  own = refl;
  valid = facts_of_run (parked n) refl;
  locked = refl;
  no_step = λ named name e later. refl;
  no_event = λ named name e later. refl;
}

abbrev listed : List RotationRun
listed = stale ∷ parked 10 ∷ new_run ∷ []

reap_expired-Passed_example :
    Passed pass
      (two_runs 10)
      (stale ∷ parked 10 ∷ [])
      (reap_expired digests default_machine pass listed (two_runs 10))
unfolding is_candidate
reap_expired-Passed_example =
    reap_expired-Passed digests default_machine pass pass-Separates pass-OnTime listed (two_runs 10)
      (
        record { kept = stale-Stored; idle = λ e. refl },
        (record { kept = parked-Stored 10; idle = λ e. refl }, tt),
      )
      ((λ e. let same = (eq_iff "run_2" "run_1").1 e in cc, tt), (tt, tt))

held_run_stops_pass_example :
    reap_expired digests default_machine pass (parked 100 ∷ stale ∷ []) (two_runs 100)
    ≡ err lease_conflict
held_run_stops_pass_example =
    held_run_stops_pass digests default_machine pass (two_runs 100) (parked 100) (parked-Stored 100)
      (stale ∷ []) refl refl
