-- ===== src/Workflow/Reaper.antt =====
-- `RunWorkflow.reap_expired` of server/core/workflow/steps.py: the pass over the runs of an
-- organisation that takes the runs from workers whose leases have expired. The runs that the
-- repository lists, the readings of the clock and the digest in a command's identifier are
-- arguments. Instants count seconds.
pub mod Commands
pub mod Frame
pub mod Single
pub mod Live
pub mod Held
use uumi.Prelude.{
  Bool, List, Option, String, [], concat, contains, false, if◌then◌else◌, is_some, leb, nat_eq,
  none, select, some, string_eq, true, ℕ, ◌&&◌, ◌*◌, ◌+◌, ◌==◌, ◌||◌, ◌∷◌,
}
use uumi.Contracts.{
  CommandBody, Failure, Lease, RotationRun, RunCommand, RunStatus, Stage, stage_eq, stage_value,
  status_eq, status_in,
}
use uumi.Errors.{Result, ok, ◌>>=◌}
use uumi.Machine.{Machine}
use uumi.Runs.{Db, Digests}
use uumi.Workflow.{run_command}

pub record ReapResult : Type 0 where
  pub scanned : ℕ
  pub restarted : ℕ
  pub failed : ℕ
  pub runs : List RotationRun

-- `_RECOVERY_STAGES`
abbrev pub recovery_stages : List Stage
recovery_stages = Stage.deploy ∷ Stage.verify ∷ Stage.rollout ∷ Stage.observe ∷ []

abbrev pub recovery_expired : Failure
recovery_expired = record {
  code = "recovery-lease-expired";
  message = "Recovery worker lease expired before recovery completed.";
  retryable = false;
  evidence_ids = [];
}

abbrev pub stage_expired : Stage → Failure
stage_expired stage = record {
  code = "stage-lease-expired";
  message = concat "Worker lease expired while executing " (concat (stage_value stage) ".");
  retryable = true;
  evidence_ids = [];
}

-- `lease is not None and lease.expires_at <= now`
abbrev pub lease_expired : Option Lease → ℕ → Bool
lease_expired none now = false
lease_expired (some l) now = leb l.expires_at now

-- The condition of a candidate.
unfoldable pub is_candidate : ℕ → RotationRun → Bool
is_candidate now run =
    run.status == RunStatus.cleanup
    || status_in run.status (RunStatus.running ∷ RunStatus.recovering ∷ [])
      && lease_expired run.lease now

-- What a pass has: the actor who starts it, the instant at which it starts, what its commands
-- read from the clock afterwards, and `_reap_id`.
pub record Pass : Type 0 where
  pub organisation_id : String
  pub actor_id : String
  pub now : ℕ
  pub clock : ℕ → ℕ
  pub reap_id : RotationRun → String → String

-- A run that has been dealt with, and whether it is counted as restarted or as failed.
pub record Reaped : Type 0 where
  pub run : RotationRun
  pub restarts : Bool
  pub db : Db

-- One more candidate in the answer.
unfoldable pub count_reaped : Reaped → ReapResult → ReapResult
count_reaped r rest = record {
  scanned = rest.scanned + 1;
  restarted = if r.restarts then rest.restarted + 1 else rest.restarted;
  failed = if r.restarts then rest.failed else rest.failed + 1;
  runs = r.run ∷ rest.runs;
}

module _ (p : Pass) where
  unfoldable pub recover_command : RotationRun → RunCommand
  recover_command run = record {
    id = p.reap_id run "recover";
    organisation_id = run.organisation_id;
    run_id = run.id;
    actor_id = p.actor_id;
    expected_revision = run.revision;
    body = CommandBody.recover p.actor_id (p.now + 30 * 60);
  }

  unfoldable pub interrupt_command : RotationRun → String → CommandBody → RunCommand
  interrupt_command run name body = record {
    id = p.reap_id run name;
    organisation_id = p.organisation_id;
    run_id = run.id;
    actor_id = p.actor_id;
    expected_revision = run.revision;
    body = body;
  }

module _ (d : Digests) (m : Machine) (p : Pass) where
  -- `_restart_recovery`
  unfoldable pub restart_recovery : ℕ → RotationRun → Db → Result Reaped
  restart_recovery at run db = do
    result ← run_command d m at db (recover_command p run)
    ok (record { run = result.0.run; restarts = true; db = result.1 })

  unfoldable pub fail_run : ℕ → RotationRun → String → Failure → Db → Result Reaped
  fail_run at run name failure db = do
    result ←
        run_command d m at db
          (interrupt_command p run name (CommandBody.fail run.fencing_token failure))
    ok (record { run = result.0.run; restarts = false; db = result.1 })

  unfoldable pub clean_and_restart : ℕ → ℕ → RotationRun → Db → Result Reaped
  clean_and_restart at then_at run db = do
    interrupted ← run_command d m at db (
        interrupt_command p run "cleanup"
          (CommandBody.cleanup run.fencing_token (stage_expired run.stage)))
    restart_recovery then_at interrupted.0.run interrupted.1

  -- The body of the loop over the candidates; `at` and `then_at` are what its first and its second
  -- command read from the clock.
  unfoldable pub reap_run : ℕ → ℕ → RotationRun → Db → Result Reaped
  reap_run at then_at run db =
      if run.status == RunStatus.cleanup
      then restart_recovery at run db
      else (if run.status == RunStatus.recovering
          then fail_run at run "fail-recovery" recovery_expired db
          else (if contains recovery_stages run.stage && is_some run.plan_id
              then clean_and_restart at then_at run db
              else fail_run at run "fail" (stage_expired run.stage) db))

  -- The loop; the candidate at position `k` reads the clock at `2 * k` and at `2 * k + 1`.
  unfoldable pub reap_all : ℕ → List RotationRun → Db → Result (ReapResult × Db)
  reap_all k [] db = ok (record { scanned = 0; restarted = 0; failed = 0; runs = [] }, db)
  reap_all k (run ∷ runs) db = do
    reaped ← reap_run (p.clock (2 * k)) (p.clock (2 * k + 1)) run db
    rest ← reap_all (k + 1) runs reaped.db
    ok (count_reaped reaped rest.0, rest.1)

  -- `reap_expired`, with the runs that `list_runs` answers.
  unfoldable pub reap_expired : List RotationRun → Db → Result (ReapResult × Db)
  reap_expired listed db = reap_all 0 (select (is_candidate p.now) listed) db
