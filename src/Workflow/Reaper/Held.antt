-- ===== src/Workflow/Reaper/Held.antt =====
-- What stops a pass of server/core/workflow/steps.py.
use uumi.Prelude.{List, [], arith, eq_iff, nat_eq, refl, string_eq, true, ℕ, ◌==◌, ◌∷◌, ◌≡◌}
use uumi.Contracts.{RotationRun, RunStatus, stage_eq, status_eq, status_in}
use uumi.Errors.{err, lease_conflict}
use uumi.Store.{found}
use uumi.Machine.{Machine, apply, held_by_other}
use uumi.Runs.{Db, Digests, check_gate, fresh_mutation, mutate, mutate_or_replay}
use uumi.Workflow.{machine_op, run_command}
use uumi.Workflow.Reaper.{
  Pass, is_candidate, reap_all, reap_expired, reap_run, recover_command, restart_recovery,
}
use uumi.Workflow.Reaper.Single.{Stored}

module _ (d : Digests) (m : Machine) (p : Pass) (db : Db) (run : RotationRun)
    (s : Stored p db run) where
  restart_held :
      (at : ℕ)
      → run.status ≡ RunStatus.cleanup
      → held_by_other run.lease p.actor_id at ≡ true
      → restart_recovery d m p at run db ≡ err lease_conflict
  unfolding restart_recovery run_command mutate mutate_or_replay fresh_mutation found check_gate
      recover_command machine_op apply
  restart_held at c h =
      let own = (eq_iff run.organisation_id run.organisation_id).1 refl in
      let expected = (nat_eq.equals_iff run.revision run.revision).1 refl in
      let at_path = rw (← s.own) at s.at_path in
      let locked = rw (← s.own) at s.locked in
      let no_step = rw (← s.own) at s.no_step run "recover" refl (omega arith) in
      let no_event = rw (← s.own) at s.no_event run "recover" refl (omega arith) in
      let open_status : status_in run.status (RunStatus.failed ∷ RunStatus.cleanup ∷ []) ≡ true =
        rw c refl in
      rw (no_step, no_event, at_path, own, expected, locked, open_status, h) refl

  held_reap :
      (at then_at : ℕ)
      → run.status ≡ RunStatus.cleanup
      → held_by_other run.lease p.actor_id at ≡ true
      → reap_run d m p at then_at run db ≡ err lease_conflict
  unfolding reap_run
  held_reap at then_at c h =
      let cleaning : (run.status == RunStatus.cleanup) ≡ true = rw c refl in
      rw cleaning (restart_held at c h)

  -- A pass whose first run has been cleaned up and is still held by its worker is refused the lease
  -- and raises, whatever runs come after it.
  pub held_run_stops_pass :
      (listed : List RotationRun)
      → run.status ≡ RunStatus.cleanup
      → held_by_other run.lease p.actor_id (p.clock 0) ≡ true
      → reap_expired d m p (run ∷ listed) db ≡ err lease_conflict
  unfolding reap_expired reap_all is_candidate
  held_run_stops_pass listed c h =
      let selected : is_candidate p.now run ≡ true = unfold is_candidate in rw c refl in
      rw (selected, held_reap (p.clock 0) (p.clock 1) c h) refl
