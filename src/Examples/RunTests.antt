-- ===== src/Examples/RunTests.antt =====
-- The theorems on server/core/state/machine.py at concrete runs.
use uumi.Prelude.{[], arith, inl, inr, nat_eq, refl, some, string_eq, ℕ, ◌↔◌, ◌∷◌, ◌≡◌, ◌≢◌, ◌≤◌}
use uumi.Machine.Progress.{Proved, completed_run-Proved}
use uumi.Machine.Fencing.{stale_worker_fenced}
use uumi.Machine.Exact.{InterruptsRecovery, apply-ok_iff, interrupted_recovery_raises}
use uumi.Machine.Terminal.{IsTerminal, terminal_is_final}
use uumi.Machine.Leases.{lease_exclusive}
use uumi.Machine.Bound.{KeepsBindings, Reach-KeepsBindings}
use uumi.Machine.Effects.{Effect}
use uumi.Examples.Data.{default_machine, new_run, started, timeout, whole_run}
use uumi.Examples.Walk.{run_all, run_all-Reach, run_or}
use uumi.Contracts.{IsValid, Lease, RotationRun, RunStatus, Stage, facts_of_run, is_valid_run}
use uumi.Errors.{err, ok, validation}
use uumi.Policy.{validate}
use uumi.Machine.{
  Op, Reach, advance, apply, bind_fields, binds_required, binds_unexpected, changes_bound,
  check_bindings, here, op_cancel, op_cleanup, op_fail, op_pause, op_recover, op_renew, op_resume,
  stamp, update, without_recovery,
}

abbrev completed_run : RotationRun
completed_run = run_or (run_all default_machine whole_run new_run) new_run

walks : run_all default_machine whole_run new_run ≡ ok completed_run
unfolding run_all apply check_bindings bind_fields update stamp is_valid_run binds_unexpected
    binds_required changes_bound advance validate
walks = refl

new_run-IsValid : IsValid new_run
unfolding is_valid_run
new_run-IsValid = facts_of_run new_run refl

whole_walk : Reach default_machine new_run completed_run
whole_walk = run_all-Reach default_machine whole_run new_run completed_run walks

completed_status : completed_run.status ≡ RunStatus.completed
unfolding run_all apply check_bindings bind_fields update stamp is_valid_run binds_unexpected
    binds_required changes_bound advance validate
completed_status = refl

completed_run-Proved_example : Proved default_machine Stage.revoke whole_walk
completed_run-Proved_example =
    completed_run-Proved default_machine new_run completed_run whole_walk new_run-IsValid refl
      (λ h. cc) completed_status Stage.revoke

-- A worker starts the run, another one resumes it, and the first one comes back.
abbrev paused_run : RotationRun
paused_run = run_or (run_all default_machine (op_pause 1 1 3 ∷ started ∷ []) new_run) new_run

abbrev resumed : Op
resumed = op_resume "worker_2" 2 300 200

abbrev resumed_run : RotationRun
resumed_run = run_or (apply default_machine resumed paused_run) new_run

resumes : apply default_machine resumed paused_run ≡ ok resumed_run
unfolding run_all apply update stamp is_valid_run
resumes = refl

paused_token : 1 ≤ paused_run.fencing_token
unfolding run_all apply update stamp is_valid_run
paused_token = ground arith

stale_worker_fenced_example : apply default_machine (op_pause 1 3 201) resumed_run ≢ ok paused_run
stale_worker_fenced_example =
    stale_worker_fenced default_machine paused_run resumed_run resumed_run paused_run resumed
      (op_pause 1 3 201) 1 resumes refl here refl (λ e. cc) paused_token

abbrev started_run : RotationRun
started_run = run_or (apply default_machine started new_run) new_run

starts : apply default_machine started new_run ≡ ok started_run
unfolding apply update stamp is_valid_run
starts = refl

apply-ok_iff_example :
    (apply default_machine started new_run ≡ ok started_run)
    ↔ (Effect default_machine new_run started_run started × (¬ InterruptsRecovery started new_run))
apply-ok_iff_example = apply-ok_iff default_machine started new_run started_run new_run-IsValid

abbrev recovering_run : RotationRun
recovering_run =
    run_or
      (run_all default_machine
        (op_recover "worker_2" 2 300 4 ∷ op_fail timeout 1 1 3 ∷ started ∷ []) new_run)
      new_run

recovering_run-IsValid : IsValid recovering_run
unfolding run_all apply update stamp is_valid_run without_recovery
recovering_run-IsValid = facts_of_run recovering_run refl

recovering_status : recovering_run.status ≡ RunStatus.recovering
unfolding run_all apply update stamp is_valid_run without_recovery
recovering_status = refl

interrupted_recovery_raises_example :
    (apply default_machine (op_pause 2 3 5) recovering_run ≡ err validation)
    × (apply default_machine (op_cleanup timeout 2 3 5) recovering_run ≡ err validation)
unfolding run_all apply update is_valid_run stamp without_recovery
interrupted_recovery_raises_example =
    interrupted_recovery_raises default_machine recovering_run timeout 2 3 5 recovering_run-IsValid
      recovering_status refl refl

new_run_ongoing : ¬ IsTerminal new_run
new_run_ongoing (inl h) = cc
new_run_ongoing (inr (inl h)) = cc
new_run_ongoing (inr (inr h)) = cc

terminal_is_final_example : apply default_machine (op_cancel 13 4) completed_run ≢ ok new_run
terminal_is_final_example =
    terminal_is_final default_machine new_run completed_run new_run (op_cancel 13 4) new_run_ongoing
      whole_walk (inl completed_status)

abbrev renewal : Op
renewal = op_renew "worker_1" 1 1 200 50

abbrev renewed_run : RotationRun
renewed_run = run_or (apply default_machine renewal started_run) new_run

renews : apply default_machine renewal started_run ≡ ok renewed_run
unfolding apply update stamp is_valid_run
renews = refl

abbrev lease_of_worker : ℕ → Lease
lease_of_worker t = record { owner_id = "worker_1"; fencing_token = 1; expires_at = t }

lease_before : started_run.lease ≡ some (lease_of_worker 100)
unfolding apply update stamp is_valid_run
lease_before = refl

lease_after : renewed_run.lease ≡ some (lease_of_worker 200)
unfolding apply update stamp is_valid_run
lease_after = refl

not_pending : started_run.status ≢ RunStatus.pending
unfolding apply update stamp is_valid_run
not_pending h = cc

lease_exclusive_example : (lease_of_worker 200).owner_id ≡ (lease_of_worker 100).owner_id
lease_exclusive_example =
    lease_exclusive default_machine renewal started_run renewed_run (lease_of_worker 100)
      (lease_of_worker 200) not_pending lease_before (ground arith) renews lease_after

Reach-KeepsBindings_example : KeepsBindings new_run completed_run
Reach-KeepsBindings_example = Reach-KeepsBindings default_machine new_run whole_walk
