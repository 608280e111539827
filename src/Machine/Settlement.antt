-- ===== src/Machine/Settlement.antt =====
-- What `complete_recovery` of server/core/state/machine.py has checked when it succeeds, and its
-- result.
use uumi.Prelude.{List, String, arith, false, is_empty, nat_eq, none, some, true, ℕ, ◌≡◌, ◌≢◌}
use uumi.Contracts.{RecoveryMode, RotationRun, RunStatus, is_valid_run, status_eq, status_eq_iff}
use uumi.Errors.{ok, require-eq-ok, transition_rejected}
use uumi.Machine.{
  bound_to, clear_recovery, complete_recovery, holds_lease, is_retryable, settle, stamp, update,
  update-ok,
}

pub data Settled (r : RotationRun) (recovery_id : String) (evidence_ids : List String) (now : ℕ)
    : RecoveryMode → RotationRun → Type 0 where
  retried :
      {s : RotationRun}
      → is_retryable r.recovery_failure ≡ true
      → s ≡ stamp (record (clear_recovery r) { status = RunStatus.running }) now
      → Settled r recovery_id evidence_ids now RecoveryMode.retry s
  settled :
      {mode : RecoveryMode} {s : RotationRun}
      → mode ≢ RecoveryMode.retry
      → s
        ≡ stamp
            (record r {
              status = RunStatus.compensated;
              lease = none;
              recovery_id = some recovery_id;
              recovery_mode = some mode;
              recovery_evidence_ids = evidence_ids;
            })
            now
      → Settled r recovery_id evidence_ids now mode s

settle-Settled :
    (mode : RecoveryMode) (r : RotationRun) (recovery_id : String) (evidence_ids : List String)
    (now : ℕ) {s : RotationRun}
    → settle mode r recovery_id evidence_ids now ≡ ok s
    → Settled r recovery_id evidence_ids now mode s × (is_valid_run s ≡ true)
unfolding settle
settle-Settled RecoveryMode.retry r id ev now h =
    let (retryable, h') =
      require-eq-ok (is_retryable r.recovery_failure) transition_rejected
        (update (record (clear_recovery r) { status = RunStatus.running }) now) h in
    let (e, v) = update-ok (record (clear_recovery r) { status = RunStatus.running }) now h' in
    (retried retryable e, v)
settle-Settled _ r id ev now h = let (e, v) = update-ok _ now h in (settled (λ p. cc) e, v)

pub record Recovered (r : RotationRun) (recovery_id : String) (mode : RecoveryMode)
    (evidence_ids : List String) (token expected now : ℕ) (s : RotationRun) : Type 0 where
  pub revision_matches : r.revision ≡ expected
  pub leased : holds_lease r.lease token now ≡ true
  pub was_recovering : r.status ≡ RunStatus.recovering
  pub bound_stage : bound_to r.recovery_stage r.stage ≡ true
  pub evidenced : is_empty evidence_ids ≡ false
  pub ended : Settled r recovery_id evidence_ids now mode s
  pub valid : is_valid_run s ≡ true

pub complete_recovery-Recovered :
    (r : RotationRun) (recovery_id : String) (mode : RecoveryMode) (evidence_ids : List String)
    (token expected now : ℕ) {s : RotationRun}
    → complete_recovery r recovery_id mode evidence_ids token expected now ≡ ok s
    → Recovered r recovery_id mode evidence_ids token expected now s
unfolding complete_recovery
complete_recovery-Recovered r id mode ev token expected now {s} h =
    let rest : settle mode r id ev now ≡ ok s = ground arith in
    let (how, v) = settle-Settled mode r id ev now rest in
    record {
      revision_matches = ground arith;
      leased = ground arith;
      was_recovering = ground (arith, status_eq_iff r.status RunStatus.recovering);
      bound_stage = ground arith;
      evidenced = ground arith;
      ended = how;
      valid = v;
    }
