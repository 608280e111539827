-- ===== src/Machine/Effects.antt =====
-- What each method of server/core/state/machine.py may do, as a relation between the run before and
-- after: the guards as facts, and the result as one record.
use uumi.Prelude.{
  List, String, [], arith, false, ltb, nat_eq, none, some, true, ℕ, ◌+◌, ◌<◌, ◌==◌, ◌∷◌, ◌≡◌,
}
use uumi.Contracts.{
  Failure, RecoveryMode, RotationRun, RunStatus, StageBindings, StageProof, status_eq,
  status_eq_iff, status_in,
}
use uumi.Machine.Completion.{Completed, complete-Completed}
use uumi.Machine.Settlement.{Recovered, complete_recovery-Recovered}
use uumi.Errors.{
  >>-eq-ok, lease_conflict, ok, reject_if-eq-ok, require-eq-ok, revision_conflict,
  transition_rejected,
}
use uumi.Machine.{
  Machine, Op, apply, cancel, cleanup, clear_recovery, control, extend_lease, fail, grant,
  held_by_other, holds_lease, interrupt_control, may_interrupt, op_cancel, op_cleanup, op_complete,
  op_complete_recovery, op_fail, op_pause, op_recover, op_renew, op_resume, op_start, owned_by,
  pause, recover, renew, resume, stamp, start, update-ok, without_recovery,
}

-- The run under a new lease.
abbrev pub leased_to : RotationRun → String → ℕ → RotationRun
leased_to r owner expires_at = record r {
  lease = grant owner (r.fencing_token + 1) expires_at;
  fencing_token = r.fencing_token + 1;
}

abbrev pub failed_with : RotationRun → Failure → RotationRun
failed_with r f = record (without_recovery r) {
  status = RunStatus.failed;
  failure = some f;
  lease = none;
}

abbrev pub cancelled_run : RotationRun → RotationRun
cancelled_run r = record (clear_recovery r) {
  status = RunStatus.cancelled;
  lease = none;
  fencing_token = r.fencing_token + 1;
  failure = none;
}

abbrev pub recovering_run : RotationRun → String → ℕ → RotationRun
recovering_run r owner expires_at = record (leased_to r owner expires_at) {
  status = RunStatus.recovering;
  failure = none;
  recovery_stage = some r.stage;
  recovery_failure = r.failure;
}

pub data Effect (m : Machine) (r s : RotationRun) : Op → Type 0 where
  started :
      {owner : String} {rev exp now : ℕ}
      → r.revision ≡ rev
      → r.status ≡ RunStatus.pending
      → now < exp
      → s ≡ stamp (record (leased_to r owner exp) { status = RunStatus.running }) now
      → Effect m r s (op_start owner rev exp now)
  renewed :
      {owner : String} {tok rev exp now : ℕ}
      → r.revision ≡ rev
      → holds_lease r.lease tok now ≡ true
      → owned_by r.lease owner ≡ true
      → now < exp
      → s ≡ stamp (record r { lease = extend_lease r.lease exp }) now
      → Effect m r s (op_renew owner tok rev exp now)
  completed_stage :
      {proof : StageProof} {tok rev now : ℕ} {b : StageBindings}
      → Completed m r proof tok rev now b s
      → Effect m r s (op_complete proof tok rev now b)
  paused :
      {tok rev now : ℕ}
      → r.revision ≡ rev
      → holds_lease r.lease tok now ≡ true
      → status_in r.status (RunStatus.running ∷ RunStatus.recovering ∷ []) ≡ true
      → s ≡ stamp (record r { status = RunStatus.paused }) now
      → Effect m r s (op_pause tok rev now)
  resumed :
      {owner : String} {rev exp now : ℕ}
      → r.revision ≡ rev
      → r.status ≡ RunStatus.paused
      → held_by_other r.lease owner now ≡ false
      → now < exp
      → s ≡ stamp (record (leased_to r owner exp) { status = RunStatus.running }) now
      → Effect m r s (op_resume owner rev exp now)
  cleaned :
      {f : Failure} {tok rev now : ℕ}
      → r.revision ≡ rev
      → may_interrupt r.lease tok now ≡ true
      → status_in r.status (RunStatus.running ∷ RunStatus.recovering ∷ RunStatus.paused ∷ []) ≡ true
      → s ≡ stamp (record r { status = RunStatus.cleanup; failure = some f }) now
      → Effect m r s (op_cleanup f tok rev now)
  failed_run :
      {f : Failure} {tok rev now : ℕ}
      → status_in r.status (RunStatus.completed ∷ RunStatus.failed ∷ RunStatus.compensated ∷ [])
        ≡ false
      → r.revision ≡ rev
      → may_interrupt r.lease tok now ≡ true
      → s ≡ stamp (failed_with r f) now
      → Effect m r s (op_fail f tok rev now)
  cancelled_by :
      {rev now : ℕ}
      → r.revision ≡ rev
      → status_in r.status (RunStatus.cancelled ∷ RunStatus.completed ∷ RunStatus.compensated ∷ [])
        ≡ false
      → s ≡ stamp (cancelled_run r) now
      → Effect m r s (op_cancel rev now)
  recovered :
      {owner : String} {rev exp now : ℕ}
      → r.revision ≡ rev
      → status_in r.status (RunStatus.failed ∷ RunStatus.cleanup ∷ []) ≡ true
      → held_by_other r.lease owner now ≡ false
      → now < exp
      → s ≡ stamp (recovering_run r owner exp) now
      → Effect m r s (op_recover owner rev exp now)
  recovery_completed :
      {id : String} {mode : RecoveryMode} {ev : List String} {tok rev now : ℕ}
      → Recovered r id mode ev tok rev now s
      → Effect m r s (op_complete_recovery id mode ev tok rev now)

control-ok :
    (r : RotationRun) (tok rev now : ℕ)
    → control r tok rev now ≡ ok tt
    → (r.revision ≡ rev) × (holds_lease r.lease tok now ≡ true)
control-ok r tok rev now h = ground arith

interrupt_control-ok :
    (r : RotationRun) (tok rev now : ℕ)
    → interrupt_control r tok rev now ≡ ok tt
    → (r.revision ≡ rev) × (may_interrupt r.lease tok now ≡ true)
interrupt_control-ok r tok rev now h = ground arith

revision_matches : (r : RotationRun) (rev : ℕ) → (r.revision == rev) ≡ true → r.revision ≡ rev
revision_matches r rev h = (nat_eq.equals_iff r.revision rev).0 h

ltb-lt : (a b : ℕ) → ltb a b ≡ true → a < b
ltb-lt a b h = ground arith

module _ (m : Machine) (r : RotationRun) {s : RotationRun} where
  start-Effect :
      (owner : String) (rev exp now : ℕ)
      → start r owner rev exp now ≡ ok s
      → Effect m r s (op_start owner rev exp now)
  unfolding start
  start-Effect owner rev exp now h =
      let (g0, h0) = require-eq-ok (r.revision == rev) revision_conflict _ h in
      let (g1, h1) = require-eq-ok (r.status == RunStatus.pending) transition_rejected _ h0 in
      let (g2, h2) = require-eq-ok (ltb now exp) lease_conflict _ h1 in
      started (revision_matches r rev g0) ((status_eq_iff r.status RunStatus.pending).0 g1)
        (ltb-lt now exp g2) (update-ok _ now h2).0

  renew-Effect :
      (owner : String) (tok rev exp now : ℕ)
      → renew r owner tok rev exp now ≡ ok s
      → Effect m r s (op_renew owner tok rev exp now)
  unfolding renew
  renew-Effect owner tok rev exp now h =
      let (g0, h0) = >>-eq-ok (control r tok rev now) _ h in
      let (g1, h1) = require-eq-ok (owned_by r.lease owner) lease_conflict _ h0 in
      let (g2, h2) = require-eq-ok (ltb now exp) lease_conflict _ h1 in
      let (a, b) = control-ok r tok rev now g0 in
      renewed a b g1 (ltb-lt now exp g2) (update-ok _ now h2).0

  pause-Effect :
      (tok rev now : ℕ) → pause r tok rev now ≡ ok s → Effect m r s (op_pause tok rev now)
  unfolding pause
  pause-Effect tok rev now h =
      let (g0, h0) = >>-eq-ok (control r tok rev now) _ h in
      let (g1, h1) =
        require-eq-ok (status_in r.status (RunStatus.running ∷ RunStatus.recovering ∷ []))
          transition_rejected _ h0 in
      let (a, b) = control-ok r tok rev now g0 in paused a b g1 (update-ok _ now h1).0

  resume-Effect :
      (owner : String) (rev exp now : ℕ)
      → resume r owner rev exp now ≡ ok s
      → Effect m r s (op_resume owner rev exp now)
  unfolding resume
  resume-Effect owner rev exp now h =
      let (g0, h0) = require-eq-ok (r.revision == rev) revision_conflict _ h in
      let (g1, h1) = require-eq-ok (r.status == RunStatus.paused) transition_rejected _ h0 in
      let (g2, h2) = reject_if-eq-ok (held_by_other r.lease owner now) lease_conflict _ h1 in
      let (g3, h3) = require-eq-ok (ltb now exp) lease_conflict _ h2 in
      resumed (revision_matches r rev g0) ((status_eq_iff r.status RunStatus.paused).0 g1) g2
        (ltb-lt now exp g3) (update-ok _ now h3).0

  cleanup-Effect :
      (f : Failure) (tok rev now : ℕ)
      → cleanup r f tok rev now ≡ ok s
      → Effect m r s (op_cleanup f tok rev now)
  unfolding cleanup
  cleanup-Effect f tok rev now h =
      let (g0, h0) = >>-eq-ok (interrupt_control r tok rev now) _ h in
      let (g1, h1) =
        require-eq-ok
          (status_in r.status (RunStatus.running ∷ RunStatus.recovering ∷ RunStatus.paused ∷ []))
          transition_rejected _ h0 in
      let (a, b) = interrupt_control-ok r tok rev now g0 in cleaned a b g1 (update-ok _ now h1).0

  fail-Effect :
      (f : Failure) (tok rev now : ℕ)
      → fail r f tok rev now ≡ ok s
      → Effect m r s (op_fail f tok rev now)
  unfolding fail
  fail-Effect f tok rev now h =
      let (g0, h0) =
        reject_if-eq-ok
          (status_in r.status (RunStatus.completed ∷ RunStatus.failed ∷ RunStatus.compensated ∷ []))
          transition_rejected _ h in
      let (g1, h1) = >>-eq-ok (interrupt_control r tok rev now) _ h0 in
      let (a, b) = interrupt_control-ok r tok rev now g1 in failed_run g0 a b (update-ok _ now h1).0

  cancel-Effect : (rev now : ℕ) → cancel r rev now ≡ ok s → Effect m r s (op_cancel rev now)
  unfolding cancel
  cancel-Effect rev now h =
      let (g0, h0) = require-eq-ok (r.revision == rev) revision_conflict _ h in
      let (g1, h1) =
        reject_if-eq-ok
          (status_in r.status
            (RunStatus.cancelled ∷ RunStatus.completed ∷ RunStatus.compensated ∷ []))
          transition_rejected _ h0 in
      cancelled_by (revision_matches r rev g0) g1 (update-ok _ now h1).0

  recover-Effect :
      (owner : String) (rev exp now : ℕ)
      → recover r owner rev exp now ≡ ok s
      → Effect m r s (op_recover owner rev exp now)
  unfolding recover
  recover-Effect owner rev exp now h =
      let (g0, h0) = require-eq-ok (r.revision == rev) revision_conflict _ h in
      let (g1, h1) =
        require-eq-ok (status_in r.status (RunStatus.failed ∷ RunStatus.cleanup ∷ []))
          transition_rejected _ h0 in
      let (g2, h2) = reject_if-eq-ok (held_by_other r.lease owner now) lease_conflict _ h1 in
      let (g3, h3) = require-eq-ok (ltb now exp) lease_conflict _ h2 in
      recovered (revision_matches r rev g0) g1 g2 (ltb-lt now exp g3) (update-ok _ now h3).0

pub apply-Effect :
    (m : Machine) (op : Op) (r : RotationRun) {s : RotationRun}
    → apply m op r ≡ ok s
    → Effect m r s op
unfolding apply
apply-Effect m (op_start owner rev exp now) r h = start-Effect m r owner rev exp now h
apply-Effect m (op_renew owner tok rev exp now) r h = renew-Effect m r owner tok rev exp now h
apply-Effect m (op_complete proof tok rev now b) r h =
    completed_stage (complete-Completed m r proof tok rev now b h)
apply-Effect m (op_pause tok rev now) r h = pause-Effect m r tok rev now h
apply-Effect m (op_resume owner rev exp now) r h = resume-Effect m r owner rev exp now h
apply-Effect m (op_cleanup f tok rev now) r h = cleanup-Effect m r f tok rev now h
apply-Effect m (op_fail f tok rev now) r h = fail-Effect m r f tok rev now h
apply-Effect m (op_cancel rev now) r h = cancel-Effect m r rev now h
apply-Effect m (op_recover owner rev exp now) r h = recover-Effect m r owner rev exp now h
apply-Effect m (op_complete_recovery id mode ev tok rev now) r h =
    recovery_completed (complete_recovery-Recovered r id mode ev tok rev now h)
