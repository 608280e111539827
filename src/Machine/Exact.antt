-- ===== src/Machine/Exact.antt =====
-- When the methods of server/core/state/machine.py succeed: exactly when their guards hold, but for
-- the two that the model validator refuses.
use uumi.Prelude.{
  Bool-cases, List, Option, String, absurd, arith, eq_iff, false, inl, inr, nat_eq, refl, some,
  string_eq, subst, true, ℕ, ◌↔◌, ◌≡◌, ◌≢◌, ◌⊎◌,
}
use uumi.Contracts.{
  Failure, IsValid, IsValid→is_valid_run, RecoveryMode, RotationRun, RunStatus, Stage,
  StageBindings, StageProof, facts_of_run, is_valid_run, stage_eq, stage_eq_iff, stage_index,
  stage_index-injective, stage_index_bound, status_eq,
}
use uumi.Machine.Effects.{
  Effect, apply-Effect, cancelled_by, cleaned, completed_stage, failed_run, paused, recovered,
  recovery_completed, renewed, resumed, started,
}
use uumi.Machine.Validity.{apply-IsValid}
use uumi.Errors.{err, ok, validation}
use uumi.Machine.{
  Machine, Op, advance, apply, bind_fields, cleanup, complete, holds_lease, op_cleanup, op_pause,
  pause, settle, stamp, update, without_recovery,
}
use uumi.Machine.Completion.{Advanced, Completed, finished, moved}
use uumi.Machine.Settlement.{Settled, retried, settled}

-- `pause` and `cleanup` of a run that is recovering.
abbrev pub InterruptsRecovery : Op → RotationRun → Type 0
InterruptsRecovery (op_pause _ _ _) r = r.status ≡ RunStatus.recovering
InterruptsRecovery (op_cleanup _ _ _ _) r = r.status ≡ RunStatus.recovering
InterruptsRecovery _ r = ⊥

Effect-not_interrupted :
    {m : Machine} {op : Op} (r s : RotationRun)
    → IsValid r
    → InterruptsRecovery op r
    → Effect m r s op
    → IsValid s
    → ⊥
unfolding stamp
Effect-not_interrupted r s v i (paused a b c e) w =
    let bound = v.recovery_bound (inl i) in
    let now_paused : s.status ≡ RunStatus.paused = ground arith in
    let same : s.recovery_stage ≡ r.recovery_stage = ground arith in
    ground (arith, w.bound_only_in_recovery)
Effect-not_interrupted r s v i (cleaned a b c e) w =
    let bound = v.recovery_bound (inl i) in
    let now_cleanup : s.status ≡ RunStatus.cleanup = ground arith in
    let same : s.recovery_stage ≡ r.recovery_stage = ground arith in
    ground (arith, w.bound_only_in_recovery)
Effect-not_interrupted r s v i _ w = absurd i

recovery_not_interrupted :
    (m : Machine) (op : Op) (r s : RotationRun)
    → IsValid r
    → InterruptsRecovery op r
    → apply m op r ≢ ok s
recovery_not_interrupted m op r s v i h =
    Effect-not_interrupted r s v i (apply-Effect m op r h) (apply-IsValid m op r h)

-- A recovering run keeps its recovery stage, which the validator refuses in another state.
left_recovery-invalid :
    (r : RotationRun) (now : ℕ) (f : Option Failure) (status : RunStatus)
    → IsValid r
    → r.status ≡ RunStatus.recovering
    → (status ≡ RunStatus.paused) ⊎ (status ≡ RunStatus.cleanup)
    → is_valid_run (stamp (record r { status = status; failure = f }) now) ≡ false
unfolding stamp
left_recovery-invalid r now f status v recovering left =
    let s = stamp (record r { status = status; failure = f }) now in
    elim (Bool-cases (is_valid_run s)) [
      | inr broken ↦ broken
      | inl valid ↦
          let w = facts_of_run s valid in
          let bound = v.recovery_bound (inl recovering) in
          let same : s.recovery_stage ≡ r.recovery_stage = refl in
          let kept : s.status ≡ status = refl in absurd (ground (arith, w.bound_only_in_recovery))
    ]

-- The holder of the lease of a valid run that is recovering, with its revision, passes every guard of
-- `pause` and of `cleanup`; but the run would keep its recovery stage, which the model validator
-- refuses, so that both calls raise the `ValidationError`.
pub interrupted_recovery_raises :
    (m : Machine) (r : RotationRun) (f : Failure) (tok rev now : ℕ)
    → IsValid r
    → r.status ≡ RunStatus.recovering
    → r.revision ≡ rev
    → holds_lease r.lease tok now ≡ true
    → (apply m (op_pause tok rev now) r ≡ err validation)
      × (apply m (op_cleanup f tok rev now) r ≡ err validation)
unfolding apply pause cleanup update
interrupted_recovery_raises m r f tok rev now v recovering current held =
    let no_pause = left_recovery-invalid r now r.failure RunStatus.paused v recovering (inl refl) in
    let no_cleanup =
      left_recovery-invalid r now (some f) RunStatus.cleanup v recovering (inr refl) in
    (ground (arith, no_pause), ground (arith, no_cleanup))

Effect-IsValid :
    {m : Machine} {op : Op} (r s : RotationRun)
    → IsValid r
    → ¬ InterruptsRecovery op r
    → Effect m r s op
    → IsValid s
unfolding stamp without_recovery
Effect-IsValid r s v n (completed_stage c) = facts_of_run s c.valid
Effect-IsValid r s v n (recovery_completed c) = facts_of_run s c.valid
Effect-IsValid r s v n (started a b c e) = ground arith
Effect-IsValid r s v n (renewed a b c d e) = ground arith
Effect-IsValid r s v n (paused a b c e) = ground arith
Effect-IsValid r s v n (resumed a b c d e) = ground arith
Effect-IsValid r s v n (cleaned a b c e) = ground arith
Effect-IsValid r s v n (failed_run a b c e) = ground arith
Effect-IsValid r s v n (cancelled_by a b e) = ground arith
Effect-IsValid r s v n (recovered a b c d e) = ground arith

-- The converse of `apply-Effect`, method by method.
update_valid :
    (x : RotationRun) (now : ℕ) {s : RotationRun}
    → s ≡ stamp x now
    → is_valid_run s ≡ true
    → update x now ≡ ok s
unfolding update
update_valid x now e v = rw (← e, v)

moved_back :
    (r : RotationRun) (now : ℕ) (to expected : Stage) {s : RotationRun}
    → stage_index to ≡ stage_index expected
    → s ≡ stamp (record r { stage = to; status = RunStatus.running }) now
    → is_valid_run s ≡ true
    → update (record r { stage = expected; status = RunStatus.running }) now ≡ ok s
moved_back r now to expected {s} i e v =
    let q = stage_index-injective to expected i in
    update_valid _ now
      (subst (λ x. s ≡ stamp (record r { stage = x; status = RunStatus.running }) now) q e) v

advance_back :
    (from : Stage) (r : RotationRun) (now : ℕ) {s : RotationRun}
    → Advanced r now from s
    → is_valid_run s ≡ true
    → advance from r now ≡ ok s
unfolding advance
advance_back Stage.complete r now (finished e) v = update_valid _ now e v
advance_back Stage.complete r now (moved to i e) v = absurd (omega (arith, stage_index_bound to))
advance_back Stage.trigger r now (moved to i e) v = moved_back r now to Stage.preflight i e v
advance_back Stage.preflight r now (moved to i e) v = moved_back r now to Stage.plan i e v
advance_back Stage.plan r now (moved to i e) v = moved_back r now to Stage.create i e v
advance_back Stage.create r now (moved to i e) v = moved_back r now to Stage.store i e v
advance_back Stage.store r now (moved to i e) v = moved_back r now to Stage.deploy i e v
advance_back Stage.deploy r now (moved to i e) v = moved_back r now to Stage.verify i e v
advance_back Stage.verify r now (moved to i e) v = moved_back r now to Stage.rollout i e v
advance_back Stage.rollout r now (moved to i e) v = moved_back r now to Stage.observe i e v
advance_back Stage.observe r now (moved to i e) v = moved_back r now to Stage.approval i e v
advance_back Stage.approval r now (moved to i e) v = moved_back r now to Stage.revoke i e v
advance_back Stage.revoke r now (moved to i e) v = moved_back r now to Stage.complete i e v

complete_back :
    (m : Machine) (r : RotationRun) (proof : StageProof) (tok rev now : ℕ) (b : StageBindings)
    {s : RotationRun}
    → Completed m r proof tok rev now b s
    → complete m r proof tok rev now b ≡ ok s
unfolding complete
complete_back m r proof tok rev now b c =
    let tail = advance_back r.stage (bind_fields b r) now c.advanced c.valid in
    ground (
      arith,
      tail,
      c.revision_matches,
      c.leased,
      c.was_running,
      c.own_run,
      c.own_organisation,
      c.stage_matches,
      c.gated,
      c.bound,
      eq_iff proof.run_id r.id,
      eq_iff proof.organisation_id r.organisation_id,
      stage_eq_iff proof.stage r.stage,
    )

settle_back :
    {mode : RecoveryMode} (r : RotationRun) (id : String) (ev : List String) (now : ℕ)
    {s : RotationRun}
    → Settled r id ev now mode s
    → is_valid_run s ≡ true
    → settle mode r id ev now ≡ ok s
unfolding settle
settle_back r id ev now (retried t e) v = rw t (update_valid _ now e v)
settle_back {mode = RecoveryMode.retry} r id ev now (settled n e) v = absurd (n refl)
settle_back r id ev now (settled n e) v = update_valid _ now e v

Effect-apply :
    {m : Machine} {op : Op} (r s : RotationRun)
    → Effect m r s op
    → is_valid_run s ≡ true
    → apply m op r ≡ ok s
unfolding apply
Effect-apply {m} r s (completed_stage {proof = p} {tok = t} {rev = rev} {now = now} {b = b} c) v =
    complete_back m r p t rev now b c
Effect-apply r s (recovery_completed {id = id} {mode = mode} {ev = ev} {now = now} c) v =
    let tail = settle_back {mode = mode} r id ev now c.ended c.valid in
    ground (arith, tail, c.revision_matches, c.leased, c.was_recovering, c.bound_stage, c.evidenced)
Effect-apply r s (started {now = now} a b c e) v =
    let tail = update_valid _ now e v in ground (arith, tail)
Effect-apply r s (renewed {now = now} a b c d e) v =
    let tail = update_valid _ now e v in ground (arith, tail)
Effect-apply r s (paused {now = now} a b c e) v =
    let tail = update_valid _ now e v in ground (arith, tail)
Effect-apply r s (resumed {now = now} a b c d e) v =
    let tail = update_valid _ now e v in ground (arith, tail)
Effect-apply r s (cleaned {now = now} a b c e) v =
    let tail = update_valid _ now e v in ground (arith, tail)
Effect-apply r s (failed_run {now = now} a b c e) v =
    let tail = update_valid _ now e v in ground (arith, tail)
Effect-apply r s (cancelled_by {now = now} a b e) v =
    let tail = update_valid _ now e v in ground (arith, tail)
Effect-apply r s (recovered {now = now} a b c d e) v =
    let tail = update_valid _ now e v in ground (arith, tail)

-- From a valid run, a call succeeds with a result exactly when the step relation `Effect` relates
-- them and the call does not pause or clean up a run that is recovering.
pub apply-ok_iff :
    (m : Machine) (op : Op) (r s : RotationRun)
    → IsValid r
    → (apply m op r ≡ ok s) ↔ (Effect m r s op × (¬ InterruptsRecovery op r))
apply-ok_iff m op r s v = (
  λ h. (apply-Effect m op r h, λ i. recovery_not_interrupted m op r s v i h),
  λ p. Effect-apply r s p.0 (IsValid→is_valid_run s (Effect-IsValid r s v p.1 p.0)),
)
