-- ===== src/Machine/Progress.antt =====
-- The order of the stages in server/core/state/machine.py, and the proofs that a run has shown.
use uumi.Prelude.{
  Bool-cases, List, String, absurd, ap, arith, eqb, inl, inr, refl, subst, sym, ℕ, ◌+◌, ◌<◌, ◌≡◌,
  ◌≢◌, ◌≤◌, ◌⊎◌,
}
use uumi.Contracts.{
  IsValid, RecoveryMode, RotationRun, RunStatus, Stage, StageBindings, StageProof, stage_eq,
  stage_eq_iff, stage_index, stage_index-injective, stage_index_bound, status_eq,
}
use uumi.Machine.Effects.{
  Effect, apply-Effect, cancelled_by, cleaned, completed_stage, failed_run, paused, recovered,
  recovery_completed, renewed, resumed, started,
}
use uumi.Machine.Validity.{Reach-IsValid}
use uumi.Machine.Completion.{Advanced, finished, moved}
use uumi.Machine.Settlement.{Settled, retried, settled}
use uumi.Errors.{ok}
use uumi.Machine.{
  Machine, Op, Reach, apply, bind_fields, gate, here, next, op_complete, stamp, without_recovery,
}

-- The call completes the stage of this run: its proof names the run and the stage, and passed.
abbrev pub ProvesStage : Machine → Stage → Op → RotationRun → Type 0
ProvesStage m st (op_complete proof tok rev now b) r =
    (proof.stage ≡ st) × (proof.run_id ≡ r.id) × (gate m proof ≡ ok tt)
ProvesStage m st _ r = ⊥

-- How a call moves the stage: by one, on a proof for the stage that the run is in, or not at all.
abbrev pub Moves : Machine → Op → RotationRun → RotationRun → Type 0
Moves m op r s =
    (s.stage ≡ r.stage) × (s.status ≡ RunStatus.completed → r.status ≡ RunStatus.completed)
    ⊎ (stage_index s.stage ≡ stage_index r.stage + 1)
      × (s.status ≡ RunStatus.running)
      × ProvesStage m r.stage op r
    ⊎ (s.stage ≡ r.stage)
      × (r.stage ≡ Stage.complete)
      × (s.status ≡ RunStatus.completed)
      × ProvesStage m Stage.complete op r

Advanced-Moves :
    (m : Machine) (r : RotationRun) (proof : StageProof) (tok rev now : ℕ) (b : StageBindings)
    (from : Stage) {s : RotationRun}
    → from ≡ r.stage
    → ProvesStage m r.stage (op_complete proof tok rev now b) r
    → Advanced (bind_fields b r) now from s
    → Moves m (op_complete proof tok rev now b) r s
unfolding stamp bind_fields
Advanced-Moves m r proof tok rev now b from e p (finished q) =
    inr (inr (ground arith, ground arith, ground arith, (ground arith, p.1, p.2)))
Advanced-Moves m r proof tok rev now b from e p (moved to i q) =
    inr (inl (ground arith, ground arith, p))

Settled-stage :
    (r : RotationRun) (id : String) (ev : List String) (now : ℕ) {mode : RecoveryMode}
    {s : RotationRun}
    → Settled r id ev now mode s
    → (s.stage ≡ r.stage) × (s.status ≡ RunStatus.completed → r.status ≡ RunStatus.completed)
unfolding stamp
Settled-stage r id ev now (retried t e) = (ground arith, λ c. ground arith)
Settled-stage r id ev now (settled n e) = (ground arith, λ c. ground arith)

Effect-Moves :
    {m : Machine} {op : Op} (r : RotationRun) {s : RotationRun} → Effect m r s op → Moves m op r s
unfolding stamp without_recovery
Effect-Moves {m} r (completed_stage {proof = proof} {tok = tok} {rev = rev} {now = now} {b = b} c) =
    Advanced-Moves m r proof tok rev now b r.stage refl (c.stage_matches, c.own_run, c.gated)
      c.advanced
Effect-Moves r (recovery_completed {id = id} {ev = ev} {now = now} c) =
    inl (Settled-stage r id ev now c.ended)
Effect-Moves r (started a b c e) = inl (ground arith, λ d. cc)
Effect-Moves r (renewed a b c d e) = inl (ground arith, λ f. ground arith)
Effect-Moves r (paused a b c e) = inl (ground arith, λ d. ground arith)
Effect-Moves r (resumed a b c d e) = inl (ground arith, λ f. ground arith)
Effect-Moves r (cleaned a b c e) = inl (ground arith, λ d. ground arith)
Effect-Moves r (failed_run a b c e) = inl (ground arith, λ d. ground arith)
Effect-Moves r (cancelled_by a b e) = inl (ground arith, λ d. ground arith)
Effect-Moves r (recovered a b c d e) = inl (ground arith, λ f. ground arith)

-- A call keeps the stage, or is a `complete` with an accepted proof for the current stage, which
-- moves to the next stage or, in the last one, completes the run.
pub apply-Moves :
    (m : Machine) (op : Op) (r : RotationRun) {s : RotationRun}
    → apply m op r ≡ ok s
    → Moves m op r s
apply-Moves m op r h = Effect-Moves r (apply-Effect m op r h)

-- Some call of the history completed the stage with an accepted proof.
abbrev pub Proved : (m : Machine) (st : Stage) {r s : RotationRun} → Reach m r s → Type 0
Proved m st here = ⊥
Proved m st (next {s = s} w op e) = Proved m st w ⊎ ProvesStage m st op s

-- The stages between the first run and the last of a history have been proved.
pub Reach-Proved :
    (m : Machine) {r s : RotationRun} (w : Reach m r s) (st : Stage)
    → stage_index r.stage ≤ stage_index st
    → stage_index st < stage_index s.stage
    → Proved m st w
Reach-Proved m here st lo hi = omega arith
Reach-Proved m (next {s = s} {t = t} w op e) st lo hi = elim (apply-Moves m op s e) [
  | inl kept ↦ inl (Reach-Proved m w st lo (ground (arith, ap stage_index kept.0)))
  | inr (inl up) ↦ elim (Bool-cases (eqb (stage_index st) (stage_index s.stage))) [
    | inl same ↦
        let e' = (stage_eq_iff st s.stage).0 same in
        inr (subst (λ x. ProvesStage m x op s) (sym e') up.2)
    | inr other ↦ inl (Reach-Proved m w st lo (ground (arith, up.0)))
  ]
  | inr (inr done) ↦ inl (Reach-Proved m w st lo (ground (arith, ap stage_index done.0)))
]

Reach-Proved-complete :
    (m : Machine) {r s : RotationRun} (w : Reach m r s)
    → r.status ≢ RunStatus.completed
    → s.status ≡ RunStatus.completed
    → Proved m Stage.complete w
Reach-Proved-complete m here n h = absurd (n h)
Reach-Proved-complete m (next {s = s} w op e) n h = elim (apply-Moves m op s e) [
  | inl kept ↦ inl (Reach-Proved-complete m w n (kept.1 h))
  | inr (inl up) ↦ cc (up.1)
  | inr (inr done) ↦ inr done.3
]

-- In every history that takes a valid run from the trigger stage to completion, each of the twelve
-- stages was completed by a call whose proof names that stage and this run and passes the gate.
pub completed_run-Proved :
    (m : Machine) (r s : RotationRun) (w : Reach m r s)
    → IsValid r
    → r.stage ≡ Stage.trigger
    → r.status ≢ RunStatus.completed
    → s.status ≡ RunStatus.completed
    → (st : Stage) → Proved m st w
completed_run-Proved m r s w v first n done st = elim (Bool-cases (eqb (stage_index st) 11)) [
  | inl last ↦
      subst (λ x. Proved m x w) (stage_index-injective Stage.complete st (ground arith))
        (Reach-Proved-complete m w n done)
  | inr earlier ↦
      let at_end = (Reach-IsValid w v).completed_at_end done in
      Reach-Proved m w st (ground (arith, ap stage_index first))
        (ground (arith, ap stage_index at_end, stage_index_bound st))
]
