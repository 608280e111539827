-- ===== src/Machine/Completion.antt =====
-- What `complete` of server/core/state/machine.py has checked when it succeeds, and its result.
use uumi.Contracts.{
  RotationRun, RunStatus, Stage, StageBindings, StageProof, is_valid_run, stage_eq, stage_eq_iff,
  stage_index, status_eq_iff,
}
use uumi.Prelude.{arith, eq_iff, false, none, refl, string_eq, subst, true, ℕ, ◌+◌, ◌≡◌}
use uumi.Machine.{
  Machine, advance, bind_fields, binds_required, binds_unexpected, changes_bound, check_bindings,
  complete, gate, holds_lease, stamp, update, update-ok,
}
use uumi.Errors.{>>=-eq-ok, ok, ◌>>=◌}

pub check_bindings-ok :
    (r : RotationRun) (b : StageBindings) {c : StageBindings}
    → check_bindings r b ≡ ok c
    → (c ≡ b)
      × (binds_unexpected r.stage b ≡ false)
      × (binds_required r.stage b ≡ true)
      × (changes_bound r b ≡ false)
unfolding check_bindings
check_bindings-ok r b h = ground arith

-- The result of the last step of `complete`, by the stage.
pub data Advanced (r : RotationRun) (now : ℕ) : Stage → RotationRun → Type 0 where
  finished :
      {s : RotationRun}
      → s ≡ stamp (record r { status = RunStatus.completed; lease = none }) now
      → Advanced r now Stage.complete s
  moved :
      {s : RotationRun} {from : Stage} (to : Stage)
      → stage_index to ≡ stage_index from + 1
      → s ≡ stamp (record r { stage = to; status = RunStatus.running }) now
      → Advanced r now from s

moved_to :
    (r : RotationRun) (now : ℕ) {s : RotationRun} {from : Stage} (to : Stage)
    → stage_index to ≡ stage_index from + 1
    → update (record r { stage = to; status = RunStatus.running }) now ≡ ok s
    → Advanced r now from s × (is_valid_run s ≡ true)
moved_to r now to i h =
    let (e, v) = update-ok (record r { stage = to; status = RunStatus.running }) now h in
    (moved to i e, v)

pub advance-Advanced :
    (from : Stage) (r : RotationRun) (now : ℕ) {s : RotationRun}
    → advance from r now ≡ ok s
    → Advanced r now from s × (is_valid_run s ≡ true)
unfolding advance
advance-Advanced Stage.complete r now h =
    let (e, v) = update-ok (record r { status = RunStatus.completed; lease = none }) now h in
    (finished e, v)
advance-Advanced Stage.trigger r now h = moved_to r now Stage.preflight refl h
advance-Advanced Stage.preflight r now h = moved_to r now Stage.plan refl h
advance-Advanced Stage.plan r now h = moved_to r now Stage.create refl h
advance-Advanced Stage.create r now h = moved_to r now Stage.store refl h
advance-Advanced Stage.store r now h = moved_to r now Stage.deploy refl h
advance-Advanced Stage.deploy r now h = moved_to r now Stage.verify refl h
advance-Advanced Stage.verify r now h = moved_to r now Stage.rollout refl h
advance-Advanced Stage.rollout r now h = moved_to r now Stage.observe refl h
advance-Advanced Stage.observe r now h = moved_to r now Stage.approval refl h
advance-Advanced Stage.approval r now h = moved_to r now Stage.revoke refl h
advance-Advanced Stage.revoke r now h = moved_to r now Stage.complete refl h

pub record Completed (m : Machine) (r : RotationRun) (proof : StageProof) (token expected now : ℕ)
    (b : StageBindings) (s : RotationRun) : Type 0 where
  pub revision_matches : r.revision ≡ expected
  pub leased : holds_lease r.lease token now ≡ true
  pub was_running : r.status ≡ RunStatus.running
  pub own_run : proof.run_id ≡ r.id
  pub own_organisation : proof.organisation_id ≡ r.organisation_id
  pub stage_matches : proof.stage ≡ r.stage
  pub gated : gate m proof ≡ ok tt
  pub bound : check_bindings r b ≡ ok b
  pub advanced : Advanced (bind_fields b r) now r.stage s
  pub valid : is_valid_run s ≡ true

complete_tail :
    (m : Machine) (r : RotationRun) (proof : StageProof) (token expected now : ℕ)
    (b : StageBindings) {s : RotationRun}
    → complete m r proof token expected now b ≡ ok s
    → (check_bindings r b >>= λ c. advance r.stage (bind_fields c r) now) ≡ ok s
unfolding complete
complete_tail m r proof token expected now b h = ground arith

complete_end :
    (m : Machine) (r : RotationRun) (proof : StageProof) (token expected now : ℕ)
    (b : StageBindings) {s : RotationRun}
    → complete m r proof token expected now b ≡ ok s
    → (check_bindings r b ≡ ok b)
      × Advanced (bind_fields b r) now r.stage s
      × (is_valid_run s ≡ true)
complete_end m r proof token expected now b {s} h =
    let (c, checked, rest) =
      >>=-eq-ok (check_bindings r b) (λ c. advance r.stage (bind_fields c r) now)
        (complete_tail m r proof token expected now b h) in
    let e = (check_bindings-ok r b checked).0 in
    let rest' = subst (λ x. advance r.stage (bind_fields x r) now ≡ ok s) e rest in
    let (went, valid) = advance-Advanced r.stage (bind_fields b r) now rest' in
    (subst (λ x. check_bindings r b ≡ ok x) e checked, went, valid)

pub complete-Completed :
    (m : Machine) (r : RotationRun) (proof : StageProof) (token expected now : ℕ)
    (b : StageBindings) {s : RotationRun}
    → complete m r proof token expected now b ≡ ok s
    → Completed m r proof token expected now b s
unfolding complete
complete-Completed m r proof token expected now b h =
    let (bound, advanced, valid) = complete_end m r proof token expected now b h in
    record {
      revision_matches = ground arith;
      leased = ground arith;
      was_running = ground (arith, status_eq_iff r.status RunStatus.running);
      own_run = ground (arith, eq_iff proof.run_id r.id);
      own_organisation = ground (arith, eq_iff proof.organisation_id r.organisation_id);
      stage_matches = ground (arith, stage_eq_iff proof.stage r.stage);
      gated = ground arith;
      bound = bound;
      advanced = advanced;
      valid = valid;
    }
