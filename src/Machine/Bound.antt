-- ===== src/Machine/Bound.antt =====
-- The run fields that a stage binds, in server/core/state/machine.py: once set, they stay.
use uumi.Prelude.{
  List, Option, String, [], arith, eq_iff, false, is_empty, none, refl, some, string_eq, subst, sym,
  ℕ, ◌∙◌, ◌∷◌, ◌≡◌,
}
use uumi.Contracts.{RecoveryMode, RotationRun, RuntimeDeployment, Stage, StageBindings}
use uumi.Machine.Completion.{Advanced, check_bindings-ok, finished, moved}
use uumi.Machine.Settlement.{Settled, retried, settled}
use uumi.Machine.Effects.{
  Effect, apply-Effect, cancelled_by, cleaned, completed_stage, failed_run, paused, recovered,
  recovery_completed, renewed, resumed, started,
}
use uumi.Machine.{
  Machine, Op, Reach, bind_fields, changes_bound, here, next, or_keep, or_keep_all, rebinds,
  rebinds_deployments, stamp, without_recovery,
}

-- What is set stays as it is.
abbrev pub Stays {ℓ} : {A : Type ℓ} → Option A → Option A → Type ℓ
Stays {A = A} old new = (x : A) → old ≡ some x → new ≡ some x

pub record KeepsBindings (r s : RotationRun) : Type 0 where
  pub playbook_stays : Stays r.browser_playbook_version s.browser_playbook_version
  pub plan_stays : Stays r.plan_id s.plan_id
  pub plan_hash_stays : Stays r.plan_hash s.plan_hash
  pub current_stays : Stays r.current_generation_id s.current_generation_id
  pub target_stays : Stays r.target_generation_id s.target_generation_id
  pub deployments_stay : is_empty r.deployments ≡ false → s.deployments ≡ r.deployments

or_keep-Stays : (old new : Option String) → rebinds old new ≡ false → Stays old (or_keep new old)
or_keep-Stays old none h x e = e
or_keep-Stays none (some y) h x e = cc
or_keep-Stays (some z) (some y) h x e = ground (arith, eq_iff z y)

or_keep_all_stay :
    (old new : List RuntimeDeployment)
    → rebinds_deployments old new ≡ false
    → is_empty old ≡ false
    → or_keep_all new old ≡ old
or_keep_all_stay old [] h e = refl
or_keep_all_stay [] (y ∷ ys) h e = cc
or_keep_all_stay (x ∷ xs) (y ∷ ys) h e = cc

bind_fields-KeepsBindings :
    (r : RotationRun) (b : StageBindings)
    → changes_bound r b ≡ false
    → KeepsBindings r (bind_fields b r)
unfolding changes_bound bind_fields
bind_fields-KeepsBindings r b h = record {
  playbook_stays =
      or_keep-Stays r.browser_playbook_version b.browser_playbook_version (ground arith);
  plan_stays = or_keep-Stays r.plan_id b.plan_id (ground arith);
  plan_hash_stays = or_keep-Stays r.plan_hash b.plan_hash (ground arith);
  current_stays = or_keep-Stays r.current_generation_id b.current_generation_id (ground arith);
  target_stays = or_keep-Stays r.target_generation_id b.target_generation_id (ground arith);
  deployments_stay = or_keep_all_stay r.deployments b.deployments (ground arith);
}

-- The bound fields are those of another run.
record SameBindings (r s : RotationRun) : Type 0 where
  pub playbook : s.browser_playbook_version ≡ r.browser_playbook_version
  pub plan : s.plan_id ≡ r.plan_id
  pub hash : s.plan_hash ≡ r.plan_hash
  pub current : s.current_generation_id ≡ r.current_generation_id
  pub target : s.target_generation_id ≡ r.target_generation_id
  pub deployed : s.deployments ≡ r.deployments

SameBindings-KeepsBindings :
    (r q s : RotationRun) → KeepsBindings r q → SameBindings q s → KeepsBindings r s
SameBindings-KeepsBindings r q s k e = record {
  playbook_stays = λ x h. e.playbook ∙ k.playbook_stays x h;
  plan_stays = λ x h. e.plan ∙ k.plan_stays x h;
  plan_hash_stays = λ x h. e.hash ∙ k.plan_hash_stays x h;
  current_stays = λ x h. e.current ∙ k.current_stays x h;
  target_stays = λ x h. e.target ∙ k.target_stays x h;
  deployments_stay = λ h. e.deployed ∙ k.deployments_stay h;
}

KeepsBindings-refl : (r : RotationRun) → KeepsBindings r r
KeepsBindings-refl r = record {
  playbook_stays = λ x h. h;
  plan_stays = λ x h. h;
  plan_hash_stays = λ x h. h;
  current_stays = λ x h. h;
  target_stays = λ x h. h;
  deployments_stay = λ h. refl;
}

same : (r s : RotationRun) → SameBindings r s → KeepsBindings r s
same r s e = SameBindings-KeepsBindings r r s (KeepsBindings-refl r) e

KeepsBindings-trans :
    (r s t : RotationRun) → KeepsBindings r s → KeepsBindings s t → KeepsBindings r t
KeepsBindings-trans r s t h k = record {
  playbook_stays = λ x e. k.playbook_stays x (h.playbook_stays x e);
  plan_stays = λ x e. k.plan_stays x (h.plan_stays x e);
  plan_hash_stays = λ x e. k.plan_hash_stays x (h.plan_hash_stays x e);
  current_stays = λ x e. k.current_stays x (h.current_stays x e);
  target_stays = λ x e. k.target_stays x (h.target_stays x e);
  deployments_stay = λ e.
      let p = h.deployments_stay e in
      k.deployments_stay (subst (λ x. is_empty x ≡ false) (sym p) e) ∙ p;
}

Advanced-SameBindings :
    {r : RotationRun} {now : ℕ} {from : Stage} {s : RotationRun}
    → Advanced r now from s
    → SameBindings r s
unfolding stamp
Advanced-SameBindings (finished e) = ground arith
Advanced-SameBindings (moved to i e) = ground arith

Settled-SameBindings :
    {r : RotationRun} {id : String} {ev : List String} {now : ℕ} {mode : RecoveryMode}
    {s : RotationRun}
    → Settled r id ev now mode s
    → SameBindings r s
unfolding stamp
Settled-SameBindings (retried t e) = ground arith
Settled-SameBindings (settled n e) = ground arith

Effect-KeepsBindings :
    {m : Machine} {op : Op} (r s : RotationRun) → Effect m r s op → KeepsBindings r s
unfolding stamp without_recovery
Effect-KeepsBindings r s (completed_stage {b = b} c) =
    SameBindings-KeepsBindings r (bind_fields b r) s
      (bind_fields-KeepsBindings r b (check_bindings-ok r b c.bound).3)
      (Advanced-SameBindings c.advanced)
Effect-KeepsBindings r s (recovery_completed c) = same r s (Settled-SameBindings c.ended)
Effect-KeepsBindings r s (started a b c e) = same r s (ground arith)
Effect-KeepsBindings r s (renewed a b c d e) = same r s (ground arith)
Effect-KeepsBindings r s (paused a b c e) = same r s (ground arith)
Effect-KeepsBindings r s (resumed a b c d e) = same r s (ground arith)
Effect-KeepsBindings r s (cleaned a b c e) = same r s (ground arith)
Effect-KeepsBindings r s (failed_run a b c e) = same r s (ground arith)
Effect-KeepsBindings r s (cancelled_by a b e) = same r s (ground arith)
Effect-KeepsBindings r s (recovered a b c d e) = same r s (ground arith)

-- In every history, the playbook version, the plan, its hash, the generations and the deployments
-- of a run stay as they are once they are bound.
pub Reach-KeepsBindings :
    (m : Machine) (r : RotationRun) {s : RotationRun} → Reach m r s → KeepsBindings r s
Reach-KeepsBindings m r here = KeepsBindings-refl r
Reach-KeepsBindings m r (next {s = s} {t = t} w op e) =
    KeepsBindings-trans r s t (Reach-KeepsBindings m r w)
      (Effect-KeepsBindings s t (apply-Effect m op s e))
