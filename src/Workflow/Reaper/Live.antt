-- ===== src/Workflow/Reaper/Live.antt =====
-- A pass of server/core/workflow/steps.py over runs whose workers are gone: it ends, and no run that
-- it takes up is left running.
use uumi.Workflow.Reaper.Commands.{answer}
use uumi.Prelude.{
  All, Bool, Bool-cases, List, Option, String, [], arith, contains, false, if◌then◌else◌, inl, inr,
  is_some, length, nat_eq, none, refl, select, some, string_eq, subst, suc, sym, true, ℕ, ◌&&◌, ◌*◌,
  ◌+◌, ◌<◌, ◌==◌, ◌∙◌, ◌∷◌, ◌≡◌, ◌≢◌, ◌≤◌, ◌⊎◌,
}
use uumi.Contracts.{CommandBody, Lease, RotationRun, RunStatus, stage_eq, status_eq, status_eq_iff}
use uumi.Errors.{Result, ok}
use uumi.Machine.{Machine, apply, held_by_other, stamp}
use uumi.Machine.Revision.{apply-Advances}
use uumi.Machine.Effects.{cleaned}
use uumi.Machine.Exact.{apply-ok_iff}
use uumi.Machine.Validity.{apply-IsValid}
use uumi.Runs.{Db, Digests}
use uumi.Workflow.{command_op, machine_op}
use uumi.Workflow.Reaper.{
  Pass, ReapResult, clean_and_restart, count_reaped, interrupt_command, is_candidate, lease_expired,
  reap_all, reap_expired, reap_run, recovery_expired, recovery_stages, stage_expired,
}
use uumi.Workflow.Reaper.Frame.{Frame, Frame-trans, Separates}
use uumi.Workflow.Reaper.Single.{
  Done, Handled, OfPass, Stored, cleaned_up-Stored, fail_run-Done, fails, free_when_expired, given,
  given-Frame, may_interrupt_expired, recovers, restart_recovery-Done,
}

-- What the clock reads during the pass: no time before its start, and less than half an hour after.
abbrev pub OnTime : Pass → Type 0
OnTime p = (k : ℕ) → (p.now ≤ p.clock k) × (p.clock k < p.now + 30 * 60)

candidate_cases :
    (now : ℕ) (run : RotationRun)
    → is_candidate now run ≡ true
    → (run.status ≡ RunStatus.cleanup)
      ⊎ ((run.status ≡ RunStatus.recovering) ⊎ (run.status ≡ RunStatus.running))
        × (lease_expired run.lease now ≡ true)
unfolding is_candidate
candidate_cases now run h = elim (Bool-cases (run.status == RunStatus.cleanup)) [
  | inl e ↦ inl ((status_eq_iff _ _).0 e)
  | inr n ↦ elim (Bool-cases (run.status == RunStatus.recovering)) [
    | inl e ↦ inr (inl ((status_eq_iff _ _).0 e), ground (arith, n, e, h))
    | inr k ↦ inr (
      inr ((status_eq_iff run.status RunStatus.running).0 (ground (arith, n, k, h))),
      ground (arith, n, k, h),
    )
  ]
]

free_later :
    (lease : Option Lease) (owner : String) (now at : ℕ)
    → held_by_other lease owner now ≡ false
    → now ≤ at
    → held_by_other lease owner at ≡ false
free_later none owner now at h later = refl
free_later (some l) owner now at h later = ground arith

module _ (d : Digests) (m : Machine) (p : Pass) (separate : Separates p) (db : Db)
    (run : RotationRun) (s : Stored p db run) (at then_at : ℕ) (later : p.now ≤ at)
    (then_later : p.now ≤ then_at) (late : then_at < p.now + 30 * 60) where
  clean_and_restart-Done :
      run.status ≡ RunStatus.running
      → lease_expired run.lease p.now ≡ true
      → Done p db run (clean_and_restart d m p at then_at run db)
  unfolding clean_and_restart
  clean_and_restart-Done running expired =
      let failure = stage_expired run.stage in
      let updated = stamp (record run { status = RunStatus.cleanup; failure = some failure }) at in
      let command =
        interrupt_command p run "cleanup" (CommandBody.cleanup run.fencing_token failure) in
      let own : OfPass p run command "cleanup" =
        unfold interrupt_command in
        record { in_pass = refl; on_run = refl; by_pass = refl; revised = refl; no_proof = refl } in
      let moves : apply m (command_op command at) run ≡ ok updated =
        unfold interrupt_command machine_op in
        (apply-ok_iff m _ run updated s.valid).1 (
          cleaned refl (may_interrupt_expired run.lease run.fencing_token p.now at expired later)
              (rw running refl) refl,
          λ i. ground arith,
        ) in
      let (same, raised) = apply-Advances m (command_op command at) run moves in
      let valid = apply-IsValid m (command_op command at) run moves in
      let ready =
        cleaned_up-Stored d m p separate db run s command own updated same raised valid
          (unfold stamp in refl) in
      let (r, restarted, id, frame, handled) =
        restart_recovery-Done d m p _ updated ready then_at (unfold stamp in refl)
          (unfold stamp in free_when_expired run.lease p.actor_id p.now then_at expired then_later)
          late in
      (
        r,
        rw (given d m p db run s at command "cleanup" updated own moves) restarted,
        id ∙ same.same_id,
        Frame-trans p run.id (given-Frame d m p db run s command "cleanup" updated own)
            (subst (λ i. Frame p i (answer d db command run updated).1 r.db) same.same_id frame),
        subst (Handled p r.db) same.same_id handled,
      )

  -- A candidate that is cleaned up is free to be recovered.
  reap_run-Done :
      is_candidate p.now run ≡ true
      → (run.status ≡ RunStatus.cleanup → held_by_other run.lease p.actor_id p.now ≡ false)
      → at < p.now + 30 * 60
      → Done p db run (reap_run d m p at then_at run db)
  unfolding reap_run
  reap_run-Done candidate idle soon = elim (candidate_cases p.now run candidate) [
    | inl c ↦
        let cleaning : (run.status == RunStatus.cleanup) ≡ true = rw c refl in
        rw cleaning (
          restart_recovery-Done d m p db run s at c
            (free_later run.lease p.actor_id p.now at (idle c) later) soon)
    | inr (inl c, expired) ↦
        let cleaning : (run.status == RunStatus.cleanup) ≡ false = rw c refl in
        let recovering : (run.status == RunStatus.recovering) ≡ true = rw c refl in
        rw (cleaning, recovering)
          (fail_run-Done d m p db run s at "fail-recovery" recovery_expired (rw c refl) expired
            later)
    | inr (inr c, expired) ↦
        let cleaning : (run.status == RunStatus.cleanup) ≡ false = rw c refl in
        let recovering : (run.status == RunStatus.recovering) ≡ false = rw c refl in
        rw (cleaning, recovering)
          (elim (Bool-cases (contains recovery_stages run.stage && is_some run.plan_id)) [
            | inl e ↦ rw e (clean_and_restart-Done c expired)
            | inr e ↦ rw e (
                fail_run-Done d m p db run s at "fail" (stage_expired run.stage) (rw c refl) expired
                  later)
          ])
  ]

-- A candidate that the pass can take up: it is stored, and if it is cleaned up then no other worker
-- holds it.
pub record Ready (p : Pass) (db : Db) (run : RotationRun) : Type 0 where
  pub kept : Stored p db run
  pub idle : run.status ≡ RunStatus.cleanup → held_by_other run.lease p.actor_id p.now ≡ false

-- No two runs have the same identifier.
abbrev pub Apart : List RotationRun → Type 0
Apart [] = Unit
Apart (run ∷ runs) = All (λ other. other.id ≢ run.id) runs × Apart runs

Stored-Frame :
    (p : Pass) (separate : Separates p) (id : String) (db db' : Db) (run : RotationRun)
    → Frame p id db db'
    → run.id ≢ id
    → Stored p db run
    → Stored p db' run
Stored-Frame p separate id db db' run f n s = record {
  at_path = f.other_runs run.id n ∙ s.at_path;
  own = s.own;
  valid = s.valid;
  locked = f.other_locks run.credential_id run.id n s.locked;
  no_step = λ named name e later.
      f.other_steps run.id (p.reap_id named name) n ∙ s.no_step named name e later;
  no_event = λ named name e later.
      f.other_events (p.reap_id named name)
        (λ r a on_run same. n (sym e ∙ (separate named r name a same).0 ∙ on_run))
      ∙ s.no_event named name e later;
}

All-Ready :
    (p : Pass) (separate : Separates p) (id : String) (db db' : Db) (runs : List RotationRun)
    → Frame p id db db'
    → All (λ run. run.id ≢ id) runs
    → All (Ready p db) runs
    → All (Ready p db') runs
All-Ready p separate id db db' [] f n r = tt
All-Ready p separate id db db' (run ∷ runs) f (n, ns) (r, rs) = (
  record { kept = Stored-Frame p separate id db db' run f n r.kept; idle = r.idle },
  All-Ready p separate id db db' runs f ns rs,
)

Handled-same :
    (p : Pass) (db db' : Db) (id : String)
    → db'.runs p.organisation_id id ≡ db.runs p.organisation_id id
    → Handled p db id
    → Handled p db' id
Handled-same p db db' id same (recovers s at e l) = recovers s (same ∙ at) e l
Handled-same p db db' id same (fails s at e l) = fails s (same ∙ at) e l

-- What a pass over candidates gives.
pub record Passed (p : Pass) (db : Db) (runs : List RotationRun) (call : Result (ReapResult × Db))
    : Type 0 where
  pub result : ReapResult
  pub after : Db
  pub returns : call ≡ ok (result, after)
  pub handled : All (λ run. Handled p after run.id) runs
  pub scans_all : result.scanned ≡ length runs
  pub counts_all : result.restarted + result.failed ≡ length runs
  pub keeps_others :
      (id : String)
      → All (λ run. run.id ≢ id) runs
      → after.runs p.organisation_id id ≡ db.runs p.organisation_id id

count_both :
    (restarts : Bool) (restarted failed n : ℕ)
    → restarted + failed ≡ n
    → (if restarts then restarted + 1 else restarted) + (if restarts then failed else failed + 1)
      ≡ suc n
count_both true restarted failed n h = omega arith
count_both false restarted failed n h = omega arith

All-select :
    {A : Type 0} (test : A → Bool) (xs : List A) → All (λ x. test x ≡ true) (select test xs)
All-select test [] = tt
All-select test (x ∷ xs) =
    let rest = All-select test xs in
    elim (Bool-cases (test x)) [ inl e ↦ rw e (e, rest) | inr n ↦ rw n rest ]

module _ (d : Digests) (m : Machine) (p : Pass) (separate : Separates p) (timely : OnTime p) where
  reap_all-Passed :
      (k : ℕ) (runs : List RotationRun) (db : Db)
      → All (λ run. is_candidate p.now run ≡ true) runs
      → All (Ready p db) runs
      → Apart runs
      → Passed p db runs (reap_all d m p k runs db)
  unfolding reap_all count_reaped
  reap_all-Passed k [] db cs rs apart = record {
    result = _;
    after = db;
    returns = refl;
    handled = tt;
    scans_all = refl;
    counts_all = refl;
    keeps_others = λ id n. refl;
  }
  reap_all-Passed k (run ∷ runs) db (c, cs) (r, rs) (n, ns) =
      let (early, soon) = timely (2 * k) in
      let (then_early, then_soon) = timely (2 * k + 1) in
      let (done, returned, id, frame, handled) =
        reap_run-Done d m p separate db run r.kept _ _ early then_early then_soon c r.idle soon in
      let rest =
        reap_all-Passed (k + 1) runs done.db cs
          (All-Ready p separate run.id db done.db runs frame n rs) ns in
      record {
        result = count_reaped done rest.result;
        after = rest.after;
        returns = rw (returned, rest.returns) refl;
        handled = (
          Handled-same p done.db rest.after run.id (rest.keeps_others run.id n) handled,
          rest.handled,
        );
        scans_all = let scanned = rest.scans_all in omega arith;
        counts_all = count_both done.restarts _ _ _ rest.counts_all;
        keeps_others =
            λ id away. rest.keeps_others id away.1 ∙ frame.other_runs id (λ e. away.0 (sym e));
      }

  -- A pass over the runs of an organisation does not raise, whatever it lists, when the candidates
  -- are stored runs with different identifiers that hold their locks, no other worker holds one of
  -- them that is cleaned up, the pass takes less than half an hour, and its command identifiers are
  -- new. It then has dealt with every candidate, each one is counted once, as restarted or as failed,
  -- and each is stored under recovery by the pass's actor or as failed; no other run is changed.
  pub reap_expired-Passed :
      (listed : List RotationRun) (db : Db)
      → All (Ready p db) (select (is_candidate p.now) listed)
      → Apart (select (is_candidate p.now) listed)
      → Passed p db (select (is_candidate p.now) listed) (reap_expired d m p listed db)
  unfolding reap_expired
  reap_expired-Passed listed db ready apart =
      reap_all-Passed 0 (select (is_candidate p.now) listed) db
        (All-select (is_candidate p.now) listed) ready apart
