-- ===== src/Workflow/Locks.antt =====
-- The credential locks of server/core/storage/firestore.py under the commands of
-- server/core/workflow/steps.py: one live run for each credential.
use uumi.Prelude.{
  Bool, Bool-cases, Option, String, absurd, and_left, ap, arith, eq_iff, false, if◌then◌else◌, inl,
  inr, none, refl, some, string_eq, subst, subst₂, sym, true, ◌&&◌, ◌∙◌, ◌≡◌,
}
use uumi.Contracts.{RotationRun, status_eq}
use uumi.Runs.{Db, LockDoc, lock_held_by, releases_lock}
use uumi.Store.{Table, get-put, get-remove, put, remove}

-- A run that has not given up its lock.
abbrev pub IsLive : RotationRun → Type 0
IsLive r = releases_lock r.status ≡ false

-- What holds of the stored runs and locks between two transactions.
pub record Consistent (db : Db) : Type 0 where
  pub own_path :
      (o i : String) (r : RotationRun) → db.runs o i ≡ some r → (r.organisation_id ≡ o) × (r.id ≡ i)
  pub live_locked :
      (o i : String) (r : RotationRun)
      → db.runs o i ≡ some r
      → IsLive r
      → (k : LockDoc) × (db.locks o r.credential_id ≡ some k) × (k.run_id ≡ i)
  pub lock_live :
      (o c : String) (k : LockDoc)
      → db.locks o c ≡ some k
      → (r : RotationRun) × (db.runs o k.run_id ≡ some r) × (r.credential_id ≡ c) × IsLive r

-- Two live runs of one credential are the same run.
pub one_live_run :
    (db : Db) (o i j : String) (r s : RotationRun)
    → Consistent db
    → db.runs o i ≡ some r
    → db.runs o j ≡ some s
    → IsLive r
    → IsLive s
    → r.credential_id ≡ s.credential_id
    → i ≡ j
one_live_run db o i j r s ok_db hr hs lr ls same =
    let (k, hk, ki) = ok_db.live_locked o i r hr lr in
    let (l, hl, lj) = ok_db.live_locked o j s hs ls in
    let hk' = subst (λ c. db.locks o c ≡ some k) same hk in let kl : k ≡ l = ground arith in cc

-- A lock that is there after a mutation was there before, and is not the one that was removed.
lock_before :
    (locks : Table LockDoc) (b : Bool) (o c o' c' : String) (k : LockDoc)
    → (if b then remove locks o c else locks) o' c' ≡ some k
    → (locks o' c' ≡ some k) × ((b ≡ true) → ¬ ((o ≡ o') × (c ≡ c')))
lock_before locks false o c o' c' k h = (h, λ e. cc)
lock_before locks true o c o' c' k h = elim (get-remove locks o c o' c') [
  | inl (eo, ec, gone) ↦ cc
  | inr (other, same) ↦ (sym same ∙ h, λ e. other)
]

-- A lock that a mutation does not remove stays.
lock_kept :
    (locks : Table LockDoc) (b : Bool) (o c o' c' : String) {d : Option LockDoc}
    → locks o' c' ≡ d
    → (b ≡ true → ¬ ((o ≡ o') × (c ≡ c')))
    → (if b then remove locks o c else locks) o' c' ≡ d
lock_kept locks false o c o' c' h n = h
lock_kept locks true o c o' c' h n = elim (get-remove locks o c o' c') [
  | inl (eo, ec, gone) ↦ absurd (n refl (eo, ec))
  | inr (other, same) ↦ same ∙ h
]

pub lock_held_by-some :
    (d : Option LockDoc) (i : String)
    → lock_held_by d i ≡ true
    → (k : LockDoc) × (d ≡ some k) × (k.run_id ≡ i)
lock_held_by-some none i h = cc
lock_held_by-some (some k) i h = (k, refl, (eq_iff k.run_id i).0 h)

-- A stored run is replaced: what a mutation does to the runs and the locks.
module _ (db db' : Db) (o i : String) (run updated : RotationRun) (holds : Bool)
    (before : Consistent db) (stored : db.runs o i ≡ some run)
    (same_org : updated.organisation_id ≡ o) (same_id : updated.id ≡ run.id)
    (same_credential : updated.credential_id ≡ run.credential_id)
    (holds_def : holds ≡ lock_held_by (db.locks o run.credential_id) run.id)
    (live_holds : IsLive updated → holds ≡ true) (runs_after : db'.runs ≡ put db.runs o i updated)
    (locks_after : db'.locks ≡ (
      if holds && releases_lock updated.status
      then remove db.locks o run.credential_id
      else db.locks)) where
  replaced-own_path :
      (o' i' : String) (r : RotationRun)
      → db'.runs o' i' ≡ some r
      → (r.organisation_id ≡ o') × (r.id ≡ i')
  replaced-own_path o' i' r h =
      let h' = subst (λ t. t o' i' ≡ some r) runs_after h in
      let old = before.own_path o i run stored in
      elim (get-put db.runs o i updated o' i') [
        | inl (eo, ei, now) ↦ let e : updated ≡ r = ground arith in (cc, cc)
        | inr (other, same) ↦ before.own_path o' i' r (sym same ∙ h')
      ]

  own_lock :
      IsLive updated → (k : LockDoc) × (db'.locks o run.credential_id ≡ some k) × (k.run_id ≡ i)
  own_lock live =
      let held = sym holds_def ∙ live_holds live in
      let (k, at, ki) = lock_held_by-some (db.locks o run.credential_id) run.id held in
      (
        k,
        subst (λ t. t o run.credential_id ≡ some k) (sym locks_after)
            (rw (live_holds live, live) at),
        ki ∙ (before.own_path o i run stored).1,
      )

  -- The lock of this run names it.
  same_run :
      {o' c : String} (k : LockDoc)
      → db.locks o' c ≡ some k
      → holds ≡ true
      → (o ≡ o') × (run.credential_id ≡ c)
      → i ≡ k.run_id
  same_run k at held p =
      let (l, found_at, li) =
        lock_held_by-some (db.locks o run.credential_id) run.id (sym holds_def ∙ held) in
      let own = before.own_path o i run stored in
      let at_doc = subst₂ (λ x y. db.locks x y ≡ some l) p.0 p.1 found_at in
      let e : l ≡ k = ground arith in cc

  replaced-live_locked :
      (o' i' : String) (r : RotationRun)
      → db'.runs o' i' ≡ some r
      → IsLive r
      → (k : LockDoc) × (db'.locks o' r.credential_id ≡ some k) × (k.run_id ≡ i')
  replaced-live_locked o' i' r h live =
      let h' = subst (λ t. t o' i' ≡ some r) runs_after h in
      elim (get-put db.runs o i updated o' i') [
        | inl (eo, ei, now) ↦
            let e : updated ≡ r = ground arith in
            let (k, at, ki) = own_lock (subst IsLive (sym e) live) in
            (
              k,
              subst₂ (λ x y. db'.locks x y ≡ some k) eo
                  (sym same_credential ∙ ap (λ x. x.credential_id) e) at,
              ki ∙ ei,
            )
        | inr (other, same) ↦
            let old = sym same ∙ h' in
            let (k, at, ki) = before.live_locked o' i' r old live in
            (
              k,
              subst (λ t. t o' r.credential_id ≡ some k) (sym locks_after)
                  (lock_kept db.locks (holds && releases_lock updated.status) o run.credential_id o'
                    r.credential_id at
                    (λ eb p. other (p.0, same_run k at (and_left holds _ eb) p ∙ ki))),
              ki,
            )
      ]

  holds_by :
      (k : LockDoc) → db.locks o run.credential_id ≡ some k → run.id ≡ k.run_id → holds ≡ true
  holds_by k at mine = holds_def ∙ rw at ((eq_iff k.run_id run.id).1 (sym mine))

  not_released :
      holds ≡ true → ((holds && releases_lock updated.status) ≡ true → ⊥) → IsLive updated
  not_released held n = elim (Bool-cases (releases_lock updated.status)) [
    | inl yes_released ↦ absurd (n (rw (held, yes_released)))
    | inr live ↦ live
  ]

  replaced-lock_holder :
      (o' c : String) (k : LockDoc)
      → db'.locks o' c ≡ some k
      → (r : RotationRun) × (db'.runs o' k.run_id ≡ some r) × (r.credential_id ≡ c) × IsLive r
  replaced-lock_holder o' c k h =
      let (old, kept) =
        lock_before db.locks (holds && releases_lock updated.status) o run.credential_id o' c k
          (subst (λ t. t o' c ≡ some k) locks_after h) in
      let (r, at, rc, live) = before.lock_live o' c k old in
      elim (get-put db.runs o i updated o' k.run_id) [
        | inl (eo, ei, now) ↦
            let there = subst₂ (λ x y. db.runs x y ≡ some run) eo ei stored in
            let e : r ≡ run = ground arith in
            let ec : run.credential_id ≡ c = ap (λ x. x.credential_id) (sym e) ∙ rc in
            let mine = (before.own_path o i run stored).1 ∙ ei in
            let held =
              holds_by k (subst₂ (λ x y. db.locks x y ≡ some k) (sym eo) (sym ec) old) mine in
            (
              updated,
              subst (λ t. t o' k.run_id ≡ some updated) (sym runs_after) now,
              same_credential ∙ ec,
              not_released held (λ b. kept b (eo, ec)),
            )
        | inr (other, same) ↦
            (r, subst (λ t. t o' k.run_id ≡ some r) (sym runs_after) (same ∙ at), rc, live)
      ]

  pub replaced-Consistent : Consistent db'
  replaced-Consistent = record {
    own_path = replaced-own_path;
    live_locked = replaced-live_locked;
    lock_live = replaced-lock_holder;
  }
