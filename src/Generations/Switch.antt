-- ===== src/Generations/Switch.antt =====
-- A promotion moves the active generation of its credential, and no sequence of the operations of
-- server/core/storage/generation.py leaves a credential with two.
use uumi.Prelude.{
  Option, String, absurd, ap, arith, false, inl, inr, list_eq, nat_eq, option_eq, refl, some,
  string_eq, subst, subst₂, sym, true, ◌∙◌, ◌≡◌,
}
use uumi.Generations.Steps.{is_active}
use uumi.Generations.Active.{ActiveFor, NamedBy, OneActive, both_values}
use uumi.Store.{Table, get-put, get-put_self, put}
use uumi.Generations.{
  CredentialGeneration, GenerationDb, ManagedCredential, Report, activated, promoted, superseded_by,
}

pub some_same {ℓ} : {A : Type ℓ} {o : Option A} {a b : A} → o ≡ some a → o ≡ some b → a ≡ b
some_same {a = a} {b = b} h k = let e : some a ≡ some b = sym h ∙ k in ground arith

pub put_elsewhere {ℓ} :
    {V : Type ℓ} (t : Table V) (v : V) {o i o' i' : String}
    → ¬ ((o ≡ o') × (i ≡ i'))
    → put t o i v o' i' ≡ t o' i'
put_elsewhere t v {o} {i} {o'} {i'} other = elim (get-put t o i v o' i') [
  | inl (eo, ei, now) ↦ absurd (other (eo, ei))
  | inr (k, same) ↦ same
]

-- Where a generation comes from that is stored after a promotion.
data Origin (db : GenerationDb) (o ti pi : String) (t p : CredentialGeneration) (o' i' : String)
    (g : CredentialGeneration) : Type 0 where
  is_predecessor : o ≡ o' → pi ≡ i' → g ≡ superseded_by p t → Origin db o ti pi t p o' i' g
  is_target : o ≡ o' → ti ≡ i' → g ≡ promoted t p → Origin db o ti pi t p o' i' g
  is_other :
      ¬ ((o ≡ o') × (pi ≡ i'))
      → ¬ ((o ≡ o') × (ti ≡ i'))
      → db.generations o' i' ≡ some g
      → Origin db o ti pi t p o' i' g

origin :
    (db : GenerationDb) (o ti pi : String) (t p : CredentialGeneration) (o' i' : String)
    (g : CredentialGeneration)
    → put (put db.generations o ti (promoted t p)) o pi (superseded_by p t) o' i' ≡ some g
    → Origin db o ti pi t p o' i' g
origin db o ti pi t p o' i' g at =
    elim (get-put (put db.generations o ti (promoted t p)) o pi (superseded_by p t) o' i') [
      | inl (eo, ei, now) ↦ is_predecessor eo ei (some_same at now)
      | inr (other, same) ↦ elim (get-put db.generations o ti (promoted t p) o' i') [
        | inl (eo, ei, now) ↦ is_target eo ei (some_same (sym same ∙ at) now)
        | inr (other', same') ↦ is_other other other' (sym same' ∙ sym same ∙ at)
      ]
    ]

module _ (db db' : GenerationDb) (o c ti pi : String) (x : ManagedCredential)
    (t p : CredentialGeneration) (r : Report) (before : OneActive db)
    (atx : db.credentials o c ≡ some x) (att : db.generations o ti ≡ some t)
    (atp : db.generations o pi ≡ some p) (names : x.active_generation_id ≡ some pi)
    (t_lineage : t.credential_id ≡ x.id) (p_lineage : p.credential_id ≡ x.id)
    (t_idle : is_active t ≡ false) (p_active : is_active p ≡ true)
    (generations_after : db'.generations
      ≡ put (put db.generations o ti (promoted t p)) o pi (superseded_by p t))
    (credentials_after : db'.credentials ≡ put db.credentials o c (activated x t r)) where
  apart : ¬ (pi ≡ ti)
  apart e =
      let here_p = subst (λ v. db.generations o v ≡ some p) e atp in
      let same : t ≡ p = some_same att here_p in
      both_values p_active (sym (ap is_active same) ∙ t_idle)

  t_belongs : t.credential_id ≡ c
  t_belongs = t_lineage ∙ before.called o c x atx

  p_belongs : p.credential_id ≡ c
  p_belongs = p_lineage ∙ before.called o c x atx

  target_now : db'.generations o ti ≡ some (promoted t p)
  target_now =
      subst (λ (g : Table CredentialGeneration). g o ti ≡ some (promoted t p))
        (sym generations_after)
        (put_elsewhere (put db.generations o ti (promoted t p)) (superseded_by p t) (λ e. apart e.1)
          ∙ get-put_self db.generations o ti (promoted t p))

  credential_now : db'.credentials o c ≡ some (activated x t r)
  credential_now =
      subst (λ (g : Table ManagedCredential). g o c ≡ some (activated x t r))
        (sym credentials_after) (get-put_self db.credentials o c (activated x t r))

  -- A generation that is neither the target nor the predecessor stays as it is.
  other_generation :
      {o' i' : String} {g : CredentialGeneration}
      → ¬ ((o ≡ o') × (pi ≡ i'))
      → ¬ ((o ≡ o') × (ti ≡ i'))
      → db.generations o' i' ≡ some g
      → db'.generations o' i' ≡ some g
  other_generation {o'} {i'} {g} not_p not_t at =
      subst (λ (v : Table CredentialGeneration). v o' i' ≡ some g) (sym generations_after)
        (put_elsewhere (put db.generations o ti (promoted t p)) (superseded_by p t) not_p
          ∙ put_elsewhere db.generations (promoted t p) not_t
          ∙ at)

  still_named :
      (o' i' : String) (g : CredentialGeneration)
      → ¬ ((o ≡ o') × (pi ≡ i'))
      → NamedBy db o' i' g
      → NamedBy db' o' i' g
  still_named o' i' g not_p n =
      elim (get-put db.credentials o c (activated x t r) o' g.credential_id) [
        | inl (eo, ec, now) ↦
            let there =
              subst₂ (λ a b. db.credentials a b ≡ some n.credential) (sym eo) (sym ec) n.stored in
            let same : x ≡ n.credential = some_same atx there in
            let which : pi ≡ i' =
              some_same names
                (ap (λ (v : ManagedCredential). v.active_generation_id) same ∙ n.names) in
            absurd (not_p (eo, which))
        | inr (other, same) ↦ record {
          credential = n.credential;
          stored =
              subst (λ (v : Table ManagedCredential). v o' g.credential_id ≡ some n.credential)
                (sym credentials_after) (same ∙ n.stored);
          names = n.names;
        }
      ]

  target_named : NamedBy db' o ti (promoted t p)
  unfolding promoted activated
  target_named = record {
    credential = activated x t r;
    stored =
        subst (λ v. db'.credentials o v ≡ some (activated x t r)) (sym t_belongs) credential_now;
    names = ap (λ v. some v) (before.in_place o ti t att);
  }

  target_serves : ActiveFor db' o c ti
  unfolding promoted
  target_serves = record {
    generation = promoted t p;
    stored = target_now;
    active_state = refl;
    lineage = t_belongs;
  }

  still_served :
      (o' c' i' : String) → ¬ ((o ≡ o') × (c ≡ c')) → ActiveFor db o' c' i' → ActiveFor db' o' c' i'
  still_served o' c' i' other a = record {
    generation = a.generation;
    stored =
        other_generation
          (λ e.
            let there =
              subst₂ (λ u v. db.generations u v ≡ some a.generation) (sym e.0) (sym e.1) a.stored in
            let same : p ≡ a.generation = some_same atp there in
            other (
              e.0,
              sym p_belongs ∙ ap (λ (v : CredentialGeneration). v.credential_id) same ∙ a.lineage,
            ))
          (λ e.
            let there =
              subst₂ (λ u v. db.generations u v ≡ some a.generation) (sym e.0) (sym e.1) a.stored in
            let same : t ≡ a.generation = some_same att there in
            both_values (ap is_active same ∙ a.active_state) t_idle)
          a.stored;
    active_state = a.active_state;
    lineage = a.lineage;
  }

  switch-in_place :
      (o' i' : String) (g : CredentialGeneration) → db'.generations o' i' ≡ some g → g.id ≡ i'
  unfolding promoted superseded_by
  switch-in_place o' i' g at =
      elim (origin db o ti pi t p o' i' g
        (subst (λ (v : Table CredentialGeneration). v o' i' ≡ some g) generations_after at)) [
          | is_predecessor eo ei e ↦
              ap (λ (v : CredentialGeneration). v.id) e ∙ before.in_place o pi p atp ∙ ei
          | is_target eo ei e ↦
              ap (λ (v : CredentialGeneration). v.id) e ∙ before.in_place o ti t att ∙ ei
          | is_other not_p not_t old ↦ before.in_place o' i' g old
        ]

  switch-called :
      (o' c' : String) (y : ManagedCredential) → db'.credentials o' c' ≡ some y → y.id ≡ c'
  unfolding activated
  switch-called o' c' y at =
      let at' = subst (λ (v : Table ManagedCredential). v o' c' ≡ some y) credentials_after at in
      elim (get-put db.credentials o c (activated x t r) o' c') [
        | inl (eo, ec, now) ↦
            ap (λ (v : ManagedCredential). v.id) (some_same at' now) ∙ before.called o c x atx ∙ ec
        | inr (other, same) ↦ before.called o' c' y (sym same ∙ at')
      ]

  switch-named :
      (o' i' : String) (g : CredentialGeneration)
      → db'.generations o' i' ≡ some g
      → is_active g ≡ true
      → NamedBy db' o' i' g
  unfolding superseded_by
  switch-named o' i' g at busy =
      elim (origin db o ti pi t p o' i' g
        (subst (λ (v : Table CredentialGeneration). v o' i' ≡ some g) generations_after at)) [
          | is_predecessor eo ei e ↦ absurd (both_values busy (ap is_active e))
          | is_target eo ei e ↦
              subst (NamedBy db' o' i') (sym e)
                (subst₂ (λ u v. NamedBy db' u v (promoted t p)) eo ei target_named)
          | is_other not_p not_t old ↦ still_named o' i' g not_p (before.named o' i' g old busy)
        ]

  switch-served :
      (o' c' i' : String) (y : ManagedCredential)
      → db'.credentials o' c' ≡ some y
      → y.active_generation_id ≡ some i'
      → ActiveFor db' o' c' i'
  unfolding activated
  switch-served o' c' i' y at active_id =
      let at' = subst (λ (v : Table ManagedCredential). v o' c' ≡ some y) credentials_after at in
      elim (get-put db.credentials o c (activated x t r) o' c') [
        | inl (eo, ec, now) ↦
            let same : y ≡ activated x t r = some_same at' now in
            let which : t.id ≡ i' =
              some_same refl
                (sym (ap (λ (v : ManagedCredential). v.active_generation_id) same) ∙ active_id) in
            let id : ti ≡ i' = sym (before.in_place o ti t att) ∙ which in
            subst (ActiveFor db' o' c') id
              (subst₂ (λ u v. ActiveFor db' u v ti) eo ec target_serves)
        | inr (other, same) ↦
            still_served o' c' i' other (before.served o' c' i' y (sym same ∙ at') active_id)
      ]

  pub switch-OneActive : OneActive db'
  switch-OneActive = record {
    in_place = switch-in_place;
    called = switch-called;
    named = switch-named;
    served = switch-served;
  }
