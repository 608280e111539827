-- ===== src/Generations/Active.antt =====
-- The active generation of a credential, under the operations of server/core/storage/generation.py.
use uumi.Prelude.{
  Bool, String, absurd, ap, arith, false, inl, inr, list_eq, nat_eq, option_eq, some, string_eq,
  subst, subst₂, sym, true, ◌∙◌, ◌≡◌, ◌⊎◌,
}
use uumi.Generations.Steps.{is_active}
use uumi.Store.{get-put, put}
use uumi.Generations.{CredentialGeneration, GenerationDb, ManagedCredential}

-- A credential names the generation as its active one.
pub record NamedBy (db : GenerationDb) (o i : String) (g : CredentialGeneration) : Type 0 where
  pub credential : ManagedCredential
  pub stored : db.credentials o g.credential_id ≡ some credential
  pub names : credential.active_generation_id ≡ some i

-- An active generation of a credential is stored.
pub record ActiveFor (db : GenerationDb) (o c i : String) : Type 0 where
  pub generation : CredentialGeneration
  pub stored : db.generations o i ≡ some generation
  pub active_state : is_active generation ≡ true
  pub lineage : generation.credential_id ≡ c

-- What holds between two transactions: documents stand under their identifiers, an active generation
-- is the one its credential names, and the generation that a credential names is active.
pub record OneActive (db : GenerationDb) : Type 0 where
  pub in_place : (o i : String) (g : CredentialGeneration) → db.generations o i ≡ some g → g.id ≡ i
  pub called : (o c : String) (x : ManagedCredential) → db.credentials o c ≡ some x → x.id ≡ c
  pub named :
      (o i : String) (g : CredentialGeneration)
      → db.generations o i ≡ some g
      → is_active g ≡ true
      → NamedBy db o i g
  pub served :
      (o c i : String) (x : ManagedCredential)
      → db.credentials o c ≡ some x
      → x.active_generation_id ≡ some i
      → ActiveFor db o c i

pub both_values : {b : Bool} → b ≡ true → b ≡ false → ⊥
both_values h k = cc

-- A generation that is not active is written where none active is.
module _ (db db' : GenerationDb) (o i : String) (g' : CredentialGeneration) (before : OneActive db)
    (placed : g'.id ≡ i) (idle : is_active g' ≡ false)
    (idle_before : (g : CredentialGeneration) → db.generations o i ≡ some g → is_active g ≡ false)
    (generations_after : db'.generations ≡ put db.generations o i g')
    (credentials_after : db'.credentials ≡ db.credentials) where
  old_generation :
      {o' i' : String} {g : CredentialGeneration}
      → db'.generations o' i' ≡ some g
      → ((g ≡ g') × (i ≡ i')) ⊎ (db.generations o' i' ≡ some g)
  old_generation {o'} {i'} {g} at =
      let at' = subst (λ t. t o' i' ≡ some g) generations_after at in
      elim (get-put db.generations o i g' o' i') [
        | inl (eo, ei, now) ↦ inl (ground arith, ei)
        | inr (other, same) ↦ inr (sym same ∙ at')
      ]

  kept_generation :
      {o' i' : String} {g : CredentialGeneration}
      → db.generations o' i' ≡ some g
      → is_active g ≡ true
      → db'.generations o' i' ≡ some g
  kept_generation {o'} {i'} {g} at busy = elim (get-put db.generations o i g' o' i') [
    | inl (eo, ei, now) ↦
        let was =
          idle_before g (subst₂ (λ a b. db.generations a b ≡ some g) (sym eo) (sym ei) at) in
        absurd (both_values busy was)
    | inr (other, same) ↦ subst (λ t. t o' i' ≡ some g) (sym generations_after) (same ∙ at)
  ]

  pub idle-OneActive : OneActive db'
  idle-OneActive = record {
    in_place = λ o' i' g at. elim (old_generation at) [
      | inl (e, ei) ↦ ap (λ (v : CredentialGeneration). v.id) e ∙ placed ∙ ei
      | inr at' ↦ before.in_place o' i' g at'
    ];
    called = λ o' c x at. before.called o' c x (subst (λ t. t o' c ≡ some x) credentials_after at);
    named = λ o' i' g at busy. elim (old_generation at) [
      | inl (e, ei) ↦ absurd (both_values busy (ap is_active e ∙ idle))
      | inr at' ↦
          let n = before.named o' i' g at' busy in
          record {
            credential = n.credential;
            stored =
                subst (λ t. t o' g.credential_id ≡ some n.credential) (sym credentials_after)
                  n.stored;
            names = n.names;
          }
    ];
    served = λ o' c i' x at names.
        let a = before.served o' c i' x (subst (λ t. t o' c ≡ some x) credentials_after at) names in
        record {
          generation = a.generation;
          stored = kept_generation a.stored a.active_state;
          active_state = a.active_state;
          lineage = a.lineage;
        };
  }
