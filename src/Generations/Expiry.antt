-- ===== src/Generations/Expiry.antt =====
-- What `promote` of server/core/storage/generation.py writes and what it relies on.
use uumi.Prelude.{
  Bool-cases, List, String, absurd, arith, eq_iff, false, inl, inr, is_empty, is_some, list_eq,
  nat_eq, none, option_eq, some, string_eq, subst, sym, true, ℕ, ◌&&◌, ◌==◌, ◌≡◌, ◌⊎◌,
}
use uumi.Generations.Steps.{Promotable, promote_loaded-cases}
use uumi.Generations.Switch.{some_same}
use uumi.Contracts.{GenerationState}
use uumi.Errors.{
  >>=-eq-ok, ok, reject_if-eq-ok, require-eq-ok, resource_conflict, resource_not_found,
}
use uumi.Store.{found, found-ok, get-put_self}
use uumi.Generations.{
  ConsumerBinding, CredentialGeneration, GenerationDb, ManagedCredential, Report, activated,
  is_due_in_time, load_bindings, promote, revoke, revoke_loaded, same_state, write_promotion,
}

-- The stored documents that a promotion relies on, and that it passed its checks on them.
pub record PromotedFrom (db : GenerationDb) (o c ti pi report : String) (ids : List String)
    : Type 0 where
  pub credential : ManagedCredential
  pub target : CredentialGeneration
  pub predecessor : CredentialGeneration
  pub verification : Report
  pub consumers : List ConsumerBinding
  pub credential_stored : db.credentials o c ≡ some credential
  pub target_stored : db.generations o ti ≡ some target
  pub predecessor_stored : db.generations o pi ≡ some predecessor
  pub report_stored : db.reports o report ≡ some verification
  pub consumers_stored : load_bindings db.bindings o ids ≡ ok consumers
  pub checked : Promotable credential target predecessor verification consumers pi

-- The target is active and its credential names it already, and nothing is changed.
pub record Repeated (db db' : GenerationDb) (o c ti : String) : Type 0 where
  pub credential : ManagedCredential
  pub target : CredentialGeneration
  pub credential_stored : db.credentials o c ≡ some credential
  pub target_stored : db.generations o ti ≡ some target
  pub names_target : credential.active_generation_id ≡ some ti
  pub target_active : target.state ≡ GenerationState.active
  pub unchanged : db' ≡ db

-- A promotion that succeeds finds its target promoted and changes nothing, or its credential names
-- the predecessor, which is active, the report is passed and of the target, every consumer of the
-- credential has a binding among those given, and each of these bindings has verified the target
-- with that report; then it writes the switch.
pub promote-outcome :
    (db db' : GenerationDb) (o c ti pi report : String) (ids : List String)
    (a : CredentialGeneration)
    → promote db o c ti pi report ids ≡ ok (a, db')
    → Repeated db db' o c ti
      ⊎ ((f : PromotedFrom db o c ti pi report ids) × (db'
            ≡ write_promotion db o c ti pi ids f.credential f.target f.predecessor f.verification
                f.consumers))
unfolding promote
promote-outcome db db' o c ti pi report ids a h =
    let (_, h0) = reject_if-eq-ok (is_empty ids) resource_conflict _ h in
    let (x, ex, h1) = >>=-eq-ok (found (db.credentials o c) resource_not_found) _ h0 in
    let (t, et, h2) = >>=-eq-ok (found (db.generations o ti) resource_not_found) _ h1 in
    let (p, ep, h3) = >>=-eq-ok (found (db.generations o pi) resource_not_found) _ h2 in
    let (r, er, h4) = >>=-eq-ok (found (db.reports o report) resource_not_found) _ h3 in
    let (bs, eb, h5) = >>=-eq-ok (load_bindings db.bindings o ids) _ h4 in
    elim (promote_loaded-cases db o c ti pi ids x t p r bs h5) [
      | inl (named, (active, same)) ↦ inl (record {
        credential = x;
        target = t;
        credential_stored = found-ok (db.credentials o c) resource_not_found ex;
        target_stored = found-ok (db.generations o ti) resource_not_found et;
        names_target = named;
        target_active = active;
        unchanged = same;
      })
      | inr (k, after) ↦ inr (
        record {
          credential = x;
          target = t;
          predecessor = p;
          verification = r;
          consumers = bs;
          credential_stored = found-ok (db.credentials o c) resource_not_found ex;
          target_stored = found-ok (db.generations o ti) resource_not_found et;
          predecessor_stored = found-ok (db.generations o pi) resource_not_found ep;
          report_stored = found-ok (db.reports o report) resource_not_found er;
          consumers_stored = eb;
          checked = k;
        },
        after,
      )
    ]

not_due_in_time :
    (x : ManagedCredential) (t : CredentialGeneration) (r : Report)
    → is_some x.rotation_due_at ≡ true
    → t.expires_at ≡ none
    → is_due_in_time (activated x t r) ≡ false
unfolding activated
not_due_in_time x t r due no_expiry = ground arith

-- A promotion that changes the database, of a target that has no expiry, for a credential that has
-- a rotation due time, stores a credential that its own validator refuses.
pub promoted_credential_invalid :
    (db db' : GenerationDb) (o c ti pi report : String) (ids : List String)
    (a t : CredentialGeneration) (x : ManagedCredential)
    → promote db o c ti pi report ids ≡ ok (a, db')
    → ¬ (db' ≡ db)
    → db.credentials o c ≡ some x
    → is_some x.rotation_due_at ≡ true
    → db.generations o ti ≡ some t
    → t.expires_at ≡ none
    → (x' : ManagedCredential) × ((db'.credentials o c ≡ some x') × (is_due_in_time x' ≡ false))
unfolding write_promotion
promoted_credential_invalid db db' o c ti pi report ids a t x h changed atx due att no_expiry =
    elim (promote-outcome db db' o c ti pi report ids a h) [
      | inl same ↦ absurd (changed same.unchanged)
      | inr (f, after) ↦
          let ex : x ≡ f.credential = some_same atx f.credential_stored in
          let et : t ≡ f.target = some_same att f.target_stored in
          let x' = activated f.credential f.target f.verification in
          (
            x',
            (
              subst (λ (d : GenerationDb). d.credentials o c ≡ some x') (sym after)
                  (get-put_self db.credentials o c x'),
              not_due_in_time f.credential f.target f.verification
                  (subst (λ (v : ManagedCredential). is_some v.rotation_due_at ≡ true) ex due)
                  (subst (λ (v : CredentialGeneration). v.expires_at ≡ none) et no_expiry),
            ),
          )
    ]

revoke_loaded-cases :
    (db : GenerationDb) (o i report : String) (g : CredentialGeneration) (r : Report) (now : ℕ)
    {a : CredentialGeneration} {db' : GenerationDb}
    → revoke_loaded db o i g r now ≡ ok (a, db')
    → db.reports o report ≡ some r
    → (g.state ≡ GenerationState.revoked) × (db' ≡ db)
      ⊎ ((g.state ≡ GenerationState.superseded)
          × ((r : Report) × ((db.reports o report ≡ some r)
                × ((r.passed ≡ true) × (r.generation_id ≡ g.id) × (r.organisation_id ≡ o)))))
unfolding revoke_loaded
revoke_loaded-cases db o i report g r now h at =
    elim (Bool-cases (same_state g.state GenerationState.revoked)) [
      | inl done ↦ inl (ground arith, ground arith)
      | inr not_yet ↦
          let h' = rw not_yet at h in
          let (was, h1) =
            require-eq-ok (same_state g.state GenerationState.superseded) resource_conflict _ h' in
          let (proved, h2) =
            require-eq-ok (r.passed && r.organisation_id == o && r.generation_id == g.id)
              resource_conflict _ h1 in
          inr (
            ground arith,
            (
              r,
              (
                at,
                (
                  ground arith,
                  ground (arith, eq_iff r.generation_id g.id),
                  ground (arith, eq_iff r.organisation_id o),
                ),
              ),
            ),
          )
    ]

-- A revocation that succeeds finds the generation revoked already, and changes nothing, or finds it
-- superseded, with a passed report of that generation and organisation.
revoke-outcome :
    (db db' : GenerationDb) (o i report : String) (now : ℕ) (a : CredentialGeneration)
    → revoke db o i report now ≡ ok (a, db')
    → (g : CredentialGeneration) × ((db.generations o i ≡ some g)
        × ((g.state ≡ GenerationState.revoked) × (db' ≡ db)
            ⊎ ((g.state ≡ GenerationState.superseded)
                × ((r : Report) × ((db.reports o report ≡ some r)
                      × ((r.passed ≡ true)
                          × (r.generation_id ≡ g.id)
                          × (r.organisation_id ≡ o)))))))
unfolding revoke
revoke-outcome db db' o i report now a h =
    let (g, e, h1) = >>=-eq-ok (found (db.generations o i) resource_not_found) _ h in
    let (r, e', h2) = >>=-eq-ok (found (db.reports o report) resource_not_found) _ h1 in
    (
      g,
      (
        found-ok (db.generations o i) resource_not_found e,
        revoke_loaded-cases db o i report g r now h2
            (found-ok (db.reports o report) resource_not_found e'),
      ),
    )
