-- ===== src/Generations/Promoted.antt =====
-- What a promotion of server/core/storage/generation.py finds, and what it leaves in each document.
use uumi.Generations.Switch.{put_elsewhere, some_same}
use uumi.Generations.Active.{both_values}
use uumi.Contracts.{GenerationState}
use uumi.Generations.Consumers.{
  loaded-each, loaded-service, write_bindings-listed, write_bindings-unlisted,
}
use uumi.Generations.Steps.{is_active}
use uumi.Generations.Expiry.{PromotedFrom, Repeated, promote-outcome}
use uumi.Generations.{
  ConsumerBinding, CredentialGeneration, GenerationDb, ManagedCredential, Report, activated,
  promote, promoted, rebound, superseded_by, verified_for, write_promotion,
}
use uumi.Prelude.{
  Bool, List, String, [], all, ap, arith, contains, eq_iff, inl, inr, map, nat_eq, none,
  option_beq_iff, option_eq, refl, some, string_eq, subst, sym, true, ◌+◌, ◌∙◌, ◌∷◌, ◌≡◌, ◌⊎◌,
}
use uumi.Errors.{ok}
use uumi.Store.{get-put_self, put}

-- The binding of a consumer has verified the target, and is the binding of the target afterwards.
pub record Rebound (db db' : GenerationDb) (o id : String) (x : ManagedCredential)
    (t p : CredentialGeneration) (r : Report) : Type 0 where
  pub before : ConsumerBinding
  pub after : ConsumerBinding
  pub stored_before : db.bindings o id ≡ some before
  pub stored_after : db'.bindings o id ≡ some after
  pub of_credential : before.credential_id ≡ x.id
  pub was_current : before.current_generation_id ≡ p.id
  pub had_target : before.target_generation_id ≡ some t.id
  pub had_verified : before.verification_report_id ≡ some r.id
  pub of_consumer : contains x.consumer_ids before.service_id ≡ true
  pub now_current : after.current_generation_id ≡ t.id
  pub no_target : after.target_generation_id ≡ none
  pub next_revision : after.revision ≡ before.revision + 1
  pub same_service : after.service_id ≡ before.service_id

-- The switch from the predecessor to the target.
pub record Switched (db db' : GenerationDb) (o c ti pi report : String) (ids : List String)
    : Type 0 where
  pub x : ManagedCredential
  pub x' : ManagedCredential
  pub t : CredentialGeneration
  pub t' : CredentialGeneration
  pub p : CredentialGeneration
  pub p' : CredentialGeneration
  pub r : Report
  pub credential_before : db.credentials o c ≡ some x
  pub target_before : db.generations o ti ≡ some t
  pub predecessor_before : db.generations o pi ≡ some p
  pub report_before : db.reports o report ≡ some r
  pub named_predecessor : x.active_generation_id ≡ some pi
  pub was_creating : t.state ≡ GenerationState.creating
  pub was_active : p.state ≡ GenerationState.active
  pub target_lineage : t.credential_id ≡ x.id
  pub predecessor_lineage : p.credential_id ≡ x.id
  pub report_of_target : r.generation_id ≡ t.id
  pub report_passed : r.passed ≡ true
  pub target_after : db'.generations o ti ≡ some t'
  pub target_active : t'.state ≡ GenerationState.active
  pub target_follows : t'.predecessor_id ≡ some p.id
  pub predecessor_after : db'.generations o pi ≡ some p'
  pub predecessor_superseded : p'.state ≡ GenerationState.superseded
  pub predecessor_followed : p'.successor_id ≡ some t.id
  pub credential_after : db'.credentials o c ≡ some x'
  pub names_target : x'.active_generation_id ≡ some t.id
  pub same_secret : x'.secret_reference ≡ t.secret_reference
  pub next_revision : x'.revision ≡ x.revision + 1
  pub consumers_rebound : (id : String) → contains ids id ≡ true → Rebound db db' o id x t p r
  pub consumers_covered :
      (service : String)
      → contains x.consumer_ids service ≡ true
      → (id : String) × (b : ConsumerBinding) × (contains ids id ≡ true)
        × (db.bindings o id ≡ some b)
        × (b.service_id ≡ service)
  pub other_generations :
      (o' i' : String)
      → ¬ ((o ≡ o') × (ti ≡ i'))
      → ¬ ((o ≡ o') × (pi ≡ i'))
      → db'.generations o' i' ≡ db.generations o' i'
  pub other_credentials :
      (o' i' : String) → ¬ ((o ≡ o') × (c ≡ i')) → db'.credentials o' i' ≡ db.credentials o' i'
  pub other_bindings :
      (o' id : String)
      → ¬ ((o ≡ o') × (contains ids id ≡ true))
      → db'.bindings o' id ≡ db.bindings o' id
  pub same_reports : db'.reports ≡ db.reports

all-map :
    (test : String → Bool) (bs : List ConsumerBinding)
    → all test (map (λ (b : ConsumerBinding). b.service_id) bs) ≡ true
    → all (λ (b : ConsumerBinding). test b.service_id) bs ≡ true
all-map test [] h = refl
all-map test (b ∷ bs) h = let rest = all-map test bs (ground (arith, h)) in ground (arith, h, rest)

verified_for-parts :
    (x : ManagedCredential) (t p : CredentialGeneration) (r : Report) (b : ConsumerBinding)
    → verified_for x t p r b ≡ true
    → (b.credential_id ≡ x.id)
      × (b.current_generation_id ≡ p.id)
      × (b.target_generation_id ≡ some t.id)
      × (b.verification_report_id ≡ some r.id)
verified_for-parts x t p r b h = (
  ground (arith, eq_iff b.credential_id x.id),
  ground (arith, eq_iff b.current_generation_id p.id),
  ground (arith, option_beq_iff b.target_generation_id (some t.id)),
  ground (arith, option_beq_iff b.verification_report_id (some r.id)),
)

same_state-active :
    (p : CredentialGeneration) → is_active p ≡ true → p.state ≡ GenerationState.active
same_state-active p h = ground arith

module _ {db db' : GenerationDb} {o c ti pi report : String} {ids : List String}
    (f : PromotedFrom db o c ti pi report ids)
    (after : db'
      ≡ write_promotion db o c ti pi ids f.credential f.target f.predecessor f.verification
          f.consumers) where
  consumer-Rebound :
      (id : String)
      → contains ids id ≡ true
      → Rebound db db' o id f.credential f.target f.predecessor f.verification
  unfolding write_promotion
  consumer-Rebound id m =
      let k = f.checked in
      let (b, at, each) = loaded-each db.bindings o ids f.consumers f.consumers_stored id m in
      let (of_x, of_p, of_t, of_r) =
        verified_for-parts f.credential f.target f.predecessor f.verification b
          (each (verified_for f.credential f.target f.predecessor f.verification) k.all_verified) in
      let served =
        each (λ (v : ConsumerBinding). contains f.credential.consumer_ids v.service_id)
          (all-map (contains f.credential.consumer_ids) f.consumers k.only_consumers) in
      let now =
        write_bindings-listed db.bindings db.bindings o ids f.consumers (rebound f.target)
          f.consumers_stored id b m at in
      record {
        before = b;
        after = rebound f.target b;
        stored_before = at;
        stored_after =
            subst (λ (d : GenerationDb). d.bindings o id ≡ some (rebound f.target b)) (sym after)
              now;
        of_credential = of_x;
        was_current = of_p;
        had_target = of_t;
        had_verified = of_r;
        of_consumer = served;
        now_current = refl;
        no_target = refl;
        next_revision = refl;
        same_service = refl;
      }

  apart : ¬ (pi ≡ ti)
  apart e =
      let k = f.checked in
      let there = subst (λ v. db.generations o v ≡ some f.predecessor) e f.predecessor_stored in
      let same : f.target ≡ f.predecessor = some_same f.target_stored there in
      both_values k.predecessor_active (sym (ap is_active same) ∙ k.target_fresh)

  promoted-Switched : Switched db db' o c ti pi report ids
  unfolding write_promotion
  promoted-Switched =
      let k = f.checked in
      let x = f.credential in
      let t = f.target in
      let p = f.predecessor in
      let at_target =
        put_elsewhere (put db.generations o ti (promoted t p)) (superseded_by p t)
          (λ e. apart e.1) in
      record {
        x = x;
        x' = activated x t f.verification;
        t = t;
        t' = promoted t p;
        p = p;
        p' = superseded_by p t;
        r = f.verification;
        credential_before = f.credential_stored;
        target_before = f.target_stored;
        predecessor_before = f.predecessor_stored;
        report_before = f.report_stored;
        named_predecessor = k.predecessor_named;
        was_creating = k.target_creating;
        was_active = same_state-active p k.predecessor_active;
        target_lineage = k.target_lineage;
        predecessor_lineage = k.predecessor_lineage;
        report_of_target = k.report_of_target;
        report_passed = k.report_passed;
        target_after =
            subst (λ (d : GenerationDb). d.generations o ti ≡ some (promoted t p)) (sym after)
              (at_target ∙ get-put_self db.generations o ti (promoted t p));
        target_active = unfold promoted in refl;
        target_follows = unfold promoted in refl;
        predecessor_after =
            subst (λ (d : GenerationDb). d.generations o pi ≡ some (superseded_by p t)) (sym after)
              (get-put_self (put db.generations o ti (promoted t p)) o pi (superseded_by p t));
        predecessor_superseded = unfold superseded_by in refl;
        predecessor_followed = unfold superseded_by in refl;
        credential_after =
            subst (λ (d : GenerationDb). d.credentials o c ≡ some (activated x t f.verification))
              (sym after) (get-put_self db.credentials o c (activated x t f.verification));
        names_target = unfold activated in refl;
        same_secret = unfold activated in refl;
        next_revision = unfold activated in refl;
        consumers_rebound = consumer-Rebound;
        consumers_covered = λ service m.
            loaded-service db.bindings o ids f.consumers f.consumers_stored service
              (k.all_consumers service m);
        other_generations = λ o' i' not_t not_p.
            subst (λ (d : GenerationDb). d.generations o' i' ≡ db.generations o' i') (sym after)
              (put_elsewhere (put db.generations o ti (promoted t p)) (superseded_by p t) not_p
                ∙ put_elsewhere db.generations (promoted t p) not_t);
        other_credentials = λ o' i' other.
            subst (λ (d : GenerationDb). d.credentials o' i' ≡ db.credentials o' i') (sym after)
              (put_elsewhere db.credentials (activated x t f.verification) other);
        other_bindings = λ o' id other.
            subst (λ (d : GenerationDb). d.bindings o' id ≡ db.bindings o' id) (sym after)
              (write_bindings-unlisted db.bindings o ids f.consumers (rebound t) o' id other);
        same_reports = ap (λ (d : GenerationDb). d.reports) after;
      }

-- A promotion that succeeds changes nothing and finds the target active and named by the credential
-- already, or it is a switch. Then the credential named the predecessor, which was active, the
-- target was being created, the report is passed and of the target, and the bindings given are of
-- the consumers of the credential, of all of them and of no other service, and each has verified
-- the target with that report. Afterwards the target is active and follows the predecessor, the
-- predecessor is superseded, the credential names the target and carries its secret reference, each
-- of these bindings is of the target and expects no other, and every other generation, credential
-- and binding is as it was, and so are the reports.
pub promote-Switched :
    (db db' : GenerationDb) (o c ti pi report : String) (ids : List String)
    (a : CredentialGeneration)
    → promote db o c ti pi report ids ≡ ok (a, db')
    → Repeated db db' o c ti ⊎ Switched db db' o c ti pi report ids
promote-Switched db db' o c ti pi report ids a h =
    elim (promote-outcome db db' o c ti pi report ids a h) [
      | inl same ↦ inl same
      | inr (f, after) ↦ inr (promoted-Switched f after)
    ]
