-- ===== src/Generations/Steps.antt =====
-- What a transaction of server/core/storage/generation.py does to the generations and credentials.
use uumi.Prelude.{
  Bool, Bool-cases, List, Option, String, [], all, ap, arith, contains, eq_iff, false, inl, inr,
  is_empty, list_eq, map, nat_eq, none, option_beq_iff, option_eq, refl, some, string_eq, subst,
  sym, true, ℕ, ◌&&◌, ◌==◌, ◌||◌, ◌∷◌, ◌≡◌, ◌⊎◌,
}
use uumi.Errors.{
  >>-eq-ok, >>=-eq-ok, Result, err, map_ok, ok, reject_if-eq-ok, require-eq-ok, resource_conflict,
  resource_not_found,
}
use uumi.Store.{Table, found, found-ok, put}
use uumi.Generations.{
  ConsumerBinding, CredentialGeneration, GenerationDb, ManagedCredential, Report, activated,
  check_promotion, create_at, create_generation, load_bindings, orphan, promote, promote_loaded,
  promoted, revoke, revoke_loaded, revoked_generation, same_state, stage_bindings, subset,
  superseded_by, verified_for, verify_bindings, write_promotion,
}
use uumi.Contracts.{GenerationState}

-- A call of one of the six operations.
pub data GenerationOp : Type 0 where
  new_generation : CredentialGeneration → GenerationOp
  promote_generation : String → String → String → String → String → List String → GenerationOp
  revoke_generation : String → String → String → ℕ → GenerationOp
  orphan_generation : String → String → GenerationOp
  stage_consumers : String → String → String → String → List String → GenerationOp
  verify_consumers : String → String → String → List String → GenerationOp

unfoldable pub run_generation_op : GenerationDb → GenerationOp → Result GenerationDb
run_generation_op db (new_generation g) = map_ok (λ p. p.1) (create_generation db g)
run_generation_op db (promote_generation o c target predecessor report ids) =
    map_ok (λ p. p.1) (promote db o c target predecessor report ids)
run_generation_op db (revoke_generation o i report now) =
    map_ok (λ p. p.1) (revoke db o i report now)
run_generation_op db (orphan_generation o i) = map_ok (λ p. p.1) (orphan db o i)
run_generation_op db (stage_consumers o c target reference ids) =
    stage_bindings db o c target reference ids
run_generation_op db (verify_consumers o target report ids) = verify_bindings db o target report ids

abbrev pub is_active : CredentialGeneration → Bool
is_active g = same_state g.state GenerationState.active

pub data GenerationStep (db db' : GenerationDb) : Type 0 where
  unmoved :
      db'.generations ≡ db.generations → db'.credentials ≡ db.credentials → GenerationStep db db'
  entered :
      (o : String) (g : CredentialGeneration)
      → db.generations o g.id ≡ none
      → is_active g ≡ false
      → db'.generations ≡ put db.generations o g.id g
      → db'.credentials ≡ db.credentials
      → GenerationStep db db'
  retired :
      (o i : String) (g g' : CredentialGeneration)
      → db.generations o i ≡ some g
      → is_active g ≡ false
      → is_active g' ≡ false
      → g'.id ≡ g.id
      → db'.generations ≡ put db.generations o i g'
      → db'.credentials ≡ db.credentials
      → GenerationStep db db'
  switched :
      (o c ti pi : String) (x : ManagedCredential) (t p : CredentialGeneration) (r : Report)
      → db.credentials o c ≡ some x
      → db.generations o ti ≡ some t
      → db.generations o pi ≡ some p
      → x.active_generation_id ≡ some pi
      → t.credential_id ≡ x.id
      → p.credential_id ≡ x.id
      → is_active t ≡ false
      → is_active p ≡ true
      → db'.generations ≡ put (put db.generations o ti (promoted t p)) o pi (superseded_by p t)
      → db'.credentials ≡ put db.credentials o c (activated x t r)
      → GenerationStep db db'

map-ok :
    (r : Result (CredentialGeneration × GenerationDb)) {s : GenerationDb}
    → map_ok (λ p. p.1) r ≡ ok s
    → (g : CredentialGeneration) × (r ≡ ok (g, s))
map-ok (ok p) h = (p.0, ground arith)
map-ok (err e) h = cc

create-entered :
    (db : GenerationDb) (g : CredentialGeneration) (d : Option CredentialGeneration)
    {a : CredentialGeneration} {db' : GenerationDb}
    → db.generations g.organisation_id g.id ≡ d
    → same_state g.state GenerationState.creating ≡ true
    → create_at db g d ≡ ok (a, db')
    → GenerationStep db db'
unfolding create_at
create-entered db g none {db' = db'} at fresh h =
    let after : db' ≡ record db { generations = put db.generations g.organisation_id g.id g } =
      ground arith in
    entered g.organisation_id g at (ground arith) (ap (λ (x : GenerationDb). x.generations) after)
      (ap (λ (x : GenerationDb). x.credentials) after)
create-entered db g (some x) {db' = db'} at fresh h =
    let after : db' ≡ db = ground arith in
    unmoved (ap (λ (x : GenerationDb). x.generations) after)
      (ap (λ (x : GenerationDb). x.credentials) after)

create-step :
    (db : GenerationDb) (g : CredentialGeneration) {a : CredentialGeneration} {db' : GenerationDb}
    → create_generation db g ≡ ok (a, db')
    → GenerationStep db db'
unfolding create_generation
create-step db g h =
    let (fresh, h1) = require-eq-ok _ resource_conflict _ h in
    let (_, h2) = require-eq-ok _ resource_conflict _ h1 in
    create-entered db g (db.generations g.organisation_id g.id) refl fresh h2

revoke-retired :
    (db : GenerationDb) (o i : String) (g : CredentialGeneration) (r : Report) (now : ℕ)
    {a : CredentialGeneration} {db' : GenerationDb}
    → db.generations o i ≡ some g
    → revoke_loaded db o i g r now ≡ ok (a, db')
    → GenerationStep db db'
unfolding revoke_loaded revoked_generation
revoke-retired db o i g r now {db' = db'} at h =
    elim (Bool-cases (same_state g.state GenerationState.revoked)) [
      | inl done ↦
          let after : db' ≡ db = ground arith in
          unmoved (ap (λ (x : GenerationDb). x.generations) after)
            (ap (λ (x : GenerationDb). x.credentials) after)
      | inr not_yet ↦
          let after : db'
              ≡ record db { generations = put db.generations o i (revoked_generation g now) } =
            ground arith in
          retired o i g (revoked_generation g now) at (ground arith) refl refl
            (ap (λ (x : GenerationDb). x.generations) after)
            (ap (λ (x : GenerationDb). x.credentials) after)
    ]

revoke-step :
    (db : GenerationDb) (o i report : String) (now : ℕ) {a : CredentialGeneration}
    {db' : GenerationDb}
    → revoke db o i report now ≡ ok (a, db')
    → GenerationStep db db'
unfolding revoke
revoke-step db o i report now h =
    let (g, e, h1) = >>=-eq-ok (found (db.generations o i) resource_not_found) _ h in
    let (r, e', h2) = >>=-eq-ok (found (db.reports o report) resource_not_found) _ h1 in
    revoke-retired db o i g r now (found-ok (db.generations o i) resource_not_found e) h2

orphan-step :
    (db : GenerationDb) (o i : String) {a : CredentialGeneration} {db' : GenerationDb}
    → orphan db o i ≡ ok (a, db')
    → GenerationStep db db'
unfolding orphan
orphan-step db o i {db' = db'} h =
    let (g, e, h1) = >>=-eq-ok (found (db.generations o i) resource_not_found) _ h in
    let (early, h2) =
      require-eq-ok
        (same_state g.state GenerationState.creating || same_state g.state GenerationState.unknown)
        resource_conflict _ h1 in
    let g' : CredentialGeneration = record g { state = GenerationState.orphaned } in
    let after : db' ≡ record db { generations = put db.generations o i g' } = ground arith in
    retired o i g g' (found-ok (db.generations o i) resource_not_found e) (ground arith) refl refl
      (ap (λ (x : GenerationDb). x.generations) after)
      (ap (λ (x : GenerationDb). x.credentials) after)

same_tables :
    {db db' : GenerationDb} {t : Table ConsumerBinding}
    → ok (record db { bindings = t }) ≡ ok db'
    → GenerationStep db db'
same_tables {db} {db'} {t} h =
    let after : db' ≡ record db { bindings = t } = ground arith in
    unmoved (ap (λ (x : GenerationDb). x.generations) after)
      (ap (λ (x : GenerationDb). x.credentials) after)

stage-step :
    (db : GenerationDb) (o c target reference : String) (ids : List String) {db' : GenerationDb}
    → stage_bindings db o c target reference ids ≡ ok db'
    → GenerationStep db db'
unfolding stage_bindings
stage-step db o c target reference ids h =
    let (_, h1) = reject_if-eq-ok (is_empty ids) resource_conflict _ h in
    let (bs, _, h2) = >>=-eq-ok (load_bindings db.bindings o ids) _ h1 in
    let (_, h3) = require-eq-ok _ resource_conflict _ h2 in
    let (_, h4) = require-eq-ok _ resource_conflict _ h3 in same_tables h4

verify-step :
    (db : GenerationDb) (o target report : String) (ids : List String) {db' : GenerationDb}
    → verify_bindings db o target report ids ≡ ok db'
    → GenerationStep db db'
unfolding verify_bindings
verify-step db o target report ids h =
    let (_, h1) = reject_if-eq-ok (is_empty ids) resource_conflict _ h in
    let (r, _, h2) = >>=-eq-ok (found (db.reports o report) resource_not_found) _ h1 in
    let (bs, _, h3) = >>=-eq-ok (load_bindings db.bindings o ids) _ h2 in
    let (_, h4) = require-eq-ok _ resource_conflict _ h3 in
    let (_, h5) = require-eq-ok _ resource_conflict _ h4 in same_tables h5

-- What the checks of a promotion establish.
pub record Promotable (x : ManagedCredential) (t p : CredentialGeneration) (r : Report)
    (bs : List ConsumerBinding) (pi : String) : Type 0 where
  pub predecessor_named : x.active_generation_id ≡ some pi
  pub target_creating : t.state ≡ GenerationState.creating
  pub target_fresh : is_active t ≡ false
  pub predecessor_active : is_active p ≡ true
  pub target_lineage : t.credential_id ≡ x.id
  pub predecessor_lineage : p.credential_id ≡ x.id
  pub report_of_target : r.generation_id ≡ t.id
  pub report_passed : r.passed ≡ true
  pub all_consumers :
      (c : String)
      → contains x.consumer_ids c ≡ true
      → contains (map (λ (b : ConsumerBinding). b.service_id) bs) c ≡ true
  pub only_consumers : subset (map (λ (b : ConsumerBinding). b.service_id) bs) x.consumer_ids ≡ true
  pub all_verified : all (verified_for x t p r) bs ≡ true

option_beq_to : (a b : Option String) → a == b ≡ true → a ≡ b
option_beq_to a b h = ground (arith, option_beq_iff a b)

lineage_parts :
    (x : ManagedCredential) (t p : CredentialGeneration) (r : Report)
    → (t.credential_id == x.id && p.credential_id == x.id && r.generation_id == t.id && r.passed)
      ≡ true
    → (t.credential_id ≡ x.id)
      × (p.credential_id ≡ x.id)
      × (r.generation_id ≡ t.id)
      × (r.passed ≡ true)
lineage_parts x t p r h = (
  ground (arith, eq_iff t.credential_id x.id),
  ground (arith, eq_iff p.credential_id x.id),
  ground (arith, eq_iff r.generation_id t.id),
  ground arith,
)

and_parts : (a b : Bool) → (a && b) ≡ true → (a ≡ true) × (b ≡ true)
and_parts a b h = (ground arith, ground arith)

subset-contains :
    (xs ys : List String) (c : String)
    → subset xs ys ≡ true
    → contains xs c ≡ true
    → contains ys c ≡ true
subset-contains [] ys c h m = cc
subset-contains (x ∷ xs) ys c h m =
    let (first, rest) = and_parts (contains ys x) (subset xs ys) h in
    elim (Bool-cases (c == x)) [
      | inl same ↦
          let e : c ≡ x = ground (arith, eq_iff c x) in
          subst (λ v. contains ys v ≡ true) (sym e) first
      | inr other ↦ subset-contains xs ys c rest (ground arith)
    ]

check_promotion-Promotable :
    (x : ManagedCredential) (t p : CredentialGeneration) (r : Report) (bs : List ConsumerBinding)
    (pi : String)
    → check_promotion x t p r bs pi ≡ ok tt
    → Promotable x t p r bs pi
unfolding check_promotion
check_promotion-Promotable x t p r bs pi h =
    let services = map (λ (b : ConsumerBinding). b.service_id) bs in
    let (named, h1) = require-eq-ok (x.active_generation_id == some pi) resource_conflict _ h in
    let (fresh, h2) =
      require-eq-ok (same_state t.state GenerationState.creating) resource_conflict _ h1 in
    let (was_active, h3) = require-eq-ok (is_active p) resource_conflict _ h2 in
    let (lineage, h4) = require-eq-ok _ resource_conflict _ h3 in
    let (services_match, h5) =
      require-eq-ok (subset services x.consumer_ids && subset x.consumer_ids services)
        resource_conflict _ h4 in
    let (lt, lp, rt, rp) = lineage_parts x t p r lineage in
    record {
      predecessor_named = option_beq_to x.active_generation_id (some pi) named;
      target_creating = ground arith;
      target_fresh = ground arith;
      predecessor_active = was_active;
      target_lineage = lt;
      predecessor_lineage = lp;
      report_of_target = rt;
      report_passed = rp;
      all_consumers = λ c m. subset-contains x.consumer_ids services c (ground arith) m;
      only_consumers = ground arith;
      all_verified = ground arith;
    }

-- A promotion that succeeds found its target active already, or passed the checks and wrote.
pub promote_loaded-cases :
    (db : GenerationDb) (o c ti pi : String) (ids : List String) (x : ManagedCredential)
    (t p : CredentialGeneration) (r : Report) (bs : List ConsumerBinding) {a : CredentialGeneration}
    {db' : GenerationDb}
    → promote_loaded db o c ti pi ids x t p r bs ≡ ok (a, db')
    → ((x.active_generation_id ≡ some ti) × ((t.state ≡ GenerationState.active) × (db' ≡ db)))
      ⊎ (Promotable x t p r bs pi × (db' ≡ write_promotion db o c ti pi ids x t p r bs))
unfolding promote_loaded
promote_loaded-cases db o c ti pi ids x t p r bs {db' = db'} h =
    elim (Bool-cases
      (x.active_generation_id == some ti && same_state t.state GenerationState.active)) [
        | inl done ↦ inl (
          ground (arith, option_beq_iff x.active_generation_id (some ti)),
          (ground arith, ground arith),
        )
        | inr not_yet ↦
            let h' = rw not_yet at h in
            let (checked, e) = >>-eq-ok (check_promotion x t p r bs pi) _ h' in
            inr (check_promotion-Promotable x t p r bs pi checked, ground arith)
      ]

promote-switched :
    (db : GenerationDb) (o c ti pi : String) (ids : List String) (x : ManagedCredential)
    (t p : CredentialGeneration) (r : Report) (bs : List ConsumerBinding) {a : CredentialGeneration}
    {db' : GenerationDb}
    → db.credentials o c ≡ some x
    → db.generations o ti ≡ some t
    → db.generations o pi ≡ some p
    → promote_loaded db o c ti pi ids x t p r bs ≡ ok (a, db')
    → GenerationStep db db'
unfolding write_promotion
promote-switched db o c ti pi ids x t p r bs atx att atp h =
    elim (promote_loaded-cases db o c ti pi ids x t p r bs h) [
      | inl (_, (_, after)) ↦
          unmoved (ap (λ (x : GenerationDb). x.generations) after)
            (ap (λ (x : GenerationDb). x.credentials) after)
      | inr (k, after) ↦
          switched o c ti pi x t p r atx att atp k.predecessor_named k.target_lineage
            k.predecessor_lineage k.target_fresh k.predecessor_active
            (ap (λ (x : GenerationDb). x.generations) after)
            (ap (λ (x : GenerationDb). x.credentials) after)
    ]

promote-step :
    (db : GenerationDb) (o c ti pi report : String) (ids : List String) {a : CredentialGeneration}
    {db' : GenerationDb}
    → promote db o c ti pi report ids ≡ ok (a, db')
    → GenerationStep db db'
unfolding promote
promote-step db o c ti pi report ids h =
    let (_, h0) = reject_if-eq-ok (is_empty ids) resource_conflict _ h in
    let (x, ex, h1) = >>=-eq-ok (found (db.credentials o c) resource_not_found) _ h0 in
    let (t, et, h2) = >>=-eq-ok (found (db.generations o ti) resource_not_found) _ h1 in
    let (p, ep, h3) = >>=-eq-ok (found (db.generations o pi) resource_not_found) _ h2 in
    let (r, er, h4) = >>=-eq-ok (found (db.reports o report) resource_not_found) _ h3 in
    let (bs, eb, h5) = >>=-eq-ok (load_bindings db.bindings o ids) _ h4 in
    promote-switched db o c ti pi ids x t p r bs
      (found-ok (db.credentials o c) resource_not_found ex)
      (found-ok (db.generations o ti) resource_not_found et)
      (found-ok (db.generations o pi) resource_not_found ep) h5

-- Every operation that succeeds is one of the four steps.
pub generation-step :
    (db db' : GenerationDb) (op : GenerationOp)
    → run_generation_op db op ≡ ok db'
    → GenerationStep db db'
unfolding run_generation_op
generation-step db db' (new_generation g) h = let (a, e) = map-ok _ h in create-step db g e
generation-step db db' (promote_generation o c t p r ids) h =
    let (a, e) = map-ok _ h in promote-step db o c t p r ids e
generation-step db db' (revoke_generation o i r now) h =
    let (a, e) = map-ok _ h in revoke-step db o i r now e
generation-step db db' (orphan_generation o i) h = let (a, e) = map-ok _ h in orphan-step db o i e
generation-step db db' (stage_consumers o c t ref ids) h = stage-step db o c t ref ids h
generation-step db db' (verify_consumers o t r ids) h = verify-step db o t r ids h
