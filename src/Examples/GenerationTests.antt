-- ===== src/Examples/GenerationTests.antt =====
-- The theorems on server/core/storage/generation.py at a credential whose generation is replaced.
use uumi.Generations.Promoted.{Switched, promote-Switched}
use uumi.Generations.Expiry.{Repeated, promoted_credential_invalid}
use uumi.Generations.Single.{
  GenerationHistory, History-OneActive, no_operation, single_generation, then_operation,
}
use uumi.Generations.Switch.{some_same}
use uumi.Generations.Active.{ActiveFor, NamedBy, OneActive, both_values}
use uumi.Generations.Steps.{is_active, promote_generation, run_generation_op}
use uumi.Prelude.{
  String, [], absurd, ap, false, inl, inr, list_eq, nat_eq, none, option_eq, refl, some, string_eq,
  subst, subst₂, sym, true, ◌∙◌, ◌∷◌, ◌≡◌, ◌⊎◌,
}
use uumi.Generations.{
  ConsumerBinding, CredentialGeneration, GenerationDb, ManagedCredential, Report, activated,
  check_promotion, is_due_in_time, load_bindings, promote, promote_loaded, promoted, revoke,
  revoke_loaded, revoked_generation, superseded_by, write_bindings, write_promotion,
}
use uumi.Contracts.{GenerationState}
use uumi.Errors.{Result, err, ok}
use uumi.Store.{Table, found, get-put, put}

abbrev generation : String → GenerationState → CredentialGeneration
generation id state = record {
  id = id;
  organisation_id = "org_1";
  credential_id = "cred_1";
  provider_id = some "provider_1";
  provider_display_name = none;
  fingerprint = none;
  scopes = [];
  state = state;
  attempt_id = "attempt_1";
  secret_reference = some "projects/p/secrets/s/versions/2";
  predecessor_id = none;
  successor_id = none;
  expires_at = none;
  last_observed_at = none;
  metadata_digest = none;
  created_at = 1;
  revoked_at = none;
}

abbrev credential : ManagedCredential
credential = record {
  id = "cred_1";
  organisation_id = "org_1";
  provider_id = none;
  provider_display_name = none;
  secret_reference = some "projects/p/secrets/s/versions/1";
  scopes = [];
  consumer_ids = "service_1" ∷ [];
  active_generation_id = some "generation_1";
  expires_at = some 500;
  rotation_due_at = some 400;
  last_observed_at = none;
  metadata_digest = none;
  updated_at = 1;
  revision = 0;
}

abbrev consumer : ConsumerBinding
consumer = record {
  id = "binding_1";
  organisation_id = "org_1";
  credential_id = "cred_1";
  service_id = "service_1";
  secret_reference = "projects/p/secrets/s/versions/2";
  current_generation_id = "generation_1";
  target_generation_id = some "generation_2";
  verification_report_id = some "report_2";
  revision = 2;
}

abbrev report_of : String → String → Report
report_of id generation_id = record {
  id = id;
  organisation_id = "org_1";
  generation_id = generation_id;
  passed = true;
  completed_at = 9;
}

abbrev first_generation : Table CredentialGeneration
first_generation =
    put (λ o i. none) "org_1" "generation_1" (generation "generation_1" GenerationState.active)

abbrev before_switch : GenerationDb
before_switch = record {
  credentials = put (λ o i. none) "org_1" "cred_1" credential;
  generations =
      put first_generation "org_1" "generation_2"
        (generation "generation_2" GenerationState.creating);
  bindings = put (λ o i. none) "org_1" "binding_1" consumer;
  reports =
      put (put (λ o i. none) "org_1" "report_2" (report_of "report_2" "generation_2")) "org_1"
        "report_1" (report_of "report_1" "generation_1");
}

abbrev over : Result (CredentialGeneration × GenerationDb) → CredentialGeneration × GenerationDb
over (ok r) = r
over (err e) = (generation "" GenerationState.unknown, before_switch)

abbrev switch_done : CredentialGeneration × GenerationDb
switch_done = over (
    promote before_switch "org_1" "cred_1" "generation_2" "generation_1" "report_2"
      ("binding_1" ∷ []))

promotes :
    promote before_switch "org_1" "cred_1" "generation_2" "generation_1" "report_2"
      ("binding_1" ∷ [])
    ≡ ok switch_done
unfolding run_generation_op promote promote_loaded check_promotion load_bindings write_bindings
    write_promotion activated promoted superseded_by revoke revoke_loaded revoked_generation put
    found
promotes = refl

promotes_op :
    run_generation_op before_switch (
      promote_generation "org_1" "cred_1" "generation_2" "generation_1" "report_2"
        ("binding_1" ∷ []))
    ≡ ok switch_done.1
unfolding run_generation_op promote promote_loaded check_promotion load_bindings write_bindings
    write_promotion activated promoted superseded_by revoke revoke_loaded revoked_generation put
    found
promotes_op = refl

abbrev revocation_done : CredentialGeneration × GenerationDb
revocation_done = over (revoke switch_done.1 "org_1" "generation_1" "report_1" 20)

revokes : revoke switch_done.1 "org_1" "generation_1" "report_1" 20 ≡ ok revocation_done
unfolding run_generation_op promote promote_loaded check_promotion load_bindings write_bindings
    write_promotion activated promoted superseded_by revoke revoke_loaded revoked_generation put
    found
revokes = refl

-- Where the two stored generations are.
stored-cases :
    (o i : String) (g : CredentialGeneration)
    → before_switch.generations o i ≡ some g
    → ("org_1" ≡ o)
      × (("generation_2" ≡ i) × (g ≡ generation "generation_2" GenerationState.creating)
          ⊎ ("generation_1" ≡ i) × (g ≡ generation "generation_1" GenerationState.active))
stored-cases o i g h =
    elim (get-put first_generation "org_1" "generation_2"
      (generation "generation_2" GenerationState.creating) o i) [
        | inl (eo, ei, now) ↦ (eo, inl (ei, some_same h now))
        | inr (other, same) ↦
            elim (get-put (λ o i. none) "org_1" "generation_1"
              (generation "generation_1" GenerationState.active) o i) [
                | inl (eo, ei, now) ↦ (eo, inr (ei, some_same (sym same ∙ h) now))
                | inr (other', nowhere) ↦ let bad = sym nowhere ∙ sym same ∙ h in cc
              ]
      ]

credential-case :
    (o c : String) (x : ManagedCredential)
    → before_switch.credentials o c ≡ some x
    → ("org_1" ≡ o) × ("cred_1" ≡ c) × (x ≡ credential)
credential-case o c x h = elim (get-put (λ o i. none) "org_1" "cred_1" credential o c) [
  | inl (eo, ec, now) ↦ (eo, ec, some_same h now)
  | inr (other, nowhere) ↦ let bad = sym nowhere ∙ h in cc
]

credential_stored_now : before_switch.credentials "org_1" "cred_1" ≡ some credential
unfolding run_generation_op promote promote_loaded check_promotion load_bindings write_bindings
    write_promotion activated promoted superseded_by revoke revoke_loaded revoked_generation put
    found
credential_stored_now = refl

named_now :
    NamedBy before_switch "org_1" "generation_1" (generation "generation_1" GenerationState.active)
named_now = record { credential = credential; stored = credential_stored_now; names = refl }

served_now : ActiveFor before_switch "org_1" "cred_1" "generation_1"
unfolding run_generation_op promote promote_loaded check_promotion load_bindings write_bindings
    write_promotion activated promoted superseded_by revoke revoke_loaded revoked_generation put
    found
served_now = record {
  generation = generation "generation_1" GenerationState.active;
  stored = refl;
  active_state = refl;
  lineage = refl;
}

in_place_now :
    (o i : String) (g : CredentialGeneration) → before_switch.generations o i ≡ some g → g.id ≡ i
in_place_now o i g at =
    let (eo, place) = stored-cases o i g at in
    elim place [
      | inl (ei, e) ↦ ap (λ (v : CredentialGeneration). v.id) e ∙ ei
      | inr (ei, e) ↦ ap (λ (v : CredentialGeneration). v.id) e ∙ ei
    ]

named-cases :
    (o i : String) (g : CredentialGeneration)
    → before_switch.generations o i ≡ some g
    → is_active g ≡ true
    → NamedBy before_switch o i g
named-cases o i g at busy =
    let (eo, place) = stored-cases o i g at in
    elim place [
      | inl (ei, e) ↦ absurd (both_values busy (ap is_active e))
      | inr (ei, e) ↦ subst (NamedBy before_switch o i) (sym e) (
          subst₂
            (λ a b. NamedBy before_switch a b (generation "generation_1" GenerationState.active)) eo
            ei named_now)
    ]

served-cases :
    (o c i : String) (x : ManagedCredential)
    → before_switch.credentials o c ≡ some x
    → x.active_generation_id ≡ some i
    → ActiveFor before_switch o c i
served-cases o c i x at names =
    let (eo, ec, e) = credential-case o c x at in
    let active_id : some "generation_1" ≡ some i =
      sym (ap (λ (v : ManagedCredential). v.active_generation_id) e) ∙ names in
    let which : "generation_1" ≡ i = some_same refl active_id in
    subst (ActiveFor before_switch o c) which
      (subst₂ (λ a b. ActiveFor before_switch a b "generation_1") eo ec served_now)

before-OneActive : OneActive before_switch
before-OneActive = record {
  in_place = in_place_now;
  called = λ o c x at.
      let (eo, ec, e) = credential-case o c x at in ap (λ (v : ManagedCredential). v.id) e ∙ ec;
  named = named-cases;
  served = served-cases;
}

switch_history : GenerationHistory before_switch switch_done.1
switch_history =
    then_operation
      (promote_generation "org_1" "cred_1" "generation_2" "generation_1" "report_2"
        ("binding_1" ∷ []))
      no_operation promotes_op

new_stored : switch_done.1.generations "org_1" "generation_2" ≡ some switch_done.0
unfolding run_generation_op promote promote_loaded check_promotion load_bindings write_bindings
    write_promotion activated promoted superseded_by revoke revoke_loaded revoked_generation put
    found
new_stored = refl

new_active : is_active switch_done.0 ≡ true
unfolding run_generation_op promote promote_loaded check_promotion load_bindings write_bindings
    write_promotion activated promoted superseded_by revoke revoke_loaded revoked_generation put
    found
new_active = refl

single_generation_example : ◌≡◌ {A = String} "generation_2" "generation_2"
single_generation_example =
    single_generation switch_history before-OneActive "org_1" "generation_2" "generation_2"
      switch_done.0 switch_done.0 new_stored new_stored new_active new_active refl

History-OneActive_example : OneActive switch_done.1
History-OneActive_example = History-OneActive switch_history before-OneActive

promote-Switched_example :
    Repeated before_switch switch_done.1 "org_1" "cred_1" "generation_2"
    ⊎ Switched before_switch switch_done.1 "org_1" "cred_1" "generation_2" "generation_1" "report_2"
        ("binding_1" ∷ [])
promote-Switched_example =
    promote-Switched before_switch switch_done.1 "org_1" "cred_1" "generation_2" "generation_1"
      "report_2" ("binding_1" ∷ []) switch_done.0 promotes

old_generation_active :
    before_switch.generations "org_1" "generation_1"
    ≡ some (generation "generation_1" GenerationState.active)
unfolding run_generation_op promote promote_loaded check_promotion load_bindings write_bindings
    write_promotion activated promoted superseded_by revoke revoke_loaded revoked_generation put
    found
old_generation_active = refl

target_stored_now :
    before_switch.generations "org_1" "generation_2"
    ≡ some (generation "generation_2" GenerationState.creating)
unfolding run_generation_op promote promote_loaded check_promotion load_bindings write_bindings
    write_promotion activated promoted superseded_by revoke revoke_loaded revoked_generation put
    found
target_stored_now = refl

switch_changes : ¬ (switch_done.1 ≡ before_switch)
switch_changes same =
    let there =
      subst (λ (d : GenerationDb). d.generations "org_1" "generation_2" ≡ some switch_done.0) same
        new_stored in
    let e = some_same there target_stored_now in both_values new_active (ap is_active e)

promoted_credential_invalid_example :
    (x : ManagedCredential) × ((switch_done.1.credentials "org_1" "cred_1" ≡ some x)
      × (is_due_in_time x ≡ false))
promoted_credential_invalid_example =
    promoted_credential_invalid before_switch switch_done.1 "org_1" "cred_1" "generation_2"
      "generation_1" "report_2" ("binding_1" ∷ []) switch_done.0
      (generation "generation_2" GenerationState.creating) credential promotes switch_changes
      credential_stored_now refl target_stored_now refl
