-- ===== src/Generations/Single.antt =====
-- No sequence of the operations of server/core/storage/generation.py leaves a credential with two
-- active generations.
use uumi.Prelude.{
  String, ap, false, list_eq, nat_eq, option_eq, refl, some, string_eq, subst, sym, true, ◌∙◌, ◌≡◌,
}
use uumi.Generations.Steps.{
  GenerationOp, GenerationStep, entered, generation-step, is_active, retired, run_generation_op,
  switched, unmoved,
}
use uumi.Generations.Active.{OneActive, idle-OneActive}
use uumi.Generations.Switch.{some_same, switch-OneActive}
use uumi.Errors.{Error, err, ok}
use uumi.Generations.{CredentialGeneration, GenerationDb, ManagedCredential}

-- A sequence of operations, those that fail included.
pub data GenerationHistory (db : GenerationDb) : GenerationDb → Type 0 where
  no_operation : GenerationHistory db db
  then_operation :
      {db' db'' : GenerationDb} (op : GenerationOp)
      → GenerationHistory db db'
      → run_generation_op db' op ≡ ok db''
      → GenerationHistory db db''
  then_failure :
      {db' : GenerationDb} (op : GenerationOp) (e : Error)
      → GenerationHistory db db'
      → run_generation_op db' op ≡ err e
      → GenerationHistory db db'

same_rows :
    {db db' : GenerationDb}
    → db'.generations ≡ db.generations
    → db'.credentials ≡ db.credentials
    → OneActive db
    → OneActive db'
same_rows {db} {db'} g c before = record {
  in_place = λ o i x at. before.in_place o i x (subst (λ t. t o i ≡ some x) g at);
  called = λ o i x at. before.called o i x (subst (λ t. t o i ≡ some x) c at);
  named = λ o i x at busy.
      let n = before.named o i x (subst (λ t. t o i ≡ some x) g at) busy in
      record {
        credential = n.credential;
        stored = subst (λ t. t o x.credential_id ≡ some n.credential) (sym c) n.stored;
        names = n.names;
      };
  served = λ o k i x at names.
      let a = before.served o k i x (subst (λ t. t o k ≡ some x) c at) names in
      record {
        generation = a.generation;
        stored = subst (λ t. t o i ≡ some a.generation) (sym g) a.stored;
        active_state = a.active_state;
        lineage = a.lineage;
      };
}

step-OneActive : {db db' : GenerationDb} → GenerationStep db db' → OneActive db → OneActive db'
step-OneActive (unmoved g c) before = same_rows g c before
step-OneActive {db} {db'} (entered o g free idle gs cs) before =
    idle-OneActive db db' o g.id g before refl idle (λ x at. let e = sym free ∙ at in cc) gs cs
step-OneActive {db} {db'} (retired o i g g' at idle idle' same gs cs) before =
    idle-OneActive db db' o i g' before (same ∙ before.in_place o i g at) idle'
      (λ x atx. subst (λ v. is_active v ≡ false) (some_same at atx) idle) gs cs
step-OneActive {db} {db'} (switched o c ti pi x t p r atx att atp names tl pl idle busy gs cs)
      before =
    switch-OneActive db db' o c ti pi x t p r before atx att atp names tl pl idle busy gs cs

-- After any sequence of operations, those that fail included, that starts where documents stand under
-- their identifiers, an active generation is the one its credential names, and the generation that a
-- credential names is stored and active, all of this holds again.
pub History-OneActive :
    {db db' : GenerationDb} → GenerationHistory db db' → OneActive db → OneActive db'
History-OneActive no_operation before = before
History-OneActive (then_operation {db'} {db''} op rest h) before =
    step-OneActive (generation-step db' db'' op h) (History-OneActive rest before)
History-OneActive (then_failure op e rest h) before = History-OneActive rest before

-- After any sequence of operations, those that fail included, that starts where documents stand under
-- their identifiers, an active generation is the one its credential names, the generation that a
-- credential names is stored and active, and two active generations of one credential are one
-- document.
pub single_generation :
    {db db' : GenerationDb}
    → GenerationHistory db db'
    → OneActive db
    → (o i j : String) (g d : CredentialGeneration) → db'.generations o i ≡ some g
    → db'.generations o j ≡ some d
    → is_active g ≡ true
    → is_active d ≡ true
    → g.credential_id ≡ d.credential_id
    → i ≡ j
single_generation {db' = db'} steps before o i j g d atg atd busy_g busy_d same =
    let now = History-OneActive steps before in
    let n = now.named o i g atg busy_g in
    let m = now.named o j d atd busy_d in
    let there = subst (λ c. db'.credentials o c ≡ some n.credential) same n.stored in
    let credential : n.credential ≡ m.credential = some_same there m.stored in
    some_same n.names (ap (λ (x : ManagedCredential). x.active_generation_id) credential ∙ m.names)
