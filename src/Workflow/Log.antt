-- ===== src/Workflow/Log.antt =====
-- The event log of a run: server/core/storage/firestore.py writes one outbox event for each
-- revision of a run, with no gap.
use uumi.Prelude.{
  Bool-cases, Option-cases, String, absurd, ap, arith, eqb, eqb_iff, inl, inr, none, some,
  string_eq, subst, subst₂, sym, ℕ, ◌+◌, ◌∙◌, ◌≡◌, ◌≤◌,
}
use uumi.Contracts.{OutboxEvent, RotationRun}
use uumi.Store.{get-put, get-put_self, put}
use uumi.Runs.{Db}

-- What holds of the stored runs and events between two transactions.
pub record Logged (db : Db) : Type 0 where
  pub no_gap :
      (o i : String) (r : RotationRun) (n : ℕ)
      → db.runs o i ≡ some r
      → n ≤ r.revision
      → (id : String) × (e : OutboxEvent) × (db.outbox o id ≡ some e)
        × (e.event.run_id ≡ i)
        × (e.event.revision ≡ n)
  pub no_future :
      (o id : String) (e : OutboxEvent)
      → db.outbox o id ≡ some e
      → (r : RotationRun) × (db.runs o e.event.run_id ≡ some r) × (e.event.revision ≤ r.revision)
  pub one_event :
      (o id id' : String) (e e' : OutboxEvent)
      → db.outbox o id ≡ some e
      → db.outbox o id' ≡ some e'
      → e.event.run_id ≡ e'.event.run_id
      → e.event.revision ≡ e'.event.revision
      → id ≡ id'

-- An event is added for a run that is new, or that takes its next revision.
module _ (db db' : Db) (o i id : String) (run : RotationRun) (event : OutboxEvent)
    (before : Logged db) (no_event : db.outbox o id ≡ none)
    (runs_after : db'.runs ≡ put db.runs o i run)
    (outbox_after : db'.outbox ≡ put db.outbox o id event) (event_run : event.event.run_id ≡ i)
    (event_revision : event.event.revision ≡ run.revision)
    (next_revision : (r : RotationRun) → db.runs o i ≡ some r → run.revision ≡ r.revision + 1)
    (first_revision : db.runs o i ≡ none → run.revision ≡ 0) where
  event_kept :
      {o' id' : String} (e : OutboxEvent) → db.outbox o' id' ≡ some e → db'.outbox o' id' ≡ some e
  event_kept {o'} {id'} e at = elim (get-put db.outbox o id event o' id') [
    | inl (eo, ei, now) ↦ let gone = subst₂ (λ x y. db.outbox x y ≡ none) eo ei no_event in cc
    | inr (other, same) ↦ subst (λ t. t o' id' ≡ some e) (sym outbox_after) (same ∙ at)
  ]

  new_event : db'.outbox o id ≡ some event
  new_event =
      subst (λ t. t o id ≡ some event) (sym outbox_after) (get-put_self db.outbox o id event)

  own_events :
      (n : ℕ)
      → n ≤ run.revision
      → (id' : String) × (e : OutboxEvent) × (db'.outbox o id' ≡ some e)
        × (e.event.run_id ≡ i)
        × (e.event.revision ≡ n)
  own_events n le = elim (Bool-cases (eqb n run.revision)) [
    | inl same ↦ (id, event, new_event, event_run, event_revision ∙ sym ((eqb_iff _ _).0 same))
    | inr earlier ↦ elim (Option-cases (db.runs o i)) [
      | inl none_there ↦ absurd (ground (arith, first_revision none_there))
      | inr (old, there) ↦
          let below : n ≤ old.revision = ground (arith, next_revision old there) in
          let (id', e, at, er, en) = before.no_gap o i old n there below in
          (id', e, event_kept e at, er, en)
    ]
  ]

  logged-no_gap :
      (o' i' : String) (r : RotationRun) (n : ℕ)
      → db'.runs o' i' ≡ some r
      → n ≤ r.revision
      → (id' : String) × (e : OutboxEvent) × (db'.outbox o' id' ≡ some e)
        × (e.event.run_id ≡ i')
        × (e.event.revision ≡ n)
  logged-no_gap o' i' r n h le =
      let h' = subst (λ t. t o' i' ≡ some r) runs_after h in
      elim (get-put db.runs o i run o' i') [
        | inl (eo, ei, now) ↦
            let e : run ≡ r = ground arith in
            let (id', ev, at, er, en) = own_events n (subst (λ x. n ≤ x.revision) (sym e) le) in
            (id', ev, subst (λ x. db'.outbox x id' ≡ some ev) eo at, er ∙ ei, en)
        | inr (other, same) ↦
            let (id', e, at, er, en) = before.no_gap o' i' r n (sym same ∙ h') le in
            (id', e, event_kept e at, er, en)
      ]

  -- The run of an old event is stored, at the same or at its next revision.
  future_kept :
      {o' : String} (e : OutboxEvent)
      → ((r : RotationRun) × (db.runs o' e.event.run_id ≡ some r) × (e.event.revision ≤ r.revision))
      → (r : RotationRun) × (db'.runs o' e.event.run_id ≡ some r) × (e.event.revision ≤ r.revision)
  future_kept {o'} e (r, at, le) = elim (get-put db.runs o i run o' e.event.run_id) [
    | inl (eo, ei, now) ↦
        let there = subst₂ (λ x y. db.runs x y ≡ some r) (sym eo) (sym ei) at in
        (
          run,
          subst (λ t. t o' e.event.run_id ≡ some run) (sym runs_after) now,
          omega (arith, next_revision r there),
        )
    | inr (other, same) ↦
        (r, subst (λ t. t o' e.event.run_id ≡ some r) (sym runs_after) (same ∙ at), le)
  ]

  -- No event of the run had the new revision before.
  not_before :
      {x : String} (e : OutboxEvent)
      → db.outbox o x ≡ some e
      → event.event.run_id ≡ e.event.run_id
      → event.event.revision ≡ e.event.revision
      → ⊥
  not_before {x} e at er en =
      let (r, there, le) = before.no_future o x e at in
      let mine = subst (λ z. db.runs o z ≡ some r) (sym er ∙ event_run) there in
      omega (arith, next_revision r mine)

  logged-no_future :
      (o' id' : String) (e : OutboxEvent)
      → db'.outbox o' id' ≡ some e
      → (r : RotationRun) × (db'.runs o' e.event.run_id ≡ some r) × (e.event.revision ≤ r.revision)
  logged-no_future o' id' e h =
      let h' = subst (λ t. t o' id' ≡ some e) outbox_after h in
      elim (get-put db.outbox o id event o' id') [
        | inl (eo, ei, now) ↦
            let same : event ≡ e = ground arith in
            let at = get-put_self db.runs o i run in
            (
              run,
              subst (λ t. t o' e.event.run_id ≡ some run) (sym runs_after)
                  (subst₂ (λ x y. put db.runs o i run x y ≡ some run) eo
                    (sym event_run ∙ ap (λ x. x.event.run_id) same) at),
              subst (λ x. x.event.revision ≤ run.revision) same (omega arith),
            )
        | inr (other, same) ↦ future_kept e (before.no_future o' id' e (sym same ∙ h'))
      ]

  logged-one_event :
      (o' x y : String) (e e' : OutboxEvent)
      → db'.outbox o' x ≡ some e
      → db'.outbox o' y ≡ some e'
      → e.event.run_id ≡ e'.event.run_id
      → e.event.revision ≡ e'.event.revision
      → x ≡ y
  logged-one_event o' x y e e' hx hy er en =
      let hx' = subst (λ t. t o' x ≡ some e) outbox_after hx in
      let hy' = subst (λ t. t o' y ≡ some e') outbox_after hy in
      elim (get-put db.outbox o id event o' x) [
        | inl (eo, ex, now) ↦ elim (get-put db.outbox o id event o' y) [
          | inl (eo', ey, now') ↦ sym ex ∙ ey
          | inr (other, same) ↦
              let new : event ≡ e = ground arith in
              absurd (
                not_before e' (subst (λ z. db.outbox z y ≡ some e') (sym eo) (sym same ∙ hy'))
                  (ap (λ z. z.event.run_id) new ∙ er) (ap (λ z. z.event.revision) new ∙ en))
        ]
        | inr (other, same) ↦ elim (get-put db.outbox o id event o' y) [
          | inl (eo', ey, now') ↦
              let new : event ≡ e' = ground arith in
              absurd (
                not_before e (subst (λ z. db.outbox z x ≡ some e) (sym eo') (sym same ∙ hx'))
                  (ap (λ z. z.event.run_id) new ∙ sym er) (ap (λ z. z.event.revision) new ∙ sym en))
          | inr (other', same') ↦
              before.one_event o' x y e e' (sym same ∙ hx') (sym same' ∙ hy') er en
        ]
      ]

  pub added-Logged : Logged db'
  added-Logged = record {
    no_gap = logged-no_gap;
    no_future = logged-no_future;
    one_event = logged-one_event;
  }
