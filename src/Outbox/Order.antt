-- ===== src/Outbox/Order.antt =====
-- The order in which server/core/storage/outbox.py settles the events of a run.
use uumi.Prelude.{
  String, ap, arith, false, inl, inr, ltb, nat_eq, refl, some, string_eq, subst, subst₂, sym, true,
  ℕ, ◌+◌, ◌<◌, ◌∙◌, ◌≡◌,
}
use uumi.Outbox.Steps.{DeliveryStep, deliver-step, is_settled, settled_next, touched, unchanged}
use uumi.Contracts.{OutboxEvent, RunEvent}
use uumi.Errors.{Error, err, ok}
use uumi.Store.{Table, get-put, get-put_self, put}
use uumi.Outbox.{Cursor, Delivery, DeliveryOp, cursor_of, deliver, next_revision, settle_event}

-- No two documents hold the same revision of one run.
abbrev pub Distinct : Delivery → Type 0
Distinct s =
    (o i o' i' : String) (e d : OutboxEvent)
    → s.outbox o i ≡ some e
    → s.outbox o' i' ≡ some d
    → e.event.organisation_id ≡ d.event.organisation_id
    → e.event.run_id ≡ d.event.run_id
    → e.event.revision ≡ d.event.revision
    → (o ≡ o') × (i ≡ i')

-- The settled events are those below the cursor of their run.
abbrev pub Marked : Delivery → Type 0
Marked s =
    (o i : String) (e : OutboxEvent)
    → s.outbox o i ≡ some e
    → is_settled e ≡ ltb e.event.revision (next_revision (cursor_of s e))

-- A sequence of transactions, those that fail included.
pub data Deliveries (s : Delivery) : Delivery → Type 0 where
  start_delivery : Deliveries s s
  then_deliver :
      {s' s'' : Delivery} (op : DeliveryOp)
      → Deliveries s s'
      → deliver s' op ≡ ok s''
      → Deliveries s s''
  then_fail :
      {s' : Delivery} (op : DeliveryOp) (e : Error)
      → Deliveries s s'
      → deliver s' op ≡ err e
      → Deliveries s s'

-- A document after a write that keeps its event is a document before it, with the same event.
put-old :
    (t : Table OutboxEvent) (o i : String) (e e' : OutboxEvent)
    → t o i ≡ some e
    → e'.event ≡ e.event
    → (o1 i1 : String) {x : OutboxEvent} → put t o i e' o1 i1 ≡ some x
    → (w : OutboxEvent) × ((t o1 i1 ≡ some w) × (x.event ≡ w.event))
put-old t o i e e' at same o1 i1 {x} h = elim (get-put t o i e' o1 i1) [
  | inl (eo, ei, now) ↦
      let is : x ≡ e' = ground arith in
      (e, (subst₂ (λ a b. t a b ≡ some e) eo ei at, ap (λ (v : OutboxEvent). v.event) is ∙ same))
  | inr (other, kept) ↦ (x, (sym kept ∙ h, refl))
]

put-Distinct :
    (s : Delivery) (o i : String) (e e' : OutboxEvent)
    → s.outbox o i ≡ some e
    → e'.event ≡ e.event
    → Distinct s
    → (c : Table Cursor) → Distinct (record { outbox = put s.outbox o i e'; cursors = c })
put-Distinct s o i e e' at same only c o1 i1 o2 i2 x y hx hy ho hr hv =
    let (v, (atv, sv)) = put-old s.outbox o i e e' at same o1 i1 hx in
    let (w, (atw, sw)) = put-old s.outbox o i e e' at same o2 i2 hy in
    only o1 i1 o2 i2 v w atv atw
      (subst₂ (λ (a b : RunEvent). a.organisation_id ≡ b.organisation_id) sv sw ho)
      (subst₂ (λ (a b : RunEvent). a.run_id ≡ b.run_id) sv sw hr)
      (subst₂ (λ (a b : RunEvent). a.revision ≡ b.revision) sv sw hv)

touch-Marked :
    (s : Delivery) (o i : String) (e e' : OutboxEvent)
    → s.outbox o i ≡ some e
    → e'.event ≡ e.event
    → is_settled e ≡ false
    → is_settled e' ≡ false
    → Marked s
    → Marked (record s { outbox = put s.outbox o i e' })
touch-Marked s o i e e' at same free free' marked o1 i1 x hx =
    elim (get-put s.outbox o i e' o1 i1) [
      | inl (eo, ei, now) ↦
          let is : x ≡ e' = ground arith in
          subst
            (λ (v : OutboxEvent).
              is_settled v ≡ ltb v.event.revision (next_revision (cursor_of s v)))
            (sym is)
            (subst
              (λ (v : RunEvent).
                is_settled e'
                ≡ ltb v.revision (next_revision (s.cursors v.organisation_id v.run_id)))
              (sym same) (free' ∙ sym free ∙ marked o i e at))
      | inr (other, kept) ↦ marked o1 i1 x (sym kept ∙ hx)
    ]

put_other :
    (t : Table OutboxEvent) (o' i' : String) (d d' : OutboxEvent) (o i : String) (e : OutboxEvent)
    → t o' i' ≡ some d
    → t o i ≡ some e
    → is_settled d ≡ false
    → is_settled e ≡ true
    → put t o' i' d' o i ≡ some e
put_other t o' i' d d' o i e atd ate free done = elim (get-put t o' i' d' o i) [
  | inl (eo, ei, now) ↦
      let there = sym (subst₂ (λ a b. t a b ≡ some d) eo ei atd) ∙ ate in
      let same : d ≡ e = ground arith in let open_event = ap is_settled same ∙ done in cc
  | inr (other, kept) ↦ kept ∙ ate
]

ltb_succ : {m n : ℕ} → ¬ (m ≡ n) → ltb n m ≡ ltb n (m + 1)
ltb_succ differ = ground (arith, differ)

ltb_self : (n : ℕ) → ltb n (n + 1) ≡ true
ltb_self n = ground arith

ltb_below : {d e n m : ℕ} → d < e → ltb e m ≡ true → n ≡ m → ltb d n ≡ true
ltb_below less h same = ground arith

step_settled :
    {s s' : Delivery}
    → DeliveryStep s s'
    → (o i : String) (e : OutboxEvent) → s.outbox o i ≡ some e
    → is_settled e ≡ true
    → s'.outbox o i ≡ some e
unfolding settle_event
step_settled (unchanged h) o i e at done =
    subst (λ (t : Delivery). t.outbox o i ≡ some e) (sym h) at
step_settled {s} (touched o' i' d d' at' same free free' keeps now) o i e at done =
    subst (λ (t : Delivery). t.outbox o i ≡ some e) (sym now)
      (put_other s.outbox o' i' d d' o i e at' at free done)
step_settled {s} (settled_next o' i' d d' at' same free set due keeps now) o i e at done =
    subst (λ (t : Delivery). t.outbox o i ≡ some e) (sym now)
      (put_other s.outbox o' i' d d' o i e at' at free done)

-- Another document of the run whose event was the next one to settle.
other_of_run :
    (s : Delivery) (o i : String) (e : OutboxEvent)
    → s.outbox o i ≡ some e
    → next_revision (cursor_of s e) ≡ e.event.revision
    → Distinct s
    → Marked s
    → (o1 i1 : String) (x : OutboxEvent) → s.outbox o1 i1 ≡ some x
    → e.event.organisation_id ≡ x.event.organisation_id
    → e.event.run_id ≡ x.event.run_id
    → ¬ ((o ≡ o1) × (i ≡ i1))
    → is_settled x ≡ ltb x.event.revision (e.event.revision + 1)
other_of_run s o i e at due only marked o1 i1 x atx eo er apart =
    let due_next : next_revision (cursor_of s x) ≡ e.event.revision =
      subst₂ (λ a b. next_revision (s.cursors a b) ≡ e.event.revision) eo er due in
    let low : is_settled x ≡ ltb x.event.revision e.event.revision =
      subst (λ n. is_settled x ≡ ltb x.event.revision n) due_next (marked o1 i1 x atx) in
    let differ : ¬ (e.event.revision ≡ x.event.revision) =
      λ h. apart (only o i o1 i1 e x at atx eo er h) in
    low ∙ ltb_succ differ

settle-Marked :
    (s : Delivery) (o i : String) (e e' : OutboxEvent)
    → s.outbox o i ≡ some e
    → e'.event ≡ e.event
    → is_settled e' ≡ true
    → next_revision (cursor_of s e) ≡ e.event.revision
    → Distinct s
    → Marked s
    → Marked (settle_event s o i e')
unfolding settle_event
settle-Marked s o i e e' at same set due only marked o1 i1 x hx =
    let c : Cursor = record {
      organisation_id = e'.event.organisation_id;
      run_id = e'.event.run_id;
      published_revision = e'.event.revision;
      event_id = e'.event.id;
      message_id = e'.publisher_message_id;
      published_at = e'.published_at;
      dead_lettered_at = e'.dead_lettered_at;
      last_error = e'.last_error;
    } in
    let org = ap (λ (v : RunEvent). v.organisation_id) same in
    let run = ap (λ (v : RunEvent). v.run_id) same in
    let rev = ap (λ (v : RunEvent). v.revision) same in
    elim (get-put s.outbox o i e' o1 i1) [
      | inl (eo, ei, now) ↦
          let is : x ≡ e' = ground arith in
          subst
            (λ (v : OutboxEvent).
              is_settled v
              ≡ ltb v.event.revision (
                  next_revision (
                    put s.cursors e'.event.organisation_id e'.event.run_id c v.event.organisation_id
                      v.event.run_id)))
            (sym is)
            (subst (λ d. is_settled e' ≡ ltb e'.event.revision (next_revision d))
              (sym (get-put_self s.cursors e'.event.organisation_id e'.event.run_id c))
              (set ∙ sym (ltb_self e'.event.revision)))
      | inr (other, kept) ↦
          let old = sym kept ∙ hx in
          elim (get-put s.cursors e'.event.organisation_id e'.event.run_id c x.event.organisation_id
            x.event.run_id) [
              | inl (eo, er, now) ↦
                  subst (λ d. is_settled x ≡ ltb x.event.revision (next_revision d)) (sym now)
                    (subst (λ n. is_settled x ≡ ltb x.event.revision (n + 1)) (sym rev)
                      (other_of_run s o i e at due only marked o1 i1 x old (sym org ∙ eo)
                        (sym run ∙ er) other))
              | inr (apart, kept_cursor) ↦
                  subst (λ d. is_settled x ≡ ltb x.event.revision (next_revision d))
                    (sym kept_cursor) (marked o1 i1 x old)
            ]
    ]

step-Ordered :
    {s s' : Delivery} → DeliveryStep s s' → Distinct s → Marked s → Distinct s' × Marked s'
unfolding settle_event
step-Ordered (unchanged e) only marked = (subst Distinct (sym e) only, subst Marked (sym e) marked)
step-Ordered {s} (touched o i e e' at same free free' keeps now) only marked = (
  subst Distinct (sym now) (put-Distinct s o i e e' at same only s.cursors),
  subst Marked (sym now) (touch-Marked s o i e e' at same free free' marked),
)
step-Ordered {s} (settled_next o i e e' at same free set due keeps now) only marked = (
  subst Distinct (sym now) (put-Distinct s o i e e' at same only (settle_event s o i e').cursors),
  subst Marked (sym now) (settle-Marked s o i e e' at same set due only marked),
)

Deliveries-Ordered :
    {s s' : Delivery} → Deliveries s s' → Distinct s → Marked s → Distinct s' × Marked s'
Deliveries-Ordered start_delivery only marked = (only, marked)
Deliveries-Ordered (then_deliver {s'} {s''} op before h) only marked =
    let (only', marked') = Deliveries-Ordered before only marked in
    step-Ordered (deliver-step s' s'' op h) only' marked'
Deliveries-Ordered (then_fail op e before h) only marked = Deliveries-Ordered before only marked

-- From a state where the settled events are those below the cursor of their run and no two documents
-- hold the same revision of a run, and after any sequence of transactions, an event that is
-- published or dead-lettered has behind it every event of its run with a lower revision: each of
-- them is published or dead-lettered as well.
pub settled_in_order :
    {s s' : Delivery}
    → Deliveries s s'
    → Distinct s
    → Marked s
    → (o i o' i' : String) (e d : OutboxEvent) → s'.outbox o i ≡ some e
    → s'.outbox o' i' ≡ some d
    → e.event.organisation_id ≡ d.event.organisation_id
    → e.event.run_id ≡ d.event.run_id
    → d.event.revision < e.event.revision
    → is_settled e ≡ true
    → is_settled d ≡ true
settled_in_order {s} {s'} steps only marked o i o' i' e d ate atd eo er less done =
    let (only', marked') = Deliveries-Ordered steps only marked in
    let me = marked' o i e ate in
    let md = marked' o' i' d atd in
    let due_next : next_revision (cursor_of s' d) ≡ next_revision (cursor_of s' e) =
      subst₂ (λ a b. next_revision (cursor_of s' d) ≡ next_revision (s'.cursors a b)) (sym eo)
        (sym er) refl in
    md ∙ ltb_below less (sym me ∙ done) due_next

-- A transaction that succeeds leaves a stored event that is published or dead-lettered as it is.
deliver-settled :
    (s s' : Delivery) (op : DeliveryOp) (o i : String) (e : OutboxEvent)
    → deliver s op ≡ ok s'
    → s.outbox o i ≡ some e
    → is_settled e ≡ true
    → s'.outbox o i ≡ some e
deliver-settled s s' op o i e h at done = step_settled (deliver-step s s' op h) o i e at done
