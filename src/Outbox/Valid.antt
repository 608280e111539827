-- ===== src/Outbox/Valid.antt =====
-- The documents of server/core/storage/outbox.py stay valid, although the changed ones are written
-- without their validator.
use uumi.Outbox.Steps.{DeliveryStep, deliver-step, settled_next, touched, unchanged}
use uumi.Outbox.Order.{Deliveries, start_delivery, then_deliver, then_fail}
use uumi.Prelude.{String, arith, inl, inr, some, subst, sym, true, ◌∙◌, ◌≡◌}
use uumi.Contracts.{OutboxEvent, is_valid_outbox}
use uumi.Store.{Table, get-put, put}
use uumi.Outbox.{Delivery, settle_event}

-- Every stored event passes `OutboxEvent.validate_delivery`.
abbrev pub AllDeliverable : Delivery → Type 0
AllDeliverable s =
    (o i : String) (e : OutboxEvent) → s.outbox o i ≡ some e → is_valid_outbox e ≡ true

put-AllDeliverable :
    (t : Table OutboxEvent) (o i : String) (e e' : OutboxEvent)
    → t o i ≡ some e
    → (is_valid_outbox e ≡ true → is_valid_outbox e' ≡ true)
    → ((o i : String) (e : OutboxEvent) → t o i ≡ some e → is_valid_outbox e ≡ true)
    → (o1 i1 : String) (x : OutboxEvent) → put t o i e' o1 i1 ≡ some x
    → is_valid_outbox x ≡ true
put-AllDeliverable t o i e e' at keeps before o1 i1 x h = elim (get-put t o i e' o1 i1) [
  | inl (eo, ei, now) ↦
      let same : x ≡ e' = ground arith in
      subst (λ v. is_valid_outbox v ≡ true) (sym same) (keeps (before o i e at))
  | inr (other, kept) ↦ before o1 i1 x (sym kept ∙ h)
]

step-AllDeliverable : {s s' : Delivery} → DeliveryStep s s' → AllDeliverable s → AllDeliverable s'
unfolding settle_event
step-AllDeliverable (unchanged h) before = subst AllDeliverable (sym h) before
step-AllDeliverable {s} (touched o i e e' at same free free' keeps now) before =
    subst AllDeliverable (sym now) (put-AllDeliverable s.outbox o i e e' at keeps before)
step-AllDeliverable {s} (settled_next o i e e' at same free set due keeps now) before =
    subst AllDeliverable (sym now) (put-AllDeliverable s.outbox o i e e' at keeps before)

-- After any sequence of transactions, those that fail included, every stored event passes its
-- validator if every one did before.
pub Deliveries-AllDeliverable :
    {s s' : Delivery} → Deliveries s s' → AllDeliverable s → AllDeliverable s'
Deliveries-AllDeliverable start_delivery before = before
Deliveries-AllDeliverable (then_deliver {s'} {s''} op rest h) before =
    step-AllDeliverable (deliver-step s' s'' op h) (Deliveries-AllDeliverable rest before)
Deliveries-AllDeliverable (then_fail op e rest h) before = Deliveries-AllDeliverable rest before
