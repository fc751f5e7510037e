-- ===== src/Billing/Webhook/Answers.antt =====
-- What a delivery of billing/webhook.go answers, and what becomes of its claim.
use api_gatewahy.Base.{
  ◌≡◌, refl, ap, ◌∙◌, Bool, true, false, Option, none, some, Text, codes, eqb, eqb_refl, is_empty,
  contains, lookup, lookup-erase, arith, Bool-cases, inl, inr, if◌then◌else◌,
}
use api_gatewahy.ApiAccess.Events.{
  Events, EventRow, begin_event, delete_event, is_held, is_finished, begin_event_lem,
  finish_event_lem,
}
use api_gatewahy.Billing.Reconcile.{ReconcileError, is_permanent}
use api_gatewahy.Billing.Webhook.{
  StripeEvent, Webhook, Ledger, Delivery, handled_events, subscription_id, reconciled_with,
  reconcile_event, Progress, answered, claimed, reconciled, begun, begin_delivery, advance,
}

module _ {S : Type 0} (h : Webhook S) where
  -- A delivery that reaches the claim of an event of a subscription, with a ledger that works.
  pub record Arrives (d : Delivery) (e : StripeEvent) (l : Ledger S) : Type 0 where
    pub posted : eqb d.request.method (codes "POST") ≡ true
    pub body : Text
    pub has_body : d.request.body ≡ some body
    pub signed : h.construct_event body d.request.signature ≡ some e
    pub handled : contains handled_events e.typ ≡ true
    pub begins : d.begin_works ≡ true
    pub ends : d.end_works ≡ true
    pub for_subscription : is_empty (subscription_id e) ≡ false

  -- The answer and the claim that an outcome of the reconcile calls for.
  abbrev pub Settles : Text → Option ReconcileError → Progress × Ledger S → Type 0
  Settles id none a = (a.0 ≡ answered 200) × (is_finished (lookup id a.1.events) ≡ true)
  Settles id (some e) a =
      if is_permanent e
      then (a.0 ≡ answered 200) × (is_finished (lookup id a.1.events) ≡ true)
      else (a.0 ≡ answered 500) × (lookup id a.1.events ≡ none)

  advance-Settles :
      (d : Delivery) (e : StripeEvent) (o : Option ReconcileError) (l : Ledger S) (v : EventRow)
      → d.end_works ≡ true
      → lookup e.id l.events ≡ some v
      → Settles e.id o (advance h d (reconciled e o) l)
  unfolding advance reconciled_with delete_event
  advance-Settles d e none l v w p =
      ground (arith, w, finish_event_lem e.id d.ended_at l.events v p)
  advance-Settles d e (some x) l v w p = elim (Bool-cases (is_permanent x)) [
    | inl y ↦ simp y (refl, ground (arith, w, finish_event_lem e.id d.ended_at l.events v p))
    | inr n ↦ simp n (refl, ground (arith, w, lookup-erase e.id e.id l.events, eqb_refl e.id))
  ]

  begin_delivery_lem :
      (d : Delivery) (e : StripeEvent) (l : Ledger S)
      → Arrives d e l
      → begin_delivery h d l ≡ begun h e (begin_event e.id e.typ d.claimed_at l.events) l
  unfolding begin_delivery
  begin_delivery_lem d e l a = simp (a.posted, a.has_body, a.signed, a.handled, a.begins) refl

  begun-true :
      (e : StripeEvent) (b : Bool × Events) (l : Ledger S)
      → b.0 ≡ true
      → begun h e b l ≡ (claimed e, record l { events = b.1 })
  unfolding begun
  begun-true e (false, rows) l q = ground arith
  begun-true e (true, rows) l q = refl

  -- The steps of a delivery, and the ledgers that it finds at each: at the claim, at the reconcile,
  -- and at the end. Other deliveries may have run in between.
  pub record Steps (d : Delivery) (e : StripeEvent) (l m n : Ledger S) : Type 0 where
    pub claims : (begin_delivery h d l).0 ≡ claimed e
    pub holds : is_held d.claimed_at (lookup e.id (begin_delivery h d l).1.events) ≡ true
    pub reconciles :
        (advance h d (claimed e) m).0 ≡ reconciled e (h.reconcile (subscription_id e) m.state).0
    pub changes : (advance h d (claimed e) m).1.state ≡ (h.reconcile (subscription_id e) m.state).1
    pub keeps : (advance h d (claimed e) m).1.events ≡ m.events
    pub settles :
        Settles e.id
          (h.reconcile (subscription_id e) m.state).0
          (advance h d (reconciled e (h.reconcile (subscription_id e) m.state).0) n)

  -- With a ledger whose calls work, a signed event of a subscription that no claim holds is claimed,
  -- then reconciled, and then settled by the outcome, whatever the ledger became in between as long as
  -- it has the event's row at the end: a success and a permanent failure answer 200 and finish the
  -- event, and any other failure answers 500 and leaves no row of the event.
  pub delivery-Steps :
      (d : Delivery) (e : StripeEvent) (l m n : Ledger S) (v : EventRow)
      → Arrives d e l
      → is_held d.claimed_at (lookup e.id l.events) ≡ false
      → lookup e.id n.events ≡ some v
      → Steps d e l m n
  unfolding advance reconcile_event
  delivery-Steps d e l m n v a f p =
      let (fresh, held) = begin_event_lem e.id e.typ d.claimed_at l.events in
      let q =
        begin_delivery_lem d e l a
        ∙ begun-true e (begin_event e.id e.typ d.claimed_at l.events) l
            (ground (arith, f, fresh)) in
      record {
        claims = ap (λ x. x.0) q;
        holds = ap (λ x. is_held d.claimed_at (lookup e.id x.1.events)) q ∙ held;
        reconciles = ground (arith, a.for_subscription);
        changes = ground (arith, a.for_subscription);
        keeps = ground (arith, a.for_subscription);
        settles = advance-Settles d e (h.reconcile (subscription_id e) m.state).0 n v a.ends p;
      }

  begun-false :
      (e : StripeEvent) (b : Bool × Events) (l : Ledger S)
      → b.0 ≡ false
      → ((begun h e b l).0 ≡ answered 200)
        × ((begun h e b l).1.state ≡ l.state)
        × ((begun h e b l).1.ran ≡ l.ran)
  unfolding begun
  begun-false e (false, rows) l q = (refl, refl, refl)
  begun-false e (true, rows) l q = ground arith

  -- A signed event that is finished, or that another delivery claimed in the last five minutes, is
  -- answered 200 and changes nothing.
  pub begin_delivery-is_held :
      (d : Delivery) (e : StripeEvent) (l : Ledger S)
      → Arrives d e l
      → is_held d.claimed_at (lookup e.id l.events) ≡ true
      → let a = begin_delivery h d l in
        (a.0 ≡ answered 200) × (a.1.state ≡ l.state) × (a.1.ran ≡ l.ran)
  begin_delivery-is_held d e l a f = simp (begin_delivery_lem d e l a) (
      begun-false e (begin_event e.id e.typ d.claimed_at l.events) l
        (ground (arith, f, (begin_event_lem e.id e.typ d.claimed_at l.events).0)))
