-- ===== src/Billing/Webhook.antt =====
-- billing/webhook.go: one Stripe event is verified, claimed, reconciled, and finished or released.
-- Each of these is a step of its own on the shared ledger, between which other deliveries may run.
-- The check of the signature, the JSON of the payload and the reconcile are parameters.
pub mod Answers
mod Tests
use api_gatewahy.Base.{
  ℕ, Bool, true, false, not, ◌&&◌, ◌||◌, Option, none, some, List, [], ◌∷◌, ◌++◌, Text, codes, eqb,
  is_empty, contains, if◌then◌else◌,
}
use api_gatewahy.ApiAccess.Events.{Events, begin_event, finish_event, delete_event}
use api_gatewahy.Billing.Reconcile.{ReconcileError, is_permanent}

abbrev pub handled_events : List Text
handled_events =
    codes "checkout.session.completed"
    ∷ codes "customer.subscription.created"
    ∷ codes "customer.subscription.updated"
    ∷ codes "customer.subscription.deleted"
    ∷ codes "invoice.paid"
    ∷ codes "invoice.payment_failed"
    ∷ []

-- What json.Unmarshal reads of the object of an event; a raw id is none where the field is missing.
pub record EventObject : Type 0 where
  pub kind : Text
  pub id : Text
  pub subscription : Text
  pub parent_subscription : Option Text

pub record StripeEvent : Type 0 where
  pub id : Text
  pub typ : Text
  pub object : Option EventObject  -- none where there is no payload, or it is not such an object

abbrev or_nothing : Option Text → Text
or_nothing none = []
or_nothing (some s) = s

unfoldable object_subscription : EventObject → Text
object_subscription o =
    if eqb o.kind (codes "subscription")
    then o.id
    else if eqb o.kind (codes "checkout.session")
    then o.subscription
    else if eqb o.kind (codes "invoice")
    then (if is_empty o.subscription then or_nothing o.parent_subscription else o.subscription)
    else []

-- SubscriptionID; the ids are those of rawID.
unfoldable pub subscription_id : StripeEvent → Text
unfolding object_subscription
subscription_id e = elim e.object [ none ↦ [] | some o ↦ object_subscription o ]

pub record WebhookRequest : Type 0 where
  pub method : Text
  pub body : Option Text  -- none for a body past the limit
  pub signature : Text

-- `S` is what the reconcile changes. The clock of the database is read at the claim and at the end;
-- a ledger call that fails is told by its Boolean.
pub record Webhook (S : Type 0) : Type 0 where
  pub construct_event : Text → Text → Option StripeEvent
  pub reconcile : Text → S → Option ReconcileError × S

pub record Ledger (S : Type 0) : Type 0 where
  pub events : Events
  pub state : S
  pub ran : List Text  -- the events whose reconcile was run, in order

pub record Delivery : Type 0 where
  pub request : WebhookRequest
  pub claimed_at : ℕ
  pub ended_at : ℕ
  pub begin_works : Bool
  pub end_works : Bool

-- How far a delivery has come: it was answered, it holds the claim of its event, or the reconcile of
-- its subscription has returned.
pub data Progress : Type 0 where
  answered : ℕ → Progress
  claimed : StripeEvent → Progress
  reconciled : StripeEvent → Option ReconcileError → Progress

module _ {S : Type 0} (h : Webhook S) where
  -- finish, whose failure is logged
  unfoldable pub finish : Delivery → Text → Ledger S → Ledger S
  finish d id l = record l {
    events = if d.end_works then finish_event id d.ended_at l.events else l.events;
  }

  unfoldable pub release : Delivery → Text → Ledger S → Ledger S
  release d id l = record l { events = if d.end_works then delete_event id l.events else l.events }

  -- The last step of a claimed event.
  unfoldable pub reconciled_with : Delivery → Text → Option ReconcileError → Ledger S → ℕ × Ledger S
  unfolding finish release
  reconciled_with d id none l = (200, finish d id l)
  reconciled_with d id (some e) l =
      if is_permanent e then (200, finish d id l) else (500, release d id l)

  -- The step after the claim: an event of no subscription has nothing to reconcile.
  unfoldable pub reconcile_event : StripeEvent → Ledger S → Progress × Ledger S
  reconcile_event e l =
      let sub = subscription_id e in
      let (failure, s) = h.reconcile sub l.state in
      if is_empty sub
      then (reconciled e none, l)
      else (reconciled e failure, record l { state = s; ran = l.ran ++ (e.id ∷ []) })

  unfoldable pub begun : StripeEvent → Bool × Events → Ledger S → Progress × Ledger S
  begun e (false, events) l = (answered 200, record l { events = events })
  begun e (true, events) l = (claimed e, record l { events = events })

  unfoldable pub verified : Delivery → Option StripeEvent → Ledger S → Progress × Ledger S
  unfolding begun
  verified d none l = (answered 400, l)
  verified d (some e) l =
      if not (contains handled_events e.typ)
      then (answered 200, l)
      else if not d.begin_works
      then (answered 500, l)
      else begun e (begin_event e.id e.typ d.claimed_at l.events) l

  unfoldable pub with_body : Delivery → Option Text → Ledger S → Progress × Ledger S
  unfolding verified
  with_body d none l = (answered 413, l)
  with_body d (some body) l = verified d (h.construct_event body d.request.signature) l

  -- ServeHTTP, up to BeginStripeEvent.
  unfoldable pub begin_delivery : Delivery → Ledger S → Progress × Ledger S
  unfolding with_body
  begin_delivery d l =
      if not (eqb d.request.method (codes "POST"))
      then (answered 405, l)
      else with_body d d.request.body l

  -- The next step of ServeHTTP, from Reconcile on; an answered delivery has none.
  unfoldable pub advance : Delivery → Progress → Ledger S → Progress × Ledger S
  unfolding reconcile_event reconciled_with
  advance d (answered status) l = (answered status, l)
  advance d (claimed e) l = reconcile_event e l
  advance d (reconciled e failure) l =
      let (status, m) = reconciled_with d e.id failure l in (answered status, m)

  -- ServeHTTP, where no other delivery comes in between.
  unfoldable pub serve_webhook : Delivery → Ledger S → Progress × Ledger S
  unfolding begin_delivery advance
  serve_webhook d l =
      let (p, l1) = begin_delivery d l in let (q, l2) = advance d p l1 in advance d q l2
