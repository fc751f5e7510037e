-- ===== src/Billing/Webhook/Tests.antt =====
-- Deliveries of one event to billing/webhook.go.
use api_gatewahy.Base.{
  ℕ, zero, suc, ◌+◌, ◌≡◌, refl, Bool, true, false, Option, none, some, List, [], ◌∷◌, Text, codes,
  lookup,
}
use api_gatewahy.ApiAccess.Events.{EventRow, is_finished}
use api_gatewahy.Billing.Reconcile.{no_plan}
use api_gatewahy.Billing.Webhook.{
  StripeEvent, Webhook, Ledger, Delivery, answered, begin_delivery, serve_webhook, subscription_id,
}
use api_gatewahy.Billing.Webhook.Answers.{Arrives, Steps, delivery-Steps}

abbrev paid : StripeEvent
paid = record {
  id = codes "evt_1";
  typ = codes "invoice.paid";
  object = some (record {
    kind = codes "invoice";
    id = codes "in_1";
    subscription = [];
    parent_subscription = some (codes "sub_1");
  });
}

-- A reconcile that counts its runs, and fails for good from the second on.
abbrev hook : Webhook ℕ
hook = record {
  construct_event = λ body signature. some paid;
  reconcile = λ sub n. elim n [ zero ↦ (none, 1) | suc k ↦ (some no_plan, suc (suc k)) ];
}

abbrev delivery : Delivery
delivery = record {
  request = record { method = codes "POST"; body = some []; signature = codes "s" };
  claimed_at = 100;
  ended_at = 200;
  begin_works = true;
  end_works = true;
}

abbrev empty : Ledger ℕ
empty = record { events = []; state = 0; ran = [] }

abbrev arrived : Arrives hook delivery paid empty
unfolding api_gatewahy.Base.eqb api_gatewahy.Base.contains subscription_id
arrived = record {
  posted = refl;
  body = [];
  has_body = refl;
  signed = refl;
  handled = refl;
  begins = refl;
  ends = refl;
  for_subscription = refl;
}

-- The claim of the first delivery is under way when the reconcile of another event has run.
abbrev meanwhile : Ledger ℕ
meanwhile = record (begin_delivery hook delivery empty).1 { state = 1; ran = codes "evt_0" ∷ [] }

delivery-Steps_example : Steps hook delivery paid empty meanwhile meanwhile
unfolding lookup begin_delivery api_gatewahy.Base.eqb api_gatewahy.Base.contains
    api_gatewahy.ApiAccess.Events.begin_event api_gatewahy.Base.insert_key
delivery-Steps_example =
    delivery-Steps hook delivery paid empty meanwhile meanwhile
      (record { typ = codes "invoice.paid"; received_at = 100; processed_at = none }) arrived refl
      refl

-- A second delivery of the event, while the first one's claim stands, is answered at once.
second_delivery : (serve_webhook hook delivery meanwhile).0 ≡ answered 200
unfolding lookup serve_webhook api_gatewahy.Base.eqb api_gatewahy.Base.contains
    api_gatewahy.ApiAccess.Events.begin_event api_gatewahy.Base.insert_key
second_delivery = refl
