-- ===== src/Billing/ChangePlan.antt =====
-- `ChangePlan` and `prorationBehavior` of billing/planchange.go: a subscription moves to a new plan.
-- Stripe's answers and the reconcile that follows are parameters.
pub mod Laws
use api_gatewahy.Base.{
  ℕ, Bool, true, false, not, ◌&&◌, ◌||◌, ℤ, pos, eq_ℤ, Option, none, some, List, [], ◌∷◌, ◌++◌,
  Text, codes, eqb, is_empty, sort, lookup, insert_key, erase, keys, length, ltb, ◌==◌, Result, ok,
  err, if◌then◌else◌,
}
use api_gatewahy.Billing.Plan.{Catalog, Plan}
use api_gatewahy.Billing.Plan.Normal.{PlanError, validate}
use api_gatewahy.Billing.Plan.Metadata.{MetadataError, metadata, plan_from_metadata}
use api_gatewahy.Billing.Plan.Bills.{total}
use api_gatewahy.Billing.Resolve.{StoreLister, ResolvedPlan, ResolveError, resolve}
use api_gatewahy.Billing.Subscription.{
  Subscription, SubscriptionItem, Price, price_lookup_key, plan_items, count_or_zero,
}
use api_gatewahy.Billing.Reconcile.{Account, ReconcileError}

-- SubscriptionUpdateItemParams
pub data ItemUpdate : Type 0 where
  delete_item : Text → ItemUpdate
  set_quantity : Text → ℕ → ItemUpdate
  add_price : Text → ℕ → ItemUpdate

pub data Proration : Type 0 where
  create_prorations always_invoice : Proration

-- SubscriptionUpdateParams; an upgrade fails when its charge is declined.
pub record SubscriptionUpdate : Type 0 where
  pub items : List ItemUpdate
  pub metadata : List (Text × Text)
  pub proration : Proration
  pub error_if_incomplete : Bool

pub data ChangeError : Type 0 where
  fetch_failed no_plan not_owner prices_failed update_failed : ChangeError
  invalid_plan : PlanError → ChangeError
  unresolved : ResolveError → ChangeError
  price_not_seeded : Text → ChangeError
  not_reconciled : ReconcileError → ChangeError

pub record ListedPrice : Type 0 where
  pub id : Text
  pub lookup_key : Text
  pub active : Bool

-- The loop of priceIDs: a later price replaces an earlier one of its key.
unfoldable collect_ids : List (Text × Text) → List ListedPrice → List (Text × Text)
collect_ids ids [] = ids
collect_ids ids (p ∷ ps) =
    collect_ids
      (if p.active && not (is_empty p.lookup_key) then insert_key p.lookup_key p.id ids else ids) ps

-- priceIDs
unfoldable pub price_ids : Option (List ListedPrice) → Option (List (Text × Text))
unfolding collect_ids
price_ids none = none
price_ids (some prices) = some (collect_ids [] prices)

pub record ChangeEnv : Type 0 where
  pub catalog : Catalog
  pub stores : Option StoreLister
  pub games : List Text
  pub get_subscription : Text → Option Subscription
  pub list_prices : Option (List ListedPrice)
  pub update_fails : Text → SubscriptionUpdate → Bool
  pub reconcile : Text → Option ReconcileError

-- What ChangePlan returns, and the update that it sent to Stripe, if any.
pub record ChangeOutcome : Type 0 where
  pub resolved : Option ResolvedPlan
  pub error : Option ChangeError
  pub sent : Option SubscriptionUpdate

abbrev pub price_key : Catalog → Option Price → Text
price_key cat none = []
price_key cat (some p) = price_lookup_key cat p

abbrev pub item_change : SubscriptionItem → Option ℕ → List ItemUpdate
item_change it none = delete_item it.id ∷ []
item_change it (some qty) = if qty == it.quantity then [] else set_quantity it.id qty ∷ []

-- The loop over the items: the changes, and the keys that are left to add.
unfoldable pub change_items :
    Catalog
    → List (Text × ℕ)
    → List ItemUpdate
    → List SubscriptionItem
    → List (Text × ℕ) × List ItemUpdate
change_items cat want out [] = (want, out)
change_items cat want out (it ∷ its) =
    let key = price_key cat it.price in
    change_items cat (erase key want) (out ++ item_change it (lookup key want)) its

-- The loop over the keys that are left, sorted.
unfoldable pub add_items :
    List (Text × Text) → List (Text × ℕ) → List Text → Result Text (List ItemUpdate)
add_items ids want [] = ok []
add_items ids want (key ∷ ks) = elim (lookup key ids) [
  | none ↦ err key
  | some id ↦
      let added = add_price id (count_or_zero (lookup key want)) in
      elim (add_items ids want ks) [ err k ↦ err k | ok items ↦ ok (added ∷ items) ]
]

abbrev prorate : Option ℕ → Option ℕ → Proration
prorate none _ = create_prorations
prorate (some a) none = create_prorations
prorate (some a) (some b) = if ltb a b then always_invoice else create_prorations

-- prorationBehavior
unfoldable pub proration_behavior : Plan → Plan → Catalog → Proration
proration_behavior current next cat = prorate (total cat current) (total cat next)

abbrev pub is_upgrade : Proration → Bool
is_upgrade always_invoice = true
is_upgrade create_prorations = false

abbrev pub refused : Option ResolvedPlan → ChangeError → ChangeOutcome
refused r e = record { resolved = r; error = some e; sent = none }

-- sub.Customer.ID == account.StripeCustomerID, where both are given
abbrev owns_by_customer : Account → Option Text → Bool
owns_by_customer account none = false
owns_by_customer account (some c) =
    not (is_empty account.stripe_customer_id) && eqb c account.stripe_customer_id

-- Whether the subscription is the account's.
unfoldable pub owns : Account → ℤ → Subscription → Bool
owns account id sub = eq_ℤ id (pos account.id) || owns_by_customer account sub.customer

module _ (env : ChangeEnv) (account : Account) where
  unfoldable pub send_update : ResolvedPlan → Text → SubscriptionUpdate → ChangeOutcome
  send_update r sub_id u = record {
    resolved = some r;
    error =
        (if env.update_fails sub_id u
          then some update_failed
          else elim (env.reconcile sub_id) [ none ↦ none | some e ↦ some (not_reconciled e) ]);
    sent = some u;
  }

  unfoldable pub update_params : Plan → Plan → List ItemUpdate → SubscriptionUpdate
  unfolding proration_behavior
  update_params current p items = record {
    items = items;
    metadata = metadata p account.id;
    proration = proration_behavior current p env.catalog;
    error_if_incomplete = is_upgrade (proration_behavior current p env.catalog);
  }

  unfoldable pub with_items :
      Text
      → Plan
      → Plan
      → ResolvedPlan
      → List ItemUpdate
      → Result Text (List ItemUpdate)
      → ChangeOutcome
  unfolding send_update update_params
  with_items sub_id current p r items (err key) = refused (some r) (price_not_seeded key)
  with_items sub_id current p r items (ok added) =
      send_update r sub_id (update_params current p (items ++ added))

  unfoldable pub with_prices :
      Subscription → Text → Plan → Plan → ResolvedPlan → Option (List (Text × Text)) → ChangeOutcome
  unfolding with_items change_items add_items
  with_prices sub sub_id current p r none = refused (some r) prices_failed
  with_prices sub sub_id current p r (some ids) =
      let (left, items) = change_items env.catalog (plan_items env.catalog p) [] sub.items in
      with_items sub_id current p r items (add_items ids left (sort (keys left)))

  unfoldable pub with_resolved :
      Subscription → Text → Plan → Plan → Result ResolveError ResolvedPlan → ChangeOutcome
  unfolding with_prices price_ids
  with_resolved sub sub_id current p (err e) = refused none (unresolved e)
  with_resolved sub sub_id current p (ok r) =
      with_prices sub sub_id current p r (price_ids env.list_prices)

  unfoldable pub with_valid : Subscription → Text → Plan → Result PlanError Plan → ChangeOutcome
  unfolding with_resolved
  with_valid sub sub_id current (err e) = refused none (invalid_plan e)
  with_valid sub sub_id current (ok p) =
      with_resolved sub sub_id current p (resolve env.catalog p env.stores)

  -- The plan is checked at the current interval, which was authorized when the subscription began.
  unfoldable pub with_owner : Subscription → Text → Plan → Plan → Bool → ChangeOutcome
  unfolding with_valid
  with_owner sub sub_id new_plan current false = refused none not_owner
  with_owner sub sub_id new_plan current true =
      let next : Plan = record new_plan { interval = current.interval } in
      with_valid sub sub_id current (validate env.catalog next env.games true)

  unfoldable pub with_current :
      Subscription → Text → Plan → Result MetadataError (Plan × ℤ) → ChangeOutcome
  unfolding with_owner owns
  with_current sub sub_id new_plan (err e) = refused none no_plan
  with_current sub sub_id new_plan (ok (current, id)) =
      with_owner sub sub_id new_plan current (owns account id sub)

  unfoldable pub with_subscription : Text → Plan → Option Subscription → ChangeOutcome
  unfolding with_current
  with_subscription sub_id new_plan none = refused none fetch_failed
  with_subscription sub_id new_plan (some sub) =
      with_current sub sub_id new_plan (plan_from_metadata sub.metadata)

  -- ChangePlan
  unfoldable pub change_plan : Text → Plan → ChangeOutcome
  unfolding with_subscription
  change_plan sub_id new_plan = with_subscription sub_id new_plan (env.get_subscription sub_id)
