-- ===== src/Billing/ChangePlan/Laws.antt =====
-- What `ChangePlan` of billing/planchange.go sends to Stripe, and when.
use api_gatewahy.Base.{
  ℕ, ◌<◌, ◌≡◌, ◌⊎◌, inl, inr, ◌↔◌, refl, subst, ap, Bool, Bool-cases, true, false, ℤ, pos, negsuc,
  eq_ℤ, eqb→≡, is_empty, Option, none, some, List, [], ◌∷◌, ◌++◌, Text, eqb, any, sort, lookup,
  erase, lookup-erase, keys, Result, ok, err, arith, if◌then◌else◌,
}
use api_gatewahy.Billing.Plan.{Catalog, Plan}
use api_gatewahy.Billing.Plan.Normal.{PlanError, validate}
use api_gatewahy.Billing.Plan.Normal.Laws.{normalize-Normalized, validate-eq_ok}
use api_gatewahy.Billing.Plan.Metadata.{MetadataError, metadata, plan_from_metadata}
use api_gatewahy.Billing.Plan.Bills.{total}
use api_gatewahy.Billing.Resolve.{ResolvedPlan, ResolveError, resolve}
use api_gatewahy.Billing.Subscription.{Subscription, SubscriptionItem, plan_items}
use api_gatewahy.Billing.Reconcile.{Account}
use api_gatewahy.Billing.ChangePlan.{
  ItemUpdate, always_invoice, SubscriptionUpdate, ChangeEnv, ChangeOutcome, price_key, price_ids,
  item_change, change_items, add_items, prorate, proration_behavior, is_upgrade, owns,
  owns_by_customer, send_update, update_params, with_items, with_prices, with_resolved, with_valid,
  with_owner, with_current, with_subscription, change_plan,
}

-- An item of the subscription has the key.
abbrev pub has_item : Catalog → List SubscriptionItem → Text → Bool
has_item cat its k = any (λ it. eqb (price_key cat it.price) k) its

-- The keys that are left to add are those of the plan that no item has, with their quantities.
pub lookup-change_items :
    (cat : Catalog) (want : List (Text × ℕ)) (out : List ItemUpdate) (its : List SubscriptionItem)
    (k : Text)
    → lookup k (change_items cat want out its).0
      ≡ (if has_item cat its k then none else lookup k want)
unfolding change_items
lookup-change_items cat want out [] k = refl
lookup-change_items cat want out (it ∷ its) k =
    let key = price_key cat it.price in
    ground (
      arith,
      lookup-change_items cat (erase key want) (out ++ item_change it (lookup key want)) its k,
      lookup-erase key k want,
    )

-- The subscription's metadata names the account, or it is billed to the account's own customer.
abbrev pub IsOwned : Account → ℤ → Subscription → Type 0
IsOwned account id sub =
    (id ≡ pos account.id)
    ⊎ ((sub.customer ≡ some account.stripe_customer_id)
        × (is_empty account.stripe_customer_id ≡ false))

eq_ℤ→≡ : (a : ℤ) (n : ℕ) → eq_ℤ a (pos n) ≡ true → a ≡ pos n
eq_ℤ→≡ (pos m) n h = ap pos (ground (arith, h))
eq_ℤ→≡ (negsuc m) n h = ground (arith, h)

owns_by_customer_lem :
    (account : Account) (o : Option Text)
    → owns_by_customer account o ≡ true
    → (o ≡ some account.stripe_customer_id) × (is_empty account.stripe_customer_id ≡ false)
owns_by_customer_lem account none h = ground arith
owns_by_customer_lem account (some c) h =
    (ap some (eqb→≡ c account.stripe_customer_id (ground (arith, h))), ground (arith, h))

owns-IsOwned :
    (account : Account) (id : ℤ) (sub : Subscription)
    → owns account id sub ≡ true
    → IsOwned account id sub
unfolding owns
owns-IsOwned account id sub h = elim (Bool-cases (eq_ℤ id (pos account.id))) [
  | inl y ↦ inl (eq_ℤ→≡ id account.id y)
  | inr n ↦ inr (owns_by_customer_lem account sub.customer (ground (arith, h, n)))
]

-- What an update that was sent shows.
pub record Sent (env : ChangeEnv) (account : Account) (sub_id : Text) (new_plan : Plan)
    (o : ChangeOutcome) (u : SubscriptionUpdate) : Type 0 where
  pub sub : Subscription
  pub current : Plan
  pub id : ℤ
  pub plan : Plan
  pub resolved_plan : ResolvedPlan
  pub fetched : env.get_subscription sub_id ≡ some sub
  pub reads : plan_from_metadata sub.metadata ≡ ok (current, id)
  pub owned : IsOwned account id sub
  pub same_interval : plan.interval ≡ current.interval
  pub accepted :
      validate env.catalog (record new_plan { interval = current.interval }) env.games true
      ≡ ok plan
  pub resolves : resolve env.catalog plan env.stores ≡ ok resolved_plan
  pub returned : o.resolved ≡ some resolved_plan
  pub carries : u.metadata ≡ metadata plan account.id
  pub prorates : u.proration ≡ proration_behavior current plan env.catalog
  pub fails_unpaid : u.error_if_incomplete ≡ is_upgrade u.proration

-- The part of it that the last steps show.
abbrev pub Sends :
    ChangeEnv → Account → Plan → Plan → ResolvedPlan → ChangeOutcome → SubscriptionUpdate → Type 0
Sends env account current p r o u =
    (o.resolved ≡ some r)
    × (u.metadata ≡ metadata p account.id)
    × (u.proration ≡ proration_behavior current p env.catalog)
    × (u.error_if_incomplete ≡ is_upgrade u.proration)

with_items-Sends :
    (env : ChangeEnv) (account : Account) (sub_id : Text) (current p : Plan) (r : ResolvedPlan)
    (items : List ItemUpdate) (added : Result Text (List ItemUpdate)) (u : SubscriptionUpdate)
    → (with_items env account sub_id current p r items added).sent ≡ some u
    → Sends env account current p r (with_items env account sub_id current p r items added) u
unfolding with_items send_update update_params
with_items-Sends env account sub_id current p r items (err key) u h = ground arith
with_items-Sends env account sub_id current p r items (ok added) u h =
    let e : update_params env account current p (items ++ added) ≡ u = ground arith in
    subst
      (λ x.
        Sends env account current p r (with_items env account sub_id current p r items (ok added))
          x)
      e (refl, refl, refl, refl)

with_prices-Sends :
    (env : ChangeEnv) (account : Account) (sub : Subscription) (sub_id : Text) (current p : Plan)
    (r : ResolvedPlan) (ids : Option (List (Text × Text))) (u : SubscriptionUpdate)
    → (with_prices env account sub sub_id current p r ids).sent ≡ some u
    → Sends env account current p r (with_prices env account sub sub_id current p r ids) u
unfolding with_prices
with_prices-Sends env account sub sub_id current p r none u h = ground arith
with_prices-Sends env account sub sub_id current p r (some ids) u h =
    let (left, items) = change_items env.catalog (plan_items env.catalog p) [] sub.items in
    with_items-Sends env account sub_id current p r items (add_items ids left (sort (keys left))) u
      h

with_resolved-Sends :
    (env : ChangeEnv) (account : Account) (sub : Subscription) (sub_id : Text) (current p : Plan)
    (res : Result ResolveError ResolvedPlan) (u : SubscriptionUpdate)
    → (with_resolved env account sub sub_id current p res).sent ≡ some u
    → (r : ResolvedPlan) × (res ≡ ok r)
      × Sends env account current p r (with_resolved env account sub sub_id current p res) u
unfolding with_resolved
with_resolved-Sends env account sub sub_id current p (err e) u h = ground arith
with_resolved-Sends env account sub sub_id current p (ok r) u h =
    (r, refl, with_prices-Sends env account sub sub_id current p r (price_ids env.list_prices) u h)

with_valid-Sends :
    (env : ChangeEnv) (account : Account) (sub : Subscription) (sub_id : Text) (current : Plan)
    (v : Result PlanError Plan) (u : SubscriptionUpdate)
    → (with_valid env account sub sub_id current v).sent ≡ some u
    → (p : Plan) × (r : ResolvedPlan) × (v ≡ ok p)
      × (resolve env.catalog p env.stores ≡ ok r)
      × Sends env account current p r (with_valid env account sub sub_id current v) u
unfolding with_valid
with_valid-Sends env account sub sub_id current (err e) u h = ground arith
with_valid-Sends env account sub sub_id current (ok p) u h =
    let (r, e, s) =
      with_resolved-Sends env account sub sub_id current p (resolve env.catalog p env.stores) u h in
    (p, r, refl, e, s)

with_owner-sent :
    (env : ChangeEnv) (account : Account) (sub : Subscription) (sub_id : Text)
    (new_plan current : Plan) (id : ℤ) (b : Bool) (u : SubscriptionUpdate)
    → env.get_subscription sub_id ≡ some sub
    → plan_from_metadata sub.metadata ≡ ok (current, id)
    → owns account id sub ≡ b
    → (with_owner env account sub sub_id new_plan current b).sent ≡ some u
    → Sent env account sub_id new_plan (with_owner env account sub sub_id new_plan current b) u
unfolding with_owner
with_owner-sent env account sub sub_id new_plan current id false u f m y h = ground arith
with_owner-sent env account sub sub_id new_plan current id true u f m y h =
    let next : Plan = record new_plan { interval = current.interval } in
    let (p, r, v, e, (ret, c, pr, l)) =
      with_valid-Sends env account sub sub_id current (validate env.catalog next env.games true) u
        h in
    record {
      sub = sub;
      current = current;
      id = id;
      plan = p;
      resolved_plan = r;
      fetched = f;
      reads = m;
      owned = owns-IsOwned account id sub y;
      same_interval =
          (normalize-Normalized env.catalog next
            (validate-eq_ok env.catalog next env.games true v).0).interval_is;
      accepted = v;
      resolves = e;
      returned = ret;
      carries = c;
      prorates = pr;
      fails_unpaid = l;
    }

with_current-sent :
    (env : ChangeEnv) (account : Account) (sub : Subscription) (sub_id : Text) (new_plan : Plan)
    (m : Result MetadataError (Plan × ℤ)) (u : SubscriptionUpdate)
    → env.get_subscription sub_id ≡ some sub
    → plan_from_metadata sub.metadata ≡ m
    → (with_current env account sub sub_id new_plan m).sent ≡ some u
    → Sent env account sub_id new_plan (with_current env account sub sub_id new_plan m) u
unfolding with_current
with_current-sent env account sub sub_id new_plan (err e) u f m h = ground arith
with_current-sent env account sub sub_id new_plan (ok (current, id)) u f m h =
    with_owner-sent env account sub sub_id new_plan current id (owns account id sub) u f m refl h

with_subscription-sent :
    (env : ChangeEnv) (account : Account) (sub_id : Text) (new_plan : Plan)
    (s : Option Subscription) (u : SubscriptionUpdate)
    → env.get_subscription sub_id ≡ s
    → (with_subscription env account sub_id new_plan s).sent ≡ some u
    → Sent env account sub_id new_plan (with_subscription env account sub_id new_plan s) u
unfolding with_subscription
with_subscription-sent env account sub_id new_plan none u f h = ground arith
with_subscription-sent env account sub_id new_plan (some sub) u f h =
    with_current-sent env account sub sub_id new_plan (plan_from_metadata sub.metadata) u f refl h

-- An update reaches Stripe only for a subscription whose metadata names the account, or that
-- is billed to the account's customer; the
-- plan is accepted at the interval that the subscription has, and resolves; the update carries the
-- plan's metadata, and one that invoices now fails when its charge does.
pub change_plan-sent :
    (env : ChangeEnv) (account : Account) (sub_id : Text) (new_plan : Plan) (u : SubscriptionUpdate)
    → (change_plan env account sub_id new_plan).sent ≡ some u
    → Sent env account sub_id new_plan (change_plan env account sub_id new_plan) u
unfolding change_plan
change_plan-sent env account sub_id new_plan u h =
    with_subscription-sent env account sub_id new_plan (env.get_subscription sub_id) u refl h

prorate_iff :
    (o p : Option ℕ)
    → (prorate o p ≡ always_invoice) ↔ ((a : ℕ) × (b : ℕ) × (o ≡ some a) × (p ≡ some b) × (a < b))
prorate_iff none p = (λ e. ground arith, λ (a, b, e, f, l). ground arith)
prorate_iff (some a) none = (λ e. ground arith, λ (a, b, e, f, l). ground arith)
prorate_iff (some a) (some b) =
    (λ e. (a, b, refl, refl, ground arith), λ (c, d, e, f, l). ground arith)

-- A change is an upgrade exactly when both totals are known and the new one is larger.
pub proration_behavior_iff :
    (current next : Plan) (cat : Catalog)
    → (proration_behavior current next cat ≡ always_invoice)
      ↔ ((a : ℕ) × (b : ℕ) × (total cat current ≡ some a) × (total cat next ≡ some b) × (a < b))
unfolding proration_behavior
proration_behavior_iff current next cat = prorate_iff (total cat current) (total cat next)
