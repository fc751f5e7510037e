-- ===== src/Billing/Checkout.antt =====
-- billing/checkout.go and portal.go: a Checkout Session for a plan. Stripe's answers are parameters,
-- each of which may depend on the calls that were made before; the store is an interface.
pub mod Release
pub mod Stored
pub mod Charges
pub mod Allowed
mod Tests
use api_gatewahy.Base.{
  ℕ, Bool, true, false, not, ◌&&◌, Option, none, some, List, [], ◌∷◌, ◌++◌, Text, codes, eqb,
  is_empty, lookup, format_int, Result, ok, err, if◌then◌else◌,
}
use api_gatewahy.ApiAccess.Entitlement.{Entitlement, has_active_stripe_plan}
use api_gatewahy.ApiAccess.Key.{Account, AccountStatus, active, suspended}
use api_gatewahy.ApiAccess.Usage.{Invite}
use api_gatewahy.Billing.Plan.{Catalog, Plan, LineItem, line_items}
use api_gatewahy.Billing.Plan.Normal.{PlanError, validate, is_public}
use api_gatewahy.Billing.Plan.Metadata.{metadata}
use api_gatewahy.Billing.Resolve.{StoreLister, ResolvedPlan, ResolveError, resolve}
use api_gatewahy.Billing.ChangePlan.{ListedPrice, price_ids}

-- What Create calls of the Store, each of which may fail with an error of `E`.
pub record CheckoutStore (S E : Type 0) : Type 0 where
  pub list_entitlements : ℕ → S → Result E (List Entitlement) × S
  pub consume_invite : Text → Text → ℕ → S → Result E Invite × S
  pub release_invite : Text → S → Result E Text × S
  pub set_stripe_customer_id : ℕ → Text → S → Result E Text × S

pub record SessionParams : Type 0 where
  pub customer : Text
  pub client_reference_id : Text
  pub success_url : Text
  pub cancel_url : Text
  pub line_items : List (Text × ℕ)
  pub metadata : List (Text × Text)

pub data StripeCall : Type 0 where
  create_customer : Text → ℕ → StripeCall
  expire_session : Text → StripeCall
  create_session : SessionParams → StripeCall

pub record Session : Type 0 where
  pub id : Text
  pub url : Text

-- Answers of the API after the calls so far, none for an error.
pub record StripeApi : Type 0 where
  pub list_prices : List StripeCall → Option (List ListedPrice)
  pub customer_id : List StripeCall → Option Text
  pub open_sessions : List StripeCall → Text → Option (List Text)
  pub session : List StripeCall → Option Session

pub data CheckoutError (E : Type 0) : Type 0 where
  not_active has_plan prices_failed customer_failed sessions_failed create_failed : CheckoutError E
  store_failed : E → CheckoutError E
  bad_plan : PlanError → CheckoutError E
  unresolved : ResolveError → CheckoutError E
  wrong_interval : Text → Text → CheckoutError E
  price_not_seeded : Text → CheckoutError E

-- Request
pub record CheckoutRequest : Type 0 where
  pub account : Account
  pub plan : Plan
  pub invite : Text
  pub resolved : Option ResolvedPlan

abbrev eqb_list : List Text → List Text → Bool
eqb_list [] [] = true
eqb_list [] (y ∷ ys) = false
eqb_list (x ∷ xs) [] = false
eqb_list (x ∷ xs) (y ∷ ys) = eqb x y && eqb_list xs ys

-- The method `equal` of Plan
unfoldable pub equal : Plan → Plan → Bool
equal p q =
    eqb p.package_key q.package_key
    && eqb p.interval q.interval
    && eqb_list p.games q.games
    && eqb_list p.stores q.stores
    && eqb_list p.mode_addons q.mode_addons

abbrev pub already : Option ResolvedPlan → Plan → Bool
already none p = false
already (some r) p = equal r.plan p

abbrev pub failure_of : {A : Type 0} → Result ResolveError A → Option ResolveError
failure_of (ok a) = none
failure_of (err e) = some e

abbrev pub is_active_account : AccountStatus → Bool
is_active_account active = true
is_active_account suspended = false

pub record World (S : Type 0) : Type 0 where
  pub store : S
  pub calls : List StripeCall

-- `now` is the clock; the ids of the priced line items are looked up in the seeded prices.
pub record Checkout (S E : Type 0) : Type 0 where
  pub store : CheckoutStore S E
  pub api : StripeApi
  pub catalog : Catalog
  pub stores : Option StoreLister
  pub games : List Text
  pub success_url : Text
  pub cancel_url : Text
  pub now : ℕ

-- The loop of lineItems.
unfoldable pub priced :
    {E : Type 0} → List (Text × Text) → List LineItem → Result (CheckoutError E) (List (Text × ℕ))
priced ids [] = ok []
priced ids (li ∷ lis) =
    let rest = priced ids lis in
    elim (lookup li.lookup_key ids) [
      | none ↦ err (price_not_seeded li.lookup_key)
      | some id ↦ elim rest [ ok out ↦ ok ((id, li.quantity) ∷ out) | err e ↦ err e ]
    ]

abbrev pub expired : List Text → List StripeCall
expired [] = []
expired (s ∷ ss) = expire_session s ∷ expired ss

module _ {S E : Type 0} (c : Checkout S E) (req : CheckoutRequest) where
  abbrev pub Outcome : Type 0
  Outcome = Result (CheckoutError E) Session × World S

  abbrev pub params : Plan → List (Text × ℕ) → Text → SessionParams
  params plan items customer = record {
    customer = customer;
    client_reference_id = format_int req.account.id;
    success_url = c.success_url;
    cancel_url = c.cancel_url;
    line_items = items;
    metadata = metadata plan req.account.id;
  }

  abbrev pub created_session : Option Session → World S → Outcome
  created_session none w = (err create_failed, w)
  created_session (some s) w = (ok s, w)

  -- CreateCheckoutSession
  unfoldable pub open_session : Plan → List (Text × ℕ) → Text → World S → Outcome
  open_session plan items customer w =
      let calls = w.calls ++ (create_session (params plan items customer) ∷ []) in
      created_session (c.api.session calls) (record w { calls = calls })

  -- expireOpenSessions; a failed expire is only logged.
  unfoldable pub expire_then :
      Plan → List (Text × ℕ) → Text → Option (List Text) → World S → Outcome
  unfolding open_session
  expire_then plan items customer none w = (err sessions_failed, w)
  expire_then plan items customer (some open_ids) w =
      open_session plan items customer (record w { calls = w.calls ++ expired open_ids })

  unfoldable pub with_customer :
      Plan → List (Text × ℕ) → Result (CheckoutError E) (Text × Bool) × World S → Outcome
  unfolding open_session expire_then
  with_customer plan items (err e, w) = (err e, w)
  with_customer plan items (ok (customer, true), w) = open_session plan items customer w
  with_customer plan items (ok (customer, false), w) =
      expire_then plan items customer (c.api.open_sessions w.calls customer) w

  unfoldable pub stored_customer :
      Text → List StripeCall → Result E Text × S → Result (CheckoutError E) (Text × Bool) × World S
  stored_customer made calls (err e, s) =
      (err (store_failed e), record { store = s; calls = calls })
  stored_customer made calls (ok id, s) =
      (ok (id, eqb id made), record { store = s; calls = calls })

  unfoldable pub made_customer :
      List StripeCall → Option Text → World S → Result (CheckoutError E) (Text × Bool) × World S
  unfolding stored_customer
  made_customer calls none w = (err customer_failed, record w { calls = calls })
  made_customer calls (some made) w =
      stored_customer made calls (c.store.set_stripe_customer_id req.account.id made w.store)

  -- ensureCustomer
  unfoldable pub ensure_customer : World S → Result (CheckoutError E) (Text × Bool) × World S
  unfolding made_customer
  ensure_customer w =
      let calls = w.calls ++ (create_customer req.account.email req.account.id ∷ []) in
      if not (is_empty req.account.stripe_customer_id)
      then (ok (req.account.stripe_customer_id, false), w)
      else made_customer calls (c.api.customer_id calls) w

  unfoldable pub with_items : Plan → Result (CheckoutError E) (List (Text × ℕ)) → World S → Outcome
  unfolding with_customer ensure_customer
  with_items plan (err e) w = (err e, w)
  with_items plan (ok items) w = with_customer plan items (ensure_customer w)

  unfoldable pub with_prices : Plan → Option (List (Text × Text)) → World S → Outcome
  unfolding with_items
  with_prices plan none w = (err prices_failed, w)
  with_prices plan (some ids) w = with_items plan (priced ids (line_items c.catalog plan)) w

  -- What follows the invite: lineItems, ensureCustomer, expireOpenSessions, CreateCheckoutSession.
  unfoldable pub pay : Plan → World S → Outcome
  unfolding with_prices
  pay plan w = with_prices plan (price_ids (c.api.list_prices w.calls)) w

  -- The deferred release of the invite.
  unfoldable pub released : Outcome → Outcome
  released (ok s, w) = (ok s, w)
  released (err e, w) = (err e, record w { store = (c.store.release_invite req.invite w.store).1 })

  unfoldable pub with_invite : Plan → Result E Invite × S → World S → Outcome
  unfolding released pay
  with_invite plan (err e, s) w = (err (store_failed e), record w { store = s })
  with_invite plan (ok i, s) w = released (
      if not (eqb i.interval_key plan.interval)
      then (err (wrong_interval i.interval_key plan.interval), record w { store = s })
      else pay plan (record w { store = s }))

  unfoldable pub with_resolved : Plan → Option ResolveError → World S → Outcome
  unfolding pay with_invite
  with_resolved plan (some e) w = (err (unresolved e), w)
  with_resolved plan none w =
      if is_public (c.catalog.find_interval plan.interval)
      then pay plan w
      else with_invite plan (c.store.consume_invite req.invite req.account.email c.now w.store) w

  unfoldable pub with_plan : Result PlanError Plan → World S → Outcome
  unfolding with_resolved
  with_plan (err e) w = (err (bad_plan e), w)
  with_plan (ok plan) w =
      with_resolved plan
        (if already req.resolved plan then none else failure_of (resolve c.catalog plan c.stores)) w

  unfoldable pub with_entitlements : Result E (List Entitlement) × S → World S → Outcome
  unfolding with_plan
  with_entitlements (err e, s) w = (err (store_failed e), record w { store = s })
  with_entitlements (ok ents, s) w =
      if has_active_stripe_plan ents
      then (err has_plan, record w { store = s })
      else with_plan (validate c.catalog req.plan c.games (not (is_empty req.invite)))
          (record w { store = s })

  -- Create
  unfoldable pub create : World S → Outcome
  unfolding with_entitlements
  create w =
      if not (is_active_account req.account.status)
      then (err not_active, w)
      else with_entitlements (c.store.list_entitlements req.account.id w.store) w

pub data AbandonError (E : Type 0) : Type 0 where
  expire_failed : AbandonError E
  not_expired : Text → AbandonError E
  not_released : E → AbandonError E

abbrev handed_back : {S E : Type 0} → Result E Text × S → Result (AbandonError E) Text × S
handed_back (ok t, s) = (ok t, s)
handed_back (err e, s) = (err (not_released e), s)

-- Abandon, given the status that ExpireCheckoutSession returned, none for an error.
unfoldable pub abandon :
    {S E : Type 0} → Checkout S E → Option Text → Text → S → Result (AbandonError E) Text × S
abandon c none invite s = (err expire_failed, s)
abandon c (some status) invite s =
    if not (eqb status (codes "expired"))
    then (err (not_expired status), s)
    else if is_empty invite
    then (ok invite, s)
    else handed_back (c.store.release_invite invite s)

pub data PortalError : Type 0 where
  no_customer portal_failed : PortalError

-- PortalURL; `session` is what CreatePortalSession returns for the customer.
unfoldable pub portal_url : Account → (Text → Option Text) → Result PortalError Text
portal_url account session =
    if is_empty account.stripe_customer_id
    then err no_customer
    else elim (session account.stripe_customer_id) [ none ↦ err portal_failed | some url ↦ ok url ]
