-- ===== src/Billing/Reconcile.antt =====
-- `Reconciler` of billing/reconcile.go: what one subscription's row becomes, and a full pass.
-- What a run does outside is a list of effects in their order. Stripe and the database are
-- parameters: their answers, the second list of references as a function of what was done before.
pub mod Row
pub mod Ended
pub mod Pass
use api_gatewahy.Base.{
  ℕ, ◌+◌, Bool, true, false, not, ◌&&◌, ◌||◌, ℤ, pos, eq_ℤ, Option, none, some, List, [], ◌∷◌, ◌++◌,
  Text, codes, eqb, is_empty, contains, join, sort, length, ltb, leb, ◌==◌, Result, ok, err,
  if◌then◌else◌,
}
use api_gatewahy.ApiAccess.Usage.{StripeRef}
use api_gatewahy.ApiAccess.Entitlement.{
  Entitlement, EntitlementStatus, active, ended, unset, Source, stripe,
}
use api_gatewahy.Billing.Plan.{Package, Catalog, Plan, package_of}
use api_gatewahy.Billing.Plan.Normal.{PlanError, normalize}
use api_gatewahy.Billing.Plan.Metadata.{MetadataError, plan_from_metadata}
use api_gatewahy.Billing.Plan.Bills.{plan_modes, addons, describe}
use api_gatewahy.Billing.Resolve.{
  StoreLister, ResolvedPlan, ResolveError, package_unknown, store_not_available, resolve,
}
use api_gatewahy.Billing.Subscription.{
  Subscription, map_status, sub_period_start, sub_ended_at, item_mismatch,
}

pub record Account : Type 0 where
  pub id : ℕ
  pub email : Text
  pub status : Text
  pub created_at : ℕ
  pub note : Text
  pub stripe_customer_id : Text
  pub session_epoch : ℕ

-- An error of the database: ErrNotFound, or another.
pub data StoreError : Type 0 where
  not_found store_failed : StoreError

pub data ReconcileError : Type 0 where
  no_plan no_account fetch_failed : ReconcileError
  account_failed upsert_failed : StoreError → ReconcileError
  invalid_plan : PlanError → ReconcileError
  unresolved : ResolveError → ReconcileError

pub data Effect : Type 0 where
  alert_failed : Text → ReconcileError → Effect
  alert_mismatch : Text → List (Text × ℕ) → List (Text × ℕ) → Effect
  alert_stores : Text → ResolveError → Effect
  alert_duplicates : ℕ → List Text → Effect
  alert_check_failed : Effect
  upsert : Entitlement → Effect
  notify : Effect

pub record Reconciler : Type 0 where
  pub catalog : Catalog
  pub stores : Option StoreLister
  pub grace : ℕ
  pub get_subscription : Text → Option Subscription
  pub list_subscriptions : Option (List Subscription)
  pub get_account : ℤ → Result StoreError Account
  pub get_account_by_customer : Text → Result StoreError Account
  pub upsert_error : Entitlement → Option StoreError
  pub list_active_refs : List Effect → Option (List StripeRef)

-- The error that is returned, if any, and what was done.
pub record Outcome : Type 0 where
  pub error : Option ReconcileError
  pub effects : List Effect

-- isPermanent
pub is_permanent : ReconcileError → Bool
is_permanent no_plan = true
is_permanent no_account = true
is_permanent (invalid_plan e) = true
is_permanent (unresolved (package_unknown k)) = true
is_permanent (unresolved (store_not_available k)) = true
is_permanent _ = false

-- failed
abbrev pub failed : List Effect → Subscription → ReconcileError → Bool → Outcome
failed before sub e pass = record {
  error = some e;
  effects = if pass then before else before ++ (alert_failed sub.id e ∷ []);
}

unfoldable find_by_customer : Reconciler → Option Text → Result ReconcileError Account
find_by_customer r none = err no_account
find_by_customer r (some c) =
    if is_empty c then err no_account else elim (r.get_account_by_customer c) [
      | ok a ↦ ok a
      | err not_found ↦ err no_account
      | err store_failed ↦ err (account_failed store_failed)
    ]

-- findAccount
unfoldable pub find_account : Reconciler → ℤ → Subscription → Result ReconcileError Account
unfolding find_by_customer
find_account r account_id sub =
    let by_customer = find_by_customer r sub.customer in
    if eq_ℤ account_id (pos 0) then by_customer else elim (r.get_account account_id) [
      | ok a ↦ ok a
      | err not_found ↦ by_customer
      | err store_failed ↦ err (account_failed store_failed)
    ]

-- The entitlement that apply writes.
unfoldable pub stripe_entitlement :
    Reconciler
    → Account
    → Subscription
    → Plan
    → Text
    → List Text
    → EntitlementStatus × Option ℕ
    → Entitlement
stripe_entitlement r account sub p scope modes (status, until) = record {
  id = 0;
  account_id = account.id;
  source = stripe;
  games = p.games;
  store_scope = scope;
  modes = modes;
  addons = addons r.catalog p;
  lookback_days = pos (package_of r.catalog p.package_key).lookback_days;
  status = status;
  valid_from = 0;
  valid_until = until;
  external_ref = sub.id;
  note = describe r.catalog p;
  created_at = 0;
}

-- The status of the row: without a period start the grace is spent.
unfoldable pub row_status : Reconciler → Subscription → ℕ → EntitlementStatus × Option ℕ
row_status r sub now =
    let (start, has_start) = sub_period_start sub now in
    map_status sub.status start (sub_ended_at sub) (if has_start then r.grace else 0) now

-- The upsert, and the reload notify unless a pass sends it; its error is only logged.
unfoldable pub settled : Option StoreError → List Effect → Entitlement → Bool → Outcome
settled (some x) before e pass = record { error = some (upsert_failed x); effects = before }
settled none before e true = record { error = none; effects = before ++ (upsert e ∷ []) }
settled none before e false = record { error = none; effects = before ++ (upsert e ∷ notify ∷ []) }

abbrev pub written : Reconciler → List Effect → Entitlement → Bool → Outcome
written r before e pass = settled (r.upsert_error e) before e pass

abbrev pub is_ended : EntitlementStatus → Bool
is_ended ended = true
is_ended _ = false

abbrev pub no_stores : List Text → Bool
no_stores [] = true
no_stores (s ∷ ss) = false

-- What follows Resolve; on an ended row the picked keys stand in for the scope.
unfoldable pub with_scope :
    Reconciler
    → List Effect
    → Account
    → Subscription
    → Plan
    → EntitlementStatus × Option ℕ
    → Bool
    → Result ResolveError ResolvedPlan
    → Outcome
unfolding settled stripe_entitlement
with_scope r before account sub p st pass (ok resolved) =
    written r before (stripe_entitlement r account sub p resolved.scope resolved.modes st) pass
with_scope r before account sub p st pass (err x) =
    if not (is_ended st.0) || no_stores p.stores
    then failed before sub (unresolved x) pass
    else written r (before ++ (alert_stores sub.id x ∷ []))
        (stripe_entitlement r account sub p (join p.stores (codes ","))
          (plan_modes r.catalog (package_of r.catalog p.package_key) p.mode_addons) st)
        pass

abbrev pub mismatch_alert : Text → Option (List (Text × ℕ) × List (Text × ℕ)) → List Effect
mismatch_alert id none = []
mismatch_alert id (some (got, want)) = alert_mismatch id got want ∷ []

unfoldable pub with_plan :
    Reconciler → Subscription → Bool → ℕ → Account → Result PlanError Plan → Outcome
unfolding row_status with_scope
with_plan r sub pass now account (err e) = failed [] sub (invalid_plan e) pass
with_plan r sub pass now account (ok p) =
    with_scope r (mismatch_alert sub.id (item_mismatch r.catalog p sub)) account sub p
      (row_status r sub now) pass (resolve r.catalog p r.stores)

unfoldable pub with_account :
    Reconciler → Subscription → Bool → ℕ → Plan → Result ReconcileError Account → Outcome
unfolding with_plan
with_account r sub pass now p (err e) = failed [] sub e pass
with_account r sub pass now p (ok account) =
    with_plan r sub pass now account (normalize r.catalog p)

unfoldable pub with_metadata :
    Reconciler → Subscription → Bool → ℕ → Result MetadataError (Plan × ℤ) → Outcome
unfolding with_account find_account
with_metadata r sub pass now (err x) = failed [] sub no_plan pass
with_metadata r sub pass now (ok (p, account_id)) =
    with_account r sub pass now p (find_account r account_id sub)

-- apply
unfoldable pub apply : Reconciler → Subscription → Bool → ℕ → Outcome
unfolding with_metadata
apply r sub pass now = with_metadata r sub pass now (plan_from_metadata sub.metadata)

-- fetchAndApply, with the subscription's lock held throughout
unfoldable pub fetch_and_apply : Reconciler → Text → Bool → ℕ → Outcome
unfolding apply
fetch_and_apply r sub_id pass now = elim (r.get_subscription sub_id) [
  | none ↦ record { error = some fetch_failed; effects = [] }
  | some sub ↦ apply r sub pass now
]

-- Reconciler.Subscription
pub reconcile_subscription : Reconciler → Text → ℕ → Outcome
unfolding fetch_and_apply
reconcile_subscription r sub_id now = fetch_and_apply r sub_id false now
