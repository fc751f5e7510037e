-- ===== src/Billing/Checkout/Tests.antt =====
-- Checkouts of billing/checkout.go over the store of apiaccess/apiaccesstest/memstore.go.
use api_gatewahy.Base.{
  ℕ, ◌≡◌, refl, Bool, true, false, ◌&&◌, Option, none, some, List, [], ◌∷◌, ◌++◌, Text, codes, eqb,
  Result, ok, err, if◌then◌else◌,
}
use api_gatewahy.ApiAccess.Entitlement.{Entitlement, has_active_stripe_plan}
use api_gatewahy.ApiAccess.Key.{Account, active}
use api_gatewahy.ApiAccess.MemStore.{MemStore, StoreError, new}
use api_gatewahy.ApiAccess.MemStore.Accounts.{create_account}
use api_gatewahy.ApiAccess.MemStore.Tokens.{create_invite}
use api_gatewahy.ApiAccess.MemStore.Invites.{invite_of}
use api_gatewahy.Billing.Plan.{Package, Interval, Addon, Catalog, Plan}
use api_gatewahy.Billing.ChangePlan.{ListedPrice}
use api_gatewahy.Billing.Checkout.{
  Checkout, CheckoutRequest, CheckoutError, create_failed, Session, StripeApi, StripeCall, World,
  create, is_active_account,
}
use api_gatewahy.Billing.Checkout.Stored.{checkout_store, invite_laws}
use api_gatewahy.Billing.Checkout.Release.{create-Returns}
use api_gatewahy.Billing.Checkout.Allowed.{Paid, create-Paid}

abbrev hash : Text → Text
hash s = s

abbrev base : Package
base = record {
  key = codes "base";
  name = codes "Base";
  store_scope = codes "BASE_ACCESS";
  modes = codes "retail" ∷ [];
  monthly = 1000;
  included_stores = 0;
  lookback_days = 0;
}

abbrev yearly : Interval
yearly = record { key = codes "year"; public = false }

abbrev small_catalog : Catalog
small_catalog = record {
  find_package = λ k. if eqb k (codes "base") then some base else none;
  find_interval = λ k. if eqb k (codes "year") then some yearly else none;
  addon = λ k. none;
  included_games = 1;
  lookup_key = λ k i. k ++ (codes "_" ++ i);
  applies = λ a k. false;
  interval_amount = λ i n. some n;
  addon_amount = λ a i n. some n;
}

abbrev base_plan : Plan
base_plan = record {
  package_key = codes "base";
  interval = codes "year";
  games = codes "mtg" ∷ [];
  stores = [];
  mode_addons = [];
}

abbrev buyer : Account
buyer = record {
  id = 1;
  email = codes "a@x.com";
  status = active;
  created_at = 0;
  note = [];
  stripe_customer_id = [];
  session_epoch = 0;
}

abbrev request : CheckoutRequest
request = record { account = buyer; plan = base_plan; invite = codes "t"; resolved = none }

abbrev stripe : Option Session → StripeApi
stripe s = record {
  list_prices = λ calls.
      some (record { id = codes "price_1"; lookup_key = codes "base_year"; active = true } ∷ []);
  customer_id = λ calls. some (codes "cus_1");
  open_sessions = λ calls c. some [];
  session = λ calls. s;
}

abbrev checkout : Option Session → Checkout MemStore StoreError
checkout s = record {
  store = checkout_store hash;
  api = stripe s;
  catalog = small_catalog;
  stores = none;
  games = codes "mtg" ∷ [];
  success_url = codes "https://x.com/ok";
  cancel_url = codes "https://x.com/no";
  now = 2_000;
}

-- The account and an invite for the yearly interval.
abbrev start : World MemStore
start = record {
  store =
      (create_invite hash 1_000 (codes "year") [] 8_000 [] (some (codes "t"))
        (create_account 1_000 (codes "a@x.com") [] new).1).1;
  calls = [];
}

create-Returns_example :
    invite_of hash (codes "t") (create (checkout none) request start).1.store
    ≡ invite_of hash (codes "t") start.store
unfolding invite_laws create api_gatewahy.ApiAccess.MemStore.Rows.list_entitlements
    api_gatewahy.Base.lookup create_invite create_account api_gatewahy.Base.find_first
    has_active_stripe_plan api_gatewahy.Base.filter api_gatewahy.Billing.Plan.Normal.validate
    api_gatewahy.Billing.Plan.Normal.normalize eqb api_gatewahy.Billing.Plan.dedupe
    api_gatewahy.Base.to_lower api_gatewahy.Base.trim_space api_gatewahy.Base.contains
    api_gatewahy.Base.sort api_gatewahy.Billing.Plan.line_items api_gatewahy.Billing.Resolve.resolve
    api_gatewahy.ApiAccess.MemStore.Tokens.consume_invite api_gatewahy.Base.insert_key
    api_gatewahy.ApiAccess.MemStore.normalize_email api_gatewahy.Billing.ChangePlan.price_ids
    api_gatewahy.Billing.Checkout.priced
    api_gatewahy.ApiAccess.MemStore.Accounts.set_stripe_customer_id
create-Returns_example =
    create-Returns (checkout none) (invite_laws hash) request start refl create_failed refl

abbrev opened : Session
opened = record { id = codes "cs_1"; url = codes "https://stripe.com/cs_1" }

abbrev listed : Result StoreError (List Entitlement) × MemStore
listed = (checkout (some opened)).store.list_entitlements 1 start.store

create-Paid_example :
    (is_active_account buyer.status ≡ true)
    × ((ents : List Entitlement) × (listed.0 ≡ ok ents) × (has_active_stripe_plan ents ≡ false))
    × Paid
        (checkout (some opened))
        request
        listed.1
        start.calls
        (create (checkout (some opened)) request start).1.calls
unfolding create api_gatewahy.ApiAccess.MemStore.Rows.list_entitlements api_gatewahy.Base.lookup
    create_invite create_account api_gatewahy.Base.find_first has_active_stripe_plan
    api_gatewahy.Base.filter api_gatewahy.Billing.Plan.Normal.validate
    api_gatewahy.Billing.Plan.Normal.normalize eqb api_gatewahy.Billing.Plan.dedupe
    api_gatewahy.Base.to_lower api_gatewahy.Base.trim_space api_gatewahy.Base.contains
    api_gatewahy.Base.sort api_gatewahy.Billing.Plan.line_items api_gatewahy.Billing.Resolve.resolve
    api_gatewahy.ApiAccess.MemStore.Tokens.consume_invite api_gatewahy.Base.insert_key
    api_gatewahy.ApiAccess.MemStore.normalize_email api_gatewahy.Billing.ChangePlan.price_ids
    api_gatewahy.Billing.Checkout.priced
    api_gatewahy.ApiAccess.MemStore.Accounts.set_stripe_customer_id
create-Paid_example = create-Paid (checkout (some opened)) request start opened refl
