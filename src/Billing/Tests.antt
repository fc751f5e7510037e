-- ===== src/Billing/Tests.antt =====
-- A catalog, plans and subscriptions of billing/ at which the theorems apply.
use api_gatewahy.Base.{
  ℕ, ◌+◌, ◌<◌, ◌≡◌, ◌≢◌, ◌↔◌, refl, ℤ, pos, Bool, true, false, ◌&&◌, ◌||◌, Option, none, some, List,
  [], ◌∷◌, ◌++◌, Text, codes, eqb, eqb_iff, is_empty, contains, all, lookup, length, Result, ok,
  err, arith, if◌then◌else◌,
}
use api_gatewahy.ApiAccess.Entitlement.{ended, active_at}
use api_gatewahy.Billing.Plan.{
  Package, Interval, Addon, Catalog, Plan, LineItem, scope_explicit, line_items,
}
use api_gatewahy.Billing.Plan.Normal.{normalize}
use api_gatewahy.Billing.Plan.Normal.Laws.{Normalized, normalize-Normalized}
use api_gatewahy.Billing.Plan.Metadata.{metadata, plan_from_metadata, plan_from_metadata-metadata}
use api_gatewahy.Billing.Plan.Bills.{total}
use api_gatewahy.Billing.Plan.{addon_extra_game}
use api_gatewahy.Billing.Plan.Amounts.{
  KeysApart, plus, billed_package, billed_stores, billed_beyond, billed_modes, total-amounts,
}
use api_gatewahy.Billing.Resolve.{ResolvedPlan, SiteStores, StoreFamily}
use api_gatewahy.Billing.Subscription.{
  Subscription, SubscriptionItem, SubscriptionStatus, sub_active, sub_past_due, sub_other,
  map_status, unix_time,
}
use api_gatewahy.Billing.Reconcile.{
  Account, Reconciler, stripe_entitlement, row_status, find_account, apply, not_found,
}
use api_gatewahy.Billing.Reconcile.Row.{entitled, active_at-map_status, Settles, apply-Settles}
use api_gatewahy.Billing.Reconcile.Ended.{EndsAccess, apply-EndsAccess}
use api_gatewahy.Billing.Reconcile.Pass.Fetched.{Fetched}
use api_gatewahy.Billing.ChangePlan.{ChangeEnv, SubscriptionUpdate, always_invoice, change_plan}
use api_gatewahy.Billing.ChangePlan.Laws.{Sent, change_plan-sent}

abbrev pro : Package
pro = record {
  key = codes "pro";
  name = codes "Pro";
  store_scope = scope_explicit;
  modes = codes "retail" ∷ [];
  monthly = 1000;
  included_stores = 1;
  lookback_days = 0;
}

abbrev monthly : Interval
monthly = record { key = codes "month"; public = true }

abbrev sealed_addon : Addon
sealed_addon = record {
  key = codes "sealed";
  name = codes "Sealed";
  grants_mode = codes "sealed";
  monthly = 500;
}

abbrev catalog : Catalog
catalog = record {
  find_package = λ k. if eqb k (codes "pro") then some pro else none;
  find_interval = λ k. if eqb k (codes "month") then some monthly else none;
  addon = λ k. if eqb k (codes "sealed") then some sealed_addon else none;
  included_games = 1;
  lookup_key = λ k iv. k ++ iv;
  applies = λ a k. true;
  interval_amount = λ iv n. some n;
  addon_amount = λ a iv n. some (a.monthly + n);
}

abbrev chosen : Plan
chosen = record {
  package_key = codes "pro";
  interval = codes "month";
  games = codes " Magic" ∷ codes "magic" ∷ [];
  stores = codes "TCG" ∷ [];
  mode_addons = codes "Sealed" ∷ [];
}

abbrev canonical : Plan
canonical = record {
  package_key = codes "pro";
  interval = codes "month";
  games = codes "magic" ∷ [];
  stores = codes "tcg" ∷ [];
  mode_addons = codes "sealed" ∷ [];
}

normalize-chosen : normalize catalog chosen ≡ ok canonical
unfolding normalize eqb api_gatewahy.Billing.Plan.dedupe api_gatewahy.Base.to_lower
    api_gatewahy.Base.trim_space contains api_gatewahy.Base.sort line_items
    api_gatewahy.Billing.Plan.addon_item
normalize-chosen = refl

normalize-Normalized_example : Normalized catalog chosen canonical
normalize-Normalized_example = normalize-Normalized catalog chosen normalize-chosen

own_key :
    (k : Text) (pkg : Package)
    → catalog.find_package k ≡ some pkg
    → catalog.find_package pkg.key ≡ some pkg
unfolding eqb
own_key k pkg h = ground (arith, eqb_iff k (codes "pro"))

normalize-canonical : normalize catalog canonical ≡ ok canonical
unfolding normalize eqb api_gatewahy.Billing.Plan.dedupe api_gatewahy.Base.to_lower
    api_gatewahy.Base.trim_space contains api_gatewahy.Base.sort line_items
    api_gatewahy.Billing.Plan.addon_item
normalize-canonical = refl

reads_canonical : plan_from_metadata (metadata canonical 7) ≡ ok (canonical, pos 7)
unfolding eqb api_gatewahy.Base.trim_space
reads_canonical = plan_from_metadata-metadata canonical 7 refl refl refl refl refl (omega arith)

plan_from_metadata-metadata_example :
    plan_from_metadata (metadata canonical 7) ≡ ok (canonical, pos 7)
unfolding eqb api_gatewahy.Base.trim_space
plan_from_metadata-metadata_example =
    plan_from_metadata-metadata canonical 7 refl refl refl refl refl (omega arith)

total-canonical : total catalog canonical ≡ some 1501
unfolding total line_items eqb api_gatewahy.Billing.Plan.addon_item
total-canonical = refl

canonical-KeysApart : KeysApart catalog canonical
unfolding eqb
canonical-KeysApart = record { store_apart = refl; game_apart = refl; modes_apart = refl }

total-amounts_example :
    total catalog canonical
    ≡ plus (billed_package catalog canonical) (
        plus (billed_stores catalog canonical) (
          plus
            (billed_beyond catalog canonical addon_extra_game
              (length canonical.games)
              catalog.included_games)
            (billed_modes catalog canonical canonical.mode_addons)))
total-amounts_example = total-amounts catalog canonical canonical-KeysApart

abbrev customer : Account
customer = record {
  id = 7;
  email = codes "a@b.c";
  status = codes "active";
  created_at = 0;
  note = [];
  stripe_customer_id = codes "cus_1";
  session_epoch = 0;
}

abbrev canceled : Subscription
canceled = record {
  id = codes "sub_1";
  status = sub_other (codes "canceled");
  customer = some (codes "cus_1");
  metadata = metadata canonical 7;
  items = [];
  ended_at = 100;
}

-- The store lists cannot be read.
abbrev offline : Reconciler
offline = record {
  catalog = catalog;
  stores = none;
  grace = 60;
  get_subscription = λ id. some canceled;
  list_subscriptions = some (canceled ∷ []);
  get_account = λ id. ok customer;
  get_account_by_customer = λ c. err not_found;
  upsert_error = λ e. none;
  list_active_refs = λ es. some [];
}

apply-Settles_example : Settles (codes "sub_1") (apply offline canceled false 200)
apply-Settles_example = apply-Settles offline canceled false 200

account_found : find_account offline (pos 7) canceled ≡ ok customer
unfolding find_account
account_found = refl

canceled_status : row_status offline canceled 200 ≡ (ended, some (unix_time 100))
unfolding row_status map_status api_gatewahy.Billing.Subscription.sub_ended_at
canceled_status = refl

apply-EndsAccess_example : EndsAccess customer canceled (apply offline canceled false 200)
apply-EndsAccess_example =
    apply-EndsAccess offline canceled false 200 own_key (λ e. refl) reads_canonical account_found
      normalize-canonical canceled_status

active_at-map_status_example :
    active_at
      (stripe_entitlement offline customer canceled canonical
        (codes "tcg")
        []
        (map_status sub_past_due 10 0 60 20))
      30
    ≡ entitled sub_past_due 10 60 30
active_at-map_status_example =
    active_at-map_status offline customer canceled canonical (codes "tcg") [] sub_past_due 10 0 60
      20 30

abbrev magic_stores : SiteStores
magic_stores = record {
  game = codes "magic";
  implied = [];
  stores = record { key = codes "tcg"; name = codes "TCG"; shorthands = codes "TCG" ∷ [] } ∷ [];
}

abbrev online : ChangeEnv
online = record {
  catalog = catalog;
  stores = some (λ g. some magic_stores);
  games = codes "magic" ∷ [];
  get_subscription = λ id. some canceled;
  list_prices = some (
      record { id = codes "p1"; lookup_key = codes "promonth"; active = true }
      ∷ record { id = codes "p2"; lookup_key = codes "sealedmonth"; active = true }
      ∷ []);
  update_fails = λ id u. false;
  reconcile = λ id. none;
}

abbrev sent_or_none : Option SubscriptionUpdate → SubscriptionUpdate
sent_or_none none = record {
  items = [];
  metadata = [];
  proration = always_invoice;
  error_if_incomplete = true;
}
sent_or_none (some u) = u

abbrev the_update : SubscriptionUpdate
the_update = sent_or_none (change_plan online customer (codes "sub_1") chosen).sent

update_sent : (change_plan online customer (codes "sub_1") chosen).sent ≡ some the_update
unfolding change_plan plan_from_metadata metadata eqb api_gatewahy.Base.parse_int
    api_gatewahy.Base.format_int api_gatewahy.Billing.Plan.Normal.validate normalize
    api_gatewahy.Billing.Plan.dedupe api_gatewahy.Base.to_lower api_gatewahy.Base.trim_space
    contains api_gatewahy.Base.sort line_items api_gatewahy.Billing.Plan.addon_item
    api_gatewahy.Billing.Resolve.resolve api_gatewahy.Base.insert_key
    api_gatewahy.Billing.Subscription.plan_items
update_sent = refl

change_plan-sent_example :
    Sent online customer
      (codes "sub_1")
      chosen
      (change_plan online customer (codes "sub_1") chosen)
      the_update
change_plan-sent_example =
    change_plan-sent online customer (codes "sub_1") chosen the_update update_sent
