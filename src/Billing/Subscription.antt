-- ===== src/Billing/Subscription.antt =====
-- What billing/ reads of a Stripe subscription: `MapStatus`, `subPeriodStart`, `subEndedAt`,
-- `priceLookupKey`, `planItems` and `itemMismatch` of billing/reconcile.go, and `SubscriptionFor` of
-- billing/subscription.go. Times are nanoseconds since Go's zero time, and 0 is the zero time.
use api_gatewahy.Base.{
  ℕ, ◌+◌, ◌*◌, Bool, true, false, not, ◌&&◌, ◌||◌, Option, none, some, List, [], ◌∷◌, Text, codes,
  is_empty, lookup, insert_key, length, all, leb, ◌==◌, Result, ok, err, if◌then◌else◌,
}
use api_gatewahy.ApiAccess.Entitlement.{
  Entitlement, EntitlementStatus, active, ended, is_active_stripe_plan,
}
use api_gatewahy.Billing.Plan.{Catalog, Plan, LineItem, line_items}
use api_gatewahy.Billing.Plan.Metadata.{value_at}

-- stripe.SubscriptionStatus: the statuses that MapStatus names, and the others.
pub data SubscriptionStatus : Type 0 where
  sub_active sub_trialing sub_past_due : SubscriptionStatus
  sub_other : Text → SubscriptionStatus

pub record Price : Type 0 where
  pub id : Text
  pub lookup_key : Text
  pub metadata : List (Text × Text)

pub record SubscriptionItem : Type 0 where
  pub id : Text
  pub price : Option Price
  pub quantity : ℕ
  pub current_period_start : ℕ

pub record Subscription : Type 0 where
  pub id : Text
  pub status : SubscriptionStatus
  pub customer : Option Text
  pub metadata : List (Text × Text)
  pub items : List SubscriptionItem
  pub ended_at : ℕ

-- time.Unix(t, 0): the zero time is 62135596800 seconds before the Unix epoch.
abbrev pub unix_time : ℕ → ℕ
unix_time t = (t + 62135596800) * 1000000000

abbrev ended_status : ℕ → EntitlementStatus × Option ℕ
ended_status t = (ended, some t)

-- MapStatus
unfoldable pub map_status : SubscriptionStatus → ℕ → ℕ → ℕ → ℕ → EntitlementStatus × Option ℕ
map_status sub_active period_start ended_at grace now = (active, none)
map_status sub_trialing period_start ended_at grace now = (active, none)
map_status sub_past_due period_start ended_at grace now = (active, some (period_start + grace))
map_status (sub_other s) period_start ended_at grace now =
    ended_status (if ended_at == 0 then now else ended_at)

-- The loop of subPeriodStart.
unfoldable latest_start : ℕ → List SubscriptionItem → ℕ
latest_start start [] = start
latest_start start (it ∷ its) =
    latest_start (if leb start it.current_period_start then it.current_period_start else start) its

-- subPeriodStart
unfoldable pub sub_period_start : Subscription → ℕ → ℕ × Bool
unfolding latest_start
sub_period_start sub now =
    if latest_start 0 sub.items == 0
    then (now, false)
    else (unix_time (latest_start 0 sub.items), true)

-- subEndedAt
unfoldable pub sub_ended_at : Subscription → ℕ
sub_ended_at sub = if sub.ended_at == 0 then 0 else unix_time sub.ended_at

-- priceLookupKey
unfoldable pub price_lookup_key : Catalog → Price → Text
price_lookup_key cat p =
    let item =
      if is_empty (value_at p.metadata (codes "package"))
      then value_at p.metadata (codes "addon")
      else value_at p.metadata (codes "package") in
    let iv = value_at p.metadata (codes "interval_key") in
    if not (is_empty p.lookup_key)
    then p.lookup_key
    else if is_empty item || is_empty iv
    then []
    else cat.lookup_key item iv

unfoldable wanted : List (Text × ℕ) → List LineItem → List (Text × ℕ)
wanted want [] = want
wanted want (li ∷ lis) = wanted (insert_key li.lookup_key li.quantity want) lis

-- planItems
unfoldable pub plan_items : Catalog → Plan → List (Text × ℕ)
unfolding wanted
plan_items cat p = wanted [] (line_items cat p)

-- m[k], which is 0 on a missing key
abbrev pub count_or_zero : Option ℕ → ℕ
count_or_zero none = 0
count_or_zero (some n) = n

unfoldable billed_items : Catalog → List (Text × ℕ) → List SubscriptionItem → List (Text × ℕ)
billed_items cat got [] = got
billed_items cat got (it ∷ its) = elim it.price [
  | none ↦ billed_items cat got its
  | some p ↦
      let key = price_lookup_key cat p in
      billed_items cat (insert_key key (count_or_zero (lookup key got) + it.quantity) got) its
]

abbrev pub holds_count : Option ℕ → ℕ → Bool
holds_count none n = false
holds_count (some m) n = m == n

-- maps.Equal
abbrev pub maps_equal : List (Text × ℕ) → List (Text × ℕ) → Bool
maps_equal m n = length m == length n && all (λ kv. holds_count (lookup kv.0 n) kv.1) m

-- itemMismatch: the two maps of its message, or `none` for the empty message.
unfoldable pub item_mismatch :
    Catalog → Plan → Subscription → Option (List (Text × ℕ) × List (Text × ℕ))
unfolding billed_items
item_mismatch cat p sub =
    let want = plan_items cat p in
    let got = billed_items cat [] sub.items in
    if maps_equal want got then none else some (got, want)

-- The refusals of SubscriptionFor; the second is ErrManySubscriptions, with the references.
pub data SubscriptionError : Type 0 where
  no_subscription : SubscriptionError
  many_subscriptions : List Text → SubscriptionError

unfoldable pub stripe_refs : List Entitlement → List Text
stripe_refs [] = []
stripe_refs (e ∷ es) =
    let rest = stripe_refs es in
    if is_active_stripe_plan e && not (is_empty e.external_ref) then e.external_ref ∷ rest else rest

-- SubscriptionFor
pub subscription_for : List Entitlement → Result SubscriptionError Text
unfolding stripe_refs
subscription_for ents = elim (stripe_refs ents) [
  | [] ↦ err no_subscription
  | r ∷ rs ↦ elim rs [ [] ↦ ok r | s ∷ ss ↦ err (many_subscriptions (r ∷ s ∷ ss)) ]
]
