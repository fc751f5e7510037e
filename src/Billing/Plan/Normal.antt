-- ===== src/Billing/Plan/Normal.antt =====
-- `Plan.Normalize` and `Plan.Validate` of billing/plan.go.
pub mod Dedupe
pub mod Laws
pub mod Again
use api_gatewahy.Base.{
  ℕ, ◌≡◌, refl, Bool, true, false, not, ◌&&◌, ◌||◌, Option, none, some, List, [], ◌∷◌, ◌++◌, Text,
  eqb, is_empty, contains, trim_space, to_lower, sort, Result, ok, err, ◌>>=◌, if◌then◌else◌,
}
use api_gatewahy.ApiAccess.Entitlement.{valid_modes}
use api_gatewahy.Billing.Plan.{
  Package, Interval, Addon, Catalog, Plan, LineItem, scope_explicit, dedupe, package_of, line_items,
}

-- The messages of `invalid`, and ErrInviteRequired.
pub data PlanError : Type 0 where
  unknown_package unknown_interval unknown_addon addon_not_picked addon_not_served :
      Text → PlanError
  addon_not_applied unknown_game takes_no_stores : Text → PlanError
  no_game no_store invite_required : PlanError

abbrev pub is_nil : List Text → Bool
is_nil [] = true
is_nil (x ∷ xs) = false

-- The `switch` of the first loop, at one mode add-on.
unfoldable addon_refusal : Catalog → Package → Text → Option Addon → Option PlanError
addon_refusal cat pkg k none = some (unknown_addon k)
addon_refusal cat pkg k (some a) =
    if is_empty a.grants_mode
    then some (addon_not_picked k)
    else if not (contains valid_modes a.grants_mode)
    then some (addon_not_served k)
    else if not (cat.applies a pkg.key)
    then some (addon_not_applied k)
    else none

unfoldable addons_refusal : Catalog → Package → List Text → Option PlanError
addons_refusal cat pkg [] = none
addons_refusal cat pkg (k ∷ ks) =
    let rest = addons_refusal cat pkg ks in
    elim (addon_refusal cat pkg k (cat.addon k)) [ some e ↦ some e | none ↦ rest ]

abbrev item_applies : Catalog → Package → Option Addon → Bool
item_applies cat pkg none = false
item_applies cat pkg (some a) = cat.applies a pkg.key

-- The second loop, over what the plan bills.
unfoldable items_refusal : Catalog → Package → List LineItem → Option PlanError
items_refusal cat pkg [] = none
items_refusal cat pkg (li ∷ lis) =
    let rest = items_refusal cat pkg lis in
    if eqb li.key pkg.key || item_applies cat pkg (cat.addon li.key)
    then rest
    else some (addon_not_applied li.key)

unfoldable stores_refusal : Package → List Text → Option PlanError
stores_refusal pkg stores =
    if eqb pkg.store_scope scope_explicit
    then (if is_nil stores then some no_store else none)
    else (if is_nil stores then none else some (takes_no_stores pkg.key))

-- The plan that Normalize builds before it checks the stores and the add-ons.
unfoldable canonical_plan : Plan → Package → Plan
canonical_plan p pkg = record {
  package_key = pkg.key;
  interval = p.interval;
  games = sort (dedupe p.games to_lower);
  stores = sort (dedupe p.stores to_lower);
  mode_addons = sort (dedupe p.mode_addons to_lower);
}

abbrev refuse : Option PlanError → Result PlanError Plan → Result PlanError Plan
refuse (some e) r = err e
refuse none r = r

unfoldable checked_plan : Catalog → Package → Plan → Result PlanError Plan
checked_plan cat pkg out = refuse (stores_refusal pkg out.stores) (
    refuse (addons_refusal cat pkg out.mode_addons)
      (refuse (items_refusal cat pkg (line_items cat out)) (ok out)))

unfoldable with_interval : Catalog → Plan → Package → Option Interval → Result PlanError Plan
unfolding canonical_plan checked_plan
with_interval cat p pkg none = err (unknown_interval p.interval)
with_interval cat p pkg (some iv) =
    if is_nil (dedupe p.games to_lower)
    then err no_game
    else checked_plan cat pkg (canonical_plan p pkg)

unfoldable with_package : Catalog → Plan → Option Package → Result PlanError Plan
with_package cat p none = err (unknown_package p.package_key)
with_package cat p (some pkg) = with_interval cat p pkg (cat.find_interval p.interval)

-- The method `Normalize`
unfoldable pub normalize : Catalog → Plan → Result PlanError Plan
unfolding with_package with_interval stores_refusal addons_refusal addon_refusal items_refusal
normalize cat p = with_package cat p (cat.find_package p.package_key)

-- The loop over the games: the first that is not known.
unfoldable unknown_in : List Text → List Text → Option PlanError
unknown_in known [] = none
unknown_in known (g ∷ gs) =
    let rest = unknown_in known gs in if contains known g then rest else some (unknown_game g)

-- A missing interval is Go's zero value, which is not public.
abbrev pub is_public : Option Interval → Bool
is_public none = false
is_public (some iv) = iv.public

unfoldable validated : Catalog → List Text → Bool → Plan → Result PlanError Plan
unfolding unknown_in
validated cat known have_invite p = refuse (unknown_in known p.games) (
    if not (is_public (cat.find_interval p.interval)) && not have_invite
    then err invite_required
    else ok p)

-- The method `Validate`
unfoldable pub validate : Catalog → Plan → List Text → Bool → Result PlanError Plan
unfolding validated
validate cat p known have_invite = normalize cat p >>= validated cat known have_invite
