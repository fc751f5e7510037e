-- ===== src/Billing/Resolve.antt =====
-- `Plan.Resolve` and `ResolvedPlan.StoreNames` of billing/stores.go: the store scope of a plan, from
-- the store lists of its game sites. A site's list is a parameter, as the interface StoreLister is.
use api_gatewahy.Base.{
  Bool, true, false, Option, none, some, List, [], ◌∷◌, ◌++◌, Text, codes, eqb, is_empty, contains,
  join, sort, lookup, insert_key, Result, ok, err, ◌>>=◌, if◌then◌else◌,
}
use api_gatewahy.Billing.Plan.{Package, Catalog, Plan, scope_explicit, dedupe}
use api_gatewahy.Billing.Plan.Bills.{plan_modes}

pub record StoreFamily : Type 0 where
  pub key : Text
  pub name : Text
  pub shorthands : List Text

pub record SiteStores : Type 0 where
  pub game : Text
  pub implied : List StoreFamily
  pub stores : List StoreFamily

pub record ResolvedPlan : Type 0 where
  pub plan : Plan
  pub scope : Text
  pub modes : List Text
  pub implied : List Text
  pub names : List (Text × Text)

-- `no_lister`, `site_failed` and `no_shorthands` are ErrStoresUnavailable.
pub data ResolveError : Type 0 where
  package_unknown store_not_available : Text → ResolveError
  no_lister no_shorthands : ResolveError
  site_failed : Text → ResolveError

-- The list of a game's site, or `none` for an error of the lister.
abbrev pub StoreLister : Type 0
StoreLister = Text → Option SiteStores

-- What the loop over the games has gathered.
pub record Gathered : Type 0 where
  pub shorthands : List Text
  pub implied : List Text
  pub names : List (Text × Text)

unfoldable pub gather_implied : Gathered → List StoreFamily → Gathered
gather_implied g [] = g
gather_implied g (f ∷ fs) =
    let next : Gathered = record {
      shorthands = g.shorthands ++ f.shorthands;
      implied = if contains g.implied f.name then g.implied else g.implied ++ (f.name ∷ []);
      names = g.names;
    } in
    gather_implied next fs

abbrev seen : Option Text → Bool
seen none = false
seen (some n) = true

unfoldable pub gather_family : Plan → Gathered → StoreFamily → Gathered
gather_family p g f =
    let taken : Gathered = record {
      shorthands = g.shorthands ++ f.shorthands;
      implied = g.implied;
      names = if seen (lookup f.key g.names) then g.names else insert_key f.key f.name g.names;
    } in
    if contains p.stores f.key then taken else g

unfoldable pub gather_stores : Plan → Gathered → List StoreFamily → Gathered
unfolding gather_family
gather_stores p g [] = g
gather_stores p g (f ∷ fs) = gather_stores p (gather_family p g f) fs

unfoldable pub gather : Plan → StoreLister → Gathered → List Text → Result ResolveError Gathered
unfolding gather_implied gather_stores
gather p lister g [] = ok g
gather p lister g (game ∷ games) = elim (lister game) [
  | none ↦ err (site_failed game)
  | some site ↦ gather p lister (gather_stores p (gather_implied g site.implied) site.stores) games
]

-- The first picked key that no site lists.
unfoldable pub missing_store : List (Text × Text) → List Text → Option Text
missing_store names [] = none
missing_store names (k ∷ ks) =
    let rest = missing_store names ks in if seen (lookup k names) then rest else some k

unfoldable pub resolved_scope : List Text → Result ResolveError Text
resolved_scope [] = err no_shorthands
resolved_scope (s ∷ ss) = ok (join (sort (s ∷ ss)) (codes ","))

abbrev pub resolved :
    Catalog → Plan → Package → Text → List Text → List (Text × Text) → ResolvedPlan
resolved cat p pkg scope implied names = record {
  plan = p;
  scope = scope;
  modes = plan_modes cat pkg p.mode_addons;
  implied = implied;
  names = names;
}

abbrev pub map_ok :
    (Text → ResolvedPlan) → Result ResolveError Text → Result ResolveError ResolvedPlan
map_ok f (ok s) = ok (f s)
map_ok f (err e) = err e

unfoldable pub after_gather : Catalog → Plan → Package → Gathered → Result ResolveError ResolvedPlan
unfolding missing_store resolved_scope
after_gather cat p pkg g = elim (missing_store g.names p.stores) [
  | some k ↦ err (store_not_available k)
  | none ↦
      map_ok (λ scope. resolved cat p pkg scope g.implied g.names)
        (resolved_scope (dedupe g.shorthands (λ s. s)))
]

unfoldable pub resolve_explicit :
    Catalog → Plan → Package → Option StoreLister → Result ResolveError ResolvedPlan
unfolding gather after_gather
resolve_explicit cat p pkg none = err no_lister
resolve_explicit cat p pkg (some lister) =
    gather p lister (record { shorthands = []; implied = []; names = [] }) p.games
    >>= after_gather cat p pkg

unfoldable pub resolve_package :
    Catalog → Plan → Option StoreLister → Option Package → Result ResolveError ResolvedPlan
unfolding resolve_explicit
resolve_package cat p lister none = err (package_unknown p.package_key)
resolve_package cat p lister (some pkg) =
    if eqb pkg.store_scope scope_explicit
    then resolve_explicit cat p pkg lister
    else ok (resolved cat p pkg pkg.store_scope [] [])

-- `Resolve` of a plan
unfoldable pub resolve : Catalog → Plan → Option StoreLister → Result ResolveError ResolvedPlan
unfolding resolve_package
resolve cat p lister = resolve_package cat p lister (cat.find_package p.package_key)

-- The loop of StoreNames over the picked keys.
unfoldable pub picked_names : List (Text × Text) → List Text → List Text
picked_names names [] = []
picked_names names (k ∷ ks) =
    let rest = picked_names names ks in
    elim (lookup k names) [ none ↦ rest | some n ↦ if is_empty n then rest else n ∷ rest ]

-- ResolvedPlan.StoreNames
pub store_names : ResolvedPlan → List Text
unfolding picked_names
store_names r = r.implied ++ picked_names r.names r.plan.stores
