-- ===== src/Billing/Plan/Normal/Again.antt =====
-- Normalizing twice: `Plan.Normalize` of billing/plan.go keeps what it returned.
use api_gatewahy.Base.{
  ◌≡◌, ◌≢◌, refl, sym, ap, ◌∙◌, true, false, not, Option, none, some, List, [], ◌∷◌, Text, eqb,
  to_lower, sort, all, ok, arith,
}
use api_gatewahy.Billing.Plan.{
  Package, Interval, Addon, Catalog, Plan, LineItem, scope_explicit, dedupe, line_items,
  valid_mode-is_empty,
}
use api_gatewahy.Billing.Plan.Normal.{
  is_nil, addon_refusal, addons_refusal, items_refusal, stores_refusal, canonical_plan,
  checked_plan, with_interval, with_package, normalize,
}
use api_gatewahy.Billing.Plan.Normal.Dedupe.{sort-dedupe_fixed}
use api_gatewahy.Billing.Plan.Normal.Laws.{grants_served, billed, Normalized, normalize-Normalized}

is_nil-dedupe :
    (xs : List Text)
    → xs ≢ []
    → sort (dedupe xs to_lower) ≡ xs
    → is_nil (dedupe xs to_lower) ≡ false
unfolding sort
is_nil-dedupe xs n e = go (dedupe xs to_lower) e
  where
    go : (ys : List Text) → sort ys ≡ xs → is_nil ys ≡ false
    go [] e = absurd (n (sym e))
    go (y ∷ ys) e = refl

canonical_plan_fixed :
    (cat : Catalog) (p q : Plan) (n : Normalized cat p q) → canonical_plan q n.pkg ≡ q
unfolding canonical_plan
canonical_plan_fixed cat p q n =
    rw
      (
        sym n.package_is,
        sort-dedupe_fixed q.games n.games_canonical,
        sort-dedupe_fixed q.stores n.stores_canonical,
        sort-dedupe_fixed q.mode_addons n.addons_canonical,
      )
      refl

addon_refusal-served :
    (cat : Catalog) (pkg : Package) (k : Text) (a : Option Addon)
    → grants_served cat pkg a ≡ true
    → addon_refusal cat pkg k a ≡ none
unfolding addon_refusal
addon_refusal-served cat pkg k none h = ground arith
addon_refusal-served cat pkg k (some a) h = ground (arith, valid_mode-is_empty a.grants_mode)

addons_refusal-served :
    (cat : Catalog) (pkg : Package) (ks : List Text)
    → all (λ k. grants_served cat pkg (cat.addon k)) ks ≡ true
    → addons_refusal cat pkg ks ≡ none
unfolding addons_refusal
addons_refusal-served cat pkg [] h = refl
addons_refusal-served cat pkg (k ∷ ks) h =
    ground (arith, addon_refusal-served cat pkg k (cat.addon k), addons_refusal-served cat pkg ks)

items_refusal-billed :
    (cat : Catalog) (pkg : Package) (lis : List LineItem)
    → all (billed cat pkg) lis ≡ true
    → items_refusal cat pkg lis ≡ none
unfolding items_refusal
items_refusal-billed cat pkg [] h = refl
items_refusal-billed cat pkg (li ∷ lis) h = ground (arith, items_refusal-billed cat pkg lis)

stores_refusal-fits :
    (pkg : Package) (stores : List Text)
    → is_nil stores ≡ not (eqb pkg.store_scope scope_explicit)
    → stores_refusal pkg stores ≡ none
unfolding stores_refusal
stores_refusal-fits pkg stores h = ground arith

checked_plan_fixed :
    (cat : Catalog) (p q : Plan) (n : Normalized cat p q) → checked_plan cat n.pkg q ≡ ok q
unfolding checked_plan
checked_plan_fixed cat p q n =
    rw
      (
        stores_refusal-fits n.pkg q.stores n.stores_iff,
        addons_refusal-served cat n.pkg q.mode_addons n.addons_granted,
        items_refusal-billed cat n.pkg (line_items cat q) n.items_billed,
      )
      refl

with_interval_fixed :
    (cat : Catalog) (p q : Plan) (n : Normalized cat p q) (iv : Option Interval)
    → iv ≢ none
    → with_interval cat q n.pkg iv ≡ ok q
unfolding with_interval
with_interval_fixed cat p q n none h = absurd (h refl)
with_interval_fixed cat p q n (some iv) h =
    rw (is_nil-dedupe q.games n.games_some (sort-dedupe_fixed q.games n.games_canonical))
      (ap (checked_plan cat n.pkg) (canonical_plan_fixed cat p q n) ∙ checked_plan_fixed cat p q n)

-- In a catalog that finds each package under its own key, Normalize accepts its result again and
-- leaves it as it is.
pub normalize_idem :
    (cat : Catalog)
    → ((k : Text) (pkg : Package)
        → cat.find_package k ≡ some pkg
        → cat.find_package pkg.key ≡ some pkg)
    → (p q : Plan) → normalize cat p ≡ ok q
    → normalize cat q ≡ ok q
unfolding normalize with_package
normalize_idem cat own p q h =
    let n = normalize-Normalized cat p h in
    ap (with_package cat q) (ap cat.find_package n.package_is ∙ own p.package_key n.pkg n.found)
    ∙ with_interval_fixed cat p q n (cat.find_interval q.interval)
        (λ e. n.interval_found (ap cat.find_interval (sym n.interval_is) ∙ e))
