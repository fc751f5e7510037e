-- ===== src/Billing/Plan/Normal/Laws.antt =====
-- What `Plan.Normalize` and `Plan.Validate` of billing/plan.go promise.
use api_gatewahy.Base.{
  ◌≡◌, ◌≢◌, refl, subst, Bool, true, false, not, ◌&&◌, ◌||◌, Option, none, some, List, [], ◌∷◌,
  Text, eqb, contains, to_lower, sort, contains-sort, eqb_refl, inl, inr, Bool-cases, all, Result,
  ok, err, ◌>>=◌, arith, Option-cases,
}
use api_gatewahy.ApiAccess.Entitlement.{valid_modes}
use api_gatewahy.Billing.Plan.{
  Package, Interval, Addon, Catalog, Plan, LineItem, scope_explicit, dedupe, line_items,
}
use api_gatewahy.Billing.Plan.Normal.{
  PlanError, is_nil, addon_refusal, addons_refusal, item_applies, items_refusal, stores_refusal,
  canonical_plan, refuse, checked_plan, with_interval, with_package, normalize, unknown_in,
  is_public, validated, validate,
}
use api_gatewahy.Billing.Plan.Normal.Dedupe.{is_canonical, names_key, sort-dedupe}

-- The add-on is in the catalog, grants a mode that the gateway serves, and applies to the package.
abbrev pub grants_served : Catalog → Package → Option Addon → Bool
grants_served cat pkg none = false
grants_served cat pkg (some a) = contains valid_modes a.grants_mode && cat.applies a pkg.key

abbrev pub billed : Catalog → Package → LineItem → Bool
billed cat pkg li = eqb li.key pkg.key || item_applies cat pkg (cat.addon li.key)

-- What holds of the result `q` of normalizing `p`.
pub record Normalized (cat : Catalog) (p q : Plan) : Type 0 where
  pub pkg : Package
  pub found : cat.find_package p.package_key ≡ some pkg
  pub package_is : q.package_key ≡ pkg.key
  pub interval_is : q.interval ≡ p.interval
  pub interval_found : cat.find_interval p.interval ≢ none
  pub games_canonical : is_canonical q.games ≡ true
  pub games_are : (g : Text) → contains q.games g ≡ names_key p.games g
  pub games_some : q.games ≢ []
  pub stores_canonical : is_canonical q.stores ≡ true
  pub stores_are : (s : Text) → contains q.stores s ≡ names_key p.stores s
  pub stores_iff : is_nil q.stores ≡ not (eqb pkg.store_scope scope_explicit)
  pub addons_canonical : is_canonical q.mode_addons ≡ true
  pub addons_are : (k : Text) → contains q.mode_addons k ≡ names_key p.mode_addons k
  pub addons_granted : all (λ k. grants_served cat pkg (cat.addon k)) q.mode_addons ≡ true
  pub items_billed : all (billed cat pkg) (line_items cat q) ≡ true

addon_refusal-eq_none :
    (cat : Catalog) (pkg : Package) (k : Text) (a : Option Addon)
    → addon_refusal cat pkg k a ≡ none
    → grants_served cat pkg a ≡ true
unfolding addon_refusal
addon_refusal-eq_none cat pkg k none h = ground arith
addon_refusal-eq_none cat pkg k (some a) h = ground arith

addons_refusal-eq_none :
    (cat : Catalog) (pkg : Package) (ks : List Text)
    → addons_refusal cat pkg ks ≡ none
    → all (λ k. grants_served cat pkg (cat.addon k)) ks ≡ true
unfolding addons_refusal
addons_refusal-eq_none cat pkg [] h = refl
addons_refusal-eq_none cat pkg (k ∷ ks) h =
    elim (Option-cases (addon_refusal cat pkg k (cat.addon k))) [
      | inl n ↦
          ground (
            arith,
            addon_refusal-eq_none cat pkg k (cat.addon k),
            addons_refusal-eq_none cat pkg ks,
          )
      | inr (e, s) ↦ ground arith
    ]

items_refusal-eq_none :
    (cat : Catalog) (pkg : Package) (lis : List LineItem)
    → items_refusal cat pkg lis ≡ none
    → all (billed cat pkg) lis ≡ true
unfolding items_refusal
items_refusal-eq_none cat pkg [] h = refl
items_refusal-eq_none cat pkg (li ∷ lis) h = ground (arith, items_refusal-eq_none cat pkg lis)

stores_refusal-eq_none :
    (pkg : Package) (stores : List Text)
    → stores_refusal pkg stores ≡ none
    → is_nil stores ≡ not (eqb pkg.store_scope scope_explicit)
unfolding stores_refusal
stores_refusal-eq_none pkg stores h = ground arith

refuse-eq_ok :
    (o : Option PlanError) (r : Result PlanError Plan) {q : Plan}
    → refuse o r ≡ ok q
    → (o ≡ none) × (r ≡ ok q)
refuse-eq_ok none r h = (refl, h)
refuse-eq_ok (some e) r h = ground arith

checked_plan-eq_ok :
    (cat : Catalog) (pkg : Package) (out : Plan) {q : Plan}
    → checked_plan cat pkg out ≡ ok q
    → (stores_refusal pkg out.stores ≡ none)
      × (addons_refusal cat pkg out.mode_addons ≡ none)
      × (items_refusal cat pkg (line_items cat out) ≡ none)
      × (out ≡ q)
unfolding checked_plan
checked_plan-eq_ok cat pkg out h =
    let (s, h1) = refuse-eq_ok (stores_refusal pkg out.stores) _ h in
    let (a, h2) = refuse-eq_ok (addons_refusal cat pkg out.mode_addons) _ h1 in
    let (i, h3) = refuse-eq_ok (items_refusal cat pkg (line_items cat out)) _ h2 in
    (s, a, i, ground arith)

sort-nonempty : (xs : List Text) → is_nil xs ≡ false → sort xs ≢ []
unfolding contains
sort-nonempty [] h = ground arith
sort-nonempty (x ∷ xs) h = λ e. ground (arith, e, contains-sort (x ∷ xs) x, eqb_refl x)

canonical_plan-Normalized :
    (cat : Catalog) (p : Plan) (pkg : Package)
    → cat.find_package p.package_key ≡ some pkg
    → cat.find_interval p.interval ≢ none
    → is_nil (dedupe p.games to_lower) ≡ false
    → stores_refusal pkg (canonical_plan p pkg).stores ≡ none
    → addons_refusal cat pkg (canonical_plan p pkg).mode_addons ≡ none
    → items_refusal cat pkg (line_items cat (canonical_plan p pkg)) ≡ none
    → Normalized cat p (canonical_plan p pkg)
unfolding canonical_plan
canonical_plan-Normalized cat p pkg f i n s a l = record {
  pkg = pkg;
  found = f;
  package_is = refl;
  interval_is = refl;
  interval_found = i;
  games_canonical = (sort-dedupe p.games).0;
  games_are = (sort-dedupe p.games).1;
  games_some = sort-nonempty _ n;
  stores_canonical = (sort-dedupe p.stores).0;
  stores_are = (sort-dedupe p.stores).1;
  stores_iff = stores_refusal-eq_none pkg _ s;
  addons_canonical = (sort-dedupe p.mode_addons).0;
  addons_are = (sort-dedupe p.mode_addons).1;
  addons_granted = addons_refusal-eq_none cat pkg _ a;
  items_billed = items_refusal-eq_none cat pkg _ l;
}

with_interval-eq_ok :
    (cat : Catalog) (p : Plan) (pkg : Package) (iv : Option Interval) {q : Plan}
    → cat.find_package p.package_key ≡ some pkg
    → cat.find_interval p.interval ≡ iv
    → with_interval cat p pkg iv ≡ ok q
    → Normalized cat p q
unfolding with_interval
with_interval-eq_ok cat p pkg none f i h = ground arith
with_interval-eq_ok cat p pkg (some iv) {q = q} f i h =
    elim (Bool-cases (is_nil (dedupe p.games to_lower))) [
      | inl y ↦ ground arith
      | inr n ↦
          let (s, a, l, e) =
            checked_plan-eq_ok cat pkg (canonical_plan p pkg) {q = q} (ground arith) in
          subst (λ x. Normalized cat p x) e
            (canonical_plan-Normalized cat p pkg f (ground arith) n s a l)
    ]

with_package-eq_ok :
    (cat : Catalog) (p : Plan) (o : Option Package) {q : Plan}
    → cat.find_package p.package_key ≡ o
    → with_package cat p o ≡ ok q
    → Normalized cat p q
unfolding with_package
with_package-eq_ok cat p none f h = ground arith
with_package-eq_ok cat p (some pkg) f h =
    with_interval-eq_ok cat p pkg (cat.find_interval p.interval) f refl h

-- A plan that Normalize returns is of a package and an interval of the catalog; its games, stores
-- and mode add-ons are what the chosen ones name but for case, blanks and order, each once and
-- sorted; it has a game, and a store exactly on an explicit package; each mode add-on is one of the
-- catalog's that grants a served mode; and all that it bills applies to the package.
pub normalize-Normalized :
    (cat : Catalog) (p : Plan) {q : Plan} → normalize cat p ≡ ok q → Normalized cat p q
unfolding normalize
normalize-Normalized cat p h = with_package-eq_ok cat p (cat.find_package p.package_key) refl h

unknown_in-eq_none :
    (known gs : List Text) → unknown_in known gs ≡ none → all (contains known) gs ≡ true
unfolding unknown_in
unknown_in-eq_none known [] h = refl
unknown_in-eq_none known (g ∷ gs) h = ground (arith, unknown_in-eq_none known gs)

validated-eq_ok :
    (cat : Catalog) (known : List Text) (have_invite : Bool) (r : Result PlanError Plan) {q : Plan}
    → (r >>= validated cat known have_invite) ≡ ok q
    → (r ≡ ok q)
      × (all (contains known) q.games ≡ true)
      × ((is_public (cat.find_interval q.interval) || have_invite) ≡ true)
unfolding validated
validated-eq_ok cat known have_invite (err e) h = ground arith
validated-eq_ok cat known have_invite (ok p) {q = q} h =
    let (u, h1) = refuse-eq_ok (unknown_in known p.games) _ h in
    let games = unknown_in-eq_none known p.games u in ground arith

-- A plan that Validate returns is Normalize's, all its games are known, and its interval is public
-- unless the customer has an invite.
pub validate-eq_ok :
    (cat : Catalog) (p : Plan) (known : List Text) (have_invite : Bool) {q : Plan}
    → validate cat p known have_invite ≡ ok q
    → (normalize cat p ≡ ok q)
      × (all (contains known) q.games ≡ true)
      × ((is_public (cat.find_interval q.interval) || have_invite) ≡ true)
unfolding validate
validate-eq_ok cat p known have_invite h = validated-eq_ok cat known have_invite (normalize cat p) h
