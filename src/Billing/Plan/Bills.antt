-- ===== src/Billing/Plan/Bills.antt =====
-- `Plan.Total`, `planModes`, `Plan.Addons`, `Plan.Describe` and `Dollars` of billing/plan.go: what a
-- plan bills, grants and reads as.
use api_gatewahy.Base.{
  ℕ, ◌+◌, ◌/◌, ◌%◌, ◌≡◌, refl, ◌∙◌, Bool, false, ◌&&◌, ◌||◌, Option, none, some, List, [], ◌∷◌,
  ◌++◌, Text, codes, eqb, is_empty, any, contains, contains-append, contains-filter, filter,
  to_lower, join, length, drop, ◌==◌, format_int, arith, if◌then◌else◌,
}
use api_gatewahy.ApiAccess.Entitlement.{valid_modes}
use api_gatewahy.Billing.Plan.{
  Package, Addon, Catalog, Plan, LineItem, scope_explicit, package_of, line_items, interval_or_zero,
  addon_or_zero, valid_mode-is_empty,
}

-- An item of the loop of Plan.Total: `none` is the error of Interval.Amount or of Addon.Amount.
unfoldable pub item_amount : Catalog → Plan → LineItem → Option ℕ
item_amount cat p li =
    let pkg = package_of cat p.package_key in
    let iv = interval_or_zero (cat.find_interval p.interval) in
    if eqb li.key pkg.key
    then cat.interval_amount iv pkg.monthly
    else cat.addon_amount (addon_or_zero (cat.addon li.key)) iv li.quantity

unfoldable pub total_from : Catalog → Plan → ℕ → List LineItem → Option ℕ
unfolding item_amount
total_from cat p acc [] = some acc
total_from cat p acc (li ∷ lis) = elim (item_amount cat p li) [
  | none ↦ none
  | some a ↦ total_from cat p (acc + a) lis
]

unfoldable pub total : Catalog → Plan → Option ℕ
unfolding total_from
total cat p = total_from cat p 0 (line_items cat p)

unfoldable granted_by : Option Addon → List Text
granted_by none = []
granted_by (some a) = if is_empty a.grants_mode then [] else a.grants_mode ∷ []

-- The loop of planModes over the mode add-ons.
unfoldable granted_modes : Catalog → List Text → List Text → List Text
unfolding granted_by
granted_modes cat granted [] = granted
granted_modes cat granted (k ∷ ks) = granted_modes cat (granted ++ granted_by (cat.addon k)) ks

-- planModes
unfoldable pub plan_modes : Catalog → Package → List Text → List Text
unfolding granted_modes
plan_modes cat pkg mode_addons =
    filter (contains (granted_modes cat pkg.modes mode_addons)) valid_modes

unfoldable quantities : Text → List LineItem → List Text
quantities key [] = []
quantities key (li ∷ lis) =
    let rest = quantities key lis in
    if eqb li.key key then rest else (li.key ++ (codes ":" ++ format_int li.quantity)) ∷ rest

-- The method `Addons`
unfoldable pub addons : Catalog → Plan → List Text
unfolding quantities
addons cat p = quantities p.package_key (line_items cat p)

-- The loop of Dollars puts a comma before each group of three digits, from the right: a digit with
-- a positive multiple of three digits after it is followed by one.
unfoldable group_digits : Text → Text
group_digits [] = []
group_digits (d ∷ []) = d ∷ []
group_digits (d ∷ e ∷ ds) =
    let rest = group_digits (e ∷ ds) in
    if length (e ∷ ds) % 3 == 0 then d ∷ b',' ∷ rest else d ∷ rest

-- Dollars
unfoldable pub dollars : ℕ → Text
unfolding group_digits
dollars cents =
    let whole = codes "$" ++ group_digits (format_int (cents / 100)) in
    if cents % 100 == 0
    then whole
    else whole ++ (codes "." ++ drop 1 (format_int (100 + cents % 100)))

unfoldable describe_addons : Catalog → List Text → Text
describe_addons cat [] = []
describe_addons cat (k ∷ ks) =
    let rest = describe_addons cat ks in
    elim (cat.addon k) [ none ↦ rest | some a ↦ codes ", with " ++ (to_lower a.name ++ rest) ]

unfoldable describe_total : Option ℕ → Text
describe_total none = []
describe_total (some t) = codes ", " ++ (dollars t ++ codes " per period")

-- The method `Describe`
unfoldable pub describe : Catalog → Plan → Text
unfolding describe_addons describe_total
describe cat p =
    let pkg = package_of cat p.package_key in
    pkg.name
    ++ (codes ", games "
        ++ (join p.games (codes ",")
            ++ ((if eqb pkg.store_scope scope_explicit
                  then codes ", stores " ++ join p.stores (codes ",")
                  else [])
                ++ (describe_addons cat p.mode_addons
                    ++ (codes ", " ++ (p.interval ++ describe_total (total cat p)))))))

-- Some mode add-on of the list grants the mode.
abbrev pub addons_grant : Catalog → List Text → Text → Bool
addons_grant cat ks m = any (λ k. eqb (addon_or_zero (cat.addon k)).grants_mode m) ks

contains-granted_by :
    (a : Option Addon) (m : Text)
    → is_empty m ≡ false
    → contains (granted_by a) m ≡ eqb (addon_or_zero a).grants_mode m
unfolding granted_by contains eqb
contains-granted_by none [] h = ground arith
contains-granted_by none (c ∷ m) h = refl
contains-granted_by (some a) m h = go a.grants_mode m h
  where
    go :
        (g m : Text) → is_empty m ≡ false → contains (if is_empty g then [] else g ∷ []) m ≡ eqb g m
    go [] [] h = ground arith
    go [] (c ∷ m) h = refl
    go (x ∷ g) m h = ground arith

contains-granted_modes :
    (cat : Catalog) (granted ks : List Text) (m : Text)
    → is_empty m ≡ false
    → contains (granted_modes cat granted ks) m ≡ (contains granted m || addons_grant cat ks m)
unfolding granted_modes contains
contains-granted_modes cat granted [] m h = ground arith
contains-granted_modes cat granted (k ∷ ks) m h = ground (
  arith,
  contains-granted_modes cat (granted ++ granted_by (cat.addon k)) ks m,
  contains-append granted (granted_by (cat.addon k)) m,
  contains-granted_by (cat.addon k) m,
)

-- The modes of a plan are the valid modes that its package holds or one of its mode add-ons grants.
pub contains-plan_modes :
    (cat : Catalog) (pkg : Package) (mode_addons : List Text) (m : Text)
    → contains (plan_modes cat pkg mode_addons) m
      ≡ (contains valid_modes m && (contains pkg.modes m || addons_grant cat mode_addons m))
unfolding plan_modes
contains-plan_modes cat pkg mode_addons m =
    contains-filter (contains (granted_modes cat pkg.modes mode_addons)) valid_modes m
    ∙ ground (arith, valid_mode-is_empty m, contains-granted_modes cat pkg.modes mode_addons m)
