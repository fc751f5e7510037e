-- ===== src/Billing/Plan.antt =====
-- billing/plan.go: what a customer chose, and what it bills and grants.
-- The catalog is `apiproductlist.ProductList` of another repository: a record of what plans read.
pub mod Normal
pub mod Bills
pub mod Amounts
pub mod Metadata
use api_gatewahy.Base.{
  ℕ, ◌≡◌, refl, arith, ◌+◌, ◌-◌, Bool, true, false, not, ◌&&◌, ◌||◌, Option, none, some, List, [],
  ◌∷◌, ◌++◌, Text, codes, eqb, is_empty, contains, filter, trim_space, to_lower, join, sort, length,
  ltb, ◌==◌, Result, ok, err, ◌>>=◌, if◌then◌else◌,
}
use api_gatewahy.ApiAccess.Entitlement.{valid_modes}
use api_gatewahy.ApiAccess.Grants.{split_list}

pub record Package : Type 0 where
  pub key : Text
  pub name : Text
  pub store_scope : Text
  pub modes : List Text
  pub monthly : ℕ
  pub included_stores : ℕ
  pub lookback_days : ℕ

pub record Interval : Type 0 where
  pub key : Text
  pub public : Bool

pub record Addon : Type 0 where
  pub key : Text
  pub name : Text
  pub grants_mode : Text
  pub monthly : ℕ

pub record Catalog : Type 0 where
  pub find_package : Text → Option Package
  pub find_interval : Text → Option Interval
  pub addon : Text → Option Addon
  pub included_games : ℕ
  pub lookup_key : Text → Text → Text
  pub applies : Addon → Text → Bool
  -- Interval.Amount and Addon.Amount; `none` is their error.
  pub interval_amount : Interval → ℕ → Option ℕ
  pub addon_amount : Addon → Interval → ℕ → Option ℕ

abbrev pub scope_explicit : Text
scope_explicit = codes "explicit"

abbrev pub addon_extra_store : Text
addon_extra_store = codes "extra_store"

abbrev pub addon_extra_game : Text
addon_extra_game = codes "extra_game"

pub record Plan : Type 0 where
  pub package_key : Text
  pub interval : Text
  pub games : List Text
  pub stores : List Text
  pub mode_addons : List Text

pub record LineItem : Type 0 where
  pub key : Text
  pub lookup_key : Text
  pub quantity : ℕ
  pub monthly : ℕ

-- dedupe
unfoldable pub dedupe_from : (Text → Text) → List Text → List Text → List Text
dedupe_from canon out [] = out
dedupe_from canon out (x ∷ xs) =
    let s = canon (trim_space x) in
    dedupe_from canon (if not (is_empty s) && not (contains out s) then out ++ (s ∷ []) else out) xs

unfoldable pub dedupe : List Text → (Text → Text) → List Text
unfolding dedupe_from
dedupe xs canon = dedupe_from canon [] xs

-- The zero value of a missing catalog row.
abbrev pub no_package : Package
no_package = record {
  key = [];
  name = [];
  store_scope = [];
  modes = [];
  monthly = 0;
  included_stores = 0;
  lookback_days = 0;
}

abbrev pub interval_or_zero : Option Interval → Interval
interval_or_zero none = record { key = []; public = false }
interval_or_zero (some iv) = iv

abbrev pub addon_or_zero : Option Addon → Addon
addon_or_zero none = record { key = []; name = []; grants_mode = []; monthly = 0 }
addon_or_zero (some a) = a

abbrev pub package_or_zero : Option Package → Package
package_or_zero none = no_package
package_or_zero (some p) = p

abbrev pub package_of : Catalog → Text → Package
package_of cat k = package_or_zero (cat.find_package k)

module _ (cat : Catalog) where
  -- addonItem
  unfoldable pub addon_item : Plan → Text → ℕ → LineItem
  addon_item p key qty = record {
    key = key;
    lookup_key = cat.lookup_key key p.interval;
    quantity = qty;
    monthly = (addon_or_zero (cat.addon key)).monthly;
  }

  unfoldable pub package_item : Plan → LineItem
  package_item p =
      let pkg = package_of cat p.package_key in
      record {
        key = pkg.key;
        lookup_key = cat.lookup_key pkg.key p.interval;
        quantity = 1;
        monthly = pkg.monthly;
      }

  -- `int64(n) > 0` of a difference of lengths: the truncated difference is 0 where it is negative.
  unfoldable pub extra_item : Plan → Text → ℕ → List LineItem
  extra_item p key n = if ltb 0 n then addon_item p key n ∷ [] else []

  unfoldable pub store_items : Plan → List LineItem
  store_items p =
      let pkg = package_of cat p.package_key in
      if eqb pkg.store_scope scope_explicit
      then extra_item p addon_extra_store (length p.stores - pkg.included_stores)
      else []

  unfoldable pub mode_items : Plan → List Text → List LineItem
  mode_items p [] = []
  mode_items p (k ∷ ks) = addon_item p k 1 ∷ mode_items p ks

  -- LineItems
  unfoldable pub line_items : Plan → List LineItem
  unfolding package_item extra_item store_items mode_items
  line_items p =
      package_item p
      ∷ (store_items p
          ++ (extra_item p addon_extra_game (length p.games - cat.included_games)
              ++ mode_items p p.mode_addons))

pub valid_mode-is_empty : (m : Text) → contains valid_modes m ≡ true → is_empty m ≡ false
unfolding contains eqb
valid_mode-is_empty [] h = ground arith
valid_mode-is_empty (c ∷ m) h = refl
