-- ===== src/Billing/Plan/Amounts.antt =====
-- What `Plan.Total` of billing/plan.go sums: the amounts of the package and of each add-on.
use api_gatewahy.Base.{
  ℕ, ◌+◌, ◌-◌, ◌≡◌, refl, ap, sym, ◌∙◌, true, false, not, Option, none, some, List, [], ◌∷◌, ◌++◌,
  Text, eqb, eqb_refl, all, length, ltb, Bool-cases, inl, inr, arith, if◌then◌else◌,
}
use api_gatewahy.Billing.Plan.{
  Catalog, Plan, LineItem, scope_explicit, package_of, line_items, package_item, addon_item,
  extra_item, store_items, mode_items, interval_or_zero, addon_or_zero, addon_extra_store,
  addon_extra_game,
}
use api_gatewahy.Billing.Plan.Bills.{item_amount, total_from, total}

-- Two amounts, where neither is an error.
abbrev pub plus : Option ℕ → Option ℕ → Option ℕ
plus none _ = none
plus (some a) none = none
plus (some a) (some b) = some (a + b)

plus_assoc : (a b c : Option ℕ) → plus (plus a b) c ≡ plus a (plus b c)
plus_assoc none b c = refl
plus_assoc (some a) none c = refl
plus_assoc (some a) (some b) none = refl
plus_assoc (some a) (some b) (some c) = ap some (omega arith)

plus_zero : (a : Option ℕ) → plus (some 0) a ≡ a
plus_zero none = refl
plus_zero (some a) = ap some (omega arith)

zero_plus : (a : Option ℕ) → plus a (some 0) ≡ a
zero_plus none = refl
zero_plus (some a) = ap some (omega arith)

module _ (cat : Catalog) (p : Plan) where
  -- What Stripe bills for a number of one add-on at the plan's interval.
  abbrev pub billed_addon : Text → ℕ → Option ℕ
  billed_addon key n =
      cat.addon_amount (addon_or_zero (cat.addon key))
        (interval_or_zero (cat.find_interval p.interval)) n

  -- The stores and games beyond those that are included.
  abbrev pub billed_beyond : Text → ℕ → ℕ → Option ℕ
  billed_beyond key n included = if ltb included n then billed_addon key (n - included) else some 0

  abbrev pub billed_modes : List Text → Option ℕ
  billed_modes [] = some 0
  billed_modes (k ∷ ks) = plus (billed_addon k 1) (billed_modes ks)

  abbrev pub billed_stores : Option ℕ
  billed_stores =
      if eqb (package_of cat p.package_key).store_scope scope_explicit
      then billed_beyond addon_extra_store (length p.stores)
          (package_of cat p.package_key).included_stores
      else some 0

  abbrev pub billed_package : Option ℕ
  billed_package =
      cat.interval_amount (interval_or_zero (cat.find_interval p.interval))
        (package_of cat p.package_key).monthly

  -- No add-on has the key of the package.
  pub record KeysApart : Type 0 where
    pub store_apart : eqb addon_extra_store (package_of cat p.package_key).key ≡ false
    pub game_apart : eqb addon_extra_game (package_of cat p.package_key).key ≡ false
    pub modes_apart : all (λ k. not (eqb k (package_of cat p.package_key).key)) p.mode_addons ≡ true

  amounts : List LineItem → Option ℕ
  amounts [] = some 0
  amounts (li ∷ lis) = plus (item_amount cat p li) (amounts lis)

  amounts-append : (xs ys : List LineItem) → amounts (xs ++ ys) ≡ plus (amounts xs) (amounts ys)
  unfolding amounts
  amounts-append [] ys = sym (plus_zero (amounts ys))
  amounts-append (x ∷ xs) ys =
      ap (plus (item_amount cat p x)) (amounts-append xs ys)
      ∙ sym (plus_assoc (item_amount cat p x) (amounts xs) (amounts ys))

  total_from-amounts :
      (acc : ℕ) (lis : List LineItem) → total_from cat p acc lis ≡ plus (some acc) (amounts lis)
  unfolding total_from amounts
  total_from-amounts acc [] = ap some (omega arith)
  total_from-amounts acc (li ∷ lis) = add (item_amount cat p li) (λ n. total_from-amounts n lis)
    where
      add :
          (o : Option ℕ)
          → ((n : ℕ) → total_from cat p n lis ≡ plus (some n) (amounts lis))
          → elim o as (λ x. Option ℕ) [ none ↦ none | some a ↦ total_from cat p (acc + a) lis ]
            ≡ plus (some acc) (plus o (amounts lis))
      add none rest = refl
      add (some a) rest = rest (acc + a) ∙ plus_assoc (some acc) (some a) (amounts lis)

  item_amount-addon :
      (k : Text) (n : ℕ)
      → eqb k (package_of cat p.package_key).key ≡ false
      → item_amount cat p (addon_item cat p k n) ≡ billed_addon k n
  unfolding item_amount addon_item
  item_amount-addon k n h = ground (arith, h)

  item_amount-package : item_amount cat p (package_item cat p) ≡ billed_package
  unfolding item_amount package_item
  item_amount-package = ground (arith, eqb_refl (package_of cat p.package_key).key)

  amounts-extra_item :
      (k : Text) (n included : ℕ)
      → eqb k (package_of cat p.package_key).key ≡ false
      → amounts (extra_item cat p k (n - included)) ≡ billed_beyond k n included
  unfolding amounts extra_item
  amounts-extra_item k n included h = elim (Bool-cases (ltb 0 (n - included))) [
    | inl y ↦
        let l : ltb included n ≡ true = ground (arith, y) in
        simp (y, l) (zero_plus _ ∙ item_amount-addon k (n - included) h)
    | inr f ↦ let l : ltb included n ≡ false = ground (arith, f) in simp (f, l) refl
  ]

  amounts-store_items :
      eqb addon_extra_store (package_of cat p.package_key).key ≡ false
      → amounts (store_items cat p) ≡ billed_stores
  unfolding store_items amounts
  amounts-store_items h =
      elim (Bool-cases (eqb (package_of cat p.package_key).store_scope scope_explicit)) [
        | inl y ↦ simp y (
            amounts-extra_item addon_extra_store (length p.stores)
              (package_of cat p.package_key).included_stores h)
        | inr n ↦ simp n refl
      ]

  amounts-mode_items :
      (ks : List Text)
      → all (λ k. not (eqb k (package_of cat p.package_key).key)) ks ≡ true
      → amounts (mode_items cat p ks) ≡ billed_modes ks
  unfolding mode_items amounts
  amounts-mode_items [] h = refl
  amounts-mode_items (k ∷ ks) h =
      ap (λ (a : Option ℕ). plus a (amounts (mode_items cat p ks)))
        (item_amount-addon k 1 (ground (arith, h)))
      ∙ ap (plus (billed_addon k 1)) (amounts-mode_items ks (ground (arith, h)))

  -- A total is the amount of the package, of the stores beyond those that it includes where it lists
  -- its stores, of the games beyond those that the catalog includes, and of one of each mode add-on,
  -- or an error where one of these is; no add-on has the package's key.
  pub total-amounts :
      KeysApart
      → total cat p
        ≡ plus billed_package (
            plus billed_stores (
              plus
                (billed_beyond addon_extra_game (length p.games) cat.included_games)
                (billed_modes p.mode_addons)))
  unfolding total line_items amounts
  total-amounts a =
      let games = extra_item cat p addon_extra_game (length p.games - cat.included_games) in
      let modes = mode_items cat p p.mode_addons in
      total_from-amounts 0 (line_items cat p)
      ∙ (plus_zero _
          ∙ items item_amount-package (amounts-append (store_items cat p) (games ++ modes))
              (amounts-append games modes) (amounts-store_items a.store_apart)
              (amounts-extra_item addon_extra_game (length p.games) cat.included_games a.game_apart)
              (amounts-mode_items p.mode_addons a.modes_apart))
    where
      items :
          {x x' y w s s' g g' m m' : Option ℕ}
          → x ≡ x'
          → y ≡ plus s w
          → w ≡ plus g m
          → s ≡ s'
          → g ≡ g'
          → m ≡ m'
          → plus x y ≡ plus x' (plus s' (plus g' m'))
      items a b c d e f = cc
