-- ===== src/Gateway/Access/Union.antt =====
-- The access of an account is the union of its active rows for the game.
use api_gatewahy.Base.{
  ◌≡◌, refl, ap, ◌∙◌, sym, ◌↔◌, ◌⊎◌, inl, ℕ, ℤ, pos, Bool, true, false, not, ◌&&◌, ◌||◌, none, some,
  List, [], ◌∷◌, ◌++◌, Text, codes, eqb, eqb_iff, is_empty, contains, contains-append,
  contains-filter, filter, any, split, join, sort, contains-sort, sort-IsSorted, is_sorted, subst,
  lt_ℤ, eq_ℤ, arith, if◌then◌else◌,
}
use api_gatewahy.ApiAccess.Entitlement.{Entitlement, is_history, scope_all, scope_base, valid_modes}
use api_gatewahy.Gateway.Access.{
  Access, Seen, nothing_seen, has_mode, grants, see_all, see, see_scope, see_lookback, add_stores,
  scope_of, access_of, resolve,
}

split_empty : (t s : Text) → is_empty t ≡ true → contains (split t b',') s ≡ is_empty s
unfolding split contains eqb
split_empty [] [] h = refl
split_empty [] (x ∷ s) h = refl
split_empty (c ∷ t) s h = ground arith

module _ (game : Text) (now : ℕ) where
  see_all-found :
      (v : Seen) (es : List Entitlement)
      → (see_all game now v es).found ≡ (v.found || any (grants game now) es)
  unfolding see_all see see_scope
  see_all-found v [] = ground arith
  see_all-found v (e ∷ es) = ground (arith, see_all-found v es, see_all-found (see v e) es)

  see_all-modes :
      (v : Seen) (es : List Entitlement) (m : Text)
      → contains (see_all game now v es).mode_seen m
        ≡ (contains v.mode_seen m || any (λ e. grants game now e && contains e.modes m) es)
  unfolding see_all see see_scope
  see_all-modes v [] m = ground arith
  see_all-modes v (e ∷ es) m = ground (
    arith,
    see_all-modes v es m,
    see_all-modes (see v e) es m,
    contains-append v.mode_seen e.modes m,
  )

  see_all-saw_all :
      (v : Seen) (es : List Entitlement)
      → (see_all game now v es).saw_all
        ≡ (v.saw_all || any (λ e. grants game now e && eqb e.store_scope scope_all) es)
  unfolding see_all see see_scope
  see_all-saw_all v [] = ground arith
  see_all-saw_all v (e ∷ es) = ground (arith, see_all-saw_all v es, see_all-saw_all (see v e) es)

  see_all-saw_base :
      (v : Seen) (es : List Entitlement)
      → (see_all game now v es).saw_base ≡ (
          v.saw_base
          || any
              (λ e.
                grants game now e
                && (not (eqb e.store_scope scope_all) && eqb e.store_scope scope_base))
              es)
  unfolding see_all see see_scope
  see_all-saw_base v [] = ground arith
  see_all-saw_base v (e ∷ es) = ground (arith, see_all-saw_base v es, see_all-saw_base (see v e) es)

  widest : ℤ → List Entitlement → ℤ
  widest l [] = l
  widest l (e ∷ es) = widest (if grants game now e then see_lookback e l else l) es

  see_all-lookback :
      (v : Seen) (es : List Entitlement) → (see_all game now v es).lookback ≡ widest v.lookback es
  unfolding see_all see see_scope widest
  see_all-lookback v [] = refl
  see_all-lookback v (e ∷ es) = ground (arith, see_all-lookback v es, see_all-lookback (see v e) es)

  -- A row of price history that grants looks back further than `r`.
  abbrev pub further : ℤ → Entitlement → Bool
  further r e = grants game now e && (is_history e && lt_ℤ r e.lookback_days)

  -- A row of price history that grants looks back exactly `r`.
  abbrev pub reaches : ℤ → Entitlement → Bool
  reaches r e = grants game now e && (is_history e && eq_ℤ r e.lookback_days)

  widest_bound :
      (l r : ℤ) (es : List Entitlement)
      → widest l es ≡ r
      → (lt_ℤ r l ≡ false) × (any (further r) es ≡ false)
  unfolding widest see_lookback
  widest_bound l r [] h = ground arith
  widest_bound l r (e ∷ es) h =
      ground (arith, widest_bound l r es, widest_bound e.lookback_days r es)

  widest_attained :
      (l r : ℤ) (es : List Entitlement) → widest l es ≡ r → (r ≡ l) ⊎ (any (reaches r) es ≡ true)
  unfolding widest see_lookback
  widest_attained l r [] h = inl (sym h)
  widest_attained l r (e ∷ es) h =
      ground (arith, widest_attained l r es, widest_attained e.lookback_days r es)

  -- A row that grants lists this store, and is no preset.
  abbrev pub lists_store : Text → Entitlement → Bool
  lists_store s e =
      grants game now e
      && (not (eqb e.store_scope scope_all)
          && (not (eqb e.store_scope scope_base) && contains (split e.store_scope b',') s))

  contains-add_stores :
      (stores ss : List Text) (s : Text)
      → contains (add_stores stores ss) s
        ≡ (contains stores s || (not (is_empty s) && contains ss s))
  unfolding add_stores contains
  contains-add_stores stores [] s = ground arith
  contains-add_stores stores (x ∷ ss) s = ground (
    arith,
    contains-add_stores stores ss s,
    contains-add_stores (stores ++ (x ∷ [])) ss s,
    contains-append stores (x ∷ []) s,
    eqb_iff x s,
  )

  see_all-stores :
      (v : Seen) (es : List Entitlement) (s : Text)
      → contains (see_all game now v es).stores s
        ≡ (contains v.stores s || (not (is_empty s) && any (lists_store s) es))
  unfolding see_all see see_scope
  see_all-stores v [] s = ground arith
  see_all-stores v (e ∷ es) s = ground (
    arith,
    see_all-stores v es s,
    see_all-stores (see v e) es s,
    contains-add_stores v.stores (split e.store_scope b',') s,
    split_empty e.store_scope s,
  )

-- What `resolve` promises: each field of the access is the union over the rows that are active now
-- and name the game.
pub record IsUnion (ents : List Entitlement) (game : Text) (now : ℕ) (a : Access) : Type 0 where
  pub all_access :
      any (λ e. grants game now e && eqb e.store_scope scope_all) ents ≡ true
      → a.store_scope ≡ scope_all
  pub base_access :
      any (λ e. grants game now e && eqb e.store_scope scope_all) ents ≡ false
      → any (λ e. grants game now e && eqb e.store_scope scope_base) ents ≡ true
      → a.store_scope ≡ scope_base
  pub stores : List Text
  pub listed :
      any (λ e. grants game now e && eqb e.store_scope scope_all) ents ≡ false
      → any (λ e. grants game now e && eqb e.store_scope scope_base) ents ≡ false
      → a.store_scope ≡ join stores (codes ",")
  pub each_store :
      (s : Text) → contains stores s ≡ (not (is_empty s) && any (lists_store game now s) ents)
  pub sorted : is_sorted stores ≡ true
  pub modes :
      (m : Text)
      → has_mode a m
        ≡ (contains valid_modes m && any (λ e. grants game now e && contains e.modes m) ents)
  pub bound : any (further game now a.lookback_days) ents ≡ false
  pub attained : (a.lookback_days ≡ pos 0) ⊎ (any (reaches game now a.lookback_days) ents ≡ true)

-- There is access exactly when some row is active now and names the game.
pub resolve-eq_none :
    (ents : List Entitlement) (game : Text) (now : ℕ)
    → (resolve ents game now ≡ none) ↔ (any (grants game now) ents ≡ false)
unfolding resolve
resolve-eq_none ents game now =
    let f = see_all-found game now nothing_seen ents in
    (λ h. ground (arith, f), λ h. ground (arith, f))

base_of_all :
    (game : Text) (now : ℕ) (ents : List Entitlement)
    → any (λ e. grants game now e && eqb e.store_scope scope_all) ents ≡ false
    → any
        (λ e.
          grants game now e && (not (eqb e.store_scope scope_all) && eqb e.store_scope scope_base))
        ents
      ≡ any (λ e. grants game now e && eqb e.store_scope scope_base) ents
base_of_all game now [] h = refl
base_of_all game now (e ∷ es) h = ground (arith, base_of_all game now es)

access-eq :
    (v : Seen) {a : Access}
    → access_of v ≡ some a
    → ◌≡◌ {A = Access}
        (record {
          store_scope = scope_of v;
          modes = filter (contains v.mode_seen) valid_modes;
          lookback_days = v.lookback;
        })
        a
unfolding access_of
access-eq v h = ground arith

-- An access is the union of the account's active rows for the game: full access or base access if
-- some row has it, else the sorted list of the stores of all rows; the valid modes that some row
-- names; and the widest lookback of its history rows.
pub resolve-IsUnion :
    (ents : List Entitlement) (game : Text) (now : ℕ) {a : Access}
    → resolve ents game now ≡ some a
    → IsUnion ents game now a
unfolding resolve has_mode contains scope_of
resolve-IsUnion ents game now {a} h =
    let v = see_all game now nothing_seen ents in
    let all_seen = see_all-saw_all game now nothing_seen ents in
    let base_seen = see_all-saw_base game now nothing_seen ents in
    let wide = see_all-lookback game now nothing_seen ents in
    subst (IsUnion ents game now) (access-eq v h) (record {
      all_access = λ y. ground (arith, all_seen, y);
      base_access = λ n y. ground (arith, all_seen, base_seen, base_of_all game now ents n, n, y);
      stores = sort v.stores;
      listed = λ n m. ground (arith, all_seen, base_seen, base_of_all game now ents n, n, m);
      each_store = λ s. contains-sort v.stores s ∙ see_all-stores game now nothing_seen ents s;
      sorted = sort-IsSorted v.stores;
      modes = λ m.
          contains-filter (contains v.mode_seen) valid_modes m
          ∙ ap (λ b. contains valid_modes m && b) (see_all-modes game now nothing_seen ents m);
      bound = (widest_bound game now (pos 0) v.lookback ents (sym wide)).1;
      attained = widest_attained game now (pos 0) v.lookback ents (sym wide);
    })
