-- ===== src/Gateway/Access.antt =====
-- gateway/access.go: what an account may do for one game.
pub mod Union
use api_gatewahy.Base.{
  ℕ, ℤ, pos, Bool, true, false, not, ◌&&◌, ◌||◌, Option, none, some, List, [], ◌∷◌, ◌++◌, Text,
  codes, eqb, is_empty, contains, filter, split, join, sort, lt_ℤ, if◌then◌else◌,
}
use api_gatewahy.ApiAccess.Entitlement.{
  Entitlement, active_at, is_history, scope_all, scope_base, valid_modes,
}

pub record Access : Type 0 where
  pub store_scope : Text
  pub modes : List Text
  pub lookback_days : ℤ

-- HasMode
unfoldable pub has_mode : Access → Text → Bool
has_mode a m = contains a.modes m

-- The variables of the loop; the keys of `modeSeen` are a list.
pub record Seen : Type 0 where
  pub found : Bool
  pub saw_all : Bool
  pub saw_base : Bool
  pub stores : List Text
  pub mode_seen : List Text
  pub lookback : ℤ

abbrev pub nothing_seen : Seen
nothing_seen = record {
  found = false;
  saw_all = false;
  saw_base = false;
  stores = [];
  mode_seen = [];
  lookback = pos 0;
}

-- `if s != "" && !slices.Contains(stores, s)` over the pieces of a scope.
add_stores : List Text → List Text → List Text
add_stores stores [] = stores
add_stores stores (s ∷ ss) =
    add_stores (if not (is_empty s) && not (contains stores s) then stores ++ (s ∷ []) else stores)
      ss

see_scope : Seen → Text → Seen
see_scope v scope =
    if eqb scope scope_all
    then record v { saw_all = true }
    else if eqb scope scope_base
    then record v { saw_base = true }
    else if is_empty scope
    then v
    else record v { stores = add_stores v.stores (split scope b',') }

see_lookback : Entitlement → ℤ → ℤ
see_lookback e lookback =
    if is_history e && lt_ℤ lookback e.lookback_days then e.lookback_days else lookback

see : Seen → Entitlement → Seen
see v e =
    let w = see_scope (record v { found = true }) e.store_scope in
    record w { mode_seen = w.mode_seen ++ e.modes; lookback = see_lookback e w.lookback }

-- The guard of the loop.
unfoldable pub grants : Text → ℕ → Entitlement → Bool
grants game now e = active_at e now && contains e.games game

see_all : Text → ℕ → Seen → List Entitlement → Seen
see_all game now v [] = v
see_all game now v (e ∷ es) = see_all game now (if grants game now e then see v e else v) es

scope_of : Seen → Text
scope_of v =
    if v.saw_all
    then scope_all
    else if v.saw_base
    then scope_base
    else join (sort v.stores) (codes ",")

access_of : Seen → Option Access
access_of v =
    if not v.found
    then none
    else some (record {
      store_scope = scope_of v;
      modes = filter (contains v.mode_seen) valid_modes;
      lookback_days = v.lookback;
    })

-- Resolve
unfoldable pub resolve : List Entitlement → Text → ℕ → Option Access
unfolding add_stores see_scope see_lookback see see_all scope_of access_of
resolve ents game now = access_of (see_all game now nothing_seen ents)
