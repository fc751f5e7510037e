-- ===== src/Gateway/Handler/Authorize.antt =====
-- When a key may have a route.
use api_gatewahy.Base.{
  ◌≡◌, refl, ◌↔◌, ℕ, pos, true, false, not, ◌||◌, none, some, List, [], ◌∷◌, Text, eqb, is_empty,
  all, le_ℤ, ok, arith,
}
use api_gatewahy.ApiAccess.Entitlement.{scope_dev}
use api_gatewahy.ApiAccess.Key.{AccountStatus, Lookup}
use api_gatewahy.Gateway.Access.{Access, has_mode, resolve}
use api_gatewahy.Gateway.Route.{Route, needs_modes}
use api_gatewahy.Gateway.Handler.{authorize, first_lacking, is_history_route}

-- All that the handler asks of a key for a route.
pub record MayRead (r : Route) (lk : Lookup) (now : ℕ) (a : Access) : Type 0 where
  pub unrevoked : lk.key.revoked_at ≡ none
  pub in_good_standing : lk.account.status ≡ AccountStatus.active
  pub granted : resolve lk.entitlements r.game now ≡ some a
  pub not_dev : eqb a.store_scope scope_dev ≡ false
  pub scoped : (is_history_route r || not (is_empty a.store_scope)) ≡ true
  pub modes : all (has_mode a) (needs_modes r) ≡ true
  pub lookback : (not (is_history_route r) || not (le_ℤ a.lookback_days (pos 0))) ≡ true

first_lacking-none :
    (a : Access) (ms : List Text) → first_lacking a ms ≡ none → all (has_mode a) ms ≡ true
unfolding first_lacking
first_lacking-none a [] h = refl
first_lacking-none a (m ∷ ms) h = ground (arith, first_lacking-none a ms)

all-first_lacking :
    (a : Access) (ms : List Text) → all (has_mode a) ms ≡ true → first_lacking a ms ≡ none
unfolding first_lacking
all-first_lacking a [] h = refl
all-first_lacking a (m ∷ ms) h = ground (arith, all-first_lacking a ms)

-- A key is let through to a route exactly when it is not revoked, its account is active, some active
-- entitlement names the game, the scope is not DEV_ACCESS and not empty (but for history), every
-- mode of the route is granted, and a history route has a lookback; the access is the account's.
pub authorize_iff :
    (r : Route) (lk : Lookup) (now : ℕ) (a : Access)
    → (authorize r lk now ≡ ok a) ↔ MayRead r lk now a
unfolding authorize
authorize_iff r lk now a = (sound, complete)
  where
    sound : authorize r lk now ≡ ok a → MayRead r lk now a
    sound h = record {
      unrevoked = ground arith;
      in_good_standing = ground arith;
      granted = ground arith;
      not_dev = ground arith;
      scoped = ground arith;
      modes = first_lacking-none a (needs_modes r) (ground arith);
      lookback = ground arith;
    }

    complete : MayRead r lk now a → authorize r lk now ≡ ok a
    complete m = ground (
      arith,
      m.unrevoked,
      m.in_good_standing,
      m.granted,
      m.not_dev,
      m.scoped,
      m.lookback,
      all-first_lacking a (needs_modes r) m.modes,
    )
