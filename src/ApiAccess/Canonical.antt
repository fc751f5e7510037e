-- ===== src/ApiAccess/Canonical.antt =====
-- `CanonicalEntitlement` and `prepareEntitlement` of apiaccess/entitlements.go: the history rule.
pub mod History
pub mod Rule
use api_gatewahy.Base.{
  ℕ, ℤ, pos, Bool, not, Option, none, some, List, [], ◌∷◌, Text, is_empty, trim_space, length, lt_ℤ,
  eq_ℤ, ◌==◌, Result, ok, err, if◌then◌else◌,
}
use api_gatewahy.ApiAccess.Entitlement.{
  Entitlement, EntitlementStatus, unset, active, ended, is_history, max_lookback_days,
}
use api_gatewahy.ApiAccess.Modes.{ModesError, validate_modes}
use api_gatewahy.ApiAccess.Scope.{ScopeError, canonical_store_scope}

pub data EntitlementError : Type 0 where
  bad_modes : ModesError → EntitlementError
  bad_scope : ScopeError → EntitlementError
  history_beside history_scope lookback_low lookback_high lookback_misplaced : EntitlementError

pub canonical_history : Entitlement → Result EntitlementError Entitlement
canonical_history e =
    if not (length e.modes == 1)
    then err history_beside
    else if not (is_empty (trim_space e.store_scope))
    then err history_scope
    else if lt_ℤ e.lookback_days (pos 1)
    then err lookback_low
    else if lt_ℤ (pos max_lookback_days) e.lookback_days
    then err lookback_high
    else ok (record e { store_scope = [] })

with_scope : Entitlement → Result ScopeError Text → Result EntitlementError Entitlement
with_scope e (err x) = err (bad_scope x)
with_scope e (ok scope) = ok (record e { store_scope = scope })

pub canonical_price : Entitlement → Result EntitlementError Entitlement
canonical_price e =
    if not (eq_ℤ e.lookback_days (pos 0))
    then err lookback_misplaced
    else with_scope e (canonical_store_scope e.store_scope)

with_modes : Entitlement → Result ModesError (List Text) → Result EntitlementError Entitlement
with_modes e (err x) = err (bad_modes x)
with_modes e (ok modes) =
    let e' : Entitlement = record e { modes = modes } in
    if is_history e' then canonical_history e' else canonical_price e'

unfoldable pub canonical_entitlement : Entitlement → Result EntitlementError Entitlement
unfolding canonical_history with_scope canonical_price with_modes
canonical_entitlement e = with_modes e (validate_modes e.modes)

default_status : EntitlementStatus → EntitlementStatus
default_status unset = active
default_status s = s

-- The nullable column of an external reference: "" is NULL.
nullable : Text → Option Text
nullable [] = none
nullable (c ∷ s) = some (c ∷ s)

prepared :
    ℕ
    → Result EntitlementError Entitlement
    → Result EntitlementError (Entitlement × Option ℕ × Option Text)
prepared now (err x) = err x
prepared now (ok e) =
    let e' : Entitlement = record e {
      status = default_status e.status;
      valid_from = (if e.valid_from == 0 then now else e.valid_from);
    } in
    ok (e', e'.valid_until, nullable e'.external_ref)

-- `now` is `time.Now()`; a nil list of add-ons and an empty one are the same list here.
pub prepare_entitlement :
    ℕ → Entitlement → Result EntitlementError (Entitlement × Option ℕ × Option Text)
unfolding default_status nullable prepared
prepare_entitlement now e = prepared now (canonical_entitlement e)
