-- ===== src/ApiAccess/Tests.antt =====
-- Rows, scopes and keys of apiaccess/ at which the theorems apply.
use api_gatewahy.Base.{
  ℕ, ℤ, pos, ◌≡◌, ◌≢◌, refl, Bool, true, false, Option, none, some, List, [], ◌∷◌, ◌++◌, Text,
  codes, contains, all, filter, length, take, Result, ok, err, arith,
}
use api_gatewahy.ApiAccess.Entitlement.{Entitlement, Source, EntitlementStatus, valid_modes}
use api_gatewahy.ApiAccess.Modes.{validate_modes}
use api_gatewahy.ApiAccess.Scope.{canonical_store_scope}
use api_gatewahy.ApiAccess.Scope.Laws.{IsCanonical, canonical_store_scope-IsCanonical}
use api_gatewahy.ApiAccess.Canonical.{canonical_entitlement}
use api_gatewahy.ApiAccess.Canonical.Rule.{Canonicalized, canonical_entitlement-Canonicalized}
use api_gatewahy.ApiAccess.Grants.{ManualGrantInput, manual_grant}
use api_gatewahy.ApiAccess.Grants.Accepted.{Granted, manual_grant-Granted}

abbrev mixed_modes : List Text
mixed_modes = codes " Sealed" ∷ codes "retail" ∷ []

abbrev two_modes : List Text
two_modes = codes "retail" ∷ codes "sealed" ∷ []

validate_mixed : validate_modes mixed_modes ≡ ok two_modes
unfolding validate_modes contains api_gatewahy.Base.eqb api_gatewahy.Base.to_lower
    api_gatewahy.Base.trim_space
validate_mixed = refl

scope_two : canonical_store_scope (codes "TCG, CK,TCG") ≡ ok (codes "CK,TCG")
unfolding canonical_store_scope api_gatewahy.Base.eqb api_gatewahy.Base.to_upper
    api_gatewahy.Base.trim_space api_gatewahy.Base.split contains api_gatewahy.Base.join
    api_gatewahy.Base.sort
scope_two = refl

canonical_store_scope-IsCanonical_example : IsCanonical (codes "CK,TCG")
canonical_store_scope-IsCanonical_example =
    canonical_store_scope-IsCanonical (codes "TCG, CK,TCG") scope_two

abbrev row_of : List Text → Text → Entitlement
row_of modes scope = record {
  id = 0;
  account_id = 7;
  source = Source.manual;
  games = codes "magic" ∷ [];
  store_scope = scope;
  modes = modes;
  addons = [];
  lookback_days = pos 0;
  status = EntitlementStatus.unset;
  valid_from = 0;
  valid_until = none;
  external_ref = [];
  note = [];
  created_at = 0;
}

canonical_row :
    canonical_entitlement (row_of mixed_modes (codes "TCG, CK,TCG"))
    ≡ ok (row_of two_modes (codes "CK,TCG"))
unfolding canonical_entitlement validate_modes contains api_gatewahy.Base.eqb
    api_gatewahy.Base.to_lower api_gatewahy.Base.trim_space
    api_gatewahy.ApiAccess.Entitlement.is_history canonical_store_scope api_gatewahy.Base.to_upper
    api_gatewahy.Base.split api_gatewahy.Base.join api_gatewahy.Base.sort
canonical_row = refl

canonical_entitlement-Canonicalized_example :
    Canonicalized (row_of mixed_modes (codes "TCG, CK,TCG")) (row_of two_modes (codes "CK,TCG"))
canonical_entitlement-Canonicalized_example =
    canonical_entitlement-Canonicalized (row_of mixed_modes (codes "TCG, CK,TCG")) canonical_row

abbrev grant_form : ManualGrantInput
grant_form = record {
  account_id = 7;
  games = codes "magic" ∷ [];
  stores = codes "TCG, CK,TCG";
  modes = mixed_modes;
  lookback = pos 0;
  until = [];
  note = [];
}

grant_row : manual_grant grant_form (codes "magic" ∷ []) 9 ≡ ok (row_of two_modes (codes "CK,TCG"))
unfolding manual_grant contains api_gatewahy.Base.eqb validate_modes api_gatewahy.Base.to_lower
    api_gatewahy.Base.trim_space canonical_store_scope api_gatewahy.Base.to_upper
    api_gatewahy.Base.split api_gatewahy.Base.join api_gatewahy.Base.sort
grant_row = refl

manual_grant-Granted_example :
    Granted grant_form (codes "magic" ∷ []) 9 (row_of two_modes (codes "CK,TCG"))
manual_grant-Granted_example = manual_grant-Granted grant_form (codes "magic" ∷ []) 9 grant_row

abbrev bytes : List ℕ
bytes =
    0 ∷ 1 ∷ 2 ∷ 3 ∷ 4 ∷ 5 ∷ 6 ∷ 7 ∷ 8 ∷ 9 ∷ 10 ∷ 11 ∷ 12 ∷ 13 ∷ 14 ∷ 15 ∷ 240 ∷ 241 ∷ 242 ∷ 243
    ∷ 244 ∷ 245 ∷ 246 ∷ 247 ∷ 248 ∷ 249 ∷ 250 ∷ 251 ∷ 252 ∷ 253 ∷ 254 ∷ 255 ∷ []
