-- ===== src/ApiAccess/Entitlement.antt =====
-- apiaccess/entitlements.go and accounts.go: the rows, and when one grants access.
-- Times are nanoseconds since the zero `time.Time`, which is 0.
use api_gatewahy.Base.{
  ℕ, ℤ, Bool, true, false, not, ◌&&◌, ◌||◌, Option, none, some, List, [], ◌∷◌, Text, codes,
  contains, ltb, if◌then◌else◌,
}

-- Migration 2 checks both columns against these; `unset` is the empty string.
pub data EntitlementStatus : Type 0 where
  unset active ended : EntitlementStatus

pub data Source : Type 0 where
  stripe manual trial : Source

abbrev pub scope_all : Text
scope_all = codes "ALL_ACCESS"

abbrev pub scope_base : Text
scope_base = codes "BASE_ACCESS"

abbrev pub scope_dev : Text
scope_dev = codes "DEV_ACCESS"

abbrev pub mode_history : Text
mode_history = codes "history"

abbrev pub mode_newspaper : Text
mode_newspaper = codes "newspaper"

abbrev pub max_lookback_days : ℕ
max_lookback_days = 3650

abbrev pub valid_modes : List Text
valid_modes = codes "retail" ∷ codes "buylist" ∷ codes "sealed" ∷ mode_newspaper ∷ mode_history ∷ []

pub record Entitlement : Type 0 where
  pub id : ℕ
  pub account_id : ℕ
  pub source : Source
  pub games : List Text
  pub store_scope : Text
  pub modes : List Text
  pub addons : List Text
  pub lookback_days : ℤ
  pub status : EntitlementStatus
  pub valid_from : ℕ
  pub valid_until : Option ℕ
  pub external_ref : Text
  pub note : Text
  pub created_at : ℕ

abbrev pub is_active_status : EntitlementStatus → Bool
is_active_status active = true
is_active_status _ = false

abbrev before_end : ℕ → Option ℕ → Bool
before_end now none = true
before_end now (some until) = ltb now until

-- ActiveAt
unfoldable pub active_at : Entitlement → ℕ → Bool
active_at e now =
    if not (is_active_status e.status) || ltb now e.valid_from
    then false
    else before_end now e.valid_until

-- IsHistory
unfoldable pub is_history : Entitlement → Bool
is_history e = contains e.modes mode_history

abbrev is_stripe : Source → Bool
is_stripe stripe = true
is_stripe _ = false

-- IsActiveStripePlan
unfoldable pub is_active_stripe_plan : Entitlement → Bool
is_active_stripe_plan e = is_stripe e.source && is_active_status e.status

-- HasActiveStripePlan
unfoldable pub has_active_stripe_plan : List Entitlement → Bool
unfolding is_active_stripe_plan
has_active_stripe_plan [] = false
has_active_stripe_plan (e ∷ es) =
    let rest = has_active_stripe_plan es in if is_active_stripe_plan e then true else rest
