-- ===== src/ApiAccess/Grants.antt =====
-- apiaccess/admin_rules.go: the manual grant that both admins collect, key kinds, and lists.
pub mod Accepted
use api_gatewahy.Base.{
  ℕ, ℤ, pos, Bool, true, false, not, ◌&&◌, Option, none, some, List, [], ◌∷◌, ◌++◌, Text, codes,
  is_empty, contains, trim_space, split, join, length, ltb, ◌==◌, lt_ℤ, eq_ℤ, Result, ok, err,
  parse_date, if◌then◌else◌,
}
use api_gatewahy.ApiAccess.Entitlement.{
  Entitlement, Source, EntitlementStatus, manual, unset, mode_history, max_lookback_days,
  has_active_stripe_plan,
}
use api_gatewahy.ApiAccess.Key.{KeyKind, key_live, key_demo}
use api_gatewahy.ApiAccess.Modes.{ModesError, validate_modes}
use api_gatewahy.ApiAccess.Scope.{ScopeError, canonical_store_scope}

pub record ManualGrantInput : Type 0 where
  pub account_id : ℕ
  pub games : List Text
  pub stores : Text
  pub modes : List Text
  pub lookback : ℤ
  pub until : Text
  pub note : Text

-- A constructor for each refusal; its message and field are fixed by the constructor.
pub data GrantError : Type 0 where
  no_games history_beside history_stores lookback_low lookback_high lookback_misplaced : GrantError
  unknown_game : Text → GrantError
  bad_modes : ModesError → GrantError
  bad_stores : ScopeError → GrantError
  until_format until_past : GrantError

-- The loop over the games: the first that is not configured.
first_missing : List Text → List Text → Option Text
first_missing games [] = none
first_missing games (g ∷ gs) =
    let rest = first_missing games gs in if contains games g then rest else some g

-- The `switch` on the history rule.
history_refusal : ManualGrantInput → List Text → Option GrantError
history_refusal i modes =
    let history = contains modes mode_history in
    if history && not (length modes == 1)
    then some history_beside
    else if history && not (is_empty (trim_space i.stores))
    then some history_stores
    else if history && lt_ℤ i.lookback (pos 1)
    then some lookback_low
    else if history && lt_ℤ (pos max_lookback_days) i.lookback
    then some lookback_high
    else if not history && not (eq_ℤ i.lookback (pos 0))
    then some lookback_misplaced
    else none

abbrev grant : ManualGrantInput → List Text → Text → Entitlement
grant i modes scope = record {
  id = 0;
  account_id = i.account_id;
  source = manual;
  games = i.games;
  store_scope = scope;
  modes = modes;
  addons = [];
  lookback_days = i.lookback;
  status = unset;
  valid_from = 0;
  valid_until = none;
  external_ref = [];
  note = i.note;
  created_at = 0;
}

until_date : ℕ → Entitlement → Option ℕ → Result GrantError Entitlement
until_date now e none = err until_format
until_date now e (some t) =
    if ltb t now then err until_past else ok (record e { valid_until = some t })

with_until : ManualGrantInput → ℕ → Entitlement → Result GrantError Entitlement
with_until i now e = if is_empty i.until then ok e else until_date now e (parse_date i.until)

with_stores :
    ManualGrantInput → ℕ → List Text → Result ScopeError Text → Result GrantError Entitlement
with_stores i now modes (err x) = err (bad_stores x)
with_stores i now modes (ok scope) = with_until i now (grant i modes scope)

unrefused : ManualGrantInput → ℕ → List Text → Option GrantError → Result GrantError Entitlement
unrefused i now modes (some x) = err x
unrefused i now modes none =
    with_stores i now modes
      (if contains modes mode_history then ok [] else canonical_store_scope i.stores)

granted_modes : ManualGrantInput → ℕ → Result ModesError (List Text) → Result GrantError Entitlement
granted_modes i now (err x) = err (bad_modes x)
granted_modes i now (ok modes) = unrefused i now modes (history_refusal i modes)

known_games : ManualGrantInput → ℕ → Option Text → Result GrantError Entitlement
known_games i now (some g) = err (unknown_game g)
known_games i now none = granted_modes i now (validate_modes i.modes)

nonempty_games : ManualGrantInput → List Text → ℕ → List Text → Result GrantError Entitlement
nonempty_games i games now [] = err no_games
nonempty_games i games now (g ∷ gs) = known_games i now (first_missing games (g ∷ gs))

-- ManualGrant
unfoldable pub manual_grant : ManualGrantInput → List Text → ℕ → Result GrantError Entitlement
unfolding first_missing history_refusal until_date with_until with_stores unrefused granted_modes
    known_games nonempty_games
manual_grant i games now = nonempty_games i games now i.games

-- KeyKindFor
pub key_kind_for : List Entitlement → KeyKind
key_kind_for ents = if has_active_stripe_plan ents then key_live else key_demo

-- The pieces of a split, trimmed, but for the blank ones.
unfoldable pub trimmed : List Text → List Text
trimmed [] = []
trimmed (part ∷ parts) =
    let p = trim_space part in let rest = trimmed parts in if is_empty p then rest else p ∷ rest

-- SplitList
unfoldable pub split_list : Text → List Text
unfolding trimmed
split_list s = trimmed (split s b',')
