-- ===== src/ApiAccess/MemStore.antt =====
-- apiaccess/apiaccesstest/memstore.go: the store of accounts, keys, rows, tokens and events in memory,
-- which follows the client's SQL. An operation takes the store and returns its result and the store
-- after it; the mutex makes it one piece. `clock` is what m.Now() reads during the operation.
pub mod Accounts
pub mod Keys
pub mod Rows
pub mod Trials
pub mod Tokens
pub mod Reports
pub mod Audit
pub mod Sound
pub mod Run
pub mod Invites
pub mod Nonces
mod Tests
use api_gatewahy.Base.{
  ℕ, ◌+◌, ◌*◌, ◌/◌, Bool, true, false, not, ◌&&◌, ◌||◌, Option, none, some, List, [], ◌∷◌, ◌++◌,
  Text, codes, lookup, insert_key, Result, ok, err, to_lower, trim_space, ltb, ◌==◌, if◌then◌else◌,
}
use api_gatewahy.ApiAccess.Entitlement.{Entitlement}
use api_gatewahy.ApiAccess.Canonical.{EntitlementError}
use api_gatewahy.ApiAccess.Key.{Account, Key}
use api_gatewahy.ApiAccess.Usage.{Usage, AdminAction, Invite, Trial}

pub data StoreError : Type 0 where
  not_found unique_violation foreign_key invalid_status null_games ref_required : StoreError
  stripe_entitlement trial_too_soon invite_invalid nonce_used negative_limit no_randomness :
      StoreError
  invalid_row : EntitlementError → StoreError
  ambiguous_prefix : Text → ℕ → StoreError
  injected : Text → StoreError

-- The maps Fail, FailAt, FailFrom and FailID, by method.
pub record Faults : Type 0 where
  pub fail : List (Text × StoreError)
  pub fail_at : List (Text × ℕ)
  pub fail_from : List (Text × ℕ)
  pub fail_id : List (Text × ℕ)

pub record MagicLink : Type 0 where
  pub account_id : ℕ
  pub expires_at : ℕ
  pub used : Bool

pub record ClaimedEvent : Type 0 where
  pub received_at : ℕ
  pub processed : Bool

-- The identity sequences of `seq` are one field for each table.
pub record MemStore : Type 0 where
  pub faults : Faults
  pub calls : List (Text × ℕ)
  pub notified : List Text
  pub accounts : List Account
  pub keys : List Key
  pub ents : List Entitlement
  pub usage : List Usage
  pub trials : List Trial
  pub invites : List (Text × Invite)
  pub links : List (Text × MagicLink)
  pub events : List (Text × ClaimedEvent)
  pub nonces : List (Text × ℕ)
  pub actions : List AdminAction
  pub account_seq : ℕ
  pub key_seq : ℕ
  pub ent_seq : ℕ
  pub trial_seq : ℕ
  pub action_seq : ℕ

-- New
abbrev pub new : MemStore
new = record {
  faults = record { fail = []; fail_at = []; fail_from = []; fail_id = [] };
  calls = [];
  notified = [];
  accounts = [];
  keys = [];
  ents = [];
  usage = [];
  trials = [];
  invites = [];
  links = [];
  events = [];
  nonces = [];
  actions = [];
  account_seq = 0;
  key_seq = 0;
  ent_seq = 0;
  trial_seq = 0;
  action_seq = 0;
}

-- pgTime: the nearest microsecond, a half upwards.
unfoldable pub pg_time : ℕ → ℕ
pg_time t = (t + 500) / 1000 * 1000

unfoldable pub pg_time_ptr : Option ℕ → Option ℕ
unfolding pg_time
pg_time_ptr none = none
pg_time_ptr (some t) = some (pg_time t)

-- apiaccess.NormalizeEmail
unfoldable pub normalize_email : Text → Text
normalize_email s = to_lower (trim_space s)

abbrev count_of : Option ℕ → ℕ
count_of none = 0
count_of (some n) = n

abbrev pub differs : Option ℕ → ℕ → Bool
differs none n = false
differs (some at) n = not (at == n)

abbrev pub starts_after : Option ℕ → ℕ → Bool
starts_after none n = false
starts_after (some from) n = ltb n from

-- The failure that the n-th call of a method about the id returns on entry.
unfoldable pub failure : Faults → Text → ℕ → ℕ → Option StoreError
failure f method id n =
    if differs (lookup method f.fail_at) n
      || starts_after (lookup method f.fail_from) n
      || differs (lookup method f.fail_id) id
    then none
    else lookup method f.fail

-- enterID: the call is counted, and its injected failure is returned; an id of 0 is that of `enter`.
unfoldable pub enter_id : Text → ℕ → MemStore → Option StoreError × MemStore
unfolding failure
enter_id method id m =
    let n = count_of (lookup method m.calls) + 1 in
    (failure m.faults method id n, record m { calls = insert_key method n m.calls })

abbrev pub Operation : Type 0 → Type 0
Operation A = MemStore → Result StoreError A × MemStore

abbrev pub after_entry :
    {A : Type 0} → Operation A → Option StoreError × MemStore → Result StoreError A × MemStore
after_entry body (some e, m) = (err e, m)
after_entry body (none, m) = body m

-- The start that all methods share.
unfoldable pub entered : {A : Type 0} → Text → ℕ → Operation A → Operation A
unfolding enter_id
entered method id body m = after_entry body (enter_id method id m)
