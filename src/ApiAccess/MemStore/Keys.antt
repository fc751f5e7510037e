-- ===== src/ApiAccess/MemStore/Keys.antt =====
-- The operations on API keys of apiaccess/apiaccesstest/memstore.go.
use api_gatewahy.Base.{
  ℕ, zero, suc, ◌+◌, Bool, true, false, ◌&&◌, ◌||◌, Option, none, some, List, [], ◌∷◌, ◌++◌, Text,
  codes, eqb, any, filter, length, find_first, update_first, ok, err, map, ◌==◌, if◌then◌else◌,
}
use api_gatewahy.ApiAccess.MemStore.{
  not_found, unique_violation, foreign_key, no_randomness, ambiguous_prefix, pg_time, pg_time_ptr,
  Operation, entered,
}
use api_gatewahy.ApiAccess.Key.{Account, Key, KeyKind, generate_key}
use api_gatewahy.ApiAccess.MemStore.Accounts.{account_of}

-- createKeyAttempts
abbrev pub create_key_attempts : ℕ
create_key_attempts = 4

abbrev pub is_live : Key → Bool
is_live k = elim k.revoked_at [ none ↦ true | some t ↦ false ]

abbrev pub lives_with : Text → Key → Bool
lives_with prefix k = eqb k.prefix prefix && is_live k

-- copyKey
unfoldable pub copy_key : Key → Key
unfolding pg_time_ptr
copy_key k = record k {
  last_used_at = pg_time_ptr k.last_used_at;
  revoked_at = pg_time_ptr k.revoked_at;
}

-- The row of a new key.
abbrev pub new_key : ℕ → ℕ → ℕ → Text → Text → Text → KeyKind → Key
new_key id clock account_id hash prefix label kind = record {
  id = id;
  account_id = account_id;
  hash = hash;
  prefix = prefix;
  label = label;
  kind = kind;
  created_at = pg_time clock;
  last_used_at = none;
  revoked_at = none;
}

unfoldable pub revoke : ℕ → Key → Key
unfolding pg_time
revoke clock k = record k { revoked_at = some (pg_time clock) }

-- The key that a revocation names, or its error: every attempt of RevokeKey and of its variant.
unfoldable pub revoked_row : ℕ → (Key → Bool) → Option Key → Operation Key
unfolding revoke copy_key
revoked_row clock p none m = (err not_found, m)
revoked_row clock p (some k) m =
    (ok (copy_key (revoke clock k)), record m { keys = update_first p (revoke clock) m.keys })

abbrev pub revocable : ℕ → ℕ → Key → Bool
revocable id account_id k =
    (k.id == id && is_live k) && (account_id == 0 || k.account_id == account_id)

-- RevokeKey
unfoldable pub revoke_key : ℕ → ℕ → ℕ → Operation Key
unfolding entered revoked_row
revoke_key clock id account_id = entered (codes "RevokeKey") id (λ m.
    revoked_row clock (revocable id account_id) (find_first (revocable id account_id) m.keys) m)

-- The switch on the live keys of the prefix.
unfoldable pub revoke_only : ℕ → Text → List Key → Operation Key
unfolding revoked_row
revoke_only clock prefix [] m = (err not_found, m)
revoke_only clock prefix (k ∷ []) m = revoked_row clock (lives_with prefix) (some k) m
revoke_only clock prefix (k ∷ j ∷ ks) m = (err (ambiguous_prefix prefix (length (k ∷ j ∷ ks))), m)

-- RevokeKeyByPrefix
unfoldable pub revoke_key_by_prefix : ℕ → Text → Operation Key
unfolding entered revoke_only
revoke_key_by_prefix clock prefix =
    entered (codes "RevokeKeyByPrefix") 0
      (λ m. revoke_only clock prefix (filter (lives_with prefix) m.keys) m)

-- ListKeys
unfoldable pub list_keys : ℕ → Operation (List Key)
unfolding entered
list_keys account_id =
    entered (codes "ListKeys") account_id
      (λ m. (ok (map copy_key (filter (λ k. k.account_id == account_id) m.keys)), m))

-- `hash_key` is apiaccess.HashKey, and `rand` the bytes of rand.Read in each attempt, none where it fails.
module _ (hash_key : Text → Text) (rand : ℕ → Option (List ℕ)) where
  -- The key of an attempt, whose prefix no live key holds.
  unfoldable pub add_key : ℕ → ℕ → Text → KeyKind → Text × Text → Operation (Text × Key)
  unfolding copy_key
  add_key clock account_id label kind (plaintext, prefix) m =
      let k = new_key (m.key_seq + 1) clock account_id (hash_key plaintext) prefix label kind in
      (ok (plaintext, copy_key k), record m { keys = m.keys ++ (k ∷ []); key_seq = m.key_seq + 1 })

  -- An attempt, and the `rest` of the loop, which runs where the prefix is held.
  unfoldable pub attempt_key :
      ℕ
      → ℕ
      → Text
      → KeyKind
      → Operation (Text × Key)
      → Option (List ℕ)
      → Option Account
      → Operation (Text × Key)
  unfolding add_key
  attempt_key clock account_id label kind rest none a m = (err no_randomness, m)
  attempt_key clock account_id label kind rest (some bytes) none m = (err foreign_key, m)
  attempt_key clock account_id label kind rest (some bytes) (some a) m =
      if any (lives_with (generate_key kind bytes).1) m.keys
      then rest m
      else add_key clock account_id label kind (generate_key kind bytes) m

  -- The loop of CreateKey: `left` attempts from the attempt `i` on.
  unfoldable pub create_key_from : ℕ → ℕ → Text → KeyKind → ℕ → ℕ → Operation (Text × Key)
  unfolding attempt_key account_of
  create_key_from clock account_id label kind i zero m = (err unique_violation, m)
  create_key_from clock account_id label kind i (suc left) m =
      attempt_key clock account_id label kind
        (create_key_from clock account_id label kind (i + 1) left) (rand i)
        (account_of account_id m) m

  -- CreateKey
  unfoldable pub create_key : ℕ → ℕ → Text → KeyKind → Operation (Text × Key)
  unfolding entered create_key_from
  create_key clock account_id label kind =
      entered (codes "CreateKey") account_id
        (create_key_from clock account_id label kind 0 create_key_attempts)
