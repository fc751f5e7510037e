-- ===== src/ApiAccess/MemStore/Tests.antt =====
-- Calls of the store of apiaccess/apiaccesstest/memstore.go.
use api_gatewahy.Base.{
  ℕ, pos, ◌≤◌, ◌≡◌, refl, Bool, true, false, Option, none, some, List, [], ◌∷◌, Text, codes, length,
  Result, ok, err, arith,
}
use api_gatewahy.ApiAccess.Entitlement.{Entitlement, Source, active}
use api_gatewahy.ApiAccess.Key.{key_live}
use api_gatewahy.ApiAccess.Usage.{Invite}
use api_gatewahy.ApiAccess.MemStore.{
  MemStore, StoreError, Faults, new, invite_invalid, nonce_used, unique_violation,
}
use api_gatewahy.ApiAccess.MemStore.Tokens.{
  consume_nonce, create_invite, consume_invite, release_invite,
}
use api_gatewahy.ApiAccess.MemStore.Run.{
  Call, creates_account, sets_stripe_customer_id, creates_key, upserts_stripe_entitlement, perform,
  perform_all,
}
use api_gatewahy.ApiAccess.MemStore.Run.Kept.{perform_all-new}
use api_gatewahy.ApiAccess.MemStore.Sound.{IsSound}
use api_gatewahy.ApiAccess.MemStore.Nonces.{consume_all, consume_nonce_once}
use api_gatewahy.ApiAccess.MemStore.Invites.{invite_of, consume_invite_once}

-- A hash for the tests, which keeps what it is given.
abbrev hash : Text → Text
hash s = s

abbrev stripe_row : Entitlement
stripe_row = record {
  id = 0;
  account_id = 1;
  source = Source.stripe;
  games = codes "mtg" ∷ [];
  store_scope = codes "ALL_ACCESS";
  modes = codes "retail" ∷ [];
  addons = [];
  lookback_days = pos 0;
  status = active;
  valid_from = 5000;
  valid_until = none;
  external_ref = codes "sub_1";
  note = [];
  created_at = 0;
}

abbrev same_bytes : ℕ → Option (List ℕ)
same_bytes i = some (0 ∷ 1 ∷ 2 ∷ 3 ∷ 4 ∷ 5 ∷ 6 ∷ 7 ∷ [])

-- The second account, the second key and the second customer are refused; the second row is an update.
abbrev calls : List Call
calls =
    creates_account 1000 (codes " A@x.com") []
    ∷ creates_account 1000 (codes "a@X.com ") []
    ∷ creates_key same_bytes 1000 1 [] key_live
    ∷ creates_key same_bytes 1000 1 [] key_live
    ∷ sets_stripe_customer_id 1 (codes "cus_1")
    ∷ sets_stripe_customer_id 1 (codes "cus_2")
    ∷ upserts_stripe_entitlement 2000 false stripe_row
    ∷ upserts_stripe_entitlement 2000 false stripe_row
    ∷ []

abbrev no_faults : Faults
no_faults = record { fail = []; fail_at = []; fail_from = []; fail_id = [] }

abbrev after_calls : MemStore
after_calls = perform_all hash calls (record new { faults = no_faults })

one_of_each :
    (length after_calls.accounts ≡ 1)
    × (length after_calls.keys ≡ 1)
    × (length after_calls.ents ≡ 1)
unfolding perform_all perform api_gatewahy.Base.lookup api_gatewahy.Base.find_first
    api_gatewahy.Base.eqb api_gatewahy.Base.to_lower api_gatewahy.Base.trim_space
    api_gatewahy.ApiAccess.Key.generate_key api_gatewahy.Base.update_first
    api_gatewahy.ApiAccess.Canonical.canonical_entitlement
    api_gatewahy.ApiAccess.Modes.validate_modes api_gatewahy.Base.contains
    api_gatewahy.ApiAccess.Entitlement.is_history api_gatewahy.ApiAccess.Scope.canonical_store_scope
    api_gatewahy.Base.to_upper
one_of_each = (refl, refl, refl)

perform_all-new_example : IsSound after_calls
perform_all-new_example = perform_all-new hash calls no_faults

abbrev nonce : Text
nonce = codes "n"

consume_nonce_once_example :
    (consume_nonce nonce 9_000 5_000
      (consume_all ((codes "m", 3_000, 4_000) ∷ []) (consume_nonce nonce 5_000 1_000 new).1)).0
    ≡ err nonce_used
unfolding consume_nonce api_gatewahy.Base.lookup
consume_nonce_once_example =
    consume_nonce_once nonce 5_000 9_000 1_000 5_000 ((codes "m", 3_000, 4_000) ∷ []) new refl refl
      refl (omega arith)

abbrev invited : MemStore
invited = (create_invite hash 1_000 (codes "yearly") [] 8_000 [] (some (codes "t")) new).1

abbrev spent : Result StoreError Invite × MemStore
spent = consume_invite hash (codes "t") (codes "a@x.com") 2_000 invited

abbrev spent_invite : Invite
spent_invite = record {
  token_hash = codes "t";
  interval_key = codes "yearly";
  email = [];
  expires_at = 9_000;
  used_at = some 2_000;
  created_at = 1_000;
  note = [];
}

consume_invite_once_example :
    ((email : Text) (now : ℕ)
      → (consume_invite hash (codes "t") email now spent.1).0 ≡ err invite_invalid)
    × (invite_of hash (codes "t") (release_invite hash (codes "t") spent.1).1
        ≡ invite_of hash (codes "t") invited)
unfolding consume_invite api_gatewahy.Base.lookup create_invite api_gatewahy.Base.insert_key
    api_gatewahy.Base.eqb api_gatewahy.ApiAccess.MemStore.normalize_email api_gatewahy.Base.to_lower
    api_gatewahy.Base.trim_space
consume_invite_once_example =
    consume_invite_once hash (codes "t") (codes "a@x.com") 2_000 spent_invite invited spent.1 refl
      refl refl
