-- ===== src/ApiAccess/MemStore/Sound/Trials.antt =====
-- The start of a method and the operations on trials keep the store of apiaccess/apiaccesstest/memstore.go sound.
use api_gatewahy.Base.{
  ℕ, ◌+◌, ◌≡◌, refl, Bool, true, Option, none, some, Text, any, Result, ok, err, Bool-cases, inl,
  inr,
}
use api_gatewahy.ApiAccess.Entitlement.{Entitlement}
use api_gatewahy.ApiAccess.MemStore.{
  MemStore, StoreError, Operation, enter_id, after_entry, entered,
}
use api_gatewahy.ApiAccess.MemStore.Accounts.{account_of}
use api_gatewahy.ApiAccess.MemStore.Rows.{account_known, check_columns, ent_by_ref}
use api_gatewahy.ApiAccess.MemStore.Trials.{
  insert_trial, new_trial, with_trial, trial_unless, trial_checked, trial_for, trial_of,
  granted_after,
}
use api_gatewahy.ApiAccess.MemStore.Sound.{account_ids, known, IsSound}
use api_gatewahy.ApiAccess.MemStore.Sound.Rows.{insert_entitlement-IsSound, check_columns-known}

trial_unless-IsSound :
    (clock : ℕ) (email : Text) (ends_at : ℕ) (e : Entitlement) (o : Option Entitlement)
    (m : MemStore)
    → ent_by_ref e.external_ref m ≡ o
    → known (account_ids m.accounts) e.account_id ≡ true
    → IsSound m
    → IsSound (trial_unless clock email ends_at e o m).1
unfolding trial_unless insert_trial ent_by_ref
trial_unless-IsSound clock email ends_at e (some x) m h k w = w
trial_unless-IsSound clock email ends_at e none m h k w =
    insert_entitlement-IsSound clock e
      (with_trial (new_trial (m.trial_seq + 1) clock email e.account_id ends_at) m) h k w

trial_checked-IsSound :
    (clock : ℕ) (email : Text) (ends_at : ℕ) (b : Bool) (e : Entitlement) (o : Option StoreError)
    (m : MemStore)
    → check_columns b e m ≡ o
    → IsSound m
    → IsSound (trial_checked clock email ends_at e o m).1
unfolding trial_checked
trial_checked-IsSound clock email ends_at b e (some f) m h w = w
trial_checked-IsSound clock email ends_at b e none m h w =
    trial_unless-IsSound clock email ends_at e (ent_by_ref e.external_ref m) m refl
      (check_columns-known b e m h) w

-- The start of a method touches no table.
pub entered-IsSound :
    {A : Type 0} (method : Text) (id : ℕ) (body : Operation A) (m : MemStore)
    → ((n : MemStore) → IsSound n → IsSound (body n).1)
    → IsSound m
    → IsSound (entered method id body m).1
unfolding entered enter_id
entered-IsSound method id body m h w = go (enter_id method id m).0
  where
    go : (o : Option StoreError) → IsSound (after_entry body (o, (enter_id method id m).1)).1
    go none = h (enter_id method id m).1 w
    go (some f) = w

trial_for-IsSound :
    (clock : ℕ) (email : Text) (ends_at : ℕ) (b : Bool) (e : Entitlement) (o : Option StoreError)
    (m : MemStore)
    → IsSound m
    → IsSound (trial_for clock email ends_at b e o m).1
unfolding trial_for
trial_for-IsSound clock email ends_at b e (some f) m w = w
trial_for-IsSound clock email ends_at b e none m w =
    entered-IsSound _ 0 _ m
      (λ n v. trial_checked-IsSound clock email ends_at b e (check_columns b e n) n refl v) w

pub trial_of-IsSound :
    (clock : ℕ) (email : Text) (ends_at not_before : ℕ) (b : Bool)
    (r : Result StoreError Entitlement) (m : MemStore)
    → IsSound m
    → IsSound (trial_of clock email ends_at not_before b r m).1
unfolding trial_of account_of
trial_of-IsSound clock email ends_at not_before b (err f) m w = w
trial_of-IsSound clock email ends_at not_before b (ok e) m w =
    elim (Bool-cases (any (granted_after email not_before) m.trials)) [
      | inl t ↦ simp t w
      | inr f ↦ simp f (
          trial_for-IsSound clock email ends_at b e (account_known (account_of e.account_id m)) m w)
    ]
