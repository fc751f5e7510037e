-- ===== src/ApiAccess/MemStore/Sound.antt =====
-- The constraints that Postgres keeps, for the store of apiaccess/apiaccesstest/memstore.go.
pub mod Accounts
pub mod Keys
pub mod Rows
pub mod Trials
use api_gatewahy.Base.{
  ℕ, ◌≡◌, Bool, true, false, not, ◌&&◌, ◌||◌, List, [], ◌∷◌, Text, eqb, is_empty, distinct, any,
  all, map, numbered, ◌==◌, if◌then◌else◌,
}
use api_gatewahy.ApiAccess.Entitlement.{Entitlement}
use api_gatewahy.ApiAccess.Key.{Account, Key}
use api_gatewahy.ApiAccess.MemStore.{MemStore}
use api_gatewahy.ApiAccess.MemStore.Keys.{is_live}

abbrev pub account_ids : List Account → List ℕ
account_ids = map (λ a. a.id)

abbrev pub emails : List Account → List Text
emails = map (λ a. a.email)

-- The customers of Stripe that are set.
abbrev pub customers : List Account → List Text
customers [] = []
customers (a ∷ xs) =
    if is_empty a.stripe_customer_id then customers xs else a.stripe_customer_id ∷ customers xs

abbrev pub live_prefixes : List Key → List Text
live_prefixes [] = []
live_prefixes (k ∷ ks) = if is_live k then k.prefix ∷ live_prefixes ks else live_prefixes ks

-- The external references that are set.
abbrev pub refs : List Entitlement → List Text
refs [] = []
refs (e ∷ es) = if is_empty e.external_ref then refs es else e.external_ref ∷ refs es

abbrev pub known : List ℕ → ℕ → Bool
known ids id = any (λ j. j == id) ids

-- Ids rise with the sequence, and no email and no customer stands twice.
pub record SoundAccounts (seq : ℕ) (xs : List Account) : Type 0 where
  pub ids : numbered seq (account_ids xs) ≡ true
  pub unique_emails : distinct (emails xs) ≡ true
  pub unique_customers : distinct (customers xs) ≡ true

-- No prefix stands on two live keys, and each key is of an account.
pub record SoundKeys (seq : ℕ) (accounts : List ℕ) (ks : List Key) : Type 0 where
  pub ids : numbered seq (map (λ k. k.id) ks) ≡ true
  pub unique_prefixes : distinct (live_prefixes ks) ≡ true
  pub owners : all (λ k. known accounts k.account_id) ks ≡ true

-- No external reference stands twice, and each row is of an account.
pub record SoundRows (seq : ℕ) (accounts : List ℕ) (es : List Entitlement) : Type 0 where
  pub ids : numbered seq (map (λ e. e.id) es) ≡ true
  pub unique_refs : distinct (refs es) ≡ true
  pub owners : all (λ e. known accounts e.account_id) es ≡ true

abbrev pub IsSound : MemStore → Type 0
IsSound m =
    SoundAccounts m.account_seq m.accounts
    × SoundKeys m.key_seq (account_ids m.accounts) m.keys
    × SoundRows m.ent_seq (account_ids m.accounts) m.ents
