-- ===== src/ApiAccess/MemStore/Accounts.antt =====
-- The operations on accounts of apiaccess/apiaccesstest/memstore.go.
use api_gatewahy.Base.{
  ℕ, ◌+◌, Bool, not, ◌&&◌, Option, none, some, List, [], ◌∷◌, ◌++◌, Text, codes, eqb, is_empty, any,
  filter, take, find_first, update_first, sort_by, leb_text, contains_text, to_lower, trim_space,
  Result, ok, err, ◌==◌, if◌then◌else◌,
}
use api_gatewahy.ApiAccess.MemStore.{
  StoreError, not_found, unique_violation, invalid_status, MemStore, pg_time, normalize_email,
  Operation, entered,
}
use api_gatewahy.ApiAccess.Key.{Account, AccountStatus, active}

abbrev pub has_id : ℕ → Account → Bool
has_id id a = a.id == id

abbrev pub has_email : Text → Account → Bool
has_email email a = eqb a.email email

abbrev pub has_customer : Text → Account → Bool
has_customer customer a = not (is_empty a.stripe_customer_id) && eqb a.stripe_customer_id customer

-- account
unfoldable pub account_of : ℕ → MemStore → Option Account
account_of id m = find_first (has_id id) m.accounts

-- accountByEmail
unfoldable pub account_by_email : Text → MemStore → Option Account
account_by_email email m = find_first (has_email (normalize_email email)) m.accounts

-- A write through the pointer that account returned.
unfoldable pub write_account : ℕ → (Account → Account) → MemStore → MemStore
write_account id f m = record m { accounts = update_first (has_id id) f m.accounts }

-- insertAccount
unfoldable pub insert_account : ℕ → Text → Text → MemStore → Account × MemStore
insert_account clock email note m =
    let a : Account = record {
      id = m.account_seq + 1;
      email = normalize_email email;
      status = active;
      created_at = pg_time clock;
      note = note;
      stripe_customer_id = [];
      session_epoch = 0;
    } in
    (a, record m { accounts = m.accounts ++ (a ∷ []); account_seq = m.account_seq + 1 })

unfoldable pub inserted_account : Account × MemStore → Result StoreError Account × MemStore
inserted_account (a, m) = (ok a, m)

unfoldable pub create_unless : ℕ → Text → Text → Option Account → Operation Account
unfolding inserted_account insert_account
create_unless clock email note (some a) m = (err unique_violation, m)
create_unless clock email note none m = inserted_account (insert_account clock email note m)

-- CreateAccount
unfoldable pub create_account : ℕ → Text → Text → Operation Account
unfolding entered create_unless account_by_email
create_account clock email note =
    entered (codes "CreateAccount") 0
      (λ m. create_unless clock email note (account_by_email email m) m)

abbrev pub or_not_found : {A : Type 0} → Option A → Result StoreError A
or_not_found none = err not_found
or_not_found (some a) = ok a

-- GetAccountByEmail
unfoldable pub get_account_by_email : Text → Operation Account
unfolding entered account_by_email
get_account_by_email email =
    entered (codes "GetAccountByEmail") 0 (λ m. (or_not_found (account_by_email email m), m))

-- GetAccount
unfoldable pub get_account : ℕ → Operation Account
unfolding entered account_of
get_account id = entered (codes "GetAccount") id (λ m. (or_not_found (account_of id m), m))

-- A write of the account and what is returned of it, or ErrNotFound.
unfoldable pub change_account :
    {A : Type 0} → ℕ → (Account → Account) → (Account → A) → Option Account → Operation A
unfolding write_account
change_account id f got none m = (err not_found, m)
change_account id f got (some a) m = (ok (got (f a)), write_account id f m)

abbrev pub with_status : AccountStatus → Account → Account
with_status status a = record a { status = status }

unfoldable pub set_valid_status : ℕ → Option AccountStatus → Operation AccountStatus
unfolding change_account account_of
set_valid_status id none m = (err invalid_status, m)
set_valid_status id (some status) m =
    change_account id (with_status status) (λ a. a.status) (account_of id m) m

-- SetAccountStatus; `none` is a string that is no status.
unfoldable pub set_account_status : ℕ → Option AccountStatus → Operation AccountStatus
unfolding entered set_valid_status
set_account_status id status = entered (codes "SetAccountStatus") id (set_valid_status id status)

abbrev pub with_customer : Text → Account → Account
with_customer customer a = record a { stripe_customer_id = customer }

unfoldable pub set_customer : ℕ → Text → Option Account → Operation Text
unfolding write_account
set_customer id customer none m = (err not_found, m)
set_customer id customer (some a) m =
    if not (is_empty a.stripe_customer_id)
    then (ok a.stripe_customer_id, m)
    else if any (λ other. not (is_empty customer) && eqb other.stripe_customer_id customer)
        m.accounts
    then (err unique_violation, m)
    else (ok customer, write_account id (with_customer customer) m)

-- SetStripeCustomerID
unfoldable pub set_stripe_customer_id : ℕ → Text → Operation Text
unfolding entered set_customer account_of
set_stripe_customer_id id customer =
    entered (codes "SetStripeCustomerID") id (λ m. set_customer id customer (account_of id m) m)

-- GetAccountByStripeCustomer
unfoldable pub get_account_by_stripe_customer : Text → Operation Account
unfolding entered
get_account_by_stripe_customer customer =
    entered (codes "GetAccountByStripeCustomer") 0
      (λ m. (or_not_found (find_first (has_customer customer) m.accounts), m))

unfoldable pub get_or_insert : ℕ → Text → Text → Option Account → Operation Account
unfolding inserted_account insert_account
get_or_insert clock email note (some a) m = (ok a, m)
get_or_insert clock email note none m = inserted_account (insert_account clock email note m)

-- GetOrCreateAccount
unfoldable pub get_or_create_account : ℕ → Text → Text → Operation Account
unfolding entered get_or_insert account_by_email
get_or_create_account clock email note =
    entered (codes "GetOrCreateAccount") 0
      (λ m. get_or_insert clock email note (account_by_email email m) m)

abbrev pub with_note : Text → Account → Account
with_note note a = record a { note = note }

-- SetAccountNote
unfoldable pub set_account_note : ℕ → Text → Operation Text
unfolding entered change_account account_of
set_account_note id note =
    entered (codes "SetAccountNote") id
      (λ m. change_account id (with_note note) (λ a. a.note) (account_of id m) m)

-- SearchAccounts
unfoldable pub search_accounts : Text → Operation (List Account)
unfolding entered
search_accounts q = entered (codes "SearchAccounts") 0 (λ m. (
  ok (
      take 200 (
        sort_by (λ a b. leb_text a.email b.email)
          (filter (λ a. contains_text (to_lower a.email) (to_lower (trim_space q))) m.accounts))),
  m,
))

-- ListAccounts
unfoldable pub list_accounts : Operation (List Account)
unfolding entered
list_accounts = entered (codes "ListAccounts") 0 (λ m. (ok m.accounts, m))

abbrev pub bumped : Account → Account
bumped a = record a { session_epoch = a.session_epoch + 1 }

-- BumpSessionEpoch
unfoldable pub bump_session_epoch : ℕ → Operation ℕ
unfolding entered change_account account_of
bump_session_epoch id =
    entered (codes "BumpSessionEpoch") id
      (λ m. change_account id bumped (λ a. a.session_epoch) (account_of id m) m)
