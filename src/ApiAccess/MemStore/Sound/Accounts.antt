-- ===== src/ApiAccess/MemStore/Sound/Accounts.antt =====
-- The operations on accounts keep the store of apiaccess/apiaccesstest/memstore.go sound.
use api_gatewahy.Base.{
  ℕ, ◌+◌, ◌≡◌, refl, sym, ap, subst, Bool, true, false, not, ◌&&◌, ◌||◌, Option, none, some, List,
  [], ◌∷◌, ◌++◌, Text, eqb, eqb_iff, eqb→≡, eqb_symm, is_empty, contains, distinct, distinct-append,
  any, any-append, all, find_first, update_first, map-update_first, numbered, numbered-append,
  Bool-cases, inl, inr, arith, ◌==◌,
}
use mathlib.Core.List.{map-append}
use api_gatewahy.ApiAccess.Key.{Account, AccountStatus}
use api_gatewahy.ApiAccess.MemStore.{MemStore, normalize_email}
use api_gatewahy.ApiAccess.MemStore.Accounts.{
  has_id, has_email, account_of, account_by_email, write_account, insert_account, inserted_account,
  create_unless, change_account, with_status, set_valid_status, with_customer, set_customer,
  get_or_insert,
}
use api_gatewahy.ApiAccess.MemStore.Sound.{
  account_ids, emails, customers, known, SoundAccounts, IsSound,
}

known-append : (ids : List ℕ) (j id : ℕ) → known ids id ≡ true → known (ids ++ (j ∷ [])) id ≡ true
known-append ids j id h = ground (arith, any-append (λ i. i == id) ids (j ∷ []))

all_known :
    {A : Type 0} (g : A → ℕ) (ids : List ℕ) (j : ℕ) (xs : List A)
    → all (λ x. known ids (g x)) xs ≡ true
    → all (λ x. known (ids ++ (j ∷ [])) (g x)) xs ≡ true
all_known g ids j [] h = refl
all_known g ids j (x ∷ xs) h = ground (arith, all_known g ids j xs, known-append ids j (g x))

-- More accounts keep the owners known.
grown :
    (m n : MemStore) (j : ℕ)
    → account_ids n.accounts ≡ account_ids m.accounts ++ (j ∷ [])
    → SoundAccounts n.account_seq n.accounts
    → (n.key_seq ≡ m.key_seq) × (n.keys ≡ m.keys) × (n.ent_seq ≡ m.ent_seq) × (n.ents ≡ m.ents)
    → IsSound m
    → IsSound n
grown m n j e a (f1, f2, f3, f4) (b, k, r) =
    simp (e, f1, f2, f3, f4)
      (
        a,
        record {
          ids = k.ids;
          unique_prefixes = k.unique_prefixes;
          owners = all_known (λ x. x.account_id) (account_ids m.accounts) j m.keys k.owners;
        },
        record {
          ids = r.ids;
          unique_refs = r.unique_refs;
          owners = all_known (λ x. x.account_id) (account_ids m.accounts) j m.ents r.owners;
        },
      )

contains-emails :
    (email : Text) (xs : List Account)
    → find_first (has_email email) xs ≡ none
    → contains (emails xs) email ≡ false
unfolding find_first contains
contains-emails email [] h = refl
contains-emails email (a ∷ xs) h = ground (arith, contains-emails email xs)

customers-append :
    (a : Account) (xs : List Account)
    → is_empty a.stripe_customer_id ≡ true
    → customers (xs ++ (a ∷ [])) ≡ customers xs
customers-append a [] h = ground arith
customers-append a (b ∷ xs) h = ground (arith, customers-append a xs)

insert_account-IsSound :
    (clock : ℕ) (email note : Text) (m : MemStore)
    → account_by_email email m ≡ none
    → IsSound m
    → IsSound (insert_account clock email note m).1
unfolding insert_account account_by_email
insert_account-IsSound clock email note m h w =
    let a = (insert_account clock email note m).0 in
    let ids = map-append (λ (x : Account). x.id) m.accounts (a ∷ []) in
    grown m (insert_account clock email note m).1 (m.account_seq + 1) ids
      (record {
        ids =
            subst (λ l. numbered (m.account_seq + 1) l ≡ true) (sym ids)
              (numbered-append m.account_seq (account_ids m.accounts) w.0.ids);
        unique_emails =
            subst (λ l. distinct l ≡ true)
              (sym (map-append (λ (x : Account). x.email) m.accounts (a ∷ [])))
              (distinct-append (emails m.accounts) (normalize_email email) w.0.unique_emails
                (contains-emails (normalize_email email) m.accounts h));
        unique_customers = ground (arith, customers-append a m.accounts refl, w.0.unique_customers);
      })
      (refl, refl, refl, refl) w

pub create_unless-IsSound :
    (clock : ℕ) (email note : Text) (m : MemStore) (o : Option Account)
    → account_by_email email m ≡ o
    → IsSound m
    → IsSound (create_unless clock email note o m).1
unfolding create_unless inserted_account
create_unless-IsSound clock email note m (some a) h w = w
create_unless-IsSound clock email note m none h w = insert_account-IsSound clock email note m h w

pub get_or_insert-IsSound :
    (clock : ℕ) (email note : Text) (m : MemStore) (o : Option Account)
    → account_by_email email m ≡ o
    → IsSound m
    → IsSound (get_or_insert clock email note o m).1
unfolding get_or_insert inserted_account
get_or_insert-IsSound clock email note m (some a) h w = w
get_or_insert-IsSound clock email note m none h w = insert_account-IsSound clock email note m h w

-- A write that keeps the ids of the accounts.
written :
    (m n : MemStore)
    → account_ids n.accounts ≡ account_ids m.accounts
    → SoundAccounts n.account_seq n.accounts
    → (n.key_seq ≡ m.key_seq) × (n.keys ≡ m.keys) × (n.ent_seq ≡ m.ent_seq) × (n.ents ≡ m.ents)
    → IsSound m
    → IsSound n
written m n e a (f1, f2, f3, f4) (b, k, r) = simp (e, f1, f2, f3, f4) (a, k, r)

customers-update_first :
    (p : Account → Bool) (f : Account → Account) (xs : List Account)
    → ((a : Account) → (f a).stripe_customer_id ≡ a.stripe_customer_id)
    → customers (update_first p f xs) ≡ customers xs
unfolding update_first
customers-update_first p f [] h = refl
customers-update_first p f (a ∷ xs) h = ground (arith, h a, customers-update_first p f xs h)

write_account-IsSound :
    (id : ℕ) (f : Account → Account) (m : MemStore)
    → ((a : Account)
        → ((f a).id ≡ a.id)
          × ((f a).email ≡ a.email)
          × ((f a).stripe_customer_id ≡ a.stripe_customer_id))
    → IsSound m
    → IsSound (write_account id f m)
unfolding write_account
write_account-IsSound id f m h w =
    let ids = map-update_first (λ (a : Account). a.id) (has_id id) f m.accounts (λ a. (h a).0) in
    let mails =
      map-update_first (λ (a : Account). a.email) (has_id id) f m.accounts (λ a. (h a).1) in
    let cs = customers-update_first (has_id id) f m.accounts (λ a. (h a).2) in
    written m (write_account id f m) ids
      (record {
        ids = ground (arith, ids, w.0.ids);
        unique_emails = ground (arith, mails, w.0.unique_emails);
        unique_customers = ground (arith, cs, w.0.unique_customers);
      })
      (refl, refl, refl, refl) w

pub change_account-IsSound :
    {A : Type 0} (id : ℕ) (f : Account → Account) (got : Account → A) (o : Option Account)
    (m : MemStore)
    → ((a : Account)
        → ((f a).id ≡ a.id)
          × ((f a).email ≡ a.email)
          × ((f a).stripe_customer_id ≡ a.stripe_customer_id))
    → IsSound m
    → IsSound (change_account id f got o m).1
unfolding change_account
change_account-IsSound id f got none m h w = w
change_account-IsSound id f got (some a) m h w = write_account-IsSound id f m h w

abbrev unset : Option Account → Bool
unset none = true
unset (some a) = is_empty a.stripe_customer_id

-- The customers after one is set where there was none.
contains-set :
    (id : ℕ) (c : Text) (xs : List Account) (a : Account) (z : Text)
    → find_first (has_id id) xs ≡ some a
    → is_empty a.stripe_customer_id ≡ true
    → contains (customers (update_first (has_id id) (with_customer c) xs)) z
      ≡ (contains (customers xs) z || (not (is_empty c) && eqb c z))
unfolding find_first update_first contains
contains-set id c [] a z h e = ground arith
contains-set id c (b ∷ xs) a z h e = ground (arith, contains-set id c xs a z, ap unset h)

distinct-set :
    (id : ℕ) (c : Text) (xs : List Account) (a : Account)
    → find_first (has_id id) xs ≡ some a
    → is_empty a.stripe_customer_id ≡ true
    → contains (customers xs) c ≡ false
    → distinct (customers xs) ≡ true
    → distinct (customers (update_first (has_id id) (with_customer c) xs)) ≡ true
unfolding find_first update_first contains
distinct-set id c [] a h e n d = refl
distinct-set id c (b ∷ xs) a h e n d = ground (
  arith,
  distinct-set id c xs a,
  contains-set id c xs a b.stripe_customer_id,
  eqb_symm c b.stripe_customer_id,
  ap unset h,
)

-- The test of the code is on the rows, that of the constraint on their customers.
any_customer :
    (c : Text) (xs : List Account)
    → any (λ other. not (is_empty c) && eqb other.stripe_customer_id c) xs ≡ false
    → is_empty c ≡ false
    → contains (customers xs) c ≡ false
unfolding contains
any_customer c [] h n = refl
any_customer c (a ∷ xs) h n = ground (arith, any_customer c xs)

same_empty : (s t : Text) → eqb s t ≡ true → is_empty s ≡ is_empty t
same_empty s t e = ap is_empty (eqb→≡ s t e)

no_empty_customer :
    (c : Text) (xs : List Account) → is_empty c ≡ true → contains (customers xs) c ≡ false
unfolding contains
no_empty_customer c [] h = refl
no_empty_customer c (a ∷ xs) h = ground (
  arith,
  no_empty_customer c xs,
  eqb_iff a.stripe_customer_id c,
  same_empty a.stripe_customer_id c,
)

contains-customers :
    (c : Text) (xs : List Account)
    → any (λ other. not (is_empty c) && eqb other.stripe_customer_id c) xs ≡ false
    → contains (customers xs) c ≡ false
contains-customers c xs h = elim (Bool-cases (is_empty c)) [
  | inl y ↦ no_empty_customer c xs y
  | inr n ↦ any_customer c xs h n
]

write_customer-IsSound :
    (id : ℕ) (c : Text) (a : Account) (m : MemStore)
    → account_of id m ≡ some a
    → is_empty a.stripe_customer_id ≡ true
    → contains (customers m.accounts) c ≡ false
    → IsSound m
    → IsSound (write_account id (with_customer c) m)
unfolding write_account account_of
write_customer-IsSound id c a m h e n w =
    let f = with_customer c in
    let ids = map-update_first (λ (x : Account). x.id) (has_id id) f m.accounts (λ x. refl) in
    let mails = map-update_first (λ (x : Account). x.email) (has_id id) f m.accounts (λ x. refl) in
    written m (write_account id f m) ids
      (record {
        ids = ground (arith, ids, w.0.ids);
        unique_emails = ground (arith, mails, w.0.unique_emails);
        unique_customers = distinct-set id c m.accounts a h e n w.0.unique_customers;
      })
      (refl, refl, refl, refl) w

pub set_customer-IsSound :
    (id : ℕ) (c : Text) (o : Option Account) (m : MemStore)
    → account_of id m ≡ o
    → IsSound m
    → IsSound (set_customer id c o m).1
unfolding set_customer
set_customer-IsSound id c none m h w = w
set_customer-IsSound id c (some a) m h w = elim (Bool-cases (is_empty a.stripe_customer_id)) [
  | inr n ↦ simp n w
  | inl y ↦
      elim (Bool-cases
        (any (λ other. not (is_empty c) && eqb other.stripe_customer_id c) m.accounts)) [
          | inl t ↦ simp (y, t) w
          | inr f ↦
              simp (y, f)
                (write_customer-IsSound id c a m h y (contains-customers c m.accounts f) w)
        ]
]

pub set_valid_status-IsSound :
    (id : ℕ) (o : Option AccountStatus) (m : MemStore)
    → IsSound m
    → IsSound (set_valid_status id o m).1
unfolding set_valid_status
set_valid_status-IsSound id none m w = w
set_valid_status-IsSound id (some status) m w =
    change_account-IsSound id (with_status status) (λ a. a.status) (account_of id m) m
      (λ a. (refl, refl, refl)) w
