-- ===== src/ApiAccess/MemStore/Sound/Rows.antt =====
-- The operations on entitlements and trials keep the store of apiaccess/apiaccesstest/memstore.go sound.
use api_gatewahy.Base.{
  ℕ, ◌+◌, ◌≡◌, refl, sym, subst, Bool, true, false, Option, none, some, List, [], ◌∷◌, ◌++◌, Text,
  is_empty, contains, distinct, distinct-append, all-append, map, find_first, update_first,
  map-update_first, all-update_first, numbered, numbered-append, Result, ok, err, Bool-cases, inl,
  inr, arith, if◌then◌else◌,
}
use mathlib.Core.List.{map-append}
use api_gatewahy.ApiAccess.Entitlement.{Entitlement}
use api_gatewahy.ApiAccess.Key.{Account}
use api_gatewahy.ApiAccess.MemStore.{MemStore, StoreError, Operation}
use api_gatewahy.ApiAccess.MemStore.Accounts.{account_of, has_id}
use api_gatewahy.ApiAccess.MemStore.Rows.{
  account_known, check_columns, has_ref, ent_by_ref, numbered_row, insert_entitlement,
  prepared_then, columns_then, add_unless, add_prepared, overwritten, upsert_row, upsert_prepared,
  upsert_with_ref, canonical, endable, ended_at, end_row, is_stripe, is_ended,
}
use api_gatewahy.ApiAccess.MemStore.Sound.{account_ids, refs, known, IsSound}
use api_gatewahy.ApiAccess.MemStore.Sound.Keys.{account_of_known}

refs-append :
    (xs : List Entitlement) (e : Entitlement)
    → refs (xs ++ (e ∷ []))
      ≡ (if is_empty e.external_ref then refs xs else refs xs ++ (e.external_ref ∷ []))
refs-append [] e = ground arith
refs-append (x ∷ xs) e = ground (arith, refs-append xs e)

contains-refs :
    (ref : Text) (xs : List Entitlement)
    → find_first (has_ref ref) xs ≡ none
    → contains (refs xs) ref ≡ false
unfolding find_first contains
contains-refs ref [] h = refl
contains-refs ref (e ∷ xs) h = ground (arith, contains-refs ref xs)

distinct-refs :
    (xs : List Entitlement) (e : Entitlement)
    → (if is_empty e.external_ref then none else find_first (has_ref e.external_ref) xs) ≡ none
    → distinct (refs xs) ≡ true
    → distinct (refs (xs ++ (e ∷ []))) ≡ true
distinct-refs xs e h d = ground (
  arith,
  refs-append xs e,
  contains-refs e.external_ref xs,
  distinct-append (refs xs) e.external_ref d,
)

pub insert_entitlement-IsSound :
    (clock : ℕ) (e : Entitlement) (m : MemStore)
    → ent_by_ref e.external_ref m ≡ none
    → known (account_ids m.accounts) e.account_id ≡ true
    → IsSound m
    → IsSound (insert_entitlement clock e m).1
unfolding insert_entitlement ent_by_ref
insert_entitlement-IsSound clock e m h o (a, k, r) =
    let row = numbered_row clock (m.ent_seq + 1) e in
    (
      a,
      k,
      record {
        ids =
            subst (λ l. numbered (m.ent_seq + 1) l ≡ true)
              (sym (map-append (λ (x : Entitlement). x.id) m.ents (row ∷ [])))
              (numbered-append m.ent_seq (map (λ (x : Entitlement). x.id) m.ents) r.ids);
        unique_refs = distinct-refs m.ents row h r.unique_refs;
        owners = ground (
          arith,
          o,
          r.owners,
          all-append (λ (x : Entitlement). known (account_ids m.accounts) x.account_id) m.ents
              (row ∷ []),
        );
      },
    )

-- A row that has passed checkColumns is of an account.
pub check_columns-known :
    (b : Bool) (e : Entitlement) (m : MemStore)
    → check_columns b e m ≡ none
    → known (account_ids m.accounts) e.account_id ≡ true
unfolding check_columns account_of
check_columns-known true e m h = ground arith
check_columns-known false e m h = go (find_first (has_id e.account_id) m.accounts) refl h
  where
    go :
        (o : Option Account)
        → find_first (has_id e.account_id) m.accounts ≡ o
        → account_known o ≡ none
        → known (account_ids m.accounts) e.account_id ≡ true
    go none q h = ground arith
    go (some a) q h = account_of_known e.account_id m.accounts a q

-- The rest of an operation runs on a row of a known account.
pub prepared_then-IsSound :
    (b : Bool) (body : Entitlement → Operation Entitlement) (r : Result StoreError Entitlement)
    (m : MemStore)
    → ((e : Entitlement)
        → known (account_ids m.accounts) e.account_id ≡ true
        → IsSound (body e m).1)
    → IsSound m
    → IsSound (prepared_then b body r m).1
unfolding prepared_then columns_then
prepared_then-IsSound b body (err f) m h w = w
prepared_then-IsSound b body (ok e) m h w = go (check_columns b e m) refl
  where
    go : (o : Option StoreError) → check_columns b e m ≡ o → IsSound (columns_then body e o m).1
    go none q = h e (check_columns-known b e m q)
    go (some f) q = w

add_unless-IsSound :
    (clock : ℕ) (e : Entitlement) (o : Option Entitlement) (m : MemStore)
    → ent_by_ref e.external_ref m ≡ o
    → known (account_ids m.accounts) e.account_id ≡ true
    → IsSound m
    → IsSound (add_unless clock e o m).1
unfolding add_unless
add_unless-IsSound clock e none m h k w = insert_entitlement-IsSound clock e m h k w
add_unless-IsSound clock e (some x) m h k w = w

pub add_prepared-IsSound :
    (clock : ℕ) (e : Entitlement) (m : MemStore)
    → IsSound m
    → known (account_ids m.accounts) e.account_id ≡ true
    → IsSound (add_prepared clock e m).1
unfolding add_prepared
add_prepared-IsSound clock e m w k =
    add_unless-IsSound clock e (ent_by_ref e.external_ref m) m refl k w

refs-update_first :
    (p : Entitlement → Bool) (f : Entitlement → Entitlement) (xs : List Entitlement)
    → ((e : Entitlement) → (f e).external_ref ≡ e.external_ref)
    → refs (update_first p f xs) ≡ refs xs
unfolding update_first
refs-update_first p f [] h = refl
refs-update_first p f (e ∷ xs) h = ground (arith, h e, refs-update_first p f xs h)

-- A write of one row that keeps its id, its reference, and a known owner.
write_row-IsSound :
    (p : Entitlement → Bool) (f : Entitlement → Entitlement) (m : MemStore)
    → ((e : Entitlement) → ((f e).id ≡ e.id) × ((f e).external_ref ≡ e.external_ref))
    → ((e : Entitlement)
        → known (account_ids m.accounts) e.account_id ≡ true
        → known (account_ids m.accounts) (f e).account_id ≡ true)
    → IsSound m
    → IsSound (record m { ents = update_first p f m.ents })
write_row-IsSound p f m h o (a, k, r) = (
  a,
  k,
  record {
    ids =
        ground
          (arith, r.ids, map-update_first (λ (x : Entitlement). x.id) p f m.ents (λ e. (h e).0));
    unique_refs = ground (arith, r.unique_refs, refs-update_first p f m.ents (λ e. (h e).1));
    owners =
        all-update_first (λ (x : Entitlement). known (account_ids m.accounts) x.account_id) p f
          m.ents (λ x b q. o x q) r.owners;
  },
)

upsert_row-IsSound :
    (clock : ℕ) (e : Entitlement) (o : Option Entitlement) (m : MemStore)
    → ent_by_ref e.external_ref m ≡ o
    → known (account_ids m.accounts) e.account_id ≡ true
    → IsSound m
    → IsSound (upsert_row clock e o m).1
unfolding upsert_row
upsert_row-IsSound clock e none m h k w = insert_entitlement-IsSound clock e m h k w
upsert_row-IsSound clock e (some x) m h k w =
    write_row-IsSound (has_ref e.external_ref) (overwritten e) m (λ y. (refl, refl)) (λ y q. k) w

upsert_prepared-IsSound :
    (clock : ℕ) (e : Entitlement) (m : MemStore)
    → IsSound m
    → known (account_ids m.accounts) e.account_id ≡ true
    → IsSound (upsert_prepared clock e m).1
unfolding upsert_prepared
upsert_prepared-IsSound clock e m w k =
    upsert_row-IsSound clock e (ent_by_ref e.external_ref m) m refl k w

pub upsert_with_ref-IsSound :
    (clock : ℕ) (b : Bool) (e : Entitlement) (m : MemStore)
    → IsSound m
    → IsSound (upsert_with_ref clock b e m).1
unfolding upsert_with_ref
upsert_with_ref-IsSound clock b e m w = elim (Bool-cases (is_empty e.external_ref)) [
  | inl t ↦ simp t w
  | inr f ↦ simp f (
      prepared_then-IsSound b (upsert_prepared clock) (canonical clock e) m
        (λ x k. upsert_prepared-IsSound clock x m w k) w)
]

pub end_row-IsSound :
    (id account_id at : ℕ) (o : Option Entitlement) (m : MemStore)
    → IsSound m
    → IsSound (end_row id account_id at o m).1
unfolding end_row ended_at
end_row-IsSound id account_id at none m w = w
end_row-IsSound id account_id at (some e) m w = elim (Bool-cases (is_stripe e.source)) [
  | inl t ↦ simp t w
  | inr f ↦ elim (Bool-cases (is_ended e.status)) [
    | inl t ↦ simp (f, t) w
    | inr g ↦
        simp (f, g)
          (write_row-IsSound (endable id account_id) (ended_at at) m (λ y. (refl, refl)) (λ y q. q)
            w)
  ]
]
