-- ===== src/ApiAccess/MemStore/Sound/Keys.antt =====
-- The operations on keys keep the store of apiaccess/apiaccesstest/memstore.go sound.
use api_gatewahy.Base.{
  ℕ, zero, suc, ◌+◌, ◌≡◌, refl, sym, subst, Bool, true, false, Option, none, some, List, [], ◌∷◌,
  ◌++◌, Text, contains, distinct, distinct-append, any, all-append, map, find_first, update_first,
  map-update_first, all-update_first, numbered, numbered-append, Bool-cases, inl, inr, arith,
}
use mathlib.Core.List.{map-append}
use api_gatewahy.ApiAccess.Key.{Account, Key, KeyKind, generate_key}
use api_gatewahy.ApiAccess.MemStore.{MemStore, Operation}
use api_gatewahy.ApiAccess.MemStore.Accounts.{account_of, has_id}
use api_gatewahy.ApiAccess.MemStore.Keys.{
  is_live, lives_with, new_key, revoke, revoked_row, revoke_only, add_key, attempt_key,
  create_key_from,
}
use api_gatewahy.ApiAccess.MemStore.Sound.{account_ids, live_prefixes, known, IsSound}

pub account_of_known :
    (id : ℕ) (xs : List Account) (a : Account)
    → find_first (has_id id) xs ≡ some a
    → known (account_ids xs) id ≡ true
unfolding find_first
account_of_known id [] a h = ground arith
account_of_known id (b ∷ xs) a h = ground (arith, account_of_known id xs a)

contains-revoked :
    (clock : ℕ) (p : Key → Bool) (z : Text) (ks : List Key)
    → contains (live_prefixes ks) z ≡ false
    → contains (live_prefixes (update_first p (revoke clock) ks)) z ≡ false
unfolding update_first contains revoke
contains-revoked clock p z [] h = refl
contains-revoked clock p z (k ∷ ks) h = ground (arith, contains-revoked clock p z ks)

distinct-revoked :
    (clock : ℕ) (p : Key → Bool) (ks : List Key)
    → distinct (live_prefixes ks) ≡ true
    → distinct (live_prefixes (update_first p (revoke clock) ks)) ≡ true
unfolding update_first revoke
distinct-revoked clock p [] h = refl
distinct-revoked clock p (k ∷ ks) h =
    ground (arith, distinct-revoked clock p ks, contains-revoked clock p k.prefix ks)

revoke_id : (clock : ℕ) (k : Key) → (revoke clock k).id ≡ k.id
unfolding revoke
revoke_id clock k = refl

revoke_owner : (clock : ℕ) (k : Key) → (revoke clock k).account_id ≡ k.account_id
unfolding revoke
revoke_owner clock k = refl

pub revoked_row-IsSound :
    (clock : ℕ) (p : Key → Bool) (o : Option Key) (m : MemStore)
    → IsSound m
    → IsSound (revoked_row clock p o m).1
unfolding revoked_row
revoked_row-IsSound clock p none m w = w
revoked_row-IsSound clock p (some k) m (a, s, r) = (
  a,
  record {
    ids = ground (
      arith,
      s.ids,
      map-update_first (λ (x : Key). x.id) p (revoke clock) m.keys (revoke_id clock),
    );
    unique_prefixes = distinct-revoked clock p m.keys s.unique_prefixes;
    owners =
        all-update_first (λ (x : Key). known (account_ids m.accounts) x.account_id) p (revoke clock)
          m.keys (λ x b q. simp (revoke_owner clock x) q) s.owners;
  },
  r,
)

pub revoke_only-IsSound :
    (clock : ℕ) (prefix : Text) (ks : List Key) (m : MemStore)
    → IsSound m
    → IsSound (revoke_only clock prefix ks m).1
unfolding revoke_only
revoke_only-IsSound clock prefix [] m w = w
revoke_only-IsSound clock prefix (k ∷ []) m w =
    revoked_row-IsSound clock (lives_with prefix) (some k) m w
revoke_only-IsSound clock prefix (k ∷ j ∷ ks) m w = w

live_prefixes-append :
    (ks : List Key) (k : Key)
    → is_live k ≡ true
    → live_prefixes (ks ++ (k ∷ [])) ≡ live_prefixes ks ++ (k.prefix ∷ [])
live_prefixes-append [] k h = ground arith
live_prefixes-append (j ∷ ks) k h = ground (arith, live_prefixes-append ks k)

contains-live :
    (prefix : Text) (ks : List Key)
    → any (lives_with prefix) ks ≡ false
    → contains (live_prefixes ks) prefix ≡ false
unfolding contains
contains-live prefix [] h = refl
contains-live prefix (k ∷ ks) h = ground (arith, contains-live prefix ks)

module _ (hash_key : Text → Text) (rand : ℕ → Option (List ℕ)) where
  add_key-IsSound :
      (clock account_id : ℕ) (label : Text) (kind : KeyKind) (g : Text × Text) (m : MemStore)
      → any (lives_with g.1) m.keys ≡ false
      → known (account_ids m.accounts) account_id ≡ true
      → IsSound m
      → IsSound (add_key hash_key rand clock account_id label kind g m).1
  unfolding add_key
  add_key-IsSound clock account_id label kind (plain, prefix) m h o (a, s, r) =
      let k = new_key (m.key_seq + 1) clock account_id (hash_key plain) prefix label kind in
      (
        a,
        record {
          ids =
              subst (λ l. numbered (m.key_seq + 1) l ≡ true)
                (sym (map-append (λ (x : Key). x.id) m.keys (k ∷ [])))
                (numbered-append m.key_seq (map (λ (x : Key). x.id) m.keys) s.ids);
          unique_prefixes =
              subst (λ l. distinct l ≡ true) (sym (live_prefixes-append m.keys k refl))
                (distinct-append (live_prefixes m.keys) prefix s.unique_prefixes
                  (contains-live prefix m.keys h));
          owners = ground (
            arith,
            o,
            s.owners,
            all-append (λ (x : Key). known (account_ids m.accounts) x.account_id) m.keys (k ∷ []),
          );
        },
        r,
      )

  attempt_key-IsSound :
      (clock account_id : ℕ) (label : Text) (kind : KeyKind) (rest : Operation (Text × Key))
      (o : Option (List ℕ)) (a : Option Account) (m : MemStore)
      → account_of account_id m ≡ a
      → IsSound (rest m).1
      → IsSound m
      → IsSound (attempt_key hash_key rand clock account_id label kind rest o a m).1
  unfolding attempt_key account_of
  attempt_key-IsSound clock account_id label kind rest none a m h r w = w
  attempt_key-IsSound clock account_id label kind rest (some bytes) none m h r w = w
  attempt_key-IsSound clock account_id label kind rest (some bytes) (some a) m h r w =
      elim (Bool-cases (any (lives_with (generate_key kind bytes).1) m.keys)) [
        | inl t ↦ simp t r
        | inr f ↦ simp f (
            add_key-IsSound clock account_id label kind (generate_key kind bytes) m f
              (account_of_known account_id m.accounts a h) w)
      ]

  pub create_key_from-IsSound :
      (clock account_id : ℕ) (label : Text) (kind : KeyKind) (i left : ℕ) (m : MemStore)
      → IsSound m
      → IsSound (create_key_from hash_key rand clock account_id label kind i left m).1
  unfolding create_key_from
  create_key_from-IsSound clock account_id label kind i zero m w = w
  create_key_from-IsSound clock account_id label kind i (suc left) m w =
      attempt_key-IsSound clock account_id label kind
        (create_key_from hash_key rand clock account_id label kind (i + 1) left) (rand i)
        (account_of account_id m) m refl
        (create_key_from-IsSound clock account_id label kind (i + 1) left m w) w
