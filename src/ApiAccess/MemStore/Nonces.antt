-- ===== src/ApiAccess/MemStore/Nonces.antt =====
-- A nonce of apiaccess/apiaccesstest/memstore.go is accepted once.
use api_gatewahy.Base.{
  ℕ, ◌≤◌, ◌≡◌, refl, sym, ◌∙◌, ap, subst, Bool, true, ◌&&◌, Option, none, some, List, [], ◌∷◌, Text,
  eqb_iff, eqb_refl, lookup, lookup-insert_key, leb, ok, err, arith, codes,
}
use api_gatewahy.ApiAccess.MemStore.{
  MemStore, StoreError, nonce_used, pg_time, entered, enter_id, after_entry, failure, Operation,
}
use api_gatewahy.ApiAccess.MemStore.Tokens.{sweep_nonces, spend_nonce, consume_swept, consume_nonce}

-- No fault is injected.
abbrev pub Free : MemStore → Type 0
Free m = m.faults.fail ≡ []

pub enter_id-Free :
    (method : Text) (id : ℕ) (m : MemStore) → Free m → (enter_id method id m).0 ≡ none
unfolding enter_id failure lookup
enter_id-Free method id m f = ground (arith, ap (λ l. lookup method l) f)

-- Without a fault, a method is its body, on the store that has counted the call.
pub entered-Free :
    {A : Type 0} (method : Text) (id : ℕ) (body : Operation A) (m : MemStore)
    → Free m
    → entered method id body m ≡ body (enter_id method id m).1
unfolding entered
entered-Free method id body m f = go (enter_id method id m) (enter_id-Free method id m f)
  where
    go : (x : Option StoreError × MemStore) → x.0 ≡ none → after_entry body x ≡ body x.1
    go (none, n) e = refl
    go (some g, n) e = ground arith

lookup-sweep_nonces :
    (n : Text) (t now : ℕ) (ns : List (Text × ℕ))
    → lookup n ns ≡ some t
    → now ≤ t
    → lookup n (sweep_nonces now ns) ≡ some t
unfolding sweep_nonces lookup
lookup-sweep_nonces n t now [] h l = ground arith
lookup-sweep_nonces n t now ((k, s) ∷ ns) h l = ground (arith, lookup-sweep_nonces n t now ns)

consume_swept_keeps :
    (n k : Text) (t expires_at : ℕ) (m : MemStore)
    → lookup n m.nonces ≡ some t
    → lookup n (consume_swept k expires_at m).1.nonces ≡ some t
unfolding consume_swept
consume_swept_keeps n k t expires_at m h = go (lookup k m.nonces) refl
  where
    go :
        (o : Option ℕ)
        → lookup k m.nonces ≡ o
        → lookup n (spend_nonce k expires_at o m).1.nonces ≡ some t
    go (some u) q = h
    go none q = ground (
      arith,
      q,
      h,
      eqb_iff k n,
      ap (λ x. lookup x m.nonces),
      lookup-insert_key k n (pg_time expires_at) m.nonces,
    )

-- What a consume leaves of the nonces, be it accepted, refused, or failed on entry.
consume_nonce_keeps :
    (n k : Text) (t expires_at now : ℕ) (m : MemStore)
    → lookup n m.nonces ≡ some t
    → now ≤ t
    → lookup n (consume_nonce k expires_at now m).1.nonces ≡ some t
unfolding consume_nonce entered enter_id
consume_nonce_keeps n k t expires_at now m h l = go (enter_id (codes "ConsumeNonce") 0 m).0
  where
    swept : lookup n (sweep_nonces now m.nonces) ≡ some t
    swept = lookup-sweep_nonces n t now m.nonces h l

    go :
        (o : Option StoreError)
        → lookup n
            (after_entry
              (λ x. consume_swept k expires_at (record x { nonces = sweep_nonces now x.nonces }))
              (o, (enter_id (codes "ConsumeNonce") 0 m).1)).1.nonces
          ≡ some t
    go (some e) = h
    go none = consume_swept_keeps n k t expires_at _ swept

-- Calls of ConsumeNonce: the nonce, its expiry, and the time.
pub consume_all : List (Text × ℕ × ℕ) → MemStore → MemStore
consume_all [] m = m
consume_all ((k, e, now) ∷ cs) m = consume_all cs (consume_nonce k e now m).1

abbrev pub until : ℕ → List (Text × ℕ × ℕ) → Bool
until t [] = true
until t ((k, e, now) ∷ cs) = leb now t && until t cs

consume_all_keeps :
    (n : Text) (t : ℕ) (cs : List (Text × ℕ × ℕ)) (m : MemStore)
    → lookup n m.nonces ≡ some t
    → until t cs ≡ true
    → lookup n (consume_all cs m).nonces ≡ some t
unfolding consume_all
consume_all_keeps n t [] m h u = h
consume_all_keeps n t ((k, e, now) ∷ cs) m h u =
    consume_all_keeps n t cs (consume_nonce k e now m).1
      (consume_nonce_keeps n k t e now m h (ground (arith, u))) (ground (arith, u))

accepted :
    (n : Text) (e : ℕ) (m : MemStore)
    → (consume_swept n e m).0 ≡ ok n
    → lookup n (consume_swept n e m).1.nonces ≡ some (pg_time e)
unfolding consume_swept
accepted n e m h = go (lookup n m.nonces) h
  where
    go :
        (o : Option ℕ)
        → (spend_nonce n e o m).0 ≡ ok n
        → lookup n (spend_nonce n e o m).1.nonces ≡ some (pg_time e)
    go (some u) q = ground arith
    go none q = ground (arith, eqb_refl n, lookup-insert_key n n (pg_time e) m.nonces)

-- The store that a call of ConsumeNonce has counted and swept.
abbrev swept_store : ℕ → MemStore → MemStore
swept_store now m = record (enter_id (codes "ConsumeNonce") 0 m).1 {
  nonces = sweep_nonces now m.nonces;
}

consume_nonce-Free :
    (n : Text) (e now : ℕ) (m : MemStore)
    → Free m
    → consume_nonce n e now m ≡ consume_swept n e (swept_store now m)
unfolding consume_nonce enter_id
consume_nonce-Free n e now m f =
    entered-Free (codes "ConsumeNonce") 0
      (λ x. consume_swept n e (record x { nonces = sweep_nonces now x.nonces })) m f

consume_nonce-accepted :
    (n : Text) (e now : ℕ) (m : MemStore)
    → Free m
    → (consume_nonce n e now m).0 ≡ ok n
    → lookup n (consume_nonce n e now m).1.nonces ≡ some (pg_time e)
consume_nonce-accepted n e now m f =
    subst (λ x. x.0 ≡ ok n → lookup n x.1.nonces ≡ some (pg_time e))
      (sym (consume_nonce-Free n e now m f)) (accepted n e (swept_store now m))

consume_swept-faults : (n : Text) (e : ℕ) (m : MemStore) → (consume_swept n e m).1.faults ≡ m.faults
unfolding consume_swept
consume_swept-faults n e m = go (lookup n m.nonces)
  where
    go : (u : Option ℕ) → (spend_nonce n e u m).1.faults ≡ m.faults
    go none = refl
    go (some t) = refl

consume_nonce-faults :
    (n : Text) (e now : ℕ) (m : MemStore) → (consume_nonce n e now m).1.faults ≡ m.faults
unfolding consume_nonce entered enter_id
consume_nonce-faults n e now m = go (enter_id (codes "ConsumeNonce") 0 m).0
  where
    go :
        (o : Option StoreError)
        → (after_entry
            (λ x. consume_swept n e (record x { nonces = sweep_nonces now x.nonces }))
            (o, (enter_id (codes "ConsumeNonce") 0 m).1)).1.faults
          ≡ m.faults
    go (some f) = refl
    go none = consume_swept-faults n e (swept_store now m)

consume_all-faults :
    (cs : List (Text × ℕ × ℕ)) (m : MemStore) → (consume_all cs m).faults ≡ m.faults
unfolding consume_all
consume_all-faults [] m = refl
consume_all-faults ((k, e, now) ∷ cs) m =
    consume_all-faults cs (consume_nonce k e now m).1 ∙ consume_nonce-faults k e now m

refused :
    (n : Text) (e t : ℕ) (m : MemStore)
    → lookup n m.nonces ≡ some t
    → (consume_swept n e m).0 ≡ err nonce_used
unfolding consume_swept
refused n e t m h = simp h refl

consume_nonce-refused :
    (n : Text) (e t now : ℕ) (m : MemStore)
    → Free m
    → lookup n m.nonces ≡ some t
    → now ≤ t
    → (consume_nonce n e now m).0 ≡ err nonce_used
unfolding enter_id
consume_nonce-refused n e t now m f h l =
    subst (λ x. x.0 ≡ err nonce_used) (sym (consume_nonce-Free n e now m f))
      (refused n e t (swept_store now m) (lookup-sweep_nonces n t now m.nonces h l))

-- A nonce that was accepted is refused again at every time up to its expiry, whatever other nonces are
-- consumed in between, up to then as well.
pub consume_nonce_once :
    (n : Text) (e e' now later : ℕ) (cs : List (Text × ℕ × ℕ)) (m : MemStore)
    → Free m
    → (consume_nonce n e now m).0 ≡ ok n
    → until (pg_time e) cs ≡ true
    → later ≤ pg_time e
    → (consume_nonce n e' later (consume_all cs (consume_nonce n e now m).1)).0 ≡ err nonce_used
consume_nonce_once n e e' now later cs m f a u l =
    let m' = (consume_nonce n e now m).1 in
    consume_nonce-refused n e' (pg_time e) later (consume_all cs m')
      (ap (λ x. x.fail) (consume_all-faults cs m' ∙ consume_nonce-faults n e now m) ∙ f)
      (consume_all_keeps n (pg_time e) cs m' (consume_nonce-accepted n e now m f a) u) l
