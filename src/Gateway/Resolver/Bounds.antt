-- ===== src/Gateway/Resolver/Bounds.antt =====
-- The caches stay within their limits, and no hash stands in both.
use api_gatewahy.Base.{
  ◌≡◌, refl, ◌≤◌, ◌⊎◌, inl, inr, ℕ, none, List, Text, lookup, insert_key, erase, lookup-erase,
  lookup-insert_key, length-erase, length-insert_key, length, ◌==◌, Result, ok, err, arith,
  Bool-cases,
}
use api_gatewahy.ApiAccess.Key.{Lookup}
use api_gatewahy.Gateway.Resolver.{
  Cache, CacheEntry, Resolver, Pending, FetchError, not_found, failed, make_room, store_known,
  store_unknown, complete, invalidate, new_resolver,
}
use api_gatewahy.Gateway.Resolver.Cache.{Covers, make_room-lookup, make_room-lt}

pub record IsBounded (r : Resolver) : Type 0 where
  pub room : 1 ≤ r.max_entries
  pub room_unknown : 1 ≤ r.max_unknown
  pub known_fits : length r.cache ≤ r.max_entries
  pub unknown_fits : length r.unknown ≤ r.max_unknown
  pub apart : (h : Text) → (lookup h r.cache ≡ none) ⊎ (lookup h r.unknown ≡ none)

pub new_resolver-IsBounded : (ttl : ℕ) → IsBounded (new_resolver ttl)
unfolding new_resolver lookup
new_resolver-IsBounded ttl = record {
  room = omega arith;
  room_unknown = omega arith;
  known_fits = omega arith;
  unknown_fits = omega arith;
  apart = λ h. inl refl;
}

pub invalidate-IsBounded :
    (r : Resolver) (hash : Text) → IsBounded r → IsBounded (invalidate r hash)
unfolding invalidate lookup
invalidate-IsBounded r hash b = record {
  room = ground (arith, b.room);
  room_unknown = ground (arith, b.room_unknown);
  known_fits = ground (arith, b.known_fits, length-erase hash r.cache);
  unknown_fits = ground (arith, b.unknown_fits, length-erase hash r.unknown);
  apart =
      λ h. ground (arith, b.apart h, lookup-erase hash h r.cache, lookup-erase hash h r.unknown);
}

-- After a hash is put in one map and deleted from the other, the maps are apart.
apart_put :
    (m n room : Cache) (hash h : Text) (e : CacheEntry)
    → (lookup h m ≡ none) ⊎ (lookup h n ≡ none)
    → (lookup h m ≡ none → lookup h room ≡ none)
    → (lookup h (insert_key hash e room) ≡ none) ⊎ (lookup h (erase hash n) ≡ none)
apart_put m n room hash h e a k =
    ground (arith, lookup-insert_key hash h e room, lookup-erase hash h n)

store_known-IsBounded :
    (r : Resolver) (p : Pending) (now : ℕ) (order : List Text) (e : CacheEntry)
    → Covers order r.cache
    → IsBounded r
    → IsBounded (store_known r p now order e)
unfolding store_known
store_known-IsBounded r p now order e c b =
    let m = make_room r r.max_entries now order r.cache in
    record {
      room = b.room;
      room_unknown = b.room_unknown;
      known_fits = omega (
        arith,
        make_room-lt r r.max_entries now order r.cache b.room c,
        length-insert_key p.hash e m,
      );
      unknown_fits = omega (arith, b.unknown_fits, length-erase p.hash r.unknown);
      apart = λ h.
          apart_put r.cache r.unknown m p.hash h e (b.apart h)
            (make_room-lookup r r.max_entries now order r.cache h);
    }

store_unknown-IsBounded :
    (r : Resolver) (p : Pending) (now : ℕ) (order : List Text) (e : CacheEntry)
    → Covers order r.unknown
    → IsBounded r
    → IsBounded (store_unknown r p now order e)
unfolding store_unknown
store_unknown-IsBounded r p now order e c b =
    let m = make_room r r.max_unknown now order r.unknown in
    record {
      room = b.room;
      room_unknown = b.room_unknown;
      known_fits = omega (arith, b.known_fits, length-erase p.hash r.cache);
      unknown_fits = omega (
        arith,
        make_room-lt r r.max_unknown now order r.unknown b.room_unknown c,
        length-insert_key p.hash e m,
      );
      apart = λ h. swap (
          apart_put r.unknown r.cache m p.hash h e (swap (b.apart h))
            (make_room-lookup r r.max_unknown now order r.unknown h));
    }
  where
    swap : {A B : Type 0} → A ⊎ B → B ⊎ A
    swap (inl a) = inr a
    swap (inr b) = inl b

-- Whatever a fetch answers, storing it keeps both maps within their limits and apart: room is made
-- before the entry goes in, in any order in which a range may meet the keys.
pub complete-IsBounded :
    (r : Resolver) (p : Pending) (res : Result FetchError Lookup) (now later : ℕ)
    (order : List Text)
    → Covers order r.cache
    → Covers order r.unknown
    → IsBounded r
    → IsBounded (complete r p res now later order).0
unfolding complete
complete-IsBounded r p (err failed) now later order c u b = b
complete-IsBounded r p (err not_found) now later order c u b =
    elim (Bool-cases (r.generation == p.gen)) [
      | inl y ↦ rw y (store_unknown-IsBounded r p now order _ u b)
      | inr n ↦ rw n b
    ]
complete-IsBounded r p (ok lk) now later order c u b = elim (Bool-cases (r.generation == p.gen)) [
  | inl y ↦ rw y (store_known-IsBounded r p now order _ c b)
  | inr n ↦ rw n b
]
