-- ===== src/Gateway/Resolver/Answers.antt =====
-- What `Resolve` answers: from the cache while fresh, and stale only within the grace period.
use api_gatewahy.Base.{
  ◌≡◌, refl, ◌≤◌, ◌<◌, ℕ, ◌+◌, Option, none, some, List, Text, eqb_refl, lookup-insert_key, Result,
  ok, err, ltb, arith, if◌then◌else◌,
}
use api_gatewahy.ApiAccess.Key.{Lookup}
use api_gatewahy.Gateway.Resolver.{
  CacheEntry, Resolver, Pending, served, fetching, ResolveError, unknown_key, not_found, failed,
  result, entry_locked, begin, begin_with, abandon, stale_with, complete, make_room, store_known,
}

begin_with-served :
    (r : Resolver) (hash : Text) (now : ℕ) (o : Option CacheEntry) {a : Result ResolveError Lookup}
    → begin_with r hash now o ≡ served a
    → (e : CacheEntry) × (o ≡ some e) × (a ≡ result e) × (now < e.fetched + r.ttl)
unfolding begin_with
begin_with-served r hash now none h = ground arith
begin_with-served r hash now (some e) h = (e, refl, ground arith, ground arith)

-- An answer without a fetch is that of an entry which is younger than the TTL.
pub begin-eq_served :
    (r : Resolver) (hash : Text) (now : ℕ) {a : Result ResolveError Lookup}
    → begin r hash now ≡ served a
    → (e : CacheEntry) × (entry_locked r hash ≡ some e) × (a ≡ result e) × (now < e.fetched + r.ttl)
unfolding begin
begin-eq_served r hash now h = begin_with-served r hash now (entry_locked r hash) h

stale_with-ok :
    (r : Resolver) (p : Pending) (now : ℕ) (o : Option CacheEntry) {lk : Lookup}
    → stale_with r p now o ≡ ok lk
    → (e : CacheEntry) × (o ≡ some e) × (e.lookup ≡ some lk) × (now ≤ e.fetched + (r.ttl + p.grace))
unfolding stale_with result
stale_with-ok r p now none h = ground arith
stale_with-ok r p now (some e) h = (e, refl, ground arith, ground arith)

-- A lookup that is served after the store failed or timed out comes from an entry of its hash that
-- is at most the TTL and the grace period old, at the generation that the call read.
pub abandon-eq_ok :
    (r : Resolver) (p : Pending) (now : ℕ) {lk : Lookup}
    → abandon r p now ≡ ok lk
    → (r.generation ≡ p.gen)
      × ((e : CacheEntry) × (entry_locked r p.hash ≡ some e)
          × (e.lookup ≡ some lk)
          × (now ≤ e.fetched + (r.ttl + p.grace)))
unfolding abandon
abandon-eq_ok r p now h =
    (ground arith, stale_with-ok r p now (entry_locked r p.hash) (ground arith))

-- The answer of the store reaches the call whether or not it is kept: a lookup is returned as it
-- came, and a hash that the store does not know is an unknown key.
pub complete-answers :
    (r : Resolver) (p : Pending) (lk : Lookup) (now later : ℕ) (order : List Text)
    → ((complete r p (ok lk) now later order).1 ≡ ok lk)
      × ((complete r p (err not_found) now later order).1 ≡ err unknown_key)
      × ((complete r p (err failed) now later order).1 ≡ abandon r p later)
      × ((complete r p (err failed) now later order).0 ≡ r)
unfolding complete result
complete-answers r p lk now later order = (refl, refl, refl, refl)

-- What a call stored within its generation is served to the next call for the hash without a fetch,
-- until the TTL has passed; after that the next call fetches.
pub begin-complete :
    (r : Resolver) (p : Pending) (lk : Lookup) (now later t : ℕ) (order : List Text)
    → r.generation ≡ p.gen
    → let r' = (complete r p (ok lk) now later order).0 in
      begin r' p.hash t ≡ (
        if ltb t (now + r.ttl)
        then served (ok lk)
        else fetching (record { hash = p.hash; gen = r.generation; grace = r.stale_grace }))
unfolding complete begin entry_locked result store_known
begin-complete r p lk now later t order g =
    let m = make_room r r.max_entries now order r.cache in
    let e : CacheEntry = record { lookup = some lk; fetched = now } in
    ground (arith, g, lookup-insert_key p.hash p.hash e m, eqb_refl p.hash)
