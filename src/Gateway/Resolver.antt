-- ===== src/Gateway/Resolver.antt =====
-- gateway/resolver.go: a cache of key lookups, with stale answers while the store is down.
-- `Resolve` is two steps round the store lookup: `begin` reads the cache under the lock, and
-- `complete` or `abandon` ends the call when the fetch answers or times out. Which answer a waiting
-- call gets from the shared fetch is the caller's argument, as is the order of a range over a map.
-- `now.Sub(t) < d` is `now < t + d`, which says the same of a clock that may step back.
pub mod Cache
pub mod Answers
pub mod Bounds
pub mod Interleaving
use api_gatewahy.Base.{
  ℕ, ℤ, suc, ◌+◌, ◌*◌, ◌^◌, ◌%◌, Bool, true, false, not, Option, none, some, List, [], ◌∷◌, Text,
  is_empty, ltb, leb, lookup, insert_key, erase, length, ◌==◌, lt_ℤ, le_ℤ, pos, pos_part, Result,
  ok, err, if◌then◌else◌,
}
use api_gatewahy.ApiAccess.Key.{Lookup}

pub data ResolveError : Type 0 where
  unknown_key unavailable : ResolveError

-- What `LookupKey` failed with: `errors.Is(err, apiaccess.ErrNotFound)`, or anything else.
pub data FetchError : Type 0 where
  not_found failed : FetchError

pub record CacheEntry : Type 0 where
  pub lookup : Option Lookup  -- none for an unknown key
  pub fetched : ℕ

abbrev pub Cache : Type 0
Cache = List (Text × CacheEntry)

pub record Resolver : Type 0 where
  pub ttl : ℕ
  pub max_entries : ℕ
  pub max_unknown : ℕ
  pub stale_grace : ℕ
  pub lookup_timeout : ℕ
  pub cache : Cache
  pub unknown : Cache
  pub generation : ℕ  -- uint64

abbrev pub second : ℕ
second = 1_000_000_000

abbrev pub default_max_entries : ℕ
default_max_entries = 10000

abbrev pub default_max_unknown : ℕ
default_max_unknown = 1000

abbrev pub default_stale_grace : ℕ
default_stale_grace = 600 * second

abbrev pub default_lookup_timeout : ℕ
default_lookup_timeout = 5 * second

unfoldable pub new_resolver : ℕ → Resolver
new_resolver ttl = record {
  ttl = ttl;
  max_entries = default_max_entries;
  max_unknown = default_max_unknown;
  stale_grace = default_stale_grace;
  lookup_timeout = default_lookup_timeout;
  cache = [];
  unknown = [];
  generation = 0;
}

pub set_stale_grace : Resolver → ℤ → Resolver
set_stale_grace r d = record r {
  stale_grace = if lt_ℤ d (pos 0) then default_stale_grace else pos_part d;
}

pub set_lookup_timeout : Resolver → ℤ → Resolver
set_lookup_timeout r d = record r {
  lookup_timeout = if le_ℤ d (pos 0) then default_lookup_timeout else pos_part d;
}

pub set_max_entries : Resolver → ℤ → Resolver
set_max_entries r n = record r {
  max_entries = if le_ℤ n (pos 0) then default_max_entries else pos_part n;
}

pub set_max_unknown : Resolver → ℤ → Resolver
set_max_unknown r n = record r {
  max_unknown = if le_ℤ n (pos 0) then default_max_unknown else pos_part n;
}

-- cacheEntry.result
unfoldable pub result : CacheEntry → Result ResolveError Lookup
result e = elim e.lookup [ none ↦ err unknown_key | some lk ↦ ok lk ]

-- entryLocked
unfoldable pub entry_locked : Resolver → Text → Option CacheEntry
entry_locked r hash = elim (lookup hash r.cache) [ some e ↦ some e | none ↦ lookup hash r.unknown ]

-- A call that waits for the store: what `Resolve` read under the lock before it fetched.
pub record Pending : Type 0 where
  pub hash : Text
  pub gen : ℕ
  pub grace : ℕ

pub data Begun : Type 0 where
  served : Result ResolveError Lookup → Begun
  fetching : Pending → Begun

begin_with : Resolver → Text → ℕ → Option CacheEntry → Begun
begin_with r hash now none =
    fetching (record { hash = hash; gen = r.generation; grace = r.stale_grace })
begin_with r hash now (some e) =
    if ltb now (e.fetched + r.ttl)
    then served (result e)
    else fetching (record { hash = hash; gen = r.generation; grace = r.stale_grace })

-- The first half of Resolve, up to the fetch.
unfoldable pub begin : Resolver → Text → ℕ → Begun
unfolding begin_with
begin r hash now = begin_with r hash now (entry_locked r hash)

-- The first loop of makeRoomLocked.
drop_expired : Resolver → ℕ → Cache → Cache
drop_expired r now [] = []
drop_expired r now ((h, e) ∷ m) =
    let rest = drop_expired r now m in
    if leb (e.fetched + (r.ttl + r.stale_grace)) now then rest else (h, e) ∷ rest

-- The second loop, over the keys in the order of the range.
drop_until : List Text → ℕ → Cache → Cache
drop_until [] limit m = m
drop_until (h ∷ hs) limit m =
    let rest = drop_until hs limit (erase h m) in if ltb (length m) limit then m else rest

-- makeRoomLocked
unfoldable pub make_room : Resolver → ℕ → ℕ → List Text → Cache → Cache
unfolding drop_expired drop_until
make_room r limit now order m =
    if ltb (length m) limit then m else drop_until order limit (drop_expired r now m)

-- staleOrUnavailable
stale_with : Resolver → Pending → ℕ → Option CacheEntry → Result ResolveError Lookup
stale_with r p now none = err unavailable
stale_with r p now (some e) =
    if leb now (e.fetched + (r.ttl + p.grace)) then result e else err unavailable

unfoldable pub abandon : Resolver → Pending → ℕ → Result ResolveError Lookup
unfolding stale_with
abandon r p now =
    if not (r.generation == p.gen)
    then err unavailable
    else stale_with r p now (entry_locked r p.hash)

store_known : Resolver → Pending → ℕ → List Text → CacheEntry → Resolver
store_known r p now order e =
    let m = make_room r r.max_entries now order r.cache in
    record r { unknown = erase p.hash r.unknown; cache = insert_key p.hash e m }

store_unknown : Resolver → Pending → ℕ → List Text → CacheEntry → Resolver
store_unknown r p now order e =
    let m = make_room r r.max_unknown now order r.unknown in
    record r { cache = erase p.hash r.cache; unknown = insert_key p.hash e m }

-- storeFetch; `later` is the clock that `staleOrUnavailable` reads anew.
unfoldable pub complete :
    Resolver
    → Pending
    → Result FetchError Lookup
    → ℕ
    → ℕ
    → List Text
    → Resolver × Result ResolveError Lookup
unfolding store_known store_unknown
complete r p (err failed) now later order = (r, abandon r p later)
complete r p (err not_found) now later order =
    let e : CacheEntry = record { lookup = none; fetched = now } in
    (if r.generation == p.gen then store_unknown r p now order e else r, result e)
complete r p (ok lk) now later order =
    let e : CacheEntry = record { lookup = some lk; fetched = now } in
    (if r.generation == p.gen then store_known r p now order e else r, result e)

-- Invalidate
unfoldable pub invalidate : Resolver → Text → Resolver
invalidate r hash =
    let r' : Resolver = record r { generation = (r.generation + 1) % 2 ^ 64 } in
    if is_empty hash
    then record r' { cache = []; unknown = [] }
    else record r' { cache = erase hash r.cache; unknown = erase hash r.unknown }
