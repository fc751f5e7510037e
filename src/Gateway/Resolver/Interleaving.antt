-- ===== src/Gateway/Resolver/Interleaving.antt =====
-- Calls that wait for the store while others run: every interleaving of their steps.
use api_gatewahy.Base.{
  ◌≡◌, refl, ap, ◌≤◌, ◌<◌, ℕ, ◌+◌, ◌^◌, Bool, true, false, Option, none, some, List, [], ◌∷◌, ◌++◌,
  Text, eqb, eqb_refl, lookup, lookup-erase, lookup-insert_key, ◌==◌, Result, ok, err, arith,
  if◌then◌else◌,
}
use api_gatewahy.ApiAccess.Key.{Lookup}
use api_gatewahy.Gateway.Resolver.{
  CacheEntry, Resolver, Pending, FetchError, not_found, failed, fetching, make_room, store_known,
  store_unknown, entry_locked, begin, begin_with, complete, invalidate,
}
use api_gatewahy.Gateway.Resolver.Cache.{make_room-lookup}

-- The resolver, and the calls that wait for a fetch.
pub record System : Type 0 where
  pub resolver : Resolver
  pub waiting : List Pending

-- One atomic step. A call that ends leaves the list, whichever its place. The counter of
-- invalidations has not wrapped round: 2 ^ 64 of them take longer than a process lives.
pub data Step (h : Text) (s : System) : System → Type 0 where
  -- Another hash than `h` is asked for, and its call begins to fetch.
  ask :
      (p : Pending) (hash : Text) (now : ℕ)
      → eqb hash h ≡ false
      → begin s.resolver hash now ≡ fetching p
      → Step h s (record { resolver = s.resolver; waiting = p ∷ s.waiting })
  -- A waiting call gets its answer, or gives up.
  answer :
      (before after : List Pending) (p : Pending) (res : Result FetchError Lookup) (now later : ℕ)
      (order : List Text)
      → s.waiting ≡ before ++ (p ∷ after)
      → Step h s (record {
        resolver = (complete s.resolver p res now later order).0;
        waiting = before ++ after;
      })
  give_up :
      (before after : List Pending) (p : Pending)
      → s.waiting ≡ before ++ (p ∷ after)
      → Step h s (record { resolver = s.resolver; waiting = before ++ after })
  drop :
      (hash : Text)
      → s.resolver.generation + 1 < 2 ^ 64
      → Step h s (record { resolver = invalidate s.resolver hash; waiting = s.waiting })

pub data Reach (h : Text) (s : System) : System → Type 0 where
  here : Reach h s s
  next : {t u : System} → Reach h s t → Step h t u → Reach h s u

-- Every waiting call for `h` read an older generation.
abbrev Older : Text → ℕ → List Pending → Type 0
Older h g [] = Unit {0}
Older h g (p ∷ ps) = (eqb p.hash h ≡ true → p.gen < g) × Older h g ps

record IsGone (h : Text) (s : System) : Type 0 where
  known : lookup h s.resolver.cache ≡ none
  unknown : lookup h s.resolver.unknown ≡ none
  older : Older h s.resolver.generation s.waiting

Older-remove :
    (h : Text) (g : ℕ) (before after : List Pending) (p : Pending)
    → Older h g (before ++ (p ∷ after))
    → Older h g (before ++ after) × (eqb p.hash h ≡ true → p.gen < g)
Older-remove h g [] after p o = (o.1, o.0)
Older-remove h g (q ∷ before) after p o =
    let (rest, this) = Older-remove h g before after p o.1 in ((o.0, rest), this)

Older-grows : (h : Text) (g k : ℕ) (ps : List Pending) → g ≤ k → Older h g ps → Older h k ps
Older-grows h g k [] l o = tt
Older-grows h g k (p ∷ ps) l o = ((λ e. omega (arith, o.0 e)), Older-grows h g k ps l o.1)

stored_elsewhere :
    (h : Text) (r : Resolver) (p : Pending) (now : ℕ) (order : List Text) (e : CacheEntry)
    → eqb p.hash h ≡ false
    → lookup h r.cache ≡ none
    → lookup h r.unknown ≡ none
    → (lookup h (store_known r p now order e).cache ≡ none)
      × (lookup h (store_known r p now order e).unknown ≡ none)
      × (lookup h (store_unknown r p now order e).cache ≡ none)
      × (lookup h (store_unknown r p now order e).unknown ≡ none)
      × ((store_known r p now order e).generation ≡ r.generation)
      × ((store_unknown r p now order e).generation ≡ r.generation)
unfolding store_known store_unknown
stored_elsewhere h r p now order e n c u =
    let m = make_room r r.max_entries now order r.cache in
    let k = make_room r r.max_unknown now order r.unknown in
    let mc = make_room-lookup r r.max_entries now order r.cache h c in
    let ku = make_room-lookup r r.max_unknown now order r.unknown h u in
    (
      ground (arith, n, mc, lookup-insert_key p.hash h e m),
      ground (arith, n, u, lookup-erase p.hash h r.unknown),
      ground (arith, n, c, lookup-erase p.hash h r.cache),
      ground (arith, n, ku, lookup-insert_key p.hash h e k),
      refl,
      refl,
    )

record Untouched (h : Text) (g : ℕ) (r : Resolver) : Type 0 where
  known : lookup h r.cache ≡ none
  unknown : lookup h r.unknown ≡ none
  same : r.generation ≡ g

stored-Untouched :
    (h : Text) (r : Resolver) (p : Pending) (now : ℕ) (order : List Text) (e : CacheEntry)
    → (b : Bool) → (r.generation == p.gen) ≡ b
    → (eqb p.hash h ≡ true → p.gen < r.generation)
    → lookup h r.cache ≡ none
    → lookup h r.unknown ≡ none
    → Untouched h r.generation (if b then store_known r p now order e else r)
      × Untouched h r.generation (if b then store_unknown r p now order e else r)
stored-Untouched h r p now order e false t o c u =
    (record { known = c; unknown = u; same = refl }, record { known = c; unknown = u; same = refl })
stored-Untouched h r p now order e true t o c u =
    let n : eqb p.hash h ≡ false = ground arith in
    let (a, b, d, f, g, k) = stored_elsewhere h r p now order e n c u in
    (record { known = a; unknown = b; same = g }, record { known = d; unknown = f; same = k })

complete-Untouched :
    (h : Text) (r : Resolver) (p : Pending) (res : Result FetchError Lookup) (now later : ℕ)
    (order : List Text)
    → (eqb p.hash h ≡ true → p.gen < r.generation)
    → lookup h r.cache ≡ none
    → lookup h r.unknown ≡ none
    → Untouched h r.generation (complete r p res now later order).0
unfolding complete
complete-Untouched h r p (err failed) now later order o c u = record {
  known = c;
  unknown = u;
  same = refl;
}
complete-Untouched h r p (err not_found) now later order o c u =
    (stored-Untouched h r p now order (record { lookup = none; fetched = now })
      (r.generation == p.gen) refl o c u).1
complete-Untouched h r p (ok lk) now later order o c u =
    (stored-Untouched h r p now order (record { lookup = some lk; fetched = now })
      (r.generation == p.gen) refl o c u).0

-- Invalidating any hash keeps `h` out, and makes the waiting calls older.
invalidate-Untouched :
    (h hash : Text) (r : Resolver)
    → r.generation + 1 < 2 ^ 64
    → lookup h r.cache ≡ none
    → lookup h r.unknown ≡ none
    → Untouched h (r.generation + 1) (invalidate r hash)
unfolding invalidate lookup
invalidate-Untouched h hash r w c u = record {
  known = ground (arith, lookup-erase hash h r.cache);
  unknown = ground (arith, lookup-erase hash h r.unknown);
  same = ground arith;
}

IsGone-of :
    (h : Text) (g : ℕ) (s : System) → Untouched h g s.resolver → Older h g s.waiting → IsGone h s
IsGone-of h g s t o = record { known = t.known; unknown = t.unknown; older = rw t.same o }

begin_with-pending :
    (r : Resolver) (hash : Text) (now : ℕ) (o : Option CacheEntry) {p : Pending}
    → begin_with r hash now o ≡ fetching p
    → p.hash ≡ hash
unfolding begin_with
begin_with-pending r hash now none h = ground arith
begin_with-pending r hash now (some e) h = ground arith

begin-pending :
    (r : Resolver) (hash : Text) (now : ℕ) {p : Pending}
    → begin r hash now ≡ fetching p
    → p.hash ≡ hash
unfolding begin
begin-pending r hash now h = begin_with-pending r hash now (entry_locked r hash) h

Step-IsGone : {h : Text} {s t : System} → Step h s t → IsGone h s → IsGone h t
Step-IsGone {h} {s} (ask p hash now n b) i = record {
  known = i.known;
  unknown = i.unknown;
  older =
      ((λ e. absurd (cc (e, n, ap (λ x. eqb x h) (begin-pending s.resolver hash now b)))), i.older);
}
Step-IsGone {h} {s} (answer before after p res now later order w) i =
    let (rest, this) = Older-remove h s.resolver.generation before after p (rw w at i.older) in
    IsGone-of h s.resolver.generation _
      (complete-Untouched h s.resolver p res now later order this i.known i.unknown) rest
Step-IsGone {h} {s} (give_up before after p w) i = record {
  known = i.known;
  unknown = i.unknown;
  older = (Older-remove h s.resolver.generation before after p (rw w at i.older)).0;
}
Step-IsGone {h} {s} (drop hash w) i =
    IsGone-of h (s.resolver.generation + 1) _
      (invalidate-Untouched h hash s.resolver w i.known i.unknown)
      (Older-grows h s.resolver.generation (s.resolver.generation + 1) s.waiting (omega arith)
        i.older)

Reach-IsGone : {h : Text} {s t : System} → IsGone h s → Reach h s t → IsGone h t
Reach-IsGone i here = i
Reach-IsGone i (next r st) = Step-IsGone st (Reach-IsGone i r)

-- No call in the list began after the resolver's last invalidation.
abbrev pub Began : ℕ → List Pending → Type 0
Began g [] = Unit {0}
Began g (p ∷ ps) = (p.gen ≤ g) × Began g ps

Began-Older : (h : Text) (g : ℕ) (ps : List Pending) → Began g ps → Older h (g + 1) ps
Began-Older h g [] b = tt
Began-Older h g (p ∷ ps) b = ((λ e. omega (arith, b.0)), Began-Older h g ps b.1)

invalidated :
    (h : Text) (r : Resolver)
    → r.generation + 1 < 2 ^ 64
    → Untouched h (r.generation + 1) (invalidate r h)
unfolding invalidate lookup
invalidated h r w = record {
  known = ground (arith, lookup-erase h h r.cache, eqb_refl h);
  unknown = ground (arith, lookup-erase h h r.unknown, eqb_refl h);
  same = ground arith;
}

invalidated-IsGone :
    (h : Text) (s : System)
    → s.resolver.generation + 1 < 2 ^ 64
    → Began s.resolver.generation s.waiting
    → IsGone h (record { resolver = invalidate s.resolver h; waiting = s.waiting })
invalidated-IsGone h s w b =
    IsGone-of h (s.resolver.generation + 1) _ (invalidated h s.resolver w)
      (Began-Older h s.resolver.generation s.waiting b)

-- After an invalidation of a hash the resolver holds no entry for it, however the steps of other calls,
-- late answers, time-outs and further invalidations interleave, as long as the hash itself is not asked
-- for anew and the counter of invalidations does not wrap round. A call that waited when it was
-- invalidated may still hand its own answer to its caller.
pub no_resurrection :
    (h : Text) (s : System) {t : System}
    → s.resolver.generation + 1 < 2 ^ 64
    → Began s.resolver.generation s.waiting
    → Reach h (record { resolver = invalidate s.resolver h; waiting = s.waiting }) t
    → entry_locked t.resolver h ≡ none
unfolding entry_locked
no_resurrection h s w b r =
    let i = Reach-IsGone (invalidated-IsGone h s w b) r in ground (arith, i.known, i.unknown)
