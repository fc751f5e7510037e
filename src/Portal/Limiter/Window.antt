-- ===== src/Portal/Limiter/Window.antt =====
-- The sweep never changes a decision.
use api_gatewahy.Base.{
  ◌≡◌, refl, ◌≤◌, ℕ, Bool, true, false, ◌&&◌, none, List, [], ◌∷◌, Text, eqb, eqb_iff, contains,
  keys, distinct, inl, inr, ltb, leb, length, filter, lookup, arith, Bool-cases,
}
use api_gatewahy.Portal.Limiter.{Limiter, Hits, hits_of, recent, is_stale, sweep, allow}

-- Times in the order in which they were recorded, none after `now`.
abbrev Recorded : ℕ → List ℕ → Type 0
Recorded now [] = Unit {0}
Recorded now (t ∷ ts) = (t ≤ now) × Recorded now ts

abbrev pub is_ordered : List ℕ → Bool
is_ordered [] = true
is_ordered (t ∷ []) = true
is_ordered (t ∷ u ∷ ts) = leb t u && is_ordered (u ∷ ts)

recent-nil : (now : ℕ) → recent now [] ≡ []
unfolding recent filter
recent-nil now = refl

stale-recent :
    (now : ℕ) (ts : List ℕ) → is_ordered ts ≡ true → is_stale now ts ≡ true → recent now ts ≡ []
unfolding is_stale recent filter
stale-recent now [] o s = refl
stale-recent now (t ∷ []) o s = ground arith
stale-recent now (t ∷ u ∷ ts) o s = ground (arith, stale-recent now (u ∷ ts) (ground arith) s)

-- Every list of hits is in order, and no key stands twice.
abbrev pub all_ordered : Hits → Bool
all_ordered [] = true
all_ordered ((k, ts) ∷ m) = is_ordered ts && all_ordered m

lookup-absent : (k : Text) (m : Hits) → contains (keys m) k ≡ false → lookup k m ≡ none
unfolding lookup contains
lookup-absent k [] h = refl
lookup-absent k ((j, ts) ∷ m) h = ground (arith, lookup-absent k m)

pub keys-sweep :
    (now : ℕ) (m : Hits) (k : Text)
    → contains (keys m) k ≡ false
    → contains (keys (sweep now m)) k ≡ false
unfolding sweep contains
keys-sweep now [] k h = h
keys-sweep now ((j, ts) ∷ m) k h = ground (arith, keys-sweep now m k)

stale_later :
    (now later : ℕ) (ts : List ℕ) → now ≤ later → is_stale now ts ≡ true → is_stale later ts ≡ true
unfolding is_stale
stale_later now later [] l s = refl
stale_later now later (t ∷ []) l s = ground arith
stale_later now later (t ∷ u ∷ ts) l s = stale_later now later (u ∷ ts) l s

-- The sweep takes no hit of the last hour from any key, now or later.
pub recent-sweep :
    (now later : ℕ) (m : Hits) (k : Text)
    → now ≤ later
    → all_ordered m ≡ true
    → distinct (keys m) ≡ true
    → recent later (hits_of (sweep now m) k) ≡ recent later (hits_of m k)
unfolding sweep hits_of lookup
recent-sweep now later [] k l o d = refl
recent-sweep now later ((j, ts) ∷ m) k l o d = elim (Bool-cases (eqb j k)) [
  | inl y ↦ ground (
    arith,
    y,
    eqb_iff j k,
    stale-recent later ts,
    stale_later now later ts l,
    lookup-absent k (sweep now m),
    keys-sweep now m k,
    recent-nil later,
  )
  | inr n ↦ ground (arith, n, recent-sweep now later m k l)
]

pub record IsKept (l : Limiter) : Type 0 where
  pub ordered : all_ordered l.hits ≡ true
  pub once : distinct (keys l.hits) ≡ true

-- Whether a call is allowed depends on the hits of the last hour alone, whether or not the call
-- swept: it is allowed exactly when they are fewer than the limit.
pub allow_decision :
    (l : Limiter) (key : Text) (limit now : ℕ)
    → IsKept l
    → (allow l key limit now).1 ≡ ltb (length (recent now (hits_of l.hits key))) limit
unfolding allow
allow_decision l key limit now k =
    ground (arith, recent-sweep now now l.hits key (omega arith) k.ordered k.once)
