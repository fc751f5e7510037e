-- ===== src/Portal/Limiter/Kept.antt =====
-- The limiter keeps its hits in order while the clock does not step back.
use api_gatewahy.Base.{
  ◌≡◌, refl, ◌≤◌, ℕ, ◌+◌, ◌%◌, Bool, true, false, ◌&&◌, List, [], ◌∷◌, ◌++◌, Text, eqb, eqb_iff,
  contains, keys, all, all-append, distinct, leb, ◌==◌, length, filter, lookup, insert_key,
  eqb_symm, arith, Bool-cases, inl, inr,
}
use api_gatewahy.Portal.Limiter.{Limiter, Hits, hits_of, recent, sweep, swept, record_hit, allow}
use api_gatewahy.Portal.Limiter.Window.{IsKept, all_ordered, is_ordered, keys-sweep}

-- Every hit lies at `now` or before.
abbrev pub all_past : ℕ → Hits → Bool
all_past now [] = true
all_past now ((k, ts) ∷ m) = all (λ t. leb t now) ts && all_past now m

ordered-recent :
    (now : ℕ) (t : ℕ) (ts : List ℕ)
    → is_ordered (t ∷ ts) ≡ true
    → is_ordered (t ∷ recent now ts) ≡ true
unfolding recent filter
ordered-recent now t [] h = refl
ordered-recent now t (u ∷ ts) h =
    ground (arith, ordered-recent now u ts, ordered-recent now t ts, skip t u ts)
  where
    skip : (a b : ℕ) (l : List ℕ) → is_ordered (a ∷ b ∷ l) ≡ true → is_ordered (a ∷ l) ≡ true
    skip a b [] e = refl
    skip a b (c ∷ l) e = ground arith

recent-ordered : (now : ℕ) (ts : List ℕ) → is_ordered ts ≡ true → is_ordered (recent now ts) ≡ true
unfolding recent filter
recent-ordered now [] h = refl
recent-ordered now (t ∷ ts) h =
    ground (arith, ordered-recent now t ts, recent-ordered now ts, tail t ts)
  where
    tail : (a : ℕ) (l : List ℕ) → is_ordered (a ∷ l) ≡ true → is_ordered l ≡ true
    tail a [] e = refl
    tail a (c ∷ l) e = ground arith

recent-past :
    (now t : ℕ) (ts : List ℕ)
    → all (λ x. leb x t) ts ≡ true
    → all (λ x. leb x t) (recent now ts) ≡ true
unfolding recent filter
recent-past now t [] h = refl
recent-past now t (x ∷ ts) h = ground (arith, recent-past now t ts)

append-ordered :
    (now : ℕ) (ts : List ℕ)
    → is_ordered ts ≡ true
    → all (λ x. leb x now) ts ≡ true
    → is_ordered (ts ++ (now ∷ [])) ≡ true
append-ordered now [] o p = refl
append-ordered now (t ∷ []) o p = ground arith
append-ordered now (t ∷ u ∷ ts) o p = ground (arith, append-ordered now (u ∷ ts))

sweep-kept :
    (now t : ℕ) (m : Hits)
    → all_ordered m ≡ true
    → distinct (keys m) ≡ true
    → all_past t m ≡ true
    → (all_ordered (sweep now m) ≡ true)
      × (distinct (keys (sweep now m)) ≡ true)
      × (all_past t (sweep now m) ≡ true)
unfolding sweep
sweep-kept now t [] o d p = (refl, refl, refl)
sweep-kept now t ((k, ts) ∷ m) o d p = ground (arith, sweep-kept now t m, keys-sweep now m k)

hits_of-kept :
    (t : ℕ) (m : Hits) (k : Text)
    → all_ordered m ≡ true
    → all_past t m ≡ true
    → (is_ordered (hits_of m k) ≡ true) × (all (λ x. leb x t) (hits_of m k) ≡ true)
unfolding hits_of lookup
hits_of-kept t [] k o p = (refl, refl)
hits_of-kept t ((j, ts) ∷ m) k o p = ground (arith, hits_of-kept t m k)

keys-insert_key :
    (k j : Text) (ts : List ℕ) (m : Hits)
    → contains (keys m) j ≡ false
    → eqb k j ≡ false
    → contains (keys (insert_key k ts m)) j ≡ false
unfolding insert_key contains
keys-insert_key k j ts [] h n = ground arith
keys-insert_key k j ts ((i, us) ∷ m) h n = ground (arith, keys-insert_key k j ts m)

insert_key-kept :
    (t : ℕ) (k : Text) (ts : List ℕ) (m : Hits)
    → all_ordered m ≡ true
    → distinct (keys m) ≡ true
    → all_past t m ≡ true
    → is_ordered ts ≡ true
    → all (λ x. leb x t) ts ≡ true
    → (all_ordered (insert_key k ts m) ≡ true)
      × (distinct (keys (insert_key k ts m)) ≡ true)
      × (all_past t (insert_key k ts m) ≡ true)
unfolding insert_key contains
insert_key-kept t k ts [] o d p a b = (ground arith, refl, ground arith)
insert_key-kept t k ts ((j, us) ∷ m) o d p a b =
    ground (arith, insert_key-kept t k ts m, keys-insert_key k j ts m, eqb_symm k j, eqb_iff j k)

past_list-later :
    (t now : ℕ) (xs : List ℕ)
    → t ≤ now
    → all (λ x. leb x t) xs ≡ true
    → all (λ x. leb x now) xs ≡ true
past_list-later t now [] l h = refl
past_list-later t now (x ∷ xs) l h = ground (arith, past_list-later t now xs)

past-later : (t now : ℕ) (m : Hits) → t ≤ now → all_past t m ≡ true → all_past now m ≡ true
past-later t now [] l h = refl
past-later t now ((k, ts) ∷ m) l h = ground (arith, past-later t now m l, past_list-later t now ts)

pub record IsKeptAt (t : ℕ) (l : Limiter) : Type 0 where
  pub kept : IsKept l
  pub past : all_past t l.hits ≡ true

pub swept-kept :
    (now calls : ℕ) (m : Hits)
    → all_ordered m ≡ true
    → distinct (keys m) ≡ true
    → all_past now m ≡ true
    → (all_ordered (swept now calls m) ≡ true)
      × (distinct (keys (swept now calls m)) ≡ true)
      × (all_past now (swept now calls m) ≡ true)
unfolding swept
swept-kept now calls m o d p = elim (Bool-cases (calls % 256 == 0)) [
  | inl y ↦ rw y (sweep-kept now now m o d p)
  | inr n ↦ rw n (o, d, p)
]

record_hit-kept :
    (calls now : ℕ) (m : Hits) (key : Text) (limit : ℕ)
    → all_ordered m ≡ true
    → distinct (keys m) ≡ true
    → all_past now m ≡ true
    → IsKeptAt now (record_hit calls m key limit now).0
unfolding record_hit
record_hit-kept calls now m key limit o d p =
    let (ho, hp) = hits_of-kept now m key o p in
    let kept = recent now (hits_of m key) in
    let ro = recent-ordered now (hits_of m key) ho in
    let rp = recent-past now now (hits_of m key) hp in
    let (a, b, c) =
      insert_key-kept now key (kept ++ (now ∷ [])) m o d p (append-ordered now kept ro rp)
        (ground (arith, rp, all-append (λ x. leb x now) kept (now ∷ []))) in
    elim (Bool-cases (leb limit (length kept))) [
      | inl y ↦ rw y (record { kept = record { ordered = o; once = d }; past = p })
      | inr n ↦ rw n (record { kept = record { ordered = a; once = b }; past = c })
    ]

-- A call at a time that no recorded hit lies after keeps the hits in order, one list to a key, and
-- none after that time.
pub allow-IsKeptAt :
    (t now : ℕ) (l : Limiter) (key : Text) (limit : ℕ)
    → t ≤ now
    → IsKeptAt t l
    → IsKeptAt now (allow l key limit now).0
unfolding allow
allow-IsKeptAt t now l key limit le k =
    let (o, d, p) =
      swept-kept now (l.calls + 1) l.hits k.kept.ordered k.kept.once
        (past-later t now l.hits le k.past) in
    record_hit-kept (l.calls + 1) now (swept now (l.calls + 1) l.hits) key limit o d p
