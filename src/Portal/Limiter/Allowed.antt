-- ===== src/Portal/Limiter/Allowed.antt =====
-- How many events of a key the limiter of portal/limiter.go allows in an hour.
use api_gatewahy.Base.{
  ◌≡◌, refl, subst, ap, sym, ◌∙◌, ◌≤◌, ◌<◌, ℕ, ◌+◌, Bool, true, false, ◌&&◌, List, [], ◌∷◌, ◌++◌,
  Text, eqb, eqb_iff, ltb, leb, length, length-append, filter, lookup, insert_key,
  lookup-insert_key, arith, Bool-cases, inl, inr, keys, distinct, if◌then◌else◌,
}
use api_gatewahy.Portal.Limiter.{Limiter, Hits, hits_of, recent, swept, record_hit, allow}
use api_gatewahy.Portal.Limiter.Window.{IsKept, recent-sweep, all_ordered, allow_decision}
use api_gatewahy.Portal.Limiter.Kept.{IsKeptAt, allow-IsKeptAt}

-- The zero value of the type.
abbrev pub new_limiter : Limiter
new_limiter = record { hits = []; calls = 0 }

-- The times of the calls for the key that were allowed, of a run of calls for any keys.
unfoldable pub allowed_times : Limiter → ℕ → Text → List (Text × ℕ) → List ℕ
allowed_times l limit k [] = []
allowed_times l limit k ((j, t) ∷ cs) =
    let (n, b) = allow l j limit t in
    let rest = allowed_times n limit k cs in if b && eqb j k then t ∷ rest else rest

-- The clock does not step back from `t` on, and ends at `later` or before.
abbrev pub in_time : ℕ → List (Text × ℕ) → ℕ → Bool
in_time t [] later = leb t later
in_time t ((j, now) ∷ cs) later = leb t now && in_time now cs later

-- The times of the hour before `later`, in nanoseconds.
abbrev pub of_last_hour : ℕ → List ℕ → List ℕ
of_last_hour later ts = filter (λ t. ltb later (t + 3_600_000_000_000)) ts

recent-append : (now : ℕ) (xs ys : List ℕ) → recent now (xs ++ ys) ≡ recent now xs ++ recent now ys
unfolding recent filter
recent-append now [] ys = refl
recent-append now (x ∷ xs) ys = ground (arith, recent-append now xs ys)

recent-recent :
    (now later : ℕ) (xs : List ℕ) → now ≤ later → recent later (recent now xs) ≡ recent later xs
unfolding recent filter
recent-recent now later [] l = refl
recent-recent now later (x ∷ xs) l = ground (arith, recent-recent now later xs l)

length-recent :
    (now later : ℕ) (xs : List ℕ) → now ≤ later → length (recent later xs) ≤ length (recent now xs)
unfolding recent filter
length-recent now later [] l = omega arith
length-recent now later (x ∷ xs) l = ground (arith, length-recent now later xs l)

length-recent_one : (later t : ℕ) → length (recent later (t ∷ [])) ≤ 1
unfolding recent filter
length-recent_one later t = ground arith

recent-swept :
    (now later calls : ℕ) (m : Hits) (k : Text)
    → now ≤ later
    → all_ordered m ≡ true
    → distinct (keys m) ≡ true
    → recent later (hits_of (swept now calls m) k) ≡ recent later (hits_of m k)
unfolding swept
recent-swept now later calls m k l o d = ground (arith, recent-sweep now later m k l o d)

-- What a call adds to the hits of a key, as they are read at any later time.
abbrev added : Bool → ℕ → List ℕ
added b now = if b then now ∷ [] else []

hits_of-insert_key :
    (j k : Text) (ts : List ℕ) (m : Hits)
    → hits_of (insert_key j ts m) k ≡ (if eqb j k then ts else hits_of m k)
unfolding hits_of
hits_of-insert_key j k ts m = ground (arith, lookup-insert_key j k ts m)

append_nil : (xs : List ℕ) → xs ++ [] ≡ xs
append_nil [] = refl
append_nil (x ∷ xs) = ap (λ (ys : List ℕ). x ∷ ys) (append_nil xs)

append_assoc : (xs ys zs : List ℕ) → (xs ++ ys) ++ zs ≡ xs ++ (ys ++ zs)
append_assoc [] ys zs = refl
append_assoc (x ∷ xs) ys zs = ap (λ (us : List ℕ). x ∷ us) (append_assoc xs ys zs)

recent-none : (later : ℕ) → recent later [] ≡ []
unfolding recent filter
recent-none later = refl

recent-record_hit :
    (calls now later : ℕ) (m : Hits) (j k : Text) (limit : ℕ)
    → now ≤ later
    → recent later (hits_of (record_hit calls m j limit now).0.hits k)
      ≡ recent later (hits_of m k)
        ++ recent later (added ((record_hit calls m j limit now).1 && eqb j k) now)
unfolding record_hit
recent-record_hit calls now later m j k limit l =
    let kept = recent now (hits_of m j) in
    elim (Bool-cases (leb limit (length kept))) [
      | inl y ↦ simp y (
          sym (
            ap (λ (xs : List ℕ). recent later (hits_of m k) ++ xs) (recent-none later)
            ∙ append_nil (recent later (hits_of m k))))
      | inr n ↦ simp n (
          ap (recent later) (hits_of-insert_key j k (kept ++ (now ∷ [])) m)
          ∙ elim (Bool-cases (eqb j k)) [
            | inl y ↦ simp y (
                recent-append later kept (now ∷ [])
                ∙ ap (λ (xs : List ℕ). xs ++ recent later (now ∷ []))
                    (recent-recent now later (hits_of m j) l
                      ∙ ap (λ (x : Text). recent later (hits_of m x)) ((eqb_iff j k).0 y)))
            | inr f ↦ simp f (
                sym (
                  ap (λ (xs : List ℕ). recent later (hits_of m k) ++ xs) (recent-none later)
                  ∙ append_nil (recent later (hits_of m k))))
          ])
    ]

-- The limiter `l` at the time `t`, when the calls for the key at the times `past` were allowed.
record Holds (limit : ℕ) (k : Text) (t : ℕ) (l : Limiter) (past : List ℕ) : Type 0 where
  kept : IsKeptAt t l
  same : (later : ℕ) → t ≤ later → recent later (hits_of l.hits k) ≡ recent later past
  few : (later : ℕ) → t ≤ later → length (recent later past) ≤ limit

allow-same :
    (limit : ℕ) (k j : Text) (t now later : ℕ) (l : Limiter) (past : List ℕ)
    → Holds limit k t l past
    → t ≤ now
    → now ≤ later
    → recent later (hits_of (allow l j limit now).0.hits k)
      ≡ recent later (past ++ added ((allow l j limit now).1 && eqb j k) now)
unfolding allow
allow-same limit k j t now later l past h a b =
    let m = swept now (l.calls + 1) l.hits in
    let new = added ((record_hit (l.calls + 1) m j limit now).1 && eqb j k) now in
    recent-record_hit (l.calls + 1) now later m j k limit b
    ∙ (ap (λ (xs : List ℕ). xs ++ recent later new)
          (recent-swept now later (l.calls + 1) l.hits k b h.kept.kept.ordered h.kept.kept.once
            ∙ h.same later (omega (arith, a, b)))
        ∙ sym (recent-append later past new))

allow-true :
    (l : Limiter) (j : Text) (limit now : ℕ)
    → IsKept l
    → (allow l j limit now).1 ≡ true
    → length (recent now (hits_of l.hits j)) < limit
allow-true l j limit now k h = ground (arith, h, allow_decision l j limit now k)

allow-few :
    (limit : ℕ) (k j : Text) (t now later : ℕ) (l : Limiter) (past : List ℕ)
    → Holds limit k t l past
    → t ≤ now
    → now ≤ later
    → (b : Bool) → ((allow l j limit now).1 && eqb j k) ≡ b
    → length (recent later (past ++ added b now)) ≤ limit
allow-few limit k j t now later l past h a b false e =
    rw (append_nil past) (h.few later (omega (arith, a, b)))
allow-few limit k j t now later l past h a b true e =
    let j_is : j ≡ k = (eqb_iff j k).0 (ground (arith, e)) in
    let fewer : length (recent now past) < limit = ground (
      arith,
      allow-true l j limit now h.kept.kept (ground (arith, e)),
      ap (λ (x : Text). length (recent now (hits_of l.hits x))) j_is,
      ap (λ (xs : List ℕ). length xs) (h.same now a),
    ) in
    rw (recent-append later past (now ∷ [])) (
      omega (
        arith,
        length-append (recent later past) (recent later (now ∷ [])),
        length-recent_one later now,
        length-recent now later past b,
        fewer,
      ))

allow-Holds :
    (limit : ℕ) (k j : Text) (t now : ℕ) (l : Limiter) (past : List ℕ)
    → Holds limit k t l past
    → t ≤ now
    → Holds limit k now
        (allow l j limit now).0
        (past ++ added ((allow l j limit now).1 && eqb j k) now)
allow-Holds limit k j t now l past h a = record {
  kept = allow-IsKeptAt t now l j limit a h.kept;
  same = λ later b. allow-same limit k j t now later l past h a b;
  few = λ later b. allow-few limit k j t now later l past h a b _ refl;
}

added-append : (b : Bool) (now : ℕ) (ts : List ℕ) → added b now ++ ts ≡ (if b then now ∷ ts else ts)
added-append false now ts = refl
added-append true now ts = refl

new_limiter-Holds : (limit : ℕ) (k : Text) → Holds limit k 0 new_limiter []
unfolding recent filter hits_of lookup
new_limiter-Holds limit k = record {
  kept = record { kept = record { ordered = refl; once = refl }; past = refl };
  same = λ later b. refl;
  few = λ later b. omega arith;
}

allowed_times-few :
    (limit : ℕ) (k : Text) (cs : List (Text × ℕ)) (t later : ℕ) (l : Limiter) (past : List ℕ)
    → Holds limit k t l past
    → in_time t cs later ≡ true
    → length (recent later (past ++ allowed_times l limit k cs)) ≤ limit
unfolding allowed_times
allowed_times-few limit k [] t later l past h e =
    rw (append_nil past) (h.few later (ground (arith, e)))
allowed_times-few limit k ((j, now) ∷ cs) t later l past h e =
    let n = (allow l j limit now).0 in
    let b = (allow l j limit now).1 && eqb j k in
    let rest =
      allowed_times-few limit k cs now later n (past ++ added b now)
        (allow-Holds limit k j t now l past h (ground (arith, e))) (ground (arith, e)) in
    subst (λ (xs : List ℕ). length (recent later xs) ≤ limit)
      (append_assoc past (added b now) (allowed_times n limit k cs)
        ∙ ap (λ (xs : List ℕ). past ++ xs) (added-append b now (allowed_times n limit k cs)))
      rest

-- Of any calls for any keys, of which none comes before an earlier one's time, a new limiter allows
-- at most `limit` for each key within any one hour: those of the hour before a time `later` at which
-- all of the calls were made.
pub allowed_times-of_last_hour :
    (limit : ℕ) (k : Text) (cs : List (Text × ℕ)) (later : ℕ)
    → in_time 0 cs later ≡ true
    → length (of_last_hour later (allowed_times new_limiter limit k cs)) ≤ limit
unfolding recent
allowed_times-of_last_hour limit k cs later e =
    allowed_times-few limit k cs 0 later new_limiter [] (new_limiter-Holds limit k) e
