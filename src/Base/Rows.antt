-- ===== src/Base/Rows.antt =====
-- The rows of a table: the first that a test finds, and its update in place.
use Prim.Native.Nat.{ℕ, ◌+◌, ◌≤◌}
use mathlib.Core.Bool.{Bool, true, ◌&&◌}
use mathlib.Core.Path.{◌≡◌, refl}
use mathlib.Core.Option.{Option, none, some}
use mathlib.Core.List.{List, [], ◌∷◌, ◌++◌, map}
use native.Mathlib.Omega.{arith}
use api_gatewahy.Base.Tests.{if◌then◌else◌, ltb, leb}
use api_gatewahy.Base.Lists.{all, all-append}

module _ {ℓ} {A : Type ℓ} where
  unfoldable pub find_first : (A → Bool) → List A → Option A
  find_first p [] = none
  find_first p (x ∷ xs) = if p x then some x else find_first p xs

  unfoldable pub update_first : (A → Bool) → (A → A) → List A → List A
  update_first p f [] = []
  update_first p f (x ∷ xs) = let rest = update_first p f xs in if p x then f x ∷ xs else x ∷ rest

  -- Insertion of each row before those that follow it in the order, as the stable sorts do.
  unfoldable pub insert_by : (A → A → Bool) → A → List A → List A
  insert_by le x [] = x ∷ []
  insert_by le x (y ∷ ys) =
      let rest = insert_by le x ys in if le x y then x ∷ (y ∷ ys) else y ∷ rest

  unfoldable pub sort_by : (A → A → Bool) → List A → List A
  unfolding insert_by
  sort_by le [] = []
  sort_by le (x ∷ xs) = insert_by le x (sort_by le xs)

  pub find_first_holds :
      (p : A → Bool) (xs : List A) (x : A) → find_first p xs ≡ some x → p x ≡ true
  unfolding find_first
  find_first_holds p [] x e = ground arith
  find_first_holds p (y ∷ ys) x e = ground (arith, find_first_holds p ys x)

  pub find_first-append :
      (p : A → Bool) (xs ys : List A)
      → find_first p (xs ++ ys)
        ≡ elim (find_first p xs) [ none ↦ find_first p ys | some x ↦ some x ]
  unfolding find_first
  find_first-append p [] ys = refl
  find_first-append p (x ∷ xs) ys = ground (arith, find_first-append p xs ys)

  -- A field that the update keeps.
  pub map-update_first :
      {B : Type 0} (g : A → B) (p : A → Bool) (f : A → A) (xs : List A)
      → ((x : A) → g (f x) ≡ g x)
      → map g (update_first p f xs) ≡ map g xs
  unfolding update_first
  map-update_first g p f [] h = refl
  map-update_first g p f (x ∷ xs) h = ground (arith, h x, map-update_first g p f xs h)

  -- A test that the update keeps.
  pub all-update_first :
      (q p : A → Bool) (f : A → A) (xs : List A)
      → ((x : A) → p x ≡ true → q x ≡ true → q (f x) ≡ true)
      → all q xs ≡ true
      → all q (update_first p f xs) ≡ true
  unfolding update_first
  all-update_first q p f [] h a = refl
  all-update_first q p f (x ∷ xs) h a = ground (arith, h x, all-update_first q p f xs h)

-- Strictly increasing numbers, the last of them at most `n`.
abbrev pub numbered : ℕ → List ℕ → Bool
numbered n [] = true
numbered n (x ∷ xs) = leb x n && all (λ y. ltb x y) xs && numbered n xs

numbered-weaken : (m n : ℕ) (xs : List ℕ) → m ≤ n → numbered m xs ≡ true → numbered n xs ≡ true
numbered-weaken m n [] h a = refl
numbered-weaken m n (x ∷ xs) h a = ground (arith, numbered-weaken m n xs h)

all-ltb_next :
    (x n : ℕ) (xs : List ℕ)
    → all (λ y. ltb x y) xs ≡ true
    → x ≤ n
    → all (λ y. ltb x y) (xs ++ ((n + 1) ∷ [])) ≡ true
all-ltb_next x n xs a h = ground (arith, all-append (λ y. ltb x y) xs ((n + 1) ∷ []))

-- The next number of a sequence.
pub numbered-append :
    (n : ℕ) (xs : List ℕ) → numbered n xs ≡ true → numbered (n + 1) (xs ++ ((n + 1) ∷ [])) ≡ true
numbered-append n [] a = ground arith
numbered-append n (x ∷ xs) a = ground (arith, numbered-append n xs, all-ltb_next x n xs)
