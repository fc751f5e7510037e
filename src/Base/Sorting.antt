-- ===== src/Base/Sorting.antt =====
-- `slices.Sort` on strings, as an insertion sort: the order is total, so every sort agrees with it.
use mathlib.Core.Bool.{Bool, true, false, ◌&&◌, ◌||◌}
use mathlib.Core.Path.{◌≡◌, refl}
use mathlib.Core.List.{List, [], ◌∷◌}
use native.Mathlib.Omega.{arith}
use api_gatewahy.Base.Tests.{ltb, ◌==◌, if◌then◌else◌}
use api_gatewahy.Base.Strings.{Text, eqb, contains, distinct, eqb_symm}

-- The byte order of Go strings, which is that of their code points.
unfoldable pub leb_text : Text → Text → Bool
leb_text [] t = true
leb_text (x ∷ s) [] = false
leb_text (x ∷ s) (y ∷ t) = ltb x y || (x == y && leb_text s t)

unfoldable pub insert : Text → List Text → List Text
insert x [] = x ∷ []
insert x (y ∷ ys) = let rest = insert x ys in if leb_text x y then x ∷ y ∷ ys else y ∷ rest

unfoldable pub sort : List Text → List Text
unfolding insert leb_text
sort [] = []
sort (x ∷ xs) = insert x (sort xs)

contains-insert :
    (x : Text) (ys : List Text) (z : Text) → contains (insert x ys) z ≡ (eqb x z || contains ys z)
unfolding insert contains
contains-insert x [] z = refl
contains-insert x (y ∷ ys) z = ground (arith, contains-insert x ys z)

pub contains-sort : (xs : List Text) (z : Text) → contains (sort xs) z ≡ contains xs z
unfolding sort contains
contains-sort [] z = refl
contains-sort (x ∷ xs) z = ground (arith, contains-insert x (sort xs) z, contains-sort xs z)

abbrev pub is_sorted : List Text → Bool
is_sorted [] = true
is_sorted (x ∷ []) = true
is_sorted (x ∷ y ∷ ys) = leb_text x y && is_sorted (y ∷ ys)

leb_text_total : (s t : Text) → leb_text s t ≡ false → leb_text t s ≡ true
unfolding leb_text
leb_text_total [] t h = ground arith
leb_text_total (x ∷ s) [] h = refl
leb_text_total (x ∷ s) (y ∷ t) h = ground (arith, leb_text_total s t)

insert-IsSorted : (x : Text) (ys : List Text) → is_sorted ys ≡ true → is_sorted (insert x ys) ≡ true
unfolding insert
insert-IsSorted x [] h = refl
insert-IsSorted x (y ∷ []) h = ground (arith, leb_text_total x y)
insert-IsSorted x (y ∷ z ∷ zs) h =
    ground (arith, leb_text_total x y, leb_text_total x z, insert-IsSorted x (z ∷ zs))

pub sort-IsSorted : (xs : List Text) → is_sorted (sort xs) ≡ true
unfolding sort
sort-IsSorted [] = refl
sort-IsSorted (x ∷ xs) = insert-IsSorted x (sort xs) (sort-IsSorted xs)

pub sort-eq_self : (xs : List Text) → is_sorted xs ≡ true → sort xs ≡ xs
unfolding sort insert
sort-eq_self [] h = refl
sort-eq_self (x ∷ []) h = refl
sort-eq_self (x ∷ y ∷ ys) h = ground (arith, sort-eq_self (y ∷ ys))

distinct-insert :
    (x : Text) (ys : List Text)
    → distinct ys ≡ true
    → contains ys x ≡ false
    → distinct (insert x ys) ≡ true
unfolding insert contains
distinct-insert x [] d n = refl
distinct-insert x (y ∷ ys) d n =
    ground (arith, distinct-insert x ys, contains-insert x ys y, eqb_symm x y)

pub distinct-sort : (xs : List Text) → distinct xs ≡ true → distinct (sort xs) ≡ true
unfolding sort
distinct-sort [] d = refl
distinct-sort (x ∷ xs) d =
    distinct-insert x (sort xs) (distinct-sort xs (ground arith))
      (ground (arith, contains-sort xs x))
