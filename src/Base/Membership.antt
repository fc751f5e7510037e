-- ===== src/Base/Membership.antt =====
-- Membership of texts in filtered lists.
use mathlib.Core.Bool.{Bool, true, ◌&&◌}
use mathlib.Core.Path.{◌≡◌, refl}
use mathlib.Core.Logic.{inl, inr}
use mathlib.Core.List.{List, [], ◌∷◌}
use native.Mathlib.Omega.{arith}
use api_gatewahy.Base.Tests.{Bool-cases}
use api_gatewahy.Base.Lists.{any, all, filter}
use api_gatewahy.Base.Strings.{Text, contains, eqb, eqb→≡, eqb_refl}

pub contains-filter :
    (p : Text → Bool) (xs : List Text) (x : Text)
    → contains (filter p xs) x ≡ (contains xs x && p x)
unfolding contains filter
contains-filter p [] x = refl
contains-filter p (y ∷ ys) x = elim (Bool-cases (eqb y x)) [
  | inl e ↦ ground (arith, e, eqb→≡ y x e, contains-filter p ys x)
  | inr n ↦ ground (arith, n, contains-filter p ys x)
]

-- Filters by tests that agree on the list are equal.
pub filter_congr :
    (p q : Text → Bool) (xs : List Text)
    → ((x : Text) → contains xs x ≡ true → p x ≡ q x)
    → filter p xs ≡ filter q xs
unfolding contains filter
filter_congr p q [] h = refl
filter_congr p q (y ∷ ys) h =
    ground
      (arith, h y (ground (arith, eqb_refl y)), filter_congr p q ys (λ x m. h x (ground arith)))

-- What holds of each member of a list holds of the whole list.
pub all_of_contains :
    (p : Text → Bool) (xs : List Text)
    → ((x : Text) → contains xs x ≡ true → p x ≡ true)
    → all p xs ≡ true
unfolding contains
all_of_contains p [] h = refl
all_of_contains p (y ∷ ys) h =
    ground
      (arith, h y (ground (arith, eqb_refl y)), all_of_contains p ys (λ x m. h x (ground arith)))

pub of_all :
    (p : Text → Bool) (xs : List Text) (x : Text)
    → all p xs ≡ true
    → contains xs x ≡ true
    → p x ≡ true
unfolding contains
of_all p [] x a h = ground arith
of_all p (y ∷ ys) x a h = elim (Bool-cases (eqb y x)) [
  | inl e ↦ ground (arith, eqb→≡ y x e)
  | inr n ↦ of_all p ys x (ground arith) (ground arith)
]

-- Where `f` keeps each text of the list, the images hold what the list holds.
pub any-eq-contains :
    (f : Text → Text) (xs : List Text) (x : Text)
    → ((y : Text) → contains xs y ≡ true → f y ≡ y)
    → any (λ y. eqb (f y) x) xs ≡ contains xs x
unfolding contains
any-eq-contains f [] x h = refl
any-eq-contains f (y ∷ ys) x h =
    ground
      (arith, h y (ground (arith, eqb_refl y)), any-eq-contains f ys x (λ z m. h z (ground arith)))
