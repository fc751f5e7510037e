-- ===== src/Base/Substring.antt =====
-- A pattern that holds no separator is found in a text exactly when it is found in one of its pieces.
use Prim.Native.Nat.{ℕ}
use mathlib.Core.Bool.{true, ◌||◌}
use mathlib.Core.Path.{◌≡◌, refl}
use mathlib.Core.List.{List, [], ◌∷◌, ◌++◌}
use native.Mathlib.Omega.{arith}
use api_gatewahy.Base.Tests.{◌==◌, if◌then◌else◌}
use api_gatewahy.Base.Lists.{any, drop, length}
use api_gatewahy.Base.Strings.{Text, has_prefix, contains_text}
use api_gatewahy.Base.Split.{split, grow, free}

pub has_prefix-drop : (s p : Text) → has_prefix s p ≡ true → s ≡ p ++ drop (length p) s
unfolding has_prefix
has_prefix-drop s [] h = refl
has_prefix-drop [] (x ∷ p) h = ground arith
has_prefix-drop (c ∷ s) (x ∷ p) h = ground (arith, has_prefix-drop s p)

pub has_prefix-append_free :
    (a : Text) (sep : ℕ) (b p : Text)
    → free sep p ≡ true
    → has_prefix (a ++ (sep ∷ b)) p ≡ has_prefix a p
unfolding has_prefix
has_prefix-append_free [] sep b [] h = refl
has_prefix-append_free [] sep b (x ∷ p) h = ground arith
has_prefix-append_free (c ∷ a) sep b [] h = refl
has_prefix-append_free (c ∷ a) sep b (x ∷ p) h = ground (arith, has_prefix-append_free a sep b p)

-- The pattern is not empty: it is `x ∷ p`.
pub contains_text-append :
    (a : Text) (sep : ℕ) (b : Text) (x : ℕ) (p : Text)
    → free sep (x ∷ p) ≡ true
    → contains_text (a ++ (sep ∷ b)) (x ∷ p) ≡ (contains_text a (x ∷ p) || contains_text b (x ∷ p))
unfolding contains_text
contains_text-append [] sep b x p h = ground arith
contains_text-append (c ∷ a) sep b x p h =
    ground
      (arith, has_prefix-append_free (c ∷ a) sep b (x ∷ p) h, contains_text-append a sep b x p h)

-- The first piece of a split.
abbrev first : List Text → Text
first [] = []
first (w ∷ ws) = w

has_prefix-first :
    (s : Text) (sep : ℕ) (p : Text)
    → free sep p ≡ true
    → has_prefix (first (split s sep)) p ≡ has_prefix s p
unfolding split has_prefix
has_prefix-first [] sep p h = refl
has_prefix-first (c ∷ s) sep [] h = refl
has_prefix-first (c ∷ s) sep (x ∷ p) h = go (split s sep) (has_prefix-first s sep p (ground arith))
  where
    go :
        (ws : List Text)
        → has_prefix (first ws) p ≡ has_prefix s p
        → has_prefix (first (if c == sep then [] ∷ ws else grow c ws)) (x ∷ p)
          ≡ has_prefix (c ∷ s) (x ∷ p)
    go [] e = ground arith
    go (w ∷ ws) e = ground arith

-- Looking in each piece is looking in the whole text.
pub any-split :
    (s : Text) (sep : ℕ) (x : ℕ) (p : Text)
    → free sep (x ∷ p) ≡ true
    → any (λ w. contains_text w (x ∷ p)) (split s sep) ≡ contains_text s (x ∷ p)
unfolding split contains_text
any-split [] sep x p h = refl
any-split (c ∷ s) sep x p h =
    go (split s sep) (has_prefix-first (c ∷ s) sep (x ∷ p) h) (any-split s sep x p h)
  where
    go :
        (ws : List Text)
        → has_prefix (first (if c == sep then [] ∷ ws else grow c ws)) (x ∷ p)
          ≡ has_prefix (c ∷ s) (x ∷ p)
        → any (λ w. contains_text w (x ∷ p)) ws ≡ contains_text s (x ∷ p)
        → any (λ w. contains_text w (x ∷ p)) (if c == sep then [] ∷ ws else grow c ws)
          ≡ contains_text (c ∷ s) (x ∷ p)
    go [] e f = ground arith
    go (w ∷ ws) e f = ground arith
