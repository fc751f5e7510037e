-- ===== src/Base/Trimming.antt =====
-- What trimming keeps, and the texts that it leaves alone.
use Prim.Native.Nat.{ℕ}
use mathlib.Core.Bool.{Bool, true, false, not}
use mathlib.Core.Path.{◌≡◌, refl}
use mathlib.Core.List.{List, [], ◌∷◌, ◌++◌, reverse, reverse_aux, reverse-reverse, reverse-append}
use native.Mathlib.Omega.{arith}
use api_gatewahy.Base.Tests.{◌==◌, if◌then◌else◌}
use api_gatewahy.Base.Lists.{all, all-append}
use api_gatewahy.Base.Strings.{
  Text, is_space, lower_rune, lower_rune_idem, to_lower, trim_left, trim_space,
}
use api_gatewahy.Base.Split.{split, grow, join, free}

all-trim_left : (p : ℕ → Bool) (s : Text) → all p s ≡ true → all p (trim_left s) ≡ true
unfolding trim_left
all-trim_left p [] h = refl
all-trim_left p (c ∷ s) h = ground (arith, all-trim_left p s)

all-reverse : (p : ℕ → Bool) (s : Text) → all p s ≡ true → all p (reverse s) ≡ true
all-reverse p [] h = refl
all-reverse p (c ∷ s) h =
    rw (reverse-append (c ∷ []) s)
      (ground (arith, all-append p (reverse s) (c ∷ []), all-reverse p s))

-- Trimming invents no character.
pub all-trim_space : (p : ℕ → Bool) (s : Text) → all p s ≡ true → all p (trim_space s) ≡ true
unfolding trim_space
all-trim_space p s h = all-reverse p _ (all-trim_left p _ (all-reverse p _ (all-trim_left p s h)))

-- A text with no blank in it.
abbrev pub solid : Text → Bool
solid s = all (λ c. not (is_space c)) s

trim_left-solid : (s : Text) → solid s ≡ true → trim_left s ≡ s
unfolding trim_left
trim_left-solid [] h = refl
trim_left-solid (c ∷ s) h = ground arith

pub trim_space-solid : (s : Text) → solid s ≡ true → trim_space s ≡ s
unfolding trim_space
trim_space-solid s h =
    rw (trim_left-solid s h, trim_left-solid (reverse s) (all-reverse _ s h)) (reverse-reverse s)

-- No piece of a split holds the separator.
pub all-split : (s : Text) (sep : ℕ) → all (free sep) (split s sep) ≡ true
unfolding split
all-split [] sep = refl
all-split (c ∷ s) sep = go (split s sep) (all-split s sep)
  where
    go :
        (ws : List Text)
        → all (free sep) ws ≡ true
        → all (free sep) (if c == sep then [] ∷ ws else grow c ws) ≡ true
    go [] h = ground arith
    go (w ∷ ws) h = ground arith

-- What holds of the separator and of each piece holds of the join.
pub all-join :
    (p : ℕ → Bool) (sep : ℕ) (ws : List Text)
    → p sep ≡ true
    → all (all p) ws ≡ true
    → all p (join ws (sep ∷ [])) ≡ true
unfolding join
all-join p sep [] c h = refl
all-join p sep (w ∷ []) c h = ground arith
all-join p sep (w ∷ v ∷ ws) c h =
    ground (arith, all-append p w (sep ∷ join (v ∷ ws) (sep ∷ [])), all-join p sep (v ∷ ws) c)

-- The text is empty or starts with no blank.
abbrev starts_solid : Text → Bool
starts_solid [] = true
starts_solid (c ∷ s) = not (is_space c)

trim_left-starts_solid : (s : Text) → starts_solid (trim_left s) ≡ true
unfolding trim_left
trim_left-starts_solid [] = refl
trim_left-starts_solid (c ∷ s) = ground (arith, trim_left-starts_solid s)

trim_left-eq_self : (s : Text) → starts_solid s ≡ true → trim_left s ≡ s
unfolding trim_left
trim_left-eq_self [] h = refl
trim_left-eq_self (c ∷ s) h = ground arith

trim_left-append :
    (s : Text) (c : ℕ) → is_space c ≡ false → trim_left (s ++ (c ∷ [])) ≡ trim_left s ++ (c ∷ [])
unfolding trim_left
trim_left-append [] c h = ground arith
trim_left-append (x ∷ s) c h = ground (arith, trim_left-append s c)

-- Trimming on the right keeps the first character.
trim_right-starts_solid :
    (s : Text) → starts_solid s ≡ true → starts_solid (reverse (trim_left (reverse s))) ≡ true
unfolding trim_left
trim_right-starts_solid [] h = refl
trim_right-starts_solid (c ∷ s) h =
    rw
      (
        reverse-append (c ∷ []) s,
        trim_left-append (reverse s) c (ground arith),
        reverse-append (trim_left (reverse s)) (c ∷ []),
      )
      h

pub trim_space_idem : (s : Text) → trim_space (trim_space s) ≡ trim_space s
unfolding trim_space
trim_space_idem s =
    let t = trim_left s in
    let u = trim_left (reverse t) in
    rw
      (
        trim_left-eq_self (reverse u) (trim_right-starts_solid t (trim_left-starts_solid s)),
        reverse-reverse u,
        trim_left-eq_self u (trim_left-starts_solid (reverse t)),
      )
      refl

is_space-lower_rune : (c : ℕ) → is_space (lower_rune c) ≡ is_space c
unfolding is_space lower_rune
is_space-lower_rune c = ground arith

trim_left-to_lower : (s : Text) → trim_left (to_lower s) ≡ to_lower (trim_left s)
unfolding trim_left to_lower
trim_left-to_lower [] = refl
trim_left-to_lower (c ∷ s) = ground (arith, is_space-lower_rune c, trim_left-to_lower s)

reverse_aux-to_lower :
    (s t : Text) → reverse_aux (to_lower s) (to_lower t) ≡ to_lower (reverse_aux s t)
unfolding to_lower
reverse_aux-to_lower [] t = refl
reverse_aux-to_lower (c ∷ s) t = reverse_aux-to_lower s (c ∷ t)

reverse-to_lower : (s : Text) → reverse (to_lower s) ≡ to_lower (reverse s)
unfolding to_lower
reverse-to_lower s = reverse_aux-to_lower s []

-- Letter case and blanks do not meet.
pub trim_space-to_lower : (s : Text) → trim_space (to_lower s) ≡ to_lower (trim_space s)
unfolding trim_space
trim_space-to_lower s =
    rw
      (
        trim_left-to_lower s,
        reverse-to_lower (trim_left s),
        trim_left-to_lower (reverse (trim_left s)),
      )
      (reverse-to_lower _)

pub to_lower_idem : (s : Text) → to_lower (to_lower s) ≡ to_lower s
unfolding to_lower
to_lower_idem [] = refl
to_lower_idem (c ∷ s) = ground (arith, lower_rune_idem c, to_lower_idem s)
