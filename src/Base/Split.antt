-- ===== src/Base/Split.antt =====
-- `strings.Split`, `strings.Cut` and `strings.Join` at a one-character separator.
use Prim.Native.Nat.{ℕ}
use mathlib.Core.Bool.{Bool, true, not}
use mathlib.Core.Path.{◌≡◌, refl, ap, ◌∙◌}
use mathlib.Core.Option.{Option, none, some}
use mathlib.Core.List.{List, [], ◌∷◌, ◌++◌}
use native.Mathlib.Omega.{arith}
use api_gatewahy.Base.Tests.{◌==◌, if◌then◌else◌}
use api_gatewahy.Base.Lists.{all}
use api_gatewahy.Base.Strings.{Text}

-- The first piece of a split grows by one character.
abbrev pub grow : ℕ → List Text → List Text
grow c [] = (c ∷ []) ∷ []
grow c (w ∷ ws) = (c ∷ w) ∷ ws

unfoldable pub split : Text → ℕ → List Text
split [] sep = [] ∷ []
split (c ∷ s) sep = let rest = split s sep in if c == sep then [] ∷ rest else grow c rest

abbrev pub grow_cut : ℕ → Option (Text × Text) → Option (Text × Text)
grow_cut c none = none
grow_cut c (some (a, b)) = some (c ∷ a, b)

unfoldable pub cut : Text → ℕ → Option (Text × Text)
cut [] sep = none
cut (c ∷ s) sep = let rest = cut s sep in if c == sep then some ([], s) else grow_cut c rest

unfoldable pub join : List Text → Text → Text
join [] sep = []
join (w ∷ []) sep = w
join (w ∷ v ∷ ws) sep = w ++ (sep ++ join (v ∷ ws) sep)

-- No character of the text is `c`.
abbrev pub free : ℕ → Text → Bool
free c s = all (λ x. not (x == c)) s

cut_step :
    (c : ℕ) (s : Text) (sep : ℕ) (rest : Option (Text × Text)) {a b : Text}
    → ((x y : Text) → rest ≡ some (x, y) → s ≡ x ++ (sep ∷ y))
    → (if c == sep then some ([], s) else grow_cut c rest) ≡ some (a, b)
    → c ∷ s ≡ a ++ (sep ∷ b)
cut_step c s sep none ih h = ground arith
cut_step c s sep (some (x, y)) ih h = ground (arith, ih x y refl)

-- Where `cut` succeeds, its two parts round the separator are the text.
pub cut-eq_some : (s : Text) (sep : ℕ) {a b : Text} → cut s sep ≡ some (a, b) → s ≡ a ++ (sep ∷ b)
unfolding cut
cut-eq_some [] sep h = ground arith
cut-eq_some (c ∷ s) sep h = cut_step c s sep (cut s sep) (λ x y e. cut-eq_some s sep e) h

pub cut-append :
    (a : Text) (sep : ℕ) (b : Text) → free sep a ≡ true → cut (a ++ (sep ∷ b)) sep ≡ some (a, b)
unfolding cut
cut-append [] sep b h = ground arith
cut-append (c ∷ a) sep b h = ground (arith, cut-append a sep b)

-- The first part of a cut is free of the separator.
cut_step_free :
    (c : ℕ) (s : Text) (sep : ℕ) (rest : Option (Text × Text)) {a b : Text}
    → ((x y : Text) → rest ≡ some (x, y) → free sep x ≡ true)
    → (if c == sep then some ([], s) else grow_cut c rest) ≡ some (a, b)
    → free sep a ≡ true
cut_step_free c s sep none ih h = ground arith
cut_step_free c s sep (some (x, y)) ih h = ground (arith, ih x y refl)

pub cut-free : (s : Text) (sep : ℕ) {a b : Text} → cut s sep ≡ some (a, b) → free sep a ≡ true
unfolding cut
cut-free [] sep h = ground arith
cut-free (c ∷ s) sep h = cut_step_free c s sep (cut s sep) (λ x y e. cut-free s sep e) h

-- A text with no separator is one piece.
pub split-free : (s : Text) (sep : ℕ) → free sep s ≡ true → split s sep ≡ s ∷ []
unfolding split
split-free [] sep h = refl
split-free (c ∷ s) sep h = ground (arith, split-free s sep)

pub split-append :
    (w s : Text) (sep : ℕ) → free sep w ≡ true → split (w ++ (sep ∷ s)) sep ≡ w ∷ split s sep
unfolding split
split-append [] s sep h = ground arith
split-append (c ∷ w) s sep h = ground (arith, split-append w s sep)

-- Splitting takes a join apart again, where no piece holds the separator.
pub split-join :
    (w : Text) (ws : List Text) (sep : ℕ)
    → all (free sep) (w ∷ ws) ≡ true
    → split (join (w ∷ ws) (sep ∷ [])) sep ≡ w ∷ ws
unfolding join
split-join w [] sep h = split-free w sep (ground arith)
split-join w (v ∷ ws) sep h =
    split-append w (join (v ∷ ws) (sep ∷ [])) sep (ground arith)
    ∙ ap (λ (r : List Text). w ∷ r) (split-join v ws sep (ground arith))
