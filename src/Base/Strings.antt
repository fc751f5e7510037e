-- ===== src/Base/Strings.antt =====
-- Go strings as lists of code points, and the functions of `strings` and `slices` that the program
-- calls on them. Letter case is that of the code points whose lower or upper case is ASCII; every
-- other code point keeps itself, so comparisons with the program's ASCII constants are exact.
use Prim.Native.Nat.{ℕ, ◌+◌, ◌-◌}
use Prim.Native.Char.{code}
use Prim.Native.String.{String}
use mathlib.Core.Bool.{Bool, true, false, not, ◌&&◌, ◌||◌}
use mathlib.Core.Path.{◌≡◌, refl}
use mathlib.Core.Logic.{◌↔◌}
use mathlib.Core.List.{List, [], ◌∷◌, ◌++◌, map, reverse}
use native.Mathlib.Omega.{arith}
use api_gatewahy.Base.Tests.{leb, ◌==◌, if◌then◌else◌}
use api_gatewahy.Base.Lists.{any}

abbrev pub Text : Type 0
Text = List ℕ

abbrev pub codes : String → Text
codes String.[] = []
codes (String.◌∷◌ c s) = code c ∷ codes s

unfoldable pub eqb : Text → Text → Bool
eqb [] [] = true
eqb (x ∷ xs) (y ∷ ys) = x == y && eqb xs ys
eqb _ _ = false

pub eqb→≡ : (s t : Text) → eqb s t ≡ true → s ≡ t
unfolding eqb
eqb→≡ [] [] h = refl
eqb→≡ [] (y ∷ ys) h = ground arith
eqb→≡ (x ∷ xs) [] h = ground arith
eqb→≡ (x ∷ xs) (y ∷ ys) h = ground (arith, eqb→≡ xs ys)

pub eqb_refl : (s : Text) → eqb s s ≡ true
unfolding eqb
eqb_refl [] = refl
eqb_refl (x ∷ xs) = ground (arith, eqb_refl xs)

pub eqb_iff : (s t : Text) → (eqb s t ≡ true) ↔ (s ≡ t)
eqb_iff s t = (eqb→≡ s t, λ e. ground (arith, e, eqb_refl s))

pub eqb_symm : (s t : Text) → eqb s t ≡ eqb t s
eqb_symm s t = ground (arith, eqb_iff s t, eqb_iff t s)

abbrev pub is_empty : Text → Bool
is_empty [] = true
is_empty (x ∷ xs) = false

-- slices.Contains
unfoldable pub contains : List Text → Text → Bool
contains [] x = false
contains (y ∷ ys) x = eqb y x || contains ys x

-- strings.HasPrefix
unfoldable pub has_prefix : Text → Text → Bool
has_prefix s [] = true
has_prefix [] (p ∷ ps) = false
has_prefix (c ∷ s) (p ∷ ps) = c == p && has_prefix s ps

-- strings.Contains
unfoldable pub contains_text : Text → Text → Bool
unfolding has_prefix
contains_text [] p = has_prefix [] p
contains_text (c ∷ s) p = has_prefix (c ∷ s) p || contains_text s p

-- unicode.IsSpace
unfoldable pub is_space : ℕ → Bool
is_space c =
    (leb 9 c && leb c 13)
    || c == 32
    || c == 0x85
    || c == 0xa0
    || c == 0x1680
    || (leb 0x2000 c && leb c 0x200a)
    || c == 0x2028
    || c == 0x2029
    || c == 0x202f
    || c == 0x205f
    || c == 0x3000

-- strings.TrimLeftFunc(s, unicode.IsSpace)
unfoldable pub trim_left : Text → Text
trim_left [] = []
trim_left (c ∷ s) = let rest = trim_left s in if is_space c then rest else c ∷ s

-- strings.TrimSpace
unfoldable pub trim_space : Text → Text
unfolding trim_left is_space
trim_space s = reverse (trim_left (reverse (trim_left s)))

-- unicode.ToLower: U+0130 and U+212A are the two others whose lower case is an ASCII letter.
unfoldable pub lower_rune : ℕ → ℕ
lower_rune c =
    if leb b'A' c && leb c b'Z'
    then c + 32
    else if c == 0x130
    then b'i'
    else if c == 0x212a
    then b'k'
    else c

-- unicode.ToUpper: U+0131 and U+017F are the two others whose upper case is an ASCII letter.
unfoldable pub upper_rune : ℕ → ℕ
upper_rune c =
    if leb b'a' c && leb c b'z'
    then c - 32
    else if c == 0x131
    then b'I'
    else if c == 0x17f
    then b'S'
    else c

unfoldable pub to_lower : Text → Text
unfolding lower_rune
to_lower = map lower_rune

unfoldable pub to_upper : Text → Text
unfolding upper_rune
to_upper = map upper_rune

pub lower_rune_idem : (c : ℕ) → lower_rune (lower_rune c) ≡ lower_rune c
unfolding lower_rune
lower_rune_idem c = ground arith

pub contains-append :
    (xs ys : List Text) (x : Text) → contains (xs ++ ys) x ≡ (contains xs x || contains ys x)
unfolding contains
contains-append [] ys x = refl
contains-append (y ∷ xs) ys x = ground (arith, contains-append xs ys x)

pub contains-any : (xs : List Text) (x : Text) → contains xs x ≡ any (λ y. eqb y x) xs
unfolding contains
contains-any [] x = refl
contains-any (y ∷ ys) x = ground (arith, contains-any ys x)

pub has_prefix-append : (p s : Text) → has_prefix (p ++ s) p ≡ true
unfolding has_prefix
has_prefix-append [] [] = refl
has_prefix-append [] (c ∷ s) = refl
has_prefix-append (c ∷ p) s = ground (arith, has_prefix-append p s)

-- No text stands twice.
abbrev pub distinct : List Text → Bool
distinct [] = true
distinct (x ∷ xs) = not (contains xs x) && distinct xs

-- No text of the second list is in the first.
abbrev pub disjoint : List Text → List Text → Bool
disjoint ys [] = true
disjoint ys (x ∷ xs) = not (contains ys x) && disjoint ys xs

pub disjoint-append :
    (ys xs : List Text) (v : Text)
    → disjoint ys xs ≡ true
    → contains xs v ≡ false
    → disjoint (ys ++ (v ∷ [])) xs ≡ true
unfolding contains
disjoint-append ys [] v h n = refl
disjoint-append ys (x ∷ xs) v h n =
    ground (arith, disjoint-append ys xs v, contains-append ys (v ∷ []) x, eqb_symm x v)

pub distinct-append :
    (xs : List Text) (v : Text)
    → distinct xs ≡ true
    → contains xs v ≡ false
    → distinct (xs ++ (v ∷ [])) ≡ true
unfolding contains
distinct-append [] v d n = refl
distinct-append (x ∷ xs) v d n =
    ground (arith, distinct-append xs v, contains-append xs (v ∷ []) x, eqb_symm x v)

pub disjoint-nil : (vs : List Text) → disjoint [] vs ≡ true
unfolding contains
disjoint-nil [] = refl
disjoint-nil (v ∷ vs) = disjoint-nil vs
