-- ===== src/Base/Decimal.antt =====
-- Decimal numerals: `strconv.FormatInt(n, 10)` and `strconv.ParseInt(s, 10, 64)` at numbers that
-- are not negative.
use Prim.Native.Nat.{ℕ, zero, suc, ◌+◌, ◌-◌, ◌*◌, ◌/◌, ◌%◌, ◌<◌}
use mathlib.Core.Bool.{Bool, true, not, ◌&&◌}
use mathlib.Core.Path.{◌≡◌, refl, sym, ap, ◌∙◌}
use mathlib.Core.Option.{Option, none, some}
use mathlib.Core.List.{[], ◌∷◌, ◌++◌}
use native.Mathlib.Omega.{arith}
use api_gatewahy.Base.Tests.{Bool-cases, leb, ltb, ◌==◌, if◌then◌else◌}
use mathlib.Core.Logic.{inl, inr}
use api_gatewahy.Base.Signed.{ℤ, pos, negsuc}
use api_gatewahy.Base.Strings.{Text}

-- The digits of `n`, on `k` rounds of fuel; a round divides by ten.
unfoldable digits : ℕ → ℕ → Text
digits zero n = []
digits (suc k) n =
    let rest = digits k (n / 10) in
    if ltb n 10 then (b'0' + n) ∷ [] else rest ++ ((b'0' + n % 10) ∷ [])

-- A number has at most as many digits as the number plus one.
unfoldable pub format_int : ℕ → Text
unfolding digits
format_int n = digits (suc n) n

abbrev is_digit : ℕ → Bool
is_digit c = leb b'0' c && leb c b'9'

-- The loop of ParseUint, which stops at the first character that is no digit (`none`), and at the
-- first digit past 64 bits, where the value is the largest.
unfoldable pub digits_value : ℕ → Text → Option ℕ
digits_value acc [] = some acc
digits_value acc (c ∷ s) =
    let next = acc * 10 + (c - b'0') in
    let rest = digits_value next s in
    if not (is_digit c)
    then none
    else if leb 18446744073709551616 next
    then some 18446744073709551615
    else rest

abbrev value_or_zero : Option ℕ → ℕ
value_or_zero none = 0
value_or_zero (some v) = v

-- The value of the digits after a sign; a syntax error reads as 0.
unfoldable pub magnitude : Text → ℕ
unfolding digits_value
magnitude [] = 0
magnitude (c ∷ s) = value_or_zero (digits_value 0 (c ∷ s))

abbrev min : ℕ → ℕ → ℕ
min a b = if leb a b then a else b

abbrev negated : ℕ → ℤ
negated zero = pos 0
negated (suc n) = negsuc n

-- `n, _ := strconv.ParseInt(s, 10, 64)`
unfoldable pub parse_int : Text → ℤ
unfolding magnitude
parse_int [] = pos 0
parse_int (c ∷ s) =
    if c == b'-'
    then negated (min (magnitude s) 9223372036854775808)
    else pos (min (magnitude (if c == b'+' then s else c ∷ s)) 9223372036854775807)

digits_value-append :
    (acc : ℕ) (s : Text) (c v : ℕ)
    → digits_value acc s ≡ some v
    → is_digit c ≡ true
    → v * 10 + (c - b'0') < 18446744073709551616
    → digits_value acc (s ++ (c ∷ [])) ≡ some (v * 10 + (c - b'0'))
unfolding digits_value
digits_value-append acc [] c v h d b = ground arith
digits_value-append acc (x ∷ s) c v h d b =
    ground (arith, digits_value-append (acc * 10 + (x - b'0')) s c v)

digits_value-digits :
    (k n : ℕ) → n < k → n < 18446744073709551616 → digits_value 0 (digits k n) ≡ some n
unfolding digits digits_value
digits_value-digits zero n h b = ground arith
digits_value-digits (suc k) n h b = ground (
  arith,
  digits_value-digits k (n / 10),
  digits_value-append 0 (digits k (n / 10)) (b'0' + n % 10) (n / 10),
)

digits-first : (k n : ℕ) → n < k → (c : ℕ) × (s : Text) × (digits k n ≡ c ∷ s) × (is_digit c ≡ true)
unfolding digits
digits-first zero n h = ground arith
digits-first (suc k) n h = elim (Bool-cases (ltb n 10)) [
  | inl y ↦ (b'0' + n, [], ground arith, ground arith)
  | inr m ↦
      let (c, s, e, d) = digits-first k (n / 10) (ground arith) in
      (c, s ++ ((b'0' + n % 10) ∷ []), rw (m, e) refl, d)
]

parse_int-digits :
    (c : ℕ) (s : Text) (n : ℕ)
    → is_digit c ≡ true
    → digits_value 0 (c ∷ s) ≡ some n
    → n < 9223372036854775808
    → parse_int (c ∷ s) ≡ pos n
unfolding parse_int magnitude
parse_int-digits c s n d h b = ground arith

-- Reading a printed number gives the number.
pub parse_int-format_int : (n : ℕ) → n < 9223372036854775808 → parse_int (format_int n) ≡ pos n
unfolding format_int
parse_int-format_int n b =
    let (c, s, e, d) = digits-first (suc n) n (omega arith) in
    ap parse_int e
    ∙ parse_int-digits c s n d
        (ap (digits_value 0) (sym e)
          ∙ digits_value-digits (suc n) n (omega arith) (omega (arith, b)))
        b

-- strconv.FormatInt(z, 10)
unfoldable pub format_int64 : ℤ → Text
format_int64 (pos n) = format_int n
format_int64 (negsuc n) = b'-' ∷ format_int (suc n)

abbrev digits_of : Text → Option ℕ
digits_of [] = none
digits_of (c ∷ s) = digits_value 0 (c ∷ s)

abbrev within : ℕ → (ℕ → ℤ) → Option ℕ → Option ℤ
within limit sign none = none
within limit sign (some v) = if leb v limit then some (sign v) else none

-- `strconv.ParseInt(s, 10, 64)`, none for an error.
unfoldable pub parse_int64 : Text → Option ℤ
unfolding digits_value
parse_int64 [] = none
parse_int64 (c ∷ s) =
    if c == b'-'
    then within 9223372036854775808 negated (digits_of s)
    else within 9223372036854775807 pos (digits_of (if c == b'+' then s else c ∷ s))

parse_int64-digits :
    (c : ℕ) (s : Text) (n : ℕ)
    → is_digit c ≡ true
    → digits_value 0 (c ∷ s) ≡ some n
    → n < 9223372036854775808
    → parse_int64 (c ∷ s) ≡ some (pos n)
unfolding parse_int64
parse_int64-digits c s n d h b = ground arith

-- Reading a printed number gives the number, and no error.
pub parse_int64-format_int :
    (n : ℕ) → n < 9223372036854775808 → parse_int64 (format_int n) ≡ some (pos n)
unfolding format_int
parse_int64-format_int n b =
    let (c, s, e, d) = digits-first (suc n) n (omega arith) in
    ap parse_int64 e
    ∙ parse_int64-digits c s n d
        (ap (digits_value 0) (sym e)
          ∙ digits_value-digits (suc n) n (omega arith) (omega (arith, b)))
        b
