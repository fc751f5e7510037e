-- ===== src/Base/Dates.antt =====
-- `time.Parse("2006-01-02", s)`: midnight UTC of that day, in nanoseconds since the zero time, which
-- is midnight of the first day of year 1. Year 0 lies before it and reads as the zero time.
use Prim.Native.Nat.{ℕ, zero, suc, ◌+◌, ◌-◌, ◌*◌, ◌/◌, ◌%◌}
use mathlib.Core.Bool.{Bool, not, ◌&&◌, ◌||◌}
use mathlib.Core.Option.{Option, none, some}
use mathlib.Core.List.{[], ◌∷◌}
use api_gatewahy.Base.Tests.{leb, ◌==◌, if◌then◌else◌}
use api_gatewahy.Base.Strings.{Text}

abbrev pub day_ns : ℕ
day_ns = 86_400_000_000_000

is_digit : ℕ → Bool
is_digit c = leb b'0' c && leb c b'9'

is_leap : ℕ → Bool
is_leap y = y % 4 == 0 && (not (y % 100 == 0) || y % 400 == 0)

february : ℕ → ℕ
february y = if is_leap y then 29 else 28

days_in : ℕ → ℕ → ℕ
days_in m y =
    if m == 2 then february y else if m == 4 || m == 6 || m == 9 || m == 11 then 30 else 31

days_before_month : ℕ → ℕ → ℕ
days_before_month zero y = 0
days_before_month (suc zero) y = 0
days_before_month (suc (suc m)) y = days_in (suc m) y + days_before_month (suc m) y

days_before_year : ℕ → ℕ
days_before_year y = let p = y - 1 in p * 365 + p / 4 - p / 100 + p / 400

date_of : ℕ → ℕ → ℕ → Option ℕ
date_of y m d =
    if leb 1 m && leb m 12 && leb 1 d && leb d (days_in m y)
    then some
        (if y == 0 then 0 else (days_before_year y + days_before_month m y + (d - 1)) * day_ns)
    else none

value : ℕ → ℕ
value c = c - b'0'

unfoldable pub parse_date : Text → Option ℕ
unfolding is_digit is_leap february days_in days_before_month days_before_year date_of value
parse_date (a ∷ b ∷ c ∷ d ∷ s ∷ e ∷ f ∷ t ∷ g ∷ h ∷ []) =
    if is_digit a
      && is_digit b
      && is_digit c
      && is_digit d
      && s == b'-'
      && is_digit e
      && is_digit f
      && t == b'-'
      && is_digit g
      && is_digit h
    then date_of (value a * 1000 + value b * 100 + value c * 10 + value d) (value e * 10 + value f)
        (value g * 10 + value h)
    else none
parse_date _ = none
