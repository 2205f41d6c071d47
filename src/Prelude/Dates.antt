-- ===== src/Prelude/Dates.antt =====
-- `datetime.date`: a day of the proleptic Gregorian calendar.
use Prim.Native.Nat.{ℕ, ◌+◌, ◌-◌, ◌*◌, ◌/◌, ◌%◌}
use Prim.Native.String.{String}
use mathlib.Core.Bool.{Bool, ◌&&◌, ◌||◌, not}
use mathlib.Core.Path.{◌≡◌, refl}
use mathlib.Core.List.{[], ◌∷◌}
use bare_binary_analysis.Prelude.Tests.{ltb, nat_beq, if◌then◌else◌}
use bare_binary_analysis.Prelude.Int.{ℤ, sub_ℕ}
use bare_binary_analysis.Prelude.Text.{fstring, show}

pub record Date : Type 0 where
  pub year : ℕ
  pub month : ℕ
  pub day : ℕ

-- a < b
unfoldable pub date_lt : Date → Date → Bool
date_lt a b =
    ltb a.year b.year
    || (nat_beq a.year b.year
        && (ltb a.month b.month || (nat_beq a.month b.month && ltb a.day b.day)))

abbrev pub is_leap : ℕ → Bool
is_leap y = nat_beq (y % 4) 0 && (not (nat_beq (y % 100) 0) || nat_beq (y % 400) 0)

-- The days of a common year before the month.
abbrev days_before_month : ℕ → ℕ
days_before_month m =
    if nat_beq m 1
    then 0
    else if nat_beq m 2
    then 31
    else if nat_beq m 3
    then 59
    else if nat_beq m 4
    then 90
    else if nat_beq m 5
    then 120
    else if nat_beq m 6
    then 151
    else if nat_beq m 7
    then 181
    else if nat_beq m 8
    then 212
    else if nat_beq m 9
    then 243
    else if nat_beq m 10
    then 273
    else if nat_beq m 11
    then 304
    else 334

-- d.toordinal()
unfoldable pub ordinal : Date → ℕ
ordinal d =
    let y = d.year - 1 in
    y * 365
    + y / 4
    - y / 100
    + y / 400
    + days_before_month d.month
    + (if ltb 2 d.month && is_leap d.year then 1 else 0)
    + d.day

-- (a - b).days
unfoldable pub days_between : Date → Date → ℤ
unfolding ordinal
days_between a b = sub_ℕ (ordinal a) (ordinal b)

unfoldable pub two_digits : ℕ → String
two_digits n = if ltb n 10 then fstring ("0" ∷ show n ∷ []) else show n

unfoldable pub four_digits : ℕ → String
unfolding two_digits
four_digits n = fstring (two_digits (n / 100) ∷ two_digits (n % 100) ∷ [])

-- d.isoformat()
unfoldable pub isoformat : Date → String
unfolding two_digits four_digits fstring show
isoformat d = fstring (four_digits d.year ∷ "-" ∷ two_digits d.month ∷ "-" ∷ two_digits d.day ∷ [])

epoch_ordinal : ordinal (record { year = 1970; month = 1; day = 1 }) ≡ 719163
unfolding ordinal
epoch_ordinal = refl

isoformat_padded : isoformat (record { year = 2026; month = 3; day = 7 }) ≡ "2026-03-07"
unfolding isoformat
isoformat_padded = refl
