-- ===== src/Prelude/IsoDates.antt =====
-- `date.fromisoformat`, for the forms YYYY-MM-DD and YYYYMMDD.
use Prim.Native.Nat.{ℕ, zero, suc, ◌+◌, ◌-◌, ◌*◌, ◌/◌, ◌%◌, ◌<◌}
use Prim.Native.Char.{Char, code}
use Prim.Native.String
use Prim.Native.String.{String, char_at}
use mathlib.Core.Path.{◌≡◌, refl, ap, ◌∙◌}
use mathlib.Core.Bool.{Bool, true, false, ◌&&◌}
use mathlib.Core.Option.{Option, none, some}
use native.Mathlib.Omega.{arith}
use text.Mathlib.TextEquality.{eq_iff}
use text.Mathlib.TextLemmas.{cons-append, nil-append, append-nil, append_assoc}
use bare_binary_analysis.Prelude.Tests.{leb, nat_beq, ◌==◌, string_eq, if◌then◌else◌}
use bare_binary_analysis.Prelude.Text.{fstring, show}
use bare_binary_analysis.Prelude.Dates.{Date, isoformat, is_leap, two_digits}

digit_of : Char → Option ℕ
digit_of c = if leb 48 (code c) && leb (code c) 57 then some (code c - 48) else none

-- The two digits at the front, and the rest.
both_digits : Option ℕ → Option ℕ → String → Option (ℕ × String)
both_digits (some a) (some b) s = some (a * 10 + b, s)
both_digits _ _ s = none

pub read_two : String → Option (ℕ × String)
unfolding digit_of both_digits
read_two (String.◌∷◌ a (String.◌∷◌ b s)) = both_digits (digit_of a) (digit_of b) s
read_two _ = none

is_dashed : String → Bool
is_dashed (String.◌∷◌ c s) = nat_beq (code c) 45
is_dashed String.[] = false

-- The rest after the dash, where the form has dashes.
after_dash : Bool → String → Option String
after_dash false s = some s
after_dash true (String.◌∷◌ c s) = if nat_beq (code c) 45 then some s else none
after_dash true String.[] = none

unfoldable pub days_in_month : ℕ → ℕ → ℕ
days_in_month y m =
    if nat_beq m 2
    then (if is_leap y then 29 else 28)
    else if nat_beq m 4
    then 30
    else if nat_beq m 6
    then 30
    else if nat_beq m 9
    then 30
    else if nat_beq m 11
    then 30
    else 31

-- The days that `datetime.date` can hold.
unfoldable pub is_calendar : Date → Bool
unfolding days_in_month
is_calendar d =
    leb 1 d.year
    && leb d.year 9999
    && leb 1 d.month
    && leb d.month 12
    && leb 1 d.day
    && leb d.day (days_in_month d.year d.month)

checked : ℕ → ℕ → ℕ → String → Option Date
unfolding is_calendar
checked y m d rest =
    let date : Date = record { year = y; month = m; day = d } in
    if rest == "" && is_calendar date then some date else none

on_day : ℕ → ℕ → Option (ℕ × String) → Option Date
unfolding checked
on_day y m none = none
on_day y m (some (d, rest)) = checked y m d rest

on_second_dash : ℕ → ℕ → Option String → Option Date
unfolding on_day
on_second_dash y m none = none
on_second_dash y m (some s) = on_day y m (read_two s)

on_month : Bool → ℕ → Option (ℕ × String) → Option Date
unfolding after_dash on_second_dash
on_month dashed y none = none
on_month dashed y (some (m, s)) = on_second_dash y m (after_dash dashed s)

on_dash : Bool → ℕ → Option String → Option Date
unfolding on_month
on_dash dashed y none = none
on_dash dashed y (some s) = on_month dashed y (read_two s)

on_year : ℕ → Option (ℕ × String) → Option Date
unfolding is_dashed after_dash on_dash
on_year c none = none
on_year c (some (y, s)) = on_dash (is_dashed s) (c * 100 + y) (after_dash (is_dashed s) s)

on_century : Option (ℕ × String) → Option Date
unfolding on_year
on_century none = none
on_century (some (c, s)) = on_year c (read_two s)

-- `none` is the `ValueError`.
unfoldable pub fromisoformat : String → Option Date
unfolding on_century read_two
fromisoformat s = on_century (read_two s)

leap_day : fromisoformat "2024-02-29" ≡ some (record { year = 2024; month = 2; day = 29 })
unfolding fromisoformat
leap_day = refl

no_leap_day : fromisoformat "20230229" ≡ none
unfolding fromisoformat
no_leap_day = refl

-- To check each number of a range by evaluation.
all_below : ℕ → (ℕ → Bool) → Bool
all_below zero test = true
all_below (suc n) test = test n && all_below n test

all_below_sound :
    (n : ℕ) (test : ℕ → Bool) (x : ℕ) → all_below n test ≡ true → x < n → test x ≡ true
unfolding all_below
all_below_sound zero test x h lt = absurd (omega arith)
all_below_sound (suc n) test x h lt = ground (arith, all_below_sound n test x)

abbrev digit_char : ℕ → Char
digit_char k = char_at "0123456789" k

abbrev is_number : ℕ → Option ℕ → Bool
is_number k none = false
is_number k (some n) = nat_beq n k

is_number→eq : (k : ℕ) (o : Option ℕ) → is_number k o ≡ true → o ≡ some k
is_number→eq k none h = absurd (ground arith)
is_number→eq k (some n) h = ground arith

digit_table : all_below 10 (λ k. is_number k (digit_of (digit_char k))) ≡ true
unfolding all_below digit_of
digit_table = refl

digit_of-digit_char : (k : ℕ) → k < 10 → digit_of (digit_char k) ≡ some k
digit_of-digit_char k h = is_number→eq k _ (all_below_sound 10 _ k digit_table h)

abbrev digit_pair : ℕ → String
digit_pair n = String.◌∷◌ (digit_char (n / 10)) (String.◌∷◌ (digit_char (n % 10)) "")

pair_table : all_below 100 (λ n. two_digits n == digit_pair n) ≡ true
unfolding all_below two_digits fstring show
pair_table = refl

two_digits-eq : (n : ℕ) → n < 100 → two_digits n ≡ digit_pair n
two_digits-eq n h = (eq_iff _ _).0 (all_below_sound 100 _ n pair_table h)

append_pair :
    (c d : Char) (rest : String)
    → String.◌++◌ (String.◌∷◌ c (String.◌∷◌ d "")) rest ≡ String.◌∷◌ c (String.◌∷◌ d rest)
append_pair c d rest = simp (cons-append, nil-append)

read_two_cons :
    (c d : Char) (a b : ℕ) (rest : String)
    → digit_of c ≡ some a
    → digit_of d ≡ some b
    → read_two (String.◌∷◌ c (String.◌∷◌ d rest)) ≡ some (a * 10 + b, rest)
unfolding read_two
read_two_cons c d a b rest h k = rw (h, k)

read_two-two_digits :
    (n : ℕ) (rest : String) → n < 100 → read_two (String.◌++◌ (two_digits n) rest) ≡ some (n, rest)
read_two-two_digits n rest h =
    let e : n / 10 * 10 + n % 10 ≡ n = omega arith in
    rw (two_digits-eq n h) (
      ap read_two (append_pair _ _ rest)
      ∙ read_two_cons _ _ (n / 10) (n % 10) rest (digit_of-digit_char (n / 10) (omega arith))
          (digit_of-digit_char (n % 10) (omega arith))
      ∙ rw e)

after_dashes : (s : String) → String.◌++◌ "-" s ≡ String.◌∷◌ "-" s
after_dashes s = cons-append "-" "" s ∙ ap (String.◌∷◌ "-") (nil-append s)

isoformat-eq :
    (d : Date)
    → isoformat d
      ≡ String.◌++◌ (two_digits (d.year / 100)) (
          String.◌++◌ (two_digits (d.year % 100)) (
            String.◌∷◌ "-" (
              String.◌++◌
                (two_digits d.month)
                (String.◌∷◌ "-" (String.◌++◌ (two_digits d.day) "")))))
unfolding isoformat
isoformat-eq d = simp (append_assoc, append-nil, after_dashes)

is_calendar_bounds :
    (d : Date) → is_calendar d ≡ true → (d.year < 10000) × (d.month < 100) × (d.day < 100)
unfolding is_calendar
is_calendar_bounds d h = ground arith

century-eq : (y : ℕ) → y / 100 * 100 + y % 100 ≡ y
century-eq y = omega arith

-- A day of the calendar is read back from its text.
pub fromisoformat-isoformat :
    (d : Date) → is_calendar d ≡ true → fromisoformat (isoformat d) ≡ some d
unfolding fromisoformat
fromisoformat-isoformat d h =
    let (y, m, k) = is_calendar_bounds d h in
    rw (isoformat-eq d, read_two-two_digits (d.year / 100) _ (omega (arith, y)))
      (rw (read_two-two_digits (d.year % 100) _ (omega arith), read_two-two_digits d.month _ m)
        (rw (read_two-two_digits d.day _ k, century-eq d.year, h) refl))
