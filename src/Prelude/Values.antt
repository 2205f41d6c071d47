-- ===== src/Prelude/Values.antt =====
-- The values that a JSON or YAML document is read into. Floats are left out, and keys are texts.
use Prim.Native.Nat.{ℕ, ◌+◌, ◌-◌, ◌*◌}
use Prim.Native.Char.{code}
use Prim.Native.String.{String}
use mathlib.Core.Bool.{Bool, true, false, not, ◌&&◌}
use mathlib.Core.Option
use mathlib.Core.Option.{Option, none, some}
use mathlib.Core.List.{List, [], ◌∷◌}
use bare_binary_analysis.Prelude.Tests.{leb, nat_beq, ◌==◌, string_eq, if◌then◌else◌}
use bare_binary_analysis.Prelude.Int.{ℤ, pos, negsuc}
use bare_binary_analysis.Prelude.Text.{fstring, show_ℤ, show, strip}
use bare_binary_analysis.Prelude.Dates.{Date, isoformat}
use bare_binary_analysis.Prelude.Results.{Result, ok, err}

-- A `datetime` is its day and its text.
mutual
  -- The entries of a mapping, in order.
  pub data Fields : Type 0 where
    field : String → Value → Fields → Fields
    end : Fields

  -- The elements of a sequence.
  pub data Items : Type 0 where
    cons : Value → Items → Items
    nil : Items

  pub data Value : Type 0 where
    obj : Fields → Value
    arr : Items → Value
    string : String → Value
    day : Date → Value
    moment : Date → String → Value
    num : ℤ → Value
    bool : Bool → Value
    null : Value

-- d.get(key)
unfoldable pub get_field : String → Fields → Option Value
get_field key end = none
get_field key (field k v rest) = if k == key then some v else get_field key rest

-- d.get(key, default)
unfoldable pub field_or : String → Value → Fields → Value
field_or key default end = default
field_or key default (field k v rest) = if k == key then v else field_or key default rest

unfoldable pub array {ℓ} : {A : Type ℓ} → (A → Value) → List A → Items
array f [] = nil
array f (x ∷ xs) = cons (f x) (array f xs)

separator : Bool → String
separator true = ""
separator false = ", "

quoted : String → String
quoted s = fstring ("'" ∷ s ∷ "'" ∷ [])

-- `repr(v)`: the flag of a list or a mapping is set at its first element.
unfoldable mutual
  unfolding separator quoted

  pub py_repr : Value → String
  py_repr null = "None"
  py_repr (bool true) = "True"
  py_repr (bool false) = "False"
  py_repr (num n) = show_ℤ n
  py_repr (string s) = quoted s
  py_repr (day d) =
      fstring ("datetime.date(" ∷ show d.year ∷ ", " ∷ show d.month ∷ ", " ∷ show d.day ∷ ")" ∷ [])
  py_repr (moment d s) = fstring ("datetime.datetime(" ∷ s ∷ ")" ∷ [])
  py_repr (arr xs) = fstring ("[" ∷ items_repr true xs ∷ "]" ∷ [])
  py_repr (obj fs) = fstring ("{" ∷ fields_repr true fs ∷ "}" ∷ [])

  pub items_repr : Bool → Items → String
  items_repr first nil = ""
  items_repr first (cons v rest) =
      fstring (separator first ∷ py_repr v ∷ items_repr false rest ∷ [])

  pub fields_repr : Bool → Fields → String
  fields_repr first end = ""
  fields_repr first (field k v rest) =
      fstring (separator first ∷ quoted k ∷ ": " ∷ py_repr v ∷ fields_repr false rest ∷ [])

-- `str(v)`
unfoldable pub py_str : Value → String
unfolding py_repr items_repr fields_repr
py_str (string s) = s
py_str (day d) = isoformat d
py_str (moment d s) = s
py_str v = py_repr v

is_zero : ℤ → Bool
is_zero (pos n) = nat_beq n 0
is_zero (negsuc n) = false

-- `bool(v)`
unfoldable pub is_true : Value → Bool
unfolding is_zero
is_true null = false
is_true (bool b) = b
is_true (num n) = not (is_zero n)
is_true (string s) = not (s == "")
is_true (arr nil) = false
is_true (obj end) = false
is_true v = true

-- `type(v).__name__`
unfoldable pub type_name : Value → String
type_name null = "NoneType"
type_name (bool b) = "bool"
type_name (num n) = "int"
type_name (string s) = "str"
type_name (day d) = "date"
type_name (moment d s) = "datetime"
type_name (arr xs) = "list"
type_name (obj fs) = "dict"

-- Digits with single underscores between them; the flag says that a digit came last.
digits_value : Bool → ℕ → String → Option ℕ
digits_value ended n String.[] = if ended then some n else none
digits_value ended n (String.◌∷◌ c s) =
    let is_digit = leb 48 (code c) && leb (code c) 57 in
    let rest = digits_value is_digit (if is_digit then n * 10 + (code c - 48) else n) s in
    if is_digit then rest else if nat_beq (code c) 95 && ended then rest else none

negated : ℕ → ℤ
negated n = if nat_beq n 0 then pos 0 else negsuc (n - 1)

signed_value : String → Option ℤ
signed_value String.[] = none
signed_value (String.◌∷◌ c s) =
    if nat_beq (code c) 45
    then Option.map negated (digits_value false 0 s)
    else if nat_beq (code c) 43
    then Option.map pos (digits_value false 0 s)
    else Option.map pos (digits_value false 0 (String.◌∷◌ c s))

pub data IntError : Type 0 where
  type_error value_error : IntError

or_value_error : Option ℤ → Result IntError ℤ
or_value_error none = err value_error
or_value_error (some n) = ok n

-- `int(v)`, for ASCII digits.
unfoldable pub int_of : Value → Result IntError ℤ
unfolding signed_value digits_value negated or_value_error strip
int_of (num n) = ok n
int_of (bool b) = ok (pos (if b then 1 else 0))
int_of (string s) = or_value_error (signed_value (strip s))
int_of v = err type_error
