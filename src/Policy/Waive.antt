-- ===== src/Policy/Waive.antt =====
-- core/policy/waive.py: a new waiver, and the text of the waiver file with it. `safe_load` is
-- PyYAML's; an entry that it makes of other things than values and text keys is out of the model.
pub mod Files
pub mod Honoured
mod Samples
use bare_binary_analysis.Prelude.{
  ◌>>◌, ℕ, String, Bool, true, false, Option, none, some, [], ◌∷◌, Result, ok, err, raise_if,
  or_raise, zero, suc, Date, fstring, if◌then◌else◌, leb, ◌&&◌, fromisoformat, isoformat, lower,
  ltb, nat_beq, ◌*◌, ◌||◌, days_in_month, strip, ◌+◌, ◌/◌, not, ◌%◌, ◌-◌, ◌==◌, date_lt, string_eq,
  ltb_ℤ, days_between, show_ℤ,
}
use bare_binary_analysis.Policy.Model.{Waiver}
use bare_binary_analysis.Policy.Document.{Policy}
use Prim.Native.String
use Prim.Native.Char.{Char, code}

-- `WaiveError`, and the exceptions of a date past the year 9999 and of a YAML text.
pub data WaiveError : Type 0 where
  waive_error : String → WaiveError
  overflow_error : WaiveError
  yaml_error : String → WaiveError

next_day : Date → Date
next_day d =
    if ltb d.day (days_in_month d.year d.month)
    then record d { day = d.day + 1 }
    else if ltb d.month 12
    then record d { month = d.month + 1; day = 1 }
    else record { year = d.year + 1; month = 1; day = 1 }

-- `d + timedelta(days=n)`
pub add_days : ℕ → Date → Date
add_days zero d = d
add_days (suc n) d = next_day (add_days n d)

shift : ℕ → Date → Result WaiveError Date
shift n d =
    let later = add_days n d in
    if ltb 999999999 n || ltb 9999 later.year then err overflow_error else ok later

-- The number of a text of ASCII digits and a `d`; the flag says that a digit was read.
relative_days : Bool → ℕ → String → Option ℕ
relative_days started n String.[] = none
relative_days started n (String.◌∷◌ c s) =
    let is_digit = leb 48 (code c) && leb (code c) 57 in
    let rest = relative_days true (n * 10 + (code c - 48)) s in
    if is_digit then rest else if started && String.◌∷◌ c s == "d" then some n else none

expiry_error : String → WaiveError
expiry_error s = waive_error (
    fstring (
      "--expires must be a date (YYYY-MM-DD) or a number of days such as 30d, got '" ∷ s ∷ "'"
      ∷ []))

on_relative : Option ℕ → String → String → Date → Result WaiveError Date
on_relative (some n) value s today = shift n today
on_relative none value s today = or_raise (fromisoformat value) (expiry_error s)

pub parse_expiry : String → Date → Result WaiveError Date
parse_expiry s today =
    let value = lower (strip s) in on_relative (relative_days false 0 value) value s today

is_hex : Char → Bool
is_hex c = (leb 48 (code c) && leb (code c) 57) || (leb 97 (code c) && leb (code c) 102)

all_hex : String → Bool
all_hex String.[] = true
all_hex (String.◌∷◌ c s) = is_hex c && all_hex s

text_length : String → ℕ
text_length String.[] = 0
text_length (String.◌∷◌ c s) = suc (text_length s)

abbrev finding_id_length : ℕ
finding_id_length = 32

-- `_FINDING_ID_RE`
pub is_finding_id : String → Bool
is_finding_id s = all_hex s && nat_beq (text_length s) finding_id_length

-- `_PREFIX_RE`
is_id_prefix : String → Bool
is_id_prefix s = all_hex s && leb 1 (text_length s) && ltb (text_length s) finding_id_length

id_error : String → String → WaiveError
id_error finding_id normalised =
    if is_id_prefix normalised
    then waive_error (
        fstring (
          "'" ∷ finding_id
          ∷ "' is a shortened finding id. The gate matches waivers against the full 32-character "
          ∷ "id, so a prefix would never apply. "
          ∷ "The full id is printed in the gate output and in `--json`." ∷ []))
    else waive_error
        (fstring ("'" ∷ finding_id ∷ "' is not a finding id (expected 32 hex characters)" ∷ []))

pub build_waiver : String → String → String → Date → Policy → Date → Result WaiveError Waiver
build_waiver finding_id raw_reason raw_owner expires policy today = do
  let normalised = lower (strip finding_id)
  raise_if (not (is_finding_id normalised)) (id_error finding_id normalised)
  let reason = strip raw_reason
  let owner = strip raw_owner
  raise_if (policy.require_waiver_reason && reason == "")
      (waive_error (fstring ("a --reason is required by policy '" ∷ policy.name ∷ "'" ∷ [])))
  raise_if (policy.require_waiver_owner && owner == "")
      (waive_error (fstring ("an --owner is required by policy '" ∷ policy.name ∷ "'" ∷ [])))
  raise_if (date_lt expires today)
      (waive_error (fstring ("expiry " ∷ isoformat expires ∷ " is already in the past" ∷ [])))
  raise_if (ltb_ℤ policy.max_waiver_days (days_between expires today)) (
      waive_error (
        fstring (
          "expiry "
          ∷ isoformat expires
          ∷ " is "
          ∷ show_ℤ (days_between expires today)
          ∷ " days away; policy '"
          ∷ policy.name
          ∷ "' allows at most "
          ∷ show_ℤ policy.max_waiver_days
          ∷ [])))
  ok (record { finding_id = normalised; reason = reason; owner = owner; expires = expires })

hex_digit : ℕ → String
hex_digit n = String.◌∷◌ (String.char_at "0123456789abcdef" n) ""

-- One character of a JSON text, as `json.dumps(..., ensure_ascii=False)` writes it.
escape : Char → String
escape c =
    if nat_beq (code c) 34
    then "\\\""
    else if nat_beq (code c) 92
    then "\\\\"
    else if nat_beq (code c) 10
    then "\\n"
    else if nat_beq (code c) 13
    then "\\r"
    else if nat_beq (code c) 9
    then "\\t"
    else if nat_beq (code c) 12
    then "\\f"
    else if nat_beq (code c) 8
    then "\\b"
    else if ltb (code c) 32
    then fstring ("\\u00" ∷ hex_digit (code c / 16) ∷ hex_digit (code c % 16) ∷ [])
    else String.◌∷◌ c ""

escaped : String → String
escaped String.[] = ""
escaped (String.◌∷◌ c s) = fstring (escape c ∷ escaped s ∷ [])

-- `_scalar`
scalar : String → String
scalar s = fstring ("\"" ∷ escaped s ∷ "\"" ∷ [])

pub render_entry : Waiver → String → String
render_entry w indent = fstring (
    indent
    ∷ "- finding_id: "
    ∷ w.finding_id
    ∷ "\n"
    ∷ indent
    ∷ "  reason: "
    ∷ scalar w.reason
    ∷ "\n"
    ∷ indent
    ∷ "  owner: "
    ∷ scalar w.owner
    ∷ "\n"
    ∷ indent
    ∷ "  expires: "
    ∷ isoformat w.expires
    ∷ "\n"
    ∷ [])
