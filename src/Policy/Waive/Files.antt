-- ===== src/Policy/Waive/Files.antt =====
-- core/policy/waive.py: adding an entry to the text of a waiver file.
pub mod Appended
mod Samples
use bare_binary_analysis.Policy.Document.{Policy}
use bare_binary_analysis.Policy.Model.{Waiver}
use bare_binary_analysis.Policy.Waive.{WaiveError, waive_error, render_entry, yaml_error}
use bare_binary_analysis.Prelude.{
  ◌>>◌, nat_eq, string_eq, pair_eq, list_eq, ok, err, ◌>>=◌, null, obj, List, Option, Result,
  String, Value, Bool, [], fstring, if◌then◌else◌, join, some, ℕ, ◌∷◌, after_prefix, ends_with,
  false, isoformat, list_beq, nat_beq, re_raise, strip, ◌==◌, map, none, not, sort_by, string_eq,
  true, ◌||◌, get_field, ◌&&◌, ◌++◌, starts_with,
}
use bare_binary_analysis.Policy.Loader.{
  LoadError, load_error, version_error, parse_waivers, by_expiry,
}
use Prim.Native.String
use Prim.Native.Char.{Char, code}

abbrev new_file_header : String
new_file_header = fstring (
    "# BARE release-gate waivers.\n" ∷ "#\n"
    ∷ "# Each entry exempts one finding from the gate until it expires. Every field is\n"
    ∷ "# required, and an expired waiver fails the build rather than lapsing quietly.\n"
    ∷ "# Add entries with:  bare waive <finding-id> --reason ... --expires ...\n" ∷ "\n"
    ∷ "waivers:\n" ∷ [])

-- The text without its leading blanks and tabs.
skip_blanks : String → String
skip_blanks String.[] = ""
skip_blanks (String.◌∷◌ c s) =
    let rest = skip_blanks s in
    if nat_beq (code c) 32 || nat_beq (code c) 9 then rest else String.◌∷◌ c s

-- What follows the mark, after blanks.
after_mark : String → Option String → Option String
after_mark mark none = none
after_mark mark (some s) = after_prefix mark (skip_blanks s)

is_blank_rest : Option String → Bool
is_blank_rest none = false
is_blank_rest (some s) = skip_blanks s == ""

-- A line that `_EMPTY_FLOW_LIST_RE` matches.
is_empty_flow : String → Bool
is_empty_flow line = is_blank_rest (after_mark "]" (after_mark "[" (after_prefix "waivers:" line)))

-- The lines of a text, which newlines separate, and back.
push : Char → List String → List String
push c [] = String.◌∷◌ c "" ∷ []
push c (line ∷ lines) = String.◌∷◌ c line ∷ lines

split_lines : String → List String
split_lines String.[] = "" ∷ []
split_lines (String.◌∷◌ c s) =
    let rest = split_lines s in if nat_beq (code c) 10 then "" ∷ rest else push c rest

open_first : List String → List String
open_first [] = []
open_first (line ∷ lines) =
    let rest = open_first lines in if is_empty_flow line then "waivers:" ∷ lines else line ∷ rest

-- `_EMPTY_FLOW_LIST_RE.sub("waivers:", text, count=1)`
pub open_list : String → String
open_list s = join "\n" (open_first (split_lines s))

-- The spaces in front of a line, and the rest.
indent_of : String → String × String
indent_of String.[] = ("", "")
indent_of (String.◌∷◌ c s) =
    let rest = indent_of s in
    if nat_beq (code c) 32 then (String.◌∷◌ c rest.0, rest.1) else ("", String.◌∷◌ c s)

is_key_rest : Option String → Bool
is_key_rest none = false
is_key_rest (some s) = not (skip_blanks s == s) && starts_with (skip_blanks s) "finding_id:"

-- `_ITEM_INDENT_RE.search(text)`, and two spaces where it finds nothing.
item_indent : List String → String
item_indent [] = "  "
item_indent (line ∷ lines) =
    let rest = item_indent lines in
    let (indent, entry) = indent_of line in
    if is_key_rest (after_prefix "-" entry) then indent else rest

load_message : LoadError → String
load_message (load_error s) = s
load_message (version_error e) = ""

not_loaded : LoadError → WaiveError
not_loaded e = waive_error (
    fstring ("the existing file does not load; fix it before adding to it: " ∷ load_message e ∷ []))

load_value : Value → Policy → String → Result WaiveError (List Waiver)
load_value null policy source = ok []
load_value (obj fs) policy source = re_raise (parse_waivers fs policy source) not_loaded
load_value v policy source =
    err (waive_error (fstring (source ∷ " must be a mapping with a 'waivers' list" ∷ [])))

invalid_yaml : String → String → WaiveError
invalid_yaml source message =
    waive_error
      (fstring (source ∷ " is not valid YAML; fix it before adding to it: " ∷ message ∷ []))

pub is_blank : String → Bool
is_blank s = strip s == ""

has_waivers_key : Value → Bool
has_waivers_key (obj fs) = elim (get_field "waivers" fs) [ none ↦ false | some v ↦ true ]
has_waivers_key v = false

with_newline : String → String
with_newline s = if ends_with s "\n" then s else fstring (s ∷ "\n" ∷ [])

already_waived : Waiver → String → WaiveError
already_waived current source = waive_error (
    fstring (
      source
      ∷ " already waives "
      ∷ current.finding_id
      ∷ " (expires "
      ∷ isoformat current.expires
      ∷ ", owner "
      ∷ (if current.owner == "" then "unknown" else current.owner)
      ∷ "). Edit that entry rather than adding a second one; the gate rejects duplicates."
      ∷ []))

unsafe_layout : Waiver → String → WaiveError
unsafe_layout w source = waive_error (
    fstring (
      "could not add to "
      ∷ source
      ∷ " safely: its layout does not allow a plain append "
      ∷ "(for example, another key follows the waiver list). Add this entry by hand:\n\n"
      ∷ render_entry w "  "
      ∷ []))

-- The loop over the existing waivers.
check_new : List Waiver → String → String → Result WaiveError (Unit {0})
check_new [] finding_id source = ok tt
check_new (current ∷ rest) finding_id source =
    let more = check_new rest finding_id source in
    if current.finding_id == finding_id then err (already_waived current source) else more

or_empty : Result WaiveError (List Waiver) → List Waiver
or_empty (ok ws) = ws
or_empty (err e) = []

-- The waivers are compared by `==` of the dataclass.
abbrev pub waiver_key : Waiver → (String × String) × (String × (ℕ × (ℕ × ℕ)))
waiver_key w =
    ((w.finding_id, w.reason), (w.owner, (w.expires.year, (w.expires.month, w.expires.day))))

same_waivers : List Waiver → List Waiver → Bool
same_waivers after expected = list_beq (map waiver_key after) (map waiver_key expected)

module _ (safe_load : String → Result String Value) where
  -- `_load`
  pub load : String → Policy → String → Result WaiveError (List Waiver)
  load s policy source =
      if is_blank s
      then ok []
      else re_raise (safe_load s) (invalid_yaml source) >>= λ raw. load_value raw policy source

  -- `_has_waivers_key`
  names_waivers : String → Result WaiveError Bool
  names_waivers s = re_raise (safe_load s) yaml_error >>= λ raw. ok (has_waivers_key raw)

  -- The text with an open list of waivers at its end.
  prepared : String → Result WaiveError String
  prepared existing_text =
      let opened = open_list (with_newline existing_text) in
      names_waivers opened >>= λ named.
      ok (if named then opened else fstring (opened ∷ "\nwaivers:\n" ∷ []))

  -- What follows the preparation of the text: the append, and the check of its result.
  append_checked : String → List Waiver → Waiver → Policy → String → Result WaiveError String
  append_checked prepared_text existing w policy source =
      let candidate =
        fstring (prepared_text ∷ render_entry w (item_indent (split_lines prepared_text)) ∷ []) in
      let expected = sort_by by_expiry (existing ++ w ∷ []) in
      let after = or_empty (load candidate policy source) in
      if same_waivers after expected then ok candidate else err (unsafe_layout w source)

  pub append_waiver : String → Waiver → Policy → String → Result WaiveError String
  append_waiver existing_text w policy source = do
    existing ← load existing_text policy source
    check_new existing w.finding_id source
    if is_blank existing_text
        then ok (fstring (new_file_header ∷ render_entry w "  " ∷ []))
        else prepared existing_text >>= λ ready. append_checked ready existing w policy source
