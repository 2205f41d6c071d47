-- ===== src/Policy/Loader.antt =====
-- core/policy/loader.py: policies and waivers from the values of their YAML files.
pub mod Waivers
pub mod Documents
mod Samples
use bare_binary_analysis.Prelude.{
  ◌>>◌, ℕ, ℤ, pos, String, Bool, true, false, Option, none, some, List, [], ◌∷◌, Result, ok, err,
  ◌>>=◌, raise_if, or_raise, re_raise, Value, null, bool, num, string, day, moment, arr, obj, Items,
  nil, cons, Fields, end, field, Date, Dict, IntError, date_lt, field_or, fstring, if◌then◌else◌,
  int_of, lower, strip, ◌==◌, fromisoformat, get, leb_ℤ, ltb_ℤ, not, put, py_str, show, sort_by,
  string_eq, type_name, ◌||◌, contains, eqb_ℤ, is_true, py_repr, ◌&&◌, ◌+◌, show_ℤ, str_lt,
}
use bare_binary_analysis.Vocab.{Severity, severity_of}
use bare_binary_analysis.Policy.Model.{BaselineMode, new_only, DegradedPosture, fail, warn, Waiver}
use bare_binary_analysis.Policy.Document.{unlimited, Budgets, Policy}

-- The exceptions of this module: `PolicyLoadError`, and those of `int(...)` on the version.
pub data LoadError : Type 0 where
  load_error : String → LoadError
  version_error : IntError → LoadError

-- `_require_mapping`
unfoldable pub require_mapping : Value → String → Result LoadError Fields
require_mapping null what = ok end
require_mapping (obj fs) what = ok fs
require_mapping v what =
    err (load_error (fstring (what ∷ " must be a mapping, got " ∷ type_name v ∷ [])))

abbrev severity_list : String
severity_list = "['critical', 'high', 'info', 'low', 'medium']"

-- `_severity`
severity_from : Value → String → Result LoadError Severity
severity_from v field_name = or_raise (severity_of (lower (strip (py_str v)))) (
    load_error (
      fstring (
        field_name
        ∷ ": unknown severity "
        ∷ py_repr v
        ∷ "; expected one of "
        ∷ severity_list
        ∷ [])))

stripped_texts : Items → List String
stripped_texts nil = []
stripped_texts (cons v rest) =
    let more = stripped_texts rest in let s = strip (py_str v) in if s == "" then more else s ∷ more

-- `_str_set`
pub str_set : Value → String → Result LoadError (List String)
str_set null field_name = ok []
str_set (arr xs) field_name = ok (stripped_texts xs)
str_set v field_name = err (load_error (fstring (field_name ∷ " must be a list" ∷ [])))

-- The body of the loop of `_budgets`: the name and the limit of one entry.
budget_entry : String → Value → Result LoadError (String × ℤ)
budget_entry key v = do
  let name = lower (strip key)
  known ←
      or_raise (severity_of name)
        (load_error (fstring ("budgets: unknown severity '" ∷ key ∷ "'" ∷ [])))
  limit ←
      re_raise (int_of v)
        (λ _. load_error (fstring ("budgets." ∷ name ∷ " must be an integer" ∷ [])))
  raise_if (ltb_ℤ limit unlimited)
      (load_error (fstring ("budgets." ∷ name ∷ " must be >= -1" ∷ [])))
  ok (name, limit)

budget_entries : Fields → Dict String ℤ → Result LoadError (Dict String ℤ)
budget_entries end values = ok values
budget_entries (field key v rest) values =
    budget_entry key v >>= λ entry. budget_entries rest (put entry.0 entry.1 values)

or_unlimited : Option ℤ → ℤ
or_unlimited none = unlimited
or_unlimited (some n) = n

-- `Budgets(**values)`
budgets_of : Dict String ℤ → Budgets
budgets_of values = record {
  critical = or_unlimited (get "critical" values);
  high = or_unlimited (get "high" values);
  medium = or_unlimited (get "medium" values);
  low = or_unlimited (get "low" values);
  info = or_unlimited (get "info" values);
}

-- `_budgets`
pub read_budgets : Value → Result LoadError Budgets
read_budgets raw = do
  entries ← require_mapping raw "budgets"
  values ← budget_entries entries []
  ok (budgets_of values)

baseline_mode_of : String → Option BaselineMode
baseline_mode_of s =
    if s == "new_only" then some new_only else if s == "all" then some BaselineMode.all else none

posture_of : String → Option DegradedPosture
posture_of s =
    if s == "fail"
    then some fail
    else if s == "warn"
    then some warn
    else if s == "pass"
    then some DegradedPosture.pass
    else none

is_null : Value → Bool
is_null null = true
is_null _ = false

-- The floor of a block: the words `none`, `off` and an empty text turn it off.
read_floor : Value → Result LoadError (Option Severity)
read_floor raw =
    if is_null raw || contains ("none" ∷ "off" ∷ "" ∷ []) (lower (strip (py_str raw)))
    then ok none
    else severity_from raw "block.severity_at_or_above" >>= λ s. ok (some s)

read_mode : Value → Result LoadError BaselineMode
read_mode v =
    let raw_mode = lower (strip (py_str v)) in
    or_raise (baseline_mode_of raw_mode) (
      load_error
        (fstring ("baseline.mode must be one of ['new_only', 'all'], got '" ∷ raw_mode ∷ "'" ∷ [])))

read_posture : Value → Result LoadError DegradedPosture
read_posture v =
    let raw_degraded = lower (strip (py_str v)) in
    or_raise (posture_of raw_degraded) (
      load_error (
        fstring
          ("on_degraded must be one of ['fail', 'warn', 'pass'], got '" ∷ raw_degraded ∷ "'" ∷ [])))

read_max_days : Value → Result LoadError ℤ
read_max_days v = do
  max_days ← re_raise (int_of v) (λ _. load_error "waivers.max_ttl_days must be an integer")
  raise_if (leb_ℤ max_days (pos 0)) (load_error "waivers.max_ttl_days must be positive")
  ok max_days

read_version : Value → String → Result LoadError ℤ
read_version v source = do
  version ← re_raise (int_of v) version_error
  raise_if (not (eqb_ℤ version (pos 1))) (
      load_error (
        fstring (
          source ∷ ": unsupported policy version " ∷ show_ℤ version ∷ "; this build reads 1" ∷ [])))
  ok version

or_default_name : String → String
or_default_name s = if s == "" then "default" else s

pub parse_policy : Fields → String → Result LoadError Policy
parse_policy fs source = do
  version ← read_version (field_or "version" (num (pos 1)) fs) source
  block ← require_mapping (field_or "block" null fs) "block"
  floor ← read_floor (field_or "severity_at_or_above" (string "high") block)
  baseline ← require_mapping (field_or "baseline" null fs) "baseline"
  mode ← read_mode (field_or "mode" (string "new_only") baseline)
  degraded ← read_posture (field_or "on_degraded" (string "fail") fs)
  waivers_cfg ← require_mapping (field_or "waivers" null fs) "waivers"
  max_days ← read_max_days (field_or "max_ttl_days" (num (pos 90)) waivers_cfg)
  categories ← str_set (field_or "categories" null block) "block.categories"
  rules ← str_set (field_or "rules" null block) "block.rules"
  budgets ← read_budgets (field_or "budgets" null fs)
  ok (record {
    name = or_default_name (strip (py_str (field_or "name" (string "default") fs)));
    version = version;
    block_at_or_above = floor;
    block_categories = categories;
    block_rules = rules;
    budgets = budgets;
    baseline_mode = mode;
    on_degraded = degraded;
    trust_llm_dismissals = is_true (field_or "trust_llm_dismissals" (bool false) fs);
    max_waiver_days = max_days;
    require_waiver_owner = is_true (field_or "require_owner" (bool true) waivers_cfg);
    require_waiver_reason = is_true (field_or "require_reason" (bool true) waivers_cfg);
  })

-- `_parse_date`
unfoldable pub parse_date : Value → String → Result LoadError Date
parse_date (moment d s) field_name = ok d
parse_date (day d) field_name = ok d
parse_date v field_name = or_raise (fromisoformat (strip (py_str v))) (
    load_error
      (fstring (field_name ∷ ": expected an ISO date (YYYY-MM-DD), got " ∷ py_repr v ∷ [])))

unfoldable pub is_absent : Value → Bool
is_absent null = true
is_absent (string s) = s == ""
is_absent _ = false

-- The body of the loop of `parse_waivers`, after the entry is seen to be a mapping.
unfoldable pub parse_item : Fields → List String → Policy → String → Result LoadError Waiver
parse_item item seen policy place = do
  let finding_id = strip (py_str (field_or "finding_id" (string "") item))
  raise_if (finding_id == "") (load_error (fstring (place ∷ ": finding_id is required" ∷ [])))
  raise_if (contains seen finding_id)
      (load_error (fstring (place ∷ ": duplicate waiver for finding " ∷ finding_id ∷ [])))
  let reason = strip (py_str (field_or "reason" (string "") item))
  raise_if (policy.require_waiver_reason && reason == "")
      (load_error (fstring (place ∷ ": a reason is required by policy '" ∷ policy.name ∷ "'" ∷ [])))
  let owner = strip (py_str (field_or "owner" (string "") item))
  raise_if (policy.require_waiver_owner && owner == "")
      (load_error (fstring (place ∷ ": an owner is required by policy '" ∷ policy.name ∷ "'" ∷ [])))
  let raw = field_or "expires" null item
  raise_if (is_absent raw) (load_error (fstring (place ∷ ": an 'expires' date is required" ∷ [])))
  expires ← parse_date raw (fstring (place ∷ ".expires" ∷ []))
  ok (record { finding_id = finding_id; reason = reason; owner = owner; expires = expires })

unfoldable pub parse_waiver : Value → List String → Policy → String → Result LoadError Waiver
parse_waiver entry seen policy place =
    require_mapping entry place >>= λ item. parse_item item seen policy place

-- The key `(w.expires, w.finding_id)`.
unfoldable pub by_expiry : Waiver → Waiver → Bool
by_expiry a b =
    date_lt a.expires b.expires
    || (not (date_lt b.expires a.expires) && str_lt a.finding_id b.finding_id)

-- The loop from the entry at the index, with the ids that were seen.
unfoldable pub parse_entries :
    Items → ℕ → List String → Policy → String → Result LoadError (List Waiver)
parse_entries nil index seen policy source = ok []
parse_entries (cons entry rest) index seen policy source =
    parse_waiver entry seen policy (fstring (source ∷ ": waivers[" ∷ show index ∷ "]" ∷ []))
    >>= λ w.
        parse_entries rest (index + 1) (w.finding_id ∷ seen) policy source >>= λ ws. ok (w ∷ ws)

unfoldable pub entries_of : Value → String → Result LoadError Items
entries_of null source = ok nil
entries_of (arr xs) source = ok xs
entries_of v source = err (load_error (fstring (source ∷ ": 'waivers' must be a list" ∷ [])))

unfoldable pub parse_waivers : Fields → Policy → String → Result LoadError (List Waiver)
parse_waivers fs policy source = do
  entries ← entries_of (field_or "waivers" (arr nil) fs) source
  waivers ← parse_entries entries 0 [] policy source
  ok (sort_by by_expiry waivers)
