-- ===== src/Policy/Loader/Samples.antt =====
-- A policy file and a waiver file.
use bare_binary_analysis.Vocab.{Severity, severity_of}
use bare_binary_analysis.Policy.Loader.Waivers.{
  IsAccepted, waiver_entries, parse_waivers-IsAccepted, all_items, is_textual, is_text, fields_of,
}
use bare_binary_analysis.Policy.Model.{Waiver}
use bare_binary_analysis.Policy.Loader.Documents.{IsLoaded, parse_policy-IsLoaded}
use bare_binary_analysis.Policy.Loader.{
  parse_policy, parse_waivers, read_version, load_error, require_mapping, version_error, read_floor,
  read_mode, read_posture, read_max_days, str_set, read_budgets, budget_entries, budget_entry,
  budgets_of, or_unlimited, severity_from, baseline_mode_of, posture_of, is_null, or_default_name,
  stripped_texts, entries_of, parse_entries, parse_waiver, parse_item, parse_date, is_absent,
}
use bare_binary_analysis.Policy.Document.{Policy, default_policy, default_budgets}
use bare_binary_analysis.Prelude.{
  ok, err, refl, some, false, pos, obj, arr, nil, cons, end, field, string, num, null, bool,
  string_eq, Fields, type_name, py_repr, ◌≡◌, ◌∷◌, [], type_error, field_or, get, put, int_of,
  is_true, py_str, strip, lstrip, rstrip, lower, contains, sort_by, insert_by, fstring, show,
  fromisoformat,
}

abbrev policy_file : Fields
policy_file = field "name" (string " release ") (
    field "block" (obj (field "severity_at_or_above" (string "Critical") end))
      (field "budgets" (obj (field "medium" (num (pos 5)) end)) end))

abbrev release : Policy
release = record default_policy {
  name = "release";
  block_at_or_above = some Severity.critical;
  budgets = record default_budgets { medium = pos 5 };
}

program : Unit {0}
unfolding parse_policy read_version require_mapping read_floor read_mode read_posture read_max_days
    str_set read_budgets budget_entries budget_entry budgets_of or_unlimited severity_from
    baseline_mode_of posture_of is_null or_default_name stripped_texts field_or get put int_of
    is_true py_str strip lstrip rstrip lower contains severity_of parse_waivers entries_of
    parse_entries parse_waiver parse_item parse_date is_absent sort_by insert_by fstring show
    fromisoformat
program = tt

loaded : parse_policy policy_file "memory" ≡ ok release
unfolding program
loaded = refl

parse_policy-IsLoaded_example : IsLoaded release
parse_policy-IsLoaded_example = parse_policy-IsLoaded policy_file "memory" release loaded

-- PyYAML reads an unquoted `off` as false, which is no severity.
off_refused :
    parse_policy (field "block" (obj (field "severity_at_or_above" (bool false) end)) end) "memory"
    ≡ err (
        load_error
          "block.severity_at_or_above: unknown severity False; expected one of ['critical', 'high', 'info', 'low', 'medium']")
unfolding program type_name py_repr
off_refused = refl

-- The exception of `int(None)` is no `PolicyLoadError`.
null_version : parse_policy (field "version" null end) "memory" ≡ err (version_error type_error)
unfolding program
null_version = refl

abbrev waiver_file : Fields
waiver_file =
    field "waivers"
      (arr (
        cons
          (obj (
            field "finding_id" (string "f2") (
              field "reason" (string "inert")
                (field "owner" (string "ana") (field "expires" (string "2026-11-01") end)))))
          nil))
      end

abbrev waiver : Waiver
waiver = record {
  finding_id = "f2";
  reason = "inert";
  owner = "ana";
  expires = record { year = 2026; month = 11; day = 1 };
}

waiver_read : parse_waivers waiver_file release "memory" ≡ ok (waiver ∷ [])
unfolding program
waiver_read = refl

parse_waivers-IsAccepted_example : IsAccepted release (waiver_entries waiver_file) (waiver ∷ [])
unfolding all_items is_textual is_text fields_of waiver_entries field_or
parse_waivers-IsAccepted_example =
    parse_waivers-IsAccepted waiver_file release "memory" (waiver ∷ []) refl waiver_read

-- A null reason and a null owner load as the text "None".
null_owner :
    parse_waivers
      (field "waivers"
        (arr (
          cons
            (obj (
              field "finding_id" (string "f2") (
                field "reason" null
                  (field "owner" null (field "expires" (string "2026-11-01") end)))))
            nil))
        end)
      release
      "memory"
    ≡ ok (record waiver { reason = "None"; owner = "None" } ∷ [])
unfolding program py_repr
null_owner = refl
