-- ===== src/Policy/Waive/Files/Samples.antt =====
-- An entry added to a small file, which a toy of the YAML reader knows.
use bare_binary_analysis.Policy.Loader.{
  parse_waivers, entries_of, parse_entries, parse_waiver, parse_item, require_mapping, parse_date,
  is_absent,
}
use bare_binary_analysis.Policy.Waive.{render_entry, scalar, escaped, escape}
use bare_binary_analysis.Policy.Waive.Files.Appended.{IsAppended, append_waiver-IsAppended}
use bare_binary_analysis.Policy.Document.{default_policy}
use bare_binary_analysis.Policy.Waive.Files.{
  append_waiver, is_blank, append_checked, prepared, names_waivers, load, load_value, check_new,
  or_empty, same_waivers, has_waivers_key, with_newline, open_list, open_first, split_lines, push,
  is_empty_flow, is_blank_rest, after_mark, skip_blanks, item_indent, indent_of, is_key_rest,
}
use bare_binary_analysis.Policy.Model.{Waiver}
use bare_binary_analysis.Prelude.{
  ok, refl, obj, arr, nil, cons, end, field, string, string_eq, nat_eq, pair_eq, list_eq, String,
  Value, Result, strip, if◌then◌else◌, lstrip, ◌≡◌, rstrip, ◌==◌, after_prefix, starts_with,
  ends_with, join, fstring, isoformat, field_or, get_field, py_str, contains, fromisoformat,
  sort_by, insert_by, show,
}

abbrev made : Waiver
made = record {
  finding_id = "f2";
  reason = "say \"no\"";
  owner = "ana";
  expires = record { year = 2026; month = 3; day = 22 };
}

abbrev old_text : String
old_text = "# team\nwaivers: []"

abbrev new_text : String
new_text =
    "# team\nwaivers:\n  - finding_id: f2\n    reason: \"say \\\"no\\\"\"\n    owner: \"ana\"\n    expires: 2026-03-22\n"

abbrev entry : Value
entry = obj (
    field "finding_id" (string "f2") (
      field "reason" (string "say \"no\"")
        (field "owner" (string "ana") (field "expires" (string "2026-03-22") end))))

abbrev toy_load : String → Result String Value
toy_load s =
    if s == new_text
    then ok (obj (field "waivers" (arr (cons entry nil)) end))
    else ok (obj (field "waivers" (arr nil) end))

program : Unit {0}
unfolding append_waiver append_checked prepared names_waivers load load_value is_blank check_new
    or_empty same_waivers has_waivers_key with_newline open_list open_first split_lines push
    is_empty_flow is_blank_rest after_mark after_prefix skip_blanks item_indent indent_of
    is_key_rest starts_with ends_with join fstring strip lstrip rstrip render_entry scalar escaped
    escape isoformat parse_waivers entries_of parse_entries parse_waiver parse_item require_mapping
    parse_date is_absent field_or get_field py_str contains fromisoformat sort_by insert_by show
program = tt

added : append_waiver toy_load old_text made default_policy "w" ≡ ok new_text
unfolding program
added = refl

append_waiver-IsAppended_example : IsAppended toy_load old_text new_text made default_policy "w"
unfolding is_blank strip lstrip rstrip
append_waiver-IsAppended_example =
    append_waiver-IsAppended toy_load old_text new_text made default_policy "w" refl added
