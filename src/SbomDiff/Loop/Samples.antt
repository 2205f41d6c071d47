-- ===== src/SbomDiff/Loop/Samples.antt =====
-- Two builds: zlib is upgraded, lodash goes and openssl comes.
use bare_binary_analysis.SbomDiff.Loop.Kept.{IsDiffOf, diff_sboms-IsDiffOf, diff_sboms-same}
use bare_binary_analysis.SbomDiff.Loop.{
  diff_sboms, change, on_versions, on_licences, is_same, on_both, on_key, compare_keys, all_keys,
  metadata_component, is_named, find_property, property, inventory_complete, label_text, label_of,
  given_or_label, incomplete_labels, diff_of, compare_groups,
}
use bare_binary_analysis.SbomDiff.{
  SbomDiff, has_changes, add_text, ComponentChange, add_texts, same_set, cut, last_cut, or_else,
  given_text, given_head, after_at, purl_identity, is_purl, named_identity, identity, looped,
  text_in, licence_value, entry_licences, all_licences, licences, group_or, add_component,
  add_components, component_items, is_cyclonedx, document_fields, groups_of,
}
use bare_binary_analysis.Prelude.{
  string_eq, ok, obj, arr, string, nil, cons, end, field, refl, Items, String, Value, List, [], ◌≡◌,
  false, ◌∷◌, strip, lstrip, rstrip, py_str, field_or, is_true, get, put, has_key, keys, sort_by,
  insert_by, contains, select, all_of, any_of, fstring, join, show, starts_with, after_prefix,
  take_text,
}

abbrev component : String → String → String → Value
component name version purl =
    obj (
      field "name" (string name)
        (field "version" (string version) (field "purl" (string purl) end)))

abbrev bom : Items → Value
bom components =
    obj (field "bomFormat" (string "CycloneDX") (field "components" (arr components) end))

abbrev old_bom : Value
old_bom = bom (
    cons (component "zlib" "1.2.11" "pkg:generic/zlib@1.2.11")
      (cons (component "lodash" "" "pkg:npm/@types/lodash@4.0#x") nil))

abbrev new_bom : Value
new_bom = bom (
    cons (component "openssl" "3.0" "pkg:generic/openssl?os=linux")
      (cons (component "zlib" "1.2.13" "pkg:generic/zlib@1.2.13") nil))

program : Unit {0}
unfolding has_changes add_text add_texts same_set cut last_cut or_else given_text given_head
    after_at purl_identity is_purl named_identity identity looped text_in licence_value
    entry_licences all_licences licences group_or add_component add_components component_items
    is_cyclonedx document_fields groups_of change on_versions on_licences is_same on_both on_key
    compare_keys all_keys metadata_component is_named find_property property inventory_complete
    label_text label_of given_or_label incomplete_labels diff_of compare_groups diff_sboms strip
    lstrip rstrip py_str field_or is_true get put has_key keys sort_by insert_by contains select
    all_of any_of fstring join show starts_with after_prefix take_text
program = tt

abbrev entry : String → String → List String → List String → ComponentChange
entry key name before after = record { key = key; name = name; before = before; after = after }

abbrev upgrade : SbomDiff
upgrade = record {
  before_label = "a";
  after_label = "b";
  added = entry "pkg:generic/openssl" "openssl" [] ("3.0" ∷ []) ∷ [];
  removed = entry "pkg:npm/@types/lodash" "lodash" ("4.0" ∷ []) [] ∷ [];
  version_changed = entry "pkg:generic/zlib" "zlib" ("1.2.11" ∷ []) ("1.2.13" ∷ []) ∷ [];
  licence_changed = [];
  unchanged = 0;
  incomplete = [];
}

upgraded : diff_sboms old_bom new_bom "a" "b" ≡ ok upgrade
unfolding program
upgraded = refl

diff_sboms-IsDiffOf_example : IsDiffOf old_bom new_bom upgrade
diff_sboms-IsDiffOf_example = diff_sboms-IsDiffOf old_bom new_bom "a" "b" upgrade upgraded

abbrev kept : SbomDiff
kept = record upgrade {
  after_label = "a";
  added = [];
  removed = [];
  version_changed = [];
  unchanged = 2;
}

unmoved_bom : diff_sboms old_bom old_bom "a" "a" ≡ ok kept
unfolding program
unmoved_bom = refl

diff_sboms-same_example : has_changes kept ≡ false
diff_sboms-same_example = diff_sboms-same old_bom "a" "a" kept unmoved_bom
