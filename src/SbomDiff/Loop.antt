-- ===== src/SbomDiff/Loop.antt =====
-- reporting/sbom_diff.py: the comparison of the groups of two documents.
pub mod Classes
pub mod Kept
mod Samples
use bare_binary_analysis.SbomDiff.{
  Group, ComponentChange, SbomDiff, SbomDiffError, or_else, same_set, groups_of, looped,
  document_fields,
}
use bare_binary_analysis.Prelude.{
  option_eq, ok, ◌>>=◌, null, obj, string, nil, cons, string_eq, Dict, Fields, List, String, Value,
  [], Bool, Items, Option, Result, field_or, if◌then◌else◌, keys, sort_by, ◌+◌, ◌∷◌, end, get, none,
  str_lt, ℕ, ◌++◌, ◌==◌, false, not, select, some, strip, ◌&&◌, fstring, has_key, py_str,
}

-- The lists that `diff_sboms` appends to.
pub record Changes : Type 0 where
  pub added : List ComponentChange
  pub removed : List ComponentChange
  pub version_changed : List ComponentChange
  pub licence_changed : List ComponentChange
  pub unchanged : ℕ

abbrev pub sorted_texts : List String → List String
sorted_texts = sort_by str_lt

pub change : String → String → List String → List String → ComponentChange
change key name before after = record { key = key; name = name; before = before; after = after }

-- `a.versions != b.versions` and what it appends.
on_versions : String → Group → Group → Changes → Changes
on_versions key a b c = if same_set a.versions b.versions then c else record c {
  version_changed =
      c.version_changed
      ++ change key b.name (sorted_texts a.versions) (sorted_texts b.versions) ∷ [];
}

on_licences : String → Group → Group → Changes → Changes
on_licences key a b c = if same_set a.licences b.licences then c else record c {
  licence_changed =
      c.licence_changed
      ++ change key b.name (sorted_texts a.licences) (sorted_texts b.licences) ∷ [];
}

pub is_same : Group → Group → Bool
is_same a b = same_set a.versions b.versions && same_set a.licences b.licences

on_both : String → Group → Group → Changes → Changes
on_both key a b c =
    let c' = on_licences key a b (on_versions key a b c) in
    record c' { unchanged = c'.unchanged + (if is_same a b then 1 else 0) }

-- The body of the loop over the keys. A key of neither document would fail the assertion, and
-- the loop goes over the keys of the two only.
pub on_key : String → Option Group → Option Group → Changes → Changes
on_key key none none c = c
on_key key none (some b) c = record c {
  added = c.added ++ change key b.name [] (sorted_texts b.versions) ∷ [];
}
on_key key (some a) none c = record c {
  removed = c.removed ++ change key a.name (sorted_texts a.versions) [] ∷ [];
}
on_key key (some a) (some b) c = on_both key a b c

pub compare_keys : Dict String Group → Dict String Group → List String → Changes → Changes
compare_keys old new [] c = c
compare_keys old new (key ∷ rest) c =
    compare_keys old new rest (on_key key (get key old) (get key new) c)

-- `old.keys() | new.keys()`
pub all_keys : Dict String Group → Dict String Group → List String
all_keys old new = keys old ++ select (λ k. not (has_key k old)) (keys new)

abbrev pub no_changes : Changes
no_changes = record {
  added = [];
  removed = [];
  version_changed = [];
  licence_changed = [];
  unchanged = 0;
}

-- `_metadata_component`
metadata_component : Fields → Fields
metadata_component document = elim (field_or "metadata" null document) [
  | obj metadata ↦ elim (field_or "component" null metadata) [ obj fs ↦ fs | _ ↦ end ]
  | _ ↦ end
]

is_named : String → Value → Bool
is_named name (string s) = s == name
is_named name v = false

find_property : String → Items → Option String
find_property name nil = none
find_property name (cons (obj prop) rest) =
    let more = find_property name rest in
    if is_named name (field_or "name" null prop)
    then some (py_str (field_or "value" (string "") prop))
    else more
find_property name (cons v rest) = find_property name rest

-- `_property`
property : Fields → String → Result SbomDiffError (Option String)
property document name = looped (field_or "properties" null (metadata_component document)) >>= λ xs.
    ok (find_property name xs)

-- `_inventory_complete`
pub inventory_complete : Fields → Result SbomDiffError Bool
inventory_complete document =
    property document "bare:inventory_complete" >>= λ p. ok (not (p == some "false"))

label_text : String → Option String → String → String
label_text name none fallback = or_else name fallback
label_text name (some run) fallback =
    if run == ""
    then or_else name fallback
    else if name == ""
    then fstring ("run " ∷ run ∷ [])
    else fstring (name ∷ " (run " ∷ run ∷ ")" ∷ [])

-- `_label`
label_of : Fields → String → Result SbomDiffError String
label_of document fallback = property document "bare:run" >>= λ run. ok (
    label_text (strip (py_str (field_or "name" (string "") (metadata_component document)))) run
      fallback)

given_or_label : String → Fields → String → Result SbomDiffError String
given_or_label given document fallback =
    if given == "" then label_of document fallback else ok given

incomplete_labels : List (String × Bool) → List String
incomplete_labels [] = []
incomplete_labels ((label, complete) ∷ rest) =
    let more = incomplete_labels rest in if complete then more else label ∷ more

diff_of : Changes → String → String → List String → SbomDiff
diff_of c before_label after_label incomplete = record {
  before_label = before_label;
  after_label = after_label;
  added = c.added;
  removed = c.removed;
  version_changed = c.version_changed;
  licence_changed = c.licence_changed;
  unchanged = c.unchanged;
  incomplete = incomplete;
}

pub compare_groups : Dict String Group → Dict String Group → Changes
compare_groups old new = compare_keys old new (sort_by str_lt (all_keys old new)) no_changes

pub diff_sboms : Value → Value → String → String → Result SbomDiffError SbomDiff
diff_sboms before after before_label after_label = do
  old ← groups_of before "before"
  new ← groups_of after "after"
  before_fields ← document_fields before "before"
  after_fields ← document_fields after "after"
  label_before ← given_or_label before_label before_fields "before"
  label_after ← given_or_label after_label after_fields "after"
  complete_before ← inventory_complete before_fields
  complete_after ← inventory_complete after_fields
  ok (
      diff_of (compare_groups old new) label_before label_after
        (incomplete_labels ((label_before, complete_before) ∷ (label_after, complete_after) ∷ [])))
