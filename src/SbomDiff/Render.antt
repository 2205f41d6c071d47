-- ===== src/SbomDiff/Render.antt =====
-- reporting/sbom_diff.py: a diff as text.
use bare_binary_analysis.SbomDiff.{ComponentChange, SbomDiff, has_changes}
use bare_binary_analysis.Prelude.{
  string_eq, List, String, fstring, if◌then◌else◌, join, ◌∷◌, [], map, show, ◌==◌, length, ◌&&◌,
  ◌++◌, ◌≡◌, refl,
}

-- s.rstrip("\n")
rstrip_newlines : String → String
rstrip_newlines String.[] = ""
rstrip_newlines (String.◌∷◌ c s) =
    let rest = rstrip_newlines s in
    if rest == "" && String.◌∷◌ c "" == "\n" then "" else String.◌∷◌ c rest

version_text : String → String
version_text v = if v == "" then "(unversioned)" else v

show_versions : List String → String
show_versions values =
    let shown = join ", " (map version_text values) in if shown == "" then "(none)" else shown

-- `_describe`
describe : ComponentChange → String → String
describe item section =
    if section == "ADDED"
    then show_versions item.after
    else if section == "REMOVED"
    then show_versions item.before
    else fstring (show_versions item.before ∷ " -> " ∷ show_versions item.after ∷ [])

item_lines : String → String → List ComponentChange → List String
item_lines title mark [] = []
item_lines title mark (item ∷ items) =
    fstring ("    " ∷ mark ∷ " " ∷ item.key ∷ "  " ∷ describe item title ∷ [])
    ∷ item_lines title mark items

-- The lines of a section, none if it has no item.
section_lines : String → String → List ComponentChange → List String
section_lines title mark [] = []
section_lines title mark items =
    fstring ("  " ∷ title ∷ " (" ∷ show (length items) ∷ ")" ∷ [])
    ∷ (item_lines title mark items ++ "" ∷ [])

warning_lines : List String → List String
warning_lines [] = []
warning_lines (label ∷ labels) =
    fstring (
      "  warning: " ∷ label ∷ " was built from an incomplete inventory; a component "
      ∷ "shown as removed or added may only have been outside the walk." ∷ [])
    ∷ warning_lines labels

pub diff_lines : SbomDiff → List String
diff_lines d =
    fstring ("SBOM diff: " ∷ d.before_label ∷ " -> " ∷ d.after_label ∷ [])
    ∷ fstring (
        "  "
        ∷ show (length d.added)
        ∷ " added, "
        ∷ show (length d.removed)
        ∷ " removed, "
        ∷ show (length d.version_changed)
        ∷ " version changed, "
        ∷ show (length d.licence_changed)
        ∷ " licence changed, "
        ∷ show d.unchanged
        ∷ " unchanged"
        ∷ [])
    ∷ ""
    ∷ (section_lines "ADDED" "+" d.added
        ++ (section_lines "REMOVED" "-" d.removed
            ++ (section_lines "VERSION CHANGED" "~" d.version_changed
                ++ (section_lines "LICENCE CHANGED" "~" d.licence_changed
                    ++ ((if has_changes d then [] else "  No component changes." ∷ "" ∷ [])
                        ++ warning_lines d.incomplete)))))

pub render_text : SbomDiff → String
render_text d = fstring (rstrip_newlines (join "\n" (diff_lines d)) ∷ "\n" ∷ [])

abbrev no_diff : SbomDiff
no_diff = record {
  before_label = "a";
  after_label = "b";
  added = [];
  removed = [];
  version_changed = [];
  licence_changed = [];
  unchanged = 2;
  incomplete = [];
}

rendered :
    render_text no_diff
    ≡ "SBOM diff: a -> b\n  0 added, 0 removed, 0 version changed, 0 licence changed, 2 unchanged\n\n  No component changes.\n"
unfolding render_text rstrip_newlines diff_lines section_lines warning_lines has_changes fstring
    join show
rendered = refl
