-- ===== src/Unpack/Extractor.antt =====
-- core/unpack/extractor.py: an archive by its format, and the walk over what comes out of it.
use bare_binary_analysis.Unpack.Paths.{file_name, relative_to, safe_join, slugify}
use bare_binary_analysis.Unpack.Members.{
  ExtractedNode, Extraction, Tools, Tried, AsarEntry, Content, Outcome, asar_file, broken, ok,
  raised, run_tool, written, add_error, contents, over_budget, visit_members, corrupt,
  reserve_member, asar_folder, AsarEntries, more, and_then, Entry,
}
use Prim.Native.String.{count}
use bare_binary_analysis.Unpack.Members.{no_more, more}
use bare_binary_analysis.Unpack.Budget.{
  fine, budget_exceeded, Checked, check_depth, ExtractionBudget, bytes_remaining, is_exhausted,
}
use bare_binary_analysis.Unpack.Detect.{
  zip, jar, apk, tar, gzip, asar, squashfs, no_container, Container, detect, should_unpack,
  container_value, from_little, suffix,
}
use bare_binary_analysis.Prelude.{
  string_eq, list_eq, nat_eq, true, false, none, some, get, zero, suc, List, String, fstring,
  if◌then◌else◌, take_text, ℕ, ◌++◌, ◌+◌, ◌==◌, ◌∷◌, [], take, length, ltb_ℤ, min, not, drop, eqb_ℤ,
  pos, ltb, ◌*◌, ◌-◌, Option,
}

-- `path.stem`
unfoldable pub stem : String → String
stem name = take_text (count name - count (suffix name)) name

unfoldable pub child_of : String → String → String
child_of before name = if before == "" then name else fstring (before ∷ "/" ∷ name ∷ [])

module _ (tools : Tools) (destination : List String) where
  -- The members of an archive that can be listed.
  unfoldable pub on_listing : String → Extraction → Tried (List Entry) → Outcome × Extraction
  on_listing refusal st (raised message) = (broken message, st)
  on_listing refusal st (ok es) = visit_members tools.is_alpha refusal destination es [] st

  unfoldable pub extract_zip : List ℕ → Extraction → Outcome × Extraction
  extract_zip source st = on_listing "refused path-traversing zip entry " st (tools.open_zip source)

  unfoldable pub extract_tar : List ℕ → Extraction → Outcome × Extraction
  extract_tar source st = on_listing "refused path-traversing tar entry " st (tools.open_tar source)

  unfoldable pub gunzipped : Tried (List ℕ) → Content
  gunzipped (ok bytes) = contents bytes
  gunzipped (raised message) = corrupt message

  unfoldable pub extract_gzip : String → List ℕ → Extraction → Outcome × Extraction
  extract_gzip name source st =
      let target = destination ++ (if stem name == "" then "decompressed" else stem name) ∷ [] in
      let size = min (bytes_remaining st.budget) (length source * 20) in
      if tools.is_tar source
      then extract_tar source st
      else reserve_member size target [] (gunzipped (tools.gunzip source)) st

  -- A file of the ASAR, with what `_safe_join` makes of its path.
  unfoldable pub on_asar_target :
      String
      → ℕ
      → Content
      → List (List String)
      → Extraction
      → Option (List String)
      → Outcome × Extraction
  on_asar_target child_path size content done st none =
      (written done, add_error (fstring ("refused ASAR entry '" ∷ child_path ∷ "'" ∷ [])) st)
  on_asar_target child_path size content done st (some target) =
      reserve_member size target done content st

  module _ (file : List ℕ) (base_offset : ℕ) where
    unfoldable mutual
      pub visit_asar : AsarEntry → String → List (List String) → Extraction → Outcome × Extraction
      visit_asar (asar_file name size offset) before done st =
          on_asar_target (child_of before name) size
            (contents (take size (drop (base_offset + offset) file))) done st
            (safe_join tools.is_alpha destination (child_of before name))
      visit_asar (asar_folder name es) before done st = walk_asar es (child_of before name) done st

      pub walk_asar : AsarEntries → String → List (List String) → Extraction → Outcome × Extraction
      walk_asar no_more before done st = (written done, st)
      walk_asar (more e es) before done st =
          and_then (visit_asar e before done st) (walk_asar es before)

  unfoldable pub on_directory : List ℕ → ℕ → Extraction → Tried AsarEntries → Outcome × Extraction
  on_directory source base_offset st (raised message) = (broken message, st)
  on_directory source base_offset st (ok es) = walk_asar source base_offset es "" [] st

  unfoldable pub extract_asar : List ℕ → Extraction → Outcome × Extraction
  extract_asar source st =
      let header = take 16 source in
      let header_size = from_little (drop 12 header) in
      let found = tools.asar_directory (take header_size (drop 16 source)) in
      if ltb (length header) 16
      then (broken "truncated ASAR header", st)
      else on_directory source (16 + header_size) st found

  unfoldable pub extract_with_7z : List ℕ → Extraction → Outcome × Extraction
  extract_with_7z = run_tool "7z" (λ code. ltb_ℤ (pos 1) code) tools.seven_zip destination

  unfoldable pub extract_squashfs : List ℕ → Extraction → Outcome × Extraction
  extract_squashfs =
      run_tool "unsquashfs" (λ code. not (eqb_ℤ code (pos 0))) tools.unsquashfs destination

  -- `_extract_one` of a file with this name.
  unfoldable pub extract_one : Container → String → List ℕ → Extraction → Outcome × Extraction
  extract_one zip name source st = extract_zip source st
  extract_one jar name source st = extract_zip source st
  extract_one apk name source st = extract_zip source st
  extract_one tar name source st = extract_tar source st
  extract_one gzip name source st = extract_gzip name source st
  extract_one asar name source st = extract_asar source st
  extract_one squashfs name source st = extract_squashfs source st
  extract_one no_container name source st = (broken "no extractor for none", st)
  extract_one _ name source st = extract_with_7z source st

-- How a walk ends: `file_missing` is the exception of `stat` on a file that is gone, and
-- `out_of_fuel` an artefact of the model.
pub data Ending : Type 0 where
  finished file_missing out_of_fuel : Ending

unfoldable pub child_node :
    List String → List String → String → ℕ → Container → List String → List ℕ → ExtractedNode
child_node output_root destination path_in_tree depth format child bytes = record {
  path_in_tree = fstring (path_in_tree ∷ " → " ∷ relative_to destination child ∷ []);
  relative_path = relative_to output_root child;
  parent_path_in_tree = path_in_tree;
  depth = depth + 1;
  size_bytes = length bytes;
  container = container_value (detect (file_name child) bytes).container;
  extracted_by = container_value format;
}

unfoldable pub add_node : ExtractedNode → Extraction → Extraction
add_node n st = record st { nodes = st.nodes ++ n ∷ [] }

-- A walk of one file: its path, its path in the tree, its depth.
abbrev pub Walk : Type 0
Walk = List String → String → ℕ → Extraction → Ending × Extraction

-- The rest of a loop, unless an exception ends it.
unfoldable pub continue :
    Ending × Extraction → (Extraction → Ending × Extraction) → Ending × Extraction
continue (finished, st) next = next st
continue (file_missing, st) next = (file_missing, st)
continue (out_of_fuel, st) next = (out_of_fuel, st)

module _ (tools : Tools) (output_root : List String) where
  -- The loop over what was written, with the walk of one level deeper.
  unfoldable pub visit_child :
      Walk → List String → String → ℕ → Container → List String → Extraction → Ending × Extraction
  visit_child walk destination path_in_tree depth format child st = elim (get child st.disk) [
    | none ↦ (file_missing, st)
    | some bytes ↦
        let node = child_node output_root destination path_in_tree depth format child bytes in
        let noted = add_node node st in
        elim (should_unpack (detect (file_name child) bytes)) [
          | true ↦ walk child node.path_in_tree (depth + 1) noted
          | false ↦ (finished, noted)
        ]
  ]

  unfoldable pub visit_children :
      Walk
      → List String
      → String
      → ℕ
      → Container
      → List (List String)
      → Extraction
      → Ending × Extraction
  visit_children walk destination path_in_tree depth format [] st = (finished, st)
  visit_children walk destination path_in_tree depth format (child ∷ cs) st =
      continue (visit_child walk destination path_in_tree depth format child st)
        (visit_children walk destination path_in_tree depth format cs)

  unfoldable pub exceeded_message : String → String → String → String
  exceeded_message path_in_tree limit detail =
      fstring (path_in_tree ∷ ": extraction budget exceeded (" ∷ limit ∷ "): " ∷ detail ∷ [])

  unfoldable pub failed_message : String → Container → String → String
  failed_message path_in_tree format message =
      fstring (path_in_tree ∷ ": " ∷ container_value format ∷ " extraction failed: " ∷ message ∷ [])

  -- After `_extract_one`.
  unfoldable pub on_outcome :
      Walk → List String → String → ℕ → Container → Outcome × Extraction → Ending × Extraction
  on_outcome walk destination path_in_tree depth format (written cs, st) =
      visit_children walk destination path_in_tree depth format cs st
  on_outcome walk destination path_in_tree depth format (over_budget limit detail, st) =
      (finished, add_error (exceeded_message path_in_tree limit detail) st)
  on_outcome walk destination path_in_tree depth format (broken message, st) =
      (finished, add_error (failed_message path_in_tree format message) st)

  -- A file that can be read, at a depth that is allowed.
  unfoldable pub open_file :
      Walk → List String → String → ℕ → List ℕ → Extraction → Ending × Extraction
  open_file walk source path_in_tree depth bytes st =
      let found = detect (file_name source) bytes in
      let destination = output_root ++ slugify tools.is_alnum path_in_tree depth ∷ [] in
      elim (should_unpack found) [
        | false ↦ (finished, st)
        | true ↦
            on_outcome walk destination path_in_tree depth found.container
              (extract_one tools destination found.container (file_name source) bytes st)
      ]

  -- `_walk`, after the test of the depth.
  unfoldable pub on_depth :
      Walk
      → List String
      → String
      → ℕ
      → Checked × ExtractionBudget
      → Extraction
      → Ending × Extraction
  on_depth walk source path_in_tree depth (budget_exceeded limit detail, b) st =
      (finished, add_error (exceeded_message path_in_tree limit detail) (record st { budget = b }))
  on_depth walk source path_in_tree depth (fine, b) st = elim (is_exhausted b) [
    | true ↦ (finished, record st { budget = b })
    | false ↦ elim (get source st.disk) [
      | none ↦ (finished, record st { budget = b })
      | some bytes ↦ open_file walk source path_in_tree depth bytes (record st { budget = b })
    ]
  ]

  -- `_walk`; the fuel bounds the levels.
  unfoldable pub walk : ℕ → Walk
  walk zero source path_in_tree depth st = (out_of_fuel, st)
  walk (suc fuel) source path_in_tree depth st =
      on_depth (walk fuel) source path_in_tree depth (check_depth depth st.budget) st

  -- `extract_tree` of a file on the disk.
  unfoldable pub extract_tree : List String → String → Extraction → Ending × Extraction
  extract_tree artifact root_name st = walk (st.budget.max_depth + 2) artifact root_name 0 st
