-- ===== src/Unpack/Members.antt =====
-- core/unpack/extractor.py: the members of an archive and the files of an external program, over a
-- disk that maps paths to bytes. The readers of the formats and the programs are parameters.
use bare_binary_analysis.Unpack.Paths.{is_under, safe_join}
use bare_binary_analysis.Unpack.Budget.{Checked, ExtractionBudget, reserve}
use Prim.Native.Char.{Char}
use bare_binary_analysis.Unpack.Budget.{fine, budget_exceeded}
use bare_binary_analysis.Prelude.{
  string_eq, list_eq, nat_eq, none, some, put, remove, Bool, Dict, List, String, ℕ, Option,
  if◌then◌else◌, length, sort_by, ℤ, ◌++◌, ◌∷◌, [], fstring, ltb, not, select, false, show_ℤ,
  take_text, true, str_lt, strip, ◌||◌, ◌==◌, ◌&&◌,
}

pub data Tried (A : Type 0) : Type 0 where
  ok : A → Tried A
  raised : String → Tried A

-- The data of an archive's member: `absent` is the None of `extractfile`.
pub data Content : Type 0 where
  contents : List ℕ → Content
  absent : Content
  corrupt : String → Content

pub record Entry : Type 0 where
  pub name : String
  pub is_file : Bool
  pub size : ℕ
  pub content : Content

mutual
  -- An entry of the directory of an ASAR: a file with its size and offset, or a folder.
  pub data AsarEntry : Type 0 where
    asar_file : String → ℕ → ℕ → AsarEntry
    asar_folder : String → AsarEntries → AsarEntry

  pub data AsarEntries : Type 0 where
    no_more : AsarEntries
    more : AsarEntry → AsarEntries → AsarEntries

-- How a program ended.
pub record ToolExit : Type 0 where
  pub returncode : ℤ
  pub stderr : String

-- What a program wrote below the directory it was given, by the paths from there, and its end;
-- `raised` is a run that `subprocess.run` gives up, as past its time, which may have written too.
pub record ToolRun : Type 0 where
  pub files : List (List String × List ℕ)
  pub exit : Tried ToolExit

pub record Tools : Type 0 where
  pub open_zip : List ℕ → Tried (List Entry)
  pub is_tar : List ℕ → Bool
  pub open_tar : List ℕ → Tried (List Entry)
  pub gunzip : List ℕ → Tried (List ℕ)
  pub asar_directory : List ℕ → Tried AsarEntries
  pub seven_zip : Option (List ℕ → ToolRun)
  pub unsquashfs : Option (List ℕ → ToolRun)
  pub is_alpha : Char → Bool
  pub is_alnum : Char → Bool

pub record ExtractedNode : Type 0 where
  pub path_in_tree : String
  pub relative_path : String
  pub parent_path_in_tree : String
  pub depth : ℕ
  pub size_bytes : ℕ
  pub container : String
  pub extracted_by : String

-- The extractor's budget, nodes and errors, and the disk.
pub record Extraction : Type 0 where
  pub disk : Dict (List String) (List ℕ)
  pub budget : ExtractionBudget
  pub nodes : List ExtractedNode
  pub errors : List String

-- The paths that were written, or an exception.
pub data Outcome : Type 0 where
  written : List (List String) → Outcome
  over_budget : String → String → Outcome
  broken : String → Outcome

unfoldable pub add_error : String → Extraction → Extraction
add_error message st = record st { errors = st.errors ++ message ∷ [] }

-- `target.write_bytes(...)`, its directory made before.
unfoldable pub write : List String → List ℕ → Extraction → Extraction
write path bytes st = record st { disk = put path bytes st.disk }

-- `self.budget.reserve(size)`
unfoldable pub charge : ℕ → Extraction → Checked × Extraction
charge size st = let (c, b) = reserve size st.budget in (c, record st { budget = b })

-- The data of one member, once it is paid for.
unfoldable pub on_member :
    List String → List (List String) → Content → Extraction → Outcome × Extraction
on_member target done (contents bytes) st = (written (done ++ target ∷ []), write target bytes st)
on_member target done absent st = (written done, st)
on_member target done (corrupt message) st = (broken message, st)

-- What comes after a member: the next ones, with the paths written so far, or the exception.
unfoldable pub and_then :
    Outcome × Extraction
    → (List (List String) → Extraction → Outcome × Extraction)
    → Outcome × Extraction
and_then (written done, st) next = next done st
and_then (over_budget limit detail, st) next = (over_budget limit detail, st)
and_then (broken message, st) next = (broken message, st)

unfoldable pub reserve_member :
    ℕ → List String → List (List String) → Content → Extraction → Outcome × Extraction
reserve_member size target done content st =
    let (c, paid) = charge size st in
    elim c [
      | fine ↦ on_member target done content paid
      | budget_exceeded limit detail ↦ (over_budget limit detail, paid)
    ]

-- A member of a zip or a tar; `refusal` is the start of the message for a path outside.
unfoldable pub visit_member :
    (Char → Bool)
    → String
    → List String
    → Entry
    → List (List String)
    → Extraction
    → Outcome × Extraction
visit_member is_alpha refusal destination e done st =
    if not e.is_file then (written done, st) else elim (safe_join is_alpha destination e.name) [
      | none ↦ (written done, add_error (fstring (refusal ∷ "'" ∷ e.name ∷ "'" ∷ [])) st)
      | some target ↦ reserve_member e.size target done e.content st
    ]

unfoldable pub visit_members :
    (Char → Bool)
    → String
    → List String
    → List Entry
    → List (List String)
    → Extraction
    → Outcome × Extraction
visit_members is_alpha refusal destination [] done st = (written done, st)
visit_members is_alpha refusal destination (e ∷ es) done st =
    and_then (visit_member is_alpha refusal destination e done st)
      (visit_members is_alpha refusal destination es)

-- `_collect`, over the files found: those over the cap are deleted.
unfoldable pub collect_file :
    List String × List ℕ → List (List String) → Extraction → Outcome × Extraction
collect_file (path, bytes) done st =
    let (c, paid) = charge (length bytes) st in
    if ltb (length bytes) 1 then (written done, st) else elim c [
      | fine ↦ (written (done ++ path ∷ []), paid)
      | budget_exceeded limit detail ↦
          (over_budget limit detail, record paid { disk = remove path paid.disk })
    ]

unfoldable pub collect_files :
    List (List String × List ℕ) → List (List String) → Extraction → Outcome × Extraction
collect_files [] done st = (written done, st)
collect_files (f ∷ fs) done st = and_then (collect_file f done st) (collect_files fs)

unfoldable pub path_before : List String → List String → Bool
path_before [] [] = false
path_before [] (q ∷ qs) = true
path_before (p ∷ ps) [] = false
path_before (p ∷ ps) (q ∷ qs) = str_lt p q || (p == q && path_before ps qs)

-- `sorted(destination.rglob("*"))`
unfoldable pub files_below : List String → Extraction → List (List String × List ℕ)
files_below destination st =
    sort_by (λ f g. path_before f.0 g.0) (select (λ f. is_under destination f.0) st.disk)

unfoldable pub write_all : List String → List (List String × List ℕ) → Extraction → Extraction
write_all destination [] st = st
write_all destination ((path, bytes) ∷ fs) st =
    write_all destination fs (write (destination ++ path) bytes st)

-- What an external program wrote is collected, unless it gave no return code or one that says
-- that it failed; what it wrote then stays.
unfoldable pub after_exit :
    String → (ℤ → Bool) → List String → Extraction → Tried ToolExit → Outcome × Extraction
after_exit name failed destination wrote (raised message) = (broken message, wrote)
after_exit name failed destination wrote (ok exit) =
    let message = fstring (
      name ∷ " exited " ∷ show_ℤ exit.returncode ∷ ": " ∷ take_text 400 (strip exit.stderr) ∷ []) in
    let collected = collect_files (files_below destination wrote) [] wrote in
    if failed exit.returncode then (broken message, wrote) else collected

unfoldable pub after_run :
    String → (ℤ → Bool) → List String → Extraction → ToolRun → Outcome × Extraction
after_run name failed destination st run =
    after_exit name failed destination (write_all destination run.files st) run.exit

-- An external program, if the image has it.
unfoldable pub run_tool :
    String
    → (ℤ → Bool)
    → Option (List ℕ → ToolRun)
    → List String
    → List ℕ
    → Extraction
    → Outcome × Extraction
run_tool name failed none destination source st =
    (broken (fstring (name ∷ " is not available in this image" ∷ [])), st)
run_tool name failed (some tool) destination source st =
    after_run name failed destination st (tool source)
