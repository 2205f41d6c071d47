-- ===== src/Unpack/Budget.antt =====
-- core/unpack/budget.py: the caps on one extraction tree.
pub mod Caps
use bare_binary_analysis.Prelude.{
  Bool, String, ℕ, List, if◌then◌else◌, leb, max, truthy, ◌*◌, ◌-◌, contains, ltb, ◌/◌, ◌^◌, ◌||◌,
  fstring, min, ◌++◌, ◌+◌, [], show, ◌∷◌, string_eq,
}

abbrev pub default_max_depth : ℕ
default_max_depth = 8

abbrev pub default_max_files : ℕ
default_max_files = 20_000

abbrev pub files_per_input_mb : ℕ
files_per_input_mb = 600

abbrev pub max_files_ceiling : ℕ
max_files_ceiling = 250_000

abbrev pub default_max_total_bytes : ℕ
default_max_total_bytes = 10 * 1024 ^ 3

abbrev pub default_expansion_factor : ℕ
default_expansion_factor = 20

pub record ExtractionBudget : Type 0 where
  pub max_depth : ℕ
  pub max_files : ℕ
  pub max_total_bytes : ℕ
  pub files_written : ℕ
  pub bytes_written : ℕ
  pub exceeded : List String

-- `for_input` with no overrides.
pub for_input : ℕ → ExtractionBudget
for_input input_size_bytes =
    let scaled = max (input_size_bytes * default_expansion_factor) (64 * 1024 * 1024) in
    let input_mb = max (input_size_bytes / (1024 * 1024)) 1 in
    let files = max default_max_files (min (input_mb * files_per_input_mb) max_files_ceiling) in
    record {
      max_depth = default_max_depth;
      max_files = files;
      max_total_bytes = min scaled default_max_total_bytes;
      files_written = 0;
      bytes_written = 0;
      exceeded = [];
    }

-- `max(0, a - b)` is the subtraction on ℕ.
unfoldable pub bytes_remaining : ExtractionBudget → ℕ
bytes_remaining b = b.max_total_bytes - b.bytes_written

unfoldable pub files_remaining : ExtractionBudget → ℕ
files_remaining b = b.max_files - b.files_written

unfoldable pub is_exhausted : ExtractionBudget → Bool
is_exhausted b = leb (bytes_remaining b) 0 || leb (files_remaining b) 0

-- `BudgetExceeded`: the limit and the detail.
pub data Checked : Type 0 where
  fine : Checked
  budget_exceeded : String → String → Checked

unfoldable pub note : String → ExtractionBudget → ExtractionBudget
note message b =
    if contains b.exceeded message then b else record b { exceeded = b.exceeded ++ message ∷ [] }

unfoldable pub check_depth : ℕ → ExtractionBudget → Checked × ExtractionBudget
check_depth depth b =
    if ltb b.max_depth depth
    then (
      budget_exceeded "max_depth" (fstring ("depth " ∷ show depth ∷ " > " ∷ show b.max_depth ∷ [])),
      note (fstring ("depth " ∷ show depth ∷ " exceeds max_depth " ∷ show b.max_depth ∷ [])) b,
    )
    else (fine, b)

unfoldable pub files_message : ExtractionBudget → String
files_message b = fstring ("file count would exceed max_files " ∷ show b.max_files ∷ [])

unfoldable pub bytes_message : ℕ → ExtractionBudget → String
bytes_message size_bytes b = fstring (
    "writing "
    ∷ show size_bytes
    ∷ " bytes would exceed max_total_bytes "
    ∷ show b.max_total_bytes
    ∷ [])

unfoldable pub reserve : ℕ → ExtractionBudget → Checked × ExtractionBudget
reserve size_bytes b =
    if ltb b.max_files (b.files_written + 1)
    then (
      budget_exceeded "max_files" (fstring (show b.files_written ∷ " files already written" ∷ [])),
      note (files_message b) b,
    )
    else if ltb b.max_total_bytes (b.bytes_written + size_bytes)
    then (
      budget_exceeded "max_total_bytes" (
          fstring (
            show b.bytes_written
            ∷ " of "
            ∷ show b.max_total_bytes
            ∷ " bytes already written"
            ∷ [])),
      note (bytes_message size_bytes b) b,
    )
    else (
      fine,
      record b {
        files_written = b.files_written + 1;
        bytes_written = b.bytes_written + size_bytes;
      },
    )

-- `to_dict`, but for the JSON form: `truncated` is `bool(self.exceeded)`.
unfoldable pub truncated : ExtractionBudget → Bool
truncated b = truthy b.exceeded
