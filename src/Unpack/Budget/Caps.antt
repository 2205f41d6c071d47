-- ===== src/Unpack/Budget/Caps.antt =====
-- The caps hold at every moment of an extraction, and the record of what stopped it is true.
use bare_binary_analysis.Prelude.{
  List, Bool, String, ℕ, ◌≤◌, true, ◌∷◌, ◌≡◌, arith, ◌+◌, [], false, min, ◌*◌, contains-truthy, leb,
  length, truthy-append, ◌&&◌, string_eq, if◌then◌else◌, ◌||◌, Bool-cases, inl, inr, refl, ◌⊎◌,
}
use bare_binary_analysis.Unpack.Budget.{
  Checked, ExtractionBudget, for_input, note, truncated, default_max_files, fine, budget_exceeded,
  max_files_ceiling, reserve, default_max_total_bytes, files_message, bytes_message, check_depth,
}

pub record IsValid (b : ExtractionBudget) : Type 0 where
  pub files_fit : b.files_written ≤ b.max_files
  pub bytes_fit : b.bytes_written ≤ b.max_total_bytes

-- A fresh budget is valid, allows at least the smallest caps and never more than the largest.
pub for_input_caps :
    (size : ℕ)
    → IsValid (for_input size)
      × (default_max_files ≤ (for_input size).max_files)
      × ((for_input size).max_files ≤ max_files_ceiling)
      × ((for_input size).max_total_bytes ≤ default_max_total_bytes)
      × (min (20 * size) default_max_total_bytes ≤ (for_input size).max_total_bytes)
unfolding for_input
for_input_caps size = (omega arith, omega arith, omega arith, omega arith, omega arith)

abbrev pub is_fine : Checked → Bool
is_fine fine = true
is_fine (budget_exceeded limit detail) = false

note_counters :
    (m : String) (b : ExtractionBudget)
    → ((note m b).files_written ≡ b.files_written)
      × ((note m b).bytes_written ≡ b.bytes_written)
      × ((note m b).max_files ≡ b.max_files)
      × ((note m b).max_total_bytes ≡ b.max_total_bytes)
unfolding note
note_counters m b = ground arith

note-truncated : (m : String) (b : ExtractionBudget) → truncated (note m b) ≡ true
unfolding note truncated
note-truncated m b = ground (arith, contains-truthy b.exceeded m, truthy-append b.exceeded (m ∷ []))

-- The files that an extraction asks to write, one after another, until the first refusal.
pub reserve_all : List ℕ → ExtractionBudget → Checked × ExtractionBudget
reserve_all [] b = (fine, b)
reserve_all (size ∷ sizes) b =
    let (c, b') = reserve size b in
    let rest = reserve_all sizes b' in
    elim c [ fine ↦ rest | budget_exceeded limit detail ↦ (budget_exceeded limit detail, b') ]

unfoldable pub sum : List ℕ → ℕ
sum [] = 0
sum (n ∷ ns) = n + sum ns

reserve-is_fine :
    (size : ℕ) (b : ExtractionBudget)
    → is_fine (reserve size b).0
      ≡ (leb (b.files_written + 1) b.max_files && leb (b.bytes_written + size) b.max_total_bytes)
unfolding reserve
reserve-is_fine size b = ground arith

pub reserve-IsValid : (size : ℕ) (b : ExtractionBudget) → IsValid b → IsValid (reserve size b).1
unfolding reserve
reserve-IsValid size b v =
    ground (arith, note_counters (files_message b) b, note_counters (bytes_message size b) b)

reserve_lem :
    (size : ℕ) (b : ExtractionBudget)
    → IsValid b
    → IsValid (reserve size b).1
      × (is_fine (reserve size b).0 ≡ (
          leb (b.files_written + 1) b.max_files && leb (b.bytes_written + size) b.max_total_bytes))
      × (is_fine (reserve size b).0 ≡ true
          → ((reserve size b).1.files_written ≡ b.files_written + 1)
            × ((reserve size b).1.bytes_written ≡ b.bytes_written + size))
      × (is_fine (reserve size b).0 ≡ false
          → ((reserve size b).1.files_written ≡ b.files_written)
            × ((reserve size b).1.bytes_written ≡ b.bytes_written)
            × (truncated (reserve size b).1 ≡ true))
unfolding reserve
reserve_lem size b v = (reserve-IsValid size b v, reserve-is_fine size b, granted, refused)
  where
    granted :
        is_fine (reserve size b).0 ≡ true
        → ((reserve size b).1.files_written ≡ b.files_written + 1)
          × ((reserve size b).1.bytes_written ≡ b.bytes_written + size)
    granted h = ground arith

    refused :
        is_fine (reserve size b).0 ≡ false
        → ((reserve size b).1.files_written ≡ b.files_written)
          × ((reserve size b).1.bytes_written ≡ b.bytes_written)
          × (truncated (reserve size b).1 ≡ true)
    refused h = ground (
      arith,
      note_counters (files_message b) b,
      note_counters (bytes_message size b) b,
      note-truncated (files_message b) b,
      note-truncated (bytes_message size b) b,
    )

-- A reservation on a valid budget is granted exactly when the file fits both caps; it counts the file if it is
-- granted and nothing if it is refused; and a refusal is noted.
pub reserve-effect :
    (size : ℕ) (b : ExtractionBudget)
    → IsValid b
    → (is_fine (reserve size b).0
        ≡ (leb (b.files_written + 1) b.max_files && leb (b.bytes_written + size) b.max_total_bytes))
      × ((reserve size b).1.files_written
          ≡ b.files_written + (if is_fine (reserve size b).0 then 1 else 0))
      × ((reserve size b).1.bytes_written
          ≡ b.bytes_written + (if is_fine (reserve size b).0 then size else 0))
      × ((is_fine (reserve size b).0 || truncated (reserve size b).1) ≡ true)
reserve-effect size b v =
    let (valid, exact, granted, refused) = reserve_lem size b v in
    elim (Bool-cases (is_fine (reserve size b).0)) [
      | inl e ↦
          let (files, bytes) = granted e in
          (exact, rw (e, files) refl, rw (e, bytes) refl, rw e refl)
      | inr e ↦
          let (files, bytes, noted) = refused e in
          (exact, rw (e, files) (omega arith), rw (e, bytes) (omega arith), rw (e, noted) refl)
    ]

reserve_caps :
    (size : ℕ) (b : ExtractionBudget)
    → ((reserve size b).1.max_files ≡ b.max_files)
      × ((reserve size b).1.max_total_bytes ≡ b.max_total_bytes)
unfolding reserve
reserve_caps size b =
    ground (arith, note_counters (files_message b) b, note_counters (bytes_message size b) b)

reserve-files_written :
    (size : ℕ) (b : ExtractionBudget)
    → (reserve size b).1.files_written
      ≡ b.files_written + (if is_fine (reserve size b).0 then 1 else 0)
unfolding reserve
reserve-files_written size b =
    ground (arith, note_counters (files_message b) b, note_counters (bytes_message size b) b)

Checked-cases :
    (c : Checked) → (c ≡ fine) ⊎ ((limit detail : String) × (c ≡ budget_exceeded limit detail))
Checked-cases fine = inl refl
Checked-cases (budget_exceeded limit detail) = inr (limit, detail, refl)

-- What a reservation changes, granted or refused.
pub reserve-cases :
    (size : ℕ) (b : ExtractionBudget)
    → (((reserve size b).0 ≡ fine) × ((reserve size b).1.files_written ≡ b.files_written + 1))
      ⊎ ((limit detail : String) × ((reserve size b).0 ≡ budget_exceeded limit detail)
          × ((reserve size b).1.files_written ≡ b.files_written))
reserve-cases size b =
    let files = reserve-files_written size b in
    elim (Checked-cases (reserve size b).0) [
      | inl e ↦ inl (e, rw e at files)
      | inr (limit, detail, e) ↦
          let same : (reserve size b).1.files_written ≡ b.files_written + 0 = rw e at files in
          inr (limit, detail, e, omega arith)
    ]

pub check_depth-IsValid :
    (depth : ℕ) (b : ExtractionBudget) → IsValid b → IsValid (check_depth depth b).1
unfolding check_depth note
check_depth-IsValid depth b v = ground arith

-- A depth that is not above the cap is the only one that passes.
pub check_depth-fine :
    (depth : ℕ) (b : ExtractionBudget) → (check_depth depth b).0 ≡ fine → depth ≤ b.max_depth
unfolding check_depth
check_depth-fine depth b h = ground arith

pub reserve-max_depth :
    (size : ℕ) (b : ExtractionBudget) → (reserve size b).1.max_depth ≡ b.max_depth
unfolding reserve note
reserve-max_depth size b = ground arith

-- On a valid budget, all of the files are granted exactly when their number and their total size fit: the caps are
-- on the whole tree, however the bytes are spread over its archives.
pub reserve_all-is_fine :
    (sizes : List ℕ) (b : ExtractionBudget)
    → IsValid b
    → is_fine (reserve_all sizes b).0 ≡ (
        leb (b.files_written + length sizes) b.max_files
        && leb (b.bytes_written + sum sizes) b.max_total_bytes)
unfolding reserve_all sum
reserve_all-is_fine [] b v = ground arith
reserve_all-is_fine (size ∷ sizes) b v =
    let (valid, exact, granted, refused) = reserve_lem size b v in
    ground (
      arith,
      exact,
      granted,
      reserve_caps size b,
      reserve_all-is_fine sizes (reserve size b).1 valid,
    )

-- From a valid budget, whatever is asked for, granted or not, the caps hold afterwards.
pub reserve_all-IsValid :
    (sizes : List ℕ) (b : ExtractionBudget) → IsValid b → IsValid (reserve_all sizes b).1
unfolding reserve_all
reserve_all-IsValid [] b v = v
reserve_all-IsValid (size ∷ sizes) b v =
    let valid = reserve-IsValid size b v in
    ground (arith, valid, reserve_all-IsValid sizes (reserve size b).1 valid)
