-- ===== src/Unpack/Samples.antt =====
-- A small budget, and the theorems at it.
use bare_binary_analysis.Unpack.Budget.Caps.{IsValid, sum, reserve_all, reserve_all-is_fine}
use bare_binary_analysis.Prelude.{[], arith, ◌∷◌, ◌≡◌, false}
use bare_binary_analysis.Unpack.Budget.Caps.{is_fine}
use bare_binary_analysis.Unpack.Budget.{ExtractionBudget}

abbrev small : ExtractionBudget
small = record {
  max_depth = 8;
  max_files = 3;
  max_total_bytes = 100;
  files_written = 1;
  bytes_written = 40;
  exceeded = [];
}

small-IsValid : IsValid small
small-IsValid = record { files_fit = omega arith; bytes_fit = omega arith }

reserve_all-is_fine_example : is_fine (reserve_all (30 ∷ 31 ∷ []) small).0 ≡ false
unfolding sum
reserve_all-is_fine_example = reserve_all-is_fine (30 ∷ 31 ∷ []) small small-IsValid
