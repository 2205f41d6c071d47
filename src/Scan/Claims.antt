-- ===== src/Scan/Claims.antt =====
-- Only one delivery of a run claims it.
use bare_binary_analysis.Prelude.{
  List, count_where, ℕ, String, Bool, ◌≡◌, false, if◌then◌else◌, ◌∷◌, [], arith, truthy, refl, ◌&&◌,
  ltb,
}
use bare_binary_analysis.Scan.{ScanRun, claim, claim_rows, is_claimable, start, is_queued}

-- What a sequence of deliveries of one run is told, each at its moment.
unfoldable pub claims : List ℕ → String → List ScanRun → List Bool
claims [] run_id rs = []
claims (now ∷ times) run_id rs =
    let (claimed, after) = claim now run_id rs in claimed ∷ claims times run_id after

start-claimed :
    (now : ℕ) (run_id : String) (r : ScanRun) → is_claimable run_id (start now r) ≡ false
unfolding is_claimable start is_queued
start-claimed now run_id r = ground arith

claim_rows-claimed :
    (now : ℕ) (run_id : String) (rs : List ScanRun)
    → count_where (is_claimable run_id) (claim_rows now run_id rs) ≡ 0
unfolding claim_rows count_where
claim_rows-claimed now run_id [] = refl
claim_rows-claimed now run_id (r ∷ rs) =
    ground (arith, start-claimed now run_id r, claim_rows-claimed now run_id rs)

claims-none :
    (times : List ℕ) (run_id : String) (rs : List ScanRun)
    → count_where (is_claimable run_id) rs ≡ 0
    → count_where (λ b. b) (claims times run_id rs) ≡ 0
unfolding claims claim count_where
claims-none [] run_id rs h = refl
claims-none (now ∷ times) run_id rs h =
    let rest =
      claims-none times run_id (claim_rows now run_id rs) (claim_rows-claimed now run_id rs) in
    rw h (omega (arith, rest))

-- Of all deliveries of a run exactly one claims it, and none if the run is not queued.
pub claims-count :
    (times : List ℕ) (run_id : String) (rs : List ScanRun)
    → count_where (λ b. b) (claims times run_id rs)
      ≡ (if truthy times && ltb 0 (count_where (is_claimable run_id) rs) then 1 else 0)
unfolding claims claim count_where
claims-count [] run_id rs = refl
claims-count (now ∷ times) run_id rs =
    let rest =
      claims-none times run_id (claim_rows now run_id rs) (claim_rows-claimed now run_id rs) in
    ground (arith, rest)
