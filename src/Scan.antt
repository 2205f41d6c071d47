-- ===== src/Scan.antt =====
-- core/pipeline/scan.py: who scans a run, how a stage of it ends, and how the run ends.
pub mod Claims
pub mod Endings
pub mod Rows
pub mod Reports
pub mod Specs
mod Samples
use bare_binary_analysis.Vocab.{RunStatus, StageStatus}
use bare_binary_analysis.Stages.{RunStage, degraded_stages, describe_degraded}
use bare_binary_analysis.Prelude.{
  string_eq, none, some, true, false, Bool, Option, String, if◌then◌else◌, ℕ, List, [], take_text,
  ℤ, ◌==◌, eqb_ℤ, ltb, ◌&&◌, ◌∷◌, count_where, map, pos, join, truthy,
}

pub data SandboxStatus : Type 0 where
  completed timeout oom start_failed error : SandboxStatus

-- What the scan reads of a container's run to know how its stage ended.
pub record SandboxResult : Type 0 where
  pub status : SandboxStatus
  pub exit_code : Option ℤ
  pub image_digest : Option String

-- A row of `run_stages`; its error, duration and log columns are left out.
pub record StageRow : Type 0 where
  pub run_id : String
  pub analyzer : String
  pub status : StageStatus
  pub exit_code : Option ℤ
  pub image_digest : Option String
  pub started_at : ℕ
  pub finished_at : Option ℕ
  pub evidence_count : ℕ

-- The result document of the unpack analyzer: how many nodes it lists, and whether it is partial.
pub record UnpackPayload : Type 0 where
  pub nodes : ℕ
  pub truncated : Bool

pub record ScanRun : Type 0 where
  pub id : String
  pub status : RunStatus
  pub started_at : Option ℕ
  pub finished_at : Option ℕ
  pub error : Option String

is_queued : RunStatus → Bool
is_queued RunStatus.queued = true
is_queued _ = false

pub is_claimable : String → ScanRun → Bool
is_claimable run_id r = r.id == run_id && is_queued r.status

start : ℕ → ScanRun → ScanRun
start now r = record r { status = RunStatus.running; started_at = some now }

-- The rows that the conditional UPDATE of `_claim` leaves; the first argument is the clock.
claim_rows : ℕ → String → List ScanRun → List ScanRun
claim_rows now run_id [] = []
claim_rows now run_id (r ∷ rs) =
    let rest = claim_rows now run_id rs in
    if is_claimable run_id r then start now r ∷ rest else r ∷ rest

-- `_claim`: whether a row was changed, and the table.
pub claim : ℕ → String → List ScanRun → Bool × List ScanRun
claim now run_id rs = (ltb 0 (count_where (is_claimable run_id) rs), claim_rows now run_id rs)

-- The status that `_record_stage` gives.
pub is_zero : Option ℤ → Bool
is_zero none = false
is_zero (some code) = eqb_ℤ code (pos 0)

pub stage_status : SandboxResult → StageStatus
stage_status result = elim result.status [
  | completed ↦ if is_zero result.exit_code then StageStatus.completed else StageStatus.failed
  | timeout ↦ StageStatus.timeout
  | oom ↦ StageStatus.oom
  | start_failed ↦ StageStatus.failed
  | error ↦ StageStatus.failed
]

-- The row that is committed before the container starts.
pub new_stage : ℕ → String → String → StageRow
new_stage now run_id analyzer = record {
  run_id = run_id;
  analyzer = analyzer;
  status = StageStatus.running;
  exit_code = none;
  image_digest = none;
  started_at = now;
  finished_at = none;
  evidence_count = 0;
}

-- `_record_stage`
pub record_stage : ℕ → SandboxResult → StageRow → StageRow
record_stage now result stage = record stage {
  finished_at = some now;
  exit_code = result.exit_code;
  image_digest = result.image_digest;
  status = stage_status result;
}

pub or_no_payload : Option UnpackPayload → UnpackPayload
or_no_payload none = record { nodes = 0; truncated = false }
or_no_payload (some p) = p

-- The rest of `_run_unpack` after the container: `none` is a result that is missing or unreadable.
pub finish_unpack : ℕ → SandboxResult → Option UnpackPayload → StageRow → StageRow
finish_unpack now result found stage =
    let payload = or_no_payload found in
    let recorded : StageRow = record (record_stage now result stage) {
      evidence_count = payload.nodes;
    } in
    if payload.truncated then record recorded { status = StageStatus.truncated } else recorded

-- The rest of `_run_static` after the container, with the number of matches in its result.
pub finish_static : ℕ → SandboxResult → ℕ → StageRow → StageRow
finish_static now result matches stage = record (record_stage now result stage) {
  evidence_count = matches;
}

-- A row as `degraded_stages` reads it.
pub as_run_stage : StageRow → RunStage
as_run_stage s = record { run_id = s.run_id; analyzer = s.analyzer; status = s.status }

-- The end of `run_scan` where `_execute` raised nothing.
pub conclude : ℕ → List StageRow → ScanRun → ScanRun
conclude now stages run =
    let degraded = degraded_stages (map as_run_stage stages) run.id in
    let described = join "; " (describe_degraded degraded) in
    if truthy degraded
    then record run {
      status = RunStatus.degraded;
      error = some (take_text 2000 described);
      finished_at = some now;
    }
    else record run { status = RunStatus.completed; finished_at = some now }

-- The end of `run_scan` where `_execute` raised this.
pub fail_scan : ℕ → String → ScanRun → ScanRun
fail_scan now message run = record run {
  status = RunStatus.failed;
  error = some (take_text 2000 message);
  finished_at = some now;
}
