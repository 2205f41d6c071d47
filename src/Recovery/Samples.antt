-- ===== src/Recovery/Samples.antt =====
-- A queued run, a running one and a finished one, and the theorems at them.
use bare_binary_analysis.Recovery.Requeues.{steps_at, steps_at-failed}
use bare_binary_analysis.Vocab.{RunStatus, StageStatus}
use bare_binary_analysis.Recovery.Sweeps.{AllKept, sweep_orphaned_runs-AllKept}
use bare_binary_analysis.Prelude.{
  List, String, count_where, Option, [], none, arith, ℕ, ◌∷◌, some, ◌≡◌, refl,
}
use bare_binary_analysis.Recovery.{
  RunRow, Progress, requeue_attempts, sweep_orphaned_runs, anchor, is_queued, StageRow,
}

abbrev row : String → RunStatus → Option ℕ → RunRow
row id status started_at = record {
  id = id;
  status = status;
  created_at = 100;
  started_at = started_at;
  finished_at = none;
  error = none;
}

abbrev rows : List RunRow
rows =
    row "q" RunStatus.queued none
    ∷ row "r" RunStatus.running (some 200)
    ∷ row "c" RunStatus.completed (some 200)
    ∷ []

sweep_orphaned_runs-AllKept_example :
    AllKept 300 3600 2 5000 rows (sweep_orphaned_runs 300 3600 2 5000 rows []).0
sweep_orphaned_runs-AllKept_example = sweep_orphaned_runs-AllKept 300 3600 2 5000 rows []

abbrev start : Progress
start = record {
  run = row "q" RunStatus.queued none;
  audit = [];
  sweep = record { requeued = []; failed = []; inspected = 1 };
}

-- Two requeues, and the third sweep gives the run up.
steps_at-failed_example :
    (steps_at 300 3600 2 (1000 ∷ 2000 ∷ 3000 ∷ []) start).run.status ≡ RunStatus.failed
unfolding requeue_attempts count_where anchor is_queued
steps_at-failed_example =
    steps_at-failed 300 3600 2 (1000 ∷ 2000 ∷ 3000 ∷ []) start
      ((refl, refl, refl), ((refl, refl, refl), ((refl, refl, refl), tt))) (omega arith)
      (omega arith)

abbrev stages : List StageRow
stages =
    record {
      id = "s1";
      analyzer = "ghidra";
      status = StageStatus.running;
      created_at = 100;
      started_at = some 200;
      finished_at = none;
      error = none;
    }
    ∷ []
