-- ===== src/Recovery.antt =====
-- core/pipeline/recovery.py: runs and stages whose task was lost.
pub mod Sweeps
pub mod Requeues
pub mod Enrichment
mod Samples
use bare_binary_analysis.Stages.{enrichment_analyzers}
use bare_binary_analysis.Vocab.{RunStatus, StageStatus, failed, queued}
use bare_binary_analysis.Prelude.{
  Bool, List, Option, String, ℕ, ℤ, [], count_where, fstring, if◌then◌else◌, map, not, some, sub_ℕ,
  true, ◌&&◌, ◌++◌, ◌∷◌, false, leb_ℤ, ltb_ℤ, none, show, show_ℤ, sort_by, ◌+◌, ◌==◌, pos, str_lt,
  string_eq, leb, select, contains,
}

-- Moments are whole seconds since an epoch. `_naive_if_needed` only drops the time zone of the
-- moment where the database gives none, and changes no difference of moments.
pub record RunRow : Type 0 where
  pub id : String
  pub status : RunStatus
  pub created_at : ℕ
  pub started_at : Option ℕ
  pub finished_at : Option ℕ
  pub error : Option String

pub data AuditAction : Type 0 where
  run_requeued run_orphaned : AuditAction

-- The rows of the audit log that the sweep reads and writes: the text is the `reason`, the
-- number the `attempt`.
pub record AuditRow : Type 0 where
  pub action : AuditAction
  pub run_id : String
  pub reason : String
  pub attempt : ℕ

pub is_requeue : AuditAction → Bool
is_requeue run_requeued = true
is_requeue run_orphaned = false

abbrev pub default_queued_grace_s : ℕ
default_queued_grace_s = 300

abbrev pub default_running_timeout_s : ℕ
default_running_timeout_s = 3600

abbrev pub default_max_requeue_attempts : ℕ
default_max_requeue_attempts = 2

pub record RecoverySweep : Type 0 where
  pub requeued : List String
  pub failed : List String
  pub inspected : ℕ

-- `_requeue_attempts`
pub requeue_attempts : List AuditRow → String → ℕ
requeue_attempts audit run_id = count_where (λ a. a.run_id == run_id && is_requeue a.action) audit

-- `run.started_at or run.created_at`
abbrev or_created : Option ℕ → ℕ → ℕ
or_created none created = created
or_created (some started) created = started

pub anchor : RunRow → ℕ
anchor run = or_created run.started_at run.created_at

pub is_queued : RunStatus → Bool
is_queued RunStatus.queued = true
is_queued _ = false

-- run.status in (QUEUED, RUNNING)
pub is_in_flight : RunStatus → Bool
is_in_flight RunStatus.queued = true
is_in_flight RunStatus.running = true
is_in_flight _ = false

abbrev pub is_candidate : RunRow → Bool
is_candidate run = is_in_flight run.status

abbrev pub is_none : Option ℕ → Bool
is_none none = true
is_none (some n) = false

-- What the loop changes: one row, the audit log and the report.
pub record Progress : Type 0 where
  pub run : RunRow
  pub audit : List AuditRow
  pub sweep : RecoverySweep

orphan_row : String → String → AuditRow
orphan_row run_id reason = record {
  action = run_orphaned;
  run_id = run_id;
  reason = reason;
  attempt = 0;
}

requeue_row : String → ℕ → AuditRow
requeue_row run_id attempts = record {
  action = run_requeued;
  run_id = run_id;
  reason = "queued past the grace period with no worker";
  attempt = attempts + 1;
}

-- `_fail`, then `sweep.failed.append(run.id)`.
fail_run : ℕ → String → Progress → Progress
fail_run now reason s = record s {
  run = record s.run { status = RunStatus.failed; finished_at = some now; error = some reason };
  audit = s.audit ++ orphan_row s.run.id reason ∷ [];
  sweep = record s.sweep { failed = s.sweep.failed ++ s.run.id ∷ [] };
}

requeue_run : ℕ → Progress → Progress
requeue_run attempts s = record s {
  audit = s.audit ++ requeue_row s.run.id attempts ∷ [];
  sweep = record s.sweep { requeued = s.sweep.requeued ++ s.run.id ∷ [] };
}

queue_reason : ℕ → String
queue_reason attempts = fstring (
    "orphaned in the queue: no worker claimed it after " ∷ show attempts ∷ " requeue attempts" ∷ [])

analysis_reason : ℤ → String
analysis_reason age =
    fstring
      ("orphaned mid-analysis: no progress for " ∷ show_ℤ age ∷ "s, past every stage timeout" ∷ [])

module _ (queued_grace_s running_timeout_s max_requeue_attempts now : ℕ) where
  -- The branch of a queued run that has not started.
  on_queued : ℤ → Progress → Progress
  on_queued age s =
      let attempts = requeue_attempts s.audit s.run.id in
      if ltb_ℤ age (pos queued_grace_s)
      then s
      else if leb max_requeue_attempts attempts
      then fail_run now (queue_reason attempts) s
      else requeue_run attempts s

  -- The body of the loop over the candidates.
  pub visit_run : Progress → Progress
  visit_run s =
      let age = sub_ℕ now (anchor s.run) in
      if is_queued s.run.status && is_none s.run.started_at
      then on_queued age s
      else if leb_ℤ (pos running_timeout_s) age
      then fail_run now (analysis_reason age) s
      else s

  -- The query's condition: other runs are no candidates.
  pub step_run : Progress → Progress
  step_run s = if is_candidate s.run then visit_run s else s

  sweep_runs :
      List RunRow → List AuditRow → RecoverySweep → List RunRow × List AuditRow × RecoverySweep
  sweep_runs [] audit sweep = ([], audit, sweep)
  sweep_runs (run ∷ runs) audit sweep =
      let start : Progress = record { run = run; audit = audit; sweep = sweep } in
      let s = step_run start in
      let (runs', audit', sweep') = sweep_runs runs s.audit s.sweep in
      (s.run ∷ runs', audit', sweep')

  -- The rows of `runs`, with those that the sweep changed, the audit log, and the report.
  pub sweep_orphaned_runs :
      List RunRow → List AuditRow → List RunRow × List AuditRow × RecoverySweep
  sweep_orphaned_runs runs audit =
      sweep_runs runs audit
        (record { requeued = []; failed = []; inspected = count_where is_candidate runs })

pub record StageRow : Type 0 where
  pub id : String
  pub analyzer : String
  pub status : StageStatus
  pub created_at : ℕ
  pub started_at : Option ℕ
  pub finished_at : Option ℕ
  pub error : Option String

pub is_unfinished : StageStatus → Bool
is_unfinished StageStatus.pending = true
is_unfinished StageStatus.running = true
is_unfinished _ = false

-- The condition of the query: an enrichment stage that is pending or running.
pub is_open_enrichment : StageRow → Bool
is_open_enrichment stage =
    contains enrichment_analyzers stage.analyzer && is_unfinished stage.status

pub is_stale : ℕ → ℕ → StageRow → Bool
is_stale timeout_s now stage =
    not (ltb_ℤ (sub_ℕ now (or_created stage.started_at stage.created_at)) (pos timeout_s))

close_stage : ℕ → StageRow → StageRow
close_stage now stage = record stage {
  status = StageStatus.failed;
  finished_at = some now;
  error = some "orphaned: the worker running this stage stopped before recording a result";
}

abbrev closes : ℕ → ℕ → StageRow → Bool
closes timeout_s now stage = is_open_enrichment stage && is_stale timeout_s now stage

-- The rows of `run_stages` after the call, and the sorted ids of the closed stages.
pub fail_stale_enrichment_stages : ℕ → ℕ → List StageRow → List StageRow × List String
fail_stale_enrichment_stages timeout_s now stages = (
  map (λ stage. if closes timeout_s now stage then close_stage now stage else stage) stages,
  sort_by str_lt (map (λ stage. stage.id) (select (closes timeout_s now) stages)),
)
