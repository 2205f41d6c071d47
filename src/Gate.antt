-- ===== src/Gate.antt =====
-- core/pipeline/gate.py: a stored run, a baseline and a policy in, a verdict out.
pub mod Baseline
pub mod Verdicts
mod Samples
use bare_binary_analysis.Policy.Engine.{evaluate}
use bare_binary_analysis.Policy.Model.{GateFinding, Waiver, GateVerdict}
use bare_binary_analysis.Stages.{RunStage, describe_degraded, degraded_stages}
use bare_binary_analysis.Policy.Document.{Policy}
use bare_binary_analysis.Vocab.{
  RunStatus, LlmVerdict, Severity, FindingStatus, finding_status_value, is_terminal,
}
use bare_binary_analysis.Prelude.{
  Bool, List, Option, String, none, Dict, [], false, fstring, not, select, some, str_lt, true, ◌∷◌,
  Date, if◌then◌else◌, map, sort_by, ◌==◌, ◌||◌, contains, has_key, string_eq, ◌&&◌, get, put,
}

-- Rows of the tables, as far as the gate reads them.
pub record Run : Type 0 where
  pub id : String
  pub status : RunStatus
  pub previous_run_id : Option String
  pub error : Option String

pub record FindingRow : Type 0 where
  pub id : String
  pub run_id : String
  pub rule_id : String
  pub category : String
  pub title : String
  pub severity : Severity
  pub status : FindingStatus
  pub llm_verdict : Option LlmVerdict
  pub value_masked : String

pub record FindingLocation : Type 0 where
  pub finding_id : String
  pub run_id : String
  pub path_in_tree : String

pub record Session : Type 0 where
  pub runs : List Run
  pub findings : List FindingRow
  pub locations : List FindingLocation
  pub stages : List RunStage

pub record BaselineRef : Type 0 where
  pub run_id : Option String
  pub finding_ids : List String
  pub source : String

unfoldable pub resolved : BaselineRef → Bool
resolved b = not (b.source == "none")

abbrev pub no_baseline : BaselineRef
no_baseline = record { run_id = none; finding_ids = []; source = "none" }

-- session.get(Run, id)
pub get_run : List Run → String → Option Run
get_run [] id = none
get_run (r ∷ rs) id = let rest = get_run rs id in if r.id == id then some r else rest

-- The rows of one run: `select(Finding).where(Finding.run_id == run_id)`.
pub run_findings : Session → String → List FindingRow
run_findings session run_id = select (λ f. f.run_id == run_id) session.findings

-- Whether a text or None is true: `x or y`, `if x`.
abbrev pub is_given : Option String → Bool
is_given none = false
is_given (some s) = not (s == "")

pub status_is_completed : RunStatus → Bool
status_is_completed RunStatus.completed = true
status_is_completed _ = false

baseline_of : Session → Option String → Option Run → BaselineRef
baseline_of session baseline_run_id none = no_baseline
baseline_of session baseline_run_id (some previous) =
    if not (status_is_completed previous.status) then no_baseline else record {
      run_id = some previous.id;
      finding_ids = map (λ f. f.id) (run_findings session previous.id);
      source = if is_given baseline_run_id then "explicit_run" else "previous_run";
    }

from_candidate : Session → Option String → Option String → BaselineRef
from_candidate session baseline_run_id none = no_baseline
from_candidate session baseline_run_id (some candidate) =
    baseline_of session baseline_run_id (get_run session.runs candidate)

pub resolve_baseline : Session → Run → Option String → Option (List String) → BaselineRef
resolve_baseline session run baseline_run_id (some ids) = record {
  run_id = none;
  finding_ids = ids;
  source = "supplied_ids";
}
resolve_baseline session run baseline_run_id none =
    from_candidate session baseline_run_id
      (if is_given baseline_run_id then baseline_run_id else run.previous_run_id)

-- The order by finding and path; rows that differ in the offset alone have one path, so the
-- third key of the query does not change the first path of a finding.
abbrev pub by_finding_and_path : FindingLocation → FindingLocation → Bool
by_finding_and_path a b =
    str_lt a.finding_id b.finding_id
    || (a.finding_id == b.finding_id && str_lt a.path_in_tree b.path_in_tree)

-- paths.setdefault(finding_id, path)
set_default : String → String → Dict String String → Dict String String
set_default k v d = if has_key k d then d else put k v d

first_paths : List FindingLocation → Dict String String → Dict String String
first_paths [] paths = paths
first_paths (l ∷ ls) paths = first_paths ls (set_default l.finding_id l.path_in_tree paths)

pub artifact_paths : Session → String → List String → Dict String String
artifact_paths session run_id [] = []
artifact_paths session run_id (id ∷ ids) =
    first_paths
      (sort_by by_finding_and_path
        (select (λ l. l.run_id == run_id && contains (id ∷ ids) l.finding_id) session.locations))
      []

or_empty : Option String → String
or_empty none = ""
or_empty (some s) = s

said_false_positive : Option LlmVerdict → Bool
said_false_positive (some LlmVerdict.false_positive) = true
said_false_positive _ = false

-- The finding as the gate sees it.
pub project : List String → Dict String String → FindingRow → GateFinding
project baseline_ids paths f = record {
  id = f.id;
  rule_id = f.rule_id;
  category = f.category;
  title = f.title;
  severity = f.severity;
  status = finding_status_value f.status;
  is_new = not (contains baseline_ids f.id);
  llm_dismissed = said_false_positive f.llm_verdict;
  artifact_path = or_empty (get f.id paths);
  value_masked = f.value_masked;
}

pub collect_gate_findings : Session → String → BaselineRef → List GateFinding
collect_gate_findings session run_id baseline =
    let findings = run_findings session run_id in
    map (project baseline.finding_ids (artifact_paths session run_id (map (λ f. f.id) findings)))
      findings

-- `degraded_stages` of this module.
pub stages_of : Session → String → List String
stages_of session run_id = describe_degraded (degraded_stages session.stages run_id)

-- `RunNotReady`, with its text.
pub data Outcome (A : Type 0) : Type 0 where
  ok : A → Outcome A
  not_ready : String → Outcome A

pub run_status_value : RunStatus → String
run_status_value RunStatus.queued = "queued"
run_status_value RunStatus.running = "running"
run_status_value RunStatus.completed = "completed"
run_status_value RunStatus.degraded = "degraded"
run_status_value RunStatus.failed = "failed"
run_status_value RunStatus.cancelled = "cancelled"

pub is_failed : RunStatus → Bool
is_failed RunStatus.failed = true
is_failed _ = false

failure_text : Option String → String
failure_text error =
    fstring ("run failed: " ∷ (if is_given error then or_empty error else "unknown error") ∷ [])

module _ (session : Session) (p : Policy) (waivers : List Waiver) (baseline_run_id : Option String)
    (baseline_finding_ids : Option (List String)) (today : Date) where
  -- The two ways on from a run that has ended.
  gate_failed : Run → GateVerdict × BaselineRef
  gate_failed run = (evaluate [] p waivers (failure_text run.error ∷ []) today, no_baseline)

  gate_finished : Run → String → GateVerdict × BaselineRef
  gate_finished run run_id =
      let baseline = resolve_baseline session run baseline_run_id baseline_finding_ids in
      (
        evaluate (collect_gate_findings session run_id baseline) p waivers
            (stages_of session run_id) today,
        baseline,
      )

  gate_found : String → Option Run → Outcome (GateVerdict × BaselineRef)
  gate_found run_id none = not_ready (fstring ("run " ∷ run_id ∷ " does not exist" ∷ []))
  gate_found run_id (some run) =
      if not (is_terminal run.status)
      then not_ready (
          fstring (
            "run "
            ∷ run_id
            ∷ " is "
            ∷ run_status_value run.status
            ∷ "; the gate needs a finished scan"
            ∷ []))
      else if is_failed run.status
      then ok (gate_failed run)
      else ok (gate_finished run run_id)

  -- `today` is the clock's date, which `evaluate` reads where no date is given.
  pub gate_run : String → Outcome (GateVerdict × BaselineRef)
  gate_run run_id = gate_found run_id (get_run session.runs run_id)
