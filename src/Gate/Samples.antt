-- ===== src/Gate/Samples.antt =====
-- A table with a completed, a degraded and a failed run, and the gate's theorems at it.
use bare_binary_analysis.Policy.Engine.Reference.{tolerates}
use bare_binary_analysis.Gate.Baseline.{IsKnown, collect_gate_findings-IsKnown}
use bare_binary_analysis.Policy.Document.{default_policy}
use bare_binary_analysis.Policy.Model.{GateVerdict, GateDecision, inconclusive}
use bare_binary_analysis.Stages.{RunStage, counts_as_degraded}
use bare_binary_analysis.Gate.Verdicts.{gate_run-degraded, gate_run-failed}
use bare_binary_analysis.Vocab.{
  RunStatus, is_terminal, StageStatus, high, FindingStatus, is_degraded,
}
use bare_binary_analysis.Prelude.{
  All, Date, String, any_of, Option, none, some, ◌≡◌, true, ◌∷◌, [], ◌⊎◌, string_eq, ◌≢◌, refl,
  contains,
}
use bare_binary_analysis.Gate.{
  Session, Run, get_run, FindingRow, Outcome, BaselineRef, gate_run, ok, gate_found, no_baseline,
  is_failed, collect_gate_findings, gate_finished, resolve_baseline,
}

abbrev run : String → RunStatus → Option String → Run
run id status previous = record {
  id = id;
  status = status;
  previous_run_id = previous;
  error = some "the image is missing";
}

abbrev finding : String → String → FindingRow
finding id run_id = record {
  id = id;
  run_id = run_id;
  rule_id = "aws-key";
  category = "secret";
  title = "AWS key";
  severity = high;
  status = FindingStatus.opened;
  llm_verdict = none;
  value_masked = "AK**";
}

abbrev stage : String → RunStage
stage run_id = record { run_id = run_id; analyzer = "static"; status = StageStatus.failed }

abbrev current : Run
current = run "r2" RunStatus.degraded (some "r1")

abbrev session : Session
session = record {
  runs = run "r1" RunStatus.completed none ∷ current ∷ run "r3" RunStatus.failed (some "r2") ∷ [];
  findings = finding "f" "r1" ∷ finding "f" "r2" ∷ finding "g" "r2" ∷ [];
  locations =
      record { finding_id = "f"; run_id = "r2"; path_in_tree = "bin/b" }
      ∷ record { finding_id = "f"; run_id = "r2"; path_in_tree = "bin/a" }
      ∷ [];
  stages = stage "r2" ∷ [];
}

collect_gate_findings-IsKnown_example :
    All
      (λ f. (f.is_new ≡ true) ⊎ IsKnown session current none f.id)
      (collect_gate_findings session "r2" (resolve_baseline session current none none))
collect_gate_findings-IsKnown_example = collect_gate_findings-IsKnown session current "r2" none

abbrev gate : String → Outcome (GateVerdict × BaselineRef)
gate = gate_run session default_policy [] none none (record { year = 2026; month = 6; day = 1 })

abbrev today : Date
today = record { year = 2026; month = 6; day = 1 }

gate_run-failed_example :
    (v : GateVerdict) × (gate "r3" ≡ ok (v, no_baseline)) × (v.decision ≡ inconclusive)
unfolding get_run tolerates
gate_run-failed_example =
    gate_run-failed session default_policy [] none none today "r3"
      (run "r3" RunStatus.failed (some "r2")) refl refl refl

gate_run-degraded_example :
    (gate_finished session default_policy [] none none today current "r2").0.decision
    ≢ GateDecision.pass
unfolding any_of counts_as_degraded is_degraded contains gate_run get_run gate_found is_terminal
    is_failed tolerates
gate_run-degraded_example =
    gate_run-degraded session default_policy [] none none today "r2"
      (gate_finished session default_policy [] none none today current "r2").0
      (gate_finished session default_policy [] none none today current "r2").1 refl refl refl
