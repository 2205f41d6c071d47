-- ===== src/Triage/Samples.antt =====
-- Two findings of one value and one of another, and the theorems at them.
use bare_binary_analysis.Triage.Floor.{AllAssessed, triage_run-AllAssessed}
use bare_binary_analysis.Vocab.{Severity, FindingStatus, medium}
use bare_binary_analysis.Prelude.{List, String, some, ◌∷◌, false, none, [], sort_by}
use bare_binary_analysis.Triage.{Finding, Reply, completed, high, triage_run, by_rank_and_id}

abbrev finding : String → String → Severity → Finding
finding id value_hash severity = record {
  id = id;
  rule_id = "aws-key";
  value_hash = value_hash;
  severity = severity;
  status = FindingStatus.opened;
  detected_by = "rule";
  llm_verdict = none;
  llm_reasoning = none;
  llm_model = none;
  llm_at = none;
}

abbrev findings : List Finding
findings = finding "b" "h1" high ∷ finding "a" "h1" high ∷ finding "c" "h2" medium ∷ []

-- A model that dismisses everything.
abbrev dismiss : Finding → Reply
dismiss f = completed (record {
  payload = some (record { verdict = " False_Positive"; reasoning = "sample data" });
  thinking = false;
  duration_ms = some 20;
})

triage_run-AllAssessed_example :
    AllAssessed (sort_by by_rank_and_id findings) (triage_run dismiss (λ t. t) "local" 7 findings).0
triage_run-AllAssessed_example = triage_run-AllAssessed dismiss (λ t. t) "local" 7 findings

-- Three findings, two calls.
