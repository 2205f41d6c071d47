-- ===== src/Policy/Serde/Samples.antt =====
-- A verdict on the wire and back.
use bare_binary_analysis.Policy.Serde.RoundTrip.{as_inherited, verdict_from_dict-to_dict}
use bare_binary_analysis.Vocab.{Severity}
use bare_binary_analysis.Policy.Serde.{verdict_from_dict, verdict_to_dict}
use bare_binary_analysis.Policy.Model.{GateFinding, GateVerdict, blocked, degraded_scan}
use bare_binary_analysis.Prelude.{ok, refl, none, true, false, is_calendar, ◌∷◌, ◌≡◌, [], map}

abbrev inherited : GateFinding
inherited = record {
  id = "f0";
  rule_id = "aws-key";
  category = "secret";
  title = "AWS key";
  severity = Severity.high;
  status = "open";
  is_new = false;
  llm_dismissed = true;
  artifact_path = "setup.exe";
  value_masked = "AK**";
}

abbrev verdict : GateVerdict
verdict = record {
  decision = blocked;
  policy_name = "default";
  violations =
      record {
        kind = degraded_scan;
        detail = "scan incomplete";
        finding_id = "";
        rule_id = "";
        severity = none;
        title = "";
        artifact_path = "";
      }
      ∷ [];
  waived =
      record {
        finding_id = "f1";
        title = "token";
        severity = Severity.low;
        owner = "ana";
        reason = "inert";
        expires = record { year = 2026; month = 11; day = 1 };
      }
      ∷ [];
  inherited = inherited ∷ [];
  degraded_stages = "unpack" ∷ [];
  counts_by_severity = ("high", 2) ∷ [];
  new_counts_by_severity = [];
  total_findings = 2;
  warnings = [];
}

verdict_from_dict-to_dict_example :
    verdict_from_dict (verdict_to_dict verdict)
    ≡ ok (record verdict { inherited = map as_inherited verdict.inherited })
unfolding is_calendar
verdict_from_dict-to_dict_example = verdict_from_dict-to_dict verdict (refl, tt)
