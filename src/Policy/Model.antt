-- ===== src/Policy/Model.antt =====
-- core/policy/model.py: the vocabulary of the release gate.
use bare_binary_analysis.Prelude.{
  ℕ, String, Bool, true, false, not, Option, List, [], ◌∷◌, string_eq, Dict, Date, date_lt,
  contains,
}
use bare_binary_analysis.Vocab.{Severity}

pub data GateDecision : Type 0 where
  pass blocked inconclusive : GateDecision

unfoldable pub exit_code : GateDecision → ℕ
exit_code pass = 0
exit_code blocked = 1
exit_code inconclusive = 3

pub data ViolationKind : Type 0 where
  severity_floor blocked_category blocked_rule budget_exceeded : ViolationKind
  degraded_scan expired_waiver : ViolationKind

unfoldable pub is_degraded_scan : ViolationKind → Bool
is_degraded_scan degraded_scan = true
is_degraded_scan _ = false

pub data BaselineMode : Type 0 where
  new_only all : BaselineMode

unfoldable pub is_new_only : BaselineMode → Bool
is_new_only new_only = true
is_new_only all = false

pub data DegradedPosture : Type 0 where
  fail warn pass : DegradedPosture

pub record GateFinding : Type 0 where
  pub id : String
  pub rule_id : String
  pub category : String
  pub title : String
  pub severity : Severity
  pub status : String
  pub is_new : Bool
  pub llm_dismissed : Bool
  pub artifact_path : String
  pub value_masked : String

unfoldable pub is_open : GateFinding → Bool
unfolding contains
is_open f = not (contains ("false_positive" ∷ "accepted_risk" ∷ "fixed" ∷ []) f.status)

pub record Waiver : Type 0 where
  pub finding_id : String
  pub reason : String
  pub owner : String
  pub expires : Date

unfoldable pub is_expired : Waiver → Date → Bool
is_expired w today = date_lt w.expires today

-- The defaults of `Violation` stand where an argument is left out: "" and None.
pub record Violation : Type 0 where
  pub kind : ViolationKind
  pub detail : String
  pub finding_id : String
  pub rule_id : String
  pub severity : Option Severity
  pub title : String
  pub artifact_path : String

pub record WaivedFinding : Type 0 where
  pub finding_id : String
  pub title : String
  pub severity : Severity
  pub owner : String
  pub reason : String
  pub expires : Date

pub record GateVerdict : Type 0 where
  pub decision : GateDecision
  pub policy_name : String
  pub violations : List Violation
  pub waived : List WaivedFinding
  pub inherited : List GateFinding
  pub degraded_stages : List String
  pub counts_by_severity : Dict String ℕ
  pub new_counts_by_severity : Dict String ℕ
  pub total_findings : ℕ
  pub warnings : List String
