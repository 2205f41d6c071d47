-- ===== src/Policy/Serde.antt =====
-- core/policy/serde.py: the verdict as JSON, in both directions.
pub mod RoundTrip
mod Samples
use bare_binary_analysis.Prelude.{
  ℕ, ℤ, pos, String, false, Option, none, some, List, [], ◌∷◌, Dict, isoformat, fromisoformat,
  Result, ok, err, ◌>>=◌, or_raise, Value, null, num, string, arr, obj, Items, nil, cons, Fields,
  end, field, field_or, get_field, array, py_str, is_true, int_of, IntError, re_raise, ◌==◌,
  string_eq, if◌then◌else◌,
}
use bare_binary_analysis.Vocab.{Severity, severity_value, severity_of}
use bare_binary_analysis.Policy.Model.{
  GateDecision, blocked, inconclusive, exit_code, ViolationKind, severity_floor, blocked_category,
  blocked_rule, budget_exceeded, degraded_scan, expired_waiver, GateFinding, Violation,
  WaivedFinding, GateVerdict,
}

pub decision_value : GateDecision → String
decision_value GateDecision.pass = "pass"
decision_value blocked = "blocked"
decision_value inconclusive = "inconclusive"

pub decision_of : String → Option GateDecision
decision_of s =
    if s == "pass"
    then some GateDecision.pass
    else if s == "blocked"
    then some blocked
    else if s == "inconclusive"
    then some inconclusive
    else none

pub kind_value : ViolationKind → String
kind_value severity_floor = "severity_floor"
kind_value blocked_category = "blocked_category"
kind_value blocked_rule = "blocked_rule"
kind_value budget_exceeded = "budget_exceeded"
kind_value degraded_scan = "degraded_scan"
kind_value expired_waiver = "expired_waiver"

pub violation_kind_of : String → Option ViolationKind
violation_kind_of s =
    if s == "severity_floor"
    then some severity_floor
    else if s == "blocked_category"
    then some blocked_category
    else if s == "blocked_rule"
    then some blocked_rule
    else if s == "budget_exceeded"
    then some budget_exceeded
    else if s == "degraded_scan"
    then some degraded_scan
    else if s == "expired_waiver"
    then some expired_waiver
    else none

pub optional_severity : Option Severity → Value
optional_severity none = null
optional_severity (some s) = string (severity_value s)

pub violation_fields : Violation → Fields
violation_fields v = field "kind" (string (kind_value v.kind)) (
    field "detail" (string v.detail) (
      field "finding_id" (string v.finding_id) (
        field "rule_id" (string v.rule_id) (
          field "severity" (optional_severity v.severity) (
            field "title" (string v.title) (field "artifact_path" (string v.artifact_path) end))))))

pub waived_fields : WaivedFinding → Fields
waived_fields w = field "finding_id" (string w.finding_id) (
    field "title" (string w.title) (
      field "severity" (string (severity_value w.severity)) (
        field "owner" (string w.owner)
          (field "reason" (string w.reason) (field "expires" (string (isoformat w.expires)) end)))))

pub inherited_fields : GateFinding → Fields
inherited_fields f = field "id" (string f.id) (
    field "rule_id" (string f.rule_id) (
      field "category" (string f.category) (
        field "title" (string f.title) (
          field "severity" (string (severity_value f.severity)) (
            field "status" (string f.status)
              (field "artifact_path" (string f.artifact_path) end))))))

pub counts_fields : Dict String ℕ → Fields
counts_fields [] = end
counts_fields ((k, n) ∷ d) = field k (num (pos n)) (counts_fields d)

pub verdict_to_dict : GateVerdict → Fields
verdict_to_dict v = field "decision" (string (decision_value v.decision)) (
    field "exit_code" (num (pos (exit_code v.decision))) (
      field "policy_name" (string v.policy_name) (
        field "total_findings" (num (pos v.total_findings)) (
          field "counts_by_severity" (obj (counts_fields v.counts_by_severity)) (
            field "new_counts_by_severity" (obj (counts_fields v.new_counts_by_severity)) (
              field "degraded_stages" (arr (array string v.degraded_stages)) (
                field "warnings" (arr (array string v.warnings)) (
                  field "violations" (arr (array (λ x. obj (violation_fields x)) v.violations)) (
                    field "waived" (arr (array (λ x. obj (waived_fields x)) v.waived)) (
                      field "inherited" (arr (array (λ x. obj (inherited_fields x)) v.inherited))
                        end))))))))))

-- The exceptions that the rebuilding of a verdict can raise.
pub data WireError : Type 0 where
  key_error value_error type_error : WireError

-- `d[key]`
pub required : String → Fields → Result WireError Value
required key fs = or_raise (get_field key fs) key_error

-- `str(d.get(key, default))`
pub text_or : String → String → Fields → String
text_or key default fs = py_str (field_or key (string default) fs)

-- A value that is not a mapping has no item of a text.
pub fields_of : Value → Result WireError Fields
fields_of (obj fs) = ok fs
fields_of v = err type_error

severity_or_none : Value → Result WireError (Option Severity)
severity_or_none (string s) = or_raise (severity_of s) value_error >>= λ s. ok (some s)
severity_or_none v = err value_error

-- `Severity(v["severity"]) if v.get("severity") else None`
pub read_severity : Value → Result WireError (Option Severity)
unfolding severity_or_none
read_severity v = if is_true v then severity_or_none v else ok none

pub violation_of : Value → Result WireError Violation
violation_of v = do
  fs ← fields_of v
  raw ← required "kind" fs
  kind ← or_raise (violation_kind_of (py_str raw)) value_error
  severity ← read_severity (field_or "severity" null fs)
  ok (record {
    kind = kind;
    detail = text_or "detail" "" fs;
    finding_id = text_or "finding_id" "" fs;
    rule_id = text_or "rule_id" "" fs;
    severity = severity;
    title = text_or "title" "" fs;
    artifact_path = text_or "artifact_path" "" fs;
  })

pub waived_of : Value → Result WireError WaivedFinding
waived_of v = do
  fs ← fields_of v
  id ← required "finding_id" fs
  raw ← required "severity" fs
  severity ← or_raise (severity_of (py_str raw)) value_error
  day ← required "expires" fs
  expires ← or_raise (fromisoformat (py_str day)) value_error
  ok (record {
    finding_id = py_str id;
    title = text_or "title" "" fs;
    severity = severity;
    owner = text_or "owner" "" fs;
    reason = text_or "reason" "" fs;
    expires = expires;
  })

pub inherited_of : Value → Result WireError GateFinding
inherited_of v = do
  fs ← fields_of v
  id ← required "id" fs
  raw ← required "severity" fs
  severity ← or_raise (severity_of (py_str raw)) value_error
  ok (record {
    id = py_str id;
    rule_id = text_or "rule_id" "" fs;
    category = text_or "category" "" fs;
    title = text_or "title" "" fs;
    severity = severity;
    status = text_or "status" "open" fs;
    is_new = false;
    llm_dismissed = false;
    artifact_path = text_or "artifact_path" "" fs;
    value_masked = "";
  })

-- What a loop over a value goes through. A text or a mapping that is not empty gives texts, in
-- which the loop then finds no item.
pub items_of : Value → Result WireError Items
items_of (arr xs) = ok xs
items_of (obj end) = ok nil
items_of (string s) = if s == "" then ok nil else err type_error
items_of v = err type_error

pub read_all {ℓ} : {A : Type ℓ} → (Value → Result WireError A) → Items → Result WireError (List A)
read_all f nil = ok []
read_all f (cons v rest) = let more = read_all f rest in f v >>= λ x. more >>= λ xs. ok (x ∷ xs)

-- The texts and the counts, which the code takes over as they are: another type is an error here.
pub text_of : Value → Result WireError String
text_of (string s) = ok s
text_of v = err type_error

pub counts_of : Fields → Result WireError (Dict String ℕ)
counts_of end = ok []
counts_of (field k (num (pos n)) rest) = counts_of rest >>= λ d. ok ((k, n) ∷ d)
counts_of (field k v rest) = err type_error

pub natural : ℤ → Result WireError ℕ
natural (pos n) = ok n
natural _ = err value_error

wire_error : IntError → WireError
wire_error IntError.type_error = type_error
wire_error IntError.value_error = value_error

read_count : Value → Result WireError ℕ
unfolding wire_error
read_count v = re_raise (int_of v) wire_error >>= natural

pub verdict_from_dict : Fields → Result WireError GateVerdict
unfolding read_count
verdict_from_dict fs = do
  raw ← required "decision" fs
  decision ← or_raise (decision_of (py_str raw)) value_error
  violations ← items_of (field_or "violations" (arr nil) fs) >>= read_all violation_of
  waived ← items_of (field_or "waived" (arr nil) fs) >>= read_all waived_of
  inherited ← items_of (field_or "inherited" (arr nil) fs) >>= read_all inherited_of
  stages ← items_of (field_or "degraded_stages" (arr nil) fs) >>= read_all text_of
  counts ← fields_of (field_or "counts_by_severity" (obj end) fs) >>= counts_of
  new_counts ← fields_of (field_or "new_counts_by_severity" (obj end) fs) >>= counts_of
  total ← read_count (field_or "total_findings" (num (pos 0)) fs)
  warnings ← items_of (field_or "warnings" (arr nil) fs) >>= read_all text_of
  ok (record {
    decision = decision;
    policy_name = text_or "policy_name" "unknown" fs;
    violations = violations;
    waived = waived;
    inherited = inherited;
    degraded_stages = stages;
    counts_by_severity = counts;
    new_counts_by_severity = new_counts;
    total_findings = total;
    warnings = warnings;
  })
