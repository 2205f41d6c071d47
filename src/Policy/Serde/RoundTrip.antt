-- ===== src/Policy/Serde/RoundTrip.antt =====
-- What `verdict_from_dict` rebuilds from the fields that `verdict_to_dict` writes.
use bare_binary_analysis.Vocab.{severity_value, severity_of, Severity, severity_of-value}
use bare_binary_analysis.Policy.Model.{
  inconclusive, severity_floor, blocked_category, blocked_rule, budget_exceeded, degraded_scan,
  expired_waiver, GateFinding, GateVerdict, WaivedFinding, GateDecision, ViolationKind, blocked,
  Violation,
}
use bare_binary_analysis.Policy.Serde.{
  counts_of, decision_of, inherited_of, read_all, read_severity, violation_kind_of, violation_of,
  waived_of, counts_fields, decision_value, inherited_fields, kind_value, optional_severity,
  violation_fields, waived_fields, fields_of, obj, text_of, verdict_from_dict, ok, required,
  verdict_to_dict, WireError, string, text_or, items_of, natural,
}
use bare_binary_analysis.Prelude.{
  List, All, array, false, is_calendar, map, Dict, Value, is_true, ◌≡◌, Result, String, some, true,
  ◌∷◌, All-every, [], get_field, ℕ, ◌∙◌, Option, ap, field_or, refl, none, py_str,
  fromisoformat-isoformat, int_of,
}

read_all-array {ℓ} :
    {A : Type ℓ} (P : A → Type 0) (write : A → Value) (read : Value → Result WireError A)
    (kept : A → A) (xs : List A)
    → ((x : A) → P x → read (write x) ≡ ok (kept x))
    → All P xs
    → read_all read (array write xs) ≡ ok (map kept xs)
unfolding read_all array
read_all-array P write read kept [] h all = refl
read_all-array P write read kept (x ∷ xs) h all =
    rw (h x all.0, read_all-array P write read kept xs h all.1) refl

counts_of-fields : (d : Dict String ℕ) → counts_of (counts_fields d) ≡ ok d
unfolding counts_of counts_fields
counts_of-fields [] = refl
counts_of-fields ((k, n) ∷ d) = rw (counts_of-fields d)

decision_of-value : (d : GateDecision) → decision_of (decision_value d) ≡ some d
unfolding decision_of decision_value
decision_of-value GateDecision.pass = refl
decision_of-value blocked = refl
decision_of-value inconclusive = refl

kind_of-value : (k : ViolationKind) → violation_kind_of (kind_value k) ≡ some k
unfolding violation_kind_of kind_value
kind_of-value severity_floor = refl
kind_of-value blocked_category = refl
kind_of-value blocked_rule = refl
kind_of-value budget_exceeded = refl
kind_of-value degraded_scan = refl
kind_of-value expired_waiver = refl

read_severity-optional : (s : Option Severity) → read_severity (optional_severity s) ≡ ok s
unfolding read_severity optional_severity is_true severity_value severity_of
read_severity-optional none = refl
read_severity-optional (some Severity.critical) = refl
read_severity-optional (some Severity.high) = refl
read_severity-optional (some Severity.medium) = refl
read_severity-optional (some Severity.low) = refl
read_severity-optional (some Severity.info) = refl

violation_of-fields : (v : Violation) → violation_of (obj (violation_fields v)) ≡ ok v
unfolding violation_of violation_fields fields_of required get_field field_or text_or py_str
violation_of-fields v = rw (kind_of-value v.kind, read_severity-optional v.severity) refl

abbrev pub HasCalendarExpiry : WaivedFinding → Type 0
HasCalendarExpiry w = is_calendar w.expires ≡ true

waived_of-fields :
    (w : WaivedFinding) → HasCalendarExpiry w → waived_of (obj (waived_fields w)) ≡ ok w
unfolding waived_of waived_fields fields_of required get_field field_or text_or py_str
waived_of-fields w h = rw (severity_of-value w.severity, fromisoformat-isoformat w.expires h) refl

-- A finding without what the wire leaves out.
abbrev pub as_inherited : GateFinding → GateFinding
as_inherited f = record f { is_new = false; llm_dismissed = false; value_masked = "" }

inherited_of-fields :
    (f : GateFinding) → inherited_of (obj (inherited_fields f)) ≡ ok (as_inherited f)
unfolding inherited_of inherited_fields fields_of required get_field field_or text_or py_str
inherited_of-fields f = rw (severity_of-value f.severity) refl

map_self {ℓ} : {A : Type ℓ} (xs : List A) → map (λ x. x) xs ≡ xs
map_self [] = refl
map_self (x ∷ xs) = rw (map_self xs)

module _ (v : GateVerdict) (dated : All HasCalendarExpiry v.waived) where
  violations_read :
      read_all violation_of (array (λ x. obj (violation_fields x)) v.violations) ≡ ok v.violations
  violations_read =
      read_all-array (λ _. Unit {0}) _ violation_of (λ x. x) v.violations
        (λ x _. violation_of-fields x) (All-every (λ _. Unit {0}) (λ _. tt) v.violations)
      ∙ ap ok (map_self v.violations)

  waived_read : read_all waived_of (array (λ x. obj (waived_fields x)) v.waived) ≡ ok v.waived
  waived_read =
      read_all-array HasCalendarExpiry _ waived_of (λ x. x) v.waived waived_of-fields dated
      ∙ ap ok (map_self v.waived)

  inherited_read :
      read_all inherited_of (array (λ x. obj (inherited_fields x)) v.inherited)
      ≡ ok (map as_inherited v.inherited)
  inherited_read =
      read_all-array (λ _. Unit {0}) _ inherited_of as_inherited v.inherited
        (λ x _. inherited_of-fields x) (All-every (λ _. Unit {0}) (λ _. tt) v.inherited)

  texts_read : (xs : List String) → read_all text_of (array string xs) ≡ ok xs
  unfolding text_of
  texts_read xs =
      read_all-array (λ _. Unit {0}) string text_of (λ x. x) xs (λ x _. refl)
        (All-every (λ _. Unit {0}) (λ _. tt) xs)
      ∙ ap ok (map_self xs)

  -- A verdict whose waivers expire on days of the calendar is rebuilt from its JSON as it was,
  -- but for the inherited findings, which come back as not new, not dismissed by the model and
  -- without a masked value.
  pub verdict_from_dict-to_dict :
      verdict_from_dict (verdict_to_dict v)
      ≡ ok (record v { inherited = map as_inherited v.inherited })
  unfolding verdict_from_dict verdict_to_dict required get_field field_or text_or py_str items_of
      fields_of int_of natural
  verdict_from_dict-to_dict =
      rw
        (
          decision_of-value v.decision,
          violations_read,
          waived_read,
          inherited_read,
          texts_read v.degraded_stages,
          counts_of-fields v.counts_by_severity,
          counts_of-fields v.new_counts_by_severity,
          texts_read v.warnings,
        )
        refl
