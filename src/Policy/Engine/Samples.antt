-- ===== src/Policy/Engine/Samples.antt =====
-- Small inputs of the gate, and its theorems at them.
use mathlib.Core.List.Perm
use bare_binary_analysis.Policy.Engine.Reports.{
  is_excused, is_inherited, evaluate-waived_and_inherited,
}
use bare_binary_analysis.Policy.Engine.Decision.{evaluate-decision}
use bare_binary_analysis.Policy.Engine.Invariance.{evaluate-perm}
use bare_binary_analysis.Policy.Engine.Reference.{reference_decision}
use bare_binary_analysis.Policy.Model.{
  GateFinding, Waiver, blocked, GateDecision, inconclusive, is_open, is_expired, is_new_only,
  is_degraded_scan,
}
use bare_binary_analysis.Policy.Engine.{
  evaluate, verdict_of, by_severity, sorted_stages, dedupe, index_waivers, visit_all, visit,
  start_tally, degraded_violation, degraded_warning, count_findings, count_new, decide_violations,
  is_warn, budget_violations, count_severities, check_budgets, check_budget, over_budget,
  is_actionable, blocking_reason, violation, kind_of, reason_detail, expired_violation, ttl_warning,
  waiver_exceeds_ttl, waived_finding, on_waiver, on_reason,
}
use bare_binary_analysis.Policy.Document.{Policy, default_policy, blocks, limit_for}
use bare_binary_analysis.Prelude.{
  Date, List, String, map, ℕ, [], true, ◌∷◌, Bool, false, sort_by, ◌≡◌, select, get, refl,
  string_eq, date_lt, contains, put, keys, tally, all_of, fstring, join, show, show_ℤ, take_text,
  isoformat, days_between,
}
use bare_binary_analysis.Vocab.{high, medium, severity_value, Severity, rank, critical}

abbrev finding : String → Severity → Bool → String → Bool → GateFinding
finding id severity is_new status llm_dismissed = record {
  id = id;
  rule_id = "aws-key";
  category = "secret";
  title = "AWS key";
  severity = severity;
  status = status;
  is_new = is_new;
  llm_dismissed = llm_dismissed;
  artifact_path = "setup.exe";
  value_masked = "AK**";
}

abbrev waiver : String → Date → Waiver
waiver id expires = record { finding_id = id; reason = "inert"; owner = "ana"; expires = expires }

abbrev day : ℕ → ℕ → ℕ → Date
day y m d = record { year = y; month = m; day = d }

-- A new finding with a waiver, an old one, one that the model dismissed, and one below the floor.
abbrev findings : List GateFinding
findings =
    finding "m" medium true "open" false
    ∷ finding "w" high true "open" false
    ∷ finding "o" critical false "open" false
    ∷ finding "l" high true "false_positive" true
    ∷ []

abbrev waivers : List Waiver
waivers = waiver "w" (day 2026 1 1) ∷ waiver "w" (day 2026 12 31) ∷ []

abbrev today : Date
today = day 2026 6 1

abbrev trusting : Policy
trusting = record default_policy { trust_llm_dismissals = true }

program : Unit {0}
unfolding evaluate verdict_of sort_by by_severity sorted_stages dedupe index_waivers visit_all visit
    start_tally degraded_violation degraded_warning count_findings count_new decide_violations
    is_warn budget_violations count_severities check_budgets check_budget over_budget is_actionable
    blocking_reason violation kind_of reason_detail expired_violation ttl_warning waiver_exceeds_ttl
    waived_finding on_waiver on_reason is_open is_expired date_lt is_new_only blocks
    is_degraded_scan limit_for contains get put keys tally all_of fstring join show show_ℤ take_text
    isoformat days_between severity_value rank
program = tt

-- The model's dismissal does not open the gate under the default policy, and does where the
-- policy trusts it: the waiver that stands last counts, and the old finding is inherited.
decisions :
    ((evaluate findings default_policy waivers [] today).decision ≡ blocked)
    × ((evaluate findings trusting waivers [] today).decision ≡ GateDecision.pass)
    × ((evaluate findings trusting waivers ("static (oom)" ∷ []) today).decision ≡ inconclusive)
unfolding program
decisions = (refl, refl, refl)

warned :
    (evaluate findings trusting waivers [] today).warnings
    ≡ "waiver for w runs past the 90-day maximum (expires 2026-12-31)" ∷ []
unfolding program
warned = refl

evaluate-decision_example :
    (evaluate findings trusting waivers ("static (oom)" ∷ []) today).decision
    ≡ reference_decision findings trusting waivers ("static (oom)" ∷ []) today
evaluate-decision_example = evaluate-decision findings trusting waivers ("static (oom)" ∷ []) today

evaluate-perm_example :
    (evaluate
      (finding "m" medium true "open" false ∷ finding "w" high true "open" false ∷ [])
      trusting
      waivers
      []
      today).decision
    ≡ (evaluate
        (finding "w" high true "open" false ∷ finding "m" medium true "open" false ∷ [])
        trusting
        waivers
        []
        today).decision
evaluate-perm_example =
    evaluate-perm (finding "m" medium true "open" false ∷ finding "w" high true "open" false ∷ [])
      (finding "w" high true "open" false ∷ finding "m" medium true "open" false ∷ []) trusting
      waivers [] today (Perm.swap _ _ [])

evaluate-waived_and_inherited_example :
    (map (λ w. w.finding_id) (evaluate findings trusting waivers [] today).waived
      ≡ map (λ f. f.id) (select (is_excused trusting waivers today) (sort_by by_severity findings)))
    × ((evaluate findings trusting waivers [] today).inherited
        ≡ select (is_inherited trusting waivers today) (sort_by by_severity findings))
evaluate-waived_and_inherited_example =
    evaluate-waived_and_inherited findings trusting waivers [] today
