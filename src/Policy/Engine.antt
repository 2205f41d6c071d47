-- ===== src/Policy/Engine.antt =====
-- core/policy/engine.py: findings and a policy in, a release decision out.
pub mod Reference
pub mod Ledger
mod Budgets
pub mod Decision
pub mod Invariance
pub mod Reports
mod Samples
use bare_binary_analysis.Prelude.{
  ℕ, String, Bool, true, false, not, ◌&&◌, ◌||◌, Option, none, some, List, [], ◌∷◌, ◌++◌, length,
  truthy, all_of, contains, sort_by, Dict, get, put, keys, tally, or_zero, fstring, join, show,
  show_ℤ, str_lt, take_text, Date, isoformat, days_between, ltb, nat_beq, ltb_ℤ, eqb_ℤ, ℤ, pos,
  ◌==◌, string_eq, if◌then◌else◌,
}
use bare_binary_analysis.Vocab.{Severity, rank, severity_value, severity_eq}
use bare_binary_analysis.Policy.Model.{
  GateDecision, blocked, inconclusive, ViolationKind, severity_floor, blocked_category,
  blocked_rule, budget_exceeded, degraded_scan, expired_waiver, is_degraded_scan, is_new_only,
  DegradedPosture, fail, warn, GateFinding, is_open, Waiver, is_expired, Violation, WaivedFinding,
  GateVerdict,
}
use bare_binary_analysis.Policy.Document.{Policy, unlimited, limit_for, blocks}

-- `_is_actionable`
pub is_actionable : GateFinding → Policy → Bool
is_actionable f p = if is_open f then true else f.llm_dismissed && not p.trust_llm_dismissals

-- The kinds that `_blocking_reason` returns, which are those that `_violation` has a text for.
pub data Reason : Type 0 where
  rule category floor : Reason

pub kind_of : Reason → ViolationKind
kind_of rule = blocked_rule
kind_of category = blocked_category
kind_of floor = severity_floor

-- `_blocking_reason`
pub blocking_reason : GateFinding → Policy → Option Reason
blocking_reason f p =
    if contains p.block_rules f.rule_id
    then some rule
    else if contains p.block_categories f.category
    then some category
    else if blocks p f.severity
    then some floor
    else none

reason_detail : GateFinding → Reason → String
reason_detail f floor = fstring (severity_value f.severity ∷ " finding blocks release" ∷ [])
reason_detail f rule = fstring ("rule " ∷ f.rule_id ∷ " is blocked by policy" ∷ [])
reason_detail f category = fstring ("category " ∷ f.category ∷ " is blocked by policy" ∷ [])

-- `_violation`
pub violation : GateFinding → Reason → Violation
violation f reason = record {
  kind = kind_of reason;
  detail = reason_detail f reason;
  finding_id = f.id;
  rule_id = f.rule_id;
  severity = some f.severity;
  title = f.title;
  artifact_path = f.artifact_path;
}

count_severities : List GateFinding → Dict Severity ℕ → Dict Severity ℕ
count_severities [] counts = counts
count_severities (f ∷ fs) counts = count_severities fs (tally f.severity counts)

over_budget : Severity → ℕ → ℤ → Violation
over_budget severity count limit = record {
  kind = budget_exceeded;
  detail = fstring (
      show count
      ∷ " "
      ∷ severity_value severity
      ∷ " findings exceed the budget of "
      ∷ show_ℤ limit
      ∷ []);
  finding_id = "";
  rule_id = "";
  severity = some severity;
  title = "";
  artifact_path = "";
}

-- The body of the loop over the severities.
check_budget : Policy → Dict Severity ℕ → Severity → List Violation
check_budget p counts severity =
    let limit = limit_for p.budgets severity in
    let count = or_zero (get severity counts) in
    if eqb_ℤ limit unlimited
    then []
    else if ltb_ℤ limit (pos count)
    then over_budget severity count limit ∷ []
    else []

check_budgets : Policy → Dict Severity ℕ → List Severity → List Violation
check_budgets p counts [] = []
check_budgets p counts (s ∷ rest) = check_budget p counts s ++ check_budgets p counts rest

abbrev by_rank : Severity → Severity → Bool
by_rank a b = ltb (rank a) (rank b)

-- `_budget_violations`
pub budget_violations : List GateFinding → Policy → List Violation
budget_violations fs p =
    let counts = count_severities fs [] in check_budgets p counts (sort_by by_rank (keys counts))

-- `_waiver_exceeds_ttl`
unfoldable pub waiver_exceeds_ttl : Waiver → Policy → Date → Bool
waiver_exceeds_ttl w p today = ltb_ℤ p.max_waiver_days (days_between w.expires today)

is_warn : DegradedPosture → Bool
is_warn warn = true
is_warn _ = false

-- `_decide`
pub decide_violations : List Violation → List String → Policy → GateDecision
decide_violations violations stages p =
    if truthy violations && all_of (λ v. is_degraded_scan v.kind) violations
    then inconclusive
    else if truthy violations
    then blocked
    else if truthy stages && is_warn p.on_degraded
    then inconclusive
    else GateDecision.pass

-- The lists that `evaluate` appends to.
pub record Tally : Type 0 where
  pub violations : List Violation
  pub waived : List WaivedFinding
  pub inherited : List GateFinding
  pub considered : List GateFinding
  pub warnings : List String

pub waived_finding : GateFinding → Waiver → WaivedFinding
waived_finding f w = record {
  finding_id = f.id;
  title = f.title;
  severity = f.severity;
  owner = w.owner;
  reason = w.reason;
  expires = w.expires;
}

pub expired_violation : GateFinding → Waiver → Violation
expired_violation f w = record {
  kind = expired_waiver;
  detail = fstring (
      "waiver expired "
      ∷ isoformat w.expires
      ∷ " (owner: "
      ∷ (if w.owner == "" then "unknown" else w.owner)
      ∷ ")"
      ∷ []);
  finding_id = f.id;
  rule_id = f.rule_id;
  severity = some f.severity;
  title = f.title;
  artifact_path = f.artifact_path;
}

pub ttl_warning : GateFinding → Waiver → Policy → String
ttl_warning f w p = fstring (
    "waiver for "
    ∷ take_text 12 f.id
    ∷ " runs past the "
    ∷ show_ℤ p.max_waiver_days
    ∷ "-day maximum (expires "
    ∷ isoformat w.expires
    ∷ ")"
    ∷ [])

module _ (p : Policy) (today : Date) where
  -- What follows `waiver_index.get(finding.id)` in the loop.
  unfoldable pub on_waiver : GateFinding → Reason → Tally → Option Waiver → Tally
  on_waiver f reason t none = record t { violations = t.violations ++ violation f reason ∷ [] }
  on_waiver f reason t (some w) =
      if is_expired w today
      then record t { violations = t.violations ++ expired_violation f w ∷ [] }
      else record t {
        waived = t.waived ++ waived_finding f w ∷ [];
        warnings =
            if waiver_exceeds_ttl w p today
            then t.warnings ++ ttl_warning f w p ∷ []
            else t.warnings;
      }

  module _ (index : Dict String Waiver) where
    -- What follows `_blocking_reason(finding, policy)` in the loop.
    on_reason : GateFinding → Tally → Option Reason → Tally
    on_reason f t none = record t { considered = t.considered ++ f ∷ [] }
    on_reason f t (some reason) = on_waiver f reason t (get f.id index)

    -- The body of the loop over the findings.
    pub visit : GateFinding → Tally → Tally
    visit f t =
        if not (is_actionable f p)
        then t
        else if is_new_only p.baseline_mode && not f.is_new
        then record t { inherited = t.inherited ++ f ∷ [] }
        else on_reason f t (blocking_reason f p)

    pub visit_all : List GateFinding → Tally → Tally
    visit_all [] t = t
    visit_all (f ∷ fs) t = visit_all fs (visit f t)

-- `{w.finding_id: w for w in waivers}`: the last waiver of an id stays.
unfoldable pub index_waivers : List Waiver → Dict String Waiver → Dict String Waiver
index_waivers [] index = index
index_waivers (w ∷ ws) index = index_waivers ws (put w.finding_id w index)

pub count_findings : List GateFinding → Dict String ℕ → Dict String ℕ
count_findings [] counts = counts
count_findings (f ∷ fs) counts = count_findings fs (tally (severity_value f.severity) counts)

pub count_new : List GateFinding → Dict String ℕ → Dict String ℕ
count_new [] counts = counts
count_new (f ∷ fs) counts =
    count_new fs (if f.is_new then tally (severity_value f.severity) counts else counts)

-- The order of the key `(f.severity.rank, f.rule_id, f.id)`.
pub by_severity : GateFinding → GateFinding → Bool
by_severity a b =
    ltb (rank a.severity) (rank b.severity)
    || (nat_beq (rank a.severity) (rank b.severity)
        && (str_lt a.rule_id b.rule_id || (a.rule_id == b.rule_id && str_lt a.id b.id)))

dedupe : List String → List String
dedupe [] = []
dedupe (s ∷ ss) = let rest = dedupe ss in if contains rest s then rest else s ∷ rest

-- `tuple(sorted(set(degraded_stages)))`
pub sorted_stages : List String → List String
sorted_stages stages = sort_by str_lt (dedupe stages)

degraded_violation : List String → Violation
degraded_violation stages = record {
  kind = degraded_scan;
  detail = fstring (
      "scan incomplete: "
      ∷ join ", " stages
      ∷ " did not finish, so the artifact was not fully examined"
      ∷ []);
  finding_id = "";
  rule_id = "";
  severity = none;
  title = "";
  artifact_path = "";
}

degraded_warning : List String → String
degraded_warning stages =
    fstring
      ("scan incomplete: " ∷ join ", " stages ∷ " did not finish; findings may be partial" ∷ [])

abbrev no_findings : Tally
no_findings = record {
  violations = [];
  waived = [];
  inherited = [];
  considered = [];
  warnings = [];
}

-- The tally after step 1, before the loop over the findings.
start_tally : List String → DegradedPosture → Tally
start_tally [] posture = no_findings
start_tally stages fail = record no_findings { violations = degraded_violation stages ∷ [] }
start_tally stages warn = record no_findings { warnings = degraded_warning stages ∷ [] }
start_tally stages DegradedPosture.pass = no_findings

verdict_of : Policy → List GateFinding → List String → Tally → GateVerdict
verdict_of p fs stages t =
    let violations = t.violations ++ budget_violations t.considered p in
    record {
      decision = decide_violations violations stages p;
      policy_name = p.name;
      violations = violations;
      waived = t.waived;
      inherited = t.inherited;
      degraded_stages = stages;
      counts_by_severity = count_findings fs [];
      new_counts_by_severity = count_new fs [];
      total_findings = length fs;
      warnings = t.warnings;
    }

pub evaluate : List GateFinding → Policy → List Waiver → List String → Date → GateVerdict
evaluate findings p waivers degraded_stages today =
    let fs = sort_by by_severity findings in
    let stages = sorted_stages degraded_stages in
    let start = start_tally stages p.on_degraded in
    verdict_of p fs stages (visit_all p today (index_waivers waivers []) fs start)
