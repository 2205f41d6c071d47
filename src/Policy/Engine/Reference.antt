-- ===== src/Policy/Engine/Reference.antt =====
-- The promise of the release gate, stated without the loop: which findings must block, which
-- waivers excuse them, and the decision that follows.
use bare_binary_analysis.Prelude.{
  ℕ, String, Bool, true, false, not, ◌&&◌, ◌||◌, Option, none, some, List, [], ◌∷◌, truthy, all_of,
  contains, count_where, Date, nat_beq, leb_ℤ, eqb_ℤ, ℤ, pos, ◌==◌, string_eq, if◌then◌else◌,
}
use bare_binary_analysis.Vocab.{Severity, critical, high, medium, low, info, severity_eq}
use bare_binary_analysis.Policy.Model.{
  GateDecision, blocked, inconclusive, DegradedPosture, GateFinding, is_open, is_new_only, Waiver,
  is_expired,
}
use bare_binary_analysis.Policy.Document.{Policy, unlimited, limit_for, blocks}

-- A person has not closed the finding, or only the model has and the policy does not trust it;
-- and the finding is new, or the policy looks at old ones too.
unfoldable pub in_scope : Policy → GateFinding → Bool
in_scope p f =
    (is_open f || (f.llm_dismissed && not p.trust_llm_dismissals))
    && (f.is_new || not (is_new_only p.baseline_mode))

-- A clause of the policy names the finding.
unfoldable pub named_by : Policy → GateFinding → Bool
named_by p f =
    contains p.block_rules f.rule_id
    || contains p.block_categories f.category
    || blocks p f.severity

-- The waiver of an id that stands last in the list.
unfoldable pub last_waiver : String → List Waiver → Option Waiver
last_waiver id [] = none
last_waiver id (w ∷ ws) =
    let later = last_waiver id ws in
    elim later [ some v ↦ some v | none ↦ if w.finding_id == id then some w else none ]

unfoldable pub valid_on : Date → Option Waiver → Bool
valid_on today none = false
valid_on today (some w) = not (is_expired w today)

unfoldable pub is_waived : List Waiver → Date → GateFinding → Bool
is_waived ws today f = valid_on today (last_waiver f.id ws)

-- The finding does not stop the release.
unfoldable pub is_cleared : Policy → List Waiver → Date → GateFinding → Bool
is_cleared p ws today f = not (in_scope p f && named_by p f) || is_waived ws today f

unfoldable pub within : ℤ → ℕ → Bool
within limit n = nat_beq n 0 || eqb_ℤ limit unlimited || leb_ℤ (pos n) limit

-- The findings in scope that no clause names, by severity.
unfoldable pub unnamed_count : Policy → List GateFinding → Severity → ℕ
unnamed_count p fs s = count_where (λ f. (in_scope p f && not (named_by p f)) && f.severity == s) fs

abbrev pub severities : List Severity
severities = critical ∷ high ∷ medium ∷ low ∷ info ∷ []

unfoldable pub is_shippable : Policy → List Waiver → Date → List GateFinding → Bool
is_shippable p ws today fs =
    all_of (is_cleared p ws today) fs
    && all_of (λ s. within (limit_for p.budgets s) (unnamed_count p fs s)) severities

unfoldable pub tolerates : DegradedPosture → Bool
tolerates DegradedPosture.pass = true
tolerates _ = false

unfoldable pub reference_decision :
    List GateFinding → Policy → List Waiver → List String → Date → GateDecision
reference_decision fs p ws stages today =
    if not (is_shippable p ws today fs)
    then blocked
    else if truthy stages && not (tolerates p.on_degraded)
    then inconclusive
    else GateDecision.pass
