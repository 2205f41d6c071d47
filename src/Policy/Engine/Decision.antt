-- ===== src/Policy/Engine/Decision.antt =====
-- The decision of `evaluate` is the one that the reference promises.
use bare_binary_analysis.Vocab.{Severity}
use bare_binary_analysis.Policy.Engine.Budgets.{
  keeps_budgets, budget_violations-other, budget_violations-truthy,
}
use bare_binary_analysis.Policy.Engine.Ledger.{
  is_unnamed, is_other, visit_all-considered, visit_all-other, visit_all-truthy,
}
use bare_binary_analysis.Policy.Engine.Reference.{
  reference_decision, unnamed_count, is_shippable, tolerates, within, severities, is_cleared,
}
use bare_binary_analysis.Policy.Document.{Policy, limit_for}
use bare_binary_analysis.Policy.Engine.{
  decide_violations, Tally, start_tally, budget_violations, is_warn, visit_all, degraded_violation,
  index_waivers, dedupe, evaluate, verdict_of, sorted_stages, by_severity,
}
use bare_binary_analysis.Prelude.{
  Perm, List, String, Date, ◌≡◌, if◌then◌else◌, select, ◌++◌, [], any_of, truthy, all_of, arith,
  ◌&&◌, ◌∙◌, false, not, all_of-eq-not-any_of, count_where-select, ◌∷◌, Bool-cases, inl, inr, refl,
  Bool, all_of-perm, any_of-append, sort_by, ◌||◌, all_of-sort_by, contains, str_lt, truthy-append,
  count_where-perm, count_where-sort_by, string_eq, truthy-sort_by, contains-truthy,
}
use bare_binary_analysis.Policy.Model.{
  GateFinding, Violation, Waiver, blocked, is_degraded_scan, inconclusive, GateDecision,
}

-- The decision from what is known of the violations.
decide_violations_lem :
    (vs : List Violation) (stages : List String) (p : Policy)
    → decide_violations vs stages p ≡ (
        if truthy vs
        then if any_of is_other vs then blocked else inconclusive
        else if truthy stages && is_warn p.on_degraded
        then inconclusive
        else GateDecision.pass)
unfolding decide_violations
decide_violations_lem [] stages p = refl
decide_violations_lem (v ∷ vs) stages p =
    let same : all_of (λ u. is_degraded_scan u.kind) (v ∷ vs) ≡ not (any_of is_other (v ∷ vs)) =
      all_of-eq-not-any_of (λ u. is_degraded_scan u.kind) (v ∷ vs) in
    elim (Bool-cases (any_of is_other (v ∷ vs))) [ inl e ↦ rw (same, e) | inr e ↦ rw (same, e) ]

module _ (fs : List GateFinding) (p : Policy) (ws : List Waiver) (stages : List String)
    (today : Date) where
  abbrev final : Tally
  final = visit_all p today (index_waivers ws []) fs (start_tally stages p.on_degraded)

  abbrev all_violations : List Violation
  all_violations = final.violations ++ budget_violations final.considered p

  start-other : any_of is_other (start_tally stages p.on_degraded).violations ≡ false
  unfolding start_tally any_of degraded_violation is_degraded_scan
  start-other = ground arith

  start-truthy :
      truthy (start_tally stages p.on_degraded).violations
      ≡ (truthy stages && not (is_warn p.on_degraded) && not (tolerates p.on_degraded))
  unfolding start_tally is_warn tolerates
  start-truthy = ground arith

  start-considered : (start_tally stages p.on_degraded).considered ≡ []
  unfolding start_tally
  start-considered = ground arith

  final-considered : final.considered ≡ select (is_unnamed p) fs
  final-considered =
      visit_all-considered p today ws fs (start_tally stages p.on_degraded) ∙ rw start-considered

  is_kept :
      keeps_budgets p final.considered
      ≡ all_of (λ s. within (limit_for p.budgets s) (unnamed_count p fs s)) severities
  unfolding unnamed_count
  is_kept = rw final-considered (simp count_where-select)

  final-other : any_of is_other all_violations ≡ not (is_shippable p ws today fs)
  unfolding is_shippable
  final-other = ground (
    arith,
    any_of-append is_other final.violations (budget_violations final.considered p),
    visit_all-other p today ws fs (start_tally stages p.on_degraded),
    start-other,
    budget_violations-other p final.considered,
    budget_violations-truthy p final.considered,
    is_kept,
  )

  final-truthy :
      truthy all_violations
      ≡ (truthy (start_tally stages p.on_degraded).violations || not (is_shippable p ws today fs))
  unfolding is_shippable
  final-truthy = ground (
    arith,
    truthy-append final.violations (budget_violations final.considered p),
    visit_all-truthy p today ws fs (start_tally stages p.on_degraded),
    budget_violations-truthy p final.considered,
    is_kept,
  )

  verdict-decision :
      decide_violations all_violations stages p ≡ reference_decision fs p ws stages today
  unfolding reference_decision is_warn tolerates
  verdict-decision = ground (
    arith,
    decide_violations_lem all_violations stages p,
    final-other,
    final-truthy,
    start-truthy,
  )

-- Sorting the stages and dropping repetitions loses none.
dedupe-truthy : (ss : List String) → truthy (dedupe ss) ≡ truthy ss
unfolding dedupe contains
dedupe-truthy [] = refl
dedupe-truthy (s ∷ ss) = ground (arith, contains-truthy (dedupe ss) s)

module _ (p : Policy) (ws : List Waiver) (today : Date) where
  is_shippable-sort_by :
      (lt : GateFinding → GateFinding → Bool) (fs : List GateFinding)
      → is_shippable p ws today (sort_by lt fs) ≡ is_shippable p ws today fs
  unfolding is_shippable unnamed_count
  is_shippable-sort_by lt fs =
      rw (all_of-sort_by lt (is_cleared p ws today) fs) (simp (count_where-sort_by lt))

  unnamed_count-perm :
      (fs gs : List GateFinding)
      → Perm fs gs
      → (s : Severity) → unnamed_count p fs s ≡ unnamed_count p gs s
  unfolding unnamed_count
  unnamed_count-perm fs gs h s = count_where-perm _ h

  pub is_shippable-perm :
      (fs gs : List GateFinding)
      → Perm fs gs
      → is_shippable p ws today fs ≡ is_shippable p ws today gs
  unfolding is_shippable
  is_shippable-perm fs gs h =
      rw (all_of-perm (is_cleared p ws today) h) (simp (unnamed_count-perm fs gs h))

-- The decision is the reference's: blocked when a finding that a clause of the policy names is in
-- scope with no valid waiver or a budget is passed; otherwise inconclusive when a stage degraded
-- and the policy does not tolerate it; and pass in all other cases.
pub evaluate-decision :
    (findings : List GateFinding) (p : Policy) (waivers : List Waiver) (stages : List String)
    (today : Date)
    → (evaluate findings p waivers stages today).decision
      ≡ reference_decision findings p waivers stages today
unfolding evaluate verdict_of sorted_stages reference_decision
evaluate-decision findings p waivers stages today = ground (
  arith,
  verdict-decision (sort_by by_severity findings) p waivers (sorted_stages stages) today,
  is_shippable-sort_by p waivers today by_severity findings,
  truthy-sort_by str_lt (dedupe stages),
  dedupe-truthy stages,
)
