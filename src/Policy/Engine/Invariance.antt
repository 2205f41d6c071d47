-- ===== src/Policy/Engine/Invariance.antt =====
-- What the decision of the gate does not depend on.
use bare_binary_analysis.Policy.Engine.{evaluate}
use bare_binary_analysis.Prelude.{
  List, if◌then◌else◌, Date, String, false, Perm, ℤ, ◌≡◌, arith, ◌∙◌, sym, refl, ◌&&◌, ◌==◌,
  string_eq,
}
use bare_binary_analysis.Policy.Document.{Policy, blocks}
use bare_binary_analysis.Policy.Model.{GateFinding, Waiver}
use bare_binary_analysis.Policy.Engine.Reference.{
  reference_decision, in_scope, is_cleared, is_shippable, named_by, unnamed_count,
}
use bare_binary_analysis.Policy.Engine.Decision.{evaluate-decision, is_shippable-perm}

-- Findings in another order get the same decision.
pub evaluate-perm :
    (fs gs : List GateFinding) (p : Policy) (waivers : List Waiver) (stages : List String)
    (today : Date)
    → Perm fs gs
    → (evaluate fs p waivers stages today).decision ≡ (evaluate gs p waivers stages today).decision
unfolding reference_decision
evaluate-perm fs gs p waivers stages today h = ground (
  arith,
  evaluate-decision fs p waivers stages today,
  evaluate-decision gs p waivers stages today,
  is_shippable-perm p waivers today fs gs h,
)

-- A finding with the status `false_positive` that the model dismissed, as it was before: open and
-- not dismissed.
pub restore : GateFinding → GateFinding
restore f =
    if f.llm_dismissed && f.status == "false_positive"
    then record f { status = "open"; llm_dismissed = false }
    else f

-- The maximal length of a waiver in the policy never changes the decision: a valid waiver that
-- runs past it is honoured all the same.
pub evaluate-max_waiver_days :
    (fs : List GateFinding) (p : Policy) (waivers : List Waiver) (stages : List String)
    (today : Date) (days : ℤ)
    → (evaluate fs (record p { max_waiver_days = days }) waivers stages today).decision
      ≡ (evaluate fs p waivers stages today).decision
evaluate-max_waiver_days fs p waivers stages today days =
    evaluate-decision fs (record p { max_waiver_days = days }) waivers stages today
    ∙ same
    ∙ sym (evaluate-decision fs p waivers stages today)
  where
    same :
        reference_decision fs (record p { max_waiver_days = days }) waivers stages today
        ≡ reference_decision fs p waivers stages today
    same =
        unfold reference_decision is_shippable is_cleared in_scope named_by blocks unnamed_count in
        refl
