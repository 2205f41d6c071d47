-- ===== src/Gate/Verdicts.antt =====
-- What `gate_run` answers.
use bare_binary_analysis.Policy.Engine.Decision.{evaluate-decision}
use bare_binary_analysis.Vocab.{is_terminal, RunStatus}
use bare_binary_analysis.Policy.Engine.{evaluate}
use bare_binary_analysis.Policy.Document.{Policy}
use bare_binary_analysis.Policy.Model.{GateFinding, Waiver, GateVerdict, GateDecision, inconclusive}
use bare_binary_analysis.Stages.{
  degraded_stages, describe_degraded, RunStage, counts_as_degraded, by_analyzer,
}
use bare_binary_analysis.Policy.Engine.Reference.{
  is_shippable, reference_decision, within, unnamed_count, tolerates,
}
use bare_binary_analysis.Prelude.{
  none, List, any_of, Bool, all_of, select, truthy, String, map, Date, Option, true, ◌==◌, ◌≡◌,
  count_where, ◌&&◌, ◌∷◌, [], false, arith, refl, ◌≢◌, string_eq, ◌∙◌, some, Bool-cases, inr, inl,
  subst, truthy-sort_by, sym,
}
use bare_binary_analysis.Gate.{
  Outcome, Session, stages_of, Run, ok, get_run, gate_run, not_ready, BaselineRef, gate_found,
  gate_failed, is_failed, no_baseline, failure_text, degraded_stages, gate_finished,
}

pub is_ok : {A : Type 0} → Outcome A → Bool
is_ok (ok a) = true
is_ok (not_ready e) = false

-- The run is in the table and has ended.
unfoldable pub has_ended : List Run → String → Bool
has_ended runs run_id = elim (get_run runs run_id) [ none ↦ false | some r ↦ is_terminal r.status ]

any_of-select :
    (stages : List RunStage) (run_id : String)
    → any_of (λ s. s.run_id == run_id && counts_as_degraded s) stages
      ≡ truthy (select counts_as_degraded (select (λ s. s.run_id == run_id) stages))
unfolding any_of select
any_of-select [] run_id = refl
any_of-select (s ∷ ss) run_id = ground (arith, any_of-select ss run_id)

truthy-map {ℓ κ} :
    {A : Type ℓ} {B : Type κ} (f : A → B) (xs : List A) → truthy (map f xs) ≡ truthy xs
truthy-map f [] = refl
truthy-map f (x ∷ xs) = refl

-- The gate is told of a degraded stage exactly when the table has one for the run that is not
-- an enrichment stage.
pub stages_of-truthy :
    (session : Session) (run_id : String)
    → truthy (stages_of session run_id)
      ≡ any_of (λ s. s.run_id == run_id && counts_as_degraded s) session.stages
unfolding stages_of describe_degraded degraded_stages
stages_of-truthy session run_id =
    truthy-map _ _ ∙ truthy-sort_by by_analyzer _ ∙ sym (any_of-select session.stages run_id)

-- An incomplete scan supports no pass, unless the policy tolerates it.
evaluate-ne-pass :
    (fs : List GateFinding) (p : Policy) (waivers : List Waiver) (stages : List String)
    (today : Date)
    → tolerates p.on_degraded ≡ false
    → truthy stages ≡ true
    → (evaluate fs p waivers stages today).decision ≢ GateDecision.pass
unfolding reference_decision
evaluate-ne-pass fs p waivers stages today strict incomplete h =
    ground (arith, evaluate-decision fs p waivers stages today)

-- With no findings nothing blocks.
is_shippable-nil :
    (p : Policy) (waivers : List Waiver) (today : Date) → is_shippable p waivers today [] ≡ true
unfolding is_shippable all_of within unnamed_count count_where
is_shippable-nil p waivers today = refl

abbrev DoesNotPass : Outcome (GateVerdict × BaselineRef) → Type 0
DoesNotPass (ok (v, b)) = v.decision ≢ GateDecision.pass
DoesNotPass (not_ready e) = Unit

module _ (session : Session) (p : Policy) (waivers : List Waiver) (baseline_run_id : Option String)
    (baseline_finding_ids : Option (List String)) (today : Date) where
  abbrev run_gate : String → Outcome (GateVerdict × BaselineRef)
  run_gate = gate_run session p waivers baseline_run_id baseline_finding_ids today

  -- The gate gives a verdict for a run that is in the table and has ended, and for no other.
  pub gate_run-is_ok : (run_id : String) → is_ok (run_gate run_id) ≡ has_ended session.runs run_id
  unfolding gate_run has_ended
  gate_run-is_ok run_id = found (get_run session.runs run_id)
    where
      found :
          (o : Option Run)
          → is_ok (gate_found session p waivers baseline_run_id baseline_finding_ids today run_id o)
            ≡ elim o [ none ↦ false | some r ↦ is_terminal r.status ]
      found none = unfold gate_found is_ok in refl
      found (some run) = unfold gate_found is_ok in ground arith

  -- Under a policy that does not tolerate degraded scans, the verdict on a failed run is
  -- inconclusive, whatever findings the table has for it; and no baseline is reported.
  pub gate_run-failed :
      (run_id : String) (run : Run)
      → get_run session.runs run_id ≡ some run
      → run.status ≡ RunStatus.failed
      → tolerates p.on_degraded ≡ false
      → (v : GateVerdict) × (run_gate run_id ≡ ok (v, no_baseline)) × (v.decision ≡ inconclusive)
  unfolding gate_run gate_found gate_failed is_terminal is_failed reference_decision
  gate_run-failed run_id run found failed strict = (
    evaluate [] p waivers (failure_text run.error ∷ []) today,
    ground arith,
    ground (
      arith,
      evaluate-decision [] p waivers (failure_text run.error ∷ []) today,
      is_shippable-nil p waivers today,
    ),
  )

  -- A run for which the table has a degraded stage that is not an enrichment stage gets no pass
  -- under a policy that does not tolerate degraded scans, whatever its findings and the waivers.
  pub gate_run-degraded :
      (run_id : String) (v : GateVerdict) (b : BaselineRef)
      → tolerates p.on_degraded ≡ false
      → any_of (λ s. s.run_id == run_id && counts_as_degraded s) session.stages ≡ true
      → run_gate run_id ≡ ok (v, b)
      → v.decision ≢ GateDecision.pass
  unfolding gate_run
  gate_run-degraded run_id v b strict incomplete h =
      subst DoesNotPass h (found (get_run session.runs run_id))
    where
      told : truthy (stages_of session run_id) ≡ true
      told = stages_of-truthy session run_id ∙ incomplete

      found :
          (o : Option Run)
          → DoesNotPass
              (gate_found session p waivers baseline_run_id baseline_finding_ids today run_id o)
      found none = unfold gate_found in tt
      found (some run) =
          unfold gate_found in
          elim (Bool-cases (is_terminal run.status)) [
            | inr running ↦ rw running tt
            | inl ended ↦ elim (Bool-cases (is_failed run.status)) [
              | inl bad ↦
                  rw (ended, bad)
                    (unfold gate_failed in evaluate-ne-pass [] p waivers _ today strict refl)
              | inr good ↦
                  rw (ended, good)
                    (unfold gate_finished in evaluate-ne-pass _ p waivers _ today strict told)
            ]
          ]
