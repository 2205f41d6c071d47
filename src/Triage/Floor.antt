-- ===== src/Triage/Floor.antt =====
-- What a triage pass may write on a finding, whatever the model says.
use bare_binary_analysis.Vocab.{rank, LlmVerdict, FindingStatus}
use bare_binary_analysis.Prelude.{
  List, leb, ◌≡◌, String, ◌⊎◌, ℕ, true, arith, sort_by, refl, ◌∷◌, [], Bool, false,
}
use bare_binary_analysis.Triage.{
  Finding, Reply, apply_verdict, status_for, is_error, severity_floor, triage_all, triage_run,
  visit_finding, Pass, by_rank_and_id,
}

-- What a finding carries besides the model's columns: only `status` and `detected_by` may change.
abbrev pub SameSubject : Finding → Finding → Type 0
SameSubject f f' =
    (f'.id ≡ f.id)
    × (f'.rule_id ≡ f.rule_id)
    × (f'.value_hash ≡ f.value_hash)
    × (f'.severity ≡ f.severity)

abbrev pub is_false_positive : FindingStatus → Bool
is_false_positive FindingStatus.false_positive = true
is_false_positive _ = false

-- Below the floor anything goes; from the floor on, the new status is not `false_positive`, unless
-- it is the old one.
abbrev pub KeepsFloor : Finding → Finding → Type 0
KeepsFloor f f' =
    (leb (rank f.severity) (rank severity_floor) ≡ false)
    ⊎ (is_false_positive f'.status ≡ false)
    ⊎ (f'.status ≡ f.status)

abbrev pub KeepsSource : Finding → Finding → Type 0
KeepsSource f f' = (f'.detected_by ≡ f.detected_by) ⊎ (f'.detected_by ≡ "both")

abbrev pub Assessed : Finding → Finding → Type 0
Assessed f f' = SameSubject f f' × KeepsFloor f f' × KeepsSource f f'

apply_verdict-Assessed :
    (verdict : LlmVerdict) (reasoning model : String) (now : ℕ) (f : Finding)
    → Assessed f (apply_verdict verdict reasoning model now f)
unfolding apply_verdict status_for is_error
apply_verdict-Assessed verdict reasoning model now f =
    ((refl, refl, refl, refl), ground arith, ground arith)

abbrev pub AllAssessed : List Finding → List Finding → Type 0
AllAssessed [] [] = Unit
AllAssessed [] (f ∷ fs) = ⊥
AllAssessed (f ∷ fs) [] = ⊥
AllAssessed (f ∷ fs) (f' ∷ fs') = Assessed f f' × AllAssessed fs fs'

module _ (ask : Finding → Reply) (sha256 : String → String) (model : String) (now : ℕ) where
  triage_all-Assessed :
      (fs : List Finding) (s : Pass) → AllAssessed fs (triage_all ask sha256 model now fs s).0
  unfolding triage_all visit_finding
  triage_all-Assessed [] s = tt
  triage_all-Assessed (f ∷ fs) s =
      (apply_verdict-Assessed _ _ model now f, triage_all-Assessed fs _)

  -- Whatever the provider replies, a pass returns the findings it was given, in the order of
  -- severity and id: each keeps its id, rule, value and severity, one of severity `critical` or
  -- `high` is `false_positive` only if it was before, and `detected_by` is kept or becomes "both".
  pub triage_run-AllAssessed :
      (fs : List Finding)
      → AllAssessed (sort_by by_rank_and_id fs) (triage_run ask sha256 model now fs).0
  unfolding triage_run
  triage_run-AllAssessed fs = triage_all-Assessed (sort_by by_rank_and_id fs) _
