-- ===== src/Scan/Endings.antt =====
-- How a run ends.
use bare_binary_analysis.Stages.{counts_as_degraded, degraded_stages, by_analyzer, RunStage}
use bare_binary_analysis.Scan.{
  completed, SandboxResult, conclude, stage_status, ScanRun, UnpackPayload, is_zero, StageRow,
  finish_unpack, new_stage, or_no_payload, finish_static, as_run_stage, record_stage,
}
use bare_binary_analysis.Vocab.{RunStatus, is_degraded}
use bare_binary_analysis.Prelude.{
  string_eq, true, false, String, select, Bool, Option, any_of, ℕ, List, ◌≡◌, if◌then◌else◌, not,
  truthy, arith, ◌&&◌, ◌∷◌, [], refl, map, Bool-cases, contains, inl, inr, ◌==◌, truthy-sort_by,
  ◌∙◌, any_of-select, ◌||◌,
}

truthy-select {ℓ} :
    {A : Type ℓ} (test : A → Bool) (xs : List A) → truthy (select test xs) ≡ any_of test xs
unfolding select any_of
truthy-select test [] = refl
truthy-select test (x ∷ xs) = ground (arith, truthy-select test xs)

truthy-degraded_stages :
    (rows : List RunStage) (run_id : String)
    → truthy (degraded_stages rows run_id)
      ≡ any_of (λ s. s.run_id == run_id && counts_as_degraded s) rows
unfolding degraded_stages
truthy-degraded_stages rows run_id =
    truthy-sort_by by_analyzer _
    ∙ (truthy-select counts_as_degraded (select (λ s. s.run_id == run_id) rows)
        ∙ any_of-select counts_as_degraded (λ s. s.run_id == run_id) rows)

-- The container exited on its own, with the code 0.
unfoldable pub is_clean : SandboxResult → Bool
is_clean result = elim result.status [ completed ↦ is_zero result.exit_code | _ ↦ false ]

stage_status-is_clean : (r : SandboxResult) → is_degraded (stage_status r) ≡ not (is_clean r)
unfolding stage_status is_degraded is_clean
stage_status-is_clean r = ground arith

-- The two stages of a scan, with what their containers did.
unfoldable pub scan_stages :
    String → SandboxResult → Option UnpackPayload → SandboxResult → ℕ → List StageRow
scan_stages run_id unpacked payload scanned matches =
    finish_unpack 2 unpacked payload (new_stage 1 run_id "unpack")
    ∷ finish_static 4 scanned matches (new_stage 3 run_id "static")
    ∷ []

conclude-status :
    (now : ℕ) (stages : List StageRow) (run : ScanRun)
    → (conclude now stages run).status ≡ (
        if truthy (degraded_stages (map as_run_stage stages) run.id)
        then RunStatus.degraded
        else RunStatus.completed)
unfolding conclude
conclude-status now stages run =
    elim (Bool-cases (truthy (degraded_stages (map as_run_stage stages) run.id))) [
      | inl e ↦ rw (e, conclude) refl
      | inr e ↦ rw (e, conclude) refl
    ]

finish_unpack-degraded :
    (run_id : String) (unpacked : SandboxResult) (payload : Option UnpackPayload)
    → counts_as_degraded
        (as_run_stage (finish_unpack 2 unpacked payload (new_stage 1 run_id "unpack")))
      ≡ not (is_clean unpacked && not (or_no_payload payload).truncated)
unfolding counts_as_degraded as_run_stage finish_unpack record_stage new_stage contains is_degraded
finish_unpack-degraded run_id unpacked payload =
    elim (Bool-cases (or_no_payload payload).truncated) [
      | inl e ↦ rw e (ground arith)
      | inr e ↦ rw e (ground (arith, stage_status-is_clean unpacked))
    ]

finish_static-degraded :
    (run_id : String) (scanned : SandboxResult) (matches : ℕ)
    → counts_as_degraded
        (as_run_stage (finish_static 4 scanned matches (new_stage 3 run_id "static")))
      ≡ not (is_clean scanned)
unfolding counts_as_degraded as_run_stage finish_static record_stage new_stage contains
finish_static-degraded run_id scanned matches = ground (arith, stage_status-is_clean scanned)

ending :
    (own own' d d' a t c : Bool)
    → own ≡ true
    → own' ≡ true
    → d ≡ not (a && t)
    → d' ≡ not c
    → (if own && d || (own' && d' || false) then RunStatus.degraded else RunStatus.completed)
      ≡ (if a && t && c then RunStatus.completed else RunStatus.degraded)
ending own own' d d' a t c e e' h h' = ground arith

finish_unpack-run_id :
    (run_id : String) (unpacked : SandboxResult) (payload : Option UnpackPayload)
    → (as_run_stage (finish_unpack 2 unpacked payload (new_stage 1 run_id "unpack"))).run_id
      ≡ run_id
unfolding as_run_stage finish_unpack record_stage new_stage
finish_unpack-run_id run_id unpacked payload = elim (Bool-cases (or_no_payload payload).truncated) [
  | inl e ↦ rw e refl
  | inr e ↦ rw e refl
]

finish_static-run_id :
    (run_id : String) (scanned : SandboxResult) (matches : ℕ)
    → (as_run_stage (finish_static 4 scanned matches (new_stage 3 run_id "static"))).run_id ≡ run_id
unfolding as_run_stage finish_static record_stage new_stage
finish_static-run_id run_id scanned matches = refl

-- A run whose stages are the two of one scan, which raised nothing, is completed exactly when both
-- containers exited with the code 0 and the unpacked tree is not truncated; else it is degraded.
pub conclude-completed :
    (now : ℕ) (run : ScanRun) (unpacked scanned : SandboxResult) (payload : Option UnpackPayload)
    (matches : ℕ)
    → (conclude now (scan_stages run.id unpacked payload scanned matches) run).status ≡ (
        if is_clean unpacked && not (or_no_payload payload).truncated && is_clean scanned
        then RunStatus.completed
        else RunStatus.degraded)
unfolding scan_stages any_of
conclude-completed now run unpacked scanned payload matches =
    let stages = scan_stages run.id unpacked payload scanned matches in
    conclude-status now stages run
    ∙ rw (truthy-degraded_stages (map as_run_stage stages) run.id) (
        ending _ _ _ _ (is_clean unpacked) (not (or_no_payload payload).truncated)
          (is_clean scanned)
          ((string_eq.beq_iff _ run.id).1 (finish_unpack-run_id run.id unpacked payload))
          ((string_eq.beq_iff _ run.id).1 (finish_static-run_id run.id scanned matches))
          (finish_unpack-degraded run.id unpacked payload)
          (finish_static-degraded run.id scanned matches))
