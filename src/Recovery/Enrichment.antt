-- ===== src/Recovery/Enrichment.antt =====
-- Enrichment stages that a dead worker left open.
use bare_binary_analysis.Prelude.{
  ℕ, List, select, map, ◌≡◌, [], if◌then◌else◌, true, ◌∷◌, Bool-cases, false, arith, inl, inr, refl,
  sort_by,
}
use bare_binary_analysis.Recovery.{
  StageRow, fail_stale_enrichment_stages, close_stage, closes, is_open_enrichment, is_unfinished,
}

module _ (timeout_s now : ℕ) where
  close_stage-closes :
      (s : StageRow)
      → closes timeout_s now s ≡ true
      → closes timeout_s now (close_stage now s) ≡ false
  unfolding close_stage is_open_enrichment is_unfinished
  close_stage-closes s h = ground arith

  abbrev swept : List StageRow → List StageRow
  swept stages = map (λ s. if closes timeout_s now s then close_stage now s else s) stages

  select-swept : (stages : List StageRow) → select (closes timeout_s now) (swept stages) ≡ []
  unfolding select
  select-swept [] = refl
  select-swept (s ∷ ss) = elim (Bool-cases (closes timeout_s now s)) [
    | inl e ↦ rw (e, close_stage-closes s e) (select-swept ss)
    | inr e ↦ rw (e, e) (select-swept ss)
  ]

  swept-nothing :
      (stages : List StageRow) → select (closes timeout_s now) stages ≡ [] → swept stages ≡ stages
  unfolding select
  swept-nothing [] h = refl
  swept-nothing (s ∷ ss) h = elim (Bool-cases (closes timeout_s now s)) [
    | inl e ↦
        let no : s ∷ select (closes timeout_s now) ss ≡ [] = rw e at h in absurd (ground arith)
    | inr e ↦
        let rest : select (closes timeout_s now) ss ≡ [] = rw e at h in
        rw (e, swept-nothing ss rest) refl
  ]

  -- A second call at the same time closes no stage and changes none.
  pub fail_stale_enrichment_stages-again :
      (stages : List StageRow)
      → fail_stale_enrichment_stages timeout_s now
          (fail_stale_enrichment_stages timeout_s now stages).0
        ≡ ((fail_stale_enrichment_stages timeout_s now stages).0, [])
  unfolding fail_stale_enrichment_stages sort_by
  fail_stale_enrichment_stages-again stages =
      let open_left = select-swept stages in
      rw (open_left, swept-nothing (swept stages) open_left) refl
