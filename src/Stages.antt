-- ===== src/Stages.antt =====
-- core/pipeline/stages.py: which analyzer stages did not finish.
use bare_binary_analysis.Vocab.{StageStatus, is_degraded, stage_status_value}
use bare_binary_analysis.Prelude.{
  Bool, List, String, map, sort_by, str_lt, ◌∷◌, [], fstring, select, ◌&&◌, not, ◌==◌, contains,
  string_eq,
}

-- A row of `run_stages`, as far as the two functions read it.
pub record RunStage : Type 0 where
  pub run_id : String
  pub analyzer : String
  pub status : StageStatus

abbrev pub enrichment_analyzers : List String
enrichment_analyzers = "ghidra" ∷ []

-- The condition of the comprehension.
unfoldable pub counts_as_degraded : RunStage → Bool
counts_as_degraded stage =
    is_degraded stage.status && not (contains enrichment_analyzers stage.analyzer)

abbrev pub by_analyzer : RunStage → RunStage → Bool
by_analyzer a b = str_lt a.analyzer b.analyzer

-- The rows are those of the session's table.
unfoldable pub degraded_stages : List RunStage → String → List RunStage
degraded_stages rows run_id =
    sort_by by_analyzer (select counts_as_degraded (select (λ stage. stage.run_id == run_id) rows))

unfoldable pub describe_degraded : List RunStage → List String
describe_degraded stages =
    map (λ stage. fstring (stage.analyzer ∷ " (" ∷ stage_status_value stage.status ∷ ")" ∷ []))
      stages
