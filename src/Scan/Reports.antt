-- ===== src/Scan/Reports.antt =====
-- core/pipeline/scan.py and correlator.py together: from the static analyzer's result to the rows
-- of evidence and the findings.
use bare_binary_analysis.Correlator.{correlate}
use bare_binary_analysis.Correlator.Correlation.{is_excused, correlate-IsAccounted, IsAccounted}
use bare_binary_analysis.Correlator.Coverage.{has_rule, is_reported}
use bare_binary_analysis.Scan.Rows.{row_of, to_evidence, FileEntry, Match, artifact_of}
use bare_binary_analysis.Prelude.{
  Bool, String, Dict, List, ◌≡◌, map, none, false, ◌⊎◌, All, Succeeds, refl, true, ◌∷◌,
  All-of_append, All-of_map, [],
}
use bare_binary_analysis.Correlator.Model.{Rule, Suppression, Evidence, CorrelationResult, place_of}

-- A match without the plaintext of its value and of its context.
unfoldable pub scrub : Match → Match
scrub m = record m { value_plaintext = none; context_plaintext = none }

unfoldable pub scrub_file : FileEntry → FileEntry
scrub_file entry = record entry { matches = map scrub entry.matches }

module _ (retain_plaintext : Bool) (run_id : String) (staged_paths : Dict String String)
    (root_id : String) where
  row_of-scrub :
      (artifact_id : String) (m : Match)
      → retain_plaintext ≡ false
      → row_of retain_plaintext run_id artifact_id m
        ≡ row_of retain_plaintext run_id artifact_id (scrub m)
  unfolding row_of scrub
  row_of-scrub artifact_id m h = rw h refl

  map-scrub :
      (artifact_id : String) (ms : List Match)
      → retain_plaintext ≡ false
      → map (row_of retain_plaintext run_id artifact_id) ms
        ≡ map (row_of retain_plaintext run_id artifact_id) (map scrub ms)
  map-scrub artifact_id [] h = refl
  map-scrub artifact_id (m ∷ ms) h = cc (row_of-scrub artifact_id m h, map-scrub artifact_id ms h)

  -- A run that did not ask for plaintext keeps nothing of it: its rows are, in every column, those
  -- of the same result without the plaintext of the values and of their contexts.
  pub to_evidence-scrub_file :
      (files : List FileEntry)
      → retain_plaintext ≡ false
      → to_evidence retain_plaintext run_id staged_paths root_id files
        ≡ to_evidence retain_plaintext run_id staged_paths root_id (map scrub_file files)
  unfolding to_evidence scrub_file artifact_of
  to_evidence-scrub_file [] h = refl
  to_evidence-scrub_file (entry ∷ files) h =
      let artifact_id = artifact_of staged_paths root_id entry in
      cc (map-scrub artifact_id entry.matches h, to_evidence-scrub_file files h)

  to_evidence-matches :
      (P : Evidence → Type 0) (files : List FileEntry)
      → All (λ row. P row.evidence) (to_evidence retain_plaintext run_id staged_paths root_id files)
      → All
          (λ entry.
            All
              (λ m.
                P
                  (row_of retain_plaintext run_id
                    (artifact_of staged_paths root_id entry)
                    m).evidence)
              entry.matches)
          files
  unfolding to_evidence
  to_evidence-matches P [] h = tt
  to_evidence-matches P (entry ∷ files) h =
      let row = row_of retain_plaintext run_id (artifact_of staged_paths root_id entry) in
      let (first, rest) =
        All-of_append (λ r. P r.evidence) (map row entry.matches)
          (to_evidence retain_plaintext run_id staged_paths root_id files) h in
      (All-of_map (λ r. P r.evidence) row entry.matches first, to_evidence-matches P files rest)

  module _ (sha256 : String → String) (fnmatch : String → String → Bool)
      (paths : Dict String String) (pack : List Rule) (suppressions : List Suppression)
      (files : List FileEntry) where
    -- The evidence that the scan correlates.
    abbrev pub correlated : List Evidence
    correlated =
        map (λ row. row.evidence) (to_evidence retain_plaintext run_id staged_paths root_id files)

    -- What becomes of a match in a file.
    abbrev pub IsMatchAccounted : CorrelationResult → FileEntry → Match → Type 0
    IsMatchAccounted r entry m =
        (has_rule pack m.rule_id ≡ false)
        ⊎ (is_excused sha256 fnmatch run_id paths correlated pack suppressions
              (row_of retain_plaintext run_id (artifact_of staged_paths root_id entry) m).evidence
            ≡ true)
        ⊎ (is_reported m.rule_id (artifact_of staged_paths root_id entry, m.offset) r.findings
              r.locations
            ≡ true)

    -- From the result of the static analyzer to the findings nothing is lost: the correlation ends,
    -- and each match of each file has a rule that is not enabled, or is suppressed, or has a location
    -- at its offset in the file's artifact, or in the root's if the tree does not know the file.
    pub correlate-IsMatchAccounted :
        Succeeds
          (λ r. All (λ entry. All (IsMatchAccounted r entry) entry.matches) files)
          (correlate sha256 fnmatch run_id paths correlated pack suppressions)
    unfolding row_of place_of
    correlate-IsMatchAccounted =
        let (r, done, accounted) =
          correlate-IsAccounted sha256 fnmatch run_id paths correlated pack suppressions in
        (
          r,
          done,
          to_evidence-matches
              (IsAccounted sha256 fnmatch run_id paths correlated pack suppressions r) files
              (All-of_map (IsAccounted sha256 fnmatch run_id paths correlated pack suppressions r)
                (λ row. row.evidence)
                (to_evidence retain_plaintext run_id staged_paths root_id files) accounted),
        )
