-- ===== src/Scan/Samples.antt =====
-- A run that two workers are given, and a scan whose tree is truncated.
use bare_binary_analysis.Scan.Specs.{Limits}
use bare_binary_analysis.Correlator.{correlate}
use bare_binary_analysis.Scan.Reports.{
  IsMatchAccounted, correlated, scrub_file, to_evidence-scrub_file, correlate-IsMatchAccounted,
}
use bare_binary_analysis.Scan.Rows.{FileEntry, Match, to_evidence}
use bare_binary_analysis.Correlator.Model.{Rule}
use bare_binary_analysis.Vocab.{high}
use bare_binary_analysis.Prelude.{All, Bool, Dict, Succeeds, ◌==◌, map}
use bare_binary_analysis.Scan.Endings.{is_clean, scan_stages, conclude-completed}
use bare_binary_analysis.Scan.Claims.{claims, claims-count}
use bare_binary_analysis.Stages.{degraded_stages, describe_degraded, counts_as_degraded}
use bare_binary_analysis.Scan.{
  ScanRun, SandboxStatus, conclude, SandboxResult, UnpackPayload, claim, or_no_payload, claim_rows,
  is_zero, is_claimable, is_queued, start, finish_unpack, finish_static, record_stage, new_stage,
  stage_status, as_run_stage,
}
use bare_binary_analysis.Vocab.{RunStatus, is_degraded, stage_status_value}
use bare_binary_analysis.Prelude.{
  string_eq, none, some, true, false, refl, List, Option, String, count_where, ℕ, ◌∷◌, [], pos, ◌≡◌,
  if◌then◌else◌, truthy, ◌&&◌, ltb, select, sort_by, insert_by, contains, fstring, join, take_text,
}

abbrev queued_run : String → ScanRun
queued_run id = record {
  id = id;
  status = RunStatus.queued;
  started_at = none;
  finished_at = none;
  error = none;
}

abbrev table : List ScanRun
table = queued_run "r1" ∷ queued_run "r2" ∷ []

abbrev times : List ℕ
times = 10 ∷ 11 ∷ 12 ∷ []

program : Unit {0}
unfolding claims claim claim_rows is_claimable is_queued start count_where conclude scan_stages
    finish_unpack finish_static record_stage new_stage or_no_payload stage_status is_zero
    as_run_stage degraded_stages describe_degraded counts_as_degraded select sort_by insert_by
    contains is_degraded stage_status_value fstring join take_text
program = tt

told : claims times "r2" table ≡ true ∷ false ∷ false ∷ []
unfolding program
told = refl

claims-count_example :
    count_where (λ b. b) (claims times "r2" table)
    ≡ (if truthy times && ltb 0 (count_where (is_claimable "r2") table) then 1 else 0)
claims-count_example = claims-count times "r2" table

abbrev exited : ℕ → SandboxResult
exited code = record {
  status = SandboxStatus.completed;
  exit_code = some (pos code);
  image_digest = none;
}

abbrev partial_tree : Option UnpackPayload
partial_tree = some (record { nodes = 3; truncated = true })

described :
    (conclude 9 (scan_stages "r1" (exited 0) partial_tree (exited 1) 0) (queued_run "r1")).error
    ≡ some "static (failed); unpack (truncated)"
unfolding program
described = refl

-- An unpack analyzer that leaves no readable result and exits with 0 counts as finished.
unreadable_result :
    (conclude 9 (scan_stages "r1" (exited 0) none (exited 0) 0) (queued_run "r1")).status
    ≡ RunStatus.completed
unfolding program
unreadable_result = refl

conclude-completed_example :
    (conclude 9 (scan_stages "r1" (exited 0) partial_tree (exited 0) 5) (queued_run "r1")).status
    ≡ RunStatus.degraded
unfolding is_clean or_no_payload is_zero
conclude-completed_example =
    conclude-completed 9 (queued_run "r1") (exited 0) (exited 0) partial_tree 5

abbrev match_at : String → ℕ → Match
match_at rule_id offset = record {
  rule_id = rule_id;
  value_hash = "h1";
  value_masked = "AK****";
  value_plaintext = some "AKIA0000";
  offset = some offset;
  encoding = some "ascii";
  entropy = some 3900;
  context = none;
  context_plaintext = some "key = AKIA0000";
}

-- A file of the tree, and one that the tree does not know.
abbrev scanned_files : List FileEntry
scanned_files =
    record { relative_path = "extracted/a"; matches = match_at "cloud" 7 ∷ [] }
    ∷ record { relative_path = "extracted/b"; matches = match_at "retired" 9 ∷ [] }
    ∷ []

abbrev staged : Dict String String
staged = ("extracted/a", "id_a") ∷ ("root/setup.exe", "id_root") ∷ []

abbrev cloud_rule : Rule
cloud_rule = record {
  id = "cloud";
  name = "Cloud key";
  category = "credential";
  severity = high;
  confidence = 800;
  min_entropy = 0;
  cwe = none;
  tags = [];
  remediation = "";
  enabled = true;
}

abbrev same_text : String → String → Bool
same_text s t = s == t

abbrev identity_hash : String → String
identity_hash s = s

to_evidence-scrub_file_example :
    to_evidence false "r1" staged "id_root" scanned_files
    ≡ to_evidence false "r1" staged "id_root" (map scrub_file scanned_files)
to_evidence-scrub_file_example =
    to_evidence-scrub_file false "r1" staged "id_root" scanned_files refl

correlate-IsMatchAccounted_example :
    Succeeds
      (λ r.
        All
          (λ entry.
            All
              (IsMatchAccounted false "r1" staged "id_root" identity_hash same_text []
                (cloud_rule ∷ [])
                []
                scanned_files
                r
                entry)
              entry.matches)
          scanned_files)
      (correlate identity_hash same_text "r1" []
        (correlated false "r1" staged "id_root" identity_hash same_text []
          (cloud_rule ∷ [])
          []
          scanned_files)
        (cloud_rule ∷ [])
        [])
correlate-IsMatchAccounted_example =
    correlate-IsMatchAccounted false "r1" staged "id_root" identity_hash same_text []
      (cloud_rule ∷ []) [] scanned_files

abbrev small : Limits
small = record { analyzer_memory_gb = 500; analyzer_cpus = 4000 }
