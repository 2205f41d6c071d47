-- ===== src/Correlator/Samples.antt =====
-- A key in three files, a retired rule and a suppressed value, and the theorems at them.
use bare_binary_analysis.Vocab.{severity_value, rank}
use bare_binary_analysis.Correlator.Clusters.{
  moved_to, locations_of, locations_of_all, id_before, max_confidence, cluster_threshold,
  anchor_path, rule_group_before, cluster_finding, cluster, cluster_rule, cluster_rules,
  cluster_repetitive_rules,
}
use bare_binary_analysis.Correlator.Limits.{is_of}
use bare_binary_analysis.Correlator.Sound.{IsSound}
use bare_binary_analysis.Correlator.Correlation.{
  IsAccounted, correlate-IsAccounted, correlate-IsSound, correlate-count,
}
use bare_binary_analysis.Correlator.{
  correlate, high, location_at, severity_rank, finding_before, group_finding, report_group,
  on_group, on_groups, sort_findings,
}
use bare_binary_analysis.Correlator.Model.{
  Rule, Suppression, Evidence, CorrelationResult, index_rules, rule_before, enabled_rules,
  index_into, or_empty, value_key, pair_before, evidence_before, group_before, sorted_groups,
  index_suppressions_into, index_suppressions, is_suppressed, entropies, maximum, is_wide,
  entropy_gain, entropy_loss, score, place_of, location_place, first_at, path_of, compute_id,
}
use bare_binary_analysis.Prelude.{
  string_eq, pair_eq, option_eq, nat_eq, none, some, refl, Dict, List, Option, String, Succeeds, ℕ,
  ◌≡◌, All, Bool, [], count_where, true, ◌∷◌, false, length, suc, ◌==◌, map, show, ◌≤◌, zero,
  any_of, contains, select, sort_by, insert_by, get, put, append_at, group_into, group_by,
  take_text, join, fstring, take,
}

abbrev rule_named : String → Bool → Rule
rule_named id enabled = record {
  id = id;
  name = "Cloud key";
  category = "credential";
  severity = high;
  confidence = 850;
  min_entropy = 0;
  cwe = some "CWE-798";
  tags = [];
  remediation = "Rotate it.";
  enabled = enabled;
}

abbrev seen_at : String → String → String → Option ℕ → Evidence
seen_at rule_id value_hash artifact_id offset = record {
  artifact_id = artifact_id;
  rule_id = rule_id;
  value_hash = value_hash;
  value_masked = "AK****";
  offset = offset;
  section = none;
  encoding = some "utf-16le";
  entropy = some 4700;
  context_snippet = none;
}

abbrev pack : List Rule
pack = rule_named "cloud" true ∷ rule_named "retired" false ∷ []

abbrev evidence : List Evidence
evidence =
    seen_at "cloud" "h1" "b" (some 7)
    ∷ seen_at "cloud" "h1" "a" none
    ∷ seen_at "retired" "h1" "a" (some 3)
    ∷ seen_at "cloud" "h2" "a" (some 9)
    ∷ seen_at "cloud" "h1" "b" (some 7)
    ∷ []

abbrev suppressions : List Suppression
suppressions = record { value_hash = "h2"; rule_id = "cloud"; path_pattern = "*" } ∷ []

abbrev paths : Dict String String
paths = ("a", "setup.exe") ∷ ("b", "setup.exe -> app.7z") ∷ []

abbrev identity_hash : String → String
identity_hash s = s

abbrev same_text : String → String → Bool
same_text s t = s == t

abbrev outcome : Option CorrelationResult
outcome = correlate identity_hash same_text "run" paths evidence pack suppressions

summary : Option CorrelationResult → Option (ℕ × ℕ × ℕ × List ℕ)
summary none = none
summary (some r) =
    some (length r.findings, length r.locations, r.suppressed, map (λ f. f.confidence) r.findings)

many : ℕ → List Evidence
many zero = []
many (suc n) = seen_at "cloud" (show n) "a" (some n) ∷ many n

program : Unit {0}
unfolding rule_before enabled_rules index_into index_rules or_empty value_key pair_before
    evidence_before group_before sorted_groups index_suppressions_into index_suppressions
    is_suppressed entropies maximum is_wide entropy_gain entropy_loss score place_of location_place
    first_at path_of compute_id moved_to locations_of locations_of_all id_before max_confidence
    cluster_threshold anchor_path rule_group_before cluster_finding cluster cluster_rule
    cluster_rules cluster_repetitive_rules location_at severity_rank finding_before group_finding
    report_group on_group on_groups sort_findings correlate any_of contains count_where select
    sort_by insert_by get put append_at group_into group_by take_text join fstring show take summary
    many severity_value rank
program = tt

-- One finding of the three of `h1`, in two places: 0.85 and 0.15, 0.05 and 0.05 make 0.99 at most.
summary_test : summary outcome ≡ some (1, 2, 1, 990 ∷ [])
unfolding program
summary_test = refl

-- The 21 values of one rule become one finding that keeps the 21 places.
clustered_test :
    summary (correlate identity_hash same_text "run" paths (many 21) pack [])
    ≡ some (1, 21, 0, 990 ∷ [])
unfolding program
clustered_test = refl

separate_test :
    summary (correlate identity_hash same_text "run" paths (many 2) pack [])
    ≡ some (2, 2, 0, 990 ∷ 990 ∷ [])
unfolding program
separate_test = refl

correlate-IsAccounted_example :
    Succeeds
      (λ r.
        All (IsAccounted identity_hash same_text "run" paths evidence pack suppressions r) evidence)
      outcome
correlate-IsAccounted_example =
    correlate-IsAccounted identity_hash same_text "run" paths evidence pack suppressions

correlate-IsSound_example : Succeeds (λ r. All (IsSound (index_rules pack)) r.findings) outcome
correlate-IsSound_example =
    correlate-IsSound identity_hash same_text "run" paths evidence pack suppressions

correlate-count_example :
    Succeeds
      (λ r. count_where (is_of "cloud") r.findings ≤ 20)
      (correlate identity_hash same_text "run" paths (many 21) pack [])
correlate-count_example =
    correlate-count identity_hash same_text "run" paths (many 21) pack [] "cloud"
