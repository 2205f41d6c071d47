-- ===== src/Correlator.antt =====
-- core/pipeline/correlator.py: evidence becomes findings. The hexadecimal text of `sha256` and
-- the test `fnmatch` are parameters.
pub mod Model
pub mod Clusters
pub mod Coverage
pub mod Reporting
pub mod Clustering
pub mod Sound
pub mod Limits
pub mod Correlation
mod Samples
use bare_binary_analysis.Correlator.Clusters.{cluster_repetitive_rules}
use bare_binary_analysis.Vocab.{rank, severity_value, critical, high, opened, medium, low, info}
use bare_binary_analysis.Correlator.Model.{
  Evidence, Rule, CorrelationResult, Finding, FindingLocation, Suppression, compute_id, path_of,
  first_at, index_rules, place_of, score, index_suppressions, pair_before, sorted_groups,
  is_suppressed,
}
use bare_binary_analysis.Prelude.{
  string_eq, pair_eq, none, some, option_eq, nat_eq, Dict, String, Bool, ℕ, List, if◌then◌else◌,
  ltb, sort_by, ◌==◌, ◌∷◌, Option, [], get, ◌||◌, ◌&&◌, ◌++◌, map, ◌+◌, tally,
}

count_severities : List Finding → Dict String ℕ → Dict String ℕ
count_severities [] counts = counts
count_severities (f ∷ fs) counts = count_severities fs (tally f.severity counts)

pub counts_by_severity : CorrelationResult → Dict String ℕ
counts_by_severity r = count_severities r.findings []

location_at : Dict String String → String → String → Evidence → FindingLocation
location_at paths finding_id run_id e = record {
  finding_id = finding_id;
  run_id = run_id;
  artifact_id = e.artifact_id;
  path_in_tree = path_of paths e.artifact_id;
  offset = e.offset;
  section = e.section;
  encoding = e.encoding;
}

severity_rank : String → ℕ
severity_rank s =
    if s == "critical"
    then rank critical
    else if s == "high"
    then rank high
    else if s == "medium"
    then rank medium
    else if s == "low"
    then rank low
    else if s == "info"
    then rank info
    else 99

-- The key (severity rank, rule id, id).
finding_before : Finding → Finding → Bool
finding_before f g =
    let a = severity_rank f.severity in
    let b = severity_rank g.severity in
    ltb a b || (a == b && pair_before (f.rule_id, f.id) (g.rule_id, g.id))

module _ (sha256 : String → String) where
  -- The finding of one group, whose first piece of evidence is the primary one.
  group_finding : String → Rule → String × String → String → Evidence → List Evidence → Finding
  group_finding run_id rule (rule_id, value_hash) path primary items = record {
    id = compute_id sha256 rule_id value_hash path primary.offset;
    run_id = run_id;
    rule_id = rule_id;
    category = rule.category;
    title = rule.name;
    severity = severity_value rule.severity;
    confidence = score rule items;
    value_masked = primary.value_masked;
    value_hash = value_hash;
    entropy = primary.entropy;
    context_snippet = primary.context_snippet;
    cwe = rule.cwe;
    tags = rule.tags;
    remediation_md = rule.remediation;
    detected_by = "rule";
    status = opened;
  }

  module _ (fnmatch : String → String → Bool) (run_id : String) (paths : Dict String String) where
    -- The finding of a group and its locations, after those that are there.
    pub report_group :
        Rule → String × String → Evidence → List Evidence → CorrelationResult → CorrelationResult
    report_group rule key primary items r =
        let path = path_of paths primary.artifact_id in
        let f = group_finding run_id rule key path primary (primary ∷ items) in
        let places = first_at place_of [] (primary ∷ items) in
        record {
          findings = r.findings ++ f ∷ [];
          locations = r.locations ++ map (location_at paths f.id run_id) places;
          suppressed = r.suppressed;
        }

    -- One turn of the loop over the groups; no group is empty.
    pub on_group :
        Dict String Rule
        → Dict (String × String) (List String)
        → (String × String) × List Evidence
        → CorrelationResult
        → CorrelationResult
    on_group rules index (key, []) r = r
    on_group rules index (key, primary ∷ items) r = elim (get key.0 rules) [
      | none ↦ r
      | some rule ↦
          if is_suppressed fnmatch index key (path_of paths primary.artifact_id)
          then record r { suppressed = r.suppressed + 1 }
          else report_group rule key primary items r
    ]

    pub on_groups :
        Dict String Rule
        → Dict (String × String) (List String)
        → List ((String × String) × List Evidence)
        → CorrelationResult
        → CorrelationResult
    on_groups rules index [] r = r
    on_groups rules index (g ∷ gs) r = on_groups rules index gs (on_group rules index g r)

    sort_findings : CorrelationResult → CorrelationResult
    sort_findings r = record r { findings = sort_by finding_before r.findings }

    -- `none` is the KeyError of `_cluster_repetitive_rules`.
    pub correlate : List Evidence → List Rule → List Suppression → Option CorrelationResult
    correlate evidence pack suppressions =
        let rules = index_rules pack in
        let index = index_suppressions suppressions in
        let start : CorrelationResult = record { findings = []; locations = []; suppressed = 0 } in
        elim (cluster_repetitive_rules sha256 run_id rules
          (on_groups rules index (sorted_groups evidence) start)) [
            | none ↦ none
            | some r ↦ some (sort_findings r)
          ]
