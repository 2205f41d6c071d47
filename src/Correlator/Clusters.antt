-- ===== src/Correlator/Clusters.antt =====
-- core/pipeline/correlator.py: `_cluster_repetitive_rules`.
use bare_binary_analysis.Vocab.{severity_value, opened}
use bare_binary_analysis.Correlator.Model.{
  Rule, CorrelationResult, Finding, FindingLocation, first_at, location_place, compute_id,
}
use bare_binary_analysis.Prelude.{
  string_eq, pair_eq, option_eq, nat_eq, List, String, ℕ, Dict, Bool, Option, or_nil, ◌∷◌, [], get,
  if◌then◌else◌, join, max, some, sort_by, str_lt, ◌++◌, group_by, leb, map, fstring, length, take,
  show, none,
}

unfoldable pub moved_to : String → String → FindingLocation → FindingLocation
moved_to finding_id run_id l = record l { finding_id = finding_id; run_id = run_id }

unfoldable pub locations_of : List FindingLocation → String → List FindingLocation
locations_of ls id = or_nil (get id (group_by (λ l. l.finding_id) ls))

-- The locations of the findings, in the order of the findings.
unfoldable pub locations_of_all : List FindingLocation → List Finding → List FindingLocation
locations_of_all ls [] = []
locations_of_all ls (f ∷ fs) = locations_of ls f.id ++ locations_of_all ls fs

unfoldable pub id_before : Finding → Finding → Bool
id_before f g = str_lt f.id g.id

unfoldable pub max_confidence : List Finding → ℕ
max_confidence [] = 0
max_confidence (f ∷ fs) = max f.confidence (max_confidence fs)

unfoldable pub cluster_threshold : ℕ
cluster_threshold = 20

unfoldable pub anchor_path : List FindingLocation → String
anchor_path [] = ""
anchor_path (l ∷ ls) = l.path_in_tree

unfoldable pub rule_group_before : String × List Finding → String × List Finding → Bool
rule_group_before g h = str_lt g.0 h.0

module _ (sha256 : String → String) where
  -- The findings of one rule as one, given in the order of their ids.
  unfoldable pub cluster_finding :
      String → Rule → String → List FindingLocation → Finding → List Finding → Finding
  cluster_finding run_id rule rule_id ls anchor rest =
      let ordered = anchor ∷ rest in
      let hashes = join "," (map (λ f. f.value_hash) ordered) in
      let cluster_hash = sha256 (fstring ("cluster:" ∷ rule_id ∷ ":" ∷ hashes ∷ [])) in
      let samples = join ", " (map (λ f. f.value_masked) (take 3 ordered)) in
      let count = show (length ordered) in
      record {
        id = compute_id sha256 rule_id cluster_hash (anchor_path (locations_of ls anchor.id)) none;
        run_id = run_id;
        rule_id = rule_id;
        category = rule.category;
        title = fstring (rule.name ∷ " (" ∷ count ∷ " distinct values)" ∷ []);
        severity = severity_value rule.severity;
        confidence = max_confidence ordered;
        value_masked = fstring (count ∷ " values, e.g. " ∷ samples ∷ []);
        value_hash = cluster_hash;
        entropy = anchor.entropy;
        context_snippet = anchor.context_snippet;
        cwe = rule.cwe;
        tags = rule.tags ++ "clustered" ∷ [];
        remediation_md = rule.remediation;
        detected_by = "rule";
        status = opened;
      }

  -- The cluster and its locations; `ordered[0]` is there, since a cluster has over 20 findings.
  unfoldable pub cluster :
      String
      → Rule
      → String
      → List FindingLocation
      → List Finding
      → List Finding × List FindingLocation
  cluster run_id rule rule_id ls [] = ([], [])
  cluster run_id rule rule_id ls (anchor ∷ rest) =
      let f = cluster_finding run_id rule rule_id ls anchor rest in
      let places = first_at location_place [] (locations_of_all ls (anchor ∷ rest)) in
      (f ∷ [], map (moved_to f.id run_id) places)

  -- What one rule's findings become; `none` is the KeyError of a rule that is not there.
  unfoldable pub cluster_rule :
      String
      → Dict String Rule
      → List FindingLocation
      → String × List Finding
      → Option (List Finding × List FindingLocation)
  cluster_rule run_id rules ls (rule_id, fs) =
      if leb (length fs) cluster_threshold
      then some (fs, locations_of_all ls fs)
      else elim (get rule_id rules) [
        | none ↦ none
        | some rule ↦ some (cluster run_id rule rule_id ls (sort_by id_before fs))
      ]

  -- The rules in turn, with what is kept so far.
  unfoldable pub cluster_rules :
      String
      → Dict String Rule
      → List FindingLocation
      → List (String × List Finding)
      → List Finding × List FindingLocation
      → Option (List Finding × List FindingLocation)
  cluster_rules run_id rules ls [] kept = some kept
  cluster_rules run_id rules ls (g ∷ gs) kept = elim (cluster_rule run_id rules ls g) [
    | none ↦ none
    | some more ↦ cluster_rules run_id rules ls gs (kept.0 ++ more.0, kept.1 ++ more.1)
  ]

  -- `_cluster_repetitive_rules`
  unfoldable pub cluster_repetitive_rules :
      String → Dict String Rule → CorrelationResult → Option CorrelationResult
  cluster_repetitive_rules run_id rules r =
      elim (cluster_rules run_id rules r.locations
        (sort_by rule_group_before (group_by (λ f. f.rule_id) r.findings)) ([], [])) [
          | none ↦ none
          | some kept ↦ some (record r { findings = kept.0; locations = kept.1 })
        ]
