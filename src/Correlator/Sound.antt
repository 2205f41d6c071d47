-- ===== src/Correlator/Sound.antt =====
-- Every finding has what its rule says, and a confidence between 0.05 and 0.99.
use bare_binary_analysis.Correlator.Reporting.{on_group-cases}
use bare_binary_analysis.Correlator.{on_group, on_groups, report_group, group_finding}
use bare_binary_analysis.Vocab.{severity_value}
use bare_binary_analysis.Correlator.Clusters.{
  cluster, cluster_rule, cluster_rules, max_confidence, cluster_finding, cluster_threshold,
  locations_of_all, id_before, cluster_repetitive_rules, rule_group_before,
}
use bare_binary_analysis.Correlator.Model.{
  Finding, FindingLocation, Rule, Evidence, score, CorrelationResult, path_of,
}
use bare_binary_analysis.Prelude.{
  string_eq, pair_eq, option_eq, nat_eq, none, some, inl, inr, refl, Dict, List, String, get, ◌≤◌,
  All, arith, ◌≡◌, length, subst, ◌∷◌, Option-cases, [], sym, sort_by, ◌++◌, ◌⊎◌, All-append,
  All-sort_by, Bool-cases, leb, Bool, group_by, group_by-All,
}

pub record IsSound (rules : Dict String Rule) (f : Finding) : Type 0 where
  pub rule : Rule
  pub known : get f.rule_id rules ≡ some rule
  pub severity : f.severity ≡ severity_value rule.severity
  pub category : f.category ≡ rule.category
  pub cwe : f.cwe ≡ rule.cwe
  pub remediation : f.remediation_md ≡ rule.remediation
  pub source : f.detected_by ≡ "rule"
  pub low : 50 ≤ f.confidence
  pub high : f.confidence ≤ 990

score-bounds :
    (rule : Rule) (items : List Evidence) → (50 ≤ score rule items) × (score rule items ≤ 990)
unfolding score
score-bounds rule items = (ground arith, ground arith)

module _ (sha256 : String → String) (run_id : String) (rules : Dict String Rule)
    (ls : List FindingLocation) where
  -- The two results for one rule.
  pub cluster_rule-result :
      (rule_id : String) (fs : List Finding) (more : List Finding × List FindingLocation)
      → cluster_rule sha256 run_id rules ls (rule_id, fs) ≡ some more
      → ((length fs ≤ 20) × (more ≡ (fs, locations_of_all ls fs)))
        ⊎ ((rule : Rule) × (get rule_id rules ≡ some rule)
            × (more ≡ cluster sha256 run_id rule rule_id ls (sort_by id_before fs)))
  unfolding cluster_rule cluster_threshold
  cluster_rule-result rule_id fs more h = elim (Bool-cases (leb (length fs) 20)) [
    | inl t ↦
        let same : some (fs, locations_of_all ls fs) ≡ some more = rw (t, cluster_rule) at h in
        inl (ground arith, ground arith)
    | inr t ↦ elim (Option-cases (get rule_id rules)) [
      | inl u ↦
          let failed : none ≡ some more = rw (t, u, cluster_rule) at h in absurd (ground arith)
      | inr (rule, u) ↦
          let same : some (cluster sha256 run_id rule rule_id ls (sort_by id_before fs))
              ≡ some more =
            rw (t, u, cluster_rule) at h in
          inr (rule, u, ground arith)
    ]
  ]

  max_confidence-bounds :
      (f : Finding) (fs : List Finding)
      → All (IsSound rules) (f ∷ fs)
      → (50 ≤ max_confidence (f ∷ fs)) × (max_confidence (f ∷ fs) ≤ 990)
  unfolding max_confidence
  max_confidence-bounds f [] h =
      let low = h.0.low in let high = h.0.high in (omega arith, omega arith)
  max_confidence-bounds f (g ∷ gs) h =
      let low = h.0.low in
      let high = h.0.high in
      let (rest_low, rest_high) = max_confidence-bounds g gs h.1 in (omega arith, omega arith)

  cluster-IsSound :
      (rule : Rule) (rule_id : String) (fs : List Finding)
      → get rule_id rules ≡ some rule
      → All (IsSound rules) fs
      → All (IsSound rules) (cluster sha256 run_id rule rule_id ls fs).0
  unfolding cluster cluster_finding
  cluster-IsSound rule rule_id [] known h = tt
  cluster-IsSound rule rule_id (f ∷ fs) known h =
      let (low, high) = max_confidence-bounds f fs h in
      (
        record {
          rule = rule;
          known = known;
          severity = refl;
          category = refl;
          cwe = refl;
          remediation = refl;
          source = refl;
          low = low;
          high = high;
        },
        tt,
      )

  cluster_rule-IsSound :
      (rule_id : String) (fs : List Finding) (more : List Finding × List FindingLocation)
      → cluster_rule sha256 run_id rules ls (rule_id, fs) ≡ some more
      → All (IsSound rules) fs
      → All (IsSound rules) more.0
  cluster_rule-IsSound rule_id fs more h sound = elim (cluster_rule-result rule_id fs more h) [
    | inl (few, same) ↦ subst (λ m. All (IsSound rules) m.0) (sym same) sound
    | inr (rule, known, same) ↦
        subst (λ m. All (IsSound rules) m.0) (sym same)
          (cluster-IsSound rule rule_id (sort_by id_before fs) known
            (All-sort_by id_before (IsSound rules) fs sound))
  ]

  pub cluster_rules-IsSound :
      (gs : List (String × List Finding)) (kept new : List Finding × List FindingLocation)
      → cluster_rules sha256 run_id rules ls gs kept ≡ some new
      → All (IsSound rules) kept.0
      → All (λ g. All (IsSound rules) g.1) gs
      → All (IsSound rules) new.0
  unfolding cluster_rules
  cluster_rules-IsSound [] kept new h sound rest =
      let same : kept ≡ new = ground arith in subst (λ m. All (IsSound rules) m.0) same sound
  cluster_rules-IsSound ((rule_id, fs) ∷ gs) kept new h sound rest =
      elim (Option-cases (cluster_rule sha256 run_id rules ls (rule_id, fs))) [
        | inl t ↦ let failed : none ≡ some new = rw (t, cluster_rules) at h in absurd (ground arith)
        | inr (more, t) ↦
            let later : cluster_rules sha256 run_id rules ls gs (kept.0 ++ more.0, kept.1 ++ more.1)
                ≡ some new =
              rw (t, cluster_rules) at h in
            cluster_rules-IsSound gs (kept.0 ++ more.0, kept.1 ++ more.1) new later
              (All-append (IsSound rules) kept.0 more.0 sound
                (cluster_rule-IsSound rule_id fs more t rest.0))
              rest.1
      ]

-- The clustering keeps the findings sound.
pub cluster_repetitive_rules-IsSound :
    (sha256 : String → String) (run_id : String) (rules : Dict String Rule)
    (r new : CorrelationResult)
    → cluster_repetitive_rules sha256 run_id rules r ≡ some new
    → All (IsSound rules) r.findings
    → All (IsSound rules) new.findings
unfolding cluster_repetitive_rules
cluster_repetitive_rules-IsSound sha256 run_id rules r new h sound =
    let groups = sort_by rule_group_before (group_by (λ f. f.rule_id) r.findings) in
    let sorted =
      All-sort_by rule_group_before (λ g. All (IsSound rules) g.1)
        (group_by (λ f. f.rule_id) r.findings)
        (group_by-All (λ f. f.rule_id) (λ k f. IsSound rules f) r.findings sound) in
    elim (Option-cases (cluster_rules sha256 run_id rules r.locations groups ([], []))) [
      | inl t ↦
          let failed : none ≡ some new = rw (t, cluster_repetitive_rules) at h in
          absurd (ground arith)
      | inr (kept, t) ↦
          let same : some (record r { findings = kept.0; locations = kept.1 }) ≡ some new =
            rw (t, cluster_repetitive_rules) at h in
          let found : new.findings ≡ kept.0 = ground arith in
          subst (All (IsSound rules)) (sym found)
            (cluster_rules-IsSound sha256 run_id rules r.locations groups ([], []) kept t tt sorted)
    ]

module _ (sha256 : String → String) (fnmatch : String → String → Bool) (run_id : String)
    (paths : Dict String String) (rules : Dict String Rule)
    (index : Dict (String × String) (List String)) where
  on_group-IsSound :
      (g : (String × String) × List Evidence) (r : CorrelationResult)
      → All (IsSound rules) r.findings
      → All (IsSound rules) (on_group sha256 fnmatch run_id paths rules index g r).findings
  unfolding on_group report_group group_finding
  on_group-IsSound (key, []) r h = h
  on_group-IsSound (key, primary ∷ items) r h =
      elim (on_group-cases sha256 fnmatch run_id paths rules index key primary items r) [
        | inl (t, same) ↦ subst (λ s. All (IsSound rules) s.findings) (sym same) h
        | inr (inl (t, same)) ↦ subst (λ s. All (IsSound rules) s.findings) (sym same) h
        | inr (inr (rule, t, same)) ↦
            let (low, high) = score-bounds rule (primary ∷ items) in
            let sound : IsSound rules (
                group_finding sha256 run_id rule key (path_of paths primary.artifact_id) primary
                  (primary ∷ items)) =
              record {
                rule = rule;
                known = t;
                severity = refl;
                category = refl;
                cwe = refl;
                remediation = refl;
                source = refl;
                low = low;
                high = high;
              } in
            subst (λ s. All (IsSound rules) s.findings) (sym same)
              (All-append (IsSound rules) r.findings _ h (sound, tt))
      ]

  pub on_groups-IsSound :
      (gs : List ((String × String) × List Evidence)) (r : CorrelationResult)
      → All (IsSound rules) r.findings
      → All (IsSound rules) (on_groups sha256 fnmatch run_id paths rules index gs r).findings
  unfolding on_groups
  on_groups-IsSound [] r h = h
  on_groups-IsSound (g ∷ gs) r h =
      on_groups-IsSound gs (on_group sha256 fnmatch run_id paths rules index g r)
        (on_group-IsSound g r h)
