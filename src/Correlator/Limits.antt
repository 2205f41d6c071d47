-- ===== src/Correlator/Limits.antt =====
-- No rule has more findings than the threshold of the clustering.
use bare_binary_analysis.Correlator.Sound.{cluster_rule-result}
use bare_binary_analysis.Correlator.Clusters.{
  cluster_repetitive_rules, cluster, cluster_rule, cluster_rules, cluster_finding,
  rule_group_before, id_before,
}
use bare_binary_analysis.Correlator.Model.{Finding, FindingLocation, Rule, CorrelationResult}
use bare_binary_analysis.Prelude.{
  string_eq, none, some, inl, inr, refl, String, count_where, Bool, Dict, List, All, ◌==◌, ◌≡◌,
  length, ◌≤◌, arith, group_by, if◌then◌else◌, ◌+◌, sort_by, subst, ◌*◌, ◌∷◌, Option-cases, [], ap,
  sym, All-sort_by, Bool-cases, ◌++◌, count_where-append, group_by-filed, count_where-sort_by,
  count_keys-group_by,
}

pub is_of : String → Finding → Bool
is_of rule_id f = f.rule_id == rule_id

count_own :
    (rule_id k : String) (fs : List Finding)
    → All (λ f. f.rule_id ≡ rule_id) fs
    → count_where (is_of k) fs ≤ (if rule_id == k then length fs else 0)
unfolding count_where is_of
count_own rule_id k [] h = ground arith
count_own rule_id k (f ∷ fs) h =
    let same : (f.rule_id == k) ≡ (rule_id == k) = ap (λ i. i == k) h.0 in
    let rest = count_own rule_id k fs h.1 in
    elim (Bool-cases (rule_id == k)) [
      | inl t ↦
          let le : count_where (is_of k) fs ≤ length fs = rw t at rest in rw (same, t) (omega arith)
      | inr t ↦ let le : count_where (is_of k) fs ≤ 0 = rw t at rest in rw (same, t) (omega arith)
    ]

module _ (sha256 : String → String) (run_id : String) (rules : Dict String Rule)
    (ls : List FindingLocation) where
  cluster-few :
      (rule : Rule) (rule_id : String) (fs : List Finding)
      → (length (cluster sha256 run_id rule rule_id ls fs).0 ≤ 20)
        × All (λ f. f.rule_id ≡ rule_id) (cluster sha256 run_id rule rule_id ls fs).0
  unfolding cluster cluster_finding
  cluster-few rule rule_id [] = (ground arith, tt)
  cluster-few rule rule_id (f ∷ fs) = (ground arith, (refl, tt))

  cluster_rule-few :
      (rule_id : String) (fs : List Finding) (more : List Finding × List FindingLocation)
      → cluster_rule sha256 run_id rules ls (rule_id, fs) ≡ some more
      → All (λ f. f.rule_id ≡ rule_id) fs
      → (length more.0 ≤ 20) × All (λ f. f.rule_id ≡ rule_id) more.0
  cluster_rule-few rule_id fs more h own =
      let Few : List Finding × List FindingLocation → Type 0 =
        λ m. (length m.0 ≤ 20) × All (λ f. f.rule_id ≡ rule_id) m.0 in
      elim (cluster_rule-result sha256 run_id rules ls rule_id fs more h) [
        | inl (few, same) ↦ subst Few (sym same) (few, own)
        | inr (rule, known, same) ↦
            subst Few (sym same) (cluster-few rule rule_id (sort_by id_before fs))
      ]

  cluster_rules-count :
      (k : String) (gs : List (String × List Finding))
      (kept new : List Finding × List FindingLocation)
      → cluster_rules sha256 run_id rules ls gs kept ≡ some new
      → All (λ g. All (λ f. f.rule_id ≡ g.0) g.1) gs
      → count_where (is_of k) new.0
        ≤ count_where (is_of k) kept.0 + 20 * count_where (λ g. g.0 == k) gs
  unfolding cluster_rules count_where
  cluster_rules-count k [] kept new h own =
      let same : kept ≡ new = ground arith in rw same (omega arith)
  cluster_rules-count k ((rule_id, fs) ∷ gs) kept new h own =
      elim (Option-cases (cluster_rule sha256 run_id rules ls (rule_id, fs))) [
        | inl t ↦ let failed : none ≡ some new = rw (t, cluster_rules) at h in absurd (ground arith)
        | inr (more, t) ↦
            let later : cluster_rules sha256 run_id rules ls gs (kept.0 ++ more.0, kept.1 ++ more.1)
                ≡ some new =
              rw (t, cluster_rules) at h in
            let (few, mine) = cluster_rule-few rule_id fs more t own.0 in
            let rest =
              cluster_rules-count k gs (kept.0 ++ more.0, kept.1 ++ more.1) new later own.1 in
            let more_count = count_own rule_id k more.0 mine in
            let sum = count_where-append (is_of k) kept.0 more.0 in
            elim (Bool-cases (rule_id == k)) [
              | inl u ↦
                  let le : count_where (is_of k) more.0 ≤ length more.0 = rw u at more_count in
                  rw u (omega arith)
              | inr u ↦
                  let le : count_where (is_of k) more.0 ≤ 0 = rw u at more_count in
                  rw u (omega arith)
            ]
      ]

-- A rule has at most 20 findings after the clustering.
pub cluster_repetitive_rules-count :
    (sha256 : String → String) (run_id : String) (rules : Dict String Rule)
    (r new : CorrelationResult) (k : String)
    → cluster_repetitive_rules sha256 run_id rules r ≡ some new
    → count_where (is_of k) new.findings ≤ 20
unfolding cluster_repetitive_rules count_where
cluster_repetitive_rules-count sha256 run_id rules r new k h =
    let by_rule = group_by (λ f. f.rule_id) r.findings in
    let groups = sort_by rule_group_before by_rule in
    let own =
      All-sort_by rule_group_before (λ g. All (λ f. f.rule_id ≡ g.0) g.1) by_rule
        (group_by-filed (λ f. f.rule_id) r.findings) in
    elim (Option-cases (cluster_rules sha256 run_id rules r.locations groups ([], []))) [
      | inl t ↦
          let failed : none ≡ some new = rw (t, cluster_repetitive_rules) at h in
          absurd (ground arith)
      | inr (kept, t) ↦
          let same : some (record r { findings = kept.0; locations = kept.1 }) ≡ some new =
            rw (t, cluster_repetitive_rules) at h in
          let found : new.findings ≡ kept.0 = ground arith in
          let bound =
            cluster_rules-count sha256 run_id rules r.locations k groups ([], []) kept t own in
          let sorted = count_where-sort_by rule_group_before (λ g. g.0 == k) by_rule in
          let one = count_keys-group_by (λ f. f.rule_id) k r.findings in rw found (omega arith)
    ]
