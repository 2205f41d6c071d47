-- ===== src/Correlator/Clustering.antt =====
-- The clustering of a rule's findings: it always ends with a result, and keeps every place.
use bare_binary_analysis.Correlator.Coverage.{
  is_location, is_reported, is_reported-one, has_location, has_location-parts, is_location-place,
  is_reported-append, any_of-placed, is_reported-appended, Known,
}
use bare_binary_analysis.Correlator.Model.{
  Finding, FindingLocation, Rule, location_place, first_at, CorrelationResult,
}
use bare_binary_analysis.Correlator.Clusters.{
  locations_of, locations_of_all, cluster, cluster_finding, moved_to, cluster_rule, cluster_rules,
  id_before, cluster_threshold, cluster_repetitive_rules, rule_group_before,
}
use bare_binary_analysis.Prelude.{
  string_eq, pair_eq, option_eq, nat_eq, some, inl, inr, refl, String, List, Option, ℕ, any_of, ◌≡◌,
  true, any_of_mono, ◌∷◌, Bool-cases, ◌==◌, arith, map, ◌&&◌, get-group_by, [], any_of-select, Dict,
  get, holds_at, All, sort_by, ◌⊎◌, ◌++◌, any_of-sort_by, leb, length, ◌∙◌, subst, sym, group_by,
  All-sort_by, group_by-All_keys, holds_at-group_by,
}

locations_of-location :
    (ls : List FindingLocation) (id : String) (p : String × Option ℕ)
    → any_of (is_location id p) ls ≡ true
    → any_of (is_location id p) (locations_of ls id) ≡ true
unfolding locations_of is_location
locations_of-location ls id p h =
    let own =
      any_of_mono (is_location id p) (λ l. l.finding_id == id && is_location id p l) ls
        (λ l k. ground arith) h in
    rw
      (
        get-group_by (λ l. l.finding_id) id ls,
        any_of-select (is_location id p) (λ l. l.finding_id == id) ls,
      )
      own

module _ (rule_id : String) (p : String × Option ℕ) where
  locations_of_all-reported :
      (ls : List FindingLocation) (fs : List Finding)
      → is_reported rule_id p fs ls ≡ true
      → is_reported rule_id p fs (locations_of_all ls fs) ≡ true
  unfolding locations_of_all is_reported any_of
  locations_of_all-reported ls [] h = h
  locations_of_all-reported ls (f ∷ fs) h = elim (Bool-cases (has_location rule_id p ls f)) [
    | inl t ↦
        let (same, there) = has_location-parts rule_id p ls f t in
        is_reported-append rule_id p (f ∷ []) fs (locations_of ls f.id) (locations_of_all ls fs) (
          is_reported-one rule_id p f (locations_of ls f.id) same
            (locations_of-location ls f.id p there))
    | inr t ↦
        is_reported-appended rule_id p (f ∷ []) fs (locations_of ls f.id) (locations_of_all ls fs)
          (locations_of_all-reported ls fs (rw t at h))
  ]

  is_reported-place :
      (fs : List Finding) (ls : List FindingLocation)
      → is_reported rule_id p fs ls ≡ true
      → any_of (λ l. location_place l == p) ls ≡ true
  unfolding is_reported any_of
  is_reported-place [] ls h = absurd (ground arith)
  is_reported-place (f ∷ fs) ls h = elim (Bool-cases (has_location rule_id p ls f)) [
    | inl t ↦
        let (same, there) = has_location-parts rule_id p ls f t in
        any_of_mono (is_location f.id p) (λ l. location_place l == p) ls (is_location-place f.id p)
          there
    | inr t ↦ is_reported-place fs ls (rw t at h)
  ]

module _ (sha256 : String → String) (run_id : String) (ls : List FindingLocation) where
  cluster-reported :
      (rule : Rule) (rule_id : String) (p : String × Option ℕ) (fs : List Finding)
      → is_reported rule_id p fs ls ≡ true
      → is_reported rule_id p
          (cluster sha256 run_id rule rule_id ls fs).0
          (cluster sha256 run_id rule rule_id ls fs).1
        ≡ true
  unfolding cluster cluster_finding moved_to location_place is_reported any_of
  cluster-reported rule rule_id p [] h = h
  cluster-reported rule rule_id p (anchor ∷ rest) h =
      let f = cluster_finding sha256 run_id rule rule_id ls anchor rest in
      let all = locations_of_all ls (anchor ∷ rest) in
      let placed =
        is_reported-place rule_id p (anchor ∷ rest) all
          (locations_of_all-reported rule_id p ls (anchor ∷ rest) h) in
      is_reported-one rule_id p f (map (moved_to f.id run_id) (first_at location_place [] all)) refl
        (any_of-placed location_place (moved_to f.id run_id) f.id p all (λ l. refl) (λ l. refl)
          placed)

  module _ (rules : Dict String Rule) where
    cluster_rule-cases :
        (rule_id : String) (fs : List Finding)
        → Known rules rule_id
        → (cluster_rule sha256 run_id rules ls (rule_id, fs) ≡ some (fs, locations_of_all ls fs))
          ⊎ ((rule : Rule) × (get rule_id rules ≡ some rule)
              × (cluster_rule sha256 run_id rules ls (rule_id, fs)
                  ≡ some (cluster sha256 run_id rule rule_id ls (sort_by id_before fs))))
    unfolding cluster_rule
    cluster_rule-cases rule_id fs (rule, known) =
        elim (Bool-cases (leb (length fs) cluster_threshold)) [
          | inl t ↦ inl (rw (t, cluster_rule) refl)
          | inr t ↦ inr (rule, known, rw (t, known, cluster_rule) refl)
        ]

    -- Clustering a rule that is known gives a result, which reports what the findings report.
    cluster_rule-reported :
        (rule_id : String) (fs : List Finding)
        → Known rules rule_id
        → (kept : List Finding × List FindingLocation) × (cluster_rule sha256 run_id rules ls
              (rule_id, fs)
            ≡ some kept)
          × ((p : String × Option ℕ)
              → is_reported rule_id p fs ls ≡ true
              → is_reported rule_id p kept.0 kept.1 ≡ true)
    unfolding is_reported
    cluster_rule-reported rule_id fs known = elim (cluster_rule-cases rule_id fs known) [
      | inl same ↦
          ((fs, locations_of_all ls fs), same, λ p h. locations_of_all-reported rule_id p ls fs h)
      | inr (rule, t, same) ↦ (
        cluster sha256 run_id rule rule_id ls (sort_by id_before fs),
        same,
        λ p h.
            cluster-reported rule rule_id p (sort_by id_before fs)
              (any_of-sort_by id_before (has_location rule_id p ls) fs ∙ h),
      )
    ]

    -- Every place of a group of one rule.
    abbrev Reports : List (String × List Finding) → List Finding × List FindingLocation → Type 0
    Reports gs kept =
        (rule_id : String) (p : String × Option ℕ)
        → holds_at (has_location rule_id p ls) rule_id gs ≡ true
        → is_reported rule_id p kept.0 kept.1 ≡ true

    abbrev Keeps :
        List Finding × List FindingLocation → List Finding × List FindingLocation → Type 0
    Keeps old new =
        (rule_id : String) (p : String × Option ℕ)
        → is_reported rule_id p old.0 old.1 ≡ true
        → is_reported rule_id p new.0 new.1 ≡ true

    pub cluster_rules-reported :
        (gs : List (String × List Finding)) (kept : List Finding × List FindingLocation)
        → All (λ g. Known rules g.0) gs
        → (new : List Finding × List FindingLocation) × (cluster_rules sha256 run_id rules ls gs
              kept
            ≡ some new)
          × Keeps kept new
          × Reports gs new
    unfolding cluster_rules holds_at any_of is_reported
    cluster_rules-reported [] kept known = (kept, refl, λ k p h. h, λ k p h. absurd (ground arith))
    cluster_rules-reported ((rule_id, fs) ∷ gs) kept known =
        let (more, done, found) = cluster_rule-reported rule_id fs known.0 in
        let (new, finished, keeps_old, reports_rest) =
          cluster_rules-reported gs (kept.0 ++ more.0, kept.1 ++ more.1) known.1 in
        (
          new,
          rw (done, cluster_rules) finished,
          λ k p h. keeps_old k p (is_reported-append k p kept.0 more.0 kept.1 more.1 h),
          λ k p h. elim (Bool-cases (rule_id == k && any_of (has_location k p ls) fs)) [
            | inl t ↦
                let same : rule_id ≡ k = (string_eq.beq_iff rule_id k).0 (ground arith) in
                let here : any_of (has_location k p ls) fs ≡ true = ground arith in
                keeps_old k p (
                  is_reported-appended k p kept.0 more.0 kept.1 more.1 (
                    subst (λ i. is_reported i p more.0 more.1 ≡ true) same
                      (found p (subst (λ i. is_reported i p fs ls ≡ true) (sym same) here))))
            | inr t ↦ reports_rest k p (rw t at h)
          ],
        )

-- With every finding's rule known, the clustering gives a result that reports what was reported.
pub cluster_repetitive_rules-reported :
    (sha256 : String → String) (run_id : String) (rules : Dict String Rule) (r : CorrelationResult)
    → All (λ f. Known rules f.rule_id) r.findings
    → (new : CorrelationResult) × (cluster_repetitive_rules sha256 run_id rules r ≡ some new)
      × ((rule_id : String) (p : String × Option ℕ)
          → is_reported rule_id p r.findings r.locations ≡ true
          → is_reported rule_id p new.findings new.locations ≡ true)
unfolding cluster_repetitive_rules is_reported holds_at has_location
cluster_repetitive_rules-reported sha256 run_id rules r known =
    let groups = sort_by rule_group_before (group_by (λ f. f.rule_id) r.findings) in
    let all_known =
      All-sort_by rule_group_before (λ g. (rule : Rule) × (get g.0 rules ≡ some rule))
        (group_by (λ f. f.rule_id) r.findings)
        (group_by-All_keys (λ k. (rule : Rule) × (get k rules ≡ some rule)) (λ f. f.rule_id)
          r.findings known) in
    let (new, done, kept, reports) =
      cluster_rules-reported sha256 run_id r.locations rules groups ([], []) all_known in
    (
      record r { findings = new.0; locations = new.1 },
      rw (done, cluster_repetitive_rules) refl,
      λ k p h.
          let own =
            any_of_mono (has_location k p r.locations)
              (λ f. f.rule_id == k && has_location k p r.locations f) r.findings
              (λ f t. ground arith) h in
          reports k p (
            any_of-sort_by rule_group_before
              (λ g. g.0 == k && any_of (has_location k p r.locations) g.1)
              (group_by (λ f. f.rule_id) r.findings)
            ∙ (holds_at-group_by (has_location k p r.locations) k (λ f. f.rule_id) r.findings
                ∙ own)),
    )
