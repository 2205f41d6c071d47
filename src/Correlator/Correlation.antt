-- ===== src/Correlator/Correlation.antt =====
-- What `correlate` returns.
use bare_binary_analysis.Correlator.Limits.{is_of, cluster_repetitive_rules-count}
use bare_binary_analysis.Correlator.Clustering.{cluster_repetitive_rules-reported}
use bare_binary_analysis.Correlator.Clusters.{cluster_repetitive_rules}
use bare_binary_analysis.Correlator.Sound.{
  IsSound, on_groups-IsSound, cluster_repetitive_rules-IsSound,
}
use bare_binary_analysis.Correlator.Reporting.{on_groups-outcome, is_hidden}
use bare_binary_analysis.Correlator.{on_groups, correlate, sort_findings, finding_before}
use bare_binary_analysis.Correlator.Coverage.{has_rule, is_reported, Known, has_location}
use bare_binary_analysis.Correlator.Model.{
  Rule, Suppression, Evidence, index_into, index_rules, index_suppressions_into, is_suppressed,
  sorted_groups, enabled_rules, index_suppressions, value_key, group_before, rule_before,
  evidence_before, CorrelationResult, path_of, place_of,
}
use bare_binary_analysis.Prelude.{
  string_eq, pair_eq, option_eq, nat_eq, none, some, inl, inr, refl, String, Bool, any_of, holds_at,
  List, get, ◌==◌, Dict, ◌&&◌, ◌≡◌, false, or_nil, ◌||◌, [], any_of-sort_by, arith, sort_by, ◌∷◌,
  put, append_at, group_by, if◌then◌else◌, select, sym, ◌∙◌, any_of-select, get-put,
  holds_at-group_by, any_of-append_at, true, ◌⊎◌, All, Succeeds, All-imp, any_of_mono, ap,
  All-within, All-sort_by, Option, count_where, ℕ, ◌≤◌, count_where-sort_by,
}

index_into-none :
    (k : String) (rs : List Rule) (d : Dict String Rule)
    → get k (index_into rs d) ≡ none
    → (any_of (λ r. r.id == k) rs ≡ false) × (get k d ≡ none)
unfolding index_into any_of
index_into-none k [] d h = (refl, h)
index_into-none k (r ∷ rs) d h =
    let (rest, there) = index_into-none k rs (put r.id r d) h in
    let one : (if r.id == k then some r else get k d) ≡ none = sym (get-put r.id k r d) ∙ there in
    (ground arith, ground arith)

index_rules-none :
    (pack : List Rule) (k : String) → get k (index_rules pack) ≡ none → has_rule pack k ≡ false
unfolding index_rules enabled_rules has_rule get
index_rules-none pack k h =
    let (none_enabled, _) =
      index_into-none k (sort_by rule_before (select (λ r. r.enabled) pack)) [] h in
    sym (any_of-select (λ r. r.id == k) (λ r. r.enabled) pack)
    ∙ (sym (any_of-sort_by rule_before (λ r. r.id == k) (select (λ r. r.enabled) pack))
        ∙ none_enabled)

-- A suppression of the rule and the value, for the path.
pub suppresses : (String → String → Bool) → String × String → String → Suppression → Bool
suppresses fnmatch key path s =
    (s.rule_id, s.value_hash) == key && (s.path_pattern == "*" || fnmatch path s.path_pattern)

index_suppressions_into-any :
    (test : String → Bool) (key : String × String) (ss : List Suppression)
    (d : Dict (String × String) (List String))
    → any_of test (or_nil (get key (index_suppressions_into ss d))) ≡ (
        any_of test (or_nil (get key d))
        || any_of (λ s. (s.rule_id, s.value_hash) == key && test s.path_pattern) ss)
unfolding index_suppressions_into any_of
index_suppressions_into-any test key [] d = ground arith
index_suppressions_into-any test key (s ∷ ss) d = ground (
  arith,
  index_suppressions_into-any test key ss (append_at (s.rule_id, s.value_hash) s.path_pattern d),
  any_of-append_at test (s.rule_id, s.value_hash) key s.path_pattern d,
)

is_suppressed-any :
    (fnmatch : String → String → Bool) (ss : List Suppression) (key : String × String)
    (path : String)
    → is_suppressed fnmatch (index_suppressions ss) key path
      ≡ any_of (suppresses fnmatch key path) ss
unfolding is_suppressed index_suppressions suppresses get any_of
is_suppressed-any fnmatch ss key path =
    index_suppressions_into-any (λ pattern. pattern == "*" || fnmatch path pattern) key ss []

sorted_groups-holds_at :
    (test : Evidence → Bool) (key : String × String) (evidence : List Evidence)
    → holds_at test key (sorted_groups evidence)
      ≡ any_of (λ e. value_key e == key && test e) evidence
unfolding sorted_groups holds_at
sorted_groups-holds_at test key evidence =
    any_of-sort_by group_before (λ g. g.0 == key && any_of test g.1)
      (group_by value_key (sort_by evidence_before evidence))
    ∙ (holds_at-group_by test key value_key (sort_by evidence_before evidence)
        ∙ any_of-sort_by evidence_before (λ e. value_key e == key && test e) evidence)

module _ (sha256 : String → String) (fnmatch : String → String → Bool) (run_id : String)
    (paths : Dict String String) (evidence : List Evidence) (pack : List Rule)
    (suppressions : List Suppression) where
  -- A suppression of the rule and the value matches the path of one of the files with the value.
  pub is_excused : Evidence → Bool
  is_excused e =
      any_of
        (λ f.
          value_key f == value_key e
          && any_of (suppresses fnmatch (value_key e) (path_of paths f.artifact_id)) suppressions)
        evidence

  -- What becomes of a piece of evidence.
  abbrev pub IsAccounted : CorrelationResult → Evidence → Type 0
  IsAccounted r e =
      (has_rule pack e.rule_id ≡ false)
      ⊎ (is_excused e ≡ true)
      ⊎ (is_reported e.rule_id (place_of e) r.findings r.locations ≡ true)

  abbrev grouped : CorrelationResult
  grouped =
      on_groups sha256 fnmatch run_id paths (index_rules pack) (index_suppressions suppressions)
        (sorted_groups evidence) (record { findings = []; locations = []; suppressed = 0 })

  abbrev fits : Evidence → Evidence → Bool
  fits e f = value_key f == value_key e && place_of f == place_of e

  fits_itself : (e : Evidence) → fits e e ≡ true
  fits_itself e =
      let key = (pair_eq.beq_iff (value_key e) (value_key e)).1 refl in
      let place = (pair_eq.beq_iff (place_of e) (place_of e)).1 refl in rw (key, place) refl

  hidden-excused :
      (e : Evidence)
      → holds_at
          (is_hidden sha256 fnmatch run_id paths
            (index_rules pack)
            (index_suppressions suppressions)
            (value_key e))
          (value_key e)
          (sorted_groups evidence)
        ≡ true
      → is_excused e ≡ true
  unfolding is_excused is_hidden
  hidden-excused e h =
      let hidden : Evidence → Bool =
        is_hidden sha256 fnmatch run_id paths (index_rules pack) (index_suppressions suppressions)
          (value_key e) in
      any_of_mono (λ f. value_key f == value_key e && hidden f)
        (λ f.
          value_key f == value_key e
          && any_of (suppresses fnmatch (value_key e) (path_of paths f.artifact_id)) suppressions)
        evidence
        (λ f k.
          ap (λ b. value_key f == value_key e && b)
            (sym
              (is_suppressed-any fnmatch suppressions (value_key e) (path_of paths f.artifact_id)))
          ∙ k)
        (sym (sorted_groups-holds_at hidden (value_key e) evidence) ∙ h)

  grouped-IsAccounted : (e : Evidence) → any_of (fits e) evidence ≡ true → IsAccounted grouped e
  unfolding is_excused value_key
  grouped-IsAccounted e h =
      elim (on_groups-outcome sha256 fnmatch run_id paths (index_rules pack)
        (index_suppressions suppressions) (sorted_groups evidence)
        (record { findings = []; locations = []; suppressed = 0 }) (value_key e) (place_of e)
        (sorted_groups-holds_at (λ f. place_of f == place_of e) (value_key e) evidence ∙ h)) [
          | inl t ↦ inl (index_rules-none pack e.rule_id t)
          | inr (inl t) ↦ inr (inl (hidden-excused e t))
          | inr (inr t) ↦ inr (inr t)
        ]

  grouped-IsSound : All (IsSound (index_rules pack)) grouped.findings
  grouped-IsSound =
      on_groups-IsSound sha256 fnmatch run_id paths (index_rules pack)
        (index_suppressions suppressions) (sorted_groups evidence)
        (record { findings = []; locations = []; suppressed = 0 }) tt

  -- The result comes from the clustering of what the loop reports.
  correlate-clustered :
      (clustered : CorrelationResult)
      → cluster_repetitive_rules sha256 run_id (index_rules pack) grouped ≡ some clustered
      → correlate sha256 fnmatch run_id paths evidence pack suppressions
        ≡ some (record clustered { findings = sort_by finding_before clustered.findings })
  unfolding correlate sort_findings
  correlate-clustered clustered h = rw (h, correlate) refl

  clustering :
      (new : CorrelationResult) × (cluster_repetitive_rules sha256 run_id (index_rules pack) grouped
        ≡ some new)
      × ((rule_id : String) (p : String × Option ℕ)
          → is_reported rule_id p grouped.findings grouped.locations ≡ true
          → is_reported rule_id p new.findings new.locations ≡ true)
  clustering = cluster_repetitive_rules-reported sha256 run_id (index_rules pack) grouped (
      All-imp (IsSound (index_rules pack)) (λ f. Known (index_rules pack) f.rule_id)
        grouped.findings (λ f s. (s.rule, s.known)) grouped-IsSound)

  abbrev finished : CorrelationResult → CorrelationResult
  finished r = record r { findings = sort_by finding_before r.findings }

  -- Correlation always ends with a result, and loses no evidence: each piece has a rule that is
  -- not enabled, or a suppression of its rule and value matches a file that has the value, or a
  -- finding of its rule has a location at its artifact and offset, be it clustered or not.
  pub correlate-IsAccounted :
      Succeeds
        (λ r. All (IsAccounted r) evidence)
        (correlate sha256 fnmatch run_id paths evidence pack suppressions)
  unfolding is_reported
  correlate-IsAccounted =
      let (clustered, done, kept) = clustering in
      (
        finished clustered,
        correlate-clustered clustered done,
        All-imp (λ e. any_of (fits e) evidence ≡ true) (IsAccounted (finished clustered)) evidence
            (λ e h. elim (grouped-IsAccounted e h) [
              | inl t ↦ inl t
              | inr (inl t) ↦ inr (inl t)
              | inr (inr t) ↦ inr (
                  inr (
                    any_of-sort_by finding_before
                      (has_location e.rule_id (place_of e) clustered.locations) clustered.findings
                    ∙ kept e.rule_id (place_of e) t))
            ])
            (All-within fits evidence fits_itself),
      )

  -- Correlation ends with findings that have their rule's severity, category, CWE and
  -- remediation, are reported as detected by a rule, and have a confidence from 0.05 to 0.99.
  pub correlate-IsSound :
      Succeeds
        (λ r. All (IsSound (index_rules pack)) r.findings)
        (correlate sha256 fnmatch run_id paths evidence pack suppressions)
  correlate-IsSound =
      let (clustered, done, kept) = clustering in
      (
        finished clustered,
        correlate-clustered clustered done,
        All-sort_by finding_before (IsSound (index_rules pack)) clustered.findings (
            cluster_repetitive_rules-IsSound sha256 run_id (index_rules pack) grouped clustered done
              grouped-IsSound),
      )

  -- Correlation ends with at most 20 findings of any one rule.
  pub correlate-count :
      (rule_id : String)
      → Succeeds
          (λ r. count_where (is_of rule_id) r.findings ≤ 20)
          (correlate sha256 fnmatch run_id paths evidence pack suppressions)
  correlate-count rule_id =
      let (clustered, done, kept) = clustering in
      (
        finished clustered,
        correlate-clustered clustered done,
        rw (count_where-sort_by finding_before (is_of rule_id) clustered.findings) (
            cluster_repetitive_rules-count sha256 run_id (index_rules pack) grouped clustered
              rule_id done),
      )
