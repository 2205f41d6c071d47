-- ===== src/Correlator/Reporting.antt =====
-- The loop of `correlate` over the groups: what it reports of a group, and that it keeps it.
use bare_binary_analysis.Correlator.Coverage.{
  is_reported, is_location, is_reported-append, any_of-placed, is_reported-appended,
  is_reported-one,
}
use bare_binary_analysis.Correlator.Model.{
  Rule, Evidence, CorrelationResult, is_suppressed, location_place, path_of, place_of, first_at,
}
use bare_binary_analysis.Correlator.{report_group, group_finding, location_at, on_group, on_groups}
use bare_binary_analysis.Prelude.{
  string_eq, pair_eq, option_eq, nat_eq, none, some, inl, inr, String, Bool, Dict, List, Option,
  any_of, holds_at, ℕ, get, ◌==◌, ◌≡◌, true, ◌∷◌, ◌⊎◌, Option-cases, [], arith, map, Bool-cases,
  refl, ap, subst, ◌+◌, sym, ◌||◌, ◌&&◌,
}

module _ (sha256 : String → String) (fnmatch : String → String → Bool) (run_id : String)
    (paths : Dict String String) where
  report_group-reported :
      (rule : Rule) (key : String × String) (primary : Evidence) (items : List Evidence)
      (r : CorrelationResult) (p : String × Option ℕ)
      → any_of (λ e. place_of e == p) (primary ∷ items) ≡ true
      → is_reported key.0 p
          (report_group sha256 fnmatch run_id paths rule key primary items r).findings
          (report_group sha256 fnmatch run_id paths rule key primary items r).locations
        ≡ true
  unfolding report_group group_finding location_at location_place place_of
  report_group-reported rule (rule_id, value_hash) primary items r p h =
      let f =
        group_finding sha256 run_id rule (rule_id, value_hash) (path_of paths primary.artifact_id)
          primary (primary ∷ items) in
      let ls = map (location_at paths f.id run_id) (first_at place_of [] (primary ∷ items)) in
      let there : any_of (is_location f.id p) ls ≡ true =
        any_of-placed place_of (location_at paths f.id run_id) f.id p (primary ∷ items) (λ e. refl)
          (λ e. refl) h in
      is_reported-appended rule_id p r.findings (f ∷ []) r.locations ls
        (is_reported-one rule_id p f ls refl there)

  module _ (rules : Dict String Rule) (index : Dict (String × String) (List String)) where
    -- A suppression of the group matches the path of the evidence.
    unfoldable pub is_hidden : String × String → Evidence → Bool
    is_hidden key e = is_suppressed fnmatch index key (path_of paths e.artifact_id)

    abbrev pub Outcome : String × String → String × Option ℕ → Bool → CorrelationResult → Type 0
    Outcome key p hidden r =
        (get key.0 rules ≡ none)
        ⊎ (hidden ≡ true)
        ⊎ (is_reported key.0 p r.findings r.locations ≡ true)

    abbrev pub after : (String × String) × List Evidence → CorrelationResult → CorrelationResult
    after g r = on_group sha256 fnmatch run_id paths rules index g r

    -- The three ways of a group that is not empty.
    pub on_group-cases :
        (key : String × String) (primary : Evidence) (items : List Evidence) (r : CorrelationResult)
        → ((get key.0 rules ≡ none) × (after (key, primary ∷ items) r ≡ r))
          ⊎ ((is_hidden key primary ≡ true)
              × (after (key, primary ∷ items) r ≡ record r { suppressed = r.suppressed + 1 }))
          ⊎ ((rule : Rule) × (get key.0 rules ≡ some rule)
              × (after (key, primary ∷ items) r
                  ≡ report_group sha256 fnmatch run_id paths rule key primary items r))
    unfolding on_group is_hidden
    on_group-cases key primary items r = elim (Option-cases (get key.0 rules)) [
      | inl t ↦ inl (t, rw (t, after, on_group) refl)
      | inr (rule, t) ↦
          elim (Bool-cases (is_suppressed fnmatch index key (path_of paths primary.artifact_id))) [
            | inl u ↦ inr (inl (u, rw (t, u, after, on_group) refl))
            | inr u ↦ inr (inr (rule, t, rw (t, u, after, on_group) refl))
          ]
    ]

    on_group-outcome :
        (key : String × String) (items : List Evidence) (r : CorrelationResult)
        (p : String × Option ℕ)
        → any_of (λ e. place_of e == p) items ≡ true
        → Outcome key p (any_of (is_hidden key) items) (after (key, items) r)
    unfolding any_of
    on_group-outcome key [] r p h = absurd (ground arith)
    on_group-outcome key (primary ∷ items) r p h = elim (on_group-cases key primary items r) [
      | inl (t, same) ↦ inl t
      | inr (inl (t, same)) ↦ inr (inl (ap (λ b. b || any_of (is_hidden key) items) t))
      | inr (inr (rule, t, same)) ↦
          subst (Outcome key p (any_of (is_hidden key) (primary ∷ items))) (sym same)
            (inr (inr (report_group-reported rule key primary items r p h)))
    ]

    on_group-kept :
        (g : (String × String) × List Evidence) (r : CorrelationResult) (rule_id : String)
        (p : String × Option ℕ)
        → is_reported rule_id p r.findings r.locations ≡ true
        → is_reported rule_id p (after g r).findings (after g r).locations ≡ true
    unfolding on_group report_group
    on_group-kept (key, []) r rule_id p h = h
    on_group-kept (key, primary ∷ items) r rule_id p h =
        let kept : CorrelationResult → Type 0 =
          λ s. is_reported rule_id p s.findings s.locations ≡ true in
        elim (on_group-cases key primary items r) [
          | inl (t, same) ↦ subst kept (sym same) h
          | inr (inl (t, same)) ↦ subst kept (sym same) h
          | inr (inr (rule, t, same)) ↦
              subst kept (sym same) (is_reported-append rule_id p r.findings _ r.locations _ h)
        ]

    abbrev loop : List ((String × String) × List Evidence) → CorrelationResult → CorrelationResult
    loop gs r = on_groups sha256 fnmatch run_id paths rules index gs r

    on_groups-kept :
        (gs : List ((String × String) × List Evidence)) (r : CorrelationResult) (rule_id : String)
        (p : String × Option ℕ)
        → is_reported rule_id p r.findings r.locations ≡ true
        → is_reported rule_id p (loop gs r).findings (loop gs r).locations ≡ true
    unfolding on_groups
    on_groups-kept [] r rule_id p h = h
    on_groups-kept (g ∷ gs) r rule_id p h =
        on_groups-kept gs (after g r) rule_id p (on_group-kept g r rule_id p h)

    -- Where a group has evidence at the place, the loop finds no rule, or some evidence of the
    -- group is hidden, or it reports the place.
    pub on_groups-outcome :
        (gs : List ((String × String) × List Evidence)) (r : CorrelationResult)
        (key : String × String) (p : String × Option ℕ)
        → holds_at (λ e. place_of e == p) key gs ≡ true
        → Outcome key p (holds_at (is_hidden key) key gs) (loop gs r)
    unfolding on_groups holds_at any_of
    on_groups-outcome [] r key p h = absurd (ground arith)
    on_groups-outcome ((key', items) ∷ gs) r key p h =
        elim (Bool-cases (key' == key && any_of (λ e. place_of e == p) items)) [
          | inl t ↦
              let same : key' ≡ key = (pair_eq.beq_iff key' key).0 (ground arith) in
              let here : any_of (λ e. place_of e == p) items ≡ true = ground arith in
              elim (on_group-outcome key' items r p here) [
                | inl u ↦ inl (subst (λ k. get k.0 rules ≡ none) same u)
                | inr (inl u) ↦ inr (
                    inl (
                      let hides : any_of (is_hidden key) items ≡ true =
                        subst (λ k. any_of (is_hidden k) items ≡ true) same u in
                      ground arith))
                | inr (inr u) ↦ inr (
                    inr (
                      subst
                        (λ k.
                          is_reported k.0 p (loop gs (after (key', items) r)).findings
                            (loop gs (after (key', items) r)).locations
                          ≡ true)
                        same (on_groups-kept gs (after (key', items) r) key'.0 p u)))
              ]
          | inr t ↦ elim (on_groups-outcome gs (after (key', items) r) key p (rw t at h)) [
            | inl u ↦ inl u
            | inr (inl u) ↦ inr (inl ground arith)
            | inr (inr u) ↦ inr (inr u)
          ]
        ]
