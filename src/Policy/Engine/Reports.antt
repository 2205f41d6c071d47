-- ===== src/Policy/Engine/Reports.antt =====
-- What a verdict reports beside its decision.
use bare_binary_analysis.Vocab.{
  critical, high, medium, low, info, Severity, severity_value, rank, severity_eq,
}
use bare_binary_analysis.Policy.Engine.Ledger.{
  is_some_reason, guards-in_scope, blocking_reason-named_by, get-index_waivers_nil,
}
use bare_binary_analysis.Policy.Engine.Reference.{
  valid_on, in_scope, is_waived, named_by, last_waiver,
}
use bare_binary_analysis.Policy.Engine.{
  Tally, on_reason, on_waiver, visit, index_waivers, Reason, blocking_reason, count_findings,
  evaluate, is_actionable, start_tally, visit_all, verdict_of, by_severity, waived_finding,
  sorted_stages, count_new,
}
use bare_binary_analysis.Policy.Model.{
  Waiver, GateFinding, is_open, is_new_only, is_expired, DegradedPosture,
}
use bare_binary_analysis.Prelude.{
  List, Date, Bool, String, [], map, Option, ◌&&◌, ◌||◌, ◌≡◌, if◌then◌else◌, not, ◌++◌, ◌∷◌, arith,
  some, Bool-cases, get, inl, Dict, count_where, inr, select, map-append, sort_by, sym, ℕ, ◌==◌,
  append-nil, or_zero, string_eq, tally, ◌+◌, ◌∙◌, ap, append_assoc, length, none, or_zero-tally,
  count_where-sort_by, refl, length-sort_by,
}
use bare_binary_analysis.Policy.Document.{Policy}

severity_value_beq : (a b : Severity) → (severity_value a == severity_value b) ≡ (a == b)
unfolding severity_value rank
severity_value_beq critical = elim [
  | critical ↦ refl
  | high ↦ refl
  | medium ↦ refl
  | low ↦ refl
  | info ↦ refl
]
severity_value_beq _ = elim [
  | critical ↦ refl
  | high ↦ refl
  | medium ↦ refl
  | low ↦ refl
  | info ↦ refl
]

module _ (p : Policy) (ws : List Waiver) (today : Date) where
  -- A finding that a clause names, in scope, with a valid waiver.
  unfoldable pub is_excused : GateFinding → Bool
  is_excused f = in_scope p f && named_by p f && is_waived ws today f

  -- A finding of the baseline that a gate on new findings leaves aside.
  unfoldable pub is_inherited : GateFinding → Bool
  is_inherited f =
      (is_open f || (f.llm_dismissed && not p.trust_llm_dismissals))
      && is_new_only p.baseline_mode
      && not f.is_new

  abbrev waived_ids : Tally → List String
  waived_ids t = map (λ w. w.finding_id) t.waived

  on_waiver-waived :
      (f : GateFinding) (r : Reason) (t : Tally) (o : Option Waiver)
      → waived_ids (on_waiver p today f r t o)
        ≡ (if valid_on today o then waived_ids t ++ f.id ∷ [] else waived_ids t)
  unfolding on_waiver valid_on
  on_waiver-waived f r t none = refl
  on_waiver-waived f r t (some w) = elim (Bool-cases (is_expired w today)) [
    | inl e ↦ rw e
    | inr e ↦ rw (e, map-append) (unfold waived_finding in refl)
  ]

  on_reason-waived :
      (f : GateFinding) (t : Tally) (o : Option Reason)
      → waived_ids (on_reason p today (index_waivers ws []) f t o) ≡ (
          if is_some_reason o && is_waived ws today f
          then waived_ids t ++ f.id ∷ []
          else waived_ids t)
  unfolding on_reason is_some_reason is_waived
  on_reason-waived f t none = refl
  on_reason-waived f t (some r) =
      rw (get-index_waivers_nil f.id ws) (on_waiver-waived f r t (last_waiver f.id ws))

  visit-waived :
      (f : GateFinding) (t : Tally)
      → waived_ids (visit p today (index_waivers ws []) f t)
        ≡ (if is_excused f then waived_ids t ++ f.id ∷ [] else waived_ids t)
  unfolding visit is_excused
  visit-waived f t = ground (
    arith,
    on_reason-waived f t (blocking_reason f p),
    guards-in_scope f p,
    blocking_reason-named_by f p,
  )

  waived_ids-visit_all :
      (fs : List GateFinding) (t : Tally)
      → waived_ids (visit_all p today (index_waivers ws []) fs t)
        ≡ waived_ids t ++ map (λ f. f.id) (select is_excused fs)
  unfolding visit_all select
  waived_ids-visit_all [] t = sym (append-nil _)
  waived_ids-visit_all (f ∷ fs) t =
      waived_ids-visit_all fs (visit p today (index_waivers ws []) f t)
      ∙ ap (λ c. c ++ map (λ g. g.id) (select is_excused fs)) (visit-waived f t)
      ∙ elim (Bool-cases (is_excused f)) [ inl e ↦ rw (e, append_assoc) | inr e ↦ rw e ]

  on_reason-inherited :
      (f : GateFinding) (t : Tally) (o : Option Reason)
      → (on_reason p today (index_waivers ws []) f t o).inherited ≡ t.inherited
  unfolding on_reason
  on_reason-inherited f t none = refl
  on_reason-inherited f t (some r) = on_waiver-inherited (get f.id (index_waivers ws []))
    where
      on_waiver-inherited :
          (o : Option Waiver) → (on_waiver p today f r t o).inherited ≡ t.inherited
      on_waiver-inherited none = unfold on_waiver in refl
      on_waiver-inherited (some w) = unfold on_waiver in ground arith

  visit-inherited :
      (f : GateFinding) (t : Tally)
      → (visit p today (index_waivers ws []) f t).inherited
        ≡ (if is_inherited f then t.inherited ++ f ∷ [] else t.inherited)
  unfolding visit is_inherited is_actionable
  visit-inherited f t = ground (arith, on_reason-inherited f t (blocking_reason f p))

  inherited-visit_all :
      (fs : List GateFinding) (t : Tally)
      → (visit_all p today (index_waivers ws []) fs t).inherited
        ≡ t.inherited ++ select is_inherited fs
  unfolding visit_all select
  inherited-visit_all [] t = sym (append-nil _)
  inherited-visit_all (f ∷ fs) t =
      inherited-visit_all fs (visit p today (index_waivers ws []) f t)
      ∙ ap (λ c. c ++ select is_inherited fs) (visit-inherited f t)
      ∙ elim (Bool-cases (is_inherited f)) [ inl e ↦ rw (e, append_assoc) | inr e ↦ rw e ]

start_lists :
    (stages : List String) (posture : DegradedPosture)
    → ((start_tally stages posture).waived ≡ []) × ((start_tally stages posture).inherited ≡ [])
unfolding start_tally
start_lists stages posture = ground arith

-- The verdict reports, in the order of severity, as waived exactly the findings in scope that a
-- clause of the policy names and a valid waiver excuses, and as inherited exactly the actionable
-- findings of the baseline where the policy looks at new ones only.
pub evaluate-waived_and_inherited :
    (fs : List GateFinding) (p : Policy) (waivers : List Waiver) (stages : List String)
    (today : Date)
    → (map (λ w. w.finding_id) (evaluate fs p waivers stages today).waived
        ≡ map (λ f. f.id) (select (is_excused p waivers today) (sort_by by_severity fs)))
      × ((evaluate fs p waivers stages today).inherited
          ≡ select (is_inherited p waivers today) (sort_by by_severity fs))
unfolding evaluate verdict_of
evaluate-waived_and_inherited fs p waivers stages today =
    let start = start_tally (sorted_stages stages) p.on_degraded in
    let (no_waived, no_inherited) = start_lists (sorted_stages stages) p.on_degraded in
    (
      waived_ids-visit_all p waivers today (sort_by by_severity fs) start ∙ rw no_waived,
      inherited-visit_all p waivers today (sort_by by_severity fs) start ∙ rw no_inherited,
    )

get-count_findings :
    (s : Severity) (fs : List GateFinding) (d : Dict String ℕ)
    → or_zero (get (severity_value s) (count_findings fs d))
      ≡ count_where (λ f. f.severity == s) fs + or_zero (get (severity_value s) d)
unfolding count_findings count_where
get-count_findings s [] d = omega arith
get-count_findings s (f ∷ fs) d = ground (
  arith,
  get-count_findings s fs (tally (severity_value f.severity) d),
  or_zero-tally (severity_value f.severity) (severity_value s) d,
  severity_value_beq f.severity s,
)

get-count_new :
    (s : Severity) (fs : List GateFinding) (d : Dict String ℕ)
    → or_zero (get (severity_value s) (count_new fs d))
      ≡ count_where (λ f. f.is_new && f.severity == s) fs + or_zero (get (severity_value s) d)
unfolding count_new count_where
get-count_new s [] d = omega arith
get-count_new s (f ∷ fs) d = ground (
  arith,
  get-count_new s fs (if f.is_new then tally (severity_value f.severity) d else d),
  or_zero-tally (severity_value f.severity) (severity_value s) d,
  severity_value_beq f.severity s,
)

-- The verdict's counts are those of the findings that came in: all of them, and the new ones, for
-- each severity; and the total is their number.
pub evaluate-counts :
    (fs : List GateFinding) (p : Policy) (waivers : List Waiver) (stages : List String)
    (today : Date) (s : Severity)
    → (or_zero (get (severity_value s) (evaluate fs p waivers stages today).counts_by_severity)
        ≡ count_where (λ f. f.severity == s) fs)
      × (or_zero
            (get (severity_value s) (evaluate fs p waivers stages today).new_counts_by_severity)
          ≡ count_where (λ f. f.is_new && f.severity == s) fs)
      × ((evaluate fs p waivers stages today).total_findings ≡ length fs)
unfolding evaluate verdict_of get
evaluate-counts fs p waivers stages today s = (
  get-count_findings s (sort_by by_severity fs) []
      ∙ omega (arith, count_where-sort_by by_severity (λ f. f.severity == s) fs),
  get-count_new s (sort_by by_severity fs) []
      ∙ omega (arith, count_where-sort_by by_severity (λ f. f.is_new && f.severity == s) fs),
  length-sort_by by_severity fs,
)
