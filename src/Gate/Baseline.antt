-- ===== src/Gate/Baseline.antt =====
-- Which findings of a run count as inherited.
use bare_binary_analysis.Prelude.{
  String, Option, All, contains, ◌≡◌, false, none, some, true, map, Bool-cases, inl, inr,
  if◌then◌else◌, string_eq, refl, Dict, All-map, ◌⊎◌, arith, sym, ◌==◌,
}
use bare_binary_analysis.Gate.{
  Session, collect_gate_findings, resolve_baseline, Run, get_run, status_is_completed, run_findings,
  baseline_of, from_candidate, is_given, BaselineRef, artifact_paths, FindingRow, project,
}

-- The id of the run to compare with: the one that the caller names, else the predecessor.
unfoldable pub chosen_id : Run → Option String → Option String
chosen_id run none = run.previous_run_id
chosen_id run (some id) = if id == "" then run.previous_run_id else some id

-- The finding has the id of a finding of the chosen run, and that run is completed.
pub record IsKnown (session : Session) (run : Run) (baseline_run_id : Option String) (id : String)
    : Type 0 where
  pub candidate : String
  pub is_chosen : chosen_id run baseline_run_id ≡ some candidate
  pub previous : Run
  pub is_found : get_run session.runs candidate ≡ some previous
  pub is_completed : status_is_completed previous.status ≡ true
  pub is_listed : contains (map (λ f. f.id) (run_findings session previous.id)) id ≡ true

chosen_id-given :
    (run : Run) (o : Option String)
    → (if is_given o then o else run.previous_run_id) ≡ chosen_id run o
unfolding chosen_id
chosen_id-given run none = refl
chosen_id-given run (some id) = ground arith

-- Only the chosen run gives a baseline, where it is completed.
resolve_baseline-source :
    (session : Session) (run : Run) (baseline_run_id : Option String) (id : String)
    → contains (resolve_baseline session run baseline_run_id none).finding_ids id ≡ true
    → IsKnown session run baseline_run_id id
unfolding resolve_baseline
resolve_baseline-source session run baseline_run_id id h =
    candidate (if is_given baseline_run_id then baseline_run_id else run.previous_run_id)
      (chosen_id-given run baseline_run_id) h
  where
    found :
        (c : String) (o : Option Run)
        → chosen_id run baseline_run_id ≡ some c
        → get_run session.runs c ≡ o
        → contains (baseline_of session baseline_run_id o).finding_ids id ≡ true
        → IsKnown session run baseline_run_id id
    found c none chosen e k = unfold baseline_of contains in cc
    found c (some previous) chosen e k = elim (Bool-cases (status_is_completed previous.status)) [
      | inl completed ↦ record {
        candidate = c;
        is_chosen = chosen;
        previous = previous;
        is_found = e;
        is_completed = completed;
        is_listed = unfold baseline_of in (rw completed at k);
      }
      | inr other ↦ unfold baseline_of contains in let no : false ≡ true = rw other at k in cc
    ]

    candidate :
        (o : Option String)
        → o ≡ chosen_id run baseline_run_id
        → contains (from_candidate session baseline_run_id o).finding_ids id ≡ true
        → IsKnown session run baseline_run_id id
    candidate none e k = unfold from_candidate contains in cc
    candidate (some c) e k =
        unfold from_candidate in found c (get_run session.runs c) (sym e) refl k

-- Where no ids are supplied, a collected finding is new, or the run to compare with is completed
-- and has a finding of the same id. That run is the one the caller names, and the predecessor only
-- where the caller names none; so if it is missing, failed, degraded, cancelled or unfinished,
-- nothing is inherited.
pub collect_gate_findings-IsKnown :
    (session : Session) (run : Run) (run_id : String) (baseline_run_id : Option String)
    → All
        (λ f. (f.is_new ≡ true) ⊎ IsKnown session run baseline_run_id f.id)
        (collect_gate_findings session run_id (resolve_baseline session run baseline_run_id none))
unfolding collect_gate_findings
collect_gate_findings-IsKnown session run run_id baseline_run_id =
    All-map _ _ (run_findings session run_id) known
  where
    baseline : BaselineRef
    baseline = resolve_baseline session run baseline_run_id none

    paths : Dict String String
    paths = artifact_paths session run_id (map (λ f. f.id) (run_findings session run_id))

    known :
        (f : FindingRow)
        → ((project baseline.finding_ids paths f).is_new ≡ true)
          ⊎ IsKnown session run baseline_run_id (project baseline.finding_ids paths f).id
    known f =
        unfold project in
        elim (Bool-cases (contains baseline.finding_ids f.id)) [
          | inl old ↦ inr (resolve_baseline-source session run baseline_run_id f.id old)
          | inr new ↦ inl (rw new refl)
        ]
