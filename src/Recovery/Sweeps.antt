-- ===== src/Recovery/Sweeps.antt =====
-- What one sweep may change.
use bare_binary_analysis.Vocab.{RunStatus}
use bare_binary_analysis.Recovery.{
  RunRow, visit_run, on_queued, fail_run, is_candidate, requeue_run, Progress, AuditRow, is_requeue,
  requeue_attempts, sweep_orphaned_runs, sweep_runs, RecoverySweep, step_run, requeue_row,
  orphan_row, anchor, queue_reason, analysis_reason,
}
use bare_binary_analysis.Prelude.{
  ℕ, List, ◌≡◌, ◌⊎◌, true, arith, String, count_where, ◌++◌, ◌∷◌, ◌≤◌, [], ◌+◌, if◌then◌else◌, ◌==◌,
  ◌&&◌, string_eq, sub_ℕ, eq_iff,
}

pub requeue_attempts-append :
    (audit : List AuditRow) (a : AuditRow) (id : String)
    → requeue_attempts (audit ++ a ∷ []) id
      ≡ requeue_attempts audit id + (if a.run_id == id && is_requeue a.action then 1 else 0)
unfolding requeue_attempts count_where
requeue_attempts-append [] a id = omega arith
requeue_attempts-append (b ∷ audit) a id = omega (arith, requeue_attempts-append audit a id)

module _ (grace timeout max_attempts now : ℕ) where
  -- A run keeps its id, and its row is the old one or a failed one.
  abbrev pub Kept : RunRow → RunRow → Type 0
  Kept r r' = (r'.id ≡ r.id) × ((r' ≡ r) ⊎ (is_candidate r ≡ true) × (r'.status ≡ RunStatus.failed))

  step_run-Kept : (s : Progress) → Kept s.run (step_run grace timeout max_attempts now s).run
  unfolding step_run visit_run on_queued fail_run requeue_run
  step_run-Kept s = (ground arith, ground arith)

  abbrev pub AllKept : List RunRow → List RunRow → Type 0
  AllKept [] [] = Unit
  AllKept [] (r ∷ rs) = ⊥
  AllKept (r ∷ rs) [] = ⊥
  AllKept (r ∷ rs) (r' ∷ rs') = Kept r r' × AllKept rs rs'

  sweep_runs-Kept :
      (runs : List RunRow) (audit : List AuditRow) (sweep : RecoverySweep)
      → AllKept runs (sweep_runs grace timeout max_attempts now runs audit sweep).0
  unfolding sweep_runs
  sweep_runs-Kept [] audit sweep = tt
  sweep_runs-Kept (r ∷ rs) audit sweep =
      (step_run-Kept (record { run = r; audit = audit; sweep = sweep }), sweep_runs-Kept rs _ _)

  -- A sweep keeps the runs and their order; it changes nothing of a run that is neither queued nor
  -- running, and what it changes it marks as failed.
  pub sweep_orphaned_runs-AllKept :
      (runs : List RunRow) (audit : List AuditRow)
      → AllKept runs (sweep_orphaned_runs grace timeout max_attempts now runs audit).0
  unfolding sweep_orphaned_runs
  sweep_orphaned_runs-AllKept runs audit = sweep_runs-Kept runs audit _

  step_run-bounded :
      (id : String) (s : Progress)
      → requeue_attempts s.audit id ≤ max_attempts
      → requeue_attempts (step_run grace timeout max_attempts now s).audit id ≤ max_attempts
  unfolding step_run visit_run on_queued fail_run requeue_run requeue_row orphan_row is_requeue
  step_run-bounded id s h =
      let attempts = requeue_attempts s.audit s.run.id in
      let age = sub_ℕ now (anchor s.run) in
      ground (
        arith,
        h,
        eq_iff s.run.id id,
        requeue_attempts-append s.audit (requeue_row s.run.id attempts) id,
        requeue_attempts-append s.audit (orphan_row s.run.id (queue_reason attempts)) id,
        requeue_attempts-append s.audit (orphan_row s.run.id (analysis_reason age)) id,
      )

  sweep_runs-bounded :
      (id : String) (runs : List RunRow) (audit : List AuditRow) (sweep : RecoverySweep)
      → requeue_attempts audit id ≤ max_attempts
      → requeue_attempts (sweep_runs grace timeout max_attempts now runs audit sweep).1 id
        ≤ max_attempts
  unfolding sweep_runs
  sweep_runs-bounded id [] audit sweep h = h
  sweep_runs-bounded id (r ∷ rs) audit sweep h =
      sweep_runs-bounded id rs _ _
        (step_run-bounded id (record { run = r; audit = audit; sweep = sweep }) h)

  -- If the audit log holds no more requeues of a run than the bound, so it does after a sweep.
  pub sweep_orphaned_runs-bounded :
      (id : String) (runs : List RunRow) (audit : List AuditRow)
      → requeue_attempts audit id ≤ max_attempts
      → requeue_attempts (sweep_orphaned_runs grace timeout max_attempts now runs audit).1 id
        ≤ max_attempts
  unfolding sweep_orphaned_runs
  sweep_orphaned_runs-bounded id runs audit h = sweep_runs-bounded id runs audit _ h
