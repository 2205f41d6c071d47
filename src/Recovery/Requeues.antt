-- ===== src/Recovery/Requeues.antt =====
-- A run that no worker claims does not stay in the queue for ever.
use bare_binary_analysis.Recovery.Sweeps.{requeue_attempts-append}
use bare_binary_analysis.Vocab.{RunStatus}
use bare_binary_analysis.Recovery.{
  RunRow, step_run, Progress, is_in_flight, is_queued, visit_run, on_queued, fail_run, requeue_run,
  is_none, requeue_attempts, requeue_row, is_requeue, anchor,
}
use bare_binary_analysis.Prelude.{
  ℕ, List, All, ◌∷◌, ◌≡◌, [], true, ◌<◌, arith, leb, ltb_ℤ, ◌+◌, false, length, sub_ℕ, Bool-cases,
  eq_iff, inl, pos, inr, subst, sym, ◌≤◌,
}

-- The steps of later sweeps on one run, at their moments.
pub steps_at : ℕ → ℕ → ℕ → List ℕ → Progress → Progress
steps_at grace timeout max_attempts [] s = s
steps_at grace timeout max_attempts (now ∷ later) s =
    steps_at grace timeout max_attempts later (step_run grace timeout max_attempts now s)

module _ (grace timeout max_attempts : ℕ) where
  abbrev pub WaitsAt : RunRow → ℕ → Type 0
  WaitsAt run now =
      (is_queued run.status ≡ true)
      × (is_none run.started_at ≡ true)
      × (ltb_ℤ (sub_ℕ now (anchor run)) (pos grace) ≡ false)

  step_failed :
      (now : ℕ) (s : Progress)
      → s.run.status ≡ RunStatus.failed
      → (step_run grace timeout max_attempts now s).run.status ≡ RunStatus.failed
  unfolding step_run is_in_flight
  step_failed now s h = ground arith

  steps_failed :
      (moments : List ℕ) (s : Progress)
      → s.run.status ≡ RunStatus.failed
      → (steps_at grace timeout max_attempts moments s).run.status ≡ RunStatus.failed
  unfolding steps_at
  steps_failed [] s h = h
  steps_failed (now ∷ later) s h = steps_failed later _ (step_failed now s h)

  step_gives_up :
      (now : ℕ) (s : Progress)
      → WaitsAt s.run now
      → leb max_attempts (requeue_attempts s.audit s.run.id) ≡ true
      → (step_run grace timeout max_attempts now s).run.status ≡ RunStatus.failed
  unfolding step_run visit_run on_queued fail_run is_in_flight is_queued
  step_gives_up now s w full = ground arith

  step_requeues :
      (now : ℕ) (s : Progress)
      → WaitsAt s.run now
      → leb max_attempts (requeue_attempts s.audit s.run.id) ≡ false
      → ((step_run grace timeout max_attempts now s).run ≡ s.run)
        × (requeue_attempts (step_run grace timeout max_attempts now s).audit s.run.id
            ≡ requeue_attempts s.audit s.run.id + 1)
  unfolding step_run visit_run on_queued requeue_run requeue_row is_in_flight is_queued is_requeue
  step_requeues now s w room =
      let attempts = requeue_attempts s.audit s.run.id in
      (
        ground arith,
        ground (
          arith,
          eq_iff s.run.id s.run.id,
          requeue_attempts-append s.audit (requeue_row s.run.id attempts) s.run.id,
        ),
      )

room_left : (a b : ℕ) → leb a b ≡ false → b < a
room_left a b h = ground arith

-- A run that is queued, has not started and is past the grace at each of a series of sweeps, and
-- was requeued no more often than allowed, is failed by the end of the series if the sweeps are
-- more than the requeues that it has left.
pub steps_at-failed :
    (grace timeout max_attempts : ℕ) (moments : List ℕ) (s : Progress)
    → All (WaitsAt grace timeout max_attempts s.run) moments
    → requeue_attempts s.audit s.run.id ≤ max_attempts
    → max_attempts < requeue_attempts s.audit s.run.id + length moments
    → (steps_at grace timeout max_attempts moments s).run.status ≡ RunStatus.failed
unfolding steps_at
steps_at-failed grace timeout max_attempts [] s w bound enough = absurd (omega arith)
steps_at-failed grace timeout max_attempts (now ∷ later) s w bound enough =
    elim (Bool-cases (leb max_attempts (requeue_attempts s.audit s.run.id))) [
      | inl full ↦
          steps_failed grace timeout max_attempts later _
            (step_gives_up grace timeout max_attempts now s w.0 full)
      | inr room ↦
          let less = room_left max_attempts (requeue_attempts s.audit s.run.id) room in
          let (same, more) = step_requeues grace timeout max_attempts now s w.0 room in
          steps_at-failed grace timeout max_attempts later _
            (subst (λ r. All (WaitsAt grace timeout max_attempts r) later) (sym same) w.1)
            (rw same (omega (arith, more, less))) (rw same (omega (arith, more)))
    ]
