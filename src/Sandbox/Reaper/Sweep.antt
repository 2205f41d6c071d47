-- ===== src/Sandbox/Reaper/Sweep.antt =====
-- Which containers one pass of the reaper removes.
use bare_binary_analysis.Sandbox.Reaper.{
  ReapReport, SandboxDriver, ManagedContainer, sweep, on_reason, reap_reason, liveness, on_removal,
  reap, active_set,
}
use bare_binary_analysis.Prelude.{
  List, String, ℤ, ℕ, Bool, count_where, length, ltb_ℤ, sub_ℕ, ◌+◌, ◌||◌, ◌≡◌, arith, if◌then◌else◌,
  ◌&&◌, not, ◌∷◌, [], contains, string_eq, Option, none, true, false, length-append, some, ◌∙◌,
}

-- Too old, whatever its run; or of a run that is known not to be active.
unfoldable pub is_doomed : List String → ℕ → ℤ → Bool → ManagedContainer → Bool
is_doomed active now max_age liveness_known c =
    ltb_ℤ max_age (sub_ℕ now c.created_at) || (liveness_known && not (contains active c.run_id))

unfoldable pub is_some_text : Option String → Bool
is_some_text none = false
is_some_text (some t) = true

module _ {D : Type 0} (driver : SandboxDriver D) (max_age : ℤ) (active : List String) (now : ℕ)
    (known : Bool) where
  abbrev doomed : ManagedContainer → Bool
  doomed = is_doomed active now max_age known

  abbrev sweep_here : List ManagedContainer → ReapReport → D → ReapReport × D
  sweep_here = sweep driver max_age active now known

  abbrev step : ManagedContainer → ReapReport → D → ReapReport × D
  step c r d = on_reason driver max_age c (reap_reason c active now max_age known) r d

  reap_reason-doomed :
      (c : ManagedContainer) → is_some_text (reap_reason c active now max_age known) ≡ doomed c
  unfolding reap_reason is_doomed is_some_text
  reap_reason-doomed c = ground arith

  on_removal-count :
      (c : ManagedContainer) (r : ReapReport) (x : Option String × D)
      → length (on_removal driver max_age c r x).0.removed
          + length (on_removal driver max_age c r x).0.failed
        ≡ length r.removed + length r.failed + 1
  unfolding on_removal
  on_removal-count c r (none, d) = omega (arith, length-append r.removed (c.container_id ∷ []))
  on_removal-count c r (some e, d) =
      omega (arith, length-append r.failed ((c.container_id, e) ∷ []))

  on_reason-count :
      (c : ManagedContainer) (o : Option String) (r : ReapReport) (d : D)
      → length (on_reason driver max_age c o r d).0.removed
          + length (on_reason driver max_age c o r d).0.failed
        ≡ length r.removed + length r.failed + (if is_some_text o then 1 else 0)
  unfolding on_reason is_some_text
  on_reason-count c none r d = omega arith
  on_reason-count c (some reason) r d = on_removal-count c r _

  step-count :
      (c : ManagedContainer) (r : ReapReport) (d : D)
      → length (step c r d).0.removed + length (step c r d).0.failed
        ≡ length r.removed + length r.failed + (if doomed c then 1 else 0)
  step-count c r d =
      rw (← reap_reason-doomed c) (on_reason-count c (reap_reason c active now max_age known) r d)

  sweep-count :
      (cs : List ManagedContainer) (r : ReapReport) (d : D)
      → length (sweep_here cs r d).0.removed + length (sweep_here cs r d).0.failed
        ≡ length r.removed + length r.failed + count_where doomed cs
  unfolding sweep count_where
  sweep-count [] r d = omega arith
  sweep-count (c ∷ cs) r d =
      omega (arith, sweep-count cs (step c r d).0 (step c r d).1, step-count c r d)

-- One pass tries to remove exactly as many containers as are too old or of a run that is known to
-- be over: each such attempt is reported once, as a removal or as a failure, whatever the runtime
-- answers.
pub reap-count :
    {D : Type 0} (driver : SandboxDriver D) (max_age : ℤ) (active : Option (List String)) (now : ℕ)
    (d : D)
    → length (reap driver max_age active now d).0.removed
        + length (reap driver max_age active now d).0.failed
      ≡ count_where
          (is_doomed (active_set active) now max_age (liveness active))
          (driver.list_managed d).0
unfolding reap
reap-count driver max_age active now d =
    sweep-count driver max_age (active_set active) now (liveness active) (driver.list_managed d).0
      (record { inspected = length (driver.list_managed d).0; removed = []; failed = [] })
      (driver.list_managed d).1
    ∙ omega arith
