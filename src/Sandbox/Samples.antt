-- ===== src/Sandbox/Samples.antt =====
-- A killed container and an orphaned one, and the theorems at them.
use bare_binary_analysis.Sandbox.Spec.Isolation.{
  IsConfined, KeepsIsolation, with_overrides-IsConfined, with_overrides-KeepsIsolation,
}
use bare_binary_analysis.Sandbox.Reaper.Sweep.{is_some_text}
use bare_binary_analysis.Sandbox.Reaper.Removals.{recording, is_orphan, is_overdue, reap-removed}
use bare_binary_analysis.Sandbox.Spec.{
  Change, replace, MountMode, validate, with_overrides, SandboxSpec, default_spec, read_only,
  read_write, errors_of, input_not_read_only, mounts_docker_socket, field_checks, several_writable,
  mount_checks, all_mount_errors, count_checks, writable_count, is_writable, is_positive,
  is_docker_socket, is_forbidden, apply_change, BindMount,
}
use bare_binary_analysis.Sandbox.Watchdog.{kill_wait, min_ℤ, enforce_deadline, killed}
use bare_binary_analysis.Prelude.{
  String, count_where, select, List, ℕ, true, ◌∷◌, [], contains, none, some, pos, ◌≡◌, refl, any_of,
  replace_char, has_part, ends_with, starts_with, after_prefix, Option, map, if◌then◌else◌, ◌==◌,
  string_eq,
}
use bare_binary_analysis.Sandbox.Watchdog.Escalation.{
  calls_for, verdict_for, scripted, observed, script_of, waited, enforce_deadline-verdict,
  sent_sigterm, sent_sigkill, enforce_deadline-calls,
}
use bare_binary_analysis.Sandbox.Reaper.{
  ManagedContainer, liveness, active_set, reap, default_max_age,
}

-- The times of the tests: 30 s, then 5 s of grace.
enforce_deadline-calls_example :
    (enforce_deadline scripted
      (pos 30000)
      (pos 5000)
      (script_of none none (some (pos 137)))).1.calls
    ≡ waited (pos 30000) ∷ sent_sigterm ∷ waited (pos 5000) ∷ sent_sigkill ∷ waited (pos 5000) ∷ []
unfolding calls_for kill_wait min_ℤ
enforce_deadline-calls_example =
    enforce_deadline-calls (pos 30000) (pos 5000) none none (some (pos 137)) refl refl

enforce_deadline-verdict_example :
    observed
      (enforce_deadline scripted (pos 30000) (pos 0) (script_of none (some (pos 137)) none)).0
    ≡ some (killed, some (pos 137))
unfolding verdict_for
enforce_deadline-verdict_example =
    enforce_deadline-verdict (pos 30000) (pos 0) none (some (pos 137)) none refl refl

abbrev container : String → String → ℕ → ManagedContainer
container id run_id created_at = record {
  container_id = id;
  run_id = run_id;
  analyzer = "ghidra";
  created_at = created_at;
  running = true;
  name = "";
}

abbrev listed : List ManagedContainer
listed = container "a" "r0" 100 ∷ container "b" "r2" 29_000 ∷ container "c" "r1" 29_000 ∷ []

-- The runtime does not let "b" go.
abbrev stubborn : String → Option String
stubborn id = if id == "b" then some "in use" else none

-- The container of the active run r1 stays.
reap-removed_example :
    ((reap (recording listed stubborn) default_max_age (some ("r1" ∷ [])) 30_000 []).1
      ≡ "a" ∷ "b" ∷ [])
    × ((reap (recording listed stubborn) default_max_age (some ("r1" ∷ [])) 30_000 []).0.removed
        ≡ "a" ∷ [])
    × (map
          (λ x. x.0)
          (reap (recording listed stubborn) default_max_age (some ("r1" ∷ [])) 30_000 []).0.failed
        ≡ "b" ∷ [])
unfolding select is_orphan is_overdue liveness active_set contains any_of is_some_text
reap-removed_example = reap-removed listed stubborn default_max_age (some ("r1" ∷ [])) 30_000 refl

abbrev mounted : MountMode → SandboxSpec
mounted mode = record (default_spec "bare/unpack@sha256:0a" "run" "unpack") {
  mounts =
      record { source = "/runs/1/in"; target = "/input"; mode = mode }
      ∷ record { source = "/runs/1/out"; target = "/output"; mode = read_write }
      ∷ [];
}

spec_program : Unit {0}
unfolding validate default_spec errors_of field_checks mount_checks all_mount_errors count_checks
    writable_count is_writable is_positive is_docker_socket is_forbidden apply_change replace
    with_overrides contains any_of count_where replace_char has_part ends_with starts_with
    after_prefix
spec_program = tt

writable_input : validate (mounted read_write) ≡ input_not_read_only ∷ several_writable ∷ []
unfolding spec_program
writable_input = refl

socket :
    validate (record (default_spec "i" "r" "a") {
      mounts = record { source = "\\var\\run\\docker.sock"; target = "/s"; mode = read_only } ∷ [];
    })
    ≡ mounts_docker_socket ∷ []
unfolding spec_program
socket = refl

weakened : with_overrides (Change.user "root" ∷ []) (default_spec "i" "r" "a") ≡ none
unfolding spec_program
weakened = refl

abbrev job_mounts : List BindMount
job_mounts = (mounted read_only).mounts

-- The changes that a run makes to an analyzer's spec.
with_overrides-IsConfined_example : IsConfined (record (mounted read_only) { timeout_s = pos 60 })
unfolding spec_program
with_overrides-IsConfined_example =
    with_overrides-IsConfined (Change.mounts job_mounts ∷ Change.timeout_s (pos 60) ∷ [])
      "bare/unpack@sha256:0a" "run" "unpack" (record (mounted read_only) { timeout_s = pos 60 })
      refl refl

with_overrides-KeepsIsolation_example :
    KeepsIsolation
      (default_spec "i" "r" "a")
      (record (default_spec "i" "r" "a") { timeout_s = pos 60 })
unfolding spec_program
with_overrides-KeepsIsolation_example =
    with_overrides-KeepsIsolation (Change.timeout_s (pos 60) ∷ []) (default_spec "i" "r" "a")
      (record (default_spec "i" "r" "a") { timeout_s = pos 60 }) refl
