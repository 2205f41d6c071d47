-- ===== src/Sandbox/Watchdog.antt =====
-- core/sandbox/watchdog.py: wait, SIGTERM, grace, SIGKILL.
pub mod Escalation
use bare_binary_analysis.Prelude.{
  Bool, Option, String, ℤ, false, if◌then◌else◌, pos, some, ◌-ℤ◌, eqb_ℤ, leb_ℤ, ltb_ℤ, none, true,
}

-- The container and the clock, as the watchdog sees them: each call may change the state `S` of
-- the world. Times are whole milliseconds; `wait` answers `none` when the time has passed.
pub record ContainerHandle (S : Type 0) : Type 0 where
  pub wait : ℤ → S → Option ℤ × S
  pub terminate : S → S
  pub kill : S → S
  pub clock : S → ℤ × S

pub data WatchdogVerdict : Type 0 where
  exited terminated killed escaped : WatchdogVerdict

pub record WatchdogOutcome : Type 0 where
  pub verdict : WatchdogVerdict
  pub exit_code : Option ℤ
  pub waited_ms : ℤ

unfoldable pub verdict_timed_out : WatchdogVerdict → Bool
verdict_timed_out exited = false
verdict_timed_out _ = true

unfoldable pub timed_out : WatchdogOutcome → Bool
timed_out o = verdict_timed_out o.verdict

-- A raised `ValueError`, or the outcome.
pub data Enforced : Type 0 where
  value_error : String → Enforced
  outcome : WatchdogOutcome → Enforced

unfoldable pub min_ℤ : ℤ → ℤ → ℤ
min_ℤ a b = if leb_ℤ a b then a else b

-- `min(grace_s, 5.0) or 5.0`
unfoldable pub kill_wait : ℤ → ℤ
kill_wait grace = let m = min_ℤ grace (pos 5000) in if eqb_ℤ m (pos 0) then pos 5000 else m

module _ {S : Type 0} (handle : ContainerHandle S) (timeout grace : ℤ) where
  open handle use {wait, terminate, kill, clock}

  -- `WatchdogOutcome(verdict, exit_code, clock() - started)`
  finish : ℤ → WatchdogVerdict → Option ℤ → S → Enforced × S
  finish started verdict code s =
      let (now, s') = clock s in
      (outcome (record { verdict = verdict; exit_code = code; waited_ms = now -ℤ started }), s')

  killed_or_escaped : Option ℤ → WatchdogVerdict
  killed_or_escaped none = escaped
  killed_or_escaped (some code) = killed

  -- From `handle.kill()` on.
  kill_phase : ℤ → S → Enforced × S
  kill_phase started s =
      let (code, s') = wait (kill_wait grace) (kill s) in
      finish started (killed_or_escaped code) code s'

  after_grace : ℤ → Option ℤ × S → Enforced × S
  after_grace started (none, s) = kill_phase started s
  after_grace started (some code, s) = finish started terminated (some code) s

  -- From `handle.terminate()` on.
  terminate_phase : ℤ → S → Enforced × S
  terminate_phase started s =
      let s' = terminate s in
      if ltb_ℤ (pos 0) grace then after_grace started (wait grace s') else kill_phase started s'

  after_deadline : ℤ → Option ℤ × S → Enforced × S
  after_deadline started (none, s) = terminate_phase started s
  after_deadline started (some code, s) = finish started exited (some code) s

  pub enforce_deadline : S → Enforced × S
  enforce_deadline s =
      if leb_ℤ timeout (pos 0)
      then (value_error "timeout_s must be positive", s)
      else if ltb_ℤ grace (pos 0)
      then (value_error "grace_s must not be negative", s)
      else let (started, s') = clock s in after_deadline started (wait timeout s')
