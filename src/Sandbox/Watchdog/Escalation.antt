-- ===== src/Sandbox/Watchdog/Escalation.antt =====
-- The order of the watchdog's calls.
use bare_binary_analysis.Sandbox.Watchdog.{
  ContainerHandle, WatchdogVerdict, enforce_deadline, Enforced, after_deadline, terminate_phase,
  value_error, after_grace, outcome, kill_phase, finish, kill_wait, exited, killed,
  killed_or_escaped, escaped, terminated, min_ℤ,
}
use bare_binary_analysis.Prelude.{
  List, Option, ℤ, leb_ℤ, none, some, ◌++◌, ◌∷◌, [], pos, if◌then◌else◌, ltb_ℤ, ◌≡◌, false, arith,
  ◌&&◌,
}

pub data Call : Type 0 where
  waited : ℤ → Call
  sent_sigterm sent_sigkill : Call

-- A container that answers the waits from a script, and a record of the calls made.
pub record Script : Type 0 where
  pub answers : List (Option ℤ)
  pub calls : List Call
  pub now : ℤ

next_answer : List (Option ℤ) → Option ℤ
next_answer [] = none
next_answer (a ∷ rest) = a

later_answers : List (Option ℤ) → List (Option ℤ)
later_answers [] = []
later_answers (a ∷ rest) = rest

unfoldable pub scripted : ContainerHandle Script
unfolding next_answer later_answers
scripted = record {
  wait = λ t s. (
    next_answer s.answers,
    record s { answers = later_answers s.answers; calls = s.calls ++ waited t ∷ [] },
  );
  terminate = λ s. record s { calls = s.calls ++ sent_sigterm ∷ [] };
  kill = λ s. record s { calls = s.calls ++ sent_sigkill ∷ [] };
  clock = λ s. (s.now, s);
}

-- What the watchdog does to a container that answers its waits with `a`, `b` and `c`.
unfoldable pub calls_for : ℤ → ℤ → Option ℤ → Option ℤ → List Call
calls_for timeout grace (some code) b = waited timeout ∷ []
calls_for timeout grace none b =
    if ltb_ℤ (pos 0) grace
    then waited timeout
      ∷ sent_sigterm
      ∷ waited grace
      ∷ elim b [ some code ↦ [] | none ↦ sent_sigkill ∷ waited last_wait ∷ [] ]
    else waited timeout ∷ sent_sigterm ∷ sent_sigkill ∷ waited last_wait ∷ []
  where
    -- As long as the grace, but never more than five seconds, and five seconds without a grace.
    last_wait : ℤ
    last_wait = if ltb_ℤ (pos 0) grace && leb_ℤ grace (pos 5000) then grace else pos 5000

abbrev pub script_of : Option ℤ → Option ℤ → Option ℤ → Script
script_of a b c = record { answers = a ∷ b ∷ c ∷ []; calls = []; now = pos 0 }

-- With valid times, whatever the waits answer, the container is waited for until the deadline;
-- only past it is it sent SIGTERM, and waited for as long as the grace lasts; only after that
-- SIGKILL, and a last wait as long as the grace, but of at most five seconds, and of five seconds
-- where there is no grace.
pub enforce_deadline-calls :
    (timeout grace : ℤ) (a b c : Option ℤ)
    → leb_ℤ timeout (pos 0) ≡ false
    → ltb_ℤ grace (pos 0) ≡ false
    → (enforce_deadline scripted timeout grace (script_of a b c)).1.calls
      ≡ calls_for timeout grace a b
unfolding enforce_deadline scripted calls_for after_deadline terminate_phase after_grace kill_phase
    finish kill_wait min_ℤ
enforce_deadline-calls timeout grace (some code) b c valid nonneg = rw (valid, nonneg)
enforce_deadline-calls timeout grace none (some code) c valid nonneg =
    rw (valid, nonneg) (ground arith)
enforce_deadline-calls timeout grace none none c valid nonneg = rw (valid, nonneg) (ground arith)

-- The outcome that the three answers call for.
unfoldable pub verdict_for : ℤ → Option ℤ → Option ℤ → Option ℤ → WatchdogVerdict × Option ℤ
verdict_for grace (some code) b c = (exited, some code)
verdict_for grace none b c =
    if ltb_ℤ (pos 0) grace
    then elim b [ some code ↦ (terminated, some code) | none ↦ kill_verdict c ]
    else kill_verdict b
  where
    kill_verdict : Option ℤ → WatchdogVerdict × Option ℤ
    kill_verdict = elim [ some code ↦ (killed, some code) | none ↦ (escaped, none) ]

abbrev pub observed : Enforced → Option (WatchdogVerdict × Option ℤ)
observed (value_error e) = none
observed (outcome o) = some (o.verdict, o.exit_code)

-- With valid times, whatever the waits answer, the outcome names the wait that saw the exit, and
-- carries its exit code: the first one, the one after SIGTERM or the one after SIGKILL; `escaped`
-- means that none did.
pub enforce_deadline-verdict :
    (timeout grace : ℤ) (a b c : Option ℤ)
    → leb_ℤ timeout (pos 0) ≡ false
    → ltb_ℤ grace (pos 0) ≡ false
    → observed (enforce_deadline scripted timeout grace (script_of a b c)).0
      ≡ some (verdict_for grace a b c)
unfolding enforce_deadline scripted verdict_for after_deadline terminate_phase after_grace
    kill_phase finish killed_or_escaped
enforce_deadline-verdict timeout grace (some code) b c valid nonneg = rw (valid, nonneg)
enforce_deadline-verdict timeout grace none (some code) c valid nonneg =
    rw (valid, nonneg) (ground arith)
enforce_deadline-verdict timeout grace none none (some code) valid nonneg =
    rw (valid, nonneg) (ground arith)
enforce_deadline-verdict timeout grace none none none valid nonneg =
    rw (valid, nonneg) (ground arith)
