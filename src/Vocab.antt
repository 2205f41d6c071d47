-- ===== src/Vocab.antt =====
-- core/vocab.py, core/models/enums.py: the enumerations that the components share.
use bare_binary_analysis.Prelude.{
  ℕ, String, ◌≡◌, ◌↔◌, Bool, true, false, arith, Eq, nat_beq, Option, some, if◌then◌else◌, refl,
  ◌==◌, none, string_eq,
}

pub data Severity : Type 0 where
  critical high medium low info : Severity

unfoldable pub rank : Severity → ℕ
rank critical = 0
rank high = 1
rank medium = 2
rank low = 3
rank info = 4

unfoldable pub blocks_release : Severity → Bool
blocks_release critical = true
blocks_release high = true
blocks_release _ = false

-- The text of the `StrEnum` member.
unfoldable pub severity_value : Severity → String
severity_value critical = "critical"
severity_value high = "high"
severity_value medium = "medium"
severity_value low = "low"
severity_value info = "info"

rank_injective : (a b : Severity) → rank a ≡ rank b → a ≡ b
unfolding rank
rank_injective critical b h = ground arith
rank_injective _ b h = ground arith

pub severity_beq_iff : (a b : Severity) → (nat_beq (rank a) (rank b) ≡ true) ↔ (a ≡ b)
severity_beq_iff a b = ground (arith, rank_injective a b)

instance abbrev pub severity_eq : Eq Severity
severity_eq = record { beq = λ a b. nat_beq (rank a) (rank b); beq_iff = severity_beq_iff }

pub data RunStatus : Type 0 where
  queued running completed degraded failed cancelled : RunStatus

unfoldable pub is_terminal : RunStatus → Bool
is_terminal completed = true
is_terminal degraded = true
is_terminal failed = true
is_terminal cancelled = true
is_terminal _ = false

unfoldable pub produced_results : RunStatus → Bool
produced_results completed = true
produced_results degraded = true
produced_results _ = false

pub data StageStatus : Type 0 where
  pending running completed timeout oom failed truncated skipped : StageStatus

unfoldable pub is_degraded : StageStatus → Bool
is_degraded timeout = true
is_degraded oom = true
is_degraded failed = true
is_degraded truncated = true
is_degraded _ = false

unfoldable pub stage_status_value : StageStatus → String
stage_status_value pending = "pending"
stage_status_value running = "running"
stage_status_value completed = "completed"
stage_status_value timeout = "timeout"
stage_status_value oom = "oom"
stage_status_value failed = "failed"
stage_status_value truncated = "truncated"
stage_status_value skipped = "skipped"

pub data FindingStatus : Type 0 where
  opened confirmed false_positive accepted_risk fixed needs_review : FindingStatus

unfoldable pub finding_status_value : FindingStatus → String
finding_status_value opened = "open"
finding_status_value confirmed = "confirmed"
finding_status_value false_positive = "false_positive"
finding_status_value accepted_risk = "accepted_risk"
finding_status_value fixed = "fixed"
finding_status_value needs_review = "needs_review"

unfoldable pub is_actionable : FindingStatus → Bool
is_actionable opened = true
is_actionable confirmed = true
is_actionable needs_review = true
is_actionable _ = false

pub data LlmVerdict : Type 0 where
  true_positive false_positive needs_review error : LlmVerdict

unfoldable pub llm_verdict_value : LlmVerdict → String
llm_verdict_value true_positive = "true_positive"
llm_verdict_value false_positive = "false_positive"
llm_verdict_value needs_review = "needs_review"
llm_verdict_value error = "error"

-- `Severity(text)`; `none` is the `ValueError`.
unfoldable pub severity_of : String → Option Severity
severity_of s =
    if s == "critical"
    then some critical
    else if s == "high"
    then some high
    else if s == "medium"
    then some medium
    else if s == "low"
    then some low
    else if s == "info"
    then some info
    else none

pub severity_of-value : (s : Severity) → severity_of (severity_value s) ≡ some s
unfolding severity_of severity_value
severity_of-value critical = refl
severity_of-value high = refl
severity_of-value medium = refl
severity_of-value low = refl
severity_of-value info = refl
