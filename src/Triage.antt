-- ===== src/Triage.antt =====
-- core/llm/triage.py: a model's verdicts on existing findings.
pub mod Floor
pub mod Passes
mod Samples
use bare_binary_analysis.Vocab.{
  LlmVerdict, Severity, FindingStatus, error, high, llm_verdict_value, rank, true_positive,
  confirmed,
}
use bare_binary_analysis.Prelude.{
  Bool, Dict, Option, String, [], ℕ, List, fstring, get, if◌then◌else◌, ltb, put, some, true, ◌+◌,
  false, leb, lower, sort_by, string_eq, ◌++◌, ◌==◌, ◌∷◌, none, or_zero, strip, take_text, ◌||◌,
  nat_beq, ◌&&◌, str_lt,
}

-- The columns of `findings` that triage reads or writes.
pub record Finding : Type 0 where
  pub id : String
  pub rule_id : String
  pub value_hash : String
  pub severity : Severity
  pub status : FindingStatus
  pub detected_by : String
  pub llm_verdict : Option String
  pub llm_reasoning : Option String
  pub llm_model : Option String
  pub llm_at : Option ℕ

abbrev pub severity_floor : Severity
severity_floor = high

-- What comes back from the provider: an exception, or a completion. Of the JSON object that
-- `as_json` finds in the text, `str(payload.get(...))` of the two keys; `none` where it finds none
-- or an empty one; and whether `raw` has a `thinking` part.
pub record Payload : Type 0 where
  pub verdict : String
  pub reasoning : String

pub record Completion : Type 0 where
  pub payload : Option Payload
  pub thinking : Bool
  pub duration_ms : Option ℕ

pub data Reply : Type 0 where
  raised : String → Reply
  completed : Completion → Reply

-- The part of an `LlmCall` row that depends on the reply.
pub record LlmCall : Type 0 where
  pub finding_id : String
  pub error : Option String
  pub duration_ms : Option ℕ

-- `LlmVerdict(text)`; `none` is the ValueError.
unfoldable pub llm_verdict_of : String → Option LlmVerdict
llm_verdict_of t =
    if t == "true_positive"
    then some true_positive
    else if t == "false_positive"
    then some LlmVerdict.false_positive
    else if t == "needs_review"
    then some LlmVerdict.needs_review
    else if t == "error"
    then some error
    else none

abbrev or_default : String → String → String
or_default s d = if s == "" then d else s

known_verdict : String → String → Option LlmVerdict → LlmVerdict × String
known_verdict raw reasoning (some v) = (v, or_default reasoning "no reasoning given")
known_verdict raw reasoning none = (error, fstring ("unrecognised verdict '" ∷ raw ∷ "'" ∷ []))

parse_payload : Bool → Option Payload → LlmVerdict × String
parse_payload true none = (
  error,
  "the model exhausted its token budget on reasoning without producing a complete answer; use a non-reasoning model for triage",
)
parse_payload false none = (error, "model did not return parseable JSON")
parse_payload thinking (some p) =
    let raw = lower (strip p.verdict) in
    known_verdict raw (take_text 2000 (strip p.reasoning)) (llm_verdict_of raw)

-- `_parse`
pub parse : Completion → LlmVerdict × String
parse c = parse_payload c.thinking c.payload

is_error : LlmVerdict → Bool
is_error error = true
is_error _ = false

-- `triage_finding`, from the provider's reply on.
pub triage_finding : Reply → Finding → LlmVerdict × String × LlmCall
triage_finding (raised e) f = (
  error,
  fstring ("triage unavailable: " ∷ e ∷ []),
  record { finding_id = f.id; error = some (take_text 1000 e); duration_ms = none },
)
triage_finding (completed c) f =
    let (v, reasoning) = parse c in
    (
      v,
      reasoning,
      record {
        finding_id = f.id;
        error = if is_error v then some "unparseable response" else none;
        duration_ms = c.duration_ms;
      },
    )

-- The status that a verdict other than `error` gives.
status_for : LlmVerdict → Severity → FindingStatus → FindingStatus
status_for LlmVerdict.false_positive severity old =
    if leb (rank severity) (rank severity_floor)
    then FindingStatus.needs_review
    else FindingStatus.false_positive
status_for true_positive severity old = confirmed
status_for LlmVerdict.needs_review severity old = FindingStatus.needs_review
status_for error severity old = old

-- `apply_verdict`; `now` is the clock's time.
pub apply_verdict : LlmVerdict → String → String → ℕ → Finding → Finding
apply_verdict verdict reasoning model now f = record f {
  status = status_for verdict f.severity f.status;
  detected_by = if is_error verdict then f.detected_by else "both";
  llm_verdict = some (llm_verdict_value verdict);
  llm_reasoning = some reasoning;
  llm_model = some model;
  llm_at = some now;
}

pub record TriageResult : Type 0 where
  pub triaged : ℕ
  pub confirmed : ℕ
  pub dismissed : ℕ
  pub needs_review : ℕ
  pub errors : ℕ
  pub calls : List LlmCall
  pub total_duration_ms : ℕ

abbrev pub no_result : TriageResult
no_result = record {
  triaged = 0;
  confirmed = 0;
  dismissed = 0;
  needs_review = 0;
  errors = 0;
  calls = [];
  total_duration_ms = 0;
}

count_verdict : LlmVerdict → TriageResult → TriageResult
count_verdict true_positive r = record r { triaged = r.triaged + 1; confirmed = r.confirmed + 1 }
count_verdict LlmVerdict.false_positive r = record r {
  triaged = r.triaged + 1;
  dismissed = r.dismissed + 1;
}
count_verdict LlmVerdict.needs_review r = record r {
  triaged = r.triaged + 1;
  needs_review = r.needs_review + 1;
}
count_verdict error r = record r { triaged = r.triaged + 1; errors = r.errors + 1 }

-- The variables of the loop in `triage_run`.
abbrev pub Cache : Type 0
Cache = Dict String (LlmVerdict × String)

pub record Pass : Type 0 where
  pub cache : Cache
  pub result : TriageResult

abbrev pub by_rank_and_id : Finding → Finding → Bool
by_rank_and_id a b =
    ltb (rank a.severity) (rank b.severity)
    || (nat_beq (rank a.severity) (rank b.severity) && str_lt a.id b.id)

-- The provider, `hexdigest` of SHA-256 and the clock are the parameters: `ask` gives the reply to
-- the prompt for a finding, in the state of the pass.
module _ (ask : Finding → Reply) (sha256 : String → String) (model : String) (now : ℕ) where
  pub cache_key : Finding → String
  cache_key f = sha256 (fstring (f.rule_id ∷ "\u{1f}" ∷ f.value_hash ∷ []))

  add_call : String → LlmVerdict × String × LlmCall → Pass → Pass
  add_call key (v, reasoning, call) s = record {
    cache = put key (v, reasoning) s.cache;
    result = record s.result {
      calls = s.result.calls ++ call ∷ [];
      total_duration_ms = s.result.total_duration_ms + or_zero call.duration_ms;
    };
  }

  -- The verdict on a finding, from the cache or from a call.
  judge : Finding → Option (LlmVerdict × String) → Pass → (LlmVerdict × String) × Pass
  judge f (some known) s = (known, s)
  judge f none s =
      let (v, reasoning, call) = triage_finding (ask f) f in
      ((v, reasoning), add_call (cache_key f) (v, reasoning, call) s)

  -- The body of the loop.
  visit_finding : Finding → Pass → Finding × Pass
  visit_finding f s =
      let (known, s') = judge f (get (cache_key f) s.cache) s in
      (
        apply_verdict known.0 known.1 model now f,
        record s' { result = count_verdict known.0 s'.result },
      )

  triage_all : List Finding → Pass → List Finding × Pass
  triage_all [] s = ([], s)
  triage_all (f ∷ fs) s =
      let (f', s') = visit_finding f s in let (fs', s'') = triage_all fs s' in (f' ∷ fs', s'')

  pub triage_run : List Finding → List Finding × TriageResult
  triage_run fs =
      let (fs', s) =
        triage_all (sort_by by_rank_and_id fs) (record { cache = []; result = no_result }) in
      (fs', s.result)
