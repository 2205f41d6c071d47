-- ===== src/LogFollow.antt =====
-- cli/log_follow.py: what the command line prints of a run that it waits for.
pub mod Growth
mod Samples
use Prim.Native.Nat.{ℕ, ◌/◌, ◌%◌, zero, suc}
use Prim.Native.Char.{code}
use Prim.Native.String
use Prim.Native.String.{char_at}
use bare_binary_analysis.Prelude.{
  List, String, Bool, Dict, Option, [], fstring, if◌then◌else◌, leb, put, ◌∷◌, false, get, length,
  ltb, nat_beq, some, ◌==◌, ◌||◌, contains, map, none, string_eq, true, ◌&&◌, ◌++◌, or_zero,
  after_prefix, or_whole,
}

-- `_UNSAFE`
pub is_unsafe : ℕ → Bool
is_unsafe c =
    leb c 8
    || (leb 10 c && leb c 31)
    || (leb 127 c && leb c 159)
    || (leb 8232 c && leb c 8233)
    || (leb 8234 c && leb c 8238)
    || (leb 8294 c && leb c 8297)

hex_digit : ℕ → String
hex_digit n = String.◌∷◌ (char_at "0123456789abcdef" (n % 16)) ""

-- `escape`: two digits below 256, else four, which is enough for the characters above.
escape : ℕ → String
escape c =
    if ltb c 256
    then fstring ("\\x" ∷ hex_digit (c / 16) ∷ hex_digit c ∷ [])
    else fstring
        ("\\u" ∷ hex_digit (c / 4096) ∷ hex_digit (c / 256) ∷ hex_digit (c / 16) ∷ hex_digit c ∷ [])

pub sanitize : String → String
sanitize String.[] = ""
sanitize (String.◌∷◌ c s) =
    let rest = sanitize s in
    if is_unsafe (code c) then String.◌++◌ (escape (code c)) rest else String.◌∷◌ c rest

-- `text.partition(sep)`, without the separator.
partition_step : String → Option String → String × String → String × String
partition_step c (some t) rest = ("", t)
partition_step c none (before, t) = (String.◌++◌ c before, t)

partition : String → String → String × String
partition sep String.[] = ("", "")
partition sep (String.◌∷◌ c s) =
    partition_step (String.◌∷◌ c "") (after_prefix sep (String.◌∷◌ c s)) (partition sep s)

-- `text.removesuffix("\n").split("\n")`: a line break at the very end opens no line.
add_char : String → List String → List String
add_char c [] = c ∷ []
add_char c (line ∷ rest) = String.◌++◌ c line ∷ rest

pub lines_of : String → List String
lines_of String.[] = []
lines_of (String.◌∷◌ c s) =
    let rest = lines_of s in
    if nat_beq (code c) 10 then "" ∷ rest else add_char (String.◌∷◌ c "") rest

pub split_streams : String → List String × List String
split_streams document =
    let body = or_whole (after_prefix "--- stdout ---\n" document) document in
    let (stdout, stderr) = partition "\n--- stderr ---\n" body in (lines_of stdout, lines_of stderr)

-- The dict of printed counts as one for each stream, and what was handed to `echo` and `warn`.
pub record LogFollower : Type 0 where
  pub printed_stdout : Dict String ℕ
  pub printed_stderr : Dict String ℕ
  pub status : Dict String String
  pub settled : List String
  pub disabled : Bool
  pub echoed : List String
  pub warned : List String

-- lines[n:]
pub skip : {A : Type 0} → ℕ → List A → List A
skip zero xs = xs
skip (suc n) [] = []
skip (suc n) (x ∷ xs) = skip n xs

pub labelled : String → String → String → String
labelled analyzer stream line = fstring ("[" ∷ analyzer ∷ ":" ∷ stream ∷ "] " ∷ sanitize line ∷ [])

rewritten : String → String → String
rewritten analyzer stream =
    fstring
      ("[" ∷ analyzer ∷ ":" ∷ stream ∷ "] [bare: log rewritten; earlier lines may differ]" ∷ [])

-- What one stream of `_print_new` echoes, after `printed` lines of it.
pub new_lines : String → String → List String → ℕ → List String
new_lines analyzer stream lines printed =
    if ltb (length lines) printed
    then rewritten analyzer stream ∷ []
    else map (labelled analyzer stream) (skip printed lines)

-- `_print_new`
pub print_new : String → String → String → LogFollower → LogFollower
print_new id analyzer document s =
    let (stdout, stderr) = split_streams document in
    record s {
      printed_stdout = put id (length stdout) s.printed_stdout;
      printed_stderr = put id (length stderr) s.printed_stderr;
      echoed =
          (s.echoed ++ new_lines analyzer "stdout" stdout (or_zero (get id s.printed_stdout)))
          ++ new_lines analyzer "stderr" stderr (or_zero (get id s.printed_stderr));
    }

-- What `get_stage_log` gives: a document, none, or an `ApiError` with its status and text.
pub data Fetched : Type 0 where
  nothing : Fetched
  document : String → Fetched
  api_error : ℕ → String → Fetched

-- A stage of the run detail response, with the defaults for what is missing put in.
pub record StageView : Type 0 where
  pub id : String
  pub analyzer : String
  pub status : String

text_eq : Option String → String → Bool
text_eq none s = false
text_eq (some t) s = t == s

show_status : StageView → LogFollower → LogFollower
show_status v s = if text_eq (get v.id s.status) v.status then s else record s {
  status = put v.id v.status s.status;
  echoed = s.echoed ++ fstring ("[" ∷ v.analyzer ∷ "] " ∷ v.status ∷ []) ∷ [];
}

settle : StageView → LogFollower → LogFollower
settle v s =
    if v.status == "pending" || v.status == "running"
    then s
    else record s { settled = v.id ∷ s.settled }

-- The stages after the first error of status 401 or 403 are not looked at.
after_fetch : StageView → Fetched → LogFollower → LogFollower
after_fetch v nothing s = settle v s
after_fetch v (document text) s = settle v (print_new v.id v.analyzer text s)
after_fetch v (api_error status text) s =
    if nat_beq status 401 || nat_beq status 403
    then record s {
      disabled = true;
      warned = s.warned ++ "analyzer logs need an admin-scoped token; continuing without them" ∷ [];
    }
    else record s {
      warned = s.warned ++ fstring ("could not read the " ∷ v.analyzer ∷ " log: " ∷ text ∷ []) ∷ [];
    }

-- The log source is the argument: its answers during this poll.
pub poll_stage : (String → Fetched) → StageView → LogFollower → LogFollower
poll_stage fetch v s =
    if v.id == "" || contains s.settled v.id
    then s
    else after_fetch v (fetch v.id) (show_status v s)

pub poll : (String → Fetched) → List StageView → LogFollower → LogFollower
poll fetch [] s = s
poll fetch (v ∷ vs) s =
    let rest = poll fetch vs (poll_stage fetch v s) in if s.disabled then s else rest
