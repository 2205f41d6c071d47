-- ===== src/Lib.antt =====
-- BARE scans compiled artifacts for exposed secrets. A run goes through stages in sandboxed
-- containers (unpack, static analysis, Ghidra), the correlator writes findings, a language model
-- may triage them, and a release gate turns the findings into a verdict for a build. This
-- library models the parts that decide, and proves what they promise.
--
-- The files, and the code that each is about:
--   Vocab          core/vocab.py and the enumerations of core/models/enums.py
--   Policy.Model, Policy.Document, Policy.Engine
--                  core/policy/model.py, policy.py and engine.py: what may ship
--   Policy.Loader, Policy.Serde, Policy.Waive
--                  core/policy/loader.py, serde.py and waive.py: policies and waivers as YAML, the
--                  verdict as JSON, and a new waiver in the file
--   SbomDiff       reporting/sbom_diff.py: what changed between the components of two builds
--   Stages, Gate   core/pipeline/stages.py and gate.py: from the rows of a run to the engine
--   Auth, Tokens   core/auth.py and core/pipeline/tokens.py: API tokens over their life
--   Scan           core/pipeline/scan.py: the claim of a run, its stages and its end, the
--                  rows of evidence and the specifications of its two containers
--   Correlator     core/pipeline/correlator.py: from evidence to findings
--   Sandbox        core/sandbox/spec.py, watchdog.py and reaper.py: what a container may be asked
--                  for, deadlines, and orphaned containers
--   Unpack         core/unpack/budget.py, detect.py and extractor.py: the caps on an extraction, the
--                  format of a file, and the recursive walk
--   Recovery       core/pipeline/recovery.py: runs and stages whose worker is gone
--   Triage         core/llm/triage.py: a model's verdicts on findings
--   Llm.Egress     core/llm/provider.py, router.py and the two providers of core/llm/providers:
--                  where a call of a model may go
--   LogFollow      cli/log_follow.py: the output of a run's stages on the command line
--   Prelude        Python's lists, dicts, texts, dates, integers, sorting, exceptions, and the values
--                  of JSON and YAML documents
-- A function keeps its name in the source, without a leading underscore. The body of a loop is a
-- function of its own (`visit` for the loop of `evaluate`, `step_run` for that of
-- `sweep_orphaned_runs`), and so is what comes after a test that the code makes on a looked-up
-- row. The modules below a component hold its theorems, and Samples the tests and concrete
-- inputs.
--
-- How the parts interact: `gate_run` reads the run, chooses a baseline, projects the rows into
-- `GateFinding`, asks Stages which stages are degraded, and calls `evaluate`. Triage writes the
-- `llm_verdict` and the `status` that the gate reads back. The sweeps of Recovery end the runs
-- that the gate waits for. Unpack's budget makes a stage `truncated`, which Stages counts as
-- degraded. The policy and the waivers that `evaluate` is given come from the loader, to which
-- `append_waiver` writes; the command line reads the verdict from its JSON.
--
-- State is passed explicitly: a database session is a record of the tables that an operation
-- reads or writes, as lists of rows in the order in which the database gives them. `first()` of
-- a query without an order is the first such row. Moments are natural numbers of seconds
-- (milliseconds in the watchdog), the clock and random values are arguments. Loops are over
-- lists. Fuel is needed in the printing of a number, where it is the number itself plus one, and
-- in the walk over nested archives, where the depth cap plus two levels are enough.
--
-- Code outside the repository is a parameter: SHA-256 (`sha256`), the file name test `fnmatch`,
-- the container runtime (`ContainerHandle`, `SandboxDriver`), the model's provider (`ask`), the
-- readers of archives and the programs 7z and unsquashfs (`Tools`), which write below the
-- directory that they are given, and PyYAML's `safe_load`. In Llm.Egress the host of a URL, the
-- models for which LiteLLM heeds the URL that it is given, and
-- the class of an IP address are parameters too. The database's part is the semantics of its
-- queries and, for tokens, the refusal of a duplicate id or hash.
--
-- Not modelled: log calls; `render` and `summary_line`; the prompt's text and the columns of
-- `llm_calls` that do not depend on the reply; overrides of `for_input`; time zones; the length
-- limits of columns; errors of the extractor's disk (a directory can always be made, a path that
-- is a directory can be written, no path is a symbolic link). A text that Python shows by `repr`
-- is put between single quotes as it is, and letters outside ASCII are not lowered.
-- Probabilities and entropies of the correlator are whole thousandths. The values of a document
-- have no floats and keys that are texts; `int(...)` and the days of an expiry read ASCII
-- digits, and `fromisoformat` the forms YYYY-MM-DD and YYYYMMDD. The policy files' reading from
-- disk and `render_json` of the diff are left out; of the egress errors the kind and the subject
-- are kept. The API, the rest of the command line, the analyzers and the other reports are not
-- modelled.
mod Prelude
pub mod Vocab
pub mod Policy
pub mod Stages
pub mod Gate
pub mod Auth
pub mod Correlator
pub mod Scan
pub mod SbomDiff
pub mod Tokens
pub mod Sandbox
pub mod Unpack
pub mod Recovery
pub mod Triage
pub mod Llm
pub mod LogFollow
