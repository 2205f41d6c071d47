-- ===== src/Scan/Rows.antt =====
-- core/pipeline/scan.py: the rows of evidence that `_to_evidence` makes of the static analyzer's
-- result.
use bare_binary_analysis.Correlator.Model.{Evidence}
use bare_binary_analysis.Prelude.{
  Bool, Dict, String, List, Option, get, none, if◌then◌else◌, some, ℕ, ◌∷◌, map, string_eq, ◌++◌,
  [],
}

-- A match of the result document, with the keys that it has to have and those it may have.
pub record Match : Type 0 where
  pub rule_id : String
  pub value_hash : String
  pub value_masked : String
  pub value_plaintext : Option String
  pub offset : Option ℕ
  pub encoding : Option String
  pub entropy : Option ℕ
  pub context : Option String
  pub context_plaintext : Option String

pub record FileEntry : Type 0 where
  pub relative_path : String
  pub matches : List Match

-- A row of the table: what the correlator reads, and the rest.
pub record EvidenceRow : Type 0 where
  pub evidence : Evidence
  pub run_id : String
  pub analyzer : String
  pub value_plaintext : Option String
  pub context_plaintext : Option String

-- The artifact of a file; one that the tree does not know is the root's.
unfoldable pub artifact_of : Dict String String → String → FileEntry → String
artifact_of staged_paths root_id entry = elim (get entry.relative_path staged_paths) [
  | none ↦ root_id
  | some id ↦ id
]

unfoldable pub row_of : Bool → String → String → Match → EvidenceRow
row_of retain_plaintext run_id artifact_id m = record {
  evidence = record {
    artifact_id = artifact_id;
    rule_id = m.rule_id;
    value_hash = m.value_hash;
    value_masked = m.value_masked;
    offset = m.offset;
    section = none;
    encoding = m.encoding;
    entropy = m.entropy;
    context_snippet = m.context;
  };
  run_id = run_id;
  analyzer = "static";
  value_plaintext = if retain_plaintext then m.value_plaintext else none;
  context_plaintext = if retain_plaintext then m.context_plaintext else none;
}

-- `_to_evidence`
unfoldable pub to_evidence :
    Bool → String → Dict String String → String → List FileEntry → List EvidenceRow
to_evidence retain_plaintext run_id staged_paths root_id [] = []
to_evidence retain_plaintext run_id staged_paths root_id (entry ∷ files) =
    map (row_of retain_plaintext run_id (artifact_of staged_paths root_id entry)) entry.matches
    ++ to_evidence retain_plaintext run_id staged_paths root_id files
