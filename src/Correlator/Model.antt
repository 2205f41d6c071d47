-- ===== src/Correlator/Model.antt =====
-- core/pipeline/correlator.py, core/models/tables.py, core/rules/model.py: the data of the
-- correlator, its indexes and its score. Probabilities and entropies are whole thousandths.
use bare_binary_analysis.Vocab.{FindingStatus, Severity}
use bare_binary_analysis.Prelude.{
  string_eq, pair_eq, option_eq, nat_eq, Bool, Dict, List, Option, String, ℕ, [], any_of, get, some,
  sort_by, str_lt, take_text, ◌+◌, ◌==◌, ◌||◌, ◌∷◌, append_at, group_by, if◌then◌else◌, join, max,
  none, or_nil, put, select, ◌&&◌, contains, leb, ltb, show, length, or_zero, min, ◌-◌,
}

pub record Evidence : Type 0 where
  pub artifact_id : String
  pub rule_id : String
  pub value_hash : String
  pub value_masked : String
  pub offset : Option ℕ
  pub section : Option String
  pub encoding : Option String
  pub entropy : Option ℕ
  pub context_snippet : Option String

-- What the correlator reads of a rule.
pub record Rule : Type 0 where
  pub id : String
  pub name : String
  pub category : String
  pub severity : Severity
  pub confidence : ℕ
  pub min_entropy : ℕ
  pub cwe : Option String
  pub tags : List String
  pub remediation : String
  pub enabled : Bool

pub record Suppression : Type 0 where
  pub value_hash : String
  pub rule_id : String
  pub path_pattern : String

pub record Finding : Type 0 where
  pub id : String
  pub run_id : String
  pub rule_id : String
  pub category : String
  pub title : String
  pub severity : String
  pub confidence : ℕ
  pub value_masked : String
  pub value_hash : String
  pub entropy : Option ℕ
  pub context_snippet : Option String
  pub cwe : Option String
  pub tags : List String
  pub remediation_md : String
  pub detected_by : String
  pub status : FindingStatus

pub record FindingLocation : Type 0 where
  pub finding_id : String
  pub run_id : String
  pub artifact_id : String
  pub path_in_tree : String
  pub offset : Option ℕ
  pub section : Option String
  pub encoding : Option String

pub record CorrelationResult : Type 0 where
  pub findings : List Finding
  pub locations : List FindingLocation
  pub suppressed : ℕ

unfoldable pub rule_before : Rule → Rule → Bool
rule_before r s = str_lt r.id s.id

-- `RulePack.enabled_rules`
unfoldable pub enabled_rules : List Rule → List Rule
enabled_rules rules = sort_by rule_before (select (λ r. r.enabled) rules)

unfoldable pub index_into : List Rule → Dict String Rule → Dict String Rule
index_into [] d = d
index_into (r ∷ rs) d = index_into rs (put r.id r d)

-- `{rule.id: rule for rule in pack.enabled_rules()}`
unfoldable pub index_rules : List Rule → Dict String Rule
index_rules rules = index_into (enabled_rules rules) []

unfoldable pub or_empty : Option String → String
or_empty none = ""
or_empty (some s) = s

unfoldable pub value_key : Evidence → String × String
value_key e = (e.rule_id, e.value_hash)

unfoldable pub pair_before : String × String → String × String → Bool
pair_before (a, b) (c, d) = str_lt a c || (a == c && str_lt b d)

-- The order of `_evidence_sort_key`.
unfoldable pub evidence_before : Evidence → Evidence → Bool
evidence_before e f =
    pair_before (value_key e) (value_key f)
    || (value_key e == value_key f
        && (str_lt e.artifact_id f.artifact_id
            || (e.artifact_id == f.artifact_id && ltb (or_zero e.offset) (or_zero f.offset))))

unfoldable pub group_before :
    (String × String) × List Evidence → (String × String) × List Evidence → Bool
group_before g h = pair_before g.0 h.0

-- `sorted(groups.items())`; no two groups have one key.
unfoldable pub sorted_groups : List Evidence → List ((String × String) × List Evidence)
sorted_groups evidence =
    sort_by group_before (group_by value_key (sort_by evidence_before evidence))

unfoldable pub index_suppressions_into :
    List Suppression → Dict (String × String) (List String) → Dict (String × String) (List String)
index_suppressions_into [] d = d
index_suppressions_into (s ∷ ss) d =
    index_suppressions_into ss (append_at (s.rule_id, s.value_hash) s.path_pattern d)

unfoldable pub index_suppressions : List Suppression → Dict (String × String) (List String)
index_suppressions ss = index_suppressions_into ss []

unfoldable pub is_suppressed :
    (String → String → Bool)
    → Dict (String × String) (List String)
    → String × String
    → String
    → Bool
is_suppressed fnmatch index key path =
    any_of (λ pattern. pattern == "*" || fnmatch path pattern) (or_nil (get key index))

-- The entropies that are known.
unfoldable pub entropies : List Evidence → List ℕ
entropies [] = []
entropies (e ∷ es) = elim e.entropy [ none ↦ entropies es | some n ↦ n ∷ entropies es ]

unfoldable pub maximum : ℕ → List ℕ → ℕ
maximum m [] = m
maximum m (n ∷ ns) = maximum (max m n) ns

unfoldable pub is_wide : Evidence → Bool
is_wide e = e.encoding == some "utf-16le"

-- What `_score` adds and what it takes off, in thousandths.
unfoldable pub entropy_gain : List ℕ → ℕ
entropy_gain [] = 0
entropy_gain (n ∷ ns) = if leb 4500 (maximum n ns) then 150 else 0

unfoldable pub entropy_loss : Rule → List ℕ → ℕ
entropy_loss rule [] = 0
entropy_loss rule (n ∷ ns) =
    if leb 4500 (maximum n ns)
    then 0
    else if leb (maximum n ns) 2500 && rule.min_entropy == 0
    then 150
    else 0

-- The deduction is taken last, for a subtraction that stops at 0: the bounds make them agree.
unfoldable pub score : Rule → List Evidence → ℕ
score rule items =
    let gain =
      entropy_gain (entropies items)
      + (if ltb 1 (length items) then 50 else 0)
      + (if any_of is_wide items then 50 else 0) in
    min (max (rule.confidence + gain - entropy_loss rule (entropies items)) 50) 990

unfoldable pub place_of : Evidence → String × Option ℕ
place_of e = (e.artifact_id, e.offset)

unfoldable pub location_place : FindingLocation → String × Option ℕ
location_place l = (l.artifact_id, l.offset)

-- The elements whose place none before them has, given the places already seen.
unfoldable pub first_at {ℓ} :
    {A : Type ℓ} → (A → String × Option ℕ) → List (String × Option ℕ) → List A → List A
first_at place seen [] = []
first_at place seen (x ∷ xs) =
    let later = first_at place (place x ∷ seen) xs in
    let skipped = first_at place seen xs in if contains seen (place x) then skipped else x ∷ later

-- `artifact_paths.get(id, "")`
unfoldable pub path_of : Dict String String → String → String
path_of paths id = or_empty (get id paths)

-- `Finding.compute_id`, by the hexadecimal text of SHA-256.
module _ (sha256 : String → String) where
  unfoldable pub compute_id : String → String → String → Option ℕ → String
  compute_id rule_id value_hash path offset =
      take_text 32
        (sha256 (join "\u{1f}" (rule_id ∷ value_hash ∷ path ∷ show (or_zero offset) ∷ [])))
