-- ===== src/Policy/Document.antt =====
-- core/policy/policy.py: the policy document.
use bare_binary_analysis.Prelude.{
  String, Bool, true, false, Option, none, some, List, [], leb, ℤ, pos, negsuc,
}
use bare_binary_analysis.Vocab.{Severity, rank}
use bare_binary_analysis.Policy.Model.{BaselineMode, new_only, DegradedPosture, fail}

abbrev pub unlimited : ℤ
unlimited = negsuc 0

abbrev pub default_max_waiver_days : ℤ
default_max_waiver_days = pos 90

pub record Budgets : Type 0 where
  pub critical : ℤ
  pub high : ℤ
  pub medium : ℤ
  pub low : ℤ
  pub info : ℤ

abbrev pub default_budgets : Budgets
default_budgets = record {
  critical = unlimited;
  high = unlimited;
  medium = unlimited;
  low = unlimited;
  info = unlimited;
}

unfoldable pub limit_for : Budgets → Severity → ℤ
limit_for b Severity.critical = b.critical
limit_for b Severity.high = b.high
limit_for b Severity.medium = b.medium
limit_for b Severity.low = b.low
limit_for b Severity.info = b.info

pub record Policy : Type 0 where
  pub name : String
  pub version : ℤ
  pub block_at_or_above : Option Severity
  pub block_categories : List String
  pub block_rules : List String
  pub budgets : Budgets
  pub baseline_mode : BaselineMode
  pub on_degraded : DegradedPosture
  pub trust_llm_dismissals : Bool
  pub max_waiver_days : ℤ
  pub require_waiver_owner : Bool
  pub require_waiver_reason : Bool

abbrev pub default_policy : Policy
default_policy = record {
  name = "default";
  version = pos 1;
  block_at_or_above = some Severity.high;
  block_categories = [];
  block_rules = [];
  budgets = default_budgets;
  baseline_mode = new_only;
  on_degraded = fail;
  trust_llm_dismissals = false;
  max_waiver_days = default_max_waiver_days;
  require_waiver_owner = true;
  require_waiver_reason = true;
}

floor_blocks : Option Severity → Severity → Bool
floor_blocks none severity = false
floor_blocks (some floor) severity = leb (rank severity) (rank floor)

-- Policy.blocks
unfoldable pub blocks : Policy → Severity → Bool
unfolding floor_blocks rank
blocks p severity = floor_blocks p.block_at_or_above severity
