-- ===== src/Policy/Waive/Samples.antt =====
-- A new waiver, and an expiry in days.
use bare_binary_analysis.Vocab.{Severity}
use bare_binary_analysis.Policy.Document.{default_policy}
use bare_binary_analysis.Policy.Waive.Honoured.{IsHonoured, build_waiver-IsHonoured, is_concerned}
use bare_binary_analysis.Policy.Engine.{index_waivers, evaluate}
use bare_binary_analysis.Policy.Waive.{
  build_waiver, parse_expiry, on_relative, relative_days, shift, add_days, next_day, is_finding_id,
  all_hex, is_hex, text_length,
}
use bare_binary_analysis.Policy.Model.{GateFinding, Waiver}
use bare_binary_analysis.Prelude.{
  ok, refl, some, true, false, string_eq, Date, String, [], ◌≡◌, days_in_month, ◌∷◌, strip, lstrip,
  rstrip, lower, date_lt, days_between, any_of, get, ◌==◌, put,
}

abbrev today : Date
today = record { year = 2026; month = 2; day = 20 }

abbrev full_id : String
full_id = "0123456789abcdef0123456789abcdef"

abbrev made : Waiver
made = record {
  finding_id = full_id;
  reason = "inert";
  owner = "ana";
  expires = record { year = 2026; month = 3; day = 22 };
}

program : Unit {0}
unfolding parse_expiry on_relative relative_days shift add_days next_day days_in_month build_waiver
    is_finding_id all_hex is_hex text_length strip lstrip rstrip lower date_lt days_between
program = tt

thirty_days : parse_expiry " 30D " today ≡ ok made.expires
unfolding program
thirty_days = refl

built : build_waiver full_id "inert " "ana" made.expires default_policy today ≡ ok made
unfolding program
built = refl

abbrev finding : GateFinding
finding = record {
  id = full_id;
  rule_id = "aws-key";
  category = "secret";
  title = "AWS key";
  severity = Severity.high;
  status = "open";
  is_new = true;
  llm_dismissed = false;
  artifact_path = "setup.exe";
  value_masked = "AK**";
}

looked_up : get made.finding_id (index_waivers (made ∷ []) []) ≡ some made
unfolding get index_waivers put
looked_up = refl

build_waiver-IsHonoured_example :
    IsHonoured default_policy today made
    × (any_of
          (λ x. x.finding_id == made.finding_id)
          (evaluate (finding ∷ []) default_policy (made ∷ []) [] today).waived
        ≡ any_of (is_concerned default_policy made.finding_id) (finding ∷ []))
build_waiver-IsHonoured_example =
    build_waiver-IsHonoured full_id "inert " "ana" made.expires default_policy today made
      (made ∷ []) (finding ∷ []) [] built looked_up
