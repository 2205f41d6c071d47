-- ===== src/Llm/Egress/Samples.antt =====
-- A local provider, a hosted one, and a configuration with an allowlist.
use bare_binary_analysis.Llm.Egress.Permitted.{validate_config-builds}
use bare_binary_analysis.Llm.Egress.{
  LlmConfig, Provider, ProviderSpec, build_provider, provider_for_role, validate_config, build_spec,
  complete, litellm, ollama, url_of, Address, build_guard, build_ollama, is_local_endpoint,
  build_litellm, is_local_url, check_roles, is_local_host, address_is_local, check_specs,
  check_spec, check, check_host, check_remote_allowed, is_declared_local, provider_for,
  rstrip_slashes, err, egress_blocked, unchecked, health, request, resolved, post, check_egress,
  completion_at, if_ok,
}
use bare_binary_analysis.Prelude.{
  ok, refl, none, some, true, false, string_eq, List, String, get, Option, [], if◌then◌else◌, ◌∷◌,
  ◌≡◌, ◌==◌, ends_with, has_key, contains, fstring, starts_with, after_prefix, Bool, not,
}

abbrev toy_host : String → String
toy_host url =
    if starts_with url "http://box.local"
    then "box.local"
    else if url == "https://llm.example.com"
    then "llm.example.com"
    else ""

abbrev toy_address : String → Option Address
toy_address host = none

abbrev local_spec : ProviderSpec
local_spec = record {
  kind = "ollama";
  model = some "qwen";
  base_url = some "http://box.local:11434/";
  is_local = none;
}

abbrev hosted_spec : ProviderSpec
hosted_spec = record {
  kind = "openai";
  model = some "gpt";
  base_url = some "https://llm.example.com";
  is_local = none;
}

abbrev config : List String → LlmConfig
config hosts = record {
  enabled = true;
  providers = ("box", local_spec) ∷ ("cloud", hosted_spec) ∷ [];
  roles = ("triage", "cloud") ∷ [];
  egress_allowed = true;
  allowed_hosts = hosts;
}

abbrev listed : LlmConfig
listed = config ("llm.example.com" ∷ [])

abbrev gemini_config : LlmConfig
gemini_config = record (config []) {
  providers =
      (
        "proxy",
        record {
          kind = "litellm";
          model = some "gemini/flash";
          base_url = some "http://box.local:4000/";
          is_local = none;
        },
      )
      ∷ [];
}

abbrev box : Provider
box = ollama "http://box.local:11434" "qwen"

abbrev cloud : Provider
cloud = litellm "https://llm.example.com" false "gpt"

program : Unit {0}
unfolding build_provider build_spec build_ollama build_litellm validate_config check_roles
    check_specs check_spec check check_host check_remote_allowed complete health request post
    check_egress completion_at if_ok build_guard url_of is_declared_local is_local_endpoint
    is_local_url is_local_host address_is_local provider_for rstrip_slashes get has_key contains
    starts_with after_prefix ends_with fstring provider_for_role
program = tt

-- As documented of LiteLLM, which ignores the URL for Gemini.
abbrev not_gemini : String → Bool
not_gemini model = not (starts_with model "gemini/")

-- An entry with a local URL and a model of Gemini can be built and used in air-gapped mode, and the
-- library calls the hosted endpoint of the model.
gemini_leaves :
    (build_provider toy_host toy_address gemini_config true "proxy"
      ≡ ok (litellm "http://box.local:4000" true "gemini/flash"))
    × (complete toy_host toy_address not_gemini
          (build_guard gemini_config true)
          (litellm "http://box.local:4000" true "gemini/flash")
        ≡ ok (resolved "gemini/flash"))
unfolding program
gemini_leaves = (refl, refl)

-- The configuration loads, since the host is in the list.
listed_loads : validate_config toy_host toy_address listed false ≡ ok tt
unfolding program
listed_loads = refl

-- But the provider cannot be built.
listed_refused :
    build_provider toy_host toy_address listed false "cloud"
    ≡ err (egress_blocked (unchecked "cloud"))
unfolding program
listed_refused = refl

open_loads : validate_config toy_host toy_address (config []) false ≡ ok tt
unfolding program
open_loads = refl

validate_config-builds_example :
    (p : Provider) × (build_provider toy_host toy_address (config []) false "cloud" ≡ ok p)
unfolding get
validate_config-builds_example =
    validate_config-builds toy_host toy_address (config []) false "cloud" "gpt" hosted_spec refl
      refl open_loads refl refl

triage_built : provider_for_role toy_host toy_address "triage" (config []) false ≡ ok cloud
unfolding program
triage_built = refl
