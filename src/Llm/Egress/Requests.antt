-- ===== src/Llm/Egress/Requests.antt =====
-- What a provider calls, and what the policy permits.
use bare_binary_analysis.Llm.Egress.{Address, Provider, ollama, litellm}
use bare_binary_analysis.Prelude.{
  string_eq, String, Option, ◌≡◌, true, ◌⊎◌, fstring, Bool, ◌==◌, ◌∷◌, [],
}

module _ (hostname : String → String) (address : String → Option Address) where
  module _ (honours : String → Bool) where
    -- What is relied on of the two libraries: LiteLLM sends the requests for the model to the URL
    -- that it is given, if any, and a path appended to the URL of Ollama leaves the host as it is.
    abbrev pub IsHeeded : Provider → Type 0
    IsHeeded (ollama base_url model) =
        hostname (fstring (base_url ∷ "/api/tags" ∷ [])) ≡ hostname base_url
    IsHeeded (litellm base_url local model) = ((base_url == "") ≡ true) ⊎ (honours model ≡ true)
