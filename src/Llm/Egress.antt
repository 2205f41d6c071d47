-- ===== src/Llm/Egress.antt =====
-- core/llm/provider.py, router.py and the providers: which endpoint a call of a model may reach.
-- Parameters are two parsers of the standard library, `hostname`, of `urlparse(url).hostname`
-- ("" for None), and `address`, of `ipaddress.ip_address`; and `honours`, the models for which
-- LiteLLM sends its requests to the `api_base` that it is given.
pub mod Permitted
pub mod Requests
mod Samples
use bare_binary_analysis.Prelude.{
  String, Bool, false, Option, none, some, List, [], ◌∷◌, Dict, Result, ok, err, ◌>>=◌, ◌>>◌,
  raise_if, or_raise, re_raise, string_eq, fstring, get, if◌then◌else◌, not, ◌==◌, ◌||◌, ends_with,
  has_key, truthy, ◌&&◌, contains,
}
use Prim.Native.String

-- What the code asks of a parsed IP address.
pub record Address : Type 0 where
  pub is_loopback : Bool
  pub is_private : Bool
  pub is_link_local : Bool

-- Why `EgressBlocked` is raised; the text is the host or the description in its message.
pub data Refusal : Type 0 where
  no_host air_gap denied not_listed unchecked : String → Refusal

pub data LlmError : Type 0 where
  egress_blocked : Refusal → LlmError
  no_role undefined disabled : String → LlmError
  would_be_blocked : String → LlmError → LlmError
  key_error : String → LlmError

-- `EgressPolicyGuard`
pub record Guard : Type 0 where
  pub allow_egress : Bool
  pub air_gapped : Bool
  pub allowed_hosts : List String

-- An entry of `providers`, with values of the types that they have in the shipped file.
pub record ProviderSpec : Type 0 where
  pub kind : String
  pub model : Option String
  pub base_url : Option String
  pub is_local : Option Bool

-- `LLMConfig`; `egress_allowed` is `egress is EgressPolicy.ALLOW`.
pub record LlmConfig : Type 0 where
  pub enabled : Bool
  pub providers : Dict String ProviderSpec
  pub roles : Dict String String
  pub egress_allowed : Bool
  pub allowed_hosts : List String

pub data Provider : Type 0 where
  ollama : String → String → Provider
  litellm : String → Bool → String → Provider

-- Where a call goes: to a URL, or to the endpoint that the library resolves for the model.
pub data Endpoint : Type 0 where
  at_url resolved : String → Endpoint

-- The operations of a provider that call the endpoint of the model; `warm` of Ollama posts as
-- `complete` does.
pub data Operation : Type 0 where
  completion capability probe : Operation

-- The request that is made; none where an error comes first.
if_ok : Result LlmError Endpoint → Option Endpoint
if_ok (ok e) = some e
if_ok (err e) = none

pub check_remote_allowed : Guard → String → Result LlmError (Unit {0})
check_remote_allowed g description = do
  raise_if g.air_gapped (egress_blocked (air_gap description))
  raise_if (not g.allow_egress) (egress_blocked (denied description))
  raise_if (truthy g.allowed_hosts) (egress_blocked (unchecked description))

-- `build_guard`
pub build_guard : LlmConfig → Bool → Guard
build_guard c air_gapped = record {
  allow_egress = c.egress_allowed;
  air_gapped = air_gapped;
  allowed_hosts = c.allowed_hosts;
}

-- `LLMConfig.provider_for`
pub provider_for : LlmConfig → String → Result LlmError String
provider_for c role = do
  name ← or_raise (get role c.roles) (no_role role)
  raise_if (not (has_key name c.providers)) (undefined name)
  ok name

check_roles : LlmConfig → List String → Result LlmError (Unit {0})
check_roles c [] = ok tt
check_roles c (role ∷ rest) =
    let more = check_roles c rest in
    if has_key role c.roles then (provider_for c role >>= λ _. more) else more

abbrev roles : List String
roles = "triage" ∷ "explain" ∷ "remediate" ∷ "summarize" ∷ "investigate" ∷ []

-- s.rstrip("/")
rstrip_slashes : String → String
rstrip_slashes String.[] = ""
rstrip_slashes (String.◌∷◌ c s) =
    let rest = rstrip_slashes s in
    if rest == "" && String.◌∷◌ c "" == "/" then "" else String.◌∷◌ c rest

-- `str(spec.get("base_url", "") or "")`
pub url_of : ProviderSpec → String
url_of spec = elim spec.base_url [ none ↦ "" | some url ↦ url ]

pub is_declared_local : ProviderSpec → Bool
is_declared_local spec = elim spec.is_local [ none ↦ false | some b ↦ b ]

module _ (hostname : String → String) (address : String → Option Address) where
  address_is_local : Option Address → Bool
  address_is_local none = false
  address_is_local (some a) = a.is_loopback || a.is_private || a.is_link_local

  -- `_is_local_host`
  is_local_host : String → Bool
  is_local_host host =
      host == "localhost"
      || host == "localhost.localdomain"
      || ends_with host ".local"
      || address_is_local (address host)

  -- `EgressPolicyGuard.is_local`
  pub is_local_url : String → Bool
  is_local_url url = is_local_host (hostname url)

  -- `EgressPolicyGuard.check`, for a host that is not local
  check_host : Guard → String → Result LlmError (Unit {0})
  check_host g host = do
    raise_if g.air_gapped (egress_blocked (air_gap host))
    raise_if (not g.allow_egress) (egress_blocked (denied host))
    raise_if (truthy g.allowed_hosts && not (contains g.allowed_hosts host))
        (egress_blocked (not_listed host))

  pub check : Guard → String → Result LlmError (Unit {0})
  check g url =
      if hostname url == ""
      then err (egress_blocked (no_host url))
      else if is_local_url url
      then ok tt
      else check_host g (hostname url)

  -- The check of one provider in `_validate`.
  pub check_spec : Guard → String → ProviderSpec → Result LlmError (Unit {0})
  check_spec g name spec =
      if not (url_of spec == "")
      then check g (url_of spec)
      else if is_declared_local spec
      then ok tt
      else check_remote_allowed g name

  check_specs : Guard → Dict String ProviderSpec → Result LlmError (Unit {0})
  check_specs g [] = ok tt
  check_specs g ((name, spec) ∷ rest) =
      re_raise (check_spec g name spec) (would_be_blocked name) >>= λ _. check_specs g rest

  -- `_validate`
  pub validate_config : LlmConfig → Bool → Result LlmError (Unit {0})
  validate_config c air_gapped =
      if c.enabled
      then check_roles c roles >>= (λ _. check_specs (build_guard c air_gapped) c.providers)
      else ok tt

  -- Where the provider of a URL or of a declaration is.
  pub is_local_endpoint : ProviderSpec → Bool
  is_local_endpoint spec =
      if url_of spec == "" then is_declared_local spec else is_local_url (url_of spec)

  build_litellm : Guard → String → ProviderSpec → Result LlmError Provider
  build_litellm g name spec = do
    if is_local_endpoint spec then ok tt else check_remote_allowed g name
    model ← or_raise spec.model (key_error "model")
    ok (litellm (rstrip_slashes (url_of spec)) (is_local_endpoint spec) model)

  build_ollama : ProviderSpec → Result LlmError Provider
  build_ollama spec = do
    model ← or_raise spec.model (key_error "model")
    ok (
        ollama
          (rstrip_slashes (elim spec.base_url [ none ↦ "http://localhost:11434" | some url ↦ url ]))
          model)

  pub build_spec : Guard → String → ProviderSpec → Result LlmError Provider
  build_spec g name spec =
      if spec.kind == "ollama" then build_ollama spec else build_litellm g name spec

  pub build_provider : LlmConfig → Bool → String → Result LlmError Provider
  build_provider c air_gapped name = or_raise (get name c.providers) (undefined name) >>= λ spec.
      build_spec (build_guard c air_gapped) name spec

  pub provider_for_role : String → LlmConfig → Bool → Result LlmError Provider
  provider_for_role role c air_gapped = do
    raise_if (not c.enabled) (disabled role)
    name ← provider_for c role
    build_provider c air_gapped name

  -- `_check_egress`
  check_egress : Guard → String → Bool → String → Result LlmError (Unit {0})
  check_egress g base_url local model =
      if not (base_url == "")
      then check g base_url
      else if local
      then ok tt
      else check_remote_allowed g model

  -- `_post`, as far as its request.
  post : Guard → String → String → Result LlmError Endpoint
  post g base_url path =
      let url = fstring (base_url ∷ path ∷ []) in check g url >>= λ _. ok (at_url url)

  -- `honours` says for which models the library sends its request to `api_base`.
  module _ (honours : String → Bool) where
    -- Where `litellm.completion` sends its request.
    pub completion_at : String → String → Endpoint
    completion_at base_url model =
        if not (base_url == "") && honours model then at_url base_url else resolved model

    -- `complete`, as far as its one request: the egress check, and the endpoint that is called.
    pub complete : Guard → Provider → Result LlmError Endpoint
    complete g (ollama base_url model) = post g base_url "/api/chat"
    complete g (litellm base_url local model) =
        check_egress g base_url local model >>= λ _. ok (completion_at base_url model)

    -- `capabilities`, where nothing is cached; the library answers from its own table of models.
    pub capabilities : Guard → Provider → Option Endpoint
    capabilities g (ollama base_url model) = if_ok (post g base_url "/api/show")
    capabilities g (litellm base_url local model) = none

    -- `health`; the library is not called for a hosted model without a key.
    pub health : Bool → Guard → Provider → Option Endpoint
    health has_api_key g (ollama base_url model) =
        if_ok (check g base_url >>= λ _. ok (at_url (fstring (base_url ∷ "/api/tags" ∷ []))))
    health has_api_key g (litellm base_url local model) =
        if not has_api_key && not local
        then none
        else if_ok (check_egress g base_url local model >>= λ _. ok (completion_at base_url model))

    -- The endpoint that an operation of the provider calls, if it gets so far.
    pub request : Operation → Bool → Guard → Provider → Option Endpoint
    request completion has_api_key g p = if_ok (complete g p)
    request capability has_api_key g p = capabilities g p
    request probe has_api_key g p = health has_api_key g p
