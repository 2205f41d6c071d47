-- ===== src/Llm/Egress/Permitted.antt =====
-- What the policy permits, and which providers can be built.
use bare_binary_analysis.Llm.Egress.{
  Guard, check_remote_allowed, Address, ProviderSpec, check, Endpoint, Provider, check_host, at_url,
  is_local_url, ollama, litellm, is_local_endpoint, resolved, is_declared_local, build_litellm,
  build_provider, build_spec, LlmConfig, build_guard, build_ollama, key_error, check_spec,
  check_specs, url_of, would_be_blocked, rstrip_slashes, validate_config, check_roles, roles,
}
use bare_binary_analysis.Prelude.{
  arith, string_eq, none, some, ok, >>=-eq-ok, inl, inr, String, Option, ◌≡◌, false, true, truthy,
  ◌&&◌, not, ◌⊎◌, Bool-cases, contains, if◌then◌else◌, Bool, or_raise, ◌==◌, ◌∷◌, [], get, subst,
  ok-injective, refl, Dict, re_raise, eq_iff,
}

-- The policy lets the deployment reach hosts of which nothing is known.
pub record IsOpen (g : Guard) : Type 0 where
  pub connected : g.air_gapped ≡ false
  pub allowed : g.allow_egress ≡ true
  pub unlisted : truthy g.allowed_hosts ≡ false

-- The policy lets the deployment reach the host.
pub record Reaches (g : Guard) (host : String) : Type 0 where
  pub connected : g.air_gapped ≡ false
  pub allowed : g.allow_egress ≡ true
  pub listed : (truthy g.allowed_hosts && not (contains g.allowed_hosts host)) ≡ false

check_remote_allowed-IsOpen :
    (g : Guard) (description : String) → check_remote_allowed g description ≡ ok tt → IsOpen g
unfolding check_remote_allowed
check_remote_allowed-IsOpen g description h = ground arith

IsOpen-check_remote_allowed :
    (g : Guard) (description : String) → IsOpen g → check_remote_allowed g description ≡ ok tt
unfolding check_remote_allowed
IsOpen-check_remote_allowed g description o = ground arith

if_true {ℓ} : {A : Type ℓ} (b : Bool) (x y z : A) → b ≡ true → (if b then x else y) ≡ z → x ≡ z
if_true true x y z h e = e
if_true false x y z h e = absurd (ground arith)

module _ (hostname : String → String) (address : String → Option Address) where
  -- What the policy says of an endpoint that a provider built from the entry calls.
  abbrev pub IsPermitted : Guard → ProviderSpec → Endpoint → Type 0
  IsPermitted g spec (at_url url) =
      (is_local_url hostname address url ≡ true) ⊎ Reaches g (hostname url)
  IsPermitted g spec (resolved model) = (is_local_endpoint hostname address spec ≡ true) ⊎ IsOpen g

  pub check-Reaches :
      (g : Guard) (url : String)
      → check hostname address g url ≡ ok tt
      → (is_local_url hostname address url ≡ true) ⊎ Reaches g (hostname url)
  unfolding check check_host
  check-Reaches g url h = elim (Bool-cases (is_local_url hostname address url)) [
    | inl e ↦ inl e
    | inr e ↦ inr (ground arith)
  ]

  -- A provider of the library is flagged as local as its entry is, and built only then or under
  -- an open policy.
  unfoldable pub Fits : Guard → ProviderSpec → Provider → Type 0
  Fits g spec (ollama base_url model) = Unit
  Fits g spec (litellm base_url local model) =
      (local ≡ is_local_endpoint hostname address spec) × ((local ≡ true) ⊎ IsOpen g)

  build_litellm-Fits :
      (g : Guard) (name : String) (spec : ProviderSpec) (p : Provider)
      → build_litellm hostname address g name spec ≡ ok p
      → Fits g spec p
  unfolding build_litellm Fits
  build_litellm-Fits g name spec p h =
      let local = is_local_endpoint hostname address spec in
      let (_, checked, k) =
        >>=-eq-ok (if local then ok tt else check_remote_allowed g name) _ p h in
      let (model, _, e) = >>=-eq-ok (or_raise spec.model (key_error "model")) _ p k in
      subst (Fits g spec) (ok-injective _ p e) (
        refl,
        elim (Bool-cases local) [
          | inl l ↦ inl l
          | inr r ↦ inr (check_remote_allowed-IsOpen g name (rw r at checked))
        ],
      )

  pub build_spec-Fits :
      (g : Guard) (name : String) (spec : ProviderSpec) (p : Provider)
      → build_spec hostname address g name spec ≡ ok p
      → Fits g spec p
  unfolding build_spec build_ollama Fits
  build_spec-Fits g name spec p h = elim (Bool-cases (spec.kind == "ollama")) [
    | inl o ↦
        let (model, _, e) = >>=-eq-ok (or_raise spec.model (key_error "model")) _ p (rw o at h) in
        subst (Fits g spec) (ok-injective _ p e) tt
    | inr l ↦ build_litellm-Fits g name spec p (rw l at h)
  ]

  check_specs-at :
      (g : Guard) (ps : Dict String ProviderSpec) (name : String) (spec : ProviderSpec)
      → check_specs hostname address g ps ≡ ok tt
      → get name ps ≡ some spec
      → check_spec hostname address g name spec ≡ ok tt
  unfolding check_specs get
  check_specs-at g [] name spec h found = absurd (ground arith)
  check_specs-at g ((j, s) ∷ ps) name spec h found =
      let (_, checked, rest) =
        >>=-eq-ok (re_raise (check_spec hostname address g j s) (would_be_blocked j))
          (λ _. check_specs hostname address g ps) tt h in
      ground (arith, eq_iff j name, checked, check_specs-at g ps name spec rest)

  check_spec-local_or_IsOpen :
      (g : Guard) (name : String) (spec : ProviderSpec)
      → truthy g.allowed_hosts ≡ false
      → check_spec hostname address g name spec ≡ ok tt
      → (is_local_endpoint hostname address spec ≡ true) ⊎ IsOpen g
  unfolding check_spec is_local_endpoint
  check_spec-local_or_IsOpen g name spec unlisted h = elim (Bool-cases (url_of spec == "")) [
    | inl empty ↦ elim (Bool-cases (is_declared_local spec)) [
      | inl l ↦ inl (rw (empty, l) refl)
      | inr r ↦ inr (check_remote_allowed-IsOpen g name (ground arith))
    ]
    | inr given ↦ elim (check-Reaches g (url_of spec) (rw given at h)) [
      | inl l ↦ inl (rw (given, l) refl)
      | inr reach ↦
          inr (record { connected = reach.connected; allowed = reach.allowed; unlisted = unlisted })
    ]
  ]

  build_litellm-succeeds :
      (g : Guard) (name model : String) (spec : ProviderSpec)
      → spec.model ≡ some model
      → (is_local_endpoint hostname address spec ≡ true) ⊎ IsOpen g
      → build_litellm hostname address g name spec
        ≡ ok
            (litellm (rstrip_slashes (url_of spec)) (is_local_endpoint hostname address spec) model)
  unfolding build_litellm
  build_litellm-succeeds g name model spec named h =
      elim (Bool-cases (is_local_endpoint hostname address spec)) [
        | inl local ↦ rw (local, named) refl
        | inr hosted ↦ elim h [
          | inl local ↦ absurd (ground arith)
          | inr free ↦ rw (hosted, IsOpen-check_remote_allowed g name free, named) refl
        ]
      ]

  build_spec-Succeeds :
      (g : Guard) (name model : String) (spec : ProviderSpec)
      → spec.model ≡ some model
      → (is_local_endpoint hostname address spec ≡ true) ⊎ IsOpen g
      → (p : Provider) × (build_spec hostname address g name spec ≡ ok p)
  unfolding build_spec build_ollama
  build_spec-Succeeds g name model spec named h = elim (Bool-cases (spec.kind == "ollama")) [
    | inl o ↦
        let url =
          rstrip_slashes (elim spec.base_url [ none ↦ "http://localhost:11434" | some u ↦ u ]) in
        (ollama url model, rw (o, named) refl)
    | inr l ↦ (
      litellm (rstrip_slashes (url_of spec)) (is_local_endpoint hostname address spec) model,
      rw l (build_litellm-succeeds g name model spec named h),
    )
  ]

  -- Without an allowlist, a configuration that is enabled and loads can build every provider that
  -- it defines with a model.
  pub validate_config-builds :
      (c : LlmConfig) (air_gapped : Bool) (name model : String) (spec : ProviderSpec)
      → c.enabled ≡ true
      → truthy c.allowed_hosts ≡ false
      → validate_config hostname address c air_gapped ≡ ok tt
      → get name c.providers ≡ some spec
      → spec.model ≡ some model
      → (p : Provider) × (build_provider hostname address c air_gapped name ≡ ok p)
  unfolding validate_config build_provider build_guard
  validate_config-builds c air_gapped name model spec enabled unlisted valid found named =
      let g = build_guard c air_gapped in
      let (_, _, checked) =
        >>=-eq-ok (check_roles c roles) (λ _. check_specs hostname address g c.providers) tt
          (if_true c.enabled _ (ok tt) (ok tt) enabled valid) in
      let (p, built) = build_spec-Succeeds g name model spec named (
        check_spec-local_or_IsOpen g name spec unlisted
          (check_specs-at g c.providers name spec checked found)) in
      (p, rw found built)
