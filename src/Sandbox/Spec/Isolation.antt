-- ===== src/Sandbox/Spec/Isolation.antt =====
-- What a spec that passes `validate` guarantees, and that overrides keep.
use bare_binary_analysis.Prelude.{
  List, contains, ◌≡◌, [], any_of, false, ◌∷◌, All, arith, some, true, ◌++◌, ◌==◌, Bool-cases, refl,
  ◌∙◌, inl, ltb_ℤ, ◌⊎◌, none, pos, inr, ◌||◌, subst, ◌≤◌, string_eq, Bool, String,
}
use bare_binary_analysis.Sandbox.Spec.{
  SandboxSpec, BindMount, validate, all_mount_errors, field_checks, is_docker_socket, is_forbidden,
  mount_checks, replace, with_overrides, Change, SpecError, apply_change, is_positive, output_dir,
  is_writable, input_dir, writable_count, errors_of, field_checks, mount_checks, all_mount_errors,
  count_checks, default_spec, no_network, analyzer_user,
}

-- The source is not the Docker socket, /output is not mounted read-only, and /input not writable.
pub record IsSafeMount (m : BindMount) : Type 0 where
  pub no_socket : is_docker_socket m.source ≡ false
  pub output : ((m.target == output_dir) ≡ false) ⊎ (is_writable m.mode ≡ true)
  pub input : ((m.target == input_dir) ≡ false) ⊎ (is_writable m.mode ≡ false)

pub record IsIsolated (s : SandboxSpec) : Type 0 where
  pub not_root : contains ("0:0" ∷ "root" ∷ "0" ∷ "" ∷ []) s.user ≡ false
  pub drops_all : contains s.cap_drop "ALL" ≡ true
  pub adds_none : s.cap_add ≡ []
  pub no_privileges : s.no_new_privileges ≡ true
  pub rootfs : s.read_only_rootfs ≡ true
  pub deadline : is_positive s.timeout_s ≡ true
  pub grace : ltb_ℤ s.grace_s (pos 0) ≡ false
  pub pids : is_positive s.pids_limit ≡ true
  pub memory : is_positive s.mem_limit_bytes ≡ true
  pub labelled : (s.run_id == "" || s.analyzer == "") ≡ false
  pub one_writable : writable_count s.mounts ≤ 1
  pub safe_mounts : All IsSafeMount s.mounts

append-nil_split : (xs ys : List SpecError) → xs ++ ys ≡ [] → (xs ≡ []) × (ys ≡ [])
append-nil_split [] ys h = (refl, h)
append-nil_split (x ∷ xs) ys h = absurd (ground arith)

errors_of-none :
    (checks : List (Bool × SpecError)) → errors_of checks ≡ [] → All (λ c. c.0 ≡ false) checks
unfolding errors_of
errors_of-none [] h = tt
errors_of-none ((true, e) ∷ checks) h = absurd (ground arith)
errors_of-none ((false, e) ∷ checks) h = (refl, errors_of-none checks h)

mount_checks-safe : (m : BindMount) → errors_of (mount_checks m) ≡ [] → IsSafeMount m
unfolding mount_checks
mount_checks-safe m h =
    let (a, (b, (c, d))) = errors_of-none (mount_checks m) h in
    record { no_socket = a; output = ground arith; input = ground arith }

all_mount_errors-safe : (ms : List BindMount) → all_mount_errors ms ≡ [] → All IsSafeMount ms
unfolding all_mount_errors
all_mount_errors-safe [] h = tt
all_mount_errors-safe (m ∷ ms) h =
    let (a, rest) = append-nil_split (errors_of (mount_checks m)) (all_mount_errors ms) h in
    (mount_checks-safe m a, all_mount_errors-safe ms rest)

-- A spec in which `validate` finds no error asks for an isolated container.
validate-IsIsolated : (s : SandboxSpec) → validate s ≡ [] → IsIsolated s
unfolding validate field_checks count_checks
validate-IsIsolated s h =
    let (fields, rest) = append-nil_split (errors_of (field_checks s)) _ h in
    let (mounts, several) = append-nil_split (all_mount_errors s.mounts) _ rest in
    let (
      user,
      (drop, (add, (privileges, (rootfs, (deadline, (grace, (pids, (memory, (labels, _))))))))),
    ) =
      errors_of-none (field_checks s) fields in
    let (one, _) = errors_of-none (count_checks s) several in
    record {
      not_root = user;
      drops_all = ground arith;
      adds_none = ground arith;
      no_privileges = ground arith;
      rootfs = ground arith;
      deadline = ground arith;
      grace = grace;
      pids = ground arith;
      memory = ground arith;
      labelled = labels;
      one_writable = ground arith;
      safe_mounts = all_mount_errors-safe s.mounts mounts;
    }

-- What overrides may not change.
pub record KeepsIsolation (s s' : SandboxSpec) : Type 0 where
  pub network : s'.network ≡ s.network
  pub rootfs : s'.read_only_rootfs ≡ s.read_only_rootfs
  pub user : s'.user ≡ s.user
  pub cap_drop : s'.cap_drop ≡ s.cap_drop
  pub no_privileges : s'.no_new_privileges ≡ s.no_new_privileges

kept : (c : Change) (s : SandboxSpec) → is_forbidden c ≡ false → KeepsIsolation s (apply_change c s)
unfolding is_forbidden apply_change
kept c s h = ground arith

replace-KeepsIsolation :
    (cs : List Change) (s : SandboxSpec)
    → any_of is_forbidden cs ≡ false
    → KeepsIsolation s (replace cs s)
unfolding replace any_of
replace-KeepsIsolation [] s h = record {
  network = refl;
  rootfs = refl;
  user = refl;
  cap_drop = refl;
  no_privileges = refl;
}
replace-KeepsIsolation (c ∷ cs) s h =
    let first : KeepsIsolation s (apply_change c s) = kept c s (ground arith) in
    let rest = replace-KeepsIsolation cs (apply_change c s) (ground arith) in
    record {
      network = rest.network ∙ first.network;
      rootfs = rest.rootfs ∙ first.rootfs;
      user = rest.user ∙ first.user;
      cap_drop = rest.cap_drop ∙ first.cap_drop;
      no_privileges = rest.no_privileges ∙ first.no_privileges;
    }

-- An override that is accepted keeps the network, the read-only root, the user, the dropped
-- capabilities and the ban on new privileges.
pub with_overrides-KeepsIsolation :
    (cs : List Change) (s s' : SandboxSpec) → with_overrides cs s ≡ some s' → KeepsIsolation s s'
unfolding with_overrides
with_overrides-KeepsIsolation cs s s' h = elim (Bool-cases (any_of is_forbidden cs)) [
  | inl e ↦ let no : none ≡ some s' = rw e at h in absurd (ground arith)
  | inr e ↦
      let same : some (replace cs s) ≡ some s' = rw e at h in
      subst (KeepsIsolation s) (ground arith) (replace-KeepsIsolation cs s e)
]

-- The container of an analyzer: with no network at all, as the unprivileged user of the analyzers,
-- with no capability, no new privileges and a read-only root, limited in time, memory and
-- processes, and with mounts of which at most one is writable and none is the Docker socket.
pub record IsConfined (s : SandboxSpec) : Type 0 where
  pub network : s.network ≡ no_network
  pub user : s.user ≡ analyzer_user
  pub cap_drop : s.cap_drop ≡ "ALL" ∷ []
  pub cap_add : s.cap_add ≡ []
  pub no_privileges : s.no_new_privileges ≡ true
  pub rootfs : s.read_only_rootfs ≡ true
  pub deadline : is_positive s.timeout_s ≡ true
  pub pids : is_positive s.pids_limit ≡ true
  pub memory : is_positive s.mem_limit_bytes ≡ true
  pub one_writable : writable_count s.mounts ≤ 1
  pub safe_mounts : All IsSafeMount s.mounts

-- Whatever overrides are applied to the spec of an analyzer, in any order and number: where
-- `with_overrides` accepts them and `validate` then finds no error, the container has no network,
-- the unprivileged user of the analyzers, no capability, no new privileges, a read-only root,
-- positive limits on time, memory and processes, and mounts of which at most one is writable, none
-- is the Docker socket, and /output is not read-only and /input not writable. The seccomp profile,
-- which overrides may change, is not part of it.
pub with_overrides-IsConfined :
    (cs : List Change) (image run_id analyzer : String) (s : SandboxSpec)
    → with_overrides cs (default_spec image run_id analyzer) ≡ some s
    → validate s ≡ []
    → IsConfined s
unfolding default_spec
with_overrides-IsConfined cs image run_id analyzer s h valid =
    let keeps = with_overrides-KeepsIsolation cs (default_spec image run_id analyzer) s h in
    let isolated = validate-IsIsolated s valid in
    record {
      network = keeps.network;
      user = keeps.user;
      cap_drop = keeps.cap_drop;
      cap_add = isolated.adds_none;
      no_privileges = keeps.no_privileges;
      rootfs = keeps.rootfs;
      deadline = isolated.deadline;
      pids = isolated.pids;
      memory = isolated.memory;
      one_writable = isolated.one_writable;
      safe_mounts = isolated.safe_mounts;
    }
