-- ===== src/Sandbox/Spec.antt =====
-- core/sandbox/spec.py: what a container may be asked for.
pub mod Isolation
use bare_binary_analysis.Prelude.{
  Bool, List, String, ℕ, ℤ, Option, [], contains, count_where, false, if◌then◌else◌, ltb_ℤ,
  replace_char, some, true, ◌*◌, ◌++◌, ◌^◌, ◌∷◌, any_of, ends_with, ltb, not, pos, ◌==◌, none,
  truthy, ◌&&◌, ◌||◌, has_part, string_eq,
}

pub data NetworkMode : Type 0 where
  no_network sinkhole : NetworkMode

pub data MountMode : Type 0 where
  read_only read_write : MountMode

-- A target is a path in the normal form that `PurePosixPath` gives it.
pub record BindMount : Type 0 where
  pub source : String
  pub target : String
  pub mode : MountMode

pub record TmpfsMount : Type 0 where
  pub target : String
  pub size_bytes : ℕ
  pub noexec : Bool
  pub nosuid : Bool
  pub nodev : Bool
  pub uid : ℕ
  pub gid : ℕ
  pub mode : ℕ

pub record Ulimit : Type 0 where
  pub name : String
  pub soft : ℕ
  pub hard : Option ℕ

unfoldable pub hard_or_soft : Ulimit → ℕ
hard_or_soft u = elim u.hard [ none ↦ u.soft | some h ↦ h ]

abbrev pub input_dir : String
input_dir = "/input"

abbrev pub output_dir : String
output_dir = "/output"

abbrev pub analyzer_user : String
analyzer_user = "10001:10001"

abbrev gib : ℕ
gib = 1024 ^ 3

scratch : String → ℕ → Bool → TmpfsMount
scratch target size_bytes noexec = record {
  target = target;
  size_bytes = size_bytes;
  noexec = noexec;
  nosuid = true;
  nodev = true;
  uid = 10001;
  gid = 10001;
  mode = 0o770;
}

pub default_tmpfs : List TmpfsMount
default_tmpfs = scratch "/tmp" (2 * gib) true ∷ scratch "/work" (8 * gib) false ∷ []

limit : String → ℕ → Ulimit
limit name n = record { name = name; soft = n; hard = some n }

pub default_ulimits : List Ulimit
default_ulimits = limit "nofile" 4096 ∷ limit "fsize" (2 * gib) ∷ limit "nproc" 512 ∷ []

pub record SandboxSpec : Type 0 where
  pub image : String
  pub run_id : String
  pub analyzer : String
  pub command : List String
  pub env : List (String × String)
  pub network : NetworkMode
  pub read_only_rootfs : Bool
  pub user : String
  pub cap_drop : List String
  pub cap_add : List String
  pub no_new_privileges : Bool
  pub seccomp_profile : Option String
  pub mem_limit_bytes : ℤ
  pub nano_cpus : ℤ
  pub pids_limit : ℤ
  pub tmpfs : List TmpfsMount
  pub ulimits : List Ulimit
  pub timeout_s : ℤ
  pub grace_s : ℤ
  pub auto_remove : Bool
  pub mounts : List BindMount

-- `SandboxSpec(image=..., run_id=..., analyzer=...)`: the other fields have their defaults.
unfoldable pub default_spec : String → String → String → SandboxSpec
default_spec image run_id analyzer = record {
  image = image;
  run_id = run_id;
  analyzer = analyzer;
  command = [];
  env = [];
  network = no_network;
  read_only_rootfs = true;
  user = analyzer_user;
  cap_drop = "ALL" ∷ [];
  cap_add = [];
  no_new_privileges = true;
  seccomp_profile = some "sandbox/profiles/analyzer.json";
  mem_limit_bytes = pos (4 * gib);
  nano_cpus = pos 2_000_000_000;
  pids_limit = pos 512;
  tmpfs = default_tmpfs;
  ulimits = default_ulimits;
  timeout_s = pos 900;
  grace_s = pos 10;
  auto_remove = true;
  mounts = [];
}

pub labels : SandboxSpec → List (String × String)
labels s = ("bare.run", s.run_id) ∷ ("bare.analyzer", s.analyzer) ∷ ("bare.managed", "true") ∷ []

-- A constructor for each message of `validate`.
pub data SpecError : Type 0 where
  runs_as_root keeps_capabilities adds_capabilities allows_new_privileges : SpecError
  writable_rootfs bad_timeout bad_grace bad_pids_limit bad_mem_limit no_labels : SpecError
  mounts_docker_socket output_not_writable input_not_read_only several_writable : SpecError

unfoldable pub is_writable : MountMode → Bool
is_writable read_only = false
is_writable read_write = true

-- Each `if test: errors.append(e)` in turn.
unfoldable pub errors_of : List (Bool × SpecError) → List SpecError
errors_of [] = []
errors_of ((test, e) ∷ checks) = if test then e ∷ errors_of checks else errors_of checks

unfoldable pub is_positive : ℤ → Bool
is_positive n = ltb_ℤ (pos 0) n

unfoldable pub is_docker_socket : String → Bool
is_docker_socket source =
    let src = replace_char "\\" "/" source in
    ends_with src "docker.sock" || has_part src "/var/run/docker"

unfoldable pub mount_checks : BindMount → List (Bool × SpecError)
mount_checks m =
    (is_docker_socket m.source, mounts_docker_socket)
    ∷ (m.target == output_dir && not (is_writable m.mode), output_not_writable)
    ∷ (m.target == input_dir && is_writable m.mode, input_not_read_only)
    ∷ []

unfoldable pub all_mount_errors : List BindMount → List SpecError
all_mount_errors [] = []
all_mount_errors (m ∷ ms) = errors_of (mount_checks m) ++ all_mount_errors ms

unfoldable pub writable_count : List BindMount → ℕ
writable_count ms = count_where (λ m. is_writable m.mode) ms

unfoldable pub field_checks : SandboxSpec → List (Bool × SpecError)
field_checks s =
    (contains ("0:0" ∷ "root" ∷ "0" ∷ "" ∷ []) s.user, runs_as_root)
    ∷ (not (contains s.cap_drop "ALL"), keeps_capabilities)
    ∷ (truthy s.cap_add, adds_capabilities)
    ∷ (not s.no_new_privileges, allows_new_privileges)
    ∷ (not s.read_only_rootfs, writable_rootfs)
    ∷ (not (is_positive s.timeout_s), bad_timeout)
    ∷ (ltb_ℤ s.grace_s (pos 0), bad_grace)
    ∷ (not (is_positive s.pids_limit), bad_pids_limit)
    ∷ (not (is_positive s.mem_limit_bytes), bad_mem_limit)
    ∷ (s.run_id == "" || s.analyzer == "", no_labels)
    ∷ []

unfoldable pub count_checks : SandboxSpec → List (Bool × SpecError)
count_checks s = (ltb 1 (writable_count s.mounts), several_writable) ∷ []

-- The errors of `SpecViolation`; none where the spec is valid.
unfoldable pub validate : SandboxSpec → List SpecError
validate s = errors_of (field_checks s) ++ (all_mount_errors s.mounts ++ errors_of (count_checks s))

-- An argument of `with_overrides`: the fields with a new value, by their names.
pub data Change : Type 0 where
  network : NetworkMode → Change
  read_only_rootfs : Bool → Change
  user : String → Change
  cap_drop : List String → Change
  no_new_privileges : Bool → Change
  cap_add : List String → Change
  seccomp_profile : Option String → Change
  command : List String → Change
  mem_limit_bytes : ℤ → Change
  nano_cpus : ℤ → Change
  pids_limit : ℤ → Change
  timeout_s : ℤ → Change
  grace_s : ℤ → Change
  mounts : List BindMount → Change
  image : String → Change
  run_id : String → Change
  analyzer : String → Change
  env : List (String × String) → Change
  tmpfs : List TmpfsMount → Change
  ulimits : List Ulimit → Change
  auto_remove : Bool → Change

unfoldable pub is_forbidden : Change → Bool
is_forbidden (Change.network n) = true
is_forbidden (Change.read_only_rootfs b) = true
is_forbidden (Change.user u) = true
is_forbidden (Change.cap_drop c) = true
is_forbidden (Change.no_new_privileges b) = true
is_forbidden _ = false

unfoldable pub apply_change : Change → SandboxSpec → SandboxSpec
apply_change (Change.network n) s = record s { network = n }
apply_change (Change.read_only_rootfs b) s = record s { read_only_rootfs = b }
apply_change (Change.user u) s = record s { user = u }
apply_change (Change.cap_drop c) s = record s { cap_drop = c }
apply_change (Change.no_new_privileges b) s = record s { no_new_privileges = b }
apply_change (Change.cap_add c) s = record s { cap_add = c }
apply_change (Change.seccomp_profile p) s = record s { seccomp_profile = p }
apply_change (Change.command c) s = record s { command = c }
apply_change (Change.mem_limit_bytes n) s = record s { mem_limit_bytes = n }
apply_change (Change.nano_cpus n) s = record s { nano_cpus = n }
apply_change (Change.pids_limit n) s = record s { pids_limit = n }
apply_change (Change.timeout_s n) s = record s { timeout_s = n }
apply_change (Change.grace_s n) s = record s { grace_s = n }
apply_change (Change.mounts m) s = record s { mounts = m }
apply_change (Change.image t) s = record s { image = t }
apply_change (Change.run_id t) s = record s { run_id = t }
apply_change (Change.analyzer t) s = record s { analyzer = t }
apply_change (Change.env e) s = record s { env = e }
apply_change (Change.tmpfs t) s = record s { tmpfs = t }
apply_change (Change.ulimits u) s = record s { ulimits = u }
apply_change (Change.auto_remove b) s = record s { auto_remove = b }

unfoldable pub replace : List Change → SandboxSpec → SandboxSpec
replace [] s = s
replace (c ∷ cs) s = replace cs (apply_change c s)

-- `none` is the ValueError.
unfoldable pub with_overrides : List Change → SandboxSpec → Option SandboxSpec
with_overrides changes s = if any_of is_forbidden changes then none else some (replace changes s)
