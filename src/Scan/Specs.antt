-- ===== src/Scan/Specs.antt =====
-- core/pipeline/scan.py: what the unpack and the static analyzer's containers are asked for. The
-- settings' gigabytes and processors are whole thousandths.
use bare_binary_analysis.Sandbox.Spec.Isolation.{IsSafeMount, IsIsolated}
use bare_binary_analysis.Prelude.{
  Bool, String, ℕ, List, max, pos, ◌==◌, ◌*◌, ◌∷◌, ◌≡◌, [], false, true, ◌/◌, ◌^◌, arith, contains,
  ◌++◌, inl, inr, count_where, refl, string_eq, if◌then◌else◌,
}
use bare_binary_analysis.Sandbox.Spec.{
  SandboxSpec, BindMount, default_spec, read_only, read_write, is_positive, is_writable, MountMode,
  is_docker_socket, input_dir, output_dir, writable_count,
}

pub record Limits : Type 0 where
  pub analyzer_memory_gb : ℕ
  pub analyzer_cpus : ℕ

-- `_analyzer_memory_bytes`, `_analyzer_nano_cpus`
memory_bytes : Limits → ℕ
memory_bytes l = max 1000 l.analyzer_memory_gb * 1024 ^ 3 / 1000

nano_cpus_of : Limits → ℕ
nano_cpus_of l = max 1000 l.analyzer_cpus * 1_000_000_000 / 1000

abbrev rules_mount : String
rules_mount = "/rules"

mount : String → String → MountMode → BindMount
mount source target mode = record { source = source; target = target; mode = mode }

-- The specification of `_run_unpack`.
pub unpack_spec : Limits → String → String → String → String → SandboxSpec
unpack_spec limits image run_id staging results = record (default_spec image run_id "unpack") {
  timeout_s = pos 900;
  nano_cpus = pos (nano_cpus_of limits);
  mem_limit_bytes = pos (memory_bytes limits);
  mounts = mount staging input_dir read_only ∷ mount results output_dir read_write ∷ [];
}

static_command : Bool → List String
static_command retain_plaintext =
    ("--recon" ∷ "--components" ∷ "--emit-residue" ∷ "400" ∷ [])
    ++ (if retain_plaintext then "--include-plaintext" ∷ [] else [])

-- The specification of `_run_static`.
pub static_spec : Limits → Bool → String → String → String → String → String → SandboxSpec
static_spec limits retain_plaintext image run_id staging rules_dir results =
    record (default_spec image run_id "static") {
      command = static_command retain_plaintext;
      timeout_s = pos 1800;
      nano_cpus = pos (nano_cpus_of limits);
      mem_limit_bytes = pos (memory_bytes limits);
      mounts =
          mount staging input_dir read_only
          ∷ mount rules_dir rules_mount read_only
          ∷ mount results output_dir read_write
          ∷ [];
    }

memory_bytes-positive : (l : Limits) → is_positive (pos (memory_bytes l)) ≡ true
unfolding memory_bytes is_positive
memory_bytes-positive l = ground arith

read_only-IsSafe :
    (source target : String)
    → is_docker_socket source ≡ false
    → (target == output_dir) ≡ false
    → IsSafeMount (mount source target read_only)
unfolding mount is_writable
read_only-IsSafe source target h k = record { no_socket = h; output = inl k; input = inr refl }

output-IsSafe :
    (source : String)
    → is_docker_socket source ≡ false
    → IsSafeMount (mount source output_dir read_write)
unfolding mount is_writable
output-IsSafe source h = record { no_socket = h; output = inr refl; input = inl refl }

module _ (limits : Limits) (image run_id staging results : String) (named : (run_id == "") ≡ false)
    (staging_safe : is_docker_socket staging ≡ false)
    (results_safe : is_docker_socket results ≡ false) where
  -- The scan asks for isolated containers for the unpack and the static analyzer, whatever the
  -- settings are, for a run with an id and directories that are not the Docker socket.
  pub specs-IsIsolated :
      (retain_plaintext : Bool) (rules_dir : String)
      → is_docker_socket rules_dir ≡ false
      → IsIsolated (unpack_spec limits image run_id staging results)
        × IsIsolated (static_spec limits retain_plaintext image run_id staging rules_dir results)
  unfolding unpack_spec static_spec default_spec is_positive contains writable_count mount
      is_writable count_where
  specs-IsIsolated retain_plaintext rules_dir rules_safe = (
    record {
      not_root = refl;
      drops_all = refl;
      adds_none = refl;
      no_privileges = refl;
      rootfs = refl;
      deadline = refl;
      grace = refl;
      pids = refl;
      memory = memory_bytes-positive limits;
      labelled = ground arith;
      one_writable = omega arith;
      safe_mounts = (
        read_only-IsSafe staging input_dir staging_safe refl,
        (output-IsSafe results results_safe, tt),
      );
    },
    record {
      not_root = refl;
      drops_all = refl;
      adds_none = refl;
      no_privileges = refl;
      rootfs = refl;
      deadline = refl;
      grace = refl;
      pids = refl;
      memory = memory_bytes-positive limits;
      labelled = ground arith;
      one_writable = omega arith;
      safe_mounts = (
        read_only-IsSafe staging input_dir staging_safe refl,
        (
          read_only-IsSafe rules_dir rules_mount rules_safe refl,
          (output-IsSafe results results_safe, tt),
        ),
      );
    },
  )
