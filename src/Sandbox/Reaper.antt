-- ===== src/Sandbox/Reaper.antt =====
-- core/sandbox/reaper.py: orphaned containers.
pub mod Sweep
pub mod Removals
use bare_binary_analysis.Prelude.{
  List, Option, String, ℕ, ℤ, Bool, [], length, pos, some, ◌++◌, false, none, sub_ℕ, ◌∷◌,
  if◌then◌else◌, true, ltb_ℤ, ◌&&◌, not, contains, string_eq,
}

-- Times are whole seconds since an epoch; `age` may be negative.
pub record ManagedContainer : Type 0 where
  pub container_id : String
  pub run_id : String
  pub analyzer : String
  pub created_at : ℕ
  pub running : Bool
  pub name : String

pub record ReapReport : Type 0 where
  pub inspected : ℕ
  pub removed : List String
  pub failed : List (String × String)

unfoldable pub removed_count : ReapReport → ℕ
removed_count r = length r.removed

-- The runtime behind `SandboxDriver`: the containers it lists, and the removal of one, which may
-- raise (`some error`) and changes the runtime's state `D`.
pub record SandboxDriver (D : Type 0) : Type 0 where
  pub list_managed : D → List ManagedContainer × D
  pub remove : String → D → Option String × D

abbrev pub default_max_age : ℤ
default_max_age = pos 21600

-- `_reap_reason`
pub reap_reason : ManagedContainer → List String → ℕ → ℤ → Bool → Option String
reap_reason c active now max_age liveness_known =
    let age = sub_ℕ now c.created_at in
    if ltb_ℤ max_age age
    then some "max_age_exceeded"
    else if liveness_known && not (contains active c.run_id)
    then some "run_not_active"
    else none

unfoldable pub liveness : Option (List String) → Bool
liveness none = false
liveness (some ids) = true

-- `set(active_run_ids or ())`
unfoldable pub active_set : Option (List String) → List String
active_set none = []
active_set (some ids) = ids

module _ {D : Type 0} (driver : SandboxDriver D) (max_age : ℤ) where
  open driver use {list_managed, remove}

  on_removal : ManagedContainer → ReapReport → Option String × D → ReapReport × D
  on_removal c r (none, d) = (record r { removed = r.removed ++ c.container_id ∷ [] }, d)
  on_removal c r (some error, d) =
      (record r { failed = r.failed ++ (c.container_id, error) ∷ [] }, d)

  on_reason : ManagedContainer → Option String → ReapReport → D → ReapReport × D
  on_reason c none r d = (r, d)
  on_reason c (some reason) r d = on_removal c r (remove c.container_id d)

  module _ (active : List String) (now : ℕ) (liveness_known : Bool) where
    sweep : List ManagedContainer → ReapReport → D → ReapReport × D
    sweep [] r d = (r, d)
    sweep (c ∷ cs) r d =
        let (r', d') = on_reason c (reap_reason c active now max_age liveness_known) r d in
        sweep cs r' d'

  pub reap : Option (List String) → ℕ → D → ReapReport × D
  reap active_run_ids now d =
      let (containers, d') = list_managed d in
      sweep (active_set active_run_ids) now (liveness active_run_ids) containers
        (record { inspected = length containers; removed = []; failed = [] }) d'
