-- ===== src/Broker/RunPlan/Parts.antt =====
-- broker/daemon.py: the parts of a run's plan that only read. A relative path of a seed is the list
-- of its components.
use codex_cursor_devstack.Base.{
  String, ◌<>◌, Bool, true, false, Option, none, some, List, [], ◌∷◌, ◌++◌, contains, if◌then◌else◌,
  Result, ok, err, value_error, key_error, ◌>>=◌, ◌>>◌,
}
use codex_cursor_devstack.Base.Value.{Value}
use codex_cursor_devstack.Core.Paths.{FilePath, FileSystem, child, canonical_dir, canonical_file}
use codex_cursor_devstack.Core.Models.{ProviderStateSpec}
use codex_cursor_devstack.Core.Worktrees.{path_text}
use codex_cursor_devstack.Execution.Mounts.{
  ExecutionMount, check_mount, ResourceLimits, check_limits, check_network,
}
use codex_cursor_devstack.Execution.Plan.{check_artifacts, ExecutionPlan, check_plan}
use codex_cursor_devstack.Agents.Specs.{PolicyFileSpec}
use codex_cursor_devstack.Agents.Registry.{AgentRegistry, registered_provider}

-- The entries of the configuration that a plan uses.
pub record BrokerConfig : Type 0 where
  pub root : FilePath
  pub images : String → Option String
  pub limits : ResourceLimits

pub record StatePolicyMount : Type 0 where
  pub seed_relative_path : FilePath
  pub target : String
  pub read_only : Bool

-- What a plan asks of a driver: `state_spec()` and `state_adapter().policy_mounts`.
pub record Driver : Type 0 where
  pub state_spec : List ProviderStateSpec
  pub policy_mounts : List StatePolicyMount

-- `ExecutionMount(source, target, read_only, role)`
unfoldable pub new_mount : String → String → Bool → String → Result ExecutionMount
new_mount source target read_only role =
    let m : ExecutionMount = record {
      source = source;
      target = target;
      read_only = read_only;
      role = role;
    } in
    check_mount m >> ok m

-- The loop of `_merge_plan_environment`, with the names that it has seen.
unfoldable pub merge_entries :
    List String → List (String × String) → Result (List (String × String))
merge_entries seen [] = ok []
merge_entries seen ((name, value) ∷ rest) =
    let merged = merge_entries (name ∷ seen) rest in
    if contains seen name
    then err (value_error "duplicate resolved execution environment key")
    else (merged >>= λ entries. ok ((name, value) ∷ entries))

abbrev flattened : List (List (String × String)) → List (String × String)
flattened [] = []
flattened (g ∷ gs) = g ++ flattened gs

unfoldable pub merge_plan_environment :
    List (List (String × String)) → Result (List (String × String))
unfolding merge_entries
merge_plan_environment groups = merge_entries [] (flattened groups)

unfoldable pub state_mounts : List ProviderStateSpec → Result (List ExecutionMount)
unfolding new_mount
state_mounts [] = ok []
state_mounts (s ∷ ss) = do
  m ← new_mount s.source s.target s.read_only "provider-state"
  ms ← state_mounts ss
  ok (m ∷ ms)

unfoldable pub policy_file_mounts : List PolicyFileSpec → Result (List ExecutionMount)
unfolding new_mount
policy_file_mounts [] = ok []
policy_file_mounts (f ∷ fs) = do
  m ← new_mount f.source f.target f.read_only "provider-policy"
  ms ← policy_file_mounts fs
  ok (m ∷ ms)

module _ (files : FileSystem) where
  unfoldable pub provider_seed_dir : BrokerConfig → AgentRegistry Driver → String → Result FilePath
  provider_seed_dir cfg registry provider = do
    driver ← registered_provider registry (Value.text provider) false
    let platform = child cfg.root "platform"
    seed_root ← canonical_dir files (child platform "seed") platform "provider seed root"
    canonical_dir files (child seed_root provider) seed_root (provider <> " policy directory")

  unfoldable pub seed_mounts :
      FilePath → String → List StatePolicyMount → Result (List ExecutionMount)
  unfolding new_mount
  seed_mounts seed provider [] = ok []
  seed_mounts seed provider (p ∷ ps) = do
    source ← canonical_file files (seed ++ p.seed_relative_path) seed (provider <> " policy")
    m ← new_mount (path_text source) p.target p.read_only "provider-policy"
    ms ← seed_mounts seed provider ps
    ok (m ∷ ms)

  -- `if adapter.policy_mounts:`
  unfoldable pub adapter_mounts :
      BrokerConfig
      → AgentRegistry Driver
      → String
      → List StatePolicyMount
      → Result (List ExecutionMount)
  unfolding provider_seed_dir seed_mounts
  adapter_mounts cfg registry provider [] = ok []
  adapter_mounts cfg registry provider (p ∷ ps) = do
    seed ← provider_seed_dir cfg registry provider
    seed_mounts seed provider (p ∷ ps)

  unfoldable pub reference_mounts : FilePath → FilePath → Result (List ExecutionMount)
  unfolding new_mount
  reference_mounts projects reference =
      if files.exists reference
      then (do
        resolved ← canonical_dir files reference projects "reference mount"
        m ← new_mount (path_text resolved) "/reference" true "reference"
        ok (m ∷ []))
      else ok []

  unfoldable pub git_mounts :
      FilePath → FilePath → Bool → Option FilePath → Result (List ExecutionMount)
  unfolding new_mount
  git_mounts projects workspace readonly none = ok []
  git_mounts projects workspace readonly (some git_common) = do
    common ← canonical_dir files git_common projects "Git common directory"
    tree ← new_mount (path_text workspace) (path_text workspace) readonly "git-worktree"
    git_dir ← new_mount (path_text common) (path_text common) readonly "git-common"
    ok (tree ∷ git_dir ∷ [])

-- `cfg["images"][provider]`
unfoldable pub image_of : BrokerConfig → String → Result String
image_of cfg provider = elim (cfg.images provider) [
  | none ↦ err (key_error provider)
  | some image ↦ ok image
]

-- `required_capabilities`
unfoldable pub run_capabilities : Bool → Bool → Bool → String → List String
run_capabilities readonly outer_only interactive security_class =
    (if readonly then "workspace:readonly" else "workspace:writable")
    ∷ ("security_class:" <> security_class)
    ∷ ((if interactive then "interactive-run" ∷ [] else [])
        ++ (if outer_only then "compatibility:outer-only" ∷ [] else []))

-- The `ResolvedExecutionPlan(...)` that is returned, with the checks of its parts.
unfoldable pub new_plan : ExecutionPlan → Result ExecutionPlan
new_plan p = do
  check_mount p.workspace_mount
  check_mount p.task_metadata_mount
  check_artifacts p.provider_policy_artifacts
  check_limits p.resource_limits
  check_network p.network
  check_plan p
  ok p
