-- ===== src/Execution/Plan.antt =====
-- `ResolvedProviderPolicyArtifacts` and `ResolvedExecutionPlan` of execution/plan.py.
pub mod Consistent
use codex_cursor_devstack.Base.{
  ◌≡◌, String, Bool, true, false, not, ◌&&◌, Option, none, some, List, [], ◌∷◌, ◌++◌, str_eq,
  contains, if◌then◌else◌, Result, ok, err, value_error, ◌>>=◌, ◌>>◌, guard,
}
use codex_cursor_devstack.Execution.Mounts.{
  ExecutionMount, ResourceLimits, NetworkRuntimeRequirements, RuntimeIsolationRequirements,
  require_text, require_container_path, require_texts, require_argv, require_environment, mount_eq,
  bool_eq,
}

-- `all(item.role == role and (not read_only or item.read_only) for item in mounts)`
unfoldable pub all_have_role : String → Bool → List ExecutionMount → Bool
all_have_role role read_only [] = true
all_have_role role read_only (m ∷ ms) =
    str_eq m.role role
    && (if read_only then m.read_only else true)
    && all_have_role role read_only ms

pub record ProviderPolicyArtifacts : Type 0 where
  pub mounts : List ExecutionMount
  pub argv : List String
  pub environment : List (String × String)

-- `ResolvedProviderPolicyArtifacts.__post_init__`
unfoldable pub check_artifacts : ProviderPolicyArtifacts → Result (Unit {0})
unfolding all_have_role
check_artifacts a = do
  guard (all_have_role "provider-policy" false a.mounts)
      (value_error "policy mounts must be provider-policy ExecutionMount values")
  require_texts a.argv "policy argv item"
  require_environment a.environment

pub record ExecutionPlan : Type 0 where
  pub agent_id : String
  pub image : String
  pub argv : List String
  pub environment : List (String × String)
  pub workspace_mount : ExecutionMount
  pub reference_mounts : List ExecutionMount
  pub task_metadata_mount : ExecutionMount
  pub provider_state_mounts : List ExecutionMount
  pub provider_policy_artifacts : ProviderPolicyArtifacts
  pub resource_limits : ResourceLimits
  pub network : NetworkRuntimeRequirements
  pub readonly : Bool
  pub interaction_mode : String
  pub runtime_isolation : RuntimeIsolationRequirements
  pub security_class : Option String
  pub required_capabilities : List String
  pub auxiliary_mounts : List ExecutionMount
  pub working_directory : String

unfoldable pub all_mounts : ExecutionPlan → List ExecutionMount
all_mounts p =
    p.workspace_mount
    ∷ (p.reference_mounts
        ++ (p.task_metadata_mount
            ∷ (p.provider_state_mounts
                ++ (p.provider_policy_artifacts.mounts ++ p.auxiliary_mounts))))

-- `targets.get(target)`; the newest entry comes first
unfoldable pub mount_at : String → List ExecutionMount → Option ExecutionMount
mount_at target [] = none
mount_at target (m ∷ ms) = if str_eq m.target target then some m else mount_at target ms

unfoldable pub agrees : ExecutionMount → Option ExecutionMount → Bool
unfolding mount_eq
agrees m none = true
agrees m (some previous) = mount_eq previous m

-- The last loop of `ResolvedExecutionPlan.__post_init__`
unfoldable pub require_targets : List ExecutionMount → List ExecutionMount → Result (Unit {0})
unfolding mount_at agrees
require_targets targets [] = ok tt
require_targets targets (m ∷ ms) = do
  guard (agrees m (mount_at m.target targets)) (value_error "contradictory mounts target")
  require_targets (m ∷ targets) ms

unfoldable pub require_class : Option String → Result (Unit {0})
require_class none = ok tt
require_class (some name) = require_text name "security_class"

-- `ResolvedExecutionPlan.__post_init__`
unfoldable pub check_plan : ExecutionPlan → Result (Unit {0})
unfolding all_have_role all_mounts require_targets require_class
check_plan p = do
  require_text p.agent_id "agent_id"
  require_text p.image "image"
  require_argv p.argv
  require_environment p.environment
  guard (str_eq p.workspace_mount.role "workspace")
      (value_error "workspace_mount must have role 'workspace'")
  guard (str_eq p.workspace_mount.target "/workspace")
      (value_error "workspace mount target must be /workspace")
  guard (bool_eq p.workspace_mount.read_only p.readonly)
      (value_error "workspace mount mode contradicts plan readonly mode")
  guard (all_have_role "reference" true p.reference_mounts)
      (value_error "reference mounts must be read-only reference mounts")
  guard (str_eq p.task_metadata_mount.role "task-metadata" && p.task_metadata_mount.read_only)
      (value_error "task metadata mount must be read-only")
  guard (all_have_role "provider-state" false p.provider_state_mounts)
      (value_error "provider state mounts must have role 'provider-state'")
  guard (contains ("interactive" ∷ "noninteractive" ∷ []) p.interaction_mode)
      (value_error "unsupported interaction mode")
  require_class p.security_class
  require_texts p.required_capabilities "required capability"
  require_container_path p.working_directory "working_directory"
  require_targets [] (all_mounts p)
