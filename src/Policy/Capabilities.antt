-- ===== src/Policy/Capabilities.antt =====
-- policy/capabilities.py, and `AgentCapabilities` of agents/base.py. A frozenset is a list.
pub mod Matching
use codex_cursor_devstack.Base.{
  String, ◌<>◌, Bool, true, false, not, ◌&&◌, List, [], ◌∷◌, ◌++◌, map, contains, subset, is_label,
  is_line, is_empty, sorted, if◌then◌else◌, Result, ok, err, value_error, missing_capabilities,
  ◌>>=◌, ◌>>◌, guard,
}
use codex_cursor_devstack.Policy.Choices.{
  WorkspaceAccess, NetworkMode, Visibility, SecurityClass, security_choice,
}
use codex_cursor_devstack.Policy.Schema.{ExecutionPolicy}

pub record AgentCapabilities : Type 0 where
  pub workspace_modes : List String
  pub interactive_auth : Bool
  pub interactive_run : Bool
  pub native_policy : Bool
  pub native_sandbox : Bool
  pub compatibility_modes : List String
  pub policy_capabilities : List String
  pub security_classes : List String

unfoldable pub all_lines : List String → Bool
unfolding is_line
all_lines [] = true
all_lines (s ∷ ss) = is_line s && all_lines ss

-- `AgentCapabilities.__post_init__`
unfoldable pub new_capabilities : AgentCapabilities → Result AgentCapabilities
unfolding all_lines subset
new_capabilities c = do
  guard (subset c.workspace_modes ("readonly" ∷ "writable" ∷ []))
      (value_error "unsupported workspace modes")
  guard (not (is_empty c.workspace_modes)) (value_error "at least one workspace mode is required")
  guard (all_lines c.compatibility_modes)
      (value_error "compatibility mode must be a non-empty single-line string")
  guard (all_lines c.policy_capabilities)
      (value_error "policy capability must be a non-empty single-line string")
  guard (not (is_empty c.security_classes)) (value_error "at least one security class is required")
  guard (subset c.security_classes ("compatibility" ∷ "hardened" ∷ []))
      (value_error "unsupported security classes")
  ok c

abbrev pub when : Bool → String → List String
when b s = if b then s ∷ [] else []

unfoldable pub workspace_requirement : WorkspaceAccess → List String
workspace_requirement WorkspaceAccess.read = "workspace:readonly" ∷ []
workspace_requirement WorkspaceAccess.write = "workspace:writable" ∷ []
workspace_requirement WorkspaceAccess.no_access = []

unfoldable pub network_requirement : NetworkMode → List String
network_requirement NetworkMode.deny = "network_deny" ∷ []
network_requirement NetworkMode.allowlist = "network_allowlist" ∷ []
network_requirement NetworkMode.allow = []

unfoldable pub credential_requirement : Visibility → List String
credential_requirement Visibility.deny = "provider_state_protection" ∷ []
credential_requirement Visibility.allow = []

-- What `CapabilityRequirement.from_policy` adds for hardened execution only.
unfoldable pub hardened_requirement : SecurityClass → ExecutionPolicy → List String
unfolding network_requirement credential_requirement
hardened_requirement SecurityClass.compatibility p = []
hardened_requirement SecurityClass.hardened p =
    when p.sandbox "filesystem_sandbox"
    ++ (network_requirement p.network.mode ++ credential_requirement p.credentials)

-- `CapabilityRequirement.from_policy`
unfoldable pub from_policy : ExecutionPolicy → List String
unfolding workspace_requirement hardened_requirement
from_policy p =
    ("security_class:" <> security_choice.to_name p.security_class)
    ∷ (workspace_requirement p.workspace ++ hardened_requirement p.security_class p)

unfoldable pub prefixed : String → List String → List String
prefixed prefix [] = []
prefixed prefix (s ∷ ss) = (prefix <> s) ∷ prefixed prefix ss

unfoldable pub available_capabilities : AgentCapabilities → List String
unfolding prefixed
available_capabilities c =
    c.policy_capabilities
    ++ (prefixed "workspace:" c.workspace_modes
        ++ (prefixed "security_class:" c.security_classes
            ++ (prefixed "compatibility:" c.compatibility_modes
                ++ (when c.interactive_run "interactive-run"
                    ++ when c.native_sandbox "filesystem_sandbox"))))

-- `required - available`
unfoldable pub missing : List String → List String → List String
missing [] available = []
missing (s ∷ ss) available =
    let rest = missing ss available in if contains available s then rest else s ∷ rest

-- `CapabilityRequirement.missing_from`
unfoldable pub missing_from : List String → AgentCapabilities → List String
unfolding missing available_capabilities sorted
missing_from required capabilities = sorted (missing required (available_capabilities capabilities))

unfoldable pub all_labels : List String → Bool
unfolding is_label
all_labels [] = true
all_labels (s ∷ ss) = is_label s && all_labels ss

-- `if missing: raise MissingCapabilitiesError(missing)`
unfoldable pub verdict : List String → Result (Unit {0})
verdict [] = ok tt
verdict (s ∷ ss) = err (missing_capabilities (s ∷ ss))

-- The names of `required` are checked where it is made, or on entry.
unfoldable pub require_capabilities : List String → AgentCapabilities → Result (Unit {0})
require_capabilities required capabilities = do
  guard (all_labels required) (value_error "capability names must be labels")
  verdict (missing required (available_capabilities capabilities))

unfoldable pub require_policy_capabilities :
    ExecutionPolicy → AgentCapabilities → Result (List String)
require_policy_capabilities policy capabilities = do
  require_capabilities (from_policy policy) capabilities
  ok (from_policy policy)
