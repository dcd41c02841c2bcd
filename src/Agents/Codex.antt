-- ===== src/Agents/Codex.antt =====
-- agents/codex.py. `dumps` is `json.dumps(..., ensure_ascii=False)` on strings, an argument.
pub mod Settings
pub mod Confines
pub mod Supports
pub mod Run
use codex_cursor_devstack.Base.{
  String, ◌<>◌, Bool, true, false, not, ◌&&◌, Option, none, some, List, [], ◌∷◌, ◌++◌, codes, strip,
  is_empty, if◌then◌else◌, Result, ok, err, value_error, ◌>>=◌, ◌>>◌, guard,
}
use codex_cursor_devstack.Base.Value.{ℤ, Value, Fields, lookup}
use codex_cursor_devstack.Execution.Mounts.{RuntimeIsolationRequirements}
use codex_cursor_devstack.Policy.Choices.{WorkspaceAccess, NetworkMode, Visibility}
use codex_cursor_devstack.Policy.Schema.{ExecutionPolicy}
use codex_cursor_devstack.Policy.Capabilities.{
  AgentCapabilities, new_capabilities, require_policy_capabilities,
}
use codex_cursor_devstack.Agents.Specs.{
  ProviderPolicyArtifacts, RunSpec, check_policy_artifacts, check_run, unsupported_if_missing,
}

-- `CODEX_CONTROL_ISOLATION` and `CODEX_SANDBOX_ISOLATION`
abbrev pub control_isolation : RuntimeIsolationRequirements
control_isolation = record {
  uid = some (ℤ.pos 1000);
  gid = some (ℤ.pos 1000);
  nested_sandbox_bootstrap = false;
}

abbrev pub sandbox_isolation : RuntimeIsolationRequirements
sandbox_isolation = record {
  uid = some (ℤ.pos 1000);
  gid = some (ℤ.pos 1000);
  nested_sandbox_bootstrap = true;
}

-- `CODEX_CREDENTIAL_PERMISSION_PROFILE`, `CODEX_PROVIDER_STATE_TARGET`
abbrev pub permission_profile : String
permission_profile = "agentdev_credential_confidentiality"

abbrev pub state_denied : String
state_denied =
    "permissions.agentdev_credential_confidentiality.filesystem={ \"/home/node/.codex\" = \"deny\", \"/home/node/.codex/**\" = \"deny\" }"

abbrev pub base_profile : WorkspaceAccess → String
base_profile WorkspaceAccess.read = ":read-only"
base_profile _ = ":workspace"

abbrev pub is_read_or_write : WorkspaceAccess → Bool
is_read_or_write WorkspaceAccess.no_access = false
is_read_or_write _ = true

unfoldable pub codex_credential_confidentiality_config_argv : WorkspaceAccess → Result (List String)
codex_credential_confidentiality_config_argv workspace = do
  guard (is_read_or_write workspace)
      (value_error "Codex credential probe workspace access must be read or write")
  ok (
      "-c"
      ∷ ("default_permissions=\"" <> permission_profile <> "\"")
      ∷ "-c"
      ∷ ("permissions." <> permission_profile <> ".extends=\"" <> base_profile workspace <> "\"")
      ∷ "-c"
      ∷ state_denied
      ∷ "-c"
      ∷ "shell_environment_policy.inherit=\"all\""
      ∷ "-c"
      ∷ "shell_environment_policy.ignore_default_excludes=false"
      ∷ "-c"
      ∷ "history.persistence=\"none\""
      ∷ [])

-- `capabilities`
unfoldable pub declared_capabilities : AgentCapabilities
declared_capabilities = record {
  workspace_modes = "readonly" ∷ "writable" ∷ [];
  interactive_auth = true;
  interactive_run = true;
  native_policy = true;
  native_sandbox = true;
  compatibility_modes = "outer-only" ∷ [];
  policy_capabilities = "provider_state_protection" ∷ "network_deny" ∷ "network_allowlist" ∷ [];
  security_classes = "compatibility" ∷ [];
}

unfoldable pub codex_capabilities : Result AgentCapabilities
codex_capabilities = new_capabilities declared_capabilities

-- Arguments and an identity, without files.
abbrev pub only_argv : List String → RuntimeIsolationRequirements → ProviderPolicyArtifacts
only_argv argv isolation = record {
  files = [];
  argv = argv;
  environment = [];
  runtime_isolation = isolation;
  generated_files = [];
}

unfoldable pub new_artifacts : ProviderPolicyArtifacts → Result ProviderPolicyArtifacts
new_artifacts a = check_policy_artifacts a >> ok a

-- `type(policy.get(name, False)) is bool`, and the value
unfoldable pub bool_flag : String → Fields → Option Bool
bool_flag name policy = elim (lookup name policy) [
  | none ↦ some false
  | some v ↦ elim v [ Value.boolean b ↦ some b | _ ↦ none ]
]

abbrev legacy_sandbox : Bool → Bool → String
legacy_sandbox readonly outer_only =
    if outer_only then "danger-full-access" else if readonly then "read-only" else "workspace-write"

abbrev compile_flags : Option Bool → Option Bool → Result ProviderPolicyArtifacts
compile_flags (some readonly) (some outer_only) = new_artifacts (
    only_argv
      ("--sandbox" ∷ legacy_sandbox readonly outer_only ∷ "-c" ∷ "approval_policy=never" ∷ [])
      (if outer_only then control_isolation else sandbox_isolation))
compile_flags _ _ = err (value_error "Codex readonly and outer_only policy values must be boolean")

-- `_compile_legacy_policy`
unfoldable pub compile_legacy_policy : Fields → Result ProviderPolicyArtifacts
unfolding bool_flag
compile_legacy_policy policy =
    compile_flags (bool_flag "readonly" policy) (bool_flag "outer_only" policy)

unfoldable pub credential_argv : Visibility → Bool → WorkspaceAccess → Result (List String)
credential_argv Visibility.allow sandboxed workspace = ok []
credential_argv Visibility.deny sandboxed workspace = do
  guard sandboxed
      (value_error "Codex provider-auth task-shell deny requires provider-native sandboxing")
  codex_credential_confidentiality_config_argv workspace

abbrev pub sandbox_argv : WorkspaceAccess → List String
sandbox_argv WorkspaceAccess.read = "--sandbox" ∷ "read-only" ∷ "-c" ∷ "approval_policy=never" ∷ []
sandbox_argv _ = "--sandbox" ∷ "workspace-write" ∷ "-c" ∷ "approval_policy=never" ∷ []

module _ (dumps : String → String) where
  -- `", ".join(...)` of the entries
  unfoldable pub domain_entries : List String → String
  domain_entries [] = ""
  domain_entries (d ∷ []) = dumps d <> " = \"allow\""
  domain_entries (d ∷ e ∷ ds) = dumps d <> " = \"allow\"" <> ", " <> domain_entries (e ∷ ds)

  unfoldable pub toml_domain_allowlist : List String → String
  toml_domain_allowlist destinations =
      "features.network_proxy.domains={ " <> domain_entries destinations <> " }"

  unfoldable pub allowlist_argv : List String → List String
  allowlist_argv destinations =
      "-c"
      ∷ "sandbox_workspace_write.network_access=true"
      ∷ "-c"
      ∷ "projects={ \"/workspace\" = { trust_level = \"untrusted\" } }"
      ∷ "-c"
      ∷ "features.network_proxy.enabled=true"
      ∷ "-c"
      ∷ "features.network_proxy.enable_socks5=false"
      ∷ "-c"
      ∷ "features.network_proxy.enable_socks5_udp=false"
      ∷ "-c"
      ∷ "features.network_proxy.allow_upstream_proxy=false"
      ∷ "-c"
      ∷ "features.network_proxy.dangerously_allow_non_loopback_proxy=false"
      ∷ "-c"
      ∷ "features.network_proxy.dangerously_allow_all_unix_sockets=false"
      ∷ "-c"
      ∷ "features.network_proxy.mode=\"full\""
      ∷ "-c"
      ∷ "features.network_proxy.allow_local_binding=false"
      ∷ "-c"
      ∷ toml_domain_allowlist destinations
      ∷ []

  unfoldable pub codex_task_egress_config_argv : NetworkMode → List String → Result (List String)
  codex_task_egress_config_argv NetworkMode.deny destinations = do
    guard (is_empty destinations) (value_error "Codex network deny does not accept destinations")
    ok ("-c" ∷ "sandbox_workspace_write.network_access=false" ∷ [])
  codex_task_egress_config_argv NetworkMode.allow destinations =
      err (value_error "Codex task egress mode must be deny or allowlist")
  codex_task_egress_config_argv NetworkMode.allowlist destinations = do
    guard (not (is_empty destinations))
        (value_error "Codex network allowlist requires destinations")
    ok (allowlist_argv destinations)

  -- The network arguments of a policy that has a workspace.
  unfoldable pub network_argv : WorkspaceAccess → NetworkMode → List String → Result (List String)
  network_argv WorkspaceAccess.read NetworkMode.deny destinations = ok []
  network_argv WorkspaceAccess.read _ destinations =
      err (value_error "Codex read-only sandbox cannot enable task-shell network access")
  network_argv _ NetworkMode.deny destinations = codex_task_egress_config_argv NetworkMode.deny []
  network_argv _ NetworkMode.allow destinations = ok (
      "-c" ∷ "sandbox_workspace_write.network_access=true" ∷ "-c"
      ∷ "features.network_proxy.enabled=false" ∷ [])
  network_argv _ NetworkMode.allowlist destinations =
      codex_task_egress_config_argv NetworkMode.allowlist destinations

  -- `_compile_execution_policy`
  unfoldable pub compile_execution_policy : ExecutionPolicy → Result ProviderPolicyArtifacts
  compile_execution_policy p = do
    capabilities ← codex_capabilities
    required ← unsupported_if_missing (require_policy_capabilities p capabilities)
    guard (is_read_or_write p.workspace)
        (value_error "Codex policy compiler cannot represent workspace.access=none")
    egress ← network_argv p.workspace p.network.mode p.network.destinations
    confidential ← credential_argv p.credentials p.sandbox p.workspace
    new_artifacts (
        only_argv (sandbox_argv p.workspace ++ (egress ++ confidential))
          (if p.sandbox then sandbox_isolation else control_isolation))

-- `create_run_spec`
unfoldable pub create_run_spec : ProviderPolicyArtifacts → String → Result RunSpec
create_run_spec policy prompt =
    let run : RunSpec = record {
      argv =
          "codex"
          ∷ "exec"
          ∷ (policy.argv ++ (if is_empty (strip (codes prompt)) then [] else prompt ∷ []));
      environment = [];
      interactive = true;
      policy_artifacts = policy;
      runtime_isolation = policy.runtime_isolation;
    } in
    check_run run >> ok run
