-- ===== src/Agents/Cursor.antt =====
-- agents/cursor.py. `dumps` is `json.dumps(..., sort_keys=True, separators=(",", ":"))`, an argument.
pub mod Document
pub mod Asks
pub mod Supports
use codex_cursor_devstack.Base.{
  String, ◌<>◌, Bool, true, false, not, ◌&&◌, Option, none, some, List, [], ◌∷◌, ◌++◌, codes, strip,
  is_empty, if◌then◌else◌, Result, ok, err, value_error, ◌>>=◌, ◌>>◌, guard,
}
use codex_cursor_devstack.Base.Value.{ℤ, Value, Fields, Key, lookup, text_items}
use codex_cursor_devstack.Execution.Mounts.{RuntimeIsolationRequirements}
use codex_cursor_devstack.Policy.Choices.{WorkspaceAccess, NetworkMode, Visibility}
use codex_cursor_devstack.Policy.Schema.{ExecutionPolicy}
use codex_cursor_devstack.Policy.Capabilities.{
  AgentCapabilities, new_capabilities, require_policy_capabilities,
}
use codex_cursor_devstack.Agents.Specs.{
  ProviderPolicyArtifacts, GeneratedPolicyFileSpec, RunSpec, check_policy_artifacts,
  check_generated_file, check_run, unsupported_if_missing,
}

-- `CURSOR_CONTROL_ISOLATION` and `CURSOR_SANDBOX_ISOLATION`
abbrev pub control_isolation : RuntimeIsolationRequirements
control_isolation = record {
  uid = some (ℤ.pos 1000);
  gid = some (ℤ.pos 1000);
  nested_sandbox_bootstrap = false;
}

abbrev pub sandbox_isolation : RuntimeIsolationRequirements
sandbox_isolation = record {
  uid = some (ℤ.pos 1000);
  gid = some (ℤ.pos 1000);
  nested_sandbox_bootstrap = true;
}

-- `CURSOR_SANDBOX_PRIVATE_DENIES`
abbrev pub private_denies : List String
private_denies =
    "127.0.0.0/8" ∷ "10.0.0.0/8" ∷ "172.16.0.0/12" ∷ "192.168.0.0/16" ∷ "169.254.0.0/16" ∷ "::1/128"
    ∷ "fc00::/7" ∷ "fe80::/10" ∷ []

-- `CURSOR_SANDBOX_POLICY_TARGET`
abbrev pub sandbox_policy_target : String
sandbox_policy_target = "/home/node/.cursor/sandbox.json"

abbrev pub workspace_type : WorkspaceAccess → String
workspace_type WorkspaceAccess.read = "workspace_readonly"
workspace_type _ = "workspace_readwrite"

-- `document`
unfoldable pub sandbox_document : WorkspaceAccess → List String → Value
unfolding text_items
sandbox_document workspace allow = Value.object (
    Fields.entry (Key.name "type") (Value.text (workspace_type workspace)) (
      Fields.entry (Key.name "networkPolicy")
        (Value.object (
          Fields.entry (Key.name "default") (Value.text "deny") (
            Fields.entry (Key.name "allow") (Value.list (text_items allow)) (
              Fields.entry (Key.name "deny") (Value.list (text_items private_denies)) Fields.end))))
        Fields.end))

unfoldable pub allowed_destinations : NetworkMode → List String → Result (List String)
allowed_destinations NetworkMode.deny destinations = do
  guard (is_empty destinations) (value_error "Cursor network deny does not accept destinations")
  ok []
allowed_destinations NetworkMode.allowlist destinations = do
  guard (not (is_empty destinations)) (value_error "Cursor network allowlist requires destinations")
  ok destinations
allowed_destinations NetworkMode.allow destinations =
    err (value_error "Cursor sandbox task egress mode must be deny or allowlist")

abbrev pub has_workspace : WorkspaceAccess → Bool
has_workspace WorkspaceAccess.no_access = false
has_workspace _ = true

abbrev pub denies : Visibility → Bool
denies Visibility.deny = true
denies Visibility.allow = false

-- `capabilities`
unfoldable pub declared_capabilities : AgentCapabilities
declared_capabilities = record {
  workspace_modes = "readonly" ∷ "writable" ∷ [];
  interactive_auth = true;
  interactive_run = true;
  native_policy = true;
  native_sandbox = true;
  compatibility_modes = [];
  policy_capabilities = "provider_state_protection" ∷ [];
  security_classes = "compatibility" ∷ [];
}

unfoldable pub cursor_capabilities : Result AgentCapabilities
cursor_capabilities = new_capabilities declared_capabilities

abbrev pub without_files : List String → ProviderPolicyArtifacts
without_files argv = record {
  files = [];
  argv = argv;
  environment = [];
  runtime_isolation = control_isolation;
  generated_files = [];
}

unfoldable pub new_artifacts : ProviderPolicyArtifacts → Result ProviderPolicyArtifacts
new_artifacts a = check_policy_artifacts a >> ok a

unfoldable pub bool_flag : String → Fields → Option Bool
bool_flag name policy = elim (lookup name policy) [
  | none ↦ some false
  | some v ↦ elim v [ Value.boolean b ↦ some b | _ ↦ none ]
]

abbrev compile_flags : Option Bool → Option Bool → Result ProviderPolicyArtifacts
compile_flags (some readonly) (some false) = new_artifacts (without_files [])
compile_flags (some readonly) (some true) =
    err (value_error "Cursor does not support outer-only mode")
compile_flags _ _ = err (value_error "Cursor readonly and outer_only policy values must be boolean")

-- `_compile_legacy_policy`
unfoldable pub compile_legacy_policy : Fields → Result ProviderPolicyArtifacts
unfolding bool_flag
compile_legacy_policy policy =
    compile_flags (bool_flag "readonly" policy) (bool_flag "outer_only" policy)

abbrev pub sandbox_file : String → GeneratedPolicyFileSpec
sandbox_file content = record {
  name = "sandbox.json";
  target = sandbox_policy_target;
  content = content;
  read_only = true;
}

abbrev pub with_file : String → ProviderPolicyArtifacts
with_file content = record {
  files = [];
  argv = "--sandbox" ∷ "enabled" ∷ [];
  environment = [];
  runtime_isolation = sandbox_isolation;
  generated_files = sandbox_file content ∷ [];
}

module _ (dumps : Value → String) where
  unfoldable pub cursor_task_egress_sandbox_json :
      WorkspaceAccess → NetworkMode → List String → Result String
  cursor_task_egress_sandbox_json workspace mode destinations = do
    guard (has_workspace workspace)
        (value_error "Cursor sandbox policy requires workspace read or write access")
    allow ← allowed_destinations mode destinations
    ok (dumps (sandbox_document workspace allow) <> "\n")

  -- The artifacts of a policy that denies or lists the network.
  unfoldable pub sandboxed_artifacts :
      WorkspaceAccess → NetworkMode → List String → Result ProviderPolicyArtifacts
  sandboxed_artifacts workspace mode destinations = do
    content ← cursor_task_egress_sandbox_json workspace mode destinations
    check_generated_file (sandbox_file content)
    new_artifacts (with_file content)

  unfoldable pub network_artifacts :
      Bool → WorkspaceAccess → NetworkMode → List String → Result ProviderPolicyArtifacts
  network_artifacts sandboxed workspace NetworkMode.allow destinations = do
    guard (not sandboxed) (
        value_error
          "Cursor cannot combine sandbox.required=true with unrestricted task-shell network")
    new_artifacts (without_files ("--sandbox" ∷ "disabled" ∷ []))
  network_artifacts sandboxed workspace mode destinations = do
    guard sandboxed (
        value_error
          "Cursor deny/allowlist task-shell networking requires provider-native sandboxing")
    sandboxed_artifacts workspace mode destinations

  -- `_compile_execution_policy`
  unfoldable pub compile_execution_policy : ExecutionPolicy → Result ProviderPolicyArtifacts
  compile_execution_policy p = do
    capabilities ← cursor_capabilities
    required ← unsupported_if_missing (require_policy_capabilities p capabilities)
    guard (has_workspace p.workspace)
        (value_error "Cursor policy compiler cannot represent workspace.access=none")
    guard (not (denies p.credentials && not p.sandbox))
        (value_error "Cursor provider-auth task-shell deny requires provider-native sandboxing")
    network_artifacts p.sandbox p.workspace p.network.mode p.network.destinations

-- `create_run_spec`
unfoldable pub create_run_spec : ProviderPolicyArtifacts → String → Result RunSpec
create_run_spec policy prompt =
    let run : RunSpec = record {
      argv =
          "agent"
          ∷ "--trust"
          ∷ (policy.argv ++ (if is_empty (strip (codes prompt)) then [] else prompt ∷ []));
      environment = [];
      interactive = true;
      policy_artifacts = policy;
      runtime_isolation = policy.runtime_isolation;
    } in
    check_run run >> ok run
