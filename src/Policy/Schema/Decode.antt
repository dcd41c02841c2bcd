-- ===== src/Policy/Schema/Decode.antt =====
-- The `from_dict` methods of policy/schema.py, with the checks of `__post_init__`.
use codex_cursor_devstack.Base.{
  ℕ, String, Bool, true, false, not, ◌&&◌, Option, none, some, List, [], ◌∷◌, is_empty,
  if◌then◌else◌, Result, ok, err, value_error, ◌>>=◌, ◌==◌,
}
use codex_cursor_devstack.Base.Value.{ℤ, Value, Items, text_items, lookup}
use codex_cursor_devstack.Policy.Choices.{
  WorkspaceAccess, ReferenceAccess, ExternalAccess, NetworkMode, Visibility, SecurityClass,
  workspace_choice, reference_choice, external_choice, mode_choice, visibility_choice,
  security_choice,
}
use codex_cursor_devstack.Policy.Checks.{
  require_fields, get_item, require_choice, require_bool, require_positive_int, normalize_cpu,
  normalize_memory, normalize_destinations,
}
use codex_cursor_devstack.Policy.Schema.Records.{
  TaskShellNetworkPolicy, GitPolicy, PolicyResourceLimits, ExecutionPolicy,
}

-- A `from_dict` that reads one field of a dict with no other.
unfoldable pub one_field : {A : Type 0} → String → String → (Value → Result A) → Value → Result A
unfolding require_fields get_item
one_field path key check value = do
  data' ← require_fields value path (key ∷ []) []
  v ← get_item key data'
  check v

unfoldable pub workspace_from_dict : Value → Result WorkspaceAccess
unfolding one_field require_choice
workspace_from_dict = one_field "workspace" "access" λ v. require_choice v "workspace.access"

unfoldable pub reference_from_dict : Value → Result ReferenceAccess
unfolding one_field require_choice
reference_from_dict = one_field "reference" "access" λ v. require_choice v "reference.access"

unfoldable pub filesystem_from_dict : Value → Result ExternalAccess
unfolding one_field require_choice
filesystem_from_dict = one_field "filesystem" "external" λ v. require_choice v "filesystem.external"

abbrev is_allowlist : NetworkMode → Bool
is_allowlist NetworkMode.allowlist = true
is_allowlist _ = false

-- The last two tests of `TaskShellNetworkPolicy.__post_init__`
unfoldable pub check_mode : NetworkMode → List String → Result TaskShellNetworkPolicy
check_mode mode destinations =
    if is_allowlist mode && is_empty destinations
    then err (value_error "network.task_shell allowlist mode requires destinations")
    else if not (is_allowlist mode) && not (is_empty destinations)
    then err (value_error "network.task_shell destinations are only valid in allowlist mode")
    else ok (record { mode = mode; destinations = destinations })

-- `TaskShellNetworkPolicy.__post_init__`
unfoldable pub new_task_shell : NetworkMode → List String → Result TaskShellNetworkPolicy
unfolding text_items
new_task_shell mode destinations = do
  normalized ← normalize_destinations (Value.list (text_items destinations))
  check_mode mode normalized

-- `data.get("destinations", ())`
abbrev pub or_empty : Option Value → Value
or_empty none = Value.list Items.nil
or_empty (some v) = v

unfoldable pub require_mode : Value → Result NetworkMode
unfolding require_choice
require_mode v = require_choice v "network.task_shell.mode"

unfoldable pub task_shell_from_dict : Value → Result TaskShellNetworkPolicy
unfolding require_fields get_item lookup
task_shell_from_dict value = do
  data' ← require_fields value "network.task_shell" ("mode" ∷ []) ("destinations" ∷ [])
  m ← get_item "mode" data'
  mode ← require_mode m
  destinations ← normalize_destinations (or_empty (lookup "destinations" data'))
  new_task_shell mode destinations

unfoldable pub network_from_dict : Value → Result TaskShellNetworkPolicy
unfolding one_field
network_from_dict = one_field "network" "task_shell" task_shell_from_dict

unfoldable pub provider_auth_from_dict : Value → Result Visibility
unfolding one_field require_choice
provider_auth_from_dict =
    one_field "credentials.provider_auth" "task_shell"
      λ v. require_choice v "credentials.provider_auth.task_shell"

unfoldable pub credentials_from_dict : Value → Result Visibility
unfolding one_field provider_auth_from_dict
credentials_from_dict = one_field "credentials" "provider_auth" provider_auth_from_dict

unfoldable pub git_from_dict : Value → Result GitPolicy
unfolding require_fields get_item require_bool
git_from_dict value = do
  data' ← require_fields value "git" ("read" ∷ "commit" ∷ "push" ∷ []) []
  r ← get_item "read" data'
  read ← require_bool r "git.read"
  c ← get_item "commit" data'
  commit ← require_bool c "git.commit"
  p ← get_item "push" data'
  push ← require_bool p "git.push"
  ok (record { read = read; commit = commit; push = push })

unfoldable pub sandbox_from_dict : Value → Result Bool
unfolding one_field require_bool
sandbox_from_dict = one_field "sandbox" "required" λ v. require_bool v "sandbox.required"

-- The checks of `__post_init__` repeat those made here, on values that have passed them.
unfoldable pub resources_from_dict : Value → Result PolicyResourceLimits
unfolding require_fields get_item
resources_from_dict value = do
  data' ← require_fields value "resources" ("cpu" ∷ "memory" ∷ "pids" ∷ []) []
  c ← get_item "cpu" data'
  cpu ← normalize_cpu c
  m ← get_item "memory" data'
  memory_bytes ← normalize_memory m
  p ← get_item "pids" data'
  pids ← require_positive_int p "resources.pids"
  ok (record { cpu = cpu; memory_bytes = memory_bytes; pids = pids })

abbrev pub policy_fields : List String
policy_fields =
    "version" ∷ "workspace" ∷ "reference" ∷ "filesystem" ∷ "network" ∷ "credentials" ∷ "git"
    ∷ "sandbox" ∷ "resources" ∷ "security_class" ∷ []

-- `type(version) is int and version == 1`
unfoldable pub require_version : Value → Result ℕ
require_version (Value.int (ℤ.pos n)) =
    if n == 1 then ok n else err (value_error "version must be 1")
require_version _ = err (value_error "version must be 1")

unfoldable pub require_security : Value → Result SecurityClass
unfolding require_choice
require_security v = require_choice v "security_class"

unfoldable pub from_dict : Value → Result ExecutionPolicy
unfolding require_fields get_item
from_dict value = do
  data' ← require_fields value "policy" policy_fields []
  v ← get_item "version" data'
  version ← require_version v
  w ← get_item "workspace" data'
  workspace ← workspace_from_dict w
  r ← get_item "reference" data'
  reference ← reference_from_dict r
  f ← get_item "filesystem" data'
  filesystem ← filesystem_from_dict f
  n ← get_item "network" data'
  network ← network_from_dict n
  c ← get_item "credentials" data'
  credentials ← credentials_from_dict c
  g ← get_item "git" data'
  git ← git_from_dict g
  s ← get_item "sandbox" data'
  sandbox ← sandbox_from_dict s
  l ← get_item "resources" data'
  resources ← resources_from_dict l
  k ← get_item "security_class" data'
  security_class ← require_security k
  ok (record {
    version = version;
    workspace = workspace;
    reference = reference;
    filesystem = filesystem;
    network = network;
    credentials = credentials;
    git = git;
    sandbox = sandbox;
    resources = resources;
    security_class = security_class;
  })
