-- ===== src/Tests/Requests.antt =====
-- Capabilities, legacy flags, requests and plans.
use codex_cursor_devstack.Base.{
  ◌≡◌, ◌≢◌, ◌↔◌, refl, sym, ap, ◌∙◌, ok-injective, eq_iff, String, true, false, some, [], ◌∷◌,
  contains, not, ◌&&◌, is_label, has_code, strip, lstrip, same_codes, is_space, ok, err, Error,
  ◌>>=◌, missing_capabilities,
}
use codex_cursor_devstack.Base.Value.{Key, Value, Items, Fields, lookup}
use codex_cursor_devstack.Policy.Choices.{
  SecurityClass, NetworkMode, WorkspaceAccess, ReferenceAccess, ExternalAccess, Visibility,
}
use codex_cursor_devstack.Policy.Checks.{Cpu}
use codex_cursor_devstack.Policy.Schema.{ExecutionPolicy}
use codex_cursor_devstack.Policy.Profiles.{implement, get_profile, profile_by_id}
use codex_cursor_devstack.Policy.Capabilities.{
  AgentCapabilities, available_capabilities, prefixed, missing, verdict, all_labels,
  require_capabilities, require_policy_capabilities, from_policy, workspace_requirement,
  network_requirement, credential_requirement, hardened_requirement,
}
use codex_cursor_devstack.Policy.Capabilities.Matching.{
  require_capabilities-eq-err, require_capabilities-eq-ok, hardened_network_deny,
}
use codex_cursor_devstack.Policy.Legacy.{
  RunProfileMapping, optional_bool, select_profile, explicit_profile, effective_readonly,
  resolve_run_profile_request,
}
use codex_cursor_devstack.Policy.Legacy.Mapping.{resolve_run_keeps_flags}
use codex_cursor_devstack.Broker.Rpc.{
  Line, Decoded, Frame, Handlers, BrokerOperations, rpc_operations, receive, recv_json_line,
  validate_request_shape, read_op, fields_of, fields_within, allowed_ops, request_fields,
  handle_request, decode,
}
use codex_cursor_devstack.Broker.Rpc.Shape.{IsWellShaped, validate_request_shape-IsWellShaped}
use codex_cursor_devstack.Broker.Rpc.Serving.{finals, IsQuiet}
use codex_cursor_devstack.Broker.Rpc.Replies.{handle_request-finals}

-- An agent that is certified for hardened runs.
abbrev agent : AgentCapabilities
agent = record {
  workspace_modes = "readonly" ∷ "write" ∷ [];
  interactive_auth = true;
  interactive_run = true;
  native_policy = true;
  native_sandbox = true;
  compatibility_modes = [];
  policy_capabilities = "network_deny" ∷ "provider_state_protection" ∷ [];
  security_classes = "hardened" ∷ [];
}

require_capabilities-eq-ok_example : (require_capabilities ("network_deny" ∷ []) agent ≡ ok tt) ↔ (
    (all_labels ("network_deny" ∷ []) ≡ true)
    × ((s : String)
        → contains ("network_deny" ∷ []) s ≡ true
        → contains (available_capabilities agent) s ≡ true))
require_capabilities-eq-ok_example = require_capabilities-eq-ok ("network_deny" ∷ []) agent

lacks_allowlist :
    require_capabilities ("network_deny" ∷ "network_allowlist" ∷ []) agent
    ≡ err (missing_capabilities ("network_allowlist" ∷ []))
unfolding require_capabilities all_labels is_label has_code strip lstrip same_codes is_space missing
    available_capabilities prefixed verdict ◌>>=◌
lacks_allowlist = refl

require_capabilities-eq-err_example : contains ("network_allowlist" ∷ []) "network_allowlist" ≡ (
    contains ("network_deny" ∷ "network_allowlist" ∷ []) "network_allowlist"
    && not (contains (available_capabilities agent) "network_allowlist"))
require_capabilities-eq-err_example =
    require_capabilities-eq-err ("network_deny" ∷ "network_allowlist" ∷ []) agent
      ("network_allowlist" ∷ []) "network_allowlist" lacks_allowlist

abbrev policy : ExecutionPolicy
policy = record {
  version = 1;
  workspace = WorkspaceAccess.read;
  reference = ReferenceAccess.read;
  filesystem = ExternalAccess.deny;
  network = record { mode = NetworkMode.deny; destinations = [] };
  credentials = Visibility.deny;
  git = record { read = true; commit = false; push = false };
  sandbox = true;
  resources = record { cpu = Cpu.whole 2; memory_bytes = 1048576; pids = 64 };
  security_class = SecurityClass.hardened;
}

served : require_policy_capabilities policy agent ≡ ok (from_policy policy)
unfolding require_policy_capabilities require_capabilities all_labels is_label has_code strip lstrip
    same_codes is_space missing available_capabilities prefixed verdict from_policy
    workspace_requirement network_requirement credential_requirement hardened_requirement ◌>>=◌
served = refl

hardened_network_deny_example : contains agent.policy_capabilities "network_deny" ≡ true
hardened_network_deny_example =
    hardened_network_deny policy agent (from_policy policy) refl refl served

-- `profile="implement", readonly=False, outer_only=True`
abbrev mapping : RunProfileMapping
mapping = record {
  profile_id = implement;
  readonly = false;
  outer_only = true;
  security_class = some "compatibility";
}

mapped :
    resolve_run_profile_request (Value.text "implement") (Value.boolean false) (Value.boolean true)
    ≡ ok mapping
unfolding resolve_run_profile_request optional_bool select_profile explicit_profile
    effective_readonly get_profile profile_by_id ◌>>=◌
mapped = refl

resolve_run_keeps_flags_example : (false ≡ false) × (true ≡ true)
resolve_run_keeps_flags_example =
    resolve_run_keeps_flags (Value.text "implement") false true mapping mapped

-- `{"op": "task-list", "project": "demo"}`
abbrev list_request : Fields
list_request =
    Fields.entry (Key.name "op") (Value.text "task-list")
      (Fields.entry (Key.name "project") (Value.text "demo") Fields.end)

accepted : validate_request_shape list_request ≡ ok "task-list"
unfolding validate_request_shape lookup read_op allowed_ops fields_of request_fields fields_within
    ◌>>=◌
accepted = refl

validate_request_shape-IsWellShaped_example :
    (validate_request_shape list_request ≡ ok "task-list") ↔ IsWellShaped list_request "task-list"
validate_request_shape-IsWellShaped_example =
    validate_request_shape-IsWellShaped list_request "task-list"

abbrev handlers : Handlers
handlers = record {
  project_init = λ req. ok Value.null;
  project_sync = λ req. ok Value.null;
  project_export = λ req. ok Value.null;
  project_status = λ req. err (Error.value_error "cannot read task metadata");
  task_start = λ req. ok Value.null;
  task_complete = λ req. ok Value.null;
  task_merge = λ req. ok Value.null;
  task_abort = λ req. ok Value.null;
  task_list = λ req. ok (Value.list Items.nil);
}

abbrev operations : BrokerOperations
operations = record {
  uid = 990;
  result_ops = [];
  build = (Frame.output "STEP 1" ∷ [], ok 0);
  status = ([], ok 0);
  versions = ([], ok 0);
  smoke = ([], err (Error.failure "OSError"));
  index = λ req. ([], ok 0);
  auth = λ provider. ([], ok 0);
  run = λ req. ([], ok 0);
}

operations-IsQuiet : IsQuiet operations
operations-IsQuiet = record {
  build = refl;
  status = refl;
  versions = refl;
  smoke = refl;
  index = λ req. refl;
}

list_is_plain :
    (req : Fields) (op : String)
    → receive (Line.line 30 (Decoded.json (Value.object list_request))) ≡ ok req
    → validate_request_shape req ≡ ok op
    → (op ≢ "auth") × (op ≢ "run")
unfolding receive recv_json_line decode ◌>>=◌
list_is_plain req op h k =
    let same : list_request ≡ req = ok-injective _ _ h in
    let named : "task-list" ≡ op =
      ok-injective _ _ (sym accepted ∙ ap validate_request_shape same ∙ k) in
    (
      λ e. cc ((eq_iff "task-list" "auth").1 (named ∙ e)),
      λ e. cc ((eq_iff "task-list" "run").1 (named ∙ e)),
    )

handle_request-finals_example :
    finals (
      handle_request
        (rpc_operations handlers operations)
        (Line.line 30 (Decoded.json (Value.object list_request))))
    ≡ 1
handle_request-finals_example =
    handle_request-finals handlers operations
      (Line.line 30 (Decoded.json (Value.object list_request))) operations-IsQuiet list_is_plain
