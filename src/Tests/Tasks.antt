-- ===== src/Tests/Tasks.antt =====
-- Names, paths, locks, task operations and plans.
use codex_cursor_devstack.Base.{
  input_error, err, All, ◌≡◌, ◌≢◌, refl, String, Bool, true, false, none, some, List, [], ◌∷◌,
  contains, if◌then◌else◌, is_line, has_code, ok, ◌>>=◌, arith,
}
use codex_cursor_devstack.Base.Value.{ℤ, Key, Value, Fields, lookup}
use codex_cursor_devstack.Core.Names.{
  IsSafeName, valid_name, valid_name-IsSafeName, is_valid_name, matches_name, all_name_codes,
  is_name_code, is_alphanumeric,
}
use codex_cursor_devstack.Core.Paths.{
  FilePath, FileSystem, IsContained, canonical_dir, canonical_file, ensure_under, resolve_strict,
  is_under, canonical_dir-IsContained,
}
use codex_cursor_devstack.Core.Records.{find_file, TaskRecord, count}
use codex_cursor_devstack.Core.Host.{
  Host, State, pure, lift, gets, require, git_unchecked, ◌>>=◌ as ◌>=>◌,
}
use codex_cursor_devstack.Core.Projects.{
  resolve_project_paths, resolve_project_root, from_project_root, ProjectPaths,
}
use codex_cursor_devstack.Core.Dependencies.{
  validate_dependencies, validate_dependency, require_ancestor, read_dependency, required_commit,
  recorded,
}
use codex_cursor_devstack.Core.Dependencies.Integrated.{
  IsIntegrated, validate_dependencies-IsIntegrated,
}
use codex_cursor_devstack.Core.Locking.{lock_path, integration_lock}
use codex_cursor_devstack.Core.Tasks.{
  file_system, load_task, read_record, check_loaded, workspace_of, workspace_root_of,
  validate_task_completion,
}
use codex_cursor_devstack.Core.Tasks.Lifecycle.{Exclusive}
use codex_cursor_devstack.Broker.TaskOps.{
  task_op, op_task_complete, TaskOp, serve, op_task_merge, get,
}
use codex_cursor_devstack.Broker.TaskOps.Exclusion.{serve-Exclusive, task_op_raises}
use codex_cursor_devstack.Broker.TaskOps.Locks.{op_task_merge_integration}
use codex_cursor_devstack.Execution.Mounts.{
  ExecutionMount, require_text, require_container_path, is_absolute, has_parent, require_texts,
  require_argv, require_environment, require_entries, mount_eq,
}
use codex_cursor_devstack.Execution.Plan.{
  ExecutionPlan, check_plan, all_have_role, all_mounts, mount_at, agrees, require_targets,
  require_class,
}
use codex_cursor_devstack.Execution.Plan.Consistent.{IsConsistent, check_plan-IsConsistent}

abbrev pub demo : Value
demo = Value.text "demo"

demo_valid : valid_name demo "project" ≡ ok "demo"
unfolding valid_name is_valid_name matches_name all_name_codes is_name_code is_alphanumeric
demo_valid = refl

valid_name-IsSafeName_example : (demo ≡ Value.text "demo") × IsSafeName "demo"
valid_name-IsSafeName_example = valid_name-IsSafeName demo "project" "demo" demo_valid

-- A file system where each path leads to itself, is a directory and a file, and is no symlink.
abbrev pub plain_files : FileSystem
plain_files = record {
  exists = λ p. true;
  is_symlink = λ p. false;
  is_dir = λ p. true;
  is_file = λ p. true;
  resolve = λ p. some p;
}

abbrev tasks_root : FilePath
tasks_root = "srv" ∷ "tasks" ∷ []

abbrev task_file : FilePath
task_file = "srv" ∷ "tasks" ∷ "one.json" ∷ []

file_ok : canonical_file plain_files task_file tasks_root "task metadata" ≡ ok task_file
unfolding canonical_file ensure_under resolve_strict is_under ◌>>=◌
file_ok = refl

dir_ok : canonical_dir plain_files task_file tasks_root "task workspace" ≡ ok task_file
unfolding canonical_dir ensure_under resolve_strict is_under ◌>>=◌
dir_ok = refl

canonical_dir-IsContained_example :
    IsContained plain_files task_file tasks_root task_file × (true ≡ true) × (false ≡ false)
canonical_dir-IsContained_example =
    canonical_dir-IsContained plain_files task_file tasks_root "task workspace" task_file dir_ok

-- Git that succeeds, prints nothing for `status`, and a commit or a branch otherwise.
abbrev answer : List String → String
answer args =
    if contains args "status"
    then ""
    else if contains args "branch"
    then "agent/integration"
    else "c0ffee"

abbrev pub host : Host
host = record {
  World = Unit {0};
  run = λ repo args w. (record { returncode = 0; stdout = answer args }, w);
  file_system = λ w. plain_files;
  now_iso = λ w. "2026-01-01T00:00:00Z";
}

abbrev pub initial : State host
initial = record { files = []; world = tt }

pub initial-Exclusive : Exclusive initial.files
unfolding count
initial-Exclusive = record { at_most_one = omega arith; alone = λ some_active. refl }

abbrev pub request : String → Fields
request task =
    Fields.entry (Key.name "project") demo
      (Fields.entry (Key.name "task") (Value.text task) Fields.end)

serve-Exclusive_example :
    Exclusive
      (serve {H = host}
        ("srv" ∷ [])
        ((TaskOp.start, request "one")
          ∷ (TaskOp.start, request "two")
          ∷ (TaskOp.complete, request "one")
          ∷ [])
        initial).files
serve-Exclusive_example =
    serve-Exclusive ("srv" ∷ [])
      ((TaskOp.start, request "one")
        ∷ (TaskOp.start, request "two")
        ∷ (TaskOp.complete, request "one")
        ∷ [])
      initial initial-Exclusive

abbrev pub empty_record : TaskRecord
empty_record = record {
  project = "demo";
  task = "integration";
  mode = "parallel";
  branch = "agent/task/integration";
  base_commit = "c0ffee";
  head_commit = some "c0ffee";
  merge_commit = none;
  status = "completed";
  dependencies = [];
  started_at = "2026-01-01T00:00:00Z";
  completed_at = some "2026-01-01T00:00:00Z";
  merged_at = none;
  aborted_at = none;
  workspace = [];
}

abbrev one_file : State host
one_file = record { files = ("integration.json", some empty_record) ∷ []; world = tt }

asks_integration : get "task" Value.null (request "integration") ≡ Value.text integration_lock
unfolding get lookup
asks_integration = refl

op_task_merge_integration_example :
    (op_task_merge {H = host} ("srv" ∷ []) (request "integration") one_file).0 ≢ ok empty_record
op_task_merge_integration_example =
    op_task_merge_integration ("srv" ∷ []) (request "integration") one_file empty_record
      asks_integration

abbrev merged_file : State host
merged_file = record {
  files =
      ("base.json", some (record empty_record { status = "merged"; merge_commit = some "c0ffee" }))
      ∷ [];
  world = tt;
}

abbrev paths : ProjectPaths
paths = record {
  root = [];
  agent = [];
  worktrees = [];
  tasks = [];
  reference = [];
  results = [];
  runtime = "runtime" ∷ [];
  inbound = [];
  outbound = [];
  project_meta = [];
}

lock_integration :
    lock_path paths (Value.text "integration") ≡ ok ("runtime" ∷ "locks" ∷ "integration.lock" ∷ [])
unfolding lock_path valid_name is_valid_name matches_name all_name_codes is_name_code
    is_alphanumeric ◌>>=◌
lock_integration = refl

lock_one : lock_path paths (Value.text "one") ≡ ok ("runtime" ∷ "locks" ∷ "one.lock" ∷ [])
unfolding lock_path valid_name is_valid_name matches_name all_name_codes is_name_code
    is_alphanumeric ◌>>=◌
lock_one = refl

abbrev pub mount : String → String → Bool → ExecutionMount
mount target role read_only = record {
  source = "/srv/demo";
  target = target;
  read_only = read_only;
  role = role;
}

-- A read-only plan whose metadata is mounted twice in the same way.
abbrev pub plan : ExecutionPlan
plan = record {
  agent_id = "codex";
  image = "localhost/codex:latest";
  argv = "codex" ∷ "exec" ∷ [];
  environment = ("HOME", "/home/agent") ∷ [];
  workspace_mount = mount "/workspace" "workspace" true;
  reference_mounts = mount "/reference" "reference" true ∷ [];
  task_metadata_mount = mount "/task" "task-metadata" true;
  provider_state_mounts = mount "/state" "provider-state" false ∷ [];
  provider_policy_artifacts = record { mounts = []; argv = []; environment = [] };
  resource_limits = record { pids = ℤ.pos 512; memory = "8g"; cpus = Value.int (ℤ.pos 4) };
  network = record { mode = "pasta"; http_proxy = false };
  readonly = true;
  interaction_mode = "interactive";
  runtime_isolation = record { uid = none; gid = none; nested_sandbox_bootstrap = false };
  security_class = some "compatibility";
  required_capabilities = "network_deny" ∷ [];
  auxiliary_mounts = mount "/task" "task-metadata" true ∷ [];
  working_directory = "/workspace";
}

plan_ok : check_plan plan ≡ ok tt
unfolding check_plan require_text is_line has_code require_container_path is_absolute has_parent
    require_texts require_argv require_environment require_entries mount_eq all_have_role all_mounts
    mount_at agrees require_targets require_class ◌>>=◌
plan_ok = refl

check_plan-IsConsistent_example : IsConsistent plan
check_plan-IsConsistent_example = check_plan-IsConsistent plan plan_ok

depends : (validate_dependencies {H = host} paths "c0ffee" ("base" ∷ []) merged_file).0 ≡ ok tt
unfolding validate_dependencies validate_dependency require_ancestor read_dependency required_commit
    recorded lift gets pure require git_unchecked ◌>=>◌ find_file valid_name is_valid_name
    matches_name all_name_codes is_name_code is_alphanumeric
depends = refl

validate_dependencies-IsIntegrated_example :
    All (IsIntegrated host paths.agent "c0ffee" merged_file.files) ("base" ∷ [])
validate_dependencies-IsIntegrated_example =
    validate_dependencies-IsIntegrated paths "c0ffee" ("base" ∷ []) merged_file depends

-- A completed task is completed again.
raises :
    (task_op {H = host} TaskOp.complete ("srv" ∷ []) (request "integration") one_file).0
    ≡ err (input_error "task status must be active")
unfolding task_op op_task_complete get lookup valid_name is_valid_name matches_name all_name_codes
    is_name_code is_alphanumeric load_task file_system resolve_project_paths resolve_project_root
    canonical_dir canonical_file ensure_under resolve_strict is_under find_file read_record
    check_loaded workspace_of workspace_root_of validate_task_completion from_project_root ◌>>=◌
    ◌>=>◌ lift gets pure
raises = refl

task_op_raises_example :
    (task_op {H = host} TaskOp.complete ("srv" ∷ []) (request "integration") one_file).1.files
    ≡ one_file.files
task_op_raises_example =
    task_op_raises TaskOp.complete ("srv" ∷ []) (request "integration") one_file
      (input_error "task status must be active") raises
