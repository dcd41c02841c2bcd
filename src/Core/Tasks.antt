-- ===== src/Core/Tasks.antt =====
-- core/tasks.py: loading, starting, completing, merging and aborting a task.
pub mod Steps
pub mod Lifecycle
use codex_cursor_devstack.Base.{
  ◌==◌, ◌≡◌, String, ◌<>◌, Bool, true, false, not, ◌||◌, ◌&&◌, Option, none, some, List, [], ◌∷◌,
  str_eq, is_empty, if◌then◌else◌, Result, ok, err, value_error, input_error, failure,
}
use codex_cursor_devstack.Base
use codex_cursor_devstack.Base.Value.{ℤ, Float, Value, Items, Fields}
use codex_cursor_devstack.Core.Names.{valid_name}
use codex_cursor_devstack.Core.Paths.{FilePath, FileSystem, child, canonical_dir, canonical_file}
use codex_cursor_devstack.Core.Records.{
  TaskRecord, TaskFiles, find_file, file_name, task_records, active_sequential, pending_parallel,
}
use codex_cursor_devstack.Core.Host.{
  Host, State, Completed, Exec, pure, raise, lift, gets, ◌>>=◌, ◌>>◌, require, git, git_unchecked,
  now_iso, write_json,
}
use codex_cursor_devstack.Core.Projects.{ProjectPaths, resolve_project_paths}
use codex_cursor_devstack.Core.Dependencies.{normalize_dependencies, validate_dependencies}
use codex_cursor_devstack.Core.Worktrees.{
  integration_branch, ensure_clean, run_git, create_parallel_worktree, merge_parallel_worktree,
  abort_parallel_worktree,
}

unfoldable pub read_record : Option (Option TaskRecord) → Result TaskRecord
read_record (some (some r)) = ok r
read_record _ = err (value_error "cannot read task metadata")

abbrev pub runs_in_agent : TaskRecord → Bool
runs_in_agent r = str_eq r.mode "integration" || str_eq r.status "merged"

-- The tests of `load_task` between the read and the workspace.
unfoldable pub check_loaded : String → String → TaskRecord → Result (Unit {0})
check_loaded project task r =
    if not (str_eq r.project project) || not (str_eq r.task task)
    then err (value_error "task metadata identity mismatch")
    else if not (str_eq r.mode "integration" || str_eq r.mode "parallel")
    then err (value_error "unsupported task mode")
    else if str_eq r.status "aborted"
    then err (input_error "task is aborted")
    else ok tt

-- The workspace of a task, and the root that must contain it.
unfoldable pub workspace_of : ProjectPaths → TaskRecord → String → FilePath
workspace_of pp r task = if runs_in_agent r then pp.agent else child pp.worktrees task

unfoldable pub workspace_root_of : ProjectPaths → TaskRecord → FilePath
workspace_root_of pp r =
    if str_eq r.mode "parallel" && not (str_eq r.status "merged") then pp.worktrees else pp.root

pub record Loaded : Type 0 where
  pub rec : TaskRecord
  pub paths : ProjectPaths
  pub workspace : FilePath

abbrev active_message : Bool → String
active_message true = "cannot start a parallel task while an integration task is active"
active_message false = "another integration task is already active"

-- The tests of `start_task_locked` on the other tasks, by mode.
unfoldable pub may_start : Bool → TaskFiles → Result (Unit {0})
may_start parallel files =
    if not (is_empty (active_sequential (task_records files)))
    then err (input_error (active_message parallel))
    else if not parallel && not (is_empty (pending_parallel (task_records files)))
    then err (input_error "parallel tasks must be merged/aborted before sequential work continues")
    else ok tt

-- The metadata of a new task.
abbrev pub started :
    String → String → List String → String → String → (String × String × FilePath) → TaskRecord
started project task dependencies base now place = record {
  project = project;
  task = task;
  mode = place.0;
  branch = place.1;
  base_commit = base;
  head_commit = none;
  merge_commit = none;
  status = "active";
  dependencies = dependencies;
  started_at = now;
  completed_at = none;
  merged_at = none;
  aborted_at = none;
  workspace = place.2;
}

unfoldable pub validate_task_completion : TaskRecord → Result (Unit {0})
validate_task_completion r =
    if not (str_eq r.status "active") then err (input_error "task status must be active") else ok tt

unfoldable pub validate_task_merge : TaskRecord → Result (Unit {0})
validate_task_merge r =
    if not (str_eq r.mode "parallel") || not (str_eq r.status "completed")
    then err (input_error "task-merge requires a completed parallel task")
    else ok tt

unfoldable pub validate_task_abort : TaskRecord → Result (Unit {0})
validate_task_abort r =
    if not (str_eq r.mode "parallel")
      || not (str_eq r.status "active" || str_eq r.status "completed")
    then err (input_error "only active/completed parallel tasks can be aborted")
    else ok tt

-- `bool(value)`
unfoldable pub truth : Value → Bool
truth Value.null = false
truth (Value.boolean b) = b
truth (Value.int (ℤ.pos n)) = not (n == 0)
truth (Value.int (ℤ.negsuc n)) = true
truth (Value.float (Float.finite negative n k)) = not (n == 0)
truth (Value.float _) = true
truth (Value.text s) = not (str_eq s "")
truth (Value.list Items.nil) = false
truth (Value.list (Items.cons v rest)) = true
truth (Value.object Fields.end) = false
truth (Value.object (Fields.entry k v rest)) = true

unfoldable pub prepare_task_start_request :
    Value → Value → Value → Result (String × Bool × List String)
unfolding truth
prepare_task_start_request task_name parallel dependencies_raw =
    Base.◌>>=◌ (valid_name task_name "task") λ task.
      Base.◌>>=◌ (normalize_dependencies task dependencies_raw)
        λ dependencies. ok (task, truth parallel, dependencies)

-- No file has the name of the new task, whether it can be read or not.
unfoldable pub is_free : Option (Option TaskRecord) → Bool
is_free none = true
is_free (some r) = false

module _ {H : Host} where
  unfoldable pub file_system : Exec H FileSystem
  file_system = gets (λ (s : State H). H.file_system s.world)

  unfoldable pub load_task : FilePath → String → Value → Exec H Loaded
  load_task platform_root project task_name = do
    task ← lift (valid_name task_name "task")
    fs ← file_system
    pp ← lift (resolve_project_paths fs platform_root (Value.text project))
    _meta ← lift (canonical_file fs (child pp.tasks (file_name task)) pp.tasks "task metadata")
    found ← gets (λ (s : State H). find_file (file_name task) s.files)
    r ← lift (read_record found)
    lift (check_loaded project task r)
    workspace ←
        lift (canonical_dir fs (workspace_of pp r task) (workspace_root_of pp r) "task workspace")
    pure (record { rec = r; paths = pp; workspace = workspace })

  -- `ensure_git_repo` of core/git_handoff.py
  unfoldable pub ensure_git_repo : FilePath → String → Exec H (Unit {0})
  ensure_git_repo repo label = do
    fs ← file_system
    require (fs.is_dir repo && fs.exists (child repo ".git"))
        (value_error (label <> " is not a Git checkout"))

  unfoldable pub prepare_task_start_target : ProjectPaths → String → Exec H (Unit {0})
  prepare_task_start_target pp task_name = do
    ensure_git_repo pp.agent "repo/agent"
    task ← lift (valid_name (Value.text task_name) "task")
    found ← gets (λ (s : State H). find_file (file_name task) s.files)
    require (is_free found) (input_error "task metadata already exists")

  -- Mode, branch and workspace of the new task.
  unfoldable pub prepare_workspace :
      ProjectPaths → String → Bool → Exec H (String × String × FilePath)
  prepare_workspace pp task true = do
    created ← create_parallel_worktree pp task
    pure ("parallel", created.0, created.1)
  prepare_workspace pp task false = pure ("integration", integration_branch, pp.agent)

  unfoldable pub start_task_locked :
      ProjectPaths → String → String → Bool → List String → Exec H TaskRecord
  start_task_locked pp project task parallel dependencies = do
    ensure_clean pp.agent "repo/agent"
    run_git pp.agent ("switch" ∷ integration_branch ∷ [])
    base ← git pp.agent ("rev-parse" ∷ "HEAD" ∷ [])
    validate_dependencies pp base dependencies
    files ← gets (λ (s : State H). s.files)
    lift (may_start parallel files)
    place ← prepare_workspace pp task parallel
    now ← now_iso
    write_json (file_name task) (started project task dependencies base now place)
    pure (started project task dependencies base now place)

  unfoldable pub complete_task_locked : String → TaskRecord → FilePath → Exec H TaskRecord
  complete_task_locked task r workspace = do
    ensure_clean workspace "task workspace"
    branch ← git workspace ("branch" ∷ "--show-current" ∷ [])
    require (str_eq branch r.branch) (input_error "task workspace branch mismatch")
    head ← git workspace ("rev-parse" ∷ "HEAD" ∷ [])
    now ← now_iso
    let done = record r { head_commit = some head; status = "completed"; completed_at = some now }
    write_json (file_name task) done
    pure done

  unfoldable pub merge_task_locked :
      ProjectPaths → String → TaskRecord → FilePath → Exec H TaskRecord
  merge_task_locked pp task r workspace = do
    merge_commit ← merge_parallel_worktree pp r workspace
    now ← now_iso
    let merged = record r {
      status = "merged";
      merged_at = some now;
      merge_commit = some merge_commit;
      workspace = pp.agent;
    }
    write_json (file_name task) merged
    pure merged

  unfoldable pub abort_task_locked :
      ProjectPaths → String → TaskRecord → FilePath → Exec H TaskRecord
  abort_task_locked pp task r workspace = do
    abort_parallel_worktree pp r workspace
    now ← now_iso
    let aborted = record r { status = "aborted"; aborted_at = some now }
    write_json (file_name task) aborted
    pure aborted
