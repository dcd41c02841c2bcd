-- ===== src/Broker/ProjectOps.antt =====
-- broker/daemon.py: the project operations. Within one request a shared lock is taken like an exclusive
-- one.
pub mod Guarded
use codex_cursor_devstack.Base.{
  ◌≡◌, String, Bool, true, false, not, ◌&&◌, ◌||◌, Option, none, some, List, [], ◌∷◌, is_empty,
  if◌then◌else◌, Result, ok, err, input_error,
}
use codex_cursor_devstack.Base.Value.{Value, Fields}
use codex_cursor_devstack.Core.Names.{valid_name}
use codex_cursor_devstack.Core.Paths.{FilePath}
use codex_cursor_devstack.Core.Records.{
  TaskRecord, task_records, active_sequential, pending_parallel,
}
use codex_cursor_devstack.Core.Host.{
  Host, State, Exec, pure, raise, lift, gets, ◌>>=◌, ◌>>◌, require,
}
use codex_cursor_devstack.Core.Projects.{ProjectPaths, resolve_project_paths}
use codex_cursor_devstack.Core.Locking.{integration_lock}
use codex_cursor_devstack.Core.Tasks.{file_system, ensure_git_repo}
use codex_cursor_devstack.Core.Handoff.{Disk, call, RepositoryStatus}
use codex_cursor_devstack.Core.Exchange.{
  Integrated, Exported, initialize_agent_project, synchronize_agent_project, export_agent_project,
  project_git_status,
}
use codex_cursor_devstack.Broker.TaskOps.{TaskOp, get, with_locks, task_op, op_task_list}

-- What `op_project_status` returns.
pub record ProjectStatus : Type 0 where
  pub project : String
  pub repository : RepositoryStatus
  pub tasks : List TaskRecord

-- `active_sequential(records) or pending_parallel(records)`
abbrev pub is_busy : List TaskRecord → Bool
is_busy records =
    not (is_empty (active_sequential records)) || not (is_empty (pending_parallel records))

module _ {H : Host} (disk : Disk H) (root : FilePath) where
  unfoldable pub op_project_init : Fields → Exec H Integrated
  op_project_init req =
      initialize_agent_project disk root (get "project" Value.null req)
        (get "bundle" Value.null req)

  unfoldable pub op_project_sync : Fields → Exec H Integrated
  op_project_sync req = do
    project ← lift (valid_name (get "project" Value.null req) "project")
    bundle_name ← lift (valid_name (get "bundle" Value.null req) "bundle")
    fs ← file_system
    pp ← lift (resolve_project_paths fs root (Value.text project))
    ensure_git_repo pp.agent "repo/agent"
    records ← gets (λ (s : State H). task_records s.files)
    require (not (is_busy records))
        (input_error "cannot sync while tasks are active or parallel tasks await merge")
    with_locks pp [] (integration_lock ∷ [])
        (synchronize_agent_project disk root (Value.text project) (Value.text bundle_name))

  unfoldable pub op_project_export : Fields → Exec H Exported
  op_project_export req = do
    project ← lift (valid_name (get "project" Value.null req) "project")
    fs ← file_system
    pp ← lift (resolve_project_paths fs root (Value.text project))
    ensure_git_repo pp.agent "repo/agent"
    result ←
        with_locks pp [] (integration_lock ∷ [])
          (export_agent_project disk root (Value.text project))
    call (disk.setfacl result.bundle)
    pure result

  unfoldable pub op_project_status : Fields → Exec H ProjectStatus
  op_project_status req = do
    project ← lift (valid_name (get "project" Value.null req) "project")
    fs ← file_system
    pp ← lift (resolve_project_paths fs root (Value.text project))
    with_locks pp [] (integration_lock ∷ []) (do
      status ← project_git_status pp.agent
      tasks ← gets (λ (s : State H). task_records s.files)
      pure (record { project = project; repository = status; tasks = tasks }))
