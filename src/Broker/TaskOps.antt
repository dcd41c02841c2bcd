-- ===== src/Broker/TaskOps.antt =====
-- broker/daemon.py: the task operations. The locks of core/locking.py are taken in order; a lock that
-- the same request holds already blocks it for good, which is the error `blocked`.
pub mod Exclusion
pub mod Locks
use codex_cursor_devstack.Base.{
  ◌≡◌, String, Bool, true, false, not, ◌&&◌, ◌||◌, Option, none, some, List, [], ◌∷◌, str_eq,
  if◌then◌else◌, Error, Result, ok, err, failure,
}
use codex_cursor_devstack.Base.Value.{Value, Items, Fields, lookup}
use codex_cursor_devstack.Core.Names.{valid_name}
use codex_cursor_devstack.Core.Paths.{FilePath}
use codex_cursor_devstack.Core.Records.{TaskRecord, task_records}
use codex_cursor_devstack.Core.Host.{
  Host, State, Exec, pure, raise, lift, gets, ◌>>=◌, ◌>>◌, require,
}
use codex_cursor_devstack.Core.Projects.{ProjectPaths, resolve_project_paths}
use codex_cursor_devstack.Core.Locking.{integration_lock, lock_path, task_lock_name}
use codex_cursor_devstack.Core.Tasks.{
  Loaded, file_system, load_task, prepare_task_start_request, prepare_task_start_target,
  start_task_locked, complete_task_locked, merge_task_locked, abort_task_locked,
  validate_task_completion, validate_task_merge, validate_task_abort,
}

-- `req.get(field, default)`
unfoldable pub get : String → Value → Fields → Value
get field default req = elim (lookup field req) [ none ↦ default | some v ↦ v ]

unfoldable pub path_eq : FilePath → FilePath → Bool
path_eq [] [] = true
path_eq (p ∷ ps) (q ∷ qs) = str_eq p q && path_eq ps qs
path_eq _ _ = false

unfoldable pub is_held : List FilePath → FilePath → Bool
unfolding path_eq
is_held [] path = false
is_held (p ∷ ps) path = path_eq p path || is_held ps path

abbrev pub blocked : Error
blocked = failure "waits for a lock that it holds"

-- The entries of `result_ops` that change task files.
pub data TaskOp : Type 0 where
  start : TaskOp
  complete : TaskOp
  merge : TaskOp
  abort : TaskOp

module _ {H : Host} where
  -- Nested `with lock_one(pp, name, False):` for each of the names.
  unfoldable pub with_locks :
      {A : Type 0} → ProjectPaths → List FilePath → List String → Exec H A → Exec H A
  with_locks pp held [] body = body
  with_locks pp held (name ∷ names) body = do
    path ← lift (lock_path pp (Value.text name))
    require (not (is_held held path)) blocked
    with_locks pp (path ∷ held) names body

  unfoldable pub op_task_start : FilePath → Fields → Exec H TaskRecord
  op_task_start root req = do
    project ← lift (valid_name (get "project" Value.null req) "project")
    request ← lift (
        prepare_task_start_request (get "task" Value.null req)
          (get "parallel" (Value.boolean false) req)
          (get "dependencies" (Value.list Items.nil) req))
    fs ← file_system
    pp ← lift (resolve_project_paths fs root (Value.text project))
    prepare_task_start_target pp request.0
    with_locks pp [] (integration_lock ∷ [])
        (start_task_locked pp project request.0 request.1 request.2)

  unfoldable pub op_task_complete : FilePath → Fields → Exec H TaskRecord
  op_task_complete root req = do
    project ← lift (valid_name (get "project" Value.null req) "project")
    task ← lift (valid_name (get "task" Value.null req) "task")
    loaded ← load_task root project (Value.text task)
    lift (validate_task_completion loaded.rec)
    lock_name ← lift (task_lock_name (Value.text task) loaded.rec)
    with_locks loaded.paths [] (lock_name ∷ [])
        (complete_task_locked task loaded.rec loaded.workspace)

  unfoldable pub op_task_merge : FilePath → Fields → Exec H TaskRecord
  op_task_merge root req = do
    project ← lift (valid_name (get "project" Value.null req) "project")
    task ← lift (valid_name (get "task" Value.null req) "task")
    loaded ← load_task root project (Value.text task)
    lift (validate_task_merge loaded.rec)
    with_locks loaded.paths [] (integration_lock ∷ task ∷ [])
        (merge_task_locked loaded.paths task loaded.rec loaded.workspace)

  unfoldable pub op_task_abort : FilePath → Fields → Exec H TaskRecord
  op_task_abort root req = do
    project ← lift (valid_name (get "project" Value.null req) "project")
    task ← lift (valid_name (get "task" Value.null req) "task")
    loaded ← load_task root project (Value.text task)
    lift (validate_task_abort loaded.rec)
    with_locks loaded.paths [] (integration_lock ∷ task ∷ [])
        (abort_task_locked loaded.paths task loaded.rec loaded.workspace)

  -- A request for one of these operations, and the state that it leaves.
  unfoldable pub task_op : TaskOp → FilePath → Fields → Exec H TaskRecord
  task_op TaskOp.start = op_task_start
  task_op TaskOp.complete = op_task_complete
  task_op TaskOp.merge = op_task_merge
  task_op TaskOp.abort = op_task_abort

  -- Requests for the project of the state, served one after the other, each with the state that the
  -- last one left.
  unfoldable pub serve : FilePath → List (TaskOp × Fields) → State H → State H
  serve root [] s = s
  serve root ((op, req) ∷ requests) s = serve root requests (task_op op root req s).1

  unfoldable pub op_task_list : FilePath → Fields → Exec H (List TaskRecord)
  op_task_list root req = do
    project ← lift (valid_name (get "project" Value.null req) "project")
    fs ← file_system
    _pp ← lift (resolve_project_paths fs root (Value.text project))
    gets (λ (s : State H). task_records s.files)
