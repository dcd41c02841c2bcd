-- ===== src/Broker/TaskOps/Exclusion.antt =====
-- The task operations keep tasks exclusive, whether they return or raise.
use codex_cursor_devstack.Base.{
  ok-injective, ◌≡◌, refl, ap, ◌∙◌, String, Bool, true, false, Option, none, some, List, [], ◌∷◌,
  Error, Result, ok, err, arith, eq_iff, str_eq, sym,
}
use mathlib.Core.Path.{subst}
use codex_cursor_devstack.Base.Value.{Value, Fields}
use codex_cursor_devstack.Core.Names.{valid_name-eq-ok}
use codex_cursor_devstack.Core.Paths.{FilePath}
use codex_cursor_devstack.Core.Records.{
  TaskRecord, TaskFiles, find_file, file_name, is_active_sequential, is_pending_parallel,
}
use codex_cursor_devstack.Core.Host.{Host, State, Exec, require}
use codex_cursor_devstack.Core.Host.Effects.{
  Leaves-require, Writes, Writes-after, Writes-lift, Writes-then, Writes-gets, Writes-pure,
  Writes-mono, leaves_rules,
}
use codex_cursor_devstack.Core.Projects.{ProjectPaths}
use codex_cursor_devstack.Core.Tasks.{
  file_system, load_task, read_record, prepare_task_start_target, ensure_git_repo, is_free,
  validate_task_completion,
}
use codex_cursor_devstack.Core.Tasks.Lifecycle.{
  Exclusive, start_task_locked-Writes, complete_task_locked-Writes, merge_task_locked-Writes,
  abort_task_locked-Writes, Started-Exclusive, Changed-Exclusive,
}
use codex_cursor_devstack.Broker.TaskOps.{
  TaskOp, task_op, serve, with_locks, op_task_start, op_task_complete, op_task_merge, op_task_abort,
}

read_record-eq-ok :
    (found : Option (Option TaskRecord)) (r : TaskRecord)
    → read_record found ≡ ok r
    → found ≡ some (some r)
unfolding read_record
read_record-eq-ok (some (some old)) r h = ap (λ x. some (some x)) (ok-injective old r h)
read_record-eq-ok (some none) r h = cc
read_record-eq-ok none r h = cc

is_free-eq-true : (found : Option (Option TaskRecord)) → is_free found ≡ true → found ≡ none
unfolding is_free
is_free-eq-true none h = refl
is_free-eq-true (some r) h = cc

not_active :
    (r : TaskRecord) (status : String)
    → r.status ≡ status
    → str_eq status "active" ≡ false
    → is_active_sequential r ≡ false
unfolding is_active_sequential
not_active r status h k = rw (h, k) (ground arith)

ended_not_pending :
    (r : TaskRecord) (status : String)
    → r.status ≡ status
    → str_eq status "active" ≡ false
    → str_eq status "completed" ≡ false
    → is_pending_parallel r ≡ false
unfolding is_pending_parallel
ended_not_pending r status h k l = rw (h, k, l) (ground arith)

not_pending :
    (r old : TaskRecord) (status : String)
    → r.status ≡ status
    → str_eq status "active" ≡ false
    → str_eq status "completed" ≡ false
    → is_pending_parallel r ≡ true
    → is_pending_parallel old ≡ true
not_pending r old status h k l pending =
    let ended : is_pending_parallel r ≡ false = ended_not_pending r status h k l in cc

was_pending :
    (r old : TaskRecord)
    → r.mode ≡ old.mode
    → validate_task_completion old ≡ ok tt
    → is_pending_parallel r ≡ true
    → is_pending_parallel old ≡ true
unfolding is_pending_parallel validate_task_completion
was_pending r old same allowed pending =
    ground (arith, eq_iff r.mode "parallel", eq_iff old.mode "parallel")

module _ {H : Host} (before : TaskFiles) where
  -- The record that is loaded is the one the task's file holds.
  load_task-Writes :
      (root : FilePath) (project task : String)
      → Writes {H = H} before
          (λ l after. (after ≡ before) × (find_file (file_name task) before ≡ some (some l.rec)))
          (load_task root project (Value.text task))
  unfolding load_task file_system
  load_task-Writes root project task = Writes-lift _ _ _ _ λ name named.
      Writes-after _ _ _ _ (search leaves_rules) λ fs. Writes-lift _ _ _ _ λ pp _.
        Writes-lift _ _ _ _ λ meta _.
          Writes-gets _ _ (λ files. find_file (file_name name) files) _
            (Writes-lift _ _ _ _ λ r found. Writes-lift _ _ _ _ λ _ _. Writes-lift _ _ _ _ λ w _.
              Writes-pure _ _ _ (
                refl,
                ap (λ t. find_file (file_name t) before)
                      (valid_name-eq-ok (Value.text task) _ name named)
                    ∙ read_record-eq-ok _ r found,
              ))

  with_locks-Writes :
      {A : Type 0} (Q : A → TaskFiles → Type 0) (pp : ProjectPaths) (held : List FilePath)
      (names : List String) (body : Exec H A)
      → Writes before Q body
      → Writes before Q (with_locks pp held names body)
  unfolding with_locks
  with_locks-Writes Q pp held [] body h = h
  with_locks-Writes Q pp held (name ∷ names) body h = Writes-lift _ _ _ _ λ path _.
      Writes-after _ _ _ _ (Leaves-require _ _)
        λ _. with_locks-Writes Q pp (path ∷ held) names body h

  require-Writes :
      (P : Type 0) (b : Bool) (e : Error)
      → (b ≡ true → P)
      → Writes {H = H} before (λ _ after. (after ≡ before) × P) (require b e)
  unfolding require
  require-Writes P true e h = record {
    done = λ s a same k. (same, h refl);
    fails = λ s x same k. same;
  }
  require-Writes P false e h = record { done = λ s a same k. cc; fails = λ s x same k. same }

  prepare_task_start_target-Writes :
      (pp : ProjectPaths) (task : String)
      → Writes {H = H} before
          (λ _ after. (after ≡ before) × (find_file (file_name task) before ≡ none))
          (prepare_task_start_target pp task)
  unfolding prepare_task_start_target ensure_git_repo file_system
  prepare_task_start_target-Writes pp task = Writes-after _ _ _ _ (search leaves_rules depth 8) λ _.
      Writes-lift _ _ _ _ λ name named.
        Writes-gets _ _ (λ files. find_file (file_name name) files) _
          (require-Writes _ _ _ λ free.
            ap (λ t. find_file (file_name t) before)
              (valid_name-eq-ok (Value.text task) _ name named)
            ∙ is_free-eq-true _ free)

  -- A call keeps tasks exclusive.
  abbrev Keeps : {A : Type 0} → Exec H A → Type 0
  Keeps m = Writes before (λ _ after. Exclusive before → Exclusive after) m

  op_task_start-Keeps : (root : FilePath) (req : Fields) → Keeps (op_task_start root req)
  unfolding op_task_start file_system
  op_task_start-Keeps root req = Writes-lift _ _ _ _ λ project _. Writes-lift _ _ _ _ λ request _.
      Writes-after _ _ _ _ (search leaves_rules) λ fs. Writes-lift _ _ _ _ λ pp _.
        Writes-then _ _ (λ _. find_file (file_name request.0) before ≡ none) _ _
          (prepare_task_start_target-Writes pp request.0)
          λ _ fresh. with_locks-Writes _ pp [] _ _ (
            Writes-mono _ _ _ _
              (start_task_locked-Writes before pp project request.0 request.1 request.2)
              λ r after st ex. Started-Exclusive request.0 before after r request.1 fresh st)

  op_task_complete-Keeps : (root : FilePath) (req : Fields) → Keeps (op_task_complete root req)
  unfolding op_task_complete
  op_task_complete-Keeps root req = Writes-lift _ _ _ _ λ project _. Writes-lift _ _ _ _ λ task _.
      Writes-then _ _ (λ l. find_file (file_name task) before ≡ some (some l.rec)) _ _
        (load_task-Writes root project task)
        λ l there. Writes-lift _ _ _ _ λ _ allowed. Writes-lift _ _ _ _ λ name _.
          with_locks-Writes _ _ [] _ _ (
            Writes-mono _ _ _ _ (complete_task_locked-Writes before task l.rec l.workspace)
              λ r after ch.
                Changed-Exclusive task before after r "completed" l.rec there
                  (not_active r "completed" ch.status_set refl)
                  (was_pending r l.rec ch.mode allowed) ch)

  op_task_merge-Keeps : (root : FilePath) (req : Fields) → Keeps (op_task_merge root req)
  unfolding op_task_merge
  op_task_merge-Keeps root req = Writes-lift _ _ _ _ λ project _. Writes-lift _ _ _ _ λ task _.
      Writes-then _ _ (λ l. find_file (file_name task) before ≡ some (some l.rec)) _ _
        (load_task-Writes root project task)
        λ l there. Writes-lift _ _ _ _ λ _ allowed. with_locks-Writes _ _ [] _ _ (
          Writes-mono _ _ _ _ (merge_task_locked-Writes before l.paths task l.rec l.workspace)
            λ r after ch.
              Changed-Exclusive task before after r "merged" l.rec there
                (not_active r "merged" ch.status_set refl)
                (not_pending r l.rec "merged" ch.status_set refl refl) ch)

  op_task_abort-Keeps : (root : FilePath) (req : Fields) → Keeps (op_task_abort root req)
  unfolding op_task_abort
  op_task_abort-Keeps root req = Writes-lift _ _ _ _ λ project _. Writes-lift _ _ _ _ λ task _.
      Writes-then _ _ (λ l. find_file (file_name task) before ≡ some (some l.rec)) _ _
        (load_task-Writes root project task)
        λ l there. Writes-lift _ _ _ _ λ _ allowed. with_locks-Writes _ _ [] _ _ (
          Writes-mono _ _ _ _ (abort_task_locked-Writes before l.paths task l.rec l.workspace)
            λ r after ch.
              Changed-Exclusive task before after r "aborted" l.rec there
                (not_active r "aborted" ch.status_set refl)
                (not_pending r l.rec "aborted" ch.status_set refl refl) ch)

kept :
    {A : Type 0} {H : Host} (before : TaskFiles) (r : Result A) (s : State H)
    → ((a : A) → r ≡ ok a → Exclusive before → Exclusive s.files)
    → ((e : Error) → r ≡ err e → s.files ≡ before)
    → Exclusive before
    → Exclusive s.files
kept before (ok a) s h k ex = h a refl ex
kept before (err e) s h k ex = subst Exclusive (sym (k e refl)) ex

module _ {H : Host} where
  task_op-Keeps :
      (before : TaskFiles) (op : TaskOp) (root : FilePath) (req : Fields)
      → Keeps {H = H} before (task_op op root req)
  unfolding task_op
  task_op-Keeps before TaskOp.start root req = op_task_start-Keeps before root req
  task_op-Keeps before TaskOp.complete root req = op_task_complete-Keeps before root req
  task_op-Keeps before TaskOp.merge root req = op_task_merge-Keeps before root req
  task_op-Keeps before TaskOp.abort root req = op_task_abort-Keeps before root req

  -- A task operation that raises, wherever it does, leaves the task files as they were.
  pub task_op_raises :
      (op : TaskOp) (root : FilePath) (req : Fields) (s : State H) (e : Error)
      → (task_op op root req s).0 ≡ err e
      → (task_op op root req s).1.files ≡ s.files
  task_op_raises op root req s e h = (task_op-Keeps s.files op root req).fails s e refl h

  -- A task operation that starts from exclusive task files leaves exclusive task files, whatever the
  -- request holds, whatever Git does, and whether it returns or raises.
  pub task_op-Exclusive :
      (op : TaskOp) (root : FilePath) (req : Fields) (s : State H)
      → Exclusive s.files
      → Exclusive (task_op op root req s).1.files
  task_op-Exclusive op root req s =
      let k = task_op-Keeps s.files op root req in
      kept s.files (task_op op root req s).0 (task_op op root req s).1 (λ a. k.done s a refl)
        (λ e. k.fails s e refl)

  -- Any sequence of task operations that starts from exclusive task files leaves exclusive task
  -- files.
  pub serve-Exclusive :
      (root : FilePath) (requests : List (TaskOp × Fields)) (s : State H)
      → Exclusive s.files
      → Exclusive (serve root requests s).files
  unfolding serve
  serve-Exclusive root [] s ex = ex
  serve-Exclusive root ((op, req) ∷ requests) s ex =
      serve-Exclusive root requests (task_op op root req s).1 (task_op-Exclusive op root req s ex)
