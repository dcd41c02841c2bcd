-- ===== src/Core/Tasks/Lifecycle.antt =====
-- The life of a task: what each operation writes, and that tasks exclude one another.
use codex_cursor_devstack.Base.{
  ◌+◌, ◌≤◌, ◌<◌, ◌≡◌, refl, ap, String, Bool, true, false, not, ◌&&◌, none, some, List, [], ◌∷◌,
  is_empty, if◌then◌else◌, Error, Result, ok, err, arith,
}
use codex_cursor_devstack.Core.Paths.{FilePath}
use codex_cursor_devstack.Core.Records.{
  TaskRecord, TaskFiles, find_file, file_name, put_file, task_records, active_sequential,
  pending_parallel, is_active_sequential, is_pending_parallel, count, weight, one_if, count_of_none,
  count-put_file,
}
use codex_cursor_devstack.Core.Host.{Host, State, pure, continue, ◌>>=◌}
use codex_cursor_devstack.Core.Host.Effects.{
  Leaves-now_iso, Returns, Writes, Writes-bind, Writes-after, Writes-lift, Writes-files,
  Writes-json, leaves_rules,
}
use codex_cursor_devstack.Core.Projects.{ProjectPaths}
use codex_cursor_devstack.Core.Dependencies.Integrated.{validate_dependencies-Leaves}
use codex_cursor_devstack.Core.Worktrees.{create_parallel_worktree}
use codex_cursor_devstack.Core.Tasks.{
  may_start, prepare_workspace, start_task_locked, complete_task_locked, merge_task_locked,
  abort_task_locked,
}
use codex_cursor_devstack.Core.Tasks.Steps.{
  ensure_clean-Leaves, run_git-Leaves, prepare_workspace-Leaves, merge_parallel_worktree-Leaves,
  abort_parallel_worktree-Leaves,
}

abbrev pub mode_name : Bool → String
mode_name true = "parallel"
mode_name false = "integration"

-- `r` is what a start writes, over task files that let it start.
pub record Started (parallel : Bool) (task : String) (before : TaskFiles) (r : TaskRecord)
    (after : TaskFiles) : Type 0 where
  pub allowed : may_start parallel before ≡ ok tt
  pub mode : r.mode ≡ mode_name parallel
  pub status : r.status ≡ "active"
  pub written : after ≡ put_file (file_name task) r before

-- `r` is `old` with a new status, and is what is written.
pub record Changed (status : String) (task : String) (before : TaskFiles) (old r : TaskRecord)
    (after : TaskFiles) : Type 0 where
  pub mode : r.mode ≡ old.mode
  pub status_set : r.status ≡ status
  pub written : after ≡ put_file (file_name task) r before

module _ {H : Host} (before : TaskFiles) where
  continue-mode :
      (r : Result (String × FilePath)) (s : State H) (a : String × String × FilePath)
      → (continue
          (λ (created : String × FilePath). pure ("parallel", created.0, created.1))
          (r, s)).0
        ≡ ok a
      → a.0 ≡ "parallel"
  unfolding pure
  continue-mode (ok c) s a h = ground arith
  continue-mode (err e) s a h = cc

  prepare_workspace-mode :
      (pp : ProjectPaths) (task : String) (parallel : Bool)
      → Returns {H = H} (λ place. place.0 ≡ mode_name parallel) (prepare_workspace pp task parallel)
  unfolding prepare_workspace pure ◌>>=◌
  prepare_workspace-mode pp task true = record {
    at = λ s a h.
        continue-mode (create_parallel_worktree pp task s).0 (create_parallel_worktree pp task s).1
          a h;
  }
  prepare_workspace-mode pp task false = record { at = λ s a h. ground arith }

  pub start_task_locked-Writes :
      (pp : ProjectPaths) (project task : String) (parallel : Bool) (ds : List String)
      → Writes {H = H} before
          (Started parallel task before)
          (start_task_locked pp project task parallel ds)
  unfolding start_task_locked
  start_task_locked-Writes pp project task parallel ds =
      Writes-after _ _ _ _ (ensure_clean-Leaves _ _) λ _.
        Writes-after _ _ _ _ (run_git-Leaves _ _) λ _.
          Writes-after _ _ _ _ (search leaves_rules) λ base.
            Writes-after _ _ _ _ (validate_dependencies-Leaves pp base ds) λ _. Writes-files _ _ _ (
              Writes-lift _ _ _ _ λ _ allowed.
                Writes-bind _ _ _ _ _ (prepare_workspace-Leaves pp task parallel)
                  (prepare_workspace-mode pp task parallel)
                  λ place mode. Writes-after _ _ _ _ Leaves-now_iso λ now.
                    Writes-json _ _ _ _ _
                      (record { allowed = allowed; mode = mode; status = refl; written = refl }))

  pub complete_task_locked-Writes :
      (task : String) (old : TaskRecord) (w : FilePath)
      → Writes {H = H} before
          (Changed "completed" task before old)
          (complete_task_locked task old w)
  unfolding complete_task_locked
  complete_task_locked-Writes task old w = Writes-after _ _ _ _ (ensure_clean-Leaves _ _) λ _.
      Writes-after _ _ _ _ (search leaves_rules) λ branch.
        Writes-after _ _ _ _ (search leaves_rules) λ _.
          Writes-after _ _ _ _ (search leaves_rules) λ head.
            Writes-after _ _ _ _ Leaves-now_iso λ now.
              Writes-json _ _ _ _ _ (record { mode = refl; status_set = refl; written = refl })

  pub merge_task_locked-Writes :
      (pp : ProjectPaths) (task : String) (old : TaskRecord) (w : FilePath)
      → Writes {H = H} before (Changed "merged" task before old) (merge_task_locked pp task old w)
  unfolding merge_task_locked
  merge_task_locked-Writes pp task old w =
      Writes-after _ _ _ _ (merge_parallel_worktree-Leaves pp old w) λ merge_commit.
        Writes-after _ _ _ _ Leaves-now_iso
          λ now. Writes-json _ _ _ _ _ (record { mode = refl; status_set = refl; written = refl })

  pub abort_task_locked-Writes :
      (pp : ProjectPaths) (task : String) (old : TaskRecord) (w : FilePath)
      → Writes {H = H} before (Changed "aborted" task before old) (abort_task_locked pp task old w)
  unfolding abort_task_locked
  abort_task_locked-Writes pp task old w =
      Writes-after _ _ _ _ (abort_parallel_worktree-Leaves pp old w) λ _.
        Writes-after _ _ _ _ Leaves-now_iso
          λ now. Writes-json _ _ _ _ _ (record { mode = refl; status_set = refl; written = refl })

-- At most one integration task is active, and no parallel task is pending beside it.
pub record Exclusive (fs : TaskFiles) : Type 0 where
  pub at_most_one : count is_active_sequential fs ≤ 1
  pub alone : 0 < count is_active_sequential fs → count is_pending_parallel fs ≡ 0

nil_of_is_empty : (rs : List TaskRecord) → is_empty rs ≡ true → rs ≡ []
nil_of_is_empty [] h = refl
nil_of_is_empty (r ∷ rs) h = cc

both_empty :
    (parallel idle clear : Bool) (e f : Error)
    → (if not idle then err e else if not parallel && not clear then err f else ok (tt {0})) ≡ ok tt
    → (idle ≡ true) × (parallel ≡ false → clear ≡ true)
both_empty parallel idle clear e f h = ground arith

may_start-counts :
    (parallel : Bool) (fs : TaskFiles)
    → may_start parallel fs ≡ ok tt
    → (count is_active_sequential fs ≡ 0) × (parallel ≡ false → count is_pending_parallel fs ≡ 0)
unfolding may_start active_sequential pending_parallel
may_start-counts parallel fs h =
    let seen =
      both_empty parallel (is_empty (active_sequential (task_records fs)))
        (is_empty (pending_parallel (task_records fs))) _ _ h in
    (
      count_of_none is_active_sequential fs (nil_of_is_empty _ seen.0),
      λ sequential. count_of_none is_pending_parallel fs (nil_of_is_empty _ (seen.1 sequential)),
    )

parallel_only : (r : TaskRecord) → r.mode ≡ mode_name true → is_active_sequential r ≡ false
unfolding is_active_sequential
parallel_only r h = rw h refl

integration_only : (r : TaskRecord) → r.mode ≡ mode_name false → is_pending_parallel r ≡ false
unfolding is_pending_parallel
integration_only r h = rw h refl

one_if_le : (b : Bool) → one_if b ≤ 1
one_if_le true = omega arith
one_if_le false = omega arith

one_if_mono : (a b : Bool) → (a ≡ true → b ≡ true) → one_if a ≤ one_if b
one_if_mono true b h = rw (h refl) (omega arith)
one_if_mono false b h = omega arith

count_fresh :
    (test : TaskRecord → Bool) (k : String) (r : TaskRecord) (fs : TaskFiles)
    → find_file k fs ≡ none
    → count test (put_file k r fs) ≡ count test fs + one_if (test r)
count_fresh test k r fs fresh = omega (arith, count-put_file test k r fs, ap (weight test) fresh)

count_replaced :
    (test : TaskRecord → Bool) (k : String) (r old : TaskRecord) (fs : TaskFiles)
    → find_file k fs ≡ some (some old)
    → count test (put_file k r fs) + one_if (test old) ≡ count test fs + one_if (test r)
count_replaced test k r old fs there =
    omega (arith, count-put_file test k r fs, ap (weight test) there)

module _ (task : String) (before after : TaskFiles) (r : TaskRecord) where
  pub Started-Exclusive :
      (parallel : Bool)
      → find_file (file_name task) before ≡ none
      → Started parallel task before r after
      → Exclusive after
  Started-Exclusive true fresh st =
      let none_active = (may_start-counts true before st.allowed).0 in
      let active = count_fresh is_active_sequential (file_name task) r before fresh in
      let still = ap one_if (parallel_only r st.mode) in
      rw st.written (record { at_most_one = omega arith; alone = λ some_active. omega arith })
  Started-Exclusive false fresh st =
      let idle = may_start-counts false before st.allowed in
      let active = count_fresh is_active_sequential (file_name task) r before fresh in
      let pending = count_fresh is_pending_parallel (file_name task) r before fresh in
      let one = one_if_le (is_active_sequential r) in
      let still = ap one_if (integration_only r st.mode) in
      let clear = idle.1 refl in
      rw st.written (record {
        at_most_one = omega (arith, idle.0);
        alone = λ some_active. omega (arith, clear);
      })

  pub Changed-Exclusive :
      (status : String) (old : TaskRecord)
      → find_file (file_name task) before ≡ some (some old)
      → is_active_sequential r ≡ false
      → (is_pending_parallel r ≡ true → is_pending_parallel old ≡ true)
      → Changed status task before old r after
      → Exclusive before
      → Exclusive after
  Changed-Exclusive status old there quiet pending ch ex =
      let active = count_replaced is_active_sequential (file_name task) r old before there in
      let waiting = count_replaced is_pending_parallel (file_name task) r old before there in
      let ended = ap one_if quiet in
      let kept = one_if_mono _ _ pending in
      let bound = ex.at_most_one in
      rw ch.written (record {
        at_most_one = omega arith;
        alone = λ some_active. omega (arith, ex.alone (omega arith));
      })
