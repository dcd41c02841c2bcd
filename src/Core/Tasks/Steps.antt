-- ===== src/Core/Tasks/Steps.antt =====
-- Which steps of the task operations leave the task files alone.
use codex_cursor_devstack.Base.{String, Bool, true, false, List}
use codex_cursor_devstack.Core.Paths.{FilePath}
use codex_cursor_devstack.Core.Records.{TaskRecord}
use codex_cursor_devstack.Core.Host.{Host, Completed, Exec}
use codex_cursor_devstack.Core.Host.Effects.{Leaves, leaves_rules}
use codex_cursor_devstack.Core.Projects.{ProjectPaths}
use codex_cursor_devstack.Core.Worktrees.{
  ensure_clean, run_git, create_parallel_worktree, validate_recorded_head, require_merged,
  merge_parallel_worktree, when_true, abort_parallel_worktree,
}
use codex_cursor_devstack.Core.Tasks.{prepare_workspace}

module _ {H : Host} where
  pub ensure_clean-Leaves :
      (repo : FilePath) (label : String) → Leaves {H = H} (ensure_clean repo label)
  unfolding ensure_clean
  ensure_clean-Leaves repo label = search leaves_rules

  pub run_git-Leaves : (repo : FilePath) (args : List String) → Leaves {H = H} (run_git repo args)
  unfolding run_git
  run_git-Leaves repo args = search leaves_rules

  pub create_parallel_worktree-Leaves :
      (pp : ProjectPaths) (task : String) → Leaves {H = H} (create_parallel_worktree pp task)
  unfolding create_parallel_worktree
  create_parallel_worktree-Leaves pp task = search (leaves_rules, run_git-Leaves)

  pub prepare_workspace-Leaves :
      (pp : ProjectPaths) (task : String) (parallel : Bool)
      → Leaves {H = H} (prepare_workspace pp task parallel)
  unfolding prepare_workspace
  prepare_workspace-Leaves pp task true = search (leaves_rules, create_parallel_worktree-Leaves)
  prepare_workspace-Leaves pp task false = search leaves_rules

  pub validate_recorded_head-Leaves :
      (pp : ProjectPaths) (r : TaskRecord) (w : FilePath)
      → Leaves {H = H} (validate_recorded_head pp r w)
  unfolding validate_recorded_head
  validate_recorded_head-Leaves pp r w = search leaves_rules depth 8

  pub require_merged-Leaves :
      (pp : ProjectPaths) (done : Completed) → Leaves {H = H} (require_merged pp done)
  unfolding require_merged
  require_merged-Leaves pp done = search leaves_rules

  pub merge_parallel_worktree-Leaves :
      (pp : ProjectPaths) (r : TaskRecord) (w : FilePath)
      → Leaves {H = H} (merge_parallel_worktree pp r w)
  unfolding merge_parallel_worktree
  merge_parallel_worktree-Leaves pp r w =
      search
        (
          leaves_rules, ensure_clean-Leaves, validate_recorded_head-Leaves, run_git-Leaves,
          require_merged-Leaves,
        )
        depth 16

  pub when_true-Leaves : (b : Bool) (m : Exec H (Unit {0})) → Leaves m → Leaves (when_true b m)
  unfolding when_true
  when_true-Leaves true m h = h
  when_true-Leaves false m h = search leaves_rules

  pub abort_parallel_worktree-Leaves :
      (pp : ProjectPaths) (r : TaskRecord) (w : FilePath)
      → Leaves {H = H} (abort_parallel_worktree pp r w)
  unfolding abort_parallel_worktree
  abort_parallel_worktree-Leaves pp r w =
      search (leaves_rules, when_true-Leaves, run_git-Leaves) depth 10
