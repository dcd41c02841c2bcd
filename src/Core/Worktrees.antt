-- ===== src/Core/Worktrees.antt =====
-- core/worktrees.py, with `ensure_clean` of core/git_handoff.py
use codex_cursor_devstack.Base.{
  ◌==◌, String, ◌<>◌, Bool, not, ◌&&◌, Option, none, some, List, [], ◌∷◌, str_eq, if◌then◌else◌,
  Result, ok, err, value_error, input_error,
}
use codex_cursor_devstack.Core.Paths.{FilePath, child}
use codex_cursor_devstack.Core.Records.{TaskRecord}
use codex_cursor_devstack.Core.Host.{
  Host, Completed, Exec, pure, raise, lift, ◌>>=◌, ◌>>◌, require, git, git_unchecked, path_exists,
}
use codex_cursor_devstack.Core.Projects.{ProjectPaths}

abbrev pub integration_branch : String
integration_branch = "agent/integration"

-- `str(path)`
unfoldable pub path_text : FilePath → String
path_text [] = ""
path_text (p ∷ ps) = "/" <> (p <> path_text ps)

-- `rec.get("head_commit")`, a non-empty string
unfoldable pub recorded_head : Option String → Result String
recorded_head none = err (value_error "completed parallel task has no recorded head_commit")
recorded_head (some h) =
    if str_eq h ""
    then err (value_error "completed parallel task has no recorded head_commit")
    else ok h

module _ {H : Host} where
  unfoldable pub ensure_clean : FilePath → String → Exec H (Unit {0})
  ensure_clean repo label = do
    changes ← git repo ("status" ∷ "--porcelain" ∷ [])
    require (str_eq changes "") (value_error (label <> " has uncommitted or untracked changes"))

  -- `git(...)` whose output is not used
  unfoldable pub run_git : FilePath → List String → Exec H (Unit {0})
  run_git repo args = git repo args >>= λ _. pure tt

  unfoldable pub create_parallel_worktree : ProjectPaths → String → Exec H (String × FilePath)
  create_parallel_worktree pp task = do
    let branch = "agent/" <> task
    let worktree = child pp.worktrees task
    there ← path_exists worktree
    require (not there) (input_error "worktree path already exists")
    run_git pp.agent
        ("worktree" ∷ "add" ∷ "-b" ∷ branch ∷ path_text worktree ∷ integration_branch ∷ [])
    pure (branch, worktree)

  unfoldable pub validate_recorded_head : ProjectPaths → TaskRecord → FilePath → Exec H String
  validate_recorded_head pp rec workspace = do
    head ← lift (recorded_head rec.head_commit)
    branch_head ← git pp.agent ("rev-parse" ∷ rec.branch ∷ [])
    workspace_head ← git workspace ("rev-parse" ∷ "HEAD" ∷ [])
    require (str_eq branch_head head && str_eq workspace_head head) (
        input_error
          "parallel task branch changed after completion; re-complete the task before merging")
    pure head

  -- `if result.returncode != 0: git("merge", "--abort"); raise …`
  unfoldable pub require_merged : ProjectPaths → Completed → Exec H (Unit {0})
  require_merged pp result =
      if result.returncode == 0
      then pure tt
      else (git_unchecked pp.agent ("merge" ∷ "--abort" ∷ []) >>= λ _.
          raise (input_error "merge failed or conflicted; integration branch restored"))

  unfoldable pub merge_parallel_worktree : ProjectPaths → TaskRecord → FilePath → Exec H String
  merge_parallel_worktree pp rec workspace = do
    ensure_clean workspace "parallel task worktree"
    ensure_clean pp.agent "repo/agent"
    head ← validate_recorded_head pp rec workspace
    run_git pp.agent ("switch" ∷ integration_branch ∷ [])
    result ← git_unchecked pp.agent ("merge" ∷ "--no-ff" ∷ "--no-edit" ∷ head ∷ [])
    require_merged pp result
    merge_commit ← git pp.agent ("rev-parse" ∷ "HEAD" ∷ [])
    run_git pp.agent ("worktree" ∷ "remove" ∷ path_text workspace ∷ [])
    run_git pp.agent ("branch" ∷ "-d" ∷ rec.branch ∷ [])
    pure merge_commit

  unfoldable pub when_true : Bool → Exec H (Unit {0}) → Exec H (Unit {0})
  when_true b m = if b then m else pure tt

  unfoldable pub abort_parallel_worktree : ProjectPaths → TaskRecord → FilePath → Exec H (Unit {0})
  abort_parallel_worktree pp rec workspace = do
    there ← path_exists workspace
    when_true there
        (run_git pp.agent ("worktree" ∷ "remove" ∷ "--force" ∷ path_text workspace ∷ []))
    shown ←
        git_unchecked pp.agent
          ("show-ref" ∷ "--verify" ∷ "--quiet" ∷ ("refs/heads/" <> rec.branch) ∷ [])
    when_true (shown.returncode == 0) (run_git pp.agent ("branch" ∷ "-D" ∷ rec.branch ∷ []))
