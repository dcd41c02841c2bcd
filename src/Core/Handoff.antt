-- ===== src/Core/Handoff.antt =====
-- core/git_handoff.py, over Git and the file operations of the host. `ensure_git_repo` is in Tasks and
-- `ensure_clean` in Worktrees.
pub mod Rollback
use codex_cursor_devstack.Base.{
  ℕ, String, ◌<>◌, Bool, true, false, not, ◌&&◌, ◌||◌, ◌==◌, Option, none, some, List, [], ◌∷◌,
  str_eq, if◌then◌else◌, Error, Result, ok, err, input_error,
}
use codex_cursor_devstack.Base.Value.{Fields}
use codex_cursor_devstack.Core.Paths.{FilePath, child, FileSystem}
use codex_cursor_devstack.Core.Host.{
  Host, State, Exec, pure, raise, lift, gets, ◌>>=◌, ◌>>◌, require, git, git_unchecked,
}
use codex_cursor_devstack.Core.Tasks.{file_system}
use codex_cursor_devstack.Core.Worktrees.{integration_branch, path_text, ensure_clean, run_git}

-- What else the host does: file operations, which may raise, and other commands.
pub record Disk (H : Host) : Type 0 where
  pub mkdir : FilePath → H.World → Result (Unit {0}) × H.World
  pub unlink : FilePath → H.World → Result (Unit {0}) × H.World
  -- `os.replace(source, target)`
  pub replace : FilePath → FilePath → H.World → Result (Unit {0}) × H.World
  pub chmod : FilePath → ℕ → H.World → Result (Unit {0}) × H.World
  -- `shutil.rmtree(path, ignore_errors=True)`
  pub rmtree : FilePath → H.World → H.World
  -- the time and the process in a bundle's name, `f"{timestamp}-{process_id}"`
  pub stamp : H.World → String
  -- `git check-ref-format --branch value` returns 0
  pub check_ref_format : String → H.World → Bool
  -- `json.loads(path.read_text())`, a dict
  pub read_json : FilePath → H.World → Result Fields
  -- `setfacl -m g:group:r path`
  pub setfacl : String → H.World → Result (Unit {0}) × H.World

-- The fields that `repository_status` returns.
pub record RepositoryStatus : Type 0 where
  pub branch : String
  pub head : String
  pub clean : Bool

module _ {H : Host} where
  -- A call of the host that may change its world.
  unfoldable pub call : {A : Type 0} → (H.World → Result A × H.World) → Exec H A
  call f s = let (r, world) = f s.world in (r, record s { world = world })

  -- A call of the host that cannot raise.
  unfoldable pub change : (H.World → H.World) → Exec H (Unit {0})
  change f s = (ok tt, record s { world = f s.world })

  abbrev pub undone : {A : Type 0} → Exec H (Unit {0}) → Result A × State H → Result A × State H
  undone handler (ok a, s) = (ok a, s)
  undone handler (err e, s) = (err e, (handler s).1)

  -- `try: ... except Exception: handler; raise`
  unfoldable pub undo_on_error : {A : Type 0} → Exec H A → Exec H (Unit {0}) → Exec H A
  undo_on_error body handler s = undone handler (body s)

  module _ (disk : Disk H) where
    -- The mode of the bundle is 0o640.
    unfoldable pub create_bundle :
        FilePath → String → FilePath → String → Exec H (String × FilePath)
    create_bundle repo ref directory prefix = do
      stamp ← gets (λ (s : State H). disk.stamp s.world)
      let name = prefix <> "-" <> stamp <> ".bundle"
      let tmp = child directory ("." <> name <> ".tmp")
      let final = child directory name
      run_git repo ("bundle" ∷ "create" ∷ path_text tmp ∷ ref ∷ [])
      call (disk.replace tmp final)
      call (disk.chmod final 0x1a0)
      pure (name, final)

    -- The body of the `try` in `initialize_agent_repository`.
    unfoldable pub fill_repository : FilePath → FilePath → String → String → Exec H String
    fill_repository agent bundle main_branch created_from = do
      call (disk.mkdir agent)
      run_git agent ("init" ∷ "-q" ∷ [])
      run_git agent ("bundle" ∷ "verify" ∷ path_text bundle ∷ [])
      run_git agent (
          "fetch"
          ∷ path_text bundle
          ∷ ("refs/heads/" <> main_branch <> ":refs/heads/" <> integration_branch)
          ∷ [])
      run_git agent ("switch" ∷ integration_branch ∷ [])
      run_git agent ("config" ∷ "user.name" ∷ "AI Development Agent" ∷ [])
      run_git agent ("config" ∷ "user.email" ∷ "agent@localhost" ∷ [])
      run_git agent ("config" ∷ "commit.gpgSign" ∷ "false" ∷ [])
      head ← git agent ("rev-parse" ∷ "HEAD" ∷ [])
      require (str_eq head created_from)
          (input_error "initial bundle HEAD does not match project metadata")
      pure head

    unfoldable pub initialize_agent_repository :
        FilePath → FilePath → String → String → Exec H String
    initialize_agent_repository agent bundle main_branch created_from = do
      fs ← file_system
      require (not (fs.is_symlink agent || fs.exists agent))
          (input_error "agent repository already exists")
      head ←
          undo_on_error (fill_repository agent bundle main_branch created_from)
            (change (disk.rmtree agent))
      call (disk.unlink bundle)
      pure head

    -- The branches of `synchronize_agent_repository`.
    unfoldable pub advance : FilePath → String → String → String → Exec H String
    advance agent inbound_ref integration human =
        if str_eq integration human then pure "already-synchronized" else do
          behind ← git_unchecked agent ("merge-base" ∷ "--is-ancestor" ∷ integration ∷ human ∷ [])
          if behind.returncode == 0
              then (do
                run_git agent ("merge" ∷ "--ff-only" ∷ inbound_ref ∷ [])
                pure "fast-forwarded")
              else do
                ahead ←
                    git_unchecked agent ("merge-base" ∷ "--is-ancestor" ∷ human ∷ integration ∷ [])
                if ahead.returncode == 0
                    then pure "integration-ahead"
                    else raise (
                        input_error
                          "human main and agent/integration diverged; explicit human resolution is required")

    unfoldable pub synchronize_agent_repository :
        FilePath → FilePath → String → Exec H (String × String)
    synchronize_agent_repository agent bundle main_branch = do
      ensure_clean agent "repo/agent"
      run_git agent ("bundle" ∷ "verify" ∷ path_text bundle ∷ [])
      let inbound_ref = "refs/remotes/human-main/" <> main_branch
      run_git agent
          ("fetch" ∷ path_text bundle ∷ ("refs/heads/" <> main_branch <> ":" <> inbound_ref) ∷ [])
      run_git agent ("switch" ∷ integration_branch ∷ [])
      integration ← git agent ("rev-parse" ∷ integration_branch ∷ [])
      human ← git agent ("rev-parse" ∷ inbound_ref ∷ [])
      action ← advance agent inbound_ref integration human
      head ← git agent ("rev-parse" ∷ "HEAD" ∷ [])
      call (disk.unlink bundle)
      pure (action, head)

    unfoldable pub export_integration_bundle : FilePath → FilePath → Exec H (FilePath × String)
    export_integration_bundle agent outbound = do
      ensure_clean agent "repo/agent"
      head ← git agent ("rev-parse" ∷ integration_branch ∷ [])
      made ← create_bundle agent integration_branch outbound "agent-integration"
      pure (made.1, head)

  unfoldable pub repository_status : FilePath → Exec H RepositoryStatus
  repository_status agent = do
    branch ← git agent ("branch" ∷ "--show-current" ∷ [])
    head ← git agent ("rev-parse" ∷ "HEAD" ∷ [])
    changes ← git agent ("status" ∷ "--porcelain" ∷ [])
    pure (record { branch = branch; head = head; clean = str_eq changes "" })
