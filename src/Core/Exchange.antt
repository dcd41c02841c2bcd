-- ===== src/Core/Exchange.antt =====
-- The project operations of core/projects.py that move bundles, with `valid_git_branch` of
-- core/validation.py.
use codex_cursor_devstack.Base.{
  ℕ, String, ◌<>◌, Bool, true, ◌&&◌, ◌||◌, leb, Option, some, List, [], ◌∷◌, codes, if◌then◌else◌,
  Result, ok, err, value_error, input_error,
}
use codex_cursor_devstack.Base.Value.{Value, Fields, lookup}
use codex_cursor_devstack.Core.Names.{length, valid_name}
use codex_cursor_devstack.Core.Paths.{FilePath, child, canonical_dir, canonical_file}
use codex_cursor_devstack.Core.Host.{
  Host, State, Exec, pure, raise, lift, gets, ◌>>=◌, ◌>>◌, require,
}
use codex_cursor_devstack.Core.Projects.{
  from_project_root, resolve_project_root, resolve_project_paths,
}
use codex_cursor_devstack.Core.Tasks.{file_system, ensure_git_repo}
use codex_cursor_devstack.Core.Worktrees.{integration_branch, path_text}
use codex_cursor_devstack.Core.Handoff.{
  Disk, initialize_agent_repository, synchronize_agent_repository, export_integration_bundle,
  RepositoryStatus, repository_status,
}

unfoldable pub is_hex_code : ℕ → Bool
is_hex_code c =
    (leb b'0' c && leb c b'9') || (leb b'a' c && leb c b'f') || (leb b'A' c && leb c b'F')

unfoldable pub all_hex_codes : List ℕ → Bool
unfolding is_hex_code
all_hex_codes [] = true
all_hex_codes (c ∷ cs) = is_hex_code c && all_hex_codes cs

-- `re.fullmatch(r"[0-9a-fA-F]{40,64}", created_from)`
unfoldable pub is_commit : String → Bool
unfolding all_hex_codes
is_commit s = let n = length (codes s) in leb 40 n && leb n 64 && all_hex_codes (codes s)

-- `meta.get("created_from")`
unfoldable pub created_commit : Option Value → Result String
unfolding is_commit
created_commit (some (Value.text s)) =
    if is_commit s
    then ok s
    else err (value_error "project metadata has invalid created_from commit")
created_commit _ = err (value_error "project metadata has invalid created_from commit")

-- What `initialize_agent_project` and `synchronize_agent_project` return.
pub record Integrated : Type 0 where
  pub project : String
  -- the integration branch, or the action
  pub note : String
  pub integration_head : String

pub record Exported : Type 0 where
  pub project : String
  pub bundle : String
  pub integration_head : String

module _ {H : Host} (disk : Disk H) where
  unfoldable pub valid_git_branch : Option Value → String → Exec H String
  valid_git_branch (some (Value.text value)) what = do
    require (leb (length (codes value)) 255) (input_error ("invalid " <> what))
    formed ← gets (λ (s : State H). disk.check_ref_format value s.world)
    require formed (input_error ("invalid " <> what))
    pure value
  valid_git_branch _ what = raise (input_error ("invalid " <> what))

  -- `read_json(path, what)`
  unfoldable pub read_metadata : FilePath → Exec H Fields
  read_metadata path s = (disk.read_json path s.world, s)

  unfoldable pub initialize_agent_project : FilePath → Value → Value → Exec H Integrated
  initialize_agent_project platform_root project bundle_name = do
    name ← lift (valid_name project "project")
    bundle_file ← lift (valid_name bundle_name "bundle")
    fs ← file_system
    root ← lift (resolve_project_root fs platform_root (Value.text name))
    let context = from_project_root root
    repo_root ← lift (canonical_dir fs (child root "repo") root "repository namespace")
    inbound ← lift (canonical_dir fs context.inbound root "inbound exchange root")
    meta_path ← lift (canonical_file fs context.project_meta root "project metadata")
    meta ← read_metadata meta_path
    main_branch ← valid_git_branch (lookup "main_branch" meta) "main branch"
    created_from ← lift (created_commit (lookup "created_from" meta))
    bundle ← lift (canonical_file fs (child inbound bundle_file) inbound "inbound bundle")
    head ←
        initialize_agent_repository disk (child repo_root "agent") bundle main_branch created_from
    pure (record { project = name; note = integration_branch; integration_head = head })

  unfoldable pub synchronize_agent_project : FilePath → Value → Value → Exec H Integrated
  synchronize_agent_project platform_root project bundle_name = do
    name ← lift (valid_name project "project")
    bundle_file ← lift (valid_name bundle_name "bundle")
    fs ← file_system
    pp ← lift (resolve_project_paths fs platform_root (Value.text name))
    ensure_git_repo pp.agent "repo/agent"
    meta_path ← lift (canonical_file fs pp.project_meta pp.root "project metadata")
    meta ← read_metadata meta_path
    main_branch ← valid_git_branch (lookup "main_branch" meta) "main branch"
    bundle ← lift (canonical_file fs (child pp.inbound bundle_file) pp.inbound "inbound bundle")
    moved ← synchronize_agent_repository disk pp.agent bundle main_branch
    pure (record { project = name; note = moved.0; integration_head = moved.1 })

  unfoldable pub export_agent_project : FilePath → Value → Exec H Exported
  export_agent_project platform_root project = do
    name ← lift (valid_name project "project")
    fs ← file_system
    pp ← lift (resolve_project_paths fs platform_root (Value.text name))
    ensure_git_repo pp.agent "repo/agent"
    made ← export_integration_bundle disk pp.agent pp.outbound
    pure (record { project = name; bundle = path_text made.0; integration_head = made.1 })

module _ {H : Host} where
  unfoldable pub project_git_status : FilePath → Exec H RepositoryStatus
  project_git_status agent = do ensure_git_repo agent "repo/agent"; repository_status agent
