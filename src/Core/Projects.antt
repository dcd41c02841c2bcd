-- ===== src/Core/Projects.antt =====
-- core/projects.py and `ProjectContext` of core/models.py: the layout of one project, and its
-- resolution against the file system.
use codex_cursor_devstack.Base.{not, Result, ok, input_error, ◌>>=◌, ◌>>◌, guard}
use codex_cursor_devstack.Base.Value.{Value}
use codex_cursor_devstack.Core.Names.{valid_name}
use codex_cursor_devstack.Core.Paths.{FilePath, child, FileSystem, ensure_under, canonical_dir}

pub record ProjectPaths : Type 0 where
  pub root : FilePath
  pub agent : FilePath
  pub worktrees : FilePath
  pub tasks : FilePath
  pub reference : FilePath
  pub results : FilePath
  pub runtime : FilePath
  pub inbound : FilePath
  pub outbound : FilePath
  pub project_meta : FilePath

-- `ProjectContext.from_project_root`
unfoldable pub from_project_root : FilePath → ProjectPaths
from_project_root root = record {
  root = root;
  agent = child (child root "repo") "agent";
  worktrees = child root "worktrees";
  tasks = child root "tasks";
  reference = child root "reference";
  results = child root "results";
  runtime = child root "runtime";
  inbound = child (child root "exchange") "inbound";
  outbound = child (child root "exchange") "outbound";
  project_meta = child root "project.json";
}

module _ (fs : FileSystem) where
  unfoldable pub resolve_project_root : FilePath → Value → Result FilePath
  resolve_project_root platform_root project = do
    name ← valid_name project "project"
    let projects = child platform_root "projects"
    let candidate = child projects name
    guard (not (fs.is_symlink candidate)) (input_error "project root must not be a symlink")
    root ← ensure_under fs candidate projects
    guard (fs.is_dir root) (input_error "project does not exist")
    ok root

  unfoldable pub resolve_project_paths : FilePath → Value → Result ProjectPaths
  unfolding from_project_root
  resolve_project_paths platform_root project = do
    root ← resolve_project_root platform_root project
    let context = from_project_root root
    agent ← canonical_dir fs context.agent root "agent repository root"
    worktrees ← canonical_dir fs context.worktrees root "worktrees root"
    tasks ← canonical_dir fs context.tasks root "tasks root"
    reference ← canonical_dir fs context.reference root "reference root"
    results ← canonical_dir fs context.results root "results root"
    runtime ← canonical_dir fs context.runtime root "runtime root"
    inbound ← canonical_dir fs context.inbound root "inbound exchange root"
    outbound ← canonical_dir fs context.outbound root "outbound exchange root"
    ok (record {
      root = root;
      agent = agent;
      worktrees = worktrees;
      tasks = tasks;
      reference = reference;
      results = results;
      runtime = runtime;
      inbound = inbound;
      outbound = outbound;
      project_meta = context.project_meta;
    })
