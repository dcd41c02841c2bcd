-- ===== src/Core/Models.antt =====
-- Records of core/models.py. `ProjectContext` is in Projects.
use codex_cursor_devstack.Base.{String, Bool}
use codex_cursor_devstack.Core.Paths.{FilePath}

-- The fields of `TaskContext` that a plan uses, with `record["base_commit"]`.
pub record TaskContext : Type 0 where
  pub task : String
  pub mode : String
  pub metadata_path : FilePath
  pub workspace : FilePath
  pub base_commit : String

pub record ProviderStateSpec : Type 0 where
  pub source : String
  pub target : String
  pub read_only : Bool
