-- ===== src/Agents/Specs.antt =====
-- The declarative objects of agents/base.py and their checks. The `isinstance` tests of the source
-- are what the types of the fields say. `label` names the object in an error.
use codex_cursor_devstack.Base.{
  ℕ, ◌+◌, String, ◌<>◌, Bool, true, false, not, ◌&&◌, ◌==◌, Option, none, some, List, [], ◌∷◌, ◌++◌,
  map, contains, codes, has_code, is_line, is_empty, if◌then◌else◌, Error, Result, ok, err,
  value_error, missing_capabilities, ◌>>◌, guard,
}
use codex_cursor_devstack.Base.Value.{ℤ}
use codex_cursor_devstack.Execution.Mounts.{
  RuntimeIsolationRequirements, has_parent, is_absolute, is_positive_int,
}

unfoldable pub require_text : String → String → Result (Unit {0})
unfolding is_line
require_text value label =
    guard (is_line value) (value_error (label <> " must be a non-empty single-line string"))

unfoldable pub require_items : List String → String → Result (Unit {0})
unfolding require_text
require_items [] label = ok tt
require_items (s ∷ ss) label = require_text s label >> require_items ss label

unfoldable pub require_argv : List String → String → Result (Unit {0})
unfolding require_items
require_argv argv label = do
  guard (not (is_empty argv)) (value_error (label <> " argv must be a non-empty tuple"))
  require_items argv (label <> " argv item")

-- The loop of `_require_environment`, with the names that it has seen.
unfoldable pub require_entries : List String → List (String × String) → String → Result (Unit {0})
unfolding require_text
require_entries seen [] label = ok tt
require_entries seen ((name, value) ∷ rest) label = do
  require_text name (label <> " environment name")
  guard (not (has_code b'=' (codes name)))
      (value_error (label <> " environment name must not contain '='"))
  guard (not (contains seen name)) (value_error (label <> " environment contains duplicate key"))
  guard (not (has_code 0 (codes value)))
      (value_error (label <> " environment value must be a string without NUL"))
  require_entries (name ∷ seen) rest label

unfoldable pub require_environment : List (String × String) → String → Result (Unit {0})
unfolding require_entries
require_environment = require_entries []

unfoldable pub require_container_target : String → String → Result (Unit {0})
unfolding require_text is_absolute has_parent
require_container_target value label = do
  require_text value label
  guard (is_absolute (codes value) && not (has_parent (codes value) true))
      (value_error (label <> " must be an absolute container path without '..'"))

pub record InstallationSpec : Type 0 where
  pub image_key : String
  pub containerfile : String
  pub version_key : Option String
  pub build_arguments : List (String × String)

unfoldable pub require_optional_text : Option String → String → Result (Unit {0})
unfolding require_text
require_optional_text none label = ok tt
require_optional_text (some s) label = require_text s label

-- `InstallationSpec.__post_init__`
unfoldable pub check_installation : InstallationSpec → Result (Unit {0})
unfolding require_text require_optional_text require_environment
check_installation i = do
  require_text i.image_key "image_key"
  require_text i.containerfile "containerfile"
  require_optional_text i.version_key "version_key"
  require_environment i.build_arguments "build arguments"

pub record PolicyFileSpec : Type 0 where
  pub source : String
  pub target : String
  pub read_only : Bool

-- `PolicyFileSpec.__post_init__`
unfoldable pub check_policy_file : PolicyFileSpec → Result (Unit {0})
unfolding require_text require_container_target
check_policy_file f = do
  require_text f.source "policy source"
  require_container_target f.target "policy target"

pub record GeneratedPolicyFileSpec : Type 0 where
  pub name : String
  pub target : String
  pub content : String
  pub read_only : Bool

-- The component of a relative path that has been read counts, unless it is empty or a dot.
unfoldable pub is_part : List ℕ → ℕ
is_part [] = 0
is_part (c ∷ []) = if c == b'.' then 0 else 1
is_part (c ∷ d ∷ cs) = 1

-- `len(PurePosixPath(name).parts)` for a relative path; `here` is the component that has been read.
unfoldable pub part_count : List ℕ → List ℕ → ℕ
unfolding is_part
part_count here [] = is_part here
part_count here (c ∷ cs) =
    let ended = part_count [] cs in
    let longer = part_count (c ∷ here) cs in if c == b'/' then is_part here + ended else longer

-- `GeneratedPolicyFileSpec.__post_init__`
unfoldable pub check_generated_file : GeneratedPolicyFileSpec → Result (Unit {0})
unfolding require_text require_container_target is_absolute part_count
check_generated_file f = do
  require_text f.name "generated policy name"
  guard
      (not (is_absolute (codes f.name))
        && part_count [] (codes f.name) == 1
        && not (contains ("." ∷ ".." ∷ []) f.name))
      (value_error "generated policy name must be one basename")
  require_container_target f.target "generated policy target"
  guard (not (has_code 0 (codes f.content)))
      (value_error "generated policy content must be text without NUL")

-- `len(targets) == len(set(targets))`
unfoldable pub all_distinct : List String → Bool
all_distinct [] = true
all_distinct (s ∷ ss) = not (contains ss s) && all_distinct ss

pub record ProviderPolicyArtifacts : Type 0 where
  pub files : List PolicyFileSpec
  pub argv : List String
  pub environment : List (String × String)
  pub runtime_isolation : RuntimeIsolationRequirements
  pub generated_files : List GeneratedPolicyFileSpec

-- `ProviderPolicyArtifacts.__post_init__`
unfoldable pub check_policy_artifacts : ProviderPolicyArtifacts → Result (Unit {0})
unfolding all_distinct require_items require_environment
check_policy_artifacts a = do
  guard (all_distinct (map (λ f. f.target) a.files ++ map (λ f. f.target) a.generated_files))
      (value_error "policy file targets must be unique")
  require_items a.argv "policy argv item"
  require_environment a.environment "policy"

pub record AuthSpec : Type 0 where
  pub argv : List String
  pub environment : List (String × String)
  pub interactive : Bool
  pub timeout_seconds : Option ℤ
  pub runtime_isolation : RuntimeIsolationRequirements

abbrev pub positive_or_none : Option ℤ → Bool
positive_or_none none = true
positive_or_none (some i) = is_positive_int i

-- `AuthSpec.__post_init__`
unfoldable pub check_auth : AuthSpec → Result (Unit {0})
unfolding require_argv require_environment is_positive_int
check_auth a = do
  require_argv a.argv "auth"
  require_environment a.environment "auth"
  guard (positive_or_none a.timeout_seconds)
      (value_error "timeout_seconds must be a positive integer or None")

pub record VersionProbeSpec : Type 0 where
  pub argv : List String
  pub environment : List (String × String)

-- `VersionProbeSpec.__post_init__`
unfoldable pub check_probe : VersionProbeSpec → Result (Unit {0})
unfolding require_argv require_environment
check_probe v = do
  require_argv v.argv "version probe"
  require_environment v.environment "version probe"

pub record RunSpec : Type 0 where
  pub argv : List String
  pub environment : List (String × String)
  pub interactive : Bool
  pub policy_artifacts : ProviderPolicyArtifacts
  pub runtime_isolation : RuntimeIsolationRequirements

-- `RunSpec.__post_init__`
unfoldable pub check_run : RunSpec → Result (Unit {0})
unfolding require_argv require_environment
check_run r = do require_argv r.argv "run"; require_environment r.environment "run"

abbrev pub unsupported : Error → Error
unsupported (missing_capabilities names) = value_error "missing capabilities"
unsupported e = e

-- `except MissingCapabilitiesError as exc: raise Unsupported...PolicyError(str(exc)) from exc`
unfoldable pub unsupported_if_missing {ℓ} : {A : Type ℓ} → Result A → Result A
unsupported_if_missing (err e) = err (unsupported e)
unsupported_if_missing (ok a) = ok a

-- `RuntimeIsolationRequirements()`
abbrev pub default_isolation : RuntimeIsolationRequirements
default_isolation = record { uid = none; gid = none; nested_sandbox_bootstrap = false }
