-- ===== src/Execution/Mounts.antt =====
-- The values of execution/plan.py and execution/isolation.py below the plan. The `isinstance` tests of
-- the source are what the types of the fields say.
use codex_cursor_devstack.Base.{
  ℕ, String, ◌<>◌, Bool, true, false, not, ◌&&◌, ◌||◌, ◌==◌, Option, none, some, List, [], ◌∷◌,
  str_eq, contains, codes, has_code, is_line, Result, ok, err, value_error, ◌>>◌, guard,
}
use codex_cursor_devstack.Base.Value.{ℤ, Float, Value}

unfoldable pub require_text : String → String → Result (Unit {0})
unfolding is_line
require_text value label =
    guard (is_line value) (value_error (label <> " must be a non-empty single-line string"))

-- `".." in path.parts`: `here` is whether a part starts at this code.
unfoldable pub has_parent : List ℕ → Bool → Bool
has_parent [] here = false
has_parent (c ∷ []) here = false
has_parent (c ∷ d ∷ []) here = here && c == b'.' && d == b'.'
has_parent (c ∷ d ∷ e ∷ cs) here =
    (here && c == b'.' && d == b'.' && e == b'/') || has_parent (d ∷ e ∷ cs) (c == b'/')

unfoldable pub is_absolute : List ℕ → Bool
is_absolute [] = false
is_absolute (c ∷ cs) = c == b'/'

unfoldable pub require_container_path : String → String → Result (Unit {0})
unfolding require_text is_absolute has_parent
require_container_path value label = do
  require_text value label
  guard (is_absolute (codes value) && not (has_parent (codes value) true))
      (value_error (label <> " must be an absolute container path without '..'"))

unfoldable pub require_texts : List String → String → Result (Unit {0})
require_texts [] label = ok tt
require_texts (s ∷ ss) label = require_text s label >> require_texts ss label

unfoldable pub require_argv : List String → Result (Unit {0})
require_argv [] = err (value_error "plan argv must be a non-empty tuple")
require_argv (s ∷ ss) = require_texts (s ∷ ss) "plan argv item"

-- The loop of `_require_environment`, with the names that it has seen.
unfoldable pub require_entries : List String → List (String × String) → Result (Unit {0})
require_entries seen [] = ok tt
require_entries seen ((name, value) ∷ rest) = do
  require_text name "plan environment name"
  guard (not (has_code b'=' (codes name)))
      (value_error "plan environment name must not contain '='")
  guard (not (contains seen name)) (value_error "plan environment contains duplicate key")
  guard (not (has_code 0 (codes value)))
      (value_error "plan environment value must be a string without NUL")
  require_entries (name ∷ seen) rest

unfoldable pub require_environment : List (String × String) → Result (Unit {0})
unfolding require_entries
require_environment = require_entries []

-- `_MOUNT_ROLES`
unfoldable pub mount_roles : List String
mount_roles =
    "workspace" ∷ "reference" ∷ "task-metadata" ∷ "provider-state" ∷ "provider-policy"
    ∷ "git-worktree" ∷ "git-common" ∷ []

pub record ExecutionMount : Type 0 where
  pub source : String
  pub target : String
  pub read_only : Bool
  pub role : String

-- `ExecutionMount.__post_init__`
unfoldable pub check_mount : ExecutionMount → Result (Unit {0})
unfolding mount_roles
check_mount m = do
  require_text m.source "mount source"
  require_container_path m.target "mount target"
  guard (contains mount_roles m.role) (value_error "unsupported mount role")

abbrev pub bool_eq : Bool → Bool → Bool
bool_eq true b = b
bool_eq false b = not b

-- `==` on mounts, which compares the fields
unfoldable pub mount_eq : ExecutionMount → ExecutionMount → Bool
mount_eq m n =
    str_eq m.source n.source
    && str_eq m.target n.target
    && bool_eq m.read_only n.read_only
    && str_eq m.role n.role

pub record ResourceLimits : Type 0 where
  pub pids : ℤ
  pub memory : String
  pub cpus : Value

unfoldable pub is_positive_int : ℤ → Bool
is_positive_int (ℤ.pos n) = not (n == 0)
is_positive_int (ℤ.negsuc n) = false

-- Not `isinstance(cpus, bool) or not isinstance(cpus, (int, float)) or cpus <= 0`: a NaN passes.
unfoldable pub is_positive_number : Value → Bool
unfolding is_positive_int
is_positive_number (Value.int i) = is_positive_int i
is_positive_number (Value.float Float.nan) = true
is_positive_number (Value.float (Float.infinite negative)) = not negative
is_positive_number (Value.float (Float.finite negative n k)) = not negative && not (n == 0)
is_positive_number _ = false

-- `ResourceLimits.__post_init__`
unfoldable pub check_limits : ResourceLimits → Result (Unit {0})
unfolding is_positive_number
check_limits limits = do
  guard (is_positive_int limits.pids) (value_error "pids must be a positive integer")
  require_text limits.memory "memory limit"
  guard (is_positive_number limits.cpus) (value_error "cpus must be a positive number")

pub record NetworkRuntimeRequirements : Type 0 where
  pub mode : String
  pub http_proxy : Bool

-- `NetworkRuntimeRequirements.__post_init__`
unfoldable pub check_network : NetworkRuntimeRequirements → Result (Unit {0})
check_network network = require_text network.mode "network mode"

pub record RuntimeIsolationRequirements : Type 0 where
  pub uid : Option ℤ
  pub gid : Option ℤ
  pub nested_sandbox_bootstrap : Bool

abbrev pub is_none : Option ℤ → Bool
is_none none = true
is_none (some i) = false

unfoldable pub is_natural : Option ℤ → Bool
is_natural (some (ℤ.negsuc n)) = false
is_natural _ = true

unfoldable pub is_root : Option ℤ → Bool
is_root (some (ℤ.pos n)) = n == 0
is_root _ = false

-- `RuntimeIsolationRequirements.__post_init__`
unfoldable pub check_isolation : RuntimeIsolationRequirements → Result (Unit {0})
unfolding is_natural is_root
check_isolation r = do
  guard (bool_eq (is_none r.uid) (is_none r.gid)) (value_error "uid and gid must be set together")
  guard (is_natural r.uid) (value_error "uid must be a non-negative integer or None")
  guard (is_natural r.gid) (value_error "gid must be a non-negative integer or None")
  guard (not (r.nested_sandbox_bootstrap && is_none r.uid))
      (value_error "nested sandbox bootstrap requires an explicit non-root identity")
  guard (not (r.nested_sandbox_bootstrap && is_root r.uid))
      (value_error "nested sandbox bootstrap requires a non-root uid")
