-- ===== src/Runtime/Control.antt =====
-- The backend contract of runtime/base.py. The `isinstance` and `type` tests of the source are what
-- the types of the fields say.
use codex_cursor_devstack.Base.{
  String, Bool, false, not, ◌&&◌, Option, none, some, List, ℕ, [], ◌∷◌, str_eq, contains, is_empty,
  if◌then◌else◌, Result, value_error, ◌>>◌, guard,
}
use codex_cursor_devstack.Base.Value.{ℤ}
use codex_cursor_devstack.Execution.Mounts.{is_none, is_positive_int}

abbrev pub Bytes : Type 0
Bytes = List ℕ

-- `_CONTROL_KINDS`
unfoldable pub control_kinds : List String
control_kinds = "input" ∷ "resize" ∷ "cancel" ∷ []

pub record RuntimeControl : Type 0 where
  pub kind : String
  pub payload : Bytes
  pub rows : Option ℤ
  pub cols : Option ℤ

unfoldable pub is_positive : Option ℤ → Bool
unfolding is_positive_int
is_positive none = false
is_positive (some i) = is_positive_int i

-- `RuntimeControl.__post_init__`
unfoldable pub check_control : RuntimeControl → Result (Unit {0})
unfolding control_kinds is_positive
check_control c = do
  guard (contains control_kinds c.kind) (value_error "unsupported runtime control kind")
  if str_eq c.kind "input"
      then guard (is_none c.rows && is_none c.cols)
          (value_error "input control must not contain terminal dimensions")
      else if str_eq c.kind "resize"
      then check_resize c
      else guard (is_empty c.payload && is_none c.rows && is_none c.cols)
          (value_error "cancel control must not contain payload")
  where
    check_resize : RuntimeControl → Result (Unit {0})
    check_resize c = do
      guard (is_empty c.payload) (value_error "resize control must not contain input data")
      guard (not (is_none c.rows) && not (is_none c.cols))
          (value_error "resize control requires integer rows and cols")
      guard (is_positive c.rows && is_positive c.cols)
          (value_error "resize dimensions must be positive")
