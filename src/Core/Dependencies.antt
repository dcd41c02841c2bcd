-- ===== src/Core/Dependencies.antt =====
-- core/dependencies.py
pub mod Integrated
use codex_cursor_devstack.Base.{
  ℕ, ◌==◌, ◌≡◌, refl, String, ◌<>◌, Bool, true, false, not, ◌||◌, Option, none, some, List, [], ◌∷◌,
  str_eq, leb, ltb, contains, if◌then◌else◌, Result, ok, err, value_error, input_error,
}
use codex_cursor_devstack.Base
use codex_cursor_devstack.Base.Value.{Value, Items}
use codex_cursor_devstack.Core.Names.{valid_name}
use codex_cursor_devstack.Core.Records.{TaskRecord, find_file, file_name}
use codex_cursor_devstack.Core.Host.{
  Host, State, Exec, pure, lift, gets, ◌>>=◌, ◌>>◌, require, git_unchecked,
}
use codex_cursor_devstack.Core.Projects.{ProjectPaths}

unfoldable pub count_items : Items → ℕ
count_items Items.nil = 0
count_items (Items.cons v rest) = Base.suc (count_items rest)

-- `[valid_name(value, "dependency") for value in raw]`
unfoldable pub valid_names : Items → Result (List String)
valid_names Items.nil = ok []
valid_names (Items.cons v rest) =
    Base.◌>>=◌ (valid_name v "dependency")
      λ name. Base.◌>>=◌ (valid_names rest) λ names. ok (name ∷ names)

unfoldable pub not_self : String → List String → Result (List String)
not_self task dependencies =
    if contains dependencies task
    then err (input_error "a task cannot depend on itself")
    else ok dependencies

unfoldable pub normalize_dependencies : String → Value → Result (List String)
unfolding count_items
normalize_dependencies task (Value.list items) =
    if ltb 128 (count_items items)
    then err (input_error "dependencies must be a list")
    else Base.◌>>=◌ (valid_names items) (not_self task)
normalize_dependencies task _ = err (input_error "dependencies must be a list")

-- The commit that a dependency must have brought into the integration branch.
unfoldable pub required_commit : TaskRecord → Result (Option String)
required_commit r =
    if str_eq r.mode "parallel"
    then (if str_eq r.status "merged"
        then ok r.merge_commit
        else err (input_error "parallel dependency must be merged"))
    else if str_eq r.mode "integration"
    then (if str_eq r.status "completed"
        then ok r.head_commit
        else err (input_error "integration dependency must be completed"))
    else err (value_error "dependency has unsupported mode")

unfoldable pub recorded : Option String → Result String
recorded none = err (value_error "dependency has no recorded integrated commit")
recorded (some c) =
    if str_eq c "" then err (value_error "dependency has no recorded integrated commit") else ok c

-- `read_json(path, "dependency metadata")`, after the test that the file exists
unfoldable pub read_dependency : Option (Option TaskRecord) → Result TaskRecord
read_dependency none = err (input_error "dependency metadata does not exist")
read_dependency (some none) = err (value_error "cannot read dependency metadata")
read_dependency (some (some r)) = ok r

module _ {H : Host} (pp : ProjectPaths) (base_commit : String) where
  unfoldable pub require_ancestor : String → Exec H (Unit {0})
  require_ancestor commit = do
    done ← git_unchecked pp.agent ("merge-base" ∷ "--is-ancestor" ∷ commit ∷ base_commit ∷ [])
    require (done.returncode == 0)
        (input_error "dependency commit is not present in the current integration base")

  -- One round of the loop of `validate_dependencies`.
  unfoldable pub validate_dependency : String → Exec H (Unit {0})
  validate_dependency dependency = do
    dep ← lift (valid_name (Value.text dependency) "dependency")
    found ← gets (λ (s : State H). find_file (file_name dep) s.files)
    r ← lift (read_dependency found)
    integrated ← lift (required_commit r)
    commit ← lift (recorded integrated)
    require_ancestor commit

  unfoldable pub validate_dependencies : List String → Exec H (Unit {0})
  unfolding validate_dependency
  validate_dependencies [] = pure tt
  validate_dependencies (d ∷ ds) = validate_dependency d >> validate_dependencies ds
