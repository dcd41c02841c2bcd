-- ===== src/Core/Locking.antt =====
-- core/locking.py: which lock an operation takes.
use codex_cursor_devstack.Base.{
  ◌≡◌, refl, ap, sym, ◌∙◌, ok-injective, >>=-eq-ok, String, ◌<>◌, ◌||◌, [], ◌∷◌, str_eq,
  if◌then◌else◌, Result, ok, ◌>>=◌,
}
use text.Mathlib.TextLemmas.{append_cancel_right}
use codex_cursor_devstack.Base.Value.{Value}
use codex_cursor_devstack.Core.Names.{valid_name, valid_name-eq-ok}
use codex_cursor_devstack.Core.Paths.{FilePath, child}
use codex_cursor_devstack.Core.Records.{TaskRecord}
use codex_cursor_devstack.Core.Projects.{ProjectPaths}

abbrev pub integration_lock : String
integration_lock = "integration"

unfoldable pub lock_path : ProjectPaths → Value → Result FilePath
lock_path pp lock_name = do
  name ← valid_name lock_name "lock"
  ok (child (child pp.runtime "locks") (name <> ".lock"))

unfoldable pub task_lock_name : Value → TaskRecord → Result String
task_lock_name task rec = do
  name ← valid_name task "task"
  ok (if str_eq rec.mode "integration" then integration_lock else name)

unfoldable pub run_lock_name : Value → TaskRecord → Result String
run_lock_name task rec = do
  name ← valid_name task "task"
  ok (
      if str_eq rec.mode "integration" || str_eq rec.status "merged"
      then integration_lock
      else name)

abbrev last_part : FilePath → String
last_part [] = ""
last_part (p ∷ []) = p
last_part (p ∷ q ∷ ps) = last_part (q ∷ ps)

last_part-child : (path : FilePath) (name : String) → last_part (child path name) ≡ name
last_part-child [] name = refl
last_part-child (p ∷ []) name = refl
last_part-child (p ∷ q ∷ ps) name = last_part-child (q ∷ ps) name

lock_path-last :
    (pp : ProjectPaths) (name : String) (path : FilePath)
    → lock_path pp (Value.text name) ≡ ok path
    → last_part path ≡ name <> ".lock"
unfolding lock_path
lock_path-last pp name path h =
    let (valid, named, made) = >>=-eq-ok (valid_name (Value.text name) "lock") _ h in
    let same = valid_name-eq-ok (Value.text name) "lock" valid named in
    ap last_part (sym (ok-injective _ _ made))
    ∙ last_part-child (child pp.runtime "locks") (valid <> ".lock")
    ∙ ap (λ n. n <> ".lock") (sym same)

-- Two locks of one project have the same file only if they have the same name.
pub lock_path_injective :
    (pp : ProjectPaths) (a b : String) (path : FilePath)
    → lock_path pp (Value.text a) ≡ ok path
    → lock_path pp (Value.text b) ≡ ok path
    → a ≡ b
lock_path_injective pp a b path h k =
    append_cancel_right a b ".lock" (sym (lock_path-last pp a path h) ∙ lock_path-last pp b path k)
