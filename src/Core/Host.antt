-- ===== src/Core/Host.antt =====
-- What core/tasks.py and its helpers are handed: the file system, Git, the clock, and the task files
-- of one project. A call returns its result and the state that it leaves, also when it raises.
pub mod Effects
use codex_cursor_devstack.Base.{
  ℕ, ◌≡◌, refl, String, Bool, true, false, List, [], ◌∷◌, ◌==◌, str_eq, is_empty, if◌then◌else◌,
  Error, Result, ok, err, failure,
}
use codex_cursor_devstack.Core.Paths.{FilePath, FileSystem}
use codex_cursor_devstack.Core.Records.{TaskRecord, TaskFiles, put_file}

-- `subprocess.CompletedProcess`: the return code, and the output without the white space around it.
pub record Completed : Type 0 where
  pub returncode : ℕ
  pub stdout : String

-- Git and the rest of the host, as parameters.
pub record Host : Type 1 where
  pub World : Type 0
  -- `git -C repo args`
  pub run : FilePath → List String → World → Completed × World
  pub file_system : World → FileSystem
  pub now_iso : World → String

pub record State (H : Host) : Type 0 where
  pub files : TaskFiles
  pub world : H.World

abbrev pub Exec : Host → Type 0 → Type 0
Exec H A = State H → Result A × State H

module _ {H : Host} where
  unfoldable pub pure : {A : Type 0} → A → Exec H A
  pure a s = (ok a, s)

  unfoldable pub raise : {A : Type 0} → Error → Exec H A
  raise e s = (err e, s)

  -- A function that changes nothing.
  unfoldable pub lift : {A : Type 0} → Result A → Exec H A
  lift r s = (r, s)

  unfoldable pub gets : {A : Type 0} → (State H → A) → Exec H A
  gets f s = (ok (f s), s)

  abbrev pub continue : {A B : Type 0} → (A → Exec H B) → Result A × State H → Result B × State H
  continue f (ok a, s) = f a s
  continue f (err e, s) = (err e, s)

  infixl 5 ◌>>=◌ ◌>>◌
  unfoldable pub ◌>>=◌ : {A B : Type 0} → Exec H A → (A → Exec H B) → Exec H B
  ◌>>=◌ m f s = continue f (m s)

  abbrev pub ◌>>◌ : {B : Type 0} → Exec H (Unit {0}) → Exec H B → Exec H B
  m >> k = m >>= λ _. k

  -- `if not b: raise e`
  unfoldable pub require : Bool → Error → Exec H (Unit {0})
  require true e s = (ok tt, s)
  require false e s = (err e, s)

  -- `git(repo, *args, check=False)`
  unfoldable pub git_unchecked : FilePath → List String → Exec H Completed
  git_unchecked repo args s =
      let (done, world) = H.run repo args s.world in (ok done, record s { world = world })

  -- `git(repo, *args)` and `git_text`
  unfoldable pub git : FilePath → List String → Exec H String
  git repo args s =
      let (done, world) = H.run repo args s.world in
      let t : State H = record s { world = world } in
      if done.returncode == 0 then (ok done.stdout, t) else (err (failure "CalledProcessError"), t)

  unfoldable pub path_exists : FilePath → Exec H Bool
  path_exists path s = (ok ((H.file_system s.world).exists path), s)

  unfoldable pub now_iso : Exec H String
  now_iso s = (ok (H.now_iso s.world), s)

  unfoldable pub write_json : String → TaskRecord → Exec H (Unit {0})
  unfolding put_file
  write_json name r s = (ok tt, record s { files = put_file name r s.files })
