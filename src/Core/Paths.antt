-- ===== src/Core/Paths.antt =====
-- Paths and the file-system boundary of core/validation.py. A resolved path is a list of
-- components from the root. The file system is a parameter.
use codex_cursor_devstack.Base.{
  not-true, ◌≡◌, String, ◌<>◌, Bool, true, false, not, ◌&&◌, Option, none, some, List, [], ◌∷◌,
  ◌++◌, str_eq, Result, ok, err, value_error, failure, ◌>>=◌, ◌>>◌, guard, guard-true, Ensures,
  Ensures-ok, Ensures-bind, arith,
}

abbrev pub FilePath : Type 0
FilePath = List String

-- `path / name`
abbrev pub child : FilePath → String → FilePath
child path name = path ++ (name ∷ [])

-- What the code asks of the file system.
pub record FileSystem : Type 0 where
  pub exists : FilePath → Bool
  pub is_symlink : FilePath → Bool
  pub is_dir : FilePath → Bool
  pub is_file : FilePath → Bool
  -- `path.resolve(strict=True)`, or nothing where that raises
  pub resolve : FilePath → Option FilePath

-- `resolved.relative_to(root)` does not raise
unfoldable pub is_under : FilePath → FilePath → Bool
is_under [] path = true
is_under (r ∷ root) [] = false
is_under (r ∷ root) (p ∷ path) = str_eq r p && is_under root path

module _ (fs : FileSystem) where
  unfoldable pub resolve_strict : FilePath → Result FilePath
  resolve_strict path = elim (fs.resolve path) [
    | none ↦ err (failure "path does not resolve")
    | some p ↦ ok p
  ]

  unfoldable pub ensure_under : FilePath → FilePath → Result FilePath
  ensure_under path root = do
    resolved ← resolve_strict path
    root_resolved ← resolve_strict root
    guard (is_under root_resolved resolved) (value_error "path escapes allowed root")
    ok resolved

  unfoldable pub canonical_dir : FilePath → FilePath → String → Result FilePath
  canonical_dir path root label = do
    guard (not (fs.is_symlink path)) (value_error (label <> " must not be a symlink"))
    resolved ← ensure_under path root
    guard (fs.is_dir resolved) (value_error (label <> " is not a directory"))
    ok resolved

  unfoldable pub canonical_file : FilePath → FilePath → String → Result FilePath
  canonical_file path root label = do
    guard (not (fs.is_symlink path)) (value_error (label <> " must not be a symlink"))
    resolved ← ensure_under path root
    guard (fs.is_file resolved) (value_error (label <> " is not a regular file"))
    ok resolved

  -- `resolved` is where `path` leads, below where `root` leads.
  pub record IsContained (path root resolved : FilePath) : Type 0 where
    pub leads : fs.resolve path ≡ some resolved
    pub top : FilePath
    pub root_leads : fs.resolve root ≡ some top
    pub below : is_under top resolved ≡ true

  resolve_strict_leads : (path p : FilePath) → resolve_strict path ≡ ok p → fs.resolve path ≡ some p
  unfolding resolve_strict
  resolve_strict_leads path p h = ground arith

  ensure_under-IsContained :
      (path root : FilePath) → Ensures (IsContained path root) (ensure_under path root)
  unfolding ensure_under
  ensure_under-IsContained path root = Ensures-bind _ _ λ p hp. Ensures-bind _ _ λ t ht.
      Ensures-bind _ _ λ _ hu. Ensures-ok p (record {
        leads = resolve_strict_leads path p hp;
        top = t;
        root_leads = resolve_strict_leads root t ht;
        below = guard-true _ _ _ hu;
      })

  pub canonical_dir-Ensures :
      (path root : FilePath) (label : String)
      → Ensures
          (λ p. IsContained path root p × (fs.is_dir p ≡ true) × (not (fs.is_symlink path) ≡ true))
          (canonical_dir path root label)
  unfolding canonical_dir
  canonical_dir-Ensures path root label = Ensures-bind _ _ λ _ hs. Ensures-bind _ _ λ p hp.
      Ensures-bind _ _ λ _ hd.
        Ensures-ok p
          ((ensure_under-IsContained path root).at p hp, guard-true _ _ _ hd, guard-true _ _ _ hs)

  pub canonical_file-Ensures :
      (path root : FilePath) (label : String)
      → Ensures
          (λ p. IsContained path root p × (fs.is_file p ≡ true) × (not (fs.is_symlink path) ≡ true))
          (canonical_file path root label)
  unfolding canonical_file
  canonical_file-Ensures path root label = Ensures-bind _ _ λ _ hs. Ensures-bind _ _ λ p hp.
      Ensures-bind _ _ λ _ hd.
        Ensures-ok p
          ((ensure_under-IsContained path root).at p hp, guard-true _ _ _ hd, guard-true _ _ _ hs)

  -- A path that `canonical_dir` returns is a directory, is where the given path leads, which is no
  -- symlink, and lies below where the root leads.
  pub canonical_dir-IsContained :
      (path root : FilePath) (label : String) (p : FilePath)
      → canonical_dir path root label ≡ ok p
      → IsContained path root p × (fs.is_dir p ≡ true) × (fs.is_symlink path ≡ false)
  canonical_dir-IsContained path root label p h =
      let (contained, dir, plain) = (canonical_dir-Ensures path root label).at p h in
      (contained, dir, not-true (fs.is_symlink path) plain)

  -- A path that `canonical_file` returns is a regular file, is where the given path leads, which is
  -- no symlink, and lies below where the root leads.
  pub canonical_file-IsContained :
      (path root : FilePath) (label : String) (p : FilePath)
      → canonical_file path root label ≡ ok p
      → IsContained path root p × (fs.is_file p ≡ true) × (fs.is_symlink path ≡ false)
  canonical_file-IsContained path root label p h =
      let (contained, file, plain) = (canonical_file-Ensures path root label).at p h in
      (contained, file, not-true (fs.is_symlink path) plain)
