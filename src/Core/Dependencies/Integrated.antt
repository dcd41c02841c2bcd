-- ===== src/Core/Dependencies/Integrated.antt =====
-- Dependencies that pass, core/dependencies.py, have been integrated.
use codex_cursor_devstack.Base.{
  ◌≡◌, refl, ap, ◌∙◌, String, false, Option, none, some, List, [], ◌∷◌, All, str_eq, Result, ok,
  err, arith, ok-injective, eq_iff, Bool-cases, inl, inr, ◌<>◌,
}
use mathlib.Core.Path.{subst}
use codex_cursor_devstack.Base.Value.{Value}
use codex_cursor_devstack.Core.Paths.{FilePath}
use codex_cursor_devstack.Core.Names.{valid_name-eq-ok}
use codex_cursor_devstack.Core.Records.{TaskRecord, TaskFiles, find_file, file_name}
use codex_cursor_devstack.Core.Host.{
  Host, State, Exec, continue, ◌>>=◌, lift, gets, git_unchecked, require,
}
use codex_cursor_devstack.Core.Projects.{ProjectPaths}
use codex_cursor_devstack.Core.Dependencies.{
  required_commit, recorded, read_dependency, require_ancestor, validate_dependency,
  validate_dependencies,
}
use codex_cursor_devstack.Core.Host.Effects.{Leaves, leaves_rules}

-- The commit with which a task came into the integration branch.
pub data CameIn (r : TaskRecord) (commit : String) : Type 0 where
  by_merge :
      r.mode ≡ "parallel" → r.status ≡ "merged" → r.merge_commit ≡ some commit → CameIn r commit
  in_place :
      r.mode ≡ "integration"
      → r.status ≡ "completed"
      → r.head_commit ≡ some commit
      → CameIn r commit

-- The record of `dependency` and its commit, which Git calls an ancestor of `base`.
pub record IsIntegrated (H : Host) (agent : FilePath) (base : String) (files : TaskFiles)
    (dependency : String) : Type 0 where
  pub found : TaskRecord
  pub commit : String
  pub recorded_as : find_file (dependency <> ".json") files ≡ some (some found)
  pub came_in : CameIn found commit
  pub not_blank : str_eq commit "" ≡ false
  pub asked : H.World
  pub ancestor :
      (H.run agent ("merge-base" ∷ "--is-ancestor" ∷ commit ∷ base ∷ []) asked).0.returncode ≡ 0

required_commit-CameIn :
    (r : TaskRecord) (commit : String) → required_commit r ≡ ok (some commit) → CameIn r commit
unfolding required_commit
required_commit-CameIn r commit h = elim (Bool-cases (str_eq r.mode "parallel")) [
  | inl parallel ↦
      by_merge ((eq_iff r.mode "parallel").0 parallel) ((eq_iff r.status "merged").0 (ground arith))
        (ground arith)
  | inr other ↦
      in_place ((eq_iff r.mode "integration").0 (ground arith))
        ((eq_iff r.status "completed").0 (ground arith)) (ground arith)
]

read_dependency-eq-ok :
    (file : Option (Option TaskRecord)) (r : TaskRecord)
    → read_dependency file ≡ ok r
    → file ≡ some (some r)
unfolding read_dependency
read_dependency-eq-ok none r h = cc
read_dependency-eq-ok (some none) r h = cc
read_dependency-eq-ok (some (some old)) r h = ap (λ x. some (some x)) (ok-injective old r h)

recorded-eq-ok :
    (commit : Option String) (c : String)
    → recorded commit ≡ ok c
    → (commit ≡ some c) × (str_eq c "" ≡ false)
unfolding recorded
recorded-eq-ok none c h = cc
recorded-eq-ok (some d) c h = ground arith

module _ {H : Host} where
  continue-eq-ok :
      {A B : Type 0} (f : A → Exec H B) (r : Result A) (s : State H) {b : B}
      → (continue f (r, s)).0 ≡ ok b
      → (a : A) × (r ≡ ok a) × ((f a s).0 ≡ ok b)
  continue-eq-ok f (ok a) s h = (a, refl, h)
  continue-eq-ok f (err e) s h = cc

  bind-eq-ok :
      {A B : Type 0} (m : Exec H A) (f : A → Exec H B) (s : State H) {b : B}
      → ((m >>= f) s).0 ≡ ok b
      → (a : A) × ((m s).0 ≡ ok a) × ((f a (m s).1).0 ≡ ok b)
  unfolding ◌>>=◌
  bind-eq-ok m f s h = continue-eq-ok f (m s).0 (m s).1 h

  lift-eq-ok :
      {A B : Type 0} (r : Result A) (f : A → Exec H B) (s : State H) {b : B}
      → ((lift r >>= f) s).0 ≡ ok b
      → (a : A) × (r ≡ ok a) × ((f a s).0 ≡ ok b)
  unfolding ◌>>=◌ lift
  lift-eq-ok r f s h = continue-eq-ok f r s h

  gets-eq-ok :
      {A B : Type 0} (g : State H → A) (f : A → Exec H B) (s : State H) {b : B}
      → ((gets g >>= f) s).0 ≡ ok b
      → (f (g s) s).0 ≡ ok b
  unfolding ◌>>=◌ gets
  gets-eq-ok g f s h = h

  validate_dependency-Leaves :
      (pp : ProjectPaths) (base d : String) → Leaves {H = H} (validate_dependency pp base d)
  unfolding validate_dependency require_ancestor
  validate_dependency-Leaves pp base d = search leaves_rules depth 12

  pub validate_dependencies-Leaves :
      (pp : ProjectPaths) (base : String) (ds : List String)
      → Leaves {H = H} (validate_dependencies pp base ds)
  unfolding validate_dependencies
  validate_dependencies-Leaves pp base [] = search leaves_rules
  validate_dependencies-Leaves pp base (d ∷ ds) =
      search (
        leaves_rules,
        validate_dependency-Leaves pp base d,
        validate_dependencies-Leaves pp base ds,
      )

  require_ancestor-returncode :
      (pp : ProjectPaths) (base commit : String) (s : State H)
      → (require_ancestor pp base commit s).0 ≡ ok tt
      → (H.run pp.agent ("merge-base" ∷ "--is-ancestor" ∷ commit ∷ base ∷ []) s.world).0.returncode
        ≡ 0
  unfolding require_ancestor git_unchecked ◌>>=◌ require
  require_ancestor-returncode pp base commit s h = ground arith

  validate_dependency-IsIntegrated :
      (pp : ProjectPaths) (base dependency : String) (s : State H)
      → (validate_dependency pp base dependency s).0 ≡ ok tt
      → IsIntegrated H pp.agent base s.files dependency
  unfolding validate_dependency
  validate_dependency-IsIntegrated pp base dependency s h =
      let (name, named, h1) = lift-eq-ok _ _ s h in
      let h2 = gets-eq-ok _ _ s h1 in
      let (r, read, h3) = lift-eq-ok _ _ s h2 in
      let (commit, required, h4) = lift-eq-ok _ _ s h3 in
      let (c, noted, h5) = lift-eq-ok _ _ s h4 in
      let (same, not_blank) = recorded-eq-ok commit c noted in
      record {
        found = r;
        commit = c;
        recorded_as =
            ap (λ d. find_file (file_name d) s.files)
              (valid_name-eq-ok (Value.text dependency) _ name named)
            ∙ read_dependency-eq-ok _ r read;
        came_in = required_commit-CameIn r c (required ∙ ap ok same);
        not_blank = not_blank;
        asked = s.world;
        ancestor = require_ancestor-returncode pp base c s h5;
      }

  -- If the dependencies of a new task pass, each of them is a merged parallel task with its merge
  -- commit or a completed integration task with its head commit, and Git has called that commit an
  -- ancestor of the new task's base.
  pub validate_dependencies-IsIntegrated :
      (pp : ProjectPaths) (base : String) (dependencies : List String) (s : State H)
      → (validate_dependencies pp base dependencies s).0 ≡ ok tt
      → All (IsIntegrated H pp.agent base s.files) dependencies
  unfolding validate_dependencies
  validate_dependencies-IsIntegrated pp base [] s h = tt
  validate_dependencies-IsIntegrated pp base (d ∷ ds) s h =
      let (u, first, rest) = bind-eq-ok _ _ s h in
      (
        validate_dependency-IsIntegrated pp base d s first,
        subst (λ files. All (IsIntegrated H pp.agent base files) ds)
            ((validate_dependency-Leaves pp base d).at s)
            (validate_dependencies-IsIntegrated pp base ds (validate_dependency pp base d s).1
              rest),
      )
