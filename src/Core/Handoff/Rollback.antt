-- ===== src/Core/Handoff/Rollback.antt =====
-- What `initialize_agent_repository` of core/git_handoff.py leaves behind.
use mathlib.Core.Path.{subst}
use codex_cursor_devstack.Base.{
  ◌≡◌, ◌∙◌, refl, ap, [], ◌∷◌, String, Bool, true, false, not, ◌||◌, str_eq, eq_iff, Error, Result,
  ok, err, input_error, arith, sym,
}
use codex_cursor_devstack.Core.Paths.{FilePath}
use codex_cursor_devstack.Core.Host.{
  Host, State, Exec, git, pure, continue, ◌>>=◌, ◌>>◌, require, gets,
}
use codex_cursor_devstack.Core.Tasks.{file_system}
use codex_cursor_devstack.Core.Handoff.{
  Disk, call, change, undone, undo_on_error, fill_repository, initialize_agent_repository,
}

module _ {H : Host} where
  -- What is returned comes from a state with this property.
  record Witnessed {A : Type 0} (R : A → State H → Type 0) (m : Exec H A) : Type 0 where
    from : (s : State H) (a : A) → (m s).0 ≡ ok a → (t : State H) × R a t

  continue-Witnessed :
      {A B : Type 0} (R : B → State H → Type 0) (f : A → Exec H B) (r : Result A) (s : State H)
      (b : B)
      → ((a : A) → Witnessed R (f a))
      → (continue f (r, s)).0 ≡ ok b
      → (t : State H) × R b t
  continue-Witnessed R f (ok a) s b h e = (h a).from s b e
  continue-Witnessed R f (err x) s b h e = cc

  Witnessed-bind :
      {A B : Type 0} (R : B → State H → Type 0) (m : Exec H A) (f : A → Exec H B)
      → ((a : A) → Witnessed R (f a))
      → Witnessed R (m >>= f)
  unfolding ◌>>=◌
  Witnessed-bind R m f h = record { from = λ s b e. continue-Witnessed R f (m s).0 (m s).1 b h e }

  -- In state `t`, the head of `repo` is this commit.
  abbrev pub HeadIs : FilePath → String → State H → Type 0
  HeadIs repo commit t =
      let (done, world) = H.run repo ("rev-parse" ∷ "HEAD" ∷ []) t.world in
      (done.returncode ≡ 0) × (done.stdout ≡ commit)

  checked_head :
      (repo : FilePath) (created_from : String) (e : Error)
      → Witnessed
          (λ head t. (head ≡ created_from) × HeadIs repo created_from t)
          (git {H = H} repo ("rev-parse" ∷ "HEAD" ∷ []) >>= λ head.
            require (str_eq head created_from) e >> pure head)
  unfolding git require ◌>>=◌ pure
  checked_head repo created_from e = record {
    from = λ s head h.
        let read = (H.run repo ("rev-parse" ∷ "HEAD" ∷ []) s.world).0.stdout in
        (
          s,
          (
            ground (arith, eq_iff read created_from),
            (ground (arith, eq_iff read created_from), ground (arith, eq_iff read created_from)),
          ),
        );
  }

module _ {H : Host} (disk : Disk H) (agent bundle : FilePath)
    (main_branch created_from : String) where
  fill_repository-Witnessed :
      Witnessed
        (λ head t. (head ≡ created_from) × HeadIs agent created_from t)
        (fill_repository disk agent bundle main_branch created_from)
  unfolding fill_repository
  fill_repository-Witnessed = Witnessed-bind _ _ _ λ _. Witnessed-bind _ _ _ λ _.
      Witnessed-bind _ _ _ λ _. Witnessed-bind _ _ _ λ _. Witnessed-bind _ _ _ λ _.
        Witnessed-bind _ _ _
          λ _. Witnessed-bind _ _ _ λ _. Witnessed-bind _ _ _ λ _. checked_head agent created_from _

  abbrev pub is_there : State H → Bool
  is_there s = (H.file_system s.world).is_symlink agent || (H.file_system s.world).exists agent

  abbrev pub filled : State H → Result String × State H
  filled s = fill_repository disk agent bundle main_branch created_from s

  -- How a call from state `s` can end: refused with nothing changed, since the path is taken; or, where
  -- the path is free, undone by deleting the repository right after the failure, with the bundle that
  -- cannot be deleted, or with the bundle deleted. In the last two the head of the repository has been
  -- `created_from`.
  pub data IsOutcome (s : State H) : Result String × State H → Type 0 where
    refused : (e : Error) → is_there s ≡ true → IsOutcome s (err e, s)
    undone_by :
        (e : Error) (t : State H)
        → is_there s ≡ false
        → filled s ≡ (err e, t)
        → IsOutcome s (err e, record t { world = disk.rmtree agent t.world })
    kept :
        (e : Error) (t seen : State H)
        → is_there s ≡ false
        → filled s ≡ (ok created_from, t)
        → HeadIs agent created_from seen
        → (disk.unlink bundle t.world).0 ≡ err e
        → IsOutcome s (err e, record t { world = (disk.unlink bundle t.world).1 })
    created :
        (t seen : State H)
        → is_there s ≡ false
        → filled s ≡ (ok created_from, t)
        → HeadIs agent created_from seen
        → (disk.unlink bundle t.world).0 ≡ ok tt
        → IsOutcome s (ok created_from, record t { world = (disk.unlink bundle t.world).1 })

  after_unlink :
      (s t seen : State H) (r : Result (Unit {0}))
      → is_there s ≡ false
      → filled s ≡ (ok created_from, t)
      → HeadIs agent created_from seen
      → (disk.unlink bundle t.world).0 ≡ r
      → IsOutcome s (
          continue
            (λ _. pure created_from)
            (r, record t { world = (disk.unlink bundle t.world).1 }))
  unfolding pure
  after_unlink s t seen (ok u) free made head h = created t seen free made head h
  after_unlink s t seen (err e) free made head h = kept e t seen free made head h

  after_fill :
      (s t : State H) (r : Result String)
      → is_there s ≡ false
      → filled s ≡ (r, t)
      → IsOutcome s (
          continue
            (λ head. call (disk.unlink bundle) >> pure head)
            (undone (change (disk.rmtree agent)) (r, t)))
  unfolding call change ◌>>=◌
  after_fill s t (ok head) free made =
      let (seen, found) = fill_repository-Witnessed.from s head (ap (λ x. x.0) made) in
      subst
        (λ x. IsOutcome s (
          continue (λ _. pure x)
            ((disk.unlink bundle t.world).0, record t { world = (disk.unlink bundle t.world).1 })))
        (sym found.0)
        (after_unlink s t seen (disk.unlink bundle t.world).0 free
          (made ∙ ap (λ x. (ok x, t)) found.0) found.1 refl)
  after_fill s t (err e) free made = undone_by e t free made

  after_check :
      (s : State H) (there : Bool)
      → is_there s ≡ there
      → IsOutcome s (
          (require (not there) (input_error "agent repository already exists")
              >> (undo_on_error
                    (fill_repository disk agent bundle main_branch created_from)
                    (change (disk.rmtree agent))
                  >>= λ head. call (disk.unlink bundle) >> pure head))
            s)
  unfolding require ◌>>=◌ undo_on_error
  after_check s true h = refused (input_error "agent repository already exists") h
  after_check s false h = after_fill s (filled s).1 (filled s).0 h refl

  -- Where there is something at the path, a call is refused and changes nothing. Where there is
  -- nothing, a call that fails while it fills the repository deletes it right then; a call that
  -- returns has found the recorded commit at the head of the repository, and has deleted the bundle.
  pub initialize_agent_repository-IsOutcome :
      (s : State H)
      → IsOutcome s (initialize_agent_repository disk agent bundle main_branch created_from s)
  unfolding initialize_agent_repository file_system ◌>>=◌ gets
  initialize_agent_repository-IsOutcome s = after_check s _ refl
