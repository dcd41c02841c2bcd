-- ===== src/Broker/TaskOps/Locks.antt =====
-- The two locks of a merge and of an abort.
use codex_cursor_devstack.Base.{
  ◌≡◌, ◌≢◌, refl, sym, ap, ◌∙◌, String, Bool, true, false, not, [], ◌∷◌, Error, Result, ok, err,
  arith, ok-injective, eq_refl, eq_iff,
}
use codex_cursor_devstack.Base.Value.{Value, Fields}
use codex_cursor_devstack.Core.Names.{text_of, valid_name-eq-ok}
use codex_cursor_devstack.Core.Paths.{FilePath}
use codex_cursor_devstack.Core.Records.{TaskRecord}
use codex_cursor_devstack.Core.Host.{Host, State, Exec, continue, ◌>>=◌, lift, require}
use codex_cursor_devstack.Core.Projects.{ProjectPaths}
use codex_cursor_devstack.Core.Locking.{integration_lock, lock_path, lock_path_injective}
use codex_cursor_devstack.Broker.TaskOps.{get, path_eq, is_held, with_locks, op_task_merge}

path_eq_refl : (p : FilePath) → path_eq p p ≡ true
unfolding path_eq
path_eq_refl [] = refl
path_eq_refl (x ∷ xs) = rw (eq_refl, path_eq_refl xs) refl

held_again :
    (found : Result FilePath) (path again : FilePath)
    → found ≡ ok path
    → found ≡ ok again
    → not (is_held (path ∷ []) again) ≡ false
unfolding is_held
held_again found path again first second =
    let same = ok-injective path again (sym first ∙ second) in rw (sym same, path_eq_refl path) refl

path_eq_sound : (p q : FilePath) → path_eq p q ≡ true → p ≡ q
unfolding path_eq
path_eq_sound [] [] h = refl
path_eq_sound [] (y ∷ ys) h = cc
path_eq_sound (x ∷ xs) [] h = cc
path_eq_sound (x ∷ xs) (y ∷ ys) h = ground (arith, eq_iff x y, path_eq_sound xs ys)

free_again : (path again : FilePath) → path ≢ again → not (is_held (path ∷ []) again) ≡ true
unfolding is_held
free_again path again h = ground (arith, path_eq_sound path again)

module _ {H : Host} where
  -- A call that never returns a value.
  record Stops {A : Type 0} (m : Exec H A) : Type 0 where
    at : (s : State H) (a : A) → (m s).0 ≢ ok a

  continue-Stops :
      {A B : Type 0} (f : B → Exec H A) (r : Result B) (s : State H)
      → ((b : B) → r ≡ ok b → Stops (f b))
      → (a : A) → (continue f (r, s)).0 ≢ ok a
  continue-Stops f (ok b) s h a e = (h b refl).at s a e
  continue-Stops f (err x) s h a e = cc

  Stops-after :
      {A B : Type 0} (m : Exec H B) (f : B → Exec H A) → ((b : B) → Stops (f b)) → Stops (m >>= f)
  unfolding ◌>>=◌
  Stops-after m f h = record { at = λ s a. continue-Stops f (m s).0 (m s).1 (λ b _. h b) a }

  Stops-lift :
      {A B : Type 0} (r : Result B) (f : B → Exec H A)
      → ((b : B) → r ≡ ok b → Stops (f b))
      → Stops (lift r >>= f)
  unfolding ◌>>=◌ lift
  Stops-lift r f h = record { at = λ s a. continue-Stops f r s h a }

  Stops-require :
      {A : Type 0} (b : Bool) (e : Error) (f : Unit {0} → Exec H A)
      → b ≡ false
      → Stops (require b e >>= f)
  unfolding ◌>>=◌ require
  Stops-require true e f h = cc
  Stops-require false e f h = record { at = λ s a k. cc }

  same_lock_twice :
      {A : Type 0} (pp : ProjectPaths) (name other : String) (body : Exec H A)
      → name ≡ other
      → Stops (with_locks pp [] (name ∷ other ∷ []) body)
  unfolding with_locks
  same_lock_twice pp name other body same = Stops-lift _ _ λ path first. Stops-after _ _ λ _.
      Stops-lift _ _ λ again second.
        Stops-require _ _ _
          (held_again _ _ _ (ap (λ n. lock_path pp (Value.text n)) (sym same) ∙ first) second)

  -- A merge of a task that is called `integration` returns nothing, from any state: the lock of the
  -- task is the integration lock, which the request holds already.
  pub op_task_merge_integration :
      (root : FilePath) (req : Fields) (s : State H) (r : TaskRecord)
      → get "task" Value.null req ≡ Value.text integration_lock
      → (op_task_merge root req s).0 ≢ ok r
  unfolding op_task_merge
  op_task_merge_integration root req s r named =
      (Stops-lift _ _ λ project _. Stops-lift _ _ λ task valid. Stops-after _ _ λ loaded.
          Stops-after _ _ λ _. same_lock_twice _ _ _ _ (
            sym (ap text_of named)
            ∙ valid_name-eq-ok (get "task" Value.null req) "task" task valid)).at
        s r

  -- Two locks with different names that have lock files are both taken, and what runs under them is what runs.
  with_two_locks :
      {A : Type 0} (pp : ProjectPaths) (a b : String) (p q : FilePath) (body : Exec H A)
      (s : State H)
      → a ≢ b
      → lock_path pp (Value.text a) ≡ ok p
      → lock_path pp (Value.text b) ≡ ok q
      → with_locks pp [] (a ∷ b ∷ []) body s ≡ body s
  unfolding with_locks is_held ◌>>=◌ lift require
  with_two_locks pp a b p q body s apart first second =
      rw
        (
          first,
          second,
          free_again p q λ same. apart (lock_path_injective pp a b q (first ∙ ap ok same) second),
        )
        refl
