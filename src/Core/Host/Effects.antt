-- ===== src/Core/Host/Effects.antt =====
-- Which calls leave the task files alone, and what a call leaves behind, when it returns and when it
-- raises.
use mathlib.Core.Path.{subst}
use codex_cursor_devstack.Base.{
  ◌≡◌, refl, sym, ◌∙◌, String, Bool, true, false, List, Error, ok-injective, Result, ok, err,
  if◌then◌else◌, arith,
}
use codex_cursor_devstack.Core.Paths.{FilePath}
use codex_cursor_devstack.Core.Records.{TaskRecord, TaskFiles, put_file}
use codex_cursor_devstack.Core.Host.{
  Host, State, Exec, pure, raise, lift, gets, continue, ◌>>=◌, ◌>>◌, require, git_unchecked, git,
  path_exists, now_iso, write_json,
}

module _ {H : Host} where
  pub record Leaves {A : Type 0} (m : Exec H A) : Type 0 where
    pub at : (s : State H) → (m s).1.files ≡ s.files

  pub Leaves-pure : {A : Type 0} (a : A) → Leaves (pure a)
  unfolding pure
  Leaves-pure a = record { at = λ s. refl }

  pub Leaves-raise : {A : Type 0} (e : Error) → Leaves (raise {A = A} e)
  unfolding raise
  Leaves-raise e = record { at = λ s. refl }

  pub Leaves-lift : {A : Type 0} (r : Result A) → Leaves (lift r)
  unfolding lift
  Leaves-lift r = record { at = λ s. refl }

  pub Leaves-gets : {A : Type 0} (f : State H → A) → Leaves (gets f)
  unfolding gets
  Leaves-gets f = record { at = λ s. refl }

  pub Leaves-require : (b : Bool) (e : Error) → Leaves (require b e)
  unfolding require
  Leaves-require true e = record { at = λ s. refl }
  Leaves-require false e = record { at = λ s. refl }

  pub Leaves-git_unchecked :
      (repo : FilePath) (args : List String) → Leaves (git_unchecked repo args)
  unfolding git_unchecked
  Leaves-git_unchecked repo args = record { at = λ s. refl }

  pub Leaves-git : (repo : FilePath) (args : List String) → Leaves (git repo args)
  unfolding git
  Leaves-git repo args = record { at = λ s. ground arith }

  pub Leaves-path_exists : (path : FilePath) → Leaves (path_exists path)
  unfolding path_exists
  Leaves-path_exists path = record { at = λ s. refl }

  pub Leaves-now_iso : Leaves now_iso
  unfolding now_iso
  Leaves-now_iso = record { at = λ s. refl }

  pub Leaves-if :
      {A : Type 0} (b : Bool) (m n : Exec H A) → Leaves m → Leaves n → Leaves (if b then m else n)
  Leaves-if true m n hm hn = hm
  Leaves-if false m n hm hn = hn

  continue-files :
      {A B : Type 0} (f : A → Exec H B) (r : Result A) (s : State H)
      → ((a : A) → Leaves (f a))
      → (continue f (r, s)).1.files ≡ s.files
  continue-files f (ok a) s h = (h a).at s
  continue-files f (err e) s h = refl

  pub Leaves-bind :
      {A B : Type 0} (m : Exec H A) (f : A → Exec H B)
      → Leaves m
      → ((a : A) → Leaves (f a))
      → Leaves (m >>= f)
  unfolding ◌>>=◌
  Leaves-bind m f hm hf = record { at = λ s. continue-files f (m s).0 (m s).1 hf ∙ hm.at s }

  -- What `m` returns has `R`.
  pub record Returns {A : Type 0} (R : A → Type 0) (m : Exec H A) : Type 0 where
    pub at : (s : State H) (a : A) → (m s).0 ≡ ok a → R a

  continue-Returns :
      {A B : Type 0} (R : B → Type 0) (f : A → Exec H B) (r : Result A) (s : State H) (b : B)
      → ((a : A) → Returns R (f a))
      → (continue f (r, s)).0 ≡ ok b
      → R b
  continue-Returns R f (ok a) s b h e = (h a).at s b e
  continue-Returns R f (err x) s b h e = cc

  pub Returns-bind :
      {A B : Type 0} (R : B → Type 0) (m : Exec H A) (f : A → Exec H B)
      → ((a : A) → Returns R (f a))
      → Returns R (m >>= f)
  unfolding ◌>>=◌
  Returns-bind R m f h = record { at = λ s b e. continue-Returns R f (m s).0 (m s).1 b h e }

  pub Returns-lift :
      {A B : Type 0} (R : B → Type 0) (m : Result A) (f : A → Exec H B)
      → ((a : A) → m ≡ ok a → Returns R (f a))
      → Returns R (lift m >>= f)
  unfolding ◌>>=◌ lift
  Returns-lift R (ok a) f h = record { at = (h a refl).at }
  Returns-lift R (err e) f h = record { at = λ s b k. cc }

  pub Returns-last :
      {A : Type 0} (R : A → Type 0) (m : Result A) → ((a : A) → m ≡ ok a → R a) → Returns R (lift m)
  unfolding lift
  Returns-last R m h = record { at = λ s a k. h a k }

pub ruleset leaves_rules = (
  Leaves-pure, Leaves-raise, Leaves-lift, Leaves-gets, Leaves-require, Leaves-git_unchecked,
  Leaves-git, Leaves-path_exists, Leaves-now_iso, Leaves-if, Leaves-bind,
)

-- From task files `before`, a call that raises leaves them, and one that returns `a` leaves files
-- with `Q a`.
pub record Writes {H : Host} {A : Type 0} (before : TaskFiles) (Q : A → TaskFiles → Type 0)
    (m : Exec H A) : Type 0 where
  pub done : (s : State H) (a : A) → s.files ≡ before → (m s).0 ≡ ok a → Q a (m s).1.files
  pub fails :
      (s : State H) (e : Error) → s.files ≡ before → (m s).0 ≡ err e → (m s).1.files ≡ before

module _ {H : Host} {A : Type 0} (before : TaskFiles) (Q : A → TaskFiles → Type 0) where
  pub Writes-files :
      (f : TaskFiles → Exec H A)
      → Writes before Q (f before)
      → Writes before Q (gets (λ (s : State H). s.files) >>= f)
  unfolding ◌>>=◌ gets
  Writes-files f h = record {
    done = λ s a same e.
        subst (λ t. Q a (f t s).1.files) (sym same)
          (h.done s a same (subst (λ t. (f t s).0 ≡ ok a) same e));
    fails = λ s x same e.
        subst (λ t. (f t s).1.files ≡ before) (sym same)
          (h.fails s x same (subst (λ t. (f t s).0 ≡ err x) same e));
  }

  module _ {B : Type 0} where
    continue-Writes :
        (f : B → Exec H A) (r : Result B) (s : State H)
        → s.files ≡ before
        → ((b : B) → r ≡ ok b → Writes before Q (f b))
        → ((a : A) → (continue f (r, s)).0 ≡ ok a → Q a (continue f (r, s)).1.files)
          × ((e : Error) → (continue f (r, s)).0 ≡ err e → (continue f (r, s)).1.files ≡ before)
    continue-Writes f (ok b) s same h =
        (λ a. (h b refl).done s a same, λ e. (h b refl).fails s e same)
    continue-Writes f (err x) s same h = (λ a e. cc, λ e k. same)

    pub Writes-bind :
        (R : B → Type 0) (m : Exec H B) (f : B → Exec H A)
        → Leaves m
        → Returns R m
        → ((b : B) → R b → Writes before Q (f b))
        → Writes before Q (m >>= f)
    unfolding ◌>>=◌
    Writes-bind R m f hm hr hf = record {
      done = λ s a same.
          (continue-Writes f (m s).0 (m s).1 (hm.at s ∙ same) (λ b e. hf b (hr.at s b e))).0 a;
      fails = λ s e same.
          (continue-Writes f (m s).0 (m s).1 (hm.at s ∙ same) (λ b e. hf b (hr.at s b e))).1 e;
    }

    pub Writes-after :
        (m : Exec H B) (f : B → Exec H A)
        → Leaves m
        → ((b : B) → Writes before Q (f b))
        → Writes before Q (m >>= f)
    Writes-after m f hm hf =
        Writes-bind (λ _. Unit) m f hm (record { at = λ s a e. tt }) (λ b _. hf b)

    -- The first part leaves the files and returns a value with `R`.
    pub Writes-then :
        (R : B → Type 0) (m : Exec H B) (f : B → Exec H A)
        → Writes before (λ b after. (after ≡ before) × R b) m
        → ((b : B) → R b → Writes before Q (f b))
        → Writes before Q (m >>= f)
    unfolding ◌>>=◌
    Writes-then R m f hm hf = record {
      done = λ s a same. then_done (m s).0 (m s).1 a (λ b. hm.done s b same);
      fails =
          λ s x same. then_fails (m s).0 (m s).1 x (λ b. hm.done s b same) (λ e. hm.fails s e same);
    }
      where
        then_done :
            (r : Result B) (t : State H) (a : A)
            → ((b : B) → r ≡ ok b → (t.files ≡ before) × R b)
            → (continue f (r, t)).0 ≡ ok a
            → Q a (continue f (r, t)).1.files
        then_done (ok b) t a k = (hf b (k b refl).1).done t a (k b refl).0
        then_done (err e) t a k = λ h. cc

        then_fails :
            (r : Result B) (t : State H) (x : Error)
            → ((b : B) → r ≡ ok b → (t.files ≡ before) × R b)
            → ((e : Error) → r ≡ err e → t.files ≡ before)
            → (continue f (r, t)).0 ≡ err x
            → (continue f (r, t)).1.files ≡ before
        then_fails (ok b) t x k l = (hf b (k b refl).1).fails t x (k b refl).0
        then_fails (err e) t x k l = λ h. l e refl

    pub Writes-gets :
        (g : TaskFiles → B) (f : B → Exec H A)
        → Writes before Q (f (g before))
        → Writes before Q (gets (λ (s : State H). g s.files) >>= f)
    unfolding gets ◌>>=◌
    Writes-gets g f h = Writes-files (λ fs. f (g fs)) h

    pub Writes-lift :
        (r : Result B) (f : B → Exec H A)
        → ((b : B) → r ≡ ok b → Writes before Q (f b))
        → Writes before Q (lift r >>= f)
    Writes-lift r f hf =
        Writes-bind (λ b. r ≡ ok b) (lift r) f (Leaves-lift r)
          (record { at = λ s a e. unfold lift in e }) hf

  pub Writes-json :
      (name : String) (r : TaskRecord) (a : A)
      → Q a (put_file name r before)
      → Writes {H = H} before Q (write_json name r >> pure a)
  unfolding ◌>>=◌ write_json pure
  Writes-json name r a q = record {
    done = λ s b same e.
        subst (λ t. Q b (put_file name r t)) (sym same)
          (subst (λ x. Q x (put_file name r before)) (ok-injective a b e) q);
    fails = λ s b same e. cc;
  }

  pub Writes-pure : (a : A) → Q a before → Writes {H = H} before Q (pure a)
  unfolding pure
  Writes-pure a q = record {
    done = λ s b same e. subst (Q b) (sym same) (subst (λ x. Q x before) (ok-injective a b e) q);
    fails = λ s b same e. cc;
  }

  pub Writes-mono :
      (P : A → TaskFiles → Type 0) (m : Exec H A)
      → Writes before P m
      → ((a : A) (fs : TaskFiles) → P a fs → Q a fs)
      → Writes before Q m
  Writes-mono P m h k = record { done = λ s a same e. k a _ (h.done s a same e); fails = h.fails }
