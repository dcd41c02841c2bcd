-- ===== src/Broker/ProjectOps/Guarded.antt =====
-- When a project is not synchronised, `op_project_sync` of broker/daemon.py.
use codex_cursor_devstack.Base.{
  ◌≤◌, ◌≡◌, refl, String, Bool, true, false, not, some, List, [], ◌∷◌, is_empty, Error, Result, ok,
  err, arith,
}
use codex_cursor_devstack.Base.Value.{Fields}
use codex_cursor_devstack.Core.Paths.{FilePath}
use codex_cursor_devstack.Core.Records.{
  TaskRecord, TaskFiles, find_file, task_records, keep, active_sequential, pending_parallel,
  is_active_sequential, is_pending_parallel, count, count_of_none,
}
use codex_cursor_devstack.Core.Host.{Host, State, Exec, lift, gets, require, ◌>>=◌}
use codex_cursor_devstack.Core.Tasks.{file_system, ensure_git_repo}
use codex_cursor_devstack.Core.Handoff.{Disk}
use codex_cursor_devstack.Broker.ProjectOps.{is_busy, op_project_sync}

-- An integration task that is active, or a parallel task that is not yet merged or aborted.
pub data IsUnfinished (r : TaskRecord) : Type 0 where
  active : r.mode ≡ "integration" → r.status ≡ "active" → IsUnfinished r
  working : r.mode ≡ "parallel" → r.status ≡ "active" → IsUnfinished r
  unmerged : r.mode ≡ "parallel" → r.status ≡ "completed" → IsUnfinished r

count-find_file :
    (test : TaskRecord → Bool) (k : String) (r : TaskRecord) (fs : TaskFiles)
    → find_file k fs ≡ some (some r)
    → test r ≡ true
    → 1 ≤ count test fs
unfolding find_file count
count-find_file test k r [] h t = cc
count-find_file test k r ((j, f) ∷ fs) h t = ground (arith, count-find_file test k r fs)

-- A record that passes the test is among those that `task_records` shows.
keep-find_file :
    (test : TaskRecord → Bool) (k : String) (r : TaskRecord) (fs : TaskFiles)
    → find_file k fs ≡ some (some r)
    → test r ≡ true
    → is_empty (keep test (task_records fs)) ≡ false
keep-find_file test k r fs h t = shown (keep test (task_records fs)) refl
  where
    shown : (rs : List TaskRecord) → keep test (task_records fs) ≡ rs → is_empty rs ≡ false
    shown [] empty = ground (arith, count-find_file test k r fs h t, count_of_none test fs empty)
    shown (x ∷ rs) some_are = refl

busy :
    (k : String) (r : TaskRecord) (fs : TaskFiles)
    → find_file k fs ≡ some (some r)
    → IsUnfinished r
    → is_busy (task_records fs) ≡ true
unfolding active_sequential pending_parallel is_active_sequential is_pending_parallel
busy k r fs h (active m s) =
    ground (arith, keep-find_file is_active_sequential k r fs h (rw (m, s) refl))
busy k r fs h (working m s) =
    ground (arith, keep-find_file is_pending_parallel k r fs h (rw (m, s) refl))
busy k r fs h (unmerged m s) =
    ground (arith, keep-find_file is_pending_parallel k r fs h (rw (m, s) refl))

module _ {H : Host} where
  -- From `s`, the call raises and changes nothing.
  record Refuses {A : Type 0} (s : State H) (m : Exec H A) : Type 0 where
    error : Error
    raises : m s ≡ (err error, s)

  module _ {A B : Type 0} (s : State H) where
    Refuses-lift :
        (r : Result A) (f : A → Exec H B) → ((a : A) → Refuses s (f a)) → Refuses s (lift r >>= f)
    unfolding lift ◌>>=◌
    Refuses-lift (ok a) f h = record { error = (h a).error; raises = (h a).raises }
    Refuses-lift (err e) f h = record { error = e; raises = refl }

    Refuses-gets :
        (g : State H → A) (f : A → Exec H B) → Refuses s (f (g s)) → Refuses s (gets g >>= f)
    unfolding gets ◌>>=◌
    Refuses-gets g f h = record { error = h.error; raises = h.raises }

    Refuses-nested :
        {C : Type 0} (g : State H → C) (k : C → Exec H A) (f : A → Exec H B)
        → Refuses s (k (g s) >>= f)
        → Refuses s ((gets g >>= k) >>= f)
    unfolding gets ◌>>=◌
    Refuses-nested g k f h = record { error = h.error; raises = h.raises }

  module _ {B : Type 0} (s : State H) where
    Refuses-require :
        (b : Bool) (e : Error) (f : Unit {0} → Exec H B)
        → Refuses s (f tt)
        → Refuses s (require b e >>= f)
    unfolding require ◌>>=◌
    Refuses-require true e f h = record { error = h.error; raises = h.raises }
    Refuses-require false e f h = record { error = e; raises = refl }

    Refuses-denied :
        (b : Bool) (e : Error) (f : Unit {0} → Exec H B)
        → b ≡ true
        → Refuses s (require (not b) e >>= f)
    unfolding require ◌>>=◌
    Refuses-denied true e f h = record { error = e; raises = refl }
    Refuses-denied false e f h = cc

module _ {H : Host} (disk : Disk H) (root : FilePath) where
  op_project_sync-Refuses :
      (req : Fields) (s : State H)
      → is_busy (task_records s.files) ≡ true
      → Refuses s (op_project_sync disk root req)
  unfolding op_project_sync file_system ensure_git_repo
  op_project_sync-Refuses req s unfinished = Refuses-lift s _ _ λ project.
      Refuses-lift s _ _ λ bundle_name. Refuses-gets s _ _ (
        Refuses-lift s _ _ λ pp.
          Refuses-nested s _ _ _
            (Refuses-require s _ _ _ (Refuses-gets s _ _ (Refuses-denied s _ _ _ unfinished))))

  -- While the file of some task holds an active integration task, or a parallel task that is active or
  -- completed but not merged, a request to synchronise raises, and has changed nothing: no command has
  -- run and no file is written.
  pub op_project_sync_busy :
      (req : Fields) (s : State H) (file : String) (r : TaskRecord)
      → find_file file s.files ≡ some (some r)
      → IsUnfinished r
      → (e : Error) × (op_project_sync disk root req s ≡ (err e, s))
  op_project_sync_busy req s file r h unfinished =
      let refusal = op_project_sync-Refuses req s (busy file r s.files h unfinished) in
      (refusal.error, refusal.raises)
