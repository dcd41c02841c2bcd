-- ===== src/Runtime/Session/Signals.antt =====
-- The escalation of signals in `terminate_process_group` of runtime/podman.py.
use codex_cursor_devstack.Base.{ℕ, suc, ◌≡◌, refl, ◌≢◌, none, List, [], ◌∷◌}
use codex_cursor_devstack.Runtime.Session.{
  Signal, sigint, sigterm, sigkill, Answer, gone, ends, outlasts, terminate_process_group,
}

-- From the mildest signal to the harshest.
abbrev pub harshness : Signal → ℕ
harshness sigint = 0
harshness sigterm = 1
harshness sigkill = 2

-- The signals from the one of this harshness on: each is followed by the next harsher one exactly if
-- the process outlasts it.
pub data Escalates (answer : Signal → Answer) : ℕ → List Signal → Type 0 where
  last : (s : Signal) → answer s ≢ outlasts → Escalates answer (harshness s) (s ∷ [])
  next :
      (s : Signal) (later : List Signal)
      → answer s ≡ outlasts
      → Escalates answer (suc (harshness s)) later
      → Escalates answer (harshness s) (s ∷ later)

gone-ne-outlasts : gone ≢ outlasts
gone-ne-outlasts h = cc

ends-ne-outlasts : ends ≢ outlasts
ends-ne-outlasts h = cc

-- If SIGKILL ends a running process, it is sent SIGINT, and SIGTERM and SIGKILL in that order exactly
-- as long as it outlasts the signal before; the last one ends it.
pub terminate_process_group-Escalates :
    (answer : Signal → Answer)
    → answer sigkill ≢ outlasts
    → Escalates answer 0 (terminate_process_group none answer)
unfolding terminate_process_group
terminate_process_group-Escalates answer killed = after_int (answer sigint) refl
  where
    after_term :
        (a : Answer)
        → answer sigterm ≡ a
        → Escalates answer 1 (elim a [ outlasts ↦ sigterm ∷ sigkill ∷ [] | _ ↦ sigterm ∷ [] ])
    after_term gone h = last sigterm (rw h gone-ne-outlasts)
    after_term ends h = last sigterm (rw h ends-ne-outlasts)
    after_term outlasts h = next sigterm (sigkill ∷ []) h (last sigkill killed)

    after_int :
        (a : Answer)
        → answer sigint ≡ a
        → Escalates answer 0 (elim a [
          | outlasts ↦
              sigint
              ∷ elim (answer sigterm) [ outlasts ↦ sigterm ∷ sigkill ∷ [] | _ ↦ sigterm ∷ [] ]
          | _ ↦ sigint ∷ []
        ])
    after_int gone h = last sigint (rw h gone-ne-outlasts)
    after_int ends h = last sigint (rw h ends-ne-outlasts)
    after_int outlasts h = next sigint _ h (after_term (answer sigterm) refl)
