-- ===== src/Runtime/Session/Deadline.antt =====
-- The deadline of a session, runtime/podman.py: the loop takes no turn after the first one that
-- starts at the deadline or later.
use codex_cursor_devstack.Base.{
  ℕ, ◌+◌, ◌≤◌, ◌≡◌, refl, sym, ap, ◌∙◌, ◌≢◌, true, Option, none, some, List, [], ◌∷◌, ◌++◌, Result,
  ok, err, arith,
}
use codex_cursor_devstack.Base.Value.{ℤ}
use codex_cursor_devstack.Runtime.Session.{
  Round, Session, Run, Action, Ending, timed_out, is_late, turn, write_some, act, ret, ◌>>=◌,
  resume, loop, finish, run_interactive_argv, terminate, after, exit_code,
}

none-ne-some : {A : Type 0} (a : A) → none ≢ some a
none-ne-some a h = cc

-- The loop ends with this turn, whatever comes after.
record Halts (m : Run (Option Ending)) : Type 0 where
  pub ending : Result Ending
  pub halts : (rest : List Action × Option (Result Ending)) → resume m rest ≡ (m.0, some ending)

Halts-ret : (e : Ending) → Halts (ret (some e))
unfolding ret
Halts-ret e = record { ending = ok e; halts = λ rest. refl }

Halts-bind :
    {A : Type 0} (m : Run A) (f : A → Run (Option Ending))
    → ((a : A) → Halts (f a))
    → Halts (m >>= f)
unfolding ◌>>=◌
Halts-bind (before, ok a) f h = Halts-after before (f a) (h a)
  where
    Halts-after :
        (before : List Action) (m : Run (Option Ending)) → Halts m → Halts (after before m)
    Halts-after before (later, ok none) h =
        elim (none-ne-some h.ending (ap (λ x. x.1) (h.halts ([], none)))) [ ]
    Halts-after before (later, ok (some e)) h = record { ending = ok e; halts = λ rest. refl }
    Halts-after before (later, err e) h = record { ending = err e; halts = λ rest. refl }
Halts-bind (before, err e) f h = record { ending = err e; halts = λ rest. refl }

late_turn : (s : Session) (r : Round) → is_late s r.now ≡ true → Halts (turn s r)
unfolding turn
late_turn s r h = rw h (
    Halts-bind (write_some r s.timeout_output) _
      (λ _. Halts-bind (act terminate) _ (λ _. Halts-ret timed_out)))

resume-ends :
    (m : Run (Option Ending)) (rest : List Action × Option (Result Ending)) (end : Result Ending)
    → rest.1 ≡ some end
    → (result : Result Ending) × ((resume m rest).1 ≡ some result)
resume-ends (before, ok none) (later, x) end h = (end, h)
resume-ends (before, ok (some e)) rest end h = (ok e, refl)
resume-ends (before, err e) rest end h = (err e, refl)

loop-Halts :
    (s : Session) (r : Round) (earlier later : List Round)
    → Halts (turn s r)
    → (loop s (earlier ++ (r ∷ later)) ≡ loop s (earlier ++ (r ∷ [])))
      × ((end : Result Ending) × ((loop s (earlier ++ (r ∷ []))).1 ≡ some end))
unfolding loop
loop-Halts s r [] later h = (
  h.halts (loop s later) ∙ sym (h.halts ([], none)),
  (h.ending, ap (λ x. x.1) (h.halts ([], none))),
)
loop-Halts s r (x ∷ xs) later h =
    let (same, (end, stops)) = loop-Halts s r xs later h in
    (ap (resume (turn s x)) same, resume-ends (turn s x) (loop s (xs ++ (r ∷ []))) end stops)

is_late_lem :
    (s : Session) (t now : ℕ)
    → s.timeout_seconds ≡ some t
    → s.start_time + t ≤ now
    → is_late s now ≡ true
unfolding is_late
is_late_lem s t now timeout late = ground arith

finish-ends :
    (status : Option ℤ) (l : List Action × Option (Result Ending)) (end : Result Ending)
    → l.1 ≡ some end
    → (result : Result ℤ) × ((finish status l).1 ≡ some result)
unfolding finish
finish-ends status (actions, none) end h = elim (none-ne-some end h) [ ]
finish-ends status (actions, some (ok ending)) end h = (ok (exit_code ending), refl)
finish-ends status (actions, some (err e)) end h = (err e, refl)

-- A session with a timeout whose loop reaches a turn at the deadline or later ends, returning or
-- raising, in the same way whatever a later turn would see.
pub run_interactive_argv_ends :
    (s : Session) (t : ℕ) (r : Round) (earlier later : List Round) (status : Option ℤ)
    → s.timeout_seconds ≡ some t
    → s.start_time + t ≤ r.now
    → (run_interactive_argv s (earlier ++ (r ∷ later)) status
        ≡ run_interactive_argv s (earlier ++ (r ∷ [])) status)
      × ((result : Result ℤ) × ((run_interactive_argv s (earlier ++ (r ∷ [])) status).1
            ≡ some result))
unfolding run_interactive_argv
run_interactive_argv_ends s t r earlier later status timeout late =
    let (same, (end, stops)) =
      loop-Halts s r earlier later (late_turn s r (is_late_lem s t r.now timeout late)) in
    (ap (finish status) same, finish-ends status (loop s (earlier ++ (r ∷ []))) end stops)
