-- ===== src/Runtime/Session/Transcript.antt =====
-- What a session shows and how it ends, runtime/podman.py, against an independent account of the
-- rounds.
use mathlib.Core.List.{append-nil}
use codex_cursor_devstack.Base.{
  ◌≢◌, ◌≡◌, refl, sym, ap, ◌∙◌, false, Option, none, some, List, [], ◌∷◌, ◌++◌, All, Bool-cases,
  inl, inr, if◌then◌else◌, Result, ok, err,
}
use codex_cursor_devstack.Base.Value.{ℤ}
use codex_cursor_devstack.Runtime.Control.{Bytes}
use codex_cursor_devstack.Runtime.Session.{
  Action, Round, Session, Run, Ending, timed_out, cancelled, exited, is_late, turn, resume, loop,
  finally, finish, exit_code, run_interactive_argv,
}
use codex_cursor_devstack.Runtime.Session.Shows.{
  shown, IsQuiet, asks_cancel, until_end, shown-append, err-ne-ok, Shows, late_turn, cancelled_turn,
  running_turn, exited_turn,
}

abbrev pub account : Round → Option ℤ → Bytes × Option ℤ → Bytes × Option ℤ
account r none (later, code) = (r.data_read ++ later, code)
account r (some c) rest = (r.data_read ++ until_end r.last_reads, some c)

-- The first round that is late, asks to cancel or sees the end of the process decides: the exit code
-- is 124, 130 or that of the process. Until then all that is read is shown.
unfoldable pub transcript : Session → List Round → Bytes × Option ℤ
unfolding until_end
transcript s [] = ([], none)
transcript s (r ∷ rs) =
    let rest = transcript s rs in
    if is_late s r.now
    then (s.timeout_output, some (ℤ.pos 124))
    else if asks_cancel r.receive_control
    then (r.data_read, some (ℤ.pos 130))
    else account r r.status rest

abbrev coded : Option (Result Ending) → Option (Result ℤ)
coded none = none
coded (some (ok ending)) = some (ok (exit_code ending))
coded (some (err e)) = some (err e)

abbrev pub returned : Option ℤ → Option (Result ℤ)
returned none = none
returned (some code) = some (ok code)

-- A loop's actions and result against an account.
abbrev Tells : List Action × Option (Result Ending) → Bytes × Option ℤ → Type 0
Tells l t = (shown l.0 ≡ t.0) × (coded l.1 ≡ returned t.1)

abbrev goes_on : Result (Option Ending)
goes_on = ok none

abbrev stops : Ending → Result (Option Ending)
stops end = ok (some end)

goes_on-ne-stops : (end : Ending) → goes_on ≢ stops end
goes_on-ne-stops end h = cc

stops_injective : (e f : Ending) → stops e ≡ stops f → e ≡ f
stops_injective e f h = cc

resume_ends :
    (m : Run (Option Ending)) (rest : List Action × Option (Result Ending)) (bytes : Bytes)
    (end : Ending)
    → Shows m bytes (some end)
    → Tells (resume m rest) (bytes, some (exit_code end))
resume_ends (before, ok none) rest bytes end h = elim (goes_on-ne-stops end h.returns) [ ]
resume_ends (before, ok (some e)) rest bytes end h =
    (h.shows, ap (λ x. coded (some (ok x))) (stops_injective e end h.returns))
resume_ends (before, err e) rest bytes end h = elim (err-ne-ok e (some end) h.returns) [ ]

resume_runs :
    (m : Run (Option Ending)) (rest : List Action × Option (Result Ending)) (bytes : Bytes)
    (t : Bytes × Option ℤ)
    → Shows m bytes none
    → Tells rest t
    → Tells (resume m rest) (bytes ++ t.0, t.1)
resume_runs (before, ok none) (later, result) bytes t h k =
    (rw (shown-append before later, h.shows, k.0) refl, k.1)
resume_runs (before, ok (some e)) rest bytes t h k = elim (goes_on-ne-stops e (sym h.returns)) [ ]
resume_runs (before, err e) rest bytes t h k = elim (err-ne-ok e none h.returns) [ ]

account-Tells :
    (s : Session) (r : Round) (quiet : IsQuiet r) (l : List Action × Option (Result Ending))
    (t : Bytes × Option ℤ) (status : Option ℤ)
    → r.status ≡ status
    → is_late s r.now ≡ false
    → asks_cancel r.receive_control ≡ false
    → Tells l t
    → Tells (resume (turn s r) l) (account r status t)
unfolding exit_code
account-Tells s r quiet l t none e early kept h =
    resume_runs (turn s r) l r.data_read t (running_turn s r quiet early kept e) h
account-Tells s r quiet l t (some code) e early kept h =
    resume_ends (turn s r) l (r.data_read ++ until_end r.last_reads) (exited code)
      (exited_turn s r quiet code early kept e)

-- One round more.
abbrev decided : Session → Round → Bytes × Option ℤ → Bytes × Option ℤ
decided s r rest =
    if is_late s r.now
    then (s.timeout_output, some (ℤ.pos 124))
    else if asks_cancel r.receive_control
    then (r.data_read, some (ℤ.pos 130))
    else account r r.status rest

turn-Tells :
    (s : Session) (r : Round) (quiet : IsQuiet r) (l : List Action × Option (Result Ending))
    (t : Bytes × Option ℤ)
    → Tells l t
    → Tells (resume (turn s r) l) (decided s r t)
unfolding exit_code
turn-Tells s r quiet l t h = elim (Bool-cases (is_late s r.now)) [
  | inl late ↦
      rw late (resume_ends (turn s r) l s.timeout_output timed_out (late_turn s r quiet late))
  | inr early ↦ elim (Bool-cases (asks_cancel r.receive_control)) [
    | inl cancels ↦
        rw (early, cancels)
          (resume_ends (turn s r) l r.data_read cancelled (cancelled_turn s r quiet early cancels))
    | inr kept ↦ rw (early, kept) (account-Tells s r quiet l t r.status refl early kept h)
  ]
]

loop-Tells :
    (s : Session) (rounds : List Round)
    → All IsQuiet rounds
    → Tells (loop s rounds) (transcript s rounds)
unfolding loop transcript
loop-Tells s [] quiet = (refl, refl)
loop-Tells s (r ∷ rs) quiet =
    turn-Tells s r quiet.0 (loop s rs) (transcript s rs) (loop-Tells s rs quiet.1)

shown-finally :
    (actions : List Action) (status : Option ℤ) → shown (actions ++ finally status) ≡ shown actions
unfolding finally
shown-finally actions none = shown-append actions (finally none) ∙ append-nil (shown actions)
shown-finally actions (some code) =
    shown-append actions (finally (some code)) ∙ append-nil (shown actions)

finish-Tells :
    (status : Option ℤ) (l : List Action × Option (Result Ending)) (t : Bytes × Option ℤ)
    → Tells l t
    → (shown (finish status l).0 ≡ t.0) × ((finish status l).1 ≡ returned t.1)
unfolding finish
finish-Tells status (actions, none) t h = h
finish-Tells status (actions, some (ok ending)) t h = (shown-finally actions status ∙ h.0, h.1)
finish-Tells status (actions, some (err e)) t h = (shown-finally actions status ∙ h.0, h.1)

-- A session whose client takes all output and whose channel answers shows exactly what the account
-- says, and ends with its exit code: 124 at the deadline, 130 if cancelled, otherwise the process's.
pub run_interactive_argv-transcript :
    (s : Session) (rounds : List Round) (status : Option ℤ)
    → All IsQuiet rounds
    → (shown (run_interactive_argv s rounds status).0 ≡ (transcript s rounds).0)
      × ((run_interactive_argv s rounds status).1 ≡ returned (transcript s rounds).1)
unfolding run_interactive_argv
run_interactive_argv-transcript s rounds status quiet =
    finish-Tells status (loop s rounds) (transcript s rounds) (loop-Tells s rounds quiet)
