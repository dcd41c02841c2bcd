-- ===== src/Runtime/Session.antt =====
-- The processes of runtime/podman.py. A session of `run_interactive_argv` is given by what its calls
-- return, one `Round` for each turn of the loop, and yields the actions that it takes in order.
pub mod Endings
pub mod Signals
pub mod Shows
pub mod Transcript
pub mod Deadline
use codex_cursor_devstack.Base.{
  ℕ, ◌+◌, String, Bool, true, false, not, ◌&&◌, Option, none, some, List, [], ◌∷◌, ◌++◌, str_eq,
  is_empty, strip, leb, if◌then◌else◌, Error, Result, ok, err,
}
use codex_cursor_devstack.Base.Value.{ℤ}
use codex_cursor_devstack.Core.Paths.{FilePath}
use codex_cursor_devstack.Runtime.Control.{Bytes, RuntimeControl}

pub data Signal : Type 0 where
  sigint : Signal
  sigterm : Signal
  sigkill : Signal

-- What comes of a signal: there is no process (`ProcessLookupError`), the wait that follows
-- returns, or it times out.
pub data Answer : Type 0 where
  gone : Answer
  ends : Answer
  outlasts : Answer

-- The signals that are sent, from what `proc.poll()` returns.
unfoldable pub terminate_process_group : Option ℤ → (Signal → Answer) → List Signal
terminate_process_group (some code) answer = []
terminate_process_group none answer = elim (answer sigint) [
  | outlasts ↦
      sigint ∷ elim (answer sigterm) [ outlasts ↦ sigterm ∷ sigkill ∷ [] | _ ↦ sigterm ∷ [] ]
  | _ ↦ sigint ∷ []
]

pub data Cleanup : Type 0 where
  -- `podman rm -f cid`
  remove_container : List ℕ → Cleanup
  unlink : FilePath → Cleanup

-- The second argument is the text of the cidfile, if it exists.
unfoldable pub cleanup_interactive_container : Option FilePath → Option (List ℕ) → List Cleanup
cleanup_interactive_container none text = []
cleanup_interactive_container (some cidfile) none = unlink cidfile ∷ []
cleanup_interactive_container (some cidfile) (some text) =
    let cid = strip text in
    if is_empty cid then unlink cidfile ∷ [] else remove_container cid ∷ unlink cidfile ∷ []

pub data Action : Type 0 where
  -- `io.write_output`, `os.write(master, ...)`, `set_winsize`
  output : Bytes → Action
  input : Bytes → Action
  resize : ℤ → ℤ → Action
  -- `terminate(proc)`, `cleanup(cidfile)`, `os.close(master)`
  terminate : Action
  cleanup : Action
  close : Action

-- What one turn of the loop sees.
pub record Round : Type 0 where
  pub now : ℕ
  -- `os.read`, empty if there is nothing to read or it raises
  pub data_read : Bytes
  pub receive_control : Result (Option RuntimeControl)
  -- `proc.poll()`
  pub status : Option ℤ
  -- the reads after the process has ended
  pub last_reads : List Bytes
  pub write_output : Bytes → Result (Unit {0})

-- The arguments of a session, with the clock at its start. No output at a timeout is empty output.
pub record Session : Type 0 where
  pub start_time : ℕ
  pub timeout_seconds : Option ℕ
  pub timeout_output : Bytes

-- Actions up to the result, or up to an exception.
abbrev pub Run : Type 0 → Type 0
Run A = List Action × Result A

unfoldable pub ret : {A : Type 0} → A → Run A
ret a = ([], ok a)

abbrev pub after : {A : Type 0} → List Action → Run A → Run A
after before (later, r) = (before ++ later, r)

infixl 5 ◌>>=◌ ◌>>◌
unfoldable pub ◌>>=◌ : {A B : Type 0} → Run A → (A → Run B) → Run B
(before, ok a) >>= rest = after before (rest a)
(before, err e) >>= rest = (before, err e)

abbrev pub ◌>>◌ : {B : Type 0} → Run (Unit {0}) → Run B → Run B
first >> second = first >>= λ done. second

unfoldable pub act : Action → Run (Unit {0})
act a = (a ∷ [], ok tt)

abbrev pub delivered : Bytes → Result (Unit {0}) → Run (Unit {0})
delivered bytes (ok done) = (output bytes ∷ [], ok tt)
delivered bytes (err e) = ([], err e)

unfoldable pub write : Round → Bytes → Run (Unit {0})
write r bytes = delivered bytes (r.write_output bytes)

-- `if data: io.write_output(data)`
unfoldable pub write_some : Round → Bytes → Run (Unit {0})
write_some r bytes = if is_empty bytes then ret tt else write r bytes

pub data Ending : Type 0 where
  timed_out : Ending
  cancelled : Ending
  exited : ℤ → Ending

-- `set_winsize(master, control.rows, control.cols)`; the assertion before it is dropped like an error.
abbrev pub set_size : Option ℤ → Option ℤ → Run Bool
set_size (some rows) (some cols) = do act (resize rows cols); ret false
set_size _ _ = ret false

-- The branches on a control event; whether it cancels the session. An exception of `os.write` or of
-- the branch for `resize` is dropped by the code.
unfoldable pub handle_control : Option RuntimeControl → Run Bool
handle_control none = ret false
handle_control (some c) =
    if str_eq c.kind "input"
    then (do act (input c.payload); ret false)
    else if str_eq c.kind "resize"
    then set_size c.rows c.cols
    else if str_eq c.kind "cancel"
    then (do act terminate; ret true)
    else ret false

-- The loop over what can still be read, which an empty read ends.
unfoldable pub drain : Round → List Bytes → Run (Unit {0})
drain r [] = ret tt
drain r ([] ∷ later) = ret tt
drain r ((c ∷ cs) ∷ later) = do write r (c ∷ cs); drain r later

unfoldable pub is_late : Session → ℕ → Bool
is_late s now = elim s.timeout_seconds [ none ↦ false | some t ↦ leb (s.start_time + t) now ]

abbrev pub on_status : Round → Option ℤ → Run (Option Ending)
on_status r none = ret none
on_status r (some code) = drain r r.last_reads >> ret (some (exited code))

unfoldable pub poll : Round → Run (Option Ending)
poll r = on_status r r.status

-- The body of the loop: nothing where it goes on.
unfoldable pub turn : Session → Round → Run (Option Ending)
turn s r =
    if is_late s r.now
    then (do write_some r s.timeout_output; act terminate; ret (some timed_out))
    else do
      write_some r r.data_read
      control ← ([], r.receive_control)
      stop ← handle_control control
      if stop then ret (some cancelled) else poll r

abbrev pub resume :
    Run (Option Ending)
    → List Action × Option (Result Ending)
    → List Action × Option (Result Ending)
resume (before, ok none) (later, result) = (before ++ later, result)
resume (before, ok (some ending)) rest = (before, some (ok ending))
resume (before, err e) rest = (before, some (err e))

-- The loop, which goes on if the rounds run out.
unfoldable pub loop : Session → List Round → List Action × Option (Result Ending)
loop s [] = ([], none)
loop s (r ∷ rs) = resume (turn s r) (loop s rs)

unfoldable pub exit_code : Ending → ℤ
exit_code timed_out = ℤ.pos 124
exit_code cancelled = ℤ.pos 130
exit_code (exited code) = code

-- The `finally` block, from what `proc.poll()` returns there.
unfoldable pub finally : Option ℤ → List Action
finally none = terminate ∷ cleanup ∷ close ∷ []
finally (some code) = cleanup ∷ close ∷ []

unfoldable pub finish :
    Option ℤ → List Action × Option (Result Ending) → List Action × Option (Result ℤ)
finish status (actions, none) = (actions, none)
finish status (actions, some (ok ending)) =
    (actions ++ finally status, some (ok (exit_code ending)))
finish status (actions, some (err e)) = (actions ++ finally status, some (err e))

-- The actions, and the exit code or the exception if the session ends.
unfoldable pub run_interactive_argv :
    Session → List Round → Option ℤ → List Action × Option (Result ℤ)
run_interactive_argv s rounds status = finish status (loop s rounds)

-- The reads up to the end of the output, and what `proc.wait()` returns.
unfoldable pub run_noninteractive_argv :
    (Bytes → Result (Unit {0})) → List Bytes → ℤ → List Bytes × Result ℤ
run_noninteractive_argv write_output [] code = ([], ok code)
run_noninteractive_argv write_output ([] ∷ later) code = ([], ok code)
run_noninteractive_argv write_output ((c ∷ cs) ∷ later) code =
    let rest = run_noninteractive_argv write_output later code in
    elim (write_output (c ∷ cs)) [ ok done ↦ ((c ∷ cs) ∷ rest.0, rest.1) | err e ↦ ([], err e) ]
