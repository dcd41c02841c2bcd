-- ===== src/Tests/Sessions.antt =====
-- Commands and sessions of the Podman backend.
use codex_cursor_devstack.Base.{
  ◌≡◌, refl, ◌≢◌, ℕ, String, false, Option, none, some, List, [], ◌∷◌, Result, ok, arith,
}
use codex_cursor_devstack.Base.Value.{ℤ, Value}
use codex_cursor_devstack.Runtime.Control.{Bytes}
use codex_cursor_devstack.Runtime.Podman.{execute, interactive}
use codex_cursor_devstack.Runtime.Podman.Reading.{starts_dash}
use codex_cursor_devstack.Runtime.Podman.Says.{Says, execute-Says}
use codex_cursor_devstack.Runtime.Session.{
  Signal, sigint, sigkill, Answer, ends, outlasts, terminate_process_group, Round, Session,
  run_interactive_argv, is_late,
}
use codex_cursor_devstack.Runtime.Session.Signals.{Escalates, terminate_process_group-Escalates}
use codex_cursor_devstack.Runtime.Session.Deadline.{run_interactive_argv_ends}
use codex_cursor_devstack.Runtime.Session.Shows.{IsQuiet, shown}
use codex_cursor_devstack.Runtime.Session.Transcript.{transcript, run_interactive_argv-transcript}
use codex_cursor_devstack.Tests.Tasks.{plan}

-- A printer for the one number that the plan has.
abbrev digits : Value → String
digits v = "4"

plain_image : starts_dash "localhost/codex:latest" ≡ false
unfolding starts_dash
plain_image = refl

execute-Says_example :
    (words : List String) × (execute digits plan "run.cid" ≡ ok (interactive words none))
    × Says digits plan ("run.cid" ∷ []) words
execute-Says_example = execute-Says digits plan "run.cid" plain_image

-- A process that SIGTERM ends.
abbrev stubborn : Signal → Answer
stubborn sigint = outlasts
stubborn _ = ends

killed : stubborn sigkill ≢ outlasts
killed h = cc

terminate_process_group-Escalates_example :
    Escalates stubborn 0 (terminate_process_group none stubborn)
terminate_process_group-Escalates_example = terminate_process_group-Escalates stubborn killed

abbrev round : ℕ → Bytes → Option ℤ → Round
round now bytes status = record {
  now = now;
  data_read = bytes;
  receive_control = ok none;
  status = status;
  last_reads = (33 ∷ []) ∷ [] ∷ (34 ∷ []) ∷ [];
  write_output = λ b. ok tt;
}

round-IsQuiet : (now : ℕ) (bytes : Bytes) (status : Option ℤ) → IsQuiet (round now bytes status)
round-IsQuiet now bytes status = record { accepts = λ b. refl; control = none; heard = refl }

abbrev session : Session
session = record { start_time = 100; timeout_seconds = some 5; timeout_output = 63 ∷ [] }

-- The process ends in the second round.
abbrev rounds : List Round
rounds = round 101 (72 ∷ []) none ∷ round 102 (105 ∷ []) (some (ℤ.pos 3)) ∷ []

run_interactive_argv_ends_example :
    (run_interactive_argv session
        (round 101 (72 ∷ []) none ∷ round 105 [] none ∷ round 106 [] none ∷ [])
        none
      ≡ run_interactive_argv session (round 101 (72 ∷ []) none ∷ round 105 [] none ∷ []) none)
    × ((result : Result ℤ) × ((run_interactive_argv session
            (round 101 (72 ∷ []) none ∷ round 105 [] none ∷ [])
            none).1
          ≡ some result))
run_interactive_argv_ends_example =
    run_interactive_argv_ends session 5 (round 105 [] none) (round 101 (72 ∷ []) none ∷ [])
      (round 106 [] none ∷ []) none refl (omega arith)

run_interactive_argv-transcript_example :
    (shown (run_interactive_argv session rounds none).0 ≡ 72 ∷ 105 ∷ 33 ∷ [])
    × ((run_interactive_argv session rounds none).1 ≡ some (ok (ℤ.pos 3)))
unfolding transcript is_late
run_interactive_argv-transcript_example =
    run_interactive_argv-transcript session rounds none
      (round-IsQuiet 101 (72 ∷ []) none, (round-IsQuiet 102 (105 ∷ []) (some (ℤ.pos 3)), tt))
