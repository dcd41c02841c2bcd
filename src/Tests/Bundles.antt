-- ===== src/Tests/Bundles.antt =====
-- Bundles and project requests.
use codex_cursor_devstack.Base.{some, Error, err, ◌≡◌, refl, true, false, [], ◌∷◌, ok}
use codex_cursor_devstack.Base.Value.{Value, Fields, Key}
use codex_cursor_devstack.Core.Names.{}
use codex_cursor_devstack.Core.Paths.{}
use codex_cursor_devstack.Core.Records.{TaskRecord, find_file}
use codex_cursor_devstack.Core.Host.{Host, State}
use codex_cursor_devstack.Core.Projects.{}
use codex_cursor_devstack.Core.Handoff.{Disk, initialize_agent_repository}
use codex_cursor_devstack.Core.Handoff.Rollback.{IsOutcome, initialize_agent_repository-IsOutcome}
use codex_cursor_devstack.Core.Exchange.{}
use codex_cursor_devstack.Broker.ProjectOps.{op_project_sync}
use codex_cursor_devstack.Broker.ProjectOps.Guarded.{op_project_sync_busy, active}
use codex_cursor_devstack.Tests.Tasks.{host, plain_files, demo, empty_record}

-- A disk where everything succeeds.
abbrev pub disk : {H : Host} → Disk H
disk = record {
  mkdir = λ p w. (ok tt, w);
  unlink = λ p w. (ok tt, w);
  replace = λ p q w. (ok tt, w);
  chmod = λ p n w. (ok tt, w);
  rmtree = λ p w. w;
  stamp = λ w. "20260101T000000Z-1";
  check_ref_format = λ s w. true;
  read_json = λ p w. ok (Fields.entry (Key.name "main_branch") (Value.text "main") Fields.end);
  setfacl = λ s w. (ok tt, w);
}

-- The same host, without the repository.
abbrev fresh : Host
fresh = record host { file_system = λ w. record plain_files { exists = λ p. false } }

abbrev start_state : State fresh
start_state = record { files = []; world = tt }

initialize_agent_repository-IsOutcome_example :
    IsOutcome
      (disk {H = fresh})
      ("srv" ∷ "agent" ∷ [])
      ("srv" ∷ "in.bundle" ∷ [])
      "main"
      "c0ffee"
      start_state
      (initialize_agent_repository
        (disk {H = fresh})
        ("srv" ∷ "agent" ∷ [])
        ("srv" ∷ "in.bundle" ∷ [])
        "main"
        "c0ffee"
        start_state)
initialize_agent_repository-IsOutcome_example =
    initialize_agent_repository-IsOutcome (disk {H = fresh}) ("srv" ∷ "agent" ∷ [])
      ("srv" ∷ "in.bundle" ∷ []) "main" "c0ffee" start_state

abbrev bundle_request : Fields
bundle_request =
    Fields.entry (Key.name "project") demo
      (Fields.entry (Key.name "bundle") (Value.text "in.bundle") Fields.end)

-- The file of a task that is active.
abbrev at_work : TaskRecord
at_work = record empty_record { mode = "integration"; status = "active" }

abbrev busy_state : State host
busy_state = record { files = ("integration.json", some at_work) ∷ []; world = tt }

at_work_found : find_file "integration.json" busy_state.files ≡ some (some at_work)
unfolding find_file
at_work_found = refl

op_project_sync_busy_example :
    (e : Error) × (op_project_sync disk ("srv" ∷ []) bundle_request busy_state
      ≡ (err e, busy_state))
op_project_sync_busy_example =
    op_project_sync_busy disk ("srv" ∷ []) bundle_request busy_state "integration.json" at_work
      at_work_found (active refl refl)
