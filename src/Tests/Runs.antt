-- ===== src/Tests/Runs.antt =====
-- The plan of a run of Codex in a task that is read-only.
use codex_cursor_devstack.Base.{
  String, value_error, ◌≡◌, refl, true, false, some, [], ◌∷◌, ok, ◌>>=◌, has_code, is_line,
}
use codex_cursor_devstack.Base.Value.{ℤ, Value}
use codex_cursor_devstack.Core.Names.{
  is_valid_name, matches_name, all_name_codes, is_name_code, is_alphanumeric,
}
use codex_cursor_devstack.Core.Paths.{
  canonical_dir, canonical_file, ensure_under, resolve_strict, is_under,
}
use codex_cursor_devstack.Core.Models.{TaskContext}
use codex_cursor_devstack.Core.Host.{pure, lift, gets, ◌>>=◌ as ◌>=>◌}
use codex_cursor_devstack.Core.Tasks.{file_system}
use codex_cursor_devstack.Core.Worktrees.{path_text}
use codex_cursor_devstack.Core.Handoff.{call, change, undo_on_error}
use codex_cursor_devstack.Execution.Mounts.{
  check_mount, check_limits, check_network, is_positive_number, is_positive_int, mount_roles,
  has_parent, is_absolute, require_text, require_container_path, require_texts, require_argv,
  require_entries, require_environment, mount_eq,
}
use codex_cursor_devstack.Execution.Plan.{
  ExecutionPlan, check_plan, check_artifacts, all_have_role, all_mounts, mount_at, agrees,
  require_targets, require_class,
}
use codex_cursor_devstack.Agents.Specs.{RunSpec}
use codex_cursor_devstack.Agents.Registry.{
  AgentRegistry, find_driver, found_driver, get_driver, register, register_all, freeze,
  build_registry, registered_provider,
}
use codex_cursor_devstack.Agents.Registry.Finds.{IsTrusted, build_registry-IsTrusted}
use codex_cursor_devstack.Broker.RunPlan.Parts.{
  BrokerConfig, Driver, new_mount, merge_entries, merge_plan_environment, state_mounts,
  policy_file_mounts, adapter_mounts, reference_mounts, git_mounts, image_of, run_capabilities,
  new_plan,
}
use codex_cursor_devstack.Broker.RunPlan.{
  PolicyStore, policy_dir, write_generated, write_all, materialize_generated_policy_files,
  plan_from, create_run_execution_plan,
}
use codex_cursor_devstack.Broker.RunPlan.Confined.{IsRunPlan, create_run_execution_plan-IsRunPlan}
use codex_cursor_devstack.Tests.Tasks.{host, initial}
use codex_cursor_devstack.Tests.Bundles.{disk}

abbrev store : PolicyStore host
store = record {
  digest = λ target content. "ab12";
  mkdir = λ p w. (ok tt, w);
  mkstemp = λ prefix dir w. (ok ("tmp" ∷ []), w);
  write_text = λ p s w. (ok tt, w);
  discard = λ p w. w;
}

abbrev config : BrokerConfig
config = record {
  root = "srv" ∷ [];
  images = λ provider. some "localhost/codex";
  limits = record { pids = ℤ.pos 512; memory = "4g"; cpus = Value.int (ℤ.pos 2) };
}

abbrev codex : Driver
codex = record {
  state_spec =
      record { source = "codex-state"; target = "/home/node/.codex"; read_only = false } ∷ [];
  policy_mounts = [];
}

abbrev registry : AgentRegistry Driver
registry = record { drivers = ("codex", codex) ∷ []; frozen = true }

abbrev context : TaskContext
context = record {
  task = "one";
  mode = "parallel";
  metadata_path = "srv" ∷ "projects" ∷ "demo" ∷ "tasks" ∷ "one.json" ∷ [];
  workspace = "srv" ∷ "projects" ∷ "demo" ∷ "worktrees" ∷ "one" ∷ [];
  base_commit = "c0ffee";
}

abbrev run_spec : RunSpec
run_spec = record {
  argv = "codex" ∷ "exec" ∷ [];
  environment = [];
  interactive = false;
  policy_artifacts = record {
    files = [];
    argv = [];
    environment = ("HOME", "/home/node") ∷ [];
    runtime_isolation = record {
      uid = some (ℤ.pos 1000);
      gid = some (ℤ.pos 1000);
      nested_sandbox_bootstrap = false;
    };
    generated_files =
        record { name = "rules.json"; target = "/etc/rules.json"; content = ""; read_only = true }
        ∷ [];
  };
  runtime_isolation = record {
    uid = some (ℤ.pos 1000);
    gid = some (ℤ.pos 1000);
    nested_sandbox_bootstrap = false;
  };
}

abbrev plan : ExecutionPlan
plan = record {
  agent_id = "codex";
  image = "localhost/codex";
  argv = "codex" ∷ "exec" ∷ [];
  environment =
      ("AGENT_TASK_ID", "one")
      ∷ ("AGENT_TASK_MODE", "parallel")
      ∷ ("AGENT_TASK_BASE_COMMIT", "c0ffee")
      ∷ ("HOME", "/home/node")
      ∷ [];
  workspace_mount = record {
    source = "/srv/projects/demo/worktrees/one";
    target = "/workspace";
    read_only = true;
    role = "workspace";
  };
  reference_mounts =
      record {
        source = "/srv/projects/demo/reference";
        target = "/reference";
        read_only = true;
        role = "reference";
      }
      ∷ [];
  task_metadata_mount = record {
    source = "/srv/projects/demo/tasks/one.json";
    target = "/task/metadata.json";
    read_only = true;
    role = "task-metadata";
  };
  provider_state_mounts =
      record {
        source = "codex-state";
        target = "/home/node/.codex";
        read_only = false;
        role = "provider-state";
      }
      ∷ [];
  provider_policy_artifacts = record {
    mounts =
        record {
          source = "/srv/projects/demo/tasks/.run-policy/codex/ab12-rules.json";
          target = "/etc/rules.json";
          read_only = true;
          role = "provider-policy";
        }
        ∷ [];
    argv = [];
    environment = ("HOME", "/home/node") ∷ [];
  };
  resource_limits = record { pids = ℤ.pos 512; memory = "4g"; cpus = Value.int (ℤ.pos 2) };
  network = record { mode = "slirp4netns:allow_host_loopback=false"; http_proxy = false };
  readonly = true;
  interaction_mode = "noninteractive";
  runtime_isolation = record {
    uid = some (ℤ.pos 1000);
    gid = some (ℤ.pos 1000);
    nested_sandbox_bootstrap = false;
  };
  security_class = some "hardened";
  required_capabilities = "workspace:readonly" ∷ "security_class:hardened" ∷ [];
  auxiliary_mounts =
      record {
        source = "/srv/projects/demo/worktrees/one";
        target = "/srv/projects/demo/worktrees/one";
        read_only = true;
        role = "git-worktree";
      }
      ∷ record {
        source = "/srv/projects/demo/repo/agent/.git";
        target = "/srv/projects/demo/repo/agent/.git";
        read_only = true;
        role = "git-common";
      }
      ∷ [];
  working_directory = "/workspace";
}

plan_ok :
    (create_run_execution_plan disk store config registry "codex" context run_spec true false
      "hardened"
      ("srv" ∷ "projects" ∷ "demo" ∷ "reference" ∷ [])
      (some ("srv" ∷ "projects" ∷ "demo" ∷ "repo" ∷ "agent" ∷ ".git" ∷ []))
      initial).0
    ≡ ok plan
unfolding create_run_execution_plan plan_from materialize_generated_policy_files policy_dir
    write_all write_generated undo_on_error change call file_system gets lift pure ◌>=>◌ ◌>>=◌
    registered_provider get_driver found_driver find_driver is_valid_name matches_name
    all_name_codes is_name_code is_alphanumeric canonical_dir canonical_file ensure_under
    resolve_strict is_under path_text new_mount check_mount require_text require_container_path
    mount_roles has_parent is_absolute is_line has_code merge_entries merge_plan_environment
    state_mounts policy_file_mounts adapter_mounts reference_mounts git_mounts image_of
    run_capabilities new_plan check_plan check_artifacts all_have_role all_mounts mount_at agrees
    require_targets require_class check_limits check_network is_positive_number is_positive_int
    require_texts require_argv require_entries require_environment mount_eq
plan_ok = refl

create_run_execution_plan-IsRunPlan_example :
    IsRunPlan (host.file_system initial.world) config context run_spec true plan
create_run_execution_plan-IsRunPlan_example =
    create_run_execution_plan-IsRunPlan disk store config registry "codex" context run_spec true
      false "hardened" ("srv" ∷ "projects" ∷ "demo" ∷ "reference" ∷ [])
      (some ("srv" ∷ "projects" ∷ "demo" ∷ "repo" ∷ "agent" ∷ ".git" ∷ [])) initial plan plan_ok

abbrev two_agents : AgentRegistry String
two_agents = record { drivers = ("codex", "codex") ∷ ("cursor", "cursor") ∷ []; frozen = true }

-- Drivers that are their ids.
built : build_registry (λ (d : String). d) ("codex" ∷ "cursor" ∷ []) ≡ ok two_agents
unfolding build_registry register_all register freeze find_driver is_valid_name matches_name
    all_name_codes is_name_code is_alphanumeric ◌>>=◌
built = refl

build_registry-IsTrusted_example :
    IsTrusted
      (λ (d : String). d)
      (value_error "unsupported provider")
      two_agents
      ("codex" ∷ "cursor" ∷ [])
build_registry-IsTrusted_example =
    build_registry-IsTrusted (λ (d : String). d) (value_error "unsupported provider")
      ("codex" ∷ "cursor" ∷ []) two_agents built
