-- ===== src/Broker/RunPlan.antt =====
-- broker/daemon.py: the plan of a run, over Git's host, its disk and the calls that write policy files.
pub mod Parts
pub mod Confined
use codex_cursor_devstack.Base.{
  ℕ, String, ◌<>◌, Bool, true, false, Option, none, some, List, [], ◌∷◌, ◌++◌, if◌then◌else◌,
  Result, ok, err,
}
use codex_cursor_devstack.Base.Value.{Value}
use codex_cursor_devstack.Core.Paths.{FilePath, FileSystem, child, canonical_dir, canonical_file}
use codex_cursor_devstack.Core.Models.{TaskContext}
use codex_cursor_devstack.Core.Host.{Host, State, Exec, pure, lift, ◌>>=◌, ◌>>◌}
use codex_cursor_devstack.Core.Tasks.{file_system}
use codex_cursor_devstack.Core.Worktrees.{path_text}
use codex_cursor_devstack.Core.Handoff.{Disk, call, change, undo_on_error}
use codex_cursor_devstack.Execution.Mounts.{ExecutionMount}
use codex_cursor_devstack.Execution.Plan.{ExecutionPlan}
use codex_cursor_devstack.Agents.Specs.{GeneratedPolicyFileSpec, RunSpec}
use codex_cursor_devstack.Agents.Registry.{AgentRegistry, registered_provider}
use codex_cursor_devstack.Broker.RunPlan.Parts.{
  BrokerConfig, Driver, new_mount, merge_plan_environment, state_mounts, policy_file_mounts,
  adapter_mounts, reference_mounts, git_mounts, image_of, run_capabilities, new_plan,
}

-- Further calls of the host.
pub record PolicyStore (H : Host) : Type 0 where
  -- `hashlib.sha256((target + "\x00" + content).encode("utf-8")).hexdigest()`
  pub digest : String → String → String
  -- `path.mkdir(mode=0o700, exist_ok=True)`
  pub mkdir : FilePath → H.World → Result (Unit {0}) × H.World
  -- `tempfile.mkstemp(prefix, dir)`
  pub mkstemp : String → FilePath → H.World → Result FilePath × H.World
  -- write, flush and fsync
  pub write_text : FilePath → String → H.World → Result (Unit {0}) × H.World
  -- `os.unlink`, where a missing file is no error
  pub discard : FilePath → H.World → H.World

abbrev parent : FilePath → FilePath
parent [] = []
parent (p ∷ []) = []
parent (p ∷ q ∷ path) = p ∷ parent (q ∷ path)

module _ {H : Host} (disk : Disk H) (store : PolicyStore H) where
  -- A directory below `root` that is made if it is missing.
  unfoldable pub policy_dir : FilePath → FilePath → String → Exec H FilePath
  policy_dir path root label = do
    call (store.mkdir path)
    fs ← file_system
    lift (canonical_dir fs path root label)

  -- One turn of the loop of `materialize_generated_policy_files`; the mode of the file is 0o644.
  unfoldable pub write_generated : FilePath → GeneratedPolicyFileSpec → Exec H ExecutionMount
  write_generated provider_root item = do
    let name = store.digest item.target item.content <> "-" <> item.name
    let destination = child provider_root name
    tmp ← call (store.mkstemp ("." <> item.name <> ".") provider_root)
    undo_on_error
        (do
          call (store.write_text tmp item.content)
          call (disk.chmod tmp 0x1a4)
          call (disk.replace tmp destination))
        (change (store.discard tmp))
    fs ← file_system
    source ← lift (canonical_file fs destination provider_root "generated provider policy")
    lift (new_mount (path_text source) item.target item.read_only "provider-policy")

  unfoldable pub write_all : FilePath → List GeneratedPolicyFileSpec → Exec H (List ExecutionMount)
  unfolding write_generated
  write_all provider_root [] = pure []
  write_all provider_root (item ∷ items) = do
    m ← write_generated provider_root item
    ms ← write_all provider_root items
    pure (m ∷ ms)

  unfoldable pub materialize_generated_policy_files :
      FilePath → String → List GeneratedPolicyFileSpec → Exec H (List ExecutionMount)
  unfolding policy_dir write_all
  materialize_generated_policy_files task_meta provider [] = pure []
  materialize_generated_policy_files task_meta provider (item ∷ items) = do
    let tasks_root = parent task_meta
    policy_root ←
        policy_dir (child tasks_root ".run-policy") tasks_root "generated provider policy root"
    provider_root ←
        policy_dir (child policy_root provider) policy_root "generated provider policy directory"
    write_all provider_root (item ∷ items)

  module _ (cfg : BrokerConfig) (registry : AgentRegistry Driver) (provider : String)
      (context : TaskContext) (run_spec : RunSpec) where
    -- The plan from the files as they are when the function is called.
    unfoldable pub plan_from :
        FileSystem → Bool → Bool → String → FilePath → Option FilePath → Exec H ExecutionPlan
    plan_from files readonly outer_only security_class reference git_common = do
      driver ← lift (registered_provider registry (Value.text provider) false)
      let projects = child cfg.root "projects"
      workspace ← lift (canonical_dir files context.workspace projects "workspace mount")
      task_meta ← lift (canonical_file files context.metadata_path projects "task metadata mount")
      references ← lift (reference_mounts files projects reference)
      states ← lift (state_mounts driver.state_spec)
      listed ← lift (policy_file_mounts run_spec.policy_artifacts.files)
      generated ←
          materialize_generated_policy_files task_meta provider
            run_spec.policy_artifacts.generated_files
      later ← file_system
      seeded ← lift (adapter_mounts later cfg registry provider driver.policy_mounts)
      auxiliary ← lift (git_mounts later projects workspace readonly git_common)
      environment ← lift (
          merge_plan_environment (
            (("AGENT_TASK_ID", context.task)
              ∷ ("AGENT_TASK_MODE", context.mode)
              ∷ ("AGENT_TASK_BASE_COMMIT", context.base_commit)
              ∷ [])
            ∷ run_spec.environment
            ∷ run_spec.policy_artifacts.environment
            ∷ []))
      image ← lift (image_of cfg provider)
      lift (
          new_plan (record {
            agent_id = provider;
            image = image;
            argv = run_spec.argv;
            environment = environment;
            workspace_mount = record {
              source = path_text workspace;
              target = "/workspace";
              read_only = readonly;
              role = "workspace";
            };
            reference_mounts = references;
            task_metadata_mount = record {
              source = path_text task_meta;
              target = "/task/metadata.json";
              read_only = true;
              role = "task-metadata";
            };
            provider_state_mounts = states;
            provider_policy_artifacts = record {
              mounts = listed ++ (generated ++ seeded);
              argv = run_spec.policy_artifacts.argv;
              environment = run_spec.policy_artifacts.environment;
            };
            resource_limits = cfg.limits;
            network = record { mode = "slirp4netns:allow_host_loopback=false"; http_proxy = false };
            readonly = readonly;
            interaction_mode = if run_spec.interactive then "interactive" else "noninteractive";
            runtime_isolation = run_spec.runtime_isolation;
            security_class = some security_class;
            required_capabilities =
                run_capabilities readonly outer_only run_spec.interactive security_class;
            auxiliary_mounts = auxiliary;
            working_directory = "/workspace";
          }))

    unfoldable pub create_run_execution_plan :
        Bool → Bool → String → FilePath → Option FilePath → Exec H ExecutionPlan
    unfolding plan_from
    create_run_execution_plan readonly outer_only security_class reference git_common = do
      files ← file_system
      plan_from files readonly outer_only security_class reference git_common
