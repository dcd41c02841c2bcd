-- ===== src/Runtime/Podman.antt =====
-- The command line that runtime/podman.py builds from a plan. `str` is Python's text of a number.
pub mod Reading
pub mod Argv
pub mod Values
pub mod Options
pub mod Says
use codex_cursor_devstack.Base.{
  String, ◌<>◌, Bool, true, false, not, ◌&&◌, ◌||◌, Option, none, some, List, [], ◌∷◌, ◌++◌, str_eq,
  ℕ, if◌then◌else◌, Result, ok, err, value_error, ◌>>=◌,
}
use codex_cursor_devstack.Base.Value.{ℤ, Value}
use codex_cursor_devstack.Execution.Mounts.{
  ExecutionMount, ResourceLimits, NetworkRuntimeRequirements, RuntimeIsolationRequirements,
}
use codex_cursor_devstack.Execution.Plan.{ExecutionPlan, all_mounts}

unfoldable pub environment_args : List (String × String) → List String
environment_args [] = []
environment_args ((name, value) ∷ rest) = "-e" ∷ (name <> "=" <> value) ∷ environment_args rest

-- `f"{mount.source}:{mount.target}:{'ro' if mount.read_only else 'rw'}"`
unfoldable pub mount_text : ExecutionMount → String
mount_text m = m.source <> ":" <> m.target <> ":" <> (if m.read_only then "ro" else "rw")

unfoldable pub mount_args : List ExecutionMount → List String
unfolding mount_text
mount_args [] = []
mount_args (m ∷ ms) = "-v" ∷ mount_text m ∷ mount_args ms

module _ (str : Value → String) where
  -- A number in an f-string; `None` is printed by its name.
  unfoldable pub id_text : Option ℤ → String
  id_text none = "None"
  id_text (some i) = str (Value.int i)

  unfoldable pub user_args : RuntimeIsolationRequirements → List String
  unfolding id_text
  user_args r = elim r.uid [
    | none ↦ []
    | some i ↦ "--user" ∷ (id_text (some i) <> ":" <> id_text r.gid) ∷ []
  ]

  unfoldable pub runtime_isolation_args : RuntimeIsolationRequirements → List String
  unfolding user_args
  runtime_isolation_args r =
      user_args r
      ++ (if r.nested_sandbox_bootstrap then "--security-opt=unmask=/proc/*" ∷ [] else [])

  -- The words of `execution_plan_argv` before the isolation arguments.
  unfoldable pub fixed_args : ExecutionPlan → List String
  fixed_args p =
      "podman"
      ∷ "run"
      ∷ "--rm"
      ∷ ("--network=" <> p.network.mode)
      ∷ ("--http-proxy=" <> (if p.network.http_proxy then "true" else "false"))
      ∷ "--read-only"
      ∷ "--cap-drop=all"
      ∷ "--security-opt=no-new-privileges"
      ∷ ("--pids-limit=" <> str (Value.int p.resource_limits.pids))
      ∷ ("--memory=" <> p.resource_limits.memory)
      ∷ ("--cpus=" <> str p.resource_limits.cpus)
      ∷ "--tmpfs"
      ∷ "/tmp:rw,nosuid,nodev,size=512m"
      ∷ "--tmpfs"
      ∷ "/run:rw,nosuid,nodev,size=64m"
      ∷ []

  unfoldable pub execution_plan_argv : ExecutionPlan → List String
  unfolding fixed_args runtime_isolation_args mount_args all_mounts environment_args
  execution_plan_argv p =
      fixed_args p
      ++ (runtime_isolation_args p.runtime_isolation
          ++ (mount_args (all_mounts p)
              ++ ("-w"
                  ∷ p.working_directory
                  ∷ (environment_args p.environment ++ (p.image ∷ p.argv)))))

unfoldable pub add_cidfile : List String → String → Result (List String)
add_cidfile (first ∷ second ∷ rest) cidfile =
    if str_eq first "podman" && str_eq second "run"
    then ok (first ∷ second ∷ "--cidfile" ∷ cidfile ∷ rest)
    else err (value_error "interactive executor must use podman run")
add_cidfile _ cidfile = err (value_error "interactive executor must use podman run")

-- The two ways to run a command: `run_noninteractive_argv`, and `run_interactive_argv` with its
-- `timeout_seconds`.
pub data Launch : Type 0 where
  noninteractive : List String → Launch
  interactive : List String → Option ℕ → Launch

-- What `run_podman_argv` runs; `cidfile` is what `new_interactive_cidfile` returns.
unfoldable pub run_podman_argv : List String → Bool → Option ℕ → String → Result Launch
run_podman_argv argv false none cidfile = ok (noninteractive argv)
run_podman_argv argv false (some seconds) cidfile =
    err (value_error "noninteractive execution does not support timeout_seconds")
run_podman_argv argv true timeout cidfile = do
  named ← add_cidfile argv cidfile
  ok (interactive named timeout)

-- `PodmanBackend.execute`
unfoldable pub execute : (Value → String) → ExecutionPlan → String → Result Launch
execute str p cidfile =
    run_podman_argv (execution_plan_argv str p) (str_eq p.interaction_mode "interactive") none
      cidfile
