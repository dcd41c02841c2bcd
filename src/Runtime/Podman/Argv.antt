-- ===== src/Runtime/Podman/Argv.antt =====
-- The command line of a plan, runtime/podman.py, says what the plan says.
use mathlib.Core.List.{append_assoc}
use codex_cursor_devstack.Base.{
  same_codes, ◌≡◌, refl, sym, ◌∙◌, ap, String, ◌<>◌, Bool, true, false, Option, none, some, List,
  [], ◌∷◌, ◌++◌, map, if◌then◌else◌,
}
use codex_cursor_devstack.Base.Value.{ℤ, Value}
use codex_cursor_devstack.Execution.Mounts.{ExecutionMount, RuntimeIsolationRequirements}
use codex_cursor_devstack.Execution.Plan.{ExecutionPlan, all_mounts}
use codex_cursor_devstack.Runtime.Podman.{
  environment_args, mount_text, mount_args, user_args, id_text, runtime_isolation_args, fixed_args,
  execution_plan_argv,
}
use codex_cursor_devstack.Runtime.Podman.Reading.{
  RunOption, flag, valued, RunRequest, takes_value, starts_dash, is_valued, is_among, join-IsFlag,
  add_option, read_options, read_run, prepend, prepend-append, prepend-some, IsFlag, read_flag,
  read_valued, read_image,
}

abbrev pub environment_text : String × String → String
environment_text (name, value) = name <> "=" <> value

abbrev pub volume : ExecutionMount → RunOption
volume m = valued "-v" (mount_text m)

abbrev pub variable : String × String → RunOption
variable e = valued "-e" (environment_text e)

read_mounts :
    (ms : List ExecutionMount) (rest : List String)
    → read_options (mount_args ms ++ rest) ≡ prepend (map volume ms) (read_options rest)
unfolding mount_args prepend takes_value is_valued is_among same_codes
read_mounts [] rest = refl
read_mounts (m ∷ ms) rest =
    read_valued "-v" (mount_text m) (mount_args ms ++ rest) refl
    ∙ ap (add_option (volume m)) (read_mounts ms rest)

read_environment :
    (es : List (String × String)) (rest : List String)
    → read_options (environment_args es ++ rest) ≡ prepend (map variable es) (read_options rest)
unfolding environment_args prepend takes_value is_valued is_among same_codes
read_environment [] rest = refl
read_environment ((name, value) ∷ es) rest =
    read_valued "-e" (name <> "=" <> value) (environment_args es ++ rest) refl
    ∙ ap (add_option (variable (name, value))) (read_environment es rest)

abbrev pub tmpfs_options : List RunOption
tmpfs_options =
    valued "--tmpfs" "/tmp:rw,nosuid,nodev,size=512m"
    ∷ valued "--tmpfs" "/run:rw,nosuid,nodev,size=64m"
    ∷ []

prepend_parts :
    (ns bs cs ds : List RunOption) (r : Option RunRequest)
    → prepend (ns ++ (bs ++ (cs ++ ds))) r ≡ prepend ns (prepend bs (prepend cs (prepend ds r)))
prepend_parts ns bs cs ds r =
    rw
      (
        prepend-append ns (bs ++ (cs ++ ds)) r,
        prepend-append bs (cs ++ ds) r,
        prepend-append cs ds r,
      )
      refl

module _ (str : Value → String) where
  unfoldable pub user_options : RuntimeIsolationRequirements → List RunOption
  user_options r = elim r.uid [
    | none ↦ []
    | some i ↦ valued "--user" (id_text str (some i) <> ":" <> id_text str r.gid) ∷ []
  ]

  abbrev pub bootstrap_options : Bool → List RunOption
  bootstrap_options b = if b then flag "--security-opt=unmask=/proc/*" ∷ [] else []

  unfoldable pub isolation_options : RuntimeIsolationRequirements → List RunOption
  unfolding user_options
  isolation_options r = user_options r ++ bootstrap_options r.nested_sandbox_bootstrap

  read_user :
      (uid gid : Option ℤ) (b : Bool) (rest : List String)
      → read_options
          (user_args str (record { uid = uid; gid = gid; nested_sandbox_bootstrap = b }) ++ rest)
        ≡ prepend
            (user_options (record { uid = uid; gid = gid; nested_sandbox_bootstrap = b }))
            (read_options rest)
  unfolding user_args user_options prepend takes_value is_valued is_among same_codes
  read_user none gid b rest = refl
  read_user (some i) gid b rest = read_valued "--user" _ rest refl

  read_bootstrap :
      (b : Bool) (rest : List String)
      → read_options ((if b then "--security-opt=unmask=/proc/*" ∷ [] else []) ++ rest)
        ≡ prepend (bootstrap_options b) (read_options rest)
  unfolding prepend takes_value starts_dash is_valued is_among same_codes
  read_bootstrap true rest =
      read_flag "--security-opt=unmask=/proc/*" rest (record { alone = refl; dash = refl })
  read_bootstrap false rest = refl

  read_isolation :
      (r : RuntimeIsolationRequirements) (rest : List String)
      → read_options (runtime_isolation_args str r ++ rest)
        ≡ prepend (isolation_options r) (read_options rest)
  unfolding runtime_isolation_args isolation_options
  read_isolation r rest =
      let b = r.nested_sandbox_bootstrap in
      let tail : List String = if b then "--security-opt=unmask=/proc/*" ∷ [] else [] in
      rw
        (
          append_assoc (user_args str r) tail rest,
          prepend-append (user_options r) (bootstrap_options b) (read_options rest),
        )
        (read_user r.uid r.gid b (tail ++ rest)
          ∙ ap (prepend (user_options r)) (read_bootstrap b rest))

  -- What a container of every plan is confined by, and the plan's network and limits.
  unfoldable pub confinement : ExecutionPlan → List String
  confinement p =
      "--rm"
      ∷ ("--network=" <> p.network.mode)
      ∷ ("--http-proxy=" <> (if p.network.http_proxy then "true" else "false"))
      ∷ "--read-only"
      ∷ "--cap-drop=all"
      ∷ "--security-opt=no-new-privileges"
      ∷ ("--pids-limit=" <> str (Value.int p.resource_limits.pids))
      ∷ ("--memory=" <> p.resource_limits.memory)
      ∷ ("--cpus=" <> str p.resource_limits.cpus)
      ∷ []

  unfoldable pub plan_options : ExecutionPlan → List RunOption
  unfolding confinement isolation_options
  plan_options p =
      (map flag (confinement p) ++ tmpfs_options)
      ++ (isolation_options p.runtime_isolation
          ++ (map volume (all_mounts p)
              ++ (valued "-w" p.working_directory ∷ map variable p.environment)))

  proxy-IsFlag : (b : Bool) → IsFlag ("--http-proxy=" <> (if b then "true" else "false"))
  unfolding takes_value starts_dash is_valued is_among same_codes
  proxy-IsFlag true = record { alone = refl; dash = refl }
  proxy-IsFlag false = record { alone = refl; dash = refl }

  read_confinement :
      (p : ExecutionPlan) (rest : List String)
      → read_run (fixed_args str p ++ rest)
        ≡ prepend (map flag (confinement p) ++ tmpfs_options) (read_options rest)
  unfolding fixed_args confinement read_run prepend takes_value is_valued is_among same_codes
      starts_dash
  read_confinement p rest =
      rw
        (
          read_flag "--rm" _ (record { alone = refl; dash = refl }),
          read_flag _ _ (join-IsFlag "--network=" p.network.mode (λ cs. refl) (λ cs. refl)),
          read_flag _ _ (proxy-IsFlag p.network.http_proxy),
          read_flag "--read-only" _ (record { alone = refl; dash = refl }),
          read_flag "--cap-drop=all" _ (record { alone = refl; dash = refl }),
          read_flag "--security-opt=no-new-privileges" _ (record { alone = refl; dash = refl }),
          read_flag _ _ (
              join-IsFlag "--pids-limit=" (str (Value.int p.resource_limits.pids)) (λ cs. refl)
                (λ cs. refl)),
          read_flag _ _
              (join-IsFlag "--memory=" p.resource_limits.memory (λ cs. refl) (λ cs. refl)),
          read_flag _ _
              (join-IsFlag "--cpus=" (str p.resource_limits.cpus) (λ cs. refl) (λ cs. refl)),
          read_valued "--tmpfs" "/tmp:rw,nosuid,nodev,size=512m" _ refl,
          read_valued "--tmpfs" "/run:rw,nosuid,nodev,size=64m" _ refl,
        )
        refl

  -- The command line is read as the plan's options, image and command.
  pub read_plan :
      (p : ExecutionPlan)
      → starts_dash p.image ≡ false
      → read_run (execution_plan_argv str p)
        ≡ some (record { options = plan_options p; image = p.image; command = p.argv })
  unfolding prepend execution_plan_argv plan_options takes_value is_valued is_among same_codes
  read_plan p h =
      let tail = environment_args p.environment ++ (p.image ∷ p.argv) in
      let work = "-w" ∷ p.working_directory ∷ tail in
      let mounts = mount_args (all_mounts p) ++ work in
      read_confinement p (runtime_isolation_args str p.runtime_isolation ++ mounts)
      ∙ rw
          (
            read_isolation p.runtime_isolation mounts,
            read_mounts (all_mounts p) work,
            read_valued "-w" p.working_directory tail refl,
            read_environment p.environment (p.image ∷ p.argv),
            read_image p.image p.argv h,
          )
          (sym (
              prepend_parts (map flag (confinement p) ++ tmpfs_options)
                (isolation_options p.runtime_isolation) (map volume (all_mounts p))
                (valued "-w" p.working_directory ∷ map variable p.environment) _)
            ∙ prepend-some (plan_options p) p.image p.argv)
