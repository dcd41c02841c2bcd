-- ===== src/Runtime/Podman/Options.antt =====
-- The options of a plan, runtime/podman.py, by their names.
use mathlib.Core.List.{append-nil}
use codex_cursor_devstack.Base.{
  ◌≡◌, refl, ◌∙◌, String, ◌<>◌, Bool, true, false, Option, none, some, List, [], ◌∷◌, ◌++◌, map,
  str_eq, if◌then◌else◌,
}
use codex_cursor_devstack.Base.Value.{ℤ, Value}
use codex_cursor_devstack.Execution.Mounts.{ExecutionMount, RuntimeIsolationRequirements}
use codex_cursor_devstack.Execution.Plan.{ExecutionPlan, all_mounts}
use codex_cursor_devstack.Runtime.Podman.{mount_text, id_text}
use codex_cursor_devstack.Runtime.Podman.Reading.{RunOption, flag, valued}
use codex_cursor_devstack.Runtime.Podman.Values.{
  values, flags, values-append, flags-append, values_flags, flags_all, values_same, values_other,
  flags_absent,
}
use codex_cursor_devstack.Runtime.Podman.Argv.{
  environment_text, volume, variable, user_options, isolation_options, confinement, tmpfs_options,
  plan_options,
}

abbrev pub mode_word : Bool → String
mode_word true = "ro"
mode_word false = "rw"

-- The source, the target and the mode of a mount, as the `-v` option takes them.
abbrev pub volume_word : ExecutionMount → String
volume_word m = m.source <> ":" <> m.target <> ":" <> mode_word m.read_only

abbrev pub plan_mounts : ExecutionPlan → List ExecutionMount
plan_mounts p =
    (p.workspace_mount ∷ p.reference_mounts)
    ++ ((p.task_metadata_mount ∷ p.provider_state_mounts)
        ++ (p.provider_policy_artifacts.mounts ++ p.auxiliary_mounts))

abbrev pub bootstrap_flags : Bool → List String
bootstrap_flags b = if b then "--security-opt=unmask=/proc/*" ∷ [] else []

volume_words : (ms : List ExecutionMount) → map mount_text ms ≡ map volume_word ms
unfolding mount_text
volume_words [] = refl
volume_words (m ∷ ms) = rw (by_mode m.read_only, volume_words ms) refl
  where
    by_mode : (b : Bool) → (if b then "ro" else "rw") ≡ mode_word b
    by_mode true = refl
    by_mode false = refl

module _ (str : Value → String) where
  abbrev pub number_word : Option ℤ → String
  number_word none = "None"
  number_word (some i) = str (Value.int i)

  abbrev pub user_text : RuntimeIsolationRequirements → List String
  user_text r = elim r.uid [
    | none ↦ []
    | some i ↦ (number_word (some i) <> ":" <> number_word r.gid) ∷ []
  ]

  number_word-id_text : (i : Option ℤ) → id_text str i ≡ number_word i
  unfolding id_text
  number_word-id_text none = refl
  number_word-id_text (some i) = refl

  -- An option with another name than `--user` is not among the isolation options.
  values_isolation :
      (uid gid : Option ℤ) (b : Bool) (name : String)
      → str_eq "--user" name ≡ false
      → values name
          (isolation_options str (record { uid = uid; gid = gid; nested_sandbox_bootstrap = b }))
        ≡ []
  unfolding values isolation_options user_options
  values_isolation none gid true name h = refl
  values_isolation none gid false name h = refl
  values_isolation (some i) gid true name h = rw h refl
  values_isolation (some i) gid false name h = rw h refl

  values_user :
      (uid gid : Option ℤ) (b : Bool)
      → values "--user"
          (isolation_options str (record { uid = uid; gid = gid; nested_sandbox_bootstrap = b }))
        ≡ user_text (record { uid = uid; gid = gid; nested_sandbox_bootstrap = b })
  unfolding values isolation_options user_options
  values_user none gid true = refl
  values_user none gid false = refl
  values_user (some i) gid true = rw (number_word-id_text (some i), number_word-id_text gid) refl
  values_user (some i) gid false = rw (number_word-id_text (some i), number_word-id_text gid) refl

  flags_isolation :
      (uid gid : Option ℤ) (b : Bool)
      → flags
          (isolation_options str (record { uid = uid; gid = gid; nested_sandbox_bootstrap = b }))
        ≡ bootstrap_flags b
  unfolding flags isolation_options user_options
  flags_isolation none gid true = refl
  flags_isolation none gid false = refl
  flags_isolation (some i) gid true = refl
  flags_isolation (some i) gid false = refl

  plan_values :
      (p : ExecutionPlan) (name : String)
      → values name (plan_options str p)
        ≡ values name tmpfs_options
          ++ (values name (isolation_options str p.runtime_isolation)
              ++ (values name (map volume (all_mounts p))
                  ++ values name (valued "-w" p.working_directory ∷ map variable p.environment)))
  unfolding plan_options
  plan_values p name =
      rw
        (
          values-append name (map flag (confinement str p) ++ tmpfs_options) (
              isolation_options str p.runtime_isolation
              ++ (map volume (all_mounts p)
                  ++ (valued "-w" p.working_directory ∷ map variable p.environment))),
          values-append name (map flag (confinement str p)) tmpfs_options,
          values_flags name (confinement str p),
          values-append name (isolation_options str p.runtime_isolation) (
              map volume (all_mounts p)
              ++ (valued "-w" p.working_directory ∷ map variable p.environment)),
          values-append name (map volume (all_mounts p))
              (valued "-w" p.working_directory ∷ map variable p.environment),
        )
        refl

  module _ (p : ExecutionPlan) where
    abbrev mounted : List RunOption
    mounted = map volume (all_mounts p)

    abbrev work : List RunOption
    work = valued "-w" p.working_directory ∷ map variable p.environment

    abbrev identity : RuntimeIsolationRequirements
    identity = p.runtime_isolation

    plan_mount_texts : values "-v" (plan_options str p) ≡ map mount_text (all_mounts p)
    unfolding values
    plan_mount_texts =
        rw
          (
            plan_values p "-v",
            values_isolation identity.uid identity.gid identity.nested_sandbox_bootstrap "-v" refl,
            values_same "-v" mount_text "-v" (all_mounts p) refl,
            values_other "-e" environment_text "-v" p.environment refl,
          )
          (append-nil _)

    pub plan_volumes : values "-v" (plan_options str p) ≡ map volume_word (plan_mounts p)
    unfolding all_mounts
    plan_volumes = plan_mount_texts ∙ volume_words (all_mounts p)

    pub plan_temporary :
        values "--tmpfs" (plan_options str p)
        ≡ "/tmp:rw,nosuid,nodev,size=512m" ∷ "/run:rw,nosuid,nodev,size=64m" ∷ []
    unfolding values
    plan_temporary =
        rw
          (
            plan_values p "--tmpfs",
            values_isolation identity.uid identity.gid identity.nested_sandbox_bootstrap "--tmpfs"
                refl,
            values_other "-v" mount_text "--tmpfs" (all_mounts p) refl,
            values_other "-e" environment_text "--tmpfs" p.environment refl,
          )
          refl

    pub plan_environment : values "-e" (plan_options str p) ≡ map environment_text p.environment
    unfolding values
    plan_environment =
        rw
          (
            plan_values p "-e",
            values_isolation identity.uid identity.gid identity.nested_sandbox_bootstrap "-e" refl,
            values_other "-v" mount_text "-e" (all_mounts p) refl,
            values_same "-e" environment_text "-e" p.environment refl,
          )
          refl

    pub plan_directory : values "-w" (plan_options str p) ≡ p.working_directory ∷ []
    unfolding values
    plan_directory =
        rw
          (
            plan_values p "-w",
            values_isolation identity.uid identity.gid identity.nested_sandbox_bootstrap "-w" refl,
            values_other "-v" mount_text "-w" (all_mounts p) refl,
            values_other "-e" environment_text "-w" p.environment refl,
          )
          refl

    pub plan_user : values "--user" (plan_options str p) ≡ user_text identity
    unfolding values
    plan_user =
        rw
          (
            plan_values p "--user",
            values_user identity.uid identity.gid identity.nested_sandbox_bootstrap,
            values_other "-v" mount_text "--user" (all_mounts p) refl,
            values_other "-e" environment_text "--user" p.environment refl,
          )
          (append-nil _)

    pub plan_cid : values "--cidfile" (plan_options str p) ≡ []
    unfolding values
    plan_cid =
        rw
          (
            plan_values p "--cidfile",
            values_isolation identity.uid identity.gid identity.nested_sandbox_bootstrap "--cidfile"
                refl,
            values_other "-v" mount_text "--cidfile" (all_mounts p) refl,
            values_other "-e" environment_text "--cidfile" p.environment refl,
          )
          refl

    plan_flag_parts :
        flags (plan_options str p)
        ≡ (confinement str p ++ flags tmpfs_options)
          ++ (flags (isolation_options str identity) ++ (flags mounted ++ flags work))
    unfolding plan_options
    plan_flag_parts =
        rw
          (
            flags-append (map flag (confinement str p) ++ tmpfs_options)
                (isolation_options str identity ++ (mounted ++ work)),
            flags-append (map flag (confinement str p)) tmpfs_options,
            flags_all (confinement str p),
            flags-append (isolation_options str identity) (mounted ++ work),
            flags-append mounted work,
          )
          refl

    pub plan_flags :
        flags (plan_options str p)
        ≡ confinement str p ++ bootstrap_flags identity.nested_sandbox_bootstrap
    unfolding flags
    plan_flags =
        rw
          (
            plan_flag_parts,
            flags_isolation identity.uid identity.gid identity.nested_sandbox_bootstrap,
            flags_absent "-v" mount_text (all_mounts p),
            flags_absent "-e" environment_text p.environment,
            append-nil (confinement str p),
            append-nil (bootstrap_flags identity.nested_sandbox_bootstrap),
          )
          refl
