-- ===== src/Runtime/Podman/Says.antt =====
-- What the command of runtime/podman.py asks for.
use codex_cursor_devstack.Base.{
  same_codes, ◌≡◌, refl, ◌∙◌, ap, String, false, none, some, List, [], ◌∷◌, ◌++◌, map, str_eq,
  if◌then◌else◌, ok, ◌>>=◌, Bool-cases, inl, inr,
}
use codex_cursor_devstack.Base.Value.{Value}
use codex_cursor_devstack.Execution.Plan.{ExecutionPlan}
use codex_cursor_devstack.Runtime.Podman.{
  execution_plan_argv, add_cidfile, execute, interactive, noninteractive, run_podman_argv,
  fixed_args,
}
use codex_cursor_devstack.Runtime.Podman.Reading.{
  valued, RunRequest, takes_value, starts_dash, is_valued, is_among, add_option, read_run,
  read_valued,
}
use codex_cursor_devstack.Runtime.Podman.Values.{values, flags}
use codex_cursor_devstack.Runtime.Podman.Argv.{
  environment_text, confinement, plan_options, read_plan,
}
use codex_cursor_devstack.Runtime.Podman.Options.{
  volume_word, plan_mounts, user_text, bootstrap_flags, plan_volumes, plan_temporary,
  plan_environment, plan_directory, plan_user, plan_cid, plan_flags,
}

abbrev after_run : List String → List String
after_run (first ∷ second ∷ rest) = rest
after_run _ = []

module _ (str : Value → String) where
  -- Read as a `podman run` command, the words ask for the plan's image and command, confined, with
  -- the plan's mounts in their modes and the plan's environment, and for nothing else.
  pub record Says (p : ExecutionPlan) (cidfiles words : List String) : Type 0 where
    pub request : RunRequest
    pub reads : read_run words ≡ some request
    pub image : request.image ≡ p.image
    pub command : request.command ≡ p.argv
    pub confined :
        flags request.options
        ≡ confinement str p ++ bootstrap_flags p.runtime_isolation.nested_sandbox_bootstrap
    pub volumes : values "-v" request.options ≡ map volume_word (plan_mounts p)
    pub environment : values "-e" request.options ≡ map environment_text p.environment
    pub temporary :
        values "--tmpfs" request.options
        ≡ "/tmp:rw,nosuid,nodev,size=512m" ∷ "/run:rw,nosuid,nodev,size=64m" ∷ []
    pub working_directory : values "-w" request.options ≡ p.working_directory ∷ []
    pub user : values "--user" request.options ≡ user_text str p.runtime_isolation
    pub cid : values "--cidfile" request.options ≡ cidfiles

  module _ (p : ExecutionPlan) where
    execution_plan_argv-Says : starts_dash p.image ≡ false → Says p [] (execution_plan_argv str p)
    execution_plan_argv-Says h = record {
      request = record { options = plan_options str p; image = p.image; command = p.argv };
      reads = read_plan str p h;
      image = refl;
      command = refl;
      confined = plan_flags str p;
      volumes = plan_volumes str p;
      temporary = plan_temporary str p;
      environment = plan_environment str p;
      working_directory = plan_directory str p;
      user = plan_user str p;
      cid = plan_cid str p;
    }

    -- The same words after `podman run --cidfile cidfile`.
    add_cidfile-Says :
        (cidfile : String)
        → starts_dash p.image ≡ false
        → (words : List String) × (add_cidfile (execution_plan_argv str p) cidfile ≡ ok words)
          × Says p (cidfile ∷ []) words
    unfolding add_cidfile execution_plan_argv fixed_args values flags read_run add_option
        takes_value is_valued is_among same_codes
    add_cidfile-Says cidfile h = (
      _,
      refl,
      record {
        request = record {
          options = valued "--cidfile" cidfile ∷ plan_options str p;
          image = p.image;
          command = p.argv;
        };
        reads =
            read_valued "--cidfile" cidfile (after_run (execution_plan_argv str p)) refl
            ∙ ap (add_option (valued "--cidfile" cidfile)) (read_plan str p h);
        image = refl;
        command = refl;
        confined = plan_flags str p;
        volumes = plan_volumes str p;
        temporary = plan_temporary str p;
        environment = plan_environment str p;
        working_directory = plan_directory str p;
        user = plan_user str p;
        cid = ap (λ cs. cidfile ∷ cs) (plan_cid str p);
      },
    )

    -- A plan whose image does not start with a dash is run, in its mode and without a timeout, by
    -- words that read as a `podman run` command asking for what the plan says, confined; in
    -- interactive mode, with the cidfile.
    pub execute-Says :
        (cidfile : String)
        → starts_dash p.image ≡ false
        → (words : List String) × (execute str p cidfile
            ≡ ok (
                if str_eq p.interaction_mode "interactive"
                then interactive words none
                else noninteractive words))
          × Says p (if str_eq p.interaction_mode "interactive" then cidfile ∷ [] else []) words
    unfolding execute run_podman_argv ◌>>=◌
    execute-Says cidfile h = elim (Bool-cases (str_eq p.interaction_mode "interactive")) [
      | inl attached ↦
          let (words, made, says) = add_cidfile-Says cidfile h in
          rw attached (words, rw made refl, says)
      | inr plain ↦ rw plain (execution_plan_argv str p, refl, execution_plan_argv-Says h)
    ]
