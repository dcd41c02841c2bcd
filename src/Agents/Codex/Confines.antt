-- ===== src/Agents/Codex/Confines.antt =====
-- What the artifacts of `_compile_execution_policy`, agents/codex.py, hold a run to.
use mathlib.Core.Path.{subst}
use codex_cursor_devstack.Base.{
  ◌≢◌, ◌∙◌, Ensures, Ensures-ok, Ensures-bind, guard-true, subset, is_line, has_code, ◌≡◌, refl,
  sym, ok-injective, String, Bool, true, false, Option, none, some, List, [], ◌∷◌, ◌++◌, ◌||◌,
  contains, contains-append, str_eq, ok, ◌>>=◌, if◌then◌else◌, arith,
}
use codex_cursor_devstack.Base.Value.{ℤ}
use codex_cursor_devstack.Execution.Mounts.{RuntimeIsolationRequirements}
use codex_cursor_devstack.Policy.Choices.{WorkspaceAccess, NetworkMode, Visibility, SecurityClass}
use codex_cursor_devstack.Policy.Schema.{ExecutionPolicy}
use codex_cursor_devstack.Policy.Capabilities.{
  AgentCapabilities, all_lines, new_capabilities, available_capabilities, prefixed,
}
use codex_cursor_devstack.Agents.Specs.{ProviderPolicyArtifacts}
use codex_cursor_devstack.Agents.Declared.{require_policy_capabilities-compatibility}
use codex_cursor_devstack.Agents.Codex.Settings.{
  HidesState, HidesState-append, confidential-HidesState,
}
use codex_cursor_devstack.Agents.Codex.{
  sandbox_isolation, control_isolation, is_read_or_write, declared_capabilities, codex_capabilities,
  new_artifacts, codex_task_egress_config_argv, codex_credential_confidentiality_config_argv,
  network_argv, credential_argv, sandbox_argv, compile_execution_policy,
}

-- The word after the first `flag`.
abbrev pub word_after : String → List String → Option String
word_after flag [] = none
word_after flag (w ∷ []) = none
word_after flag (w ∷ v ∷ rest) = if str_eq w flag then some v else word_after flag (v ∷ rest)

abbrev pub sandbox_mode : WorkspaceAccess → String
sandbox_mode WorkspaceAccess.read = "read-only"
sandbox_mode _ = "workspace-write"

-- The agent's user, with the privileges that a nested sandbox needs if there is one.
abbrev pub agent_identity : Bool → RuntimeIsolationRequirements
agent_identity nested = record {
  uid = some (ℤ.pos 1000);
  gid = some (ℤ.pos 1000);
  nested_sandbox_bootstrap = nested;
}

pub record ConfinesCodex (p : ExecutionPolicy) (a : ProviderPolicyArtifacts) : Type 0 where
  pub compatible : p.security_class ≡ SecurityClass.compatibility
  pub with_workspace : p.workspace ≢ WorkspaceAccess.no_access
  pub sandbox : word_after "--sandbox" a.argv ≡ some (sandbox_mode p.workspace)
  pub offline :
      p.network.mode ≡ NetworkMode.deny
      → contains a.argv "sandbox_workspace_write.network_access=true" ≡ false
  pub hides_state : p.credentials ≡ Visibility.deny → HidesState p.workspace a.argv
  pub sandboxed : p.credentials ≡ Visibility.deny → p.sandbox ≡ true
  pub read_offline : p.workspace ≡ WorkspaceAccess.read → p.network.mode ≡ NetworkMode.deny
  pub identity : a.runtime_isolation ≡ agent_identity p.sandbox

identity_of : (b : Bool) → (if b then sandbox_isolation else control_isolation) ≡ agent_identity b
identity_of true = refl
identity_of false = refl

works : (w : WorkspaceAccess) → is_read_or_write w ≡ true → w ≢ WorkspaceAccess.no_access
works WorkspaceAccess.read h e = cc
works WorkspaceAccess.write h e = cc
works WorkspaceAccess.no_access h e = cc

pub codex_capabilities_lem : codex_capabilities ≡ ok declared_capabilities
unfolding codex_capabilities new_capabilities declared_capabilities subset all_lines is_line
    has_code ◌>>=◌
codex_capabilities_lem = refl

module _ (dumps : String → String) where
  network_offline :
      (workspace : WorkspaceAccess) (mode : NetworkMode) (ds egress : List String)
      → mode ≡ NetworkMode.deny
      → network_argv dumps workspace mode ds ≡ ok egress
      → contains egress "sandbox_workspace_write.network_access=true" ≡ false
  unfolding network_argv codex_task_egress_config_argv ◌>>=◌
  network_offline WorkspaceAccess.read NetworkMode.deny ds egress e h = ground arith
  network_offline WorkspaceAccess.write NetworkMode.deny ds egress e h = ground arith
  network_offline WorkspaceAccess.no_access NetworkMode.deny ds egress e h = ground arith
  network_offline workspace NetworkMode.allow ds egress e h = cc
  network_offline workspace NetworkMode.allowlist ds egress e h = cc

  network_read :
      (workspace : WorkspaceAccess) (mode : NetworkMode) (ds egress : List String)
      → workspace ≡ WorkspaceAccess.read
      → network_argv dumps workspace mode ds ≡ ok egress
      → mode ≡ NetworkMode.deny
  unfolding network_argv
  network_read WorkspaceAccess.read NetworkMode.deny ds egress e h = refl
  network_read WorkspaceAccess.read NetworkMode.allow ds egress e h = cc
  network_read WorkspaceAccess.read NetworkMode.allowlist ds egress e h = cc
  network_read WorkspaceAccess.write mode ds egress e h = cc
  network_read WorkspaceAccess.no_access mode ds egress e h = cc

  credential_hidden :
      (v : Visibility) (sandboxed : Bool) (workspace : WorkspaceAccess) (words : List String)
      → v ≡ Visibility.deny
      → credential_argv v sandboxed workspace ≡ ok words
      → HidesState workspace words × (sandboxed ≡ true)
  unfolding credential_argv ◌>>=◌
  credential_hidden Visibility.deny true workspace words e h =
      (confidential-HidesState workspace words h, refl)
  credential_hidden Visibility.deny false workspace words e h = cc
  credential_hidden Visibility.allow sandboxed workspace words e h = cc

  credential_offline :
      (v : Visibility) (sandboxed : Bool) (workspace : WorkspaceAccess) (words : List String)
      → credential_argv v sandboxed workspace ≡ ok words
      → contains words "sandbox_workspace_write.network_access=true" ≡ false
  unfolding credential_argv codex_credential_confidentiality_config_argv ◌>>=◌
  credential_offline Visibility.deny true WorkspaceAccess.read words h = ground arith
  credential_offline Visibility.deny true WorkspaceAccess.write words h = ground arith
  credential_offline Visibility.deny true WorkspaceAccess.no_access words h = cc
  credential_offline Visibility.deny false workspace words h = cc
  credential_offline Visibility.allow sandboxed workspace words h = ground arith

  sandbox_argv_word :
      (workspace : WorkspaceAccess) (rest : List String)
      → word_after "--sandbox" (sandbox_argv workspace ++ rest) ≡ some (sandbox_mode workspace)
  sandbox_argv_word WorkspaceAccess.read rest = refl
  sandbox_argv_word WorkspaceAccess.write rest = refl
  sandbox_argv_word WorkspaceAccess.no_access rest = refl

  sandbox_argv_offline :
      (workspace : WorkspaceAccess)
      → contains (sandbox_argv workspace) "sandbox_workspace_write.network_access=true" ≡ false
  sandbox_argv_offline WorkspaceAccess.read = refl
  sandbox_argv_offline WorkspaceAccess.write = refl
  sandbox_argv_offline WorkspaceAccess.no_access = refl

  no_hardened :
      (c : AgentCapabilities)
      → codex_capabilities ≡ ok c
      → contains (available_capabilities c) "security_class:hardened" ≡ false
  unfolding available_capabilities declared_capabilities prefixed
  no_hardened c h =
      subst (λ d. contains (available_capabilities d) "security_class:hardened" ≡ false)
        (ok-injective declared_capabilities c (sym codex_capabilities_lem ∙ h)) refl

  -- The three parts of the arguments.
  contains_parts :
      (xs ys zs : List String) (s : String)
      → contains (xs ++ (ys ++ zs)) s ≡ (contains xs s || (contains ys s || contains zs s))
  contains_parts xs ys zs s = rw (contains-append xs (ys ++ zs) s, contains-append ys zs s) refl

  module _ (p : ExecutionPolicy) (egress confidential : List String) where
    abbrev words : List String
    words = sandbox_argv p.workspace ++ (egress ++ confidential)

    compiled_offline :
        network_argv dumps p.workspace p.network.mode p.network.destinations ≡ ok egress
        → credential_argv p.credentials p.sandbox p.workspace ≡ ok confidential
        → p.network.mode ≡ NetworkMode.deny
        → contains words "sandbox_workspace_write.network_access=true" ≡ false
    compiled_offline h k deny =
        rw
          (
            contains_parts (sandbox_argv p.workspace) egress confidential
                "sandbox_workspace_write.network_access=true",
            sandbox_argv_offline p.workspace,
            network_offline p.workspace p.network.mode p.network.destinations egress deny h,
            credential_offline p.credentials p.sandbox p.workspace confidential k,
          )
          refl

    compiled_hides : HidesState p.workspace confidential → HidesState p.workspace words
    compiled_hides h =
        HidesState-append p.workspace (sandbox_argv p.workspace) (egress ++ confidential)
          (HidesState-append p.workspace egress confidential h)

  compile_execution_policy-Ensures :
      (p : ExecutionPolicy) → Ensures (ConfinesCodex p) (compile_execution_policy dumps p)
  unfolding compile_execution_policy new_artifacts
  compile_execution_policy-Ensures p = Ensures-bind _ _ λ c declared.
      Ensures-bind _ _ λ required passed. Ensures-bind _ _ λ _ workspace.
        Ensures-bind _ _ λ egress egress_ok. Ensures-bind _ _ λ confidential confidential_ok.
          Ensures-bind _ _ λ _ checked. Ensures-ok _ (record {
            compatible =
                require_policy_capabilities-compatibility p c required (no_hardened c declared)
                  passed;
            with_workspace = works p.workspace (guard-true _ _ _ workspace);
            sandbox = sandbox_argv_word p.workspace (egress ++ confidential);
            offline = compiled_offline p egress confidential egress_ok confidential_ok;
            hides_state = λ deny.
                compiled_hides p egress confidential
                  (credential_hidden p.credentials p.sandbox p.workspace confidential deny
                    confidential_ok).0;
            sandboxed = λ deny.
                (credential_hidden p.credentials p.sandbox p.workspace confidential deny
                  confidential_ok).1;
            read_offline = λ read.
                network_read p.workspace p.network.mode p.network.destinations egress read
                  egress_ok;
            identity = identity_of p.sandbox;
          })

  -- Compiled artifacts are those of a compatibility policy with a workspace. They name the sandbox
  -- of its access, and do not turn the network on where it is denied (as it is for a reader). Where
  -- credentials are denied, which takes a sandbox, the last settings select a permission profile that
  -- denies the provider's state. They run as the agent's user, with the sandbox's privileges only if
  -- it is required.
  pub compile_execution_policy-ConfinesCodex :
      (p : ExecutionPolicy) (a : ProviderPolicyArtifacts)
      → compile_execution_policy dumps p ≡ ok a
      → ConfinesCodex p a
  compile_execution_policy-ConfinesCodex p a h = (compile_execution_policy-Ensures p).at a h
