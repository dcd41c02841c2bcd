-- ===== src/Agents/Cursor/Asks.antt =====
-- What the artifacts of `_compile_execution_policy`, agents/cursor.py, ask Cursor for.
use mathlib.Core.Path.{subst}
use codex_cursor_devstack.Base.{
  ◌≡◌, refl, sym, ap, ◌∙◌, guard-eq-ok, >>=-eq-ok, ◌≢◌, ok-injective, String, ◌<>◌, Bool, true,
  false, not, ◌&&◌, some, List, [], ◌∷◌, has_code, is_line, contains, subset, Result, ok, ◌>>=◌,
  Ensures, Ensures-ok, Ensures-bind, guard-true, arith,
}
use codex_cursor_devstack.Base.Value.{ℤ, Value}
use codex_cursor_devstack.Policy.Choices.{
  WorkspaceAccess, NetworkMode, Visibility, SecurityClass, security_choice,
}
use codex_cursor_devstack.Policy.Schema.{ExecutionPolicy}
use codex_cursor_devstack.Policy.Capabilities.{
  AgentCapabilities, all_lines, new_capabilities, available_capabilities, prefixed,
}
use codex_cursor_devstack.Agents.Specs.{ProviderPolicyArtifacts}
use codex_cursor_devstack.Agents.Declared.{require_policy_capabilities-compatibility}
use codex_cursor_devstack.Agents.Cursor.Document.{FilesAsked, sandbox_document-IsSandboxDocument}
use codex_cursor_devstack.Agents.Cursor.{
  sandbox_document, allowed_destinations, has_workspace, denies, declared_capabilities,
  cursor_capabilities, new_artifacts, cursor_task_egress_sandbox_json, sandboxed_artifacts,
  network_artifacts, compile_execution_policy,
}

abbrev pub is_limited : NetworkMode → Bool
is_limited NetworkMode.allow = false
is_limited _ = true

pub record IsCursorPolicy (p : ExecutionPolicy) : Type 0 where
  pub compatible : p.security_class ≡ SecurityClass.compatibility
  pub workspace : has_workspace p.workspace ≡ true
  pub sandboxed : p.sandbox ≡ is_limited p.network.mode
  pub hides_state : p.credentials ≡ Visibility.deny → p.sandbox ≡ true

abbrev pub switch : Bool → String
switch true = "enabled"
switch false = "disabled"

-- What the artifacts ask Cursor for: whether Cursor enforces it is not said.
pub record AsksCursor (dumps : Value → String) (p : ExecutionPolicy) (a : ProviderPolicyArtifacts)
    : Type 0 where
  pub argv : a.argv ≡ "--sandbox" ∷ switch p.sandbox ∷ []
  pub files : FilesAsked dumps p.sandbox p.workspace p.network.destinations a.generated_files
  pub no_other_files : a.files ≡ []
  pub identity : a.runtime_isolation ≡ record {
    uid = some (ℤ.pos 1000);
    gid = some (ℤ.pos 1000);
    nested_sandbox_bootstrap = p.sandbox;
  }

pub cursor_capabilities_lem : cursor_capabilities ≡ ok declared_capabilities
unfolding cursor_capabilities new_capabilities declared_capabilities subset all_lines is_line
    has_code ◌>>=◌
cursor_capabilities_lem = refl

no_hardened :
    (c : AgentCapabilities)
    → cursor_capabilities ≡ ok c
    → contains (available_capabilities c) "security_class:hardened" ≡ false
unfolding available_capabilities declared_capabilities prefixed
no_hardened c h =
    subst (λ d. contains (available_capabilities d) "security_class:hardened" ≡ false)
      (ok-injective declared_capabilities c (sym cursor_capabilities_lem ∙ h)) refl

pub clash : false ≢ true
clash h = cc

allowed_same :
    (mode : NetworkMode) (ds allow : List String)
    → allowed_destinations mode ds ≡ ok allow
    → allow ≡ ds
unfolding allowed_destinations ◌>>=◌
allowed_same NetworkMode.deny [] allow h = ground arith
allowed_same NetworkMode.deny (d ∷ ds) allow h = cc
allowed_same NetworkMode.allowlist ds allow h = ground arith
allowed_same NetworkMode.allow ds allow h = cc

hidden_sandbox :
    (v : Visibility) (sandboxed : Bool)
    → v ≡ Visibility.deny
    → not (denies v && not sandboxed) ≡ true
    → sandboxed ≡ true
hidden_sandbox Visibility.deny true e h = refl
hidden_sandbox Visibility.deny false e h = cc
hidden_sandbox Visibility.allow sandboxed e h = cc

Ensures-mono :
    {A : Type 0} {P Q : A → Type 0} {r : Result A}
    → Ensures P r
    → ((a : A) → P a → Q a)
    → Ensures Q r
Ensures-mono h k = record { at = λ a e. k a (h.at a e) }

module _ (dumps : Value → String) where
  -- What the artifacts have to do with the parts of the policy.
  record Parts (sandboxed : Bool) (w : WorkspaceAccess) (mode : NetworkMode) (ds : List String)
      (a : ProviderPolicyArtifacts) : Type 0 where
    pub limited : sandboxed ≡ is_limited mode
    pub words : a.argv ≡ "--sandbox" ∷ switch sandboxed ∷ []
    pub asked : FilesAsked dumps sandboxed w ds a.generated_files
    pub alone : a.files ≡ []
    pub same : a.runtime_isolation ≡ record {
      uid = some (ℤ.pos 1000);
      gid = some (ℤ.pos 1000);
      nested_sandbox_bootstrap = sandboxed;
    }

  json_content :
      (w : WorkspaceAccess) (mode : NetworkMode) (ds : List String) (content : String)
      → cursor_task_egress_sandbox_json dumps w mode ds ≡ ok content
      → content ≡ dumps (sandbox_document w ds) <> "\n"
  unfolding cursor_task_egress_sandbox_json
  json_content w mode ds content h =
      let (_, rest) = guard-eq-ok _ _ _ h in
      let (allow, allowed, same) = >>=-eq-ok _ _ rest in
      sym (ok-injective _ content same)
      ∙ ap (λ listed. dumps (sandbox_document w listed) <> "\n")
          (allowed_same mode ds allow allowed)

  sandboxed_artifacts-Parts :
      (w : WorkspaceAccess) (mode : NetworkMode) (ds : List String)
      → is_limited mode ≡ true
      → Ensures (Parts true w mode ds) (sandboxed_artifacts dumps w mode ds)
  unfolding sandboxed_artifacts cursor_task_egress_sandbox_json new_artifacts
  sandboxed_artifacts-Parts w mode ds l = Ensures-bind _ _ λ content made.
      Ensures-bind _ _ λ _ file. Ensures-bind _ _ λ _ checked. Ensures-ok _ (record {
        limited = sym l;
        words = refl;
        asked = record {
          target = refl;
          read_only = refl;
          document = sandbox_document w ds;
          content = json_content w mode ds content made;
          is_document = sandbox_document-IsSandboxDocument w ds;
        };
        alone = refl;
        same = refl;
      })

  network_artifacts-Parts :
      (sandboxed : Bool) (w : WorkspaceAccess) (mode : NetworkMode) (ds : List String)
      → Ensures (Parts sandboxed w mode ds) (network_artifacts dumps sandboxed w mode ds)
  unfolding network_artifacts new_artifacts
  network_artifacts-Parts true w NetworkMode.allow ds =
      Ensures-bind _ _ λ _ h. elim (clash (guard-true _ _ _ h)) [ ]
  network_artifacts-Parts false w NetworkMode.allow ds = Ensures-bind _ _ λ _ h.
      Ensures-bind _ _ λ _ checked.
        Ensures-ok _
          (record { limited = refl; words = refl; asked = refl; alone = refl; same = refl })
  network_artifacts-Parts true w NetworkMode.deny ds =
      Ensures-bind _ _ λ _ h. sandboxed_artifacts-Parts w NetworkMode.deny ds refl
  network_artifacts-Parts true w NetworkMode.allowlist ds =
      Ensures-bind _ _ λ _ h. sandboxed_artifacts-Parts w NetworkMode.allowlist ds refl
  network_artifacts-Parts false w NetworkMode.deny ds =
      Ensures-bind _ _ λ _ h. elim (clash (guard-true _ _ _ h)) [ ]
  network_artifacts-Parts false w NetworkMode.allowlist ds =
      Ensures-bind _ _ λ _ h. elim (clash (guard-true _ _ _ h)) [ ]

  pub compile_execution_policy-Ensures :
      (p : ExecutionPolicy)
      → Ensures (λ a. IsCursorPolicy p × AsksCursor dumps p a) (compile_execution_policy dumps p)
  unfolding compile_execution_policy
  compile_execution_policy-Ensures p = Ensures-bind _ _ λ c declared.
      Ensures-bind _ _ λ required passed. Ensures-bind _ _ λ _ workspace.
        Ensures-bind _ _ λ _ hidden.
          Ensures-mono
            (network_artifacts-Parts p.sandbox p.workspace p.network.mode p.network.destinations)
            λ a parts. (
              record {
                compatible =
                    require_policy_capabilities-compatibility p c required (no_hardened c declared)
                      passed;
                workspace = guard-true _ _ _ workspace;
                sandboxed = parts.limited;
                hides_state =
                    λ deny. hidden_sandbox p.credentials p.sandbox deny (guard-true _ _ _ hidden);
              },
              record {
                argv = parts.words;
                files = parts.asked;
                no_other_files = parts.alone;
                identity = parts.same;
              },
            )

  -- Compiled artifacts ask for the sandbox exactly if the policy requires it, and then carry one
  -- read-only file, Cursor's sandbox document: it denies by default, allows the policy's destinations
  -- and denies private addresses. They run as the agent's user, with the privileges of a nested
  -- sandbox exactly if the sandbox is required.
  pub compile_execution_policy-AsksCursor :
      (p : ExecutionPolicy) (a : ProviderPolicyArtifacts)
      → compile_execution_policy dumps p ≡ ok a
      → AsksCursor dumps p a
  compile_execution_policy-AsksCursor p a h = ((compile_execution_policy-Ensures p).at a h).1
