-- ===== src/Tests/Agents.antt =====
-- Policies that the drivers compile, and prompts.
use codex_cursor_devstack.Base.{
  ◌≡◌, refl, ◌↔◌, String, true, false, [], ◌∷◌, has_code, is_line, strip, lstrip, is_space, ok,
  ◌>>=◌,
}
use codex_cursor_devstack.Base.Value.{Value}
use codex_cursor_devstack.Policy.Choices.{SecurityClass}
use codex_cursor_devstack.Policy.Schema.{ExecutionPolicy, IsValid}
use codex_cursor_devstack.Agents.Specs.{
  ProviderPolicyArtifacts, RunSpec, check_policy_artifacts, require_items, require_text,
  require_environment, require_entries, all_distinct, default_isolation,
}
use codex_cursor_devstack.Agents.Plain.{IsPlain}
use codex_cursor_devstack.Agents.Codex.{create_run_spec, compile_execution_policy}
use codex_cursor_devstack.Agents.Codex.Confines.{
  ConfinesCodex, compile_execution_policy-ConfinesCodex,
}
use codex_cursor_devstack.Agents.Codex.Supports.{
  IsCodexPolicy, compile_execution_policy-IsCodexPolicy,
}
use codex_cursor_devstack.Agents.Codex.Run.{create_run_spec-eq-ok}
use codex_cursor_devstack.Agents.Cursor.{compile_execution_policy as compile_for_cursor}
use codex_cursor_devstack.Agents.Cursor.Asks.{
  AsksCursor, IsCursorPolicy, compile_execution_policy-AsksCursor,
}
use codex_cursor_devstack.Agents.Cursor.Supports.{compile_execution_policy-IsCursorPolicy}
use codex_cursor_devstack.Tests.Policies.{baseline, baseline-IsValid}

abbrev shell : ExecutionPolicy
shell = record baseline { security_class = SecurityClass.compatibility }

shell-IsValid : IsValid shell
shell-IsValid = record {
  version_one = refl;
  network_valid = baseline-IsValid.network_valid;
  resources_valid = baseline-IsValid.resources_valid;
}

shell-IsCodexPolicy : IsCodexPolicy shell
shell-IsCodexPolicy = record {
  compatible = refl;
  with_workspace = refl;
  read_offline = λ h. cc;
  sandboxed = λ h. refl;
}

shell-IsCursorPolicy : IsCursorPolicy shell
shell-IsCursorPolicy = record {
  compatible = refl;
  workspace = refl;
  sandboxed = refl;
  hides_state = λ h. refl;
}

-- Printers that need not be JSON's.
abbrev quoted : String → String
quoted s = "\"host\""

abbrev printed : Value → String
printed v = "{}"

quoted-IsPlain : (s : String) → IsPlain (quoted s)
unfolding has_code
quoted-IsPlain s = record { no_nul = refl; no_newline = refl }

printed-IsPlain : (v : Value) → IsPlain (printed v)
unfolding has_code
printed-IsPlain v = record { no_nul = refl; no_newline = refl }

compile_execution_policy-IsCodexPolicy_example :
    ((a : ProviderPolicyArtifacts) × (compile_execution_policy quoted shell ≡ ok a))
    ↔ IsCodexPolicy shell
compile_execution_policy-IsCodexPolicy_example =
    compile_execution_policy-IsCodexPolicy quoted quoted-IsPlain shell shell-IsValid

-- The artifacts of the policy.
codex_artifacts : (a : ProviderPolicyArtifacts) × (compile_execution_policy quoted shell ≡ ok a)
codex_artifacts =
    (compile_execution_policy-IsCodexPolicy quoted quoted-IsPlain shell shell-IsValid).1
      shell-IsCodexPolicy

compile_execution_policy-ConfinesCodex_example : ConfinesCodex shell codex_artifacts.0
compile_execution_policy-ConfinesCodex_example =
    compile_execution_policy-ConfinesCodex quoted shell codex_artifacts.0 codex_artifacts.1

compile_execution_policy-IsCursorPolicy_example :
    ((a : ProviderPolicyArtifacts) × (compile_for_cursor printed shell ≡ ok a))
    ↔ IsCursorPolicy shell
compile_execution_policy-IsCursorPolicy_example =
    compile_execution_policy-IsCursorPolicy printed printed-IsPlain shell shell-IsValid

cursor_artifacts : (a : ProviderPolicyArtifacts) × (compile_for_cursor printed shell ≡ ok a)
cursor_artifacts =
    (compile_execution_policy-IsCursorPolicy printed printed-IsPlain shell shell-IsValid).1
      shell-IsCursorPolicy

compile_execution_policy-AsksCursor_example : AsksCursor printed shell cursor_artifacts.0
compile_execution_policy-AsksCursor_example =
    compile_execution_policy-AsksCursor printed shell cursor_artifacts.0 cursor_artifacts.1

abbrev read_only : ProviderPolicyArtifacts
read_only = record {
  files = [];
  argv = "--sandbox" ∷ "read-only" ∷ [];
  environment = [];
  runtime_isolation = default_isolation;
  generated_files = [];
}

read_only_passes : check_policy_artifacts read_only ≡ ok tt
unfolding check_policy_artifacts all_distinct require_items require_text require_environment
    require_entries is_line has_code ◌>>=◌
read_only_passes = refl

-- The prompt has two lines.
create_run_spec-eq-ok_example :
    ((r : RunSpec) × (create_run_spec read_only "one\ntwo" ≡ ok r)) ↔ (false ≡ true)
unfolding is_line has_code strip lstrip is_space
create_run_spec-eq-ok_example = create_run_spec-eq-ok read_only "one\ntwo" read_only_passes
