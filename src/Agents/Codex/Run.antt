-- ===== src/Agents/Codex/Run.antt =====
-- Which prompts `create_run_spec` of agents/codex.py takes.
use mathlib.Core.Path.{subst}
use codex_cursor_devstack.Base.{
  guard-eq-ok, sym, ◌∙◌, ◌≡◌, refl, ◌↔◌, String, true, false, ◌||◌, List, [], ◌∷◌, ◌++◌, codes,
  has_code, is_line, strip, is_empty, if◌then◌else◌, ok, ◌>>=◌, >>=-eq-ok, arith,
}
use codex_cursor_devstack.Policy.Capabilities.{all_lines}
use codex_cursor_devstack.Agents.Specs.{
  ProviderPolicyArtifacts, RunSpec, check_policy_artifacts, check_run, require_argv, require_items,
  require_environment, require_entries,
}
use codex_cursor_devstack.Agents.Plain.{all_lines-append, require_items-all_lines}
use codex_cursor_devstack.Agents.Codex.{create_run_spec}

abbrev prompt_words : String → List String
prompt_words prompt = if is_empty (strip (codes prompt)) then [] else prompt ∷ []

abbrev run_of : ProviderPolicyArtifacts → String → RunSpec
run_of a prompt = record {
  argv = "codex" ∷ "exec" ∷ (a.argv ++ prompt_words prompt);
  environment = [];
  interactive = true;
  policy_artifacts = a;
  runtime_isolation = a.runtime_isolation;
}

prompt_lines :
    (prompt : String)
    → all_lines (prompt_words prompt) ≡ (is_empty (strip (codes prompt)) || is_line prompt)
unfolding all_lines
prompt_lines prompt = ground arith

-- The words of a run are lines if the driver's words and the policy's are, and the prompt is.
run_lines :
    (argv : List String) (prompt : String)
    → all_lines argv ≡ true
    → all_lines ("codex" ∷ "exec" ∷ (argv ++ prompt_words prompt))
      ≡ (is_empty (strip (codes prompt)) || is_line prompt)
unfolding all_lines is_line has_code
run_lines argv prompt h =
    rw (all_lines-append argv (prompt_words prompt), h, prompt_lines prompt) refl

check_policy_artifacts-all_lines :
    (a : ProviderPolicyArtifacts) → check_policy_artifacts a ≡ ok tt → all_lines a.argv ≡ true
unfolding check_policy_artifacts
check_policy_artifacts-all_lines a h =
    let (_, rest) = guard-eq-ok _ _ _ h in
    let (_, items, _) = >>=-eq-ok _ _ rest in
    (require_items-all_lines a.argv "policy argv item").0 items

check_run-eq-ok :
    (r : RunSpec)
    → r.environment ≡ []
    → is_empty r.argv ≡ false
    → (check_run r ≡ ok tt) ↔ (all_lines r.argv ≡ true)
unfolding check_run require_argv
check_run-eq-ok r e n = (
  λ h.
      let (_, argv_ok, _) = >>=-eq-ok _ _ h in
      let (_, items) = guard-eq-ok _ _ _ argv_ok in
      (require_items-all_lines r.argv "run argv item").0 items,
  λ h.
      no_environment (subst (λ es. require_environment es "run" ≡ ok tt) (sym e) nothing)
        ((require_items-all_lines r.argv "run argv item").1 h),
)
  where
    nothing : require_environment [] "run" ≡ ok tt
    nothing = unfold require_environment require_entries in refl

    no_environment :
        require_environment r.environment "run" ≡ ok tt
        → require_items r.argv "run argv item" ≡ ok tt
        → check_run r ≡ ok tt
    no_environment h k = unfold ◌>>=◌ in rw (n, k, h) refl

-- With artifacts that pass their checks, a run is described exactly for a prompt that is blank or
-- one line of text: any other prompt of several lines is refused.
pub create_run_spec-eq-ok :
    (a : ProviderPolicyArtifacts) (prompt : String)
    → check_policy_artifacts a ≡ ok tt
    → ((r : RunSpec) × (create_run_spec a prompt ≡ ok r))
      ↔ ((is_empty (strip (codes prompt)) || is_line prompt) ≡ true)
unfolding create_run_spec
create_run_spec-eq-ok a prompt passes =
    let lines = run_lines a.argv prompt (check_policy_artifacts-all_lines a passes) in
    let checked = check_run-eq-ok (run_of a prompt) refl refl in
    (
      λ (r, made). let (_, run_ok, _) = >>=-eq-ok _ _ made in sym lines ∙ checked.0 run_ok,
      λ h. (run_of a prompt, unfold ◌>>=◌ in rw (checked.1 (lines ∙ h)) refl),
    )
