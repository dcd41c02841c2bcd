-- ===== src/Agents/Cursor/Supports.antt =====
-- Which policies `_compile_execution_policy` of agents/cursor.py supports.
use codex_cursor_devstack.Base.{
  ◌≡◌, refl, sym, ◌↔◌, String, ◌<>◌, Bool, true, false, not, ◌&&◌, List, [], ◌∷◌, ◌++◌, codes,
  codes-append, has_code, is_line, is_label, strip, lstrip, is_space, same_codes, ok, ◌>>=◌,
}
use codex_cursor_devstack.Base.Value.{Value}
use codex_cursor_devstack.Execution.Mounts.{is_absolute, has_parent}
use codex_cursor_devstack.Policy.Choices.{
  WorkspaceAccess, NetworkMode, Visibility, SecurityClass, security_choice,
}
use codex_cursor_devstack.Policy.Schema.{ExecutionPolicy, IsValid, Fits}
use codex_cursor_devstack.Policy.Capabilities.{
  available_capabilities, require_policy_capabilities, require_capabilities, prefixed, from_policy,
  workspace_requirement, hardened_requirement, all_labels, missing, verdict,
}
use codex_cursor_devstack.Agents.Specs.{
  ProviderPolicyArtifacts, check_policy_artifacts, check_generated_file, unsupported_if_missing,
  require_items, require_text, require_environment, require_entries, require_container_target,
  all_distinct, part_count, is_part,
}
use codex_cursor_devstack.Agents.Plain.{IsPlain, has_code-append}
use codex_cursor_devstack.Agents.Cursor.{
  with_file, sandbox_document, allowed_destinations, has_workspace, denies, declared_capabilities,
  without_files, new_artifacts, cursor_task_egress_sandbox_json, sandboxed_artifacts,
  network_artifacts, compile_execution_policy,
}
use codex_cursor_devstack.Agents.Cursor.Asks.{
  is_limited, IsCursorPolicy, cursor_capabilities_lem, clash, compile_execution_policy-Ensures,
}

requirements_pass :
    (w : WorkspaceAccess)
    → has_workspace w ≡ true
    → require_capabilities
        ("security_class:compatibility" ∷ (workspace_requirement w ++ []))
        declared_capabilities
      ≡ ok tt
unfolding require_capabilities all_labels is_label strip lstrip is_space same_codes has_code missing
    available_capabilities prefixed declared_capabilities verdict workspace_requirement ◌>>=◌
requirements_pass WorkspaceAccess.read h = refl
requirements_pass WorkspaceAccess.write h = refl
requirements_pass WorkspaceAccess.no_access h = cc

module _ (dumps : Value → String) (plain : (v : Value) → IsPlain (dumps v)) where
  json_total :
      (w : WorkspaceAccess) (mode : NetworkMode) (ds : List String)
      → has_workspace w ≡ true
      → is_limited mode ≡ true
      → Fits mode ds
      → cursor_task_egress_sandbox_json dumps w mode ds ≡ ok (dumps (sandbox_document w ds) <> "\n")
  unfolding cursor_task_egress_sandbox_json allowed_destinations ◌>>=◌
  json_total w NetworkMode.deny [] h l f = rw h refl
  json_total w NetworkMode.deny (d ∷ ds) h l f = cc
  json_total w NetworkMode.allowlist ds h l f = rw (h, f) refl
  json_total w NetworkMode.allow ds h l f = cc

  content_clean : (v : Value) → has_code 0 (codes (dumps v <> "\n")) ≡ false
  unfolding has_code
  content_clean v =
      rw (codes-append (dumps v) "\n")
        (has_code-append 0 (codes (dumps v)) (codes "\n") (plain v).no_nul refl)

  sandboxed_total :
      (w : WorkspaceAccess) (mode : NetworkMode) (ds : List String)
      → has_workspace w ≡ true
      → is_limited mode ≡ true
      → Fits mode ds
      → (a : ProviderPolicyArtifacts) × (sandboxed_artifacts dumps w mode ds ≡ ok a)
  unfolding sandboxed_artifacts new_artifacts check_generated_file check_policy_artifacts
      all_distinct require_items require_text require_environment require_entries
      require_container_target is_absolute has_parent part_count is_part is_line ◌>>=◌
  sandboxed_total w mode ds h l f = (
    with_file (dumps (sandbox_document w ds) <> "\n"),
    rw (json_total w mode ds h l f, content_clean (sandbox_document w ds)) refl,
  )

  network_total :
      (sandboxed : Bool) (w : WorkspaceAccess) (mode : NetworkMode) (ds : List String)
      → has_workspace w ≡ true
      → sandboxed ≡ is_limited mode
      → Fits mode ds
      → (a : ProviderPolicyArtifacts) × (network_artifacts dumps sandboxed w mode ds ≡ ok a)
  unfolding network_artifacts new_artifacts check_policy_artifacts all_distinct require_items
      require_text require_environment require_entries is_line has_code ◌>>=◌
  network_total false w NetworkMode.allow ds h l f =
      (without_files ("--sandbox" ∷ "disabled" ∷ []), refl)
  network_total true w NetworkMode.allow ds h l f = elim (clash (sym l)) [ ]
  network_total true w NetworkMode.deny ds h l f = sandboxed_total w NetworkMode.deny ds h refl f
  network_total true w NetworkMode.allowlist ds h l f =
      sandboxed_total w NetworkMode.allowlist ds h refl f
  network_total false w NetworkMode.deny ds h l f = elim (clash l) [ ]
  network_total false w NetworkMode.allowlist ds h l f = elim (clash l) [ ]

  credentials_total :
      (v : Visibility) (sandboxed : Bool)
      → (v ≡ Visibility.deny → sandboxed ≡ true)
      → not (denies v && not sandboxed) ≡ true
  credentials_total Visibility.deny true h = refl
  credentials_total Visibility.deny false h = h refl
  credentials_total Visibility.allow sandboxed h = refl

  capabilities_total :
      (p : ExecutionPolicy)
      → p.security_class ≡ SecurityClass.compatibility
      → has_workspace p.workspace ≡ true
      → require_policy_capabilities p declared_capabilities ≡ ok (from_policy p)
  unfolding require_policy_capabilities from_policy hardened_requirement ◌>>=◌
  capabilities_total p e w = rw (e, requirements_pass p.workspace w) refl

  compile_total :
      (p : ExecutionPolicy)
      → Fits p.network.mode p.network.destinations
      → IsCursorPolicy p
      → (a : ProviderPolicyArtifacts) × (compile_execution_policy dumps p ≡ ok a)
  unfolding compile_execution_policy unsupported_if_missing ◌>>=◌
  compile_total p fits s =
      let (a, made) =
        network_total p.sandbox p.workspace p.network.mode p.network.destinations s.workspace
          s.sandboxed fits in
      (
        a,
        rw
            (
              cursor_capabilities_lem,
              capabilities_total p s.compatible s.workspace,
              s.workspace,
              credentials_total p.credentials p.sandbox s.hides_state,
            )
            made,
      )

  -- A valid policy compiles exactly when it is a compatibility policy with a workspace that
  -- requires the sandbox exactly if it does not allow the network, and requires it if it denies
  -- credentials, provided that `json.dumps` yields neither a newline nor a NUL.
  pub compile_execution_policy-IsCursorPolicy :
      (p : ExecutionPolicy)
      → IsValid p
      → ((a : ProviderPolicyArtifacts) × (compile_execution_policy dumps p ≡ ok a))
        ↔ IsCursorPolicy p
  compile_execution_policy-IsCursorPolicy p valid = (
    λ (a, compiled). ((compile_execution_policy-Ensures dumps p).at a compiled).0,
    λ s. compile_total p valid.network_valid.fits s,
  )
