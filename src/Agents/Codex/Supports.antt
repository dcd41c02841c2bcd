-- ===== src/Agents/Codex/Supports.antt =====
-- Which policies `_compile_execution_policy` of agents/codex.py supports.
use codex_cursor_devstack.Base.{
  ◌≡◌, refl, ◌↔◌, ◌≢◌, String, ◌<>◌, Bool, true, false, List, [], ◌∷◌, ◌++◌, codes, codes-append,
  has_code, is_line, is_label, strip, lstrip, is_space, same_codes, is_empty, if◌then◌else◌, ok,
  ◌>>=◌, arith,
}
use codex_cursor_devstack.Execution.Mounts.{RuntimeIsolationRequirements}
use codex_cursor_devstack.Policy.Choices.{
  WorkspaceAccess, NetworkMode, Visibility, SecurityClass, security_choice,
}
use codex_cursor_devstack.Policy.Schema.{ExecutionPolicy, IsValid, Fits}
use codex_cursor_devstack.Policy.Capabilities.{
  available_capabilities, require_policy_capabilities, require_capabilities, prefixed, from_policy,
  workspace_requirement, hardened_requirement, all_labels, missing, verdict,
}
use codex_cursor_devstack.Agents.Specs.{
  ProviderPolicyArtifacts, check_policy_artifacts, unsupported_if_missing, require_items,
  require_text, require_environment, require_entries, all_distinct,
}
use codex_cursor_devstack.Agents.Plain.{IsPlain, IsPlain-join}
use codex_cursor_devstack.Agents.Codex.{
  is_read_or_write, declared_capabilities, new_artifacts, codex_task_egress_config_argv,
  codex_credential_confidentiality_config_argv, network_argv, credential_argv, sandbox_argv,
  toml_domain_allowlist, domain_entries, allowlist_argv, only_argv, sandbox_isolation,
  control_isolation, compile_execution_policy,
}
use codex_cursor_devstack.Agents.Codex.Confines.{
  codex_capabilities_lem, compile_execution_policy-ConfinesCodex,
}

pub record IsCodexPolicy (p : ExecutionPolicy) : Type 0 where
  pub compatible : p.security_class ≡ SecurityClass.compatibility
  pub with_workspace : is_read_or_write p.workspace ≡ true
  pub read_offline : p.workspace ≡ WorkspaceAccess.read → p.network.mode ≡ NetworkMode.deny
  pub sandboxed : p.credentials ≡ Visibility.deny → p.sandbox ≡ true

works : (w : WorkspaceAccess) → w ≢ WorkspaceAccess.no_access → is_read_or_write w ≡ true
works WorkspaceAccess.read h = refl
works WorkspaceAccess.write h = refl
works WorkspaceAccess.no_access h = elim (h refl) [ ]

require_items-append :
    (xs ys : List String) (label : String)
    → require_items xs label ≡ ok tt
    → require_items ys label ≡ ok tt
    → require_items (xs ++ ys) label ≡ ok tt
unfolding require_items ◌>>=◌
require_items-append [] ys label h k = k
require_items-append (x ∷ xs) ys label h k = ground (arith, require_items-append xs ys label)

clash : false ≢ true
clash h = cc

allow-ne-deny : NetworkMode.allow ≢ NetworkMode.deny
allow-ne-deny h = cc

allowlist-ne-deny : NetworkMode.allowlist ≢ NetworkMode.deny
allowlist-ne-deny h = cc

-- The policies of the one class that the driver declares have their capabilities.
requirements_pass :
    (workspace : WorkspaceAccess)
    → is_read_or_write workspace ≡ true
    → require_capabilities
        ("security_class:compatibility" ∷ (workspace_requirement workspace ++ []))
        declared_capabilities
      ≡ ok tt
unfolding require_capabilities all_labels is_label strip lstrip is_space same_codes has_code missing
    available_capabilities prefixed declared_capabilities verdict workspace_requirement ◌>>=◌
requirements_pass WorkspaceAccess.read h = refl
requirements_pass WorkspaceAccess.write h = refl
requirements_pass WorkspaceAccess.no_access h = cc

credential_total :
    (v : Visibility) (sandboxed : Bool) (workspace : WorkspaceAccess)
    → is_read_or_write workspace ≡ true
    → (v ≡ Visibility.deny → sandboxed ≡ true)
    → (words : List String) × (credential_argv v sandboxed workspace ≡ ok words)
      × (require_items words "policy argv item" ≡ ok tt)
unfolding credential_argv codex_credential_confidentiality_config_argv require_items require_text
    is_line has_code ◌>>=◌
credential_total Visibility.allow sandboxed workspace w h = ([], refl, refl)
credential_total Visibility.deny true WorkspaceAccess.read w h = (_, refl, refl)
credential_total Visibility.deny true WorkspaceAccess.write w h = (_, refl, refl)
credential_total Visibility.deny true WorkspaceAccess.no_access w h = cc
credential_total Visibility.deny false workspace w h = elim (clash (h refl)) [ ]

sandbox_items :
    (workspace : WorkspaceAccess)
    → require_items (sandbox_argv workspace) "policy argv item" ≡ ok tt
unfolding require_items require_text is_line has_code ◌>>=◌
sandbox_items WorkspaceAccess.read = refl
sandbox_items WorkspaceAccess.write = refl
sandbox_items WorkspaceAccess.no_access = refl

module _ (dumps : String → String) (plain : (s : String) → IsPlain (dumps s)) where
  entry_IsPlain : (d : String) → IsPlain (dumps d <> " = \"allow\"")
  unfolding has_code
  entry_IsPlain d =
      IsPlain-join (dumps d) " = \"allow\"" (plain d) (record { no_nul = refl; no_newline = refl })

  domain_entries-IsPlain : (ds : List String) → IsPlain (domain_entries dumps ds)
  unfolding domain_entries has_code
  domain_entries-IsPlain [] = record { no_nul = refl; no_newline = refl }
  domain_entries-IsPlain (d ∷ []) = entry_IsPlain d
  domain_entries-IsPlain (d ∷ e ∷ ds) = IsPlain-join (dumps d) _ (plain d) (
      IsPlain-join " = \"allow\"" _ (record { no_nul = refl; no_newline = refl })
        (IsPlain-join ", " (domain_entries dumps (e ∷ ds))
          (record { no_nul = refl; no_newline = refl }) (domain_entries-IsPlain (e ∷ ds))))

  allowlist-IsPlain : (ds : List String) → IsPlain (toml_domain_allowlist dumps ds)
  unfolding toml_domain_allowlist has_code
  allowlist-IsPlain ds =
      IsPlain-join "features.network_proxy.domains={ " _
        (record { no_nul = refl; no_newline = refl })
        (IsPlain-join (domain_entries dumps ds) " }" (domain_entries-IsPlain ds)
          (record { no_nul = refl; no_newline = refl }))

  allowlist_text : (ds : List String) → is_empty (codes (toml_domain_allowlist dumps ds)) ≡ false
  unfolding toml_domain_allowlist
  allowlist_text ds =
      rw (codes-append "features.network_proxy.domains={ " (domain_entries dumps ds <> " }")) refl

  allowlist_items :
      (ds : List String) → require_items (allowlist_argv dumps ds) "policy argv item" ≡ ok tt
  unfolding allowlist_argv require_items require_text is_line has_code ◌>>=◌
  allowlist_items ds =
      let line = allowlist-IsPlain ds in rw (line.no_nul, line.no_newline, allowlist_text ds) refl

  network_total :
      (workspace : WorkspaceAccess) (mode : NetworkMode) (ds : List String)
      → is_read_or_write workspace ≡ true
      → (workspace ≡ WorkspaceAccess.read → mode ≡ NetworkMode.deny)
      → Fits mode ds
      → (egress : List String) × (network_argv dumps workspace mode ds ≡ ok egress)
        × (require_items egress "policy argv item" ≡ ok tt)
  unfolding network_argv codex_task_egress_config_argv require_items require_text is_line has_code
      ◌>>=◌
  network_total WorkspaceAccess.no_access mode ds w r f = cc
  network_total WorkspaceAccess.read NetworkMode.deny ds w r f = ([], refl, refl)
  network_total WorkspaceAccess.read NetworkMode.allow ds w r f = elim (allow-ne-deny (r refl)) [ ]
  network_total WorkspaceAccess.read NetworkMode.allowlist ds w r f =
      elim (allowlist-ne-deny (r refl)) [ ]
  network_total WorkspaceAccess.write NetworkMode.deny ds w r f = (_, refl, refl)
  network_total WorkspaceAccess.write NetworkMode.allow ds w r f = (_, refl, refl)
  network_total WorkspaceAccess.write NetworkMode.allowlist ds w r f =
      (allowlist_argv dumps ds, rw f refl, allowlist_items ds)

  artifacts_total :
      (words : List String) (isolation : RuntimeIsolationRequirements)
      → require_items words "policy argv item" ≡ ok tt
      → new_artifacts (only_argv words isolation) ≡ ok (only_argv words isolation)
  unfolding new_artifacts check_policy_artifacts all_distinct require_environment require_entries
      ◌>>=◌
  artifacts_total words isolation h = rw h refl

  capabilities_total :
      (p : ExecutionPolicy)
      → p.security_class ≡ SecurityClass.compatibility
      → is_read_or_write p.workspace ≡ true
      → require_policy_capabilities p declared_capabilities ≡ ok (from_policy p)
  unfolding require_policy_capabilities from_policy hardened_requirement ◌>>=◌
  capabilities_total p e w = rw (e, requirements_pass p.workspace w) refl

  compile_total :
      (p : ExecutionPolicy)
      → Fits p.network.mode p.network.destinations
      → IsCodexPolicy p
      → (a : ProviderPolicyArtifacts) × (compile_execution_policy dumps p ≡ ok a)
  unfolding compile_execution_policy unsupported_if_missing ◌>>=◌
  compile_total p fits s =
      let (egress, egress_ok, egress_items) =
        network_total p.workspace p.network.mode p.network.destinations s.with_workspace
          s.read_offline fits in
      let (confidential, confidential_ok, confidential_items) =
        credential_total p.credentials p.sandbox p.workspace s.with_workspace s.sandboxed in
      let words = sandbox_argv p.workspace ++ (egress ++ confidential) in
      let items : require_items words "policy argv item" ≡ ok tt =
        require_items-append (sandbox_argv p.workspace) (egress ++ confidential) "policy argv item"
          (sandbox_items p.workspace)
          (require_items-append egress confidential "policy argv item" egress_items
            confidential_items) in
      let isolation = if p.sandbox then sandbox_isolation else control_isolation in
      (
        only_argv words isolation,
        rw
            (
              codex_capabilities_lem,
              capabilities_total p s.compatible s.with_workspace,
              s.with_workspace,
              egress_ok,
              confidential_ok,
              artifacts_total words isolation items,
            )
            refl,
      )

  -- A valid policy compiles exactly when it is a compatibility policy with a workspace, which has
  -- no network if it only reads, and a required sandbox if it denies credentials, provided that
  -- `json.dumps` yields neither a newline nor a NUL.
  pub compile_execution_policy-IsCodexPolicy :
      (p : ExecutionPolicy)
      → IsValid p
      → ((a : ProviderPolicyArtifacts) × (compile_execution_policy dumps p ≡ ok a))
        ↔ IsCodexPolicy p
  compile_execution_policy-IsCodexPolicy p valid = (
    λ (a, compiled).
        let c = compile_execution_policy-ConfinesCodex dumps p a compiled in
        record {
          compatible = c.compatible;
          with_workspace = works p.workspace c.with_workspace;
          read_offline = c.read_offline;
          sandboxed = c.sandboxed;
        },
    λ s. compile_total p valid.network_valid.fits s,
  )
