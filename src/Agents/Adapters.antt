-- ===== src/Agents/Adapters.antt =====
-- The state adapters that the drivers of agents/codex.py and agents/cursor.py describe.
use codex_cursor_devstack.Base.{false, none, some, [], ◌∷◌}
use codex_cursor_devstack.Base.Value.{ℤ}
use codex_cursor_devstack.Agents.State.{
  StateVolumeLayout, JsonFieldReconciliation, ProviderStateAdapter,
}

abbrev pub cursor_state : StateVolumeLayout
cursor_state = record {
  key = "state";
  mount = record {
    source = "agent-dev-cursor-state";
    target = "/home/node/.cursor";
    read_only = false;
  };
  staging_target = "/state";
  marker = ".agent-dev-state-layout-v2";
  legacy_path = some ".cursor";
  empty_error = "provider state volume is non-empty but has no layout marker";
  smoke_marker = ".agent-dev-state-write-smoke";
  cleanup_after_copy = [];
  owner_uid = some (ℤ.pos 1000);
  owner_gid = some (ℤ.pos 1000);
}

abbrev pub cursor_auth : StateVolumeLayout
cursor_auth = record {
  key = "auth";
  mount = record {
    source = "agent-dev-cursor-auth";
    target = "/home/node/.config/cursor";
    read_only = false;
  };
  staging_target = "/auth";
  marker = ".agent-dev-auth-layout-v1";
  legacy_path = some ".config/cursor";
  empty_error = "Cursor auth state volume is non-empty but has no layout marker";
  smoke_marker = ".agent-dev-auth-write-smoke";
  cleanup_after_copy = [];
  owner_uid = some (ℤ.pos 1000);
  owner_gid = some (ℤ.pos 1000);
}

abbrev pub cursor_reconciliation : JsonFieldReconciliation
cursor_reconciliation = record {
  volume_key = "state";
  seed_relative_path = "cli-config.json";
  state_relative_path = "cli-config.json";
  managed_field = "permissions";
  managed_paths = ("sandbox" ∷ "networkAccess" ∷ []) ∷ [];
}

abbrev pub cursor_adapter : ProviderStateAdapter
cursor_adapter = record {
  volumes = cursor_state ∷ cursor_auth ∷ [];
  legacy_volume = some "agent-dev-cursor-home";
  policy_targets = "/home/node/.cursorignore" ∷ [];
  reconciliation = some cursor_reconciliation;
  primary_key = "state";
}

abbrev pub codex_state : StateVolumeLayout
codex_state = record {
  key = "state";
  mount = record {
    source = "agent-dev-codex-state";
    target = "/home/node/.codex";
    read_only = false;
  };
  staging_target = "/state";
  marker = ".agent-dev-state-layout-v2";
  legacy_path = some ".codex";
  empty_error = "provider state volume is non-empty but has no layout marker";
  smoke_marker = ".agent-dev-state-write-smoke";
  cleanup_after_copy = "config.toml" ∷ [];
  owner_uid = some (ℤ.pos 1000);
  owner_gid = some (ℤ.pos 1000);
}

abbrev pub codex_adapter : ProviderStateAdapter
codex_adapter = record {
  volumes = codex_state ∷ [];
  legacy_volume = some "agent-dev-codex-home";
  policy_targets = "/home/node/.codex/config.toml" ∷ [];
  reconciliation = none;
  primary_key = "state";
}
