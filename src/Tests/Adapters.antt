-- ===== src/Tests/Adapters.antt =====
-- The state adapters of the two drivers.
use codex_cursor_devstack.Base.{◌≡◌, refl, ok, ◌>>=◌, is_line, has_code}
use codex_cursor_devstack.Execution.Mounts.{has_parent, is_absolute, is_natural}
use codex_cursor_devstack.Agents.Specs.{all_distinct}
use codex_cursor_devstack.Agents.State.{
  text, relative_path, absolute_path, relative_paths, check_state_spec, check_volume, is_simple_key,
  path_fields, managed_paths_valid, fields_eq, paths_distinct, check_reconciliation, find_volume,
  check_adapter,
}
use codex_cursor_devstack.Agents.State.Coherent.{IsCoherent, check_adapter-IsCoherent}
use codex_cursor_devstack.Agents.Adapters.{
  cursor_state, cursor_auth, cursor_reconciliation, cursor_adapter, codex_state, codex_adapter,
}

cursor_volumes_ok : (check_volume cursor_state ≡ ok tt) × (check_volume cursor_auth ≡ ok tt)
unfolding check_volume text relative_path absolute_path relative_paths is_natural is_line has_code
    has_parent is_absolute ◌>>=◌
cursor_volumes_ok = (refl, refl)

cursor_reconciliation_ok : check_reconciliation cursor_reconciliation ≡ ok tt
unfolding check_reconciliation text relative_path is_simple_key path_fields managed_paths_valid
    fields_eq paths_distinct is_line has_code has_parent is_absolute ◌>>=◌
cursor_reconciliation_ok = refl

cursor_adapter_ok : check_adapter cursor_adapter ≡ ok tt
unfolding check_adapter text all_distinct find_volume is_line has_code ◌>>=◌
cursor_adapter_ok = refl

codex_ok : (check_volume codex_state ≡ ok tt) × (check_adapter codex_adapter ≡ ok tt)
unfolding check_volume check_adapter text relative_path absolute_path relative_paths is_natural
    all_distinct find_volume is_line has_code has_parent is_absolute ◌>>=◌
codex_ok = (refl, refl)

mounts_ok :
    (check_state_spec cursor_state.mount ≡ ok tt)
    × (check_state_spec cursor_auth.mount ≡ ok tt)
    × (check_state_spec codex_state.mount ≡ ok tt)
unfolding check_state_spec has_code has_parent is_absolute ◌>>=◌
mounts_ok = (refl, refl, refl)

check_adapter-IsCoherent_example : IsCoherent cursor_adapter
check_adapter-IsCoherent_example = check_adapter-IsCoherent cursor_adapter cursor_adapter_ok
