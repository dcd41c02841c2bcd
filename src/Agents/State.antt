-- ===== src/Agents/State.antt =====
-- agents/state.py: the checks of state layouts and of adapters, and the lookup of volumes. A policy
-- mount stands for its target.
pub mod Coherent
use codex_cursor_devstack.Base.{
  String, ◌<>◌, Bool, true, false, not, ◌&&◌, ◌||◌, Option, none, some, List, [], ◌∷◌, map, str_eq,
  contains, codes, has_code, is_line, is_empty, if◌then◌else◌, Result, ok, err, value_error,
  key_error, ◌>>=◌, ◌>>◌, guard,
}
use codex_cursor_devstack.Base.Value.{ℤ}
use codex_cursor_devstack.Execution.Mounts.{has_parent, is_absolute, is_none, is_natural, bool_eq}
use codex_cursor_devstack.Agents.Specs.{all_distinct}
use codex_cursor_devstack.Core.Models.{ProviderStateSpec}

-- `_text`
unfoldable pub text : String → String → Result (Unit {0})
unfolding is_line
text value label =
    guard (is_line value) (value_error (label <> " must be a non-empty single-line string"))

unfoldable pub relative_path : String → String → Result (Unit {0})
unfolding text is_absolute has_parent
relative_path value label = do
  text value label
  guard
      (not (
        is_absolute (codes value)
        || has_parent (codes value) true
        || contains ("." ∷ ".." ∷ []) value))
      (value_error (label <> " must be a relative path without '..'"))

unfoldable pub absolute_path : String → String → Result (Unit {0})
unfolding text is_absolute has_parent
absolute_path value label = do
  text value label
  guard (is_absolute (codes value) && not (has_parent (codes value) true))
      (value_error (label <> " must be an absolute path without '..'"))

unfoldable pub relative_paths : List String → String → Result (Unit {0})
unfolding relative_path
relative_paths [] label = ok tt
relative_paths (s ∷ ss) label = relative_path s label >> relative_paths ss label

abbrev pub is_filled : String → Bool
is_filled s = not (is_empty (codes s)) && not (has_code 0 (codes s))

-- `ProviderStateSpec.__post_init__`
unfoldable pub check_state_spec : ProviderStateSpec → Result (Unit {0})
unfolding is_absolute has_parent
check_state_spec s = do
  guard (is_filled s.source)
      (value_error "provider state source must be a non-empty string without NUL")
  guard (is_filled s.target)
      (value_error "provider state target must be a non-empty string without NUL")
  guard (is_absolute (codes s.target) && not (has_parent (codes s.target) true))
      (value_error "provider state target must be an absolute container path without '..'")

pub record StateVolumeLayout : Type 0 where
  pub key : String
  pub mount : ProviderStateSpec
  pub staging_target : String
  pub marker : String
  pub legacy_path : Option String
  pub empty_error : String
  pub smoke_marker : String
  pub cleanup_after_copy : List String
  pub owner_uid : Option ℤ
  pub owner_gid : Option ℤ

abbrev pub optional :
    (String → String → Result (Unit {0})) → Option String → String → Result (Unit {0})
optional check none label = ok tt
optional check (some s) label = check s label

-- `StateVolumeLayout.__post_init__`
unfoldable pub check_volume : StateVolumeLayout → Result (Unit {0})
unfolding text relative_path absolute_path relative_paths is_natural
check_volume v = do
  text v.key "state volume key"
  absolute_path v.staging_target "state staging target"
  relative_path v.marker "state layout marker"
  optional relative_path v.legacy_path "legacy state path"
  text v.empty_error "empty-volume error"
  relative_path v.smoke_marker "state smoke marker"
  relative_paths v.cleanup_after_copy "cleanup path"
  guard (bool_eq (is_none v.owner_uid) (is_none v.owner_gid))
      (value_error "state owner_uid and owner_gid must be set together")
  guard (is_natural v.owner_uid) (value_error "owner_uid must be a non-negative integer or None")
  guard (is_natural v.owner_gid) (value_error "owner_gid must be a non-negative integer or None")

pub record JsonFieldReconciliation : Type 0 where
  pub volume_key : String
  pub seed_relative_path : String
  pub state_relative_path : String
  pub managed_field : String
  pub managed_paths : List (List String)

-- `any(ch in field for ch in ".[]'\"")` does not hold.
unfoldable pub is_simple_key : String → Bool
is_simple_key field = not (
    has_code b'.' (codes field)
    || has_code b'[' (codes field)
    || has_code b']' (codes field)
    || has_code 0x27 (codes field)
    || has_code 0x22 (codes field))

unfoldable pub path_fields : List String → Result (Unit {0})
unfolding text is_simple_key
path_fields [] = ok tt
path_fields (f ∷ fs) = do
  text f "managed JSON path field"
  guard (is_simple_key f) (value_error "managed JSON path fields must be simple object keys")
  path_fields fs

unfoldable pub managed_paths_valid : List (List String) → Result (Unit {0})
unfolding path_fields
managed_paths_valid [] = ok tt
managed_paths_valid (p ∷ ps) = do
  guard (not (is_empty p)) (value_error "managed JSON path must be a non-empty tuple")
  path_fields p
  managed_paths_valid ps

unfoldable pub fields_eq : List String → List String → Bool
fields_eq [] [] = true
fields_eq (f ∷ fs) (g ∷ gs) = str_eq f g && fields_eq fs gs
fields_eq _ _ = false

abbrev pub has_path : List String → List (List String) → Bool
has_path p [] = false
has_path p (q ∷ qs) = fields_eq q p || has_path p qs

unfoldable pub paths_distinct : List (List String) → Bool
unfolding fields_eq
paths_distinct [] = true
paths_distinct (p ∷ ps) = not (has_path p ps) && paths_distinct ps

-- `JsonFieldReconciliation.__post_init__`
unfoldable pub check_reconciliation : JsonFieldReconciliation → Result (Unit {0})
unfolding text relative_path is_simple_key managed_paths_valid paths_distinct
check_reconciliation r = do
  text r.volume_key "reconciliation volume key"
  relative_path r.seed_relative_path "reconciliation seed path"
  relative_path r.state_relative_path "reconciliation state path"
  text r.managed_field "managed JSON field"
  guard (is_simple_key r.managed_field)
      (value_error "managed JSON field must be a simple object key")
  managed_paths_valid r.managed_paths
  guard (paths_distinct r.managed_paths) (value_error "managed JSON paths must be unique")

pub record ProviderStateAdapter : Type 0 where
  pub volumes : List StateVolumeLayout
  pub legacy_volume : Option String
  pub policy_targets : List String
  pub reconciliation : Option JsonFieldReconciliation
  pub primary_key : String

unfoldable pub find_volume : String → List StateVolumeLayout → Result StateVolumeLayout
find_volume key [] = err (key_error key)
find_volume key (v ∷ vs) =
    let later = find_volume key vs in if str_eq v.key key then ok v else later

-- `ProviderStateAdapter.volume`
abbrev pub volume : ProviderStateAdapter → String → Result StateVolumeLayout
volume a key = find_volume key a.volumes

unfoldable pub primary : ProviderStateAdapter → Result StateVolumeLayout
primary a = volume a a.primary_key

abbrev pub require_volume :
    ProviderStateAdapter → Option JsonFieldReconciliation → Result (Unit {0})
require_volume a none = ok tt
require_volume a (some r) = volume a r.volume_key >>= λ found. ok tt

-- `ProviderStateAdapter.__post_init__`
unfoldable pub check_adapter : ProviderStateAdapter → Result (Unit {0})
unfolding text all_distinct find_volume
check_adapter a = do
  guard (not (is_empty a.volumes))
      (value_error "provider state adapter requires at least one volume")
  guard (all_distinct (map (λ v. v.key) a.volumes)) (value_error "state volume keys must be unique")
  guard (all_distinct (map (λ v. v.mount.source) a.volumes))
      (value_error "state volume sources must be unique")
  guard (all_distinct (map (λ v. v.mount.target) a.volumes))
      (value_error "state volume targets must be unique")
  guard (all_distinct (map (λ v. v.staging_target) a.volumes))
      (value_error "state staging targets must be unique")
  guard (contains (map (λ v. v.key) a.volumes) a.primary_key)
      (value_error "primary state key must reference a configured volume")
  optional text a.legacy_volume "legacy volume"
  guard (all_distinct a.policy_targets) (value_error "policy mount targets must be unique")
  require_volume a a.reconciliation

unfoldable pub state_spec : ProviderStateAdapter → List ProviderStateSpec
state_spec a = map (λ v. v.mount) a.volumes

unfoldable pub smoke_targets : List StateVolumeLayout → List (String × String)
smoke_targets [] = []
smoke_targets (v ∷ vs) =
    let later = smoke_targets vs in
    if v.mount.read_only then later else (v.mount.target, v.smoke_marker) ∷ later

unfoldable pub writable_smoke_targets : ProviderStateAdapter → List (String × String)
unfolding smoke_targets
writable_smoke_targets a = smoke_targets a.volumes
