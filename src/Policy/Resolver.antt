-- ===== src/Policy/Resolver.antt =====
-- policy/resolver.py: sparse layers are merged into the effective policy, decoded again, and refused
-- where they widen it.
pub mod Narrowing
pub mod Rights
pub mod Layers
use codex_cursor_devstack.Base.{
  ℕ, ◌+◌, ◌*◌, ◌^◌, String, ◌<>◌, Bool, true, false, not, ◌&&◌, ◌||◌, Option, none, some, List, [],
  ◌∷◌, ltb, leb, ◌==◌, str_eq, if◌then◌else◌, subset, Error, Result, ok, err, value_error,
  type_error, key_error, input_error, conflict, missing_capabilities, failure, escalation, ◌>>=◌,
  ◌>>◌, guard,
}
use codex_cursor_devstack.Base.Value.{
  Value, Items, Fields, Key, lookup, set_field, has_field, names_only,
}
use codex_cursor_devstack.Policy.Choices.{
  Choice, NetworkMode, workspace_choice, reference_choice, external_choice, mode_choice,
  visibility_choice, security_choice,
}
use codex_cursor_devstack.Policy.Checks.{Cpu}
use codex_cursor_devstack.Policy.Schema.{
  TaskShellNetworkPolicy, ExecutionPolicy, from_dict, policy_dict,
}

unfoldable pub require_restrictions : Value → String → Result Fields
unfolding names_only
require_restrictions (Value.object fs) name =
    if names_only fs then ok fs else err (value_error (name <> " field names must be strings"))
require_restrictions _ name = err (type_error (name <> " must be a mapping"))

abbrev join_path : String → String → String
join_path path key = if str_eq path "" then key else path <> "." <> key

abbrev is_text : String → Option Value → Bool
is_text s (some (Value.text t)) = str_eq t s
is_text s _ = false

-- The last step of `_merge_restrictions`: the destinations of a mode other than allowlist.
unfoldable pub reset_destinations : String → Fields → Fields → Fields
unfolding has_field lookup set_field
reset_destinations path restrictions result =
    if str_eq path "network.task_shell"
      && has_field "mode" restrictions
      && not (is_text "allowlist" (lookup "mode" restrictions))
      && not (has_field "destinations" restrictions)
    then set_field "destinations" (Value.list Items.nil) result
    else result

abbrev unknown_field : String → String → Error
unknown_field layer path = value_error (layer <> "." <> path <> " is an unknown policy field")

-- The loop of `_merge_restrictions`. `result` starts as a copy of `base`; a nested dict is merged into
-- the dict of `base` at its key.
unfoldable pub merge_fields : String → String → Fields → Fields → Fields → Result Fields
unfolding lookup set_field names_only reset_destinations
merge_fields layer path base result Fields.end = ok result
merge_fields layer path base result (Fields.entry (Key.other n) value rest) =
    err (unknown_field layer path)
merge_fields layer path base result (Fields.entry (Key.name key) (Value.object sub) rest) =
    elim (lookup key base) [
      | none ↦ err (unknown_field layer (join_path path key))
      | some (Value.object inner) ↦ do
        guard (names_only sub)
            (value_error (layer <> "." <> join_path path key <> " field names must be strings"))
        merged ← merge_fields layer (join_path path key) inner inner sub
        merge_fields layer path base
            (set_field key (Value.object (reset_destinations (join_path path key) sub merged))
              result)
            rest
      | some _ ↦ merge_fields layer path base (set_field key (Value.object sub) result) rest
    ]
merge_fields layer path base result (Fields.entry (Key.name key) value rest) =
    elim (lookup key base) [
      | none ↦ err (unknown_field layer (join_path path key))
      | some _ ↦ merge_fields layer path base (set_field key value result) rest
    ]

unfoldable pub merge_restrictions : Fields → Fields → String → Result Fields
unfolding merge_fields
merge_restrictions base restrictions layer = do
  result ← merge_fields layer "" base base restrictions
  ok (reset_destinations "" restrictions result)

-- `except ValueError as exc: raise ValueError(f"{layer}: {exc}")`, and the subclasses of ValueError.
unfoldable pub in_layer {ℓ} : {A : Type ℓ} → String → Result A → Result A
in_layer layer (err (value_error m)) = err (value_error (layer <> ": " <> m))
in_layer layer (err (input_error m)) = err (value_error (layer <> ": " <> m))
in_layer layer (err (conflict m)) = err (value_error (layer <> ": " <> m))
in_layer layer (err (escalation l f)) = err (value_error (layer <> ": " <> l <> "." <> f))
in_layer layer (err (missing_capabilities names)) =
    err (value_error (layer <> ": missing capabilities"))
in_layer layer r = r

unfoldable pub candidate_from_layer : ExecutionPolicy → Fields → String → Result ExecutionPolicy
unfolding in_layer
candidate_from_layer effective restrictions layer = do
  merged ← merge_restrictions (policy_dict effective) restrictions layer
  in_layer layer (from_dict (Value.object merged))

module _ (layer : String) where
  unfoldable pub require_rank_not_wider :
      {A : Type 0} ⦃c : Choice A⦄ → String → A → A → Result (Unit {0})
  require_rank_not_wider ⦃c⦄ field upper lower =
      if ltb (c.rank upper) (c.rank lower) then err (escalation layer field) else ok tt

  unfoldable pub require_permission_not_wider : String → Bool → Bool → Result (Unit {0})
  require_permission_not_wider field upper lower =
      if lower && not upper then err (escalation layer field) else ok tt

  unfoldable pub require_requirement_not_weaker : String → Bool → Bool → Result (Unit {0})
  require_requirement_not_weaker field upper lower =
      if upper && not lower then err (escalation layer field) else ok tt

  unfoldable pub require_limit_not_wider : String → ℕ → ℕ → Result (Unit {0})
  require_limit_not_wider field upper lower =
      if ltb upper lower then err (escalation layer field) else ok tt

-- The number n / 2^k.
abbrev pub numerator : Cpu → ℕ
numerator (Cpu.whole n) = n
numerator (Cpu.fraction n k) = n

abbrev pub exponent : Cpu → ℕ
exponent (Cpu.whole n) = 0
exponent (Cpu.fraction n k) = k

-- `a > b`, exactly, as Python compares an int with a float
unfoldable pub cpu_gt : Cpu → Cpu → Bool
cpu_gt a b = ltb (numerator b * 2 ^ exponent a) (numerator a * 2 ^ exponent b)

-- `_require_limit_not_wider` on `resources.cpu`
unfoldable pub require_cpu_not_wider : String → Cpu → Cpu → Result (Unit {0})
unfolding cpu_gt
require_cpu_not_wider layer upper lower =
    if cpu_gt lower upper then err (escalation layer "resources.cpu") else ok tt

abbrev both_allowlist : NetworkMode → NetworkMode → Bool
both_allowlist NetworkMode.allowlist NetworkMode.allowlist = true
both_allowlist _ _ = false

unfoldable pub require_destinations_not_wider :
    String → TaskShellNetworkPolicy → TaskShellNetworkPolicy → Result (Unit {0})
unfolding subset
require_destinations_not_wider layer upper lower =
    if both_allowlist upper.mode lower.mode && not (subset lower.destinations upper.destinations)
    then err (escalation layer "network.task_shell.destinations")
    else ok tt

unfoldable pub validate_network_narrowing :
    String → ExecutionPolicy → ExecutionPolicy → Result (Unit {0})
validate_network_narrowing layer upper lower = do
  require_rank_not_wider layer "network.task_shell.mode" upper.network.mode lower.network.mode
  require_destinations_not_wider layer upper.network lower.network

unfoldable pub validate_narrowing : String → ExecutionPolicy → ExecutionPolicy → Result (Unit {0})
validate_narrowing layer upper lower = do
  guard (lower.version == upper.version) (escalation layer "version")
  require_rank_not_wider layer "workspace.access" upper.workspace lower.workspace
  require_rank_not_wider layer "reference.access" upper.reference lower.reference
  require_rank_not_wider layer "filesystem.external" upper.filesystem lower.filesystem
  validate_network_narrowing layer upper lower
  require_rank_not_wider layer "credentials.provider_auth.task_shell" upper.credentials
      lower.credentials
  require_permission_not_wider layer "git.read" upper.git.read lower.git.read
  require_permission_not_wider layer "git.commit" upper.git.commit lower.git.commit
  require_permission_not_wider layer "git.push" upper.git.push lower.git.push
  require_requirement_not_weaker layer "sandbox.required" upper.sandbox lower.sandbox
  require_cpu_not_wider layer upper.resources.cpu lower.resources.cpu
  require_limit_not_wider layer "resources.memory" upper.resources.memory_bytes
      lower.resources.memory_bytes
  require_limit_not_wider layer "resources.pids" upper.resources.pids lower.resources.pids
  require_rank_not_wider layer "security_class" lower.security_class upper.security_class

-- One round of the loop of `PolicyResolver.resolve`.
unfoldable pub apply_layer : ExecutionPolicy → String → Option Value → Result ExecutionPolicy
apply_layer effective layer none = ok effective
apply_layer effective layer (some value) = do
  restrictions ← require_restrictions value layer
  candidate ← candidate_from_layer effective restrictions layer
  validate_narrowing layer effective candidate
  ok candidate

-- `PolicyResolver.resolve`
unfoldable pub resolve :
    ExecutionPolicy → Option Value → Option Value → Option Value → Result ExecutionPolicy
resolve platform_baseline project_policy execution_profile run_restrictions = do
  project ← apply_layer platform_baseline "project_policy" project_policy
  profile ← apply_layer project "execution_profile" execution_profile
  apply_layer profile "run_restrictions" run_restrictions
