-- ===== src/Policy/Profiles.antt =====
-- policy/profiles.py: the built-in execution profiles as sparse layers.
pub mod Effect
use codex_cursor_devstack.Base.{
  String, ◌<>◌, Bool, true, false, Option, none, some, List, [], ◌∷◌, str_eq, if◌then◌else◌, Result,
  ok, err, value_error, type_error,
}
use codex_cursor_devstack.Base.Value.{Value, Items, Fields, Key}
use codex_cursor_devstack.Policy.Schema.{field, single}

-- `_BUILTIN_PROFILES`, by `id`
pub data Profile : Type 0 where
  review implement dependency compatibility : Profile

abbrev pub profile_id : Profile → String
profile_id review = "review"
profile_id implement = "implement"
profile_id dependency = "dependency"
profile_id compatibility = "compatibility"

unfoldable pub list_profiles : List Profile
list_profiles = review ∷ implement ∷ dependency ∷ compatibility ∷ []

-- `_PROFILE_BY_ID[profile_id]`
unfoldable pub profile_by_id : String → Option Profile
profile_by_id s =
    if str_eq s "review"
    then some review
    else if str_eq s "implement"
    then some implement
    else if str_eq s "dependency"
    then some dependency
    else if str_eq s "compatibility"
    then some compatibility
    else none

unfoldable pub get_profile : Value → Result Profile
unfolding profile_by_id
get_profile (Value.text s) = elim (profile_by_id s) [
  | none ↦ err (value_error "unknown execution profile")
  | some p ↦ ok p
]
get_profile _ = err (type_error "profile_id must be a string")

unfoldable pub requires_task_shell_destinations : Profile → Bool
requires_task_shell_destinations dependency = true
requires_task_shell_destinations _ = false

abbrev pub no_credentials : Value
no_credentials = single "provider_auth" (single "task_shell" (Value.text "deny"))

-- `network.task_shell` of a profile: the mode, and the destinations that the caller gave
abbrev pub network_restriction : String → Fields → Value
network_restriction mode destinations =
    single "task_shell" (Value.object (field "mode" (Value.text mode) destinations))

-- `_restrictions`, with the entry that `restrictions` adds to `network.task_shell`
unfoldable pub profile_layer : Profile → Fields → Fields
profile_layer review destinations = field "workspace" (single "access" (Value.text "read")) (
    field "reference" (single "access" (Value.text "read")) (
      field "network" (network_restriction "deny" destinations) (
        field "credentials" no_credentials (
          field "git" (single "commit" (Value.boolean false))
            (field "sandbox" (single "required" (Value.boolean true)) Fields.end)))))
profile_layer implement destinations = field "workspace" (single "access" (Value.text "write")) (
    field "reference" (single "access" (Value.text "read")) (
      field "network" (network_restriction "deny" destinations) (
        field "credentials" no_credentials (
          field "git"
            (Value.object (
              field "read" (Value.boolean true) (
                field "commit" (Value.boolean true)
                  (field "push" (Value.boolean false) Fields.end))))
            (field "sandbox" (single "required" (Value.boolean true)) Fields.end)))))
profile_layer dependency destinations = field "workspace" (single "access" (Value.text "write")) (
    field "network" (network_restriction "allowlist" destinations) (
      field "credentials" no_credentials (
        field "git"
          (Value.object
            (field "commit" (Value.boolean true) (field "push" (Value.boolean false) Fields.end)))
          (field "sandbox" (single "required" (Value.boolean true)) Fields.end))))
profile_layer compatibility destinations =
    field "security_class" (Value.text "compatibility") Fields.end

-- The destinations of a call of a profile that requires them: a non-empty list or tuple.
unfoldable pub required_destinations : Option Value → Result Fields
required_destinations (some (Value.list (Items.cons v rest))) =
    ok (field "destinations" (Value.list (Items.cons v rest)) Fields.end)
required_destinations _ =
    err (value_error "dependency profile requires explicit task-shell destinations")

abbrev refuse_destinations : Profile → Option Value → Result Fields
refuse_destinations p none = ok (profile_layer p Fields.end)
refuse_destinations p (some v) =
    err (value_error (profile_id p <> " profile does not accept task-shell destinations"))

abbrev with_destinations : Profile → Result Fields → Result Fields
with_destinations p (ok ds) = ok (profile_layer p ds)
with_destinations p (err e) = err e

-- `ExecutionProfile.restrictions`
unfoldable pub restrictions : Profile → Option Value → Result Fields
unfolding requires_task_shell_destinations required_destinations profile_layer
restrictions p destinations =
    if requires_task_shell_destinations p
    then with_destinations p (required_destinations destinations)
    else refuse_destinations p destinations
