-- ===== src/Policy/Legacy.antt =====
-- policy/legacy.py: legacy run flags as profile intent. `None` is `null`.
pub mod Mapping
use codex_cursor_devstack.Base.{
  String, Bool, true, false, ◌||◌, Option, none, some, str_eq, if◌then◌else◌, Result, ok, err,
  type_error, conflict, ◌>>=◌,
}
use codex_cursor_devstack.Base.Value.{Value}
use codex_cursor_devstack.Policy.Profiles.{
  Profile, review, implement, dependency, compatibility, get_profile,
}

pub record RunProfileMapping : Type 0 where
  pub profile_id : Profile
  pub readonly : Bool
  pub outer_only : Bool
  pub security_class : Option String

unfoldable pub optional_bool : Value → Result (Option Bool)
optional_bool Value.null = ok none
optional_bool (Value.boolean b) = ok (some b)
optional_bool _ = err (type_error "must be boolean or None")

abbrev pub or_false : Option Bool → Bool
or_false none = false
or_false (some b) = b

-- The branches on `profile` that set `effective_readonly`
unfoldable pub effective_readonly : Profile → Option Bool → Result Bool
effective_readonly review (some false) =
    err (conflict "profile 'review' conflicts with legacy readonly=False")
effective_readonly review _ = ok true
effective_readonly implement (some true) =
    err (conflict "profile conflicts with legacy readonly=True")
effective_readonly implement _ = ok false
effective_readonly dependency (some true) =
    err (conflict "profile conflicts with legacy readonly=True")
effective_readonly dependency _ = ok false
effective_readonly compatibility readonly = ok (or_false readonly)

abbrev is_compatibility : Profile → Bool
is_compatibility compatibility = true
is_compatibility _ = false

unfoldable pub explicit_profile : Profile → Option Bool → Bool → Result RunProfileMapping
unfolding effective_readonly
explicit_profile profile readonly outer_only = do
  effective ← effective_readonly profile readonly
  ok (record {
    profile_id = profile;
    readonly = effective;
    outer_only = outer_only;
    security_class = if is_compatibility profile || outer_only then some "compatibility" else none;
  })

unfoldable pub legacy_profile : Bool → Bool → RunProfileMapping
legacy_profile readonly outer_only = record {
  profile_id = if readonly then review else implement;
  readonly = readonly;
  outer_only = outer_only;
  security_class = some "compatibility";
}

-- The branch on `profile is None`. `get_profile` comes after the test for a string, whose
-- TypeError it repeats.
unfoldable pub select_profile : Value → Option Bool → Bool → Result RunProfileMapping
unfolding legacy_profile explicit_profile get_profile
select_profile Value.null readonly outer_only = ok (legacy_profile (or_false readonly) outer_only)
select_profile (Value.text s) readonly outer_only = do
  profile ← get_profile (Value.text s)
  explicit_profile profile readonly outer_only
select_profile _ readonly outer_only = err (type_error "profile must be a string or None")

unfoldable pub resolve_run_profile_request : Value → Value → Value → Result RunProfileMapping
unfolding optional_bool select_profile
resolve_run_profile_request profile readonly outer_only = do
  readonly' ← optional_bool readonly
  outer_only' ← optional_bool outer_only
  select_profile profile readonly' (or_false outer_only')
