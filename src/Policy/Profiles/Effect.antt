-- ===== src/Policy/Profiles/Effect.antt =====
-- What a profile does to the policy that it is applied to.
use mathlib.Core.Path.{subst}
use codex_cursor_devstack.Base.{
  ◌≡◌, ◌↔◌, ◌≢◌, contains, Bool-cases, inl, inr, refl, sym, String, Bool, true, false, not, Option,
  some, List, [], is_empty, IsSorted, ok, ◌>>=◌, >>=-eq-ok, arith,
}
use codex_cursor_devstack.Base.Value.{Value, Fields, names_only, text_items}
use codex_cursor_devstack.Policy.Choices.{
  WorkspaceAccess, ReferenceAccess, NetworkMode, Visibility, SecurityClass,
}
use codex_cursor_devstack.Policy.Schema.{
  ExecutionPolicy, IsValid, Distinct, policy_dict, task_shell_as_dict, git_as_dict, field,
}
use codex_cursor_devstack.Policy.Resolver.{merge_restrictions, apply_layer, resolve}
use codex_cursor_devstack.Policy.Resolver.Rights.{
  Right, write_workspace, reach, reach_all, see_credentials, git_commit, git_push, run_unsandboxed,
  run_unhardened, grants, IsWithin,
}
use codex_cursor_devstack.Policy.Resolver.Layers.{apply_layer_lem, apply_layer-Narrows}
use codex_cursor_devstack.Policy.Profiles.{
  Profile, review, implement, dependency, compatibility, profile_layer,
}

-- The policy that a profile asks for. `ds` are the destinations of a dependency run.
unfoldable pub overlay : Profile → List String → ExecutionPolicy → ExecutionPolicy
overlay review ds p = record p {
  workspace = WorkspaceAccess.read;
  reference = ReferenceAccess.read;
  network = record { mode = NetworkMode.deny; destinations = [] };
  credentials = Visibility.deny;
  git = record { read = p.git.read; commit = false; push = p.git.push };
  sandbox = true;
}
overlay implement ds p = record p {
  workspace = WorkspaceAccess.write;
  reference = ReferenceAccess.read;
  network = record { mode = NetworkMode.deny; destinations = [] };
  credentials = Visibility.deny;
  git = record { read = true; commit = true; push = false };
  sandbox = true;
}
overlay dependency ds p = record p {
  workspace = WorkspaceAccess.write;
  network = record { mode = NetworkMode.allowlist; destinations = ds };
  credentials = Visibility.deny;
  git = record { read = p.git.read; commit = true; push = false };
  sandbox = true;
}
overlay compatibility ds p = record p { security_class = SecurityClass.compatibility }

-- What `restrictions` puts beside the mode.
abbrev pub destination_fields : Profile → List String → Fields
destination_fields dependency ds = field "destinations" (Value.list (text_items ds)) Fields.end
destination_fields _ ds = Fields.end

-- Destinations that a dependency run may be given.
abbrev pub DestinationsFit : Profile → List String → Type 0
DestinationsFit dependency ds = Distinct [] ds × IsSorted ds × (is_empty ds ≡ false)
DestinationsFit _ ds = Unit

merge_profile :
    (f : Profile) (ds : List String) (p : ExecutionPolicy) (layer : String)
    → merge_restrictions (policy_dict p) (profile_layer f (destination_fields f ds)) layer
      ≡ ok (policy_dict (overlay f ds p))
unfolding merge_restrictions profile_layer policy_dict task_shell_as_dict git_as_dict overlay
    text_items ◌>>=◌
merge_profile review ds p layer = refl
merge_profile implement ds p layer = refl
merge_profile dependency ds p layer = refl
merge_profile compatibility ds p layer = refl

overlay-IsValid :
    (f : Profile) (ds : List String) (p : ExecutionPolicy)
    → DestinationsFit f ds
    → IsValid p
    → IsValid (overlay f ds p)
unfolding overlay
overlay-IsValid review ds p d v = record {
  version_one = v.version_one;
  network_valid = record { distinct = tt; sorted_list = tt; fits = refl };
  resources_valid = v.resources_valid;
}
overlay-IsValid implement ds p d v = record {
  version_one = v.version_one;
  network_valid = record { distinct = tt; sorted_list = tt; fits = refl };
  resources_valid = v.resources_valid;
}
overlay-IsValid dependency ds p d v = record {
  version_one = v.version_one;
  network_valid = record { distinct = d.0; sorted_list = d.1; fits = d.2 };
  resources_valid = v.resources_valid;
}
overlay-IsValid compatibility ds p d v = record {
  version_one = v.version_one;
  network_valid = v.network_valid;
  resources_valid = v.resources_valid;
}

names_only-profile_layer :
    (f : Profile) (ds : List String) → names_only (profile_layer f (destination_fields f ds)) ≡ true
unfolding names_only profile_layer
names_only-profile_layer review ds = refl
names_only-profile_layer implement ds = refl
names_only-profile_layer dependency ds = refl
names_only-profile_layer compatibility ds = refl

-- A profile over a valid policy, with destinations that fit it, yields its overlay if that grants no right that the policy
-- withholds, and yields nothing otherwise.
pub apply_layer-profile :
    (f : Profile) (ds : List String) (p q : ExecutionPolicy) (layer : String)
    → DestinationsFit f ds
    → IsValid p
    → (apply_layer p layer (some (Value.object (profile_layer f (destination_fields f ds)))) ≡ ok q)
      ↔ ((q ≡ overlay f ds p) × IsWithin p (overlay f ds p))
apply_layer-profile f ds p q layer d v =
    apply_layer_lem p (overlay f ds p) q layer (profile_layer f (destination_fields f ds))
      (names_only-profile_layer f ds) (merge_profile f ds p layer) v (overlay-IsValid f ds p d v)

-- The rights that a run under a profile never has.
unfoldable pub denied : Profile → List String → Right → Bool
denied review ds write_workspace = true
denied review ds git_commit = true
denied review ds (reach s) = true
denied review ds reach_all = true
denied review ds see_credentials = true
denied review ds run_unsandboxed = true
denied implement ds git_push = true
denied implement ds (reach s) = true
denied implement ds reach_all = true
denied implement ds see_credentials = true
denied implement ds run_unsandboxed = true
denied dependency ds git_push = true
denied dependency ds (reach s) = not (contains ds s)
denied dependency ds reach_all = true
denied dependency ds see_credentials = true
denied dependency ds run_unsandboxed = true
denied _ ds r = false

overlay_denies :
    (f : Profile) (ds : List String) (p : ExecutionPolicy) (r : Right)
    → denied f ds r ≡ true
    → grants (overlay f ds p) r ≡ false
unfolding denied grants overlay
overlay_denies review ds p write_workspace h = refl
overlay_denies dependency ds p (reach s) h = ground arith
overlay_denies f ds p r h = ground arith

withheld :
    (p q : ExecutionPolicy) (r : Right) → IsWithin p q → grants p r ≡ false → grants q r ≡ false
withheld p q r w h = elim (Bool-cases (grants q r)) [
  | inl granted ↦ cc (w.within r granted)
  | inr refused ↦ refused
]

-- From a valid baseline, and with destinations that fit the profile,
-- a run resolved under a profile has none of the rights that the profile denies, whatever the
-- project and the run ask for: a review run cannot write, commit or reach the network, and a
-- dependency run reaches no destination but those given.
pub resolve_denies :
    (f : Profile) (ds : List String) (baseline : ExecutionPolicy) (project run : Option Value)
    (r : Right) {q : ExecutionPolicy}
    → DestinationsFit f ds
    → IsValid baseline
    → resolve baseline project (some (Value.object (profile_layer f (destination_fields f ds)))) run
      ≡ ok q
    → denied f ds r ≡ true
    → grants q r ≡ false
unfolding resolve
resolve_denies f ds baseline project run r {q} d v h denial =
    let (p1, project_ok, h1) = >>=-eq-ok _ _ h in
    let (p2, profile_ok, run_ok) = >>=-eq-ok _ _ h1 in
    let valid = ((apply_layer-Narrows baseline _ project).at p1 project_ok).0 v in
    let (same, _) = (apply_layer-profile f ds p1 p2 _ d valid).0 profile_ok in
    withheld p2 q r ((apply_layer-Narrows p2 _ run).at q run_ok).1
      (subst (λ x. grants x r ≡ false) (sym same) (overlay_denies f ds p1 r denial))

unhardened :
    (baseline p : ExecutionPolicy)
    → baseline.security_class ≡ SecurityClass.hardened
    → IsWithin baseline p
    → IsWithin p (overlay compatibility [] p)
    → ⊥
unfolding grants overlay
unhardened baseline p hard a b =
    ground (arith, a.within run_unhardened (b.within run_unhardened refl))

-- Over a valid hardened baseline the compatibility profile is refused, whatever the project adds.
pub resolve_compatibility_refused :
    (baseline : ExecutionPolicy) (project run : Option Value) (q : ExecutionPolicy)
    → IsValid baseline
    → baseline.security_class ≡ SecurityClass.hardened
    → resolve baseline project (some (Value.object (profile_layer compatibility Fields.end))) run
      ≢ ok q
unfolding resolve
resolve_compatibility_refused baseline project run q v hard h =
    let (p1, project_ok, h1) = >>=-eq-ok _ _ h in
    let (p2, profile_ok, run_ok) = >>=-eq-ok _ _ h1 in
    let n = (apply_layer-Narrows baseline _ project).at p1 project_ok in
    let (_, within) = (apply_layer-profile compatibility [] p1 p2 _ tt (n.0 v)).0 profile_ok in
    unhardened baseline p1 hard n.1 within
