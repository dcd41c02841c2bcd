-- ===== src/Tests/Policies.antt =====
-- Policies and agents.
use codex_cursor_devstack.Base.{
  is_label, strip, lstrip, same_codes, has_code, is_space, text_le, codes_le, ◌≡◌, ◌↔◌, ◌≢◌, refl,
  String, true, false, none, some, [], ◌∷◌, ◌>>=◌, subset, ok, arith,
}
use codex_cursor_devstack.Base.Value.{Value, Fields}
use codex_cursor_devstack.Policy.Choices.{
  WorkspaceAccess, ReferenceAccess, ExternalAccess, NetworkMode, Visibility, SecurityClass,
}
use codex_cursor_devstack.Policy.Checks.{Cpu}
use codex_cursor_devstack.Policy.Schema.{
  ExecutionPolicy, IsValid, from_dict, as_dict, from_dict-as_dict, from_dict-IsValid,
}
use codex_cursor_devstack.Policy.Resolver.{
  apply_layer, resolve, validate_narrowing, validate_network_narrowing, require_rank_not_wider,
  require_permission_not_wider, require_requirement_not_weaker, require_limit_not_wider,
  require_cpu_not_wider, require_destinations_not_wider, cpu_gt,
}
use codex_cursor_devstack.Policy.Resolver.Rights.{
  IsWithin, grants, write_workspace, validate_narrowing_sound, validate_narrowing-IsWithin,
}
use codex_cursor_devstack.Policy.Resolver.Layers.{
  resolve-IsWithin, resolve-IsValid, apply_layer-as_dict,
}
use codex_cursor_devstack.Policy.Profiles.{review, compatibility, profile_layer}
use codex_cursor_devstack.Policy.Profiles.Effect.{
  overlay, denied, apply_layer-profile, resolve_denies, resolve_compatibility_refused,
}

-- A hardened baseline with an allowlist.
abbrev pub baseline : ExecutionPolicy
baseline = record {
  version = 1;
  workspace = WorkspaceAccess.write;
  reference = ReferenceAccess.read;
  filesystem = ExternalAccess.deny;
  network = record { mode = NetworkMode.allowlist; destinations = "example.org" ∷ "pypi.org" ∷ [] };
  credentials = Visibility.deny;
  git = record { read = true; commit = true; push = false };
  sandbox = true;
  resources = record { cpu = Cpu.whole 4; memory_bytes = 8589934592; pids = 512 };
  security_class = SecurityClass.hardened;
}

pub baseline-IsValid : IsValid baseline
unfolding is_label strip lstrip same_codes has_code is_space text_le codes_le
baseline-IsValid = record {
  version_one = refl;
  network_valid = record {
    distinct = (refl, refl, (refl, refl, tt));
    sorted_list = (refl, tt);
    fits = refl;
  };
  resources_valid = record {
    cpu_valid = omega arith;
    memory_positive = omega arith;
    pids_positive = omega arith;
  };
}

-- A run that reads, with half a processor.
abbrev reader : ExecutionPolicy
reader = record baseline {
  workspace = WorkspaceAccess.read;
  network = record { mode = NetworkMode.deny; destinations = [] };
  resources = record { cpu = Cpu.fraction 1 1; memory_bytes = 1073741824; pids = 64 };
}

reader-IsValid : IsValid reader
reader-IsValid = record {
  version_one = refl;
  network_valid = record { distinct = tt; sorted_list = tt; fits = refl };
  resources_valid = record {
    cpu_valid = (omega arith, refl);
    memory_positive = omega arith;
    pids_positive = omega arith;
  };
}

reader_passes : validate_narrowing "run" baseline reader ≡ ok tt
unfolding validate_narrowing validate_network_narrowing require_rank_not_wider
    require_permission_not_wider require_requirement_not_weaker require_limit_not_wider
    require_cpu_not_wider require_destinations_not_wider cpu_gt subset ◌>>=◌
reader_passes = refl

reader-IsWithin : IsWithin baseline reader
reader-IsWithin =
    (validate_narrowing-IsWithin "run" baseline reader baseline-IsValid reader-IsValid).0
      reader_passes

resolved : resolve baseline none none (some (as_dict reader)) ≡ ok reader
unfolding resolve apply_layer ◌>>=◌
resolved =
    (apply_layer-as_dict baseline reader "run_restrictions" baseline-IsValid reader-IsValid).1
      reader-IsWithin

validate_narrowing-IsWithin_example :
    (validate_narrowing "run" baseline reader ≡ ok tt) ↔ IsWithin baseline reader
validate_narrowing-IsWithin_example =
    validate_narrowing-IsWithin "run" baseline reader baseline-IsValid reader-IsValid

resolve-IsWithin_example : IsWithin baseline reader
resolve-IsWithin_example = resolve-IsWithin baseline none none (some (as_dict reader)) resolved

resolve-IsValid_example : IsValid reader
resolve-IsValid_example =
    resolve-IsValid baseline none none (some (as_dict reader)) baseline-IsValid resolved

apply_layer-as_dict_example :
    (apply_layer baseline "run" (some (as_dict reader)) ≡ ok reader) ↔ IsWithin baseline reader
apply_layer-as_dict_example =
    apply_layer-as_dict baseline reader "run" baseline-IsValid reader-IsValid

from_dict-as_dict_example : from_dict (as_dict baseline) ≡ ok baseline
from_dict-as_dict_example = from_dict-as_dict baseline baseline-IsValid

from_dict-IsValid_example : IsValid reader
from_dict-IsValid_example =
    from_dict-IsValid (as_dict reader) reader (from_dict-as_dict reader reader-IsValid)

reviewed_passes : validate_narrowing "profile" baseline (overlay review [] baseline) ≡ ok tt
unfolding overlay validate_narrowing validate_network_narrowing require_rank_not_wider
    require_permission_not_wider require_requirement_not_weaker require_limit_not_wider
    require_cpu_not_wider require_destinations_not_wider cpu_gt subset ◌>>=◌
reviewed_passes = refl

review-IsWithin : IsWithin baseline (overlay review [] baseline)
review-IsWithin =
    validate_narrowing_sound "profile" baseline (overlay review [] baseline) reviewed_passes

no_layer : (p : ExecutionPolicy) (layer : String) → apply_layer p layer none ≡ ok p
unfolding apply_layer
no_layer p layer = refl

review_resolved :
    resolve baseline none (some (Value.object (profile_layer review Fields.end))) none
    ≡ ok (overlay review [] baseline)
unfolding resolve ◌>>=◌
review_resolved =
    let reviewed =
      (apply_layer-profile review [] baseline (overlay review [] baseline) "execution_profile" tt
          baseline-IsValid).1
        (refl, review-IsWithin) in
    rw
      (
        no_layer baseline "project_policy",
        reviewed,
        no_layer (overlay review [] baseline) "run_restrictions",
      )
      refl

apply_layer-profile_example :
    (apply_layer baseline "profile" (some (Value.object (profile_layer review Fields.end)))
      ≡ ok (overlay review [] baseline))
    ↔ ((overlay review [] baseline ≡ overlay review [] baseline)
        × IsWithin baseline (overlay review [] baseline))
apply_layer-profile_example =
    apply_layer-profile review [] baseline (overlay review [] baseline) "profile" tt
      baseline-IsValid

denied_write : denied review [] write_workspace ≡ true
unfolding denied
denied_write = refl

resolve_denies_example : grants (overlay review [] baseline) write_workspace ≡ false
resolve_denies_example =
    resolve_denies review [] baseline none none write_workspace tt baseline-IsValid review_resolved
      denied_write

resolve_compatibility_refused_example :
    resolve baseline none (some (Value.object (profile_layer compatibility Fields.end))) none
    ≢ ok baseline
resolve_compatibility_refused_example =
    resolve_compatibility_refused baseline none none baseline baseline-IsValid refl
