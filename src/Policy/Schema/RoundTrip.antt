-- ===== src/Policy/Schema/RoundTrip.antt =====
-- Decoding what was encoded: `from_dict(policy.as_dict())` is the policy.
use codex_cursor_devstack.Base.{ℕ, zero, suc, ◌<◌, ◌≡◌, refl, String, Bool, List, ok, ◌>>=◌, arith}
use codex_cursor_devstack.Base.Value.{ℤ, Value}
use codex_cursor_devstack.Policy.Choices.{
  WorkspaceAccess, ReferenceAccess, ExternalAccess, NetworkMode, Visibility, SecurityClass,
  workspace_choice, reference_choice, external_choice, mode_choice, visibility_choice,
  security_choice,
}
use codex_cursor_devstack.Policy.Checks.{Cpu, normalize_cpu, normalize_memory, require_positive_int}
use codex_cursor_devstack.Policy.Schema.Records.{
  TaskShellNetworkPolicy, GitPolicy, PolicyResourceLimits, ExecutionPolicy,
}
use codex_cursor_devstack.Policy.Schema.Decode.{
  require_version, require_mode, require_security, workspace_from_dict, reference_from_dict,
  filesystem_from_dict, check_mode, new_task_shell, task_shell_from_dict, network_from_dict,
  credentials_from_dict, git_from_dict, sandbox_from_dict, resources_from_dict, from_dict,
}
use codex_cursor_devstack.Policy.Schema.Encode.{
  single, choice_text, cpu_value, task_shell_as_dict, git_as_dict, resources_as_dict, policy_dict,
  as_dict,
}
use codex_cursor_devstack.Policy.Schema.Valid.{
  NetworkIsValid, CpuIsValid, ResourcesIsValid, IsValid, normalize_destinations-text_items, Fits,
}

require_version_again : (n : ℕ) → n ≡ 1 → require_version (Value.int (ℤ.pos n)) ≡ ok n
unfolding require_version
require_version_again n h = ground arith

workspace_again :
    (a : WorkspaceAccess) → workspace_from_dict (single "access" (choice_text a)) ≡ ok a
unfolding workspace_from_dict ◌>>=◌
workspace_again WorkspaceAccess.no_access = refl
workspace_again WorkspaceAccess.read = refl
workspace_again WorkspaceAccess.write = refl

reference_again :
    (a : ReferenceAccess) → reference_from_dict (single "access" (choice_text a)) ≡ ok a
unfolding reference_from_dict ◌>>=◌
reference_again ReferenceAccess.no_access = refl
reference_again ReferenceAccess.read = refl

filesystem_again :
    (a : ExternalAccess) → filesystem_from_dict (single "external" (choice_text a)) ≡ ok a
unfolding filesystem_from_dict ◌>>=◌
filesystem_again ExternalAccess.deny = refl
filesystem_again ExternalAccess.read = refl
filesystem_again ExternalAccess.write = refl

credentials_again :
    (a : Visibility)
    → credentials_from_dict (single "provider_auth" (single "task_shell" (choice_text a))) ≡ ok a
unfolding credentials_from_dict ◌>>=◌
credentials_again Visibility.deny = refl
credentials_again Visibility.allow = refl

security_again : (a : SecurityClass) → require_security (choice_text a) ≡ ok a
unfolding require_security
security_again SecurityClass.hardened = refl
security_again SecurityClass.compatibility = refl

sandbox_again : (b : Bool) → sandbox_from_dict (single "required" (Value.boolean b)) ≡ ok b
unfolding sandbox_from_dict ◌>>=◌
sandbox_again b = refl

git_again : (g : GitPolicy) → git_from_dict (git_as_dict g) ≡ ok g
unfolding git_from_dict git_as_dict ◌>>=◌
git_again g = refl

check_mode_again :
    (m : NetworkMode) (ds : List String)
    → Fits m ds
    → check_mode m ds ≡ ok (record { mode = m; destinations = ds })
unfolding check_mode
check_mode_again NetworkMode.deny ds h = rw h
check_mode_again NetworkMode.allow ds h = rw h
check_mode_again NetworkMode.allowlist ds h = rw h

new_task_shell_again :
    (t : TaskShellNetworkPolicy) → NetworkIsValid t → new_task_shell t.mode t.destinations ≡ ok t
unfolding new_task_shell ◌>>=◌
new_task_shell_again t v =
    rw (normalize_destinations-text_items t.destinations v.distinct v.sorted_list)
      (check_mode_again t.mode t.destinations v.fits)

mode_again : (m : NetworkMode) → require_mode (choice_text m) ≡ ok m
unfolding require_mode
mode_again NetworkMode.deny = refl
mode_again NetworkMode.allowlist = refl
mode_again NetworkMode.allow = refl

task_shell_again :
    (t : TaskShellNetworkPolicy)
    → NetworkIsValid t
    → task_shell_from_dict (task_shell_as_dict t) ≡ ok t
unfolding task_shell_from_dict task_shell_as_dict ◌>>=◌
task_shell_again t v = rw (mode_again t.mode) (
    rw (normalize_destinations-text_items t.destinations v.distinct v.sorted_list)
      (new_task_shell_again t v))

network_again :
    (t : TaskShellNetworkPolicy)
    → NetworkIsValid t
    → network_from_dict (single "task_shell" (task_shell_as_dict t)) ≡ ok t
unfolding network_from_dict ◌>>=◌
network_again t v = task_shell_again t v

cpu_again : (c : Cpu) → CpuIsValid c → normalize_cpu (cpu_value c) ≡ ok c
unfolding normalize_cpu cpu_value
cpu_again (Cpu.whole zero) v = absurd (omega arith)
cpu_again (Cpu.whole (suc n)) v = refl
cpu_again (Cpu.fraction zero k) v = absurd (omega arith)
cpu_again (Cpu.fraction (suc n) k) v = rw v.1

memory_again : (n : ℕ) → 0 < n → normalize_memory (Value.int (ℤ.pos n)) ≡ ok n
unfolding normalize_memory
memory_again zero h = absurd (omega arith)
memory_again (suc n) h = refl

pids_again : (n : ℕ) → 0 < n → require_positive_int (Value.int (ℤ.pos n)) "resources.pids" ≡ ok n
unfolding require_positive_int
pids_again zero h = absurd (omega arith)
pids_again (suc n) h = refl

resources_again :
    (r : PolicyResourceLimits)
    → ResourcesIsValid r
    → resources_from_dict (resources_as_dict r) ≡ ok r
unfolding resources_from_dict resources_as_dict ◌>>=◌
resources_again r v =
    rw (cpu_again r.cpu v.cpu_valid)
      (rw (memory_again r.memory_bytes v.memory_positive) (rw (pids_again r.pids v.pids_positive)))

-- Decoding the dict of a valid policy gives that policy.
pub from_dict-as_dict : (p : ExecutionPolicy) → IsValid p → from_dict (as_dict p) ≡ ok p
unfolding from_dict policy_dict as_dict ◌>>=◌
from_dict-as_dict p v = rw (require_version_again p.version v.version_one) (
    rw (workspace_again p.workspace) (
      rw (reference_again p.reference) (
        rw (filesystem_again p.filesystem) (
          rw (network_again p.network v.network_valid) (
            rw (credentials_again p.credentials) (
              rw (git_again p.git) (
                rw (sandbox_again p.sandbox) (
                  rw (resources_again p.resources v.resources_valid)
                    (rw (security_again p.security_class))))))))))
