-- ===== src/Policy/Schema/Records.antt =====
-- The records of policy/schema.py. A field that `_require_choice` restricts is an enumeration, so its
-- check in `__post_init__` holds. A record with one field is that field.
use codex_cursor_devstack.Base.{ℕ, String, Bool, List}
use codex_cursor_devstack.Policy.Choices.{
  WorkspaceAccess, ReferenceAccess, ExternalAccess, NetworkMode, Visibility, SecurityClass,
}
use codex_cursor_devstack.Policy.Checks.{Cpu}

pub record TaskShellNetworkPolicy : Type 0 where
  pub mode : NetworkMode
  pub destinations : List String

pub record GitPolicy : Type 0 where
  pub read : Bool
  pub commit : Bool
  pub push : Bool

pub record PolicyResourceLimits : Type 0 where
  pub cpu : Cpu
  pub memory_bytes : ℕ
  pub pids : ℕ

-- `workspace` is `workspace.access`, `credentials` is `credentials.provider_auth.task_shell`.
pub record ExecutionPolicy : Type 0 where
  pub version : ℕ
  pub workspace : WorkspaceAccess
  pub reference : ReferenceAccess
  pub filesystem : ExternalAccess
  pub network : TaskShellNetworkPolicy
  pub credentials : Visibility
  pub git : GitPolicy
  pub sandbox : Bool
  pub resources : PolicyResourceLimits
  pub security_class : SecurityClass
