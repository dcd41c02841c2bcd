-- ===== src/Policy/Choices.antt =====
-- The closed sets of strings in policy/schema.py, as enumerations, and their ranks in
-- policy/resolver.py. A field that `_require_choice` has admitted holds one of these.
use codex_cursor_devstack.Base.{ℕ, ◌≡◌, refl, Option, none, some, String, str_eq, if◌then◌else◌}

pub data WorkspaceAccess : Type 0 where
  no_access read write : WorkspaceAccess

pub data ReferenceAccess : Type 0 where
  no_access read : ReferenceAccess

pub data ExternalAccess : Type 0 where
  deny read write : ExternalAccess

pub data NetworkMode : Type 0 where
  deny allowlist allow : NetworkMode

pub data Visibility : Type 0 where
  deny allow : Visibility

pub data SecurityClass : Type 0 where
  hardened compatibility : SecurityClass

-- One such set: membership of a string, the string of a choice, and the rank in the resolver.
pub record Choice (A : Type 0) : Type 0 where
  pub of_name : String → Option A
  pub to_name : A → String
  pub rank : A → ℕ
  pub of_name-to_name : (a : A) → of_name (to_name a) ≡ some a

abbrev workspace_name : WorkspaceAccess → String
workspace_name WorkspaceAccess.no_access = "none"
workspace_name WorkspaceAccess.read = "read"
workspace_name WorkspaceAccess.write = "write"

abbrev workspace_of : String → Option WorkspaceAccess
workspace_of s =
    if str_eq s "none"
    then some WorkspaceAccess.no_access
    else if str_eq s "read"
    then some WorkspaceAccess.read
    else if str_eq s "write"
    then some WorkspaceAccess.write
    else none

abbrev workspace_rank : WorkspaceAccess → ℕ
workspace_rank WorkspaceAccess.no_access = 0
workspace_rank WorkspaceAccess.read = 1
workspace_rank WorkspaceAccess.write = 2

pub workspace_of-workspace_name : (a : WorkspaceAccess) → workspace_of (workspace_name a) ≡ some a
workspace_of-workspace_name WorkspaceAccess.no_access = refl
workspace_of-workspace_name WorkspaceAccess.read = refl
workspace_of-workspace_name WorkspaceAccess.write = refl

instance abbrev pub workspace_choice : Choice WorkspaceAccess
workspace_choice = record {
  of_name = workspace_of;
  to_name = workspace_name;
  rank = workspace_rank;
  of_name-to_name = workspace_of-workspace_name;
}

abbrev reference_name : ReferenceAccess → String
reference_name ReferenceAccess.no_access = "none"
reference_name ReferenceAccess.read = "read"

abbrev reference_of : String → Option ReferenceAccess
reference_of s =
    if str_eq s "none"
    then some ReferenceAccess.no_access
    else if str_eq s "read"
    then some ReferenceAccess.read
    else none

abbrev reference_rank : ReferenceAccess → ℕ
reference_rank ReferenceAccess.no_access = 0
reference_rank ReferenceAccess.read = 1

pub reference_of-reference_name : (a : ReferenceAccess) → reference_of (reference_name a) ≡ some a
reference_of-reference_name ReferenceAccess.no_access = refl
reference_of-reference_name ReferenceAccess.read = refl

instance abbrev pub reference_choice : Choice ReferenceAccess
reference_choice = record {
  of_name = reference_of;
  to_name = reference_name;
  rank = reference_rank;
  of_name-to_name = reference_of-reference_name;
}

abbrev external_name : ExternalAccess → String
external_name ExternalAccess.deny = "deny"
external_name ExternalAccess.read = "read"
external_name ExternalAccess.write = "write"

abbrev external_of : String → Option ExternalAccess
external_of s =
    if str_eq s "deny"
    then some ExternalAccess.deny
    else if str_eq s "read"
    then some ExternalAccess.read
    else if str_eq s "write"
    then some ExternalAccess.write
    else none

abbrev external_rank : ExternalAccess → ℕ
external_rank ExternalAccess.deny = 0
external_rank ExternalAccess.read = 1
external_rank ExternalAccess.write = 2

pub external_of-external_name : (a : ExternalAccess) → external_of (external_name a) ≡ some a
external_of-external_name ExternalAccess.deny = refl
external_of-external_name ExternalAccess.read = refl
external_of-external_name ExternalAccess.write = refl

instance abbrev pub external_choice : Choice ExternalAccess
external_choice = record {
  of_name = external_of;
  to_name = external_name;
  rank = external_rank;
  of_name-to_name = external_of-external_name;
}

abbrev mode_name : NetworkMode → String
mode_name NetworkMode.deny = "deny"
mode_name NetworkMode.allowlist = "allowlist"
mode_name NetworkMode.allow = "allow"

abbrev mode_of : String → Option NetworkMode
mode_of s =
    if str_eq s "deny"
    then some NetworkMode.deny
    else if str_eq s "allowlist"
    then some NetworkMode.allowlist
    else if str_eq s "allow"
    then some NetworkMode.allow
    else none

abbrev mode_rank : NetworkMode → ℕ
mode_rank NetworkMode.deny = 0
mode_rank NetworkMode.allowlist = 1
mode_rank NetworkMode.allow = 2

pub mode_of-mode_name : (a : NetworkMode) → mode_of (mode_name a) ≡ some a
mode_of-mode_name NetworkMode.deny = refl
mode_of-mode_name NetworkMode.allowlist = refl
mode_of-mode_name NetworkMode.allow = refl

instance abbrev pub mode_choice : Choice NetworkMode
mode_choice = record {
  of_name = mode_of;
  to_name = mode_name;
  rank = mode_rank;
  of_name-to_name = mode_of-mode_name;
}

abbrev visibility_name : Visibility → String
visibility_name Visibility.deny = "deny"
visibility_name Visibility.allow = "allow"

abbrev visibility_of : String → Option Visibility
visibility_of s =
    if str_eq s "deny"
    then some Visibility.deny
    else if str_eq s "allow"
    then some Visibility.allow
    else none

abbrev visibility_rank : Visibility → ℕ
visibility_rank Visibility.deny = 0
visibility_rank Visibility.allow = 1

pub visibility_of-visibility_name : (a : Visibility) → visibility_of (visibility_name a) ≡ some a
visibility_of-visibility_name Visibility.deny = refl
visibility_of-visibility_name Visibility.allow = refl

instance abbrev pub visibility_choice : Choice Visibility
visibility_choice = record {
  of_name = visibility_of;
  to_name = visibility_name;
  rank = visibility_rank;
  of_name-to_name = visibility_of-visibility_name;
}

abbrev security_name : SecurityClass → String
security_name SecurityClass.hardened = "hardened"
security_name SecurityClass.compatibility = "compatibility"

abbrev security_of : String → Option SecurityClass
security_of s =
    if str_eq s "hardened"
    then some SecurityClass.hardened
    else if str_eq s "compatibility"
    then some SecurityClass.compatibility
    else none

abbrev security_rank : SecurityClass → ℕ
security_rank SecurityClass.compatibility = 0
security_rank SecurityClass.hardened = 1

pub security_of-security_name : (a : SecurityClass) → security_of (security_name a) ≡ some a
security_of-security_name SecurityClass.hardened = refl
security_of-security_name SecurityClass.compatibility = refl

instance abbrev pub security_choice : Choice SecurityClass
security_choice = record {
  of_name = security_of;
  to_name = security_name;
  rank = security_rank;
  of_name-to_name = security_of-security_name;
}
