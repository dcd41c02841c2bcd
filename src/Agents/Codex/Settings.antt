-- ===== src/Agents/Codex/Settings.antt =====
-- The settings of a command of Codex, and those that hide the provider's state, agents/codex.py.
use mathlib.Core.Path.{subst}
use codex_cursor_devstack.Base.{
  ℕ, ◌==◌, ◌&&◌, ◌<>◌, codes, ◌≡◌, refl, ok-injective, String, Bool, true, false, Option, none,
  some, List, [], ◌∷◌, ◌++◌, str_eq, ok, ◌>>=◌, if◌then◌else◌,
}
use codex_cursor_devstack.Policy.Choices.{WorkspaceAccess}
use codex_cursor_devstack.Agents.Codex.{codex_credential_confidentiality_config_argv}

abbrev pub is_read : WorkspaceAccess → Bool
is_read WorkspaceAccess.read = true
is_read _ = false

abbrev pub has_prefix : List ℕ → List ℕ → Bool
has_prefix [] cs = true
has_prefix (k ∷ ks) [] = false
has_prefix (k ∷ ks) (c ∷ cs) = k == c && has_prefix ks cs

abbrev pub or_later : Option String → Option String → Option String
or_later earlier none = earlier
or_later earlier (some later) = some later

-- The last word `key=...` that follows `-c`: Codex takes the last value of a key.
unfoldable pub last_setting : String → List String → Option String
last_setting key [] = none
last_setting key (f ∷ []) = none
last_setting key (f ∷ w ∷ rest) =
    or_later (if str_eq f "-c" && has_prefix (codes (key <> "=")) (codes w) then some w else none)
      (last_setting key (w ∷ rest))

-- The words that select a permission profile which extends the one of the workspace's access and
-- denies `/home/node/.codex` and all below it, with nothing kept of the shell's history.
pub record HidesState (workspace : WorkspaceAccess) (argv : List String) : Type 0 where
  pub selected :
      last_setting "default_permissions" argv
      ≡ some "default_permissions=\"agentdev_credential_confidentiality\""
  pub extends :
      last_setting "permissions.agentdev_credential_confidentiality.extends" argv
      ≡ some (
          if is_read workspace
          then "permissions.agentdev_credential_confidentiality.extends=\":read-only\""
          else "permissions.agentdev_credential_confidentiality.extends=\":workspace\"")
  pub denied :
      last_setting "permissions.agentdev_credential_confidentiality.filesystem" argv
      ≡ some
          "permissions.agentdev_credential_confidentiality.filesystem={ \"/home/node/.codex\" = \"deny\", \"/home/node/.codex/**\" = \"deny\" }"
  pub excluded :
      last_setting "shell_environment_policy.ignore_default_excludes" argv
      ≡ some "shell_environment_policy.ignore_default_excludes=false"
  pub no_history : last_setting "history.persistence" argv ≡ some "history.persistence=\"none\""

or_later-some :
    (earlier : Option String) (later : Option String) (w : String)
    → later ≡ some w
    → or_later earlier later ≡ some w
or_later-some earlier later w h = rw h refl

-- What is set last stays set behind other words.
last_setting-append :
    (key : String) (xs ys : List String) (w : String)
    → last_setting key ys ≡ some w
    → last_setting key (xs ++ ys) ≡ some w
unfolding last_setting
last_setting-append key [] ys w h = h
last_setting-append key (x ∷ []) [] w h = cc
last_setting-append key (x ∷ []) (y ∷ ys) w h = or_later-some _ _ w h
last_setting-append key (x ∷ z ∷ xs) ys w h =
    or_later-some _ _ w (last_setting-append key (z ∷ xs) ys w h)

pub HidesState-append :
    (workspace : WorkspaceAccess) (xs ys : List String)
    → HidesState workspace ys
    → HidesState workspace (xs ++ ys)
HidesState-append workspace xs ys h = record {
  selected = last_setting-append _ xs ys _ h.selected;
  extends = last_setting-append _ xs ys _ h.extends;
  denied = last_setting-append _ xs ys _ h.denied;
  excluded = last_setting-append _ xs ys _ h.excluded;
  no_history = last_setting-append _ xs ys _ h.no_history;
}

pub confidential-HidesState :
    (workspace : WorkspaceAccess) (words : List String)
    → codex_credential_confidentiality_config_argv workspace ≡ ok words
    → HidesState workspace words
unfolding codex_credential_confidentiality_config_argv last_setting ◌>>=◌
confidential-HidesState WorkspaceAccess.read words h =
    subst (HidesState WorkspaceAccess.read) (ok-injective _ words h) (record {
      selected = refl;
      extends = refl;
      denied = refl;
      excluded = refl;
      no_history = refl;
    })
confidential-HidesState WorkspaceAccess.write words h =
    subst (HidesState WorkspaceAccess.write) (ok-injective _ words h) (record {
      selected = refl;
      extends = refl;
      denied = refl;
      excluded = refl;
      no_history = refl;
    })
confidential-HidesState WorkspaceAccess.no_access words h = cc
