-- ===== src/Agents/Declared.antt =====
-- What the capabilities that both drivers declare, agents/codex.py and agents/cursor.py, let through:
-- their only security class is "compatibility".
use codex_cursor_devstack.Base.{
  ◌≡◌, refl, String, Bool, true, false, List, contains, Result, ok, err, >>=-eq-ok,
}
use codex_cursor_devstack.Policy.Choices.{SecurityClass, security_choice}
use codex_cursor_devstack.Policy.Schema.{ExecutionPolicy}
use codex_cursor_devstack.Policy.Capabilities.{
  AgentCapabilities, from_policy, available_capabilities, require_policy_capabilities,
}
use codex_cursor_devstack.Policy.Capabilities.Matching.{require_capabilities-eq-ok}
use codex_cursor_devstack.Agents.Specs.{unsupported_if_missing}

unsupported_if_missing-eq-ok :
    {A : Type 0} (r : Result A) (a : A) → unsupported_if_missing r ≡ ok a → r ≡ ok a
unfolding unsupported_if_missing
unsupported_if_missing-eq-ok (ok b) a h = h
unsupported_if_missing-eq-ok (err e) a h = cc

clash : {b : Bool} → b ≡ true → b ≡ false → ⊥
clash h k = cc

-- An agent without the hardened class is not let through with a hardened policy.
pub require_policy_capabilities-compatibility :
    (p : ExecutionPolicy) (c : AgentCapabilities) (required : List String)
    → contains (available_capabilities c) "security_class:hardened" ≡ false
    → unsupported_if_missing (require_policy_capabilities p c) ≡ ok required
    → p.security_class ≡ SecurityClass.compatibility
unfolding require_policy_capabilities from_policy
require_policy_capabilities-compatibility p c required lacks h =
    let (u, checked, _) = >>=-eq-ok _ _ (unsupported_if_missing-eq-ok _ required h) in
    by_class p.security_class refl ((require_capabilities-eq-ok (from_policy p) c).0 checked).1
  where
    names_class :
        p.security_class ≡ SecurityClass.hardened
        → contains (from_policy p) "security_class:hardened" ≡ true
    names_class e = rw e refl

    by_class :
        (s : SecurityClass)
        → p.security_class ≡ s
        → ((t : String)
            → contains (from_policy p) t ≡ true
            → contains (available_capabilities c) t ≡ true)
        → p.security_class ≡ SecurityClass.compatibility
    by_class SecurityClass.compatibility e all = e
    by_class SecurityClass.hardened e all =
        elim (clash (all "security_class:hardened" (names_class e)) lacks) [ ]
