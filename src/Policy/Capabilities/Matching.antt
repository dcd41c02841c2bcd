-- ===== src/Policy/Capabilities/Matching.antt =====
-- Capability matching fails closed.
use Prim.Native.Char.{Char, code}
use text.Mathlib.TextLemmas.{cons-append, head-eq_of_cons-eq}
use codex_cursor_devstack.Base.{
  contains-append, ◌≡◌, ◌↔◌, ◌≢◌, inl, inr, refl, sym, ◌∙◌, String, ◌<>◌, true, false, not, ◌&&◌,
  List, [], ◌∷◌, ◌++◌, contains, contains_head, value_error, ap, eq_iff, Bool-cases, Result, ok,
  err, missing_capabilities, ◌>>=◌, >>=-eq-ok, guard-eq-ok, arith,
}
use codex_cursor_devstack.Policy.Choices.{NetworkMode, SecurityClass}
use codex_cursor_devstack.Policy.Schema.{ExecutionPolicy}
use codex_cursor_devstack.Policy.Capabilities.{
  AgentCapabilities, from_policy, when, workspace_requirement, hardened_requirement,
  available_capabilities, verdict, prefixed, missing, all_labels, require_capabilities,
  require_policy_capabilities,
}

-- A name is missing exactly when it is required and not available.
contains-missing :
    (required available : List String) (s : String)
    → contains (missing required available) s ≡ (contains required s && not (contains available s))
unfolding missing
contains-missing [] available s = refl
contains-missing (x ∷ xs) available s = ground (arith, eq_iff x s, contains-missing xs available s)

verdict-err :
    (l lacking : List String) → verdict l ≡ err (missing_capabilities lacking) → lacking ≡ l
unfolding verdict
verdict-err [] lacking h = cc
verdict-err (x ∷ l) lacking h = cc

verdict-ok : (l : List String) → verdict l ≡ ok tt → l ≡ []
unfolding verdict
verdict-ok [] h = refl
verdict-ok (x ∷ l) h = cc

verdict-nil : verdict [] ≡ ok tt
unfolding verdict
verdict-nil = refl

no_member : (l : List String) → ((s : String) → contains l s ≡ false) → l ≡ []
no_member [] h = refl
no_member (x ∷ l) h = cc (h x, contains_head x l)

unnamed :
    (m : String) (l : List String)
    → ◌≡◌ {A = Result (Unit {0})} (err (value_error m)) (err (missing_capabilities l))
    → ⊥
unnamed m l e = cc

-- A refused run names exactly the capabilities that are required and not available.
pub require_capabilities-eq-err :
    (required : List String) (c : AgentCapabilities) (lacking : List String) (s : String)
    → require_capabilities required c ≡ err (missing_capabilities lacking)
    → contains lacking s ≡ (contains required s && not (contains (available_capabilities c) s))
unfolding require_capabilities ◌>>=◌
require_capabilities-eq-err required c lacking s h = elim (Bool-cases (all_labels required)) [
  | inl labels ↦
      rw (verdict-err (missing required (available_capabilities c)) lacking (rw labels at h))
        (contains-missing required (available_capabilities c) s)
  | inr bad ↦ absurd (unnamed _ lacking (rw bad at h))
]

covered :
    (required available : List String)
    → ((s : String) → contains required s ≡ true → contains available s ≡ true)
    → missing required available ≡ []
covered required available h =
    no_member (missing required available)
      (λ s. rw (contains-missing required available s) (ground (arith, h s)))

-- A run is let through exactly when its requirements are well-formed names and all available.
pub require_capabilities-eq-ok :
    (required : List String) (c : AgentCapabilities)
    → (require_capabilities required c ≡ ok tt) ↔ (
        (all_labels required ≡ true)
        × ((s : String)
            → contains required s ≡ true
            → contains (available_capabilities c) s ≡ true))
unfolding require_capabilities ◌>>=◌
require_capabilities-eq-ok required c = (
  λ h.
      let (labels, h1) = guard-eq-ok (all_labels required) _ _ h in
      (
        labels,
        λ s m.
            let none_missing =
              ap (λ l. contains l s)
                (verdict-ok (missing required (available_capabilities c)) h1) in
            ground (arith, none_missing, contains-missing required (available_capabilities c) s),
      ),
  λ (labels, h). rw labels (rw (covered required (available_capabilities c) h) verdict-nil),
)

ne_network_deny :
    (c : Char) (rest s : String) → code c ≢ 110 → String.◌∷◌ c rest <> s ≢ "network_deny"
ne_network_deny c rest s h e = h (ap code (head-eq_of_cons-eq (sym (cons-append c rest s) ∙ e)))

-- The names made from a prefix that starts with another letter differ from `network_deny`.
prefixed_other :
    (c : Char) (rest : String) (ss : List String)
    → code c ≢ 110
    → contains (prefixed (String.◌∷◌ c rest) ss) "network_deny" ≡ false
unfolding prefixed
prefixed_other c rest [] h = refl
prefixed_other c rest (s ∷ ss) h = ground (
  arith,
  eq_iff (String.◌∷◌ c rest <> s) "network_deny",
  ne_network_deny c rest s h,
  prefixed_other c rest ss h,
)

available_network_deny :
    (c : AgentCapabilities)
    → contains (available_capabilities c) "network_deny" ≡ true
    → contains c.policy_capabilities "network_deny" ≡ true
unfolding available_capabilities
available_network_deny c h = ground (
  arith,
  h,
  contains-append c.policy_capabilities
      (prefixed "workspace:" c.workspace_modes
        ++ (prefixed "security_class:" c.security_classes
            ++ (prefixed "compatibility:" c.compatibility_modes
                ++ (when c.interactive_run "interactive-run"
                    ++ when c.native_sandbox "filesystem_sandbox"))))
      "network_deny",
  contains-append (prefixed "workspace:" c.workspace_modes)
      (prefixed "security_class:" c.security_classes
        ++ (prefixed "compatibility:" c.compatibility_modes
            ++ (when c.interactive_run "interactive-run"
                ++ when c.native_sandbox "filesystem_sandbox")))
      "network_deny",
  contains-append (prefixed "security_class:" c.security_classes)
      (prefixed "compatibility:" c.compatibility_modes
        ++ (when c.interactive_run "interactive-run" ++ when c.native_sandbox "filesystem_sandbox"))
      "network_deny",
  contains-append (prefixed "compatibility:" c.compatibility_modes)
      (when c.interactive_run "interactive-run" ++ when c.native_sandbox "filesystem_sandbox")
      "network_deny",
  prefixed_other "w" "orkspace:" c.workspace_modes (omega arith),
  prefixed_other "s" "ecurity_class:" c.security_classes (omega arith),
  prefixed_other "c" "ompatibility:" c.compatibility_modes (omega arith),
)

requires_network_deny :
    (p : ExecutionPolicy)
    → p.security_class ≡ SecurityClass.hardened
    → p.network.mode ≡ NetworkMode.deny
    → contains (from_policy p) "network_deny" ≡ true
unfolding from_policy workspace_requirement hardened_requirement
requires_network_deny p h m = ground arith

-- A hardened policy that denies the task shell the network runs only on an agent whose
-- certified policy capabilities name `network_deny`.
pub hardened_network_deny :
    (p : ExecutionPolicy) (c : AgentCapabilities) (required : List String)
    → p.security_class ≡ SecurityClass.hardened
    → p.network.mode ≡ NetworkMode.deny
    → require_policy_capabilities p c ≡ ok required
    → contains c.policy_capabilities "network_deny" ≡ true
unfolding require_policy_capabilities
hardened_network_deny p c required h m passed =
    let (u, checked, _) = >>=-eq-ok _ _ passed in
    available_network_deny c (
      ((require_capabilities-eq-ok (from_policy p) c).0 checked).1 "network_deny"
        (requires_network_deny p h m))
