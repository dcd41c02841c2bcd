-- ===== src/Agents/Plain.antt =====
-- Texts that have no NUL and no newline, as the checks of agents/base.py want them.
use codex_cursor_devstack.Base.{
  ◌≡◌, refl, ℕ, String, ◌<>◌, true, false, ◌&&◌, List, [], ◌∷◌, ◌++◌, ◌↔◌, codes, codes-append,
  has_code, ok, ◌>>=◌, arith,
}
use codex_cursor_devstack.Policy.Capabilities.{all_lines}
use codex_cursor_devstack.Agents.Specs.{require_items, require_text}

-- A text without a NUL and a newline.
pub record IsPlain (s : String) : Type 0 where
  pub no_nul : has_code 0 (codes s) ≡ false
  pub no_newline : has_code 10 (codes s) ≡ false

pub has_code-append :
    (c : ℕ) (xs ys : List ℕ)
    → has_code c xs ≡ false
    → has_code c ys ≡ false
    → has_code c (xs ++ ys) ≡ false
unfolding has_code
has_code-append c [] ys h k = k
has_code-append c (x ∷ xs) ys h k = ground (arith, has_code-append c xs ys)

pub IsPlain-join : (s t : String) → IsPlain s → IsPlain t → IsPlain (s <> t)
IsPlain-join s t h k = record {
  no_nul = rw (codes-append s t) (has_code-append 0 (codes s) (codes t) h.no_nul k.no_nul);
  no_newline =
      rw (codes-append s t) (has_code-append 10 (codes s) (codes t) h.no_newline k.no_newline);
}

pub all_lines-append : (xs ys : List String) → all_lines (xs ++ ys) ≡ (all_lines xs && all_lines ys)
unfolding all_lines
all_lines-append [] ys = refl
all_lines-append (x ∷ xs) ys = ground (arith, all_lines-append xs ys)

-- The items pass whatever they are called exactly when each is a line.
pub require_items-all_lines :
    (xs : List String) (label : String) → (require_items xs label ≡ ok tt) ↔ (all_lines xs ≡ true)
unfolding require_items require_text all_lines ◌>>=◌
require_items-all_lines [] label = (λ h. refl, λ h. refl)
require_items-all_lines (x ∷ xs) label = (
  λ h. ground (arith, (require_items-all_lines xs label).0),
  λ h. ground (arith, (require_items-all_lines xs label).1),
)
