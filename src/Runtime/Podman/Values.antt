-- ===== src/Runtime/Podman/Values.antt =====
-- What a list of options says: the values of one of them, and the options of one word.
use codex_cursor_devstack.Base.{
  ◌≡◌, refl, ap, String, true, false, List, [], ◌∷◌, ◌++◌, map, str_eq, if◌then◌else◌, arith,
}
use codex_cursor_devstack.Runtime.Podman.Reading.{RunOption, flag, valued}

-- The values of an option, in order.
unfoldable pub values : String → List RunOption → List String
values name [] = []
values name (flag w ∷ os) = values name os
values name (valued w v ∷ os) = if str_eq w name then v ∷ values name os else values name os

-- The options of one word.
unfoldable pub flags : List RunOption → List String
flags [] = []
flags (flag w ∷ os) = w ∷ flags os
flags (valued w v ∷ os) = flags os

pub values-append :
    (name : String) (os qs : List RunOption)
    → values name (os ++ qs) ≡ values name os ++ values name qs
unfolding values
values-append name [] qs = refl
values-append name (flag w ∷ os) qs = values-append name os qs
values-append name (valued w v ∷ os) qs = ground (arith, values-append name os qs)

pub flags-append : (os qs : List RunOption) → flags (os ++ qs) ≡ flags os ++ flags qs
unfolding flags
flags-append [] qs = refl
flags-append (flag w ∷ os) qs = ap (λ ws. w ∷ ws) (flags-append os qs)
flags-append (valued w v ∷ os) qs = flags-append os qs

pub values_flags : (name : String) (ws : List String) → values name (map flag ws) ≡ []
unfolding values
values_flags name [] = refl
values_flags name (w ∷ ws) = values_flags name ws

pub flags_all : (ws : List String) → flags (map flag ws) ≡ ws
unfolding flags
flags_all [] = refl
flags_all (w ∷ ws) = ap (λ vs. w ∷ vs) (flags_all ws)

-- Options that all have one name.
module _ {A : Type 0} (name : String) (text : A → String) where
  abbrev pub named : A → RunOption
  named x = valued name (text x)

  pub values_same :
      (other : String) (xs : List A)
      → str_eq name other ≡ true
      → values other (map named xs) ≡ map text xs
  unfolding values
  values_same other [] h = refl
  values_same other (x ∷ xs) h = rw (h, values_same other xs h) refl

  pub values_other :
      (other : String) (xs : List A) → str_eq name other ≡ false → values other (map named xs) ≡ []
  unfolding values
  values_other other [] h = refl
  values_other other (x ∷ xs) h = rw h (values_other other xs h)

  pub flags_absent : (xs : List A) → flags (map named xs) ≡ []
  unfolding flags
  flags_absent [] = refl
  flags_absent (x ∷ xs) = flags_absent xs
