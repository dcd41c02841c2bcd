-- ===== src/Base/Texts.antt =====
-- Python strings by their code points: the predicates that validation uses, and `sorted`.
use Prim.Native.Nat.{ℕ}
use Prim.Native.Char.{code}
use Prim.Native.String.{String, ◌++◌ as ◌<>◌}
use mathlib.Core.Path.{◌≡◌, refl, ap}
use mathlib.Core.Bool.{Bool, true, false, not, ◌&&◌, ◌||◌}
use mathlib.Core.List.{List, [], ◌∷◌, ◌++◌, reverse}
use native.Mathlib.Omega.{arith}
use text.Mathlib.TextLemmas.{nil-append, cons-append}
use codex_cursor_devstack.Base.Tests.{ltb, leb, ◌==◌, if◌then◌else◌}

abbrev pub codes : String → List ℕ
codes String.[] = []
codes (String.◌∷◌ c s) = code c ∷ codes s

pub codes-append : (s t : String) → codes (s <> t) ≡ codes s ++ codes t
codes-append String.[] t = rw (nil-append t) refl
codes-append (String.◌∷◌ c s) t = rw (cons-append c s t) (ap (λ cs. code c ∷ cs) (codes-append s t))

-- `c in s`, for one character
unfoldable pub has_code : ℕ → List ℕ → Bool
has_code c [] = false
has_code c (x ∷ xs) = x == c || has_code c xs

-- `str.isspace` for one character: Unicode white space and the separators 28 to 31.
unfoldable pub is_space : ℕ → Bool
is_space c =
    (leb 9 c && leb c 13)
    || (leb 28 c && leb c 32)
    || c == 0x85
    || c == 0xa0
    || c == 0x1680
    || (leb 0x2000 c && leb c 0x200a)
    || c == 0x2028
    || c == 0x2029
    || c == 0x202f
    || c == 0x205f
    || c == 0x3000

-- `str.lstrip`
unfoldable pub lstrip : List ℕ → List ℕ
lstrip [] = []
lstrip (c ∷ cs) = let rest = lstrip cs in if is_space c then rest else c ∷ cs

-- `str.strip`
unfoldable pub strip : List ℕ → List ℕ
strip cs = reverse (lstrip (reverse (lstrip cs)))

unfoldable pub same_codes : List ℕ → List ℕ → Bool
same_codes [] [] = true
same_codes (a ∷ cs) (b ∷ ds) = a == b && same_codes cs ds
same_codes _ _ = false

abbrev pub is_empty {ℓ} : {A : Type ℓ} → List A → Bool
is_empty [] = true
is_empty (_ ∷ _) = false

-- `s and s == s.strip() and "\x00" not in s and "\n" not in s`
unfoldable pub is_label : String → Bool
unfolding has_code is_space lstrip strip same_codes
is_label s =
    let cs = codes s in
    not (is_empty cs) && same_codes cs (strip cs) && not (has_code 0 cs) && not (has_code 10 cs)

-- `s and "\x00" not in s and "\n" not in s`
unfoldable pub is_line : String → Bool
unfolding has_code
is_line s = let cs = codes s in not (is_empty cs) && not (has_code 0 cs) && not (has_code 10 cs)

-- Python compares strings by code points.
unfoldable pub codes_le : List ℕ → List ℕ → Bool
codes_le [] _ = true
codes_le (a ∷ cs) [] = false
codes_le (a ∷ cs) (b ∷ ds) = ltb a b || (a == b && codes_le cs ds)

codes_le_total : (cs ds : List ℕ) → codes_le cs ds ≡ false → codes_le ds cs ≡ true
unfolding codes_le
codes_le_total [] [] h = refl
codes_le_total [] (b ∷ ds) h = cc
codes_le_total (a ∷ cs) [] h = refl
codes_le_total (a ∷ cs) (b ∷ ds) h = ground (arith, codes_le_total cs ds)

unfoldable pub text_le : String → String → Bool
unfolding codes_le
text_le s t = codes_le (codes s) (codes t)

pub text_le_total : (s t : String) → text_le s t ≡ false → text_le t s ≡ true
unfolding text_le
text_le_total s t h = codes_le_total (codes s) (codes t) h

insert_sorted : String → List String → List String
insert_sorted x [] = x ∷ []
insert_sorted x (y ∷ ys) = if text_le x y then x ∷ y ∷ ys else y ∷ insert_sorted x ys

-- `sorted` on strings
unfoldable pub sorted : List String → List String
unfolding insert_sorted text_le
sorted [] = []
sorted (x ∷ xs) = insert_sorted x (sorted xs)

abbrev pub IsSorted : List String → Type 0
IsSorted [] = Unit
IsSorted (x ∷ []) = Unit
IsSorted (x ∷ y ∷ ys) = (text_le x y ≡ true) × IsSorted (y ∷ ys)

insert_sorted-IsSorted :
    (x : String) (ys : List String) → IsSorted ys → IsSorted (insert_sorted x ys)
unfolding insert_sorted
insert_sorted-IsSorted x [] s = tt
insert_sorted-IsSorted x (y ∷ []) s = ground (arith, text_le_total x y)
insert_sorted-IsSorted x (y ∷ z ∷ zs) s =
    ground (arith, text_le_total x y, insert_sorted-IsSorted x (z ∷ zs) s.1)

pub sorted-IsSorted : (xs : List String) → IsSorted (sorted xs)
unfolding sorted
sorted-IsSorted [] = tt
sorted-IsSorted (x ∷ xs) = insert_sorted-IsSorted x (sorted xs) (sorted-IsSorted xs)

IsSorted-tail : (x : String) (xs : List String) → IsSorted (x ∷ xs) → IsSorted xs
IsSorted-tail x [] s = tt
IsSorted-tail x (y ∷ ys) s = s.1

insert_sorted_head :
    (x : String) (xs : List String) → IsSorted (x ∷ xs) → insert_sorted x xs ≡ x ∷ xs
unfolding insert_sorted
insert_sorted_head x [] s = refl
insert_sorted_head x (y ∷ ys) s = rw s.0

-- A sorted list is left as it is.
pub sorted_of_IsSorted : (xs : List String) → IsSorted xs → sorted xs ≡ xs
unfolding sorted
sorted_of_IsSorted [] s = refl
sorted_of_IsSorted (x ∷ xs) s =
    rw (sorted_of_IsSorted xs (IsSorted-tail x xs s)) (insert_sorted_head x xs s)
