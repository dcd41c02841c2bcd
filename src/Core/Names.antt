-- ===== src/Core/Names.antt =====
-- core/validation.py: the names of projects, tasks, bundles and locks.
use mathlib.Core.Path.{subst}
use codex_cursor_devstack.Base.{
  ℕ, suc, ◌≤◌, ◌≡◌, ◌≢◌, ap, refl, String, ◌<>◌, Bool, true, false, ◌&&◌, ◌||◌, List, [], ◌∷◌, leb,
  ◌==◌, if◌then◌else◌, codes, has_code, Result, ok, err, input_error, arith,
}
use codex_cursor_devstack.Base.Value.{Value}

abbrev pub length {ℓ} : {A : Type ℓ} → List A → ℕ
length [] = 0
length (x ∷ xs) = suc (length xs)

-- `[A-Za-z0-9]`
unfoldable pub is_alphanumeric : ℕ → Bool
is_alphanumeric c =
    (leb b'A' c && leb c b'Z') || (leb b'a' c && leb c b'z') || (leb b'0' c && leb c b'9')

-- `[A-Za-z0-9._-]`
unfoldable pub is_name_code : ℕ → Bool
unfolding is_alphanumeric
is_name_code c = is_alphanumeric c || c == b'.' || c == b'_' || c == b'-'

unfoldable pub all_name_codes : List ℕ → Bool
all_name_codes [] = true
all_name_codes (c ∷ cs) = is_name_code c && all_name_codes cs

-- `NAME_RE.fullmatch`
unfoldable pub matches_name : List ℕ → Bool
unfolding all_name_codes
matches_name [] = false
matches_name (c ∷ cs) = is_alphanumeric c && all_name_codes cs && leb (length cs) 63

unfoldable pub is_valid_name : Value → Bool
is_valid_name (Value.text s) = matches_name (codes s)
is_valid_name _ = false

unfoldable pub valid_name : Value → String → Result String
unfolding is_valid_name
valid_name (Value.text s) what =
    if is_valid_name (Value.text s) then ok s else err (input_error ("invalid " <> what))
valid_name _ what = err (input_error ("invalid " <> what))

name_codes_exclude :
    (c : ℕ) (cs : List ℕ)
    → is_name_code c ≡ false
    → all_name_codes cs ≡ true
    → has_code c cs ≡ false
unfolding all_name_codes has_code
name_codes_exclude c [] h k = refl
name_codes_exclude c (x ∷ cs) h k = ground (arith, name_codes_exclude c cs)

-- What a valid name is as part of a file name.
pub record IsSafeName (s : String) : Type 0 where
  pub no_separator : has_code b'/' (codes s) ≡ false
  pub no_nul : has_code 0 (codes s) ≡ false
  pub not_empty : s ≢ ""
  pub not_hidden : (cs : List ℕ) → codes s ≢ b'.' ∷ cs
  pub bounded : length (codes s) ≤ 64

record NameCodes (cs : List ℕ) : Type 0 where
  no_separator : has_code b'/' cs ≡ false
  no_nul : has_code 0 cs ≡ false
  starts : (rest : List ℕ) → cs ≢ b'.' ∷ rest
  not_empty : cs ≢ []
  bounded : length cs ≤ 64

first_code : (c x : ℕ) → is_alphanumeric c ≡ true → is_alphanumeric x ≡ false → (c == x) ≡ false
first_code c x h k = ground arith

out_slash : (is_alphanumeric b'/' ≡ false) × (is_name_code b'/' ≡ false)
unfolding is_name_code
out_slash = (refl, refl)

out_nul : (is_alphanumeric 0 ≡ false) × (is_name_code 0 ≡ false)
unfolding is_name_code
out_nul = (refl, refl)

out_dot : is_alphanumeric b'.' ≡ false
unfolding is_alphanumeric
out_dot = refl

matches_name-NameCodes : (cs : List ℕ) → matches_name cs ≡ true → NameCodes cs
unfolding matches_name has_code
matches_name-NameCodes [] h = cc
matches_name-NameCodes (c ∷ cs) h = record {
  no_separator =
      ground (arith, first_code c b'/', out_slash, name_codes_exclude b'/' cs (out_slash.1));
  no_nul = ground (arith, first_code c 0, out_nul, name_codes_exclude 0 cs (out_nul.1));
  starts = λ rest e. ground (arith, first_code c b'.', out_dot);
  not_empty = λ e. cc;
  bounded = ground arith;
}

safe_of_matches : (s : String) → matches_name (codes s) ≡ true → IsSafeName s
safe_of_matches s h =
    let n = matches_name-NameCodes (codes s) h in
    record {
      no_separator = n.no_separator;
      no_nul = n.no_nul;
      not_empty = λ e. n.not_empty (ap codes e);
      not_hidden = n.starts;
      bounded = n.bounded;
    }

-- A name that `valid_name` accepts is one safe path component, returned unchanged.
pub valid_name-IsSafeName :
    (value : Value) (what s : String)
    → valid_name value what ≡ ok s
    → (value ≡ Value.text s) × IsSafeName s
unfolding valid_name
valid_name-IsSafeName (Value.text t) what s h =
    let matched : matches_name (codes t) ≡ true = ground arith in
    let e : t ≡ s = ground arith in
    (ap Value.text e, subst IsSafeName e (safe_of_matches t matched))
valid_name-IsSafeName _ what s h = cc

abbrev pub text_of : Value → String
text_of (Value.text s) = s
text_of _ = ""

-- A value that is accepted is the text of the name.
pub valid_name-eq-ok :
    (value : Value) (what name : String) → valid_name value what ≡ ok name → text_of value ≡ name
valid_name-eq-ok value what name h = ap text_of (valid_name-IsSafeName value what name h).0
