-- ===== src/Base/Results.antt =====
-- Python functions that raise return a `Result`. An error keeps the class of the exception and the
-- part of its message that says what is wrong; values that the message quotes are left out.
use Prim.Native.String.{String}
use mathlib.Core.Path.{◌≡◌, refl, subst}
use mathlib.Core.List.{List}
use mathlib.Core.Bool.{Bool, true, false}

pub data Error : Type 0 where
  -- ValueError, TypeError, KeyError
  value_error type_error key_error : String → Error
  -- InputValidationError, which the broker calls RequestError
  input_error : String → Error
  -- PolicyEscalationError: the layer and the field
  escalation : String → String → Error
  -- LegacyProfileConflictError
  conflict : String → Error
  -- MissingCapabilitiesError: the missing names
  missing_capabilities : List String → Error
  -- any other exception, such as a failed subprocess or an OSError
  failure : String → Error

-- What a call ends with: the exception that it raises, or the value that it returns.
pub data Result {ℓ} (A : Type ℓ) : Type ℓ where
  err : Error → Result A
  ok : A → Result A

-- `if not b: raise e`
abbrev pub guard : Bool → Error → Result (Unit {0})
guard false problem = err problem
guard true problem = ok tt

-- The statements after a call run with its value, if it returns. Shut, so that a proof can go
-- through a `do` block by the rules below.
infixl 5 ◌>>=◌
unfoldable pub ◌>>=◌ {ℓ κ} : {A : Type ℓ} → {B : Type κ} → Result A → (A → Result B) → Result B
err problem >>= rest = err problem
ok value >>= rest = rest value

-- A call whose value is not used.
infixl 5 ◌>>◌
abbrev pub ◌>>◌ {κ} : {B : Type κ} → Result (Unit {0}) → Result B → Result B
first >> second = first >>= λ done. second

pub guard-true : (b : Bool) (e : Error) (u : Unit {0}) → guard b e ≡ ok u → b ≡ true
guard-true true e u h = refl
guard-true false e u h = cc

pub guard-eq-ok {ℓ} :
    {B : Type ℓ} (b : Bool) (e : Error) (k : Result B) {x : B}
    → (guard b e >> k) ≡ ok x
    → (b ≡ true) × (k ≡ ok x)
unfolding ◌>>=◌
guard-eq-ok true e k h = (refl, h)
guard-eq-ok false e k h = cc

pub ok-injective {ℓ} : {A : Type ℓ} (a b : A) → ok a ≡ ok b → a ≡ b
ok-injective a b h = cc

-- `r` returns only values with `P`.
pub record Ensures {ℓ κ} {A : Type ℓ} (P : A → Type κ) (r : Result A) : Type (ℓ ⊔ κ) where
  pub at : (a : A) → r ≡ ok a → P a

module _ {ℓ κ} {A : Type ℓ} {P : A → Type κ} where
  pub Ensures-ok : (a : A) → P a → Ensures P (ok a)
  Ensures-ok a p = record { at = λ b h. subst P (ok-injective a b h) p }

  pub Ensures-err : (e : Error) → Ensures P (err e)
  Ensures-err e = record { at = λ b h. cc }

module _ {ℓ κ μ} {A : Type ℓ} {B : Type κ} {P : B → Type μ} where
  pub Ensures-bind :
      (m : Result A) (f : A → Result B)
      → ((a : A) → m ≡ ok a → Ensures P (f a))
      → Ensures P (m >>= f)
  unfolding ◌>>=◌
  Ensures-bind (ok a) f k = k a refl
  Ensures-bind (err e) f k = Ensures-err e

-- A call chain that returns has returned at its first call.
pub >>=-eq-ok {κ ℓ} :
    {B : Type κ} {A : Type ℓ} (first : Result B) (rest : B → Result A) {final : A}
    → (first >>= rest) ≡ ok final
    → (value : B) × (first ≡ ok value) × (rest value ≡ ok final)
unfolding ◌>>=◌
>>=-eq-ok (err problem) rest h = cc
>>=-eq-ok (ok value) rest h = (value, refl, h)
