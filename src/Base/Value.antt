-- ===== src/Base/Value.antt =====
-- Python objects as the policy code sees them: what `json.loads` returns, with dicts whose keys
-- need not be strings. A list stands for a list or a tuple.
use Prim.Native.Nat.{ℕ}
use Prim.Native.String.{String}
use mathlib.Core.Bool.{Bool, true, false}
use mathlib.Core.Option.{Option, none, some}
use mathlib.Core.List.{List, [], ◌∷◌}
use codex_cursor_devstack.Base.Tests.{str_eq, if◌then◌else◌}

-- `negsuc n` is -(n + 1).
pub data ℤ : Type 0 where
  pos : ℕ → ℤ
  negsuc : ℕ → ℤ

-- A float is exact: `finite negative n k` is n / 2^k, negated if the flag is set.
pub data Float : Type 0 where
  nan : Float
  infinite : Bool → Float
  finite : Bool → ℕ → ℕ → Float

-- A dict's key: a string, or any other hashable object.
pub data Key : Type 0 where
  name : String → Key
  other : ℕ → Key

mutual
  pub data Value : Type 0 where
    null : Value
    boolean : Bool → Value
    int : ℤ → Value
    float : Float → Value
    text : String → Value
    list : Items → Value
    object : Fields → Value

  pub data Items : Type 0 where
    nil : Items
    cons : Value → Items → Items

  pub data Fields : Type 0 where
    end : Fields
    entry : Key → Value → Fields → Fields

-- `data.get(k)`
unfoldable pub lookup : String → Fields → Option Value
lookup k end = none
lookup k (entry (name j) v fs) = if str_eq j k then some v else lookup k fs
lookup k (entry (other n) v fs) = lookup k fs

-- `data[k] = v`: in place, or at the end
unfoldable pub set_field : String → Value → Fields → Fields
set_field k v end = entry (name k) v end
set_field k v (entry (name j) w fs) =
    if str_eq j k then entry (name j) v fs else entry (name j) w (set_field k v fs)
set_field k v (entry (other n) w fs) = entry (other n) w (set_field k v fs)

-- `k in data`
unfoldable pub has_field : String → Fields → Bool
unfolding lookup
has_field k fs = elim (lookup k fs) [ none ↦ false | some _ ↦ true ]

-- `all(isinstance(key, str) for key in data)`
unfoldable pub names_only : Fields → Bool
names_only end = true
names_only (entry (name j) v fs) = names_only fs
names_only (entry (other n) v fs) = false

-- `[text for text in texts]` as an object
unfoldable pub text_items : List String → Items
text_items [] = nil
text_items (s ∷ ss) = cons (text s) (text_items ss)
