-- ===== src/Policy/Checks.antt =====
-- The `_require_*` and `_normalize_*` functions of policy/schema.py.
use codex_cursor_devstack.Base.{
  ℕ, suc, ◌+◌, ◌-◌, ◌*◌, ◌/◌, ◌%◌, ◌^◌, String, ◌<>◌, Bool, true, false, not, ◌&&◌, ◌||◌, Option,
  none, some, List, [], ◌∷◌, leb, ◌==◌, if◌then◌else◌, contains, codes, is_label, sorted, Result,
  ok, err, value_error, key_error, ◌>>=◌, ◌>>◌, guard,
}
use codex_cursor_devstack.Base.Value.{
  ℤ, Float, Value, Items, Fields, Key, lookup, has_field, names_only,
}
use codex_cursor_devstack.Policy.Choices.{Choice}

unfoldable pub require_mapping : Value → String → Result Fields
unfolding names_only
require_mapping (Value.object fs) path =
    if names_only fs then ok fs else err (value_error (path <> " field names must be strings"))
require_mapping _ path = err (value_error (path <> " must be an object"))

-- No key outside `known`.
unfoldable pub only_fields : List String → Fields → Bool
only_fields known Fields.end = true
only_fields known (Fields.entry (Key.name j) v fs) = contains known j && only_fields known fs
only_fields known (Fields.entry (Key.other n) v fs) = false

unfoldable pub has_fields : List String → Fields → Bool
unfolding has_field
has_fields [] fs = true
has_fields (k ∷ ks) fs = has_field k fs && has_fields ks fs

abbrev both : List String → List String → List String
both [] ys = ys
both (x ∷ xs) ys = x ∷ both xs ys

unfoldable pub require_fields : Value → String → List String → List String → Result Fields
unfolding require_mapping only_fields has_fields
require_fields value path required optional = do
  mapping ← require_mapping value path
  guard (only_fields (both required optional) mapping)
      (value_error (path <> " contains unknown fields"))
  guard (has_fields required mapping) (value_error (path <> " is missing required fields"))
  ok mapping

-- `data[k]`
unfoldable pub get_item : String → Fields → Result Value
unfolding lookup
get_item k data' = elim (lookup k data') [ none ↦ err (key_error k) | some v ↦ ok v ]

-- `_require_choice(value, path, allowed)`
unfoldable pub require_choice : {A : Type 0} ⦃c : Choice A⦄ → Value → String → Result A
require_choice ⦃c⦄ (Value.text s) path = elim (c.of_name s) [
  | none ↦ err (value_error (path <> " must be one of the choices"))
  | some a ↦ ok a
]
require_choice _ path = err (value_error (path <> " must be one of the choices"))

unfoldable pub require_bool : Value → String → Result Bool
require_bool (Value.boolean b) path = ok b
require_bool _ path = err (value_error (path <> " must be boolean"))

-- A bool is no int here, since the source tests `type(value) is not int`.
unfoldable pub require_positive_int : Value → String → Result ℕ
require_positive_int (Value.int (ℤ.pos (suc n))) path = ok (suc n)
require_positive_int _ path = err (value_error (path <> " must be a positive integer"))

-- What `_normalize_cpu` returns: a positive int, or the positive finite float n / 2^k.
pub data Cpu : Type 0 where
  whole : ℕ → Cpu
  fraction : ℕ → ℕ → Cpu

-- `value.is_integer()` of n / 2^k
abbrev pub is_integer : ℕ → ℕ → Bool
is_integer n k = n % 2 ^ k == 0

unfoldable pub normalize_cpu : Value → Result Cpu
normalize_cpu (Value.int (ℤ.pos (suc n))) = ok (Cpu.whole (suc n))
normalize_cpu (Value.float (Float.finite false (suc n) k)) =
    if is_integer (suc n) k then ok (Cpu.whole (suc n / 2 ^ k)) else ok (Cpu.fraction (suc n) k)
normalize_cpu (Value.float (Float.infinite b)) =
    err (value_error "resources.cpu must be a positive finite number")
normalize_cpu (Value.float _) = err (value_error "resources.cpu must be a positive finite number")
normalize_cpu _ = err (value_error "resources.cpu must be a positive number")

-- `_MEMORY_MULTIPLIERS` at the lower-cased suffix
unfoldable pub memory_multiplier : ℕ → Option ℕ
memory_multiplier c =
    if c == b'k' || c == b'K'
    then some 1024
    else if c == b'm' || c == b'M'
    then some (1024 ^ 2)
    else if c == b'g' || c == b'G'
    then some (1024 ^ 3)
    else if c == b't' || c == b'T'
    then some (1024 ^ 4)
    else none

-- `_MEMORY_RE` behind its first digit: more digits, then at most one suffix, then the end.
unfoldable pub memory_rest : ℕ → List ℕ → Option ℕ
unfolding memory_multiplier
memory_rest quantity [] = some quantity
memory_rest quantity (c ∷ cs) =
    let more = memory_rest (quantity * 10 + (c - 48)) cs in
    if leb 48 c && leb c 57 then more else elim cs [
      | [] ↦ elim (memory_multiplier c) [ none ↦ none | some m ↦ some (quantity * m) ]
      | _ ∷ _ ↦ none
    ]

unfoldable pub memory_quantity : List ℕ → Option ℕ
unfolding memory_rest
memory_quantity [] = none
memory_quantity (c ∷ cs) = if leb 49 c && leb c 57 then memory_rest (c - 48) cs else none

unfoldable pub normalize_memory : Value → Result ℕ
unfolding memory_quantity
normalize_memory (Value.int (ℤ.pos (suc n))) = ok (suc n)
normalize_memory (Value.int _) = err (value_error "resources.memory must be positive")
normalize_memory (Value.text s) = elim (memory_quantity (codes s)) [
  | none ↦
      err (
        value_error
          "resources.memory must be positive integer bytes or an integer k/m/g/t quantity")
  | some n ↦ ok n
]
normalize_memory _ =
    err
      (value_error "resources.memory must be positive integer bytes or an integer k/m/g/t quantity")

-- The loop of `_normalize_destinations`, with the set `seen`.
unfoldable pub collect_destinations : List String → Items → Result (List String)
unfolding is_label
collect_destinations seen Items.nil = ok []
collect_destinations seen (Items.cons (Value.text item) rest) = do
  guard (is_label item) (
      value_error
        "network.task_shell destinations must be non-empty single-line strings without surrounding whitespace")
  guard (not (contains seen item)) (value_error "network.task_shell contains duplicate destination")
  result ← collect_destinations (item ∷ seen) rest
  ok (item ∷ result)
collect_destinations seen (Items.cons _ rest) = err (
    value_error
      "network.task_shell destinations must be non-empty single-line strings without surrounding whitespace")

unfoldable pub normalize_destinations : Value → Result (List String)
unfolding collect_destinations sorted
normalize_destinations (Value.list items) = do
  result ← collect_destinations [] items
  ok (sorted result)
normalize_destinations _ =
    err (value_error "network.task_shell.destinations must be a list or tuple")
