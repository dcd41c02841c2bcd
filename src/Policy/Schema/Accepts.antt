-- ===== src/Policy/Schema/Accepts.antt =====
-- `from_dict` accepts only valid policies.
use native.Mathlib.Nat.{div-add-mod}
use codex_cursor_devstack.Base.{
  ℕ, suc, ◌+◌, ◌-◌, ◌*◌, ◌<◌, ◌≡◌, ◌/◌, ◌^◌, Bool-cases, inl, inr, String, true, false, some, List,
  [], ◌∷◌, codes, ok, Ensures, Ensures-ok, Ensures-err, Ensures-bind, arith,
}
use codex_cursor_devstack.Base.Value.{ℤ, Float, Value}
use codex_cursor_devstack.Policy.Checks.{
  is_integer, normalize_cpu, memory_multiplier, memory_rest, memory_quantity, normalize_memory,
  require_positive_int,
}
use codex_cursor_devstack.Policy.Schema.Records.{ExecutionPolicy}
use codex_cursor_devstack.Policy.Schema.Decode.{require_version, resources_from_dict, from_dict}
use codex_cursor_devstack.Policy.Schema.Valid.{
  CpuIsValid, ResourcesIsValid, IsValid, network_from_dict-NetworkIsValid,
}

whole_positive : (n k : ℕ) → is_integer (suc n) k ≡ true → 0 < suc n / 2 ^ k
whole_positive n k h = grind (arith, div-add-mod)

normalize_cpu-CpuIsValid : (v : Value) → Ensures CpuIsValid (normalize_cpu v)
unfolding normalize_cpu
normalize_cpu-CpuIsValid (Value.int (ℤ.pos (suc n))) = Ensures-ok _ (omega arith)
normalize_cpu-CpuIsValid (Value.float (Float.finite false (suc n) k)) =
    elim (Bool-cases (is_integer (suc n) k)) [
      | inl whole ↦ rw whole (Ensures-ok _ (whole_positive n k whole))
      | inr part ↦ rw part (Ensures-ok _ (omega arith, part))
    ]
normalize_cpu-CpuIsValid (Value.float (Float.infinite b)) = Ensures-err _
normalize_cpu-CpuIsValid (Value.float _) = Ensures-err _
normalize_cpu-CpuIsValid _ = Ensures-err _

memory_multiplier_positive : (c m : ℕ) → memory_multiplier c ≡ some m → 0 < m
unfolding memory_multiplier
memory_multiplier_positive c m h = ground arith

product_positive : (q m : ℕ) → 0 < q → 0 < m → 0 < q * m
product_positive q m p r = grind arith

memory_suffix_positive : (q c m n : ℕ) → 0 < q → memory_multiplier c ≡ some m → q * m ≡ n → 0 < n
memory_suffix_positive q c m n p h e =
    rw (← e) (product_positive q m p (memory_multiplier_positive c m h))

memory_rest_positive : (q : ℕ) (cs : List ℕ) (n : ℕ) → 0 < q → memory_rest q cs ≡ some n → 0 < n
unfolding memory_rest
memory_rest_positive q [] n p h = ground arith
memory_rest_positive q (c ∷ []) n p h =
    ground (arith, memory_suffix_positive q c, memory_rest_positive (q * 10 + (c - 48)) [] n)
memory_rest_positive q (c ∷ x ∷ cs) n p h =
    ground (arith, memory_rest_positive (q * 10 + (c - 48)) (x ∷ cs) n)

memory_quantity_positive : (cs : List ℕ) (n : ℕ) → memory_quantity cs ≡ some n → 0 < n
unfolding memory_quantity
memory_quantity_positive [] n h = cc
memory_quantity_positive (c ∷ cs) n h = ground (arith, memory_rest_positive (c - 48) cs n)

normalize_memory_positive : (v : Value) → Ensures (λ n. 0 < n) (normalize_memory v)
unfolding normalize_memory
normalize_memory_positive (Value.int (ℤ.pos (suc n))) = Ensures-ok _ (omega arith)
normalize_memory_positive (Value.text s) = record {
  at = λ n h. ground (arith, memory_quantity_positive (codes s) n);
}
normalize_memory_positive (Value.int _) = Ensures-err _
normalize_memory_positive _ = Ensures-err _

require_positive_int_positive :
    (v : Value) (path : String) → Ensures (λ n. 0 < n) (require_positive_int v path)
unfolding require_positive_int
require_positive_int_positive (Value.int (ℤ.pos (suc n))) path = Ensures-ok _ (omega arith)
require_positive_int_positive _ path = Ensures-err _

resources_from_dict-ResourcesIsValid :
    (v : Value) → Ensures ResourcesIsValid (resources_from_dict v)
unfolding resources_from_dict
resources_from_dict-ResourcesIsValid v = Ensures-bind _ _ λ _ _. Ensures-bind _ _ λ c _.
    Ensures-bind _ _ λ cpu hc. Ensures-bind _ _ λ m _. Ensures-bind _ _ λ memory hm.
      Ensures-bind _ _ λ p _. Ensures-bind _ _ λ pids hp. Ensures-ok _ (record {
        cpu_valid = (normalize_cpu-CpuIsValid c).at cpu hc;
        memory_positive = (normalize_memory_positive m).at memory hm;
        pids_positive = (require_positive_int_positive p _).at pids hp;
      })

require_version_one : (v : Value) → Ensures (λ n. n ≡ 1) (require_version v)
unfolding require_version
require_version_one (Value.int (ℤ.pos n)) = record { at = λ m h. ground arith }
require_version_one _ = Ensures-err _

pub from_dict-Ensures : (v : Value) → Ensures IsValid (from_dict v)
unfolding from_dict
from_dict-Ensures v = Ensures-bind _ _ λ _ _. Ensures-bind _ _ λ i _. Ensures-bind _ _ λ version hi.
    Ensures-bind _ _ λ _ _. Ensures-bind _ _ λ _ _. Ensures-bind _ _ λ _ _. Ensures-bind _ _ λ _ _.
      Ensures-bind _ _ λ _ _. Ensures-bind _ _ λ _ _. Ensures-bind _ _ λ n _.
        Ensures-bind _ _ λ network hn. Ensures-bind _ _ λ _ _. Ensures-bind _ _ λ _ _.
          Ensures-bind _ _ λ _ _. Ensures-bind _ _ λ _ _. Ensures-bind _ _ λ _ _.
            Ensures-bind _ _ λ _ _. Ensures-bind _ _ λ l _. Ensures-bind _ _ λ resources hl.
              Ensures-bind _ _ λ _ _. Ensures-bind _ _ λ _ _. Ensures-ok _ (record {
                version_one = (require_version_one i).at version hi;
                network_valid = (network_from_dict-NetworkIsValid n).at network hn;
                resources_valid = (resources_from_dict-ResourcesIsValid l).at resources hl;
              })

-- Whatever `from_dict` accepts is a valid policy.
pub from_dict-IsValid : (v : Value) (p : ExecutionPolicy) → from_dict v ≡ ok p → IsValid p
from_dict-IsValid v p h = (from_dict-Ensures v).at p h
