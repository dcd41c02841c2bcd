-- ===== src/Policy/Schema/Valid.antt =====
-- What a valid policy is, and that decoding a network yields a valid one.
use mathlib.Core.Path.{subst}
use codex_cursor_devstack.Base.{
  not-true, ◌<◌, ◌≡◌, refl, ap, sym, ◌∙◌, String, true, false, List, [], ◌∷◌, is_empty, is_label,
  contains, sorted, IsSorted, sorted-IsSorted, sorted_of_IsSorted, ok, ◌>>=◌, Ensures, Ensures-ok,
  Ensures-err, Ensures-bind, guard-true, arith,
}
use codex_cursor_devstack.Base.Value.{Value, Items, text_items}
use codex_cursor_devstack.Policy.Choices.{NetworkMode}
use codex_cursor_devstack.Policy.Checks.{
  Cpu, is_integer, collect_destinations, normalize_destinations,
}
use codex_cursor_devstack.Policy.Schema.Records.{
  TaskShellNetworkPolicy, PolicyResourceLimits, ExecutionPolicy,
}
use codex_cursor_devstack.Policy.Schema.Decode.{
  check_mode, new_task_shell, task_shell_from_dict, network_from_dict, one_field,
}

-- Labels that differ from one another and from those in `seen`.
abbrev pub Distinct : List String → List String → Type 0
Distinct seen [] = Unit
Distinct seen (d ∷ ds) = (is_label d ≡ true) × (contains seen d ≡ false) × Distinct (d ∷ seen) ds

-- Destinations stand exactly in allowlist mode.
abbrev pub Fits : NetworkMode → List String → Type 0
Fits NetworkMode.allowlist ds = is_empty ds ≡ false
Fits NetworkMode.deny ds = is_empty ds ≡ true
Fits NetworkMode.allow ds = is_empty ds ≡ true

pub record NetworkIsValid (t : TaskShellNetworkPolicy) : Type 0 where
  pub distinct : Distinct [] t.destinations
  pub sorted_list : IsSorted t.destinations
  pub fits : Fits t.mode t.destinations

-- Positive, and a float only if it is no integer.
abbrev pub CpuIsValid : Cpu → Type 0
CpuIsValid (Cpu.whole n) = 0 < n
CpuIsValid (Cpu.fraction n k) = (0 < n) × (is_integer n k ≡ false)

pub record ResourcesIsValid (r : PolicyResourceLimits) : Type 0 where
  pub cpu_valid : CpuIsValid r.cpu
  pub memory_positive : 0 < r.memory_bytes
  pub pids_positive : 0 < r.pids

pub record IsValid (p : ExecutionPolicy) : Type 0 where
  pub version_one : p.version ≡ 1
  pub network_valid : NetworkIsValid p.network
  pub resources_valid : ResourcesIsValid p.resources

-- The destinations that a list of texts yields are those texts, if they are distinct labels.
pub collect_destinations-text_items :
    (seen ds : List String) → Distinct seen ds → collect_destinations seen (text_items ds) ≡ ok ds
unfolding collect_destinations text_items ◌>>=◌
collect_destinations-text_items seen [] h = refl
collect_destinations-text_items seen (d ∷ ds) h =
    rw (h.0, h.1, collect_destinations-text_items (d ∷ seen) ds h.2)

collect_destinations-Distinct :
    (seen : List String) (items : Items) → Ensures (Distinct seen) (collect_destinations seen items)
unfolding collect_destinations
collect_destinations-Distinct seen Items.nil = Ensures-ok [] tt
collect_destinations-Distinct seen (Items.cons (Value.text d) rest) = Ensures-bind _ _ λ _ label.
    Ensures-bind _ _ λ _ fresh. Ensures-bind _ _ λ ds collected. Ensures-ok (d ∷ ds) (
      guard-true _ _ _ label,
      not-true _ (guard-true _ _ _ fresh),
      (collect_destinations-Distinct (d ∷ seen) rest).at ds collected,
    )
collect_destinations-Distinct seen (Items.cons _ rest) = Ensures-err _

-- Normalising a sorted list of distinct labels leaves it as it is.
pub normalize_destinations-text_items :
    (ds : List String)
    → Distinct [] ds
    → IsSorted ds
    → normalize_destinations (Value.list (text_items ds)) ≡ ok ds
unfolding normalize_destinations ◌>>=◌
normalize_destinations-text_items ds h s =
    rw (collect_destinations-text_items [] ds h) (ap ok (sorted_of_IsSorted ds s))

collect_destinations_step :
    (seen ds : List String) (d : String) (rest : Items)
    → Ensures (λ r. r ≡ ds) (collect_destinations (d ∷ seen) rest)
    → Ensures (λ r. r ≡ d ∷ ds) (collect_destinations seen (Items.cons (Value.text d) rest))
unfolding collect_destinations
collect_destinations_step seen ds d rest ih = Ensures-bind _ _ λ _ _.
    Ensures-bind _ _ λ _ _.
      Ensures-bind _ _ λ r collected. Ensures-ok (d ∷ r) (ap (λ l. d ∷ l) (ih.at r collected))

-- What was collected from texts is those texts.
collect_destinations-eq :
    (seen ds : List String) → Ensures (λ r. r ≡ ds) (collect_destinations seen (text_items ds))
unfolding text_items
collect_destinations-eq seen [] = unfold collect_destinations in Ensures-ok [] refl
collect_destinations-eq seen (d ∷ ds) =
    collect_destinations_step seen ds d (text_items ds) (collect_destinations-eq (d ∷ seen) ds)

normalize_destinations-IsSorted : (v : Value) → Ensures IsSorted (normalize_destinations v)
unfolding normalize_destinations
normalize_destinations-IsSorted (Value.list items) =
    Ensures-bind _ _ λ r _. Ensures-ok (sorted r) (sorted-IsSorted r)
normalize_destinations-IsSorted _ = Ensures-err _

Fits-cases :
    (mode : NetworkMode) (ds : List String) (t : TaskShellNetworkPolicy)
    → check_mode mode ds ≡ ok t
    → (t.destinations ≡ ds) × Fits t.mode t.destinations
unfolding check_mode
Fits-cases NetworkMode.allowlist (d ∷ ds) t h = ground arith
Fits-cases NetworkMode.deny [] t h = ground arith
Fits-cases NetworkMode.allow [] t h = ground arith
Fits-cases NetworkMode.allowlist [] t h = cc
Fits-cases NetworkMode.deny (_ ∷ _) t h = cc
Fits-cases NetworkMode.allow (_ ∷ _) t h = cc

normalize_destinations_again :
    (ds : List String)
    → IsSorted ds
    → Ensures (λ r. (r ≡ ds) × Distinct [] r) (normalize_destinations (Value.list (text_items ds)))
unfolding normalize_destinations
normalize_destinations_again ds s = Ensures-bind _ _ λ c collected.
    let e = (collect_destinations-eq [] ds).at c collected in
    let kept : sorted c ≡ c = sorted_of_IsSorted c (subst IsSorted (sym e) s) in
    Ensures-ok (sorted c) (
      kept ∙ e,
      subst (Distinct []) (sym kept)
          ((collect_destinations-Distinct [] (text_items ds)).at c collected),
    )

new_task_shell-NetworkIsValid :
    (mode : NetworkMode) (ds : List String)
    → IsSorted ds
    → Ensures NetworkIsValid (new_task_shell mode ds)
unfolding new_task_shell
new_task_shell-NetworkIsValid mode ds s = Ensures-bind _ _ λ r normalized.
    let (same, distinct) = (normalize_destinations_again ds s).at r normalized in
    record {
      at = λ t checked.
          let (e, fits) = Fits-cases mode r t checked in
          record {
            distinct = subst (Distinct []) (sym e) distinct;
            sorted_list = subst IsSorted (sym (e ∙ same)) s;
            fits = fits;
          };
    }

task_shell_from_dict-NetworkIsValid : (v : Value) → Ensures NetworkIsValid (task_shell_from_dict v)
unfolding task_shell_from_dict
task_shell_from_dict-NetworkIsValid v = Ensures-bind _ _ λ _ _. Ensures-bind _ _ λ _ _.
    Ensures-bind _ _ λ mode _. Ensures-bind _ _ λ ds normalized.
      new_task_shell-NetworkIsValid mode ds ((normalize_destinations-IsSorted _).at ds normalized)

pub network_from_dict-NetworkIsValid : (v : Value) → Ensures NetworkIsValid (network_from_dict v)
unfolding network_from_dict one_field
network_from_dict-NetworkIsValid v =
    Ensures-bind _ _ λ _ _. Ensures-bind _ _ λ w _. task_shell_from_dict-NetworkIsValid w

-- n / 2^k is not 0 where 2^k divides n and n is not 0.
