-- ===== src/Policy/Resolver/Layers.antt =====
-- `PolicyResolver.resolve` as a whole: validity, rights and layers that change nothing.
use mathlib.Core.Path.{subst}
use codex_cursor_devstack.Base.{
  ℕ, ◌≡◌, ◌↔◌, refl, String, true, Option, none, some, List, Result, ok, err, value_error,
  type_error, key_error, input_error, conflict, missing_capabilities, failure, escalation, ◌>>=◌,
  ◌>>◌, >>=-eq-ok, sym, ap, ◌∙◌, Ensures, Ensures-ok, Ensures-err, Ensures-bind,
}
use codex_cursor_devstack.Base.Value.{Value, Fields, names_only}
use codex_cursor_devstack.Policy.Choices.{NetworkMode}
use codex_cursor_devstack.Policy.Checks.{Cpu}
use codex_cursor_devstack.Policy.Schema.{
  task_shell_as_dict, git_as_dict, resources_as_dict, cpu_value, ExecutionPolicy, IsValid,
  from_dict, from_dict-Ensures, as_dict, policy_dict, from_dict-as_dict,
}
use codex_cursor_devstack.Policy.Resolver.{
  require_restrictions, merge_fields, merge_restrictions, in_layer, candidate_from_layer,
  validate_narrowing, apply_layer, resolve,
}
use codex_cursor_devstack.Policy.Resolver.Rights.{
  IsWithin, validate_narrowing_sound, validate_narrowing-IsWithin,
}

IsWithin-refl : (p : ExecutionPolicy) → IsWithin p p
IsWithin-refl p = record { within = λ r h. h }

IsWithin-trans : {p q r : ExecutionPolicy} → IsWithin p q → IsWithin q r → IsWithin p r
IsWithin-trans a b = record { within = λ r h. a.within r (b.within r h) }

in_layer-ok :
    (layer : String) (r : Result ExecutionPolicy) {P : ExecutionPolicy → Type 0}
    → Ensures P r
    → Ensures P (in_layer layer r)
unfolding in_layer
in_layer-ok layer (ok p) h = h
in_layer-ok layer (err (value_error m)) h = Ensures-err _
in_layer-ok layer (err (type_error m)) h = Ensures-err _
in_layer-ok layer (err (key_error m)) h = Ensures-err _
in_layer-ok layer (err (input_error m)) h = Ensures-err _
in_layer-ok layer (err (escalation l f)) h = Ensures-err _
in_layer-ok layer (err (conflict m)) h = Ensures-err _
in_layer-ok layer (err (missing_capabilities m)) h = Ensures-err _
in_layer-ok layer (err (failure m)) h = Ensures-err _

candidate_from_layer-IsValid :
    (p : ExecutionPolicy) (restrictions : Fields) (layer : String)
    → Ensures IsValid (candidate_from_layer p restrictions layer)
unfolding candidate_from_layer
candidate_from_layer-IsValid p restrictions layer =
    Ensures-bind _ _ λ merged _. in_layer-ok layer _ (from_dict-Ensures (Value.object merged))

-- A layer yields a valid policy within the one above it.
abbrev pub Narrows : ExecutionPolicy → ExecutionPolicy → Type 0
Narrows p q = (IsValid p → IsValid q) × IsWithin p q

pub apply_layer-Narrows :
    (p : ExecutionPolicy) (layer : String) (value : Option Value)
    → Ensures (Narrows p) (apply_layer p layer value)
unfolding apply_layer
apply_layer-Narrows p layer none = Ensures-ok p (λ v. v, IsWithin-refl p)
apply_layer-Narrows p layer (some value) = Ensures-bind _ _ λ restrictions _.
    Ensures-bind _ _ λ candidate made. Ensures-bind _ _ λ _ narrowed. Ensures-ok candidate (
      λ _. (candidate_from_layer-IsValid p restrictions layer).at candidate made,
      validate_narrowing_sound layer p candidate narrowed,
    )

resolve-Narrows :
    (p : ExecutionPolicy) (project profile run : Option Value)
    → Ensures (Narrows p) (resolve p project profile run)
unfolding resolve
resolve-Narrows p project profile run = Ensures-bind _ _ λ q hq. Ensures-bind _ _ λ r hr. record {
  at = λ s hs.
      let a = (apply_layer-Narrows p _ project).at q hq in
      let b = (apply_layer-Narrows q _ profile).at r hr in
      let c = (apply_layer-Narrows r _ run).at s hs in
      (λ v. c.0 (b.0 (a.0 v)), IsWithin-trans a.1 (IsWithin-trans b.1 c.1));
}

-- A resolved policy grants no right that the platform baseline withholds, whatever the layers say.
pub resolve-IsWithin :
    (baseline : ExecutionPolicy) (project profile run : Option Value) {q : ExecutionPolicy}
    → resolve baseline project profile run ≡ ok q
    → IsWithin baseline q
resolve-IsWithin baseline project profile run {q} h =
    ((resolve-Narrows baseline project profile run).at q h).1

-- A policy resolved from a valid baseline is valid.
pub resolve-IsValid :
    (baseline : ExecutionPolicy) (project profile run : Option Value) {q : ExecutionPolicy}
    → IsValid baseline
    → resolve baseline project profile run ≡ ok q
    → IsValid q
resolve-IsValid baseline project profile run {q} v h =
    ((resolve-Narrows baseline project profile run).at q h).0 v

from_policy_dict :
    (p : ExecutionPolicy) → IsValid p → from_dict (Value.object (policy_dict p)) ≡ ok p
unfolding as_dict
from_policy_dict p v = from_dict-as_dict p v

-- The end of `apply_layer`, once a candidate is decoded.
accept :
    (layer : String) (p q : ExecutionPolicy)
    → IsValid p
    → IsValid q
    → IsWithin p q
    → (in_layer layer (ok q) >>= λ c. validate_narrowing layer p c >> ok c) ≡ ok q
unfolding in_layer ◌>>=◌
accept layer p q v w h = rw ((validate_narrowing-IsWithin layer p q v w).1 h)

accepted :
    (layer : String) (p r q : ExecutionPolicy)
    → IsValid p
    → IsValid r
    → (in_layer layer (ok r) >>= λ c. validate_narrowing layer p c >> ok c) ≡ ok q
    → (q ≡ r) × IsWithin p r
accepted layer p r q v w h =
    let (c, made, h1) = >>=-eq-ok _ _ h in
    let (u, passed, h2) = >>=-eq-ok _ _ h1 in
    let e : c ≡ r = unfold in_layer in cc in
    (
      cc,
      subst (IsWithin p) e
          ((validate_narrowing-IsWithin layer p c v (subst IsValid (sym e) w)).0 passed),
    )

-- A layer whose merge is the dict of a valid policy yields that policy or nothing.
pub apply_layer_lem :
    (p r q : ExecutionPolicy) (layer : String) (fields : Fields)
    → names_only fields ≡ true
    → merge_restrictions (policy_dict p) fields layer ≡ ok (policy_dict r)
    → IsValid p
    → IsValid r
    → (apply_layer p layer (some (Value.object fields)) ≡ ok q) ↔ ((q ≡ r) × IsWithin p r)
unfolding apply_layer require_restrictions candidate_from_layer ◌>>=◌
apply_layer_lem p r q layer fields names merged v w =
    let reduced : apply_layer p layer (some (Value.object fields))
        ≡ (in_layer layer (ok r) >>= λ c. validate_narrowing layer p c >> ok c) =
      rw names (rw merged (rw (from_policy_dict r w))) in
    (
      λ h. accepted layer p r q v w (sym reduced ∙ h),
      λ (e, h). reduced ∙ accept layer p r v w h ∙ ap ok (sym e),
    )

-- An empty layer leaves a valid policy as it is.
pub apply_layer-end :
    (p : ExecutionPolicy) (layer : String)
    → IsValid p
    → apply_layer p layer (some (Value.object Fields.end)) ≡ ok p
unfolding apply_layer require_restrictions candidate_from_layer merge_restrictions ◌>>=◌
apply_layer-end p layer v = rw (from_policy_dict p v) (accept layer p p v v (IsWithin-refl p))

merge_full_at :
    (p q : ExecutionPolicy) (layer : String) (m : NetworkMode) (ds : List String) (c : Cpu)
    (memory pids : ℕ)
    → let r : ExecutionPolicy = record q {
      network = record { mode = m; destinations = ds };
      resources = record { cpu = c; memory_bytes = memory; pids = pids };
    } in
      merge_restrictions (policy_dict p) (policy_dict r) layer ≡ ok (policy_dict r)
unfolding merge_restrictions merge_fields policy_dict task_shell_as_dict git_as_dict
    resources_as_dict cpu_value ◌>>=◌
merge_full_at p q layer NetworkMode.deny ds (Cpu.whole n) memory pids = refl
merge_full_at p q layer NetworkMode.deny ds (Cpu.fraction n k) memory pids = refl
merge_full_at p q layer NetworkMode.allowlist ds (Cpu.whole n) memory pids = refl
merge_full_at p q layer NetworkMode.allowlist ds (Cpu.fraction n k) memory pids = refl
merge_full_at p q layer NetworkMode.allow ds (Cpu.whole n) memory pids = refl
merge_full_at p q layer NetworkMode.allow ds (Cpu.fraction n k) memory pids = refl

merge_full :
    (p q : ExecutionPolicy) (layer : String)
    → merge_restrictions (policy_dict p) (policy_dict q) layer ≡ ok (policy_dict q)
merge_full p q layer =
    merge_full_at p q layer q.network.mode q.network.destinations q.resources.cpu
      q.resources.memory_bytes q.resources.pids

names_only-policy_dict : (q : ExecutionPolicy) → names_only (policy_dict q) ≡ true
unfolding names_only policy_dict
names_only-policy_dict q = refl

-- Over a valid policy, a layer that states a whole valid policy is accepted exactly when that policy grants no right
-- that the policy above it withholds, and then it is the result.
pub apply_layer-as_dict :
    (p q : ExecutionPolicy) (layer : String)
    → IsValid p
    → IsValid q
    → (apply_layer p layer (some (as_dict q)) ≡ ok q) ↔ IsWithin p q
unfolding apply_layer require_restrictions candidate_from_layer as_dict ◌>>=◌
apply_layer-as_dict p q layer v w = (
  λ h. ((apply_layer-Narrows p layer (some (as_dict q))).at q h).1,
  λ h.
      rw (names_only-policy_dict q)
        (rw (merge_full p q layer) (rw (from_policy_dict q w) (accept layer p q v w h))),
)
