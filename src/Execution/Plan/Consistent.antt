-- ===== src/Execution/Plan/Consistent.antt =====
-- What a plan that passes its checks guarantees about its mounts.
use codex_cursor_devstack.Base.{
  ◌≡◌, ◌⊎◌, inl, inr, Bool-cases, ◌∙◌, refl, sym, ap, String, Bool, true, false, Option, none, some,
  List, [], ◌∷◌, str_eq, eq_iff, eq_refl, ok, >>=-eq-ok, guard-eq-ok, arith,
}
use codex_cursor_devstack.Execution.Mounts.{ExecutionMount, mount_eq, bool_eq}
use codex_cursor_devstack.Execution.Plan.{
  ExecutionPlan, all_have_role, all_mounts, mount_at, agrees, require_targets, check_plan,
}

bool_eq_sound : (a b : Bool) → bool_eq a b ≡ true → a ≡ b
bool_eq_sound true true h = refl
bool_eq_sound true false h = cc
bool_eq_sound false true h = cc
bool_eq_sound false false h = refl

mount_eq_sound : (m n : ExecutionMount) → mount_eq m n ≡ true → m ≡ n
unfolding mount_eq
mount_eq_sound m n h =
    let source : m.source ≡ n.source = ground (arith, eq_iff m.source n.source) in
    let target : m.target ≡ n.target = ground (arith, eq_iff m.target n.target) in
    let role : m.role ≡ n.role = ground (arith, eq_iff m.role n.role) in
    let mode : m.read_only ≡ n.read_only = ground (arith, bool_eq_sound m.read_only n.read_only) in
    λ i. record { source = source i; target = target i; read_only = mode i; role = role i }

agrees_sound :
    (m k : ExecutionMount) (found : Option ExecutionMount)
    → found ≡ some k
    → agrees m found ≡ true
    → k ≡ m
unfolding agrees
agrees_sound m k none e h = cc
agrees_sound m k (some previous) e h =
    let same : previous ≡ k = cc in sym same ∙ mount_eq_sound previous m h

-- `m` is one of the mounts.
abbrev pub IsOneOf : ExecutionMount → List ExecutionMount → Type 0
IsOneOf m [] = ⊥
IsOneOf m (n ∷ ns) = (m ≡ n) ⊎ IsOneOf m ns

mount_at-cons :
    (target : String) (x k : ExecutionMount) (targets : List ExecutionMount)
    → agrees x (mount_at x.target targets) ≡ true
    → mount_at target targets ≡ some k
    → mount_at target (x ∷ targets) ≡ some k
unfolding mount_at
mount_at-cons target x k targets fits found = elim (Bool-cases (str_eq x.target target)) [
  | inl same ↦
      let at_target = (eq_iff x.target target).0 same in
      let known = ap (λ t. mount_at t targets) at_target ∙ found in
      rw same (ap some (sym (agrees_sound x k _ known fits)))
  | inr other ↦ rw other found
]

mount_at-head :
    (x : ExecutionMount) (targets : List ExecutionMount) → mount_at x.target (x ∷ targets) ≡ some x
unfolding mount_at
mount_at-head x targets = rw eq_refl refl

split_targets :
    (targets : List ExecutionMount) (x : ExecutionMount) (ms : List ExecutionMount)
    → require_targets targets (x ∷ ms) ≡ ok tt
    → (agrees x (mount_at x.target targets) ≡ true) × (require_targets (x ∷ targets) ms ≡ ok tt)
unfolding require_targets
split_targets targets x ms h = guard-eq-ok _ _ _ h

-- A mount whose target is taken is the mount that took it.
taken :
    (targets ms : List ExecutionMount) (target : String) (k m : ExecutionMount)
    → require_targets targets ms ≡ ok tt
    → mount_at target targets ≡ some k
    → IsOneOf m ms
    → m.target ≡ target
    → k ≡ m
taken targets [] target k m h found x at_target = elim x [ ]
taken targets (x ∷ ms) target k m h found (inl here) at_target =
    let rest = split_targets targets x ms h in
    let same_target = sym (ap (λ (n : ExecutionMount). n.target) here) ∙ at_target in
    agrees_sound x k _ (ap (λ t. mount_at t targets) same_target ∙ found) rest.0 ∙ sym here
taken targets (x ∷ ms) target k m h found (inr later) at_target =
    let rest = split_targets targets x ms h in
    taken (x ∷ targets) ms target k m rest.1 (mount_at-cons target x k targets rest.0 found) later
      at_target

one_mount :
    (targets ms : List ExecutionMount) (m n : ExecutionMount)
    → require_targets targets ms ≡ ok tt
    → IsOneOf m ms
    → IsOneOf n ms
    → m.target ≡ n.target
    → m ≡ n
one_mount targets [] m n h x _ same = elim x [ ]
one_mount targets (x ∷ ms) m n h (inl here) (inl there) same = here ∙ sym there
one_mount targets (x ∷ ms) m n h (inl here) (inr there) same =
    here
    ∙ taken (x ∷ targets) ms x.target x n (split_targets targets x ms h).1 (mount_at-head x targets)
        there (sym same ∙ ap (λ (k : ExecutionMount). k.target) here)
one_mount targets (x ∷ ms) m n h (inr here) (inl there) same = sym (
    there
    ∙ taken (x ∷ targets) ms x.target x m (split_targets targets x ms h).1 (mount_at-head x targets)
        here (same ∙ ap (λ (k : ExecutionMount). k.target) there))
one_mount targets (x ∷ ms) m n h (inr here) (inr there) same =
    one_mount (x ∷ targets) ms m n (split_targets targets x ms h).1 here there same

-- What a backend may rely on.
pub record IsConsistent (p : ExecutionPlan) : Type 0 where
  pub workspace_mode : p.workspace_mount.read_only ≡ p.readonly
  pub workspace_target : p.workspace_mount.target ≡ "/workspace"
  pub references_read_only :
      (m : ExecutionMount) → IsOneOf m p.reference_mounts → m.read_only ≡ true
  pub metadata_read_only : p.task_metadata_mount.read_only ≡ true
  pub one_per_target :
      (m n : ExecutionMount)
      → IsOneOf m (all_mounts p)
      → IsOneOf n (all_mounts p)
      → m.target ≡ n.target
      → m ≡ n

all_read_only :
    (role : String) (ms : List ExecutionMount) (m : ExecutionMount)
    → all_have_role role true ms ≡ true
    → IsOneOf m ms
    → m.read_only ≡ true
unfolding all_have_role
all_read_only role [] m h x = elim x [ ]
all_read_only role (x ∷ ms) m h (inl here) =
    ap (λ (k : ExecutionMount). k.read_only) here ∙ ground arith
all_read_only role (x ∷ ms) m h (inr later) = all_read_only role ms m (ground arith) later

-- A plan that passes `__post_init__` mounts the workspace at `/workspace` in the plan's mode, its
-- references and task metadata read-only, and at most one mount at each target.
pub check_plan-IsConsistent : (p : ExecutionPlan) → check_plan p ≡ ok tt → IsConsistent p
unfolding check_plan
check_plan-IsConsistent p h =
    let (_, _, image) = >>=-eq-ok _ _ h in
    let (_, _, argv) = >>=-eq-ok _ _ image in
    let (_, _, environment) = >>=-eq-ok _ _ argv in
    let (_, _, role) = >>=-eq-ok _ _ environment in
    let target = (guard-eq-ok _ _ _ role).1 in
    let (at_workspace, mode) = guard-eq-ok _ _ _ target in
    let (same_mode, references) = guard-eq-ok _ _ _ mode in
    let (reference_roles, metadata) = guard-eq-ok _ _ _ references in
    let (metadata_mode, state) = guard-eq-ok _ _ _ metadata in
    let interaction = (guard-eq-ok _ _ _ state).1 in
    let class = (guard-eq-ok _ _ _ interaction).1 in
    let (_, _, capabilities) = >>=-eq-ok _ _ class in
    let (_, _, directory) = >>=-eq-ok _ _ capabilities in
    let (_, _, targets) = >>=-eq-ok _ _ directory in
    record {
      workspace_mode = bool_eq_sound _ _ same_mode;
      workspace_target = (eq_iff p.workspace_mount.target "/workspace").0 at_workspace;
      references_read_only = λ m. all_read_only "reference" p.reference_mounts m reference_roles;
      metadata_read_only = ground arith;
      one_per_target = λ m n. one_mount [] (all_mounts p) m n targets;
    }
