-- ===== src/Policy/Resolver/Rights.antt =====
-- What a policy permits, and that no layer permits more than the policy above it.
use native.Mathlib.Nat.{le_of_mul-le-mul_right, mul-le-mul_right, one-le-pow}
use codex_cursor_devstack.Base.{
  ℕ, ◌*◌, ◌^◌, ◌≤◌, ◌<◌, ◌≡◌, ◌↔◌, sym, ◌∙◌, String, Bool, true, false, not, List, [], ◌∷◌, leb,
  contains, contains_head, subset, subset_sound, subset_complete, ok, arith,
}
use codex_cursor_devstack.Policy.Choices.{
  WorkspaceAccess, ReferenceAccess, ExternalAccess, NetworkMode, Visibility, SecurityClass,
  workspace_choice, reference_choice, external_choice, mode_choice, visibility_choice,
  security_choice,
}
use codex_cursor_devstack.Policy.Checks.{Cpu}
use codex_cursor_devstack.Policy.Schema.{ExecutionPolicy, IsValid, Fits}
use codex_cursor_devstack.Policy.Resolver.{
  cpu_gt, numerator, exponent, both_allowlist, validate_narrowing,
}
use codex_cursor_devstack.Policy.Resolver.Narrowing.{IsNarrower, validate_narrowing_passes}

-- One thing that a run may do under a policy.
pub data Right : Type 0 where
  read_workspace write_workspace read_reference read_external write_external : Right
  -- the task shell reaches one destination, or any
  reach : String → Right
  reach_all : Right
  see_credentials git_read git_commit git_push : Right
  run_unsandboxed run_unhardened : Right
  use_cpu : Cpu → Right
  use_memory use_pids : ℕ → Right

unfoldable pub reaches : NetworkMode → List String → String → Bool
reaches NetworkMode.deny ds s = false
reaches NetworkMode.allowlist ds s = contains ds s
reaches NetworkMode.allow ds s = true

abbrev pub reaches_all : NetworkMode → Bool
reaches_all NetworkMode.allow = true
reaches_all _ = false

unfoldable pub grants : ExecutionPolicy → Right → Bool
unfolding reaches
grants p read_workspace = elim p.workspace [ WorkspaceAccess.no_access ↦ false | _ ↦ true ]
grants p write_workspace = elim p.workspace [ WorkspaceAccess.write ↦ true | _ ↦ false ]
grants p read_reference = elim p.reference [ ReferenceAccess.read ↦ true | _ ↦ false ]
grants p read_external = elim p.filesystem [ ExternalAccess.deny ↦ false | _ ↦ true ]
grants p write_external = elim p.filesystem [ ExternalAccess.write ↦ true | _ ↦ false ]
grants p (reach s) = reaches p.network.mode p.network.destinations s
grants p reach_all = reaches_all p.network.mode
grants p see_credentials = elim p.credentials [ Visibility.allow ↦ true | _ ↦ false ]
grants p git_read = p.git.read
grants p git_commit = p.git.commit
grants p git_push = p.git.push
grants p run_unsandboxed = not p.sandbox
grants p run_unhardened = elim p.security_class [ SecurityClass.compatibility ↦ true | _ ↦ false ]
grants p (use_cpu c) = not (cpu_gt c p.resources.cpu)
grants p (use_memory n) = leb n p.resources.memory_bytes
grants p (use_pids n) = leb n p.resources.pids

-- Every right under `lower` is one under `upper`.
pub record IsWithin (upper lower : ExecutionPolicy) : Type 0 where
  pub within : (r : Right) → grants lower r ≡ true → grants upper r ≡ true

cross_le :
    (an bn cn pa pb pc : ℕ) → 0 < pb → an * pb ≤ bn * pa → bn * pc ≤ cn * pb → an * pc ≤ cn * pa
cross_le an bn cn pa pb pc p h k =
    le_of_mul-le-mul_right {k = pb} (omega (arith, mul-le-mul_right pc h, mul-le-mul_right pa k)) p

cpu_gt_trans : (a b c : Cpu) → cpu_gt a b ≡ false → cpu_gt b c ≡ false → cpu_gt a c ≡ false
unfolding cpu_gt
cpu_gt_trans a b c h k = ground (
  arith,
  cross_le (numerator a) (numerator b) (numerator c) (2 ^ exponent a) (2 ^ exponent b)
      (2 ^ exponent c) (one-le-pow (exponent b) 2 (omega arith)),
)

cpu_gt_irrefl : (a : Cpu) → cpu_gt a a ≡ false
unfolding cpu_gt
cpu_gt_irrefl a = ground arith

module _ (upper lower : ExecutionPolicy) (n : IsNarrower upper lower) where
  within_of_narrower : (r : Right) → grants lower r ≡ true → grants upper r ≡ true
  unfolding grants
  within_of_narrower read_workspace h = ground (arith, n.workspace)
  within_of_narrower write_workspace h = ground (arith, n.workspace)
  within_of_narrower read_reference h = ground (arith, n.reference)
  within_of_narrower read_external h = ground (arith, n.filesystem)
  within_of_narrower write_external h = ground (arith, n.filesystem)
  within_of_narrower (reach s) h = ground (
    arith,
    n.mode,
    n.destinations,
    subset_sound lower.network.destinations upper.network.destinations s,
  )
  within_of_narrower reach_all h = ground (arith, n.mode)
  within_of_narrower see_credentials h = ground (arith, n.credentials)
  within_of_narrower git_read h = n.git_read h
  within_of_narrower git_commit h = n.git_commit h
  within_of_narrower git_push h = n.git_push h
  within_of_narrower run_unsandboxed h = ground (arith, n.sandbox)
  within_of_narrower run_unhardened h = ground (arith, n.security_class)
  within_of_narrower (use_cpu c) h =
      ground (arith, n.cpu, cpu_gt_trans c lower.resources.cpu upper.resources.cpu)
  within_of_narrower (use_memory m) h = ground (arith, n.memory)
  within_of_narrower (use_pids m) h = ground (arith, n.pids)

mode_le :
    (um lm : NetworkMode) (us ls : List String)
    → Fits um us
    → Fits lm ls
    → ((s : String) → reaches lm ls s ≡ true → reaches um us s ≡ true)
    → (reaches_all lm ≡ true → reaches_all um ≡ true)
    → mode_choice.rank lm ≤ mode_choice.rank um
unfolding reaches
mode_le NetworkMode.allow lm us ls f g reached everything = ground arith
mode_le um NetworkMode.deny us ls f g reached everything = ground arith
mode_le NetworkMode.allowlist NetworkMode.allowlist us ls f g reached everything = omega arith
mode_le um NetworkMode.allow us ls f g reached everything = ground arith
mode_le NetworkMode.deny NetworkMode.allowlist us [] f g reached everything = cc
mode_le NetworkMode.deny NetworkMode.allowlist us (d ∷ ls) f g reached everything =
    cc (reached d (contains_head d ls))

module _ (upper lower : ExecutionPolicy) (u : IsValid upper) (l : IsValid lower)
    (w : IsWithin upper lower) where
  destinations_of_within :
      both_allowlist upper.network.mode lower.network.mode ≡ true
      → subset lower.network.destinations upper.network.destinations ≡ true
  unfolding grants
  destinations_of_within both = subset_complete _ _ (λ s m. ground (arith, w.within (reach s)))

  mode_of_within : mode_choice.rank lower.network.mode ≤ mode_choice.rank upper.network.mode
  unfolding grants
  mode_of_within =
      mode_le upper.network.mode lower.network.mode upper.network.destinations
        lower.network.destinations u.network_valid.fits l.network_valid.fits
        (λ s. w.within (reach s)) (w.within reach_all)

  IsNarrower-of_within : IsNarrower upper lower
  unfolding grants
  IsNarrower-of_within = record {
    version = l.version_one ∙ sym u.version_one;
    workspace = ground (arith, w.within read_workspace, w.within write_workspace);
    reference = ground (arith, w.within read_reference);
    filesystem = ground (arith, w.within read_external, w.within write_external);
    mode = mode_of_within;
    destinations = destinations_of_within;
    credentials = ground (arith, w.within see_credentials);
    git_read = w.within git_read;
    git_commit = w.within git_commit;
    git_push = w.within git_push;
    sandbox = ground (arith, w.within run_unsandboxed);
    cpu = ground (arith, w.within (use_cpu lower.resources.cpu), cpu_gt_irrefl lower.resources.cpu);
    memory = ground (arith, w.within (use_memory lower.resources.memory_bytes));
    pids = ground (arith, w.within (use_pids lower.resources.pids));
    security_class = ground (arith, w.within run_unhardened);
  }

-- Between valid policies, the checks of the resolver pass exactly when the lower policy grants no
-- right that the upper one withholds.
pub validate_narrowing-IsWithin :
    (layer : String) (upper lower : ExecutionPolicy)
    → IsValid upper
    → IsValid lower
    → (validate_narrowing layer upper lower ≡ ok tt) ↔ IsWithin upper lower
validate_narrowing-IsWithin layer upper lower u l = (
  λ h. record {
    within = within_of_narrower upper lower ((validate_narrowing_passes layer upper lower).0 h);
  },
  λ w. (validate_narrowing_passes layer upper lower).1 (IsNarrower-of_within upper lower u l w),
)

pub validate_narrowing_sound :
    (layer : String) (upper lower : ExecutionPolicy)
    → validate_narrowing layer upper lower ≡ ok tt
    → IsWithin upper lower
validate_narrowing_sound layer upper lower h = record {
  within = within_of_narrower upper lower ((validate_narrowing_passes layer upper lower).0 h);
}
