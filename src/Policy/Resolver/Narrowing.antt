-- ===== src/Policy/Resolver/Narrowing.antt =====
-- When the checks of `_validate_narrowing` pass.
use codex_cursor_devstack.Base.{
  ℕ, ◌≤◌, ◌≡◌, ◌↔◌, refl, String, Bool, true, false, ◌==◌, subset, Error, Result, ok, err, ◌>>=◌,
  ◌>>◌, guard, arith,
}
use codex_cursor_devstack.Policy.Choices.{
  Choice, workspace_choice, reference_choice, external_choice, mode_choice, visibility_choice,
  security_choice,
}
use codex_cursor_devstack.Policy.Checks.{Cpu}
use codex_cursor_devstack.Policy.Schema.{TaskShellNetworkPolicy, ExecutionPolicy}
use codex_cursor_devstack.Policy.Resolver.{
  require_rank_not_wider, require_permission_not_wider, require_requirement_not_weaker,
  require_limit_not_wider, require_cpu_not_wider, require_destinations_not_wider, cpu_gt,
  both_allowlist, validate_network_narrowing, validate_narrowing,
}

-- Each field of `lower` against that of `upper`, in the orders of the resolver.
pub record IsNarrower (upper lower : ExecutionPolicy) : Type 0 where
  pub version : lower.version ≡ upper.version
  pub workspace : workspace_choice.rank lower.workspace ≤ workspace_choice.rank upper.workspace
  pub reference : reference_choice.rank lower.reference ≤ reference_choice.rank upper.reference
  pub filesystem : external_choice.rank lower.filesystem ≤ external_choice.rank upper.filesystem
  pub mode : mode_choice.rank lower.network.mode ≤ mode_choice.rank upper.network.mode
  pub destinations :
      both_allowlist upper.network.mode lower.network.mode ≡ true
      → subset lower.network.destinations upper.network.destinations ≡ true
  pub credentials :
      visibility_choice.rank lower.credentials ≤ visibility_choice.rank upper.credentials
  pub git_read : lower.git.read ≡ true → upper.git.read ≡ true
  pub git_commit : lower.git.commit ≡ true → upper.git.commit ≡ true
  pub git_push : lower.git.push ≡ true → upper.git.push ≡ true
  pub sandbox : upper.sandbox ≡ true → lower.sandbox ≡ true
  pub cpu : cpu_gt lower.resources.cpu upper.resources.cpu ≡ false
  pub memory : lower.resources.memory_bytes ≤ upper.resources.memory_bytes
  pub pids : lower.resources.pids ≤ upper.resources.pids
  pub security_class :
      security_choice.rank upper.security_class ≤ security_choice.rank lower.security_class

module _ (layer field : String) where
  rank_passes :
      {A : Type 0} ⦃c : Choice A⦄ (upper lower : A)
      → (require_rank_not_wider layer field upper lower ≡ ok tt) ↔ (c.rank lower ≤ c.rank upper)
  unfolding require_rank_not_wider
  rank_passes upper lower = ground arith

  permission_passes :
      (upper lower : Bool)
      → (require_permission_not_wider layer field upper lower ≡ ok tt)
        ↔ (lower ≡ true → upper ≡ true)
  unfolding require_permission_not_wider
  permission_passes upper lower = ground arith

  requirement_passes :
      (upper lower : Bool)
      → (require_requirement_not_weaker layer field upper lower ≡ ok tt)
        ↔ (upper ≡ true → lower ≡ true)
  unfolding require_requirement_not_weaker
  requirement_passes upper lower = ground arith

  limit_passes :
      (upper lower : ℕ)
      → (require_limit_not_wider layer field upper lower ≡ ok tt) ↔ (lower ≤ upper)
  unfolding require_limit_not_wider
  limit_passes upper lower = ground arith

module _ (layer : String) where
  cpu_passes :
      (upper lower : Cpu)
      → (require_cpu_not_wider layer upper lower ≡ ok tt) ↔ (cpu_gt lower upper ≡ false)
  unfolding require_cpu_not_wider
  cpu_passes upper lower = ground arith

  destinations_pass :
      (upper lower : TaskShellNetworkPolicy)
      → (require_destinations_not_wider layer upper lower ≡ ok tt) ↔ (
          both_allowlist upper.mode lower.mode ≡ true
          → subset lower.destinations upper.destinations ≡ true)
  unfolding require_destinations_not_wider
  destinations_pass upper lower = ground arith

-- A sequence of checks passes when both parts do.
sequence_passes : (m k : Result (Unit {0})) → ((m >> k) ≡ ok tt) ↔ ((m ≡ ok tt) × (k ≡ ok tt))
unfolding ◌>>=◌
sequence_passes (ok u) k = (λ h. (refl, h), λ h. h.1)
sequence_passes (err e) k = (λ h. cc, λ h. cc (h.0))

and_then : (m k : Result (Unit {0})) → m ≡ ok tt → k ≡ ok tt → (m >> k) ≡ ok tt
and_then m k h j = (sequence_passes m k).1 (h, j)

guard_passes : (b : Bool) (e : Error) → (guard b e ≡ ok tt) ↔ (b ≡ true)
guard_passes true e = (λ h. refl, λ h. refl)
guard_passes false e = (λ h. cc, λ h. cc)

network_passes :
    (layer : String) (upper lower : ExecutionPolicy)
    → (validate_network_narrowing layer upper lower ≡ ok tt) ↔ (
        (mode_choice.rank lower.network.mode ≤ mode_choice.rank upper.network.mode)
        × (both_allowlist upper.network.mode lower.network.mode ≡ true
            → subset lower.network.destinations upper.network.destinations ≡ true))
unfolding validate_network_narrowing
network_passes layer upper lower = (
  λ h.
      let (m, d) = (sequence_passes _ _).0 h in
      (
        (rank_passes layer _ upper.network.mode lower.network.mode).0 m,
        (destinations_pass layer upper.network lower.network).0 d,
      ),
  λ (m, d). (sequence_passes _ _).1 (
    (rank_passes layer _ upper.network.mode lower.network.mode).1 m,
    (destinations_pass layer upper.network lower.network).1 d,
  ),
)

module _ (layer : String) (upper lower : ExecutionPolicy) where
  IsNarrower-of_ok : validate_narrowing layer upper lower ≡ ok tt → IsNarrower upper lower
  unfolding validate_narrowing
  IsNarrower-of_ok h0 =
      let (v, h1) = (sequence_passes _ _).0 h0 in
      let (w, h2) = (sequence_passes _ _).0 h1 in
      let (r, h3) = (sequence_passes _ _).0 h2 in
      let (f, h4) = (sequence_passes _ _).0 h3 in
      let (n, h5) = (sequence_passes _ _).0 h4 in
      let (c, h6) = (sequence_passes _ _).0 h5 in
      let (gr, h7) = (sequence_passes _ _).0 h6 in
      let (gc, h8) = (sequence_passes _ _).0 h7 in
      let (gp, h9) = (sequence_passes _ _).0 h8 in
      let (s, h10) = (sequence_passes _ _).0 h9 in
      let (u, h11) = (sequence_passes _ _).0 h10 in
      let (m, h12) = (sequence_passes _ _).0 h11 in
      let (p, k) = (sequence_passes _ _).0 h12 in
      let network = (network_passes layer upper lower).0 n in
      let same : (lower.version == upper.version) ≡ true = (guard_passes _ _).0 v in
      record {
        version = ground (arith, same);
        workspace = (rank_passes layer _ upper.workspace lower.workspace).0 w;
        reference = (rank_passes layer _ upper.reference lower.reference).0 r;
        filesystem = (rank_passes layer _ upper.filesystem lower.filesystem).0 f;
        mode = network.0;
        destinations = network.1;
        credentials = (rank_passes layer _ upper.credentials lower.credentials).0 c;
        git_read = (permission_passes layer _ upper.git.read lower.git.read).0 gr;
        git_commit = (permission_passes layer _ upper.git.commit lower.git.commit).0 gc;
        git_push = (permission_passes layer _ upper.git.push lower.git.push).0 gp;
        sandbox = (requirement_passes layer _ upper.sandbox lower.sandbox).0 s;
        cpu = (cpu_passes layer upper.resources.cpu lower.resources.cpu).0 u;
        memory =
            (limit_passes layer _ upper.resources.memory_bytes lower.resources.memory_bytes).0 m;
        pids = (limit_passes layer _ upper.resources.pids lower.resources.pids).0 p;
        security_class = (rank_passes layer _ lower.security_class upper.security_class).0 k;
      }

  ok_of_narrower : IsNarrower upper lower → validate_narrowing layer upper lower ≡ ok tt
  unfolding validate_narrowing
  ok_of_narrower n =
      let same : (lower.version == upper.version) ≡ true = ground (arith, n.version) in
      and_then _ _ ((guard_passes _ _).1 same) (
        and_then _ _ ((rank_passes layer _ upper.workspace lower.workspace).1 n.workspace) (
          and_then _ _ ((rank_passes layer _ upper.reference lower.reference).1 n.reference) (
            and_then _ _ ((rank_passes layer _ upper.filesystem lower.filesystem).1 n.filesystem) (
              and_then _ _ ((network_passes layer upper lower).1 (n.mode, n.destinations)) (
                and_then _ _
                  ((rank_passes layer _ upper.credentials lower.credentials).1 n.credentials)
                  (and_then _ _
                    ((permission_passes layer _ upper.git.read lower.git.read).1 n.git_read)
                    (and_then _ _
                      ((permission_passes layer _ upper.git.commit lower.git.commit).1 n.git_commit)
                      (and_then _ _
                        ((permission_passes layer _ upper.git.push lower.git.push).1 n.git_push)
                        (and_then _ _
                          ((requirement_passes layer _ upper.sandbox lower.sandbox).1 n.sandbox)
                          (and_then _ _
                            ((cpu_passes layer upper.resources.cpu lower.resources.cpu).1 n.cpu)
                            (and_then _ _
                              ((limit_passes layer _ upper.resources.memory_bytes
                                  lower.resources.memory_bytes).1
                                n.memory)
                              (and_then _ _
                                ((limit_passes layer _ upper.resources.pids lower.resources.pids).1
                                  n.pids)
                                ((rank_passes layer _ lower.security_class upper.security_class).1
                                  n.security_class)))))))))))))

-- The checks pass exactly when every field is at most as wide.
pub validate_narrowing_passes :
    (layer : String) (upper lower : ExecutionPolicy)
    → (validate_narrowing layer upper lower ≡ ok tt) ↔ IsNarrower upper lower
validate_narrowing_passes layer upper lower =
    (IsNarrower-of_ok layer upper lower, ok_of_narrower layer upper lower)
