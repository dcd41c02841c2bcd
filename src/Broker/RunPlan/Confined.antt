-- ===== src/Broker/RunPlan/Confined.antt =====
-- What a plan of a run allows, broker/daemon.py.
use mathlib.Core.Path.{subst}
use codex_cursor_devstack.Base.{
  ◌≡◌, refl, ap, ◌∙◌, ◌⊎◌, inl, inr, String, Bool, true, false, Option, none, some, List, [], ◌∷◌,
  ◌++◌, ok, Ensures, Ensures-ok, Ensures-bind, ok-injective, >>=-eq-ok,
}
use codex_cursor_devstack.Core.Paths.{
  FilePath, FileSystem, child, IsContained, canonical_dir-IsContained, canonical_file-IsContained,
}
use codex_cursor_devstack.Core.Models.{TaskContext}
use codex_cursor_devstack.Core.Host.{Host, State, gets, ◌>>=◌ as ◌>=>◌}
use codex_cursor_devstack.Core.Host.Effects.{Returns, Returns-bind, Returns-lift, Returns-last}
use codex_cursor_devstack.Core.Tasks.{file_system}
use codex_cursor_devstack.Core.Worktrees.{path_text}
use codex_cursor_devstack.Core.Handoff.{Disk}
use codex_cursor_devstack.Execution.Mounts.{ExecutionMount}
use codex_cursor_devstack.Execution.Plan.{ExecutionPlan, all_mounts, check_plan}
use codex_cursor_devstack.Execution.Plan.Consistent.{IsOneOf, IsConsistent, check_plan-IsConsistent}
use codex_cursor_devstack.Agents.Specs.{RunSpec}
use codex_cursor_devstack.Agents.Registry.{AgentRegistry}
use codex_cursor_devstack.Broker.RunPlan.Parts.{
  BrokerConfig, Driver, new_mount, git_mounts, new_plan,
}
use codex_cursor_devstack.Broker.RunPlan.{PolicyStore, plan_from, create_run_execution_plan}

AllIn : Bool → List ExecutionMount → Type 0
AllIn mode ms = (m : ExecutionMount) → IsOneOf m ms → m.read_only ≡ mode

IsOneOf-append :
    (m : ExecutionMount) (xs ys : List ExecutionMount)
    → IsOneOf m (xs ++ ys)
    → IsOneOf m xs ⊎ IsOneOf m ys
IsOneOf-append m [] ys h = inr h
IsOneOf-append m (x ∷ xs) ys (inl here) = inl (inl here)
IsOneOf-append m (x ∷ xs) ys (inr later) = elim (IsOneOf-append m xs ys later) [
  | inl a ↦ inl (inr a)
  | inr b ↦ inr b
]

new_mount-mode :
    (source target : String) (mode : Bool) (role : String)
    → Ensures (λ m. m.read_only ≡ mode) (new_mount source target mode role)
unfolding new_mount
new_mount-mode source target mode role = Ensures-bind _ _ λ _ _. Ensures-ok _ refl

module _ (files : FileSystem) (projects workspace : FilePath) (readonly : Bool) where
  pair-AllIn :
      (m n : ExecutionMount)
      → m.read_only ≡ readonly
      → n.read_only ≡ readonly
      → AllIn readonly (m ∷ n ∷ [])
  unfolding AllIn
  pair-AllIn m n h k x (inl here) = ap (λ (y : ExecutionMount). y.read_only) here ∙ h
  pair-AllIn m n h k x (inr (inl here)) = ap (λ (y : ExecutionMount). y.read_only) here ∙ k
  pair-AllIn m n h k x (inr (inr x3)) = elim x3 [ ]

  git_mounts-AllIn :
      (git_common : Option FilePath)
      → Ensures (AllIn readonly) (git_mounts files projects workspace readonly git_common)
  unfolding git_mounts AllIn
  git_mounts-AllIn none = Ensures-ok [] λ m h. elim h [ ]
  git_mounts-AllIn (some git_common) = Ensures-bind _ _ λ common _. Ensures-bind _ _ λ tree t.
      Ensures-bind _ _ λ dir d. Ensures-ok _ (
        pair-AllIn tree dir ((new_mount-mode _ _ readonly _).at tree t)
          ((new_mount-mode _ _ readonly _).at dir d))

new_plan-eq-ok : (q p : ExecutionPlan) → new_plan q ≡ ok p → (q ≡ p) × (check_plan q ≡ ok tt)
unfolding new_plan
new_plan-eq-ok q p h =
    let (_, _, metadata) = >>=-eq-ok _ _ h in
    let (_, _, artifacts) = >>=-eq-ok _ _ metadata in
    let (_, _, limits) = >>=-eq-ok _ _ artifacts in
    let (_, _, network) = >>=-eq-ok _ _ limits in
    let (_, _, plan) = >>=-eq-ok _ _ network in
    let (_, checked, same) = >>=-eq-ok _ _ plan in (ok-injective q p same, checked)

-- A read-only plan gives write access to the state and the policy of the provider at most.
pub IsReadOnly : ExecutionPlan → Type 0
IsReadOnly p =
    (m : ExecutionMount)
    → IsOneOf m (all_mounts p)
    → m.read_only ≡ false
    → IsOneOf m p.provider_state_mounts ⊎ IsOneOf m p.provider_policy_artifacts.mounts

module _ (p : ExecutionPlan) (readonly : p.readonly ≡ true) (consistent : IsConsistent p)
    (auxiliary : AllIn true p.auxiliary_mounts) where
  not_both : (m : ExecutionMount) → m.read_only ≡ true → m.read_only ≡ false → ⊥
  not_both m h k = cc

  plan-IsReadOnly : IsReadOnly p
  unfolding IsReadOnly all_mounts AllIn
  plan-IsReadOnly m (inl here) w =
      elim (not_both m
        (ap (λ (y : ExecutionMount). y.read_only) here ∙ consistent.workspace_mode ∙ readonly)
        w) [ ]
  plan-IsReadOnly m (inr later) w = elim (IsOneOf-append m p.reference_mounts _ later) [
    | inl reference ↦ elim (not_both m (consistent.references_read_only m reference) w) [ ]
    | inr (inl here) ↦
        elim (not_both m
          (ap (λ (y : ExecutionMount). y.read_only) here ∙ consistent.metadata_read_only) w) [ ]
    | inr (inr rest) ↦ elim (IsOneOf-append m p.provider_state_mounts _ rest) [
      | inl state ↦ inl state
      | inr others ↦ elim (IsOneOf-append m p.provider_policy_artifacts.mounts _ others) [
        | inl policy ↦ inr policy
        | inr aux ↦ elim (not_both m (auxiliary m aux) w) [ ]
      ]
    ]
  ]

-- A plan `p` for a run in `context` of what `run_spec` says, where `files` are the files.
pub record IsRunPlan (files : FileSystem) (cfg : BrokerConfig) (context : TaskContext)
    (run_spec : RunSpec) (readonly : Bool) (p : ExecutionPlan) : Type 0 where
  pub consistent : IsConsistent p
  pub mode : p.workspace_mount.read_only ≡ readonly
  pub workspace : FilePath
  pub mounted : p.workspace_mount.source ≡ path_text workspace
  pub contained : IsContained files context.workspace (child cfg.root "projects") workspace
  pub metadata : FilePath
  pub metadata_mounted : p.task_metadata_mount.source ≡ path_text metadata
  pub metadata_contained :
      IsContained files context.metadata_path (child cfg.root "projects") metadata
  pub confined : readonly ≡ true → IsReadOnly p
  pub command : p.argv ≡ run_spec.argv
  pub isolation : p.runtime_isolation ≡ run_spec.runtime_isolation
  pub network : p.network.mode ≡ "slirp4netns:allow_host_loopback=false"

module _ {H : Host} (disk : Disk H) (store : PolicyStore H) (cfg : BrokerConfig)
    (registry : AgentRegistry Driver) (provider : String) (context : TaskContext)
    (run_spec : RunSpec) (readonly outer_only : Bool) (security_class : String)
    (reference : FilePath) (git_common : Option FilePath) where
  plan_from-Returns :
      (files : FileSystem)
      → Returns (IsRunPlan files cfg context run_spec readonly) (
          plan_from disk store cfg registry provider context run_spec files readonly outer_only
            security_class reference git_common)
  unfolding plan_from AllIn
  plan_from-Returns files = Returns-lift _ _ _ λ driver _.
      Returns-lift _ _ _ λ workspace at_workspace. Returns-lift _ _ _ λ task_meta at_metadata.
        Returns-lift _ _ _ λ references _. Returns-lift _ _ _ λ states _.
          Returns-lift _ _ _ λ listed _. Returns-bind _ _ _ λ generated. Returns-bind _ _ _ λ later.
            Returns-lift _ _ _ λ seeded _. Returns-lift _ _ _ λ auxiliary made.
              Returns-lift _ _ _ λ environment _. Returns-lift _ _ _ λ image _.
                Returns-last _ _ λ p planned.
                  let (same, checked) = new_plan-eq-ok _ p planned in
                  let consistent = check_plan-IsConsistent _ checked in
                  subst (IsRunPlan files cfg context run_spec readonly) same (record {
                    consistent = consistent;
                    mode = refl;
                    workspace = workspace;
                    mounted = refl;
                    contained =
                        (canonical_dir-IsContained files context.workspace
                          (child cfg.root "projects") "workspace mount" workspace at_workspace).0;
                    metadata = task_meta;
                    metadata_mounted = refl;
                    metadata_contained =
                        (canonical_file-IsContained files context.metadata_path
                          (child cfg.root "projects") "task metadata mount" task_meta
                          at_metadata).0;
                    confined = λ h. plan-IsReadOnly _ h consistent λ m one.
                        (git_mounts-AllIn later (child cfg.root "projects") workspace readonly
                            git_common).at
                          auxiliary made m one
                        ∙ h;
                    command = refl;
                    isolation = refl;
                    network = refl;
                  })

  -- A plan that is returned mounts the resolved workspace and metadata file, which lie below the
  -- projects, the workspace at `/workspace` in the run's mode, keeps to one mount for each target, and takes the command and the
  -- identity from the run description and its network from the platform. If the run is read-only, a
  -- mount that can be written is one of the provider's state or policy mounts.
  pub create_run_execution_plan-IsRunPlan :
      (s : State H) (p : ExecutionPlan)
      → (create_run_execution_plan disk store cfg registry provider context run_spec readonly
          outer_only security_class reference git_common s).0
        ≡ ok p
      → IsRunPlan (H.file_system s.world) cfg context run_spec readonly p
  unfolding create_run_execution_plan file_system ◌>=>◌ gets
  create_run_execution_plan-IsRunPlan s p h = (plan_from-Returns (H.file_system s.world)).at s p h
