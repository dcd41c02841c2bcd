-- ===== src/Agents/State/Coherent.antt =====
-- What an adapter that passes its checks offers, agents/state.py.
use codex_cursor_devstack.Base.{
  ◌≡◌, refl, String, true, false, Option, none, some, List, [], ◌∷◌, map, str_eq, contains, eq_iff,
  eq_refl, All, Bool-cases, inl, inr, ok, >>=-eq-ok, guard-eq-ok, arith,
}
use codex_cursor_devstack.Agents.Specs.{all_distinct}
use codex_cursor_devstack.Agents.State.{
  StateVolumeLayout, JsonFieldReconciliation, ProviderStateAdapter, find_volume, volume, primary,
  require_volume, check_adapter,
}

abbrev keys : List StateVolumeLayout → List String
keys vs = map (λ (v : StateVolumeLayout). v.key) vs

-- A lookup that returns the volume with the key.
Has : List StateVolumeLayout → String → Type 0
Has vs key = (v : StateVolumeLayout) × (find_volume key vs ≡ ok v) × (v.key ≡ key)

find_volume-Has :
    (vs : List StateVolumeLayout) (key : String) → contains (keys vs) key ≡ true → Has vs key
unfolding find_volume Has
find_volume-Has [] key h = cc
find_volume-Has (v ∷ vs) key h = elim (Bool-cases (str_eq v.key key)) [
  | inl same ↦ (v, rw same refl, (eq_iff v.key key).0 same)
  | inr other ↦
      let (w, found, named) = find_volume-Has vs key (ground arith) in (w, rw other found, named)
]

-- Each volume is found under its key.
FoundIn : List StateVolumeLayout → List StateVolumeLayout → Type 0
FoundIn all vs = All (λ (v : StateVolumeLayout). find_volume v.key all ≡ ok v) vs

FoundIn-later :
    (v : StateVolumeLayout) (all vs : List StateVolumeLayout)
    → contains (keys vs) v.key ≡ false
    → FoundIn all vs
    → FoundIn (v ∷ all) vs
unfolding FoundIn find_volume
FoundIn-later v all [] h k = tt
FoundIn-later v all (w ∷ vs) h (found, k) = (
  ground (arith, eq_iff v.key w.key, eq_iff w.key v.key),
  FoundIn-later v all vs (ground arith) k,
)

all_distinct-FoundIn : (vs : List StateVolumeLayout) → all_distinct (keys vs) ≡ true → FoundIn vs vs
unfolding all_distinct FoundIn find_volume
all_distinct-FoundIn [] h = tt
all_distinct-FoundIn (v ∷ vs) h =
    (rw eq_refl, FoundIn-later v vs vs (ground arith) (all_distinct-FoundIn vs (ground arith)))

abbrev Reconciles : ProviderStateAdapter → Option JsonFieldReconciliation → Type 0
Reconciles a none = Unit
Reconciles a (some r) = (v : StateVolumeLayout) × (volume a r.volume_key ≡ ok v)

pub record IsCoherent (a : ProviderStateAdapter) : Type 0 where
  pub main : StateVolumeLayout
  pub primary_found : primary a ≡ ok main
  pub primary_named : main.key ≡ a.primary_key
  pub found : All (λ (v : StateVolumeLayout). volume a v.key ≡ ok v) a.volumes
  pub reconciles : Reconciles a a.reconciliation

require_volume-Reconciles :
    (a : ProviderStateAdapter) (r : Option JsonFieldReconciliation)
    → require_volume a r ≡ ok tt
    → Reconciles a r
require_volume-Reconciles a none h = tt
require_volume-Reconciles a (some r) h = let (v, found, _) = >>=-eq-ok _ _ h in (v, found)

-- An adapter that passes its checks has its primary volume, finds each of its volumes under the key
-- of the volume, and has the volume that its reconciliation names: none of these lookups raises.
pub check_adapter-IsCoherent : (a : ProviderStateAdapter) → check_adapter a ≡ ok tt → IsCoherent a
unfolding check_adapter primary Has FoundIn
check_adapter-IsCoherent a h =
    let some_volume = (guard-eq-ok _ _ _ h).1 in
    let (distinct, sources) = guard-eq-ok _ _ _ some_volume in
    let targets = (guard-eq-ok _ _ _ sources).1 in
    let staging = (guard-eq-ok _ _ _ targets).1 in
    let main = (guard-eq-ok _ _ _ staging).1 in
    let (present, legacy) = guard-eq-ok _ _ _ main in
    let (_, _, policies) = >>=-eq-ok _ _ legacy in
    let reconciled = (guard-eq-ok _ _ _ policies).1 in
    let (v, found, named) = find_volume-Has a.volumes a.primary_key present in
    record {
      main = v;
      primary_found = found;
      primary_named = named;
      found = all_distinct-FoundIn a.volumes distinct;
      reconciles = require_volume-Reconciles a a.reconciliation reconciled;
    }
