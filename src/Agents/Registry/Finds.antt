-- ===== src/Agents/Registry/Finds.antt =====
-- What a registry finds, agents/registry.py.
use mathlib.Core.Path.{subst}
use codex_cursor_devstack.Base.{
  ◌≡◌, ◌≢◌, refl, sym, ap, ◌∙◌, String, true, false, some, List, [], ◌∷◌, ◌++◌, eq_iff, eq_refl,
  All, Error, ok, ok-injective, >>=-eq-ok, guard-eq-ok, not-true, arith,
}
use codex_cursor_devstack.Base.Value.{Value}
use codex_cursor_devstack.Core.Names.{is_valid_name}
use codex_cursor_devstack.Agents.Registry.{
  AgentRegistry, find_driver, is_some, register, register_all, found_driver, get_driver, freeze,
  build_registry,
}

module _ {D : Type 0} where
  find_driver-head :
      (i : String) (d : D) (ds : List (String × D)) → find_driver i ((i, d) ∷ ds) ≡ some d
  unfolding find_driver
  find_driver-head i d ds = rw eq_refl

  -- A driver that is found stays found.
  find_driver-keeps :
      (i : String) (xs ys : List (String × D)) (d : D)
      → find_driver i xs ≡ some d
      → find_driver i (xs ++ ys) ≡ some d
  unfolding find_driver
  find_driver-keeps i [] ys d h = cc
  find_driver-keeps i ((n, x) ∷ xs) ys d h = ground (arith, find_driver-keeps i xs ys d)

  find_driver-adds :
      (i : String) (xs ys : List (String × D))
      → is_some (find_driver i xs) ≡ false
      → find_driver i (xs ++ ys) ≡ find_driver i ys
  unfolding find_driver
  find_driver-adds i [] ys h = refl
  find_driver-adds i ((n, x) ∷ xs) ys h = ground (arith, find_driver-adds i xs ys)

module _ {D : Type 0} (id : D → String) where
  -- A registry whose entries have the names of their drivers.
  abbrev IsNamed : List (String × D) → Type 0
  IsNamed ds = All (λ (entry : String × D). entry.0 ≡ id entry.1) ds

  IsNamed-add : (ds : List (String × D)) (d : D) → IsNamed ds → IsNamed (ds ++ ((id d, d) ∷ []))
  IsNamed-add [] d h = (refl, tt)
  IsNamed-add (x ∷ ds) d h = (h.0, IsNamed-add ds d h.1)

  find_driver-named :
      (i : String) (ds : List (String × D)) (d : D)
      → IsNamed ds
      → find_driver i ds ≡ some d
      → id d ≡ i
  unfolding find_driver
  find_driver-named i [] d h found = cc
  find_driver-named i ((n, x) ∷ ds) d h found =
      ground (arith, h, eq_iff n i, find_driver-named i ds d h.1)

  -- What a registration that returns has done.
  record Registered (r next : AgentRegistry D) (d : D) : Type 0 where
    names : is_valid_name (Value.text (id d)) ≡ true
    fresh : is_some (find_driver (id d) r.drivers) ≡ false
    added : next.drivers ≡ r.drivers ++ ((id d, d) ∷ [])

  register-Registered :
      (r next : AgentRegistry D) (d : D) → register id r d ≡ ok next → Registered r next d
  unfolding register
  register-Registered r next d h =
      let thawed = (guard-eq-ok _ _ _ h).1 in
      let (valid, distinct) = guard-eq-ok _ _ _ thawed in
      let (new, same) = guard-eq-ok _ _ _ distinct in
      record {
        names = valid;
        fresh = not-true _ new;
        added = ap (λ (q : AgentRegistry D). q.drivers) (sym (ok-injective _ _ same));
      }

  -- `register_all` from any registry whose entries are named.
  record Kept (r last : AgentRegistry D) (ds : List D) : Type 0 where
    named : IsNamed last.drivers
    keeps :
        (i : String) (d : D)
        → find_driver i r.drivers ≡ some d
        → find_driver i last.drivers ≡ some d
    finds :
        All
          (λ (d : D).
            (is_valid_name (Value.text (id d)) ≡ true) × (find_driver (id d) last.drivers ≡ some d))
          ds

  register_all-Kept :
      (ds : List D) (r last : AgentRegistry D)
      → IsNamed r.drivers
      → register_all id r ds ≡ ok last
      → Kept r last ds
  unfolding register_all
  register_all-Kept [] r last named h =
      let same = ap (λ (q : AgentRegistry D). q.drivers) (ok-injective _ _ h) in
      record {
        named = subst IsNamed same named;
        keeps = λ i d found. subst (λ xs. find_driver i xs ≡ some d) same found;
        finds = tt;
      }
  register_all-Kept (d ∷ ds) r last named h =
      let (next, first, rest) = >>=-eq-ok _ _ h in
      let step = register-Registered r next d first in
      let later =
        register_all-Kept ds next last
          (subst IsNamed (sym step.added) (IsNamed-add r.drivers d named)) rest in
      record {
        named = later.named;
        keeps = λ i x found. later.keeps i x (
            ap (find_driver i) step.added ∙ find_driver-keeps i r.drivers ((id d, d) ∷ []) x found);
        finds = (
          (
            step.names,
            later.keeps (id d) d (
                ap (find_driver (id d)) step.added
                ∙ find_driver-adds (id d) r.drivers ((id d, d) ∷ []) step.fresh
                ∙ find_driver-head (id d) d []),
          ),
          later.finds,
        );
      }

  -- Lookups in a registry of these drivers, with `e` for an unknown one.
  pub record IsTrusted (e : Error) (r : AgentRegistry D) (ds : List D) : Type 0 where
    pub complete : All (λ (d : D). get_driver e r (Value.text (id d)) ≡ ok d) ds
    pub sound : (v : Value) (d : D) → get_driver e r v ≡ ok d → v ≡ Value.text (id d)
    pub final : (d : D) (next : AgentRegistry D) → register id r d ≢ ok next

  get_driver-found :
      (e : Error) (r : AgentRegistry D) (i : String) (d : D)
      → is_valid_name (Value.text i) ≡ true
      → find_driver i r.drivers ≡ some d
      → get_driver e r (Value.text i) ≡ ok d
  unfolding get_driver found_driver
  get_driver-found e r i d valid found = rw valid (rw found refl)

  get_driver-named :
      (e : Error) (r : AgentRegistry D) (v : Value) (d : D)
      → IsNamed r.drivers
      → get_driver e r v ≡ ok d
      → v ≡ Value.text (id d)
  unfolding get_driver found_driver
  get_driver-named e r (Value.text i) d named h =
      ap Value.text (sym (find_driver-named i r.drivers d named (ground arith)))
  get_driver-named e r v d named h = cc

  finds_complete :
      (e : Error) (r : AgentRegistry D) (ds : List D)
      → All
          (λ (d : D).
            (is_valid_name (Value.text (id d)) ≡ true) × (find_driver (id d) r.drivers ≡ some d))
          ds
      → All (λ (d : D). get_driver e r (Value.text (id d)) ≡ ok d) ds
  finds_complete e r [] h = tt
  finds_complete e r (d ∷ ds) ((valid, found), h) =
      (get_driver-found e r (id d) d valid found, finds_complete e r ds h)

  register_frozen : (r next : AgentRegistry D) (d : D) → r.frozen ≡ true → register id r d ≢ ok next
  unfolding register
  register_frozen r next d h done = let thawed = not-true _ (guard-eq-ok _ _ _ done).0 in cc

  freeze-IsTrusted :
      (e : Error) (ds : List D) (r : AgentRegistry D)
      → register_all id (record { drivers = []; frozen = false }) ds ≡ ok r
      → IsTrusted e (freeze r) ds
  unfolding freeze
  freeze-IsTrusted e ds r h =
      let kept = register_all-Kept ds _ r tt h in
      record {
        complete = finds_complete e (freeze r) ds kept.finds;
        sound = λ v d. get_driver-named e (freeze r) v d kept.named;
        final = λ d next. register_frozen (freeze r) next d refl;
      }

  -- A registry that is built finds each of its drivers under its id, finds a driver under no other
  -- name, and takes no further driver.
  pub build_registry-IsTrusted :
      (e : Error) (ds : List D) (r : AgentRegistry D)
      → build_registry id ds ≡ ok r
      → IsTrusted e r ds
  unfolding build_registry
  build_registry-IsTrusted e ds r h =
      let (q, made, same) = >>=-eq-ok _ _ h in
      subst (λ x. IsTrusted e x ds) (ok-injective _ _ same) (freeze-IsTrusted e ds q made)
