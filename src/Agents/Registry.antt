-- ===== src/Agents/Registry.antt =====
-- agents/registry.py over any type of driver, which `id` names, and the broker's `registered_provider`
-- of broker/daemon.py. A registry is the dictionary of its drivers, in the order of registration.
pub mod Finds
use codex_cursor_devstack.Base.{
  String, Bool, true, false, not, Option, none, some, List, [], ◌∷◌, ◌++◌, str_eq, if◌then◌else◌,
  Error, Result, ok, err, value_error, input_error, ◌>>=◌, ◌>>◌, guard,
}
use codex_cursor_devstack.Base.Value.{Value}
use codex_cursor_devstack.Core.Names.{is_valid_name}

pub record AgentRegistry (D : Type 0) : Type 0 where
  pub drivers : List (String × D)
  pub frozen : Bool

module _ {D : Type 0} where
  unfoldable pub find_driver : String → List (String × D) → Option D
  find_driver id [] = none
  find_driver id ((name, driver) ∷ rest) =
      let later = find_driver id rest in if str_eq name id then some driver else later

  abbrev pub is_some : Option D → Bool
  is_some none = false
  is_some (some driver) = true

  unfoldable pub register : (D → String) → AgentRegistry D → D → Result (AgentRegistry D)
  unfolding find_driver
  register id r driver = do
    guard (not r.frozen) (value_error "agent registry is frozen")
    guard (is_valid_name (Value.text (id driver))) (value_error "invalid agent id")
    guard (not (is_some (find_driver (id driver) r.drivers))) (value_error "duplicate agent id")
    ok (record r { drivers = r.drivers ++ ((id driver, driver) ∷ []) })

  -- The loop of `AgentRegistry.__init__`
  unfoldable pub register_all : (D → String) → AgentRegistry D → List D → Result (AgentRegistry D)
  unfolding register
  register_all id r [] = ok r
  register_all id r (d ∷ ds) = do next ← register id r d; register_all id next ds

  unfoldable pub freeze : AgentRegistry D → AgentRegistry D
  freeze r = record r { frozen = true }

  unfoldable pub found_driver : Error → Option D → Result D
  found_driver e none = err e
  found_driver e (some driver) = ok driver

  -- `AgentRegistry.get`, with the exception for a driver that is unknown.
  unfoldable pub get_driver : Error → AgentRegistry D → Value → Result D
  unfolding find_driver found_driver
  get_driver e r (Value.text id) =
      if is_valid_name (Value.text id) then found_driver e (find_driver id r.drivers) else err e
  get_driver e r _ = err e

  unfoldable pub registered_provider : AgentRegistry D → Value → Bool → Result D
  unfolding get_driver
  registered_provider r provider request_error =
      get_driver
        (if request_error
          then input_error "unsupported provider"
          else value_error "unsupported provider")
        r provider

  -- `AgentRegistry(drivers).freeze()`, which `build_builtin_registry` is for its two drivers.
  unfoldable pub build_registry : (D → String) → List D → Result (AgentRegistry D)
  unfolding register_all freeze
  build_registry id ds = do
    r ← register_all id (record { drivers = []; frozen = false }) ds
    ok (freeze r)
