-- ===== src/Runtime/Session/Endings.antt =====
-- How a session ends, runtime/podman.py: what `finally` does is done once, last, and only then.
use codex_cursor_devstack.Base.{
  Bool, true, false, Option, none, some, List, [], ◌∷◌, ◌++◌, All, if◌then◌else◌, Result, ok, err,
}
use codex_cursor_devstack.Base.Value.{ℤ}
use codex_cursor_devstack.Runtime.Control.{Bytes}
use codex_cursor_devstack.Runtime.Session.{
  Action, terminate, cleanup, close, Round, Session, Run, write, act, ret, ◌>>=◌, delivered,
}

-- Neither the clean-up of the container nor the closing of the terminal.
abbrev pub IsOpen : Action → Type 0
IsOpen cleanup = ⊥
IsOpen close = ⊥
IsOpen _ = Unit

All-append : (xs ys : List Action) → All IsOpen xs → All IsOpen ys → All IsOpen (xs ++ ys)
All-append [] ys h k = k
All-append (x ∷ xs) ys h k = (h.0, All-append xs ys h.1 k)

record Opens {A : Type 0} (m : Run A) : Type 0 where
  pub opens : All IsOpen m.0

module _ {A : Type 0} where
  Opens-ret : (a : A) → Opens (ret a)
  unfolding ret
  Opens-ret a = record { opens = tt }

  Opens-raise : (r : Result A) → Opens ([], r)
  Opens-raise r = record { opens = tt }

  Opens-if : (b : Bool) (m n : Run A) → Opens m → Opens n → Opens (if b then m else n)
  Opens-if true m n h k = h
  Opens-if false m n h k = k

  Opens-bind :
      {B : Type 0} (m : Run B) (f : B → Run A) → Opens m → ((b : B) → Opens (f b)) → Opens (m >>= f)
  unfolding ◌>>=◌
  Opens-bind (before, ok b) f h k = record { opens = All-append before (f b).0 h.opens (k b).opens }
  Opens-bind (before, err e) f h k = record { opens = h.opens }

Opens-act : (a : Action) → IsOpen a → Opens (act a)
unfolding act
Opens-act a h = record { opens = (h, tt) }

Opens-write : (r : Round) (bytes : Bytes) → Opens (write r bytes)
unfolding write
Opens-write r bytes = Opens-delivered (r.write_output bytes)
  where
    Opens-delivered : (result : Result (Unit {0})) → Opens (delivered bytes result)
    Opens-delivered (ok done) = record { opens = (tt, tt) }
    Opens-delivered (err e) = record { opens = tt }

ruleset opens_rules = (Opens-ret, Opens-raise, Opens-if, Opens-bind, Opens-act, Opens-write)

-- The actions of a session that goes on, or has ended, when `status` is what its `finally` polls.
pub data IsSettled : Option ℤ → List Action × Option (Result ℤ) → Type 0 where
  running :
      (status : Option ℤ) (actions : List Action)
      → All IsOpen actions
      → IsSettled status (actions, none)
  killed :
      (before : List Action) (result : Result ℤ)
      → All IsOpen before
      → IsSettled none (before ++ (terminate ∷ cleanup ∷ close ∷ []), some result)
  settled :
      (code : ℤ) (before : List Action) (result : Result ℤ)
      → All IsOpen before
      → IsSettled (some code) (before ++ (cleanup ∷ close ∷ []), some result)
