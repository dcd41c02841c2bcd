-- ===== src/Runtime/Session/Shows.antt =====
-- What one turn of the loop of runtime/podman.py shows.
use mathlib.Core.Path.{subst}
use mathlib.Core.List.{append-nil, append_assoc}
use codex_cursor_devstack.Base.{
  ◌≢◌, ok-injective, ◌≡◌, refl, sym, ap, ◌∙◌, String, Bool, true, false, Option, none, some, List,
  [], ◌∷◌, ◌++◌, str_eq, eq_iff, Bool-cases, inl, inr, if◌then◌else◌, Error, Result, ok, err,
}
use codex_cursor_devstack.Base.Value.{ℤ}
use codex_cursor_devstack.Runtime.Control.{Bytes, RuntimeControl}
use codex_cursor_devstack.Runtime.Session.{
  Action, output, input, resize, terminate, cleanup, close, Round, Session, Run, Ending, timed_out,
  cancelled, exited, is_late, turn, write_some, write, act, ret, ◌>>=◌, ◌>>◌, set_size,
  handle_control, drain, on_status, poll,
}

-- The bytes that reach the client.
abbrev pub shown : List Action → Bytes
shown [] = []
shown (output bytes ∷ later) = bytes ++ shown later
shown (_ ∷ later) = shown later

-- The client takes all output, and its channel answers.
pub record IsQuiet (r : Round) : Type 0 where
  pub accepts : (bytes : Bytes) → r.write_output bytes ≡ ok tt
  pub control : Option RuntimeControl
  pub heard : r.receive_control ≡ ok control

abbrev pub asks_cancel : Result (Option RuntimeControl) → Bool
asks_cancel (ok (some c)) = str_eq c.kind "cancel"
asks_cancel _ = false

-- The bytes up to the first empty read.
unfoldable pub until_end : List Bytes → Bytes
until_end [] = []
until_end ([] ∷ later) = []
until_end ((c ∷ cs) ∷ later) = (c ∷ cs) ++ until_end later

pub shown-append : (xs ys : List Action) → shown (xs ++ ys) ≡ shown xs ++ shown ys
shown-append [] ys = refl
shown-append (output b ∷ xs) ys =
    ap (λ bs. b ++ bs) (shown-append xs ys) ∙ sym (append_assoc b (shown xs) (shown ys))
shown-append (input b ∷ xs) ys = shown-append xs ys
shown-append (resize rows cols ∷ xs) ys = shown-append xs ys
shown-append (terminate ∷ xs) ys = shown-append xs ys
shown-append (cleanup ∷ xs) ys = shown-append xs ys
shown-append (close ∷ xs) ys = shown-append xs ys

pub err-ne-ok : {A : Type 0} (e : Error) (a : A) → err e ≢ ok a
err-ne-ok e a h = cc

-- `m` returns `a`, and has shown `bytes`.
pub record Shows {A : Type 0} (m : Run A) (bytes : Bytes) (a : A) : Type 0 where
  pub shows : shown m.0 ≡ bytes
  pub returns : m.1 ≡ ok a

pub Shows-ret : {A : Type 0} (a : A) → Shows (ret a) [] a
unfolding ret
Shows-ret a = record { shows = refl; returns = refl }

Shows-terminate : {A : Type 0} (a : A) → Shows (act terminate >> ret a) [] a
unfolding act ret ◌>>=◌
Shows-terminate a = record { shows = refl; returns = refl }

Shows-bind :
    {A B : Type 0} (m : Run A) (f : A → Run B) (before later : Bytes) (a : A) (b : B)
    → Shows m before a
    → Shows (f a) later b
    → Shows (m >>= f) (before ++ later) b
unfolding ◌>>=◌
Shows-bind (xs, ok x) f before later a b h k =
    let same = ok-injective x a h.returns in
    record {
      shows = rw (same, shown-append xs (f a).0, h.shows, k.shows) refl;
      returns = rw same k.returns;
    }
Shows-bind (xs, err e) f before later a b h k = elim (err-ne-ok e a h.returns) [ ]

-- What follows shows nothing.
Shows-last :
    {A B : Type 0} (m : Run A) (f : A → Run B) (bytes : Bytes) (a : A) (b : B)
    → Shows m bytes a
    → Shows (f a) [] b
    → Shows (m >>= f) bytes b
Shows-last m f bytes a b h k =
    subst (λ shown_bytes. Shows (m >>= f) shown_bytes b) (append-nil bytes)
      (Shows-bind m f bytes [] a b h k)

module _ (r : Round) (quiet : IsQuiet r) where
  Shows-write : (bytes : Bytes) → Shows (write r bytes) bytes tt
  unfolding write
  Shows-write bytes = rw (quiet.accepts bytes) (record { shows = append-nil bytes; returns = refl })

  Shows-write_some : (bytes : Bytes) → Shows (write_some r bytes) bytes tt
  unfolding write_some
  Shows-write_some [] = Shows-ret tt
  Shows-write_some (b ∷ bs) = Shows-write (b ∷ bs)

  Shows-drain : (reads : List Bytes) → Shows (drain r reads) (until_end reads) tt
  unfolding drain until_end
  Shows-drain [] = Shows-ret tt
  Shows-drain ([] ∷ later) = Shows-ret tt
  Shows-drain ((c ∷ cs) ∷ later) =
      Shows-bind (write r (c ∷ cs)) (λ done. drain r later) (c ∷ cs) (until_end later) tt tt
        (Shows-write (c ∷ cs)) (Shows-drain later)

not_cancel :
    (kind other : String)
    → str_eq kind other ≡ true
    → str_eq other "cancel" ≡ false
    → str_eq kind "cancel" ≡ false
not_cancel kind other h k = rw ((eq_iff kind other).0 h) k

Shows-set_size : (rows cols : Option ℤ) → Shows (set_size rows cols) [] false
unfolding act ret ◌>>=◌
Shows-set_size none cols = record { shows = refl; returns = refl }
Shows-set_size (some rows) none = record { shows = refl; returns = refl }
Shows-set_size (some rows) (some cols) = record { shows = refl; returns = refl }

Shows-handle_control :
    (c : Option RuntimeControl) → Shows (handle_control c) [] (asks_cancel (ok c))
unfolding handle_control act ret ◌>>=◌
Shows-handle_control none = record { shows = refl; returns = refl }
Shows-handle_control (some c) = elim (Bool-cases (str_eq c.kind "input")) [
  | inl h ↦ rw (h, not_cancel c.kind "input" h refl) (record { shows = refl; returns = refl })
  | inr h ↦ elim (Bool-cases (str_eq c.kind "resize")) [
    | inl k ↦ rw (h, k, not_cancel c.kind "resize" k refl) (Shows-set_size c.rows c.cols)
    | inr k ↦ elim (Bool-cases (str_eq c.kind "cancel")) [
      | inl l ↦ rw (h, k, l) (record { shows = refl; returns = refl })
      | inr l ↦ rw (h, k, l) (record { shows = refl; returns = refl })
    ]
  ]
]

module _ (s : Session) (r : Round) (quiet : IsQuiet r) where
  pub late_turn : is_late s r.now ≡ true → Shows (turn s r) s.timeout_output (some timed_out)
  unfolding turn
  late_turn h = rw h (
      Shows-last (write_some r s.timeout_output) (λ done. act terminate >> ret (some timed_out))
        s.timeout_output tt (some timed_out) (Shows-write_some r quiet s.timeout_output)
        (Shows-terminate (some timed_out)))

  -- What follows the handling of a control event.
  abbrev after_control : Bool → Run (Option Ending)
  after_control stop = if stop then ret (some cancelled) else on_status r r.status

  turn_reads :
      (bytes : Bytes) (end : Option Ending)
      → is_late s r.now ≡ false
      → Shows (after_control (asks_cancel r.receive_control)) bytes end
      → Shows (turn s r) (r.data_read ++ bytes) end
  unfolding turn poll
  turn_reads bytes end h rest =
      let cancels = asks_cancel (ok quiet.control) in
      let heard : Shows (after_control cancels) bytes end =
        subst (λ c. Shows (after_control (asks_cancel c)) bytes end) quiet.heard rest in
      rw h (
        Shows-bind (write_some r r.data_read) _ r.data_read bytes tt end
          (Shows-write_some r quiet r.data_read)
          (Shows-bind ([], r.receive_control) _ [] bytes quiet.control end
            (record { shows = refl; returns = quiet.heard })
            (Shows-bind (handle_control quiet.control) _ [] bytes cancels end
              (Shows-handle_control quiet.control) heard)))

  pub cancelled_turn :
      is_late s r.now ≡ false
      → asks_cancel r.receive_control ≡ true
      → Shows (turn s r) r.data_read (some cancelled)
  cancelled_turn h k =
      subst (λ bytes. Shows (turn s r) bytes (some cancelled)) (append-nil r.data_read)
        (turn_reads [] (some cancelled) h (rw k (Shows-ret (some cancelled))))

  pub running_turn :
      is_late s r.now ≡ false
      → asks_cancel r.receive_control ≡ false
      → r.status ≡ none
      → Shows (turn s r) r.data_read none
  running_turn h k e =
      subst (λ bytes. Shows (turn s r) bytes none) (append-nil r.data_read)
        (turn_reads [] none h
          (rw k (subst (λ status. Shows (on_status r status) [] none) (sym e) (Shows-ret none))))

  pub exited_turn :
      (code : ℤ)
      → is_late s r.now ≡ false
      → asks_cancel r.receive_control ≡ false
      → r.status ≡ some code
      → Shows (turn s r) (r.data_read ++ until_end r.last_reads) (some (exited code))
  exited_turn code h k e = turn_reads (until_end r.last_reads) (some (exited code)) h (
      rw k (
        subst (λ status. Shows (on_status r status) (until_end r.last_reads) (some (exited code)))
          (sym e)
          (Shows-last (drain r r.last_reads) _ (until_end r.last_reads) tt (some (exited code))
            (Shows-drain r quiet r.last_reads) (Shows-ret (some (exited code))))))
