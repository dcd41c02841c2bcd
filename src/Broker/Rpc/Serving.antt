-- ===== src/Broker/Rpc/Serving.antt =====
-- What operations send, and that each allowed operation has one.
use codex_cursor_devstack.Base.{
  contains-append, ℕ, ◌+◌, ◌≡◌, ◌≢◌, refl, sym, ◌∙◌, String, Bool, true, false, none, some, All,
  Bool-cases, inl, inr, List, [], ◌∷◌, ◌++◌, str_eq, eq_iff, contains, subset, subset_sound,
  if◌then◌else◌, Error, Result, ok, err, arith,
}
use mathlib.Core.Path.{subst}
use codex_cursor_devstack.Base.Value.{Value, Fields}
use codex_cursor_devstack.Broker.Rpc.{
  Frame, start, output, exit, Streamed, BrokerOperations, Handlers, rpc_operations, allowed_ops,
  find, error_frame, reply, stream, streaming,
}

-- 1 for a frame that ends a request.
abbrev pub final_one : Frame → ℕ
final_one start = 0
final_one (output text) = 0
final_one _ = 1

-- How many frames end the request.
abbrev pub finals : List Frame → ℕ
finals [] = 0
finals (f ∷ fs) = final_one f + finals fs

finals-append : (fs gs : List Frame) → finals (fs ++ gs) ≡ finals fs + finals gs
finals-append [] gs = omega arith
finals-append (f ∷ fs) gs = omega (arith, finals-append fs gs)

error_frame-final : (e : Error) → final_one (error_frame e) ≡ 1
unfolding error_frame
error_frame-final (Error.value_error m) = refl
error_frame-final (Error.type_error m) = refl
error_frame-final (Error.key_error m) = refl
error_frame-final (Error.input_error m) = refl
error_frame-final (Error.escalation l f) = refl
error_frame-final (Error.conflict m) = refl
error_frame-final (Error.missing_capabilities names) = refl
error_frame-final (Error.failure m) = refl

pub finals-error : (e : Error) → finals (error_frame e ∷ []) ≡ 1
finals-error e = omega (arith, error_frame-final e)

pub finals-reply : (r : Result Value) → finals (reply r) ≡ 1
unfolding reply
finals-reply (ok v) = refl
finals-reply (err e) = finals-error e

pub finals-stream : (s : Streamed) → finals s.0 ≡ 0 → finals (stream s) ≡ 1
unfolding stream
finals-stream (frames, ok code) h = omega (arith, finals-append frames (exit code ∷ []))
finals-stream (frames, err e) h =
    omega (arith, finals-append frames (error_frame e ∷ []), finals-error e)

-- The streaming operations that the broker frames send nothing that ends a request.
pub record IsQuiet (ops : BrokerOperations) : Type 0 where
  pub build : finals ops.build.0 ≡ 0
  pub status : finals ops.status.0 ≡ 0
  pub versions : finals ops.versions.0 ≡ 0
  pub smoke : finals ops.smoke.0 ≡ 0
  pub index : (req : Fields) → finals (ops.index req).0 ≡ 0

abbrev names {ℓ} : {A : Type ℓ} → List (String × A) → List String
names [] = []
names ((k, a) ∷ rest) = k ∷ names rest

find-eq-none {ℓ} :
    {A : Type ℓ} (k : String) (l : List (String × A))
    → find k l ≡ none
    → contains (names l) k ≡ false
find-eq-none k [] h = refl
find-eq-none k ((j, a) ∷ rest) h = ground (arith, find-eq-none k rest)

pub if_true {ℓ} : {A : Type ℓ} (b : Bool) (x y : A) → b ≡ true → (if b then x else y) ≡ x
if_true b x y h = rw h refl

pub if_false {ℓ} : {A : Type ℓ} (b : Bool) (x y : A) → b ≡ false → (if b then x else y) ≡ y
if_false b x y h = rw h refl

find-All {ℓ κ} :
    {A : Type ℓ} (P : A → Type κ) (k : String) (l : List (String × A)) (a : A)
    → All (λ e. P e.1) l
    → find k l ≡ some a
    → P a
find-All P k [] a h e = cc
find-All P k ((j, b) ∷ rest) a h e = elim (Bool-cases (str_eq j k)) [
  | inl here ↦
      let taken : some b ≡ some a = sym (if_true _ _ _ here) ∙ e in
      let same : b ≡ a = cc in subst P same h.0
  | inr later ↦ find-All P k rest a h.1 (sym (if_false _ _ _ later) ∙ e)
]

abbrev streams : BrokerOperations → Fields → List (String × Streamed)
streams ops req =
    ("build", ops.build)
    ∷ ("status", ops.status)
    ∷ ("versions", ops.versions)
    ∷ ("smoke", ops.smoke)
    ∷ ("index", ops.index req)
    ∷ []

pub streaming-quiet :
    (ops : BrokerOperations) (op : String) (req : Fields) (s : Streamed)
    → IsQuiet ops
    → streaming ops op req ≡ some s
    → finals s.0 ≡ 0
unfolding streaming
streaming-quiet ops op req s q h =
    find-All (λ (t : Streamed). finals t.0 ≡ 0) op (streams ops req) s
      (q.build, (q.status, (q.versions, (q.smoke, (q.index req, tt))))) h

abbrev result_names : List String
result_names =
    "project-init" ∷ "project-sync" ∷ "project-export" ∷ "project-status" ∷ "task-start"
    ∷ "task-complete" ∷ "task-merge" ∷ "task-abort" ∷ "task-list" ∷ []

abbrev stream_names : List String
stream_names = "build" ∷ "status" ∷ "versions" ∷ "smoke" ∷ "index" ∷ []

allowed_lem :
    (op : String)
    → contains allowed_ops op ≡ true
    → contains ("ping" ∷ "auth" ∷ "run" ∷ (result_names ++ stream_names)) op ≡ true
unfolding allowed_ops subset
allowed_lem op h =
    subset_sound allowed_ops ("ping" ∷ "auth" ∷ "run" ∷ (result_names ++ stream_names)) op refl h

head_differs :
    (name op : String) (names : List String)
    → op ≢ name
    → contains (name ∷ names) op ≡ true
    → contains names op ≡ true
head_differs name op names differs h = ground (arith, eq_iff name op)

none_contains :
    (xs ys : List String) (s : String)
    → contains (xs ++ ys) s ≡ true
    → contains xs s ≡ false
    → contains ys s ≡ false
    → ⊥
none_contains xs ys s h k l = ground (arith, contains-append xs ys s)

pub none_serves :
    (h : Handlers) (ops : BrokerOperations) (op : String) (req : Fields)
    → contains allowed_ops op ≡ true
    → op ≢ "ping"
    → op ≢ "auth"
    → op ≢ "run"
    → find op (rpc_operations h ops).result_ops ≡ none
    → streaming ops op req ≡ none
    → ⊥
unfolding rpc_operations streaming
none_serves h ops op req allowed ping auth run no_result no_stream =
    none_contains result_names stream_names op
      (head_differs "run" op (result_names ++ stream_names) run (
        head_differs "auth" op ("run" ∷ (result_names ++ stream_names)) auth (
          head_differs "ping" op ("auth" ∷ "run" ∷ (result_names ++ stream_names)) ping
            (allowed_lem op allowed))))
      (find-eq-none op (rpc_operations h ops).result_ops no_result)
      (find-eq-none op (streams ops req) no_stream)

pub rpc_operations-IsQuiet :
    (h : Handlers) (ops : BrokerOperations) → IsQuiet ops → IsQuiet (rpc_operations h ops)
unfolding rpc_operations
rpc_operations-IsQuiet h ops q = record {
  build = q.build;
  status = q.status;
  versions = q.versions;
  smoke = q.smoke;
  index = q.index;
}

pub streaming-rpc_operations :
    (h : Handlers) (ops : BrokerOperations) (op : String) (req : Fields)
    → streaming (rpc_operations h ops) op req ≡ streaming ops op req
unfolding rpc_operations streaming
streaming-rpc_operations h ops op req = refl
