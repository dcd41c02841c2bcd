-- ===== src/Broker/Rpc.antt =====
-- broker/rpc.py: the shape of a request and its dispatch, with `rpc_operations` of broker/daemon.py. A
-- connection is the line that is read from it and the frames that are sent to it; sending succeeds.
pub mod Grid
pub mod Shape
pub mod Serving
pub mod Replies
use codex_cursor_devstack.Base.{
  ℕ, ◌≡◌, String, Bool, true, false, not, ◌||◌, ◌&&◌, Option, none, some, List, [], ◌∷◌, ◌++◌,
  str_eq, contains, ltb, ◌^◌, ◌*◌, if◌then◌else◌, Error, Result, ok, err, input_error, type_error,
  key_error, ◌>>=◌, ◌>>◌, guard,
}
use codex_cursor_devstack.Base.Value.{ℤ, Key, Value, Fields, lookup}

-- `json.loads`: a value, a JSONDecodeError, or another exception.
pub data Decoded : Type 0 where
  json : Value → Decoded
  not_json : Decoded
  undecodable : Error → Decoded

-- What `fileobj.readline()` returns: nothing, or a line of some length.
pub data Line : Type 0 where
  closed : Line
  line : ℕ → Decoded → Line

pub data Frame : Type 0 where
  start : Frame
  output : String → Frame
  result : Value → Frame
  exit : ℕ → Frame
  error : String → ℕ → Frame

-- An operation that streams: the frames that it sends, and the code that it returns or its exception.
abbrev pub Streamed : Type 0
Streamed = List Frame × Result ℕ

unfoldable pub decode : Decoded → Result (Option Value)
decode (json v) = ok (some v)
decode not_json = err (input_error "invalid JSON request")
decode (undecodable e) = err e

unfoldable pub recv_json_line : Line → Result (Option Value)
unfolding decode
recv_json_line closed = ok none
recv_json_line (line size decoded) =
    if ltb (1024 * 1024) size then err (input_error "RPC frame too large") else decode decoded

-- `ALLOWED_OPS`
unfoldable pub allowed_ops : List String
allowed_ops =
    "ping" ∷ "build" ∷ "auth" ∷ "status" ∷ "versions" ∷ "smoke" ∷ "run" ∷ "index" ∷ "project-init"
    ∷ "project-sync" ∷ "project-export" ∷ "project-status" ∷ "task-start" ∷ "task-complete"
    ∷ "task-merge" ∷ "task-abort" ∷ "task-list" ∷ []

abbrev pub find {ℓ} : {A : Type ℓ} → String → List (String × A) → Option A
find k [] = none
find k ((j, a) ∷ rest) = if str_eq j k then some a else find k rest

-- `REQUEST_FIELDS`
unfoldable pub request_fields : List (String × List String)
request_fields =
    ("ping", "op" ∷ [])
    ∷ ("build", "op" ∷ [])
    ∷ ("status", "op" ∷ [])
    ∷ ("versions", "op" ∷ [])
    ∷ ("smoke", "op" ∷ [])
    ∷ ("auth", "op" ∷ "provider" ∷ [])
    ∷ ("index", "op" ∷ "project" ∷ "task" ∷ [])
    ∷ ("run", "op" ∷ "provider" ∷ "project" ∷ "task" ∷ "readonly" ∷ "outer_only" ∷ "prompt" ∷ [])
    ∷ ("project-init", "op" ∷ "project" ∷ "bundle" ∷ [])
    ∷ ("project-sync", "op" ∷ "project" ∷ "bundle" ∷ [])
    ∷ ("project-export", "op" ∷ "project" ∷ [])
    ∷ ("project-status", "op" ∷ "project" ∷ [])
    ∷ ("task-start", "op" ∷ "project" ∷ "task" ∷ "parallel" ∷ "dependencies" ∷ [])
    ∷ ("task-complete", "op" ∷ "project" ∷ "task" ∷ [])
    ∷ ("task-merge", "op" ∷ "project" ∷ "task" ∷ [])
    ∷ ("task-abort", "op" ∷ "project" ∷ "task" ∷ [])
    ∷ ("task-list", "op" ∷ "project" ∷ [])
    ∷ []

-- `not (set(req) - allowed)`
unfoldable pub fields_within : List String → Fields → Bool
fields_within allowed Fields.end = true
fields_within allowed (Fields.entry (Key.name k) v rest) =
    contains allowed k && fields_within allowed rest
fields_within allowed (Fields.entry (Key.other n) v rest) = false

-- `op not in ALLOWED_OPS` needs an `op` that can be hashed.
unfoldable pub read_op : Option Value → Result String
unfolding allowed_ops
read_op (some (Value.text op)) =
    if contains allowed_ops op then ok op else err (input_error "unsupported operation")
read_op (some (Value.list items)) = err (type_error "unhashable type")
read_op (some (Value.object fields)) = err (type_error "unhashable type")
read_op _ = err (input_error "unsupported operation")

unfoldable pub fields_of : String → Result (List String)
unfolding request_fields
fields_of op = elim (find op request_fields) [ none ↦ err (key_error op) | some fields ↦ ok fields ]

-- The operation of a request that has the right shape.
unfoldable pub validate_request_shape : Fields → Result String
unfolding read_op fields_of fields_within
validate_request_shape req = do
  op ← read_op (lookup "op" req)
  allowed ← fields_of op
  guard (fields_within allowed req) (input_error "unexpected RPC fields")
  ok op

-- `BrokerOperations`; `uid` is `os.getuid()`.
pub record BrokerOperations : Type 0 where
  pub uid : ℕ
  pub result_ops : List (String × (Fields → Result Value))
  pub build : Streamed
  pub status : Streamed
  pub versions : Streamed
  pub smoke : Streamed
  pub index : Fields → Streamed
  pub auth : Option Value → Streamed
  pub run : Fields → Streamed

-- The operations that return a value.
pub record Handlers : Type 0 where
  pub project_init : Fields → Result Value
  pub project_sync : Fields → Result Value
  pub project_export : Fields → Result Value
  pub project_status : Fields → Result Value
  pub task_start : Fields → Result Value
  pub task_complete : Fields → Result Value
  pub task_merge : Fields → Result Value
  pub task_abort : Fields → Result Value
  pub task_list : Fields → Result Value

-- `rpc_operations`, with the streaming operations as they are in `ops`
unfoldable pub rpc_operations : Handlers → BrokerOperations → BrokerOperations
rpc_operations h ops = record ops {
  result_ops =
      ("project-init", h.project_init)
      ∷ ("project-sync", h.project_sync)
      ∷ ("project-export", h.project_export)
      ∷ ("project-status", h.project_status)
      ∷ ("task-start", h.task_start)
      ∷ ("task-complete", h.task_complete)
      ∷ ("task-merge", h.task_merge)
      ∷ ("task-abort", h.task_abort)
      ∷ ("task-list", h.task_list)
      ∷ [];
}

-- `str(exc)`, for the exceptions that the broker reports
unfoldable pub error_frame : Error → Frame
error_frame (input_error message) = error message 2
error_frame _ = error "internal broker error" 1

unfoldable pub ping_result : ℕ → Value
ping_result uid = Value.object (
    Fields.entry (Key.name "status") (Value.text "ok")
      (Fields.entry (Key.name "uid") (Value.int (ℤ.pos uid)) Fields.end))

unfoldable pub reply : Result Value → List Frame
unfolding error_frame
reply (ok v) = result v ∷ []
reply (err e) = error_frame e ∷ []

-- `start`, what the operation sends, and how it ends.
unfoldable pub stream : Streamed → List Frame
unfolding error_frame
stream (frames, ok code) = start ∷ (frames ++ (exit code ∷ []))
stream (frames, err e) = start ∷ (frames ++ (error_frame e ∷ []))

-- An operation that sends its own `start` and `exit`.
unfoldable pub attach : Streamed → List Frame
unfolding error_frame
attach (frames, ok code) = frames
attach (frames, err e) = frames ++ (error_frame e ∷ [])

unfoldable pub streaming : BrokerOperations → String → Fields → Option Streamed
streaming ops op req = find op (
    ("build", ops.build)
    ∷ ("status", ops.status)
    ∷ ("versions", ops.versions)
    ∷ ("smoke", ops.smoke)
    ∷ ("index", ops.index req)
    ∷ [])

unfoldable pub attached : BrokerOperations → String → Fields → List Frame
unfolding attach
attached ops op req =
    if str_eq op "auth"
    then attach (ops.auth (lookup "provider" req))
    else if str_eq op "run"
    then attach (ops.run req)
    else []

unfoldable pub stream_or_attach : BrokerOperations → String → Fields → Option Streamed → List Frame
unfolding stream attached
stream_or_attach ops op req (some streamed) = stream streamed
stream_or_attach ops op req none = attached ops op req

unfoldable pub result_or_more :
    BrokerOperations → String → Fields → Option (Fields → Result Value) → List Frame
unfolding reply stream_or_attach streaming
result_or_more ops op req (some handler) = reply (handler req)
result_or_more ops op req none = stream_or_attach ops op req (streaming ops op req)

unfoldable pub dispatch : BrokerOperations → String → Fields → List Frame
unfolding ping_result result_or_more
dispatch ops op req =
    if str_eq op "ping"
    then result (ping_result ops.uid) ∷ []
    else result_or_more ops op req (find op ops.result_ops)

unfoldable pub receive : Line → Result Fields
unfolding recv_json_line
receive incoming = do
  req ← recv_json_line incoming
  elim req [ some (Value.object fields) ↦ ok fields | _ ↦ err (input_error "invalid request") ]

unfoldable pub handle_valid : BrokerOperations → Fields → Result String → List Frame
unfolding error_frame dispatch
handle_valid ops req (ok op) = dispatch ops op req
handle_valid ops req (err e) = error_frame e ∷ []

unfoldable pub handle_received : BrokerOperations → Result Fields → List Frame
unfolding error_frame validate_request_shape handle_valid
handle_received ops (ok req) = handle_valid ops req (validate_request_shape req)
handle_received ops (err e) = error_frame e ∷ []

-- The frames that are sent for one connection.
unfoldable pub handle_request : BrokerOperations → Line → List Frame
unfolding receive handle_received
handle_request ops incoming = handle_received ops (receive incoming)
