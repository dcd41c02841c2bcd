-- ===== src/Broker/Rpc/Replies.antt =====
-- Every request is answered once.
use codex_cursor_devstack.Base.{
  ◌≡◌, ◌≢◌, refl, sym, ap, ◌∙◌, String, true, Option, none, some, Bool-cases, inl, inr, str_eq,
  eq_iff, contains, Result, ok, err,
}
use codex_cursor_devstack.Base.Value.{Value, Fields}
use codex_cursor_devstack.Broker.Rpc.Grid.{allowed_ops-is_operation}
use codex_cursor_devstack.Broker.Rpc.Shape.{validate_request_shape-IsWellShaped}
use codex_cursor_devstack.Broker.Rpc.{
  Line, Streamed, BrokerOperations, Handlers, rpc_operations, allowed_ops, find,
  validate_request_shape, streaming, stream_or_attach, result_or_more, dispatch, receive,
  handle_valid, handle_received, handle_request,
}
use codex_cursor_devstack.Broker.Rpc.Serving.{
  finals, IsQuiet, finals-error, finals-reply, finals-stream, streaming-quiet, none_serves,
  rpc_operations-IsQuiet, streaming-rpc_operations, if_true, if_false,
}

module _ (h : Handlers) (ops : BrokerOperations) (op : String) (req : Fields) (quiet : IsQuiet ops)
    (allowed : contains allowed_ops op ≡ true) (auth : op ≢ "auth") (run : op ≢ "run") where
  finals-streamed :
      (found : Option Streamed)
      → op ≢ "ping"
      → find op (rpc_operations h ops).result_ops ≡ none
      → streaming (rpc_operations h ops) op req ≡ found
      → finals (stream_or_attach (rpc_operations h ops) op req found) ≡ 1
  unfolding stream_or_attach
  finals-streamed (some s) ping e k =
      finals-stream s
        (streaming-quiet (rpc_operations h ops) op req s (rpc_operations-IsQuiet h ops quiet) k)
  finals-streamed none ping e k =
      elim (none_serves h ops op req allowed ping auth run e
        (sym (streaming-rpc_operations h ops op req) ∙ k)) [ ]

  finals-result :
      (found : Option (Fields → Result Value))
      → op ≢ "ping"
      → find op (rpc_operations h ops).result_ops ≡ found
      → finals (result_or_more (rpc_operations h ops) op req found) ≡ 1
  unfolding result_or_more
  finals-result (some handler) ping e = finals-reply (handler req)
  finals-result none ping e = finals-streamed _ ping e refl

  finals-dispatch : finals (dispatch (rpc_operations h ops) op req) ≡ 1
  unfolding dispatch
  finals-dispatch = elim (Bool-cases (str_eq op "ping")) [
    | inl ping ↦ ap finals (if_true _ _ _ ping) ∙ refl
    | inr other ↦
        ap finals (if_false _ _ _ other)
        ∙ finals-result _ (λ same. let yes = (eq_iff op "ping").1 same in cc) refl
  ]

-- A connection is answered by exactly one frame that ends it, whether the line is closed, too long,
-- no JSON, no request, refused, or served by an operation that returns or raises, if the streaming
-- operations send only output and the request, where one is accepted, is no `auth` and no `run`.
pub handle_request-finals :
    (h : Handlers) (ops : BrokerOperations) (incoming : Line)
    → IsQuiet ops
    → ((req : Fields) (op : String)
        → receive incoming ≡ ok req
        → validate_request_shape req ≡ ok op
        → (op ≢ "auth") × (op ≢ "run"))
    → finals (handle_request (rpc_operations h ops) incoming) ≡ 1
unfolding handle_request handle_valid handle_received
handle_request-finals h ops incoming quiet plain = received (receive incoming) refl
  where
    shaped :
        (req : Fields) (r : Result String)
        → receive incoming ≡ ok req
        → validate_request_shape req ≡ r
        → finals (handle_valid (rpc_operations h ops) req r) ≡ 1
    shaped req (ok op) e k =
        let no = plain req op e k in
        let w = (validate_request_shape-IsWellShaped req op).0 k in
        finals-dispatch h ops op req quiet (allowed_ops-is_operation op ∙ w.operation) no.0 no.1
    shaped req (err x) e k = finals-error x

    received :
        (r : Result Fields)
        → receive incoming ≡ r
        → finals (handle_received (rpc_operations h ops) r) ≡ 1
    received (ok req) e = shaped req _ e refl
    received (err x) e = finals-error x
