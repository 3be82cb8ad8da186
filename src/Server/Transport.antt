-- ===== src/Server/Transport.antt =====
-- One round of the receive loops handle_ws_client and handle_tcp_client. The value is the context for the
-- next round, or `none` where the loop ends. What the socket receives is an argument.
use sketch_sync.Prelude.{ℕ, ◌+◌, not, Option, none, some, length, take, drop, ◌==◌, if◌then◌else◌}
use sketch_sync.Results.{Result, is_ok}
use sketch_sync.Bytes.{Bytes}
use sketch_sync.Protocol.{header_size, parse_header}
use sketch_sync.Server.State.{ClientContext, Step, pure, ◌>>=◌, lift}
use sketch_sync.Server.Handlers.{is_empty}
use sketch_sync.Server.Dispatch.{dispatch}

unfoldable pub receive_frame : Result Bytes → ClientContext → ℕ → Step (Option ClientContext)
receive_frame result ctx conn =
    if not (is_ok result) then pure none else if is_empty result.value then pure (some ctx) else do
      parsed ← lift (parse_header result.value)
      if not (is_ok parsed)
          then pure none
          else if not (length result.value == header_size + parsed.value.length)
          then pure none
          else do
            ctx' ←
                dispatch parsed.value (take parsed.value.length (drop header_size result.value)) ctx
                  conn
            pure (some ctx')

unfoldable pub receive_stream :
    Result Bytes → (ℕ → Result Bytes) → ClientContext → ℕ → Step (Option ClientContext)
receive_stream header_result receive ctx conn = if not (is_ok header_result) then pure none else do
  parsed ← lift (parse_header header_result.value)
  if not (is_ok parsed)
      then pure none
      else if not (is_ok (receive parsed.value.length))
      then pure none
      else do
        ctx' ← dispatch parsed.value (receive parsed.value.length).value ctx conn
        pure (some ctx')
