-- ===== src/Engine/Calls.antt =====
-- Calls of sessionClient by session_manager.
pub mod Sending
use sketch_sync.Prelude.{ℕ, Bool, Option, none, some, List, [], ◌∷◌, ◌++◌}
use mathlib.Core.Option
use sketch_sync.Results.{Result}
use sketch_sync.Bytes.{Bytes}
use sketch_sync.Client.{
  Client, send_create, send_join, send_leave, send_close_session, send_canvas_clear,
  request_canvas_state, send_draw, send_draw_raw, send_canvas_state,
}
use sketch_sync.Engine.{Engine, Environment, Call}
use sketch_sync.Engine.Call.{
  create, join, leave, close_session, canvas_clear, draw, draw_raw, canvas_state_request,
  canvas_state,
}

-- The sender that a call names.
pub perform : (Bytes → Result ℕ) → Client → Call → Option (Result Bool)
perform transmit c (create name) = send_create transmit name
perform transmit c (join session_id name) = send_join transmit session_id name
perform transmit c leave = send_leave transmit
perform transmit c close_session = send_close_session transmit
perform transmit c canvas_clear = send_canvas_clear transmit
perform transmit c (draw op) = send_draw transmit c op
perform transmit c (draw_raw op) = send_draw_raw transmit op
perform transmit c canvas_state_request = request_canvas_state transmit c
perform transmit c (canvas_state ops) = send_canvas_state transmit c ops

-- The engine with one more call.
abbrev pub with_call : Client → Call → Engine → Engine
with_call c m e = record e { calls = e.calls ++ (c, m) ∷ [] }

module _ (env : Environment) where
  -- `none` stands for a write outside a buffer, in a serializer.
  unfoldable pub call : Client → Call → Engine → Option (Result Bool × Engine)
  call c m e = Option.map (λ r. (r, with_call c m e)) (perform (env.transmit e.calls) c m)

  -- A call whose answer does not matter.
  unfoldable pub tell : Client → Call → Engine → Option Engine
  tell c m e = Option.map (λ r. with_call c m e) (perform (env.transmit e.calls) c m)
