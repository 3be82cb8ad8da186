-- ===== src/Engine/Calls/Sending.antt =====
-- A call of a sender whose operations fit their formats returns.
use sketch_sync.Prelude.{ℕ, ◌≡◌, refl, Bool, some, All, length}
use sketch_sync.Results.{Result}
use sketch_sync.Bytes.{Bytes, IsU16}
use sketch_sync.Protocol.CanvasState.RoundTrip.{IsStorable}
use sketch_sync.Client.{Client}
use sketch_sync.Client.Frames.{
  send_create-frame, send_join-frame, send_leave-frame, send_close_session-frame,
  send_canvas_clear-frame, send_draw-frame, send_draw_raw-frame, request_canvas_state-total,
  send_canvas_state-total,
}
use sketch_sync.Engine.{Engine, Environment, Call}
use sketch_sync.Engine.Call.{
  create, join, leave, close_session, canvas_clear, draw, draw_raw, canvas_state_request,
  canvas_state,
}
use sketch_sync.Engine.Calls.{perform, with_call, call, tell}

-- The operations of a call can be written.
abbrev pub CanSend : Call → Type 0
CanSend (draw op) = IsU16 (length op.points)
CanSend (draw_raw op) = IsU16 (length op.points)
CanSend (canvas_state ops) = All IsStorable ops
CanSend _ = Unit {0}

perform-total :
    (transmit : Bytes → Result ℕ) (c : Client) (m : Call)
    → CanSend m
    → (r : Result Bool) × (perform transmit c m ≡ some r)
unfolding perform
perform-total transmit c (create name) h = (_, send_create-frame transmit name)
perform-total transmit c (join session_id name) h =
    (_, send_join-frame transmit (record { session_id = session_id; name = name }))
perform-total transmit c leave h = (_, send_leave-frame transmit)
perform-total transmit c close_session h = (_, send_close_session-frame transmit)
perform-total transmit c canvas_clear h = (_, send_canvas_clear-frame transmit)
perform-total transmit c (draw op) h = (_, send_draw-frame transmit c op h)
perform-total transmit c (draw_raw op) h = (_, send_draw_raw-frame transmit op h)
perform-total transmit c canvas_state_request h = request_canvas_state-total transmit c
perform-total transmit c (canvas_state ops) h = send_canvas_state-total transmit c ops h

module _ (env : Environment) (c : Client) (m : Call) (e : Engine) (h : CanSend m) where
  pub tell_lem : tell env c m e ≡ some (with_call c m e)
  unfolding tell
  tell_lem = let (r, p) = perform-total (env.transmit e.calls) c m h in rw p refl

  pub call_lem : (r : Result Bool) × (call env c m e ≡ some (r, with_call c m e))
  unfolding call
  call_lem = let (r, p) = perform-total (env.transmit e.calls) c m h in (r, rw p refl)
