-- ===== src/Client/Frames.antt =====
-- What each sender hands to the connection.
use sketch_sync.Prelude.{
  ℕ, ◌≡◌, refl, Bool, true, some, List, [], length, All, Bool-cases, inl, inr,
}
use mathlib.Core.Option
use sketch_sync.Results.{Result}
use sketch_sync.Bytes.{Bytes, IsU16}
use sketch_sync.DrawOperation.{DrawOperation}
use sketch_sync.DrawOperation.Codec.{operation_layout, serialize_draw_operation-layout}
use sketch_sync.Protocol.Opcode
use sketch_sync.Protocol.Frame.{serialize_message-layout}
use sketch_sync.Protocol.Session.{JoinMessage}
use sketch_sync.Protocol.Session.RoundTrip.{
  name_layout, join_layout, serialize_create-layout, serialize_join-layout,
}
use sketch_sync.Protocol.CanvasState.RoundTrip.{
  IsStorable, canvas_state_layout, serialize_canvas_state-layout,
}
use sketch_sync.Server.Sending.{message}
use sketch_sync.Server.Frames.{frame}
use sketch_sync.Client.{
  Client, passed, send_message, send_create, send_join, send_leave, send_close_session,
  send_canvas_clear, send_draw, send_draw_raw, send_canvas_state, request_canvas_state, in_session,
}

module _ (transmit : Bytes → Result ℕ) where
  send_message-frame :
      (opcode : ℕ) (payload : Bytes)
      → Option.map passed (send_message transmit (message opcode payload))
        ≡ some (passed (transmit (frame opcode payload)))
  unfolding send_message
  send_message-frame opcode payload = rw (serialize_message-layout (message opcode payload)) refl

  pub send_create-frame :
      (name : Bytes)
      → send_create transmit name
        ≡ some (passed (transmit (frame Opcode.create (name_layout name))))
  unfolding send_create Option.bind
  send_create-frame name =
      rw (serialize_create-layout name) (send_message-frame Opcode.create (name_layout name))

  pub send_join-frame :
      (m : JoinMessage)
      → send_join transmit m.session_id m.name
        ≡ some (passed (transmit (frame Opcode.join (join_layout m))))
  unfolding send_join Option.bind
  send_join-frame m = rw (serialize_join-layout m) (send_message-frame Opcode.join (join_layout m))

  pub send_leave-frame : send_leave transmit ≡ some (passed (transmit (frame Opcode.leave [])))
  unfolding send_leave
  send_leave-frame = send_message-frame Opcode.leave []

  pub send_close_session-frame :
      send_close_session transmit ≡ some (passed (transmit (frame Opcode.close_session [])))
  unfolding send_close_session
  send_close_session-frame = send_message-frame Opcode.close_session []

  pub send_canvas_clear-frame :
      send_canvas_clear transmit ≡ some (passed (transmit (frame Opcode.canvas_clear [])))
  unfolding send_canvas_clear
  send_canvas_clear-frame = send_message-frame Opcode.canvas_clear []

  pub request_canvas_state-frame :
      (c : Client)
      → in_session c ≡ true
      → request_canvas_state transmit c
        ≡ some (passed (transmit (frame Opcode.canvas_state_request [])))
  unfolding request_canvas_state
  request_canvas_state-frame c h = rw h (send_message-frame Opcode.canvas_state_request [])

  pub send_draw-frame :
      (c : Client) (op : DrawOperation)
      → IsU16 (length op.points)
      → send_draw transmit c op
        ≡ some (
            passed (
              transmit
                (frame Opcode.draw (operation_layout (record op { member_id = c.member_id })))))
  unfolding send_draw Option.bind
  send_draw-frame c op h =
      let op' : DrawOperation = record op { member_id = c.member_id } in
      rw (serialize_draw_operation-layout op' h)
        (send_message-frame Opcode.draw (operation_layout op'))

  pub send_draw_raw-frame :
      (op : DrawOperation)
      → IsU16 (length op.points)
      → send_draw_raw transmit op
        ≡ some (passed (transmit (frame Opcode.draw (operation_layout op))))
  unfolding send_draw_raw Option.bind
  send_draw_raw-frame op h =
      rw (serialize_draw_operation-layout op h)
        (send_message-frame Opcode.draw (operation_layout op))

  pub send_canvas_state-frame :
      (c : Client) (ops : List DrawOperation)
      → c.host ≡ true
      → All IsStorable ops
      → send_canvas_state transmit c ops
        ≡ some (passed (transmit (frame Opcode.canvas_state (canvas_state_layout ops))))
  unfolding send_canvas_state Option.bind
  send_canvas_state-frame c ops h v =
      rw (h, serialize_canvas_state-layout ops v)
        (send_message-frame Opcode.canvas_state (canvas_state_layout ops))

  pub request_canvas_state-total :
      (c : Client) → (r : Result Bool) × (request_canvas_state transmit c ≡ some r)
  unfolding request_canvas_state
  request_canvas_state-total c = elim (Bool-cases (in_session c)) [
    | inl e ↦ rw e (_, send_message-frame Opcode.canvas_state_request [])
    | inr e ↦ rw e (_, refl)
  ]

  pub send_canvas_state-total :
      (c : Client) (ops : List DrawOperation)
      → All IsStorable ops
      → (r : Result Bool) × (send_canvas_state transmit c ops ≡ some r)
  unfolding send_canvas_state Option.bind
  send_canvas_state-total c ops v = elim (Bool-cases c.host) [
    | inl e ↦ (_, send_canvas_state-frame c ops e v)
    | inr e ↦ rw e (_, refl)
  ]
