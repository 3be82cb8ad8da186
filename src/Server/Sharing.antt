-- ===== src/Server/Sharing.antt =====
-- The canvas state, the request for it and a clearing: who receives them, and who is refused.
use sketch_sync.Prelude.{
  All, List, none, Bool-cases, Option-cases, inl, inr, if◌then◌else◌, length, ℕ, ◌≡◌, refl, true,
  false, some, [], ◌∷◌,
}
use sketch_sync.Results.{text}
use sketch_sync.Bytes.{IsU32, Bytes, u8}
use sketch_sync.Assoc.{lookup, keys, erase}
use sketch_sync.Protocol.Opcode
use sketch_sync.Protocol.Codes
use sketch_sync.Protocol.Frame.{serialize_message-layout}
use sketch_sync.DrawOperation.{DrawOperation}
use sketch_sync.Protocol.CanvasState.RoundTrip.{
  IsStorable, canvas_state_layout, parse_canvas_state-layout,
}
use sketch_sync.Server.State.{Session, ClientContext, Server, ◌>>=◌, send, is_host}
use sketch_sync.Server.Sending.{message}
use sketch_sync.Server.Handlers.{
  handle_canvas_state, handle_canvas_state_request, handle_canvas_clear,
}
use sketch_sync.Server.Frames.{
  frame, with_sent, deliveries, send_error-sent, send_to-sent, send_notification-sent,
}
use sketch_sync.Server.Draw.{InSession, InSession-entered, with_session-found}

abbrev pub host_only_frame : Bytes
host_only_frame =
    frame Opcode.error_msg (u8 Codes.unknown ∷ text "only the host can send canvas state")

abbrev pub no_host_frame : Bytes
no_host_frame = frame Opcode.error_msg (u8 Codes.unknown ∷ text "host is not connected")

handle_canvas_state-member :
    (payload : Bytes) (ctx : ClientContext) (conn : ℕ) (s : Server) (sess : Session)
    → InSession ctx s sess
    → is_host sess ctx.member_id ≡ false
    → handle_canvas_state payload ctx conn s ≡ some (tt, with_sent s ((conn, host_only_frame) ∷ []))
unfolding handle_canvas_state
handle_canvas_state-member payload ctx conn s sess h member =
    rw (InSession-entered h, with_session-found ctx conn _ s sess h, member)
      (send_error-sent conn Codes.unknown (text "only the host can send canvas state") s)

handle_canvas_state-host :
    (ops : List DrawOperation) (ctx : ClientContext) (conn : ℕ) (s : Server) (sess : Session)
    → InSession ctx s sess
    → All IsStorable ops
    → IsU32 (length ops)
    → is_host sess ctx.member_id ≡ true
    → handle_canvas_state (canvas_state_layout ops) ctx conn s
      ≡ some (
        tt,
        with_sent s (
            deliveries s.connections
              (keys (erase ctx.member_id sess.members))
              (frame Opcode.canvas_state (canvas_state_layout ops))),
      )
unfolding handle_canvas_state ◌>>=◌
handle_canvas_state-host ops ctx conn s sess h v k host =
    rw
      (
        InSession-entered h,
        with_session-found ctx conn _ s sess h,
        host,
        ◌>>=◌,
        parse_canvas_state-layout ops v k,
      )
      (send_notification-sent sess Opcode.canvas_state (canvas_state_layout ops) ctx.member_id s)

-- A canvas state of fewer than 2^32 operations that can be written: from the host it goes unchanged to
-- every other member of the session that has a connection; from any other member it goes to nobody, and
-- the sender gets an error. Nothing else of the server changes.
pub handle_canvas_state-sent :
    (ops : List DrawOperation) (ctx : ClientContext) (conn : ℕ) (s : Server) (sess : Session)
    → InSession ctx s sess
    → All IsStorable ops
    → IsU32 (length ops)
    → handle_canvas_state (canvas_state_layout ops) ctx conn s
      ≡ some (
        tt,
        with_sent s (
            if is_host sess ctx.member_id
            then deliveries s.connections
                (keys (erase ctx.member_id sess.members))
                (frame Opcode.canvas_state (canvas_state_layout ops))
            else (conn, host_only_frame) ∷ []),
      )
handle_canvas_state-sent ops ctx conn s sess h v k =
    elim (Bool-cases (is_host sess ctx.member_id)) [
      | inl host ↦ rw host (handle_canvas_state-host ops ctx conn s sess h v k host)
      | inr member ↦
          rw member (handle_canvas_state-member (canvas_state_layout ops) ctx conn s sess h member)
    ]

-- A request for the canvas state, from any member of a session, goes as one frame to the host's
-- connection; when the host has none, the sender gets an error. Nothing else of the server changes.
pub handle_canvas_state_request-sent :
    (ctx : ClientContext) (conn : ℕ) (s : Server) (sess : Session)
    → InSession ctx s sess
    → handle_canvas_state_request ctx conn s
      ≡ some (
        tt,
        with_sent s (
            (elim (lookup sess.host_id s.connections) [
              | some c ↦ (c, frame Opcode.canvas_state_request [])
              | none ↦ (conn, no_host_frame)
            ])
            ∷ []),
      )
unfolding handle_canvas_state_request send ◌>>=◌
handle_canvas_state_request-sent ctx conn s sess h =
    elim (Option-cases (lookup sess.host_id s.connections)) [
      | inl e ↦
          rw (InSession-entered h, with_session-found ctx conn _ s sess h, e, ◌>>=◌)
            (send_error-sent conn Codes.unknown (text "host is not connected") s)
      | inr (c, e) ↦
          rw
            (
              InSession-entered h,
              with_session-found ctx conn _ s sess h,
              e,
              ◌>>=◌,
              serialize_message-layout (message Opcode.canvas_state_request []),
            )
            refl
    ]

-- A CANVAS_CLEAR from any member, the host or not, goes to all members that have a connection, the
-- sender included.
pub handle_canvas_clear-sent :
    (ctx : ClientContext) (conn : ℕ) (s : Server) (sess : Session)
    → InSession ctx s sess
    → handle_canvas_clear ctx conn s
      ≡ some (
        tt,
        with_sent s (deliveries s.connections (keys sess.members) (frame Opcode.canvas_clear [])),
      )
unfolding handle_canvas_clear ◌>>=◌
handle_canvas_clear-sent ctx conn s sess h =
    rw
      (
        InSession-entered h,
        with_session-found ctx conn _ s sess h,
        serialize_message-layout (message Opcode.canvas_clear []),
      )
      (send_to-sent (keys sess.members) (frame Opcode.canvas_clear []) s)
