-- ===== src/Server/Draw.antt =====
-- handle_draw: who receives a drawing operation, and under whose name.
use sketch_sync.Prelude.{ℕ, ◌≡◌, ◌≢◌, refl, true, false, some, [], ◌∷◌, arith}
use sketch_sync.Assoc.{lookup, keys, erase}
use sketch_sync.Protocol.Opcode
use sketch_sync.Protocol.Frame.{serialize_message-layout}
use sketch_sync.DrawOperation.{DrawOperation}
use sketch_sync.DrawOperation.Codec.{
  IsOperation, operation_layout, parse_draw_operation-layout, serialize_draw_operation-layout,
}
use sketch_sync.DrawOperation.Validity.{IsValid, validate_iff}
use sketch_sync.Server.State.{Session, ClientContext, Server, Step, ◌>>=◌, send, is_host}
use sketch_sync.Server.Sending.{message}
use sketch_sync.Server.Handlers.{
  not_in_session, with_session, forward_draw, broadcast_draw, handle_draw,
}
use sketch_sync.Server.Frames.{frame, with_sent, deliveries, send_notification-sent}

-- The context names a session of the server.
pub record InSession (ctx : ClientContext) (s : Server) (sess : Session) : Type 0 where
  pub member : ctx.member_id ≢ 0
  pub session : ctx.session_id ≢ 0
  pub found : lookup ctx.session_id s.sessions ≡ some sess

pub InSession-entered :
    {ctx : ClientContext} {s : Server} {sess : Session}
    → InSession ctx s sess
    → not_in_session ctx ≡ false
InSession-entered h = ground (arith, h.member, h.session)

pub with_session-found :
    (ctx : ClientContext) (conn : ℕ) (body : Session → Step (Unit {0})) (s : Server)
    (sess : Session)
    → InSession ctx s sess
    → with_session ctx conn body s ≡ body sess s
unfolding with_session ◌>>=◌
with_session-found ctx conn body s sess h = rw (h.found, with_session, ◌>>=◌) refl

forward_draw-sent :
    (op : DrawOperation) (sess : Session) (conn host_conn : ℕ) (s : Server)
    → IsValid op false
    → lookup sess.host_id s.connections ≡ some host_conn
    → forward_draw op sess conn s
      ≡ some (tt, with_sent s ((host_conn, frame Opcode.draw (operation_layout op)) ∷ []))
unfolding forward_draw send ◌>>=◌
forward_draw-sent op sess conn host_conn s v e =
    rw
      (
        (validate_iff op false).1 v,
        e,
        ◌>>=◌,
        serialize_draw_operation-layout op (omega (arith, v.bounded)),
        serialize_message-layout (message Opcode.draw (operation_layout op)),
      )
      refl

broadcast_draw-sent :
    (op : DrawOperation) (sess : Session) (ctx : ClientContext) (conn : ℕ) (s : Server)
    → IsValid op true
    → broadcast_draw op sess ctx conn s
      ≡ some (
        tt,
        with_sent s (
            deliveries s.connections
              (keys (erase ctx.member_id sess.members))
              (frame Opcode.draw (operation_layout op))),
      )
unfolding broadcast_draw ◌>>=◌
broadcast_draw-sent op sess ctx conn s v =
    rw ((validate_iff op true).1 v, serialize_draw_operation-layout op (omega (arith, v.bounded)))
      (send_notification-sent sess Opcode.draw (operation_layout op) ctx.member_id s)

-- The operation as the server passes it on for a member that is not the host.
abbrev pub claimed : DrawOperation → ℕ → DrawOperation
claimed op member_id = record op { member_id = member_id; seq = 0 }

-- A DRAW from a member that is not the host, while the host has a connection, with an operation that can
-- be written and is valid once it carries the sender's id and the number 0, sends one frame: that
-- operation, under that id and number, to the host's connection. Nothing else of the server changes.
pub handle_draw-member :
    (op : DrawOperation) (ctx : ClientContext) (conn host_conn : ℕ) (s : Server) (sess : Session)
    → InSession ctx s sess
    → is_host sess ctx.member_id ≡ false
    → IsOperation op
    → IsValid (claimed op ctx.member_id) false
    → lookup sess.host_id s.connections ≡ some host_conn
    → handle_draw (operation_layout op) ctx conn s
      ≡ some (
        tt,
        with_sent s
            ((host_conn, frame Opcode.draw (operation_layout (claimed op ctx.member_id))) ∷ []),
      )
unfolding handle_draw ◌>>=◌
handle_draw-member op ctx conn host_conn s sess h member o v e =
    rw
      (
        InSession-entered h,
        parse_draw_operation-layout op o (omega (arith, v.bounded)),
        with_session-found ctx conn _ s sess h,
        member,
      )
      (forward_draw-sent (claimed op ctx.member_id) sess conn host_conn s v e)

-- A DRAW from the host, with an operation that can be written and is valid with its number, sends it
-- unchanged to every member of the session but the host that has a connection, and changes nothing else.
pub handle_draw-host :
    (op : DrawOperation) (ctx : ClientContext) (conn : ℕ) (s : Server) (sess : Session)
    → InSession ctx s sess
    → is_host sess ctx.member_id ≡ true
    → IsOperation op
    → IsValid op true
    → handle_draw (operation_layout op) ctx conn s
      ≡ some (
        tt,
        with_sent s (
            deliveries s.connections
              (keys (erase ctx.member_id sess.members))
              (frame Opcode.draw (operation_layout op))),
      )
unfolding handle_draw ◌>>=◌
handle_draw-host op ctx conn s sess h host o v =
    rw
      (
        InSession-entered h,
        parse_draw_operation-layout op o (omega (arith, v.bounded)),
        with_session-found ctx conn _ s sess h,
        host,
      )
      (broadcast_draw-sent op sess ctx conn s v)
