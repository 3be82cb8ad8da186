-- ===== src/Server/Dispatch.antt =====
-- server::dispatch, and what handle_tcp_client and handle_ws_client do when a connection ends.
use sketch_sync.Prelude.{ℕ, not, Option, [], ◌∷◌, ◌==◌, if◌then◌else◌, none, some}
use sketch_sync.Results.{is_ok, text}
use sketch_sync.Bytes.{Bytes}
use sketch_sync.Assoc.{Assoc}
use sketch_sync.Protocol.{Header, serialize_message}
use sketch_sync.Protocol.Opcode
use sketch_sync.Protocol.Codes
use sketch_sync.Protocol.Session.{
  parse_create, parse_join, serialize_create_ack, serialize_join_ack,
}
use sketch_sync.Protocol.Replies.{serialize_member_joined}
use sketch_sync.Server.State.{
  Member, Session, ClientContext, Step, pure, ◌>>=◌, ◌>>◌, lift, gets, take_session_id, send,
  register_connection, unregister_connection,
}
use sketch_sync.Server.Sending.{message, send_ack, send_error}
use sketch_sync.Server.Handlers.{
  find_session, handle_create, handle_join, handle_leave, handle_close_session, handle_canvas_state,
  handle_canvas_state_request, handle_canvas_clear, handle_draw,
}

-- case Opcode::CREATE
unfoldable pub on_create : Bytes → ClientContext → ℕ → Step ClientContext
on_create payload ctx conn = do
  parsed ← lift (parse_create payload)
  if not (is_ok parsed)
      then (do send_error conn Codes.create_failed parsed.message; pure ctx)
      else do
        session_id ← take_session_id
        (result, ctx') ← handle_create session_id parsed.value ctx
        if not (is_ok result)
            then (do send_error conn Codes.create_failed result.message; pure ctx')
            else do
              register_connection ctx'.member_id conn
              ack ← lift (
                  serialize_create_ack (record {
                    ack_code = Codes.create_ok;
                    session_id = ctx'.session_id;
                    member_id = ctx'.member_id;
                  }))
              bytes ← lift (serialize_message (message Opcode.ack ack))
              send conn bytes
              pure ctx'

-- The members of a session, for the client that joins it.
unfoldable pub members_of : Option Session → Assoc Member
members_of none = []
members_of (some sess) = sess.members

-- for (const auto& session_member : existing_members)
unfoldable pub send_members : Assoc Member → ℕ → Step (Unit {0})
send_members [] conn = pure tt
send_members ((id, m) ∷ ms) conn =
    (do
      payload ← lift (
          serialize_member_joined
            (record { notif_code = Codes.member_joined; member_id = m.id; name = m.name }))
      bytes ← lift (serialize_message (message Opcode.notification payload))
      send conn bytes)
    >> send_members ms conn

-- case Opcode::JOIN
unfoldable pub on_join : Bytes → ClientContext → ℕ → Step ClientContext
on_join payload ctx conn = do
  parsed ← lift (parse_join payload)
  if not (is_ok parsed) then (do send_error conn Codes.join_failed parsed.message; pure ctx) else do
    (result, ctx') ← handle_join parsed.value.session_id parsed.value.name ctx
    if not (is_ok result)
        then (do send_error conn Codes.join_failed result.message; pure ctx')
        else do
          register_connection ctx'.member_id conn
          found ← gets (find_session parsed.value.session_id)
          send_members (members_of found) conn
          ack ←
              lift (
                serialize_join_ack
                  (record { ack_code = Codes.join_ok; member_id = ctx'.member_id }))
          bytes ← lift (serialize_message (message Opcode.ack ack))
          send conn bytes
          pure ctx'

-- case Opcode::LEAVE
unfoldable pub on_leave : ClientContext → ℕ → Step ClientContext
on_leave ctx conn = do
  (result, ctx') ← handle_leave ctx
  if not (is_ok result)
      then (do send_error conn Codes.leave_failed result.message; pure ctx')
      else do send_ack conn Codes.ack_left (text "left session"); pure ctx'

-- case Opcode::CLOSE_SESSION
unfoldable pub on_close_session : ClientContext → ℕ → Step ClientContext
on_close_session ctx conn = do
  (result, ctx') ← handle_close_session ctx
  if not (is_ok result)
      then (do send_error conn Codes.leave_failed result.message; pure ctx')
      else do send_ack conn Codes.ack_ok (text "session closed"); pure ctx'

unfoldable pub dispatch : Header → Bytes → ClientContext → ℕ → Step ClientContext
dispatch header payload ctx conn =
    if header.opcode == Opcode.create
    then on_create payload ctx conn
    else if header.opcode == Opcode.join
    then on_join payload ctx conn
    else if header.opcode == Opcode.leave
    then on_leave ctx conn
    else if header.opcode == Opcode.close_session
    then on_close_session ctx conn
    else if header.opcode == Opcode.canvas_state_request
    then (do handle_canvas_state_request ctx conn; pure ctx)
    else if header.opcode == Opcode.canvas_state
    then (do handle_canvas_state payload ctx conn; pure ctx)
    else if header.opcode == Opcode.draw
    then (do handle_draw payload ctx conn; pure ctx)
    else if header.opcode == Opcode.canvas_clear
    then (do handle_canvas_clear ctx conn; pure ctx)
    else do send_error conn Codes.unknown (text "unknown opcode"); pure ctx

-- The end of handle_tcp_client and handle_ws_client, after the connection is closed.
unfoldable pub disconnect : ClientContext → Step (Unit {0})
disconnect ctx =
    if ctx.member_id == 0
    then pure tt
    else do unregister_connection ctx.member_id; left ← handle_leave ctx; pure tt
