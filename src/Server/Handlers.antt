-- ===== src/Server/Handlers.antt =====
-- The handlers of server.cpp that dispatch calls. A handler of a context returns the new context.
-- A refusal is a result whose value is false and whose error is `none`, as the source writes it.
use sketch_sync.Prelude.{
  ℕ, Bool, true, false, not, ◌||◌, Option, none, some, List, [], ◌∷◌, ◌==◌, if◌then◌else◌,
}
use sketch_sync.Results.{Result, Error, ok, is_ok, text}
use sketch_sync.Bytes.{Bytes}
use sketch_sync.Assoc.{lookup, assign, emplace, erase, keys}
use sketch_sync.Protocol.{serialize_message}
use sketch_sync.Protocol.Opcode
use sketch_sync.Protocol.Codes
use sketch_sync.Protocol.Replies.{
  serialize_member_joined, serialize_member_left, serialize_session_closed,
}
use sketch_sync.Protocol.CanvasState.{parse_canvas_state}
use sketch_sync.DrawOperation.{
  DrawOperation, serialize_draw_operation, parse_draw_operation, validate_draw_operation,
}
use sketch_sync.Server.State.{
  Member, MemberRole, Session, opened, is_open, is_host, ClientContext, Server, Step, pure, ◌>>=◌,
  ◌>>◌, lift, gets, modify, take_member_id, send, find_connection,
}
use sketch_sync.Server.Sending.{message, send_error, send_to, send_notification}

abbrev pub refuse : Bytes → Result Bool
refuse reason = record { value = false; err = Error.none; message = reason }

abbrev pub is_empty {ℓ} : {A : Type ℓ} → List A → Bool
is_empty [] = true
is_empty (x ∷ xs) = false

abbrev pub find_session : ℕ → Server → Option Session
find_session session_id s = lookup session_id s.sessions

-- A change of a session through the iterator that found it.
abbrev pub put_session : ℕ → Session → Step (Unit {0})
put_session session_id sess = modify λ s. record s { sessions = assign session_id sess s.sessions }

abbrev pub erase_session : ℕ → Step (Unit {0})
erase_session session_id = modify λ s. record s { sessions = erase session_id s.sessions }

-- The session that handle_create fills in, with its host as the only member.
abbrev pub new_session : ℕ → ℕ → Bytes → Session
new_session session_id member_id name = record {
  session_id = session_id;
  host_id = member_id;
  state = opened;
  members =
      (
        member_id,
        record { id = member_id; name = name; role = MemberRole.host; session_id = session_id },
      )
      ∷ [];
}

unfoldable pub handle_create : ℕ → Bytes → ClientContext → Step (Result Bool × ClientContext)
handle_create session_id name ctx = do
  member_id ← take_member_id
  found ← gets (find_session session_id)
  elim found [
    | some old ↦ pure (refuse (text "session ID already exists"), ctx)
    | none ↦ do
      put_session session_id (new_session session_id member_id name)
      pure (ok true, record { member_id = member_id; session_id = session_id })
  ]

-- The session with one more participant.
abbrev pub joined : Session → ℕ → ℕ → Bytes → Session
joined sess session_id member_id name = record sess {
  members =
      emplace member_id
        (record {
          id = member_id;
          name = name;
          role = MemberRole.participant;
          session_id = session_id;
        })
        sess.members;
}

unfoldable pub handle_join : ℕ → Bytes → ClientContext → Step (Result Bool × ClientContext)
handle_join session_id name ctx = do
  member_id ← take_member_id
  found ← gets (find_session session_id)
  elim found [
    | none ↦ pure (refuse (text "no such session"), ctx)
    | some sess ↦
        if not (is_open sess.state) then pure (refuse (text "session is not open"), ctx) else do
          put_session session_id (joined sess session_id member_id name)
          payload ← lift (
              serialize_member_joined
                (record { notif_code = Codes.member_joined; member_id = member_id; name = name }))
          send_notification (joined sess session_id member_id name) Opcode.notification payload
              member_id
          pure (ok true, record { member_id = member_id; session_id = session_id })
  ]

-- The name of a member that may be missing.
abbrev pub name_of : Option Member → Bytes
name_of none = []
name_of (some m) = m.name

-- The session without a member.
abbrev pub without : Session → ℕ → Session
without sess member_id = record sess { members = erase member_id sess.members }

abbrev pub no_context : ClientContext
no_context = record { member_id = 0; session_id = 0 }

-- The branch of handle_leave that closes the session.
unfoldable pub close_session : Session → ClientContext → Step (Unit {0})
close_session sess ctx = do
  payload ← lift (serialize_session_closed Codes.session_closed)
  bytes ← lift (serialize_message (message Opcode.notification payload))
  send_to (keys sess.members) bytes
  erase_session ctx.session_id

-- The end of handle_leave: the session is closed, or the members that stay are told.
unfoldable pub finish_leave : Session → Bool → ClientContext → Bytes → Step (Unit {0})
finish_leave sess was_host ctx leaving_name =
    if was_host || is_empty sess.members then close_session sess ctx else do
      put_session ctx.session_id sess
      payload ← lift (
          serialize_member_left (record {
            notif_code = Codes.member_left;
            member_id = ctx.member_id;
            name = leaving_name;
          }))
      send_notification sess Opcode.notification payload 0

unfoldable pub handle_leave : ClientContext → Step (Result Bool × ClientContext)
handle_leave ctx = if ctx.member_id == 0 then pure (refuse (text "not in a session"), ctx) else do
  found ← gets (find_session ctx.session_id)
  elim found [
    | none ↦ pure (refuse (text "session not found"), ctx)
    | some sess ↦ do
      finish_leave (without sess ctx.member_id) (is_host sess ctx.member_id) ctx
          (name_of (lookup ctx.member_id sess.members))
      pure (ok true, no_context)
  ]

unfoldable pub handle_close_session : ClientContext → Step (Result Bool × ClientContext)
handle_close_session ctx =
    if ctx.member_id == 0 then pure (refuse (text "not in a session"), ctx) else do
      found ← gets (find_session ctx.session_id)
      elim found [
        | none ↦ pure (refuse (text "session not found"), ctx)
        | some sess ↦
            if not (is_host sess ctx.member_id)
            then pure (refuse (text "only the host can close the session"), ctx)
            else handle_leave ctx
      ]

-- The tests that four handlers begin with: a context, and a session that it names.
unfoldable pub with_session : ClientContext → ℕ → (Session → Step (Unit {0})) → Step (Unit {0})
with_session ctx conn body = do
  found ← gets (find_session ctx.session_id)
  elim found [
    | none ↦ send_error conn Codes.unknown (text "session not found")
    | some sess ↦ body sess
  ]

abbrev pub not_in_session : ClientContext → Bool
not_in_session ctx = ctx.member_id == 0 || ctx.session_id == 0

unfoldable pub handle_canvas_state_request : ClientContext → ℕ → Step (Unit {0})
handle_canvas_state_request ctx conn =
    if not_in_session ctx
    then send_error conn Codes.unknown (text "not in a session")
    else with_session ctx conn λ sess. do
      host_conn ← gets (find_connection sess.host_id)
      elim host_conn [
        | some c ↦ do
          bytes ← lift (serialize_message (message Opcode.canvas_state_request []))
          send c bytes
        | none ↦ send_error conn Codes.unknown (text "host is not connected")
      ]

unfoldable pub handle_canvas_state : Bytes → ClientContext → ℕ → Step (Unit {0})
handle_canvas_state payload ctx conn =
    if not_in_session ctx
    then send_error conn Codes.unknown (text "not in a session")
    else with_session ctx conn λ sess.
      if not (is_host sess ctx.member_id)
      then send_error conn Codes.unknown (text "only the host can send canvas state")
      else do
        state_res ← lift (parse_canvas_state payload)
        if not (is_ok state_res)
            then send_error conn Codes.unknown state_res.message
            else send_notification sess Opcode.canvas_state payload ctx.member_id

-- handle_draw for a member that is not the host: the operation goes to the host alone, under the
-- sender's id and with no number.
unfoldable pub forward_draw : DrawOperation → Session → ℕ → Step (Unit {0})
forward_draw op sess conn =
    let validation = validate_draw_operation op false in
    if not (is_ok validation) then send_error conn Codes.unknown validation.message else do
      host_conn ← gets (find_connection sess.host_id)
      elim host_conn [
        | none ↦ send_error conn Codes.unknown (text "host is not connected")
        | some c ↦ do
          payload ← lift (serialize_draw_operation op)
          bytes ← lift (serialize_message (message Opcode.draw payload))
          send c bytes
      ]

-- handle_draw for the host: the operation goes to all other members.
unfoldable pub broadcast_draw : DrawOperation → Session → ClientContext → ℕ → Step (Unit {0})
broadcast_draw op sess ctx conn =
    let validation = validate_draw_operation op true in
    if not (is_ok validation) then send_error conn Codes.unknown validation.message else do
      payload ← lift (serialize_draw_operation op)
      send_notification sess Opcode.draw payload ctx.member_id

unfoldable pub handle_draw : Bytes → ClientContext → ℕ → Step (Unit {0})
handle_draw payload ctx conn =
    if not_in_session ctx then send_error conn Codes.unknown (text "not in a session") else do
      op_res ← lift (parse_draw_operation payload)
      if not (is_ok op_res)
          then send_error conn Codes.unknown op_res.message
          else with_session ctx conn λ sess.
            if not (is_host sess ctx.member_id)
            then forward_draw (record (op_res.value) { member_id = ctx.member_id; seq = 0 }) sess
                conn
            else broadcast_draw op_res.value sess ctx conn

unfoldable pub handle_canvas_clear : ClientContext → ℕ → Step (Unit {0})
handle_canvas_clear ctx conn =
    if not_in_session ctx
    then send_error conn Codes.unknown (text "not in a session")
    else with_session ctx conn λ sess. do
      bytes ← lift (serialize_message (message Opcode.canvas_clear []))
      send_to (keys sess.members) bytes
