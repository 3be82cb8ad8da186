-- ===== src/Client.antt =====
-- engine/session/sessionClient.{h,cpp}: what a client sends and how it takes a message apart. What the
-- connection makes of the bytes that it is given (clientConnection::send) is `transmit`; what the socket
-- receives is an argument.
pub mod Frames
pub mod Delivery
use sketch_sync.Prelude.{
  ℕ, Bool, true, false, not, Option, some, none, List, [], ◌∷◌, ◌==◌, ltb, if◌then◌else◌, length,
  drop,
}
use mathlib.Core.Option
use sketch_sync.Results.{Result, Error, ok, fail, refail, is_ok, text}
use sketch_sync.Bytes.{Bytes}
use sketch_sync.DrawOperation.{DrawOperation, serialize_draw_operation}
use sketch_sync.Protocol.{
  Header, Message, empty_header, header_size, parse_header, serialize_message,
}
use sketch_sync.Protocol.Opcode
use sketch_sync.Protocol.Session.{serialize_create, serialize_join}
use sketch_sync.Protocol.CanvasState.{serialize_canvas_state}
use sketch_sync.Server.Sending.{message}

pub record Client : Type 0 where
  pub member_id : ℕ
  pub session_id : ℕ
  pub host : Bool

abbrev pub in_session : Client → Bool
in_session c = not (c.session_id == 0)

abbrev pub mark_session_closed : Client → Client
mark_session_closed c = record { member_id = 0; session_id = 0; host = false }

abbrev pub set_session_info : ℕ → ℕ → Bool → Client → Client
set_session_info member_id session_id host c = record {
  member_id = member_id;
  session_id = session_id;
  host = host;
}

-- How each sender passes on what the connection answered.
abbrev pub passed : Result ℕ → Result Bool
passed r = if not (is_ok r) then refail false r else ok true

module _ (transmit : Bytes → Result ℕ) where
  send_message : Message → Option (Result ℕ)
  send_message msg = Option.map transmit (serialize_message msg)

  pub send_create : Bytes → Option (Result Bool)
  send_create name =
      Option.bind (serialize_create name)
        λ payload. Option.map passed (send_message (message Opcode.create payload))

  pub send_join : ℕ → Bytes → Option (Result Bool)
  send_join session_id name =
      Option.bind (serialize_join (record { session_id = session_id; name = name }))
        λ payload. Option.map passed (send_message (message Opcode.join payload))

  pub send_leave : Option (Result Bool)
  send_leave = Option.map passed (send_message (message Opcode.leave []))

  pub send_close_session : Option (Result Bool)
  send_close_session = Option.map passed (send_message (message Opcode.close_session []))

  pub send_canvas_clear : Option (Result Bool)
  send_canvas_clear = Option.map passed (send_message (message Opcode.canvas_clear []))

  pub request_canvas_state : Client → Option (Result Bool)
  request_canvas_state c =
      if not (in_session c)
      then some (fail false Error.rejected (text "not in a session"))
      else Option.map passed (send_message (message Opcode.canvas_state_request []))

  pub send_draw_raw : DrawOperation → Option (Result Bool)
  send_draw_raw op =
      Option.bind (serialize_draw_operation op)
        λ payload. Option.map passed (send_message (message Opcode.draw payload))

  pub send_draw : Client → DrawOperation → Option (Result Bool)
  send_draw c op =
      Option.bind (serialize_draw_operation (record op { member_id = c.member_id }))
        λ payload. Option.map passed (send_message (message Opcode.draw payload))

  pub send_canvas_state : Client → List DrawOperation → Option (Result Bool)
  send_canvas_state c operations =
      if not c.host
      then some (fail false Error.rejected (text "only the host can send canvas state"))
      else Option.bind (serialize_canvas_state operations)
          λ payload. Option.map passed (send_message (message Opcode.canvas_state payload))

abbrev no_message : Message
no_message = record { header = empty_header; payload = [] }

-- receive_msg over TCP: the result of the read of a header, and of the read of so many bytes.
pub receive_tcp : Result Bytes → (ℕ → Result Bytes) → Option (Result Message)
receive_tcp hdr_res receive =
    if not (is_ok hdr_res)
    then some (refail no_message hdr_res)
    else Option.bind (parse_header hdr_res.value) λ parsed.
      if not (is_ok parsed)
      then some (refail no_message parsed)
      else if ltb 0 parsed.value.length
      then (let pl = receive parsed.value.length in
          if not (is_ok pl)
          then some (refail no_message pl)
          else some (ok (record { header = parsed.value; payload = pl.value })))
      else some (ok (record { header = parsed.value; payload = [] }))

-- receive_msg over a websocket: the result of the read of one frame.
pub receive_ws : Result Bytes → Option (Result Message)
receive_ws res =
    if not (is_ok res)
    then some (refail no_message res)
    else Option.bind (parse_header res.value) λ parsed.
      if not (is_ok parsed)
      then some (refail no_message parsed)
      else some (
          ok (record {
            header = parsed.value;
            payload = if ltb header_size (length res.value) then drop header_size res.value else [];
          }))
