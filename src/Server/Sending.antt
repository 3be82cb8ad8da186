-- ===== src/Server/Sending.antt =====
-- The functions of server.cpp that send: sendAck, sendError, sendNotification, and the loop over
-- members that handle_leave and the dispatch of CANVAS_CLEAR write out.
use sketch_sync.Prelude.{ℕ, none, some, List, [], ◌∷◌, length, ◌==◌, if◌then◌else◌}
use sketch_sync.Bytes.{Bytes, u32}
use sketch_sync.Assoc.{keys}
use sketch_sync.Protocol.{Message, serialize_message}
use sketch_sync.Protocol.Opcode
use sketch_sync.Protocol.Replies.{serialize_ack, serialize_error}
use sketch_sync.Server.State.{Session, Step, pure, ◌>>=◌, ◌>>◌, lift, gets, send, find_connection}

-- The message that the source builds around a payload at each place that sends.
abbrev pub message : ℕ → Bytes → Message
message opcode payload = record {
  header = record { opcode = opcode; flags = 0; length = u32 (length payload) };
  payload = payload;
}

unfoldable pub send_ack : ℕ → ℕ → Bytes → Step (Unit {0})
send_ack conn ack_code message_text = do
  payload ← lift (serialize_ack (record { ack_code = ack_code; message = message_text }))
  bytes ← lift (serialize_message (message Opcode.ack payload))
  send conn bytes

unfoldable pub send_error : ℕ → ℕ → Bytes → Step (Unit {0})
send_error conn err_code message_text = do
  payload ← lift (serialize_error (record { err_code = err_code; err_message = message_text }))
  bytes ← lift (serialize_message (message Opcode.error_msg payload))
  send conn bytes

-- for (const auto id : ids) if (auto* conn = find_connection(id)) conn->send(buf);
unfoldable pub send_to : List ℕ → Bytes → Step (Unit {0})
send_to [] bytes = pure tt
send_to (id ∷ ids) bytes = do
  conn ← gets (find_connection id)
  (elim conn [ none ↦ pure tt | some c ↦ send c bytes ]) >> send_to ids bytes

-- The ids of a session's members but for one.
unfoldable pub others : ℕ → List ℕ → List ℕ
others exclude_id [] = []
others exclude_id (id ∷ ids) =
    if id == exclude_id then others exclude_id ids else id ∷ others exclude_id ids

unfoldable pub send_notification : Session → ℕ → Bytes → ℕ → Step (Unit {0})
send_notification sess opcode payload exclude_id = do
  bytes ← lift (serialize_message (message opcode payload))
  send_to (others exclude_id (keys sess.members)) bytes
