-- ===== src/Server/Frames.antt =====
-- What the sending functions of the server put on the wire, and to whom.
use sketch_sync.Prelude.{
  ℕ, ◌≡◌, refl, ap, ◌∙◌, sym, some, none, List, [], ◌∷◌, ◌++◌, append-nil, append_assoc,
  Option-cases, inl, inr, arith,
}
use sketch_sync.Bytes.{Bytes, u8}
use sketch_sync.Assoc.{Assoc, keys, lookup, erase}
use sketch_sync.Protocol.Opcode
use sketch_sync.Protocol.Frame.{header_layout, serialize_message-layout}
use sketch_sync.Protocol.Replies.RoundTrip.{serialize_ack-layout, serialize_error-layout}
use sketch_sync.Server.State.{Session, Server, ◌>>=◌, send}
use sketch_sync.Server.Sending.{message, send_ack, send_error, send_to, others, send_notification}

-- A whole frame around a payload.
abbrev pub frame : ℕ → Bytes → Bytes
frame opcode payload = header_layout ((message opcode payload).header) ++ payload

-- The state with more frames sent.
abbrev pub with_sent : Server → List (ℕ × Bytes) → Server
with_sent s frames = record s { sent = s.sent ++ frames }

pub send_ack-sent :
    (conn code : ℕ) (words : Bytes) (s : Server)
    → send_ack conn code words s
      ≡ some (tt, with_sent s ((conn, frame Opcode.ack (u8 code ∷ words)) ∷ []))
unfolding send_ack send ◌>>=◌
send_ack-sent conn code words s =
    rw
      (
        serialize_ack-layout (record { ack_code = code; message = words }),
        ◌>>=◌,
        serialize_message-layout (message Opcode.ack (u8 code ∷ words)),
        ◌>>=◌,
        send,
      )
      refl

pub send_error-sent :
    (conn code : ℕ) (words : Bytes) (s : Server)
    → send_error conn code words s
      ≡ some (tt, with_sent s ((conn, frame Opcode.error_msg (u8 code ∷ words)) ∷ []))
unfolding send_error send ◌>>=◌
send_error-sent conn code words s =
    rw
      (
        serialize_error-layout (record { err_code = code; err_message = words }),
        ◌>>=◌,
        serialize_message-layout (message Opcode.error_msg (u8 code ∷ words)),
        ◌>>=◌,
        send,
      )
      refl

-- One frame to every id of the list that has a connection.
pub deliveries : Assoc ℕ → List ℕ → Bytes → List (ℕ × Bytes)
deliveries connections [] bytes = []
deliveries connections (id ∷ ids) bytes =
    (elim (lookup id connections) [ none ↦ [] | some c ↦ (c, bytes) ∷ [] ])
    ++ deliveries connections ids bytes

pub send_to-sent :
    (ids : List ℕ) (bytes : Bytes) (s : Server)
    → send_to ids bytes s ≡ some (tt, with_sent s (deliveries s.connections ids bytes))
unfolding send_to deliveries send ◌>>=◌
send_to-sent [] bytes s = ap (λ l. some (tt, record s { sent = l })) (sym (append-nil s.sent))
send_to-sent (id ∷ ids) bytes s = elim (Option-cases (lookup id s.connections)) [
  | inl e ↦ rw e (send_to-sent ids bytes s)
  | inr (c, e) ↦ rw e (
      send_to-sent ids bytes (with_sent s ((c, bytes) ∷ []))
      ∙ ap (λ l. some (tt, record s { sent = l }))
          (append_assoc s.sent ((c, bytes) ∷ []) (deliveries s.connections ids bytes)))
]

others-keys :
    {V : Type 0} (exclude_id : ℕ) (m : Assoc V)
    → others exclude_id (keys m) ≡ keys (erase exclude_id m)
unfolding others erase
others-keys exclude_id [] = refl
others-keys exclude_id ((id, v) ∷ m) = ground (arith, others-keys exclude_id m)

pub send_notification-sent :
    (sess : Session) (opcode : ℕ) (payload : Bytes) (exclude_id : ℕ) (s : Server)
    → send_notification sess opcode payload exclude_id s
      ≡ some (
        tt,
        with_sent s (
            deliveries s.connections (keys (erase exclude_id sess.members)) (frame opcode payload)),
      )
unfolding send_notification ◌>>=◌
send_notification-sent sess opcode payload exclude_id s =
    rw
      (serialize_message-layout (message opcode payload), sym (others-keys exclude_id sess.members))
      (send_to-sent (others exclude_id (keys sess.members)) (frame opcode payload) s)
