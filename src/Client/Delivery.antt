-- ===== src/Client/Delivery.antt =====
-- From a client to the server and back: what the receiving side makes of what the other side sends.
use sketch_sync.Prelude.{
  ℕ, ◌+◌, ◌≡◌, refl, ap, ◌∙◌, Bool, true, Option, some, List, [], ◌∷◌, ◌==◌, if◌then◌else◌, length,
  take, drop, take_length, arith, ltb, Bool-cases, inl, inr, All, ◌<◌, ◌^◌,
}
use mathlib.Core.Option
use sketch_sync.Results.{Result, ok}
use sketch_sync.Bytes.{Bytes, IsByte, IsU16, IsU32, u32}
use sketch_sync.DrawOperation.{DrawOperation}
use sketch_sync.DrawOperation.Codec.{operation_layout, length-operation_layout}
use sketch_sync.Protocol.{Header, parse_header}
use sketch_sync.Protocol.Opcode
use sketch_sync.Protocol.Frame.{IsHeader, header_layout, parse_header-layout}
use sketch_sync.Protocol.Session.{JoinMessage}
use sketch_sync.Protocol.Session.RoundTrip.{name_layout, join_layout}
use sketch_sync.Protocol.CanvasState.RoundTrip.{IsStorable, canvas_state_layout}
use sketch_sync.Server.State.{ClientContext, Server, pure, ◌>>=◌}
use sketch_sync.Server.Sending.{message}
use sketch_sync.Server.Dispatch.{dispatch}
use sketch_sync.Server.Frames.{frame}
use sketch_sync.Server.Transport.{receive_frame, receive_stream}
use sketch_sync.Client.{
  Client, passed, send_create, send_join, send_leave, send_close_session, send_canvas_clear,
  send_draw, send_draw_raw, send_canvas_state, request_canvas_state, in_session, receive_ws,
  receive_tcp,
}
use sketch_sync.Client.Frames.{
  send_create-frame, send_join-frame, send_leave-frame, send_close_session-frame,
  send_canvas_clear-frame, request_canvas_state-frame, send_draw-frame, send_draw_raw-frame,
  send_canvas_state-frame,
}

abbrev frame_header : ℕ → Bytes → Header
frame_header opcode payload = (message opcode payload).header

frame_header-IsHeader :
    (opcode : ℕ) (payload : Bytes) → IsByte opcode → IsHeader (frame_header opcode payload)
frame_header-IsHeader opcode payload h = record {
  opcode = h;
  flags = omega arith;
  length = omega arith;
}

-- The server's websocket loop, given a frame whose length fits its field, dispatches the opcode and the
-- payload that the frame was built from.
receive_frame-dispatch :
    (opcode : ℕ) (payload : Bytes) (ctx : ClientContext) (conn : ℕ) (s : Server)
    → IsByte opcode
    → IsU32 (length payload)
    → receive_frame (ok (frame opcode payload)) ctx conn s
      ≡ (dispatch (frame_header opcode payload) payload ctx conn >>= λ ctx'. pure (some ctx')) s
unfolding receive_frame ◌>>=◌
receive_frame-dispatch opcode payload ctx conn s h k =
    rw
      (
        parse_header-layout (frame_header opcode payload) payload
            (frame_header-IsHeader opcode payload h),
        ◌>>=◌,
        size,
        whole,
      )
      refl
  where
    size : (length (frame opcode payload) == 6 + u32 (length payload)) ≡ true
    size = ground arith

    whole : take (u32 (length payload)) payload ≡ payload
    whole = ap (λ n. take n payload) (omega arith) ∙ take_length payload

ltb_rest :
    {A : Type 0} (n m : ℕ) (xs : List A) → m ≡ n + length xs → (if ltb n m then xs else []) ≡ xs
ltb_rest n m [] e = ground arith
ltb_rest n m (x ∷ xs) e = ground arith

-- The client's websocket takes any frame with a byte for its opcode apart into the opcode and the payload
-- that it was built from.
pub receive_ws-message :
    (opcode : ℕ) (payload : Bytes)
    → IsByte opcode
    → receive_ws (ok (frame opcode payload)) ≡ some (ok (message opcode payload))
unfolding receive_ws Option.bind
receive_ws-message opcode payload h =
    rw
      (parse_header-layout (frame_header opcode payload) payload
        (frame_header-IsHeader opcode payload h))
      (ap (λ p. some (ok (record { header = frame_header opcode payload; payload = p })))
        (ltb_rest 6 (length (frame opcode payload)) payload (omega arith)))

-- A sender hands the frame of this opcode and payload to the connection, whatever the connection makes of
-- it, and the server's websocket loop dispatches them.
abbrev pub Delivered : ((Bytes → Result ℕ) → Option (Result Bool)) → ℕ → Bytes → Type 0
Delivered send opcode payload =
    ((transmit : Bytes → Result ℕ)
      → send transmit ≡ some (passed (transmit (frame opcode payload))))
    × ((ctx : ClientContext) (conn : ℕ) (s : Server)
        → receive_frame (ok (frame opcode payload)) ctx conn s
          ≡ (dispatch (frame_header opcode payload) payload ctx conn >>= λ ctx'. pure (some ctx'))
              s)

-- The requests of a client, for a join of a name of fewer than 2^31 bytes and of a client that is in a
-- session, are each handed to the connection as one frame, and the server's websocket loop dispatches
-- that frame as the request.
pub requests-Delivered :
    (m : JoinMessage) (c : Client)
    → length m.name < 2 ^ 31
    → in_session c ≡ true
    → Delivered (λ t. send_create t m.name) Opcode.create (name_layout m.name)
      × Delivered (λ t. send_join t m.session_id m.name) Opcode.join (join_layout m)
      × Delivered send_leave Opcode.leave []
      × Delivered send_close_session Opcode.close_session []
      × Delivered send_canvas_clear Opcode.canvas_clear []
      × Delivered (λ t. request_canvas_state t c) Opcode.canvas_state_request []
requests-Delivered m c h k = (
  (
    λ t. send_create-frame t m.name,
    λ ctx conn s. receive_frame-dispatch Opcode.create _ ctx conn s (omega arith) (omega arith),
  ),
  (
    λ t. send_join-frame t m,
    λ ctx conn s. receive_frame-dispatch Opcode.join _ ctx conn s (omega arith) (omega arith),
  ),
  (
    send_leave-frame,
    λ ctx conn s. receive_frame-dispatch Opcode.leave _ ctx conn s (omega arith) (omega arith),
  ),
  (
    send_close_session-frame,
    λ ctx conn s.
        receive_frame-dispatch Opcode.close_session _ ctx conn s (omega arith) (omega arith),
  ),
  (
    send_canvas_clear-frame,
    λ ctx conn s.
        receive_frame-dispatch Opcode.canvas_clear _ ctx conn s (omega arith) (omega arith),
  ),
  (
    λ t. request_canvas_state-frame t c k,
    λ ctx conn s.
        receive_frame-dispatch Opcode.canvas_state_request _ ctx conn s (omega arith) (omega arith),
  ),
)

-- A drawing operation of at most 65535 points is handed to the connection as one frame, by send_draw
-- under the client's own id and by send_draw_raw as it is, and the server's websocket loop dispatches
-- that frame as a DRAW of that operation.
pub draw-Delivered :
    (c : Client) (op : DrawOperation)
    → IsU16 (length op.points)
    → Delivered
        (λ t. send_draw t c op)
        Opcode.draw
        (operation_layout (record op { member_id = c.member_id }))
      × Delivered (λ t. send_draw_raw t op) Opcode.draw (operation_layout op)
draw-Delivered c op h =
    let op' : DrawOperation = record op { member_id = c.member_id } in
    (
      (
        λ t. send_draw-frame t c op h,
        λ ctx conn s.
            receive_frame-dispatch Opcode.draw (operation_layout op') ctx conn s (omega arith)
              (omega (arith, length-operation_layout op')),
      ),
      (
        λ t. send_draw_raw-frame t op h,
        λ ctx conn s.
            receive_frame-dispatch Opcode.draw (operation_layout op) ctx conn s (omega arith)
              (omega (arith, length-operation_layout op)),
      ),
    )

-- The canvas state of a host, of operations that can be written and take fewer than 2^32 bytes together,
-- is handed to the connection as one frame, and the server's websocket loop dispatches that frame as a
-- CANVAS_STATE of those operations.
pub canvas_state-Delivered :
    (c : Client) (ops : List DrawOperation)
    → c.host ≡ true
    → All IsStorable ops
    → IsU32 (length (canvas_state_layout ops))
    → Delivered (λ t. send_canvas_state t c ops) Opcode.canvas_state (canvas_state_layout ops)
canvas_state-Delivered c ops h v k = (
  λ t. send_canvas_state-frame t c ops h v,
  λ ctx conn s. receive_frame-dispatch Opcode.canvas_state _ ctx conn s (omega arith) k,
)

all_taken : {A : Type 0} (n : ℕ) (xs : List A) → n ≡ length xs → take n xs ≡ xs
all_taken n xs e = ap (λ k. take k xs) e ∙ take_length xs

-- Over TCP, when the socket delivers the bytes of a frame in order, six for the header and then as many as
-- the header says, the server's loop dispatches, and the client receives, the opcode and the payload that
-- the frame was built from: a byte for the opcode, and fewer than 2^32 bytes of payload.
pub stream-Delivered :
    (opcode : ℕ) (payload : Bytes) (ctx : ClientContext) (conn : ℕ) (s : Server)
    → IsByte opcode
    → IsU32 (length payload)
    → let header_read : Result Bytes = ok (take 6 (frame opcode payload)) in
      let payload_read : ℕ → Result Bytes = λ n. ok (take n (drop 6 (frame opcode payload))) in
      (receive_stream header_read payload_read ctx conn s
        ≡ (dispatch (frame_header opcode payload) payload ctx conn >>= λ ctx'. pure (some ctx')) s)
      × (receive_tcp header_read payload_read ≡ some (ok (message opcode payload)))
unfolding receive_stream receive_tcp ◌>>=◌ Option.bind
stream-Delivered opcode payload ctx conn s h k = (
  rw (parsed, ◌>>=◌, whole) refl,
  rw parsed (elim (Bool-cases (ltb 0 (u32 (length payload)))) [
    | inl some_bytes ↦ rw (some_bytes, whole) refl
    | inr no_bytes ↦ rw no_bytes (
        ap (λ p. some (ok (record { header = frame_header opcode payload; payload = p })))
          (nothing payload (ground arith)))
  ]),
)
  where
    parsed :
        parse_header (header_layout (frame_header opcode payload))
        ≡ some (ok (frame_header opcode payload))
    parsed =
        parse_header-layout (frame_header opcode payload) []
          (frame_header-IsHeader opcode payload h)

    whole : take (u32 (length payload)) payload ≡ payload
    whole = all_taken (u32 (length payload)) payload (omega arith)

    nothing : (xs : Bytes) → length xs ≡ 0 → [] ≡ xs
    nothing [] e = refl
    nothing (x ∷ xs) e = absurd (omega arith)
