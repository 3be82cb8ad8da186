-- ===== src/Protocol/Total.antt =====
-- The parsers of message.cpp and draw_operation.cpp together, on any bytes.
use sketch_sync.Prelude.{◌≡◌, Option, some}
use sketch_sync.Results.{Result}
use sketch_sync.Bytes.{Bytes}
use sketch_sync.DrawOperation.{parse_draw_operation}
use sketch_sync.DrawOperation.Codec.{parse_draw_operation-total}
use sketch_sync.Protocol.CanvasState.{parse_canvas_state}
use sketch_sync.Protocol.CanvasState.RoundTrip.{parse_canvas_state-total}
use sketch_sync.Protocol.{parse_header}
use sketch_sync.Protocol.Frame.{parse_header-total}
use sketch_sync.Protocol.Session.{parse_create, parse_join, parse_create_ack, parse_join_ack}
use sketch_sync.Protocol.Session.RoundTrip.{
  parse_create-total, parse_join-total, parse_create_ack-total, parse_join_ack-total,
}
use sketch_sync.Protocol.Replies.{
  parse_ack, parse_error, parse_member_joined, parse_member_left, parse_session_closed,
}
use sketch_sync.Protocol.Replies.RoundTrip.{
  parse_ack-total, parse_error-total, parse_member_joined-total, parse_member_left-total,
  parse_session_closed-total,
}

abbrev pub Returns {ℓ} : {A : Type ℓ} → Option (Result A) → Type ℓ
Returns {A} o = (r : Result A) × (o ≡ some r)

-- Whatever bytes a frame carries, no parser of a header, a request, an acknowledgement, an error, a
-- notification, a drawing operation or a canvas state reads outside them: each one returns a result,
-- whatever counts and lengths the bytes claim.
pub message_parsers-total :
    (bs : Bytes)
    → Returns (parse_header bs)
      × Returns (parse_create bs)
      × Returns (parse_join bs)
      × Returns (parse_create_ack bs)
      × Returns (parse_join_ack bs)
      × Returns (parse_ack bs)
      × Returns (parse_error bs)
      × Returns (parse_member_joined bs)
      × Returns (parse_member_left bs)
      × Returns (parse_session_closed bs)
      × Returns (parse_draw_operation bs)
      × Returns (parse_canvas_state bs)
message_parsers-total bs = (
  parse_header-total bs,
  parse_create-total bs,
  parse_join-total bs,
  parse_create_ack-total bs,
  parse_join_ack-total bs,
  parse_ack-total bs,
  parse_error-total bs,
  parse_member_joined-total bs,
  parse_member_left-total bs,
  parse_session_closed-total bs,
  parse_draw_operation-total bs,
  parse_canvas_state-total bs,
)
