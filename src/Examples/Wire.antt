-- ===== src/Examples/Wire.antt =====
-- Concrete messages that are written and read.
use sketch_sync.Prelude.{
  ℕ, ◌≡◌, ◌≤◌, ◌↔◌, [], ◌∷◌, arith, length, true, false, some, none, replicate, length-replicate,
  Option, if◌then◌else◌, ◌==◌,
}
use mathlib.Core.Option
use sketch_sync.Results.{ok, is_ok}
use sketch_sync.Bytes.{Bytes}
use sketch_sync.DrawOperation.{
  CanvasPoint, DrawOperation, serialize_draw_operation, parse_draw_operation,
  validate_draw_operation,
}
use sketch_sync.DrawOperation.ToolType
use sketch_sync.DrawOperation.Codec.{IsOperation, draw_operation_round_trip}
use sketch_sync.DrawOperation.Overflow.{serialize_draw_operation_overflow}
use sketch_sync.DrawOperation.Validity.{IsValid, validate_iff}
use sketch_sync.Protocol.{parse_header}
use sketch_sync.Protocol.Total.{Returns, message_parsers-total}
use sketch_sync.Protocol.Session.{
  JoinMessage, CreateAckMessage, JoinAckMessage, serialize_create, parse_create, parse_join,
  parse_create_ack, parse_join_ack,
}
use sketch_sync.Protocol.Session.RoundTrip.{sent_name, create_round_trip}
use sketch_sync.Protocol.Replies.{
  AckMessage, ErrorMessage, parse_ack, parse_error, MemberJoinedNotification,
  MemberLeftNotification, parse_member_joined, parse_member_left, parse_session_closed,
}
use sketch_sync.Protocol.CanvasState.{serialize_canvas_state, parse_canvas_state}
use sketch_sync.Protocol.CanvasState.RoundTrip.{canvas_state_round_trip}
use sketch_sync.Udp.Discovery.{ask, ask_lem}

abbrev stroke : DrawOperation
stroke = record {
  operation_id = 5000000000;
  seq = 0;
  member_id = 7;
  tool = ToolType.freehand;
  color = 4278190080;
  thickness = 4;
  points = record { x = 10; y = 65535 } ∷ record { x = 300; y = 1 } ∷ [];
}

stroke-IsOperation : IsOperation stroke
stroke-IsOperation = record {
  operation_id = omega arith;
  seq = omega arith;
  member_id = omega arith;
  tool = omega arith;
  color = omega arith;
  thickness = omega arith;
  points = ((omega arith, omega arith), ((omega arith, omega arith), tt));
}

draw_operation_round_trip_example :
    Option.bind (serialize_draw_operation stroke) parse_draw_operation ≡ some (ok stroke)
draw_operation_round_trip_example =
    draw_operation_round_trip stroke stroke-IsOperation (omega arith)

abbrev ada : Bytes
ada = 65 ∷ 100 ∷ 97 ∷ []

abbrev huge : DrawOperation
huge = record stroke { points = replicate 65536 (record { x = 1; y = 1 }) }

huge_length : 65536 ≤ length huge.points
huge_length =
    let e = length-replicate {A = CanvasPoint} 65536 (record { x = 1; y = 1 }) in omega arith

serialize_draw_operation_overflow_example : serialize_draw_operation huge ≡ none
serialize_draw_operation_overflow_example = serialize_draw_operation_overflow huge huge_length

validate_iff_example : (is_ok (validate_draw_operation stroke false) ≡ true) ↔ IsValid stroke false
validate_iff_example = validate_iff stroke false

message_parsers-total_example :
    Returns (parse_header ada)
    × Returns (parse_create ada)
    × Returns (parse_join ada)
    × Returns (parse_create_ack ada)
    × Returns (parse_join_ack ada)
    × Returns (parse_ack ada)
    × Returns (parse_error ada)
    × Returns (parse_member_joined ada)
    × Returns (parse_member_left ada)
    × Returns (parse_session_closed ada)
    × Returns (parse_draw_operation ada)
    × Returns (parse_canvas_state ada)
message_parsers-total_example = message_parsers-total ada

create_round_trip_example :
    Option.bind (serialize_create ada) parse_create ≡ some (ok (sent_name ada))
create_round_trip_example = create_round_trip ada

abbrev join_7 : JoinMessage
join_7 = record { session_id = 7; name = ada }

abbrev created : CreateAckMessage
created = record { ack_code = 3; session_id = 1; member_id = 2 }

abbrev admitted : JoinAckMessage
admitted = record { ack_code = 4; member_id = 2 }

abbrev ada_joined : MemberJoinedNotification
ada_joined = record { notif_code = 1; member_id = 2; name = ada }

abbrev ada_left : MemberLeftNotification
ada_left = record { notif_code = 2; member_id = 2; name = ada }

abbrev ok_ack : AckMessage
ok_ack = record { ack_code = 0; message = ada }

abbrev refusal : ErrorMessage
refusal = record { err_code = 3; err_message = ada }

canvas_state_round_trip_example :
    Option.bind (serialize_canvas_state (stroke ∷ stroke ∷ [])) parse_canvas_state
    ≡ some (ok (stroke ∷ stroke ∷ []))
canvas_state_round_trip_example =
    canvas_state_round_trip (stroke ∷ stroke ∷ [])
      ((stroke-IsOperation, omega arith), ((stroke-IsOperation, omega arith), tt)) (omega arith)

abbrev one_session : ℕ → Option ℕ
one_session id = if id == 7 then some 9000 else none

ask_lem_example : ask one_session 7 ≡ some (some 9000)
ask_lem_example = ask_lem one_session 7 (omega arith) (λ port e. ground arith)
