-- ===== src/Examples/Delivering.antt =====
-- A concrete client and the frames that reach a fresh server.
use sketch_sync.Prelude.{refl, true, [], ◌∷◌, arith}
use sketch_sync.DrawOperation.{DrawOperation}
use sketch_sync.DrawOperation.Codec.{IsOperation}
use sketch_sync.Protocol.Opcode
use sketch_sync.Protocol.Session.{JoinMessage}
use sketch_sync.Protocol.Session.RoundTrip.{name_layout, join_layout}
use sketch_sync.Client.{
  Client, send_create, send_join, send_leave, send_close_session, send_canvas_clear,
  request_canvas_state,
}
use sketch_sync.Client.Delivery.{Delivered, requests-Delivered}

abbrev bob : JoinMessage
bob = record { session_id = 1; name = 66 ∷ 111 ∷ 98 ∷ [] }

abbrev client : Client
client = record { member_id = 2; session_id = 1; host = true }

abbrev dot : DrawOperation
dot = record {
  operation_id = 9;
  seq = 0;
  member_id = 7;
  tool = 0;
  color = 255;
  thickness = 3;
  points = record { x = 1; y = 2 } ∷ [];
}

dot-IsOperation : IsOperation dot
dot-IsOperation = record {
  operation_id = omega arith;
  seq = omega arith;
  member_id = omega arith;
  tool = omega arith;
  color = omega arith;
  thickness = omega arith;
  points = ((omega arith, omega arith), tt);
}

requests-Delivered_example :
    Delivered (λ t. send_create t bob.name) Opcode.create (name_layout bob.name)
    × Delivered (λ t. send_join t 1 bob.name) Opcode.join (join_layout bob)
    × Delivered send_leave Opcode.leave []
    × Delivered send_close_session Opcode.close_session []
    × Delivered send_canvas_clear Opcode.canvas_clear []
    × Delivered (λ t. request_canvas_state t client) Opcode.canvas_state_request []
requests-Delivered_example = requests-Delivered bob client (omega arith) refl
