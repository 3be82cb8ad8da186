-- ===== src/Examples/Hosting.antt =====
-- A concrete server: one session with its host and one other member, both connected.
use sketch_sync.Prelude.{ℕ, ◌+◌, ◌≡◌, refl, true, false, some, none, [], ◌∷◌, ◌++◌, arith}
use sketch_sync.Results.{ok, text}
use sketch_sync.Bytes.{Bytes, u8, u32}
use sketch_sync.Assoc.{lookup, assign, keys, erase}
use sketch_sync.DrawOperation.{DrawOperation}
use sketch_sync.DrawOperation.ToolType
use sketch_sync.DrawOperation.Codec.{IsOperation, operation_layout}
use sketch_sync.DrawOperation.Validity.{IsValid}
use sketch_sync.Protocol.{Header}
use sketch_sync.Protocol.Opcode
use sketch_sync.Protocol.Codes
use sketch_sync.Protocol.Session.{JoinMessage, JoinAckMessage}
use sketch_sync.Protocol.Session.RoundTrip.{name_layout, sent_name, join_layout, join_ack_layout}
use sketch_sync.Server.State.{Session, ClientContext, Server, fresh_server}
use sketch_sync.Server.Handlers.{new_session, joined, no_context, handle_draw, handle_leave}
use sketch_sync.Server.Dispatch.{on_create, on_join, on_close_session, dispatch}
use sketch_sync.Server.Rules.{Runs}
use sketch_sync.Server.Invariant.{
  IsSession, IsSound, empty-IsSound, assign-IsSound, new_session-IsSession, joined-IsSession,
}
use sketch_sync.Server.Soundness.{Sound}
use sketch_sync.Server.Soundness.Dispatch.{dispatch-Sound}
use sketch_sync.Server.Reachable.{start, received, Reachable-IsSound}
use sketch_sync.Server.Frames.{frame, with_sent, deliveries}
use sketch_sync.Server.Draw.{InSession, claimed, handle_draw-member, handle_draw-host}
use sketch_sync.Server.Sessions.{created, on_create-created}
use sketch_sync.Server.Departures.{
  closed, departed, handle_leave-host, handle_leave-member, on_close_session-sent, on_join-missing,
}

abbrev ada : Bytes
ada = 65 ∷ 100 ∷ 97 ∷ []

abbrev bob : Bytes
bob = 66 ∷ 111 ∷ 98 ∷ []

-- Ada, member 1, is the host; Bob is member 2.
abbrev sketch : Session
sketch = joined (new_session 1 1 ada) 1 2 bob

sketch-IsSession : IsSession 1 sketch
sketch-IsSession = joined-IsSession 1 (new_session 1 1 ada) 2 bob (new_session-IsSession 1 1 ada)

abbrev running : Server
running = record {
  tcp_port = 9000;
  sessions = assign 1 sketch [];
  connections = (1, 100) ∷ (2, 200) ∷ [];
  next_session_id = 2;
  next_member_id = 3;
  sent = [];
}

running-IsSound : IsSound running.sessions
running-IsSound = assign-IsSound 1 sketch [] sketch-IsSession empty-IsSound

abbrev of_ada : ClientContext
of_ada = record { member_id = 1; session_id = 1 }

abbrev of_bob : ClientContext
of_bob = record { member_id = 2; session_id = 1 }

found : lookup 1 running.sessions ≡ some sketch
unfolding lookup assign
found = refl

ada_inside : InSession of_ada running sketch
ada_inside = record { member = omega arith; session = omega arith; found = found }

bob_inside : InSession of_bob running sketch
bob_inside = record { member = omega arith; session = omega arith; found = found }

ada_connected : lookup 1 running.connections ≡ some 100
unfolding lookup
ada_connected = refl

unused : lookup 2 running.sessions ≡ none
unfolding lookup assign
unused = refl

abbrev line : ℕ → ℕ → DrawOperation
line seq member_id = record {
  operation_id = 9;
  seq = seq;
  member_id = member_id;
  tool = ToolType.line;
  color = 255;
  thickness = 3;
  points = record { x = 1; y = 2 } ∷ record { x = 3; y = 4 } ∷ [];
}

line-IsOperation : IsOperation (line 5 7)
line-IsOperation = record {
  operation_id = omega arith;
  seq = omega arith;
  member_id = omega arith;
  tool = omega arith;
  color = omega arith;
  thickness = omega arith;
  points = ((omega arith, omega arith), ((omega arith, omega arith), tt));
}

from_bob : IsValid (line 0 2) false
from_bob = record {
  identified = omega arith;
  stamped = λ e. ground arith;
  unstamped = λ e. refl;
  owned = omega arith;
  named = omega arith;
  thick = omega arith;
  thin = omega arith;
  bounded = omega arith;
  has_points = record {
    clear = λ e. absurd (omega arith);
    shape = λ e. refl;
    stroke = λ e. omega arith;
    fill = λ e. omega arith;
  };
}

from_ada : IsValid (line 5 7) true
from_ada = record {
  identified = omega arith;
  stamped = λ e. omega arith;
  unstamped = λ e. ground arith;
  owned = omega arith;
  named = omega arith;
  thick = omega arith;
  thin = omega arith;
  bounded = omega arith;
  has_points = record {
    clear = λ e. absurd (omega arith);
    shape = λ e. refl;
    stroke = λ e. omega arith;
    fill = λ e. omega arith;
  };
}

-- Bob's operation claims to be member 7's, number 5.
handle_draw-member_example :
    handle_draw (operation_layout (line 5 7)) of_bob 200 running
    ≡ some (
      tt,
      with_sent running ((100, frame Opcode.draw (operation_layout (claimed (line 5 7) 2))) ∷ []),
    )
handle_draw-member_example =
    handle_draw-member (line 5 7) of_bob 200 100 running sketch bob_inside refl line-IsOperation
      from_bob ada_connected

handle_draw-host_example :
    handle_draw (operation_layout (line 5 7)) of_ada 100 running
    ≡ some (
      tt,
      with_sent running (
          deliveries running.connections
            (keys (erase 1 sketch.members))
            (frame Opcode.draw (operation_layout (line 5 7)))),
    )
handle_draw-host_example =
    handle_draw-host (line 5 7) of_ada 100 running sketch ada_inside refl line-IsOperation from_ada

dispatch-Sound_example :
    Runs
      (dispatch (record { opcode = Opcode.leave; flags = 0; length = 0 }) [] of_bob 200)
      running
      Sound
dispatch-Sound_example =
    dispatch-Sound (record { opcode = Opcode.leave; flags = 0; length = 0 }) [] of_bob 200 running
      running-IsSound

abbrev create_header : Header
create_header = record { opcode = Opcode.create; flags = 0; length = 4 }

first_created :
    dispatch create_header (name_layout ada) no_context 100 (fresh_server 9000)
    ≡ some (of_ada, created (sent_name ada) 100 (fresh_server 9000))
unfolding dispatch lookup
first_created = on_create-created ada no_context 100 (fresh_server 9000) refl

Reachable-IsSound_example : IsSound (created (sent_name ada) 100 (fresh_server 9000)).sessions
Reachable-IsSound_example =
    Reachable-IsSound 9000 (created (sent_name ada) 100 (fresh_server 9000)) (
      received create_header (name_layout ada) no_context of_ada 100 (fresh_server 9000)
        (created (sent_name ada) 100 (fresh_server 9000)) start first_created)

on_create-created_example :
    on_create (name_layout ada) no_context 300 running
    ≡ some (record { member_id = 3; session_id = 2 }, created (sent_name ada) 300 running)
on_create-created_example = on_create-created ada no_context 300 running unused

abbrev join_1 : JoinMessage
join_1 = record { session_id = 1; name = ada }

handle_leave-host_example :
    handle_leave of_ada running ≡ some ((ok true, no_context), closed of_ada sketch running)
handle_leave-host_example = handle_leave-host of_ada running sketch ada_inside refl

handle_leave-member_example :
    handle_leave of_bob running ≡ some ((ok true, no_context), departed of_bob sketch running)
handle_leave-member_example =
    handle_leave-member of_bob running sketch bob_inside sketch-IsSession refl

on_close_session-sent_example :
    on_close_session of_bob 200 running
    ≡ some (
      of_bob,
      with_sent running ((200, frame Opcode.ack (u8 Codes.ack_ok ∷ text "session closed")) ∷ []),
    )
on_close_session-sent_example = on_close_session-sent of_bob 200 running sketch bob_inside

abbrev join_2 : JoinMessage
join_2 = record { session_id = 2; name = ada }

on_join-missing_example :
    let ack : JoinAckMessage = record { ack_code = Codes.join_ok; member_id = 0 } in
    on_join (join_layout join_2) no_context 300 running
    ≡ some (
      no_context,
      record running {
        connections = assign 0 300 running.connections;
        next_member_id = u32 (3 + 1);
        sent = [] ++ (300, frame Opcode.ack (join_ack_layout ack)) ∷ [];
      },
    )
on_join-missing_example = on_join-missing join_2 no_context 300 running (omega arith) unused
