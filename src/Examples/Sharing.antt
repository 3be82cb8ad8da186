-- ===== src/Examples/Sharing.antt =====
-- Two concrete drawing programs, a host and a member of its session.
use sketch_sync.Prelude.{
  ℕ, ◌^◌, ◌<◌, ◌≡◌, ◌≢◌, ◌↔◌, refl, true, false, Bool, some, none, List, [], ◌∷◌, arith,
  if◌then◌else◌, ltb, append-nil,
}
use sketch_sync.Results.{Result, ok, text}
use sketch_sync.Bytes.{Bytes}
use sketch_sync.DrawOperation.{DrawOperation}
use sketch_sync.DrawOperation.Codec.{operation_layout}
use sketch_sync.Protocol.Opcode
use sketch_sync.Protocol.CanvasState.RoundTrip.{IsStorable}
use sketch_sync.Persistence.Writing.{queued}
use sketch_sync.Server.Sending.{message}
use sketch_sync.Canvas.{create, apply, contains_operation, next_sequence, snapshot}
use sketch_sync.Canvas.Log.{IsConsistent, create-IsConsistent, create-room}
use sketch_sync.Canvas.Replay.{Agree, follow}
use sketch_sync.Client.{Client}
use sketch_sync.Files.{no_files}
use sketch_sync.Examples.Drawing.{dot, length-dot, line}
use sketch_sync.Engine.{
  Engine, Environment, Call, JoiningState, Protocol, ConnectionState, new_engine,
}
use sketch_sync.Engine.Coherence.{Coherent}
use sketch_sync.Engine.Receiving.{handle_draw, poll_round}
use sketch_sync.Engine.Receiving.Received.{HasReceived, handle_draw-hosting, handle_draw-joined}
use sketch_sync.DrawOperation.Validity.{IsValid}
use sketch_sync.Engine.Receiving.Ending.{Ends, IsWritable, poll_round-total}
use sketch_sync.Engine.Relay.{exchange_all, admitted, InStep, beside}
use sketch_sync.Engine.Relay.Refinement.{exchange_all-refines}
use sketch_sync.Engine.Connection.{async_connect_to_server}
use sketch_sync.Engine.Steps.{Reaches, Step, typed}
use sketch_sync.Engine.Steps.Reachable.{Reaches-Coherent}

abbrev pub sends : List (Client × Call) → Bytes → Result ℕ
sends calls bytes = ok 0

abbrev pub opens : Bytes → Bool
opens path = true

abbrev pub one_batch : List DrawOperation → List (List DrawOperation)
one_batch queue = queue ∷ []

pub one_batch-in_order : (queue : List DrawOperation) → queued (one_batch queue) ≡ queue
unfolding queued
one_batch-in_order queue = append-nil queue

abbrev pub around : Environment
around = record { paint = dot; transmit = sends; can_open = opens; schedule = one_batch }

-- A program that is in session 1 as `client`, on an empty canvas.
abbrev pub drawing : Client → Engine
drawing client = record {
  manager = record {
    client = some client;
    session_id = 1;
    member_id = client.member_id;
    members = [];
    hosting = client.host;
    in_session = true;
    session_id_input = [];
    joining_state = JoiningState.in_session;
    next_operation_number = 1;
    pending_operations = [];
  };
  net = record {
    attached = true;
    protocol = Protocol.tcp;
    host = text "127.0.0.1";
    port = text "9000";
    connected = true;
    state = ConnectionState.connected;
    server_running = false;
    has_sockets = true;
    stop_poll = false;
    connecting = false;
    shut_down = false;
  };
  surface = create 2 1 7;
  files = no_files (λ path. none);
  dirty = false;
  active_stroke = none;
  attempt = none;
  calls = [];
}

-- One that waits for the return of the operations 9 and 10.
abbrev awaiting : Client → Engine
awaiting client = record (drawing client) {
  manager = record (drawing client).manager { pending_operations = 9 ∷ 10 ∷ [] };
}

abbrev pub ada : Client
ada = record { member_id = 1; session_id = 1; host = true }

abbrev pub bob : Client
bob = record { member_id = 2; session_id = 1; host = false }

pub line-IsStorable :
    (operation_id seq : ℕ)
    → operation_id < 2 ^ 64
    → seq < 2 ^ 32
    → IsStorable (line operation_id seq)
line-IsStorable operation_id seq h k = (
  record {
    operation_id = h;
    seq = k;
    member_id = omega arith;
    tool = omega arith;
    color = omega arith;
    thickness = omega arith;
    points = ((omega arith, omega arith), ((omega arith, omega arith), tt));
  },
  omega arith,
)

in_step : InStep (drawing ada) (drawing bob)
in_step = record {
  here = ada;
  there = bob;
  host_client = refl;
  member_client = refl;
  hosts = refl;
  joins = refl;
  agree = record { picture = refl; next_seq = refl; operations = refl; ids = λ x. refl };
  consistent = create-IsConsistent 2 1 7;
}

-- The third operation repeats the first.
abbrev lines : List DrawOperation
lines = line 9 0 ∷ line 10 0 ∷ line 9 0 ∷ []

exchange_all-refines_example :
    (host' : Engine) × (member' : Engine) × (exchange_all around
        (beside around sends opens one_batch)
        lines
        (drawing ada)
        (drawing bob)
      ≡ some (host', member'))
    × ((host'.surface, member'.surface)
        ≡ follow dot length-dot (create 2 1 7) (create 2 1 7) (admitted lines))
    × Agree host'.surface member'.surface
    × IsConsistent host'.surface
exchange_all-refines_example =
    exchange_all-refines around length-dot sends opens one_batch lines (drawing ada) (drawing bob)
      in_step
      (
        line-IsStorable 9 0 (omega arith) (omega arith),
        (
          line-IsStorable 10 0 (omega arith) (omega arith),
          (line-IsStorable 9 0 (omega arith) (omega arith), tt),
        ),
      )
      (create-room 2 1 7 3 (omega arith))

-- What a user has typed, and a connection that is under way.
abbrev started : Engine
started = new_engine (create 2 1 7) (no_files (λ path. none))

Reaches-Coherent_example : Coherent (async_connect_to_server (typed (text "12") started))
Reaches-Coherent_example =
    Reaches-Coherent around (create 2 1 7) (no_files (λ path. none))
      (async_connect_to_server (typed (text "12") started))
      (Reaches.after (typed (text "12") started)
        (async_connect_to_server (typed (text "12") started))
        (Reaches.after started (typed (text "12") started) Reaches.here (Step.types_id (text "12")))
        Step.connects)

handle_draw-hosting_example :
    let number = (apply dot (create 2 1 7) (line 9 0)).1 in
    (taken : Bool) × ((taken ≡ true)
      ↔ (IsValid (line 9 0) false × (contains_operation 9 (create 2 1 7) ≡ false)))
    × (e' : Engine) × (handle_draw around (operation_layout (line 9 0)) (awaiting ada) ≡ some e')
    × HasReceived around
        (line 9 0)
        taken
        (if taken then (ada, Call.draw_raw (line 9 number)) ∷ [] else [])
        (awaiting ada)
        e'
handle_draw-hosting_example =
    handle_draw-hosting around ada (line 9 0) (awaiting ada) refl refl
      (line-IsStorable 9 0 (omega arith) (omega arith))

handle_draw-joined_example :
    (taken : Bool) × ((taken ≡ true)
      ↔ (((line 9 1).seq ≢ 0) × ((line 9 1).seq ≡ next_sequence (create 2 1 7))))
    × (e' : Engine) × (handle_draw around (operation_layout (line 9 1)) (awaiting bob) ≡ some e')
    × HasReceived around
        (line 9 1)
        taken
        (if ltb (next_sequence (create 2 1 7)) 1 then (bob, Call.canvas_state_request) ∷ [] else [])
        (awaiting bob)
        e'
handle_draw-joined_example =
    handle_draw-joined around bob (line 9 1) (awaiting bob) refl refl
      (line-IsStorable 9 1 (omega arith) (omega arith))

snapshot-IsWritable : IsWritable (drawing bob)
unfolding snapshot create
snapshot-IsWritable = record { log = tt; queue = tt }

poll_round-total_example :
    Ends (poll_round around (ok (message Opcode.draw (1 ∷ 2 ∷ 3 ∷ []))) (drawing bob))
poll_round-total_example =
    poll_round-total around one_batch-in_order (ok (message Opcode.draw (1 ∷ 2 ∷ 3 ∷ [])))
      (drawing bob) snapshot-IsWritable
