-- ===== src/Examples/Drafting.antt =====
-- Concrete strokes, acknowledgements and servers.
use sketch_sync.Prelude.{
  ℕ, ◌+◌, ◌*◌, ◌/◌, ◌^◌, ◌<◌, ◌≡◌, ◌≢◌, refl, true, false, Bool, some, none, List, [], ◌∷◌, ◌++◌,
  arith, All,
}
use sketch_sync.Results.{Error, ok, fail, is_ok, text}
use sketch_sync.Bytes.{Bytes}
use sketch_sync.Assoc.{lookup, assign}
use sketch_sync.DrawOperation.{CanvasPoint, DrawOperation}
use sketch_sync.DrawOperation.ToolType
use sketch_sync.Protocol.Opcode
use sketch_sync.Protocol.Session.RoundTrip.{name_layout, join_layout}
use sketch_sync.Server.State.{Server, ClientContext, fresh_server}
use sketch_sync.Server.Handlers.{new_session, no_context}
use sketch_sync.Server.Dispatch.{on_create, on_join}
use sketch_sync.Server.Frames.{frame}
use sketch_sync.Canvas.{create}
use sketch_sync.Canvas.Stroke.{CanvasInput, Pen}
use sketch_sync.Canvas.Stroke.Committed.{IsPen, IsDrawn, draw_frames, draw_frames-IsDrawn}
use sketch_sync.Client.{Client}
use sketch_sync.Engine.{Engine, Call, JoiningState}
use sketch_sync.Engine.Session.{member_id_or, next_operation_id}
use sketch_sync.Engine.Receiving.{handle_ack}
use sketch_sync.Engine.Receiving.Acks.{Shares, create-acknowledged, join-acknowledged}
use sketch_sync.Engine.Connection.{Outcome, connect_to_server, adopt}
use sketch_sync.Engine.Connection.LocalServer.{Process, try_connect, start_server}
use sketch_sync.Engine.Connection.LocalServer.Starting.{start_server-connected}
use sketch_sync.Engine.Input.{Palette, process_canvas_input}
use sketch_sync.Engine.Input.Strokes.{IsLost, drawn_without_session}
use sketch_sync.Engine.Input.Released.{IsSent, released_stroke}
use sketch_sync.Canvas.Stroke.Ended.{IsEnded}
use sketch_sync.Engine.Input.Ids.{next_operation_id-injective}
use sketch_sync.Examples.Drawing.{dot}
use sketch_sync.Examples.Sharing.{around, drawing, ada, bob}

abbrev guest : Client
guest = record { member_id = 0; session_id = 0; host = false }

-- A program with a connection, that waits for an answer about the session `session_id`.
abbrev waiting : JoiningState → ℕ → Engine
waiting state session_id = record (drawing guest) {
  manager = record (drawing guest).manager {
    session_id = session_id;
    in_session = false;
    joining_state = state;
  };
}

create-acknowledged_example :
    (ctx' : ClientContext) × (s' : Server) × (on_create
        (name_layout (text "Ada"))
        no_context
        100
        (fresh_server 9000)
      ≡ some (ctx', s'))
    × (before : List (ℕ × Bytes)) × (payload : Bytes) × (s'.sent
        ≡ before ++ (100, frame Opcode.ack payload) ∷ [])
    × (e' : Engine) × (handle_ack around payload (waiting JoiningState.creating 0) ≡ some e')
    × Shares ctx' true e'
unfolding lookup
create-acknowledged_example =
    create-acknowledged around guest (waiting JoiningState.creating 0) refl (text "Ada") no_context
      100 (fresh_server 9000) refl refl (omega arith) (omega arith)

-- A server with one session, whose host is on the connection 100.
abbrev running : Server
running = record {
  tcp_port = 9000;
  sessions = assign 1 (new_session 1 1 (text "Ada")) [];
  connections = (1, 100) ∷ [];
  next_session_id = 2;
  next_member_id = 2;
  sent = [];
}

found : lookup 1 running.sessions ≡ some (new_session 1 1 (text "Ada"))
unfolding lookup assign
found = refl

join-acknowledged_example :
    (ctx' : ClientContext) × (s' : Server) × (on_join
        (join_layout (record { session_id = 1; name = text "Bob" }))
        no_context
        200
        running
      ≡ some (ctx', s'))
    × (before : List (ℕ × Bytes)) × (payload : Bytes) × (s'.sent
        ≡ before ++ (200, frame Opcode.ack payload) ∷ [])
    × (e' : Engine) × (handle_ack around payload (waiting JoiningState.joining 1) ≡ some e')
    × Shares ctx' false e'
    × (c' : Client) × (e'.client ≡ some c')
    × (e'.calls ≡ [] ++ (c', Call.canvas_state_request) ∷ [])
join-acknowledged_example =
    join-acknowledged around guest (waiting JoiningState.joining 1) refl (text "Bob") no_context 200
      running (new_session 1 1 (text "Ada")) refl (omega arith) found refl (omega arith)

abbrev palette : Palette
palette = record { color = 255; thickness = 3; tool = ToolType.freehand }

abbrev at : ℕ → ℕ → CanvasPoint
at x y = record { x = x; y = y }

abbrev press : CanvasInput
press = record { inside = true; pressed = true; down = true; released = false; position = at 10 10 }

abbrev drag : CanvasInput
drag = record { inside = true; pressed = false; down = true; released = false; position = at 90 10 }

abbrev release : CanvasInput
release = record {
  inside = true;
  pressed = false;
  down = false;
  released = true;
  position = at 90 90;
}

drawn_without_session_example :
    (e' : Engine) × (process_canvas_input around palette press (waiting JoiningState.none 0)
      ≡ some e')
    × IsLost (waiting JoiningState.none 0) e'
drawn_without_session_example =
    drawn_without_session around palette press (waiting JoiningState.none 0) guest refl refl refl
      refl

abbrev stroke : DrawOperation
stroke = record {
  operation_id = 2 * 2 ^ 32 + 1;
  seq = 0;
  member_id = 2;
  tool = ToolType.freehand;
  color = 255;
  thickness = 3;
  points = at 10 10 ∷ [];
}

abbrev drafting : Engine
drafting = record (drawing bob) { active_stroke = some stroke }

released_stroke_example :
    (points : List CanvasPoint) × IsEnded ToolType.freehand release (at 10 10 ∷ []) points
    × (e' : Engine) × (process_canvas_input around palette release drafting ≡ some e')
    × (number : ℕ) × IsSent around bob (record stroke { points = points }) number drafting e'
released_stroke_example =
    released_stroke around palette release drafting bob stroke (at 10 10) [] refl refl refl refl
      refl (omega arith)

abbrev pen : ℕ → Pen
pen operation_id = record {
  operation_id = operation_id;
  member_id = 2;
  color = 255;
  thickness = 3;
  commit_to_canvas = true;
  tool = ToolType.line;
}

abbrev frames : List (Pen × CanvasInput)
frames = (pen 9, press) ∷ (pen 10, drag) ∷ (pen 11, release) ∷ []

pen-IsPen : (operation_id : ℕ) → operation_id ≢ 0 → IsPen ToolType.line (pen operation_id)
pen-IsPen operation_id h = record {
  identified = h;
  owned = omega arith;
  thick = omega arith;
  thin = omega arith;
  same = refl;
}

draw_frames-IsDrawn_example : All IsDrawn (draw_frames dot frames none (create 2 1 7))
draw_frames-IsDrawn_example =
    draw_frames-IsDrawn dot ToolType.line frames (create 2 1 7) (omega arith) (omega arith)
      (pen-IsPen 9 (omega arith), (pen-IsPen 10 (omega arith), (pen-IsPen 11 (omega arith), tt)))
      (omega arith)

small : member_id_or 1 (drawing ada) < 2 ^ 32
unfolding member_id_or
small = omega arith

next_operation_id-injective_example :
    ((next_operation_id (drawing ada)).0 / 2 ^ 32 ≡ member_id_or 1 (drawing ada))
    × (member_id_or 1 (drawing ada) ≡ member_id_or 1 (drawing ada))
    × ((drawing ada).next_operation_number ≡ (drawing ada).next_operation_number)
next_operation_id-injective_example =
    next_operation_id-injective (drawing ada) (drawing ada) small small (omega arith) (omega arith)
      refl

-- The second round finds the server.
abbrev rounds : List (Bool × Outcome)
rounds =
    (true, record { conn_res = fail false Error.connect_failed []; stopped = false })
    ∷ (true, record { conn_res = ok true; stopped = false })
    ∷ []

abbrev process : Process
process = record { exists = true; launch = λ tcp ws. ok true; rounds = rounds }

abbrev offline : Engine
offline = record (drawing guest) {
  manager = record (drawing guest).manager { client = none; in_session = false };
  net = record (drawing guest).net { connected = false };
}

started : is_ok (start_server process offline).0 ≡ true
unfolding start_server try_connect connect_to_server adopt
started = refl

start_server-connected_example : (start_server process offline).1.net.connected ≡ true
start_server-connected_example =
    start_server-connected process offline
      (record { conn_res = fail false Error.connect_failed []; stopped = false })
      ((true, record { conn_res = ok true; stopped = false }) ∷ []) refl (refl, (refl, tt)) started
