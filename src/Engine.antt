-- ===== src/Engine.antt =====
-- The state of the drawing program: engine/session/session_manager.h, engine/network/network_manager.h,
-- network/connection_types.h, common/network_constants.h and the members of engine/engine.h that they
-- share. A handler is one step: locks, threads and times are not modelled, nor are the texts that are
-- shown. `calls` lists the messages that a session client was asked for, with the client as it was.
pub mod Preserving
pub mod Calls
pub mod Coherence
pub mod Session
pub mod Receiving
pub mod Relay
pub mod Connection
pub mod Input
pub mod Steps
pub mod Frame
use sketch_sync.Prelude.{ℕ, ◌+◌, Bool, true, false, Option, List, [], ◌∷◌, ◌++◌}
use mathlib.Core.Option
use sketch_sync.Results.{Result, text}
use sketch_sync.Bytes.{Bytes}
use sketch_sync.Assoc.{Assoc}
use sketch_sync.DrawOperation.{DrawOperation}
use sketch_sync.Canvas.{Picture, Canvas}
use sketch_sync.Client.{Client}
use sketch_sync.Files.{Files}

pub data JoiningState : Type 0 where
  none creating joining in_session leaving closing : JoiningState

pub data Protocol : Type 0 where
  none tcp websocket : Protocol

pub data ConnectionState : Type 0 where
  disconnected connecting connected failed error_abort_close : ConnectionState

-- session_manager. Its session client is `none` while it has no connection.
pub record Manager : Type 0 where
  pub client : Option Client
  pub session_id : ℕ
  pub member_id : ℕ
  pub members : Assoc Bytes
  pub hosting : Bool
  pub in_session : Bool
  pub session_id_input : Bytes
  pub joining_state : JoiningState
  pub next_operation_number : ℕ
  pub pending_operations : List ℕ

-- network_manager. The sockets and the io_context are not modelled, but for whether there are any.
pub record Network : Type 0 where
  pub attached : Bool
  pub protocol : Protocol
  pub host : Bytes
  pub port : Bytes
  pub connected : Bool
  pub state : ConnectionState
  pub server_running : Bool
  pub has_sockets : Bool
  pub stop_poll : Bool
  pub connecting : Bool
  pub shut_down : Bool

-- What a connection thread was started for.
pub data Attempt : Type 0 where
  connect : Attempt
  discover_and_join : ℕ → Attempt
  connect_and_join : ℕ → Attempt
  connect_and_create : Attempt
  start_local : Attempt

-- The senders of a session client.
pub data Call : Type 0 where
  create : Bytes → Call
  join : ℕ → Bytes → Call
  leave : Call
  close_session : Call
  canvas_clear : Call
  draw : DrawOperation → Call
  draw_raw : DrawOperation → Call
  canvas_state_request : Call
  canvas_state : List DrawOperation → Call

pub record Engine : Type 0 where
  pub manager : Manager
  pub open manager use *
  pub net : Network
  pub surface : Canvas
  pub files : Files
  pub dirty : Bool
  pub active_stroke : Option DrawOperation
  pub attempt : Option Attempt
  pub calls : List (Client × Call)

-- What the engine finds around it: the pixels that a tool paints, the answer of the connection to bytes
-- after the calls before, the paths that can be opened, and when a writer's thread runs.
pub record Environment : Type 0 where
  pub paint : Picture → DrawOperation → List ℕ
  pub transmit : List (Client × Call) → Bytes → Result ℕ
  pub can_open : Bytes → Bool
  pub schedule : List DrawOperation → List (List DrawOperation)

-- std::string names.
abbrev pub app_name : Bytes
app_name = text "SketchSync"

abbrev pub default_tcp_port : Bytes
default_tcp_port = text "9000"

abbrev pub default_ws_port : Bytes
default_ws_port = text "8080"

abbrev pub default_host : Bytes
default_host = text "127.0.0.1"

pub new_manager : Manager
new_manager = record {
  client = Option.none;
  session_id = 0;
  member_id = 0;
  members = [];
  hosting = false;
  in_session = false;
  session_id_input = [];
  joining_state = JoiningState.none;
  next_operation_number = 1;
  pending_operations = [];
}

pub new_network : Network
new_network = record {
  attached = true;
  protocol = tcp;
  host = default_host;
  port = default_tcp_port;
  connected = false;
  state = disconnected;
  server_running = false;
  has_sockets = false;
  stop_poll = false;
  connecting = false;
  shut_down = false;
}

-- The engine after its constructor, on a new canvas.
pub new_engine : Canvas → Files → Engine
new_engine surface files = record {
  manager = new_manager;
  net = new_network;
  surface = surface;
  files = files;
  dirty = true;
  active_stroke = Option.none;
  attempt = Option.none;
  calls = [];
}
