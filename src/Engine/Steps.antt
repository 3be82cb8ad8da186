-- ===== src/Engine/Steps.antt =====
-- The drawing program as a state machine: one step for each thing that the user, the connection or a connection
-- thread can make it do.
pub mod Reachable
use sketch_sync.Prelude.{Bool, true, false, ◌≡◌, Option, none, some, List}
use mathlib.Core.Option
use sketch_sync.Results.{Result}
use sketch_sync.Bytes.{Bytes}
use sketch_sync.Protocol.{Message}
use sketch_sync.Canvas.Stroke.{CanvasInput}
use sketch_sync.Engine.{Engine, Environment}
use sketch_sync.Engine.Session.{leave_session}
use sketch_sync.Engine.Receiving.{poll_round}
use sketch_sync.Engine.Connection.{
  async_connect_to_server, async_start_local_server, toggle_protocol,
}
use sketch_sync.Engine.Connection.Requests.{
  Surroundings, join_session, create_session, run_attempt, disconnect, stop_local_server,
}
use sketch_sync.Engine.Input.{
  Palette, process_canvas_input, clear_canvas, open_pressed, save_pressed, save_as_pressed,
  auto_save_pressed, save_synced, shutdown,
}

abbrev pub typed : Bytes → Engine → Engine
typed input e = record e { manager = record e.manager { session_id_input = input } }

abbrev pub toggled : Engine → Engine
toggled e = record e { net = (toggle_protocol e.net).0 }

-- What the user types into the text fields of the host and the port, while the protocol is websocket.
abbrev pub with_endpoint : Bytes → Bytes → Engine → Engine
with_endpoint host port e = record e { net = record e.net { host = host; port = port } }

-- The texture is up to date.
abbrev pub redrawn : Engine → Engine
redrawn e = record e { dirty = false }

pub data Step (env : Environment) (e : Engine) : Engine → Type 0 where
  types_id : (input : Bytes) → Step env e (typed input e)
  types_endpoint : (host port : Bytes) → Step env e (with_endpoint host port e)
  redraws : Step env e (redrawn e)
  joins : (e' : Engine) → join_session env e ≡ some e' → Step env e e'
  creates : (e' : Engine) → create_session env e ≡ some e' → Step env e e'
  leaves : (e' : Engine) → leave_session env e ≡ some e' → Step env e e'
  polls :
      (msg_res : Result Message) (goes_on : Bool) (e' : Engine)
      → poll_round env msg_res e ≡ some (e', goes_on)
      → Step env e e'
  connects : Step env e (async_connect_to_server e)
  starts_server : Step env e (async_start_local_server e)
  attempts : (s : Surroundings) (e' : Engine) → run_attempt env s e ≡ some e' → Step env e e'
  disconnects : (s : Surroundings) (e' : Engine) → disconnect env s e ≡ some e' → Step env e e'
  stops_server :
      (s : Surroundings) (e' : Engine) → stop_local_server env s e ≡ some e' → Step env e e'
  toggles : Step env e (toggled e)
  draws :
      (palette : Palette) (input : CanvasInput) (e' : Engine)
      → process_canvas_input env palette input e ≡ some e'
      → Step env e e'
  clears : (e' : Engine) → clear_canvas env e ≡ some e' → Step env e e'
  opens :
      (chosen : Option Bytes) (e' : Engine) → open_pressed env chosen e ≡ some e' → Step env e e'
  saves :
      (chosen : Option Bytes) (e' : Engine) → save_pressed env chosen e ≡ some e' → Step env e e'
  saves_as :
      (chosen : Option Bytes) (e' : Engine) → save_as_pressed env chosen e ≡ some e' → Step env e e'
  toggles_saving :
      (chosen : Option Bytes) (e' : Engine)
      → auto_save_pressed env chosen e ≡ some e'
      → Step env e e'
  saves_synced : (e' : Engine) → save_synced env e ≡ some e' → Step env e e'
  ends : (s : Surroundings) (e' : Engine) → shutdown env s e ≡ some e' → Step env e e'

-- What the program can come to from `start`.
pub data Reaches (env : Environment) (start : Engine) : Engine → Type 0 where
  here : Reaches env start start
  after : (e e' : Engine) → Reaches env start e → Step env e e' → Reaches env start e'
