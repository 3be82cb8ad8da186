-- ===== src/Engine/Frame.antt =====
-- The loop of sketch_app::run, in engine/engine.cpp: what a frame does to the state, behind the choice of tool,
-- thickness and colour.
use sketch_sync.Prelude.{Bool, not, Option, none, some, List, [], ◌∷◌, if◌then◌else◌}
use mathlib.Core.Option
use sketch_sync.Bytes.{Bytes}
use sketch_sync.Canvas.Stroke.{CanvasInput}
use sketch_sync.Engine.{Engine, Environment, Protocol}
use sketch_sync.Engine.Protocol.{tcp, websocket}
use sketch_sync.Engine.Session.{leave_session}
use sketch_sync.Engine.Connection.{async_connect_to_server, async_start_local_server}
use sketch_sync.Engine.Connection.Requests.{
  Surroundings, join_session, create_session, disconnect, stop_local_server,
}
use sketch_sync.Engine.Input.{
  Palette, process_canvas_input, clear_canvas, open_pressed, save_pressed, save_as_pressed,
  auto_save_pressed, save_synced,
}
use sketch_sync.Engine.Steps.{typed, toggled, with_endpoint, redrawn}

-- What a frame finds: the buttons that are pressed, what the dialogs return, what the text fields hold after
-- it, the palette, and the pointer, unless the window is minimized.
pub record Keys : Type 0 where
  pub open_btn : Bool
  pub save_btn : Bool
  pub save_as_btn : Bool
  pub auto_save_btn : Bool
  pub clear_btn : Bool
  pub connect_btn : Bool
  pub local_server_btn : Bool
  pub protocol_toggle : Bool
  pub join_btn : Bool
  pub create_btn : Bool
  pub leave_btn : Bool
  pub opened : Option Bytes
  pub saved : Option Bytes
  pub host_field : Bytes
  pub port_field : Bytes
  pub session_id_field : Bytes
  pub palette : Palette
  pub pointer : Option CanvasInput

abbrev pub Part : Type 0
Part = Engine → Option Engine

unfoldable pub when : Bool → Part → Part
when pressed part e = if pressed then part e else some e

-- The branches on the state of the connection at the start of the frame.
connect_over : Protocol → Engine → Engine
connect_over websocket e = async_connect_to_server e
connect_over tcp e = e
connect_over Protocol.none e = e

unfoldable pub type_endpoint : Protocol → Keys → Engine → Engine
type_endpoint websocket k e = with_endpoint k.host_field k.port_field e
type_endpoint tcp k e = e
type_endpoint Protocol.none k e = e

module _ (env : Environment) where
  pub connect_pressed : Surroundings → Protocol → Bool → Part
  connect_pressed s current_proto is_connected e =
      if is_connected then disconnect env s e else some (connect_over current_proto e)

  pub local_server_pressed : Surroundings → Bool → Part
  local_server_pressed s is_running e =
      if is_running then stop_local_server env s e else some (async_start_local_server e)

  unfoldable pub session_pressed : Keys → Part
  session_pressed k e =
      if not e.in_session
      then Option.bind (when k.join_btn (join_session env) e)
          (when k.create_btn (create_session env))
      else when k.leave_btn (leave_session env) e

  unfoldable pub point_at : Palette → Option CanvasInput → Part
  point_at palette none e = some e
  point_at palette (some input) e = process_canvas_input env palette input e

  -- The parts of a frame, with what it reads of the network at its start.
  unfoldable pub parts : Surroundings → Keys → Protocol → Bool → Bool → List Part
  parts s k current_proto is_connected is_running =
      when k.open_btn (open_pressed env k.opened)
      ∷ when k.save_btn (save_pressed env k.saved)
      ∷ when k.save_as_btn (save_as_pressed env k.saved)
      ∷ when k.auto_save_btn (auto_save_pressed env k.saved)
      ∷ when k.clear_btn (clear_canvas env)
      ∷ save_synced env
      ∷ when k.connect_btn (connect_pressed s current_proto is_connected)
      ∷ when k.local_server_btn (local_server_pressed s is_running)
      ∷ when k.protocol_toggle (λ e. some (toggled e))
      ∷ session_pressed k
      ∷ (λ e. some (typed k.session_id_field (type_endpoint current_proto k e)))
      ∷ point_at k.palette k.pointer
      ∷ (λ e. some (redrawn e))
      ∷ []

  unfoldable pub run_all : List Part → Part
  run_all [] e = some e
  run_all (part ∷ rest) e = Option.bind (part e) λ e'. run_all rest e'

  unfoldable pub frame : Surroundings → Keys → Part
  frame s k e = run_all (parts s k e.net.protocol e.net.connected e.net.server_running) e
