-- ===== src/Engine/Input.antt =====
-- engine/engine.cpp: what sketch_app does with the pointer and with the buttons that clear the canvas, open
-- and save files, and end the program. The window, the fonts and the textures are not modelled.
pub mod Strokes
pub mod Released
pub mod Ids
pub mod Keeping
use sketch_sync.Prelude.{
  ℕ, ◌/◌, ◌^◌, Bool, true, false, not, ◌&&◌, Option, none, some, List, if◌then◌else◌,
}
use mathlib.Core.Option
use sketch_sync.Bytes.{Bytes}
use sketch_sync.DrawOperation.{DrawOperation}
use sketch_sync.Canvas.{Canvas}
use sketch_sync.Canvas.Stroke
use sketch_sync.Canvas.Stroke.{CanvasInput, Pen}
use sketch_sync.Files.{
  Files, enqueue_if_auto_save, is_untitled, save_to_file, save_as, toggle_auto_save, open_and_load,
  consume_synced_save,
}
use sketch_sync.Files
use sketch_sync.Engine.{Engine, Environment}
use sketch_sync.Engine.Session.{
  host_owns_canvas, next_operation_id, broadcast_draw, broadcast_clear,
}
use sketch_sync.Engine.Receiving.{set_dirty, cleared, save_cleared}
use sketch_sync.Engine.Connection.Requests
use sketch_sync.Engine.Connection.Requests.{Surroundings}

-- The active color, thickness and tool.
pub record Palette : Type 0 where
  pub color : ℕ
  pub thickness : ℕ
  pub tool : ℕ

-- The pen that sketch_app::process_canvas_input draws with: the member is in the high half of the id.
pub pen_of : Palette → Engine → Pen
pen_of palette e =
    let operation_id = (next_operation_id e).0 in
    record {
      operation_id = operation_id;
      member_id = operation_id / 2 ^ 32;
      color = palette.color;
      thickness = palette.thickness;
      commit_to_canvas = host_owns_canvas e;
      tool = palette.tool;
    }

module _ (env : Environment) where
  -- The part behind the call of ::process_canvas_input.
  send_stroke : Option DrawOperation → Bool → Engine → Option Engine
  send_stroke none host_owns e = some e
  send_stroke (some op) host_owns e = broadcast_draw env op (not host_owns) (
      set_dirty
        (record e { files = if host_owns then enqueue_if_auto_save op e.files else e.files }))

  pub process_canvas_input : Palette → CanvasInput → Engine → Option Engine
  process_canvas_input palette input e =
      let pen = pen_of palette e in
      let (surface, stroke, committed) =
        Stroke.process_canvas_input env.paint pen input e.active_stroke e.surface in
      send_stroke committed (host_owns_canvas e)
        (record (next_operation_id e).1 { surface = surface; active_stroke = stroke })

  pub clear_canvas : Engine → Option Engine
  clear_canvas e =
      Option.bind (save_cleared env (cleared (record e { active_stroke = none })))
        λ e'. broadcast_clear env (set_dirty e')

  unfoldable pub with_files : Engine → Files → Engine
  with_files e f = record e { files = f }

  -- The buttons of sketch_app::run for files; `chosen` is what the dialog returns.
  pub open_pressed : Option Bytes → Engine → Option Engine
  open_pressed chosen e =
      Option.map
        (λ (surface, files).
          set_dirty (record e { surface = surface; files = files; active_stroke = none }))
        (open_and_load env.can_open env.schedule env.paint chosen e.surface e.files)

  pub save_pressed : Option Bytes → Engine → Option Engine
  save_pressed chosen e = Option.map (with_files e) (
      if is_untitled e.files
      then save_as env.can_open env.schedule chosen e.surface e.files
      else save_to_file env.can_open env.schedule e.files.current_file e.surface e.files)

  pub save_as_pressed : Option Bytes → Engine → Option Engine
  save_as_pressed chosen e =
      Option.map (with_files e) (save_as env.can_open env.schedule chosen e.surface e.files)

  pub auto_save_pressed : Option Bytes → Engine → Option Engine
  auto_save_pressed chosen e =
      Option.map (with_files e)
        (toggle_auto_save env.can_open env.schedule chosen e.surface e.files)

  -- if (files_.consume_synced_save()) files_.save_to_file(files_.current_file());
  unfoldable pub save_synced : Engine → Option Engine
  save_synced e =
      let (files, pending) = consume_synced_save e.files in
      if pending
      then Option.map (with_files e)
          (save_to_file env.can_open env.schedule files.current_file e.surface files)
      else some (with_files e files)

  pub shutdown : Surroundings → Engine → Option Engine
  shutdown s e =
      Option.bind (Requests.shutdown env s e)
        λ e'. Option.map (with_files e') (Files.shutdown env.can_open env.schedule e'.files)
