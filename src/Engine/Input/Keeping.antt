-- ===== src/Engine/Input/Keeping.antt =====
-- The pointer and the buttons keep the session manager's state, its client and the network's state together.
use sketch_sync.Prelude.{refl, Bool, not, Option, none, some}
use sketch_sync.Bytes.{Bytes}
use sketch_sync.DrawOperation.{DrawOperation}
use sketch_sync.Canvas.Stroke.{CanvasInput}
use sketch_sync.Files.{consume_synced_save}
use sketch_sync.Engine.{Engine, Environment}
use sketch_sync.Engine.Preserving.{Gives, Gives-map, Gives-bind, Gives-any, Gives-if, Gives-some}
use sketch_sync.Engine.Coherence.{Coherent}
use sketch_sync.Engine.Session.{next_operation_id}
use sketch_sync.Engine.Session.Coherence.{
  manager-Coherent, broadcast_draw-Coherent, broadcast_clear-Coherent,
}
use sketch_sync.Engine.Receiving.Keeping.{save_cleared-Coherent}
use sketch_sync.Engine.Connection.Requests.{Surroundings}
use sketch_sync.Engine.Connection.Requests.Keeping.{shutdown-Coherent}
use sketch_sync.Engine.Input.{
  Palette, send_stroke, process_canvas_input, clear_canvas, with_files, open_pressed, save_pressed,
  save_as_pressed, auto_save_pressed, save_synced, shutdown,
}

module _ (env : Environment) where
  send_stroke-Coherent :
      (o : Option DrawOperation) (b : Bool) (e : Engine)
      → Coherent e
      → Gives Coherent (send_stroke env o b e)
  unfolding send_stroke
  send_stroke-Coherent none b e v = Gives-some Coherent e v
  send_stroke-Coherent (some op) b e v = broadcast_draw-Coherent env op (not b) _ v

  pub process_canvas_input-Coherent :
      (palette : Palette) (input : CanvasInput) (e : Engine)
      → Coherent e
      → Gives Coherent (process_canvas_input env palette input e)
  unfolding process_canvas_input next_operation_id
  process_canvas_input-Coherent palette input e v =
      send_stroke-Coherent _ _ _ (manager-Coherent e _ v refl refl refl refl refl)

  pub clear_canvas-Coherent : (e : Engine) → Coherent e → Gives Coherent (clear_canvas env e)
  unfolding clear_canvas
  clear_canvas-Coherent e v =
      Gives-bind Coherent Coherent _ _ (save_cleared-Coherent env _ v)
        (λ e' w. broadcast_clear-Coherent env _ w)

  -- The buttons for files.
  pub open_pressed-Coherent :
      (chosen : Option Bytes) (e : Engine) → Coherent e → Gives Coherent (open_pressed env chosen e)
  unfolding open_pressed
  open_pressed-Coherent chosen e v = Gives-map Coherent _ _ _ (Gives-any _) (λ r _. v)

  pub save_pressed-Coherent :
      (chosen : Option Bytes) (e : Engine) → Coherent e → Gives Coherent (save_pressed env chosen e)
  unfolding save_pressed with_files
  save_pressed-Coherent chosen e v = Gives-map Coherent _ _ _ (Gives-any _) (λ r _. v)

  pub save_as_pressed-Coherent :
      (chosen : Option Bytes) (e : Engine)
      → Coherent e
      → Gives Coherent (save_as_pressed env chosen e)
  unfolding save_as_pressed with_files
  save_as_pressed-Coherent chosen e v = Gives-map Coherent _ _ _ (Gives-any _) (λ r _. v)

  pub auto_save_pressed-Coherent :
      (chosen : Option Bytes) (e : Engine)
      → Coherent e
      → Gives Coherent (auto_save_pressed env chosen e)
  unfolding auto_save_pressed with_files
  auto_save_pressed-Coherent chosen e v = Gives-map Coherent _ _ _ (Gives-any _) (λ r _. v)

  pub save_synced-Coherent : (e : Engine) → Coherent e → Gives Coherent (save_synced env e)
  unfolding save_synced with_files
  save_synced-Coherent e v =
      Gives-if Coherent (consume_synced_save e.files).1 _ _
        (λ _. Gives-map Coherent _ _ _ (Gives-any _) (λ r _. v)) (λ _. Gives-some Coherent _ v)

  pub whole_shutdown-Coherent :
      (s : Surroundings) (e : Engine) → Coherent e → Gives Coherent (shutdown env s e)
  unfolding shutdown with_files
  whole_shutdown-Coherent s e v =
      Gives-bind Coherent Coherent _ _ (shutdown-Coherent env s e v)
        λ e' w. Gives-map Coherent _ _ _ (Gives-any _) (λ r _. w)
