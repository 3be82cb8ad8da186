-- ===== src/Engine/Input/Strokes.antt =====
-- Strokes of sketch_app::process_canvas_input: what becomes of them without a session.
use sketch_sync.Prelude.{◌≡◌, refl, ap, ◌∙◌, Bool, true, false, Option, none, some, arith}
use sketch_sync.DrawOperation.{DrawOperation}
use sketch_sync.Canvas.{Canvas}
use sketch_sync.Canvas.Stroke
use sketch_sync.Canvas.Stroke.{
  CanvasInput, Pen, begin, update, extend, finished, finish, commit_stroke,
}
use sketch_sync.Client.{Client}
use sketch_sync.Engine.{Engine, Environment}
use sketch_sync.Engine.Session.{host_owns_canvas, next_operation_id, track, broadcast_draw}
use sketch_sync.Engine.Receiving.{set_dirty}
use sketch_sync.Engine.Input.{Palette, pen_of, send_stroke, process_canvas_input}

-- What stays when a stroke is lost: the log, the files, the messages and the pending ids.
pub record IsLost (e e' : Engine) : Type 0 where
  pub surface : e'.surface ≡ e.surface
  pub files : e'.files ≡ e.files
  pub calls : e'.calls ≡ e.calls
  pub pending : e'.pending_operations ≡ e.pending_operations

disowned :
    (e : Engine) (c : Client) → e.client ≡ some c → c.host ≡ false → host_owns_canvas e ≡ false
unfolding host_owns_canvas
disowned e c attached guest = ground (arith, attached, guest)

module _ (env : Environment) where
  broadcast_draw-ignored :
      (c : Client) (op : DrawOperation) (track : Bool) (e : Engine)
      → e.client ≡ some c
      → e.in_session ≡ false
      → c.session_id ≡ 0
      → broadcast_draw env op track e ≡ some e
  unfolding broadcast_draw
  broadcast_draw-ignored c op track e attached outside none_id =
      ground (arith, attached, outside, none_id)

  finish-uncommitted :
      (pen : Pen) (input : CanvasInput) (temporary : Option DrawOperation) (surface : Canvas)
      → pen.commit_to_canvas ≡ false
      → (finish env.paint pen input temporary surface).0 ≡ surface
  unfolding finish commit_stroke
  finish-uncommitted pen input none surface h = refl
  finish-uncommitted pen input (some op) surface h = ground (arith, h)

  send_stroke-ignored :
      (c : Client) (r : Option DrawOperation) (e : Engine)
      → e.client ≡ some c
      → e.in_session ≡ false
      → c.session_id ≡ 0
      → (e' : Engine) × (send_stroke env r false e ≡ some e') × IsLost e e'
  unfolding send_stroke
  send_stroke-ignored c none e attached outside none_id =
      (e, refl, record { surface = refl; files = refl; calls = refl; pending = refl })
  send_stroke-ignored c (some op) e attached outside none_id = (
    set_dirty e,
    broadcast_draw-ignored c op true (set_dirty e) attached outside none_id,
    record { surface = refl; files = refl; calls = refl; pending = refl },
  )

  -- With a connection, but not in a session, nothing that the pointer does is kept: the canvas and the
  -- files stay as they are, no message is sent, and no operation waits for its return. The client is no
  -- host and has no session id.
  pub drawn_without_session :
      (palette : Palette) (input : CanvasInput) (e : Engine) (c : Client)
      → e.client ≡ some c
      → c.host ≡ false
      → c.session_id ≡ 0
      → e.in_session ≡ false
      → (e' : Engine) × (process_canvas_input env palette input e ≡ some e') × IsLost e e'
  unfolding process_canvas_input next_operation_id
  drawn_without_session palette input e c attached guest none_id outside =
      let pen = pen_of palette e in
      let drawn = Stroke.process_canvas_input env.paint pen input e.active_stroke e.surface in
      let e2 : Engine = record (next_operation_id e).1 {
        surface = drawn.0;
        active_stroke = drawn.1;
      } in
      let (e', sent, lost) = send_stroke-ignored c drawn.2 e2 attached outside none_id in
      let owns = disowned e c attached guest in
      (
        e',
        ap (λ b. send_stroke env drawn.2 b e2) owns ∙ sent,
        record {
          surface =
              lost.surface
              ∙ unfold pen_of Stroke.process_canvas_input in
                finish-uncommitted pen input
                  (update pen.tool input (begin pen input e.active_stroke)) e.surface owns;
          files = lost.files;
          calls = lost.calls;
          pending = lost.pending;
        },
      )
