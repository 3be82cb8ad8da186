-- ===== src/Engine/Input/Released.antt =====
-- The release of the pointer in a session (sketch_app::process_canvas_input): the stroke, and what becomes of it.
use sketch_sync.Prelude.{
  ℕ, suc, ◌≡◌, refl, ◌∙◌, ap, Bool, true, false, not, ◌&&◌, ◌||◌, if◌then◌else◌, some, none, List,
  [], ◌∷◌, ◌++◌, ◌==◌, length, arith, Bool-cases, inl, inr,
}
use mathlib.Core.Path.{subst}
use sketch_sync.Bytes.{IsU16}
use sketch_sync.DrawOperation.{CanvasPoint, DrawOperation}
use sketch_sync.DrawOperation.ToolType
use sketch_sync.Canvas.{Canvas, apply, contains}
use sketch_sync.Canvas.Log.{contains-insert}
use sketch_sync.Canvas.Stroke
use sketch_sync.Canvas.Stroke.{
  CanvasInput, Pen, is_freehand, begin, update, extend, finished, finish, commit_stroke,
}
use sketch_sync.Canvas.Stroke.Ended.{IsEnded, IsEnded-length, finished-IsEnded}
use sketch_sync.Client.{Client}
use sketch_sync.Files.{enqueue_if_auto_save}
use sketch_sync.Files.Queue.{queued_too, enqueue_if_auto_save-queued}
use sketch_sync.Engine.{Engine, Environment, Call}
use sketch_sync.Engine.Calls.{with_call}
use sketch_sync.Engine.Calls.Sending.{tell_lem}
use sketch_sync.Engine.Session.{host_owns_canvas, next_operation_id, track, broadcast_draw}
use sketch_sync.Engine.Receiving.{set_dirty}
use sketch_sync.Engine.Input.{Palette, pen_of, send_stroke, process_canvas_input}

module _ (env : Environment) where
  -- An operation that goes to the server.
  broadcast_draw-sent :
      (c : Client) (op : DrawOperation) (track_pending : Bool) (e : Engine)
      → e.client ≡ some c
      → e.in_session ≡ true
      → IsU16 (length op.points)
      → broadcast_draw env op track_pending e
        ≡ some (with_call c (Call.draw op) (track env track_pending op.operation_id e))
  unfolding broadcast_draw track
  broadcast_draw-sent c op track_pending e attached inside h = ground (
    arith,
    attached,
    inside,
    tell_lem env c (Call.draw op) (track env track_pending op.operation_id e) h,
  )

  finish-released :
      (pen : Pen) (input : CanvasInput) (op : DrawOperation) (surface : Canvas)
      → input.released ≡ true
      → let (surface', drawn) =
          commit_stroke env.paint pen.commit_to_canvas (finished op) surface in
        finish env.paint pen input (some op) surface ≡ (surface', none, some drawn)
  unfolding finish
  finish-released pen input op surface h = rw h refl

  length-commit_stroke :
      (b : Bool) (op : DrawOperation) (surface : Canvas)
      → length (commit_stroke env.paint b op surface).1.points ≡ length op.points
  unfolding commit_stroke
  length-commit_stroke true op surface = refl
  length-commit_stroke false op surface = refl

  owned : (e : Engine) (c : Client) → e.client ≡ some c → host_owns_canvas e ≡ c.host
  unfolding host_owns_canvas
  owned e c attached = ground (arith, attached)

  -- The program after the stroke was drawn, sent with `number`, and is over.
  pub record IsSent (c : Client) (stroke : DrawOperation) (number : ℕ) (e e' : Engine)
      : Type 0 where
    pub surface :
        (e'.surface, number)
        ≡ (if c.host then apply env.paint e.surface stroke else (e.surface, stroke.seq))
    pub calls : e'.calls ≡ e.calls ++ (c, Call.draw (record stroke { seq = number })) ∷ []
    pub files :
        e'.files ≡ (if c.host then queued_too (record stroke { seq = number }) e.files else e.files)
    pub pending :
        (x : ℕ)
        → contains x e'.pending_operations
          ≡ (not c.host && stroke.operation_id == x || contains x e.pending_operations)
    pub over : e'.active_stroke ≡ none

  send_stroke-called :
      (c : Client) (b : Bool) (op : DrawOperation) (e : Engine)
      → e.client ≡ some c
      → e.in_session ≡ true
      → IsU16 (length op.points)
      → let files = if b then enqueue_if_auto_save op e.files else e.files in
        send_stroke env (some op) b e
        ≡ some (
            with_call c
              (Call.draw op)
              (track env (not b) op.operation_id (set_dirty (record e { files = files }))))
  unfolding send_stroke
  send_stroke-called c b op e attached inside h =
      let files = if b then enqueue_if_auto_save op e.files else e.files in
      broadcast_draw-sent c op (not b) (set_dirty (record e { files = files })) attached inside h

  sent_engine : Client → Bool → Canvas → DrawOperation → Engine → Engine
  sent_engine c b surface op e = with_call c (Call.draw op) (
      track env (not b) op.operation_id (
        set_dirty (record (next_operation_id e).1 {
          surface = surface;
          active_stroke = none;
          files = if b then enqueue_if_auto_save op e.files else e.files;
        })))

  sent_engine-IsSent :
      (c : Client) (b : Bool) (stroke : DrawOperation) (e : Engine)
      → c.host ≡ b
      → let (surface', drawn) = commit_stroke env.paint b stroke e.surface in
        IsSent c stroke drawn.seq e (sent_engine c b surface' drawn e)
  unfolding sent_engine track next_operation_id commit_stroke
  sent_engine-IsSent c true stroke e h =
      let number = (apply env.paint e.surface stroke).1 in
      record {
        surface = rw h refl;
        calls = refl;
        files = rw h (enqueue_if_auto_save-queued (record stroke { seq = number }) e.files);
        pending = λ x. rw h refl;
        over = refl;
      }
  sent_engine-IsSent c false stroke e h = record {
    surface = rw h refl;
    calls = refl;
    files = rw h refl;
    pending = λ x. rw h (contains-insert x stroke.operation_id e.pending_operations);
    over = refl;
  }

  -- Only the points of a stroke change.
  extend-kept :
      (tool : ℕ) (input : CanvasInput) (op : DrawOperation)
      → let stroke = finished (extend tool input op) in
        stroke ≡ record op { points = stroke.points }
  unfolding finished extend
  extend-kept tool input op = elim (Bool-cases (input.down || input.released && input.inside)) [
    | inr o ↦ rw o refl
    | inl t ↦ elim (Bool-cases (is_freehand tool)) [
      | inl f ↦ rw (t, f) refl
      | inr f ↦ elim (Bool-cases (tool == ToolType.bucket_fill)) [
        | inl b ↦ rw (t, f, b) refl
        | inr b ↦ rw (t, f, b) refl
      ]
    ]
  ]

  processed :
      (palette : Palette) (input : CanvasInput) (e : Engine) (c : Client) (op : DrawOperation)
      → e.client ≡ some c
      → e.active_stroke ≡ some op
      → input.released ≡ true
      → let stroke = finished (extend palette.tool input op) in
        let (surface', drawn) = commit_stroke env.paint c.host stroke e.surface in
        Stroke.process_canvas_input env.paint (pen_of palette e) input e.active_stroke e.surface
        ≡ (surface', none, some drawn)
  unfolding Stroke.process_canvas_input pen_of update begin
  processed palette input e c op attached active released =
      let pen = pen_of palette e in
      let stroke = extend palette.tool input op in
      ap (λ t. finish env.paint pen input (update pen.tool input (begin pen input t)) e.surface)
        active
      ∙ finish-released pen input stroke e.surface released
      ∙ ap
          (λ b.
            let (surface', drawn) = commit_stroke env.paint b (finished stroke) e.surface in
            (surface', none, some drawn))
          (owned e c attached)

  -- In a session, the release of the pointer ends the stroke under way and sends it. The stroke keeps its id
  -- and its look; its points are those before the frame with the pointer's position taken as the tool takes
  -- it, and a single point doubled. At the host the canvas applies the stroke, and it goes out, and to the
  -- end of the writer's queue, if a writer is open, with the number that the canvas gave. A member's canvas
  -- and files are left alone, and the id is pending from then on. The stroke had a point, and fewer than
  -- 65535.
  pub released_stroke :
      (palette : Palette) (input : CanvasInput) (e : Engine) (c : Client) (op : DrawOperation)
      (p : CanvasPoint) (ps : List CanvasPoint)
      → e.client ≡ some c
      → e.in_session ≡ true
      → e.active_stroke ≡ some op
      → op.points ≡ p ∷ ps
      → input.released ≡ true
      → IsU16 (suc (length (p ∷ ps)))
      → (points : List CanvasPoint) × IsEnded palette.tool input (p ∷ ps) points
        × (e' : Engine) × (process_canvas_input env palette input e ≡ some e')
        × (number : ℕ) × IsSent c (record op { points = points }) number e e'
  unfolding process_canvas_input next_operation_id sent_engine finished
  released_stroke palette input e c op p ps attached inside active drawn_before released h =
      let pen = pen_of palette e in
      let stroke = finished (extend palette.tool input op) in
      let ended = finished-IsEnded palette.tool input p ps op drawn_before released in
      let (surface', drawn) = commit_stroke env.paint c.host stroke e.surface in
      let e2 : Engine = record (next_operation_id e).1 {
        surface = surface';
        active_stroke = none;
      } in
      let longest = IsEnded-length p ps ended in
      let n = length-commit_stroke c.host stroke e.surface in
      let fits : IsU16 (length drawn.points) = omega (arith, n, longest, h) in
      let sent = sent_engine-IsSent c c.host stroke e refl in
      (
        stroke.points,
        ended,
        sent_engine c c.host surface' drawn e,
        ap
              (λ x.
                send_stroke env x.2 (host_owns_canvas e)
                  (record (next_operation_id e).1 { surface = x.0; active_stroke = x.1 }))
              (processed palette input e c op attached active released)
            ∙ ap (λ b. send_stroke env (some drawn) b e2) (owned e c attached)
            ∙ send_stroke-called c c.host drawn e2 attached inside fits,
        drawn.seq,
        subst (λ s. IsSent c s drawn.seq e (sent_engine c c.host surface' drawn e))
            (extend-kept palette.tool input op) sent,
      )
