-- ===== src/Canvas/Stroke.antt =====
-- process_canvas_input of engine/canvas/canvas.cpp: how the pointer makes a drawing operation. A frame's input
-- is canvas_input_state; the operation under way is `temporary`.
pub mod Distance
pub mod Committed
pub mod Ended
use sketch_sync.Prelude.{
  ℕ, zero, suc, ◌+◌, ◌*◌, ◌-◌, ◌%◌, ◌^◌, Bool, true, false, not, ◌&&◌, ◌||◌, Option, none, some,
  List, [], ◌∷◌, ◌++◌, ltb, leb, ◌==◌, if◌then◌else◌, length,
}
use sketch_sync.DrawOperation.{CanvasPoint, DrawOperation}
use sketch_sync.DrawOperation.ToolType
use sketch_sync.Canvas.{Picture, Canvas, apply}

pub record CanvasInput : Type 0 where
  pub inside : Bool
  pub pressed : Bool
  pub down : Bool
  pub released : Bool
  pub position : CanvasPoint

-- The other arguments: the operation's id, its owner, its look, and whether the canvas applies it.
pub record Pen : Type 0 where
  pub operation_id : ℕ
  pub member_id : ℕ
  pub color : ℕ
  pub thickness : ℕ
  pub commit_to_canvas : Bool
  pub tool : ℕ

abbrev pub is_freehand : ℕ → Bool
is_freehand tool = tool == ToolType.freehand || tool == ToolType.eraser || tool == ToolType.brush

-- The square of a difference of two coordinates.
abbrev pub square : ℕ → ℕ → ℕ
square a b = let d = (a - b) + (b - a) in d * d

-- dx * dx + dy * dy >= 32 * 32 in an int of 32 bits. C++ leaves its overflow undefined; here it wraps, as
-- it does on the usual machines, and from 2 ^ 31 on it is negative.
unfoldable pub far_enough : CanvasPoint → CanvasPoint → Bool
far_enough p q =
    let d = (square p.x q.x + square p.y q.y) % 2 ^ 32 in ltb d (2 ^ 31) && leb (32 * 32) d

-- points.back(); a stroke has a point from the start.
unfoldable pub back : CanvasPoint → List CanvasPoint → CanvasPoint
back p [] = p
back p (q ∷ ps) = back q ps

-- points.back() = p
pub set_back : CanvasPoint → List CanvasPoint → List CanvasPoint
set_back p [] = []
set_back p (q ∷ []) = p ∷ []
set_back p (q ∷ r ∷ ps) = q ∷ set_back p (r ∷ ps)

pub start_stroke : Pen → CanvasInput → DrawOperation
start_stroke pen input = record {
  operation_id = pen.operation_id;
  seq = 0;
  member_id = pen.member_id;
  tool = pen.tool;
  color = pen.color;
  thickness = pen.thickness;
  points = input.position ∷ [];
}

-- The first `if`.
unfoldable pub begin : Pen → CanvasInput → Option DrawOperation → Option DrawOperation
begin pen input (some op) = some op
begin pen input none = if input.pressed && input.inside then some (start_stroke pen input) else none

unfoldable pub add_freehand : CanvasPoint → List CanvasPoint → List CanvasPoint
add_freehand p [] = p ∷ []
add_freehand p (q ∷ ps) = if far_enough p (back q ps) then (q ∷ ps) ++ p ∷ [] else q ∷ ps

pub add_corner : CanvasPoint → List CanvasPoint → List CanvasPoint
add_corner p [] = []
add_corner p (q ∷ []) = q ∷ p ∷ []
add_corner p (q ∷ r ∷ ps) = set_back p (q ∷ r ∷ ps)

-- The second `if`, on a stroke.
unfoldable pub extend : ℕ → CanvasInput → DrawOperation → DrawOperation
extend tool input op =
    if input.down || input.released && input.inside
    then (if is_freehand tool
        then record op { points = add_freehand input.position op.points }
        else if tool == ToolType.bucket_fill
        then op
        else record op { points = add_corner input.position op.points })
    else op

unfoldable pub update : ℕ → CanvasInput → Option DrawOperation → Option DrawOperation
update tool input none = none
update tool input (some op) = some (extend tool input op)

-- A single point counts twice.
unfoldable pub doubled : List CanvasPoint → List CanvasPoint
doubled [] = []
doubled (p ∷ []) = p ∷ p ∷ []
doubled (p ∷ q ∷ ps) = p ∷ q ∷ ps

unfoldable pub finished : DrawOperation → DrawOperation
finished op = record op { points = doubled op.points }

module _ (paint : Picture → DrawOperation → List ℕ) where
  unfoldable pub commit_stroke : Bool → DrawOperation → Canvas → Canvas × DrawOperation
  commit_stroke commit_to_canvas op surface =
      if commit_to_canvas
      then (let (surface', seq) = apply paint surface op in (surface', record op { seq = seq }))
      else (surface, op)

  -- The canvas, `temporary` and the result.
  abbrev pub Drawn : Type 0
  Drawn = Canvas × Option DrawOperation × Option DrawOperation

  unfoldable pub finish : Pen → CanvasInput → Option DrawOperation → Canvas → Drawn
  finish pen input none surface = (surface, none, none)
  finish pen input (some op) surface =
      let (surface', committed) = commit_stroke pen.commit_to_canvas (finished op) surface in
      if input.released then (surface', none, some committed) else (surface, some op, none)

  unfoldable pub process_canvas_input : Pen → CanvasInput → Option DrawOperation → Canvas → Drawn
  process_canvas_input pen input temporary surface =
      finish pen input (update pen.tool input (begin pen input temporary)) surface
