-- ===== src/DrawOperation.antt =====
-- common/canvas/draw_operation.h and draw_operation.cpp: a drawing operation, its wire format and
-- its validation.
pub mod ToolType
pub mod Codec
pub mod Overflow
pub mod Validity
use sketch_sync.Prelude.{
  ℕ, zero, suc, ◌+◌, ◌*◌, Bool, true, false, not, ◌&&◌, ◌||◌, Option, List, [], ◌∷◌, ltb, ◌==◌,
  if◌then◌else◌, length,
}
use sketch_sync.Results.{Result, Error, ok, fail, text}
use sketch_sync.Bytes.{
  Bytes, Action, u8, u16, read8, read16, read32, read64, write8, write16, write32, write64, pure,
  ◌>>=◌, ◌>>◌, serialize,
}
use sketch_sync.Bytes.Guard.{parse_at_least}
use ToolType

pub record CanvasPoint : Type 0 where
  pub x : ℕ
  pub y : ℕ

pub record DrawOperation : Type 0 where
  pub operation_id : ℕ
  pub seq : ℕ
  pub member_id : ℕ
  pub tool : ℕ
  pub color : ℕ
  pub thickness : ℕ
  pub points : List CanvasPoint

abbrev pub draw_op_fixed_size : ℕ
draw_op_fixed_size = 24

-- A default-initialised draw_operation.
abbrev pub no_operation : DrawOperation
no_operation = record {
  operation_id = 0;
  seq = 0;
  member_id = 0;
  tool = ToolType.freehand;
  color = 0xFFFFFFFF;
  thickness = 1;
  points = [];
}

-- for (const auto& [x, y] : op.points)
write_points : List CanvasPoint → Action (Unit {0})
write_points [] = pure tt
write_points (p ∷ ps) = do write16 p.x; write16 p.y; write_points ps

write_operation : DrawOperation → Action (Unit {0})
write_operation op = do
  write64 op.operation_id
  write32 op.seq
  write32 op.member_id
  write8 op.tool
  write32 op.color
  write8 op.thickness
  write16 (u16 (length op.points))
  write_points op.points

-- The buffer is sized by the count as a uint16_t; the loop runs over all points.
pub serialize_draw_operation : DrawOperation → Option Bytes
serialize_draw_operation op =
    serialize (draw_op_fixed_size + u16 (length op.points) * 4) (write_operation op)

-- for (auto& [x, y] : op.points), after op.points.resize(point_count)
read_points : ℕ → Action (List CanvasPoint)
read_points zero = pure []
read_points (suc n) = do
  x ← read16
  y ← read16
  rest ← read_points n
  pure (record { x = x; y = y } ∷ rest)

read_operation : ℕ → Action (Result DrawOperation)
read_operation size = do
  operation_id ← read64
  seq ← read32
  member_id ← read32
  tool ← read8
  color ← read32
  thickness ← read8
  point_count ← read16
  if ltb size (draw_op_fixed_size + point_count * 4)
      then pure (fail no_operation Error.malformed (text "points truncated"))
      else do
        points ← read_points point_count
        pure (
            ok (record {
              operation_id = operation_id;
              seq = seq;
              member_id = member_id;
              tool = tool;
              color = color;
              thickness = thickness;
              points = points;
            }))

pub parse_draw_operation : Bytes → Option (Result DrawOperation)
parse_draw_operation bs =
    parse_at_least draw_op_fixed_size no_operation "draw_operation too short"
      (read_operation (length bs)) bs

abbrev pub max_points : ℕ
max_points = 65535

abbrev pub max_thickness : ℕ
max_thickness = 64

abbrev invalid : List ℕ → Result Bool
invalid message = fail false Error.malformed message

abbrev is_empty {ℓ} : {A : Type ℓ} → List A → Bool
is_empty [] = true
is_empty (x ∷ xs) = false

-- The tools that are drawn between two points.
abbrev is_shape : ℕ → Bool
is_shape tool =
    tool == ToolType.line
    || tool == ToolType.rect
    || tool == ToolType.ellipse
    || tool == ToolType.filled_rect
    || tool == ToolType.filled_ellipse

abbrev is_stroke : ℕ → Bool
is_stroke tool = tool == ToolType.freehand || tool == ToolType.eraser || tool == ToolType.brush

-- The last part of validateDrawOperation: how many points each tool takes.
validate_points : DrawOperation → Result Bool
validate_points op =
    if op.tool == ToolType.clear
    then (if is_empty op.points then ok true else invalid (text "clear operation has points"))
    else if is_shape op.tool && not (length op.points == 2)
    then invalid (text "shape requires two points")
    else if is_stroke op.tool && is_empty op.points
    then invalid (text "stroke has no points")
    else if op.tool == ToolType.bucket_fill && is_empty op.points
    then invalid (text "bucket fill has no point")
    else ok true

pub validate_draw_operation : DrawOperation → Bool → Result Bool
validate_draw_operation op require_sequence =
    if op.operation_id == 0
    then invalid (text "operation ID is missing")
    else if (if require_sequence then op.seq == 0 else not (op.seq == 0))
    then invalid (
        if require_sequence
        then text "committed operation has no sequence"
        else text "uncommitted operation has a sequence")
    else if op.member_id == 0
    then invalid (text "member ID is missing")
    else if ltb ToolType.brush op.tool
    then invalid (text "unknown drawing tool")
    else if op.thickness == 0 || ltb max_thickness op.thickness
    then invalid (text "invalid stroke thickness")
    else if ltb max_points (length op.points)
    then invalid (text "too many points")
    else validate_points op
