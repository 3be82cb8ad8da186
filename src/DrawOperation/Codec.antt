-- ===== src/DrawOperation/Codec.antt =====
-- The wire format of a drawing operation (draw_operation.cpp): its layout, its size, and the way back.
use sketch_sync.Prelude.{
  ℕ, zero, suc, ◌+◌, ◌*◌, ◌≡◌, refl, some, List, [], ◌∷◌, ◌++◌, length, arith, false, le→ltb,
  ltb→le, ltb, All,
}
use mathlib.Core.Option
use mathlib.Core.Path.{subst}
use sketch_sync.Results.{Result, ok}
use sketch_sync.Bytes.{Bytes, u8, u16, IsByte, IsU16, IsU32, IsU64}
use sketch_sync.Bytes.Emit.{
  Emits, Fills, Fills->>, Emits->>, Emits-pure, Emits-write8, Emits-write16, Emits-write32,
  Emits-write64, Fills-Emits, be16, be32, be64, serialize-Fills,
}
use sketch_sync.Bytes.Read.{
  Reads, Finds, Finds->>=, Reads->>=, Finds-Reads, Reads-be8, Reads-be16, Reads-be32, Reads-be64,
  Reads-pure, Reads-map, Safe, Safe->>=, Safe-pure, Ready->>=, Ready-pure, Ready-if, Safe-read8,
  Safe-read16, Safe-read32, Safe-read64,
}
use sketch_sync.Bytes.Guard.{at_least-whole, at_least-total}
use sketch_sync.DrawOperation.{
  CanvasPoint, DrawOperation, no_operation, write_points, write_operation, serialize_draw_operation,
  read_points, read_operation, parse_draw_operation,
}

abbrev pub IsPoint : CanvasPoint → Type 0
IsPoint p = IsU16 p.x × IsU16 p.y

-- The ranges of the fields' types.
pub record IsOperation (op : DrawOperation) : Type 0 where
  pub operation_id : IsU64 op.operation_id
  pub seq : IsU32 op.seq
  pub member_id : IsU32 op.member_id
  pub tool : IsByte op.tool
  pub color : IsU32 op.color
  pub thickness : IsByte op.thickness
  pub points : All IsPoint op.points

abbrev pub points_layout : List CanvasPoint → Bytes
points_layout [] = []
points_layout (p ∷ ps) = be16 p.x ++ (be16 p.y ++ points_layout ps)

abbrev pub fixed_layout : DrawOperation → Bytes
fixed_layout op =
    be64 op.operation_id
    ++ (be32 op.seq
        ++ (be32 op.member_id
            ++ (u8 op.tool ∷ be32 op.color ++ (u8 op.thickness ∷ be16 (u16 (length op.points))))))

pub operation_layout : DrawOperation → Bytes
operation_layout op = fixed_layout op ++ points_layout op.points

length-points_layout : (ps : List CanvasPoint) → length (points_layout ps) ≡ length ps * 4
length-points_layout [] = refl
length-points_layout (p ∷ ps) = omega (arith, length-points_layout ps)

Emits-write_points : (ps : List CanvasPoint) → Emits (write_points ps) (points_layout ps)
unfolding write_points
Emits-write_points [] = Emits-pure
Emits-write_points (p ∷ ps) =
    Emits->> (Emits-write16 p.x) (Emits->> (Emits-write16 p.y) (Emits-write_points ps))

Fills-write_operation : (op : DrawOperation) → Fills (write_operation op) (operation_layout op)
unfolding write_operation operation_layout
Fills-write_operation op = Fills->> (Emits-write64 op.operation_id) (
    Fills->> (Emits-write32 op.seq) (
      Fills->> (Emits-write32 op.member_id) (
        Fills->> (Emits-write8 op.tool) (
          Fills->> (Emits-write32 op.color) (
            Fills->> (Emits-write8 op.thickness) (
              Fills->> (Emits-write16 (u16 (length op.points)))
                (Fills-Emits (Emits-write_points op.points))))))))

-- Up to 65535 points the buffer is exactly filled.
pub serialize_draw_operation-layout :
    (op : DrawOperation)
    → IsU16 (length op.points)
    → serialize_draw_operation op ≡ some (operation_layout op)
unfolding serialize_draw_operation operation_layout
serialize_draw_operation-layout op h =
    serialize-Fills (24 + u16 (length op.points) * 4) _ _
      (omega (arith, length-points_layout op.points)) (Fills-write_operation op)

pub length-operation_layout :
    (op : DrawOperation) → length (operation_layout op) ≡ 24 + length op.points * 4
unfolding operation_layout
length-operation_layout op = omega (arith, length-points_layout op.points)

Reads-read_points :
    (ps : List CanvasPoint) → All IsPoint ps → Reads (read_points (length ps)) (points_layout ps) ps
unfolding read_points
Reads-read_points [] h = Reads-pure []
Reads-read_points (p ∷ ps) h = Reads->>= _ (Reads-be16 p.x h.0.0) (
    Reads->>= _ (Reads-be16 p.y h.0.1) (
      Reads-map (read_points (length ps)) (λ rest. p ∷ rest) (points_layout ps) ps
        (Reads-read_points ps h.1)))

read_operation-Finds :
    (op : DrawOperation)
    → IsOperation op
    → IsU16 (length op.points)
    → Finds (read_operation (length (operation_layout op))) (operation_layout op) (ok op)
unfolding read_operation operation_layout
read_operation-Finds op v h = Finds->>= _ (Reads-be64 op.operation_id v.operation_id) (
    Finds->>= _ (Reads-be32 op.seq v.seq) (
      Finds->>= _ (Reads-be32 op.member_id v.member_id) (
        Finds->>= _ (Reads-be8 op.tool v.tool) (
          Finds->>= _ (Reads-be32 op.color v.color) (
            Finds->>= _ (Reads-be8 op.thickness v.thickness) (
              Finds->>= _ (Reads-be16 (u16 (length op.points)) (omega arith)) (
                rw (fits, e)
                  (Finds-Reads (
                    Reads-map (read_points (length op.points))
                      (λ ps. ok (record op { points = ps })) (points_layout op.points) op.points
                      (Reads-read_points op.points v.points))))))))))
  where
    e : u16 (length op.points) ≡ length op.points
    e = omega arith

    fits : ltb (length (operation_layout op)) (24 + u16 (length op.points) * 4) ≡ false
    fits = le→ltb _ _ (omega (arith, length-points_layout op.points))

pub parse_draw_operation-layout :
    (op : DrawOperation)
    → IsOperation op
    → IsU16 (length op.points)
    → parse_draw_operation (operation_layout op) ≡ some (ok op)
unfolding parse_draw_operation
parse_draw_operation-layout op v h =
    at_least-whole 24 no_operation "draw_operation too short"
      (read_operation (length (operation_layout op))) (operation_layout op)
      (omega (arith, length-operation_layout op)) (read_operation-Finds op v h)

-- An operation with fields in their ranges and at most 65535 points is read back as it was written.
pub draw_operation_round_trip :
    (op : DrawOperation)
    → IsOperation op
    → IsU16 (length op.points)
    → Option.bind (serialize_draw_operation op) parse_draw_operation ≡ some (ok op)
unfolding Option.bind
draw_operation_round_trip op v h =
    rw (serialize_draw_operation-layout op h) (parse_draw_operation-layout op v h)

Safe-read_points : (n : ℕ) → Safe (read_points n) (n * 4)
unfolding read_points
Safe-read_points zero = Safe-pure []
Safe-read_points (suc n) =
    let e : 2 + (2 + (n * 4 + 0)) ≡ suc n * 4 = omega arith in
    subst (Safe _) e (
      Safe->>= _ Safe-read16
        (λ _. Safe->>= _ Safe-read16 (λ _. Safe->>= _ (Safe-read_points n) (λ _. Safe-pure _))))

-- parseDrawOperation returns a result on any bytes: it reads none outside its span.
pub parse_draw_operation-total :
    (bs : Bytes) → (r : Result DrawOperation) × (parse_draw_operation bs ≡ some r)
unfolding parse_draw_operation read_operation
parse_draw_operation-total bs = at_least-total _ _ _ (read_operation (length bs)) bs λ h.
    Ready->>= _ Safe-read64 (omega arith) λ _. Ready->>= _ Safe-read32 (omega arith) λ _.
      Ready->>= _ Safe-read32 (omega arith) λ _. Ready->>= _ Safe-read8 (omega arith) λ _.
        Ready->>= _ Safe-read32 (omega arith) λ _. Ready->>= _ Safe-read8 (omega arith) λ _.
          Ready->>= _ Safe-read16 (omega arith) λ n.
            Ready-if (ltb (length bs) (24 + n * 4)) (λ _. Ready-pure _ _ _)
              λ e. Ready->>= _ (Safe-read_points n) (ltb→le _ _ e) (λ _. Ready-pure _ _ _)
