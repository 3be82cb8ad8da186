-- ===== src/DrawOperation/Overflow.antt =====
-- serializeDrawOperation on more points than its uint16_t count holds.
use sketch_sync.Prelude.{
  ℕ, ◌+◌, ◌*◌, ◌≡◌, ◌≤◌, none, List, [], ◌∷◌, length, length-replicate, replicate, arith,
}
use mathlib.Core.Option
use mathlib.Core.Path.{subst}
use sketch_sync.Bytes.{serialize, u16}
use sketch_sync.Bytes.Bounds.{
  Takes, Takes-pure, Takes->>, Takes-write8, Takes-write16, Takes-write32, Takes-write64,
}
use sketch_sync.DrawOperation.{
  CanvasPoint, DrawOperation, write_points, write_operation, serialize_draw_operation,
}

Takes-write_points : (ps : List CanvasPoint) → Takes (write_points ps) (length ps * 4)
unfolding write_points
Takes-write_points [] = Takes-pure
Takes-write_points (p ∷ ps) =
    let e : 2 + (2 + length ps * 4) ≡ length (p ∷ ps) * 4 = omega arith in
    subst (Takes (write_points (p ∷ ps))) e
      (Takes->> (Takes-write16 p.x) (Takes->> (Takes-write16 p.y) (Takes-write_points ps)))

Takes-write_operation :
    (op : DrawOperation) → Takes (write_operation op) (24 + length op.points * 4)
unfolding write_operation
Takes-write_operation op =
    let e : 8 + (4 + (4 + (1 + (4 + (1 + (2 + length op.points * 4))))))
        ≡ 24 + length op.points * 4 =
      omega arith in
    subst (Takes (write_operation op)) e (
      Takes->> (Takes-write64 op.operation_id) (
        Takes->> (Takes-write32 op.seq) (
          Takes->> (Takes-write32 op.member_id) (
            Takes->> (Takes-write8 op.tool) (
              Takes->> (Takes-write32 op.color) (
                Takes->> (Takes-write8 op.thickness) (
                  Takes->> (Takes-write16 (u16 (length op.points)))
                    (Takes-write_points op.points))))))))

-- With 65536 points or more, serializeDrawOperation writes outside the buffer that it allocates from
-- the wrapped count.
pub serialize_draw_operation_overflow :
    (op : DrawOperation) → 65536 ≤ length op.points → serialize_draw_operation op ≡ none
unfolding serialize_draw_operation serialize
serialize_draw_operation_overflow op h = rw (
  (Takes-write_operation op).beyond (replicate (24 + u16 (length op.points) * 4) 0) 0 (omega arith)
      (omega (arith, length-replicate {A = ℕ} (24 + u16 (length op.points) * 4) 0)),
  Option.map,
)
