-- ===== src/Persistence/Ending.antt =====
-- Files that a writer did not write: persistence_writer::run gets to its end on any of them.
use sketch_sync.Prelude.{◌≡◌, refl, some, List, [], ◌∷◌, ℕ, ltb, All, Bool-cases, inl, inr, length}
use mathlib.Core.Option
use sketch_sync.Bytes.{Bytes, u32, write32}
use sketch_sync.Bytes.Emit.{Fills-Emits, Emits-write32_cast, be32, serialize-Fills}
use sketch_sync.DrawOperation.{DrawOperation}
use sketch_sync.DrawOperation.Codec.{operation_layout, serialize_draw_operation-layout}
use sketch_sync.Protocol.CanvasState.RoundTrip.{IsStorable}
use sketch_sync.Persistence.{
  Writer, update_header_seq, write_op, drain, wrote_any, round, run, open_file, new_file,
}
use sketch_sync.Persistence.Writing.{serialize_seq}

update_header_seq-total : (w : Writer) → (w' : Writer) × (update_header_seq w ≡ some w')
unfolding update_header_seq
update_header_seq-total w = rw (serialize_seq w.saved_seq) (_, refl)

write_op-total :
    (w : Writer) (op : DrawOperation) → IsStorable op → (w' : Writer) × (write_op w op ≡ some w')
unfolding write_op Option.bind
write_op-total w op v = elim (Bool-cases (ltb w.start_after_seq op.seq)) [
  | inl e ↦
      rw
        (
          e,
          serialize_draw_operation-layout op v.1,
          serialize-Fills 4 (write32 (u32 (length (operation_layout op))))
              (be32 (length (operation_layout op))) refl
              (Fills-Emits (Emits-write32_cast (length (operation_layout op)))),
        )
        (_, refl)
  | inr e ↦ rw e (w, refl)
]

drain-total :
    (w : Writer) (ops : List DrawOperation)
    → All IsStorable ops
    → (w' : Writer) × (drain w ops ≡ some w')
unfolding drain Option.bind
drain-total w [] v = (w, refl)
drain-total w (op ∷ ops) v = let (w1, e) = write_op-total w op v.0 in rw e (drain-total w1 ops v.1)

round-total :
    (w : Writer) (ops : List DrawOperation)
    → All IsStorable ops
    → (w' : Writer) × (round w ops ≡ some w')
unfolding round Option.bind
round-total w ops v =
    let (w1, e) = drain-total w ops v in
    elim (Bool-cases (wrote_any w.start_after_seq ops)) [
      | inl h ↦ rw (e, h) (update_header_seq-total w1)
      | inr h ↦ rw (e, h) (w1, refl)
    ]

pub run-total :
    (w : Writer) (batches : List (List DrawOperation))
    → All (All IsStorable) batches
    → (w' : Writer) × (run w batches ≡ some w')
unfolding run Option.bind
run-total w [] v = update_header_seq-total w
run-total w (batch ∷ batches) v =
    let (w1, e) = round-total w batch v.0 in rw e (run-total w1 batches v.1)

pub open_file-total : (file : Bytes) (start : ℕ) → (w : Writer) × (open_file file start ≡ some w)
unfolding open_file new_file
open_file-total [] start = rw (serialize_seq start) (_, refl)
open_file-total (b ∷ bs) start = (_, refl)
