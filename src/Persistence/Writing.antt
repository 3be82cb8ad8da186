-- ===== src/Persistence/Writing.antt =====
-- What persistence_writer::run leaves in a new file: its layout, and the operations that are kept.
use sketch_sync.Prelude.{
  ℕ, ◌≡◌, ◌<◌, refl, sym, ap, ◌∙◌, true, false, some, List, [], ◌∷◌, ◌++◌, ◌^◌, ltb, if◌then◌else◌,
  length, arith, All, Bool-cases, inl, inr, append-nil, append_assoc,
}
use mathlib.Core.Option
use Prim.Native.Nat.{max}
use sketch_sync.Bytes.{Bytes, u32, IsU32, write32, serialize}
use sketch_sync.Bytes.Emit.{Fills-Emits, Emits-write32, Emits-write32_cast, be32, serialize-Fills}
use sketch_sync.DrawOperation.{DrawOperation}
use sketch_sync.DrawOperation.Codec.{operation_layout, serialize_draw_operation-layout}
use sketch_sync.Protocol.CanvasState.RoundTrip.{IsStorable, record_layout, records_layout}
use sketch_sync.Persistence.{
  Writer, magic, new_file, open_file, overwrite, update_header_seq, write_op, drain, wrote_any,
  round, run,
}

-- A file with the number `seq` in its header and a record for each operation.
abbrev pub log_layout : ℕ → List DrawOperation → Bytes
log_layout seq ops = magic ++ (0 ∷ 0 ∷ 0 ∷ 1 ∷ be32 seq ++ (0 ∷ 0 ∷ 0 ∷ 0 ∷ records_layout ops))

-- The operations that the writer keeps.
unfoldable pub kept : ℕ → List DrawOperation → List DrawOperation
kept start [] = []
kept start (op ∷ ops) = if ltb start op.seq then op ∷ kept start ops else kept start ops

-- The highest number of those and `saved`.
unfoldable pub highest : ℕ → ℕ → List DrawOperation → ℕ
highest start saved [] = saved
highest start saved (op ∷ ops) =
    highest start (if ltb start op.seq then max saved op.seq else saved) ops

abbrev pub writer : ℕ → ℕ → ℕ → List DrawOperation → Writer
writer start saved seq ops = record {
  start_after_seq = start;
  saved_seq = saved;
  file = log_layout seq ops;
}

pub serialize_seq : (seq : ℕ) → serialize 4 (write32 seq) ≡ some (be32 seq)
serialize_seq seq =
    serialize-Fills 4 (write32 seq) (be32 seq) refl (Fills-Emits (Emits-write32 seq))

update_header_seq-writer :
    (start saved seq : ℕ) (ops : List DrawOperation)
    → update_header_seq (writer start saved seq ops) ≡ some (writer start saved saved ops)
unfolding update_header_seq overwrite
update_header_seq-writer start saved seq ops = rw (serialize_seq saved) refl

open_file-writer : (start : ℕ) → open_file [] start ≡ some (writer start start start [])
unfolding open_file new_file
open_file-writer start = rw (serialize_seq start) refl

pub open_file-log_layout :
    (start seq : ℕ) (ops : List DrawOperation)
    → open_file (log_layout seq ops) start ≡ some (writer start start seq ops)
unfolding open_file
open_file-log_layout start seq ops = refl

records_layout-append :
    (ops : List DrawOperation) (op : DrawOperation)
    → records_layout (ops ++ op ∷ []) ≡ records_layout ops ++ record_layout (operation_layout op)
records_layout-append [] op = append-nil (record_layout (operation_layout op))
records_layout-append (x ∷ ops) op =
    ap (λ r. record_layout (operation_layout x) ++ r) (records_layout-append ops op)
    ∙ sym (
        append_assoc (record_layout (operation_layout x)) (records_layout ops)
          (record_layout (operation_layout op)))

write_op-kept :
    (start saved seq : ℕ) (ops : List DrawOperation) (op : DrawOperation)
    → IsStorable op
    → ltb start op.seq ≡ true
    → write_op (writer start saved seq ops) op
      ≡ some (writer start (max saved op.seq) seq (ops ++ op ∷ []))
unfolding write_op Option.bind
write_op-kept start saved seq ops op v e =
    rw
      (
        e,
        serialize_draw_operation-layout op v.1,
        serialize-Fills 4 (write32 (u32 (length (operation_layout op))))
            (be32 (length (operation_layout op))) refl
            (Fills-Emits (Emits-write32_cast (length (operation_layout op)))),
        records_layout-append ops op,
      )
      (ap
        (λ n. some (record (writer start n seq ops) {
          file = log_layout seq ops ++ record_layout (operation_layout op);
        }))
        (ground arith))

drain-kept :
    (start saved seq : ℕ) (ops more : List DrawOperation)
    → All IsStorable more
    → drain (writer start saved seq ops) more
      ≡ some (writer start (highest start saved more) seq (ops ++ kept start more))
unfolding drain kept highest Option.bind
drain-kept start saved seq ops [] v =
    ap (λ l. some (writer start saved seq l)) (sym (append-nil ops))
drain-kept start saved seq ops (op ∷ more) v = elim (Bool-cases (ltb start op.seq)) [
  | inl e ↦
      rw (write_op-kept start saved seq ops op v.0 e, e)
        (drain-kept start (max saved op.seq) seq (ops ++ op ∷ []) more v.1
          ∙ ap (λ l. some (writer start (highest start (max saved op.seq) more) seq l))
              (append_assoc ops (op ∷ []) (kept start more)))
  | inr e ↦ rw (skipped e, e) (drain-kept start saved seq ops more v.1)
]
  where
    skipped :
        ltb start op.seq ≡ false
        → write_op (writer start saved seq ops) op ≡ some (writer start saved seq ops)
    skipped e = unfold write_op in rw e refl

-- The number in the header after a round.
header_seq : ℕ → ℕ → ℕ → List DrawOperation → ℕ
header_seq start saved seq ops = if wrote_any start ops then highest start saved ops else seq

round-kept :
    (start saved seq : ℕ) (ops batch : List DrawOperation)
    → All IsStorable batch
    → round (writer start saved seq ops) batch
      ≡ some (
          writer start
            (highest start saved batch)
            (header_seq start saved seq batch)
            (ops ++ kept start batch))
unfolding round header_seq Option.bind
round-kept start saved seq ops batch v = elim (Bool-cases (wrote_any start batch)) [
  | inl e ↦
      rw (drain-kept start saved seq ops batch v, e)
        (update_header_seq-writer start (highest start saved batch) seq (ops ++ kept start batch))
  | inr e ↦ rw (drain-kept start saved seq ops batch v, e) refl
]

-- All operations of the batches, in order.
unfoldable pub queued : List (List DrawOperation) → List DrawOperation
queued [] = []
queued (batch ∷ batches) = batch ++ queued batches

pub kept-append :
    (start : ℕ) (ops more : List DrawOperation)
    → kept start (ops ++ more) ≡ kept start ops ++ kept start more
unfolding kept
kept-append start [] more = refl
kept-append start (op ∷ ops) more = ground (arith, kept-append start ops more)

pub highest-append :
    (start saved : ℕ) (ops more : List DrawOperation)
    → highest start saved (ops ++ more) ≡ highest start (highest start saved ops) more
unfolding highest
highest-append start saved [] more = refl
highest-append start saved (op ∷ ops) more =
    highest-append start (if ltb start op.seq then max saved op.seq else saved) ops more

pub run-kept :
    (start saved seq : ℕ) (ops : List DrawOperation) (batches : List (List DrawOperation))
    → All (All IsStorable) batches
    → let last = highest start saved (queued batches) in
      run (writer start saved seq ops) batches
      ≡ some (writer start last last (ops ++ kept start (queued batches)))
unfolding run queued kept highest Option.bind
run-kept start saved seq ops [] v =
    update_header_seq-writer start saved seq ops
    ∙ ap (λ l. some (writer start saved saved l)) (sym (append-nil ops))
run-kept start saved seq ops (batch ∷ batches) v =
    rw
      (
        round-kept start saved seq ops batch v.0,
        highest-append start saved batch (queued batches),
        kept-append start batch (queued batches),
      )
      (run-kept start (highest start saved batch) (header_seq start saved seq batch)
          (ops ++ kept start batch) batches v.1
        ∙ ap
            (λ l. some (
              writer start (highest start (highest start saved batch) (queued batches))
                (highest start (highest start saved batch) (queued batches)) l))
            (append_assoc ops (kept start batch) (kept start (queued batches))))

-- A writer on a new file, whatever the batches in which it finds the queue, leaves in it a record for each
-- queued operation whose number is above the one that it started after, in the order of the queue, and in
-- the header the highest number of those. All queued operations can be written.
pub run-log_layout :
    (start : ℕ) (batches : List (List DrawOperation))
    → All (All IsStorable) batches
    → let last = highest start start (queued batches) in
      Option.bind (open_file [] start) (λ w. run w batches)
      ≡ some (writer start last last (kept start (queued batches)))
unfolding Option.bind
run-log_layout start batches v =
    rw (open_file-writer start) (run-kept start start start [] batches v)

pub highest-IsU32 :
    (start saved : ℕ) (ops : List DrawOperation)
    → IsU32 saved
    → All IsStorable ops
    → IsU32 (highest start saved ops)
unfolding highest
highest-IsU32 start saved [] h v = h
highest-IsU32 start saved (op ∷ ops) h v =
    let below : op.seq < 2 ^ 32 = v.0.0.seq in
    highest-IsU32 start (if ltb start op.seq then max saved op.seq else saved) ops
      (ground (arith, below)) v.1

pub All-append :
    (ops more : List DrawOperation)
    → All IsStorable ops
    → All IsStorable more
    → All IsStorable (ops ++ more)
All-append [] more v w = w
All-append (op ∷ ops) more v w = (v.0, All-append ops more v.1 w)

pub All-queued :
    (batches : List (List DrawOperation))
    → All (All IsStorable) batches
    → All IsStorable (queued batches)
unfolding queued
All-queued [] v = tt
All-queued (batch ∷ batches) v = All-append batch (queued batches) v.0 (All-queued batches v.1)

pub All-kept :
    (start : ℕ) (ops : List DrawOperation) → All IsStorable ops → All IsStorable (kept start ops)
unfolding kept
All-kept start [] v = tt
All-kept start (op ∷ ops) v = elim (Bool-cases (ltb start op.seq)) [
  | inl e ↦ rw e (v.0, All-kept start ops v.1)
  | inr e ↦ rw e (All-kept start ops v.1)
]

All-front : (ops more : List DrawOperation) → All IsStorable (ops ++ more) → All IsStorable ops
All-front [] more v = tt
All-front (op ∷ ops) more v = (v.0, All-front ops more v.1)

All-back : (ops more : List DrawOperation) → All IsStorable (ops ++ more) → All IsStorable more
All-back [] more v = v
All-back (op ∷ ops) more v = All-back ops more v.1

pub All-batches :
    (batches : List (List DrawOperation))
    → All IsStorable (queued batches)
    → All (All IsStorable) batches
unfolding queued
All-batches [] v = tt
All-batches (batch ∷ batches) v =
    (All-front batch (queued batches) v, All-batches batches (All-back batch (queued batches) v))
