-- ===== src/Protocol/CanvasState/RoundTrip.antt =====
-- The canvas state of message.cpp: its layout, the way back, and its reader on any span.
use sketch_sync.Prelude.{
  ◌<◌, ◌^◌, ℕ, zero, suc, ◌+◌, ◌≡◌, refl, ap, ◌∙◌, some, List, [], ◌∷◌, ◌++◌, length, length-append,
  length-replicate, replicate, arith, le→ltb, ltb→le, ltb, All, append-nil, append_assoc, map, not,
}
use mathlib.Core.Option
use sketch_sync.Results.{Result, ok, is_ok}
use sketch_sync.Bytes.{
  Bytes, cursor, u32, IsU16, IsU32, ◌>>=◌, Cursor, parse, tell, lift, skip, write32,
}
use sketch_sync.Bytes.Emit.{
  Fills->>, Emits-write32_cast, Fills-memcpy, Fills-Emits, be32, serialize-Fills,
}
use sketch_sync.Bytes.Read.{
  Reads-be32, Ready, Ready->>=, Ready-pure, Ready-if, Ready-string_at, Ready-tell, Ready-skip,
  Ready-lift, Safe-read32, string_at_mid,
}
use sketch_sync.Bytes.Guard.{at_least-total}
use sketch_sync.DrawOperation.{DrawOperation, parse_draw_operation}
use sketch_sync.DrawOperation.Codec.{
  IsOperation, operation_layout, length-operation_layout, serialize_draw_operation-layout,
  parse_draw_operation-layout, parse_draw_operation-total,
}
use sketch_sync.Protocol.CanvasState.{
  serialize_each, append_record, append_records, serialize_canvas_state, read_records,
  read_canvas_state, parse_canvas_state,
}

-- Operations that can be written: fields in their ranges, and at most 65535 points.
abbrev pub IsStorable : DrawOperation → Type 0
IsStorable op = IsOperation op × IsU16 (length op.points)

pub stamped-IsStorable :
    (op : DrawOperation) (n : ℕ) → IsStorable op → n < 2 ^ 32 → IsStorable (record op { seq = n })
stamped-IsStorable op n s h = (
  record {
    operation_id = s.0.operation_id;
    seq = h;
    member_id = s.0.member_id;
    tool = s.0.tool;
    color = s.0.color;
    thickness = s.0.thickness;
    points = s.0.points;
  },
  s.1,
)

abbrev pub record_layout : Bytes → Bytes
record_layout s = be32 (length s) ++ s

abbrev pub records_layout : List DrawOperation → Bytes
records_layout [] = []
records_layout (op ∷ ops) = record_layout (operation_layout op) ++ records_layout ops

serialize_each-layout :
    (ops : List DrawOperation)
    → All IsStorable ops
    → serialize_each ops ≡ some (map operation_layout ops)
unfolding serialize_each Option.bind
serialize_each-layout [] h = refl
serialize_each-layout (op ∷ ops) h =
    rw (serialize_draw_operation-layout op h.0.1, Option.bind, serialize_each-layout ops h.1)

append_record-layout : (buf s : Bytes) → append_record buf s ≡ some (buf ++ record_layout s)
unfolding append_record
append_record-layout buf s =
    let (off, e) =
      (Fills->> (Emits-write32_cast (length s)) (Fills-memcpy s)).at buf
        (replicate (4 + length s) 0) []
        (omega (arith, length-replicate {A = ℕ} (4 + length s) 0)) in
    let q = rw (append-nil {A = ℕ} (replicate (4 + length s) 0), append-nil s) at e in rw q

append_records-layout :
    (ops : List DrawOperation) (buf : Bytes)
    → append_records buf (map operation_layout ops) ≡ some (buf ++ records_layout ops)
unfolding append_records Option.bind
append_records-layout [] buf = rw append-nil
append_records-layout (op ∷ ops) buf = rw (append_record-layout buf (operation_layout op)) (
    append_records-layout ops (buf ++ record_layout (operation_layout op))
    ∙ ap some (append_assoc buf (record_layout (operation_layout op)) (records_layout ops)))

abbrev pub canvas_state_layout : List DrawOperation → Bytes
canvas_state_layout ops = be32 (length ops) ++ records_layout ops

pub serialize_canvas_state-layout :
    (ops : List DrawOperation)
    → All IsStorable ops
    → serialize_canvas_state ops ≡ some (canvas_state_layout ops)
unfolding serialize_canvas_state Option.bind
serialize_canvas_state-layout ops h =
    rw
      (
        serialize_each-layout ops h,
        serialize-Fills 4 (write32 (u32 (length ops))) (be32 (length ops)) refl
            (Fills-Emits (Emits-write32_cast (length ops))),
      )
      (append_records-layout ops (be32 (length ops)))

-- One round of the loop, on a record that stands at the offset.
read_records_step :
    (op : DrawOperation) (n size : ℕ) (out : List DrawOperation) (done rest : Bytes)
    → IsStorable op
    → length (done ++ (record_layout (operation_layout op) ++ rest)) ≡ size
    → read_records size
        (suc n)
        out
        (cursor (done ++ (record_layout (operation_layout op) ++ rest)) (length done))
      ≡ read_records size n (out ++ op ∷ []) (
          cursor
            (done ++ (record_layout (operation_layout op) ++ rest))
            (length done + length (record_layout (operation_layout op))))
unfolding read_records tell skip lift ◌>>=◌
read_records_step op n size out done rest h e =
    rw
      (
        le→ltb size (length done + 4) (omega (arith, size-sum)),
        ◌>>=◌,
        (Reads-be32 (length s) (omega (arith, length-operation_layout op))).at done (s ++ rest),
        le→ltb size (length done + 4 + length s) (omega (arith, size-sum)),
        ◌>>=◌,
        string_at_mid done (be32 (length s)) s rest,
        parse_draw_operation-layout op h.0 h.1,
      )
      (ap (λ k. read_records size n (out ++ op ∷ []) (cursor (done ++ (record_layout s ++ rest)) k))
        (omega arith))
  where
    s : Bytes
    s = operation_layout op

    size-sum : size ≡ length done + (4 + (length s + length rest))
    size-sum =
        omega (arith, e, length-append {0} done (record_layout s ++ rest), length-append {0} s rest)

read_records-Finds :
    (ops : List DrawOperation) (size : ℕ) (out : List DrawOperation) (done rest : Bytes)
    → All IsStorable ops
    → length (done ++ (records_layout ops ++ rest)) ≡ size
    → (c : Cursor) × (read_records size
          (length ops)
          out
          (cursor (done ++ (records_layout ops ++ rest)) (length done))
        ≡ some (ok (out ++ ops), c))
read_records-Finds [] size out done rest h e =
    (cursor (done ++ rest) (length done), unfold read_records in rw append-nil)
read_records-Finds (op ∷ ops) size out done rest h e =
    let r = record_layout (operation_layout op) in
    let whole : length ((done ++ r) ++ (records_layout ops ++ rest)) ≡ size =
      rw
        (
          append_assoc done r (records_layout ops ++ rest),
          ← append_assoc r (records_layout ops) rest,
        )
        e in
    let (c, p) = read_records-Finds ops size (out ++ op ∷ []) (done ++ r) rest h.1 whole in
    let q =
      rw
        (
          append_assoc done r (records_layout ops ++ rest),
          length-append done r,
          append_assoc out (op ∷ []) ops,
        )
        at p in
    (
      c,
      rw (append_assoc r (records_layout ops) rest) (
          read_records_step op (length ops) size out done (records_layout ops ++ rest) h.0
            (rw (← append_assoc r (records_layout ops) rest) e)
          ∙ q),
    )

-- The drawing that a host sends is the drawing that the others receive: fewer than 2^32 operations,
-- with fields in their ranges and at most 65535 points each.
pub canvas_state_round_trip :
    (ops : List DrawOperation)
    → All IsStorable ops
    → IsU32 (length ops)
    → Option.bind (serialize_canvas_state ops) parse_canvas_state ≡ some (ok ops)
unfolding parse_canvas_state read_canvas_state Option.bind parse ◌>>=◌
canvas_state_round_trip ops h k =
    let (c, e) =
      read_records-Finds ops (length (canvas_state_layout ops)) [] (be32 (length ops)) [] h
        (rw append-nil) in
    rw
      (
        serialize_canvas_state-layout ops h,
        le→ltb (length (canvas_state_layout ops)) 4 (omega arith),
        (Reads-be32 (length ops) k).at [] (records_layout ops),
        ◌>>=◌,
      )
      (rw (rw (append-nil (records_layout ops)) at e))

pub parse_canvas_state-layout :
    (ops : List DrawOperation)
    → All IsStorable ops
    → IsU32 (length ops)
    → parse_canvas_state (canvas_state_layout ops) ≡ some (ok ops)
unfolding Option.bind
parse_canvas_state-layout ops h k =
    rw (serialize_canvas_state-layout ops h, Option.bind) at (canvas_state_round_trip ops h k)

Ready-read_records :
    (n off size : ℕ) (out : List DrawOperation) → Ready (read_records size n out) off size
unfolding read_records
Ready-read_records zero off size out = Ready-pure _ _ _
Ready-read_records (suc n) off size out = Ready-tell _ (
    Ready-if (ltb size (off + 4)) (λ _. Ready-pure _ _ _)
      λ e. Ready->>= _ Safe-read32 (ltb→le _ _ e) λ len. Ready-tell _ (
        Ready-if (ltb size (off + 4 + len)) (λ _. Ready-pure _ _ _)
          λ f. Ready-string_at _ len (ltb→le _ _ f) λ span.
            Ready-lift _ (parse_draw_operation span) (parse_draw_operation-total span) λ op.
              Ready-if (not (is_ok op)) (λ _. Ready-pure _ _ _)
                (λ _. Ready-skip _ len (Ready-read_records n (off + 4 + len) size _))))

-- parseCanvasStateMessage returns a result on any bytes, whatever count and lengths they claim: it
-- reads none outside its span.
pub parse_canvas_state-total :
    (bs : Bytes) → (r : Result (List DrawOperation)) × (parse_canvas_state bs ≡ some r)
unfolding parse_canvas_state read_canvas_state
parse_canvas_state-total bs =
    at_least-total _ _ _ (read_canvas_state (length bs)) bs
      λ h. Ready->>= _ Safe-read32 h λ count. Ready-read_records count 4 (length bs) []
