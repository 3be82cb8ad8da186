-- ===== src/Persistence/Replaying.antt =====
-- What load_binary_replay and read_saved_seq of ui.cpp find in a file of the writer, and in any file.
use sketch_sync.Prelude.{
  ℕ, zero, suc, ◌+◌, ◌≡◌, ◌≤◌, ◌<◌, refl, ap, ◌∙◌, true, not, ◌||◌, some, List, [], ◌∷◌, ◌++◌, ltb,
  ◌==◌, length, length-append, arith, All, Bool-cases, inl, inr, append-nil, append_assoc, le→ltb,
  ltb→le, ==_refl,
}
use mathlib.Core.Option
use sketch_sync.Results.{ok, is_ok}
use sketch_sync.Bytes.{Bytes, Cursor, cursor, IsU32, tell, skip, lift, parse, ◌>>=◌}
use sketch_sync.Bytes.Emit.{be32}
use sketch_sync.Bytes.Read.{
  Reads-be32, string_at_mid, Ready, Ready->>=, Ready-pure, Ready-if, Ready-string_at, Ready-tell,
  Ready-skip, Ready-lift, Ready-map, Safe-read32, parse-Ready,
}
use sketch_sync.DrawOperation.{DrawOperation, parse_draw_operation}
use sketch_sync.DrawOperation.Codec.{
  operation_layout, length-operation_layout, parse_draw_operation-layout,
  parse_draw_operation-total,
}
use sketch_sync.Protocol.CanvasState.RoundTrip.{IsStorable, record_layout, records_layout}
use sketch_sync.Persistence.{
  Replay, magic, starts_with, read_log, read_replay, load_binary_replay, read_saved_seq, open_file,
  run, invalid_format,
}
use sketch_sync.Persistence.Writing.{
  log_layout, kept, highest, queued, run-log_layout, highest-IsU32, All-queued, All-kept,
}

read_log_step :
    (op : DrawOperation) (n size : ℕ) (out : List DrawOperation) (done rest : Bytes)
    → IsStorable op
    → length (done ++ (record_layout (operation_layout op) ++ rest)) ≡ size
    → read_log
        (suc n)
        size
        out
        (cursor (done ++ (record_layout (operation_layout op) ++ rest)) (length done))
      ≡ read_log n size (out ++ op ∷ []) (
          cursor
            (done ++ (record_layout (operation_layout op) ++ rest))
            (length done + length (record_layout (operation_layout op))))
unfolding read_log tell skip lift ◌>>=◌
read_log_step op n size out done rest h e =
    rw
      (
        le→ltb size (length done + 4) (omega (arith, size-sum)),
        ◌>>=◌,
        (Reads-be32 (length s) (omega (arith, length-operation_layout op))).at done (s ++ rest),
        le→ltb size (length done + 4 + length s) (omega (arith, size-sum)),
        ◌>>=◌,
        string_at_mid done (be32 (length s)) s rest,
        parse_draw_operation-layout op h.0 h.1,
      )
      (ap (λ k. read_log n size (out ++ op ∷ []) (cursor (done ++ (record_layout s ++ rest)) k))
        (omega arith))
  where
    s : Bytes
    s = operation_layout op

    size-sum : size ≡ length done + (4 + (length s + length rest))
    size-sum =
        omega (arith, e, length-append {0} done (record_layout s ++ rest), length-append {0} s rest)

-- The round that finds the end of the file.
read_log_end :
    (n size : ℕ) (out : List DrawOperation) (file : Bytes)
    → read_log (suc n) size out (cursor file size) ≡ some (ok out, cursor file size)
unfolding read_log tell ◌>>=◌
read_log_end n size out file = rw (short, ==_refl size) refl
  where
    short : ltb size (size + 4) ≡ true
    short = ground arith

read_log-finds :
    (ops : List DrawOperation) (n size : ℕ) (out : List DrawOperation) (done : Bytes)
    → All IsStorable ops
    → length ops < n
    → length (done ++ records_layout ops) ≡ size
    → (c : Cursor) × (read_log n size out (cursor (done ++ records_layout ops) (length done))
        ≡ some (ok (out ++ ops), c))
read_log-finds ops zero size out done h k e = absurd (omega arith)
read_log-finds [] (suc n) size out done h k e =
    let p : length done ≡ size = omega (arith, e, length-append {0} done []) in
    (cursor (done ++ []) size, rw (p, append-nil out) (read_log_end n size out (done ++ [])))
read_log-finds (op ∷ ops) (suc n) size out done h k e =
    let r = record_layout (operation_layout op) in
    let whole : length ((done ++ r) ++ records_layout ops) ≡ size =
      rw (append_assoc done r (records_layout ops)) e in
    let (c, p) = read_log-finds ops n size (out ++ op ∷ []) (done ++ r) h.1 (omega arith) whole in
    let q =
      rw
        (
          append_assoc done r (records_layout ops),
          length-append done r,
          append_assoc out (op ∷ []) ops,
        )
        at p in
    (c, read_log_step op n size out done (records_layout ops) h.0 e ∙ q)

length-records_layout : (ops : List DrawOperation) → length ops ≤ length (records_layout ops)
length-records_layout [] = omega arith
length-records_layout (op ∷ ops) = omega (
  arith,
  length-records_layout ops,
  length-append {0} (record_layout (operation_layout op)) (records_layout ops),
)

-- A file that the writer's format describes, with a 32-bit number, is found as it was written.
pub load_binary_replay-layout :
    (seq : ℕ) (ops : List DrawOperation)
    → IsU32 seq
    → All IsStorable ops
    → load_binary_replay (log_layout seq ops)
      ≡ some (record { operations = ok ops; saved_seq = seq })
unfolding load_binary_replay read_replay starts_with parse skip ◌>>=◌
load_binary_replay-layout seq ops h v =
    let file = log_layout seq ops in
    let head : Bytes = magic ++ (0 ∷ 0 ∷ 0 ∷ 1 ∷ []) in
    let (c, e) =
      read_log-finds ops (suc (length file)) (length file) [] (head ++ (be32 seq ++ be32 0)) v
        (omega (arith, length-records_layout ops)) refl in
    rw
      (
        le→ltb (length file) 16 (omega arith),
        ◌>>=◌,
        (Reads-be32 1 (omega arith)).at magic (be32 seq ++ (be32 0 ++ records_layout ops)),
        ◌>>=◌,
        (Reads-be32 seq h).at head (be32 0 ++ records_layout ops),
        ◌>>=◌,
        (Reads-be32 0 (omega arith)).at (head ++ be32 seq) (records_layout ops),
        ◌>>=◌,
        e,
      )
      refl

pub read_saved_seq-layout :
    (seq : ℕ) (ops : List DrawOperation)
    → IsU32 seq
    → read_saved_seq (log_layout seq ops) ≡ some seq
unfolding read_saved_seq starts_with parse skip ◌>>=◌
read_saved_seq-layout seq ops h =
    rw
      (
        le→ltb (length (log_layout seq ops)) 16 (omega arith),
        ◌>>=◌,
        (Reads-be32 seq h).at (magic ++ (0 ∷ 0 ∷ 0 ∷ 1 ∷ [])) (be32 0 ++ records_layout ops),
      )
      refl

-- What a session writes into a new file, load_binary_replay finds again: the queued operations whose
-- number is above the one that the writer started after, in order, and the highest of those numbers, which
-- read_saved_seq finds too. The number to start after has 32 bits, and all queued operations can be
-- written; the batches in which the writer found them make no difference.
pub written_then_loaded :
    (start : ℕ) (batches : List (List DrawOperation))
    → IsU32 start
    → All (All IsStorable) batches
    → let written = Option.bind (open_file [] start) (λ w. run w batches) in
      let last = highest start start (queued batches) in
      (Option.bind written (λ w. load_binary_replay w.file)
        ≡ some (record { operations = ok (kept start (queued batches)); saved_seq = last }))
      × (Option.bind written (λ w. read_saved_seq w.file) ≡ some last)
unfolding Option.bind
written_then_loaded start batches h v =
    let last = highest start start (queued batches) in
    let fits : IsU32 last = highest-IsU32 start start (queued batches) h (All-queued batches v) in
    rw (run-log_layout start batches v) (
      load_binary_replay-layout last (kept start (queued batches)) fits
          (All-kept start (queued batches) (All-queued batches v)),
      read_saved_seq-layout last (kept start (queued batches)) fits,
    )

Ready-read_log :
    (n off size : ℕ) (out : List DrawOperation)
    → off ≤ size
    → size < off + n
    → Ready (read_log n size out) off size
unfolding read_log
Ready-read_log zero off size out le lt = absurd (omega arith)
Ready-read_log (suc n) off size out le lt = Ready-tell _ (
    Ready-if (ltb size (off + 4))
      (λ _. Ready-if (not (off == size)) (λ _. Ready-pure _ _ _) (λ _. Ready-pure _ _ _))
      λ e. Ready->>= _ Safe-read32 (ltb→le _ _ e) λ len. Ready-tell _ (
        Ready-if (ltb size (off + 4 + len)) (λ _. Ready-pure _ _ _)
          λ f. Ready-string_at _ len (ltb→le _ _ f) λ span.
            Ready-lift _ (parse_draw_operation span) (parse_draw_operation-total span) λ op.
              Ready-if (not (is_ok op)) (λ _. Ready-pure _ _ _)
                (λ _.
                  Ready-skip _ len
                    (Ready-read_log n (off + 4 + len) size _ (ltb→le _ _ f) (omega arith)))))

read_replay-Ready : (size : ℕ) → 16 ≤ size → Ready (read_replay size) 0 size
unfolding read_replay
read_replay-Ready size h = Ready-skip _ 4 (
    Ready->>= _ Safe-read32 (omega arith) λ _. Ready->>= _ Safe-read32 (omega arith) λ _.
      Ready->>= _ Safe-read32 (omega arith)
        λ _. Ready-map _ (Ready-read_log (suc size) 16 size [] h (omega arith)))

-- On a file of any content, load_binary_replay returns within the rounds that its loop is given, one more than
-- the file has bytes, and reads nothing outside the file.
pub load_binary_replay-total : (file : Bytes) → (r : Replay) × (load_binary_replay file ≡ some r)
unfolding load_binary_replay
load_binary_replay-total file =
    elim (Bool-cases (ltb (length file) 16 || not (starts_with magic file))) [
      | inl e ↦ (invalid_format, rw e refl)
      | inr e ↦
          let (r, p) =
            parse-Ready (read_replay (length file)) file
              (read_replay-Ready (length file) (ground arith)) in
          (r, rw e p)
    ]
