-- ===== src/Files/Saving.antt =====
-- save_to_file: what it writes, and what load_binary_replay and read_saved_seq find in it. The writer that
-- is open before is stopped first.
use sketch_sync.Prelude.{
  ℕ, ◌≡◌, ◌≤◌, ◌⊎◌, ◌^◌, ◌<◌, refl, sym, Bool, true, false, Option, none, some, List, [], ◌∷◌, ltb,
  ◌∙◌, if◌then◌else◌, length, arith, All, Bool-cases, inl, inr,
}
use mathlib.Core.Option
use mathlib.Core.Path.{subst}
use sketch_sync.Results.{ok}
use sketch_sync.Bytes.{Bytes, u32, IsU32, write32}
use sketch_sync.Bytes.Emit.{Fills-Emits, Emits-write32_cast, be32, serialize-Fills}
use sketch_sync.DrawOperation.{DrawOperation}
use sketch_sync.DrawOperation.Codec.{operation_layout, serialize_draw_operation-layout}
use sketch_sync.Protocol.CanvasState.RoundTrip.{IsStorable, records_layout}
use sketch_sync.Canvas.{Canvas, snapshot}
use sketch_sync.Persistence.{load_binary_replay, read_saved_seq}
use sketch_sync.Persistence.Writing.{log_layout, queued, serialize_seq, All-batches}
use sketch_sync.Persistence.Ending.{run-total, open_file-total}
use sketch_sync.Persistence.Replaying.{load_binary_replay-layout, read_saved_seq-layout}
use sketch_sync.Files.{
  Files, OperationLog, Disk, contents, store, new_log, max_seq, write_records, write_file, stop,
  close_log, close_if, close_auto_save, write_to, save_to_file,
}
use sketch_sync.Files.Path.{equal_refl, with_extension}

pub store_same : (path bytes : Bytes) (disk : Disk) → store path bytes disk path ≡ some bytes
unfolding store
store_same path bytes disk = rw (equal_refl path) refl

write_records-layout :
    (ops : List DrawOperation) → All IsStorable ops → write_records ops ≡ some (records_layout ops)
unfolding write_records Option.bind
write_records-layout [] v = refl
write_records-layout (op ∷ ops) v =
    rw
      (
        serialize_draw_operation-layout op v.0.1,
        serialize-Fills 4 (write32 (u32 (length (operation_layout op))))
            (be32 (length (operation_layout op))) refl
            (Fills-Emits (Emits-write32_cast (length (operation_layout op)))),
        write_records-layout ops v.1,
      )
      refl

-- A snapshot of operations that can be written is written as the log's format says.
write_file-layout :
    (ops : List DrawOperation)
    → All IsStorable ops
    → write_file ops ≡ some (log_layout (max_seq 0 ops) ops)
unfolding write_file Option.bind
write_file-layout ops v = rw (serialize_seq (max_seq 0 ops), write_records-layout ops v) refl

max_seq-IsU32 :
    (seq : ℕ) (ops : List DrawOperation) → IsU32 seq → All IsStorable ops → IsU32 (max_seq seq ops)
unfolding max_seq
max_seq-IsU32 seq [] h v = h
max_seq-IsU32 seq (op ∷ ops) h v =
    let below : op.seq < 2 ^ 32 = v.0.0.seq in
    max_seq-IsU32 (if ltb seq op.seq then op.seq else seq) ops (ground (arith, below)) v.1

-- An operation has the number.
pub HasNumber : ℕ → List DrawOperation → Type 0
HasNumber n [] = ⊥
HasNumber n (op ∷ ops) = (op.seq ≡ n) ⊎ HasNumber n ops

-- No operation has a higher number, and one has this number, unless it is 0.
pub record IsHighest (n : ℕ) (ops : List DrawOperation) : Type 0 where
  pub bound : All (λ op. op.seq ≤ n) ops
  pub reached : (n ≡ 0) ⊎ HasNumber n ops

max_seq-le : (m n : ℕ) (ops : List DrawOperation) → max_seq m ops ≤ n → m ≤ n
unfolding max_seq
max_seq-le m n [] h = h
max_seq-le m n (op ∷ ops) h =
    let le = max_seq-le (if ltb m op.seq then op.seq else m) n ops h in ground (arith, le)

All-le :
    (m n : ℕ) (ops : List DrawOperation) → m ≤ n → max_seq m ops ≤ n → All (λ op. op.seq ≤ n) ops
unfolding max_seq
All-le m n [] h k = tt
All-le m n (op ∷ ops) h k =
    let higher = if ltb m op.seq then op.seq else m in
    let le : higher ≤ n = max_seq-le higher n ops k in
    (ground (arith, le), All-le higher n ops le k)

max_seq-HasNumber :
    (m : ℕ) (ops : List DrawOperation) → (max_seq m ops ≡ m) ⊎ HasNumber (max_seq m ops) ops
unfolding max_seq HasNumber
max_seq-HasNumber m [] = inl refl
max_seq-HasNumber m (op ∷ ops) =
    let higher = if ltb m op.seq then op.seq else m in
    elim (max_seq-HasNumber higher ops) [
      | inl h ↦ elim (Bool-cases (ltb m op.seq)) [
        | inl e ↦ inr (inl (cc (h, e)))
        | inr e ↦ inl (h ∙ rw e refl)
      ]
      | inr h ↦ inr (inr h)
    ]

max_seq-IsHighest : (ops : List DrawOperation) → IsHighest (max_seq 0 ops) ops
max_seq-IsHighest ops = record {
  bound = All-le 0 (max_seq 0 ops) ops (omega arith) (omega arith);
  reached = max_seq-HasNumber 0 ops;
}

-- What waits in the queue of an open writer can be written.
abbrev pub CanStop : Option OperationLog → Type 0
CanStop none = Unit {0}
CanStop (some log) = All IsStorable log.queue

-- What save_to_file leaves at the path that it wrote to.
pub record IsSavedAt (save_path : Bytes) (surface : Canvas) (f : Files) : Type 0 where
  pub current : f.current_file ≡ save_path
  pub number : f.file_saved_seq ≡ max_seq 0 (snapshot surface)
  pub written :
      f.disk save_path ≡ some (log_layout (max_seq 0 (snapshot surface)) (snapshot surface))

module _ (can_open : Bytes → Bool) (schedule : List DrawOperation → List (List DrawOperation))
    (in_order : (queue : List DrawOperation) → queued (schedule queue) ≡ queue) where
  stop-total :
      (log : OperationLog) (disk : Disk)
      → All IsStorable log.queue
      → (disk' : Disk) × (stop can_open schedule log disk ≡ some disk')
  unfolding stop Option.bind
  stop-total log disk v = elim (Bool-cases (can_open log.path)) [
    | inl e ↦
        let (w, opened) = open_file-total (contents disk log.path) log.start_after_seq in
        let (w', ran) = run-total w (schedule log.queue) (
          All-batches (schedule log.queue) (subst (All IsStorable) (sym (in_order log.queue)) v)) in
        rw (e, opened, ran) (_, refl)
    | inr e ↦ rw e (disk, refl)
  ]

  close_log-total :
      (o : Option OperationLog) (f : Files)
      → CanStop o
      → (f' : Files) × (close_log can_open schedule o f ≡ some f')
  unfolding close_log
  close_log-total none f v = (f, refl)
  close_log-total (some log) f v =
      let (disk', stopped) = stop-total log f.disk v in rw stopped (_, refl)

  close_if-total :
      (was_auto_save : Bool) (f : Files)
      → CanStop f.operation_log
      → (f' : Files) × (close_if can_open schedule was_auto_save f ≡ some f')
  unfolding close_if close_auto_save
  close_if-total true f v = close_log-total f.operation_log f v
  close_if-total false f v = (f, refl)

  write_to-IsSavedAt :
      (save_path : Bytes) (was : Bool) (surface : Canvas) (f : Files)
      → can_open save_path ≡ true
      → All IsStorable (snapshot surface)
      → (f' : Files) × (write_to can_open schedule save_path was surface f ≡ some f')
        × IsSavedAt save_path surface f'
        × (was ≡ true → f'.operation_log ≡ some (new_log save_path (max_seq 0 (snapshot surface))))
  unfolding write_to
  write_to-IsSavedAt save_path was surface f h v =
      rw (h, write_file-layout (snapshot surface) v)
        (
          _,
          refl,
          record { current = refl; number = refl; written = store_same save_path _ f.disk },
          λ e. rw e refl,
        )

  pub save_to_file-IsSavedAt :
      (path : Bytes) (surface : Canvas) (f : Files)
      → can_open (with_extension path) ≡ true
      → All IsStorable (snapshot surface)
      → CanStop f.operation_log
      → (f' : Files) × (save_to_file can_open schedule path surface f ≡ some f')
        × IsSavedAt (with_extension path) surface f'
        × (f.auto_save_on ≡ true
            → f'.operation_log
              ≡ some (new_log (with_extension path) (max_seq 0 (snapshot surface))))
  unfolding save_to_file Option.bind
  save_to_file-IsSavedAt path surface f h v w =
      let (f1, closed) = close_if-total f.auto_save_on f w in
      rw closed (write_to-IsSavedAt (with_extension path) f.auto_save_on surface f1 h v)

  -- Saving to a path that can be opened, of a canvas whose operations can be written, while what waits in
  -- an open writer can be written too, returns. Of the file that it wrote, now the current one,
  -- load_binary_replay finds the whole log of the canvas, and load_binary_replay and read_saved_seq find the
  -- number that file_manager keeps. It is the highest of the log: no operation has a higher one, and one has
  -- this, unless it is 0.
  pub saved_then_loaded :
      (path : Bytes) (surface : Canvas) (f : Files)
      → can_open (with_extension path) ≡ true
      → All IsStorable (snapshot surface)
      → CanStop f.operation_log
      → (f' : Files) × (save_to_file can_open schedule path surface f ≡ some f')
        × (Option.bind (f'.disk f'.current_file) load_binary_replay
            ≡ some (record { operations = ok (snapshot surface); saved_seq = f'.file_saved_seq }))
        × (Option.bind (f'.disk f'.current_file) read_saved_seq ≡ some f'.file_saved_seq)
        × (f'.current_file ≡ with_extension path)
        × IsHighest f'.file_saved_seq (snapshot surface)
  unfolding Option.bind
  saved_then_loaded path surface f h v w =
      let (f', e, s, _) = save_to_file-IsSavedAt path surface f h v w in
      let ops = snapshot surface in
      let fits : IsU32 (max_seq 0 ops) = max_seq-IsU32 0 ops (omega arith) v in
      (
        f',
        e,
        rw (s.current, s.written, s.number) (load_binary_replay-layout (max_seq 0 ops) ops fits v),
        rw (s.current, s.written, s.number) (read_saved_seq-layout (max_seq 0 ops) ops fits),
        s.current,
        subst (λ n. IsHighest n ops) (sym s.number) (max_seq-IsHighest ops),
      )

  write_to-total :
      (save_path : Bytes) (was : Bool) (surface : Canvas) (f : Files)
      → All IsStorable (snapshot surface)
      → (f' : Files) × (write_to can_open schedule save_path was surface f ≡ some f')
  unfolding write_to
  write_to-total save_path was surface f v = elim (Bool-cases (can_open save_path)) [
    | inl e ↦ rw (e, write_file-layout (snapshot surface) v) (_, refl)
    | inr e ↦ rw e (_, refl)
  ]

  -- Saving returns, whether the path can be opened or not.
  pub save_to_file-total :
      (path : Bytes) (surface : Canvas) (f : Files)
      → All IsStorable (snapshot surface)
      → CanStop f.operation_log
      → (f' : Files) × (save_to_file can_open schedule path surface f ≡ some f')
  unfolding save_to_file Option.bind
  save_to_file-total path surface f v w =
      let (f1, closed) = close_if-total f.auto_save_on f w in
      rw closed (write_to-total (with_extension path) f.auto_save_on surface f1 v)
