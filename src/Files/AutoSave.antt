-- ===== src/Files/AutoSave.antt =====
-- Automatic saving: from save_to_file on, over every operation that the canvas applies and
-- enqueue_if_auto_save passes on, to close_auto_save.
use sketch_sync.Prelude.{
  ℕ, ◌+◌, ◌^◌, ◌≡◌, ◌<◌, refl, sym, ap, ◌∙◌, Bool, true, none, some, List, ◌++◌, length, arith, All,
  append-nil,
}
use mathlib.Core.Option
use mathlib.Core.Path.{subst}
use sketch_sync.Results.{ok}
use sketch_sync.Bytes.{Bytes}
use sketch_sync.DrawOperation.{DrawOperation}
use sketch_sync.Protocol.CanvasState.RoundTrip.{IsStorable}
use sketch_sync.Canvas.{Picture, Canvas, snapshot}
use sketch_sync.Canvas.Log.{IsConsistent, IsConsistent-positive}
use sketch_sync.Persistence.{load_binary_replay}
use sketch_sync.Persistence.Writing.{
  log_layout, kept, highest, queued, open_file-log_layout, run-kept, highest-IsU32, All-batches,
}
use sketch_sync.Persistence.Replaying.{load_binary_replay-layout}
use sketch_sync.Files.{
  Files, OperationLog, Disk, contents, store, new_log, max_seq, stop, close_log, close_auto_save,
  save_to_file,
}
use sketch_sync.Files.Path.{with_extension}
use sketch_sync.Files.Saving.{store_same, CanStop, save_to_file-IsSavedAt}
use sketch_sync.Files.Recording.{
  AllFresh, IsBackedUp, IsNumbered, Keeps, max_seq-lt, record_all, record_all-Keeps,
  record_all-current_file,
}

module _ (can_open : Bytes → Bool) (schedule : List DrawOperation → List (List DrawOperation))
    (in_order : (queue : List DrawOperation) → queued (schedule queue) ≡ queue) where
  pub contents-some :
      (disk : Disk) (path bytes : Bytes) → disk path ≡ some bytes → contents disk path ≡ bytes
  contents-some disk path bytes e = rw (e, contents) refl

  pub close_auto_save-log :
      (f : Files) (log : OperationLog)
      → f.operation_log ≡ some log
      → close_auto_save can_open schedule f ≡ close_log can_open schedule (some log) f
  unfolding close_auto_save
  close_auto_save-log f log e = ap (λ o. close_log can_open schedule o f) e

  pub stop_complete :
      (log : OperationLog) (header : ℕ) (stored : List DrawOperation) (f : Files)
      → can_open log.path ≡ true
      → f.disk log.path ≡ some (log_layout header stored)
      → All IsStorable log.queue
      → let last = highest log.start_after_seq log.start_after_seq log.queue in
        stop can_open schedule log f.disk
        ≡ some
            (store log.path (log_layout last (stored ++ kept log.start_after_seq log.queue)) f.disk)
  unfolding stop Option.bind
  stop_complete log header stored f h e v =
      let start = log.start_after_seq in
      let in_batches =
        All-batches (schedule log.queue) (subst (All IsStorable) (sym (in_order log.queue)) v) in
      rw
        (
          h,
          contents-some f.disk log.path (log_layout header stored) e,
          open_file-log_layout start header stored,
          run-kept start start header stored (schedule log.queue) in_batches,
          in_order log.queue,
        )
        refl

  -- A writer that backs a canvas up leaves a file from which load_binary_replay finds its log.
  close_auto_save_complete :
      (surface : Canvas) (f : Files)
      → (b : IsBackedUp surface f) → can_open f.current_file ≡ true
      → IsNumbered surface
      → (f' : Files) × (close_auto_save can_open schedule f ≡ some f')
        × (f'.current_file ≡ f.current_file)
        × (Option.map (λ r. r.operations) (Option.bind (f'.disk f'.current_file) load_binary_replay)
            ≡ some (ok (snapshot surface)))
  unfolding close_log Option.bind
  close_auto_save_complete surface f b h v =
      let log = b.log in
      let start = log.start_after_seq in
      let last = highest start start log.queue in
      let bytes = log_layout last (stored_all b) in
      (
        record f { operation_log = none; disk = store log.path bytes f.disk },
        close_auto_save-log f log b.attached
            ∙ rw
                (stop_complete log b.header b.stored f (subst (λ p. can_open p ≡ true) b.current h)
                  b.file b.queue)
                refl,
        refl,
        rw
            (
              b.current,
              store_same log.path bytes f.disk,
              b.complete,
              load_binary_replay-layout last (snapshot surface)
                  (highest-IsU32 start start log.queue b.start b.queue) v.storable,
            )
            refl,
      )
    where
      stored_all : IsBackedUp surface f → List DrawOperation
      stored_all b = b.stored ++ kept b.log.start_after_seq b.log.queue

  -- With automatic saving on, a save, any list of operations that the canvas applies and that go to the
  -- writer, and the stop of the writer all return, and load_binary_replay then finds in the current file the
  -- whole log of the canvas, with the numbers that it gave. The path can be opened; the canvas is consistent,
  -- its numbers lie below its counter and its operations can be written; what waits in the writer
  -- before the save can be written; the new operations can be written, come without a number, are new
  -- to the canvas, and do not exhaust the counter. The batches in which the writer's thread finds its queue keep
  -- the order.
  pub auto_saved_then_loaded :
      (paint : Picture → DrawOperation → List ℕ) (path : Bytes) (surface : Canvas) (f : Files)
      (ops : List DrawOperation)
      → can_open (with_extension path) ≡ true
      → f.auto_save_on ≡ true
      → CanStop f.operation_log
      → IsConsistent surface
      → IsNumbered surface
      → All IsStorable ops
      → All (λ op. op.seq ≡ 0) ops
      → AllFresh paint ops surface
      → surface.next_seq + length ops < 2 ^ 32
      → (f1 : Files) × (save_to_file can_open schedule path surface f ≡ some f1)
        × (let (surface', f2) = record_all paint ops surface f1 in
            (f3 : Files) × (close_auto_save can_open schedule f2 ≡ some f3)
            × (Option.map
                  (λ r. r.operations)
                  (Option.bind (f3.disk f3.current_file) load_binary_replay)
                ≡ some (ok (snapshot surface'))))
  unfolding kept
  auto_saved_then_loaded paint path surface f ops h on stoppable c n s z fresh room =
      let (f1, saved, at_path, attached) =
        save_to_file-IsSavedAt can_open schedule in_order path surface f h n.storable stoppable in
      let seq = max_seq 0 (snapshot surface) in
      let log = new_log (with_extension path) seq in
      let below =
        max_seq-lt surface.next_seq 0 (snapshot surface) (IsConsistent-positive surface c)
          n.below in
      let k : Keeps surface f1 = record {
        consistent = c;
        numbered = n;
        backed_up = record {
          log = log;
          stored = snapshot surface;
          header = seq;
          attached = attached on;
          current = at_path.current;
          file = at_path.written;
          complete = append-nil (snapshot surface);
          queue = tt;
          behind = below;
          start = omega arith;
        };
      } in
      let k' = record_all-Keeps paint ops surface f1 k s z fresh room in
      let here = record_all-current_file paint ops surface f1 ∙ at_path.current in
      let (surface', f2) = record_all paint ops surface f1 in
      let (f3, closed, _, loaded) =
        close_auto_save_complete surface' f2 k'.backed_up
          (subst (λ p. can_open p ≡ true) (sym here) h) k'.numbered in
      (f1, saved, (f3, closed, loaded))
