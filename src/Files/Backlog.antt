-- ===== src/Files/Backlog.antt =====
-- toggle_auto_save on a file that is there: what the canvas has above the number in the file's header is
-- appended to it.
use sketch_sync.Prelude.{
  ℕ, ◌≡◌, refl, sym, ap, ◌∙◌, Bool, true, false, Option, none, some, List, [], ◌∷◌, ◌++◌, ltb,
  arith, All, append-nil, append_assoc, Bool-cases, inl, inr,
}
use mathlib.Core.Option
use sketch_sync.Results.{ok}
use sketch_sync.Bytes.{Bytes, IsU32}
use sketch_sync.DrawOperation.{DrawOperation}
use sketch_sync.Protocol.CanvasState.RoundTrip.{IsStorable}
use sketch_sync.Canvas.{Canvas, snapshot}
use sketch_sync.Persistence.{load_binary_replay}
use sketch_sync.Persistence.Writing.{
  log_layout, kept, highest, queued, highest-IsU32, All-append, All-kept,
}
use sketch_sync.Persistence.Replaying.{load_binary_replay-layout, read_saved_seq-layout}
use sketch_sync.Files.{
  Files, OperationLog, store, new_log, enqueue, enqueue_above, is_untitled, close_log,
  close_auto_save, start_auto_save, toggle_auto_save,
}
use sketch_sync.Files.Saving.{store_same}
use sketch_sync.Files.AutoSave.{contents-some, stop_complete}

enqueue_above-kept :
    (seq : ℕ) (log : OperationLog) (ops : List DrawOperation)
    → enqueue_above seq log ops ≡ record log { queue = log.queue ++ kept seq ops }
unfolding enqueue_above enqueue kept
enqueue_above-kept seq log [] = ap (λ q. record log { queue = q }) (sym (append-nil log.queue))
enqueue_above-kept seq log (op ∷ ops) = elim (Bool-cases (ltb seq op.seq)) [
  | inl e ↦ rw e (
      enqueue_above-kept seq (enqueue log op) ops
      ∙ ap (λ q. record log { queue = q }) (append_assoc log.queue (op ∷ []) (kept seq ops)))
  | inr e ↦ rw e (enqueue_above-kept seq log ops)
]

kept_twice : (seq : ℕ) (ops : List DrawOperation) → kept seq (kept seq ops) ≡ kept seq ops
unfolding kept
kept_twice seq [] = refl
kept_twice seq (op ∷ ops) = elim (Bool-cases (ltb seq op.seq)) [
  | inl e ↦ rw (e, e) (ap (◌∷◌ op) (kept_twice seq ops))
  | inr e ↦ rw e (kept_twice seq ops)
]

module _ (can_open : Bytes → Bool) (schedule : List DrawOperation → List (List DrawOperation))
    (in_order : (queue : List DrawOperation) → queued (schedule queue) ≡ queue) where
  -- The writer that start_auto_save opens on a file with the number `header`.
  abbrev backlog : Canvas → Files → ℕ → OperationLog
  backlog surface f header = record {
    path = f.current_file;
    start_after_seq = header;
    queue = kept header (snapshot surface);
  }

  start_auto_save-backlog :
      (surface : Canvas) (f : Files) (header : ℕ) (stored : List DrawOperation)
      → f.disk f.current_file ≡ some (log_layout header stored)
      → IsU32 header
      → start_auto_save can_open schedule surface f
        ≡ some (record f {
          auto_save_on = true;
          file_saved_seq = header;
          operation_log = some (backlog surface f header);
        })
  unfolding start_auto_save
  start_auto_save-backlog surface f header stored e h =
      rw
        (
          contents-some can_open schedule in_order f.disk f.current_file (log_layout header stored)
              e,
          read_saved_seq-layout header stored h,
          enqueue_above-kept header (new_log f.current_file header) (snapshot surface),
        )
        refl

  toggle_auto_save-off :
      (chosen : Option Bytes) (surface : Canvas) (f : Files)
      → f.auto_save_on ≡ false
      → is_untitled f ≡ false
      → toggle_auto_save can_open schedule chosen surface f
        ≡ start_auto_save can_open schedule surface f
  unfolding toggle_auto_save
  toggle_auto_save-off chosen surface f off titled = ground (arith, off, titled)

  -- Turned on for a current file with a header number and operations in it, automatic saving returns, and
  -- so does turning it off again. The file then has the operations that it had, and behind them those
  -- of the canvas whose numbers are above the header number: load_binary_replay finds exactly these.
  -- Nothing compares the two logs. The path can be opened, the file is not the untitled one, and all
  -- operations can be written.
  pub toggled_then_loaded :
      (surface : Canvas) (f : Files) (header : ℕ) (stored : List DrawOperation)
      (chosen : Option Bytes)
      → can_open f.current_file ≡ true
      → f.auto_save_on ≡ false
      → is_untitled f ≡ false
      → f.disk f.current_file ≡ some (log_layout header stored)
      → IsU32 header
      → All IsStorable stored
      → All IsStorable (snapshot surface)
      → (f1 : Files) × (toggle_auto_save can_open schedule chosen surface f ≡ some f1)
        × (f1.auto_save_on ≡ true)
        × ((f2 : Files) × (toggle_auto_save can_open schedule chosen surface f1 ≡ some f2)
            × (f2.auto_save_on ≡ false)
            × (Option.map
                  (λ r. r.operations)
                  (Option.bind (f2.disk f.current_file) load_binary_replay)
                ≡ some (ok (stored ++ kept header (snapshot surface)))))
  unfolding toggle_auto_save close_log close_auto_save Option.bind
  toggled_then_loaded surface f header stored chosen h off titled e n v w =
      let ops = kept header (snapshot surface) in
      let log = backlog surface f header in
      let last = highest header header ops in
      let all = All-append stored ops v (All-kept header (snapshot surface) w) in
      let bytes = log_layout last (stored ++ ops) in
      let f1 : Files = record f {
        auto_save_on = true;
        file_saved_seq = header;
        operation_log = some log;
      } in
      let f2 : Files = record f1 {
        auto_save_on = false;
        operation_log = none;
        disk = store f.current_file bytes f.disk;
      } in
      (
        f1,
        toggle_auto_save-off chosen surface f off titled
            ∙ start_auto_save-backlog surface f header stored e n,
        refl,
        (
          f2,
          rw
              (
                stop_complete can_open schedule in_order log header stored f h e
                    (All-kept header (snapshot surface) w),
                kept_twice header (snapshot surface),
              )
              refl,
          refl,
          rw
              (
                store_same f.current_file bytes f.disk,
                load_binary_replay-layout last (stored ++ ops)
                    (highest-IsU32 header header ops n (All-kept header (snapshot surface) w)) all,
              )
              refl,
        ),
      )
