-- ===== src/Examples/Filing.antt =====
-- A concrete drawing that is saved, and one whose operations are saved as they come.
use sketch_sync.Prelude.{◌≡◌, refl, true, false, some, none, [], ◌∷◌, ◌++◌, arith, All}
use mathlib.Core.Option
use sketch_sync.Results.{ok, text}
use sketch_sync.Protocol.CanvasState.RoundTrip.{IsStorable}
use sketch_sync.Persistence.{load_binary_replay, read_saved_seq}
use sketch_sync.Persistence.Writing.{kept, log_layout}
use sketch_sync.Canvas.{Canvas, create, snapshot}
use sketch_sync.Canvas.Log.{create-IsConsistent, create-room, create-IsFresh}
use sketch_sync.Files.{
  Disk, Files, no_files, save_to_file, toggle_auto_save, close_auto_save, is_untitled,
}
use sketch_sync.Files.Path.{equal, with_extension}
use sketch_sync.Files.Saving.{IsHighest, saved_then_loaded}
use sketch_sync.Files.Recording.{IsNumbered, record_all}
use sketch_sync.Files.AutoSave.{auto_saved_then_loaded}
use sketch_sync.Files.Backlog.{toggled_then_loaded}
use sketch_sync.Examples.Drawing.{dot, line}
use sketch_sync.Examples.Sharing.{opens, one_batch, one_batch-in_order, line-IsStorable}

-- A canvas with one line in its log.
abbrev drawn : Canvas
drawn = record {
  picture = record { width = 2; height = 1; background = 7; pixels = 255 ∷ 7 ∷ [] };
  next_seq = 2;
  operations = line 9 1 ∷ [];
  operation_ids = 9 ∷ [];
}

drawn-IsStorable : All IsStorable (snapshot drawn)
unfolding snapshot
drawn-IsStorable = (line-IsStorable 9 1 (omega arith) (omega arith), tt)

abbrev fresh : Files
fresh = no_files (λ path. none)

saved_then_loaded_example :
    (f' : Files) × (save_to_file opens one_batch (text "board") drawn fresh ≡ some f')
    × (Option.bind (f'.disk f'.current_file) load_binary_replay
        ≡ some (record { operations = ok (snapshot drawn); saved_seq = f'.file_saved_seq }))
    × (Option.bind (f'.disk f'.current_file) read_saved_seq ≡ some f'.file_saved_seq)
    × (f'.current_file ≡ with_extension (text "board"))
    × IsHighest f'.file_saved_seq (snapshot drawn)
saved_then_loaded_example =
    saved_then_loaded opens one_batch one_batch-in_order (text "board") drawn fresh refl
      drawn-IsStorable tt

empty-IsNumbered : IsNumbered (create 2 1 7)
unfolding create snapshot
empty-IsNumbered = record { below = tt; storable = tt }

abbrev saving : Files
saving = record fresh { auto_save_on = true }

auto_saved_then_loaded_example :
    (f1 : Files) × (save_to_file opens one_batch (text "board") (create 2 1 7) saving ≡ some f1)
    × (let (surface', f2) = record_all dot (line 9 0 ∷ []) (create 2 1 7) f1 in
        (f3 : Files) × (close_auto_save opens one_batch f2 ≡ some f3)
        × (Option.map (λ r. r.operations) (Option.bind (f3.disk f3.current_file) load_binary_replay)
            ≡ some (ok (snapshot surface'))))
auto_saved_then_loaded_example =
    auto_saved_then_loaded opens one_batch one_batch-in_order dot (text "board") (create 2 1 7)
      saving (line 9 0 ∷ []) refl refl tt (create-IsConsistent 2 1 7) empty-IsNumbered
      (line-IsStorable 9 0 (omega arith) (omega arith), tt) (refl, tt)
      (create-IsFresh 2 1 7 (line 9 0), tt) (create-room 2 1 7 1 (omega arith))

-- A file with another line, under the same number, than the canvas.
abbrev stale : Disk
stale path = some (log_layout 0 (line 8 1 ∷ []))

abbrev opened : Files
opened = record (no_files stale) { current_file = text "board.sks" }

titled : is_untitled opened ≡ false
unfolding equal text
titled = refl

toggled_then_loaded_example :
    (f1 : Files) × (toggle_auto_save opens one_batch none drawn opened ≡ some f1)
    × (f1.auto_save_on ≡ true)
    × ((f2 : Files) × (toggle_auto_save opens one_batch none drawn f1 ≡ some f2)
        × (f2.auto_save_on ≡ false)
        × (Option.map
              (λ r. r.operations)
              (Option.bind (f2.disk (text "board.sks")) load_binary_replay)
            ≡ some (ok ((line 8 1 ∷ []) ++ kept 0 (snapshot drawn)))))
toggled_then_loaded_example =
    toggled_then_loaded opens one_batch one_batch-in_order drawn opened 0 (line 8 1 ∷ []) none refl
      refl titled refl (omega arith) (line-IsStorable 8 1 (omega arith) (omega arith), tt)
      drawn-IsStorable
