-- ===== src/Examples/Saving.antt =====
-- A concrete queue in two batches, with one operation that the writer leaves out.
use sketch_sync.Prelude.{ℕ, ◌≡◌, some, List, [], ◌∷◌, arith}
use mathlib.Core.Option
use sketch_sync.Results.{ok}
use sketch_sync.DrawOperation.{DrawOperation}
use sketch_sync.Protocol.CanvasState.RoundTrip.{IsStorable}
use sketch_sync.Persistence.{Replay, open_file, run, load_binary_replay, read_saved_seq}
use sketch_sync.Persistence.Writing.{kept, highest, log_layout, queued}
use sketch_sync.Persistence.Replaying.{written_then_loaded, load_binary_replay-total}

abbrev dot : ℕ → DrawOperation
dot seq = record {
  operation_id = 9;
  seq = seq;
  member_id = 7;
  tool = 0;
  color = 255;
  thickness = 3;
  points = record { x = 1; y = 2 } ∷ [];
}

abbrev batches : List (List DrawOperation)
batches = (dot 4 ∷ dot 2 ∷ []) ∷ (dot 5 ∷ []) ∷ []

dot_4-IsStorable : IsStorable (dot 4)
dot_4-IsStorable = (
  record {
    operation_id = omega arith;
    seq = omega arith;
    member_id = omega arith;
    tool = omega arith;
    color = omega arith;
    thickness = omega arith;
    points = ((omega arith, omega arith), tt);
  },
  omega arith,
)

dot_2-IsStorable : IsStorable (dot 2)
dot_2-IsStorable = (
  record {
    operation_id = omega arith;
    seq = omega arith;
    member_id = omega arith;
    tool = omega arith;
    color = omega arith;
    thickness = omega arith;
    points = ((omega arith, omega arith), tt);
  },
  omega arith,
)

dot_5-IsStorable : IsStorable (dot 5)
dot_5-IsStorable = (
  record {
    operation_id = omega arith;
    seq = omega arith;
    member_id = omega arith;
    tool = omega arith;
    color = omega arith;
    thickness = omega arith;
    points = ((omega arith, omega arith), tt);
  },
  omega arith,
)

written_then_loaded_example :
    let written = Option.bind (open_file [] 3) (λ w. run w batches) in
    let last = highest 3 3 (queued batches) in
    (Option.bind written (λ w. load_binary_replay w.file)
      ≡ some (record { operations = ok (kept 3 (queued batches)); saved_seq = last }))
    × (Option.bind written (λ w. read_saved_seq w.file) ≡ some last)
written_then_loaded_example =
    written_then_loaded 3 batches (omega arith)
      ((dot_4-IsStorable, (dot_2-IsStorable, tt)), ((dot_5-IsStorable, tt), tt))

load_binary_replay-total_example :
    (r : Replay) × (load_binary_replay (log_layout 4 (dot 4 ∷ [])) ≡ some r)
load_binary_replay-total_example = load_binary_replay-total (log_layout 4 (dot 4 ∷ []))
