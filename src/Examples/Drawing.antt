-- ===== src/Examples/Drawing.antt =====
-- Concrete canvases: a host that has drawn one line, and a member that holds the same.
use mathlib.Core.Option
use sketch_sync.Prelude.{ℕ, ◌≡◌, refl, [], ◌∷◌, arith, some, List, length}
use sketch_sync.DrawOperation.{DrawOperation}
use sketch_sync.DrawOperation.ToolType
use sketch_sync.Canvas.{Picture, Canvas, create, apply, load, snapshot}
use sketch_sync.Canvas.Fill.{
  bucket_fill, fill_at, fill_from, point, flood, spread, try_before, try_fill, fill,
}
use sketch_sync.Canvas.Fill.Flooding.{IsFilled, bucket_fill-IsFilled}
use sketch_sync.Canvas.Log.{HasRoom, create-IsConsistent, create-HasRoom, create-room, apply_twice}
use sketch_sync.Canvas.Replay.{Agree, SameSize, follow, follow-Agree}
use sketch_sync.Canvas.History.{apply_all, history-loaded}

abbrev dot_pixels : ℕ → List ℕ → List ℕ
dot_pixels color [] = []
dot_pixels color (x ∷ xs) = color ∷ xs

-- A tool that colours the first pixel.
abbrev pub dot : Picture → DrawOperation → List ℕ
dot p op = dot_pixels op.color p.pixels

length-dot_pixels : (color : ℕ) (pixels : List ℕ) → length (dot_pixels color pixels) ≡ length pixels
length-dot_pixels color [] = refl
length-dot_pixels color (x ∷ xs) = refl

pub length-dot : (p : Picture) (op : DrawOperation) → length (dot p op) ≡ length p.pixels
length-dot p op = length-dot_pixels op.color p.pixels

abbrev pub line : ℕ → ℕ → DrawOperation
line operation_id seq = record {
  operation_id = operation_id;
  seq = seq;
  member_id = 2;
  tool = ToolType.line;
  color = 255;
  thickness = 3;
  points = record { x = 1; y = 2 } ∷ record { x = 3; y = 4 } ∷ [];
}

abbrev empty : Canvas
empty = create 2 1 7

empty_room : HasRoom empty (line 9 0)
empty_room = create-HasRoom 2 1 7 (line 9 0) (omega arith)

empty-Agree : Agree empty empty
empty-Agree = record { picture = refl; next_seq = refl; operations = refl; ids = λ x. refl }

-- The host's number for the first operation.
abbrev first : Canvas × ℕ
first = apply dot empty (line 9 0)

apply_twice_example : apply dot first.0 (line 9 0) ≡ first
apply_twice_example =
    apply_twice dot empty (line 9 0) (create-IsConsistent 2 1 7) empty_room (omega arith)

-- The third operation repeats the first.
abbrev lines : List DrawOperation
lines = line 9 0 ∷ line 10 0 ∷ line 9 0 ∷ []

follow-Agree_example :
    Agree (follow dot length-dot empty empty lines).0 (follow dot length-dot empty empty lines).1
follow-Agree_example =
    follow-Agree dot length-dot empty empty lines empty-Agree (create-IsConsistent 2 1 7)
      (refl, (refl, (refl, tt))) (create-room 2 1 7 3 (omega arith))

-- A canvas whose pixels and counter differ from those of the host.
abbrev other : Canvas
other = record empty {
  picture = record { width = 2; height = 1; background = 7; pixels = 9 ∷ 8 ∷ [] };
  next_seq = 5;
}

other-SameSize : SameSize other.picture empty.picture
unfolding create
other-SameSize = record { width = refl; height = refl; background = refl; pixels = refl }

history-loaded_example : let c = apply_all dot lines empty in Agree (load dot other (snapshot c)) c
history-loaded_example =
    history-loaded dot length-dot 2 1 7 lines other other-SameSize (refl, (refl, (refl, tt)))
      (omega arith)

-- A picture whose right half has another colour.
abbrev halves : Picture
halves = record { width = 2; height = 2; background = 7; pixels = 7 ∷ 9 ∷ 7 ∷ 9 ∷ [] }

abbrev bucket : DrawOperation
bucket = record {
  operation_id = 11;
  seq = 0;
  member_id = 2;
  tool = ToolType.bucket_fill;
  color = 255;
  thickness = 3;
  points = record { x = 0; y = 0 } ∷ [];
}

bucket_fill-IsFilled_example :
    (pixels : List ℕ) × (bucket_fill halves bucket ≡ some pixels)
    × IsFilled halves 255
        (point halves (record { x = 0; y = 0 })).0
        (point halves (record { x = 0; y = 0 })).1
        pixels
bucket_fill-IsFilled_example =
    bucket_fill-IsFilled halves bucket (record { x = 0; y = 0 }) [] refl refl

bucket_fill_test : bucket_fill halves bucket ≡ some (255 ∷ 9 ∷ 255 ∷ 9 ∷ [])
unfolding bucket_fill fill_at fill_from point flood spread try_before try_fill fill Option.bind
bucket_fill_test = refl
