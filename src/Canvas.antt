-- ===== src/Canvas.antt =====
-- engine/canvas/canvas.h and canvas.cpp: the log of operations behind the picture. What the drawing
-- tools do to the pixels is `paint`, a parameter: it stands for the body of canvas::rasterize after
-- its first two tests. Locks are not modelled: a call is one step.
pub mod Log
pub mod Replay
pub mod History
pub mod Stroke
pub mod Fill
use sketch_sync.Prelude.{
  ℕ, ◌+◌, ◌*◌, ◌^◌, Bool, true, false, not, ◌&&◌, ◌||◌, Option, none, some, List, [], ◌∷◌, ◌++◌,
  map, ltb, leb, ◌==◌, if◌then◌else◌, replicate,
}
use Prim.Native.Nat.{max}
use sketch_sync.Bytes.{u32}
use sketch_sync.DrawOperation.{DrawOperation}
use sketch_sync.DrawOperation.ToolType

-- The picture: the members that canvas::rasterize reads and writes.
pub record Picture : Type 0 where
  pub width : ℕ
  pub height : ℕ
  pub background : ℕ
  pub pixels : List ℕ

pub record Canvas : Type 0 where
  pub picture : Picture
  pub open picture use *
  pub next_seq : ℕ
  pub operations : List DrawOperation
  pub operation_ids : List ℕ

-- operation_ids.contains, and insert into a set.
unfoldable pub contains : ℕ → List ℕ → Bool
contains x [] = false
contains x (y ∷ ys) = y == x || contains x ys

unfoldable pub insert : ℕ → List ℕ → List ℕ
insert x ys = if contains x ys then ys else x ∷ ys

abbrev is_empty {ℓ} : {A : Type ℓ} → List A → Bool
is_empty [] = true
is_empty (x ∷ xs) = false

unfoldable pub snapshot : Canvas → List DrawOperation
snapshot c = c.operations

pub contains_operation : ℕ → Canvas → Bool
contains_operation operation_id c =
    if operation_id == 0 then false else contains operation_id c.operation_ids

abbrev pub next_sequence : Canvas → ℕ
next_sequence c = c.next_seq

-- std::ranges::fill(pixels, background)
abbrev pub blank : Picture → Picture
blank p = record p { pixels = map (λ _. p.background) p.pixels }

unfoldable pub create : ℕ → ℕ → ℕ → Canvas
create width height background = record {
  picture = record {
    width = width;
    height = height;
    background = background;
    pixels = replicate (width * height) background;
  };
  next_seq = 1;
  operations = [];
  operation_ids = [];
}

pub clear_history : Canvas → Canvas
clear_history c = record {
  picture = blank c.picture;
  next_seq = 1;
  operations = [];
  operation_ids = [];
}

-- The search of `apply` for an operation with the same id: the sequence number of the first.
pub find_seq : ℕ → List DrawOperation → Option ℕ
find_seq operation_id [] = none
find_seq operation_id (op ∷ ops) =
    if op.operation_id == operation_id then some op.seq else find_seq operation_id ops

-- The set of the ids that are not 0.
pub insert_ids : List ℕ → List DrawOperation → List ℕ
insert_ids ids [] = ids
insert_ids ids (op ∷ ops) =
    insert_ids (if op.operation_id == 0 then ids else insert op.operation_id ids) ops

-- next_seq.store(std::max(next_seq.load(), op.seq + 1)) for each operation.
pub last_seq : ℕ → List DrawOperation → ℕ
last_seq next [] = next
last_seq next (op ∷ ops) = last_seq (max next (u32 (op.seq + 1))) ops

module _ (paint : Picture → DrawOperation → List ℕ) where
  pub rasterize : Picture → DrawOperation → Picture
  rasterize p op =
      if op.tool == ToolType.clear
      then blank p
      else if p.width == 0 || p.height == 0 || is_empty op.points
      then p
      else record p { pixels = paint p op }

  pub rasterize_all : Picture → List DrawOperation → Picture
  rasterize_all p [] = p
  rasterize_all p (op ∷ ops) = rasterize_all (rasterize p op) ops

  -- The part of `apply` behind the first search: `seq` is given, `next` is next_seq by then.
  commit : Canvas → DrawOperation → ℕ → ℕ → Canvas × ℕ
  commit c op seq next =
      let op' = record op { seq = seq } in
      if not (op.operation_id == 0) && contains op.operation_id c.operation_ids
      then (record c { next_seq = next }, seq)
      else (
        record {
          picture = rasterize c.picture op';
          next_seq = if leb next seq then u32 (seq + 1) else next;
          operations = c.operations ++ op' ∷ [];
          operation_ids =
              if op.operation_id == 0
              then c.operation_ids
              else insert op.operation_id c.operation_ids;
        },
        seq,
      )

  -- An operation that carries no number takes next_seq.fetch_add(1).
  stamp : Canvas → DrawOperation → Canvas × ℕ
  stamp c op =
      if op.seq == 0
      then commit c op c.next_seq (u32 (c.next_seq + 1))
      else commit c op op.seq c.next_seq

  pub apply : Canvas → DrawOperation → Canvas × ℕ
  apply c op =
      if op.operation_id == 0
      then stamp c op
      else elim (find_seq op.operation_id c.operations) [ some seq ↦ (c, seq) | none ↦ stamp c op ]

  -- An empty picture has no pixel to fill, so the test before `fill` changes nothing.
  pub load : Canvas → List DrawOperation → Canvas
  load c ops = record {
    picture = rasterize_all (blank c.picture) ops;
    next_seq = last_seq 1 ops;
    operations = ops;
    operation_ids = insert_ids [] ops;
  }
