-- ===== src/Canvas/Fill.antt =====
-- The bucket of canvas::rasterize, in engine/canvas/canvas.cpp. `none` stands for an access outside the
-- pixels, or for a loop that has not ended after the rounds that it was given.
pub mod Pixels
pub mod Spreading
pub mod Flooding
use sketch_sync.Prelude.{
  ℕ, zero, suc, ◌+◌, ◌*◌, ◌-◌, ◌/◌, Bool, ◌&&◌, ◌||◌, Option, none, some, List, [], ◌∷◌, ◌++◌, ltb,
  leb, ◌==◌, if◌then◌else◌, length, get_elem?, set,
}
use mathlib.Core.Option
use sketch_sync.DrawOperation.{CanvasPoint, DrawOperation}
use sketch_sync.Canvas.{Picture}

-- The pixels, and the queue of points whose neighbours are to be looked at.
pub record Fill : Type 0 where
  pub pixels : List ℕ
  pub queue : List (ℕ × ℕ)

-- canvas::rasterize's `point`.
unfoldable pub point : Picture → CanvasPoint → ℕ × ℕ
point p q = ((q.x * (p.width - 1)) / 65535, (q.y * (p.height - 1)) / 65535)

module _ (width height target color : ℕ) where
  unfoldable pub fill : ℕ × ℕ → Fill → ℕ → Fill
  fill (x, y) s pixel =
      if pixel == target
      then record { pixels = set s.pixels (y * width + x) color; queue = s.queue ++ (x, y) ∷ [] }
      else s

  unfoldable pub try_fill : ℕ × ℕ → Fill → Option Fill
  try_fill (x, y) s =
      if ltb x width && ltb y height
      then Option.map (fill (x, y) s) (get_elem? s.pixels (y * width + x))
      else some s

  -- try_fill of a point whose coordinate is one less than `n`, which is refused below 0.
  unfoldable pub try_before : ℕ → (ℕ → ℕ × ℕ) → Fill → Option Fill
  try_before zero at s = some s
  try_before (suc n) at s = try_fill (at n) s

  -- The four neighbours.
  unfoldable pub spread : ℕ × ℕ → Fill → Option Fill
  spread (x, y) s = Option.bind (try_fill (x + 1, y) s) λ s1.
      Option.bind (try_before x (λ x'. (x', y)) s1)
        λ s2. Option.bind (try_fill (x, y + 1) s2) λ s3. try_before y (λ y'. (x, y')) s3

  -- The loop, over at most so many rounds.
  unfoldable pub flood : ℕ → List ℕ → List (ℕ × ℕ) → Option (List ℕ)
  flood zero pixels queue = none
  flood (suc n) pixels [] = some pixels
  flood (suc n) pixels (p ∷ queue) =
      Option.bind (spread p (record { pixels = pixels; queue = queue }))
        λ s. flood n s.pixels s.queue

-- The bucket behind the test of the first point, on a pixel of the colour `target`.
unfoldable pub fill_from : Picture → ℕ → ℕ × ℕ → ℕ → Option (List ℕ)
fill_from p color (x, y) target =
    if target == color
    then some p.pixels
    else flood p.width p.height target color (length p.pixels + 1)
        (set p.pixels (y * p.width + x) color) ((x, y) ∷ [])

unfoldable pub fill_at : Picture → ℕ → ℕ × ℕ → Option (List ℕ)
fill_at p color (x, y) =
    if leb p.width x || leb p.height y
    then some p.pixels
    else Option.bind (get_elem? p.pixels (y * p.width + x)) (fill_from p color (x, y))

-- The pixels after an operation of the tool bucket_fill.
unfoldable pub bucket_fill : Picture → DrawOperation → Option (List ℕ)
bucket_fill p op = elim op.points [
  | [] ↦ some p.pixels
  | q ∷ points ↦ fill_at p op.color (point p q)
]
