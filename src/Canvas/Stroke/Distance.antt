-- ===== src/Canvas/Stroke/Distance.antt =====
-- The test that thins a freehand stroke out, and the int that it is computed in.
use sketch_sync.Prelude.{
  ℕ, ◌+◌, ◌*◌, ◌-◌, ◌%◌, ◌^◌, ◌≤◌, ◌<◌, ◌≡◌, ◌↔◌, true, false, ◌&&◌, ltb, leb, arith,
}
use sketch_sync.DrawOperation.{CanvasPoint}
use sketch_sync.Canvas.Stroke.{square, far_enough}

-- The square of the distance of two points.
pub distance : CanvasPoint → CanvasPoint → ℕ
distance p q = square p.x q.x + square p.y q.y

-- Two coordinates lie at most 32767 apart.
abbrev pub IsNear : ℕ → ℕ → Type 0
IsNear a b = (a ≤ b + 32767) × (b ≤ a + 32767)

square_bound : (d : ℕ) → d ≤ 32767 → d * d ≤ 32767 * 32767
square_bound d h = grind arith

square_near : (a b : ℕ) → IsNear a b → square a b ≤ 32767 * 32767
square_near a b h = square_bound ((a - b) + (b - a)) (omega arith)

far_enough_exact :
    (d : ℕ)
    → d < 2 ^ 31
    → ((ltb (d % 2 ^ 32) (2 ^ 31) && leb (32 * 32) (d % 2 ^ 32)) ≡ true) ↔ (1024 ≤ d)
far_enough_exact d h = let e : d % 2 ^ 32 ≡ d = omega arith in rw e (ground (arith, h))

far_enough_negative :
    (d : ℕ)
    → 2 ^ 31 ≤ d
    → d < 2 ^ 32
    → (ltb (d % 2 ^ 32) (2 ^ 31) && leb (32 * 32) (d % 2 ^ 32)) ≡ false
far_enough_negative d h k = let e : d % 2 ^ 32 ≡ d = omega arith in rw e (ground (arith, h, k))

-- Of two points with neither coordinate more than 32767 apart, the next one is taken into a freehand stroke
-- exactly if it lies at least 32 units from the last.
pub far_enough_iff :
    (p q : CanvasPoint)
    → IsNear p.x q.x
    → IsNear p.y q.y
    → (far_enough p q ≡ true) ↔ (32 * 32 ≤ distance p q)
unfolding far_enough distance
far_enough_iff p q h k =
    far_enough_exact (square p.x q.x + square p.y q.y)
      (omega (arith, square_near p.x q.x h, square_near p.y q.y k))

-- A point whose squared distance from the last one is from 2 ^ 31 up to 2 ^ 32 is left out of the stroke,
-- far as it is.
pub far_enough_overflow :
    (p q : CanvasPoint)
    → 2 ^ 31 ≤ distance p q
    → distance p q < 2 ^ 32
    → (far_enough p q ≡ false) × (32 * 32 ≤ distance p q)
unfolding far_enough distance
far_enough_overflow p q h k =
    (far_enough_negative (square p.x q.x + square p.y q.y) h k, omega arith)
