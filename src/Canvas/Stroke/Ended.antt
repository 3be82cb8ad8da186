-- ===== src/Canvas/Stroke/Ended.antt =====
-- The points of a stroke after the frame in which the pointer is released (process_canvas_input of
-- engine/canvas/canvas.cpp).
use sketch_sync.Prelude.{
  ℕ, suc, ◌≡◌, ◌≢◌, ◌≤◌, refl, sym, ◌∙◌, ap, inl, inr, Bool, true, false, ◌&&◌, ◌||◌, List, [], ◌∷◌,
  ◌++◌, ◌==◌, arith, Bool-cases, length, length-append, ==_iff,
}
use mathlib.Core.Path.{subst}
use sketch_sync.DrawOperation.{CanvasPoint, DrawOperation}
use sketch_sync.DrawOperation.ToolType
use sketch_sync.Canvas.Stroke.{
  CanvasInput, is_freehand, far_enough, back, set_back, add_freehand, add_corner, extend, doubled,
  finished,
}

-- The pointer is down, or on the canvas: a frame in which it is released takes its position.
abbrev pub takes_point : CanvasInput → Bool
takes_point input = input.down || input.inside

-- The points before and after the frame. A freehand tool takes a point that is far enough from the last one;
-- the other tools, but for the bucket, have a second point, and move the last one from then on.
pub data IsExtended (tool : ℕ) (input : CanvasInput) (ps : List CanvasPoint)
    : List CanvasPoint → Type 0 where
  outside : takes_point input ≡ false → IsExtended tool input ps ps
  bucket : tool ≡ ToolType.bucket_fill → IsExtended tool input ps ps
  near :
      (start : List CanvasPoint) (last : CanvasPoint)
      → is_freehand tool ≡ true
      → ps ≡ start ++ last ∷ []
      → far_enough input.position last ≡ false
      → IsExtended tool input ps ps
  far :
      (start : List CanvasPoint) (last : CanvasPoint)
      → takes_point input ≡ true
      → is_freehand tool ≡ true
      → ps ≡ start ++ last ∷ []
      → far_enough input.position last ≡ true
      → IsExtended tool input ps (start ++ last ∷ input.position ∷ [])
  second :
      (first : CanvasPoint)
      → takes_point input ≡ true
      → is_freehand tool ≡ false
      → tool ≢ ToolType.bucket_fill
      → ps ≡ first ∷ []
      → IsExtended tool input ps (first ∷ input.position ∷ [])
  moved :
      (first : CanvasPoint) (start : List CanvasPoint) (last : CanvasPoint)
      → takes_point input ≡ true
      → is_freehand tool ≡ false
      → tool ≢ ToolType.bucket_fill
      → ps ≡ first ∷ (start ++ last ∷ [])
      → IsExtended tool input ps (first ∷ (start ++ input.position ∷ []))

-- A stroke that would end with one point has it twice.
pub data IsEnded (tool : ℕ) (input : CanvasInput) (ps : List CanvasPoint)
    : List CanvasPoint → Type 0 where
  single :
      (p : CanvasPoint) → IsExtended tool input ps (p ∷ []) → IsEnded tool input ps (p ∷ p ∷ [])
  several :
      (p q : CanvasPoint) (rest : List CanvasPoint)
      → IsExtended tool input ps (p ∷ q ∷ rest)
      → IsEnded tool input ps (p ∷ q ∷ rest)

-- The points before the last one.
start_of : CanvasPoint → List CanvasPoint → List CanvasPoint
start_of p [] = []
start_of p (q ∷ ps) = p ∷ start_of q ps

start_of-back : (p : CanvasPoint) (ps : List CanvasPoint) → p ∷ ps ≡ start_of p ps ++ back p ps ∷ []
unfolding start_of back
start_of-back p [] = refl
start_of-back p (q ∷ ps) = ap (λ l. p ∷ l) (start_of-back q ps)

set_back-start_of :
    (r p : CanvasPoint) (ps : List CanvasPoint) → set_back r (p ∷ ps) ≡ start_of p ps ++ r ∷ []
unfolding set_back start_of
set_back-start_of r p [] = refl
set_back-start_of r p (q ∷ ps) = ap (λ l. p ∷ l) (set_back-start_of r q ps)

-- The points with one more, as the code appends it.
appended_one :
    (p r : CanvasPoint) (ps : List CanvasPoint)
    → (p ∷ ps) ++ r ∷ [] ≡ start_of p ps ++ back p ps ∷ r ∷ []
unfolding start_of back
appended_one p r [] = refl
appended_one p r (q ∷ ps) = ap (λ l. p ∷ l) (appended_one q r ps)

-- No point is lost, and not more than one comes.
IsExtended-length :
    {tool : ℕ} {input : CanvasInput} {ps points : List CanvasPoint}
    → IsExtended tool input ps points
    → (length ps ≤ length points) × (length points ≤ suc (length ps))
IsExtended-length (outside h) = (omega arith, omega arith)
IsExtended-length (bucket h) = (omega arith, omega arith)
IsExtended-length (near start last f e h) = (omega arith, omega arith)
IsExtended-length {input = input} (far start last t f e h) =
    let n = length-append start (last ∷ input.position ∷ []) in
    let m = length-append start (last ∷ []) in rw e (omega (arith, n, m), omega (arith, n, m))
IsExtended-length (second first t f b e) = rw e (omega arith, omega arith)
IsExtended-length {input = input} (moved first start last t f b e) =
    let n = length-append start (input.position ∷ []) in
    let m = length-append start (last ∷ []) in rw e (omega (arith, n, m), omega (arith, n, m))

-- With a point before, the stroke is at most one point longer, also if a single point is doubled.
pub IsEnded-length :
    {tool : ℕ} {input : CanvasInput} {points : List CanvasPoint} (p : CanvasPoint)
    (ps : List CanvasPoint)
    → IsEnded tool input (p ∷ ps) points
    → length points ≤ suc (length (p ∷ ps))
IsEnded-length p ps (single q h) = omega arith
IsEnded-length p ps (several q r rest h) = (IsExtended-length h).1

module _ (tool : ℕ) (input : CanvasInput) (p : CanvasPoint) (ps : List CanvasPoint) where
  add_freehand-IsExtended :
      takes_point input ≡ true
      → is_freehand tool ≡ true
      → IsExtended tool input (p ∷ ps) (add_freehand input.position (p ∷ ps))
  unfolding add_freehand
  add_freehand-IsExtended t f = elim (Bool-cases (far_enough input.position (back p ps))) [
    | inl h ↦ rw h (
        subst (IsExtended tool input (p ∷ ps)) (sym (appended_one p input.position ps))
          (far (start_of p ps) (back p ps) t f (start_of-back p ps) h))
    | inr h ↦ rw h (near (start_of p ps) (back p ps) f (start_of-back p ps) h)
  ]

  add_corner-IsExtended :
      (rest : List CanvasPoint)
      → ps ≡ rest
      → takes_point input ≡ true
      → is_freehand tool ≡ false
      → tool ≢ ToolType.bucket_fill
      → IsExtended tool input (p ∷ ps) (add_corner input.position (p ∷ rest))
  unfolding add_corner set_back
  add_corner-IsExtended [] e t f b = second p t f b (ap (λ l. p ∷ l) e)
  add_corner-IsExtended (q ∷ qs) e t f b =
      subst (λ l. IsExtended tool input (p ∷ ps) (p ∷ l))
        (sym (set_back-start_of input.position q qs))
        (moved p (start_of q qs) (back q qs) t f b (ap (λ l. p ∷ l) (e ∙ start_of-back q qs)))

  taken_if :
      input.released ≡ true → (input.down || input.released && input.inside) ≡ takes_point input
  taken_if released = ap (λ b. input.down || b && input.inside) released

  -- The points of a stroke, as extend leaves them when the pointer is released.
  extend-IsExtended :
      (op : DrawOperation)
      → op.points ≡ p ∷ ps
      → input.released ≡ true
      → IsExtended tool input (p ∷ ps) (extend tool input op).points
  unfolding extend
  extend-IsExtended op e released = elim (Bool-cases (takes_point input)) [
    | inr o ↦ rw (taken_if released ∙ o, e) (outside o)
    | inl t ↦ elim (Bool-cases (is_freehand tool)) [
      | inl f ↦ rw (taken_if released ∙ t, f, e) (add_freehand-IsExtended t f)
      | inr f ↦ elim (Bool-cases (tool == ToolType.bucket_fill)) [
        | inl b ↦
            rw (taken_if released ∙ t, f, b, e) (bucket ((==_iff tool ToolType.bucket_fill).0 b))
        | inr b ↦
            rw (taken_if released ∙ t, f, b, e)
              (add_corner-IsExtended ps refl t f (ground (arith, b)))
      ]
    ]
  ]

  doubled-IsEnded :
      (points : List CanvasPoint)
      → IsExtended tool input (p ∷ ps) points
      → IsEnded tool input (p ∷ ps) (doubled points)
  unfolding doubled
  doubled-IsEnded [] h = absurd (omega (arith, (IsExtended-length h).0))
  doubled-IsEnded (q ∷ []) h = single q h
  doubled-IsEnded (q ∷ r ∷ rest) h = several q r rest h

  pub finished-IsEnded :
      (op : DrawOperation)
      → op.points ≡ p ∷ ps
      → input.released ≡ true
      → IsEnded tool input (p ∷ ps) (finished (extend tool input op)).points
  unfolding finished
  finished-IsEnded op e released =
      doubled-IsEnded (extend tool input op).points (extend-IsExtended op e released)
