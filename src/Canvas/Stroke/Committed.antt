-- ===== src/Canvas/Stroke/Committed.antt =====
-- Strokes from their first point to their end: what process_canvas_input returns passes validateDrawOperation.
use sketch_sync.Prelude.{
  ℕ, suc, ◌+◌, ◌≡◌, ◌≢◌, ◌≤◌, ◌<◌, refl, sym, ap, ◌∙◌, false, ◌&&◌, ◌||◌, Option, none, some, List,
  [], ◌∷◌, ◌==◌, if◌then◌else◌, length, length-append, arith, All, Bool-cases, inl, inr,
}
use mathlib.Core.Path.{subst}
use sketch_sync.DrawOperation.{CanvasPoint, DrawOperation}
use sketch_sync.DrawOperation.ToolType
use sketch_sync.DrawOperation.Validity.{IsShape, IsValid}
use sketch_sync.Canvas.{Picture, Canvas}
use sketch_sync.Canvas.Stroke.{
  CanvasInput, Pen, is_freehand, set_back, start_stroke, begin, add_freehand, add_corner, extend,
  update, doubled, finished, commit_stroke, finish, process_canvas_input,
}

-- A pen that draws with `tool` for a member, within the limits of an operation.
pub record IsPen (tool : ℕ) (pen : Pen) : Type 0 where
  pub identified : pen.operation_id ≢ 0
  pub owned : pen.member_id ≢ 0
  pub thick : 0 < pen.thickness
  pub thin : pen.thickness ≤ 64
  pub same : pen.tool ≡ tool

-- A stroke with `tool` after `count` frames.
record IsUnderway (tool count : ℕ) (op : DrawOperation) : Type 0 where
  identified : op.operation_id ≢ 0
  owned : op.member_id ≢ 0
  thick : 0 < op.thickness
  thin : op.thickness ≤ 64
  same : op.tool ≡ tool
  unstamped : op.seq ≡ 0
  started : 0 < length op.points
  bounded : length op.points ≤ count + 1
  corners : is_freehand tool ≡ false → length op.points ≤ 2

-- Nothing, or a stroke.
abbrev Holds : (DrawOperation → Type 0) → Option DrawOperation → Type 0
Holds P none = Unit {0}
Holds P (some op) = P op

length-set_back : (p : CanvasPoint) (ps : List CanvasPoint) → length (set_back p ps) ≡ length ps
unfolding set_back
length-set_back p [] = refl
length-set_back p (q ∷ []) = refl
length-set_back p (q ∷ r ∷ ps) = ap suc (length-set_back p (r ∷ ps))

begin-IsUnderway :
    (tool count : ℕ) (pen : Pen) (input : CanvasInput) (temporary : Option DrawOperation)
    → IsPen tool pen
    → Holds (IsUnderway tool count) temporary
    → Holds (IsUnderway tool count) (begin pen input temporary)
unfolding begin start_stroke
begin-IsUnderway tool count pen input (some op) v h = h
begin-IsUnderway tool count pen input none v h = elim (Bool-cases (input.pressed && input.inside)) [
  | inl e ↦ rw e (record {
    identified = v.identified;
    owned = v.owned;
    thick = v.thick;
    thin = v.thin;
    same = v.same;
    unstamped = refl;
    started = omega arith;
    bounded = omega arith;
    corners = λ _. omega arith;
  })
  | inr e ↦ rw e tt
]

add_freehand-bounds :
    (p : CanvasPoint) (ps : List CanvasPoint)
    → 0 < length ps
    → (0 < length (add_freehand p ps)) × (length (add_freehand p ps) ≤ length ps + 1)
unfolding add_freehand
add_freehand-bounds p [] h = absurd (omega arith)
add_freehand-bounds p (q ∷ ps) h = ground (arith, length-append {0} (q ∷ ps) (p ∷ []))

add_corner-bounds :
    (p : CanvasPoint) (ps : List CanvasPoint)
    → 0 < length ps
    → length ps ≤ 2
    → (0 < length (add_corner p ps))
      × (length (add_corner p ps) ≤ 2)
      × (length (add_corner p ps) ≤ length ps + 1)
unfolding add_corner
add_corner-bounds p [] h k = absurd (omega arith)
add_corner-bounds p (q ∷ []) h k = omega arith
add_corner-bounds p (q ∷ r ∷ ps) h k = omega (arith, length-set_back p (q ∷ r ∷ ps))

with_points-IsUnderway :
    (tool count : ℕ) (op : DrawOperation) (ps : List CanvasPoint)
    → IsUnderway tool count op
    → 0 < length ps
    → length ps ≤ length op.points + 1
    → (is_freehand tool ≡ false → length ps ≤ 2)
    → IsUnderway tool (suc count) (record op { points = ps })
with_points-IsUnderway tool count op ps v h k c =
    let b = v.bounded in
    record {
      identified = v.identified;
      owned = v.owned;
      thick = v.thick;
      thin = v.thin;
      same = v.same;
      unstamped = v.unstamped;
      started = h;
      bounded = omega arith;
      corners = c;
    }

extend-IsUnderway :
    (tool count : ℕ) (input : CanvasInput) (op : DrawOperation)
    → IsUnderway tool count op
    → IsUnderway tool (suc count) (extend tool input op)
unfolding extend
extend-IsUnderway tool count input op v =
    elim (Bool-cases (input.down || input.released && input.inside)) [
      | inr e ↦ rw e (kept_points v)
      | inl e ↦ elim (Bool-cases (is_freehand tool)) [
        | inl f ↦
            let (h, k) = add_freehand-bounds input.position op.points v.started in
            rw (e, f)
              (with_points-IsUnderway tool count op (add_freehand input.position op.points) v h k
                (λ g. absurd (cc (f, g))))
        | inr f ↦ elim (Bool-cases (tool == ToolType.bucket_fill)) [
          | inl g ↦ rw (e, f, g) (kept_points v)
          | inr g ↦
              let (h, k, l) = add_corner-bounds input.position op.points v.started (v.corners f) in
              rw (e, f, g)
                (with_points-IsUnderway tool count op (add_corner input.position op.points) v h l
                  (λ _. k))
        ]
      ]
    ]
  where
    kept_points : IsUnderway tool count op → IsUnderway tool (suc count) op
    kept_points v =
        with_points-IsUnderway tool count op op.points v v.started (omega arith) v.corners

update-IsUnderway :
    (tool count : ℕ) (input : CanvasInput) (temporary : Option DrawOperation)
    → Holds (IsUnderway tool count) temporary
    → Holds (IsUnderway tool (suc count)) (update tool input temporary)
unfolding update
update-IsUnderway tool count input none h = tt
update-IsUnderway tool count input (some op) h = extend-IsUnderway tool count input op h

length-doubled :
    (ps : List CanvasPoint) → length (doubled ps) ≡ (if length ps == 1 then 2 else length ps)
unfolding doubled
length-doubled [] = refl
length-doubled (p ∷ []) = refl
length-doubled (p ∷ q ∷ ps) = ground arith

-- An operation that is valid but for its number.
abbrev pub IsDrawn : DrawOperation → Type 0
IsDrawn op = IsValid (record op { seq = 0 }) false

shape-not_freehand : (tool : ℕ) → IsShape tool → is_freehand tool ≡ false
shape-not_freehand tool h = ground (arith, h)

finished-IsDrawn :
    (tool count : ℕ) (op : DrawOperation)
    → IsUnderway tool count op
    → tool ≤ ToolType.brush
    → tool ≢ ToolType.clear
    → count < 65535
    → IsDrawn (finished op)
unfolding finished
finished-IsDrawn tool count op v named not_clear h =
    let n = length-doubled op.points in
    let some_points : 0 < length op.points = v.started in
    let few : length op.points ≤ count + 1 = v.bounded in
    record {
      identified = v.identified;
      stamped = λ e. cc e;
      unstamped = λ _. refl;
      owned = v.owned;
      named = omega (arith, v.same);
      thick = v.thick;
      thin = v.thin;
      bounded = ground (arith, n);
      has_points = record {
        clear = λ e. absurd (not_clear (sym v.same ∙ e));
        shape = λ e.
            let c : length op.points ≤ 2 =
              v.corners (shape-not_freehand tool (subst IsShape v.same e)) in
            ground (arith, n);
        stroke = λ _. ground (arith, n);
        fill = λ _. ground (arith, n);
      };
    }

module _ (paint : Picture → DrawOperation → List ℕ) where
  -- The operations that come of a list of frames.
  pub draw_frames : List (Pen × CanvasInput) → Option DrawOperation → Canvas → List DrawOperation
  draw_frames [] temporary surface = []
  draw_frames ((pen, input) ∷ frames) temporary surface =
      let (surface', temporary', r) = process_canvas_input paint pen input temporary surface in
      let rest = draw_frames frames temporary' surface' in
      elim r [ none ↦ rest | some op ↦ op ∷ rest ]

  finish-IsDrawn :
      (tool count : ℕ) (pen : Pen) (input : CanvasInput) (temporary : Option DrawOperation)
      (surface : Canvas)
      → Holds (IsUnderway tool count) temporary
      → tool ≤ ToolType.brush
      → tool ≢ ToolType.clear
      → count < 65535
      → let (surface', temporary', r) = finish paint pen input temporary surface in
        Holds (IsUnderway tool count) temporary' × Holds IsDrawn r
  unfolding finish commit_stroke
  finish-IsDrawn tool count pen input none surface h named nc lt = (tt, tt)
  finish-IsDrawn tool count pen input (some op) surface h named nc lt =
      let v = finished-IsDrawn tool count op h named nc lt in
      elim (Bool-cases input.released) [
        | inr e ↦ rw e (h, tt)
        | inl e ↦ elim (Bool-cases pen.commit_to_canvas) [
          | inl f ↦ rw (e, f) (tt, v)
          | inr f ↦ rw (e, f) (tt, v)
        ]
      ]

  process-IsDrawn :
      (tool count : ℕ) (pen : Pen) (input : CanvasInput) (temporary : Option DrawOperation)
      (surface : Canvas)
      → IsPen tool pen
      → Holds (IsUnderway tool count) temporary
      → tool ≤ ToolType.brush
      → tool ≢ ToolType.clear
      → suc count < 65535
      → let (surface', temporary', r) = process_canvas_input paint pen input temporary surface in
        Holds (IsUnderway tool (suc count)) temporary' × Holds IsDrawn r
  unfolding process_canvas_input
  process-IsDrawn tool count pen input temporary surface p h named nc lt =
      let begun = begin-IsUnderway tool count pen input temporary p h in
      let updated =
        subst
          (λ t. Holds (IsUnderway tool (suc count)) (update t input (begin pen input temporary)))
          (sym p.same) (update-IsUnderway tool count input (begin pen input temporary) begun) in
      finish-IsDrawn tool (suc count) pen input (update pen.tool input (begin pen input temporary))
        surface updated named nc lt

  frames-IsDrawn :
      (tool count : ℕ) (frames : List (Pen × CanvasInput)) (temporary : Option DrawOperation)
      (surface : Canvas)
      → All (λ f. IsPen tool f.0) frames
      → Holds (IsUnderway tool count) temporary
      → tool ≤ ToolType.brush
      → tool ≢ ToolType.clear
      → count + length frames < 65535
      → All IsDrawn (draw_frames frames temporary surface)
  unfolding draw_frames
  frames-IsDrawn tool count [] temporary surface p h named nc lt = tt
  frames-IsDrawn tool count ((pen, input) ∷ frames) temporary surface p h named nc lt =
      let (surface', temporary', r) = process_canvas_input paint pen input temporary surface in
      let (h', v) =
        process-IsDrawn tool count pen input temporary surface p.0 h named nc (omega arith) in
      let rest =
        frames-IsDrawn tool (suc count) frames temporary' surface' p.1 h' named nc (omega arith) in
      consed r (draw_frames frames temporary' surface') v rest
    where
      consed :
          (r : Option DrawOperation) (ops : List DrawOperation)
          → Holds IsDrawn r
          → All IsDrawn ops
          → All IsDrawn (elim r [ none ↦ ops | some op ↦ op ∷ ops ])
      consed none ops v w = w
      consed (some op) ops v w = (v, w)

  -- Whatever the pointer does over fewer than 65535 frames, from no stroke under way, with one tool other than
  -- clear: every operation that process_canvas_input returns is valid but for its number, so it has the
  -- points that its tool takes, at most 65535 of them. The pens draw for a member, under an id, with a
  -- thickness from 1 to 64.
  pub draw_frames-IsDrawn :
      (tool : ℕ) (frames : List (Pen × CanvasInput)) (surface : Canvas)
      → tool ≤ ToolType.brush
      → tool ≢ ToolType.clear
      → All (λ f. IsPen tool f.0) frames
      → length frames < 65535
      → All IsDrawn (draw_frames frames none surface)
  draw_frames-IsDrawn tool frames surface named nc p lt =
      frames-IsDrawn tool 0 frames none surface p tt named nc (omega arith)
