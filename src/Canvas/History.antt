-- ===== src/Canvas/History.antt =====
-- A canvas that has applied operations since its creation, and another that loads its snapshot (canvas.cpp).
use sketch_sync.Prelude.{
  ℕ, ◌+◌, ◌^◌, ◌<◌, ◌≡◌, sym, ◌∙◌, List, [], ◌∷◌, All, length, arith, inl, inr,
}
use sketch_sync.DrawOperation.{DrawOperation}
use sketch_sync.Canvas.{Picture, Canvas, create, snapshot, apply, load}
use sketch_sync.Canvas.Log.{
  IsConsistent, HasRoom, assigned, appended, apply_fresh, apply_known, apply_cases,
  apply-IsConsistent, create-IsConsistent, create-room,
}
use sketch_sync.Canvas.Replay.{
  Agree, SameSize, IsReplay, rasterize-SameSize, apply-IsReplay, create-IsReplay, load-snapshot,
  apply-next_seq,
}

-- The canvas after the operations.
pub apply_all : (Picture → DrawOperation → List ℕ) → List DrawOperation → Canvas → Canvas
apply_all paint [] c = c
apply_all paint (op ∷ ops) c = apply_all paint ops (apply paint c op).0

module _ (paint : Picture → DrawOperation → List ℕ)
    (keeps_size : (p : Picture) (op : DrawOperation) → length (paint p op) ≡ length p.pixels) where
  apply-SameSize :
      (p : Picture) (c : Canvas) (op : DrawOperation)
      → IsConsistent c
      → HasRoom c op
      → SameSize p c.picture
      → SameSize p (apply paint c op).0.picture
  unfolding appended
  apply-SameSize p c op v r s = elim (apply_cases paint c op) [
    | inl f ↦
        let op' : DrawOperation = record op { seq = assigned c op } in
        let t = rasterize-SameSize paint keeps_size c.picture op' in
        rw (apply_fresh paint c op v f r) (record {
          width = s.width ∙ sym t.width;
          height = s.height ∙ sym t.height;
          background = s.background ∙ sym t.background;
          pixels = s.pixels ∙ sym t.pixels;
        })
    | inr (seq, k, e) ↦ rw (apply_known paint c op seq k e) s
  ]

  applied-loaded :
      (c other : Canvas) (ops : List DrawOperation)
      → IsConsistent c
      → IsReplay paint keeps_size c
      → SameSize other.picture c.picture
      → All (λ op. op.seq ≡ 0) ops
      → c.next_seq + length ops < 2 ^ 32
      → Agree (load paint other (snapshot (apply_all paint ops c))) (apply_all paint ops c)
  unfolding apply_all
  applied-loaded c other [] v h s z room = load-snapshot paint keeps_size c other v h s
  applied-loaded c other (op ∷ ops) v h s z room =
      let r : HasRoom c op = record { counter = omega arith; number = omega (arith, z.0) } in
      applied-loaded (apply paint c op).0 other ops (apply-IsConsistent paint c op v r)
        (apply-IsReplay paint keeps_size c op v r h) (apply-SameSize other.picture c op v r s) z.1
        (omega (arith, apply-next_seq paint keeps_size c op v r z.0))

  -- A canvas that has applied any operations since its creation, repeated or not, each without a number, and
  -- any canvas of the same size and background: once the other has loaded the snapshot of the first, they
  -- agree, so that the picture that was painted operation by operation, the counter and the id set are those
  -- that `load` makes of the log alone. The counter has room for the operations, and the tools keep the number
  -- of pixels.
  pub history-loaded :
      (width height background : ℕ) (ops : List DrawOperation) (other : Canvas)
      → SameSize other.picture (create width height background).picture
      → All (λ op. op.seq ≡ 0) ops
      → 1 + length ops < 2 ^ 32
      → let c = apply_all paint ops (create width height background) in
        Agree (load paint other (snapshot c)) c
  history-loaded width height background ops other s z room =
      applied-loaded (create width height background) other ops
        (create-IsConsistent width height background)
        (create-IsReplay paint keeps_size width height background) s z
        (create-room width height background (length ops) room)
