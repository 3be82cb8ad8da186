-- ===== src/Canvas/Replay.antt =====
-- Copies of a canvas (canvas.cpp): the picture against the log, a snapshot that another canvas loads, and
-- operations that two canvases apply.
use sketch_sync.Prelude.{
  All, some, ◌≤◌, ℕ, zero, suc, ◌*◌, replicate, ◌+◌, ◌^◌, ◌<◌, ◌≡◌, refl, sym, ap, ◌∙◌, ◌⊎◌, none,
  List, [], ◌∷◌, ◌++◌, map, arith, length, inl, inr,
}
use mathlib.Core.Path.{subst}
use Prim.Native.Nat.{max}
use sketch_sync.DrawOperation.{DrawOperation}
use sketch_sync.Canvas.{
  last_seq, Picture, Canvas, blank, contains, create, snapshot, find_seq, rasterize, rasterize_all,
  apply, load,
}
use sketch_sync.Canvas.Log.{
  IsConsistent, IsConsistent-positive, HasRoom, IsFresh, assigned, appended, apply_fresh,
  apply_known, apply_cases, contains-insert, load-IsConsistent, apply-IsConsistent, has_id,
}

-- Two canvases that show the same, hold the same log and number alike. The id set is compared as a set.
pub record Agree (c d : Canvas) : Type 0 where
  pub picture : c.picture ≡ d.picture
  pub next_seq : c.next_seq ≡ d.next_seq
  pub operations : c.operations ≡ d.operations
  pub ids : (x : ℕ) → contains x c.operation_ids ≡ contains x d.operation_ids

fill_eq :
    {A : Type 0} (b : ℕ) (xs ys : List A)
    → length xs ≡ length ys
    → map (λ _. b) xs ≡ map (λ _. b) ys
fill_eq b [] [] e = refl
fill_eq b [] (y ∷ ys) e = absurd (omega arith)
fill_eq b (x ∷ xs) [] e = absurd (omega arith)
fill_eq b (x ∷ xs) (y ∷ ys) e = ap (◌∷◌ b) (fill_eq b xs ys (omega arith))

length-fill : {A : Type 0} (b : ℕ) (xs : List A) → length (map (λ _. b) xs) ≡ length xs
length-fill b [] = refl
length-fill b (x ∷ xs) = omega (arith, length-fill b xs)

fill-replicate : (b n : ℕ) → map (λ _. b) (replicate n b) ≡ replicate n b
fill-replicate b zero = refl
fill-replicate b (suc n) = ap (◌∷◌ b) (fill-replicate b n)

-- Two pictures of one size and background.
pub record SameSize (p q : Picture) : Type 0 where
  pub width : p.width ≡ q.width
  pub height : p.height ≡ q.height
  pub background : p.background ≡ q.background
  pub pixels : length p.pixels ≡ length q.pixels

blank-eq : (p q : Picture) → SameSize p q → blank p ≡ blank q
blank-eq p q s = λ i. record {
  width = s.width i;
  height = s.height i;
  background = s.background i;
  pixels = pixels i;
}
  where
    pixels : map (λ _. p.background) p.pixels ≡ map (λ _. q.background) q.pixels
    pixels =
        ap (λ b. map {B = ℕ} (λ _. b) p.pixels) s.background
        ∙ fill_eq q.background p.pixels q.pixels s.pixels

module _ (paint : Picture → DrawOperation → List ℕ)
    (keeps_size : (p : Picture) (op : DrawOperation) → length (paint p op) ≡ length p.pixels) where
  -- The picture is what the log paints on an empty one.
  pub IsReplay : Canvas → Type 0
  IsReplay c = c.picture ≡ rasterize_all paint (blank c.picture) c.operations

  pub rasterize-SameSize : (p : Picture) (op : DrawOperation) → SameSize (rasterize paint p op) p
  unfolding rasterize
  rasterize-SameSize p op = ground (arith, keeps_size p op, length-fill p.background p.pixels)

  rasterize_all-append :
      (p : Picture) (ops : List DrawOperation) (op : DrawOperation)
      → rasterize_all paint p (ops ++ op ∷ []) ≡ rasterize paint (rasterize_all paint p ops) op
  unfolding rasterize_all
  rasterize_all-append p [] op = refl
  rasterize_all-append p (x ∷ ops) op = rasterize_all-append (rasterize paint p x) ops op

  blank-rasterize_all :
      (p : Picture) (ops : List DrawOperation) → blank (rasterize_all paint p ops) ≡ blank p
  unfolding rasterize_all
  blank-rasterize_all p [] = refl
  blank-rasterize_all p (op ∷ ops) =
      blank-rasterize_all (rasterize paint p op) ops ∙ blank-eq _ p (rasterize-SameSize p op)

  blank_twice : (p : Picture) → blank (blank p) ≡ blank p
  blank_twice p = blank-eq (blank p) p (record {
    width = refl;
    height = refl;
    background = refl;
    pixels = length-fill p.background p.pixels;
  })

  pub create-IsReplay : (width height background : ℕ) → IsReplay (create width height background)
  unfolding create IsReplay rasterize_all
  create-IsReplay width height background = λ i. record {
    width = width;
    height = height;
    background = background;
    pixels = sym (fill-replicate background (width * height)) i;
  }

  appended-IsReplay :
      (c : Canvas) (op : DrawOperation) → IsReplay c → IsReplay (appended paint c op)
  unfolding appended IsReplay
  appended-IsReplay c op v =
      rw
        (
          rasterize_all-append (blank (rasterize paint c.picture op)) c.operations op,
          blank-eq _ c.picture (rasterize-SameSize c.picture op),
        )
        (ap (λ p. rasterize paint p op) v)

  -- On a consistent canvas with room for the operation, whose picture is what its log paints on an
  -- empty one, `apply` leaves such a canvas again. The tools keep the number of pixels.
  pub apply-IsReplay :
      (c : Canvas) (op : DrawOperation)
      → IsConsistent c
      → HasRoom c op
      → IsReplay c
      → IsReplay (apply paint c op).0
  apply-IsReplay c op v r h = elim (apply_cases paint c op) [
    | inl f ↦
        rw (apply_fresh paint c op v f r)
          (appended-IsReplay c (record op { seq = assigned c op }) h)
    | inr (seq, k, e) ↦ rw (apply_known paint c op seq k e) h
  ]

  pub load-IsReplay : (c : Canvas) (ops : List DrawOperation) → IsReplay (load paint c ops)
  unfolding load IsReplay
  load-IsReplay c ops = rw (blank-rasterize_all (blank c.picture) ops ∙ blank_twice c.picture)

  -- A canvas that loads the snapshot of a consistent one of the same size and background, whose picture
  -- is what its log paints, agrees with it: picture, log, id set and counter. The tools keep the number
  -- of pixels.
  pub load-snapshot :
      (host other : Canvas)
      → IsConsistent host
      → IsReplay host
      → SameSize other.picture host.picture
      → Agree (load paint other (snapshot host)) host
  unfolding load snapshot IsReplay
  load-snapshot host other v h s = record {
    picture = ap (λ p. rasterize_all paint p host.operations) (blank-eq _ _ s) ∙ sym h;
    next_seq = sym v.next;
    operations = refl;
    ids =
        λ x. unfold load in ((load-IsConsistent paint other host.operations).ids x ∙ sym (v.ids x));
  }

  appended-Agree :
      (c d : Canvas) (op : DrawOperation)
      → Agree c d
      → Agree (appended paint c op) (appended paint d op)
  unfolding appended
  appended-Agree c d op a = record {
    picture = ap (λ p. rasterize paint p op) a.picture;
    next_seq = ap (λ n. max n (op.seq + 1)) a.next_seq;
    operations = ap (λ ops. ops ++ op ∷ []) a.operations;
    ids = λ x. ground (
      arith,
      a.ids x,
      contains-insert x op.operation_id c.operation_ids,
      contains-insert x op.operation_id d.operation_ids,
    );
  }

  -- What a member makes of an operation that carries the host's number `n`.
  apply_stamped :
      (host member : Canvas) (op : DrawOperation) (n : ℕ)
      → Agree host member
      → IsConsistent member
      → IsFresh host op
      → HasRoom host op
      → 0 < n
      → n + 1 < 2 ^ 32
      → apply paint member (record op { seq = n })
        ≡ (appended paint member (record op { seq = n }), n)
  apply_stamped host member op n a w f r pos room =
      let op' = record op { seq = n } in
      let stays : assigned member op' ≡ n = ground arith in
      apply_fresh paint member op' w
        (subst (λ ops. (op.operation_id ≡ 0) ⊎ (find_seq op.operation_id ops ≡ none)) a.operations
          f)
        (record { counter = subst (λ k. k + 1 < 2 ^ 32) a.next_seq r.counter; number = room })
      ∙ ap (λ k. (appended paint member (record op { seq = k }), k)) stays

  pub Agree-IsConsistent : (c d : Canvas) → Agree c d → IsConsistent c → IsConsistent d
  Agree-IsConsistent c d a v = record {
    ids = λ x. sym (a.ids x) ∙ v.ids x ∙ ap (has_id x) a.operations;
    next = sym a.next_seq ∙ v.next ∙ ap (last_seq 1) a.operations;
  }

  -- A host and a member that agree, the host consistent, still agree once the host has applied an
  -- operation that has room, known to it or not, and the member has applied it with the number that the
  -- host returned; the member returns the same number. The tools keep the number of pixels.
  pub apply-Agree :
      (host member : Canvas) (op : DrawOperation)
      → Agree host member
      → IsConsistent host
      → HasRoom host op
      → let stamped = record op { seq = (apply paint host op).1 } in
        Agree (apply paint host op).0 (apply paint member stamped).0
        × ((apply paint member stamped).1 ≡ (apply paint host op).1)
  apply-Agree host member op a v r = elim (apply_cases paint host op) [
    | inl f ↦
        let n = assigned host op in
        let w = Agree-IsConsistent host member a v in
        rw (apply_fresh paint host op v f r) (
          rw
            (apply_stamped host member op n a w f r (ground (arith, IsConsistent-positive host v))
              (ground arith))
            (appended-Agree host member (record op { seq = n }) a, refl))
    | inr (seq, h, e) ↦
        let found = subst (λ ops. find_seq op.operation_id ops ≡ some seq) a.operations e in
        rw (apply_known paint host op seq h e)
          (rw (apply_known paint member (record op { seq = seq }) seq h found) (a, refl))
  ]

  -- The host applies each operation, and the member the operation with the number that it got.
  unfoldable pub follow : Canvas → Canvas → List DrawOperation → Canvas × Canvas
  follow host member [] = (host, member)
  follow host member (op ∷ ops) =
      let (host', seq) = apply paint host op in
      follow host' (apply paint member (record op { seq = seq })).0 ops

  pub apply-next_seq :
      (c : Canvas) (op : DrawOperation)
      → IsConsistent c
      → HasRoom c op
      → op.seq ≡ 0
      → (apply paint c op).0.next_seq ≤ c.next_seq + 1
  unfolding appended
  apply-next_seq c op v r z = elim (apply_cases paint c op) [
    | inl f ↦ rw (apply_fresh paint c op v f r) (ground (arith, z))
    | inr (seq, h, e) ↦ rw (apply_known paint c op seq h e) (omega arith)
  ]

  -- A host and a member that agree, the host consistent, agree again after any list of operations that
  -- come without a number, repeated or not: the host applies each, and the member applies it with the
  -- number that the host gave it. The counter has room for the list, and the tools keep the number of
  -- pixels.
  pub follow-Agree :
      (host member : Canvas) (ops : List DrawOperation)
      → Agree host member
      → IsConsistent host
      → All (λ op. op.seq ≡ 0) ops
      → host.next_seq + length ops < 2 ^ 32
      → Agree (follow host member ops).0 (follow host member ops).1
  unfolding follow
  follow-Agree host member [] a v z h = a
  follow-Agree host member (op ∷ ops) a v z h =
      let r : HasRoom host op = record { counter = omega arith; number = omega (arith, z.0) } in
      follow-Agree (apply paint host op).0
        (apply paint member (record op { seq = (apply paint host op).1 })).0 ops
        (apply-Agree host member op a v r).0 (apply-IsConsistent paint host op v r) z.1
        (omega (arith, apply-next_seq host op v r z.0))
