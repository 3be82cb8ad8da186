-- ===== src/Canvas/Fill/Flooding.antt =====
-- The bucket ends, stays inside the picture, and leaves no neighbour of a changed pixel in the old colour.
use sketch_sync.Prelude.{
  ℕ, zero, suc, ◌+◌, ◌*◌, ◌<◌, ◌≤◌, ◌≡◌, ◌≢◌, refl, sym, ap, ◌∙◌, ◌⊎◌, inl, inr, ◌||◌, some, List,
  [], ◌∷◌, leb, ◌==◌, length, length-set, get_elem?, get_elem?-lt, set, arith, Bool-cases, ==_iff,
}
use mathlib.Core.Option
use mathlib.Core.Path.{subst}
use sketch_sync.DrawOperation.{CanvasPoint, DrawOperation}
use sketch_sync.Canvas.{Picture}
use sketch_sync.Canvas.Fill.{Fill, flood, fill_from, fill_at, point, bucket_fill}
use sketch_sync.Canvas.Fill.Pixels.{
  count, count_le, count-set, Repainted, set-Repainted, set_here, In, Beside, Joined, set-there,
  index_lt,
}
use sketch_sync.Canvas.Fill.Spreading.{
  Repainted-trans, before, Spreads, Surrounded, Surrounded-Repainted, spread-Clears, At, Waits,
  Painted,
}

module _ (width height target color : ℕ) (other : target ≢ color) where
  -- The place is of a point inside the picture whose neighbours are clear.
  abbrev pub Enclosed : List ℕ → ℕ → Type 0
  Enclosed pixels i =
      (q : (At width height target color other) i) × (Surrounded width height target color other)
        pixels q.x q.y

  -- What has been painted waits in the queue, or is enclosed.
  abbrev Settled : List ℕ → List ℕ → List (ℕ × ℕ) → Type 0
  Settled start pixels queue =
      (i : ℕ)
      → (Painted width height target color other) start pixels i
      → (Waits width height target color other) queue i ⊎ Enclosed pixels i

  settle :
      (start : List ℕ) (x y : ℕ) (s t : Fill)
      → Settled start s.pixels ((x, y) ∷ s.queue)
      → (Spreads width height target color other) (Beside x y) s t
      → (Surrounded width height target color other) t.pixels x y
      → Settled start t.pixels t.queue
  unfolding In
  settle start x y s t settled v around i (was, now) = elim (v.repainted i) [
    | inr painted ↦ inl (v.fresh i painted)
    | inl same ↦ elim (settled i (was, sym same ∙ now)) [
      | inl (q, inl here) ↦ inr (
        q,
        subst (λ p. (Surrounded width height target color other) t.pixels p.0 p.1) (sym here)
            around,
      )
      | inl (q, inr queued) ↦ inl (q, v.waits (q.x, q.y) queued)
      | inr (q, w) ↦ inr (
        q,
        (Surrounded-Repainted width height target color other) s.pixels t.pixels q.x q.y v.repainted
            w,
      )
    ]
  ]

  -- The place is of a point of the picture to which a path leads.
  abbrev pub Linked : List ℕ → ℕ → ℕ → ℕ → Type 0
  Linked start a b i =
      (q : (At width height target color other) i) × Joined width height target start a b q.x q.y

  -- What the loop knows of the pixels and the queue.
  record Floods (start : List ℕ) (a b : ℕ) (pixels : List ℕ) (queue : List (ℕ × ℕ)) : Type 0 where
    settled : Settled start pixels queue
    changed : (i : ℕ) → Repainted target color start pixels i
    paths : (q : ℕ × ℕ) → In q queue → Joined width height target start a b q.0 q.1
    linked : (i : ℕ) → (Painted width height target color other) start pixels i → Linked start a b i

  spread-Floods :
      (start : List ℕ) (a b x y : ℕ) (s t : Fill)
      → Floods start a b s.pixels ((x, y) ∷ s.queue)
      → (Spreads width height target color other) (Beside x y) s t
      → (Surrounded width height target color other) t.pixels x y
      → Floods start a b t.pixels t.queue
  unfolding In
  spread-Floods start a b x y s t f v around =
      let paths : (q : ℕ × ℕ) → In q t.queue → Joined width height target start a b q.0 q.1 = λ q h.
        elim (v.entered q h) [
          | inl old ↦ f.paths q (inr old)
          | inr (near, across, down, was) ↦
              (let i = q.1 * width + q.0 in
                Joined.next x y q.0 q.1 (f.paths (x, y) (inl refl)) near across down
                  ((before width height target color other) start s.pixels i (f.changed i) was))
        ] in
      record {
        settled = settle start x y s t f.settled v around;
        changed = λ i.
            (Repainted-trans width height target color other) start s.pixels t.pixels i
              (f.changed i) (v.repainted i);
        paths = paths;
        linked = λ i (was, now). elim (v.repainted i) [
          | inl same ↦ f.linked i (was, sym same ∙ now)
          | inr painted ↦ (let (q, h) = v.fresh i painted in (q, paths (q.x, q.y) h))
        ];
      }

  -- What the loop comes to from `start`, where the bucket began.
  pub record Flooded (start : List ℕ) (a b : ℕ) (pixels pixels' : List ℕ) : Type 0 where
    pub size : length pixels' ≡ length pixels
    pub repainted : (i : ℕ) → Repainted target color pixels pixels' i
    pub enclosed :
        (i : ℕ) → (Painted width height target color other) start pixels' i → Enclosed pixels' i
    pub linked :
        (i : ℕ) → (Painted width height target color other) start pixels' i → Linked start a b i

  flood-Flooded :
      (n : ℕ) (start : List ℕ) (a b : ℕ) (pixels : List ℕ) (queue : List (ℕ × ℕ))
      → length pixels ≡ height * width
      → count target pixels + length queue < n
      → Floods start a b pixels queue
      → (pixels' : List ℕ) × (flood width height target color n pixels queue ≡ some pixels')
        × Flooded start a b pixels pixels'
  unfolding flood Option.bind In
  flood-Flooded zero start a b pixels queue sized h floods = absurd (omega arith)
  flood-Flooded (suc n) start a b pixels [] sized h floods = (
    pixels,
    refl,
    record {
      size = refl;
      repainted = λ i. inl refl;
      enclosed = λ i painted. elim (floods.settled i painted) [ inl (q, h) ↦ absurd h | inr w ↦ w ];
      linked = floods.linked;
    },
  )
  flood-Flooded (suc n) start a b pixels ((x, y) ∷ queue) sized h floods =
      let s : Fill = record { pixels = pixels; queue = queue } in
      let (t, e, v, around) = (spread-Clears width height target color other) x y s sized in
      let (pixels', e', f) =
        flood-Flooded n start a b t.pixels t.queue (v.size ∙ sized) (omega (arith, v.left))
          (spread-Floods start a b x y s t floods v around) in
      rw e (
        pixels',
        e',
        record {
          size = f.size ∙ v.size;
          repainted = λ i.
              (Repainted-trans width height target color other) pixels t.pixels pixels' i
                (v.repainted i) (f.repainted i);
          enclosed = f.enclosed;
          linked = f.linked;
        },
      )

  -- The whole loop, from the pixel where the bucket begins.
  started-Flooded :
      (ps : List ℕ) (x y : ℕ)
      → length ps ≡ height * width
      → x < width
      → y < height
      → get_elem? ps (y * width + x) ≡ some target
      → (qs : List ℕ) × (flood width height target color
            (length ps + 1)
            (set ps (y * width + x) color)
            ((x, y) ∷ [])
          ≡ some qs)
        × Flooded ps x y ps qs
        × (get_elem? qs (y * width + x) ≡ some color)
  unfolding In
  started-Flooded ps x y sized across down e =
      let i = y * width + x in
      let pixels = set ps i color in
      let less = count-set target color ps i other e in
      let begun : get_elem? pixels i ≡ some color = set_here color ps i target e in
      let here : (j : ℕ)
          → (Painted width height target color other) ps pixels j
          → (At width height target color other) j =
        λ j (was, now). record {
          x = x;
          y = y;
          across = across;
          down = down;
          place = set-there target color ps i j other was now;
        } in
      let (qs, e', f) =
        flood-Flooded (length ps + 1) ps x y pixels ((x, y) ∷ []) (length-set ps i color ∙ sized)
          (omega (arith, less, count_le target ps))
          (record {
            settled = λ j (was, now). inl (here j (was, now), inl refl);
            changed = λ j. set-Repainted target color ps i j e;
            paths = λ q h. elim h [
              | inl same ↦
                  subst (λ p. Joined width height target ps x y p.0 p.1) (sym same) Joined.here
              | inr nothing ↦ absurd nothing
            ];
            linked = λ j (was, now). (here j (was, now), Joined.here);
          }) in
      (
        qs,
        e',
        record {
          size = f.size ∙ length-set ps i color;
          repainted = λ j.
              (Repainted-trans width height target color other) ps pixels qs j
                (set-Repainted target color ps i j e) (f.repainted j);
          enclosed = f.enclosed;
          linked = f.linked;
        },
        elim (f.repainted i) [ inl same ↦ same ∙ begun | inr (was, now) ↦ now ],
      )

-- A picture that the bucket leaves alone, or what it does from the point (x, y) with the colour `target`: the
-- point gets the new colour, a place changes only from `target` to that colour, a place that has changed is
-- a point of the picture to which a path leads from (x, y) over neighbours of the colour `target`, and none of
-- whose four neighbours in the picture has the colour `target` still.
pub data IsFilled (p : Picture) (color x y : ℕ) : List ℕ → Type 0 where
  outside : (p.width ≤ x) ⊎ (p.height ≤ y) → IsFilled p color x y p.pixels
  same : get_elem? p.pixels (y * p.width + x) ≡ some color → IsFilled p color x y p.pixels
  filled :
      (target : ℕ) (other : target ≢ color) (pixels : List ℕ)
      → get_elem? p.pixels (y * p.width + x) ≡ some target
      → get_elem? pixels (y * p.width + x) ≡ some color
      → Flooded p.width p.height target color other p.pixels x y p.pixels pixels
      → IsFilled p color x y pixels

fill_from-IsFilled :
    (p : Picture) (color x y target : ℕ)
    → length p.pixels ≡ p.height * p.width
    → x < p.width
    → y < p.height
    → get_elem? p.pixels (y * p.width + x) ≡ some target
    → (pixels : List ℕ) × (fill_from p color (x, y) target ≡ some pixels)
      × IsFilled p color x y pixels
unfolding fill_from
fill_from-IsFilled p color x y target sized across down e = elim (Bool-cases (target == color)) [
  | inl equal ↦
      rw equal (p.pixels, refl, IsFilled.same (e ∙ ap some ((==_iff target color).0 equal)))
  | inr differs ↦
      let other : target ≢ color = λ h. cc ((==_iff target color).1 h, differs) in
      let (pixels, e', f, begun) =
        started-Flooded p.width p.height target color other p.pixels x y sized across down e in
      rw differs (pixels, e', IsFilled.filled target other pixels e begun f)
]

fill_at-IsFilled :
    (p : Picture) (color x y : ℕ)
    → length p.pixels ≡ p.height * p.width
    → (pixels : List ℕ) × (fill_at p color (x, y) ≡ some pixels) × IsFilled p color x y pixels
unfolding fill_at Option.bind
fill_at-IsFilled p color x y sized = elim (Bool-cases (leb p.width x || leb p.height y)) [
  | inl off ↦ rw off (p.pixels, refl, IsFilled.outside (ground (arith, off)))
  | inr inside ↦
      let (across, down) : (x < p.width) × (y < p.height) = ground (arith, inside) in
      let bound : y * p.width + x < length p.pixels =
        omega (arith, sized, index_lt p.width p.height x y across down) in
      let (target, e) = get_elem?-lt p.pixels (y * p.width + x) bound in
      rw (inside, e) (fill_from-IsFilled p color x y target sized across down e)
]

-- On a picture with as many pixels as its sides say, the bucket's loop ends within the rounds that it is given,
-- and no access is outside the pixels. The picture is filled from the operation's first point: a
-- point outside, or of the new colour already, leaves it alone. Otherwise that point gets the new colour, only
-- pixels of the point's old colour change, to the new one, which a path of pixels of the old colour joins to
-- it, and no neighbour of a changed pixel keeps the old colour.
pub bucket_fill-IsFilled :
    (p : Picture) (op : DrawOperation) (q : CanvasPoint) (points : List CanvasPoint)
    → length p.pixels ≡ p.height * p.width
    → op.points ≡ q ∷ points
    → (pixels : List ℕ) × (bucket_fill p op ≡ some pixels)
      × IsFilled p op.color (point p q).0 (point p q).1 pixels
unfolding bucket_fill
bucket_fill-IsFilled p op q points sized e =
    rw (e, bucket_fill) (fill_at-IsFilled p op.color (point p q).0 (point p q).1 sized)
