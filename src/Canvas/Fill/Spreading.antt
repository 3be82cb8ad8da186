-- ===== src/Canvas/Fill/Spreading.antt =====
-- What a round of the bucket's loop does to the pixels and the queue.
use sketch_sync.Prelude.{
  ℕ, zero, suc, ◌+◌, ◌*◌, ◌<◌, ◌≡◌, ◌≢◌, refl, sym, ap, ◌∙◌, ◌⊎◌, inl, inr, ◌&&◌, Option, some,
  List, [], ◌∷◌, ltb, ◌==◌, length, length-append, length-set, get_elem?, get_elem?-lt, arith,
  Bool-cases, ==_iff,
}
use mathlib.Core.Option
use mathlib.Core.Path.{subst}
use sketch_sync.Canvas.Fill.{Fill, fill, try_fill, try_before, spread}
use sketch_sync.Canvas.Fill.Pixels.{
  count, count-set, Repainted, set-Repainted, some_inj, set_here, In, In-append, In-one, Beside,
  In-last, set-there, not_inside, index_lt,
}

module _ (width height target color : ℕ) (other : target ≢ color) where
  pub Repainted-trans :
      (ps qs rs : List ℕ) (i : ℕ)
      → Repainted target color ps qs i
      → Repainted target color qs rs i
      → Repainted target color ps rs i
  Repainted-trans ps qs rs i (inl e) (inl f) = inl (f ∙ e)
  Repainted-trans ps qs rs i (inl e) (inr (f, g)) = inr (sym e ∙ f, g)
  Repainted-trans ps qs rs i (inr (e, f)) (inl g) = inr (e, g ∙ f)
  Repainted-trans ps qs rs i (inr (e, f)) (inr (g, k)) = inr (e, k)

  -- Inside the picture, the point does not have the colour any more.
  abbrev pub Clear : List ℕ → ℕ → ℕ → Type 0
  Clear pixels x y = x < width → y < height → get_elem? pixels (y * width + x) ≢ some target

  -- The four neighbours of the point are clear.
  pub record Surrounded (pixels : List ℕ) (x y : ℕ) : Type 0 where
    pub right : Clear pixels (x + 1) y
    pub left : (n : ℕ) → n + 1 ≡ x → Clear pixels n y
    pub below : Clear pixels x (y + 1)
    pub above : (n : ℕ) → n + 1 ≡ y → Clear pixels x n

  Clear-Repainted :
      (ps qs : List ℕ) (x y : ℕ)
      → ((i : ℕ) → Repainted target color ps qs i)
      → Clear ps x y
      → Clear qs x y
  Clear-Repainted ps qs x y r c across down e = elim (r (y * width + x)) [
    | inl same ↦ c across down (sym same ∙ e)
    | inr (was, now) ↦ c across down was
  ]

  pub Surrounded-Repainted :
      (ps qs : List ℕ) (x y : ℕ)
      → ((i : ℕ) → Repainted target color ps qs i)
      → Surrounded ps x y
      → Surrounded qs x y
  Surrounded-Repainted ps qs x y r v = record {
    right = Clear-Repainted ps qs (x + 1) y r v.right;
    left = λ n e. Clear-Repainted ps qs n y r (v.left n e);
    below = Clear-Repainted ps qs x (y + 1) r v.below;
    above = λ n e. Clear-Repainted ps qs x n r (v.above n e);
  }

  -- A point inside the picture at the place `i`.
  pub record At (i : ℕ) : Type 0 where
    pub x : ℕ
    pub y : ℕ
    pub across : x < width
    pub down : y < height
    pub place : y * width + x ≡ i

  abbrev pub Waits : List (ℕ × ℕ) → ℕ → Type 0
  Waits queue i = (q : At i) × In (q.x, q.y) queue

  abbrev pub Painted : List ℕ → List ℕ → ℕ → Type 0
  Painted ps qs i = (get_elem? ps i ≡ some target) × (get_elem? qs i ≡ some color)

  -- A point that the loop may turn to, by the pixels before.
  abbrev pub Enters : (ℕ → ℕ → Type 0) → List ℕ → ℕ × ℕ → Type 0
  Enters P pixels (x, y) =
      P x y × (x < width) × (y < height) × (get_elem? pixels (y * width + x) ≡ some target)

  pub before :
      (ps qs : List ℕ) (i : ℕ)
      → Repainted target color ps qs i
      → get_elem? qs i ≡ some target
      → get_elem? ps i ≡ some target
  before ps qs i (inl same) e = sym same ∙ e
  before ps qs i (inr (was, now)) e = was

  -- What a round leaves, of the pixels of the one colour and the queue together.
  pub record Spreads (P : ℕ → ℕ → Type 0) (s t : Fill) : Type 0 where
    pub size : length t.pixels ≡ length s.pixels
    pub left : count target t.pixels + length t.queue ≡ count target s.pixels + length s.queue
    pub repainted : (i : ℕ) → Repainted target color s.pixels t.pixels i
    pub waits : (q : ℕ × ℕ) → In q s.queue → In q t.queue
    pub fresh : (i : ℕ) → Painted s.pixels t.pixels i → Waits t.queue i
    pub entered : (q : ℕ × ℕ) → In q t.queue → In q s.queue ⊎ Enters P s.pixels q

  Spreads-refl : (P : ℕ → ℕ → Type 0) (s : Fill) → Spreads P s s
  Spreads-refl P s = record {
    size = refl;
    left = refl;
    repainted = λ i. inl refl;
    waits = λ q h. h;
    fresh = λ i (was, now). absurd (other (some_inj (sym was ∙ now)));
    entered = λ q h. inl h;
  }

  Spreads-trans :
      (P : ℕ → ℕ → Type 0) (s t u : Fill) → Spreads P s t → Spreads P t u → Spreads P s u
  Spreads-trans P s t u v w = record {
    size = w.size ∙ v.size;
    left = w.left ∙ v.left;
    repainted = λ i. Repainted-trans s.pixels t.pixels u.pixels i (v.repainted i) (w.repainted i);
    waits = λ q h. w.waits q (v.waits q h);
    fresh = λ i (was, now). elim (v.repainted i) [
      | inl same ↦ w.fresh i (same ∙ was, now)
      | inr painted ↦ (let (q, h) = v.fresh i painted in (q, w.waits (q.x, q.y) h))
    ];
    entered = λ q h. elim (w.entered q h) [
      | inl old ↦ v.entered q old
      | inr (near, across, down, was) ↦
          (let i = q.1 * width + q.0 in
            inr (near, across, down, before s.pixels t.pixels i (v.repainted i) was))
    ];
  }

  -- A step that returns, behind which the point is clear.
  abbrev Clears : (ℕ → ℕ → Type 0) → ℕ → ℕ → (Fill → Option Fill) → Type 0
  Clears P x y f =
      (s : Fill)
      → length s.pixels ≡ height * width
      → (t : Fill) × (f s ≡ some t) × Spreads P s t × Clear t.pixels x y

  fill-Spreads :
      (P : ℕ → ℕ → Type 0) (x y pixel : ℕ) (s : Fill)
      → P x y
      → x < width
      → y < height
      → get_elem? s.pixels (y * width + x) ≡ some pixel
      → let t = fill width height target color (x, y) s pixel in Spreads P s t × Clear t.pixels x y
  unfolding fill
  fill-Spreads P x y pixel s near across down e = elim (Bool-cases (pixel == target)) [
    | inl same ↦
        let i = y * width + x in
        let is_target : pixel ≡ target = (==_iff pixel target).0 same in
        let found : get_elem? s.pixels i ≡ some target = e ∙ ap some is_target in
        let less = count-set target color s.pixels i other found in
        let longer = length-append s.queue ((x, y) ∷ []) in
        rw same (
          record {
            size = length-set s.pixels i color;
            left = omega (arith, less, longer);
            repainted = λ j. set-Repainted target color s.pixels i j found;
            waits = λ q h. In-append q s.queue ((x, y) ∷ []) h;
            fresh = λ j (was, now). (
              record {
                x = x;
                y = y;
                across = across;
                down = down;
                place = set-there target color s.pixels i j other was now;
              },
              In-last (x, y) s.queue,
            );
            entered = λ q h. elim (In-one q (x, y) s.queue h) [
              | inl old ↦ inl old
              | inr new ↦ inr (subst (Enters P s.pixels) (sym new) (near, across, down, found))
            ];
          },
          λ _ _ h. other (some_inj (sym h ∙ set_here color s.pixels i target found)),
        )
    | inr differs ↦
        rw differs
          (Spreads-refl P s, λ _ _ h. cc ((==_iff pixel target).1 (some_inj (sym e ∙ h)), differs))
  ]

  try_fill-Clears :
      (P : ℕ → ℕ → Type 0) (x y : ℕ)
      → P x y
      → Clears P x y (try_fill width height target color (x, y))
  unfolding try_fill
  try_fill-Clears P x y near s sized = elim (Bool-cases (ltb x width && ltb y height)) [
    | inl inside ↦
        let (across, down) : (x < width) × (y < height) = ground (arith, inside) in
        let bound : y * width + x < length s.pixels =
          omega (arith, sized, index_lt width height x y across down) in
        let (pixel, e) = get_elem?-lt s.pixels (y * width + x) bound in
        let (spreads, clear) = fill-Spreads P x y pixel s near across down e in
        rw (inside, e) (fill width height target color (x, y) s pixel, refl, spreads, clear)
    | inr outside ↦ rw outside (
      s,
      refl,
      Spreads-refl P s,
      λ across down. absurd (not_inside x y width height outside across down),
    )
  ]

  -- try_before, for the neighbour on the left and the one above.
  try_before-Clears :
      (P : ℕ → ℕ → Type 0) (n : ℕ) (at : ℕ → ℕ × ℕ)
      → ((m : ℕ) → m + 1 ≡ n → P (at m).0 (at m).1)
      → (s : Fill) → length s.pixels ≡ height * width
      → (t : Fill) × (try_before width height target color n at s ≡ some t)
        × Spreads P s t
        × ((m : ℕ) → m + 1 ≡ n → Clear t.pixels (at m).0 (at m).1)
  unfolding try_before
  try_before-Clears P zero at near s sized =
      (s, refl, Spreads-refl P s, λ m e. absurd (omega arith))
  try_before-Clears P (suc n) at near s sized =
      let (t, e, v, c) = try_fill-Clears P (at n).0 (at n).1 (near n (omega arith)) s sized in
      (t, e, v, λ m f. subst (λ k. Clear t.pixels (at k).0 (at k).1) (omega arith) c)

  pub spread-Clears :
      (x y : ℕ) (s : Fill)
      → length s.pixels ≡ height * width
      → (t : Fill) × (spread width height target color (x, y) s ≡ some t)
        × Spreads (Beside x y) s t
        × Surrounded t.pixels x y
  unfolding spread Option.bind
  spread-Clears x y s sized =
      let (s1, e1, v1, c1) =
        try_fill-Clears (Beside x y) (x + 1) y (inl (refl, inl refl)) s sized in
      let size1 = v1.size ∙ sized in
      let (s2, e2, v2, c2) =
        try_before-Clears (Beside x y) x (λ x'. (x', y)) (λ m e. inl (refl, inr e)) s1 size1 in
      let size2 = v2.size ∙ size1 in
      let (s3, e3, v3, c3) =
        try_fill-Clears (Beside x y) x (y + 1) (inr (refl, inl refl)) s2 size2 in
      let (s4, e4, v4, c4) =
        try_before-Clears (Beside x y) y (λ y'. (x, y')) (λ m e. inr (refl, inr e)) s3
          (v3.size ∙ size2) in
      let v34 = Spreads-trans (Beside x y) s2 s3 s4 v3 v4 in
      let v24 = Spreads-trans (Beside x y) s1 s2 s4 v2 v34 in
      rw (e1, e2, e3)
        (
          s4,
          e4,
          Spreads-trans (Beside x y) s s1 s4 v1 v24,
          record {
            right = Clear-Repainted s1.pixels s4.pixels (x + 1) y v24.repainted c1;
            left = λ n e. Clear-Repainted s2.pixels s4.pixels n y v34.repainted (c2 n e);
            below = Clear-Repainted s3.pixels s4.pixels x (y + 1) v4.repainted c3;
            above = c4;
          },
        )
