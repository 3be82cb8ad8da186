-- ===== src/Canvas/Fill/Pixels.antt =====
-- Pixels that change, and the queue of canvas::rasterize's bucket.
use sketch_sync.Prelude.{
  ℕ, zero, suc, ◌+◌, ◌*◌, ◌<◌, ◌≤◌, ◌≡◌, ◌≢◌, refl, sym, ap, ◌∙◌, ◌⊎◌, inl, inr, false, ◌&&◌, some,
  List, [], ◌∷◌, ◌++◌, ltb, ◌==◌, if◌then◌else◌, length, get_elem?, set, arith,
}

-- How many pixels have the colour.
pub count : ℕ → List ℕ → ℕ
count color [] = 0
count color (p ∷ ps) = (if p == color then 1 else 0) + count color ps

pub count_le : (color : ℕ) (ps : List ℕ) → count color ps ≤ length ps
unfolding count
count_le color [] = omega arith
count_le color (p ∷ ps) = ground (arith, count_le color ps)

pub count-set :
    (target color : ℕ) (ps : List ℕ) (i : ℕ)
    → target ≢ color
    → get_elem? ps i ≡ some target
    → count target (set ps i color) + 1 ≡ count target ps
unfolding count
count-set target color [] i h e = cc e
count-set target color (p ∷ ps) zero h e = let same : p ≡ target = cc e in ground (arith, same, h)
count-set target color (p ∷ ps) (suc i) h e = ground (arith, count-set target color ps i h e)

-- At one place: no change, or from the one colour to the other.
abbrev pub Repainted : ℕ → ℕ → List ℕ → List ℕ → ℕ → Type 0
Repainted target color ps qs i =
    (get_elem? qs i ≡ get_elem? ps i)
    ⊎ ((get_elem? ps i ≡ some target) × (get_elem? qs i ≡ some color))

pub set-Repainted :
    (target color : ℕ) (ps : List ℕ) (i j : ℕ)
    → get_elem? ps i ≡ some target
    → Repainted target color ps (set ps i color) j
set-Repainted target color [] i j e = inl refl
set-Repainted target color (p ∷ ps) zero zero e = inr (e, refl)
set-Repainted target color (p ∷ ps) zero (suc j) e = inl refl
set-Repainted target color (p ∷ ps) (suc i) zero e = inl refl
set-Repainted target color (p ∷ ps) (suc i) (suc j) e = set-Repainted target color ps i j e

pub some_inj : {x y : ℕ} → some x ≡ some y → x ≡ y
some_inj e = cc e

pub set_here :
    (color : ℕ) (ps : List ℕ) (i : ℕ) (x : ℕ)
    → get_elem? ps i ≡ some x
    → get_elem? (set ps i color) i ≡ some color
set_here color [] i x e = cc e
set_here color (p ∷ ps) zero x e = refl
set_here color (p ∷ ps) (suc i) x e = set_here color ps i x e

-- The point is in the queue.
unfoldable pub In : ℕ × ℕ → List (ℕ × ℕ) → Type 0
In q [] = ⊥
In q (p ∷ ps) = (q ≡ p) ⊎ In q ps

pub In-append : (q : ℕ × ℕ) (ps more : List (ℕ × ℕ)) → In q ps → In q (ps ++ more)
unfolding In
In-append q [] more h = absurd h
In-append q (p ∷ ps) more (inl e) = inl e
In-append q (p ∷ ps) more (inr h) = inr (In-append q ps more h)

pub In-last : (q : ℕ × ℕ) (ps : List (ℕ × ℕ)) → In q (ps ++ q ∷ [])
unfolding In
In-last q [] = inl refl
In-last q (p ∷ ps) = inr (In-last q ps)

pub set-there :
    (target color : ℕ) (ps : List ℕ) (i j : ℕ)
    → target ≢ color
    → get_elem? ps j ≡ some target
    → get_elem? (set ps i color) j ≡ some color
    → i ≡ j
set-there target color [] i j h e f = cc e
set-there target color (p ∷ ps) zero zero h e f = refl
set-there target color (p ∷ ps) zero (suc j) h e f = absurd (h (some_inj (sym e ∙ f)))
set-there target color (p ∷ ps) (suc i) zero h e f = absurd (h (some_inj (sym e ∙ f)))
set-there target color (p ∷ ps) (suc i) (suc j) h e f = ap suc (set-there target color ps i j h e f)

pub not_inside :
    (x y width height : ℕ) → (ltb x width && ltb y height) ≡ false → x < width → y < height → ⊥
not_inside x y width height e h k = ground arith

pub index_lt : (width height x y : ℕ) → x < width → y < height → y * width + x < height * width
index_lt width height x y h k = grind arith

pub In-one : (q p : ℕ × ℕ) (ps : List (ℕ × ℕ)) → In q (ps ++ p ∷ []) → In q ps ⊎ (q ≡ p)
unfolding In
In-one q p [] (inl e) = inr e
In-one q p [] (inr h) = absurd h
In-one q p (r ∷ ps) (inl e) = inl (inl e)
In-one q p (r ∷ ps) (inr h) = elim (In-one q p ps h) [ inl k ↦ inl (inr k) | inr e ↦ inr e ]

-- The one point is a neighbour of the other.
abbrev pub Beside : ℕ → ℕ → ℕ → ℕ → Type 0
Beside x y x' y' =
    ((y' ≡ y) × ((x' ≡ x + 1) ⊎ (x' + 1 ≡ x))) ⊎ ((x' ≡ x) × ((y' ≡ y + 1) ⊎ (y' + 1 ≡ y)))

-- A path from the point (a, b) through neighbours inside the picture that have the colour.
pub data Joined (width height target : ℕ) (pixels : List ℕ) (a b : ℕ) : ℕ → ℕ → Type 0 where
  here : Joined width height target pixels a b a b
  next :
      (x y x' y' : ℕ)
      → Joined width height target pixels a b x y
      → Beside x y x' y'
      → x' < width
      → y' < height
      → get_elem? pixels (y' * width + x') ≡ some target
      → Joined width height target pixels a b x' y'
