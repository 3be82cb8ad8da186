-- ===== src/Bytes/Read.antt =====
-- What the reads of bytes.h return: on the bytes of a word, and anywhere inside a buffer.
use sketch_sync.Prelude.{
  ℕ, ◌+◌, ◌*◌, ◌/◌, ◌^◌, ◌≤◌, ◌<◌, ◌≡◌, refl, ap, ◌∙◌, Option, some, [], ◌∷◌, ◌++◌, append-nil,
  append_assoc, arith, Bool, true, false, if◌then◌else◌, length, length-append, get_elem?,
  get_elem?-append, get_elem?-lt, take, drop, take-append_le, take-append, take_length, drop-append,
  drop-append_add, le→leb,
}
use mathlib.Core.Path.{subst}
use native.Mathlib.Nat.{add_assoc}
use sketch_sync.Bytes.{
  Bytes, Action, Cursor, cursor, u8, u32, IsByte, IsU16, IsU32, IsU64, peek, skip, tell, lift,
  read8, read16, read32, read64, string_at, ◌>>=◌, pure, parse,
}
use sketch_sync.Bytes.Emit.{be16, be32, be64}

-- Where `bs` stands at the offset, `m` returns `a` and moves the offset behind `bs`.
pub record Reads {ℓ} {A : Type ℓ} (m : Action A) (bs : Bytes) (a : A) : Type ℓ where
  pub at :
      (done rest : Bytes)
      → m (cursor (done ++ (bs ++ rest)) (length done))
        ≡ some (a, cursor (done ++ (bs ++ rest)) (length done + length bs))

-- `m` reads `n` bytes, and finds them wherever the buffer has so many left.
pub record Safe {ℓ} {A : Type ℓ} (m : Action A) (n : ℕ) : Type ℓ where
  pub at :
      (buf : Bytes) (off : ℕ)
      → off + n ≤ length buf
      → (a : A) × (m (cursor buf off) ≡ some (a, cursor buf (off + n)))

-- Where `bs` stands at the offset, `m` returns `a`, and may leave the offset anywhere.
pub record Finds {ℓ} {A : Type ℓ} (m : Action A) (bs : Bytes) (a : A) : Type ℓ where
  pub at :
      (done rest : Bytes)
      → (c : Cursor) × (m (cursor (done ++ (bs ++ rest)) (length done)) ≡ some (a, c))

-- From the offset `off` of any buffer of `size` bytes, `m` returns.
pub record Ready {ℓ} {A : Type ℓ} (m : Action A) (off size : ℕ) : Type ℓ where
  pub at :
      (buf : Bytes)
      → length buf ≡ size
      → (a : A) × (c : Cursor) × (m (cursor buf off) ≡ some (a, c))

module _ {ℓ} {A : Type ℓ} where
  pub Finds-Reads : {m : Action A} {bs : Bytes} {a : A} → Reads m bs a → Finds m bs a
  Finds-Reads {bs} h = record {
    at = λ done rest. (cursor (done ++ (bs ++ rest)) (length done + length bs), h.at done rest);
  }

  pub Ready-pure : (a : A) (off size : ℕ) → Ready (pure a) off size
  Ready-pure a off size = record { at = λ buf e. (a, cursor buf off, refl) }

  pub Ready-if :
      (b : Bool) {m n : Action A} {off size : ℕ}
      → (b ≡ true → Ready m off size)
      → (b ≡ false → Ready n off size)
      → Ready (if b then m else n) off size
  Ready-if true h k = h refl
  Ready-if false h k = k refl

  pub Safe-pure : (a : A) → Safe (pure a) 0
  Safe-pure a = record { at = λ buf off le. (a, ap (λ k. some (a, cursor buf k)) (omega arith)) }

  pub Reads-pure : (a : A) → Reads (pure a) [] a
  Reads-pure a = record {
    at = λ done rest. ap (λ k. some (a, cursor (done ++ rest) k)) (omega arith);
  }

module _ {ℓ κ} {A : Type ℓ} {B : Type κ} where
  pub Reads->>= :
      {m : Action A} (f : A → Action B) {x y : Bytes} {a : A} {b : B}
      → Reads m x a
      → Reads (f a) y b
      → Reads (m >>= f) (x ++ y) b
  unfolding ◌>>=◌
  Reads->>= {m} f {x} {y} {a} {b} hm hf = record {
    at = λ done rest.
        let next =
          rw (append_assoc done x (y ++ rest), length-append done x) at (hf.at (done ++ x) rest) in
        rw (append_assoc x y rest, length-append x y, hm.at done (y ++ rest), ◌>>=◌)
          (next
            ∙ ap (λ k. some (b, cursor (done ++ (x ++ (y ++ rest))) k))
                (add_assoc (length done) (length x) (length y)));
  }

  -- The last read of a function, whose result is only built into another.
  pub Reads-map :
      (m : Action A) (f : A → B) (bs : Bytes) (a : A)
      → Reads m bs a
      → Reads (m >>= λ x. pure (f x)) bs (f a)
  Reads-map m f bs a h =
      subst (λ x. Reads (m >>= λ x. pure (f x)) x (f a)) (append-nil bs)
        (Reads->>= (λ x. pure (f x)) h (Reads-pure (f a)))

  pub Safe->>= :
      {m : Action A} (f : A → Action B) {i j : ℕ}
      → Safe m i
      → ((a : A) → Safe (f a) j)
      → Safe (m >>= f) (i + j)
  unfolding ◌>>=◌
  Safe->>= {m} f {i} {j} hm hf = record {
    at = λ buf off h.
        let (a, e) = hm.at buf off (omega arith) in
        let (b, p) = (hf a).at buf (off + i) (omega arith) in
        (b, rw (e, ◌>>=◌) (p ∙ ap (λ k. some (b, cursor buf k)) (add_assoc off i j)));
  }

  pub Finds->>= :
      {m : Action A} (f : A → Action B) {x y : Bytes} {a : A} {b : B}
      → Reads m x a
      → Finds (f a) y b
      → Finds (m >>= f) (x ++ y) b
  unfolding ◌>>=◌
  Finds->>= {m} f {x} {y} {a} {b} hm hf = record {
    at = λ done rest.
        let (c, e) = hf.at (done ++ x) rest in
        let next = rw (append_assoc done x (y ++ rest), length-append done x) at e in
        (c, rw (append_assoc x y rest, hm.at done (y ++ rest), ◌>>=◌) next);
  }

  pub Ready->>= :
      {m : Action A} (f : A → Action B) {n off size : ℕ}
      → Safe m n
      → off + n ≤ size
      → ((a : A) → Ready (f a) (off + n) size)
      → Ready (m >>= f) off size
  unfolding ◌>>=◌
  Ready->>= {m} f {n} {off} {size} hm le hf = record {
    at = λ buf e.
        let (a, p) = hm.at buf off (omega arith) in
        let (b, c, q) = (hf a).at buf e in (b, c, rw (p, ◌>>=◌) q);
  }

peek_at :
    (done bs : Bytes) (i x : ℕ)
    → get_elem? bs i ≡ some x
    → peek i (cursor (done ++ bs) (length done)) ≡ some (x, cursor (done ++ bs) (length done))
unfolding peek
peek_at done bs i x e = rw (get_elem?-append done bs i, e)

pub Reads-read8 : (x : ℕ) → Reads read8 (x ∷ []) x
unfolding read8 skip
Reads-read8 x = record { at = λ done rest. rw (peek_at done (x ∷ rest) 0 x refl, ◌>>=◌) }

pub Reads-read16 : (a b : ℕ) → Reads read16 (a ∷ b ∷ []) (a * 2 ^ 8 + b)
unfolding read16 skip
Reads-read16 a b = record {
  at = λ done rest.
      let bs = a ∷ b ∷ rest in rw (peek_at done bs 0 a refl, ◌>>=◌, peek_at done bs 1 b refl);
}

pub Reads-read32 :
    (a b c d : ℕ) → Reads read32 (a ∷ b ∷ c ∷ d ∷ []) (a * 2 ^ 24 + b * 2 ^ 16 + c * 2 ^ 8 + d)
unfolding read32 skip
Reads-read32 a b c d = record {
  at = λ done rest.
      let bs = a ∷ b ∷ c ∷ d ∷ rest in
      rw (
        peek_at done bs 0 a refl,
        ◌>>=◌,
        peek_at done bs 1 b refl,
        peek_at done bs 2 c refl,
        peek_at done bs 3 d refl,
      );
}

pub Reads-be8 : (v : ℕ) → IsByte v → Reads read8 (u8 v ∷ []) v
Reads-be8 v h =
    let e : u8 v ≡ v = omega arith in subst (Reads read8 (u8 v ∷ [])) e (Reads-read8 (u8 v))

pub Reads-be16 : (v : ℕ) → IsU16 v → Reads read16 (be16 v) v
Reads-be16 v h =
    let e : u8 (v / 2 ^ 8) * 2 ^ 8 + u8 v ≡ v = omega arith in
    rw e at (Reads-read16 (u8 (v / 2 ^ 8)) (u8 v))

pub Reads-be32 : (v : ℕ) → IsU32 v → Reads read32 (be32 v) v
Reads-be32 v h =
    let e : u8 (v / 2 ^ 24) * 2 ^ 24 + u8 (v / 2 ^ 16) * 2 ^ 16 + u8 (v / 2 ^ 8) * 2 ^ 8 + u8 v
        ≡ v =
      omega arith in
    rw e at (Reads-read32 (u8 (v / 2 ^ 24)) (u8 (v / 2 ^ 16)) (u8 (v / 2 ^ 8)) (u8 v))

pub Reads-be64 : (v : ℕ) → IsU64 v → Reads read64 (be64 v) v
unfolding read64
Reads-be64 v h =
    let e : u32 (v / 2 ^ 32) * 2 ^ 32 + u32 v ≡ v = omega arith in
    let r =
      Reads->>= (λ (high : ℕ). read32 >>= λ low. pure (high * 2 ^ 32 + low))
        (Reads-be32 (u32 (v / 2 ^ 32)) (omega arith))
        (Reads->>= (λ (low : ℕ). pure (u32 (v / 2 ^ 32) * 2 ^ 32 + low))
          (Reads-be32 (u32 v) (omega arith)) (Reads-pure _)) in
    rw e at r

peek_total :
    (i off : ℕ) (buf : Bytes)
    → off + i < length buf
    → (x : ℕ) × (peek i (cursor buf off) ≡ some (x, cursor buf off))
unfolding peek
peek_total i off buf h = let (x, e) = get_elem?-lt buf (off + i) h in (x, rw e)

pub Safe-read8 : Safe read8 1
unfolding read8 skip
Safe-read8 = record {
  at = λ buf off h. let (x, e) = peek_total 0 off buf (omega arith) in (x, rw (e, ◌>>=◌));
}

pub Safe-read16 : Safe read16 2
unfolding read16 skip
Safe-read16 = record {
  at = λ buf off h.
      let (x, e) = peek_total 0 off buf (omega arith) in
      let (y, p) = peek_total 1 off buf (omega arith) in (x * 2 ^ 8 + y, rw (e, ◌>>=◌, p));
}

pub Safe-read32 : Safe read32 4
unfolding read32 skip
Safe-read32 = record {
  at = λ buf off h.
      let (x, e) = peek_total 0 off buf (omega arith) in
      let (y, p) = peek_total 1 off buf (omega arith) in
      let (z, q) = peek_total 2 off buf (omega arith) in
      let (w, r) = peek_total 3 off buf (omega arith) in
      (x * 2 ^ 24 + y * 2 ^ 16 + z * 2 ^ 8 + w, rw (e, ◌>>=◌, p, q, r));
}

pub Safe-read64 : Safe read64 8
unfolding read64
Safe-read64 = Safe->>= _ Safe-read32 (λ high. Safe->>= _ Safe-read32 (λ low. Safe-pure _))

pub Ready-string_at :
    {B : Type 0} (f : Bytes → Action B) (n : ℕ) {off size : ℕ}
    → off + n ≤ size
    → ((s : Bytes) → Ready (f s) off size)
    → Ready (string_at n >>= f) off size
unfolding string_at ◌>>=◌
Ready-string_at f n {off} {size} le h = record {
  at = λ buf e.
      rw (le→leb (off + n) (length buf) (omega arith), string_at, ◌>>=◌)
        ((h (take n (drop off buf))).at buf e);
}

module _ {κ} {B : Type κ} where
  pub Ready-tell :
      (f : ℕ → Action B) {off size : ℕ} → Ready (f off) off size → Ready (tell >>= f) off size
  unfolding tell ◌>>=◌
  Ready-tell f h = record { at = h.at }

  pub Ready-skip :
      (f : Unit {0} → Action B) (n : ℕ) {off size : ℕ}
      → Ready (f tt) (off + n) size
      → Ready (skip n >>= f) off size
  unfolding skip ◌>>=◌
  Ready-skip f n h = record { at = h.at }

  pub Ready-lift {ℓ} :
      {A : Type ℓ} (f : A → Action B) (o : Option A) {off size : ℕ}
      → (a : A) × (o ≡ some a)
      → ((a : A) → Ready (f a) off size)
      → Ready (lift o >>= f) off size
  unfolding lift ◌>>=◌
  Ready-lift f o (a, e) h = record { at = λ buf p. rw (e, ◌>>=◌) ((h a).at buf p) }

-- The string is the last thing that a parse function reads.
pub Finds-string_at :
    {B : Type 0} (f : Bytes → B) (s : Bytes) (n : ℕ)
    → n ≤ length s
    → Finds (string_at n >>= λ t. pure (f t)) s (f (take n s))
unfolding string_at ◌>>=◌
Finds-string_at f s n h = record {
  at = λ done rest. (
    cursor (done ++ (s ++ rest)) (length done),
    rw (
      le→leb (length done + n) (length (done ++ (s ++ rest)))
          (omega (arith, length-append {0} done (s ++ rest), length-append {0} s rest)),
      string_at,
      ◌>>=◌,
      drop-append done (s ++ rest),
      take-append_le n s rest h,
    ),
  );
}

-- A span behind the bytes `xs`.
pub string_at_mid :
    (done xs s rest : Bytes)
    → string_at (length s) (cursor (done ++ (xs ++ (s ++ rest))) (length done + length xs))
      ≡ some (s, cursor (done ++ (xs ++ (s ++ rest))) (length done + length xs))
unfolding string_at
string_at_mid done xs s rest = rw (
  le→leb (length done + length xs + length s) (length (done ++ (xs ++ (s ++ rest)))) (
      omega (
        arith,
        length-append {0} done (xs ++ (s ++ rest)),
        length-append {0} xs (s ++ rest),
        length-append {0} s rest,
      )),
  drop-append_add done (xs ++ (s ++ rest)) (length xs),
  drop-append xs (s ++ rest),
  take-append s rest,
)

pub Reads-skip : (xs : Bytes) → Reads (skip (length xs)) xs tt
unfolding skip
Reads-skip xs = record { at = λ done rest. refl }

-- A span that is looked at, and read again by what follows.
pub Finds-span :
    {B : Type 0} (f : Bytes → Action B) (s bs : Bytes) (b : B)
    → Finds (f s) (s ++ bs) b
    → Finds (string_at (length s) >>= f) (s ++ bs) b
unfolding string_at ◌>>=◌
Finds-span f s bs b h = record {
  at = λ done rest.
      let (c, e) = h.at done rest in
      (
        c,
        rw
            (
              append_assoc s bs rest,
              le→leb (length done + length s) (length (done ++ (s ++ (bs ++ rest)))) (
                  omega (
                    arith,
                    length-append {0} done (s ++ (bs ++ rest)),
                    length-append {0} s (bs ++ rest),
                  )),
              string_at,
              ◌>>=◌,
              drop-append done (s ++ (bs ++ rest)),
              take-append s (bs ++ rest),
            )
            (rw (append_assoc s bs rest) at e),
      );
}

pub Finds-string_rest :
    {B : Type 0} (f : Bytes → B) (s : Bytes) (n : ℕ)
    → n ≡ length s
    → Finds (string_at n >>= λ t. pure (f t)) s (f s)
Finds-string_rest f s n e =
    subst (λ t. Finds (string_at n >>= λ t. pure (f t)) s (f t))
      (ap (λ k. take k s) e ∙ take_length s) (Finds-string_at f s n (omega arith))

pub parse-Finds :
    {A : Type 0} (m : Action A) (bs rest : Bytes) (a : A)
    → Finds m bs a
    → parse (bs ++ rest) m ≡ some a
unfolding parse
parse-Finds m bs rest a h = let (c, e) = h.at [] rest in rw e

pub Ready-map :
    {A B : Type 0} {m : Action A} {off size : ℕ} (f : A → B)
    → Ready m off size
    → Ready (m >>= λ a. pure (f a)) off size
unfolding ◌>>=◌
Ready-map f r = record { at = λ buf p. let (a, c, e) = r.at buf p in (f a, c, rw (e, ◌>>=◌) refl) }

pub parse-Ready :
    {A : Type 0} (m : Action A) (bs : Bytes)
    → Ready m 0 (length bs)
    → (a : A) × (parse bs m ≡ some a)
unfolding parse
parse-Ready m bs h = let (a, c, e) = h.at bs refl in (a, rw e)
