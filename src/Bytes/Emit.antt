-- ===== src/Bytes/Emit.antt =====
-- What the writes of bytes.h put into a buffer, as rules that compose along a do block.
use sketch_sync.Prelude.{
  ℕ, ◌+◌, ◌/◌, ◌^◌, ◌≡◌, ap, ◌∙◌, some, [], ◌∷◌, ◌++◌, append-nil, append_assoc, arith, length,
  length-append, length-replicate, replicate, set-append, take-append, drop-append, drop-append_add,
  split_at, lt→ltb, le→leb,
}
use mathlib.Core.Path.{subst}
use native.Mathlib.Nat.{add_assoc}
use sketch_sync.Bytes.{
  Bytes, Action, cursor, u8, u32, write8, write16, write32, write64, memcpy, skip, serialize, pure,
  ◌>>=◌, ◌>>◌,
}

-- The big-endian bytes of a word.
abbrev pub be16 : ℕ → Bytes
be16 v = u8 (v / 2 ^ 8) ∷ u8 v ∷ []

abbrev pub be32 : ℕ → Bytes
be32 v = u8 (v / 2 ^ 24) ∷ u8 (v / 2 ^ 16) ∷ u8 (v / 2 ^ 8) ∷ u8 v ∷ []

abbrev pub be64 : ℕ → Bytes
be64 v = be32 (u32 (v / 2 ^ 32)) ++ be32 (u32 v)

-- `m` overwrites as many bytes as `bs` has by `bs`, and moves the offset behind them.
pub record Emits (m : Action (Unit {0})) (bs : Bytes) : Type 0 where
  pub at :
      (done old rest : Bytes)
      → length old ≡ length bs
      → m (cursor (done ++ (old ++ rest)) (length done))
        ≡ some (tt, cursor (done ++ (bs ++ rest)) (length done + length bs))

-- The same for the last write, which may leave the offset anywhere.
pub record Fills (m : Action (Unit {0})) (bs : Bytes) : Type 0 where
  pub at :
      (done old rest : Bytes)
      → length old ≡ length bs
      → (off : ℕ) × (m (cursor (done ++ (old ++ rest)) (length done))
          ≡ some (tt, cursor (done ++ (bs ++ rest)) off))

pure_at :
    (done old rest : Bytes)
    → length old ≡ 0
    → pure {A = Unit {0}} tt (cursor (done ++ (old ++ rest)) (length done))
      ≡ some (tt, cursor (done ++ rest) (length done + 0))
pure_at done [] rest h = ap (λ k. some (tt, cursor (done ++ rest) k)) (omega arith)
pure_at done (x ∷ old) rest h = absurd (omega arith)

pub Emits-pure : Emits (pure tt) []
Emits-pure = record { at = pure_at }

write8_at :
    (v : ℕ) (done old rest : Bytes)
    → length old ≡ 1
    → write8 v (cursor (done ++ (old ++ rest)) (length done))
      ≡ some (tt, cursor (done ++ u8 v ∷ rest) (length done + 1))
write8_at v done [] rest h = absurd (omega arith)
write8_at v done (x ∷ []) rest h =
    unfold write8 in
    rw (
      lt→ltb (length done) (length (done ++ x ∷ rest))
          (omega (arith, length-append {0} done (x ∷ rest))),
      set-append done rest x (u8 v),
    )
write8_at v done (x ∷ y ∷ old) rest h = absurd (omega arith)

pub Emits-write8 : (v : ℕ) → Emits (write8 v) (u8 v ∷ [])
Emits-write8 v = record { at = write8_at v }

-- A cast before the write changes nothing.
pub Emits-write8_cast : (v : ℕ) → Emits (write8 (u8 v)) (u8 v ∷ [])
Emits-write8_cast v =
    let e : u8 (u8 v) ≡ u8 v = omega arith in
    subst (λ b. Emits (write8 (u8 v)) (b ∷ [])) e (Emits-write8 (u8 v))

then_at :
    {m n : Action (Unit {0})} {a b : Bytes}
    → Emits m a
    → Emits n b
    → (done x y rest : Bytes) → length x ≡ length a
    → length y ≡ length b
    → (m >> n) (cursor (done ++ ((x ++ y) ++ rest)) (length done))
      ≡ some (tt, cursor (done ++ ((a ++ b) ++ rest)) (length done + length (a ++ b)))
unfolding ◌>>=◌
then_at {m} {n} {a} {b} hm hn done x y rest p q =
    let next =
      rw (append_assoc done a (y ++ rest), append_assoc done a (b ++ rest), length-append done a) at
        (hn.at (done ++ a) y rest q) in
    rw
      (
        append_assoc x y rest,
        append_assoc a b rest,
        length-append a b,
        hm.at done x (y ++ rest) p,
        ◌>>=◌,
      )
      (next
        ∙ ap (λ k. some (tt, cursor (done ++ (a ++ (b ++ rest))) k))
            (add_assoc (length done) (length a) (length b)))

pub Emits->> :
    {m n : Action (Unit {0})} {a b : Bytes} → Emits m a → Emits n b → Emits (m >> n) (a ++ b)
Emits->> {m} {n} {a} {b} hm hn = record {
  at = λ done old rest h.
      let (x, y, e, p, q) = split_at (length a) (length b) old (h ∙ length-append a b) in
      rw e (then_at hm hn done x y rest p q);
}

memcpy_at :
    (src done old rest : Bytes)
    → length old ≡ length src
    → memcpy src (cursor (done ++ (old ++ rest)) (length done))
      ≡ some (tt, cursor (done ++ (src ++ rest)) (length done))
unfolding memcpy
memcpy_at src done old rest h = rw (
  le→leb (length done + length src) (length (done ++ (old ++ rest)))
      (omega (arith, length-append {0} done (old ++ rest), length-append {0} old rest)),
  take-append done (old ++ rest),
  drop-append_add done (old ++ rest) (length src),
  ← h,
  drop-append old rest,
)

-- Bytes copied, and the offset moved behind them.
pub Emits-memcpy-skip : (src : Bytes) → Emits (memcpy src >> skip (length src)) src
unfolding skip ◌>>=◌
Emits-memcpy-skip src = record { at = λ done old rest h. rw (memcpy_at src done old rest h, ◌>>=◌) }

pub Fills-Emits : {m : Action (Unit {0})} {bs : Bytes} → Emits m bs → Fills m bs
Fills-Emits {bs} h = record {
  at = λ done old rest e. (length done + length bs, h.at done old rest e);
}

pub Fills-memcpy : (src : Bytes) → Fills (memcpy src) src
Fills-memcpy src = record { at = λ done old rest h. (length done, memcpy_at src done old rest h) }

fill_at :
    {m n : Action (Unit {0})} {a b : Bytes}
    → Emits m a
    → Fills n b
    → (done x y rest : Bytes) → length x ≡ length a
    → length y ≡ length b
    → (off : ℕ) × ((m >> n) (cursor (done ++ ((x ++ y) ++ rest)) (length done))
        ≡ some (tt, cursor (done ++ ((a ++ b) ++ rest)) off))
unfolding ◌>>=◌
fill_at {m} {n} {a} {b} hm hn done x y rest p q =
    let (off, e) = hn.at (done ++ a) y rest q in
    let next =
      rw (append_assoc done a (y ++ rest), append_assoc done a (b ++ rest), length-append done a) at
        e in
    (off, rw (append_assoc x y rest, append_assoc a b rest, hm.at done x (y ++ rest) p, ◌>>=◌) next)

pub Fills->> :
    {m n : Action (Unit {0})} {a b : Bytes} → Emits m a → Fills n b → Fills (m >> n) (a ++ b)
Fills->> {m} {n} {a} {b} hm hn = record {
  at = λ done old rest h.
      let (x, y, e, p, q) = split_at (length a) (length b) old (h ∙ length-append a b) in
      rw e (fill_at hm hn done x y rest p q);
}

pub Emits-write16 : (v : ℕ) → Emits (write16 v) (be16 v)
unfolding write16
Emits-write16 v = Emits->> (Emits-write8 _) (Emits-write8 _)

pub Emits-write32 : (v : ℕ) → Emits (write32 v) (be32 v)
unfolding write32
Emits-write32 v =
    Emits->> (Emits-write8 _)
      (Emits->> (Emits-write8 _) (Emits->> (Emits-write8 _) (Emits-write8 _)))

pub be32-u32 : (v : ℕ) → be32 (u32 v) ≡ be32 v
be32-u32 v =
    let a : u8 (u32 v / 2 ^ 24) ≡ u8 (v / 2 ^ 24) = omega arith in
    let b : u8 (u32 v / 2 ^ 16) ≡ u8 (v / 2 ^ 16) = omega arith in
    let c : u8 (u32 v / 2 ^ 8) ≡ u8 (v / 2 ^ 8) = omega arith in
    let d : u8 (u32 v) ≡ u8 v = omega arith in λ i. a i ∷ b i ∷ c i ∷ d i ∷ []

pub Emits-write32_cast : (v : ℕ) → Emits (write32 (u32 v)) (be32 v)
Emits-write32_cast v = subst (Emits (write32 (u32 v))) (be32-u32 v) (Emits-write32 (u32 v))

pub Emits-write64 : (v : ℕ) → Emits (write64 v) (be64 v)
unfolding write64
Emits-write64 v = Emits->> (Emits-write32 _) (Emits-write32 _)

-- A buffer of the right size comes out full.
pub serialize-Fills :
    (n : ℕ) (m : Action (Unit {0})) (bs : Bytes)
    → n ≡ length bs
    → Fills m bs
    → serialize n m ≡ some bs
unfolding serialize
serialize-Fills n m bs e h =
    let (off, p) = h.at [] (replicate n 0) [] (length-replicate n 0 ∙ e) in
    let q = rw (append-nil {A = ℕ} (replicate n 0), append-nil bs) at p in rw q
