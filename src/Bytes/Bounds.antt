-- ===== src/Bytes/Bounds.antt =====
-- The writes of bytes.h against the end of the buffer: an action of `n` bytes succeeds exactly where
-- so many are left, and no write changes the size of the buffer.
use sketch_sync.Prelude.{
  ℕ, ◌+◌, ◌/◌, ◌^◌, ◌≤◌, ◌<◌, ◌≡◌, refl, ap, some, none, length, length-set, set, ltb, arith,
  lt→ltb, le→ltb, inl, inr, Bool-cases, ltb→lt, ltb→le, ◌∙◌,
}
use native.Mathlib.Nat.{add_assoc}
use sketch_sync.Bytes.{
  Bytes, Action, cursor, u8, u32, write8, write16, write32, write64, pure, ◌>>=◌, ◌>>◌,
}

pub record Takes (m : Action (Unit {0})) (n : ℕ) : Type 0 where
  pub within :
      (buf : Bytes) (off : ℕ)
      → off + n ≤ length buf
      → (buf' : Bytes) × (m (cursor buf off) ≡ some (tt, cursor buf' (off + n)))
        × (length buf' ≡ length buf)
  pub beyond :
      (buf : Bytes) (off : ℕ) → off ≤ length buf → length buf < off + n → m (cursor buf off) ≡ none

pub Takes-pure : Takes (pure tt) 0
Takes-pure = record {
  within = λ buf off h. (buf, ap (λ k. some (tt, cursor buf k)) (omega arith), refl);
  beyond = λ buf off h k. absurd (omega arith);
}

pub Takes-write8 : (v : ℕ) → Takes (write8 v) 1
unfolding write8
Takes-write8 v = record {
  within = λ buf off h.
      (set buf off (u8 v), rw (lt→ltb off (length buf) (omega arith)), length-set buf off (u8 v));
  beyond = λ buf off h k. rw (le→ltb off (length buf) (omega arith));
}

pub Takes->> : {m n : Action (Unit {0})} {i j : ℕ} → Takes m i → Takes n j → Takes (m >> n) (i + j)
unfolding ◌>>=◌
Takes->> {m} {n} {i} {j} hm hn = record {
  within = λ buf off h.
      let (x, e, p) = hm.within buf off (omega arith) in
      let (y, f, q) = hn.within x (off + i) (omega arith) in
      (y, rw (e, ◌>>=◌) (f ∙ ap (λ k. some (tt, cursor y k)) (add_assoc off i j)), q ∙ p);
  beyond = λ buf off h k. elim (Bool-cases (ltb (length buf) (off + i))) [
    | inl over ↦ rw (hm.beyond buf off h (ltb→lt _ _ over), ◌>>=◌)
    | inr fits ↦
        let (x, e, p) = hm.within buf off (ltb→le _ _ fits) in
        rw (e, ◌>>=◌) (hn.beyond x (off + i) (omega (arith, ltb→le _ _ fits)) (omega arith))
  ];
}

pub Takes-write16 : (v : ℕ) → Takes (write16 v) 2
unfolding write16
Takes-write16 v = Takes->> (Takes-write8 (v / 2 ^ 8)) (Takes-write8 v)

pub Takes-write32 : (v : ℕ) → Takes (write32 v) 4
unfolding write32
Takes-write32 v =
    Takes->> (Takes-write8 (v / 2 ^ 24))
      (Takes->> (Takes-write8 (v / 2 ^ 16)) (Takes->> (Takes-write8 (v / 2 ^ 8)) (Takes-write8 v)))

pub Takes-write64 : (v : ℕ) → Takes (write64 v) 8
unfolding write64
Takes-write64 v = Takes->> (Takes-write32 (u32 (v / 2 ^ 32))) (Takes-write32 (u32 v))
