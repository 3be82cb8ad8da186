-- ===== src/Bytes.antt =====
-- common/bytes.h, and the uses of std::memcpy and of the std::string(pointer, length) constructor
-- that stand beside it. A buffer with an offset is one cursor; an action is `none` where the source
-- would read or write outside the buffer. Values are kept in their ranges by the casts of the source.
-- Shifted bytes share no bit, so `|` of them is their sum.
pub mod Emit
pub mod Read
pub mod Guard
pub mod Bounds
use sketch_sync.Prelude.{
  ℕ, ◌+◌, ◌*◌, ◌/◌, ◌%◌, ◌^◌, ◌<◌, ◌++◌, Option, none, some, List, ltb, leb, if◌then◌else◌, length,
  get_elem?, set, take, drop, replicate,
}
use mathlib.Core.Option

abbrev pub Bytes : Type 0
Bytes = List ℕ

-- static_cast to the unsigned types.
abbrev pub u8 : ℕ → ℕ
u8 v = v % 2 ^ 8

abbrev pub u16 : ℕ → ℕ
u16 v = v % 2 ^ 16

abbrev pub u32 : ℕ → ℕ
u32 v = v % 2 ^ 32

abbrev pub IsByte : ℕ → Type 0
IsByte v = v < 2 ^ 8

abbrev pub IsU16 : ℕ → Type 0
IsU16 v = v < 2 ^ 16

abbrev pub IsU32 : ℕ → Type 0
IsU32 v = v < 2 ^ 32

abbrev pub IsU64 : ℕ → Type 0
IsU64 v = v < 2 ^ 64

pub record Cursor : Type 0 where
  pub buf : Bytes
  pub off : ℕ

abbrev pub cursor : Bytes → ℕ → Cursor
cursor buf off = record { buf = buf; off = off }

abbrev pub Action {ℓ} : Type ℓ → Type ℓ
Action A = Cursor → Option (A × Cursor)

abbrev pub pure {ℓ} : {A : Type ℓ} → A → Action A
pure a c = some (a, c)

infixl 5 ◌>>=◌ ◌>>◌
unfoldable pub ◌>>=◌ {ℓ κ} : {A : Type ℓ} {B : Type κ} → Action A → (A → Action B) → Action B
◌>>=◌ m f c = elim (m c) [ none ↦ none | some (a, c') ↦ f a c' ]

abbrev pub ◌>>◌ {ℓ} : {B : Type ℓ} → Action (Unit {0}) → Action B → Action B
m >> k = m >>= λ _. k

-- data[off + i]
unfoldable pub peek : ℕ → Action ℕ
peek i c = Option.map (λ v. (v, c)) (get_elem? c.buf (c.off + i))

-- off += n
unfoldable pub skip : ℕ → Action (Unit {0})
skip n c = some (tt, record c { off = c.off + n })

-- The offset.
unfoldable pub tell : Action ℕ
tell c = some (c.off, c)

-- A call of a function that has its own buffer.
unfoldable pub lift {ℓ} : {A : Type ℓ} → Option A → Action A
lift o c = Option.map (λ a. (a, c)) o

unfoldable pub read8 : Action ℕ
unfolding ◌>>=◌
read8 = do a ← peek 0; skip 1; pure a

unfoldable pub read16 : Action ℕ
unfolding ◌>>=◌
read16 = do a ← peek 0; b ← peek 1; skip 2; pure (a * 2 ^ 8 + b)

unfoldable pub read32 : Action ℕ
unfolding ◌>>=◌
read32 = do
  a ← peek 0
  b ← peek 1
  c ← peek 2
  d ← peek 3
  skip 4
  pure (a * 2 ^ 24 + b * 2 ^ 16 + c * 2 ^ 8 + d)

unfoldable pub read64 : Action ℕ
unfolding ◌>>=◌
read64 = do high ← read32; low ← read32; pure (high * 2 ^ 32 + low)

-- std::string(data.data() + off, n), and a std::span of the same place.
unfoldable pub string_at : ℕ → Action Bytes
string_at n c = if leb (c.off + n) (length c.buf) then some (take n (drop c.off c.buf), c) else none

unfoldable pub write8 : ℕ → Action (Unit {0})
write8 v c =
    if ltb c.off (length c.buf)
    then some (tt, record { buf = set c.buf c.off (u8 v); off = c.off + 1 })
    else none

unfoldable pub write16 : ℕ → Action (Unit {0})
unfolding ◌>>=◌
write16 v = do write8 (v / 2 ^ 8); write8 v

unfoldable pub write32 : ℕ → Action (Unit {0})
unfolding ◌>>=◌
write32 v = do write8 (v / 2 ^ 24); write8 (v / 2 ^ 16); write8 (v / 2 ^ 8); write8 v

unfoldable pub write64 : ℕ → Action (Unit {0})
unfolding ◌>>=◌
write64 v = do write32 (u32 (v / 2 ^ 32)); write32 (u32 v)

-- std::memcpy(buf.data() + off, src, size of src). The offset stays.
unfoldable pub memcpy : Bytes → Action (Unit {0})
memcpy src c =
    if leb (c.off + length src) (length c.buf)
    then some (tt, record c { buf = take c.off c.buf ++ (src ++ drop (c.off + length src) c.buf) })
    else none

-- A function that reads a span from its start.
unfoldable pub parse {ℓ} : {A : Type ℓ} → Bytes → Action A → Option A
parse bs m = Option.map (λ r. r.0) (m (cursor bs 0))

-- A function that fills a new buffer of `n` zeros and returns it.
unfoldable pub serialize : ℕ → Action (Unit {0}) → Option Bytes
serialize n m = Option.map (λ r. r.1.buf) (m (cursor (replicate n 0) 0))
