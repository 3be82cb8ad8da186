-- ===== src/Protocol/Frame.antt =====
-- Frames: the layout of serializeMessage, and parseHeader on it.
use sketch_sync.Prelude.{ℕ, ◌≡◌, ◌≤◌, some, ◌∷◌, ◌++◌, length, arith}
use mathlib.Core.Option
use sketch_sync.Results.{Result, ok}
use sketch_sync.Bytes.{Bytes, u8, IsByte, IsU32}
use sketch_sync.Bytes.Emit.{
  Fills->>, Emits-write8, Emits-write32, Fills-memcpy, be32, serialize-Fills,
}
use sketch_sync.Bytes.Read.{
  Finds, Finds->>=, Finds-Reads, Reads-be8, Reads-be32, Reads-pure, Ready, Ready->>=, Ready-pure,
  Safe-read8, Safe-read32,
}
use sketch_sync.Bytes.Guard.{at_least-Finds, at_least-total}
use sketch_sync.Protocol.{Header, Message, read_header, parse_header, serialize_message, get_size}

pub record IsHeader (h : Header) : Type 0 where
  pub opcode : IsByte h.opcode
  pub flags : IsByte h.flags
  pub length : IsU32 h.length

abbrev pub header_layout : Header → Bytes
header_layout h = u8 h.opcode ∷ u8 h.flags ∷ be32 h.length

pub serialize_message-layout :
    (m : Message) → serialize_message m ≡ some (header_layout m.header ++ m.payload)
unfolding serialize_message
serialize_message-layout m = serialize-Fills (get_size m) _ _ (omega arith) (
    Fills->> (Emits-write8 _)
      (Fills->> (Emits-write8 _) (Fills->> (Emits-write32 _) (Fills-memcpy _))))

read_header-Finds : (h : Header) → IsHeader h → Finds read_header (header_layout h) (ok h)
unfolding read_header
read_header-Finds h v = Finds->>= _ (Reads-be8 _ v.opcode) (
    Finds->>= _ (Reads-be8 _ v.flags)
      (Finds->>= _ (Reads-be32 _ v.length) (Finds-Reads (Reads-pure _))))

pub parse_header-layout :
    (h : Header) (rest : Bytes) → IsHeader h → parse_header (header_layout h ++ rest) ≡ some (ok h)
unfolding parse_header
parse_header-layout h rest v =
    at_least-Finds _ _ _ read_header (header_layout h) rest (omega arith) (read_header-Finds h v)

-- A header with fields in their ranges is read back from the frame that it begins.
pub message_round_trip :
    (m : Message)
    → IsHeader m.header
    → Option.bind (serialize_message m) parse_header ≡ some (ok m.header)
unfolding Option.bind
message_round_trip m v = rw (serialize_message-layout m) (parse_header-layout m.header m.payload v)

read_header-Ready : (n : ℕ) → 6 ≤ n → Ready read_header 0 n
unfolding read_header
read_header-Ready n h = Ready->>= _ Safe-read8 (omega arith) (λ _.
    Ready->>= _ Safe-read8 (omega arith)
      (λ _. Ready->>= _ Safe-read32 (omega arith) (λ _. Ready-pure _ _ _)))

-- parseHeader stays inside whatever it is given.
pub parse_header-total : (bs : Bytes) → (r : Result Header) × (parse_header bs ≡ some r)
unfolding parse_header
parse_header-total bs = at_least-total _ _ _ read_header bs (read_header-Ready (length bs))
