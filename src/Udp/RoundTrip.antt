-- ===== src/Udp/RoundTrip.antt =====
-- The discovery datagrams are read back as they were written, and no reader leaves its datagram.
use sketch_sync.Prelude.{
  ℕ, ◌+◌, ◌≡◌, refl, Bool, true, false, not, Option, some, [], ◌∷◌, ◌++◌, if◌then◌else◌, length,
  arith, ◌==◌,
}
use mathlib.Core.Option
use sketch_sync.Results.{Result, ok, refail, is_ok}
use sketch_sync.Bytes.{Bytes, u8, IsByte, IsU16, IsU32, ◌>>◌, write16, write32}
use sketch_sync.Bytes.Emit.{
  Fills->>, Emits-write8, Emits-write16, Emits-write32, Fills-memcpy, Emits-memcpy-skip,
  Fills-Emits, be16, be32, serialize-Fills,
}
use sketch_sync.Bytes.Read.{
  Finds->>=, Finds-Reads, Reads-be8, Reads-be16, Reads-be32, Reads-pure, Reads-skip, Finds-span,
  Ready->>=, Ready-pure, Ready-if, Ready-string_at, Ready-skip, Safe-read8, Safe-read16,
  Safe-read32,
}
use sketch_sync.Bytes.Guard.{at_least-Finds, at_least-whole, at_least-total}
use sketch_sync.Udp.{
  magic, no_offer, write_magic, header_size, discover, offer, same_bytes, read_header, parse_header,
  serialize_packet, serialize_discover, read_discover, parse_discover, OfferMessage,
  serialize_offer, read_offer, parse_offer,
}

packet_layout : ℕ → Bytes → Bytes
packet_layout opcode payload = magic ++ (u8 opcode ∷ payload)

serialize_packet-layout :
    (opcode : ℕ) (payload : Bytes)
    → serialize_packet opcode payload ≡ some (packet_layout opcode payload)
unfolding serialize_packet packet_layout write_magic
serialize_packet-layout opcode payload =
    serialize-Fills (7 + length payload) _ _ (omega arith)
      (Fills->> (Emits-memcpy-skip magic) (Fills->> (Emits-write8 opcode) (Fills-memcpy payload)))

parse_header-layout :
    (opcode : ℕ) (payload : Bytes)
    → IsByte opcode
    → parse_header (packet_layout opcode payload) ≡ some (ok opcode)
unfolding parse_header packet_layout read_header same_bytes
parse_header-layout opcode payload h =
    at_least-Finds 7 0 "Packet too short for UDP header" read_header (magic ++ (u8 opcode ∷ []))
      payload (omega arith)
      (Finds-span _ magic (u8 opcode ∷ []) (ok opcode) (
        Finds->>= _ (Reads-skip magic)
          (Finds->>= _ (Reads-be8 opcode h) (Finds-Reads (Reads-pure (ok opcode))))))

pub discover_layout : ℕ → Bytes
discover_layout session_id = packet_layout discover (be32 session_id)

pub serialize_discover-layout :
    (session_id : ℕ) → serialize_discover session_id ≡ some (discover_layout session_id)
unfolding serialize_discover discover_layout Option.bind
serialize_discover-layout session_id =
    rw
      (serialize-Fills 4 (write32 session_id) (be32 session_id) refl
        (Fills-Emits (Emits-write32 session_id)))
      (serialize_packet-layout discover (be32 session_id))

pub parse_discover-layout :
    (session_id : ℕ)
    → IsU32 session_id
    → parse_discover (discover_layout session_id) ≡ some (ok session_id)
unfolding parse_discover read_discover discover_layout packet_layout Option.bind
parse_discover-layout session_id h =
    rw (parse_header-layout discover (be32 session_id) (omega arith)) (
      at_least-whole 11 0 "DISCOVER payload too short" read_discover _ (omega arith) (
        Finds->>= _ (Reads-skip (magic ++ (discover ∷ [])))
          (Finds->>= _ (Reads-be32 session_id h) (Finds-Reads (Reads-pure _)))))

pub offer_layout : OfferMessage → Bytes
offer_layout m = packet_layout offer (be32 m.session_id ++ be16 m.tcp_port)

pub serialize_offer-layout : (m : OfferMessage) → serialize_offer m ≡ some (offer_layout m)
unfolding serialize_offer offer_layout Option.bind
serialize_offer-layout m =
    rw
      (serialize-Fills 6 (write32 m.session_id >> write16 m.tcp_port) _ refl
        (Fills->> (Emits-write32 m.session_id) (Fills-Emits (Emits-write16 m.tcp_port))))
      (serialize_packet-layout offer (be32 m.session_id ++ be16 m.tcp_port))

pub parse_offer-layout :
    (m : OfferMessage)
    → IsU32 m.session_id
    → IsU16 m.tcp_port
    → parse_offer (offer_layout m) ≡ some (ok m)
unfolding parse_offer read_offer offer_layout packet_layout Option.bind
parse_offer-layout m h k =
    rw (parse_header-layout offer (be32 m.session_id ++ be16 m.tcp_port) (omega arith)) (
      at_least-whole 13 no_offer "OFFER payload too short" read_offer _ (omega arith) (
        Finds->>= _ (Reads-skip (magic ++ (offer ∷ []))) (
          Finds->>= _ (Reads-be32 m.session_id h)
            (Finds->>= _ (Reads-be16 m.tcp_port k) (Finds-Reads (Reads-pure _))))))

-- Both branches of a test return.
if-total :
    {A : Type 0} (b : Bool) (a : A) {o : Option A}
    → (r : A) × (o ≡ some r)
    → (r : A) × ((if b then some a else o) ≡ some r)
if-total true a h = (a, refl)
if-total false a h = h

parse_header-total : (bs : Bytes) → (r : Result ℕ) × (parse_header bs ≡ some r)
unfolding parse_header read_header
parse_header-total bs = at_least-total _ _ _ read_header bs λ h.
    Ready-string_at _ 6 (omega arith) λ s.
      Ready-if (not (same_bytes s magic)) (λ _. Ready-pure _ _ _)
        λ _. Ready-skip _ 6 (Ready->>= _ Safe-read8 (omega arith) λ _. Ready-pure _ _ _)

pub parse_discover-total : (bs : Bytes) → (r : Result ℕ) × (parse_discover bs ≡ some r)
unfolding parse_discover read_discover Option.bind
parse_discover-total bs =
    let (header, e) = parse_header-total bs in
    let (r, p) =
      at_least-total (header_size + 4) 0 "DISCOVER payload too short" read_discover bs
        λ h. Ready-skip _ 7 (Ready->>= _ Safe-read32 (omega arith) λ _. Ready-pure _ _ _) in
    rw (e, Option.bind)
      (if-total (not (is_ok header)) (refail 0 header)
        (if-total (not (header.value == discover)) _ (r, p)))

pub parse_offer-total : (bs : Bytes) → (r : Result OfferMessage) × (parse_offer bs ≡ some r)
unfolding parse_offer read_offer Option.bind
parse_offer-total bs =
    let (header, e) = parse_header-total bs in
    let (r, p) =
      at_least-total (header_size + 4 + 2) no_offer "OFFER payload too short" read_offer bs λ h.
        Ready-skip _ 7 (
          Ready->>= _ Safe-read32 (omega arith)
            λ _. Ready->>= _ Safe-read16 (omega arith) λ _. Ready-pure _ _ _) in
    rw (e, Option.bind)
      (if-total (not (is_ok header)) (refail no_offer header)
        (if-total (not (header.value == offer)) _ (r, p)))
