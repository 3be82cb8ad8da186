-- ===== src/Udp.antt =====
-- common/udp/udpDiscovery.h and udpDiscovery.cpp: the datagrams of session discovery, and what the
-- responder and the searching client make of one. Sockets, timers and addresses are not modelled.
pub mod RoundTrip
pub mod Discovery
use sketch_sync.Prelude.{
  ℕ, ◌+◌, Bool, true, false, not, ◌&&◌, Option, none, some, List, [], ◌∷◌, ltb, ◌==◌, if◌then◌else◌,
  length,
}
use mathlib.Core.Option
use sketch_sync.Results.{Result, Error, ok, fail, refail, is_ok, text}
use sketch_sync.Bytes.{
  Bytes, Action, skip, read8, read16, read32, string_at, write8, write16, write32, memcpy, pure,
  ◌>>=◌, ◌>>◌, parse, serialize,
}
use sketch_sync.Bytes.Guard.{parse_at_least}

-- udp_proto::Opcode
abbrev pub discover : ℕ
discover = 0x01

abbrev pub offer : ℕ
offer = 0x02

abbrev pub magic_size : ℕ
magic_size = 6

-- "SKSYNC"
abbrev pub magic : Bytes
magic = b'S' ∷ b'K' ∷ b'S' ∷ b'Y' ∷ b'N' ∷ b'C' ∷ []

-- udp_proto::Header has the opcode as its only field.
abbrev pub header_size : ℕ
header_size = magic_size + 1

-- std::memcmp(…) == 0
unfoldable pub same_bytes : Bytes → Bytes → Bool
same_bytes [] [] = true
same_bytes (x ∷ xs) (y ∷ ys) = x == y && same_bytes xs ys
same_bytes _ _ = false

read_header : Action (Result ℕ)
read_header = do
  start ← string_at magic_size
  if not (same_bytes start magic)
      then pure (fail 0 Error.malformed (text "Invalid UDP magic header"))
      else do skip magic_size; opcode ← read8; pure (ok opcode)

pub parse_header : Bytes → Option (Result ℕ)
parse_header = parse_at_least header_size 0 "Packet too short for UDP header" read_header

write_magic : Action (Unit {0})
write_magic = do memcpy magic; skip magic_size

pub serialize_packet : ℕ → Bytes → Option Bytes
serialize_packet opcode payload =
    serialize (header_size + length payload) do write_magic; write8 opcode; memcpy payload

-- DiscoverMessage has the session id as its only field.
pub serialize_discover : ℕ → Option Bytes
serialize_discover session_id =
    Option.bind (serialize 4 (write32 session_id)) λ payload. serialize_packet discover payload

read_discover : Action (Result ℕ)
read_discover = do skip header_size; session_id ← read32; pure (ok session_id)

pub parse_discover : Bytes → Option (Result ℕ)
parse_discover bs = Option.bind (parse_header bs) λ header_res.
    if not (is_ok header_res)
    then some (refail 0 header_res)
    else if not (header_res.value == discover)
    then some (fail 0 Error.malformed (text "Not a DISCOVER opcode"))
    else parse_at_least (header_size + 4) 0 "DISCOVER payload too short" read_discover bs

pub record OfferMessage : Type 0 where
  pub session_id : ℕ
  pub tcp_port : ℕ

abbrev pub no_offer : OfferMessage
no_offer = record { session_id = 0; tcp_port = 0 }

pub serialize_offer : OfferMessage → Option Bytes
serialize_offer msg =
    Option.bind (serialize (4 + 2) (write32 msg.session_id >> write16 msg.tcp_port))
      λ payload. serialize_packet offer payload

read_offer : Action (Result OfferMessage)
read_offer = do
  skip header_size
  session_id ← read32
  tcp_port ← read16
  pure (ok (record { session_id = session_id; tcp_port = tcp_port }))

pub parse_offer : Bytes → Option (Result OfferMessage)
parse_offer bs = Option.bind (parse_header bs) λ header_res.
    if not (is_ok header_res)
    then some (refail no_offer header_res)
    else if not (header_res.value == offer)
    then some (fail no_offer Error.malformed (text "Not an OFFER opcode"))
    else parse_at_least (header_size + 4 + 2) no_offer "OFFER payload too short" read_offer bs

-- The body of responder::run_loop for a datagram that was received: the answer, if one is sent.
pub answer : (ℕ → Option ℕ) → Bytes → Option (Option Bytes)
answer lookup bs = Option.bind (parse_discover bs) λ req.
    if not (is_ok req) then some none else elim (lookup req.value) [
      | none ↦ some none
      | some port ↦
          Option.map (λ packet. some packet)
            (serialize_offer (record { session_id = req.value; tcp_port = port }))
    ]

-- The body of do_receive in discover_host for a datagram that was received: the port that ends the
-- search, or `none` to go on waiting.
pub accept_offer : ℕ → Bytes → Option (Option ℕ)
accept_offer session_id bs =
    Option.map
      (λ offer_res.
        if is_ok offer_res && offer_res.value.session_id == session_id
        then some offer_res.value.tcp_port
        else none)
      (parse_offer bs)
