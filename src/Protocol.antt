-- ===== src/Protocol.antt =====
-- common/protocol/message.h and message.cpp: the frames between engine and server. This file has
-- the frame itself; the children have the codes, the payloads, and the theorems about both.
pub mod Opcode
pub mod Codes
pub mod Frame
pub mod Total
pub mod RoundTrips
pub mod Session
pub mod Replies
pub mod CanvasState
use sketch_sync.Prelude.{ℕ, ◌+◌, Option, length}
use sketch_sync.Results.{Result, ok}
use sketch_sync.Bytes.{
  Bytes, Action, read8, read32, write8, write32, memcpy, pure, ◌>>=◌, ◌>>◌, serialize,
}
use sketch_sync.Bytes.Guard.{parse_at_least}

pub record Header : Type 0 where
  pub opcode : ℕ
  pub flags : ℕ
  pub length : ℕ

abbrev pub header_size : ℕ
header_size = 6

pub record Message : Type 0 where
  pub header : Header
  pub payload : Bytes

abbrev pub empty_header : Header
empty_header = record { opcode = 0; flags = 0; length = 0 }

pub get_size : Message → ℕ
get_size msg = header_size + length msg.payload

read_header : Action (Result Header)
read_header = do
  opcode ← read8
  flags ← read8
  length ← read32
  pure (ok (record { opcode = opcode; flags = flags; length = length }))

pub parse_header : Bytes → Option (Result Header)
parse_header = parse_at_least header_size empty_header "not enough data for header" read_header

-- The test for an empty payload in the source only avoids a null pointer: nothing is copied then.
pub serialize_message : Message → Option Bytes
unfolding get_size
serialize_message msg = serialize (get_size msg) do
  write8 msg.header.opcode
  write8 msg.header.flags
  write32 msg.header.length
  memcpy msg.payload
