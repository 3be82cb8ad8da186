-- ===== src/Protocol/Session.antt =====
-- The payloads of CREATE and JOIN and of their acknowledgements, from message.h and message.cpp.
-- A std::string is its bytes. The readers take the size of the span, which the source asks again
-- once it knows the length of a name.
pub mod RoundTrip
use sketch_sync.Prelude.{ℕ, ◌+◌, ◌*◌, Option, [], ltb, if◌then◌else◌, length}
use sketch_sync.Results.{Result, Error, ok, fail, text}
use sketch_sync.Bytes.{
  Bytes, Action, u8, read8, read32, string_at, write8, write32, memcpy, pure, ◌>>=◌, ◌>>◌,
  serialize,
}
use sketch_sync.Bytes.Guard.{parse_at_least}

pub record JoinMessage : Type 0 where
  pub session_id : ℕ
  pub name : Bytes

pub record CreateAckMessage : Type 0 where
  pub ack_code : ℕ
  pub session_id : ℕ
  pub member_id : ℕ

pub record JoinAckMessage : Type 0 where
  pub ack_code : ℕ
  pub member_id : ℕ

read_create : ℕ → Action (Result Bytes)
read_create size = do
  length ← read8
  if ltb size (1 + length)
      then pure (fail [] Error.malformed (text "declared length exceeds available data"))
      else do name ← string_at length; pure (ok name)

pub parse_create : Bytes → Option (Result Bytes)
parse_create bs = parse_at_least 1 [] "not enough data" (read_create (length bs)) bs

-- CreateMessage has the name as its only field.
pub serialize_create : Bytes → Option Bytes
serialize_create name = serialize (1 + length name) do write8 (u8 (length name)); memcpy name

abbrev no_join : JoinMessage
no_join = record { session_id = 0; name = [] }

read_join : ℕ → Action (Result JoinMessage)
read_join size = do
  session_id ← read32
  name_length ← read8
  if ltb size (4 + 1 + name_length)
      then pure (fail no_join Error.malformed (text "declared length exceeds available data"))
      else do
        name ← string_at name_length
        pure (ok (record { session_id = session_id; name = name }))

pub parse_join : Bytes → Option (Result JoinMessage)
parse_join bs = parse_at_least (4 + 1) no_join "not enough data" (read_join (length bs)) bs

pub serialize_join : JoinMessage → Option Bytes
serialize_join msg =
    serialize (4 + 1 + length msg.name)
      do write32 msg.session_id; write8 (u8 (length msg.name)); memcpy msg.name

abbrev no_create_ack : CreateAckMessage
no_create_ack = record { ack_code = 0; session_id = 0; member_id = 0 }

read_create_ack : Action (Result CreateAckMessage)
read_create_ack = do
  ack_code ← read8
  session_id ← read32
  member_id ← read32
  pure (ok (record { ack_code = ack_code; session_id = session_id; member_id = member_id }))

pub parse_create_ack : Bytes → Option (Result CreateAckMessage)
parse_create_ack = parse_at_least (1 + 4 * 2) no_create_ack "not enough data" read_create_ack

pub serialize_create_ack : CreateAckMessage → Option Bytes
serialize_create_ack msg =
    serialize (1 + 4 * 2) do write8 msg.ack_code; write32 msg.session_id; write32 msg.member_id

abbrev no_join_ack : JoinAckMessage
no_join_ack = record { ack_code = 0; member_id = 0 }

read_join_ack : Action (Result JoinAckMessage)
read_join_ack = do
  ack_code ← read8
  member_id ← read32
  pure (ok (record { ack_code = ack_code; member_id = member_id }))

pub parse_join_ack : Bytes → Option (Result JoinAckMessage)
parse_join_ack = parse_at_least (1 + 4) no_join_ack "not enough data" read_join_ack

pub serialize_join_ack : JoinAckMessage → Option Bytes
serialize_join_ack msg = serialize (1 + 4) do write8 msg.ack_code; write32 msg.member_id
