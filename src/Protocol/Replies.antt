-- ===== src/Protocol/Replies.antt =====
-- The payloads of ACK, ERROR_MSG and NOTIFICATION, from message.h and message.cpp. A std::string is
-- its bytes.
pub mod RoundTrip
use sketch_sync.Prelude.{ℕ, ◌+◌, ◌-◌, Option, [], ltb, if◌then◌else◌, length}
use sketch_sync.Results.{Result, Error, ok, fail, text}
use sketch_sync.Bytes.{
  Bytes, Action, u8, read8, read32, string_at, write8, write32, memcpy, pure, ◌>>=◌, ◌>>◌,
  serialize,
}
use sketch_sync.Bytes.Guard.{parse_at_least}

pub record AckMessage : Type 0 where
  pub ack_code : ℕ
  pub message : Bytes

pub record ErrorMessage : Type 0 where
  pub err_code : ℕ
  pub err_message : Bytes

pub record MemberJoinedNotification : Type 0 where
  pub notif_code : ℕ
  pub member_id : ℕ
  pub name : Bytes

pub record MemberLeftNotification : Type 0 where
  pub notif_code : ℕ
  pub member_id : ℕ
  pub name : Bytes

abbrev no_ack : AckMessage
no_ack = record { ack_code = 0; message = [] }

-- The message is all that follows the code.
read_ack : ℕ → Action (Result AckMessage)
read_ack size = do
  ack_code ← read8
  message ← string_at (size - 1)
  pure (ok (record { ack_code = ack_code; message = message }))

pub parse_ack : Bytes → Option (Result AckMessage)
parse_ack bs = parse_at_least 1 no_ack "not enough data" (read_ack (length bs)) bs

pub serialize_ack : AckMessage → Option Bytes
serialize_ack msg = serialize (1 + length msg.message) do write8 msg.ack_code; memcpy msg.message

abbrev no_error : ErrorMessage
no_error = record { err_code = 0; err_message = [] }

read_error : ℕ → Action (Result ErrorMessage)
read_error size = do
  err_code ← read8
  err_message ← string_at (size - 1)
  pure (ok (record { err_code = err_code; err_message = err_message }))

pub parse_error : Bytes → Option (Result ErrorMessage)
parse_error bs = parse_at_least 1 no_error "not enough data" (read_error (length bs)) bs

pub serialize_error : ErrorMessage → Option Bytes
serialize_error msg =
    serialize (1 + length msg.err_message) do write8 msg.err_code; memcpy msg.err_message

abbrev no_member_joined : MemberJoinedNotification
no_member_joined = record { notif_code = 0; member_id = 0; name = [] }

read_member_joined : ℕ → Action (Result MemberJoinedNotification)
read_member_joined size = do
  notif_code ← read8
  member_id ← read32
  name_len ← read8
  if ltb size (6 + name_len)
      then pure (fail no_member_joined Error.malformed (text "name truncated"))
      else do
        name ← string_at name_len
        pure (ok (record { notif_code = notif_code; member_id = member_id; name = name }))

pub parse_member_joined : Bytes → Option (Result MemberJoinedNotification)
parse_member_joined bs =
    parse_at_least (1 + 4 + 1) no_member_joined "not enough data" (read_member_joined (length bs))
      bs

pub serialize_member_joined : MemberJoinedNotification → Option Bytes
serialize_member_joined msg =
    serialize (1 + 4 + 1 + length msg.name) do
      write8 msg.notif_code
      write32 msg.member_id
      write8 (u8 (length msg.name))
      memcpy msg.name

abbrev no_member_left : MemberLeftNotification
no_member_left = record { notif_code = 0; member_id = 0; name = [] }

read_member_left : ℕ → Action (Result MemberLeftNotification)
read_member_left size = do
  notif_code ← read8
  member_id ← read32
  name_len ← read8
  if ltb size (6 + name_len)
      then pure (fail no_member_left Error.malformed (text "name truncated"))
      else do
        name ← string_at name_len
        pure (ok (record { notif_code = notif_code; member_id = member_id; name = name }))

pub parse_member_left : Bytes → Option (Result MemberLeftNotification)
parse_member_left bs =
    parse_at_least (1 + 4 + 1) no_member_left "not enough data" (read_member_left (length bs)) bs

pub serialize_member_left : MemberLeftNotification → Option Bytes
serialize_member_left msg =
    serialize (1 + 4 + 1 + length msg.name) do
      write8 msg.notif_code
      write32 msg.member_id
      write8 (u8 (length msg.name))
      memcpy msg.name

-- SessionClosedNotification has the code as its only field.
read_session_closed : Action (Result ℕ)
read_session_closed = do notif_code ← read8; pure (ok notif_code)

pub parse_session_closed : Bytes → Option (Result ℕ)
parse_session_closed = parse_at_least 1 0 "not enough data" read_session_closed

pub serialize_session_closed : ℕ → Option Bytes
serialize_session_closed notif_code = serialize 1 (write8 notif_code)
