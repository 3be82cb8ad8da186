-- ===== src/Protocol/RoundTrips.antt =====
-- The messages of the server to its clients, together.
use sketch_sync.Prelude.{ℕ, ◌≡◌, some}
use mathlib.Core.Option
use sketch_sync.Results.{ok}
use sketch_sync.Bytes.{IsByte}
use sketch_sync.Protocol.Session.{
  CreateAckMessage, JoinAckMessage, serialize_create_ack, parse_create_ack, serialize_join_ack,
  parse_join_ack,
}
use sketch_sync.Protocol.Session.RoundTrip.{
  sent_name, IsCreateAck, IsJoinAck, create_ack_round_trip, join_ack_round_trip,
}
use sketch_sync.Protocol.Replies.{
  AckMessage, ErrorMessage, MemberJoinedNotification, MemberLeftNotification, serialize_ack,
  parse_ack, serialize_error, parse_error, serialize_member_joined, parse_member_joined,
  serialize_member_left, parse_member_left, serialize_session_closed, parse_session_closed,
}
use sketch_sync.Protocol.Replies.RoundTrip.{
  IsMemberJoined, IsMemberLeft, ack_round_trip, error_round_trip, member_joined_round_trip,
  member_left_round_trip, session_closed_round_trip,
}

-- The acknowledgements of CREATE and JOIN with fields in their ranges, and other acknowledgements and
-- errors whose code is a byte, with any text, are read back as they were written.
pub acks_round_trip :
    (created : CreateAckMessage) (joined : JoinAckMessage) (ack : AckMessage) (err : ErrorMessage)
    → IsCreateAck created
    → IsJoinAck joined
    → IsByte ack.ack_code
    → IsByte err.err_code
    → (Option.bind (serialize_create_ack created) parse_create_ack ≡ some (ok created))
      × (Option.bind (serialize_join_ack joined) parse_join_ack ≡ some (ok joined))
      × (Option.bind (serialize_ack ack) parse_ack ≡ some (ok ack))
      × (Option.bind (serialize_error err) parse_error ≡ some (ok err))
acks_round_trip created joined ack err v w h k = (
  create_ack_round_trip created v,
  join_ack_round_trip joined w,
  ack_round_trip ack h,
  error_round_trip err k,
)

-- The notifications that a member joined or left, with fields in their ranges, are read back with the name
-- cut to what its length byte says, and the one that a session closed as it was written.
pub notifications_round_trip :
    (joined : MemberJoinedNotification) (left : MemberLeftNotification) (closed : ℕ)
    → IsMemberJoined joined
    → IsMemberLeft left
    → IsByte closed
    → (Option.bind (serialize_member_joined joined) parse_member_joined
        ≡ some (ok (record joined { name = sent_name joined.name })))
      × (Option.bind (serialize_member_left left) parse_member_left
          ≡ some (ok (record left { name = sent_name left.name })))
      × (Option.bind (serialize_session_closed closed) parse_session_closed ≡ some (ok closed))
notifications_round_trip joined left closed v w h = (
  member_joined_round_trip joined v,
  member_left_round_trip left w,
  session_closed_round_trip closed h,
)
