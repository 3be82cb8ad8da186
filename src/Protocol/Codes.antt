-- ===== src/Protocol/Codes.antt =====
-- namespaces ackcode, errcode and notifcode of common/protocol/message.h.
use sketch_sync.Prelude.{ℕ}

-- ackcode
abbrev pub ack_ok : ℕ
ack_ok = 0x00

abbrev pub ack_left : ℕ
ack_left = 0x01

abbrev pub create_ok : ℕ
create_ok = 0x02

abbrev pub join_ok : ℕ
join_ok = 0x03

-- errcode
abbrev pub unknown : ℕ
unknown = 0x00

abbrev pub create_failed : ℕ
create_failed = 0x01

abbrev pub join_failed : ℕ
join_failed = 0x02

abbrev pub leave_failed : ℕ
leave_failed = 0x03

-- notifcode
abbrev pub member_joined : ℕ
member_joined = 0x00

abbrev pub member_left : ℕ
member_left = 0x01

abbrev pub session_closed : ℕ
session_closed = 0x02
