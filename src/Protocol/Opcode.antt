-- ===== src/Protocol/Opcode.antt =====
-- namespace Opcode of common/protocol/message.h.
use sketch_sync.Prelude.{ℕ}

abbrev pub create : ℕ
create = 0x00

abbrev pub join : ℕ
join = 0x01

abbrev pub leave : ℕ
leave = 0x02

abbrev pub ack : ℕ
ack = 0x03

abbrev pub error_msg : ℕ
error_msg = 0x04

abbrev pub notification : ℕ
notification = 0x05

abbrev pub draw : ℕ
draw = 0x06

abbrev pub canvas_state : ℕ
canvas_state = 0x07

abbrev pub canvas_state_request : ℕ
canvas_state_request = 0x08

abbrev pub close_session : ℕ
close_session = 0x09

abbrev pub canvas_clear : ℕ
canvas_clear = 0x0A
