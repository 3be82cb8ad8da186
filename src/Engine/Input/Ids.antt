-- ===== src/Engine/Input/Ids.antt =====
-- session_manager::next_operation_id: which ids can meet.
use sketch_sync.Prelude.{◌/◌, ◌^◌, ◌≡◌, arith}
use sketch_sync.Bytes.{IsU32}
use sketch_sync.Engine.{Engine}
use sketch_sync.Engine.Session.{member_id_or, next_operation_id}

-- The member that a program acts for can be read off the operation id that it draws next, and two programs
-- draw the same id only if they act for the same member and their counters stand alike: ids of different
-- members never meet. Members and counters have 32 bits.
pub next_operation_id-injective :
    (d e : Engine)
    → IsU32 (member_id_or 1 d)
    → IsU32 (member_id_or 1 e)
    → IsU32 d.next_operation_number
    → IsU32 e.next_operation_number
    → (next_operation_id d).0 ≡ (next_operation_id e).0
    → ((next_operation_id d).0 / 2 ^ 32 ≡ member_id_or 1 d)
      × (member_id_or 1 d ≡ member_id_or 1 e)
      × (d.next_operation_number ≡ e.next_operation_number)
unfolding next_operation_id
next_operation_id-injective d e h k l m same = omega arith
