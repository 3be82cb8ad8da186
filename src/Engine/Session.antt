-- ===== src/Engine/Session.antt =====
-- engine/session/session_manager.cpp: the operations of session_manager that do not receive and do not
-- open a connection.
pub mod Coherence
use sketch_sync.Prelude.{
  ℕ, zero, suc, ◌+◌, ◌*◌, ◌-◌, ◌^◌, Bool, true, false, not, ◌&&◌, ◌||◌, Option, none, some, List,
  [], ◌∷◌, ltb, leb, ◌==◌, if◌then◌else◌,
}
use mathlib.Core.Option
use sketch_sync.Results.{Result, is_ok}
use sketch_sync.Bytes.{Bytes, u32}
use sketch_sync.Assoc.{Assoc}
use sketch_sync.DrawOperation.{DrawOperation}
use sketch_sync.Canvas.{insert}
use sketch_sync.Client.{Client, in_session as has_session, mark_session_closed}
use sketch_sync.Engine.{Manager, Engine, Environment, JoiningState, Call, app_name}
use sketch_sync.Engine.Calls.{call, tell}

abbrev pub has_client : Engine → Bool
has_client e = elim e.client [ none ↦ false | some c ↦ true ]

abbrev pub with_joining : JoiningState → Engine → Engine
with_joining state e = record e { manager = record e.manager { joining_state = state } }

abbrev pub prepare_join : ℕ → Engine → Engine
prepare_join session_id e = record e {
  manager = record e.manager { joining_state = JoiningState.joining; session_id = session_id };
}

abbrev pub prepare_create : Engine → Engine
prepare_create = with_joining JoiningState.creating

abbrev pub clear_joining_state : Engine → Engine
clear_joining_state = with_joining JoiningState.none

unfoldable pub reset_session : Engine → Engine
reset_session e = record e {
  manager = record e.manager {
    client = Option.map mark_session_closed e.client;
    in_session = false;
    session_id = 0;
    member_id = 0;
    members = [];
    hosting = false;
    joining_state = JoiningState.none;
  };
}

abbrev pub attach_client : Client → Engine → Engine
attach_client c e = record e { manager = record e.manager { client = some c } }

abbrev pub detach_client : Engine → Engine
detach_client e = record e { manager = record e.manager { client = none } }

unfoldable pub member_id_or : ℕ → Engine → ℕ
member_id_or fallback e = elim e.client [ none ↦ fallback | some c ↦ c.member_id ]

unfoldable pub host_owns_canvas : Engine → Bool
host_owns_canvas e = elim e.client [ none ↦ true | some c ↦ c.host ]

-- The or of a number shifted by 32 bits and a 32-bit number is their sum.
unfoldable pub next_operation_id : Engine → ℕ × Engine
unfolding member_id_or
next_operation_id e = (
  member_id_or 1 e * 2 ^ 32 + e.next_operation_number,
  record e {
    manager = record e.manager { next_operation_number = u32 (e.next_operation_number + 1) };
  },
)

-- std::sort by the id.
insert_member : ℕ × Bytes → Assoc Bytes → Assoc Bytes
insert_member m [] = m ∷ []
insert_member m (n ∷ ms) = if ltb n.0 m.0 then n ∷ insert_member m ms else m ∷ n ∷ ms

sort_members : Assoc Bytes → Assoc Bytes
sort_members [] = []
sort_members (m ∷ ms) = insert_member m (sort_members ms)

-- session_manager::members
pub member_list : Engine → Assoc Bytes
member_list e = sort_members e.members

module _ (env : Environment) where
  -- What send_join_request does with the answer.
  joined_request : ℕ → Result Bool × Engine → Engine
  joined_request session_id (r, e) = if is_ok r then prepare_join session_id e else e

  pub send_join_request : ℕ → Engine → Option Engine
  send_join_request session_id e = elim e.client [
    | none ↦ some e
    | some c ↦ Option.map (joined_request session_id) (call env c (Call.join session_id app_name) e)
  ]

  created_request : Result Bool × Engine → Engine
  created_request (r, e) = if is_ok r then prepare_create e else e

  pub send_create_request : Engine → Option Engine
  send_create_request e = elim e.client [
    | none ↦ some e
    | some c ↦ Option.map created_request (call env c (Call.create app_name) e)
  ]

  pub send_leave_or_close : Engine → Option Engine
  send_leave_or_close e = elim e.client [
    | none ↦ some e
    | some c ↦
        if e.in_session
        then tell env c (if e.hosting then Call.close_session else Call.leave) e
        else some e
  ]

  pub leave_session : Engine → Option Engine
  leave_session e = Option.map reset_session (send_leave_or_close e)

  unfoldable pub track : Bool → ℕ → Engine → Engine
  track track_pending operation_id e =
      if track_pending
      then record e {
        manager = record e.manager {
          pending_operations = insert operation_id e.pending_operations;
        };
      }
      else e

  unfoldable pub broadcast_draw : DrawOperation → Bool → Engine → Option Engine
  broadcast_draw op track_pending e = elim e.client [
    | none ↦ some e
    | some c ↦
        if e.in_session || has_session c
        then tell env c (Call.draw op) (track track_pending op.operation_id e)
        else some e
  ]

  pub broadcast_clear : Engine → Option Engine
  broadcast_clear e = elim e.client [
    | none ↦ some e
    | some c ↦ if e.in_session then tell env c Call.canvas_clear e else some e
  ]
