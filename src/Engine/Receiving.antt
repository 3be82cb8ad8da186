-- ===== src/Engine/Receiving.antt =====
-- engine/session/session_manager.cpp: poll_session and its handlers. A round of the loop takes what the
-- client's receive_msg returned.
pub mod Acks
pub mod Draws
pub mod Received
pub mod Ending
pub mod Keeping
use sketch_sync.Prelude.{
  ℕ, ◌+◌, Bool, true, false, not, ◌&&◌, ◌||◌, Option, none, some, List, [], ◌∷◌, ltb, ◌==◌,
  if◌then◌else◌,
}
use mathlib.Core.Option
use sketch_sync.Results.{Result, is_ok}
use sketch_sync.Bytes.{Bytes}
use sketch_sync.Assoc.{assign, erase}
use sketch_sync.DrawOperation.{DrawOperation, parse_draw_operation, validate_draw_operation}
use sketch_sync.Protocol.{Message}
use sketch_sync.Protocol.Opcode
use sketch_sync.Protocol.Codes
use sketch_sync.Protocol.Session.{
  parse_create_ack, parse_join_ack, CreateAckMessage, JoinAckMessage,
}
use sketch_sync.Protocol.Replies.{
  MemberJoinedNotification, MemberLeftNotification, parse_member_joined, parse_member_left,
  parse_error,
}
use sketch_sync.Protocol.CanvasState.{parse_canvas_state}
use sketch_sync.Canvas.{
  Canvas, snapshot, contains_operation, next_sequence, clear_history, apply, load,
}
use sketch_sync.Client.{Client, set_session_info, mark_session_closed}
use sketch_sync.Files.{is_untitled, enqueue_if_auto_save, mark_synced_for_save, save_to_file}
use sketch_sync.Engine.{Manager, Engine, Environment, JoiningState, Call, ConnectionState, app_name}
use sketch_sync.Engine.JoiningState.{creating, joining, in_session, leaving, closing}
use sketch_sync.Engine.Calls.{tell}
use sketch_sync.Engine.Session.{reset_session, clear_joining_state}

abbrev pub set_dirty : Engine → Engine
set_dirty e = record e { dirty = true }

-- The first part of handle_clear, and of sketch_app::clear_canvas.
pub save_cleared : Environment → Engine → Option Engine
save_cleared env e =
    if e.files.auto_save_on && not (is_untitled e.files)
    then Option.map (λ f. record e { files = f })
        (save_to_file env.can_open env.schedule e.files.current_file e.surface e.files)
    else some e

abbrev pub cleared : Engine → Engine
cleared e = record e { surface = clear_history e.surface }

pub handle_clear : Environment → Engine → Option Engine
handle_clear env e = Option.map set_dirty (save_cleared env (cleared e))

member_joined : Result MemberJoinedNotification → Engine → Engine
member_joined n e =
    if is_ok n
    then record e {
      manager = record e.manager { members = assign n.value.member_id n.value.name e.members };
    }
    else e

member_left : Result MemberLeftNotification → Engine → Engine
member_left n e =
    if is_ok n
    then record e { manager = record e.manager { members = erase n.value.member_id e.members } }
    else e

handle_code : ℕ → Bytes → Engine → Option Engine
handle_code code payload e =
    if code == Codes.member_joined
    then Option.map (λ n. member_joined n e) (parse_member_joined payload)
    else if code == Codes.member_left
    then Option.map (λ n. member_left n e) (parse_member_left payload)
    else if code == Codes.session_closed
    then some (reset_session e)
    else some e

pub handle_notification : Bytes → Engine → Option Engine
handle_notification [] e = some e
handle_notification (code ∷ rest) e = handle_code code (code ∷ rest) e

-- pending_operations_.erase
pub remove : ℕ → List ℕ → List ℕ
remove x [] = []
remove x (y ∷ ys) = if y == x then remove x ys else y ∷ remove x ys

unfoldable pub forget : ℕ → Engine → Engine
forget operation_id e = record e {
  manager = record e.manager { pending_operations = remove operation_id e.pending_operations };
}

-- The canvas and the writer after an operation that was applied under the number `seq`.
abbrev pub with_applied : DrawOperation → Canvas × ℕ → Engine → Engine
with_applied op (surface, seq) e = record e {
  surface = surface;
  files = enqueue_if_auto_save (record op { seq = seq }) e.files;
}

module _ (env : Environment) where
  pub host_draw : Client → DrawOperation → Engine → Option Engine
  host_draw c op e =
      if not (is_ok (validate_draw_operation op false))
      then some e
      else if not (op.operation_id == 0) && contains_operation op.operation_id e.surface
      then some e
      else let applied = apply env.paint e.surface op in
        Option.map set_dirty
          (tell env c (Call.draw_raw (record op { seq = applied.1 })) (with_applied op applied e))

  pub member_draw : Client → DrawOperation → Engine → Option Engine
  member_draw c op e =
      if op.seq == 0
      then some e
      else if ltb (next_sequence e.surface) op.seq
      then tell env c Call.canvas_state_request e
      else if ltb op.seq (next_sequence e.surface)
      then some e
      else some (set_dirty (with_applied op (apply env.paint e.surface op) e))

  pub receive_draw : DrawOperation → Engine → Option Engine
  receive_draw op e = elim e.client [
    | none ↦ some (forget op.operation_id e)
    | some c ↦
        if c.host
        then host_draw c op (forget op.operation_id e)
        else member_draw c op (forget op.operation_id e)
  ]

  pub handle_draw : Bytes → Engine → Option Engine
  handle_draw payload e =
      Option.bind (parse_draw_operation payload)
        λ op_res. if is_ok op_res then receive_draw op_res.value e else some e

  load_state : Result (List DrawOperation) → Engine → Engine
  load_state state_res e =
      if is_ok state_res
      then record e {
        surface = load env.paint e.surface state_res.value;
        files = mark_synced_for_save e.files;
        dirty = true;
      }
      else e

  pub handle_canvas_state : Bytes → Engine → Option Engine
  handle_canvas_state payload e =
      Option.map (λ state_res. load_state state_res e) (parse_canvas_state payload)

  created : Result CreateAckMessage → Engine → Engine
  created ack e =
      if is_ok ack && ack.value.ack_code == Codes.create_ok
      then record e {
        manager = record e.manager {
          client =
              Option.map (set_session_info ack.value.member_id ack.value.session_id true) e.client;
          member_id = ack.value.member_id;
          members = assign ack.value.member_id app_name e.members;
          session_id = ack.value.session_id;
          hosting = true;
          in_session = true;
          joining_state = JoiningState.in_session;
        };
      }
      else e

  -- client_->request_canvas_state()
  unfoldable pub request_state : Engine → Option Engine
  request_state e = elim e.client [
    | none ↦ some e
    | some c ↦ tell env c Call.canvas_state_request e
  ]

  joined : Result JoinAckMessage → Engine → Option Engine
  joined ack e =
      if is_ok ack && ack.value.ack_code == Codes.join_ok
      then request_state (record e {
        manager = record e.manager {
          client = Option.map (set_session_info ack.value.member_id e.session_id false) e.client;
          member_id = ack.value.member_id;
          members = assign ack.value.member_id app_name e.members;
          hosting = false;
          in_session = true;
          joining_state = JoiningState.in_session;
        };
      })
      else some e

  left : Engine → Engine
  left e = record e {
    manager = record e.manager {
      client = Option.map mark_session_closed e.client;
      in_session = false;
      session_id = 0;
      member_id = 0;
      hosting = false;
      joining_state = JoiningState.none;
    };
  }

  acknowledge : JoiningState → Bytes → Engine → Option Engine
  acknowledge creating payload e = Option.map (λ ack. created ack e) (parse_create_ack payload)
  acknowledge joining payload e = Option.bind (parse_join_ack payload) λ ack. joined ack e
  acknowledge leaving payload e = some (left e)
  acknowledge closing payload e = some (left e)
  acknowledge JoiningState.none payload e = some e
  acknowledge in_session payload e = some e

  pub handle_ack : Bytes → Engine → Option Engine
  handle_ack payload e = acknowledge e.joining_state payload e

  pub handle_error : Bytes → Engine → Option Engine
  handle_error payload e =
      Option.map (λ err. if is_ok err then clear_joining_state e else e) (parse_error payload)

  share_canvas : Client → Engine → Option Engine
  share_canvas c e =
      if c.host then tell env c (Call.canvas_state (snapshot e.surface)) e else some e

  -- The switch over the opcode.
  pub handle_message : Client → Message → Engine → Option Engine
  handle_message c msg e =
      if msg.header.opcode == Opcode.notification
      then handle_notification msg.payload e
      else if msg.header.opcode == Opcode.draw
      then handle_draw msg.payload e
      else if msg.header.opcode == Opcode.canvas_clear
      then handle_clear env e
      else if msg.header.opcode == Opcode.canvas_state
      then handle_canvas_state msg.payload e
      else if msg.header.opcode == Opcode.ack
      then handle_ack msg.payload e
      else if msg.header.opcode == Opcode.error_msg
      then handle_error msg.payload e
      else if msg.header.opcode == Opcode.canvas_state_request
      then share_canvas c e
      else some e

  -- A failed receive resets the session, unless the loop was asked to stop.
  receive_failed : Engine → Engine
  receive_failed e =
      if e.net.stop_poll
      then e
      else let e' = reset_session e in
        record e' {
          net = record e'.net { connected = false; state = ConnectionState.disconnected };
        }

  -- A round of poll_session. The second part says whether the loop goes on.
  poll_with : Option Client → Result Message → Engine → Option (Engine × Bool)
  poll_with none msg_res e = some (e, true)
  poll_with (some c) msg_res e =
      if is_ok msg_res
      then Option.map (λ e'. (e', true)) (handle_message c msg_res.value e)
      else some (receive_failed e, false)

  pub poll_round : Result Message → Engine → Option (Engine × Bool)
  poll_round msg_res e = poll_with e.client msg_res e
