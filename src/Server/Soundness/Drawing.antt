-- ===== src/Server/Soundness/Drawing.antt =====
-- The handlers of drawing messages: each returns and keeps the sessions.
use sketch_sync.Prelude.{ℕ, ◌≡◌, Bool, true, false, not, some, [], arith}
use sketch_sync.Results.{is_ok}
use sketch_sync.Bytes.{Bytes}
use sketch_sync.Assoc.{lookup}
use sketch_sync.Protocol.Opcode
use sketch_sync.Protocol.Frame.{serialize_message-layout}
use sketch_sync.Protocol.CanvasState.RoundTrip.{parse_canvas_state-total}
use sketch_sync.DrawOperation.{DrawOperation, serialize_draw_operation, validate_draw_operation}
use sketch_sync.DrawOperation.Codec.{
  operation_layout, parse_draw_operation-total, serialize_draw_operation-layout,
}
use sketch_sync.DrawOperation.Validity.{validate_iff}
use sketch_sync.Server.State.{Session, ClientContext, Server, Step, is_host}
use sketch_sync.Server.Handlers.{
  not_in_session, with_session, handle_canvas_state_request, handle_canvas_state, forward_draw,
  broadcast_draw, handle_draw, handle_canvas_clear,
}
use sketch_sync.Server.Invariant.{IsSound}
use sketch_sync.Server.Rules.{Runs, Runs-lift, Runs-gets, Runs-if, Runs-option}
use sketch_sync.Server.Soundness.{
  Sound, send_error-Sound, send_to-Sound, send_notification-Sound, send_message-Sound,
}

with_session-Sound :
    (ctx : ClientContext) (conn : ℕ) (body : Session → Step (Unit {0})) (s : Server)
    → IsSound s.sessions
    → ((sess : Session) → Runs (body sess) s Sound)
    → Runs (with_session ctx conn body) s Sound
unfolding with_session
with_session-Sound ctx conn body s v k = Runs-gets _ _ (
    Runs-option (lookup ctx.session_id s.sessions) (λ _. send_error-Sound s v _ _ _)
      (λ sess _. k sess))

pub handle_canvas_state_request-Sound :
    (ctx : ClientContext) (conn : ℕ) (s : Server)
    → IsSound s.sessions
    → Runs (handle_canvas_state_request ctx conn) s Sound
unfolding handle_canvas_state_request
handle_canvas_state_request-Sound ctx conn s v =
    Runs-if (not_in_session ctx) (λ _. send_error-Sound s v _ _ _)
      λ _. with_session-Sound ctx conn _ s v λ sess. Runs-gets _ _ (
        Runs-option (lookup sess.host_id s.connections) (λ _. send_error-Sound s v _ _ _)
          (λ c _. send_message-Sound s v Opcode.canvas_state_request [] c))

pub handle_canvas_state-Sound :
    (payload : Bytes) (ctx : ClientContext) (conn : ℕ) (s : Server)
    → IsSound s.sessions
    → Runs (handle_canvas_state payload ctx conn) s Sound
unfolding handle_canvas_state
handle_canvas_state-Sound payload ctx conn s v =
    let (r, e) = parse_canvas_state-total payload in
    Runs-if (not_in_session ctx) (λ _. send_error-Sound s v _ _ _)
      λ _. with_session-Sound ctx conn _ s v λ sess.
        Runs-if (not (is_host sess ctx.member_id)) (λ _. send_error-Sound s v _ _ _)
          λ _. Runs-lift _ e (
            Runs-if (not (is_ok r)) (λ _. send_error-Sound s v _ _ _)
              (λ _. send_notification-Sound s v _ _ _ _))

-- A validated operation has few enough points to be written.
serialize_valid :
    (op : DrawOperation) (committed : Bool)
    → not (is_ok (validate_draw_operation op committed)) ≡ false
    → serialize_draw_operation op ≡ some (operation_layout op)
serialize_valid op committed e =
    let valid = (validate_iff op committed).0 (ground arith) in
    serialize_draw_operation-layout op (omega (arith, valid.bounded))

forward_draw-Sound :
    (op : DrawOperation) (sess : Session) (conn : ℕ) (s : Server)
    → IsSound s.sessions
    → Runs (forward_draw op sess conn) s Sound
unfolding forward_draw
forward_draw-Sound op sess conn s v =
    Runs-if (not (is_ok (validate_draw_operation op false))) (λ _. send_error-Sound s v _ _ _)
      λ e. Runs-gets _ _ (
        Runs-option (lookup sess.host_id s.connections) (λ _. send_error-Sound s v _ _ _)
          λ c _.
            Runs-lift _ (serialize_valid op false e)
              (send_message-Sound s v Opcode.draw (operation_layout op) c))

broadcast_draw-Sound :
    (op : DrawOperation) (sess : Session) (ctx : ClientContext) (conn : ℕ) (s : Server)
    → IsSound s.sessions
    → Runs (broadcast_draw op sess ctx conn) s Sound
unfolding broadcast_draw
broadcast_draw-Sound op sess ctx conn s v =
    Runs-if (not (is_ok (validate_draw_operation op true))) (λ _. send_error-Sound s v _ _ _)
      λ e. Runs-lift _ (serialize_valid op true e) (send_notification-Sound s v _ _ _ _)

pub handle_draw-Sound :
    (payload : Bytes) (ctx : ClientContext) (conn : ℕ) (s : Server)
    → IsSound s.sessions
    → Runs (handle_draw payload ctx conn) s Sound
unfolding handle_draw
handle_draw-Sound payload ctx conn s v =
    let (r, e) = parse_draw_operation-total payload in
    Runs-if (not_in_session ctx) (λ _. send_error-Sound s v _ _ _)
      λ _. Runs-lift _ e (
        Runs-if (not (is_ok r)) (λ _. send_error-Sound s v _ _ _)
          λ _. with_session-Sound ctx conn _ s v λ sess.
            Runs-if (not (is_host sess ctx.member_id)) (λ _. forward_draw-Sound _ sess conn s v)
              (λ _. broadcast_draw-Sound _ sess ctx conn s v))

pub handle_canvas_clear-Sound :
    (ctx : ClientContext) (conn : ℕ) (s : Server)
    → IsSound s.sessions
    → Runs (handle_canvas_clear ctx conn) s Sound
unfolding handle_canvas_clear
handle_canvas_clear-Sound ctx conn s v =
    Runs-if (not_in_session ctx) (λ _. send_error-Sound s v _ _ _)
      λ _.
        with_session-Sound ctx conn _ s v
          λ sess. Runs-lift _ (serialize_message-layout _) (send_to-Sound s v _ _)
