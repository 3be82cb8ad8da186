-- ===== src/Server/Soundness.antt =====
-- Every handler returns, and leaves the sessions as the invariant wants them.
pub mod Drawing
pub mod Dispatch
use sketch_sync.Prelude.{
  ℕ, ◌≡◌, refl, sym, ap, ◌∙◌, Bool, true, false, not, Option, some, none, List, [], ◌∷◌, ◌==◌,
  if◌then◌else◌, ◌||◌, arith, length,
}
use sketch_sync.Results.{Result, ok, is_ok, text}
use sketch_sync.Bytes.{Bytes, u8}
use sketch_sync.Assoc.{Assoc, lookup, erase, keys}
use sketch_sync.Protocol.{serialize_message}
use sketch_sync.Protocol.Opcode
use sketch_sync.Protocol.Codes
use sketch_sync.Protocol.Frame.{serialize_message-layout}
use sketch_sync.Protocol.Replies.RoundTrip.{
  serialize_member_joined-layout, serialize_member_left-layout, serialize_session_closed-layout,
}
use sketch_sync.Protocol.CanvasState.{parse_canvas_state}
use sketch_sync.Protocol.CanvasState.RoundTrip.{parse_canvas_state-total}
use sketch_sync.DrawOperation.{
  DrawOperation, serialize_draw_operation, parse_draw_operation, validate_draw_operation,
}
use sketch_sync.DrawOperation.Codec.{
  operation_layout, parse_draw_operation-total, serialize_draw_operation-layout,
}
use sketch_sync.DrawOperation.Validity.{validate_iff}
use sketch_sync.Server.State.{
  Session, ClientContext, Server, Step, pure, ◌>>=◌, ◌>>◌, lift, gets, take_member_id, send,
  is_host, is_open,
}
use sketch_sync.Server.Sending.{message, send_ack, send_error, send_to, send_notification}
use sketch_sync.Server.Handlers.{
  is_empty, not_in_session, new_session, joined, without, handle_create, handle_join, close_session,
  finish_leave, handle_leave, handle_close_session, with_session, handle_canvas_state_request,
  handle_canvas_state, forward_draw, broadcast_draw, handle_draw, handle_canvas_clear,
}
use sketch_sync.Server.Frames.{send_ack-sent, send_error-sent, send_to-sent, send_notification-sent}
use sketch_sync.Server.Invariant.{
  IsSession, IsSound, assign-IsSound, erase-IsSound, new_session-IsSession, joined-IsSession,
  without-IsSession, found-IsSession,
}
use sketch_sync.Server.Rules.{
  Runs, Runs->>=, Runs-lift, Runs-gets, Runs-pure, Runs-if, Runs-is, Runs-option,
}

abbrev pub Sound {ℓ} : {A : Type ℓ} → A → Server → Type 0
Sound a s = IsSound s.sessions

-- Two steps that each keep the invariant.
pub Sound->>= :
    {A B : Type 0} {m : Step A} {s : Server} (f : A → Step B)
    → Runs m s Sound
    → ((a : A) (s' : Server) → IsSound s'.sessions → Runs (f a) s' Sound)
    → Runs (m >>= f) s Sound
Sound->>= f r k = Runs->>= {P = Sound} f r k

module _ (s : Server) (v : IsSound s.sessions) where
  pub send_error-Sound : (conn code : ℕ) (words : Bytes) → Runs (send_error conn code words) s Sound
  send_error-Sound conn code words = Runs-is (send_error-sent conn code words s) v

  pub send_ack-Sound : (conn code : ℕ) (words : Bytes) → Runs (send_ack conn code words) s Sound
  send_ack-Sound conn code words = Runs-is (send_ack-sent conn code words s) v

  pub send_to-Sound : (ids : List ℕ) (bytes : Bytes) → Runs (send_to ids bytes) s Sound
  send_to-Sound ids bytes = Runs-is (send_to-sent ids bytes s) v

  pub send_notification-Sound :
      (sess : Session) (opcode : ℕ) (payload : Bytes) (exclude_id : ℕ)
      → Runs (send_notification sess opcode payload exclude_id) s Sound
  send_notification-Sound sess opcode payload exclude_id =
      Runs-is (send_notification-sent sess opcode payload exclude_id s) v

  -- A frame that is sent to one connection.
  pub send_message-Sound :
      (opcode : ℕ) (payload : Bytes) (conn : ℕ)
      → Runs
          (lift (serialize_message (message opcode payload)) >>= λ bytes. send conn bytes)
          s
          Sound
  unfolding send
  send_message-Sound opcode payload conn =
      Runs-lift _ (serialize_message-layout (message opcode payload)) (Runs-is refl v)

  pub take_member_id-Sound : Runs take_member_id s Sound
  unfolding take_member_id
  take_member_id-Sound = Runs-is refl v

pub handle_create-Sound :
    (session_id : ℕ) (name : Bytes) (ctx : ClientContext) (s : Server)
    → IsSound s.sessions
    → Runs (handle_create session_id name ctx) s Sound
unfolding handle_create
handle_create-Sound session_id name ctx s v =
    Sound->>= _ (take_member_id-Sound s v) λ member_id s' v'. Runs-gets _ _ (
      Runs-option (lookup session_id s'.sessions)
        (λ _.
          Sound->>= _
            (Runs-is refl (
              assign-IsSound session_id (new_session session_id member_id name) s'.sessions
                (new_session-IsSession session_id member_id name) v'))
            (λ _ t w. Runs-pure _ w))
        (λ old _. Runs-pure _ v'))

pub handle_join-Sound :
    (session_id : ℕ) (name : Bytes) (ctx : ClientContext) (s : Server)
    → IsSound s.sessions
    → Runs (handle_join session_id name ctx) s Sound
unfolding handle_join
handle_join-Sound session_id name ctx s v =
    Sound->>= _ (take_member_id-Sound s v) λ member_id s' v'. Runs-gets _ _ (
      Runs-option (lookup session_id s'.sessions) (λ _. Runs-pure _ v')
        (λ sess found.
          Runs-if (not (is_open sess.state)) (λ _. Runs-pure _ v')
            λ _.
              Sound->>= _
                (Runs-is refl (
                  assign-IsSound session_id (joined sess session_id member_id name) s'.sessions
                    (joined-IsSession session_id sess member_id name
                      (found-IsSession s'.sessions v' found))
                    v'))
                λ _ t w.
                  Runs-lift _ (serialize_member_joined-layout _) (
                    Sound->>= _ (send_notification-Sound t w _ _ _ _) (λ _ t' w'. Runs-pure _ w'))))

close_session-Sound :
    (sess : Session) (ctx : ClientContext) (s : Server)
    → IsSound s.sessions
    → Runs (close_session sess ctx) s Sound
unfolding close_session
close_session-Sound sess ctx s v =
    Runs-lift _ (serialize_session_closed-layout Codes.session_closed) (
      Runs-lift _ (serialize_message-layout _) (
        Sound->>= _ (send_to-Sound s v _ _)
          λ _ t w. Runs-is refl (erase-IsSound ctx.session_id t.sessions w)))

-- The session that stays holds the invariant unless it is closed.
finish_leave-Sound :
    (sess : Session) (was_host : Bool) (ctx : ClientContext) (name : Bytes) (s : Server)
    → (was_host ≡ false → IsSession ctx.session_id sess)
    → IsSound s.sessions
    → Runs (finish_leave sess was_host ctx name) s Sound
unfolding finish_leave
finish_leave-Sound sess was_host ctx name s h v =
    Runs-if (was_host || is_empty sess.members) (λ _. close_session-Sound sess ctx s v)
      λ e.
        Sound->>= _
          (Runs-is refl (assign-IsSound ctx.session_id sess s.sessions (h (ground arith)) v))
          λ _ t w.
            Runs-lift _ (serialize_member_left-layout _) (send_notification-Sound t w _ _ _ _)

pub handle_leave-Sound :
    (ctx : ClientContext) (s : Server) → IsSound s.sessions → Runs (handle_leave ctx) s Sound
unfolding handle_leave
handle_leave-Sound ctx s v =
    Runs-if (ctx.member_id == 0) (λ _. Runs-pure _ v)
      λ _. Runs-gets _ _ (
        Runs-option (lookup ctx.session_id s.sessions) (λ _. Runs-pure _ v)
          λ sess found.
            Sound->>= _
              (finish_leave-Sound (without sess ctx.member_id) (is_host sess ctx.member_id) ctx _ s
                (without-IsSession ctx.session_id sess ctx.member_id
                  (found-IsSession s.sessions v found))
                v)
              (λ _ t w. Runs-pure _ w))

pub handle_close_session-Sound :
    (ctx : ClientContext) (s : Server)
    → IsSound s.sessions
    → Runs (handle_close_session ctx) s Sound
unfolding handle_close_session
handle_close_session-Sound ctx s v =
    Runs-if (ctx.member_id == 0) (λ _. Runs-pure _ v)
      λ _. Runs-gets _ _ (
        Runs-option (lookup ctx.session_id s.sessions) (λ _. Runs-pure _ v)
          λ sess found.
            Runs-if (not (is_host sess ctx.member_id)) (λ _. Runs-pure _ v)
              λ _. handle_leave-Sound ctx s v)
