-- ===== src/Server/Soundness/Dispatch.antt =====
-- dispatch and the end of a connection: they return and keep the sessions.
use sketch_sync.Prelude.{ℕ, refl, not, [], ◌∷◌, ◌==◌}
use sketch_sync.Results.{is_ok}
use sketch_sync.Bytes.{Bytes}
use sketch_sync.Assoc.{Assoc, lookup}
use sketch_sync.Protocol.{serialize_message}
use sketch_sync.Protocol.Opcode
use sketch_sync.Protocol.Codes
use sketch_sync.Protocol.Frame.{serialize_message-layout}
use sketch_sync.Protocol.Replies.RoundTrip.{member_joined_layout, serialize_member_joined-layout}
use sketch_sync.Server.State.{ClientContext, Server, Step, pure, ◌>>=◌, ◌>>◌, lift, send}
use sketch_sync.Server.Sending.{message}
use sketch_sync.Server.Invariant.{IsSound}
use sketch_sync.Server.Rules.{Runs, Runs-lift, Runs-gets, Runs-pure, Runs-if, Runs-is}
use sketch_sync.Protocol.{Header}
use sketch_sync.Protocol.Session.RoundTrip.{
  parse_create-total, parse_join-total, create_ack_layout, join_ack_layout,
  serialize_create_ack-layout, serialize_join_ack-layout,
}
use sketch_sync.Server.State.{Member, take_session_id, register_connection, unregister_connection}
use sketch_sync.Server.Dispatch.{
  on_create, on_join, on_leave, on_close_session, dispatch, disconnect, members_of, send_members,
}
use sketch_sync.Server.Soundness.{
  Sound, Sound->>=, send_error-Sound, send_ack-Sound, send_message-Sound, handle_create-Sound,
  handle_join-Sound, handle_leave-Sound, handle_close_session-Sound,
}
use sketch_sync.Server.Soundness.Drawing.{
  handle_canvas_state_request-Sound, handle_canvas_state-Sound, handle_draw-Sound,
  handle_canvas_clear-Sound,
}

-- A step, and then the context.
then_pure :
    {A : Type 0} {m : Step (Unit {0})} {s : Server} (a : A)
    → Runs m s Sound
    → Runs (m >> pure a) s Sound
then_pure a r = Sound->>= _ r (λ _ t w. Runs-pure a w)

module _ (s : Server) (v : IsSound s.sessions) where
  take_session_id-Sound : Runs take_session_id s Sound
  unfolding take_session_id
  take_session_id-Sound = Runs-is refl v

  register_connection-Sound :
      (member_id conn : ℕ) → Runs (register_connection member_id conn) s Sound
  unfolding register_connection
  register_connection-Sound member_id conn = Runs-is refl v

  unregister_connection-Sound : (member_id : ℕ) → Runs (unregister_connection member_id) s Sound
  unfolding unregister_connection
  unregister_connection-Sound member_id = Runs-is refl v

  -- The frame that ends a successful request.
  acknowledge-Sound :
      (ack : Bytes) (conn : ℕ) (ctx : ClientContext)
      → Runs
          (lift (serialize_message (message Opcode.ack ack)) >>= λ bytes.
            send conn bytes >> pure ctx)
          s
          Sound
  unfolding send
  acknowledge-Sound ack conn ctx =
      Runs-lift _ (serialize_message-layout (message Opcode.ack ack))
        (then_pure {m = send conn _} ctx (Runs-is refl v))

on_create-Sound :
    (payload : Bytes) (ctx : ClientContext) (conn : ℕ) (s : Server)
    → IsSound s.sessions
    → Runs (on_create payload ctx conn) s Sound
unfolding on_create
on_create-Sound payload ctx conn s v =
    let (r, e) = parse_create-total payload in
    Runs-lift _ e (
      Runs-if (not (is_ok r)) (λ _. then_pure ctx (send_error-Sound s v _ _ _))
        λ _. Sound->>= _ (take_session_id-Sound s v) λ id t w.
          Sound->>= _ (handle_create-Sound id r.value ctx t w) λ out t' w'.
            Runs-if (not (is_ok out.0)) (λ _. then_pure out.1 (send_error-Sound t' w' _ _ _))
              λ _. Sound->>= _ (register_connection-Sound t' w' out.1.member_id conn) λ _ u z.
                Runs-lift _ (serialize_create_ack-layout _) (
                  acknowledge-Sound u z
                    (create_ack_layout (record {
                      ack_code = Codes.create_ok;
                      session_id = out.1.session_id;
                      member_id = out.1.member_id;
                    }))
                    conn out.1))

send_members-Sound :
    (members : Assoc Member) (conn : ℕ) (s : Server)
    → IsSound s.sessions
    → Runs (send_members members conn) s Sound
unfolding send_members
send_members-Sound [] conn s v = Runs-pure tt v
send_members-Sound ((id, m) ∷ ms) conn s v =
    Sound->>= _
      (Runs-lift _ (serialize_member_joined-layout _) (
        send_message-Sound s v Opcode.notification
          (member_joined_layout
            (record { notif_code = Codes.member_joined; member_id = m.id; name = m.name }))
          conn))
      (λ _ t w. send_members-Sound ms conn t w)

on_join-Sound :
    (payload : Bytes) (ctx : ClientContext) (conn : ℕ) (s : Server)
    → IsSound s.sessions
    → Runs (on_join payload ctx conn) s Sound
unfolding on_join
on_join-Sound payload ctx conn s v =
    let (r, e) = parse_join-total payload in
    Runs-lift _ e (
      Runs-if (not (is_ok r)) (λ _. then_pure ctx (send_error-Sound s v _ _ _))
        λ _. Sound->>= _ (handle_join-Sound r.value.session_id r.value.name ctx s v) λ out t w.
          Runs-if (not (is_ok out.0)) (λ _. then_pure out.1 (send_error-Sound t w _ _ _))
            λ _. Sound->>= _ (register_connection-Sound t w out.1.member_id conn) λ _ t' w'.
              Runs-gets _ _ (
                Sound->>= _
                  (send_members-Sound (members_of (lookup r.value.session_id t'.sessions)) conn t'
                    w')
                  λ _ u z. Runs-lift _ (serialize_join_ack-layout _) (
                    acknowledge-Sound u z
                      (join_ack_layout
                        (record { ack_code = Codes.join_ok; member_id = out.1.member_id }))
                      conn out.1)))

on_leave-Sound :
    (ctx : ClientContext) (conn : ℕ) (s : Server)
    → IsSound s.sessions
    → Runs (on_leave ctx conn) s Sound
unfolding on_leave
on_leave-Sound ctx conn s v = Sound->>= _ (handle_leave-Sound ctx s v) λ out t w.
    Runs-if (not (is_ok out.0)) (λ _. then_pure out.1 (send_error-Sound t w _ _ _))
      (λ _. then_pure out.1 (send_ack-Sound t w _ _ _))

on_close_session-Sound :
    (ctx : ClientContext) (conn : ℕ) (s : Server)
    → IsSound s.sessions
    → Runs (on_close_session ctx conn) s Sound
unfolding on_close_session
on_close_session-Sound ctx conn s v = Sound->>= _ (handle_close_session-Sound ctx s v) λ out t w.
    Runs-if (not (is_ok out.0)) (λ _. then_pure out.1 (send_error-Sound t w _ _ _))
      (λ _. then_pure out.1 (send_ack-Sound t w _ _ _))

-- On a server whose sessions are sound, the dispatch of any message, of any opcode and with any payload,
-- from any connection and context, returns without an access outside a buffer, and leaves the sessions
-- sound: each stands under its own id, is open, and has its host among its members.
pub dispatch-Sound :
    (header : Header) (payload : Bytes) (ctx : ClientContext) (conn : ℕ) (s : Server)
    → IsSound s.sessions
    → Runs (dispatch header payload ctx conn) s Sound
unfolding dispatch
dispatch-Sound header payload ctx conn s v =
    let op = header.opcode in
    Runs-if (op == Opcode.create) (λ _. on_create-Sound payload ctx conn s v)
      λ _.
        Runs-if (op == Opcode.join) (λ _. on_join-Sound payload ctx conn s v)
          λ _.
            Runs-if (op == Opcode.leave) (λ _. on_leave-Sound ctx conn s v)
              λ _.
                Runs-if (op == Opcode.close_session) (λ _. on_close_session-Sound ctx conn s v)
                  λ _.
                    Runs-if (op == Opcode.canvas_state_request)
                      (λ _. then_pure ctx (handle_canvas_state_request-Sound ctx conn s v))
                      λ _.
                        Runs-if (op == Opcode.canvas_state)
                          (λ _. then_pure ctx (handle_canvas_state-Sound payload ctx conn s v))
                          λ _.
                            Runs-if (op == Opcode.draw)
                              (λ _. then_pure ctx (handle_draw-Sound payload ctx conn s v))
                              λ _.
                                Runs-if (op == Opcode.canvas_clear)
                                  (λ _. then_pure ctx (handle_canvas_clear-Sound ctx conn s v))
                                  (λ _. then_pure ctx (send_error-Sound s v _ _ _))

-- On a server whose sessions are sound, the end of any connection returns and leaves them sound.
pub disconnect-Sound :
    (ctx : ClientContext) (s : Server) → IsSound s.sessions → Runs (disconnect ctx) s Sound
unfolding disconnect
disconnect-Sound ctx s v =
    Runs-if (ctx.member_id == 0) (λ _. Runs-pure tt v)
      λ _.
        Sound->>= _ (unregister_connection-Sound s v ctx.member_id)
          λ _ t w. Sound->>= _ (handle_leave-Sound ctx t w) (λ _ t' w'. Runs-pure tt w')
