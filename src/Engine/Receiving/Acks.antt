-- ===== src/Engine/Receiving/Acks.antt =====
-- handle_ack while a session is being created or joined, on the acknowledgements that the server sends.
use sketch_sync.Prelude.{
  ℕ, ◌≡◌, refl, ap, ◌∙◌, Bool, true, false, none, some, List, [], ◌∷◌, ◌++◌, arith,
}
use mathlib.Core.Option
use sketch_sync.Bytes.{Bytes, IsU32}
use sketch_sync.Assoc.{assign, lookup}
use sketch_sync.Protocol.Opcode
use sketch_sync.Protocol.Codes
use sketch_sync.Protocol.Session.{CreateAckMessage, JoinAckMessage}
use sketch_sync.Protocol.Session.RoundTrip.{
  name_layout, join_layout, sent_name, create_ack_layout, join_ack_layout, parse_create_ack-layout,
  parse_join_ack-layout,
}
use sketch_sync.Server.State.{ClientContext, Server, Session, is_open}
use sketch_sync.Server.Dispatch.{on_create, on_join}
use sketch_sync.Server.Frames.{frame}
use sketch_sync.Server.Sessions.{created, admitted, on_create-created, on_join-joined}
use sketch_sync.Client.{Client}
use sketch_sync.Engine.{Engine, Environment, JoiningState, Call, app_name}
use sketch_sync.Engine.Calls.{with_call}
use sketch_sync.Engine.Calls.Sending.{tell_lem}
use sketch_sync.Engine.Receiving
use sketch_sync.Engine.Receiving.{handle_ack, acknowledge}

-- The engine and its client as the members of a session.
abbrev pub entered : Bool → ℕ → ℕ → Engine → Engine
entered host session_id member_id e = record e {
  manager = record e.manager {
    client = some (record { member_id = member_id; session_id = session_id; host = host });
    member_id = member_id;
    members = assign member_id app_name e.members;
    session_id = session_id;
    hosting = host;
    in_session = true;
    joining_state = JoiningState.in_session;
  };
}

-- The engine has what the server's context has, and so does its client.
pub record Shares (ctx : ClientContext) (host : Bool) (e : Engine) : Type 0 where
  pub client :
      e.client
      ≡ some (record { member_id = ctx.member_id; session_id = ctx.session_id; host = host })
  pub session : e.session_id ≡ ctx.session_id
  pub member : e.member_id ≡ ctx.member_id
  pub role : e.hosting ≡ host
  pub inside : e.in_session ≡ true
  pub state : e.joining_state ≡ JoiningState.in_session

abbrev create_ack : ℕ → ℕ → Bytes
create_ack session_id member_id =
    create_ack_layout
      (record { ack_code = Codes.create_ok; session_id = session_id; member_id = member_id })

abbrev join_ack : ℕ → Bytes
join_ack member_id = join_ack_layout (record { ack_code = Codes.join_ok; member_id = member_id })

module _ (env : Environment) (c : Client) (e : Engine) (attached : e.client ≡ some c) where
  handle_ack-created :
      (session_id member_id : ℕ)
      → e.joining_state ≡ JoiningState.creating
      → IsU32 session_id
      → IsU32 member_id
      → handle_ack env (create_ack session_id member_id) e
        ≡ some (entered true session_id member_id e)
  unfolding handle_ack acknowledge Receiving.created
  handle_ack-created session_id member_id state h k =
      let payload = create_ack session_id member_id in
      let ack : CreateAckMessage = record {
        ack_code = Codes.create_ok;
        session_id = session_id;
        member_id = member_id;
      } in
      ap (λ st. acknowledge env st payload e) state
      ∙ rw
          (
            parse_create_ack-layout ack
                (record { ack_code = omega arith; session_id = h; member_id = k }),
            attached,
          )
          refl

  handle_ack-joined :
      (member_id : ℕ)
      → e.joining_state ≡ JoiningState.joining
      → IsU32 member_id
      → handle_ack env (join_ack member_id) e
        ≡ some (
            with_call
              (record { member_id = member_id; session_id = e.session_id; host = false })
              Call.canvas_state_request
              (entered false e.session_id member_id e))
  unfolding handle_ack acknowledge Receiving.joined Receiving.request_state Option.bind
  handle_ack-joined member_id state h =
      let payload = join_ack member_id in
      let ack : JoinAckMessage = record { ack_code = Codes.join_ok; member_id = member_id } in
      let c' : Client = record { member_id = member_id; session_id = e.session_id; host = false } in
      ap (λ st. acknowledge env st payload e) state
      ∙ rw
          (
            parse_join_ack-layout ack (record { ack_code = omega arith; member_id = h }),
            attached,
            tell_lem env c' Call.canvas_state_request (entered false e.session_id member_id e) tt,
          )
          refl

  -- A client that waits for the answer to its CREATE, and a server whose next session id is unused: the
  -- server's handler returns and its last frame goes to that connection, an ACK that handle_ack turns
  -- into the host's part of the session. The client, its session manager and the server's context of the
  -- connection then have one session id and one member id. The server's counters have 32 bits.
  pub create-acknowledged :
      (name : Bytes) (ctx : ClientContext) (conn : ℕ) (s : Server)
      → e.joining_state ≡ JoiningState.creating
      → lookup s.next_session_id s.sessions ≡ none
      → IsU32 s.next_session_id
      → IsU32 s.next_member_id
      → (ctx' : ClientContext) × (s' : Server) × (on_create (name_layout name) ctx conn s
          ≡ some (ctx', s'))
        × (before : List (ℕ × Bytes)) × (payload : Bytes) × (s'.sent
            ≡ before ++ (conn, frame Opcode.ack payload) ∷ [])
        × (e' : Engine) × (handle_ack env payload e ≡ some e')
        × Shares ctx' true e'
  unfolding created
  create-acknowledged name ctx conn s state new h k = (
    record { member_id = s.next_member_id; session_id = s.next_session_id },
    created (sent_name name) conn s,
    on_create-created name ctx conn s new,
    s.sent,
    create_ack s.next_session_id s.next_member_id,
    refl,
    entered true s.next_session_id s.next_member_id e,
    handle_ack-created s.next_session_id s.next_member_id state h k,
    record {
      client = refl;
      session = refl;
      member = refl;
      role = refl;
      inside = refl;
      state = refl;
    },
  )

  -- A client that waits for the answer to its JOIN, and a server on which the session is open: the
  -- server's handler returns and its last frame goes to that connection, an ACK that handle_ack turns
  -- into a member's part of the session. The client, its session manager and the server's context of the
  -- connection then have one session id and one member id, and the last call of the client is for the
  -- canvas of the host. The session id and the server's counter have 32 bits.
  pub join-acknowledged :
      (name : Bytes) (ctx : ClientContext) (conn : ℕ) (s : Server) (sess : Session)
      → e.joining_state ≡ JoiningState.joining
      → IsU32 e.session_id
      → lookup e.session_id s.sessions ≡ some sess
      → is_open sess.state ≡ true
      → IsU32 s.next_member_id
      → (ctx' : ClientContext) × (s' : Server) × (on_join
            (join_layout (record { session_id = e.session_id; name = name }))
            ctx
            conn
            s
          ≡ some (ctx', s'))
        × (before : List (ℕ × Bytes)) × (payload : Bytes) × (s'.sent
            ≡ before ++ (conn, frame Opcode.ack payload) ∷ [])
        × (e' : Engine) × (handle_ack env payload e ≡ some e')
        × Shares ctx' false e'
        × (c' : Client) × (e'.client ≡ some c')
        × (e'.calls ≡ e.calls ++ (c', Call.canvas_state_request) ∷ [])
  unfolding admitted
  join-acknowledged name ctx conn s sess state h found open_ k =
      let c' : Client = record {
        member_id = s.next_member_id;
        session_id = e.session_id;
        host = false;
      } in
      (
        record { member_id = s.next_member_id; session_id = e.session_id },
        admitted e.session_id (sent_name name) sess conn s,
        on_join-joined (record { session_id = e.session_id; name = name }) ctx conn s sess h found
            open_,
        _,
        join_ack s.next_member_id,
        refl,
        with_call c' Call.canvas_state_request (entered false e.session_id s.next_member_id e),
        handle_ack-joined s.next_member_id state k,
        record {
          client = refl;
          session = refl;
          member = refl;
          role = refl;
          inside = refl;
          state = refl;
        },
        c',
        refl,
        refl,
      )
