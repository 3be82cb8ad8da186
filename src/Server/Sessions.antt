-- ===== src/Server/Sessions.antt =====
-- What CREATE, JOIN, LEAVE and CLOSE_SESSION make of the sessions, and who is told.
use sketch_sync.Prelude.{
  ℕ, ◌+◌, ◌≡◌, refl, sym, ap, ◌∙◌, true, some, none, List, [], ◌∷◌, ◌++◌, ==_refl, append-nil,
  append_assoc,
}
use sketch_sync.Results.{ok}
use sketch_sync.Bytes.{Bytes, u32, IsU32}
use sketch_sync.Assoc.{
  Assoc, lookup, assign, keys, erase, lookup-assign, emplace_cases, erase-emplace,
}
use sketch_sync.Protocol.Opcode
use sketch_sync.Protocol.Codes
use sketch_sync.Protocol.Frame.{serialize_message-layout}
use sketch_sync.Protocol.Session.{JoinMessage, JoinAckMessage}
use sketch_sync.Protocol.Replies.{MemberJoinedNotification}
use sketch_sync.Protocol.Session.RoundTrip.{
  name_layout, sent_name, join_layout, parse_create-layout, parse_join-layout, create_ack_layout,
  join_ack_layout, serialize_create_ack-layout, serialize_join_ack-layout,
}
use sketch_sync.Protocol.Replies.RoundTrip.{member_joined_layout, serialize_member_joined-layout}
use sketch_sync.Server.State.{
  Member, MemberRole, SessionState, Session, ClientContext, Server, ◌>>=◌, send, is_open,
  take_session_id, take_member_id, register_connection, discovery_lookup,
}
use sketch_sync.Server.Sending.{message}
use sketch_sync.Server.Handlers.{new_session, joined, handle_create, handle_join}
use sketch_sync.Server.Dispatch.{on_create, on_join, members_of, send_members}
use sketch_sync.Server.Frames.{frame, with_sent, deliveries, send_notification-sent}

-- The state after a CREATE on the connection.
unfoldable pub created : Bytes → ℕ → Server → Server
created name conn s = record s {
  sessions =
      assign s.next_session_id
        (record {
          session_id = s.next_session_id;
          host_id = s.next_member_id;
          state = SessionState.opened;
          members =
              (
                s.next_member_id,
                record {
                  id = s.next_member_id;
                  name = name;
                  role = MemberRole.host;
                  session_id = s.next_session_id;
                },
              )
              ∷ [];
        })
        s.sessions;
  connections = assign s.next_member_id conn s.connections;
  next_session_id = u32 (s.next_session_id + 1);
  next_member_id = u32 (s.next_member_id + 1);
  sent =
      s.sent
      ++ (
        conn,
        frame Opcode.ack (
            create_ack_layout (record {
              ack_code = Codes.create_ok;
              session_id = s.next_session_id;
              member_id = s.next_member_id;
            })),
      )
        ∷ [];
}

-- A CREATE on a server whose next session id is unused opens a session under that id, with the sender as
-- its host and only member, under the name that the length byte counts, registers the connection, and
-- acknowledges with both ids.
pub on_create-created :
    (name : Bytes) (ctx : ClientContext) (conn : ℕ) (s : Server)
    → lookup s.next_session_id s.sessions ≡ none
    → on_create (name_layout name) ctx conn s
      ≡ some (
        record { member_id = s.next_member_id; session_id = s.next_session_id },
        created (sent_name name) conn s,
      )
unfolding on_create handle_create created take_session_id take_member_id register_connection send
    ◌>>=◌
on_create-created name ctx conn s new =
    rw
      (
        parse_create-layout name,
        ◌>>=◌,
        new,
        serialize_create_ack-layout (record {
          ack_code = Codes.create_ok;
          session_id = s.next_session_id;
          member_id = s.next_member_id;
        }),
        serialize_message-layout (
            message Opcode.ack (
              create_ack_layout (record {
                ack_code = Codes.create_ok;
                session_id = s.next_session_id;
                member_id = s.next_member_id;
              }))),
      )
      refl

-- What discovery answers after it: the session is found at the server's TCP port.
pub created-discovery :
    (name : Bytes) (conn : ℕ) (s : Server)
    → discovery_lookup (created name conn s) s.next_session_id ≡ some s.tcp_port
unfolding created discovery_lookup
created-discovery name conn s =
    rw
      (
        discovery_lookup,
        lookup-assign s.next_session_id s.next_session_id
            (new_session s.next_session_id s.next_member_id name) s.sessions,
        ==_refl s.next_session_id,
      )
      refl

abbrev pub arrival : ℕ → Bytes → MemberJoinedNotification
arrival member_id name = record {
  notif_code = Codes.member_joined;
  member_id = member_id;
  name = name;
}

abbrev pub arrival_frame : ℕ → Bytes → Bytes
arrival_frame member_id name =
    frame Opcode.notification (member_joined_layout (arrival member_id name))

abbrev pub admission : ℕ → JoinAckMessage
admission member_id = record { ack_code = Codes.join_ok; member_id = member_id }

-- The frames that tell a joining client of the members.
pub introductions : Assoc Member → ℕ → List (ℕ × Bytes)
introductions [] conn = []
introductions ((id, m) ∷ ms) conn = (conn, arrival_frame m.id m.name) ∷ introductions ms conn

send_members-sent :
    (ms : Assoc Member) (conn : ℕ) (s : Server)
    → send_members ms conn s ≡ some (tt, with_sent s (introductions ms conn))
unfolding send_members introductions send ◌>>=◌
send_members-sent [] conn s = ap (λ l. some (tt, record s { sent = l })) (sym (append-nil s.sent))
send_members-sent ((id, m) ∷ ms) conn s =
    rw
      (
        serialize_member_joined-layout (arrival m.id m.name),
        ◌>>=◌,
        serialize_message-layout
            (message Opcode.notification (member_joined_layout (arrival m.id m.name))),
      )
      (send_members-sent ms conn (with_sent s ((conn, arrival_frame m.id m.name) ∷ []))
        ∙ ap (λ l. some (tt, record s { sent = l }))
            (append_assoc s.sent ((conn, arrival_frame m.id m.name) ∷ []) (introductions ms conn)))

-- A member as a JOIN makes it.
abbrev pub participant : ℕ → ℕ → Bytes → Member
participant session_id member_id name = record {
  id = member_id;
  name = name;
  role = MemberRole.participant;
  session_id = session_id;
}

-- The state after a JOIN of a session on the connection.
unfoldable pub admitted : ℕ → Bytes → Session → ℕ → Server → Server
admitted session_id name sess conn s =
    let member_id = s.next_member_id in
    let sess' : Session = record sess {
      members = elim (lookup member_id sess.members) [
        | none ↦ sess.members ++ (member_id, participant session_id member_id name) ∷ []
        | some m ↦ sess.members
      ];
    } in
    record s {
      sessions = assign session_id sess' s.sessions;
      connections = assign member_id conn s.connections;
      next_member_id = u32 (member_id + 1);
      sent =
          ((s.sent
              ++ deliveries s.connections (keys (erase member_id sess.members))
                  (arrival_frame member_id name))
            ++ introductions sess'.members conn)
          ++ (conn, frame Opcode.ack (join_ack_layout (admission member_id))) ∷ [];
    }

handle_join-joined :
    (session_id : ℕ) (name : Bytes) (ctx : ClientContext) (s : Server) (sess : Session)
    → lookup session_id s.sessions ≡ some sess
    → is_open sess.state ≡ true
    → let sess' = joined sess session_id s.next_member_id name in
      handle_join session_id name ctx s
      ≡ some (
        (ok true, record { member_id = s.next_member_id; session_id = session_id }),
        record s {
          sessions = assign session_id sess' s.sessions;
          next_member_id = u32 (s.next_member_id + 1);
          sent =
              s.sent
              ++ deliveries s.connections
                  (keys (erase s.next_member_id sess.members))
                  (arrival_frame s.next_member_id name);
        },
      )
unfolding handle_join take_member_id ◌>>=◌
handle_join-joined session_id name ctx s sess found open_ =
    rw
      (
        found,
        open_,
        ◌>>=◌,
        serialize_member_joined-layout (arrival s.next_member_id name),
        sym (
            erase-emplace s.next_member_id (participant session_id s.next_member_id name)
              sess.members),
        send_notification-sent (joined sess session_id s.next_member_id name) Opcode.notification
            (member_joined_layout (arrival s.next_member_id name)) s.next_member_id
            (record s {
              sessions =
                  assign session_id (joined sess session_id s.next_member_id name) s.sessions;
              next_member_id = u32 (s.next_member_id + 1);
            }),
      )
      refl

pub on_join-joined :
    (m : JoinMessage) (ctx : ClientContext) (conn : ℕ) (s : Server) (sess : Session)
    → IsU32 m.session_id
    → lookup m.session_id s.sessions ≡ some sess
    → is_open sess.state ≡ true
    → on_join (join_layout m) ctx conn s
      ≡ some (
        record { member_id = s.next_member_id; session_id = m.session_id },
        admitted m.session_id (sent_name m.name) sess conn s,
      )
unfolding on_join admitted register_connection send members_of ◌>>=◌
on_join-joined m ctx conn s sess h found open_ =
    let sess' = joined sess m.session_id s.next_member_id (sent_name m.name) in
    let ack = admission s.next_member_id in
    rw
      (
        parse_join-layout m h,
        ◌>>=◌,
        handle_join-joined m.session_id (sent_name m.name) ctx s sess found open_,
        lookup-assign m.session_id m.session_id sess' s.sessions,
        ==_refl m.session_id,
        send_members-sent,
        serialize_join_ack-layout ack,
        serialize_message-layout (message Opcode.ack (join_ack_layout ack)),
        emplace_cases s.next_member_id
            (participant m.session_id s.next_member_id (sent_name m.name)) sess.members,
      )
      refl
