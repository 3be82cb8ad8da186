-- ===== src/Server/Departures.antt =====
-- LEAVE and CLOSE_SESSION: who goes, what becomes of the session, and who is told. And what the requests
-- make of a refusal, whose error is `none`.
use sketch_sync.Prelude.{
  Bool-cases, inl, inr, if◌then◌else◌, ℕ, ◌+◌, ◌≡◌, ◌≢◌, refl, true, false, some, none, [], ◌∷◌,
  ◌++◌, ◌==◌, arith, ==_refl,
}
use sketch_sync.Results.{ok, text}
use sketch_sync.Bytes.{Bytes, u8, u32, IsU32}
use sketch_sync.Assoc.{Assoc, lookup, assign, erase, keys, lookup-erase}
use sketch_sync.Protocol.Opcode
use sketch_sync.Protocol.Codes
use sketch_sync.Protocol.Frame.{serialize_message-layout}
use sketch_sync.Protocol.Session.{JoinMessage, JoinAckMessage}
use sketch_sync.Protocol.Session.RoundTrip.{
  join_layout, parse_join-layout, join_ack_layout, serialize_join_ack-layout,
}
use sketch_sync.Protocol.Replies.{MemberLeftNotification}
use sketch_sync.Protocol.Replies.RoundTrip.{
  member_left_layout, serialize_member_left-layout, serialize_session_closed-layout,
}
use sketch_sync.Server.State.{
  Session, ClientContext, Server, ◌>>=◌, send, is_host, take_member_id, register_connection,
  discovery_lookup,
}
use sketch_sync.Server.Sending.{message}
use sketch_sync.Server.Handlers.{
  without, no_context, is_empty, name_of, handle_join, close_session, finish_leave, handle_leave,
  handle_close_session,
}
use sketch_sync.Server.Dispatch.{on_join, on_close_session, members_of, send_members}
use sketch_sync.Server.Frames.{
  frame, with_sent, deliveries, send_ack-sent, send_to-sent, send_notification-sent,
}
use sketch_sync.Server.Invariant.{IsSession, without-IsSession}
use sketch_sync.Server.Draw.{InSession}

-- The state after the host has left the session.
pub closed : ClientContext → Session → Server → Server
closed ctx sess s = record s {
  sessions = erase ctx.session_id s.sessions;
  sent =
      s.sent
      ++ deliveries s.connections (keys (erase ctx.member_id sess.members))
          (frame Opcode.notification (u8 Codes.session_closed ∷ []));
}

pub closed-discovery :
    (ctx : ClientContext) (sess : Session) (s : Server)
    → discovery_lookup (closed ctx sess s) ctx.session_id ≡ none
unfolding closed discovery_lookup
closed-discovery ctx sess s =
    rw
      (
        discovery_lookup,
        lookup-erase ctx.session_id ctx.session_id s.sessions,
        ==_refl ctx.session_id,
      )
      refl

close_session-closed :
    (ctx : ClientContext) (s : Server) (sess : Session)
    → close_session (without sess ctx.member_id) ctx s ≡ some (tt, closed ctx sess s)
unfolding close_session closed ◌>>=◌
close_session-closed ctx s sess =
    rw
      (
        serialize_session_closed-layout Codes.session_closed,
        serialize_message-layout (message Opcode.notification (u8 Codes.session_closed ∷ [])),
        ◌>>=◌,
        send_to-sent (keys (erase ctx.member_id sess.members))
            (frame Opcode.notification (u8 Codes.session_closed ∷ [])) s,
      )
      refl

-- When the host leaves, its session is gone, the members that stay behind and are connected are told
-- that it closed, and the sender is in no session any more.
pub handle_leave-host :
    (ctx : ClientContext) (s : Server) (sess : Session)
    → InSession ctx s sess
    → is_host sess ctx.member_id ≡ true
    → handle_leave ctx s ≡ some ((ok true, no_context), closed ctx sess s)
unfolding handle_leave finish_leave ◌>>=◌
handle_leave-host ctx s sess h host =
    rw (entered, h.found, host, ◌>>=◌, close_session-closed ctx s sess) refl
  where
    entered : (ctx.member_id == 0) ≡ false
    entered = ground (arith, h.member)

abbrev pub departure : ℕ → Bytes → MemberLeftNotification
departure member_id name = record {
  notif_code = Codes.member_left;
  member_id = member_id;
  name = name;
}

-- The state after a member that is not the host has left the session.
pub departed : ClientContext → Session → Server → Server
departed ctx sess s = record s {
  sessions =
      assign ctx.session_id (record sess { members = erase ctx.member_id sess.members }) s.sessions;
  sent =
      s.sent
      ++ deliveries s.connections (keys (erase 0 (erase ctx.member_id sess.members))) (
          frame Opcode.notification (
            member_left_layout (
              departure ctx.member_id
                (elim (lookup ctx.member_id sess.members) [ none ↦ [] | some m ↦ m.name ]))));
}

lookup-is_empty : {V : Type 0} (k : ℕ) (m : Assoc V) → lookup k m ≢ none → is_empty m ≡ false
unfolding lookup
lookup-is_empty k [] h = absurd (h refl)
lookup-is_empty k (x ∷ m) h = refl

finish_leave-departed :
    (ctx : ClientContext) (s : Server) (sess : Session)
    → is_empty (erase ctx.member_id sess.members) ≡ false
    → finish_leave
        (without sess ctx.member_id)
        false
        ctx
        (name_of (lookup ctx.member_id sess.members))
        s
      ≡ some (tt, departed ctx sess s)
unfolding finish_leave departed ◌>>=◌
finish_leave-departed ctx s sess e =
    rw
      (
        e,
        ◌>>=◌,
        serialize_member_left-layout
            (departure ctx.member_id (name_of (lookup ctx.member_id sess.members))),
      )
      (send_notification-sent (without sess ctx.member_id) Opcode.notification
        (member_left_layout (departure ctx.member_id (name_of (lookup ctx.member_id sess.members))))
        0 (record s { sessions = assign ctx.session_id (without sess ctx.member_id) s.sessions }))

-- When another member leaves a session whose invariant holds, the session stays without it, the
-- connected members that stay are told its id and name, but for one with the id 0, and the sender is in
-- no session any more.
pub handle_leave-member :
    (ctx : ClientContext) (s : Server) (sess : Session)
    → InSession ctx s sess
    → IsSession ctx.session_id sess
    → is_host sess ctx.member_id ≡ false
    → handle_leave ctx s ≡ some ((ok true, no_context), departed ctx sess s)
unfolding handle_leave ◌>>=◌
handle_leave-member ctx s sess h v member =
    rw (entered, h.found, member, ◌>>=◌, finish_leave-departed ctx s sess stays) refl
  where
    entered : (ctx.member_id == 0) ≡ false
    entered = ground (arith, h.member)

    stays : is_empty (erase ctx.member_id sess.members) ≡ false
    stays =
        lookup-is_empty sess.host_id _
          (without-IsSession ctx.session_id sess ctx.member_id v member).hosted

on_close_session-member :
    (ctx : ClientContext) (conn : ℕ) (s : Server) (sess : Session)
    → InSession ctx s sess
    → is_host sess ctx.member_id ≡ false
    → on_close_session ctx conn s
      ≡ some (
        ctx,
        with_sent s ((conn, frame Opcode.ack (u8 Codes.ack_ok ∷ text "session closed")) ∷ []),
      )
unfolding on_close_session handle_close_session ◌>>=◌
on_close_session-member ctx conn s sess h member =
    rw (entered, h.found, member, ◌>>=◌, send_ack-sent conn Codes.ack_ok (text "session closed") s)
      refl
  where
    entered : (ctx.member_id == 0) ≡ false
    entered = ground (arith, h.member)

on_close_session-host :
    (ctx : ClientContext) (conn : ℕ) (s : Server) (sess : Session)
    → InSession ctx s sess
    → is_host sess ctx.member_id ≡ true
    → on_close_session ctx conn s
      ≡ some (
        no_context,
        with_sent
            (closed ctx sess s)
            ((conn, frame Opcode.ack (u8 Codes.ack_ok ∷ text "session closed")) ∷ []),
      )
unfolding on_close_session handle_close_session ◌>>=◌
on_close_session-host ctx conn s sess h host =
    rw
      (
        entered,
        h.found,
        host,
        ◌>>=◌,
        handle_leave-host ctx s sess h host,
        send_ack-sent conn Codes.ack_ok (text "session closed") (closed ctx sess s),
      )
      refl
  where
    entered : (ctx.member_id == 0) ≡ false
    entered = ground (arith, h.member)

-- A CLOSE_SESSION from the host closes the session; from any other member of a session it leaves the
-- server and the sender's context as they are. In both cases the sender is told that the session closed:
-- the refusal carries no error.
pub on_close_session-sent :
    (ctx : ClientContext) (conn : ℕ) (s : Server) (sess : Session)
    → InSession ctx s sess
    → on_close_session ctx conn s
      ≡ some (
        if is_host sess ctx.member_id then no_context else ctx,
        with_sent
            (if is_host sess ctx.member_id then closed ctx sess s else s)
            ((conn, frame Opcode.ack (u8 Codes.ack_ok ∷ text "session closed")) ∷ []),
      )
on_close_session-sent ctx conn s sess h = elim (Bool-cases (is_host sess ctx.member_id)) [
  | inl host ↦ rw host (on_close_session-host ctx conn s sess h host)
  | inr member ↦ rw member (on_close_session-member ctx conn s sess h member)
]

-- A JOIN of a session that the server does not have, by a 32-bit id, is acknowledged as joined, under the
-- member id that the context had before, and the connection is registered under that id: the refusal
-- carries no error. No session changes.
pub on_join-missing :
    (m : JoinMessage) (ctx : ClientContext) (conn : ℕ) (s : Server)
    → IsU32 m.session_id
    → lookup m.session_id s.sessions ≡ none
    → let ack : JoinAckMessage = record { ack_code = Codes.join_ok; member_id = ctx.member_id } in
      on_join (join_layout m) ctx conn s
      ≡ some (
        ctx,
        record s {
          connections = assign ctx.member_id conn s.connections;
          next_member_id = u32 (s.next_member_id + 1);
          sent = s.sent ++ (conn, frame Opcode.ack (join_ack_layout ack)) ∷ [];
        },
      )
unfolding on_join handle_join take_member_id register_connection send members_of send_members ◌>>=◌
on_join-missing m ctx conn s h missing =
    let ack : JoinAckMessage = record { ack_code = Codes.join_ok; member_id = ctx.member_id } in
    rw
      (
        parse_join-layout m h,
        ◌>>=◌,
        missing,
        ◌>>=◌,
        missing,
        serialize_join_ack-layout ack,
        serialize_message-layout (message Opcode.ack (join_ack_layout ack)),
      )
      refl
