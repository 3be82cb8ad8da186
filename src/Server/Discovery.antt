-- ===== src/Server/Discovery.antt =====
-- Discovery against the server's own lookup: what a search finds after a CREATE and after the host left.
use sketch_sync.Prelude.{ℕ, ◌≡◌, ◌∙◌, sym, ap, Bool, true, none, some}
use mathlib.Core.Option.{some-injective, none-ne-some}
use mathlib.Core.Path.{subst}
use sketch_sync.Results.{Result}
use sketch_sync.Bytes.{Bytes, IsU16, IsU32}
use sketch_sync.Assoc.{lookup}
use sketch_sync.Protocol.Session.RoundTrip.{name_layout, sent_name}
use sketch_sync.Udp.Discovery.{ask, ask_lem}
use sketch_sync.Server.State.{Session, ClientContext, Server, is_host, discovery_lookup}
use sketch_sync.Server.Handlers.{handle_leave}
use sketch_sync.Server.Dispatch.{on_create}
use sketch_sync.Server.Sessions.{created, created-discovery, on_create-created}
use sketch_sync.Server.Departures.{closed, closed-discovery, handle_leave-host}
use sketch_sync.Server.Draw.{InSession}

-- A search for a session that the server's lookup finds.
ask_open :
    (s : Server) (session_id port : ℕ)
    → IsU32 session_id
    → IsU16 port
    → discovery_lookup s session_id ≡ some port
    → ask (discovery_lookup s) session_id ≡ some (some port)
ask_open s session_id port h k e =
    ask_lem (discovery_lookup s) session_id h
      (λ p f. subst IsU16 (some-injective port p (sym e ∙ f)) k)
    ∙ ap some e

ask_gone :
    (s : Server) (session_id : ℕ)
    → IsU32 session_id
    → discovery_lookup s session_id ≡ none
    → ask (discovery_lookup s) session_id ≡ some none
ask_gone s session_id h e =
    ask_lem (discovery_lookup s) session_id h (λ p f. absurd (none-ne-some p (sym e ∙ f)))
    ∙ ap some e

-- After a CREATE on a server whose next session id is a 32-bit number that is unused, and whose TCP port
-- has 16 bits, a search for the session that the sender is now in ends with the server's TCP port.
pub on_create-ask :
    (name : Bytes) (ctx ctx' : ClientContext) (conn : ℕ) (s s' : Server)
    → IsU32 s.next_session_id
    → IsU16 s.tcp_port
    → lookup s.next_session_id s.sessions ≡ none
    → on_create (name_layout name) ctx conn s ≡ some (ctx', s')
    → ask (discovery_lookup s') ctx'.session_id ≡ some (some s.tcp_port)
on_create-ask name ctx ctx' conn s s' h k new e =
    subst (λ p. ask (discovery_lookup p.1) p.0.session_id ≡ some (some s.tcp_port))
      (some-injective _ (ctx', s') (sym (on_create-created name ctx conn s new) ∙ e))
      (ask_open (created (sent_name name) conn s) s.next_session_id s.tcp_port h k
        (created-discovery (sent_name name) conn s))

-- After the host has left a session with a 32-bit id, a search for it ends with nothing.
pub handle_leave-ask :
    (ctx : ClientContext) (s s' : Server) (sess : Session) (out : Result Bool × ClientContext)
    → IsU32 ctx.session_id
    → InSession ctx s sess
    → is_host sess ctx.member_id ≡ true
    → handle_leave ctx s ≡ some (out, s')
    → ask (discovery_lookup s') ctx.session_id ≡ some none
handle_leave-ask ctx s s' sess out h v host e =
    subst (λ p. ask (discovery_lookup p.1) ctx.session_id ≡ some none)
      (some-injective _ (out, s') (sym (handle_leave-host ctx s sess v host) ∙ e))
      (ask_gone (closed ctx sess s) ctx.session_id h (closed-discovery ctx sess s))
