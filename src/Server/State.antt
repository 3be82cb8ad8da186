-- ===== src/Server/State.antt =====
-- server/session/member.h, session.h, clientConnection.h and the members of server.h. A connection is
-- a number that stands for the address of its clientConnection. `sent` is the list of all
-- conn.send calls; the server ignores their results. Times, locks and threads are not modelled: a
-- handler is one step.
use sketch_sync.Prelude.{
  ℕ, ◌+◌, Bool, true, false, Option, none, some, List, [], ◌∷◌, ◌++◌, ◌==◌, if◌then◌else◌,
}
use mathlib.Core.Option
use sketch_sync.Bytes.{Bytes, u32}
use sketch_sync.Assoc.{Assoc, lookup, assign, erase}

pub data MemberRole : Type 0 where
  participant host : MemberRole

pub record Member : Type 0 where
  pub id : ℕ
  pub name : Bytes
  pub role : MemberRole
  pub session_id : ℕ

pub data SessionState : Type 0 where
  opened locked closed : SessionState

abbrev pub is_open : SessionState → Bool
is_open opened = true
is_open locked = false
is_open closed = false

pub record Session : Type 0 where
  pub session_id : ℕ
  pub host_id : ℕ
  pub state : SessionState
  pub members : Assoc Member

-- session::is_host
abbrev pub is_host : Session → ℕ → Bool
is_host sess id = id == sess.host_id

pub record ClientContext : Type 0 where
  pub member_id : ℕ
  pub session_id : ℕ

pub record Server : Type 0 where
  pub tcp_port : ℕ
  pub sessions : Assoc Session
  pub connections : Assoc ℕ
  pub next_session_id : ℕ
  pub next_member_id : ℕ
  pub sent : List (ℕ × Bytes)

-- A server as it is constructed.
abbrev pub fresh_server : ℕ → Server
fresh_server tcp_port = record {
  tcp_port = tcp_port;
  sessions = [];
  connections = [];
  next_session_id = 1;
  next_member_id = 1;
  sent = [];
}

-- `none` stands for an access outside a buffer, in a serializer or a parser.
abbrev pub Step {ℓ} : Type ℓ → Type ℓ
Step A = Server → Option (A × Server)

abbrev pub pure {ℓ} : {A : Type ℓ} → A → Step A
pure a s = some (a, s)

infixl 5 ◌>>=◌ ◌>>◌
unfoldable pub ◌>>=◌ {ℓ κ} : {A : Type ℓ} {B : Type κ} → Step A → (A → Step B) → Step B
◌>>=◌ m f s = elim (m s) [ none ↦ none | some (a, s') ↦ f a s' ]

abbrev pub ◌>>◌ {ℓ} : {B : Type ℓ} → Step (Unit {0}) → Step B → Step B
m >> k = m >>= λ _. k

abbrev pub lift {ℓ} : {A : Type ℓ} → Option A → Step A
lift o s = Option.map (λ a. (a, s)) o

abbrev pub gets {ℓ} : {A : Type ℓ} → (Server → A) → Step A
gets f s = some (f s, s)

abbrev pub modify : (Server → Server) → Step (Unit {0})
modify f s = some (tt, f s)

-- next_session_id.fetch_add(1)
unfoldable pub take_session_id : Step ℕ
take_session_id s =
    some (s.next_session_id, record s { next_session_id = u32 (s.next_session_id + 1) })

-- next_member_id.fetch_add(1)
unfoldable pub take_member_id : Step ℕ
take_member_id s = some (s.next_member_id, record s { next_member_id = u32 (s.next_member_id + 1) })

-- clientConnection::send
unfoldable pub send : ℕ → Bytes → Step (Unit {0})
send conn bytes s = some (tt, record s { sent = s.sent ++ (conn, bytes) ∷ [] })

unfoldable pub register_connection : ℕ → ℕ → Step (Unit {0})
register_connection member_id conn s =
    some (tt, record s { connections = assign member_id conn s.connections })

unfoldable pub unregister_connection : ℕ → Step (Unit {0})
unregister_connection member_id s =
    some (tt, record s { connections = erase member_id s.connections })

abbrev pub find_connection : ℕ → Server → Option ℕ
find_connection member_id s = lookup member_id s.connections

-- The lookup that the constructor hands to the discovery responder.
unfoldable pub discovery_lookup : Server → ℕ → Option ℕ
discovery_lookup s session_id = elim (lookup session_id s.sessions) [
  | none ↦ none
  | some sess ↦ if is_open sess.state then some s.tcp_port else none
]
