-- ===== src/Engine/Connection/Requests.antt =====
-- What the user asks for: session_manager::join_session and create_session, the bodies of the connection
-- threads of network_manager, and disconnect, stop_local_server and shutdown.
pub mod Keeping
use sketch_sync.Prelude.{
  ℕ, ◌+◌, ◌*◌, ◌-◌, ◌^◌, Bool, true, false, not, ◌&&◌, ◌||◌, Option, none, some, List, [], ◌∷◌, ltb,
  leb, ◌==◌, if◌then◌else◌,
}
use mathlib.Core.Option
use sketch_sync.Results.{Result, Error, ok, fail, is_ok, text}
use sketch_sync.Bytes.{Bytes}
use sketch_sync.Engine.{Engine, Network, Environment, Protocol, ConnectionState, Attempt}
use sketch_sync.Engine.Protocol.{tcp, websocket}
use sketch_sync.Engine.Session.{
  has_client, reset_session, detach_client, send_join_request, send_create_request,
  send_leave_or_close,
}
use sketch_sync.Engine.Connection.{
  Outcome, set_stop, set_endpoint, connect_to_server, finish_connect_attempt, handle_disconnect,
  async_tcp_discover_and_join, async_ws_connect_and_join, async_ws_connect_and_create,
}
use sketch_sync.Engine.Connection.LocalServer.{Process, digits, start_server}

-- std::from_chars into a uint32_t: `none` where it reports an error.
pub from_chars : Bytes → Option ℕ
from_chars [] = none
from_chars (c ∷ cs) =
    if leb b'0' c && leb c b'9'
    then (let n = digits 0 (c ∷ cs) in if ltb n (2 ^ 32) then some n else none)
    else none

-- What a connection thread finds: a host for the session, with the text of its port, a socket, and the
-- server's process.
pub record Surroundings : Type 0 where
  pub discovered : Result (Bytes × Bytes)
  pub outcome : Outcome
  pub process : Process

abbrev online : Engine → Bool
online e = e.net.connected && has_client e

join_over : Protocol → ℕ → Engine → Engine
join_over tcp session_id e = async_tcp_discover_and_join session_id e
join_over websocket session_id e = async_ws_connect_and_join session_id e
join_over Protocol.none session_id e = async_ws_connect_and_join session_id e

create_over : Protocol → Engine → Engine
create_over websocket e = async_ws_connect_and_create e
create_over tcp e = e
create_over Protocol.none e = e

module _ (env : Environment) where
  join_by_id : ℕ → Engine → Option Engine
  join_by_id session_id e =
      if session_id == 0 || e.in_session
      then some e
      else if online e
      then send_join_request env session_id e
      else some (join_over e.net.protocol session_id e)

  join_parsed : Option ℕ → Engine → Option Engine
  join_parsed none e = some e
  join_parsed (some session_id) e = join_by_id session_id e

  pub join_session : Engine → Option Engine
  join_session e = join_parsed (from_chars e.session_id_input) e

  pub create_session : Engine → Option Engine
  create_session e =
      if e.in_session
      then some e
      else if online e
      then send_create_request env e
      else some (create_over e.net.protocol e)

  pub start_local_server : Process → Engine → Option (Result Bool × Engine)
  start_local_server p e =
      let (r, e', goes_on) = start_server p e in
      if goes_on then Option.map (λ e2. (r, e2)) (create_session e') else some (r, e')

  -- What the threads for a session do once they are connected.
  send_after : Result Bool × Engine → (Engine → Option Engine) → Option Engine
  send_after (res, e) send = if is_ok res && e.net.attached then send e else some e

  -- The body of a connection thread up to finish_connect_attempt.
  attempt_body : Attempt → Surroundings → Engine → Option Engine
  attempt_body Attempt.connect s e = some (connect_to_server s.outcome e).1
  attempt_body (Attempt.discover_and_join session_id) s e =
      if is_ok s.discovered
      then send_after
          (connect_to_server s.outcome
            (set_endpoint s.discovered.value.0 s.discovered.value.1 tcp e))
          (send_join_request env session_id)
      else some e
  attempt_body (Attempt.connect_and_join session_id) s e =
      send_after (connect_to_server s.outcome e) (send_join_request env session_id)
  attempt_body Attempt.connect_and_create s e =
      send_after (connect_to_server s.outcome e) (send_create_request env)
  attempt_body Attempt.start_local s e = Option.map (λ r. r.1) (start_local_server s.process e)

  -- finish_connect_attempt's argument.
  abbrev resets : Attempt → Bool
  resets Attempt.connect = false
  resets Attempt.start_local = false
  resets (Attempt.discover_and_join session_id) = true
  resets (Attempt.connect_and_join session_id) = true
  resets Attempt.connect_and_create = true

  run : Option Attempt → Surroundings → Engine → Option Engine
  run none s e = some e
  run (some a) s e = Option.map (finish_connect_attempt (resets a)) (attempt_body a s e)

  -- A whole connection thread, if there is one: also what `join` on it waits for.
  pub run_attempt : Surroundings → Engine → Option Engine
  run_attempt s e = run e.attempt s e

  pub stop_connect_thread : Surroundings → Engine → Option Engine
  stop_connect_thread s e = run_attempt s (set_stop true e)

  leave_first : Engine → Option Engine
  leave_first e = if e.net.attached then send_leave_or_close env e else some e

  pub disconnect : Surroundings → Engine → Option Engine
  disconnect s e =
      Option.bind (stop_connect_thread s e) λ e1. Option.map handle_disconnect (leave_first e1)

  without_server : Engine → Engine
  without_server e = record e { net = record e.net { server_running = false } }

  pub stop_local_server : Surroundings → Engine → Option Engine
  stop_local_server s e = Option.map without_server (disconnect s e)

  -- The end of shutdown, once the session is gone.
  turned_off : Engine → Engine
  turned_off e = record e {
    net = record e.net {
      attached = false;
      has_sockets = false;
      connected = false;
      state = ConnectionState.disconnected;
      server_running = false;
    };
  }

  -- The part of shutdown behind the stop of the thread.
  closed_down : Engine → Engine
  closed_down e =
      let e1 = set_stop true e in
      turned_off (if e.net.attached then detach_client (reset_session e1) else e1)

  pub shutdown : Surroundings → Engine → Option Engine
  shutdown s e =
      if e.net.shut_down
      then some e
      else Option.map closed_down
          (stop_connect_thread s (record e { net = record e.net { shut_down = true } }))
