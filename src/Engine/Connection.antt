-- ===== src/Engine/Connection.antt =====
-- engine/network/network_manager.cpp. Sockets, the discovery of a host and the server's process belong to
-- the environment: what they answer is an argument. A connection thread is one step, `run_attempt`, after
-- the step that starts it. Exceptions and the texts that are shown are not modelled.
pub mod LocalServer
pub mod Requests
pub mod Coherence
pub mod Toggling
use sketch_sync.Prelude.{
  ℕ, zero, suc, ◌+◌, ◌*◌, ◌-◌, ◌/◌, ◌%◌, Bool, true, false, not, ◌&&◌, ◌||◌, Option, none, some,
  List, [], ◌∷◌, ◌++◌, ltb, leb, ◌==◌, if◌then◌else◌,
}
use mathlib.Core.Option
use sketch_sync.Results.{Result, Error, ok, fail, is_ok, text}
use sketch_sync.Bytes.{Bytes}
use sketch_sync.Client.{Client}
use sketch_sync.Files.Path.{equal}
use sketch_sync.Engine.{
  Manager, Network, Engine, Environment, JoiningState, Protocol, ConnectionState, Attempt,
  default_tcp_port, default_ws_port,
}
use sketch_sync.Engine.Protocol.{tcp, websocket}
use sketch_sync.Engine.ConnectionState.{disconnected, connecting, connected}
use sketch_sync.Engine.Session.{
  has_client, prepare_join, prepare_create, clear_joining_state, reset_session, attach_client,
  detach_client, send_join_request, send_create_request, send_leave_or_close,
}

abbrev pub with_net : (Network → Network) → Engine → Engine
with_net f e = record e { net = f e.net }

abbrev pub set_stop : Bool → Engine → Engine
set_stop b e = record e { net = record e.net { stop_poll = b } }

pub set_disconnected : Engine → Engine
set_disconnected e = record e { net = record e.net { connected = false; state = disconnected } }

pub set_endpoint : Bytes → Bytes → Protocol → Engine → Engine
set_endpoint host port protocol e = record e {
  net = record e.net { host = host; port = port; protocol = protocol };
}

-- The new protocol and port of toggle_protocol.
toggled : Protocol → Bytes → Protocol × Bytes
toggled tcp port = (websocket, if equal port default_tcp_port then default_ws_port else port)
toggled websocket port = (tcp, if equal port default_ws_port then default_tcp_port else port)
toggled Protocol.none port = (tcp, if equal port default_ws_port then default_tcp_port else port)

pub toggle_protocol : Network → Network × Bool
toggle_protocol n =
    if n.connected || n.connecting
    then (n, false)
    else let (protocol, port) = toggled n.protocol n.port in
      (record n { protocol = protocol; port = port }, true)

-- What the parts of async_* share: `connecting_.exchange(true)`, the stop of the last thread, which has
-- ended by then, what the session is told, and the start of the new thread.
started : Attempt → (Engine → Engine) → Engine → Engine
started a prepare e =
    let e' = record e {
      net = record e.net { connecting = true; stop_poll = true; state = connecting };
      attempt = some a;
    } in
    if e.net.attached then prepare e' else e'

start_attempt : Attempt → (Engine → Engine) → Engine → Engine
start_attempt a prepare e = if e.net.connecting then e else started a prepare e

pub async_connect_to_server : Engine → Engine
async_connect_to_server = start_attempt Attempt.connect (λ e. e)

pub async_tcp_discover_and_join : ℕ → Engine → Engine
async_tcp_discover_and_join session_id =
    start_attempt (Attempt.discover_and_join session_id) (prepare_join session_id)

pub async_ws_connect_and_join : ℕ → Engine → Engine
async_ws_connect_and_join session_id =
    start_attempt (Attempt.connect_and_join session_id) (prepare_join session_id)

pub async_ws_connect_and_create : Engine → Engine
async_ws_connect_and_create = start_attempt Attempt.connect_and_create prepare_create

pub async_start_local_server : Engine → Engine
async_start_local_server = start_attempt Attempt.start_local (λ e. e)

pub finish_connect_attempt : Bool → Engine → Engine
finish_connect_attempt reset_session_if_failed e =
    let e1 = record e { net = record e.net { connecting = false }; attempt = none } in
    if e.net.connected
    then e1
    else let e2 = record e1 { net = record e1.net { state = disconnected } } in
      if reset_session_if_failed && e.net.attached then clear_joining_state e2 else e2

-- What connecting answers: the result of the socket, and whether a stop was requested meanwhile.
pub record Outcome : Type 0 where
  pub conn_res : Result Bool
  pub stopped : Bool

abbrev pub rejected : Result Bool
rejected = fail false Error.rejected (text "Already connected")

abbrev new_client : Client
new_client = record { member_id = 0; session_id = 0; host = false }

-- The end of connect_to_server, on a socket that is connected.
unfoldable pub adopt : Engine → Engine
adopt e =
    let e' = record e {
      net = record e.net {
        has_sockets = true;
        connected = true;
        state = connected;
        stop_poll = false;
      };
    } in
    if e.net.attached then attach_client new_client e' else e'

unfoldable pub connect_to_server : Outcome → Engine → Result Bool × Engine
connect_to_server o e =
    let e' = set_stop false e in
    if e.net.connected || e.net.attached && has_client e
    then (rejected, e')
    else if not (is_ok o.conn_res) || o.stopped
    then (o.conn_res, set_stop o.stopped e')
    else (ok true, adopt e')

without_sockets : Engine → Engine
without_sockets e = record e {
  net = record e.net { has_sockets = false; connected = false; state = disconnected };
}

pub handle_disconnect : Engine → Engine
handle_disconnect e =
    let e1 = set_stop true e in
    without_sockets (if e.net.attached then detach_client (reset_session e1) else e1)
