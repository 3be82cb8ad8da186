-- ===== src/Engine/Connection/LocalServer.antt =====
-- network_manager::start_local_server: the ports that the server's process is started with, and the rounds
-- in which it is connected to. What the process and the sockets answer is an argument.
pub mod Starting
use sketch_sync.Prelude.{
  ℕ, zero, suc, ◌+◌, ◌*◌, ◌-◌, ◌^◌, Bool, true, false, not, ◌&&◌, ◌||◌, Option, none, some, List,
  [], ◌∷◌, ltb, leb, ◌==◌, if◌then◌else◌,
}
use mathlib.Core.Option
use sketch_sync.Results.{Result, Error, ok, fail, is_ok, text}
use sketch_sync.Bytes.{Bytes}
use sketch_sync.Engine.{Engine, Network, Protocol, default_tcp_port, default_ws_port}
use sketch_sync.Engine.Protocol.{tcp, websocket}
use sketch_sync.Engine.Connection.{Outcome, set_stop, connect_to_server}

-- The white space of the C locale.
abbrev is_space : ℕ → Bool
is_space c = c == 32 || leb 9 c && leb c 13

abbrev is_digit : ℕ → Bool
is_digit c = leb b'0' c && leb c b'9'

-- The value of the digits that a text starts with, after `value`.
pub digits : ℕ → Bytes → ℕ
digits value [] = value
digits value (c ∷ cs) = if is_digit c then digits (value * 10 + (c - b'0')) cs else value

-- std::stoi of an unsigned part: `none` is the exception. `limit` is the largest value.
unsigned_part : ℕ → Bytes → Option ℕ
unsigned_part limit [] = none
unsigned_part limit (c ∷ cs) =
    if is_digit c then (let n = digits 0 (c ∷ cs) in if leb n limit then some n else none) else none

-- A negative number stands as 0: start_local_server compares the number with two ports only.
pub stoi : Bytes → Option ℕ
stoi [] = none
stoi (c ∷ cs) =
    let rest = stoi cs in
    if is_space c
    then rest
    else if c == b'+'
    then unsigned_part (2 ^ 31 - 1) cs
    else if c == b'-'
    then Option.map (λ n. 0) (unsigned_part (2 ^ 31) cs)
    else unsigned_part (2 ^ 31 - 1) (c ∷ cs)

-- The TCP port and the websocket port.
pub ports : Protocol → Bytes → Option ℕ → Bytes × Bytes
ports protocol port none = (default_tcp_port, default_ws_port)
ports tcp port (some p) = (port, if p == 8080 then text "8081" else text "8080")
ports websocket port (some p) = (if p == 9000 then text "9001" else text "9000", port)
ports Protocol.none port (some p) = (if p == 9000 then text "9001" else text "9000", port)

-- The process: whether its file is there, and what starting it with two ports answers; and for each round
-- whether it still runs, and what connecting answers.
pub record Process : Type 0 where
  pub exists : Bool
  pub launch : Bytes → Bytes → Result Bool
  pub rounds : List (Bool × Outcome)

-- What local_server_.running() answers.
abbrev with_server : Bool → Engine → Engine
with_server running e = record e { net = record e.net { server_running = running } }

-- The loop over at most 15 rounds. A process that is asked no more is one that no longer runs.
unfoldable pub try_connect : ℕ → List (Bool × Outcome) → Result Bool → Engine → Result Bool × Engine
try_connect zero rounds conn e = (conn, e)
try_connect (suc n) [] conn e = (conn, with_server false e)
try_connect (suc n) ((running, o) ∷ rounds) conn e =
    let (r, e') = connect_to_server o e in
    let next = try_connect n rounds r e' in
    if e.net.stop_poll || not running
    then (conn, with_server running e)
    else if is_ok r
    then (r, e')
    else next

abbrev pub refused : Bytes → Result Bool
refused message = fail false Error.rejected message

-- A `result<bool>` that nothing was assigned to.
abbrev no_result : Result Bool
no_result = ok false

-- All but the call of create_session at the end: the last part says whether it is made.
unfoldable pub start_server : Process → Engine → Result Bool × Engine × Bool
start_server p e =
    if e.net.server_running
    then (refused (text "Already running"), e, false)
    else if not p.exists
    then (refused (text "server.exe not found"), e, false)
    else let (tcp_p, ws_p) = ports e.net.protocol e.net.port (stoi e.net.port) in
      let res = p.launch tcp_p ws_p in
      let e1 = set_stop false e in
      if not (is_ok res)
      then (res, e1, false)
      else let (conn, e2) = try_connect 15 p.rounds no_result (with_server true e1) in
        if not (is_ok conn)
        then (conn, with_server false e2, false)
        else (ok true, e2, e2.net.attached)
