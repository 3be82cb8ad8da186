-- ===== src/Server/Reachable.antt =====
-- The server as a whole: the states that it reaches from its construction.
use sketch_sync.Prelude.{ℕ, ◌≡◌, some}
use mathlib.Core.Option.{some-injective}
use mathlib.Core.Path.{subst, sym, ◌∙◌}
use sketch_sync.Bytes.{Bytes}
use sketch_sync.Protocol.{Header}
use sketch_sync.Server.State.{ClientContext, Server, Step, fresh_server}
use sketch_sync.Server.Dispatch.{dispatch, disconnect}
use sketch_sync.Server.Invariant.{IsSound, empty-IsSound}
use sketch_sync.Server.Rules.{Runs}
use sketch_sync.Server.Soundness.{Sound}
use sketch_sync.Server.Soundness.Dispatch.{dispatch-Sound, disconnect-Sound}

-- The states of a server that was constructed on a port: messages of any client and ends of connections
-- follow one another in any order.
pub data Reachable (tcp_port : ℕ) : Server → Type 0 where
  start : Reachable tcp_port (fresh_server tcp_port)
  received :
      (header : Header) (payload : Bytes) (ctx ctx' : ClientContext) (conn : ℕ) (s s' : Server)
      → Reachable tcp_port s
      → dispatch header payload ctx conn s ≡ some (ctx', s')
      → Reachable tcp_port s'
  ended :
      (ctx : ClientContext) (s s' : Server)
      → Reachable tcp_port s
      → disconnect ctx s ≡ some (tt, s')
      → Reachable tcp_port s'

-- The state that a step is known to return is the one that it was shown to leave.
Runs-ends :
    {A : Type 0} {m : Step A} {s s' : Server} {a : A}
    → Runs m s Sound
    → m s ≡ some (a, s')
    → IsSound s'.sessions
Runs-ends {s' = s'} {a = a} r e =
    subst (λ p. IsSound p.1.sessions)
      (some-injective (r.value, r.state) (a, s') (sym r.returns ∙ e)) r.ends

-- In every state that a server reaches, each session stands under its own id, is open, and has its host
-- among its members; each member stands under its own id and names the session; the host's role is the
-- host's alone.
pub Reachable-IsSound : (tcp_port : ℕ) (s : Server) → Reachable tcp_port s → IsSound s.sessions
Reachable-IsSound tcp_port _ start = empty-IsSound
Reachable-IsSound tcp_port _ (received header payload ctx ctx' conn s s' r e) =
    Runs-ends (dispatch-Sound header payload ctx conn s (Reachable-IsSound tcp_port s r)) e
Reachable-IsSound tcp_port _ (ended ctx s s' r e) =
    Runs-ends (disconnect-Sound ctx s (Reachable-IsSound tcp_port s r)) e
