-- ===== src/Engine/Relay.antt =====
-- A host and a member of one session, each a drawing program: what the host returns to the server for
-- an operation that was drawn goes to the member's handle_draw, as the server passes it on.
pub mod Refinement
use sketch_sync.Prelude.{
  ℕ, ◌+◌, ◌^◌, ◌≡◌, ◌≢◌, ◌<◌, ◌≤◌, refl, sym, ap, ◌∙◌, ◌⊎◌, inl, inr, Bool, true, false, not, ◌&&◌,
  Option, none, some, List, [], ◌∷◌, ◌++◌, ltb, ◌==◌, if◌then◌else◌, arith, All, Bool-cases, length,
  drop, drop-append, drop_length, length-append,
}
use mathlib.Core.Option
use mathlib.Core.Path.{subst}
use sketch_sync.Results.{Result, is_ok}
use sketch_sync.Bytes.{Bytes}
use sketch_sync.DrawOperation.{DrawOperation, serialize_draw_operation, validate_draw_operation}
use sketch_sync.DrawOperation.Codec.{operation_layout, serialize_draw_operation-layout}
use sketch_sync.DrawOperation.Validity.{IsValid, validate_iff}
use sketch_sync.Protocol.CanvasState.RoundTrip.{IsStorable, stamped-IsStorable}
use sketch_sync.Canvas.{Picture, Canvas, contains_operation, find_seq, next_sequence, apply}
use sketch_sync.Canvas.Log.{
  IsConsistent, IsConsistent-positive, HasRoom, IsFresh, assigned, appended, apply_fresh,
  apply_known, apply_cases, apply-IsConsistent, contains_operation-has_id, find_seq-has_id,
  find_seq-some-has_id,
}
use sketch_sync.Canvas.Replay.{Agree, apply-Agree, apply-next_seq, follow}
use sketch_sync.Client.{Client}
use sketch_sync.Engine.{Engine, Environment, Call}
use sketch_sync.Engine.Calls.{with_call}
use sketch_sync.Engine.Receiving.{set_dirty, forget, with_applied, handle_draw}
use sketch_sync.Engine.Receiving.Draws.{hosting_cases, joined_cases}

-- What the server passes on to a member of a call of the host.
pub deliver : Environment → Call → Engine → Option Engine
deliver env (Call.draw_raw op) e =
    Option.bind (serialize_draw_operation op) λ p. handle_draw env p e
deliver env _ e = some e

pub deliver_all : Environment → List (Client × Call) → Engine → Option Engine
deliver_all env [] e = some e
deliver_all env ((c, m) ∷ calls) e = Option.bind (deliver env m e) λ e'. deliver_all env calls e'

-- The payload of a DRAW message at the host, and all that the host was asked to send by it at the member.
pub exchange : Environment → Environment → Bytes → Engine → Engine → Option (Engine × Engine)
exchange here there payload host member = Option.bind (handle_draw here payload host) λ host'.
    Option.map (λ member'. (host', member'))
      (deliver_all there (drop (length host.calls) host'.calls) member)

pub exchange_all :
    Environment → Environment → List DrawOperation → Engine → Engine → Option (Engine × Engine)
exchange_all here there [] host member = some (host, member)
exchange_all here there (op ∷ ops) host member =
    Option.bind (exchange here there (operation_layout op) host member)
      λ (host', member'). exchange_all here there ops host' member'

-- The operations that a host accepts.
pub admitted : List DrawOperation → List DrawOperation
admitted [] = []
admitted (op ∷ ops) =
    if is_ok (validate_draw_operation op false) then op ∷ admitted ops else admitted ops

-- A host with its session client, and a member with its own.
pub record InStep (host member : Engine) : Type 0 where
  pub here : Client
  pub there : Client
  pub host_client : host.client ≡ some here
  pub member_client : member.client ≡ some there
  pub hosts : here.host ≡ true
  pub joins : there.host ≡ false
  pub agree : Agree host.surface member.surface
  pub consistent : IsConsistent host.surface

-- The environment of another program with the same tools.
abbrev pub beside :
    Environment
    → (List (Client × Call) → Bytes → Result ℕ)
    → (Bytes → Bool)
    → (List DrawOperation → List (List DrawOperation))
    → Environment
beside env transmit can_open schedule = record env {
  transmit = transmit;
  can_open = can_open;
  schedule = schedule;
}
