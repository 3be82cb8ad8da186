-- ===== src/Engine/Connection/Coherence.antt =====
-- The operations of network_manager keep the session manager's state, its client and the network's state
-- together.
use sketch_sync.Prelude.{
  ℕ, ◌≡◌, ◌≢◌, refl, sym, ◌∙◌, Bool, true, false, not, ◌&&◌, ◌||◌, Option, none, some, Bool-cases,
  inl, inr, arith,
}
use sketch_sync.Results.{is_ok}
use sketch_sync.Bytes.{Bytes}
use sketch_sync.Client.{Client}
use sketch_sync.Engine.{Network, Engine, ConnectionState, Attempt, Protocol}
use sketch_sync.Engine.Coherence.{
  if-Coherent, then-Coherent, cond-Coherent, pair-Coherent, Plays, is_some, IsCoherent, Coherent,
  net-Coherent, offline-Coherent,
}
use sketch_sync.Engine.Session.{has_client, reset_session, detach_client}
use sketch_sync.Engine.Session.Coherence.{
  reset_session-Coherent, prepare_join-Coherent, prepare_create-Coherent,
  clear_joining_state-Coherent,
}
use sketch_sync.Engine.Connection.{
  Outcome, set_stop, set_endpoint, toggle_protocol, started, start_attempt, async_connect_to_server,
  async_start_local_server, async_tcp_discover_and_join, async_ws_connect_and_join,
  async_ws_connect_and_create, finish_connect_attempt, adopt, connect_to_server, without_sockets,
  handle_disconnect,
}

-- The fields of the network that a new attempt and its end set.
attempt-Coherent :
    (e : Engine) (n : Network) (a : Option Attempt)
    → Coherent e
    → n.connected ≡ e.net.connected
    → n.attached ≡ e.net.attached
    → (n.state ≡ ConnectionState.connected → n.connected ≡ true)
    → n.connecting ≡ is_some a
    → IsCoherent e.manager n a
attempt-Coherent e n a v connected attached shown busy = record {
  not_leaving = v.not_leaving;
  not_closing = v.not_closing;
  entered = v.entered;
  plays = v.plays;
  outside = v.outside;
  online = λ h k. v.online (sym connected ∙ h) (sym attached ∙ k);
  shown = shown;
  busy = busy;
}

start_attempt-Coherent :
    (a : Attempt) (prepare : Engine → Engine) (e : Engine)
    → ((e : Engine) → Coherent e → Coherent (prepare e))
    → Coherent e
    → Coherent (start_attempt a prepare e)
unfolding start_attempt started
start_attempt-Coherent a prepare e keep v =
    let n : Network = record e.net {
      connecting = true;
      stop_poll = true;
      state = ConnectionState.connecting;
    } in
    let w = attempt-Coherent e n (some a) v refl refl (λ h. cc h) refl in
    if-Coherent e.net.connecting e _ v
      (if-Coherent e.net.attached _ _ (keep (record e { net = n; attempt = some a }) w) w)

pub async_connect_to_server-Coherent :
    (e : Engine) → Coherent e → Coherent (async_connect_to_server e)
unfolding async_connect_to_server
async_connect_to_server-Coherent e v = start_attempt-Coherent Attempt.connect _ e (λ d w. w) v

pub async_start_local_server-Coherent :
    (e : Engine) → Coherent e → Coherent (async_start_local_server e)
unfolding async_start_local_server
async_start_local_server-Coherent e v = start_attempt-Coherent Attempt.start_local _ e (λ d w. w) v

pub async_tcp_discover_and_join-Coherent :
    (session_id : ℕ) (e : Engine) → Coherent e → Coherent (async_tcp_discover_and_join session_id e)
unfolding async_tcp_discover_and_join
async_tcp_discover_and_join-Coherent session_id e v =
    start_attempt-Coherent (Attempt.discover_and_join session_id) _ e
      (prepare_join-Coherent session_id) v

pub async_ws_connect_and_join-Coherent :
    (session_id : ℕ) (e : Engine) → Coherent e → Coherent (async_ws_connect_and_join session_id e)
unfolding async_ws_connect_and_join
async_ws_connect_and_join-Coherent session_id e v =
    start_attempt-Coherent (Attempt.connect_and_join session_id) _ e
      (prepare_join-Coherent session_id) v

pub async_ws_connect_and_create-Coherent :
    (e : Engine) → Coherent e → Coherent (async_ws_connect_and_create e)
unfolding async_ws_connect_and_create
async_ws_connect_and_create-Coherent e v =
    start_attempt-Coherent Attempt.connect_and_create _ e prepare_create-Coherent v

pub toggle_protocol-Coherent :
    (e : Engine) → Coherent e → Coherent (record e { net = (toggle_protocol e.net).0 })
unfolding toggle_protocol
toggle_protocol-Coherent e v = elim (Bool-cases (e.net.connected || e.net.connecting)) [
  | inl h ↦ rw h v
  | inr h ↦ rw h (net-Coherent e _ v refl refl refl refl)
]

pub finish_connect_attempt-Coherent :
    (b : Bool) (e : Engine) → Coherent e → Coherent (finish_connect_attempt b e)
unfolding finish_connect_attempt
finish_connect_attempt-Coherent b e v =
    let n1 : Network = record e.net { connecting = false } in
    let n2 : Network = record n1 { state = ConnectionState.disconnected } in
    let w1 = attempt-Coherent e n1 none v refl refl v.shown refl in
    let w2 = attempt-Coherent e n2 none v refl refl (λ h. cc h) refl in
    if-Coherent e.net.connected _ _ w1 (
      if-Coherent (b && e.net.attached) _ _
        (clear_joining_state-Coherent (record e { net = n2; attempt = none }) w2) w2)

outside_client :
    (o : Option Client) (b : Bool) (n : ℕ) (h : Bool)
    → is_some o ≡ false
    → Plays o b n h
    → b ≡ false
outside_client none b n h e v = v
outside_client (some c) b n h e v = cc e

adopt-Coherent :
    (e : Engine)
    → Coherent e
    → (e.net.attached ≡ true → is_some e.client ≡ false)
    → Coherent (adopt e)
unfolding adopt
adopt-Coherent e v free =
    cond-Coherent e.net.attached _ _
      (λ h. record {
        not_leaving = v.not_leaving;
        not_closing = v.not_closing;
        entered = v.entered;
        plays = λ k.
            cc (k, outside_client e.client e.in_session e.member_id e.hosting (free h) v.plays);
        outside = v.outside;
        online = λ _ _. refl;
        shown = λ _. refl;
        busy = v.busy;
      })
      (λ h. record {
        not_leaving = v.not_leaving;
        not_closing = v.not_closing;
        entered = v.entered;
        plays = v.plays;
        outside = v.outside;
        online = λ _ k. cc (h, k);
        shown = λ _. refl;
        busy = v.busy;
      })

pub set_stop-Coherent : (b : Bool) (e : Engine) → Coherent e → Coherent (set_stop b e)
set_stop-Coherent b e v = net-Coherent e (record e.net { stop_poll = b }) v refl refl refl refl

or_false : (a b c : Bool) → (a || b && c) ≡ false → b ≡ true → c ≡ false
or_false a b c h k = ground (arith, h, k)

has_client-some : (o : Option Client) → (elim o [ none ↦ false | some c ↦ true ]) ≡ is_some o
has_client-some none = refl
has_client-some (some c) = refl

pub connect_to_server-Coherent :
    (o : Outcome) (e : Engine) → Coherent e → Coherent (connect_to_server o e).1
unfolding connect_to_server
connect_to_server-Coherent o e v =
    pair-Coherent (e.net.connected || e.net.attached && has_client e) _ _
      (λ _. set_stop-Coherent false e v)
      λ h.
        pair-Coherent (not (is_ok o.conn_res) || o.stopped) _ _
          (λ _. set_stop-Coherent o.stopped e v)
          (λ _. adopt-Coherent (set_stop false e) (set_stop-Coherent false e v) (λ k.
            sym (has_client-some e.client)
            ∙ or_false e.net.connected e.net.attached (has_client e) h k))

-- A session manager without a client, and a network off the line.
pub detached-Coherent :
    (e : Engine) (n : Network)
    → Coherent e
    → n.connected ≡ false
    → (n.state ≢ ConnectionState.connected)
    → n.connecting ≡ e.net.connecting
    → IsCoherent (detach_client (reset_session e)).manager n e.attempt
unfolding reset_session
detached-Coherent e n v off dark busy =
    let w = reset_session-Coherent e v in
    record {
      not_leaving = w.not_leaving;
      not_closing = w.not_closing;
      entered = w.entered;
      plays = refl;
      outside = w.outside;
      online = λ h k. cc (off, h);
      shown = λ h. absurd (dark h);
      busy = busy ∙ v.busy;
    }

-- After it the session is reset, the client is gone and the network is off the line.
pub handle_disconnect-Coherent : (e : Engine) → Coherent e → Coherent (handle_disconnect e)
unfolding handle_disconnect without_sockets reset_session
handle_disconnect-Coherent e v =
    then-Coherent e.net.attached without_sockets _ _ (detached-Coherent e _ v refl (λ h. cc h) refl)
      (offline-Coherent e _ v refl (λ h. cc h) refl)

pub set_endpoint-Coherent :
    (host port : Bytes) (protocol : Protocol) (e : Engine)
    → Coherent e
    → Coherent (set_endpoint host port protocol e)
unfolding set_endpoint
set_endpoint-Coherent host port protocol e v = net-Coherent e _ v refl refl refl refl
