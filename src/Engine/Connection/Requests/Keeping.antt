-- ===== src/Engine/Connection/Requests/Keeping.antt =====
-- What the user asks for keeps the session manager's state, its client and the network's state together.
use sketch_sync.Prelude.{ℕ, refl, Bool, true, ◌&&◌, ◌||◌, ◌==◌, Option, none, some}
use sketch_sync.Results.{Result, is_ok}
use sketch_sync.Engine.{Engine, Environment, Protocol, Attempt}
use sketch_sync.Engine.Protocol.{tcp, websocket}
use sketch_sync.Engine.Preserving.{Gives, Gives-map, Gives-bind, Gives-if, Gives-some}
use sketch_sync.Engine.Coherence.{then-Coherent, Coherent, net-Coherent, offline-Coherent}
use sketch_sync.Engine.Session.{reset_session}
use sketch_sync.Engine.Session.Coherence.{
  send_join_request-Coherent, send_create_request-Coherent, send_leave_or_close-Coherent,
}
use sketch_sync.Engine.Connection.{set_stop, set_endpoint, connect_to_server}
use sketch_sync.Engine.Connection.Coherence.{
  set_stop-Coherent, connect_to_server-Coherent, finish_connect_attempt-Coherent,
  handle_disconnect-Coherent, detached-Coherent, set_endpoint-Coherent,
  async_tcp_discover_and_join-Coherent, async_ws_connect_and_join-Coherent,
  async_ws_connect_and_create-Coherent,
}
use sketch_sync.Engine.Connection.LocalServer.{Process, start_server}
use sketch_sync.Engine.Connection.LocalServer.Starting.{start_server-Coherent}
use sketch_sync.Engine.Connection.Requests.{
  Surroundings, online, from_chars, join_over, create_over, join_by_id, join_parsed, join_session,
  create_session, start_local_server, send_after, attempt_body, resets, run, run_attempt,
  stop_connect_thread, leave_first, disconnect, without_server, stop_local_server, turned_off,
  closed_down, shutdown,
}

join_over-Coherent :
    (protocol : Protocol) (session_id : ℕ) (e : Engine)
    → Coherent e
    → Coherent (join_over protocol session_id e)
unfolding join_over
join_over-Coherent tcp session_id e v = async_tcp_discover_and_join-Coherent session_id e v
join_over-Coherent websocket session_id e v = async_ws_connect_and_join-Coherent session_id e v
join_over-Coherent Protocol.none session_id e v = async_ws_connect_and_join-Coherent session_id e v

create_over-Coherent :
    (protocol : Protocol) (e : Engine) → Coherent e → Coherent (create_over protocol e)
unfolding create_over
create_over-Coherent websocket e v = async_ws_connect_and_create-Coherent e v
create_over-Coherent tcp e v = v
create_over-Coherent Protocol.none e v = v

module _ (env : Environment) where
  join_by_id-Coherent :
      (session_id : ℕ) (e : Engine) → Coherent e → Gives Coherent (join_by_id env session_id e)
  unfolding join_by_id
  join_by_id-Coherent session_id e v =
      Gives-if Coherent (session_id == 0 || e.in_session) _ _ (λ _. Gives-some Coherent e v)
        λ _.
          Gives-if Coherent (online e) _ _ (λ _. send_join_request-Coherent env session_id e v)
            (λ _. Gives-some Coherent _ (join_over-Coherent e.net.protocol session_id e v))

  join_parsed-Coherent :
      (o : Option ℕ) (e : Engine) → Coherent e → Gives Coherent (join_parsed env o e)
  unfolding join_parsed
  join_parsed-Coherent none e v = Gives-some Coherent e v
  join_parsed-Coherent (some session_id) e v = join_by_id-Coherent session_id e v

  pub join_session-Coherent : (e : Engine) → Coherent e → Gives Coherent (join_session env e)
  unfolding join_session
  join_session-Coherent e v = join_parsed-Coherent (from_chars e.session_id_input) e v

  pub create_session-Coherent : (e : Engine) → Coherent e → Gives Coherent (create_session env e)
  unfolding create_session
  create_session-Coherent e v =
      Gives-if Coherent e.in_session _ _ (λ _. Gives-some Coherent e v)
        λ _.
          Gives-if Coherent (online e) _ _ (λ _. send_create_request-Coherent env e v)
            (λ _. Gives-some Coherent _ (create_over-Coherent e.net.protocol e v))

  start_local_server-Coherent :
      (p : Process) (e : Engine)
      → Coherent e
      → Gives (λ r. Coherent r.1) (start_local_server env p e)
  unfolding start_local_server
  start_local_server-Coherent p e v =
      let (r, e', goes_on) = start_server p e in
      let v' = start_server-Coherent p e v in
      Gives-if (λ r. Coherent r.1) goes_on _ _
        (λ _.
          Gives-map (λ r. Coherent r.1) Coherent _ _ (create_session-Coherent e' v') (λ e2 w. w))
        (λ _. Gives-some (λ r. Coherent r.1) (r, e') v')

  send_after-Coherent :
      (p : Result Bool × Engine) (send : Engine → Option Engine)
      → Coherent p.1
      → ((e : Engine) → Coherent e → Gives Coherent (send e))
      → Gives Coherent (send_after env p send)
  unfolding send_after
  send_after-Coherent (res, e) send v k =
      Gives-if Coherent (is_ok res && e.net.attached) _ _ (λ _. k e v)
        (λ _. Gives-some Coherent e v)

  attempt_body-Coherent :
      (a : Attempt) (s : Surroundings) (e : Engine)
      → Coherent e
      → Gives Coherent (attempt_body env a s e)
  unfolding attempt_body
  attempt_body-Coherent Attempt.connect s e v =
      Gives-some Coherent _ (connect_to_server-Coherent s.outcome e v)
  attempt_body-Coherent (Attempt.discover_and_join session_id) s e v =
      let (host, port) = s.discovered.value in
      Gives-if Coherent (is_ok s.discovered) _ _
        (λ _.
          send_after-Coherent (connect_to_server s.outcome (set_endpoint host port tcp e)) _
            (connect_to_server-Coherent s.outcome (set_endpoint host port tcp e)
              (set_endpoint-Coherent host port tcp e v))
            (send_join_request-Coherent env session_id))
        (λ _. Gives-some Coherent e v)
  attempt_body-Coherent (Attempt.connect_and_join session_id) s e v =
      send_after-Coherent (connect_to_server s.outcome e) _
        (connect_to_server-Coherent s.outcome e v) (send_join_request-Coherent env session_id)
  attempt_body-Coherent Attempt.connect_and_create s e v =
      send_after-Coherent (connect_to_server s.outcome e) _
        (connect_to_server-Coherent s.outcome e v) (send_create_request-Coherent env)
  attempt_body-Coherent Attempt.start_local s e v =
      Gives-map Coherent (λ r. Coherent r.1) _ _ (start_local_server-Coherent s.process e v)
        (λ r w. w)

  run-Coherent :
      (o : Option Attempt) (s : Surroundings) (e : Engine)
      → Coherent e
      → Gives Coherent (run env o s e)
  unfolding run
  run-Coherent none s e v = Gives-some Coherent e v
  run-Coherent (some a) s e v =
      Gives-map Coherent Coherent _ _ (attempt_body-Coherent a s e v)
        (finish_connect_attempt-Coherent (resets env a))

  pub run_attempt-Coherent :
      (s : Surroundings) (e : Engine) → Coherent e → Gives Coherent (run_attempt env s e)
  unfolding run_attempt
  run_attempt-Coherent s e v = run-Coherent e.attempt s e v

  stop_connect_thread-Coherent :
      (s : Surroundings) (e : Engine) → Coherent e → Gives Coherent (stop_connect_thread env s e)
  unfolding stop_connect_thread
  stop_connect_thread-Coherent s e v =
      run_attempt-Coherent s (set_stop true e) (set_stop-Coherent true e v)

  leave_first-Coherent : (e : Engine) → Coherent e → Gives Coherent (leave_first env e)
  unfolding leave_first
  leave_first-Coherent e v =
      Gives-if Coherent e.net.attached _ _ (λ _. send_leave_or_close-Coherent env e v)
        (λ _. Gives-some Coherent e v)

  pub disconnect-Coherent :
      (s : Surroundings) (e : Engine) → Coherent e → Gives Coherent (disconnect env s e)
  unfolding disconnect
  disconnect-Coherent s e v =
      Gives-bind Coherent Coherent _ _ (stop_connect_thread-Coherent s e v) λ e1 w.
        Gives-map Coherent Coherent _ _ (leave_first-Coherent e1 w) handle_disconnect-Coherent

  without_server-Coherent : (e : Engine) → Coherent e → Coherent (without_server env e)
  unfolding without_server
  without_server-Coherent e v = net-Coherent e _ v refl refl refl refl

  pub stop_local_server-Coherent :
      (s : Surroundings) (e : Engine) → Coherent e → Gives Coherent (stop_local_server env s e)
  unfolding stop_local_server
  stop_local_server-Coherent s e v =
      Gives-map Coherent Coherent _ _ (disconnect-Coherent s e v) without_server-Coherent

  closed_down-Coherent : (e : Engine) → Coherent e → Coherent (closed_down env e)
  unfolding closed_down turned_off reset_session
  closed_down-Coherent e v =
      then-Coherent e.net.attached (turned_off env) _ _
        (detached-Coherent e _ v refl (λ h. cc h) refl)
        (offline-Coherent e _ v refl (λ h. cc h) refl)

  pub shutdown-Coherent :
      (s : Surroundings) (e : Engine) → Coherent e → Gives Coherent (shutdown env s e)
  unfolding shutdown
  shutdown-Coherent s e v =
      let e' = record e { net = record e.net { shut_down = true } } in
      Gives-if Coherent e.net.shut_down _ _ (λ _. Gives-some Coherent e v)
        (λ _.
          Gives-map Coherent Coherent _ _
            (stop_connect_thread-Coherent s e'
              (net-Coherent e (record e.net { shut_down = true }) v refl refl refl refl))
            closed_down-Coherent)
