-- ===== src/Engine/Steps/Reachable.antt =====
-- The drawing program after any steps.
use sketch_sync.Prelude.{refl}
use sketch_sync.Canvas.{Canvas}
use sketch_sync.Files.{Files}
use sketch_sync.Engine.{Engine, Environment, new_engine, new_manager, new_network}
use sketch_sync.Engine.Preserving.{Gives-result}
use sketch_sync.Engine.Coherence.{Coherent, net-Coherent}
use sketch_sync.Engine.Session.Coherence.{manager-Coherent, leave_session-Coherent}
use sketch_sync.Engine.Receiving.Keeping.{poll_round-Coherent}
use sketch_sync.Engine.Connection.Coherence.{
  async_connect_to_server-Coherent, async_start_local_server-Coherent, toggle_protocol-Coherent,
}
use sketch_sync.Engine.Connection.Requests.Keeping.{
  join_session-Coherent, create_session-Coherent, run_attempt-Coherent, disconnect-Coherent,
  stop_local_server-Coherent,
}
use sketch_sync.Engine.Input.Keeping.{
  process_canvas_input-Coherent, clear_canvas-Coherent, open_pressed-Coherent,
  save_pressed-Coherent, save_as_pressed-Coherent, auto_save_pressed-Coherent, save_synced-Coherent,
  whole_shutdown-Coherent,
}
use sketch_sync.Engine.Steps.{Step, Reaches}
use sketch_sync.Engine.Steps.Step.{
  types_id, types_endpoint, redraws, joins, creates, leaves, polls, connects, starts_server,
  attempts, disconnects, stops_server, toggles, draws, clears, opens, saves, saves_as,
  toggles_saving, saves_synced, ends,
}

pub new_engine-Coherent : (surface : Canvas) (files : Files) → Coherent (new_engine surface files)
unfolding new_engine new_manager new_network
new_engine-Coherent surface files = record {
  not_leaving = λ h. cc h;
  not_closing = λ h. cc h;
  entered = λ h. cc h;
  plays = refl;
  outside = λ _. (refl, refl);
  online = λ h k. cc h;
  shown = λ h. cc h;
  busy = refl;
}

module _ (env : Environment) where
  -- Every step keeps what holds between steps.
  Step-Coherent : (e e' : Engine) → Coherent e → Step env e e' → Coherent e'
  Step-Coherent e _ v (types_id input) = manager-Coherent e _ v refl refl refl refl refl
  Step-Coherent e _ v (types_endpoint host port) = net-Coherent e _ v refl refl refl refl
  Step-Coherent e _ v redraws = v
  Step-Coherent e e' v (joins _ h) = Gives-result Coherent _ e' (join_session-Coherent env e v) h
  Step-Coherent e e' v (creates _ h) =
      Gives-result Coherent _ e' (create_session-Coherent env e v) h
  Step-Coherent e e' v (leaves _ h) = Gives-result Coherent _ e' (leave_session-Coherent env e v) h
  Step-Coherent e e' v (polls msg_res goes_on _ h) =
      Gives-result (λ r. Coherent r.0) _ (e', goes_on) (poll_round-Coherent env msg_res e v) h
  Step-Coherent e _ v connects = async_connect_to_server-Coherent e v
  Step-Coherent e _ v starts_server = async_start_local_server-Coherent e v
  Step-Coherent e e' v (attempts s _ h) =
      Gives-result Coherent _ e' (run_attempt-Coherent env s e v) h
  Step-Coherent e e' v (disconnects s _ h) =
      Gives-result Coherent _ e' (disconnect-Coherent env s e v) h
  Step-Coherent e e' v (stops_server s _ h) =
      Gives-result Coherent _ e' (stop_local_server-Coherent env s e v) h
  Step-Coherent e _ v toggles = toggle_protocol-Coherent e v
  Step-Coherent e e' v (draws palette input _ h) =
      Gives-result Coherent _ e' (process_canvas_input-Coherent env palette input e v) h
  Step-Coherent e e' v (clears _ h) = Gives-result Coherent _ e' (clear_canvas-Coherent env e v) h
  Step-Coherent e e' v (opens chosen _ h) =
      Gives-result Coherent _ e' (open_pressed-Coherent env chosen e v) h
  Step-Coherent e e' v (saves chosen _ h) =
      Gives-result Coherent _ e' (save_pressed-Coherent env chosen e v) h
  Step-Coherent e e' v (saves_as chosen _ h) =
      Gives-result Coherent _ e' (save_as_pressed-Coherent env chosen e v) h
  Step-Coherent e e' v (toggles_saving chosen _ h) =
      Gives-result Coherent _ e' (auto_save_pressed-Coherent env chosen e v) h
  Step-Coherent e e' v (saves_synced _ h) =
      Gives-result Coherent _ e' (save_synced-Coherent env e v) h
  Step-Coherent e e' v (ends s _ h) =
      Gives-result Coherent _ e' (whole_shutdown-Coherent env s e v) h

  -- Whatever the user, the server and the connection threads do from the start of the program, in any order:
  -- joining never gets into the states leaving and closing, and gets into in_session only in a session; a
  -- program in a session has a client, which holds the same role and member id; one outside has neither; one that
  -- is connected has a client, unless its network has shut down; the state that is shown as connected is; and
  -- an attempt to connect is under way exactly if there is a thread for it.
  pub Reaches-Coherent :
      (surface : Canvas) (files : Files) (e : Engine)
      → Reaches env (new_engine surface files) e
      → Coherent e
  Reaches-Coherent surface files _ Reaches.here = new_engine-Coherent surface files
  Reaches-Coherent surface files e (Reaches.after d _ r s) =
      Step-Coherent d e (Reaches-Coherent surface files d r) s
