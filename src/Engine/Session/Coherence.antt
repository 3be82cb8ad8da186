-- ===== src/Engine/Session/Coherence.antt =====
-- The operations of session_manager keep its state, its client and the network's state together.
use sketch_sync.Prelude.{
  ℕ, ◌≡◌, ◌≢◌, refl, sym, ap, ◌∙◌, Bool, true, false, ◌||◌, Option, none, some,
}
use mathlib.Core.Option
use sketch_sync.Results.{Result, is_ok}
use sketch_sync.DrawOperation.{DrawOperation}
use sketch_sync.Client.{Client, in_session as has_session, mark_session_closed}
use sketch_sync.Engine.{Manager, Engine, Environment, JoiningState, Call}
use sketch_sync.Engine.Calls.{call, tell}
use sketch_sync.Engine.Preserving.{Gives, Gives-map, Gives-any, Gives-if, Gives-some}
use sketch_sync.Engine.Coherence.{if-Coherent, Plays, is_some, IsCoherent, Coherent}
use sketch_sync.Engine.Session.{
  prepare_join, prepare_create, clear_joining_state, reset_session, joined_request,
  send_join_request, created_request, send_create_request, send_leave_or_close, leave_session,
  track, broadcast_draw, broadcast_clear,
}

closed-Plays : (o : Option Client) → Plays (Option.map mark_session_closed o) false 0 false
closed-Plays none = refl
closed-Plays (some c) = λ e. cc e

closed_some : (o : Option Client) → is_some (Option.map mark_session_closed o) ≡ is_some o
closed_some none = refl
closed_some (some c) = refl

pub reset_session-Coherent : (e : Engine) → Coherent e → Coherent (reset_session e)
unfolding reset_session
reset_session-Coherent e v = record {
  not_leaving = λ h. cc h;
  not_closing = λ h. cc h;
  entered = λ h. cc h;
  plays = closed-Plays e.client;
  outside = λ _. (refl, refl);
  online = λ h k. closed_some e.client ∙ v.online h k;
  shown = v.shown;
  busy = v.busy;
}

-- Another state of joining, but for the three that follow an acknowledgement.
pub joining-Coherent :
    (e : Engine) (state : JoiningState) (session_id : ℕ)
    → Coherent e
    → state ≢ JoiningState.leaving
    → state ≢ JoiningState.closing
    → state ≢ JoiningState.in_session
    → IsCoherent
        (record e.manager { joining_state = state; session_id = session_id })
        e.net
        e.attempt
joining-Coherent e state session_id v h k l = record {
  not_leaving = h;
  not_closing = k;
  entered = λ p. absurd (l p);
  plays = v.plays;
  outside = v.outside;
  online = v.online;
  shown = v.shown;
  busy = v.busy;
}

pub prepare_join-Coherent :
    (session_id : ℕ) (e : Engine) → Coherent e → Coherent (prepare_join session_id e)
prepare_join-Coherent session_id e v =
    joining-Coherent e JoiningState.joining session_id v (λ h. cc h) (λ h. cc h) (λ h. cc h)

pub prepare_create-Coherent : (e : Engine) → Coherent e → Coherent (prepare_create e)
prepare_create-Coherent e v =
    joining-Coherent e JoiningState.creating e.session_id v (λ h. cc h) (λ h. cc h) (λ h. cc h)

pub clear_joining_state-Coherent : (e : Engine) → Coherent e → Coherent (clear_joining_state e)
clear_joining_state-Coherent e v =
    joining-Coherent e JoiningState.none e.session_id v (λ h. cc h) (λ h. cc h) (λ h. cc h)

pub Plays-eq :
    (o o' : Option Client) (b b' : Bool) (n n' : ℕ) (h h' : Bool)
    → o ≡ o'
    → b ≡ b'
    → n ≡ n'
    → h ≡ h'
    → Plays o' b' n' h'
    → Plays o b n h
Plays-eq o o' b b' n n' h h' p q r s v = rw (p, q, r, s) v

-- The manager's fields that no invariant reads.
pub manager-Coherent :
    (e : Engine) (m : Manager)
    → Coherent e
    → m.client ≡ e.client
    → m.in_session ≡ e.in_session
    → m.member_id ≡ e.member_id
    → m.hosting ≡ e.hosting
    → m.joining_state ≡ e.joining_state
    → IsCoherent m e.net e.attempt
manager-Coherent e m v client inside member hosting state = record {
  not_leaving = λ h. v.not_leaving (sym state ∙ h);
  not_closing = λ h. v.not_closing (sym state ∙ h);
  entered = λ h. inside ∙ v.entered (sym state ∙ h);
  plays =
      Plays-eq m.client e.client m.in_session e.in_session m.member_id e.member_id m.hosting
        e.hosting client inside member hosting v.plays;
  outside = λ h. let (a, b) = v.outside (sym inside ∙ h) in (hosting ∙ a, member ∙ b);
  online = λ h k. ap is_some client ∙ v.online h k;
  shown = v.shown;
  busy = v.busy;
}

module _ (env : Environment) where
  pub tell-Coherent :
      (c : Client) (m : Call) (e : Engine) → Coherent e → Gives Coherent (tell env c m e)
  unfolding tell
  tell-Coherent c m e v = Gives-map Coherent _ _ _ (Gives-any _) (λ r _. v)

  call-Coherent :
      (c : Client) (m : Call) (e : Engine) → Coherent e → Gives (λ p. Coherent p.1) (call env c m e)
  unfolding call
  call-Coherent c m e v = Gives-map (λ p. Coherent p.1) _ _ _ (Gives-any _) (λ r _. v)

  -- The operations that do nothing without a client.
  pub with_client-Coherent :
      (o : Option Client) (f : Client → Option Engine) (e : Engine)
      → Coherent e
      → ((c : Client) → Gives Coherent (f c))
      → Gives Coherent (elim o [ none ↦ some e | some c ↦ f c ])
  unfolding Gives
  with_client-Coherent none f e v k = v
  with_client-Coherent (some c) f e v k = k c

  joined_request-Coherent :
      (session_id : ℕ) (p : Result Bool × Engine)
      → Coherent p.1
      → Coherent (joined_request env session_id p)
  unfolding joined_request
  joined_request-Coherent session_id (r, e) v =
      if-Coherent (is_ok r) (prepare_join session_id e) e (prepare_join-Coherent session_id e v) v

  created_request-Coherent :
      (p : Result Bool × Engine) → Coherent p.1 → Coherent (created_request env p)
  unfolding created_request
  created_request-Coherent (r, e) v =
      if-Coherent (is_ok r) (prepare_create e) e (prepare_create-Coherent e v) v

  pub send_join_request-Coherent :
      (session_id : ℕ) (e : Engine)
      → Coherent e
      → Gives Coherent (send_join_request env session_id e)
  unfolding send_join_request
  send_join_request-Coherent session_id e v = with_client-Coherent e.client _ e v λ c.
      Gives-map Coherent (λ p. Coherent p.1) _ _ (call-Coherent c _ e v)
        (joined_request-Coherent session_id)

  pub send_create_request-Coherent :
      (e : Engine) → Coherent e → Gives Coherent (send_create_request env e)
  unfolding send_create_request
  send_create_request-Coherent e v = with_client-Coherent e.client _ e v λ c.
      Gives-map Coherent (λ p. Coherent p.1) _ _ (call-Coherent c _ e v) created_request-Coherent

  pub send_leave_or_close-Coherent :
      (e : Engine) → Coherent e → Gives Coherent (send_leave_or_close env e)
  unfolding send_leave_or_close
  send_leave_or_close-Coherent e v = with_client-Coherent e.client _ e v λ c.
      Gives-if Coherent e.in_session _ _ (λ _. tell-Coherent c _ e v) (λ _. Gives-some Coherent e v)

  pub leave_session-Coherent : (e : Engine) → Coherent e → Gives Coherent (leave_session env e)
  unfolding leave_session
  leave_session-Coherent e v =
      Gives-map Coherent Coherent _ _ (send_leave_or_close-Coherent e v) reset_session-Coherent

  track-Coherent :
      (b : Bool) (operation_id : ℕ) (e : Engine)
      → Coherent e
      → Coherent (track env b operation_id e)
  unfolding track
  track-Coherent true operation_id e v = manager-Coherent e _ v refl refl refl refl refl
  track-Coherent false operation_id e v = v

  pub broadcast_draw-Coherent :
      (op : DrawOperation) (b : Bool) (e : Engine)
      → Coherent e
      → Gives Coherent (broadcast_draw env op b e)
  unfolding broadcast_draw
  broadcast_draw-Coherent op b e v = with_client-Coherent e.client _ e v λ c.
      Gives-if Coherent (e.in_session || has_session c) _ _
        (λ _. tell-Coherent c _ _ (track-Coherent b op.operation_id e v))
        (λ _. Gives-some Coherent e v)

  pub broadcast_clear-Coherent : (e : Engine) → Coherent e → Gives Coherent (broadcast_clear env e)
  unfolding broadcast_clear
  broadcast_clear-Coherent e v = with_client-Coherent e.client _ e v λ c.
      Gives-if Coherent e.in_session _ _ (λ _. tell-Coherent c _ e v) (λ _. Gives-some Coherent e v)
