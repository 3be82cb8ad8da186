-- ===== src/Engine/Receiving/Keeping.antt =====
-- Whatever the server sends, a round of poll_session keeps the session manager's state, its client and the
-- network's state together.
use sketch_sync.Prelude.{
  ℕ, ◌≡◌, refl, sym, ap, ◌∙◌, Bool, true, false, not, ◌&&◌, ◌==◌, Option, none, some, List, [], ◌∷◌,
  ltb,
}
use mathlib.Core.Option
use sketch_sync.Results.{Result, is_ok}
use sketch_sync.Bytes.{Bytes}
use sketch_sync.DrawOperation.{DrawOperation, validate_draw_operation}
use sketch_sync.Protocol.{Message}
use sketch_sync.Protocol.Opcode
use sketch_sync.Protocol.Codes
use sketch_sync.Protocol.Session.{CreateAckMessage, JoinAckMessage}
use sketch_sync.Protocol.Replies.{MemberJoinedNotification, MemberLeftNotification}
use sketch_sync.Canvas.{contains_operation, next_sequence}
use sketch_sync.Client.{Client, set_session_info}
use sketch_sync.Files.{is_untitled}
use sketch_sync.Engine.{Manager, Engine, Environment, JoiningState}
use sketch_sync.Engine.JoiningState.{creating, joining, in_session, leaving, closing}
use sketch_sync.Engine.Preserving.{Gives, Gives-map, Gives-bind, Gives-any, Gives-if, Gives-some}
use sketch_sync.Engine.Coherence.{
  if-Coherent, Plays, is_some, IsCoherent, Coherent, offline-Coherent,
}
use sketch_sync.Engine.Session.{reset_session}
use sketch_sync.Engine.Session.Coherence.{
  Plays-eq, tell-Coherent, with_client-Coherent, manager-Coherent, reset_session-Coherent,
  clear_joining_state-Coherent,
}
use sketch_sync.Engine.Receiving.{
  cleared, save_cleared, handle_clear, member_joined, member_left, handle_code, handle_notification,
  forget, host_draw, member_draw, receive_draw, handle_draw, load_state, handle_canvas_state,
  created, request_state, joined, acknowledge, handle_ack, handle_error, share_canvas,
  handle_message, receive_failed, poll_with, poll_round,
}

member_joined-Coherent :
    (n : Result MemberJoinedNotification) (e : Engine) → Coherent e → Coherent (member_joined n e)
unfolding member_joined
member_joined-Coherent n e v =
    if-Coherent (is_ok n) _ e (manager-Coherent e _ v refl refl refl refl refl) v

member_left-Coherent :
    (n : Result MemberLeftNotification) (e : Engine) → Coherent e → Coherent (member_left n e)
unfolding member_left
member_left-Coherent n e v =
    if-Coherent (is_ok n) _ e (manager-Coherent e _ v refl refl refl refl refl) v

handle_code-Coherent :
    (code : ℕ) (payload : Bytes) (e : Engine)
    → Coherent e
    → Gives Coherent (handle_code code payload e)
unfolding handle_code
handle_code-Coherent code payload e v =
    Gives-if Coherent (code == Codes.member_joined) _ _
      (λ _. Gives-map Coherent _ _ _ (Gives-any _) (λ n _. member_joined-Coherent n e v))
      λ _.
        Gives-if Coherent (code == Codes.member_left) _ _
          (λ _. Gives-map Coherent _ _ _ (Gives-any _) (λ n _. member_left-Coherent n e v))
          λ _.
            Gives-if Coherent (code == Codes.session_closed) _ _
              (λ _. Gives-some Coherent _ (reset_session-Coherent e v))
              (λ _. Gives-some Coherent e v)

handle_notification-Coherent :
    (payload : Bytes) (e : Engine) → Coherent e → Gives Coherent (handle_notification payload e)
unfolding handle_notification
handle_notification-Coherent [] e v = Gives-some Coherent e v
handle_notification-Coherent (code ∷ rest) e v = handle_code-Coherent code (code ∷ rest) e v

forget-Coherent : (operation_id : ℕ) (e : Engine) → Coherent e → Coherent (forget operation_id e)
unfolding forget
forget-Coherent operation_id e v = manager-Coherent e _ v refl refl refl refl refl

entered-Plays :
    (o : Option Client) (session_id member_id : ℕ) (host : Bool)
    → is_some o ≡ true
    → Plays (Option.map (set_session_info member_id session_id host) o) true member_id host
entered-Plays none session_id member_id host h = cc h
entered-Plays (some c) session_id member_id host h = λ _. (refl, refl)

info_some :
    (o : Option Client) (session_id member_id : ℕ) (host : Bool)
    → is_some (Option.map (set_session_info member_id session_id host) o) ≡ is_some o
info_some none session_id member_id host = refl
info_some (some c) session_id member_id host = refl

module _ (env : Environment) where
  pub save_cleared-Coherent : (e : Engine) → Coherent e → Gives Coherent (save_cleared env e)
  unfolding save_cleared
  save_cleared-Coherent e v =
      Gives-if Coherent (e.files.auto_save_on && not (is_untitled e.files)) _ _
        (λ _. Gives-map Coherent _ _ _ (Gives-any _) (λ f _. v)) (λ _. Gives-some Coherent e v)

  handle_clear-Coherent : (e : Engine) → Coherent e → Gives Coherent (handle_clear env e)
  unfolding handle_clear
  handle_clear-Coherent e v =
      Gives-map Coherent Coherent _ _ (save_cleared-Coherent (cleared e) v) (λ e' w. w)

  host_draw-Coherent :
      (c : Client) (op : DrawOperation) (e : Engine)
      → Coherent e
      → Gives Coherent (host_draw env c op e)
  unfolding host_draw
  host_draw-Coherent c op e v =
      Gives-if Coherent (not (is_ok (validate_draw_operation op false))) _ _
        (λ _. Gives-some Coherent e v)
        λ _.
          Gives-if Coherent
            (not (op.operation_id == 0) && contains_operation op.operation_id e.surface) _ _
            (λ _. Gives-some Coherent e v)
            (λ _. Gives-map Coherent Coherent _ _ (tell-Coherent env c _ _ v) (λ e' w. w))

  member_draw-Coherent :
      (c : Client) (op : DrawOperation) (e : Engine)
      → Coherent e
      → Gives Coherent (member_draw env c op e)
  unfolding member_draw
  member_draw-Coherent c op e v =
      Gives-if Coherent (op.seq == 0) _ _ (λ _. Gives-some Coherent e v)
        λ _.
          Gives-if Coherent (ltb (next_sequence e.surface) op.seq) _ _
            (λ _. tell-Coherent env c _ e v)
            λ _.
              Gives-if Coherent (ltb op.seq (next_sequence e.surface)) _ _
                (λ _. Gives-some Coherent e v) (λ _. Gives-some Coherent _ v)

  receive_draw-Coherent :
      (op : DrawOperation) (e : Engine) → Coherent e → Gives Coherent (receive_draw env op e)
  unfolding receive_draw
  receive_draw-Coherent op e v =
      let e' = forget op.operation_id e in
      let v' = forget-Coherent op.operation_id e v in
      with_client-Coherent env e.client _ e' v' λ c.
        Gives-if Coherent c.host _ _ (λ _. host_draw-Coherent c op e' v')
          (λ _. member_draw-Coherent c op e' v')

  handle_draw-Coherent :
      (payload : Bytes) (e : Engine) → Coherent e → Gives Coherent (handle_draw env payload e)
  unfolding handle_draw
  handle_draw-Coherent payload e v = Gives-bind Coherent _ _ _ (Gives-any _) λ r _.
      Gives-if Coherent (is_ok r) _ _ (λ _. receive_draw-Coherent r.value e v)
        (λ _. Gives-some Coherent e v)

  load_state-Coherent :
      (r : Result (List DrawOperation)) (e : Engine) → Coherent e → Coherent (load_state env r e)
  unfolding load_state
  load_state-Coherent r e v = if-Coherent (is_ok r) _ e v v

  -- The part of handle_ack that makes the engine a member: its client is there.
  entered-Coherent :
      (e : Engine) (session_id member_id : ℕ) (host : Bool) (m : Manager)
      → Coherent e
      → is_some e.client ≡ true
      → m.client ≡ Option.map (set_session_info member_id session_id host) e.client
      → m.in_session ≡ true
      → m.member_id ≡ member_id
      → m.hosting ≡ host
      → m.joining_state ≡ JoiningState.in_session
      → IsCoherent m e.net e.attempt
  entered-Coherent e session_id member_id host m v here client inside member hosting state =
      record {
        not_leaving = λ h. cc (state, h);
        not_closing = λ h. cc (state, h);
        entered = λ _. inside;
        plays =
            Plays-eq m.client _ m.in_session true m.member_id member_id m.hosting host client inside
              member hosting (entered-Plays e.client session_id member_id host here);
        outside = λ h. cc (inside, h);
        online = λ _ _. ap is_some client ∙ info_some e.client session_id member_id host ∙ here;
        shown = v.shown;
        busy = v.busy;
      }

  created-Coherent :
      (ack : Result CreateAckMessage) (e : Engine)
      → Coherent e
      → is_some e.client ≡ true
      → Coherent (created env ack e)
  unfolding created
  created-Coherent ack e v here =
      if-Coherent (is_ok ack && ack.value.ack_code == Codes.create_ok) _ e
        (entered-Coherent e ack.value.session_id ack.value.member_id true _ v here refl refl refl
          refl refl)
        v

  request_state-Coherent : (e : Engine) → Coherent e → Gives Coherent (request_state env e)
  unfolding request_state
  request_state-Coherent e v =
      with_client-Coherent env e.client _ e v (λ c. tell-Coherent env c _ e v)

  joined-Coherent :
      (ack : Result JoinAckMessage) (e : Engine)
      → Coherent e
      → is_some e.client ≡ true
      → Gives Coherent (joined env ack e)
  unfolding joined
  joined-Coherent ack e v here =
      Gives-if Coherent (is_ok ack && ack.value.ack_code == Codes.join_ok) _ _
        (λ _. request_state-Coherent _ (
          entered-Coherent e e.session_id ack.value.member_id false _ v here refl refl refl refl
            refl))
        (λ _. Gives-some Coherent e v)

  acknowledge-Coherent :
      (state : JoiningState) (payload : Bytes) (e : Engine)
      → state ≡ e.joining_state
      → Coherent e
      → is_some e.client ≡ true
      → Gives Coherent (acknowledge env state payload e)
  unfolding acknowledge
  acknowledge-Coherent creating payload e h v here =
      Gives-map Coherent _ _ _ (Gives-any _) (λ ack _. created-Coherent ack e v here)
  acknowledge-Coherent joining payload e h v here =
      Gives-bind Coherent _ _ _ (Gives-any _) (λ ack _. joined-Coherent ack e v here)
  acknowledge-Coherent leaving payload e h v here = absurd (v.not_leaving (sym h))
  acknowledge-Coherent closing payload e h v here = absurd (v.not_closing (sym h))
  acknowledge-Coherent JoiningState.none payload e h v here = Gives-some Coherent e v
  acknowledge-Coherent in_session payload e h v here = Gives-some Coherent e v

  share_canvas-Coherent :
      (c : Client) (e : Engine) → Coherent e → Gives Coherent (share_canvas env c e)
  unfolding share_canvas
  share_canvas-Coherent c e v =
      Gives-if Coherent c.host _ _ (λ _. tell-Coherent env c _ e v) (λ _. Gives-some Coherent e v)

  handle_message-Coherent :
      (c : Client) (msg : Message) (e : Engine)
      → Coherent e
      → is_some e.client ≡ true
      → Gives Coherent (handle_message env c msg e)
  unfolding handle_message handle_canvas_state handle_ack handle_error
  handle_message-Coherent c msg e v here =
      let op = msg.header.opcode in
      let P = Coherent in
      Gives-if P (op == Opcode.notification) _ _ (λ _. handle_notification-Coherent msg.payload e v)
        λ _.
          Gives-if P (op == Opcode.draw) _ _ (λ _. handle_draw-Coherent msg.payload e v)
            λ _.
              Gives-if P (op == Opcode.canvas_clear) _ _ (λ _. handle_clear-Coherent e v)
                λ _.
                  Gives-if P (op == Opcode.canvas_state) _ _
                    (λ _. Gives-map P _ _ _ (Gives-any _) (λ r _. load_state-Coherent r e v))
                    λ _.
                      Gives-if P (op == Opcode.ack) _ _
                        (λ _. acknowledge-Coherent e.joining_state msg.payload e refl v here)
                        λ _.
                          Gives-if P (op == Opcode.error_msg) _ _
                            (λ _. Gives-map P _ _ _ (Gives-any _) (λ r _.
                              if-Coherent (is_ok r) _ e (clear_joining_state-Coherent e v) v))
                            λ _.
                              Gives-if P (op == Opcode.canvas_state_request) _ _
                                (λ _. share_canvas-Coherent c e v) (λ _. Gives-some P e v)

  receive_failed-Coherent : (e : Engine) → Coherent e → Coherent (receive_failed env e)
  unfolding receive_failed reset_session
  receive_failed-Coherent e v =
      if-Coherent e.net.stop_poll e _ v
        (offline-Coherent (reset_session e) _ (reset_session-Coherent e v) refl (λ h. cc h) refl)

  poll_with-Coherent :
      (o : Option Client) (msg_res : Result Message) (e : Engine)
      → o ≡ e.client
      → Coherent e
      → Gives (λ r. Coherent r.0) (poll_with env o msg_res e)
  unfolding poll_with
  poll_with-Coherent none msg_res e h v = Gives-some (λ r. Coherent r.0) (e, true) v
  poll_with-Coherent (some c) msg_res e h v =
      let P : Engine × Bool → Type 0 = λ r. Coherent r.0 in
      Gives-if P (is_ok msg_res) _ _
        (λ _.
          Gives-map P Coherent _ _
            (handle_message-Coherent c msg_res.value e v (ap is_some (sym h))) (λ e' w. w))
        (λ _. Gives-some P (receive_failed env e, false) (receive_failed-Coherent e v))

  pub poll_round-Coherent :
      (msg_res : Result Message) (e : Engine)
      → Coherent e
      → Gives (λ r. Coherent r.0) (poll_round env msg_res e)
  unfolding poll_round
  poll_round-Coherent msg_res e v = poll_with-Coherent e.client msg_res e refl v
