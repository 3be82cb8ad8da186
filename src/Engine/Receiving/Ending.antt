-- ===== src/Engine/Receiving/Ending.antt =====
-- A round of poll_session ends, whatever the server sends.
use sketch_sync.Prelude.{
  ℕ, ◌≤◌, ◌≡◌, refl, sym, Bool, true, false, not, ◌&&◌, ◌==◌, Option, none, some, List, [], ◌∷◌,
  arith, All, inl, inr, Option-cases, length, ltb, if◌then◌else◌,
}
use mathlib.Core.Option
use mathlib.Core.Path.{subst}
use sketch_sync.Results.{Result, is_ok}
use sketch_sync.Bytes.{Bytes}
use sketch_sync.DrawOperation.{DrawOperation, validate_draw_operation}
use sketch_sync.DrawOperation.Codec.{parse_draw_operation-total}
use sketch_sync.DrawOperation.Validity.{validate_iff}
use sketch_sync.Protocol.{Message}
use sketch_sync.Protocol.Opcode
use sketch_sync.Protocol.Codes
use sketch_sync.Protocol.Session.{JoinAckMessage}
use sketch_sync.Protocol.Session.RoundTrip.{parse_create_ack-total, parse_join_ack-total}
use sketch_sync.Protocol.Replies.RoundTrip.{
  parse_error-total, parse_member_joined-total, parse_member_left-total,
}
use sketch_sync.Protocol.CanvasState.RoundTrip.{IsStorable, parse_canvas_state-total}
use sketch_sync.Canvas.{snapshot, contains_operation, next_sequence, apply}
use sketch_sync.Canvas.Log.{clear_history-snapshot}
use sketch_sync.Persistence.Writing.{queued}
use sketch_sync.Client.{Client}
use sketch_sync.Files.Saving.{CanStop, save_to_file-total}
use sketch_sync.Files.{is_untitled}
use sketch_sync.Engine.{Engine, Environment, JoiningState, Call}
use sketch_sync.Engine.JoiningState.{creating, joining, in_session, leaving, closing}
use sketch_sync.Engine.Calls
use sketch_sync.Engine.Calls.{with_call}
use sketch_sync.Engine.Calls.Sending.{CanSend, tell_lem}
use sketch_sync.Engine.Receiving.{
  cleared, save_cleared, handle_clear, handle_code, handle_notification, with_applied, host_draw,
  member_draw, receive_draw, handle_draw, handle_canvas_state, request_state, joined, acknowledge,
  handle_ack, handle_error, share_canvas, handle_message, poll_with, poll_round,
}

-- An operation returns: no buffer is left, and no loop runs on.
abbrev pub Ends {ℓ} : {A : Type ℓ} → Option A → Type ℓ
Ends {A} o = (a : A) × (o ≡ some a)

-- What the engine holds can be written.
pub record IsWritable (e : Engine) : Type 0 where
  pub log : All IsStorable (snapshot e.surface)
  pub queue : CanStop e.files.operation_log

Ends-map {ℓ κ} :
    {A : Type ℓ} {B : Type κ} (f : A → B) (o : Option A) → Ends o → Ends (Option.map f o)
Ends-map f o (a, e) = rw e (f a, refl)

Ends-bind {ℓ κ} :
    {A : Type ℓ} {B : Type κ} (o : Option A) (f : A → Option B)
    → Ends o
    → ((a : A) → Ends (f a))
    → Ends (Option.bind o f)
unfolding Option.bind
Ends-bind o f (a, e) k = rw e (k a)

Ends-if {ℓ} :
    {A : Type ℓ} (b : Bool) (o p : Option A)
    → (b ≡ true → Ends o)
    → (b ≡ false → Ends p)
    → Ends (if b then o else p)
Ends-if true o p h k = h refl
Ends-if false o p h k = k refl

Ends-some {ℓ} : {A : Type ℓ} (a : A) → Ends (some a)
Ends-some a = (a, refl)

module _ (env : Environment)
    (in_order : (queue : List DrawOperation) → queued (env.schedule queue) ≡ queue) where
  Ends-tell : (c : Client) (m : Call) (e : Engine) → CanSend m → Ends (Calls.tell env c m e)
  Ends-tell c m e h = (with_call c m e, tell_lem env c m e h)

  host_draw-Ends : (c : Client) (op : DrawOperation) (e : Engine) → Ends (host_draw env c op e)
  unfolding host_draw
  host_draw-Ends c op e =
      Ends-if (not (is_ok (validate_draw_operation op false))) _ _ (λ _. Ends-some e)
        λ good.
          Ends-if (not (op.operation_id == 0) && contains_operation op.operation_id e.surface) _ _
            (λ _. Ends-some e)
            λ _.
              let v = (validate_iff op false).0 (ground (arith, good)) in
              let few : length op.points ≤ 65535 = v.bounded in
              let applied = apply env.paint e.surface op in
              Ends-map _ _ (
                Ends-tell c (Call.draw_raw (record op { seq = applied.1 }))
                  (with_applied op applied e) (omega arith))

  member_draw-Ends : (c : Client) (op : DrawOperation) (e : Engine) → Ends (member_draw env c op e)
  unfolding member_draw
  member_draw-Ends c op e =
      Ends-if (op.seq == 0) _ _ (λ _. Ends-some e)
        λ _.
          Ends-if (ltb (next_sequence e.surface) op.seq) _ _
            (λ _. Ends-tell c Call.canvas_state_request e tt)
            λ _.
              Ends-if (ltb op.seq (next_sequence e.surface)) _ _ (λ _. Ends-some e)
                (λ _. Ends-some _)

  receive_draw-Ends : (op : DrawOperation) (e : Engine) → Ends (receive_draw env op e)
  unfolding receive_draw
  receive_draw-Ends op e = elim (Option-cases e.client) [
    | inl h ↦ rw h (Ends-some _)
    | inr (c, h) ↦
        rw h (Ends-if c.host _ _ (λ _. host_draw-Ends c op _) (λ _. member_draw-Ends c op _))
  ]

  handle_draw-Ends : (payload : Bytes) (e : Engine) → Ends (handle_draw env payload e)
  unfolding handle_draw
  handle_draw-Ends payload e =
      Ends-bind _ _ (parse_draw_operation-total payload)
        λ r. Ends-if (is_ok r) _ _ (λ _. receive_draw-Ends r.value e) (λ _. Ends-some e)

  handle_clear-Ends : (e : Engine) → IsWritable e → Ends (handle_clear env e)
  unfolding handle_clear save_cleared
  handle_clear-Ends e w =
      let e' = cleared e in
      let empty = subst (All IsStorable) (sym (clear_history-snapshot e.surface)) tt in
      Ends-map _ _ (
        Ends-if (e.files.auto_save_on && not (is_untitled e.files)) _ _
          (λ _. Ends-map _ _ (
            save_to_file-total env.can_open env.schedule in_order e.files.current_file e'.surface
              e.files empty w.queue))
          (λ _. Ends-some _))

  handle_code-Ends : (code : ℕ) (payload : Bytes) (e : Engine) → Ends (handle_code code payload e)
  unfolding handle_code
  handle_code-Ends code payload e =
      Ends-if (code == Codes.member_joined) _ _
        (λ _. Ends-map _ _ (parse_member_joined-total payload))
        λ _.
          Ends-if (code == Codes.member_left) _ _
            (λ _. Ends-map _ _ (parse_member_left-total payload))
            λ _. Ends-if (code == Codes.session_closed) _ _ (λ _. Ends-some _) (λ _. Ends-some _)

  handle_notification-Ends : (payload : Bytes) (e : Engine) → Ends (handle_notification payload e)
  unfolding handle_notification
  handle_notification-Ends [] e = Ends-some e
  handle_notification-Ends (code ∷ rest) e = handle_code-Ends code (code ∷ rest) e

  request_state-Ends : (e : Engine) → Ends (request_state env e)
  unfolding request_state
  request_state-Ends e = elim (Option-cases e.client) [
    | inl h ↦ rw h (Ends-some _)
    | inr (c, h) ↦ rw h (Ends-tell c Call.canvas_state_request _ tt)
  ]

  joined-Ends : (ack : Result JoinAckMessage) (e : Engine) → Ends (joined env ack e)
  unfolding joined
  joined-Ends ack e =
      Ends-if (is_ok ack && ack.value.ack_code == Codes.join_ok) _ _ (λ _. request_state-Ends _)
        (λ _. Ends-some e)

  acknowledge-Ends :
      (state : JoiningState) (payload : Bytes) (e : Engine) → Ends (acknowledge env state payload e)
  unfolding acknowledge
  acknowledge-Ends creating payload e = Ends-map _ _ (parse_create_ack-total payload)
  acknowledge-Ends joining payload e =
      Ends-bind _ _ (parse_join_ack-total payload) (λ ack. joined-Ends ack e)
  acknowledge-Ends leaving payload e = Ends-some _
  acknowledge-Ends closing payload e = Ends-some _
  acknowledge-Ends JoiningState.none payload e = Ends-some e
  acknowledge-Ends in_session payload e = Ends-some e

  share_canvas-Ends : (c : Client) (e : Engine) → IsWritable e → Ends (share_canvas env c e)
  unfolding share_canvas
  share_canvas-Ends c e w =
      Ends-if c.host _ _ (λ _. Ends-tell c (Call.canvas_state (snapshot e.surface)) e w.log)
        (λ _. Ends-some e)

  handle_message-Ends :
      (c : Client) (msg : Message) (e : Engine) → IsWritable e → Ends (handle_message env c msg e)
  unfolding handle_message handle_canvas_state handle_ack handle_error
  handle_message-Ends c msg e w =
      let op = msg.header.opcode in
      Ends-if (op == Opcode.notification) _ _ (λ _. handle_notification-Ends msg.payload e)
        λ _.
          Ends-if (op == Opcode.draw) _ _ (λ _. handle_draw-Ends msg.payload e)
            λ _.
              Ends-if (op == Opcode.canvas_clear) _ _ (λ _. handle_clear-Ends e w)
                λ _.
                  Ends-if (op == Opcode.canvas_state) _ _
                    (λ _. Ends-map _ _ (parse_canvas_state-total msg.payload))
                    λ _.
                      Ends-if (op == Opcode.ack) _ _
                        (λ _. acknowledge-Ends e.joining_state msg.payload e)
                        λ _.
                          Ends-if (op == Opcode.error_msg) _ _
                            (λ _. Ends-map _ _ (parse_error-total msg.payload))
                            λ _.
                              Ends-if (op == Opcode.canvas_state_request) _ _
                                (λ _. share_canvas-Ends c e w) (λ _. Ends-some e)

  poll_with-Ends :
      (o : Option Client) (msg_res : Result Message) (e : Engine)
      → IsWritable e
      → Ends (poll_with env o msg_res e)
  unfolding poll_with
  poll_with-Ends none msg_res e w = Ends-some _
  poll_with-Ends (some c) msg_res e w =
      Ends-if (is_ok msg_res) _ _ (λ _. Ends-map _ _ (handle_message-Ends c msg_res.value e w))
        (λ _. Ends-some _)

  -- Whatever the connection hands to poll_session, any bytes or a failure, in whatever state the session is,
  -- the round ends without an access outside a buffer, as long as the operations of the canvas and those that
  -- wait for the writer can be written. The batches of the writer's thread keep the order of its queue.
  pub poll_round-total :
      (msg_res : Result Message) (e : Engine) → IsWritable e → Ends (poll_round env msg_res e)
  unfolding poll_round
  poll_round-total msg_res e w = poll_with-Ends e.client msg_res e w
