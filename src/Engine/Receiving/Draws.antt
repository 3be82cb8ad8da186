-- ===== src/Engine/Receiving/Draws.antt =====
-- handle_draw on the frames of DRAW messages: each branch of the host's side and of a member's.
use sketch_sync.Prelude.{
  ◌≡◌, ◌≢◌, ◌↔◌, refl, ◌⊎◌, inl, inr, Bool, true, false, not, ◌&&◌, ◌||◌, if◌then◌else◌, some, ltb,
  ◌==◌, arith, Bool-cases, ◌∙◌, ap,
}
use mathlib.Core.Option
use sketch_sync.Results.{is_ok}
use sketch_sync.DrawOperation.{DrawOperation, validate_draw_operation}
use sketch_sync.DrawOperation.Codec.{operation_layout, parse_draw_operation-layout}
use sketch_sync.DrawOperation.Validity.{IsValid, validate_iff}
use sketch_sync.Protocol.CanvasState.RoundTrip.{IsStorable}
use sketch_sync.Canvas.{Canvas, contains_operation, next_sequence, apply}
use sketch_sync.Client.{Client}
use sketch_sync.Engine.{Engine, Environment, Call}
use sketch_sync.Engine.Calls.{with_call}
use sketch_sync.Engine.Calls.Sending.{tell_lem}
use sketch_sync.Engine.Receiving.{
  set_dirty, forget, with_applied, host_draw, member_draw, receive_draw, handle_draw,
}

module _ (env : Environment) where
  handle_draw-layout :
      (op : DrawOperation) (e : Engine)
      → IsStorable op
      → handle_draw env (operation_layout op) e ≡ receive_draw env op e
  unfolding handle_draw Option.bind
  handle_draw-layout op e v = rw (parse_draw_operation-layout op v.0 v.1) refl

  named : (op : DrawOperation) → IsValid op false → (op.operation_id == 0) ≡ false
  named op v = ground (arith, v.identified)

  host_draw-refused :
      (c : Client) (op : DrawOperation) (e : Engine)
      → (¬ IsValid op false) ⊎ (contains_operation op.operation_id e.surface ≡ true)
      → host_draw env c op e ≡ some e
  unfolding host_draw
  host_draw-refused c op e h = elim (Bool-cases (is_ok (validate_draw_operation op false))) [
    | inr bad ↦ rw bad refl
    | inl good ↦ elim h [
      | inl n ↦ absurd (n ((validate_iff op false).0 good))
      | inr known ↦ rw (good, named op ((validate_iff op false).0 good), known) refl
    ]
  ]

  host_draw-applied :
      (c : Client) (op : DrawOperation) (e : Engine)
      → IsStorable op
      → IsValid op false
      → contains_operation op.operation_id e.surface ≡ false
      → let applied = apply env.paint e.surface op in
        host_draw env c op e
        ≡ some (
            set_dirty (
              with_call c
                (Call.draw_raw (record op { seq = applied.1 }))
                (with_applied op applied e)))
  unfolding host_draw
  host_draw-applied c op e s v h =
      let applied = apply env.paint e.surface op in
      let op' : DrawOperation = record op { seq = applied.1 } in
      rw
        (
          (validate_iff op false).1 v,
          named op v,
          h,
          tell_lem env c (Call.draw_raw op') (with_applied op applied e) s.1,
        )
        refl

  received_host :
      (c : Client) (op : DrawOperation) (e : Engine)
      → e.client ≡ some c
      → c.host ≡ true
      → receive_draw env op e ≡ host_draw env c op (forget op.operation_id e)
  unfolding receive_draw
  received_host c op e attached host = ground (arith, attached, host)

  received_member :
      (c : Client) (op : DrawOperation) (e : Engine)
      → e.client ≡ some c
      → c.host ≡ false
      → receive_draw env op e ≡ member_draw env c op (forget op.operation_id e)
  unfolding receive_draw
  received_member c op e attached host = ground (arith, attached, host)

  -- What a host does with an operation that was drawn, but for the canvas and the call.
  pub accepted : DrawOperation → Canvas → Bool
  accepted op surface =
      is_ok (validate_draw_operation op false) && not (contains_operation op.operation_id surface)

  pub accepted_iff :
      (op : DrawOperation) (surface : Canvas)
      → (accepted op surface ≡ true)
        ↔ (IsValid op false × (contains_operation op.operation_id surface ≡ false))
  unfolding accepted
  accepted_iff op surface = (
    λ h. ((validate_iff op false).0 (ground (arith, h)), ground (arith, h)),
    λ h. rw ((validate_iff op false).1 h.0, h.1) refl,
  )

  pub handle_draw-accepted :
      (c : Client) (op : DrawOperation) (e : Engine)
      → e.client ≡ some c
      → c.host ≡ true
      → IsStorable op
      → IsValid op false
      → contains_operation op.operation_id e.surface ≡ false
      → let applied = apply env.paint e.surface op in
        handle_draw env (operation_layout op) e
        ≡ some (
            set_dirty (
              with_call c
                (Call.draw_raw (record op { seq = applied.1 }))
                (with_applied op applied (forget op.operation_id e))))
  unfolding forget
  handle_draw-accepted c op e attached host v valid new =
      handle_draw-layout op e v
      ∙ received_host c op e attached host
      ∙ host_draw-applied c op (forget op.operation_id e) v valid new

  pub handle_draw-refused :
      (c : Client) (op : DrawOperation) (e : Engine)
      → e.client ≡ some c
      → c.host ≡ true
      → IsStorable op
      → (¬ IsValid op false) ⊎ (contains_operation op.operation_id e.surface ≡ true)
      → handle_draw env (operation_layout op) e ≡ some (forget op.operation_id e)
  unfolding forget
  handle_draw-refused c op e attached host v refused =
      handle_draw-layout op e v
      ∙ received_host c op e attached host
      ∙ host_draw-refused c op (forget op.operation_id e) refused

  pub hosting_cases :
      (c : Client) (op : DrawOperation) (e : Engine)
      → e.client ≡ some c
      → c.host ≡ true
      → IsStorable op
      → let applied = apply env.paint e.surface op in
        let e' = forget op.operation_id e in
        handle_draw env (operation_layout op) e
        ≡ some (
            if accepted op e.surface
            then set_dirty (
                with_call c
                  (Call.draw_raw (record op { seq = applied.1 }))
                  (with_applied op applied e'))
            else e')
  unfolding accepted
  hosting_cases c op e attached host v =
      elim (Bool-cases (is_ok (validate_draw_operation op false))) [
        | inr bad ↦ rw bad (
            handle_draw-refused c op e attached host v
              (inl (λ w. cc (bad, (validate_iff op false).1 w))))
        | inl good ↦ elim (Bool-cases (contains_operation op.operation_id e.surface)) [
          | inl known ↦ rw (good, known) (handle_draw-refused c op e attached host v (inr known))
          | inr new ↦
              rw (good, new)
                (handle_draw-accepted c op e attached host v ((validate_iff op false).0 good) new)
        ]
      ]

  pub joined_cases :
      (c : Client) (op : DrawOperation) (e : Engine)
      → e.client ≡ some c
      → c.host ≡ false
      → IsStorable op
      → let expected = next_sequence e.surface in
        let e' = forget op.operation_id e in
        handle_draw env (operation_layout op) e
        ≡ some (
            if op.seq == 0 || ltb op.seq expected
            then e'
            else if ltb expected op.seq
            then with_call c Call.canvas_state_request e'
            else set_dirty (with_applied op (apply env.paint e.surface op) e'))
  unfolding forget member_draw
  joined_cases c op e attached host v =
      let e' = forget op.operation_id e in
      let start = handle_draw-layout op e v ∙ received_member c op e attached host in
      start ∙ ground (arith, tell_lem env c Call.canvas_state_request e' tt)

  pub handle_draw-due :
      (c : Client) (op : DrawOperation) (e : Engine)
      → e.client ≡ some c
      → c.host ≡ false
      → IsStorable op
      → op.seq ≢ 0
      → op.seq ≡ next_sequence e.surface
      → handle_draw env (operation_layout op) e
        ≡ some
            (set_dirty (with_applied op (apply env.paint e.surface op) (forget op.operation_id e)))
  handle_draw-due c op e attached host v h k =
      joined_cases c op e attached host v ∙ ap some (ground (arith, h, k))
