-- ===== src/Engine/Receiving/Received.antt =====
-- handle_draw on the frames of DRAW messages, field by field: the canvas, the writer's queue, the pending ids and
-- the messages that are sent.
use sketch_sync.Prelude.{
  ℕ, ◌≡◌, ◌≢◌, ◌↔◌, refl, sym, ◌∙◌, ap, Bool, true, false, not, ◌&&◌, ◌||◌, if◌then◌else◌, some,
  List, [], ◌∷◌, ◌++◌, append-nil, ltb, ◌==◌, arith,
}
use sketch_sync.DrawOperation.{DrawOperation}
use sketch_sync.DrawOperation.Codec.{operation_layout}
use sketch_sync.DrawOperation.Validity.{IsValid}
use sketch_sync.Protocol.CanvasState.RoundTrip.{IsStorable}
use sketch_sync.Canvas.{Canvas, contains, contains_operation, next_sequence, apply}
use sketch_sync.Client.{Client}
use sketch_sync.Files.Queue.{queued_too, enqueue_if_auto_save-queued}
use sketch_sync.Engine.{Engine, Environment, Call}
use sketch_sync.Engine.Calls.{with_call}
use sketch_sync.Engine.Receiving.{remove, set_dirty, forget, with_applied, handle_draw}
use sketch_sync.Engine.Receiving.Draws.{accepted, accepted_iff, hosting_cases, joined_cases}

contains-remove :
    (x y : ℕ) (ys : List ℕ) → contains x (remove y ys) ≡ (not (x == y) && contains x ys)
unfolding contains remove
contains-remove x y [] = ground arith
contains-remove x y (z ∷ zs) = ground (arith, contains-remove x y zs)

module _ (env : Environment) where
  -- The program after it received `op`: `taken` says whether the canvas applied it, `sent` lists the calls
  -- of the session client.
  pub record HasReceived (op : DrawOperation) (taken : Bool) (sent : List (Client × Call))
      (e e' : Engine) : Type 0 where
    pub surface : e'.surface ≡ (if taken then (apply env.paint e.surface op).0 else e.surface)
    pub files : e'.files ≡ (
        if taken
        then queued_too (record op { seq = (apply env.paint e.surface op).1 }) e.files
        else e.files)
    pub calls : e'.calls ≡ e.calls ++ sent
    pub dirty : e'.dirty ≡ (taken || e.dirty)
    pub pending :
        (x : ℕ)
        → contains x e'.pending_operations
          ≡ (not (x == op.operation_id) && contains x e.pending_operations)
    pub manager : e'.manager ≡ record e.manager { pending_operations = e'.pending_operations }
    pub net : e'.net ≡ e.net
    pub active_stroke : e'.active_stroke ≡ e.active_stroke
    pub attempt : e'.attempt ≡ e.attempt

  forget-HasReceived :
      (op : DrawOperation) (e : Engine) → HasReceived op false [] e (forget op.operation_id e)
  unfolding forget
  forget-HasReceived op e = record {
    surface = refl;
    files = refl;
    calls = sym (append-nil e.calls);
    dirty = refl;
    pending = λ x. contains-remove x op.operation_id e.pending_operations;
    manager = refl;
    net = refl;
    active_stroke = refl;
    attempt = refl;
  }

  with_call-HasReceived :
      (op : DrawOperation) (taken : Bool) (c : Client) (m : Call) (e e' : Engine)
      → HasReceived op taken [] e e'
      → HasReceived op taken ((c, m) ∷ []) e (with_call c m e')
  with_call-HasReceived op taken c m e e' h = record {
    surface = h.surface;
    files = h.files;
    calls = ap (λ calls. calls ++ (c, m) ∷ []) (h.calls ∙ append-nil e.calls);
    dirty = h.dirty;
    pending = h.pending;
    manager = h.manager;
    net = h.net;
    active_stroke = h.active_stroke;
    attempt = h.attempt;
  }

  with_applied-HasReceived :
      (op : DrawOperation) (e : Engine)
      → let applied = apply env.paint e.surface op in
        HasReceived op true [] e (set_dirty (with_applied op applied (forget op.operation_id e)))
  unfolding forget
  with_applied-HasReceived op e =
      let applied = apply env.paint e.surface op in
      record {
        surface = refl;
        files = enqueue_if_auto_save-queued (record op { seq = applied.1 }) e.files;
        calls = sym (append-nil e.calls);
        dirty = refl;
        pending = λ x. contains-remove x op.operation_id e.pending_operations;
        manager = refl;
        net = refl;
        active_stroke = refl;
        attempt = refl;
      }

  host_cases :
      (c : Client) (op : DrawOperation) (e : Engine) (taken : Bool)
      → let applied = apply env.paint e.surface op in
        let e' = forget op.operation_id e in
        let m = Call.draw_raw (record op { seq = applied.1 }) in
        HasReceived op taken
          (if taken then (c, m) ∷ [] else [])
          e
          (if taken then set_dirty (with_call c m (with_applied op applied e')) else e')
  host_cases c op e true =
      let applied = apply env.paint e.surface op in
      with_call-HasReceived op true c (Call.draw_raw (record op { seq = applied.1 })) e
        (set_dirty (with_applied op applied (forget op.operation_id e)))
        (with_applied-HasReceived op e)
  host_cases c op e false = forget-HasReceived op e

  -- A host that receives the frame of an operation that can be written takes it exactly if it is valid without a
  -- number and its canvas does not know the id. An operation that is taken is applied to the canvas, waits at
  -- the end of the writer's queue, if a writer is open, and goes back to the server, both with the number that
  -- the canvas gave; the picture is drawn anew. Taken or not, the id is pending no longer, other ids are as
  -- pending as they were, and the rest of the program stays as it is.
  pub handle_draw-hosting :
      (c : Client) (op : DrawOperation) (e : Engine)
      → e.client ≡ some c
      → c.host ≡ true
      → IsStorable op
      → let number = (apply env.paint e.surface op).1 in
        (taken : Bool) × ((taken ≡ true)
          ↔ (IsValid op false × (contains_operation op.operation_id e.surface ≡ false)))
        × (e' : Engine) × (handle_draw env (operation_layout op) e ≡ some e')
        × HasReceived op taken
            (if taken then (c, Call.draw_raw (record op { seq = number })) ∷ [] else [])
            e
            e'
  handle_draw-hosting c op e attached host v = (
    accepted env op e.surface,
    accepted_iff env op e.surface,
    _,
    hosting_cases env c op e attached host v,
    host_cases c op e (accepted env op e.surface),
  )

  -- The number of an operation is the one that a canvas waits for.
  abbrev due : DrawOperation → Canvas → Bool
  due op surface = not (op.seq == 0) && op.seq == next_sequence surface

  branch_cases :
      (c : Client) (op : DrawOperation) (e : Engine) (stale ahead : Bool)
      → (stale && ahead) ≡ false
      → let e' = forget op.operation_id e in
        HasReceived op
          (not (stale || ahead))
          (if ahead then (c, Call.canvas_state_request) ∷ [] else [])
          e
          (if stale
            then e'
            else if ahead
            then with_call c Call.canvas_state_request e'
            else set_dirty (with_applied op (apply env.paint e.surface op) e'))
  branch_cases c op e true true h = absurd (cc h)
  branch_cases c op e true false h = forget-HasReceived op e
  branch_cases c op e false true h =
      with_call-HasReceived op false c Call.canvas_state_request e (forget op.operation_id e)
        (forget-HasReceived op e)
  branch_cases c op e false false h = with_applied-HasReceived op e

  member_cases :
      (c : Client) (op : DrawOperation) (e : Engine)
      → let expected = next_sequence e.surface in
        let e' = forget op.operation_id e in
        HasReceived op
          (due op e.surface)
          (if ltb expected op.seq then (c, Call.canvas_state_request) ∷ [] else [])
          e
          (if op.seq == 0 || ltb op.seq expected
            then e'
            else if ltb expected op.seq
            then with_call c Call.canvas_state_request e'
            else set_dirty (with_applied op (apply env.paint e.surface op) e'))
  member_cases c op e =
      let expected = next_sequence e.surface in
      let stale = op.seq == 0 || ltb op.seq expected in
      let ahead = ltb expected op.seq in
      let taken : due op e.surface ≡ not (stale || ahead) = ground arith in
      rw taken (branch_cases c op e stale ahead (ground arith))

  -- A member that receives the frame of an operation that can be written takes it exactly if it has a number
  -- and that is the one that its canvas waits for. An operation that is taken is applied to the canvas, waits
  -- at the end of the writer's queue, if a writer is open, with the number that the canvas gave, and the picture
  -- is drawn anew; nothing is sent. For one that is ahead of the canvas, and for no other, the canvas is asked
  -- for. Taken or not, the id is pending no longer, other ids are as pending as they were, and the rest of the
  -- program stays as it is.
  pub handle_draw-joined :
      (c : Client) (op : DrawOperation) (e : Engine)
      → e.client ≡ some c
      → c.host ≡ false
      → IsStorable op
      → let expected = next_sequence e.surface in
        (taken : Bool) × ((taken ≡ true) ↔ ((op.seq ≢ 0) × (op.seq ≡ expected)))
        × (e' : Engine) × (handle_draw env (operation_layout op) e ≡ some e')
        × HasReceived op taken
            (if ltb expected op.seq then (c, Call.canvas_state_request) ∷ [] else [])
            e
            e'
  handle_draw-joined c op e attached host v = (
    due op e.surface,
    (λ h. (ground (arith, h), ground (arith, h)), λ h. ground (arith, h.0, h.1)),
    _,
    joined_cases env c op e attached host v,
    member_cases c op e,
  )
