-- ===== src/Engine/Relay/Refinement.antt =====
-- What a host and a member of its session make of the operations that are drawn, against the account that the
-- canvas log gives of them.
use sketch_sync.Prelude.{
  ℕ, ◌+◌, ◌^◌, ◌≡◌, ◌≢◌, ◌<◌, ◌≤◌, refl, sym, ap, ◌∙◌, ◌⊎◌, inl, inr, Bool, true, false, Option,
  some, List, [], ◌∷◌, ◌++◌, arith, All, Bool-cases, length, drop-append, drop_length,
  length-append,
}
use mathlib.Core.Option
use mathlib.Core.Path.{subst}
use sketch_sync.Results.{Result, is_ok}
use sketch_sync.Bytes.{Bytes}
use sketch_sync.DrawOperation.{DrawOperation, validate_draw_operation}
use sketch_sync.DrawOperation.Codec.{operation_layout, serialize_draw_operation-layout}
use sketch_sync.DrawOperation.Validity.{IsValid, validate_iff}
use sketch_sync.Protocol.CanvasState.RoundTrip.{IsStorable, stamped-IsStorable}
use sketch_sync.Canvas.{Picture, Canvas, contains_operation, find_seq, next_sequence, apply}
use sketch_sync.Canvas.Log.{
  IsConsistent, IsConsistent-positive, HasRoom, assigned, appended, apply_fresh, apply_known,
  apply_cases, apply-IsConsistent, contains_operation-has_id, find_seq-has_id, find_seq-some-has_id,
}
use sketch_sync.Canvas.Replay.{Agree, apply-Agree, apply-next_seq, follow}
use sketch_sync.Client.{Client}
use sketch_sync.Engine.{Engine, Environment, Call}
use sketch_sync.Engine.Calls.{with_call}
use sketch_sync.Engine.Receiving.{set_dirty, forget, with_applied}
use sketch_sync.Engine.Receiving.Draws.{handle_draw-accepted, handle_draw-refused, handle_draw-due}
use sketch_sync.Engine.Relay.{
  deliver, deliver_all, exchange, exchange_all, admitted, InStep, beside,
}

known-apply :
    (paint : Picture → DrawOperation → List ℕ) (c : Canvas) (op : DrawOperation)
    → IsConsistent c
    → op.operation_id ≢ 0
    → contains_operation op.operation_id c ≡ true
    → (seq : ℕ) × (find_seq op.operation_id c.operations ≡ some seq)
known-apply paint c op v named k = elim (apply_cases paint c op) [
  | inl (inl z) ↦ absurd (named z)
  | inl (inr e) ↦ absurd (
      (cc (
        k,
        contains_operation-has_id op.operation_id c v,
        find_seq-has_id op.operation_id c.operations e,
      )))
  | inr (seq, _, e) ↦ (seq, e)
]

fresh-apply :
    (paint : Picture → DrawOperation → List ℕ) (c : Canvas) (op : DrawOperation)
    → IsConsistent c
    → HasRoom c op
    → op.seq ≡ 0
    → contains_operation op.operation_id c ≡ false
    → apply paint c op ≡ (appended paint c (record op { seq = c.next_seq }), c.next_seq)
fresh-apply paint c op v r z k = elim (apply_cases paint c op) [
  | inl f ↦
      let given : assigned c op ≡ c.next_seq = ground arith in
      apply_fresh paint c op v f r ∙ ap (λ m. (appended paint c (record op { seq = m }), m)) given
  | inr (seq, named, e) ↦ absurd (
      cc (
        k,
        contains_operation-has_id op.operation_id c v,
        find_seq-some-has_id op.operation_id seq c.operations named e,
      ))
]

module _ (env : Environment)
    (keeps_size : (p : Picture) (op : DrawOperation) → length (env.paint p op) ≡ length p.pixels)
    (transmit : List (Client × Call) → Bytes → Result ℕ) (can_open : Bytes → Bool)
    (schedule : List DrawOperation → List (List DrawOperation)) where
  abbrev other : Environment
  other = beside env transmit can_open schedule

  -- After an exchange the two canvases are where `follow` takes them, and the roles are kept.
  record Follows (ops : List DrawOperation) (host member : Engine) (r : Option (Engine × Engine))
      : Type 0 where
    pub host' : Engine
    pub member' : Engine
    pub returns : r ≡ some (host', member')
    pub surfaces :
        (host'.surface, member'.surface)
        ≡ follow env.paint keeps_size host.surface member.surface ops
    pub in_step : InStep host' member'
    pub room : host'.surface.next_seq ≤ host.surface.next_seq + length ops

  exchange-refused :
      (op : DrawOperation) (host member : Engine)
      → InStep host member
      → IsStorable op
      → (¬ IsValid op false) ⊎ (contains_operation op.operation_id host.surface ≡ true)
      → exchange env other (operation_layout op) host member
        ≡ some (forget op.operation_id host, member)
  unfolding exchange deliver_all Option.bind forget
  exchange-refused op host member s v h =
      rw (handle_draw-refused env s.here op host s.host_client s.hosts v h, drop_length host.calls)
        refl

  exchange-applied :
      (op : DrawOperation) (host member : Engine)
      → (s : InStep host member) → IsStorable op
      → IsValid op false
      → contains_operation op.operation_id host.surface ≡ false
      → host.surface.next_seq + 1 < 2 ^ 32
      → let applied = apply env.paint host.surface op in
        let op' = record op { seq = applied.1 } in
        exchange env other (operation_layout op) host member
        ≡ some (
          set_dirty (
              with_call s.here
                (Call.draw_raw op')
                (with_applied op applied (forget op.operation_id host))),
          set_dirty (
              with_applied op'
                (apply env.paint member.surface op')
                (forget op.operation_id member)),
        )
  unfolding exchange deliver_all deliver Option.bind forget
  exchange-applied op host member s v valid new room =
      let applied = apply env.paint host.surface op in
      let op' : DrawOperation = record op { seq = applied.1 } in
      let z : op.seq ≡ 0 = valid.unstamped refl in
      let r : HasRoom host.surface op = record { counter = room; number = omega arith } in
      let number : applied.1 ≡ host.surface.next_seq =
        ap (λ p. p.1) (fresh-apply env.paint host.surface op s.consistent r z new) in
      let due : applied.1 ≡ next_sequence member.surface = number ∙ s.agree.next_seq in
      let positive : applied.1 ≢ 0 =
        ground (arith, number, IsConsistent-positive host.surface s.consistent) in
      let v' : IsStorable op' = stamped-IsStorable op applied.1 v (omega arith) in
      rw
        (
          handle_draw-accepted env s.here op host s.host_client s.hosts v valid new,
          drop-append host.calls ((s.here, Call.draw_raw op') ∷ []),
          serialize_draw_operation-layout op' v'.1,
          handle_draw-due other s.there op' member s.member_client s.joins v' positive due,
        )
        refl

  forget-InStep :
      (op : DrawOperation) (host member : Engine)
      → InStep host member
      → InStep (forget op.operation_id host) member
  unfolding forget
  forget-InStep op host member s = record {
    here = s.here;
    there = s.there;
    host_client = s.host_client;
    member_client = s.member_client;
    hosts = s.hosts;
    joins = s.joins;
    agree = s.agree;
    consistent = s.consistent;
  }

  exchange-Follows_known :
      (op : DrawOperation) (host member : Engine)
      → InStep host member
      → IsStorable op
      → IsValid op false
      → contains_operation op.operation_id host.surface ≡ true
      → Follows (op ∷ []) host member (exchange env other (operation_layout op) host member)
  unfolding follow forget
  exchange-Follows_known op host member s v valid known =
      let (seq, e) = known-apply env.paint host.surface op s.consistent valid.identified known in
      let e' = subst (λ ops. find_seq op.operation_id ops ≡ some seq) s.agree.operations e in
      record {
        host' = forget op.operation_id host;
        member' = member;
        returns = exchange-refused op host member s v (inr known);
        surfaces = sym (
            rw
              (
                apply_known env.paint host.surface op seq valid.identified e,
                apply_known env.paint member.surface (record op { seq = seq }) seq valid.identified
                    e',
              )
              refl);
        in_step = forget-InStep op host member s;
        room = omega arith;
      }

  exchange-Follows_new :
      (op : DrawOperation) (host member : Engine)
      → InStep host member
      → IsStorable op
      → IsValid op false
      → contains_operation op.operation_id host.surface ≡ false
      → host.surface.next_seq + 1 < 2 ^ 32
      → Follows (op ∷ []) host member (exchange env other (operation_layout op) host member)
  unfolding follow forget
  exchange-Follows_new op host member s v valid new room =
      let z : op.seq ≡ 0 = valid.unstamped refl in
      let r : HasRoom host.surface op = record { counter = room; number = omega arith } in
      record {
        host' = _;
        member' = _;
        returns = exchange-applied op host member s v valid new room;
        surfaces = refl;
        in_step = record {
          here = s.here;
          there = s.there;
          host_client = s.host_client;
          member_client = s.member_client;
          hosts = s.hosts;
          joins = s.joins;
          agree =
              (apply-Agree env.paint keeps_size host.surface member.surface op s.agree s.consistent
                r).0;
          consistent = apply-IsConsistent env.paint host.surface op s.consistent r;
        };
        room = apply-next_seq env.paint keeps_size host.surface op s.consistent r z;
      }

  exchange-Follows :
      (op : DrawOperation) (host member : Engine)
      → InStep host member
      → IsStorable op
      → host.surface.next_seq + 1 < 2 ^ 32
      → Follows
          (admitted (op ∷ []))
          host
          member
          (exchange env other (operation_layout op) host member)
  unfolding admitted follow
  exchange-Follows op host member s v room =
      elim (Bool-cases (is_ok (validate_draw_operation op false))) [
        | inl good ↦
            let valid = (validate_iff op false).0 good in
            rw good (elim (Bool-cases (contains_operation op.operation_id host.surface)) [
              | inl known ↦ exchange-Follows_known op host member s v valid known
              | inr new ↦ exchange-Follows_new op host member s v valid new room
            ])
        | inr bad ↦
            let refused : ¬ IsValid op false = λ w. cc (bad, (validate_iff op false).1 w) in
            rw bad (record {
              host' = forget op.operation_id host;
              member' = member;
              returns = exchange-refused op host member s v (inl refused);
              surfaces = unfold forget in refl;
              in_step = forget-InStep op host member s;
              room = unfold forget in omega arith;
            })
      ]

  admitted_cons :
      (op : DrawOperation) (ops : List DrawOperation)
      → admitted (op ∷ ops) ≡ admitted (op ∷ []) ++ admitted ops
  unfolding admitted
  admitted_cons op ops = ground arith

  length-admitted : (ops : List DrawOperation) → length (admitted ops) ≤ length ops
  unfolding admitted
  length-admitted [] = omega arith
  length-admitted (op ∷ ops) = ground (arith, length-admitted ops)

  follow-append :
      (c d : Canvas) (ops more : List DrawOperation)
      → follow env.paint keeps_size c d (ops ++ more) ≡ (
          let (c', d') = follow env.paint keeps_size c d ops in
          follow env.paint keeps_size c' d' more)
  unfolding follow
  follow-append c d [] more = refl
  follow-append c d (op ∷ ops) more =
      let (c', seq) = apply env.paint c op in
      follow-append c' (apply env.paint d (record op { seq = seq })).0 ops more

  exchange_all-Follows :
      (ops : List DrawOperation) (host member : Engine)
      → InStep host member
      → All IsStorable ops
      → host.surface.next_seq + length ops < 2 ^ 32
      → Follows (admitted ops) host member (exchange_all env other ops host member)
  unfolding exchange_all Option.bind
  exchange_all-Follows [] host member s v room =
      unfold admitted follow in
      record {
        host' = host;
        member' = member;
        returns = refl;
        surfaces = refl;
        in_step = s;
        room = omega arith;
      }
  exchange_all-Follows (op ∷ ops) host member s v room =
      let one = exchange-Follows op host member s v.0 (omega arith) in
      let short = length-admitted (op ∷ []) in
      let rest =
        exchange_all-Follows ops one.host' one.member' one.in_step v.1
          (omega (arith, one.room, short)) in
      record {
        host' = rest.host';
        member' = rest.member';
        returns = rw one.returns rest.returns;
        surfaces =
            rest.surfaces
            ∙ ap (λ p. follow env.paint keeps_size p.0 p.1 (admitted ops)) one.surfaces
            ∙ sym (follow-append host.surface member.surface (admitted (op ∷ [])) (admitted ops))
            ∙ ap (follow env.paint keeps_size host.surface member.surface)
                (sym (admitted_cons op ops));
        in_step = rest.in_step;
        room = omega (
          arith,
          one.room,
          rest.room,
          ap (length {A = DrawOperation}) (admitted_cons op ops),
          length-append {0} (admitted (op ∷ [])) (admitted ops),
        );
      }

  -- Whatever operations reach a host one after the other, as frames that can be written, valid or not and
  -- repeated or not, the host and a member of its session that agree at the start handle all of them, and
  -- their canvases are where the canvas log's own account takes them: `follow`, over the operations that the
  -- host accepts. At the end they agree again: picture, log, id set and counter. The member's program runs
  -- in an environment of its own with the same tools; what the host's client is asked to send reaches the
  -- member in order; the counter has room for the list, and the tools keep the number of pixels.
  pub exchange_all-refines :
      (ops : List DrawOperation) (host member : Engine)
      → InStep host member
      → All IsStorable ops
      → host.surface.next_seq + length ops < 2 ^ 32
      → (host' : Engine) × (member' : Engine) × (exchange_all env other ops host member
          ≡ some (host', member'))
        × ((host'.surface, member'.surface)
            ≡ follow env.paint keeps_size host.surface member.surface (admitted ops))
        × Agree host'.surface member'.surface
        × IsConsistent host'.surface
  exchange_all-refines ops host member s v room =
      let f = exchange_all-Follows ops host member s v room in
      (f.host', f.member', f.returns, f.surfaces, f.in_step.agree, f.in_step.consistent)
