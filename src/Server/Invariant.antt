-- ===== src/Server/Invariant.antt =====
-- The sessions of a server: each stands under its own id, is open, and has its host among its members.
use sketch_sync.Prelude.{
  ℕ, ◌≡◌, ◌≢◌, ◌↔◌, refl, sym, false, some, none, Bool-cases, Option-cases, inl, inr, [], ◌∷◌, ◌==◌,
  ==_iff, ==_refl, arith,
}
use mathlib.Core.Option.{some-injective, none-ne-some}
use mathlib.Core.Path.{subst}
use sketch_sync.Bytes.{Bytes}
use sketch_sync.Assoc.{
  Assoc, lookup, assign, emplace, erase, lookup-assign, lookup-erase, lookup-emplace,
}
use sketch_sync.Server.State.{Member, MemberRole, Session, opened, is_host}
use sketch_sync.Server.Handlers.{new_session, joined, without}

-- A member stands under its own id, in the session that it names, and only the host has the host's role.
pub record IsMember (key : ℕ) (host_id : ℕ) (at : ℕ) (m : Member) : Type 0 where
  pub id : m.id ≡ at
  pub session_id : m.session_id ≡ key
  pub role : (m.role ≡ MemberRole.host) ↔ (at ≡ host_id)

pub record IsSession (key : ℕ) (sess : Session) : Type 0 where
  pub session_id : sess.session_id ≡ key
  pub state : sess.state ≡ opened
  pub hosted : lookup sess.host_id sess.members ≢ none
  pub members :
      (id : ℕ) (m : Member) → lookup id sess.members ≡ some m → IsMember key sess.host_id id m

pub IsSound : Assoc Session → Type 0
IsSound sessions = (key : ℕ) (sess : Session) → lookup key sessions ≡ some sess → IsSession key sess

-- A session that is put under its key.
pub assign-IsSound :
    (key : ℕ) (sess : Session) (sessions : Assoc Session)
    → IsSession key sess
    → IsSound sessions
    → IsSound (assign key sess sessions)
unfolding IsSound
assign-IsSound key sess sessions v h k t e = elim (Bool-cases (key == k)) [
  | inl same ↦
      let found = rw (lookup-assign key k sess sessions, same) at e in
      subst (λ j. IsSession j t) ((==_iff key k).0 same)
        (subst (IsSession key) (some-injective sess t found) v)
  | inr other ↦ h k t (rw (lookup-assign key k sess sessions, other) at e)
]

pub erase-IsSound :
    (key : ℕ) (sessions : Assoc Session) → IsSound sessions → IsSound (erase key sessions)
unfolding IsSound
erase-IsSound key sessions h k t e = elim (Bool-cases (key == k)) [
  | inl same ↦ absurd (none-ne-some t (rw (lookup-erase key k sessions, same) at e))
  | inr other ↦ h k t (rw (lookup-erase key k sessions, other) at e)
]

host_member : ℕ → ℕ → Bytes → Member
host_member key member_id name = record {
  id = member_id;
  name = name;
  role = MemberRole.host;
  session_id = key;
}

pub new_session-IsSession :
    (key member_id : ℕ) (name : Bytes) → IsSession key (new_session key member_id name)
unfolding lookup host_member
new_session-IsSession key member_id name = record {
  session_id = refl;
  state = refl;
  hosted = rw (==_refl member_id) (λ e. none-ne-some (host_member key member_id name) (sym e));
  members = λ at m e. elim (Bool-cases (member_id == at)) [
    | inl same ↦
        subst (IsMember key member_id at)
          (some-injective (host_member key member_id name) m (rw same at e))
          (record {
            id = (==_iff member_id at).0 same;
            session_id = refl;
            role = (λ _. sym ((==_iff member_id at).0 same), λ _. refl);
          })
    | inr other ↦ absurd (none-ne-some m (rw other at e))
  ];
}

-- A participant, under an id that no member of the session has.
participant : ℕ → ℕ → Bytes → Member
participant key member_id name = record {
  id = member_id;
  name = name;
  role = MemberRole.participant;
  session_id = key;
}

participant-IsMember :
    (key host_id member_id : ℕ) (name : Bytes)
    → member_id ≢ host_id
    → IsMember key host_id member_id (participant key member_id name)
unfolding participant
participant-IsMember key host_id member_id name h = record {
  id = refl;
  session_id = refl;
  role = (λ e. ground arith, λ e. absurd (h e));
}

emplace_known : (k : ℕ) (v w : Member) (m : Assoc Member) → lookup k m ≡ some w → emplace k v m ≡ m
unfolding lookup emplace
emplace_known k v w [] e = absurd (none-ne-some w e)
emplace_known k v w ((j, x) ∷ m) e = ground (arith, emplace_known k v w m)

joined_new-IsSession :
    (key : ℕ) (sess : Session) (member_id : ℕ) (name : Bytes)
    → IsSession key sess
    → lookup member_id sess.members ≡ none
    → IsSession key (joined sess key member_id name)
unfolding participant
joined_new-IsSession key sess member_id name v new =
    let p = participant key member_id name in
    let differs : member_id ≢ sess.host_id =
      λ e. v.hosted (subst (λ k. lookup k sess.members ≡ none) e new) in
    let unequal : (member_id == sess.host_id) ≡ false = ground arith in
    record {
      session_id = v.session_id;
      state = v.state;
      hosted = rw (lookup-emplace member_id sess.host_id p sess.members new, unequal) v.hosted;
      members = λ at m e. elim (Bool-cases (member_id == at)) [
        | inl same ↦
            let found = rw (lookup-emplace member_id at p sess.members new, same) at e in
            subst (λ k. IsMember key sess.host_id k m) ((==_iff member_id at).0 same)
              (subst (IsMember key sess.host_id member_id) (some-injective p m found)
                (participant-IsMember key sess.host_id member_id name differs))
        | inr other ↦
            v.members at m (rw (lookup-emplace member_id at p sess.members new, other) at e)
      ];
    }

pub joined-IsSession :
    (key : ℕ) (sess : Session) (member_id : ℕ) (name : Bytes)
    → IsSession key sess
    → IsSession key (joined sess key member_id name)
unfolding participant
joined-IsSession key sess member_id name v = elim (Option-cases (lookup member_id sess.members)) [
  | inl new ↦ joined_new-IsSession key sess member_id name v new
  | inr (m, known) ↦
      let same = emplace_known member_id (participant key member_id name) m sess.members known in
      subst (λ ms. IsSession key (record sess { members = ms })) (sym same) v
]

-- A member that is not the host leaves.
pub without-IsSession :
    (key : ℕ) (sess : Session) (member_id : ℕ)
    → IsSession key sess
    → is_host sess member_id ≡ false
    → IsSession key (without sess member_id)
without-IsSession key sess member_id v h = record {
  session_id = v.session_id;
  state = v.state;
  hosted = rw (lookup-erase member_id sess.host_id sess.members, h) v.hosted;
  members = λ at m e. elim (Bool-cases (member_id == at)) [
    | inl same ↦ absurd (none-ne-some m (rw (lookup-erase member_id at sess.members, same) at e))
    | inr other ↦ v.members at m (rw (lookup-erase member_id at sess.members, other) at e)
  ];
}

pub empty-IsSound : IsSound []
unfolding IsSound lookup
empty-IsSound key sess e = absurd (none-ne-some sess e)

pub found-IsSession :
    {key : ℕ} {sess : Session} (sessions : Assoc Session)
    → IsSound sessions
    → lookup key sessions ≡ some sess
    → IsSession key sess
unfolding IsSound
found-IsSession {key} {sess} sessions v e = v key sess e
