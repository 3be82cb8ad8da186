-- ===== src/Protocol/Replies/RoundTrip.antt =====
-- Acknowledgements, errors and notifications of message.cpp: their layouts, the way back, and their
-- readers on any span.
use sketch_sync.Prelude.{
  ℕ, suc, ◌+◌, ◌-◌, ◌≡◌, some, ◌∷◌, ◌++◌, length, arith, le→ltb, ltb→le, ltb, refl, [],
}
use mathlib.Core.Option
use sketch_sync.Results.{Result, ok}
use sketch_sync.Bytes.{Bytes, u8, IsByte, IsU32}
use sketch_sync.Bytes.Emit.{
  Fills->>, Emits-write8, Emits-write8_cast, Emits-write32, Fills-memcpy, Fills-Emits, be32,
  serialize-Fills,
}
use sketch_sync.Bytes.Read.{
  Finds, Finds->>=, Finds-Reads, Reads-be8, Reads-be32, Reads-read8, Reads-pure, Ready->>=,
  Ready-pure, Ready-if, Ready-string_at, Finds-string_at, Finds-string_rest, Safe-read8,
  Safe-read32,
}
use sketch_sync.Bytes.Guard.{at_least-whole, at_least-total}
use sketch_sync.Protocol.Session.RoundTrip.{name_layout, sent_name}
use sketch_sync.Protocol.Replies.{
  AckMessage, ErrorMessage, MemberJoinedNotification, MemberLeftNotification, read_ack, parse_ack,
  serialize_ack, read_error, parse_error, serialize_error, read_member_joined, parse_member_joined,
  serialize_member_joined, read_member_left, parse_member_left, serialize_member_left,
  read_session_closed, parse_session_closed, serialize_session_closed,
}

abbrev pub ack_layout : AckMessage → Bytes
ack_layout m = u8 m.ack_code ∷ m.message

pub serialize_ack-layout : (m : AckMessage) → serialize_ack m ≡ some (ack_layout m)
unfolding serialize_ack
serialize_ack-layout m =
    serialize-Fills (1 + length m.message) _ _ (omega arith)
      (Fills->> (Emits-write8 m.ack_code) (Fills-memcpy m.message))

read_ack-Finds :
    (m : AckMessage)
    → IsByte m.ack_code
    → Finds (read_ack (length (ack_layout m))) (ack_layout m) (ok m)
unfolding read_ack
read_ack-Finds m h = Finds->>= _ (Reads-be8 m.ack_code h) (
    Finds-string_rest (λ s. ok (record { ack_code = m.ack_code; message = s })) m.message
      (suc (length m.message) - 1) (omega arith))

-- An acknowledgement whose code is a byte is read back as it was written, whatever its text.
pub ack_round_trip :
    (m : AckMessage) → IsByte m.ack_code → Option.bind (serialize_ack m) parse_ack ≡ some (ok m)
unfolding parse_ack Option.bind
ack_round_trip m h = rw (serialize_ack-layout m) (
    at_least-whole 1 _ _ (read_ack (length (ack_layout m))) (ack_layout m) (omega arith)
      (read_ack-Finds m h))

pub parse_ack-total : (bs : Bytes) → (r : Result AckMessage) × (parse_ack bs ≡ some r)
unfolding parse_ack read_ack
parse_ack-total bs = at_least-total _ _ _ (read_ack (length bs)) bs λ h.
    Ready->>= _ Safe-read8 (omega arith)
      λ _. Ready-string_at _ (length bs - 1) (omega arith) (λ _. Ready-pure _ _ _)

abbrev pub error_layout : ErrorMessage → Bytes
error_layout m = u8 m.err_code ∷ m.err_message

pub serialize_error-layout : (m : ErrorMessage) → serialize_error m ≡ some (error_layout m)
unfolding serialize_error
serialize_error-layout m =
    serialize-Fills (1 + length m.err_message) _ _ (omega arith)
      (Fills->> (Emits-write8 m.err_code) (Fills-memcpy m.err_message))

read_error-Finds :
    (m : ErrorMessage)
    → IsByte m.err_code
    → Finds (read_error (length (error_layout m))) (error_layout m) (ok m)
unfolding read_error
read_error-Finds m h = Finds->>= _ (Reads-be8 m.err_code h) (
    Finds-string_rest (λ s. ok (record { err_code = m.err_code; err_message = s })) m.err_message
      (suc (length m.err_message) - 1) (omega arith))

-- An error whose code is a byte is read back as it was written, whatever its text.
pub error_round_trip :
    (m : ErrorMessage)
    → IsByte m.err_code
    → Option.bind (serialize_error m) parse_error ≡ some (ok m)
unfolding parse_error Option.bind
error_round_trip m h = rw (serialize_error-layout m) (
    at_least-whole 1 _ _ (read_error (length (error_layout m))) (error_layout m) (omega arith)
      (read_error-Finds m h))

pub parse_error-total : (bs : Bytes) → (r : Result ErrorMessage) × (parse_error bs ≡ some r)
unfolding parse_error read_error
parse_error-total bs = at_least-total _ _ _ (read_error (length bs)) bs λ h.
    Ready->>= _ Safe-read8 (omega arith)
      λ _. Ready-string_at _ (length bs - 1) (omega arith) (λ _. Ready-pure _ _ _)

pub record IsMemberJoined (m : MemberJoinedNotification) : Type 0 where
  pub notif_code : IsByte m.notif_code
  pub member_id : IsU32 m.member_id

abbrev pub member_joined_layout : MemberJoinedNotification → Bytes
member_joined_layout m = u8 m.notif_code ∷ be32 m.member_id ++ name_layout m.name

pub serialize_member_joined-layout :
    (m : MemberJoinedNotification) → serialize_member_joined m ≡ some (member_joined_layout m)
unfolding serialize_member_joined
serialize_member_joined-layout m = serialize-Fills (6 + length m.name) _ _ (omega arith) (
    Fills->> (Emits-write8 m.notif_code) (
      Fills->> (Emits-write32 m.member_id)
        (Fills->> (Emits-write8_cast (length m.name)) (Fills-memcpy m.name))))

read_member_joined-Finds :
    (m : MemberJoinedNotification)
    → IsMemberJoined m
    → Finds
        (read_member_joined (length (member_joined_layout m)))
        (member_joined_layout m)
        (ok (record m { name = sent_name m.name }))
unfolding read_member_joined
read_member_joined-Finds m v = Finds->>= _ (Reads-be8 m.notif_code v.notif_code) (
    Finds->>= _ (Reads-be32 m.member_id v.member_id) (
      Finds->>= _ (Reads-read8 (u8 (length m.name))) (
        rw (le→ltb (length (member_joined_layout m)) (6 + u8 (length m.name)) (omega arith)) (
          Finds-string_at
            (λ s. ok (record { notif_code = m.notif_code; member_id = m.member_id; name = s }))
            m.name (u8 (length m.name)) (omega arith)))))

-- A notification that a member joined, with fields in their ranges, is read back with its name cut to
-- what the length byte says.
pub member_joined_round_trip :
    (m : MemberJoinedNotification)
    → IsMemberJoined m
    → Option.bind (serialize_member_joined m) parse_member_joined
      ≡ some (ok (record m { name = sent_name m.name }))
unfolding parse_member_joined Option.bind
member_joined_round_trip m v = rw (serialize_member_joined-layout m) (
    at_least-whole 6 _ _ (read_member_joined (length (member_joined_layout m)))
      (member_joined_layout m) (omega arith) (read_member_joined-Finds m v))

pub parse_member_joined-total :
    (bs : Bytes) → (r : Result MemberJoinedNotification) × (parse_member_joined bs ≡ some r)
unfolding parse_member_joined read_member_joined
parse_member_joined-total bs = at_least-total _ _ _ (read_member_joined (length bs)) bs λ h.
    Ready->>= _ Safe-read8 (omega arith) λ _. Ready->>= _ Safe-read32 (omega arith) λ _.
      Ready->>= _ Safe-read8 (omega arith) λ n.
        Ready-if (ltb (length bs) (6 + n)) (λ _. Ready-pure _ _ _)
          (λ e. Ready-string_at _ n (ltb→le _ _ e) (λ _. Ready-pure _ _ _))

pub record IsMemberLeft (m : MemberLeftNotification) : Type 0 where
  pub notif_code : IsByte m.notif_code
  pub member_id : IsU32 m.member_id

abbrev pub member_left_layout : MemberLeftNotification → Bytes
member_left_layout m = u8 m.notif_code ∷ be32 m.member_id ++ name_layout m.name

pub serialize_member_left-layout :
    (m : MemberLeftNotification) → serialize_member_left m ≡ some (member_left_layout m)
unfolding serialize_member_left
serialize_member_left-layout m = serialize-Fills (6 + length m.name) _ _ (omega arith) (
    Fills->> (Emits-write8 m.notif_code) (
      Fills->> (Emits-write32 m.member_id)
        (Fills->> (Emits-write8_cast (length m.name)) (Fills-memcpy m.name))))

read_member_left-Finds :
    (m : MemberLeftNotification)
    → IsMemberLeft m
    → Finds
        (read_member_left (length (member_left_layout m)))
        (member_left_layout m)
        (ok (record m { name = sent_name m.name }))
unfolding read_member_left
read_member_left-Finds m v = Finds->>= _ (Reads-be8 m.notif_code v.notif_code) (
    Finds->>= _ (Reads-be32 m.member_id v.member_id) (
      Finds->>= _ (Reads-read8 (u8 (length m.name))) (
        rw (le→ltb (length (member_left_layout m)) (6 + u8 (length m.name)) (omega arith)) (
          Finds-string_at
            (λ s. ok (record { notif_code = m.notif_code; member_id = m.member_id; name = s }))
            m.name (u8 (length m.name)) (omega arith)))))

-- A notification that a member left, with fields in their ranges, is read back with its name cut to
-- what the length byte says.
pub member_left_round_trip :
    (m : MemberLeftNotification)
    → IsMemberLeft m
    → Option.bind (serialize_member_left m) parse_member_left
      ≡ some (ok (record m { name = sent_name m.name }))
unfolding parse_member_left Option.bind
member_left_round_trip m v = rw (serialize_member_left-layout m) (
    at_least-whole 6 _ _ (read_member_left (length (member_left_layout m))) (member_left_layout m)
      (omega arith) (read_member_left-Finds m v))

pub parse_member_left-total :
    (bs : Bytes) → (r : Result MemberLeftNotification) × (parse_member_left bs ≡ some r)
unfolding parse_member_left read_member_left
parse_member_left-total bs = at_least-total _ _ _ (read_member_left (length bs)) bs λ h.
    Ready->>= _ Safe-read8 (omega arith) λ _. Ready->>= _ Safe-read32 (omega arith) λ _.
      Ready->>= _ Safe-read8 (omega arith) λ n.
        Ready-if (ltb (length bs) (6 + n)) (λ _. Ready-pure _ _ _)
          (λ e. Ready-string_at _ n (ltb→le _ _ e) (λ _. Ready-pure _ _ _))

pub serialize_session_closed-layout : (n : ℕ) → serialize_session_closed n ≡ some (u8 n ∷ [])
unfolding serialize_session_closed
serialize_session_closed-layout n = serialize-Fills 1 _ _ refl (Fills-Emits (Emits-write8 n))

-- A notification that a session closed is read back for every code that is a byte.
pub session_closed_round_trip :
    (n : ℕ) → IsByte n → Option.bind (serialize_session_closed n) parse_session_closed ≡ some (ok n)
unfolding parse_session_closed read_session_closed Option.bind
session_closed_round_trip n h = rw (serialize_session_closed-layout n) (
    at_least-whole 1 0 "not enough data" read_session_closed (u8 n ∷ []) (omega arith)
      (Finds->>= _ (Reads-be8 n h) (Finds-Reads (Reads-pure _))))

pub parse_session_closed-total : (bs : Bytes) → (r : Result ℕ) × (parse_session_closed bs ≡ some r)
unfolding parse_session_closed read_session_closed
parse_session_closed-total bs =
    at_least-total _ _ _ read_session_closed bs
      λ h. Ready->>= _ Safe-read8 (omega arith) λ _. Ready-pure _ _ _
