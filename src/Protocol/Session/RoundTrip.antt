-- ===== src/Protocol/Session/RoundTrip.antt =====
-- CREATE, JOIN and their acknowledgements (message.cpp): their layouts, the way back, and their readers
-- on any span.
use sketch_sync.Prelude.{◌+◌, ◌≡◌, some, ◌∷◌, ◌++◌, length, take, arith, le→ltb, ltb→le, ltb}
use mathlib.Core.Option
use sketch_sync.Results.{Result, ok}
use sketch_sync.Bytes.{Bytes, u8, IsByte, IsU32}
use sketch_sync.Bytes.Emit.{
  Fills->>, Emits-write8, Emits-write8_cast, Emits-write32, Fills-memcpy, Fills-Emits, be32,
  serialize-Fills,
}
use sketch_sync.Bytes.Read.{
  Finds, Finds->>=, Finds-Reads, Reads-be8, Reads-be32, Reads-read8, Reads-pure, Ready->>=,
  Ready-pure, Ready-if, Ready-string_at, Finds-string_at, Safe-read8, Safe-read32,
}
use sketch_sync.Bytes.Guard.{at_least-whole, at_least-total}
use sketch_sync.Protocol.Session.{
  JoinMessage, CreateAckMessage, JoinAckMessage, no_create_ack, no_join_ack, read_create,
  parse_create, serialize_create, read_join, parse_join, serialize_join, read_create_ack,
  parse_create_ack, serialize_create_ack, read_join_ack, parse_join_ack, serialize_join_ack,
}

-- A name as it goes over the wire: a byte for its length, and all of its bytes.
abbrev pub name_layout : Bytes → Bytes
name_layout name = u8 (length name) ∷ name

-- What a receiver makes of it: the bytes that the length byte counts.
abbrev pub sent_name : Bytes → Bytes
sent_name name = take (u8 (length name)) name

pub serialize_create-layout : (name : Bytes) → serialize_create name ≡ some (name_layout name)
unfolding serialize_create
serialize_create-layout name =
    serialize-Fills (1 + length name) _ _ (omega arith)
      (Fills->> (Emits-write8_cast (length name)) (Fills-memcpy name))

read_create-Finds :
    (name : Bytes)
    → Finds (read_create (length (name_layout name))) (name_layout name) (ok (sent_name name))
unfolding read_create
read_create-Finds name = Finds->>= _ (Reads-read8 (u8 (length name))) (
    rw (le→ltb (length (name_layout name)) (1 + u8 (length name)) (omega arith))
      (Finds-string_at ok name (u8 (length name)) (omega arith)))

-- A CREATE request is read back, with its name cut to what the length byte says: a name of up to 255
-- bytes whole, a longer one as a prefix.
pub create_round_trip :
    (name : Bytes) → Option.bind (serialize_create name) parse_create ≡ some (ok (sent_name name))
unfolding parse_create Option.bind
create_round_trip name = rw (serialize_create-layout name) (
    at_least-whole _ _ _ (read_create (length (name_layout name))) (name_layout name) (omega arith)
      (read_create-Finds name))

pub parse_create-layout :
    (name : Bytes) → parse_create (name_layout name) ≡ some (ok (sent_name name))
unfolding Option.bind
parse_create-layout name =
    rw (serialize_create-layout name, Option.bind) at (create_round_trip name)

pub parse_create-total : (bs : Bytes) → (r : Result Bytes) × (parse_create bs ≡ some r)
unfolding parse_create read_create
parse_create-total bs = at_least-total _ _ _ (read_create (length bs)) bs λ h.
    Ready->>= _ Safe-read8 (omega arith) λ n.
      Ready-if (ltb (length bs) (1 + n)) (λ _. Ready-pure _ _ _)
        (λ e. Ready-string_at _ n (ltb→le _ _ e) (λ _. Ready-pure _ _ _))

abbrev pub join_layout : JoinMessage → Bytes
join_layout m = be32 m.session_id ++ name_layout m.name

pub serialize_join-layout : (m : JoinMessage) → serialize_join m ≡ some (join_layout m)
unfolding serialize_join
serialize_join-layout m = serialize-Fills (5 + length m.name) _ _ (omega arith) (
    Fills->> (Emits-write32 m.session_id)
      (Fills->> (Emits-write8_cast (length m.name)) (Fills-memcpy m.name)))

read_join-Finds :
    (m : JoinMessage)
    → IsU32 m.session_id
    → Finds
        (read_join (length (join_layout m)))
        (join_layout m)
        (ok (record m { name = sent_name m.name }))
unfolding read_join
read_join-Finds m h = Finds->>= _ (Reads-be32 m.session_id h) (
    Finds->>= _ (Reads-read8 (u8 (length m.name))) (
      rw (le→ltb (length (join_layout m)) (5 + u8 (length m.name)) (omega arith)) (
        Finds-string_at (λ s. ok (record { session_id = m.session_id; name = s })) m.name
          (u8 (length m.name)) (omega arith))))

-- A JOIN request with a 32-bit session id is read back, with its name cut to what the length byte
-- says.
pub join_round_trip :
    (m : JoinMessage)
    → IsU32 m.session_id
    → Option.bind (serialize_join m) parse_join ≡ some (ok (record m { name = sent_name m.name }))
unfolding parse_join Option.bind
join_round_trip m h = rw (serialize_join-layout m) (
    at_least-whole _ _ _ (read_join (length (join_layout m))) (join_layout m) (omega arith)
      (read_join-Finds m h))

pub parse_join-layout :
    (m : JoinMessage)
    → IsU32 m.session_id
    → parse_join (join_layout m) ≡ some (ok (record m { name = sent_name m.name }))
unfolding Option.bind
parse_join-layout m h = rw (serialize_join-layout m, Option.bind) at (join_round_trip m h)

pub parse_join-total : (bs : Bytes) → (r : Result JoinMessage) × (parse_join bs ≡ some r)
unfolding parse_join read_join
parse_join-total bs = at_least-total _ _ _ (read_join (length bs)) bs λ h.
    Ready->>= _ Safe-read32 (omega arith) λ _. Ready->>= _ Safe-read8 (omega arith) λ n.
      Ready-if (ltb (length bs) (5 + n)) (λ _. Ready-pure _ _ _)
        (λ e. Ready-string_at _ n (ltb→le _ _ e) (λ _. Ready-pure _ _ _))

pub record IsCreateAck (m : CreateAckMessage) : Type 0 where
  pub ack_code : IsByte m.ack_code
  pub session_id : IsU32 m.session_id
  pub member_id : IsU32 m.member_id

abbrev pub create_ack_layout : CreateAckMessage → Bytes
create_ack_layout m = u8 m.ack_code ∷ be32 m.session_id ++ be32 m.member_id

pub serialize_create_ack-layout :
    (m : CreateAckMessage) → serialize_create_ack m ≡ some (create_ack_layout m)
unfolding serialize_create_ack
serialize_create_ack-layout m =
    serialize-Fills 9 _ _ (omega arith)
      (Fills->> (Emits-write8 _) (Fills->> (Emits-write32 _) (Fills-Emits (Emits-write32 _))))

read_create_ack-Finds :
    (m : CreateAckMessage) → IsCreateAck m → Finds read_create_ack (create_ack_layout m) (ok m)
unfolding read_create_ack
read_create_ack-Finds m v = Finds->>= _ (Reads-be8 _ v.ack_code) (
    Finds->>= _ (Reads-be32 _ v.session_id)
      (Finds->>= _ (Reads-be32 _ v.member_id) (Finds-Reads (Reads-pure _))))

pub parse_create_ack-layout :
    (m : CreateAckMessage) → IsCreateAck m → parse_create_ack (create_ack_layout m) ≡ some (ok m)
unfolding parse_create_ack
parse_create_ack-layout m v =
    at_least-whole 9 no_create_ack "not enough data" read_create_ack (create_ack_layout m)
      (omega arith) (read_create_ack-Finds m v)

-- The acknowledgement of a CREATE with fields in their ranges is read back as it was written.
pub create_ack_round_trip :
    (m : CreateAckMessage)
    → IsCreateAck m
    → Option.bind (serialize_create_ack m) parse_create_ack ≡ some (ok m)
unfolding Option.bind
create_ack_round_trip m v = rw (serialize_create_ack-layout m) (parse_create_ack-layout m v)

pub parse_create_ack-total :
    (bs : Bytes) → (r : Result CreateAckMessage) × (parse_create_ack bs ≡ some r)
unfolding parse_create_ack read_create_ack
parse_create_ack-total bs = at_least-total _ _ _ read_create_ack bs λ h.
    Ready->>= _ Safe-read8 (omega arith) λ _.
      Ready->>= _ Safe-read32 (omega arith)
        λ _. Ready->>= _ Safe-read32 (omega arith) λ _. Ready-pure _ _ _

pub record IsJoinAck (m : JoinAckMessage) : Type 0 where
  pub ack_code : IsByte m.ack_code
  pub member_id : IsU32 m.member_id

abbrev pub join_ack_layout : JoinAckMessage → Bytes
join_ack_layout m = u8 m.ack_code ∷ be32 m.member_id

pub serialize_join_ack-layout :
    (m : JoinAckMessage) → serialize_join_ack m ≡ some (join_ack_layout m)
unfolding serialize_join_ack
serialize_join_ack-layout m =
    serialize-Fills 5 _ _ (omega arith) (Fills->> (Emits-write8 _) (Fills-Emits (Emits-write32 _)))

read_join_ack-Finds :
    (m : JoinAckMessage) → IsJoinAck m → Finds read_join_ack (join_ack_layout m) (ok m)
unfolding read_join_ack
read_join_ack-Finds m v =
    Finds->>= _ (Reads-be8 _ v.ack_code)
      (Finds->>= _ (Reads-be32 _ v.member_id) (Finds-Reads (Reads-pure _)))

pub parse_join_ack-layout :
    (m : JoinAckMessage) → IsJoinAck m → parse_join_ack (join_ack_layout m) ≡ some (ok m)
unfolding parse_join_ack
parse_join_ack-layout m v =
    at_least-whole 5 no_join_ack "not enough data" read_join_ack (join_ack_layout m) (omega arith)
      (read_join_ack-Finds m v)

-- The acknowledgement of a JOIN with fields in their ranges is read back as it was written.
pub join_ack_round_trip :
    (m : JoinAckMessage)
    → IsJoinAck m
    → Option.bind (serialize_join_ack m) parse_join_ack ≡ some (ok m)
unfolding Option.bind
join_ack_round_trip m v = rw (serialize_join_ack-layout m) (parse_join_ack-layout m v)

pub parse_join_ack-total : (bs : Bytes) → (r : Result JoinAckMessage) × (parse_join_ack bs ≡ some r)
unfolding parse_join_ack read_join_ack
parse_join_ack-total bs = at_least-total _ _ _ read_join_ack bs λ h.
    Ready->>= _ Safe-read8 (omega arith)
      λ _. Ready->>= _ Safe-read32 (omega arith) λ _. Ready-pure _ _ _
