-- ===== src/Canvas/Log.antt =====
-- The log of operations: the id set, the counter, and operations that are applied twice.
use sketch_sync.Prelude.{
  ℕ, ◌+◌, ◌^◌, ◌≤◌, ◌<◌, ◌≡◌, ◌≢◌, refl, ◌⊎◌, Bool, true, false, not, ◌&&◌, ◌||◌, none, some, List,
  [], ◌∷◌, ◌++◌, leb, ◌==◌, if◌then◌else◌, arith, Option-cases, Bool-cases, inl, inr, ==_refl,
  ==_iff,
}
use Prim.Native.Nat.{max}
use sketch_sync.Bytes.{u32}
use sketch_sync.DrawOperation.{DrawOperation}
use sketch_sync.Canvas.{
  Picture, Canvas, snapshot, contains, insert, create, clear_history, find_seq, insert_ids,
  last_seq, contains_operation, rasterize, commit, stamp, apply, load,
}

pub contains-insert : (x y : ℕ) (ys : List ℕ) → contains x (insert y ys) ≡ (y == x || contains x ys)
unfolding contains insert
contains-insert x y ys = elim (Bool-cases (contains y ys)) [
  | inl old ↦
      rw old
        (elim (Bool-cases (y == x)) [ inl e ↦ rw e (rw ((==_iff y x).0 e) at old) | inr e ↦ rw e ])
  | inr new ↦ rw new
]

-- An operation of the log has the id `x`, which is not 0.
pub has_id : ℕ → List DrawOperation → Bool
has_id x [] = false
has_id x (op ∷ ops) = (not (op.operation_id == 0) && op.operation_id == x) || has_id x ops

has_id_one :
    (x : ℕ) (op : DrawOperation)
    → has_id x (op ∷ []) ≡ (not (op.operation_id == 0) && op.operation_id == x)
unfolding has_id
has_id_one x op = ground arith

has_id-append :
    (x : ℕ) (ops more : List DrawOperation)
    → has_id x (ops ++ more) ≡ (has_id x ops || has_id x more)
unfolding has_id
has_id-append x [] more = refl
has_id-append x (op ∷ ops) more = ground (arith, has_id-append x ops more)

contains-insert_ids :
    (x : ℕ) (ids : List ℕ) (ops : List DrawOperation)
    → contains x (insert_ids ids ops) ≡ (contains x ids || has_id x ops)
unfolding insert_ids has_id
contains-insert_ids x ids [] = ground arith
contains-insert_ids x ids (op ∷ ops) = ground (
  arith,
  contains-insert_ids x (if op.operation_id == 0 then ids else insert op.operation_id ids) ops,
  contains-insert x op.operation_id ids,
)

last_seq-append :
    (n : ℕ) (ops : List DrawOperation) (op : DrawOperation)
    → last_seq n (ops ++ op ∷ []) ≡ max (last_seq n ops) (u32 (op.seq + 1))
unfolding last_seq
last_seq-append n [] op = refl
last_seq-append n (x ∷ ops) op = last_seq-append (max n (u32 (x.seq + 1))) ops op

last_seq-ge : (n : ℕ) (ops : List DrawOperation) → n ≤ last_seq n ops
unfolding last_seq
last_seq-ge n [] = omega arith
last_seq-ge n (op ∷ ops) = omega (arith, last_seq-ge (max n (u32 (op.seq + 1))) ops)

-- An id that is searched for and not found is not in the log.
pub find_seq-has_id :
    (x : ℕ) (ops : List DrawOperation) → find_seq x ops ≡ none → has_id x ops ≡ false
unfolding find_seq has_id
find_seq-has_id x [] e = refl
find_seq-has_id x (op ∷ ops) e = ground (arith, find_seq-has_id x ops)

pub find_seq-some-has_id :
    (x seq : ℕ) (ops : List DrawOperation) → x ≢ 0 → find_seq x ops ≡ some seq → has_id x ops ≡ true
unfolding find_seq has_id
find_seq-some-has_id x seq [] h e = cc
find_seq-some-has_id x seq (op ∷ ops) h e = ground (arith, find_seq-some-has_id x seq ops h)

find_seq-append :
    (ops : List DrawOperation) (op : DrawOperation)
    → find_seq op.operation_id ops ≡ none
    → find_seq op.operation_id (ops ++ op ∷ []) ≡ some op.seq
unfolding find_seq
find_seq-append [] op e = rw (==_refl op.operation_id)
find_seq-append (x ∷ ops) op e = ground (arith, find_seq-append ops op)

-- The id set holds the ids of the log, and the counter stands behind every number of the log.
pub record IsConsistent (c : Canvas) : Type 0 where
  pub ids : (x : ℕ) → contains x c.operation_ids ≡ has_id x c.operations
  pub next : c.next_seq ≡ last_seq 1 c.operations

has_id_zero : (ops : List DrawOperation) → has_id 0 ops ≡ false
unfolding has_id
has_id_zero [] = refl
has_id_zero (op ∷ ops) = ground (arith, has_id_zero ops)

-- On a consistent canvas, contains_operation answers whether an operation of the log has this id and the
-- id is not 0.
pub contains_operation-has_id :
    (operation_id : ℕ) (c : Canvas)
    → IsConsistent c
    → contains_operation operation_id c ≡ has_id operation_id c.operations
unfolding contains_operation
contains_operation-has_id operation_id c v = elim (Bool-cases (operation_id == 0)) [
  | inl zero_id ↦ rw (zero_id, (==_iff operation_id 0).0 zero_id, has_id_zero c.operations) refl
  | inr other ↦ rw other (v.ids operation_id)
]

pub IsConsistent-positive : (c : Canvas) → IsConsistent c → 0 < c.next_seq
IsConsistent-positive c v = omega (arith, v.next, last_seq-ge 1 c.operations)

-- The number that an operation is committed under.
abbrev pub assigned : Canvas → DrawOperation → ℕ
assigned c op = if op.seq == 0 then c.next_seq else op.seq

-- Neither the counter nor the operation is at the end of its 32 bits.
pub record HasRoom (c : Canvas) (op : DrawOperation) : Type 0 where
  pub counter : c.next_seq + 1 < 2 ^ 32
  pub number : op.seq + 1 < 2 ^ 32

assigned_room : (c : Canvas) (op : DrawOperation) → HasRoom c op → assigned c op + 1 < 2 ^ 32
assigned_room c op r = ground arith

-- No operation of the log has this id, or it is the id 0 that is never compared.
abbrev pub IsFresh : Canvas → DrawOperation → Type 0
IsFresh c op = (op.operation_id ≡ 0) ⊎ (find_seq op.operation_id c.operations ≡ none)

fresh_id :
    (c : Canvas) (op : DrawOperation)
    → IsConsistent c
    → IsFresh c op
    → (not (op.operation_id == 0) && contains op.operation_id c.operation_ids) ≡ false
fresh_id c op v (inl e) = ground arith
fresh_id c op v (inr e) =
    ground (arith, v.ids op.operation_id, find_seq-has_id op.operation_id c.operations e)

module _ (paint : Picture → DrawOperation → List ℕ) where
  -- The log, the set and the picture with one more operation, and the counter behind it.
  unfoldable pub appended : Canvas → DrawOperation → Canvas
  appended c op = record {
    picture = rasterize paint c.picture op;
    next_seq = max c.next_seq (op.seq + 1);
    operations = c.operations ++ op ∷ [];
    operation_ids =
        if op.operation_id == 0 then c.operation_ids else insert op.operation_id c.operation_ids;
  }

  commit_fresh :
      (c : Canvas) (op : DrawOperation) (seq next : ℕ)
      → (not (op.operation_id == 0) && contains op.operation_id c.operation_ids) ≡ false
      → (if leb next seq then u32 (seq + 1) else next) ≡ max c.next_seq (seq + 1)
      → commit paint c op seq next ≡ (appended c (record op { seq = seq }), seq)
  unfolding commit appended
  commit_fresh c op seq next e h = rw (e, h)

  stamp_fresh :
      (c : Canvas) (op : DrawOperation)
      → IsConsistent c
      → IsFresh c op
      → HasRoom c op
      → stamp paint c op ≡ (appended c (record op { seq = assigned c op }), assigned c op)
  unfolding stamp
  stamp_fresh c op v f r = elim (Bool-cases (op.seq == 0)) [
    | inl e ↦
        rw e
          (commit_fresh c op c.next_seq (u32 (c.next_seq + 1)) (fresh_id c op v f) (ground arith))
    | inr e ↦ rw e (commit_fresh c op op.seq c.next_seq (fresh_id c op v f) (ground arith))
  ]

  -- A fresh operation is appended under its number.
  pub apply_fresh :
      (c : Canvas) (op : DrawOperation)
      → IsConsistent c
      → IsFresh c op
      → HasRoom c op
      → apply paint c op ≡ (appended c (record op { seq = assigned c op }), assigned c op)
  unfolding apply
  apply_fresh c op v (inl e) r = rw ((==_iff op.operation_id 0).1 e) (stamp_fresh c op v (inl e) r)
  apply_fresh c op v (inr e) r = elim (Bool-cases (op.operation_id == 0)) [
    | inl z ↦ rw z (stamp_fresh c op v (inr e) r)
    | inr z ↦ rw (z, e) (stamp_fresh c op v (inr e) r)
  ]

  pub apply_known :
      (c : Canvas) (op : DrawOperation) (seq : ℕ)
      → op.operation_id ≢ 0
      → find_seq op.operation_id c.operations ≡ some seq
      → apply paint c op ≡ (c, seq)
  unfolding apply
  apply_known c op seq h e = ground arith

  appended-IsConsistent :
      (c : Canvas) (op : DrawOperation)
      → IsConsistent c
      → op.seq + 1 < 2 ^ 32
      → IsConsistent (appended c op)
  unfolding appended
  appended-IsConsistent c op v h = record {
    ids = λ x. rw (has_id-append x c.operations (op ∷ [])) (
        ground
          (arith, v.ids x, contains-insert x op.operation_id c.operation_ids, has_id_one x op));
    next =
        let e : u32 (op.seq + 1) ≡ op.seq + 1 = omega arith in
        rw (last_seq-append 1 c.operations op, e, v.next);
  }

  -- An operation is in the log already, or it is fresh.
  pub apply_cases :
      (c : Canvas) (op : DrawOperation)
      → IsFresh c op
        ⊎ ((seq : ℕ) × (op.operation_id ≢ 0) × (find_seq op.operation_id c.operations ≡ some seq))
  apply_cases c op = elim (Bool-cases (op.operation_id == 0)) [
    | inl z ↦ inl (inl ((==_iff op.operation_id 0).0 z))
    | inr z ↦ elim (Option-cases (find_seq op.operation_id c.operations)) [
      | inl e ↦ inl (inr e)
      | inr (seq, e) ↦ inr (seq, ground arith, e)
    ]
  ]

  -- An operation that has room, on a consistent canvas, leaves the id set and the counter in step with
  -- the log.
  pub apply-IsConsistent :
      (c : Canvas) (op : DrawOperation)
      → IsConsistent c
      → HasRoom c op
      → IsConsistent (apply paint c op).0
  apply-IsConsistent c op v r = elim (apply_cases c op) [
    | inl f ↦
        rw (apply_fresh c op v f r)
          (appended-IsConsistent c (record op { seq = assigned c op }) v (assigned_room c op r))
    | inr (seq, h, e) ↦ rw (apply_known c op seq h e) v
  ]

  -- On a consistent canvas with room, the second delivery of an operation with an id changes nothing
  -- and returns the same number as the first.
  pub apply_twice :
      (c : Canvas) (op : DrawOperation)
      → IsConsistent c
      → HasRoom c op
      → op.operation_id ≢ 0
      → apply paint (apply paint c op).0 op ≡ apply paint c op
  apply_twice c op v r h = elim (apply_cases c op) [
    | inl (inl z) ↦ absurd (h z)
    | inl (inr e) ↦
        let op' = record op { seq = assigned c op } in
        rw (apply_fresh c op v (inr e) r) (
          apply_known (appended c op') op (assigned c op) h
            (unfold appended in find_seq-append c.operations op' e))
    | inr (seq, _, e) ↦ rw (apply_known c op seq h e) (apply_known c op seq h e)
  ]

  pub load-IsConsistent : (c : Canvas) (ops : List DrawOperation) → IsConsistent (load paint c ops)
  unfolding load has_id contains
  load-IsConsistent c ops = record { ids = λ x. contains-insert_ids x [] ops; next = refl }

pub create-IsConsistent :
    (width height background : ℕ) → IsConsistent (create width height background)
unfolding create contains has_id last_seq
create-IsConsistent width height background = record { ids = λ x. refl; next = refl }

pub clear_history-IsConsistent : (c : Canvas) → IsConsistent (clear_history c)
unfolding clear_history contains has_id last_seq
clear_history-IsConsistent c = record { ids = λ x. refl; next = refl }

pub create-HasRoom :
    (width height background : ℕ) (op : DrawOperation)
    → op.seq + 1 < 2 ^ 32
    → HasRoom (create width height background) op
unfolding create
create-HasRoom width height background op h = record { counter = omega arith; number = h }

pub create-IsFresh :
    (width height background : ℕ) (op : DrawOperation) → IsFresh (create width height background) op
unfolding create find_seq
create-IsFresh width height background op = inr refl

pub create-room :
    (width height background n : ℕ)
    → 1 + n < 2 ^ 32
    → (create width height background).next_seq + n < 2 ^ 32
unfolding create
create-room width height background n h = h

pub clear_history-snapshot : (c : Canvas) → snapshot (clear_history c) ≡ []
unfolding clear_history snapshot
clear_history-snapshot c = refl
