-- ===== src/DrawOperation/Validity.antt =====
-- What validateDrawOperation of draw_operation.cpp accepts.
use sketch_sync.Prelude.{
  ℕ, refl, ◌≡◌, ◌≢◌, ◌≤◌, ◌<◌, ◌↔◌, ◌⊎◌, Bool, true, false, List, [], ◌∷◌, length, arith, ◌==◌,
}
use sketch_sync.Results.{ok, is_ok}
use sketch_sync.DrawOperation.{DrawOperation, validate_points, validate_draw_operation, is_empty}
use sketch_sync.DrawOperation.ToolType

abbrev pub IsShape : ℕ → Type 0
IsShape t =
    (t ≡ ToolType.line)
    ⊎ (t ≡ ToolType.rect)
    ⊎ (t ≡ ToolType.ellipse)
    ⊎ (t ≡ ToolType.filled_rect)
    ⊎ (t ≡ ToolType.filled_ellipse)

abbrev pub IsStroke : ℕ → Type 0
IsStroke t = (t ≡ ToolType.freehand) ⊎ (t ≡ ToolType.eraser) ⊎ (t ≡ ToolType.brush)

-- How many points a tool takes.
pub record HasPoints (op : DrawOperation) : Type 0 where
  pub clear : op.tool ≡ ToolType.clear → length op.points ≡ 0
  pub shape : IsShape op.tool → length op.points ≡ 2
  pub stroke : IsStroke op.tool → 0 < length op.points
  pub fill : op.tool ≡ ToolType.bucket_fill → 0 < length op.points

-- A valid operation; `committed` ones carry a sequence number, others carry none.
pub record IsValid (op : DrawOperation) (committed : Bool) : Type 0 where
  pub identified : op.operation_id ≢ 0
  pub stamped : committed ≡ true → op.seq ≢ 0
  pub unstamped : committed ≡ false → op.seq ≡ 0
  pub owned : op.member_id ≢ 0
  pub named : op.tool ≤ ToolType.brush
  pub thick : 0 < op.thickness
  pub thin : op.thickness ≤ 64
  pub bounded : length op.points ≤ 65535
  pub has_points : HasPoints op

is_empty-length {ℓ} : {A : Type ℓ} (xs : List A) → is_empty xs ≡ (length xs == 0)
is_empty-length [] = refl
is_empty-length (x ∷ xs) = ground arith

validate_points-HasPoints : (op : DrawOperation) → is_ok (validate_points op) ≡ true → HasPoints op
unfolding validate_points
validate_points-HasPoints op h = record {
  clear = ground (arith, is_empty-length op.points);
  shape = ground (arith, is_empty-length op.points);
  stroke = ground (arith, is_empty-length op.points);
  fill = ground (arith, is_empty-length op.points);
}

HasPoints-validate_points : (op : DrawOperation) → HasPoints op → validate_points op ≡ ok true
unfolding validate_points
HasPoints-validate_points op h =
    ground (arith, is_empty-length op.points, h.clear, h.shape, h.stroke, h.fill)

validate-IsValid :
    (op : DrawOperation) (committed : Bool)
    → is_ok (validate_draw_operation op committed) ≡ true
    → IsValid op committed
unfolding validate_draw_operation
validate-IsValid op committed h = record {
  identified = ground arith;
  stamped = ground arith;
  unstamped = ground arith;
  owned = ground arith;
  named = ground arith;
  thick = ground arith;
  thin = ground arith;
  bounded = ground arith;
  has_points = validate_points-HasPoints op (ground arith);
}

IsValid-validate :
    (op : DrawOperation) (committed : Bool)
    → IsValid op committed
    → validate_draw_operation op committed ≡ ok true
unfolding validate_draw_operation
IsValid-validate op committed v =
    ground (arith, HasPoints-validate_points op v.has_points, v.stamped, v.unstamped)

-- validateDrawOperation succeeds exactly on the valid operations: those with an id and a member, a
-- sequence number exactly if one is required, a named tool, a thickness from 1 to 64, at most 65535
-- points, and as many points as the tool takes.
pub validate_iff :
    (op : DrawOperation) (committed : Bool)
    → (is_ok (validate_draw_operation op committed) ≡ true) ↔ IsValid op committed
validate_iff op committed =
    (validate-IsValid op committed, λ v. rw (IsValid-validate op committed v))
