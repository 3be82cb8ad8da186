-- ===== src/Protocol/CanvasState.antt =====
-- CanvasStateMessage of message.h and message.cpp: the whole drawing, as a count and a record of
-- length and bytes for each operation. (The memory that `reserve` asks for is not modelled.)
pub mod RoundTrip
use sketch_sync.Prelude.{
  ℕ, zero, suc, ◌+◌, not, Option, some, List, [], ◌∷◌, ◌++◌, ltb, if◌then◌else◌, length, replicate,
}
use mathlib.Core.Option
use sketch_sync.Results.{Result, Error, ok, fail, refail, is_ok, text}
use sketch_sync.Bytes.{
  Bytes, Action, u32, cursor, tell, lift, skip, read32, string_at, write32, memcpy, pure, ◌>>=◌,
  ◌>>◌, serialize,
}
use sketch_sync.Bytes.Guard.{parse_at_least}
use sketch_sync.DrawOperation.{DrawOperation, serialize_draw_operation, parse_draw_operation}

-- The first loop: serialized.push_back(serializeDrawOperation(op)).
serialize_each : List DrawOperation → Option (List Bytes)
serialize_each [] = some []
serialize_each (op ∷ ops) =
    Option.bind (serialize_draw_operation op)
      λ s. Option.map (λ rest. s ∷ rest) (serialize_each ops)

-- The body of the second loop: the buffer grows by zeros, which the length and the bytes overwrite.
append_record : Bytes → Bytes → Option Bytes
append_record buf s =
    Option.map (λ r. r.1.buf)
      ((write32 (u32 (length s)) >> memcpy s)
        (cursor (buf ++ replicate (4 + length s) 0) (length buf)))

append_records : Bytes → List Bytes → Option Bytes
append_records buf [] = some buf
append_records buf (s ∷ rest) = Option.bind (append_record buf s) λ buf'. append_records buf' rest

pub serialize_canvas_state : List DrawOperation → Option Bytes
serialize_canvas_state operations = Option.bind (serialize_each operations) λ serialized.
    Option.bind (serialize 4 (write32 (u32 (length operations))))
      λ buf. append_records buf serialized

-- The loop of parseCanvasStateMessage, by the rounds that are left.
read_records : ℕ → ℕ → List DrawOperation → Action (Result (List DrawOperation))
read_records size zero operations = pure (ok operations)
read_records size (suc n) operations = do
  off ← tell
  if ltb size (off + 4) then pure (fail [] Error.malformed (text "canvas state truncated")) else do
    len ← read32
    off' ← tell
    if ltb size (off' + len)
        then pure (fail [] Error.malformed (text "operation data truncated"))
        else do
          span ← string_at len
          op ← lift (parse_draw_operation span)
          if not (is_ok op)
              then pure (refail [] op)
              else do skip len; read_records size n (operations ++ op.value ∷ [])

read_canvas_state : ℕ → Action (Result (List DrawOperation))
read_canvas_state size = do count ← read32; read_records size count []

pub parse_canvas_state : Bytes → Option (Result (List DrawOperation))
parse_canvas_state bs =
    parse_at_least 4 [] "canvas state too short" (read_canvas_state (length bs)) bs
