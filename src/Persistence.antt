-- ===== src/Persistence.antt =====
-- engine/persistence/persistenceWriter.{h,cpp}, and load_binary_replay and read_saved_seq of
-- engine/ui/ui.cpp: the log of operations in a file. The file is its bytes. The queue is a list of
-- batches, one for each time that the writer's thread finds it filled. Failures of the file system, locks
-- and flushing are not modelled.
pub mod Writing
pub mod Ending
pub mod Replaying
use sketch_sync.Prelude.{
  ℕ, zero, suc, ◌+◌, ◌-◌, Bool, true, false, not, ◌||◌, Option, none, some, List, [], ◌∷◌, ◌++◌,
  ltb, ◌==◌, if◌then◌else◌, length, take, drop, replicate,
}
use mathlib.Core.Option
use sketch_sync.Results.{Result, Error, ok, fail, refail, is_ok, text}
use sketch_sync.Bytes.{
  Bytes, Action, u32, tell, lift, skip, read32, string_at, write32, pure, ◌>>=◌, ◌>>◌, parse,
  serialize,
}
use sketch_sync.DrawOperation.{DrawOperation, serialize_draw_operation, parse_draw_operation}

pub record Writer : Type 0 where
  pub start_after_seq : ℕ
  pub saved_seq : ℕ
  pub file : Bytes

abbrev pub magic : Bytes
magic = b'S' ∷ b'K' ∷ b'S' ∷ b'Y' ∷ []

-- The 16 bytes of a new file.
new_file : ℕ → Option Bytes
new_file seq =
    Option.map (λ seq_buf. magic ++ (0 ∷ 0 ∷ 0 ∷ 1 ∷ seq_buf ++ (0 ∷ 0 ∷ 0 ∷ 0 ∷ [])))
      (serialize 4 (write32 seq))

-- The constructor, and the start of `run` on what the file holds; a missing file holds nothing.
pub open_file : Bytes → ℕ → Option Writer
open_file file start_after_seq =
    Option.map
      (λ bytes. record {
        start_after_seq = start_after_seq;
        saved_seq = start_after_seq;
        file = bytes;
      })
      (elim file [ [] ↦ new_file start_after_seq | b ∷ bs ↦ some (b ∷ bs) ])

-- seekp and write: a gap before the position is filled with zeros.
overwrite : ℕ → Bytes → Bytes → Bytes
overwrite off bytes file =
    take off (file ++ replicate (off - length file) 0) ++ (bytes ++ drop (off + length bytes) file)

update_header_seq : Writer → Option Writer
update_header_seq w =
    Option.map (λ buffer. record w { file = overwrite 8 buffer w.file })
      (serialize 4 (write32 w.saved_seq))

-- The body of the inner loop of `run`.
write_op : Writer → DrawOperation → Option Writer
write_op w op =
    if ltb w.start_after_seq op.seq
    then (Option.bind (serialize_draw_operation op) λ payload.
        Option.map
          (λ length_prefix. record w {
            file = w.file ++ (length_prefix ++ payload);
            saved_seq = if ltb w.saved_seq op.seq then op.seq else w.saved_seq;
          })
          (serialize 4 (write32 (u32 (length payload)))))
    else some w

drain : Writer → List DrawOperation → Option Writer
drain w [] = some w
drain w (op ∷ ops) = Option.bind (write_op w op) λ w'. drain w' ops

-- wrote_any
wrote_any : ℕ → List DrawOperation → Bool
wrote_any start [] = false
wrote_any start (op ∷ ops) = ltb start op.seq || wrote_any start ops

-- One round of the outer loop.
round : Writer → List DrawOperation → Option Writer
round w ops =
    Option.bind (drain w ops)
      λ w'. if wrote_any w.start_after_seq ops then update_header_seq w' else some w'

-- The rounds, and what `run` does behind its loop.
pub run : Writer → List (List DrawOperation) → Option Writer
run w [] = update_header_seq w
run w (batch ∷ batches) = Option.bind (round w batch) λ w'. run w' batches

-- What load_binary_replay finds: the status is that of a failure.
pub record Replay : Type 0 where
  pub operations : Result (List DrawOperation)
  pub saved_seq : ℕ

-- The loop of load_binary_replay. Each round takes at least the four bytes of a length, so a file of
-- `size` bytes has fewer than `size` rounds; `none` if there were more.
read_log : ℕ → ℕ → List DrawOperation → Action (Result (List DrawOperation))
read_log zero size operations = λ c. none
read_log (suc rounds) size operations = do
  offset ← tell
  if ltb size (offset + 4)
      then (if not (offset == size)
          then pure (fail [] Error.malformed (text "Unexpected trailing bytes"))
          else pure (ok operations))
      else do
        op_len ← read32
        offset' ← tell
        if ltb size (offset' + op_len)
            then pure (fail [] Error.malformed (text "Truncated draw log"))
            else do
              span ← string_at op_len
              op_res ← lift (parse_draw_operation span)
              if not (is_ok op_res)
                  then pure (refail [] op_res)
                  else do skip op_len; read_log rounds size (operations ++ op_res.value ∷ [])

-- std::equal of the magic and the start of the file.
starts_with : Bytes → Bytes → Bool
starts_with [] file = true
starts_with (m ∷ ms) [] = false
starts_with (m ∷ ms) (b ∷ bs) = if m == b then starts_with ms bs else false

invalid_format : Replay
invalid_format = record {
  operations = fail [] Error.malformed (text "Invalid or unsupported SketchSync file format");
  saved_seq = 0;
}

read_replay : ℕ → Action Replay
read_replay size = do
  skip 4
  version ← read32
  saved_seq ← read32
  reserved ← read32
  operations ← read_log (suc size) size []
  pure (record { operations = operations; saved_seq = saved_seq })

pub load_binary_replay : Bytes → Option Replay
load_binary_replay file =
    if ltb (length file) 16 || not (starts_with magic file)
    then some invalid_format
    else parse file (read_replay (length file))

pub read_saved_seq : Bytes → Option ℕ
read_saved_seq file =
    if ltb (length file) 16
    then some 0
    else if starts_with magic file
    then parse file (do skip 8; read32)
    else some 0
