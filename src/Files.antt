-- ===== src/Files.antt =====
-- engine/file/file_manager.{h,cpp}: the current file, saving, and the automatic saving that appends every
-- operation. The disk is a function from a path to what the file there holds. What the dialogs return is an
-- argument. Whether a path can be opened for writing, and the batches in which a writer's thread finds its
-- queue, belong to the environment. A writer's thread is run when it is stopped. The texts that are shown
-- are not modelled.
pub mod Path
pub mod Queue
pub mod Saving
pub mod Recording
pub mod AutoSave
pub mod Backlog
use sketch_sync.Prelude.{
  ℕ, Bool, true, false, Option, none, some, List, [], ◌∷◌, ◌++◌, ltb, if◌then◌else◌, length,
}
use mathlib.Core.Option
use sketch_sync.Results.{Result, is_ok, text}
use sketch_sync.Bytes.{Bytes, u32, write32, serialize}
use sketch_sync.DrawOperation.{DrawOperation, serialize_draw_operation}
use sketch_sync.Canvas.{Picture, Canvas, snapshot, load}
use sketch_sync.Persistence.{Replay, magic, open_file, run, load_binary_replay, read_saved_seq}
use Path.{equal, with_extension}

-- A persistence_writer whose thread has not run yet.
pub record OperationLog : Type 0 where
  pub path : Bytes
  pub start_after_seq : ℕ
  pub queue : List DrawOperation

-- A missing file is `none`.
abbrev pub Disk : Type 0
Disk = Bytes → Option Bytes

pub record Files : Type 0 where
  pub current_file : Bytes
  pub auto_save_on : Bool
  pub file_saved_seq : ℕ
  pub operation_log : Option OperationLog
  pub canvas_synced_pending : Bool
  pub disk : Disk

abbrev pub untitled : Bytes
untitled = text "untitled"

abbrev pub is_untitled : Files → Bool
is_untitled f = equal f.current_file untitled

-- The files of a new file_manager.
abbrev pub no_files : Disk → Files
no_files disk = record {
  current_file = untitled;
  auto_save_on = false;
  file_saved_seq = 0;
  operation_log = none;
  canvas_synced_pending = false;
  disk = disk;
}

pub store : Bytes → Bytes → Disk → Disk
store path bytes disk other = if equal path other then some bytes else disk other

-- What the constructor of a writer takes a missing file for.
abbrev pub contents : Disk → Bytes → Bytes
contents disk path = elim (disk path) [ none ↦ [] | some bytes ↦ bytes ]

abbrev pub new_log : Bytes → ℕ → OperationLog
new_log path seq = record { path = path; start_after_seq = seq; queue = [] }

-- The highest number of a snapshot.
pub max_seq : ℕ → List DrawOperation → ℕ
max_seq seq [] = seq
max_seq seq (op ∷ ops) = max_seq (if ltb seq op.seq then op.seq else seq) ops

write_records : List DrawOperation → Option Bytes
write_records [] = some []
write_records (op ∷ ops) = Option.bind (serialize_draw_operation op) λ payload.
    Option.bind (serialize 4 (write32 (u32 (length payload))))
      λ length_prefix. Option.map (λ rest. length_prefix ++ payload ++ rest) (write_records ops)

-- All that save_to_file writes.
pub write_file : List DrawOperation → Option Bytes
write_file ops = Option.bind (serialize 4 (write32 (max_seq 0 ops))) λ seq_buf.
    Option.map (λ records. magic ++ (0 ∷ 0 ∷ 0 ∷ 1 ∷ seq_buf ++ (0 ∷ 0 ∷ 0 ∷ 0 ∷ records)))
      (write_records ops)

pub enqueue : OperationLog → DrawOperation → OperationLog
enqueue log op = record log { queue = log.queue ++ op ∷ [] }

pub enqueue_if_auto_save : DrawOperation → Files → Files
enqueue_if_auto_save op f = elim f.operation_log [
  | none ↦ f
  | some log ↦ record f { operation_log = some (enqueue log op) }
]

-- The loop at the end of toggle_auto_save.
pub enqueue_above : ℕ → OperationLog → List DrawOperation → OperationLog
enqueue_above seq log [] = log
enqueue_above seq log (op ∷ ops) =
    enqueue_above seq (if ltb seq op.seq then enqueue log op else log) ops

pub mark_synced_for_save : Files → Files
mark_synced_for_save f =
    if f.auto_save_on
    then (if is_untitled f then f else record f { canvas_synced_pending = true })
    else f

unfoldable pub consume_synced_save : Files → Files × Bool
consume_synced_save f = (record f { canvas_synced_pending = false }, f.canvas_synced_pending)

module _ (can_open : Bytes → Bool) (schedule : List DrawOperation → List (List DrawOperation)) where
  -- stop, and the destructor.
  pub stop : OperationLog → Disk → Option Disk
  stop log disk =
      if can_open log.path
      then (Option.bind (open_file (contents disk log.path) log.start_after_seq)
          λ w. Option.map (λ w'. store log.path w'.file disk) (run w (schedule log.queue)))
      else some disk

  pub close_log : Option OperationLog → Files → Option Files
  close_log none f = some f
  close_log (some log) f =
      Option.map (λ disk. record f { operation_log = none; disk = disk }) (stop log f.disk)

  pub close_auto_save : Files → Option Files
  close_auto_save f = close_log f.operation_log f

  pub shutdown : Files → Option Files
  shutdown = close_auto_save

  -- The part of save_to_file behind the first close_auto_save.
  pub write_to : Bytes → Bool → Canvas → Files → Option Files
  write_to save_path was_auto_save surface f =
      if can_open save_path
      then (Option.map
          (λ bytes. record f {
            disk = store save_path bytes f.disk;
            file_saved_seq = max_seq 0 (snapshot surface);
            current_file = save_path;
            operation_log =
                if was_auto_save
                then some (new_log save_path (max_seq 0 (snapshot surface)))
                else f.operation_log;
          })
          (write_file (snapshot surface)))
      else some (record f {
        operation_log =
            if was_auto_save then some (new_log save_path f.file_saved_seq) else f.operation_log;
      })

  pub close_if : Bool → Files → Option Files
  close_if was_auto_save f = if was_auto_save then close_auto_save f else some f

  pub save_to_file : Bytes → Canvas → Files → Option Files
  save_to_file path surface f =
      Option.bind (close_if f.auto_save_on f)
        (write_to (with_extension path) f.auto_save_on surface)

  -- `chosen` is what the dialog returns.
  pub save_as : Option Bytes → Canvas → Files → Option Files
  save_as chosen surface f = elim chosen [ none ↦ some f | some path ↦ save_to_file path surface f ]

  -- The part of toggle_auto_save behind the first two tests. It is reached only while auto_save_on is false, and
  -- then no writer is open that the new one could take the place of.
  pub start_auto_save : Canvas → Files → Option Files
  start_auto_save surface f =
      Option.map
        (λ seq. record f {
          auto_save_on = true;
          file_saved_seq = seq;
          operation_log = some (enqueue_above seq (new_log f.current_file seq) (snapshot surface));
        })
        (read_saved_seq (contents f.disk f.current_file))

  pub toggle_auto_save : Option Bytes → Canvas → Files → Option Files
  toggle_auto_save chosen surface f =
      if f.auto_save_on
      then close_auto_save (record f { auto_save_on = false })
      else if is_untitled f
      then (Option.bind (save_as chosen surface f)
          λ f'. if is_untitled f' then some f' else start_auto_save surface f')
      else start_auto_save surface f

  restart : Bytes → ℕ → Bool → Files → Files
  restart path seq auto_save_on f =
      if auto_save_on then record f { operation_log = some (new_log path seq) } else f

  -- What open_and_load does with a file that could be read.
  pub opened : Bytes → ℕ → Files → Option Files
  opened path seq f =
      Option.map (restart path seq f.auto_save_on)
        (close_auto_save (record f { current_file = path; file_saved_seq = seq }))

  module _ (paint : Picture → DrawOperation → List ℕ) where
    pub open_and_load : Option Bytes → Canvas → Files → Option (Canvas × Files)
    open_and_load chosen surface f = elim chosen [
      | none ↦ some (surface, f)
      | some path ↦ elim (f.disk path) [
        | none ↦ some (surface, f)
        | some file ↦ Option.bind (load_binary_replay file) λ replay.
            if is_ok replay.operations
            then Option.map (λ f'. (load paint surface replay.operations.value, f'))
                (opened path replay.saved_seq f)
            else some (surface, f)
      ]
    ]
