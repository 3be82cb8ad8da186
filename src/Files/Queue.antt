-- ===== src/Files/Queue.antt =====
-- enqueue_if_auto_save of engine/file/file_manager.cpp, on the files.
use sketch_sync.Prelude.{◌≡◌, refl, Option, none, some, [], ◌∷◌, ◌++◌}
use mathlib.Core.Option
use sketch_sync.DrawOperation.{DrawOperation}
use sketch_sync.Files.{Files, OperationLog, enqueue, enqueue_if_auto_save}

-- The files with one more operation in the queue of the writer, if one is open.
abbrev pub queued_too : DrawOperation → Files → Files
queued_too op f = record f {
  operation_log =
      Option.map {A = OperationLog} (λ log. record log { queue = log.queue ++ op ∷ [] })
        f.operation_log;
}

log_cases :
    (op : DrawOperation) (f : Files) (o : Option OperationLog)
    → f.operation_log ≡ o
    → enqueue_if_auto_save op f ≡ queued_too op f
unfolding enqueue_if_auto_save enqueue
log_cases op f none h = rw h refl
log_cases op f (some log) h = rw h refl

pub enqueue_if_auto_save-queued :
    (op : DrawOperation) (f : Files) → enqueue_if_auto_save op f ≡ queued_too op f
enqueue_if_auto_save-queued op f = log_cases op f f.operation_log refl
