-- ===== src/Files/Recording.antt =====
-- The canvas of a host and the writer of its file: what the canvas applies, the writer is handed.
use sketch_sync.Prelude.{
  ℕ, ◌+◌, ◌^◌, ◌≡◌, ◌<◌, ◌≤◌, refl, sym, ap, ◌∙◌, some, List, [], ◌∷◌, ◌++◌, ltb, if◌then◌else◌,
  length, arith, All, append_assoc, lt→ltb,
}
use mathlib.Core.Path.{subst}
use Prim.Native.Nat.{max}
use sketch_sync.Bytes.{IsU32}
use sketch_sync.DrawOperation.{DrawOperation}
use sketch_sync.Protocol.CanvasState.RoundTrip.{IsStorable, stamped-IsStorable}
use sketch_sync.Canvas.{Picture, Canvas, snapshot, apply}
use sketch_sync.Canvas.Log.{
  IsConsistent, HasRoom, IsFresh, assigned, appended, apply_fresh, apply-IsConsistent,
}
use sketch_sync.Persistence.Writing.{log_layout, kept, kept-append}
use sketch_sync.Files.{Files, OperationLog, max_seq, enqueue, enqueue_if_auto_save}

-- Every number of the log lies below the counter.
pub record IsNumbered (c : Canvas) : Type 0 where
  pub below : All (λ op. op.seq < c.next_seq) (snapshot c)
  pub storable : All IsStorable (snapshot c)

-- The open writer's file and queue together hold the log of the canvas.
pub record IsBackedUp (surface : Canvas) (f : Files) : Type 0 where
  pub log : OperationLog
  pub stored : List DrawOperation
  pub header : ℕ
  pub attached : f.operation_log ≡ some log
  pub current : f.current_file ≡ log.path
  pub file : f.disk log.path ≡ some (log_layout header stored)
  pub complete : stored ++ kept log.start_after_seq log.queue ≡ snapshot surface
  pub queue : All IsStorable log.queue
  pub behind : log.start_after_seq < surface.next_seq
  pub start : IsU32 log.start_after_seq

-- A canvas whose log can be saved, and that is backed up by the writer of the file.
pub record Keeps (surface : Canvas) (f : Files) : Type 0 where
  pub consistent : IsConsistent surface
  pub numbered : IsNumbered surface
  pub backed_up : IsBackedUp surface f

pub max_seq-lt :
    (n seq : ℕ) (ops : List DrawOperation)
    → seq < n
    → All (λ op. op.seq < n) ops
    → max_seq seq ops < n
unfolding max_seq
max_seq-lt n seq [] h v = h
max_seq-lt n seq (op ∷ ops) h v =
    let below : op.seq < n = v.0 in
    max_seq-lt n (if ltb seq op.seq then op.seq else seq) ops (ground (arith, below)) v.1

All-below :
    (n m : ℕ) (ops : List DrawOperation)
    → n ≤ m
    → All (λ op. op.seq < n) ops
    → All (λ op. op.seq < m) ops
All-below n m [] h v = tt
All-below n m (op ∷ ops) h v =
    let below : op.seq < n = v.0 in (omega arith, All-below n m ops h v.1)

All-one :
    (P : DrawOperation → Type 0) (ops : List DrawOperation) (op : DrawOperation)
    → All P ops
    → P op
    → All P (ops ++ op ∷ [])
All-one P [] op v h = (h, tt)
All-one P (x ∷ ops) op v h = (v.0, All-one P ops op v.1 h)

kept_one :
    (start : ℕ) (ops : List DrawOperation) (op : DrawOperation)
    → start < op.seq
    → kept start (ops ++ op ∷ []) ≡ kept start ops ++ op ∷ []
unfolding kept
kept_one start ops op h = rw (kept-append start ops (op ∷ []), lt→ltb start op.seq h) refl

enqueue_if_auto_save-log :
    (op : DrawOperation) (f : Files) (log : OperationLog)
    → f.operation_log ≡ some log
    → enqueue_if_auto_save op f ≡ record f { operation_log = some (enqueue log op) }
unfolding enqueue_if_auto_save
enqueue_if_auto_save-log op f log e = ground arith

-- The local canvas of a host, with what it hands to the writer.
module _ (paint : Picture → DrawOperation → List ℕ) where
  -- surface.apply and files_.enqueue_if_auto_save on each operation, as the host does for its own
  -- strokes and for those that it receives.
  pub record_all : List DrawOperation → Canvas → Files → Canvas × Files
  record_all [] surface f = (surface, f)
  record_all (op ∷ ops) surface f =
      let (surface', seq) = apply paint surface op in
      record_all ops surface' (enqueue_if_auto_save (record op { seq = seq }) f)

  appended-IsNumbered :
      (c : Canvas) (op : DrawOperation)
      → IsNumbered c
      → IsStorable op
      → IsNumbered (appended paint c op)
  unfolding appended snapshot
  appended-IsNumbered c op v s =
      let n = max c.next_seq (op.seq + 1) in
      record {
        below =
            All-one (λ x. x.seq < n) c.operations op
              (All-below c.next_seq n c.operations (omega arith) v.below) (omega arith);
        storable = All-one IsStorable c.operations op v.storable s;
      }

  enqueued-IsBackedUp :
      (surface : Canvas) (f : Files) (op : DrawOperation)
      → IsBackedUp surface f
      → surface.next_seq ≤ op.seq
      → IsStorable op
      → IsBackedUp (appended paint surface op) (enqueue_if_auto_save op f)
  unfolding appended snapshot enqueue
  enqueued-IsBackedUp surface f op b h s =
      let behind : b.log.start_after_seq < surface.next_seq = b.behind in
      rw (enqueue_if_auto_save-log op f b.log b.attached) (record {
        log = enqueue b.log op;
        stored = b.stored;
        header = b.header;
        attached = refl;
        current = b.current;
        file = b.file;
        complete =
            ap (λ l. b.stored ++ l) (kept_one b.log.start_after_seq b.log.queue op (omega arith))
            ∙ sym (append_assoc b.stored (kept b.log.start_after_seq b.log.queue) (op ∷ []))
            ∙ ap (λ l. l ++ op ∷ []) b.complete;
        queue = All-one IsStorable b.log.queue op b.queue s;
        behind = omega arith;
        start = b.start;
      })

  enqueue-current_file :
      (op : DrawOperation) (f : Files) → (enqueue_if_auto_save op f).current_file ≡ f.current_file
  unfolding enqueue_if_auto_save
  enqueue-current_file op f = ground arith

  pub record_all-current_file :
      (ops : List DrawOperation) (surface : Canvas) (f : Files)
      → (record_all ops surface f).1.current_file ≡ f.current_file
  unfolding record_all
  record_all-current_file [] surface f = refl
  record_all-current_file (op ∷ ops) surface f =
      let (surface', seq) = apply paint surface op in
      record_all-current_file ops surface' (enqueue_if_auto_save (record op { seq = seq }) f)
      ∙ enqueue-current_file (record op { seq = seq }) f

  -- Each operation is new to the canvas by the time that it comes.
  abbrev pub AllFresh : List DrawOperation → Canvas → Type 0
  AllFresh [] surface = Unit {0}
  AllFresh (op ∷ ops) surface = IsFresh surface op × AllFresh ops (apply paint surface op).0

  record_one :
      (surface : Canvas) (f : Files) (op : DrawOperation)
      → Keeps surface f
      → IsStorable op
      → op.seq ≡ 0
      → IsFresh surface op
      → surface.next_seq + 1 < 2 ^ 32
      → let (surface', seq) = apply paint surface op in
        Keeps surface' (enqueue_if_auto_save (record op { seq = seq }) f)
        × (surface'.next_seq ≤ surface.next_seq + 1)
  record_one surface f op k s z fresh room =
      let n = surface.next_seq in
      let op' : DrawOperation = record op { seq = n } in
      let r : HasRoom surface op = record { counter = room; number = omega arith } in
      let given : assigned surface op ≡ n = ground arith in
      let s' = stamped-IsStorable op n s (omega arith) in
      let e : apply paint surface op ≡ (appended paint surface op', n) =
        apply_fresh paint surface op k.consistent fresh r
        ∙ ap (λ m. (appended paint surface (record op { seq = m }), m)) given in
      let c =
        subst (λ p. IsConsistent p.0) e (apply-IsConsistent paint surface op k.consistent r) in
      rw e (
        record {
          consistent = c;
          numbered = appended-IsNumbered surface op' k.numbered s';
          backed_up = enqueued-IsBackedUp surface f op' k.backed_up (omega arith) s';
        },
        unfold appended in omega arith,
      )

  pub record_all-Keeps :
      (ops : List DrawOperation) (surface : Canvas) (f : Files)
      → Keeps surface f
      → All IsStorable ops
      → All (λ op. op.seq ≡ 0) ops
      → AllFresh ops surface
      → surface.next_seq + length ops < 2 ^ 32
      → let (surface', f') = record_all ops surface f in Keeps surface' f'
  unfolding record_all
  record_all-Keeps [] surface f k s z fresh room = k
  record_all-Keeps (op ∷ ops) surface f k s z fresh room =
      let (k', le) = record_one surface f op k s.0 z.0 fresh.0 (omega arith) in
      record_all-Keeps ops (apply paint surface op).0
        (enqueue_if_auto_save (record op { seq = (apply paint surface op).1 }) f) k' s.1 z.1 fresh.1
        (omega arith)
