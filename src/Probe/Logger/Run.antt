-- ===== src/Probe/Logger/Run.antt =====
-- Calls of net-probe/src/logger.cpp from any threads, in the order in which they take the lock, and
-- the lists that they work on.
pub mod Refines
use nx_reverse.Base.{
  ℕ, zero, suc, ◌+◌, ◌<◌, ◌≡◌, refl, arith, Bool-cases, inl, inr, Bool, true, false, Option, none,
  some, List, [], ◌∷◌, ◌++◌, Bytes, replicate, take, drop, length, ltb, if◌then◌else◌, map,
}
use nx_reverse.Probe.Queue.{enqueue, count_dropped}
use nx_reverse.Probe.Queue.Bounded.{newest, enqueue-Represents}
use nx_reverse.Probe.Logger.{
  QueuedLine, QueuedBlob, Logger, initial_logger, queued_line, queued_blob, queue_entry_capacity,
  kind_index, get_blob_queue_kind, modify, append_line, append_bytes, log, initialize, log_line,
  log_file_path, banner, queue_line_locked, queue_blob_locked, start_flush_thread,
  ensure_flush_event_initialized, maximum_queued_blob_length,
}
use nx_reverse.Probe.Logger.Held.{
  Holds, initial_logger-Holds, add_newest, modify-enqueue-HoldAll, modify-count_dropped-HoldAll,
}
use nx_reverse.Probe.Logger.Flush.{Batch, take_batch}
use nx_reverse.Probe.Logger.Flush.Batches.{take_each, drop_each, take_batch-Takes}

-- A call, or a round of the flush thread.
pub data LogCall : Type 0 where
  started : LogCall
  line_given : Option Bytes → Option Bytes → LogCall
  bytes_given : Option Bytes → Option Bytes → LogCall
  message_given : ℕ → Option Bytes → LogCall
  batch_taken : LogCall

-- What is queued: the lines, and the blobs of each kind.
pub record Contents : Type 0 where
  pub ready : Bool
  pub lines : List QueuedLine
  pub blobs : List (List QueuedBlob)

abbrev pub Taken : Type 0
Taken = List QueuedLine × List (List QueuedBlob)

abbrev add_line : QueuedLine → Contents → Contents
add_line l c = record c { lines = newest queue_entry_capacity (c.lines ++ l ∷ []) }

abbrev add_blob : QueuedBlob → ℕ → Contents → Contents
add_blob b i c = record c { blobs = modify i (add_newest b) c.blobs }

-- A text is taken once the log is ready, if it and its path have bytes.
unfoldable pub give_line : Option Bytes → Option Bytes → Contents → Contents
give_line (some (p ∷ path)) (some (t ∷ text)) c =
    if c.ready then add_line (queued_line (p ∷ path) (t ∷ text)) c else c
give_line _ _ c = c

-- Data is taken likewise, if it has no more than 2,048 bytes, into the queue of its path.
unfoldable pub give_bytes : Option Bytes → Option Bytes → Contents → Contents
give_bytes (some (p ∷ path)) (some (b ∷ bytes)) c =
    if c.ready
    then if ltb 2048 (length (b ∷ bytes))
      then c
      else add_blob (queued_blob (p ∷ path) (b ∷ bytes))
          (kind_index (get_blob_queue_kind (some (p ∷ path)))) c
    else c
give_bytes _ _ c = c

unfoldable pub give : LogCall → Contents → List Taken × Contents
give started c = (
  [],
  if c.ready then c else add_line (queued_line log_file_path banner) (record c { ready = true }),
)
give (line_given path text) c = ([], give_line path text c)
give (bytes_given path bytes) c = ([], give_bytes path bytes c)
give (message_given tick none) c = ([], c)
give (message_given tick (some [])) c = ([], c)
give (message_given tick (some (t ∷ text))) c =
    ([], give_line (some log_file_path) (some (log_line tick (t ∷ text))) c)
give batch_taken c = (
  (take 16 c.lines, take_each c.blobs) ∷ [],
  record c { lines = drop 16 c.lines; blobs = drop_each c.blobs },
)

unfoldable pub give_all : List LogCall → Contents → List Taken × Contents
give_all [] c = ([], c)
give_all (call ∷ calls) c =
    let (taken, next) = give call c in
    let (more, last) = give_all calls next in (taken ++ more, last)

-- The same calls of the program.
unfoldable pub run_call : LogCall → Logger → List Batch × Logger
run_call started l = ([], initialize l)
run_call (line_given path text) l = ([], append_line path text l)
run_call (bytes_given path bytes) l = ([], append_bytes path bytes l)
run_call (message_given tick text) l = ([], log tick text l)
run_call batch_taken l = let (batch, left) = take_batch l in (batch ∷ [], left)

unfoldable pub run_log : List LogCall → Logger → List Batch × Logger
run_log [] l = ([], l)
run_log (call ∷ calls) l =
    let (batches, next) = run_call call l in
    let (more, last) = run_log calls next in (batches ++ more, last)

abbrev pub taken_of : Batch → Taken
taken_of batch = (batch.lines, batch.blobs)

-- The logger holds the contents.
pub record Stores (l : Logger) (c : Contents) : Type 0 where
  pub ready : l.initialized ≡ c.ready
  pub holds : Holds l c.lines c.blobs

abbrev pub initial_contents : Contents
initial_contents = record { ready = false; lines = []; blobs = replicate 4 [] }
