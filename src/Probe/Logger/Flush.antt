-- ===== src/Probe/Logger/Flush.antt =====
-- The flush thread of net-probe/src/logger.cpp.
pub mod Batches
pub mod Written
pub mod Drained
use nx_reverse.Base.{
  ℕ, zero, suc, ◌+◌, Bool, true, false, not, ◌&&◌, Option, none, some, List, [], ◌∷◌, ◌++◌, map,
  Bytes, codes, take, length, ◌==◌, if◌then◌else◌, is_empty,
}
use mathlib.Core.Option
use nx_reverse.Probe.Queue.{Queue, dequeue_up_to}
use nx_reverse.Probe.Logger.{
  QueuedLine, QueuedBlob, BlobQueueKind, generic, nifm, bsd, ssl, get_blob_queue_label, Logger,
}

abbrev pub flush_line_batch_size : ℕ
flush_line_batch_size = 16

abbrev pub flush_blob_batch_size_per_family : ℕ
flush_blob_batch_size_per_family = 8

-- What one round takes under the lock; `blobs` has the entries of each kind in turn.
pub record Batch : Type 0 where
  pub dropped_lines : ℕ
  pub dropped_blobs : List ℕ
  pub lines : List QueuedLine
  pub blobs : List (List QueuedBlob)

abbrev pub dropped_of {ℓ} : {A : Type ℓ} → Queue A → ℕ
dropped_of q = q.dropped

abbrev pub clear_dropped {ℓ} : {A : Type ℓ} → Queue A → Queue A
clear_dropped q = record q { dropped = 0 }

-- The loop over the kinds.
unfoldable pub take_blobs :
    List (Queue QueuedBlob) → List (List QueuedBlob) × List (Queue QueuedBlob)
take_blobs [] = ([], [])
take_blobs (q ∷ qs) =
    let (taken, left) = dequeue_up_to flush_blob_batch_size_per_family q in
    let (others, rest) = take_blobs qs in (taken ∷ others, left ∷ rest)

-- The part of a round of `FlushPendingEntries` that holds the lock.
unfoldable pub take_batch : Logger → Batch × Logger
take_batch logger =
    let (taken, left) = dequeue_up_to flush_line_batch_size (clear_dropped logger.lines) in
    let (blobs, rest) = take_blobs (map clear_dropped logger.blobs) in
    (
      record {
        dropped_lines = logger.lines.dropped;
        dropped_blobs = map dropped_of logger.blobs;
        lines = taken;
        blobs = blobs;
      },
      record logger { lines = left; blobs = rest },
    )

abbrev pub all_empty {ℓ} : {A : Type ℓ} → List (List A) → Bool
all_empty [] = true
all_empty (xs ∷ xss) = is_empty xs && all_empty xss

abbrev pub is_empty_batch : Batch → Bool
is_empty_batch batch = is_empty batch.lines && all_empty batch.blobs

-- A call that writes to a file: a warning on lost entries, a line, or a blob of the kind at an index.
pub data Write : Type 0 where
  warning : Bytes → ℕ → Write
  line : QueuedLine → Write
  blob : ℕ → QueuedBlob → Write

unfoldable pub emit_drop_warning : Bytes → ℕ → List Write
emit_drop_warning label dropped = if dropped == 0 then [] else warning label dropped ∷ []

unfoldable pub emit_blob_warnings : List BlobQueueKind → List ℕ → List Write
emit_blob_warnings (kind ∷ kinds) (dropped ∷ others) =
    emit_drop_warning (get_blob_queue_label kind) dropped ++ emit_blob_warnings kinds others
emit_blob_warnings _ _ = []

unfoldable pub emit_pending_drop_warnings : Batch → List Write
emit_pending_drop_warnings batch =
    emit_drop_warning (codes "text") batch.dropped_lines
    ++ emit_blob_warnings (generic ∷ nifm ∷ bsd ∷ ssl ∷ []) batch.dropped_blobs

unfoldable pub write_blobs : ℕ → List (List QueuedBlob) → List Write
write_blobs i [] = []
write_blobs i (xs ∷ xss) = map (blob i) xs ++ write_blobs (suc i) xss

abbrev pub write_batch : Batch → List Write
write_batch batch =
    emit_pending_drop_warnings batch ++ (map line batch.lines ++ write_blobs 0 batch.blobs)

-- Behind what a round wrote.
abbrev pub behind : List Write → Option (List Write × Logger) → Option (List Write × Logger)
behind written none = none
behind written (some (more, logger)) = some (written ++ more, logger)

-- `none` means that the fuel ran out.
unfoldable pub flush_pending_entries : ℕ → Logger → Option (List Write × Logger)
flush_pending_entries zero logger = none
flush_pending_entries (suc fuel) logger =
    let (batch, left) = take_batch logger in
    elim (is_empty_batch batch) [
      | true ↦ some (emit_pending_drop_warnings batch, left)
      | false ↦ behind (write_batch batch) (flush_pending_entries fuel left)
    ]

abbrev pub no_pending {ℓ} : {A : Type ℓ} → List (Queue A) → Bool
no_pending [] = true
no_pending (q ∷ qs) = q.size == 0 && no_pending qs

abbrev pub may_stop : Logger → Bool
may_stop logger = logger.stop_requested && (logger.lines.size == 0 && no_pending logger.blobs)

abbrev pub clear_event : Logger → Logger
clear_event logger = record logger { signaled = false }

-- The end of a round of `FlushThreadMain`, with the rounds behind it.
unfoldable pub stop_or_wait :
    Option (List Write × Logger)
    → (Logger → Option (List Write × Logger))
    → Option (List Write × Logger)
stop_or_wait none next = none
stop_or_wait (some (written, left)) next = elim (may_stop left) [
  | true ↦ some (written, left)
  | false ↦ behind written (next left)
]

-- `FlushThreadMain` from the end of a wait on, where no other thread adds an entry. `rounds` is the
-- fuel of its loop and `fuel` that of each flush.
unfoldable pub flush_thread_main : ℕ → ℕ → Logger → Option (List Write × Logger)
unfolding stop_or_wait
flush_thread_main zero fuel logger = none
flush_thread_main (suc rounds) fuel logger =
    stop_or_wait (flush_pending_entries fuel (clear_event logger)) (flush_thread_main rounds fuel)

abbrev pub request_stop : Logger → Logger
request_stop logger = record logger { stop_requested = true; signaled = true }

unfoldable pub joined : Option (List Write × Logger) → Option (List Write × Logger)
joined none = none
joined (some (written, left)) = some (written, record left { thread_started = false })

unfoldable pub stop_flush_thread : ℕ → ℕ → Logger → Option (List Write × Logger)
unfolding joined
stop_flush_thread rounds fuel logger =
    if logger.thread_started
    then joined (flush_thread_main rounds fuel (request_stop logger))
    else some ([], logger)

unfoldable pub shutdown : ℕ → ℕ → Logger → Option (List Write × Logger)
shutdown rounds fuel logger =
    if logger.initialized then stop_flush_thread rounds fuel logger else some ([], logger)
