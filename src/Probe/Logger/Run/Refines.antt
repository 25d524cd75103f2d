-- ===== src/Probe/Logger/Run/Refines.antt =====
-- Calls of net-probe/src/logger.cpp do to the queues what they do to the lists.
use mathlib.Core.List.{map-append}
use nx_reverse.Base.{
  ◌∙◌, ℕ, ◌≡◌, refl, arith, Bool-cases, inl, inr, Bool, true, false, Option, none, some, List, [],
  ◌∷◌, Bytes, length, ltb, if◌then◌else◌, map,
}
use nx_reverse.Probe.Queue.{enqueue, count_dropped}
use nx_reverse.Probe.Queue.Bounded.{enqueue-Represents}
use nx_reverse.Probe.Logger.{
  QueuedLine, QueuedBlob, Logger, initial_logger, queued_line, queued_blob, queue_entry_capacity,
  kind_index, get_blob_queue_kind, modify, append_line, append_bytes, log, initialize, log_line,
  log_file_path, banner, queue_line_locked, queue_blob_locked, start_flush_thread,
  ensure_flush_event_initialized,
}
use nx_reverse.Probe.Logger.Held.{
  initial_logger-Holds, modify-enqueue-HoldAll, modify-count_dropped-HoldAll,
}
use nx_reverse.Probe.Logger.Flush.Batches.{take_batch-Takes}
use nx_reverse.Probe.Logger.Run.{
  LogCall, started, line_given, bytes_given, message_given, batch_taken, Contents, add_line,
  add_blob, give_line, give_bytes, give, give_all, run_call, run_log, taken_of, Stores,
  initial_contents,
}

add_line-Stores :
    (text : QueuedLine) (l : Logger) (c : Contents)
    → Stores l c
    → Stores (record l { lines = enqueue text l.lines; signaled = true }) (add_line text c)
add_line-Stores text l c h = record {
  ready = h.ready;
  holds = record {
    lines =
        (enqueue-Represents queue_entry_capacity text l.lines c.lines (omega arith)
          h.holds.lines).0;
    blobs = h.holds.blobs;
  };
}

-- The program and the lists branch alike.
if-Stores :
    (a b : Bool) (l m : Logger) (c d : Contents)
    → a ≡ b
    → Stores l c
    → Stores m d
    → Stores (if a then l else m) (if b then c else d)
if-Stores true true l m c d e h k = h
if-Stores true false l m c d e h k = cc
if-Stores false true l m c d e h k = cc
if-Stores false false l m c d e h k = k

append_line-Stores :
    (path text : Option Bytes) (l : Logger) (c : Contents)
    → Stores l c
    → Stores (append_line path text l) (give_line path text c)
unfolding append_line give_line queue_line_locked
append_line-Stores none text l c h = h
append_line-Stores (some []) none l c h = h
append_line-Stores (some (p ∷ path)) none l c h = h
append_line-Stores (some []) (some text) l c h = h
append_line-Stores (some (p ∷ path)) (some []) l c h = h
append_line-Stores (some (p ∷ path)) (some (t ∷ text)) l c h =
    let entry = queued_line (p ∷ path) (t ∷ text) in
    if-Stores l.initialized c.ready (record l { lines = enqueue entry l.lines; signaled = true }) l
      (add_line entry c) c h.ready (add_line-Stores entry l c h) h

-- Data that is too large changes a counter of lost entries, and not what is queued.
refuse-Stores :
    (l : Logger) (c : Contents)
    → Stores l c
    → Stores (record l { blobs = modify 0 count_dropped l.blobs; signaled = true }) c
refuse-Stores l c h = record {
  ready = h.ready;
  holds = record {
    lines = h.holds.lines;
    blobs = modify-count_dropped-HoldAll l.blobs c.blobs h.holds.blobs;
  };
}

add_blob-Stores :
    (b : QueuedBlob) (i : ℕ) (l : Logger) (c : Contents)
    → Stores l c
    → Stores (record l { blobs = modify i (enqueue b) l.blobs; signaled = true }) (add_blob b i c)
add_blob-Stores b i l c h = record {
  ready = h.ready;
  holds = record {
    lines = h.holds.lines;
    blobs = modify-enqueue-HoldAll i b l.blobs c.blobs h.holds.blobs;
  };
}

queue_blob-Stores :
    (p b : ℕ) (path bytes : Bytes) (l : Logger) (c : Contents)
    → Stores l c
    → Stores
        (record (queue_blob_locked (some (p ∷ path)) (some (b ∷ bytes)) l).1 { signaled = true })
        (if ltb 2048 (length (b ∷ bytes))
          then c
          else add_blob
              (queued_blob (p ∷ path) (b ∷ bytes))
              (kind_index (get_blob_queue_kind (some (p ∷ path))))
              c)
unfolding queue_blob_locked
queue_blob-Stores p b path bytes l c h = elim (Bool-cases (ltb 2048 (length (b ∷ bytes)))) [
  | inl large ↦ rw large (refuse-Stores l c h)
  | inr fits ↦ rw fits (
      add_blob-Stores (queued_blob (p ∷ path) (b ∷ bytes))
        (kind_index (get_blob_queue_kind (some (p ∷ path)))) l c h)
]

append_bytes-Stores :
    (path bytes : Option Bytes) (l : Logger) (c : Contents)
    → Stores l c
    → Stores (append_bytes path bytes l) (give_bytes path bytes c)
unfolding append_bytes give_bytes
append_bytes-Stores none bytes l c h = h
append_bytes-Stores (some []) none l c h = h
append_bytes-Stores (some (p ∷ path)) none l c h = h
append_bytes-Stores (some []) (some []) l c h = h
append_bytes-Stores (some []) (some (b ∷ bytes)) l c h = h
append_bytes-Stores (some (p ∷ path)) (some []) l c h = h
append_bytes-Stores (some (p ∷ path)) (some (b ∷ bytes)) l c h =
    if-Stores l.initialized c.ready
      (record (queue_blob_locked (some (p ∷ path)) (some (b ∷ bytes)) l).1 { signaled = true }) l
      (if ltb 2048 (length (b ∷ bytes))
        then c
        else add_blob (queued_blob (p ∷ path) (b ∷ bytes))
            (kind_index (get_blob_queue_kind (some (p ∷ path)))) c)
      c h.ready (queue_blob-Stores p b path bytes l c h) h

either-Stores :
    (a : Bool) (l m : Logger) (c : Contents)
    → Stores l c
    → Stores m c
    → Stores (if a then l else m) c
either-Stores true l m c h k = h
either-Stores false l m c h k = k

ensure_flush_event_initialized-Stores :
    (l : Logger) (c : Contents) → Stores l c → Stores (ensure_flush_event_initialized l) c
unfolding ensure_flush_event_initialized
ensure_flush_event_initialized-Stores l c h =
    either-Stores l.event_initialized l (record l { event_initialized = true; signaled = false }) c
      h
      (record { ready = h.ready; holds = record { lines = h.holds.lines; blobs = h.holds.blobs } })

start_flush_thread-Stores :
    (l : Logger) (c : Contents) → Stores l c → Stores (start_flush_thread l) c
unfolding start_flush_thread
start_flush_thread-Stores l c h =
    let ready = ensure_flush_event_initialized l in
    let k = ensure_flush_event_initialized-Stores l c h in
    either-Stores ready.thread_started ready (record ready { thread_started = true }) c k
      (record { ready = k.ready; holds = record { lines = k.holds.lines; blobs = k.holds.blobs } })

initialize-Stores :
    (l : Logger) (c : Contents) → Stores l c → Stores (initialize l) (give started c).1
unfolding initialize give queue_line_locked
initialize-Stores l c h =
    let fresh = record l { stop_requested = false; initialized = true } in
    let started_log = start_flush_thread fresh in
    let ready_contents = record c { ready = true } in
    let entry = queued_line log_file_path banner in
    if-Stores l.initialized c.ready l
      (record started_log { lines = enqueue entry started_log.lines; signaled = true }) c
      (add_line entry ready_contents) h.ready h
      (add_line-Stores entry started_log ready_contents (
        start_flush_thread-Stores fresh ready_contents (record {
          ready = refl;
          holds = record { lines = h.holds.lines; blobs = h.holds.blobs };
        })))

log-Stores :
    (tick : ℕ) (text : Option Bytes) (l : Logger) (c : Contents)
    → Stores l c
    → Stores (log tick text l) (give (message_given tick text) c).1
unfolding log give give_line queue_line_locked
log-Stores tick none l c h = h
log-Stores tick (some []) l c h = h
log-Stores tick (some (t ∷ text)) l c h =
    let entry = queued_line log_file_path (log_line tick (t ∷ text)) in
    if-Stores l.initialized c.ready (record l { lines = enqueue entry l.lines; signaled = true }) l
      (add_line entry c) c h.ready (add_line-Stores entry l c h) h

-- One call does to the queues what it does to the lists, and gives the same batches.
run_call-Stores :
    (call : LogCall) (l : Logger) (c : Contents)
    → Stores l c
    → (map taken_of (run_call call l).0 ≡ (give call c).0)
      × Stores (run_call call l).1 (give call c).1
unfolding run_call give
run_call-Stores started l c h = (refl, unfold give in initialize-Stores l c h)
run_call-Stores (line_given path text) l c h = (refl, append_line-Stores path text l c h)
run_call-Stores (bytes_given path bytes) l c h = (refl, append_bytes-Stores path bytes l c h)
run_call-Stores (message_given tick none) l c h = (refl, log-Stores tick none l c h)
run_call-Stores (message_given tick (some [])) l c h = (refl, log-Stores tick (some []) l c h)
run_call-Stores (message_given tick (some (t ∷ text))) l c h =
    (refl, log-Stores tick (some (t ∷ text)) l c h)
run_call-Stores batch_taken l c h =
    let t = take_batch-Takes l c.lines c.blobs h.holds in
    (rw (t.lines, t.blobs) refl, record { ready = t.ready ∙ h.ready; holds = t.left })

run_log-Stores :
    (calls : List LogCall) (l : Logger) (c : Contents)
    → Stores l c
    → (map taken_of (run_log calls l).0 ≡ (give_all calls c).0)
      × Stores (run_log calls l).1 (give_all calls c).1
unfolding run_log give_all
run_log-Stores [] l c h = (refl, h)
run_log-Stores (call ∷ calls) l c h =
    let (same, next) = run_call-Stores call l c h in
    let (more, last) = run_log-Stores calls (run_call call l).1 (give call c).1 next in
    (
      rw (map-append taken_of (run_call call l).0 (run_log calls (run_call call l).1).0, same, more)
          refl,
      last,
    )

-- Whatever the calls of the threads and the rounds of the flush thread are, and in whatever order they
-- take the lock, from the start of the program on: the rounds take the lines and blobs that they would
-- take from plain lists, which keep of each kind the newest entries that fit, and the queues then hold
-- these lists.
pub run_log_refines :
    (calls : List LogCall)
    → (map taken_of (run_log calls initial_logger).0 ≡ (give_all calls initial_contents).0)
      × Stores (run_log calls initial_logger).1 (give_all calls initial_contents).1
run_log_refines calls =
    run_log-Stores calls initial_logger initial_contents
      (record { ready = unfold initial_logger in refl; holds = initial_logger-Holds })
