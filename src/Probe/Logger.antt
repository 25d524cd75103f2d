-- ===== src/Probe/Logger.antt =====
-- The log of net-probe/src/logger.cpp: what is queued, and the functions that queue it. Each one runs
-- under `g_logger_lock`. A pointer with its size is a list of bytes, `none` where it is null.
pub mod Flush
pub mod Held
pub mod Run
use nx_reverse.Base.Decimal.{decimal}
use nx_reverse.Base.{
  ℕ, zero, suc, ◌-◌, Bool, true, false, ◌||◌, Option, none, some, List, [], ◌∷◌, ◌++◌, Bytes, codes,
  length, take, replicate, starts_with, ltb, if◌then◌else◌, is_empty,
}
use nx_reverse.Probe.Queue.{Queue, enqueue, count_dropped}

abbrev pub queue_entry_capacity : ℕ
queue_entry_capacity = 896

abbrev pub binary_queue_entry_capacity : ℕ
binary_queue_entry_capacity = 96

abbrev maximum_queued_path_length : ℕ
maximum_queued_path_length = 96

abbrev maximum_queued_line_length : ℕ
maximum_queued_line_length = 2048

abbrev maximum_queued_blob_length : ℕ
maximum_queued_blob_length = 2048

abbrev log_file_path : Bytes
log_file_path = codes "sdmc:/nxrv/probe/net-probe.log"

pub record QueuedLine : Type 0 where
  pub path : Bytes
  pub line : Bytes

pub record QueuedBlob : Type 0 where
  pub path : Bytes
  pub contents : Bytes

pub data BlobQueueKind : Type 0 where
  generic nifm bsd ssl : BlobQueueKind

abbrev pub kind_index : BlobQueueKind → ℕ
kind_index generic = 0
kind_index nifm = 1
kind_index bsd = 2
kind_index ssl = 3

-- `std::strstr(text, part) != nullptr`
unfoldable pub contains : Bytes → Bytes → Bool
unfolding starts_with
contains part [] = is_empty part
contains part (c ∷ text) = starts_with (c ∷ text) part || contains part text

unfoldable pub get_blob_queue_kind : Option Bytes → BlobQueueKind
unfolding contains
get_blob_queue_kind none = generic
get_blob_queue_kind (some path) =
    if contains (codes "probe-mitm-nifm.bin") path
    then nifm
    else if contains (codes "probe-mitm-bsd.bin") path
    then bsd
    else if contains (codes "probe-mitm-ssl.bin") path
    then ssl
    else generic

unfoldable pub get_blob_queue_label : BlobQueueKind → Bytes
get_blob_queue_label generic = codes "binary"
get_blob_queue_label nifm = codes "binary-nifm"
get_blob_queue_label bsd = codes "binary-bsd"
get_blob_queue_label ssl = codes "binary-ssl"

-- `blobs` has the queue of a kind at its index; `signaled` is the state of the flush event.
pub record Logger : Type 0 where
  pub initialized : Bool
  pub lines : Queue QueuedLine
  pub blobs : List (Queue QueuedBlob)
  pub event_initialized : Bool
  pub signaled : Bool
  pub thread_started : Bool
  pub stop_requested : Bool

abbrev pub no_line : QueuedLine
no_line = record { path = []; line = [] }

abbrev pub no_blob : QueuedBlob
no_blob = record { path = []; contents = [] }

abbrev pub empty_queue {ℓ} : {A : Type ℓ} → ℕ → A → Queue A
empty_queue capacity blank = record {
  slots = replicate capacity blank;
  head = 0;
  tail = 0;
  size = 0;
  dropped = 0;
}

-- The state that the program starts with.
unfoldable pub initial_logger : Logger
initial_logger = record {
  initialized = false;
  lines = empty_queue queue_entry_capacity no_line;
  blobs = replicate 4 (empty_queue binary_queue_entry_capacity no_blob);
  event_initialized = false;
  signaled = false;
  thread_started = false;
  stop_requested = false;
}

module _ {ℓ} {A : Type ℓ} where
  -- A change of the element at an index.
  unfoldable pub modify : ℕ → (A → A) → List A → List A
  modify i f [] = []
  modify zero f (x ∷ xs) = f x ∷ xs
  modify (suc i) f (x ∷ xs) = x ∷ modify i f xs

abbrev pub queued_line : Bytes → Bytes → QueuedLine
queued_line path line = record {
  path = take (maximum_queued_path_length - 1) path;
  line = take (maximum_queued_line_length - 1) line;
}

abbrev pub queued_blob : Bytes → Bytes → QueuedBlob
queued_blob path contents = record {
  path = take (maximum_queued_path_length - 1) path;
  contents = contents;
}

unfoldable pub queue_line_locked : Option Bytes → Option Bytes → Logger → Bool × Logger
queue_line_locked (some path) (some line) logger =
    if is_empty path || is_empty line
    then (false, logger)
    else (true, record logger { lines = enqueue (queued_line path line) logger.lines })
queue_line_locked (some path) none logger = (false, logger)
queue_line_locked none line logger = (false, logger)

-- Data that cannot be queued counts as lost by the generic queue.
abbrev pub refuse_blob : Logger → Bool × Logger
refuse_blob logger =
    (false, record logger { blobs = modify (kind_index generic) count_dropped logger.blobs })

unfoldable pub queue_blob_locked : Option Bytes → Option Bytes → Logger → Bool × Logger
queue_blob_locked (some path) (some contents) logger =
    let kind = get_blob_queue_kind (some path) in
    if is_empty path || is_empty contents || ltb maximum_queued_blob_length (length contents)
    then refuse_blob logger
    else (
      true,
      record logger {
        blobs = modify (kind_index kind) (enqueue (queued_blob path contents)) logger.blobs;
      },
    )
queue_blob_locked (some path) none logger = refuse_blob logger
queue_blob_locked none contents logger = refuse_blob logger

abbrev signal : Logger → Logger
signal logger = record logger { signaled = true }

unfoldable pub append_line : Option Bytes → Option Bytes → Logger → Logger
append_line (some path) (some line) logger =
    if is_empty path || is_empty line
    then logger
    else if logger.initialized
    then signal (queue_line_locked (some path) (some line) logger).1
    else logger
append_line (some path) none logger = logger
append_line none line logger = logger

unfoldable pub append_bytes : Option Bytes → Option Bytes → Logger → Logger
append_bytes (some path) (some contents) logger =
    if is_empty contents || is_empty path
    then logger
    else if logger.initialized
    then signal (queue_blob_locked (some path) (some contents) logger).1
    else logger
append_bytes (some path) none logger = logger
append_bytes none contents logger = logger

-- The text of `Log` behind its tick, cut to its buffer.
abbrev log_line : ℕ → Bytes → Bytes
log_line tick text =
    take 639 (b'[' ∷ (decimal tick ++ (codes "] " ++ (take 511 text ++ (10 ∷ [])))))

-- `Log`, on what `vsnprintf` makes of its arguments, `none` where it fails.
unfoldable pub log : ℕ → Option Bytes → Logger → Logger
log tick none logger = logger
log tick (some text) logger =
    if is_empty text
    then logger
    else if logger.initialized
    then signal (queue_line_locked (some log_file_path) (some (log_line tick text)) logger).1
    else logger

unfoldable pub ensure_flush_event_initialized : Logger → Logger
ensure_flush_event_initialized logger =
    if logger.event_initialized
    then logger
    else record logger { event_initialized = true; signaled = false }

-- The thread is there afterwards, since the program aborts where it cannot be made.
unfoldable pub start_flush_thread : Logger → Logger
start_flush_thread logger =
    let ready = ensure_flush_event_initialized logger in
    if ready.thread_started then ready else record ready { thread_started = true }

abbrev banner : Bytes
banner = 10 ∷ (codes "=== net-probe boot ===" ++ (10 ∷ []))

unfoldable pub initialize : Logger → Logger
initialize logger =
    if logger.initialized
    then logger
    else (let started =
          start_flush_thread (record logger { stop_requested = false; initialized = true }) in
        signal (queue_line_locked (some log_file_path) (some banner) started).1)
