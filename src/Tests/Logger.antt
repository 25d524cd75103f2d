-- ===== src/Tests/Logger.antt =====
-- Tests of the log of net-probe/src/logger.cpp.
use nx_reverse.Base.{
  ℕ, ◌+◌, ◌≡◌, refl, arith, true, false, some, List, [], ◌∷◌, codes, length, get_or, map,
}
use nx_reverse.Probe.Logger.{
  Logger, initial_logger, generic, bsd, get_blob_queue_kind, modify, queue_line_locked,
  queue_blob_locked, append_line, append_bytes, log, initialize, start_flush_thread,
  ensure_flush_event_initialized,
}
use nx_reverse.Probe.Logger.Held.{Holds}
use nx_reverse.Probe.Logger.Flush.{Write, shutdown}
use nx_reverse.Probe.Logger.Flush.Batches.{AllTold, lengths, nothing_of}
use nx_reverse.Probe.Logger.Flush.Written.{lines_of, blobs_of}
use nx_reverse.Probe.Logger.Flush.Drained.{shutdown_drains}
use nx_reverse.Probe.Logger.Run.{
  LogCall, started, line_given, bytes_given, message_given, Contents, give_line, give_bytes, give,
  give_all, run_call, run_log, initial_contents, Stores, taken_of,
}
use nx_reverse.Probe.Logger.Run.Refines.{run_log_refines}

kind_of_path : get_blob_queue_kind (some (codes "sdmc:/probe-mitm-bsd.bin")) ≡ bsd
unfolding get_blob_queue_kind
kind_of_path = refl

kind_of_others : get_blob_queue_kind (some (codes "sdmc:/other.bin")) ≡ generic
unfolding get_blob_queue_kind
kind_of_others = refl

abbrev log_calls : List LogCall
log_calls =
    started
    ∷ line_given (some (codes "a")) (some (codes "one"))
    ∷ bytes_given (some (codes "probe-mitm-ssl.bin")) (some (1 ∷ 2 ∷ []))
    ∷ message_given 5 (some (codes "hello"))
    ∷ []

abbrev logged : Logger
logged = (run_log log_calls initial_logger).1

abbrev in_log : Contents
in_log = (give_all log_calls initial_contents).1

in_log_few : length in_log.lines + lengths in_log.blobs ≡ 4
unfolding give_all give give_line give_bytes get_blob_queue_kind modify
in_log_few = refl

logged_ready : (logged.initialized ≡ true) × (logged.thread_started ≡ true)
unfolding run_log run_call initialize append_line append_bytes log queue_line_locked
    queue_blob_locked start_flush_thread ensure_flush_event_initialized initial_logger
logged_ready = (refl, refl)

run_log_refines_example :
    (map taken_of (run_log log_calls initial_logger).0 ≡ (give_all log_calls initial_contents).0)
    × Stores (run_log log_calls initial_logger).1 (give_all log_calls initial_contents).1
run_log_refines_example = run_log_refines log_calls

shutdown_drains_example :
    (ws : List Write) × (end : Logger) × (shutdown 1 5 logged ≡ some (ws, end))
    × (lines_of ws ≡ in_log.lines)
    × ((k : ℕ) → blobs_of k ws ≡ get_or in_log.blobs k [])
    × Holds end [] (nothing_of in_log.blobs)
    × ((end.lines.dropped ≡ 0) × AllTold end.blobs)
    × (end.thread_started ≡ false)
shutdown_drains_example =
    shutdown_drains 0 5 logged in_log.lines in_log.blobs (run_log_refines log_calls).1.holds
      (omega (arith, in_log_few)) logged_ready.0 logged_ready.1
