-- ===== src/Probe/Logger/Flush/Drained.antt =====
-- The loops of the flush thread in net-probe/src/logger.cpp end, with everything written.
use nx_reverse.Base.{
  ℕ, zero, suc, ◌+◌, ◌<◌, ◌≡◌, ◌∙◌, refl, sym, ap, arith, Bool-cases, inl, inr, true, false, some,
  List, [], ◌∷◌, ◌++◌, drop, length, get_or, if◌then◌else◌, take-append-drop,
}
use nx_reverse.Probe.Logger.{QueuedLine, QueuedBlob, Logger}
use nx_reverse.Probe.Logger.Held.{Holds}
use nx_reverse.Probe.Logger.Flush.{
  Write, take_batch, is_empty_batch, emit_pending_drop_warnings, write_batch, behind,
  flush_pending_entries, flush_thread_main, stop_flush_thread, shutdown, clear_event, request_stop,
  may_stop, stop_or_wait, joined,
}
use nx_reverse.Probe.Logger.Flush.Batches.{
  AllTold, lengths, take_each, drop_each, nothing_of, nothing_of-drop_each, take_batch-Takes,
  take_batch-empty, take_batch-fewer, no_pending-nothing_of,
}
use nx_reverse.Probe.Logger.Flush.Written.{
  lines_of, blobs_of, lines_of-append, blobs_of-append, warnings-IsSilent, lines_of-write_batch,
  blobs_of-write_batch,
}

-- The writes are of exactly the lines and, kind by kind, the blobs, each in its order; afterwards no
-- entry and no count of lost entries is left.
pub record Drains (l : Logger) (ls : List QueuedLine) (bss : List (List QueuedBlob))
    (ws : List Write) (end : Logger) : Type 0 where
  pub lines : lines_of ws ≡ ls
  pub blobs : (k : ℕ) → blobs_of k ws ≡ get_or bss k []
  pub left : Holds end [] (nothing_of bss)
  pub told : (end.lines.dropped ≡ 0) × AllTold end.blobs
  pub stop : end.stop_requested ≡ l.stop_requested

get_or-nothing_of : (bss : List (List QueuedBlob)) (k : ℕ) → get_or (nothing_of bss) k [] ≡ []
get_or-nothing_of [] k = refl
get_or-nothing_of (bs ∷ bss) zero = refl
get_or-nothing_of (bs ∷ bss) (suc k) = get_or-nothing_of bss k

get_or-each :
    (bss : List (List QueuedBlob)) (k : ℕ)
    → get_or (take_each bss) k [] ++ get_or (drop_each bss) k [] ≡ get_or bss k []
get_or-each [] k = refl
get_or-each (bs ∷ bss) zero = take-append-drop 8 bs
get_or-each (bs ∷ bss) (suc k) = get_or-each bss k

module _ (l : Logger) (ls : List QueuedLine) (bss : List (List QueuedBlob))
    (h : Holds l ls bss) where
  Drains-last :
      is_empty_batch (take_batch l).0 ≡ true
      → Drains l ls bss (emit_pending_drop_warnings (take_batch l).0) (take_batch l).1
  Drains-last e =
      let t = take_batch-Takes l ls bss h in
      let (no_lines, nil, left) = take_batch-empty l ls bss h e in
      let silent = warnings-IsSilent (take_batch l).0 in
      record {
        lines = silent.0 ∙ sym no_lines;
        blobs = λ k. silent.1 k ∙ sym (ap (λ xss. get_or xss k []) nil ∙ get_or-nothing_of bss k);
        left = left;
        told = t.told;
        stop = t.stop;
      }

  Drains-round :
      (ws : List Write) (end : Logger)
      → Drains (take_batch l).1 (drop 16 ls) (drop_each bss) ws end
      → Drains l ls bss (write_batch (take_batch l).0 ++ ws) end
  Drains-round ws end d =
      let t = take_batch-Takes l ls bss h in
      let batch = (take_batch l).0 in
      record {
        lines =
            rw
              (lines_of-append (write_batch batch) ws, lines_of-write_batch batch, t.lines, d.lines)
              (take-append-drop 16 ls);
        blobs = λ k.
            rw
              (
                blobs_of-append k (write_batch batch) ws,
                blobs_of-write_batch k batch,
                t.blobs,
                d.blobs k,
              )
              (get_or-each bss k);
        left = rw (← nothing_of-drop_each bss) d.left;
        told = d.told;
        stop = d.stop ∙ t.stop;
      }

-- With more fuel than there are entries the loop ends, and it has written all that was queued.
flush_pending_entries-Drains :
    (fuel : ℕ) (l : Logger) (ls : List QueuedLine) (bss : List (List QueuedBlob))
    → Holds l ls bss
    → length ls + lengths bss < fuel
    → (ws : List Write) × (end : Logger) × (flush_pending_entries fuel l ≡ some (ws, end))
      × Drains l ls bss ws end
unfolding flush_pending_entries
flush_pending_entries-Drains zero l ls bss h few = absurd (omega arith)
flush_pending_entries-Drains (suc fuel) l ls bss h few =
    let t = take_batch-Takes l ls bss h in
    elim (Bool-cases (is_empty_batch (take_batch l).0)) [
      | inl e ↦ (
        emit_pending_drop_warnings (take_batch l).0,
        (take_batch l).1,
        rw (e, flush_pending_entries) refl,
        Drains-last l ls bss h e,
      )
      | inr e ↦
          let (ws, end, runs, drains) =
            flush_pending_entries-Drains fuel (take_batch l).1 (drop 16 ls) (drop_each bss) t.left
              (omega (arith, take_batch-fewer l ls bss h e)) in
          (
            write_batch (take_batch l).0 ++ ws,
            end,
            rw (e, flush_pending_entries) (ap (behind (write_batch (take_batch l).0)) runs),
            Drains-round l ls bss h ws end drains,
          )
    ]

may_stop-Drains :
    (l : Logger) (ls : List QueuedLine) (bss : List (List QueuedBlob)) (ws : List Write)
    (end : Logger)
    → Drains l ls bss ws end
    → l.stop_requested ≡ true
    → may_stop end ≡ true
may_stop-Drains l ls bss ws end d asked =
    rw (d.stop, asked, d.left.lines.size) (no_pending-nothing_of end.blobs bss d.left.blobs)

-- Asked to stop, the thread ends after its first round, with everything written.
flush_thread_main-Drains :
    (rounds fuel : ℕ) (l : Logger) (ls : List QueuedLine) (bss : List (List QueuedBlob))
    → Holds l ls bss
    → length ls + lengths bss < fuel
    → l.stop_requested ≡ true
    → (ws : List Write) × (end : Logger) × (flush_thread_main (suc rounds) fuel l ≡ some (ws, end))
      × Drains l ls bss ws end
unfolding flush_thread_main
flush_thread_main-Drains rounds fuel l ls bss h few asked =
    let held : Holds (clear_event l) ls bss = record { lines = h.lines; blobs = h.blobs } in
    let (ws, end, runs, d) = flush_pending_entries-Drains fuel (clear_event l) ls bss held few in
    (
      ws,
      end,
      rw runs (rw (may_stop-Drains (clear_event l) ls bss ws end d asked, stop_or_wait) refl),
      record { lines = d.lines; blobs = d.blobs; left = d.left; told = d.told; stop = d.stop },
    )

shutdown_lem :
    (rounds fuel : ℕ) (l : Logger)
    → l.initialized ≡ true
    → l.thread_started ≡ true
    → shutdown rounds fuel l ≡ joined (flush_thread_main rounds fuel (request_stop l))
unfolding shutdown stop_flush_thread
shutdown_lem rounds fuel l ready running =
    ap (λ b. if b then stop_flush_thread rounds fuel l else some ([], l)) ready
    ∙ ap (λ b. if b then joined (flush_thread_main rounds fuel (request_stop l)) else some ([], l))
        running

-- Where the thread runs and no other adds an entry, `Shutdown` ends, for any number of rounds from one
-- on and more fuel than there are entries. All lines and, kind by kind, all blobs that were queued are
-- then written, each once and in its order, no entry and no count of lost entries is left, and the
-- thread is gone.
pub shutdown_drains :
    (rounds fuel : ℕ) (l : Logger) (ls : List QueuedLine) (bss : List (List QueuedBlob))
    → Holds l ls bss
    → length ls + lengths bss < fuel
    → l.initialized ≡ true
    → l.thread_started ≡ true
    → (ws : List Write) × (end : Logger) × (shutdown (suc rounds) fuel l ≡ some (ws, end))
      × (lines_of ws ≡ ls)
      × ((k : ℕ) → blobs_of k ws ≡ get_or bss k [])
      × Holds end [] (nothing_of bss)
      × ((end.lines.dropped ≡ 0) × AllTold end.blobs)
      × (end.thread_started ≡ false)
unfolding joined
shutdown_drains rounds fuel l ls bss h few ready running =
    let held : Holds (request_stop l) ls bss = record { lines = h.lines; blobs = h.blobs } in
    let (ws, end, runs, d) =
      flush_thread_main-Drains rounds fuel (request_stop l) ls bss held few refl in
    (
      ws,
      record end { thread_started = false },
      shutdown_lem (suc rounds) fuel l ready running ∙ ap joined runs,
      d.lines,
      d.blobs,
      record { lines = d.left.lines; blobs = d.left.blobs },
      d.told,
      refl,
    )
