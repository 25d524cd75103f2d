-- ===== src/Probe/Logger/Held.antt =====
-- The lists that the queues of net-probe/src/logger.cpp hold, and what a call adds to them.
use nx_reverse.Base.{
  ℕ, zero, suc, ◌<◌, refl, arith, List, [], ◌∷◌, ◌++◌, replicate, length-replicate,
}
use nx_reverse.Probe.Queue.{Queue, enqueue, count_dropped}
use nx_reverse.Probe.Queue.Bounded.{Represents, newest, enqueue-Represents}
use nx_reverse.Probe.Logger.{
  QueuedLine, QueuedBlob, Logger, initial_logger, modify, empty_queue, queue_entry_capacity,
  binary_queue_entry_capacity, no_blob, no_line,
}

abbrev pub HoldAll : List (Queue QueuedBlob) → List (List QueuedBlob) → Type 0
HoldAll [] [] = Unit
HoldAll (q ∷ qs) (xs ∷ xss) = Represents binary_queue_entry_capacity q xs × HoldAll qs xss
HoldAll _ _ = ⊥

-- The text queue holds the lines, and the binary queue of each kind its blobs.
pub record Holds (l : Logger) (ls : List QueuedLine) (bss : List (List QueuedBlob)) : Type 0 where
  pub lines : Represents queue_entry_capacity l.lines ls
  pub blobs : HoldAll l.blobs bss

Represents-empty {ℓ} :
    {A : Type ℓ} (capacity : ℕ) (blank : A)
    → 0 < capacity
    → Represents capacity (empty_queue capacity blank) []
Represents-empty capacity blank any = record {
  slots = length-replicate capacity blank;
  tail_in = any;
  size = refl;
  fits = omega arith;
  head = grind arith;
  stored = tt;
}

pub initial_logger-Holds : Holds initial_logger [] (replicate 4 [])
unfolding initial_logger
initial_logger-Holds =
    let none_yet = Represents-empty binary_queue_entry_capacity no_blob (omega arith) in
    record {
      lines = Represents-empty queue_entry_capacity no_line (omega arith);
      blobs = (none_yet, (none_yet, (none_yet, (none_yet, tt))));
    }

-- The newest blobs with one more, in the queue of a kind.
abbrev pub add_newest : QueuedBlob → List QueuedBlob → List QueuedBlob
add_newest b bs = newest binary_queue_entry_capacity (bs ++ b ∷ [])

pub modify-enqueue-HoldAll :
    (i : ℕ) (b : QueuedBlob) (qs : List (Queue QueuedBlob)) (bss : List (List QueuedBlob))
    → HoldAll qs bss
    → HoldAll (modify i (enqueue b) qs) (modify i (add_newest b) bss)
unfolding modify
modify-enqueue-HoldAll i b [] [] h = tt
modify-enqueue-HoldAll i b [] (bs ∷ bss) h = absurd h
modify-enqueue-HoldAll i b (q ∷ qs) [] h = absurd h
modify-enqueue-HoldAll zero b (q ∷ qs) (bs ∷ bss) (h, hs) =
    ((enqueue-Represents binary_queue_entry_capacity b q bs (omega arith) h).0, hs)
modify-enqueue-HoldAll (suc i) b (q ∷ qs) (bs ∷ bss) (h, hs) =
    (h, modify-enqueue-HoldAll i b qs bss hs)

count_dropped-Represents :
    (q : Queue QueuedBlob) (bs : List QueuedBlob)
    → Represents binary_queue_entry_capacity q bs
    → Represents binary_queue_entry_capacity (count_dropped q) bs
count_dropped-Represents q bs h = record {
  slots = h.slots;
  tail_in = h.tail_in;
  size = h.size;
  fits = h.fits;
  head = h.head;
  stored = h.stored;
}

pub modify-count_dropped-HoldAll :
    (qs : List (Queue QueuedBlob)) (bss : List (List QueuedBlob))
    → HoldAll qs bss
    → HoldAll (modify 0 count_dropped qs) bss
unfolding modify
modify-count_dropped-HoldAll [] bss h = h
modify-count_dropped-HoldAll (q ∷ qs) [] h = absurd h
modify-count_dropped-HoldAll (q ∷ qs) (bs ∷ bss) (h, hs) = (count_dropped-Represents q bs h, hs)
