-- ===== src/Probe/Logger/Flush/Batches.antt =====
-- A round of `FlushPendingEntries` in net-probe/src/logger.cpp on the lists that the queues hold.
use nx_reverse.Base.{
  ℕ, suc, ◌+◌, ◌≡◌, ◌<◌, ◌≤◌, refl, ap, arith, true, false, List, [], ◌∷◌, map, take, drop, length,
  length-drop, sum, is_empty, Bool-cases, inl, inr,
}
use nx_reverse.Probe.Queue.{Queue}
use nx_reverse.Probe.Queue.Bounded.{Represents, dequeue_up_to-Represents}
use nx_reverse.Probe.Logger.{
  QueuedLine, QueuedBlob, Logger, queue_entry_capacity, binary_queue_entry_capacity,
}
use nx_reverse.Probe.Logger.Held.{Holds, HoldAll}
use nx_reverse.Probe.Logger.Flush.{
  take_blobs, take_batch, clear_dropped, all_empty, is_empty_batch, no_pending,
}

abbrev pub lengths : List (List QueuedBlob) → ℕ
lengths bss = sum (map length bss)

abbrev pub take_each : List (List QueuedBlob) → List (List QueuedBlob)
take_each bss = map (take 8) bss

abbrev pub drop_each : List (List QueuedBlob) → List (List QueuedBlob)
drop_each bss = map (drop 8) bss

-- No counter of lost entries is left.
abbrev pub AllTold : List (Queue QueuedBlob) → Type 0
AllTold [] = Unit
AllTold (q ∷ qs) = (q.dropped ≡ 0) × AllTold qs

clear-Represents {ℓ} :
    {A : Type ℓ} (capacity : ℕ) (q : Queue A) (xs : List A)
    → Represents capacity q xs
    → Represents capacity (clear_dropped q) xs
clear-Represents capacity q xs h = record {
  slots = h.slots;
  tail_in = h.tail_in;
  size = h.size;
  fits = h.fits;
  head = h.head;
  stored = h.stored;
}

take_blobs-HoldAll :
    (qs : List (Queue QueuedBlob)) (bss : List (List QueuedBlob))
    → HoldAll qs bss
    → ((take_blobs (map clear_dropped qs)).0 ≡ take_each bss)
      × HoldAll (take_blobs (map clear_dropped qs)).1 (drop_each bss)
      × AllTold (take_blobs (map clear_dropped qs)).1
unfolding take_blobs
take_blobs-HoldAll [] [] h = (refl, tt, tt)
take_blobs-HoldAll [] (bs ∷ bss) h = absurd h
take_blobs-HoldAll (q ∷ qs) [] h = absurd h
take_blobs-HoldAll (q ∷ qs) (bs ∷ bss) (h, hs) =
    let (taken, left, told) =
      dequeue_up_to-Represents binary_queue_entry_capacity 8 (clear_dropped q) bs
        (clear-Represents binary_queue_entry_capacity q bs h) in
    let (others, rest, all_told) = take_blobs-HoldAll qs bss hs in
    (rw (taken, others) refl, (left, rest), (told, all_told))

-- What a round under the lock does where the queues hold these lists.
pub record Takes (l : Logger) (ls : List QueuedLine) (bss : List (List QueuedBlob)) : Type 0 where
  pub lines : (take_batch l).0.lines ≡ take 16 ls
  pub blobs : (take_batch l).0.blobs ≡ take_each bss
  pub left : Holds (take_batch l).1 (drop 16 ls) (drop_each bss)
  pub told : ((take_batch l).1.lines.dropped ≡ 0) × AllTold (take_batch l).1.blobs
  pub stop : (take_batch l).1.stop_requested ≡ l.stop_requested
  pub ready : (take_batch l).1.initialized ≡ l.initialized

pub take_batch-Takes :
    (l : Logger) (ls : List QueuedLine) (bss : List (List QueuedBlob))
    → Holds l ls bss
    → Takes l ls bss
unfolding take_batch
take_batch-Takes l ls bss h =
    let (taken, left, told) =
      dequeue_up_to-Represents queue_entry_capacity 16 (clear_dropped l.lines) ls
        (clear-Represents queue_entry_capacity l.lines ls h.lines) in
    let (blobs, rest, all_told) = take_blobs-HoldAll l.blobs bss h.blobs in
    record {
      lines = taken;
      blobs = blobs;
      left = record { lines = left; blobs = rest };
      told = (told, all_told);
      stop = refl;
      ready = refl;
    }

take_nil {ℓ} : {A : Type ℓ} (n : ℕ) (xs : List A) → is_empty (take (suc n) xs) ≡ true → xs ≡ []
take_nil n [] h = refl
take_nil n (x ∷ xs) h = cc

-- One that has something in it leaves less behind.
drop_fewer {ℓ} :
    {A : Type ℓ} (n : ℕ) (xs : List A)
    → is_empty (take (suc n) xs) ≡ false
    → length (drop (suc n) xs) < length xs
drop_fewer n [] h = cc
drop_fewer n (x ∷ xs) h = omega (arith, length-drop n xs)

drop_no_more {ℓ} : {A : Type ℓ} (n : ℕ) (xs : List A) → length (drop n xs) ≤ length xs
drop_no_more n xs = omega (arith, length-drop n xs)

lengths-drop_each-le : (bss : List (List QueuedBlob)) → lengths (drop_each bss) ≤ lengths bss
lengths-drop_each-le [] = omega arith
lengths-drop_each-le (bs ∷ bss) = omega (arith, drop_no_more 8 bs, lengths-drop_each-le bss)

lengths-drop_each-lt :
    (bss : List (List QueuedBlob))
    → all_empty (take_each bss) ≡ false
    → lengths (drop_each bss) < lengths bss
lengths-drop_each-lt [] h = cc
lengths-drop_each-lt ([] ∷ bss) h = omega (arith, lengths-drop_each-lt bss h)
lengths-drop_each-lt ((b ∷ bs) ∷ bss) h =
    omega (arith, drop_fewer 7 (b ∷ bs) refl, lengths-drop_each-le bss)

-- Nothing of each kind.
abbrev pub nothing_of : List (List QueuedBlob) → List (List QueuedBlob)
nothing_of bss = map (λ _. []) bss

pub nothing_of-drop_each :
    (bss : List (List QueuedBlob)) → nothing_of (drop_each bss) ≡ nothing_of bss
nothing_of-drop_each [] = refl
nothing_of-drop_each (bs ∷ bss) = ap (◌∷◌ []) (nothing_of-drop_each bss)

take_each-nil :
    (bss : List (List QueuedBlob))
    → all_empty (take_each bss) ≡ true
    → (drop_each bss ≡ nothing_of bss) × (bss ≡ nothing_of bss)
take_each-nil [] h = (refl, refl)
take_each-nil ([] ∷ bss) h =
    let (dropped, nil) = take_each-nil bss h in (ap (◌∷◌ []) dropped, ap (◌∷◌ []) nil)
take_each-nil ((b ∷ bs) ∷ bss) h = cc

module _ (l : Logger) (ls : List QueuedLine) (bss : List (List QueuedBlob))
    (h : Holds l ls bss) where
  -- An empty batch means that nothing was queued.
  pub take_batch-empty :
      is_empty_batch (take_batch l).0 ≡ true
      → (ls ≡ []) × (bss ≡ nothing_of bss) × Holds (take_batch l).1 [] (nothing_of bss)
  take_batch-empty e =
      let t = take_batch-Takes l ls bss h in
      let both : (is_empty (take 16 ls) ≡ true) × (all_empty (take_each bss) ≡ true) =
        ground (arith, t.lines, t.blobs) in
      let no_lines = take_nil 15 ls both.0 in
      let (dropped, nil) = take_each-nil bss both.1 in
      let gone : drop 16 ls ≡ [] = rw no_lines refl in
      (no_lines, nil, rw (← gone, ← dropped) t.left)

  -- Any other leaves fewer entries.
  pub take_batch-fewer :
      is_empty_batch (take_batch l).0 ≡ false
      → length (drop 16 ls) + lengths (drop_each bss) < length ls + lengths bss
  take_batch-fewer e =
      let t = take_batch-Takes l ls bss h in
      elim (Bool-cases (is_empty (take 16 ls))) [
        | inl no_lines ↦
            let some_blobs : all_empty (take_each bss) ≡ false =
              ground (arith, t.lines, t.blobs, no_lines) in
            omega (arith, drop_no_more 16 ls, lengths-drop_each-lt bss some_blobs)
        | inr some_lines ↦ omega (arith, drop_fewer 15 ls some_lines, lengths-drop_each-le bss)
      ]

pub no_pending-nothing_of :
    (qs : List (Queue QueuedBlob)) (bss : List (List QueuedBlob))
    → HoldAll qs (nothing_of bss)
    → no_pending qs ≡ true
no_pending-nothing_of [] bss h = refl
no_pending-nothing_of (q ∷ qs) [] h = absurd h
no_pending-nothing_of (q ∷ qs) (bs ∷ bss) (h, hs) = rw (h.size) (no_pending-nothing_of qs bss hs)
