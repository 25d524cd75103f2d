-- ===== src/Probe/Queue.antt =====
-- The circular queues of net-probe/src/logger.cpp: the text queue and the four binary queues have
-- the same steps over their own arrays, heads, tails and counts.
pub mod Bounded
use nx_reverse.Base.{
  ℕ, zero, suc, ◌+◌, ◌-◌, ◌%◌, ◌^◌, Option, none, some, List, [], ◌∷◌, length, get_elem?, set, ◌==◌,
  if◌then◌else◌,
}

-- `dropped` is the count of lost entries that no warning has told of yet.
pub record Queue {ℓ} (A : Type ℓ) : Type ℓ where
  pub slots : List A
  pub head : ℕ
  pub tail : ℕ
  pub size : ℕ
  pub dropped : ℕ

module _ {ℓ} {A : Type ℓ} where
  -- One more lost entry, in 64 bits.
  abbrev pub count_dropped : Queue A → Queue A
  count_dropped q = record q { dropped = (q.dropped + 1) % 2 ^ 64 }

  -- The branch of a full queue.
  abbrev pub drop_oldest : Queue A → Queue A
  drop_oldest q =
      count_dropped (record q { tail = (q.tail + 1) % length q.slots; size = q.size - 1 })

  abbrev pub make_room : Queue A → Queue A
  make_room q = if q.size == length q.slots then drop_oldest q else q

  -- The entry is written to the slot at the head, also where that is the slot just given up.
  abbrev pub put : A → Queue A → Queue A
  put v q = record q {
    slots = set q.slots q.head v;
    head = (q.head + 1) % length q.slots;
    size = q.size + 1;
  }

  unfoldable pub enqueue : A → Queue A → Queue A
  enqueue v q = put v (make_room q)

  abbrev pub advance : Queue A → Queue A
  advance q = record q { tail = (q.tail + 1) % length q.slots; size = q.size - 1 }

  -- `none` where the queue is empty.
  unfoldable pub dequeue : Queue A → Option A × Queue A
  dequeue q = if q.size == 0 then (none, q) else (get_elem? q.slots q.tail, advance q)

  -- The loops of `FlushPendingEntries` that pop at most so many entries.
  unfoldable pub dequeue_up_to : ℕ → Queue A → List A × Queue A
  dequeue_up_to zero q = ([], q)
  dequeue_up_to (suc n) q =
      let (popped, rest) = dequeue q in
      elim popped [
        | none ↦ ([], rest)
        | some v ↦ let (vs, last) = dequeue_up_to n rest in (v ∷ vs, last)
      ]
