-- ===== src/Probe/Queue/Bounded.antt =====
-- A circular queue of net-probe/src/logger.cpp holds a list: the newest entries, oldest first.
use native.Mathlib.Nat.{mod-eq_of_lt, mod-eq-sub-mod, mod-add-mod}
use native.Mathlib.Decide.{dec_lt}
use nx_reverse.Base.{
  ℕ, zero, suc, ◌+◌, ◌-◌, ◌%◌, ◌^◌, ◌≤◌, ◌<◌, ◌≡◌, ◌≢◌, inl, inr, refl, sym, ap, ◌∙◌, arith, none,
  some, List, [], ◌∷◌, ◌++◌, length, get_elem?, set, take, drop, length-set, length-append, ◌==◌,
  if◌then◌else◌, Bool-cases, true, false,
}
use nx_reverse.Probe.Queue.{Queue, enqueue, dequeue, dequeue_up_to, put, drop_oldest, advance}

module _ {ℓ} {A : Type ℓ} where
  -- The slots from one on, going round, hold the list.
  abbrev Stored : List A → ℕ → List A → Type ℓ
  Stored slots i [] = Unit
  Stored slots i (x ∷ xs) = (get_elem? slots i ≡ some x) × Stored slots ((i + 1) % length slots) xs

  -- A queue of `capacity` slots that holds the list.
  pub record Represents (capacity : ℕ) (q : Queue A) (xs : List A) : Type ℓ where
    pub slots : length q.slots ≡ capacity
    pub tail_in : q.tail < capacity
    pub size : q.size ≡ length xs
    pub fits : length xs ≤ capacity
    pub head : q.head ≡ (q.tail + length xs) % capacity
    pub stored : Stored q.slots q.tail xs

  -- The newest entries that fit.
  abbrev pub newest : ℕ → List A → List A
  newest capacity xs = drop (length xs - capacity) xs

  get_elem?-set_self :
      (slots : List A) (i : ℕ) (v : A) → i < length slots → get_elem? (set slots i v) i ≡ some v
  get_elem?-set_self [] i v h = absurd (omega arith)
  get_elem?-set_self (x ∷ slots) zero v h = refl
  get_elem?-set_self (x ∷ slots) (suc i) v h = get_elem?-set_self slots i v (omega arith)

  get_elem?-set_ne :
      (slots : List A) (i j : ℕ) (v : A) → i ≢ j → get_elem? (set slots i v) j ≡ get_elem? slots j
  get_elem?-set_ne [] i j v ne = refl
  get_elem?-set_ne (x ∷ slots) zero zero v ne = absurd (ne refl)
  get_elem?-set_ne (x ∷ slots) zero (suc j) v ne = refl
  get_elem?-set_ne (x ∷ slots) (suc i) zero v ne = refl
  get_elem?-set_ne (x ∷ slots) (suc i) (suc j) v ne =
      get_elem?-set_ne slots i j v (λ e. ne (ap suc e))

-- Fewer steps than there are slots do not lead back.
round_ne : (capacity i k : ℕ) → i < capacity → suc k < capacity → (i + suc k) % capacity ≢ i
round_ne capacity i k hi hk e = elim (dec_lt (i + suc k) capacity) [
  | yes p ↦ omega (arith, mod-eq_of_lt p)
  | no p ↦ omega (
    arith,
    mod-eq-sub-mod {n = i + suc k} {m = capacity} (omega arith),
    mod-eq_of_lt {n = i + suc k - capacity} {m = capacity} (omega arith),
  )
]

round_lt : (capacity i : ℕ) → 0 < capacity → i % capacity < capacity
round_lt capacity i h = grind arith

round_next : (capacity i k : ℕ) → ((i + 1) % capacity + k) % capacity ≡ (i + suc k) % capacity
round_next capacity i k = let e : i + 1 + k ≡ i + suc k = omega arith in rw (mod-add-mod, e) refl

module _ {ℓ} {A : Type ℓ} where
  -- An entry written behind the list is stored behind it.
  Stored-set :
      (slots : List A) (v : A) (i at_end : ℕ) (xs : List A)
      → i < length slots
      → length xs < length slots
      → at_end ≡ (i + length xs) % length slots
      → Stored slots i xs
      → Stored (set slots at_end v) i (xs ++ v ∷ [])
  Stored-set slots v i at_end [] hi hx e h =
      let here : at_end ≡ i = e ∙ (ap (λ k. k % length slots) (omega arith) ∙ mod-eq_of_lt hi) in
      rw here (get_elem?-set_self slots i v hi, tt)
  Stored-set slots v i at_end (x ∷ xs) hi hx e (held, h) = (
    get_elem?-set_ne slots at_end i v
          (λ same. round_ne (length slots) i (length xs) hi hx (sym e ∙ same))
        ∙ held,
    rw (length-set slots at_end v) (
        Stored-set slots v ((i + 1) % length slots) at_end xs
          (round_lt (length slots) (i + 1) (omega arith)) (omega arith)
          (e ∙ sym (round_next (length slots) i (length xs))) h),
  )

  Represents-put :
      (capacity : ℕ) (v : A) (q : Queue A) (xs : List A)
      → Represents capacity q xs
      → length xs < capacity
      → Represents capacity (put v q) (xs ++ v ∷ [])
  Represents-put capacity v q xs h room =
      let added : length (xs ++ v ∷ []) ≡ length xs + 1 = length-append xs (v ∷ []) in
      record {
        slots = length-set q.slots q.head v ∙ h.slots;
        tail_in = h.tail_in;
        size = omega (arith, h.size, added);
        fits = omega (arith, added);
        head = rw (h.slots, h.head, added) (rw mod-add-mod (ap (λ k. k % capacity) (omega arith)));
        stored =
            Stored-set q.slots v q.tail q.head xs (rw h.slots h.tail_in) (rw h.slots room)
              (rw h.slots h.head) h.stored;
      }

  Represents-advance :
      (capacity : ℕ) (q : Queue A) (x : A) (xs : List A)
      → Represents capacity q (x ∷ xs)
      → Represents capacity (advance q) xs
  Represents-advance capacity q x xs h = record {
    slots = h.slots;
    tail_in = rw h.slots (round_lt capacity (q.tail + 1) (omega (arith, h.tail_in)));
    size = omega (arith, h.size);
    fits = omega (arith, h.fits);
    head = h.head ∙ rw h.slots (sym (round_next capacity q.tail (length xs)));
    stored = h.stored.1;
  }

  newest_room : (capacity : ℕ) (xs : List A) → length xs ≤ capacity → newest capacity xs ≡ xs
  newest_room capacity xs h = let e : length xs - capacity ≡ 0 = omega arith in rw e refl

  newest_full :
      (capacity : ℕ) (x v : A) (xs : List A)
      → suc (length xs) ≡ capacity
      → newest capacity (x ∷ (xs ++ v ∷ [])) ≡ xs ++ v ∷ []
  newest_full capacity x v xs h =
      let e : suc (length (xs ++ v ∷ [])) - capacity ≡ 1 =
        omega (arith, length-append xs (v ∷ [])) in
      rw e refl

  enqueue_room :
      (capacity : ℕ) (v : A) (q : Queue A) (xs : List A)
      → Represents capacity q xs
      → length xs < capacity
      → Represents capacity (enqueue v q) (newest capacity (xs ++ v ∷ []))
        × ((enqueue v q).dropped ≡ q.dropped)
  unfolding enqueue
  enqueue_room capacity v q xs h room =
      let some_room : (q.size == length q.slots) ≡ false = ground (arith, h.slots, h.size) in
      let fits : length (xs ++ v ∷ []) ≤ capacity = omega (arith, length-append xs (v ∷ [])) in
      rw (some_room, newest_room capacity (xs ++ v ∷ []) fits)
        (Represents-put capacity v q xs h room, refl)

  enqueue_full :
      (capacity : ℕ) (v x : A) (q : Queue A) (xs : List A)
      → Represents capacity q (x ∷ xs)
      → suc (length xs) ≡ capacity
      → Represents capacity (enqueue v q) (newest capacity (x ∷ (xs ++ v ∷ [])))
        × ((enqueue v q).dropped ≡ (q.dropped + 1) % 2 ^ 64)
  unfolding enqueue
  enqueue_full capacity v x q xs h all =
      let no_room : (q.size == length q.slots) ≡ true = ground (arith, h.slots, h.size) in
      let rest = Represents-advance capacity q x xs h in
      rw (no_room, newest_full capacity x v xs all)
        (
          Represents-put capacity v (drop_oldest q) xs
              (record {
                slots = rest.slots;
                tail_in = rest.tail_in;
                size = rest.size;
                fits = rest.fits;
                head = rest.head;
                stored = rest.stored;
              })
              (omega arith),
          refl,
        )

  -- A new entry goes behind the others. In a full queue the oldest is lost, and it is counted.
  pub enqueue-Represents :
      (capacity : ℕ) (v : A) (q : Queue A) (xs : List A)
      → 0 < capacity
      → Represents capacity q xs
      → Represents capacity (enqueue v q) (newest capacity (xs ++ v ∷ []))
        × ((enqueue v q).dropped
            ≡ (if length xs == capacity then (q.dropped + 1) % 2 ^ 64 else q.dropped))
  enqueue-Represents capacity v q [] any h =
      let no : (0 == capacity) ≡ false = ground arith in rw no (enqueue_room capacity v q [] h any)
  enqueue-Represents capacity v q (x ∷ xs) any h = elim (Bool-cases (suc (length xs) == capacity)) [
    | inl all ↦ rw all (enqueue_full capacity v x q xs h (ground arith))
    | inr room ↦ rw room (enqueue_room capacity v q (x ∷ xs) h (ground (arith, h.fits)))
  ]

  pub dequeue-nil : (capacity : ℕ) (q : Queue A) → Represents capacity q [] → dequeue q ≡ (none, q)
  unfolding dequeue
  dequeue-nil capacity q h = let e : (q.size == 0) ≡ true = ground (arith, h.size) in rw e refl

  pub dequeue-cons :
      (capacity : ℕ) (q : Queue A) (x : A) (xs : List A)
      → Represents capacity q (x ∷ xs)
      → dequeue q ≡ (some x, advance q)
  unfolding dequeue
  dequeue-cons capacity q x xs h =
      let e : (q.size == 0) ≡ false = ground (arith, h.size) in rw (e, h.stored.0) refl

  -- The oldest entries are taken, as many as there are up to the bound, and the others stay.
  pub dequeue_up_to-Represents :
      (capacity n : ℕ) (q : Queue A) (xs : List A)
      → Represents capacity q xs
      → ((dequeue_up_to n q).0 ≡ take n xs)
        × Represents capacity (dequeue_up_to n q).1 (drop n xs)
        × ((dequeue_up_to n q).1.dropped ≡ q.dropped)
  unfolding dequeue_up_to
  dequeue_up_to-Represents capacity zero q xs h = (refl, h, refl)
  dequeue_up_to-Represents capacity (suc n) q [] h =
      let none_left = dequeue-nil capacity q h in
      rw (none_left, dequeue_up_to) (rw none_left (refl, h, refl))
  dequeue_up_to-Represents capacity (suc n) q (x ∷ xs) h =
      let (taken, left, same) =
        dequeue_up_to-Represents capacity n (advance q) xs (Represents-advance capacity q x xs h) in
      let one = dequeue-cons capacity q x xs h in
      rw (one, dequeue_up_to) (rw one (ap (◌∷◌ x) taken, left, same))
