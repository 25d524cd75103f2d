-- ===== src/Probe/Table/Updates.antt =====
-- What the loops of net-probe/src/mitm_trace.cpp that clear, change or copy entries do to lookups
-- and counts.
use nx_reverse.Base.{
  ℕ, zero, suc, ◌+◌, ◌-◌, ◌≤◌, ◌≡◌, ◌⊎◌, inl, inr, refl, ap, sym, ◌∙◌, arith, Bool, true, false,
  none, Option-cases, some, List, [], ◌∷◌, take, length, count, if◌then◌else◌, ltb, Bool-cases,
}
use nx_reverse.Probe.Table.Slots.{bit}
use nx_reverse.Probe.Table.{find_entry, update_first, clear, copy_from}

module _ {E : Type 0} where
  -- The entries that pass a test, in their order.
  unfoldable pub kept_entries : (E → Bool) → List E → List E
  kept_entries p [] = []
  kept_entries p (e ∷ es) = if p e then e ∷ kept_entries p es else kept_entries p es

  pub find_entry-passes :
      (p : E → Bool) (es : List E) (e : E) → find_entry p es ≡ some e → p e ≡ true
  unfolding find_entry
  find_entry-passes p [] e h = cc
  find_entry-passes p (x ∷ es) e h = elim (Bool-cases (p x)) [
    | inl hit ↦ let same : x ≡ e = ground arith in ap p (sym same) ∙ hit
    | inr miss ↦ find_entry-passes p es e (ground arith)
  ]

  pub count-none : (p : E → Bool) (es : List E) → find_entry p es ≡ none → count p es ≡ 0
  unfolding find_entry
  count-none p [] h = refl
  count-none p (x ∷ es) h = elim (Bool-cases (p x)) [
    | inl hit ↦ absurd (ground (arith, h))
    | inr miss ↦
        let rest : find_entry p es ≡ none = ground arith in
        rw miss (omega (arith, count-none p es rest))
  ]

  module _ (p : E → Bool) (f : E → E) where
    pub length-clear : (es : List E) → length (clear p f es) ≡ length es
    unfolding clear
    length-clear [] = refl
    length-clear (e ∷ es) = ap suc (length-clear es)

    pub length-update_first : (es : List E) → length (update_first p f es) ≡ length es
    unfolding update_first
    length-update_first [] = refl
    length-update_first (e ∷ es) = ground (arith, length-update_first es)

    -- Nothing that passes is left behind a clearing.
    pub count-clear : (es : List E) → ((e : E) → p (f e) ≡ false) → count p (clear p f es) ≡ 0
    unfolding clear
    count-clear [] gone = refl
    count-clear (e ∷ es) gone = elim (Bool-cases (p e)) [
      | inl hit ↦ rw (hit, gone e) (omega (arith, count-clear es gone))
      | inr miss ↦ rw (miss, miss) (omega (arith, count-clear es gone))
    ]

    module _ (q : E → Bool) where
      pub count-clear_other :
          (es : List E)
          → ((e : E) → p e ≡ true → q (f e) ≡ q e)
          → count q (clear p f es) ≡ count q es
      unfolding clear
      count-clear_other [] same = refl
      count-clear_other (e ∷ es) same = elim (Bool-cases (p e)) [
        | inl hit ↦ rw (hit, same e hit, count-clear_other es same) refl
        | inr miss ↦ rw (miss, count-clear_other es same) refl
      ]

      pub count-clear_le :
          (es : List E) → ((e : E) → q (f e) ≡ false) → count q (clear p f es) ≤ count q es
      unfolding clear
      count-clear_le [] gone = omega arith
      count-clear_le (e ∷ es) gone = elim (Bool-cases (p e)) [
        | inl hit ↦ rw (hit, gone e) (omega (arith, count-clear_le es gone))
        | inr miss ↦ rw miss (omega (arith, count-clear_le es gone))
      ]

      pub find_entry-clear_other :
          (es : List E)
          → ((e : E) → p e ≡ true → q e ≡ false)
          → ((e : E) → p e ≡ true → q (f e) ≡ false)
          → find_entry q (clear p f es) ≡ find_entry q es
      unfolding clear find_entry
      find_entry-clear_other [] before after = refl
      find_entry-clear_other (e ∷ es) before after = elim (Bool-cases (p e)) [
        | inl hit ↦ rw (hit, after e hit, before e hit) (find_entry-clear_other es before after)
        | inr miss ↦ rw (miss, find_entry-clear_other es before after) refl
      ]

      pub count-update_first_other :
          (es : List E)
          → ((e : E) → p e ≡ true → q (f e) ≡ q e)
          → count q (update_first p f es) ≡ count q es
      unfolding update_first
      count-update_first_other [] same = refl
      count-update_first_other (e ∷ es) same = elim (Bool-cases (p e)) [
        | inl hit ↦ rw (hit, same e hit) refl
        | inr miss ↦ rw (miss, count-update_first_other es same) refl
      ]

      pub count-update_first_le :
          (es : List E) → ((e : E) → q (f e) ≡ false) → count q (update_first p f es) ≤ count q es
      unfolding update_first
      count-update_first_le [] gone = omega arith
      count-update_first_le (e ∷ es) gone = elim (Bool-cases (p e)) [
        | inl hit ↦ rw (hit, gone e) (omega arith)
        | inr miss ↦ rw miss (omega (arith, count-update_first_le es gone))
      ]

      pub find_entry-update_first_other :
          (es : List E)
          → ((e : E) → p e ≡ true → q e ≡ false)
          → ((e : E) → p e ≡ true → q (f e) ≡ false)
          → find_entry q (update_first p f es) ≡ find_entry q es
      unfolding update_first find_entry
      find_entry-update_first_other [] before after = refl
      find_entry-update_first_other (e ∷ es) before after = elim (Bool-cases (p e)) [
        | inl hit ↦ rw (hit, after e hit, before e hit) refl
        | inr miss ↦ rw (miss, find_entry-update_first_other es before after) refl
      ]

    -- A lookup by the same test gives the changed entry.
    pub find_entry-update_first :
        (es : List E) (e : E)
        → find_entry p es ≡ some e
        → p (f e) ≡ true
        → find_entry p (update_first p f es) ≡ some (f e)
    unfolding update_first find_entry
    find_entry-update_first [] e found ok = cc
    find_entry-update_first (x ∷ es) e found ok = elim (Bool-cases (p x)) [
      | inl hit ↦ first hit found
      | inr miss ↦ rw (miss, miss) (find_entry-update_first es e (later miss found) ok)
    ]
      where
        first :
            p x ≡ true
            → (if p x then some x else find_entry p es) ≡ some e
            → (find_entry p (if p x then f x ∷ es else x ∷ update_first p f es) ≡ some (f e))
        first hit h = let same : x ≡ e = ground arith in rw (hit, same, ok) refl

        later :
            p x ≡ false
            → (if p x then some x else find_entry p es) ≡ some e
            → (find_entry p es ≡ some e)
        later miss h = ground arith

    -- A count loses what the found entry counted, and gains what the changed one counts.
    pub count-update_first :
        (q : E → Bool) (es : List E) (e : E)
        → find_entry p es ≡ some e
        → count q (update_first p f es) + bit (q e) ≡ count q es + bit (q (f e))
    unfolding update_first find_entry
    count-update_first q [] e found = cc
    count-update_first q (x ∷ es) e found = elim (Bool-cases (p x)) [
      | inl here ↦ let same : x ≡ e = ground arith in rw (here, same) (omega arith)
      | inr there ↦
          let rest : find_entry p es ≡ some e = ground arith in
          rw there (omega (arith, count-update_first q es e rest))
    ]

    -- Where at most one entry passes, none does once it is changed into one that does not.
    pub count-update_first_gone :
        (es : List E)
        → count p es ≤ 1
        → ((e : E) → p (f e) ≡ false)
        → count p (update_first p f es) ≡ 0
    count-update_first_gone es one gone = elim (Option-cases (find_entry p es)) [
      | inl absent ↦ omega (arith, count-none p es absent, count-update_first_le p es gone)
      | inr (e, found) ↦
          let before : bit (p e) ≡ 1 = rw (find_entry-passes p es e found) refl in
          let after : bit (p (f e)) ≡ 0 = rw (gone e) refl in
          omega (arith, count-update_first p es e found, before, after, one)
    ]

  -- A test that some entry passes finds one.
  pub find_entry-some :
      (p q : E → Bool) (es : List E) (e : E)
      → find_entry p es ≡ some e
      → q e ≡ true
      → (e' : E) × (find_entry q es ≡ some e')
  unfolding find_entry
  find_entry-some p q [] e found hit = cc
  find_entry-some p q (x ∷ es) e found hit = elim (Bool-cases (q x)) [
    | inl here ↦ (x, rw here refl)
    | inr there ↦
        let (e', rest) = find_entry-some p q es e (skip (Bool-cases (p x)) there found) hit in
        (e', rw there rest)
  ]
    where
      skip :
          (p x ≡ true) ⊎ (p x ≡ false)
          → q x ≡ false
          → (if p x then some x else find_entry p es) ≡ some e
          → find_entry p es ≡ some e
      skip (inl here) miss h = let same : x ≡ e = ground arith in absurd (ground arith)
      skip (inr there) miss h = ground arith

  take-nil : (n : ℕ) → take {A = E} n [] ≡ []
  take-nil zero = refl
  take-nil (suc n) = refl

  take-cons : (m n : ℕ) (e : E) (es : List E) → m ≡ suc n → take m (e ∷ es) ≡ e ∷ take n es
  take-cons m n e es h = rw h refl

  -- The count that a copy returns is of all entries that pass, and what it writes is the first of
  -- them, as many as there is room for.
  pub copy_from_lem :
      (p : E → Bool) (room cursor : ℕ) (es : List E)
      → copy_from p room cursor es ≡ (take (room - cursor) (kept_entries p es), cursor + count p es)
  unfolding copy_from kept_entries
  copy_from_lem p room cursor [] = rw (take-nil (room - cursor)) (ground arith)
  copy_from_lem p room cursor (e ∷ es) = elim (Bool-cases (p e)) [
    | inl hit ↦ elim (Bool-cases (ltb cursor room)) [
      | inl fits ↦
          rw (hit, fits, copy_from_lem p room (suc cursor) es)
            (let cut : take (room - cursor) (e ∷ kept_entries p es)
                  ≡ e ∷ take (room - suc cursor) (kept_entries p es) =
                take-cons (room - cursor) (room - suc cursor) e (kept_entries p es)
                  (ground arith) in
              rw cut
                (ap (λ n. (e ∷ take (room - suc cursor) (kept_entries p es), n)) (omega arith)))
      | inr over ↦
          let none_left : room - cursor ≡ 0 = ground arith in
          let still : room - suc cursor ≡ 0 = ground arith in
          rw (hit, over, copy_from_lem p room (suc cursor) es, none_left, still)
            (ap (λ n. ([], n)) (omega arith))
    ]
    | inr miss ↦
        rw (miss, copy_from_lem p room cursor es)
          (ap (λ n. (take (room - cursor) (kept_entries p es), n)) (omega arith))
  ]
