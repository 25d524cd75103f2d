-- ===== src/Probe/Table/Lookup.antt =====
-- What a lookup and a count give after the loops of net-probe/src/mitm_trace.cpp.
use nx_reverse.Base.{
  ℕ, zero, suc, ◌<◌, ◌≤◌, ◌≡◌, ◌⊎◌, inl, inr, refl, arith, Bool, true, false, some, List, [], ◌∷◌,
  get_elem?, set, length, length-set, count, Bool-cases,
}
use nx_reverse.Probe.Table.{Slot, present, vacant, full, scan, remember, find_entry}
use nx_reverse.Probe.Table.Slots.{
  bit, count-set, get_elem?-zero, Scanned, is_present, is_vacant, is_full, scan_lem,
}

module _ {E : Type 0} where
  pub count-get_elem? :
      (p : E → Bool) (es : List E) (i : ℕ) (e : E)
      → get_elem? es i ≡ some e
      → bit (p e) ≤ count p es
  count-get_elem? p [] i e h = cc
  count-get_elem? p (x ∷ es) zero e h = let same : x ≡ e = cc in rw same (omega arith)
  count-get_elem? p (x ∷ es) (suc i) e h = omega (arith, count-get_elem? p es i e h)

  -- An entry that passes a test is found when at most one passes it.
  pub find_entry_unique :
      (p : E → Bool) (es : List E) (i : ℕ) (e : E)
      → get_elem? es i ≡ some e
      → p e ≡ true
      → count p es ≤ 1
      → find_entry p es ≡ some e
  unfolding find_entry
  find_entry_unique p [] i e there ok one = cc
  find_entry_unique p (x ∷ es) zero e there ok one = let same : x ≡ e = cc in rw (same, ok) refl
  find_entry_unique p (x ∷ es) (suc i) e there ok one = elim (Bool-cases (p x)) [
    | inl found ↦
        absurd
          (let le : bit (p e) ≤ count p es = count-get_elem? p es i e there in ground (arith, le))
    | inr other ↦ rw other (find_entry_unique p es i e there ok (ground arith))
  ]

  pub find_entry-set :
      (q : E → Bool) (es : List E) (i : ℕ) (old new : E)
      → get_elem? es i ≡ some old
      → q old ≡ false
      → q new ≡ false
      → find_entry q (set es i new) ≡ find_entry q es
  unfolding find_entry
  find_entry-set q [] i old new there before after = cc
  find_entry-set q (x ∷ es) zero old new there before after =
      let same : x ≡ old = cc in rw (same, before, after) refl
  find_entry-set q (x ∷ es) (suc i) old new there before after =
      rw (find_entry-set q es i old new there before after) refl

  pub get_elem?-set_same :
      (es : List E) (i : ℕ) (old new : E)
      → get_elem? es i ≡ some old
      → get_elem? (set es i new) i ≡ some new
  get_elem?-set_same [] i old new h = cc
  get_elem?-set_same (x ∷ es) zero old new h = refl
  get_elem?-set_same (x ∷ es) (suc i) old new h = get_elem?-set_same es i old new h

  -- `Remember…` of a key: `matches` is the test of the key, which only entries in use pass.
  module _ (matches used : E → Bool) (refresh : E → E) (fresh : E)
      (in_use : (e : E) → matches e ≡ true → used e ≡ true)
      (refreshed : (e : E) → matches e ≡ true → matches (refresh e) ≡ true)
      (written : matches fresh ≡ true) (es : List E) (room : 0 < length es) where
    -- The slot that is written, its old entry and its new one.
    data Written : List E × E → Type 0 where
      writes :
          (i : ℕ) (old new : E)
          → get_elem? es i ≡ some old
          → matches new ≡ true
          → (matches old ≡ true) ⊎ (count matches es ≡ 0)
          → ((matches old ≡ true) × (new ≡ refresh old))
            ⊎ ((new ≡ fresh) × ((used old ≡ false) ⊎ (count used es ≡ length es)))
          → Written (set es i new, new)

    remember-Written : Written (remember matches used refresh fresh es)
    unfolding remember
    remember-Written = go _ (scan_lem matches used es)
      where
        go :
            (slot : Slot E)
            → Scanned matches used es slot
            → Written (elim slot [
              | present j e ↦ (set es j (refresh e), refresh e)
              | vacant j ↦ (set es j fresh, fresh)
              | full ↦ (set es 0 fresh, fresh)
            ])
        go (present _ _) (is_present j e there ok) =
            writes j e (refresh e) there (refreshed e ok) (inl ok) (inl (ok, refl))
        go (vacant _) (is_vacant j e there idle nothing) =
            writes j e fresh there written (inr nothing) (inr (refl, inl idle))
        go full (is_full busy nothing) =
            let (e, there) = get_elem?-zero es room in
            writes 0 e fresh there written (inr nothing) (inr (refl, inr busy))

    pub remember-length : length (remember matches used refresh fresh es).0 ≡ length es
    remember-length = go _ remember-Written
      where
        go : (r : List E × E) → Written r → length r.0 ≡ length es
        go _ (writes i old new there _ _ _) = length-set es i new

    -- There is one entry for the key afterwards.
    pub remember-count :
        count matches es ≤ 1 → count matches (remember matches used refresh fresh es).0 ≡ 1
    remember-count one = go _ remember-Written
      where
        go : (r : List E × E) → Written r → count matches r.0 ≡ 1
        go _ (writes i old new there ok (inl was) _) =
            ground
              (arith, count-set matches es i old new there, count-get_elem? matches es i old there)
        go _ (writes i old new there ok (inr nothing) _) =
            ground
              (arith, count-set matches es i old new there, count-get_elem? matches es i old there)

    -- A lookup of the key gives the entry that was returned.
    pub find_entry-remember :
        count matches es ≤ 1
        → find_entry matches (remember matches used refresh fresh es).0
          ≡ some (remember matches used refresh fresh es).1
    find_entry-remember one = go _ remember-Written (remember-count one)
      where
        go :
            (r : List E × E) → Written r → count matches r.0 ≡ 1 → find_entry matches r.0 ≡ some r.1
        go _ (writes i old new there ok _ _) single =
            find_entry_unique matches _ i new (get_elem?-set_same es i old new there) ok
              (omega arith)

    -- What happens to the entries of another test, which `matches` excludes.
    module _ (q : E → Bool) (q_used : (e : E) → q e ≡ true → used e ≡ true)
        (apart : (e : E) → matches e ≡ true → q e ≡ false) where
      pub remember-count_other : count q (remember matches used refresh fresh es).0 ≤ count q es
      remember-count_other = go _ remember-Written
        where
          go : (r : List E × E) → Written r → count q r.0 ≤ count q es
          go _ (writes i old new there ok _ _) =
              ground (arith, count-set q es i old new there, apart new ok)

      idle_other : (e : E) → used e ≡ false → q e ≡ false
      idle_other e idle = elim (Bool-cases (q e)) [
        | inl hit ↦ let busy : used e ≡ true = q_used e hit in cc
        | inr miss ↦ miss
      ]

      -- A lookup of another key is not changed while a slot is free or the key is there.
      pub find_entry-remember_other :
          (0 < count matches es) ⊎ (count used es < length es)
          → find_entry q (remember matches used refresh fresh es).0 ≡ find_entry q es
      find_entry-remember_other not_full = go _ remember-Written
        where
          go : (r : List E × E) → Written r → find_entry q r.0 ≡ find_entry q es
          go _ (writes i old new there ok (inl was) _) =
              find_entry-set q es i old new there (apart old was) (apart new ok)
          go _ (writes i old new there ok (inr nothing) (inl (was, _))) =
              find_entry-set q es i old new there (apart old was) (apart new ok)
          go _ (writes i old new there ok (inr nothing) (inr (_, inl idle))) =
              find_entry-set q es i old new there (idle_other old idle) (apart new ok)
          go _ (writes i old new there ok (inr nothing) (inr (_, inr busy))) = elim not_full [
            | inl some_match ↦ absurd (omega arith)
            | inr some_free ↦ absurd (omega arith)
          ]

  -- What holds of every entry that may be written holds of the one that is returned.
  pub remember-entry :
      (P : E → Type 0) (matches used : E → Bool) (refresh : E → E) (fresh : E) (es : List E)
      → ((e : E) → P (refresh e))
      → P fresh
      → P (remember matches used refresh fresh es).1
  unfolding remember
  remember-entry P matches used refresh fresh es r f = go (scan matches used es)
    where
      go :
          (slot : Slot E)
          → P
              (elim slot as (λ _. List E × E) [
                | present j e ↦ (set es j (refresh e), refresh e)
                | vacant j ↦ (set es j fresh, fresh)
                | full ↦ (set es 0 fresh, fresh)
              ]).1
      go (present j e) = r e
      go (vacant j) = f
      go full = f
