-- ===== src/Probe/Table/Slots.antt =====
-- What the loop of `Remember…` ends with, and how a write changes the counts of a table.
use mathlib.Core.Path.{subst, sym}
use nx_reverse.Base.{
  ℕ, zero, suc, ◌+◌, ◌<◌, ◌≡◌, ◌⊎◌, inl, inr, refl, arith, Bool, true, false, Option, none, some,
  List, [], ◌∷◌, get_elem?, set, length, count, count-le-length, if◌then◌else◌, Bool-cases,
}
use nx_reverse.Probe.Table.{Slot, present, vacant, full, end_of_scan, note_free, scan_from, scan}

abbrev pub bit : Bool → ℕ
bit b = if b then 1 else 0

module _ {E : Type 0} where
  pub count-set :
      (p : E → Bool) (es : List E) (i : ℕ) (old new : E)
      → get_elem? es i ≡ some old
      → count p (set es i new) + bit (p old) ≡ count p es + bit (p new)
  count-set p [] i old new h = cc
  count-set p (e ∷ es) zero old new h = let same : e ≡ old = cc in rw (sym same) (omega arith)
  count-set p (e ∷ es) (suc i) old new h = omega (arith, count-set p es i old new h)

  pub get_elem?-zero : (es : List E) → 0 < length es → (e : E) × (get_elem? es 0 ≡ some e)
  get_elem?-zero [] h = absurd (omega arith)
  get_elem?-zero (e ∷ es) h = (e, refl)

  -- What the loop found.
  pub data Scanned (matches used : E → Bool) (es : List E) : Slot E → Type 0 where
    is_present :
        (j : ℕ) (e : E)
        → get_elem? es j ≡ some e
        → matches e ≡ true
        → Scanned matches used es (present j e)
    is_vacant :
        (j : ℕ) (e : E)
        → get_elem? es j ≡ some e
        → used e ≡ false
        → count matches es ≡ 0
        → Scanned matches used es (vacant j)
    is_full : count used es ≡ length es → count matches es ≡ 0 → Scanned matches used es full

  module _ (matches used : E → Bool) where
    -- What the loop ends with when it starts at entry `i`, with `free_entry` so far.
    abbrev From : ℕ → Option ℕ → List E → Slot E → Type 0
    From i free es (present j e) =
        (k : ℕ) × (j ≡ i + k) × (get_elem? es k ≡ some e) × (matches e ≡ true)
    From i free es (vacant j) =
        (count matches es ≡ 0)
        × ((free ≡ some j)
            ⊎ ((k : ℕ) × (e : E) × (j ≡ i + k) × (get_elem? es k ≡ some e) × (used e ≡ false)))
    From i free es full = (free ≡ none) × (count used es ≡ length es) × (count matches es ≡ 0)

    From-step :
        (i : ℕ) (free : Option ℕ) (b : Bool) (e : E) (es : List E) (slot : Slot E)
        → used e ≡ b
        → matches e ≡ false
        → From (suc i) (note_free b i free) es slot
        → From i free (e ∷ es) slot
    From-step i free b e es (present j f) is other (k, at, there, ok) =
        (suc k, omega arith, there, ok)
    From-step i free b e es (vacant j) is other (none_match, inr (k, f, at, there, ok)) =
        (rw other (omega arith), inr (suc k, f, omega arith, there, ok))
    From-step i (some f) b e es (vacant j) is other (none_match, inl known) =
        (rw other (omega arith), inl known)
    From-step i none true e es (vacant j) is other (none_match, inl known) = cc
    From-step i none false e es (vacant j) is other (none_match, inl known) =
        let same : i ≡ j = cc in (rw other (omega arith), inr (0, e, omega arith, refl, is))
    From-step i (some f) b e es full is other (no_free, busy, none_match) = cc
    From-step i none false e es full is other (no_free, busy, none_match) = cc
    From-step i none true e es full is other (no_free, busy, none_match) =
        (refl, rw is (omega arith), rw other (omega arith))

    scan_from_lem :
        (i : ℕ) (free : Option ℕ) (es : List E) → From i free es (scan_from matches used i free es)
    unfolding scan_from end_of_scan
    scan_from_lem i none [] = (refl, refl, refl)
    scan_from_lem i (some j) [] = (refl, inl refl)
    scan_from_lem i free (e ∷ es) = elim (Bool-cases (matches e)) [
      | inl found ↦ rw found (0, omega arith, refl, found)
      | inr other ↦ rw other (
          From-step i free (used e) e es _ refl other
            (scan_from_lem (suc i) (note_free (used e) i free) es))
    ]

    of_From : (es : List E) (slot : Slot E) → From 0 none es slot → Scanned matches used es slot
    of_From es (present j e) (k, at, there, ok) =
        is_present j e (rw at (subst (λ n. get_elem? es n ≡ some e) (omega arith) there)) ok
    of_From es (vacant j) (none_match, inl known) = cc
    of_From es (vacant j) (none_match, inr (k, e, at, there, ok)) =
        is_vacant j e (subst (λ n. get_elem? es n ≡ some e) (omega arith) there) ok none_match
    of_From es full (no_free, busy, none_match) = is_full busy none_match

    -- The loop finds an entry that matches, or else the table has none and the loop ends with a
    -- free entry, or with neither when every entry is in use.
    pub scan_lem : (es : List E) → Scanned matches used es (scan matches used es)
    scan_lem es = of_From es _ (scan_from_lem 0 none es)

  -- In a table that is in use throughout, an entry is in use.
  pub full-used :
      (used : E → Bool) (es : List E) (i : ℕ) (e : E)
      → count used es ≡ length es
      → get_elem? es i ≡ some e
      → used e ≡ true
  full-used used [] i e all there = cc
  full-used used (x ∷ es) zero e all there =
      let same : x ≡ e = cc in rw (sym same) (ground (arith, count-le-length used es))
  full-used used (x ∷ es) (suc i) e all there =
      full-used used es i e (ground (arith, count-le-length used es)) there

  count-hit :
      (p : E → Bool) (es : List E) (i : ℕ) (e : E)
      → get_elem? es i ≡ some e
      → p e ≡ true
      → 0 < count p es
  count-hit p [] i e there hit = cc
  count-hit p (x ∷ es) zero e there hit = let same : x ≡ e = cc in rw (same, hit) (omega arith)
  count-hit p (x ∷ es) (suc i) e there hit = omega (arith, count-hit p es i e there hit)

  -- When no entry matches and none is free, the loop ends with neither.
  pub scan_full :
      (matches used : E → Bool) (es : List E)
      → count used es ≡ length es
      → count matches es ≡ 0
      → scan matches used es ≡ full
  scan_full matches used es all nothing = go _ (scan_lem matches used es)
    where
      go : (slot : Slot E) → Scanned matches used es slot → slot ≡ full
      go (present _ _) (is_present j e there hit) =
          absurd (ground (arith, count-hit matches es j e there hit))
      go (vacant _) (is_vacant j e there idle none_match) =
          let busy : used e ≡ true = full-used used es j e all there in cc
      go full (is_full busy none_match) = refl
