-- ===== src/Probe/Table.antt =====
-- The fixed array of entries with a `used` flag that net-probe/src/mitm_trace.cpp keeps four times,
-- and the loops that its functions share.
pub mod Slots
pub mod Lookup
pub mod Updates
pub mod Keyed
use nx_reverse.Base.{
  ℕ, zero, suc, ◌+◌, Bool, true, false, not, ◌&&◌, Option, none, some, List, [], ◌∷◌, set, ltb,
  if◌then◌else◌,
}

-- What a loop over the entries ends with: an entry that matches, or the first free one, or neither.
pub data Slot (E : Type 0) : Type 0 where
  present : ℕ → E → Slot E
  vacant : ℕ → Slot E
  full : Slot E

-- `free_entry` after an entry that did not match.
abbrev pub note_free : Bool → ℕ → Option ℕ → Option ℕ
note_free used i (some j) = some j
note_free true i none = none
note_free false i none = some i

module _ {E : Type 0} where
  -- Where the loop ends when no entry matched.
  unfoldable pub end_of_scan : Option ℕ → Slot E
  end_of_scan none = full
  end_of_scan (some j) = vacant j

  module _ (matches used : E → Bool) where
    -- The loop of `Remember…` from entry `i` on, with `free_entry` so far.
    unfoldable pub scan_from : ℕ → Option ℕ → List E → Slot E
    scan_from i free [] = end_of_scan free
    scan_from i free (e ∷ es) =
        let rest = scan_from (suc i) (note_free (used e) i free) es in
        if matches e then present i e else rest

    abbrev pub scan : List E → Slot E
    scan es = scan_from 0 none es

    -- An entry that matches is refreshed; else a free one is written, and slot 0 when none is free.
    unfoldable pub remember : (E → E) → E → List E → List E × E
    remember refresh fresh es = elim (scan es) [
      | present j e ↦ (set es j (refresh e), refresh e)
      | vacant j ↦ (set es j fresh, fresh)
      | full ↦ (set es 0 fresh, fresh)
    ]

  -- The first entry that passes a test.
  unfoldable pub find_entry : (E → Bool) → List E → Option E
  find_entry p [] = none
  find_entry p (e ∷ es) = let rest = find_entry p es in if p e then some e else rest

  -- The first entry that passes a test is changed, and the loop is left.
  unfoldable pub update_first : (E → Bool) → (E → E) → List E → List E
  update_first p f [] = []
  update_first p f (e ∷ es) = let rest = update_first p f es in if p e then f e ∷ es else e ∷ rest

  -- Every entry that passes a test is cleared.
  unfoldable pub clear : (E → Bool) → (E → E) → List E → List E
  clear p cleared [] = []
  clear p cleared (e ∷ es) = (if p e then cleared e else e) ∷ clear p cleared es

  -- `out_entries[cursor] = entry` while there is room, and the count of all that pass.
  unfoldable pub copy_from : (E → Bool) → ℕ → ℕ → List E → List E × ℕ
  copy_from p room cursor [] = ([], cursor)
  copy_from p room cursor (e ∷ es) =
      let skipped = copy_from p room cursor es in
      let taken = copy_from p room (suc cursor) es in
      if not (p e) then skipped else if ltb cursor room then (e ∷ taken.0, taken.1) else taken

  abbrev pub copy : (E → Bool) → ℕ → List E → List E × ℕ
  copy p room es = copy_from p room 0 es
