-- ===== src/Probe/Table/Keyed.antt =====
-- A table of net-probe/src/mitm_trace.cpp whose entries in use have different keys.
use mathlib.Core.Path.{subst}
use nx_reverse.Base.{
  ◌<◌, ◌≤◌, ◌≡◌, ◌≢◌, ◌⊎◌, inl, inr, arith, Bool, true, false, some, List, length, count,
  Bool-cases,
}
use nx_reverse.Probe.Table.{remember, find_entry, clear, update_first}
use nx_reverse.Probe.Table.Lookup.{
  remember-count, remember-count_other, find_entry-remember, find_entry-remember_other,
}
use nx_reverse.Probe.Table.Updates.{count-clear_le, count-update_first_other}

-- The test of a key: only an entry in use passes it, and for one key.
pub record Key (E K : Type 0) : Type 0 where
  pub at : K → E → Bool
  pub used : E → Bool
  pub at_used : (k : K) (e : E) → at k e ≡ true → used e ≡ true
  pub at_same : (k l : K) (e : E) → at k e ≡ true → at l e ≡ true → k ≡ l

module _ {E K : Type 0} (key : Key E K) where
  -- No key has two entries.
  abbrev pub Unique : List E → Type 0
  Unique es = (k : K) → count (key.at k) es ≤ 1

  pub at-apart : (k l : K) (e : E) → k ≢ l → key.at k e ≡ true → key.at l e ≡ false
  at-apart k l e differ here = elim (Bool-cases (key.at l e)) [
    | inl there ↦ absurd (differ (key.at_same k l e here there))
    | inr miss ↦ miss
  ]

  pub at-idle : (k : K) (e : E) → key.used e ≡ false → key.at k e ≡ false
  at-idle k e idle = elim (Bool-cases (key.at k e)) [
    | inl hit ↦ let busy : key.used e ≡ true = key.at_used k e hit in cc
    | inr miss ↦ miss
  ]

  module _ (k : K) (refresh : E → E) (fresh : E)
      (refreshed : (e : E) → key.at k e ≡ true → key.at k (refresh e) ≡ true)
      (written : key.at k fresh ≡ true) (es : List E) (room : 0 < length es)
      (unique : Unique es) where
    pub remember-Unique : Unique (remember (key.at k) key.used refresh fresh es).0
    remember-Unique l = elim (Bool-cases (key.at l fresh)) [
      | inl same ↦
          let e : k ≡ l = key.at_same k l fresh written same in
          subst (λ m. count (key.at m) (remember (key.at k) key.used refresh fresh es).0 ≤ 1) e
            (omega (
              arith,
              remember-count (key.at k) key.used refresh fresh (key.at_used k) refreshed written es
                  room (unique k),
            ))
      | inr other ↦
          let differ : k ≢ l = λ e. ne (subst (λ m. key.at m fresh ≡ true) e written) other in
          omega (
            arith,
            remember-count_other (key.at k) key.used refresh fresh (key.at_used k) refreshed written
                es room (key.at l) (key.at_used l) (λ e. at-apart k l e differ),
            unique l,
          )
    ]
      where
        ne : {b : Bool} → b ≡ true → b ≡ false → ⊥
        ne h i = cc

    -- The key is found, with the entry that was returned.
    pub find_entry-remember_key :
        find_entry (key.at k) (remember (key.at k) key.used refresh fresh es).0
        ≡ some (remember (key.at k) key.used refresh fresh es).1
    find_entry-remember_key =
        find_entry-remember (key.at k) key.used refresh fresh (key.at_used k) refreshed written es
          room (unique k)

    -- Another key is found as before while the table has room or knows the key.
    pub find_entry-remember_key_other :
        (l : K)
        → k ≢ l
        → (0 < count (key.at k) es) ⊎ (count key.used es < length es)
        → find_entry (key.at l) (remember (key.at k) key.used refresh fresh es).0
          ≡ find_entry (key.at l) es
    find_entry-remember_key_other l differ not_full =
        find_entry-remember_other (key.at k) key.used refresh fresh (key.at_used k) refreshed
          written es room (key.at l) (key.at_used l) (λ e. at-apart k l e differ) not_full

  pub clear-Unique :
      (p : E → Bool) (cleared : E) (es : List E)
      → key.used cleared ≡ false
      → Unique es
      → Unique (clear p (λ e. cleared) es)
  clear-Unique p cleared es idle unique l =
      omega (
        arith,
        count-clear_le p (λ e. cleared) (key.at l) es (λ e. at-idle l cleared idle),
        unique l,
      )

  pub update_first-Unique :
      (p : E → Bool) (f : E → E) (es : List E)
      → ((l : K) (e : E) → p e ≡ true → key.at l (f e) ≡ key.at l e)
      → Unique es
      → Unique (update_first p f es)
  update_first-Unique p f es same unique l =
      omega (arith, count-update_first_other p f (key.at l) es (same l), unique l)
