-- ===== src/Probe/Paths/Known.antt =====
-- What a lookup of a path gives after `RememberDomainPath` and `MarkDomainPathCloseObserved` of
-- net-probe/src/mitm_trace.cpp.
use mathlib.Core.Path.{subst}
use nx_reverse.Base.{
  ℕ, ◌-◌, ◌<◌, ◌≡◌, ◌≢◌, ◌⊎◌, inl, inr, refl, sym, arith, false, ◌||◌, some, List, [], ◌∷◌, take,
  count, Bytes, ◌==◌, is_empty, Bool-cases,
}
use nx_reverse.Probe.{DomainPathEntry, is_path}
use nx_reverse.Probe.Table.{remember}
use nx_reverse.Probe.Table.Lookup.{remember-entry}
use nx_reverse.Probe.Table.Updates.{
  find_entry-passes, find_entry-update_first, find_entry-update_first_other,
}
use nx_reverse.Probe.Table.Keyed.{find_entry-remember_key, find_entry-remember_key_other, at-apart}
use nx_reverse.Probe.Keys.{path_key}
use nx_reverse.Probe.Paths.{
  refreshed_path, new_path, remember_domain_path, closed_path, mark_domain_path_close_observed,
  get_tracked_domain_path, get_relative_domain_path,
}
use nx_reverse.Probe.Invariant.{ArePaths}

-- An entry with what a call of `RememberDomainPath` wrote.
pub record Holds (path : Bytes) (parent command : ℕ) (e : DomainPathEntry) : Type 0 where
  pub text : e.relative_path ≡ take 95 path
  pub parent_object : e.parent_object_id ≡ parent
  pub creator : e.creator_command_id ≡ command

usable_lem :
    (object : ℕ) (path : Bytes) → object ≢ 0 → path ≢ [] → (object == 0 || is_empty path) ≡ false
usable_lem object [] o p = absurd (p refl)
usable_lem object (c ∷ path) o p = ground arith

-- A path that was remembered is found, with its first 95 bytes, its parent and its creator.
pub get_tracked_domain_path-remember :
    (now session object : ℕ) (path : Bytes) (parent command : ℕ) (es : List DomainPathEntry)
    → ArePaths es
    → object ≢ 0
    → path ≢ []
    → (e : DomainPathEntry) × (get_tracked_domain_path session object
          (remember_domain_path now session object path parent command es)
        ≡ some e)
      × Holds path parent command e
unfolding get_tracked_domain_path remember_domain_path
get_tracked_domain_path-remember now session object path parent command es h some_object some_path =
    let usable : (object == 0 || is_empty path) ≡ false =
      usable_lem object path some_object some_path in
    let refresh = refreshed_path now session object path parent command in
    let fresh = new_path now session object path parent command in
    rw usable (
      (remember (is_path session object) (λ e. e.used) refresh fresh es).1,
      find_entry-remember_key path_key (session, object) refresh fresh (λ e m. m) (ground arith) es
          (omega (arith, h.size)) h.unique,
      remember-entry (Holds path parent command) (is_path session object) (λ e. e.used) refresh
          fresh es (λ e. record { text = refl; parent_object = refl; creator = refl })
          (record { text = refl; parent_object = refl; creator = refl }),
    )

-- The path that is printed for an object that was remembered is what was remembered, cut to the
-- two buffers.
pub get_relative_domain_path-remember :
    (size now session object : ℕ) (path : Bytes) (parent command : ℕ) (es : List DomainPathEntry)
    → ArePaths es
    → object ≢ 0
    → path ≢ []
    → get_relative_domain_path size session object
        (remember_domain_path now session object path parent command es)
      ≡ take (size - 1) (take 95 path)
unfolding get_relative_domain_path get_tracked_domain_path
get_relative_domain_path-remember size now session object path parent command es h o p =
    let (e, found, holds) =
      get_tracked_domain_path-remember now session object path parent command es h o p in
    let there : (object == 0) ≡ false = ground arith in rw (there, found, holds.text) refl

-- Remembering one object's path leaves what is found for every other, unless all 256 entries are in
-- use and the object is a new one.
get_tracked_domain_path-remember_other :
    (now session object : ℕ) (path : Bytes) (parent command other_session other_object : ℕ)
    (es : List DomainPathEntry)
    → ArePaths es
    → ◌≢◌ {A = ℕ × ℕ} (session, object) (other_session, other_object)
    → (0 < count (is_path session object) es) ⊎ (count (λ e. e.used) es < 256)
    → get_tracked_domain_path other_session other_object
        (remember_domain_path now session object path parent command es)
      ≡ get_tracked_domain_path other_session other_object es
unfolding get_tracked_domain_path remember_domain_path
get_tracked_domain_path-remember_other now session object path parent command s o es h differ room =
    elim (Bool-cases (object == 0 || is_empty path)) [
      | inl bad ↦ rw bad refl
      | inr good ↦ rw good (
          find_entry-remember_key_other path_key (session, object)
            (refreshed_path now session object path parent command)
            (new_path now session object path parent command) (λ e m. m) (ground arith) es
            (omega (arith, h.size)) h.unique (s, o) differ
            (subst (λ n. (0 < count (is_path session object) es) ⊎ (count (λ e. e.used) es < n))
              (sym h.size) room))
    ]

-- An object that is found is found closed after its close was seen, with the time of the call, which
-- is also what the call copies out; every other object is found as before.
get_tracked_domain_path-mark :
    (now session object other_session other_object : ℕ) (es : List DomainPathEntry)
    (e : DomainPathEntry)
    → object ≢ 0
    → get_tracked_domain_path session object es ≡ some e
    → ◌≢◌ {A = ℕ × ℕ} (session, object) (other_session, other_object)
    → ((mark_domain_path_close_observed now session object es).1 ≡ some (closed_path now e))
      × (get_tracked_domain_path session object
            (mark_domain_path_close_observed now session object es).0
          ≡ some (closed_path now e))
      × (get_tracked_domain_path other_session other_object
            (mark_domain_path_close_observed now session object es).0
          ≡ get_tracked_domain_path other_session other_object es)
unfolding get_tracked_domain_path mark_domain_path_close_observed
get_tracked_domain_path-mark now session object s o es e some_object found differ =
    let there : (object == 0) ≡ false = ground arith in
    rw (there, found)
      (
        refl,
        find_entry-update_first (is_path session object) (closed_path now) es e found
            (find_entry-passes (is_path session object) es e found),
        find_entry-update_first_other (is_path session object) (closed_path now) (is_path s o) es
            (λ x m. at-apart path_key (session, object) (s, o) x differ m)
            (λ x m. at-apart path_key (session, object) (s, o) x differ m),
      )
