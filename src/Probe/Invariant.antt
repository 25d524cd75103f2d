-- ===== src/Probe/Invariant.antt =====
-- The invariant of the four tables of net-probe/src/mitm_trace.cpp, and that every function that
-- changes them keeps it.
pub mod Steps
pub mod Whole
pub mod Run
use mathlib.Core.Path.{subst}
use nx_reverse.Base.{
  ℕ, zero, suc, ◌+◌, ◌<◌, ◌≤◌, ◌≡◌, ◌≢◌, inl, inr, refl, sym, ap, ◌∙◌, arith, Bool, true, false,
  not, ◌&&◌, ◌||◌, Option, none, some, List, [], ◌∷◌, map, length, length-map, length-set, count,
  Bytes, ℤ, get_elem?, set, if◌then◌else◌, Bool-cases, Option-cases, is_empty, replicate, ◌==◌,
}
use nx_reverse.Probe.{
  DomainPathEntry, SessionEntry, SessionHandleEntry, CloneHandleEntry, Tracking, is_path_of,
  is_path, is_session, is_handle_of, is_handle, is_clone_of, is_clone_handle, no_path, no_session,
  no_session_handle, no_clone, same_handle, initial_tracking,
}
use nx_reverse.Probe.Table.{
  Slot, present, vacant, full, scan, remember, find_entry, update_first, clear,
}
use nx_reverse.Probe.Table.Lookup.{remember-length}
use nx_reverse.Probe.Table.Updates.{length-clear, length-update_first}
use nx_reverse.Probe.Table.Keyed.{
  Key, Unique, at-idle, remember-Unique, clear-Unique, update_first-Unique,
}
use nx_reverse.Probe.Keys.{path_key, session_key, handle_key, clone_key, same_handle_refl}
use nx_reverse.Probe.Paths.{
  reset_path, reset_domain_paths, forget_domain_paths, refreshed_path, new_path,
  remember_domain_path, closed_path, mark_domain_path_close_observed,
}
use nx_reverse.Probe.Handles.{
  HandleMark, CloneMark, reset_session_handles, reset_clone_handles, forget_session_handles,
  forget_clone_handles, refreshed_clone, new_clone, remember_clone_handle, refreshed_handle,
  new_handle, remember_session_handle, closed_handle, mark_session_handle_close_observed,
  registered_clone, register_target, note_clone_registered, is_open_server, closed_clone,
  mark_clone_closed,
}

-- A table of a fixed size in which no key has two entries.
pub record IsTable {E K : Type 0} (key : Key E K) (capacity : ℕ) (es : List E) : Type 0 where
  pub size : length es ≡ capacity
  pub unique : Unique key es

module _ {E K : Type 0} (key : Key E K) (capacity : ℕ) (room : 0 < capacity) where
  pub remember-IsTable :
      (k : K) (refresh : E → E) (fresh : E)
      → ((e : E) → key.at k e ≡ true → key.at k (refresh e) ≡ true)
      → key.at k fresh ≡ true
      → (es : List E) → IsTable key capacity es
      → IsTable key capacity (remember (key.at k) key.used refresh fresh es).0
  remember-IsTable k refresh fresh refreshed written es h = record {
    size =
        remember-length (key.at k) key.used refresh fresh (key.at_used k) refreshed written es
          (omega (arith, h.size))
        ∙ h.size;
    unique =
        remember-Unique key k refresh fresh refreshed written es (omega (arith, h.size)) h.unique;
  }

  pub clear-IsTable :
      (p : E → Bool) (cleared : E) (es : List E)
      → key.used cleared ≡ false
      → IsTable key capacity es
      → IsTable key capacity (clear p (λ e. cleared) es)
  clear-IsTable p cleared es idle h = record {
    size = length-clear p (λ e. cleared) es ∙ h.size;
    unique = clear-Unique key p cleared es idle h.unique;
  }

  pub update_first-IsTable :
      (p : E → Bool) (f : E → E) (es : List E)
      → ((l : K) (e : E) → p e ≡ true → key.at l (f e) ≡ key.at l e)
      → IsTable key capacity es
      → IsTable key capacity (update_first p f es)
  update_first-IsTable p f es same h = record {
    size = length-update_first p f es ∙ h.size;
    unique = update_first-Unique key p f es same h.unique;
  }

  -- A table of entries that are not in use.
  pub map-IsTable :
      (f : E → E) (es : List E)
      → ((e : E) → key.used (f e) ≡ false)
      → length es ≡ capacity
      → IsTable key capacity (map f es)
  map-IsTable f es idle size = record {
    size = length-map es f ∙ size;
    unique = λ k. omega (arith, none_at k es);
  }
    where
      none_at : (k : K) (es : List E) → count (key.at k) (map f es) ≡ 0
      none_at k [] = refl
      none_at k (e ∷ es) = rw (at-idle key k (f e) (idle e)) (omega (arith, none_at k es))

abbrev pub ArePaths : List DomainPathEntry → Type 0
ArePaths = IsTable path_key 256

abbrev pub AreHandles : List SessionHandleEntry → Type 0
AreHandles = IsTable handle_key 128

abbrev pub AreClones : List CloneHandleEntry → Type 0
AreClones = IsTable clone_key 128

-- The arrays keep their sizes, and there is at most one entry in use for a session and an object, a
-- session, a session and a handle, and a session and a client handle.
pub record IsTracking {S C : Type 0} (t : Tracking S C) : Type 0 where
  pub paths : ArePaths t.domain_paths
  pub sessions : IsTable session_key 64 t.sessions
  pub handles : AreHandles t.session_handles
  pub clones : AreClones t.clone_handles
