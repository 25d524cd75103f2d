-- ===== src/Probe/Invariant/Whole.antt =====
-- Remembering and forgetting a session, and the reset, in net-probe/src/mitm_trace.cpp keep the
-- invariant of the tables.
use mathlib.Core.Path.{subst}
use nx_reverse.Base.{
  ℕ, zero, suc, ◌≡◌, refl, sym, ◌∙◌, arith, false, Option, none, some, List, [], ◌∷◌,
  length-replicate, get_elem?, set, replicate, count,
}
use nx_reverse.Probe.{
  DomainPathEntry, SessionHandleEntry, CloneHandleEntry, SessionEntry, Tracking, is_session,
  no_path, no_session, no_session_handle, no_clone, initial_tracking,
}
use nx_reverse.Probe.Table.{Slot, present, vacant, full, scan, remember, find_entry}
use nx_reverse.Probe.Table.Updates.{length-update_first, count-update_first_le}
use nx_reverse.Probe.Table.Keyed.{Key, at-idle}
use nx_reverse.Probe.Keys.{path_key, session_key, handle_key, clone_key}
use nx_reverse.Probe.Paths.{reset_path, reset_domain_paths}
use nx_reverse.Probe.Handles.{reset_session_handles, reset_clone_handles}
use nx_reverse.Probe.Sessions.{
  known_session, new_session, forget_of_session, evict_session, remember_at, remember_session,
  reset_tracking, reset_sessions, forget_found, forget_session,
}
use nx_reverse.Probe.Invariant.{
  IsTable, remember-IsTable, map-IsTable, IsTracking, ArePaths, AreHandles, AreClones,
}
use nx_reverse.Probe.Invariant.Steps.{forget_of_session-IsTracking}

module _ {S C : Type 0} where
  -- One table is exchanged.
  pub put_sessions :
      {t : Tracking S C}
      → {es : List (SessionEntry S C)} → IsTracking t
      → IsTable session_key 64 es
      → IsTracking (record t { sessions = es })
  put_sessions h x = record {
    paths = h.paths;
    sessions = x;
    handles = h.handles;
    clones = h.clones;
  }

  pub put_paths :
      {t : Tracking S C}
      → {es : List DomainPathEntry} → IsTracking t
      → ArePaths es
      → IsTracking (record t { domain_paths = es })
  put_paths h x = record {
    paths = x;
    sessions = h.sessions;
    handles = h.handles;
    clones = h.clones;
  }

  pub put_handles :
      {t : Tracking S C}
      → {es : List SessionHandleEntry} → IsTracking t
      → AreHandles es
      → IsTracking (record t { session_handles = es })
  put_handles h x = record {
    paths = h.paths;
    sessions = h.sessions;
    handles = x;
    clones = h.clones;
  }

  pub put_clones :
      {t : Tracking S C}
      → {es : List CloneHandleEntry} → IsTracking t
      → AreClones es
      → IsTracking (record t { clone_handles = es })
  put_clones h x = record {
    paths = h.paths;
    sessions = h.sessions;
    handles = h.handles;
    clones = x;
  }

  evict_session-sessions :
      (t : Tracking S C) (fresh : SessionEntry S C)
      → (evict_session t fresh (get_elem? t.sessions 0)).sessions ≡ set t.sessions 0 fresh
  unfolding evict_session forget_of_session
  evict_session-sessions t fresh = go t.sessions _ refl refl
    where
      go :
          (xs : List (SessionEntry S C)) (o : Option (SessionEntry S C))
          → t.sessions ≡ xs
          → get_elem? xs 0 ≡ o
          → (evict_session t fresh o).sessions ≡ set t.sessions 0 fresh
      go [] none same e = rw same refl
      go (x ∷ xs) none same e = cc
      go xs (some old) same e = refl

  -- The sessions afterwards are those of a `Remember…` loop.
  pub remember_session-sessions :
      (service : S) (session : ℕ) (client : C) (t : Tracking S C)
      → (remember_session service session client t).sessions
        ≡ (remember
            (is_session session)
            (λ e. e.used)
            (known_session service client)
            (new_session service session client)
            t.sessions).0
  unfolding remember_session remember_at remember forget_of_session
  remember_session-sessions service session client t =
      go (scan (is_session session) (λ e. e.used) t.sessions)
    where
      fresh : SessionEntry S C
      fresh = new_session service session client

      go :
          (slot : Slot (SessionEntry S C))
          → (remember_at service session client t slot).sessions
            ≡ (elim slot as (λ _. List (SessionEntry S C) × SessionEntry S C) [
              | present j e ↦ (
                set t.sessions j (known_session service client e),
                known_session service client e,
              )
              | vacant j ↦ (set t.sessions j fresh, fresh)
              | full ↦ (set t.sessions 0 fresh, fresh)
            ]).0
      go (present j e) = refl
      go (vacant j) = refl
      go full = evict_session-sessions t fresh

  evict_session-IsTracking :
      (t : Tracking S C) (fresh : SessionEntry S C) (o : Option (SessionEntry S C))
      → IsTracking t
      → IsTable session_key 64 (evict_session t fresh o).sessions
      → IsTracking (evict_session t fresh o)
  unfolding evict_session
  evict_session-IsTracking t fresh none h sessions = h
  evict_session-IsTracking t fresh (some old) h sessions =
      put_sessions (forget_of_session-IsTracking old.session_id t h) sessions

  pub remember_session-IsTracking :
      (service : S) (session : ℕ) (client : C) (t : Tracking S C)
      → IsTracking t
      → IsTracking (remember_session service session client t)
  unfolding remember_session remember_at
  remember_session-IsTracking service session client t h =
      go (scan (is_session session) (λ e. e.used) t.sessions) sessions_after
    where
      sessions_after : IsTable session_key 64 (remember_session service session client t).sessions
      sessions_after =
          subst (IsTable session_key 64) (sym (remember_session-sessions service session client t))
            (remember-IsTable session_key 64 (omega arith) session (known_session service client)
              (new_session service session client) (λ e m. m) (ground arith) t.sessions h.sessions)

      go :
          (slot : Slot (SessionEntry S C))
          → IsTable session_key 64 (remember_at service session client t slot).sessions
          → IsTracking (remember_at service session client t slot)
      go (present j e) sessions = put_sessions h sessions
      go (vacant j) sessions = put_sessions h sessions
      go full sessions = evict_session-IsTracking t _ _ h sessions

  module _ (no_service : S) (no_client : C) where
    pub forget_session-IsTracking :
        (session : ℕ) (t : Tracking S C)
        → IsTracking t
        → IsTracking (forget_session no_service no_client session t).0
    unfolding forget_session forget_found
    forget_session-IsTracking session t h = go (find_entry (is_session session) t.sessions)
      where
        idle : SessionEntry S C
        idle = no_session no_service no_client

        go :
            (o : Option (SessionEntry S C))
            → IsTracking (forget_found no_service no_client session t o).0
        go none = forget_of_session-IsTracking session t h
        go (some e) = put_sessions (forget_of_session-IsTracking session t h) (record {
          size = length-update_first (is_session session) (λ e. idle) t.sessions ∙ h.sessions.size;
          unique = λ k. omega (
            arith,
            count-update_first_le (is_session session) (λ e. idle) (is_session k) t.sessions
                (λ e. refl),
            h.sessions.unique k,
          );
        })

    pub reset_tracking-IsTracking :
        (t : Tracking S C) → IsTracking t → IsTracking (reset_tracking no_service no_client t)
    unfolding reset_tracking reset_domain_paths reset_sessions reset_session_handles
        reset_clone_handles
    reset_tracking-IsTracking t h = record {
      paths =
          map-IsTable path_key 256 (omega arith) reset_path t.domain_paths (λ e. refl) h.paths.size;
      sessions =
          map-IsTable session_key 64 (omega arith) (λ e. no_session no_service no_client) t.sessions
            (λ e. refl) h.sessions.size;
      handles =
          map-IsTable handle_key 128 (omega arith) (λ e. no_session_handle) t.session_handles
            (λ e. refl) h.handles.size;
      clones =
          map-IsTable clone_key 128 (omega arith) (λ e. no_clone) t.clone_handles (λ e. refl)
            h.clones.size;
    }

    replicate-IsTable :
        {E K : Type 0} (key : Key E K) (capacity : ℕ) (idle : E)
        → key.used idle ≡ false
        → IsTable key capacity (replicate capacity idle)
    replicate-IsTable {K = K} key capacity idle h = record {
      size = length-replicate capacity idle;
      unique = λ k. omega (arith, none_at k capacity);
    }
      where
        none_at : (k : K) (n : ℕ) → count (key.at k) (replicate n idle) ≡ 0
        none_at k zero = refl
        none_at k (suc n) = rw (at-idle key k idle h) (omega (arith, none_at k n))

    pub initial_tracking-IsTracking : IsTracking (initial_tracking no_service no_client)
    initial_tracking-IsTracking = record {
      paths = replicate-IsTable path_key 256 no_path refl;
      sessions = replicate-IsTable session_key 64 (no_session no_service no_client) refl;
      handles = replicate-IsTable handle_key 128 no_session_handle refl;
      clones = replicate-IsTable clone_key 128 no_clone refl;
    }
