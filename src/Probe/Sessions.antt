-- ===== src/Probe/Sessions.antt =====
-- The tracked sessions in net-probe/src/mitm_trace.cpp, and the functions on all four tables.
pub mod Forgotten
pub mod Remembered
use nx_reverse.Base.{
  ℕ, Bool, true, false, not, ◌&&◌, Option, none, some, List, [], ◌∷◌, map, count, get_elem?, set,
  ◌==◌, if◌then◌else◌,
}
use nx_reverse.Probe.{SessionEntry, DomainPathEntry, Tracking, is_session, no_session}
use nx_reverse.Probe.Table.{Slot, present, vacant, full, scan, find_entry, update_first, copy}
use nx_reverse.Probe.Paths.{reset_domain_paths, forget_domain_paths, copy_domain_paths_for_session}
use nx_reverse.Probe.Handles.{
  reset_session_handles, reset_clone_handles, forget_session_handles, forget_clone_handles,
}

-- `FindCapturedSessionEntry`, on the first `entry_count` entries of a copy.
unfoldable pub find_captured_session_entry :
    {S C : Type 0} → ℕ → List (SessionEntry S C) → Option (SessionEntry S C)
find_captured_session_entry session entries = find_entry (is_session session) entries

module _ {S C : Type 0} where
  -- `CountTrackedSessionsLocked`
  unfoldable pub count_sessions : List (SessionEntry S C) → ℕ
  count_sessions sessions = count (λ e. e.used) sessions

  -- `FindSessionEntryLocked`
  unfoldable pub find_session_entry : ℕ → List (SessionEntry S C) → Option (SessionEntry S C)
  find_session_entry session sessions = find_entry (is_session session) sessions

  -- `CopyTrackedSessionsLocked`; a null `out_entries` is room for none.
  unfoldable pub copy_sessions : ℕ → List (SessionEntry S C) → List (SessionEntry S C) × ℕ
  copy_sessions room sessions = copy (λ e. e.used) room sessions

  abbrev pub known_session : S → C → SessionEntry S C → SessionEntry S C
  known_session service client e = record e { service_name = service; client_info = client }

  abbrev pub new_session : S → ℕ → C → SessionEntry S C
  new_session service session client = record {
    used = true;
    service_name = service;
    client_info = client;
    session_id = session;
  }

  -- The three calls of `Forget…ForSessionLocked`.
  unfoldable pub forget_of_session : ℕ → Tracking S C → Tracking S C
  forget_of_session session t = record t {
    domain_paths = forget_domain_paths session t.domain_paths;
    session_handles = forget_session_handles session t.session_handles;
    clone_handles = forget_clone_handles session t.clone_handles;
  }

  -- Slot 0, with the entry that is in it, is written over when the table is full; its session is
  -- forgotten first.
  unfoldable pub evict_session :
      Tracking S C → SessionEntry S C → Option (SessionEntry S C) → Tracking S C
  evict_session t fresh none = t
  evict_session t fresh (some old) = record (forget_of_session old.session_id t) {
    sessions = set t.sessions 0 fresh;
  }

  module _ (service : S) (session : ℕ) (client : C) (t : Tracking S C) where
    -- What is done with the slot that the loop ends with.
    unfoldable pub remember_at : Slot (SessionEntry S C) → Tracking S C
    remember_at (present j e) = record t {
      sessions = set t.sessions j (known_session service client e);
    }
    remember_at (vacant j) = record t {
      sessions = set t.sessions j (new_session service session client);
    }
    remember_at full = evict_session t (new_session service session client) (get_elem? t.sessions 0)

    -- `RememberSessionLocked`; its result is `count_sessions` of the sessions that it leaves.
    unfoldable pub remember_session : Tracking S C
    remember_session = remember_at (scan (is_session session) (λ e. e.used) t.sessions)

  -- The two values `{}` that the source assigns.
  module _ (no_service : S) (no_client : C) where
    -- `ResetSessionState`
    unfoldable pub reset_sessions : List (SessionEntry S C) → List (SessionEntry S C)
    reset_sessions sessions = map (λ e. no_session no_service no_client) sessions

    -- The four calls in `Initialize`.
    unfoldable pub reset_tracking : Tracking S C → Tracking S C
    reset_tracking t = record {
      domain_paths = reset_domain_paths t.domain_paths;
      sessions = reset_sessions t.sessions;
      session_handles = reset_session_handles t.session_handles;
      clone_handles = reset_clone_handles t.clone_handles;
    }

    -- What is done with the entry that the loop finds, or when it finds none.
    unfoldable pub forget_found :
        ℕ → Tracking S C → Option (SessionEntry S C) → Tracking S C × Option (SessionEntry S C)
    forget_found session t none = (forget_of_session session t, none)
    forget_found session t (some e) = (
      record (forget_of_session session t) {
        sessions =
            update_first (is_session session) (λ e. no_session no_service no_client) t.sessions;
      },
      some e,
    )

    -- `ForgetSessionLocked`, with the entry that it copies out where the session was tracked; the
    -- remaining count is `count_sessions` of the sessions that it leaves.
    unfoldable pub forget_session : ℕ → Tracking S C → Tracking S C × Option (SessionEntry S C)
    forget_session session t = forget_found session t (find_entry (is_session session) t.sessions)

    -- `CopyTrackedDomainPathsForSessionLocked`, with the session entry that it copies out.
    unfoldable pub copy_session_domain_paths :
        ℕ → ℕ → Tracking S C → SessionEntry S C × (List DomainPathEntry × ℕ)
    copy_session_domain_paths session room t = (
      elim (find_session_entry session t.sessions) [
        | none ↦ no_session no_service no_client
        | some e ↦ e
      ],
      copy_domain_paths_for_session session room t.domain_paths,
    )
