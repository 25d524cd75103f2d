-- ===== src/Probe/Sessions/Remembered.antt =====
-- What `RememberSessionLocked` of net-probe/src/mitm_trace.cpp leaves.
use mathlib.Core.Path.{subst}
use nx_reverse.Base.{
  ℕ, ◌≤◌, ◌≡◌, refl, sym, arith, some, List, length, count, count-le-length, get_elem?,
}
use nx_reverse.Probe.{SessionEntry, Tracking, is_session}
use nx_reverse.Probe.Table.{full, scan, remember, find_entry}
use nx_reverse.Probe.Table.Slots.{scan_full}
use nx_reverse.Probe.Table.Lookup.{remember-entry, get_elem?-set_same}
use nx_reverse.Probe.Table.Keyed.{find_entry-remember_key}
use nx_reverse.Probe.Keys.{session_key}
use nx_reverse.Probe.Sessions.{
  known_session, new_session, evict_session, remember_at, remember_session, find_session_entry,
  count_sessions,
}
use nx_reverse.Probe.Sessions.Forgotten.{IsGone, forget_of_session-IsGone}
use nx_reverse.Probe.Invariant.{IsTracking}
use nx_reverse.Probe.Invariant.Whole.{remember_session-sessions, remember_session-IsTracking}

module _ {S C : Type 0} where
  -- A session that was remembered is found, with the service and the client of the call, and no more
  -- than 64 sessions are counted.
  pub find_session_entry-remember :
      (service : S) (session : ℕ) (client : C) (t : Tracking S C)
      → IsTracking t
      → ((e : SessionEntry S C) × (find_session_entry session
              (remember_session service session client t).sessions
            ≡ some e)
          × (e.service_name ≡ service)
          × (e.client_info ≡ client))
        × (count_sessions (remember_session service session client t).sessions ≤ 64)
  unfolding find_session_entry count_sessions
  find_session_entry-remember service session client t h = (
    subst
        (λ es.
          (e : SessionEntry S C) × (find_entry (is_session session) es ≡ some e)
          × (e.service_name ≡ service)
          × (e.client_info ≡ client))
        (sym (remember_session-sessions service session client t))
        (
          remembered.1,
          find_entry-remember_key session_key session known fresh (λ e m. m) (ground arith)
              t.sessions (omega (arith, h.sessions.size)) h.sessions.unique,
          remember-entry (λ e. e.service_name ≡ service) (is_session session) (λ e. e.used) known
              fresh t.sessions (λ e. refl) refl,
          remember-entry (λ e. e.client_info ≡ client) (is_session session) (λ e. e.used) known
              fresh t.sessions (λ e. refl) refl,
        ),
    omega (
      arith,
      count-le-length (λ e. e.used) (remember_session service session client t).sessions,
      (remember_session-IsTracking service session client t h).sessions.size,
    ),
  )
    where
      known : SessionEntry S C → SessionEntry S C
      known = known_session service client

      fresh : SessionEntry S C
      fresh = new_session service session client

      remembered : List (SessionEntry S C) × SessionEntry S C
      remembered = remember (is_session session) (λ e. e.used) known fresh t.sessions

  -- When every slot is in use, a session that is not among them takes slot 0, and nothing of the
  -- session that was there is left in the other tables.
  pub remember_session-evicts :
      (service : S) (session : ℕ) (client : C) (t : Tracking S C) (old : SessionEntry S C)
      → count_sessions t.sessions ≡ length t.sessions
      → count (is_session session) t.sessions ≡ 0
      → get_elem? t.sessions 0 ≡ some old
      → IsGone old.session_id (remember_session service session client t)
        × (get_elem? (remember_session service session client t).sessions 0
            ≡ some (new_session service session client))
  unfolding remember_session remember_at evict_session count_sessions
  remember_session-evicts service session client t old all unknown there =
      let is_full : scan (is_session session) (λ e. e.used) t.sessions ≡ full =
        scan_full (is_session session) (λ e. e.used) t.sessions all unknown in
      let gone = forget_of_session-IsGone old.session_id t in
      subst (λ slot. Taken (remember_at service session client t slot)) (sym is_full)
        (subst (λ o. Taken (evict_session t (new_session service session client) o)) (sym there)
          (
            record { paths = gone.paths; handles = gone.handles; clones = gone.clones },
            get_elem?-set_same t.sessions 0 old (new_session service session client) there,
          ))
    where
      Taken : Tracking S C → Type 0
      Taken after =
          IsGone old.session_id after
          × (get_elem? after.sessions 0 ≡ some (new_session service session client))
