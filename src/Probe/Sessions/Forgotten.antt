-- ===== src/Probe/Sessions/Forgotten.antt =====
-- What is left after a session of net-probe/src/mitm_trace.cpp is forgotten or its slot is taken.
use nx_reverse.Base.{
  ℕ, ◌+◌, ◌≤◌, Option-cases, inl, inr, ◌≡◌, ◌≢◌, refl, arith, Bool, true, false, ◌&&◌, Option, none,
  some, count, ℤ, ◌==◌,
}
use nx_reverse.Probe.{
  SessionEntry, Tracking, is_path_of, is_path, is_session, is_handle_of, is_handle, is_clone_of,
  is_clone_handle, no_path, no_session, no_session_handle, no_clone,
}
use nx_reverse.Probe.Table.{find_entry}
use nx_reverse.Probe.Table.Updates.{
  count-clear, find_entry-clear_other, find_entry-update_first_other, find_entry-passes,
  count-update_first, count-none, count-update_first_gone,
}
use nx_reverse.Probe.Table.Keyed.{at-apart}
use nx_reverse.Probe.Keys.{session_key}
use nx_reverse.Probe.Paths.{forget_domain_paths, get_tracked_domain_path}
use nx_reverse.Probe.Handles.{forget_session_handles, forget_clone_handles}
use nx_reverse.Probe.Sessions.{
  forget_of_session, forget_found, forget_session, find_session_entry, count_sessions,
}

-- The first part of a key keeps two sessions apart.
other_id :
    (u b : Bool) (own session other : ℕ)
    → session ≢ other
    → (u && own == session) ≡ true
    → ((u && own == other) && b) ≡ false
other_id u b own session other differ h = ground arith

module _ {S C : Type 0} where
  -- Nothing of a session is left in the tables of paths and handles.
  pub record IsGone (session : ℕ) (t : Tracking S C) : Type 0 where
    pub paths : count (λ e. e.used && e.session_id == session) t.domain_paths ≡ 0
    pub handles : count (λ e. e.used && e.session_id == session) t.session_handles ≡ 0
    pub clones : count (λ e. e.used && e.session_id == session) t.clone_handles ≡ 0

  -- What is found for a session's objects and handles is the same in two states.
  pub record SameOf (session object : ℕ) (handle : ℤ) (t t' : Tracking S C) : Type 0 where
    pub path :
        get_tracked_domain_path session object t'.domain_paths
        ≡ get_tracked_domain_path session object t.domain_paths
    pub session_handle :
        find_entry (is_handle session handle) t'.session_handles
        ≡ find_entry (is_handle session handle) t.session_handles
    pub clone_handle :
        find_entry (is_clone_handle session handle) t'.clone_handles
        ≡ find_entry (is_clone_handle session handle) t.clone_handles

  pub forget_of_session-IsGone :
      (session : ℕ) (t : Tracking S C) → IsGone session (forget_of_session session t)
  unfolding forget_of_session forget_domain_paths forget_session_handles forget_clone_handles
  forget_of_session-IsGone session t = record {
    paths = count-clear (is_path_of session) (λ e. no_path) t.domain_paths (λ e. refl);
    handles =
        count-clear (is_handle_of session) (λ e. no_session_handle) t.session_handles (λ e. refl);
    clones = count-clear (is_clone_of session) (λ e. no_clone) t.clone_handles (λ e. refl);
  }

  pub forget_of_session-SameOf :
      (session other object : ℕ) (handle : ℤ) (t : Tracking S C)
      → session ≢ other
      → SameOf other object handle t (forget_of_session session t)
  unfolding forget_of_session forget_domain_paths forget_session_handles forget_clone_handles
      get_tracked_domain_path
  forget_of_session-SameOf session other object handle t differ = record {
    path =
        find_entry-clear_other (is_path_of session) (λ e. no_path) (is_path other object)
          t.domain_paths (λ e m. other_id e.used _ e.session_id session other differ m)
          (λ e m. refl);
    session_handle =
        find_entry-clear_other (is_handle_of session) (λ e. no_session_handle)
          (is_handle other handle) t.session_handles
          (λ e m. other_id e.used _ e.session_id session other differ m) (λ e m. refl);
    clone_handle =
        find_entry-clear_other (is_clone_of session) (λ e. no_clone) (is_clone_handle other handle)
          t.clone_handles (λ e m. other_id e.used _ e.session_id session other differ m)
          (λ e m. refl);
  }

  module _ (no_service : S) (no_client : C) where
    -- What is gone of a forgotten session, and what stays of another.
    forget_session-SameOf :
        (session other object : ℕ) (handle : ℤ) (t : Tracking S C)
        → session ≢ other
        → IsGone session (forget_session no_service no_client session t).0
          × SameOf other object handle t (forget_session no_service no_client session t).0
          × (find_session_entry other (forget_session no_service no_client session t).0.sessions
              ≡ find_session_entry other t.sessions)
    unfolding forget_session forget_found find_session_entry forget_of_session
    forget_session-SameOf session other object handle t differ =
        go (find_entry (is_session session) t.sessions)
      where
        gone : IsGone session (forget_of_session session t)
        gone = forget_of_session-IsGone session t

        same : SameOf other object handle t (forget_of_session session t)
        same = forget_of_session-SameOf session other object handle t differ

        go :
            (o : Option (SessionEntry S C))
            → IsGone session (forget_found no_service no_client session t o).0
              × SameOf other object handle t (forget_found no_service no_client session t o).0
              × (find_entry
                    (is_session other)
                    (forget_found no_service no_client session t o).0.sessions
                  ≡ find_entry (is_session other) t.sessions)
        go none = (gone, same, refl)
        go (some e) = (
          record { paths = gone.paths; handles = gone.handles; clones = gone.clones },
          record {
            path = same.path;
            session_handle = same.session_handle;
            clone_handle = same.clone_handle;
          },
          find_entry-update_first_other (is_session session) (λ x. no_session no_service no_client)
              (is_session other) t.sessions (λ x m. at-apart session_key session other x differ m)
              (λ x m. refl),
        )

    -- The table of sessions after a session is forgotten, and the entry that is copied out.
    forget_session-sessions :
        (session : ℕ) (t : Tracking S C)
        → count (is_session session) t.sessions ≤ 1
        → (count (is_session session) (forget_session no_service no_client session t).0.sessions
            ≡ 0)
          × ((forget_session no_service no_client session t).1
              ≡ find_session_entry session t.sessions)
    unfolding forget_session forget_found find_session_entry forget_of_session
    forget_session-sessions session t one =
        elim (Option-cases (find_entry (is_session session) t.sessions)) [
          | inl absent ↦ rw absent (count-none (is_session session) t.sessions absent, refl)
          | inr (e, found) ↦ rw found (
            count-update_first_gone (is_session session) (λ x. no_session no_service no_client)
                t.sessions one (λ x. refl),
            refl,
          )
        ]

    -- After a session is forgotten it has no path, no handle and no entry left, where at most one
    -- entry was in use for it, its entry is what is copied out, and nothing if it was not tracked, and
    -- what is found for another session, its own entry included, is as before.
    pub forget_session-IsGone :
        (session other object : ℕ) (handle : ℤ) (t : Tracking S C)
        → session ≢ other
        → count (λ e. e.used && e.session_id == session) t.sessions ≤ 1
        → IsGone session (forget_session no_service no_client session t).0
          × (count
                (λ e. e.used && e.session_id == session)
                (forget_session no_service no_client session t).0.sessions
              ≡ 0)
          × ((forget_session no_service no_client session t).1
              ≡ find_session_entry session t.sessions)
          × SameOf other object handle t (forget_session no_service no_client session t).0
          × (find_session_entry other (forget_session no_service no_client session t).0.sessions
              ≡ find_session_entry other t.sessions)
    forget_session-IsGone session other object handle t differ one =
        let (gone, same, own) = forget_session-SameOf session other object handle t differ in
        let (left, copied) = forget_session-sessions session t one in
        (gone, left, copied, same, own)

    -- Forgetting a tracked session copies out its entry and takes one off the count of sessions.
    count_sessions-forget :
        (session : ℕ) (t : Tracking S C) (e : SessionEntry S C)
        → find_session_entry session t.sessions ≡ some e
        → ((forget_session no_service no_client session t).1 ≡ some e)
          × (count_sessions (forget_session no_service no_client session t).0.sessions + 1
              ≡ count_sessions t.sessions)
    unfolding forget_session forget_found find_session_entry count_sessions
    count_sessions-forget session t e found = rw found (
      refl,
      (let busy : e.used ≡ true =
            session_key.at_used session e
              (find_entry-passes (is_session session) t.sessions e found) in
          let idle : SessionEntry S C = no_session no_service no_client in
          ground (
            arith,
            busy,
            count-update_first (is_session session) (λ x. idle) (λ x. x.used) t.sessions e found,
          )),
    )
