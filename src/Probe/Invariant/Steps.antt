-- ===== src/Probe/Invariant/Steps.antt =====
-- Every function of net-probe/src/mitm_trace.cpp that changes the tables keeps their invariant.
use nx_reverse.Base.{
  ℕ, inl, inr, refl, arith, Bool, ◌||◌, Option, none, some, List, Bytes, ℤ, Bool-cases,
  Option-cases, is_empty, ◌==◌,
}
use nx_reverse.Probe.{
  DomainPathEntry, SessionHandleEntry, CloneHandleEntry, Tracking, is_path_of, is_path,
  is_handle_of, is_handle, is_clone_of, is_clone_handle, no_path, no_session_handle, no_clone,
}
use nx_reverse.Probe.Table.{find_entry}
use nx_reverse.Probe.Keys.{path_key, handle_key, clone_key, same_handle_refl}
use nx_reverse.Probe.Paths.{
  forget_domain_paths, refreshed_path, new_path, remember_domain_path, closed_path,
  mark_domain_path_close_observed,
}
use nx_reverse.Probe.Handles.{
  forget_session_handles, forget_clone_handles, refreshed_clone, new_clone, remember_clone_handle,
  refreshed_handle, new_handle, remember_session_handle, closed_handle,
  mark_session_handle_close_observed, registered_clone, register_target, note_clone_registered,
  is_open_server, closed_clone, mark_clone_closed, close_target, close_clone_target, register_found,
}
use nx_reverse.Probe.Sessions.{forget_of_session}
use nx_reverse.Probe.Invariant.{
  remember-IsTable, clear-IsTable, update_first-IsTable, ArePaths, AreHandles, AreClones,
  IsTracking,
}

pub remember_domain_path-ArePaths :
    (now session object : ℕ) (path : Bytes) (parent command : ℕ) (es : List DomainPathEntry)
    → ArePaths es
    → ArePaths (remember_domain_path now session object path parent command es)
unfolding remember_domain_path
remember_domain_path-ArePaths now session object path parent command es h =
    elim (Bool-cases (object == 0 || is_empty path)) [
      | inl bad ↦ rw bad h
      | inr good ↦ rw good (
          remember-IsTable path_key 256 (omega arith) (session, object)
            (refreshed_path now session object path parent command)
            (new_path now session object path parent command) (λ e m. m) (ground arith) es h)
    ]

pub mark_domain_path_close_observed-ArePaths :
    (now session object : ℕ) (es : List DomainPathEntry)
    → ArePaths es
    → ArePaths (mark_domain_path_close_observed now session object es).0
unfolding mark_domain_path_close_observed
mark_domain_path_close_observed-ArePaths now session object es h = elim (Bool-cases (object == 0)) [
  | inl bad ↦ rw bad h
  | inr good ↦ rw good (elim (Option-cases (find_entry (is_path session object) es)) [
    | inl nothing ↦ rw nothing h
    | inr (e, found) ↦ rw found (
        update_first-IsTable path_key 256 (omega arith) (is_path session object) (closed_path now)
          es (λ l e m. refl) h)
  ])
]

pub remember_session_handle-AreHandles :
    (now session : ℕ) (handle peer forward : ℤ) (has_forward is_clone : Bool)
    (es : List SessionHandleEntry)
    → AreHandles es
    → AreHandles (remember_session_handle now session handle peer forward has_forward is_clone es).0
unfolding remember_session_handle
remember_session_handle-AreHandles now session handle peer forward has_forward is_clone es h =
    remember-IsTable handle_key 128 (omega arith) (session, handle)
      (refreshed_handle now session handle peer forward has_forward is_clone)
      (new_handle now session handle peer forward has_forward is_clone) (λ e m. m)
      (ground (arith, same_handle_refl handle)) es h

pub mark_session_handle_close_observed-AreHandles :
    (now session : ℕ) (handle : ℤ) (es : List SessionHandleEntry)
    → AreHandles es
    → AreHandles (mark_session_handle_close_observed now session handle es).handles
unfolding mark_session_handle_close_observed close_target
mark_session_handle_close_observed-AreHandles now session handle es h =
    go (find_entry (is_handle session handle) es)
  where
    go : (o : Option SessionHandleEntry) → AreHandles (close_target now session handle es o).handles
    go none = h
    go (some e) =
        update_first-IsTable handle_key 128 (omega arith) (is_handle session handle)
          (closed_handle now) es (λ l e m. refl) h

pub remember_clone_handle-AreClones :
    (now session : ℕ) (handle : ℤ) (command : ℕ) (es : List CloneHandleEntry)
    → AreClones es
    → AreClones (remember_clone_handle now session handle command es).0
unfolding remember_clone_handle
remember_clone_handle-AreClones now session handle command es h =
    remember-IsTable clone_key 128 (omega arith) (session, handle) (refreshed_clone now command)
      (new_clone now session handle command) (λ e m. m) (ground (arith, same_handle_refl handle)) es
      h

register_target-AreClones :
    (now session : ℕ) (client server forward : ℤ) (has_forward : Bool) (es : List CloneHandleEntry)
    (o : Option CloneHandleEntry)
    → AreClones es
    → AreClones (register_target now session client server forward has_forward es o).clones
unfolding register_target
register_target-AreClones now session client server forward has_forward es none h = h
register_target-AreClones now session client server forward has_forward es (some e) h =
    update_first-IsTable clone_key 128 (omega arith) (is_clone_handle session client)
      (registered_clone server forward has_forward) es (λ l e m. refl) h

pub note_clone_registered-AreClones :
    (now session : ℕ) (client server forward : ℤ) (has_forward : Bool) (es : List CloneHandleEntry)
    → AreClones es
    → AreClones (note_clone_registered now session client server forward has_forward es).clones
unfolding note_clone_registered register_found
note_clone_registered-AreClones now session client server forward has_forward es h =
    go (find_entry (is_clone_handle session client) es)
  where
    go :
        (o : Option CloneHandleEntry)
        → AreClones (register_found now session client server forward has_forward es o).clones
    go none =
        register_target-AreClones now session client server forward has_forward _ _
          (remember_clone_handle-AreClones now session client 0 es h)
    go (some e) =
        register_target-AreClones now session client server forward has_forward es (some e) h

pub mark_clone_closed-AreClones :
    (now session : ℕ) (server : ℤ) (es : List CloneHandleEntry)
    → AreClones es
    → AreClones (mark_clone_closed now session server es).clones
unfolding mark_clone_closed close_clone_target
mark_clone_closed-AreClones now session server es h =
    go (find_entry (is_open_server session server) es)
  where
    go :
        (o : Option CloneHandleEntry)
        → AreClones (close_clone_target now session server es o).clones
    go none = h
    go (some e) =
        update_first-IsTable clone_key 128 (omega arith) (is_open_server session server)
          (closed_clone now) es (λ l e m. refl) h

module _ {S C : Type 0} where
  pub forget_of_session-IsTracking :
      (session : ℕ) (t : Tracking S C) → IsTracking t → IsTracking (forget_of_session session t)
  unfolding forget_of_session forget_domain_paths forget_session_handles forget_clone_handles
  forget_of_session-IsTracking session t h = record {
    paths =
        clear-IsTable path_key 256 (omega arith) (is_path_of session) no_path t.domain_paths refl
          h.paths;
    sessions = h.sessions;
    handles =
        clear-IsTable handle_key 128 (omega arith) (is_handle_of session) no_session_handle
          t.session_handles refl h.handles;
    clones =
        clear-IsTable clone_key 128 (omega arith) (is_clone_of session) no_clone t.clone_handles
          refl h.clones;
  }
