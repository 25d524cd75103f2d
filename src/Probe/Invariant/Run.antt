-- ===== src/Probe/Invariant/Run.antt =====
-- The functions of net-probe/src/mitm_trace.cpp that change the tables, in any order. Each holds
-- `g_state_lock` while it runs, so the calls of all threads are one sequence.
use nx_reverse.Base.{ℕ, Bool, List, [], ◌∷◌, Bytes, ℤ}
use nx_reverse.Probe.{Tracking, initial_tracking}
use nx_reverse.Probe.Paths.{
  reset_domain_paths, remember_domain_path, mark_domain_path_close_observed,
}
use nx_reverse.Probe.Handles.{
  reset_session_handles, reset_clone_handles, remember_clone_handle, remember_session_handle,
  mark_session_handle_close_observed, note_clone_registered, mark_clone_closed,
}
use nx_reverse.Probe.Sessions.{reset_sessions, reset_tracking, remember_session, forget_session}
use nx_reverse.Probe.Invariant.{IsTracking}
use nx_reverse.Probe.Invariant.Steps.{
  remember_domain_path-ArePaths, mark_domain_path_close_observed-ArePaths,
  remember_session_handle-AreHandles, mark_session_handle_close_observed-AreHandles,
  remember_clone_handle-AreClones, note_clone_registered-AreClones, mark_clone_closed-AreClones,
}
use nx_reverse.Probe.Invariant.Whole.{
  put_paths, put_sessions, put_handles, put_clones, remember_session-IsTracking,
  forget_session-IsTracking, reset_tracking-IsTracking, initial_tracking-IsTracking,
}

-- A call, with the time that the clock gives to it.
pub data Call (S C : Type 0) : Type 0 where
  paths_reset sessions_reset handles_reset clones_reset : Call S C
  session_seen : S → ℕ → C → Call S C
  session_gone : ℕ → Call S C
  path_seen : ℕ → ℕ → ℕ → Bytes → ℕ → ℕ → Call S C
  path_closed : ℕ → ℕ → ℕ → Call S C
  handle_seen : ℕ → ℕ → ℤ → ℤ → ℤ → Bool → Bool → Call S C
  handle_closed : ℕ → ℕ → ℤ → Call S C
  clone_seen : ℕ → ℕ → ℤ → ℕ → Call S C
  clone_registered : ℕ → ℕ → ℤ → ℤ → ℤ → Bool → Call S C
  clone_closed : ℕ → ℕ → ℤ → Call S C

module _ {S C : Type 0} (no_service : S) (no_client : C) where
  abbrev pub apply_call : Call S C → Tracking S C → Tracking S C
  apply_call paths_reset t = record t { domain_paths = reset_domain_paths t.domain_paths }
  apply_call sessions_reset t = record t {
    sessions = reset_sessions no_service no_client t.sessions;
  }
  apply_call handles_reset t = record t {
    session_handles = reset_session_handles t.session_handles;
  }
  apply_call clones_reset t = record t { clone_handles = reset_clone_handles t.clone_handles }
  apply_call (session_seen service session client) t = remember_session service session client t
  apply_call (session_gone session) t = (forget_session no_service no_client session t).0
  apply_call (path_seen now session object path parent command) t = record t {
    domain_paths = remember_domain_path now session object path parent command t.domain_paths;
  }
  apply_call (path_closed now session object) t = record t {
    domain_paths = (mark_domain_path_close_observed now session object t.domain_paths).0;
  }
  apply_call (handle_seen now session handle peer forward has_forward is_clone) t = record t {
    session_handles =
        (remember_session_handle now session handle peer forward has_forward is_clone
          t.session_handles).0;
  }
  apply_call (handle_closed now session handle) t = record t {
    session_handles =
        (mark_session_handle_close_observed now session handle t.session_handles).handles;
  }
  apply_call (clone_seen now session handle command) t = record t {
    clone_handles = (remember_clone_handle now session handle command t.clone_handles).0;
  }
  apply_call (clone_registered now session client server forward has_forward) t = record t {
    clone_handles =
        (note_clone_registered now session client server forward has_forward
          t.clone_handles).clones;
  }
  apply_call (clone_closed now session server) t = record t {
    clone_handles = (mark_clone_closed now session server t.clone_handles).clones;
  }

  abbrev pub run_calls : List (Call S C) → Tracking S C → Tracking S C
  run_calls [] t = t
  run_calls (c ∷ cs) t = run_calls cs (apply_call c t)

  apply_call-IsTracking :
      (c : Call S C) (t : Tracking S C) → IsTracking t → IsTracking (apply_call c t)
  unfolding reset_tracking
  apply_call-IsTracking paths_reset t h =
      put_paths h (reset_tracking-IsTracking no_service no_client t h).paths
  apply_call-IsTracking sessions_reset t h =
      put_sessions h (reset_tracking-IsTracking no_service no_client t h).sessions
  apply_call-IsTracking handles_reset t h =
      put_handles h (reset_tracking-IsTracking no_service no_client t h).handles
  apply_call-IsTracking clones_reset t h =
      put_clones h (reset_tracking-IsTracking no_service no_client t h).clones
  apply_call-IsTracking (session_seen service session client) t h =
      remember_session-IsTracking service session client t h
  apply_call-IsTracking (session_gone session) t h =
      forget_session-IsTracking no_service no_client session t h
  apply_call-IsTracking (path_seen now session object path parent command) t h =
      put_paths h (
        remember_domain_path-ArePaths now session object path parent command t.domain_paths h.paths)
  apply_call-IsTracking (path_closed now session object) t h =
      put_paths h
        (mark_domain_path_close_observed-ArePaths now session object t.domain_paths h.paths)
  apply_call-IsTracking (handle_seen now session handle peer forward has_forward is_clone) t h =
      put_handles h (
        remember_session_handle-AreHandles now session handle peer forward has_forward is_clone
          t.session_handles h.handles)
  apply_call-IsTracking (handle_closed now session handle) t h =
      put_handles h (
        mark_session_handle_close_observed-AreHandles now session handle t.session_handles
          h.handles)
  apply_call-IsTracking (clone_seen now session handle command) t h =
      put_clones h
        (remember_clone_handle-AreClones now session handle command t.clone_handles h.clones)
  apply_call-IsTracking (clone_registered now session client server forward has_forward) t h =
      put_clones h (
        note_clone_registered-AreClones now session client server forward has_forward
          t.clone_handles h.clones)
  apply_call-IsTracking (clone_closed now session server) t h =
      put_clones h (mark_clone_closed-AreClones now session server t.clone_handles h.clones)

  run_calls-lem :
      (cs : List (Call S C)) (t : Tracking S C) → IsTracking t → IsTracking (run_calls cs t)
  run_calls-lem [] t h = h
  run_calls-lem (c ∷ cs) t h = run_calls-lem cs (apply_call c t) (apply_call-IsTracking c t h)

  -- Whatever the calls of the threads are and in whatever order they come, from the start of the
  -- program on the four arrays keep their sizes and no key has two entries in use.
  pub run_calls-IsTracking :
      (cs : List (Call S C)) → IsTracking (run_calls cs (initial_tracking no_service no_client))
  run_calls-IsTracking cs = run_calls-lem cs _ (initial_tracking-IsTracking no_service no_client)
