-- ===== src/Tests/Probe.antt =====
-- Tests of the tables of net-probe/src/mitm_trace.cpp; a service is a number here, and a client too.
use nx_reverse.Base.Decimal.{decimal}
use nx_reverse.Base.{
  suc, ℕ, ◌-◌, ◌≡◌, ◌≤◌, refl, arith, false, some, List, [], ◌∷◌, take, codes, pos, length,
  get_elem?, count, ◌++◌, ◌&&◌, ◌==◌,
}
use nx_reverse.Probe.{
  DomainPathEntry, SessionEntry, SessionHandleEntry, Tracking, initial_tracking, is_handle,
  no_handle,
}
use nx_reverse.Probe.Table.{find_entry}
use nx_reverse.Probe.Paths.{
  remember_domain_path, get_relative_domain_path, get_tracked_domain_path, new_path,
  remember_returned_domain_objects, child_path,
}
use nx_reverse.Probe.Paths.Segments.{count_cmd_segments, count_cmd_segments-child_path}
use nx_reverse.Probe.Paths.Known.{get_relative_domain_path-remember, Holds}
use nx_reverse.Probe.Paths.Returned.{remember_returned_domain_objects-last}
use nx_reverse.Probe.Handles.{new_handle}
use nx_reverse.Probe.Sessions.{
  new_session, remember_session, forget_session, find_session_entry, count_sessions,
}
use nx_reverse.Probe.Sessions.Forgotten.{IsGone, SameOf, forget_session-IsGone}
use nx_reverse.Probe.Sessions.Remembered.{find_session_entry-remember, remember_session-evicts}
use nx_reverse.Probe.Invariant.{IsTracking, ArePaths}
use nx_reverse.Probe.Invariant.Whole.{initial_tracking-IsTracking}
use nx_reverse.Probe.Invariant.Run.{
  Call, session_seen, path_seen, clone_seen, session_gone, run_calls, run_calls-IsTracking,
}

abbrev start : Tracking ℕ ℕ
start = initial_tracking 0 0

start-IsTracking : IsTracking start
start-IsTracking = initial_tracking-IsTracking 0 0

abbrev calls : List (Call ℕ ℕ)
calls =
    session_seen 7 1 99
    ∷ path_seen 10 1 3 (codes "root") 0 0
    ∷ clone_seen 11 1 (pos 5) 2
    ∷ session_gone 1
    ∷ []

run_calls-IsTracking_example : IsTracking (run_calls 0 0 calls start)
run_calls-IsTracking_example = run_calls-IsTracking 0 0 calls

get_relative_domain_path-remember_example :
    get_relative_domain_path 96 1 3
      (remember_domain_path 10 1 3 (codes "root") 0 0 start.domain_paths)
    ≡ take (96 - 1) (take 95 (codes "root"))
get_relative_domain_path-remember_example =
    get_relative_domain_path-remember 96 10 1 3 (codes "root") 0 0 start.domain_paths
      start-IsTracking.paths (omega arith) (λ e. cc)

remember_returned_domain_objects-last_example :
    ArePaths
      (remember_returned_domain_objects 1 3 2 (some ((10, 0) ∷ (11, 5) ∷ [])) start.domain_paths)
    × ((e : DomainPathEntry) × (get_tracked_domain_path 1 5 (
            remember_returned_domain_objects 1 3 2
              (some ((10, 0) ∷ (11, 5) ∷ []))
              start.domain_paths)
          ≡ some e)
        × Holds
            (take 95 (
              get_relative_domain_path 96 1 3 start.domain_paths
              ++ (codes ".cmd" ++ (decimal 2 ++ (b'[' ∷ (decimal 1 ++ (b']' ∷ [])))))))
            3
            2
            e)
remember_returned_domain_objects-last_example =
    remember_returned_domain_objects-last 1 3 2 ((10, 0) ∷ []) 11 5 start.domain_paths
      start-IsTracking.paths (omega arith)

abbrev root_path : DomainPathEntry
root_path = new_path 10 1 3 (codes "root") 0 0

tracked : get_tracked_domain_path 1 3 (root_path ∷ []) ≡ some root_path
unfolding get_tracked_domain_path find_entry
tracked = refl

abbrev one_handle : SessionHandleEntry
one_handle = new_handle 10 1 (pos 4) (pos 5) no_handle false false

handle_found : find_entry (is_handle 1 (pos 4)) (one_handle ∷ []) ≡ some one_handle
unfolding find_entry
handle_found = refl

find_session_entry-remember_example :
    ((e : SessionEntry ℕ ℕ) × (find_session_entry 1 (remember_session 7 1 99 start).sessions
        ≡ some e)
      × (e.service_name ≡ 7)
      × (e.client_info ≡ 99))
    × (count_sessions (remember_session 7 1 99 start).sessions ≤ 64)
find_session_entry-remember_example = find_session_entry-remember 7 1 99 start start-IsTracking

-- A table of one session, which is in use.
abbrev crowded : Tracking ℕ ℕ
crowded = record {
  domain_paths = root_path ∷ [];
  sessions = new_session 7 1 99 ∷ [];
  session_handles = [];
  clone_handles = [];
}

crowded_full : count_sessions crowded.sessions ≡ length crowded.sessions
unfolding count_sessions
crowded_full = refl

remember_session-evicts_example :
    IsGone 1 (remember_session 8 2 98 crowded)
    × (get_elem? (remember_session 8 2 98 crowded).sessions 0 ≡ some (new_session 8 2 98))
remember_session-evicts_example =
    remember_session-evicts 8 2 98 crowded (new_session 7 1 99) crowded_full refl refl

forget_session-IsGone_example :
    IsGone 1 (forget_session 0 0 1 crowded).0
    × (count (λ e. e.used && e.session_id == 1) (forget_session 0 0 1 crowded).0.sessions ≡ 0)
    × ((forget_session 0 0 1 crowded).1 ≡ find_session_entry 1 crowded.sessions)
    × SameOf 2 3 (pos 4) crowded (forget_session 0 0 1 crowded).0
    × (find_session_entry 2 (forget_session 0 0 1 crowded).0.sessions
        ≡ find_session_entry 2 crowded.sessions)
forget_session-IsGone_example =
    forget_session-IsGone 0 0 1 2 3 (pos 4) crowded (λ e. omega arith) (omega arith)

session_found : find_session_entry 1 crowded.sessions ≡ some (new_session 7 1 99)
unfolding find_session_entry find_entry
session_found = refl

count_cmd_segments-child_path_example :
    count_cmd_segments (child_path 7 1 12 (codes "root.cmd4[0]") 3)
    ≡ suc (count_cmd_segments (codes "root.cmd4[0]"))
unfolding decimal
count_cmd_segments-child_path_example =
    count_cmd_segments-child_path 7 1 12 (codes "root.cmd4[0]") 3 (omega arith)
