-- ===== src/Probe/Handles.antt =====
-- The session handles and the cloned handles in net-probe/src/mitm_trace.cpp. `now` is what
-- `GetMonotonicNs` gives.
pub mod Marks
use nx_reverse.Base.{
  ℕ, Bool, true, false, not, ◌&&◌, Option, none, some, List, [], ◌∷◌, map, ℤ, count, ◌==◌,
  if◌then◌else◌,
}
use nx_reverse.Probe.{
  SessionHandleEntry, CloneHandleEntry, is_handle_of, is_handle, is_clone_of, is_clone_handle,
  no_session_handle, no_clone, no_handle, same_handle,
}
use nx_reverse.Probe.Table.{remember, find_entry, update_first, clear, copy}

-- `ResetSessionHandleState` and `ResetCloneHandleState`
unfoldable pub reset_session_handles : List SessionHandleEntry → List SessionHandleEntry
reset_session_handles handles = map (λ e. no_session_handle) handles

unfoldable pub reset_clone_handles : List CloneHandleEntry → List CloneHandleEntry
reset_clone_handles clones = map (λ e. no_clone) clones

-- `ForgetSessionHandlesForSessionLocked` and `ForgetCloneHandlesForSessionLocked`
unfoldable pub forget_session_handles : ℕ → List SessionHandleEntry → List SessionHandleEntry
forget_session_handles session handles =
    clear (is_handle_of session) (λ e. no_session_handle) handles

unfoldable pub forget_clone_handles : ℕ → List CloneHandleEntry → List CloneHandleEntry
forget_clone_handles session clones = clear (is_clone_of session) (λ e. no_clone) clones

abbrev pub is_active_clone : ℕ → CloneHandleEntry → Bool
is_active_clone session e = is_clone_of session e && not e.close_observed

-- `CountTrackedCloneHandlesForSessionLocked`
unfoldable pub count_clone_handles : ℕ → List CloneHandleEntry → ℕ
count_clone_handles session clones = count (is_active_clone session) clones

-- `CopyTrackedCloneHandlesForSessionLocked`; a null `out_entries` is room for none.
unfoldable pub copy_clone_handles : ℕ → ℕ → List CloneHandleEntry → List CloneHandleEntry × ℕ
copy_clone_handles session room clones = copy (is_active_clone session) room clones

abbrev pub is_counted_handle : ℕ → Bool → SessionHandleEntry → Bool
is_counted_handle session active_only e =
    is_handle_of session e && not (active_only && e.close_observed)

-- `CountTrackedSessionHandlesForSessionLocked`
unfoldable pub count_session_handles : ℕ → Bool → List SessionHandleEntry → ℕ
count_session_handles session active_only handles =
    count (is_counted_handle session active_only) handles

abbrev pub refreshed_clone : ℕ → ℕ → CloneHandleEntry → CloneHandleEntry
refreshed_clone now command e = record e {
  manager_command_id = command;
  created_ts_ns = if e.created_ts_ns == 0 then now else e.created_ts_ns;
  close_observed = false;
  close_seen_ts_ns = 0;
}

abbrev pub new_clone : ℕ → ℕ → ℤ → ℕ → CloneHandleEntry
new_clone now session handle command = record {
  used = true;
  session_id = session;
  handle = handle;
  server_handle = no_handle;
  forward_handle = no_handle;
  has_forward_handle = false;
  clone_registered = false;
  manager_command_id = command;
  created_ts_ns = now;
  close_seen_ts_ns = 0;
  close_observed = false;
}

-- `RememberCloneHandleLocked`, with the entry that it returns.
unfoldable pub remember_clone_handle :
    ℕ → ℕ → ℤ → ℕ → List CloneHandleEntry → List CloneHandleEntry × CloneHandleEntry
remember_clone_handle now session handle command clones =
    remember (is_clone_handle session handle) (λ e. e.used) (refreshed_clone now command)
      (new_clone now session handle command) clones

module _ (now session : ℕ) (handle peer forward : ℤ) (has_forward is_clone : Bool) where
  abbrev pub refreshed_handle : SessionHandleEntry → SessionHandleEntry
  refreshed_handle e = record e {
    peer_handle = peer;
    forward_handle = forward;
    has_forward_handle = has_forward;
    is_clone = is_clone;
    created_ts_ns = if e.created_ts_ns == 0 then now else e.created_ts_ns;
    close_observed = false;
    close_seen_ts_ns = 0;
  }

  abbrev pub new_handle : SessionHandleEntry
  new_handle = record {
    used = true;
    session_id = session;
    session_handle = handle;
    peer_handle = peer;
    forward_handle = forward;
    has_forward_handle = has_forward;
    is_clone = is_clone;
    created_ts_ns = now;
    close_seen_ts_ns = 0;
    close_observed = false;
  }

  -- `RememberSessionHandleLocked`, with the entry that it returns.
  unfoldable pub remember_session_handle :
      List SessionHandleEntry → List SessionHandleEntry × SessionHandleEntry
  remember_session_handle handles =
      remember (is_handle session handle) (λ e. e.used) refreshed_handle new_handle handles

-- What a `…Locked` function on handles leaves and writes to its out parameters: the table, the
-- entry where one was found, and the counts.
pub record HandleMark : Type 0 where
  pub handles : List SessionHandleEntry
  pub entry : Option SessionHandleEntry
  pub remaining_active : ℕ
  pub total : ℕ

pub record CloneMark : Type 0 where
  pub clones : List CloneHandleEntry
  pub entry : Option CloneHandleEntry
  pub active : ℕ

abbrev pub counted : ℕ → List SessionHandleEntry → Option SessionHandleEntry → HandleMark
counted session handles entry = record {
  handles = handles;
  entry = entry;
  remaining_active = count_session_handles session true handles;
  total = count_session_handles session false handles;
}

abbrev pub counted_clones : ℕ → List CloneHandleEntry → Option CloneHandleEntry → CloneMark
counted_clones session clones entry = record {
  clones = clones;
  entry = entry;
  active = count_clone_handles session clones;
}

abbrev pub closed_handle : ℕ → SessionHandleEntry → SessionHandleEntry
closed_handle now e = record e { close_observed = true; close_seen_ts_ns = now }

-- What is done with the entry that the loop finds, and the counts behind the loop.
unfoldable pub close_target :
    ℕ → ℕ → ℤ → List SessionHandleEntry → Option SessionHandleEntry → HandleMark
close_target now session handle handles none = counted session handles none
close_target now session handle handles (some e) =
    counted session (update_first (is_handle session handle) (closed_handle now) handles)
      (some (closed_handle now e))

-- `MarkSessionHandleCloseObservedLocked`; the result is whether there is an entry.
unfoldable pub mark_session_handle_close_observed : ℕ → ℕ → ℤ → List SessionHandleEntry → HandleMark
mark_session_handle_close_observed now session handle handles =
    close_target now session handle handles (find_entry (is_handle session handle) handles)

abbrev pub registered_clone : ℤ → ℤ → Bool → CloneHandleEntry → CloneHandleEntry
registered_clone server forward has_forward e = record e {
  server_handle = server;
  forward_handle = forward;
  has_forward_handle = has_forward;
  clone_registered = true;
  close_observed = false;
  close_seen_ts_ns = 0;
}

module _ (now session : ℕ) (client server forward : ℤ) (has_forward : Bool) where
  -- The end of `NoteCloneRegisteredLocked`, from the test of `target` on.
  unfoldable pub register_target : List CloneHandleEntry → Option CloneHandleEntry → CloneMark
  register_target clones none = counted_clones session clones none
  register_target clones (some e) =
      counted_clones session
        (update_first (is_clone_handle session client) (registered_clone server forward has_forward)
          clones)
        (some (registered_clone server forward has_forward e))

  -- Where the first search finds nothing the handle is remembered. The second search is for the
  -- key of the entry that `RememberCloneHandleLocked` returned, which is `session` and `client`.
  unfoldable pub register_found : List CloneHandleEntry → Option CloneHandleEntry → CloneMark
  register_found clones (some e) = register_target clones (some e)
  register_found clones none =
      let remembered = (remember_clone_handle now session client 0 clones).0 in
      register_target remembered (find_entry (is_clone_handle session client) remembered)

  -- `NoteCloneRegisteredLocked`
  unfoldable pub note_clone_registered : List CloneHandleEntry → CloneMark
  note_clone_registered clones =
      register_found clones (find_entry (is_clone_handle session client) clones)

abbrev pub is_open_server : ℕ → ℤ → CloneHandleEntry → Bool
is_open_server session server e =
    is_clone_of session e && same_handle e.server_handle server && not e.close_observed

abbrev pub closed_clone : ℕ → CloneHandleEntry → CloneHandleEntry
closed_clone now e = record e { close_observed = true; close_seen_ts_ns = now }

-- What is done with the entry that the loop finds, and the count behind the loop.
unfoldable pub close_clone_target :
    ℕ → ℕ → ℤ → List CloneHandleEntry → Option CloneHandleEntry → CloneMark
close_clone_target now session server clones none = counted_clones session clones none
close_clone_target now session server clones (some e) =
    counted_clones session (update_first (is_open_server session server) (closed_clone now) clones)
      (some (closed_clone now e))

-- `MarkCloneClosedByServerHandleLocked`
unfoldable pub mark_clone_closed : ℕ → ℕ → ℤ → List CloneHandleEntry → CloneMark
mark_clone_closed now session server clones =
    close_clone_target now session server clones (find_entry (is_open_server session server) clones)
