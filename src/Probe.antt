-- ===== src/Probe.antt =====
-- The tracking state of the network probe (net-probe/src/mitm_trace.cpp): the entries of its four
-- tables, and the tests of their keys.
pub mod Table
pub mod Keys
pub mod Handles
pub mod Paths
pub mod Queue
pub mod Logger
pub mod Mitm
pub mod Views
pub mod Sessions
pub mod Invariant
pub mod Trace
use nx_reverse.Base.{
  ℕ, ◌-◌, Bool, true, false, not, ◌&&◌, List, [], Bytes, ℤ, pos, negsuc, replicate, take, ◌==◌,
}

abbrev pub maximum_tracked_domain_paths : ℕ
maximum_tracked_domain_paths = 256

abbrev pub maximum_domain_path_length : ℕ
maximum_domain_path_length = 96

abbrev pub maximum_tracked_sessions : ℕ
maximum_tracked_sessions = 64

abbrev pub maximum_tracked_session_handles : ℕ
maximum_tracked_session_handles = 128

abbrev pub maximum_tracked_clone_handles : ℕ
maximum_tracked_clone_handles = 128

-- `==` on `s32`
abbrev pub same_handle : ℤ → ℤ → Bool
same_handle (pos m) (pos n) = m == n
same_handle (negsuc m) (negsuc n) = m == n
same_handle _ _ = false

-- `-1`
abbrev pub no_handle : ℤ
no_handle = negsuc 0

-- What `snprintf(out, size, "%s", text)` leaves in `out`.
abbrev pub print_string : ℕ → Bytes → Bytes
print_string size text = take (size - 1) text

pub record DomainPathEntry : Type 0 where
  pub used : Bool
  pub session_id : ℕ
  pub object_id : ℕ
  pub parent_object_id : ℕ
  pub creator_command_id : ℕ
  pub created_ts_ns : ℕ
  pub close_seen_ts_ns : ℕ
  pub close_observed : Bool
  pub relative_path : Bytes

-- `ServiceName` and `MitmProcessInfo` come from the Atmosphère headers and are parameters.
pub record SessionEntry (Service Client : Type 0) : Type 0 where
  pub used : Bool
  pub service_name : Service
  pub client_info : Client
  pub session_id : ℕ

pub record SessionHandleEntry : Type 0 where
  pub used : Bool
  pub session_id : ℕ
  pub session_handle : ℤ
  pub peer_handle : ℤ
  pub forward_handle : ℤ
  pub has_forward_handle : Bool
  pub is_clone : Bool
  pub created_ts_ns : ℕ
  pub close_seen_ts_ns : ℕ
  pub close_observed : Bool

pub record CloneHandleEntry : Type 0 where
  pub used : Bool
  pub session_id : ℕ
  pub handle : ℤ
  pub server_handle : ℤ
  pub forward_handle : ℤ
  pub has_forward_handle : Bool
  pub clone_registered : Bool
  pub manager_command_id : ℕ
  pub created_ts_ns : ℕ
  pub close_seen_ts_ns : ℕ
  pub close_observed : Bool

-- `used && session_id == id`, and with the second part of each key.
abbrev pub is_path_of : ℕ → DomainPathEntry → Bool
is_path_of session e = e.used && e.session_id == session

abbrev pub is_path : ℕ → ℕ → DomainPathEntry → Bool
is_path session object e = is_path_of session e && e.object_id == object

abbrev pub is_session : {S C : Type 0} → ℕ → SessionEntry S C → Bool
is_session session e = e.used && e.session_id == session

abbrev pub is_handle_of : ℕ → SessionHandleEntry → Bool
is_handle_of session e = e.used && e.session_id == session

abbrev pub is_handle : ℕ → ℤ → SessionHandleEntry → Bool
is_handle session handle e = is_handle_of session e && same_handle e.session_handle handle

abbrev pub is_clone_of : ℕ → CloneHandleEntry → Bool
is_clone_of session e = e.used && e.session_id == session

abbrev pub is_clone_handle : ℕ → ℤ → CloneHandleEntry → Bool
is_clone_handle session handle e = is_clone_of session e && same_handle e.handle handle

-- An entry of a zero-initialised array.
abbrev pub no_path : DomainPathEntry
no_path = record {
  used = false;
  session_id = 0;
  object_id = 0;
  parent_object_id = 0;
  creator_command_id = 0;
  created_ts_ns = 0;
  close_seen_ts_ns = 0;
  close_observed = false;
  relative_path = [];
}

abbrev pub no_session : {S C : Type 0} → S → C → SessionEntry S C
no_session service client = record {
  used = false;
  service_name = service;
  client_info = client;
  session_id = 0;
}

abbrev pub no_session_handle : SessionHandleEntry
no_session_handle = record {
  used = false;
  session_id = 0;
  session_handle = no_handle;
  peer_handle = no_handle;
  forward_handle = no_handle;
  has_forward_handle = false;
  is_clone = false;
  created_ts_ns = 0;
  close_seen_ts_ns = 0;
  close_observed = false;
}

abbrev pub no_clone : CloneHandleEntry
no_clone = record {
  used = false;
  session_id = 0;
  handle = no_handle;
  server_handle = no_handle;
  forward_handle = no_handle;
  has_forward_handle = false;
  clone_registered = false;
  manager_command_id = 0;
  created_ts_ns = 0;
  close_seen_ts_ns = 0;
  close_observed = false;
}

-- `g_domain_paths`, `g_sessions`, `g_session_handles` and `g_clone_handles`, which `g_state_lock`
-- guards together.
pub record Tracking (Service Client : Type 0) : Type 0 where
  pub domain_paths : List DomainPathEntry
  pub sessions : List (SessionEntry Service Client)
  pub session_handles : List SessionHandleEntry
  pub clone_handles : List CloneHandleEntry

-- The arrays as the program starts.
abbrev pub initial_tracking : {S C : Type 0} → S → C → Tracking S C
initial_tracking service client = record {
  domain_paths = replicate maximum_tracked_domain_paths no_path;
  sessions = replicate maximum_tracked_sessions (no_session service client);
  session_handles = replicate maximum_tracked_session_handles no_session_handle;
  clone_handles = replicate maximum_tracked_clone_handles no_clone;
}
