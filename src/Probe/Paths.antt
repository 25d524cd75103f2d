-- ===== src/Probe/Paths.antt =====
-- The paths of domain objects in net-probe/src/mitm_trace.cpp. Each function runs under
-- `g_state_lock`; `now` is what `GetMonotonicNs` gives.
pub mod Segments
pub mod Known
pub mod Returned
use nx_reverse.Base.Decimal.{decimal}
use nx_reverse.Base.{
  ℕ, suc, ◌-◌, Bool, true, false, not, ◌&&◌, ◌||◌, Option, none, some, List, [], ◌∷◌, ◌++◌, map,
  Bytes, codes, count, take, ◌==◌, if◌then◌else◌, is_empty, is_some,
}
use nx_reverse.Probe.{
  DomainPathEntry, is_path_of, is_path, no_path, print_string, maximum_domain_path_length,
}
use nx_reverse.Probe.Table.{remember, find_entry, update_first, clear, copy}

-- One round of `ResetDomainPathState`, which leaves the other fields of the unused entry.
abbrev pub reset_path : DomainPathEntry → DomainPathEntry
reset_path e = record e { used = false; session_id = 0; object_id = 0; relative_path = [] }

-- `ResetDomainPathState`
unfoldable pub reset_domain_paths : List DomainPathEntry → List DomainPathEntry
reset_domain_paths paths = map reset_path paths

-- `ForgetDomainPathsForSessionLocked`
unfoldable pub forget_domain_paths : ℕ → List DomainPathEntry → List DomainPathEntry
forget_domain_paths session paths = clear (is_path_of session) (λ e. no_path) paths

-- `CopyTrackedDomainPathsLocked`; a null `out_entries` is room for none.
unfoldable pub copy_domain_paths : ℕ → List DomainPathEntry → List DomainPathEntry × ℕ
copy_domain_paths room paths = copy (λ e. e.used) room paths

-- The loop of `CopyTrackedDomainPathsForSessionLocked`
unfoldable pub copy_domain_paths_for_session :
    ℕ → ℕ → List DomainPathEntry → List DomainPathEntry × ℕ
copy_domain_paths_for_session session room paths = copy (is_path_of session) room paths

module _ (now session object : ℕ) (path : Bytes) (parent command : ℕ) where
  abbrev pub refreshed_path : DomainPathEntry → DomainPathEntry
  refreshed_path e = record e {
    relative_path = print_string maximum_domain_path_length path;
    parent_object_id = parent;
    creator_command_id = command;
    created_ts_ns = if e.created_ts_ns == 0 then now else e.created_ts_ns;
  }

  abbrev pub new_path : DomainPathEntry
  new_path = record {
    used = true;
    session_id = session;
    object_id = object;
    parent_object_id = parent;
    creator_command_id = command;
    created_ts_ns = now;
    close_seen_ts_ns = 0;
    close_observed = false;
    relative_path = print_string maximum_domain_path_length path;
  }

  -- `RememberDomainPath`
  unfoldable pub remember_domain_path : List DomainPathEntry → List DomainPathEntry
  remember_domain_path paths =
      if object == 0 || is_empty path
      then paths
      else (remember (is_path session object) (λ e. e.used) refreshed_path new_path paths).0

abbrev pub closed_path : ℕ → DomainPathEntry → DomainPathEntry
closed_path now e = record e { close_observed = true; close_seen_ts_ns = now }

-- `MarkDomainPathCloseObserved`, with the entry that it copies out.
unfoldable pub mark_domain_path_close_observed :
    ℕ → ℕ → ℕ → List DomainPathEntry → List DomainPathEntry × Option DomainPathEntry
mark_domain_path_close_observed now session object paths =
    if object == 0 then (paths, none) else elim (find_entry (is_path session object) paths) [
      | none ↦ (paths, none)
      | some e ↦
          (update_first (is_path session object) (closed_path now) paths, some (closed_path now e))
    ]

-- `GetTrackedDomainPath`
unfoldable pub get_tracked_domain_path : ℕ → ℕ → List DomainPathEntry → Option DomainPathEntry
get_tracked_domain_path session object paths = find_entry (is_path session object) paths

-- `GetRelativeDomainPath`, with what `%u` prints of the object.
unfoldable pub get_relative_domain_path : ℕ → ℕ → ℕ → List DomainPathEntry → Bytes
get_relative_domain_path size session object paths =
    if object == 0
    then print_string size (codes "root")
    else elim (find_entry (is_path session object) paths) [
      | none ↦ print_string size (codes "obj" ++ decimal object)
      | some e ↦ print_string size e.relative_path
    ]

-- `FormatObjectPath`
unfoldable pub format_object_path : ℕ → Bytes → ℕ → ℕ → List DomainPathEntry → Bytes
format_object_path size service session object paths =
    print_string size
      (service ++ b'.' ∷ get_relative_domain_path maximum_domain_path_length session object paths)

module _ (session parent command : ℕ) (parent_path : Bytes) where
  -- `child_relative_path` of the object returned at place `i`.
  unfoldable pub child_path : ℕ → Bytes
  child_path i =
      print_string maximum_domain_path_length
        (parent_path ++ (codes ".cmd" ++ (decimal command ++ (b'[' ∷ (decimal i ++ (b']' ∷ []))))))

  -- The loop of `RememberReturnedDomainObjects` from place `i` on: the objects, each with the time of
  -- its call.
  unfoldable pub remember_children : ℕ → List (ℕ × ℕ) → List DomainPathEntry → List DomainPathEntry
  remember_children i [] paths = paths
  remember_children i ((now, child) ∷ children) paths =
      let skipped = remember_children (suc i) children paths in
      let remembered =
        remember_children (suc i) children
          (remember_domain_path now session child (child_path i) parent command paths) in
      if child == 0 then skipped else remembered

-- `RememberReturnedDomainObjects`, on the object ids of a response, `none` where they are not valid.
unfoldable pub remember_returned_domain_objects :
    ℕ → ℕ → ℕ → Option (List (ℕ × ℕ)) → List DomainPathEntry → List DomainPathEntry
remember_returned_domain_objects session parent command none paths = paths
remember_returned_domain_objects session parent command (some children) paths =
    let parent_path = get_relative_domain_path maximum_domain_path_length session parent paths in
    remember_children session parent command parent_path 0 children paths
