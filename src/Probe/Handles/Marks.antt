-- ===== src/Probe/Handles/Marks.antt =====
-- What the counts and the lookups of handles are after `MarkSessionHandleCloseObservedLocked`,
-- `NoteCloneRegisteredLocked` and `MarkCloneClosedByServerHandleLocked` of
-- net-probe/src/mitm_trace.cpp.
use mathlib.Core.Path.{subst}
use nx_reverse.Base.{ℕ, ◌+◌, ◌≡◌, refl, sym, arith, Bool, true, false, not, some, List, ℤ}
use nx_reverse.Probe.{
  SessionHandleEntry, CloneHandleEntry, is_handle_of, is_handle, is_clone_handle,
}
use nx_reverse.Probe.Table.{find_entry}
use nx_reverse.Probe.Table.Slots.{bit}
use nx_reverse.Probe.Table.Updates.{count-update_first, find_entry-passes}
use nx_reverse.Probe.Handles.{
  HandleMark, CloneMark, is_counted_handle, count_session_handles, count_clone_handles,
  closed_handle, close_target, mark_session_handle_close_observed,
}

-- The close of a handle that is found takes it out of the active handles of its session, unless it
-- was closed before, and leaves the total.
mark_session_handle_close_observed_counts :
    (now session : ℕ) (handle : ℤ) (es : List SessionHandleEntry) (e : SessionHandleEntry)
    → find_entry (is_handle session handle) es ≡ some e
    → ((mark_session_handle_close_observed now session handle es).entry
        ≡ some (closed_handle now e))
      × ((mark_session_handle_close_observed now session handle es).remaining_active
            + bit (not e.close_observed)
          ≡ count_session_handles session true es)
      × ((mark_session_handle_close_observed now session handle es).total
          ≡ count_session_handles session false es)
unfolding mark_session_handle_close_observed close_target count_session_handles
mark_session_handle_close_observed_counts now session handle es e found =
    let hit : is_handle session handle e ≡ true =
      find_entry-passes (is_handle session handle) es e found in
    let mine : is_handle_of session e ≡ true = ground arith in
    subst (λ o. Counts (close_target now session handle es o)) (sym found)
      (
        refl,
        ground (
          arith,
          mine,
          count-update_first (is_handle session handle) (closed_handle now)
              (is_counted_handle session true) es e found,
        ),
        ground (
          arith,
          mine,
          count-update_first (is_handle session handle) (closed_handle now)
              (is_counted_handle session false) es e found,
        ),
      )
  where
    Counts : HandleMark → Type 0
    Counts mark =
        (mark.entry ≡ some (closed_handle now e))
        × (mark.remaining_active + bit (not e.close_observed)
            ≡ count_session_handles session true es)
        × (mark.total ≡ count_session_handles session false es)

-- The table and the entry that `NoteCloneRegisteredLocked` leaves.
pub record IsRegistered (session : ℕ) (client server forward : ℤ) (has_forward : Bool)
    (mark : CloneMark) : Type 0 where
  pub found_entry : CloneHandleEntry
  pub out : mark.entry ≡ some found_entry
  pub found : find_entry (is_clone_handle session client) mark.clones ≡ some found_entry
  pub server_side : found_entry.server_handle ≡ server
  pub forward_side : found_entry.forward_handle ≡ forward
  pub has_forward_side : found_entry.has_forward_handle ≡ has_forward
  pub registered : found_entry.clone_registered ≡ true
  pub is_open : found_entry.close_observed ≡ false
  pub counted : mark.active ≡ count_clone_handles session mark.clones
