-- ===== src/Probe/Mitm/Sessions.antt =====
-- The sessions of `bsd:s` that net-probe/src/mitm_service.cpp counts, from the query to the end of
-- the service object. What the server manager answers is an argument.
pub mod Counted
use nx_reverse.Base.{ℕ, zero, suc, Bool, not, codes, equal, ◌==◌, if◌then◌else◌}
use nx_reverse.Probe.Mitm.{PortIndex, service_name_text, MitmState, increment}

-- What `DecrementAtomicIfPositive` leaves: its loop ends with one exchange of the value that it
-- read for the one before, or at 0, whatever other threads do in between.
abbrev pub decrement_atomic_if_positive : ℕ → ℕ
decrement_atomic_if_positive zero = 0
decrement_atomic_if_positive (suc n) = n

abbrev pub is_bsd_system_service_name : PortIndex → Bool
is_bsd_system_service_name port = equal (service_name_text port) (codes "bsd:s")

unfoldable pub promote_bsd_system_mitm_pending_to_active : MitmState → MitmState
promote_bsd_system_mitm_pending_to_active s = record s {
  pending_mitm_sessions = decrement_atomic_if_positive s.pending_mitm_sessions;
  active_mitm_sessions = increment s.active_mitm_sessions;
}

unfoldable pub drop_bsd_system_mitm_pending : MitmState → MitmState
drop_bsd_system_mitm_pending s = record s {
  pending_mitm_sessions = decrement_atomic_if_positive s.pending_mitm_sessions;
}

unfoldable pub drop_bsd_system_mitm_active : MitmState → MitmState
drop_bsd_system_mitm_active s = record s {
  active_mitm_sessions = decrement_atomic_if_positive s.active_mitm_sessions;
}

-- `AcceptMitmConnection`, with the results of `AcknowledgeMitmSession` and `AcceptMitmImpl`.
unfoldable pub accept_mitm_connection : PortIndex → ℕ → ℕ → MitmState → ℕ × MitmState
accept_mitm_connection port acknowledge_rc rc s =
    if not (acknowledge_rc == 0)
    then (
      acknowledge_rc,
      if is_bsd_system_service_name port then drop_bsd_system_mitm_pending s else s,
    )
    else if not (rc == 0)
    then (rc, if is_bsd_system_service_name port then drop_bsd_system_mitm_pending s else s)
    else (
      0,
      if is_bsd_system_service_name port then promote_bsd_system_mitm_pending_to_active s else s,
    )

-- `~PassiveMitmService`
unfoldable pub passive_mitm_service_destructor : PortIndex → MitmState → MitmState
passive_mitm_service_destructor port s =
    if is_bsd_system_service_name port then drop_bsd_system_mitm_active s else s
