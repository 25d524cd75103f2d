-- ===== src/Probe/Mitm/Policy.antt =====
-- `ShouldMitm*` in net-probe/src/mitm_service.cpp: which clients of which services the probe takes
-- over. The reads of the atomic counters during one query are one reading here.
pub mod Recorded
pub mod Shipped
pub mod Ordinals
use nx_reverse.Base.{
  ℕ, ◌%◌, ◌^◌, Bool, true, false, not, ◌&&◌, ◌||◌, List, [], ◌∷◌, ◌++◌, Bytes, codes, equal, ◌==◌,
  if◌then◌else◌,
}
use nx_reverse.Probe.Mitm.{
  Programs, BuildConfig, NifmSystemMitmTarget, no_target, only_nim, only_qlaunch, all,
  ToolboxForwarderBsdMitmMode, no_session, first_only, second_only, both, mode_value, PortIndex,
  nifm_user, nifm_system, bsd_user, bsd_system, bsd_admin, ssl_user, ssl_system,
  notification_system, MitmProcessInfo, ShouldMitmPolicyReason, default_allow, self_program,
  diagnostic_override, toolbox_forwarder_ordinal_deny, nifm_system_not_targeted,
  bsd_system_not_allowlisted, MitmState, increment, wireguard_program_id, net_probe_program_id,
  sphaira_wrapper_program_id,
}

abbrev pub is_self_program : MitmProcessInfo → Bool
is_self_program client =
    client.program_id == wireguard_program_id || client.program_id == net_probe_program_id

-- `IsBsdSystemServiceNameText`, of a name that is no null pointer.
abbrev pub is_bsd_system_service_name_text : Bytes → Bool
is_bsd_system_service_name_text service = equal service (codes "bsd:s")

-- The first switch of the program, false if there is none.
unfoldable pub switch_of : ℕ → List (ℕ × Bool) → Bool
switch_of program [] = false
switch_of program ((p, allowed) ∷ switches) =
    let rest = switch_of program switches in if program == p then allowed else rest

abbrev pub when : Bool → List (ℕ × Bool) → List (ℕ × Bool)
when b switches = if b then switches else []

unfoldable pub record_decision :
    Bytes → MitmProcessInfo → Bool → ShouldMitmPolicyReason → ℕ → ℕ → ℕ → ℕ → MitmState → MitmState
record_decision service client answer reason pending active tag detail s = record s {
  decisions =
      record {
        service_name = service;
        client_info = client;
        result = answer;
        reason = reason;
        pending_count = pending;
        active_count = active;
        total_denials = s.total_mitm_denials % 2 ^ 32;
        holder_tag = tag;
        detail_value3 = detail;
      }
      ∷ s.decisions;
}

-- `GetToolboxForwarderBsdMitmMode`'s cases in `ShouldMitmToolboxForwarderBsdOrdinal`.
abbrev pub allows_ordinal : ToolboxForwarderBsdMitmMode → ℕ → Bool
allows_ordinal no_session ordinal = false
allows_ordinal first_only ordinal = ordinal == 1
allows_ordinal second_only ordinal = ordinal == 2
allows_ordinal both ordinal = true

-- The part under `g_toolbox_forwarder_bsd_ordinal_lock`.
unfoldable pub count_ordinal : MitmProcessInfo → MitmState → MitmState
count_ordinal client s = record s {
  ordinal_pid = client.process_id;
  ordinal_count = increment (if s.ordinal_pid == client.process_id then s.ordinal_count else 0);
}

unfoldable pub note_bsd_system_mitm_pending : MitmState → MitmState
note_bsd_system_mitm_pending s = record s {
  pending_mitm_sessions = increment s.pending_mitm_sessions;
}

unfoldable pub should_mitm_for_service : Bytes → MitmProcessInfo → MitmState → Bool × MitmState
should_mitm_for_service service client s =
    let should_mitm = not (is_self_program client) in
    (
      should_mitm,
      record_decision service client should_mitm
          (if should_mitm then default_allow else self_program)
          (if is_bsd_system_service_name_text service then s.pending_mitm_sessions else 0)
          (if is_bsd_system_service_name_text service then s.active_mitm_sessions else 0) 0 0 s,
    )

-- `if (should_mitm) NoteBsdSystemMitmPending();`
unfoldable pub note_if : Bool × MitmState → Bool × MitmState
note_if (true, s) = (true, note_bsd_system_mitm_pending s)
note_if (false, s) = (false, s)

-- `RecordShouldMitmPolicyDecision` for `bsd:s` with the two counters.
abbrev pub record_bsd_system :
    MitmProcessInfo → Bool → ShouldMitmPolicyReason → MitmState → MitmState
record_bsd_system client answer reason s =
    record_decision (codes "bsd:s") client answer reason s.pending_mitm_sessions
      s.active_mitm_sessions 0 0 s

module _ (programs : Programs) (config : BuildConfig) where
  -- The programs that `IsDiagnosticOverrideEnabled` tests for a service, in their order.
  unfoldable pub bsd_system_switches : List (ℕ × Bool)
  bsd_system_switches =
      (programs.npns, config.allow_bsd_system_npns)
      ∷ (programs.eupld, config.allow_bsd_system_eupld)
      ∷ (programs.olsc, config.allow_bsd_system_olsc)
      ∷ (programs.bsd_sockets, config.allow_bsd_system_bsd_sockets)
      ∷ (programs.ssl, config.allow_bsd_system_ssl)
      ∷ (programs.nim, config.allow_bsd_system_nim)
      ∷ (sphaira_wrapper_program_id, config.allow_bsd_system_sphaira_wrapper)
      ∷ (programs.toolbox_forwarder, config.allow_bsd_system_toolbox_forwarder)
      ∷ []

  unfoldable pub bsd_admin_switches : List (ℕ × Bool)
  bsd_admin_switches = (programs.qlaunch, config.allow_bsd_admin_qlaunch) ∷ []

  unfoldable pub ssl_switches : List (ℕ × Bool)
  ssl_switches =
      (programs.npns, config.allow_ssl_npns)
      ∷ (programs.eupld, config.allow_ssl_eupld)
      ∷ (programs.olsc, config.allow_ssl_olsc)
      ∷ []

  unfoldable pub is_diagnostic_override_enabled : MitmProcessInfo → Bytes → Bool
  is_diagnostic_override_enabled client service = switch_of client.program_id (
      when (equal service (codes "bsd:s")) bsd_system_switches
      ++ when (equal service (codes "bsd:a")) bsd_admin_switches
      ++ when (equal service (codes "ssl") || equal service (codes "ssl:s")) ssl_switches)

  unfoldable pub is_bsd_system_denylisted_program : MitmProcessInfo → Bool
  is_bsd_system_denylisted_program client =
      client.program_id == programs.npns
      || (client.program_id == programs.eupld
          || (client.program_id == programs.olsc
              || (client.program_id == programs.bsd_sockets
                  || (client.program_id == programs.ssl
                      || (client.program_id == programs.nim
                          || (client.program_id == sphaira_wrapper_program_id
                              || client.program_id == programs.toolbox_forwarder))))))

  unfoldable pub is_bsd_admin_denylisted_program : MitmProcessInfo → Bool
  is_bsd_admin_denylisted_program client = client.program_id == programs.qlaunch

  abbrev pub is_nifm_target : NifmSystemMitmTarget → MitmProcessInfo → Bool
  is_nifm_target no_target client = false
  is_nifm_target only_nim client = client.program_id == programs.nim
  is_nifm_target only_qlaunch client = client.program_id == programs.qlaunch
  is_nifm_target all client = true

  unfoldable pub should_mitm_nifm_system : MitmProcessInfo → MitmState → Bool × MitmState
  should_mitm_nifm_system client s =
      if is_self_program client
      then (false, record_decision (codes "nifm:s") client false self_program 0 0 0 0 s)
      else let should_mitm = is_nifm_target config.nifm_system_trace_target client in
        (
          should_mitm,
          record_decision (codes "nifm:s") client should_mitm
              (if should_mitm then default_allow else nifm_system_not_targeted) 0 0 0 0 s,
        )

  -- The rest of `ShouldMitmBsdSystem` once a session of the forwarder has its ordinal.
  unfoldable pub forwarder_session : MitmProcessInfo → MitmState → Bool × MitmState
  forwarder_session client s =
      let allow_for_ordinal = allows_ordinal config.toolbox_forwarder_bsd_mitm s.ordinal_count in
      let recorded =
        record_decision (codes "bsd:s") client allow_for_ordinal
          (if allow_for_ordinal then diagnostic_override else toolbox_forwarder_ordinal_deny)
          s.pending_mitm_sessions s.active_mitm_sessions s.ordinal_count
          (mode_value config.toolbox_forwarder_bsd_mitm) s in
      if allow_for_ordinal
      then note_if (should_mitm_for_service (codes "bsd:s") client recorded)
      else (false, recorded)

  unfoldable pub should_mitm_bsd_system : MitmProcessInfo → MitmState → Bool × MitmState
  should_mitm_bsd_system client s =
      if is_self_program client
      then (false, record_bsd_system client false self_program s)
      else if client.program_id == programs.toolbox_forwarder
          && config.allow_bsd_system_toolbox_forwarder
      then forwarder_session client (count_ordinal client s)
      else if not (is_diagnostic_override_enabled client (codes "bsd:s"))
      then (false, record_bsd_system client false bsd_system_not_allowlisted s)
      else note_if (
          should_mitm_for_service (codes "bsd:s") client
            (record_bsd_system client true diagnostic_override s))

  unfoldable pub should_mitm_bsd_admin : MitmProcessInfo → MitmState → Bool × MitmState
  should_mitm_bsd_admin client s =
      if is_self_program client
      then (false, s)
      else if is_bsd_admin_denylisted_program client
          && not (is_diagnostic_override_enabled client (codes "bsd:a"))
      then (false, s)
      else should_mitm_for_service (codes "bsd:a") client s

  -- `ShouldMitmSslUser` and `ShouldMitmSslSystem`, which differ in the name.
  unfoldable pub should_mitm_ssl : Bytes → MitmProcessInfo → MitmState → Bool × MitmState
  should_mitm_ssl service client s =
      if is_self_program client
      then (false, s)
      else if is_bsd_system_denylisted_program client
          && not (is_diagnostic_override_enabled client service)
      then (false, s)
      else should_mitm_for_service service client s

  -- The callbacks of `g_mitm_target_configs`.
  unfoldable pub should_mitm : PortIndex → MitmProcessInfo → MitmState → Bool × MitmState
  should_mitm nifm_user client s = should_mitm_for_service (codes "nifm:u") client s
  should_mitm nifm_system client s = should_mitm_nifm_system client s
  should_mitm bsd_user client s = should_mitm_for_service (codes "bsd:u") client s
  should_mitm bsd_system client s = should_mitm_bsd_system client s
  should_mitm bsd_admin client s = should_mitm_bsd_admin client s
  should_mitm ssl_user client s = should_mitm_ssl (codes "ssl") client s
  should_mitm ssl_system client s = should_mitm_ssl (codes "ssl:s") client s
  should_mitm notification_system client s = should_mitm_for_service (codes "notif:s") client s
