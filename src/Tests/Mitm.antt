-- ===== src/Tests/Mitm.antt =====
-- Tests of the policy and of the session counts of net-probe/src/mitm_service.cpp.
use nx_reverse.Base.{
  map, replicate, ◌%◌, ◌==◌, if◌then◌else◌, equal, ◌≡◌, ◌↔◌, refl, arith, true, false, [], ◌∷◌,
}
use nx_reverse.Probe.Mitm.{
  Programs, BuildConfig, build_config, second_only, bsd_system, MitmProcessInfo, MitmState,
  initial_mitm,
}
use nx_reverse.Probe.Mitm.Policy.{
  should_mitm, should_mitm_bsd_system, forwarder_session, count_ordinal, record_decision,
  should_mitm_for_service, note_if, note_bsd_system_mitm_pending,
}
use nx_reverse.Probe.Mitm.Policy.Recorded.{Recorded, should_mitm-Recorded}
use nx_reverse.Probe.Mitm.Policy.Shipped.{Permits, should_mitm-build_config}
use nx_reverse.Probe.Mitm.Policy.Ordinals.{answers_of, ask, ask_answers}
use nx_reverse.Probe.Mitm.Sessions.{
  accept_mitm_connection, passive_mitm_service_destructor, drop_bsd_system_mitm_pending,
  drop_bsd_system_mitm_active, promote_bsd_system_mitm_pending_to_active,
}
use nx_reverse.Probe.Mitm.Sessions.Counted.{
  World, initial_world, queried, accepted, Reach, began, next, Counted, Reach-Counted,
}
use nx_reverse.Probe.Mitm.Servers.{
  ServerAnswers, initial_servers, registered, asked, uninstalled, start_servers, start_control,
  start_mitm, register_targets, stop_servers, stop_and_retain_control_server_manager,
  stop_and_retain_mitm_server_manager, uninstall_owned_mitm_registrations,
}
use nx_reverse.Probe.Mitm.Servers.Runs.{start, request, run_servers}
use nx_reverse.Probe.Mitm.Servers.Held.{free, left_behind}
use nx_reverse.Probe.Mitm.Servers.Accounted.{
  all_free, sm_holds, IsStopped, Leaves, IsAtRest, start_servers-Leaves, run_servers-IsAtRest,
}
use nx_reverse.Probe.Mitm.Servers.Exact.{IsFaithful, hold_of, run_servers-Exact}

abbrev programs : Programs
programs = record {
  bsd_sockets = 0x0100000000000012;
  npns = 0x010000000000002F;
  eupld = 0x0100000000000031;
  olsc = 0x010000000000003E;
  ssl = 0x0100000000000024;
  nim = 0x0100000000000025;
  qlaunch = 0x0100000000001000;
  toolbox_forwarder = 0x0500000000000001;
}

abbrev forwarder : MitmProcessInfo
forwarder = record { process_id = 130; program_id = 0x0500000000000001 }

abbrev second_config : BuildConfig
second_config = record build_config { toolbox_forwarder_bsd_mitm = second_only }

-- The second session alone is taken.
second_session : answers_of second_only 4 ≡ false ∷ true ∷ false ∷ false ∷ []
second_session = refl

ask_answers_example :
    (ask programs second_config 4 forwarder initial_mitm).0 ≡ answers_of second_only 4
ask_answers_example =
    ask_answers programs second_config 4 forwarder initial_mitm refl refl refl (omega arith)
      (λ e. omega (arith, e))

should_mitm-Recorded_example :
    Recorded bsd_system forwarder initial_mitm
      (should_mitm programs build_config bsd_system forwarder initial_mitm)
should_mitm-Recorded_example =
    should_mitm-Recorded programs build_config forwarder bsd_system initial_mitm

should_mitm-build_config_example :
    ((should_mitm programs build_config bsd_system forwarder initial_mitm).0 ≡ true)
    ↔ Permits programs bsd_system forwarder.program_id
should_mitm-build_config_example =
    should_mitm-build_config programs forwarder bsd_system initial_mitm

abbrev granted_state : MitmState
granted_state = (should_mitm programs build_config bsd_system forwarder initial_mitm).1

abbrev granted_world : World
granted_world = record initial_world { state = granted_state; waiting = 1 }

granted_by_query : Reach programs build_config 1 granted_world
unfolding should_mitm should_mitm_bsd_system forwarder_session count_ordinal record_decision
    should_mitm_for_service note_if note_bsd_system_mitm_pending equal
granted_by_query = next began (queried bsd_system forwarder initial_world)

abbrev accepted_world : World
accepted_world = record granted_world {
  state = (accept_mitm_connection bsd_system 0 0 granted_state).1;
  waiting = 0;
  living = 1;
}

Reach-Counted_example : Counted 2 accepted_world
Reach-Counted_example =
    Reach-Counted programs build_config (next granted_by_query (accepted 0 granted_world refl))
      (omega arith)

-- Two granted sessions, of which the first is accepted and the second refused: once the object of
-- the second has ended, no session counts as active, though the first lives.
abbrev two_sessions : MitmState
two_sessions =
    passive_mitm_service_destructor bsd_system
      (accept_mitm_connection bsd_system 0 7
        (accept_mitm_connection bsd_system 0 0
          (note_bsd_system_mitm_pending (note_bsd_system_mitm_pending initial_mitm))).1).1

stray_end_drops_living :
    (two_sessions.active_mitm_sessions ≡ 0) × (two_sessions.pending_mitm_sessions ≡ 0)
unfolding passive_mitm_service_destructor accept_mitm_connection note_bsd_system_mitm_pending
    drop_bsd_system_mitm_pending drop_bsd_system_mitm_active
    promote_bsd_system_mitm_pending_to_active equal
stray_end_drops_living = (refl, refl)

-- Everything succeeds, and the services with an odd number are enabled.
abbrev all_well : ServerAnswers
all_well = record {
  setting = λ i. (1, i % 2);
  register_control = 0;
  create_control_thread = 0;
  control_ready = true;
  register_mitm = λ _. 0;
  create_mitm_thread = 0;
  mitm_ready = true;
  create_boot_watch_thread = 0;
  create_watchdog_thread = 0;
  has_mitm = λ _. (0, true);
  uninstall_mitm = λ _. 0;
}

-- The registration of service 3 fails.
abbrev one_fails : ServerAnswers
one_fails = record all_well { register_mitm = λ i. if i == 3 then 21 else 0 }

failed_start :
    (start_servers one_fails initial_servers).1.sm_calls
    ≡ registered 1
      ∷ registered 5
      ∷ registered 7
      ∷ asked 1 0 true
      ∷ uninstalled 1 0
      ∷ asked 5 0 true
      ∷ uninstalled 5 0
      ∷ asked 7 0 true
      ∷ uninstalled 7 0
      ∷ []
unfolding start_servers start_control start_mitm register_targets
    stop_and_retain_control_server_manager stop_and_retain_mitm_server_manager
    uninstall_owned_mitm_registrations
failed_start = refl

-- Where `UninstallMitm` fails for a target, the process forgets a registration that stays.
abbrev one_stays : ServerAnswers
one_stays = record one_fails { uninstall_mitm = λ i. if i == 5 then 21 else 0 }

forgotten_registration :
    ((start_servers one_stays initial_servers).1.registration_owned ≡ replicate 8 false)
    × (sm_holds (start_servers one_stays initial_servers).1
        ≡ free ∷ free ∷ free ∷ free ∷ free ∷ left_behind ∷ free ∷ free ∷ [])
unfolding start_servers start_control start_mitm register_targets
    stop_and_retain_control_server_manager stop_and_retain_mitm_server_manager
    uninstall_owned_mitm_registrations
forgotten_registration = (refl, refl)

start_servers-Leaves_example : Leaves (start_servers one_stays initial_servers)
unfolding run_servers
start_servers-Leaves_example =
    start_servers-Leaves one_stays initial_servers (run_servers-IsAtRest [] all_well).0

run_servers-IsAtRest_example :
    IsAtRest (run_servers (start one_stays ∷ start all_well ∷ request ∷ []) initial_servers)
    × IsStopped (
        stop_servers one_stays
          (run_servers (start one_stays ∷ start all_well ∷ request ∷ []) initial_servers))
run_servers-IsAtRest_example =
    run_servers-IsAtRest (start one_stays ∷ start all_well ∷ request ∷ []) one_stays

all_well-IsFaithful : IsFaithful all_well
all_well-IsFaithful = record { known = λ _. refl; taken_back = λ _. refl }

one_fails-IsFaithful : IsFaithful one_fails
one_fails-IsFaithful = record { known = λ _. refl; taken_back = λ _. refl }

run_servers-Exact_example :
    (sm_holds (run_servers (start one_fails ∷ start all_well ∷ []) initial_servers)
      ≡ map hold_of
          (run_servers (start one_fails ∷ start all_well ∷ []) initial_servers).registration_owned)
    × (sm_holds (
          stop_servers all_well
            (run_servers (start one_fails ∷ start all_well ∷ []) initial_servers))
        ≡ all_free)
run_servers-Exact_example =
    run_servers-Exact (start one_fails ∷ start all_well ∷ []) all_well
      (one_fails-IsFaithful, (all_well-IsFaithful, tt)) all_well-IsFaithful
