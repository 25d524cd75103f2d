-- ===== src/Probe/Mitm/Servers.antt =====
-- The start and the stop of the servers and threads in net-probe/src/mitm_service.cpp. What the
-- settings, the service manager and the calls on threads answer is a parameter. Of the events that
-- the threads wait for, only the one for a shutdown is kept: the others are cleared at the start
-- and what the waits for them give is one of the answers.
pub mod Settled
pub mod Keeps
pub mod Held
pub mod Runs
pub mod Accounted
pub mod Exact
use nx_reverse.Base.{
  ℕ, zero, suc, ◌+◌, Bool, true, false, not, ◌&&◌, List, [], ◌∷◌, ◌++◌, map, replicate, ◌==◌,
  if◌then◌else◌,
}

-- What is asked of the service manager for a target: a registration that it accepted, the `HasMitm`
-- that decides on an `UninstallMitm`, with its result and its answer, and the `UninstallMitm`, with
-- its result. The calls of `HasMitm` that are only logged are left out.
pub data SmCall : Type 0 where
  registered : ℕ → SmCall
  asked : ℕ → ℕ → Bool → SmCall
  uninstalled : ℕ → ℕ → SmCall

-- `g_servers_started`, `g_shutdown_requested` and its event, the two managers that are no null
-- pointers, the four threads that were started, the two tables of the targets, and the calls of the
-- service manager, the first one first.
pub record Servers : Type 0 where
  pub servers_started : Bool
  pub shutdown_requested : Bool
  pub shutdown_signaled : Bool
  pub control_manager : Bool
  pub control_thread_started : Bool
  pub mitm_manager : Bool
  pub mitm_thread_started : Bool
  pub boot_watch_thread_started : Bool
  pub watchdog_thread_started : Bool
  pub target_enabled : List Bool
  pub registration_owned : List Bool
  pub sm_calls : List SmCall

-- As the program starts.
abbrev pub initial_servers : Servers
initial_servers = record {
  servers_started = false;
  shutdown_requested = false;
  shutdown_signaled = false;
  control_manager = false;
  control_thread_started = false;
  mitm_manager = false;
  mitm_thread_started = false;
  boot_watch_thread_started = false;
  watchdog_thread_started = false;
  target_enabled = replicate 8 false;
  registration_owned = replicate 8 false;
  sm_calls = [];
}

-- The answers during one call: results are 0 for a success, `setting` gives the size and the byte
-- of a setting, `has_mitm` the result and the answer of `HasMitm`.
pub record ServerAnswers : Type 0 where
  pub setting : ℕ → ℕ × ℕ
  pub register_control : ℕ
  pub create_control_thread : ℕ
  pub control_ready : Bool
  pub register_mitm : ℕ → ℕ
  pub create_mitm_thread : ℕ
  pub mitm_ready : Bool
  pub create_boot_watch_thread : ℕ
  pub create_watchdog_thread : ℕ
  pub has_mitm : ℕ → ℕ × Bool
  pub uninstall_mitm : ℕ → ℕ

abbrev pub is_enabled : ℕ × ℕ → Bool
is_enabled (size, value) = size == 1 && not (value == 0)

-- `LoadMitmTargetSettings`, for the eight targets.
abbrev pub load_mitm_target_settings : ServerAnswers → List Bool
load_mitm_target_settings a =
    map (λ i. is_enabled (a.setting i)) (0 ∷ 1 ∷ 2 ∷ 3 ∷ 4 ∷ 5 ∷ 6 ∷ 7 ∷ [])

-- What the loop over the targets in `StartServers` leaves.
pub record Registration : Type 0 where
  pub owned : List Bool
  pub calls : List SmCall
  pub registered_count : ℕ
  pub failed_count : ℕ

unfoldable pub register_targets : (ℕ → ℕ) → ℕ → List Bool → List Bool → Registration
register_targets register i (false ∷ enabled) (o ∷ owned) =
    let rest = register_targets register (suc i) enabled owned in
    record rest { owned = o ∷ rest.owned }
register_targets register i (true ∷ enabled) (o ∷ owned) =
    let rest = register_targets register (suc i) enabled owned in
    if register i == 0
    then record {
      owned = true ∷ rest.owned;
      calls = registered i ∷ rest.calls;
      registered_count = suc rest.registered_count;
      failed_count = rest.failed_count;
    }
    else record rest { owned = o ∷ rest.owned; failed_count = suc rest.failed_count }
register_targets register i _ owned = record {
  owned = owned;
  calls = [];
  registered_count = 0;
  failed_count = 0;
}

-- `UninstallOwnedMitmRegistrations`: a registration that is owned is uninstalled if the service
-- manager says that it is there, and is no longer owned in any case, whatever `HasMitm` and
-- `UninstallMitm` answer.
unfoldable pub uninstall_owned_mitm_registrations :
    (ℕ → ℕ × Bool) → (ℕ → ℕ) → ℕ → List Bool → List Bool × List SmCall
uninstall_owned_mitm_registrations has uninstall i [] = ([], [])
uninstall_owned_mitm_registrations has uninstall i (false ∷ owned) =
    let (left, calls) = uninstall_owned_mitm_registrations has uninstall (suc i) owned in
    (false ∷ left, calls)
uninstall_owned_mitm_registrations has uninstall i (true ∷ owned) =
    let (left, calls) = uninstall_owned_mitm_registrations has uninstall (suc i) owned in
    (
      false ∷ left,
      asked i (has i).0 (has i).1
          ∷ (if (has i).0 == 0 && (has i).1 then uninstalled i (uninstall i) ∷ calls else calls),
    )

-- A thread that was started is waited for and destroyed.
unfoldable pub stop_and_retain_control_server_manager : Servers → Servers
stop_and_retain_control_server_manager s =
    if s.control_manager
    then record s { control_thread_started = false; control_manager = false }
    else s

unfoldable pub stop_boot_watch_thread : Servers → Servers
stop_boot_watch_thread s = record s { boot_watch_thread_started = false }

unfoldable pub stop_watchdog_thread : Servers → Servers
stop_watchdog_thread s = record s { watchdog_thread_started = false }

unfoldable pub stop_and_retain_mitm_server_manager : ServerAnswers → Servers → Servers
stop_and_retain_mitm_server_manager a s =
    let (left, calls) =
      uninstall_owned_mitm_registrations a.has_mitm a.uninstall_mitm 0 s.registration_owned in
    if s.mitm_manager
    then record s {
      mitm_thread_started = false;
      registration_owned = left;
      sm_calls = s.sm_calls ++ calls;
      mitm_manager = false;
    }
    else s

-- Both managers are stopped and the start has failed.
abbrev pub torn_down : ServerAnswers → Servers → Bool × Servers
torn_down a s =
    (false, stop_and_retain_control_server_manager (stop_and_retain_mitm_server_manager a s))

-- The threads that the servers can do without.
abbrev pub start_watching : ServerAnswers → Servers → Servers
start_watching a s = record s {
  boot_watch_thread_started =
      if a.create_boot_watch_thread == 0 then true else s.boot_watch_thread_started;
  watchdog_thread_started =
      if a.create_watchdog_thread == 0 then true else s.watchdog_thread_started;
}

-- `StartServers` once the targets are registered.
unfoldable pub start_mitm_thread : ServerAnswers → Servers → Bool × Servers
start_mitm_thread a s =
    if not (a.create_mitm_thread == 0)
    then torn_down a s
    else if not a.mitm_ready
    then torn_down a (record s { mitm_thread_started = true })
    else (true, start_watching a (record s { mitm_thread_started = true; servers_started = true }))

-- The loop over the targets in `StartServers`.
abbrev pub registration : ServerAnswers → Servers → Registration
registration a s = register_targets a.register_mitm 0 s.target_enabled s.registration_owned

abbrev pub with_targets : ServerAnswers → Servers → Servers
with_targets a s = record s {
  mitm_manager = true;
  registration_owned = (registration a s).owned;
  sm_calls = s.sm_calls ++ (registration a s).calls;
}

-- `StartServers` once the control server runs.
unfoldable pub start_mitm : ServerAnswers → Servers → Bool × Servers
start_mitm a s =
    if not ((registration a s).failed_count == 0)
    then torn_down a (with_targets a s)
    else if (registration a s).registered_count == 0
    then (true, record (with_targets a s) { servers_started = true })
    else start_mitm_thread a (with_targets a s)

-- `StartServers` once the state is prepared.
unfoldable pub start_control : ServerAnswers → Servers → Bool × Servers
start_control a s =
    let t = record s { control_manager = true; control_thread_started = true } in
    if not (a.register_control == 0)
    then (false, record s { control_manager = false })
    else if not (a.create_control_thread == 0)
    then (false, record s { control_manager = false })
    else if not a.control_ready
    then (false, stop_and_retain_control_server_manager t)
    else start_mitm a t

unfoldable pub start_servers : ServerAnswers → Servers → Bool × Servers
start_servers a s =
    if s.servers_started
    then (true, s)
    else start_control a (record s {
      shutdown_requested = false;
      shutdown_signaled = false;
      target_enabled = load_mitm_target_settings a;
    })

unfoldable pub request_shutdown : Servers → Servers
request_shutdown s =
    if s.shutdown_requested
    then s
    else record s { shutdown_requested = true; shutdown_signaled = true }

unfoldable pub stop_servers : ServerAnswers → Servers → Servers
stop_servers a s =
    if not s.servers_started && not s.control_manager && not s.mitm_manager
    then s
    else record (stop_and_retain_control_server_manager
        (stop_and_retain_mitm_server_manager a (stop_watchdog_thread (stop_boot_watch_thread s)))) {
          shutdown_requested = false;
          shutdown_signaled = false;
          servers_started = false;
        }
