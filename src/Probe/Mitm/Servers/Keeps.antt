-- ===== src/Probe/Mitm/Servers/Keeps.antt =====
-- What every call of net-probe/src/mitm_service.cpp that starts or stops the servers keeps, if the
-- loops over the targets do.
use nx_reverse.Base.{
  inl, inr, Bool-cases, Bool, true, false, not, ◌&&◌, List, [], ◌∷◌, ◌++◌, All, ◌==◌, if◌then◌else◌,
}
use nx_reverse.Probe.Mitm.Servers.{
  SmCall, Servers, ServerAnswers, register_targets, registration, with_targets,
  uninstall_owned_mitm_registrations, stop_and_retain_control_server_manager,
  stop_boot_watch_thread, stop_watchdog_thread, stop_and_retain_mitm_server_manager, torn_down,
  start_mitm_thread, start_mitm, start_control, start_servers, request_shutdown, stop_servers,
}
use nx_reverse.Probe.Mitm.Servers.Runs.{
  ServerCall, start, stop, request, run_server_call, run_servers,
}

-- The answers of a call.
abbrev pub Answered : (ServerAnswers → Type 0) → ServerCall → Type 0
Answered Q (start a) = Q a
Answered Q (stop a) = Q a
Answered Q request = Unit

-- A property of the table of the process and of the calls, and answers under which the two loops
-- keep it.
pub record IsKept (P : List Bool → List SmCall → Type 0) (Q : ServerAnswers → Type 0) : Type 0 where
  pub registering :
      (a : ServerAnswers) (enabled owned : List Bool) (calls : List SmCall)
      → P owned calls
      → P
          (register_targets a.register_mitm 0 enabled owned).owned
          (calls ++ (register_targets a.register_mitm 0 enabled owned).calls)
  pub uninstalling :
      (a : ServerAnswers) (owned : List Bool) (calls : List SmCall)
      → Q a
      → P owned calls
      → P
          (uninstall_owned_mitm_registrations a.has_mitm a.uninstall_mitm 0 owned).0
          (calls ++ (uninstall_owned_mitm_registrations a.has_mitm a.uninstall_mitm 0 owned).1)

module _ (P : List Bool → List SmCall → Type 0) (Q : ServerAnswers → Type 0)
    (kept : IsKept P Q) where
  abbrev pub Holds : Servers → Type 0
  Holds s = P s.registration_owned s.sm_calls

  if-Holds :
      (b : Bool) (x y : Bool × Servers) → Holds x.1 → Holds y.1 → Holds (if b then x else y).1
  if-Holds true x y h _ = h
  if-Holds false x y _ h = h

  either-Holds : (b : Bool) (x y : Servers) → Holds x → Holds y → Holds (if b then x else y)
  either-Holds true x y h _ = h
  either-Holds false x y _ h = h

  stop_control-Holds : (s : Servers) → Holds s → Holds (stop_and_retain_control_server_manager s)
  unfolding stop_and_retain_control_server_manager
  stop_control-Holds s h =
      either-Holds s.control_manager
        (record s { control_thread_started = false; control_manager = false }) s h h

  stop_mitm-Holds :
      (a : ServerAnswers) (s : Servers)
      → Q a
      → Holds s
      → Holds (stop_and_retain_mitm_server_manager a s)
  unfolding stop_and_retain_mitm_server_manager
  stop_mitm-Holds a s q h = elim (Bool-cases s.mitm_manager) [
    | inl e ↦ rw e (kept.uninstalling a s.registration_owned s.sm_calls q h)
    | inr e ↦ rw e h
  ]

  torn_down-Holds : (a : ServerAnswers) (s : Servers) → Q a → Holds s → Holds (torn_down a s).1
  torn_down-Holds a s q h = stop_control-Holds _ (stop_mitm-Holds a s q h)

  start_mitm_thread-Holds :
      (a : ServerAnswers) (s : Servers) → Q a → Holds s → Holds (start_mitm_thread a s).1
  unfolding start_mitm_thread
  start_mitm_thread-Holds a s q h =
      if-Holds (not (a.create_mitm_thread == 0)) _ _ (torn_down-Holds a s q h) (
        if-Holds (not a.mitm_ready) _ _
          (torn_down-Holds a (record s { mitm_thread_started = true }) q h) h)

  with_targets-Holds : (a : ServerAnswers) (s : Servers) → Holds s → Holds (with_targets a s)
  with_targets-Holds a s h = kept.registering a s.target_enabled s.registration_owned s.sm_calls h

  start_mitm-Holds : (a : ServerAnswers) (s : Servers) → Q a → Holds s → Holds (start_mitm a s).1
  unfolding start_mitm
  start_mitm-Holds a s q h =
      let enrolled = with_targets-Holds a s h in
      if-Holds (not ((registration a s).failed_count == 0)) _ _
        (torn_down-Holds a (with_targets a s) q enrolled)
        (if-Holds ((registration a s).registered_count == 0) _ _ enrolled
          (start_mitm_thread-Holds a (with_targets a s) q enrolled))

  pub start_servers-Holds :
      (a : ServerAnswers) (s : Servers) → Q a → Holds s → Holds (start_servers a s).1
  unfolding start_servers start_control
  start_servers-Holds a s q h = if-Holds s.servers_started _ _ h (
      if-Holds (not (a.register_control == 0)) _ _ h (
        if-Holds (not (a.create_control_thread == 0)) _ _ h
          (if-Holds (not a.control_ready) _ _ (stop_control-Holds _ h) (start_mitm-Holds a _ q h))))

  pub stop_servers-Holds :
      (a : ServerAnswers) (s : Servers) → Q a → Holds s → Holds (stop_servers a s)
  unfolding stop_servers stop_boot_watch_thread stop_watchdog_thread
  stop_servers-Holds a s q h =
      let unwatched = stop_watchdog_thread (stop_boot_watch_thread s) in
      let stopped = stop_and_retain_mitm_server_manager a unwatched in
      either-Holds (not s.servers_started && not s.control_manager && not s.mitm_manager) s _ h
        (stop_control-Holds stopped (stop_mitm-Holds a unwatched q h))

  run_server_call-Holds :
      (call : ServerCall) (s : Servers) → Answered Q call → Holds s → Holds (run_server_call call s)
  unfolding run_server_call request_shutdown
  run_server_call-Holds (start a) s q h = start_servers-Holds a s q h
  run_server_call-Holds (stop a) s q h = stop_servers-Holds a s q h
  run_server_call-Holds request s q h =
      either-Holds s.shutdown_requested s
        (record s { shutdown_requested = true; shutdown_signaled = true }) h h

  pub run_servers-Holds :
      (calls : List ServerCall) (s : Servers)
      → All (Answered Q) calls
      → Holds s
      → Holds (run_servers calls s)
  unfolding run_servers
  run_servers-Holds [] s q h = h
  run_servers-Holds (call ∷ calls) s (q, qs) h =
      run_servers-Holds calls (run_server_call call s) qs (run_server_call-Holds call s q h)
