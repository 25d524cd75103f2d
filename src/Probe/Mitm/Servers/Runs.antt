-- ===== src/Probe/Mitm/Servers/Runs.antt =====
-- Any calls of `StartServers`, `RequestShutdown` and `StopServers` of
-- net-probe/src/mitm_service.cpp, in the order in which they take the lock.
use nx_reverse.Base.{
  ◌≡◌, refl, sym, ap, ◌∙◌, ◌⊎◌, inl, inr, Bool, true, false, not, ◌&&◌, List, [], ◌∷◌, length,
  replicate, ◌==◌, if◌then◌else◌,
}
use mathlib.Core.Bool.{true≢false}
use nx_reverse.Probe.Mitm.Servers.{
  Servers, ServerAnswers, initial_servers, load_mitm_target_settings, start_control, start_servers,
  request_shutdown, stop_servers, stop_and_retain_control_server_manager,
  stop_and_retain_mitm_server_manager, stop_boot_watch_thread, stop_watchdog_thread,
}
use nx_reverse.Probe.Mitm.Servers.Settled.{
  IsIdle, IsServing, IsControlled, Outcome, if-Outcome, start_mitm-Outcome, uninstall-none_owned,
}

abbrev pub IsSettled : Servers → Type 0
IsSettled s = IsIdle s ⊎ IsServing s

-- An idle state with the settings of a start.
start_control-Outcome :
    (a : ServerAnswers) (s : Servers)
    → IsIdle s
    → length s.target_enabled ≡ 8
    → Outcome (start_control a s)
unfolding start_control stop_and_retain_control_server_manager
start_control-Outcome a s h eight =
    let idle : IsIdle (record s { control_manager = false }) = record {
      started = h.started;
      control = refl;
      control_thread = h.control_thread;
      mitm = h.mitm;
      mitm_thread = h.mitm_thread;
      boot_watch = h.boot_watch;
      watchdog = h.watchdog;
      owned = h.owned;
    } in
    let controlled : IsControlled
        (record s { control_manager = true; control_thread_started = true }) =
      record {
        started = h.started;
        control = refl;
        control_thread = refl;
        mitm_thread = h.mitm_thread;
        boot_watch = h.boot_watch;
        watchdog = h.watchdog;
        none_owned = h.owned;
        eight = eight;
      } in
    if-Outcome (not (a.register_control == 0)) _ _ (λ _. idle)
      (λ _.
        if-Outcome (not (a.create_control_thread == 0)) _ _ (λ _. idle)
          (λ _.
            if-Outcome (not a.control_ready) _ _
              (λ _. record {
                started = h.started;
                control = refl;
                control_thread = refl;
                mitm = h.mitm;
                mitm_thread = h.mitm_thread;
                boot_watch = h.boot_watch;
                watchdog = h.watchdog;
                owned = h.owned;
              })
              (λ _. start_mitm-Outcome a _ controlled)))

pub start_servers-Outcome :
    (a : ServerAnswers) (s : Servers) → IsSettled s → Outcome (start_servers a s)
unfolding start_servers
start_servers-Outcome a s (inl h) =
    if-Outcome s.servers_started _ _ (λ e. absurd (true≢false (sym e ∙ h.started)))
      (λ _.
        start_control-Outcome a
          (record s {
            shutdown_requested = false;
            shutdown_signaled = false;
            target_enabled = load_mitm_target_settings a;
          })
          (record {
            started = h.started;
            control = h.control;
            control_thread = h.control_thread;
            mitm = h.mitm;
            mitm_thread = h.mitm_thread;
            boot_watch = h.boot_watch;
            watchdog = h.watchdog;
            owned = h.owned;
          })
          refl)
start_servers-Outcome a s (inr h) =
    if-Outcome s.servers_started _ _ (λ _. h) (λ e. absurd (true≢false (sym h.started ∙ e)))

if-IsIdle :
    (b : Bool) (x y : Servers) → IsIdle x → (b ≡ false → IsIdle y) → IsIdle (if b then x else y)
if-IsIdle true x y h _ = h
if-IsIdle false x y _ h = h refl

pub stop_servers-IsIdle :
    (a : ServerAnswers) (s : Servers) → IsSettled s → IsIdle (stop_servers a s)
unfolding stop_servers stop_and_retain_control_server_manager stop_and_retain_mitm_server_manager
    stop_boot_watch_thread stop_watchdog_thread
stop_servers-IsIdle a s (inl h) =
    let nothing : (not s.servers_started && not s.control_manager && not s.mitm_manager) ≡ true =
      rw (h.started, h.control, h.mitm) refl in
    if-IsIdle (not s.servers_started && not s.control_manager && not s.mitm_manager) s _ h
      (λ e. absurd (true≢false (sym nothing ∙ e)))
stop_servers-IsIdle a s (inr h) =
    rw (h.started, h.mitm, h.control)
      record {
        started = refl;
        control = refl;
        control_thread = refl;
        mitm = refl;
        mitm_thread = refl;
        boot_watch = refl;
        watchdog = refl;
        owned =
            uninstall-none_owned a.has_mitm a.uninstall_mitm 0 s.registration_owned
            ∙ ap (λ bs. replicate (length bs) false) h.owned
            ∙ ap (λ n. replicate n false) h.eight;
      }

requested-IsSettled :
    (requested : Bool) (s : Servers)
    → IsSettled s
    → IsSettled
        (if requested then s else record s { shutdown_requested = true; shutdown_signaled = true })
requested-IsSettled true s h = h
requested-IsSettled false s (inl h) = inl record {
  started = h.started;
  control = h.control;
  control_thread = h.control_thread;
  mitm = h.mitm;
  mitm_thread = h.mitm_thread;
  boot_watch = h.boot_watch;
  watchdog = h.watchdog;
  owned = h.owned;
}
requested-IsSettled false s (inr h) = inr record {
  started = h.started;
  control = h.control;
  control_thread = h.control_thread;
  mitm = h.mitm;
  mitm_thread = h.mitm_thread;
  owned = h.owned;
  eight = h.eight;
}

-- A call, with what is answered during it.
pub data ServerCall : Type 0 where
  start stop : ServerAnswers → ServerCall
  request : ServerCall

unfoldable pub run_server_call : ServerCall → Servers → Servers
run_server_call (start a) s = (start_servers a s).1
run_server_call (stop a) s = stop_servers a s
run_server_call request s = request_shutdown s

unfoldable pub run_servers : List ServerCall → Servers → Servers
run_servers [] s = s
run_servers (call ∷ calls) s = run_servers calls (run_server_call call s)

Outcome-IsSettled : (r : Bool × Servers) → Outcome r → IsSettled r.1
Outcome-IsSettled (true, s) h = inr h
Outcome-IsSettled (false, s) h = inl h

run_server_call-IsSettled :
    (call : ServerCall) (s : Servers) → IsSettled s → IsSettled (run_server_call call s)
unfolding run_server_call request_shutdown
run_server_call-IsSettled (start a) s h =
    Outcome-IsSettled (start_servers a s) (start_servers-Outcome a s h)
run_server_call-IsSettled (stop a) s h = inl (stop_servers-IsIdle a s h)
run_server_call-IsSettled request s h = requested-IsSettled s.shutdown_requested s h

run_from-IsSettled :
    (calls : List ServerCall) (s : Servers) → IsSettled s → IsSettled (run_servers calls s)
unfolding run_servers
run_from-IsSettled [] s h = h
run_from-IsSettled (call ∷ calls) s h =
    run_from-IsSettled calls (run_server_call call s) (run_server_call-IsSettled call s h)

pub run_servers-IsSettled :
    (calls : List ServerCall) (a : ServerAnswers)
    → IsSettled (run_servers calls initial_servers)
      × IsIdle (stop_servers a (run_servers calls initial_servers))
run_servers-IsSettled calls a =
    let settled = run_from-IsSettled calls initial_servers (
      inl record {
        started = refl;
        control = refl;
        control_thread = refl;
        mitm = refl;
        mitm_thread = refl;
        boot_watch = refl;
        watchdog = refl;
        owned = refl;
      }) in
    (settled, stop_servers-IsIdle a (run_servers calls initial_servers) settled)
