-- ===== src/Probe/Mitm/Servers/Accounted.antt =====
-- The servers of net-probe/src/mitm_service.cpp and the registrations that the service manager
-- holds for them.
use mathlib.Core.Path.{subst}
use nx_reverse.Base.{
  ◌≡◌, ◌⊎◌, inl, inr, refl, sym, ap, ◌∙◌, Bool, true, false, List, [], ◌∷◌, ◌++◌, map, replicate,
  All,
}
use nx_reverse.Probe.Mitm.Servers.{
  SmCall, Servers, ServerAnswers, initial_servers, register_targets,
  uninstall_owned_mitm_registrations, start_servers, stop_servers,
}
use nx_reverse.Probe.Mitm.Servers.Settled.{IsIdle, IsServing, Outcome}
use nx_reverse.Probe.Mitm.Servers.Runs.{
  IsSettled, ServerCall, start, stop, request, run_servers, start_servers-Outcome,
  run_servers-IsSettled,
}
use nx_reverse.Probe.Mitm.Servers.Keeps.{
  IsKept, Answered, start_servers-Holds, stop_servers-Holds, run_servers-Holds,
}
use nx_reverse.Probe.Mitm.Servers.Held.{
  Hold, free, held_after, is_held, held_after-append, enrolled-held, enrolled-owned, dismissed-held,
  dismissed-owned,
}

-- No target is registered.
abbrev pub all_free : List Hold
all_free = replicate 8 free

-- What the service manager holds after the calls of a state.
abbrev pub sm_holds : Servers → List Hold
sm_holds s = held_after s.sm_calls all_free

-- Nothing runs, and a target that was registered has been uninstalled, or `HasMitm` or
-- `UninstallMitm` has failed for it.
pub record IsStopped (s : Servers) : Type 0 where
  pub idle : IsIdle s
  pub none_held : map is_held (sm_holds s) ≡ replicate 8 false

-- The servers run, the enabled targets are registered, and another target that was registered has
-- been uninstalled, or `HasMitm` or `UninstallMitm` has failed for it.
pub record IsRunning (s : Servers) : Type 0 where
  pub serving : IsServing s
  pub enabled_held : map is_held (sm_holds s) ≡ s.target_enabled

-- What a start leaves with each of its answers.
abbrev pub Leaves : Bool × Servers → Type 0
Leaves (true, s) = IsRunning s
Leaves (false, s) = IsStopped s

abbrev pub Accounts : List Bool → List SmCall → Type 0
Accounts owned calls = map is_held (held_after calls all_free) ≡ owned

pub Accounts-IsKept : IsKept Accounts (λ _. Unit)
Accounts-IsKept = record {
  registering = λ a enabled owned calls e.
      subst
        (λ o.
          map is_held
            (held_after (calls ++ (register_targets a.register_mitm 0 enabled o).calls) all_free)
          ≡ (register_targets a.register_mitm 0 enabled o).owned)
        e
        (ap (map is_held) (
            held_after-append calls _ all_free
            ∙ enrolled-held a.register_mitm enabled (held_after calls all_free) [] 0 refl)
          ∙ enrolled-owned a.register_mitm 0 enabled (held_after calls all_free));
  uninstalling = λ a owned calls _ e.
      subst
        (λ o.
          map is_held (
            held_after
              (calls ++ (uninstall_owned_mitm_registrations a.has_mitm a.uninstall_mitm 0 o).1)
              all_free)
          ≡ (uninstall_owned_mitm_registrations a.has_mitm a.uninstall_mitm 0 o).0)
        e
        (ap (map is_held) (
            held_after-append calls _ all_free
            ∙ dismissed-held a.has_mitm a.uninstall_mitm (held_after calls all_free) [] 0 refl)
          ∙ dismissed-owned a.has_mitm a.uninstall_mitm 0 (held_after calls all_free));
}

any_answers : (calls : List ServerCall) → All (Answered (λ _. Unit)) calls
any_answers [] = tt
any_answers (start a ∷ calls) = (tt, any_answers calls)
any_answers (stop a ∷ calls) = (tt, any_answers calls)
any_answers (request ∷ calls) = (tt, any_answers calls)

Outcome-Leaves :
    (r : Bool × Servers) → Outcome r → Accounts r.1.registration_owned r.1.sm_calls → Leaves r
Outcome-Leaves (true, s) h e = record { serving = h; enabled_held = e ∙ h.owned }
Outcome-Leaves (false, s) h e = record { idle = h; none_held = e ∙ h.owned }

-- What is known of a state between two calls.
abbrev pub IsAtRest : Servers → Type 0
IsAtRest s = IsStopped s ⊎ IsRunning s

settled : (s : Servers) → IsAtRest s → IsSettled s
settled s (inl h) = inl h.idle
settled s (inr h) = inr h.serving

accounted : (s : Servers) → IsAtRest s → Accounts s.registration_owned s.sm_calls
accounted s (inl h) = h.none_held ∙ sym h.idle.owned
accounted s (inr h) = h.enabled_held ∙ sym h.serving.owned

at_rest : (s : Servers) → IsSettled s → Accounts s.registration_owned s.sm_calls → IsAtRest s
at_rest s (inl h) e = inl (Outcome-Leaves (false, s) h e)
at_rest s (inr h) e = inr (Outcome-Leaves (true, s) h e)

-- From a state at rest, whatever is answered, `StartServers` answers true, and the servers run with
-- the enabled targets registered; or it answers false, and nothing runs. In both cases every other
-- target that was ever registered has been uninstalled again, save those for which `HasMitm` failed or
-- did not know it or `UninstallMitm` failed.
pub start_servers-Leaves :
    (a : ServerAnswers) (s : Servers) → IsAtRest s → Leaves (start_servers a s)
start_servers-Leaves a s h =
    Outcome-Leaves (start_servers a s) (start_servers-Outcome a s (settled s h))
      (start_servers-Holds Accounts (λ _. Unit) Accounts-IsKept a s tt (accounted s h))

run_servers-Accounts :
    (calls : List ServerCall)
    → Accounts
        (run_servers calls initial_servers).registration_owned
        (run_servers calls initial_servers).sm_calls
run_servers-Accounts calls =
    run_servers-Holds Accounts (λ _. Unit) Accounts-IsKept calls initial_servers (any_answers calls)
      refl

-- After any calls from the start of the program on, whatever is answered during them, either the
-- servers run with the enabled targets registered, or nothing runs, as after a further stop. In both
-- cases every other target that was ever registered has been uninstalled again, save those for which
-- `HasMitm` failed or did not know it or `UninstallMitm` failed.
pub run_servers-IsAtRest :
    (calls : List ServerCall) (a : ServerAnswers)
    → IsAtRest (run_servers calls initial_servers)
      × IsStopped (stop_servers a (run_servers calls initial_servers))
run_servers-IsAtRest calls a =
    let s = run_servers calls initial_servers in
    let (settled, idle) = run_servers-IsSettled calls a in
    let accounts = run_servers-Accounts calls in
    (
      at_rest s settled accounts,
      Outcome-Leaves (false, stop_servers a s) idle
          (stop_servers-Holds Accounts (λ _. Unit) Accounts-IsKept a s tt accounts),
    )
