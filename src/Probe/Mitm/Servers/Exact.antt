-- ===== src/Probe/Mitm/Servers/Exact.antt =====
-- What the service manager holds for net-probe/src/mitm_service.cpp when it never fails to
-- uninstall.
use mathlib.Core.Path.{subst}
use nx_reverse.Base.{
  ℕ, zero, suc, ◌≡◌, ◌≢◌, inl, inr, refl, sym, ap, ◌∙◌, Bool-cases, Bool, true, false, List, [],
  ◌∷◌, map, replicate, All, ◌==◌,
}
use nx_reverse.Probe.Mitm.Servers.{
  SmCall, ServerAnswers, initial_servers, register_targets, uninstall_owned_mitm_registrations,
  stop_servers,
}
use nx_reverse.Probe.Mitm.Servers.Runs.{ServerCall, run_servers, run_servers-IsSettled}
use nx_reverse.Probe.Mitm.Servers.Keeps.{IsKept, Answered, stop_servers-Holds, run_servers-Holds}
use nx_reverse.Probe.Mitm.Servers.Held.{
  Hold, free, held, left_behind, held_after, is_held, enrolled, dismissed, held_after-append,
  enrolled-held, dismissed-held,
}
use nx_reverse.Probe.Mitm.Servers.Accounted.{all_free, sm_holds, Accounts, Accounts-IsKept}

-- The service manager knows a registration of the process, says so, and takes it back.
pub record IsFaithful (a : ServerAnswers) : Type 0 where
  pub known : (i : ℕ) → a.has_mitm i ≡ (0, true)
  pub taken_back : (i : ℕ) → a.uninstall_mitm i ≡ 0

abbrev NoneLeft : List Hold → Type 0
NoneLeft hs = All (λ h. h ≢ left_behind) hs

held_stays : held ≢ left_behind
held_stays e = cc

free_stays : free ≢ left_behind
free_stays e = cc

free-NoneLeft : (n : ℕ) → NoneLeft (replicate n free)
free-NoneLeft zero = tt
free-NoneLeft (suc n) = (free_stays, free-NoneLeft n)

enrolled-NoneLeft :
    (register : ℕ → ℕ) (i : ℕ) (enabled : List Bool) (hs : List Hold)
    → NoneLeft hs
    → NoneLeft (enrolled register i enabled hs)
enrolled-NoneLeft register i [] hs n = n
enrolled-NoneLeft register i (false ∷ enabled) [] n = tt
enrolled-NoneLeft register i (true ∷ enabled) [] n = tt
enrolled-NoneLeft register i (false ∷ enabled) (h ∷ hs) (n, ns) =
    (n, enrolled-NoneLeft register (suc i) enabled hs ns)
enrolled-NoneLeft register i (true ∷ enabled) (h ∷ hs) (n, ns) =
    elim (Bool-cases (register i == 0)) [
      | inl done ↦ rw done (held_stays, enrolled-NoneLeft register (suc i) enabled hs ns)
      | inr failed ↦ rw failed (n, enrolled-NoneLeft register (suc i) enabled hs ns)
    ]

dismissed-NoneLeft :
    (a : ServerAnswers) (i : ℕ) (hs : List Hold)
    → IsFaithful a
    → NoneLeft hs
    → NoneLeft (dismissed a.has_mitm a.uninstall_mitm i hs)
dismissed-NoneLeft a i [] f n = tt
dismissed-NoneLeft a i (free ∷ hs) f (n, ns) = (free_stays, dismissed-NoneLeft a (suc i) hs f ns)
dismissed-NoneLeft a i (left_behind ∷ hs) f (n, ns) = absurd (n refl)
dismissed-NoneLeft a i (held ∷ hs) f (n, ns) =
    rw (f.known i, f.taken_back i) (free_stays, dismissed-NoneLeft a (suc i) hs f ns)

abbrev Exact : List Bool → List SmCall → Type 0
Exact owned calls = Accounts owned calls × NoneLeft (held_after calls all_free)

Exact-IsKept : IsKept Exact IsFaithful
Exact-IsKept = record {
  registering = λ a enabled owned calls h. (
    Accounts-IsKept.registering a enabled owned calls h.0,
    subst NoneLeft
        (sym (
          held_after-append calls _ all_free
          ∙ ap
              (λ o.
                held_after (register_targets a.register_mitm 0 enabled o).calls
                  (held_after calls all_free))
              (sym h.0)
          ∙ enrolled-held a.register_mitm enabled (held_after calls all_free) [] 0 refl))
        (enrolled-NoneLeft a.register_mitm 0 enabled (held_after calls all_free) h.1),
  );
  uninstalling = λ a owned calls f h. (
    Accounts-IsKept.uninstalling a owned calls tt h.0,
    subst NoneLeft
        (sym (
          held_after-append calls _ all_free
          ∙ ap
              (λ o.
                held_after (uninstall_owned_mitm_registrations a.has_mitm a.uninstall_mitm 0 o).1
                  (held_after calls all_free))
              (sym h.0)
          ∙ dismissed-held a.has_mitm a.uninstall_mitm (held_after calls all_free) [] 0 refl))
        (dismissed-NoneLeft a 0 (held_after calls all_free) f h.1),
  );
}

-- A target that the process owns is registered, and another one is not.
abbrev pub hold_of : Bool → Hold
hold_of true = held
hold_of false = free

exact_holds :
    (hs : List Hold) (owned : List Bool)
    → map is_held hs ≡ owned
    → NoneLeft hs
    → hs ≡ map hold_of owned
exact_holds [] owned e n = ap (map hold_of) e
exact_holds (free ∷ hs) owned e (n, ns) =
    ap (λ t. free ∷ t) (exact_holds hs (map is_held hs) refl ns) ∙ ap (map hold_of) e
exact_holds (held ∷ hs) owned e (n, ns) =
    ap (λ t. held ∷ t) (exact_holds hs (map is_held hs) refl ns) ∙ ap (map hold_of) e
exact_holds (left_behind ∷ hs) owned e (n, ns) = absurd (n refl)

-- If `HasMitm` always succeeds and knows the registrations of the process, and `UninstallMitm` always
-- succeeds, then after any calls the service manager holds exactly the targets that the process owns,
-- and after a further stop none.
pub run_servers-Exact :
    (calls : List ServerCall) (a : ServerAnswers)
    → All (Answered IsFaithful) calls
    → IsFaithful a
    → (sm_holds (run_servers calls initial_servers)
        ≡ map hold_of (run_servers calls initial_servers).registration_owned)
      × (sm_holds (stop_servers a (run_servers calls initial_servers)) ≡ all_free)
run_servers-Exact calls a faithful f =
    let s = run_servers calls initial_servers in
    let start_exact : Exact initial_servers.registration_owned initial_servers.sm_calls =
      (refl, free-NoneLeft 8) in
    let exact =
      run_servers-Holds Exact IsFaithful Exact-IsKept calls initial_servers faithful start_exact in
    let stopped = stop_servers-Holds Exact IsFaithful Exact-IsKept a s f exact in
    (
      exact_holds (sm_holds s) s.registration_owned exact.0 exact.1,
      exact_holds (sm_holds (stop_servers a s)) (stop_servers a s).registration_owned stopped.0
            stopped.1
          ∙ ap (map hold_of) (run_servers-IsSettled calls a).1.owned,
    )
