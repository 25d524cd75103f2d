-- ===== src/Probe/Mitm/Servers/Settled.antt =====
-- The states between the calls that start and stop the servers of
-- net-probe/src/mitm_service.cpp.
use nx_reverse.Base.{
  ℕ, suc, ◌≡◌, refl, sym, ap, ◌∙◌, inl, inr, ==_iff, nonzero_test, Bool-cases, arith, Bool, true,
  false, not, ◌||◌, List, [], ◌∷◌, length, replicate, ◌==◌, if◌then◌else◌,
}
use mathlib.Core.Bool.{true≢false}
use nx_reverse.Probe.Mitm.Servers.{
  registration, with_targets, Servers, ServerAnswers, register_targets,
  uninstall_owned_mitm_registrations, stop_and_retain_control_server_manager,
  stop_and_retain_mitm_server_manager, torn_down, start_mitm_thread, start_mitm,
}

abbrev pub some_enabled : List Bool → Bool
some_enabled [] = false
some_enabled (b ∷ bs) = b || some_enabled bs

-- Nothing runs, and the process counts no target as registered.
pub record IsIdle (s : Servers) : Type 0 where
  pub started : s.servers_started ≡ false
  pub control : s.control_manager ≡ false
  pub control_thread : s.control_thread_started ≡ false
  pub mitm : s.mitm_manager ≡ false
  pub mitm_thread : s.mitm_thread_started ≡ false
  pub boot_watch : s.boot_watch_thread_started ≡ false
  pub watchdog : s.watchdog_thread_started ≡ false
  pub owned : s.registration_owned ≡ replicate 8 false

-- The control server runs, the process counts the enabled targets as registered, and the server of
-- the targets runs if there are any.
pub record IsServing (s : Servers) : Type 0 where
  pub started : s.servers_started ≡ true
  pub control : s.control_manager ≡ true
  pub control_thread : s.control_thread_started ≡ true
  pub mitm : s.mitm_manager ≡ true
  pub mitm_thread : s.mitm_thread_started ≡ some_enabled s.target_enabled
  pub owned : s.registration_owned ≡ s.target_enabled
  pub eight : length s.target_enabled ≡ 8

-- What a start leaves with each of its answers.
abbrev pub Outcome : Bool × Servers → Type 0
Outcome (true, s) = IsServing s
Outcome (false, s) = IsIdle s

pub if-Outcome :
    (b : Bool) (x y : Bool × Servers)
    → (b ≡ true → Outcome x)
    → (b ≡ false → Outcome y)
    → Outcome (if b then x else y)
if-Outcome true x y h _ = h refl
if-Outcome false x y _ h = h refl

pub uninstall-none_owned :
    (has : ℕ → ℕ × Bool) (uninstall : ℕ → ℕ) (i : ℕ) (owned : List Bool)
    → (uninstall_owned_mitm_registrations has uninstall i owned).0 ≡ replicate (length owned) false
unfolding uninstall_owned_mitm_registrations
uninstall-none_owned has uninstall i [] = refl
uninstall-none_owned has uninstall i (false ∷ owned) =
    ap (λ bs. false ∷ bs) (uninstall-none_owned has uninstall (suc i) owned)
uninstall-none_owned has uninstall i (true ∷ owned) =
    ap (λ bs. false ∷ bs) (uninstall-none_owned has uninstall (suc i) owned)

length-register :
    (register : ℕ → ℕ) (i : ℕ) (enabled owned : List Bool)
    → length (register_targets register i enabled owned).owned ≡ length owned
unfolding register_targets
length-register register i (false ∷ enabled) (o ∷ owned) =
    ap suc (length-register register (suc i) enabled owned)
length-register register i (true ∷ enabled) (o ∷ owned) = elim (Bool-cases (register i == 0)) [
  | inl e ↦ rw e (ap suc (length-register register (suc i) enabled owned))
  | inr e ↦ rw e (ap suc (length-register register (suc i) enabled owned))
]
length-register register i [] owned = refl
length-register register i (false ∷ enabled) [] = refl
length-register register i (true ∷ enabled) [] = refl

-- With no failure the enabled targets are owned, and there are some if any was registered.
register-all :
    (register : ℕ → ℕ) (i : ℕ) (enabled : List Bool)
    → let r = register_targets register i enabled (replicate (length enabled) false) in
      r.failed_count ≡ 0
      → (r.owned ≡ enabled) × ((r.registered_count == 0) ≡ not (some_enabled enabled))
unfolding register_targets
register-all register i [] _ = (refl, refl)
register-all register i (false ∷ enabled) none_failed =
    let (owned, counted) = register-all register (suc i) enabled none_failed in
    (ap (λ bs. false ∷ bs) owned, counted)
register-all register i (true ∷ enabled) none_failed = elim (Bool-cases (register i == 0)) [
  | inl e ↦
      let (owned, counted) = register-all register (suc i) enabled (rw e at none_failed) in
      rw e (ap (λ bs. true ∷ bs) owned, nonzero_test _ (λ z. omega (arith, z)))
  | inr e ↦ absurd (omega (arith, rw e at none_failed))
]

-- Both managers run, nothing else does, and the targets may be registered.
record IsHalfway (s : Servers) : Type 0 where
  pub started : s.servers_started ≡ false
  pub control : s.control_manager ≡ true
  pub mitm : s.mitm_manager ≡ true
  pub boot_watch : s.boot_watch_thread_started ≡ false
  pub watchdog : s.watchdog_thread_started ≡ false
  pub eight : length s.registration_owned ≡ 8

zero_passed : (n : ℕ) → not (n == 0) ≡ false → n ≡ 0
zero_passed n e = elim (Bool-cases (n == 0)) [
  | inl f ↦ (==_iff n 0).0 f
  | inr f ↦ absurd (true≢false (rw f at e))
]

torn_down-IsIdle : (a : ServerAnswers) (s : Servers) → IsHalfway s → IsIdle (torn_down a s).1
unfolding stop_and_retain_control_server_manager stop_and_retain_mitm_server_manager
torn_down-IsIdle a s h =
    rw (h.mitm, h.control)
      record {
        started = h.started;
        control = refl;
        control_thread = refl;
        mitm = refl;
        mitm_thread = refl;
        boot_watch = h.boot_watch;
        watchdog = h.watchdog;
        owned =
            uninstall-none_owned a.has_mitm a.uninstall_mitm 0 s.registration_owned
            ∙ ap (λ n. replicate n false) h.eight;
      }

start_mitm_thread-Outcome :
    (a : ServerAnswers) (s : Servers)
    → IsHalfway s
    → s.control_thread_started ≡ true
    → s.registration_owned ≡ s.target_enabled
    → some_enabled s.target_enabled ≡ true
    → Outcome (start_mitm_thread a s)
unfolding start_mitm_thread
start_mitm_thread-Outcome a s h thread owned some_target =
    if-Outcome (not (a.create_mitm_thread == 0)) _ _ (λ _. torn_down-IsIdle a s h)
      (λ _.
        if-Outcome (not a.mitm_ready) _ _
          (λ _.
            torn_down-IsIdle a (record s { mitm_thread_started = true })
              (record {
                started = h.started;
                control = h.control;
                mitm = h.mitm;
                boot_watch = h.boot_watch;
                watchdog = h.watchdog;
                eight = h.eight;
              }))
          (λ _. record {
            started = refl;
            control = h.control;
            control_thread = thread;
            mitm = h.mitm;
            mitm_thread = sym some_target;
            owned = owned;
            eight = ap length (sym owned) ∙ h.eight;
          }))

-- The control server runs and nothing else does.
pub record IsControlled (s : Servers) : Type 0 where
  pub started : s.servers_started ≡ false
  pub control : s.control_manager ≡ true
  pub control_thread : s.control_thread_started ≡ true
  pub mitm_thread : s.mitm_thread_started ≡ false
  pub boot_watch : s.boot_watch_thread_started ≡ false
  pub watchdog : s.watchdog_thread_started ≡ false
  pub none_owned : s.registration_owned ≡ replicate 8 false
  pub eight : length s.target_enabled ≡ 8

with_targets-IsHalfway :
    (a : ServerAnswers) (s : Servers) → IsControlled s → IsHalfway (with_targets a s)
with_targets-IsHalfway a s h = record {
  started = h.started;
  control = h.control;
  mitm = refl;
  boot_watch = h.boot_watch;
  watchdog = h.watchdog;
  eight =
      length-register a.register_mitm 0 s.target_enabled s.registration_owned
      ∙ ap length h.none_owned;
}

all_registered :
    (a : ServerAnswers) (s : Servers)
    → IsControlled s
    → (registration a s).failed_count ≡ 0
    → ((registration a s).owned ≡ s.target_enabled)
      × (((registration a s).registered_count == 0) ≡ not (some_enabled s.target_enabled))
all_registered a s h =
    rw (h.none_owned ∙ ap (λ n. replicate n false) (sym h.eight))
      (register-all a.register_mitm 0 s.target_enabled)

opposite_of_false : (b c : Bool) → b ≡ not c → b ≡ false → c ≡ true
opposite_of_false b true e f = refl
opposite_of_false b false e f = absurd (true≢false (sym e ∙ f))

opposite_of_true : (b c : Bool) → b ≡ not c → b ≡ true → c ≡ false
opposite_of_true b true e f = sym f ∙ e
opposite_of_true b false e f = refl

pub start_mitm-Outcome :
    (a : ServerAnswers) (s : Servers) → IsControlled s → Outcome (start_mitm a s)
unfolding start_mitm
start_mitm-Outcome a s h =
    let halfway = with_targets-IsHalfway a s h in
    let r = registration a s in
    if-Outcome (not (r.failed_count == 0)) _ _ (λ _. torn_down-IsIdle a (with_targets a s) halfway)
      (λ e.
        let (owned, counted) = all_registered a s h (zero_passed r.failed_count e) in
        if-Outcome (r.registered_count == 0) _ _
          (λ none. record {
            started = refl;
            control = h.control;
            control_thread = h.control_thread;
            mitm = refl;
            mitm_thread = h.mitm_thread ∙ sym (opposite_of_true _ _ counted none);
            owned = owned;
            eight = h.eight;
          })
          (λ some_target.
            start_mitm_thread-Outcome a (with_targets a s) halfway h.control_thread owned
              (opposite_of_false _ _ counted some_target)))
