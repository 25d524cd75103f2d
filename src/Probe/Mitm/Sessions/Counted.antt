-- ===== src/Probe/Mitm/Sessions/Counted.antt =====
-- The counts of the `bsd:s` sessions (net-probe/src/mitm_service.cpp) over any run of queries,
-- accepts and ends of service objects, and the sessions that there are.
use nx_reverse.Base.{
  ℕ, zero, suc, ◌+◌, ◌-◌, ◌^◌, ◌≤◌, ◌<◌, ◌≡◌, ◌≢◌, refl, arith, Bool, nonzero_test, Bool-cases, inl,
  inr, true, false, ◌&&◌, equal, ◌==◌, if◌then◌else◌,
}
use nx_reverse.Probe.Mitm.{
  Programs, BuildConfig, PortIndex, bsd_system, MitmProcessInfo, MitmState, initial_mitm, increment,
}
use nx_reverse.Probe.Mitm.Policy.{should_mitm}
use nx_reverse.Probe.Mitm.Policy.Recorded.{should_mitm-Recorded}
use nx_reverse.Probe.Mitm.Sessions.{
  is_bsd_system_service_name, accept_mitm_connection, passive_mitm_service_destructor,
  promote_bsd_system_mitm_pending_to_active, drop_bsd_system_mitm_pending,
  drop_bsd_system_mitm_active, decrement_atomic_if_positive,
}

-- The program's state beside the sessions of `bsd:s`: those that were granted and are not accepted
-- yet, those that live, the objects whose accept failed, and how many of these have ended.
pub record World : Type 0 where
  pub state : MitmState
  pub waiting : ℕ
  pub living : ℕ
  pub stray : ℕ
  pub lost : ℕ

abbrev pub initial_world : World
initial_world = record { state = initial_mitm; waiting = 0; living = 0; stray = 0; lost = 0 }

abbrev pub is_granted : Bool → PortIndex → Bool
is_granted answer port = answer && is_bsd_system_service_name port

-- What can happen: a query, the three ends of an accept of a granted session of `bsd:s`, an accept
-- for another service, and the end of a service object.
pub data Step (programs : Programs) (config : BuildConfig) : World → World → Type 0 where
  queried :
      (port : PortIndex) (client : MitmProcessInfo) (w : World)
      → Step programs config w (record w {
        state = (should_mitm programs config port client w.state).1;
        waiting =
            if is_granted (should_mitm programs config port client w.state).0 port
            then suc w.waiting
            else w.waiting;
      })
  unacknowledged :
      (acknowledge_rc rc n : ℕ) (w : World)
      → acknowledge_rc ≢ 0
      → w.waiting ≡ suc n
      → Step programs config w (record w {
        state = (accept_mitm_connection bsd_system acknowledge_rc rc w.state).1;
        waiting = n;
      })
  refused :
      (rc n : ℕ) (w : World)
      → rc ≢ 0
      → w.waiting ≡ suc n
      → Step programs config w (record w {
        state = (accept_mitm_connection bsd_system 0 rc w.state).1;
        waiting = n;
        stray = suc w.stray;
      })
  accepted :
      (n : ℕ) (w : World)
      → w.waiting ≡ suc n
      → Step programs config w (record w {
        state = (accept_mitm_connection bsd_system 0 0 w.state).1;
        waiting = n;
        living = suc w.living;
      })
  accepted_other :
      (port : PortIndex) (acknowledge_rc rc : ℕ) (w : World)
      → is_bsd_system_service_name port ≡ false
      → Step programs config w
          (record w { state = (accept_mitm_connection port acknowledge_rc rc w.state).1 })
  ended :
      (n : ℕ) (w : World)
      → w.living ≡ suc n
      → Step programs config w
          (record w { state = passive_mitm_service_destructor bsd_system w.state; living = n })
  ended_stray :
      (n : ℕ) (w : World)
      → w.stray ≡ suc n
      → Step programs config w (record w {
        state = passive_mitm_service_destructor bsd_system w.state;
        stray = n;
        lost = suc w.lost;
      })
  ended_other :
      (port : PortIndex) (w : World)
      → is_bsd_system_service_name port ≡ false
      → Step programs config w (record w { state = passive_mitm_service_destructor port w.state })

-- The worlds after a number of steps.
pub data Reach (programs : Programs) (config : BuildConfig) : ℕ → World → Type 0 where
  began : Reach programs config 0 initial_world
  next :
      {k : ℕ} {v w : World}
      → Reach programs config k v
      → Step programs config v w
      → Reach programs config (suc k) w

pub record Counted (k : ℕ) (w : World) : Type 0 where
  pub pending : w.state.pending_mitm_sessions ≡ w.waiting
  pub above : w.state.active_mitm_sessions ≤ w.living
  pub below : w.living ≤ w.state.active_mitm_sessions + w.lost
  pub few : w.waiting + w.living ≤ k

decrement_one : (n : ℕ) → decrement_atomic_if_positive n ≡ n - 1
decrement_one zero = refl
decrement_one (suc n) = omega arith

unacknowledged-state :
    (acknowledge_rc rc : ℕ) (s : MitmState)
    → acknowledge_rc ≢ 0
    → (accept_mitm_connection bsd_system acknowledge_rc rc s).1 ≡ drop_bsd_system_mitm_pending s
unfolding accept_mitm_connection equal
unacknowledged-state acknowledge_rc rc s failed = rw (nonzero_test acknowledge_rc failed) refl

refused-state :
    (rc : ℕ) (s : MitmState)
    → rc ≢ 0
    → (accept_mitm_connection bsd_system 0 rc s).1 ≡ drop_bsd_system_mitm_pending s
unfolding accept_mitm_connection equal
refused-state rc s failed = rw (nonzero_test rc failed) refl

other_accept-state :
    (port : PortIndex) (acknowledge_rc rc : ℕ) (s : MitmState)
    → is_bsd_system_service_name port ≡ false
    → (accept_mitm_connection port acknowledge_rc rc s).1 ≡ s
unfolding accept_mitm_connection
other_accept-state port acknowledge_rc rc s other = elim (Bool-cases (acknowledge_rc == 0)) [
  | inl e ↦ elim (Bool-cases (rc == 0)) [
    | inl f ↦ rw (e, f, other) refl
    | inr f ↦ rw (e, f, other) refl
  ]
  | inr e ↦ rw (e, other) refl
]

granted-waiting :
    (granted : Bool) (pending waiting after k : ℕ)
    → suc k < 2 ^ 32
    → pending ≡ waiting
    → waiting ≤ k
    → after ≡ (if granted then increment pending else pending)
    → (after ≡ (if granted then suc waiting else waiting))
      × ((if granted then suc waiting else waiting) ≤ suc waiting)
granted-waiting true pending waiting after k fits e few f = (omega arith, omega arith)
granted-waiting false pending waiting after k fits e few f = (omega arith, omega arith)

module _ (programs : Programs) (config : BuildConfig) where
  queried-Counted :
      (k : ℕ) (port : PortIndex) (client : MitmProcessInfo) (w : World)
      → suc k < 2 ^ 32
      → Counted k w
      → Counted (suc k) (record w {
        state = (should_mitm programs config port client w.state).1;
        waiting =
            if is_granted (should_mitm programs config port client w.state).0 port
            then suc w.waiting
            else w.waiting;
      })
  queried-Counted k port client w fits c =
      let r = should_mitm-Recorded programs config client port w.state in
      let (counted, some_more) =
        granted-waiting (is_granted (should_mitm programs config port client w.state).0 port)
          w.state.pending_mitm_sessions w.waiting _ k fits c.pending (omega (arith, c.few))
          r.pending in
      record {
        pending = counted;
        above = omega (arith, c.above, r.active);
        below = omega (arith, c.below, r.active);
        few = omega (arith, c.few, some_more);
      }

  Step-Counted :
      (k : ℕ) {v w : World}
      → suc k < 2 ^ 32
      → Step programs config v w
      → Counted k v
      → Counted (suc k) w
  unfolding accept_mitm_connection passive_mitm_service_destructor equal
      promote_bsd_system_mitm_pending_to_active drop_bsd_system_mitm_pending
      drop_bsd_system_mitm_active
  Step-Counted k fits (queried port client w) c = queried-Counted k port client w fits c
  Step-Counted k fits (unacknowledged acknowledge_rc rc n w failed e) c =
      rw (unacknowledged-state acknowledge_rc rc w.state failed) record {
        pending = omega (arith, decrement_one _, c.pending, e);
        above = c.above;
        below = c.below;
        few = omega (arith, c.few, e);
      }
  Step-Counted k fits (refused rc n w failed e) c = rw (refused-state rc w.state failed) record {
    pending = omega (arith, decrement_one _, c.pending, e);
    above = c.above;
    below = c.below;
    few = omega (arith, c.few, e);
  }
  Step-Counted k fits (accepted n w e) c = record {
    pending = omega (arith, decrement_one _, c.pending, e);
    above = omega (arith, c.above, c.few, e);
    below = omega (arith, c.above, c.below, c.few, e);
    few = omega (arith, c.few, e);
  }
  Step-Counted k fits (accepted_other port acknowledge_rc rc w other) c =
      rw (other_accept-state port acknowledge_rc rc w.state other)
        record { pending = c.pending; above = c.above; below = c.below; few = omega (arith, c.few) }
  Step-Counted k fits (ended n w e) c =
      let d = decrement_one w.state.active_mitm_sessions in
      record {
        pending = c.pending;
        above = omega (arith, c.above, e, d);
        below = omega (arith, c.below, e, d);
        few = omega (arith, c.few, e);
      }
  Step-Counted k fits (ended_stray n w e) c =
      let d = decrement_one w.state.active_mitm_sessions in
      record {
        pending = c.pending;
        above = omega (arith, c.above, d);
        below = omega (arith, c.below, d);
        few = omega (arith, c.few);
      }
  Step-Counted k fits (ended_other port w other) c =
      rw (passive_mitm_service_destructor, other)
        record { pending = c.pending; above = c.above; below = c.below; few = omega (arith, c.few) }

  -- As long as fewer than 2^32 steps were taken, the pending count is the number of the sessions of
  -- `bsd:s` that wait for their accept, and the active count is at most the number of those that
  -- live, and falls short of it by at most the number of ended objects whose accept had failed.
  pub Reach-Counted : {k : ℕ} {w : World} → Reach programs config k w → k < 2 ^ 32 → Counted k w
  Reach-Counted began fits = record {
    pending = refl;
    above = omega arith;
    below = omega arith;
    few = omega arith;
  }
  Reach-Counted (next {k} r st) fits =
      Step-Counted k fits st (Reach-Counted r (omega (arith, fits)))
