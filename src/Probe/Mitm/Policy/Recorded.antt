-- ===== src/Probe/Mitm/Policy/Recorded.antt =====
-- What a query of net-probe/src/mitm_service.cpp leaves in the state, whatever its answer.
use nx_reverse.Base.{
  ℕ, ◌≡◌, ◌≢◌, refl, ap, Bool, true, false, not, ◌&&◌, List, [], ◌∷◌, ◌++◌, codes, equal, ◌==◌,
  if◌then◌else◌, All,
}
use mathlib.Core.Bool.{and-false}
use nx_reverse.Probe.Mitm.{
  Programs, BuildConfig, PortIndex, nifm_user, nifm_system, bsd_user, bsd_system, bsd_admin,
  ssl_user, ssl_system, notification_system, service_name_text, MitmProcessInfo, Decision,
  MitmState, increment, bsd_system_not_allowlisted, diagnostic_override, ShouldMitmPolicyReason,
}
use nx_reverse.Probe.Mitm.Policy.{
  is_self_program, record_decision, allows_ordinal, count_ordinal, note_bsd_system_mitm_pending,
  should_mitm_for_service, note_if, should_mitm, should_mitm_nifm_system, should_mitm_bsd_system,
  should_mitm_bsd_admin, should_mitm_ssl, is_nifm_target, is_diagnostic_override_enabled,
  forwarder_session, record_bsd_system,
}
use nx_reverse.Probe.Mitm.Sessions.{is_bsd_system_service_name}

-- A decision with the answer of the query.
pub record Carries (port : PortIndex) (client : MitmProcessInfo) (answer : Bool) (d : Decision)
    : Type 0 where
  pub same_service : d.service_name ≡ service_name_text port
  pub same_client : d.client_info ≡ client
  pub same_answer : d.result ≡ answer

-- The new decisions carry the answer, there is one if the client is taken, and only a taken client of
-- `bsd:s` changes a count, by one.
pub record Recorded (port : PortIndex) (client : MitmProcessInfo) (s : MitmState)
    (r : Bool × MitmState) : Type 0 where
  pub added : List Decision
  pub grows : r.1.decisions ≡ added ++ s.decisions
  pub carry : All (Carries port client r.0) added
  pub told : r.0 ≡ true → added ≢ []
  pub pending : r.1.pending_mitm_sessions ≡ (
      if r.0 && is_bsd_system_service_name port
      then increment s.pending_mitm_sessions
      else s.pending_mitm_sessions)
  pub active : r.1.active_mitm_sessions ≡ s.active_mitm_sessions

if-Recorded :
    {port : PortIndex} {client : MitmProcessInfo} {s : MitmState} {x y : Bool × MitmState}
    (b : Bool)
    → (b ≡ true → Recorded port client s x)
    → (b ≡ false → Recorded port client s y)
    → Recorded port client s (if b then x else y)
if-Recorded true holds other = holds refl
if-Recorded false holds other = other refl

-- A query that ends without a word.
refused-Recorded :
    (port : PortIndex) (client : MitmProcessInfo) (s : MitmState)
    → Recorded port client s (false, s)
refused-Recorded port client s = record {
  added = [];
  grows = refl;
  carry = tt;
  told = λ e. cc;
  pending = refl;
  active = refl;
}

cons_nonempty : (d : Decision) (ds : List Decision) → (d ∷ ds) ≢ []
cons_nonempty d ds e = cc

cons_grows :
    {d : Decision} {ds : List Decision} (added old : List Decision)
    → ds ≡ added ++ old
    → (d ∷ ds) ≡ ((d ∷ added) ++ old)
cons_grows {d} added old e = ap (λ ds. d ∷ ds) e

-- The state but for the decisions.
record Counts (s t : MitmState) : Type 0 where
  pub pending : t.pending_mitm_sessions ≡ s.pending_mitm_sessions
  pub active : t.active_mitm_sessions ≡ s.active_mitm_sessions

-- One decision with the answer, in a state that differs in nothing else that is counted.
told_once :
    (port : PortIndex) (client : MitmProcessInfo) (s : MitmState) (answer result : Bool)
    (reason : ShouldMitmPolicyReason) (pending active tag detail : ℕ) (t : MitmState)
    → t.decisions ≡ s.decisions
    → Counts s t
    → result ≡ answer
    → (answer && is_bsd_system_service_name port) ≡ false
    → Recorded port client s (
      answer,
      record_decision (service_name_text port) client result reason pending active tag detail t,
    )
unfolding record_decision
told_once port client s answer result reason pending active tag detail t same c e uncounted =
    record {
      added = _ ∷ [];
      grows = cons_grows [] s.decisions same;
      carry = (record { same_service = refl; same_client = refl; same_answer = e }, tt);
      told = λ _. cons_nonempty _ [];
      pending = rw uncounted c.pending;
      active = c.active;
    }

service-Recorded :
    (port : PortIndex) (client : MitmProcessInfo) (s : MitmState)
    → is_bsd_system_service_name port ≡ false
    → Recorded port client s (should_mitm_for_service (service_name_text port) client s)
unfolding should_mitm_for_service
service-Recorded port client s other =
    let answer = not (is_self_program client) in
    told_once port client s answer answer _ _ _ 0 0 s refl
      (record { pending = refl; active = refl }) refl (rw other (and-false answer))

-- A client of `bsd:s` that is taken, once the first decisions are told.
taken-Recorded :
    (client : MitmProcessInfo) (s t : MitmState) (added : List Decision)
    → is_self_program client ≡ false
    → t.decisions ≡ added ++ s.decisions
    → All (Carries bsd_system client true) added
    → Counts s t
    → Recorded bsd_system client s (note_if (should_mitm_for_service (codes "bsd:s") client t))
unfolding should_mitm_for_service note_if note_bsd_system_mitm_pending record_decision equal
taken-Recorded client s t added other grows carry c = rw other record {
  added = _ ∷ added;
  grows = cons_grows added s.decisions grows;
  carry = (record { same_service = refl; same_client = refl; same_answer = refl }, carry);
  told = λ _. cons_nonempty _ added;
  pending = ap increment c.pending;
  active = c.active;
}

module _ (programs : Programs) (config : BuildConfig) (client : MitmProcessInfo) where
  forwarder_session-Recorded :
      (s t : MitmState)
      → is_self_program client ≡ false
      → t.decisions ≡ s.decisions
      → Counts s t
      → Recorded bsd_system client s (forwarder_session programs config client t)
  unfolding forwarder_session equal record_decision
  forwarder_session-Recorded s t other same c =
      if-Recorded (allows_ordinal config.toolbox_forwarder_bsd_mitm t.ordinal_count)
        (λ e.
          taken-Recorded client s _ (_ ∷ []) other (cons_grows [] s.decisions same)
            (record { same_service = refl; same_client = refl; same_answer = e }, tt)
            (record { pending = c.pending; active = c.active }))
        (λ e. told_once bsd_system client s false _ _ _ _ _ _ t same c e refl)

  allowlisted-Recorded :
      (s : MitmState)
      → is_self_program client ≡ false
      → Recorded bsd_system client s (
          if not (is_diagnostic_override_enabled programs config client (codes "bsd:s"))
          then (false, record_bsd_system client false bsd_system_not_allowlisted s)
          else note_if (
              should_mitm_for_service
                (codes "bsd:s")
                client
                (record_bsd_system client true diagnostic_override s)))
  unfolding equal record_decision
  allowlisted-Recorded s other =
      if-Recorded (not (is_diagnostic_override_enabled programs config client (codes "bsd:s")))
        (λ _.
          told_once bsd_system client s false false bsd_system_not_allowlisted _ _ _ _ s refl
            (record { pending = refl; active = refl }) refl refl)
        (λ _.
          taken-Recorded client s (record_bsd_system client true diagnostic_override s) (_ ∷ [])
            other refl (record { same_service = refl; same_client = refl; same_answer = refl }, tt)
            (record { pending = refl; active = refl }))

  -- Every decision that a query hands to the monitor names its service and client and carries its
  -- answer, a client that is taken has one, the active sessions stay, and the pending ones grow by
  -- one exactly when a client of `bsd:s` is taken.
  pub should_mitm-Recorded :
      (port : PortIndex) (s : MitmState)
      → Recorded port client s (should_mitm programs config port client s)
  unfolding should_mitm should_mitm_nifm_system should_mitm_bsd_system should_mitm_bsd_admin
      should_mitm_ssl equal count_ordinal record_decision
  should_mitm-Recorded nifm_user s = service-Recorded nifm_user client s refl
  should_mitm-Recorded nifm_system s =
      if-Recorded (is_self_program client)
        (λ _.
          told_once nifm_system client s false false _ _ _ _ _ s refl
            (record { pending = refl; active = refl }) refl refl)
        (λ _.
          let answer = is_nifm_target programs config config.nifm_system_trace_target client in
          told_once nifm_system client s answer answer _ _ _ _ _ s refl
            (record { pending = refl; active = refl }) refl (and-false answer))
  should_mitm-Recorded bsd_user s = service-Recorded bsd_user client s refl
  should_mitm-Recorded bsd_system s =
      if-Recorded (is_self_program client)
        (λ _.
          told_once bsd_system client s false false _ _ _ _ _ s refl
            (record { pending = refl; active = refl }) refl refl)
        (λ other.
          if-Recorded
            (client.program_id == programs.toolbox_forwarder
              && config.allow_bsd_system_toolbox_forwarder)
            (λ _.
              forwarder_session-Recorded s (count_ordinal client s) other refl
                (record { pending = refl; active = refl }))
            (λ _. allowlisted-Recorded s other))
  should_mitm-Recorded bsd_admin s =
      if-Recorded (is_self_program client) (λ _. refused-Recorded bsd_admin client s)
        (λ _.
          if-Recorded _ (λ _. refused-Recorded bsd_admin client s)
            (λ _. service-Recorded bsd_admin client s refl))
  should_mitm-Recorded ssl_user s =
      if-Recorded (is_self_program client) (λ _. refused-Recorded ssl_user client s)
        (λ _.
          if-Recorded _ (λ _. refused-Recorded ssl_user client s)
            (λ _. service-Recorded ssl_user client s refl))
  should_mitm-Recorded ssl_system s =
      if-Recorded (is_self_program client) (λ _. refused-Recorded ssl_system client s)
        (λ _.
          if-Recorded _ (λ _. refused-Recorded ssl_system client s)
            (λ _. service-Recorded ssl_system client s refl))
  should_mitm-Recorded notification_system s = service-Recorded notification_system client s refl
