-- ===== src/Probe/Mitm/Policy/Shipped.antt =====
-- The policy of net-probe/src/mitm_service.cpp under the settings of net-probe/src/build_config.hpp.
use nx_reverse.Base.{
  ℕ, ◌≡◌, ◌≢◌, ◌↔◌, refl, sym, ◌∙◌, ==_iff, Bool-cases, inl, inr, Bool, true, false, not, ◌&&◌,
  ◌||◌, List, [], ◌∷◌, Bytes, codes, equal, ◌==◌, if◌then◌else◌, All,
}
use mathlib.Core.Bool.{true≢false}
use nx_reverse.Probe.Mitm.{
  Programs, build_config, bsd_system_not_allowlisted, diagnostic_override, PortIndex, nifm_user,
  nifm_system, bsd_user, bsd_system, bsd_admin, ssl_user, ssl_system, notification_system,
  MitmProcessInfo, MitmState, wireguard_program_id, net_probe_program_id,
  sphaira_wrapper_program_id,
}
use nx_reverse.Probe.Mitm.Policy.{
  is_self_program, switch_of, should_mitm_for_service, note_if, should_mitm,
  should_mitm_nifm_system, should_mitm_bsd_system, should_mitm_bsd_admin, should_mitm_ssl,
  forwarder_session, count_ordinal, record_bsd_system, is_diagnostic_override_enabled,
  bsd_system_switches, bsd_admin_switches, ssl_switches, is_bsd_system_denylisted_program,
  is_bsd_admin_denylisted_program,
}

-- The programs that are kept from the ssl services.
abbrev pub denylist : Programs → List ℕ
denylist programs =
    programs.npns ∷ programs.eupld ∷ programs.olsc ∷ programs.bsd_sockets ∷ programs.ssl
    ∷ programs.nim ∷ sphaira_wrapper_program_id ∷ programs.toolbox_forwarder ∷ []

abbrev pub Admits : Programs → PortIndex → ℕ → Type 0
Admits programs nifm_system program = program ≡ programs.qlaunch
Admits programs bsd_system program = program ≡ programs.toolbox_forwarder
Admits programs bsd_admin program = program ≢ programs.qlaunch
Admits programs ssl_user program = All (λ p. program ≢ p) (denylist programs)
Admits programs ssl_system program = All (λ p. program ≢ p) (denylist programs)
Admits programs _ program = Unit

abbrev pub Permits : Programs → PortIndex → ℕ → Type 0
Permits programs port program =
    All (λ p. program ≢ p) (wireguard_program_id ∷ net_probe_program_id ∷ [])
    × Admits programs port program

abbrev Answers : Bool → Type 0 → Type 0
Answers answer P = (answer ≡ true) ↔ P

refuses : {P : Type 0} → ¬ P → Answers false P
refuses h = (λ e. absurd cc, λ p. absurd (h p))

takes : {P : Type 0} → P → Answers true P
takes p = (λ _. p, λ _. refl)

if-Answers :
    {P : Type 0} (b : Bool) (x y : Bool × MitmState)
    → (b ≡ true → Answers x.0 P)
    → (b ≡ false → Answers y.0 P)
    → Answers (if b then x else y).0 P
if-Answers true x y holds other = holds refl
if-Answers false x y holds other = other refl

is_other : (x p : ℕ) → (x == p) ≡ false → x ≢ p
is_other x p e same = absurd (true≢false (sym ((==_iff x p).1 same) ∙ e))

-- One more program in a test that none is met.
differs :
    (x p : ℕ) (c : Bool) {Q : Type 0} → (c ≡ false) ↔ Q → ((x == p || c) ≡ false) ↔ ((x ≢ p) × Q)
differs x p c h = elim (Bool-cases (x == p)) [
  | inl e ↦ (λ f. absurd (true≢false (rw e at f)), λ q. absurd (q.0 ((==_iff x p).0 e)))
  | inr e ↦ rw e (λ f. (is_other x p e, h.0 f), λ q. h.1 q.1)
]

other_iff : (x p : ℕ) → ((x == p) ≡ false) ↔ (x ≢ p)
other_iff x p = (
  is_other x p,
  λ q. elim (Bool-cases (x == p)) [ inl e ↦ absurd (q ((==_iff x p).0 e)) | inr e ↦ e ],
)

differs_last : (x p : ℕ) → ((x == p) ≡ false) ↔ ((x ≢ p) × Unit {0})
differs_last x p = (λ f. (is_other x p f, tt), λ q. (other_iff x p).1 q.0)

switch_of-off :
    (x : ℕ) (switches : List (ℕ × Bool))
    → All (λ s. x ≡ s.0 → s.1 ≡ false) switches
    → switch_of x switches ≡ false
unfolding switch_of
switch_of-off x [] _ = refl
switch_of-off x ((p, allowed) ∷ switches) (h, hs) = elim (Bool-cases (x == p)) [
  | inl e ↦ rw e (h ((==_iff x p).0 e))
  | inr e ↦ rw e (switch_of-off x switches hs)
]

module _ (programs : Programs) (client : MitmProcessInfo) where
  self_iff :
      (is_self_program client ≡ false)
      ↔ All (λ p. client.program_id ≢ p) (wireguard_program_id ∷ net_probe_program_id ∷ [])
  self_iff =
      differs client.program_id wireguard_program_id _
        (differs_last client.program_id net_probe_program_id)

  denylisted_iff :
      (is_bsd_system_denylisted_program programs build_config client ≡ false)
      ↔ All (λ p. client.program_id ≢ p) (denylist programs)
  unfolding is_bsd_system_denylisted_program
  denylisted_iff =
      let x = client.program_id in
      differs x programs.npns _ (
        differs x programs.eupld _ (
          differs x programs.olsc _ (
            differs x programs.bsd_sockets _ (
              differs x programs.ssl _ (
                differs x programs.nim _ (
                  differs x sphaira_wrapper_program_id _
                    (differs_last x programs.toolbox_forwarder)))))))

  -- The guard that every query has.
  guarded :
      {A : Type 0} (r : Bool × MitmState) (refused : MitmState)
      → (is_self_program client ≡ false → Answers r.0 A)
      → Answers
          (if is_self_program client then (false, refused) else r).0
          (All (λ p. client.program_id ≢ p) (wireguard_program_id ∷ net_probe_program_id ∷ []) × A)
  guarded r refused h =
      if-Answers (is_self_program client) _ _
        (λ e. refuses (λ q. true≢false (sym e ∙ self_iff.1 q.0)))
        (λ e. let f = h e in (λ g. (self_iff.0 e, f.0 g), λ q. f.1 q.1))

  -- A query that asks nothing else.
  unguarded :
      (service : Bytes) (s : MitmState)
      → Answers (should_mitm_for_service service client s).0 (
          All (λ p. client.program_id ≢ p) (wireguard_program_id ∷ net_probe_program_id ∷ [])
          × Unit {0})
  unfolding should_mitm_for_service
  unguarded service s = elim (Bool-cases (is_self_program client)) [
    | inl e ↦ rw e (refuses (λ q. true≢false (sym e ∙ self_iff.1 q.0)))
    | inr e ↦ rw e (takes (self_iff.0 e, tt))
  ]

  bsd_system_override :
      client.program_id ≢ programs.toolbox_forwarder
      → is_diagnostic_override_enabled programs build_config client (codes "bsd:s") ≡ false
  unfolding is_diagnostic_override_enabled bsd_system_switches equal
  bsd_system_override other =
      let off : (p : ℕ) → client.program_id ≡ p → false ≡ false = λ _ _. refl in
      switch_of-off client.program_id (bsd_system_switches programs build_config) (
        off programs.npns,
        (
          off programs.eupld,
          (
            off programs.olsc,
            (
              off programs.bsd_sockets,
              (
                off programs.ssl,
                (off programs.nim, (off sphaira_wrapper_program_id, ((λ e. absurd (other e)), tt))),
              ),
            ),
          ),
        ),
      )

  bsd_admin_override :
      is_diagnostic_override_enabled programs build_config client (codes "bsd:a") ≡ false
  unfolding is_diagnostic_override_enabled bsd_admin_switches equal
  bsd_admin_override =
      switch_of-off client.program_id (bsd_admin_switches programs build_config) ((λ _. refl), tt)

  ssl_override :
      (service : Bytes)
      → is_diagnostic_override_enabled programs build_config client service
        ≡ switch_of client.program_id (ssl_switches programs build_config)
      → is_diagnostic_override_enabled programs build_config client service ≡ false
  unfolding ssl_switches
  ssl_override service e =
      e
      ∙ switch_of-off client.program_id (ssl_switches programs build_config)
          ((λ _. refl), ((λ _. refl), ((λ _. refl), tt)))

  forwarder-Answers :
      (s : MitmState)
      → is_self_program client ≡ false
      → Answers (forwarder_session programs build_config client s).0 Unit
  unfolding forwarder_session should_mitm_for_service note_if
  forwarder-Answers s other = rw other (takes tt)

  system-Answers :
      (s : MitmState)
      → is_self_program client ≡ false
      → Answers
          (if client.program_id == programs.toolbox_forwarder && true
            then forwarder_session programs build_config client (count_ordinal client s)
            else if not
                (is_diagnostic_override_enabled programs build_config client (codes "bsd:s"))
            then (false, record_bsd_system client false bsd_system_not_allowlisted s)
            else note_if (
                should_mitm_for_service
                  (codes "bsd:s")
                  client
                  (record_bsd_system client true diagnostic_override s))).0
          (client.program_id ≡ programs.toolbox_forwarder)
  system-Answers s other = elim (Bool-cases (client.program_id == programs.toolbox_forwarder)) [
    | inl e ↦ rw e (
      λ _. (==_iff client.program_id programs.toolbox_forwarder).0 e,
      λ _. (forwarder-Answers (count_ordinal client s) other).1 tt,
    )
    | inr e ↦
        let differ = is_other client.program_id programs.toolbox_forwarder e in
        rw (e, bsd_system_override differ) (refuses differ)
  ]

  kept_from :
      (denied override : Bool) (service : Bytes) (s : MitmState) {A : Type 0}
      → is_self_program client ≡ false
      → override ≡ false
      → (denied ≡ false) ↔ A
      → Answers
          (if denied && not override
            then (false, s)
            else should_mitm_for_service service client s).0
          A
  unfolding should_mitm_for_service
  kept_from true false service s other off h = refuses (λ q. true≢false (h.1 q))
  kept_from false false service s other off h = rw other (takes (h.0 refl))
  kept_from _ true service s other off h = absurd (true≢false off)

  -- With the settings of the build a query answers true exactly for a client that is neither
  -- wireguard-nx nor the probe and that is, for `nifm:s`, qlaunch, for `bsd:s`, the toolbox
  -- forwarder, for `bsd:a`, not qlaunch, and for `ssl` and `ssl:s`, none of the eight programs that
  -- `IsBsdSystemDenylistedProgram` names.
  pub should_mitm-build_config :
      (port : PortIndex) (s : MitmState)
      → ((should_mitm programs build_config port client s).0 ≡ true)
        ↔ Permits programs port client.program_id
  unfolding should_mitm should_mitm_nifm_system should_mitm_bsd_system should_mitm_bsd_admin
      should_mitm_ssl is_diagnostic_override_enabled equal is_bsd_admin_denylisted_program
  should_mitm-build_config nifm_user s = unguarded (codes "nifm:u") s
  should_mitm-build_config nifm_system s =
      guarded _ _ (λ _. ==_iff client.program_id programs.qlaunch)
  should_mitm-build_config bsd_user s = unguarded (codes "bsd:u") s
  should_mitm-build_config bsd_system s = guarded _ _ (system-Answers s)
  should_mitm-build_config bsd_admin s = guarded _ _ (λ other.
      kept_from (is_bsd_admin_denylisted_program programs build_config client) _ (codes "bsd:a") s
        other bsd_admin_override (other_iff client.program_id programs.qlaunch))
  should_mitm-build_config ssl_user s = guarded _ _ (λ other.
      kept_from (is_bsd_system_denylisted_program programs build_config client) _ (codes "ssl") s
        other (ssl_override (codes "ssl") refl) denylisted_iff)
  should_mitm-build_config ssl_system s = guarded _ _ (λ other.
      kept_from (is_bsd_system_denylisted_program programs build_config client) _ (codes "ssl:s") s
        other (ssl_override (codes "ssl:s") refl) denylisted_iff)
  should_mitm-build_config notification_system s = unguarded (codes "notif:s") s
