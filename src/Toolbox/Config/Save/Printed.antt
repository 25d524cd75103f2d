-- ===== src/Toolbox/Config/Save/Printed.antt =====
-- Every setting that toolbox/src/runtime_config.cpp saves is read back as one line.
use nx_reverse.Base.{
  ℕ, suc, ◌+◌, ◌≤◌, refl, arith, Bool, true, false, List, [], ◌∷◌, ◌++◌, Bytes, codes, length, All,
  All-append,
}
use nx_reverse.Base.Decimal.{decimal}
use nx_reverse.Toolbox.Ipv4.{size_max}
use nx_reverse.Toolbox.Outcome.{
  BsdSystemUdpExpectedOutcome, echo_reply, no_reply_timeout, terminal_closure,
}
use nx_reverse.Toolbox.Config.{
  RuntimeScenario, direct_tunnel_udp, direct_tunnel_tcp, bsd_system_udp, bsd_system_tcp,
  tunnel_contract_validation, RuntimeConfig, RuntimeProfile, expected_outcome_name,
}
use nx_reverse.Toolbox.Ipv4.Quads.{IsQuad}
use nx_reverse.Toolbox.Config.Validate.{Limits}
use nx_reverse.Toolbox.Config.Validate.Sound.{IsValidConfig}
use nx_reverse.Toolbox.Config.Save.{
  run_settings, profile_settings, profiles_settings, workload_settings, saved_settings,
  scenario_key, bool_text, profile_key,
}
use nx_reverse.Toolbox.Config.Save.Lines.{IsText, IsSetting}
use nx_reverse.Toolbox.Config.Save.Profiles.{IsKept}
use nx_reverse.Toolbox.Config.Save.Words.{
  IsWord, IsWord-IsText, word-IsSetting, decimal-IsWord, IsQuad-IsWord, profile_key-IsWord,
}
use nx_reverse.Toolbox.Config.Save.Storable.{IsStorable}

scenario_key-IsWord : (s : RuntimeScenario) → IsWord 100 (scenario_key s)
unfolding scenario_key
scenario_key-IsWord direct_tunnel_udp = record {
  whole = refl;
  present = λ e. cc;
  short = omega arith;
}
scenario_key-IsWord direct_tunnel_tcp = record {
  whole = refl;
  present = λ e. cc;
  short = omega arith;
}
scenario_key-IsWord bsd_system_udp = record { whole = refl; present = λ e. cc; short = omega arith }
scenario_key-IsWord bsd_system_tcp = record { whole = refl; present = λ e. cc; short = omega arith }
scenario_key-IsWord tunnel_contract_validation = record {
  whole = refl;
  present = λ e. cc;
  short = omega arith;
}

bool_text-IsWord : (b : Bool) → IsWord 100 (bool_text b)
unfolding bool_text
bool_text-IsWord true = record { whole = refl; present = λ e. cc; short = omega arith }
bool_text-IsWord false = record { whole = refl; present = λ e. cc; short = omega arith }

outcome_name-IsWord : (o : BsdSystemUdpExpectedOutcome) → IsWord 100 (expected_outcome_name o)
unfolding expected_outcome_name
outcome_name-IsWord echo_reply = record { whole = refl; present = λ e. cc; short = omega arith }
outcome_name-IsWord no_reply_timeout = record {
  whole = refl;
  present = λ e. cc;
  short = omega arith;
}
outcome_name-IsWord terminal_closure = record {
  whole = refl;
  present = λ e. cc;
  short = omega arith;
}

value-IsSetting : (key value : Bytes) → IsWord 200 key → IsWord 100 value → IsSetting (key, value)
value-IsSetting key value k w =
    word-IsSetting key value k (IsWord-IsText 100 value w) (omega (arith, w.short))

number-IsSetting :
    (key : Bytes) (n : ℕ) → IsWord 200 key → n ≤ size_max → IsSetting (key, decimal n)
number-IsSetting key n k fits =
    let w = decimal-IsWord n fits in
    word-IsSetting key (decimal n) k (IsWord-IsText 20 (decimal n) w) (omega (arith, w.short))

address-IsSetting : (key text : Bytes) → IsWord 200 key → IsQuad text → IsSetting (key, text)
address-IsSetting key text k q =
    let w = IsQuad-IsWord text q in
    word-IsSetting key text k (IsWord-IsText 15 text w) (omega (arith, w.short))

profile_settings-IsSetting :
    (i : ℕ) (p : RuntimeProfile)
    → i ≤ size_max
    → IsKept p
    → IsText p.name
    → All IsSetting (profile_settings i p)
profile_settings-IsSetting i p few k name = (
  word-IsSetting (profile_key i (codes "name")) p.name
      (profile_key-IsWord i (codes "name") few
        (record { whole = refl; present = λ e. cc; short = omega arith }))
      name (omega (arith, k.profile.short_name)),
  (
    address-IsSetting (profile_key i (codes "tunnel_destination_ipv4")) p.tunnel_destination_ipv4
        (profile_key-IsWord i (codes "tunnel_destination_ipv4") few
          (record { whole = refl; present = λ e. cc; short = omega arith }))
        k.profile.tunnel_quad,
    (
      address-IsSetting (profile_key i (codes "bsd_destination_ipv4")) p.bsd_destination_ipv4
          (profile_key-IsWord i (codes "bsd_destination_ipv4") few
            (record { whole = refl; present = λ e. cc; short = omega arith }))
          k.profile.bsd_quad,
      (
        number-IsSetting (profile_key i (codes "udp_destination_port")) p.udp_destination_port
            (profile_key-IsWord i (codes "udp_destination_port") few
              (record { whole = refl; present = λ e. cc; short = omega arith }))
            (omega (arith, k.udp_fits)),
        (
          number-IsSetting (profile_key i (codes "tcp_destination_port")) p.tcp_destination_port
              (profile_key-IsWord i (codes "tcp_destination_port") few
                (record { whole = refl; present = λ e. cc; short = omega arith }))
              (omega (arith, k.tcp_fits)),
          tt,
        ),
      ),
    ),
  ),
)

profiles_settings-IsSetting :
    (i : ℕ) (profiles : List RuntimeProfile)
    → i + length profiles ≤ size_max
    → All IsKept profiles
    → All (λ p. IsText p.name) profiles
    → All IsSetting (profiles_settings i profiles)
unfolding profiles_settings
profiles_settings-IsSetting i [] few _ _ = tt
profiles_settings-IsSetting i (p ∷ profiles) few (k, ks) (n, ns) =
    All-append IsSetting (profile_settings i p) (profiles_settings (suc i) profiles)
      (profile_settings-IsSetting i p (omega arith) k n)
      (profiles_settings-IsSetting (suc i) profiles (omega arith) ks ns)

module _ (limits : Limits) (c : RuntimeConfig) (v : IsValidConfig limits c) (h : IsStorable c) where
  run_settings-IsSetting : All IsSetting (run_settings c)
  run_settings-IsSetting = (
    value-IsSetting (codes "run.scenario") (scenario_key c.scenario)
        (record { whole = refl; present = λ e. cc; short = omega arith })
        (scenario_key-IsWord c.scenario),
    (
      number-IsSetting (codes "run.next_workload_id") (c.next_workload_id)
          (record { whole = refl; present = λ e. cc; short = omega arith })
          (omega (arith, h.workload_fits)),
      (
        number-IsSetting (codes "run.active_profile") (c.active_profile)
            (record { whole = refl; present = λ e. cc; short = omega arith })
            (omega (arith, v.active, v.few_profiles)),
        (
          number-IsSetting (codes "profiles.count") (length c.profiles)
              (record { whole = refl; present = λ e. cc; short = omega arith })
              (omega (arith, v.few_profiles)),
          tt,
        ),
      ),
    ),
  )

  workload_settings-IsSetting : All IsSetting (workload_settings c)
  workload_settings-IsSetting = (
    number-IsSetting (codes "udp.payload_bytes") (c.udp.payload_bytes)
        (record { whole = refl; present = λ e. cc; short = omega arith }) h.payload_fits,
    (
      number-IsSetting (codes "udp.datagram_count") (c.udp.datagram_count)
          (record { whole = refl; present = λ e. cc; short = omega arith })
          (omega (arith, v.settings.datagrams)),
      (
        number-IsSetting (codes "udp.pacing_ms") (c.udp.pacing_ms)
            (record { whole = refl; present = λ e. cc; short = omega arith })
            (omega (arith, v.settings.pacing)),
        (
          number-IsSetting (codes "udp.concurrent_flows") (c.udp.concurrent_flows)
              (record { whole = refl; present = λ e. cc; short = omega arith })
              (omega (arith, h.flows_fit)),
          (
            number-IsSetting (codes "udp.receive_deadline_ms") (c.udp.receive_deadline_ms)
                (record { whole = refl; present = λ e. cc; short = omega arith })
                (omega (arith, v.settings.udp_deadline_high)),
            (
              number-IsSetting (codes "udp.payload_seed") (c.udp.payload_seed)
                  (record { whole = refl; present = λ e. cc; short = omega arith })
                  (omega (arith, h.seed_fits)),
              (
                value-IsSetting (codes "udp.echo_replies") (bool_text c.udp.echo_replies)
                    (record { whole = refl; present = λ e. cc; short = omega arith })
                    (bool_text-IsWord c.udp.echo_replies),
                (
                  number-IsSetting (codes "tcp.receive_deadline_ms") (c.tcp.receive_deadline_ms)
                      (record { whole = refl; present = λ e. cc; short = omega arith })
                      (omega (arith, v.settings.tcp_deadline_high)),
                  (
                    value-IsSetting (codes "tunnel_contract.verify_cloned_session_lifetime")
                        (bool_text c.tunnel_contract.verify_cloned_session_lifetime)
                        (record { whole = refl; present = λ e. cc; short = omega arith })
                        (bool_text-IsWord c.tunnel_contract.verify_cloned_session_lifetime),
                    (
                      value-IsSetting (codes "tunnel_contract.verify_mixed_batch")
                          (bool_text c.tunnel_contract.verify_mixed_batch)
                          (record { whole = refl; present = λ e. cc; short = omega arith })
                          (bool_text-IsWord c.tunnel_contract.verify_mixed_batch),
                      (
                        value-IsSetting (codes "bsd_system_udp.verify_post_route_rejection")
                            (bool_text c.bsd_system_udp.verify_post_route_rejection)
                            (record { whole = refl; present = λ e. cc; short = omega arith })
                            (bool_text-IsWord c.bsd_system_udp.verify_post_route_rejection),
                        (
                          value-IsSetting (codes "bsd_system_udp.expected_outcome")
                              (expected_outcome_name c.bsd_system_udp.expected_outcome)
                              (record { whole = refl; present = λ e. cc; short = omega arith })
                              (outcome_name-IsWord c.bsd_system_udp.expected_outcome),
                          (
                            value-IsSetting (codes "bsd_system_udp.require_writable_recovery")
                                (bool_text c.bsd_system_udp.require_writable_recovery)
                                (record { whole = refl; present = λ e. cc; short = omega arith })
                                (bool_text-IsWord c.bsd_system_udp.require_writable_recovery),
                            tt,
                          ),
                        ),
                      ),
                    ),
                  ),
                ),
              ),
            ),
          ),
        ),
      ),
    ),
  )

  pub saved_settings-IsSetting : All IsSetting (saved_settings c)
  saved_settings-IsSetting =
      All-append IsSetting (run_settings c) (profiles_settings 0 c.profiles ++ workload_settings c)
        run_settings-IsSetting
        (All-append IsSetting (profiles_settings 0 c.profiles) (workload_settings c)
          (profiles_settings-IsSetting 0 c.profiles (omega (arith, v.few_profiles)) h.kept h.names)
          workload_settings-IsSetting)
