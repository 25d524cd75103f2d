-- ===== src/Toolbox/Config/Legacy.antt =====
-- `ApplyLegacySetting` of toolbox/src/runtime_config.cpp.
pub mod Keeps
use nx_reverse.Base.{
  ℕ, ◌+◌, Bool, true, false, not, ◌&&◌, ◌||◌, Option, none, some, List, [], ◌∷◌, ◌++◌, ◌-◌, Bytes,
  codes, equal, length, take, replicate, get_elem?, set, ltb, leb, ◌==◌, if◌then◌else◌,
}
use nx_reverse.Toolbox.Ipv4.{parse_unsigned, is_valid_ipv4, u16_max, u32_max, size_max}
use nx_reverse.Toolbox.Outcome.{BsdSystemUdpExpectedOutcome}
use nx_reverse.Toolbox.Config.{
  RuntimeScenario, direct_tunnel_udp, bsd_system_udp, tunnel_contract_validation, RuntimeProfile,
  RuntimeConfig, UdpScenarioConfig, TcpScenarioConfig, TunnelContractValidationConfig,
  BsdSystemUdpWorkloadConfig, parse_expected_outcome, parse_runtime_scenario,
}
use nx_reverse.Toolbox.Config.Parse.{parse_bool, parse_profile_key}
use nx_reverse.Toolbox.Config.Validate.{maximum_profiles, maximum_profile_name_length}
use nx_reverse.Toolbox.Config.Settings.{
  first_match, assign_unless, Assigned, assign, assign_port, with_udp, with_contract, with_bsd,
  with_profile, apply_run, apply_profile_field, apply_traffic, apply_checks,
}

-- A legacy switch `*.enabled` selects its scenario when it is on.
unfoldable pub enable : RuntimeConfig → RuntimeScenario → Bool → RuntimeConfig
enable config s enabled = if enabled then record config { scenario = s } else config

-- The legacy keys that have no other reader, on the active profile.
unfoldable pub legacy_choices : RuntimeConfig → RuntimeProfile → Bytes → List (Bytes × Assigned)
legacy_choices config profile value =
    let udp = config.udp in
    let index = config.active_profile in
    (codes "tunnel_udp.enabled", assign config (parse_bool value) (enable config direct_tunnel_udp))
    ∷ (
      codes "bsd_system_udp.enabled",
      assign config (parse_bool value) (enable config bsd_system_udp),
    )
    ∷ (
      codes "tunnel_contract.enabled",
      assign config (parse_bool value) (enable config tunnel_contract_validation),
    )
    ∷ (
      codes "tunnel_udp.destination_ipv4",
      assign_unless config (not (is_valid_ipv4 value)) (
          with_profile config index
            (record profile { tunnel_destination_ipv4 = value; bsd_destination_ipv4 = value })),
    )
    ∷ (
      codes "tunnel_udp.destination_port",
      assign_port config (parse_unsigned u16_max value)
          (λ n. with_profile config index (record profile { udp_destination_port = n })),
    )
    ∷ (
      codes "tunnel_udp.workload_id",
      assign config (parse_unsigned u32_max value) (λ n. record config { next_workload_id = n }),
    )
    ∷ (
      codes "tunnel_udp.payload_bytes",
      assign config (parse_unsigned size_max value)
          (λ n. with_udp config (record udp { payload_bytes = n })),
    )
    ∷ (
      codes "tunnel_udp.datagram_count",
      assign config (parse_unsigned u32_max value)
          (λ n. with_udp config (record udp { datagram_count = n })),
    )
    ∷ (
      codes "tunnel_udp.pacing_ms",
      assign config (parse_unsigned u32_max value)
          (λ n. with_udp config (record udp { pacing_ms = n })),
    )
    ∷ (
      codes "tunnel_udp.concurrent_flows",
      assign config (parse_unsigned u32_max value)
          (λ n. with_udp config (record udp { concurrent_flows = n })),
    )
    ∷ (
      codes "tunnel_udp.receive_deadline_ms",
      assign config (parse_unsigned u32_max value)
          (λ n. with_udp config (record udp { receive_deadline_ms = n })),
    )
    ∷ (
      codes "tunnel_udp.payload_seed",
      assign config (parse_unsigned u32_max value)
          (λ n. with_udp config (record udp { payload_seed = n })),
    )
    ∷ (
      codes "tunnel_udp.echo_replies",
      assign config (parse_bool value) (λ b. with_udp config (record udp { echo_replies = b })),
    )
    ∷ []

unfoldable pub apply_legacy_keys : RuntimeConfig → RuntimeProfile → Bytes → Bytes → Option Assigned
apply_legacy_keys config profile key value = first_match key (legacy_choices config profile value)

-- `ApplyLegacySetting`
unfoldable pub apply_legacy_setting : RuntimeConfig → Bytes → Bytes → Assigned
apply_legacy_setting config key value = elim (get_elem? config.profiles config.active_profile) [
  | none ↦ (config, false)
  | some profile ↦ elim (apply_legacy_keys config profile key value) [
    | some assigned ↦ assigned
    | none ↦ elim (apply_checks config key value) [
      | some assigned ↦ assigned
      | none ↦ (config, false)
    ]
  ]
]
