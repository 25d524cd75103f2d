-- ===== src/Toolbox/Config/Settings.antt =====
-- The settings of the current format, in the groups of `ApplySetting` of
-- toolbox/src/runtime_config.cpp. The chain of comparisons is cut into groups, each of which answers
-- `none` for a key that is none of its own.
pub mod Keeps
use nx_reverse.Base.{
  ℕ, ◌+◌, Bool, true, false, not, ◌&&◌, ◌||◌, Option, none, some, List, [], ◌∷◌, ◌++◌, ◌-◌, Bytes,
  codes, equal, length, take, replicate, get_elem?, set, ltb, leb, ◌==◌, if◌then◌else◌,
}
use nx_reverse.Toolbox.Ipv4.{parse_unsigned, is_valid_ipv4, u16_max, u32_max, size_max}
use nx_reverse.Toolbox.Outcome.{BsdSystemUdpExpectedOutcome}
use nx_reverse.Toolbox.Config.{
  RuntimeScenario, direct_tunnel_udp, bsd_system_udp, tunnel_contract_validation, RuntimeProfile,
  RuntimeConfig, UdpScenarioConfig, TcpScenarioConfig, TunnelContractValidationConfig,
  BsdSystemUdpWorkloadConfig, parse_expected_outcome, parse_runtime_scenario,
}
use nx_reverse.Toolbox.Config.Parse.{parse_bool, parse_profile_key}
use nx_reverse.Toolbox.Config.Validate.{maximum_profiles, maximum_profile_name_length}

-- The configuration as it is left, and whether the value was taken.
abbrev pub Assigned : Type 0
Assigned = RuntimeConfig × Bool

-- A reader writes its target only when it succeeds.
unfoldable pub assign : {A : Type 0} → RuntimeConfig → Option A → (A → RuntimeConfig) → Assigned
assign config none update = (config, false)
assign config (some a) update = (update a, true)

-- `ParseUnsigned(value, &port) && port != 0`: a zero is written and then refused.
unfoldable pub assign_port : RuntimeConfig → Option ℕ → (ℕ → RuntimeConfig) → Assigned
assign_port config none update = (config, false)
assign_port config (some port) update = (update port, not (port == 0))

-- A value is tested before it is written.
unfoldable pub assign_unless : RuntimeConfig → Bool → RuntimeConfig → Assigned
assign_unless config bad after = if bad then (config, false) else (after, true)

-- `if (key == k₁) { return r₁; } if (key == k₂) { return r₂; } …`
unfoldable pub first_match : Bytes → List (Bytes × Assigned) → Option Assigned
first_match key [] = none
first_match key ((k, result) ∷ choices) =
    if equal key k then some result else first_match key choices

module _ (config : RuntimeConfig) where
  abbrev pub with_udp : UdpScenarioConfig → RuntimeConfig
  with_udp udp = record config { udp = udp }

  abbrev pub with_contract : TunnelContractValidationConfig → RuntimeConfig
  with_contract contract = record config { tunnel_contract = contract }

  abbrev pub with_bsd : BsdSystemUdpWorkloadConfig → RuntimeConfig
  with_bsd bsd = record config { bsd_system_udp = bsd }

  abbrev pub with_profile : ℕ → RuntimeProfile → RuntimeConfig
  with_profile index profile = record config { profiles = set config.profiles index profile }

-- `profiles.resize(count, profiles.front())`; with no profile, which never is, nothing is done.
unfoldable pub resize_profiles : ℕ → List RuntimeProfile → List RuntimeProfile
resize_profiles count [] = []
resize_profiles count (front ∷ profiles) =
    take count (front ∷ profiles) ++ replicate (count - length (front ∷ profiles)) front

-- The case `profiles.count`.
unfoldable pub assign_count : RuntimeConfig → Option ℕ → Assigned
assign_count config none = (config, false)
assign_count config (some count) =
    if count == 0 || ltb maximum_profiles count
    then (config, false)
    else (record config { profiles = resize_profiles count config.profiles }, true)

-- The keys `run.*` and `profiles.count`.
unfoldable pub run_choices : RuntimeConfig → Bytes → List (Bytes × Assigned)
run_choices config value =
    (
      codes "run.scenario",
      assign config (parse_runtime_scenario value) (λ s. record config { scenario = s }),
    )
    ∷ (
      codes "run.next_workload_id",
      assign config (parse_unsigned u32_max value) (λ n. record config { next_workload_id = n }),
    )
    ∷ (
      codes "run.active_profile",
      assign config (parse_unsigned size_max value) (λ n. record config { active_profile = n }),
    )
    ∷ (codes "profiles.count", assign_count config (parse_unsigned size_max value))
    ∷ []

-- The fields of a profile that is there, `none` for one that is no field.
unfoldable pub profile_choices :
    RuntimeConfig → ℕ → RuntimeProfile → Bytes → List (Bytes × Assigned)
profile_choices config index profile value =
    (
      codes "name",
      assign_unless config (ltb maximum_profile_name_length (length value))
          (with_profile config index (record profile { name = value })),
    )
    ∷ (
      codes "tunnel_destination_ipv4",
      assign_unless config (not (is_valid_ipv4 value))
          (with_profile config index (record profile { tunnel_destination_ipv4 = value })),
    )
    ∷ (
      codes "bsd_destination_ipv4",
      assign_unless config (not (is_valid_ipv4 value))
          (with_profile config index (record profile { bsd_destination_ipv4 = value })),
    )
    ∷ (
      codes "udp_destination_port",
      assign_port config (parse_unsigned u16_max value)
          (λ n. with_profile config index (record profile { udp_destination_port = n })),
    )
    ∷ (
      codes "tcp_destination_port",
      assign_port config (parse_unsigned u16_max value)
          (λ n. with_profile config index (record profile { tcp_destination_port = n })),
    )
    ∷ []

-- The keys `udp.*` and `tcp.*`.
unfoldable pub traffic_choices : RuntimeConfig → Bytes → List (Bytes × Assigned)
traffic_choices config value =
    let udp = config.udp in
    (
      codes "udp.payload_bytes",
      assign config (parse_unsigned size_max value)
          (λ n. with_udp config (record udp { payload_bytes = n })),
    )
    ∷ (
      codes "udp.datagram_count",
      assign config (parse_unsigned u32_max value)
          (λ n. with_udp config (record udp { datagram_count = n })),
    )
    ∷ (
      codes "udp.pacing_ms",
      assign config (parse_unsigned u32_max value)
          (λ n. with_udp config (record udp { pacing_ms = n })),
    )
    ∷ (
      codes "udp.concurrent_flows",
      assign config (parse_unsigned u32_max value)
          (λ n. with_udp config (record udp { concurrent_flows = n })),
    )
    ∷ (
      codes "udp.receive_deadline_ms",
      assign config (parse_unsigned u32_max value)
          (λ n. with_udp config (record udp { receive_deadline_ms = n })),
    )
    ∷ (
      codes "udp.payload_seed",
      assign config (parse_unsigned u32_max value)
          (λ n. with_udp config (record udp { payload_seed = n })),
    )
    ∷ (
      codes "udp.echo_replies",
      assign config (parse_bool value) (λ b. with_udp config (record udp { echo_replies = b })),
    )
    ∷ (
      codes "tcp.receive_deadline_ms",
      assign config (parse_unsigned u32_max value)
          (λ n. record config { tcp = record { receive_deadline_ms = n } }),
    )
    ∷ []

-- The keys `tunnel_contract.verify_*` and `bsd_system_udp.*`, which both formats have.
unfoldable pub checks_choices : RuntimeConfig → Bytes → List (Bytes × Assigned)
checks_choices config value =
    let contract = config.tunnel_contract in
    let bsd = config.bsd_system_udp in
    (
      codes "tunnel_contract.verify_cloned_session_lifetime",
      assign config (parse_bool value)
          (λ b. with_contract config (record contract { verify_cloned_session_lifetime = b })),
    )
    ∷ (
      codes "tunnel_contract.verify_mixed_batch",
      assign config (parse_bool value)
          (λ b. with_contract config (record contract { verify_mixed_batch = b })),
    )
    ∷ (
      codes "bsd_system_udp.verify_post_route_rejection",
      assign config (parse_bool value)
          (λ b. with_bsd config (record bsd { verify_post_route_rejection = b })),
    )
    ∷ (
      codes "bsd_system_udp.expected_outcome",
      assign config (parse_expected_outcome value)
          (λ o. with_bsd config (record bsd { expected_outcome = o })),
    )
    ∷ (
      codes "bsd_system_udp.require_writable_recovery",
      assign config (parse_bool value)
          (λ b. with_bsd config (record bsd { require_writable_recovery = b })),
    )
    ∷ []

unfoldable pub apply_run : RuntimeConfig → Bytes → Bytes → Option Assigned
apply_run config key value = first_match key (run_choices config value)

unfoldable pub apply_profile_field :
    RuntimeConfig → ℕ → RuntimeProfile → Bytes → Bytes → Option Assigned
apply_profile_field config index profile field value =
    first_match field (profile_choices config index profile value)

unfoldable pub apply_traffic : RuntimeConfig → Bytes → Bytes → Option Assigned
apply_traffic config key value = first_match key (traffic_choices config value)

unfoldable pub apply_checks : RuntimeConfig → Bytes → Bytes → Option Assigned
apply_checks config key value = first_match key (checks_choices config value)
