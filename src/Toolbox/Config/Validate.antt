-- ===== src/Toolbox/Config/Validate.antt =====
-- `ValidateRuntimeConfig` of toolbox/src/runtime_config.cpp. A message is the constructor that
-- stands for it. `Limits` holds the two bounds that come from the wireguard-nx headers.
pub mod Sound
use nx_reverse.Base.{
  ℕ, ◌+◌, Bool, true, false, not, ◌&&◌, ◌||◌, Option, none, some, List, [], ◌∷◌, Bytes, length, ltb,
  leb, ◌==◌, if◌then◌else◌, is_empty,
}
use nx_reverse.Toolbox.Ipv4.{is_valid_ipv4}
use nx_reverse.Toolbox.Outcome.{
  BsdSystemUdpExpectedOutcome, echo_reply, no_reply_timeout, terminal_closure,
}
use nx_reverse.Toolbox.Config.{
  RuntimeScenario, direct_tunnel_udp, tunnel_contract_validation, RuntimeProfile, RuntimeConfig,
  UdpScenarioConfig, TcpScenarioConfig, BsdSystemUdpWorkloadConfig, TunnelContractValidationConfig,
  is_bsd_system_udp,
}

-- `wgnx::tunnel::MaximumUdpPayloadStorageBytes` and `MaximumFlowsPerClient`
pub record Limits : Type 0 where
  pub maximum_payload_bytes : ℕ
  pub maximum_flows : ℕ

abbrev pub minimum_payload_bytes : ℕ
minimum_payload_bytes = 24

abbrev pub maximum_profiles : ℕ
maximum_profiles = 8

abbrev pub maximum_profile_name_length : ℕ
maximum_profile_name_length = 32

abbrev pub maximum_datagram_count : ℕ
maximum_datagram_count = 4096

abbrev pub maximum_duration_ms : ℕ
maximum_duration_ms = 60000

pub data ConfigError : Type 0 where
  no_active_profile bad_profile_name bad_profile_destination zero_udp_port zero_tcp_port :
      ConfigError
  bad_payload_bytes bad_datagram_count bad_udp_timeout bad_concurrent_flows : ConfigError
  bad_tcp_deadline no_reply_needs_single closure_needs_single no_contract_check : ConfigError

-- One round of the loop over the profiles.
unfoldable pub validate_profile : RuntimeProfile → Option ConfigError
validate_profile profile =
    if is_empty profile.name || ltb maximum_profile_name_length (length profile.name)
    then some bad_profile_name
    else if not (is_valid_ipv4 profile.tunnel_destination_ipv4)
        || not (is_valid_ipv4 profile.bsd_destination_ipv4)
    then some bad_profile_destination
    else if profile.udp_destination_port == 0
    then some zero_udp_port
    else if profile.tcp_destination_port == 0
    then some zero_tcp_port
    else none

unfoldable pub validate_profiles : List RuntimeProfile → Option ConfigError
validate_profiles [] = none
validate_profiles (profile ∷ profiles) =
    let rest = validate_profiles profiles in
    elim (validate_profile profile) [ some error ↦ some error | none ↦ rest ]

abbrev pub is_no_reply : BsdSystemUdpExpectedOutcome → Bool
is_no_reply no_reply_timeout = true
is_no_reply _ = false

abbrev pub is_closure : BsdSystemUdpExpectedOutcome → Bool
is_closure terminal_closure = true
is_closure _ = false

abbrev pub is_contract_validation : RuntimeScenario → Bool
is_contract_validation tunnel_contract_validation = true
is_contract_validation _ = false

-- The checks of the scenario's own settings, from `const UdpScenarioConfig& udp` on.
unfoldable pub validate_settings : Limits → RuntimeConfig → Option ConfigError
validate_settings limits config =
    let udp = config.udp in
    let bsd = config.bsd_system_udp in
    if ltb udp.payload_bytes minimum_payload_bytes
      || ltb limits.maximum_payload_bytes udp.payload_bytes
    then some bad_payload_bytes
    else if udp.datagram_count == 0 || ltb maximum_datagram_count udp.datagram_count
    then some bad_datagram_count
    else if ltb maximum_duration_ms udp.pacing_ms
        || udp.receive_deadline_ms == 0
        || ltb maximum_duration_ms udp.receive_deadline_ms
    then some bad_udp_timeout
    else if udp.concurrent_flows == 0 || ltb limits.maximum_flows udp.concurrent_flows
    then some bad_concurrent_flows
    else if config.tcp.receive_deadline_ms == 0
        || ltb maximum_duration_ms config.tcp.receive_deadline_ms
    then some bad_tcp_deadline
    else if is_bsd_system_udp config.scenario
        && is_no_reply bsd.expected_outcome
        && (udp.echo_replies || not (udp.datagram_count == 1) || not (udp.concurrent_flows == 1))
    then some no_reply_needs_single
    else if is_bsd_system_udp config.scenario
        && is_closure bsd.expected_outcome
        && (bsd.require_writable_recovery
            || not udp.echo_replies
            || not (udp.datagram_count == 1)
            || not (udp.concurrent_flows == 1))
    then some closure_needs_single
    else if is_contract_validation config.scenario
        && not config.tunnel_contract.verify_cloned_session_lifetime
        && not config.tunnel_contract.verify_mixed_batch
    then some no_contract_check
    else none

-- `ValidateRuntimeConfig`; `none` is the result `true`.
unfoldable pub validate_runtime_config : Limits → RuntimeConfig → Option ConfigError
validate_runtime_config limits config =
    if is_empty config.profiles
      || ltb maximum_profiles (length config.profiles)
      || leb (length config.profiles) config.active_profile
    then some no_active_profile
    else elim (validate_profiles config.profiles) [
      | some error ↦ some error
      | none ↦ validate_settings limits config
    ]
