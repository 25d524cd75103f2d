-- ===== src/Toolbox/Config/Save.antt =====
-- The text that `SaveRuntimeConfig` of toolbox/src/runtime_config.cpp prints.
pub mod Lines
pub mod Setters
pub mod Profiles
pub mod Words
pub mod Storable
pub mod Printed
pub mod Loaded
use nx_reverse.Base.{
  ℕ, zero, suc, ◌+◌, Bool, true, false, not, ◌||◌, Option, none, some, List, [], ◌∷◌, ◌++◌, Bytes,
  codes, length, if◌then◌else◌,
}
use nx_reverse.Base.Decimal.{decimal}
use nx_reverse.Toolbox.Config.{
  RuntimeScenario, direct_tunnel_udp, direct_tunnel_tcp, bsd_system_udp, bsd_system_tcp,
  tunnel_contract_validation, RuntimeProfile, RuntimeConfig, expected_outcome_name,
}

-- The name that a scenario is saved under.
unfoldable pub scenario_key : RuntimeScenario → Bytes
scenario_key direct_tunnel_udp = codes "direct_tunnel_udp"
scenario_key direct_tunnel_tcp = codes "direct_tunnel_tcp"
scenario_key bsd_system_udp = codes "bsd_system_udp"
scenario_key bsd_system_tcp = codes "bsd_system_tcp"
scenario_key tunnel_contract_validation = codes "tunnel_contract_validation"

-- `RuntimeScenarioName`
unfoldable pub runtime_scenario_name : RuntimeScenario → Bytes
runtime_scenario_name direct_tunnel_udp = codes "Direct tunnel UDP"
runtime_scenario_name direct_tunnel_tcp = codes "Direct tunnel TCP exchange"
runtime_scenario_name bsd_system_udp = codes "BSD system UDP"
runtime_scenario_name bsd_system_tcp = codes "BSD system TCP exchange"
runtime_scenario_name tunnel_contract_validation = codes "Tunnel contract validation"

unfoldable pub bool_text : Bool → Bytes
bool_text true = codes "true"
bool_text false = codes "false"

abbrev pub Setting : Type 0
Setting = Bytes × Bytes

abbrev pub run_settings : RuntimeConfig → List Setting
run_settings config =
    (codes "run.scenario", scenario_key config.scenario)
    ∷ (codes "run.next_workload_id", decimal config.next_workload_id)
    ∷ (codes "run.active_profile", decimal config.active_profile)
    ∷ (codes "profiles.count", decimal (length config.profiles))
    ∷ []

-- `profile.%zu.` and the name of a field
abbrev pub profile_key : ℕ → Bytes → Bytes
profile_key index field = codes "profile." ++ (decimal index ++ (b'.' ∷ field))

abbrev pub profile_settings : ℕ → RuntimeProfile → List Setting
profile_settings index profile =
    (profile_key index (codes "name"), profile.name)
    ∷ (profile_key index (codes "tunnel_destination_ipv4"), profile.tunnel_destination_ipv4)
    ∷ (profile_key index (codes "bsd_destination_ipv4"), profile.bsd_destination_ipv4)
    ∷ (profile_key index (codes "udp_destination_port"), decimal profile.udp_destination_port)
    ∷ (profile_key index (codes "tcp_destination_port"), decimal profile.tcp_destination_port)
    ∷ []

-- The loop over the profiles, from an index on.
unfoldable pub profiles_settings : ℕ → List RuntimeProfile → List Setting
profiles_settings index [] = []
profiles_settings index (profile ∷ profiles) =
    profile_settings index profile ++ profiles_settings (suc index) profiles

abbrev pub workload_settings : RuntimeConfig → List Setting
workload_settings config =
    let udp = config.udp in
    let contract = config.tunnel_contract in
    let bsd = config.bsd_system_udp in
    (codes "udp.payload_bytes", decimal udp.payload_bytes)
    ∷ (codes "udp.datagram_count", decimal udp.datagram_count)
    ∷ (codes "udp.pacing_ms", decimal udp.pacing_ms)
    ∷ (codes "udp.concurrent_flows", decimal udp.concurrent_flows)
    ∷ (codes "udp.receive_deadline_ms", decimal udp.receive_deadline_ms)
    ∷ (codes "udp.payload_seed", decimal udp.payload_seed)
    ∷ (codes "udp.echo_replies", bool_text udp.echo_replies)
    ∷ (codes "tcp.receive_deadline_ms", decimal config.tcp.receive_deadline_ms)
    ∷ (
      codes "tunnel_contract.verify_cloned_session_lifetime",
      bool_text contract.verify_cloned_session_lifetime,
    )
    ∷ (codes "tunnel_contract.verify_mixed_batch", bool_text contract.verify_mixed_batch)
    ∷ (
      codes "bsd_system_udp.verify_post_route_rejection",
      bool_text bsd.verify_post_route_rejection,
    )
    ∷ (codes "bsd_system_udp.expected_outcome", expected_outcome_name bsd.expected_outcome)
    ∷ (codes "bsd_system_udp.require_writable_recovery", bool_text bsd.require_writable_recovery)
    ∷ []

-- `%s=%s\n`
abbrev pub setting_line : Setting → Bytes
setting_line (key, value) = key ++ (b'=' ∷ (value ++ (b'\n' ∷ [])))

unfoldable pub print_settings : List Setting → Bytes
print_settings [] = []
print_settings (setting ∷ settings) = setting_line setting ++ print_settings settings

abbrev pub title : Bytes
title = codes "# NX Reversing Toolbox runtime configuration" ++ (b'\n' ∷ [])

abbrev pub saved_settings : RuntimeConfig → List Setting
saved_settings config =
    run_settings config ++ (profiles_settings 0 config.profiles ++ workload_settings config)

-- What the calls of `fprintf` print.
unfoldable pub print_config : RuntimeConfig → Bytes
print_config config = title ++ print_settings (saved_settings config)
