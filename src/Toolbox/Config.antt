-- ===== src/Toolbox/Config.antt =====
-- The runtime configuration: the types of toolbox/src/runtime_config.hpp and the small functions of
-- toolbox/src/runtime_config.cpp and runtime_scenario.cpp. Text is a list of bytes.
pub mod Parse
pub mod Validate
pub mod Settings
pub mod Legacy
pub mod Apply
pub mod Load
pub mod Save
pub mod Replace
use nx_reverse.Base.{
  ℕ, Bool, true, false, Option, none, some, List, [], ◌∷◌, Bytes, codes, equal, get_elem?, length,
  ltb, if◌then◌else◌,
}
use nx_reverse.Toolbox.Outcome.{
  BsdSystemUdpExpectedOutcome, echo_reply, no_reply_timeout, terminal_closure,
}

pub data RuntimeScenario : Type 0 where
  direct_tunnel_udp direct_tunnel_tcp bsd_system_udp bsd_system_tcp : RuntimeScenario
  tunnel_contract_validation : RuntimeScenario

pub record RuntimeProfile : Type 0 where
  pub name : Bytes
  pub tunnel_destination_ipv4 : Bytes
  pub bsd_destination_ipv4 : Bytes
  pub udp_destination_port : ℕ
  pub tcp_destination_port : ℕ

pub record UdpScenarioConfig : Type 0 where
  pub payload_bytes : ℕ
  pub datagram_count : ℕ
  pub pacing_ms : ℕ
  pub concurrent_flows : ℕ
  pub receive_deadline_ms : ℕ
  pub payload_seed : ℕ
  pub echo_replies : Bool

pub record TcpScenarioConfig : Type 0 where
  pub receive_deadline_ms : ℕ

pub record TunnelContractValidationConfig : Type 0 where
  pub verify_cloned_session_lifetime : Bool
  pub verify_mixed_batch : Bool

pub record BsdSystemUdpWorkloadConfig : Type 0 where
  pub verify_post_route_rejection : Bool
  pub expected_outcome : BsdSystemUdpExpectedOutcome
  pub require_writable_recovery : Bool

pub record RuntimeConfig : Type 0 where
  pub scenario : RuntimeScenario
  pub next_workload_id : ℕ
  pub active_profile : ℕ
  pub profiles : List RuntimeProfile
  pub udp : UdpScenarioConfig
  pub tcp : TcpScenarioConfig
  pub tunnel_contract : TunnelContractValidationConfig
  pub bsd_system_udp : BsdSystemUdpWorkloadConfig

pub record TunnelUdpWorkloadConfig : Type 0 where
  pub destination_ipv4 : Bytes
  pub destination_port : ℕ
  pub workload_id : ℕ
  pub payload_bytes : ℕ
  pub datagram_count : ℕ
  pub pacing_ms : ℕ
  pub concurrent_flows : ℕ
  pub receive_deadline_ms : ℕ
  pub payload_seed : ℕ
  pub echo_replies : Bool

-- `BsdSystemUdpExpectedOutcomeName`
unfoldable pub expected_outcome_name : BsdSystemUdpExpectedOutcome → Bytes
expected_outcome_name echo_reply = codes "echo"
expected_outcome_name no_reply_timeout = codes "no_reply_timeout"
expected_outcome_name terminal_closure = codes "terminal_closure"

-- `ParseBsdSystemUdpExpectedOutcome`
unfoldable pub parse_expected_outcome : Bytes → Option BsdSystemUdpExpectedOutcome
unfolding equal
parse_expected_outcome value =
    if equal value (codes "echo")
    then some echo_reply
    else if equal value (codes "no_reply_timeout")
    then some no_reply_timeout
    else if equal value (codes "terminal_closure")
    then some terminal_closure
    else none

-- `ParseRuntimeScenario`, with a scenario to write to.
unfoldable pub parse_runtime_scenario : Bytes → Option RuntimeScenario
unfolding equal
parse_runtime_scenario value =
    if equal value (codes "direct_tunnel_udp")
    then some direct_tunnel_udp
    else if equal value (codes "direct_tunnel_tcp")
    then some direct_tunnel_tcp
    else if equal value (codes "bsd_system_udp")
    then some bsd_system_udp
    else if equal value (codes "bsd_system_tcp")
    then some bsd_system_tcp
    else if equal value (codes "tunnel_contract_validation")
    then some tunnel_contract_validation
    else none

-- `CompiledRuntimeDefaults`, at the constants of toolbox/src/config.hpp.
abbrev pub compiled_runtime_defaults : RuntimeConfig
compiled_runtime_defaults = record {
  scenario = direct_tunnel_udp;
  next_workload_id = 1;
  active_profile = 0;
  profiles =
      record {
        name = codes "Default";
        tunnel_destination_ipv4 = codes "10.1.0.2";
        bsd_destination_ipv4 = codes "10.1.0.2";
        udp_destination_port = 29000;
        tcp_destination_port = 28080;
      }
      ∷ [];
  udp = record {
    payload_bytes = 48;
    datagram_count = 1;
    pacing_ms = 0;
    concurrent_flows = 1;
    receive_deadline_ms = 5000;
    payload_seed = 0x4E585256;
    echo_replies = true;
  };
  tcp = record { receive_deadline_ms = 5000 };
  tunnel_contract = record { verify_cloned_session_lifetime = true; verify_mixed_batch = true };
  bsd_system_udp = record {
    verify_post_route_rejection = false;
    expected_outcome = echo_reply;
    require_writable_recovery = false;
  };
}

-- `ActiveRuntimeProfile`, both overloads
unfoldable pub active_runtime_profile : RuntimeConfig → Option RuntimeProfile
active_runtime_profile config = get_elem? config.profiles config.active_profile

-- `config.scenario == RuntimeScenario::BsdSystemUdp`
abbrev pub is_bsd_system_udp : RuntimeScenario → Bool
is_bsd_system_udp bsd_system_udp = true
is_bsd_system_udp _ = false

-- `BuildTunnelUdpWorkload`
unfoldable pub build_tunnel_udp_workload :
    RuntimeConfig → RuntimeProfile → ℕ → TunnelUdpWorkloadConfig
build_tunnel_udp_workload config profile workload_id = record {
  destination_ipv4 =
      if is_bsd_system_udp config.scenario
      then profile.bsd_destination_ipv4
      else profile.tunnel_destination_ipv4;
  destination_port = profile.udp_destination_port;
  workload_id = workload_id;
  payload_bytes = config.udp.payload_bytes;
  datagram_count = config.udp.datagram_count;
  pacing_ms = config.udp.pacing_ms;
  concurrent_flows = config.udp.concurrent_flows;
  receive_deadline_ms = config.udp.receive_deadline_ms;
  payload_seed = config.udp.payload_seed;
  echo_replies = config.udp.echo_replies;
}
