-- ===== src/Toolbox/Config/Validate/Sound.antt =====
-- What `ValidateRuntimeConfig` of toolbox/src/runtime_config.cpp accepts.
use nx_reverse.Base.{
  ◌≤◌, ◌<◌, ◌≡◌, ◌≢◌, ◌↔◌, ◌⊎◌, refl, arith, true, false, none, List, [], ◌∷◌, length, All,
}
use nx_reverse.Toolbox.Ipv4.Quads.{IsQuad}
use nx_reverse.Toolbox.Ipv4.Agreement.{is_valid_ipv4_iff}
use nx_reverse.Toolbox.Outcome.{no_reply_timeout, terminal_closure}
use nx_reverse.Toolbox.Config.{
  bsd_system_udp, tunnel_contract_validation, RuntimeProfile, RuntimeConfig,
}
use nx_reverse.Toolbox.Config.Validate.{
  Limits, validate_profile, validate_profiles, validate_settings, validate_runtime_config,
}

-- A usable target profile.
pub record IsProfile (p : RuntimeProfile) : Type 0 where
  pub named : p.name ≢ []
  pub short_name : length p.name ≤ 32
  pub tunnel_quad : IsQuad p.tunnel_destination_ipv4
  pub bsd_quad : IsQuad p.bsd_destination_ipv4
  pub udp_port : p.udp_destination_port ≢ 0
  pub tcp_port : p.tcp_destination_port ≢ 0

-- Settings in range, and the combinations that a scenario asks for.
pub record HasSettings (limits : Limits) (c : RuntimeConfig) : Type 0 where
  pub payload_low : 24 ≤ c.udp.payload_bytes
  pub payload_high : c.udp.payload_bytes ≤ limits.maximum_payload_bytes
  pub some_datagram : 0 < c.udp.datagram_count
  pub datagrams : c.udp.datagram_count ≤ 4096
  pub pacing : c.udp.pacing_ms ≤ 60000
  pub udp_deadline : 0 < c.udp.receive_deadline_ms
  pub udp_deadline_high : c.udp.receive_deadline_ms ≤ 60000
  pub some_flow : 0 < c.udp.concurrent_flows
  pub flows : c.udp.concurrent_flows ≤ limits.maximum_flows
  pub tcp_deadline : 0 < c.tcp.receive_deadline_ms
  pub tcp_deadline_high : c.tcp.receive_deadline_ms ≤ 60000
  pub silent :
      c.scenario ≡ bsd_system_udp
      → c.bsd_system_udp.expected_outcome ≡ no_reply_timeout
      → (c.udp.echo_replies ≡ false) × (c.udp.datagram_count ≡ 1) × (c.udp.concurrent_flows ≡ 1)
  pub closing :
      c.scenario ≡ bsd_system_udp
      → c.bsd_system_udp.expected_outcome ≡ terminal_closure
      → (c.bsd_system_udp.require_writable_recovery ≡ false)
        × (c.udp.echo_replies ≡ true)
        × (c.udp.datagram_count ≡ 1)
        × (c.udp.concurrent_flows ≡ 1)
  pub contract :
      c.scenario ≡ tunnel_contract_validation
      → (c.tunnel_contract.verify_cloned_session_lifetime ≡ true)
        ⊎ (c.tunnel_contract.verify_mixed_batch ≡ true)

pub record IsValidConfig (limits : Limits) (c : RuntimeConfig) : Type 0 where
  pub few_profiles : length c.profiles ≤ 8
  pub active : c.active_profile < length c.profiles
  pub all_profiles : All IsProfile c.profiles
  pub settings : HasSettings limits c

validate_profile_sound : (p : RuntimeProfile) → validate_profile p ≡ none → IsProfile p
unfolding validate_profile
validate_profile_sound p h = record {
  named = ground arith;
  short_name = ground arith;
  tunnel_quad = (is_valid_ipv4_iff p.tunnel_destination_ipv4).0 (ground arith);
  bsd_quad = (is_valid_ipv4_iff p.bsd_destination_ipv4).0 (ground arith);
  udp_port = ground arith;
  tcp_port = ground arith;
}

validate_profile_complete : (p : RuntimeProfile) → IsProfile p → validate_profile p ≡ none
unfolding validate_profile
validate_profile_complete p h = ground (
  arith,
  (is_valid_ipv4_iff p.tunnel_destination_ipv4).1 h.tunnel_quad,
  (is_valid_ipv4_iff p.bsd_destination_ipv4).1 h.bsd_quad,
  h.named,
  h.short_name,
  h.udp_port,
  h.tcp_port,
)

validate_profiles_sound :
    (ps : List RuntimeProfile) → validate_profiles ps ≡ none → All IsProfile ps
unfolding validate_profiles
validate_profiles_sound [] h = tt
validate_profiles_sound (p ∷ ps) h =
    (validate_profile_sound p (ground arith), validate_profiles_sound ps (ground arith))

validate_profiles_complete :
    (ps : List RuntimeProfile) → All IsProfile ps → validate_profiles ps ≡ none
unfolding validate_profiles
validate_profiles_complete [] h = refl
validate_profiles_complete (p ∷ ps) (hp, hps) =
    ground (arith, validate_profile_complete p hp, validate_profiles_complete ps hps)

validate_settings_sound :
    (limits : Limits) (c : RuntimeConfig) → validate_settings limits c ≡ none → HasSettings limits c
unfolding validate_settings
validate_settings_sound limits c h = record {
  payload_low = ground arith;
  payload_high = ground arith;
  some_datagram = ground arith;
  datagrams = ground arith;
  pacing = ground arith;
  udp_deadline = ground arith;
  udp_deadline_high = ground arith;
  some_flow = ground arith;
  flows = ground arith;
  tcp_deadline = ground arith;
  tcp_deadline_high = ground arith;
  silent = λ s o. ground arith;
  closing = λ s o. ground arith;
  contract = λ s. ground arith;
}

validate_settings_complete :
    (limits : Limits) (c : RuntimeConfig) → HasSettings limits c → validate_settings limits c ≡ none
unfolding validate_settings
validate_settings_complete limits c h = ground (arith, h.silent, h.closing, h.contract)

-- `ValidateRuntimeConfig` accepts exactly the configurations with one to eight usable profiles, one
-- of them active, settings in range, and the combinations that their scenario asks for.
pub validate_runtime_config_iff :
    (limits : Limits) (c : RuntimeConfig)
    → (validate_runtime_config limits c ≡ none) ↔ IsValidConfig limits c
unfolding validate_runtime_config
validate_runtime_config_iff limits c = (sound, complete)
  where
    sound : validate_runtime_config limits c ≡ none → IsValidConfig limits c
    sound h = record {
      few_profiles = ground arith;
      active = ground arith;
      all_profiles = validate_profiles_sound c.profiles (ground arith);
      settings = validate_settings_sound limits c (ground arith);
    }

    complete : IsValidConfig limits c → validate_runtime_config limits c ≡ none
    complete h = ground (
      arith,
      validate_profiles_complete c.profiles h.all_profiles,
      validate_settings_complete limits c h.settings,
      h.few_profiles,
      h.active,
    )
