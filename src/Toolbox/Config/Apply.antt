-- ===== src/Toolbox/Config/Apply.antt =====
-- `ApplySetting` of toolbox/src/runtime_config.cpp: the groups of settings in their order.
pub mod Keeps
use nx_reverse.Base.{
  ℕ, ◌+◌, Bool, true, false, not, ◌&&◌, ◌||◌, Option, none, some, List, [], ◌∷◌, ◌++◌, ◌-◌, Bytes,
  codes, equal, length, take, replicate, get_elem?, set, ltb, leb, ◌==◌, if◌then◌else◌,
}
use nx_reverse.Toolbox.Ipv4.{parse_unsigned, is_valid_ipv4, u16_max, u32_max, size_max}
use nx_reverse.Toolbox.Outcome.{BsdSystemUdpExpectedOutcome}
use nx_reverse.Toolbox.Config.{
  RuntimeScenario, direct_tunnel_udp, bsd_system_udp, tunnel_contract_validation, RuntimeProfile,
  RuntimeConfig, UdpScenarioConfig, TcpScenarioConfig, TunnelContractValidationConfig,
  BsdSystemUdpWorkloadConfig, parse_expected_outcome, parse_runtime_scenario,
}
use nx_reverse.Toolbox.Config.Parse.{parse_bool, parse_profile_key}
use nx_reverse.Toolbox.Config.Validate.{maximum_profiles, maximum_profile_name_length}
use nx_reverse.Toolbox.Config.Settings.{
  Assigned, assign, assign_port, with_udp, with_contract, with_bsd, with_profile, apply_run,
  apply_profile_field, apply_traffic, apply_checks,
}
use nx_reverse.Toolbox.Config.Legacy.{apply_legacy_setting}

pub data SettingError : Type 0 where
  invalid_value unrecognized_profile_setting unrecognized_key : Bytes → SettingError

-- The configuration as it is left, `migrated_legacy`, and the error of a result `false`.
pub record Applied : Type 0 where
  pub config : RuntimeConfig
  pub migrated : Bool
  pub error : Option SettingError

-- `… || invalid()`
abbrev pub taken : Bool → Bytes → Assigned → Applied
taken migrated key (config, done) = record {
  config = config;
  migrated = migrated;
  error = if done then none else some (invalid_value key);
}

-- The branch behind `ParseProfileKey`.
unfoldable pub apply_profile : RuntimeConfig → Bool → Bytes → Bytes → ℕ → Bytes → Applied
apply_profile config migrated key value index field = elim (get_elem? config.profiles index) [
  | none ↦ taken migrated key (config, false)
  | some profile ↦ elim (apply_profile_field config index profile field value) [
    | some assigned ↦ taken migrated key assigned
    | none ↦ record {
      config = config;
      migrated = migrated;
      error = some (unrecognized_profile_setting key);
    }
  ]
]

-- The end of `ApplySetting`: the legacy format.
unfoldable pub apply_legacy : RuntimeConfig → Bool → Bytes → Bytes → Applied
apply_legacy config migrated key value =
    let (config', done) = apply_legacy_setting config key value in
    record {
      config = config';
      migrated = if done then true else migrated;
      error = if done then none else some (unrecognized_key key);
    }

-- `ApplySetting`
unfoldable pub apply_setting : RuntimeConfig → Bool → Bytes → Bytes → Applied
unfolding apply_profile apply_legacy
apply_setting config migrated key value = elim (apply_run config key value) [
  | some assigned ↦ taken migrated key assigned
  | none ↦ elim (parse_profile_key key) [
    | some (index, field) ↦ apply_profile config migrated key value index field
    | none ↦ elim (apply_traffic config key value) [
      | some assigned ↦ taken migrated key assigned
      | none ↦ elim (apply_checks config key value) [
        | some assigned ↦ taken migrated key assigned
        | none ↦ apply_legacy config migrated key value
      ]
    ]
  ]
]
