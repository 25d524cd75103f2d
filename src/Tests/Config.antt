-- ===== src/Tests/Config.antt =====
-- Tests of the configuration of toolbox/src/runtime_config.cpp and of the address readers.
use nx_reverse.Base.{
  ◌≡◌, ◌↔◌, refl, arith, true, false, none, [], ◌∷◌, ◌++◌, Bytes, codes, find, scan_digits,
  from_chars,
}
use nx_reverse.Toolbox.Ipv4.{is_valid_ipv4, is_ipv4_address, parse_unsigned}
use nx_reverse.Toolbox.Ipv4.Quads.{IsQuad}
use nx_reverse.Toolbox.Ipv4.Agreement.{is_valid_ipv4_iff, is_valid_ipv4-is_ipv4_address}
use nx_reverse.Toolbox.Config.{compiled_runtime_defaults}
use nx_reverse.Toolbox.Config.Validate.{
  Limits, validate_runtime_config, validate_profiles, validate_profile, validate_settings,
}
use nx_reverse.Toolbox.Config.Validate.Sound.{IsValidConfig, validate_runtime_config_iff}
use nx_reverse.Toolbox.Config.Settings.Keeps.{HasProfiles}
use nx_reverse.Toolbox.Config.Apply.{apply_setting}
use nx_reverse.Toolbox.Config.Apply.Keeps.{Leaves, apply_setting-Leaves}
use nx_reverse.Toolbox.Config.Load.{opened, load_runtime_config, Loading}
use nx_reverse.Toolbox.Config.Load.Valid.{load_runtime_config-IsValidConfig}

abbrev pub limits : Limits
limits = record { maximum_payload_bytes = 1200; maximum_flows = 16 }

abbrev newline : Bytes
newline = b'\n' ∷ []

-- A file with a valid setting, a comment, a zero port and a line without a separator.
abbrev content : Bytes
content =
    codes "udp.datagram_count = 8"
    ++ newline
    ++ codes "# a comment"
    ++ newline
    ++ codes "profile.0.udp_destination_port = 0"
    ++ newline
    ++ codes "no separator"

pub defaults_validate : validate_runtime_config limits compiled_runtime_defaults ≡ none
unfolding validate_runtime_config validate_profiles validate_profile validate_settings is_valid_ipv4
    find parse_unsigned from_chars scan_digits
defaults_validate = refl

pub defaults-IsValidConfig : IsValidConfig limits compiled_runtime_defaults
defaults-IsValidConfig =
    (validate_runtime_config_iff limits compiled_runtime_defaults).0 defaults_validate

defaults-HasProfiles : HasProfiles compiled_runtime_defaults
defaults-HasProfiles = record { some_profile = omega arith; few_profiles = omega arith }

load_runtime_config-IsValidConfig_example :
    IsValidConfig limits
      (load_runtime_config limits compiled_runtime_defaults (opened content)).config
load_runtime_config-IsValidConfig_example =
    load_runtime_config-IsValidConfig limits compiled_runtime_defaults (opened content)
      defaults-IsValidConfig

validate_runtime_config_iff_example :
    (validate_runtime_config limits compiled_runtime_defaults ≡ none)
    ↔ IsValidConfig limits compiled_runtime_defaults
validate_runtime_config_iff_example = validate_runtime_config_iff limits compiled_runtime_defaults

apply_setting-Leaves_example : Leaves compiled_runtime_defaults (
    apply_setting compiled_runtime_defaults false
      (codes "profile.0.udp_destination_port")
      (codes "0"))
apply_setting-Leaves_example =
    apply_setting-Leaves compiled_runtime_defaults false (codes "profile.0.udp_destination_port")
      (codes "0") defaults-HasProfiles

abbrev fresh_load : Loading
fresh_load = record {
  config = compiled_runtime_defaults;
  migrated_legacy = false;
  diagnostics = [];
}

is_valid_ipv4_iff_example : (is_valid_ipv4 (codes "10.1.0.2") ≡ true) ↔ IsQuad (codes "10.1.0.2")
is_valid_ipv4_iff_example = is_valid_ipv4_iff (codes "10.1.0.2")

is_valid_ipv4-is_ipv4_address_example :
    is_valid_ipv4 (codes "10.1.0.256") ≡ is_ipv4_address (codes "10.1.0.256")
is_valid_ipv4-is_ipv4_address_example = is_valid_ipv4-is_ipv4_address (codes "10.1.0.256")
