-- ===== src/Toolbox/Config/Apply/Keeps.antt =====
-- What `ApplySetting` of toolbox/src/runtime_config.cpp leaves of the configuration.
use nx_reverse.Base.{
  ℕ, ◌≡◌, ◌⊎◌, inl, inr, refl, Bool, true, false, Option, none, some, Bytes, get_elem?,
  if◌then◌else◌,
}
use nx_reverse.Toolbox.Config.{RuntimeProfile, RuntimeConfig}
use nx_reverse.Toolbox.Config.Settings.{Assigned, apply_profile_field}
use nx_reverse.Toolbox.Config.Apply.{
  SettingError, unrecognized_profile_setting, unrecognized_key, Applied, taken, apply_profile,
  apply_legacy, apply_setting,
}
use nx_reverse.Toolbox.Config.Settings.Keeps.{
  HasProfiles, HasZeroPort, Fine, AllFine, kept, apply_run-Fine, apply_profile_field-Fine,
  apply_traffic-Fine, apply_checks-Fine,
}
use nx_reverse.Toolbox.Config.Legacy.Keeps.{apply_legacy_setting-Fine}

-- What `ApplySetting` leaves: the profiles are there, and a setting that was refused has changed
-- nothing or left a zero port.
pub record Leaves (config : RuntimeConfig) (applied : Applied) : Type 0 where
  pub profiles : HasProfiles applied.config
  pub refused : (applied.error ≡ none) ⊎ ((applied.config ≡ config) ⊎ HasZeroPort applied.config)

module _ (config : RuntimeConfig) (has : HasProfiles config) (migrated : Bool)
    (key value : Bytes) where
  taken-Leaves : (a : Assigned) → Fine config a → Leaves config (taken migrated key a)
  taken-Leaves (after, true) fine = record { profiles = fine.profiles; refused = inl refl }
  taken-Leaves (after, false) fine = record {
    profiles = fine.profiles;
    refused = inr (fine.refused refl);
  }

  unknown_Leaves :
      (error : SettingError) (b : Bool)
      → Leaves config (record { config = config; migrated = b; error = some error })
  unknown_Leaves error b = record { profiles = has; refused = inr (inl refl) }

  apply_profile-Leaves :
      (index : ℕ) (field : Bytes)
      → Leaves config (apply_profile config migrated key value index field)
  unfolding apply_profile
  apply_profile-Leaves index field = at_profile _ refl
    where
      at_field :
          (o : Option Assigned)
          → AllFine config o
          → Leaves config (elim o [
            | some assigned ↦ taken migrated key assigned
            | none ↦ record {
              config = config;
              migrated = migrated;
              error = some (unrecognized_profile_setting key);
            }
          ])
      at_field none h = unknown_Leaves _ _
      at_field (some assigned) h = taken-Leaves assigned h

      at_profile :
          (o : Option RuntimeProfile)
          → get_elem? config.profiles index ≡ o
          → Leaves config (elim o [
            | none ↦ taken migrated key (config, false)
            | some profile ↦ elim (apply_profile_field config index profile field value) [
              | some assigned ↦ taken migrated key assigned
              | none ↦ record {
                config = config;
                migrated = migrated;
                error = some (unrecognized_profile_setting key);
              }
            ]
          ])
      at_profile none there = taken-Leaves (config, false) (kept config has false)
      at_profile (some profile) there =
          at_field _ (apply_profile_field-Fine config has index profile field value there)

  apply_legacy-Leaves : Leaves config (apply_legacy config migrated key value)
  unfolding apply_legacy
  apply_legacy-Leaves = of_result _ (apply_legacy_setting-Fine config has key value)
    where
      of_result :
          (a : Assigned)
          → Fine config a
          → Leaves config (record {
            config = a.0;
            migrated = if a.1 then true else migrated;
            error = if a.1 then none else some (unrecognized_key key);
          })
      of_result (after, true) fine = record { profiles = fine.profiles; refused = inl refl }
      of_result (after, false) fine = record {
        profiles = fine.profiles;
        refused = inr (fine.refused refl);
      }

  -- A group first, then what is behind it.
  or_Leaves :
      (o : Option Assigned) (rest : Applied)
      → AllFine config o
      → Leaves config rest
      → Leaves config (elim o [ some assigned ↦ taken migrated key assigned | none ↦ rest ])
  or_Leaves none rest h r = r
  or_Leaves (some assigned) rest h r = taken-Leaves assigned h

  rest_Leaves :
      (o : Option (ℕ × Bytes)) (rest : Applied)
      → Leaves config rest
      → Leaves config (elim o [
        | some (index, field) ↦ apply_profile config migrated key value index field
        | none ↦ rest
      ])
  rest_Leaves none rest r = r
  rest_Leaves (some (index, field)) rest r = apply_profile-Leaves index field

-- A setting keeps one to eight profiles, and a setting that is refused has changed nothing or left
-- a profile whose UDP or TCP port is zero.
pub apply_setting-Leaves :
    (config : RuntimeConfig) (migrated : Bool) (key value : Bytes)
    → HasProfiles config
    → Leaves config (apply_setting config migrated key value)
unfolding apply_setting
apply_setting-Leaves config migrated key value has =
    or_Leaves config has migrated key value _ _ (apply_run-Fine config has key value) (
      rest_Leaves config has migrated key value _ _ (
        or_Leaves config has migrated key value _ _ (apply_traffic-Fine config has key value) (
          or_Leaves config has migrated key value _ _ (apply_checks-Fine config has key value)
            (apply_legacy-Leaves config has migrated key value))))
