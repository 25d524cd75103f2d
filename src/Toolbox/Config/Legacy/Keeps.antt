-- ===== src/Toolbox/Config/Legacy/Keeps.antt =====
-- What a legacy setting leaves of the configuration (toolbox/src/runtime_config.cpp).
use nx_reverse.Base.{◌≡◌, inl, refl, Bool, true, false, Option, none, some, Bytes, get_elem?}
use nx_reverse.Toolbox.Config.{RuntimeProfile, RuntimeConfig, RuntimeScenario}
use nx_reverse.Toolbox.Config.Settings.{Assigned, apply_checks}
use nx_reverse.Toolbox.Config.Legacy.{
  legacy_choices, enable, apply_legacy_keys, apply_legacy_setting,
}
use nx_reverse.Toolbox.Config.Settings.Keeps.{
  HasProfiles, Fine, AllFine, first_match-Fine, kept, assign-Fine, assign_same-Fine,
  assign_port-Fine, assign_unless-Fine, apply_checks-Fine,
}

module _ (config : RuntimeConfig) (has : HasProfiles config) where
  enable_has : (s : RuntimeScenario) (enabled : Bool) → HasProfiles (enable config s enabled)
  unfolding enable
  enable_has s true = record { some_profile = has.some_profile; few_profiles = has.few_profiles }
  enable_has s false = has

  apply_legacy_keys-Fine :
      (profile : RuntimeProfile) (key value : Bytes)
      → get_elem? config.profiles config.active_profile ≡ some profile
      → AllFine config (apply_legacy_keys config profile key value)
  unfolding apply_legacy_keys legacy_choices
  apply_legacy_keys-Fine profile key value there =
      first_match-Fine config key (legacy_choices config profile value) (
        assign-Fine config has _ _ (enable_has _),
        (
          assign-Fine config has _ _ (enable_has _),
          (
            assign-Fine config has _ _ (enable_has _),
            (
              assign_unless-Fine config has _ config.active_profile _,
              (
                assign_port-Fine config has config.active_profile profile _
                    (λ n. record profile { udp_destination_port = n }) there (λ n z. inl z),
                (
                  assign_same-Fine config has _ _ (λ _. refl),
                  (
                    assign_same-Fine config has _ _ (λ _. refl),
                    (
                      assign_same-Fine config has _ _ (λ _. refl),
                      (
                        assign_same-Fine config has _ _ (λ _. refl),
                        (
                          assign_same-Fine config has _ _ (λ _. refl),
                          (
                            assign_same-Fine config has _ _ (λ _. refl),
                            (
                              assign_same-Fine config has _ _ (λ _. refl),
                              (assign_same-Fine config has _ _ (λ _. refl), tt),
                            ),
                          ),
                        ),
                      ),
                    ),
                  ),
                ),
              ),
            ),
          ),
        ),
      )

  -- A group first, then what is behind it.
  then_Fine :
      (o : Option Assigned) (rest : Assigned)
      → AllFine config o
      → Fine config rest
      → Fine config (elim o [ some assigned ↦ assigned | none ↦ rest ])
  then_Fine none rest h r = r
  then_Fine (some assigned) rest h r = h

  pub apply_legacy_setting-Fine :
      (key value : Bytes) → Fine config (apply_legacy_setting config key value)
  unfolding apply_legacy_setting
  apply_legacy_setting-Fine key value = at_profile _ refl
    where
      at_profile :
          (o : Option RuntimeProfile)
          → get_elem? config.profiles config.active_profile ≡ o
          → Fine config (elim o [
            | none ↦ (config, false)
            | some profile ↦ elim (apply_legacy_keys config profile key value) [
              | some assigned ↦ assigned
              | none ↦ elim (apply_checks config key value) [
                | some assigned ↦ assigned
                | none ↦ (config, false)
              ]
            ]
          ])
      at_profile none there = kept config has false
      at_profile (some profile) there =
          then_Fine _ _ (apply_legacy_keys-Fine profile key value there)
            (then_Fine _ _ (apply_checks-Fine config has key value) (kept config has false))
