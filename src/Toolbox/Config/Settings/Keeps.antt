-- ===== src/Toolbox/Config/Settings/Keeps.antt =====
-- What the groups of settings leave of the configuration (toolbox/src/runtime_config.cpp).
use mathlib.Core.Path.{subst}
use nx_reverse.Base.{
  All, ℕ, zero, suc, ◌-◌, ◌≤◌, ◌<◌, ◌≡◌, ◌≢◌, ◌⊎◌, inl, inr, refl, sym, arith, Bool, true, false,
  ◌||◌, Option, none, some, List, [], ◌∷◌, Bytes, equal, length, length-append, length-take,
  length-replicate, length-set, take, replicate, get_elem?, set, ltb, ◌==◌, Bool-cases,
}
use nx_reverse.Toolbox.Config.{RuntimeProfile, RuntimeConfig}
use nx_reverse.Toolbox.Config.Settings.{
  profile_choices, checks_choices, traffic_choices, run_choices, first_match, assign_unless,
  Assigned, assign, assign_port, with_profile, resize_profiles, assign_count, apply_run,
  apply_profile_field, apply_traffic, apply_checks,
}

-- One to eight profiles: `profiles.front()` is there.
pub record HasProfiles (c : RuntimeConfig) : Type 0 where
  pub some_profile : 0 < length c.profiles
  pub few_profiles : length c.profiles ≤ 8

resize_profiles_has :
    (count : ℕ) (ps : List RuntimeProfile)
    → 0 < length ps
    → count ≢ 0
    → count ≤ 8
    → (0 < length (resize_profiles count ps)) × (length (resize_profiles count ps) ≤ 8)
unfolding resize_profiles
resize_profiles_has count [] some_profile pos few = absurd (omega arith)
resize_profiles_has count (front ∷ ps) some_profile pos few =
    let all = front ∷ ps in
    omega (
      arith,
      length-append (take count all) (replicate (count - length all) front),
      length-take count all,
      length-replicate (count - length all) front,
    )

get_elem?-set_there :
    (ps : List RuntimeProfile) (index : ℕ) (old new : RuntimeProfile)
    → get_elem? ps index ≡ some old
    → get_elem? (set ps index new) index ≡ some new
get_elem?-set_there [] index old new h = cc
get_elem?-set_there (p ∷ ps) zero old new h = refl
get_elem?-set_there (p ∷ ps) (suc index) old new h = get_elem?-set_there ps index old new h

-- Some profile has a port that is zero.
pub data HasZeroPort (c : RuntimeConfig) : Type 0 where
  zero_port :
      (index : ℕ) (p : RuntimeProfile)
      → get_elem? c.profiles index ≡ some p
      → (p.udp_destination_port ≡ 0) ⊎ (p.tcp_destination_port ≡ 0)
      → HasZeroPort c

-- The configuration after a value: the profiles are there, and a value that was not taken has
-- changed nothing or left a zero port.
pub record Fine (config : RuntimeConfig) (result : Assigned) : Type 0 where
  pub profiles : HasProfiles result.0
  pub refused : result.1 ≡ false → (result.0 ≡ config) ⊎ HasZeroPort result.0

-- The same of a group of settings that may not know the key.
abbrev pub AllFine : RuntimeConfig → Option Assigned → Type 0
AllFine config none = Unit
AllFine config (some result) = Fine config result

pub first_match-Fine :
    (config : RuntimeConfig) (key : Bytes) (choices : List (Bytes × Assigned))
    → All (λ c. Fine config c.1) choices
    → AllFine config (first_match key choices)
unfolding first_match
first_match-Fine config key [] _ = tt
first_match-Fine config key ((k, result) ∷ choices) (h, hs) = elim (Bool-cases (equal key k)) [
  | inl same ↦ rw same h
  | inr other ↦ rw other (first_match-Fine config key choices hs)
]

module _ (config : RuntimeConfig) (has : HasProfiles config) where
  pub kept : (done : Bool) → Fine config (config, done)
  kept done = record { profiles = has; refused = λ _. inl refl }

  written : (after : RuntimeConfig) → HasProfiles after → Fine config (after, true)
  written after h = record { profiles = h; refused = λ (e : true ≡ false). cc }

  pub assign-Fine :
      {A : Type 0} (o : Option A) (update : A → RuntimeConfig)
      → ((a : A) → HasProfiles (update a))
      → Fine config (assign config o update)
  unfolding assign
  assign-Fine none update h = kept false
  assign-Fine (some a) update h = written (update a) (h a)

  pub assign_same-Fine :
      {A : Type 0} (o : Option A) (update : A → RuntimeConfig)
      → ((a : A) → (update a).profiles ≡ config.profiles)
      → Fine config (assign config o update)
  assign_same-Fine o update same = assign-Fine o update (λ a. record {
    some_profile = subst (λ ps. 0 < length ps) (sym (same a)) has.some_profile;
    few_profiles = subst (λ ps. length ps ≤ 8) (sym (same a)) has.few_profiles;
  })

  with_profile-HasProfiles :
      (index : ℕ) (p : RuntimeProfile) → HasProfiles (with_profile config index p)
  with_profile-HasProfiles index p = record {
    some_profile = omega (arith, length-set config.profiles index p, has.some_profile);
    few_profiles = omega (arith, length-set config.profiles index p, has.few_profiles);
  }

  resized :
      (count : ℕ)
      → count ≢ 0
      → count ≤ 8
      → HasProfiles (record config { profiles = resize_profiles count config.profiles })
  resized count pos few =
      let (some_profile, few_profiles) =
        resize_profiles_has count config.profiles has.some_profile pos few in
      record { some_profile = some_profile; few_profiles = few_profiles }

  assign_count-Fine : (o : Option ℕ) → Fine config (assign_count config o)
  unfolding assign_count
  assign_count-Fine none = kept false
  assign_count-Fine (some count) = elim (Bool-cases (count == 0 || ltb 8 count)) [
    | inl bad ↦ rw bad (kept false)
    | inr good ↦ rw good (written _ (resized count (ground arith) (ground arith)))
  ]

  pub apply_run-Fine : (key value : Bytes) → AllFine config (apply_run config key value)
  unfolding apply_run run_choices
  apply_run-Fine key value = first_match-Fine config key (run_choices config value) (
    assign_same-Fine _ _ (λ _. refl),
    (
      assign_same-Fine _ _ (λ _. refl),
      (assign_same-Fine _ _ (λ _. refl), (assign_count-Fine _, tt)),
    ),
  )

  pub apply_traffic-Fine : (key value : Bytes) → AllFine config (apply_traffic config key value)
  unfolding apply_traffic traffic_choices
  apply_traffic-Fine key value = first_match-Fine config key (traffic_choices config value) (
    assign_same-Fine _ _ (λ _. refl),
    (
      assign_same-Fine _ _ (λ _. refl),
      (
        assign_same-Fine _ _ (λ _. refl),
        (
          assign_same-Fine _ _ (λ _. refl),
          (
            assign_same-Fine _ _ (λ _. refl),
            (
              assign_same-Fine _ _ (λ _. refl),
              (assign_same-Fine _ _ (λ _. refl), (assign_same-Fine _ _ (λ _. refl), tt)),
            ),
          ),
        ),
      ),
    ),
  )

  pub apply_checks-Fine : (key value : Bytes) → AllFine config (apply_checks config key value)
  unfolding apply_checks checks_choices
  apply_checks-Fine key value = first_match-Fine config key (checks_choices config value) (
    assign_same-Fine _ _ (λ _. refl),
    (
      assign_same-Fine _ _ (λ _. refl),
      (
        assign_same-Fine _ _ (λ _. refl),
        (assign_same-Fine _ _ (λ _. refl), (assign_same-Fine _ _ (λ _. refl), tt)),
      ),
    ),
  )

  -- A port that is written and then refused is zero.
  pub assign_port-Fine :
      (index : ℕ) (old : RuntimeProfile) (o : Option ℕ) (update : ℕ → RuntimeProfile)
      → get_elem? config.profiles index ≡ some old
      → ((n : ℕ)
          → n ≡ 0
          → ((update n).udp_destination_port ≡ 0) ⊎ ((update n).tcp_destination_port ≡ 0))
      → Fine config (assign_port config o (λ n. with_profile config index (update n)))
  unfolding assign_port
  assign_port-Fine index old none update there zeroed = kept false
  assign_port-Fine index old (some n) update there zeroed = record {
    profiles = with_profile-HasProfiles index (update n);
    refused = λ e. inr (
        zero_port index (update n) (get_elem?-set_there config.profiles index old (update n) there)
          (zeroed n (ground arith)));
  }

  pub assign_unless-Fine :
      (bad : Bool) (index : ℕ) (p : RuntimeProfile)
      → Fine config (assign_unless config bad (with_profile config index p))
  unfolding assign_unless
  assign_unless-Fine true index p = kept false
  assign_unless-Fine false index p = written _ (with_profile-HasProfiles index p)

  pub apply_profile_field-Fine :
      (index : ℕ) (profile : RuntimeProfile) (field value : Bytes)
      → get_elem? config.profiles index ≡ some profile
      → AllFine config (apply_profile_field config index profile field value)
  unfolding apply_profile_field profile_choices
  apply_profile_field-Fine index profile field value there =
      first_match-Fine config field (profile_choices config index profile value) (
        assign_unless-Fine _ index _,
        (
          assign_unless-Fine _ index _,
          (
            assign_unless-Fine _ index _,
            (
              assign_port-Fine index profile _ (λ n. record profile { udp_destination_port = n })
                  there (λ n z. inl z),
              (
                assign_port-Fine index profile _ (λ n. record profile { tcp_destination_port = n })
                    there (λ n z. inr z),
                tt,
              ),
            ),
          ),
        ),
      )
