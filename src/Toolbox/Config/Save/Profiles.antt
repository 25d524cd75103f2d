-- ===== src/Toolbox/Config/Save/Profiles.antt =====
-- The settings of the profiles that toolbox/src/runtime_config.cpp has saved.
use mathlib.Core.Path.{subst}
use nx_reverse.Base.{
  ℕ, suc, ◌+◌, ◌≤◌, ◌≡◌, ◌≢◌, ◌∙◌, refl, sym, ap, arith, true, false, not, none, some, List, [],
  ◌∷◌, ◌++◌, Bytes, codes, length, length-append, append_assoc, equal, starts_with, All, All-map,
  IsDigit, get_elem?, set, ltb, ◌==◌, ◌||◌,
}
use nx_reverse.Base.Decimal.{decimal, decimal-IsDigit}
use nx_reverse.Toolbox.Ipv4.{u16_max, size_max, is_valid_ipv4}
use nx_reverse.Toolbox.Config.{RuntimeConfig, RuntimeProfile}
use nx_reverse.Toolbox.Ipv4.Agreement.{is_valid_ipv4_iff}
use nx_reverse.Toolbox.Config.Validate.Sound.{IsProfile}
use nx_reverse.Toolbox.Config.Parse.{parse_profile_key, profile_key_at}
use nx_reverse.Toolbox.Config.Settings.{
  assign_count, assign_unless, assign_port, with_profile, first_match, apply_run, run_choices,
  apply_profile_field, profile_choices, resize_profiles,
}
use nx_reverse.Toolbox.Config.Apply.{taken, apply_setting, apply_profile}
use nx_reverse.Toolbox.Config.Save.{Setting, profile_key, profile_settings, profiles_settings}
use nx_reverse.Toolbox.Config.Save.Lines.{find_key, take_key, drop_key}
use nx_reverse.Toolbox.Config.Save.Setters.{Sets, parse_unsigned-decimal}

pub count-Sets :
    (c : RuntimeConfig) (n : ℕ)
    → n ≢ 0
    → n ≤ 8
    → Sets c
        (codes "profiles.count", decimal n)
        (record c { profiles = resize_profiles n c.profiles })
unfolding apply_setting apply_run run_choices first_match equal parse_profile_key assign_count
count-Sets c n some_profile few m =
    let in_range : (n == 0 || ltb 8 n) ≡ false = ground arith in
    ap (λ o. taken m (codes "profiles.count") (assign_count c o))
      (parse_unsigned-decimal size_max n (omega arith) (omega arith))
    ∙ rw in_range refl

no_dot : (digits : Bytes) → All IsDigit digits → All (λ c. c ≢ b'.') digits
no_dot digits h = All-map IsDigit (λ c. c ≢ b'.') digits (λ c d e. omega (arith, d, e)) h

parse_profile_key_lem :
    (i : ℕ) (field : Bytes)
    → i ≤ size_max
    → parse_profile_key (profile_key i field) ≡ some (i, field)
unfolding parse_profile_key profile_key_at starts_with
parse_profile_key_lem i field fits =
    let digits = decimal i in
    rw
      (
        find_key b'.' digits field (no_dot digits (decimal-IsDigit i)),
        take_key digits (b'.' ∷ field),
        drop_key digits field b'.',
        parse_unsigned-decimal size_max i fits (omega arith),
      )
      refl

no_run_key :
    (c : RuntimeConfig) (i : ℕ) (field v : Bytes) → apply_run c (profile_key i field) v ≡ none
unfolding apply_run run_choices first_match equal
no_run_key c i field v = refl

profile-Sets :
    (c d : RuntimeConfig) (i : ℕ) (p : RuntimeProfile) (field v : Bytes)
    → i ≤ size_max
    → get_elem? c.profiles i ≡ some p
    → apply_profile_field c i p field v ≡ some (d, true)
    → Sets c (profile_key i field, v) d
unfolding apply_setting apply_profile
profile-Sets c d i p field v fits there taken_field m =
    ground (arith, no_run_key c i field v, parse_profile_key_lem i field fits, there, taken_field)

-- One setting after another leads to the other configuration.
abbrev pub SetAll : RuntimeConfig → List Setting → RuntimeConfig → Type 0
SetAll c [] e = c ≡ e
SetAll c (s ∷ settings) e = (d : RuntimeConfig) × Sets c s d × SetAll d settings e

pub SetAll-append :
    (c d e : RuntimeConfig) (settings others : List Setting)
    → SetAll c settings d
    → SetAll d others e
    → SetAll c (settings ++ others) e
SetAll-append c d e [] others same h = subst (λ x. SetAll x others e) (sym same) h
SetAll-append c d e (s ∷ settings) others (x, sets, rest) h =
    (x, sets, SetAll-append x d e settings others rest h)

abbrev pub with_profiles : RuntimeConfig → List RuntimeProfile → RuntimeConfig
with_profiles c profiles = record c { profiles = profiles }

get_elem?-middle :
    (before after : List RuntimeProfile) (p : RuntimeProfile)
    → get_elem? (before ++ p ∷ after) (length before) ≡ some p
get_elem?-middle [] after p = refl
get_elem?-middle (q ∷ before) after p = get_elem?-middle before after p

set-middle :
    (before after : List RuntimeProfile) (p r : RuntimeProfile)
    → set (before ++ p ∷ after) (length before) r ≡ before ++ r ∷ after
set-middle [] after p r = refl
set-middle (q ∷ before) after p r = ap (◌∷◌ q) (set-middle before after p r)

module _ (c : RuntimeConfig) (before after : List RuntimeProfile)
    (few : length before ≤ size_max) where
  field-Sets :
      (p r : RuntimeProfile) (field v : Bytes)
      → ((d : RuntimeConfig)
          → apply_profile_field d (length before) p field v
            ≡ some (with_profile d (length before) r, true))
      → Sets
          (with_profiles c (before ++ p ∷ after))
          (profile_key (length before) field, v)
          (with_profiles c (before ++ r ∷ after))
  field-Sets p r field v taken_field =
      profile-Sets (with_profiles c (before ++ p ∷ after)) (with_profiles c (before ++ r ∷ after))
        (length before) p field v few (get_elem?-middle before after p)
        (taken_field (with_profiles c (before ++ p ∷ after))
          ∙ ap (λ ps. some (with_profiles c ps, true)) (set-middle before after p r))

  text-Sets :
      (p : RuntimeProfile) (name : Bytes)
      → length name ≤ 32
      → Sets
          (with_profiles c (before ++ p ∷ after))
          (profile_key (length before) (codes "name"), name)
          (with_profiles c (before ++ record p { name = name } ∷ after))
  unfolding apply_profile_field first_match profile_choices assign_unless equal
  text-Sets p name short =
      let fits : ltb 32 (length name) ≡ false = ground arith in
      field-Sets p (record p { name = name }) (codes "name") name (λ d. rw fits refl)

  tunnel-Sets :
      (p : RuntimeProfile) (ip : Bytes)
      → is_valid_ipv4 ip ≡ true
      → Sets
          (with_profiles c (before ++ p ∷ after))
          (profile_key (length before) (codes "tunnel_destination_ipv4"), ip)
          (with_profiles c (before ++ record p { tunnel_destination_ipv4 = ip } ∷ after))
  unfolding apply_profile_field first_match profile_choices assign_unless equal
  tunnel-Sets p ip valid =
      field-Sets p (record p { tunnel_destination_ipv4 = ip }) (codes "tunnel_destination_ipv4") ip
        (λ d. rw valid refl)

  bsd-Sets :
      (p : RuntimeProfile) (ip : Bytes)
      → is_valid_ipv4 ip ≡ true
      → Sets
          (with_profiles c (before ++ p ∷ after))
          (profile_key (length before) (codes "bsd_destination_ipv4"), ip)
          (with_profiles c (before ++ record p { bsd_destination_ipv4 = ip } ∷ after))
  unfolding apply_profile_field first_match profile_choices assign_unless equal
  bsd-Sets p ip valid =
      field-Sets p (record p { bsd_destination_ipv4 = ip }) (codes "bsd_destination_ipv4") ip
        (λ d. rw valid refl)

  udp_port-Sets :
      (p : RuntimeProfile) (port : ℕ)
      → port ≢ 0
      → port ≤ u16_max
      → Sets
          (with_profiles c (before ++ p ∷ after))
          (profile_key (length before) (codes "udp_destination_port"), decimal port)
          (with_profiles c (before ++ record p { udp_destination_port = port } ∷ after))
  unfolding apply_profile_field first_match profile_choices assign_port equal
  udp_port-Sets p port some_port fits =
      let nonzero : not (port == 0) ≡ true = ground arith in
      field-Sets p (record p { udp_destination_port = port }) (codes "udp_destination_port")
        (decimal port)
        (λ d. rw (parse_unsigned-decimal u16_max port fits (omega arith)) (rw nonzero refl))

  tcp_port-Sets :
      (p : RuntimeProfile) (port : ℕ)
      → port ≢ 0
      → port ≤ u16_max
      → Sets
          (with_profiles c (before ++ p ∷ after))
          (profile_key (length before) (codes "tcp_destination_port"), decimal port)
          (with_profiles c (before ++ record p { tcp_destination_port = port } ∷ after))
  unfolding apply_profile_field first_match profile_choices assign_port equal
  tcp_port-Sets p port some_port fits =
      let nonzero : not (port == 0) ≡ true = ground arith in
      field-Sets p (record p { tcp_destination_port = port }) (codes "tcp_destination_port")
        (decimal port)
        (λ d. rw (parse_unsigned-decimal u16_max port fits (omega arith)) (rw nonzero refl))

-- A profile that is read back whole.
pub record IsKept (p : RuntimeProfile) : Type 0 where
  pub profile : IsProfile p
  pub udp_fits : p.udp_destination_port ≤ u16_max
  pub tcp_fits : p.tcp_destination_port ≤ u16_max

profile_SetAll :
    (c : RuntimeConfig) (before after : List RuntimeProfile) (q p : RuntimeProfile)
    → length before ≤ size_max
    → IsKept p
    → SetAll
        (with_profiles c (before ++ q ∷ after))
        (profile_settings (length before) p)
        (with_profiles c (before ++ p ∷ after))
profile_SetAll c before after q p few h =
    let named : RuntimeProfile = record q { name = p.name } in
    let tunnelled : RuntimeProfile = record named {
      tunnel_destination_ipv4 = p.tunnel_destination_ipv4;
    } in
    let addressed : RuntimeProfile = record tunnelled {
      bsd_destination_ipv4 = p.bsd_destination_ipv4;
    } in
    let ported : RuntimeProfile = record addressed {
      udp_destination_port = p.udp_destination_port;
    } in
    (
      with_profiles c (before ++ named ∷ after),
      text-Sets c before after few q p.name h.profile.short_name,
      (
        with_profiles c (before ++ tunnelled ∷ after),
        tunnel-Sets c before after few named p.tunnel_destination_ipv4
            ((is_valid_ipv4_iff p.tunnel_destination_ipv4).1 h.profile.tunnel_quad),
        (
          with_profiles c (before ++ addressed ∷ after),
          bsd-Sets c before after few tunnelled p.bsd_destination_ipv4
              ((is_valid_ipv4_iff p.bsd_destination_ipv4).1 h.profile.bsd_quad),
          (
            with_profiles c (before ++ ported ∷ after),
            udp_port-Sets c before after few addressed p.udp_destination_port h.profile.udp_port
                h.udp_fits,
            (
              with_profiles c (before ++ p ∷ after),
              tcp_port-Sets c before after few ported p.tcp_destination_port h.profile.tcp_port
                  h.tcp_fits,
              refl,
            ),
          ),
        ),
      ),
    )

-- The settings of all profiles put them in place of as many others.
pub profiles_SetAll :
    (c : RuntimeConfig) (before others profiles : List RuntimeProfile)
    → length others ≡ length profiles
    → length before + length profiles ≤ size_max
    → All IsKept profiles
    → SetAll
        (with_profiles c (before ++ others))
        (profiles_settings (length before) profiles)
        (with_profiles c (before ++ profiles))
unfolding profiles_settings
profiles_SetAll c before [] [] same few _ = refl
profiles_SetAll c before [] (p ∷ profiles) same few h = absurd (omega arith)
profiles_SetAll c before (q ∷ others) [] same few h = absurd (omega arith)
profiles_SetAll c before (q ∷ others) (p ∷ profiles) same few (h, hs) =
    let longer : length (before ++ p ∷ []) ≡ suc (length before) =
      omega (arith, length-append before (p ∷ [])) in
    let rest =
      profiles_SetAll c (before ++ p ∷ []) others profiles (omega arith) (omega (arith, longer))
        hs in
    SetAll-append (with_profiles c (before ++ q ∷ others)) (with_profiles c (before ++ p ∷ others))
      (with_profiles c (before ++ p ∷ profiles)) (profile_settings (length before) p)
      (profiles_settings (suc (length before)) profiles)
      (profile_SetAll c before others q p (omega arith) h)
      (rw (← longer, ← append_assoc before (p ∷ []) others, ← append_assoc before (p ∷ []) profiles)
        rest)
