-- ===== src/Toolbox/Config/Save/Loaded.antt =====
-- Loading what toolbox/src/runtime_config.cpp has saved gives the configuration back.
use nx_reverse.Base.{
  ℕ, ◌+◌, ◌-◌, ◌<◌, ◌≡◌, ◌≢◌, ◌∙◌, refl, ap, arith, true, false, none, List, [], ◌∷◌, ◌++◌, Bytes,
  codes, length, length-append, length-take, length-replicate, take, replicate, append_assoc,
}
use nx_reverse.Toolbox.Config.{RuntimeConfig, RuntimeProfile}
use nx_reverse.Toolbox.Config.Parse.{trim, drop_blanks, drop_last_blanks}
use nx_reverse.Toolbox.Config.Settings.{with_udp, with_contract, with_bsd, resize_profiles}
use nx_reverse.Toolbox.Config.Validate.{Limits, validate_runtime_config}
use nx_reverse.Toolbox.Config.Validate.Sound.{
  HasSettings, IsValidConfig, validate_runtime_config_iff,
}
use nx_reverse.Toolbox.Config.Load.{
  opened, Loading, read_lines, line_room, c_string, load_line, load_lines, load_setting,
  finish_load, load_runtime_config,
}
use nx_reverse.Toolbox.Config.Save.{
  Setting, run_settings, profiles_settings, workload_settings, saved_settings, print_settings,
  print_config, title,
}
use nx_reverse.Toolbox.Config.Save.Lines.{load_settings, load_lines-settings, read_lines-line}
use nx_reverse.Toolbox.Config.Save.Setters
use nx_reverse.Toolbox.Config.Save.Setters.{Sets}
use nx_reverse.Toolbox.Config.Save.Profiles.{
  count-Sets, SetAll, SetAll-append, with_profiles, profiles_SetAll,
}
use nx_reverse.Toolbox.Config.Save.Storable.{IsStorable}
use nx_reverse.Toolbox.Config.Save.Printed.{saved_settings-IsSetting}

-- The settings behind those of the profiles, from a configuration that has the others.
workload_SetAll :
    (c b : RuntimeConfig) (limits : Limits)
    → HasSettings limits c
    → IsStorable c
    → b.scenario ≡ c.scenario
    → b.next_workload_id ≡ c.next_workload_id
    → b.active_profile ≡ c.active_profile
    → b.profiles ≡ c.profiles
    → SetAll b (workload_settings c) c
workload_SetAll c b limits s h same_scenario same_workload same_active same_profiles =
    let b1 : RuntimeConfig = with_udp b (record (b.udp) { payload_bytes = c.udp.payload_bytes }) in
    let b2 : RuntimeConfig =
      with_udp b1 (record (b1.udp) { datagram_count = c.udp.datagram_count }) in
    let b3 : RuntimeConfig = with_udp b2 (record (b2.udp) { pacing_ms = c.udp.pacing_ms }) in
    let b4 : RuntimeConfig =
      with_udp b3 (record (b3.udp) { concurrent_flows = c.udp.concurrent_flows }) in
    let b5 : RuntimeConfig =
      with_udp b4 (record (b4.udp) { receive_deadline_ms = c.udp.receive_deadline_ms }) in
    let b6 : RuntimeConfig = with_udp b5 (record (b5.udp) { payload_seed = c.udp.payload_seed }) in
    let b7 : RuntimeConfig = with_udp b6 (record (b6.udp) { echo_replies = c.udp.echo_replies }) in
    let b8 : RuntimeConfig = record b7 {
      tcp = record { receive_deadline_ms = c.tcp.receive_deadline_ms };
    } in
    let b9 : RuntimeConfig = with_contract b8 (record (b8.tunnel_contract) {
      verify_cloned_session_lifetime = c.tunnel_contract.verify_cloned_session_lifetime;
    }) in
    let b10 : RuntimeConfig =
      with_contract b9 (record (b9.tunnel_contract) {
        verify_mixed_batch = c.tunnel_contract.verify_mixed_batch;
      }) in
    let b11 : RuntimeConfig = with_bsd b10 (record (b10.bsd_system_udp) {
      verify_post_route_rejection = c.bsd_system_udp.verify_post_route_rejection;
    }) in
    let b12 : RuntimeConfig =
      with_bsd b11
        (record (b11.bsd_system_udp) { expected_outcome = c.bsd_system_udp.expected_outcome }) in
    let b13 : RuntimeConfig = with_bsd b12 (record (b12.bsd_system_udp) {
      require_writable_recovery = c.bsd_system_udp.require_writable_recovery;
    }) in
    (
      b1,
      Setters.udp_payload_bytes-Sets b c.udp.payload_bytes h.payload_fits,
      (
        b2,
        Setters.udp_datagram_count-Sets b1 c.udp.datagram_count (omega (arith, s.datagrams)),
        (
          b3,
          Setters.udp_pacing_ms-Sets b2 c.udp.pacing_ms (omega (arith, s.pacing)),
          (
            b4,
            Setters.udp_concurrent_flows-Sets b3 c.udp.concurrent_flows h.flows_fit,
            (
              b5,
              Setters.udp_receive_deadline_ms-Sets b4 c.udp.receive_deadline_ms
                  (omega (arith, s.udp_deadline_high)),
              (
                b6,
                Setters.udp_payload_seed-Sets b5 c.udp.payload_seed h.seed_fits,
                (
                  b7,
                  Setters.udp_echo_replies-Sets b6 c.udp.echo_replies,
                  (
                    b8,
                    Setters.tcp_receive_deadline_ms-Sets b7 c.tcp.receive_deadline_ms
                        (omega (arith, s.tcp_deadline_high)),
                    (
                      b9,
                      Setters.contract_verify_cloned_session_lifetime-Sets b8
                          c.tunnel_contract.verify_cloned_session_lifetime,
                      (
                        b10,
                        Setters.contract_verify_mixed_batch-Sets b9
                            c.tunnel_contract.verify_mixed_batch,
                        (
                          b11,
                          Setters.bsd_verify_post_route_rejection-Sets b10
                              c.bsd_system_udp.verify_post_route_rejection,
                          (
                            b12,
                            Setters.bsd_expected_outcome-Sets b11 c.bsd_system_udp.expected_outcome,
                            (
                              b13,
                              Setters.bsd_require_writable_recovery-Sets b12
                                  c.bsd_system_udp.require_writable_recovery,
                              ground
                                  (arith, same_scenario, same_workload, same_active, same_profiles),
                            ),
                          ),
                        ),
                      ),
                    ),
                  ),
                ),
              ),
            ),
          ),
        ),
      ),
    )

length-resize_profiles :
    (n : ℕ) (profiles : List RuntimeProfile)
    → 0 < length profiles
    → length (resize_profiles n profiles) ≡ n
unfolding resize_profiles
length-resize_profiles n [] some_profile = absurd (omega arith)
length-resize_profiles n (front ∷ profiles) some_profile =
    let kept = take n (front ∷ profiles) in
    let added = replicate (n - length (front ∷ profiles)) front in
    omega (
      arith,
      length-append kept added,
      length-take n (front ∷ profiles),
      length-replicate (n - length (front ∷ profiles)) front,
    )

module _ (limits : Limits) (d c : RuntimeConfig) (some_default : 0 < length d.profiles)
    (v : IsValidConfig limits c) (h : IsStorable c) where
  abbrev with_run : RuntimeConfig
  with_run = record d {
    scenario = c.scenario;
    next_workload_id = c.next_workload_id;
    active_profile = c.active_profile;
  }

  run_SetAll :
      SetAll d
        (run_settings c)
        (with_profiles with_run (resize_profiles (length c.profiles) d.profiles))
  run_SetAll =
      let d1 : RuntimeConfig = record d { scenario = c.scenario } in
      let d2 : RuntimeConfig = record d1 { next_workload_id = c.next_workload_id } in
      let some_profile : length c.profiles ≢ 0 = λ e. omega (arith, v.active) in
      (
        d1,
        Setters.scenario-Sets d c.scenario,
        (
          d2,
          Setters.next_workload_id-Sets d1 c.next_workload_id h.workload_fits,
          (
            with_run,
            Setters.active_profile-Sets d2 c.active_profile
                (omega (arith, v.active, v.few_profiles)),
            (
              with_profiles with_run (resize_profiles (length c.profiles) d.profiles),
              count-Sets with_run (length c.profiles) some_profile v.few_profiles,
              refl,
            ),
          ),
        ),
      )

  -- All the settings lead from any configuration with a profile to the one that was saved.
  saved_SetAll : SetAll d (saved_settings c) c
  saved_SetAll =
      let others = resize_profiles (length c.profiles) d.profiles in
      SetAll-append d (with_profiles with_run others) c (run_settings c)
        (profiles_settings 0 c.profiles ++ workload_settings c) run_SetAll
        (SetAll-append (with_profiles with_run others) (with_profiles with_run c.profiles) c
          (profiles_settings 0 c.profiles) (workload_settings c)
          (profiles_SetAll with_run [] others c.profiles
            (length-resize_profiles (length c.profiles) d.profiles some_default)
            (omega (arith, v.few_profiles)) h.kept)
          (workload_SetAll c (with_profiles with_run c.profiles) limits v.settings h refl refl refl
            refl))

-- Settings that are taken leave no message.
load_settings-SetAll :
    (n : ℕ) (settings : List Setting) (l : Loading) (c : RuntimeConfig)
    → SetAll l.config settings c
    → load_settings n settings l ≡ record l { config = c }
unfolding load_settings load_setting
load_settings-SetAll n [] l c same = ground arith
load_settings-SetAll n (s ∷ settings) l c (d, sets, rest) =
    rw (sets l.migrated_legacy)
      (load_settings-SetAll (n + 1) settings (record l { config = d }) c rest)

abbrev title_text : Bytes
title_text = codes "# NX Reversing Toolbox runtime configuration"

-- The title is a comment.
title_skipped : (l : Loading) → load_line 1 (title_text ++ (b'\n' ∷ [])) l ≡ l
unfolding load_line c_string trim drop_blanks drop_last_blanks
title_skipped l = refl

load_title :
    (rest : Bytes) (l : Loading)
    → load_lines 0 (read_lines line_room [] (title ++ rest)) l
      ≡ load_lines 1 (read_lines line_room [] rest) l
unfolding load_lines
load_title rest l =
    let shape : title ++ rest ≡ title_text ++ (b'\n' ∷ rest) =
      append_assoc title_text (b'\n' ∷ []) rest in
    ap (λ file. load_lines 0 (read_lines line_room [] file) l) shape
    ∙ ap (λ lines. load_lines 0 lines l)
        (read_lines-line title_text rest [] 511 (omega arith) (omega arith))
    ∙ ap (λ next. load_lines 1 (read_lines line_room [] rest) next) (title_skipped l)

finish_valid :
    (limits : Limits) (d : RuntimeConfig) (l : Loading)
    → validate_runtime_config limits l.config ≡ none
    → l.migrated_legacy ≡ false
    → finish_load limits d l
      ≡ record { config = l.config; loaded_from_file = true; diagnostics = l.diagnostics }
unfolding finish_load
finish_valid limits d l valid current = ground (arith, valid, current)

-- A valid configuration that was saved, with values that fit their types and profile names with no end
-- of a line, no NUL and no blank at their ends, is loaded as it was, with no message, whatever the
-- compiled defaults are, as long as they have a profile.
pub load_runtime_config-print_config :
    (limits : Limits) (defaults config : RuntimeConfig)
    → 0 < length defaults.profiles
    → IsValidConfig limits config
    → IsStorable config
    → load_runtime_config limits defaults (opened (print_config config))
      ≡ record { config = config; loaded_from_file = true; diagnostics = [] }
unfolding load_runtime_config print_config
load_runtime_config-print_config limits defaults config some_default v h =
    let start : Loading = record { config = defaults; migrated_legacy = false; diagnostics = [] } in
    let settings = saved_settings config in
    ap (finish_load limits defaults) (
      load_title (print_settings settings) start
      ∙ load_lines-settings 1 settings start (saved_settings-IsSetting limits config v h)
      ∙ load_settings-SetAll 1 settings start config
          (saved_SetAll limits defaults config some_default v h))
    ∙ finish_valid limits defaults (record start { config = config })
        ((validate_runtime_config_iff limits config).1 v) refl
