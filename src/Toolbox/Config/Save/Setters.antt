-- ===== src/Toolbox/Config/Save/Setters.antt =====
-- What `ApplySetting` of toolbox/src/runtime_config.cpp does with each saved setting.
use nx_reverse.Base.{
  ℕ, ◌≤◌, ◌≡◌, ◌≢◌, ◌∙◌, refl, ap, arith, Bool, true, false, Option, none, some, [], Bytes, codes,
  length, equal,
}
use nx_reverse.Base.Decimal.{decimal, value-decimal, decimal-IsDigit, length-decimal}
use nx_reverse.Toolbox.Ipv4.{parse_unsigned, u32_max, size_max}
use nx_reverse.Toolbox.Ipv4.Unsigned.{parse_unsigned_complete}
use nx_reverse.Toolbox.Outcome.{
  BsdSystemUdpExpectedOutcome, echo_reply, no_reply_timeout, terminal_closure,
}
use nx_reverse.Toolbox.Config.{
  RuntimeScenario, direct_tunnel_udp, direct_tunnel_tcp, bsd_system_udp, bsd_system_tcp,
  tunnel_contract_validation, RuntimeConfig, expected_outcome_name, parse_expected_outcome,
  parse_runtime_scenario,
}
use nx_reverse.Toolbox.Config.Parse.{parse_bool, parse_profile_key}
use nx_reverse.Toolbox.Config.Settings.{
  assign, with_udp, with_contract, with_bsd, first_match, apply_run, run_choices, apply_traffic,
  traffic_choices, apply_checks, checks_choices,
}
use nx_reverse.Toolbox.Config.Apply.{taken, apply_setting}
use nx_reverse.Toolbox.Config.Save.{Setting, scenario_key, bool_text}

-- The setting is taken, and leaves the other configuration.
abbrev pub Sets : RuntimeConfig → Setting → RuntimeConfig → Type 0
Sets c s d =
    (m : Bool) → apply_setting c m s.0 s.1 ≡ record { config = d; migrated = m; error = none }

pub parse_unsigned-decimal :
    (limit n : ℕ) → n ≤ limit → limit ≤ size_max → parse_unsigned limit (decimal n) ≡ some n
parse_unsigned-decimal limit n fits h =
    let (present, _) = length-decimal n (omega arith) in
    let some_digit : decimal n ≢ [] = λ e. omega (arith, present, ap (length {A = ℕ}) e) in
    parse_unsigned_complete limit (decimal n) some_digit (decimal-IsDigit n)
      (omega (arith, value-decimal n))
    ∙ ap some (value-decimal n)

pub parse_bool_text : (b : Bool) → parse_bool (bool_text b) ≡ some b
unfolding parse_bool bool_text
parse_bool_text true = refl
parse_bool_text false = refl

pub parse_scenario_key : (s : RuntimeScenario) → parse_runtime_scenario (scenario_key s) ≡ some s
unfolding parse_runtime_scenario scenario_key
parse_scenario_key direct_tunnel_udp = refl
parse_scenario_key direct_tunnel_tcp = refl
parse_scenario_key bsd_system_udp = refl
parse_scenario_key bsd_system_tcp = refl
parse_scenario_key tunnel_contract_validation = refl

pub parse_outcome_name :
    (o : BsdSystemUdpExpectedOutcome) → parse_expected_outcome (expected_outcome_name o) ≡ some o
unfolding parse_expected_outcome expected_outcome_name
parse_outcome_name echo_reply = refl
parse_outcome_name no_reply_timeout = refl
parse_outcome_name terminal_closure = refl

assign-Sets :
    {A : Type 0} (c : RuntimeConfig) (key text : Bytes) (read : Option A) (a : A)
    (update : A → RuntimeConfig)
    → ((m : Bool) → apply_setting c m key text ≡ taken m key (assign c read update))
    → read ≡ some a
    → Sets c (key, text) (update a)
unfolding assign
assign-Sets c key text read a update applies reads m =
    applies m ∙ ap (λ o. taken m key (assign c o update)) reads

pub scenario-Sets :
    (c : RuntimeConfig) (s : RuntimeScenario)
    → Sets c (codes "run.scenario", scenario_key s) (record c { scenario = s })
unfolding apply_setting apply_run run_choices first_match equal parse_profile_key
scenario-Sets c s =
    assign-Sets c (codes "run.scenario") (scenario_key s) (parse_runtime_scenario (scenario_key s))
      s (λ k. record c { scenario = k }) (λ m. refl) (parse_scenario_key s)

pub next_workload_id-Sets :
    (c : RuntimeConfig) (n : ℕ)
    → n ≤ u32_max
    → Sets c (codes "run.next_workload_id", decimal n) (record c { next_workload_id = n })
unfolding apply_setting apply_run run_choices first_match equal parse_profile_key
next_workload_id-Sets c n fits =
    assign-Sets c (codes "run.next_workload_id") (decimal n) (parse_unsigned u32_max (decimal n)) n
      (λ k. record c { next_workload_id = k }) (λ m. refl)
      (parse_unsigned-decimal u32_max n fits (omega arith))

pub active_profile-Sets :
    (c : RuntimeConfig) (n : ℕ)
    → n ≤ size_max
    → Sets c (codes "run.active_profile", decimal n) (record c { active_profile = n })
unfolding apply_setting apply_run run_choices first_match equal parse_profile_key
active_profile-Sets c n fits =
    assign-Sets c (codes "run.active_profile") (decimal n) (parse_unsigned size_max (decimal n)) n
      (λ k. record c { active_profile = k }) (λ m. refl)
      (parse_unsigned-decimal size_max n fits (omega arith))

pub udp_payload_bytes-Sets :
    (c : RuntimeConfig) (n : ℕ)
    → n ≤ size_max
    → Sets c
        (codes "udp.payload_bytes", decimal n)
        (with_udp c (record (c.udp) { payload_bytes = n }))
unfolding apply_setting apply_run run_choices first_match equal parse_profile_key apply_traffic
    traffic_choices
udp_payload_bytes-Sets c n fits =
    assign-Sets c (codes "udp.payload_bytes") (decimal n) (parse_unsigned size_max (decimal n)) n
      (λ k. with_udp c (record (c.udp) { payload_bytes = k })) (λ m. refl)
      (parse_unsigned-decimal size_max n fits (omega arith))

pub udp_datagram_count-Sets :
    (c : RuntimeConfig) (n : ℕ)
    → n ≤ u32_max
    → Sets c
        (codes "udp.datagram_count", decimal n)
        (with_udp c (record (c.udp) { datagram_count = n }))
unfolding apply_setting apply_run run_choices first_match equal parse_profile_key apply_traffic
    traffic_choices
udp_datagram_count-Sets c n fits =
    assign-Sets c (codes "udp.datagram_count") (decimal n) (parse_unsigned u32_max (decimal n)) n
      (λ k. with_udp c (record (c.udp) { datagram_count = k })) (λ m. refl)
      (parse_unsigned-decimal u32_max n fits (omega arith))

pub udp_pacing_ms-Sets :
    (c : RuntimeConfig) (n : ℕ)
    → n ≤ u32_max
    → Sets c (codes "udp.pacing_ms", decimal n) (with_udp c (record (c.udp) { pacing_ms = n }))
unfolding apply_setting apply_run run_choices first_match equal parse_profile_key apply_traffic
    traffic_choices
udp_pacing_ms-Sets c n fits =
    assign-Sets c (codes "udp.pacing_ms") (decimal n) (parse_unsigned u32_max (decimal n)) n
      (λ k. with_udp c (record (c.udp) { pacing_ms = k })) (λ m. refl)
      (parse_unsigned-decimal u32_max n fits (omega arith))

pub udp_concurrent_flows-Sets :
    (c : RuntimeConfig) (n : ℕ)
    → n ≤ u32_max
    → Sets c
        (codes "udp.concurrent_flows", decimal n)
        (with_udp c (record (c.udp) { concurrent_flows = n }))
unfolding apply_setting apply_run run_choices first_match equal parse_profile_key apply_traffic
    traffic_choices
udp_concurrent_flows-Sets c n fits =
    assign-Sets c (codes "udp.concurrent_flows") (decimal n) (parse_unsigned u32_max (decimal n)) n
      (λ k. with_udp c (record (c.udp) { concurrent_flows = k })) (λ m. refl)
      (parse_unsigned-decimal u32_max n fits (omega arith))

pub udp_receive_deadline_ms-Sets :
    (c : RuntimeConfig) (n : ℕ)
    → n ≤ u32_max
    → Sets c
        (codes "udp.receive_deadline_ms", decimal n)
        (with_udp c (record (c.udp) { receive_deadline_ms = n }))
unfolding apply_setting apply_run run_choices first_match equal parse_profile_key apply_traffic
    traffic_choices
udp_receive_deadline_ms-Sets c n fits =
    assign-Sets c (codes "udp.receive_deadline_ms") (decimal n) (parse_unsigned u32_max (decimal n))
      n (λ k. with_udp c (record (c.udp) { receive_deadline_ms = k })) (λ m. refl)
      (parse_unsigned-decimal u32_max n fits (omega arith))

pub udp_payload_seed-Sets :
    (c : RuntimeConfig) (n : ℕ)
    → n ≤ u32_max
    → Sets c
        (codes "udp.payload_seed", decimal n)
        (with_udp c (record (c.udp) { payload_seed = n }))
unfolding apply_setting apply_run run_choices first_match equal parse_profile_key apply_traffic
    traffic_choices
udp_payload_seed-Sets c n fits =
    assign-Sets c (codes "udp.payload_seed") (decimal n) (parse_unsigned u32_max (decimal n)) n
      (λ k. with_udp c (record (c.udp) { payload_seed = k })) (λ m. refl)
      (parse_unsigned-decimal u32_max n fits (omega arith))

pub udp_echo_replies-Sets :
    (c : RuntimeConfig) (b : Bool)
    → Sets c
        (codes "udp.echo_replies", bool_text b)
        (with_udp c (record (c.udp) { echo_replies = b }))
unfolding apply_setting apply_run run_choices first_match equal parse_profile_key apply_traffic
    traffic_choices
udp_echo_replies-Sets c b =
    assign-Sets c (codes "udp.echo_replies") (bool_text b) (parse_bool (bool_text b)) b
      (λ k. with_udp c (record (c.udp) { echo_replies = k })) (λ m. refl) (parse_bool_text b)

pub tcp_receive_deadline_ms-Sets :
    (c : RuntimeConfig) (n : ℕ)
    → n ≤ u32_max
    → Sets c
        (codes "tcp.receive_deadline_ms", decimal n)
        (record c { tcp = record { receive_deadline_ms = n } })
unfolding apply_setting apply_run run_choices first_match equal parse_profile_key apply_traffic
    traffic_choices
tcp_receive_deadline_ms-Sets c n fits =
    assign-Sets c (codes "tcp.receive_deadline_ms") (decimal n) (parse_unsigned u32_max (decimal n))
      n (λ k. record c { tcp = record { receive_deadline_ms = k } }) (λ m. refl)
      (parse_unsigned-decimal u32_max n fits (omega arith))

pub contract_verify_cloned_session_lifetime-Sets :
    (c : RuntimeConfig) (b : Bool)
    → Sets c
        (codes "tunnel_contract.verify_cloned_session_lifetime", bool_text b)
        (with_contract c (record (c.tunnel_contract) { verify_cloned_session_lifetime = b }))
unfolding apply_setting apply_run run_choices first_match equal parse_profile_key apply_traffic
    traffic_choices apply_checks checks_choices
contract_verify_cloned_session_lifetime-Sets c b =
    assign-Sets c (codes "tunnel_contract.verify_cloned_session_lifetime") (bool_text b)
      (parse_bool (bool_text b)) b
      (λ k. with_contract c (record (c.tunnel_contract) { verify_cloned_session_lifetime = k }))
      (λ m. refl) (parse_bool_text b)

pub contract_verify_mixed_batch-Sets :
    (c : RuntimeConfig) (b : Bool)
    → Sets c
        (codes "tunnel_contract.verify_mixed_batch", bool_text b)
        (with_contract c (record (c.tunnel_contract) { verify_mixed_batch = b }))
unfolding apply_setting apply_run run_choices first_match equal parse_profile_key apply_traffic
    traffic_choices apply_checks checks_choices
contract_verify_mixed_batch-Sets c b =
    assign-Sets c (codes "tunnel_contract.verify_mixed_batch") (bool_text b)
      (parse_bool (bool_text b)) b
      (λ k. with_contract c (record (c.tunnel_contract) { verify_mixed_batch = k })) (λ m. refl)
      (parse_bool_text b)

pub bsd_verify_post_route_rejection-Sets :
    (c : RuntimeConfig) (b : Bool)
    → Sets c
        (codes "bsd_system_udp.verify_post_route_rejection", bool_text b)
        (with_bsd c (record (c.bsd_system_udp) { verify_post_route_rejection = b }))
unfolding apply_setting apply_run run_choices first_match equal parse_profile_key apply_traffic
    traffic_choices apply_checks checks_choices
bsd_verify_post_route_rejection-Sets c b =
    assign-Sets c (codes "bsd_system_udp.verify_post_route_rejection") (bool_text b)
      (parse_bool (bool_text b)) b
      (λ k. with_bsd c (record (c.bsd_system_udp) { verify_post_route_rejection = k })) (λ m. refl)
      (parse_bool_text b)

pub bsd_expected_outcome-Sets :
    (c : RuntimeConfig) (o : BsdSystemUdpExpectedOutcome)
    → Sets c
        (codes "bsd_system_udp.expected_outcome", expected_outcome_name o)
        (with_bsd c (record (c.bsd_system_udp) { expected_outcome = o }))
unfolding apply_setting apply_run run_choices first_match equal parse_profile_key apply_traffic
    traffic_choices apply_checks checks_choices
bsd_expected_outcome-Sets c o =
    assign-Sets c (codes "bsd_system_udp.expected_outcome") (expected_outcome_name o)
      (parse_expected_outcome (expected_outcome_name o)) o
      (λ k. with_bsd c (record (c.bsd_system_udp) { expected_outcome = k })) (λ m. refl)
      (parse_outcome_name o)

pub bsd_require_writable_recovery-Sets :
    (c : RuntimeConfig) (b : Bool)
    → Sets c
        (codes "bsd_system_udp.require_writable_recovery", bool_text b)
        (with_bsd c (record (c.bsd_system_udp) { require_writable_recovery = b }))
unfolding apply_setting apply_run run_choices first_match equal parse_profile_key apply_traffic
    traffic_choices apply_checks checks_choices
bsd_require_writable_recovery-Sets c b =
    assign-Sets c (codes "bsd_system_udp.require_writable_recovery") (bool_text b)
      (parse_bool (bool_text b)) b
      (λ k. with_bsd c (record (c.bsd_system_udp) { require_writable_recovery = k })) (λ m. refl)
      (parse_bool_text b)
