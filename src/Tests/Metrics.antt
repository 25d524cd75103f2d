-- ===== src/Tests/Metrics.antt =====
-- Tests of the metrics of toolbox/src/udp_workload_metrics.hpp and of the poll outcomes.
use mathlib.Core.Path.{subst}
use nx_reverse.Base.{
  ℕ, ◌+◌, ◌-◌, ◌*◌, ◌/◌, ◌%◌, ◌≡◌, ◌↔◌, ◌<◌, ◌≤◌, refl, ap, arith, true, List, [], ◌∷◌, map, sum,
  pos,
}
use nx_reverse.Toolbox.Metrics.{
  u64_mod, ticks_to_nanoseconds, rtt_mean_nanoseconds, rtt_percentile_upper_nanoseconds,
  submission_elapsed_nanoseconds,
}
use nx_reverse.Toolbox.Metrics.Ticks.{ticks_to_nanoseconds_exact}
use nx_reverse.Toolbox.Metrics.Samples.{Describes, elapsed_of}
use nx_reverse.Toolbox.Metrics.Percentile.{
  rtt_mean_nanoseconds_bounds, IsUpperBound, rtt_percentile-IsUpperBound,
}
use nx_reverse.Toolbox.Metrics.Workload.{
  Event, attempt, submission, echo, run, echoes, run-Describes, submission_elapsed-run,
}
use nx_reverse.Toolbox.Outcome.{
  echo_reply, classify_bsd_poll_observation, is_expected_bsd_poll_observation, Meets,
  is_expected-classify_iff,
}

-- 19.2 MHz, the latest event first: two submissions of 48 bytes and two echoes.
abbrev events : List Event
events =
    echo (record {
      start_tick = 19300000;
      end_tick = 19320000;
      tick_frequency = 19200000;
      payload_bytes = 48;
    })
    ∷ submission (record { tick = 19300000; payload_bytes = 48 })
    ∷ echo (record {
      start_tick = 100;
      end_tick = 100000;
      tick_frequency = 19200000;
      payload_bytes = 48;
    })
    ∷ submission (record { tick = 100; payload_bytes = 48 })
    ∷ attempt
    ∷ []

abbrev samples : List ℕ
samples = 1041666 ∷ 5203125 ∷ []

elapsed : map elapsed_of (echoes events) ≡ samples
unfolding ticks_to_nanoseconds
elapsed = refl

elapsed_total : sum (map elapsed_of (echoes events)) < u64_mod
elapsed_total =
    let total : sum (map elapsed_of (echoes events)) ≡ sum samples = ap sum elapsed in
    omega (arith, total)

run-Describes_example : Describes (run events) (map elapsed_of (echoes events))
run-Describes_example = run-Describes events elapsed_total (omega arith)

described : Describes (run events) samples
described =
    subst (Describes (run events)) elapsed (run-Describes events elapsed_total (omega arith))

rtt_mean_nanoseconds_bounds_example :
    ((run events).rtt_min_ns ≤ rtt_mean_nanoseconds (run events))
    × (rtt_mean_nanoseconds (run events) ≤ (run events).rtt_max_ns)
rtt_mean_nanoseconds_bounds_example =
    rtt_mean_nanoseconds_bounds (run events) samples described (λ e. cc)

rtt_percentile-IsUpperBound_example :
    IsUpperBound 95 samples (rtt_percentile_upper_nanoseconds 95 (run events))
rtt_percentile-IsUpperBound_example =
    rtt_percentile-IsUpperBound samples (omega arith, (omega arith, tt)) (run events) 95 described
      (omega arith) (λ e. cc) (omega arith)

submission_elapsed-run_example :
    submission_elapsed_nanoseconds 19200000 (run events)
    ≡ ticks_to_nanoseconds ((19300000 + u64_mod - 100) % u64_mod) 19200000
submission_elapsed-run_example =
    submission_elapsed-run 19200000 events (record { tick = 19300000; payload_bytes = 48 })
      (record { tick = 100; payload_bytes = 48 }) [] (omega arith) (omega arith) refl

ticks_to_nanoseconds_exact_example :
    ticks_to_nanoseconds 99900 19200000 ≡ 99900 * 1000000000 / 19200000
ticks_to_nanoseconds_exact_example =
    ticks_to_nanoseconds_exact 99900 19200000 (omega arith) (omega arith) (omega arith)

is_expected-classify_iff_example :
    (is_expected_bsd_poll_observation echo_reply (classify_bsd_poll_observation 1 16 (pos 1) 1)
      ≡ true)
    ↔ Meets 1 16 echo_reply (pos 1) 1
is_expected-classify_iff_example = is_expected-classify_iff 1 16 echo_reply (pos 1) 1
