-- ===== src/Toolbox/Metrics.antt =====
-- The counters of a UDP workload: the class `UdpWorkloadMetrics` of
-- toolbox/src/udp_workload_metrics.hpp. Additions wrap as the fields' types do.
pub mod Ticks
pub mod Buckets
pub mod Samples
pub mod Percentile
pub mod Workload
use nx_reverse.Base.{
  ℕ, zero, suc, ◌+◌, ◌-◌, ◌*◌, ◌/◌, ◌%◌, ◌^◌, Bool, true, false, not, ◌&&◌, ◌||◌, List, [], ◌∷◌,
  get_or, set, replicate, ltb, leb, ◌==◌, if◌then◌else◌,
}

abbrev pub u32_mod : ℕ
u32_mod = 4294967296

abbrev pub u64_mod : ℕ
u64_mod = 18446744073709551616

abbrev pub bucket_count : ℕ
bucket_count = 64

pub record UdpWorkloadMetrics : Type 0 where
  pub first_submission_tick : ℕ
  pub last_submission_tick : ℕ
  pub submitted_bytes : ℕ
  pub echoed_bytes : ℕ
  pub rtt_min_ns : ℕ
  pub rtt_max_ns : ℕ
  pub rtt_total_ns : ℕ
  pub attempted_datagrams : ℕ
  pub submitted_datagrams : ℕ
  pub echoed_datagrams : ℕ
  pub rtt_histogram : List ℕ

-- A default-constructed object.
abbrev pub initial : UdpWorkloadMetrics
initial = record {
  first_submission_tick = 0;
  last_submission_tick = 0;
  submitted_bytes = 0;
  echoed_bytes = 0;
  rtt_min_ns = 0;
  rtt_max_ns = 0;
  rtt_total_ns = 0;
  attempted_datagrams = 0;
  submitted_datagrams = 0;
  echoed_datagrams = 0;
  rtt_histogram = replicate bucket_count 0;
}

-- `std::bit_width`; 64 rounds are enough for a uint64_t.
unfoldable pub bit_width : ℕ → ℕ → ℕ
bit_width zero n = 0
bit_width (suc fuel) n = let rest = bit_width fuel (n / 2) in if n == 0 then 0 else suc rest

-- `RttBucket`
unfoldable pub rtt_bucket : ℕ → ℕ
rtt_bucket elapsed_ns = if elapsed_ns == 0 then 0 else bit_width 64 elapsed_ns - 1

-- `TicksToNanoseconds`
unfoldable pub ticks_to_nanoseconds : ℕ → ℕ → ℕ
ticks_to_nanoseconds ticks tick_frequency =
    if tick_frequency == 0
    then 0
    else (ticks / tick_frequency * 1000000000 % u64_mod
        + ticks % tick_frequency * 1000000000 % u64_mod / tick_frequency)
      % u64_mod

-- `RecordAttempt`
unfoldable pub record_attempt : UdpWorkloadMetrics → UdpWorkloadMetrics
record_attempt m = record m { attempted_datagrams = (m.attempted_datagrams + 1) % u32_mod }

-- `RecordSubmission`
unfoldable pub record_submission : ℕ → ℕ → UdpWorkloadMetrics → UdpWorkloadMetrics
record_submission tick payload_bytes m = record m {
  first_submission_tick = if m.submitted_datagrams == 0 then tick else m.first_submission_tick;
  last_submission_tick = tick;
  submitted_datagrams = (m.submitted_datagrams + 1) % u32_mod;
  submitted_bytes = (m.submitted_bytes + payload_bytes) % u64_mod;
}

-- `RecordEcho` from `elapsed_ns` on.
unfoldable pub record_elapsed : ℕ → ℕ → UdpWorkloadMetrics → UdpWorkloadMetrics
record_elapsed elapsed_ns payload_bytes m =
    let bucket = rtt_bucket elapsed_ns in
    record m {
      rtt_min_ns =
          if m.echoed_datagrams == 0 || ltb elapsed_ns m.rtt_min_ns
          then elapsed_ns
          else m.rtt_min_ns;
      rtt_max_ns = if ltb m.rtt_max_ns elapsed_ns then elapsed_ns else m.rtt_max_ns;
      rtt_total_ns = (m.rtt_total_ns + elapsed_ns) % u64_mod;
      echoed_datagrams = (m.echoed_datagrams + 1) % u32_mod;
      echoed_bytes = (m.echoed_bytes + payload_bytes) % u64_mod;
      rtt_histogram = set m.rtt_histogram bucket ((get_or m.rtt_histogram bucket 0 + 1) % u32_mod);
    }

-- `RecordEcho`; the difference of two ticks wraps.
unfoldable pub record_echo : ℕ → ℕ → ℕ → ℕ → UdpWorkloadMetrics → UdpWorkloadMetrics
record_echo start_tick end_tick tick_frequency payload_bytes =
    record_elapsed
      (ticks_to_nanoseconds ((end_tick + u64_mod - start_tick) % u64_mod) tick_frequency)
      payload_bytes

-- `SubmissionElapsedNanoseconds`
unfoldable pub submission_elapsed_nanoseconds : ℕ → UdpWorkloadMetrics → ℕ
submission_elapsed_nanoseconds tick_frequency m =
    if ltb m.submitted_datagrams 2
    then 0
    else ticks_to_nanoseconds
        ((m.last_submission_tick + u64_mod - m.first_submission_tick) % u64_mod) tick_frequency

-- `RttMeanNanoseconds`
unfoldable pub rtt_mean_nanoseconds : UdpWorkloadMetrics → ℕ
rtt_mean_nanoseconds m = if m.echoed_datagrams == 0 then 0 else m.rtt_total_ns / m.echoed_datagrams

-- The upper end that is reported for a bucket.
unfoldable pub upper_end : ℕ → ℕ
upper_end index = if index + 1 == bucket_count then u64_mod - 1 else 2 ^ (index + 1)

-- The loop of `RttPercentileUpperNanoseconds` over the histogram from `index` on.
unfoldable pub percentile_from : ℕ → ℕ → ℕ → List ℕ → ℕ
percentile_from target index observed [] = 0
percentile_from target index observed (count ∷ counts) =
    let observed' = (observed + count) % u64_mod in
    let rest = percentile_from target (index + 1) observed' counts in
    if leb target observed' then upper_end index else rest

-- `RttPercentileUpperNanoseconds`
unfoldable pub rtt_percentile_upper_nanoseconds : ℕ → UdpWorkloadMetrics → ℕ
rtt_percentile_upper_nanoseconds percentile m =
    let target = (m.echoed_datagrams * percentile % u64_mod + 99) % u64_mod / 100 in
    if m.echoed_datagrams == 0 then 0 else percentile_from target 0 0 m.rtt_histogram
