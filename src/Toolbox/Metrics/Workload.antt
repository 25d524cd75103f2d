-- ===== src/Toolbox/Metrics/Workload.antt =====
-- The calls that a workload makes on its metrics, in any order.
use nx_reverse.Base.{
  ℕ, ◌+◌, ◌-◌, ◌%◌, ◌<◌, ◌≡◌, refl, ◌∙◌, arith, List, [], ◌∷◌, map, length, sum, get_or, length-map,
}
use nx_reverse.Toolbox.Metrics.{
  u64_mod, u32_mod, UdpWorkloadMetrics, initial, record_attempt, record_submission, record_elapsed,
  record_echo, submission_elapsed_nanoseconds, ticks_to_nanoseconds,
}
use nx_reverse.Toolbox.Metrics.Samples.{
  Describes, Echo, elapsed_of, elapsed_of-lt, initial-Describes, record_elapsed-Describes,
}

pub record Submission : Type 0 where
  pub tick : ℕ
  pub payload_bytes : ℕ

pub data Event : Type 0 where
  attempt : Event
  submission : Submission → Event
  echo : Echo → Event

unfoldable pub apply : Event → UdpWorkloadMetrics → UdpWorkloadMetrics
apply attempt m = record_attempt m
apply (submission s) m = record_submission s.tick s.payload_bytes m
apply (echo e) m = record_echo e.start_tick e.end_tick e.tick_frequency e.payload_bytes m

-- The events, the latest first, on a fresh object.
unfoldable pub run : List Event → UdpWorkloadMetrics
unfolding apply
run [] = initial
run (e ∷ es) = apply e (run es)

abbrev pub echoes : List Event → List Echo
echoes [] = []
echoes (attempt ∷ es) = echoes es
echoes (submission s ∷ es) = echoes es
echoes (echo e ∷ es) = e ∷ echoes es

abbrev pub submissions : List Event → List Submission
submissions [] = []
submissions (attempt ∷ es) = submissions es
submissions (submission s ∷ es) = s ∷ submissions es
submissions (echo e ∷ es) = submissions es

-- The last element, with a default.
abbrev pub get_last_or : List ℕ → ℕ → ℕ
get_last_or [] d = d
get_last_or (x ∷ xs) d = get_last_or xs x

-- Calls of other methods leave the round-trip figures alone.
unchanged :
    (m m' : UdpWorkloadMetrics) (xs : List ℕ)
    → m'.echoed_datagrams ≡ m.echoed_datagrams
    → m'.rtt_total_ns ≡ m.rtt_total_ns
    → m'.rtt_min_ns ≡ m.rtt_min_ns
    → m'.rtt_max_ns ≡ m.rtt_max_ns
    → m'.rtt_histogram ≡ m.rtt_histogram
    → Describes m xs
    → Describes m' xs
unchanged m m' xs e t lo hi h d = record {
  echoed = e ∙ d.echoed;
  total = t ∙ d.total;
  least = rw lo d.least;
  greatest = rw hi d.greatest;
  least_is_sample = rw lo d.least_is_sample;
  greatest_is_sample = rw hi d.greatest_is_sample;
  greatest_at_start = rw hi d.greatest_at_start;
  buckets = rw h d.buckets;
  counts = rw h d.counts;
}

attempt-Describes :
    (m : UdpWorkloadMetrics) (xs : List ℕ) → Describes m xs → Describes (record_attempt m) xs
unfolding record_attempt
attempt-Describes m xs = unchanged m _ xs refl refl refl refl refl

submission-Describes :
    (s : Submission) (m : UdpWorkloadMetrics) (xs : List ℕ)
    → Describes m xs
    → Describes (record_submission s.tick s.payload_bytes m) xs
unfolding record_submission
submission-Describes s m xs = unchanged m _ xs refl refl refl refl refl

echo-Describes :
    (e : Echo) (m : UdpWorkloadMetrics) (xs : List ℕ)
    → Describes m xs
    → sum xs + elapsed_of e < u64_mod
    → length xs + 1 < u32_mod
    → Describes (apply (echo e) m) (elapsed_of e ∷ xs)
unfolding apply record_echo
echo-Describes e m xs d total number =
    record_elapsed-Describes m xs (elapsed_of e) e.payload_bytes d (elapsed_of-lt e) total number

-- After any calls whose round trips add up to less than 2 ^ 64 and number less than 2 ^ 32, the
-- object holds the number, the sum, the least, the greatest and the histogram of the round trips.
pub run-Describes :
    (es : List Event)
    → sum (map elapsed_of (echoes es)) < u64_mod
    → length (echoes es) < u32_mod
    → Describes (run es) (map elapsed_of (echoes es))
unfolding run
run-Describes [] _ _ = initial-Describes
run-Describes (attempt ∷ es) total number =
    attempt-Describes (run es) _ (run-Describes es total number)
run-Describes (submission s ∷ es) total number =
    submission-Describes s (run es) _ (run-Describes es total number)
run-Describes (echo e ∷ es) total number =
    echo-Describes e (run es) (map elapsed_of (echoes es))
      (run-Describes es (omega arith) (omega arith)) (omega arith)
      (omega (arith, length-map (echoes es) elapsed_of))

-- What the submission fields hold of the submissions, the latest first.
pub record Submitted (m : UdpWorkloadMetrics) (ss : List Submission) : Type 0 where
  pub number : m.submitted_datagrams ≡ length ss
  pub bytes : m.submitted_bytes ≡ sum (map (λ s. s.payload_bytes) ss)
  pub latest : get_or (map (λ s. s.tick) ss) 0 m.last_submission_tick ≡ m.last_submission_tick
  pub earliest :
      get_last_or (map (λ s. s.tick) ss) m.first_submission_tick ≡ m.first_submission_tick

submission-Submitted :
    (s : Submission) (m : UdpWorkloadMetrics) (ss : List Submission)
    → Submitted m ss
    → sum (map (λ s. s.payload_bytes) ss) + s.payload_bytes < u64_mod
    → length ss + 1 < u32_mod
    → Submitted (record_submission s.tick s.payload_bytes m) (s ∷ ss)
unfolding record_submission
submission-Submitted s m [] d total number = record {
  number = omega (arith, d.number);
  bytes = omega (arith, d.bytes);
  latest = refl;
  earliest = ground (arith, d.number);
}
submission-Submitted s m (t ∷ ss) d total number = record {
  number = omega (arith, d.number);
  bytes = omega (arith, d.bytes);
  latest = refl;
  earliest = ground (arith, d.number, d.earliest);
}

-- Other calls leave the submission fields alone.
attempt-Submitted :
    (m : UdpWorkloadMetrics) (ss : List Submission)
    → Submitted m ss
    → Submitted (record_attempt m) ss
unfolding record_attempt
attempt-Submitted m ss d = record {
  number = d.number;
  bytes = d.bytes;
  latest = d.latest;
  earliest = d.earliest;
}

echo-Submitted :
    (e : Echo) (m : UdpWorkloadMetrics) (ss : List Submission)
    → Submitted m ss
    → Submitted (apply (echo e) m) ss
unfolding apply record_echo record_elapsed
echo-Submitted e m ss d = record {
  number = d.number;
  bytes = d.bytes;
  latest = d.latest;
  earliest = d.earliest;
}

-- After any calls whose submitted bytes and number fit, the object holds the number and the bytes of
-- the submissions and the ticks of the first and the last.
run-Submitted :
    (es : List Event)
    → sum (map (λ s. s.payload_bytes) (submissions es)) < u64_mod
    → length (submissions es) < u32_mod
    → Submitted (run es) (submissions es)
unfolding run
run-Submitted [] _ _ = record { number = refl; bytes = refl; latest = refl; earliest = refl }
run-Submitted (attempt ∷ es) total number =
    attempt-Submitted (run es) _ (run-Submitted es total number)
run-Submitted (submission s ∷ es) total number =
    submission-Submitted s (run es) (submissions es) (run-Submitted es (omega arith) (omega arith))
      (omega arith) (omega arith)
run-Submitted (echo e ∷ es) total number =
    echo-Submitted e (run es) _ (run-Submitted es total number)

-- The elapsed time of two submissions or more runs from the first to the last.
pub submission_elapsed-run :
    (frequency : ℕ) (es : List Event) (s t : Submission) (ss : List Submission)
    → sum (map (λ s. s.payload_bytes) (submissions es)) < u64_mod
    → length (submissions es) < u32_mod
    → submissions es ≡ s ∷ t ∷ ss
    → submission_elapsed_nanoseconds frequency (run es)
      ≡ ticks_to_nanoseconds
          ((s.tick + u64_mod - get_last_or (map (λ s. s.tick) ss) t.tick) % u64_mod)
          frequency
unfolding submission_elapsed_nanoseconds
submission_elapsed-run frequency es s t ss total number split =
    let d = rw split at (run-Submitted es total number) in
    ground (arith, d.number, d.latest, d.earliest)
