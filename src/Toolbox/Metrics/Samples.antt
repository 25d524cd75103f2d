-- ===== src/Toolbox/Metrics/Samples.antt =====
-- The metrics summarise the samples recorded.
use mathlib.Core.Path.{subst}
use nx_reverse.Base.{
  ℕ, zero, suc, ◌+◌, ◌-◌, ◌%◌, ◌≤◌, ◌<◌, ◌≡◌, ◌≢◌, ◌⊎◌, inl, inr, refl, sym, ◌∙◌, arith, ◌==◌, List,
  [], ◌∷◌, All, All-map, count, count-le-length, get_or, get_or-set, length-set, length, sum,
  replicate, Bool-cases, ltb, ==_iff, ◌||◌,
}
use nx_reverse.Toolbox.Metrics.{
  u64_mod, u32_mod, UdpWorkloadMetrics, initial, rtt_bucket, record_elapsed, ticks_to_nanoseconds,
}
use nx_reverse.Toolbox.Metrics.Buckets.{rtt_bucket-lt}

-- The samples that fall into a bucket.
abbrev pub count_in : ℕ → List ℕ → ℕ
count_in i = count (λ x. rtt_bucket x == i)

abbrev pub Has : ℕ → List ℕ → Type 0
Has a [] = ⊥
Has a (x ∷ xs) = (a ≡ x) ⊎ Has a xs

-- `m` holds the number, the sum, the least and the greatest of the samples, and the number in each
-- bucket.
pub record Describes (m : UdpWorkloadMetrics) (xs : List ℕ) : Type 0 where
  pub echoed : m.echoed_datagrams ≡ length xs
  pub total : m.rtt_total_ns ≡ sum xs
  pub least : All (λ x. m.rtt_min_ns ≤ x) xs
  pub greatest : All (λ x. x ≤ m.rtt_max_ns) xs
  pub least_is_sample : xs ≢ [] → Has m.rtt_min_ns xs
  pub greatest_is_sample : xs ≢ [] → Has m.rtt_max_ns xs
  pub greatest_at_start : length xs ≡ 0 → m.rtt_max_ns ≡ 0
  pub buckets : length m.rtt_histogram ≡ 64
  pub counts : (i : ℕ) → i < 64 → get_or m.rtt_histogram i 0 ≡ count_in i xs

get_or-replicate : (n i : ℕ) → get_or {A = ℕ} (replicate n 0) i 0 ≡ 0
get_or-replicate zero i = refl
get_or-replicate (suc n) zero = refl
get_or-replicate (suc n) (suc i) = get_or-replicate n i

pub initial-Describes : Describes initial []
initial-Describes = record {
  echoed = refl;
  total = refl;
  least = tt;
  greatest = tt;
  least_is_sample = λ ne. absurd (ne refl);
  greatest_is_sample = λ ne. absurd (ne refl);
  greatest_at_start = λ _. refl;
  buckets = refl;
  counts = λ i h. get_or-replicate 64 i;
}

All-empty : (P : ℕ → Type 0) (xs : List ℕ) → length xs ≡ 0 → All P xs
All-empty P [] e = tt
All-empty P (x ∷ xs) e = absurd (omega arith)

nonempty : (xs : List ℕ) → length xs ≢ 0 → xs ≢ []
nonempty [] h = absurd (h refl)
nonempty (x ∷ xs) h = cc

-- One more sample of the range.
module _ (m : UdpWorkloadMetrics) (xs : List ℕ) (x bytes : ℕ) (d : Describes m xs)
    (word : x < u64_mod) (sum_fits : sum xs + x < u64_mod)
    (count_fits : length xs + 1 < u32_mod) where
  next_least : All (λ y. (record_elapsed x bytes m).rtt_min_ns ≤ y) xs
  unfolding record_elapsed
  next_least = elim (Bool-cases (m.echoed_datagrams == 0)) [
    | inl none_yet ↦
        All-empty _ xs (omega (arith, d.echoed, (==_iff m.echoed_datagrams 0).0 none_yet))
    | inr some_yet ↦ All-map _ _ xs (λ y h. ground arith) d.least
  ]

  next_greatest : All (λ y. y ≤ (record_elapsed x bytes m).rtt_max_ns) xs
  unfolding record_elapsed
  next_greatest = All-map _ _ xs (λ y h. ground arith) d.greatest

  next_least_is_sample : Has (record_elapsed x bytes m).rtt_min_ns (x ∷ xs)
  unfolding record_elapsed
  next_least_is_sample = elim (Bool-cases (m.echoed_datagrams == 0 || ltb x m.rtt_min_ns)) [
    | inl new ↦ inl (ground arith)
    | inr old ↦
        let kept : (record_elapsed x bytes m).rtt_min_ns ≡ m.rtt_min_ns = ground arith in
        inr (
          subst (λ k. Has k xs) (sym kept)
            (d.least_is_sample (nonempty xs (ground (arith, d.echoed)))))
  ]

  next_greatest_is_sample : Has (record_elapsed x bytes m).rtt_max_ns (x ∷ xs)
  unfolding record_elapsed
  next_greatest_is_sample = elim (Bool-cases (ltb m.rtt_max_ns x)) [
    | inl new ↦ inl (ground arith)
    | inr old ↦ elim (Bool-cases (length xs == 0)) [
      | inl first ↦ inl (ground (arith, d.greatest_at_start))
      | inr later ↦
          let kept : (record_elapsed x bytes m).rtt_max_ns ≡ m.rtt_max_ns = ground arith in
          inr (subst (λ k. Has k xs) (sym kept) (d.greatest_is_sample (nonempty xs (ground arith))))
    ]
  ]

  next_counts :
      (i : ℕ) → i < 64 → get_or (record_elapsed x bytes m).rtt_histogram i 0 ≡ count_in i (x ∷ xs)
  unfolding record_elapsed
  next_counts i h =
      let b = rtt_bucket x in
      let small : b < 64 = rtt_bucket-lt x word in
      let stored = (get_or m.rtt_histogram b 0 + 1) % u32_mod in
      let inside : b < length m.rtt_histogram = omega (arith, d.buckets) in
      ground (
        arith,
        get_or-set m.rtt_histogram b i stored 0 inside,
        d.counts b small,
        d.counts i h,
        count-le-length (λ y. rtt_bucket y == b) xs,
      )

  pub record_elapsed-Describes : Describes (record_elapsed x bytes m) (x ∷ xs)
  record_elapsed-Describes = record {
    echoed = unfold record_elapsed in omega (arith, d.echoed);
    total = unfold record_elapsed in omega (arith, d.total);
    least = (unfold record_elapsed in ground arith, next_least);
    greatest = (unfold record_elapsed in ground arith, next_greatest);
    least_is_sample = λ _. next_least_is_sample;
    greatest_is_sample = λ _. next_greatest_is_sample;
    greatest_at_start = λ e. absurd (omega arith);
    buckets = unfold record_elapsed in length-set m.rtt_histogram (rtt_bucket x) _ ∙ d.buckets;
    counts = next_counts;
  }

-- One call of `RecordEcho`.
pub record Echo : Type 0 where
  pub start_tick : ℕ
  pub end_tick : ℕ
  pub tick_frequency : ℕ
  pub payload_bytes : ℕ

abbrev pub elapsed_of : Echo → ℕ
elapsed_of e =
    ticks_to_nanoseconds ((e.end_tick + u64_mod - e.start_tick) % u64_mod) e.tick_frequency

pub elapsed_of-lt : (e : Echo) → elapsed_of e < u64_mod
unfolding ticks_to_nanoseconds
elapsed_of-lt e = ground arith
