-- ===== src/Toolbox/Metrics/Percentile.antt =====
-- The mean and the percentiles that are read off the metrics.
use native.Mathlib.Nat.{add-zero, le-div_iff_mul-le, div-le_of_le-mul}
use mathlib.Core.Path.{subst}
use nx_reverse.Base.{
  ℕ, zero, suc, ◌+◌, ◌-◌, ◌*◌, ◌/◌, ◌%◌, ◌==◌, ◌^◌, ◌≤◌, ◌<◌, ◌≡◌, ◌≢◌, ◌⊎◌, inl, inr, refl, ap,
  sym, ◌∙◌, arith, List, [], ◌∷◌, All, count, count-le-length, get_or, length, sum, Bool-cases, leb,
  count_mono, ltb,
}
use nx_reverse.Toolbox.Metrics.{
  u64_mod, u32_mod, UdpWorkloadMetrics, rtt_bucket, rtt_mean_nanoseconds,
}
use nx_reverse.Toolbox.Metrics.Buckets.{rtt_bucket-lt, rtt_bucket-lt_iff, upper_end_bound}
use nx_reverse.Toolbox.Metrics.Samples.{Describes, count_in}
use nx_reverse.Toolbox.Metrics.{percentile_from, rtt_percentile_upper_nanoseconds, upper_end}

length_pos : (xs : List ℕ) → xs ≢ [] → 0 < length xs
length_pos [] ne = absurd (ne refl)
length_pos (x ∷ xs) ne = omega arith

sum_bounds :
    (lo hi : ℕ) (xs : List ℕ)
    → All (λ x. lo ≤ x) xs
    → All (λ x. x ≤ hi) xs
    → (length xs * lo ≤ sum xs) × (sum xs ≤ length xs * hi)
sum_bounds lo hi [] _ _ = omega arith
sum_bounds lo hi (x ∷ xs) (hl, al) (hh, ah) = grind (arith, sum_bounds lo hi xs al ah)

-- The mean lies between the least and the greatest sample.
pub rtt_mean_nanoseconds_bounds :
    (m : UdpWorkloadMetrics) (xs : List ℕ)
    → Describes m xs
    → xs ≢ []
    → (m.rtt_min_ns ≤ rtt_mean_nanoseconds m) × (rtt_mean_nanoseconds m ≤ m.rtt_max_ns)
unfolding rtt_mean_nanoseconds
rtt_mean_nanoseconds_bounds m xs d ne =
    let n = length xs in
    let pos : 0 < n = length_pos xs ne in
    let (above, below) = sum_bounds m.rtt_min_ns m.rtt_max_ns xs d.least d.greatest in
    let low = (le-div_iff_mul-le {x = m.rtt_min_ns} {y = sum xs} pos).1 (grind arith) in
    let high = div-le_of_le-mul n {m = sum xs} {n = m.rtt_max_ns} below in
    ground (arith, d.echoed, d.total)

-- The samples in the buckets below `i`.
abbrev pub count_below : ℕ → List ℕ → ℕ
count_below i = count (λ x. ltb (rtt_bucket x) i)

count_below-suc : (xs : List ℕ) (i : ℕ) → count_below (i + 1) xs ≡ count_below i xs + count_in i xs
count_below-suc [] i = omega arith
count_below-suc (x ∷ xs) i = ground (arith, count_below-suc xs i)

count_below-All : (xs : List ℕ) → All (λ x. x < u64_mod) xs → count_below 64 xs ≡ length xs
count_below-All [] _ = refl
count_below-All (x ∷ xs) (h, hs) = ground (arith, count_below-All xs hs, rtt_bucket-lt x h)

none_below : (xs : List ℕ) → 0 ≡ count_below 0 xs
none_below [] = refl
none_below (x ∷ xs) = ground (arith, none_below xs)

-- The bucket at which the loop stops: it brings the samples seen up to the target, and the buckets
-- before it do not.
pub record StopsAt (target : ℕ) (xs : List ℕ) (i : ℕ) : Type 0 where
  pub in_range : i < 64
  pub reached : target ≤ count_below (i + 1) xs
  pub first : (i ≡ 0) ⊎ (count_below i xs < target)

count_below-le : (xs : List ℕ) (i : ℕ) → count_below i xs ≤ length xs
count_below-le xs i = count-le-length (λ x. ltb (rtt_bucket x) i) xs

percentile_from-StopsAt :
    (target : ℕ) (xs counts : List ℕ) (i observed : ℕ)
    → length xs < u32_mod
    → observed ≡ count_below i xs
    → i + length counts ≡ 64
    → ((j : ℕ) → j < length counts → get_or counts j 0 ≡ count_in (i + j) xs)
    → (i ≡ 0) ⊎ (count_below i xs < target)
    → target ≤ count_below 64 xs
    → (k : ℕ) × (percentile_from target i observed counts ≡ upper_end k) × StopsAt target xs k
unfolding percentile_from
percentile_from-StopsAt target xs [] i observed small o e c before enough =
    let at_end : i ≡ 64 = omega arith in absurd (ground (arith, ap (λ k. count_below k xs) at_end))
percentile_from-StopsAt target xs (n ∷ counts) i observed small o e c before enough =
    let seen : (observed + n) % u64_mod ≡ count_below (i + 1) xs = omega (
      arith,
      count_below-suc xs i,
      count_below-le xs (i + 1),
      c 0 (omega arith),
      ap (λ k. count_in k xs) (add-zero i),
    ) in
    elim (Bool-cases (leb target ((observed + n) % u64_mod))) [
      | inl stop ↦
          (i, rw stop, record { in_range = omega arith; reached = ground arith; first = before })
      | inr go ↦
          let later =
            percentile_from-StopsAt target xs counts (i + 1) ((observed + n) % u64_mod) small seen
              (omega arith) (λ j h. c (suc j) (omega arith) ∙ ap (λ k. count_in k xs) (omega arith))
              (inr (ground arith)) enough in
          rw go later
    ]

-- The rank that is looked for: `percentile` per cent of the samples, rounded up.
abbrev pub rank : ℕ → ℕ → ℕ
rank percentile n = (n * percentile + 99) / 100

-- A bucket and its end: the next power of two, and for the last bucket the greatest 64-bit number.
abbrev pub IsEndOf : ℕ → ℕ → Type 0
IsEndOf bucket bound =
    ((bucket < 63) × (bound ≡ 2 ^ (bucket + 1))) ⊎ ((bucket ≡ 63) × (bound ≡ u64_mod - 1))

upper_end-IsEndOf : (i : ℕ) → i < 64 → IsEndOf i (upper_end i)
unfolding upper_end
upper_end-IsEndOf i small = elim (Bool-cases (i + 1 == 64)) [
  | inl last ↦ rw last (inr (ground arith, refl))
  | inr inner ↦ rw inner (inl (ground arith, refl))
]

-- What is reported for a percentile of at most 100.
pub record IsUpperBound (percentile : ℕ) (xs : List ℕ) (bound : ℕ) : Type 0 where
  pub bucket : ℕ
  pub reported : IsEndOf bucket bound
  pub enough_below : rank percentile (length xs) ≤ count (λ x. leb x bound) xs
  pub not_before : (bucket ≡ 0) ⊎ (count (λ x. ltb x (2 ^ bucket)) xs < rank percentile (length xs))

module _ (xs : List ℕ) (words : All (λ x. x < u64_mod) xs) where
  count_below-upper_end :
      (i : ℕ) → i < 64 → count_below (i + 1) xs ≤ count (λ x. leb x (upper_end i)) xs
  count_below-upper_end i small =
      count_mono (λ x. x < u64_mod) _ _ xs words
        (λ x h t. ground (arith, upper_end_bound x i h small))

  count_lt-count_below : (i : ℕ) → i ≢ 0 → count (λ x. ltb x (2 ^ i)) xs ≤ count_below i xs
  count_lt-count_below zero ne = absurd (ne refl)
  count_lt-count_below (suc i) ne =
      count_mono (λ x. x < u64_mod) _ _ xs words (λ x h t. ground (arith, rtt_bucket-lt_iff x i h))

  none_before :
      (target k : ℕ)
      → (k ≡ 0) ⊎ (count_below k xs < target)
      → (k ≡ 0) ⊎ (count (λ x. ltb x (2 ^ k)) xs < target)
  none_before target zero h = inl refl
  none_before target (suc k) h =
      inr (ground (arith, count_lt-count_below (suc k) (λ (e : suc k ≡ 0). absurd (omega arith))))

  stopped :
      (percentile k : ℕ)
      → StopsAt (rank percentile (length xs)) xs k
      → IsUpperBound percentile xs (upper_end k)
  stopped percentile k stops = record {
    bucket = k;
    reported = upper_end-IsEndOf k stops.in_range;
    enough_below = omega (arith, count_below-upper_end k stops.in_range, stops.reached);
    not_before = none_before (rank percentile (length xs)) k stops.first;
  }

  -- Where the metrics describe the samples, which are one or more and fewer than 2^32, the value that
  -- is reported for a percentile of at most 100 bounds the wanted share of the samples from above, and
  -- is the end of the first of the 64 buckets that does: it is the power of two above the bucket, or
  -- 2^64 - 1 for the last one, and unless it is the first bucket fewer samples than wanted lie below
  -- that bucket.
  pub rtt_percentile-IsUpperBound :
      (m : UdpWorkloadMetrics) (percentile : ℕ)
      → Describes m xs
      → length xs < u32_mod
      → xs ≢ []
      → percentile ≤ 100
      → IsUpperBound percentile xs (rtt_percentile_upper_nanoseconds percentile m)
  unfolding rtt_percentile_upper_nanoseconds
  rtt_percentile-IsUpperBound m percentile d small ne hundred =
      let n = length xs in
      let product : n * percentile ≤ n * 100 = grind arith in
      let target = (m.echoed_datagrams * percentile % u64_mod + 99) % u64_mod / 100 in
      let exact : target ≡ rank percentile n = rw (d.echoed) (omega arith) in
      let (k, found, stops) =
        percentile_from-StopsAt target xs m.rtt_histogram 0 0 small (none_below xs)
          (omega (arith, d.buckets))
          (λ j h. d.counts j (omega (arith, d.buckets)) ∙ ap (λ i. count_in i xs) (omega arith))
          (inl refl) (omega (arith, count_below-All xs words)) in
      let reported : rtt_percentile_upper_nanoseconds percentile m ≡ upper_end k =
        ground (arith, length_pos xs ne, d.echoed) in
      subst (IsUpperBound percentile xs) (sym reported)
        (stopped percentile k (subst (λ t. StopsAt t xs k) exact stops))
