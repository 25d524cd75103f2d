-- ===== src/Toolbox/Metrics/Buckets.antt =====
-- The histogram's buckets are the powers of two.
use native.Mathlib.Nat.{two-pow-succ, one-le-pow}
use nx_reverse.Base.{ℕ, zero, suc, ◌/◌, ◌^◌, ◌≤◌, ◌<◌, ◌↔◌, arith}
use nx_reverse.Toolbox.Metrics.{u64_mod, bit_width, rtt_bucket, upper_end}

bit_width-le_iff : (fuel n i : ℕ) → n < 2 ^ fuel → (bit_width fuel n ≤ i) ↔ (n < 2 ^ i)
unfolding bit_width
bit_width-le_iff zero n i h = (λ _. omega (arith, one-le-pow i 2 (omega arith)), λ _. omega arith)
bit_width-le_iff (suc fuel) n zero h = ground arith
bit_width-le_iff (suc fuel) n (suc i) h =
    let half : n / 2 < 2 ^ fuel = omega (arith, two-pow-succ fuel) in
    let ih = bit_width-le_iff fuel (n / 2) i half in
    ground (arith, ih, two-pow-succ i, one-le-pow i 2 (omega arith))

-- A sample lies below bucket `i` exactly when it is less than `2 ^ i`, if there is a bucket below.
pub rtt_bucket-lt_iff : (x i : ℕ) → x < u64_mod → (rtt_bucket x < suc i) ↔ (x < 2 ^ suc i)
unfolding rtt_bucket
rtt_bucket-lt_iff x i h =
    ground (arith, bit_width-le_iff 64 x (suc i) h, one-le-pow (suc i) 2 (omega arith))

pub rtt_bucket-lt : (x : ℕ) → x < u64_mod → rtt_bucket x < 64
rtt_bucket-lt x h = (rtt_bucket-lt_iff x 63 h).1 h

-- The end that is reported for a bucket bounds the samples up to it, and they bound it.
pub upper_end_bound : (x i : ℕ) → x < u64_mod → i < 64 → rtt_bucket x < suc i → x ≤ upper_end i
unfolding upper_end
upper_end_bound x i h small below = ground (arith, rtt_bucket-lt_iff x i h)
