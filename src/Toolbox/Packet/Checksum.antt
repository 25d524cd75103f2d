-- ===== src/Toolbox/Packet/Checksum.antt =====
-- The Internet checksum: what is added up, and when the check succeeds.
use nx_reverse.Base.{
  ℕ, zero, suc, ◌+◌, ◌*◌, ◌/◌, ◌%◌, ◌^◌, ◌≤◌, ◌<◌, ◌≡◌, ◌↔◌, refl, [], ◌∷◌, arith, Bytes, All,
  length,
}
use nx_reverse.Toolbox.Packet.{add_checksum_bytes, fold_carries, finish_checksum}

-- The sum of the big-endian words, with no bound.
unfoldable pub word_sum : Bytes → ℕ
word_sum [] = 0
word_sum (x ∷ []) = x * 256
word_sum (x ∷ y ∷ rest) = x * 256 + y + word_sum rest

abbrev pub IsByte : ℕ → Type 0
IsByte b = b < 256

-- Each word is at most 0xFFFF.
pub word_sum-le : (s : Bytes) → All IsByte s → 2 * word_sum s ≤ 65535 * (length s + 1)
unfolding word_sum
word_sum-le [] _ = omega arith
word_sum-le (x ∷ []) h = omega arith
word_sum-le (x ∷ y ∷ rest) (hx, (hy, h)) = omega (arith, word_sum-le rest h)

pub add_checksum_bytes-word_sum :
    (s : Bytes) (n : ℕ) → n + word_sum s < 2 ^ 32 → add_checksum_bytes n s ≡ n + word_sum s
unfolding add_checksum_bytes word_sum
add_checksum_bytes-word_sum [] n h = omega arith
add_checksum_bytes-word_sum (x ∷ []) n h = omega arith
add_checksum_bytes-word_sum (x ∷ y ∷ rest) n h =
    omega (arith, add_checksum_bytes-word_sum rest ((n + (x * 256 + y)) % 2 ^ 32))

-- The loop has ended by its test when its fuel is used up.
pub fold_carries_ends : (sum : ℕ) → sum < 2 ^ 32 → fold_carries 2 sum / 65536 ≡ 0
unfolding fold_carries
fold_carries_ends sum h = ground arith

pub fold_carries_more :
    (fuel sum : ℕ) → sum < 2 ^ 32 → fold_carries (suc (suc fuel)) sum ≡ fold_carries 2 sum
unfolding fold_carries
fold_carries_more zero sum h = refl
fold_carries_more (suc fuel) sum h = ground arith

-- A sum checks exactly when it is a positive multiple of 0xFFFF.
pub finish_checksum_iff :
    (sum : ℕ) → sum < 2 ^ 32 → (finish_checksum sum ≡ 0) ↔ ((0 < sum) × (sum % 65535 ≡ 0))
unfolding finish_checksum
finish_checksum_iff sum h = ground arith

-- The checksum completes its sum to a multiple of 0xFFFF.
pub finish_checksum_completes :
    (sum : ℕ)
    → sum < 2 ^ 32
    → ((sum + finish_checksum sum) % 65535 ≡ 0)
      × (0 < sum + finish_checksum sum)
      × (finish_checksum sum < 65536)
unfolding finish_checksum
finish_checksum_completes sum h = ground arith
