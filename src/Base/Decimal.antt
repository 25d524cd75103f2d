-- ===== src/Base/Decimal.antt =====
-- The decimal text that `printf` makes of an unsigned number (`%u`, `%zu`).
use Prim.Native.Nat.{ℕ, zero, suc, ◌+◌, ◌-◌, ◌*◌, ◌/◌, ◌%◌, ◌≤◌, ◌<◌}
use mathlib.Core.Path.{◌≡◌, refl, ap, ◌∙◌}
use mathlib.Core.Logic.{inl, inr}
use mathlib.Core.Bool.{true}
use mathlib.Core.List.{[], ◌∷◌}
use native.Mathlib.Omega.{arith}
use nx_reverse.Base.Tests.{ltb, if◌then◌else◌, Bool-cases}
use nx_reverse.Base.Lists.{All, length}
use nx_reverse.Base.Text.{Bytes, codes, IsDigit, value}

abbrev digit : ℕ → ℕ
digit d = b'0' + d

-- The digits of a number in front of others, with more fuel than the number.
unfoldable pub decimal_from : ℕ → ℕ → Bytes → Bytes
decimal_from zero n digits = digits
decimal_from (suc fuel) n digits =
    let more = decimal_from fuel (n / 10) (digit (n % 10) ∷ digits) in
    if ltb n 10 then digit n ∷ digits else more

unfoldable pub decimal : ℕ → Bytes
unfolding decimal_from
decimal n = decimal_from (suc n) n []

decimal_from-value :
    (fuel n : ℕ) (digits : Bytes) → n < fuel → value 0 (decimal_from fuel n digits) ≡ value n digits
unfolding decimal_from
decimal_from-value zero n digits h = absurd (omega arith)
decimal_from-value (suc fuel) n digits h = elim (Bool-cases (ltb n 10)) [
  | inl small ↦
      let e : 0 * 10 + (b'0' + n - b'0') ≡ n = omega arith in rw small (ap (λ k. value k digits) e)
  | inr large ↦
      let fewer : n / 10 < fuel = ground arith in
      let e : n / 10 * 10 + (b'0' + n % 10 - b'0') ≡ n = omega arith in
      rw large (
        decimal_from-value fuel (n / 10) (digit (n % 10) ∷ digits) fewer
        ∙ ap (λ k. value k digits) e)
]

-- The digits spell the number.
pub value-decimal : (n : ℕ) → value 0 (decimal n) ≡ n
unfolding decimal
value-decimal n = decimal_from-value (suc n) n [] (omega arith)

decimal_from-IsDigit :
    (fuel n : ℕ) (digits : Bytes) → All IsDigit digits → All IsDigit (decimal_from fuel n digits)
unfolding decimal_from
decimal_from-IsDigit zero n digits h = h
decimal_from-IsDigit (suc fuel) n digits h = elim (Bool-cases (ltb n 10)) [
  | inl small ↦ let below : n < 10 = ground arith in rw small ((omega arith, omega arith), h)
  | inr large ↦
      rw large (
        decimal_from-IsDigit fuel (n / 10) (digit (n % 10) ∷ digits)
          ((omega arith, omega arith), h))
]

pub decimal-IsDigit : (n : ℕ) → All IsDigit (decimal n)
unfolding decimal
decimal-IsDigit n = decimal_from-IsDigit (suc n) n [] tt

-- Ten to a power.
abbrev tens : ℕ → ℕ
tens zero = 1
tens (suc k) = 10 * tens k

decimal_from-length :
    (k fuel n : ℕ) (digits : Bytes)
    → n < tens (suc k)
    → n < fuel
    → (0 < length (decimal_from fuel n digits))
      × (length (decimal_from fuel n digits) ≤ suc k + length digits)
unfolding decimal_from
decimal_from-length k zero n digits h few = absurd (omega arith)
decimal_from-length zero (suc fuel) n digits h few =
    let small : ltb n 10 ≡ true = ground arith in rw small (omega arith, omega arith)
decimal_from-length (suc k) (suc fuel) n digits h few = elim (Bool-cases (ltb n 10)) [
  | inl small ↦ rw small (omega arith, omega arith)
  | inr large ↦
      let fewer : n / 10 < fuel = ground arith in
      let (present, short) =
        decimal_from-length k fuel (n / 10) (digit (n % 10) ∷ digits) (omega arith) fewer in
      rw large (present, omega (arith, short))
]

-- A number below 2 ^ 64 has one to twenty digits.
pub length-decimal :
    (n : ℕ) → n ≤ 18446744073709551615 → (0 < length (decimal n)) × (length (decimal n) ≤ 20)
unfolding decimal
length-decimal n h = decimal_from-length 19 (suc n) n [] (omega arith) (omega arith)

decimal_lem : decimal 1844674407 ≡ codes "1844674407"
unfolding decimal
decimal_lem = refl
