-- ===== src/Toolbox/Metrics/Ticks.antt =====
-- `TicksToNanoseconds` gives the exact quotient where its steps do not overflow.
use native.Mathlib.Nat.{mul-add-div, div-add-mod, mod-lt}
use nx_reverse.Base.{ℕ, ◌+◌, ◌*◌, ◌/◌, ◌%◌, ◌≤◌, ◌<◌, ◌≡◌, ap, sym, ◌∙◌, arith}
use nx_reverse.Toolbox.Metrics.{u64_mod, ticks_to_nanoseconds}

split_quotient : (t f k : ℕ) → 0 < f → t / f * k + t % f * k / f ≡ t * k / f
split_quotient t f k pos =
    let whole : t * k ≡ f * (t / f * k) + t % f * k =
      grind (arith, ap (λ x. x * k) (sym (div-add-mod t f))) in
    sym (ap (λ x. x / f) whole ∙ mul-add-div pos (t / f * k) (t % f * k))

-- `TicksToNanoseconds` rounds the exact value down, if that value fits in 64 bits and a second's
-- ticks do so in nanoseconds.
pub ticks_to_nanoseconds_exact :
    (t f : ℕ)
    → 0 < f
    → f * 1000000000 ≤ u64_mod
    → t * 1000000000 / f < u64_mod
    → ticks_to_nanoseconds t f ≡ t * 1000000000 / f
unfolding ticks_to_nanoseconds
ticks_to_nanoseconds_exact t f pos small fits =
    ground (arith, split_quotient t f 1000000000 pos, mod-lt t pos)
