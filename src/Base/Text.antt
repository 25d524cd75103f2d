-- ===== src/Base/Text.antt =====
-- Text as a list of bytes, with the searches of `std::string_view` and the number reader
-- `std::from_chars` that the sources call.
use Prim.Native.Nat.{ℕ, suc, ◌+◌, ◌-◌, ◌*◌, ◌≤◌}
use Prim.Native.Char.{code}
use Prim.Native.String.{String}
use mathlib.Core.Path.{◌≡◌}
use mathlib.Core.Logic.{◌↔◌}
use mathlib.Core.Bool.{Bool, true, false, ◌&&◌}
use mathlib.Core.List.{List, [], ◌∷◌}
use mathlib.Core.Option
use mathlib.Core.Option.{Option, none, some}
use native.Mathlib.Omega.{arith}
use nx_reverse.Base.Lists.{take, drop}
use nx_reverse.Base.Tests.{leb, ◌==◌, if◌then◌else◌}

abbrev pub Bytes : Type 0
Bytes = List ℕ

-- The bytes of a literal, all of which are ASCII here.
abbrev pub codes : String → Bytes
codes String.[] = []
codes (String.◌∷◌ c s) = code c ∷ codes s

unfoldable pub equal : Bytes → Bytes → Bool
equal [] [] = true
equal (x ∷ xs) (y ∷ ys) = x == y && equal xs ys
equal _ _ = false

pub equal_iff : (text other : Bytes) → (equal text other ≡ true) ↔ (text ≡ other)
unfolding equal
equal_iff [] [] = ground arith
equal_iff [] (d ∷ other) = ground arith
equal_iff (c ∷ text) [] = ground arith
equal_iff (c ∷ text) (d ∷ other) = ground (arith, equal_iff text other)

-- `text.starts_with(prefix)`
unfoldable pub starts_with : Bytes → Bytes → Bool
starts_with text [] = true
starts_with [] (p ∷ ps) = false
starts_with (c ∷ text) (p ∷ ps) = c == p && starts_with text ps

-- `text.find(c)`, with `none` for `npos`
unfoldable pub find : ℕ → Bytes → Option ℕ
find c [] = none
find c (x ∷ xs) = if x == c then some 0 else Option.map suc (find c xs)

-- `text.find(c, offset)`
abbrev pub find_from : ℕ → Bytes → ℕ → Option ℕ
find_from c text offset = Option.map (λ i. offset + i) (find c (drop offset text))

-- `text.substr(offset, count)` with `offset` in range
abbrev pub substr : Bytes → ℕ → ℕ → Bytes
substr text offset count = take count (drop offset text)

abbrev pub is_digit : ℕ → Bool
is_digit c = leb b'0' c && leb c b'9'

abbrev pub IsDigit : ℕ → Type 0
IsDigit c = (b'0' ≤ c) × (c ≤ b'9')

-- The number that digits spell behind `n`, with no bound.
abbrev pub value : ℕ → Bytes → ℕ
value n [] = n
value n (c ∷ s) = value (n * 10 + (c - b'0')) s

unfoldable pub scan_digits : ℕ → Bytes → ℕ × Bytes
scan_digits n [] = (n, [])
scan_digits n (c ∷ s) =
    let more = scan_digits (n * 10 + (c - b'0')) s in if is_digit c then more else (n, c ∷ s)

-- `std::from_chars` on an unsigned type whose largest value is `limit`: the number that the
-- leading digits spell and the text behind them. It fails with no digit, and out of range.
unfoldable pub from_chars : ℕ → Bytes → Option (ℕ × Bytes)
from_chars limit [] = none
from_chars limit (c ∷ s) =
    let (n, rest) = scan_digits 0 (c ∷ s) in
    if is_digit c && leb n limit then some (n, rest) else none
