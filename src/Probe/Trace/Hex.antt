-- ===== src/Probe/Trace/Hex.antt =====
-- The hexadecimal text of net-probe/src/mitm_trace.cpp read back.
use nx_reverse.Base.{
  ℕ, zero, suc, ◌+◌, ◌-◌, ◌*◌, ◌/◌, ◌%◌, ◌<◌, ◌≡◌, inl, inr, refl, ap, ◌∙◌, arith, true, [], ◌∷◌,
  Bytes, All, take, leb, ltb, ==_iff, passes_below, passes_below-lt, ◌==◌, if◌then◌else◌,
  Bool-cases,
}
use nx_reverse.Probe.Trace.{hex_digit, hex_from, hex_encode}

-- The number that a digit stands for.
abbrev pub hex_value : ℕ → ℕ
hex_value c = if leb c b'9' then c - b'0' else c - b'a' + 10

-- The bytes that pairs of digits stand for.
unfoldable pub hex_decode : Bytes → Bytes
hex_decode (h ∷ l ∷ text) = (hex_value h * 16 + hex_value l) ∷ hex_decode text
hex_decode _ = []

digit_table : passes_below (λ n. hex_value (hex_digit n) == n) 16 ≡ true
unfolding passes_below
digit_table = refl

hex_value-hex_digit : (n : ℕ) → n < 16 → hex_value (hex_digit n) ≡ n
hex_value-hex_digit n h = (==_iff _ _).0 (passes_below-lt _ 16 n h digit_table)

hex_from_lem :
    (out_size cursor : ℕ) (bytes : Bytes)
    → All (λ b. b < 256) bytes
    → hex_decode (hex_from out_size cursor bytes) ≡ take ((out_size - 1 - cursor) / 2) bytes
unfolding hex_from hex_decode
hex_from_lem out_size cursor [] _ = take_empty ((out_size - 1 - cursor) / 2)
  where
    take_empty : (n : ℕ) → [] ≡ take {A = ℕ} n []
    take_empty zero = refl
    take_empty (suc n) = refl
hex_from_lem out_size cursor (b ∷ bytes) (small, h) =
    elim (Bool-cases (ltb (cursor + 2) out_size)) [
      | inl fits ↦
          let more : (out_size - 1 - cursor) / 2 ≡ suc ((out_size - 1 - (cursor + 2)) / 2) =
            ground arith in
          let high = hex_value-hex_digit (b / 16 % 16) (omega arith) in
          let low = hex_value-hex_digit (b % 16) (omega arith) in
          let whole : b / 16 % 16 * 16 + b % 16 ≡ b = omega arith in
          rw (fits, more, high, low, whole)
            (ap (◌∷◌ b) (hex_from_lem out_size (cursor + 2) bytes h))
      | inr over ↦
          let none_left : (out_size - 1 - cursor) / 2 ≡ 0 = ground arith in
          rw (over, none_left) refl
    ]

-- The hexadecimal text decodes to the bytes that the output has room for, with its terminator.
pub hex_decode-hex_encode :
    (out_size : ℕ) (bytes : Bytes)
    → All (λ b. b < 256) bytes
    → hex_decode (hex_encode out_size bytes) ≡ take ((out_size - 1) / 2) bytes
hex_decode-hex_encode out_size bytes h =
    hex_from_lem out_size 0 bytes h ∙ ap (λ n. take (n / 2) bytes) (omega arith)
