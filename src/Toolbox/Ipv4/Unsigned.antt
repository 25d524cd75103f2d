-- ===== src/Toolbox/Ipv4/Unsigned.antt =====
-- What `ParseUnsigned` accepts: one digit or more, within the type, and nothing else.
use nx_reverse.Base.{
  ℕ, ◌+◌, ◌-◌, ◌*◌, ◌≤◌, ◌≡◌, ◌≢◌, refl, some, [], ◌∷◌, arith, Bytes, value, All, IsDigit,
  scan_digits, from_chars,
}
use nx_reverse.Toolbox.Ipv4.{parse_unsigned}

scan_digits-value : (s : Bytes) (n : ℕ) → All IsDigit s → scan_digits n s ≡ (value n s, [])
unfolding scan_digits
scan_digits-value [] n _ = refl
scan_digits-value (c ∷ s) n (hc, hs) = ground (arith, scan_digits-value s (n * 10 + (c - b'0')) hs)

scan_digits_sound :
    (s : Bytes) (n m : ℕ) → scan_digits n s ≡ (m, []) → All IsDigit s × (m ≡ value n s)
unfolding scan_digits
scan_digits_sound [] n m h = ground arith
scan_digits_sound (c ∷ s) n m h = ground (arith, scan_digits_sound s (n * 10 + (c - b'0')) m)

pub parse_unsigned_complete :
    (limit : ℕ) (s : Bytes)
    → s ≢ []
    → All IsDigit s
    → value 0 s ≤ limit
    → parse_unsigned limit s ≡ some (value 0 s)
unfolding parse_unsigned from_chars
parse_unsigned_complete limit [] ne _ _ = absurd (ne refl)
parse_unsigned_complete limit (c ∷ s) ne h fits = ground (arith, scan_digits-value (c ∷ s) 0 h, h.0)

whole_sound :
    (limit n : ℕ) (c : ℕ) (s : Bytes)
    → parse_unsigned limit (c ∷ s) ≡ some n
    → (scan_digits 0 (c ∷ s) ≡ (n, [])) × (n ≤ limit)
unfolding parse_unsigned from_chars
whole_sound limit n c s h = ground arith

pub parse_unsigned_sound :
    (limit : ℕ) (s : Bytes) {n : ℕ}
    → parse_unsigned limit s ≡ some n
    → (s ≢ []) × All IsDigit s × (n ≡ value 0 s) × (n ≤ limit)
parse_unsigned_sound limit [] h = unfold parse_unsigned from_chars in cc
parse_unsigned_sound limit (c ∷ s) {n} h =
    let (scanned, fits) = whole_sound limit n c s h in
    let (digits, exact) = scan_digits_sound (c ∷ s) 0 n scanned in (cc, digits, exact, fits)
