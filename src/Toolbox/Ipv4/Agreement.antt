-- ===== src/Toolbox/Ipv4/Agreement.antt =====
-- Both readers accept exactly the dotted quads, hence the same texts.
use nx_reverse.Base.{
  ℕ, zero, suc, find, take, drop, ◌+◌, ◌-◌, ◌*◌, ◌≤◌, ◌<◌, ◌≡◌, ◌≢◌, ◌↔◌, refl, ap, sym, true, ◌&&◌,
  some, [], ◌∷◌, ◌++◌, append_assoc, arith, Bytes, length, length-append, length-take, length-drop,
  drop-drop, take_all, value, All, All-append, IsDigit, is_digit, leb, ltb, ◌==◌, Bool-cases,
  Option-cases, inl, inr, ◌∙◌, ◌⊎◌, ◌%◌, ◌^◌, ==_iff,
}
use nx_reverse.Toolbox.Ipv4.{valid_from, component_ok, is_valid_ipv4, address_from, is_ipv4_address}
use nx_reverse.Toolbox.Ipv4.Quads.{
  IsOctet, IsQuad, octet, octet_sound, octet_complete, quads, quads-Hopeless, Hopeless, quads-find,
  quads-find-suc, quads_iff,
}

find-lt : (s : Bytes) (c i : ℕ) → find c s ≡ some i → i < length s
unfolding find
find-lt [] c i h = cc
find-lt (x ∷ s) c i h = elim (Option-cases (find c s)) [
  | inl e ↦ ground arith
  | inr (j, e) ↦ ground (arith, find-lt s c j e)
]

component-octet :
    (text : Bytes) (offset n : ℕ)
    → offset + n ≤ length text
    → component_ok text offset (offset + n) ≡ octet (take n (drop offset text))
unfolding component_ok octet
component-octet text offset n h =
    let e : offset + n - offset ≡ n = omega arith in
    let l : length (take n (drop offset text)) ≡ n =
      omega (arith, length-take n (drop offset text), length-drop offset text) in
    rw (e, l) (ground arith)

valid_from-quads :
    (text : Bytes) (left offset : ℕ)
    → offset ≤ length text
    → valid_from text left offset ≡ quads left [] (drop offset text)
unfolding valid_from
valid_from-quads text zero offset h = elim (Option-cases (find b'.' (drop offset text))) [
  | inl e ↦
      let n = length text - offset in
      let n_eq : length (drop offset text) ≡ n = length-drop offset text in
      let end_eq : length text ≡ offset + n = omega arith in
      let whole : take n (drop offset text) ≡ drop offset text =
        ap (λ k. take k (drop offset text)) (sym n_eq) ∙ take_all (drop offset text) in
      ground (arith, quads-find (drop offset text) [], component-octet text offset n, whole, end_eq)
  | inr (i, e) ↦ ground (arith, quads-find (drop offset text) [])
]
valid_from-quads text (suc left) offset h = elim (Option-cases (find b'.' (drop offset text))) [
  | inl e ↦ ground (arith, quads-find-suc (drop offset text) left [])
  | inr (i, e) ↦
      let inside : i < length text - offset =
        omega (arith, find-lt (drop offset text) b'.' i e, length-drop offset text) in
      let next : drop (suc i) (drop offset text) ≡ drop (offset + i + 1) text =
        drop-drop (suc i) offset text ∙ ap (λ k. drop k text) (omega arith) in
      ground (
        arith,
        quads-find-suc (drop offset text) left [],
        component-octet text offset i,
        valid_from-quads text left (offset + i + 1),
        next,
      )
]

-- `IsValidIpv4` accepts exactly the dotted quads.
pub is_valid_ipv4_iff : (text : Bytes) → (is_valid_ipv4 text ≡ true) ↔ IsQuad text
unfolding is_valid_ipv4
is_valid_ipv4_iff text = rw (valid_from-quads text 3 0 (omega arith)) (quads_iff text)

value-concat : (s : Bytes) (n c : ℕ) → value n (s ++ c ∷ []) ≡ value n s * 10 + (c - b'0')
value-concat [] n c = refl
value-concat (x ∷ s) n c = value-concat s (n * 10 + (x - b'0')) c

value-lt : (s : Bytes) → All IsDigit s → length s ≤ 3 → value 0 s ≤ 999
value-lt [] _ _ = omega arith
value-lt (a ∷ []) h _ = omega arith
value-lt (a ∷ b ∷ []) h _ = omega arith
value-lt (a ∷ b ∷ c ∷ []) h _ = omega arith
value-lt (a ∷ b ∷ c ∷ d ∷ s) h l = absurd (omega arith)

-- Of at most three digits only the number is tested.
octet_digits :
    (s : Bytes) → All IsDigit s → length s ≤ 3 → octet s ≡ (ltb 0 (length s) && leb (value 0 s) 255)
octet_digits s h l = elim (Bool-cases (octet s)) [
  | inl e ↦ let o = octet_sound s e in ground (arith, o.present, o.small)
  | inr e ↦ elim (Bool-cases (ltb 0 (length s) && leb (value 0 s) 255)) [
    | inl t ↦
        let o : IsOctet s = record {
          present = ground arith;
          short = l;
          digits = h;
          small = ground arith;
        } in
        cc (octet_complete s o)
    | inr f ↦ e ∙ sym f
  ]
]

All-split : (s t : Bytes) → All IsDigit (s ++ t) → All IsDigit t
All-split [] t h = h
All-split (c ∷ s) t (_, h) = All-split s t h

too_long : (part : Bytes) → 3 < length part → Hopeless part
too_long part l t = elim (Bool-cases (octet (part ++ t))) [
  | inl e ↦ absurd (omega (arith, (octet_sound (part ++ t) e).short, length-append part t))
  | inr e ↦ e
]

not_digit : (part : Bytes) (c : ℕ) → (c < b'0') ⊎ (b'9' < c) → Hopeless (part ++ c ∷ [])
not_digit part c l t = elim (Bool-cases (octet ((part ++ c ∷ []) ++ t))) [
  | inl e ↦
      let digits = (octet_sound ((part ++ c ∷ []) ++ t) e).digits in
      let behind = All-split part (c ∷ t) (rw append_assoc at digits) in
      absurd (omega (arith, behind.0))
  | inr e ↦ e
]

-- The counters of `IsIpv4Address` describe the part of the current component that was read.
record Reads (left octets n digits : ℕ) (part : Bytes) : Type 0 where
  all_digits : All IsDigit part
  counted : digits ≡ length part
  within : length part ≤ 3
  valued : n ≡ value 0 part
  remaining : octets + left ≡ 3

empty_part : (left octets : ℕ) → octets + left ≡ 3 → Reads left octets 0 0 []
empty_part left octets e = record {
  all_digits = tt;
  counted = refl;
  within = omega arith;
  valued = refl;
  remaining = e;
}

-- One more digit is read.
longer_part :
    (left octets n digits ch : ℕ) (part : Bytes)
    → Reads left octets n digits part
    → b'0' ≤ ch
    → ch ≤ b'9'
    → digits + 1 ≤ 3
    → Reads left octets ((n * 10 + (ch - b'0')) % 2 ^ 32) (digits + 1) (part ++ ch ∷ [])
longer_part left octets n digits ch part r lo hi room = record {
  all_digits = All-append IsDigit part (ch ∷ []) r.all_digits ((lo, hi), tt);
  counted = omega (arith, length-append part (ch ∷ []), r.counted);
  within = omega (arith, length-append part (ch ∷ []), r.counted);
  valued = omega (arith, value-concat part 0 ch, value-lt part r.all_digits r.within, r.valued);
  remaining = r.remaining;
}

-- What one byte does to the loop.
data ByteKind (digits ch : ℕ) : Type 0 where
  dot : ch ≡ b'.' → ByteKind digits ch
  other : ch ≢ b'.' → (ch < b'0') ⊎ (b'9' < ch) → ByteKind digits ch
  late : b'0' ≤ ch → ch ≤ b'9' → 3 < digits + 1 → ByteKind digits ch
  digit : b'0' ≤ ch → ch ≤ b'9' → digits + 1 ≤ 3 → ByteKind digits ch

byte_kind : (digits ch : ℕ) → ByteKind digits ch
byte_kind digits ch = elim (Bool-cases (ch == b'.')) [
  | inl d ↦ dot ((==_iff ch b'.').0 d)
  | inr nd ↦ elim (Bool-cases (is_digit ch)) [
    | inr n ↦ other (ground arith) (ground arith)
    | inl y ↦ elim (Bool-cases (ltb 3 (digits + 1))) [
      | inl l ↦ late (ground arith) (ground arith) (ground arith)
      | inr l ↦ digit (ground arith) (ground arith) (ground arith)
    ]
  ]
]

-- The part behind which the byte is no octet.
part_too_long :
    {left octets n digits : ℕ} {part : Bytes} (ch : ℕ)
    → Reads left octets n digits part
    → 3 < digits + 1
    → Hopeless (part ++ ch ∷ [])
part_too_long {part = part} ch r l =
    too_long (part ++ ch ∷ []) (omega (arith, length-append part (ch ∷ []), r.counted))

address_from-quads :
    (s : Bytes) (left octets n digits : ℕ) (part : Bytes)
    → Reads left octets n digits part
    → address_from octets n digits s ≡ quads left part s
unfolding address_from quads
address_from-quads [] left octets n digits part r =
    ground (arith, octet_digits part r.all_digits r.within, r.counted, r.valued, r.remaining)
address_from-quads (ch ∷ s) zero octets n digits part r = elim (byte_kind digits ch) [
  | dot e ↦ ground (arith, r.remaining)
  | other nd o ↦ ground (arith, quads-Hopeless s zero (part ++ ch ∷ []) (not_digit part ch o))
  | late lo hi l ↦ ground (arith, quads-Hopeless s zero (part ++ ch ∷ []) (part_too_long ch r l))
  | digit lo hi l ↦ ground (
    arith,
    address_from-quads s zero octets ((n * 10 + (ch - b'0')) % 2 ^ 32) (digits + 1)
        (part ++ ch ∷ []) (longer_part zero octets n digits ch part r lo hi l),
  )
]
address_from-quads (ch ∷ s) (suc left) octets n digits part r = elim (byte_kind digits ch) [
  | dot e ↦ ground (
    arith,
    octet_digits part r.all_digits r.within,
    r.counted,
    r.valued,
    r.remaining,
    address_from-quads s left (octets + 1) 0 0 []
        (empty_part left (octets + 1) (omega (arith, r.remaining))),
  )
  | other nd o ↦ ground (arith, quads-Hopeless s (suc left) (part ++ ch ∷ []) (not_digit part ch o))
  | late lo hi l ↦
      ground (arith, quads-Hopeless s (suc left) (part ++ ch ∷ []) (part_too_long ch r l))
  | digit lo hi l ↦ ground (
    arith,
    address_from-quads s (suc left) octets ((n * 10 + (ch - b'0')) % 2 ^ 32) (digits + 1)
        (part ++ ch ∷ []) (longer_part (suc left) octets n digits ch part r lo hi l),
  )
]

-- The two readers agree on every text.
pub is_valid_ipv4-is_ipv4_address : (text : Bytes) → is_valid_ipv4 text ≡ is_ipv4_address text
unfolding is_valid_ipv4 is_ipv4_address
is_valid_ipv4-is_ipv4_address text =
    valid_from-quads text 3 0 (omega arith)
    ∙ sym (address_from-quads text 3 0 0 0 [] (empty_part 3 0 refl))
