-- ===== src/Toolbox/Ipv4/Quads.antt =====
-- Dotted quads, described by their four parts, and a one-pass description of them which the two
-- readers of the sources are compared with.
use nx_reverse.Base.{
  ℕ, zero, suc, find, take, drop, ◌≤◌, ◌<◌, ◌≡◌, ◌↔◌, refl, ap, sym, Bool, true, false, not, ◌&&◌,
  ◌||◌, none, some, Option, [], ◌∷◌, ◌++◌, append_assoc, append-nil, arith, Bytes, length, value,
  All, IsDigit, ltb, ◌==◌, if◌then◌else◌, Option-cases, &&_iff, ◌∙◌, inl, inr,
}
use nx_reverse.Toolbox.Ipv4.{parse_unsigned, u32_max, octet_fits}
use nx_reverse.Toolbox.Ipv4.Unsigned.{parse_unsigned_sound, parse_unsigned_complete}

-- One to three digits that spell at most 255.
pub record IsOctet (s : Bytes) : Type 0 where
  pub present : 0 < length s
  pub short : length s ≤ 3
  pub digits : All IsDigit s
  pub small : value 0 s ≤ 255

-- Four octets with dots between them.
pub data IsQuad (text : Bytes) : Type 0 where
  quad :
      {a b c d : Bytes}
      → IsOctet a
      → IsOctet b
      → IsOctet c
      → IsOctet d
      → text ≡ a ++ (b'.' ∷ b ++ (b'.' ∷ c ++ (b'.' ∷ d)))
      → IsQuad text

-- The test of one component.
unfoldable pub octet : Bytes → Bool
unfolding octet_fits
octet s = not (length s == 0 || ltb 3 (length s)) && octet_fits (parse_unsigned u32_max s)

-- `left` dots are still to come behind the component read so far.
unfoldable pub quads : ℕ → Bytes → Bytes → Bool
quads left part [] = left == 0 && octet part
quads zero part (c ∷ s) =
    let rest = quads zero (part ++ c ∷ []) s in if c == b'.' then false else rest
quads (suc left) part (c ∷ s) =
    let next = quads left [] s in
    let rest = quads (suc left) (part ++ c ∷ []) s in if c == b'.' then octet part && next else rest

pub octet_sound : (s : Bytes) → octet s ≡ true → IsOctet s
unfolding octet octet_fits
octet_sound s h = elim (Option-cases (parse_unsigned u32_max s)) [
  | inl e ↦ absurd (ground arith)
  | inr (n, e) ↦
      let (_, digits, exact, _) = parse_unsigned_sound u32_max s e in
      record { present = ground arith; short = ground arith; digits = digits; small = ground arith }
]

pub octet_complete : (s : Bytes) → IsOctet s → octet s ≡ true
unfolding octet octet_fits
octet_complete [] h = absurd (omega arith)
octet_complete (c ∷ s) h =
    ground (arith, parse_unsigned_complete u32_max (c ∷ s) (cc) h.digits (omega arith))

-- No octet begins with `part`.
abbrev pub Hopeless : Bytes → Type 0
Hopeless part = (t : Bytes) → octet (part ++ t) ≡ false

pub quads-Hopeless :
    (s : Bytes) (left : ℕ) (part : Bytes) → Hopeless part → quads left part s ≡ false
unfolding quads
quads-Hopeless [] left part h = ground (arith, h [], append-nil part)
quads-Hopeless (c ∷ s) zero part h =
    ground (arith, quads-Hopeless s zero (part ++ c ∷ []) (λ t. rw append_assoc (h (c ∷ t))))
quads-Hopeless (c ∷ s) (suc left) part h = ground (
  arith,
  h [],
  append-nil part,
  quads-Hopeless s (suc left) (part ++ c ∷ []) (λ t. rw append_assoc (h (c ∷ t))),
)

-- The text splits at its first dot.
abbrev pub last_part : Bytes → Bytes → Option ℕ → Bool
last_part part s none = octet (part ++ s)
last_part part s (some i) = false

abbrev pub inner_part : ℕ → Bytes → Bytes → Option ℕ → Bool
inner_part left part s none = false
inner_part left part s (some i) = octet (part ++ take i s) && quads left [] (drop (suc i) s)

pub quads-find : (s part : Bytes) → quads zero part s ≡ last_part part s (find b'.' s)
unfolding quads find
quads-find [] part = ground (arith, append-nil part)
quads-find (c ∷ s) part =
    ground (arith, quads-find s (part ++ c ∷ []), append_assoc part (c ∷ []) s)

pub quads-find-suc :
    (s : Bytes) (left : ℕ) (part : Bytes)
    → quads (suc left) part s ≡ inner_part left part s (find b'.' s)
unfolding quads find
quads-find-suc [] left part = ground arith
quads-find-suc (c ∷ s) left part = elim (Option-cases (find b'.' s)) [
  | inl e ↦ ground (arith, quads-find-suc s left (part ++ c ∷ []), append-nil part)
  | inr (i, e) ↦ ground (
    arith,
    quads-find-suc s left (part ++ c ∷ []),
    append-nil part,
    append_assoc part (c ∷ []) (take i s),
  )
]

quads-part :
    (a : Bytes) (left : ℕ) (part s : Bytes)
    → All IsDigit a
    → quads left part (a ++ s) ≡ quads left (part ++ a) s
unfolding quads
quads-part [] left part s _ = rw append-nil
quads-part (c ∷ a) zero part s (hc, ha) =
    ground (arith, quads-part a zero (part ++ c ∷ []) s ha, append_assoc part (c ∷ []) a)
quads-part (c ∷ a) (suc left) part s (hc, ha) =
    ground (arith, quads-part a (suc left) (part ++ c ∷ []) s ha, append_assoc part (c ∷ []) a)

quads_dot :
    (left : ℕ) (part s : Bytes) → quads (suc left) part (b'.' ∷ s) ≡ (octet part && quads left [] s)
unfolding quads
quads_dot left part s = refl

quads_octet :
    {a : Bytes} (left : ℕ) (s : Bytes)
    → IsOctet a
    → quads (suc left) [] (a ++ (b'.' ∷ s)) ≡ quads left [] s
quads_octet {a} left s h =
    quads-part a (suc left) [] _ h.digits
    ∙ quads_dot left a s
    ∙ ap (λ b. b && quads left [] s) (octet_complete a h)

quads_last : {a : Bytes} → IsOctet a → quads zero [] a ≡ true
quads_last {a} h =
    ap (quads zero []) (sym (append-nil a))
    ∙ quads-part a zero [] [] h.digits
    ∙ (unfold quads in octet_complete a h)

pub find_split : (s : Bytes) (c i : ℕ) → find c s ≡ some i → s ≡ take i s ++ (c ∷ drop (suc i) s)
unfolding find
find_split [] c i h = cc
find_split (x ∷ s) c i h = elim (Option-cases (find c s)) [
  | inl e ↦ ground arith
  | inr (j, e) ↦ ground (arith, find_split s c j e)
]

quads_first :
    (s : Bytes) (left : ℕ)
    → quads (suc left) [] s ≡ true
    → (a b : Bytes) × (s ≡ a ++ (b'.' ∷ b)) × (IsOctet a) × (quads left [] b ≡ true)
quads_first s left h = elim (Option-cases (find b'.' s)) [
  | inl e ↦ cc (quads-find-suc s left [], ap (inner_part left [] s) e)
  | inr (i, e) ↦
      let split = quads-find-suc s left [] ∙ ap (inner_part left [] s) e in
      let both = (&&_iff _ _).0 (sym split ∙ h) in
      (take i s, drop (suc i) s, find_split s b'.' i e, octet_sound _ both.0, both.1)
]

quads_only : (s : Bytes) → quads zero [] s ≡ true → IsOctet s
quads_only s h = elim (Option-cases (find b'.' s)) [
  | inl e ↦ octet_sound s (sym (quads-find s [] ∙ ap (last_part [] s) e) ∙ h)
  | inr (i, e) ↦ cc (quads-find s [], ap (last_part [] s) e)
]

-- The one pass finds exactly the dotted quads.
pub quads_iff : (text : Bytes) → (quads 3 [] text ≡ true) ↔ IsQuad text
quads_iff text = (sound, complete)
  where
    sound : quads 3 [] text ≡ true → IsQuad text
    sound h =
        let (a, r, ea, oa, ha) = quads_first text 2 h in
        let (b, s, eb, ob, hb) = quads_first r 1 ha in
        let (c, d, ec, oc, hc) = quads_first s 0 hb in quad oa ob oc (quads_only d hc) cc

    complete : IsQuad text → quads 3 [] text ≡ true
    complete (quad oa ob oc od e) =
        ap (quads 3 []) e
        ∙ quads_octet 2 _ oa
        ∙ quads_octet 1 _ ob
        ∙ quads_octet 0 _ oc
        ∙ quads_last od
