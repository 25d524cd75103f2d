-- ===== src/Toolbox/Config/Save/Words.antt =====
-- The keys and values that toolbox/src/runtime_config.cpp saves are words that its reader keeps whole.
use nx_reverse.Base.{
  ℕ, ◌+◌, ◌≤◌, ◌≡◌, ◌≢◌, refl, ap, arith, Bool, true, false, [], ◌∷◌, ◌++◌, Bytes, length,
  length-append, All, IsDigit, ◌&&◌, not, ◌==◌,
}
use nx_reverse.Base.Decimal.{decimal, decimal-IsDigit, length-decimal}
use nx_reverse.Toolbox.Ipv4.{size_max}
use nx_reverse.Toolbox.Ipv4.Quads.{IsOctet, IsQuad, quad}
use nx_reverse.Toolbox.Config.Parse.{drop_last_blanks, is_blank}
use nx_reverse.Toolbox.Config.Save.{profile_key}
use nx_reverse.Toolbox.Config.Save.Lines.{IsText, IsClean, StartsSolid, IsUnmarked, IsSetting}

-- A byte that is no end of a line, no blank, no `=` and no `#`.
abbrev is_word_byte : ℕ → Bool
is_word_byte c = not (c == 0) && not (is_blank c) && not (c == b'=') && not (c == b'#')

abbrev pub is_word : Bytes → Bool
is_word [] = true
is_word (c ∷ word) = is_word_byte c && is_word word

-- A word of at most so many bytes.
pub record IsWord (most : ℕ) (word : Bytes) : Type 0 where
  pub whole : is_word word ≡ true
  pub present : word ≢ []
  pub short : length word ≤ most

drop_last_blanks-word : (word : Bytes) → is_word word ≡ true → drop_last_blanks word ≡ word
unfolding drop_last_blanks
drop_last_blanks-word [] h = refl
drop_last_blanks-word (c ∷ word) h =
    let solid : is_blank c ≡ false = ground arith in
    rw (drop_last_blanks-word word (ground arith), solid) refl

word-IsClean : (word : Bytes) → is_word word ≡ true → All IsClean word
word-IsClean [] h = tt
word-IsClean (c ∷ word) h = ((ground arith, ground arith), word-IsClean word (ground arith))

word_no_separator : (word : Bytes) → is_word word ≡ true → All (λ c. c ≢ b'=') word
word_no_separator [] h = tt
word_no_separator (c ∷ word) h = (ground arith, word_no_separator word (ground arith))

word-StartsSolid : (word : Bytes) → is_word word ≡ true → word ≢ [] → StartsSolid word
word-StartsSolid [] h some_byte = absurd (some_byte refl)
word-StartsSolid (c ∷ word) h some_byte = ground arith

word-IsUnmarked : (word : Bytes) → is_word word ≡ true → IsUnmarked word
word-IsUnmarked [] h = tt
word-IsUnmarked (c ∷ word) h = ground arith

pub IsWord-IsText : (most : ℕ) (word : Bytes) → IsWord most word → IsText word
IsWord-IsText most word h = record {
  clean = word-IsClean word h.whole;
  front = word-StartsSolid word h.whole h.present;
  back = drop_last_blanks-word word h.whole;
}

-- A word for a key, and a text of at most 200 bytes for its value.
pub word-IsSetting :
    (key value : Bytes)
    → IsWord 200 key
    → IsText value
    → length value ≤ 200
    → IsSetting (key, value)
word-IsSetting key value h v short = record {
  key = IsWord-IsText 200 key h;
  unmarked = word-IsUnmarked key h.whole;
  no_separator = word_no_separator key h.whole;
  value = v;
  short = omega (arith, h.short);
}

is_word-append :
    (word other : Bytes)
    → is_word word ≡ true
    → is_word other ≡ true
    → is_word (word ++ other) ≡ true
is_word-append [] other h k = k
is_word-append (c ∷ word) other h k = ground (arith, is_word-append word other)

is_word_digits : (digits : Bytes) → All IsDigit digits → is_word digits ≡ true
is_word_digits [] h = refl
is_word_digits (c ∷ digits) (d, h) = ground (arith, is_word_digits digits h)

pub decimal-IsWord : (n : ℕ) → n ≤ size_max → IsWord 20 (decimal n)
decimal-IsWord n h =
    let (present, short) = length-decimal n (omega (arith, h)) in
    record {
      whole = is_word_digits (decimal n) (decimal-IsDigit n);
      present = λ e. omega (arith, present, ap (length {A = ℕ}) e);
      short = short;
    }

IsOctet-IsWord : (text : Bytes) → IsOctet text → is_word text ≡ true
IsOctet-IsWord text h = is_word_digits text h.digits

-- An address is a word of at most 15 bytes.
pub IsQuad-IsWord : (text : Bytes) → IsQuad text → IsWord 15 text
IsQuad-IsWord text (quad {a} {b} {c} {d} ha hb hc hd e) =
    let last : is_word (b'.' ∷ d) ≡ true = IsOctet-IsWord d hd in
    let third : is_word (b'.' ∷ c ++ (b'.' ∷ d)) ≡ true =
      is_word-append c (b'.' ∷ d) (IsOctet-IsWord c hc) last in
    let second : is_word (b'.' ∷ b ++ (b'.' ∷ c ++ (b'.' ∷ d))) ≡ true =
      is_word-append b (b'.' ∷ c ++ (b'.' ∷ d)) (IsOctet-IsWord b hb) third in
    let size : length (a ++ (b'.' ∷ b ++ (b'.' ∷ c ++ (b'.' ∷ d))))
        ≡ length a + (length b + (length c + length d)) + 3 =
      omega (
        arith,
        length-append a (b'.' ∷ b ++ (b'.' ∷ c ++ (b'.' ∷ d))),
        length-append b (b'.' ∷ c ++ (b'.' ∷ d)),
        length-append c (b'.' ∷ d),
      ) in
    let same = ap (length {A = ℕ}) e in
    record {
      whole =
          rw e
            (is_word-append a (b'.' ∷ b ++ (b'.' ∷ c ++ (b'.' ∷ d))) (IsOctet-IsWord a ha) second);
      present = λ nil. omega (arith, same, size, ap (length {A = ℕ}) nil);
      short = omega (arith, same, size, ha.short, hb.short, hc.short, hd.short);
    }

-- The key of a field of a profile.
pub profile_key-IsWord :
    (i : ℕ) (field : Bytes) → i ≤ size_max → IsWord 100 field → IsWord 200 (profile_key i field)
profile_key-IsWord i field few h =
    let d = decimal-IsWord i few in
    record {
      whole = is_word-append (decimal i) (b'.' ∷ field) d.whole h.whole;
      present = λ e. cc;
      short = omega (arith, d.short, h.short, length-append (decimal i) (b'.' ∷ field));
    }
