-- ===== src/Toolbox/Ipv4.antt =====
-- The two readers of dotted IPv4 text: `IsValidIpv4` with `ParseUnsigned` of
-- toolbox/src/runtime_config.cpp, and `IsIpv4Address` of toolbox/src/https_scenario_parsing.cpp.
pub mod Unsigned
pub mod Quads
pub mod Agreement
use nx_reverse.Base.{
  ℕ, zero, suc, ◌+◌, ◌-◌, ◌*◌, ◌%◌, ◌^◌, Bool, true, false, not, ◌&&◌, ◌||◌, Option, none, some,
  List, [], ◌∷◌, Bytes, length, leb, ltb, ◌==◌, if◌then◌else◌, is_digit, from_chars, find_from,
  substr, is_some,
}

-- The largest values of the unsigned types that are read.
abbrev pub u16_max : ℕ
u16_max = 65535

abbrev pub u32_max : ℕ
u32_max = 4294967295

abbrev pub size_max : ℕ
size_max = 18446744073709551615

-- The number read, if it takes up the whole text.
whole : Option (ℕ × Bytes) → Option ℕ
whole none = none
whole (some (n, [])) = some n
whole (some (n, c ∷ rest)) = none

-- `ParseUnsigned<T>`, `limit` being the largest value of T.
unfoldable pub parse_unsigned : ℕ → Bytes → Option ℕ
unfolding whole
parse_unsigned limit text = whole (from_chars limit text)

-- `ParseUnsigned(…, &octet) && octet <= 255`
octet_fits : Option ℕ → Bool
octet_fits none = false
octet_fits (some n) = leb n 255

-- One round of the loop from the bounds that it found: the component from `offset` to `end`.
component_ok : Bytes → ℕ → ℕ → Bool
unfolding octet_fits
component_ok text offset end =
    not (end == offset || ltb 3 (end - offset))
    && octet_fits (parse_unsigned u32_max (substr text offset (end - offset)))

-- The loop of `IsValidIpv4`; the first argument is the number of components behind this one, so
-- that zero is `final_component`.
valid_from : Bytes → ℕ → ℕ → Bool
unfolding component_ok
valid_from text zero offset = elim (find_from b'.' text offset) [
  | some separator ↦ false
  | none ↦
      let next_offset = length text + 1 in
      component_ok text offset (length text) && next_offset == length text + 1
]
valid_from text (suc left) offset = elim (find_from b'.' text offset) [
  | none ↦ false
  | some separator ↦
      let rest = valid_from text left (separator + 1) in component_ok text offset separator && rest
]

-- `IsValidIpv4`
unfoldable pub is_valid_ipv4 : Bytes → Bool
unfolding valid_from
is_valid_ipv4 text = valid_from text 3 0

-- The loop of `IsIpv4Address` over its three counters.
address_from : ℕ → ℕ → ℕ → Bytes → Bool
address_from octets value digits [] = octets == 3 && ltb 0 digits && leb value 255
address_from octets value digits (ch ∷ rest) =
    let next = address_from (octets + 1) 0 0 rest in
    let more = address_from octets ((value * 10 + (ch - b'0')) % 2 ^ 32) (digits + 1) rest in
    if ch == b'.'
    then (if digits == 0 || ltb 255 value || octets == 3 then false else next)
    else if ltb ch b'0' || ltb b'9' ch
    then false
    else if ltb 3 (digits + 1)
    then false
    else more

-- `IsIpv4Address`
unfoldable pub is_ipv4_address : Bytes → Bool
unfolding address_from
is_ipv4_address = address_from 0 0 0
