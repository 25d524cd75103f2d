-- ===== src/Toolbox/Config/Parse.antt =====
-- The readers of keys and values in toolbox/src/runtime_config.cpp.
use mathlib.Core.Option
use nx_reverse.Base.{
  ℕ, ◌+◌, Bool, true, false, not, ◌||◌, Option, none, some, [], ◌∷◌, Bytes, codes, equal, find,
  starts_with, take, drop, ◌==◌, if◌then◌else◌, is_empty, ◌&&◌,
}
use nx_reverse.Toolbox.Ipv4.{parse_unsigned, size_max}

abbrev pub is_blank : ℕ → Bool
is_blank c = c == b' ' || c == b'\t' || c == b'\r' || c == b'\n'

-- The text from its first byte outside `" \t\r\n"` on.
unfoldable pub drop_blanks : Bytes → Bytes
drop_blanks [] = []
drop_blanks (c ∷ s) = if is_blank c then drop_blanks s else c ∷ s

-- The text up to its last byte outside `" \t\r\n"`.
unfoldable pub drop_last_blanks : Bytes → Bytes
drop_last_blanks [] = []
drop_last_blanks (c ∷ s) =
    let kept = drop_last_blanks s in if is_blank c && is_empty kept then [] else c ∷ kept

-- `Trim`
unfoldable pub trim : Bytes → Bytes
trim text = drop_last_blanks (drop_blanks text)

-- `ParseBool`
unfoldable pub parse_bool : Bytes → Option Bool
unfolding equal
parse_bool text =
    if equal text (codes "true") || equal text (codes "1")
    then some true
    else if equal text (codes "false") || equal text (codes "0")
    then some false
    else none

-- `ParseProfileKey` behind its prefix, from the separator that was found.
unfoldable pub profile_key_at : Bytes → Option ℕ → Option (ℕ × Bytes)
profile_key_at remainder none = none
profile_key_at remainder (some separator) =
    Option.map (λ index. (index, drop (separator + 1) remainder))
      (parse_unsigned size_max (take separator remainder))

-- `ParseProfileKey`
unfoldable pub parse_profile_key : Bytes → Option (ℕ × Bytes)
unfolding profile_key_at starts_with find
parse_profile_key key =
    let remainder = drop 8 key in
    if not (starts_with key (codes "profile."))
    then none
    else profile_key_at remainder (find b'.' remainder)
