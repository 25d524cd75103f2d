-- ===== src/Toolbox/Https.antt =====
-- The readers of toolbox/src/https_scenario_parsing.cpp: the URI of the target, and the answer that
-- carries the global address.
pub mod Sound
pub mod Answer
use nx_reverse.Base.{
  ℕ, suc, ◌+◌, ◌-◌, ◌≤◌, Bool, true, false, not, ◌&&◌, ◌||◌, Option, none, some, List, [], ◌∷◌,
  ◌++◌, ◌⊎◌, inl, inr, Bytes, codes, starts_with, find, find_from, take, drop, length, ltb, leb,
  ◌==◌, if◌then◌else◌, is_empty,
}
use mathlib.Core.Option
use nx_reverse.Toolbox.Ipv4.{parse_unsigned, u32_max, is_ipv4_address}

pub record HttpsTarget : Type 0 where
  pub host : Bytes
  pub port : ℕ
  pub path : Bytes

-- The texts that `detail` is set to.
pub data HttpsDetail : Type 0 where
  not_https invalid_authority invalid_port empty_host : HttpsDetail
  not_status_200 no_header_end no_global_ip invalid_global_ip not_ipv4 : HttpsDetail

-- `text.rfind(c)`, with `none` for `npos`
unfoldable pub rfind : ℕ → Bytes → Option ℕ
rfind c [] = none
rfind c (x ∷ xs) = elim (rfind c xs) [
  | some i ↦ some (suc i)
  | none ↦ if x == c then some 0 else none
]

-- `authority.find_first_of("@?#") != npos`
unfoldable pub has_reserved : Bytes → Bool
has_reserved [] = false
has_reserved (x ∷ xs) = (x == b'@' || x == b'?' || x == b'#') || has_reserved xs

-- `substr(0, n)` and `substr(n)`, where `npos` takes the whole text.
abbrev pub before : Option ℕ → Bytes → Bytes
before none text = text
before (some i) text = take i text

-- The host and the port of an authority, split at the last colon.
unfoldable pub parse_port : Bytes → Option ℕ → Option (Bytes × ℕ)
parse_port host none = none
parse_port host (some port) =
    if is_empty host || port == 0 || ltb 65535 port then none else some (host, port)

unfoldable pub split_authority : Bytes → Option ℕ → HttpsDetail ⊎ (Bytes × ℕ)
split_authority authority none = inr (authority, 443)
split_authority authority (some colon) =
    elim (parse_port (take colon authority) (parse_unsigned u32_max (drop (colon + 1) authority))) [
      | none ↦ inl invalid_port
      | some target ↦ inr target
    ]

-- `path_begin == npos ? "/" : uri.substr(path_begin)`, from the text behind the scheme.
abbrev pub path_of : Option ℕ → Bytes → Bytes
path_of none text = codes "/"
path_of (some i) text = drop i text

-- The end of `ParseHttpsUri`.
unfoldable pub finish_target : Bytes → HttpsDetail ⊎ (Bytes × ℕ) → HttpsDetail ⊎ HttpsTarget
finish_target path (inl detail) = inl detail
finish_target path (inr (host, port)) =
    if is_empty host then inl empty_host else inr (record { host = host; port = port; path = path })

-- What follows the scheme.
unfoldable pub parse_rest : Bytes → HttpsDetail ⊎ HttpsTarget
parse_rest rest =
    let slash = find b'/' rest in
    let authority = before slash rest in
    if is_empty authority || has_reserved authority
    then inl invalid_authority
    else finish_target (path_of slash rest) (split_authority authority (rfind b':' authority))

-- `ParseHttpsUri`: `inl` is the result `false`, with `detail`.
unfoldable pub parse_https_uri : Bytes → HttpsDetail ⊎ HttpsTarget
parse_https_uri uri =
    if not (starts_with uri (codes "https://")) then inl not_https else parse_rest (drop 8 uri)

-- `text.find(needle)`, with `none` for `npos`
unfoldable pub find_text : Bytes → Bytes → Option ℕ
find_text needle [] = if is_empty needle then some 0 else none
find_text needle (x ∷ xs) =
    let later = Option.map suc (find_text needle xs) in
    if starts_with (x ∷ xs) needle then some 0 else later

abbrev pub line_end : Bytes
line_end = b'\r' ∷ b'\n' ∷ []

abbrev pub headers_end : Bytes
headers_end = b'\r' ∷ b'\n' ∷ b'\r' ∷ b'\n' ∷ []

-- `{"global_ip":"`
abbrev pub json_prefix : Bytes
json_prefix = codes "{\"global_ip\":\""

abbrev pub found : Option ℕ → Bool
found none = false
found (some i) = true

-- The text between the prefix and the next quotation mark.
unfoldable pub check_ip : Bytes → Option ℕ → HttpsDetail ⊎ Bytes
check_ip text none = inl invalid_global_ip
check_ip text (some n) =
    if n == 0 || leb 16 n
    then inl invalid_global_ip
    else if not (is_ipv4_address (take n text))
    then inl not_ipv4
    else inr (take n text)

unfoldable pub parse_body : Bytes → HttpsDetail ⊎ Bytes
parse_body body =
    if not (starts_with body json_prefix)
    then inl no_global_ip
    else check_ip (drop (length json_prefix) body) (find b'"' (drop (length json_prefix) body))

unfoldable pub is_status_200 : Bytes → Option ℕ → Bool
is_status_200 response none = false
is_status_200 response (some n) =
    starts_with (take n response) (codes "HTTP/1.")
    && found (find_text (codes " 200 ") (take n response))

-- `ParseGlobalIpResponse`: `inl` is the result `false`, with `detail`.
unfoldable pub parse_global_ip_response : Bytes → HttpsDetail ⊎ Bytes
parse_global_ip_response response =
    if not (is_status_200 response (find_text line_end response))
    then inl not_status_200
    else elim (find_text headers_end response) [
      | none ↦ inl no_header_end
      | some n ↦ parse_body (drop (n + 4) response)
    ]
