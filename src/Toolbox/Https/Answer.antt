-- ===== src/Toolbox/Https/Answer.antt =====
-- What `ParseGlobalIpResponse` of toolbox/src/https_scenario_parsing.cpp accepts.
use mathlib.Core.Path.{subst}
use mathlib.Core.Option
use nx_reverse.Base.{
  ℕ, suc, ◌+◌, ◌≤◌, ◌<◌, ◌≡◌, ◌⊎◌, inl, inr, refl, sym, ap, ◌∙◌, arith, true, not, ◌||◌, Option,
  none, some, [], ◌∷◌, ◌++◌, Bytes, codes, starts_with, find, take, drop, length, length-take, leb,
  ◌==◌, if◌then◌else◌, is_empty, Bool-cases, Option-cases,
}
use nx_reverse.Toolbox.Ipv4.{is_ipv4_address}
use nx_reverse.Toolbox.Ipv4.Quads.{IsQuad, find_split}
use nx_reverse.Toolbox.Ipv4.Agreement.{is_valid_ipv4_iff, is_valid_ipv4-is_ipv4_address}
use nx_reverse.Toolbox.Https.{
  HttpsDetail, no_header_end, not_status_200, find_text, found, check_ip, parse_body, is_status_200,
  parse_global_ip_response, json_prefix, headers_end, line_end,
}
use nx_reverse.Toolbox.Https.Sound.{starts_with_split}

find_text_nil :
    (needle : Bytes) (i : ℕ)
    → (if is_empty needle then some 0 else none) ≡ some i
    → [] ≡ take i [] ++ (needle ++ drop (i + length needle) [])
find_text_nil [] i h = let zero_i : 0 ≡ i = cc in rw (sym zero_i) refl
find_text_nil (n ∷ needle) i h = cc

map-suc : (o : Option ℕ) (i : ℕ) → Option.map suc o ≡ some i → (j : ℕ) × (o ≡ some j) × (suc j ≡ i)
map-suc none i h = cc
map-suc (some j) i h = (j, refl, cc)

find_text_split :
    (needle s : Bytes) (i : ℕ)
    → find_text needle s ≡ some i
    → s ≡ take i s ++ (needle ++ drop (i + length needle) s)
unfolding find_text
find_text_split needle [] i h = find_text_nil needle i h
find_text_split needle (x ∷ s) i h = elim (Bool-cases (starts_with (x ∷ s) needle)) [
  | inl here ↦
      let zero_i : 0 ≡ i = ground arith in
      subst (λ n. x ∷ s ≡ take n (x ∷ s) ++ (needle ++ drop (n + length needle) (x ∷ s))) zero_i
        (starts_with_split (x ∷ s) needle here
          ∙ ap (λ n. needle ++ drop n (x ∷ s)) {x = length needle} (omega arith))
  | inr there ↦
      let (j, e, next) = map-suc (find_text needle s) i (sym (rw there refl) ∙ h) in
      subst (λ n. x ∷ s ≡ take n (x ∷ s) ++ (needle ++ drop (n + length needle) (x ∷ s))) next
        (ap (◌∷◌ x) (find_text_split needle s j e)
          ∙ ap (λ n. (x ∷ take j s) ++ (needle ++ drop n (x ∷ s))) {x = suc (j + length needle)}
              (omega arith))
]

starts_with-append : (prefix b : Bytes) → starts_with (prefix ++ b) prefix ≡ true
unfolding starts_with
starts_with-append [] b = refl
starts_with-append (c ∷ prefix) b = ground (arith, starts_with-append prefix b)

-- No occurrence begins before the one that is found.
find_text_first :
    (needle s : Bytes) (n : ℕ) (a b : Bytes)
    → find_text needle s ≡ some n
    → s ≡ a ++ (needle ++ b)
    → n ≤ length a
unfolding find_text
find_text_first [] [] n a b h e = let first : 0 ≡ n = cc in omega (arith, first)
find_text_first (c ∷ needle) [] n a b h e = cc
find_text_first needle (x ∷ s) n [] b h e =
    let prefix : starts_with (x ∷ s) needle ≡ true =
      ap (λ t. starts_with t needle) e ∙ starts_with-append needle b in
    let first : 0 ≡ n = ground (arith, prefix, h) in omega (arith, first)
find_text_first needle (x ∷ s) n (y ∷ a) b h e = elim (Bool-cases (starts_with (x ∷ s) needle)) [
  | inl here ↦ let first : 0 ≡ n = ground arith in omega (arith, first)
  | inr there ↦
      let (j, found_at, next) = map-suc (find_text needle s) n (sym (rw there refl) ∙ h) in
      let tails : s ≡ a ++ (needle ++ b) = cc in
      omega (arith, next, find_text_first needle s j a b found_at tails)
]

-- A text around the first occurrence of another one.
pub record SplitsAt (needle text before behind : Bytes) : Type 0 where
  pub split : text ≡ before ++ (needle ++ behind)
  pub first : (a b : Bytes) → text ≡ a ++ (needle ++ b) → length before ≤ length a

find_text-SplitsAt :
    (needle text : Bytes) (n : ℕ)
    → find_text needle text ≡ some n
    → SplitsAt needle text (take n text) (drop (n + length needle) text)
find_text-SplitsAt needle text n h = record {
  split = find_text_split needle text n h;
  first = λ a b e. omega (arith, length-take n text, find_text_first needle text n a b h e);
}

-- A text that has another one in it.
abbrev pub Contains : Bytes → Bytes → Type 0
Contains needle text = (a : Bytes) × ((b : Bytes) × (text ≡ a ++ (needle ++ b)))

found-Contains : (needle text : Bytes) → found (find_text needle text) ≡ true → Contains needle text
found-Contains needle text h = elim (Option-cases (find_text needle text)) [
  | inl e ↦ absurd (ground (arith, e, h))
  | inr (n, e) ↦ (take n text, (drop (n + length needle) text, find_text_split needle text n e))
]

-- An answer that is accepted.
pub record IsAnswer (response ip : Bytes) : Type 0 where
  pub status : Bytes
  pub headers : Bytes
  pub rest : Bytes
  pub behind : Bytes
  pub first_line : SplitsAt line_end response status behind
  pub http : (version : Bytes) × (status ≡ codes "HTTP/1." ++ version)
  pub status_200 : Contains (codes " 200 ") status
  pub whole : SplitsAt headers_end response headers (json_prefix ++ (ip ++ b'"' ∷ rest))
  pub quad : IsQuad ip
  pub short : length ip < 16

check_ip_sound :
    (text : Bytes) (o : Option ℕ) (ip : Bytes)
    → find b'"' text ≡ o
    → check_ip text o ≡ inr ip
    → (rest : Bytes) × (text ≡ ip ++ b'"' ∷ rest) × (IsQuad ip) × (length ip < 16)
unfolding check_ip
check_ip_sound text none ip e h = cc
check_ip_sound text (some n) ip e h = elim (Bool-cases (n == 0 || leb 16 n)) [
  | inl bad ↦ absurd (ground arith)
  | inr good ↦ elim (Bool-cases (is_ipv4_address (take n text))) [
    | inl quad ↦
        let same : take n text ≡ ip = ground arith in
        let is_quad : IsQuad (take n text) =
          (is_valid_ipv4_iff (take n text)).0
            (is_valid_ipv4-is_ipv4_address (take n text) ∙ quad) in
        (
          drop (suc n) text,
          find_split text b'"' n e ∙ ap (λ a. a ++ b'"' ∷ drop (suc n) text) same,
          subst IsQuad same is_quad,
          subst (λ a. length a < 16) same (ground (arith, length-take n text)),
        )
    | inr other ↦ absurd (ground arith)
  ]
]

-- An answer that is accepted has a first line, up to its first line end, that begins with `HTTP/1.`
-- and contains ` 200 `; what follows its first empty line begins with `{"global_ip":"`, and the
-- address that is returned is the dotted quad, shorter than 16 bytes, between that and the next
-- quotation mark.
pub parse_global_ip_response_sound :
    (response ip : Bytes) → parse_global_ip_response response ≡ inr ip → IsAnswer response ip
unfolding parse_global_ip_response is_status_200 parse_body
parse_global_ip_response_sound response ip h = status _ refl h
  where
    answer :
        (n m : ℕ)
        → find_text line_end response ≡ some n
        → is_status_200 response (some n) ≡ true
        → find_text headers_end response ≡ some m
        → parse_body (drop (m + 4) response) ≡ inr ip
        → IsAnswer response ip
    answer n m at_line ok at_headers k =
        elim (Bool-cases (starts_with (drop (m + 4) response) json_prefix)) [
          | inl prefix ↦
              let text = drop (length json_prefix) (drop (m + 4) response) in
              let (rest, split, is_quad, is_short) =
                check_ip_sound text (find b'"' text) ip refl (sym (rw prefix refl) ∙ k) in
              record {
                status = take n response;
                headers = take m response;
                rest = rest;
                behind = drop (n + 2) response;
                first_line = find_text-SplitsAt line_end response n at_line;
                http = (
                  drop 7 (take n response),
                  starts_with_split (take n response) (codes "HTTP/1.") (ground arith),
                );
                status_200 = found-Contains (codes " 200 ") (take n response) (ground arith);
                whole =
                    subst (SplitsAt headers_end response (take m response))
                      (starts_with_split (drop (m + 4) response) json_prefix prefix
                        ∙ ap (λ t. json_prefix ++ t) split)
                      (find_text-SplitsAt headers_end response m at_headers);
                quad = is_quad;
                short = is_short;
              }
          | inr other ↦ absurd (ground arith)
        ]

    headers :
        (n : ℕ) (o : Option ℕ)
        → find_text line_end response ≡ some n
        → is_status_200 response (some n) ≡ true
        → find_text headers_end response ≡ o
        → ◌≡◌ {A = HttpsDetail ⊎ Bytes}
            (elim o [ none ↦ inl no_header_end | some m ↦ parse_body (drop (m + 4) response) ])
            (inr ip)
        → IsAnswer response ip
    headers n none at_line ok e k = cc
    headers n (some m) at_line ok e k = answer n m at_line ok e k

    status :
        (o : Option ℕ)
        → find_text line_end response ≡ o
        → ◌≡◌ {A = HttpsDetail ⊎ Bytes}
            (if not (is_status_200 response o)
              then inl not_status_200
              else elim (find_text headers_end response) [
                | none ↦ inl no_header_end
                | some m ↦ parse_body (drop (m + 4) response)
              ])
            (inr ip)
        → IsAnswer response ip
    status none e k = cc
    status (some n) e k = elim (Bool-cases (is_status_200 response (some n))) [
      | inl ok ↦ headers n _ e ok refl (sym (rw ok refl) ∙ k)
      | inr bad ↦ absurd (ground (arith, bad, k))
    ]
