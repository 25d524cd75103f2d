-- ===== src/Toolbox/Https/Sound.antt =====
-- What the readers of toolbox/src/https_scenario_parsing.cpp accept.
use mathlib.Core.Path.{subst}
use nx_reverse.Base.{
  ℕ, zero, suc, ◌+◌, ◌≤◌, ◌≡◌, ◌≢◌, ◌⊎◌, inl, inr, refl, sym, ap, ◌∙◌, arith, true, false, ◌||◌,
  Option, none, some, [], ◌∷◌, ◌++◌, Bytes, codes, starts_with, find, take, drop, length,
  take-append-drop, ltb, ◌==◌, if◌then◌else◌, is_empty, All, Bool-cases, Option-cases, append-nil,
  value, IsDigit,
}
use nx_reverse.Toolbox.Ipv4.{parse_unsigned, u32_max}
use nx_reverse.Toolbox.Ipv4.Unsigned.{parse_unsigned_sound}
use nx_reverse.Toolbox.Https.{
  HttpsTarget, HttpsDetail, invalid_authority, invalid_port, rfind, has_reserved, before,
  parse_port, split_authority, path_of, finish_target, parse_rest, parse_https_uri,
}

pub starts_with_split :
    (text prefix : Bytes)
    → starts_with text prefix ≡ true
    → text ≡ prefix ++ drop (length prefix) text
unfolding starts_with
starts_with_split text [] h = refl
starts_with_split [] (p ∷ ps) h = cc
starts_with_split (c ∷ text) (p ∷ ps) h = ground (arith, starts_with_split text ps)

rfind_split : (s : Bytes) (c i : ℕ) → rfind c s ≡ some i → s ≡ take i s ++ c ∷ drop (suc i) s
unfolding rfind
rfind_split [] c i h = cc
rfind_split (x ∷ s) c i h = elim (Option-cases (rfind c s)) [
  | inl e ↦ ground arith
  | inr (j, e) ↦ ground (arith, rfind_split s c j e)
]

rfind_absent : (s : Bytes) (c : ℕ) → rfind c s ≡ none → All (λ x. x ≢ c) s
unfolding rfind
rfind_absent [] c h = tt
rfind_absent (x ∷ s) c h = elim (Option-cases (rfind c s)) [
  | inl e ↦ (ground arith, rfind_absent s c e)
  | inr (j, e) ↦ ground arith
]

find_absent : (s : Bytes) (c : ℕ) → find c s ≡ none → All (λ x. x ≢ c) s
unfolding find
find_absent [] c h = tt
find_absent (x ∷ s) c h = elim (Option-cases (find c s)) [
  | inl e ↦ (ground arith, find_absent s c e)
  | inr (j, e) ↦ ground arith
]

find_absent_before : (s : Bytes) (c i : ℕ) → find c s ≡ some i → All (λ x. x ≢ c) (take i s)
unfolding find
find_absent_before [] c i h = cc
find_absent_before (x ∷ s) c zero h = tt
find_absent_before (x ∷ s) c (suc i) h = elim (Option-cases (find c s)) [
  | inl e ↦ ground arith
  | inr (j, e) ↦
      let same : j ≡ i = ground arith in (ground arith, find_absent_before s c i (e ∙ ap some same))
]

has_reserved_absent :
    (s : Bytes) → has_reserved s ≡ false → All (λ x. (x ≢ b'@') × (x ≢ b'?') × (x ≢ b'#')) s
unfolding has_reserved
has_reserved_absent [] h = tt
has_reserved_absent (x ∷ s) h =
    ((ground arith, ground arith, ground arith), has_reserved_absent s (ground arith))

-- The host and the port of an authority, which are told apart by its last colon: there is none, or
-- only digits follow it.
pub data IsAuthority : Bytes → Bytes → ℕ → Type 0 where
  default_port : (host : Bytes) → All (λ x. x ≢ b':') host → IsAuthority host host 443
  given_port :
      (host digits : Bytes) (port : ℕ)
      → digits ≢ []
      → All IsDigit digits
      → port ≡ value 0 digits
      → port ≢ 0
      → port ≤ 65535
      → IsAuthority (host ++ b':' ∷ digits) host port

-- The path of a target, from what follows the authority.
pub data IsPath : Bytes → Bytes → Type 0 where
  no_path : IsPath [] (codes "/")
  given_path : (rest : Bytes) → IsPath (b'/' ∷ rest) (b'/' ∷ rest)

pub record IsHttps (uri : Bytes) (t : HttpsTarget) : Type 0 where
  pub authority : Bytes
  pub rest : Bytes
  pub whole : uri ≡ codes "https://" ++ authority ++ rest
  pub no_slash : All (λ x. x ≢ b'/') authority
  pub no_reserved : All (λ x. (x ≢ b'@') × (x ≢ b'?') × (x ≢ b'#')) authority
  pub some_host : t.host ≢ []
  pub host_port : IsAuthority authority t.host t.port
  pub path_part : IsPath rest t.path

some_parts :
    {A B : Type 0} (a a' : A) (b b' : B)
    → ◌≡◌ {A = Option (A × B)} (some (a, b)) (some (a', b'))
    → (a ≡ a') × (b ≡ b')
some_parts a a' b b' h = (cc, cc)

parse_port_sound :
    (host : Bytes) (o : Option ℕ) (host' : Bytes) (port : ℕ)
    → parse_port host o ≡ some (host', port)
    → (host ≡ host') × (o ≡ some port) × (port ≢ 0) × (port ≤ 65535)
unfolding parse_port
parse_port_sound host none host' port h = cc
parse_port_sound host (some n) host' port h =
    elim (Bool-cases (is_empty host || n == 0 || ltb 65535 n)) [
      | inl bad ↦ absurd (ground arith)
      | inr good ↦
          let (same_host, same_port) = some_parts host host' n port (sym (rw good refl) ∙ h) in
          (same_host, ap some same_port, ground arith, ground arith)
    ]

split_authority_sound :
    (authority : Bytes) (o : Option ℕ) (host : Bytes) (port : ℕ)
    → rfind b':' authority ≡ o
    → split_authority authority o ≡ inr (host, port)
    → IsAuthority authority host port
unfolding split_authority
split_authority_sound authority none host port e h =
    let same_host : authority ≡ host = cc in
    let same_port : 443 ≡ port = cc in
    subst (λ p. IsAuthority authority p.0 p.1) (pair_path same_host same_port)
      (default_port authority (rfind_absent authority b':' e))
  where
    pair_path : {a b : Bytes} → {m n : ℕ} → a ≡ b → m ≡ n → ◌≡◌ {A = Bytes × ℕ} (a, m) (b, n)
    pair_path p q = cc
split_authority_sound authority (some colon) host port e h = given _ refl h
  where
    given :
        (o : Option (Bytes × ℕ))
        → parse_port (take colon authority) (parse_unsigned u32_max (drop (colon + 1) authority))
          ≡ o
        → ◌≡◌ {A = HttpsDetail ⊎ (Bytes × ℕ)}
            (elim o [ none ↦ inl invalid_port | some target ↦ inr target ])
            (inr (host, port))
        → IsAuthority authority host port
    given none read i = cc
    given (some (host', port')) read i =
        let same_host : host' ≡ host = cc in
        let same_port : port' ≡ port = cc in
        let text = drop (colon + 1) authority in
        let (is_host, is_port, some_port, small) =
          parse_port_sound (take colon authority)
            (parse_unsigned u32_max (drop (colon + 1) authority)) host' port' read in
        let (some_digit, all_digits, is_value, _) = parse_unsigned_sound u32_max text is_port in
        let split : authority ≡ host ++ b':' ∷ drop (colon + 1) authority =
          rfind_split authority b':' colon e
          ∙ ap (λ a. a ++ b':' ∷ drop (suc colon) authority) (is_host ∙ same_host)
          ∙ ap (λ n. host ++ b':' ∷ drop n authority) {x = suc colon} (omega arith) in
        subst (λ a. IsAuthority a host port) (sym split)
          (given_port host text port some_digit all_digits (sym same_port ∙ is_value)
            (subst (λ n. n ≢ 0) same_port some_port) (omega arith))

finish_target_ok :
    (path host : Bytes) (port : ℕ) (t : HttpsTarget)
    → finish_target path (inr (host, port)) ≡ inr t
    → (record { host = host; port = port; path = path } ≡ t) × (host ≢ [])
unfolding finish_target
finish_target_ok path [] port t h = cc
finish_target_ok path (c ∷ host) port t h = (cc, λ e. cc)

find-drop : (s : Bytes) (c i : ℕ) → find c s ≡ some i → drop i s ≡ c ∷ drop (suc i) s
unfolding find
find-drop [] c i h = cc
find-drop (x ∷ s) c zero h = elim (Option-cases (find c s)) [
  | inl e ↦ ground arith
  | inr (j, e) ↦ ground arith
]
find-drop (x ∷ s) c (suc i) h = elim (Option-cases (find c s)) [
  | inl e ↦ ground arith
  | inr (j, e) ↦ let same : j ≡ i = ground arith in find-drop s c i (e ∙ ap some same)
]

parse_rest_sound :
    (uri rest : Bytes) (t : HttpsTarget)
    → uri ≡ codes "https://" ++ rest
    → parse_rest rest ≡ inr t
    → IsHttps uri t
unfolding parse_rest finish_target
parse_rest_sound uri rest t whole h = slashes _ refl h
  where
    with_target :
        (authority tail path : Bytes) (r : HttpsDetail ⊎ (Bytes × ℕ))
        → rest ≡ authority ++ tail
        → All (λ x. x ≢ b'/') authority
        → has_reserved authority ≡ false
        → IsPath tail path
        → split_authority authority (rfind b':' authority) ≡ r
        → finish_target path r ≡ inr t
        → IsHttps uri t
    with_target authority tail path (inl d) all slash reserved path_ok split end = cc
    with_target authority tail path (inr (host, port)) all slash reserved path_ok split end =
        record {
          authority = authority;
          rest = tail;
          whole = whole ∙ ap (λ r. codes "https://" ++ r) all;
          no_slash = slash;
          no_reserved = has_reserved_absent authority reserved;
          some_host = some_host_of end;
          host_port =
              subst (λ u. IsAuthority authority u.host u.port) (target_of end)
                (split_authority_sound authority (rfind b':' authority) host port refl split);
          path_part = subst (λ u. IsPath tail u.path) (target_of end) path_ok;
        }
      where
        target : HttpsTarget
        target = record { host = host; port = port; path = path }

        target_of : finish_target path (inr (host, port)) ≡ inr t → target ≡ t
        target_of i = (finish_target_ok path host port t i).0

        some_host_of : finish_target path (inr (host, port)) ≡ inr t → t.host ≢ []
        some_host_of i =
            subst (λ u. u.host ≢ []) (target_of i) (finish_target_ok path host port t i).1

    slashes :
        (slash : Option ℕ)
        → find b'/' rest ≡ slash
        → (if is_empty (before slash rest) || has_reserved (before slash rest)
            then inl invalid_authority
            else finish_target
                (path_of slash rest)
                (split_authority (before slash rest) (rfind b':' (before slash rest))))
          ≡ inr t
        → IsHttps uri t
    slashes none e i = elim (Bool-cases (is_empty rest || has_reserved rest)) [
      | inl bad ↦ absurd (ground arith)
      | inr good ↦
          with_target rest [] (codes "/") _ (sym (append-nil rest)) (find_absent rest b'/' e)
            (ground arith) no_path refl (sym (rw good refl) ∙ i)
    ]
    slashes (some n) e i =
        elim (Bool-cases (is_empty (take n rest) || has_reserved (take n rest))) [
          | inl bad ↦ absurd (ground arith)
          | inr good ↦
              with_target (take n rest) (drop n rest) (drop n rest) _
                (sym (take-append-drop n rest)) (find_absent_before rest b'/' n e) (ground arith)
                (starts_path n e) refl (sym (rw good refl) ∙ i)
        ]
      where
        starts_path : (n : ℕ) → find b'/' rest ≡ some n → IsPath (drop n rest) (drop n rest)
        starts_path n e = subst (λ p. IsPath p p) (sym (find-drop rest b'/' n e)) (given_path _)

-- A URI that is accepted is `https://`, an authority without `/`, `@`, `?` and `#` and a path: the
-- authority is the host, without a colon and with port 443, or the host, a colon and the digits of a
-- port from 1 to 65535, the host is not empty, and the path is what begins at the first `/`, or `/`
-- alone.
pub parse_https_uri_sound :
    (uri : Bytes) (t : HttpsTarget) → parse_https_uri uri ≡ inr t → IsHttps uri t
unfolding parse_https_uri
parse_https_uri_sound uri t h = elim (Bool-cases (starts_with uri (codes "https://"))) [
  | inl scheme ↦
      parse_rest_sound uri (drop 8 uri) t (starts_with_split uri (codes "https://") scheme)
        (sym (rw scheme refl) ∙ h)
  | inr other ↦ absurd (ground arith)
]
