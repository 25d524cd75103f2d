-- ===== src/Tests/Https.antt =====
-- Tests of the readers of toolbox/src/https_scenario_parsing.cpp.
use nx_reverse.Base.{
  ◌≡◌, refl, inl, inr, ◌++◌, Bytes, codes, starts_with, find, from_chars, scan_digits,
}
use nx_reverse.Toolbox.Ipv4.{parse_unsigned, is_ipv4_address}
use nx_reverse.Toolbox.Https.{
  HttpsTarget, invalid_port, rfind, has_reserved, parse_port, split_authority, finish_target,
  parse_rest, parse_https_uri, find_text, check_ip, parse_body, is_status_200,
  parse_global_ip_response, headers_end,
}
use nx_reverse.Toolbox.Https.Sound.{IsHttps, parse_https_uri_sound}
use nx_reverse.Toolbox.Https.Answer.{IsAnswer, parse_global_ip_response_sound}

abbrev uri : Bytes
uri = codes "https://example.org:8443/ip"

abbrev target : HttpsTarget
target = record { host = codes "example.org"; port = 8443; path = codes "/ip" }

parsed : parse_https_uri uri ≡ inr target
unfolding parse_https_uri parse_rest finish_target split_authority parse_port has_reserved rfind
    find starts_with parse_unsigned from_chars scan_digits
parsed = refl

no_port : parse_https_uri (codes "https://example.org:/") ≡ inl invalid_port
unfolding parse_https_uri parse_rest finish_target split_authority parse_port has_reserved rfind
    find starts_with parse_unsigned from_chars scan_digits
no_port = refl

parse_https_uri_sound_example : IsHttps uri target
parse_https_uri_sound_example = parse_https_uri_sound uri target parsed

abbrev response : Bytes
response = codes "HTTP/1.1 200 OK" ++ headers_end ++ codes "{\"global_ip\":\"192.0.2.7\"}"

answered : parse_global_ip_response response ≡ inr (codes "192.0.2.7")
unfolding parse_global_ip_response is_status_200 find_text parse_body check_ip find starts_with
    is_ipv4_address
answered = refl

parse_global_ip_response_sound_example : IsAnswer response (codes "192.0.2.7")
parse_global_ip_response_sound_example =
    parse_global_ip_response_sound response (codes "192.0.2.7") answered
