-- ===== src/Toolbox/Packet/Malformed.antt =====
-- The damaged checksum of `WgnxSubmitMalformedIpv4Checksum` in toolbox/src/wgnx_packet_scenario.cpp.
use Prim.Native.Nat.{bit_xor}
use nx_reverse.Base.{
  ==_iff, passes_below, passes_below-lt, ℕ, ◌+◌, ◌-◌, ◌*◌, ◌%◌, ◌<◌, ◌≡◌, ◌≢◌, refl, ap, sym, ◌∙◌,
  true, false, some, [], arith, Bytes, set, length, ◌==◌,
}
use nx_reverse.Toolbox.Packet.{Ipv4Address, load_be16, compute_checksum, finish_checksum}
use nx_reverse.Toolbox.Packet.Checksum.{word_sum, finish_checksum_iff}
use nx_reverse.Toolbox.Packet.Build.{build_udp_packet, malform_checksum}
use nx_reverse.Toolbox.Packet.Build.Shape.{hi, lo, ipv4_header, build_udp_packet-some}
use nx_reverse.Toolbox.Packet.Validate.{ExpectedReply, invalid_ipv4_checksum, validate_udp_reply}
use nx_reverse.Toolbox.Packet.Validate.Accepted.{validate_udp_reply_bad_checksum}
use nx_reverse.Toolbox.Packet.Header.{
  IsAddress, compute_checksum-word_sum, header_sum, header_sum-lt, header_completed,
}

flip_table : passes_below (λ x. bit_xor x 0xff == 255 - x) 256 ≡ true
unfolding passes_below
flip_table = refl

-- Flipping the bits of a byte counts it from 255 down.
flip_byte : (x : ℕ) → x < 256 → bit_xor x 0xff ≡ 255 - x
flip_byte x h = (==_iff _ _).0 (passes_below-lt _ 256 x h flip_table)

-- An IPv4 header whose checksum bytes are `h` and `l`.
abbrev damaged_header : ℕ → ℕ → ℕ → ℕ → Ipv4Address → Ipv4Address → Bytes → Bytes
damaged_header size id h l s d rest = set (ipv4_header size id l s d rest) 10 h

damaged_header_fails :
    (size id sum h : ℕ) (s d : Ipv4Address)
    → IsAddress s
    → IsAddress d
    → sum < 65536
    → (header_sum size id s d + sum) % 65535 ≡ 0
    → h ≡ 255 - hi sum
    → compute_checksum (damaged_header size id h sum s d []) ≢ 0
damaged_header_fails size id sum h s d src dst small whole flipped zero_sum =
    let total = header_sum size id s d in
    let added : word_sum (damaged_header size id h sum s d []) ≡ total + (h * 256 + lo sum) =
      unfold header_sum in omega arith in
    let bound = header_sum-lt size id s d src dst in
    let exact : compute_checksum (damaged_header size id h sum s d [])
        ≡ finish_checksum (total + (h * 256 + lo sum)) =
      compute_checksum-word_sum _ (omega arith) ∙ ap finish_checksum added in
    let checked =
      (finish_checksum_iff (total + (h * 256 + lo sum)) (omega arith)).0 (sym exact ∙ zero_sum) in
    omega arith

-- A built reply whose first checksum byte is flipped is refused for its IPv4 checksum.
pub validate_udp_reply-malform_checksum :
    (max_inner output_size id : ℕ) (e : ExpectedReply) (p : Bytes)
    → IsAddress e.remote_address
    → IsAddress e.local_address
    → build_udp_packet max_inner output_size e.remote_address e.local_address e.remote_port
        e.local_port e.payload id
      ≡ some p
    → validate_udp_reply (malform_checksum p) e ≡ (false, invalid_ipv4_checksum)
unfolding malform_checksum load_be16
validate_udp_reply-malform_checksum max_inner output_size id e p remote to_us built =
    let (fits, is_packet) =
      build_udp_packet-some max_inner output_size e.remote_address e.local_address e.remote_port
        e.local_port e.payload id p built in
    let size = 20 + (8 + length e.payload) in
    let sum = compute_checksum (ipv4_header size id 0 e.remote_address e.local_address []) in
    let (whole, pos, small) =
      header_completed size id e.remote_address e.local_address remote to_us in
    let fails =
      damaged_header_fails size id sum (bit_xor (hi sum) 0xff) e.remote_address e.local_address
        remote to_us small whole (flip_byte (hi sum) (omega arith)) in
    rw is_packet (validate_udp_reply_bad_checksum _ e refl (omega arith) (omega arith) fails)
