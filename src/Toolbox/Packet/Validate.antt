-- ===== src/Toolbox/Packet/Validate.antt =====
-- `ValidateUdpReply`. The text in `detail` is the constructor that stands for it, with the values
-- that the text prints.
pub mod Accepted
use nx_reverse.Base.{
  ℕ, ◌+◌, ◌-◌, ◌*◌, ◌/◌, ◌%◌, Bool, true, false, not, ◌&&◌, ◌||◌, List, [], ◌∷◌, Bytes, get_or,
  take, drop, length, equal, ltb, ◌==◌, if◌then◌else◌,
}
use nx_reverse.Toolbox.Packet.{
  Ipv4Address, same_address, ipv4_header_size, udp_header_size, udp_protocol, load_be16,
  compute_checksum, compute_udp_checksum,
}

-- `ExpectedReply`
pub record ExpectedReply : Type 0 where
  pub local_address : Ipv4Address
  pub remote_address : Ipv4Address
  pub local_port : ℕ
  pub remote_port : ℕ
  pub payload : Bytes

pub data Detail : Type 0 where
  validated packet_too_short invalid_version_or_header_length invalid_total_length : Detail
  invalid_ipv4_checksum fragmented : Detail
  not_udp : ℕ → Detail
  address_mismatch : Ipv4Address → Ipv4Address → Detail
  invalid_udp_length : Detail
  port_mismatch : ℕ → ℕ → Detail
  missing_udp_checksum invalid_udp_checksum : Detail
  payload_mismatch : Bytes → Detail

-- The four bytes from `offset` on.
abbrev pub address_at : Bytes → ℕ → Ipv4Address
address_at bytes offset = record {
  b0 = get_or bytes offset 0;
  b1 = get_or bytes (offset + 1) 0;
  b2 = get_or bytes (offset + 2) 0;
  b3 = get_or bytes (offset + 3) 0;
}

-- The checks behind the IPv4 header, on the datagram `udp`.
unfoldable pub validate_datagram :
    Bytes → ℕ → Ipv4Address → Ipv4Address → ExpectedReply → Bool × Detail
unfolding load_be16
validate_datagram udp room source destination expected =
    let udp_size = load_be16 udp 4 in
    let source_port = load_be16 udp 0 in
    let destination_port = load_be16 udp 2 in
    let payload = take (udp_size - udp_header_size) (drop udp_header_size udp) in
    if not (udp_size == room) || ltb udp_size udp_header_size
    then (false, invalid_udp_length)
    else if not (source_port == expected.remote_port)
        || not (destination_port == expected.local_port)
    then (false, port_mismatch source_port destination_port)
    else if load_be16 udp 6 == 0
    then (false, missing_udp_checksum)
    else if not (compute_udp_checksum source destination udp_size (take udp_size udp) == 0)
    then (false, invalid_udp_checksum)
    else if not (length payload == length expected.payload) || not (equal payload expected.payload)
    then (false, payload_mismatch payload)
    else (true, validated)

-- `ValidateUdpReply`; `validate_datagram` is the part from `const std::uint8_t* udp` on.
unfoldable pub validate_udp_reply : Bytes → ExpectedReply → Bool × Detail
unfolding load_be16
validate_udp_reply packet expected =
    let version = get_or packet 0 0 / 16 in
    let header_size = get_or packet 0 0 % 16 * 4 in
    let total_size = load_be16 packet 2 in
    let source = address_at packet 12 in
    let destination = address_at packet 16 in
    let datagram =
      validate_datagram (drop header_size packet) (total_size - header_size) source destination
        expected in
    if ltb (length packet) (ipv4_header_size + udp_header_size)
    then (false, packet_too_short)
    else if not (version == 4)
        || ltb header_size ipv4_header_size
        || ltb (length packet) header_size
    then (false, invalid_version_or_header_length)
    else if not (total_size == length packet) || ltb total_size (header_size + udp_header_size)
    then (false, invalid_total_length)
    else if not (compute_checksum (take header_size packet) == 0)
    then (false, invalid_ipv4_checksum)
    else if not (load_be16 packet 6 % 16384 == 0)
    then (false, fragmented)
    else if not (get_or packet 9 0 == udp_protocol)
    then (false, not_udp (get_or packet 9 0))
    else if not (same_address source expected.remote_address)
        || not (same_address destination expected.local_address)
    then (false, address_mismatch source destination)
    else datagram
