-- ===== src/Toolbox/Packet.antt =====
-- The inner IPv4/UDP packets of toolbox/src/wgnx_packet_scenario.cpp: checksums, `BuildUdpPacket`
-- and `ValidateUdpReply`. A span is the list of its bytes, each below 256, so that `a << 8 | b` of
-- two bytes is `a * 256 + b`.
pub mod Checksum
pub mod Build
pub mod Validate
pub mod Header
pub mod Datagram
pub mod Echo
pub mod Malformed
use nx_reverse.Base.{
  ℕ, zero, suc, ◌+◌, ◌-◌, ◌*◌, ◌/◌, ◌%◌, ◌^◌, Bool, true, false, not, ◌&&◌, List, [], ◌∷◌, Bytes,
  set, get_or, ◌==◌, if◌then◌else◌,
}

-- `Ipv4Address`, an array of four bytes
pub record Ipv4Address : Type 0 where
  pub b0 : ℕ
  pub b1 : ℕ
  pub b2 : ℕ
  pub b3 : ℕ

abbrev pub bytes_of : Ipv4Address → Bytes
bytes_of a = a.b0 ∷ a.b1 ∷ a.b2 ∷ a.b3 ∷ []

-- `std::array`'s comparison
unfoldable pub same_address : Ipv4Address → Ipv4Address → Bool
same_address a b = a.b0 == b.b0 && a.b1 == b.b1 && a.b2 == b.b2 && a.b3 == b.b3

abbrev pub ipv4_header_size : ℕ
ipv4_header_size = 20

abbrev pub udp_header_size : ℕ
udp_header_size = 8

abbrev pub udp_protocol : ℕ
udp_protocol = 17

-- `StoreBigEndian16(out + offset, value)`
unfoldable pub store_be16 : Bytes → ℕ → ℕ → Bytes
store_be16 out offset value = set (set out offset (value / 256 % 256)) (suc offset) (value % 256)

-- `LoadBigEndian16(in + offset)`
unfoldable pub load_be16 : Bytes → ℕ → ℕ
load_be16 bytes offset = get_or bytes offset 0 * 256 + get_or bytes (suc offset) 0

-- `AddChecksumBytes`, in uint32_t
unfoldable pub add_checksum_bytes : ℕ → Bytes → ℕ
add_checksum_bytes sum [] = sum
add_checksum_bytes sum (x ∷ []) = (sum + x * 256) % 2 ^ 32
add_checksum_bytes sum (x ∷ y ∷ rest) = add_checksum_bytes ((sum + (x * 256 + y)) % 2 ^ 32) rest

-- The loop of `FinishChecksum`. A sum of 32 bits leaves it after two rounds at most.
unfoldable pub fold_carries : ℕ → ℕ → ℕ
fold_carries zero sum = sum
fold_carries (suc fuel) sum =
    let rest = fold_carries fuel (sum % 65536 + sum / 65536) in
    if sum / 65536 == 0 then sum else rest

-- `FinishChecksum`; `~x & 0xFFFF` is `65535 - x` below 65536.
unfoldable pub finish_checksum : ℕ → ℕ
unfolding fold_carries
finish_checksum sum = 65535 - fold_carries 2 sum % 65536

-- `ComputeChecksum`
unfoldable pub compute_checksum : Bytes → ℕ
compute_checksum bytes = finish_checksum (add_checksum_bytes 0 bytes)

-- `ComputeUdpChecksum`, on the source, the destination, `udp_size` and the datagram
unfoldable pub compute_udp_checksum : Ipv4Address → Ipv4Address → ℕ → Bytes → ℕ
compute_udp_checksum source destination udp_size udp =
    let after_source = add_checksum_bytes 0 (bytes_of source) in
    let after_destination = add_checksum_bytes after_source (bytes_of destination) in
    let pseudo_tail = 0 ∷ udp_protocol ∷ udp_size / 256 % 256 ∷ udp_size % 256 ∷ [] in
    finish_checksum (add_checksum_bytes (add_checksum_bytes after_destination pseudo_tail) udp)
