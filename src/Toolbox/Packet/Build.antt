-- ===== src/Toolbox/Packet/Build.antt =====
-- `BuildUdpPacket`. `max_inner` is `wgnx::MaxInnerIpv4PacketSize` of the wireguard-nx headers.
pub mod Shape
use Prim.Native.Nat.{bit_xor}
use nx_reverse.Base.{
  ℕ, zero, suc, ◌+◌, ◌-◌, ◌*◌, ◌/◌, ◌%◌, ◌^◌, Bool, true, false, not, ◌&&◌, ◌||◌, List, [], ◌∷◌,
  Bytes, Option, none, some, set, get_or, take, drop, replicate, length, ltb, ◌==◌, if◌then◌else◌,
}
use nx_reverse.Toolbox.Packet.{
  Ipv4Address, bytes_of, ipv4_header_size, udp_header_size, udp_protocol, store_be16,
  compute_checksum, compute_udp_checksum,
}

-- `memcpy(out + offset, bytes)`
unfoldable pub write : Bytes → ℕ → Bytes → Bytes
write out zero [] = out
write [] zero (b ∷ bytes) = []
write (x ∷ out) zero (b ∷ bytes) = b ∷ write out zero bytes
write [] (suc offset) bytes = []
write (x ∷ out) (suc offset) bytes = x ∷ write out offset bytes

-- The IPv4 header on zeroed output, its checksum last.
unfoldable pub fill_ipv4_header : Bytes → ℕ → ℕ → Ipv4Address → Ipv4Address → Bytes
unfolding store_be16 write
fill_ipv4_header zeroed packet_size identification source destination =
    let versioned = set zeroed 0 0x45 in
    let sized = store_be16 versioned 2 (packet_size % 65536) in
    let identified = store_be16 sized 4 identification in
    let unfragmented = store_be16 identified 6 0x4000 in
    let living = set unfragmented 8 64 in
    let typed = set living 9 udp_protocol in
    let from = write typed 12 (bytes_of source) in
    let addressed = write from 16 (bytes_of destination) in
    store_be16 addressed 10 (compute_checksum (take ipv4_header_size addressed))

-- The UDP header and the payload behind it, the checksum last: `udp` is `output + Ipv4HeaderSize`.
unfoldable pub fill_udp : Bytes → ℕ → Ipv4Address → Ipv4Address → ℕ → ℕ → Bytes → Bytes
unfolding store_be16 write
fill_udp headed udp_size source destination source_port destination_port payload =
    let from = store_be16 headed 20 source_port in
    let to = store_be16 from 22 destination_port in
    let sized = store_be16 to 24 (udp_size % 65536) in
    let loaded = write sized 28 payload in
    let computed =
      compute_udp_checksum source destination udp_size (drop ipv4_header_size loaded) in
    store_be16 loaded 26 (if computed == 0 then 0xffff else computed)

-- The packet written to the output, `none` for a returned size of 0.
unfoldable pub build_udp_packet :
    (max_inner output_size : ℕ) → Ipv4Address → Ipv4Address → ℕ → ℕ → Bytes → ℕ → Option Bytes
build_udp_packet max_inner output_size source destination source_port destination_port payload
      identification =
    let udp_size = udp_header_size + length payload in
    let packet_size = ipv4_header_size + udp_size in
    let zeroed = replicate packet_size 0 in
    let headed = fill_ipv4_header zeroed packet_size identification source destination in
    if ltb output_size packet_size || ltb max_inner packet_size || ltb 65535 packet_size
    then none
    else some (fill_udp headed udp_size source destination source_port destination_port payload)

-- `outgoing[10] ^= 0xFFU` under `WgnxSubmitMalformedIpv4Checksum`
unfoldable pub malform_checksum : Bytes → Bytes
malform_checksum outgoing = set outgoing 10 (bit_xor (get_or outgoing 10 0) 0xff)
