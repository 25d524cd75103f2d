-- ===== src/Toolbox/Packet/Validate/Accepted.antt =====
-- What an accepted reply is.
use nx_reverse.Base.{
  ℕ, ◌+◌, ◌-◌, ◌*◌, ◌/◌, ◌%◌, ◌≤◌, ◌≡◌, ◌≢◌, ◌↔◌, refl, true, false, arith, Bytes, get_or, take,
  drop, length, equal_iff,
}
use nx_reverse.Toolbox.Packet.{
  Ipv4Address, same_address, load_be16, compute_checksum, compute_udp_checksum,
}
use nx_reverse.Toolbox.Packet.Validate.{
  ExpectedReply, validated, invalid_ipv4_checksum, address_at, validate_datagram,
  validate_udp_reply,
}

same_address_iff : (a b : Ipv4Address) → (same_address a b ≡ true) ↔ (a ≡ b)
unfolding same_address
same_address_iff a b = ground arith

-- An accepted datagram fills the room behind the header, comes from the expected port to the
-- expected one, carries a checksum that checks, and holds the expected payload and no more.
pub record IsReply (udp : Bytes) (room : ℕ) (s d : Ipv4Address) (e : ExpectedReply) : Type 0 where
  pub fills : load_be16 udp 4 ≡ room
  pub has_header : 8 ≤ room
  pub from_port : load_be16 udp 0 ≡ e.remote_port
  pub to_port : load_be16 udp 2 ≡ e.local_port
  pub has_checksum : load_be16 udp 6 ≢ 0
  pub checks : compute_udp_checksum s d room (take room udp) ≡ 0
  pub carries : take (room - 8) (drop 8 udp) ≡ e.payload

datagram_sound :
    (udp : Bytes) (room : ℕ) (s d : Ipv4Address) (e : ExpectedReply)
    → (validate_datagram udp room s d e).0 ≡ true
    → IsReply udp room s d e
unfolding validate_datagram
datagram_sound udp room s d e h =
    ground (arith, equal_iff (take (load_be16 udp 4 - 8) (drop 8 udp)) e.payload)

datagram_complete :
    (udp : Bytes) (room : ℕ) (s d : Ipv4Address) (e : ExpectedReply)
    → IsReply udp room s d e
    → validate_datagram udp room s d e ≡ (true, validated)
unfolding validate_datagram
datagram_complete udp room s d e h = ground (
  arith,
  h.fills,
  h.has_header,
  h.from_port,
  h.to_port,
  h.has_checksum,
  h.checks,
  h.carries,
  equal_iff (take (load_be16 udp 4 - 8) (drop 8 udp)) e.payload,
)

-- An accepted packet: an unfragmented IPv4 packet with a header that checks, of exactly its total
-- length, between the expected addresses, with an accepted datagram behind the header.
pub record IsUdpReply (p : Bytes) (header_size : ℕ) (e : ExpectedReply) : Type 0 where
  pub header_field : header_size ≡ get_or p 0 0 % 16 * 4
  pub version_four : get_or p 0 0 / 16 ≡ 4
  pub whole_header : 20 ≤ header_size
  pub whole_packet : load_be16 p 2 ≡ length p
  pub has_datagram : header_size + 8 ≤ length p
  pub header_checks : compute_checksum (take header_size p) ≡ 0
  pub unfragmented : load_be16 p 6 % 16384 ≡ 0
  pub is_udp : get_or p 9 0 ≡ 17
  pub from_remote : address_at p 12 ≡ e.remote_address
  pub to_local : address_at p 16 ≡ e.local_address
  pub reply :
      IsReply (drop header_size p) (length p - header_size) e.remote_address e.local_address e

-- The checks in front of the datagram, and the datagram's.
record PassesHeader (p : Bytes) (size : ℕ) (e : ExpectedReply) : Type 0 where
  version_four : get_or p 0 0 / 16 ≡ 4
  whole_header : 20 ≤ size
  whole_packet : load_be16 p 2 ≡ length p
  has_datagram : size + 8 ≤ length p
  header_checks : compute_checksum (take size p) ≡ 0
  unfragmented : load_be16 p 6 % 16384 ≡ 0
  is_udp : get_or p 9 0 ≡ 17
  from_remote : same_address (address_at p 12) e.remote_address ≡ true
  to_local : same_address (address_at p 16) e.local_address ≡ true
  datagram :
      (validate_datagram
        (drop size p)
        (load_be16 p 2 - size)
        (address_at p 12)
        (address_at p 16)
        e).0
      ≡ true

passes_header :
    (p : Bytes) (e : ExpectedReply)
    → (validate_udp_reply p e).0 ≡ true
    → PassesHeader p (get_or p 0 0 % 16 * 4) e
unfolding validate_udp_reply
passes_header p e h = ground arith

-- `ValidateUdpReply` accepts only replies.
pub validate_udp_reply_sound :
    (p : Bytes) (e : ExpectedReply)
    → (validate_udp_reply p e).0 ≡ true
    → IsUdpReply p (get_or p 0 0 % 16 * 4) e
validate_udp_reply_sound p e h =
    let size = get_or p 0 0 % 16 * 4 in
    let passed = passes_header p e h in
    let from = (same_address_iff (address_at p 12) e.remote_address).0 passed.from_remote in
    let to = (same_address_iff (address_at p 16) e.local_address).0 passed.to_local in
    let reply =
      datagram_sound (drop size p) (load_be16 p 2 - size) (address_at p 12) (address_at p 16) e
        passed.datagram in
    record {
      header_field = refl;
      version_four = passed.version_four;
      whole_header = passed.whole_header;
      whole_packet = passed.whole_packet;
      has_datagram = passed.has_datagram;
      header_checks = passed.header_checks;
      unfragmented = passed.unfragmented;
      is_udp = passed.is_udp;
      from_remote = from;
      to_local = to;
      reply = rw (from, to, passed.whole_packet) at reply;
    }

-- It accepts every reply.
pub validate_udp_reply_complete :
    (p : Bytes) (size : ℕ) (e : ExpectedReply)
    → IsUdpReply p size e
    → validate_udp_reply p e ≡ (true, validated)
unfolding validate_udp_reply
validate_udp_reply_complete p size e h =
    let datagram : validate_datagram (drop size p) (load_be16 p 2 - size) (address_at p 12)
          (address_at p 16) e
        ≡ (true, validated) =
      rw (h.from_remote, h.to_local, h.whole_packet)
        (datagram_complete (drop size p) (length p - size) e.remote_address e.local_address e
          h.reply) in
    ground (
      arith,
      datagram,
      (same_address_iff (address_at p 12) e.remote_address).1 h.from_remote,
      (same_address_iff (address_at p 16) e.local_address).1 h.to_local,
      h.header_field,
      h.version_four,
      h.whole_header,
      h.whole_packet,
      h.has_datagram,
      h.header_checks,
      h.unfragmented,
      h.is_udp,
    )

-- A well-formed packet with a 20-byte header that does not check is refused for that.
pub validate_udp_reply_bad_checksum :
    (p : Bytes) (e : ExpectedReply)
    → get_or p 0 0 ≡ 0x45
    → 28 ≤ length p
    → load_be16 p 2 ≡ length p
    → compute_checksum (take 20 p) ≢ 0
    → validate_udp_reply p e ≡ (false, invalid_ipv4_checksum)
unfolding validate_udp_reply
validate_udp_reply_bad_checksum p e first long whole bad = rw first (ground arith)
