-- ===== src/Tests/Packet.antt =====
-- Tests of the packets of toolbox/src/wgnx_packet_scenario.cpp.
use nx_reverse.Base.{◌≡◌, ap, refl, true, false, none, some, equal, [], ◌∷◌, arith, Bytes}
use nx_reverse.Toolbox.Packet.{
  Ipv4Address, store_be16, load_be16, compute_checksum, compute_udp_checksum, add_checksum_bytes,
  finish_checksum, fold_carries, same_address,
}
use nx_reverse.Toolbox.Packet.Build.{
  build_udp_packet, malform_checksum, fill_ipv4_header, fill_udp, write,
}
use nx_reverse.Toolbox.Packet.Header.{IsAddress}
use nx_reverse.Toolbox.Packet.Echo.{validate_udp_reply-build_udp_packet}
use nx_reverse.Toolbox.Packet.Malformed.{validate_udp_reply-malform_checksum}
use nx_reverse.Toolbox.Packet.Validate.Accepted.{
  IsUdpReply, validate_udp_reply_sound, validate_udp_reply_complete,
}
use nx_reverse.Toolbox.Packet.Validate.{
  ExpectedReply, validated, invalid_ipv4_checksum, validate_udp_reply, validate_datagram,
}

abbrev remote : Ipv4Address
remote = record { b0 = 10; b1 = 0; b2 = 0; b3 = 1 }

abbrev local : Ipv4Address
local = record { b0 = 10; b1 = 0; b2 = 0; b3 = 2 }

abbrev reply : ExpectedReply
reply = record {
  local_address = local;
  remote_address = remote;
  local_port = 40000;
  remote_port = 29000;
  payload = 1 ∷ 2 ∷ 3 ∷ 4 ∷ [];
}

abbrev reply_bytes : Bytes
reply_bytes =
    69 ∷ 0 ∷ 0 ∷ 32 ∷ 0 ∷ 7 ∷ 64 ∷ 0 ∷ 64 ∷ 17 ∷ 38 ∷ 196 ∷ 10 ∷ 0 ∷ 0 ∷ 1 ∷ 10 ∷ 0 ∷ 0 ∷ 2 ∷ 113
    ∷ 72 ∷ 156 ∷ 64 ∷ 0 ∷ 12 ∷ 218 ∷ 68 ∷ 1 ∷ 2 ∷ 3 ∷ 4 ∷ []

-- The packet that is built for the reply.
built :
    build_udp_packet 1500 1500 remote local 29000 40000 (1 ∷ 2 ∷ 3 ∷ 4 ∷ []) 7 ≡ some reply_bytes
unfolding build_udp_packet fill_ipv4_header fill_udp store_be16 write compute_checksum
    compute_udp_checksum add_checksum_bytes finish_checksum fold_carries
built = refl

-- A packet that is too large for the output is not built.
too_large : build_udp_packet 1500 31 remote local 29000 40000 (1 ∷ 2 ∷ 3 ∷ 4 ∷ []) 7 ≡ none
unfolding build_udp_packet
too_large = refl

accepted : validate_udp_reply reply_bytes reply ≡ (true, validated)
unfolding validate_udp_reply validate_datagram load_be16 compute_checksum compute_udp_checksum equal
    add_checksum_bytes finish_checksum fold_carries same_address
accepted = refl

remote-IsAddress : IsAddress remote
remote-IsAddress = record {
  byte0 = omega arith;
  byte1 = omega arith;
  byte2 = omega arith;
  byte3 = omega arith;
}

local-IsAddress : IsAddress local
local-IsAddress = record {
  byte0 = omega arith;
  byte1 = omega arith;
  byte2 = omega arith;
  byte3 = omega arith;
}

validate_udp_reply-build_udp_packet_example :
    (p : Bytes) × (build_udp_packet 1500 1500 remote local 29000 40000 (1 ∷ 2 ∷ 3 ∷ 4 ∷ []) 7
      ≡ some p)
    × (validate_udp_reply p reply ≡ (true, validated))
validate_udp_reply-build_udp_packet_example =
    validate_udp_reply-build_udp_packet 7 reply remote-IsAddress local-IsAddress
      (omega arith, (omega arith, (omega arith, (omega arith, tt)))) (omega arith) (omega arith)
      (omega arith) 1500 1500 (omega arith) (omega arith)

validate_udp_reply_sound_example : IsUdpReply reply_bytes 20 reply
validate_udp_reply_sound_example =
    validate_udp_reply_sound reply_bytes reply (ap (λ r. r.0) accepted)

validate_udp_reply_complete_example : validate_udp_reply reply_bytes reply ≡ (true, validated)
validate_udp_reply_complete_example =
    validate_udp_reply_complete reply_bytes 20 reply
      (validate_udp_reply_sound reply_bytes reply (ap (λ r. r.0) accepted))

validate_udp_reply-malform_checksum_example :
    validate_udp_reply (malform_checksum reply_bytes) reply ≡ (false, invalid_ipv4_checksum)
validate_udp_reply-malform_checksum_example =
    validate_udp_reply-malform_checksum 1500 1500 7 reply reply_bytes remote-IsAddress
      local-IsAddress built
