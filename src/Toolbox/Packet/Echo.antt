-- ===== src/Toolbox/Packet/Echo.antt =====
-- What `BuildUdpPacket` of toolbox/src/wgnx_packet_scenario.cpp builds, `ValidateUdpReply` accepts.
use nx_reverse.Base.{ℕ, ◌+◌, ◌-◌, ◌≤◌, ◌<◌, ◌≡◌, refl, true, some, arith, Bytes, All, length}
use nx_reverse.Toolbox.Packet.{load_be16}
use nx_reverse.Toolbox.Packet.Checksum.{IsByte}
use nx_reverse.Toolbox.Packet.Build.{build_udp_packet}
use nx_reverse.Toolbox.Packet.Build.Shape.{packet, build_udp_packet_lem}
use nx_reverse.Toolbox.Packet.Validate.{ExpectedReply, validated, validate_udp_reply}
use nx_reverse.Toolbox.Packet.Validate.Accepted.{IsUdpReply, validate_udp_reply_complete}
use nx_reverse.Toolbox.Packet.Header.{IsAddress, header_checks}
use nx_reverse.Toolbox.Packet.Datagram.{datagram-IsReply}

-- `packet` is a reply.
module _ (id : ℕ) (e : ExpectedReply) (remote : IsAddress e.remote_address)
    (to_us : IsAddress e.local_address) (bytes : All IsByte e.payload)
    (fits : 28 + length e.payload ≤ 65535) (rp : e.remote_port < 65536)
    (lp : e.local_port < 65536) where
  abbrev pub reply_packet : Bytes
  reply_packet = packet id e.remote_address e.local_address e.remote_port e.local_port e.payload

  packet-IsUdpReply : IsUdpReply reply_packet 20 e
  unfolding load_be16
  packet-IsUdpReply =
      let size = 20 + (8 + length e.payload) in
      let reply =
        datagram-IsReply e.remote_port e.local_port e.payload e.remote_address e.local_address
          remote to_us bytes fits e rp lp refl refl refl in
      let room : length reply_packet - 20 ≡ 8 + length e.payload = omega arith in
      record {
        header_field = refl;
        version_four = refl;
        whole_header = omega arith;
        whole_packet = omega arith;
        has_datagram = omega arith;
        header_checks = header_checks size id e.remote_address e.local_address remote to_us;
        unfragmented = refl;
        is_udp = refl;
        from_remote = refl;
        to_local = refl;
        reply = rw room reply;
      }

  -- A reply built by `BuildUdpPacket` for the expected addresses, ports and payload is accepted by
  -- `ValidateUdpReply`, whatever identification it has.
  pub validate_udp_reply-build_udp_packet :
      (max_inner output_size : ℕ)
      → 28 + length e.payload ≤ max_inner
      → 28 + length e.payload ≤ output_size
      → (p : Bytes) × (build_udp_packet max_inner output_size e.remote_address e.local_address
            e.remote_port e.local_port e.payload id
          ≡ some p)
        × (validate_udp_reply p e ≡ (true, validated))
  validate_udp_reply-build_udp_packet max_inner output_size h1 h2 = (
    reply_packet,
    build_udp_packet_lem max_inner output_size e.remote_address e.local_address e.remote_port
        e.local_port e.payload id fits h1 h2,
    validate_udp_reply_complete reply_packet 20 e packet-IsUdpReply,
  )
