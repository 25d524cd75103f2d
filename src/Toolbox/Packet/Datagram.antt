-- ===== src/Toolbox/Packet/Datagram.antt =====
-- The datagram that `BuildUdpPacket` of toolbox/src/wgnx_packet_scenario.cpp fills in, and its sum with
-- the pseudo-header.
use native.Mathlib.Nat.{add-zero}
use nx_reverse.Base.{
  ℕ, ◌+◌, ◌-◌, ◌/◌, ◌%◌, ◌^◌, ◌≤◌, ◌<◌, ◌≡◌, ap, sym, ◌∙◌, [], ◌∷◌, arith, Bytes, All, take, length,
  take-length,
}
use nx_reverse.Toolbox.Packet.{
  Ipv4Address, bytes_of, load_be16, compute_udp_checksum, finish_checksum, add_checksum_bytes,
}
use nx_reverse.Toolbox.Packet.Checksum.{
  word_sum, word_sum-le, IsByte, add_checksum_bytes-word_sum, finish_checksum_iff,
  finish_checksum_completes,
}
use nx_reverse.Toolbox.Packet.Build.Shape.{datagram, sent_checksum}
use nx_reverse.Toolbox.Packet.Validate.{ExpectedReply}
use nx_reverse.Toolbox.Packet.Validate.Accepted.{IsReply}
use nx_reverse.Toolbox.Packet.Header.{IsAddress}

four_sums :
    (a b c u : Bytes)
    → word_sum a + word_sum b + word_sum c + word_sum u < 2 ^ 32
    → add_checksum_bytes (add_checksum_bytes (add_checksum_bytes (add_checksum_bytes 0 a) b) c) u
      ≡ word_sum a + word_sum b + word_sum c + word_sum u
four_sums a b c u h = rw (add_checksum_bytes-word_sum a 0 (omega arith)) (
    rw (add_checksum_bytes-word_sum b (0 + word_sum a) (omega arith)) (
      rw (add_checksum_bytes-word_sum c (0 + word_sum a + word_sum b) (omega arith)) (
        rw (add_checksum_bytes-word_sum u (0 + word_sum a + word_sum b + word_sum c) (omega arith))
          (omega arith))))

-- The sum of a datagram behind its pseudo-header.
unfoldable pub datagram_sum : ℕ → ℕ → Bytes → Ipv4Address → Ipv4Address → ℕ → ℕ → ℕ
unfolding word_sum
datagram_sum sp dp payload s d size sum =
    word_sum (bytes_of s)
    + word_sum (bytes_of d)
    + word_sum (0 ∷ 17 ∷ size / 256 % 256 ∷ size % 256 ∷ [])
    + word_sum (datagram sp dp size sum payload)

compute_udp_checksum-datagram_sum :
    (sp dp : ℕ) (payload : Bytes) (s d : Ipv4Address) (size sum : ℕ)
    → datagram_sum sp dp payload s d size sum < 2 ^ 32
    → compute_udp_checksum s d size (datagram sp dp size sum payload)
      ≡ finish_checksum (datagram_sum sp dp payload s d size sum)
unfolding compute_udp_checksum datagram_sum
compute_udp_checksum-datagram_sum sp dp payload s d size sum h = ap finish_checksum (
    four_sums (bytes_of s) (bytes_of d) (0 ∷ 17 ∷ size / 256 % 256 ∷ size % 256 ∷ [])
      (datagram sp dp size sum payload) (omega arith))

module _ (sp dp : ℕ) (payload : Bytes) (s d : Ipv4Address) (src : IsAddress s) (dst : IsAddress d)
    (bytes : All IsByte payload) (fits : 28 + length payload ≤ 65535) where
  abbrev pub zeroed_sum : ℕ
  zeroed_sum = datagram_sum sp dp payload s d (8 + length payload) 0

  zeroed_sum-lt : zeroed_sum + 65536 < 2 ^ 32
  unfolding datagram_sum
  zeroed_sum-lt = omega (arith, word_sum-le payload bytes)

  datagram_sum-add :
      (sum : ℕ)
      → sum < 65536
      → datagram_sum sp dp payload s d (8 + length payload) sum ≡ zeroed_sum + sum
  unfolding datagram_sum
  datagram_sum-add sum h = omega arith

  datagram_checksum :
      (sum : ℕ)
      → sum < 65536
      → compute_udp_checksum s d
          (8 + length payload)
          (datagram sp dp (8 + length payload) sum payload)
        ≡ finish_checksum (zeroed_sum + sum)
  datagram_checksum sum h =
      compute_udp_checksum-datagram_sum sp dp payload s d (8 + length payload) sum
        (omega (arith, datagram_sum-add sum h, zeroed_sum-lt))
      ∙ ap finish_checksum (datagram_sum-add sum h)

  abbrev pub filled_sum : ℕ
  filled_sum =
      sent_checksum s d (8 + length payload) (datagram sp dp (8 + length payload) 0 payload)

  -- The checksum that is sent, 0xFFFF in place of 0, completes the sum of the datagram.
  datagram_completed :
      ((zeroed_sum + filled_sum) % 65535 ≡ 0) × (0 < filled_sum) × (filled_sum < 65536)
  datagram_completed =
      let exact : compute_udp_checksum s d (8 + length payload)
            (datagram sp dp (8 + length payload) 0 payload)
          ≡ finish_checksum zeroed_sum =
        datagram_checksum 0 (omega arith) ∙ ap finish_checksum (add-zero zeroed_sum) in
      let done = finish_checksum_completes zeroed_sum (omega (arith, zeroed_sum-lt)) in
      rw exact (ground (arith, done.0, done.1, done.2))

  datagram_checks :
      compute_udp_checksum s d
        (8 + length payload)
        (datagram sp dp (8 + length payload) filled_sum payload)
      ≡ 0
  datagram_checks =
      let (whole, pos, small) = datagram_completed in
      datagram_checksum filled_sum small
      ∙ (finish_checksum_iff (zeroed_sum + filled_sum) (omega (arith, zeroed_sum-lt))).1
          (omega arith, whole)

  pub datagram-IsReply :
      (e : ExpectedReply)
      → sp < 65536
      → dp < 65536
      → e.remote_port ≡ sp
      → e.local_port ≡ dp
      → e.payload ≡ payload
      → IsReply (datagram sp dp (8 + length payload) filled_sum payload) (8 + length payload) s d e
  unfolding load_be16
  datagram-IsReply e hsp hdp ers edp epl =
      let n = length payload in
      let udp = datagram sp dp (8 + n) filled_sum payload in
      let all : take (8 + n) udp ≡ udp = take-length (8 + n) udp (omega arith) in
      let (whole, pos, small) = datagram_completed in
      record {
        fills = omega arith;
        has_header = omega arith;
        from_port = omega arith;
        to_port = omega arith;
        has_checksum = omega arith;
        checks = rw all datagram_checks;
        carries = take-length (8 + n - 8) payload (omega arith) ∙ sym epl;
      }
