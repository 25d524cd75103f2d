-- ===== src/Toolbox/Packet/Header.antt =====
-- The IPv4 header that `BuildUdpPacket` of toolbox/src/wgnx_packet_scenario.cpp fills in, and its sum.
use native.Mathlib.Nat.{add-zero}
use nx_reverse.Base.{ℕ, ◌+◌, ◌%◌, ◌^◌, ◌<◌, ◌≡◌, ap, ◌∙◌, [], arith, Bytes}
use nx_reverse.Toolbox.Packet.{Ipv4Address, compute_checksum, finish_checksum}
use nx_reverse.Toolbox.Packet.Checksum.{
  word_sum, add_checksum_bytes-word_sum, finish_checksum_iff, finish_checksum_completes,
}
use nx_reverse.Toolbox.Packet.Build.Shape.{ipv4_header}

pub record IsAddress (a : Ipv4Address) : Type 0 where
  pub byte0 : a.b0 < 256
  pub byte1 : a.b1 < 256
  pub byte2 : a.b2 < 256
  pub byte3 : a.b3 < 256

pub compute_checksum-word_sum :
    (s : Bytes) → word_sum s < 2 ^ 32 → compute_checksum s ≡ finish_checksum (word_sum s)
unfolding compute_checksum
compute_checksum-word_sum s h =
    ap finish_checksum (add_checksum_bytes-word_sum s 0 (omega arith) ∙ omega arith)

unfoldable pub header_sum : ℕ → ℕ → Ipv4Address → Ipv4Address → ℕ
unfolding word_sum
header_sum size id s d = word_sum (ipv4_header size id 0 s d [])

module _ (size id : ℕ) (s d : Ipv4Address) (src : IsAddress s) (dst : IsAddress d) where
  pub header_sum-lt : header_sum size id s d < 2 ^ 20
  unfolding header_sum
  header_sum-lt = omega arith

  word_sum-ipv4_header :
      (sum : ℕ)
      → sum < 65536
      → word_sum (ipv4_header size id sum s d []) ≡ header_sum size id s d + sum
  unfolding header_sum
  word_sum-ipv4_header sum h = omega arith

  header_checksum :
      (sum : ℕ)
      → sum < 65536
      → compute_checksum (ipv4_header size id sum s d [])
        ≡ finish_checksum (header_sum size id s d + sum)
  header_checksum sum h =
      compute_checksum-word_sum (ipv4_header size id sum s d [])
        (omega (arith, header_sum-lt, word_sum-ipv4_header sum h))
      ∙ ap finish_checksum (word_sum-ipv4_header sum h)

  -- The checksum that is filled in completes the sum of the header.
  pub header_completed :
      ((header_sum size id s d + compute_checksum (ipv4_header size id 0 s d [])) % 65535 ≡ 0)
      × (0 < header_sum size id s d + compute_checksum (ipv4_header size id 0 s d []))
      × (compute_checksum (ipv4_header size id 0 s d []) < 65536)
  header_completed = rw (header_checksum 0 (omega arith)) (
      rw (add-zero)
        (finish_checksum_completes (header_sum size id s d) (omega (arith, header_sum-lt))))

  pub header_checks :
      compute_checksum
        (ipv4_header size id (compute_checksum (ipv4_header size id 0 s d [])) s d [])
      ≡ 0
  header_checks =
      let (whole, pos, small) = header_completed in
      header_checksum _ small
      ∙ (finish_checksum_iff _ (omega (arith, header_sum-lt))).1 (pos, whole)
