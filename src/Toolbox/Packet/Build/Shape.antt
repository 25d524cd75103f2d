-- ===== src/Toolbox/Packet/Build/Shape.antt =====
-- The packet that is built, byte by byte.
use nx_reverse.Base.{
  ℕ, ◌+◌, ◌/◌, ◌%◌, ◌≤◌, ◌≡◌, refl, ap, ◌∙◌, [], ◌∷◌, arith, Bytes, ◌++◌, length, replicate,
  replicate-add, length-replicate, some, if◌then◌else◌, ◌==◌,
}
use nx_reverse.Toolbox.Packet.{Ipv4Address, compute_checksum, compute_udp_checksum}
use nx_reverse.Toolbox.Packet.Build.{write, fill_ipv4_header, fill_udp, build_udp_packet}

abbrev pub hi : ℕ → ℕ
hi n = n / 256 % 256

abbrev pub lo : ℕ → ℕ
lo n = n % 256

-- An IPv4 header with a given checksum, in front of what follows it.
abbrev pub ipv4_header : ℕ → ℕ → ℕ → Ipv4Address → Ipv4Address → Bytes → Bytes
ipv4_header size id sum s d rest =
    0x45
    ∷ 0
    ∷ hi size
    ∷ lo size
    ∷ hi id
    ∷ lo id
    ∷ 0x40
    ∷ 0
    ∷ 64
    ∷ 17
    ∷ hi sum
    ∷ lo sum
    ∷ s.b0
    ∷ s.b1
    ∷ s.b2
    ∷ s.b3
    ∷ d.b0
    ∷ d.b1
    ∷ d.b2
    ∷ d.b3
    ∷ rest

-- A UDP header with a given checksum, in front of its payload.
abbrev pub datagram : ℕ → ℕ → ℕ → ℕ → Bytes → Bytes
datagram sp dp size sum payload =
    hi sp ∷ lo sp ∷ hi dp ∷ lo dp ∷ hi size ∷ lo size ∷ hi sum ∷ lo sum ∷ payload

write_over :
    (zeroed payload : Bytes) → length zeroed ≡ length payload → write zeroed 0 payload ≡ payload
unfolding write
write_over [] [] e = refl
write_over (x ∷ zeroed) (b ∷ payload) e = ap (◌∷◌ b) (write_over zeroed payload (omega arith))
write_over (x ∷ zeroed) [] e = absurd (omega arith)
write_over [] (b ∷ payload) e = absurd (omega arith)

header_shape :
    (rest : Bytes) (size id : ℕ) (s d : Ipv4Address)
    → fill_ipv4_header (replicate {A = ℕ} 20 0 ++ rest) size id s d
      ≡ ipv4_header
          (size % 65536)
          id
          (compute_checksum (ipv4_header (size % 65536) id 0 s d []))
          s
          d
          rest
unfolding fill_ipv4_header
header_shape rest size id s d = refl

-- The UDP checksum of a datagram whose checksum field is still zero, as it is sent.
abbrev pub sent_checksum : Ipv4Address → Ipv4Address → ℕ → Bytes → ℕ
sent_checksum s d size udp =
    let computed = compute_udp_checksum s d size udp in if computed == 0 then 0xffff else computed

udp_shape :
    (zeroed payload : Bytes) (size id sum sp dp udp_size : ℕ) (s d : Ipv4Address)
    → fill_udp (ipv4_header size id sum s d (datagram 0 0 0 0 zeroed)) udp_size s d sp dp payload
      ≡ ipv4_header size id sum s d (
          datagram sp dp
            (udp_size % 65536)
            (sent_checksum s d udp_size
              (datagram sp dp (udp_size % 65536) 0 (write zeroed 0 payload)))
            (write zeroed 0 payload))
unfolding fill_udp
udp_shape zeroed payload size id sum sp dp udp_size s d = refl

-- The packet is an IPv4 header and a datagram with their checksums filled in.
abbrev pub packet : ℕ → Ipv4Address → Ipv4Address → ℕ → ℕ → Bytes → Bytes
packet id s d sp dp payload =
    let udp_size = 8 + length payload in
    let size = 20 + udp_size in
    ipv4_header size id (compute_checksum (ipv4_header size id 0 s d [])) s d (
      datagram sp dp udp_size (sent_checksum s d udp_size (datagram sp dp udp_size 0 payload))
        payload)

filled :
    (payload : Bytes) (id sp dp : ℕ) (s d : Ipv4Address)
    → 28 + length payload ≤ 65535
    → fill_udp
        (fill_ipv4_header
          (replicate (20 + (8 + length payload)) 0)
          (20 + (8 + length payload))
          id
          s
          d)
        (8 + length payload)
        s
        d
        sp
        dp
        payload
      ≡ packet id s d sp dp payload
filled payload id sp dp s d fits =
    let n = length payload in
    let small : (20 + (8 + n)) % 65536 ≡ 20 + (8 + n) = omega arith in
    let small_udp : (8 + n) % 65536 ≡ 8 + n = omega arith in
    let zeroed : replicate {A = ℕ} (20 + (8 + n)) 0
        ≡ replicate {A = ℕ} 20 0 ++ (replicate {A = ℕ} 8 0 ++ replicate {A = ℕ} n 0) =
      replicate-add 20 (8 + n) 0 ∙ ap (λ r. replicate {A = ℕ} 20 0 ++ r) (replicate-add 8 n 0) in
    rw
      (
        zeroed,
        header_shape (replicate {A = ℕ} 8 0 ++ replicate {A = ℕ} n 0),
        small,
        udp_shape (replicate {A = ℕ} n 0) payload,
        small_udp,
        write_over (replicate {A = ℕ} n 0) payload (length-replicate n 0),
      )
      refl

-- Where the packet fits the output and both limits, it is built; otherwise nothing is.
pub build_udp_packet_lem :
    (max_inner output_size : ℕ) (s d : Ipv4Address) (sp dp : ℕ) (payload : Bytes) (id : ℕ)
    → 28 + length payload ≤ 65535
    → 28 + length payload ≤ max_inner
    → 28 + length payload ≤ output_size
    → build_udp_packet max_inner output_size s d sp dp payload id
      ≡ some (packet id s d sp dp payload)
unfolding build_udp_packet
build_udp_packet_lem max_inner output_size s d sp dp payload id h1 h2 h3 =
    rw (filled payload id sp dp s d h1) (ground arith)

build_udp_packet_fits :
    (max_inner output_size : ℕ) (s d : Ipv4Address) (sp dp : ℕ) (payload : Bytes) (id : ℕ)
    (p : Bytes)
    → build_udp_packet max_inner output_size s d sp dp payload id ≡ some p
    → (28 + length payload ≤ 65535)
      × (28 + length payload ≤ max_inner)
      × (28 + length payload ≤ output_size)
unfolding build_udp_packet
build_udp_packet_fits max_inner output_size s d sp dp payload id p h = ground arith

-- What is built fits and is `packet`.
pub build_udp_packet-some :
    (max_inner output_size : ℕ) (s d : Ipv4Address) (sp dp : ℕ) (payload : Bytes) (id : ℕ)
    (p : Bytes)
    → build_udp_packet max_inner output_size s d sp dp payload id ≡ some p
    → (28 + length payload ≤ 65535) × (p ≡ packet id s d sp dp payload)
build_udp_packet-some max_inner output_size s d sp dp payload id p h =
    let (fits, inner, room) =
      build_udp_packet_fits max_inner output_size s d sp dp payload id p h in
    (fits, cc (h, build_udp_packet_lem max_inner output_size s d sp dp payload id fits inner room))
