-- ===== src/Gtpu/Packets.antt =====
-- internal/gtpu/ip.go and ip6.go: the checksums of the packets that are built.
use gpp_server.Common.{ℕ, ◌+◌, ◌%◌, ◌<◌, ◌≡◌, ◌≢◌, refl, arith, sym, ap, ◌∙◌, ◌⊎◌, inl}
use gpp_server.Common.{List, [], ◌∷◌, ◌++◌, length, All, All-append, take, drop, length-append}
use gpp_server.Common.{take-append, drop-append, drop_add, ok, ok-injective}
use mathlib.Core.Path.{subst}
use mathlib.Core.List.{append_assoc}
use gpp_server.Common.Bytes.{IsByte, u16, u32, put_uint16, put_uint32, uint16_of}
use gpp_server.Gtpu.Addr.{v4, v6}
use gpp_server.Gtpu.Checksum.{
  ones_complement_sum, Accepted, checksum_field, ones_complement_sum_bound, word_sum_bound,
}
use gpp_server.Gtpu.Ip.{
  ipv4_header, build_ipv4, checksum6, pseudo_header, build_ipv6, icmp_echo, udp_datagram,
}
use gpp_server.Gtpu.Ip.{build_icmpv6_echo, udp6_checksum, build_udpv6, build_icmp_echo, build_udp}
use gpp_server.Gtpu.Ip.{proto_icmp, proto_udp, proto_icmpv6, icmp_echo_request}

-- The octets of an address.
abbrev pub IsOctets : ℕ → List ℕ → Type 0
IsOctets n b = (length b ≡ n) × All IsByte b

-- A checksum field over octets, few enough for the 32-bit sum.
field_checks :
    (a b : List ℕ) (c : ℕ)
    → length a % 2 ≡ 0
    → All IsByte a
    → All IsByte b
    → length a + length b < 131000
    → (c ≡ ones_complement_sum (a ++ (0 ∷ 0 ∷ b)))
      ⊎ ((c ≡ 65535) × (ones_complement_sum (a ++ (0 ∷ 0 ∷ b)) ≡ 0))
    → Accepted (a ++ (put_uint16 c ++ b))
field_checks a b c even ha hb short is =
    checksum_field a b c even
      (omega (
        arith,
        word_sum_bound (a ++ (0 ∷ 0 ∷ b))
            (All-append IsByte a _ ha (omega arith, (omega arith, hb))),
        length-append {0} a (0 ∷ 0 ∷ b),
      ))
      is

module _ (proto : ℕ) (src dst : List ℕ) (p : IsByte proto) (s : IsOctets 4 src)
    (d : IsOctets 4 dst) where
  ipv4_header_checks :
      (total : ℕ)
      → Accepted (
          ipv4_header proto src dst total (ones_complement_sum (ipv4_header proto src dst total 0)))
  ipv4_header_checks total =
      field_checks (0x45 ∷ 0 ∷ (put_uint16 (u16 total) ++ (0 ∷ 0 ∷ 0 ∷ 0 ∷ 64 ∷ proto ∷ [])))
        (src ++ dst) _ refl (omega arith) (All-append IsByte src dst s.1 d.1)
        (omega (arith, length-append {0} src dst)) (inl refl)

  length-ipv4_header : (total c : ℕ) → length (ipv4_header proto src dst total c) ≡ 20
  length-ipv4_header total c = omega (arith, length-append {0} src dst)

  take-build_ipv4 :
      (l4 : List ℕ)
      → (take 20 (build_ipv4 proto src dst l4)
          ≡ ipv4_header proto src dst
              (20 + length l4)
              (ones_complement_sum (ipv4_header proto src dst (20 + length l4) 0)))
        × (drop 20 (build_ipv4 proto src dst l4) ≡ l4)
  unfolding build_ipv4
  take-build_ipv4 l4 =
      let total : ℕ = 20 + length l4 in
      let c : ℕ = ones_complement_sum (ipv4_header proto src dst total 0) in
      let header : List ℕ = ipv4_header proto src dst total c in
      (
        ap (λ (n : ℕ). take n (header ++ l4)) (sym (length-ipv4_header total c))
            ∙ take-append header l4,
        ap (λ (n : ℕ). drop n (header ++ l4)) (sym (length-ipv4_header total c))
            ∙ drop-append header l4,
      )

  -- A built IPv4 packet has a header whose 16-bit words add up to a positive multiple of 65535, as
  -- RFC 1071 asks, in front of the payload, for addresses of four octets.
  pub build_ipv4_checks :
      (l4 : List ℕ)
      → Accepted (take 20 (build_ipv4 proto src dst l4))
        × (drop 20 (build_ipv4 proto src dst l4) ≡ l4)
  build_ipv4_checks l4 =
      let (front, back) = take-build_ipv4 l4 in
      (subst Accepted (sym front) (ipv4_header_checks (20 + length l4)), back)

icmp_echo_checks :
    (type id seq : ℕ) (payload : List ℕ)
    → IsByte type
    → All IsByte payload
    → length payload < 65536
    → Accepted
        (icmp_echo type id seq payload (ones_complement_sum (icmp_echo type id seq payload 0)))
icmp_echo_checks type id seq payload t all short =
    field_checks (type ∷ 0 ∷ []) (put_uint16 id ++ (put_uint16 seq ++ payload)) _ refl (omega arith)
      (omega arith, (omega arith, (omega arith, (omega arith, all)))) (omega arith) (inl refl)

-- An ICMP echo request over IPv4 has two right checksums: the 16-bit words of its IP header and
-- those of its ICMP message add up to positive multiples of 65535, as RFC 1071 asks, for addresses
-- of four octets and a payload of fewer than 65536.
pub build_icmp_echo_checks :
    (src dst : List ℕ) (id seq : ℕ) (payload packet : List ℕ)
    → IsOctets 4 src
    → IsOctets 4 dst
    → All IsByte payload
    → length payload < 65536
    → build_icmp_echo (v4 src) (v4 dst) id seq payload ≡ ok packet
    → Accepted (take 20 packet) × Accepted (drop 20 packet)
unfolding build_icmp_echo
build_icmp_echo_checks src dst id seq payload packet s d all short e =
    let msg : List ℕ =
      icmp_echo icmp_echo_request id seq payload
        (ones_complement_sum (icmp_echo icmp_echo_request id seq payload 0)) in
    let (front, back) = build_ipv4_checks proto_icmp src dst (omega arith) s d msg in
    let built : packet ≡ build_ipv4 proto_icmp src dst msg = sym (ok-injective e) in
    (
      subst (λ (q : List ℕ). Accepted (take 20 q)) (sym built) front,
      subst Accepted (sym (ap (λ (q : List ℕ). drop 20 q) built ∙ back))
          (icmp_echo_checks icmp_echo_request id seq payload (omega arith) all short),
    )

-- A receiver's check with the pseudo-header of RFC 8200 §8.1: the addresses, the length of the
-- upper-layer packet in 32 bits, three zero octets and the number of its protocol.
abbrev pub AcceptedWithPseudoHeader : List ℕ → List ℕ → ℕ → List ℕ → Type 0
AcceptedWithPseudoHeader src dst proto upper =
    Accepted ((src ++ (dst ++ (put_uint32 (length upper) ++ (0 ∷ 0 ∷ 0 ∷ proto ∷ [])))) ++ upper)

module _ (src dst : List ℕ) (proto : ℕ) (s : IsOctets 16 src) (d : IsOctets 16 dst)
    (p : IsByte proto) where
  pseudo_header_shape :
      (size : ℕ)
      → (length (pseudo_header src dst proto size) ≡ 40)
        × All IsByte (pseudo_header src dst proto size)
  pseudo_header_shape size = (
    omega (
      arith,
      length-append {0} src (dst ++ (put_uint32 (u32 size) ++ (0 ∷ 0 ∷ 0 ∷ proto ∷ []))),
      length-append {0} dst (put_uint32 (u32 size) ++ (0 ∷ 0 ∷ 0 ∷ proto ∷ [])),
    ),
    All-append IsByte src _ s.1 (All-append IsByte dst _ d.1 (omega arith)),
  )

  checksum6_checks :
      (a b : List ℕ) (c : ℕ)
      → length a % 2 ≡ 0
      → All IsByte a
      → All IsByte b
      → length a + length b < 130000
      → (c ≡ checksum6 src dst proto (a ++ (0 ∷ 0 ∷ b)))
        ⊎ ((c ≡ 65535) × (checksum6 src dst proto (a ++ (0 ∷ 0 ∷ b)) ≡ 0))
      → AcceptedWithPseudoHeader src dst proto (a ++ (put_uint16 c ++ b))
  unfolding checksum6
  checksum6_checks a b c even ha hb short is =
      subst
        (λ (n : ℕ). Accepted (
          (src ++ (dst ++ (put_uint32 n ++ (0 ∷ 0 ∷ 0 ∷ proto ∷ []))))
          ++ (a ++ (put_uint16 c ++ b))))
        (fits ∙ sym same)
        (subst Accepted (append_assoc pseudo a _) (
          field_checks (pseudo ++ a) b c (omega (arith, length-append {0} pseudo a, shape.0))
            (All-append IsByte pseudo a shape.1 ha) hb
            (omega (arith, length-append {0} pseudo a, shape.0))
            (rw (← append_assoc pseudo a (0 ∷ 0 ∷ b)) at is)))
    where
      size : ℕ
      size = length (a ++ (0 ∷ 0 ∷ b))

      same : length (a ++ (put_uint16 c ++ b)) ≡ size
      same = omega (arith, length-append {0} a (put_uint16 c ++ b), length-append {0} a (0 ∷ 0 ∷ b))

      fits : u32 size ≡ size
      fits = omega (arith, length-append {0} a (0 ∷ 0 ∷ b))

      pseudo : List ℕ
      pseudo = pseudo_header src dst proto size

      shape : (length pseudo ≡ 40) × All IsByte pseudo
      shape = pseudo_header_shape size

drop-build_ipv6 :
    (next_header : ℕ) (src dst upper : List ℕ)
    → length src ≡ 16
    → length dst ≡ 16
    → drop 40 (build_ipv6 next_header src dst upper) ≡ upper
unfolding build_ipv6
drop-build_ipv6 next_header src dst upper s d =
    ap (λ (n : ℕ). drop n (src ++ (dst ++ upper))) both
    ∙ drop_add (length src) (length dst) (src ++ (dst ++ upper))
    ∙ ap (λ (t : List ℕ). drop (length dst) t) (drop-append src (dst ++ upper))
    ∙ drop-append dst upper
  where
    both : 32 ≡ length src + length dst
    both = omega arith

-- An ICMPv6 echo request has a right checksum: the 16-bit words of the pseudo-header of RFC 8200 and
-- of its message add up to a positive multiple of 65535, for addresses of sixteen octets and a
-- payload of fewer than 65536.
pub build_icmpv6_echo_checks :
    (src dst : List ℕ) (id seq : ℕ) (payload packet : List ℕ)
    → IsOctets 16 src
    → IsOctets 16 dst
    → All IsByte payload
    → length payload < 65536
    → build_icmp_echo (v6 src) (v6 dst) id seq payload ≡ ok packet
    → AcceptedWithPseudoHeader src dst proto_icmpv6 (drop 40 packet)
unfolding build_icmp_echo build_icmpv6_echo
build_icmpv6_echo_checks src dst id seq payload packet s d all short e =
    let upper =
      ap (λ (q : List ℕ). drop 40 q) (sym (ok-injective e))
      ∙ drop-build_ipv6 proto_icmpv6 src dst _ s.0 d.0 in
    subst (AcceptedWithPseudoHeader src dst proto_icmpv6) (sym upper) (
      checksum6_checks src dst proto_icmpv6 s d (omega arith) (128 ∷ 0 ∷ [])
        (put_uint16 id ++ (put_uint16 seq ++ payload)) _ refl (omega arith)
        (omega arith, (omega arith, (omega arith, (omega arith, all)))) (omega arith) (inl refl))

udp6_checksum_cases :
    (src dst zeroed : List ℕ)
    → let cs = checksum6 src dst proto_udp zeroed in
      ((udp6_checksum src dst zeroed ≡ cs) ⊎ ((udp6_checksum src dst zeroed ≡ 65535) × (cs ≡ 0)))
      × (0 < udp6_checksum src dst zeroed)
      × (udp6_checksum src dst zeroed < 65536)
unfolding udp6_checksum checksum6
udp6_checksum_cases src dst zeroed =
    ground
      (arith, ones_complement_sum_bound (pseudo_header src dst proto_udp (length zeroed) ++ zeroed))

-- A UDP datagram over IPv6 has a right checksum: the 16-bit words of the pseudo-header of RFC 8200
-- and of the datagram add up to a positive multiple of 65535, for addresses of sixteen octets and a
-- payload of fewer than 65528; and the field is never zero, which would say that there is none.
pub build_udpv6_checks :
    (src dst : List ℕ) (src_port dst_port : ℕ) (payload packet : List ℕ)
    → IsOctets 16 src
    → IsOctets 16 dst
    → All IsByte payload
    → length payload < 65528
    → build_udp (v6 src) (v6 dst) src_port dst_port payload ≡ ok packet
    → AcceptedWithPseudoHeader src dst proto_udp (drop 40 packet)
      × (uint16_of (drop 6 (drop 40 packet)) ≢ 0)
unfolding build_udp build_udpv6
build_udpv6_checks src dst src_port dst_port payload packet s d all short e =
    let ports : List ℕ =
      put_uint16 src_port ++ (put_uint16 dst_port ++ put_uint16 (u16 (8 + length payload))) in
    let c : ℕ = udp6_checksum src dst (udp_datagram src_port dst_port payload 0) in
    let (which, positive, small) =
      udp6_checksum_cases src dst (udp_datagram src_port dst_port payload 0) in
    let upper : drop 40 packet ≡ udp_datagram src_port dst_port payload c =
      ap (λ (q : List ℕ). drop 40 q) (sym (ok-injective e))
      ∙ drop-build_ipv6 proto_udp src dst _ s.0 d.0 in
    (
      subst (AcceptedWithPseudoHeader src dst proto_udp) (sym upper) (
          checksum6_checks src dst proto_udp s d (omega arith) ports payload c refl (omega arith)
            all (omega arith) which),
      rw upper (omega arith),
    )
