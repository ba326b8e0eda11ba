-- ===== src/Gtpu/Ip.antt =====
-- internal/gtpu/ip.go and internal/gtpu/ip6.go: building and parsing the inner IP packets.
use gpp_server.Common.{ℕ, ◌+◌, ◌*◌, ◌/◌, bit_and, Bool, not, ◌&&◌, ◌||◌}
use gpp_server.Common.{Option, none, some, List, [], ◌∷◌, ◌++◌, length, ltb, ◌==◌, if◌then◌else◌}
use gpp_server.Common.{Outcome, ok, err, ◌>>=◌}
use gpp_server.Common.Bytes.{u16, u32, index, slice, be_uint16, put_uint16, put_uint32}
use gpp_server.Common.Text.{GoString, hex_encode}
use gpp_server.Gtpu.Addr.{Addr, invalid, v4, v6, addr_from_slice}
use gpp_server.Gtpu.Checksum.{ones_complement_sum}

abbrev pub proto_icmp : ℕ
proto_icmp = 1

abbrev pub proto_udp : ℕ
proto_udp = 17

abbrev pub proto_icmpv6 : ℕ
proto_icmpv6 = 58

abbrev pub icmp_echo_reply : ℕ
icmp_echo_reply = 0

abbrev pub icmp_echo_request : ℕ
icmp_echo_request = 8

abbrev pub icmpv6_echo_request : ℕ
icmpv6_echo_request = 128

abbrev pub icmpv6_echo_reply : ℕ
icmpv6_echo_reply = 129

abbrev pub ip_ttl : ℕ
ip_ttl = 64

abbrev pub ipv6_hop_limit : ℕ
ipv6_hop_limit = 64

pub data IpError : Type 0 where
  icmp_family udp_family not_ipv4 ipv4_truncated not_ipv6 empty_packet : IpError
  unknown_version : ℕ → IpError

-- The header that `buildIPv4` fills in, around the value of its checksum field.
abbrev pub ipv4_header : ℕ → List ℕ → List ℕ → ℕ → ℕ → List ℕ
ipv4_header proto src dst total checksum =
    (0x45 ∷ 0 ∷ (put_uint16 (u16 total) ++ (0 ∷ 0 ∷ 0 ∷ 0 ∷ ip_ttl ∷ proto ∷ [])))
    ++ (put_uint16 checksum ++ (src ++ dst))

-- `src` and `dst` are the four octets of `As4`; the checksum is taken while its field is zero.
unfoldable pub build_ipv4 : ℕ → List ℕ → List ℕ → List ℕ → List ℕ
build_ipv4 proto src dst l4 =
    let total = 20 + length l4 in
    let checksum = ones_complement_sum (ipv4_header proto src dst total 0) in
    ipv4_header proto src dst total checksum ++ l4

-- The forty octets in front of `upper`, which is `size` octets long.
abbrev pub pseudo_header : List ℕ → List ℕ → ℕ → ℕ → List ℕ
pseudo_header src dst next_header size =
    src ++ (dst ++ (put_uint32 (u32 size) ++ (0 ∷ 0 ∷ 0 ∷ next_header ∷ [])))

unfoldable pub checksum6 : List ℕ → List ℕ → ℕ → List ℕ → ℕ
checksum6 src dst next_header upper =
    ones_complement_sum (pseudo_header src dst next_header (length upper) ++ upper)

-- `src` and `dst` are the sixteen octets of `As16`.
unfoldable pub build_ipv6 : ℕ → List ℕ → List ℕ → List ℕ → List ℕ
build_ipv6 next_header src dst upper =
    0x60
    ∷ 0
    ∷ 0
    ∷ 0
    ∷ (put_uint16 (u16 (length upper)) ++ (next_header ∷ ipv6_hop_limit ∷ (src ++ (dst ++ upper))))

-- An ICMP or ICMPv6 echo request around the value of its checksum field.
abbrev pub icmp_echo : ℕ → ℕ → ℕ → List ℕ → ℕ → List ℕ
icmp_echo type id seq payload checksum =
    (type ∷ 0 ∷ []) ++ (put_uint16 checksum ++ (put_uint16 id ++ (put_uint16 seq ++ payload)))

abbrev pub udp_datagram : ℕ → ℕ → List ℕ → ℕ → List ℕ
udp_datagram src_port dst_port payload checksum =
    (put_uint16 src_port ++ (put_uint16 dst_port ++ put_uint16 (u16 (8 + length payload))))
    ++ (put_uint16 checksum ++ payload)

unfoldable pub build_icmpv6_echo : List ℕ → List ℕ → ℕ → ℕ → List ℕ → List ℕ
build_icmpv6_echo src dst id seq payload =
    let zeroed = icmp_echo icmpv6_echo_request id seq payload 0 in
    build_ipv6 proto_icmpv6 src dst
      (icmp_echo icmpv6_echo_request id seq payload (checksum6 src dst proto_icmpv6 zeroed))

-- The checksum field of UDP over IPv6: a zero sum is sent as 0xffff.
unfoldable pub udp6_checksum : List ℕ → List ℕ → List ℕ → ℕ
udp6_checksum src dst zeroed =
    let cs = checksum6 src dst proto_udp zeroed in if cs == 0 then 0xffff else cs

unfoldable pub build_udpv6 : List ℕ → List ℕ → ℕ → ℕ → List ℕ → List ℕ
build_udpv6 src dst src_port dst_port payload =
    let zeroed = udp_datagram src_port dst_port payload 0 in
    build_ipv6 proto_udp src dst
      (udp_datagram src_port dst_port payload (udp6_checksum src dst zeroed))

unfoldable pub build_icmp_echo : Addr → Addr → ℕ → ℕ → List ℕ → Outcome IpError (List ℕ)
build_icmp_echo (v4 src) (v4 dst) id seq payload =
    let checksum = ones_complement_sum (icmp_echo icmp_echo_request id seq payload 0) in
    ok (build_ipv4 proto_icmp src dst (icmp_echo icmp_echo_request id seq payload checksum))
build_icmp_echo (v6 src) (v6 dst) id seq payload = ok (build_icmpv6_echo src dst id seq payload)
build_icmp_echo _ _ id seq payload = err icmp_family

unfoldable pub build_udp : Addr → Addr → ℕ → ℕ → List ℕ → Outcome IpError (List ℕ)
build_udp (v4 src) (v4 dst) src_port dst_port payload =
    ok (build_ipv4 proto_udp src dst (udp_datagram src_port dst_port payload 0))
build_udp (v6 src) (v6 dst) src_port dst_port payload =
    ok (build_udpv6 src dst src_port dst_port payload)
build_udp _ _ src_port dst_port payload = err udp_family

pub record InnerPacket : Type 0 where
  pub src : GoString
  pub dst : GoString
  pub protocol : ℕ  -- uint8
  pub icmp_type : ℕ  -- uint8
  pub icmp_id : ℕ  -- uint16
  pub icmp_seq : ℕ  -- uint16
  pub udp_src_port : ℕ  -- uint16
  pub udp_dst_port : ℕ  -- uint16
  pub payload : GoString

abbrev pub inner_packet : GoString → GoString → ℕ → InnerPacket
inner_packet src dst protocol = record {
  src = src;
  dst = dst;
  protocol = protocol;
  icmp_type = 0;
  icmp_id = 0;
  icmp_seq = 0;
  udp_src_port = 0;
  udp_dst_port = 0;
  payload = [];
}

-- The `switch` on the protocol, which `ParseIPv4` and `ParseIPv6` share up to the ICMP number.
unfoldable pub parse_l4 : ℕ → List ℕ → InnerPacket → Outcome IpError InnerPacket
parse_l4 icmp_number l4 p =
    if p.protocol == icmp_number
    then (if ltb (length l4) 8 then ok p else do
      type ← index l4 0
      id_octets ← slice l4 4 6
      id ← be_uint16 id_octets
      seq_octets ← slice l4 6 8
      seq ← be_uint16 seq_octets
      ok (record p { icmp_type = type; icmp_id = id; icmp_seq = seq }))
    else if p.protocol == proto_udp
    then (if ltb (length l4) 8 then ok p else do
      src_octets ← slice l4 0 2
      src_port ← be_uint16 src_octets
      dst_octets ← slice l4 2 4
      dst_port ← be_uint16 dst_octets
      body ← slice l4 8 (length l4)
      ok (record p { udp_src_port = src_port; udp_dst_port = dst_port; payload = hex_encode body }))
    else ok p

-- `AddrFromSlice` with its second result dropped.
abbrev pub addr_or_zero : Option Addr → Addr
addr_or_zero none = invalid
addr_or_zero (some a) = a

module _ (addr_string : Addr → GoString) where
  abbrev pub addr_text : List ℕ → GoString
  addr_text octets = addr_string (addr_or_zero (addr_from_slice octets))

  unfoldable pub parse_ipv4 : List ℕ → Outcome IpError InnerPacket
  parse_ipv4 b = if ltb (length b) 20 then err not_ipv4 else do
    b0 ← index b 0
    if not (b0 / 16 == 4)
        then err not_ipv4
        else if ltb (length b) (bit_and b0 0x0f * 4)
        then err ipv4_truncated
        else do
          src ← slice b 12 16
          dst ← slice b 16 20
          protocol ← index b 9
          l4 ← slice b (bit_and b0 0x0f * 4) (length b)
          parse_l4 proto_icmp l4 (inner_packet (addr_text src) (addr_text dst) protocol)

  unfoldable pub parse_ipv6 : List ℕ → Outcome IpError InnerPacket
  parse_ipv6 b = if ltb (length b) 40 then err not_ipv6 else do
    b0 ← index b 0
    if not (b0 / 16 == 6) then err not_ipv6 else do
      src ← slice b 8 24
      dst ← slice b 24 40
      protocol ← index b 6
      l4 ← slice b 40 (length b)
      parse_l4 proto_icmpv6 l4 (inner_packet (addr_text src) (addr_text dst) protocol)

  unfoldable pub parse_inner : List ℕ → Outcome IpError InnerPacket
  parse_inner b = if ltb (length b) 1 then err empty_packet else do
    b0 ← index b 0
    if b0 / 16 == 4
        then parse_ipv4 b
        else if b0 / 16 == 6
        then parse_ipv6 b
        else err (unknown_version (b0 / 16))

unfoldable pub is_icmp_echo_reply : InnerPacket → Bool
is_icmp_echo_reply p =
    p.protocol == proto_icmp && p.icmp_type == icmp_echo_reply
    || p.protocol == proto_icmpv6 && p.icmp_type == icmpv6_echo_reply
