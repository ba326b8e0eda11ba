-- ===== src/Gtpu/Parse.antt =====
-- internal/gtpu/ip.go and ip6.go: parsing inner packets, on any input and on built packets.
use gpp_server.Common.{ℕ, ◌+◌, ◌-◌, ◌<◌, ◌≡◌, arith, ap, ◌∙◌, ◌≢◌}
use gpp_server.Common.{
  List, ◌++◌, length, take, drop, length-append, take_all, take_front, drop_front,
}
use gpp_server.Common.{drop_add, ok, Returns, ◌>>=◌}
use gpp_server.Common.Bytes.{uint16-put, sub_list, length-sub_list}
use gpp_server.Common.Text.{GoString, hex_encode}
use gpp_server.Gtpu.Addr.{Addr, v4, v6}
use gpp_server.Gtpu.Ip.{build_ipv4, build_ipv6, icmp_echo, udp_datagram}
use gpp_server.Gtpu.Ip.{build_icmpv6_echo, build_udpv6, build_icmp_echo, build_udp}
use gpp_server.Gtpu.Ip.{proto_icmp, proto_udp, proto_icmpv6, icmp_echo_request, icmpv6_echo_request}
use gpp_server.Gtpu.Ip.{InnerPacket, inner_packet, parse_l4, parse_ipv4, parse_ipv6, parse_inner}
use mathlib.Core.List.{append_assoc}

parse_l4-Returns :
    (icmp_number : ℕ) (l4 : List ℕ) (p : InnerPacket) → Returns (parse_l4 icmp_number l4 p)
unfolding parse_l4
parse_l4-Returns icmp_number l4 p = ground (
  arith,
  length-sub_list l4 4 6,
  length-sub_list l4 6 8,
  length-sub_list l4 0 2,
  length-sub_list l4 2 4,
)

module _ (addr_string : Addr → GoString) (b : List ℕ) where
  parse_ipv4-Returns : Returns (parse_ipv4 addr_string b)
  unfolding parse_ipv4
  parse_ipv4-Returns = grind (arith, parse_l4-Returns)

  parse_ipv6-Returns : Returns (parse_ipv6 addr_string b)
  unfolding parse_ipv6
  parse_ipv6-Returns = grind (arith, parse_l4-Returns)

  -- Parsing any octet sequence at all ends with a packet or an error value, with no index or slice
  -- expression out of range.
  pub parse_inner-Returns : Returns (parse_inner addr_string b)
  unfolding parse_inner
  parse_inner-Returns = ground (arith, parse_ipv4-Returns, parse_ipv6-Returns)

-- The slices of a built IPv4 packet.
ipv4_slices :
    (proto : ℕ) (src dst l4 : List ℕ)
    → length src ≡ 4
    → length dst ≡ 4
    → let b = build_ipv4 proto src dst l4 in
      (length b ≡ 20 + length l4)
      × (sub_list b 12 16 ≡ src)
      × (sub_list b 16 20 ≡ dst)
      × (sub_list b 20 (length b) ≡ l4)
unfolding build_ipv4
ipv4_slices proto src dst l4 s d = (
  size,
  ap (λ (t : List ℕ). take 4 t) tail ∙ take_front 4 src _ s,
  ap (λ (t : List ℕ). take 4 (drop 4 t)) tail
      ∙ ap (λ (t : List ℕ). take 4 t) (drop_front 4 src _ s)
      ∙ take_front 4 dst l4 d,
  ap (λ (t : List ℕ). take (length (build_ipv4 proto src dst l4) - 20) t)
        (drop_front 8 (src ++ dst) l4 (omega (arith, length-append {0} src dst)))
      ∙ take_all _ l4 (omega (arith, size)),
)
  where
    tail : (src ++ dst) ++ l4 ≡ src ++ (dst ++ l4)
    tail = append_assoc src dst l4

    size : length (build_ipv4 proto src dst l4) ≡ 20 + length l4
    size = omega (arith, length-append {0} (src ++ dst) l4, length-append {0} src dst)

ipv6_slices :
    (next_header : ℕ) (src dst upper : List ℕ)
    → length src ≡ 16
    → length dst ≡ 16
    → let b = build_ipv6 next_header src dst upper in
      (length b ≡ 40 + length upper)
      × (sub_list b 8 24 ≡ src)
      × (sub_list b 24 40 ≡ dst)
      × (sub_list b 40 (length b) ≡ upper)
unfolding build_ipv6
ipv6_slices next_header src dst upper s d = (
  size,
  take_front 16 src _ s,
  ap (λ (t : List ℕ). take 16 t) (drop_front 16 src _ s) ∙ take_front 16 dst upper d,
  ap (λ (t : List ℕ). take (length (build_ipv6 next_header src dst upper) - 40) t)
        (drop_add 16 16 (src ++ (dst ++ upper))
          ∙ ap (λ (t : List ℕ). drop 16 t) (drop_front 16 src _ s)
          ∙ drop_front 16 dst upper d)
      ∙ take_all _ upper (omega (arith, size)),
)
  where
    size : length (build_ipv6 next_header src dst upper) ≡ 40 + length upper
    size = omega (arith, length-append {0} src (dst ++ upper), length-append {0} dst upper)

-- Two well-formed addresses of one family.
abbrev pub SameFamily : Addr → Addr → Type 0
SameFamily (v4 s) (v4 d) = (length s ≡ 4) × (length d ≡ 4)
SameFamily (v6 s) (v6 d) = (length s ≡ 16) × (length d ≡ 16)
SameFamily _ _ = ⊥

-- The protocol number and the message type of an echo request from such an address.
abbrev pub icmp_protocol : Addr → ℕ
icmp_protocol (v6 s) = proto_icmpv6
icmp_protocol _ = proto_icmp

abbrev pub echo_type : Addr → ℕ
echo_type (v6 s) = icmpv6_echo_request
echo_type _ = icmp_echo_request

parse_l4-udp :
    (icmp_number src_port dst_port checksum : ℕ) (payload : List ℕ) (a b : GoString)
    → icmp_number ≢ proto_udp
    → src_port < 65536
    → dst_port < 65536
    → parse_l4 icmp_number
        (udp_datagram src_port dst_port payload checksum)
        (inner_packet a b proto_udp)
      ≡ ok (record (inner_packet a b proto_udp) {
        udp_src_port = src_port;
        udp_dst_port = dst_port;
        payload = hex_encode payload;
      })
unfolding parse_l4
parse_l4-udp icmp_number src_port dst_port checksum payload a b n hs hd = ground (
  arith,
  uint16-put src_port hs,
  uint16-put dst_port hd,
  take_all (8 + length payload - 8) payload (omega arith),
)

parse_l4-icmp :
    (icmp_number type id seq checksum : ℕ) (payload : List ℕ) (a b : GoString)
    → id < 65536
    → seq < 65536
    → parse_l4 icmp_number (icmp_echo type id seq payload checksum) (inner_packet a b icmp_number)
      ≡ ok
          (record (inner_packet a b icmp_number) { icmp_type = type; icmp_id = id; icmp_seq = seq })
unfolding parse_l4
parse_l4-icmp icmp_number type id seq checksum payload a b hi hs =
    ground (arith, uint16-put id hi, uint16-put seq hs)

module _ (addr_string : Addr → GoString) where
  parse-build_ipv4 :
      (proto : ℕ) (src dst l4 : List ℕ)
      → length src ≡ 4
      → length dst ≡ 4
      → parse_inner addr_string (build_ipv4 proto src dst l4)
        ≡ parse_l4 proto_icmp l4 (inner_packet (addr_string (v4 src)) (addr_string (v4 dst)) proto)
  unfolding parse_inner parse_ipv4 build_ipv4
  parse-build_ipv4 proto src dst l4 s d = ground (arith, ipv4_slices proto src dst l4 s d)

  parse-build_ipv6 :
      (next_header : ℕ) (src dst upper : List ℕ)
      → length src ≡ 16
      → length dst ≡ 16
      → parse_inner addr_string (build_ipv6 next_header src dst upper)
        ≡ parse_l4 proto_icmpv6 upper
            (inner_packet (addr_string (v6 src)) (addr_string (v6 dst)) next_header)
  unfolding parse_inner parse_ipv6 build_ipv6
  parse-build_ipv6 next_header src dst upper s d =
      ground (arith, ipv6_slices next_header src dst upper s d)

  -- Parsing a built UDP packet, of either IP version, gives back its addresses, ports and payload.
  pub parse_inner-build_udp :
      (src dst : Addr) (src_port dst_port : ℕ) (payload : List ℕ)
      → SameFamily src dst
      → src_port < 65536
      → dst_port < 65536
      → (build_udp src dst src_port dst_port payload >>= parse_inner addr_string)
        ≡ ok (record (inner_packet (addr_string src) (addr_string dst) proto_udp) {
          udp_src_port = src_port;
          udp_dst_port = dst_port;
          payload = hex_encode payload;
        })
  unfolding build_udp build_udpv6
  parse_inner-build_udp (v4 s) (v4 d) sp dp payload (hs, hd) h k =
      parse-build_ipv4 proto_udp s d _ hs hd
      ∙ parse_l4-udp proto_icmp sp dp 0 payload _ _ (omega arith) h k
  parse_inner-build_udp (v6 s) (v6 d) sp dp payload (hs, hd) h k =
      parse-build_ipv6 proto_udp s d _ hs hd
      ∙ parse_l4-udp proto_icmpv6 sp dp _ payload _ _ (omega arith) h k
  parse_inner-build_udp _ _ sp dp payload no_family h k = absurd no_family

  -- Parsing a built echo request, of either IP version, gives back its addresses, identifier and
  -- sequence number, under the ICMP number of that version.
  pub parse_inner-build_icmp_echo :
      (src dst : Addr) (id seq : ℕ) (payload : List ℕ)
      → SameFamily src dst
      → id < 65536
      → seq < 65536
      → (build_icmp_echo src dst id seq payload >>= parse_inner addr_string)
        ≡ ok (record (inner_packet (addr_string src) (addr_string dst) (icmp_protocol src)) {
          icmp_type = echo_type src;
          icmp_id = id;
          icmp_seq = seq;
        })
  unfolding build_icmp_echo build_icmpv6_echo
  parse_inner-build_icmp_echo (v4 s) (v4 d) id seq payload (hs, hd) h k =
      parse-build_ipv4 proto_icmp s d _ hs hd
      ∙ parse_l4-icmp proto_icmp icmp_echo_request id seq _ payload _ _ h k
  parse_inner-build_icmp_echo (v6 s) (v6 d) id seq payload (hs, hd) h k =
      parse-build_ipv6 proto_icmpv6 s d _ hs hd
      ∙ parse_l4-icmp proto_icmpv6 icmpv6_echo_request id seq _ payload _ _ h k
  parse_inner-build_icmp_echo _ _ id seq payload no_family h k = absurd no_family
