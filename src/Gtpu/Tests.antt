-- ===== src/Gtpu/Tests.antt =====
-- Runs of internal/gtpu, and the theorems at concrete inputs.
use gpp_server.Common.Queues.{queue}
use gpp_server.Common.Maps.{nat_key}
use gpp_server.Gtpu.Endpoint.{Endpoint, Turn, receive_all}
use gpp_server.Gtpu.Fifo.{for_teid, decoded, receive_all-for_teid}
use gpp_server.Common.{ℕ, ◌++◌, ◌%◌, ◌≡◌, ◌≢◌, refl, arith, true, false, none, some}
use gpp_server.Common.{List, [], ◌∷◌, take, drop, ok, err, Returns, ◌>>=◌, inl, inr}
use gpp_server.Common.Bytes.{uint16_of}
use gpp_server.Common.Text.{GoString, hex_encode}
use gpp_server.Gtpu.Addr.{Addr, v4, v6}
use gpp_server.Gtpu.Message.{Message, encode_gpdu, encode_gpdu_with_qfi, encode_echo_request}
use gpp_server.Gtpu.Message.{msg_gpdu, msg_echo_request}
use gpp_server.Gtpu.Decode.{decode, message, decode_optional}
use gpp_server.Gtpu.Decode.{bad_version, decode_ies, ie_loop, read_ie, set_ie}
use gpp_server.Gtpu.Total.{decode-Returns}
use gpp_server.Gtpu.RoundTrip.{decode-encode_gpdu, decode-encode_gpdu_with_qfi}
use gpp_server.Gtpu.RoundTrip.{decode-encode_echo_request}
use gpp_server.Gtpu.Elements.{Element, encode_elements, with_elements, decode_ies-encode_elements}
use gpp_server.Gtpu.Checksum.{Accepted, ones_complement_sum, folded, sum_words}
use gpp_server.Gtpu.Ip.{
  icmp_echo, icmp_echo_request, build_ipv4, build_icmp_echo, build_udp, parse_inner, inner_packet,
}
use gpp_server.Gtpu.Ip.{proto_udp, proto_icmp, proto_icmpv6, build_udpv6, build_icmpv6_echo}
use gpp_server.Gtpu.Packets.{
  AcceptedWithPseudoHeader, build_ipv4_checks, build_icmp_echo_checks, build_icmpv6_echo_checks,
}
use gpp_server.Gtpu.Packets.{build_udpv6_checks}
use gpp_server.Gtpu.Parse.{parse_inner-Returns, parse_inner-build_udp, parse_inner-build_icmp_echo}

-- A stand-in for `netip.Addr.String`.
abbrev show : Addr → GoString
show a = []

-- A restart counter and a peer address behind an error indication's header.
abbrev error_indication : List ℕ
error_indication = 0x30 ∷ 26 ∷ 0 ∷ 9 ∷ 0 ∷ 0 ∷ 0 ∷ 0 ∷ 14 ∷ 7 ∷ 133 ∷ 0 ∷ 4 ∷ 10 ∷ 0 ∷ 0 ∷ 1 ∷ []

decode-error_indication :
    decode show error_indication
    ≡ ok (record (message 26 0) {
      payload = drop 8 error_indication;
      recovery = some 7;
      peer_address = [];
    })
unfolding decode decode_optional decode_ies ie_loop read_ie set_ie
decode-error_indication = refl

decode_version_2 : decode show (0x50 ∷ 1 ∷ 0 ∷ 0 ∷ 0 ∷ 0 ∷ 0 ∷ 0 ∷ []) ≡ err (bad_version 2)
unfolding decode
decode_version_2 = refl

decode-Returns_example : Returns (decode show error_indication)
decode-Returns_example = decode-Returns show error_indication

decode-encode_gpdu_example :
    decode show (encode_gpdu 5 (1 ∷ 2 ∷ []))
    ≡ ok (record (message msg_gpdu 5) { payload = take (2 % 65536) (1 ∷ 2 ∷ []) })
decode-encode_gpdu_example = decode-encode_gpdu show 5 (1 ∷ 2 ∷ []) (omega arith)

decode-encode_gpdu_with_qfi_example :
    decode show (encode_gpdu_with_qfi 5 9 (1 ∷ 2 ∷ []))
    ≡ ok (record (message msg_gpdu 5) {
      payload = 1 ∷ 2 ∷ [];
      pdu_session = some (record { pdu_type = 1; qfi = 9; rqi = none });
    })
decode-encode_gpdu_with_qfi_example =
    decode-encode_gpdu_with_qfi show 5 9 (1 ∷ 2 ∷ []) (omega arith) (omega arith)

decode-encode_echo_request_example :
    decode show (encode_echo_request 7)
    ≡ ok (record (message msg_echo_request 0) { seq = 7; has_seq = true })
decode-encode_echo_request_example = decode-encode_echo_request show 7 (omega arith)

abbrev two_elements : List Element
two_elements = (14, 7 ∷ []) ∷ (133, 10 ∷ 0 ∷ 0 ∷ 1 ∷ []) ∷ []

decode_ies-encode_elements_example :
    decode_ies show (message 26 0) (encode_elements two_elements)
    ≡ ok (with_elements show (message 26 0) two_elements)
decode_ies-encode_elements_example =
    decode_ies-encode_elements show (message 26 0) two_elements (inl refl, (inr (omega arith), tt))

abbrev host_a : List ℕ
host_a = 10 ∷ 0 ∷ 0 ∷ 1 ∷ []

abbrev host_b : List ℕ
host_b = 10 ∷ 0 ∷ 0 ∷ 2 ∷ []

abbrev host_c : List ℕ
host_c = 0x20 ∷ 1 ∷ 0xd ∷ 0xb8 ∷ 0 ∷ 0 ∷ 0 ∷ 0 ∷ 0 ∷ 0 ∷ 0 ∷ 0 ∷ 0 ∷ 0 ∷ 0 ∷ 1 ∷ []

build_ipv4_checks_example :
    Accepted (take 20 (build_ipv4 proto_udp host_a host_b (1 ∷ [])))
    × (drop 20 (build_ipv4 proto_udp host_a host_b (1 ∷ [])) ≡ 1 ∷ [])
build_ipv4_checks_example =
    build_ipv4_checks proto_udp host_a host_b (omega arith) (omega arith) (omega arith) (1 ∷ [])

-- Echo requests, and a datagram, as they are built.
abbrev echo4 : List ℕ
echo4 =
    let zeroed = icmp_echo icmp_echo_request 1 2 (9 ∷ []) 0 in
    build_ipv4 proto_icmp host_a host_b
      (icmp_echo icmp_echo_request 1 2 (9 ∷ []) (ones_complement_sum zeroed))

abbrev echo6 : List ℕ
echo6 = build_icmpv6_echo host_c host_c 1 2 (9 ∷ [])

abbrev datagram6 : List ℕ
datagram6 = build_udpv6 host_c host_c 53 54 (9 ∷ [])

-- The octets on the wire.
echo4_octets : drop 20 echo4 ≡ 8 ∷ 0 ∷ 0xee ∷ 0xfc ∷ 0 ∷ 1 ∷ 0 ∷ 2 ∷ 9 ∷ []
unfolding build_ipv4 ones_complement_sum folded sum_words
echo4_octets = refl

build_icmp_echo_checks_example : Accepted (take 20 echo4) × Accepted (drop 20 echo4)
unfolding build_icmp_echo
build_icmp_echo_checks_example =
    build_icmp_echo_checks host_a host_b 1 2 (9 ∷ []) echo4 (omega arith) (omega arith)
      (omega arith) (omega arith) refl

build_icmpv6_echo_checks_example :
    AcceptedWithPseudoHeader host_c host_c proto_icmpv6 (drop 40 echo6)
unfolding build_icmp_echo
build_icmpv6_echo_checks_example =
    build_icmpv6_echo_checks host_c host_c 1 2 (9 ∷ []) echo6 (omega arith) (omega arith)
      (omega arith) (omega arith) refl

build_udpv6_checks_example :
    AcceptedWithPseudoHeader host_c host_c proto_udp (drop 40 datagram6)
    × (uint16_of (drop 6 (drop 40 datagram6)) ≢ 0)
unfolding build_udp
build_udpv6_checks_example =
    build_udpv6_checks host_c host_c 53 54 (9 ∷ []) datagram6 (omega arith) (omega arith)
      (omega arith) (omega arith) refl

parse_inner-Returns_example : Returns (parse_inner show (0x45 ∷ 0 ∷ []))
parse_inner-Returns_example = parse_inner-Returns show (0x45 ∷ 0 ∷ [])

parse_inner-build_udp_example :
    (build_udp (v4 host_a) (v4 host_b) 53 54 (9 ∷ []) >>= parse_inner show)
    ≡ ok (record (inner_packet [] [] proto_udp) {
      udp_src_port = 53;
      udp_dst_port = 54;
      payload = hex_encode (9 ∷ []);
    })
parse_inner-build_udp_example =
    parse_inner-build_udp show (v4 host_a) (v4 host_b) 53 54 (9 ∷ []) (omega arith) (omega arith)
      (omega arith)

parse_inner-build_icmp_echo_example :
    (build_icmp_echo (v6 host_c) (v6 host_c) 1 2 (9 ∷ []) >>= parse_inner show)
    ≡ ok (record (inner_packet [] [] proto_icmpv6) { icmp_type = 128; icmp_id = 1; icmp_seq = 2 })
parse_inner-build_icmp_echo_example =
    parse_inner-build_icmp_echo show (v6 host_c) (v6 host_c) 1 2 (9 ∷ []) (omega arith)
      (omega arith) (omega arith)

-- A queued G-PDU, and a closed context.
abbrev start : Endpoint
start = record { closed = false; gpdus = []; control = [] }

abbrev gpdu : List ℕ
gpdu = 0x30 ∷ 255 ∷ 0 ∷ 1 ∷ 0 ∷ 0 ∷ 0 ∷ 7 ∷ 42 ∷ []

abbrev queued : Message
queued = record (message msg_gpdu 7) { payload = 42 ∷ [] }

receive_all-for_teid_example :
    (e1 : Endpoint) × (receive_all show start (gpdu ∷ error_indication ∷ []) ≡ ok e1)
    × ((teid : ℕ)
        → queue teid e1.gpdus
          ≡ queue teid start.gpdus ++ for_teid teid (decoded show (gpdu ∷ error_indication ∷ [])))
receive_all-for_teid_example = receive_all-for_teid show start (gpdu ∷ error_indication ∷ [])

abbrev turns : List Turn
turns =
    record { arrived = error_indication ∷ []; ended = false }
    ∷ record { arrived = gpdu ∷ gpdu ∷ []; ended = false }
    ∷ []
