-- ===== src/Gtpu/RoundTrip.antt =====
-- internal/gtpu/message.go: `Decode` on what the encoders write.
use gpp_server.Common.{ℕ, ◌+◌, ◌-◌, ◌%◌, ◌<◌, ◌≡◌, arith, bit_and}
use gpp_server.Common.{true, none, some, List, length, take}
use gpp_server.Common.{ok}
use gpp_server.Common.Bytes.{IsByte, uint32-put, uint16-put, low_six}
use gpp_server.Common.Text.{GoString}
use gpp_server.Gtpu.Addr.{Addr}
use gpp_server.Gtpu.Message.{msg_gpdu, msg_echo_request}
use gpp_server.Gtpu.Message.{encode_gpdu, encode_gpdu_with_qfi, encode_echo_request}
use gpp_server.Gtpu.Decode.{decode_pdu_session_container, ext_loop, ie_loop}
use gpp_server.Gtpu.Decode.{message, decode_ies, decode_optional, decode}

module _ (addr_string : Addr → GoString) where
  -- Decoding an encoded G-PDU gives back the TEID and, of the T-PDU, what the 16-bit length field
  -- can count: all of it below 65536 octets.
  pub decode-encode_gpdu :
      (teid : ℕ) (tpdu : List ℕ)
      → teid < 4294967296
      → decode addr_string (encode_gpdu teid tpdu)
        ≡ ok (record (message msg_gpdu teid) { payload = take (length tpdu % 65536) tpdu })
  unfolding decode encode_gpdu decode_optional
  decode-encode_gpdu teid tpdu h = ground (arith, uint32-put teid h)

  -- The same for the uplink encoder with a PDU Session Container: Decode finds the container, with
  -- the low six bits of the QFI, and the T-PDU up to what the length field counts.
  pub decode-encode_gpdu_with_qfi :
      (teid qfi : ℕ) (tpdu : List ℕ)
      → teid < 4294967296
      → IsByte qfi
      → decode addr_string (encode_gpdu_with_qfi teid qfi tpdu)
        ≡ ok (record (message msg_gpdu teid) {
          payload = take ((8 + length tpdu) % 65536 - 8) tpdu;
          pdu_session = some (record { pdu_type = 1; qfi = qfi % 64; rqi = none });
        })
  unfolding decode encode_gpdu_with_qfi decode_optional ext_loop decode_pdu_session_container
  decode-encode_gpdu_with_qfi teid qfi tpdu h k =
      ground (arith, uint32-put teid h, low_six qfi k, low_six (bit_and qfi 0x3f))

  -- An encoded echo request decodes to an echo request with its sequence number and no payload.
  pub decode-encode_echo_request :
      (seq : ℕ)
      → seq < 65536
      → decode addr_string (encode_echo_request seq)
        ≡ ok (record (message msg_echo_request 0) { seq = seq; has_seq = true })
  unfolding decode encode_echo_request decode_optional ext_loop decode_ies ie_loop
  decode-encode_echo_request seq h = ground (arith, uint16-put seq h)
