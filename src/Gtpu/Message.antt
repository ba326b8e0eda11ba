-- ===== src/Gtpu/Message.antt =====
-- internal/gtpu/message.go: the constants, the message types and the three encoders.
use gpp_server.Common.{ℕ, ◌+◌, ◌-◌, ◌*◌, ◌^◌, bit_and, Bool, List, [], ◌∷◌, ◌++◌, Option, length}
use gpp_server.Common.Bytes.{u16, put_uint16, put_uint32}
use gpp_server.Common.Text.{GoString}

abbrev pub msg_echo_request : ℕ
msg_echo_request = 1

abbrev pub msg_echo_response : ℕ
msg_echo_response = 2

abbrev pub msg_error_indication : ℕ
msg_error_indication = 26

abbrev pub msg_gpdu : ℕ
msg_gpdu = 255

abbrev pub flags_gpdu : ℕ
flags_gpdu = 0x30

abbrev pub flags_with_seq : ℕ
flags_with_seq = 0x32

abbrev pub flags_with_ext : ℕ
flags_with_ext = 0x34

abbrev pub ext_pdu_session_container : ℕ
ext_pdu_session_container = 0x85

abbrev pub pdu_type_dl : ℕ
pdu_type_dl = 0

abbrev pub pdu_type_ul : ℕ
pdu_type_ul = 1

abbrev pub ie_recovery : ℕ
ie_recovery = 14

abbrev pub ie_teid_data_i : ℕ
ie_teid_data_i = 16

abbrev pub ie_peer_address : ℕ
ie_peer_address = 133

pub record PduSessionContainer : Type 0 where
  pub pdu_type : ℕ  -- uint8
  pub qfi : ℕ  -- uint8
  pub rqi : Option Bool

pub record Message : Type 0 where
  pub type : ℕ  -- uint8
  pub teid : ℕ  -- uint32
  pub seq : ℕ  -- uint16
  pub has_seq : Bool
  pub payload : List ℕ
  pub pdu_session : Option PduSessionContainer
  pub recovery : Option ℕ
  pub teid_data_i : Option ℕ
  pub peer_address : GoString

-- The buffer is `8 + len(tpdu)` long, so the length field is `uint16(len(tpdu))`.
unfoldable pub encode_gpdu : ℕ → List ℕ → List ℕ
encode_gpdu teid tpdu =
    flags_gpdu ∷ msg_gpdu ∷ (put_uint16 (u16 (8 + length tpdu - 8)) ++ (put_uint32 teid ++ tpdu))

-- Octets 8 to 10 stay zero; the extension header takes octets 11 to 15.
unfoldable pub encode_gpdu_with_qfi : ℕ → ℕ → List ℕ → List ℕ
encode_gpdu_with_qfi teid qfi tpdu =
    flags_with_ext
    ∷ msg_gpdu
    ∷ (put_uint16 (u16 (16 + length tpdu - 8))
        ++ (put_uint32 teid
            ++ (0
                ∷ 0
                ∷ 0
                ∷ ext_pdu_session_container
                ∷ 1
                ∷ (pdu_type_ul * 2 ^ 4)
                ∷ bit_and qfi 0x3f
                ∷ 0
                ∷ tpdu)))

-- Twelve octets: the TEID and octets 10 and 11 stay zero.
unfoldable pub encode_echo_request : ℕ → List ℕ
encode_echo_request seq =
    flags_with_seq
    ∷ msg_echo_request
    ∷ (put_uint16 (u16 (12 - 8)) ++ (put_uint32 0 ++ (put_uint16 seq ++ (0 ∷ 0 ∷ []))))
