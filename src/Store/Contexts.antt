-- ===== src/Store/Contexts.antt =====
-- internal/store: the records of gnb_context.go, gnb_ue_context.go, enb_context.go and
-- enb_ue_context.go. A pointer is a number, an address in `World`.
use gpp_server.Common.{ℕ, Bool, Option, List, if◌then◌else◌, ◌==◌}
use gpp_server.Common.Text.{GoString}

pub record SliceConfig : Type 0 where
  pub sst : ℕ
  pub sd : GoString

pub record GnbContext : Type 0 where
  pub id : GoString
  pub mcc : GoString
  pub mnc : GoString
  pub sst : ℕ
  pub sd : GoString
  pub tac : GoString
  pub gnb_id : GoString
  pub gnb_id_bit_length : ℕ
  pub name : GoString
  pub n3_addr : GoString
  pub slices : List SliceConfig
  pub ues : List (GoString × ℕ)  -- to the address of a `UeContext`
  pub next_ran_ue_id : ℕ  -- int64

pub record EnbContext : Type 0 where
  pub id : GoString
  pub mcc : GoString
  pub mnc : GoString
  pub tac : GoString
  pub enb_id : GoString
  pub enb_id_bit_length : ℕ
  pub name : GoString
  pub n3_addr : GoString
  pub ues : List (GoString × ℕ)  -- to the address of a `UeEpsContext`
  pub next_enb_ue_id : ℕ  -- uint32

pub record PduSessionInfo : Type 0 where
  pub pdu_session_id : ℕ  -- uint8
  pub dnn : GoString
  pub n3_gnb_ip : GoString
  pub dl_teid : ℕ  -- uint32
  pub qfi : ℕ  -- uint8
  pub ul_teid : ℕ  -- uint32
  pub upf_ip : GoString
  pub ue_ip : GoString

-- The identity, capability and GUTI structs of the NAS library stand as their octets.
pub record UeContext : Type 0 where
  pub id : GoString
  pub supi : GoString
  pub msin : GoString
  pub mcc : GoString
  pub mnc : GoString
  pub routing_indicator : GoString
  pub k : GoString
  pub opc : GoString
  pub amf : GoString
  pub sqn : GoString
  pub protection_scheme : GoString
  pub public_key_id : GoString
  pub public_key_hex : GoString
  pub suci : List ℕ
  pub suci_string : GoString
  pub ran_ue_ngap_id : ℕ  -- int64
  pub amf_ue_ngap_id : ℕ  -- int64
  pub ue_security_capability : List ℕ
  pub ciphering_alg : ℕ  -- uint8
  pub integrity_alg : ℕ  -- uint8
  pub knas_enc : List ℕ
  pub knas_int : List ℕ
  pub kamf : List ℕ
  pub ng_ksi : ℕ  -- uint8
  pub ul_count : ℕ  -- uint32
  pub dl_count : ℕ  -- uint32
  pub security_active : Bool
  pub last_uplink_nas : List ℕ
  pub rand : List ℕ
  pub autn : List ℕ
  pub dnn : GoString
  pub pdu_session_id : ℕ  -- uint8
  pub pdu_session_type : ℕ  -- uint8
  pub sst : ℕ
  pub sd : GoString
  pub pdu_sessions : List (ℕ × PduSessionInfo)
  pub guti : Option (List ℕ)
  pub imeisv : GoString

pub record EpsBearer : Type 0 where
  pub ebi : ℕ  -- uint8
  pub pti : ℕ  -- uint8
  pub apn : GoString
  pub ue_ip : GoString
  pub ul_teid : ℕ  -- uint32
  pub sgw_ip : GoString
  pub dl_teid : ℕ  -- uint32

pub record UeEpsContext : Type 0 where
  pub id : GoString
  pub imsi : GoString
  pub imeisv : GoString
  pub k : GoString
  pub opc : GoString
  pub amf : GoString
  pub sqn : GoString
  pub enb_ue_s1ap_id : ℕ  -- uint32
  pub mme_ue_s1ap_id : ℕ  -- uint32
  pub ue_network_capability : Option (List ℕ)
  pub rand : List ℕ
  pub autn : List ℕ
  pub kasme : List ℕ
  pub knas_enc : List ℕ
  pub knas_int : List ℕ
  pub ciphering_alg : ℕ  -- uint8
  pub integrity_alg : ℕ  -- uint8
  pub ul_count : ℕ  -- uint32
  pub dl_count : ℕ  -- uint32
  pub security_active : Bool
  pub last_uplink_nas : List ℕ
  pub eps_bearer_id : ℕ  -- uint8
  pub pti : ℕ  -- uint8
  pub erab_id : ℕ  -- uint8
  pub ksi : ℕ  -- uint8
  pub ul_teid : ℕ  -- uint32
  pub sgw_ip : GoString
  pub dl_teid : ℕ  -- uint32
  pub ue_ip : GoString
  pub bearers : List (ℕ × EpsBearer)
  pub guti_mcc : GoString
  pub guti_mnc : GoString
  pub guti_group_id : ℕ  -- uint16
  pub guti_code : ℕ  -- uint8
  pub guti_m_tmsi : ℕ  -- uint32

-- What stands at the addresses that the program has handed out, and the store's own fields.
pub record World : Type 0 where
  pub gnbs : List (GoString × ℕ)
  pub enbs : List (GoString × ℕ)
  pub next_id : ℕ  -- int64
  pub gnb_at : ℕ → GnbContext
  pub enb_at : ℕ → EnbContext
  pub ue_at : ℕ → UeContext
  pub eps_ue_at : ℕ → UeEpsContext
  pub fresh : ℕ  -- the next address

unfoldable pub update {ℓ} : {A : Type ℓ} → (ℕ → A) → ℕ → A → ℕ → A
update at p x q = if p == q then x else at q
