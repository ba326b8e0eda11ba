-- ===== src/Nas/Types.antt =====
-- internal/nas5gs/types.go: a decoded downlink NAS message.
use gpp_server.Common.{ℕ, Option, Bool}
use gpp_server.Common.Text.{GoString}

pub record Guti5GJson : Type 0 where
  pub mcc : GoString
  pub mnc : GoString
  pub amf_region_id : ℕ
  pub amf_set_id : ℕ
  pub amf_pointer : ℕ
  pub five_g_tmsi : GoString

pub record NasResponse : Type 0 where
  pub message_type : GoString
  pub security_header_type : GoString
  pub rand : GoString
  pub autn : GoString
  pub abba_contents : GoString
  pub ng_ksi : Option ℕ
  pub eap_message : GoString
  pub selected_ciphering_algorithm : Option ℕ
  pub selected_integrity_algorithm : Option ℕ
  pub replayed_ue_security_capabilities : GoString
  pub imeisv_requested : Bool
  pub guti : Option Guti5GJson
  pub tai_list : GoString
  pub pdu_session_status : GoString
  pub pdu_session_id : Option ℕ
  pub pdu_session_type : Option ℕ
  pub ssc_mode : Option ℕ
  pub pdu_address : GoString
  pub pti : Option ℕ
  pub access_type_present : Option Bool
  pub session_ambr_uplink : Option ℕ
  pub session_ambr_downlink : Option ℕ
  pub authorized_qos_rules : GoString
  pub always_on_indication : Option ℕ
  pub five_gmm_cause : Option ℕ
  pub five_gsm_cause : Option ℕ
  pub identity_type : Option ℕ
  pub configuration_update_ack_requested : Bool
  pub inner_nas_message_type : GoString
  pub raw_hex : GoString
