-- ===== src/Nas/EpsTypes.antt =====
-- internal/naseps/types.go: a decoded downlink EPS NAS message.
use gpp_server.Common.{ℕ, Option, Bool}
use gpp_server.Common.Text.{GoString}

pub record EpsQosJson : Type 0 where
  pub qci : ℕ
  pub raw_hex : GoString

pub record GutiJson : Type 0 where
  pub mcc : GoString
  pub mnc : GoString
  pub mme_group_id : ℕ
  pub mme_code : ℕ
  pub m_tmsi : GoString

pub record EpsNasResponse : Type 0 where
  pub message_type : GoString
  pub security_header_type : GoString
  pub rand : GoString
  pub autn : GoString
  pub nas_key_set_identifier : Option ℕ
  pub selected_ciphering_algorithm : Option ℕ
  pub selected_integrity_algorithm : Option ℕ
  pub replayed_ue_security_capabilities : GoString
  pub imeisv_requested : Bool
  pub guti : Option GutiJson
  pub tai_list : GoString
  pub eps_attach_result : Option ℕ
  pub eps_update_result : Option ℕ
  pub eps_bearer_identity : Option ℕ
  pub bearer_pti : Option ℕ
  pub eps_qos : Option EpsQosJson
  pub pdn_address : GoString
  pub apn : GoString
  pub apn_ambr : GoString
  pub bearer_esm_cause : Option ℕ
  pub emm_cause : Option ℕ
  pub esm_cause : Option ℕ
  pub identity_type : Option ℕ
  pub raw_hex : GoString
