-- ===== src/Api/StationTypes.antt =====
-- internal/api/gnb_types.go: a request on a gNB, and what its handlers take from the codec ngap.
use gpp_server.Common.{ℕ, Bool, Option, List}
use gpp_server.Common.Text.{GoString}
use gpp_server.Api.Codec.{Location}

pub record HandoverPduSession : Type 0 where
  pub id : ℕ
  pub dl_teid : ℕ
  pub dl_ip : GoString
  pub raw_transfer : Option GoString

pub record UeSecurityCapabilitiesInput : Type 0 where
  pub nr_encryption : GoString
  pub nr_integrity : GoString
  pub eutra_encryption : GoString
  pub eutra_integrity : GoString

pub record SendGnbNgapRequest : Type 0 where
  pub message_type : GoString
  pub raw_ngap_pdu : Option GoString
  pub wait_for : List GoString
  pub timeout_ms : ℕ
  pub reset_ue_ids : List GoString
  pub amf_ue_ngap_id : Option ℕ
  pub ran_ue_ngap_id : Option ℕ
  pub pdu_sessions : List HandoverPduSession
  pub ue_security_capabilities : Option UeSecurityCapabilitiesInput
  pub omit_ies : List ℕ
  pub failed_pdu_sessions : List ℕ
  pub cause : Option ℕ

-- `ngap.HandoverAdmittedSession` and `ngap.PathSwitchSession`, which have the same fields; a nil
-- slice of octets is `none`.
pub record AdmittedSession : Type 0 where
  pub pdu_session_id : ℕ
  pub dl_teid : ℕ
  pub dl_ip : GoString
  pub raw_transfer : Option (List ℕ)

pub record HandoverRequestAcknowledgeParams : Type 0 where
  pub amf_ue_ngap_id : ℕ
  pub ran_ue_ngap_id : ℕ
  pub sessions : List AdmittedSession
  pub failed : List ℕ

pub record HandoverNotifyParams : Type 0 where
  pub amf_ue_ngap_id : ℕ
  pub ran_ue_ngap_id : ℕ
  pub location : Location

pub record UeSecurityCapabilities : Type 0 where
  pub nr_encryption : List ℕ
  pub nr_integrity : List ℕ
  pub eutra_encryption : List ℕ
  pub eutra_integrity : List ℕ

pub record PathSwitchRequestParams : Type 0 where
  pub ran_ue_ngap_id : ℕ
  pub source_amf_ue_ngap_id : ℕ
  pub location : Location
  pub sec_caps : UeSecurityCapabilities
  pub sessions : List AdmittedSession
  pub failed : List ℕ
  pub omit_ies : List ℕ

pub record NgResetConnection : Type 0 where
  pub amf_ue_ngap_id : Option ℕ
  pub ran_ue_ngap_id : Option ℕ

-- `build_…` is the function `Build…` of the same name.
pub record StationCodec : Type 0 where
  pub build_handover_request_acknowledge : HandoverRequestAcknowledgeParams → Option (List ℕ)
  pub build_handover_notify : HandoverNotifyParams → Option (List ℕ)
  pub build_handover_failure : ℕ → ℕ → Option (List ℕ)
  pub build_path_switch_request : PathSwitchRequestParams → Option (List ℕ)
  pub build_ng_reset : Bool → List NgResetConnection → Option (List ℕ)
  pub handover_failure_in_target : ℕ
