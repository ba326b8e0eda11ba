-- ===== src/Api/Types.antt =====
-- internal/api/gnb_ue_types.go, errors.go and wait.go: requests, responses and errors. A pointer to
-- a value is an `Option`, a nil slice the empty one. A uint8, uint32 or int64 is its bit pattern.
use gpp_server.Common.{ℕ, Bool, Option, List, ltb, if◌then◌else◌}
use gpp_server.Common.Text.{GoString}
use gpp_server.Nas.Types.{NasResponse}

-- `nas5gs.SNSSAIJSON`
pub record SnssaiJson : Type 0 where
  pub sst : ℕ
  pub sd : GoString

pub record DrbStatusTransferInput : Type 0 where
  pub drb_id : ℕ
  pub ul_pdcp_sn : ℕ
  pub ul_hfn : ℕ
  pub dl_pdcp_sn : ℕ
  pub dl_hfn : ℕ

pub record SendGnbUeNgapRequest : Type 0 where
  pub message_type : GoString
  pub registration_type : Option ℕ
  pub raw_nas_pdu : Option GoString
  pub rrc_establishment_cause_override : Option ℕ
  pub ue_context_request_override : Option ℕ
  pub amf_ue_ngap_id_override : Option ℕ
  pub ran_ue_ngap_id_override : Option ℕ
  pub res_star_override : Option GoString
  pub inner_sm_payload : Option GoString
  pub release_cause : Option ℕ
  pub switch_off : Option ℕ
  pub service_type : Option ℕ
  pub request_type_override : Option ℕ
  pub pti : Option ℕ
  pub always_on_requested : Option Bool
  pub five_gsm_cause : Option ℕ
  pub ng_ksi : Option ℕ
  pub mobile_identity_override : Option GoString
  pub non_current_native_nas_ksi : Option ℕ
  pub capability_5gmm : Option GoString
  pub ue_security_capability_override : Option GoString
  pub requested_nssai : List SnssaiJson
  pub last_visited_registered_tai : Option GoString
  pub s1_ue_network_capability : Option GoString
  pub uplink_data_status : Option GoString
  pub pdu_session_status : Option GoString
  pub mico_indication : Option ℕ
  pub ue_status : Option GoString
  pub additional_guti : Option GoString
  pub allowed_pdu_session_status : Option GoString
  pub ues_usage_setting : Option ℕ
  pub requested_drx_parameters : Option ℕ
  pub eps_nas_message_container : Option GoString
  pub ladn_indication : Option GoString
  pub payload_container : Option GoString
  pub network_slicing_indication : Option ℕ
  pub update_type_5gs : Option GoString
  pub nas_message_container : Option GoString
  pub eps_bearer_context_status : Option GoString
  pub follow_on_request : Option ℕ
  pub five_gmm_cause : Option ℕ
  pub target_gnb_id : Option GoString
  pub pdu_session_ids : List ℕ
  pub handover_cancel_cause : Option ℕ
  pub handover_required_cause : Option ℕ
  pub status_transfer_drbs : List DrbStatusTransferInput
  pub pdu_session_id_override : Option ℕ
  pub existing_connection : Bool
  pub reestablish : Bool
  pub corrupt_mac : Bool
  pub nas_count_override : Option ℕ
  pub replay_last : Bool
  pub timeout_ms : ℕ
  pub ue_radio_capability : Option GoString

-- `ngap.PDUSessionSetupItemJSON`
pub record PduSessionSetupItem : Type 0 where
  pub pdu_session_id : ℕ
  pub ul_teid : ℕ
  pub transport_layer_address : GoString
  pub transport_layer_address_ipv6 : GoString

-- The fields of `ngap.NGAPResponse` that the handlers read.
pub record NgapResponse : Type 0 where
  pub message_type : GoString
  pub ran_ue_ngap_id : Option ℕ
  pub amf_ue_ngap_id : Option ℕ
  pub nas_pdu : Option GoString
  pub pdu_session_setup_items : List PduSessionSetupItem

pub record SendGnbUeNgapResponse : Type 0 where
  pub ngap : Option NgapResponse
  pub nas : Option NasResponse
  pub mac_verified : Option Bool

-- What an error's text says has failed.
pub data Fault : Type 0 where
  bad_hex : Fault  -- a field of the request is not hexadecimal
  build_failed : Fault
  security_failed : Fault
  encode_failed : Fault
  aka_failed : Fault
  send_failed : Fault
  no_response : Fault
  nothing_to_replay : Fault
  nothing_to_inject : Fault
  no_target : Fault
  ids_missing : Fault
  sessions_missing : Fault
  bad_capability : Fault
  ue_not_found : Fault
  gnb_not_found : Fault
  no_transport : Fault
  bad_body : Fault
  unsupported : Fault
  types_missing : Fault
  supi_missing : Fault
  k_missing : Fault
  opc_missing : Fault
  context_failed : Fault
  amf_missing : Fault
  dial_failed : Fault
  listen_failed : Fault

-- `statusError`
pub record StatusError : Type 0 where
  pub status : ℕ
  pub cause : Fault

-- `waitTimeout`, in milliseconds.
unfoldable pub wait_timeout : ℕ → ℕ
wait_timeout timeout_ms = if ltb 0 timeout_ms then timeout_ms else 5000
