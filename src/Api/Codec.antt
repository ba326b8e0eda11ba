-- ===== src/Api/Codec.antt =====
-- What the handlers take from the codecs nas5gs and ngap, which fill structs of the free5gc
-- libraries. An error of theirs is `none`. `Decode` of nas5gs may also panic; the runs in which
-- a builder or the decoder of ngap panics are not modelled.
use gpp_server.Common.{ℕ, Bool, Option, List}
use gpp_server.Common.Text.{GoString}
use gpp_server.Nas.Types.{Guti5GJson}
use gpp_server.Nas.GnbContext.{Decoding}
use gpp_server.Api.Types.{SnssaiJson, NgapResponse}

pub record RegistrationRequestOverrides : Type 0 where
  pub ng_ksi : Option ℕ
  pub mobile_identity_override : Option GoString
  pub ue_security_capability_override : Option GoString
  pub follow_on_request : Option ℕ
  pub non_current_native_nas_ksi : Option ℕ
  pub capability_5gmm : Option GoString
  pub requested_nssai : List SnssaiJson
  pub last_visited_registered_tai : Option GoString
  pub s1_ue_network_capability : Option GoString
  pub uplink_data_status : Option GoString
  pub pdu_session_status : Option GoString
  pub mico_indication : Option ℕ
  pub ue_status : Option GoString
  pub additional_guti : Option GoString
  pub allowed_pdu_session_status : Option GoString
  pub ues_usage_setting : Option ℕ
  pub requested_drx_parameters : Option ℕ
  pub eps_nas_message_container : Option GoString
  pub ladn_indication : Option GoString
  pub payload_container : Option GoString
  pub network_slicing_indication : Option ℕ
  pub update_type_5gs : Option GoString
  pub nas_message_container : Option GoString
  pub eps_bearer_context_status : Option GoString

pub record RegistrationRequestParams : Type 0 where
  pub registration_type : ℕ
  pub suci : List ℕ
  pub guti : Option (List ℕ)
  pub security_cap : List ℕ
  pub ng_ksi : ℕ
  pub overrides : RegistrationRequestOverrides

pub record DeregistrationRequestParams : Type 0 where
  pub guti : Option (List ℕ)
  pub suci : List ℕ
  pub ng_ksi : ℕ
  pub switch_off : ℕ

-- The status has sixteen entries.
pub record ServiceRequestParams : Type 0 where
  pub service_type : ℕ
  pub ng_ksi : ℕ
  pub guti : Option (List ℕ)
  pub pdu_session_status : List Bool

pub record EstablishmentRequestParams : Type 0 where
  pub pdu_session_id : ℕ
  pub pdu_session_type : ℕ
  pub pti : ℕ
  pub always_on : Bool

pub record UlNasTransportParams : Type 0 where
  pub pdu_session_id : ℕ
  pub payload_container : List ℕ
  pub dnn : GoString
  pub sst : ℕ
  pub sd : GoString

pub record InitialUeMessageOverrides : Type 0 where
  pub rrc_establishment_cause : Option ℕ
  pub ue_context_request : Option ℕ
  pub ran_ue_ngap_id : Option ℕ

pub record FiveGStmsiFromGuti : Type 0 where
  pub amf_set_id : GoString
  pub amf_pointer : GoString
  pub five_g_tmsi : GoString

-- Where a message comes from: the gNB's PLMN, tracking area and identity.
pub record Location : Type 0 where
  pub mcc : GoString
  pub mnc : GoString
  pub tac : GoString
  pub gnb_id : GoString

pub record InitialUeMessageParams : Type 0 where
  pub ran_ue_ngap_id : ℕ
  pub nas_pdu : List ℕ
  pub location : Location
  pub guti : Option FiveGStmsiFromGuti
  pub overrides : Option InitialUeMessageOverrides

pub record UplinkNasTransportOverrides : Type 0 where
  pub amf_ue_ngap_id : Option ℕ
  pub ran_ue_ngap_id : Option ℕ

pub record UplinkNasTransportParams : Type 0 where
  pub amf_ue_ngap_id : ℕ
  pub ran_ue_ngap_id : ℕ
  pub nas_pdu : List ℕ
  pub location : Location
  pub overrides : Option UplinkNasTransportOverrides

pub record SetupResponseParams : Type 0 where
  pub amf_ue_ngap_id : ℕ
  pub ran_ue_ngap_id : ℕ
  pub pdu_session_id : ℕ
  pub dl_teid : ℕ
  pub dl_ip : GoString

pub record HandoverRequiredParams : Type 0 where
  pub amf_ue_ngap_id : ℕ
  pub ran_ue_ngap_id : ℕ
  pub target_gnb_id : GoString
  pub target_mcc : GoString
  pub target_mnc : GoString
  pub target_tac : GoString
  pub pdu_session_ids : List ℕ
  pub cause_radio_network : ℕ

-- The accessors of a `nasType.GUTI5G`.
pub record GutiParts : Type 0 where
  pub amf_set_id : ℕ
  pub amf_pointer : ℕ
  pub tmsi : List ℕ

pub record DrbStatusTransferItem : Type 0 where
  pub drb_id : ℕ
  pub ul_pdcp_sn : ℕ
  pub ul_hfn : ℕ
  pub dl_pdcp_sn : ℕ
  pub dl_hfn : ℕ

-- `build_…` is the function `Build…` of the same name.
pub record Codec : Type 0 where
  -- nas5gs
  pub nas_decode : List ℕ → Decoding
  pub sht_string : ℕ → GoString
  pub guti_from_structured : Guti5GJson → Option (List ℕ)
  pub guti_parts : List ℕ → GutiParts
  pub build_registration_request : RegistrationRequestParams → Option (List ℕ)
  pub build_authentication_response : List ℕ → Option (List ℕ)
  pub build_security_mode_complete : List ℕ → GoString → Option (List ℕ)
  pub build_registration_complete : Option (List ℕ)
  pub build_configuration_update_complete : Option (List ℕ)
  pub build_deregistration_request : DeregistrationRequestParams → Option (List ℕ)
  pub build_identity_response : List ℕ → Option (List ℕ)
  pub build_authentication_failure : ℕ → List ℕ → Option (List ℕ)
  pub build_security_mode_reject : ℕ → Option (List ℕ)
  pub build_service_request : ServiceRequestParams → Option (List ℕ)
  pub build_establishment_request : EstablishmentRequestParams → Option (List ℕ)
  pub build_ul_nas_transport : UlNasTransportParams → Option (List ℕ)
  pub build_ul_nas_transport_existing : ℕ → Option ℕ → List ℕ → Option (List ℕ)
  -- `BuildPDUSession…` of the session identity, the PTI and, in two, a cause.
  pub build_release_request : ℕ → ℕ → Option (List ℕ)
  pub build_modification_request : ℕ → ℕ → Option (List ℕ)
  pub build_release_complete : ℕ → ℕ → Option (List ℕ)
  pub build_modification_complete : ℕ → ℕ → Option (List ℕ)
  pub build_modification_command_reject : ℕ → ℕ → ℕ → Option (List ℕ)
  pub build_status_5gsm : ℕ → ℕ → ℕ → Option (List ℕ)
  -- ngap
  pub ngap_decode : List ℕ → Option NgapResponse
  -- `BuildInitialUEMessage`, and what `Encode` makes of the message that it builds.
  pub build_initial_ue_message : InitialUeMessageParams → Option (Option (List ℕ))
  pub build_uplink_nas_transport : UplinkNasTransportParams → Option (List ℕ)
  -- Of the AMF's and the RAN's identity of the UE.
  pub build_initial_context_setup_response : ℕ → ℕ → Option (List ℕ)
  pub build_ue_context_release_complete : ℕ → ℕ → Option (List ℕ)
  pub build_resource_release_response : ℕ → ℕ → Option (List ℕ)
  pub build_ue_context_release_request : ℕ → ℕ → ℕ → Option (List ℕ)
  pub build_radio_capability_info : ℕ → ℕ → List ℕ → Option (List ℕ)
  pub build_initial_context_setup_failure : ℕ → ℕ → ℕ → Option (List ℕ)
  pub build_error_indication : ℕ → ℕ → ℕ → Option (List ℕ)
  pub build_setup_response : SetupResponseParams → Option (List ℕ)
  pub build_handover_required : HandoverRequiredParams → Option (List ℕ)
  pub build_ran_status_transfer : ℕ → ℕ → List DrbStatusTransferItem → Option (List ℕ)
  pub build_handover_cancel : ℕ → ℕ → ℕ → Option (List ℕ)
  -- Constants of the free5gc libraries.
  pub sht_integrity : ℕ
  pub cause_mac_failure : ℕ
  pub cause_synch_failure : ℕ
  pub cause_capabilities_mismatch : ℕ
  pub cause_protocol_error : ℕ
  pub service_type_data : ℕ
  pub rrc_mo_data : ℕ
  pub handover_desirable : ℕ
  pub handover_cancelled : ℕ
  -- `netip.ParseAddr` succeeds with an address that `Is6`.
  pub parses_as_v6 : GoString → Bool
