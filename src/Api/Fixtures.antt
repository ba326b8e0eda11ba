-- ===== src/Api/Fixtures.antt =====
-- Test data: a codec that writes one octet for a message, an AMF that answers every frame of one
-- octet as a release command, a gNB with one UE, and a request.
use gpp_server.Common.{ℕ, refl, true, false, Option, none, some, List, [], ◌∷◌}
use gpp_server.Common.{length, ◌++◌}
use gpp_server.Common.{err}
use gpp_server.Common.Text.{text}
use gpp_server.Store.Contexts.{World, UeContext, GnbContext, EnbContext, UeEpsContext}
use gpp_server.Store.Enb
use gpp_server.Store.Enb.{zero_key}
use gpp_server.Store.Fixtures.{plain_ue, eps_opts}
use gpp_server.Nas.Library.{NasLibrary}
use gpp_server.Identity.Aka.{AkaLibrary}
use gpp_server.Api.Types.{NgapResponse, SendGnbUeNgapRequest}
use gpp_server.Api.Codec.{Codec}
use gpp_server.Api.Action.{Env}
use gpp_server.Api.Steps.{CallsEnd}
use gpp_server.Api.Dispatch.{ApiState}

abbrev pub octet : ℕ → Option (List ℕ)
octet n = some (n ∷ [])

-- The frame's only octet says which message it is.
abbrev pub message_of : List ℕ → Option NgapResponse
message_of (x ∷ []) = some (record {
  message_type = text "UEContextReleaseCommand";
  ran_ue_ngap_id = some 7;
  amf_ue_ngap_id = some 9;
  nas_pdu = none;
  pdu_session_setup_items = [];
})
message_of _ = none

abbrev pub codec : Codec
codec = record {
  nas_decode = λ pdu. err tt;
  sht_string = λ sht. [];
  guti_from_structured = λ g. none;
  guti_parts = λ g. record { amf_set_id = 0; amf_pointer = 0; tmsi = [] };
  build_registration_request = λ p. octet 0x41;
  build_authentication_response = λ res. octet 0x57;
  build_security_mode_complete = λ inner imeisv. octet 0x5e;
  build_registration_complete = octet 0x43;
  build_configuration_update_complete = octet 0x55;
  build_deregistration_request = λ p. octet 0x45;
  build_identity_response = λ id. octet 0x5c;
  build_authentication_failure = λ cause auts. octet 0x59;
  build_security_mode_reject = λ cause. octet 0x5f;
  build_service_request = λ p. octet 0x4c;
  build_establishment_request = λ p. octet 0xc1;
  build_ul_nas_transport = λ p. octet 0x67;
  build_ul_nas_transport_existing = λ id t inner. octet 0x67;
  build_release_request = λ id pti. octet 0xd1;
  build_modification_request = λ id pti. octet 0xc9;
  build_release_complete = λ id pti. octet 0xd4;
  build_modification_complete = λ id pti. octet 0xcc;
  build_modification_command_reject = λ id pti cause. octet 0xcd;
  build_status_5gsm = λ id pti cause. octet 0xd6;
  ngap_decode = message_of;
  build_initial_ue_message = λ p. some (octet 15);
  build_uplink_nas_transport = λ p. octet 46;
  build_initial_context_setup_response = λ amf ran. octet 14;
  build_ue_context_release_complete = λ amf ran. some (41 ∷ amf ∷ ran ∷ []);
  build_resource_release_response = λ amf ran. octet 28;
  build_ue_context_release_request = λ amf ran cause. octet 42;
  build_radio_capability_info = λ amf ran cap. octet 44;
  build_initial_context_setup_failure = λ amf ran cause. octet 14;
  build_error_indication = λ amf ran cause. octet 9;
  build_setup_response = λ p. octet 29;
  build_handover_required = λ p. octet 12;
  build_ran_status_transfer = λ amf ran drbs. octet 49;
  build_handover_cancel = λ amf ran cause. octet 10;
  sht_integrity = 1;
  cause_mac_failure = 20;
  cause_synch_failure = 21;
  cause_capabilities_mismatch = 23;
  cause_protocol_error = 111;
  service_type_data = 1;
  rrc_mo_data = 4;
  handover_desirable = 1;
  handover_cancelled = 11;
  parses_as_v6 = λ s. false;
}

abbrev pub two_keys : List ℕ
two_keys = zero_key ++ zero_key

abbrev pub nas_lib : NasLibrary
nas_lib = record {
  plain_nas_decode = λ plain. some (λ sht. some plain);
  security_header_type = λ message. 0;
  nas_encrypt = λ alg key count bearer direction payload. some payload;
  nas_mac = λ alg key count bearer direction payload. some (0 ∷ 0 ∷ 0 ∷ 0 ∷ []);
  bearer_3gpp = 1;
  direction_uplink = 0;
  direction_downlink = 1;
  epd_mobility_management = 0x7e;
  sht_plain = 0;
  sht_ciphered = 2;
  sht_new_context = 3;
  sht_ciphered_new_context = 4;
  kdf = λ key fc parts. some two_keys;
  kdf_len = λ part. 0 ∷ length part ∷ [];
  fc_algorithm = text "69";
}

abbrev pub aka_lib : AkaLibrary
aka_lib = record {
  generate_keys_with_autn = λ opc k rand autn. none;
  generate_auts = λ opc k rand sqn. none;
  kdf = λ key fc parts. some two_keys;
  kdf_len = λ part. 0 ∷ length part ∷ [];
  fc_res_star = [];
  fc_kausf = [];
  fc_kseaf = [];
  fc_kamf = [];
  supi_digits = λ supi. none;
}

-- The AMF releases the UE before the context of the wait ends.
abbrev pub env : Env
env = record {
  nas = nas_lib;
  aka = aka_lib;
  codec = codec;
  write = λ log stream frame. true;
  closed = false;
  ended = false;
  turns = record { arrived = (1 ∷ []) ∷ []; ended = true } ∷ [];
}

abbrev pub gnb : GnbContext
gnb = record {
  id = text "1";
  mcc = text "001";
  mnc = text "01";
  sst = 1;
  sd = [];
  tac = text "000001";
  gnb_id = text "000001";
  gnb_id_bit_length = 24;
  name = [];
  n3_addr = [];
  slices = [];
  ues = (text "7", 3) ∷ [];
  next_ran_ue_id = 7;
}

abbrev pub enb : EnbContext
enb = record {
  id = [];
  mcc = [];
  mnc = [];
  tac = [];
  enb_id = [];
  enb_id_bit_length = 20;
  name = [];
  n3_addr = [];
  ues = [];
  next_enb_ue_id = 0;
}

abbrev pub released_ue : UeContext
released_ue = record (plain_ue (text "7")) {
  ran_ue_ngap_id = 7;
  amf_ue_ngap_id = 9;
  security_active = true;
}

abbrev pub release_request : SendGnbUeNgapRequest
release_request = record {
  message_type = text "ue_context_release_request";
  registration_type = none;
  raw_nas_pdu = none;
  rrc_establishment_cause_override = none;
  ue_context_request_override = none;
  amf_ue_ngap_id_override = none;
  ran_ue_ngap_id_override = none;
  res_star_override = none;
  inner_sm_payload = none;
  release_cause = none;
  switch_off = none;
  service_type = none;
  request_type_override = none;
  pti = none;
  always_on_requested = none;
  five_gsm_cause = none;
  ng_ksi = none;
  mobile_identity_override = none;
  non_current_native_nas_ksi = none;
  capability_5gmm = none;
  ue_security_capability_override = none;
  requested_nssai = [];
  last_visited_registered_tai = none;
  s1_ue_network_capability = none;
  uplink_data_status = none;
  pdu_session_status = none;
  mico_indication = none;
  ue_status = none;
  additional_guti = none;
  allowed_pdu_session_status = none;
  ues_usage_setting = none;
  requested_drx_parameters = none;
  eps_nas_message_container = none;
  ladn_indication = none;
  payload_container = none;
  network_slicing_indication = none;
  update_type_5gs = none;
  nas_message_container = none;
  eps_bearer_context_status = none;
  follow_on_request = none;
  five_gmm_cause = none;
  target_gnb_id = none;
  pdu_session_ids = [];
  handover_cancel_cause = none;
  handover_required_cause = none;
  status_transfer_drbs = [];
  pdu_session_id_override = none;
  existing_connection = false;
  reestablish = false;
  corrupt_mac = false;
  nas_count_override = none;
  replay_last = false;
  timeout_ms = 0;
  ue_radio_capability = none;
}

abbrev pub eps_ue : UeEpsContext
unfolding Enb.new_ue_eps_context
eps_ue = Enb.new_ue_eps_context [] 0 eps_opts

abbrev pub world : World
world = record {
  gnbs = (text "1", 2) ∷ [];
  enbs = [];
  next_id = 1;
  gnb_at = λ p. gnb;
  enb_at = λ p. enb;
  ue_at = λ p. released_ue;
  eps_ue_at = λ p. eps_ue;
  fresh = 4;
}

abbrev pub state : ApiState
state = record {
  world = world;
  transports = (text "1", record { frames = []; sent = (0 ∷ []) ∷ [] }) ∷ [];
  gtpu = [];
}

pub env-CallsEnd : CallsEnd env
env-CallsEnd = record { context_ends = refl; decode_ends = λ b. tt }
