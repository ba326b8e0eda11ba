-- ===== src/Api/UserTests.antt =====
-- The theorems on UEs and waits at concrete inputs.
use gpp_server.Common.{ℕ, ◌≡◌, refl, none, some, [], ◌∷◌, true, false, ok, err}
use gpp_server.Common.Text.{text, hex_encode, hex_decode, hex_value, format_int, format_uint}
use gpp_server.Common.Maps.{lookup, insert, delete}
use gpp_server.Common.Queues.{queue, push, set_queue}
use gpp_server.Transport.Framed.{
  send, wait_for_message, wait_for_message_matching, matching_turn, take_message, take_first,
  receive, receive_all,
}
use gpp_server.Store.Contexts.{World}
use gpp_server.Store.Gnb
use gpp_server.Store.Registry.{get_gnb}
use gpp_server.Identity.Plmn.{get_mcc_and_mnc_in_octets, reverse_str, plmn_hex}
use gpp_server.Identity.Suci.{
  CryptoLibrary, parse_supi, tbcd, parse_uint8, decimal_from, get_routing_indicator_in_octets,
  build_suci_string, encode_suci,
}
use gpp_server.Identity.NewUe.{CreateUeOpts, home_network_key, new_ue_context}
use gpp_server.Api.Fixtures.{world, env, state}
use gpp_server.Api.Users.{CreateGnbUeResponse, create_gnb_ue}
use gpp_server.Api.UsersKept.{Created, create_gnb_ue-Created}
use gpp_server.Api.Await.{AwaitRequest}
use gpp_server.Api.Types.{no_response}
use gpp_server.Api.Dispatch.{ApiState, status_error}
use gpp_server.Api.Stations.{CreateGnbRequest, SetupLibrary, create_gnb, ng_setup, teardown_gnb}
use gpp_server.Api.Torn.{Unregistered, SameStations, create_gnb-SameStations}
use gpp_server.Store.Registry

abbrev crypto : CryptoLibrary
crypto = record {
  generate_x25519 = none;
  generate_p256 = none;
  compress_p256 = λ point. none;
  new_x25519_public_key = λ raw. none;
  new_p256_public_key = λ raw. none;
  decompress_p256 = λ point. none;
  sha256 = λ message. [];
  hmac_sha256 = λ key message. [];
  aes_ctr = λ key counter input. none;
  suci_submatch = λ input. none;
}

abbrev subscriber : CreateUeOpts
subscriber = record {
  supi = text "imsi-001010000000001";
  k = text "00";
  opc = text "00";
  amf = [];
  sqn = [];
  sst = 1;
  sd = [];
  dnn = text "internet";
  routing_indicator = [];
  protection_scheme = [];
  public_key_id = [];
  public_key_hex = [];
  pdu_session_id = 1;
  pdu_session_type = 1;
  imeisv = [];
  ue_security_capability = [];
}

-- The gNB's counter stands at 7.
abbrev created_ue : CreateGnbUeResponse
created_ue = record {
  ue_id = text "8";
  supi = text "imsi-001010000000001";
  suci = text "suci-0-001-01-0-0-0-0000000010";
  ran_ue_ngap_id = 8;
}

abbrev after_creation : World
after_creation = (create_gnb_ue crypto world (text "1") (some subscriber)).0

creates : create_gnb_ue crypto world (text "1") (some subscriber) ≡ (after_creation, ok created_ue)
unfolding create_gnb_ue get_gnb Gnb.allocate_ran_ue_ngap_id format_int format_uint new_ue_context
    parse_supi home_network_key build_suci_string encode_suci parse_uint8 hex_encode decimal_from
    tbcd hex_decode hex_value get_mcc_and_mnc_in_octets reverse_str plmn_hex
    get_routing_indicator_in_octets lookup
creates = refl

create_gnb_ue-Created_example :
    (g : ℕ) × (get_gnb world (text "1") ≡ ok g) × Created world g after_creation created_ue
create_gnb_ue-Created_example =
    create_gnb_ue-Created crypto world after_creation (text "1") (some subscriber) created_ue
      creates

abbrev await_release : AwaitRequest
await_release = record { message_types = text "UEContextReleaseCommand" ∷ []; timeout_ms = 0 }

abbrev setup_library : SetupLibrary
setup_library = record {
  dial = λ local_addr remote_addr. true;
  listen = λ addr. true;
  build_ng_setup = λ config drx. some (some (21 ∷ []));
  encode_ies = λ ies. none;
}

abbrev station_request : CreateGnbRequest
station_request = record {
  amf_address = text "10.0.0.1";
  gnb_n2_address = [];
  config = record {
    mcc = text "001";
    mnc = text "01";
    tac = text "000001";
    gnb_id = text "000002";
    gnb_id_bit_length = 24;
    name = [];
    sst = 1;
    sd = [];
    slices = [];
  };
  default_paging_drx = none;
  ng_setup_ies = [];
  skip_ng_setup = false;
  raw_ngap_pdu = none;
  wait_for = [];
  timeout_ms = 0;
  enable_gtpu = true;
  gnb_n3_address = [];
}

second_id : format_int 2 ≡ text "2"
unfolding format_int format_uint
second_id = refl

second_is_free : Unregistered state (text "2")
unfolding lookup
second_is_free = record { no_gnb = refl; no_transport = refl; no_endpoint = refl }

-- No NG setup response comes before the context of the wait ends.
abbrev after_failure : ApiState
after_failure = (create_gnb env setup_library state (some station_request)).0

fails :
    create_gnb env setup_library state (some station_request)
    ≡ (after_failure, err (status_error 504 no_response))
unfolding create_gnb Registry.create_gnb ng_setup teardown_gnb send wait_for_message
    wait_for_message_matching matching_turn take_message take_first receive receive_all queue push
    set_queue insert delete lookup
fails = refl

create_gnb-SameStations_example : SameStations state after_failure
create_gnb-SameStations_example =
    create_gnb-SameStations env setup_library state after_failure (some station_request)
      (status_error 504 no_response) (rw second_id second_is_free) fails
