-- ===== src/Api/Sessions.antt =====
-- internal/api/gnb_pdu_session_handlers.go: the PDU sessions of a 5G UE.
use gpp_server.Common.{ℕ, ◌*◌, Bool, false, ◌&&◌, Option, none, some, List, [], ◌∷◌}
use gpp_server.Common.{leb, ◌==◌, if◌then◌else◌, bit_or}
use gpp_server.Common.Bytes.{u8, u32}
use gpp_server.Common.Maps.{nat_key, insert}
use gpp_server.Common.Text.{GoString, text}
use gpp_server.Store.Contexts.{UeContext, GnbContext, PduSessionInfo}
use gpp_server.Store.Pointers.{or_keep}
use gpp_server.Nas.Types.{NasResponse}
use gpp_server.Api.Types.{
  NgapResponse, PduSessionSetupItem, SendGnbUeNgapRequest, SendGnbUeNgapResponse, build_failed,
}
use gpp_server.Api.Action.{
  Env, Action, pure, or_fail, case_of, from_hex, ◌>>=◌, ◌>>◌, the_ue, the_gnb, modify_ue,
  send_frame, answer,
}
use gpp_server.Api.Exchange.{
  first_non_empty, uplink_overrides, is_message, protect_uplink, downlink_of, wait_for_ue,
  uplink_nas_transport, send_uplink_and_wait,
}
use gpp_server.Api.Authentication.{raw_or}
use gpp_server.Api.Connection.{only_ngap}

-- A later item for the session overwrites an earlier one.
unfoldable pub with_items : Bool → ℕ → List PduSessionSetupItem → PduSessionInfo → PduSessionInfo
with_items v6 id [] info = info
with_items v6 id (item ∷ items) info = with_items v6 id items (
    if item.pdu_session_id == id
    then record info {
      ul_teid = item.ul_teid;
      upf_ip =
          if v6
          then first_non_empty
              (item.transport_layer_address_ipv6 ∷ item.transport_layer_address ∷ [])
          else first_non_empty
              (item.transport_layer_address ∷ item.transport_layer_address_ipv6 ∷ []);
    }
    else info)

abbrev pub address_in : Option NasResponse → GoString
address_in none = []
address_in (some r) = r.pdu_address

-- The N3 address is IPv6 or not by `parses_as_v6`.
unfoldable pub capture_tunnel :
    (GoString → Bool)
    → GnbContext
    → ℕ
    → ℕ
    → NgapResponse
    → Option NasResponse
    → UeContext
    → UeContext
capture_tunnel parses_as_v6 g id dl_teid r nas ue =
    let info : PduSessionInfo = record {
      pdu_session_id = u8 id;
      dnn = ue.dnn;
      n3_gnb_ip = g.n3_addr;
      dl_teid = dl_teid;
      qfi = 1;
      ul_teid = 0;
      upf_ip = [];
      ue_ip = [];
    } in
    let found = with_items (parses_as_v6 g.n3_addr) id r.pdu_session_setup_items info in
    record ue {
      pdu_sessions = insert (u8 id) (record found { ue_ip = address_in nas }) ue.pdu_sessions;
    }

abbrev pub one_for_zero : ℕ → ℕ
one_for_zero n = if n == 0 then 1 else n

-- The request's session, or the UE's; the first one if neither says.
abbrev pub session_for : SendGnbUeNgapRequest → UeContext → ℕ
session_for req ue = one_for_zero (or_keep req.pdu_session_id_override ue.pdu_session_id)

unfoldable pub pti_for : SendGnbUeNgapRequest → ℕ
pti_for req = or_keep req.pti 1

unfoldable pub pdu_session_id_for_release : UeContext → ℕ
pdu_session_id_for_release ue =
    if leb 1 ue.pdu_session_id && leb ue.pdu_session_id 15 then ue.pdu_session_id else 1

-- `uint32(ue.RANUENGAPID)<<8 | uint32(pduSessionID)`
unfoldable pub dl_teid_for : ℕ → ℕ → ℕ
dl_teid_for ran id = bit_or (u32 (u32 ran * 256)) id

abbrev pub always_on : Option Bool → Bool
always_on none = false
always_on (some b) = b

module _ (env : Env) where
  abbrev pub cause_5gsm_for : SendGnbUeNgapRequest → ℕ
  cause_5gsm_for req = or_keep req.five_gsm_cause env.codec.cause_protocol_error

  unfoldable pub establishment_pdu : SendGnbUeNgapRequest → ℕ → Action (List ℕ)
  establishment_pdu req id = do
    ue ← the_ue
    inner ←
        case_of req.inner_sm_payload
          (or_fail 500 build_failed (
            env.codec.build_establishment_request (record {
              pdu_session_id = id;
              pdu_session_type = one_for_zero ue.pdu_session_type;
              pti = pti_for req;
              always_on = always_on req.always_on_requested;
            })))
          (λ raw. from_hex raw)
    ul_nas ← or_fail 500 build_failed (
        env.codec.build_ul_nas_transport (record {
          pdu_session_id = id;
          payload_container = inner;
          dnn = ue.dnn;
          sst = ue.sst;
          sd = ue.sd;
        }))
    protect_uplink env ul_nas env.nas.sht_ciphered none

  -- The gNB's side of a set-up: the downlink tunnel, the response, and the tunnel on record where
  -- the gNB has a GTP-U endpoint.
  unfoldable pub set_up_session : Bool → ℕ → NgapResponse → Option NasResponse → Action (Unit {0})
  set_up_session has_gtpu id r nas = do
    modify_ue (λ u. if u.pdu_session_id == 0 then record u { pdu_session_id = id } else u)
    ue ← the_ue
    g ← the_gnb
    let dl_teid = dl_teid_for ue.ran_ue_ngap_id id
    answer env (
        env.codec.build_setup_response (record {
          amf_ue_ngap_id = ue.amf_ue_ngap_id;
          ran_ue_ngap_id = ue.ran_ue_ngap_id;
          pdu_session_id = id;
          dl_teid = dl_teid;
          dl_ip = g.n3_addr;
        }))
    if has_gtpu
        then modify_ue (capture_tunnel env.codec.parses_as_v6 g id dl_teid r nas)
        else pure tt

  abbrev pub establishment_answers : List GoString
  establishment_answers =
      text "PDUSessionResourceSetupRequest"
      ∷ text "DownlinkNASTransport"
      ∷ text "ErrorIndication"
      ∷ []

  unfoldable pub establish_session : Bool → SendGnbUeNgapRequest → Action SendGnbUeNgapResponse
  establish_session has_gtpu req = do
    ue ← the_ue
    let id = session_for req ue
    secured ← establishment_pdu req id
    encoded ← uplink_nas_transport env (uplink_overrides req) secured
    send_frame env encoded
    r ← wait_for_ue env req establishment_answers
    (nas, verified) ← downlink_of env r
    if is_message (text "PDUSessionResourceSetupRequest") r
        then set_up_session has_gtpu id r nas
        else pure tt
    pure (record { ngap = some r; nas = nas; mac_verified = verified })

  unfoldable pub handle_gnb_pdu_session_establishment_request :
      Bool → SendGnbUeNgapRequest → Action SendGnbUeNgapResponse
  handle_gnb_pdu_session_establishment_request has_gtpu req =
      case_of req.raw_nas_pdu (establish_session has_gtpu req) (λ raw.
        from_hex raw >>= λ nas_pdu. send_uplink_and_wait env req nas_pdu establishment_answers)

  -- A session management message in a protected uplink for the session of the UE.
  unfoldable pub secured_inner : SendGnbUeNgapRequest → Option (List ℕ) → Action (List ℕ)
  secured_inner req made = do
    ue ← the_ue
    inner ← raw_or req (or_fail 500 build_failed made)
    ul_nas ← or_fail 500 build_failed (
        env.codec.build_ul_nas_transport_existing (pdu_session_id_for_release ue)
          req.request_type_override inner)
    protect_uplink env ul_nas env.nas.sht_ciphered none

  unfoldable pub handle_gnb_pdu_session_release_request :
      SendGnbUeNgapRequest → Action SendGnbUeNgapResponse
  handle_gnb_pdu_session_release_request req = do
    ue ← the_ue
    secured ←
        secured_inner req
          (env.codec.build_release_request (pdu_session_id_for_release ue) (pti_for req))
    send_uplink_and_wait env req secured (
        text "PDUSessionResourceReleaseCommand"
        ∷ text "DownlinkNASTransport"
        ∷ text "ErrorIndication"
        ∷ [])

  unfoldable pub handle_gnb_pdu_session_modification_request :
      SendGnbUeNgapRequest → Action SendGnbUeNgapResponse
  handle_gnb_pdu_session_modification_request req = do
    ue ← the_ue
    secured ←
        secured_inner req
          (env.codec.build_modification_request (pdu_session_id_for_release ue) (pti_for req))
    send_uplink_and_wait env req secured (
        text "PDUSessionResourceModifyRequest"
        ∷ text "DownlinkNASTransport"
        ∷ text "ErrorIndication"
        ∷ [])

  -- A session management message to which there is no answer.
  unfoldable pub send_inner_5gsm :
      SendGnbUeNgapRequest → Option (List ℕ) → Action SendGnbUeNgapResponse
  send_inner_5gsm req made = do
    secured ← secured_inner req made
    encoded ← uplink_nas_transport env (uplink_overrides req) secured
    send_frame env encoded
    pure (only_ngap none)

  unfoldable pub handle_gnb_pdu_session_release_complete :
      SendGnbUeNgapRequest → Action SendGnbUeNgapResponse
  handle_gnb_pdu_session_release_complete req = the_ue >>= λ ue.
      send_inner_5gsm req
        (env.codec.build_release_complete (pdu_session_id_for_release ue) (pti_for req))

  unfoldable pub handle_gnb_pdu_session_modification_complete :
      SendGnbUeNgapRequest → Action SendGnbUeNgapResponse
  handle_gnb_pdu_session_modification_complete req = the_ue >>= λ ue.
      send_inner_5gsm req
        (env.codec.build_modification_complete (pdu_session_id_for_release ue) (pti_for req))

  unfoldable pub handle_gnb_pdu_session_modification_command_reject :
      SendGnbUeNgapRequest → Action SendGnbUeNgapResponse
  handle_gnb_pdu_session_modification_command_reject req = the_ue >>= λ ue. send_inner_5gsm req (
      env.codec.build_modification_command_reject (pdu_session_id_for_release ue) (pti_for req)
        (cause_5gsm_for req))

  unfoldable pub handle_gnb_status_5gsm : SendGnbUeNgapRequest → Action SendGnbUeNgapResponse
  handle_gnb_status_5gsm req = the_ue >>= λ ue. send_inner_5gsm req (
      env.codec.build_status_5gsm (pdu_session_id_for_release ue) (pti_for req)
        (cause_5gsm_for req))
