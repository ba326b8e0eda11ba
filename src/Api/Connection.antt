-- ===== src/Api/Connection.antt =====
-- internal/api/gnb_nas_handlers.go: deregistration, release, service request and the messages that
-- are sent as they are.
use gpp_server.Common.{
  ℕ, zero, suc, ◌+◌, ◌*◌, ◌/◌, ◌%◌, ◌^◌, Bool, true, false, ◌&&◌, Option, none, some, List, [], ◌∷◌,
}
use gpp_server.Common.{leb, ◌==◌, if◌then◌else◌, length, get_or}
use gpp_server.Common.Bytes.{u8}
use gpp_server.Common.Text.{GoString, text, hex_encode}
use gpp_server.Store.Contexts.{UeContext}
use gpp_server.Store.Pointers.{or_keep}
use gpp_server.Api.Types.{
  NgapResponse, SendGnbUeNgapRequest, SendGnbUeNgapResponse, build_failed, nothing_to_replay,
  nothing_to_inject,
}
use gpp_server.Api.Codec.{GutiParts, FiveGStmsiFromGuti, InitialUeMessageOverrides}
use gpp_server.Api.Action.{
  Env, Action, pure, fail, or_fail, case_of, from_hex, ◌>>=◌, ◌>>◌, the_ue, allocate_ran, modify_ue,
  send_frame, answer, wait_for,
}
use gpp_server.Api.Exchange.{
  effective_ran_id, effective_amf_id, ue_ngap_matcher, uplink_overrides, initial_ue_overrides,
  is_message, assign_amf_id, protection_of, protect_uplink, downlink_of, wait_for_ue,
  uplink_nas_transport, initial_ue_message, send_raw_and_wait, send_uplink_and_wait,
}
use gpp_server.Api.Authentication.{raw_or}

-- A response that carries at most an NGAP message.
abbrev pub only_ngap : Option NgapResponse → SendGnbUeNgapResponse
only_ngap r = record { ngap = r; nas = none; mac_verified = none }

-- The set identity has ten bits and the pointer six, aligned to the left of their octets.
unfoldable pub five_gs_tmsi_from_guti : GutiParts → FiveGStmsiFromGuti
five_gs_tmsi_from_guti guti = record {
  amf_set_id = hex_encode (u8 (guti.amf_set_id / 4) ∷ u8 (guti.amf_set_id % 4 * 64) ∷ []);
  amf_pointer = hex_encode (u8 (guti.amf_pointer * 4) ∷ []);
  five_g_tmsi = hex_encode (guti.tmsi);
}

-- `n` bits of a number, the lowest first.
abbrev pub low_bits : ℕ → ℕ → List Bool
low_bits zero flags = []
low_bits (suc n) flags = (flags % 2 == 1) ∷ low_bits n (flags / 2)

-- The first two octets of the field, the lower one first.
unfoldable pub status_flags : List ℕ → List Bool
status_flags raw = low_bits 16 (get_or raw 0 0 + get_or raw 1 0 * 256)

-- One bit, at the UE's own session.
unfoldable pub own_session_flag : ℕ → List Bool
own_session_flag id = low_bits 16 (if leb 1 id && leb id 15 then 2 ^ id else 0)

unfoldable pub service_request_pdu_status : UeContext → SendGnbUeNgapRequest → Action (List Bool)
service_request_pdu_status ue req =
    case_of req.pdu_session_status (pure (own_session_flag (ue.pdu_session_id)))
      (λ raw. from_hex raw >>= λ octets. pure (status_flags octets))

abbrev pub radio_capability : List ℕ
radio_capability = 1 ∷ 2 ∷ 3 ∷ 4 ∷ 5 ∷ []

module _ (env : Env) where
  -- UE CONTEXT RELEASE COMPLETE, where the answer is the command.
  unfoldable pub complete_release : NgapResponse → Action (Unit {0})
  complete_release r = do
    ue ← the_ue
    answer env (
        if is_message (text "UEContextReleaseCommand") r
        then env.codec.build_ue_context_release_complete ue.amf_ue_ngap_id ue.ran_ue_ngap_id
        else none)

  unfoldable pub deregistration_pdu : SendGnbUeNgapRequest → Action (List ℕ)
  deregistration_pdu req = do
    ue ← the_ue
    plain ← or_fail 500 build_failed (
        env.codec.build_deregistration_request (record {
          guti = ue.guti;
          suci = ue.suci;
          ng_ksi = ue.ng_ksi;
          switch_off = or_keep req.switch_off 1;
        }))
    protect_uplink env plain env.nas.sht_ciphered none

  unfoldable pub handle_gnb_deregistration_request :
      SendGnbUeNgapRequest → Action SendGnbUeNgapResponse
  handle_gnb_deregistration_request req = do
    nas_pdu ← raw_or req (deregistration_pdu req)
    encoded ← uplink_nas_transport env (uplink_overrides req) nas_pdu
    send_frame env encoded
    r ←
        wait_for_ue env req (
          text "DownlinkNASTransport"
          ∷ text "UEContextReleaseCommand"
          ∷ text "ErrorIndication"
          ∷ [])
    (nas, verified) ← downlink_of env r
    complete_release r
    pure (record { ngap = some r; nas = nas; mac_verified = verified })

  unfoldable pub handle_gnb_ue_context_release_request :
      SendGnbUeNgapRequest → Action SendGnbUeNgapResponse
  handle_gnb_ue_context_release_request req = do
    ue ← the_ue
    encoded ← or_fail 500 build_failed (
        env.codec.build_ue_context_release_request (effective_amf_id req ue)
          (effective_ran_id req ue) (or_keep req.release_cause 20))
    send_frame env encoded
    r ← wait_for_ue env req (text "UEContextReleaseCommand" ∷ text "ErrorIndication" ∷ [])
    complete_release r
    pure (only_ngap (some r))

  -- A fresh identity for a request that is not on the connection that there is.
  unfoldable pub fresh_ran_id : Bool → Action (Unit {0})
  fresh_ran_id true = pure tt
  fresh_ran_id false = allocate_ran >>= λ ran. modify_ue (λ u. record u { ran_ue_ngap_id = ran })

  unfoldable pub service_request_pdu : SendGnbUeNgapRequest → Action (List ℕ)
  service_request_pdu req = do
    ue ← the_ue
    status ← service_request_pdu_status ue req
    plain ← or_fail 500 build_failed (
        env.codec.build_service_request (record {
          service_type = or_keep req.service_type env.codec.service_type_data;
          ng_ksi = ue.ng_ksi;
          guti = ue.guti;
          pdu_session_status = status;
        }))
    if length ue.kamf == 0
        then pure plain
        else protect_uplink env plain env.codec.sht_integrity (protection_of req)

  -- Mobile-originated data is the cause unless the request has one.
  abbrev pub with_mo_data : Option InitialUeMessageOverrides → InitialUeMessageOverrides
  with_mo_data none = record {
    rrc_establishment_cause = some (env.codec.rrc_mo_data);
    ue_context_request = none;
    ran_ue_ngap_id = none;
  }
  with_mo_data (some o) = record o {
    rrc_establishment_cause = some (or_keep o.rrc_establishment_cause env.codec.rrc_mo_data);
  }

  abbrev pub tmsi_of : Option (List ℕ) → Option FiveGStmsiFromGuti
  tmsi_of none = none
  tmsi_of (some guti) = some (five_gs_tmsi_from_guti (env.codec.guti_parts guti))

  abbrev pub service_answers : List GoString
  service_answers =
      text "InitialContextSetupRequest"
      ∷ text "DownlinkNASTransport"
      ∷ text "PDUSessionResourceSetupRequest"
      ∷ text "ErrorIndication"
      ∷ []

  -- The request in an Initial UE Message.
  unfoldable pub initiate_service : SendGnbUeNgapRequest → List ℕ → Action SendGnbUeNgapResponse
  initiate_service req nas_pdu = do
    before ← the_ue
    encoded ←
        initial_ue_message env before.ran_ue_ngap_id nas_pdu (tmsi_of before.guti)
          (some (with_mo_data (initial_ue_overrides req)))
    send_frame env encoded
    r ← wait_for_ue env req service_answers
    modify_ue (assign_amf_id r)
    (nas, verified) ← downlink_of env r
    ue ← the_ue
    answer env (
        if is_message (text "InitialContextSetupRequest") r
        then env.codec.build_initial_context_setup_response ue.amf_ue_ngap_id ue.ran_ue_ngap_id
        else none)
    pure (record { ngap = some r; nas = nas; mac_verified = verified })

  unfoldable pub handle_gnb_service_request : SendGnbUeNgapRequest → Action SendGnbUeNgapResponse
  handle_gnb_service_request req = do
    fresh_ran_id (req.existing_connection)
    nas_pdu ← raw_or req (service_request_pdu req)
    if req.existing_connection
        then send_uplink_and_wait env req nas_pdu service_answers
        else initiate_service req nas_pdu

  abbrev pub injected : SendGnbUeNgapRequest → UeContext → Action (List ℕ)
  injected req ue =
      if req.replay_last
      then if length ue.last_uplink_nas == 0
        then fail 400 nothing_to_replay
        else pure (ue.last_uplink_nas)
      else case_of req.raw_nas_pdu (fail 400 nothing_to_inject) (λ raw. from_hex raw)

  unfoldable pub handle_gnb_inject_nas : SendGnbUeNgapRequest → Action SendGnbUeNgapResponse
  handle_gnb_inject_nas req = do
    ue ← the_ue
    nas_pdu ← injected req ue
    encoded ← uplink_nas_transport env (uplink_overrides req) nas_pdu
    send_frame env encoded
    r ←
        wait_for env (λ r. true)
          (text "DownlinkNASTransport"
            ∷ text "ErrorIndication"
            ∷ text "UEContextReleaseCommand"
            ∷ [])
    pure (only_ngap r)

  unfoldable pub handle_gnb_ue_capability_info : SendGnbUeNgapRequest → Action SendGnbUeNgapResponse
  handle_gnb_ue_capability_info req = do
    ue ← the_ue
    radio_cap ← case_of req.ue_radio_capability (pure radio_capability) (λ raw. from_hex raw)
    encoded ← or_fail 500 build_failed (
        env.codec.build_radio_capability_info (effective_amf_id req ue) (effective_ran_id req ue)
          radio_cap)
    send_frame env encoded
    r ←
        wait_for env (ue_ngap_matcher (effective_ran_id req ue) (effective_amf_id req ue))
          (text "ErrorIndication" ∷ [])
    pure (only_ngap r)

  unfoldable pub handle_gnb_initial_context_setup_failure :
      SendGnbUeNgapRequest → Action SendGnbUeNgapResponse
  handle_gnb_initial_context_setup_failure req = do
    ue ← the_ue
    encoded ← or_fail 500 build_failed (
        env.codec.build_initial_context_setup_failure (effective_amf_id req ue)
          (effective_ran_id req ue) 0)
    send_frame env encoded
    pure (only_ngap none)

  unfoldable pub handle_gnb_error_indication : SendGnbUeNgapRequest → Action SendGnbUeNgapResponse
  handle_gnb_error_indication req = do
    ue ← the_ue
    encoded ←
        or_fail 500 build_failed
          (env.codec.build_error_indication (effective_amf_id req ue) (effective_ran_id req ue) 0)
    send_raw_and_wait env req encoded (text "UEContextReleaseCommand" ∷ text "ErrorIndication" ∷ [])
