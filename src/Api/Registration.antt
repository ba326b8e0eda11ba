-- ===== src/Api/Registration.antt =====
-- internal/api/gnb_nas_handlers.go: the registration of a 5G UE.
use gpp_server.Common.{ℕ, Bool, true, false, not, ◌&&◌, ◌||◌, Option, none, some, List, [], ◌∷◌}
use gpp_server.Common.{◌==◌, if◌then◌else◌, length}
use gpp_server.Common.Text.{GoString, text}
use gpp_server.Store.Contexts.{UeContext}
use gpp_server.Store.Pointers.{or_keep}
use gpp_server.Nas.Types.{NasResponse}
use gpp_server.Api.Types.{NgapResponse, SendGnbUeNgapRequest, SendGnbUeNgapResponse, build_failed}
use gpp_server.Api.Codec.{RegistrationRequestOverrides}
use gpp_server.Api.Action.{
  Env, Action, pure, or_fail, case_of, from_hex, ◌>>=◌, ◌>>◌, the_ue, allocate_ran, send_frame,
  answer, wait_for,
}
use gpp_server.Api.Exchange.{
  equals, initial_ue_overrides, is_message, protection_of, protect_uplink, uplink_nas_transport,
  initial_ue_message, send_raw_and_wait, send_uplink_and_wait,
}

unfoldable pub registration_overrides : SendGnbUeNgapRequest → RegistrationRequestOverrides
registration_overrides req = record {
  ng_ksi = req.ng_ksi;
  mobile_identity_override = req.mobile_identity_override;
  ue_security_capability_override = req.ue_security_capability_override;
  follow_on_request = req.follow_on_request;
  non_current_native_nas_ksi = req.non_current_native_nas_ksi;
  capability_5gmm = req.capability_5gmm;
  requested_nssai = req.requested_nssai;
  last_visited_registered_tai = req.last_visited_registered_tai;
  s1_ue_network_capability = req.s1_ue_network_capability;
  uplink_data_status = req.uplink_data_status;
  pdu_session_status = req.pdu_session_status;
  mico_indication = req.mico_indication;
  ue_status = req.ue_status;
  additional_guti = req.additional_guti;
  allowed_pdu_session_status = req.allowed_pdu_session_status;
  ues_usage_setting = req.ues_usage_setting;
  requested_drx_parameters = req.requested_drx_parameters;
  eps_nas_message_container = req.eps_nas_message_container;
  ladn_indication = req.ladn_indication;
  payload_container = req.payload_container;
  network_slicing_indication = req.network_slicing_indication;
  update_type_5gs = req.update_type_5gs;
  nas_message_container = req.nas_message_container;
  eps_bearer_context_status = req.eps_bearer_context_status;
}

abbrev pub registration_type_of : SendGnbUeNgapRequest → ℕ
registration_type_of req = or_keep req.registration_type 1

-- Of a mobility or a periodic update, by a UE that has a key.
abbrev pub is_secured : SendGnbUeNgapRequest → UeContext → Bool
is_secured req ue =
    (registration_type_of req == 2 || registration_type_of req == 3) && not (length ue.kamf == 0)

abbrev pub ksi_no_key : ℕ
ksi_no_key = 7

abbrev pub registration_answers : List GoString
registration_answers =
    text "DownlinkNASTransport" ∷ text "InitialContextSetupRequest" ∷ text "ErrorIndication" ∷ []

abbrev pub downlink_answers : List GoString
downlink_answers = text "DownlinkNASTransport" ∷ text "ErrorIndication" ∷ []

module _ (env : Env) where
  -- An Initial UE Message, or an uplink on the connection that there is.
  unfoldable pub send_initial_or_uplink :
      SendGnbUeNgapRequest → List ℕ → Action SendGnbUeNgapResponse
  send_initial_or_uplink req nas_pdu =
      if req.existing_connection then send_uplink_and_wait env req nas_pdu downlink_answers else do
        ue ← the_ue
        encoded ← initial_ue_message env ue.ran_ue_ngap_id nas_pdu none (initial_ue_overrides req)
        send_raw_and_wait env req encoded registration_answers

  abbrev pub release_old : ℕ → ℕ → Option NgapResponse → Action SendGnbUeNgapResponse
  release_old amf ran none = pure (record { ngap = none; nas = none; mac_verified = none })
  release_old amf ran (some rel) = do
    answer env (
        if is_message (text "UEContextReleaseCommand") rel
        then env.codec.build_ue_context_release_complete amf ran
        else none)
    pure (record { ngap = some rel; nas = none; mac_verified = none })

  -- A second connection under a fresh identity, which makes the AMF release the first one.
  unfoldable pub reestablish_gnb_connection : List ℕ → Action SendGnbUeNgapResponse
  reestablish_gnb_connection nas_pdu = do
    ue ← the_ue
    ran ← allocate_ran
    encoded ← initial_ue_message env ran nas_pdu none none
    send_frame env encoded
    rel ←
        wait_for env (λ r. equals r.ran_ue_ngap_id ue.ran_ue_ngap_id)
          (text "UEContextReleaseCommand" ∷ text "ErrorIndication" ∷ [])
    release_old ue.amf_ue_ngap_id ue.ran_ue_ngap_id rel

  -- The plain REGISTRATION REQUEST, with the key set identifier `ng_ksi`.
  unfoldable pub registration_request_pdu : SendGnbUeNgapRequest → ℕ → Action (List ℕ)
  registration_request_pdu req ng_ksi = do
    ue ← the_ue
    or_fail 500 build_failed (
        env.codec.build_registration_request (record {
          registration_type = registration_type_of req;
          suci = ue.suci;
          guti = ue.guti;
          security_cap = ue.ue_security_capability;
          ng_ksi = ng_ksi;
          overrides = registration_overrides req;
        }))

  unfoldable pub secure_if : Bool → SendGnbUeNgapRequest → List ℕ → Action (List ℕ)
  secure_if true req pdu = protect_uplink env pdu env.codec.sht_integrity (protection_of req)
  secure_if false req pdu = pure pdu

  unfoldable pub build_and_register : SendGnbUeNgapRequest → Action SendGnbUeNgapResponse
  build_and_register req = do
    ue ← the_ue
    plain ← registration_request_pdu req (if is_secured req ue then ue.ng_ksi else ksi_no_key)
    nas_pdu ← secure_if (is_secured req ue) req plain
    if req.reestablish
        then reestablish_gnb_connection nas_pdu
        else send_initial_or_uplink req nas_pdu

  unfoldable pub handle_gnb_registration_request :
      SendGnbUeNgapRequest → Action SendGnbUeNgapResponse
  handle_gnb_registration_request req =
      case_of req.raw_nas_pdu (build_and_register req)
        (λ raw. from_hex raw >>= λ nas_pdu. send_initial_or_uplink req nas_pdu)

  -- CONFIGURATION UPDATE COMPLETE, where the command asked for one.
  unfoldable pub ack_configuration_update : Option NasResponse → Action (Unit {0})
  ack_configuration_update none = pure tt
  ack_configuration_update (some r) =
      if not r.configuration_update_ack_requested then pure tt else do
        pdu ← or_fail 500 build_failed env.codec.build_configuration_update_complete
        secured ← protect_uplink env pdu env.nas.sht_ciphered none
        encoded ← uplink_nas_transport env none secured
        send_frame env encoded

  unfoldable pub registration_complete_pdu : SendGnbUeNgapRequest → Action (List ℕ)
  registration_complete_pdu req =
      case_of req.raw_nas_pdu
        (or_fail 500 build_failed env.codec.build_registration_complete >>= λ plain.
          protect_uplink env plain env.nas.sht_ciphered none)
        (λ raw. from_hex raw)

  unfoldable pub handle_gnb_registration_complete :
      SendGnbUeNgapRequest → Action SendGnbUeNgapResponse
  handle_gnb_registration_complete req = do
    ue ← the_ue
    ics_resp ←
        or_fail 500 build_failed
          (env.codec.build_initial_context_setup_response ue.amf_ue_ngap_id ue.ran_ue_ngap_id)
    send_frame env ics_resp
    nas_pdu ← registration_complete_pdu req
    resp ←
        send_uplink_and_wait env req nas_pdu (
          text "DownlinkNASTransport"
          ∷ text "ErrorIndication"
          ∷ text "UEContextReleaseCommand"
          ∷ [])
    ack_configuration_update resp.nas
    pure resp
