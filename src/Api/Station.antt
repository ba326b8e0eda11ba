-- ===== src/Api/Station.antt =====
-- internal/api/gnb_handover_handlers.go and gnb_reset_path_switch_handlers.go: the handlers of a
-- request on a gNB. Such a request has no UE, and no handler reads or writes the session's one.
use gpp_server.Common.{
  ℕ, Bool, true, false, Option, none, some, List, [], ◌∷◌, ◌==◌, if◌then◌else◌, length,
}
use gpp_server.Common.Text.{GoString, text, hex_decode}
use gpp_server.Store.Contexts.{UeContext}
use gpp_server.Store.Pointers.{or_keep}
use gpp_server.Api.Types.{
  SendGnbUeNgapResponse, build_failed, ids_missing, sessions_missing, bad_capability, ue_not_found,
}
use gpp_server.Api.Action.{
  Env, Action, pure, fail, or_fail, case_of, from_hex, ◌>>=◌, ◌>>◌, the_gnb, send_frame,
  send_stream, wait_or_504,
}
use gpp_server.Api.Exchange.{location_of}
use gpp_server.Api.Connection.{only_ngap}
use gpp_server.Api.StationTypes.{
  HandoverPduSession, UeSecurityCapabilitiesInput, SendGnbNgapRequest, AdmittedSession,
  UeSecurityCapabilities, NgResetConnection, StationCodec,
}

abbrev pub is_nil {ℓ} : {A : Type ℓ} → List A → Bool
is_nil [] = true
is_nil (a ∷ l) = false

-- An absent address is the loopback one, a TEID of 0 is 1.
abbrev pub or_loopback : GoString → GoString
or_loopback [] = text "127.0.0.1"
or_loopback (c ∷ s) = c ∷ s

unfoldable pub admitted : HandoverPduSession → Action AdmittedSession
admitted ps = do
  raw_transfer ←
      case_of ps.raw_transfer (pure none) (λ raw. from_hex raw >>= λ octets. pure (some octets))
  pure (record {
    pdu_session_id = ps.id;
    dl_teid = if ps.dl_teid == 0 then 1 else ps.dl_teid;
    dl_ip = or_loopback ps.dl_ip;
    raw_transfer = raw_transfer;
  })

unfoldable pub admitted_sessions : List HandoverPduSession → Action (List AdmittedSession)
admitted_sessions [] = pure []
admitted_sessions (ps ∷ more) =
    admitted ps >>= λ first. admitted_sessions more >>= λ rest. pure (first ∷ rest)

-- Two octets in hexadecimal, or the default where the field is empty.
unfoldable pub parse_capability : GoString → List ℕ → Action (List ℕ)
parse_capability [] def = pure def
parse_capability (c ∷ s) def = do
  b ← or_fail 400 bad_capability (hex_decode (c ∷ s))
  if length b == 2 then pure b else fail 400 bad_capability

abbrev pub no_capabilities : UeSecurityCapabilitiesInput
no_capabilities = record {
  nr_encryption = [];
  nr_integrity = [];
  eutra_encryption = [];
  eutra_integrity = [];
}

abbrev pub or_no_capabilities : Option UeSecurityCapabilitiesInput → UeSecurityCapabilitiesInput
or_no_capabilities none = no_capabilities
or_no_capabilities (some c) = c

unfoldable pub path_switch_security_capabilities :
    Option UeSecurityCapabilitiesInput → Action UeSecurityCapabilities
path_switch_security_capabilities given = do
  let c = or_no_capabilities given
  nr_encryption ← parse_capability c.nr_encryption (0xe0 ∷ 0 ∷ [])
  nr_integrity ← parse_capability c.nr_integrity (0xe0 ∷ 0 ∷ [])
  eutra_encryption ← parse_capability c.eutra_encryption (0 ∷ 0 ∷ [])
  eutra_integrity ← parse_capability c.eutra_integrity (0 ∷ 0 ∷ [])
  pure (record {
    nr_encryption = nr_encryption;
    nr_integrity = nr_integrity;
    eutra_encryption = eutra_encryption;
    eutra_integrity = eutra_integrity;
  })

module _ (env : Env) (codec : StationCodec) where
  unfoldable pub handle_gnb_handover_request_acknowledge :
      SendGnbNgapRequest → Action SendGnbUeNgapResponse
  handle_gnb_handover_request_acknowledge req = do
    amf ← or_fail 400 ids_missing req.amf_ue_ngap_id
    ran ← or_fail 400 ids_missing req.ran_ue_ngap_id
    if is_nil req.pdu_sessions then fail 400 sessions_missing else do
      sessions ← admitted_sessions req.pdu_sessions
      encoded ← or_fail 500 build_failed (
          codec.build_handover_request_acknowledge (record {
            amf_ue_ngap_id = amf;
            ran_ue_ngap_id = ran;
            sessions = sessions;
            failed = req.failed_pdu_sessions;
          }))
      send_frame env encoded
      pure (only_ngap none)

  unfoldable pub handle_gnb_handover_notify : SendGnbNgapRequest → Action SendGnbUeNgapResponse
  handle_gnb_handover_notify req = do
    amf ← or_fail 400 ids_missing req.amf_ue_ngap_id
    ran ← or_fail 400 ids_missing req.ran_ue_ngap_id
    g ← the_gnb
    encoded ← or_fail 500 build_failed (
        codec.build_handover_notify
          (record { amf_ue_ngap_id = amf; ran_ue_ngap_id = ran; location = location_of g }))
    send_frame env encoded
    pure (only_ngap none)

  unfoldable pub handle_gnb_handover_failure : SendGnbNgapRequest → Action SendGnbUeNgapResponse
  handle_gnb_handover_failure req = do
    amf ← or_fail 400 ids_missing req.amf_ue_ngap_id
    encoded ←
        or_fail 500 build_failed
          (codec.build_handover_failure amf (or_keep req.cause codec.handover_failure_in_target))
    send_frame env encoded
    pure (only_ngap none)

  -- The wait for a message of the types that the request names, if it names one.
  unfoldable pub wait_if_asked : List GoString → Action SendGnbUeNgapResponse
  wait_if_asked types =
      if is_nil types
      then pure (only_ngap none)
      else (wait_or_504 env (λ r. true) types >>= λ r. pure (only_ngap (some r)))

  unfoldable pub handle_gnb_path_switch_request : SendGnbNgapRequest → Action SendGnbUeNgapResponse
  handle_gnb_path_switch_request req = do
    amf ← or_fail 400 ids_missing req.amf_ue_ngap_id
    ran ← or_fail 400 ids_missing req.ran_ue_ngap_id
    if is_nil req.pdu_sessions then fail 400 sessions_missing else do
      sessions ← admitted_sessions req.pdu_sessions
      sec_caps ← path_switch_security_capabilities req.ue_security_capabilities
      g ← the_gnb
      encoded ← or_fail 500 build_failed (
          codec.build_path_switch_request (record {
            ran_ue_ngap_id = ran;
            source_amf_ue_ngap_id = amf;
            location = location_of g;
            sec_caps = sec_caps;
            sessions = sessions;
            failed = req.failed_pdu_sessions;
            omit_ies = req.omit_ies;
          }))
      send_frame env encoded
      wait_if_asked req.wait_for

  unfoldable pub handle_gnb_raw_ngap : GoString → SendGnbNgapRequest → Action SendGnbUeNgapResponse
  handle_gnb_raw_ngap raw req = do
    pdu ← from_hex raw
    send_frame env pdu
    wait_if_asked req.wait_for

  -- `find` is the gNB's UE of an id, as it stands.
  unfoldable pub reset_connections :
      (GoString → Option UeContext) → List GoString → Action (List NgResetConnection)
  reset_connections find [] = pure []
  reset_connections find (id ∷ ids) = do
    ue ← or_fail 404 ue_not_found (find id)
    rest ← reset_connections find ids
    pure (
        record {
          amf_ue_ngap_id = some (ue.amf_ue_ngap_id);
          ran_ue_ngap_id = some (ue.ran_ue_ngap_id);
        }
        ∷ rest)

  -- Without a UE the whole interface is reset; the message is not UE-associated.
  unfoldable pub handle_gnb_ng_reset :
      (GoString → Option UeContext) → SendGnbNgapRequest → Action SendGnbUeNgapResponse
  handle_gnb_ng_reset find req = do
    connections ← reset_connections find req.reset_ue_ids
    encoded ← or_fail 500 build_failed (codec.build_ng_reset (is_nil connections) connections)
    send_stream env true encoded
    r ← wait_or_504 env (λ r. true) (text "NGResetAcknowledge" ∷ text "ErrorIndication" ∷ [])
    pure (only_ngap (some r))
