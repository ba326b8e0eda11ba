-- ===== src/Api/Dispatch.antt =====
-- internal/api/gnb_ngap_handlers.go: `SendGNBUENGAP`, from the path of the request to the handler of
-- its message type. A body that is not JSON of the request's form is `none`.
use gpp_server.Common.{ℕ, Bool, true, false, Option, none, some, List, [], ◌∷◌}
use gpp_server.Common.{Outcome, ok, err, panic, stuck}
use gpp_server.Common.Maps.{bytes_key, lookup, insert}
use gpp_server.Common.Text.{GoString, text}
use gpp_server.Transport.Framed.{Frames}
use gpp_server.Store.Contexts.{World, update}
use gpp_server.Store.Registry
use gpp_server.Store.Registry.{StoreError}
use gpp_server.Store.Gnb
use gpp_server.Api.Types.{
  NgapResponse, StatusError, Fault, SendGnbUeNgapRequest, SendGnbUeNgapResponse, gnb_not_found,
  ue_not_found, no_transport, bad_body, unsupported,
}
use gpp_server.Api.Action.{Env, Action, fail}
use gpp_server.Api.Registration.{handle_gnb_registration_request, handle_gnb_registration_complete}
use gpp_server.Api.Authentication.{
  handle_gnb_authentication_response, handle_gnb_security_mode_complete,
  handle_gnb_identity_response, handle_gnb_authentication_failure, handle_gnb_security_mode_reject,
}
use gpp_server.Api.Connection.{
  handle_gnb_deregistration_request, handle_gnb_ue_context_release_request,
  handle_gnb_service_request, handle_gnb_inject_nas, handle_gnb_error_indication,
  handle_gnb_ue_capability_info, handle_gnb_initial_context_setup_failure,
}
use gpp_server.Api.Sessions.{
  handle_gnb_pdu_session_establishment_request, handle_gnb_pdu_session_release_request,
  handle_gnb_pdu_session_modification_request, handle_gnb_pdu_session_release_complete,
  handle_gnb_pdu_session_modification_complete, handle_gnb_pdu_session_modification_command_reject,
  handle_gnb_status_5gsm,
}
use gpp_server.Api.Handover.{
  handle_gnb_handover_required, handle_gnb_ran_status_transfer, handle_gnb_handover_cancel,
}

-- A base station's connection: the frames that wait on it, and what was sent.
pub record Connection : Type 0 where
  pub frames : Frames NgapResponse
  pub sent : List (List ℕ)

-- The handler's state: the store, the transports and the gNBs with a GTP-U endpoint.
pub record ApiState : Type 0 where
  pub world : World
  pub transports : List (GoString × Connection)
  pub gtpu : List (GoString × Unit {0})

abbrev pub Handler : Type 0
Handler = SendGnbUeNgapRequest → Action SendGnbUeNgapResponse

abbrev pub status_error : ℕ → Fault → StatusError
status_error status cause = record { status = status; cause = cause }

abbrev pub is_there {ℓ} : {A : Type ℓ} → Option A → Bool
is_there none = false
is_there (some a) = true

module _ (env : Env) where
  -- The cases of the switch on the message type.
  unfoldable pub handlers : Bool → List (GoString × Handler)
  handlers has_gtpu =
      (text "registration_request", handle_gnb_registration_request env)
      ∷ (text "authentication_response", handle_gnb_authentication_response env)
      ∷ (text "security_mode_complete", handle_gnb_security_mode_complete env)
      ∷ (text "registration_complete", handle_gnb_registration_complete env)
      ∷ (
        text "pdu_session_establishment_request",
        handle_gnb_pdu_session_establishment_request env has_gtpu,
      )
      ∷ (text "deregistration_request", handle_gnb_deregistration_request env)
      ∷ (text "ue_context_release_request", handle_gnb_ue_context_release_request env)
      ∷ (text "service_request", handle_gnb_service_request env)
      ∷ (text "inject_nas", handle_gnb_inject_nas env)
      ∷ (text "error_indication", handle_gnb_error_indication env)
      ∷ (text "ue_capability_info", handle_gnb_ue_capability_info env)
      ∷ (text "identity_response", handle_gnb_identity_response env)
      ∷ (text "pdu_session_release_request", handle_gnb_pdu_session_release_request env)
      ∷ (text "pdu_session_modification_request", handle_gnb_pdu_session_modification_request env)
      ∷ (text "pdu_session_release_complete", handle_gnb_pdu_session_release_complete env)
      ∷ (text "pdu_session_modification_complete", handle_gnb_pdu_session_modification_complete env)
      ∷ (
        text "pdu_session_modification_command_reject",
        handle_gnb_pdu_session_modification_command_reject env,
      )
      ∷ (text "status_5gsm", handle_gnb_status_5gsm env)
      ∷ (text "authentication_failure", handle_gnb_authentication_failure env)
      ∷ (text "security_mode_reject", handle_gnb_security_mode_reject env)
      ∷ (text "handover_required", handle_gnb_handover_required env)
      ∷ (text "ran_status_transfer", handle_gnb_ran_status_transfer env)
      ∷ (text "handover_cancel", handle_gnb_handover_cancel env)
      ∷ (text "initial_context_setup_failure", handle_gnb_initial_context_setup_failure env)
      ∷ []

  abbrev pub run_handler : Option Handler → Handler
  run_handler none req = fail 400 unsupported
  run_handler (some handle) req = handle req

  unfoldable pub dispatch : Bool → Handler
  dispatch has_gtpu req = run_handler (lookup (req.message_type) (handlers has_gtpu)) req

-- A request on a UE, from the path to its handler, which gets whether the gNB has a GTP-U endpoint.
module _ {Req Resp : Type 0} (handle : Bool → Req → Action Resp) where
  -- The handler runs on the UE and the gNB at their addresses, and on the gNB's connection.
  abbrev pub run_on :
      ApiState → GoString → ℕ → ℕ → Connection → Req → ApiState × Outcome StatusError Resp
  run_on st gnb_id g u connection req =
      let w = st.world in
      let (s, outcome) = handle (is_there (lookup gnb_id st.gtpu)) req (record {
        ue = w.ue_at u;
        gnb = w.gnb_at g;
        frames = connection.frames;
        sent = connection.sent;
      }) in
      (
        record st {
          world = record w { ue_at = update w.ue_at u s.ue; gnb_at = update w.gnb_at g s.gnb };
          transports = insert gnb_id (record { frames = s.frames; sent = s.sent }) st.transports;
        },
        outcome,
      )

  -- The transport is looked up, then the body is decoded.
  abbrev pub on_connection :
      ApiState
      → GoString
      → ℕ
      → ℕ
      → Option Connection
      → Option Req
      → ApiState × Outcome StatusError Resp
  on_connection st gnb_id g u none body = (st, err (status_error 400 no_transport))
  on_connection st gnb_id g u (some c) none = (st, err (status_error 400 bad_body))
  on_connection st gnb_id g u (some c) (some req) = run_on st gnb_id g u c req

  abbrev pub on_ue :
      ApiState → GoString → ℕ → Option ℕ → Option Req → ApiState × Outcome StatusError Resp
  on_ue st gnb_id g none body = (st, err (status_error 404 ue_not_found))
  on_ue st gnb_id g (some u) body = on_connection st gnb_id g u (lookup gnb_id (st.transports)) body

  abbrev pub on_gnb :
      ApiState
      → GoString
      → GoString
      → Outcome StoreError ℕ
      → Option Req
      → ApiState × Outcome StatusError Resp
  on_gnb st gnb_id ue_id (ok g) body = on_ue st gnb_id g (Gnb.get_ue (st.world.gnb_at g) ue_id) body
  on_gnb st gnb_id ue_id (err e) body = (st, err (status_error 404 gnb_not_found))
  on_gnb st gnb_id ue_id panic body = (st, panic)
  on_gnb st gnb_id ue_id stuck body = (st, stuck)

module _ (env : Env) where
  -- The gNB is looked up, then the UE.
  unfoldable pub send_gnb_ue_ngap :
      ApiState
      → GoString
      → GoString
      → Option SendGnbUeNgapRequest
      → ApiState × Outcome StatusError SendGnbUeNgapResponse
  send_gnb_ue_ngap st gnb_id ue_id body =
      on_gnb (dispatch env) st gnb_id ue_id (Registry.get_gnb (st.world) gnb_id) body
