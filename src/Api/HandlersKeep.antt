-- ===== src/Api/HandlersKeep.antt =====
-- The handlers of registration and authentication keep the subscriber, the gNB, the security context
-- in force and the log.
use gpp_server.Common.{ℕ, ◌≡◌, ok, refl, Bool, true, false, Option, none, some, List}
use gpp_server.Common.Text.{GoString}
use gpp_server.Store.Contexts.{UeContext}
use gpp_server.Nas.Types.{NasResponse}
use gpp_server.Api.Types.{NgapResponse, SendGnbUeNgapRequest}
use gpp_server.Api.Action.{Env}
use gpp_server.Common.{inl, inr}
use gpp_server.Api.Action.{pure, modify_ue, ◌>>=◌}
use gpp_server.Identity.Aka.{Aka5GResult}
use gpp_server.Api.Steps.{Keeps-aka-bind, Keeps-modify_ue, Keeps-pure, Keeps-bind, Keeps-if}
use gpp_server.Api.Keeps.{successor}
use gpp_server.Identity.Aka.{compute_5g_aka, compute_auts}
use gpp_server.Api.Decodes.{compute_5g_aka-Ends, compute_auts-Ends}
use gpp_server.Api.Steps.{Keeps-aka, Keeps, keeps_rules}
use gpp_server.Api.Invariant.{exchange_rules}
use gpp_server.Api.Registration.{
  send_initial_or_uplink, release_old, reestablish_gnb_connection, registration_request_pdu,
  secure_if, build_and_register, handle_gnb_registration_request, ack_configuration_update,
  registration_complete_pdu, handle_gnb_registration_complete,
}
use gpp_server.Api.Authentication.{
  or_aka_failed, answer_challenge, res_star_of, handle_gnb_authentication_response,
  security_mode_complete_pdu, handle_gnb_security_mode_complete, identity_response_pdu,
  handle_gnb_identity_response, authentication_failure_pdu, handle_gnb_authentication_failure,
  handle_gnb_security_mode_reject,
}

module _ (env : Env) where
  pub send_initial_or_uplink-Keeps :
      (req : SendGnbUeNgapRequest) (p : List ℕ) → Keeps env (send_initial_or_uplink env req p)
  unfolding send_initial_or_uplink
  send_initial_or_uplink-Keeps req p = search (keeps_rules, exchange_rules)

  pub release_old-Keeps :
      (amf ran : ℕ) (rel : Option NgapResponse) → Keeps env (release_old env amf ran rel)
  release_old-Keeps amf ran none = search keeps_rules
  release_old-Keeps amf ran (some rel) = search keeps_rules

  pub reestablish-Keeps : (p : List ℕ) → Keeps env (reestablish_gnb_connection env p)
  unfolding reestablish_gnb_connection
  reestablish-Keeps p = search (keeps_rules, exchange_rules, release_old-Keeps) depth 20

  pub registration_request_pdu-Keeps :
      (req : SendGnbUeNgapRequest) (k : ℕ) → Keeps env (registration_request_pdu env req k)
  unfolding registration_request_pdu
  registration_request_pdu-Keeps req k = search keeps_rules

  pub secure_if-Keeps :
      (b : Bool) (req : SendGnbUeNgapRequest) (p : List ℕ) → Keeps env (secure_if env b req p)
  unfolding secure_if
  secure_if-Keeps true req p = search keeps_rules
  secure_if-Keeps false req p = search keeps_rules

  pub build_and_register-Keeps :
      (req : SendGnbUeNgapRequest) → Keeps env (build_and_register env req)
  unfolding build_and_register
  build_and_register-Keeps req =
      search
        (
          keeps_rules, registration_request_pdu-Keeps, secure_if-Keeps, reestablish-Keeps,
          send_initial_or_uplink-Keeps,
        )
        depth 20

  pub registration-Keeps :
      (req : SendGnbUeNgapRequest) → Keeps env (handle_gnb_registration_request env req)
  unfolding handle_gnb_registration_request
  registration-Keeps req =
      search (keeps_rules, build_and_register-Keeps, send_initial_or_uplink-Keeps)

  pub ack_configuration_update-Keeps :
      (r : Option NasResponse) → Keeps env (ack_configuration_update env r)
  unfolding ack_configuration_update
  ack_configuration_update-Keeps none = search keeps_rules
  ack_configuration_update-Keeps (some r) = search (keeps_rules, exchange_rules) depth 20

  pub registration_complete_pdu-Keeps :
      (req : SendGnbUeNgapRequest) → Keeps env (registration_complete_pdu env req)
  unfolding registration_complete_pdu
  registration_complete_pdu-Keeps req = search keeps_rules

  pub registration_complete-Keeps :
      (req : SendGnbUeNgapRequest) → Keeps env (handle_gnb_registration_complete env req)
  unfolding handle_gnb_registration_complete
  registration_complete-Keeps req =
      search
        (
          keeps_rules, exchange_rules, registration_complete_pdu-Keeps,
          ack_configuration_update-Keeps,
        )
        depth 20

  auts-Keeps :
      (k opc sqn : GoString) (rand : List ℕ)
      → Keeps env (or_aka_failed (compute_auts env.aka k opc sqn rand))
  auts-Keeps k opc sqn rand =
      Keeps-aka (compute_auts env.aka k opc sqn rand) (compute_auts-Ends env.aka k opc sqn rand)

  -- The key of the access comes from the computation.
  challenge-Keeps :
      (ue : UeContext) (result : Aka5GResult)
      → compute_5g_aka env.aka ue.k ue.opc ue.sqn ue.supi ue.mcc ue.mnc ue.rand ue.autn ≡ ok result
      → Keeps env (modify_ue (λ u. record u { kamf = result.kamf }) >>= λ _. pure result.res_star)
  challenge-Keeps ue result e =
      Keeps-bind _ _
        (Keeps-modify_ue _ (λ u.
          successor refl (inl (refl, refl)) (inl (refl, refl))
            (inr (ue.k, ue.opc, ue.sqn, ue.supi, ue.mcc, ue.mnc, ue.rand, ue.autn, result, e, refl))
            (λ h. h)))
        (λ _. Keeps-pure _)

  pub answer_challenge-Keeps : (ue : UeContext) → Keeps env (answer_challenge env ue)
  unfolding answer_challenge
  answer_challenge-Keeps ue =
      Keeps-if _ _ _ (Keeps-pure _)
        (Keeps-aka-bind _ _ (compute_5g_aka-Ends env.aka _ _ _ _ _ _ _ _) (challenge-Keeps ue))

  pub authentication_response-Keeps :
      (req : SendGnbUeNgapRequest) → Keeps env (handle_gnb_authentication_response env req)
  unfolding handle_gnb_authentication_response res_star_of
  authentication_response-Keeps req =
      search (keeps_rules, exchange_rules, answer_challenge-Keeps) depth 20

  pub security_mode_complete-Keeps :
      (req : SendGnbUeNgapRequest) → Keeps env (handle_gnb_security_mode_complete env req)
  unfolding handle_gnb_security_mode_complete security_mode_complete_pdu
  security_mode_complete-Keeps req =
      search (keeps_rules, exchange_rules, registration_request_pdu-Keeps) depth 20

  pub identity_response-Keeps :
      (req : SendGnbUeNgapRequest) → Keeps env (handle_gnb_identity_response env req)
  unfolding handle_gnb_identity_response identity_response_pdu
  identity_response-Keeps req = search (keeps_rules, exchange_rules) depth 20

  pub authentication_failure-Keeps :
      (req : SendGnbUeNgapRequest) → Keeps env (handle_gnb_authentication_failure env req)
  unfolding handle_gnb_authentication_failure authentication_failure_pdu
  authentication_failure-Keeps req = search (keeps_rules, exchange_rules, auts-Keeps) depth 20

  pub security_mode_reject-Keeps :
      (req : SendGnbUeNgapRequest) → Keeps env (handle_gnb_security_mode_reject env req)
  unfolding handle_gnb_security_mode_reject
  security_mode_reject-Keeps req = search (keeps_rules, exchange_rules) depth 20
