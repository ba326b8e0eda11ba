-- ===== src/Api/SessionsKeep.antt =====
-- The handlers of the connection, the sessions and the handover keep the same.
use gpp_server.Common.{ℕ, refl, Bool, true, false, Option, List, if◌then◌else◌, ◌==◌}
use gpp_server.Common.Text.{GoString}
use gpp_server.Store.Contexts.{UeContext, GnbContext}
use gpp_server.Nas.Types.{NasResponse}
use gpp_server.Api.Types.{NgapResponse, SendGnbUeNgapRequest}
use gpp_server.Api.Action.{Env}
use gpp_server.Common.{inl}
use gpp_server.Api.Keeps.{Successor, Successor-refl, successor}
use gpp_server.Api.Steps.{Keeps, keeps_rules}
use gpp_server.Api.Invariant.{exchange_rules, if-Successor}
use gpp_server.Api.Connection.{
  service_request_pdu_status, complete_release, deregistration_pdu,
  handle_gnb_deregistration_request, handle_gnb_ue_context_release_request, fresh_ran_id,
  service_request_pdu, initiate_service, handle_gnb_service_request, handle_gnb_inject_nas,
  handle_gnb_ue_capability_info, handle_gnb_initial_context_setup_failure,
  handle_gnb_error_indication,
}
use gpp_server.Api.Sessions.{
  capture_tunnel, establishment_pdu, set_up_session, establish_session,
  handle_gnb_pdu_session_establishment_request, secured_inner,
  handle_gnb_pdu_session_release_request, handle_gnb_pdu_session_modification_request,
  send_inner_5gsm, handle_gnb_pdu_session_release_complete,
  handle_gnb_pdu_session_modification_complete, handle_gnb_pdu_session_modification_command_reject,
  handle_gnb_status_5gsm,
}
use gpp_server.Api.Handover.{
  handle_gnb_handover_required, handle_gnb_ran_status_transfer, handle_gnb_handover_cancel,
}

own_session-Successor :
    {env : Env} (id : ℕ) (u : UeContext)
    → Successor env u (if u.pdu_session_id == 0 then record u { pdu_session_id = id } else u)
own_session-Successor id u =
    if-Successor (u.pdu_session_id == 0) u (record u { pdu_session_id = id }) u
      (successor refl (inl (refl, refl)) (inl (refl, refl)) (inl refl) (λ h. h)) (Successor-refl u)

ran-Successor :
    {env : Env} (n : ℕ) (u : UeContext) → Successor env u (record u { ran_ue_ngap_id = n })
ran-Successor n u = successor refl (inl (refl, refl)) (inl (refl, refl)) (inl refl) (λ h. h)

capture_tunnel-Successor :
    {env : Env} (v6 : GoString → Bool) (g : GnbContext) (id teid : ℕ) (r : NgapResponse)
    (nas : Option NasResponse) (u : UeContext)
    → Successor env u (capture_tunnel v6 g id teid r nas u)
unfolding capture_tunnel
capture_tunnel-Successor v6 g id teid r nas u =
    successor refl (inl (refl, refl)) (inl (refl, refl)) (inl refl) (λ h. h)

module _ (env : Env) where
  complete_release-Keeps : (r : NgapResponse) → Keeps env (complete_release env r)
  unfolding complete_release
  complete_release-Keeps r = search keeps_rules

  fresh_ran_id-Keeps : (b : Bool) → Keeps env (fresh_ran_id env b)
  unfolding fresh_ran_id
  fresh_ran_id-Keeps true = search keeps_rules
  fresh_ran_id-Keeps false = search (keeps_rules, ran-Successor)

  pdu_status-Keeps :
      (u : UeContext) (req : SendGnbUeNgapRequest) → Keeps env (service_request_pdu_status u req)
  unfolding service_request_pdu_status
  pdu_status-Keeps u req = search keeps_rules

  service_request_pdu-Keeps : (req : SendGnbUeNgapRequest) → Keeps env (service_request_pdu env req)
  unfolding service_request_pdu
  service_request_pdu-Keeps req = search (keeps_rules, pdu_status-Keeps) depth 20

  initiate_service-Keeps :
      (req : SendGnbUeNgapRequest) (p : List ℕ) → Keeps env (initiate_service env req p)
  unfolding initiate_service
  initiate_service-Keeps req p = search (keeps_rules, exchange_rules) depth 30

  set_up_session-Keeps :
      (b : Bool) (id : ℕ) (r : NgapResponse) (nas : Option NasResponse)
      → Keeps env (set_up_session env b id r nas)
  unfolding set_up_session
  set_up_session-Keeps b id r nas =
      search (keeps_rules, own_session-Successor, capture_tunnel-Successor) depth 20

  establishment_pdu-Keeps :
      (req : SendGnbUeNgapRequest) (id : ℕ) → Keeps env (establishment_pdu env req id)
  unfolding establishment_pdu
  establishment_pdu-Keeps req id = search (keeps_rules) depth 20

  establish_session-Keeps :
      (b : Bool) (req : SendGnbUeNgapRequest) → Keeps env (establish_session env b req)
  unfolding establish_session
  establish_session-Keeps b req =
      search (keeps_rules, exchange_rules, establishment_pdu-Keeps, set_up_session-Keeps) depth 30

  secured_inner-Keeps :
      (req : SendGnbUeNgapRequest) (made : Option (List ℕ)) → Keeps env (secured_inner env req made)
  unfolding secured_inner
  secured_inner-Keeps req made = search keeps_rules depth 20

  send_inner_5gsm-Keeps :
      (req : SendGnbUeNgapRequest) (made : Option (List ℕ))
      → Keeps env (send_inner_5gsm env req made)
  unfolding send_inner_5gsm
  send_inner_5gsm-Keeps req made =
      search (keeps_rules, exchange_rules, secured_inner-Keeps) depth 20

  pub deregistration-Keeps :
      (req : SendGnbUeNgapRequest) → Keeps env (handle_gnb_deregistration_request env req)
  unfolding handle_gnb_deregistration_request deregistration_pdu
  deregistration-Keeps req = search (keeps_rules, exchange_rules, complete_release-Keeps) depth 30

  pub release_request-Keeps :
      (req : SendGnbUeNgapRequest) → Keeps env (handle_gnb_ue_context_release_request env req)
  unfolding handle_gnb_ue_context_release_request
  release_request-Keeps req = search (keeps_rules, exchange_rules, complete_release-Keeps) depth 30

  pub service_request-Keeps :
      (req : SendGnbUeNgapRequest) → Keeps env (handle_gnb_service_request env req)
  unfolding handle_gnb_service_request
  service_request-Keeps req =
      search
        (
          keeps_rules, exchange_rules, fresh_ran_id-Keeps, service_request_pdu-Keeps,
          initiate_service-Keeps,
        )
        depth 30

  pub inject_nas-Keeps : (req : SendGnbUeNgapRequest) → Keeps env (handle_gnb_inject_nas env req)
  unfolding handle_gnb_inject_nas
  inject_nas-Keeps req = search (keeps_rules, exchange_rules) depth 30

  pub ue_capability_info-Keeps :
      (req : SendGnbUeNgapRequest) → Keeps env (handle_gnb_ue_capability_info env req)
  unfolding handle_gnb_ue_capability_info
  ue_capability_info-Keeps req = search (keeps_rules, exchange_rules) depth 30

  pub setup_failure-Keeps :
      (req : SendGnbUeNgapRequest) → Keeps env (handle_gnb_initial_context_setup_failure env req)
  unfolding handle_gnb_initial_context_setup_failure
  setup_failure-Keeps req = search (keeps_rules, exchange_rules) depth 30

  pub error_indication-Keeps :
      (req : SendGnbUeNgapRequest) → Keeps env (handle_gnb_error_indication env req)
  unfolding handle_gnb_error_indication
  error_indication-Keeps req = search (keeps_rules, exchange_rules) depth 30

  pub session_release-Keeps :
      (req : SendGnbUeNgapRequest) → Keeps env (handle_gnb_pdu_session_release_request env req)
  unfolding handle_gnb_pdu_session_release_request
  session_release-Keeps req = search (keeps_rules, exchange_rules, secured_inner-Keeps) depth 30

  pub session_modification-Keeps :
      (req : SendGnbUeNgapRequest) → Keeps env (handle_gnb_pdu_session_modification_request env req)
  unfolding handle_gnb_pdu_session_modification_request
  session_modification-Keeps req =
      search (keeps_rules, exchange_rules, secured_inner-Keeps) depth 30

  pub release_complete-Keeps :
      (req : SendGnbUeNgapRequest) → Keeps env (handle_gnb_pdu_session_release_complete env req)
  unfolding handle_gnb_pdu_session_release_complete
  release_complete-Keeps req = search (keeps_rules, exchange_rules, send_inner_5gsm-Keeps) depth 30

  pub modification_complete-Keeps :
      (req : SendGnbUeNgapRequest)
      → Keeps env (handle_gnb_pdu_session_modification_complete env req)
  unfolding handle_gnb_pdu_session_modification_complete
  modification_complete-Keeps req =
      search (keeps_rules, exchange_rules, send_inner_5gsm-Keeps) depth 30

  pub command_reject-Keeps :
      (req : SendGnbUeNgapRequest)
      → Keeps env (handle_gnb_pdu_session_modification_command_reject env req)
  unfolding handle_gnb_pdu_session_modification_command_reject
  command_reject-Keeps req = search (keeps_rules, exchange_rules, send_inner_5gsm-Keeps) depth 30

  pub status_5gsm-Keeps : (req : SendGnbUeNgapRequest) → Keeps env (handle_gnb_status_5gsm env req)
  unfolding handle_gnb_status_5gsm
  status_5gsm-Keeps req = search (keeps_rules, exchange_rules, send_inner_5gsm-Keeps) depth 30

  pub handover_required-Keeps :
      (req : SendGnbUeNgapRequest) → Keeps env (handle_gnb_handover_required env req)
  unfolding handle_gnb_handover_required
  handover_required-Keeps req = search (keeps_rules, exchange_rules) depth 30

  pub status_transfer-Keeps :
      (req : SendGnbUeNgapRequest) → Keeps env (handle_gnb_ran_status_transfer env req)
  unfolding handle_gnb_ran_status_transfer
  status_transfer-Keeps req = search (keeps_rules, exchange_rules) depth 30

  pub handover_cancel-Keeps :
      (req : SendGnbUeNgapRequest) → Keeps env (handle_gnb_handover_cancel env req)
  unfolding handle_gnb_handover_cancel
  handover_cancel-Keeps req = search (keeps_rules, exchange_rules) depth 30

  pub establishment-Keeps :
      (b : Bool) (req : SendGnbUeNgapRequest)
      → Keeps env (handle_gnb_pdu_session_establishment_request env b req)
  unfolding handle_gnb_pdu_session_establishment_request
  establishment-Keeps b req = search (keeps_rules, exchange_rules, establish_session-Keeps)
