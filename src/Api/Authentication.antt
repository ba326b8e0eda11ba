-- ===== src/Api/Authentication.antt =====
-- internal/api/gnb_nas_handlers.go: authentication, identification and security mode of a 5G UE.
use gpp_server.Common.{ℕ, ◌||◌, none, List, [], ◌∷◌}
use gpp_server.Common.{Outcome, ok, err, panic, stuck, ◌==◌, if◌then◌else◌, length}
use gpp_server.Common.Text.{text}
use gpp_server.Store.Contexts.{UeContext}
use gpp_server.Store.Pointers.{or_keep}
use gpp_server.Identity.Aka.{AkaError, compute_5g_aka, compute_auts}
use gpp_server.Api.Types.{SendGnbUeNgapRequest, SendGnbUeNgapResponse, build_failed, aka_failed}
use gpp_server.Api.Action.{
  Env, Action, pure, fail, or_fail, case_of, from_hex, ◌>>=◌, ◌>>◌, the_ue, modify_ue,
}
use gpp_server.Api.Exchange.{protection_of, protect_uplink, send_uplink_and_wait}
use gpp_server.Api.Registration.{registration_request_pdu, downlink_answers}

-- A result of internal/crypto, whose error is status 500.
abbrev pub or_aka_failed {ℓ} : {A : Type ℓ} → Outcome AkaError A → Action A
or_aka_failed (ok a) s = pure a s
or_aka_failed (err e) s = fail 500 aka_failed s
or_aka_failed panic s = (s, panic)
or_aka_failed stuck s = (s, stuck)

abbrev pub sixteen_zeros : List ℕ
sixteen_zeros = 0 ∷ 0 ∷ 0 ∷ 0 ∷ 0 ∷ 0 ∷ 0 ∷ 0 ∷ 0 ∷ 0 ∷ 0 ∷ 0 ∷ 0 ∷ 0 ∷ 0 ∷ 0 ∷ []

-- A message of the UE's own making, unless the request brings its octets.
abbrev pub raw_or : SendGnbUeNgapRequest → Action (List ℕ) → Action (List ℕ)
raw_or req made = case_of req.raw_nas_pdu made (λ raw. from_hex raw)

module _ (env : Env) where
  -- From the challenge if there is one; the UE keeps the key.
  unfoldable pub answer_challenge : UeContext → Action (List ℕ)
  answer_challenge ue =
      if length ue.rand == 0 || length ue.autn == 0 then pure sixteen_zeros else do
        result ←
            or_aka_failed
              (compute_5g_aka env.aka ue.k ue.opc ue.sqn ue.supi ue.mcc ue.mnc ue.rand ue.autn)
        modify_ue (λ u. record u { kamf = result.kamf })
        pure (result.res_star)

  -- RES*
  unfoldable pub res_star_of : SendGnbUeNgapRequest → UeContext → Action (List ℕ)
  res_star_of req ue = case_of req.res_star_override (answer_challenge ue) (λ raw. from_hex raw)

  unfoldable pub handle_gnb_authentication_response :
      SendGnbUeNgapRequest → Action SendGnbUeNgapResponse
  handle_gnb_authentication_response req = do
    ue ← the_ue
    nas_pdu ← raw_or req (
        res_star_of req ue >>= λ res_star.
        or_fail 500 build_failed (env.codec.build_authentication_response res_star))
    send_uplink_and_wait env req nas_pdu downlink_answers

  -- The complete message, with the registration request inside, in the new context.
  unfoldable pub security_mode_complete_pdu : SendGnbUeNgapRequest → Action (List ℕ)
  security_mode_complete_pdu req = do
    ue ← the_ue
    reg_req ← registration_request_pdu env req ue.ng_ksi
    smc ← or_fail 500 build_failed (env.codec.build_security_mode_complete reg_req ue.imeisv)
    protect_uplink env smc env.nas.sht_ciphered_new_context (protection_of req)

  unfoldable pub handle_gnb_security_mode_complete :
      SendGnbUeNgapRequest → Action SendGnbUeNgapResponse
  handle_gnb_security_mode_complete req = do
    nas_pdu ← raw_or req (security_mode_complete_pdu req)
    send_uplink_and_wait env req nas_pdu (
        text "InitialContextSetupRequest"
        ∷ text "DownlinkNASTransport"
        ∷ text "ErrorIndication"
        ∷ [])

  abbrev pub protected_if_keyed : UeContext → List ℕ → Action (List ℕ)
  protected_if_keyed ue plain =
      if length ue.kamf == 0 then pure plain else protect_uplink env plain env.nas.sht_ciphered none

  unfoldable pub identity_response_pdu : SendGnbUeNgapRequest → Action (List ℕ)
  identity_response_pdu req = do
    ue ← the_ue
    mobile_identity ← case_of req.mobile_identity_override (pure (ue.suci)) (λ raw. from_hex raw)
    plain ← or_fail 500 build_failed (env.codec.build_identity_response mobile_identity)
    protected_if_keyed ue plain

  unfoldable pub handle_gnb_identity_response : SendGnbUeNgapRequest → Action SendGnbUeNgapResponse
  handle_gnb_identity_response req = do
    nas_pdu ← raw_or req (identity_response_pdu req)
    send_uplink_and_wait env req nas_pdu (
        text "DownlinkNASTransport"
        ∷ text "InitialContextSetupRequest"
        ∷ text "ErrorIndication"
        ∷ [])

  -- AUTS goes with a synchronisation failure only.
  unfoldable pub authentication_failure_pdu : SendGnbUeNgapRequest → Action (List ℕ)
  authentication_failure_pdu req = do
    ue ← the_ue
    let cause = or_keep req.five_gmm_cause env.codec.cause_mac_failure
    auts ←
        if cause == env.codec.cause_synch_failure
        then or_aka_failed (compute_auts env.aka ue.k ue.opc ue.sqn ue.rand)
        else pure []
    or_fail 500 build_failed (env.codec.build_authentication_failure cause auts)

  unfoldable pub handle_gnb_authentication_failure :
      SendGnbUeNgapRequest → Action SendGnbUeNgapResponse
  handle_gnb_authentication_failure req = do
    nas_pdu ← raw_or req (authentication_failure_pdu req)
    send_uplink_and_wait env req nas_pdu downlink_answers

  unfoldable pub handle_gnb_security_mode_reject :
      SendGnbUeNgapRequest → Action SendGnbUeNgapResponse
  handle_gnb_security_mode_reject req = do
    nas_pdu ← raw_or req (
        or_fail 500 build_failed (
          env.codec.build_security_mode_reject
            (or_keep req.five_gmm_cause env.codec.cause_capabilities_mismatch)))
    send_uplink_and_wait env req nas_pdu
        (text "UEContextReleaseCommand" ∷ text "DownlinkNASTransport" ∷ text "ErrorIndication" ∷ [])
