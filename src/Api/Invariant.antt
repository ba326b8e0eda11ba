-- ===== src/Api/Invariant.antt =====
-- Every handler keeps the subscriber, the gNB, the security context in force and the log.
use gpp_server.Common.{
  ℕ, refl, Bool, true, false, Option, none, some, List, if◌then◌else◌, ◌==◌, length,
}
use gpp_server.Common.Text.{GoString, text}
use gpp_server.Store.Contexts.{UeContext}
use gpp_server.Nas.Types.{NasResponse, Guti5GJson}
use gpp_server.Api.Types.{NgapResponse, SendGnbUeNgapRequest}
use gpp_server.Api.Codec.{
  FiveGStmsiFromGuti, InitialUeMessageOverrides, UplinkNasTransportOverrides,
}
use gpp_server.Api.Action.{Env}
use gpp_server.Common.{inl}
use gpp_server.Api.Keeps.{Successor, Successor-refl, Successor-trans, successor}
use gpp_server.Api.Steps.{Keeps, keeps_rules}
use gpp_server.Api.Exchange.{
  assign_amf_id, remember, remember_guti, remember_ksi, remember_challenge, downlink_of,
  downlink_or_plain, answer_command, wait_for_ue, send_raw_and_wait, uplink_nas_transport,
  send_uplink_and_wait, initial_ue_message, is_message,
}

pub if-Successor :
    {env : Env} (b : Bool) (u v w : UeContext)
    → Successor env u v
    → Successor env u w
    → Successor env u (if b then v else w)
if-Successor true u v w h k = h
if-Successor false u v w h k = k

pub assign_amf_id-Successor :
    {env : Env} (r : NgapResponse) (u : UeContext) → Successor env u (assign_amf_id r u)
unfolding assign_amf_id
assign_amf_id-Successor r u =
    if-Successor (is_message (text "ErrorIndication") r) u u _ (Successor-refl u)
      (successor refl (inl (refl, refl)) (inl (refl, refl)) (inl refl) (λ h. h))

module _ (env : Env) where
  pub wait_for_ue-Keeps :
      (req : SendGnbUeNgapRequest) (types : List GoString) → Keeps env (wait_for_ue env req types)
  unfolding wait_for_ue
  wait_for_ue-Keeps req types = search keeps_rules

  pub answer_command-Keeps : (r : NgapResponse) → Keeps env (answer_command env r)
  unfolding answer_command
  answer_command-Keeps r = search keeps_rules

  pub downlink_of-Keeps : (r : NgapResponse) → Keeps env (downlink_of env r)
  unfolding downlink_of
  downlink_of-Keeps r = search keeps_rules

  pub downlink_or_plain-Keeps :
      (ue : UeContext) (r : NgapResponse) → Keeps env (downlink_or_plain env ue r)
  unfolding downlink_or_plain
  downlink_or_plain-Keeps ue r = search keeps_rules

  remember_challenge-Successor :
      (r : NasResponse) (u : UeContext) → Successor env u (remember_challenge env r u)
  remember_challenge-Successor r u =
      if-Successor (length r.rand == 0) u u _ (Successor-refl u)
        (successor refl (inl (refl, refl)) (inl (refl, refl)) (inl refl) (λ h. h))

  remember_ksi-Successor :
      (k a : Option ℕ) (u : UeContext) → Successor env u (remember_ksi env k a u)
  remember_ksi-Successor (some k) (some a) u =
      successor refl (inl (refl, refl)) (inl (refl, refl)) (inl refl) (λ h. h)
  remember_ksi-Successor (some k) none u = Successor-refl u
  remember_ksi-Successor none a u = Successor-refl u

  remember_guti-Successor :
      (g : Option Guti5GJson) (u : UeContext) → Successor env u (remember_guti env g u)
  remember_guti-Successor none u = Successor-refl u
  remember_guti-Successor (some g) u =
      successor refl (inl (refl, refl)) (inl (refl, refl)) (inl refl) (λ h. h)

  remember-Successor : (r : Option NasResponse) (u : UeContext) → Successor env u (remember env r u)
  unfolding remember
  remember-Successor none u = Successor-refl u
  remember-Successor (some r) u =
      let u1 = remember_challenge env r u in
      let u2 = remember_ksi env r.ng_ksi r.selected_ciphering_algorithm u1 in
      Successor-trans u u2 (remember_guti env r.guti u2)
        (Successor-trans u u1 u2 (remember_challenge-Successor r u)
          (remember_ksi-Successor r.ng_ksi r.selected_ciphering_algorithm u1))
        (remember_guti-Successor r.guti u2)

  pub send_raw_and_wait-Keeps :
      (req : SendGnbUeNgapRequest) (encoded : List ℕ) (types : List GoString)
      → Keeps env (send_raw_and_wait env req encoded types)
  unfolding send_raw_and_wait
  send_raw_and_wait-Keeps req encoded types =
      search
        (
          keeps_rules, assign_amf_id-Successor, remember-Successor, wait_for_ue-Keeps,
          answer_command-Keeps, downlink_or_plain-Keeps,
        )
        depth 20

  pub uplink_nas_transport-Keeps :
      (o : Option UplinkNasTransportOverrides) (nas_pdu : List ℕ)
      → Keeps env (uplink_nas_transport env o nas_pdu)
  unfolding uplink_nas_transport
  uplink_nas_transport-Keeps o nas_pdu = search keeps_rules

  pub send_uplink_and_wait-Keeps :
      (req : SendGnbUeNgapRequest) (nas_pdu : List ℕ) (types : List GoString)
      → Keeps env (send_uplink_and_wait env req nas_pdu types)
  unfolding send_uplink_and_wait
  send_uplink_and_wait-Keeps req nas_pdu types =
      search (keeps_rules, uplink_nas_transport-Keeps, send_raw_and_wait-Keeps)

  pub initial_ue_message-Keeps :
      (ran : ℕ) (nas_pdu : List ℕ) (guti : Option FiveGStmsiFromGuti)
      (o : Option InitialUeMessageOverrides)
      → Keeps env (initial_ue_message env ran nas_pdu guti o)
  unfolding initial_ue_message
  initial_ue_message-Keeps ran nas_pdu guti o = search keeps_rules

pub ruleset exchange_rules = (
  assign_amf_id-Successor, wait_for_ue-Keeps, downlink_of-Keeps, send_raw_and_wait-Keeps,
  uplink_nas_transport-Keeps, send_uplink_and_wait-Keeps, initial_ue_message-Keeps,
)
