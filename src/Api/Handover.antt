-- ===== src/Api/Handover.antt =====
-- internal/api/gnb_handover_handlers.go: the handover messages of a 5G UE.
use gpp_server.Common.{ℕ, true, none, some, List, [], ◌∷◌}
use gpp_server.Common.Text.{text}
use gpp_server.Store.Pointers.{or_keep}
use gpp_server.Api.Types.{
  DrbStatusTransferInput, SendGnbUeNgapRequest, SendGnbUeNgapResponse, build_failed, no_target,
}
use gpp_server.Api.Codec.{DrbStatusTransferItem}
use gpp_server.Api.Action.{
  Env, Action, pure, or_fail, ◌>>=◌, ◌>>◌, the_ue, the_gnb, send_frame, wait_or_504,
}
use gpp_server.Api.Exchange.{effective_ran_id, effective_amf_id}
use gpp_server.Api.Sessions.{pdu_session_id_for_release}
use gpp_server.Api.Connection.{only_ngap}

abbrev pub or_session : List ℕ → ℕ → List ℕ
or_session [] id = id ∷ []
or_session (i ∷ ids) id = i ∷ ids

abbrev pub drb_items : List DrbStatusTransferInput → List DrbStatusTransferItem
drb_items [] = []
drb_items (d ∷ ds) =
    record {
      drb_id = d.drb_id;
      ul_pdcp_sn = d.ul_pdcp_sn;
      ul_hfn = d.ul_hfn;
      dl_pdcp_sn = d.dl_pdcp_sn;
      dl_hfn = d.dl_hfn;
    }
    ∷ drb_items ds

-- Without one the first bearer stands, at its start.
abbrev pub or_first_drb : List DrbStatusTransferItem → List DrbStatusTransferItem
or_first_drb [] = record { drb_id = 1; ul_pdcp_sn = 0; ul_hfn = 0; dl_pdcp_sn = 0; dl_hfn = 0 } ∷ []
or_first_drb (d ∷ ds) = d ∷ ds

module _ (env : Env) where
  -- The target's PLMN and tracking area are the source gNB's.
  unfoldable pub handle_gnb_handover_required : SendGnbUeNgapRequest → Action SendGnbUeNgapResponse
  handle_gnb_handover_required req = do
    target ← or_fail 400 no_target req.target_gnb_id
    ue ← the_ue
    g ← the_gnb
    encoded ← or_fail 500 build_failed (
        env.codec.build_handover_required (record {
          amf_ue_ngap_id = effective_amf_id req ue;
          ran_ue_ngap_id = effective_ran_id req ue;
          target_gnb_id = target;
          target_mcc = g.mcc;
          target_mnc = g.mnc;
          target_tac = g.tac;
          pdu_session_ids = or_session req.pdu_session_ids (pdu_session_id_for_release ue);
          cause_radio_network = or_keep req.handover_required_cause env.codec.handover_desirable;
        }))
    send_frame env encoded
    pure (only_ngap none)

  unfoldable pub handle_gnb_ran_status_transfer :
      SendGnbUeNgapRequest → Action SendGnbUeNgapResponse
  handle_gnb_ran_status_transfer req = do
    ue ← the_ue
    encoded ← or_fail 500 build_failed (
        env.codec.build_ran_status_transfer (effective_amf_id req ue) (effective_ran_id req ue)
          (or_first_drb (drb_items req.status_transfer_drbs)))
    send_frame env encoded
    pure (only_ngap none)

  unfoldable pub handle_gnb_handover_cancel : SendGnbUeNgapRequest → Action SendGnbUeNgapResponse
  handle_gnb_handover_cancel req = do
    ue ← the_ue
    encoded ← or_fail 500 build_failed (
        env.codec.build_handover_cancel (effective_amf_id req ue) (effective_ran_id req ue)
          (or_keep req.handover_cancel_cause env.codec.handover_cancelled))
    send_frame env encoded
    r ← wait_or_504 env (λ r. true) (text "HandoverCancelAcknowledge" ∷ text "ErrorIndication" ∷ [])
    pure (only_ngap (some r))
