-- ===== src/Api/Tests.antt =====
-- The theorems on the handlers at concrete inputs.
use gpp_server.Common.{◌≡◌, refl, none, some, [], ◌∷◌}
use gpp_server.Common.{ok}
use gpp_server.Common.Text.{text}
use gpp_server.Common.Maps.{lookup, insert, delete}
use gpp_server.Common.Queues.{queue, push, set_queue}
use gpp_server.Store.Registry.{get_gnb}
use gpp_server.Store.Gnb.{get_ue}
use gpp_server.Transport.Framed.{
  send, wait_for_message_matching, matching_turn, take_message, take_first, receive, receive_all,
}
use gpp_server.Api.Exchange.{ue_ngap_matcher, wait_for_ue}
use gpp_server.Api.Connection.{handle_gnb_ue_context_release_request, complete_release}
use gpp_server.Api.Action
use gpp_server.Api.Action.{
  Env, the_ue, or_fail, send_frame, send_stream, wait_for, wait_or_504, answer,
}
use gpp_server.Api.Dispatch.{handlers, dispatch, send_gnb_ue_ngap}
use gpp_server.Api.Fixtures.{octet, message_of, env, release_request, state}
use gpp_server.Api.StationTypes.{SendGnbNgapRequest, StationCodec}

-- The request goes out, the command comes in, and the release is completed.
released :
    (send_gnb_ue_ngap env state (text "1") (text "7") (some release_request)).1
    ≡ ok (record { ngap = message_of (1 ∷ []); nas = none; mac_verified = none })
unfolding send_gnb_ue_ngap get_gnb get_ue lookup dispatch handlers
    handle_gnb_ue_context_release_request the_ue Action.pure or_fail Action.◌>>=◌ send_frame
    send_stream wait_for_ue wait_or_504 wait_for ue_ngap_matcher complete_release answer send
    wait_for_message_matching matching_turn take_message take_first receive receive_all queue push
    set_queue insert delete
released = refl

abbrev station_codec : StationCodec
station_codec = record {
  build_handover_request_acknowledge = λ p. octet 13;
  build_handover_notify = λ p. octet 11;
  build_handover_failure = λ amf cause. octet 13;
  build_path_switch_request = λ p. octet 25;
  build_ng_reset = λ all connections. octet 20;
  handover_failure_in_target = 2;
}

-- A raw message, and the wait for a release command.
abbrev raw_request : SendGnbNgapRequest
raw_request = record {
  message_type = [];
  raw_ngap_pdu = some (text "0014");
  wait_for = text "UEContextReleaseCommand" ∷ [];
  timeout_ms = 0;
  reset_ue_ids = [];
  amf_ue_ngap_id = none;
  ran_ue_ngap_id = none;
  pdu_sessions = [];
  ue_security_capabilities = none;
  omit_ies = [];
  failed_pdu_sessions = [];
  cause = none;
}
