-- ===== src/Api/StationDispatch.antt =====
-- internal/api/gnb_ngap_handlers.go: `SendGNBNGAP`, from the path of the request to the handler.
use gpp_server.Common.{ℕ, Option, none, some, List, [], ◌∷◌}
use gpp_server.Common.{Outcome, ok, err, panic, stuck}
use gpp_server.Common.Maps.{bytes_key, lookup, insert}
use gpp_server.Common.Text.{GoString, text}
use gpp_server.Store.Contexts.{UeContext, update}
use gpp_server.Store.Registry
use gpp_server.Store.Registry.{StoreError}
use gpp_server.Store.Gnb
use gpp_server.Api.Types.{
  StatusError, SendGnbUeNgapResponse, gnb_not_found, no_transport, bad_body, unsupported,
}
use gpp_server.Api.Action.{Env, Action, fail, case_of}
use gpp_server.Api.StationTypes.{SendGnbNgapRequest, StationCodec}
use gpp_server.Api.Station.{
  handle_gnb_handover_request_acknowledge, handle_gnb_handover_notify, handle_gnb_handover_failure,
  handle_gnb_path_switch_request, handle_gnb_raw_ngap, handle_gnb_ng_reset,
}
use gpp_server.Api.Dispatch.{Connection, ApiState, status_error}

abbrev pub StationHandler : Type 0
StationHandler = SendGnbNgapRequest → Action SendGnbUeNgapResponse

-- The contents of an address that a map may give.
abbrev pub at_address : (ℕ → UeContext) → Option ℕ → Option UeContext
at_address ue_at none = none
at_address ue_at (some p) = some (ue_at p)

module _ (env : Env) (codec : StationCodec) where
  -- The named cases of the switch.
  unfoldable pub station_handlers : (GoString → Option UeContext) → List (GoString × StationHandler)
  station_handlers find =
      (text "ng_reset", handle_gnb_ng_reset env codec find)
      ∷ (text "handover_request_acknowledge", handle_gnb_handover_request_acknowledge env codec)
      ∷ (text "handover_failure", handle_gnb_handover_failure env codec)
      ∷ (text "handover_notify", handle_gnb_handover_notify env codec)
      ∷ (text "path_switch_request", handle_gnb_path_switch_request env codec)
      ∷ []

  abbrev pub run_station_handler : Option StationHandler → StationHandler
  run_station_handler none req = fail 400 unsupported
  run_station_handler (some handle) req = handle req

  -- A raw message goes first.
  unfoldable pub station_dispatch : (GoString → Option UeContext) → StationHandler
  station_dispatch find req =
      case_of req.raw_ngap_pdu
        (run_station_handler (lookup (req.message_type) (station_handlers find)) req)
        (λ raw. handle_gnb_raw_ngap env codec raw req)

-- A request on a gNB, from the path to its handler. The handler gets no UE but those that it looks
-- up by their ids, and reads these; the session's own UE is the one at the next address, at which
-- there is none yet, and it is written back there.
module _ {Req Resp : Type 0} (handle : (GoString → Option UeContext) → Req → Action Resp) where
  abbrev pub run_on_station :
      ApiState → GoString → ℕ → Connection → Req → ApiState × Outcome StatusError Resp
  run_on_station st gnb_id g connection req =
      let w = st.world in
      let (s, outcome) =
        handle (λ id. at_address w.ue_at (Gnb.get_ue (w.gnb_at g) id)) req
          (record {
            ue = w.ue_at w.fresh;
            gnb = w.gnb_at g;
            frames = connection.frames;
            sent = connection.sent;
          }) in
      (
        record st {
          world = record w {
            ue_at = update w.ue_at w.fresh s.ue;
            gnb_at = update w.gnb_at g s.gnb;
          };
          transports = insert gnb_id (record { frames = s.frames; sent = s.sent }) st.transports;
        },
        outcome,
      )

  abbrev pub on_station_connection :
      ApiState → GoString → ℕ → Option Connection → Option Req → ApiState × Outcome StatusError Resp
  on_station_connection st gnb_id g none body = (st, err (status_error 400 no_transport))
  on_station_connection st gnb_id g (some c) none = (st, err (status_error 400 bad_body))
  on_station_connection st gnb_id g (some c) (some req) = run_on_station st gnb_id g c req

  abbrev pub on_station :
      ApiState → GoString → Outcome StoreError ℕ → Option Req → ApiState × Outcome StatusError Resp
  on_station st gnb_id (ok g) body =
      on_station_connection st gnb_id g (lookup gnb_id (st.transports)) body
  on_station st gnb_id (err e) body = (st, err (status_error 404 gnb_not_found))
  on_station st gnb_id panic body = (st, panic)
  on_station st gnb_id stuck body = (st, stuck)

module _ (env : Env) (codec : StationCodec) where
  unfoldable pub send_gnb_ngap :
      ApiState
      → GoString
      → Option SendGnbNgapRequest
      → ApiState × Outcome StatusError SendGnbUeNgapResponse
  send_gnb_ngap st gnb_id body =
      on_station (station_dispatch env codec) st gnb_id (Registry.get_gnb (st.world) gnb_id) body
